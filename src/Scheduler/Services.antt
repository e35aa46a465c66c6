-- ===== src/Scheduler/Services.antt =====
-- What the scheduler calls: the queue with its key-value store, the definition store, the runtimes
-- of the pools and the clock, over a state `S` of the world, and the reads of swale/src/scheduler.rs.
use swale.Base.{ℕ, Bool, Option, none, some, List, [], ◌∷◌, Text, Map, insert}
pub use swale.Base.Calls.{
  Done, ok, err, panicked, Call, continue, continue-eq_ok, ◌>>=◌, return, fail, or_fail, or_panic,
}
use swale.Data.{Json, TomlTable}
use swale.Graph.{Graph, Node, name}
use swale.Input.{TaskInput}
use swale.Partition.{Partition, CivilTime}
use swale.Records.{NodeRecord, GraphRunRecord, GraphRecord}
use swale.Records.Keys.{node_record_key, graph_key, graph_runs_prefix}
use swale.Scheduler.{Error}

-- a step of the scheduler
abbrev pub Action : Type 0 → Type 0 → Type 0
Action S A = Call Error S A

-- `taquba_workflow::RunSpec`
pub record RunSpec : Type 0 where
  pub run_id : Text
  pub input : TaskInput
  pub headers : Map Text
  pub max_attempts_per_step : ℕ

-- an effect of `taquba::SettlementEffects`
pub data Effect : Type 0 where
  kv_put : Text → Text → Effect
  expiry_entry : ℕ → Text → Effect

pub record Services (S Expression : Type 0) : Type 0 where
  pub now_ms : Action S ℕ
  pub kv_get : Text → Action S (Option Text)
  pub kv_compare_put : Text → Option Text → Text → Action S Bool
  pub kv_compare_commit : Text → Option Text → List Effect → Action S Bool
  -- the keys and the values of one prefix, in key order
  pub kv_entries : Text → Action S (List (Text × Text))
  pub definition : Text → Action S (Option (Graph Expression))
  pub has_runtime : Text → Bool
  pub submit : Text → RunSpec → List Effect → Action S Bool
  -- whether the runtime of a pool has a run that is not terminated
  pub is_active : Text → Text → Action S Bool
  -- `false` is `CancelRunOutcome::NotActive`
  pub cancel : Text → Text → Text → Action S Bool
  pub cancel_group : Text → Text → Text → Action S Unit
  pub new_run_id : Text → Option Text
  pub encode_run : GraphRunRecord → Text
  pub decode_run : Text → Option GraphRunRecord
  pub decode_node : Text → Option NodeRecord
  pub decode_graph : Text → Option GraphRecord
  -- the message of the JSON parser for bytes that are not the record
  pub parse_error : Text → Text
  pub to_value : TomlTable → Json
  pub from_timestamp_millis : ℕ → Option CivilTime

module _ {S Expression : Type 0} (services : Services S Expression) where
  -- `records::read` with the parser of the record
  unfoldable pub read_with : {R : Type 0} → (Text → Option R) → Text → Action S (Option R)
  read_with decode key = do
    bytes ← services.kv_get key
    elim bytes [
      | none ↦ return none
      | some b ↦ elim (decode b) [
        | none ↦ fail (Error.malformed_record key (services.parse_error b))
        | some r ↦ return (some r)
      ]
    ]

  unfoldable pub graph_record : Text → Action S (Option GraphRecord)
  unfolding read_with
  graph_record graph = read_with services.decode_graph (graph_key graph)

  unfoldable pub load_graph : Text → Action S (Graph Expression)
  load_graph hash = do
    found ← services.definition hash
    or_fail (Error.unknown_definition hash) found

  -- `graph_run`: the record with the bytes that it was read from
  unfoldable pub graph_run : Text → Action S (Option (GraphRunRecord × Text))
  graph_run key = do
    bytes ← services.kv_get key
    elim bytes [
      | none ↦ return none
      | some b ↦ elim (services.decode_run b) [
        | none ↦ fail (Error.malformed_record key (services.parse_error b))
        | some r ↦ return (some (r, b))
      ]
    ]

  unfoldable pub node_record : Graph Expression → Partition → Node → Action S (Option NodeRecord)
  unfolding read_with
  node_record g partition n = read_with services.decode_node (node_record_key g.name partition n)

  add_record : Text → Option NodeRecord → Map NodeRecord → Map NodeRecord
  add_record k none records = records
  add_record k (some r) records = insert k r records

  -- the loop of `node_records`
  unfoldable pub read_records :
      Graph Expression → Partition → List Node → Map NodeRecord → Action S (Map NodeRecord)
  unfolding add_record
  read_records g partition [] records = return records
  read_records g partition (n ∷ ns) records = do
    found ← node_record g partition n
    read_records g partition ns (add_record (name n) found records)

  unfoldable pub node_records : Graph Expression → Partition → Action S (Map NodeRecord)
  unfolding read_records
  node_records g partition = read_records g partition g.nodes []

  -- `records::scan` of the graph run records: a value that is not one is skipped
  parse_entries : List (Text × Text) → List (Text × Text × GraphRunRecord)
  parse_entries [] = []
  parse_entries ((key, bytes) ∷ entries) = elim (services.decode_run bytes) [
    | none ↦ parse_entries entries
    | some run ↦ (key, bytes, run) ∷ parse_entries entries
  ]

  unfoldable pub scan_runs : Action S (List (Text × Text × GraphRunRecord))
  unfolding parse_entries
  scan_runs = do entries ← services.kv_entries graph_runs_prefix; return (parse_entries entries)
