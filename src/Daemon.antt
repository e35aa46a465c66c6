-- ===== src/Daemon.antt =====
-- swale/src/daemon.rs, `Daemon::sync`: the published definitions that the daemon adopts. The pointers
-- of the definition store and the write of a record are parameters; a log entry is not modelled.
pub mod Exclusive
pub mod Examples
use swale.Base.{
  ℕ, Bool, true, false, not, Option, none, some, List, [], ◌∷◌, ◌++◌, Text, Map, get, insert, codes,
  text_eq, find, map, if◌then◌else◌,
}
use swale.Base.Calls.{Call, Done, ◌>>=◌, return, caught}
use swale.Base.Results.{Result}
use swale.Graph.{Graph, Node, name, node_asset, conflicting_asset, option_text_eq}
use swale.Records.{GraphRecord}
use swale.Records.Keys.{graph_key}
use swale.Scheduler.{Error}
use swale.Scheduler.Requests.{error_text}
use swale.Scheduler.Services.{Services, Action, graph_record}
use swale.Scheduler.Workers.{firing_headers}

-- a schedule on the triggers queue, with the catch-up window as its backfill
pub record Schedule (Expression : Type 0) : Type 0 where
  pub name : Text
  pub expression : Expression
  pub headers : Map Text
  pub backfill : Option ℕ

pub record SyncReport (Expression : Type 0) : Type 0 where
  pub adopted : List (Text × Text)
  pub refused : List (Text × Text)
  pub schedules : List (Schedule Expression)

abbrev pub asset_text : Option Text → Text
asset_text none = []
asset_text (some asset) = asset

-- the reason of a pool without a runtime
unfoldable pub pool_reason : (Text → Bool) → List Node → Option Text
pool_reason has_runtime [] = none
pool_reason has_runtime (n ∷ ns) =
    let rest = pool_reason has_runtime ns in
    if has_runtime n.spec.pool
    then rest
    else some (
        codes "node `"
        ++ (name n ++ (codes "`: pool `" ++ (n.spec.pool ++ codes "` does not have a runtime"))))

module _ {Expression : Type 0} where
  -- `schedule_of`
  unfoldable pub schedule_of : Graph Expression → Option (Schedule Expression)
  unfolding firing_headers
  schedule_of g = elim g.schedule [
    | none ↦ none
    | some expression ↦ some (record {
      name = g.name;
      expression = expression;
      headers = firing_headers g.name;
      backfill = g.catchup;
    })
  ]

  unfoldable pub schedules_of : Map (Graph Expression) → List (Schedule Expression)
  unfolding schedule_of
  schedules_of [] = []
  schedules_of ((_, g) ∷ graphs) = elim (schedule_of g) [
    | none ↦ schedules_of graphs
    | some s ↦ s ∷ schedules_of graphs
  ]

  -- the reason of an asset that another adopted graph produces
  unfoldable pub asset_reason : Text → Graph Expression → Map (Graph Expression) → Option Text
  asset_reason pointer g [] = none
  asset_reason pointer g ((other, h) ∷ adopted) =
      let rest = asset_reason pointer g adopted in
      if text_eq other pointer then rest else elim (conflicting_asset g h) [
        | none ↦ rest
        | some n ↦ some (
            codes "node `"
            ++ (name n
                ++ (codes "`: asset `"
                    ++ (asset_text (node_asset n)
                        ++ (codes "` is produced by graph `" ++ (other ++ codes "`"))))))
      ]

  -- `Daemon::check`, the reason to refuse a definition
  unfoldable pub check :
      (Text → Bool) → Text → Graph Expression → Map (Graph Expression) → Option Text
  unfolding pool_reason asset_reason
  check has_runtime pointer g adopted =
      if text_eq g.name pointer
      then elim (pool_reason has_runtime g.nodes) [
        | some reason ↦ some reason
        | none ↦ asset_reason pointer g adopted
      ]
      else some (codes "the definition is of graph `" ++ (g.name ++ codes "`"))

-- what a pass carries from one definition to the next
pub record Sync (Expression : Type 0) : Type 0 where
  pub graphs : Map (Graph Expression)
  pub adopted : List (Text × Text)
  pub refused : List (Text × Text)

module _ {S Expression : Type 0} (services : Services S Expression)
    -- `DefinitionStore::current`, the hashes by graph name in the order of the names
    (current : Action S (List (Text × Text))) (kv_put : Text → Text → Action S Unit)
    (encode_graph : GraphRecord → Text) where
  -- the definition that a graph record names
  adopted_graph : Option GraphRecord → Action S (Option (Graph Expression))
  adopted_graph none = return none
  adopted_graph (some r) = services.definition r.definition

  add_graph : Text → Option (Graph Expression) → Map (Graph Expression) → Map (Graph Expression)
  add_graph k none graphs = graphs
  add_graph k (some g) graphs = insert k g graphs

  is_adopted : Option GraphRecord → Text → Bool
  is_adopted none hash = false
  is_adopted (some r) hash = text_eq r.definition hash

  -- the loop over the pointers: the adopted graphs, and the pointers of a definition to adopt
  unfoldable pub load_adopted :
      List (Text × Text)
      → Map (Graph Expression)
      → Action S (Map (Graph Expression) × List (Text × Text))
  unfolding adopted_graph add_graph is_adopted
  load_adopted [] graphs = return (graphs, [])
  load_adopted ((pointer, hash) ∷ pointers) graphs = do
    found ← graph_record services pointer
    g ← adopted_graph found
    (loaded, pending) ← load_adopted pointers (add_graph pointer g graphs)
    return (loaded, if is_adopted found hash then pending else (pointer, hash) ∷ pending)

  -- `Daemon::adopt`
  unfoldable pub adopt : Text → Text → Action S Unit
  adopt hash pointer = do
    now ← services.now_ms
    kv_put (graph_key pointer) (encode_graph (record { definition = hash; adopted_at_ms = now }))

  refused_with : Text → Text → Sync Expression → Sync Expression
  refused_with pointer reason sync = record sync {
    refused = sync.refused ++ ((pointer, reason) ∷ []);
  }

  -- a definition after its load
  unfoldable pub adopt_checked :
      Text → Text → Graph Expression → Sync Expression → Option Text → Action S (Sync Expression)
  unfolding refused_with adopt
  adopt_checked pointer hash g sync (some reason) = return (refused_with pointer reason sync)
  adopt_checked pointer hash g sync none = do
    _ ← adopt hash pointer
    return (record sync {
      graphs = insert pointer g sync.graphs;
      adopted = sync.adopted ++ ((pointer, hash) ∷ []);
    })

  unfoldable pub adopt_loaded :
      Text
      → Text
      → Sync Expression
      → Result Error (Option (Graph Expression))
      → Action S (Sync Expression)
  unfolding refused_with adopt_checked check
  adopt_loaded pointer hash sync (Result.err e) = return (refused_with pointer (error_text e) sync)
  adopt_loaded pointer hash sync (Result.ok none) =
      return (refused_with pointer (codes "the definition object is absent") sync)
  adopt_loaded pointer hash sync (Result.ok (some g)) =
      adopt_checked pointer hash g sync (check services.has_runtime pointer g sync.graphs)

  -- the loop over the definitions to adopt
  unfoldable pub adopt_pending : List (Text × Text) → Sync Expression → Action S (Sync Expression)
  unfolding adopt_loaded
  adopt_pending [] sync = return sync
  adopt_pending ((pointer, hash) ∷ pending) sync = do
    loaded ← caught (services.definition hash)
    next ← adopt_loaded pointer hash sync loaded
    adopt_pending pending next

  -- `Daemon::sync`
  unfoldable pub sync : Action S (SyncReport Expression)
  unfolding load_adopted adopt_pending schedules_of
  sync = do
    pointers ← current
    (graphs, pending) ← load_adopted pointers []
    end ← adopt_pending pending (record { graphs = graphs; adopted = []; refused = [] })
    return (record {
      adopted = end.adopted;
      refused = end.refused;
      schedules = schedules_of end.graphs;
    })
