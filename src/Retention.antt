-- ===== src/Retention.antt =====
-- swale/src/retention.rs: the pass that removes the records of settled graph runs and of requests,
-- and `forget_groups` of swale/src/scheduler.rs. The pass over the expiry index, the groups of the
-- runtimes and the parser of a request record are parameters.
pub mod Runs
pub mod Counts
pub mod Examples
use swale.Base.{
  ℕ, ◌+◌, Bool, true, false, Option, none, some, List, [], ◌∷◌, Text, map, ◌==◌, if◌then◌else◌,
}
use swale.Base.Calls.{Done, caught}
use swale.Base.Results.{Result}
use swale.Graph.{Graph, Node, name}
use swale.Partition.{Partition}
use swale.Records.{GraphRunRecord}
use swale.Records.Keys.{Expiring, parse_suffix, graph_run_key, node_record_key, request_key}
use swale.Request.{RequestId}
use swale.Scheduler.{Error}
use swale.Scheduler.Requests.{RequestRecord}
use swale.Scheduler.Services.{
  Services, Action, ok, ◌>>=◌, return, fail, or_panic, graph_run, read_with,
}
use swale.Task.{group_id}

pub record ExpireReport : Type 0 where
  pub runs : ℕ
  pub requests : ℕ

-- `taquba::Expired`, whose effects are the keys that the transaction deletes
pub data Expired : Type 0 where
  keep : Expired
  delete : List Text → Expired
  -- the key and the bytes of the compare, and the keys that are deleted
  delete_if : Text → Option Text → List Text → Expired

-- `stale`
abbrev pub stale : Expired
stale = Expired.delete []

-- what a pass shares between the entries
pub record PassState : Type 0 where
  pub runs : ℕ
  pub requests : ℕ
  pub failure : Option Error

abbrev pub no_failure : PassState
no_failure = record { runs = 0; requests = 0; failure = none }

abbrev pub same_settle : Option ℕ → ℕ → Bool
same_settle none time = false
same_settle (some settled) time = settled == time

module _ {S Expression : Type 0} (services : Services S Expression)
    -- the removal of a run group on the runtime of a pool
    (forget_group : Text → Text → Action S Unit)
    (decode_request : Text → Option RequestRecord) where
  forget_node : Graph Expression → Partition → Node → Action S Unit
  forget_node g partition n = elim n.spec.each [
    | none ↦ return tt
    | some _ ↦
        if services.has_runtime n.spec.pool
        then (or_panic (group_id services.new_run_id g.name partition (name n))
            >>= forget_group n.spec.pool)
        else return tt
  ]

  forget_nodes : Graph Expression → Partition → List Node → Action S Unit
  unfolding forget_node
  forget_nodes g partition [] = return tt
  forget_nodes g partition (n ∷ ns) = do _ ← forget_node g partition n; forget_nodes g partition ns

  -- `Scheduler::forget_groups`
  unfoldable pub forget_groups : Graph Expression → Partition → Action S Unit
  unfolding forget_nodes
  forget_groups g partition = forget_nodes g partition g.nodes

  -- the keys of a graph run: its own and those of the nodes of its definition
  unfoldable pub run_keys : Graph Expression → Text → Partition → List Text
  run_keys g graph partition =
      graph_run_key graph partition ∷ map (node_record_key graph partition) g.nodes

  -- the removal of a run with its definition
  unfoldable pub remove_run : Text → Partition → Text → Graph Expression → Action S Expired
  unfolding run_keys
  remove_run graph partition bytes g = do
    _ ← forget_groups g partition
    return (
        Expired.delete_if (graph_run_key graph partition) (some bytes) (run_keys g graph partition))

  unfoldable pub with_definition :
      Text → Partition → Text → Result Error (Option (Graph Expression)) → Action S Expired
  unfolding remove_run
  with_definition graph partition bytes (Result.ok (some g)) = remove_run graph partition bytes g
  with_definition graph partition bytes (Result.ok none) = return Expired.keep
  with_definition graph partition bytes (Result.err _) = return Expired.keep

  unfoldable pub settled_run_at : ℕ → Text → Partition → GraphRunRecord → Text → Action S Expired
  unfolding with_definition
  settled_run_at time graph partition run bytes =
      if same_settle run.settled_at_ms time
      then (caught (services.definition run.definition) >>= with_definition graph partition bytes)
      else return stale

  unfoldable pub found_run :
      ℕ → Text → Partition → Option (GraphRunRecord × Text) → Action S Expired
  unfolding settled_run_at
  found_run time graph partition none = return stale
  found_run time graph partition (some (run, bytes)) = settled_run_at time graph partition run bytes

  -- `Scheduler::expire_run`
  unfoldable pub expire_run : ℕ → Text → Partition → Action S Expired
  unfolding found_run
  expire_run time graph partition = do
    found ← graph_run services (graph_run_key graph partition)
    found_run time graph partition found

  handled_request : ℕ → Text → Text → Option RequestRecord → Action S Expired
  handled_request time key bytes none =
      fail (Error.malformed_record key (services.parse_error bytes))
  handled_request time key bytes (some handled) =
      if handled.handled_at_ms == time
      then return (Expired.delete_if key (some bytes) (key ∷ []))
      else return stale

  -- `Scheduler::expire_request`
  unfoldable pub expire_request : ℕ → RequestId → Action S Expired
  unfolding handled_request
  expire_request time id = do
    found ← services.kv_get (request_key id)
    elim found [
      | none ↦ return stale
      | some bytes ↦ handled_request time (request_key id) bytes (decode_request bytes)
    ]

  -- the record of an entry
  unfoldable pub expire_record : ℕ → Expiring → Action S Expired
  unfolding expire_run expire_request
  expire_record time (Expiring.run graph partition) = expire_run time graph partition
  expire_record time (Expiring.request id) = expire_request time id

  abbrev pub count : Expiring → Expired → PassState → PassState
  count (Expiring.run _ _) (Expired.delete_if _ _ _) pass = record pass { runs = pass.runs + 1 }
  count (Expiring.request _) (Expired.delete_if _ _ _) pass = record pass {
    requests = pass.requests + 1;
  }
  count _ Expired.keep pass = pass
  count _ (Expired.delete _) pass = pass

  -- the outcome of an entry, and what it adds to the pass
  unfoldable pub counted : Expiring → PassState → Result Error Expired → Expired × PassState
  counted expiring pass (Result.ok expired) = (expired, count expiring expired pass)
  counted expiring pass (Result.err e) = (Expired.keep, record pass { failure = some e })

  -- the closure of `Scheduler::expire`
  unfoldable pub expire_entry : PassState → ℕ → Text → Action S (Expired × PassState)
  unfolding expire_record counted
  expire_entry pass time suffix = elim pass.failure [
    | some _ ↦ return (Expired.keep, pass)
    | none ↦ elim (parse_suffix suffix) [
      | none ↦ return (Expired.delete [], pass)
      | some expiring ↦ do
        result ← caught (expire_record time expiring)
        return (counted expiring pass result)
    ]
  ]

  -- the entries of one pass in the order of the index, with their outcomes
  unfoldable pub expire_entries : PassState → List (ℕ × Text) → Action S (List Expired × PassState)
  unfolding expire_entry
  expire_entries pass [] = return ([], pass)
  expire_entries pass ((time, suffix) ∷ entries) = do
    (expired, next) ← expire_entry pass time suffix
    (rest, last) ← expire_entries next entries
    return (expired ∷ rest, last)

-- the result of `Scheduler::expire` once the index is read
unfoldable pub expire_report : PassState → Result Error ExpireReport
expire_report pass = elim pass.failure [
  | some e ↦ Result.err e
  | none ↦ Result.ok (record { runs = pass.runs; requests = pass.requests })
]
