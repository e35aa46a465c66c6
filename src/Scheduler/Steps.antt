-- ===== src/Scheduler/Steps.antt =====
-- swale/src/scheduler.rs: the operations of the scheduler, each a step on the state of the world.
pub mod Advance
pub mod Reconcile
use mathlib.Core.Option
use swale.Base.{
  ℕ, ◌+◌, Bool, true, false, not, ◌&&◌, Option, none, some, List, [], ◌∷◌, Text, Map, get, codes,
  if◌then◌else◌,
}
use swale.Graph.{Graph, Node, Partitioning, name, roots, node, is_some}
use swale.Input.{task_input}
use swale.Partition.{Partition, of_time}
use swale.Readiness.{NodeState, current_records, node_states, settled_state, is_ready}
use swale.Records.{NodeRecord, GraphRunRecord, GraphRunState, GraphRecord, RecordStatus}
use swale.Records.Keys.{graph_run_key, parse_graph_run_key, Expiring, suffix}
use swale.Scheduler.{
  Error, StartOutcome, RerunOutcome, identity, upstream_records, next_rerun, new_run, reactivated,
  settled_run, same_run,
}
use swale.Scheduler.Services.{
  Services, Action, RunSpec, Effect, Done, ◌>>=◌, return, fail, or_fail, or_panic, graph_record,
  load_graph, graph_run, node_records,
}
use swale.Task.{TaskIdentity, headers, run_id, group_id, unrecorded_run_id}

-- `GRAPH_RUN_CANCELLED`
abbrev graph_run_cancelled : Text
graph_run_cancelled = codes "the graph run is cancelled"

abbrev pub is_active_state : GraphRunState → Bool
is_active_state GraphRunState.active = true
is_active_state GraphRunState.cancelled = false
is_active_state GraphRunState.complete = false
is_active_state GraphRunState.failed = false

abbrev pub one_if : Bool → ℕ
one_if true = 1
one_if false = 0

module _ {S Expression : Type 0} (services : Services S Expression) where
  -- `submit_node`, with whether the submit was new
  unfoldable pub submit_node :
      Node → TaskIdentity → Map NodeRecord → (Text → List Effect) → Action S (Text × Bool)
  submit_node n i upstreams effects =
      if services.has_runtime n.spec.pool
      then (do
        id ← or_panic (run_id services.new_run_id i.graph i.partition i.node i.rerun)
        new ←
            services.submit n.spec.pool
              (record {
                run_id = id;
                input = task_input services.to_value n upstreams;
                headers = headers i;
                max_attempts_per_step = next_rerun n.spec.retries;
              })
              (effects id)
        return (id, new))
      else fail (Error.unknown_pool (name n) n.spec.pool)

  unfoldable pub run_is_active : Node → Text → Action S Bool
  run_is_active n id =
      if services.has_runtime n.spec.pool then services.is_active n.spec.pool id else return false

  -- the loop over the root nodes in `start_run`
  submit_roots : Graph Expression → Text → Partition → List Node → Action S (List Text)
  submit_roots g hash partition [] = return []
  submit_roots g hash partition (n ∷ ns) = do
    done ← submit_node n (identity g hash partition n 0) [] (λ _. [])
    ids ← submit_roots g hash partition ns
    return (done.0 ∷ ids)

  unfoldable pub start_run : Text → Partition → Action S StartOutcome
  unfolding submit_roots
  start_run hash partition = do
    g ← load_graph services hash
    now ← services.now_ms
    created ←
        services.kv_compare_put (graph_run_key g.name partition) none
          (services.encode_run (new_run hash now))
    if created
        then (do
          ids ← submit_roots g hash partition (roots g)
          return (record { started = true; submitted = ids }))
        else return (record { started = false; submitted = [] })

  -- the write of the reactivated run in `rerun_with`
  unfoldable pub write_active :
      Text → Partition → GraphRunRecord → Text → GraphRunRecord → Action S Unit
  write_active graph_name partition run bytes active =
      if same_run active run then return tt else (do
        written ←
            services.kv_compare_put (graph_run_key graph_name partition) (some bytes)
              (services.encode_run active)
        if written then return tt else fail (Error.contended graph_name partition))

  rerun_outcome : Text × Bool → RerunOutcome
  rerun_outcome (id, true) = RerunOutcome.submitted id
  rerun_outcome (id, false) = RerunOutcome.active id

  -- `rerun_with` after the reads
  rerun_node :
      Text
      → Partition
      → (Text → List Effect)
      → Graph Expression
      → GraphRunRecord
      → Text
      → Node
      → Map NodeRecord
      → NodeRecord
      → Action S RerunOutcome
  unfolding write_active rerun_outcome
  rerun_node graph_name partition effects g run bytes n records r = do
    active ← or_panic (reactivated g n r records run)
    if is_ready n (current_records active records)
        then (do
          _ ← write_active graph_name partition run bytes active
          done ←
              submit_node n (identity g r.definition partition n (next_rerun r.rerun))
                (upstream_records n.upstreams (current_records active records)) effects
          return (rerun_outcome done))
        else return RerunOutcome.not_ready

  unfoldable pub rerun_with : Text → Partition → Text → (Text → List Effect) → Action S RerunOutcome
  unfolding rerun_node
  rerun_with graph_name partition node_name effects = do
    found ← graph_run services (graph_run_key graph_name partition)
    entry ← or_fail (Error.unknown_graph_run graph_name partition) found
    g ← load_graph services entry.0.definition
    n ← or_fail (Error.unknown_node graph_name node_name) (node g node_name)
    records ← node_records services g partition
    elim (get (name n) records) [
      | none ↦ return RerunOutcome.no_record
      | some r ↦ rerun_node graph_name partition effects g entry.0 entry.1 n records r
    ]

  unfoldable pub rerun : Text → Partition → Text → Action S RerunOutcome
  rerun graph_name partition node_name = rerun_with graph_name partition node_name (λ _. [])

  -- `commit_settled`
  unfoldable pub commit_settled : Text → Partition → Text → GraphRunRecord → Action S Bool
  commit_settled graph_name partition expected settled = do
    now ← services.now_ms
    services.kv_compare_commit (graph_run_key graph_name partition) (some expected) (
        Effect.kv_put (graph_run_key graph_name partition)
          (services.encode_run (record settled { settled_at_ms = some now }))
        ∷ (Effect.expiry_entry now (suffix (Expiring.run graph_name partition)) ∷ []))

  -- the cancel of the run of one node and of its members
  cancel_node : Graph Expression → Partition → Node → Text → Action S ℕ
  cancel_node g partition n id =
      if services.has_runtime n.spec.pool
      then (do
        was_active ← services.cancel n.spec.pool id graph_run_cancelled
        _ ←
            if is_some n.spec.each
            then (do
              group ← or_panic (group_id services.new_run_id g.name partition (name n))
              services.cancel_group n.spec.pool group graph_run_cancelled)
            else return tt
        return (one_if was_active))
      else return 0

  cancel_nodes :
      Graph Expression → Partition → GraphRunRecord → Map NodeRecord → List Node → Action S ℕ
  unfolding cancel_node
  cancel_nodes g partition run records [] = return 0
  cancel_nodes g partition run records (n ∷ ns) = do
    here ← elim (unrecorded_run_id services.new_run_id g partition run n records) [
      | none ↦ return 0
      | some id ↦ (do text ← or_panic id; cancel_node g partition n text)
    ]
    rest ← cancel_nodes g partition run records ns
    return (here + rest)

  unfoldable pub cancel_active_runs : Graph Expression → Partition → GraphRunRecord → Action S ℕ
  unfolding cancel_nodes
  cancel_active_runs g partition run = do
    records ← node_records services g partition
    cancel_nodes g partition run records g.nodes

  -- `cancel_run` of a run that was read
  cancel_found : Text → Partition → GraphRunRecord → Text → Action S Bool
  cancel_found graph_name partition run bytes =
      if is_active_state run.state
      then (do
        written ←
            commit_settled graph_name partition bytes
              (record run { state = GraphRunState.cancelled })
        if written
            then (do
              g ← load_graph services run.definition
              _ ← cancel_active_runs g partition run
              return true)
            else return false)
      else return false

  unfoldable pub cancel_run : Text → Partition → Action S Bool
  unfolding cancel_found
  cancel_run graph_name partition = do
    found ← graph_run services (graph_run_key graph_name partition)
    elim found [
      | none ↦ return false
      | some entry ↦ cancel_found graph_name partition entry.0 entry.1
    ]
