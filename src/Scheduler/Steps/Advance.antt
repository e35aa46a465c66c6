-- ===== src/Scheduler/Steps/Advance.antt =====
-- swale/src/scheduler.rs: the submits that follow a record, and the settle of a graph run.
pub mod Settle
pub mod Final
pub mod Examples
use mathlib.Core.Option
use swale.Base.{
  ℕ, ◌+◌, Bool, true, false, not, ◌&&◌, Option, none, some, List, [], ◌∷◌, Text, Map, get, codes,
  if◌then◌else◌,
}
use swale.Graph.{Graph, Node, name, node}
use swale.Hook.{Event}
use swale.Partition.{Partition, of_time}
use swale.Readiness.{NodeState, current_records, node_states, settled_state}
use swale.Records.{NodeRecord, GraphRunRecord, GraphRunState, GraphRecord, RecordStatus}
use swale.Records.Keys.{graph_run_key, parse_graph_run_key}
use swale.Scheduler.{Error, StartOutcome, identity, upstream_records, next_rerun, settled_run}
use swale.Scheduler.Services.{
  Services, Action, Done, ◌>>=◌, return, fail, or_fail, or_panic, graph_record, load_graph,
  graph_run, node_records, scan_runs,
}
use swale.Scheduler.Steps.{
  is_active_state, one_if, submit_node, run_is_active, start_run, commit_settled,
  cancel_active_runs,
}
use swale.Task.{unrecorded_run_id}

abbrev is_ready_state : NodeState → Bool
is_ready_state NodeState.ready = true
is_ready_state _ = false

-- the count of `records.get(node.name()).map_or(0, |r| r.rerun + 1)`
abbrev next_count_of : Option NodeRecord → ℕ
next_count_of none = 0
next_count_of (some r) = next_rerun r.rerun

module _ {S Expression : Type 0} (services : Services S Expression) where
  -- the loop of `settle` over the nodes: whether an unrecorded task instance is active
  unfoldable pub any_active :
      Graph Expression → Partition → GraphRunRecord → Map NodeRecord → List Node → Action S Bool
  any_active g partition run records [] = return false
  any_active g partition run records (n ∷ ns) =
      elim (unrecorded_run_id services.new_run_id g partition run n records) [
        | none ↦ any_active g partition run records ns
        | some id ↦ (do
          text ← or_panic id
          is_active ← run_is_active services n text
          if is_active then return true else any_active g partition run records ns)
      ]

  -- `settle`
  unfoldable pub settle :
      Graph Expression
      → Partition
      → GraphRunRecord
      → Text
      → Map NodeRecord
      → Map NodeState
      → Action S Bool
  unfolding any_active
  settle g partition run bytes records states = elim (settled_state states) [
    | none ↦ return false
    | some state ↦ (do
      is_active ← any_active g partition run records g.nodes
      if is_active
          then return false
          else commit_settled services g.name partition bytes (settled_run state records run))
  ]

  -- one candidate of the loop of `advance`, with the count of new submits
  submit_ready :
      Graph Expression
      → Partition
      → GraphRunRecord
      → Map NodeRecord
      → Map NodeRecord
      → Node
      → NodeState
      → Action S ℕ
  submit_ready g partition run records current n state =
      if is_ready_state state
      then (do
        done ←
            submit_node services n
              (identity g run.definition partition n (next_count_of (get (name n) records)))
              (upstream_records n.upstreams current) (λ _. [])
        return (one_if done.1))
      else return 0

  -- the loop of `advance`
  unfoldable pub submit_all :
      Graph Expression
      → Partition
      → GraphRunRecord
      → Map NodeRecord
      → Map NodeRecord
      → Map NodeState
      → List Node
      → Action S ℕ
  unfolding submit_ready
  submit_all g partition run records current states [] = return 0
  submit_all g partition run records current states (n ∷ ns) = do
    state ← or_panic (get (name n) states)
    here ← submit_ready g partition run records current n state
    rest ← submit_all g partition run records current states ns
    return (here + rest)

  -- `advance`; `node_states` is `none` only where its loop does not end
  unfoldable pub advance :
      Graph Expression → Partition → GraphRunRecord → Text → List Node → Action S (ℕ × Bool)
  unfolding submit_all settle
  advance g partition run bytes candidates = do
    records ← node_records services g partition
    states ← or_panic (node_states g (current_records run records))
    submitted ← submit_all g partition run records (current_records run records) states candidates
    settled ← settle g partition run bytes records states
    return (submitted, settled)

  -- the nodes of the downstream names, `none` for the panic on a name that is no node
  downstream_nodes : Graph Expression → List Text → Option (List Node)
  downstream_nodes g [] = some []
  downstream_nodes g (d ∷ ds) =
      Option.bind (node g d) (λ n. Option.map (λ ns. n ∷ ns) (downstream_nodes g ds))

  -- `handle_event` of an active graph run
  advance_after : Event → GraphRunRecord → Text → Action S Unit
  unfolding downstream_nodes
  advance_after event run bytes = do
    g ← load_graph services run.definition
    elim (node g event.node) [
      | none ↦ return tt
      | some n ↦ (do
        downstreams ← or_panic (downstream_nodes g n.downstreams)
        _ ← advance g event.partition run bytes downstreams
        return tt)
    ]

  unfoldable pub handle_event : Event → Action S Unit
  unfolding advance_after
  handle_event event = do
    found ← graph_run services (graph_run_key event.graph event.partition)
    elim found [
      | none ↦ return tt
      | some entry ↦
          if is_active_state entry.0.state then advance_after event entry.0 entry.1 else return tt
    ]
