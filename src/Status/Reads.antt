-- ===== src/Status/Reads.antt =====
-- The reads of swale/src/status.rs over the reader, the definitions and the views of the pools.
use swale.Base.{
  ℕ, zero, suc, codes, Option, none, some, List, [], ◌∷◌, ◌++◌, Text, Map, get, insert, remove, map,
}
use swale.Base.Calls.{Call, ◌>>=◌, return, fail, or_fail, or_panic}
use swale.Graph.{Graph, Node, name}
use swale.Partition.{Partition}
use swale.Readiness.{NodeState, current_records, node_states}
use swale.Records.{NodeRecord, GraphRunRecord}
use swale.Records.Keys.{
  graphs_prefix, graph_runs_prefix, graph_run_key, node_record_key, request_key,
}
use swale.Records.Listing.{scan, scan_last}
use swale.Request.{RequestId}
use swale.Status.{
  Error, Reader, GraphStatus, RunSummary, add_records, add_runs, summaries, RunStatus, TaskInstance,
  MemberCounts, member_counts, instance_state, NodeStatus, GraphRunStatus, RequestState,
  InboxOutcome, Job, JobStatus,
}
use swale.Task.{unrecorded_run_id, group_id}

-- `REQUESTS_QUEUE` of swale/src/request.rs
abbrev pub requests_queue : Text
requests_queue = codes "swale-requests"

abbrev or_empty : Option Text → Text
or_empty none = []
or_empty (some t) = t

module _ {S Expression : Type 0} (reader : Reader S Expression) where
  -- `StatusReader::graphs`
  unfoldable pub graphs : Call Error S (List GraphStatus)
  graphs = do
    adopted ← reader.kv_ascending graphs_prefix
    runs ← reader.kv_ascending graph_runs_prefix
    return (
        map (λ e. e.1)
          (add_runs (scan reader.decode_run runs)
            (add_records (scan reader.decode_graph adopted) [])))

  start_key : Text → Option Partition → Option Text
  start_key graph none = none
  start_key graph (some partition) = some (graph_run_key graph partition)

  -- `StatusReader::runs`
  unfoldable pub runs : Text → Option Partition → ℕ → Call Error S (List RunSummary)
  unfolding start_key
  runs graph from limit = do
    entries ←
        reader.kv_descending (graph_runs_prefix ++ (graph ++ (b'/' ∷ []))) (start_key graph from)
    return (summaries (scan_last reader.decode_run limit entries))

  -- `records::read` with the parser of the record
  read_with : {R : Type 0} → (Text → Option R) → Text → Call Error S (Option R)
  read_with decode key = do
    found ← reader.kv_get key
    elim found [
      | none ↦ return none
      | some bytes ↦ elim (decode bytes) [
        | none ↦ fail (Error.malformed_record key (reader.parse_error bytes))
        | some r ↦ return (some r)
      ]
    ]

  -- the member counts of an instance after its first step
  members_of : Text → ℕ → Option Text → Call Error S (Option MemberCounts)
  members_of pool zero group = return none
  members_of pool (suc step) none = return none
  members_of pool (suc step) (some group) = do
    status ← reader.group_status pool group
    elim status [ none ↦ return none | some g ↦ return (some (member_counts g)) ]

  instance_with : Text → Text → Option Text → Option RunStatus → Call Error S (Option TaskInstance)
  unfolding members_of
  instance_with pool id group none = return none
  instance_with pool id group (some status) = elim (instance_state status.state) [
    | none ↦ return none
    | some state ↦ do
      members ← members_of pool status.step_number group
      return (some (record { run_id = id; state = state; members = members }))
  ]

  -- `instance`
  unfoldable pub task_instance : Text → Text → Option Text → Call Error S (Option TaskInstance)
  unfolding instance_with
  task_instance pool id group = do
    status ← reader.run_status pool id
    instance_with pool id group status

  add_record : Text → Option NodeRecord → Map NodeRecord → Map NodeRecord
  add_record k none records = records
  add_record k (some r) records = insert k r records

  -- the loop of `run` over the node records
  read_nodes : Text → Partition → List Node → Map NodeRecord → Call Error S (Map NodeRecord)
  unfolding read_with add_record
  read_nodes graph partition [] records = return records
  read_nodes graph partition (n ∷ ns) records = do
    found ← read_with reader.decode_node (node_record_key graph partition n)
    read_nodes graph partition ns (add_record (name n) found records)

  -- the group of a mapped node; the outer `none` is the panic of `group_id`
  group_of_node : Text → Partition → Node → Option (Option Text)
  group_of_node graph partition n = elim n.spec.each [
    | none ↦ some none
    | some _ ↦ elim (group_id reader.new_run_id graph partition (name n)) [
      | none ↦ none
      | some id ↦ some (some id)
    ]
  ]

  node_instance :
      Text
      → Graph Expression
      → Partition
      → GraphRunRecord
      → Node
      → Map NodeRecord
      → Call Error S (Option TaskInstance)
  unfolding group_of_node task_instance
  node_instance graph g partition run n records =
      elim (unrecorded_run_id reader.new_run_id g partition run n records) [
        | none ↦ return none
        | some id ↦ do
          run_id ← or_panic id
          group ← or_panic (group_of_node graph partition n)
          task_instance n.spec.pool run_id group
      ]

  -- the loop of `run` over the nodes, with the records that are left
  node_statuses :
      Text
      → Graph Expression
      → Partition
      → GraphRunRecord
      → Map NodeState
      → List Node
      → Map NodeRecord
      → Call Error S (List NodeStatus)
  unfolding node_instance
  node_statuses graph g partition run states [] records = return []
  node_statuses graph g partition run states (n ∷ ns) records = do
    found ← node_instance graph g partition run n records
    state ← or_panic (get (name n) states)
    rest ← node_statuses graph g partition run states ns (remove (name n) records)
    return (
        record {
          name = name n;
          pool = n.spec.pool;
          state = state;
          node_record = get (name n) records;
          task_instance = found;
        }
        ∷ rest)

  run_with : Text → Partition → GraphRunRecord → Call Error S (Option GraphRunStatus)
  unfolding read_nodes node_statuses
  run_with graph partition run = do
    found ← reader.definition run.definition
    g ← or_fail (Error.unknown_definition run.definition) found
    records ← read_nodes graph partition g.nodes []
    states ← or_panic (node_states g (current_records run records))
    nodes ← node_statuses graph g partition run states g.nodes records
    return (some (record { graph = graph; partition = partition; run = run; nodes = nodes }))

  -- `StatusReader::run`
  unfoldable pub run : Text → Partition → Call Error S (Option GraphRunStatus)
  unfolding read_with run_with
  run graph partition = do
    found ← read_with reader.decode_run (graph_run_key graph partition)
    elim found [ none ↦ return none | some r ↦ run_with graph partition r ]

  -- the state of a request from its job; the record commits before the job settles
  job_state : Text → Option Job → Call Error S RequestState
  unfolding read_with
  job_state key job = elim job [
    | none ↦ reread
    | some j ↦ elim j.status [
      | JobStatus.dead ↦ return (RequestState.failed (or_empty j.last_error))
      | JobStatus.finished ↦ reread
      | JobStatus.other ↦ return (RequestState.waiting j.last_error)
    ]
  ]
    where
      reread : Call Error S RequestState
      reread = do
        found ← read_with reader.decode_request key
        elim found [
          | none ↦ return (RequestState.waiting none)
          | some r ↦ return (RequestState.applied r)
        ]

  entry_state : RequestId → Option InboxOutcome → Call Error S RequestState
  unfolding job_state
  entry_state id (some (InboxOutcome.rejected reason)) = return (RequestState.rejected reason)
  entry_state id (some InboxOutcome.accepted) = do
    job ← reader.job_record id.text
    job_state (request_key id) job
  entry_state id none = do job ← reader.job_record id.text; job_state (request_key id) job

  -- `StatusReader::request`
  unfoldable pub request : RequestId → Call Error S RequestState
  unfolding read_with entry_state
  request id = do
    found ← read_with reader.decode_request (request_key id)
    elim found [
      | some r ↦ return (RequestState.applied r)
      | none ↦ do inbox ← reader.inbox_record requests_queue id.text; entry_state id inbox
    ]
