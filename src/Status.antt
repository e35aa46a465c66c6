-- ===== src/Status.antt =====
-- swale/src/status.rs: the view of a deployment from its records. The reader, the definition store,
-- the views of the pools and the parsers of the records are parameters.
pub mod Graphs
pub mod Reads
pub mod Examples
use swale.Base.{
  ℕ, zero, suc, ◌+◌, Bool, true, false, Option, none, some, List, [], ◌∷◌, ◌++◌, Text, Map, get,
  insert, remove, codes, text_eq, any, ltb, map, if◌then◌else◌,
}
use swale.Base.Calls.{Call, Done, ◌>>=◌, return, fail, or_fail, or_panic}
use swale.Dispatch.{GroupStatus}
use swale.Graph.{Graph, Node, name}
use swale.Partition.{Partition}
use swale.Readiness.{NodeState, current_records, node_states}
use swale.Records.{NodeRecord, GraphRunRecord, GraphRunState, GraphRecord}
use swale.Records.Keys.{
  graphs_prefix, graph_runs_prefix, parse_graph_key, parse_graph_run_key, graph_run_key,
  node_record_key, request_key,
}
use swale.Records.Listing.{Entry, scan, scan_last}
use swale.Request.{RequestId}
use swale.Scheduler.{Failure}
use swale.Scheduler.Requests.{RequestRecord}
use swale.Task.{unrecorded_run_id, group_id}

pub data Error : Type 0 where
  queue : Failure → Error
  workflow : Failure → Error
  definition : Text → Error
  malformed_record : Text → Text → Error
  unknown_definition : Text → Error

pub record RunCounts : Type 0 where
  pub active : ℕ
  pub cancelled : ℕ
  pub complete : ℕ
  pub failed : ℕ

pub record RunSummary : Type 0 where
  pub partition : Partition
  pub run : GraphRunRecord

pub record GraphStatus : Type 0 where
  pub name : Text
  pub adopted : Option GraphRecord
  pub runs : RunCounts
  pub latest : Option RunSummary

pub data InstanceState : Type 0 where
  pending scheduled waiting running cancelling dead_lettered : InstanceState

-- `InstanceState::as_str`
unfoldable pub instance_text : InstanceState → Text
instance_text InstanceState.pending = codes "pending"
instance_text InstanceState.scheduled = codes "scheduled"
instance_text InstanceState.waiting = codes "waiting"
instance_text InstanceState.running = codes "running"
instance_text InstanceState.cancelling = codes "cancelling"
instance_text InstanceState.dead_lettered = codes "dead_lettered"

pub data RequestState : Type 0 where
  waiting : Option Text → RequestState
  applied : RequestRecord → RequestState
  rejected : Text → RequestState
  failed : Text → RequestState

pub record MemberCounts : Type 0 where
  pub total : ℕ
  pub pending : ℕ
  pub succeeded : ℕ
  pub failed : ℕ
  pub cancelled : ℕ

-- `MemberCounts::terminated`
unfoldable pub terminated_members : MemberCounts → ℕ
terminated_members counts = counts.succeeded + counts.failed + counts.cancelled

-- `From<GroupStatus>` for `MemberCounts`
unfoldable pub member_counts : GroupStatus → MemberCounts
member_counts status = record {
  total = status.total;
  pending = status.pending;
  succeeded = status.succeeded;
  failed = status.failed;
  cancelled = status.cancelled;
}

pub record TaskInstance : Type 0 where
  pub run_id : Text
  pub state : InstanceState
  pub members : Option MemberCounts

pub record NodeStatus : Type 0 where
  pub name : Text
  pub pool : Text
  pub state : NodeState
  pub node_record : Option NodeRecord
  pub task_instance : Option TaskInstance

pub record GraphRunStatus : Type 0 where
  pub graph : Text
  pub partition : Partition
  pub run : GraphRunRecord
  pub nodes : List NodeStatus

-- `taquba_workflow::RunState`, without the payloads of its cases
pub data RunState : Type 0 where
  pending scheduled waiting running cancelling dead_lettered terminated : RunState

pub record RunStatus : Type 0 where
  pub state : RunState
  pub step_number : ℕ

-- the fields of `taquba::JobRecord` that are read
pub data JobStatus : Type 0 where
  dead finished other : JobStatus

pub record Job : Type 0 where
  pub status : JobStatus
  pub last_error : Option Text

-- `taquba::InboxOutcome`, with the reason of a rejection
pub data InboxOutcome : Type 0 where
  rejected : Text → InboxOutcome
  accepted : InboxOutcome

-- what the reader calls, over a state `S` of the world
pub record Reader (S Expression : Type 0) : Type 0 where
  pub kv_get : Text → Call Error S (Option Text)
  -- the entries of a prefix in key order, and from the last key down to a first one
  pub kv_ascending : Text → Call Error S (List (Text × Text))
  pub kv_descending : Text → Option Text → Call Error S (List (Text × Text))
  pub definition : Text → Call Error S (Option (Graph Expression))
  -- the status of a run and of a group in the view of a pool
  pub run_status : Text → Text → Call Error S (Option RunStatus)
  pub group_status : Text → Text → Call Error S (Option GroupStatus)
  pub inbox_record : Text → Text → Call Error S (Option InboxOutcome)
  pub job_record : Text → Call Error S (Option Job)
  pub new_run_id : Text → Option Text
  pub decode_run : Text → Option GraphRunRecord
  pub decode_node : Text → Option NodeRecord
  pub decode_graph : Text → Option GraphRecord
  pub decode_request : Text → Option RequestRecord
  pub parse_error : Text → Text

abbrev pub no_runs : RunCounts
no_runs = record { active = 0; cancelled = 0; complete = 0; failed = 0 }

abbrev pub or_entry : Text → Option GraphStatus → GraphStatus
or_entry name (some graph) = graph
or_entry name none = record { name = name; adopted = none; runs = no_runs; latest = none }

-- `graph_entry`, the entry that it gives
unfoldable pub graph_entry : Map GraphStatus → Text → GraphStatus
graph_entry graphs name = or_entry name (get name graphs)

unfoldable pub add_adopted : Text → GraphRecord → Map GraphStatus → Map GraphStatus
unfolding graph_entry
add_adopted name adopted graphs =
    insert name (record (graph_entry graphs name) { adopted = some adopted }) graphs

-- the loop of `graphs` over the graph records
unfoldable pub add_records : List (Entry GraphRecord) → Map GraphStatus → Map GraphStatus
unfolding add_adopted
add_records [] graphs = graphs
add_records ((key, _, adopted) ∷ entries) graphs = elim (parse_graph_key key) [
  | none ↦ add_records entries graphs
  | some name ↦ add_records entries (add_adopted name adopted graphs)
]

unfoldable pub count_run : GraphRunState → RunCounts → RunCounts
count_run GraphRunState.active runs = record runs { active = runs.active + 1 }
count_run GraphRunState.cancelled runs = record runs { cancelled = runs.cancelled + 1 }
count_run GraphRunState.complete runs = record runs { complete = runs.complete + 1 }
count_run GraphRunState.failed runs = record runs { failed = runs.failed + 1 }

unfoldable pub add_run : Text → Partition → GraphRunRecord → Map GraphStatus → Map GraphStatus
unfolding graph_entry count_run
add_run name partition run graphs =
    let graph = graph_entry graphs name in
    insert name
      (record graph {
        runs = count_run run.state graph.runs;
        latest = some (record { partition = partition; run = run });
      })
      graphs

-- the loop of `graphs` over the graph runs
unfoldable pub add_runs : List (Entry GraphRunRecord) → Map GraphStatus → Map GraphStatus
unfolding add_run
add_runs [] graphs = graphs
add_runs ((key, _, run) ∷ entries) graphs = elim (parse_graph_run_key key) [
  | none ↦ add_runs entries graphs
  | some (name, partition) ↦ add_runs entries (add_run name partition run graphs)
]

-- the loop of `runs`
unfoldable pub summaries : List (Entry GraphRunRecord) → List RunSummary
summaries [] = []
summaries ((key, _, run) ∷ entries) = elim (parse_graph_run_key key) [
  | none ↦ summaries entries
  | some (name, partition) ↦ record { partition = partition; run = run } ∷ summaries entries
]

-- `instance_state`
unfoldable pub instance_state : RunState → Option InstanceState
instance_state RunState.pending = some InstanceState.pending
instance_state RunState.scheduled = some InstanceState.scheduled
instance_state RunState.waiting = some InstanceState.waiting
instance_state RunState.running = some InstanceState.running
instance_state RunState.cancelling = some InstanceState.cancelling
instance_state RunState.dead_lettered = some InstanceState.dead_lettered
instance_state RunState.terminated = none
