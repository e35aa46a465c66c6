-- ===== src/Scheduler.antt =====
-- swale/src/scheduler.rs: the failures, the values and the records that the scheduler writes.
mod Runs
pub mod Records
pub mod Services
pub mod Steps
pub mod Requests
pub mod Workers
use swale.Base.{
  ℕ, ◌+◌, ◌%◌, ◌^◌, Bool, true, false, not, ◌&&◌, Option, none, some, List, [], ◌∷◌, Text, Map, get,
  insert, retain, ltb, leb, ◌==◌, text_eq, if◌then◌else◌,
}
use swale.Graph.{Graph, Node, name, node_asset}
use swale.Partition.{Partition}
use swale.Readiness.{rerun_scope}
use swale.Records.{NodeRecord, GraphRunRecord, GraphRunState, RecordStatus, is_current}
use swale.Task.{TaskIdentity}

-- A failure of the queue or of the runtime, with what `is_permanent` says of it.
pub record Failure : Type 0 where
  pub message : Text
  pub permanent : Bool

pub data Error : Type 0 where
  queue : Failure → Error
  workflow : Failure → Error
  object_store : Text → Error
  malformed_record : Text → Text → Error
  definition : Text → Error
  unknown_definition : Text → Error
  unknown_graph : Text → Error
  no_partition : Text → Error
  unknown_pool : Text → Text → Error
  unknown_graph_run : Text → Partition → Error
  unknown_node : Text → Text → Error
  contended : Text → Partition → Error

unfoldable pub is_permanent : Error → Bool
is_permanent (queue e) = e.permanent
is_permanent (workflow e) = e.permanent
is_permanent (malformed_record _ _) = true
is_permanent (unknown_graph _) = true
is_permanent (unknown_graph_run _ _) = true
is_permanent (unknown_node _ _) = true
is_permanent (no_partition _) = true
is_permanent (object_store _) = false
is_permanent (definition _) = false
is_permanent (unknown_definition _) = false
is_permanent (unknown_pool _ _) = false
is_permanent (contended _ _) = false

pub record StartOutcome : Type 0 where
  pub started : Bool
  pub submitted : List Text

pub data RerunOutcome : Type 0 where
  submitted : Text → RerunOutcome
  active : Text → RerunOutcome
  no_record : RerunOutcome
  not_ready : RerunOutcome

-- `identity`
unfoldable pub identity :
    {Expression : Type 0} → Graph Expression → Text → Partition → Node → ℕ → TaskIdentity
identity g hash partition n rerun = record {
  graph = g.name;
  partition = partition;
  node = name n;
  asset = node_asset n;
  definition = hash;
  rerun = rerun;
}

-- `upstream_records`
unfoldable pub upstream_records : List Text → Map NodeRecord → Map NodeRecord
upstream_records [] records = []
upstream_records (u ∷ us) records = elim (get u records) [
  | none ↦ upstream_records us records
  | some r ↦ insert u r (upstream_records us records)
]

-- The next count of a `u32`, which wraps in a release build.
abbrev pub next_rerun : ℕ → ℕ
next_rerun count = (count + 1) % 2 ^ 32

-- the new record of `start_run`
unfoldable pub new_run : Text → ℕ → GraphRunRecord
new_run hash now = record {
  definition = hash;
  requested_at_ms = now;
  state = GraphRunState.active;
  settled_at_ms = none;
  expected_reruns = [];
}

-- the loop over the scope of a rerun in `rerun_with`
unfoldable pub expect_reruns : List Node → Map NodeRecord → Map ℕ → Map ℕ
expect_reruns [] records expected = expected
expect_reruns (n ∷ ns) records expected = elim (get (name n) records) [
  | none ↦ expect_reruns ns records expected
  | some r ↦ expect_reruns ns records (insert (name n) (next_rerun r.rerun) expected)
]

unfoldable pub has_succeeded : RecordStatus → Bool
has_succeeded RecordStatus.succeeded = true
has_succeeded RecordStatus.failed = false
has_succeeded RecordStatus.cancelled = false

-- the run record `active` of `rerun_with`; `none` is the panic of `rerun_scope`
unfoldable pub reactivated :
    {Expression : Type 0}
    → Graph Expression
    → Node
    → NodeRecord
    → Map NodeRecord
    → GraphRunRecord
    → Option GraphRunRecord
unfolding has_succeeded
reactivated g n r records run =
    let active = record run { state = GraphRunState.active; settled_at_ms = none } in
    if has_succeeded r.status && is_current run (name n) r
    then elim (rerun_scope g n) [
      | none ↦ none
      | some scope ↦
          some (record active { expected_reruns = expect_reruns scope records run.expected_reruns })
    ]
    else some active

-- the test of `retain` in `settle`
unfoldable pub not_reached : Map NodeRecord → Text → ℕ → Bool
not_reached records n expected = elim (get n records) [
  | none ↦ true
  | some r ↦ ltb r.rerun expected
]

-- the run record that `settle` writes, without the settle time
unfoldable pub settled_run : GraphRunState → Map NodeRecord → GraphRunRecord → GraphRunRecord
unfolding not_reached
settled_run state records run = record run {
  state = state;
  expected_reruns = retain (not_reached records) run.expected_reruns;
}

same_state : GraphRunState → GraphRunState → Bool
same_state GraphRunState.active GraphRunState.active = true
same_state GraphRunState.cancelled GraphRunState.cancelled = true
same_state GraphRunState.complete GraphRunState.complete = true
same_state GraphRunState.failed GraphRunState.failed = true
same_state _ _ = false

same_time : Option ℕ → Option ℕ → Bool
same_time none none = true
same_time (some a) (some b) = a == b
same_time _ _ = false

same_counts : Map ℕ → Map ℕ → Bool
same_counts [] [] = true
same_counts ((k, a) ∷ m) ((j, b) ∷ l) = text_eq k j && a == b && same_counts m l
same_counts _ _ = false

-- `==` of graph run records
unfoldable pub same_run : GraphRunRecord → GraphRunRecord → Bool
unfolding same_state same_time same_counts
same_run a b =
    text_eq a.definition b.definition
    && a.requested_at_ms == b.requested_at_ms
    && same_state a.state b.state
    && same_time a.settled_at_ms b.settled_at_ms
    && same_counts a.expected_reruns b.expected_reruns
