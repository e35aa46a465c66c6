-- ===== src/Scheduler/Steps/Advance/Examples.antt =====
-- Runs of the scheduler on a store that is a map, with runtimes that have no active run.
use mathlib.Core.Option
use swale.Base.{
  arith, ◌∙◌, inl, inr, Bool-cases, get-insert, text_eq_refl, ◌≡◌, refl, Bool, true, false, Option,
  none, some, List, [], ◌∷◌, Text, Map, codes, get, insert, retain, text_eq, text_lt, if◌then◌else◌,
}
use swale.Data.{Json}
use swale.Graph.{name, node}
use swale.Graph.Examples.{demo_graph}
use swale.Partition.{Partition}
use swale.Readiness.{settled_state, is_open}
use swale.Readiness.Examples.{states_after, both_done, record_of}
use swale.Records.{NodeRecord, GraphRunRecord, GraphRunState, RecordStatus, is_current}
use swale.Records.Keys.{graph_run_key}
use swale.Base.Calls.{Done}
use swale.Scheduler.{Error, settled_run}
use swale.Scheduler.Records.{is_current-settled_run}
use swale.Scheduler.Services.{Services, ok, Effect, kv_put, expiry_entry}
use swale.Scheduler.Steps.{cancel_run, run_is_active, commit_settled}
use swale.Hook.{Event}
use swale.Scheduler.Steps.Advance.{handle_event, settle, any_active}
use swale.Scheduler.Steps.Advance.Settle.{IsIdle, settle-IsIdle}
use swale.Scheduler.Steps.Advance.Final.{IsDurable, IsCodec, settle-handle_event}
use swale.Task.{unrecorded_run_id, unrecorded_count, run_id, is_succeeded}

abbrev pub Store : Type 0
Store = Map Text

abbrev pub day : Partition
day = record { key = codes "20260915" }

abbrev pub run_with : GraphRunState → GraphRunRecord
run_with s = record {
  definition = codes "abc";
  requested_at_ms = 0;
  state = s;
  settled_at_ms = none;
  expected_reruns = [];
}

-- the first byte of the state stands for a run record
abbrev encode_state : GraphRunState → Text
encode_state GraphRunState.active = codes "a"
encode_state GraphRunState.cancelled = codes "x"
encode_state GraphRunState.complete = codes "c"
encode_state GraphRunState.failed = codes "f"

abbrev decode_state : Text → Option GraphRunRecord
decode_state t =
    if text_eq t (codes "a")
    then some (run_with GraphRunState.active)
    else if text_eq t (codes "x")
    then some (run_with GraphRunState.cancelled)
    else if text_eq t (codes "c")
    then some (run_with GraphRunState.complete)
    else if text_eq t (codes "f")
    then some (run_with GraphRunState.failed)
    else none

abbrev same_value : Option Text → Option Text → Bool
same_value none none = true
same_value (some a) (some b) = text_eq a b
same_value none (some _) = false
same_value (some _) none = false

abbrev pub apply_all : List Effect → Store → Store
apply_all [] s = s
apply_all (kv_put k v ∷ es) s = apply_all es (insert k v s)
apply_all (expiry_entry _ _ ∷ es) s = apply_all es s

abbrev pub demo_services : Services Store Text
demo_services = record {
  now_ms = λ s. (ok 7, s);
  kv_get = λ k s. (ok (get k s), s);
  kv_compare_put = λ k expected v s.
      if same_value (get k s) expected then (ok true, insert k v s) else (ok false, s);
  kv_compare_commit = λ k expected es s.
      if same_value (get k s) expected then (ok true, apply_all es s) else (ok false, s);
  kv_entries = λ prefix s. (ok s, s);
  definition = λ hash s. (ok (some demo_graph), s);
  has_runtime = λ pool. true;
  submit = λ pool spec es s. (ok true, apply_all es s);
  is_active = λ pool id s. (ok false, s);
  cancel = λ pool id reason s. (ok false, s);
  cancel_group = λ pool id reason s. (ok tt, s);
  new_run_id = some;
  encode_run = λ r. encode_state r.state;
  decode_run = decode_state;
  decode_node = λ b. none;
  decode_graph = λ b. none;
  parse_error = λ b. codes "expected a record";
  to_value = λ t. Json.null;
  from_timestamp_millis = λ ms. none;
}

abbrev key : Text
key = graph_run_key (codes "demo") day

abbrev active_store : Store
active_store = (key, codes "a") ∷ []

abbrev failed_store : Store
failed_store = (key, codes "f") ∷ []

settles :
    settle demo_services demo_graph day
      (run_with GraphRunState.active)
      (codes "a")
      both_done
      states_after
      active_store
    ≡ (ok true, failed_store)
unfolding settle any_active settled_state is_open unrecorded_run_id unrecorded_count run_id
    run_is_active commit_settled settled_run get insert text_eq retain is_succeeded text_lt
    is_current
settles = refl

settle-IsIdle_example :
    (state : GraphRunState) × (u : Store) × (settled_state states_after ≡ some state)
    × IsIdle demo_services demo_graph day
        (run_with GraphRunState.active)
        both_done
        demo_graph.nodes
        active_store
        u
    × (commit_settled demo_services demo_graph.name day
          (codes "a")
          (settled_run state both_done (run_with GraphRunState.active))
          u
        ≡ (ok true, failed_store))
settle-IsIdle_example =
    settle-IsIdle demo_services demo_graph day (run_with GraphRunState.active) both_done (codes "a")
      states_after active_store failed_store settles

abbrev event : Event
event = record {
  graph = codes "demo";
  partition = day;
  node = codes "a";
  status = RecordStatus.failed;
}

a_found : get (codes "a") both_done ≡ some (record_of RecordStatus.failed)
unfolding get insert text_eq text_lt
a_found = refl

is_current-settled_run_example :
    is_current
      (settled_run GraphRunState.failed both_done (run_with GraphRunState.active))
      (codes "a")
      (record_of RecordStatus.failed)
    ≡ is_current (run_with GraphRunState.active) (codes "a") (record_of RecordStatus.failed)
is_current-settled_run_example =
    is_current-settled_run GraphRunState.failed both_done (run_with GraphRunState.active)
      (codes "a") (record_of RecordStatus.failed) tt a_found

abbrev a_done : Map NodeRecord
a_done = (codes "a", record_of RecordStatus.succeeded) ∷ []

abbrev rerun_run : GraphRunRecord
rerun_run = record (run_with GraphRunState.active) { expected_reruns = (codes "a", 1) ∷ [] }

durable : IsDurable demo_services
durable k v expected ms entry s t h = elim (Bool-cases (same_value (get k s) expected)) [
  | inl e ↦
      let put : ◌≡◌ {A = Done Error Bool × Store} (ok true, insert k v s) (ok true, t) =
        rw e at h in
      let same : insert k v s ≡ t = ground arith in
      let read : get k (insert k v s) ≡ some v = get-insert k k v s ∙ rw (text_eq_refl k) refl in
      rw (← same, read) refl
  | inr e ↦ absurd (let refused = rw e at h in ground arith)
]

codec : IsCodec demo_services
unfolding text_eq
codec r = by_state r.state
  where
    by_state :
        (state : GraphRunState)
        → (q : GraphRunRecord) × (decode_state (encode_state state) ≡ some q) × (q.state ≡ state)
    by_state GraphRunState.active = (run_with GraphRunState.active, refl, refl)
    by_state GraphRunState.cancelled = (run_with GraphRunState.cancelled, refl, refl)
    by_state GraphRunState.complete = (run_with GraphRunState.complete, refl, refl)
    by_state GraphRunState.failed = (run_with GraphRunState.failed, refl, refl)

settle-handle_event_example :
    (handle_event demo_services event failed_store ≡ (ok tt, failed_store))
    × (cancel_run demo_services (codes "demo") day failed_store ≡ (ok false, failed_store))
settle-handle_event_example =
    settle-handle_event demo_services demo_graph day (run_with GraphRunState.active) (codes "a")
      both_done states_after event active_store failed_store durable codec settles refl refl
