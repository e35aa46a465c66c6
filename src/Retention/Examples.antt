-- ===== src/Retention/Examples.antt =====
-- A pass over a settled graph run.
use mathlib.Core.Option
use swale.Base.{
  ◌≡◌, refl, ◌+◌, none, some, Option, List, [], ◌∷◌, Text, codes, get, map, text_eq, split_once,
  is_utf8,
}
use swale.Base.Calls.{Done}
use swale.Graph.Examples.{demo_graph}
use swale.Partition.{new, is_partition}
use swale.Records.{GraphRunRecord, GraphRunState}
use swale.Records.Keys.{graph_run_key, node_record_key, parse_suffix}
use swale.Retention.{
  Expired, no_failure, expire_run, found_run, settled_run_at, with_definition, remove_run, run_keys,
  forget_groups, expire_entry, expire_entries, expire_record, counted,
}
use swale.Retention.Counts.{is_run, is_request, removals, expire_entries-removals}
use swale.Retention.Runs.{Removes, expire_run-Removes}
use swale.Scheduler.Requests.{RequestRecord}
use swale.Scheduler.Services.{Services, Action, graph_run}
use swale.Scheduler.Steps.Advance.Examples.{Store, day, demo_services}

abbrev settled : GraphRunRecord
settled = record {
  definition = codes "abc";
  requested_at_ms = 0;
  state = GraphRunState.complete;
  settled_at_ms = some 5;
  expected_reruns = [];
}

abbrev services : Services Store Text
services = record demo_services { decode_run = λ _. some settled }

abbrev forget_none : Text → Text → Action Store Unit
forget_none pool group s = (Done.ok tt, s)

abbrev no_request : Text → Option RequestRecord
no_request _ = none

abbrev key : Text
key = graph_run_key (codes "demo") day

abbrev store : Store
store = (key, codes "c") ∷ []

abbrev keys : List Text
keys = key ∷ map (node_record_key (codes "demo") day) demo_graph.nodes

removed :
    expire_run services forget_none no_request 5 (codes "demo") day store
    ≡ (Done.ok (Expired.delete_if key (some (codes "c")) keys), store)
unfolding expire_run found_run settled_run_at with_definition remove_run run_keys forget_groups
    graph_run get text_eq
removed = refl

expire_run-Removes_example :
    (run : GraphRunRecord) × (bytes : Text) × (u : Store) × (graph_run services key store
      ≡ (Done.ok (some (run, bytes)), u))
    × (run.settled_at_ms ≡ some 5)
    × Removes services forget_none no_request
        (codes "demo")
        day
        key
        (some (codes "c"))
        keys
        run.definition
        bytes
        u
        store
expire_run-Removes_example =
    expire_run-Removes services forget_none no_request (codes "demo") day key (some (codes "c"))
      keys 5 store store removed

passed :
    expire_entries services forget_none no_request no_failure
      ((5, codes "runs/demo/20260915") ∷ (5, codes "other") ∷ [])
      store
    ≡ (
      Done.ok (
        Expired.delete_if key (some (codes "c")) keys ∷ Expired.delete [] ∷ [],
        record { runs = 1; requests = 0; failure = none },
      ),
      store,
    )
unfolding expire_entries expire_entry expire_record counted expire_run found_run settled_run_at
    with_definition remove_run run_keys forget_groups graph_run get text_eq parse_suffix Option.bind
    is_utf8 split_once new is_partition
passed = refl

expire_entries-removals_example :
    (1
      ≡ 0
        + removals is_run
            ((5, codes "runs/demo/20260915") ∷ (5, codes "other") ∷ [])
            (Expired.delete_if key (some (codes "c")) keys ∷ Expired.delete [] ∷ []))
    × (0
        ≡ 0
          + removals is_request
              ((5, codes "runs/demo/20260915") ∷ (5, codes "other") ∷ [])
              (Expired.delete_if key (some (codes "c")) keys ∷ Expired.delete [] ∷ []))
expire_entries-removals_example =
    expire_entries-removals services forget_none no_request no_failure
      (record { runs = 1; requests = 0; failure = none })
      ((5, codes "runs/demo/20260915") ∷ (5, codes "other") ∷ [])
      (Expired.delete_if key (some (codes "c")) keys ∷ Expired.delete [] ∷ []) store store passed
