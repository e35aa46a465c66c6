-- ===== src/Scheduler/Steps/Reconcile.antt =====
-- swale/src/scheduler.rs: the triggers, the starts and the pass of the reconciler.
use mathlib.Core.Option
use swale.Base.{ℕ, ◌+◌, Option, none, some, List, [], ◌∷◌, Text, if◌then◌else◌}
use swale.Graph.{Graph}
use swale.Partition.{Partition, of_time}
use swale.Records.{GraphRunRecord, GraphRunState, GraphRecord}
use swale.Records.Keys.{parse_graph_run_key}
use swale.Scheduler.{Error}
use swale.Scheduler.Services.{
  Services, Action, Done, ◌>>=◌, return, or_fail, graph_record, load_graph, scan_runs,
}
use swale.Scheduler.Steps.{one_if, start_run, cancel_active_runs}
use swale.Scheduler.Steps.Advance.{advance}

pub record ReconcileReport : Type 0 where
  pub active_runs : ℕ
  pub submitted : ℕ
  pub settled : ℕ
  pub cancelled : ℕ

-- the result of a step with its failure as an absent value
attempted : {S A : Type 0} → Done Error A × S → Done Error (Option A) × S
attempted (Done.ok a, s) = (Done.ok (some a), s)
attempted (Done.err e, s) = (Done.ok none, s)
attempted (Done.panicked, s) = (Done.panicked, s)

module _ {S Expression : Type 0} (services : Services S Expression) where
  -- `adopted`
  adopted : Text → Action S GraphRecord
  adopted graph_name = do
    found ← graph_record services graph_name
    or_fail (Error.unknown_graph graph_name) found

  -- `start_adopted`
  unfoldable pub start_adopted : GraphRecord → List Partition → Action S (List Partition)
  start_adopted record_ [] = return []
  start_adopted record_ (p ∷ ps) = do
    outcome ← start_run services record_.definition p
    rest ← start_adopted record_ ps
    return (if outcome.started then p ∷ rest else rest)

  unfoldable pub start_runs : Text → List Partition → Action S (List Partition)
  unfolding adopted start_adopted
  start_runs graph_name partitions = do
    record_ ← adopted graph_name
    start_adopted record_ partitions

  abbrev first : List Partition → Option Partition
  first [] = none
  first (p ∷ _) = some p

  -- `handle_trigger`
  unfoldable pub handle_trigger : Text → Option ℕ → Action S (Option Partition)
  unfolding adopted start_adopted
  handle_trigger graph_name interval_start_ms = do
    record_ ← adopted graph_name
    g ← load_graph services record_.definition
    partition ←
        or_fail (Error.no_partition graph_name)
          (Option.bind interval_start_ms (of_time services.from_timestamp_millis g.partitioning))
    started ← start_adopted record_ (partition ∷ [])
    return (first started)

  -- one graph run of `reconcile` whose definition loads
  reconcile_run :
      ReconcileReport
      → Graph Expression
      → Partition
      → Text
      → GraphRunRecord
      → GraphRunState
      → Action S ReconcileReport
  reconcile_run report g partition bytes run GraphRunState.active = do
    done ← advance services g partition run bytes g.nodes
    return (record report {
      active_runs = report.active_runs + 1;
      submitted = report.submitted + done.0;
      settled = report.settled + one_if done.1;
    })
  reconcile_run report g partition bytes run GraphRunState.cancelled = do
    count ← cancel_active_runs services g partition run
    return (record report { cancelled = report.cancelled + count })
  reconcile_run report g partition bytes run GraphRunState.complete = return report
  reconcile_run report g partition bytes run GraphRunState.failed = return report

  -- a graph run of `reconcile`; a definition that is absent or fails to load is passed over
  reconcile_entry : ReconcileReport → Text × Text × GraphRunRecord → Action S ReconcileReport
  unfolding reconcile_run attempted
  reconcile_entry report (key, bytes, run) = elim (parse_graph_run_key key) [
    | none ↦ return report
    | some place ↦ (do
      loaded ← (λ s. attempted (services.definition run.definition s))
      elim (Option.bind loaded (λ g. g)) [
        | none ↦ return report
        | some g ↦ reconcile_run report g place.1 bytes run run.state
      ])
  ]

  reconcile_entries :
      ReconcileReport → List (Text × Text × GraphRunRecord) → Action S ReconcileReport
  unfolding reconcile_entry
  reconcile_entries report [] = return report
  reconcile_entries report (e ∷ es) = do next ← reconcile_entry report e; reconcile_entries next es

  unfoldable pub reconcile : Action S ReconcileReport
  unfolding reconcile_entries
  reconcile = do
    entries ← scan_runs services
    reconcile_entries (record { active_runs = 0; submitted = 0; settled = 0; cancelled = 0 })
        entries
