-- ===== src/Status/Graphs.antt =====
-- The counts of the graph runs in the listing of the graphs (swale/src/status.rs, `graphs`).
use swale.Base.{
  arith, ◌≡◌, refl, ap, subst, ◌∙◌, ℕ, ◌+◌, Bool, true, false, inl, inr, Option, none, some, List,
  [], ◌∷◌, Text, Map, insert, get-insert, text_eq, text_eq_iff, if◌then◌else◌, Bool-cases,
  Option-cases,
}
use swale.Partition.{Partition}
use swale.Records.{GraphRunRecord, GraphRunState}
use swale.Records.Keys.{parse_graph_run_key}
use swale.Records.Listing.{Entry}
use swale.Status.{GraphStatus, RunCounts, RunSummary, graph_entry, count_run, add_run, add_runs}

-- the entries of a listing that are graph runs of one graph
abbrev pub own :
    Text → Option (Text × Partition) → GraphRunRecord → List RunSummary → List RunSummary
own k none run rest = rest
own k (some (name, partition)) run rest =
    if text_eq name k then record { partition = partition; run = run } ∷ rest else rest

unfoldable pub runs_of : Text → List (Entry GraphRunRecord) → List RunSummary
runs_of k [] = []
runs_of k ((key, _, run) ∷ entries) = own k (parse_graph_run_key key) run (runs_of k entries)

-- the count of one state
abbrev pub of_state : GraphRunState → RunCounts → ℕ
of_state GraphRunState.active runs = runs.active
of_state GraphRunState.cancelled runs = runs.cancelled
of_state GraphRunState.complete runs = runs.complete
of_state GraphRunState.failed runs = runs.failed

abbrev pub same_state : GraphRunState → GraphRunState → Bool
same_state GraphRunState.active GraphRunState.active = true
same_state GraphRunState.cancelled GraphRunState.cancelled = true
same_state GraphRunState.complete GraphRunState.complete = true
same_state GraphRunState.failed GraphRunState.failed = true
same_state _ _ = false

abbrev pub number : GraphRunState → List RunSummary → ℕ
number state [] = 0
number state (r ∷ rs) = (if same_state state r.run.state then 1 else 0) + number state rs

abbrev pub last_of : Option RunSummary → List RunSummary → Option RunSummary
last_of before [] = before
last_of before (r ∷ rs) = last_of (some r) rs

graph_entry-insert :
    (name k : Text) (g : GraphStatus) (m : Map GraphStatus)
    → graph_entry (insert name g m) k ≡ (if text_eq name k then g else graph_entry m k)
unfolding graph_entry
graph_entry-insert name k g m = elim (Bool-cases (text_eq name k)) [
  | inl same ↦ rw (get-insert name k g m) (rw same refl)
  | inr other ↦ rw (get-insert name k g m) (rw other refl)
]

count_run-of_state :
    (s t : GraphRunState) (runs : RunCounts)
    → of_state s (count_run t runs) ≡ of_state s runs + (if same_state s t then 1 else 0)
unfolding count_run
count_run-of_state s t runs = ground arith

-- the entry after one run of the graph
abbrev counted : Partition → GraphRunRecord → GraphStatus → GraphStatus
counted partition run graph = record graph {
  runs = count_run run.state graph.runs;
  latest = some (record { partition = partition; run = run });
}

add_run-own :
    (k name : Text) (partition : Partition) (run : GraphRunRecord) (m : Map GraphStatus)
    → text_eq name k ≡ true
    → graph_entry (add_run name partition run m) k ≡ counted partition run (graph_entry m k)
unfolding add_run
add_run-own k name partition run m same =
    graph_entry-insert name k (counted partition run (graph_entry m name)) m
    ∙ rw same (ap (λ x. counted partition run (graph_entry m x)) ((text_eq_iff name k).0 same))

add_run-other :
    (k name : Text) (partition : Partition) (run : GraphRunRecord) (m : Map GraphStatus)
    → text_eq name k ≡ false
    → graph_entry (add_run name partition run m) k ≡ graph_entry m k
unfolding add_run
add_run-other k name partition run m other =
    graph_entry-insert name k (counted partition run (graph_entry m name)) m ∙ rw other refl

-- The entry of a graph after a listing counts, for each state, the runs of the graph in that state
-- in addition to those before, and its latest run is the last run of the graph in the listing, or
-- the one before when the listing has none.
pub add_runs-counts :
    (s : GraphRunState) (k : Text) (entries : List (Entry GraphRunRecord)) (m : Map GraphStatus)
    → (of_state s (graph_entry (add_runs entries m) k).runs
        ≡ of_state s (graph_entry m k).runs + number s (runs_of k entries))
      × ((graph_entry (add_runs entries m) k).latest
          ≡ last_of (graph_entry m k).latest (runs_of k entries))
unfolding add_runs runs_of
add_runs-counts s k [] m = (omega arith, refl)
add_runs-counts s k ((key, bytes, run) ∷ entries) m =
    elim (Option-cases (parse_graph_run_key key)) [
      | inl bad ↦ rw (add_runs, runs_of, bad) (add_runs-counts s k entries m)
      | inr ((name, partition), parsed) ↦
          let m' = add_run name partition run m in
          let (n, l) = add_runs-counts s k entries m' in
          elim (Bool-cases (text_eq name k)) [
            | inl same ↦
                let e = add_run-own k name partition run m same in
                let one = count_run-of_state s run.state (graph_entry m k).runs in
                let n' =
                  subst
                    (λ g.
                      of_state s (graph_entry (add_runs entries m') k).runs
                      ≡ of_state s g.runs + number s (runs_of k entries))
                    e n in
                rw (add_runs, runs_of, parsed, same)
                  (
                    omega (arith, one, n'),
                    subst
                        (λ g.
                          (graph_entry (add_runs entries m') k).latest
                          ≡ last_of g.latest (runs_of k entries))
                        e l,
                  )
            | inr other ↦
                let e = add_run-other k name partition run m other in
                rw (add_runs, runs_of, parsed, other)
                  (
                    subst
                        (λ g.
                          of_state s (graph_entry (add_runs entries m') k).runs
                          ≡ of_state s g.runs + number s (runs_of k entries))
                        e n,
                    subst
                        (λ g.
                          (graph_entry (add_runs entries m') k).latest
                          ≡ last_of g.latest (runs_of k entries))
                        e l,
                  )
          ]
    ]
