-- ===== src/Scheduler/Records.antt =====
-- What a rerun and a settle make of the records of a graph run (swale/src/scheduler.rs).
use swale.Base.{
  ℕ, ◌≡◌, refl, sym, ap, ◌∙◌, Option, none, some, List, inl, inr, Text, Map, get, IsKeyed,
  get-retain, get-retain-none, ltb, leb, arith, if◌then◌else◌, Bool-cases, Option-cases,
}
use swale.Graph.{Graph, Node}
use swale.Records.{NodeRecord, GraphRunRecord, GraphRunState, is_current, count_or_zero}
use swale.Scheduler.{expect_reruns, settled_run, not_reached}

is_current-of :
    (run : GraphRunRecord) (k : Text) (r : NodeRecord) (o : Option ℕ)
    → get k run.expected_reruns ≡ o
    → is_current run k r ≡ leb (count_or_zero o) r.rerun
unfolding is_current
is_current-of run k r o e = ap (λ (x : Option ℕ). leb (count_or_zero x) r.rerun) e

not_reached-of :
    (records : Map NodeRecord) (k : Text) (r : NodeRecord) (v : ℕ)
    → get k records ≡ some r
    → not_reached records k v ≡ ltb r.rerun v
unfolding not_reached
not_reached-of records k r v e = rw (not_reached, e) refl

kept :
    (records : Map NodeRecord) (k : Text) (r : NodeRecord) (v : ℕ)
    → get k records ≡ some r
    → leb (count_or_zero (if not_reached records k v then some v else none)) r.rerun ≡ leb v r.rerun
kept records k r v e = elim (Bool-cases (ltb r.rerun v)) [
  | inl less ↦ rw (not_reached-of records k r v e ∙ less) refl
  | inr reached ↦ rw (not_reached-of records k r v e ∙ reached) (ground arith)
]

-- Where the keys of the expected counts are distinct, the settle of a graph run does not change
-- whether the record of a node is current.
pub is_current-settled_run :
    (state : GraphRunState) (records : Map NodeRecord) (run : GraphRunRecord) (k : Text)
    (r : NodeRecord)
    → IsKeyed run.expected_reruns
    → get k records ≡ some r
    → is_current (settled_run state records run) k r ≡ is_current run k r
unfolding settled_run
is_current-settled_run state records run k r keyed e =
    let after = settled_run state records run in
    elim (Option-cases (get k run.expected_reruns)) [
      | inl a ↦
          is_current-of after k r none
            (get-retain-none (not_reached records) k run.expected_reruns a)
          ∙ sym (is_current-of run k r none a)
      | inr (v, a) ↦
          is_current-of after k r _
            (get-retain (not_reached records) k v run.expected_reruns keyed a)
          ∙ (kept records k r v e ∙ sym (is_current-of run k r (some v) a))
    ]

abbrev scoped : List Node → Map NodeRecord → GraphRunRecord → GraphRunRecord
scoped scope records run = record run {
  state = GraphRunState.active;
  settled_at_ms = none;
  expected_reruns = expect_reruns scope records run.expected_reruns;
}
