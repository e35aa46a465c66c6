-- ===== src/Scheduler/Runs.antt =====
-- The expected rerun counts that a rerun and a settle write (swale/src/scheduler.rs).
use mathlib.Core.List.Memᴰ
use swale.Base.{
  ℕ, ◌≡◌, ◌≢◌, refl, ◌∙◌, some, List, [], ◌∷◌, Memᴰ, inl, inr, Text, Map, get, insert, get-insert,
  text_eq, text_eq_iff, text_eq_refl, Bool-cases, Option-cases,
}
use swale.Graph.{Node, name}
use swale.Records.{NodeRecord}
use swale.Scheduler.{expect_reruns, next_rerun}

module _ (records : Map NodeRecord) where
  -- the map with the count of one record that the loop reads
  grown : (n : Text) (q : NodeRecord) (expected : Map ℕ) → Map ℕ
  grown n q expected = insert n (next_rerun q.rerun) expected

  grown_keeps :
      (n k : Text) (q r : NodeRecord) (expected : Map ℕ)
      → get n records ≡ some q
      → get k records ≡ some r
      → get k expected ≡ some (next_rerun r.rerun)
      → get k (grown n q expected) ≡ some (next_rerun r.rerun)
  unfolding grown
  grown_keeps n k q r expected a e h = elim (Bool-cases (text_eq n k)) [
    | inr other ↦ get-insert n k (next_rerun q.rerun) expected ∙ rw other h
    | inl same ↦
        let eq = (text_eq_iff n k).0 same in
        let both : q ≡ r = let e' = rw (← eq) at e in cc in
        get-insert n k (next_rerun q.rerun) expected ∙ rw (same, both) refl
  ]

  -- A count that the loop has written stays.
  expect_reruns_keeps :
      (ns : List Node) (expected : Map ℕ) (k : Text) (r : NodeRecord)
      → get k records ≡ some r
      → get k expected ≡ some (next_rerun r.rerun)
      → get k (expect_reruns ns records expected) ≡ some (next_rerun r.rerun)
  unfolding expect_reruns grown
  expect_reruns_keeps [] expected k r e h = h
  expect_reruns_keeps (n ∷ ns) expected k r e h = elim (Option-cases (get (name n) records)) [
    | inl a ↦ rw (expect_reruns, a) (expect_reruns_keeps ns expected k r e h)
    | inr (q, a) ↦
        rw (expect_reruns, a)
          (expect_reruns_keeps ns (grown (name n) q expected) k r e
            (grown_keeps (name n) k q r expected a e h))
  ]

  pub expect_reruns_has :
      (ns : List Node) (expected : Map ℕ) (n : Node) (r : NodeRecord)
      → Memᴰ n ns
      → get (name n) records ≡ some r
      → get (name n) (expect_reruns ns records expected) ≡ some (next_rerun r.rerun)
  unfolding expect_reruns grown
  expect_reruns_has [] expected n r m e = absurd (Memᴰ.not-nil m)
  expect_reruns_has (x ∷ ns) expected n r m e = elim (Memᴰ.cases_cons m) [
    | inl same ↦
        let a = rw same at e in
        rw (expect_reruns, same, a)
          (expect_reruns_keeps ns (grown (name x) r expected) (name x) r a (
            get-insert (name x) (name x) (next_rerun r.rerun) expected
            ∙ rw (text_eq_refl (name x)) refl))
    | inr rest ↦ elim (Option-cases (get (name x) records)) [
      | inl a ↦ rw (expect_reruns, a) (expect_reruns_has ns expected n r rest e)
      | inr (q, a) ↦
          rw (expect_reruns, a) (expect_reruns_has ns (grown (name x) q expected) n r rest e)
    ]
  ]

  -- Nodes outside the scope keep the count that they had.
  pub expect_reruns_outside :
      (ns : List Node) (expected : Map ℕ) (k : Text)
      → ((n : Node) → Memᴰ n ns → name n ≢ k)
      → get k (expect_reruns ns records expected) ≡ get k expected
  unfolding expect_reruns grown
  expect_reruns_outside [] expected k out = refl
  expect_reruns_outside (n ∷ ns) expected k out = elim (Option-cases (get (name n) records)) [
    | inl a ↦
        rw (expect_reruns, a) (expect_reruns_outside ns expected k (λ x m. out x (Memᴰ.tail m)))
    | inr (q, a) ↦
        rw (expect_reruns, a)
          (expect_reruns_outside ns (grown (name n) q expected) k (λ x m. out x (Memᴰ.tail m))
            ∙ outside q)
  ]
    where
      outside : (q : NodeRecord) → get k (grown (name n) q expected) ≡ get k expected
      outside q = elim (Bool-cases (text_eq (name n) k)) [
        | inl same ↦ absurd (out n (Memᴰ.head refl) ((text_eq_iff (name n) k).0 same))
        | inr other ↦ get-insert (name n) k (next_rerun q.rerun) expected ∙ rw other refl
      ]
