-- ===== src/Graph/Checks/Upstreams.antt =====
-- Lemmas on the loops of `Graph::build` over the assets and the upstreams (swale/src/graph.rs).
use mathlib.Core.List.Memᴰ
use swale.Base.{
  ℕ, zero, suc, ◌≡◌, refl, ap, subst, true, ◌⊎◌, inl, inr, ⊎_elim, some, List, [], ◌∷◌, Memᴰ, Text,
  Map, has, insert, get-insert, set_insert, get_elem?, length, text_eq, text_lt, arith,
  if◌then◌else◌, Bool-cases,
}
use swale.Graph.{NodeKind, NodeSpec}
use swale.Graph.Checks.{
  producers_of, add_producer, check_producers, extend, consume, follow, kind_upstreams,
  check_upstreams,
}

pub mem-set_insert : (k u : Text) (s : List Text) → Memᴰ u (set_insert k s) → (u ≡ k) ⊎ Memᴰ u s
unfolding set_insert
mem-set_insert k u [] m = Memᴰ.cases_cons m
mem-set_insert k u (j ∷ s) m = elim (Bool-cases (text_eq j k)) [
  | inl same ↦ inr (rw same at m)
  | inr other ↦ elim (Bool-cases (text_lt k j)) [
    | inl before ↦ Memᴰ.cases_cons (rw (other, before) at m)
    | inr after ↦
        ⊎_elim (λ e. inr (Memᴰ.head e))
          (λ m'. ⊎_elim inl (λ q. inr (Memᴰ.tail q)) (mem-set_insert k u s m'))
          (Memᴰ.cases_cons (rw (other, after) at m))
  ]
]

mem-extend :
    (xs : List Text) (u : Text) (s : List Text) → Memᴰ u (extend xs s) → Memᴰ u xs ⊎ Memᴰ u s
unfolding extend
mem-extend [] u s m = inr m
mem-extend (x ∷ xs) u s m = elim (mem-extend xs u (set_insert x s) m) [
  | inl p ↦ inl (Memᴰ.tail p)
  | inr q ↦ ⊎_elim (λ e. inl (Memᴰ.head e)) inr (mem-set_insert x u s q)
]

producers_of-insert :
    (k a : Text) (names : List Text) (m : Map (List Text))
    → producers_of a (insert k names m) ≡ (if text_eq k a then names else producers_of a m)
producers_of-insert k a names m = ground (arith, get-insert k a names m)

-- `P` holds of every name that a loop collects.
module _ (P : Text → Type 0) where
  abbrev AllP : List Text → Type 0
  AllP s = (u : Text) → Memᴰ u s → P u

  -- of every producer of every asset
  abbrev pub Producers : Map (List Text) → Type 0
  Producers m = (a : Text) → AllP (producers_of a m)

  consume_all :
      (producers : Map (List Text)) (node : Text) (assets : List Text) (s : List Text)
      → Producers producers
      → AllP s
      → AllP (consume producers node assets s).1
  unfolding consume
  consume_all producers node [] s h p = p
  consume_all producers node (a ∷ assets) s h p =
      consume_all producers node assets (extend (producers_of a producers) s) h
        λ u m. ⊎_elim (h a u) (p u) (mem-extend (producers_of a producers) u s m)

  add_producer_all :
      (kind : NodeKind) (node : Text) (m : Map (List Text))
      → P node
      → Producers m
      → Producers (add_producer kind node m)
  unfolding add_producer
  add_producer_all (NodeKind.task after rule) node m p h a u mem = h a u mem
  add_producer_all (NodeKind.asset produces consumes) node m p h a u mem =
      let at_key = subst (Memᴰ u) (producers_of-insert produces a _ m) mem in
      elim (Bool-cases (text_eq produces a)) [
        | inl same ↦ elim (Memᴰ.append_cases (producers_of produces m) (rw same at at_key)) [
          | inl old ↦ h produces u old
          | inr new ↦ rw (Memᴰ.eq_of_singleton new) p
        ]
        | inr other ↦ h a u (rw other at at_key)
      ]

  pub check_producers_all :
      (ns : List NodeSpec) (m : Map (List Text))
      → ((n : NodeSpec) → Memᴰ n ns → P n.name)
      → Producers m
      → Producers (check_producers ns m).1
  unfolding check_producers
  check_producers_all [] m p h = h
  check_producers_all (n ∷ ns) m p h =
      check_producers_all ns (add_producer n.kind n.name m) (λ k mk. p k (Memᴰ.tail mk))
        (add_producer_all n.kind n.name m (p n (Memᴰ.head refl)) h)

  follow_all :
      (index : Map ℕ) (node : Text) (after : List Text) (s : List Text)
      → ((u : Text) → has u index ≡ true → P u)
      → AllP s
      → AllP (follow index node after s).1
  unfolding follow
  follow_all index node [] s h p = p
  follow_all index node (a ∷ after) s h p =
      follow_all index node after (if has a index then set_insert a s else s) h λ u m.
        elim (Bool-cases (has a index)) [
          | inl known ↦ ⊎_elim (λ e. rw e (h a known)) (p u) (mem-set_insert a u s (rw known at m))
          | inr unknown ↦ p u (rw unknown at m)
        ]

  module _ (index : Map ℕ) (producers : Map (List Text))
      (indexed : (u : Text) → has u index ≡ true → P u) (produced : Producers producers) where
    kind_upstreams_all :
        (node : Text) (kind : NodeKind) → AllP (kind_upstreams index producers node kind).1
    unfolding kind_upstreams
    kind_upstreams_all node (NodeKind.asset produces consumes) =
        consume_all producers node consumes [] produced (λ u m. absurd (Memᴰ.not-nil m))
    kind_upstreams_all node (NodeKind.task after rule) =
        follow_all index node after [] indexed (λ u m. absurd (Memᴰ.not-nil m))

    pub check_upstreams_all :
        (ns : List NodeSpec) (i : ℕ) (ups : List Text) (u : Text)
        → get_elem? (check_upstreams index producers ns).1 i ≡ some ups
        → Memᴰ u ups
        → P u
    unfolding check_upstreams
    check_upstreams_all [] i ups u e m = cc
    check_upstreams_all (n ∷ ns) zero ups u e m =
        let same : (kind_upstreams index producers n.name n.kind).1 ≡ ups = ground arith in
        kind_upstreams_all n.name n.kind u (rw (← same) at m)
    check_upstreams_all (n ∷ ns) (suc i) ups u e m = check_upstreams_all ns i ups u e m

pub length-check_upstreams :
    (index : Map ℕ) (producers : Map (List Text)) (ns : List NodeSpec)
    → length (check_upstreams index producers ns).1 ≡ length ns
unfolding check_upstreams
length-check_upstreams index producers [] = refl
length-check_upstreams index producers (n ∷ ns) = ap suc (length-check_upstreams index producers ns)
