-- ===== src/Graph/Cycle/Sound.antt =====
-- The result of `find_cycle` (swale/src/graph.rs) and the edges of the graph.
use mathlib.Core.List.Memᴰ
use mathlib.Core.WellFounded.{Acc}
use swale.Base.{
  ℕ, zero, suc, ◌+◌, ◌<◌, ◌≡◌, ◌≢◌, refl, sym, subst, inl, inr, some, List, [], ◌∷◌, Text, Map,
  get_elem?, length, map, ◌==◌, arith, Bool-cases,
}
use swale.Graph.{NodeSpec}
use swale.Graph.Cycle.{
  Mark, unvisited, active, done, Visit, found, marked, stuck, visit, visit_all, find_cycle,
}
use swale.Graph.Cycle.Marks.{count-le-length, get_elem?-lt}
use swale.Graph.Cycle.Visits.{visit-Promise}
use swale.Graph.Cycle.Scan.{Edge, IsIndexed, Inv, Post, OnPath}

length-map-unvisited : (ns : List NodeSpec) → length (map (λ _. unvisited) ns) ≡ length ns
length-map-unvisited [] = refl
length-map-unvisited (n ∷ ns) = omega (arith, length-map-unvisited ns)

not_done : (ns : List NodeSpec) (k : ℕ) → get_elem? (map (λ _. unvisited) ns) k ≢ some done
not_done [] k e = cc
not_done (n ∷ ns) zero e = cc
not_done (n ∷ ns) (suc k) e = not_done ns k e

not_active : (ns : List NodeSpec) (k : ℕ) → get_elem? (map (λ _. unvisited) ns) k ≢ some active
not_active [] k e = cc
not_active (n ∷ ns) zero e = cc
not_active (n ∷ ns) (suc k) e = not_active ns k e

module _ (nodes : List NodeSpec) (upstreams : List (List Text)) (index : Map ℕ) where
  module _ (indexed : IsIndexed nodes upstreams index) where
    -- Every node before `i` is done.
    abbrev Before : ℕ → List Mark → Type 0
    Before i m = (k : ℕ) → k < i → get_elem? m k ≡ some done

    abbrev NoneActive : List Mark → Type 0
    NoneActive m = (k : ℕ) → get_elem? m k ≢ some active

    abbrev AllAcc : Visit → Type 0
    AllAcc (found c) = Unit {0}
    AllAcc stuck = ⊥
    AllAcc (marked m) = (k : ℕ) → k < length nodes → Acc (Edge nodes upstreams index) k

    empty-OnPath : (m : List Mark) → NoneActive m → OnPath nodes upstreams index m []
    empty-OnPath m n = record {
      active_on = λ k e. absurd (n k e);
      within = λ k mem. absurd (Memᴰ.not-nil mem);
    }

    Before-suc : (i : ℕ) (m : List Mark) → Before i m → get_elem? m i ≡ some done → Before (suc i) m
    Before-suc i m b d k lt = elim (Bool-cases (k == i)) [
      | inl same ↦ let eq : k ≡ i = ground arith in rw eq d
      | inr other ↦ b k (ground arith)
    ]

    visit_all_rest :
        (k i : ℕ) (m : List Mark) (r : Visit)
        → Before i m
        → NoneActive m
        → ((m' : List Mark)
            → Inv nodes upstreams index m'
            → Before (suc i) m'
            → NoneActive m'
            → AllAcc (visit_all nodes upstreams index k (suc i) m'))
        → Post nodes upstreams index m (λ m'. get_elem? m' i ≡ some done) r
        → AllAcc (elim r [
          | found c ↦ found c
          | stuck ↦ stuck
          | marked m' ↦ visit_all nodes upstreams index k (suc i) m'
        ])
    visit_all_rest k i m (found c) b n ih p = tt
    visit_all_rest k i m stuck b n ih p = p
    visit_all_rest k i m (marked m') b n ih (g, d) =
        ih m' g.inv (Before-suc i m' (λ j lt. g.keeps_done j (b j lt)) d)
          (λ j a. n j (g.old_active j a))

    -- what the outer loop does at a mark
    abbrev all_case : ℕ → ℕ → List Mark → Mark → Visit
    all_case k i m unvisited = elim (visit nodes upstreams index (suc (length nodes)) i m []) [
      | found c ↦ found c
      | stuck ↦ stuck
      | marked m' ↦ visit_all nodes upstreams index k (suc i) m'
    ]
    all_case k i m active = visit_all nodes upstreams index k (suc i) m
    all_case k i m done = visit_all nodes upstreams index k (suc i) m

    visit_all-eq :
        (k i : ℕ) (m : List Mark) (x : Mark)
        → get_elem? m i ≡ some x
        → visit_all nodes upstreams index (suc k) i m ≡ all_case k i m x
    unfolding visit_all
    visit_all-eq k i m unvisited h = ground arith
    visit_all-eq k i m active h = ground arith
    visit_all-eq k i m done h = ground arith

    all_marked :
        (k i : ℕ) (m : List Mark) (x : Mark)
        → get_elem? m i ≡ some x
        → Inv nodes upstreams index m
        → Before i m
        → NoneActive m
        → ((m' : List Mark)
            → Inv nodes upstreams index m'
            → Before (suc i) m'
            → NoneActive m'
            → AllAcc (visit_all nodes upstreams index k (suc i) m'))
        → AllAcc (all_case k i m x)
    all_marked k i m active h inv b n ih = absurd (n i h)
    all_marked k i m done h inv b n ih = ih m inv (Before-suc i m b h) n
    all_marked k i m unvisited h inv b n ih =
        visit_all_rest k i m (visit nodes upstreams index (suc (length nodes)) i m []) b n ih (
          visit-Promise nodes upstreams index indexed (length nodes) i m [] inv (empty-OnPath m n) h
            (omega (arith, count-le-length m, inv.size)))

    visit_all_Acc :
        (k i : ℕ) (m : List Mark)
        → k + i ≡ length nodes
        → Inv nodes upstreams index m
        → Before i m
        → NoneActive m
        → AllAcc (visit_all nodes upstreams index k i m)
    visit_all_Acc zero i m size inv b n =
        unfold visit_all in (λ k lt. inv.sound k (b k (omega arith)))
    visit_all_Acc (suc k) i m size inv b n =
        let (x, h) = get_elem?-lt m i (omega (arith, inv.size)) in
        let rest =
          λ (m' : List Mark) (inv' : Inv nodes upstreams index m') (b' : Before (suc i) m')
              (n' : NoneActive m').
            visit_all_Acc k (suc i) m' (omega arith) inv' b' n' in
        subst AllAcc (sym (visit_all-eq k i m x h)) (all_marked k i m x h inv b n rest)

    start_Inv-all : Inv nodes upstreams index (map (λ _. unvisited) nodes)
    start_Inv-all = record {
      size = length-map-unvisited nodes;
      sound = λ k e. absurd (not_done nodes k e);
    }

    find_cycle-AllAcc : AllAcc (find_cycle nodes upstreams index)
    find_cycle-AllAcc =
        unfold find_cycle in
        visit_all_Acc (length nodes) 0 (map (λ _. unvisited) nodes) (omega arith) start_Inv-all
          (λ k lt. absurd (omega arith)) (λ k e. not_active nodes k e)

    -- Where every upstream name has an index, the search ends: it is not stuck.
    pub find_cycle_total : find_cycle nodes upstreams index ≢ stuck
    find_cycle_total e = subst AllAcc e find_cycle-AllAcc

    -- Where it reports no cycle, no chain of upstreams goes on for ever.
    pub find_cycle_sound :
        (m : List Mark)
        → find_cycle nodes upstreams index ≡ marked m
        → (k : ℕ) → k < length nodes
        → Acc (Edge nodes upstreams index) k
    find_cycle_sound m e = subst AllAcc e find_cycle-AllAcc
