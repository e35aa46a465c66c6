-- ===== src/Graph/Cycle/Visits.antt =====
-- A visit of `find_cycle` (swale/src/graph.rs): what it promises of the marks and of the path.
use mathlib.Core.WellFounded.{Acc}
use swale.Base.{
  ℕ, zero, suc, ◌≡◌, sym, ◌∙◌, subst, inl, inr, some, List, [], ◌∷◌, ◌++◌, Memᴰ, Text, Map,
  get_elem?, ◌==◌, arith, Bool-cases,
}
use swale.Graph.{NodeSpec}
use swale.Graph.Cycle.{
  Mark, unvisited, active, done, Visit, found, marked, stuck, set_mark, scan, finish, visit,
}
use swale.Graph.Cycle.Marks.{
  get-set_mark, length-set_mark, count-set_active, count-set_done, get_elem?-lt, lt-of_get_elem?,
}
use swale.Graph.Cycle.Scan.{Edge, edge, IsIndexed, Inv, Post, AllDone, Promise, OnPath, scan-Post}
use swale.Graph.Cycle.Report.{mem-append_last, last_mem}

module _ (nodes : List NodeSpec) (upstreams : List (List Text)) (index : Map ℕ) where
  module _ (indexed : IsIndexed nodes upstreams index) where
    -- Marking a node active before its upstreams are scanned.
    start_Inv :
        (i : ℕ) (m : List Mark)
        → get_elem? m i ≡ some unvisited
        → Inv nodes upstreams index m
        → Inv nodes upstreams index (set_mark m i active)
    start_Inv i m h inv = record {
      size = length-set_mark m i active ∙ inv.size;
      sound = λ k e. inv.sound k (ground (arith, get-set_mark m i k active h));
    }

    -- A node is accessible once all its upstreams are done.
    node_Acc :
        (i : ℕ) (ups : List Text) (m : List Mark)
        → get_elem? upstreams i ≡ some ups
        → AllDone nodes upstreams index ups m
        → Inv nodes upstreams index m
        → Acc (Edge nodes upstreams index) i
    node_Acc i ups m h all inv = Acc.intro i λ j e. inv.sound j (edge_done i j ups m h all e)
      where
        edge_done :
            (i j : ℕ) (ups : List Text) (m : List Mark)
            → get_elem? upstreams i ≡ some ups
            → AllDone nodes upstreams index ups m
            → Edge nodes upstreams index j i
            → get_elem? m j ≡ some done
        edge_done i j ups m h all (edge ups' u a b c) =
            let same : ups' ≡ ups = ground arith in all u j (subst (Memᴰ u) same b) c

    finish-Post :
        (i : ℕ) (ups : List Text) (m : List Mark) (r : Visit)
        → get_elem? m i ≡ some unvisited
        → get_elem? upstreams i ≡ some ups
        → Post nodes upstreams index (set_mark m i active) (AllDone nodes upstreams index ups) r
        → Post nodes upstreams index m
            (λ m'. get_elem? m' i ≡ some done)
            (finish nodes upstreams index i r)
    unfolding finish
    finish-Post i ups m (found c) h e p = tt
    finish-Post i ups m stuck h e p = p
    finish-Post i ups m (marked m') h e (g, all) =
        let here = get-set_mark m i i active h in
        let mi : get_elem? m' i ≡ some active = g.keeps_active i (ground arith) in
        (
          record {
            inv = record {
              size = length-set_mark m' i done ∙ g.inv.size;
              sound = λ k d. elim (Bool-cases (k == i)) [
                | inl same ↦ let eq : k ≡ i = ground arith in rw eq (node_Acc i ups m' e all g.inv)
                | inr other ↦ g.inv.sound k (ground (arith, get-set_mark m' i k done mi))
              ];
            };
            keeps_done = λ k d.
                ground
                  (arith, g.keeps_done k, get-set_mark m i k active h, get-set_mark m' i k done mi);
            keeps_active = λ k d.
                ground (
                  arith,
                  g.keeps_active k,
                  get-set_mark m i k active h,
                  get-set_mark m' i k done mi,
                );
            old_active = λ k d.
                ground
                  (arith, g.old_active k, get-set_mark m i k active h, get-set_mark m' i k done mi);
            fewer = omega (arith, g.fewer, count-set_active m i h, count-set_done m' i mi);
          },
          ground (arith, get-set_mark m' i i done mi),
        )

    -- Visiting a node puts it at the end of the path.
    start-OnPath :
        (i : ℕ) (m : List Mark) (path : List ℕ)
        → get_elem? m i ≡ some unvisited
        → Inv nodes upstreams index m
        → OnPath nodes upstreams index m path
        → OnPath nodes upstreams index (set_mark m i active) (path ++ (i ∷ []))
    start-OnPath i m path h inv on = record {
      active_on = λ k e. elim (Bool-cases (k == i)) [
        | inl same ↦ let eq : k ≡ i = ground arith in mem-append_last i path k (inr eq)
        | inr other ↦
            mem-append_last i path k
              (inl (on.active_on k (ground (arith, get-set_mark m i k active h))))
      ];
      within = λ k mem. elim (last_mem i path k mem) [
        | inl before ↦ on.within k before
        | inr eq ↦ rw eq (omega (arith, inv.size, lt-of_get_elem? m i h))
      ];
    }

    visit-eq :
        (f j : ℕ) (m : List Mark) (path : List ℕ) (ups : List Text)
        → get_elem? upstreams j ≡ some ups
        → visit nodes upstreams index (suc f) j m path
          ≡ finish nodes upstreams index j (
              scan nodes upstreams index
                (visit nodes upstreams index f)
                ups
                (set_mark m j active)
                (path ++ (j ∷ [])))
    unfolding visit
    visit-eq f j m path ups e = ground arith

    pub visit-Promise :
        (f : ℕ) → Promise nodes upstreams index f (visit nodes upstreams index (suc f))
    visit-Promise zero j m path inv on h le = absurd (omega (arith, count-set_active m j h))
    visit-Promise (suc f) j m path inv on h le =
        let (ups, e) =
          get_elem?-lt upstreams j (omega (arith, indexed.size, inv.size, lt-of_get_elem? m j h)) in
        subst (Post nodes upstreams index m (λ m'. get_elem? m' j ≡ some done))
          (sym (visit-eq (suc f) j m path ups e))
          (finish-Post j ups m _ h e (
            scan-Post nodes upstreams index f (visit nodes upstreams index (suc f))
              (visit-Promise f) ups (set_mark m j active) (path ++ (j ∷ []))
              (λ u mem. indexed.known j ups u e mem) (start_Inv j m h inv)
              (start-OnPath j m path h inv on) (omega (arith, count-set_active m j h))))
