-- ===== src/Graph/Cycle/Scan.antt =====
-- The loop of `find_cycle` over the upstreams of a node (swale/src/graph.rs), with its invariant.
use mathlib.Core.List.Memᴰ
use mathlib.Core.WellFounded.{Acc}
use swale.Base.{
  ℕ, ◌≤◌, ◌<◌, ◌≡◌, refl, sym, ap, ◌∙◌, subst, inl, inr, some, List, [], ◌∷◌, Memᴰ, Text, Map, get,
  get_elem?, length, arith,
}
use swale.Graph.{NodeSpec}
use swale.Graph.Cycle.{Mark, unvisited, active, done, Visit, found, marked, stuck, report, scan}
use swale.Graph.Cycle.Report.{report-eq_found}
use swale.Graph.Cycle.Marks.{count_unvisited, get_elem?-lt}

module _ (nodes : List NodeSpec) (upstreams : List (List Text)) (index : Map ℕ) where
  -- the node at `j` is an upstream of the node at `i`
  pub data Edge (j i : ℕ) : Type 0 where
    edge :
        (ups : List Text) (u : Text)
        → get_elem? upstreams i ≡ some ups
        → Memᴰ u ups
        → get u index ≡ some j
        → Edge j i

  -- Every upstream name has an index, and the tables have one entry for each node.
  pub record IsIndexed : Type 0 where
    pub size : length upstreams ≡ length nodes
    pub known :
        (i : ℕ) (ups : List Text) (u : Text)
        → get_elem? upstreams i ≡ some ups
        → Memᴰ u ups
        → (j : ℕ) × (get u index ≡ some j) × (j < length nodes)

  pub record Inv (m : List Mark) : Type 0 where
    pub size : length m ≡ length nodes
    pub sound : (k : ℕ) → get_elem? m k ≡ some done → Acc Edge k

  pub record Grow (m m' : List Mark) : Type 0 where
    pub inv : Inv m'
    pub keeps_done : (k : ℕ) → get_elem? m k ≡ some done → get_elem? m' k ≡ some done
    pub keeps_active : (k : ℕ) → get_elem? m k ≡ some active → get_elem? m' k ≡ some active
    pub old_active : (k : ℕ) → get_elem? m' k ≡ some active → get_elem? m k ≡ some active
    pub fewer : count_unvisited m' ≤ count_unvisited m

  pub Grow-refl : (m : List Mark) → Inv m → Grow m m
  Grow-refl m h = record {
    inv = h;
    keeps_done = λ k e. e;
    keeps_active = λ k e. e;
    old_active = λ k e. e;
    fewer = omega arith;
  }

  pub Grow-trans : {a b c : List Mark} → Grow a b → Grow b c → Grow a c
  Grow-trans p q = record {
    inv = q.inv;
    keeps_done = λ k e. q.keeps_done k (p.keeps_done k e);
    keeps_active = λ k e. q.keeps_active k (p.keeps_active k e);
    old_active = λ k e. p.old_active k (q.old_active k e);
    fewer = omega (arith, p.fewer, q.fewer);
  }

  -- The nodes that are marked active are on the path, which is one of nodes.
  pub record OnPath (m : List Mark) (path : List ℕ) : Type 0 where
    pub active_on : (k : ℕ) → get_elem? m k ≡ some active → Memᴰ k path
    pub within : (k : ℕ) → Memᴰ k path → k < length nodes

  Grow-OnPath : {m m' : List Mark} {path : List ℕ} → Grow m m' → OnPath m path → OnPath m' path
  Grow-OnPath g on = record {
    active_on = λ k e. on.active_on k (g.old_active k e);
    within = on.within;
  }

  abbrev pub Post : List Mark → (List Mark → Type 0) → Visit → Type 0
  Post m P (found c) = Unit {0}
  Post m P stuck = ⊥
  Post m P (marked m') = Grow m m' × P m'

  abbrev pub AllDone : List Text → List Mark → Type 0
  AllDone ups m = (u : Text) (j : ℕ) → Memᴰ u ups → get u index ≡ some j → get_elem? m j ≡ some done

  -- what a call of `visit` with the fuel `f` promises
  abbrev pub Promise : ℕ → (ℕ → List Mark → List ℕ → Visit) → Type 0
  Promise f v =
      (j : ℕ) (m : List Mark) (path : List ℕ)
      → Inv m
      → OnPath m path
      → get_elem? m j ≡ some unvisited
      → count_unvisited m ≤ f
      → Post m (λ m'. get_elem? m' j ≡ some done) (v j m path)

  AllDone-cons :
      (u : Text) (us : List Text) (j : ℕ) (m : List Mark)
      → get u index ≡ some j
      → get_elem? m j ≡ some done
      → AllDone us m
      → AllDone (u ∷ us) m
  AllDone-cons u us j m e d h w k mem f = elim (Memᴰ.cases_cons mem) [
    | inl same ↦
        let jk : some j ≡ some k = sym e ∙ (ap (λ (z : Text). get z index) (sym same) ∙ f) in
        let eq : j ≡ k = ground arith in rw (← eq) d
    | inr mem' ↦ h w k mem' f
  ]

  module _ (f : ℕ) (v : ℕ → List Mark → List ℕ → Visit) (promise : Promise f v) where
    scan_rest :
        (u : Text) (us : List Text) (j : ℕ) (m m' : List Mark) (r : Visit)
        → get u index ≡ some j
        → Grow m m'
        → get_elem? m' j ≡ some done
        → Post m' (AllDone us) r
        → Post m (AllDone (u ∷ us)) r
    scan_rest u us j m m' (found c) e g d p = tt
    scan_rest u us j m m' stuck e g d p = p
    scan_rest u us j m m' (marked m'') e g d (g', all) =
        (Grow-trans g g', AllDone-cons u us j m'' e (g'.keeps_done j d) all)

    scan_after :
        (u : Text) (us : List Text) (j : ℕ) (m : List Mark) (path : List ℕ) (r : Visit)
        → get u index ≡ some j
        → OnPath m path
        → count_unvisited m ≤ f
        → ((m' : List Mark)
            → Inv m'
            → OnPath m' path
            → count_unvisited m' ≤ f
            → Post m' (AllDone us) (scan nodes upstreams index v us m' path))
        → Post m (λ m'. get_elem? m' j ≡ some done) r
        → Post m (AllDone (u ∷ us)) (elim r [
          | found c ↦ found c
          | stuck ↦ stuck
          | marked m' ↦ scan nodes upstreams index v us m' path
        ])
    scan_after u us j m path (found c) e on le ih p = tt
    scan_after u us j m path stuck e on le ih p = p
    scan_after u us j m path (marked m') e on le ih (g, d) =
        scan_rest u us j m m' _ e g d (ih m' g.inv (Grow-OnPath g on) (omega (arith, g.fewer)))

    -- what the loop does at a mark
    abbrev scan_case : List Text → ℕ → List Mark → List ℕ → Mark → Visit
    scan_case us j m path active = report nodes upstreams index path j
    scan_case us j m path unvisited = elim (v j m path) [
      | found c ↦ found c
      | stuck ↦ stuck
      | marked m' ↦ scan nodes upstreams index v us m' path
    ]
    scan_case us j m path done = scan nodes upstreams index v us m path

    scan-eq :
        (u : Text) (us : List Text) (j : ℕ) (m : List Mark) (path : List ℕ) (k : Mark)
        → get u index ≡ some j
        → get_elem? m j ≡ some k
        → scan nodes upstreams index v (u ∷ us) m path ≡ scan_case us j m path k
    unfolding scan
    scan-eq u us j m path active e h = ground arith
    scan-eq u us j m path unvisited e h = ground arith
    scan-eq u us j m path done e h = ground arith

    scan_marked :
        (u : Text) (us : List Text) (j : ℕ) (m : List Mark) (path : List ℕ) (k : Mark)
        → get u index ≡ some j
        → get_elem? m j ≡ some k
        → Inv m
        → OnPath m path
        → count_unvisited m ≤ f
        → ((m' : List Mark)
            → Inv m'
            → OnPath m' path
            → count_unvisited m' ≤ f
            → Post m' (AllDone us) (scan nodes upstreams index v us m' path))
        → Post m (AllDone (u ∷ us)) (scan_case us j m path k)
    scan_marked u us j m path active e h inv on le ih =
        let (c, reported) =
          report-eq_found nodes upstreams index j path (on.active_on j h) on.within in
        rw reported tt
    scan_marked u us j m path unvisited e h inv on le ih =
        scan_after u us j m path (v j m path) e on le ih (promise j m path inv on h le)
    scan_marked u us j m path done e h inv on le ih =
        scan_rest u us j m m _ e (Grow-refl m inv) h (ih m inv on le)

    pub scan-Post :
        (us : List Text) (m : List Mark) (path : List ℕ)
        → ((u : Text) → Memᴰ u us → (j : ℕ) × (get u index ≡ some j) × (j < length nodes))
        → Inv m
        → OnPath m path
        → count_unvisited m ≤ f
        → Post m (AllDone us) (scan nodes upstreams index v us m path)
    scan-Post [] m path known inv on le =
        unfold scan in (Grow-refl m inv, λ u j mem. absurd (Memᴰ.not-nil mem))
    scan-Post (u ∷ us) m path known inv on le =
        let (j, e, lt) = known u (Memᴰ.head refl) in
        let (k, h) = get_elem?-lt m j (omega (arith, inv.size)) in
        let rest =
          λ (m' : List Mark) (inv' : Inv m') (on' : OnPath m' path) (le' : count_unvisited m' ≤ f).
            scan-Post us m' path (λ w mem. known w (Memᴰ.tail mem)) inv' on' le' in
        subst (Post m (AllDone (u ∷ us))) (sym (scan-eq u us j m path k e h))
          (scan_marked u us j m path k e h inv on le rest)
