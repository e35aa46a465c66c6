-- ===== src/Graph/Build/Checked.antt =====
-- The nodes that `Graph::build` makes from tables without a fault.
use mathlib.Core.List.Memᴰ
use mathlib.Core.WellFounded.{Acc}
use swale.Base.{
  ℕ, zero, suc, ◌<◌, ◌≡◌, refl, sym, ap, ◌∙◌, subst, true, inl, inr, some, List, [], ◌∷◌, Memᴰ,
  Text, Map, get, has, remove, get_elem?, length, arith, Option-cases,
}
use swale.Graph.{NodeSpec, Node, name}
use swale.Graph.Ordered.{IsDistinct, IsOrdered, Below, below}
use swale.Graph.Checks.{check_names, check_producers, check_upstreams}
use swale.Graph.Checks.Names.{IsDistinctSpecs, names_distinct, index_origin, index_position}
use swale.Graph.Checks.Upstreams.{check_producers_all, check_upstreams_all, length-check_upstreams}
use swale.Graph.Cycle.Marks.{lt-of_get_elem?}
use swale.Graph.Cycle.Scan.{Edge, edge, IsIndexed}
use swale.Graph.Build.{make_nodes}

-- The node made from a specification, by position.
pub mem-make_nodes :
    (ns : List NodeSpec) (ups : List (List Text)) (m : Map (List Text)) (x : Node)
    → Memᴰ x (make_nodes ns ups m)
    → (p : ℕ) × (n : NodeSpec) × (get_elem? ns p ≡ some n)
      × (get_elem? ups p ≡ some x.upstreams)
      × (x.spec ≡ n)
unfolding make_nodes
mem-make_nodes [] ups m x mem = absurd (Memᴰ.not-nil mem)
mem-make_nodes (n ∷ ns) [] m x mem = absurd (Memᴰ.not-nil mem)
mem-make_nodes (n ∷ ns) (us ∷ ups) m x mem = elim (Memᴰ.cases_cons mem) [
  | inl same ↦
      (0, n, refl, ap (λ (z : Node). some z.upstreams) (sym same), ap (λ (z : Node). z.spec) same)
  | inr mem' ↦
      let (p, k, a, b, c) = mem-make_nodes ns ups (remove n.name m) x mem' in (suc p, k, a, b, c)
]

node_at :
    (ns : List NodeSpec) (ups : List (List Text)) (m : Map (List Text)) (p : ℕ) (n : NodeSpec)
    → length ups ≡ length ns
    → get_elem? ns p ≡ some n
    → (x : Node) × Memᴰ x (make_nodes ns ups m) × (name x ≡ n.name)
unfolding make_nodes
node_at [] ups m p n len e = cc
node_at (k ∷ ns) [] m p n len e = absurd (omega arith)
node_at (k ∷ ns) (us ∷ ups) m zero n len e =
    let same : k ≡ n = ground arith in (_, Memᴰ.head refl, ap (λ (z : NodeSpec). z.name) same)
node_at (k ∷ ns) (us ∷ ups) m (suc p) n len e =
    let (x, mem, a) = node_at ns ups (remove k.name m) p n (omega arith) e in (x, Memᴰ.tail mem, a)

pub mem-of_get_elem? :
    {A : Type 0} (xs : List A) (p : ℕ) {x : A} → get_elem? xs p ≡ some x → Memᴰ x xs
mem-of_get_elem? [] p e = cc
mem-of_get_elem? (x ∷ xs) zero e = Memᴰ.head (ground arith)
mem-of_get_elem? (x ∷ xs) (suc p) e = Memᴰ.tail (mem-of_get_elem? xs p e)

get_elem?-of_mem :
    {A : Type 0} (xs : List A) {x : A} → Memᴰ x xs → (p : ℕ) × (get_elem? xs p ≡ some x)
get_elem?-of_mem [] m = absurd (Memᴰ.not-nil m)
get_elem?-of_mem (y ∷ xs) m = elim (Memᴰ.cases_cons m) [
  | inl e ↦ (0, ap some (sym e))
  | inr m' ↦ let (p, e) = get_elem?-of_mem xs m' in (suc p, e)
]

make_nodes-IsDistinct :
    (ns : List NodeSpec) (ups : List (List Text)) (m : Map (List Text))
    → IsDistinctSpecs ns
    → IsDistinct (make_nodes ns ups m)
unfolding make_nodes
make_nodes-IsDistinct [] ups m d = tt
make_nodes-IsDistinct (n ∷ ns) [] m d = tt
make_nodes-IsDistinct (n ∷ ns) (us ∷ ups) m d = (
  λ x mem e.
      let (p, k, a, b, c) = mem-make_nodes ns ups (remove n.name m) x mem in
      d.0 k (mem-of_get_elem? ns p a) (sym (ap (λ (z : NodeSpec). z.name) c) ∙ e),
  make_nodes-IsDistinct ns ups (remove n.name m) d.1,
)

module _ (graph_name : Text) (ns : List NodeSpec)
    (no_fault : (check_names graph_name ns 0 []).0 ≡ []) where
  abbrev pub index_of : Map ℕ
  index_of = (check_names graph_name ns 0 []).1

  abbrev pub upstreams_of : List (List Text)
  upstreams_of = (check_upstreams index_of (check_producers ns []).1 ns).1

  -- the name of a node, by its position
  abbrev IsNode : Text → Type 0
  IsNode u = (p : ℕ) × (n : NodeSpec) × (get_elem? ns p ≡ some n) × (n.name ≡ u)

  indexed_IsNode : (u : Text) → has u index_of ≡ true → IsNode u
  unfolding get
  indexed_IsNode u h = elim (Option-cases (get u index_of)) [
    | inl e ↦ cc (rw (has, e) at h)
    | inr (v, e) ↦ elim (index_origin graph_name ns 0 [] u v e) [
      | inl old ↦ cc old
      | inr (p, n, a, b, c) ↦ (p, n, a, b)
    ]
  ]

  upstream_IsNode :
      (i : ℕ) (ups : List Text) (u : Text)
      → get_elem? upstreams_of i ≡ some ups
      → Memᴰ u ups
      → IsNode u
  unfolding get
  upstream_IsNode =
      check_upstreams_all IsNode index_of (check_producers ns []).1 indexed_IsNode
        (check_producers_all IsNode ns []
          (λ n m. let (p, e) = get_elem?-of_mem ns m in (p, n, e, refl))
          (λ a u m. absurd (Memᴰ.not-nil m)))
        ns

  pub build_IsIndexed : IsIndexed ns upstreams_of index_of
  build_IsIndexed = record {
    size = length-check_upstreams index_of (check_producers ns []).1 ns;
    known = λ i ups u e m.
        let (p, n, a, b) = upstream_IsNode i ups u e m in
        (
          p,
          rw (← b) (index_position graph_name ns 0 [] p n no_fault a ∙ ap some (omega arith)),
          lt-of_get_elem? ns p a,
        );
  }

  abbrev pub nodes_of : Map (List Text) → List Node
  nodes_of m = make_nodes ns upstreams_of m

  -- the index tells the position of a node from its name
  same_position :
      (p q : ℕ) (n k : NodeSpec)
      → get_elem? ns p ≡ some n
      → get_elem? ns q ≡ some k
      → n.name ≡ k.name
      → p ≡ q
  same_position p q n k a b e =
      let x = index_position graph_name ns 0 [] p n no_fault a in
      let y = index_position graph_name ns 0 [] q k no_fault b in
      let z = ap (λ (t : Text). get t index_of) e in ground arith

  node_grounded :
      (m : Map (List Text)) (p : ℕ)
      → Acc (Edge ns upstreams_of index_of) p
      → (n : NodeSpec) → get_elem? ns p ≡ some n
      → Acc (Below (nodes_of m)) n.name
  node_grounded m p (Acc.intro _ smaller) n e =
      Acc.intro n.name λ u b. up u b (λ j ed k ek. node_grounded m j (smaller j ed) k ek)
    where
      up :
          (u : Text)
          → Below (nodes_of m) u n.name
          → ((j : ℕ)
              → Edge ns upstreams_of index_of j p
              → (k : NodeSpec) → get_elem? ns j ≡ some k
              → Acc (Below (nodes_of m)) k.name)
          → Acc (Below (nodes_of m)) u
      up u (below x mx ex mu) ih =
          let (q, k, a, b, c) = mem-make_nodes ns upstreams_of m x mx in
          let same = same_position q p k n a e (sym (ap (λ (z : NodeSpec). z.name) c) ∙ ex) in
          let here = subst (λ z. get_elem? upstreams_of z ≡ some x.upstreams) same b in
          let (j, w, d, f) = upstream_IsNode p x.upstreams u here mu in
          let at = index_position graph_name ns 0 [] j w no_fault d ∙ ap some (omega arith) in
          subst (Acc (Below (nodes_of m))) f (ih j (edge x.upstreams u here mu (rw (← f) at)) w d)

  pub made_IsOrdered :
      (m : Map (List Text))
      → ((k : ℕ) → k < length ns → Acc (Edge ns upstreams_of index_of) k)
      → IsOrdered (nodes_of m)
  made_IsOrdered m acc = record {
    distinct = make_nodes-IsDistinct ns upstreams_of m (names_distinct graph_name ns 0 [] no_fault);
    known = λ x u mx mu.
        let (p, n, a, b, c) = mem-make_nodes ns upstreams_of m x mx in
        let (q, k, d, e) = upstream_IsNode p x.upstreams u b mu in
        let (y, my, f) = node_at ns upstreams_of m q k build_IsIndexed.size d in (y, my, f ∙ e);
    grounded = λ x mx.
        let (p, n, a, b, c) = mem-make_nodes ns upstreams_of m x mx in
        subst (Acc (Below (nodes_of m))) (sym (ap (λ (z : NodeSpec). z.name) c))
          (node_grounded m p (acc p (lt-of_get_elem? ns p a)) n a);
  }
