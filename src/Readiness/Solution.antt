-- ===== src/Readiness/Solution.antt =====
-- The map of states that `node_states` returns (swale/src/readiness.rs).
use mathlib.Core.List.Memᴰ
use mathlib.Core.WellFounded.{Acc}
use swale.Base.{
  ℕ, zero, suc, ◌≡◌, ◌↔◌, refl, sym, ap, ◌∙◌, get-insert, text_eq_refl, true, ◌⊎◌, inl, inr, some,
  List, [], ◌∷◌, Memᴰ, Text, Map, get, has, length, ltb, arith, Option-cases, Bool-cases, subst,
  mem-insert,
}
use swale.Graph.{Graph, Node, name}
use swale.Graph.Ordered.{IsOrdered, Below, below}
use swale.Records.{NodeRecord}
use swale.Readiness.{NodeState, upstream_states, local_state, resolve, pass, passes, node_states}
use swale.Readiness.Extends.{resolve-Extends}
use swale.Readiness.Count.{IsSized-nil, all_resolved}
use swale.Readiness.States.{passes_total}

pub record IsSolution (records : Map NodeRecord) (nodes : List Node) (t : Map NodeState)
    : Type 0 where
  pub at :
      (n : Node)
      → Memᴰ n nodes
      → (x : NodeState) × (get (name n) t ≡ some x) × (local_state records t n ≡ some x)
  pub entries :
      (k : Text) (x : NodeState)
      → Memᴰ (k, x) t
      → (n : Node) × Memᴰ n nodes × (name n ≡ k) × (get k t ≡ some x)

module _ (records : Map NodeRecord) (nodes : List Node) where
  IsKeyed : Map NodeState → Type 0
  IsKeyed t =
      (k : Text) (x : NodeState)
      → Memᴰ (k, x) t
      → (n : Node) × Memᴰ n nodes × (name n ≡ k) × (get k t ≡ some x)

  mem-resolve :
      (s : Map NodeState) (n : Node) (e : Text × NodeState)
      → Memᴰ e (resolve records s n)
      → Memᴰ e s ⊎ ((name n ≡ e.0) × (get (name n) (resolve records s n) ≡ some e.1))
  unfolding resolve
  mem-resolve s n e h = elim (Bool-cases (has (name n) s)) [
    | inl p ↦ inl (rw p at h)
    | inr p ↦ elim (Option-cases (local_state records s n)) [
      | inl q ↦ inl (rw (p, q) at h)
      | inr (x, q) ↦ elim (mem-insert (name n) x s e (rw (p, q) at h)) [
        | inl new ↦ inr (
          sym (ap (λ (z : Text × NodeState). z.0) new),
          ground (
            arith,
            get-insert (name n) (name n) x s,
            text_eq_refl (name n),
            ap (λ (z : Text × NodeState). z.1) new,
          ),
        )
        | inr old ↦ inl old
      ]
    ]
  ]

  resolve-IsKeyed :
      (s : Map NodeState) (n : Node) → Memᴰ n nodes → IsKeyed s → IsKeyed (resolve records s n)
  unfolding IsKeyed
  resolve-IsKeyed s n m h k x e = elim (mem-resolve s n (k, x) e) [
    | inl old ↦ let (j, mj, p, q) = h k x old in (j, mj, p, resolve-Extends records s n k x q)
    | inr (p, q) ↦ (n, m, p, subst (λ z. get z (resolve records s n) ≡ some x) p q)
  ]

  pass-IsKeyed :
      (ns : List Node) (s : Map NodeState)
      → ((n : Node) → Memᴰ n ns → Memᴰ n nodes)
      → IsKeyed s
      → IsKeyed (pass records ns s)
  unfolding pass
  pass-IsKeyed [] s sub h = h
  pass-IsKeyed (n ∷ ns) s sub h =
      pass-IsKeyed ns (resolve records s n) (λ k m. sub k (Memᴰ.tail m))
        (resolve-IsKeyed s n (sub n (Memᴰ.head refl)) h)

  passes-IsKeyed :
      (fuel : ℕ) (s t : Map NodeState)
      → IsKeyed s
      → passes fuel records nodes s ≡ some t
      → IsKeyed t
  unfolding passes
  passes-IsKeyed zero s t h e = elim (Bool-cases (ltb (length s) (length nodes))) [
    | inl more ↦ cc (rw more at e)
    | inr done ↦ subst IsKeyed (ground arith) h
  ]
  passes-IsKeyed (suc fuel) s t h e = elim (Bool-cases (ltb (length s) (length nodes))) [
    | inl more ↦
        passes-IsKeyed fuel (pass records nodes s) t (pass-IsKeyed nodes s (λ _ q. q) h)
          (rw more at e)
    | inr done ↦ subst IsKeyed (ground arith) h
  ]

some_of_has : (k : Text) (s : Map NodeState) → has k s ≡ true → (x : NodeState) × (get k s ≡ some x)
some_of_has k s h = elim (Option-cases (get k s)) [
  | inl p ↦ cc (rw (has, p) at h)
  | inr found ↦ found
]

module _ {Expression : Type 0} (g : Graph Expression) (records : Map NodeRecord) where
  -- On an ordered graph (distinct names, upstreams that are nodes, no endless chain of them) the
  -- loops end within as many rounds as there are nodes. The result has one entry for every node,
  -- that entry is the state which the rule gives from the node's record, or from the records and
  -- the entries of its upstreams where it has none, and every entry is a node's.
  pub node_states_total :
      IsOrdered g.nodes
      → (t : Map NodeState) × (node_states g records ≡ some t) × IsSolution records g.nodes t
  unfolding node_states IsKeyed get
  node_states_total ordered =
      let sized = IsSized-nil g.nodes in
      let (t, ends, all, sound) =
        passes_total records g.nodes ordered (length g.nodes) [] (omega arith) sized
          (λ n x m e. cc) in
      (
        t,
        ends,
        record {
          at = λ n m.
              let (x, e) = some_of_has (name n) t (all_resolved g.nodes t n all m) in
              (x, e, sound n x m e);
          entries =
              passes-IsKeyed records g.nodes (length g.nodes) [] t
                (λ k x m. absurd (Memᴰ.not-nil m)) ends;
        },
      )

-- The states of one graph agree: the order of the nodes does not matter, only which they are.
module _ (records : Map NodeRecord) (ns ms : List Node) (s t : Map NodeState) where
  upstream_states-eq :
      (us : List Text)
      → ((u : Text) → Memᴰ u us → get u s ≡ get u t)
      → upstream_states us s ≡ upstream_states us t
  unfolding upstream_states
  upstream_states-eq [] h = refl
  upstream_states-eq (u ∷ us) h =
      rw (h u (Memᴰ.head refl), upstream_states-eq us (λ v m. h v (Memᴰ.tail m)))

  local_state-eq :
      (n : Node)
      → upstream_states n.upstreams s ≡ upstream_states n.upstreams t
      → local_state records s n ≡ local_state records t n
  unfolding local_state
  local_state-eq n h = elim (Option-cases (get (name n) records)) [
    | inl p ↦ elim (Option-cases (upstream_states n.upstreams t)) [
      | inl q ↦ ground arith
      | inr (l, q) ↦ ground arith
    ]
    | inr (r, p) ↦ ground arith
  ]

  agree-Below :
      IsOrdered ns
      → IsSolution records ns s
      → IsSolution records ms t
      → ((n : Node) → Memᴰ n ns → Memᴰ n ms)
      → (k : Text) (n : Node) → Acc (Below ns) k
      → name n ≡ k
      → Memᴰ n ns
      → get (name n) s ≡ get (name n) t
  agree-Below ordered a b sub k n (Acc.intro _ smaller) eq m =
      let (x, p, p') = a.at n m in
      let (y, q, q') = b.at n (sub n m) in
      let ups = upstream_states-eq n.upstreams λ u mu.
        let (v, mv, e) = ordered.known n u m mu in
        rw (sym e) (agree-Below ordered a b sub u v (smaller u (below n m eq mu)) e mv) in
      let same : some x ≡ some y = sym p' ∙ local_state-eq n ups ∙ q' in p ∙ (same ∙ sym q)

module _ {Expression : Type 0} (g h : Graph Expression) (records : Map NodeRecord) where
  -- Two ordered graphs with the same nodes, whatever their order in the list, have states for the
  -- same records, and these agree at every node.
  pub node_states-order :
      IsOrdered g.nodes
      → IsOrdered h.nodes
      → ((n : Node) → Memᴰ n g.nodes ↔ Memᴰ n h.nodes)
      → (s : Map NodeState) × (t : Map NodeState) × (node_states g records ≡ some s)
        × (node_states h records ≡ some t)
        × ((n : Node) → Memᴰ n g.nodes → get (name n) s ≡ get (name n) t)
  node_states-order og oh same =
      let (s, p, a) = node_states_total g records og in
      let (t, q, b) = node_states_total h records oh in
      (
        s,
        t,
        p,
        q,
        λ n m.
            agree-Below records g.nodes h.nodes s t og a b (λ k. (same k).0) (name n) n
              (og.grounded n m) refl m,
      )
