-- ===== src/Readiness/Extends.antt =====
-- The order in which one map of node states extends another, along the rounds of `node_states`
-- (swale/src/readiness.rs).
use swale.Base.{
  ◌≡◌, refl, true, ◌⊎◌, inl, inr, Option, none, some, List, [], ◌∷◌, Memᴰ, Text, Map, get,
  get-insert, text_eq, text_eq_iff, arith, Option-cases, subst,
}
use swale.Graph.{Node, name}
use swale.Graph.Ordered.{IsDistinct, eq_of_name}
use swale.Records.{NodeRecord}
use swale.Readiness.{NodeState, cons_state, upstream_states, local_state, resolve, pass}

abbrev pub Extends : Map NodeState → Map NodeState → Type 0
Extends s t = (k : Text) (x : NodeState) → get k s ≡ some x → get k t ≡ some x

pub cons_state-eq_some :
    (a : Option NodeState) (b : Option (List NodeState)) {l : List NodeState}
    → cons_state a b ≡ some l
    → (x : NodeState) × (xs : List NodeState) × (a ≡ some x) × (b ≡ some xs) × (l ≡ x ∷ xs)
unfolding cons_state
cons_state-eq_some (some x) (some xs) h = (x, xs, refl, refl, ground arith)
cons_state-eq_some (some x) none h = cc
cons_state-eq_some none b h = cc

pub upstream_states-Extends :
    (us : List Text) (s t : Map NodeState) {l : List NodeState}
    → Extends s t
    → upstream_states us s ≡ some l
    → upstream_states us t ≡ some l
unfolding upstream_states
upstream_states-Extends [] s t e h = h
upstream_states-Extends (u ∷ us) s t e h =
    let (x, xs, p, q, r) = cons_state-eq_some (get u s) (upstream_states us s) h in
    rw (e u x p, upstream_states-Extends us s t e q, r)

module _ (records : Map NodeRecord) where
  pub local_state-Extends :
      (s t : Map NodeState) (n : Node) {x : NodeState}
      → Extends s t
      → local_state records s n ≡ some x
      → local_state records t n ≡ some x
  unfolding local_state
  local_state-Extends s t n e h = elim (Option-cases (get (name n) records)) [
    | inl p ↦ elim (Option-cases (upstream_states n.upstreams s)) [
      | inl q ↦ ground arith
      | inr (l, q) ↦ ground (arith, upstream_states-Extends n.upstreams s t e q)
    ]
    | inr (r, p) ↦ ground arith
  ]

  pub resolve-Extends : (s : Map NodeState) (n : Node) → Extends s (resolve records s n)
  unfolding resolve
  resolve-Extends s n k x h = elim (Option-cases (local_state records s n)) [
    | inl p ↦ ground arith
    | inr (y, p) ↦ ground (arith, get-insert (name n) k y s, text_eq_iff (name n) k)
  ]

  pub pass-Extends : (ns : List Node) (s : Map NodeState) → Extends s (pass records ns s)
  unfolding pass
  pass-Extends [] s k x h = h
  pass-Extends (n ∷ ns) s k x h =
      pass-Extends ns (resolve records s n) k x (resolve-Extends s n k x h)

  -- Each entry that a round wrote is the state that the round computes from the entries.
  abbrev pub IsSound : List Node → Map NodeState → Type 0
  IsSound nodes s =
      (n : Node) (x : NodeState)
      → Memᴰ n nodes
      → get (name n) s ≡ some x
      → local_state records s n ≡ some x

  -- An entry after a node's turn stood there before, or is the state computed for the node.
  get-resolve :
      (s : Map NodeState) (n : Node) (k : Text) {x : NodeState}
      → get k (resolve records s n) ≡ some x
      → (get k s ≡ some x) ⊎ ((text_eq (name n) k ≡ true) × (local_state records s n ≡ some x))
  unfolding resolve
  get-resolve s n k h = elim (Option-cases (local_state records s n)) [
    | inl p ↦ inl (ground arith)
    | inr (y, p) ↦ ground (arith, get-insert (name n) k y s)
  ]

  pub resolve-IsSound :
      (nodes : List Node) (s : Map NodeState) (n : Node)
      → IsDistinct nodes
      → Memᴰ n nodes
      → IsSound nodes s
      → IsSound nodes (resolve records s n)
  resolve-IsSound nodes s n d m h k x mk e =
      local_state-Extends s (resolve records s n) k (resolve-Extends s n)
        (elim (get-resolve s n (name k) e) [
          | inl old ↦ h k x mk old
          | inr (same, new) ↦
              subst (λ z. local_state records s z ≡ some x)
                (eq_of_name nodes d n k m mk ((text_eq_iff (name n) (name k)).0 same)) new
        ])

  pub pass-IsSound :
      (nodes : List Node)
      → IsDistinct nodes
      → (ns : List Node) (s : Map NodeState) → ((n : Node) → Memᴰ n ns → Memᴰ n nodes)
      → IsSound nodes s
      → IsSound nodes (pass records ns s)
  unfolding pass
  pass-IsSound nodes d [] s sub h = h
  pass-IsSound nodes d (n ∷ ns) s sub h =
      pass-IsSound nodes d ns (resolve records s n) (λ k m. sub k (Memᴰ.tail m))
        (resolve-IsSound nodes s n d (sub n (Memᴰ.head refl)) h)
