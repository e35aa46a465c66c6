-- ===== src/Readiness/States.antt =====
-- The loops of `node_states` (swale/src/readiness.rs) on a checked graph.
use mathlib.Core.List.Memᴰ
use mathlib.Core.WellFounded.{Acc}
use swale.Base.{
  ℕ, zero, suc, ◌≤◌, ◌<◌, ◌≡◌, refl, true, false, inl, inr, none, some, List, [], ◌∷◌, Memᴰ, Text,
  Map, get, has, get-insert, text_eq_refl, length, ltb, arith, Bool-cases, Option-cases, subst,
}
use swale.Graph.{Node, name}
use swale.Graph.Ordered.{IsOrdered, Below, below}
use swale.Records.{NodeRecord}
use swale.Readiness.{NodeState, cons_state, upstream_states, local_state, resolve, pass, passes}
use swale.Readiness.Extends.{
  local_state-Extends, resolve-Extends, pass-Extends, IsSound, pass-IsSound,
}
use swale.Readiness.Count.{
  unresolved, unresolved-lt, has-Extends, IsSized, pass-IsSized, some_unresolved,
}

-- An upstream without a state is what keeps the states of the upstreams from being read.
upstream_states-eq_none :
    (us : List Text) (s : Map NodeState)
    → upstream_states us s ≡ none
    → (u : Text) × Memᴰ u us × (has u s ≡ false)
unfolding upstream_states cons_state
upstream_states-eq_none [] s h = cc
upstream_states-eq_none (u ∷ us) s h = elim (Option-cases (get u s)) [
  | inl p ↦ (u, Memᴰ.head refl, rw (p, has))
  | inr (x, p) ↦ elim (Option-cases (upstream_states us s)) [
    | inl q ↦ let (v, m, e) = upstream_states-eq_none us s q in (v, Memᴰ.tail m, e)
    | inr (l, q) ↦ cc (h, p, q)
  ]
]

module _ (records : Map NodeRecord) where
  has-resolve :
      (s : Map NodeState) (n : Node) {x : NodeState}
      → local_state records s n ≡ some x
      → has (name n) (resolve records s n) ≡ true
  unfolding resolve
  has-resolve s n {x} h = elim (Bool-cases (has (name n) s)) [
    | inl p ↦ ground arith
    | inr p ↦ ground (arith, get-insert (name n) (name n) x s, text_eq_refl (name n))
  ]

  has-pass :
      (ns : List Node) (s : Map NodeState) (n : Node) {x : NodeState}
      → Memᴰ n ns
      → local_state records s n ≡ some x
      → has (name n) (pass records ns s) ≡ true
  unfolding pass
  has-pass [] s n m h = absurd (Memᴰ.not-nil m)
  has-pass (k ∷ ns) s n m h = elim (Memᴰ.cases_cons m) [
    | inl same ↦
        has-Extends (resolve records s k) _ (name n) (pass-Extends records ns (resolve records s k))
          (subst (λ z. has (name n) (resolve records s z) ≡ true) same (has-resolve s n h))
    | inr m' ↦
        has-pass ns (resolve records s k) n m'
          (local_state-Extends records s (resolve records s k) n (resolve-Extends records s k) h)
  ]

  local_state-eq_none :
      (s : Map NodeState) (n : Node)
      → local_state records s n ≡ none
      → upstream_states n.upstreams s ≡ none
  unfolding local_state
  local_state-eq_none s n h = ground arith

  module _ (nodes : List Node) (ordered : IsOrdered nodes) where
    -- Below an unresolved node stands one that the next round resolves.
    pass-lt :
        (s : Map NodeState) (k : Text) (n : Node)
        → Acc (Below nodes) k
        → name n ≡ k
        → Memᴰ n nodes
        → has (name n) s ≡ false
        → unresolved nodes (pass records nodes s) < unresolved nodes s
    pass-lt s k n (Acc.intro _ smaller) eq m h = elim (Option-cases (local_state records s n)) [
      | inr (x, p) ↦
          unresolved-lt nodes s (pass records nodes s) n (pass-Extends records nodes s) m h
            (has-pass nodes s n m p)
      | inl p ↦
          let (u, mu, hu) = upstream_states-eq_none n.upstreams s (local_state-eq_none s n p) in
          let (v, mv, e) = ordered.known n u m mu in
          pass-lt s u v (smaller u (below n m eq mu)) e mv (rw e hu)
    ]

    -- The loop ends, within one round for each unresolved node, with every node resolved.
    pub passes_total :
        (fuel : ℕ) (s : Map NodeState)
        → unresolved nodes s ≤ fuel
        → IsSized nodes s
        → IsSound records nodes s
        → (t : Map NodeState) × (passes fuel records nodes s ≡ some t)
          × (unresolved nodes t ≡ 0)
          × IsSound records nodes t
    unfolding passes
    passes_total zero s le sized sound = (s, ground arith, omega arith, sound)
    passes_total (suc fuel) s le sized sound = elim (Bool-cases (ltb (length s) (length nodes))) [
      | inr done ↦ (s, rw done, ground arith, sound)
      | inl more ↦
          let (n, m, h) = some_unresolved nodes s (ground arith) in
          let lt = pass-lt s (name n) n (ordered.grounded n m) refl m h in
          let (t, ends, all, ok) =
            passes_total fuel (pass records nodes s) (omega arith)
              (pass-IsSized records nodes ordered.distinct nodes s (λ _ q. q) sized)
              (pass-IsSound records nodes ordered.distinct nodes s (λ _ q. q) sound) in
          (t, rw more ends, all, ok)
    ]
