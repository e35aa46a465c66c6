-- ===== src/Readiness/Count.antt =====
-- The nodes that a map of states does not resolve yet: the measure of the loops of `node_states`.
use mathlib.Core.List.Memᴰ
use swale.Base.{
  ℕ, suc, ◌+◌, ◌≤◌, ◌<◌, ◌≡◌, ◌≢◌, refl, sym, true, false, inl, inr, none, List, [], ◌∷◌, Memᴰ,
  Text, Map, get, has, insert, get-insert, text_eq_iff, text_eq_refl, length, arith, if◌then◌else◌,
  Bool-cases, Option-cases,
}
use swale.Graph.{Node, name}
use swale.Graph.Ordered.{IsDistinct}
use swale.Records.{NodeRecord}
use swale.Readiness.{NodeState, local_state, resolve, pass}
use swale.Readiness.Extends.{Extends}

pub unresolved : {V : Type 0} → List Node → Map V → ℕ
unresolved [] s = 0
unresolved (n ∷ ns) s = (if has (name n) s then 0 else 1) + unresolved ns s

pub has-Extends : (s t : Map NodeState) (k : Text) → Extends s t → has k s ≡ true → has k t ≡ true
has-Extends s t k e h = elim (Option-cases (get k s)) [
  | inl p ↦ ground arith
  | inr (x, p) ↦ rw (e k x p, has)
]

unresolved-le :
    (ns : List Node) (s t : Map NodeState) → Extends s t → unresolved ns t ≤ unresolved ns s
unfolding unresolved
unresolved-le [] s t e = omega arith
unresolved-le (n ∷ ns) s t e = ground (arith, unresolved-le ns s t e, has-Extends s t (name n) e)

pub unresolved-lt :
    (ns : List Node) (s t : Map NodeState) (n : Node)
    → Extends s t
    → Memᴰ n ns
    → has (name n) s ≡ false
    → has (name n) t ≡ true
    → unresolved ns t < unresolved ns s
unfolding unresolved
unresolved-lt [] s t n e m p q = absurd (Memᴰ.not-nil m)
unresolved-lt (x ∷ ns) s t n e m p q = elim (Memᴰ.cases_cons m) [
  | inl same ↦ let f = unresolved-le ns s t e in rw (sym same, p, q) (omega arith)
  | inr m' ↦ ground (arith, unresolved-lt ns s t n e m' p q, has-Extends s t (name x) e)
]

unresolved-insert_ne :
    {V : Type 0} (ns : List Node) (s : Map V) (k : Text) (v : V)
    → ((m : Node) → Memᴰ m ns → name m ≢ k)
    → unresolved ns (insert k v s) ≡ unresolved ns s
unfolding unresolved
unresolved-insert_ne [] s k v h = refl
unresolved-insert_ne (n ∷ ns) s k v h = ground (
  arith,
  unresolved-insert_ne ns s k v (λ m p. h m (Memᴰ.tail p)),
  h n (Memᴰ.head refl),
  get-insert k (name n) v s,
  text_eq_iff k (name n),
)

pub unresolved-insert :
    {V : Type 0} (ns : List Node) (s : Map V) (n : Node) (v : V)
    → IsDistinct ns
    → Memᴰ n ns
    → has (name n) s ≡ false
    → suc (unresolved ns (insert (name n) v s)) ≡ unresolved ns s
unfolding unresolved
unresolved-insert [] s n v d m h = absurd (Memᴰ.not-nil m)
unresolved-insert (x ∷ ns) s n v d m h = elim (Memᴰ.cases_cons m) [
  | inl same ↦
      let e = unresolved-insert_ne ns s (name n) v (λ y p. rw same (d.0 y p)) in
      let f = get-insert (name n) (name n) v s in
      let g : has (name n) (insert (name n) v s) ≡ true =
        ground (arith, f, text_eq_refl (name n)) in
      rw (sym same, h, g, e) (omega arith)
  | inr m' ↦ ground (
    arith,
    unresolved-insert ns s n v d.1 m' h,
    d.0 n m',
    get-insert (name n) (name x) v s,
    text_eq_iff (name n) (name x),
  )
]

length-insert :
    (k : Text) (v : NodeState) (m : Map NodeState)
    → get k m ≡ none
    → length (insert k v m) ≡ suc (length m)
unfolding insert get
length-insert k v [] h = refl
length-insert k v ((j, w) ∷ m) h = ground (arith, length-insert k v m)

-- Entries and unresolved nodes together are the nodes.
abbrev pub IsSized : List Node → Map NodeState → Type 0
IsSized nodes s = length s + unresolved nodes s ≡ length nodes

unresolved-nil : (ns : List Node) → unresolved {V = NodeState} ns [] ≡ length ns
unfolding unresolved get
unresolved-nil [] = refl
unresolved-nil (n ∷ ns) = omega (arith, unresolved-nil ns)

pub IsSized-nil : (ns : List Node) → IsSized ns []
IsSized-nil ns = omega (arith, unresolved-nil ns)

module _ (records : Map NodeRecord) (nodes : List Node) (d : IsDistinct nodes) where
  resolve-IsSized :
      (s : Map NodeState) (n : Node)
      → Memᴰ n nodes
      → IsSized nodes s
      → IsSized nodes (resolve records s n)
  unfolding resolve
  resolve-IsSized s n m h = elim (Option-cases (local_state records s n)) [
    | inl p ↦ ground arith
    | inr (x, p) ↦ ground (arith, length-insert (name n) x s, unresolved-insert nodes s n x d m)
  ]

  pub pass-IsSized :
      (ns : List Node) (s : Map NodeState)
      → ((n : Node) → Memᴰ n ns → Memᴰ n nodes)
      → IsSized nodes s
      → IsSized nodes (pass records ns s)
  unfolding pass
  pass-IsSized [] s sub h = h
  pass-IsSized (n ∷ ns) s sub h =
      pass-IsSized ns (resolve records s n) (λ k m. sub k (Memᴰ.tail m))
        (resolve-IsSized s n (sub n (Memᴰ.head refl)) h)

pub some_unresolved :
    (ns : List Node) (s : Map NodeState)
    → 0 < unresolved ns s
    → (n : Node) × Memᴰ n ns × (has (name n) s ≡ false)
unfolding unresolved
some_unresolved [] s h = absurd (omega arith)
some_unresolved (n ∷ ns) s h = elim (Bool-cases (has (name n) s)) [
  | inr p ↦ (n, Memᴰ.head refl, p)
  | inl p ↦ let (k, m, q) = some_unresolved ns s (ground arith) in (k, Memᴰ.tail m, q)
]

pub all_resolved :
    (ns : List Node) (s : Map NodeState) (n : Node)
    → unresolved ns s ≡ 0
    → Memᴰ n ns
    → has (name n) s ≡ true
unfolding unresolved
all_resolved [] s n h m = absurd (Memᴰ.not-nil m)
all_resolved (x ∷ ns) s n h m = elim (Memᴰ.cases_cons m) [
  | inl same ↦ rw same (ground arith)
  | inr m' ↦ all_resolved ns s n (ground arith) m'
]

pub unresolved-le-length : {V : Type 0} (ns : List Node) (s : Map V) → unresolved ns s ≤ length ns
unfolding unresolved
unresolved-le-length [] s = omega arith
unresolved-le-length (n ∷ ns) s = ground (arith, unresolved-le-length ns s)
