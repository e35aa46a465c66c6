-- ===== src/Graph/Cycle/Report.antt =====
-- The report of a cycle by `find_cycle` (swale/src/graph.rs): the index of a node that is on the path.
use mathlib.Core.List.Memᴰ
use swale.Base.{
  arith, ◌≡◌, refl, ℕ, ◌<◌, ◌==◌, ◌⊎◌, inl, inr, some, List, [], ◌∷◌, ◌++◌, Memᴰ, Text, length, Map,
  Bool-cases,
}
use swale.Graph.{NodeSpec}
use swale.Graph.Cycle.{found, name_at, names_at, from_position, cycle_path, report}
use swale.Graph.Cycle.Marks.{get_elem?-lt}

from_position-mem :
    (j : ℕ) (path : List ℕ)
    → Memᴰ j path
    → (start : List ℕ) × (from_position j path ≡ some start)
      × ((k : ℕ) → Memᴰ k start → Memᴰ k path)
unfolding from_position
from_position-mem j [] m = absurd (Memᴰ.not-nil m)
from_position-mem j (p ∷ path) m = elim (Bool-cases (p == j)) [
  | inl same ↦ (p ∷ path, rw same refl, λ k h. h)
  | inr other ↦ elim (Memᴰ.cases_cons m) [
    | inl e ↦ absurd (ground arith)
    | inr m' ↦
        let (start, e, within) = from_position-mem j path m' in
        (start, rw other e, λ k h. Memᴰ.tail (within k h))
  ]
]

-- A path that grows at its end.
pub mem-append_last :
    (i : ℕ) (path : List ℕ) (k : ℕ) → Memᴰ k path ⊎ (k ≡ i) → Memᴰ k (path ++ (i ∷ []))
mem-append_last i [] k (inl m) = absurd (Memᴰ.not-nil m)
mem-append_last i [] k (inr e) = Memᴰ.head e
mem-append_last i (p ∷ path) k (inr e) = Memᴰ.tail (mem-append_last i path k (inr e))
mem-append_last i (p ∷ path) k (inl m) = elim (Memᴰ.cases_cons m) [
  | inl e ↦ Memᴰ.head e
  | inr m' ↦ Memᴰ.tail (mem-append_last i path k (inl m'))
]

pub last_mem : (i : ℕ) (path : List ℕ) (k : ℕ) → Memᴰ k (path ++ (i ∷ [])) → Memᴰ k path ⊎ (k ≡ i)
last_mem i [] k m = elim (Memᴰ.cases_cons m) [
  | inl e ↦ inr e
  | inr none_ ↦ absurd (Memᴰ.not-nil none_)
]
last_mem i (p ∷ path) k m = elim (Memᴰ.cases_cons m) [
  | inl e ↦ inl (Memᴰ.head e)
  | inr m' ↦ elim (last_mem i path k m') [ inl before ↦ inl (Memᴰ.tail before) | inr e ↦ inr e ]
]

module _ (nodes : List NodeSpec) where
  name_at-lt : (p : ℕ) → p < length nodes → (t : Text) × (name_at nodes p ≡ some t)
  name_at-lt p h = let (n, e) = get_elem?-lt nodes p h in (n.name, rw (name_at, e) refl)

  names_at-lt :
      (path : List ℕ)
      → ((k : ℕ) → Memᴰ k path → k < length nodes)
      → (names : List Text) × (names_at nodes path ≡ some names)
  names_at-lt [] h = ([], refl)
  names_at-lt (p ∷ path) h =
      let (n, e) = name_at-lt p (h p (Memᴰ.head refl)) in
      let (names, f) = names_at-lt path (λ k m. h k (Memᴰ.tail m)) in
      (n ∷ names, rw (names_at, e, f) refl)

  -- A node on a path of nodes is reported with names.
  pub report-eq_found :
      (upstreams : List (List Text)) (index : Map ℕ) (j : ℕ) (path : List ℕ)
      → Memᴰ j path
      → ((k : ℕ) → Memᴰ k path → k < length nodes)
      → (cycle : List Text) × (report nodes upstreams index path j ≡ found cycle)
  unfolding report cycle_path
  report-eq_found upstreams index j path m within =
      let (start, e, on_path) = from_position-mem j path m in
      let (names, f) = names_at-lt start (λ k h. within k (on_path k h)) in
      let (last, l) = name_at-lt j (within j m) in
      (names ++ (last ∷ []), rw (report, cycle_path, e, f, l) refl)
