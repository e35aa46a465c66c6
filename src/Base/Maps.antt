-- ===== src/Base/Maps.antt =====
-- `BTreeMap<String, V>` as an association list in key order, and `BTreeSet<String>` as a list.
use mathlib.Core.List.Memᴰ
use mathlib.Core.Path.{◌≡◌, refl, subst}
use mathlib.Core.Bool.{Bool, true, false, ◌||◌}
use mathlib.Core.Option.{Option, none, some}
use mathlib.Core.List.{List, [], ◌∷◌, Memᴰ}
use mathlib.Core.Logic.{◌⊎◌, inl, inr, ⊎_elim}
use native.Mathlib.Omega.{arith}
use swale.Base.Tests.{if◌then◌else◌, Bool-cases}
use swale.Base.Texts.{Text, text_eq, text_lt, text_eq_iff, text_eq_refl}

abbrev pub Map {ℓ} : Type ℓ → Type ℓ
Map V = List (Text × V)

module _ {ℓ} {V : Type ℓ} where
  unfoldable pub get : Text → Map V → Option V
  get k [] = none
  get k ((j, v) ∷ m) = if text_eq j k then some v else get k m

  unfoldable pub insert : Text → V → Map V → Map V
  insert k v [] = (k, v) ∷ []
  insert k v ((j, w) ∷ m) =
      if text_eq j k
      then (k, v) ∷ m
      else if text_lt k j
      then (k, v) ∷ (j, w) ∷ m
      else (j, w) ∷ insert k v m

  abbrev pub has : Text → Map V → Bool
  has k m = elim (get k m) [ none ↦ false | some _ ↦ true ]

  pub get-insert :
      (k j : Text) (v : V) (m : Map V)
      → get j (insert k v m) ≡ (if text_eq k j then some v else get j m)
  unfolding get insert
  get-insert k j v [] = refl
  get-insert k j v ((i, w) ∷ m) =
      ground (arith, text_eq_iff k j, text_eq_iff i k, text_eq_iff i j, get-insert k j v m)

  -- `BTreeMap::remove`, the map that it leaves
  unfoldable pub remove : Text → Map V → Map V
  remove k [] = []
  remove k ((j, v) ∷ m) = let rest = remove k m in if text_eq j k then m else (j, v) ∷ rest

  -- `BTreeMap` filtered by a test on the key and the value
  unfoldable pub retain : (Text → V → Bool) → Map V → Map V
  retain p [] = []
  retain p ((k, v) ∷ m) = let rest = retain p m in if p k v then (k, v) ∷ rest else rest

-- `BTreeSet::insert`, `contains` and `extend`
unfoldable pub set_insert : Text → List Text → List Text
set_insert k [] = k ∷ []
set_insert k (j ∷ s) =
    if text_eq j k then j ∷ s else if text_lt k j then k ∷ j ∷ s else j ∷ set_insert k s

unfoldable pub contains : Text → List Text → Bool
contains k [] = false
contains k (j ∷ s) = text_eq j k || contains k s

pub contains-set_insert :
    (k j : Text) (s : List Text) → contains j (set_insert k s) ≡ (text_eq k j || contains j s)
unfolding contains set_insert
contains-set_insert k j [] = refl
contains-set_insert k j (i ∷ s) =
    ground (arith, text_eq_iff k j, text_eq_iff i k, text_eq_iff i j, contains-set_insert k j s)

pub mem-insert {ℓ} :
    {V : Type ℓ} (k : Text) (v : V) (m : Map V) (e : Text × V)
    → Memᴰ e (insert k v m)
    → (e ≡ (k, v)) ⊎ Memᴰ e m
unfolding insert
mem-insert k v [] e h = Memᴰ.cases_cons h
mem-insert k v ((j, w) ∷ m) e h = elim (Bool-cases (text_eq j k)) [
  | inl p ↦ ⊎_elim inl (λ q. inr (Memᴰ.tail q)) (Memᴰ.cases_cons (rw p at h))
  | inr p ↦ elim (Bool-cases (text_lt k j)) [
    | inl q ↦ Memᴰ.cases_cons (rw (p, q) at h)
    | inr q ↦
        ⊎_elim (λ a. inr (Memᴰ.head a))
          (λ a. ⊎_elim inl (λ b. inr (Memᴰ.tail b)) (mem-insert k v m e a))
          (Memᴰ.cases_cons (rw (p, q) at h))
  ]
]

-- The keys of a `BTreeMap` are distinct.
abbrev pub IsKeyed {ℓ} : {V : Type ℓ} → Map V → Type ℓ
IsKeyed [] = Unit
IsKeyed ((k, _) ∷ m) = (get k m ≡ none) × IsKeyed m

module _ {ℓ} {V : Type ℓ} (p : Text → V → Bool) where
  pub get-retain-none : (k : Text) (m : Map V) → get k m ≡ none → get k (retain p m) ≡ none
  unfolding get retain
  get-retain-none k [] h = refl
  get-retain-none k ((j, v) ∷ m) h = let rest = get-retain-none k m (ground arith) in ground arith

  -- Where the keys are distinct, `retain` decides on each entry alone.
  pub get-retain :
      (k : Text) (v : V) (m : Map V)
      → IsKeyed m
      → get k m ≡ some v
      → get k (retain p m) ≡ (if p k v then some v else none)
  unfolding get retain
  get-retain k v [] keyed h = cc
  get-retain k v ((j, w) ∷ m) keyed h = elim (Bool-cases (text_eq j k)) [
    | inr other ↦ let rest = get-retain k v m keyed.1 (rw other at h) in ground arith
    | inl same ↦
        let eq = (text_eq_iff j k).0 same in
        let val : w ≡ v = ground arith in
        let none_ = get-retain-none k m (subst (λ i. get i m ≡ none) eq keyed.0) in
        rw (retain, val, eq)
          (elim (Bool-cases (p k v)) [
            | inl t ↦ rw t (rw (text_eq_refl k) refl)
            | inr f ↦ rw f none_
          ])
  ]
