-- ===== src/Base/Lists.antt =====
-- Lists under native lengths, and Boolean quantifiers that run in a test.
use Prim.Native.Nat.{ℕ, zero, suc, ◌+◌}
use mathlib.Core.Path.{◌≡◌, refl, sym, ap}
use mathlib.Core.Logic.{inl, inr, ◌↔◌, ⊎_elim}
use mathlib.Core.Bool.{Bool, true, false, ◌&&◌, ◌||◌}
use mathlib.Core.Option.{Option, none, some}
use mathlib.Core.List.{List, [], ◌∷◌, ◌++◌, Memᴰ}
use mathlib.Core.List.Memᴰ
use native.Mathlib.Omega.{arith}
use swale.Base.Tests.{if◌then◌else◌, Bool-cases}

module _ {ℓ} {A : Type ℓ} where
  abbrev pub length : List A → ℕ
  length [] = 0
  length (_ ∷ xs) = suc (length xs)

  abbrev pub get_elem? : List A → ℕ → Option A
  get_elem? [] i = none
  get_elem? (x ∷ xs) zero = some x
  get_elem? (x ∷ xs) (suc i) = get_elem? xs i

  -- `Iterator::all` and `Iterator::any`
  abbrev pub all : (A → Bool) → List A → Bool
  all p [] = true
  all p (x ∷ xs) = p x && all p xs

  abbrev pub any : (A → Bool) → List A → Bool
  any p [] = false
  any p (x ∷ xs) = p x || any p xs

  -- `Iterator::filter` under a Boolean test, and `Iterator::find`
  abbrev pub keep : (A → Bool) → List A → List A
  keep p [] = []
  keep p (x ∷ xs) = let rest = keep p xs in if p x then x ∷ rest else rest

  abbrev pub find : (A → Bool) → List A → Option A
  find p [] = none
  find p (x ∷ xs) = let rest = find p xs in if p x then some x else rest

  pub length-append : (xs ys : List A) → length (xs ++ ys) ≡ length xs + length ys
  length-append [] ys = omega arith
  length-append (x ∷ xs) ys = omega (arith, length-append xs ys)

  pub all-mem : (p : A → Bool) (xs : List A) → all p xs ≡ true → (x : A) → Memᴰ x xs → p x ≡ true
  all-mem p [] h x m = absurd (Memᴰ.not-nil m)
  all-mem p (y ∷ xs) h x m = elim (Memᴰ.cases_cons m) [
    | inl e ↦ rw e (ground arith)
    | inr m' ↦ ground (arith, all-mem p xs (ground arith) x m')
  ]

  pub all-intro :
      (p : A → Bool) (xs : List A) → ((x : A) → Memᴰ x xs → p x ≡ true) → all p xs ≡ true
  all-intro p [] h = refl
  all-intro p (y ∷ xs) h =
      ground (arith, h y (Memᴰ.head refl), all-intro p xs (λ x m. h x (Memᴰ.tail m)))

  pub all-eq_false :
      (p : A → Bool) (xs : List A) → all p xs ≡ false → (x : A) × Memᴰ x xs × (p x ≡ false)
  all-eq_false p [] h = cc
  all-eq_false p (y ∷ xs) h = elim (Bool-cases (p y)) [
    | inr e ↦ (y, Memᴰ.head refl, e)
    | inl e ↦ let (x, m, f) = all-eq_false p xs (rw e at h) in (x, Memᴰ.tail m, f)
  ]

  pub any-mem : (p : A → Bool) (xs : List A) (x : A) → Memᴰ x xs → p x ≡ true → any p xs ≡ true
  any-mem p [] x m h = absurd (Memᴰ.not-nil m)
  any-mem p (y ∷ xs) x m h = elim (Memᴰ.cases_cons m) [
    | inl e ↦ rw (sym e, h)
    | inr m' ↦ ground (arith, any-mem p xs x m' h)
  ]

  pub any-eq_true :
      (p : A → Bool) (xs : List A) → any p xs ≡ true → (x : A) × Memᴰ x xs × (p x ≡ true)
  any-eq_true p [] h = cc
  any-eq_true p (y ∷ xs) h = elim (Bool-cases (p y)) [
    | inl e ↦ (y, Memᴰ.head refl, e)
    | inr e ↦ let (x, m, f) = any-eq_true p xs (rw e at h) in (x, Memᴰ.tail m, f)
  ]

  pub mem-keep :
      (p : A → Bool) (xs : List A) (x : A) → Memᴰ x (keep p xs) ↔ (Memᴰ x xs × (p x ≡ true))
  mem-keep p [] x = (λ m. absurd (Memᴰ.not-nil m), λ m. m.0)
  mem-keep p (y ∷ xs) x = elim (Bool-cases (p y)) [
    | inl e ↦ rw e (
      λ m.
          ⊎_elim (λ q. (Memᴰ.head q, rw q e))
            (λ m'. let (a, b) = (mem-keep p xs x).0 m' in (Memᴰ.tail a, b)) (Memᴰ.cases_cons m),
      λ m. ⊎_elim Memᴰ.head (λ m'. Memᴰ.tail ((mem-keep p xs x).1 (m', m.1))) (Memᴰ.cases_cons m.0),
    )
    | inr e ↦ rw e (
      λ m'. let (a, b) = (mem-keep p xs x).0 m' in (Memᴰ.tail a, b),
      λ m.
          ⊎_elim (λ q. cc (sym e, ap p q, m.1)) (λ m'. (mem-keep p xs x).1 (m', m.1))
            (Memᴰ.cases_cons m.0),
    )
  ]

  pub find-eq_some :
      (p : A → Bool) (xs : List A) {x : A} → find p xs ≡ some x → Memᴰ x xs × (p x ≡ true)
  find-eq_some p [] h = cc
  find-eq_some p (y ∷ xs) h = elim (Bool-cases (p y)) [
    | inl e ↦ let q : y ≡ _ = ground arith in (Memᴰ.head (sym q), rw (sym q) e)
    | inr e ↦ let (m, f) = find-eq_some p xs (rw e at h) in (Memᴰ.tail m, f)
  ]

  pub find-ne_none :
      (p : A → Bool) (xs : List A) (x : A) → Memᴰ x xs → p x ≡ true → (y : A) × (find p xs ≡ some y)
  find-ne_none p [] x m h = absurd (Memᴰ.not-nil m)
  find-ne_none p (y ∷ xs) x m h = elim (Bool-cases (p y)) [
    | inl e ↦ (y, rw e)
    | inr e ↦ elim (Memᴰ.cases_cons m) [
      | inl q ↦ cc (sym e, ap p q, h)
      | inr m' ↦ let (z, f) = find-ne_none p xs x m' h in (z, rw e f)
    ]
  ]

  pub all-append : (p : A → Bool) (xs ys : List A) → all p (xs ++ ys) ≡ (all p xs && all p ys)
  all-append p [] ys = refl
  all-append p (x ∷ xs) ys = ground (arith, all-append p xs ys)

  -- Two lists with prefixes of one length are equal part by part.
  pub append-injective :
      (xs ys us vs : List A) → length xs ≡ length us → xs ++ ys ≡ us ++ vs → (xs ≡ us) × (ys ≡ vs)
  append-injective [] ys [] vs n e = (refl, e)
  append-injective [] ys (u ∷ us) vs n e = absurd (omega arith)
  append-injective (x ∷ xs) ys [] vs n e = absurd (omega arith)
  append-injective (x ∷ xs) ys (u ∷ us) vs n e =
      let (h, t) : (x ≡ u) × (xs ++ ys ≡ us ++ vs) = ground arith in
      let (p, q) = append-injective xs ys us vs (omega arith) t in (cc (h, p), q)
