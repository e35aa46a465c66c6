-- ===== src/Base/Tests.antt =====
-- Boolean tests on numbers, and the split on a computed test.
use Prim.Native.Nat.{ℕ, compare, Ordering}
use mathlib.Core.Path.{◌≡◌, refl}
use mathlib.Core.Logic.{◌⊎◌, inl, inr}
use mathlib.Core.Option
use mathlib.Core.Option.{Option, none, some}
use mathlib.Core.Bool.{Bool, true, false}

abbrev pub ltb : ℕ → ℕ → Bool
ltb a b = elim (compare a b) [ Ordering.lt ↦ true | _ ↦ false ]

abbrev pub leb : ℕ → ℕ → Bool
leb a b = elim (compare a b) [ Ordering.gt ↦ false | _ ↦ true ]

infix 50 ◌==◌
abbrev pub ◌==◌ : ℕ → ℕ → Bool
a == b = elim (compare a b) [ Ordering.eq ↦ true | _ ↦ false ]

infix 1 if◌then◌else◌
abbrev pub if◌then◌else◌ {ℓ} : {A : Type ℓ} → Bool → A → A → A
if true then x else y = x
if false then x else y = y

pub Bool-cases : (b : Bool) → (b ≡ true) ⊎ (b ≡ false)
Bool-cases true = inl refl
Bool-cases false = inr refl

pub Option-cases {ℓ} : {A : Type ℓ} (o : Option A) → (o ≡ none) ⊎ ((a : A) × (o ≡ some a))
Option-cases none = inl refl
Option-cases (some a) = inr (a, refl)

pub bind-eq_some :
    {A B : Type 0} (o : Option A) (f : A → Option B) {b : B}
    → Option.bind o f ≡ some b
    → (a : A) × (o ≡ some a) × (f a ≡ some b)
unfolding Option.bind
bind-eq_some none f h = cc
bind-eq_some (some a) f h = (a, refl, h)

pub bind-some :
    {A B : Type 0} {o : Option A} (f : A → Option B) {a : A} {b : B}
    → o ≡ some a
    → f a ≡ some b
    → Option.bind o f ≡ some b
unfolding Option.bind
bind-some f e h = rw e h

pub guard-eq_some :
    {A : Type 0} (b : Bool) (a : A) {x : A}
    → (if b then some a else none) ≡ some x
    → (b ≡ true) × (a ≡ x)
guard-eq_some true a h = (refl, cc)
guard-eq_some false a h = cc
