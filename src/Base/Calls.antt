-- ===== src/Base/Calls.antt =====
-- Calls of the world that return a value, fail or panic, over a state that they change.
use mathlib.Core.Path.{◌≡◌, refl}
use mathlib.Core.Logic.{◌⊎◌, inl, inr}
use mathlib.Core.Option.{Option, none, some}
use native.Mathlib.Omega.{arith}
use swale.Base.Results.{Result}

-- the result of a call: a value, a failure or a panic
pub data Done {ℓ} (E : Type 0) (A : Type ℓ) : Type ℓ where
  ok : A → Done E A
  err : E → Done E A
  panicked : Done E A

-- a call on a state of the world, which stays changed when the call fails
abbrev pub Call : Type 0 → Type 0 → Type 0 → Type 0
Call E S A = S → Done E A × S

abbrev pub continue : {E S A B : Type 0} → (A → Call E S B) → Done E A × S → Done E B × S
continue f (ok a, s) = f a s
continue f (err e, s) = (err e, s)
continue f (panicked, s) = (panicked, s)

-- A chain that returns a value ran its first step to a value.
pub continue-eq_ok :
    {E S A B : Type 0} (f : A → Call E S B) (r : Done E A × S) {b : B} {t : S}
    → continue f r ≡ (ok b, t)
    → (a : A) × (s : S) × (r ≡ (ok a, s)) × (f a s ≡ (ok b, t))
continue-eq_ok f (ok a, s) h = (a, s, refl, h)
continue-eq_ok f (err e, s) h = absurd (ground arith)
continue-eq_ok f (panicked, s) h = absurd (ground arith)

infixl 10 ◌>>=◌
abbrev pub ◌>>=◌ : {E S A B : Type 0} → Call E S A → (A → Call E S B) → Call E S B
m >>= f = λ s. continue f (m s)

abbrev pub return : {E S A : Type 0} → A → Call E S A
return a = λ s. (ok a, s)

abbrev pub fail : {E S A : Type 0} → E → Call E S A
fail e = λ s. (err e, s)

-- `ok_or_else`, and `expect`
abbrev pub or_fail : {E S A : Type 0} → E → Option A → Call E S A
or_fail e none = fail e
or_fail e (some a) = return a

abbrev pub or_panic : {E S A : Type 0} → Option A → Call E S A
or_panic none = λ s. (panicked, s)
or_panic (some a) = return a

abbrev pub failed_as : {E F S A : Type 0} → (E → F) → Done E A × S → Done F A × S
failed_as f (ok a, t) = (ok a, t)
failed_as f (err e, t) = (err (f e), t)
failed_as f (panicked, t) = (panicked, t)

-- `map_err`
abbrev pub map_err : {E F S A : Type 0} → (E → F) → Call E S A → Call F S A
map_err f m = λ s. failed_as f (m s)

abbrev pub dropped : {E F S A : Type 0} → Done E A × S → Done {0} F Unit × S
dropped (ok _, t) = (ok tt, t)
dropped (err _, t) = (ok tt, t)
dropped (panicked, t) = (panicked, t)

-- `let _ =`, which drops a value or a failure
abbrev pub ignored : {E F S A : Type 0} → Call E S A → Call F S Unit
ignored m = λ s. dropped (m s)

-- A chain that fails fails at its first step, or in the rest after it.
pub continue-eq_err :
    {E S A B : Type 0} (f : A → Call E S B) (r : Done E A × S) {e : E} {t : S}
    → continue f r ≡ (err e, t)
    → (r ≡ (err e, t)) ⊎ ((a : A) × (s : S) × (r ≡ (ok a, s)) × (f a s ≡ (err e, t)))
continue-eq_err f (ok a, s) h = inr (a, s, refl, h)
continue-eq_err f (err d, s) h = inl (ground arith)
continue-eq_err f (panicked, s) h = absurd (ground arith)

pub failed_as-eq_err :
    {E F S A : Type 0} (f : E → F) (r : Done E A × S) {e : F} {t : S}
    → failed_as f r ≡ (err e, t)
    → (d : E) × (e ≡ f d)
failed_as-eq_err f (ok a, s) h = absurd (ground arith)
failed_as-eq_err f (err d, s) h = (d, ground arith)
failed_as-eq_err f (panicked, s) h = absurd (ground arith)

pub failed_as-eq_ok :
    {E F S A : Type 0} (f : E → F) (r : Done E A × S) {a : A} {t : S}
    → failed_as f r ≡ (ok a, t)
    → r ≡ (ok a, t)
failed_as-eq_ok f (ok a, s) h = ground arith
failed_as-eq_ok f (err d, s) h = absurd (ground arith)
failed_as-eq_ok f (panicked, s) h = absurd (ground arith)

-- What drops its result does not fail.
pub dropped-eq_err :
    {E F S A : Type 0} (r : Done E A × S) {e : F} {t : S} → dropped r ≡ (err e, t) → ⊥
dropped-eq_err (ok a, s) h = ground arith
dropped-eq_err (err d, s) h = ground arith
dropped-eq_err (panicked, s) h = ground arith

abbrev pub as_result : {E F S A : Type 0} → Done E A × S → Done F (Result E A) × S
as_result (ok a, t) = (ok (Result.ok a), t)
as_result (err e, t) = (ok (Result.err e), t)
as_result (panicked, t) = (panicked, t)

-- a call whose failure is matched on
abbrev pub caught : {E F S A : Type 0} → Call E S A → Call F S (Result E A)
caught m = λ s. as_result (m s)

pub as_result-eq_ok :
    {E F S A : Type 0} (r : Done E A × S) {a : A} {t : S}
    → as_result {F = F} r ≡ (ok (Result.ok a), t)
    → r ≡ (ok a, t)
as_result-eq_ok (ok a, s) h = ground arith
as_result-eq_ok (err e, s) h = absurd (ground arith)
as_result-eq_ok (panicked, s) h = absurd (ground arith)

pub ok-injective :
    {E S A : Type 0} (a b : A) (s t : S) → ◌≡◌ {A = Done E A × S} (ok a, s) (ok b, t) → a ≡ b
ok-injective a b s t h = ground arith

-- a result as the end of a call that leaves the world as it is
abbrev pub lift : {E S A : Type 0} → Result E A → Call E S A
lift (Result.ok a) = λ s. (ok a, s)
lift (Result.err e) = λ s. (err e, s)

pub lift-eq_ok :
    {E S A : Type 0} (r : Result E A) {a : A} {s t : S}
    → lift r s ≡ (ok a, t)
    → (r ≡ Result.ok a) × (s ≡ t)
lift-eq_ok (Result.ok b) h = (ground arith, ground arith)
lift-eq_ok (Result.err e) h = absurd (ground arith)

pub lift-eq_err :
    {E S A : Type 0} (r : Result E A) {e : E} {s t : S}
    → lift r s ≡ (err e, t)
    → (r ≡ Result.err e) × (s ≡ t)
lift-eq_err (Result.ok b) h = absurd (ground arith)
lift-eq_err (Result.err e) h = (ground arith, ground arith)
