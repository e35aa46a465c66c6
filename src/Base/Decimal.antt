-- ===== src/Base/Decimal.antt =====
-- Decimal text: `ToString` and `FromStr` of the unsigned integers, and the padded forms of `format!`.
use Prim.Native.Nat.{ℕ, zero, suc, ◌+◌, ◌-◌, ◌*◌, ◌/◌, ◌%◌, ◌≤◌, ◌<◌}
use mathlib.Core.Path.{◌≡◌, refl, sym, ◌∙◌, ap}
use mathlib.Core.Logic.{◌≢◌, inl, inr}
use mathlib.Core.Bool.{Bool, true, false, ◌&&◌}
use mathlib.Core.Option.{Option, none, some}
use mathlib.Core.List.{[], ◌∷◌}
use native.Mathlib.Omega.{arith}
use swale.Base.Tests.{ltb, leb, ◌==◌, if◌then◌else◌, Bool-cases}
use swale.Base.Lists.{all, length}
use swale.Base.Texts.{Text, is_ascii_digit}

-- the digits of `n`, before `acc`; `fuel` is at least `n`
show_from : ℕ → ℕ → Text → Text
show_from zero n acc = (48 + n % 10) ∷ acc
show_from (suc fuel) n acc =
    let rest = show_from fuel (n / 10) ((48 + n % 10) ∷ acc) in
    if ltb n 10 then (48 + n) ∷ acc else rest

unfoldable pub show : ℕ → Text
unfolding show_from
show n = show_from n n []

-- the number that digits stand for
unfoldable pub read_from : ℕ → Text → ℕ
read_from n [] = n
read_from n (d ∷ ds) = read_from (n * 10 + (d - 48)) ds

all_digits : Text → Bool
all_digits t = all is_ascii_digit t

non_empty : Text → Bool
non_empty [] = false
non_empty (_ ∷ _) = true

parse_digits : ℕ → Text → Option ℕ
unfolding all_digits non_empty read_from
parse_digits max t =
    if non_empty t && all_digits t && leb (read_from 0 t) max then some (read_from 0 t) else none

-- `text.parse::<uN>()` for the largest value `max`: digits after at most one sign `+`
unfoldable pub parse_uint : ℕ → Text → Option ℕ
unfolding parse_digits
parse_uint max [] = none
parse_uint max (b ∷ t) = if b == b'+' then parse_digits max t else parse_digits max (b ∷ t)

abbrev pub zeros : ℕ → Text → Text
zeros zero t = t
zeros (suc n) t = b'0' ∷ zeros n t

-- `{:0w}`
unfoldable pub pad : ℕ → ℕ → Text
pad w n = let t = show n in zeros (w - length t) t

read_from-show_from :
    (fuel n : ℕ) (acc : Text) → n ≤ fuel → read_from 0 (show_from fuel n acc) ≡ read_from n acc
unfolding read_from show_from
read_from-show_from zero n acc le = ground arith
read_from-show_from (suc fuel) n acc le = elim (Bool-cases (ltb n 10)) [
  | inl small ↦ rw small (ground arith)
  | inr big ↦
      let ih = read_from-show_from fuel (n / 10) ((48 + n % 10) ∷ acc) (ground arith) in
      let e : n / 10 * 10 + (48 + n % 10 - 48) ≡ n = omega arith in
      rw big (ih ∙ ap (λ (k : ℕ). read_from k acc) e)
]

-- Reading a printed number gives the number.
pub read_from-show : (n : ℕ) → read_from 0 (show n) ≡ n
unfolding show read_from
read_from-show n = read_from-show_from n n [] (omega arith)

pub show-injective : (m n : ℕ) → show m ≡ show n → m ≡ n
show-injective m n e = sym (read_from-show m) ∙ (ap (read_from 0) e ∙ read_from-show n)

all_digits-show_from :
    (fuel n : ℕ) (acc : Text)
    → n ≤ fuel
    → all_digits acc ≡ true
    → all_digits (show_from fuel n acc) ≡ true
unfolding all_digits show_from
all_digits-show_from zero n acc le h = ground arith
all_digits-show_from (suc fuel) n acc le h = elim (Bool-cases (ltb n 10)) [
  | inl small ↦ rw small (ground arith)
  | inr big ↦
      rw big
        (all_digits-show_from fuel (n / 10) ((48 + n % 10) ∷ acc) (ground arith) (ground arith))
]

pub all_digits-show : (n : ℕ) → all is_ascii_digit (show n) ≡ true
unfolding show all_digits
all_digits-show n = all_digits-show_from n n [] (omega arith) refl

non_empty-show_from : (fuel n : ℕ) (acc : Text) → non_empty (show_from fuel n acc) ≡ true
unfolding non_empty show_from
non_empty-show_from zero n acc = refl
non_empty-show_from (suc fuel) n acc = elim (Bool-cases (ltb n 10)) [
  | inl small ↦ rw small
  | inr big ↦ rw big (non_empty-show_from fuel (n / 10) ((48 + n % 10) ∷ acc))
]

pub non_empty-show : (n : ℕ) → show n ≢ []
unfolding show non_empty
non_empty-show n e = let h = non_empty-show_from n n [] in cc (ap non_empty e, h)

parse_uint-digits :
    (max n : ℕ) (t : Text)
    → t ≢ []
    → all is_ascii_digit t ≡ true
    → read_from 0 t ≡ n
    → n ≤ max
    → parse_uint max t ≡ some n
unfolding parse_uint
parse_uint-digits max n [] ne h e le = absurd (ne refl)
parse_uint-digits max n (d ∷ ds) ne h e le = ground arith

-- `to_string` and `parse` are inverse on the numbers of the type.
pub parse_uint-show : (max n : ℕ) → n ≤ max → parse_uint max (show n) ≡ some n
parse_uint-show max n le =
    parse_uint-digits max n (show n) (non_empty-show n) (all_digits-show n) (read_from-show n) le

-- Digits alone are read as their number.
pub parse_uint-eq_some :
    (max n : ℕ) (t : Text)
    → all is_ascii_digit t ≡ true
    → parse_uint max t ≡ some n
    → n ≡ read_from 0 t
unfolding parse_uint
parse_uint-eq_some max n [] h e = cc
parse_uint-eq_some max n (d ∷ ds) h e = ground arith

parse_digits-le : (max n : ℕ) (t : Text) → parse_digits max t ≡ some n → n ≤ max
unfolding parse_digits
parse_digits-le max n t h = ground arith

-- What `parse` accepts fits the type.
pub parse_uint-le : (max n : ℕ) (t : Text) → parse_uint max t ≡ some n → n ≤ max
unfolding parse_uint
parse_uint-le max n [] h = cc
parse_uint-le max n (b ∷ t) h = elim (Bool-cases (b == b'+')) [
  | inl e ↦ parse_digits-le max n t (rw e at h)
  | inr e ↦ parse_digits-le max n (b ∷ t) (rw e at h)
]

pub read_from-zeros : (k : ℕ) (t : Text) → read_from 0 (zeros k t) ≡ read_from 0 t
unfolding read_from
read_from-zeros zero t = refl
read_from-zeros (suc k) t = read_from-zeros k t

-- Reading a padded number gives the number.
pub read_from-pad : (w n : ℕ) → read_from 0 (pad w n) ≡ n
unfolding pad
read_from-pad w n = read_from-zeros (w - length (show n)) (show n) ∙ read_from-show n

module _ (test : ℕ → Bool) where
  -- the test holds of every number under the bound
  holds_under : ℕ → Bool
  holds_under zero = true
  holds_under (suc bound) = holds_under bound && test bound

  holds_at : (bound : ℕ) → holds_under bound ≡ true → (i : ℕ) → i < bound → test i ≡ true
  unfolding holds_under
  holds_at zero all_hold i lt = absurd (omega arith)
  holds_at (suc bound) all_hold i lt = ground (arith, holds_at bound (ground arith) i)

abbrev fills : ℕ → ℕ → Bool
fills w n = length (pad w n) == w && all is_ascii_digit (pad w n)

pad_two_table : holds_under (fills 2) 100 ≡ true
unfolding holds_under pad show
pad_two_table = refl

pad_four_table : holds_under (fills 4) 10000 ≡ true
unfolding holds_under pad show
pad_four_table = refl

-- Two digits for a number below 100, and four for one below 10000.
pub pad_two : (n : ℕ) → n < 100 → (length (pad 2 n) ≡ 2) × (all is_ascii_digit (pad 2 n) ≡ true)
pad_two n h = let e = holds_at (fills 2) 100 pad_two_table n h in ground arith

pub pad_four : (n : ℕ) → n < 10000 → (length (pad 4 n) ≡ 4) × (all is_ascii_digit (pad 4 n) ≡ true)
pad_four n h = let e = holds_at (fills 4) 10000 pad_four_table n h in ground arith

-- the number with `k` zeros after a one
abbrev pub power_of_ten : ℕ → ℕ
power_of_ten zero = 1
power_of_ten (suc k) = 10 * power_of_ten k

length-show_from :
    (fuel k n : ℕ) (acc : Text)
    → n < power_of_ten (suc k)
    → length (show_from fuel n acc) ≤ suc k + length acc
unfolding show_from
length-show_from zero k n acc lt = omega arith
length-show_from (suc fuel) zero n acc lt = ground arith
length-show_from (suc fuel) (suc k) n acc lt =
    let ih = length-show_from fuel k (n / 10) ((48 + n % 10) ∷ acc) (omega arith) in
    elim (Bool-cases (ltb n 10)) [
      | inl small ↦ rw small (omega arith)
      | inr big ↦ rw big (omega (arith, ih))
    ]

-- A number below a power of ten has at most that many digits.
pub length-show : (k n : ℕ) → n < power_of_ten (suc k) → length (show n) ≤ suc k
unfolding show
length-show k n lt = let le = length-show_from n k n [] lt in omega arith
