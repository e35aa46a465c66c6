-- ===== src/Duration/Parse.antt =====
-- The texts that swale/src/duration.rs takes for durations, and what they stand for.
use mathlib.Core.List.Memᴰ
use swale.Base.{
  ℕ, zero, suc, ◌*◌, ◌≤◌, ◌≡◌, ◌≢◌, refl, sym, ap, ◌∙◌, Bool, true, false, ◌&&◌, inl, inr, some,
  List, [], ◌∷◌, ◌++◌, Memᴰ, Text, all, arith, if◌then◌else◌, Bool-cases, Option-cases, codes,
  text_eq, text_eq_iff, parse_uint, parse_uint-show, parse_uint-eq_some, show, all_digits-show,
  non_empty-show, read_from, is_ascii_alphabetic, is_ascii_digit,
}
use swale.Graph.{is_empty}
use swale.Duration.{u64_max, split_unit, unit_seconds, checked_mul, parse_parts, parse}

and_false : (b : Bool) → (b && false) ≡ false
and_false true = refl
and_false false = refl

-- `is_empty` of the digits decides how a letter is split.
step_cases :
    (d u : Text) (b : ℕ)
    → let r : Text × Text =
        if is_empty d && is_ascii_alphabetic b then ([], b ∷ u) else (b ∷ d, u) in
      r.0 ++ r.1 ≡ b ∷ (d ++ u)
step_cases [] u b = elim (Bool-cases (is_ascii_alphabetic b)) [ inl e ↦ rw e | inr e ↦ rw e ]
step_cases (c ∷ d) u b = refl

split_unit-append : (t : Text) → (split_unit t).0 ++ (split_unit t).1 ≡ t
unfolding split_unit
split_unit-append [] = refl
split_unit-append (b ∷ t) =
    step_cases (split_unit t).0 (split_unit t).1 b ∙ ap (λ (z : Text). b ∷ z) (split_unit-append t)

split_unit-letters : (u : Text) → all is_ascii_alphabetic u ≡ true → split_unit u ≡ ([], u)
unfolding split_unit
split_unit-letters [] h = refl
split_unit-letters (b ∷ u) h =
    let e : is_ascii_alphabetic b ≡ true = ground arith in
    rw (split_unit-letters u (ground arith), e)

split_unit-digits :
    (ds u : Text)
    → all is_ascii_digit ds ≡ true
    → all is_ascii_alphabetic u ≡ true
    → split_unit (ds ++ u) ≡ (ds, u)
unfolding split_unit
split_unit-digits [] u h k = split_unit-letters u k
split_unit-digits (d ∷ ds) u h k =
    let e : is_ascii_alphabetic d ≡ false = ground arith in
    rw (split_unit-digits ds u (ground arith) k, e, and_false)

unit_letters :
    (u : Text) (k : ℕ) → unit_seconds u ≡ some k → (all is_ascii_alphabetic u ≡ true) × (1 ≤ k)
unfolding unit_seconds
unit_letters u k h = elim (Bool-cases (text_eq u (codes "s"))) [
  | inl e ↦ rw ((text_eq_iff u (codes "s")).0 e) (refl, ground arith)
  | inr s ↦ elim (Bool-cases (text_eq u (codes "m"))) [
    | inl e ↦ rw ((text_eq_iff u (codes "m")).0 e) (refl, ground arith)
    | inr m ↦ elim (Bool-cases (text_eq u (codes "h"))) [
      | inl e ↦ rw ((text_eq_iff u (codes "h")).0 e) (refl, ground arith)
      | inr o ↦ elim (Bool-cases (text_eq u (codes "d"))) [
        | inl e ↦ rw ((text_eq_iff u (codes "d")).0 e) (refl, ground arith)
        | inr d ↦ absurd (ground arith)
      ]
    ]
  ]
]

is_empty-show : (n : ℕ) → is_empty (show n) ≡ false
is_empty-show n = go (show n) (non_empty-show n)
  where
    go : (t : Text) → t ≢ [] → is_empty t ≡ false
    go [] h = absurd (h refl)
    go (d ∷ ds) h = refl

parse_parts-show :
    (n k : ℕ) (u : Text)
    → unit_seconds u ≡ some k
    → n * k ≤ u64_max
    → n ≤ u64_max
    → parse_parts (show n) u ≡ some (n * k)
unfolding parse_parts checked_mul
parse_parts-show n k u h le fits =
    rw (is_empty-show n, all_digits-show n, parse_uint-show u64_max n fits, h) (ground arith)

fits_of_product : (n k : ℕ) → 1 ≤ k → n * k ≤ u64_max → n ≤ u64_max
fits_of_product n zero h le = absurd (omega arith)
fits_of_product n (suc k) h le = omega arith

-- the units of a duration, each with its seconds
abbrev pub units : List (Text × ℕ)
units =
    (codes "s", 1) ∷ ((codes "m", 60) ∷ ((codes "h", 60 * 60) ∷ ((codes "d", 24 * 60 * 60) ∷ [])))

unit_seconds-mem : (u : Text) (k : ℕ) → Memᴰ (u, k) units → unit_seconds u ≡ some k
unfolding unit_seconds text_eq
unit_seconds-mem u k m = elim (Memᴰ.cases_cons m) [
  | inl s ↦ cc s
  | inr m1 ↦ elim (Memᴰ.cases_cons m1) [
    | inl s ↦ cc s
    | inr m2 ↦ elim (Memᴰ.cases_cons m2) [
      | inl s ↦ cc s
      | inr m3 ↦ elim (Memᴰ.cases_cons m3) [
        | inl s ↦ cc s
        | inr none_ ↦ absurd (Memᴰ.not-nil none_)
      ]
    ]
  ]
]

parse_unit :
    (n k : ℕ) (u : Text)
    → unit_seconds u ≡ some k
    → n * k ≤ u64_max
    → parse (show n ++ u) ≡ some (n * k)
unfolding parse
parse_unit n k u h le =
    let (letters, pos) = unit_letters u k h in
    ap (λ (p : Text × Text). parse_parts p.0 p.1)
      (split_unit-digits (show n) u (all_digits-show n) letters)
    ∙ parse_parts-show n k u h le (fits_of_product n k pos le)

-- A printed count with the unit `s`, `m`, `h` or `d` is a duration of that many times 1, 60, 3600
-- or 86400 seconds, if the product fits `u64`.
pub parse-show :
    (n k : ℕ) (u : Text) → Memᴰ (u, k) units → n * k ≤ u64_max → parse (show n ++ u) ≡ some (n * k)
parse-show n k u m le = parse_unit n k u (unit_seconds-mem u k m) le

non_empty_of : (t : Text) → is_empty t ≡ false → t ≢ []
non_empty_of [] h = cc
non_empty_of (b ∷ t) h = λ e. cc

parts_sound :
    (d u : Text) (s : ℕ)
    → parse_parts d u ≡ some s
    → (k : ℕ) × (d ≢ [])
      × (all is_ascii_digit d ≡ true)
      × (unit_seconds u ≡ some k)
      × (s ≡ read_from 0 d * k)
      × (s ≤ u64_max)
unfolding parse_parts checked_mul
parts_sound d u s h = elim (Option-cases (parse_uint u64_max d)) [
  | inl p ↦ absurd (ground arith)
  | inr (n, p) ↦ elim (Option-cases (unit_seconds u)) [
    | inl q ↦ absurd (ground arith)
    | inr (k, q) ↦
        let digits : all is_ascii_digit d ≡ true = ground arith in
        let full : is_empty d ≡ false = ground arith in
        let e = parse_uint-eq_some u64_max n d digits p in
        (k, non_empty_of d full, digits, q, rw (← e) (ground arith), ground arith)
  ]
]

-- A text that parses is a non-empty run of digits and one of the units, the result is their
-- product, and that fits `u64`.
pub parse_sound :
    (t : Text) (s : ℕ)
    → parse t ≡ some s
    → (d : Text) × (u : Text) × (k : ℕ) × (t ≡ d ++ u)
      × (d ≢ [])
      × (all is_ascii_digit d ≡ true)
      × (unit_seconds u ≡ some k)
      × (s ≡ read_from 0 d * k)
      × (s ≤ u64_max)
unfolding parse
parse_sound t s h =
    let (d, u) = split_unit t in
    let (k, a, b, c, e, f) = parts_sound d u s h in
    (d, u, k, sym (split_unit-append t), a, b, c, e, f)
