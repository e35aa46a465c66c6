-- ===== src/Base/Texts.antt =====
-- Text as the list of its bytes, the comparison of Rust's `str`, and the byte classes of `u8`.
use Prim.Native.Nat.{ℕ}
use Prim.Native.Char.{code}
use Prim.Native.String.{String}
use mathlib.Core.Path.{◌≡◌, refl, sym, ap, ◌∙◌, subst}
use mathlib.Core.Logic.{◌↔◌, inl, inr}
use mathlib.Core.Bool.{Bool, true, false, ◌&&◌, ◌||◌}
use mathlib.Core.Option.{Option, none, some}
use mathlib.Core.List.{List, [], ◌∷◌, ◌++◌}
use native.Mathlib.Omega.{arith}
use swale.Base.Tests.{ltb, leb, ◌==◌, if◌then◌else◌, Bool-cases, Option-cases}
use swale.Base.Lists.{all}

abbrev pub Text : Type 0
Text = List ℕ

-- The bytes of an ASCII literal.
abbrev pub codes : String → Text
codes String.[] = []
codes (String.◌∷◌ c s) = code c ∷ codes s

unfoldable pub text_eq : Text → Text → Bool
text_eq [] [] = true
text_eq [] (_ ∷ _) = false
text_eq (_ ∷ _) [] = false
text_eq (a ∷ s) (b ∷ t) = a == b && text_eq s t

pub text_eq_iff : (s t : Text) → (text_eq s t ≡ true) ↔ (s ≡ t)
unfolding text_eq
text_eq_iff [] [] = (λ _. refl, λ _. refl)
text_eq_iff [] (b ∷ t) = ground arith
text_eq_iff (a ∷ s) [] = ground arith
text_eq_iff (a ∷ s) (b ∷ t) = ground (arith, text_eq_iff s t)

pub text_eq_refl : (s : Text) → text_eq s s ≡ true
text_eq_refl s = (text_eq_iff s s).1 refl

-- The order of `str`: lexical by byte.
unfoldable pub text_lt : Text → Text → Bool
text_lt [] [] = false
text_lt [] (_ ∷ _) = true
text_lt (_ ∷ _) [] = false
text_lt (a ∷ s) (b ∷ t) = ltb a b || a == b && text_lt s t

abbrev pub is_ascii_digit : ℕ → Bool
is_ascii_digit b = leb b'0' b && leb b b'9'

abbrev pub is_ascii_lowercase : ℕ → Bool
is_ascii_lowercase b = leb b'a' b && leb b b'z'

abbrev pub is_ascii_uppercase : ℕ → Bool
is_ascii_uppercase b = leb b'A' b && leb b b'Z'

abbrev pub is_ascii_alphabetic : ℕ → Bool
is_ascii_alphabetic b = is_ascii_lowercase b || is_ascii_uppercase b

abbrev pub is_ascii_alphanumeric : ℕ → Bool
is_ascii_alphanumeric b = is_ascii_alphabetic b || is_ascii_digit b

-- `str::strip_prefix`
unfoldable pub strip_prefix : Text → Text → Option Text
strip_prefix [] t = some t
strip_prefix (a ∷ p) [] = none
strip_prefix (a ∷ p) (b ∷ t) = let rest = strip_prefix p t in if a == b then rest else none

pub strip_prefix-append : (p t : Text) → strip_prefix p (p ++ t) ≡ some t
unfolding strip_prefix
strip_prefix-append [] t = refl
strip_prefix-append (a ∷ p) t = ground (arith, strip_prefix-append p t)

-- `str::split_once` at one byte
abbrev push_left : ℕ → Option (Text × Text) → Option (Text × Text)
push_left b none = none
push_left b (some (l, r)) = some (b ∷ l, r)

unfoldable pub split_once : ℕ → Text → Option (Text × Text)
split_once c [] = none
split_once c (b ∷ t) =
    let rest = push_left b (split_once c t) in if b == c then some ([], t) else rest

abbrev pub Avoids : ℕ → Text → Type 0
Avoids c [] = Unit
Avoids c (b ∷ t) = (b ≡ c → ⊥) × Avoids c t

pub split_once-append : (c : ℕ) (l r : Text) → Avoids c l → split_once c (l ++ c ∷ r) ≡ some (l, r)
unfolding split_once
split_once-append c [] r h = ground arith
split_once-append c (b ∷ l) r h = ground (arith, split_once-append c l r h.1)

pub strip_prefix-eq_some : (p t r : Text) → strip_prefix p t ≡ some r → t ≡ p ++ r
unfolding strip_prefix
strip_prefix-eq_some [] t r h = ground arith
strip_prefix-eq_some (a ∷ p) [] r h = cc
strip_prefix-eq_some (a ∷ p) (b ∷ t) r h = elim (Bool-cases (a == b)) [
  | inr miss ↦ absurd (ground arith)
  | inl hit ↦
      let same : b ≡ a = ground arith in
      let rest = strip_prefix-eq_some p t r (ground arith) in rw (same, rest)
]

pub split_once-eq_some :
    (c : ℕ) (t l r : Text) → split_once c t ≡ some (l, r) → (t ≡ l ++ c ∷ r) × Avoids c l
unfolding split_once
split_once-eq_some c [] l r h = cc
split_once-eq_some c (b ∷ t) l r h = elim (Bool-cases (b == c)) [
  | inl hit ↦
      let here : (◌≡◌ {A = Text} [] l) × (t ≡ r) = ground arith in
      let same : b ≡ c = ground arith in (rw (← here.0, same, here.1), subst (Avoids c) here.0 tt)
  | inr miss ↦ elim (Option-cases (split_once c t)) [
    | inl e ↦ absurd (ground arith)
    | inr ((x, y), e) ↦
        let here : (b ∷ x ≡ l) × (y ≡ r) = ground arith in
        let (eq, free) = split_once-eq_some c t x y e in
        (ap (◌∷◌ b) eq ∙ rw (← here.0, here.1), subst (Avoids c) here.0 ((λ q. ground arith), free))
  ]
]

pub Avoids-of_all : (p : ℕ → Bool) (c : ℕ) (t : Text) → p c ≡ false → all p t ≡ true → Avoids c t
Avoids-of_all p c [] out h = tt
Avoids-of_all p c (b ∷ t) out h =
    ((λ e. let same = ap p e in ground arith), Avoids-of_all p c t out (ground arith))

-- Two texts that are equal, each cut at its first byte `c`, have equal parts.
pub cut-injective :
    (c : ℕ) (s t x y : Text) → Avoids c s → Avoids c t → s ++ c ∷ x ≡ t ++ c ∷ y → (s ≡ t) × (x ≡ y)
cut-injective c s t x y free free' e =
    let a = split_once-append c s x free in
    let b = split_once-append c t y free' in
    let same = sym a ∙ (ap (split_once c) e ∙ b) in (ground arith, ground arith)
