-- ===== src/Operator/Tails.antt =====
-- The length of the text of an error (swale/src/operator/mod.rs, `tail`).
use swale.Base.{
  arith, ◌≡◌, ℕ, zero, suc, ◌+◌, ◌-◌, ◌≤◌, ◌⊎◌, inl, inr, leb, [], ◌∷◌, Text, length,
  from_utf8_lossy, Bool-cases,
}
use swale.Operator.Texts.{is_boundary, floor_from, drop, tail}

floor_from-ge : (fuel : ℕ) (t : Text) (i : ℕ) → i ≤ floor_from fuel t i + fuel
unfolding floor_from
floor_from-ge zero t i = omega arith
floor_from-ge (suc fuel) t i = elim (Bool-cases (is_boundary t i)) [
  | inl here ↦ rw (floor_from, here) (omega arith)
  | inr back ↦ let rest = floor_from-ge fuel t (i - 1) in rw (floor_from, back) (omega arith)
]

length-drop : (n : ℕ) (t : Text) → length t ≤ length (drop n t) + n
unfolding drop
length-drop zero t = omega arith
length-drop (suc n) [] = omega arith
length-drop (suc n) (b ∷ t) = let rest = length-drop n t in omega arith

length-drop-le : (n : ℕ) (t : Text) → n ≤ length t → length (drop n t) + n ≤ length t
unfolding drop
length-drop-le zero t le = omega arith
length-drop-le (suc n) [] le = absurd (omega arith)
length-drop-le (suc n) (b ∷ t) le = let rest = length-drop-le n t (omega arith) in omega arith

floor_from-le : (fuel : ℕ) (t : Text) (i : ℕ) → floor_from fuel t i ≤ i
unfolding floor_from
floor_from-le zero t i = omega arith
floor_from-le (suc fuel) t i = elim (Bool-cases (is_boundary t i)) [
  | inl here ↦ rw (floor_from, here) (omega arith)
  | inr back ↦ let rest = floor_from-le fuel t (i - 1) in rw (floor_from, back) (omega arith)
]

-- The tail of the output of a program has at most 515 bytes, and it has 512 bytes or the whole text
-- at least.
pub length-tail :
    (bytes : Text)
    → (length (tail bytes) ≤ 515)
      × ((512 ≤ length (tail bytes)) ⊎ (length (tail bytes) ≡ length (from_utf8_lossy bytes)))
unfolding tail
length-tail bytes =
    let text = from_utf8_lossy bytes in
    let from = floor_from 3 text (length text - 512) in
    let ge = floor_from-ge 3 text (length text - 512) in
    let le = floor_from-le 3 text (length text - 512) in
    let a = length-drop from text in
    let b = length-drop-le from text (omega arith) in
    (
      omega arith,
      elim (Bool-cases (leb (length text) 512)) [
        | inl short ↦ let p : length text ≤ 512 = ground arith in inr (omega arith)
        | inr long ↦ let p : 512 ≤ length text = ground arith in inl (omega arith)
      ],
    )
