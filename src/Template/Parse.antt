-- ===== src/Template/Parse.antt =====
-- The fuel of the loop of `Template::parse` (swale/src/template.rs).
use swale.Base.{
  ℕ, zero, suc, ◌+◌, ◌≤◌, ◌<◌, ◌≡◌, refl, sym, subst, Option, none, some, [], ◌∷◌, inl, inr, Text,
  length, ◌==◌, ◌&&◌, arith, Bool-cases, Option-cases,
}
use swale.Template.{
  Template, Parsed, ok, err, TemplateError, split_pair, parse_from, parse, reference, trim,
  literal_before, ◌>>=◌,
}

length-split_pair : (c : ℕ) (t l r : Text) → split_pair c t ≡ some (l, r) → length r < length t
unfolding split_pair
length-split_pair c [] l r h = cc
length-split_pair c (a ∷ []) l r h = cc
length-split_pair c (a ∷ b ∷ t) l r h = elim (Bool-cases (a == c && b == c)) [
  | inl here ↦ ground arith
  | inr later ↦ elim (Option-cases (split_pair c (b ∷ t))) [
    | inl e ↦ absurd (ground arith)
    | inr ((x, y), e) ↦
        let ih = length-split_pair c (b ∷ t) x y e in
        let same : y ≡ r = ground arith in ground arith
  ]
]

-- the body of the loop as it stands in the definition
abbrev body : (Text → ℕ → Parsed Template) → Text → ℕ → Option (Text × Text) → Parsed Template
body next text offset found = elim found [
  | none ↦ ok (literal_before text [])
  | some (before, after_open) ↦ elim (split_pair b'}' after_open) [
    | none ↦ err (TemplateError.unclosed (offset + length before))
    | some (inner, rest') ↦ do
      segment ← reference (trim inner)
      segments ← next rest' (offset + (length before + 2 + length inner + 2))
      ok (literal_before before (segment ∷ segments))
  ]
]

-- The body asks for the rest of the text only at shorter texts.
body_congr :
    (f h : Text → ℕ → Parsed Template) (t : Text) (o : ℕ)
    → ((r : Text) (k : ℕ) → length r < length t → f r k ≡ h r k)
    → body f t o (split_pair b'{' t) ≡ body h t o (split_pair b'{' t)
body_congr f h t o same = elim (Option-cases (split_pair b'{' t)) [
  | inl e ↦ subst (λ x. body f t o x ≡ body h t o x) (sym e) refl
  | inr ((l, r), e) ↦ subst (λ x. body f t o x ≡ body h t o x) (sym e) (closed l r e)
]
  where
    closed :
        (l r : Text)
        → split_pair b'{' t ≡ some (l, r)
        → body f t o (some (l, r)) ≡ body h t o (some (l, r))
    closed l r e = elim (Option-cases (split_pair b'}' r)) [
      | inl d ↦ rw (body, d) refl
      | inr ((inner, rest), d) ↦
          let shorter = length-split_pair b'{' t l r e in
          let shorter' = length-split_pair b'}' r inner rest d in
          let k = o + (length l + 2 + length inner + 2) in
          let eq = same rest k (omega arith) in rw (body, d) (rw eq refl)
    ]

parse_from_eq :
    (f h : ℕ) (t : Text) (o : ℕ) → length t ≤ f → length t ≤ h → parse_from f t o ≡ parse_from h t o
unfolding parse_from split_pair
parse_from_eq zero zero t o a b = refl
parse_from_eq zero (suc h) [] o a b = refl
parse_from_eq zero (suc h) (x ∷ t) o a b = absurd (omega arith)
parse_from_eq (suc f) zero [] o a b = refl
parse_from_eq (suc f) zero (x ∷ t) o a b = absurd (omega arith)
parse_from_eq (suc f) (suc h) t o a b =
    body_congr (parse_from f) (parse_from h) t o
      (λ r k lt. parse_from_eq f h r k (omega arith) (omega arith))

-- The fuel of `Template::parse` is enough: with any fuel of at least the length of the text the
-- loop gives the same template or the same error.
pub parse_fuel :
    (source : Text) (fuel : ℕ) → length source ≤ fuel → parse_from fuel source 0 ≡ parse source
unfolding parse
parse_fuel source fuel le = parse_from_eq fuel (length source) source 0 le (omega arith)
