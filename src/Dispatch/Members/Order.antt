-- ===== src/Dispatch/Members/Order.antt =====
-- The order of the members of a group (swale/src/dispatch.rs, `member_outputs`).
use mathlib.Core.List.{Permᴰ}
use swale.Base.{
  arith, ◌≡◌, ◌≢◌, refl, sym, ap, subst, ◌∙◌, ℕ, suc, ◌<◌, inl, inr, true, false, List, [], ◌∷◌,
  Text, leb, length, Bool-cases,
}
use swale.Base.Results.{Result}
use swale.Data.{Json}
use swale.Dispatch.{MemberResult}
use swale.Dispatch.Members.{
  Positioned, position, positioned, insert_sorted, sort, outputs_of_sorted, member_outputs,
}

leb-flip : (p q : ℕ) → p ≢ q → leb p q ≡ true → leb q p ≡ false
leb-flip p q h a = ground arith

leb-total : (p q : ℕ) → leb p q ≡ false → leb q p ≡ true
leb-total p q a = ground arith

leb-between : (p q k : ℕ) → leb p k ≡ true → leb q k ≡ false → leb q p ≡ false
leb-between p q k a b = ground arith

insert-before :
    (p k : ℕ) (r t : MemberResult) (l : List Positioned)
    → leb p k ≡ true
    → insert_sorted (p, r) ((k, t) ∷ l) ≡ (p, r) ∷ (k, t) ∷ l
unfolding insert_sorted
insert-before p k r t l h = rw (insert_sorted, h) refl

insert-after :
    (p k : ℕ) (r t : MemberResult) (l : List Positioned)
    → leb p k ≡ false
    → insert_sorted (p, r) ((k, t) ∷ l) ≡ (k, t) ∷ insert_sorted (p, r) l
unfolding insert_sorted
insert-after p k r t l h = rw (insert_sorted, h) refl

insert-nil : (p : ℕ) (r : MemberResult) → insert_sorted (p, r) [] ≡ (p, r) ∷ []
unfolding insert_sorted
insert-nil p r = refl

-- Two insertions before an element, the lower position first.
insert-both :
    (p q k : ℕ) (r s t : MemberResult) (l : List Positioned)
    → p ≢ q
    → leb p k ≡ true
    → leb q k ≡ true
    → leb p q ≡ true
    → insert_sorted (p, r) (insert_sorted (q, s) ((k, t) ∷ l))
      ≡ insert_sorted (q, s) (insert_sorted (p, r) ((k, t) ∷ l))
insert-both p q k r s t l h a b c =
    rw
      (
        insert-before q k s t l b,
        insert-before p k r t l a,
        insert-before p q r s ((k, t) ∷ l) c,
        insert-after q p s r ((k, t) ∷ l) (leb-flip p q h c),
        insert-before q k s t l b,
      )
      refl

-- An insertion before an element and one after it.
insert-apart :
    (p q k : ℕ) (r s t : MemberResult) (l : List Positioned)
    → leb p k ≡ true
    → leb q k ≡ false
    → insert_sorted (p, r) (insert_sorted (q, s) ((k, t) ∷ l))
      ≡ insert_sorted (q, s) (insert_sorted (p, r) ((k, t) ∷ l))
insert-apart p q k r s t l a b =
    rw
      (
        insert-after q k s t l b,
        insert-before p k r t l a,
        insert-before p k r t (insert_sorted (q, s) l) a,
        insert-after q p s r ((k, t) ∷ l) (leb-between p q k a b),
        insert-after q k s t l b,
      )
      refl

-- Insertions at two positions can be exchanged.
insert_sorted_comm :
    (p q : ℕ) (r s : MemberResult) (l : List Positioned)
    → p ≢ q
    → insert_sorted (p, r) (insert_sorted (q, s) l) ≡ insert_sorted (q, s) (insert_sorted (p, r) l)
insert_sorted_comm p q r s [] h = elim (Bool-cases (leb p q)) [
  | inl a ↦
      rw
        (
          insert-nil q s,
          insert-nil p r,
          insert-before p q r s [] a,
          insert-after q p s r [] (leb-flip p q h a),
          insert-nil q s,
        )
        refl
  | inr a ↦
      rw
        (
          insert-nil q s,
          insert-nil p r,
          insert-after p q r s [] a,
          insert-before q p s r [] (leb-total p q a),
          insert-nil p r,
        )
        refl
]
insert_sorted_comm p q r s ((k, t) ∷ l) h = elim (Bool-cases (leb p k)) [
  | inl a ↦ elim (Bool-cases (leb q k)) [
    | inr b ↦ insert-apart p q k r s t l a b
    | inl b ↦ elim (Bool-cases (leb p q)) [
      | inl c ↦ insert-both p q k r s t l h a b c
      | inr c ↦ sym (insert-both q p k s r t l (λ e. h (sym e)) b a (leb-total p q c))
    ]
  ]
  | inr a ↦ elim (Bool-cases (leb q k)) [
    | inl b ↦ sym (insert-apart q p k s r t l b a)
    | inr b ↦
        rw
          (
            insert-after q k s t l b,
            insert-after p k r t l a,
            insert-after p k r t (insert_sorted (q, s) l) a,
            insert-after q k s t (insert_sorted (p, r) l) b,
          )
          (ap (λ x. (k, t) ∷ x) (insert_sorted_comm p q r s l h))
  ]
]

abbrev Differs : ℕ → List MemberResult → Type 0
Differs p [] = Unit
Differs p (r ∷ results) = (p ≢ position r) × Differs p results

abbrev Distinct : List MemberResult → Type 0
Distinct [] = Unit
Distinct (r ∷ results) = Differs (position r) results × Distinct results

abbrev pub Above : ℕ → List MemberResult → Type 0
Above p [] = Unit
Above p (r ∷ results) = (p < position r) × Above p results

-- the results in item order
abbrev pub IsAscending : List MemberResult → Type 0
IsAscending [] = Unit
IsAscending (r ∷ results) = Above (position r) results × IsAscending results

Above-Differs : (p : ℕ) (l : List MemberResult) → Above p l → Differs p l
Above-Differs p [] h = tt
Above-Differs p (r ∷ l) (lt, h) = (λ e. ground arith, Above-Differs p l h)

IsAscending-Distinct : (l : List MemberResult) → IsAscending l → Distinct l
IsAscending-Distinct [] h = tt
IsAscending-Distinct (r ∷ l) (above, h) =
    (Above-Differs (position r) l above, IsAscending-Distinct l h)

Differs-perm : (p : ℕ) (l k : List MemberResult) → Permᴰ l k → Differs p l → Differs p k
Differs-perm p [] [] Permᴰ.nil h = h
Differs-perm p (a ∷ l) (b ∷ k) (Permᴰ.cons e perm) (d, h) =
    (subst (λ r. p ≢ position r) e d, Differs-perm p l k perm h)
Differs-perm p (a ∷ b ∷ l) (c ∷ d ∷ _) (Permᴰ.swap e f) (x, (y, h)) =
    (subst (λ r. p ≢ position r) f y, (subst (λ r. p ≢ position r) e x, h))
Differs-perm p l k (Permᴰ.trans {l₂ = m} perm perm') h =
    Differs-perm p m k perm' (Differs-perm p l m perm h)

Distinct-perm : (l k : List MemberResult) → Permᴰ l k → Distinct l → Distinct k
Distinct-perm [] [] Permᴰ.nil h = h
Distinct-perm (a ∷ l) (b ∷ k) (Permᴰ.cons e perm) (d, h) = (
  subst (λ r. Differs (position r) k) e (Differs-perm (position a) l k perm d),
  Distinct-perm l k perm h,
)
Distinct-perm (a ∷ b ∷ l) (c ∷ d ∷ _) (Permᴰ.swap e f) ((x, y), (z, h)) =
    let ne : position c ≢ position d = λ eq. x (ap position e ∙ sym eq ∙ sym (ap position f)) in
    ((ne, subst (λ r. Differs (position r) l) f z), (subst (λ r. Differs (position r) l) e y, h))
Distinct-perm l k (Permᴰ.trans {l₂ = m} perm perm') h =
    Distinct-perm m k perm' (Distinct-perm l m perm h)

length-perm : (l k : List MemberResult) → Permᴰ l k → length l ≡ length k
length-perm [] [] Permᴰ.nil = refl
length-perm (a ∷ l) (b ∷ k) (Permᴰ.cons e perm) = ap suc (length-perm l k perm)
length-perm (a ∷ b ∷ l) (c ∷ d ∷ _) (Permᴰ.swap e f) = refl
length-perm l k (Permᴰ.trans {l₂ = m} perm perm') = length-perm l m perm ∙ length-perm m k perm'

sort-perm :
    (l k : List MemberResult) → Permᴰ l k → Distinct l → sort (positioned l) ≡ sort (positioned k)
unfolding sort positioned
sort-perm [] [] Permᴰ.nil h = refl
sort-perm (a ∷ l) (b ∷ k) (Permᴰ.cons e perm) (d, h) =
    let ih = sort-perm l k perm h in
    subst
      (λ r.
        insert_sorted (position a, a) (sort (positioned l))
        ≡ insert_sorted (position r, r) (sort (positioned k)))
      e (ap (insert_sorted (position a, a)) ih)
sort-perm (a ∷ b ∷ l) (c ∷ d ∷ _) (Permᴰ.swap e f) ((x, y), (z, h)) =
    let swapped = insert_sorted_comm (position a) (position b) a b (sort (positioned l)) x in
    subst
      (λ r.
        insert_sorted (position a, a) (insert_sorted (position b, b) (sort (positioned l)))
        ≡ insert_sorted (position r, r) (insert_sorted (position d, d) (sort (positioned l))))
      f
      (subst
        (λ r.
          insert_sorted (position a, a) (insert_sorted (position b, b) (sort (positioned l)))
          ≡ insert_sorted (position b, b) (insert_sorted (position r, r) (sort (positioned l))))
        e swapped)
sort-perm l k (Permᴰ.trans {l₂ = m} perm perm') h =
    sort-perm l m perm h ∙ sort-perm m k perm' (Distinct-perm l m perm h)

sort-IsAscending : (l : List MemberResult) → IsAscending l → sort (positioned l) ≡ positioned l
unfolding sort positioned
sort-IsAscending [] h = refl
sort-IsAscending (r ∷ []) h = insert-nil (position r) r
sort-IsAscending (r ∷ s ∷ l) ((lt, _), h) =
    rw (sort-IsAscending (s ∷ l) h)
      (insert-before (position r) (position s) r s (positioned l) (ground arith))

-- The output of a group does not depend on the order of the results: for results with ascending
-- positions, every permutation of them gives the outputs, or the failure, of the members in item
-- order.
pub member_outputs-order :
    (from_slice : Text → Result Text Json) (l k : List MemberResult)
    → IsAscending l
    → Permᴰ l k
    → member_outputs from_slice k ≡ outputs_of_sorted from_slice (length l) (positioned l)
unfolding member_outputs
member_outputs-order from_slice l k ascending perm =
    let sorted =
      sym (sort-perm l k perm (IsAscending-Distinct l ascending)) ∙ sort-IsAscending l ascending in
    rw (sorted, sym (length-perm l k perm)) refl
