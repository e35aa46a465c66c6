-- ===== src/Records/Listing/Last.antt =====
-- The last records of a listing (swale/src/records.rs, `scan_last`).
use swale.Base.{
  ◌≡◌, refl, ap, ◌∙◌, ℕ, zero, suc, Option, inl, inr, List, [], ◌∷◌, ◌++◌, Text, Option-cases,
}
use swale.Records.Listing.{entry_of, scan, collect, reverse, scan_last}

unfoldable pub take {ℓ} : {A : Type ℓ} → ℕ → List A → List A
take zero xs = []
take (suc n) [] = []
take (suc n) (x ∷ xs) = x ∷ take n xs

append-nil : {A : Type 0} (xs : List A) → xs ++ [] ≡ xs
append-nil [] = refl
append-nil (x ∷ xs) = ap (λ l. x ∷ l) (append-nil xs)

module _ {R : Type 0} (decode : Text → Option R) where
  collect-scan :
      (n : ℕ) (entries : List (Text × Text))
      → collect decode n entries ≡ take n (scan decode entries)
  unfolding collect scan take
  collect-scan zero entries = refl
  collect-scan (suc n) [] = refl
  collect-scan (suc n) (e ∷ entries) = elim (Option-cases (entry_of decode e)) [
    | inl skipped ↦ rw (collect, scan, skipped) (collect-scan (suc n) entries)
    | inr (r, found) ↦ rw (collect, scan, found) (ap (λ l. r ∷ l) (collect-scan n entries))
  ]

  scan-append :
      (xs ys : List (Text × Text)) → scan decode (xs ++ ys) ≡ scan decode xs ++ scan decode ys
  unfolding scan
  scan-append [] ys = refl
  scan-append (e ∷ xs) ys = elim (Option-cases (entry_of decode e)) [
    | inl skipped ↦ rw (scan, skipped) (scan-append xs ys)
    | inr (r, found) ↦ rw (scan, found) (ap (λ l. r ∷ l) (scan-append xs ys))
  ]

  scan-reverse : (xs : List (Text × Text)) → scan decode (reverse xs) ≡ reverse (scan decode xs)
  unfolding scan reverse
  scan-reverse [] = refl
  scan-reverse (e ∷ xs) =
      scan-append (reverse xs) (e ∷ []) ∙ (elim (Option-cases (entry_of decode e)) [
        | inl skipped ↦ rw (scan, skipped) (append-nil (scan decode (reverse xs)) ∙ scan-reverse xs)
        | inr (r, found) ↦ rw (scan, found) (ap (λ l. l ++ (r ∷ [])) (scan-reverse xs))
      ])

  -- The last records of a listing, read from the last key, are the last of the records that the
  -- listing from the first key gives, in the same order.
  pub scan_last-scan :
      (limit : ℕ) (entries : List (Text × Text))
      → scan_last decode limit (reverse entries)
        ≡ reverse (take limit (reverse (scan decode entries)))
  unfolding scan_last
  scan_last-scan limit entries =
      ap reverse (collect-scan limit (reverse entries) ∙ ap (take limit) (scan-reverse entries))
