-- ===== src/Records/Listing.antt =====
-- swale/src/records.rs: the listings of the records with a prefix, over the entries of a view in key
-- order. The parser of a record is a parameter.
pub mod Last
use swale.Base.{ℕ, zero, suc, Option, none, some, List, [], ◌∷◌, ◌++◌, Text}

-- `Entry`: the key, the bytes and the record
abbrev pub Entry : Type 0 → Type 0
Entry R = Text × Text × R

module _ {R : Type 0} (decode : Text → Option R) where
  -- `entry`
  unfoldable pub entry_of : Text × Text → Option (Entry R)
  entry_of (key, bytes) = elim (decode bytes) [ none ↦ none | some r ↦ some (key, bytes, r) ]

  abbrev pub push_entry : Option (Entry R) → List (Entry R) → List (Entry R)
  push_entry none records = records
  push_entry (some e) records = e ∷ records

  -- `scan`
  unfoldable pub scan : List (Text × Text) → List (Entry R)
  unfolding entry_of
  scan [] = []
  scan (e ∷ entries) = push_entry (entry_of e) (scan entries)

  -- the loop of `scan_last` over the entries from the last key, with the records that are left
  unfoldable pub collect : ℕ → List (Text × Text) → List (Entry R)
  unfolding entry_of
  collect zero entries = []
  collect (suc left) [] = []
  collect (suc left) (e ∷ entries) = elim (entry_of e) [
    | none ↦ collect (suc left) entries
    | some r ↦ r ∷ collect left entries
  ]

unfoldable pub reverse {ℓ} : {A : Type ℓ} → List A → List A
reverse [] = []
reverse (x ∷ xs) = reverse xs ++ (x ∷ [])

-- `scan_last` of the entries from the last key
unfoldable pub scan_last :
    {R : Type 0} → (Text → Option R) → ℕ → List (Text × Text) → List (Entry R)
unfolding collect reverse
scan_last decode limit descending = reverse (collect decode limit descending)
