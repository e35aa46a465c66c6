-- ===== src/Retention/Counts.antt =====
-- The counts of a pass (swale/src/retention.rs, `expire`).
use swale.Base.{
  arith, ◌≡◌, refl, subst, ℕ, ◌+◌, inl, inr, Bool, true, false, Option, none, some, List, [], ◌∷◌,
  Text, Option-cases, if◌then◌else◌,
}
use swale.Base.Calls.{Done, caught, continue, continue-eq_ok, ok-injective}
use swale.Base.Results.{Result}
use swale.Records.Keys.{Expiring, parse_suffix}
use swale.Retention.{Expired, PassState, counted, expire_record, expire_entry, expire_entries}
use swale.Scheduler.{Error}
use swale.Scheduler.Requests.{RequestRecord}
use swale.Scheduler.Services.{Services, Action, return}

abbrev pub is_run : Expiring → Bool
is_run (Expiring.run _ _) = true
is_run (Expiring.request _) = false

abbrev pub is_request : Expiring → Bool
is_request (Expiring.run _ _) = false
is_request (Expiring.request _) = true

-- the removal under a compare of an entry of one kind
abbrev pub removal : (Expiring → Bool) → Option Expiring → Expired → ℕ
removal kind none o = 0
removal kind (some e) Expired.keep = 0
removal kind (some e) (Expired.delete _) = 0
removal kind (some e) (Expired.delete_if _ _ _) = if kind e then 1 else 0

-- the removals under a compare of the entries of one kind, each entry with its outcome
abbrev pub removals : (Expiring → Bool) → List (ℕ × Text) → List Expired → ℕ
removals kind [] os = 0
removals kind (e ∷ entries) [] = 0
removals kind ((time, suffix) ∷ entries) (o ∷ os) =
    removal kind (parse_suffix suffix) o + removals kind entries os

-- the two counts of a pass after a removal
abbrev Adds : Option Expiring → PassState → Expired × PassState → Type 0
Adds e pass x =
    (x.1.runs ≡ pass.runs + removal is_run e x.0)
    × (x.1.requests ≡ pass.requests + removal is_request e x.0)

Adds-keep :
    (e : Option Expiring) (pass : PassState) (failure : Option Error)
    → Adds e pass (Expired.keep, record pass { failure = failure })
Adds-keep none pass failure = (omega arith, omega arith)
Adds-keep (some e) pass failure = (omega arith, omega arith)

module _ {S Expression : Type 0} (services : Services S Expression)
    (forget_group : Text → Text → Action S Unit)
    (decode_request : Text → Option RequestRecord) where
  counted-Adds :
      (e : Expiring) (pass : PassState) (r : Result Error Expired)
      → Adds (some e) pass (counted services forget_group decode_request e pass r)
  unfolding counted
  counted-Adds (Expiring.run _ _) pass (Result.ok Expired.keep) = (omega arith, omega arith)
  counted-Adds (Expiring.run _ _) pass (Result.ok (Expired.delete _)) = (omega arith, omega arith)
  counted-Adds (Expiring.run _ _) pass (Result.ok (Expired.delete_if _ _ _)) = (refl, omega arith)
  counted-Adds (Expiring.request _) pass (Result.ok Expired.keep) = (omega arith, omega arith)
  counted-Adds (Expiring.request _) pass (Result.ok (Expired.delete _)) = (omega arith, omega arith)
  counted-Adds (Expiring.request _) pass (Result.ok (Expired.delete_if _ _ _)) = (omega arith, refl)
  counted-Adds e pass (Result.err failure) = Adds-keep (some e) pass (some failure)

  expire_entry-Adds :
      (pass next : PassState) (time : ℕ) (suffix : Text) (o : Expired) (s t : S)
      → expire_entry services forget_group decode_request pass time suffix s
        ≡ (Done.ok (o, next), t)
      → Adds (parse_suffix suffix) pass (o, next)
  unfolding expire_entry
  expire_entry-Adds pass next time suffix o s t h = elim (Option-cases pass.failure) [
    | inr (e, failed) ↦
        subst (Adds (parse_suffix suffix) pass)
          (ok-injective (Expired.keep, pass) (o, next) s t (rw (expire_entry, failed) at h))
          (Adds-keep (parse_suffix suffix) pass pass.failure)
    | inl going ↦ elim (Option-cases (parse_suffix suffix)) [
      | inl bad ↦ rw bad (
          subst (Adds none pass)
            (ok-injective (Expired.delete [], pass) (o, next) s t
              (rw (expire_entry, going, bad) at h))
            (omega arith, omega arith))
      | inr (expiring, parsed) ↦
          let h' = rw (expire_entry, going, parsed) at h in
          let (r, u, _, h1) =
            continue-eq_ok
              (λ r. return (counted services forget_group decode_request expiring pass r))
              (caught (expire_record services forget_group decode_request time expiring) s) h' in
          rw parsed (
            subst (Adds (some expiring) pass)
              (ok-injective (counted services forget_group decode_request expiring pass r) (o, next)
                u t h1)
              (counted-Adds expiring pass r))
    ]
  ]

  -- The runs that a pass counts are the entries of runs whose outcome is a removal under a compare,
  -- and the requests that it counts are the entries of requests with such an outcome, whether a
  -- failure ends the removals or not.
  pub expire_entries-removals :
      (pass last : PassState) (entries : List (ℕ × Text)) (os : List Expired) (s t : S)
      → expire_entries services forget_group decode_request pass entries s ≡ (Done.ok (os, last), t)
      → (last.runs ≡ pass.runs + removals is_run entries os)
        × (last.requests ≡ pass.requests + removals is_request entries os)
  unfolding expire_entries
  expire_entries-removals pass last [] os s t h =
      let same = ok-injective ([], pass) (os, last) s t h in
      subst (λ x. (x.1.runs ≡ pass.runs + 0) × (x.1.requests ≡ pass.requests + 0)) same
        (omega arith, omega arith)
  expire_entries-removals pass last ((time, suffix) ∷ entries) os s t h =
      let ((o, next), u, first, h1) =
        continue-eq_ok (λ x. rest_of x.0 x.1)
          (expire_entry services forget_group decode_request pass time suffix s) h in
      let ((rest, last'), v, later, h2) =
        continue-eq_ok (λ (y : List Expired × PassState). return (o ∷ y.0, y.1))
          (expire_entries services forget_group decode_request next entries u) h1 in
      let (runs, requests) = expire_entry-Adds pass next time suffix o s u first in
      let (more_runs, more_requests) = expire_entries-removals next last' entries rest u v later in
      subst
        (λ x.
          (x.1.runs ≡ pass.runs + removals is_run ((time, suffix) ∷ entries) x.0)
          × (x.1.requests ≡ pass.requests + removals is_request ((time, suffix) ∷ entries) x.0))
        (ok-injective (o ∷ rest, last') (os, last) v t h2) (omega arith, omega arith)
    where
      rest_of : Expired → PassState → Action S (List Expired × PassState)
      rest_of o next w =
          continue (λ (y : List Expired × PassState). return (o ∷ y.0, y.1))
            (expire_entries services forget_group decode_request next entries w)
