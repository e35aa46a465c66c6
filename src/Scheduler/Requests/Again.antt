-- ===== src/Scheduler/Requests/Again.antt =====
-- A request of swale/src/request.rs that is applied a second time.
use swale.Base.{
  ℕ, ◌≡◌, refl, ap, ◌∙◌, Option, none, some, List, [], ◌∷◌, Text, inl, inr, Option-cases, arith,
}
use swale.Records.Keys.{request_key}
use swale.Request.{RequestId, Request}
use swale.Scheduler.Services.{
  Services, Action, Effect, ok, continue-eq_ok, ◌>>=◌, return, fail, read_with,
}
use swale.Scheduler.{Error}
use swale.Scheduler.Steps.{cancel_run}
use swale.Scheduler.Steps.Reconcile.{start_runs}
use swale.Scheduler.Requests.{
  RequestRecord, RequestOutcome, request_effects, commit_record, apply_request, handle_request,
  refused_or, refusal,
}

module _ {S Expression : Type 0} (services : Services S Expression)
    (commit_effects : List Effect → Action S Unit) (encode : RequestRecord → Text)
    (decode : Text → Option RequestRecord) where
  abbrev handle : RequestId → Request → Action S RequestRecord
  handle = handle_request services commit_effects encode decode

  -- Reading a key twice gives the same value, and a read that follows leaves the state.
  abbrev pub IsStable : Type 0
  IsStable =
      (k : Text) (v : Option Text) (s t : S)
      → services.kv_get k s ≡ (ok v, t)
      → services.kv_get k t ≡ (ok v, t)

  -- A put that is committed with an expiry entry is read back.
  abbrev pub IsDurable : Type 0
  IsDurable =
      (k v : Text) (ms : ℕ) (entry : Text) (s t : S)
      → commit_effects (Effect.kv_put k v ∷ (Effect.expiry_entry ms entry ∷ [])) s ≡ (ok tt, t)
      → services.kv_get k t ≡ (ok (some v), t)

  read_again :
      (id : RequestId) (again : Request) (b : Text) (r : RequestRecord) (t : S)
      → services.kv_get (request_key id) t ≡ (ok (some b), t)
      → decode b ≡ some r
      → handle id again t ≡ (ok r, t)
  unfolding handle_request read_with
  read_again id again b r t h d = rw (h, d) refl

  -- the parse of a value that `read_with` got
  abbrev decoded : Text → Option Text → Action S (Option RequestRecord)
  decoded k v = elim v [
    | none ↦ return none
    | some b ↦ elim (decode b) [
      | none ↦ fail (Error.malformed_record k (services.parse_error b))
      | some r ↦ return (some r)
    ]
  ]

  read_found :
      (k : Text) (q : RequestRecord) (s t : S)
      → read_with services decode k s ≡ (ok (some q), t)
      → (b : Text) × (services.kv_get k s ≡ (ok (some b), t)) × (decode b ≡ some q)
  unfolding read_with
  read_found k q s t h =
      let (v, u, a, rest) = continue-eq_ok (decoded k) (services.kv_get k s) h in go v u a rest
    where
      go :
          (v : Option Text) (u : S)
          → services.kv_get k s ≡ (ok v, u)
          → decoded k v u ≡ (ok (some q), t)
          → (b : Text) × (services.kv_get k s ≡ (ok (some b), t)) × (decode b ≡ some q)
      go none u a rest = absurd (ground arith)
      go (some b) u a rest = elim (Option-cases (decode b)) [
        | inl d ↦ absurd (ground arith)
        | inr (x, d) ↦
            let same : (x ≡ q) × (u ≡ t) = ground arith in
            (b, a ∙ ap (λ (z : S). (ok (some b), z)) same.1, d ∙ ap some same.0)
      ]

  committed :
      (id : RequestId) (request : Request) (now : ℕ) (o : RequestOutcome) (r : RequestRecord)
      (s t : S)
      → IsDurable
      → commit_record services commit_effects encode decode id request now o s ≡ (ok r, t)
      → services.kv_get (request_key id) t ≡ (ok (some (encode r)), t)
  unfolding commit_record request_effects
  committed id request now o r s t durable h =
      let made : RequestRecord = record { request = request; handled_at_ms = now; outcome = o } in
      let (_, u, a, rest) =
        continue-eq_ok (λ _. return made)
          (commit_effects (request_effects services commit_effects encode decode id made) s) h in
      let same : (made ≡ r) × (u ≡ t) = ground arith in
      let put = durable (request_key id) (encode made) _ _ s u a in rw (← same.0, ← same.1) put

  -- the end of `handle_request`, from the record that was read
  abbrev answer : RequestId → Request → Option RequestRecord → Action S RequestRecord
  answer id request found = elim found [
    | some r ↦ return r
    | none ↦ (do
      now ← services.now_ms
      apply_request services commit_effects encode decode id now request)
  ]

  -- The record of a rerun commits with the submit of the task instance, so it is left out.
  abbrev IsLasting : Request → Type 0
  IsLasting (Request.start graph partitions) = Unit
  IsLasting (Request.rerun graph partition n) = ⊥
  IsLasting (Request.cancel graph partition) = Unit

  applied :
      (id : RequestId) (now : ℕ) (request : Request) (r : RequestRecord) (s t : S)
      → IsDurable
      → IsLasting request
      → apply_request services commit_effects encode decode id now request s ≡ (ok r, t)
      → services.kv_get (request_key id) t ≡ (ok (some (encode r)), t)
  unfolding apply_request
  applied id now (Request.start graph partitions) r s t durable lasting h =
      let (o, u, _, rest) =
        continue-eq_ok
          (commit_record services commit_effects encode decode id (Request.start graph partitions)
            now)
          (refused_or (λ ps. return (RequestOutcome.started ps)) refusal
            (start_runs services graph partitions s))
          h in
      committed id (Request.start graph partitions) now o r u t durable rest
  applied id now (Request.rerun graph partition n) r s t durable lasting h = absurd lasting
  applied id now (Request.cancel graph partition) r s t durable lasting h =
      let (done, u, _, rest) = continue-eq_ok _ (cancel_run services graph partition s) h in
      committed id (Request.cancel graph partition) now _ r u t durable rest

  -- With a store whose reads are stable and whose committed puts are read back, once a start or a
  -- cancel request is handled with a record that is decoded from its encoding, a request with the
  -- same id, whatever it asks for, returns the same record and changes nothing.
  pub handle_request_idempotent :
      (id : RequestId) (request again : Request) (r : RequestRecord) (s t : S)
      → IsStable
      → IsDurable
      → decode (encode r) ≡ some r
      → IsLasting request
      → handle id request s ≡ (ok r, t)
      → handle id again t ≡ (ok r, t)
  unfolding handle_request
  handle_request_idempotent id request again r s t stable durable codec lasting h =
      let (found, u, a, rest) = continue-eq_ok _ (read_with services decode (request_key id) s) h in
      go found u a rest
    where
      go :
          (found : Option RequestRecord) (u : S)
          → read_with services decode (request_key id) s ≡ (ok found, u)
          → answer id request found u ≡ (ok r, t)
          → handle id again t ≡ (ok r, t)
      go none u a rest =
          let (now, v, _, last) = continue-eq_ok _ (services.now_ms u) rest in
          read_again id again (encode r) r t (applied id now request r v t durable lasting last)
            codec
      go (some q) u a rest =
          let (b, e, d) = read_found (request_key id) q s u a in
          let same : (q ≡ r) × (u ≡ t) = ground arith in
          let here = stable (request_key id) (some b) s u e in
          rw (← same.0, ← same.1) (read_again id again b q u here d)
