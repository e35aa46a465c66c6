-- ===== src/Operator/Deadlines.antt =====
-- The deadline that the polls of one wait share (swale/src/operator/mod.rs, http.rs and
-- object_exists.rs).
use swale.Base.{
  arith, ◌≡◌, refl, subst, ℕ, ◌+◌, ◌/◌, ◌<◌, ◌⊎◌, inl, inr, false, Option, none, some, Text, Map,
  any, Bool-cases, Option-cases, ◌∷◌, ◌++◌,
}
use swale.Base.Calls.{Done, continue-eq_ok}
use swale.Base.Results.{Result, ok, err, Result-eq_ok}
use swale.Data.{Json, json_eq}
use swale.Operator.{
  StepError, Task, Outcome, Lease, lift, lift-eq_ok, Deadline, JsonForm, IsFaithful, saturate,
  deadline_of, passed, poll_after,
}
use swale.Operator.Http.{
  Client, Poll, HttpParams, Sent, value_outcome, found_outcome, body_outcome, body_value,
  status_error, sent_response, after_sent, response_outcome, end_run, run_http, poll_path,
}
use swale.Template.Render.{lookup}
use swale.Operator.ObjectExists.{
  Objects, World, Meta, HeadError, after_head, read_head, after_url, after_deadline, parsed_url,
  ObjectExistsParams, head_outcome, run_object_exists, open_store,
}

-- the deadline of a wait from the time of its first poll
abbrev pub deadline_after : ℕ → ℕ → Deadline
deadline_after start timeout = record {
  deadline_ms = saturate (start + saturate (timeout / 1000000));
}

-- The task is a poll of the wait: the first one, or one with the deadline as its state.
abbrev pub IsPoll : JsonForm Deadline → ℕ → ℕ → Task → Type 0
IsPoll form start timeout task =
    ((task.state ≡ none) × (task.now_ms ≡ start))
    ⊎ (task.state ≡ some (form.to_value (deadline_after start timeout)))

deadline_of-poll :
    (form : JsonForm Deadline) (start timeout : ℕ) (task : Task)
    → IsFaithful form
    → IsPoll form start timeout task
    → deadline_of form task timeout ≡ ok (deadline_after start timeout)
unfolding deadline_of
deadline_of-poll form start timeout task faithful (inl (fresh, now)) = rw (fresh, now) refl
deadline_of-poll form start timeout task faithful (inr later) =
    rw later (rw (faithful (deadline_after start timeout)) refl)

passed-eq_false : (d : Deadline) (task : Task) → passed d task ≡ false → task.now_ms < d.deadline_ms
unfolding passed
passed-eq_false d task h = ground arith

module _ {S Url Store ObjectPath : Type 0} (objects : Objects S Url Store ObjectPath) where
  -- A head that asks for another poll keeps the deadline, which has not passed.
  head_outcome-next :
      (task : Task) (params : ObjectExistsParams) (d : Deadline) (head : Result HeadError Meta)
      (state : Json) (after : ℕ)
      → head_outcome objects task params d head ≡ ok (Outcome.next state after)
      → (state ≡ objects.deadlines.to_value d) × (task.now_ms < d.deadline_ms)
  unfolding head_outcome poll_after
  head_outcome-next task params d (ok meta) state after h = absurd (ground arith)
  head_outcome-next task params d (err (HeadError.other e)) state after h = absurd (ground arith)
  head_outcome-next task params d (err HeadError.not_found) state after h =
      elim (Bool-cases (passed d task)) [
        | inl p ↦ absurd (let g = rw p at h in ground arith)
        | inr p ↦ let g = rw p at h in (ground arith, passed-eq_false d task p)
      ]

  after_head-next :
      (task : Task) (params : ObjectExistsParams) (d : Deadline) (r : Done HeadError Meta × S)
      (stores : Map Store) (state : Json) (after : ℕ) (w : World objects)
      → after_head objects task params d r stores ≡ (Done.ok (Outcome.next state after), w)
      → (state ≡ objects.deadlines.to_value d) × (task.now_ms < d.deadline_ms)
  unfolding after_head
  after_head-next task params d (Done.ok meta, s) stores state after w h =
      head_outcome-next task params d (ok meta) state after
        (lift-eq_ok (head_outcome objects task params d (ok meta)) h).0
  after_head-next task params d (Done.err e, s) stores state after w h =
      head_outcome-next task params d (err e) state after
        (lift-eq_ok (head_outcome objects task params d (err e)) h).0
  after_head-next task params d (Done.panicked, s) stores state after w h = absurd (ground arith)

  read_head-next :
      (task : Task) (params : ObjectExistsParams) (d : Deadline) (o : Store × ObjectPath)
      (state : Json) (after : ℕ) (v w : World objects)
      → read_head objects task params d o v ≡ (Done.ok (Outcome.next state after), w)
      → (state ≡ objects.deadlines.to_value d) × (task.now_ms < d.deadline_ms)
  unfolding read_head
  read_head-next task params d (store, path) state after (stores, s) w h =
      after_head-next task params d (objects.head store path s) stores state after w h

  pub object_exists-next :
      (start : ℕ) (task : Task) (params : ObjectExistsParams) (v w : World objects) (state : Json)
      (after : ℕ)
      → IsFaithful objects.deadlines
      → IsPoll objects.deadlines start params.timeout task
      → run_object_exists objects task params v ≡ (Done.ok (Outcome.next state after), w)
      → (state ≡ objects.deadlines.to_value (deadline_after start params.timeout))
        × (task.now_ms < (deadline_after start params.timeout).deadline_ms)
  unfolding run_object_exists after_deadline after_url
  object_exists-next start task params v w state after faithful poll h =
      let form = objects.deadlines in
      let read = deadline_of form task params.timeout in
      let (d, v1, e1, h1) = continue-eq_ok (after_deadline objects task params) (lift read v) h in
      let parsed = parsed_url objects params.url (objects.parse_url params.url) in
      let (url, v2, e2, h2) =
        continue-eq_ok (after_url objects task params d) (lift parsed v1) h1 in
      let (opened_, v3, e3, h3) =
        continue-eq_ok (read_head objects task params d) (open_store objects url v2) h2 in
      let same = deadline_of-poll form start params.timeout task faithful poll in
      let eq : d ≡ deadline_after start params.timeout =
        let e = (lift-eq_ok read e1).0 in ground arith in
      let result = read_head-next task params d opened_ state after v3 w h3 in
      subst (λ x. (state ≡ form.to_value x) × (task.now_ms < x.deadline_ms)) eq result

module _ {S : Type 0} (client : Client S) where
  value_outcome-next :
      (task : Task) (request : Text) (poll : Poll) (d : Deadline) (status : ℕ)
      (body value state : Json) (after : ℕ)
      → value_outcome client task request poll d status body value ≡ Outcome.next state after
      → (state ≡ client.deadlines.to_value d) × (task.now_ms < d.deadline_ms)
  unfolding value_outcome poll_after
  value_outcome-next task request poll d status body value state after h =
      elim (Bool-cases (any (json_eq value) poll.accepted)) [
        | inl a ↦ absurd (let g = rw a at h in ground arith)
        | inr a ↦ elim (Bool-cases (any (json_eq value) poll.failed)) [
          | inl b ↦ absurd (let g = rw (a, b) at h in ground arith)
          | inr b ↦ elim (Bool-cases (passed d task)) [
            | inl c ↦ absurd (let g = rw (a, b, c) at h in ground arith)
            | inr c ↦ let g = rw (a, b, c) at h in (ground arith, passed-eq_false d task c)
          ]
        ]
      ]

  after_value-next :
      (task : Task) (request : Text) (poll : Poll) (status : ℕ) (body : Json) (d : Deadline)
      (found : Option Json) (state : Json) (after : ℕ)
      → found_outcome client task request poll status body d found ≡ Outcome.next state after
      → (state ≡ client.deadlines.to_value d) × (task.now_ms < d.deadline_ms)
  unfolding found_outcome
  after_value-next task request poll status body d none state after h = absurd (ground arith)
  after_value-next task request poll status body d (some value) state after h =
      value_outcome-next task request poll d status body value state after h

  body_outcome-next :
      (start : ℕ) (task : Task) (request : Text) (poll : Poll) (status : ℕ) (body state : Json)
      (after : ℕ)
      → IsFaithful client.deadlines
      → IsPoll client.deadlines start poll.timeout task
      → body_outcome client task request (some poll) status body ≡ ok (Outcome.next state after)
      → (state ≡ client.deadlines.to_value (deadline_after start poll.timeout))
        × (task.now_ms < (deadline_after start poll.timeout).deadline_ms)
  unfolding body_outcome
  body_outcome-next start task request poll status body state after faithful is_poll h =
      let same = deadline_of-poll client.deadlines start poll.timeout task faithful is_poll in
      let found = lookup body (poll_path poll) in
      let outcome : found_outcome client task request poll status body
            (deadline_after start poll.timeout) found
          ≡ Outcome.next state after =
        let g = rw same at h in ground arith in
      after_value-next task request poll status body (deadline_after start poll.timeout) found state
        after outcome

  response_outcome-next :
      (start : ℕ) (task : Task) (request : Text) (poll : Poll) (sent : Sent) (state : Json)
      (after : ℕ)
      → IsFaithful client.deadlines
      → IsPoll client.deadlines start poll.timeout task
      → response_outcome client task request (some poll) sent ≡ ok (Outcome.next state after)
      → (state ≡ client.deadlines.to_value (deadline_after start poll.timeout))
        × (task.now_ms < (deadline_after start poll.timeout).deadline_ms)
  unfolding response_outcome after_sent
  response_outcome-next start task request poll sent state after faithful is_poll h =
      let ((status, body), e, h1) =
        Result-eq_ok (sent_response client request sent)
          (after_sent client task request (some poll)) h in
      elim (Option-cases (status_error request status body)) [
        | inl none_ ↦
            body_outcome-next start task request poll status (body_value client body) state after
              faithful is_poll (rw (after_sent, none_) at h1)
        | inr (e, some_) ↦ absurd (let g = rw (after_sent, some_) at h1 in ground arith)
      ]

  end_run-next :
      (start : ℕ) (task : Task) (request : Text) (poll : Poll) (r : Done StepError Sent × S)
      (state : Json) (after : ℕ) (t : S)
      → IsFaithful client.deadlines
      → IsPoll client.deadlines start poll.timeout task
      → end_run client task (some poll) request r ≡ (Done.ok (Outcome.next state after), t)
      → (state ≡ client.deadlines.to_value (deadline_after start poll.timeout))
        × (task.now_ms < (deadline_after start poll.timeout).deadline_ms)
  unfolding end_run
  end_run-next start task request poll (Done.ok sent, u) state after t faithful is_poll h =
      response_outcome-next start task request poll sent state after faithful is_poll
        (lift-eq_ok (response_outcome client task request (some poll) sent) h).0
  end_run-next start task request poll (Done.err e, u) state after t faithful is_poll h =
      absurd (ground arith)
  end_run-next start task request poll (Done.panicked, u) state after t faithful is_poll h =
      absurd (ground arith)

  pub http-next :
      (start : ℕ) (lease : Lease) (task : Task) (params : HttpParams) (poll : Poll) (s t : S)
      (state : Json) (after : ℕ)
      → IsFaithful client.deadlines
      → params.poll ≡ some poll
      → IsPoll client.deadlines start poll.timeout task
      → run_http client lease task params s ≡ (Done.ok (Outcome.next state after), t)
      → (state ≡ client.deadlines.to_value (deadline_after start poll.timeout))
        × (task.now_ms < (deadline_after start poll.timeout).deadline_ms)
  unfolding run_http
  http-next start lease task params poll s t state after faithful polls is_poll h =
      elim (Option-cases (client.method params.method)) [
        | inl none_ ↦ absurd (let g = rw (run_http, none_) at h in ground arith)
        | inr (method, some_) ↦
            let request = method ++ (b' ' ∷ params.url) in
            end_run-next start task request poll (client.send method params lease s) state after t
              faithful is_poll
              (subst
                (λ p.
                  end_run client task p request (client.send method params lease s)
                  ≡ (Done.ok (Outcome.next state after), t))
                polls (rw (run_http, some_) at h))
      ]
