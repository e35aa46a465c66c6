-- ===== src/Operator/Waits.antt =====
-- Waits as sequences of polls (swale/src/operator/http.rs and object_exists.rs).
use swale.Base.{
  arith, ◌≡◌, refl, sym, subst, ℕ, zero, suc, ◌+◌, ◌/◌, ◌≤◌, ◌<◌, ◌⊎◌, inl, inr, none, some,
}
use swale.Base.Calls.{Done}
use swale.Data.{Json}
use swale.Operator.{Task, Outcome, Lease, Deadline, JsonForm, IsFaithful, saturate}
use swale.Operator.Deadlines.{IsPoll, deadline_after, object_exists-next, http-next}
use swale.Operator.Http.{Client, HttpParams, Poll, run_http}
use swale.Operator.ObjectExists.{Objects, World, ObjectExistsParams, run_object_exists}

module _ {S Url Store ObjectPath : Type 0} (client : Client S)
    (objects : Objects S Url Store ObjectPath) (timeout : ℕ) where
  -- A poll of `http` or of `object_exists` with this timeout asks for a next step with a state.
  abbrev pub Continues : Task → Json → Type 0
  Continues task state =
      ((lease : Lease) × (params : HttpParams) × (poll : Poll) × (s : S) × (t : S) × (after : ℕ)
        × (params.poll ≡ some poll)
        × (poll.timeout ≡ timeout)
        × (run_http client lease task params s ≡ (Done.ok (Outcome.next state after), t)))
      ⊎ ((params : ObjectExistsParams) × (v : World objects) × (w : World objects) × (after : ℕ)
          × (params.timeout ≡ timeout)
          × (run_object_exists objects task params v ≡ (Done.ok (Outcome.next state after), w)))

  -- A wait: each poll has the state of the one before it, at a later time.
  pub data Wait (first : Task) : ℕ → Task → Type 0 where
    start : Wait first 0 first
    again :
        {n : ℕ} {task later : Task} {state : Json}
        → Wait first n task
        → Continues task state
        → later.state ≡ some state
        → task.now_ms < later.now_ms
        → Wait first (suc n) later

  module _ (faithful : IsFaithful objects.deadlines)
      (same : client.deadlines ≡ objects.deadlines) where
    abbrev Kept : ℕ → Task → Json → JsonForm Deadline → Type 0
    Kept start_ms task state form =
        (state ≡ form.to_value (deadline_after start_ms timeout))
        × (task.now_ms < (deadline_after start_ms timeout).deadline_ms)

    Continues-IsPoll :
        (start_ms : ℕ) (task : Task) (state : Json)
        → IsPoll objects.deadlines start_ms timeout task
        → Continues task state
        → Kept start_ms task state objects.deadlines
    Continues-IsPoll start_ms task state poll (inl (lease, params, p, s, t, after, polls, e, run)) =
        let faithful' = subst (λ f. IsFaithful f) (sym same) faithful in
        let poll' : IsPoll client.deadlines start_ms p.timeout task =
          subst (λ d. IsPoll client.deadlines start_ms d task) (sym e)
            (subst (λ f. IsPoll f start_ms timeout task) (sym same) poll) in
        let kept =
          http-next client start_ms lease task params p s t state after faithful' polls poll' run in
        subst (Kept start_ms task state) same (
          subst
            (λ d.
              (state ≡ client.deadlines.to_value (deadline_after start_ms d))
              × (task.now_ms < (deadline_after start_ms d).deadline_ms))
            e kept)
    Continues-IsPoll start_ms task state poll (inr (params, v, w, after, e, run)) =
        let poll' : IsPoll objects.deadlines start_ms params.timeout task =
          subst (λ d. IsPoll objects.deadlines start_ms d task) (sym e) poll in
        let kept =
          object_exists-next objects start_ms task params v w state after faithful poll' run in
        subst
          (λ d.
            (state ≡ objects.deadlines.to_value (deadline_after start_ms d))
            × (task.now_ms < (deadline_after start_ms d).deadline_ms))
          e kept

    Wait-IsPoll :
        (first : Task) (n : ℕ) (task : Task)
        → first.state ≡ none
        → Wait first n task
        → IsPoll objects.deadlines first.now_ms timeout task × (first.now_ms + n ≤ task.now_ms)
    Wait-IsPoll first zero _ fresh Wait.start = (inl (fresh, refl), omega arith)
    Wait-IsPoll first (suc n) later fresh
          (Wait.again {task} {state} before continues passed_on after) =
        let (poll, le) = Wait-IsPoll first n task fresh before in
        let (kept, _) = Continues-IsPoll first.now_ms task state poll continues in
        (inr (subst (λ v. later.state ≡ some v) kept passed_on), omega arith)

    saturate-le : (n : ℕ) → saturate n ≤ n
    saturate-le n = ground arith

    -- A wait of `http` or `object_exists` that starts without a state makes at most as many further
    -- polls as its timeout has milliseconds, when each poll is at a later time than the one before
    -- it and the JSON form of a deadline is read back.
    pub polling_ends :
        (first : Task) (n : ℕ) (task : Task)
        → first.state ≡ none
        → Wait first n task
        → n ≤ timeout / 1000000
    polling_ends first zero _ fresh Wait.start = omega arith
    polling_ends first (suc n) later fresh
          (Wait.again {task} {state} before continues passed_on after) =
        let (poll, le) = Wait-IsPoll first n task fresh before in
        let (_, lt) = Continues-IsPoll first.now_ms task state poll continues in
        let a = saturate-le (first.now_ms + saturate (timeout / 1000000)) in
        let b = saturate-le (timeout / 1000000) in omega arith
