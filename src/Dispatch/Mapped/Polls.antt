-- ===== src/Dispatch/Mapped/Polls.antt =====
-- The phase `poll` of the task instance of a mapped node (swale/src/dispatch.rs, `run_mapped`).
use swale.Base.{arith, ◌≡◌, refl, ℕ, ◌+◌, ◌≤◌, inl, inr, List, Text, ltb, Bool-cases}
use swale.Base.Calls.{
  Done, continue-eq_ok, failed_as, failed_as-eq_ok, as_result-eq_ok, caught, return,
}
use swale.Base.Results.{Result, ok, err}
use swale.Data.{Json}
use swale.Dispatch.{
  Dispatch, Runtime, RuntimeError, StepOutcome, Phase, GroupStatus, GroupMember, MemberResult,
  step_error, member_poll_delay, next_polls,
}
use swale.Dispatch.Mapped.{
  next_phase, submit_delay, cancel_if_cancelled, submitted, read_results, poll_results, poll_status,
  read_status, poll_phase,
}
use swale.Dispatch.Members.{NoOutputs, member_outputs}
use swale.Input.{TaskInput}
use swale.Operator.{StepError}

module _ {S : Type 0} (runtime : Runtime S) (dispatch : Dispatch S) where
  -- Every member of the group has terminated, and the outputs fail with the reason.
  abbrev pub MembersFailed : Text → Text → Type 0
  MembersFailed group reason =
      (status : GroupStatus) × (results : List MemberResult) × (s : S) × (t : S) × (u : S)
      × (runtime.status group s ≡ (Done.ok status, t))
      × (status.total ≤ status.succeeded + status.failed + status.cancelled)
      × (runtime.results group t ≡ (Done.ok results, u))
      × (member_outputs runtime.from_str results ≡ err (NoOutputs.failed reason))

  -- an outcome that follows from the outputs of the members
  abbrev Follows : Result NoOutputs Json → StepOutcome → Type 0
  Follows r (StepOutcome.succeed value) = ⊥
  Follows r (StepOutcome.fail reason) = r ≡ err (NoOutputs.failed reason)
  Follows r (StepOutcome.continue_after payload after) = Unit

  removed-Follows :
      (input : TaskInput) (group : Text) (s t : S) (out : StepOutcome)
      → poll_results runtime dispatch input group (err NoOutputs.result_removed) s
        ≡ (Done.ok out, t)
      → Follows (err NoOutputs.result_removed) out
  unfolding poll_results next_phase
  removed-Follows input group s t (StepOutcome.continue_after p a) h = tt
  removed-Follows input group s t (StepOutcome.succeed r) h =
      let next = next_phase runtime dispatch input (Phase.submit 0) 0 in
      let (_, _, _, h1) =
        continue-eq_ok (λ (_ : Unit). return next) (failed_as step_error (runtime.forget group s))
          h in
      ground arith
  removed-Follows input group s t (StepOutcome.fail reason) h =
      let next = next_phase runtime dispatch input (Phase.submit 0) 0 in
      let (_, _, _, h1) =
        continue-eq_ok (λ (_ : Unit). return next) (failed_as step_error (runtime.forget group s))
          h in
      absurd (ground arith)

  poll_results-Follows :
      (input : TaskInput) (group : Text) (r : Result NoOutputs Json) (s t : S) (out : StepOutcome)
      → poll_results runtime dispatch input group r s ≡ (Done.ok out, t)
      → Follows r out
  unfolding poll_results next_phase
  poll_results-Follows input group (err NoOutputs.result_removed) s t out h =
      removed-Follows input group s t out h
  poll_results-Follows input group r s t (StepOutcome.continue_after p a) h = tt
  poll_results-Follows input group (ok output) s t (StepOutcome.succeed v) h = ground arith
  poll_results-Follows input group (ok output) s t (StepOutcome.fail reason) h =
      absurd (ground arith)
  poll_results-Follows input group (err (NoOutputs.failed x)) s t (StepOutcome.succeed v) h =
      ground arith
  poll_results-Follows input group (err (NoOutputs.failed x)) s t (StepOutcome.fail reason) h =
      let same : x ≡ reason = ground arith in rw same refl

  -- what an outcome of the phase `poll` comes from
  abbrev pub PollEnds : Text → StepOutcome → Type 0
  PollEnds group (StepOutcome.succeed r) = ⊥
  PollEnds group (StepOutcome.fail reason) = MembersFailed group reason
  PollEnds group (StepOutcome.continue_after payload after) = Unit

  read_results-PollEnds :
      (input : TaskInput) (group : Text) (status : GroupStatus) (s t w : S) (out : StepOutcome)
      → runtime.status group s ≡ (Done.ok status, t)
      → status.total ≤ status.succeeded + status.failed + status.cancelled
      → read_results runtime dispatch input group t ≡ (Done.ok out, w)
      → PollEnds group out
  unfolding read_results
  read_results-PollEnds input group status s t w out e le h =
      let (results, u, read, h1) =
        continue-eq_ok
          (λ rs. poll_results runtime dispatch input group (member_outputs runtime.from_str rs))
          (failed_as step_error (runtime.results group t)) h in
      let follows =
        poll_results-Follows input group (member_outputs runtime.from_str results) u w out h1 in
      ends out results u (failed_as-eq_ok step_error (runtime.results group t) read) follows
    where
      ends :
          (o : StepOutcome) (results : List MemberResult) (u : S)
          → runtime.results group t ≡ (Done.ok results, u)
          → Follows (member_outputs runtime.from_str results) o
          → PollEnds group o
      ends (StepOutcome.continue_after p a) results u read f = tt
      ends (StepOutcome.succeed v) results u read f = f
      ends (StepOutcome.fail reason) results u read f = (status, results, s, t, u, e, le, read, f)

  poll_status-PollEnds :
      (input : TaskInput) (group : Text) (polls : ℕ) (r : Result RuntimeError GroupStatus)
      (s t w : S) (out : StepOutcome)
      → caught {F = StepError} (runtime.status group) s ≡ (Done.ok r, t)
      → poll_status runtime dispatch input group polls r t ≡ (Done.ok out, w)
      → PollEnds group out
  unfolding poll_status next_phase
  poll_status-PollEnds input group polls r s t w (StepOutcome.continue_after p a) e h = tt
  poll_status-PollEnds input group polls (err (RuntimeError.group_not_found _ _)) s t w
        (StepOutcome.succeed v) e h =
      ground arith
  poll_status-PollEnds input group polls (err (RuntimeError.group_not_found _ _)) s t w
        (StepOutcome.fail v) e h =
      absurd (ground arith)
  poll_status-PollEnds input group polls (err (RuntimeError.group_mismatch _ _)) s t w out e h =
      absurd (ground arith)
  poll_status-PollEnds input group polls (err (RuntimeError.other _ _)) s t w out e h =
      absurd (ground arith)
  poll_status-PollEnds input group polls (ok status) s t w out e h =
      elim (Bool-cases (ltb (status.succeeded + status.failed + status.cancelled) status.total)) [
        | inr done ↦
            read_results-PollEnds input group status s t w out
              (as_result-eq_ok (runtime.status group s) e) (ground arith)
              (rw (poll_status, done) at h)
        | inl open_ ↦ waits out (rw (poll_status, open_) at h)
      ]
    where
      waits :
          (o : StepOutcome)
          → ◌≡◌ {A = Done StepError StepOutcome × S}
              (return
                (next_phase runtime dispatch input
                  (Phase.poll (next_polls polls))
                  (member_poll_delay dispatch (next_polls polls)))
                t)
              (Done.ok o, w)
          → PollEnds group o
      waits (StepOutcome.continue_after p a) g = tt
      waits (StepOutcome.succeed v) g = ground arith
      waits (StepOutcome.fail v) g = absurd (ground arith)

  pub poll_phase-PollEnds :
      (input : TaskInput) (group : Text) (polls : ℕ) (s t : S) (out : StepOutcome)
      → poll_phase runtime dispatch input group polls s ≡ (Done.ok out, t)
      → PollEnds group out
  unfolding poll_phase read_status
  poll_phase-PollEnds input group polls s t out h =
      let (_, u, _, h1) =
        continue-eq_ok (λ _. read_status runtime dispatch input group polls)
          (cancel_if_cancelled runtime dispatch group s) h in
      let (r, v, e, h2) =
        continue-eq_ok (poll_status runtime dispatch input group polls)
          (caught (runtime.status group) u) h1 in
      poll_status-PollEnds input group polls r u v t out e h2

  abbrev pub IsNext : StepOutcome → Type 0
  IsNext (StepOutcome.succeed r) = ⊥
  IsNext (StepOutcome.fail reason) = ⊥
  IsNext (StepOutcome.continue_after payload after) = Unit

  pub return-IsNext :
      (payload : Text) (after : ℕ) (s t : S) (out : StepOutcome)
      → ◌≡◌ {A = Done StepError StepOutcome × S}
          (return (StepOutcome.continue_after payload after) s)
          (Done.ok out, t)
      → IsNext out
  return-IsNext payload after s t (StepOutcome.continue_after p a) h = tt
  return-IsNext payload after s t (StepOutcome.succeed v) h = ground arith
  return-IsNext payload after s t (StepOutcome.fail v) h = ground arith

  pub submitted-IsNext :
      (input : TaskInput) (group : Text) (members : List GroupMember) (s t : S) (out : StepOutcome)
      → submitted runtime dispatch input group members s ≡ (Done.ok out, t)
      → IsNext out
  unfolding submitted next_phase
  submitted-IsNext input group members s t out h =
      let next =
        next_phase runtime dispatch input (Phase.poll 0) (submit_delay runtime dispatch members) in
      let (_, u, _, h1) =
        continue-eq_ok (λ (_ : Unit). return next) (cancel_if_cancelled runtime dispatch group s)
          h in
      return-IsNext _ _ u t out h1
