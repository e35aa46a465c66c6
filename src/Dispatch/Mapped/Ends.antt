-- ===== src/Dispatch/Mapped/Ends.antt =====
-- How the task instance of a mapped node ends (swale/src/dispatch.rs, `run_mapped`).
use swale.Base.{
  arith, ◌≡◌, refl, ℕ, suc, zero, ◌⊎◌, inl, inr, Option, none, some, List, Text, insert,
  Option-cases, Bool-cases,
}
use swale.Base.Calls.{Done, Call, continue, continue-eq_ok, failed_as, caught, return, or_panic}
use swale.Base.Results.{Result, ok, err}
use swale.Data.{Json, JsonItems}
use swale.Dispatch.{
  Dispatch, Runtime, RuntimeError, StepOutcome, Phase, GroupStatus, GroupMember, RunOptions,
  step_error, member_poll_delay, next_polls,
}
use swale.Dispatch.Mapped.{
  group_of, pool_runtime, phase_of, next_phase, submit_phase, submit_items, after_submit,
  replace_group, submitted, members_from, finish_phase, run_phase, in_group, run_mapped,
  group_replaced,
}
use swale.Dispatch.Mapped.Polls.{
  MembersFailed, PollEnds, poll_phase-PollEnds, IsNext, return-IsNext, submitted-IsNext,
}
use swale.Dispatch.Messages.{items_message}
use swale.Hook.{header_group}
use swale.Input.{TaskInput}
use swale.Input.Params.{ItemsError, rendered_items}
use swale.Operator.{Step, StepError, lift, lift-eq_ok}
use swale.Task.{TaskIdentity, headers, group_id}

module _ {S : Type 0} (runtime : Runtime S) (dispatch : Dispatch S) where
  replace_group-IsNext :
      (input : TaskInput) (group : Text) (members : List GroupMember) (options : RunOptions)
      (polls : ℕ) (status : GroupStatus) (s t : S) (out : StepOutcome)
      → replace_group runtime dispatch input group members options polls status s ≡ (Done.ok out, t)
      → IsNext runtime dispatch out
  unfolding replace_group next_phase
  replace_group-IsNext input group members options polls status s t out h =
      by_pending status.pending refl
    where
      forgotten : Unit {0} → Call StepError S StepOutcome
      forgotten _ = λ v.
          continue (λ (_ : Unit). submitted runtime dispatch input group members)
            (failed_as step_error (runtime.submit group members options v))

      by_pending : (n : ℕ) → status.pending ≡ n → IsNext runtime dispatch out
      by_pending (suc n) e =
          let next =
            next_phase runtime dispatch input (Phase.submit (next_polls polls))
              (member_poll_delay dispatch (next_polls polls)) in
          let (_, u, _, h1) =
            continue-eq_ok (λ (_ : Unit). return next)
              (failed_as step_error (runtime.cancel group group_replaced s))
              (rw (replace_group, e) at h) in
          return-IsNext runtime dispatch _ _ u t out h1
      by_pending zero e =
          let (_, u, _, h1) =
            continue-eq_ok forgotten (failed_as step_error (runtime.forget group s))
              (rw (replace_group, e) at h) in
          let (_, v, _, h2) =
            continue-eq_ok (λ (_ : Unit). submitted runtime dispatch input group members)
              (failed_as step_error (runtime.submit group members options u)) h1 in
          submitted-IsNext runtime dispatch input group members v t out h2

  after_submit-IsNext :
      (input : TaskInput) (group : Text) (members : List GroupMember) (options : RunOptions)
      (polls : ℕ) (r : Result RuntimeError Unit) (s t : S) (out : StepOutcome)
      → after_submit runtime dispatch input group members options polls r s ≡ (Done.ok out, t)
      → IsNext runtime dispatch out
  unfolding after_submit
  after_submit-IsNext input group members options polls (ok _) s t out h =
      submitted-IsNext runtime dispatch input group members s t out h
  after_submit-IsNext input group members options polls (err (RuntimeError.group_not_found _ _)) s t
        out h =
      absurd (ground arith)
  after_submit-IsNext input group members options polls (err (RuntimeError.other _ _)) s t out h =
      absurd (ground arith)
  after_submit-IsNext input group members options polls (err (RuntimeError.group_mismatch _ _)) s t
        out h =
      let (status, u, _, h1) =
        continue-eq_ok (replace_group runtime dispatch input group members options polls)
          (failed_as step_error (runtime.status group s)) h in
      replace_group-IsNext input group members options polls status u t out h1

  -- what the outcome of a step of the task instance comes from
  abbrev pub Ends : TaskInput → TaskIdentity → StepOutcome → Type 0
  Ends input identity (StepOutcome.continue_after payload after) = Unit
  Ends input identity (StepOutcome.succeed value) =
      (output : Json) × (phase_of runtime dispatch input.state ≡ ok (Phase.finish output))
      × (value ≡ runtime.to_text output)
  Ends input identity (StepOutcome.fail reason) =
      ((e : ItemsError) × (rendered_items runtime.to_text runtime.from_str runtime.new_run_id input
            identity dispatch.env
          ≡ some (err e))
        × (reason ≡ items_message e))
      ⊎ ((group : Text) × (group_id runtime.new_run_id identity.graph identity.partition
              identity.node
            ≡ some group)
          × MembersFailed runtime dispatch group reason)

  IsNext-Ends :
      (input : TaskInput) (identity : TaskIdentity) (out : StepOutcome)
      → IsNext runtime dispatch out
      → Ends input identity out
  IsNext-Ends input identity (StepOutcome.continue_after p a) h = tt
  IsNext-Ends input identity (StepOutcome.succeed v) h = absurd h
  IsNext-Ends input identity (StepOutcome.fail v) h = absurd h

  submit_items-Ends :
      (step : Step) (input : TaskInput) (identity : TaskIdentity) (group : Text) (polls : ℕ)
      (r : Result ItemsError JsonItems) (s t : S) (out : StepOutcome)
      → rendered_items runtime.to_text runtime.from_str runtime.new_run_id input identity
          dispatch.env
        ≡ some r
      → submit_items runtime dispatch step input identity group polls r s ≡ (Done.ok out, t)
      → Ends input identity out
  unfolding submit_items
  submit_items-Ends step input identity group polls (err e) s t (StepOutcome.continue_after p a) eq
        h =
      tt
  submit_items-Ends step input identity group polls (err e) s t (StepOutcome.succeed v) eq h =
      absurd (ground arith)
  submit_items-Ends step input identity group polls (err e) s t (StepOutcome.fail v) eq h =
      inl (e, eq, ground arith)
  submit_items-Ends step input identity group polls (ok items) s t out eq h =
      let members = members_from runtime dispatch input 0 items in
      let options : RunOptions = record {
        headers = insert header_group group (headers identity);
        max_attempts_per_step = some step.max_attempts;
      } in
      let (r, u, _, h1) =
        continue-eq_ok (after_submit runtime dispatch input group members options polls)
          (caught (runtime.submit group members options) s) h in
      IsNext-Ends input identity out
        (after_submit-IsNext input group members options polls r u t out h1)

  submit_phase-Ends :
      (step : Step) (input : TaskInput) (identity : TaskIdentity) (group : Text) (polls : ℕ)
      (s t : S) (out : StepOutcome)
      → submit_phase runtime dispatch step input identity group polls s ≡ (Done.ok out, t)
      → Ends input identity out
  unfolding submit_phase
  submit_phase-Ends step input identity group polls s t out h =
      elim (Option-cases (
        rendered_items runtime.to_text runtime.from_str runtime.new_run_id input identity
          dispatch.env)) [
            | inl none_ ↦ absurd (let g = rw (submit_phase, none_) at h in ground arith)
            | inr (r, some_) ↦
                submit_items-Ends step input identity group polls r s t out some_
                  (rw (submit_phase, some_) at h)
          ]

  finish_phase-Ends :
      (input : TaskInput) (identity : TaskIdentity) (group : Text) (output : Json) (s t : S)
      (out : StepOutcome)
      → phase_of runtime dispatch input.state ≡ ok (Phase.finish output)
      → finish_phase runtime dispatch group output s ≡ (Done.ok out, t)
      → Ends input identity out
  unfolding finish_phase
  finish_phase-Ends input identity group output s t out e h =
      let end = StepOutcome.succeed (runtime.to_text output) in
      let (_, u, _, h1) =
        continue-eq_ok (λ (_ : Unit). return end) (failed_as step_error (runtime.forget group s))
          h in
      ended out h1
    where
      ended :
          (o : StepOutcome) {u : S}
          → ◌≡◌ {A = Done StepError StepOutcome × S}
              (return (StepOutcome.succeed (runtime.to_text output)) u)
              (Done.ok o, t)
          → Ends input identity o
      ended (StepOutcome.continue_after p a) g = tt
      ended (StepOutcome.fail v) g = absurd (ground arith)
      ended (StepOutcome.succeed v) g = (output, e, ground arith)

  run_phase-Ends :
      (step : Step) (input : TaskInput) (identity : TaskIdentity) (group : Text) (phase : Phase)
      (s t : S) (out : StepOutcome)
      → group_id runtime.new_run_id identity.graph identity.partition identity.node ≡ some group
      → phase_of runtime dispatch input.state ≡ ok phase
      → run_phase runtime dispatch step input identity group phase s ≡ (Done.ok out, t)
      → Ends input identity out
  unfolding run_phase
  run_phase-Ends step input identity group (Phase.submit polls) s t out g e h =
      submit_phase-Ends step input identity group polls s t out h
  run_phase-Ends step input identity group (Phase.poll polls) s t out g e h =
      polled out (poll_phase-PollEnds runtime dispatch input group polls s t out h)
    where
      polled : (o : StepOutcome) → PollEnds runtime dispatch group o → Ends input identity o
      polled (StepOutcome.continue_after p a) f = tt
      polled (StepOutcome.succeed v) f = absurd f
      polled (StepOutcome.fail v) f = inr (group, g, f)
  run_phase-Ends step input identity group (Phase.finish output) s t out g e h =
      finish_phase-Ends input identity group output s t out e h

  or_panic-eq_ok :
      (o : Option Text) (s : S) {group : Text} {t : S}
      → or_panic {E = StepError} o s ≡ (Done.ok group, t)
      → o ≡ some group
  or_panic-eq_ok none s h = absurd (ground arith)
  or_panic-eq_ok (some g) s h = ground arith

  group_of-eq_ok :
      (identity : TaskIdentity) (group : Text) (s t : S)
      → group_of runtime dispatch identity s ≡ (Done.ok group, t)
      → group_id runtime.new_run_id identity.graph identity.partition identity.node ≡ some group
  unfolding group_of
  group_of-eq_ok identity group s t h =
      elim (Bool-cases (pool_runtime runtime dispatch dispatch.pool)) [
        | inl here ↦
            or_panic-eq_ok
              (group_id runtime.new_run_id identity.graph identity.partition identity.node) s
              (rw (group_of, here) at h)
        | inr absent ↦ absurd (let g = rw (group_of, absent) at h in ground arith)
      ]

  -- A step of the task instance of a mapped node succeeds only with the output of its state, a
  -- phase `finish`. It fails only with an error of the items, or when the status of its group counts
  -- every member as terminated and the outputs of the members give the failure.
  pub run_mapped-Ends :
      (step : Step) (input : TaskInput) (identity : TaskIdentity) (s t : S) (out : StepOutcome)
      → run_mapped runtime dispatch step input identity s ≡ (Done.ok out, t)
      → Ends input identity out
  unfolding run_mapped in_group
  run_mapped-Ends step input identity s t out h =
      let (group, u, grouped, h1) =
        continue-eq_ok (in_group runtime dispatch step input identity)
          (group_of runtime dispatch identity s) h in
      let (phase, v, e, h2) =
        continue-eq_ok (run_phase runtime dispatch step input identity group)
          (lift (phase_of runtime dispatch input.state) u) h1 in
      run_phase-Ends step input identity group phase v t out
        (group_of-eq_ok identity group s u grouped)
        (lift-eq_ok (phase_of runtime dispatch input.state) e).0 h2
