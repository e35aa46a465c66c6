-- ===== src/Dispatch/Mapped.antt =====
-- `run_mapped` of swale/src/dispatch.rs: one step of the task instance of a mapped node.
pub mod Polls
pub mod Ends
use swale.Base.{
  ℕ, zero, suc, ◌+◌, Bool, true, false, Option, none, some, List, [], ◌∷◌, ◌++◌, Text, insert,
  codes, show, ltb, if◌then◌else◌,
}
use swale.Base.Calls.{Call, Done, ◌>>=◌, return, or_panic, or_fail, map_err, caught}
use swale.Base.Results.{Result, ok, err}
use swale.Data.{Json, JsonItems}
use swale.Dispatch.{
  Dispatch, Runtime, RuntimeError, step_error, GroupMember, GroupStatus, RunOptions, MemberResult,
  StepOutcome, Phase, member_poll_delay, next_polls,
}
use swale.Dispatch.Members.{NoOutputs, member_outputs}
use swale.Dispatch.Messages.{items_message}
use swale.Hook.{header_group}
use swale.Input.{TaskInput}
use swale.Input.Params.{ItemsError, member, rendered_items}
use swale.Operator.{Step, StepError, permanent_error, permanently, lift}
use swale.Task.{TaskIdentity, headers, group_id}

-- `GROUP_REPLACED` and `TASK_INSTANCE_CANCELLED`
abbrev pub group_replaced : Text
group_replaced = codes "the members of the node changed"

abbrev pub task_instance_cancelled : Text
task_instance_cancelled = codes "the task instance is cancelled"

module _ {S : Type 0} (runtime : Runtime S) (dispatch : Dispatch S) where
  unfoldable pub pool_runtime : Option Text → Bool
  pool_runtime none = false
  pool_runtime (some name) = runtime.has_runtime name

  -- `Dispatch::group`: the id of the group of the members
  unfoldable pub group_of : TaskIdentity → Call StepError S Text
  unfolding pool_runtime
  group_of identity =
      if pool_runtime dispatch.pool
      then or_panic (group_id runtime.new_run_id identity.graph identity.partition identity.node)
      else lift (err (permanent_error (codes "a mapped node runs on the runtime of a pool")))

  -- the phase of the state of the input
  unfoldable pub phase_of : Option Json → Result StepError Phase
  phase_of none = ok (Phase.submit 0)
  phase_of (some state) =
      permanently (codes "the state is not a phase of a mapped node: ")
        (runtime.phases.from_value state)

  -- the closure `next`
  unfoldable pub next_phase : TaskInput → Phase → ℕ → StepOutcome
  next_phase input phase after =
      StepOutcome.continue_after
        (runtime.to_bytes (record input { state = some (runtime.phases.to_value phase) })) after

  -- the members of the items, from a position
  unfoldable pub members_from : TaskInput → ℕ → JsonItems → List GroupMember
  members_from input i JsonItems.nil = []
  members_from input i (JsonItems.cons item items) =
      record { key = show i; input = runtime.to_bytes (member input item) }
      ∷ members_from input (suc i) items

  unfoldable pub submit_delay : List GroupMember → ℕ
  submit_delay [] = 0
  submit_delay (_ ∷ _) = member_poll_delay dispatch 0

  -- the members of a task instance that is cancelled are cancelled
  unfoldable pub cancel_if_cancelled : Text → Call StepError S Unit
  cancel_if_cancelled group s =
      if runtime.is_cancelled s
      then map_err step_error (runtime.cancel group task_instance_cancelled) s
      else (Done.ok tt, s)

  -- the end of the phase `submit`: the members are submitted
  unfoldable pub submitted : TaskInput → Text → List GroupMember → Call StepError S StepOutcome
  unfolding submit_delay
  submitted input group members = do
    _ ← cancel_if_cancelled group
    return (next_phase input (Phase.poll 0) (submit_delay members))

  -- the group has the members of an earlier task instance of the node
  unfoldable pub replace_group :
      TaskInput
      → Text
      → List GroupMember
      → RunOptions
      → ℕ
      → GroupStatus
      → Call StepError S StepOutcome
  unfolding submitted
  replace_group input group members options polls status = elim status.pending [
    | suc _ ↦ do
      _ ← map_err step_error (runtime.cancel group group_replaced)
      return (
          next_phase input (Phase.submit (next_polls polls))
            (member_poll_delay dispatch (next_polls polls)))
    | zero ↦ do
      _ ← map_err step_error (runtime.forget group)
      _ ← map_err step_error (runtime.submit group members options)
      submitted input group members
  ]

  unfoldable pub after_submit :
      TaskInput
      → Text
      → List GroupMember
      → RunOptions
      → ℕ
      → Result RuntimeError Unit
      → Call StepError S StepOutcome
  unfolding replace_group
  after_submit input group members options polls (ok _) = submitted input group members
  after_submit input group members options polls (err (RuntimeError.group_mismatch _ _)) = do
    status ← map_err step_error (runtime.status group)
    replace_group input group members options polls status
  after_submit input group members options polls (err (RuntimeError.group_not_found m p)) =
      lift (err (step_error (RuntimeError.group_not_found m p)))
  after_submit input group members options polls (err (RuntimeError.other m p)) =
      lift (err (step_error (RuntimeError.other m p)))

  -- the phase `submit` with its items
  unfoldable pub submit_items :
      Step
      → TaskInput
      → TaskIdentity
      → Text
      → ℕ
      → Result ItemsError JsonItems
      → Call StepError S StepOutcome
  unfolding after_submit
  submit_items step input identity group polls (err e) = return (StepOutcome.fail (items_message e))
  submit_items step input identity group polls (ok items) =
      let members = members_from input 0 items in
      let options : RunOptions = record {
        headers = insert header_group group (headers identity);
        max_attempts_per_step = some step.max_attempts;
      } in
      (caught (runtime.submit group members options) >>= λ result.
      after_submit input group members options polls result)

  unfoldable pub submit_phase :
      Step → TaskInput → TaskIdentity → Text → ℕ → Call StepError S StepOutcome
  unfolding submit_items
  submit_phase step input identity group polls = do
    items ← or_panic (
        rendered_items runtime.to_text runtime.from_str runtime.new_run_id input identity
          dispatch.env)
    submit_items step input identity group polls items

  -- the result of the phase `poll` from the results of the members
  unfoldable pub poll_results :
      TaskInput → Text → Result NoOutputs Json → Call StepError S StepOutcome
  poll_results input group (ok output) = return (next_phase input (Phase.finish output) 0)
  poll_results input group (err (NoOutputs.failed reason)) = return (StepOutcome.fail reason)
  poll_results input group (err NoOutputs.result_removed) = do
    _ ← map_err step_error (runtime.forget group)
    return (next_phase input (Phase.submit 0) 0)

  unfoldable pub read_results : TaskInput → Text → Call StepError S StepOutcome
  unfolding poll_results
  read_results input group = do
    results ← map_err step_error (runtime.results group)
    poll_results input group (member_outputs runtime.from_str results)

  -- the phase `poll` with the status of the group
  unfoldable pub poll_status :
      TaskInput → Text → ℕ → Result RuntimeError GroupStatus → Call StepError S StepOutcome
  unfolding read_results
  poll_status input group polls (err (RuntimeError.group_not_found _ _)) =
      return (next_phase input (Phase.submit 0) 0)
  poll_status input group polls (err (RuntimeError.group_mismatch m p)) =
      lift (err (step_error (RuntimeError.group_mismatch m p)))
  poll_status input group polls (err (RuntimeError.other m p)) =
      lift (err (step_error (RuntimeError.other m p)))
  poll_status input group polls (ok status) =
      if ltb (status.succeeded + status.failed + status.cancelled) status.total
      then return (
          next_phase input (Phase.poll (next_polls polls))
            (member_poll_delay dispatch (next_polls polls)))
      else read_results input group

  unfoldable pub read_status : TaskInput → Text → ℕ → Call StepError S StepOutcome
  unfolding poll_status
  read_status input group polls = do
    status ← caught (runtime.status group)
    poll_status input group polls status

  unfoldable pub poll_phase : TaskInput → Text → ℕ → Call StepError S StepOutcome
  unfolding read_status
  poll_phase input group polls = do _ ← cancel_if_cancelled group; read_status input group polls

  unfoldable pub finish_phase : Text → Json → Call StepError S StepOutcome
  finish_phase group output = do
    _ ← map_err step_error (runtime.forget group)
    return (StepOutcome.succeed (runtime.to_text output))

  unfoldable pub run_phase :
      Step → TaskInput → TaskIdentity → Text → Phase → Call StepError S StepOutcome
  unfolding submit_phase poll_phase finish_phase
  run_phase step input identity group (Phase.submit polls) =
      submit_phase step input identity group polls
  run_phase step input identity group (Phase.poll polls) = poll_phase input group polls
  run_phase step input identity group (Phase.finish output) = finish_phase group output

  unfoldable pub in_group : Step → TaskInput → TaskIdentity → Text → Call StepError S StepOutcome
  unfolding run_phase
  in_group step input identity group = do
    phase ← lift (phase_of input.state)
    run_phase step input identity group phase

  -- `Dispatch::run_mapped`
  unfoldable pub run_mapped : Step → TaskInput → TaskIdentity → Call StepError S StepOutcome
  unfolding group_of in_group
  run_mapped step input identity = do group ← group_of identity; in_group step input identity group
