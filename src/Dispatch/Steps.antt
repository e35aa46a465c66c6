-- ===== src/Dispatch/Steps.antt =====
-- `run_step` of swale/src/dispatch.rs: one step of a task instance.
use swale.Base.{none, some, ◌++◌, codes}
use swale.Base.Calls.{Call, ◌>>=◌, return, or_panic}
use swale.Base.Results.{Result, ok, err}
use swale.Data.{Json}
use swale.Dispatch.{Dispatch, Runtime, StepOutcome}
use swale.Dispatch.Mapped.{run_mapped}
use swale.Dispatch.Messages.{render_message, identity_message}
use swale.Input.{TaskInput}
use swale.Input.Params.{rendered_params}
use swale.Operator.{
  Step, StepError, Task, Outcome, permanent_error, permanently, lift, run_operator,
}
use swale.Task.{TaskIdentity, IdentityError, from_headers}
use swale.Template.Render.{RenderError}

module _ {S : Type 0} (runtime : Runtime S) (dispatch : Dispatch S) where
  identified : Result IdentityError TaskIdentity → Result StepError TaskIdentity
  unfolding identity_message
  identified (ok identity) = ok identity
  identified (err e) =
      err (permanent_error (codes "the headers do not identify a task: " ++ identity_message e))

  -- the outcome of the operator as the outcome of the step
  unfoldable pub step_outcome : TaskInput → Outcome → StepOutcome
  step_outcome input (Outcome.succeeded value) = StepOutcome.succeed (runtime.to_text value)
  step_outcome input (Outcome.failed reason) = StepOutcome.fail reason
  step_outcome input (Outcome.next state after) =
      StepOutcome.continue_after (runtime.to_bytes (record input { state = some state })) after

  -- the operator with the rendered parameters
  unfoldable pub run_rendered :
      Step → TaskInput → TaskIdentity → Result RenderError Json → Call StepError S StepOutcome
  unfolding step_outcome
  run_rendered step input identity (err e) = return (StepOutcome.fail (render_message e))
  run_rendered step input identity (ok params) = do
    let task : Task = record {
      step = step;
      identity = identity;
      params = params;
      inputs = input.inputs;
      state = input.state;
      now_ms = runtime.now_ms;
    }
    outcome ← run_operator dispatch.operators input.operator task params
    return (step_outcome input outcome)

  unfoldable pub run_single : Step → TaskInput → TaskIdentity → Call StepError S StepOutcome
  unfolding run_rendered
  run_single step input identity = do
    params ←
        or_panic (rendered_params runtime.to_text runtime.new_run_id input identity dispatch.env)
    run_rendered step input identity params

  -- a mapped node, or the operator of any other run
  unfoldable pub run_input : Step → TaskInput → TaskIdentity → Call StepError S StepOutcome
  unfolding run_single
  run_input step input identity = elim input.each [
    | some _ ↦ run_mapped runtime dispatch step input identity
    | none ↦ run_single step input identity
  ]

  -- `Dispatch::run_step`
  unfoldable pub run_step : Step → Call StepError S StepOutcome
  unfolding identified run_input
  run_step step = do
    input ←
        lift (
          permanently (codes "the payload is not a task input: ") (runtime.from_bytes step.payload))
    identity ← lift (identified (from_headers step.headers))
    run_input step input identity
