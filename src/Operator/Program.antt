-- ===== src/Operator/Program.antt =====
-- swale/src/operator/subprocess.rs and shell.rs: the operators that run a program. The process and
-- the parser of JSON are parameters. An exit code is that of a Unix process.
pub mod Kinds
use swale.Base.{
  ℕ, Bool, true, false, Option, none, some, List, [], ◌∷◌, ◌++◌, Text, Map, codes, show, ◌==◌,
  if◌then◌else◌,
}
use swale.Base.Calls.{Call, Done, ◌>>=◌, return, fail, or_panic, map_err, ignored}
use swale.Base.Results.{Result, ok, err}
use swale.Data.{Json, JsonFields}
use swale.Graph.{is_empty}
use swale.Operator.{
  StepError, permanent_error, transient_error, Task, Outcome, Lease, permanently, lift,
}
use swale.Operator.Texts.{tail, debug_duration, trim_ascii}
use swale.Task.{run_id}

-- `EX_TEMPFAIL`
abbrev pub ex_tempfail : ℕ
ex_tempfail = 75

-- `tokio::process::Command`, without the redirections that `run_program` adds
pub record Command : Type 0 where
  pub program : Text
  pub args : List Text
  pub env : List (Text × Text)

-- the branch of the `select!` that is taken: the end of the program, with the code or after a
-- signal, the failure of `keep_lease`, the cancel of the run or the timeout
pub data Waited : Type 0 where
  exited : Option ℕ → Waited
  lease_lost : StepError → Waited
  cancelled : Waited
  timed_out : Waited

-- what the operators call, over a state `S` of the world
pub record Programs (S : Type 0) : Type 0 where
  pub spawn : Command → Bool → Call Text S Unit
  pub write_all : Text → Call Text S Unit
  pub wait : Lease → Option ℕ → Call Text S Waited
  pub kill : Call Text S Unit
  -- the bytes of stdout and of stderr
  pub output : Call Text S (Text × Text)
  pub new_run_id : Text → Option Text
  pub from_slice : Text → Result Text Json
  pub to_text : Json → Text

abbrev pub duration_or_zero : Option ℕ → ℕ
duration_or_zero none = 0
duration_or_zero (some d) = d

quoted : Text → Text
quoted program = b'`' ∷ (program ++ codes "`")

-- the `Debug` text of the timeout
unfoldable pub timeout_text : Text → Option ℕ → Text
unfolding quoted
timeout_text program timeout =
    quoted program ++ (codes " did not exit within " ++ debug_duration (duration_or_zero timeout))

abbrev pub piped : Option Text → Bool
piped none = false
piped (some _) = true

module _ {S : Type 0} (programs : Programs S) where
  -- the output of the code 0
  unfoldable pub stdout_value : Text → Text → Result StepError Outcome
  unfolding quoted
  stdout_value program trimmed = elim (is_empty trimmed) [
    | true ↦ ok (Outcome.succeeded Json.null)
    | false ↦ elim (programs.from_slice trimmed) [
      | ok value ↦ ok (Outcome.succeeded value)
      | err e ↦ err (
          permanent_error (codes "stdout of " ++ (quoted program ++ (codes " is not JSON: " ++ e))))
    ]
  ]

  -- the exit code protocol
  unfoldable pub exit_outcome : Text → Text → Text → Option ℕ → Result StepError Outcome
  unfolding quoted stdout_value
  exit_outcome program out err_ none =
      err (permanent_error (quoted program ++ (codes " was terminated by a signal: " ++ tail err_)))
  exit_outcome program out err_ (some code) =
      if code == 0
      then stdout_value program (trim_ascii out)
      else if code == ex_tempfail
      then err (
          transient_error (
            quoted program
            ++ (codes " exited with " ++ (show ex_tempfail ++ (codes ": " ++ tail err_)))))
      else err (
          permanent_error
            (quoted program ++ (codes " exited with " ++ (show code ++ (codes ": " ++ tail err_)))))

  unfoldable pub write_stdin : Option Text → Call StepError S Unit
  write_stdin none = return tt
  write_stdin (some document) = ignored (programs.write_all document)

  -- the bytes of stdout and of stderr
  unfoldable pub collected : Text → Call StepError S (Text × Text)
  unfolding quoted
  collected program =
      map_err
        (λ e.
          permanent_error
            (codes "cannot read the output of " ++ (quoted program ++ (codes ": " ++ e))))
        programs.output

  unfoldable pub after_output : Text → Option ℕ → Text × Text → Call StepError S Outcome
  unfolding exit_outcome
  after_output program code (out, err_) = lift (exit_outcome program out err_ code)

  -- the branches of the `select!` and the end of `run_program`
  unfoldable pub after_wait : Text → Option ℕ → Waited → Call StepError S Outcome
  unfolding collected after_output timeout_text
  after_wait program timeout (Waited.lease_lost e) = fail e
  after_wait program timeout Waited.cancelled = do
    _ ← ignored programs.kill
    fail (transient_error (codes "the run was cancelled while the program ran"))
  after_wait program timeout Waited.timed_out = do
    _ ← ignored programs.kill
    fail (transient_error (timeout_text program timeout))
  after_wait program timeout (Waited.exited code) = do
    bytes ← collected program
    after_output program code bytes

  unfoldable pub waiting : Text → Lease → Option ℕ → Call StepError S Waited
  unfolding quoted
  waiting program lease timeout =
      map_err
        (λ e. permanent_error (codes "cannot wait for " ++ (quoted program ++ (codes ": " ++ e))))
        (programs.wait lease timeout)

  unfoldable pub after_write : Text → Option ℕ → Lease → Call StepError S Outcome
  unfolding waiting after_wait
  after_write program timeout lease = do
    waited ← waiting program lease timeout
    after_wait program timeout waited

  unfoldable pub spawned : Command → Option Text → Call StepError S Unit
  unfolding quoted
  spawned command stdin =
      map_err
        (λ e.
          permanent_error (codes "cannot start " ++ (quoted command.program ++ (codes ": " ++ e))))
        (programs.spawn command (piped stdin))

  unfoldable pub after_spawn : Command → Option Text → Option ℕ → Lease → Call StepError S Outcome
  unfolding write_stdin after_write
  after_spawn command stdin timeout lease = do
    _ ← write_stdin stdin
    after_write command.program timeout lease

  unfoldable pub after_id : Command → Option Text → Option ℕ → Lease → Call StepError S Outcome
  unfolding spawned after_spawn
  after_id command stdin timeout lease = do
    _ ← spawned command stdin
    after_spawn command stdin timeout lease

  -- `run_program`
  unfoldable pub run_program :
      Task → Command → Option Text → Option ℕ → Lease → Call StepError S Outcome
  unfolding after_id
  run_program task command stdin timeout lease = do
    _ ← or_panic (
        run_id programs.new_run_id task.identity.graph task.identity.partition task.identity.node
          task.identity.rerun)
    after_id command stdin timeout lease

  -- a map as a JSON object
  unfoldable pub object_of : Map Json → JsonFields
  object_of [] = JsonFields.end
  object_of ((k, v) ∷ m) = JsonFields.field k v (object_of m)

  -- `StdinDocument` as JSON, with its fields in their order
  unfoldable pub stdin_document : Task → Text → Text
  unfolding object_of
  stdin_document task id = programs.to_text (
      Json.object (
        JsonFields.field (codes "run_id") (Json.text id) (
          JsonFields.field (codes "graph") (Json.text task.identity.graph) (
            JsonFields.field (codes "partition") (Json.text task.identity.partition.key) (
              JsonFields.field (codes "node") (Json.text task.identity.node) (
                JsonFields.field (codes "attempt") (Json.number (show task.step.attempts)) (
                  JsonFields.field (codes "params") task.params (
                    JsonFields.field (codes "inputs") (Json.object (object_of task.inputs))
                      JsonFields.end))))))))

pub record SubprocessParams : Type 0 where
  pub argv : List Text
  pub timeout : Option ℕ

-- `non_empty_argv`, after the deserializer of the list
unfoldable pub non_empty_argv : List Text → Result Text (List Text)
non_empty_argv [] = err (codes "argv must not be empty")
non_empty_argv (program ∷ args) = ok (program ∷ args)

pub record ShellParams : Type 0 where
  pub command : Text
  pub env : Map Text
  pub timeout : Option ℕ

module _ {S : Type 0} (programs : Programs S) where
  -- the command of `argv`; `none` is the panic of an index out of range
  unfoldable pub argv_command : List Text → Option Command
  argv_command [] = none
  argv_command (program ∷ args) = some (record { program = program; args = args; env = [] })

  -- `Subprocess::run`
  unfoldable pub run_subprocess : Lease → Task → SubprocessParams → Call StepError S Outcome
  unfolding argv_command
  run_subprocess lease task params = do
    id ← or_panic (
        run_id programs.new_run_id task.identity.graph task.identity.partition task.identity.node
          task.identity.rerun)
    command ← or_panic (argv_command params.argv)
    run_program programs task command (some (stdin_document programs task id)) params.timeout lease

  -- the environment of the command of `Shell::run`
  unfoldable pub shell_env : Task → Text → Map Text → List (Text × Text)
  shell_env task id env =
      (codes "SWALE_RUN_ID", id)
      ∷ (codes "SWALE_GRAPH", task.identity.graph)
      ∷ (codes "SWALE_PARTITION", task.identity.partition.key)
      ∷ (codes "SWALE_NODE", task.identity.node)
      ∷ (codes "SWALE_ATTEMPT", show task.step.attempts)
      ∷ (codes "SWALE_INPUTS", programs.to_text (Json.object (object_of programs task.inputs)))
      ∷ env

  -- `Shell::run` with the program of the shell
  unfoldable pub run_shell : Text → Lease → Task → ShellParams → Call StepError S Outcome
  unfolding shell_env
  run_shell shell lease task params = do
    id ← or_panic (
        run_id programs.new_run_id task.identity.graph task.identity.partition task.identity.node
          task.identity.rerun)
    let command : Command = record {
      program = shell;
      args = codes "-c" ∷ params.command ∷ [];
      env = shell_env task id params.env;
    }
    run_program programs task command none params.timeout lease
