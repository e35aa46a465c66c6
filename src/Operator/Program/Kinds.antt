-- ===== src/Operator/Program/Kinds.antt =====
-- Which ends of a program are worth a retry (swale/src/operator/subprocess.rs).
use swale.Base.{
  arith, ◌≡◌, refl, ℕ, inl, inr, true, false, Option, none, some, [], ◌∷◌, Text, ◌==◌, Bool-cases,
  Option-cases,
}
use swale.Base.Calls.{Done, continue-eq_err, failed_as-eq_err, failed_as-eq_ok, dropped-eq_err}
use swale.Base.Results.{Result, ok, err}
use swale.Data.{Json}
use swale.Operator.{StepError, Task, Lease, lift-eq_err}
use swale.Operator.Program.{
  Programs, Command, piped, Waited, ex_tempfail, stdout_value, exit_outcome, collected,
  after_output, after_wait, waiting, after_write, spawned, after_spawn, after_id, run_program,
  write_stdin,
}
use swale.Operator.Texts.{trim_ascii}
use swale.Task.{run_id}

-- the ends that a later attempt may not meet again
abbrev pub IsTransient : Waited → Type 0
IsTransient (Waited.exited code) = code ≡ some ex_tempfail
IsTransient (Waited.lease_lost e) = e.permanent ≡ false
IsTransient Waited.cancelled = Unit
IsTransient Waited.timed_out = Unit

module _ {S : Type 0} (programs : Programs S) where
  stdout_value-permanent :
      (program t : Text) (e : StepError)
      → stdout_value programs program t ≡ err e
      → e.permanent ≡ true
  unfolding stdout_value
  stdout_value-permanent program [] e h = absurd (ground arith)
  stdout_value-permanent program (b ∷ t) e h = parsed (programs.from_slice (b ∷ t)) refl
    where
      parsed : (r : Result Text Json) → programs.from_slice (b ∷ t) ≡ r → e.permanent ≡ true
      parsed (ok v) p = absurd (let g = rw (stdout_value, p) at h in ground arith)
      parsed (err m) p = let g = rw (stdout_value, p) at h in ground arith

  exit_outcome-transient :
      (program out err_ : Text) (code : Option ℕ) (e : StepError)
      → exit_outcome programs program out err_ code ≡ err e
      → e.permanent ≡ false
      → code ≡ some ex_tempfail
  unfolding exit_outcome
  exit_outcome-transient program out err_ none e h kind = absurd (ground arith)
  exit_outcome-transient program out err_ (some code) e h kind = elim (Bool-cases (code == 0)) [
    | inl zero_ ↦ absurd (
        let g = stdout_value-permanent program (trim_ascii out) e (rw (exit_outcome, zero_) at h) in
        ground arith)
    | inr other ↦ elim (Bool-cases (code == ex_tempfail)) [
      | inl temp ↦ ground arith
      | inr not_temp ↦ absurd (let g = rw (exit_outcome, other, not_temp) at h in ground arith)
    ]
  ]

  collected-permanent :
      (program : Text) (s t : S) (e : StepError)
      → collected programs program s ≡ (Done.err e, t)
      → e.permanent ≡ true
  unfolding collected
  collected-permanent program s t e failed =
      let (d, eq) = failed_as-eq_err _ (programs.output s) failed in rw eq refl

  waiting-permanent :
      (program : Text) (lease : Lease) (timeout : Option ℕ) (s t : S) (e : StepError)
      → waiting programs program lease timeout s ≡ (Done.err e, t)
      → e.permanent ≡ true
  unfolding waiting
  waiting-permanent program lease timeout s t e failed =
      let (d, eq) = failed_as-eq_err _ (programs.wait lease timeout s) failed in rw eq refl

  spawned-permanent :
      (command : Command) (stdin : Option Text) (s t : S) (e : StepError)
      → spawned programs command stdin s ≡ (Done.err e, t)
      → e.permanent ≡ true
  unfolding spawned
  spawned-permanent command stdin s t e failed =
      let (d, eq) = failed_as-eq_err _ (programs.spawn command (piped stdin) s) failed in rw eq refl

  write_stdin-eq_err :
      (stdin : Option Text) (s t : S) (e : StepError)
      → write_stdin programs stdin s ≡ (Done.err e, t)
      → ⊥
  unfolding write_stdin
  write_stdin-eq_err none s t e h = ground arith
  write_stdin-eq_err (some document) s t e h = dropped-eq_err (programs.write_all document s) h

  waiting-eq_ok :
      (program : Text) (lease : Lease) (timeout : Option ℕ) (s t : S) (waited : Waited)
      → waiting programs program lease timeout s ≡ (Done.ok waited, t)
      → programs.wait lease timeout s ≡ (Done.ok waited, t)
  unfolding waiting
  waiting-eq_ok program lease timeout s t waited h =
      failed_as-eq_ok _ (programs.wait lease timeout s) h

  after_wait-IsTransient :
      (program : Text) (timeout : Option ℕ) (waited : Waited) (s t : S) (e : StepError)
      → after_wait programs program timeout waited s ≡ (Done.err e, t)
      → e.permanent ≡ false
      → IsTransient waited
  unfolding after_wait after_output
  after_wait-IsTransient program timeout (Waited.lease_lost d) s t e h kind =
      let same : d ≡ e = ground arith in rw same kind
  after_wait-IsTransient program timeout Waited.cancelled s t e h kind = tt
  after_wait-IsTransient program timeout Waited.timed_out s t e h kind = tt
  after_wait-IsTransient program timeout (Waited.exited code) s t e h kind =
      elim (continue-eq_err (after_output programs program code) (collected programs program s) h) [
        | inl failed ↦ absurd (let g = collected-permanent program s t e failed in ground arith)
        | inr ((out, err_), u, _, h1) ↦
            exit_outcome-transient program out err_ code e
              (lift-eq_err (exit_outcome programs program out err_ code) h1).0 kind
      ]

  -- the wait that a retried failure ended with
  abbrev Retried : Option ℕ → Lease → Type 0
  Retried timeout lease =
      (waited : Waited) × (u : S) × (v : S) × (programs.wait lease timeout u ≡ (Done.ok waited, v))
      × IsTransient waited

  after_write-retry :
      (program : Text) (timeout : Option ℕ) (lease : Lease) (s t : S) (e : StepError)
      → after_write programs program timeout lease s ≡ (Done.err e, t)
      → e.permanent ≡ false
      → Retried timeout lease
  unfolding after_write
  after_write-retry program timeout lease s t e h kind =
      elim (continue-eq_err (after_wait programs program timeout)
        (waiting programs program lease timeout s) h) [
          | inl failed ↦
              absurd (let g = waiting-permanent program lease timeout s t e failed in ground arith)
          | inr (waited, v, eq, h1) ↦ (
            waited,
            s,
            v,
            waiting-eq_ok program lease timeout s v waited eq,
            after_wait-IsTransient program timeout waited v t e h1 kind,
          )
        ]

  after_spawn-retry :
      (command : Command) (stdin : Option Text) (timeout : Option ℕ) (lease : Lease) (s t : S)
      (e : StepError)
      → after_spawn programs command stdin timeout lease s ≡ (Done.err e, t)
      → e.permanent ≡ false
      → Retried timeout lease
  unfolding after_spawn
  after_spawn-retry command stdin timeout lease s t e h kind =
      elim (continue-eq_err (λ _. after_write programs command.program timeout lease)
        (write_stdin programs stdin s) h) [
          | inl failed ↦ absurd (write_stdin-eq_err stdin s t e failed)
          | inr (_, v, _, h1) ↦ after_write-retry command.program timeout lease v t e h1 kind
        ]

  after_id-retry :
      (command : Command) (stdin : Option Text) (timeout : Option ℕ) (lease : Lease) (s t : S)
      (e : StepError)
      → after_id programs command stdin timeout lease s ≡ (Done.err e, t)
      → e.permanent ≡ false
      → Retried timeout lease
  unfolding after_id
  after_id-retry command stdin timeout lease s t e h kind =
      elim (continue-eq_err (λ _. after_spawn programs command stdin timeout lease)
        (spawned programs command stdin s) h) [
          | inl failed ↦
              absurd (let g = spawned-permanent command stdin s t e failed in ground arith)
          | inr (_, v, _, h1) ↦ after_spawn-retry command stdin timeout lease v t e h1 kind
        ]

  -- A run of a program that fails with an error that is retried waited for the program, and the wait
  -- ended with the exit code 75, with the timeout, with the cancel of the run or with a lease
  -- extension that failed.
  pub run_program_retry :
      (task : Task) (command : Command) (stdin : Option Text) (timeout : Option ℕ) (lease : Lease)
      (s t : S) (e : StepError)
      → run_program programs task command stdin timeout lease s ≡ (Done.err e, t)
      → e.permanent ≡ false
      → (waited : Waited) × (u : S) × (v : S) × (programs.wait lease timeout u
          ≡ (Done.ok waited, v))
        × IsTransient waited
  unfolding run_program
  run_program_retry task command stdin timeout lease s t e h kind =
      elim (Option-cases (
        run_id programs.new_run_id task.identity.graph task.identity.partition task.identity.node
          task.identity.rerun)) [
            | inl none_ ↦ absurd (let g = rw (run_program, none_) at h in ground arith)
            | inr (id, some_) ↦
                after_id-retry command stdin timeout lease s t e (rw (run_program, some_) at h) kind
          ]
