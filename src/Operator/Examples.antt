-- ===== src/Operator/Examples.antt =====
-- Operators over small worlds: a program that exits with 75, and an object that is not there.
use swale.Base.{
  arith, ◌≡◌, refl, ℕ, ◌/◌, ◌≤◌, inr, false, none, some, Option, [], ◌∷◌, Text, codes, show, get,
  insert, read_from, read_from-show,
}
use swale.Base.Calls.{Done}
use swale.Base.Results.{Result, ok, err}
use swale.Data.{Json}
use swale.Operator.{
  Task, StepError, Outcome, Deadline, JsonForm, IsFaithful, default_lease, seconds, deadline_of,
  passed, poll_after,
}
use swale.Operator.Http.{Client, Sent}
use swale.Operator.ObjectExists.{
  Objects, ObjectExistsParams, HeadError, run_object_exists, open_store, after_deadline, after_url,
  parsed_url, read_head, after_head, head_outcome,
}
use swale.Operator.Program.{
  Programs, Command, Waited, run_program, after_id, after_spawn, after_write, after_wait, spawned,
  waiting, collected, after_output, write_stdin, exit_outcome,
}
use swale.Operator.Program.Kinds.{run_program_retry, IsTransient}
use swale.Operator.Waits.{Wait, polling_ends}
use swale.Task.{run_id}
use swale.Task.Examples.{identity}

abbrev task_at : Option Json → ℕ → Task
task_at state now = record {
  step = record { payload = []; headers = []; attempts = 1; max_attempts = 3 };
  identity = identity;
  params = Json.null;
  inputs = [];
  state = state;
  now_ms = now;
}

abbrev pub not_json : Text → Result Text Json
not_json _ = err (codes "not JSON")

abbrev busy_programs : Programs Unit
busy_programs = record {
  spawn = λ _ _ s. (Done.ok tt, s);
  write_all = λ _ s. (Done.ok tt, s);
  wait = λ _ _ s. (Done.ok (Waited.exited (some 75)), s);
  kill = λ s. (Done.ok tt, s);
  output = λ s. (Done.ok ([], codes "busy"), s);
  new_run_id = some;
  from_slice = not_json;
  to_text = λ _. [];
}

abbrev command : Command
command = record { program = codes "sync"; args = []; env = [] }

run_busy :
    (e : StepError) × (run_program busy_programs (task_at none 0) command none none default_lease tt
      ≡ (Done.err e, tt))
    × (e.permanent ≡ false)
unfolding run_program after_id after_spawn after_write after_wait spawned waiting collected
    after_output write_stdin exit_outcome run_id
run_busy = (_, refl, refl)

run_program_retry_example :
    (waited : Waited) × (u : Unit) × (v : Unit) × (busy_programs.wait default_lease none u
      ≡ (Done.ok waited, v))
    × IsTransient waited
run_program_retry_example =
    run_program_retry busy_programs (task_at none 0) command none none default_lease tt tt
      run_busy.0 run_busy.1 run_busy.2

abbrev pub read_deadline : Json → Result Text Deadline
read_deadline (Json.number t) = ok (record { deadline_ms = read_from 0 t })
read_deadline _ = err (codes "not a number")

abbrev pub deadlines : JsonForm Deadline
deadlines = record { to_value = λ d. Json.number (show d.deadline_ms); from_value = read_deadline }

pub deadlines-IsFaithful : IsFaithful deadlines
deadlines-IsFaithful d = rw (read_from-show d.deadline_ms) refl

-- a store without objects, at every URL
abbrev no_objects : Objects Unit Text Unit Unit
no_objects = record {
  parse_url = ok;
  url_text = λ url. url;
  object_path = λ _. ok tt;
  origin = λ _. codes "s3://landing";
  open_url = λ _ s. (Done.ok tt, s);
  head = λ _ _ s. (Done.err HeadError.not_found, s);
  deadlines = deadlines;
}

abbrev no_client : Client Unit
no_client = record {
  method = some;
  send = λ _ _ _ s. (Done.ok Sent.cancelled, s);
  from_slice = not_json;
  to_text = λ _. [];
  deadlines = deadlines;
}

abbrev hour : ObjectExistsParams
hour = record { url = codes "s3://landing/orders"; interval = seconds 60; timeout = seconds 3600 }

abbrev hour_later : Json
hour_later = Json.number (show 3600000)

first_poll :
    run_object_exists no_objects (task_at none 0) hour ([], tt)
    ≡ (Done.ok (Outcome.next hour_later (seconds 60)), ((codes "s3://landing", tt) ∷ [], tt))
unfolding run_object_exists after_deadline after_url parsed_url open_store read_head after_head
    head_outcome deadline_of passed poll_after get insert
first_poll = refl

one_poll :
    Wait no_client no_objects (seconds 3600) (task_at none 0) 1 (task_at (some hour_later) 60000)
one_poll =
    Wait.again Wait.start
      (inr (hour, ([], tt), ((codes "s3://landing", tt) ∷ [], tt), seconds 60, refl, first_poll))
      refl (omega arith)

polling_ends_example : 1 ≤ seconds 3600 / 1000000
polling_ends_example =
    polling_ends no_client no_objects (seconds 3600) deadlines-IsFaithful refl (task_at none 0) 1
      (task_at (some hour_later) 60000) refl one_poll
