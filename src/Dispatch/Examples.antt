-- ===== src/Dispatch/Examples.antt =====
-- A mapped node with two members.
use mathlib.Core.List.{Permᴰ}
use swale.Base.{
  ◌⊎◌, ◌*◌, arith, ◌≡◌, refl, ◌≤◌, true, false, none, some, [], ◌∷◌, Text, codes, parse_uint,
}
use swale.Base.Calls.{Done}
use swale.Base.Results.{Result, ok, err}
use swale.Data.{Json, JsonItems}
use swale.Dispatch.{Dispatch, Runtime, MemberResult, StepOutcome, Phase, member_poll_delay, min}
use swale.Dispatch.Delays.{member_poll_delay-bounds}
use swale.Dispatch.Mapped.{run_mapped, in_group, group_of, phase_of, run_phase, finish_phase}
use swale.Dispatch.Mapped.Ends.{Ends, run_mapped-Ends}
use swale.Dispatch.Members.{position, positioned, member_outputs, outputs_of_sorted}
use swale.Dispatch.Members.Order.{IsAscending, member_outputs-order}
use swale.Hook.{TerminalStatus}
use swale.Input.{TaskInput}
use swale.Operator.{Step}
use swale.Operator.Examples.{not_json}
use swale.Task.{group_id}
use swale.Task.Examples.{identity}

abbrev result_of : Text → Text → MemberResult
result_of key bytes = record {
  key = key;
  termination = record { status = TerminalStatus.succeeded; error = none };
  outcome = some (some bytes);
}

abbrev lower : MemberResult
lower = result_of (codes "0") (codes "a")

abbrev upper : MemberResult
upper = result_of (codes "10") (codes "b")

in_order : IsAscending (lower ∷ upper ∷ [])
unfolding position parse_uint
in_order = ((omega arith, tt), (tt, tt))

member_outputs-order_example :
    member_outputs not_json (upper ∷ lower ∷ [])
    ≡ outputs_of_sorted not_json 2 (positioned (lower ∷ upper ∷ []))
member_outputs-order_example =
    member_outputs-order not_json (lower ∷ upper ∷ []) (upper ∷ lower ∷ []) in_order
      (Permᴰ.swap refl refl)

read_phase : Json → Result Text Phase
read_phase (Json.array (JsonItems.cons output JsonItems.nil)) = ok (Phase.finish output)
read_phase v = ok (Phase.poll 0)

write_phase : Phase → Json
write_phase (Phase.finish output) = Json.array (JsonItems.cons output JsonItems.nil)
write_phase _ = Json.null

abbrev demo_runtime : Runtime Unit
demo_runtime = record {
  submit = λ _ _ _ s. (Done.ok tt, s);
  status = λ _ s.
      (Done.ok (record { total = 2; pending = 0; succeeded = 2; failed = 0; cancelled = 0 }), s);
  cancel = λ _ _ s. (Done.ok tt, s);
  forget = λ _ s. (Done.ok tt, s);
  results = λ _ s. (Done.ok (upper ∷ lower ∷ []), s);
  is_cancelled = λ _. false;
  has_runtime = λ _. true;
  now_ms = 0;
  new_run_id = some;
  to_bytes = λ _. codes "payload";
  from_bytes = λ _. err (codes "no input");
  phases = record { to_value = write_phase; from_value = read_phase };
  to_text = λ _. codes "text";
  from_str = not_json;
}

abbrev demo_dispatch : Dispatch Unit
demo_dispatch = record {
  operators = [];
  env = [];
  member_poll_interval = 1000;
  member_poll_max_interval = 30000;
  pool = some (codes "default");
}

abbrev finished_input : TaskInput
finished_input = record {
  operator = codes "shell";
  params = Json.null;
  inputs = [];
  upstreams = [];
  state = some (Json.array (JsonItems.cons Json.null JsonItems.nil));
  each = some (codes "[1, 2]");
  item = none;
}

abbrev demo_step : Step
demo_step = record { payload = []; headers = []; attempts = 1; max_attempts = 3 }

finished :
    run_mapped demo_runtime demo_dispatch demo_step finished_input identity tt
    ≡ (Done.ok (StepOutcome.succeed (codes "text")), tt)
unfolding run_mapped in_group group_of phase_of run_phase finish_phase group_id read_phase
finished = refl

run_mapped-Ends_example :
    Ends demo_runtime demo_dispatch finished_input identity (StepOutcome.succeed (codes "text"))
run_mapped-Ends_example =
    run_mapped-Ends demo_runtime demo_dispatch demo_step finished_input identity tt tt
      (StepOutcome.succeed (codes "text")) finished

member_poll_delay-bounds_example :
    (member_poll_delay demo_dispatch 0 ≡ 1000)
    × (1000 ≤ member_poll_delay demo_dispatch 3)
    × (member_poll_delay demo_dispatch 3 ≤ 30000)
    × (member_poll_delay demo_dispatch 3 ≤ member_poll_delay demo_dispatch 4)
    × ((31 ≤ 3)
        ⊎ (member_poll_delay demo_dispatch 4 ≡ min (2 * member_poll_delay demo_dispatch 3) 30000))
member_poll_delay-bounds_example =
    member_poll_delay-bounds demo_dispatch 3 (omega arith) (omega arith) (omega arith)
