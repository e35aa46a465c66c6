-- ===== src/Hook/Examples.antt =====
-- The termination of a task instance of the tests of swale/src/hook.rs.
use swale.Base.{◌≡◌, refl, arith, true, none, some, [], ◌∷◌, ◌++◌, codes}
use swale.Hook.{
  HookServices, RunOutcome, Staged, TerminalStatus, has_value, node_record_of, stage_effects,
  events_queue, capped, full_record, terminal_output, output_value,
}
use swale.Hook.Effects.{stage_effects-headers}
use swale.Operator.Examples.{not_json}
use swale.Partition.{is_partition}
use swale.Task.{headers, record_key}
use swale.Task.Examples.{identity}

abbrev services : HookServices
services = record {
  now_ms = 42;
  from_slice = not_json;
  encode_node = λ record_. record_.run_id;
  encode_event = λ event. event.node;
  max_kv_value_size = 64;
  accepts = λ _ _. true;
}

abbrev outcome : RunOutcome
outcome = record {
  run_id = codes "demo-20260915-a-r2";
  status = TerminalStatus.succeeded;
  result = some (codes "plain");
  error = none;
  headers = headers identity;
}

valid : is_partition identity.partition.key ≡ true
unfolding is_partition
valid = refl

with_output : has_value (node_record_of services identity outcome).output ≡ true
unfolding node_record_of capped full_record terminal_output output_value
with_output = refl

stage_effects-headers_example :
    stage_effects services outcome
    ≡ Staged.put
        (record_key identity)
        (services.encode_node (node_record_of services identity outcome))
      ∷ Staged.enqueue events_queue (codes "a") (codes "evt:" ++ outcome.run_id)
      ∷ []
stage_effects-headers_example =
    stage_effects-headers services identity outcome refl valid (omega arith) (λ _ _. refl)
