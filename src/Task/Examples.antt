-- ===== src/Task/Examples.antt =====
-- Task instances of the tests of swale/src/task.rs.
use swale.Base.{
  ◌≤◌, ◌≡◌, ◌≢◌, refl, true, false, none, some, [], ◌∷◌, Memᴰ, Map, codes, get, text_eq, length,
  arith,
}
use swale.Base.Results.{ok}
use swale.Graph.{name, is_name}
use swale.Graph.Examples.{
  demo_graph, node_a, demo_spec, demo_cron, no_time, demo_operators, demo_built,
}
use swale.Partition.{Partition, is_partition}
use swale.Records.{NodeRecord, RecordStatus, GraphRunRecord, GraphRunState}
use swale.Task.{
  TaskIdentity, headers, from_headers, run_text, run_id, unrecorded_count, unrecorded_run_id,
  is_succeeded,
}
use swale.Task.Headers.{from_headers-headers}
use swale.Task.Ids.{
  TakesIds, run_text-injective, length-run_text, run_id_total, unrecorded_run_id_fresh,
}

abbrev day : Partition
day = record { key = codes "20260915" }

day_valid : is_partition day.key ≡ true
unfolding is_partition
day_valid = refl

name_valid : is_name (codes "demo") ≡ true
unfolding is_name
name_valid = refl

node_valid : is_name (codes "a") ≡ true
unfolding is_name
node_valid = refl

abbrev pub identity : TaskIdentity
identity = record {
  graph = codes "demo";
  partition = day;
  node = codes "a";
  asset = some (codes "raw");
  definition = codes "abc";
  rerun = 2;
}

from_headers-headers_example : from_headers (headers identity) ≡ ok identity
from_headers-headers_example = from_headers-headers identity day_valid (omega arith)

run_text-injective_example :
    (codes "demo" ≡ codes "demo")
    × (day.key ≡ day.key)
    × (codes "a" ≡ codes "a")
    × (identity.rerun ≡ identity.rerun)
run_text-injective_example =
    run_text-injective (codes "demo") (codes "demo") day.key day.key (codes "a") (codes "a")
      identity.rerun identity.rerun name_valid name_valid day_valid day_valid node_valid node_valid
      refl

length-run_text_example : length (run_text (codes "demo") day.key (codes "a") 2) ≤ 128
length-run_text_example =
    length-run_text (codes "demo") day.key (codes "a") 2 (omega arith) day_valid (omega arith)

some-TakesIds : TakesIds some
some-TakesIds t full short bytes = refl

a_mem : Memᴰ node_a demo_graph.nodes
a_mem = Memᴰ.tail (Memᴰ.head refl)

run_id_total_example :
    run_id some demo_graph.name day (name node_a) 2
    ≡ some (run_text demo_graph.name day.key (name node_a) 2)
run_id_total_example =
    run_id_total demo_cron no_time demo_operators some demo_spec demo_graph node_a day 2
      some-TakesIds demo_built a_mem day_valid (omega arith)

abbrev failed_record : NodeRecord
failed_record = record {
  status = RecordStatus.failed;
  run_id = codes "demo-20260915-a-r0";
  definition = codes "abc";
  rerun = 0;
  terminated_at_ms = 0;
  output = none;
  output_omitted = false;
  error = none;
}

abbrev active_run : GraphRunRecord
active_run = record {
  definition = codes "abc";
  requested_at_ms = 0;
  state = GraphRunState.active;
  settled_at_ms = none;
  expected_reruns = [];
}

abbrev records : Map NodeRecord
records = (codes "a", failed_record) ∷ []

a_failed : get (name node_a) records ≡ some failed_record
unfolding get text_eq
a_failed = refl

-- the second task instance of the node
second :
    unrecorded_run_id some demo_graph day active_run node_a records
    ≡ some (run_id some demo_graph.name day (name node_a) 1)
unfolding unrecorded_run_id unrecorded_count is_succeeded get text_eq
second = refl

unrecorded_run_id_fresh_example :
    run_id some demo_graph.name day (name node_a) 1
    ≢ run_id some demo_graph.name day (name node_a) 0
unrecorded_run_id_fresh_example =
    unrecorded_run_id_fresh demo_cron no_time demo_operators some demo_spec demo_graph node_a day
      active_run records failed_record 0 (run_id some demo_graph.name day (name node_a) 1)
      some-TakesIds demo_built a_mem day_valid a_failed (omega arith) (omega arith) second
