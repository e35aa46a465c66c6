-- ===== src/Graph/Examples.antt =====
-- Small graphs for the tests of swale/src/graph.rs and swale/src/readiness.rs.
use swale.Base.{
  ℕ, ◌≡◌, ◌≢◌, refl, Option, none, [], ◌∷◌, Text, codes, get, insert, remove, text_eq, text_lt,
  set_insert, contains,
}
use swale.Data.{TomlTable}
use swale.Graph.{Partitioning, NodeKind, TriggerRule, NodeSpec, GraphSpec, Node, Graph, is_name}
use swale.Graph.Ordered.{IsOrdered}
use swale.Graph.Problems.{Problem}
use swale.Graph.Checks.{
  Cron, CronResult, check_schedule, check_names, add_producer, asset_problems, check_asset_names,
  check_producers, check_duplicates, consume, follow, kind_upstreams, check_upstreams, extend,
}
use swale.Graph.Params.{OperatorSet, check_params, check_operator, check_table}
use swale.Graph.Cycle.{find_cycle, visit_all, visit, scan, finish, cycle_path, from_position}
use swale.Graph.Build.{
  graph, problems, panicked, build, finish_build, make_nodes, all_downstreams, add_downstream,
}
use swale.Graph.Build.Result.{build-IsOrdered, build_total}
use swale.Partition.{CivilTime}

abbrev pub node_spec : Text → NodeKind → NodeSpec
node_spec n k = record {
  name = n;
  kind = k;
  operator = codes "shell";
  pool = codes "default";
  retries = 0;
  params = TomlTable.end;
  each = none;
}

-- an asset node and a task node after it
abbrev pub demo_spec : GraphSpec
demo_spec = record {
  name = codes "demo";
  schedule = none;
  catchup = none;
  partitioning = Partitioning.daily;
  nodes =
      node_spec (codes "b") (NodeKind.task (codes "a" ∷ []) TriggerRule.all_done)
      ∷ (node_spec (codes "a") (NodeKind.asset (codes "raw") []) ∷ []);
}

-- the same nodes in the other order
abbrev swapped_spec : GraphSpec
swapped_spec = record demo_spec {
  nodes =
      node_spec (codes "a") (NodeKind.asset (codes "raw") [])
      ∷ (node_spec (codes "b") (NodeKind.task (codes "a" ∷ []) TriggerRule.all_done) ∷ []);
}

-- two nodes after each other
abbrev cyclic_spec : GraphSpec
cyclic_spec = record {
  name = codes "demo";
  schedule = none;
  catchup = none;
  partitioning = Partitioning.daily;
  nodes =
      node_spec (codes "b") (NodeKind.task (codes "a" ∷ []) TriggerRule.all_done)
      ∷ (node_spec (codes "a") (NodeKind.task (codes "b" ∷ []) TriggerRule.all_done) ∷ []);
}

-- every expression parses to itself and never fires
abbrev pub demo_cron : Cron Text
demo_cron = record {
  parse = CronResult.ok;
  next_after = λ _ _. none;
  previous_before = λ _ _. none;
}

abbrev pub no_time : ℕ → Option CivilTime
no_time _ = none

-- one operator, which accepts every table
abbrev pub demo_operators : OperatorSet
demo_operators = (codes "shell", λ _. none) ∷ []

abbrev pub node_a : Node
node_a = record {
  spec = node_spec (codes "a") (NodeKind.asset (codes "raw") []);
  upstreams = [];
  downstreams = codes "b" ∷ [];
}

abbrev pub node_b : Node
node_b = record {
  spec = node_spec (codes "b") (NodeKind.task (codes "a" ∷ []) TriggerRule.all_done);
  upstreams = codes "a" ∷ [];
  downstreams = [];
}

abbrev pub demo_graph : Graph Text
demo_graph = record {
  name = codes "demo";
  schedule = none;
  catchup = none;
  partitioning = Partitioning.daily;
  nodes = node_b ∷ (node_a ∷ []);
  index = (codes "a", 1) ∷ ((codes "b", 0) ∷ []);
}

pub demo_built : build demo_cron no_time demo_operators demo_spec ≡ graph demo_graph
unfolding build finish_build make_nodes all_downstreams add_downstream check_schedule check_names
    add_producer asset_problems check_asset_names check_producers check_duplicates consume follow
    kind_upstreams check_upstreams extend check_params check_operator check_table find_cycle
    visit_all visit scan finish is_name get insert remove text_eq text_lt set_insert contains
    cycle_path from_position
demo_built = refl

abbrev pub swapped_graph : Graph Text
swapped_graph = record {
  name = codes "demo";
  schedule = none;
  catchup = none;
  partitioning = Partitioning.daily;
  nodes = node_a ∷ (node_b ∷ []);
  index = (codes "a", 0) ∷ ((codes "b", 1) ∷ []);
}

swapped_built : build demo_cron no_time demo_operators swapped_spec ≡ graph swapped_graph
unfolding build finish_build make_nodes all_downstreams add_downstream check_schedule check_names
    add_producer asset_problems check_asset_names check_producers check_duplicates consume follow
    kind_upstreams check_upstreams extend check_params check_operator check_table find_cycle
    visit_all visit scan finish is_name get insert remove text_eq text_lt set_insert contains
    cycle_path from_position
swapped_built = refl

-- a cycle is reported as a problem
cyclic_problem :
    build demo_cron no_time demo_operators cyclic_spec
    ≡ problems (Problem.cycle (codes "b" ∷ (codes "a" ∷ (codes "b" ∷ []))) ∷ [])
unfolding build finish_build make_nodes all_downstreams add_downstream check_schedule check_names
    add_producer asset_problems check_asset_names check_producers check_duplicates consume follow
    kind_upstreams check_upstreams extend check_params check_operator check_table find_cycle
    visit_all visit scan finish is_name get insert remove text_eq text_lt set_insert contains
    cycle_path from_position
cyclic_problem = refl

pub demo_IsOrdered : IsOrdered demo_graph.nodes
demo_IsOrdered = build-IsOrdered demo_cron no_time demo_operators demo_spec demo_graph demo_built

pub swapped_IsOrdered : IsOrdered swapped_graph.nodes
swapped_IsOrdered =
    build-IsOrdered demo_cron no_time demo_operators swapped_spec swapped_graph swapped_built

build-IsOrdered_example : IsOrdered demo_graph.nodes
build-IsOrdered_example =
    build-IsOrdered demo_cron no_time demo_operators demo_spec demo_graph demo_built

build_total_example : build demo_cron no_time demo_operators cyclic_spec ≢ panicked
build_total_example = build_total demo_cron no_time demo_operators cyclic_spec
