-- ===== src/Graph/Build.antt =====
-- swale/src/graph.rs, `Graph::build`: every check, and the checked graph.
mod Checked
pub mod Result
use swale.Base.{
  ℕ, zero, suc, ◌+◌, Bool, true, false, not, ◌&&◌, ◌||◌, Option, none, some, List, [], ◌∷◌, ◌++◌,
  Text, Map, get, has, insert, remove, contains, set_insert, length, all, any, map, ltb, ◌==◌,
  if◌then◌else◌, codes, text_eq, show,
}
use swale.Data.{Toml, TomlItems, TomlTable}
use swale.Graph.{
  Partitioning, daily, hourly, unpartitioned, NodeKind, NodeSpec, GraphSpec, Node, Graph, is_name,
  is_empty, max_graph_and_node_name_len, is_some,
}
use swale.Graph.Problems.{Problem, push_if}
use swale.Graph.Checks.{
  Cron, check_schedule, check_names, check_producers, check_duplicates, check_upstreams,
  producers_of,
}
use swale.Graph.Params.{OperatorSet, check_params}
use swale.Graph.Cycle.{Visit, find_cycle, found, marked, stuck}
use swale.Partition.{CivilTime}

pub data BuildResult (Expression : Type 0) : Type 0 where
  graph : Graph Expression → BuildResult Expression
  problems : List Problem → BuildResult Expression
  panicked : BuildResult Expression

-- one node added to the downstreams of its upstreams
unfoldable pub add_downstream : Text → List Text → Map (List Text) → Map (List Text)
add_downstream node [] m = m
add_downstream node (u ∷ us) m =
    add_downstream node us (insert u (set_insert node (producers_of u m)) m)

unfoldable pub all_downstreams :
    List NodeSpec → List (List Text) → Map (List Text) → Map (List Text)
unfolding add_downstream
all_downstreams [] upstreams m = m
all_downstreams (n ∷ ns) [] m = m
all_downstreams (n ∷ ns) (ups ∷ rest) m = all_downstreams ns rest (add_downstream n.name ups m)

-- the loop that makes the nodes
unfoldable pub make_nodes : List NodeSpec → List (List Text) → Map (List Text) → List Node
make_nodes [] upstreams m = []
make_nodes (n ∷ ns) [] m = []
make_nodes (n ∷ ns) (ups ∷ rest) m =
    record { spec = n; upstreams = ups; downstreams = producers_of n.name m }
    ∷ make_nodes ns rest (remove n.name m)

module _ {Expression : Type 0} (cron : Cron Expression)
    (from_timestamp_millis : ℕ → Option CivilTime) (operators : OperatorSet) where
  unfoldable pub finish_build :
      GraphSpec
      → Option Expression
      → Map ℕ
      → List (List Text)
      → List Problem
      → BuildResult Expression
  finish_build spec schedule index upstreams (p ∷ ps) = problems (p ∷ ps)
  finish_build spec schedule index upstreams [] = elim (find_cycle spec.nodes upstreams index) [
    | stuck ↦ panicked
    | found path ↦ problems (Problem.cycle path ∷ [])
    | marked marks ↦ graph (record {
      name = spec.name;
      schedule = schedule;
      catchup = spec.catchup;
      partitioning = spec.partitioning;
      nodes = make_nodes spec.nodes upstreams (all_downstreams spec.nodes upstreams []);
      index = index;
    })
  ]

  unfoldable pub build : GraphSpec → BuildResult Expression
  unfolding finish_build
  build spec =
      let (schedule_problems, schedule) =
        check_schedule cron from_timestamp_millis spec.schedule spec.partitioning in
      let (name_problems, index) = check_names spec.name spec.nodes 0 [] in
      let (asset_name_problems, producers) = check_producers spec.nodes [] in
      let (upstream_problems, upstreams) = check_upstreams index producers spec.nodes in
      finish_build spec schedule index upstreams (
        push_if (not (is_name spec.name)) (Problem.invalid_graph_name spec.name)
        ++ (schedule_problems
            ++ (push_if (elim spec.nodes [ [] ↦ true | _ ∷ _ ↦ false ]) Problem.no_nodes
                ++ (name_problems
                    ++ (asset_name_problems
                        ++ (check_duplicates producers
                            ++ (upstream_problems
                                ++ check_params operators spec.nodes upstreams)))))))
