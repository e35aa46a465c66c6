-- ===== src/Graph/Problems.antt =====
-- swale/src/graph.rs: the faults of a definition.
use swale.Base.{Bool, true, false, List, [], ◌∷◌, Text}
use swale.Graph.{Partitioning}

pub data Problem : Type 0 where
  invalid_graph_name : Text → Problem
  invalid_schedule : Text → Text → Problem
  schedule_without_partition : Problem
  schedule_within_partition : Text → Partitioning → Problem
  invalid_catchup : Text → Problem
  no_nodes : Problem
  asset_node_after : Text → Problem
  asset_node_trigger_rule : Text → Problem
  task_node_consumes : Text → Problem
  duplicate_node : Text → Problem
  invalid_node_name : Text → Problem
  names_too_long : Text → Problem
  invalid_asset_name : Text → Text → Problem
  duplicate_asset : Text → List Text → Problem
  unknown_asset : Text → Text → Problem
  unknown_node : Text → Text → Problem
  unknown_operator : Text → Text → Problem
  invalid_params : Text → Text → Text → Problem
  invalid_template : Text → Text → Text → Problem
  unknown_template_upstream : Text → Text → Text → Problem
  item_without_each : Text → Text → Problem
  invalid_each : Text → Text → Problem
  each_refers_to_item : Text → Problem
  unknown_each_upstream : Text → Text → Problem
  cycle : List Text → Problem

-- `if test { problems.push(p) }`
abbrev pub push_if : Bool → Problem → List Problem
push_if true p = p ∷ []
push_if false p = []
