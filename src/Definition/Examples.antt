-- ===== src/Definition/Examples.antt =====
-- Tests of swale/src/definition.rs on small definition files.
use swale.Base.{
  ◌≡◌, refl, none, some, [], ◌∷◌, Text, codes, get, insert, remove, text_lt, set_insert, contains,
  text_eq, parse_uint,
}
use swale.Base.Results.{Result}
use swale.Data.{TomlTable}
use swale.Definition.{
  DefinitionFile, NodeSection, PartitionField, LoadResult, TriggerRuleField, graph_spec,
  file_faults, load_str, memo_prefix,
}
use swale.Definition.Load.{load_str_sound, AreConsistent, IsCatchup}
use swale.Graph.{Graph}
use swale.Duration.{parse, unit_seconds, checked_mul}
use swale.Graph.{is_name}
use swale.Graph.Checks.{
  check_schedule, check_names, add_producer, asset_problems, check_asset_names, check_producers,
  check_duplicates, consume, follow, kind_upstreams, check_upstreams, extend,
}
use swale.Graph.Params.{check_params, check_operator, check_table}
use swale.Graph.Cycle.{
  find_cycle, visit_all, visit, scan, finish, cycle_path, from_position, report,
}
use swale.Graph.Build.{
  BuildResult, build, finish_build, make_nodes, all_downstreams, add_downstream,
}
use swale.Graph.Examples.{demo_graph, demo_cron, no_time, demo_operators}
use swale.Graph.Ordered.{IsOrdered}
use swale.Graph.Problems.{Problem}

abbrev list_node : NodeSection
list_node = record {
  name = codes "a";
  produces = some (codes "raw");
  consumes = [];
  after = [];
  trigger_rule = none;
  operator = codes "shell";
  pool = codes "default";
  retries = 0;
  params = TomlTable.end;
  each = none;
}

abbrev file : DefinitionFile
file = record {
  graph = record {
    name = codes "demo";
    schedule = none;
    catchup = some (codes "2h");
    partition = PartitionField.daily;
  };
  nodes =
      record list_node {
        name = codes "b";
        produces = none;
        after = codes "a" ∷ [];
        trigger_rule = some TriggerRuleField.all_done;
      }
      ∷ (list_node ∷ []);
}

abbrev parsed : Text → Result Text DefinitionFile
parsed _ = Result.ok file

abbrev loaded_graph : Graph Text
loaded_graph = record demo_graph { catchup = some 7200 }

loads :
    load_str demo_cron no_time demo_operators parsed (codes "...") ≡ LoadResult.graph loaded_graph
unfolding load_str parse unit_seconds parse_uint build finish_build make_nodes all_downstreams
    add_downstream check_schedule check_names add_producer asset_problems check_asset_names
    check_producers check_duplicates consume follow kind_upstreams check_upstreams extend
    check_params check_operator check_table find_cycle visit_all visit scan finish is_name get
    insert remove text_eq text_lt set_insert contains cycle_path from_position report checked_mul
loads = refl

-- an asset node with `after`, and a catch-up that is no duration
abbrev bad_file : DefinitionFile
bad_file = record file {
  graph = record file.graph { catchup = some (codes "2w") };
  nodes = record list_node { after = codes "a" ∷ [] } ∷ [];
}

bad_file_faults :
    file_faults bad_file
    ≡ Problem.invalid_catchup (codes "`2w` is not a duration such as `30s`, `5m`, `6h` or `7d`")
      ∷ (Problem.asset_node_after (codes "a") ∷ [])
unfolding file_faults parse unit_seconds parse_uint text_eq
bad_file_faults = refl

memo_prefix_test : memo_prefix (codes "deploy") (codes "p") ≡ codes "deploy/memos/p"
unfolding memo_prefix
memo_prefix_test = refl

load_str_sound_example :
    (f : DefinitionFile) × (parsed (codes "...") ≡ Result.ok f)
    × AreConsistent f.nodes
    × IsCatchup f.graph.catchup (graph_spec f).catchup
    × (build demo_cron no_time demo_operators (graph_spec f) ≡ BuildResult.graph loaded_graph)
    × IsOrdered loaded_graph.nodes
load_str_sound_example =
    load_str_sound demo_cron no_time demo_operators parsed (codes "...") loaded_graph loads
