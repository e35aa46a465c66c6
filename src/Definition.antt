-- ===== src/Definition.antt =====
-- swale/src/definition.rs: the conversion of a definition file into a graph, and the join of paths of
-- swale/src/store.rs with the names of swale/src/pools.rs. The TOML parser with the deserializer, the
-- hash and the read of the file are parameters.
pub mod Load
pub mod Examples
use swale.Base.{
  ℕ, Bool, true, false, not, Option, none, some, List, [], ◌∷◌, ◌++◌, Text, codes, if◌then◌else◌,
}
use swale.Base.Results.{Result}
use swale.Data.{TomlTable}
use swale.Duration.{parse}
use swale.Graph.{Partitioning, TriggerRule, NodeKind, NodeSpec, GraphSpec, Graph, is_some}
use swale.Graph.Build.{BuildResult, build}
use swale.Graph.Checks.{Cron}
use swale.Graph.Params.{OperatorSet}
use swale.Graph.Problems.{Problem, push_if}
use swale.Partition.{CivilTime}

pub data PartitionField : Type 0 where
  daily hourly unpartitioned : PartitionField

-- `From<PartitionField>` for `Partitioning`
unfoldable pub partitioning_of : PartitionField → Partitioning
partitioning_of PartitionField.daily = Partitioning.daily
partitioning_of PartitionField.hourly = Partitioning.hourly
partitioning_of PartitionField.unpartitioned = Partitioning.unpartitioned

pub data TriggerRuleField : Type 0 where
  all_succeeded all_done one_failed : TriggerRuleField

-- `From<TriggerRuleField>` for `TriggerRule`
unfoldable pub rule_of : TriggerRuleField → TriggerRule
rule_of TriggerRuleField.all_succeeded = TriggerRule.all_succeeded
rule_of TriggerRuleField.all_done = TriggerRule.all_done
rule_of TriggerRuleField.one_failed = TriggerRule.one_failed

-- the default of a rule field
unfoldable pub rule_or_default : Option TriggerRuleField → TriggerRule
unfolding rule_of
rule_or_default none = TriggerRule.all_succeeded
rule_or_default (some field) = rule_of field

pub record GraphSection : Type 0 where
  pub name : Text
  pub schedule : Option Text
  pub catchup : Option Text
  pub partition : PartitionField

pub record NodeSection : Type 0 where
  pub name : Text
  pub produces : Option Text
  pub consumes : List Text
  pub after : List Text
  pub trigger_rule : Option TriggerRuleField
  pub operator : Text
  pub pool : Text
  pub retries : ℕ
  pub params : TomlTable
  pub each : Option Text

-- `File`
pub record DefinitionFile : Type 0 where
  pub graph : GraphSection
  pub nodes : List NodeSection

abbrev pub is_filled : List Text → Bool
is_filled [] = false
is_filled (_ ∷ _) = true

-- the faults of the fields of a node for its kind
unfoldable pub kind_faults : NodeSection → List Problem
kind_faults node = elim node.produces [
  | some _ ↦
      push_if (is_filled node.after) (Problem.asset_node_after node.name)
      ++ push_if (is_some node.trigger_rule) (Problem.asset_node_trigger_rule node.name)
  | none ↦ push_if (is_filled node.consumes) (Problem.task_node_consumes node.name)
]

unfoldable pub kind_of : NodeSection → NodeKind
unfolding rule_or_default
kind_of node = elim node.produces [
  | some produces ↦ NodeKind.asset produces node.consumes
  | none ↦ NodeKind.task node.after (rule_or_default node.trigger_rule)
]

unfoldable pub spec_of : NodeSection → NodeSpec
unfolding kind_of
spec_of node = record {
  name = node.name;
  kind = kind_of node;
  operator = node.operator;
  pool = node.pool;
  retries = node.retries;
  params = node.params;
  each = node.each;
}

-- the loop over the nodes, with the faults in the order in which they are pushed
unfoldable pub node_specs : List NodeSection → List Problem × List NodeSpec
unfolding kind_faults spec_of
node_specs [] = ([], [])
node_specs (node ∷ nodes) =
    let (faults, specs) = node_specs nodes in (kind_faults node ++ faults, spec_of node ∷ specs)

-- the text of `InvalidDuration`
unfoldable pub invalid_duration_text : Text → Text
invalid_duration_text text =
    codes "`" ++ (text ++ codes "` is not a duration such as `30s`, `5m`, `6h` or `7d`")

-- the catch-up window in seconds
unfoldable pub catchup_of : Option Text → List Problem × Option ℕ
unfolding invalid_duration_text
catchup_of none = ([], none)
catchup_of (some text) = elim (parse text) [
  | some d ↦ ([], some d)
  | none ↦ (Problem.invalid_catchup (invalid_duration_text text) ∷ [], none)
]

unfoldable pub graph_spec : DefinitionFile → GraphSpec
unfolding catchup_of node_specs partitioning_of
graph_spec file = record {
  name = file.graph.name;
  schedule = file.graph.schedule;
  catchup = (catchup_of file.graph.catchup).1;
  partitioning = partitioning_of file.graph.partition;
  nodes = (node_specs file.nodes).1;
}

-- the faults that the conversion pushes
unfoldable pub file_faults : DefinitionFile → List Problem
unfolding catchup_of node_specs
file_faults file = (catchup_of file.graph.catchup).0 ++ (node_specs file.nodes).0

-- `Result<Graph, Error>`, and the panic of `Graph::build`
pub data LoadResult (Expression : Type 0) : Type 0 where
  graph : Graph Expression → LoadResult Expression
  unreadable : Text → LoadResult Expression
  malformed : Text → LoadResult Expression
  invalid : List Problem → LoadResult Expression
  panicked : LoadResult Expression

-- the result of a load from the faults of the conversion and the result of `Graph::build`
unfoldable pub loaded :
    {Expression : Type 0} → List Problem → BuildResult Expression → LoadResult Expression
loaded [] (BuildResult.graph g) = LoadResult.graph g
loaded (p ∷ ps) (BuildResult.graph g) = LoadResult.invalid (p ∷ ps)
loaded ps (BuildResult.problems more) = LoadResult.invalid (ps ++ more)
loaded ps BuildResult.panicked = LoadResult.panicked

module _ {Expression : Type 0} (cron : Cron Expression)
    (from_timestamp_millis : ℕ → Option CivilTime) (operators : OperatorSet)
    -- `toml::from_str` into a `File`
    (from_str : Text → Result Text DefinitionFile) where
  unfoldable pub load_file : DefinitionFile → LoadResult Expression
  unfolding file_faults graph_spec loaded
  load_file file =
      loaded (file_faults file) (build cron from_timestamp_millis operators (graph_spec file))

  -- `load_str`
  unfoldable pub load_str : Text → LoadResult Expression
  unfolding load_file
  load_str text = elim (from_str text) [
    | Result.err e ↦ LoadResult.malformed e
    | Result.ok file ↦ load_file file
  ]

  -- `load_path`, with the result of the read of the file
  unfoldable pub load_path : Result Text Text → LoadResult Expression
  unfolding load_str
  load_path (Result.err e) = LoadResult.unreadable e
  load_path (Result.ok text) = load_str text

-- `store_path` of swale/src/store.rs
unfoldable pub store_path : Text → Text → Text
store_path prefix name = if is_filled_text prefix then prefix ++ (codes "/" ++ name) else name
  where
    is_filled_text : Text → Bool
    is_filled_text [] = false
    is_filled_text (_ ∷ _) = true

-- `memo_prefix` of swale/src/pools.rs
unfoldable pub memo_prefix : Text → Text → Text
unfolding store_path
memo_prefix store_prefix pool = store_path store_prefix (codes "memos/" ++ pool)

-- the queue of a pool
unfoldable pub pool_queue : Text → Text
pool_queue name = codes "swale-pool-" ++ name
