-- ===== src/Graph.antt =====
-- swale/src/graph.rs: the graph model, its nodes and the accessors. The type of a parsed cron
-- expression is a parameter of the graph, since the crate `taquba_cron` declares it.
pub mod Ordered
pub mod Problems
pub mod Cycle
pub mod Checks
pub mod Params
pub mod Build
pub mod Examples
use mathlib.Core.Option
use swale.Base.{
  ℕ, ◌+◌, Bool, true, false, not, ◌&&◌, ◌||◌, Option, none, some, List, [], ◌∷◌, Text, Map, get,
  get_elem?, length, all, any, find, keep, text_eq, leb, ◌==◌, is_ascii_lowercase, is_ascii_digit,
  codes,
}
use swale.Data.{TomlTable}

-- `MAX_GRAPH_AND_NODE_NAME_LEN`
abbrev pub max_graph_and_node_name_len : ℕ
max_graph_and_node_name_len = 98

pub data Partitioning : Type 0 where
  daily hourly unpartitioned : Partitioning

-- `Display for Partitioning`
unfoldable pub partitioning_text : Partitioning → Text
partitioning_text daily = codes "daily"
partitioning_text hourly = codes "hourly"
partitioning_text unpartitioned = codes "none"

pub data TriggerRule : Type 0 where
  all_succeeded all_done one_failed : TriggerRule

pub data NodeKind : Type 0 where
  asset : Text → List Text → NodeKind
  task : List Text → TriggerRule → NodeKind

pub record NodeSpec : Type 0 where
  pub name : Text
  pub kind : NodeKind
  pub operator : Text
  pub pool : Text
  pub retries : ℕ
  pub params : TomlTable
  pub each : Option Text

pub record GraphSpec : Type 0 where
  pub name : Text
  pub schedule : Option Text
  pub catchup : Option ℕ
  pub partitioning : Partitioning
  pub nodes : List NodeSpec

pub record Node : Type 0 where
  pub spec : NodeSpec
  pub upstreams : List Text
  pub downstreams : List Text

-- `Node::name`
abbrev pub name : Node → Text
name n = n.spec.name

unfoldable pub asset_of_kind : NodeKind → Option Text
asset_of_kind (asset produces consumes) = some produces
asset_of_kind (task after rule) = none

-- `Node::asset`
unfoldable pub node_asset : Node → Option Text
unfolding asset_of_kind
node_asset n = asset_of_kind n.spec.kind

unfoldable pub rule_of_kind : NodeKind → TriggerRule
rule_of_kind (asset produces consumes) = all_succeeded
rule_of_kind (task after rule) = rule

-- `Node::trigger_rule`
unfoldable pub trigger_rule : Node → TriggerRule
unfolding rule_of_kind
trigger_rule n = rule_of_kind n.spec.kind

count_upstreams : List Node → ℕ
count_upstreams [] = 0
count_upstreams (n ∷ ns) = length n.upstreams + count_upstreams ns

pub record Graph (Expression : Type 0) : Type 0 where
  pub name : Text
  pub schedule : Option Expression
  pub catchup : Option ℕ
  pub partitioning : Partitioning
  pub nodes : List Node
  pub index : Map ℕ

module _ {Expression : Type 0} where
  -- `Graph::node`
  unfoldable pub node : Graph Expression → Text → Option Node
  node g k = Option.bind (get k g.index) (λ i. get_elem? g.nodes i)

  -- `Graph::roots` and `Graph::leaves`
  unfoldable pub roots : Graph Expression → List Node
  roots g = keep (λ n. elim n.upstreams [ [] ↦ true | _ ∷ _ ↦ false ]) g.nodes

  unfoldable pub leaves : Graph Expression → List Node
  leaves g = keep (λ n. elim n.downstreams [ [] ↦ true | _ ∷ _ ↦ false ]) g.nodes

  -- `Graph::edge_count`
  unfoldable pub edge_count : Graph Expression → ℕ
  unfolding count_upstreams
  edge_count g = count_upstreams g.nodes

-- equality of two values of `Option<&str>`
abbrev pub option_text_eq : Option Text → Option Text → Bool
option_text_eq none none = true
option_text_eq none (some _) = false
option_text_eq (some _) none = false
option_text_eq (some a) (some b) = text_eq a b

abbrev pub is_some {ℓ} : {A : Type ℓ} → Option A → Bool
is_some none = false
is_some (some _) = true

module _ {Expression : Type 0} where
  -- `Graph::conflicting_asset`
  unfoldable pub conflicting_asset : Graph Expression → Graph Expression → Option Node
  conflicting_asset g other =
      find
        (λ n.
          is_some (node_asset n)
          && any (λ m. option_text_eq (node_asset m) (node_asset n)) other.nodes)
        g.nodes

abbrev pub is_name_byte : ℕ → Bool
is_name_byte b = is_ascii_lowercase b || is_ascii_digit b || b == b'_'

abbrev pub is_empty : Text → Bool
is_empty [] = true
is_empty (_ ∷ _) = false

unfoldable pub is_name : Text → Bool
is_name t = not (is_empty t) && all is_name_byte t
