-- ===== src/Task.antt =====
-- swale/src/task.rs: the identity of a task instance, its run id and its headers. The runtime's
-- `RunId::new` is a parameter, and a run id is its text.
pub mod Ids
pub mod Headers
pub mod Examples
use swale.Base.{
  ℕ, ◌+◌, ◌-◌, ◌%◌, ◌^◌, Bool, true, false, not, ◌&&◌, Option, none, some, [], ◌∷◌, ◌++◌, Text, Map,
  get, insert, codes, show, parse_uint, if◌then◌else◌,
}
use swale.Base.Results.{Result, ok, err, ◌>>=◌}
use swale.Graph.{Graph, Node, name}
use swale.Partition.{Partition}
use swale.Partition
use swale.Records.{NodeRecord, GraphRunRecord, RecordStatus, is_current}
use swale.Records.Keys

abbrev pub header_graph : Text
header_graph = codes "swale.graph"

abbrev pub header_partition : Text
header_partition = codes "swale.partition"

abbrev pub header_node : Text
header_node = codes "swale.node"

abbrev pub header_asset : Text
header_asset = codes "swale.asset"

abbrev pub header_definition : Text
header_definition = codes "swale.definition"

abbrev pub header_rerun : Text
header_rerun = codes "swale.rerun"

-- `u32::MAX`
abbrev pub u32_max : ℕ
u32_max = 2 ^ 32 - 1

pub record TaskIdentity : Type 0 where
  pub graph : Text
  pub partition : Partition
  pub node : Text
  pub asset : Option Text
  pub definition : Text
  pub rerun : ℕ

pub data IdentityError : Type 0 where
  missing_header : Text → IdentityError
  invalid_partition : Text → IdentityError
  invalid_rerun : Text → IdentityError

-- `{graph}-{partition}-{node}`
unfoldable pub group_text : Text → Text → Text → Text
group_text graph partition node = graph ++ (b'-' ∷ (partition ++ (b'-' ∷ node)))

-- `{graph}-{partition}-{node}-r{rerun}`
unfoldable pub run_text : Text → Text → Text → ℕ → Text
run_text graph partition node rerun =
    graph ++ (b'-' ∷ (partition ++ (b'-' ∷ (node ++ (b'-' ∷ (b'r' ∷ show rerun))))))

unfoldable pub is_succeeded : RecordStatus → Bool
is_succeeded RecordStatus.succeeded = true
is_succeeded RecordStatus.failed = false
is_succeeded RecordStatus.cancelled = false

-- the rerun count of the task instance without a current record, `none` after a succeeded one
unfoldable pub unrecorded_count : GraphRunRecord → Text → Option NodeRecord → Option ℕ
unfolding is_succeeded
unrecorded_count run node none = some 0
unrecorded_count run node (some r) =
    if is_succeeded r.status && is_current run node r then none else some ((r.rerun + 1) % 2 ^ 32)

-- `RunId::new` of the text; `none` is the panic of its `expect`
module _ (new_run_id : Text → Option Text) where
  unfoldable pub run_id : Text → Partition → Text → ℕ → Option Text
  run_id graph partition node rerun = new_run_id (run_text graph partition.key node rerun)

  unfoldable pub group_id : Text → Partition → Text → Option Text
  group_id graph partition node = new_run_id (group_text graph partition.key node)

  module _ {Expression : Type 0} where
    -- The outer option tells whether there is such an instance, the inner one is that of `run_id`.
    unfoldable pub unrecorded_run_id :
        Graph Expression → Partition → GraphRunRecord → Node → Map NodeRecord → Option (Option Text)
    unfolding unrecorded_count
    unrecorded_run_id graph partition run n records =
        elim (unrecorded_count run (name n) (get (name n) records)) [
          | none ↦ none
          | some count ↦ some (run_id graph.name partition (name n) count)
        ]

-- `TaskIdentity::headers`
base_headers : TaskIdentity → Map Text
base_headers i = insert header_graph i.graph (
    insert header_partition i.partition.key (
      insert header_node i.node
        (insert header_definition i.definition (insert header_rerun (show i.rerun) []))))

with_asset : Option Text → Map Text → Map Text
with_asset none headers = headers
with_asset (some asset) headers = insert header_asset asset headers

unfoldable pub headers : TaskIdentity → Map Text
unfolding base_headers with_asset
headers i = with_asset i.asset (base_headers i)

-- the closure `required` of `from_headers`
required : Map Text → Text → Result IdentityError Text
required headers key = elim (get key headers) [
  | none ↦ err (IdentityError.missing_header key)
  | some value ↦ ok value
]

partition_of : Text → Result IdentityError Partition
partition_of text = elim (Partition.new text) [
  | none ↦ err (IdentityError.invalid_partition text)
  | some partition ↦ ok partition
]

rerun_of : Text → Result IdentityError ℕ
rerun_of text = elim (parse_uint u32_max text) [
  | none ↦ err (IdentityError.invalid_rerun text)
  | some count ↦ ok count
]

-- `TaskIdentity::from_headers`
unfoldable pub from_headers : Map Text → Result IdentityError TaskIdentity
unfolding required partition_of rerun_of
from_headers headers = do
  rerun ← required headers header_rerun
  graph ← required headers header_graph
  key ← required headers header_partition
  partition ← partition_of key
  node ← required headers header_node
  definition ← required headers header_definition
  count ← rerun_of rerun
  ok (record {
    graph = graph;
    partition = partition;
    node = node;
    asset = get header_asset headers;
    definition = definition;
    rerun = count;
  })

-- `TaskIdentity::record_key`
unfoldable pub record_key : TaskIdentity → Text
record_key i = Keys.record_key i.graph i.partition i.node i.asset
