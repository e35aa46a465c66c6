-- ===== src/Records/Keys.antt =====
-- swale/src/records.rs: the keys of the records and their parsers.
pub mod Parse
pub mod Distinct
pub mod Examples
use mathlib.Core.Option
use swale.Base.{
  ℕ, Bool, true, false, Option, none, some, ◌∷◌, ◌++◌, Text, codes, strip_prefix, split_once,
  if◌then◌else◌, is_utf8, text_eq,
}
use swale.Graph.{Node, name, node_asset, is_name}
use swale.Partition.{Partition}
use swale.Partition
use swale.Request.{RequestId, request_id}

abbrev pub kv_prefix : Text
kv_prefix = codes "swale/"

abbrev pub graphs_prefix : Text
graphs_prefix = codes "swale/graphs/"

abbrev pub graph_runs_prefix : Text
graph_runs_prefix = codes "swale/runs/"

abbrev pub requests_prefix : Text
requests_prefix = codes "swale/requests/"

-- `{a}/{b}`
abbrev pub path : Text → Text → Text
path a b = a ++ b'/' ∷ b

abbrev pub graph_key : Text → Text
graph_key graph = graphs_prefix ++ graph

-- `str::from_utf8(key).ok()`
abbrev pub from_utf8 : Text → Option Text
from_utf8 bytes = if is_utf8 bytes then some bytes else none

-- `bool::then` of a name
abbrev pub name_of : Text → Option Text
name_of graph = if is_name graph then some graph else none

unfoldable pub parse_graph_key : Text → Option Text
parse_graph_key key =
    Option.bind (from_utf8 key) (λ text. Option.bind (strip_prefix graphs_prefix text) name_of)

abbrev pub graph_run_key : Text → Partition → Text
graph_run_key graph partition = graph_runs_prefix ++ path graph partition.key

-- `Partition::new(partition).ok()` with the graph
abbrev pub with_partition : Text × Text → Option (Text × Partition)
with_partition (graph, partition) = Option.map (λ p. (graph, p)) (Partition.new partition)

unfoldable pub parse_graph_run_key : Text → Option (Text × Partition)
parse_graph_run_key key = Option.bind (from_utf8 key) (λ text.
    Option.bind (strip_prefix graph_runs_prefix text)
      (λ rest. Option.bind (split_once b'/' rest) with_partition))

abbrev pub asset_key : Text → Partition → Text
asset_key asset partition = kv_prefix ++ (codes "assets/" ++ path asset partition.key)

abbrev pub task_key : Text → Partition → Text → Text
task_key graph partition node =
    kv_prefix ++ (codes "tasks/" ++ path graph (path partition.key node))

abbrev pub request_key : RequestId → Text
request_key id = requests_prefix ++ id.text

unfoldable pub record_key : Text → Partition → Text → Option Text → Text
record_key graph partition node (some asset) = asset_key asset partition
record_key graph partition node none = task_key graph partition node

unfoldable pub node_record_key : Text → Partition → Node → Text
unfolding record_key
node_record_key graph partition n = record_key graph partition (name n) (node_asset n)

pub data Expiring : Type 0 where
  run : Text → Partition → Expiring
  request : RequestId → Expiring

-- `Expiring::suffix`
unfoldable pub suffix : Expiring → Text
suffix (run graph partition) = path (codes "runs") (path graph partition.key)
suffix (request id) = path (codes "requests") id.text

expiring_run : Text × Partition → Expiring
expiring_run (graph, partition) = run graph partition

-- the record of an entry, from the kind and the rest of its suffix
expiring_of : Text × Text → Option Expiring
unfolding expiring_run
expiring_of (kind, rest) =
    if text_eq kind (codes "runs")
    then Option.map expiring_run (Option.bind (split_once b'/' rest) with_partition)
    else if text_eq kind (codes "requests")
    then Option.map request (request_id rest)
    else none

-- `Expiring::parse`
unfoldable pub parse_suffix : Text → Option Expiring
unfolding expiring_of
parse_suffix bytes =
    Option.bind (from_utf8 bytes) (λ text. Option.bind (split_once b'/' text) expiring_of)

-- `parse_expiry_key`, over the parser of an entry of `taquba::ExpiryIndex`
unfoldable pub parse_expiry_key : (Text → Option (ℕ × Text)) → Text → Option (ℕ × Expiring)
parse_expiry_key parse_entry key =
    Option.bind (parse_entry key) (λ e. Option.map (λ x. (e.0, x)) (parse_suffix e.1))
