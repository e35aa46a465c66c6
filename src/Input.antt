-- ===== src/Input.antt =====
-- swale/src/input.rs: the input of a task instance. The JSON form of a TOML table is a parameter.
pub mod Params
use swale.Base.{Option, none, some, [], ◌∷◌, Text, Map, insert}
use swale.Data.{Json, TomlTable}
use swale.Graph.{Node}
use swale.Records.{RecordStatus, NodeRecord}

pub record UpstreamSummary : Type 0 where
  pub status : RecordStatus
  pub error : Option Text

pub record TaskInput : Type 0 where
  pub operator : Text
  pub params : Json
  pub inputs : Map Json
  pub upstreams : Map UpstreamSummary
  pub state : Option Json
  pub each : Option Text
  pub item : Option Json

abbrev output_of : Option Json → Json
output_of none = Json.null
output_of (some v) = v

-- one record of the loop over the upstream records, for `inputs`
add_input : Text → NodeRecord → RecordStatus → Map Json → Map Json
add_input name r RecordStatus.succeeded inputs = insert name (output_of r.output) inputs
add_input name r RecordStatus.failed inputs = inputs
add_input name r RecordStatus.cancelled inputs = inputs

inputs_of : Map NodeRecord → Map Json → Map Json
unfolding add_input
inputs_of [] inputs = inputs
inputs_of ((name, r) ∷ records) inputs = inputs_of records (add_input name r r.status inputs)

summaries_of : Map NodeRecord → Map UpstreamSummary → Map UpstreamSummary
summaries_of [] m = m
summaries_of ((name, r) ∷ records) m =
    summaries_of records (insert name (record { status = r.status; error = r.error }) m)

-- `TaskInput::new`, over `serde_json::to_value`
unfoldable pub task_input : (TomlTable → Json) → Node → Map NodeRecord → TaskInput
unfolding inputs_of summaries_of
task_input to_value n records = record {
  operator = n.spec.operator;
  params = to_value n.spec.params;
  inputs = inputs_of records [];
  upstreams = summaries_of records [];
  state = none;
  each = n.spec.each;
  item = none;
}
