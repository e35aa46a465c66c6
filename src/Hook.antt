-- ===== src/Hook.antt =====
-- swale/src/hook.rs: the record and the event of a terminated task instance. The parser of JSON and
-- the encoders of the record and of the event are parameters.
pub mod Effects
pub mod Examples
use swale.Base.{
  ℕ, Bool, true, false, ◌&&◌, Option, none, some, List, [], ◌∷◌, ◌++◌, Text, Map, get, codes, ltb,
  length, from_utf8_lossy, if◌then◌else◌,
}
use swale.Base.Results.{Result, ok, err}
use swale.Data.{Json}
use swale.Partition.{Partition}
use swale.Records.{NodeRecord, RecordStatus}
use swale.Task.{TaskIdentity, from_headers, record_key}

-- `taquba_workflow::TerminalStatus`
pub data TerminalStatus : Type 0 where
  succeeded failed cancelled : TerminalStatus

-- `From<TerminalStatus>` for `RecordStatus` (swale/src/records.rs)
unfoldable pub record_status : TerminalStatus → RecordStatus
record_status TerminalStatus.succeeded = RecordStatus.succeeded
record_status TerminalStatus.failed = RecordStatus.failed
record_status TerminalStatus.cancelled = RecordStatus.cancelled

-- the fields of `taquba_workflow::RunOutcome` that are read
pub record RunOutcome : Type 0 where
  pub run_id : Text
  pub status : TerminalStatus
  pub result : Option Text
  pub error : Option Text
  pub headers : Map Text

pub record Event : Type 0 where
  pub graph : Text
  pub partition : Partition
  pub node : Text
  pub status : RecordStatus

-- `EVENTS_QUEUE`, and `HEADER_GROUP` of swale/src/task.rs
abbrev pub events_queue : Text
events_queue = codes "swale-events"

abbrev pub header_group : Text
header_group = codes "swale.group"

value_or_text : Text → Result Text Json → Json
value_or_text bytes (ok value) = value
value_or_text bytes (err _) = Json.text (from_utf8_lossy bytes)

-- `output_value`
unfoldable pub output_value : (Text → Result Text Json) → Text → Json
unfolding value_or_text
output_value from_slice bytes = value_or_text bytes (from_slice bytes)

-- the output of `RecordHook::record`, before the cap
unfoldable pub terminal_output :
    (Text → Result Text Json) → TerminalStatus → Option Text → Option Json
unfolding output_value
terminal_output from_slice TerminalStatus.succeeded (some bytes) =
    some (output_value from_slice bytes)
terminal_output from_slice TerminalStatus.succeeded none = none
terminal_output from_slice TerminalStatus.failed result = none
terminal_output from_slice TerminalStatus.cancelled result = none

-- an effect that the hook stages with the termination of the run
pub data Staged : Type 0 where
  put : Text → Text → Staged
  -- the queue, the payload and the deduplication key
  enqueue : Text → Text → Text → Staged

abbrev pub has_value : Option Json → Bool
has_value none = false
has_value (some _) = true

-- what the hook calls
pub record HookServices : Type 0 where
  pub now_ms : ℕ
  pub from_slice : Text → Result Text Json
  pub encode_node : NodeRecord → Text
  pub encode_event : Event → Text
  -- `MAX_KV_VALUE_SIZE`
  pub max_kv_value_size : ℕ
  -- whether `TerminalEffects` takes an effect after those that it has
  pub accepts : List Staged → Staged → Bool

module _ (services : HookServices) where
  -- the record with its output
  unfoldable pub full_record : TaskIdentity → RunOutcome → NodeRecord
  unfolding terminal_output record_status
  full_record identity outcome = record {
    status = record_status outcome.status;
    run_id = outcome.run_id;
    definition = identity.definition;
    rerun = identity.rerun;
    terminated_at_ms = services.now_ms;
    output = terminal_output services.from_slice outcome.status outcome.result;
    output_omitted = false;
    error = outcome.error;
  }

  -- a record within the cap of a value: the output is left out of a longer one
  unfoldable pub capped : NodeRecord → NodeRecord
  capped full =
      if has_value full.output
        && ltb services.max_kv_value_size (length (services.encode_node full))
      then record full { output = none; output_omitted = true }
      else full

  -- `RecordHook::record`
  unfoldable pub node_record_of : TaskIdentity → RunOutcome → NodeRecord
  unfolding full_record capped
  node_record_of identity outcome = capped (full_record identity outcome)

  -- an effect that is taken, or not; the failure of the first one leaves out the second
  unfoldable pub stage_both : Staged → Staged → List Staged
  stage_both first second =
      if services.accepts [] first
      then (if services.accepts (first ∷ []) second then first ∷ second ∷ [] else first ∷ [])
      else []

  unfoldable pub stage_record : TaskIdentity → RunOutcome → List Staged
  unfolding node_record_of stage_both
  stage_record identity outcome =
      let node = node_record_of identity outcome in
      let event : Event = record {
        graph = identity.graph;
        partition = identity.partition;
        node = identity.node;
        status = node.status;
      } in
      stage_both (Staged.put (record_key identity) (services.encode_node node))
        (Staged.enqueue events_queue (services.encode_event event) (codes "evt:" ++ outcome.run_id))

  -- `RecordHook::stage_effects`
  unfoldable pub stage_effects : RunOutcome → List Staged
  unfolding stage_record
  stage_effects outcome = elim (get header_group outcome.headers) [
    | some _ ↦ []
    | none ↦ elim (from_headers outcome.headers) [
      | err _ ↦ []
      | ok identity ↦ stage_record identity outcome
    ]
  ]
