-- ===== src/Records.antt =====
-- swale/src/records.rs: the records of the store.
pub mod Keys
pub mod Listing
use swale.Base.{ℕ, Bool, Option, none, some, Text, Map, get, leb, codes}
use swale.Data.{Json}

pub data RecordStatus : Type 0 where
  succeeded failed cancelled : RecordStatus

-- `RecordStatus::as_str`
unfoldable pub status_text : RecordStatus → Text
status_text succeeded = codes "succeeded"
status_text failed = codes "failed"
status_text cancelled = codes "cancelled"

pub record NodeRecord : Type 0 where
  pub status : RecordStatus
  pub run_id : Text
  pub definition : Text
  pub rerun : ℕ
  pub terminated_at_ms : ℕ
  pub output : Option Json
  pub output_omitted : Bool
  pub error : Option Text

pub data GraphRunState : Type 0 where
  active cancelled complete failed : GraphRunState

-- `GraphRunState::as_str`
unfoldable pub run_state_text : GraphRunState → Text
run_state_text active = codes "active"
run_state_text cancelled = codes "cancelled"
run_state_text complete = codes "complete"
run_state_text failed = codes "failed"

pub record GraphRunRecord : Type 0 where
  pub definition : Text
  pub requested_at_ms : ℕ
  pub state : GraphRunState
  pub settled_at_ms : Option ℕ
  pub expected_reruns : Map ℕ

-- `unwrap_or(0)`
abbrev pub count_or_zero : Option ℕ → ℕ
count_or_zero none = 0
count_or_zero (some n) = n

-- the count of `expected_reruns.get(node)`, 0 where it is absent
abbrev pub expected_rerun : GraphRunRecord → Text → ℕ
expected_rerun run node = count_or_zero (get node run.expected_reruns)

-- `GraphRunRecord::is_current`
unfoldable pub is_current : GraphRunRecord → Text → NodeRecord → Bool
is_current run node record_ = leb (expected_rerun run node) record_.rerun

pub record GraphRecord : Type 0 where
  pub definition : Text
  pub adopted_at_ms : ℕ
