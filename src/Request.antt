-- ===== src/Request.antt =====
-- swale/src/request.rs: the request and its id.
use swale.Base.{
  ℕ, Bool, not, ◌&&◌, ◌||◌, Option, none, some, List, Text, length, all, leb, ◌==◌, if◌then◌else◌,
  is_ascii_alphanumeric,
}
use swale.Graph.{is_empty}
use swale.Partition.{Partition}

-- `MAX_REQUEST_ID_LEN`
abbrev pub max_request_id_len : ℕ
max_request_id_len = 64

-- `RequestId`, a newtype of its text
pub record RequestId : Type 0 where
  pub text : Text

abbrev pub is_request_id_byte : ℕ → Bool
is_request_id_byte b = is_ascii_alphanumeric b || b == b'_' || b == b'-'

abbrev pub is_request_id : Text → Bool
is_request_id t = not (is_empty t) && leb (length t) max_request_id_len && all is_request_id_byte t

-- `RequestId::new`; `none` is `InvalidRequestId`
abbrev pub request_id : Text → Option RequestId
request_id t = if is_request_id t then some (record { text = t }) else none

pub data Request : Type 0 where
  start : Text → List Partition → Request
  rerun : Text → Partition → Text → Request
  cancel : Text → Partition → Request
