-- ===== src/Scheduler/Workers.antt =====
-- The workers of swale/src/scheduler.rs and of swale/src/request.rs: what a job of a queue does, and
-- whether its failure is retried. The parsers of the payloads are parameters.
use swale.Base.{
  ℕ, true, false, Option, none, some, List, [], ◌++◌, Text, Map, get, insert, codes, show,
  parse_uint,
}
use swale.Base.Calls.{Call, ◌>>=◌, return, or_fail, map_err, lift}
use swale.Base.Results.{Result}
use swale.Duration.{u64_max}
use swale.Hook.{Event}
use swale.Request.{Request, request_id, max_request_id_len}
use swale.Scheduler.{Error, is_permanent}
use swale.Scheduler.Requests.{RequestRecord, error_text, handle_request}
use swale.Scheduler.Services.{Services, Action, Effect}
use swale.Scheduler.Steps.Advance.{handle_event}
use swale.Scheduler.Steps.Reconcile.{handle_trigger}
use swale.Task.{header_graph}

-- `taquba::WorkerError`: a `PermanentFailure`, or an error that is retried
pub data WorkerError : Type 0 where
  permanent : Text → WorkerError
  retried : Error → WorkerError

-- `worker_error`
unfoldable pub worker_error : Error → WorkerError
worker_error e = elim (is_permanent e) [
  | true ↦ WorkerError.permanent (error_text e)
  | false ↦ WorkerError.retried e
]

-- `firing_headers`
unfoldable pub firing_headers : Text → Map Text
firing_headers graph = insert header_graph graph []

unfoldable pub bad_payload : Text → Text → WorkerError
bad_payload what e = WorkerError.permanent (codes "the payload is not " ++ what ++ codes ": " ++ e)

unfoldable pub or_bad_payload : {A : Type 0} → Text → Result Text A → Result WorkerError A
unfolding bad_payload
or_bad_payload what (Result.ok a) = Result.ok a
or_bad_payload what (Result.err e) = Result.err (bad_payload what e)

-- the text of `InvalidRequestId`
unfoldable pub invalid_request_id_text : Text → Text
invalid_request_id_text text =
    codes "`"
    ++ text
    ++ codes "` is not a request id: `[A-Za-z0-9_-]` of one to "
    ++ show max_request_id_len
    ++ codes " bytes"

unfoldable pub not_a_request_id : Text → WorkerError
unfolding invalid_request_id_text
not_a_request_id text = WorkerError.permanent (invalid_request_id_text text)

unfoldable pub missing_graph : WorkerError
missing_graph =
    WorkerError.permanent (codes "the job does not have the `" ++ header_graph ++ codes "` header")

-- the start of the interval of a firing, under a header of the queue
unfoldable pub interval_start : Text → Map Text → Option ℕ
interval_start previous_fire headers = elim (get previous_fire headers) [
  | none ↦ none
  | some value ↦ parse_uint u64_max value
]

module _ {S Expression : Type 0} (services : Services S Expression)
    -- `PREVIOUS_FIRE_MS_HEADER` of the queue
    (previous_fire : Text) where
  -- `TriggerWorker::process`
  unfoldable pub process_trigger : Map Text → Call WorkerError S Unit
  unfolding worker_error missing_graph interval_start
  process_trigger headers = or_fail missing_graph (get header_graph headers) >>= λ graph.
      map_err worker_error
        (handle_trigger services graph (interval_start previous_fire headers) >>= λ _. return tt)

module _ {S Expression : Type 0} (services : Services S Expression)
    -- `Event::from_bytes`
    (event_of : Text → Result Text Event) where
  -- `Scheduler::process`
  unfoldable pub process_event : Text → Call WorkerError S Unit
  unfolding worker_error or_bad_payload
  process_event payload = lift (or_bad_payload (codes "an event") (event_of payload)) >>= λ event.
      map_err worker_error (handle_event services event)

module _ {S Expression : Type 0} (services : Services S Expression)
    (commit_effects : List Effect → Action S Unit) (encode : RequestRecord → Text)
    (decode : Text → Option RequestRecord)
    -- `Request::from_bytes`
    (request_of : Text → Result Text Request) where
  -- `RequestWorker::process`
  unfoldable pub process_request : Text → Text → Call WorkerError S Unit
  unfolding worker_error or_bad_payload not_a_request_id
  process_request job_id payload = do
    id ← or_fail (not_a_request_id job_id) (request_id job_id)
    request ← lift (or_bad_payload (codes "a request") (request_of payload))
    _ ← map_err worker_error (handle_request services commit_effects encode decode id request)
    return tt
