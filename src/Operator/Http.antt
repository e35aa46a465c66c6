-- ===== src/Operator/Http.antt =====
-- swale/src/operator/http.rs: one request, or the poll of a request. The HTTP client and the parser
-- of JSON are parameters.
use swale.Base.{
  ℕ, Bool, ◌&&◌, ◌||◌, Option, none, some, List, [], ◌∷◌, ◌++◌, Text, Map, codes, show, leb, ◌==◌,
  any, from_utf8_lossy, if◌then◌else◌,
}
use swale.Base.Calls.{Call, Done}
use swale.Base.Results.{Result, ok, err, ◌>>=◌}
use swale.Data.{Json, JsonFields, json_eq}
use swale.Graph.{is_empty}
use swale.Operator.{
  StepError, permanent_error, transient_error, Task, Outcome, Lease, lift, Deadline, JsonForm,
  deadline_of, passed, poll_after, seconds,
}
use swale.Operator.Texts.{tail, debug_duration, trim_ascii}
use swale.Template.{split}
use swale.Template.Render.{lookup}

pub record Poll : Type 0 where
  pub path : Text
  pub accepted : List Json
  pub failed : List Json
  pub interval : ℕ
  pub timeout : ℕ

pub record HttpParams : Type 0 where
  pub method : Text
  pub url : Text
  pub headers : Map Text
  pub body : Option Text
  pub timeout : ℕ
  pub poll : Option Poll

-- `Poll::segments`
unfoldable pub poll_path : Poll → List Text
poll_path poll = split b'.' poll.path

-- the defaults of the parameters
abbrev pub default_method : Text
default_method = codes "GET"

abbrev pub default_timeout : ℕ
default_timeout = seconds 60

abbrev pub default_interval : ℕ
default_interval = seconds 60

abbrev pub default_poll_timeout : ℕ
default_poll_timeout = seconds 86400

-- the checks of `path` and of `done`, after the deserializer of the text and of the list
unfoldable pub checked_path : Text → Result Text Text
checked_path text =
    if any is_empty (split b'.' text)
    then err (b'`' ∷ (text ++ codes "` is not a dotted path such as `status` or `job.state`"))
    else ok text

unfoldable pub checked_done : List Json → Result Text (List Json)
checked_done [] = err (codes "`done` requires at least one value")
checked_done (v ∷ values) = ok (v ∷ values)

-- the branch of the `select!` that is taken: the response, the failure of the request, the failure
-- of `keep_lease` or the cancel of the run
pub data Sent : Type 0 where
  response : ℕ → Text → Sent
  failed : Bool → Text → Sent
  lease_lost : StepError → Sent
  cancelled : Sent

-- what the operator calls, over a state `S` of the world
pub record Client (S : Type 0) : Type 0 where
  -- `Method::from_bytes`, with the text of the method
  pub method : Text → Option Text
  pub send : Text → HttpParams → Lease → Call StepError S Sent
  pub from_slice : Text → Result Text Json
  pub to_text : Json → Text
  pub deadlines : JsonForm Deadline

-- the check of the field `method`
unfoldable pub checked_method : {S : Type 0} → Client S → Text → Result Text Text
checked_method client text = elim (client.method text) [
  | none ↦ err (b'`' ∷ (text ++ codes "` is not an HTTP method"))
  | some _ ↦ ok text
]

-- `StatusCode::is_success` and `is_server_error`
abbrev pub is_success : ℕ → Bool
is_success status = leb 200 status && leb status 299

abbrev pub is_server_error : ℕ → Bool
is_server_error status = leb 500 status && leb status 599

quoted : Text → Text
quoted request = b'`' ∷ (request ++ codes "`")

-- the output, whose keys are in order
unfoldable pub output : ℕ → Json → Json
output status body = Json.object (
    JsonFields.field (codes "body") body
      (JsonFields.field (codes "status") (Json.number (show status)) JsonFields.end))

-- the error of a status that is no success
unfoldable pub status_error : Text → ℕ → Text → Option StepError
unfolding quoted
status_error request status body =
    let message =
      quoted request ++ (codes " returned " ++ (show status ++ (codes ": " ++ tail body))) in
    if is_success status
    then none
    else if is_server_error status || status == 429
    then some (transient_error message)
    else some (permanent_error message)

module _ {S : Type 0} (client : Client S) where
  -- the status and the body of the response, or the error of the request
  unfoldable pub sent_response : Text → Sent → Result StepError (ℕ × Text)
  unfolding quoted
  sent_response request (Sent.response status body) = ok (status, body)
  sent_response request (Sent.lease_lost e) = err e
  sent_response request Sent.cancelled =
      err (transient_error (codes "the run was cancelled while the request ran"))
  sent_response request (Sent.failed is_builder e) =
      if is_builder
      then err (permanent_error (quoted request ++ (codes " is not a valid request: " ++ e)))
      else err (transient_error (quoted request ++ (codes " failed: " ++ e)))

  or_text : Text → Result Text Json → Json
  or_text body (ok value) = value
  or_text body (err _) = Json.text (from_utf8_lossy body)

  -- the body as a value
  unfoldable pub body_value : Text → Json
  unfolding or_text
  body_value body =
      let trimmed = trim_ascii body in
      if is_empty trimmed then Json.null else or_text body (client.from_slice trimmed)

  -- `` `{request}` reported `{path}` = {value} ``
  reported : Text → Poll → Json → Text
  unfolding quoted
  reported request poll value =
      quoted request
      ++ (codes " reported `" ++ (poll.path ++ (codes "` = " ++ client.to_text value)))

  -- the outcome of a poll with a value at its path
  unfoldable pub value_outcome : Task → Text → Poll → Deadline → ℕ → Json → Json → Outcome
  unfolding reported
  value_outcome task request poll deadline status body value =
      if any (json_eq value) poll.accepted
      then Outcome.succeeded (output status body)
      else if any (json_eq value) poll.failed
      then Outcome.failed (reported request poll value)
      else if passed deadline task
      then Outcome.failed
          (reported request poll value ++ (codes " after " ++ debug_duration poll.timeout))
      else poll_after client.deadlines deadline poll.interval

  -- the outcome of the value at the path, if the body has one
  unfoldable pub found_outcome : Task → Text → Poll → ℕ → Json → Deadline → Option Json → Outcome
  unfolding value_outcome quoted
  found_outcome task request poll status body deadline none = Outcome.failed (
      codes "the body of "
      ++ (quoted request ++ (codes " has no value at `" ++ (poll.path ++ codes "`"))))
  found_outcome task request poll status body deadline (some value) =
      value_outcome task request poll deadline status body value

  -- the outcome of a successful response
  unfoldable pub body_outcome : Task → Text → Option Poll → ℕ → Json → Result StepError Outcome
  unfolding found_outcome
  body_outcome task request none status body = ok (Outcome.succeeded (output status body))
  body_outcome task request (some poll) status body = do
    deadline ← deadline_of client.deadlines task poll.timeout
    ok (found_outcome task request poll status body deadline (lookup body (poll_path poll)))

  unfoldable pub after_sent : Task → Text → Option Poll → ℕ × Text → Result StepError Outcome
  unfolding status_error body_value body_outcome
  after_sent task request poll (status, body) = elim (status_error request status body) [
    | some e ↦ err e
    | none ↦ body_outcome task request poll status (body_value body)
  ]

  -- the part of `Http::run` after the `select!`
  unfoldable pub response_outcome : Task → Text → Option Poll → Sent → Result StepError Outcome
  unfolding sent_response after_sent
  response_outcome task request poll sent = do
    answer ← sent_response request sent
    after_sent task request poll answer

  unfoldable pub end_run :
      Task → Option Poll → Text → Done StepError Sent × S → Done StepError Outcome × S
  unfolding response_outcome
  end_run task poll request (Done.ok sent, t) = lift (response_outcome task request poll sent) t
  end_run task poll request (Done.err e, t) = (Done.err e, t)
  end_run task poll request (Done.panicked, t) = (Done.panicked, t)

  -- `Http::run`
  unfoldable pub run_http : Lease → Task → HttpParams → Call StepError S Outcome
  unfolding end_run quoted
  run_http lease task params = elim (client.method params.method) [
    | none ↦ lift (err (permanent_error (quoted params.method ++ codes " is not an HTTP method")))
    | some method ↦
        let request = method ++ (b' ' ∷ params.url) in
        λ s. end_run task params.poll request (client.send method params lease s)
  ]
