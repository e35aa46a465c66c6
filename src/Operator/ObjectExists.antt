-- ===== src/Operator/ObjectExists.antt =====
-- swale/src/operator/object_exists.rs: the wait for an object. The parsers of URLs, the object
-- stores and the text of a time are parameters.
use swale.Base.{ℕ, none, some, ◌∷◌, ◌++◌, Text, Map, get, insert, codes, show, if◌then◌else◌}
use swale.Base.Calls.{Call, Done, ◌>>=◌, return}
use swale.Base.Results.{Result, ok, err}
use swale.Data.{Json, JsonFields}
use swale.Operator.{
  StepError, permanent_error, transient_error, Task, Outcome, lift, Deadline, JsonForm, deadline_of,
  passed, poll_after, seconds,
}
use swale.Operator.Texts.{debug_duration}

pub record ObjectExistsParams : Type 0 where
  pub url : Text
  pub interval : ℕ
  pub timeout : ℕ

abbrev pub default_interval : ℕ
default_interval = seconds 60

abbrev pub default_timeout : ℕ
default_timeout = seconds 86400

-- the size of an object and its last-modified time as text
pub record Meta : Type 0 where
  pub size : ℕ
  pub last_modified : Text

pub data HeadError : Type 0 where
  not_found : HeadError
  other : Text → HeadError

-- what the operator calls, over a state `S` of the world
pub record Objects (S Url Store ObjectPath : Type 0) : Type 0 where
  pub parse_url : Text → Result Text Url
  pub url_text : Url → Text
  -- `ObjectStoreScheme::parse`
  pub object_path : Url → Result Text ObjectPath
  -- the URL up to its path
  pub origin : Url → Text
  -- `open_url`, with the message of its error
  pub open_url : Url → Call Text S Store
  pub head : Store → ObjectPath → Call HeadError S Meta
  pub deadlines : JsonForm Deadline

does_not_open : Text → Text → StepError
does_not_open url e = permanent_error (b'`' ∷ (url ++ (codes "` does not open: " ++ e)))

module _ {S Url Store ObjectPath : Type 0} (objects : Objects S Url Store ObjectPath) where
  -- the stores that are open, with the rest of the world
  abbrev pub World : Type 0
  World = Map Store × S

  -- a store that is opened at the first call for its scheme and host
  unfoldable pub opened : Url → Done Text Store × S → Map Store → Done StepError Store × World
  unfolding does_not_open
  opened url (Done.ok store, s) stores =
      (Done.ok store, (insert (objects.origin url) store stores, s))
  opened url (Done.err e, s) stores =
      (Done.err (does_not_open (objects.url_text url) e), (stores, s))
  opened url (Done.panicked, s) stores = (Done.panicked, (stores, s))

  store_of : Url → Call StepError World Store
  unfolding opened
  store_of url (stores, s) = elim (get (objects.origin url) stores) [
    | some store ↦ (Done.ok store, (stores, s))
    | none ↦ opened url (objects.open_url url s) stores
  ]

  -- `ObjectExists::open`
  unfoldable pub open_store : Url → Call StepError World (Store × ObjectPath)
  unfolding store_of does_not_open
  open_store url = elim (objects.object_path url) [
    | err e ↦ lift (err (does_not_open (objects.url_text url) e))
    | ok path ↦ do store ← store_of url; return (store, path)
  ]

  -- the output, whose keys are in order
  unfoldable pub object_value : Text → Meta → Json
  object_value url meta = Json.object (
      JsonFields.field (codes "last_modified") (Json.text meta.last_modified) (
        JsonFields.field (codes "size") (Json.number (show meta.size))
          (JsonFields.field (codes "url") (Json.text url) JsonFields.end)))

  -- the outcome of the head of the object
  unfoldable pub head_outcome :
      Task → ObjectExistsParams → Deadline → Result HeadError Meta → Result StepError Outcome
  unfolding object_value
  head_outcome task params deadline (ok meta) =
      ok (Outcome.succeeded (object_value params.url meta))
  head_outcome task params deadline (err HeadError.not_found) =
      if passed deadline task
      then ok (
          Outcome.failed (
            codes "no object at `"
            ++ (params.url ++ (codes "` within " ++ debug_duration params.timeout))))
      else ok (poll_after objects.deadlines deadline params.interval)
  head_outcome task params deadline (err (HeadError.other e)) =
      err (transient_error (codes "the head of `" ++ (params.url ++ (codes "` failed: " ++ e))))

  unfoldable pub after_head :
      Task
      → ObjectExistsParams
      → Deadline
      → Done HeadError Meta × S
      → Map Store
      → Done StepError Outcome × World
  unfolding head_outcome
  after_head task params deadline (Done.ok meta, s) stores =
      lift (head_outcome task params deadline (ok meta)) (stores, s)
  after_head task params deadline (Done.err e, s) stores =
      lift (head_outcome task params deadline (err e)) (stores, s)
  after_head task params deadline (Done.panicked, s) stores = (Done.panicked, (stores, s))

  unfoldable pub parsed_url : Text → Result Text Url → Result StepError Url
  parsed_url text (ok url) = ok url
  parsed_url text (err e) = err (permanent_error (b'`' ∷ (text ++ (codes "` is not a URL: " ++ e))))

  unfoldable pub read_head :
      Task → ObjectExistsParams → Deadline → Store × ObjectPath → Call StepError World Outcome
  unfolding after_head
  read_head task params deadline (store, path) (stores, s) =
      after_head task params deadline (objects.head store path s) stores

  unfoldable pub after_url :
      Task → ObjectExistsParams → Deadline → Url → Call StepError World Outcome
  unfolding read_head
  after_url task params deadline url = do
    opened_ ← open_store url
    read_head task params deadline opened_

  unfoldable pub after_deadline :
      Task → ObjectExistsParams → Deadline → Call StepError World Outcome
  unfolding parsed_url after_url
  after_deadline task params deadline = do
    url ← lift (parsed_url params.url (objects.parse_url params.url))
    after_url task params deadline url

  -- `ObjectExists::run`
  unfoldable pub run_object_exists : Task → ObjectExistsParams → Call StepError World Outcome
  unfolding after_deadline
  run_object_exists task params = do
    deadline ← lift (deadline_of objects.deadlines task params.timeout)
    after_deadline task params deadline
