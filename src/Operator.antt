-- ===== src/Operator.antt =====
-- swale/src/operator/mod.rs: the operators that a definition can name. The deserializers of their
-- parameters and the JSON form of a deadline are parameters. A `Duration` is its nanoseconds.
pub mod Texts
pub mod Deadlines
pub mod Waits
pub mod Tails
pub mod Examples
pub mod Program
pub mod Http
pub mod ObjectExists
use swale.Base.{
  arith, ℕ, ◌≡◌, ◌+◌, ◌*◌, ◌/◌, Bool, true, false, Option, none, some, List, [], ◌∷◌, ◌++◌, Text,
  Map, get, insert, has, codes, leb, map, if◌then◌else◌,
}
use swale.Base.Calls.{Call, Done, ◌>>=◌, or_fail}
pub use swale.Base.Calls.{lift, lift-eq_ok, lift-eq_err}
use swale.Base.Results.{Result, ok, err}
use swale.Data.{Json, TomlTable}
use swale.Duration.{u64_max}
use swale.Task.{TaskIdentity}

-- `taquba_workflow::StepError`
pub record StepError : Type 0 where
  pub permanent : Bool
  pub message : Text

abbrev pub permanent_error : Text → StepError
permanent_error message = record { permanent = true; message = message }

abbrev pub transient_error : Text → StepError
transient_error message = record { permanent = false; message = message }

-- the fields of `taquba_workflow::Step` that are read
pub record Step : Type 0 where
  pub payload : Text
  pub headers : Map Text
  pub attempts : ℕ
  pub max_attempts : ℕ

pub record Task : Type 0 where
  pub step : Step
  pub identity : TaskIdentity
  pub params : Json
  pub inputs : Map Json
  pub state : Option Json
  pub now_ms : ℕ

pub data Outcome : Type 0 where
  succeeded : Json → Outcome
  failed : Text → Outcome
  next : Json → ℕ → Outcome

pub data OperatorError : Type 0 where
  unknown : OperatorError
  invalid_params : Text → OperatorError

abbrev pub permanently : {A : Type 0} → Text → Result Text A → Result StepError A
permanently prefix (ok a) = ok a
permanently prefix (err e) = err (permanent_error (prefix ++ e))

module _ (S : Type 0) where
  -- an entry of the set: the check gives the deserializer's message
  pub record Entry : Type 0 where
    pub check : TomlTable → Option Text
    pub run : Option (Task → Json → Call StepError S Outcome)

  abbrev pub OperatorSet : Type 0
  OperatorSet = Map Entry

module _ {S : Type 0} where
  -- `OperatorSet::register`
  unfoldable pub register : Text → (TomlTable → Option Text) → OperatorSet S → OperatorSet S
  register name check set = insert name (record { check = check; run = none }) set

  -- `OperatorSet::add`, with the deserializer of the rendered parameters
  unfoldable pub add :
      {P : Type 0}
      → Text
      → (TomlTable → Option Text)
      → (Json → Result Text P)
      → (Task → P → Call StepError S Outcome)
      → OperatorSet S
      → OperatorSet S
  add name check from_value operator set =
      insert name
        (record {
          check = check;
          run = some (λ task params. do
            parsed ←
                lift
                  (permanently (codes "the rendered parameters are invalid: ") (from_value params))
            operator task parsed);
        })
        set

  -- `OperatorSet::contains`, `runs` and `names`
  unfoldable pub is_registered : OperatorSet S → Text → Bool
  is_registered set name = has name set

  unfoldable pub runs : OperatorSet S → Text → Bool
  runs set name = elim (get name set) [
    | none ↦ false
    | some entry ↦ elim entry.run [ none ↦ false | some _ ↦ true ]
  ]

  unfoldable pub names : OperatorSet S → List Text
  names set = map (λ entry. entry.0) set

  -- `OperatorSet::check`
  unfoldable pub checked_params : OperatorSet S → Text → TomlTable → Result OperatorError Unit
  checked_params set name params = elim (get name set) [
    | none ↦ err OperatorError.unknown
    | some entry ↦ elim (entry.check params) [
      | none ↦ ok tt
      | some message ↦ err (OperatorError.invalid_params message)
    ]
  ]

  -- the operator of a name
  unfoldable pub operator_of :
      OperatorSet S → Text → Option (Task → Json → Call StepError S Outcome)
  operator_of set name = elim (get name set) [ none ↦ none | some entry ↦ entry.run ]

  -- `OperatorSet::run`
  unfoldable pub run_operator : OperatorSet S → Text → Task → Json → Call StepError S Outcome
  unfolding operator_of
  run_operator set name task params = do
    run ←
        or_fail
          (permanent_error (codes "operator `" ++ (name ++ codes "` cannot run in this process")))
          (operator_of set name)
    run task params

-- `Lease` and its default
pub record Lease : Type 0 where
  pub extension : ℕ
  pub interval : ℕ

abbrev pub seconds : ℕ → ℕ
seconds n = n * 1000000000

abbrev pub default_lease : Lease
default_lease = record { extension = seconds 60; interval = seconds 20 }

-- `keep_lease` over the results of the extensions, by tick; `none` where none of them failed
unfoldable pub keep_lease : List (Option Text) → Option StepError
keep_lease [] = none
keep_lease (none ∷ ticks) = keep_lease ticks
keep_lease (some e ∷ ticks) = some (transient_error (codes "lease extension failed: " ++ e))

pub record Deadline : Type 0 where
  pub deadline_ms : ℕ

-- `serde_json::to_value` and `from_value` at a type
pub record JsonForm (A : Type 0) : Type 0 where
  pub to_value : A → Json
  pub from_value : Json → Result Text A

-- A value is read back from its JSON form.
abbrev pub IsFaithful : {A : Type 0} → JsonForm A → Type 0
IsFaithful {A} form = (a : A) → form.from_value (form.to_value a) ≡ ok a

-- a number that is stopped at `u64::MAX`
abbrev pub saturate : ℕ → ℕ
saturate n = if leb n u64_max then n else u64_max

module _ (form : JsonForm Deadline) where
  -- `Deadline::of`
  unfoldable pub deadline_of : Task → ℕ → Result StepError Deadline
  deadline_of task timeout = elim task.state [
    | some state ↦ permanently (codes "the state is not a deadline: ") (form.from_value state)
    | none ↦ ok (record { deadline_ms = saturate (task.now_ms + saturate (timeout / 1000000)) })
  ]

  -- `Deadline::poll_after`
  unfoldable pub poll_after : Deadline → ℕ → Outcome
  poll_after deadline interval = Outcome.next (form.to_value deadline) interval

-- `Deadline::passed`
unfoldable pub passed : Deadline → Task → Bool
passed deadline task = leb deadline.deadline_ms task.now_ms
