-- ===== src/Dispatch.antt =====
-- swale/src/dispatch.rs: the step runner of a pool. The groups of the runtime, the token of the step
-- and the codecs of the payload and of the phase are parameters. A `Duration` is its nanoseconds.
pub mod Messages
pub mod Members
pub mod Mapped
pub mod Steps
pub mod Delays
pub mod Examples
use swale.Base.{
  ℕ, ◌+◌, ◌*◌, ◌^◌, ◌-◌, ◌%◌, Bool, true, false, Option, none, some, List, [], ◌∷◌, Text, Map, leb,
  if◌then◌else◌,
}
use swale.Base.Calls.{Call}
use swale.Base.Results.{Result}
use swale.Data.{Json}
use swale.Hook.{TerminalStatus}
use swale.Input.{TaskInput}
use swale.Duration.{u64_max}
use swale.Operator.{StepError, permanent_error, transient_error, JsonForm, OperatorSet, seconds}
use swale.Task.{u32_max}

-- `taquba_workflow::Error`, with its text and what `is_permanent` says of it
pub data RuntimeError : Type 0 where
  group_mismatch : Text → Bool → RuntimeError
  group_not_found : Text → Bool → RuntimeError
  other : Text → Bool → RuntimeError

-- `step_error`
unfoldable pub step_error : RuntimeError → StepError
step_error (RuntimeError.group_mismatch message permanent) = record {
  permanent = permanent;
  message = message;
}
step_error (RuntimeError.group_not_found message permanent) = record {
  permanent = permanent;
  message = message;
}
step_error (RuntimeError.other message permanent) = record {
  permanent = permanent;
  message = message;
}

-- the types of `taquba_workflow` that a step reads and writes
pub record GroupMember : Type 0 where
  pub key : Text
  pub input : Text

pub record GroupStatus : Type 0 where
  pub total : ℕ
  pub pending : ℕ
  pub succeeded : ℕ
  pub failed : ℕ
  pub cancelled : ℕ

pub record RunOptions : Type 0 where
  pub headers : Map Text
  pub max_attempts_per_step : Option ℕ

pub record Termination : Type 0 where
  pub status : TerminalStatus
  pub error : Option Text

-- the outcome of a member has the bytes of its result, if any
pub record MemberResult : Type 0 where
  pub key : Text
  pub termination : Termination
  pub outcome : Option (Option Text)

pub data StepOutcome : Type 0 where
  succeed : Text → StepOutcome
  fail : Text → StepOutcome
  continue_after : Text → ℕ → StepOutcome

pub data Phase : Type 0 where
  submit : ℕ → Phase
  poll : ℕ → Phase
  finish : Json → Phase

-- what a step calls, over a state `S` of the world
pub record Runtime (S : Type 0) : Type 0 where
  pub submit : Text → List GroupMember → RunOptions → Call RuntimeError S Unit
  pub status : Text → Call RuntimeError S GroupStatus
  pub cancel : Text → Text → Call RuntimeError S Unit
  pub forget : Text → Call RuntimeError S Unit
  pub results : Text → Call RuntimeError S (List MemberResult)
  -- whether the token of the step is cancelled
  pub is_cancelled : S → Bool
  -- whether the runtimes of the pools are there, with the one of this pool
  pub has_runtime : Text → Bool
  pub now_ms : ℕ
  pub new_run_id : Text → Option Text
  pub to_bytes : TaskInput → Text
  pub from_bytes : Text → Result Text TaskInput
  pub phases : JsonForm Phase
  pub to_text : Json → Text
  pub from_str : Text → Result Text Json

pub record Dispatch (S : Type 0) : Type 0 where
  pub operators : OperatorSet S
  pub env : Map Text
  pub member_poll_interval : ℕ
  pub member_poll_max_interval : ℕ
  -- the name of the pool
  pub pool : Option Text

-- `DEFAULT_MEMBER_POLL_INTERVAL` and `DEFAULT_MEMBER_POLL_MAX_INTERVAL`
abbrev pub default_member_poll_interval : ℕ
default_member_poll_interval = seconds 1

abbrev pub default_member_poll_max_interval : ℕ
default_member_poll_max_interval = seconds 30

-- `Dispatch::with_env`
unfoldable pub with_env : {S : Type 0} → OperatorSet S → Map Text → Dispatch S
with_env operators env = record {
  operators = operators;
  env = env;
  member_poll_interval = default_member_poll_interval;
  member_poll_max_interval = default_member_poll_max_interval;
  pool = none;
}

-- `Dispatch::member_poll_interval`, `member_poll_max_interval` and `in_pool`
unfoldable pub with_interval : {S : Type 0} → Dispatch S → ℕ → Dispatch S
with_interval dispatch interval = record dispatch { member_poll_interval = interval }

unfoldable pub with_max_interval : {S : Type 0} → Dispatch S → ℕ → Dispatch S
with_max_interval dispatch interval = record dispatch { member_poll_max_interval = interval }

unfoldable pub in_pool : {S : Type 0} → Dispatch S → Text → Dispatch S
in_pool dispatch name = record dispatch { pool = some name }

-- `Duration::MAX` in nanoseconds
abbrev pub duration_max : ℕ
duration_max = u64_max * 1000000000 + 999999999

abbrev pub min : ℕ → ℕ → ℕ
min a b = if leb a b then a else b

abbrev pub max : ℕ → ℕ → ℕ
max a b = if leb a b then b else a

-- `polls + 1` of a `u32`, which wraps in a release build
abbrev pub next_polls : ℕ → ℕ
next_polls polls = (polls + 1) % 2 ^ 32

-- `2u32.saturating_pow`: a power above `u32::MAX` is `u32::MAX`
unfoldable pub saturating_pow : ℕ → ℕ
saturating_pow polls = if leb 32 polls then u32_max else 2 ^ polls

-- `Dispatch::member_poll_delay`
unfoldable pub member_poll_delay : {S : Type 0} → Dispatch S → ℕ → ℕ
unfolding saturating_pow
member_poll_delay dispatch polls =
    min (min (dispatch.member_poll_interval * saturating_pow polls) duration_max)
      (max dispatch.member_poll_max_interval dispatch.member_poll_interval)
