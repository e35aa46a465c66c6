-- ===== src/Readiness.antt =====
-- swale/src/readiness.rs: when a node runs, and when a graph run is finished.
mod Extends
mod Count
pub mod States
pub mod Solution
mod Status
pub mod Evolves
pub mod Runs
mod Settle
pub mod Finish
pub mod Examples
use swale.Base.{
  ℕ, zero, suc, Bool, true, false, not, ◌&&◌, ◌||◌, Option, none, some, List, [], ◌∷◌, Text, Map,
  get, has, insert, retain, length, all, any, keep, contains, set_insert, ltb, if◌then◌else◌,
}
use swale.Graph.{
  Graph, Node, TriggerRule, all_succeeded, all_done, one_failed, trigger_rule, name, node, is_some,
}
use swale.Records.{RecordStatus, NodeRecord, GraphRunState, GraphRunRecord, is_current}

pub data NodeState : Type 0 where
  succeeded failed cancelled ready waiting blocked : NodeState

-- `NodeState::is_open`
unfoldable pub is_open : NodeState → Bool
is_open ready = true
is_open waiting = true
is_open _ = false

-- `From<RecordStatus> for NodeState`
unfoldable pub of_status : RecordStatus → NodeState
of_status RecordStatus.succeeded = succeeded
of_status RecordStatus.failed = failed
of_status RecordStatus.cancelled = cancelled

abbrev pub is_succeeded : NodeState → Bool
is_succeeded succeeded = true
is_succeeded _ = false

abbrev pub is_blocked : NodeState → Bool
is_blocked blocked = true
is_blocked _ = false

unfoldable pub current_records : GraphRunRecord → Map NodeRecord → Map NodeRecord
current_records run records = retain (is_current run) records

-- the closure `status` of `is_ready`
unfoldable pub status_of : Map NodeRecord → Text → Option RecordStatus
status_of records k = elim (get k records) [ none ↦ none | some r ↦ some r.status ]

abbrev pub has_status : RecordStatus → Option RecordStatus → Bool
has_status RecordStatus.succeeded (some RecordStatus.succeeded) = true
has_status RecordStatus.failed (some RecordStatus.failed) = true
has_status RecordStatus.cancelled (some RecordStatus.cancelled) = true
has_status _ _ = false

rule_ready : TriggerRule → List Text → Map NodeRecord → Bool
rule_ready all_succeeded ups records =
    all (λ u. has_status RecordStatus.succeeded (status_of records u)) ups
rule_ready all_done ups records = all (λ u. is_some (status_of records u)) ups
rule_ready one_failed ups records =
    any (λ u. has_status RecordStatus.failed (status_of records u)) ups

unfoldable pub is_ready : Node → Map NodeRecord → Bool
unfolding rule_ready
is_ready n records = rule_ready (trigger_rule n) n.upstreams records

pub rule_can_become_ready : TriggerRule → List NodeState → Bool
rule_can_become_ready all_succeeded ups = all (λ s. is_succeeded s || is_open s) ups
rule_can_become_ready all_done ups = all (λ s. not (is_blocked s)) ups
rule_can_become_ready one_failed ups = any is_open ups

unfoldable pub can_become_ready : Node → List NodeState → Bool
unfolding rule_can_become_ready
can_become_ready n ups = rule_can_become_ready (trigger_rule n) ups

pub cons_state : Option NodeState → Option (List NodeState) → Option (List NodeState)
cons_state (some s) (some ss) = some (s ∷ ss)
cons_state _ _ = none

-- the states of the upstreams, `none` while one is not resolved
unfoldable pub upstream_states : List Text → Map NodeState → Option (List NodeState)
unfolding cons_state
upstream_states [] states = some []
upstream_states (u ∷ us) states = cons_state (get u states) (upstream_states us states)

-- the state of a node without a record, from the states of its upstreams
unfoldable pub open_state : Map NodeRecord → Node → List NodeState → NodeState
open_state records n ups =
    if is_ready n records then ready else if can_become_ready n ups then waiting else blocked

-- the state of a node in one round of the loop, `none` where the round passes over it
unfoldable pub local_state : Map NodeRecord → Map NodeState → Node → Option NodeState
local_state records states n = elim (get (name n) records) [
  | some r ↦ some (of_status r.status)
  | none ↦ elim (upstream_states n.upstreams states) [
    | none ↦ none
    | some ups ↦ some (open_state records n ups)
  ]
]

-- one node of the inner loop of `node_states`
unfoldable pub resolve : Map NodeRecord → Map NodeState → Node → Map NodeState
resolve records states n =
    if has (name n) states
    then states
    else elim (local_state records states n) [ none ↦ states | some s ↦ insert (name n) s states ]

-- the inner loop
unfoldable pub pass : Map NodeRecord → List Node → Map NodeState → Map NodeState
pass records [] states = states
pass records (n ∷ ns) states = pass records ns (resolve records states n)

-- the outer loop, `none` where the fuel runs out
unfoldable pub passes : ℕ → Map NodeRecord → List Node → Map NodeState → Option (Map NodeState)
passes zero records nodes states = if ltb (length states) (length nodes) then none else some states
passes (suc fuel) records nodes states =
    let rest = passes fuel records nodes (pass records nodes states) in
    if ltb (length states) (length nodes) then rest else some states

module _ {Expression : Type 0} where
  unfoldable pub node_states : Graph Expression → Map NodeRecord → Option (Map NodeState)
  unfolding passes
  node_states g records = passes (length g.nodes) records g.nodes []

-- `states.values()`
abbrev pub values : Map NodeState → List NodeState
values [] = []
values ((k, s) ∷ m) = s ∷ values m

unfoldable pub settled_state : Map NodeState → Option GraphRunState
settled_state states =
    if any is_open (values states)
    then none
    else if all is_succeeded (values states)
    then some GraphRunState.complete
    else some GraphRunState.failed

unfoldable pub is_all_succeeded : TriggerRule → Bool
is_all_succeeded all_succeeded = true
is_all_succeeded all_done = false
is_all_succeeded one_failed = false

-- the names in the scope, and the stack `pending`
pub record Search : Type 0 where
  pub scope : List Text
  pub pending : List Node

unfoldable pub offer : Search → Node → Search
unfolding is_all_succeeded
offer s d =
    if is_all_succeeded (trigger_rule d) && not (contains (name d) s.scope)
    then record { scope = set_insert (name d) s.scope; pending = d ∷ s.pending }
    else s

module _ {Expression : Type 0} (g : Graph Expression) where
  -- the `for` loop over the downstreams; `none` is the panic on a name that is no node
  unfoldable pub offer_all : List Text → Search → Option Search
  offer_all [] s = some s
  offer_all (d ∷ ds) s = elim (node g d) [ none ↦ none | some n ↦ offer_all ds (offer s n) ]

  -- the `while` loop; `none` is that panic or the end of the fuel
  unfoldable pub search_scope : ℕ → Search → Option (List Text)
  search_scope zero s = elim s.pending [ [] ↦ some s.scope | _ ∷ _ ↦ none ]
  search_scope (suc fuel) s = elim s.pending [
    | [] ↦ some s.scope
    | n ∷ rest ↦ elim (offer_all n.downstreams (record s { pending = rest })) [
      | none ↦ none
      | some t ↦ search_scope fuel t
    ]
  ]

  unfoldable pub rerun_scope : Node → Option (List Node)
  unfolding search_scope offer_all offer
  rerun_scope n =
      elim (search_scope (suc (length g.nodes))
        (record { scope = name n ∷ []; pending = n ∷ [] })) [
          | none ↦ none
          | some scope ↦ some (keep (λ m. contains (name m) scope) g.nodes)
        ]
