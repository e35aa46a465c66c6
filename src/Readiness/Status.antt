-- ===== src/Readiness/Status.antt =====
-- The readiness rule read from the states of the upstreams instead of their records.
use swale.Base.{
  ◌≡◌, refl, sym, ◌∙◌, Bool, ◌⊎◌, inl, inr, Option, none, some, List, [], ◌∷◌, Memᴰ, Text, Map, get,
  all, any, arith, if◌then◌else◌, Option-cases,
}
use swale.Graph.{
  Node, TriggerRule, all_succeeded, all_done, one_failed, name, trigger_rule, is_some,
}
use swale.Graph.Ordered.{IsOrdered}
use swale.Records.{RecordStatus, NodeRecord}
use swale.Readiness.{
  NodeState, succeeded, failed, cancelled, ready, waiting, blocked, of_status, upstream_states,
  open_state, local_state, status_of, has_status, rule_ready, is_ready, rule_can_become_ready,
  can_become_ready,
}
use swale.Readiness.Extends.{cons_state-eq_some}
use swale.Readiness.Solution.{IsSolution}

-- the status of the record behind a state
abbrev pub recorded : NodeState → Option RecordStatus
recorded succeeded = some RecordStatus.succeeded
recorded failed = some RecordStatus.failed
recorded cancelled = some RecordStatus.cancelled
recorded ready = none
recorded waiting = none
recorded blocked = none

abbrev pub states_ready : TriggerRule → List NodeState → Bool
states_ready all_succeeded ups = all (λ x. has_status RecordStatus.succeeded (recorded x)) ups
states_ready all_done ups = all (λ x. is_some (recorded x)) ups
states_ready one_failed ups = any (λ x. has_status RecordStatus.failed (recorded x)) ups

-- `open_state` over states alone
unfoldable pub classify : TriggerRule → List NodeState → NodeState
classify rule ups =
    if states_ready rule ups
    then ready
    else if rule_can_become_ready rule ups
    then waiting
    else blocked

recorded-of_status : (r : RecordStatus) → recorded (of_status r) ≡ some r
unfolding of_status
recorded-of_status RecordStatus.succeeded = refl
recorded-of_status RecordStatus.failed = refl
recorded-of_status RecordStatus.cancelled = refl

recorded-open_state :
    (records : Map NodeRecord) (n : Node) (ups : List NodeState)
    → recorded (open_state records n ups) ≡ none
unfolding open_state
recorded-open_state records n ups = ground arith

module _ (records : Map NodeRecord) (t : Map NodeState) where
  recorded_local :
      (n : Node) (x : NodeState)
      → local_state records t n ≡ some x
      → status_of records (name n) ≡ recorded x
  unfolding local_state status_of
  recorded_local n x h = elim (Option-cases (get (name n) records)) [
    | inr (r, p) ↦ ground (arith, recorded-of_status r.status)
    | inl p ↦ elim (Option-cases (upstream_states n.upstreams t)) [
      | inl q ↦ ground arith
      | inr (l, q) ↦ ground (arith, recorded-open_state records n l)
    ]
  ]

  -- the records of the upstreams and their states say the same
  abbrev Agree : List Text → Type 0
  Agree us =
      (u : Text) (x : NodeState) → Memᴰ u us → get u t ≡ some x → status_of records u ≡ recorded x

  module _ (f : Option RecordStatus → Bool) where
    all_upstreams :
        (us : List Text) (ups : List NodeState)
        → Agree us
        → upstream_states us t ≡ some ups
        → all (λ u. f (status_of records u)) us ≡ all (λ x. f (recorded x)) ups
    unfolding upstream_states
    all_upstreams [] ups h e = ground arith
    all_upstreams (u ∷ us) ups h e =
        let (x, xs, p, q, r) = cons_state-eq_some (get u t) (upstream_states us t) e in
        let ih = all_upstreams us xs (λ v y m. h v y (Memᴰ.tail m)) q in
        rw (r, h u x (Memᴰ.head refl) p, ih) refl

    any_upstreams :
        (us : List Text) (ups : List NodeState)
        → Agree us
        → upstream_states us t ≡ some ups
        → any (λ u. f (status_of records u)) us ≡ any (λ x. f (recorded x)) ups
    unfolding upstream_states
    any_upstreams [] ups h e = ground arith
    any_upstreams (u ∷ us) ups h e =
        let (x, xs, p, q, r) = cons_state-eq_some (get u t) (upstream_states us t) e in
        let ih = any_upstreams us xs (λ v y m. h v y (Memᴰ.tail m)) q in
        rw (r, h u x (Memᴰ.head refl) p, ih) refl

  rule_ready-eq :
      (rule : TriggerRule) (us : List Text) (ups : List NodeState)
      → Agree us
      → upstream_states us t ≡ some ups
      → rule_ready rule us records ≡ states_ready rule ups
  unfolding rule_ready
  rule_ready-eq all_succeeded us ups h e =
      all_upstreams (has_status RecordStatus.succeeded) us ups h e
  rule_ready-eq all_done us ups h e = all_upstreams is_some us ups h e
  rule_ready-eq one_failed us ups h e = any_upstreams (has_status RecordStatus.failed) us ups h e

  -- The state of a node of a solution, by its record or by the states of its upstreams.
  abbrev Cases : Node → NodeState → Type 0
  Cases n x =
      ((r : NodeRecord) × (get (name n) records ≡ some r) × (x ≡ of_status r.status))
      ⊎ ((ups : List NodeState) × (get (name n) records ≡ none)
          × (upstream_states n.upstreams t ≡ some ups)
          × (x ≡ classify (trigger_rule n) ups))

  open_state-eq :
      (n : Node) (ups : List NodeState)
      → Agree n.upstreams
      → upstream_states n.upstreams t ≡ some ups
      → open_state records n ups ≡ classify (trigger_rule n) ups
  unfolding open_state is_ready can_become_ready classify
  open_state-eq n ups h e = rw (rule_ready-eq (trigger_rule n) n.upstreams ups h e)

  local-Cases :
      (n : Node) (x : NodeState) → Agree n.upstreams → local_state records t n ≡ some x → Cases n x
  unfolding local_state
  local-Cases n x h e = elim (Option-cases (get (name n) records)) [
    | inr (r, p) ↦ inl (r, p, ground arith)
    | inl p ↦ elim (Option-cases (upstream_states n.upstreams t)) [
      | inl q ↦ absurd (ground arith)
      | inr (ups, q) ↦ inr (ups, p, q, ground (arith, open_state-eq n ups h q))
    ]
  ]

  module _ (nodes : List Node) (ordered : IsOrdered nodes) where
    solution_Agree : (n : Node) → Memᴰ n nodes → IsSolution records nodes t → Agree n.upstreams
    solution_Agree n m sol u x mu e =
        let (v, mv, eq) = ordered.known n u m mu in
        let (y, p, q) = sol.at v mv in
        let same : some y ≡ some x = sym p ∙ (rw eq e) in
        rw (← eq) (ground (arith, recorded_local v y q))

    pub solution-Cases :
        (n : Node) (x : NodeState)
        → IsSolution records nodes t
        → Memᴰ n nodes
        → get (name n) t ≡ some x
        → Cases n x
    solution-Cases n x sol m e =
        let (y, p, q) = sol.at n m in local-Cases n x (solution_Agree n m sol) (ground arith)
