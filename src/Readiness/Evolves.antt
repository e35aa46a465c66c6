-- ===== src/Readiness/Evolves.antt =====
-- What the records that follow can make of the state of a node.
use swale.Base.{
  ◌≡◌, refl, Bool, true, false, not, ◌||◌, inl, inr, List, [], ◌∷◌, Map, Text, some, get, Memᴰ, all,
  any, arith, Bool-cases,
}
use swale.Graph.{TriggerRule, all_succeeded, all_done, one_failed, is_some}
use swale.Records.{RecordStatus}
use swale.Readiness.{
  NodeState, succeeded, failed, cancelled, ready, waiting, blocked, is_open, is_succeeded,
  is_blocked, has_status, rule_can_become_ready, upstream_states,
}
use swale.Readiness.Extends.{cons_state-eq_some}
use swale.Readiness.Status.{recorded, states_ready, classify}

-- A state from a record and a blocked state stay, a ready node stays ready until its record is
-- written, and a waiting node can get any state.
abbrev pub evolves : NodeState → NodeState → Bool
evolves succeeded succeeded = true
evolves failed failed = true
evolves cancelled cancelled = true
evolves ready ready = true
evolves ready succeeded = true
evolves ready failed = true
evolves ready cancelled = true
evolves blocked blocked = true
evolves waiting _ = true
evolves _ _ = false

abbrev pub EvolvesAll : List NodeState → List NodeState → Type 0
EvolvesAll [] [] = Unit {0}
EvolvesAll (x ∷ xs) (y ∷ ys) = (evolves x y ≡ true) × EvolvesAll xs ys
EvolvesAll _ _ = ⊥

-- a test that no step can turn from true to false, and one that none can turn back to true
module _ (f : NodeState → Bool)
    (stays : (x y : NodeState) → evolves x y ≡ true → f x ≡ true → f y ≡ true) where
  all_stays : (xs ys : List NodeState) → EvolvesAll xs ys → all f xs ≡ true → all f ys ≡ true
  all_stays [] [] e h = refl
  all_stays (x ∷ xs) [] e h = absurd e
  all_stays [] (y ∷ ys) e h = absurd e
  all_stays (x ∷ xs) (y ∷ ys) e h = ground (arith, stays x y e.0, all_stays xs ys e.1)

  any_stays : (xs ys : List NodeState) → EvolvesAll xs ys → any f xs ≡ true → any f ys ≡ true
  any_stays [] [] e h = h
  any_stays (x ∷ xs) [] e h = absurd e
  any_stays [] (y ∷ ys) e h = absurd e
  any_stays (x ∷ xs) (y ∷ ys) e h = ground (arith, stays x y e.0, any_stays xs ys e.1)

module _ (f : NodeState → Bool)
    (stays : (x y : NodeState) → evolves x y ≡ true → f x ≡ false → f y ≡ false) where
  all_falls : (xs ys : List NodeState) → EvolvesAll xs ys → all f xs ≡ false → all f ys ≡ false
  all_falls [] [] e h = h
  all_falls (x ∷ xs) [] e h = absurd e
  all_falls [] (y ∷ ys) e h = absurd e
  all_falls (x ∷ xs) (y ∷ ys) e h = ground (arith, stays x y e.0, all_falls xs ys e.1)

  any_falls : (xs ys : List NodeState) → EvolvesAll xs ys → any f xs ≡ false → any f ys ≡ false
  any_falls [] [] e h = h
  any_falls (x ∷ xs) [] e h = absurd e
  any_falls [] (y ∷ ys) e h = absurd e
  any_falls (x ∷ xs) (y ∷ ys) e h = ground (arith, stays x y e.0, any_falls xs ys e.1)

module _ (f h : NodeState → Bool) (imp : (x : NodeState) → f x ≡ true → h x ≡ true) where
  all_weaken : (xs : List NodeState) → all h xs ≡ false → all f xs ≡ false
  all_weaken [] e = e
  all_weaken (x ∷ xs) e = ground (arith, imp x, all_weaken xs)

module _ (f h : NodeState → Bool) where
  any_both : (xs : List NodeState) → any (λ x. f x || h x) xs ≡ (any f xs || any h xs)
  any_both [] = refl
  any_both (x ∷ xs) = ground (arith, any_both xs)

-- the tests of the three rules
abbrev is_done : NodeState → Bool
is_done x = is_some (recorded x)

abbrev is_failed : NodeState → Bool
is_failed x = has_status RecordStatus.failed (recorded x)

abbrev did_succeed : NodeState → Bool
did_succeed x = has_status RecordStatus.succeeded (recorded x)

abbrev can_succeed : NodeState → Bool
can_succeed x = is_succeeded x || is_open x

abbrev not_blocked : NodeState → Bool
not_blocked x = not (is_blocked x)

abbrev can_fail : NodeState → Bool
can_fail x = is_open x || is_failed x

done_stays : (x y : NodeState) → evolves x y ≡ true → is_done x ≡ true → is_done y ≡ true
done_stays succeeded y e h = ground arith
done_stays _ y e h = ground arith

failed_stays : (x y : NodeState) → evolves x y ≡ true → is_failed x ≡ true → is_failed y ≡ true
failed_stays succeeded y e h = ground arith
failed_stays _ y e h = ground arith

succeeded_stays :
    (x y : NodeState) → evolves x y ≡ true → did_succeed x ≡ true → did_succeed y ≡ true
succeeded_stays succeeded y e h = ground arith
succeeded_stays _ y e h = ground arith

cannot_succeed_stays :
    (x y : NodeState) → evolves x y ≡ true → can_succeed x ≡ false → can_succeed y ≡ false
unfolding is_open
cannot_succeed_stays succeeded y e h = ground arith
cannot_succeed_stays _ y e h = ground arith

blocked_stays :
    (x y : NodeState) → evolves x y ≡ true → not_blocked x ≡ false → not_blocked y ≡ false
blocked_stays succeeded y e h = ground arith
blocked_stays _ y e h = ground arith

cannot_fail_stays : (x y : NodeState) → evolves x y ≡ true → can_fail x ≡ false → can_fail y ≡ false
unfolding is_open
cannot_fail_stays succeeded y e h = ground arith
cannot_fail_stays _ y e h = ground arith

did-can_succeed : (x : NodeState) → did_succeed x ≡ true → can_succeed x ≡ true
did-can_succeed succeeded h = refl
did-can_succeed _ h = ground arith

done-not_blocked : (x : NodeState) → is_done x ≡ true → not_blocked x ≡ true
done-not_blocked succeeded h = refl
done-not_blocked _ h = ground arith

states_ready_stays :
    (rule : TriggerRule) (xs ys : List NodeState)
    → EvolvesAll xs ys
    → states_ready rule xs ≡ true
    → states_ready rule ys ≡ true
states_ready_stays all_succeeded xs ys e h = all_stays did_succeed succeeded_stays xs ys e h
states_ready_stays all_done xs ys e h = all_stays is_done done_stays xs ys e h
states_ready_stays one_failed xs ys e h = any_stays is_failed failed_stays xs ys e h

blocked_rule_stays :
    (rule : TriggerRule) (xs ys : List NodeState)
    → EvolvesAll xs ys
    → states_ready rule xs ≡ false
    → rule_can_become_ready rule xs ≡ false
    → (states_ready rule ys ≡ false) × (rule_can_become_ready rule ys ≡ false)
unfolding rule_can_become_ready
blocked_rule_stays all_succeeded xs ys e r h =
    let b = all_falls can_succeed cannot_succeed_stays xs ys e h in
    (all_weaken did_succeed can_succeed did-can_succeed ys b, b)
blocked_rule_stays all_done xs ys e r h =
    let b = all_falls not_blocked blocked_stays xs ys e h in
    (all_weaken is_done not_blocked done-not_blocked ys b, b)
blocked_rule_stays one_failed xs ys e r h =
    let none_can : any can_fail xs ≡ false = ground (arith, any_both is_open is_failed xs) in
    let b = any_falls can_fail cannot_fail_stays xs ys e none_can in
    ground (arith, any_both is_open is_failed ys)

pub classify-evolves :
    (rule : TriggerRule) (xs ys : List NodeState)
    → EvolvesAll xs ys
    → evolves (classify rule xs) (classify rule ys) ≡ true
unfolding classify
classify-evolves rule xs ys e = elim (Bool-cases (states_ready rule xs)) [
  | inl r ↦ rw (r, states_ready_stays rule xs ys e r)
  | inr r ↦ elim (Bool-cases (rule_can_become_ready rule xs)) [
    | inl c ↦ rw (r, c)
    | inr c ↦ let (p, q) = blocked_rule_stays rule xs ys e r c in rw (r, c, p, q)
  ]
]

-- The upstreams of a node evolve together.
pub upstream_states-evolve :
    (us : List Text) (s t : Map NodeState) (xs ys : List NodeState)
    → ((u : Text) (x y : NodeState)
        → Memᴰ u us
        → get u s ≡ some x
        → get u t ≡ some y
        → evolves x y ≡ true)
    → upstream_states us s ≡ some xs
    → upstream_states us t ≡ some ys
    → EvolvesAll xs ys
unfolding upstream_states
upstream_states-evolve [] s t xs ys h p q =
    let e : [] ≡ xs = ground arith in let f : [] ≡ ys = ground arith in rw (← e, ← f) tt
upstream_states-evolve (u ∷ us) s t xs ys h p q =
    let (x, xs', a, b, c) = cons_state-eq_some (get u s) (upstream_states us s) p in
    let (y, ys', a', b', c') = cons_state-eq_some (get u t) (upstream_states us t) q in
    rw (c, c')
      (
        h u x y (Memᴰ.head refl) a a',
        upstream_states-evolve us s t xs' ys' (λ v w z m. h v w z (Memᴰ.tail m)) b b',
      )
