-- ===== src/Readiness/Settle.antt =====
-- What the values of a map of states say about the nodes of the graph (swale/src/readiness.rs).
use mathlib.Core.List.Memᴰ
use mathlib.Core.WellFounded.{Acc}
use swale.Base.{
  text_eq, ◌≡◌, ◌≢◌, refl, sym, ◌∙◌, true, false, not, ◌||◌, ◌⊎◌, inl, inr, none, some, List, [],
  ◌∷◌, Memᴰ, Text, Map, get, any, all-mem, all-eq_false, any-eq_true, arith, Bool-cases,
}
use swale.Graph.{
  Graph, Node, TriggerRule, all_succeeded, all_done, one_failed, name, trigger_rule, is_some,
}
use swale.Graph.Ordered.{IsOrdered, Below, below}
use swale.Records.{RecordStatus, NodeRecord}
use swale.Readiness.{
  NodeState, succeeded, ready, waiting, is_open, is_succeeded, is_blocked, of_status, values,
  settled_state, upstream_states, rule_can_become_ready, has_status,
}
use swale.Readiness.Extends.{cons_state-eq_some}
use swale.Readiness.Solution.{IsSolution}
use swale.Readiness.Status.{recorded, classify, states_ready, solution-Cases}

mem-values : (t : Map NodeState) (x : NodeState) → Memᴰ x (values t) → (k : Text) × Memᴰ (k, x) t
mem-values [] x m = absurd (Memᴰ.not-nil m)
mem-values ((k, y) ∷ t) x m = elim (Memᴰ.cases_cons m) [
  | inl e ↦ (k, rw e (Memᴰ.head refl))
  | inr m' ↦ let (j, p) = mem-values t x m' in (j, Memᴰ.tail p)
]

pub values-mem :
    (t : Map NodeState) (k : Text) (x : NodeState) → get k t ≡ some x → Memᴰ x (values t)
unfolding get
values-mem [] k x e = cc
values-mem ((j, y) ∷ t) k x e = elim (Bool-cases (text_eq j k)) [
  | inl p ↦ let q : x ≡ y = ground arith in Memᴰ.head q
  | inr p ↦ Memᴰ.tail (values-mem t k x (rw p at e))
]

waiting_tests :
    (rule : TriggerRule) (ups : List NodeState)
    → classify rule ups ≡ waiting
    → (states_ready rule ups ≡ false) × (rule_can_become_ready rule ups ≡ true)
unfolding classify
waiting_tests rule ups h = ground arith

open_of_can_succeed :
    (x : NodeState)
    → has_status RecordStatus.succeeded (recorded x) ≡ false
    → (is_succeeded x || is_open x) ≡ true
    → is_open x ≡ true
open_of_can_succeed succeeded p q = cc
open_of_can_succeed _ p q = q

open_of_not_done :
    (x : NodeState) → is_some (recorded x) ≡ false → not (is_blocked x) ≡ true → is_open x ≡ true
unfolding is_open
open_of_not_done succeeded p q = cc
open_of_not_done _ p q = ground arith

-- A node that is waiting has an upstream that is ready or waiting.
open_upstream :
    (rule : TriggerRule) (ups : List NodeState)
    → (states_ready rule ups ≡ false) × (rule_can_become_ready rule ups ≡ true)
    → (x : NodeState) × Memᴰ x ups × (is_open x ≡ true)
unfolding rule_can_become_ready
open_upstream all_succeeded ups (p, q) =
    let (x, m, e) = all-eq_false _ ups p in (x, m, open_of_can_succeed x e (all-mem _ ups q x m))
open_upstream all_done ups (p, q) =
    let (x, m, e) = all-eq_false _ ups p in (x, m, open_of_not_done x e (all-mem _ ups q x m))
open_upstream one_failed ups (p, q) = any-eq_true is_open ups q

mem-upstream_states :
    (us : List Text) (t : Map NodeState) (ups : List NodeState) (x : NodeState)
    → upstream_states us t ≡ some ups
    → Memᴰ x ups
    → (u : Text) × Memᴰ u us × (get u t ≡ some x)
unfolding upstream_states
mem-upstream_states [] t ups x e m =
    let f : [] ≡ ups = ground arith in absurd (Memᴰ.not-nil (rw (← f) at m))
mem-upstream_states (u ∷ us) t ups x e m =
    let (y, ys, p, q, r) = cons_state-eq_some (get u t) (upstream_states us t) e in
    elim (Memᴰ.cases_cons (rw r at m)) [
      | inl same ↦ (u, Memᴰ.head refl, rw same p)
      | inr m' ↦ let (v, mv, pv) = mem-upstream_states us t ys x q m' in (v, Memᴰ.tail mv, pv)
    ]

open_cases : (x : NodeState) → is_open x ≡ true → (x ≡ ready) ⊎ (x ≡ waiting)
unfolding is_open
open_cases ready h = inl refl
open_cases waiting h = inr refl
open_cases _ h = cc

succeeded_of_status : (s : RecordStatus) → of_status s ≡ succeeded → s ≡ RecordStatus.succeeded
unfolding of_status
succeeded_of_status RecordStatus.succeeded e = refl
succeeded_of_status RecordStatus.failed e = cc
succeeded_of_status RecordStatus.cancelled e = cc

classify-ne-succeeded : (rule : TriggerRule) (ups : List NodeState) → classify rule ups ≢ succeeded
unfolding classify
classify-ne-succeeded rule ups h = ground arith

pub is_succeeded_lem : (x : NodeState) → is_succeeded x ≡ true → x ≡ succeeded
is_succeeded_lem succeeded h = refl
is_succeeded_lem _ h = cc

pub some_succeeded : (x : NodeState) → some x ≡ some succeeded → x ≡ succeeded
some_succeeded x h = ground arith

pub any-none :
    (xs : List NodeState)
    → ((x : NodeState) → Memᴰ x xs → is_open x ≡ false)
    → any is_open xs ≡ false
any-none [] h = refl
any-none (x ∷ xs) h = rw (h x (Memᴰ.head refl)) (any-none xs (λ y m. h y (Memᴰ.tail m)))

of_status-ne-waiting : (s : RecordStatus) → of_status s ≢ waiting
unfolding of_status
of_status-ne-waiting RecordStatus.succeeded e = cc
of_status-ne-waiting RecordStatus.failed e = cc
of_status-ne-waiting RecordStatus.cancelled e = cc

module _ {Expression : Type 0} (g : Graph Expression) (ordered : IsOrdered g.nodes)
    (records : Map NodeRecord) (t : Map NodeState) (sol : IsSolution records g.nodes t) where
  -- At or below an open node stands a ready one.
  pub ready-Below :
      (k : Text) (n : Node) (x : NodeState)
      → Acc (Below g.nodes) k
      → name n ≡ k
      → Memᴰ n g.nodes
      → get (name n) t ≡ some x
      → is_open x ≡ true
      → (m : Node) × Memᴰ m g.nodes × (get (name m) t ≡ some ready)
  ready-Below k n x (Acc.intro _ smaller) eq m e o = elim (open_cases x o) [
    | inl r ↦ (n, m, rw r at e)
    | inr w ↦ elim (solution-Cases records t g.nodes ordered n x sol m e) [
      | inl (rc, a, b) ↦ absurd (of_status-ne-waiting rc.status (sym b ∙ w))
      | inr (ups, a, b, c) ↦
          let (y, my, oy) =
            open_upstream (trigger_rule n) ups (waiting_tests (trigger_rule n) ups (sym c ∙ w)) in
          let (u, mu, eu) = mem-upstream_states n.upstreams t ups y b my in
          let (v, mv, ev) = ordered.known n u m mu in
          ready-Below u v y (smaller u (below n m eq mu)) ev mv (rw ev eu) oy
    ]
  ]

  pub open_node :
      settled_state t ≡ none
      → (n : Node) × (x : NodeState) × Memᴰ n g.nodes
        × (get (name n) t ≡ some x)
        × (is_open x ≡ true)
  unfolding settled_state
  open_node h =
      let (x, m, o) = any-eq_true is_open (values t) (ground arith) in
      let (k, mk) = mem-values t x m in
      let (n, mn, e, p) = sol.entries k x mk in (n, x, mn, rw e p, o)

  pub node_of_value :
      (x : NodeState) → Memᴰ x (values t) → (n : Node) × Memᴰ n g.nodes × (get (name n) t ≡ some x)
  node_of_value x m =
      let (k, mk) = mem-values t x m in let (n, mn, e, p) = sol.entries k x mk in (n, mn, rw e p)

  pub recorded_succeeded :
      (n : Node)
      → Memᴰ n g.nodes
      → get (name n) t ≡ some succeeded
      → (r : NodeRecord) × (get (name n) records ≡ some r) × (r.status ≡ RecordStatus.succeeded)
  recorded_succeeded n m e = elim (solution-Cases records t g.nodes ordered n succeeded sol m e) [
    | inl (r, a, b) ↦ (r, a, succeeded_of_status r.status (sym b))
    | inr (ups, a, b, c) ↦ absurd (classify-ne-succeeded (trigger_rule n) ups (sym c))
  ]

  pub state_succeeded :
      (n : Node) (r : NodeRecord)
      → Memᴰ n g.nodes
      → get (name n) records ≡ some r
      → r.status ≡ RecordStatus.succeeded
      → get (name n) t ≡ some succeeded
  unfolding of_status
  state_succeeded n r m p q =
      let (x, e, _) = sol.at n m in
      elim (solution-Cases records t g.nodes ordered n x sol m e) [
        | inl (r', a, b) ↦ ground arith
        | inr (ups, a, b, c) ↦ absurd (ground arith)
      ]
