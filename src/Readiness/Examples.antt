-- ===== src/Readiness/Examples.antt =====
-- Runs of the readiness rule on the graph of a task node `b` with the rule `all_done` after the
-- asset node `a`.
use mathlib.Core.List.Memᴰ
use swale.Base.{
  ℕ, ◌≤◌, ◌≡◌, ◌↔◌, refl, true, false, inl, inr, none, some, [], ◌∷◌, Memᴰ, Map, codes, get, insert,
  text_eq, text_lt, length,
}
use swale.Graph.{Node, name, trigger_rule}
use swale.Graph.Examples.{
  node_a, node_b, demo_graph, swapped_graph, demo_IsOrdered, swapped_IsOrdered,
}
use swale.Records.{RecordStatus, NodeRecord, GraphRunState}
use swale.Readiness.{
  NodeState, succeeded, failed, ready, waiting, node_states, passes, pass, resolve, settled_state,
  local_state, upstream_states, open_state, is_ready, status_of, can_become_ready, of_status,
  is_open,
}
use swale.Readiness.Solution.{IsSolution, node_states_total, node_states-order}
use swale.Readiness.Evolves.{evolves}
use swale.Readiness.Runs.{Steps, terminate, next, here, Steps-evolves}
use swale.Readiness.Finish.{unsettled_has_ready, settled_complete, Steps-le, AddedBy, run_settles}

abbrev pub record_of : RecordStatus → NodeRecord
record_of s = record {
  status = s;
  run_id = codes "demo-20260915-a-r0";
  definition = codes "abc";
  rerun = 0;
  terminated_at_ms = 0;
  output = none;
  output_omitted = false;
  error = none;
}

abbrev a_failed : Map NodeRecord
a_failed = insert (codes "a") (record_of RecordStatus.failed) []

abbrev pub both_done : Map NodeRecord
both_done = insert (codes "b") (record_of RecordStatus.succeeded) a_failed

abbrev states_before : Map NodeState
states_before = (codes "a", ready) ∷ ((codes "b", waiting) ∷ [])

abbrev states_between : Map NodeState
states_between = (codes "a", failed) ∷ ((codes "b", ready) ∷ [])

abbrev pub states_after : Map NodeState
states_after = (codes "a", failed) ∷ ((codes "b", succeeded) ∷ [])

before : node_states demo_graph [] ≡ some states_before
unfolding node_states passes pass resolve get local_state upstream_states insert text_eq text_lt
    open_state is_ready trigger_rule status_of can_become_ready of_status
before = refl

between : node_states demo_graph a_failed ≡ some states_between
unfolding node_states passes pass resolve get local_state upstream_states insert text_eq text_lt
    open_state is_ready trigger_rule status_of can_become_ready of_status
between = refl

after : node_states demo_graph both_done ≡ some states_after
unfolding node_states passes pass resolve get local_state upstream_states insert text_eq text_lt
    open_state is_ready trigger_rule status_of can_become_ready of_status
after = refl

get_before : get (codes "a") states_before ≡ some ready
unfolding get text_eq
get_before = refl

get_between : get (codes "b") states_between ≡ some ready
unfolding get text_eq
get_between = refl

get_a_after : get (codes "a") states_after ≡ some failed
unfolding get text_eq
get_a_after = refl

a_mem : Memᴰ node_a demo_graph.nodes
a_mem = Memᴰ.tail (Memᴰ.head refl)

b_mem : Memᴰ node_b demo_graph.nodes
b_mem = Memᴰ.head refl

two-Steps : Steps demo_graph [] 2 both_done
two-Steps =
    next
      (next here
        (terminate states_before node_a (record_of RecordStatus.failed) before a_mem get_before))
      (terminate states_between node_b (record_of RecordStatus.succeeded) between b_mem get_between)

open_between : settled_state states_between ≡ none
unfolding settled_state is_open
open_between = refl

failed_after : settled_state states_after ≡ some GraphRunState.failed
unfolding settled_state is_open
failed_after = refl

swap_pair : {A : Type 0} (x y z : A) → Memᴰ z (x ∷ (y ∷ [])) → Memᴰ z (y ∷ (x ∷ []))
swap_pair x y z m = elim (Memᴰ.cases_cons m) [
  | inl e ↦ Memᴰ.tail (Memᴰ.head e)
  | inr m' ↦ elim (Memᴰ.cases_cons m') [ inl e ↦ Memᴰ.head e | inr n ↦ absurd (Memᴰ.not-nil n) ]
]

node_states_total_example :
    (t : Map NodeState) × (node_states demo_graph a_failed ≡ some t)
    × IsSolution a_failed demo_graph.nodes t
node_states_total_example = node_states_total demo_graph a_failed demo_IsOrdered

node_states-order_example :
    (s : Map NodeState) × (t : Map NodeState) × (node_states demo_graph a_failed ≡ some s)
    × (node_states swapped_graph a_failed ≡ some t)
    × ((n : Node) → Memᴰ n demo_graph.nodes → get (name n) s ≡ get (name n) t)
node_states-order_example =
    node_states-order demo_graph swapped_graph a_failed demo_IsOrdered swapped_IsOrdered
      (λ n. (swap_pair node_b node_a n, swap_pair node_a node_b n))

Steps-evolves_example : evolves ready failed ≡ true
Steps-evolves_example =
    Steps-evolves demo_graph demo_IsOrdered states_before states_after two-Steps before after node_a
      ready failed a_mem get_before get_a_after

unsettled_has_ready_example :
    (n : Node) × Memᴰ n demo_graph.nodes × (get (name n) states_between ≡ some ready)
unsettled_has_ready_example =
    unsettled_has_ready demo_graph demo_IsOrdered a_failed states_between between open_between

settled_complete_example : (settled_state states_after ≡ some GraphRunState.complete) ↔ (
    (n : Node)
    → Memᴰ n demo_graph.nodes
    → (r : NodeRecord) × (get (name n) both_done ≡ some r) × (r.status ≡ RecordStatus.succeeded))
settled_complete_example = settled_complete demo_graph demo_IsOrdered both_done states_after after

Steps-le_example : 2 ≤ length demo_graph.nodes
Steps-le_example = Steps-le demo_graph demo_IsOrdered two-Steps

run_settles_example :
    (k : ℕ) × (r : Map NodeRecord) × (t : Map NodeState) × (state : GraphRunState) × Steps
      demo_graph [] k r
    × AddedBy demo_graph demo_IsOrdered (λ _. record_of RecordStatus.succeeded) [] r
    × (node_states demo_graph r ≡ some t)
    × (settled_state t ≡ some state)
run_settles_example =
    run_settles demo_graph demo_IsOrdered (λ _. record_of RecordStatus.succeeded) []
