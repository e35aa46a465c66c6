-- ===== src/Readiness/Finish.antt =====
-- When a graph run is finished (swale/src/readiness.rs).
use swale.Base.{
  ℕ, zero, suc, ◌≤◌, ◌≡◌, ◌↔◌, ◌≢◌, refl, sym, ◌∙◌, true, inl, inr, none, some, Memᴰ, Text, Map,
  ◌⊎◌, get, get-insert, text_eq, text_eq_iff, Bool-cases, insert, length, all, all-mem, all-intro,
  any-mem, arith, Option-cases,
}
use swale.Graph.{Graph, Node, name}
use swale.Graph.Ordered.{IsOrdered}
use swale.Records.{RecordStatus, NodeRecord, GraphRunState}
use swale.Readiness.{NodeState, ready, is_open, is_succeeded, node_states, values, settled_state}
use swale.Readiness.Count.{unresolved, unresolved-le-length}
use swale.Readiness.Solution.{node_states_total}
use swale.Readiness.Settle.{
  values-mem, is_succeeded_lem, some_succeeded, any-none, open_node, node_of_value,
  recorded_succeeded, state_succeeded, ready-Below,
}
use swale.Readiness.Runs.{
  Steps, terminate, here, IsSolution-of, Steps-unresolved, Step-unresolved, Steps-cons,
}

module _ {Expression : Type 0} (g : Graph Expression) (ordered : IsOrdered g.nodes)
    (records : Map NodeRecord) (t : Map NodeState) (states : node_states g records ≡ some t) where
  -- In an ordered graph, where the states that any records give the nodes make no final state of
  -- the graph run, some node is ready.
  pub unsettled_has_ready :
      settled_state t ≡ none → (n : Node) × Memᴰ n g.nodes × (get (name n) t ≡ some ready)
  unsettled_has_ready h =
      let sol = IsSolution-of g ordered records t states in
      let (n, x, m, e, o) = open_node g ordered records t sol h in
      ready-Below g ordered records t sol (name n) n x (ordered.grounded n m) refl m e o

  -- In an ordered graph the states that the records give the nodes make a graph run complete
  -- exactly when every node has a succeeded record.
  pub settled_complete : (settled_state t ≡ some GraphRunState.complete) ↔ (
      (n : Node)
      → Memᴰ n g.nodes
      → (r : NodeRecord) × (get (name n) records ≡ some r) × (r.status ≡ RecordStatus.succeeded))
  unfolding settled_state is_open
  settled_complete =
      let sol = IsSolution-of g ordered records t states in
      (
        λ h n m.
            let all_ok : all is_succeeded (values t) ≡ true = ground arith in
            let (x, e, _) = sol.at n m in
            let x_ok =
              is_succeeded_lem x
                (all-mem is_succeeded (values t) all_ok x (values-mem t (name n) x e)) in
            recorded_succeeded g ordered records t sol n m (rw x_ok at e),
        λ h.
            let each = λ (x : NodeState) (m : Memᴰ x (values t)).
              let (n, mn, e) = node_of_value g ordered records t sol x m in
              let (r, p, q) = h n mn in
              some_succeeded x (sym e ∙ state_succeeded g ordered records t sol n r mn p q) in
            let all_ok = all-intro is_succeeded (values t) (λ x m. rw (each x m)) in
            let none_open = any-none (values t) (λ x m. rw (each x m, is_open)) in ground arith,
      )

  -- Where the states make a final state, no node is ready.
  pub settled_final :
      (state : GraphRunState)
      → settled_state t ≡ some state
      → (n : Node) → Memᴰ n g.nodes
      → get (name n) t ≢ some ready
  unfolding settled_state
  settled_final state h n m e =
      let o =
        any-mem is_open (values t) ready (values-mem t (name n) ready e) (unfold is_open in refl) in
      ground arith

module _ {Expression : Type 0} (g : Graph Expression) (ordered : IsOrdered g.nodes) where
  -- In an ordered graph no sequence of terminations of ready nodes, from any records, is longer
  -- than the list of nodes.
  pub Steps-le :
      {records : Map NodeRecord} {k : ℕ} {r : Map NodeRecord}
      → Steps g records k r
      → k ≤ length g.nodes
  Steps-le {records} {k} {r} steps =
      omega (arith, Steps-unresolved g ordered steps, unresolved-le-length g.nodes records)

  -- Every record that was added is the one that `finish` gives its node.
  abbrev pub AddedBy : (Node → NodeRecord) → Map NodeRecord → Map NodeRecord → Type 0
  AddedBy finish records r =
      (k : Text)
      → (get k r ≡ get k records)
        ⊎ ((n : Node) × Memᴰ n g.nodes × (name n ≡ k) × (get k r ≡ some (finish n)))

  AddedBy-insert :
      (finish : Node → NodeRecord) (n : Node) (records r : Map NodeRecord)
      → Memᴰ n g.nodes
      → AddedBy finish (insert (name n) (finish n) records) r
      → AddedBy finish records r
  AddedBy-insert finish n records r m later k = elim (later k) [
    | inr by_finish ↦ inr by_finish
    | inl kept ↦
        let put = get-insert (name n) k (finish n) records in
        elim (Bool-cases (text_eq (name n) k)) [
          | inl same ↦ inr (n, m, (text_eq_iff (name n) k).0 same, kept ∙ rw same at put)
          | inr other ↦ inl (kept ∙ rw other at put)
        ]
  ]

  run_from :
      (finish : Node → NodeRecord) (fuel : ℕ) (records : Map NodeRecord)
      → unresolved g.nodes records ≤ fuel
      → (k : ℕ) × (r : Map NodeRecord) × (t : Map NodeState) × (state : GraphRunState) × Steps g
          records k r
        × AddedBy finish records r
        × (node_states g r ≡ some t)
        × (settled_state t ≡ some state)
  run_from finish zero records le =
      let (t, e, sol) = node_states_total g records ordered in
      elim (Option-cases (settled_state t)) [
        | inr (state, h) ↦ (0, records, t, state, here, λ k. inl refl, e, h)
        | inl h ↦
            let (n, m, rd) = unsettled_has_ready g ordered records t e h in
            let fewer = Step-unresolved g ordered (terminate t n (finish n) e m rd) in
            absurd (omega arith)
      ]
  run_from finish (suc fuel) records le =
      let (t, e, sol) = node_states_total g records ordered in
      elim (Option-cases (settled_state t)) [
        | inr (state, h) ↦ (0, records, t, state, here, λ k. inl refl, e, h)
        | inl h ↦
            let (n, m, rd) = unsettled_has_ready g ordered records t e h in
            let step = terminate t n (finish n) e m rd in
            let fewer = Step-unresolved g ordered step in
            let (k, r, u, state, steps, added, eu, hu) =
              run_from finish fuel (insert (name n) (finish n) records) (omega arith) in
            (
              suc k,
              r,
              u,
              state,
              Steps-cons g step steps,
              AddedBy-insert finish n records r m added,
              eu,
              hu,
            )
      ]

  -- In an ordered graph, from any records and for any choice of the record that each node leaves,
  -- there is a sequence of terminations of ready nodes after which the states make a final state, and
  -- every record that it adds is the one chosen for its node.
  pub run_settles :
      (finish : Node → NodeRecord) (records : Map NodeRecord)
      → (k : ℕ) × (r : Map NodeRecord) × (t : Map NodeState) × (state : GraphRunState) × Steps g
          records k r
        × AddedBy finish records r
        × (node_states g r ≡ some t)
        × (settled_state t ≡ some state)
  run_settles finish records = run_from finish (unresolved g.nodes records) records (omega arith)
