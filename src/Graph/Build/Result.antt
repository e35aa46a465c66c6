-- ===== src/Graph/Build/Result.antt =====
-- The result of `Graph::build` (swale/src/graph.rs).
use swale.Base.{
  Memᴰ, ◌+◌, ◌≤◌, length, subst, true, ℕ, ◌≡◌, ◌≢◌, refl, true, false, not, Option, List, [], ◌∷◌,
  ◌++◌, Text, Map, arith,
}
use swale.Graph.{Node, name, max_graph_and_node_name_len, GraphSpec, Graph, is_name}
use swale.Graph.Ordered.{IsOrdered}
use swale.Graph.Problems.{Problem, push_if}
use swale.Graph.Checks.{
  Cron, check_schedule, check_names, check_producers, check_duplicates, check_upstreams,
}
use swale.Graph.Checks.Names.{names_valid, push_if-eq_nil, append-eq_nil}
use swale.Graph.Params.{OperatorSet, check_params}
use swale.Graph.Cycle.{Visit, Mark, find_cycle, found, marked, stuck}
use swale.Graph.Cycle.Sound.{find_cycle_total, find_cycle_sound}
use swale.Graph.Build.{graph, panicked, make_nodes, all_downstreams, finish_build, build}
use swale.Partition.{CivilTime}
use swale.Graph.Build.Checked.{mem-make_nodes, mem-of_get_elem?, build_IsIndexed, made_IsOrdered}

heads_nil :
    {A : Type 0} (a b c d e : List A)
    → a ++ (b ++ (c ++ (d ++ e))) ≡ []
    → (a ≡ []) × (b ≡ []) × (c ≡ []) × (d ≡ [])
heads_nil a b c d e h =
    let (p, h1) = append-eq_nil a (b ++ (c ++ (d ++ e))) h in
    let (q, h2) = append-eq_nil b (c ++ (d ++ e)) h1 in
    let (r, h3) = append-eq_nil c (d ++ e) h2 in let (s, h4) = append-eq_nil d e h3 in (p, q, r, s)

module _ {Expression : Type 0} (cron : Cron Expression)
    (from_timestamp_millis : ℕ → Option CivilTime) (operators : OperatorSet) where
  finished :
      (spec : GraphSpec) (schedule : Option Expression) (index : Map ℕ) (ups : List (List Text))
      (ps : List Problem) (g : Graph Expression)
      → finish_build cron from_timestamp_millis operators spec schedule index ups ps ≡ graph g
      → (m : List Mark) × (ps ≡ [])
        × (find_cycle spec.nodes ups index ≡ marked m)
        × (g.nodes ≡ make_nodes spec.nodes ups (all_downstreams spec.nodes ups []))
        × (g.name ≡ spec.name)
  unfolding finish_build
  finished spec schedule index ups (p ∷ ps) g h = cc
  finished spec schedule index ups [] g h = go (find_cycle spec.nodes ups index) refl
    where
      go :
          (v : Visit)
          → find_cycle spec.nodes ups index ≡ v
          → (m : List Mark) × (◌≡◌ {A = List Problem} [] [])
            × (find_cycle spec.nodes ups index ≡ marked m)
            × (g.nodes ≡ make_nodes spec.nodes ups (all_downstreams spec.nodes ups []))
            × (g.name ≡ spec.name)
      go (found c) e = absurd (ground arith)
      go stuck e = absurd (ground arith)
      go (marked m) e = (m, refl, e, ground arith, ground arith)

  abbrev name_faults : GraphSpec → List Problem
  name_faults spec = (check_names spec.name spec.nodes 0 []).0

  abbrev positions : GraphSpec → Map ℕ
  positions spec = (check_names spec.name spec.nodes 0 []).1

  abbrev producers : GraphSpec → Map (List Text)
  producers spec = (check_producers spec.nodes []).1

  abbrev upstream_lists : GraphSpec → List (List Text)
  upstream_lists spec = (check_upstreams (positions spec) (producers spec) spec.nodes).1

  abbrev schedule_of : GraphSpec → Option Expression
  schedule_of spec = (check_schedule cron from_timestamp_millis spec.schedule spec.partitioning).1

  abbrev all_faults : GraphSpec → List Problem
  all_faults spec =
      push_if (not (is_name spec.name)) (Problem.invalid_graph_name spec.name)
      ++ ((check_schedule cron from_timestamp_millis spec.schedule spec.partitioning).0
          ++ (push_if (elim spec.nodes [ [] ↦ true | _ ∷ _ ↦ false ]) Problem.no_nodes
              ++ (name_faults spec
                  ++ ((check_producers spec.nodes []).0
                      ++ (check_duplicates (producers spec)
                          ++ ((check_upstreams (positions spec) (producers spec) spec.nodes).0
                              ++ check_params operators spec.nodes (upstream_lists spec)))))))

  built_parts :
      (spec : GraphSpec) (g : Graph Expression)
      → build cron from_timestamp_millis operators spec ≡ graph g
      → (m : List Mark) × (all_faults spec ≡ [])
        × (find_cycle spec.nodes (upstream_lists spec) (positions spec) ≡ marked m)
        × (g.nodes
            ≡ make_nodes spec.nodes
                (upstream_lists spec)
                (all_downstreams spec.nodes (upstream_lists spec) []))
        × (g.name ≡ spec.name)
  unfolding build
  built_parts spec g h =
      finished spec (schedule_of spec) (positions spec) (upstream_lists spec) (all_faults spec) g h

  graph_name_valid : (spec : GraphSpec) → all_faults spec ≡ [] → is_name spec.name ≡ true
  graph_name_valid spec none_ =
      let (a, _) =
        append-eq_nil (push_if (not (is_name spec.name)) (Problem.invalid_graph_name spec.name)) _
          none_ in
      let ok_name = push_if-eq_nil _ (Problem.invalid_graph_name spec.name) a in ground arith

  no_name_faults : (spec : GraphSpec) → all_faults spec ≡ [] → name_faults spec ≡ []
  no_name_faults spec none_ =
      (heads_nil (push_if (not (is_name spec.name)) (Problem.invalid_graph_name spec.name))
        (check_schedule cron from_timestamp_millis spec.schedule spec.partitioning).0
        (push_if (elim spec.nodes [ [] ↦ true | _ ∷ _ ↦ false ]) Problem.no_nodes)
        (name_faults spec)
        ((check_producers spec.nodes []).0
          ++ (check_duplicates (producers spec)
              ++ ((check_upstreams (positions spec) (producers spec) spec.nodes).0
                  ++ check_params operators spec.nodes (upstream_lists spec))))
        none_).3

  -- The name of a graph that `build` returns and the names of its nodes are valid, and a node's
  -- name and the graph's have at most 98 bytes together.
  pub build_names :
      (spec : GraphSpec) (g : Graph Expression)
      → build cron from_timestamp_millis operators spec ≡ graph g
      → (is_name g.name ≡ true)
        × ((x : Node)
            → Memᴰ x g.nodes
            → (is_name (name x) ≡ true)
              × (length g.name + length (name x) ≤ max_graph_and_node_name_len))
  build_names spec g h =
      let (m, none_, acyclic, eq, same) = built_parts spec g h in
      let no_fault = no_name_faults spec none_ in
      (
        rw same (graph_name_valid spec none_),
        λ x mx.
            let (p, n, a, b, c) =
              mem-make_nodes spec.nodes (upstream_lists spec)
                (all_downstreams spec.nodes (upstream_lists spec) []) x (subst (Memᴰ x) eq mx) in
            let valid =
              names_valid spec.name spec.nodes 0 [] no_fault n (mem-of_get_elem? spec.nodes p a) in
            rw (same, c) valid,
      )

  never_stuck :
      (spec : GraphSpec)
      → all_faults spec ≡ []
      → find_cycle spec.nodes (upstream_lists spec) (positions spec) ≢ stuck
  never_stuck spec none_ =
      find_cycle_total spec.nodes (upstream_lists spec) (positions spec)
        (build_IsIndexed spec.name spec.nodes (no_name_faults spec none_))

  finish_total :
      (spec : GraphSpec) (schedule : Option Expression) (index : Map ℕ) (ups : List (List Text))
      (ps : List Problem)
      → (ps ≡ [] → find_cycle spec.nodes ups index ≢ stuck)
      → finish_build cron from_timestamp_millis operators spec schedule index ups ps ≢ panicked
  unfolding finish_build
  finish_total spec schedule index ups (p ∷ ps) total h = cc
  finish_total spec schedule index ups [] total h = go (find_cycle spec.nodes ups index) refl
    where
      go : (v : Visit) → find_cycle spec.nodes ups index ≡ v → ⊥
      go (found c) e = ground arith
      go (marked m) e = ground arith
      go stuck e = total refl e

  -- A graph that `build` returns is ordered: the names of its nodes are distinct, every upstream
  -- is a node, and no chain of upstreams is endless.
  pub build-IsOrdered :
      (spec : GraphSpec) (g : Graph Expression)
      → build cron from_timestamp_millis operators spec ≡ graph g
      → IsOrdered g.nodes
  build-IsOrdered spec g h =
      let (m, none_, acyclic, eq, _) = built_parts spec g h in
      let no_fault = no_name_faults spec none_ in
      let indexed = build_IsIndexed spec.name spec.nodes no_fault in
      let acc =
        find_cycle_sound spec.nodes (upstream_lists spec) (positions spec) indexed m acyclic in
      rw eq (
        made_IsOrdered spec.name spec.nodes no_fault
          (all_downstreams spec.nodes (upstream_lists spec) []) acc)

  -- Whatever the spec, the cron parser and the operators are, `build` does not panic and does not
  -- run out of fuel: it returns a graph or the problems.
  pub build_total : (spec : GraphSpec) → build cron from_timestamp_millis operators spec ≢ panicked
  unfolding build
  build_total spec h =
      finish_total spec (schedule_of spec) (positions spec) (upstream_lists spec) (all_faults spec)
        (never_stuck spec) h
