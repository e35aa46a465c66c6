-- ===== src/Definition/Load.antt =====
-- Which definition texts load, and the faults of one that does not (swale/src/definition.rs).
use swale.Base.{
  arith, ◌≡◌, refl, ℕ, false, Option, none, some, List, [], ◌∷◌, Text, inl, inr, Option-cases,
}
use swale.Base.Results.{Result, Result-cases}
use swale.Definition.{
  DefinitionFile, NodeSection, LoadResult, is_filled, kind_faults, node_specs, catchup_of,
  graph_spec, file_faults, loaded, load_file, load_str,
}
use swale.Duration.{parse}
use swale.Graph.{Graph, is_some}
use swale.Graph.Build.{BuildResult, build}
use swale.Graph.Build.Result.{build-IsOrdered}
use swale.Graph.Checks.{Cron}
use swale.Graph.Checks.Names.{push_if-eq_nil, append-eq_nil}
use swale.Graph.Ordered.{IsOrdered}
use swale.Graph.Params.{OperatorSet}
use swale.Graph.Problems.{Problem}
use swale.Partition.{CivilTime}

-- An asset node has neither `after` nor a trigger rule, and a task node has no `consumes`.
abbrev pub IsConsistent : NodeSection → Type 0
IsConsistent node = elim node.produces [
  | some _ ↦ (node.after ≡ []) × (node.trigger_rule ≡ none)
  | none ↦ node.consumes ≡ []
]

abbrev pub AreConsistent : List NodeSection → Type 0
AreConsistent [] = Unit
AreConsistent (node ∷ nodes) = IsConsistent node × AreConsistent nodes

-- A catch-up window is absent, or the text of a duration.
abbrev pub IsCatchup : Option Text → Option ℕ → Type 0
IsCatchup none window = window ≡ none
IsCatchup (some text) window = (d : ℕ) × (parse text ≡ some d) × (window ≡ some d)

is_filled-eq_nil : (xs : List Text) → is_filled xs ≡ false → xs ≡ []
is_filled-eq_nil [] h = refl
is_filled-eq_nil (x ∷ xs) h = cc

is_some-eq_none : {A : Type 0} (x : Option A) → is_some x ≡ false → x ≡ none
is_some-eq_none none h = refl
is_some-eq_none (some a) h = cc

kind_faults-IsConsistent : (node : NodeSection) → kind_faults node ≡ [] → IsConsistent node
unfolding kind_faults
kind_faults-IsConsistent node h = elim (Option-cases node.produces) [
  | inl e ↦ let h1 = rw e at h in rw e (is_filled-eq_nil node.consumes (push_if-eq_nil _ _ h1))
  | inr (p, e) ↦
      let (after, rule) = append-eq_nil _ _ (rw e at h) in
      rw e (
        is_filled-eq_nil node.after (push_if-eq_nil _ _ after),
        is_some-eq_none node.trigger_rule (push_if-eq_nil _ _ rule),
      )
]

node_specs-AreConsistent :
    (nodes : List NodeSection) → (node_specs nodes).0 ≡ [] → AreConsistent nodes
unfolding node_specs
node_specs-AreConsistent [] h = tt
node_specs-AreConsistent (node ∷ nodes) h =
    let (first, rest) = append-eq_nil (kind_faults node) _ h in
    (kind_faults-IsConsistent node first, node_specs-AreConsistent nodes rest)

catchup_of-IsCatchup :
    (text : Option Text) → (catchup_of text).0 ≡ [] → IsCatchup text (catchup_of text).1
unfolding catchup_of
catchup_of-IsCatchup none h = refl
catchup_of-IsCatchup (some text) h = elim (Option-cases (parse text)) [
  | inl e ↦ absurd (let h1 = rw (catchup_of, e) at h in ground arith)
  | inr (d, e) ↦ (d, e, rw (catchup_of, e) refl)
]

module _ {Expression : Type 0} (cron : Cron Expression)
    (from_timestamp_millis : ℕ → Option CivilTime) (operators : OperatorSet) where
  loaded-eq_graph :
      (ps : List Problem) (r : BuildResult Expression) (g : Graph Expression)
      → loaded ps r ≡ LoadResult.graph g
      → (ps ≡ []) × (r ≡ BuildResult.graph g)
  unfolding loaded
  loaded-eq_graph [] (BuildResult.graph f) g h = (refl, ground arith)
  loaded-eq_graph (p ∷ ps) (BuildResult.graph f) g h = absurd (ground arith)
  loaded-eq_graph [] (BuildResult.problems more) g h = absurd (ground arith)
  loaded-eq_graph (p ∷ ps) (BuildResult.problems more) g h = absurd (ground arith)
  loaded-eq_graph [] BuildResult.panicked g h = absurd (ground arith)
  loaded-eq_graph (p ∷ ps) BuildResult.panicked g h = absurd (ground arith)

  module _ (from_str : Text → Result Text DefinitionFile) where
    -- A text that loads is a definition file in which every asset node has neither `after` nor a
    -- trigger rule, no task node has `consumes`, and the catch-up, when there is one, is a duration.
    -- The graph is the checked graph of that file, and every node of it comes after its upstreams.
    pub load_str_sound :
        (text : Text) (g : Graph Expression)
        → load_str cron from_timestamp_millis operators from_str text ≡ LoadResult.graph g
        → (file : DefinitionFile) × (from_str text ≡ Result.ok file)
          × AreConsistent file.nodes
          × IsCatchup file.graph.catchup (graph_spec file).catchup
          × (build cron from_timestamp_millis operators (graph_spec file) ≡ BuildResult.graph g)
          × IsOrdered g.nodes
    unfolding load_str load_file file_faults graph_spec
    load_str_sound text g h = elim (Result-cases (from_str text)) [
      | inl (file, e) ↦
          let (faults, built) =
            loaded-eq_graph (file_faults file)
              (build cron from_timestamp_millis operators (graph_spec file)) g
              (rw (load_str, e) at h) in
          let (catchup, nodes) = append-eq_nil (catchup_of file.graph.catchup).0 _ faults in
          (
            file,
            e,
            node_specs-AreConsistent file.nodes nodes,
            catchup_of-IsCatchup file.graph.catchup catchup,
            built,
            build-IsOrdered cron from_timestamp_millis operators (graph_spec file) g built,
          )
      | inr (e, refused) ↦ absurd (let h1 = rw (load_str, refused) at h in ground arith)
    ]
