-- ===== src/Graph/Params.antt =====
-- swale/src/graph.rs, `check_templates` and `check_each`, and `OperatorSet::check` of
-- swale/src/operator/mod.rs: the checks of the operator and its parameters.
use swale.Base.{
  ℕ, suc, not, ◌&&◌, Option, none, some, List, [], ◌∷◌, ◌++◌, Text, Map, get, contains, set_insert,
  map, if◌then◌else◌, codes, show,
}
use swale.Data.{Toml, TomlItems, TomlTable}
use swale.Graph.{NodeSpec, is_some}
use swale.Graph.Problems.{Problem, push_if}
use swale.Template
use swale.Template.{TemplateError, unclosed, unknown_reference}

-- the parameter checks of an `OperatorSet`, by operator name: `some` is the deserializer's message
abbrev pub OperatorSet : Type 0
OperatorSet = Map (TomlTable → Option Text)

-- the `Display` of `TemplateError`
unfoldable pub template_message : TemplateError → Text
template_message (unclosed n) = codes "`{{` at byte " ++ (show n ++ codes " is not closed")
template_message (unknown_reference t) = b'`' ∷ (t ++ codes "` is not a template reference")

-- the referenced nodes that are no upstreams, each once, as `seen` filters them
foreign_upstreams : List Text → List Text → List Text → List Text
foreign_upstreams upstreams seen [] = []
foreign_upstreams upstreams seen (u ∷ us) =
    let skip = foreign_upstreams upstreams seen us in
    let take_ = u ∷ foreign_upstreams upstreams (set_insert u seen) us in
    if not (contains u upstreams) && not (contains u seen) then take_ else skip

check_text : NodeSpec → Text → List Text → Template.Parsed Template.Template → List Problem
unfolding foreign_upstreams
check_text node path upstreams (Template.Parsed.err e) =
    Problem.invalid_template node.name path (template_message e) ∷ []
check_text node path upstreams (Template.Parsed.ok template) =
    map (Problem.unknown_template_upstream node.name path)
      (foreign_upstreams upstreams [] (Template.upstream_nodes template))
    ++ push_if (not (is_some node.each) && Template.refers_to_item template)
        (Problem.item_without_each node.name path)

abbrev child : Text → Text → Text
child [] key = key
child (b ∷ path) key = (b ∷ path) ++ (b'.' ∷ key)

unfoldable mutual
  unfolding check_text

  pub check_templates : NodeSpec → Text → Toml → List Text → List Problem
  check_templates node path (Toml.string text) upstreams =
      check_text node path upstreams (Template.parse text)
  check_templates node path (Toml.array items) upstreams = check_items node path 0 items upstreams
  check_templates node path (Toml.table table) upstreams = check_table node path table upstreams
  check_templates node path (Toml.scalar t) upstreams = []

  pub check_items : NodeSpec → Text → ℕ → TomlItems → List Text → List Problem
  check_items node path i TomlItems.nil upstreams = []
  check_items node path i (TomlItems.cons v vs) upstreams =
      check_templates node (child path (show i)) v upstreams
      ++ check_items node path (suc i) vs upstreams

  pub check_table : NodeSpec → Text → TomlTable → List Text → List Problem
  check_table node path TomlTable.end upstreams = []
  check_table node path (TomlTable.entry key v vs) upstreams =
      check_templates node (child path key) v upstreams ++ check_table node path vs upstreams

parsed_each : Text → List Text → Template.Parsed Template.Template → List Problem
unfolding foreign_upstreams
parsed_each node upstreams (Template.Parsed.err e) =
    Problem.invalid_each node (template_message e) ∷ []
parsed_each node upstreams (Template.Parsed.ok template) =
    push_if (Template.refers_to_item template) (Problem.each_refers_to_item node)
    ++ map (Problem.unknown_each_upstream node)
        (foreign_upstreams upstreams [] (Template.upstream_nodes template))

unfoldable pub check_each : Text → Text → List Text → List Problem
unfolding parsed_each
check_each node each upstreams = parsed_each node upstreams (Template.parse each)

-- `OperatorSet::check` and the faults of its errors
unfoldable pub check_operator : OperatorSet → NodeSpec → List Problem
check_operator operators n = elim (get n.operator operators) [
  | none ↦ Problem.unknown_operator n.name n.operator ∷ []
  | some check ↦ elim (check n.params) [
    | none ↦ []
    | some message ↦ Problem.invalid_params n.name n.operator message ∷ []
  ]
]

-- the loop over the operators and the parameters
unfoldable pub check_params : OperatorSet → List NodeSpec → List (List Text) → List Problem
check_params operators [] upstreams = []
check_params operators (n ∷ ns) [] = []
check_params operators (n ∷ ns) (ups ∷ rest) =
    check_operator operators n
    ++ (check_table n [] n.params ups
        ++ (elim n.each [ none ↦ [] | some each ↦ check_each n.name each ups ]
            ++ check_params operators ns rest))
