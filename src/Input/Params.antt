-- ===== src/Input/Params.antt =====
-- The members of a mapped node and the rendering of parameters and items (swale/src/input.rs). The
-- JSON text of a value, the parser of JSON and the runtime's `RunId::new` are parameters.
pub mod Member
pub mod Examples
use swale.Base.{Option, none, some, List, [], ◌∷◌, Text, Map, codes, contains, retain}
use swale.Base.Results.{Result, ok, err, ◌>>=◌}
use swale.Data.{Json, JsonItems, JsonFields}
use swale.Graph.Checks.{extend}
use swale.Input.{TaskInput, UpstreamSummary}
use swale.Records.{status_text}
use swale.Task.{TaskIdentity, run_id}
use swale.Template
use swale.Template.{Parsed, Template, upstream_nodes}
use swale.Template.Render.{RenderContext, RenderError, render}

-- the templates of one text, in `referred_upstreams`
unfoldable pub referred_in : Parsed Template → List Text → List Text
referred_in (Parsed.ok template) nodes = extend (upstream_nodes template) nodes
referred_in (Parsed.err e) nodes = nodes

unfoldable mutual
  pub referred_upstreams : Json → List Text → List Text
  referred_upstreams (Json.text t) nodes = referred_in (Template.parse t) nodes
  referred_upstreams (Json.array items) nodes = referred_items items nodes
  referred_upstreams (Json.object fields) nodes = referred_fields fields nodes
  referred_upstreams Json.null nodes = nodes
  referred_upstreams (Json.bool b) nodes = nodes
  referred_upstreams (Json.number n) nodes = nodes

  pub referred_items : JsonItems → List Text → List Text
  referred_items JsonItems.nil nodes = nodes
  referred_items (JsonItems.cons v items) nodes = referred_items items (referred_upstreams v nodes)

  pub referred_fields : JsonFields → List Text → List Text
  referred_fields JsonFields.end nodes = nodes
  referred_fields (JsonFields.field k v fields) nodes =
      referred_fields fields (referred_upstreams v nodes)

-- `TaskInput::member`
unfoldable pub member : TaskInput → Json → TaskInput
member input item =
    let referred = referred_upstreams input.params [] in
    record input {
      inputs = retain (λ name _. contains name referred) input.inputs;
      state = none;
      each = none;
      item = some item;
    }

-- the JSON form of an `UpstreamSummary`, whose absent error is skipped
summary_value : UpstreamSummary → Json
summary_value s =
    let status =
      JsonFields.field (codes "status") (Json.text (status_text s.status)) JsonFields.end in
    elim s.error [
      | none ↦ Json.object status
      | some e ↦ Json.object (JsonFields.field (codes "error") (Json.text e) status)
    ]

summaries_value : Map UpstreamSummary → JsonFields
unfolding summary_value
summaries_value [] = JsonFields.end
summaries_value ((name, s) ∷ rest) = JsonFields.field name (summary_value s) (summaries_value rest)

module _ (to_text : Json → Text) where
  -- `TaskInput::run_summary`: an object of `serde_json` has its keys in order
  unfoldable pub run_summary : TaskInput → TaskIdentity → Text
  unfolding summaries_value
  run_summary input identity = to_text (
      Json.object (
        JsonFields.field (codes "graph") (Json.text identity.graph) (
          JsonFields.field (codes "node") (Json.text identity.node) (
            JsonFields.field (codes "partition") (Json.text identity.partition.key) (
              JsonFields.field (codes "upstreams") (Json.object (summaries_value input.upstreams))
                JsonFields.end)))))

  -- one text of `render_value`: a text that is no template is copied
  unfoldable pub render_text : RenderContext → Text → Parsed Template → Result RenderError Json
  render_text ctx source (Parsed.err e) = ok (Json.text source)
  render_text ctx source (Parsed.ok template) = do
    text ← render to_text ctx template
    ok (Json.text text)

  unfoldable mutual
    pub render_value : RenderContext → Json → Result RenderError Json
    render_value ctx (Json.text t) = render_text ctx t (Template.parse t)
    render_value ctx (Json.array items) = do
      rendered ← render_items ctx items
      ok (Json.array rendered)
    render_value ctx (Json.object fields) = do
      rendered ← render_fields ctx fields
      ok (Json.object rendered)
    render_value ctx Json.null = ok Json.null
    render_value ctx (Json.bool b) = ok (Json.bool b)
    render_value ctx (Json.number n) = ok (Json.number n)

    pub render_items : RenderContext → JsonItems → Result RenderError JsonItems
    render_items ctx JsonItems.nil = ok JsonItems.nil
    render_items ctx (JsonItems.cons v items) = do
      first ← render_value ctx v
      rest ← render_items ctx items
      ok (JsonItems.cons first rest)

    pub render_fields : RenderContext → JsonFields → Result RenderError JsonFields
    render_fields ctx JsonFields.end = ok JsonFields.end
    render_fields ctx (JsonFields.field k v fields) = do
      first ← render_value ctx v
      rest ← render_fields ctx fields
      ok (JsonFields.field k first rest)

  module _ (new_run_id : Text → Option Text) where
    -- the context of an input, with the item of the caller; `none` is the panic of `run_id`
    unfoldable pub context :
        TaskInput → TaskIdentity → Map Text → Option Json → Option RenderContext
    context input identity env item =
        elim (run_id new_run_id identity.graph identity.partition identity.node identity.rerun) [
          | none ↦ none
          | some id ↦ some (record {
            partition = identity.partition.key;
            run = record { id = id; summary = run_summary input identity };
            upstream = input.inputs;
            env = env;
            item = item;
          })
        ]

    -- `TaskInput::rendered_params`
    unfoldable pub rendered_params :
        TaskInput → TaskIdentity → Map Text → Option (Result RenderError Json)
    rendered_params input identity env = elim (context input identity env input.item) [
      | none ↦ none
      | some ctx ↦ some (render_value ctx input.params)
    ]

pub data ItemsError : Type 0 where
  render_error : RenderError → ItemsError
  not_an_array : Text → ItemsError

items_error : {A : Type 0} → Result RenderError A → Result ItemsError A
items_error (ok a) = ok a
items_error (err e) = err (ItemsError.render_error e)

-- the array of the JSON value of a text
array_of : Result Text Json → Result ItemsError JsonItems
array_of (ok (Json.array items)) = ok items
array_of (ok Json.null) = err (ItemsError.not_an_array (codes "the value is null"))
array_of (ok (Json.bool b)) = err (ItemsError.not_an_array (codes "the value is a boolean"))
array_of (ok (Json.number n)) = err (ItemsError.not_an_array (codes "the value is a number"))
array_of (ok (Json.text t)) = err (ItemsError.not_an_array (codes "the value is a string"))
array_of (ok (Json.object o)) = err (ItemsError.not_an_array (codes "the value is an object"))
array_of (err message) = err (ItemsError.not_an_array message)

-- the text that the template of `each` renders to
items_text : (Json → Text) → RenderContext → Text → Parsed Template → Result RenderError Text
items_text to_text ctx each (Parsed.ok template) = render to_text ctx template
items_text to_text ctx each (Parsed.err e) = ok each

-- `TaskInput::rendered_items`
module _ (to_text : Json → Text) (from_str : Text → Result Text Json) where
  unfoldable pub rendered_items :
      (Text → Option Text)
      → TaskInput
      → TaskIdentity
      → Map Text
      → Option (Result ItemsError JsonItems)
  unfolding items_error array_of items_text
  rendered_items new_run_id input identity env = elim input.each [
    | none ↦ some (ok JsonItems.nil)
    | some each ↦ elim (context to_text new_run_id input identity env none) [
      | none ↦ none
      | some ctx ↦ some (do
        text ← items_error (items_text to_text ctx each (Template.parse each))
        array_of (from_str text))
    ]
  ]
