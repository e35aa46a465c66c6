-- ===== src/Template/Render.antt =====
-- The rendering of a template (swale/src/template.rs). The JSON text of a value is a parameter.
pub mod Errors
pub mod Narrowed
pub mod Examples
use swale.Base.{
  ℕ, ◌-◌, ◌^◌, Option, none, some, List, [], ◌∷◌, ◌++◌, Text, Map, get, text_eq, parse_uint,
  get_elem?, if◌then◌else◌,
}
use swale.Base.Results.{Result, ok, err, ◌>>=◌}
use swale.Data.{Json, JsonItems, JsonFields}
use swale.Template.{Template, Segment, RunField}

pub record RunContext : Type 0 where
  pub id : Text
  pub summary : Text

pub record RenderContext : Type 0 where
  pub partition : Text
  pub run : RunContext
  pub upstream : Map Json
  pub env : Map Text
  pub item : Option Json

pub data RenderError : Type 0 where
  missing_upstream : Text → RenderError
  missing_path : Text → Text → RenderError
  missing_env : Text → RenderError
  missing_item : RenderError
  missing_item_path : Text → RenderError

-- `usize::MAX` of a 64-bit target
abbrev pub usize_max : ℕ
usize_max = 2 ^ 64 - 1

-- `serde_json::Map::get` and the items of an array as a list
unfoldable pub field_of : Text → JsonFields → Option Json
field_of key JsonFields.end = none
field_of key (JsonFields.field k v fields) = if text_eq k key then some v else field_of key fields

unfoldable pub items_list : JsonItems → List Json
items_list JsonItems.nil = []
items_list (JsonItems.cons v items) = v ∷ items_list items

at_index : Option ℕ → JsonItems → Option Json
unfolding items_list
at_index none items = none
at_index (some i) items = get_elem? (items_list items) i

-- the closure of `lookup`
unfoldable pub step_into : Json → Text → Option Json
unfolding field_of at_index
step_into (Json.object fields) key = field_of key fields
step_into (Json.array items) key = at_index (parse_uint usize_max key) items
step_into Json.null key = none
step_into (Json.bool b) key = none
step_into (Json.number n) key = none
step_into (Json.text t) key = none

-- `lookup`
unfoldable pub lookup : Json → List Text → Option Json
unfolding step_into
lookup value [] = some value
lookup value (key ∷ path) = elim (step_into value key) [
  | none ↦ none
  | some inner ↦ lookup inner path
]

-- `join` of a path with the dot
unfoldable pub dotted : List Text → Text
dotted [] = []
dotted (k ∷ []) = k
dotted (k ∷ j ∷ path) = k ++ (b'.' ∷ dotted (j ∷ path))

-- `ok_or`
abbrev pub ok_or : {A : Type 0} → RenderError → Option A → Result RenderError A
ok_or e none = err e
ok_or e (some a) = ok a

module _ (to_text : Json → Text) where
  -- the text that `push_value` appends
  unfoldable pub value_text : Json → Text
  value_text (Json.text t) = t
  value_text Json.null = to_text Json.null
  value_text (Json.bool b) = to_text (Json.bool b)
  value_text (Json.number n) = to_text (Json.number n)
  value_text (Json.array items) = to_text (Json.array items)
  value_text (Json.object fields) = to_text (Json.object fields)

  -- the text that one segment appends
  unfoldable pub segment_text : RenderContext → Segment → Result RenderError Text
  unfolding value_text
  segment_text ctx (Segment.literal t) = ok t
  segment_text ctx Segment.partition = ok ctx.partition
  segment_text ctx (Segment.run RunField.id) = ok ctx.run.id
  segment_text ctx (Segment.run RunField.summary) = ok ctx.run.summary
  segment_text ctx (Segment.upstream node path) = do
    output ← ok_or (RenderError.missing_upstream node) (get node ctx.upstream)
    value ← ok_or (RenderError.missing_path node (dotted path)) (lookup output path)
    ok (value_text value)
  segment_text ctx (Segment.env name) = ok_or (RenderError.missing_env name) (get name ctx.env)
  segment_text ctx (Segment.item path) = do
    item ← ok_or RenderError.missing_item ctx.item
    value ← ok_or (RenderError.missing_item_path (dotted path)) (lookup item path)
    ok (value_text value)

  -- the loop of `render` after the text `out`
  unfoldable pub render_after : RenderContext → Text → Template → Result RenderError Text
  unfolding segment_text
  render_after ctx out [] = ok out
  render_after ctx out (segment ∷ segments) = do
    text ← segment_text ctx segment
    render_after ctx (out ++ text) segments

  -- `Template::render`
  unfoldable pub render : RenderContext → Template → Result RenderError Text
  unfolding render_after
  render ctx segments = render_after ctx [] segments
