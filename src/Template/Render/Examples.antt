-- ===== src/Template/Render/Examples.antt =====
-- A template with a reference that does not resolve.
use swale.Base.{◌≡◌, ◌↔◌, none, [], ◌∷◌, Text, codes}
use swale.Base.Results.{err}
use swale.Data.{Json}
use swale.Template.{Template, Segment}
use swale.Template.Render.{RenderContext, RenderError, render}
use swale.Template.Render.Errors.{IsFirstUnresolved, render_fails}

abbrev context : RenderContext
context = record {
  partition = codes "20260915";
  run = record { id = codes "g-20260915-a-r0"; summary = codes "{}" };
  upstream = [];
  env = [];
  item = none;
}

abbrev template : Template
template = Segment.partition ∷ Segment.env (codes "TOKEN") ∷ []

abbrev no_text : Json → Text
no_text _ = []

render_fails_example :
    (render no_text context template ≡ err (RenderError.missing_env (codes "TOKEN")))
    ↔ IsFirstUnresolved context template (RenderError.missing_env (codes "TOKEN"))
render_fails_example =
    render_fails no_text context template (RenderError.missing_env (codes "TOKEN"))
