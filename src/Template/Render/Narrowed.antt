-- ===== src/Template/Render/Narrowed.antt =====
-- Rendering under fewer upstream outputs (swale/src/template.rs).
use swale.Base.{◌≡◌, refl, some, inl, inr, Option-cases, [], ◌∷◌, ◌++◌, Memᴰ, Text, Map, get}
use swale.Base.Results.{Result-cases}
use swale.Data.{Json}
use swale.Template.{Template, Segment, RunField, upstream_nodes, upstream_of}
use swale.Template.Render.{RenderContext, segment_text, render_after, render}

abbrev pub with_upstream : RenderContext → Map Json → RenderContext
with_upstream ctx outputs = record ctx { upstream = outputs }

module _ (to_text : Json → Text) (ctx : RenderContext) (a b : Map Json) where
  segment_text_eq :
      (s : Segment)
      → ((n : Text) → upstream_of s ≡ some n → get n a ≡ get n b)
      → segment_text to_text (with_upstream ctx a) s ≡ segment_text to_text (with_upstream ctx b) s
  unfolding segment_text upstream_of
  segment_text_eq (Segment.literal t) h = refl
  segment_text_eq Segment.partition h = refl
  segment_text_eq (Segment.run RunField.id) h = refl
  segment_text_eq (Segment.run RunField.summary) h = refl
  segment_text_eq (Segment.upstream node path) h = rw (h node refl) refl
  segment_text_eq (Segment.env name) h = refl
  segment_text_eq (Segment.item path) h = refl

  here :
      (s : Segment) (segments : Template) (n : Text)
      → upstream_of s ≡ some n
      → Memᴰ n (upstream_nodes (s ∷ segments))
  unfolding upstream_nodes
  here s segments n h = rw (upstream_nodes, h) (Memᴰ.head refl)

  there :
      (s : Segment) (segments : Template) (n : Text)
      → Memᴰ n (upstream_nodes segments)
      → Memᴰ n (upstream_nodes (s ∷ segments))
  unfolding upstream_nodes
  there s segments n m = elim (Option-cases (upstream_of s)) [
    | inl e ↦ rw (upstream_nodes, e) m
    | inr (u, e) ↦ rw (upstream_nodes, e) (Memᴰ.tail m)
  ]

  render_after_eq :
      (out : Text) (segments : Template)
      → ((n : Text) → Memᴰ n (upstream_nodes segments) → get n a ≡ get n b)
      → render_after to_text (with_upstream ctx a) out segments
        ≡ render_after to_text (with_upstream ctx b) out segments
  unfolding render_after
  render_after_eq out [] h = refl
  render_after_eq out (s ∷ segments) h =
      let same = segment_text_eq s (λ n e. h n (here s segments n e)) in
      elim (Result-cases (segment_text to_text (with_upstream ctx b) s)) [
        | inr (e, failed) ↦ rw (same, failed) refl
        | inl (text, rendered) ↦
            rw (same, rendered)
              (render_after_eq (out ++ text) segments (λ n m. h n (there s segments n m)))
      ]

  -- Outputs that agree on the upstream nodes of a template render it alike.
  pub render_eq :
      (segments : Template)
      → ((n : Text) → Memᴰ n (upstream_nodes segments) → get n a ≡ get n b)
      → render to_text (with_upstream ctx a) segments
        ≡ render to_text (with_upstream ctx b) segments
  unfolding render
  render_eq segments h = render_after_eq [] segments h
