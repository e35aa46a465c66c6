-- ===== src/Template/Render/Errors.antt =====
-- When the rendering of a template fails (swale/src/template.rs).
use swale.Base.{
  ◌≡◌, refl, ◌⊎◌, ◌↔◌, inl, inr, none, some, [], ◌∷◌, ◌++◌, Text, get, arith, Option-cases,
}
use swale.Base.Results.{err, Result-cases}
use swale.Data.{Json}
use swale.Template.{Template, Segment, RunField}
use swale.Template.Render.{
  RenderContext, RenderError, lookup, dotted, segment_text, render_after, render,
}

-- what a reference that the context does not resolve looks like, with its error
abbrev pub IsUnresolved : RenderContext → Segment → RenderError → Type 0
IsUnresolved ctx (Segment.literal t) e = ⊥
IsUnresolved ctx Segment.partition e = ⊥
IsUnresolved ctx (Segment.run f) e = ⊥
IsUnresolved ctx (Segment.upstream node path) e =
    ((get node ctx.upstream ≡ none) × (e ≡ RenderError.missing_upstream node))
    ⊎ ((output : Json) × (get node ctx.upstream ≡ some output)
        × (lookup output path ≡ none)
        × (e ≡ RenderError.missing_path node (dotted path)))
IsUnresolved ctx (Segment.env name) e =
    (get name ctx.env ≡ none) × (e ≡ RenderError.missing_env name)
IsUnresolved ctx (Segment.item path) e =
    ((ctx.item ≡ none) × (e ≡ RenderError.missing_item))
    ⊎ ((item : Json) × (ctx.item ≡ some item)
        × (lookup item path ≡ none)
        × (e ≡ RenderError.missing_item_path (dotted path)))

-- the first reference of the segments that does not resolve has the error
abbrev pub IsFirstUnresolved : RenderContext → Template → RenderError → Type 0
IsFirstUnresolved ctx [] e = ⊥
IsFirstUnresolved ctx (s ∷ segments) e =
    IsUnresolved ctx s e
    ⊎ (((d : RenderError) → IsUnresolved ctx s d → ⊥) × IsFirstUnresolved ctx segments e)

module _ (to_text : Json → Text) where
  segment_text-eq_err :
      (ctx : RenderContext) (s : Segment) (e : RenderError)
      → segment_text to_text ctx s ≡ err e
      → IsUnresolved ctx s e
  unfolding segment_text
  segment_text-eq_err ctx (Segment.literal t) e h = absurd (ground arith)
  segment_text-eq_err ctx Segment.partition e h = absurd (ground arith)
  segment_text-eq_err ctx (Segment.run RunField.id) e h = absurd (ground arith)
  segment_text-eq_err ctx (Segment.run RunField.summary) e h = absurd (ground arith)
  segment_text-eq_err ctx (Segment.upstream node path) e h =
      elim (Option-cases (get node ctx.upstream)) [
        | inl absent ↦ inl (absent, (let g = rw absent at h in ground arith))
        | inr (output, found) ↦ elim (Option-cases (lookup output path)) [
          | inl absent ↦
              inr (output, found, absent, (let g = rw (found, absent) at h in ground arith))
          | inr (value, there) ↦ absurd (let g = rw (found, there) at h in ground arith)
        ]
      ]
  segment_text-eq_err ctx (Segment.env name) e h = elim (Option-cases (get name ctx.env)) [
    | inl absent ↦ (absent, (let g = rw absent at h in ground arith))
    | inr (value, found) ↦ absurd (let g = rw found at h in ground arith)
  ]
  segment_text-eq_err ctx (Segment.item path) e h = elim (Option-cases ctx.item) [
    | inl absent ↦ inl (absent, (let g = rw absent at h in ground arith))
    | inr (item, found) ↦ elim (Option-cases (lookup item path)) [
      | inl absent ↦ inr (item, found, absent, (let g = rw (found, absent) at h in ground arith))
      | inr (value, there) ↦ absurd (let g = rw (found, there) at h in ground arith)
    ]
  ]

  segment_text-unresolved :
      (ctx : RenderContext) (s : Segment) (e : RenderError)
      → IsUnresolved ctx s e
      → segment_text to_text ctx s ≡ err e
  unfolding segment_text
  segment_text-unresolved ctx (Segment.literal t) e h = absurd h
  segment_text-unresolved ctx Segment.partition e h = absurd h
  segment_text-unresolved ctx (Segment.run f) e h = absurd h
  segment_text-unresolved ctx (Segment.upstream node path) e (inl (a, b)) = rw (a, b) refl
  segment_text-unresolved ctx (Segment.upstream node path) e (inr (o, a, b, c)) =
      rw (a, c) (rw b refl)
  segment_text-unresolved ctx (Segment.env name) e (a, b) = rw (a, b) refl
  segment_text-unresolved ctx (Segment.item path) e (inl (a, b)) = rw (a, b) refl
  segment_text-unresolved ctx (Segment.item path) e (inr (o, a, b, c)) = rw (a, c) (rw b refl)

  render_after-eq_err :
      (ctx : RenderContext) (out : Text) (segments : Template) (e : RenderError)
      → render_after to_text ctx out segments ≡ err e
      → IsFirstUnresolved ctx segments e
  unfolding render_after
  render_after-eq_err ctx out [] e h = absurd (ground arith)
  render_after-eq_err ctx out (s ∷ segments) e h =
      elim (Result-cases (segment_text to_text ctx s)) [
        | inr (d, failed) ↦
            let same : d ≡ e = (let g = rw failed at h in ground arith) in
            inl (segment_text-eq_err ctx s e (rw (failed, same)))
        | inl (text, rendered) ↦ inr (
          λ d u. absurd (let g = segment_text-unresolved ctx s d u in ground arith),
          render_after-eq_err ctx (out ++ text) segments e (rw rendered at h),
        )
      ]

  render_after-unresolved :
      (ctx : RenderContext) (out : Text) (segments : Template) (e : RenderError)
      → IsFirstUnresolved ctx segments e
      → render_after to_text ctx out segments ≡ err e
  unfolding render_after
  render_after-unresolved ctx out [] e h = absurd h
  render_after-unresolved ctx out (s ∷ segments) e (inl u) =
      rw (segment_text-unresolved ctx s e u) refl
  render_after-unresolved ctx out (s ∷ segments) e (inr (resolved, later)) =
      elim (Result-cases (segment_text to_text ctx s)) [
        | inr (d, failed) ↦ absurd (resolved d (segment_text-eq_err ctx s d failed))
        | inl (text, rendered) ↦
            rw rendered (render_after-unresolved ctx (out ++ text) segments e later)
      ]

  -- Rendering fails with an error exactly when a reference of the template does not resolve in the
  -- context and every reference before it does; the error is the one of that reference.
  pub render_fails :
      (ctx : RenderContext) (segments : Template) (e : RenderError)
      → (render to_text ctx segments ≡ err e) ↔ IsFirstUnresolved ctx segments e
  unfolding render
  render_fails ctx segments e =
      (render_after-eq_err ctx [] segments e, render_after-unresolved ctx [] segments e)
