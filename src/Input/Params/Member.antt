-- ===== src/Input/Params/Member.antt =====
-- The parameters of a member of a mapped node (swale/src/input.rs).
use mathlib.Core.List.Memᴰ
use swale.Base.{
  ◌≡◌, refl, ap, true, Bool, Option, some, inl, inr, List, [], ◌∷◌, Memᴰ, Text, Map, get, contains,
  retain, set_insert, contains-set_insert, text_eq, text_eq_iff, arith, Bool-cases, Option-cases,
}
use swale.Data.{Json, JsonItems, JsonFields}
use swale.Graph.Checks.{extend}
use swale.Input.{TaskInput}
use swale.Input.Params.{
  referred_in, referred_upstreams, referred_items, referred_fields, member, render_text,
  render_value, render_items, render_fields, run_summary, context, rendered_params,
}
use swale.Task.{TaskIdentity, run_id}
use swale.Template
use swale.Template.{Parsed, Template, upstream_nodes}
use swale.Template.Render.{RenderContext}
use swale.Template.Render.Narrowed.{with_upstream, render_eq}

contains-extend-kept :
    (n : Text) (xs s : List Text) → contains n s ≡ true → contains n (extend xs s) ≡ true
unfolding extend
contains-extend-kept n [] s h = h
contains-extend-kept n (x ∷ xs) s h =
    contains-extend-kept n xs (set_insert x s) (ground (arith, contains-set_insert x n s))

contains-extend : (n : Text) (xs s : List Text) → Memᴰ n xs → contains n (extend xs s) ≡ true
unfolding extend
contains-extend n [] s m = absurd (Memᴰ.not-nil m)
contains-extend n (x ∷ xs) s m = elim (Memᴰ.cases_cons m) [
  | inl e ↦
      contains-extend-kept n xs (set_insert x s)
        (ground (arith, contains-set_insert x n s, text_eq_iff x n))
  | inr m' ↦ contains-extend n xs (set_insert x s) m'
]

referred_in-kept :
    (n : Text) (p : Parsed Template) (s : List Text)
    → contains n s ≡ true
    → contains n (referred_in p s) ≡ true
unfolding referred_in
referred_in-kept n (Parsed.ok t) s h = contains-extend-kept n (upstream_nodes t) s h
referred_in-kept n (Parsed.err e) s h = h

-- A name that is referred to stays so.
mutual
  unfolding referred_upstreams referred_items referred_fields

  kept :
      (n : Text) (v : Json) (s : List Text)
      → contains n s ≡ true
      → contains n (referred_upstreams v s) ≡ true
  kept n (Json.text t) s h = referred_in-kept n (Template.parse t) s h
  kept n (Json.array items) s h = kept_items n items s h
  kept n (Json.object fields) s h = kept_fields n fields s h
  kept n Json.null s h = h
  kept n (Json.bool b) s h = h
  kept n (Json.number x) s h = h

  kept_items :
      (n : Text) (v : JsonItems) (s : List Text)
      → contains n s ≡ true
      → contains n (referred_items v s) ≡ true
  kept_items n JsonItems.nil s h = h
  kept_items n (JsonItems.cons v items) s h =
      kept_items n items (referred_upstreams v s) (kept n v s h)

  kept_fields :
      (n : Text) (v : JsonFields) (s : List Text)
      → contains n s ≡ true
      → contains n (referred_fields v s) ≡ true
  kept_fields n JsonFields.end s h = h
  kept_fields n (JsonFields.field k v fields) s h =
      kept_fields n fields (referred_upstreams v s) (kept n v s h)

module _ (to_text : Json → Text) (ctx : RenderContext) (a b : Map Json) where
  -- The outputs agree on the names of a set.
  abbrev AgreeOn : List Text → Type 0
  AgreeOn s = (n : Text) → contains n s ≡ true → get n a ≡ get n b

  render_text_eq :
      (source : Text) (p : Parsed Template) (s : List Text)
      → AgreeOn (referred_in p s)
      → render_text to_text (with_upstream ctx a) source p
        ≡ render_text to_text (with_upstream ctx b) source p
  unfolding render_text referred_in
  render_text_eq source (Parsed.err e) s h = refl
  render_text_eq source (Parsed.ok t) s h =
      rw (render_eq to_text ctx a b t (λ n m. h n (contains-extend n (upstream_nodes t) s m))) refl

  mutual
    unfolding render_value render_items render_fields referred_upstreams referred_items
        referred_fields

    render_value_eq :
        (v : Json) (s : List Text)
        → AgreeOn (referred_upstreams v s)
        → render_value to_text (with_upstream ctx a) v
          ≡ render_value to_text (with_upstream ctx b) v
    render_value_eq (Json.text t) s h = render_text_eq t (Template.parse t) s h
    render_value_eq (Json.array items) s h = rw (render_items_eq items s h) refl
    render_value_eq (Json.object fields) s h = rw (render_fields_eq fields s h) refl
    render_value_eq Json.null s h = refl
    render_value_eq (Json.bool x) s h = refl
    render_value_eq (Json.number x) s h = refl

    render_items_eq :
        (v : JsonItems) (s : List Text)
        → AgreeOn (referred_items v s)
        → render_items to_text (with_upstream ctx a) v
          ≡ render_items to_text (with_upstream ctx b) v
    render_items_eq JsonItems.nil s h = refl
    render_items_eq (JsonItems.cons v items) s h =
        let first =
          render_value_eq v s (λ n m. h n (kept_items n items (referred_upstreams v s) m)) in
        rw (first, render_items_eq items (referred_upstreams v s) h) refl

    render_fields_eq :
        (v : JsonFields) (s : List Text)
        → AgreeOn (referred_fields v s)
        → render_fields to_text (with_upstream ctx a) v
          ≡ render_fields to_text (with_upstream ctx b) v
    render_fields_eq JsonFields.end s h = refl
    render_fields_eq (JsonFields.field k v fields) s h =
        let first =
          render_value_eq v s (λ n m. h n (kept_fields n fields (referred_upstreams v s) m)) in
        rw (first, render_fields_eq fields (referred_upstreams v s) h) refl

-- Entries of a map that are kept by their keys alone are found as before.
get-retain-keys :
    (p : Text → Bool) (k : Text) (m : Map Json)
    → p k ≡ true
    → get k (retain (λ j _. p j) m) ≡ get k m
unfolding get retain
get-retain-keys p k [] h = refl
get-retain-keys p k ((j, v) ∷ m) h = elim (Bool-cases (text_eq j k)) [
  | inl same ↦
      let e = (text_eq_iff j k).0 same in let kept_ : p j ≡ true = rw e h in rw kept_ (rw same refl)
  | inr other ↦ let rest = get-retain-keys p k m h in ground arith
]

-- A member of a mapped node, whose input keeps only the upstream outputs that the parameters refer
-- to, renders its parameters to the same value or to the same error as the input of the node with
-- every output and the item of the member.
pub rendered_params-member :
    (to_text : Json → Text) (new_run_id : Text → Option Text) (input : TaskInput) (item : Json)
    (identity : TaskIdentity) (env : Map Text)
    → rendered_params to_text new_run_id (member input item) identity env
      ≡ rendered_params to_text new_run_id (record input { item = some item }) identity env
unfolding rendered_params context member run_summary
rendered_params-member to_text new_run_id input item identity env =
    elim (Option-cases
      (run_id new_run_id identity.graph identity.partition identity.node identity.rerun)) [
        | inl none_ ↦ rw (rendered_params, context, none_) refl
        | inr (id, some_) ↦
            rw (rendered_params, context, some_)
              (ap some
                (render_value_eq to_text (ctx id) narrowed input.inputs input.params [] agree))
      ]
  where
    ctx : Text → RenderContext
    ctx id = record {
      partition = identity.partition.key;
      run = record { id = id; summary = run_summary to_text input identity };
      upstream = input.inputs;
      env = env;
      item = some item;
    }

    referred : List Text
    referred = referred_upstreams input.params []

    narrowed : Map Json
    narrowed = retain (λ name _. contains name referred) input.inputs

    agree : (n : Text) → contains n referred ≡ true → get n narrowed ≡ get n input.inputs
    agree n m = get-retain-keys (λ name. contains name referred) n input.inputs m
