-- ===== src/Daemon/Exclusive.antt =====
-- The assets of the graphs that the daemon adopts (swale/src/daemon.rs, `Daemon::sync`).
use swale.Base.{
  arith, ◌≡◌, ◌≢◌, refl, sym, ap, ◌∙◌, subst, Bool, true, false, Option, none, some, List, [], ◌∷◌,
  Text, Map, get, insert, get-insert, text_eq, text_eq_iff, inl, inr, Bool-cases, Option-cases,
  ◌&&◌, find-eq_some, find-ne_none, any, any-eq_true, any-mem,
}
use swale.Base.Calls.{Done, caught, continue-eq_ok, ok-injective}
use swale.Base.Results.{Result}
use swale.Daemon.{
  Sync, asset_reason, pool_reason, check, adopt, adopt_checked, adopt_loaded, adopt_pending,
}
use swale.Graph.{Graph, Node, node_asset, conflicting_asset, option_text_eq, is_some}
use swale.Records.{GraphRecord}
use swale.Scheduler.{Error}
use swale.Scheduler.Services.{Services, Action}

option_text_eq-eq : (a b : Option Text) → option_text_eq a b ≡ true → a ≡ b
option_text_eq-eq none none h = refl
option_text_eq-eq none (some b) h = cc
option_text_eq-eq (some a) none h = cc
option_text_eq-eq (some a) (some b) h = ap some ((text_eq_iff a b).0 h)

option_text_eq_refl : (a : Option Text) → option_text_eq a a ≡ true
option_text_eq_refl none = refl
option_text_eq_refl (some a) = (text_eq_iff a a).1 refl

and-eq_true : (a b : Bool) → (a && b) ≡ true → (a ≡ true) × (b ≡ true)
and-eq_true true b h = (refl, h)
and-eq_true false b h = cc

module _ {Expression : Type 0} where
  -- No asset of a graph is produced by a graph of another name.
  abbrev pub IsExclusive : Map (Graph Expression) → Type 0
  IsExclusive graphs =
      (i j : Text) (g h : Graph Expression)
      → get i graphs ≡ some g
      → get j graphs ≡ some h
      → i ≢ j
      → conflicting_asset g h ≡ none

  -- the reason at the first adopted graph and at the others
  asset_reason-parts :
      (pointer : Text) (g : Graph Expression) (j : Text) (f : Graph Expression)
      (adopted : Map (Graph Expression))
      → asset_reason pointer g ((j, f) ∷ adopted) ≡ none
      → (asset_reason pointer g adopted ≡ none)
        × (text_eq j pointer ≡ false → conflicting_asset g f ≡ none)
  unfolding asset_reason
  asset_reason-parts pointer g j f adopted h = elim (Bool-cases (text_eq j pointer)) [
    | inl same ↦ (rw (asset_reason, same) at h, λ e. absurd (ground arith))
    | inr other ↦ elim (Option-cases (conflicting_asset g f)) [
      | inl e ↦ (rw (asset_reason, other, e) at h, λ _. e)
      | inr (n, e) ↦ absurd (let h1 = rw (asset_reason, other, e) at h in ground arith)
    ]
  ]

  asset_reason-eq_none :
      (pointer : Text) (g : Graph Expression) (adopted : Map (Graph Expression)) (k : Text)
      (h : Graph Expression)
      → asset_reason pointer g adopted ≡ none
      → get k adopted ≡ some h
      → k ≢ pointer
      → conflicting_asset g h ≡ none
  unfolding get
  asset_reason-eq_none pointer g [] k h none_ found other = absurd (ground arith)
  asset_reason-eq_none pointer g ((j, f) ∷ adopted) k h none_ found other =
      let (rest, first) = asset_reason-parts pointer g j f adopted none_ in
      elim (Bool-cases (text_eq j k)) [
        | inl same ↦
            let is_h : f ≡ h = (let e = rw (get, same) at found in ground arith) in
            let no : text_eq j pointer ≡ false =
              ground (arith, text_eq_iff j k, text_eq_iff j pointer) in
            ap (λ x. conflicting_asset g x) (sym is_h) ∙ first no
        | inr differs ↦
            asset_reason-eq_none pointer g adopted k h rest (rw (get, differs) at found) other
      ]

  abbrev produced : Graph Expression → Node → Bool
  produced other n =
      is_some (node_asset n) && any (λ m. option_text_eq (node_asset m) (node_asset n)) other.nodes

  conflicting_asset-sym :
      (g h : Graph Expression) → conflicting_asset g h ≡ none → conflicting_asset h g ≡ none
  unfolding conflicting_asset
  conflicting_asset-sym g h e = elim (Option-cases (conflicting_asset h g)) [
    | inl none_ ↦ none_
    | inr (n, found) ↦
        let (n_in, both) = find-eq_some (produced g) h.nodes found in
        let (has_asset, produced_too) =
          and-eq_true (is_some (node_asset n))
            (any (λ m. option_text_eq (node_asset m) (node_asset n)) g.nodes) both in
        let (m, m_in, equal) =
          any-eq_true (λ m. option_text_eq (node_asset m) (node_asset n)) g.nodes produced_too in
        let same = option_text_eq-eq (node_asset m) (node_asset n) equal in
        let back : any (λ x. option_text_eq (node_asset x) (node_asset m)) h.nodes ≡ true =
          any-mem (λ x. option_text_eq (node_asset x) (node_asset m)) h.nodes n n_in
            (rw same (option_text_eq_refl (node_asset n))) in
        let asset_too : is_some (node_asset m) ≡ true = rw same has_asset in
        let (x, first) = find-ne_none (produced h) g.nodes m m_in (rw (asset_too, back) refl) in
        absurd (let clash = sym e ∙ first in ground arith)
  ]

  insert-IsExclusive :
      (pointer : Text) (g : Graph Expression) (graphs : Map (Graph Expression))
      → asset_reason pointer g graphs ≡ none
      → IsExclusive graphs
      → IsExclusive (insert pointer g graphs)
  insert-IsExclusive pointer g graphs none_ before i j a b at_i at_j other =
      let e = get-insert pointer i g graphs in
      let f = get-insert pointer j g graphs in
      elim (Bool-cases (text_eq pointer i)) [
        | inl is_i ↦ elim (Bool-cases (text_eq pointer j)) [
          | inl is_j ↦ absurd (ground (arith, text_eq_iff pointer i, text_eq_iff pointer j))
          | inr not_j ↦
              let same : g ≡ a = (let x = sym (rw is_i at e) ∙ at_i in ground arith) in
              let found = sym (rw not_j at f) ∙ at_j in
              ap (λ x. conflicting_asset x b) (sym same)
              ∙ asset_reason-eq_none pointer g graphs j b none_ found
                  (ground (arith, text_eq_iff pointer j))
        ]
        | inr not_i ↦ elim (Bool-cases (text_eq pointer j)) [
          | inl is_j ↦
              let same : g ≡ b = (let x = sym (rw is_j at f) ∙ at_j in ground arith) in
              let found = sym (rw not_i at e) ∙ at_i in
              ap (λ x. conflicting_asset a x) (sym same)
              ∙ conflicting_asset-sym g a (
                  asset_reason-eq_none pointer g graphs i a none_ found
                    (ground (arith, text_eq_iff pointer i)))
          | inr not_j ↦
              before i j a b (sym (rw not_i at e) ∙ at_i) (sym (rw not_j at f) ∙ at_j) other
        ]
      ]

module _ {S Expression : Type 0} (services : Services S Expression)
    (current : Action S (List (Text × Text))) (kv_put : Text → Text → Action S Unit)
    (encode_graph : GraphRecord → Text) where
  abbrev step :
      Text
      → Text
      → Sync Expression
      → Result Error (Option (Graph Expression))
      → Action S (Sync Expression)
  step = adopt_loaded services current kv_put encode_graph

  check-eq_none :
      (pointer : Text) (g : Graph Expression) (adopted : Map (Graph Expression))
      → check services.has_runtime pointer g adopted ≡ none
      → asset_reason pointer g adopted ≡ none
  unfolding check
  check-eq_none pointer g adopted h = elim (Bool-cases (text_eq g.name pointer)) [
    | inl named ↦ elim (Option-cases (pool_reason services.has_runtime g.nodes)) [
      | inl e ↦ rw (check, named, e) at h
      | inr (reason, e) ↦ absurd (let h1 = rw (check, named, e) at h in ground arith)
    ]
    | inr other ↦ absurd (let h1 = rw (check, other) at h in ground arith)
  ]

  adopt_checked-IsExclusive :
      (pointer hash : Text) (g : Graph Expression) (sync next : Sync Expression) (s t : S)
      (reason : Option Text)
      → (reason ≡ none → asset_reason pointer g sync.graphs ≡ none)
      → IsExclusive sync.graphs
      → adopt_checked services current kv_put encode_graph pointer hash g sync reason s
        ≡ (Done.ok next, t)
      → IsExclusive next.graphs
  unfolding adopt_checked
  adopt_checked-IsExclusive pointer hash g sync next s t (some reason) accepted before h =
      subst (λ x. IsExclusive x.graphs) (ok-injective _ next s t h) before
  adopt_checked-IsExclusive pointer hash g sync next s t none accepted before h =
      let (_, u, _, h1) =
        continue-eq_ok _ (adopt services current kv_put encode_graph hash pointer s) h in
      subst (λ x. IsExclusive x.graphs) (ok-injective _ next u t h1)
        (insert-IsExclusive pointer g sync.graphs (accepted refl) before)

  adopt_loaded-IsExclusive :
      (pointer hash : Text) (sync next : Sync Expression) (s t : S)
      (loaded : Result Error (Option (Graph Expression)))
      → IsExclusive sync.graphs
      → step pointer hash sync loaded s ≡ (Done.ok next, t)
      → IsExclusive next.graphs
  unfolding adopt_loaded
  adopt_loaded-IsExclusive pointer hash sync next s t (Result.err e) before h =
      subst (λ x. IsExclusive x.graphs) (ok-injective _ next s t h) before
  adopt_loaded-IsExclusive pointer hash sync next s t (Result.ok none) before h =
      subst (λ x. IsExclusive x.graphs) (ok-injective _ next s t h) before
  adopt_loaded-IsExclusive pointer hash sync next s t (Result.ok (some g)) before h =
      adopt_checked-IsExclusive pointer hash g sync next s t
        (check services.has_runtime pointer g sync.graphs) (check-eq_none pointer g sync.graphs)
        before h

  -- When no two adopted graphs produce the same asset before the definitions of a pass, none do
  -- after it, whichever definitions are adopted or refused.
  pub adopt_pending-IsExclusive :
      (pending : List (Text × Text)) (sync last : Sync Expression) (s t : S)
      → IsExclusive sync.graphs
      → adopt_pending services current kv_put encode_graph pending sync s ≡ (Done.ok last, t)
      → IsExclusive last.graphs
  unfolding adopt_pending
  adopt_pending-IsExclusive [] sync last s t before h =
      subst (λ x. IsExclusive x.graphs) (ok-injective sync last s t h) before
  adopt_pending-IsExclusive ((pointer, hash) ∷ pending) sync last s t before h =
      let (loaded, u, _, h1) = continue-eq_ok _ (caught (services.definition hash) s) h in
      let (next, v, stepped, h2) = continue-eq_ok _ (step pointer hash sync loaded u) h1 in
      adopt_pending-IsExclusive pending next last v t
        (adopt_loaded-IsExclusive pointer hash sync next u v loaded before stepped) h2
