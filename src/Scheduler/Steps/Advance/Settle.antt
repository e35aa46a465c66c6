-- ===== src/Scheduler/Steps/Advance/Settle.antt =====
-- The settle of a graph run (swale/src/scheduler.rs), and a run that is settled.
use swale.Base.{
  ◌≡◌, refl, ap, ◌∙◌, subst, Bool, true, false, Option, none, some, List, [], ◌∷◌, inl, inr, Text,
  Map, arith, if◌then◌else◌, Option-cases,
}
use swale.Graph.{Graph, Node}
use swale.Partition.{Partition}
use swale.Readiness.{NodeState, settled_state}
use swale.Records.{NodeRecord, GraphRunRecord, GraphRunState}
use swale.Scheduler.{settled_run}
use swale.Scheduler.Services.{Services, Action, ok, continue-eq_ok, ◌>>=◌, return, or_panic}
use swale.Scheduler.Steps.{run_is_active, commit_settled}
use swale.Scheduler.Steps.Advance.{any_active, settle}
use swale.Task.{unrecorded_run_id}

module _ {S Expression : Type 0} (services : Services S Expression) (g : Graph Expression)
    (partition : Partition) (run : GraphRunRecord) (records : Map NodeRecord) where
  -- From one state to another, every task instance of the nodes without a current record is asked
  -- for in the order of the nodes, and is found not active: the runtime of the pool of its node says
  -- so, or the pool does not have one.
  pub data IsIdle : List Node → S → S → Type 0 where
    no_nodes : {s : S} → IsIdle [] s s
    has_record :
        {n : Node} {ns : List Node} {s t : S}
        → unrecorded_run_id services.new_run_id g partition run n records ≡ none
        → IsIdle ns s t
        → IsIdle (n ∷ ns) s t
    not_running :
        {n : Node} {ns : List Node} {id : Text} {s t u : S}
        → unrecorded_run_id services.new_run_id g partition run n records ≡ some (some id)
        → run_is_active services n id s ≡ (ok false, t)
        → IsIdle ns t u
        → IsIdle (n ∷ ns) s u

  -- the loop of `any_active` after the answer of a runtime
  abbrev go_on : List Node → Bool → Action S Bool
  go_on ns is_active =
      if is_active then return true else any_active services g partition run records ns

  -- the loop of `any_active` at a node, from what `unrecorded_run_id` returns
  abbrev after_id : Node → List Node → Option (Option Text) → Action S Bool
  after_id x ns o = elim o [
    | none ↦ any_active services g partition run records ns
    | some i ↦ (or_panic i >>= λ text. run_is_active services x text >>= go_on ns)
  ]

  go_on-false :
      (ns : List Node) (is_active : Bool) (s t : S)
      → go_on ns is_active s ≡ (ok false, t)
      → (is_active ≡ false) × (any_active services g partition run records ns s ≡ (ok false, t))
  go_on-false ns true s t h = absurd (ground arith)
  go_on-false ns false s t h = (refl, h)

  after_id-false :
      (x : Node) (ns : List Node) (i : Option Text) (s t : S)
      → after_id x ns (some i) s ≡ (ok false, t)
      → (id : Text) × (u : S) × (i ≡ some id)
        × (run_is_active services x id s ≡ (ok false, u))
        × (any_active services g partition run records ns u ≡ (ok false, t))
  after_id-false x ns none s t h = absurd (ground arith)
  after_id-false x ns (some id) s t h =
      let (is_active, u, a, rest) = continue-eq_ok (go_on ns) (run_is_active services x id s) h in
      let (idle, more) = go_on-false ns is_active u t rest in (id, u, refl, rw idle at a, more)

  any_active-IsIdle :
      (ns : List Node) (s t : S)
      → any_active services g partition run records ns s ≡ (ok false, t)
      → IsIdle ns s t
  unfolding any_active
  any_active-IsIdle [] s t h = let same : s ≡ t = ground arith in subst (IsIdle [] s) same no_nodes
  any_active-IsIdle (x ∷ ns) s t h =
      let before = λ (o : Option (Option Text)). after_id x ns o s ≡ (ok false, t) in
      elim (Option-cases (unrecorded_run_id services.new_run_id g partition run x records)) [
        | inl a ↦ has_record a (any_active-IsIdle ns s t (subst before a h))
        | inr (i, a) ↦
            let (id, u, full, idle, more) = after_id-false x ns i s t (subst before a h) in
            not_running (a ∙ ap some full) idle (any_active-IsIdle ns u t more)
      ]

  abbrev settling : Text → Map NodeState → Option GraphRunState → Action S Bool
  settling bytes states o = elim o [
    | none ↦ return false
    | some state ↦ (do
      is_active ← any_active services g partition run records g.nodes
      if is_active
          then return false
          else commit_settled services g.name partition bytes (settled_run state records run))
  ]

  pub settle_parts :
      (bytes : Text) (states : Map NodeState) (s t : S)
      → settle services g partition run bytes records states s ≡ (ok true, t)
      → (state : GraphRunState) × (u : S) × (settled_state states ≡ some state)
        × (any_active services g partition run records g.nodes s ≡ (ok false, u))
        × (commit_settled services g.name partition bytes (settled_run state records run) u
            ≡ (ok true, t))
  unfolding settle
  settle_parts bytes states s t h = elim (Option-cases (settled_state states)) [
    | inl a ↦ absurd (ground arith)
    | inr (state, a) ↦
        let (is_active, u, b, rest) =
          continue-eq_ok _ (any_active services g partition run records g.nodes s)
            (subst (λ o. settling bytes states o s ≡ (ok true, t)) a h) in
        go state a is_active u b rest
  ]
    where
      go :
          (state : GraphRunState)
          → settled_state states ≡ some state
          → (is_active : Bool) (u : S)
          → any_active services g partition run records g.nodes s ≡ (ok is_active, u)
          → (if is_active
                then return false
                else commit_settled services g.name partition bytes (settled_run state records run))
              u
            ≡ (ok true, t)
          → (state : GraphRunState) × (u : S) × (settled_state states ≡ some state)
            × (any_active services g partition run records g.nodes s ≡ (ok false, u))
            × (commit_settled services g.name partition bytes (settled_run state records run) u
                ≡ (ok true, t))
      go state a true u b rest = absurd (ground arith)
      go state a false u b rest = (state, u, a, b, rest)

  -- A settle that writes the final state writes the state that the states of the nodes make. From
  -- the state in which it is called it first finds every task instance without a current record not
  -- active, one node after the other, and it then commits that final state in the state which this
  -- leaves.
  pub settle-IsIdle :
      (bytes : Text) (states : Map NodeState) (s t : S)
      → settle services g partition run bytes records states s ≡ (ok true, t)
      → (state : GraphRunState) × (u : S) × (settled_state states ≡ some state)
        × IsIdle g.nodes s u
        × (commit_settled services g.name partition bytes (settled_run state records run) u
            ≡ (ok true, t))
  settle-IsIdle bytes states s t h =
      let (state, u, a, b, c) = settle_parts bytes states s t h in
      (state, u, a, any_active-IsIdle g.nodes s u b, c)
