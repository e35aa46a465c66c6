-- ===== src/Readiness/Runs.antt =====
-- A graph run as a sequence of steps (swale/src/readiness.rs): a ready node terminates and leaves
-- its record.
use mathlib.Core.WellFounded.{Acc}
use swale.Base.{
  ℕ, zero, suc, ◌+◌, ◌≡◌, ◌≢◌, refl, sym, subst, true, inl, inr, some, List, Memᴰ, Text, Map, get,
  has, insert, get-insert, text_eq, text_eq_iff, arith, Bool-cases,
}
use swale.Graph.{Graph, Node, name, trigger_rule}
use swale.Graph.Ordered.{IsOrdered, Below, below}
use swale.Records.{RecordStatus, NodeRecord}
use swale.Readiness.{NodeState, succeeded, ready, waiting, of_status, node_states}
use swale.Readiness.Count.{unresolved, unresolved-insert}
use swale.Readiness.Solution.{IsSolution, node_states_total}
use swale.Readiness.Status.{solution-Cases}
use swale.Readiness.Evolves.{evolves, classify-evolves, upstream_states-evolve}

module _ {Expression : Type 0} (g : Graph Expression) where
  -- The task instance of a ready node terminates with the record `done`.
  pub data Step : Map NodeRecord → Map NodeRecord → Type 0 where
    terminate :
        {records : Map NodeRecord} (states : Map NodeState) (n : Node) (done : NodeRecord)
        → node_states g records ≡ some states
        → Memᴰ n g.nodes
        → get (name n) states ≡ some ready
        → Step records (insert (name n) done records)

  -- `k` terminations in a row
  pub data Steps (records : Map NodeRecord) : ℕ → Map NodeRecord → Type 0 where
    here : Steps records zero records
    next : {k : ℕ} {r s : Map NodeRecord} → Steps records k r → Step r s → Steps records (suc k) s

-- A step before a sequence of steps.
pub Steps-cons :
    {Expression : Type 0} (g : Graph Expression) {r s : Map NodeRecord}
    → Step g r s
    → {k : ℕ} {t : Map NodeRecord} → Steps g s k t
    → Steps g r (suc k) t
Steps-cons g st here = next here st
Steps-cons g st (next rest last) = next (Steps-cons g st rest) last

evolves-of_status : (s : RecordStatus) → evolves (of_status s) (of_status s) ≡ true
unfolding of_status
evolves-of_status RecordStatus.succeeded = refl
evolves-of_status RecordStatus.failed = refl
evolves-of_status RecordStatus.cancelled = refl

ready_evolves : (s : RecordStatus) → evolves ready (of_status s) ≡ true
unfolding of_status
ready_evolves RecordStatus.succeeded = refl
ready_evolves RecordStatus.failed = refl
ready_evolves RecordStatus.cancelled = refl

pub of_status-ne-ready : (s : RecordStatus) → of_status s ≢ ready
unfolding of_status
of_status-ne-ready RecordStatus.succeeded e = cc
of_status-ne-ready RecordStatus.failed e = cc
of_status-ne-ready RecordStatus.cancelled e = cc

module _ (nodes : List Node) (ordered : IsOrdered nodes) (records : Map NodeRecord)
    (s t : Map NodeState) (f : Node) (done : NodeRecord) (in_nodes : Memᴰ f nodes)
    (was_ready : get (name f) s ≡ some ready) (before : IsSolution records nodes s)
    (after : IsSolution (insert (name f) done records) nodes t) where
  -- the node that terminated
  finished_evolves :
      (n : Node) (x y : NodeState)
      → text_eq (name f) (name n) ≡ true
      → Memᴰ n nodes
      → get (name n) s ≡ some x
      → get (name n) t ≡ some y
      → evolves x y ≡ true
  finished_evolves n x y e m p q =
      let same = (text_eq_iff (name f) (name n)).0 e in
      let x_ready : x ≡ ready = ground arith in
      let now = get-insert (name f) (name n) done records in
      elim (solution-Cases (insert (name f) done records) t nodes ordered n y after m q) [
        | inl (r, a, b) ↦ rw (x_ready, b) (ready_evolves r.status)
        | inr (ups, a, b, c) ↦ absurd (ground arith)
      ]

  evolve-Below :
      (k : Text) (n : Node) (x y : NodeState)
      → Acc (Below nodes) k
      → name n ≡ k
      → Memᴰ n nodes
      → get (name n) s ≡ some x
      → get (name n) t ≡ some y
      → evolves x y ≡ true
  evolve-Below k n x y (Acc.intro _ smaller) eq m p q =
      elim (Bool-cases (text_eq (name f) (name n))) [
        | inl e ↦ finished_evolves n x y e m p q
        | inr e ↦
            let now = get-insert (name f) (name n) done records in
            elim (solution-Cases records s nodes ordered n x before m p) [
              | inl (r, a, b) ↦
                  elim (solution-Cases (insert (name f) done records) t nodes ordered n y after m
                    q) [
                      | inl (r', a', b') ↦
                          let same : r ≡ r' = ground arith in
                          rw (b, b', ← same) (evolves-of_status r.status)
                      | inr (ups, a', b', c') ↦ absurd (ground arith)
                    ]
              | inr (ups, a, b, c) ↦
                  elim (solution-Cases (insert (name f) done records) t nodes ordered n y after m
                    q) [
                      | inl (r', a', b') ↦ absurd (ground arith)
                      | inr (ups', a', b', c') ↦
                          rw (c, c')
                            (classify-evolves (trigger_rule n) ups ups' (
                              upstream_states-evolve n.upstreams s t ups ups'
                                (λ u v w mu pu pw.
                                  let (z, mz, e') = ordered.known n u m mu in
                                  evolve-Below u z v w (smaller u (below n m eq mu)) e' mz
                                    (rw e' pu) (rw e' pw))
                                b b'))
                    ]
            ]
      ]

pub evolves_trans :
    (x y z : NodeState) → evolves x y ≡ true → evolves y z ≡ true → evolves x z ≡ true
evolves_trans waiting y z p q = refl
evolves_trans ready y z p q = ground arith
evolves_trans _ y z p q = ground arith

evolves_refl : (x : NodeState) → evolves x x ≡ true
evolves_refl succeeded = refl
evolves_refl _ = refl

module _ {Expression : Type 0} (g : Graph Expression) (ordered : IsOrdered g.nodes) where
  pub IsSolution-of :
      (records : Map NodeRecord) (t : Map NodeState)
      → node_states g records ≡ some t
      → IsSolution records g.nodes t
  IsSolution-of records t e =
      let (t', e', sol) = node_states_total g records ordered in
      subst (IsSolution records g.nodes) (ground arith) sol

  Step-evolves :
      {r r' : Map NodeRecord} (s t : Map NodeState)
      → Step g r r'
      → node_states g r ≡ some s
      → node_states g r' ≡ some t
      → (n : Node) (x y : NodeState) → Memᴰ n g.nodes
      → get (name n) s ≡ some x
      → get (name n) t ≡ some y
      → evolves x y ≡ true
  Step-evolves {r} s t (terminate states f done e m rd) p q n x y mn a b =
      let same : states ≡ s = ground arith in
      evolve-Below g.nodes ordered r s t f done m (rw same at rd) (IsSolution-of r s p)
        (IsSolution-of (insert (name f) done r) t q) (name n) n x y (ordered.grounded n mn) refl mn
        a b

  -- In an ordered graph, however many ready nodes terminate, and with whatever records: a node whose
  -- state comes from a record keeps it, a blocked node stays blocked, and a ready node stays ready
  -- until it has a record of its own.
  pub Steps-evolves :
      {r : Map NodeRecord} {k : ℕ} {r' : Map NodeRecord} (s t : Map NodeState)
      → Steps g r k r'
      → node_states g r ≡ some s
      → node_states g r' ≡ some t
      → (n : Node) (x y : NodeState) → Memᴰ n g.nodes
      → get (name n) s ≡ some x
      → get (name n) t ≡ some y
      → evolves x y ≡ true
  Steps-evolves s t here p q n x y mn a b =
      let same : x ≡ y = ground arith in rw same (evolves_refl y)
  Steps-evolves s t (next {r = mid} before last) p q n x y mn a b =
      let (u, e, sol) = node_states_total g mid ordered in
      let (z, c, _) = sol.at n mn in
      evolves_trans x z y (Steps-evolves s u before p e n x z mn a c)
        (Step-evolves u t last e q n z y mn c b)

  pub Step-unresolved :
      {r r' : Map NodeRecord} → Step g r r' → suc (unresolved g.nodes r') ≡ unresolved g.nodes r
  Step-unresolved {r} (terminate states f done e m rd) =
      elim (solution-Cases r states g.nodes ordered f ready (IsSolution-of r states e) m rd) [
        | inl (rc, a, b) ↦ absurd (of_status-ne-ready rc.status (sym b))
        | inr (ups, a, b, c) ↦ unresolved-insert g.nodes r f done ordered.distinct m (rw (has, a))
      ]

  -- A step gives a record to a node that had none, so the nodes without one bound the steps.
  pub Steps-unresolved :
      {r : Map NodeRecord} {k : ℕ} {r' : Map NodeRecord}
      → Steps g r k r'
      → k + unresolved g.nodes r' ≡ unresolved g.nodes r
  Steps-unresolved here = omega arith
  Steps-unresolved (next before last) = omega (arith, Steps-unresolved before, Step-unresolved last)
