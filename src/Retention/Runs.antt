-- ===== src/Retention/Runs.antt =====
-- Which graph runs a pass removes (swale/src/retention.rs, `expire_run`).
use swale.Base.{
  arith, ◌≡◌, subst, ap, ℕ, true, inl, inr, Option, none, some, List, ◌∷◌, Text, map, Bool-cases,
}
use swale.Base.Calls.{Done, caught, as_result-eq_ok, continue-eq_ok}
use swale.Base.Results.{Result}
use swale.Graph.{Graph}
use swale.Partition.{Partition}
use swale.Records.{GraphRunRecord}
use swale.Records.Keys.{graph_run_key, node_record_key}
use swale.Retention.{
  Expired, same_settle, run_keys, forget_groups, remove_run, with_definition, settled_run_at,
  found_run, expire_run,
}
use swale.Scheduler.{Error}
use swale.Scheduler.Requests.{RequestRecord}
use swale.Scheduler.Services.{Services, Action, graph_run, return}

delete_if-injective :
    {S : Type 0} (a a' : Text) (b b' : Option Text) (c c' : List Text) (w t : S)
    → ◌≡◌ {A = Done Error Expired × S}
        (Done.ok (Expired.delete_if a b c), w)
        (Done.ok (Expired.delete_if a' b' c'), t)
    → (a' ≡ a) × (b' ≡ b) × (c' ≡ c) × (w ≡ t)
delete_if-injective a a' b b' c c' w t h = (ground arith, ground arith, ground arith, ground arith)

module _ {S Expression : Type 0} (services : Services S Expression)
    (forget_group : Text → Text → Action S Unit) (decode_request : Text → Option RequestRecord)
    (graph : Text) (partition : Partition) (key : Text) (expected : Option Text)
    (keys : List Text) where
  -- The definition of the run is loaded, the groups of its mapped nodes are removed, and the keys
  -- are those of the run and of the nodes of the definition.
  abbrev pub Removes : Text → Text → S → S → Type 0
  Removes definition bytes u t =
      (g : Graph Expression) × (v : S) × (services.definition definition u ≡ (Done.ok (some g), v))
      × (forget_groups services forget_group decode_request g partition v ≡ (Done.ok tt, t))
      × (key ≡ graph_run_key graph partition)
      × (expected ≡ some bytes)
      × (keys ≡ graph_run_key graph partition ∷ map (node_record_key graph partition) g.nodes)

  with_definition-Removes :
      (definition bytes : Text) (r : Result Error (Option (Graph Expression))) (u v t : S)
      → caught {F = Error} (services.definition definition) u ≡ (Done.ok r, v)
      → with_definition services forget_group decode_request graph partition bytes r v
        ≡ (Done.ok (Expired.delete_if key expected keys), t)
      → Removes definition bytes u t
  unfolding with_definition remove_run run_keys
  with_definition-Removes definition bytes (Result.ok none) u v t e h = absurd (ground arith)
  with_definition-Removes definition bytes (Result.err _) u v t e h = absurd (ground arith)
  with_definition-Removes definition bytes (Result.ok (some g)) u v t e h =
      let end =
        Expired.delete_if (graph_run_key graph partition) (some bytes)
          (graph_run_key graph partition ∷ map (node_record_key graph partition) g.nodes) in
      let (_, w, forgot, h1) =
        continue-eq_ok (λ (_ : Unit {0}). return end)
          (forget_groups services forget_group decode_request g partition v) h in
      let (k, x, ks, same) = delete_if-injective _ key _ expected _ keys w t h1 in
      (
        g,
        v,
        as_result-eq_ok (services.definition definition u) e,
        subst
            (λ z.
              forget_groups services forget_group decode_request g partition v ≡ (Done.ok tt, z))
            same forgot,
        k,
        x,
        ks,
      )

  -- A pass removes a graph run only when its record says that the run was settled at the time of the
  -- entry. It then has removed the run groups of the run, and in one transaction, against the bytes
  -- of the record, it deletes the record and the records of all nodes of the definition of the run,
  -- and nothing else.
  pub expire_run-Removes :
      (time : ℕ) (s t : S)
      → expire_run services forget_group decode_request time graph partition s
        ≡ (Done.ok (Expired.delete_if key expected keys), t)
      → (run : GraphRunRecord) × (bytes : Text) × (u : S) × (graph_run services
            (graph_run_key graph partition)
            s
          ≡ (Done.ok (some (run, bytes)), u))
        × (run.settled_at_ms ≡ some time)
        × Removes run.definition bytes u t
  unfolding expire_run found_run settled_run_at
  expire_run-Removes time s t h =
      let (found, u, read, h1) =
        continue-eq_ok (found_run services forget_group decode_request time graph partition)
          (graph_run services (graph_run_key graph partition) s) h in
      by_record found u read h1
    where
      settled : (o : Option ℕ) → same_settle o time ≡ true → o ≡ some time
      settled none p = absurd (ground arith)
      settled (some n) p = let e : n ≡ time = ground arith in ap some e

      by_record :
          (found : Option (GraphRunRecord × Text)) (u : S)
          → graph_run services (graph_run_key graph partition) s ≡ (Done.ok found, u)
          → found_run services forget_group decode_request time graph partition found u
            ≡ (Done.ok (Expired.delete_if key expected keys), t)
          → (run : GraphRunRecord) × (bytes : Text) × (w : S) × (graph_run services
                (graph_run_key graph partition)
                s
              ≡ (Done.ok (some (run, bytes)), w))
            × (run.settled_at_ms ≡ some time)
            × Removes run.definition bytes w t
      by_record none u read g = absurd (ground arith)
      by_record (some (run, bytes)) u read g =
          elim (Bool-cases (same_settle run.settled_at_ms time)) [
            | inr other ↦ absurd (let x = rw (settled_run_at, other) at g in ground arith)
            | inl same ↦
                let g' = rw (settled_run_at, same) at g in
                let (r, v, e, g1) =
                  continue-eq_ok
                    (with_definition services forget_group decode_request graph partition bytes)
                    (caught (services.definition run.definition) u) g' in
                (
                  run,
                  bytes,
                  u,
                  read,
                  settled run.settled_at_ms same,
                  with_definition-Removes run.definition bytes r u v t e g1,
                )
          ]
