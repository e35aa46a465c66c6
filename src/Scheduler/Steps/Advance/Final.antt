-- ===== src/Scheduler/Steps/Advance/Final.antt =====
-- What follows the settle of a graph run (swale/src/scheduler.rs): later events and cancels of it.
use swale.Base.{arith, ◌≡◌, refl, ℕ, true, false, Option, some, [], ◌∷◌, Text, Map}
use swale.Graph.{Graph}
use swale.Hook.{Event}
use swale.Partition.{Partition}
use swale.Readiness.{NodeState, settled_state}
use swale.Records.{NodeRecord, GraphRunRecord, GraphRunState}
use swale.Records.Keys.{graph_run_key}
use swale.Scheduler.{settled_run}
use swale.Scheduler.Services.{Services, Effect, ok, continue-eq_ok, graph_run}
use swale.Scheduler.Steps.{is_active_state, commit_settled, cancel_run, cancel_found}
use swale.Scheduler.Steps.Advance.{settle, handle_event}
use swale.Scheduler.Steps.Advance.Settle.{settle_parts}

settled_state-not_active :
    (states : Map NodeState) (state : GraphRunState)
    → settled_state states ≡ some state
    → is_active_state state ≡ false
unfolding settled_state
settled_state-not_active states state h = ground arith

module _ {S Expression : Type 0} (services : Services S Expression) where
  -- A record that a commit puts is read back.
  abbrev pub IsDurable : Type 0
  IsDurable =
      (k v : Text) (expected : Option Text) (ms : ℕ) (entry : Text) (s t : S)
      → services.kv_compare_commit k expected
          (Effect.kv_put k v ∷ (Effect.expiry_entry ms entry ∷ [])) s
        ≡ (ok true, t)
      → services.kv_get k t ≡ (ok (some v), t)

  -- The encoding of the record of a graph run is decoded to a record with the same state.
  abbrev pub IsCodec : Type 0
  IsCodec =
      (r : GraphRunRecord)
      → (q : GraphRunRecord) × (services.decode_run (services.encode_run r) ≡ some q)
        × (q.state ≡ r.state)

  commit_settled-graph_run :
      (graph : Text) (partition : Partition) (bytes : Text) (run : GraphRunRecord) (s t : S)
      → IsDurable
      → IsCodec
      → commit_settled services graph partition bytes run s ≡ (ok true, t)
      → (q : GraphRunRecord) × (written : Text) × (q.state ≡ run.state)
        × (graph_run services (graph_run_key graph partition) t ≡ (ok (some (q, written)), t))
  unfolding commit_settled graph_run
  commit_settled-graph_run graph partition bytes run s t durable codec h =
      let (now, u, _, committed) = continue-eq_ok _ (services.now_ms s) h in
      let settled : GraphRunRecord = record run { settled_at_ms = some now } in
      let read =
        durable (graph_run_key graph partition) (services.encode_run settled) _ now _ u t
          committed in
      let (q, decoded, same) = codec settled in
      (q, services.encode_run settled, same, rw (graph_run, read, decoded) refl)

  -- With a store that reads back what it commits and an encoding that keeps the state of a run, once a settle has written the final state of a graph run, an event of any of its task instances
  -- changes nothing, and a cancel of the run changes nothing and says so.
  pub settle-handle_event :
      (g : Graph Expression) (partition : Partition) (run : GraphRunRecord) (bytes : Text)
      (records : Map NodeRecord) (states : Map NodeState) (event : Event) (s t : S)
      → IsDurable
      → IsCodec
      → settle services g partition run bytes records states s ≡ (ok true, t)
      → event.graph ≡ g.name
      → event.partition ≡ partition
      → (handle_event services event t ≡ (ok tt, t))
        × (cancel_run services g.name partition t ≡ (ok false, t))
  unfolding handle_event cancel_run cancel_found settled_run
  settle-handle_event g partition run bytes records states event s t durable codec h of_graph
        of_partition =
      let (state, u, final, _, committed) =
        settle_parts services g partition run records bytes states s t h in
      let (q, written, same, read) =
        commit_settled-graph_run g.name partition bytes (settled_run state records run) u t durable
          codec committed in
      let idle : is_active_state q.state ≡ false =
        rw same (settled_state-not_active states state final) in
      (rw (of_graph, of_partition, read, idle) refl, rw (read, idle) refl)
