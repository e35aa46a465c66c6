-- ===== src/Scheduler/Requests.antt =====
-- swale/src/request.rs: `Scheduler::handle_request`, with the messages of swale/src/scheduler.rs.
pub mod Again
pub mod Examples
use swale.Base.{
  ℕ, ◌≡◌, refl, Bool, true, false, Option, none, some, List, [], ◌∷◌, ◌++◌, Text, codes,
  if◌then◌else◌,
}
use swale.Partition.{Partition}
use swale.Records.Keys.{request_key, Expiring, suffix}
use swale.Request.{RequestId, Request}
use swale.Scheduler.{Error, RerunOutcome, is_permanent}
use swale.Scheduler.Services.{
  Services, Action, Effect, Done, ok, err, panicked, ◌>>=◌, return, fail, read_with,
}
use swale.Scheduler.Steps.{rerun_with, cancel_run}
use swale.Scheduler.Steps.Reconcile.{start_runs}

-- `RequestOutcome` and `RequestRecord` of swale/src/records.rs
pub data RequestOutcome : Type 0 where
  started : List Partition → RequestOutcome
  rerun : Text → RequestOutcome
  cancelled : RequestOutcome
  refused : Text → RequestOutcome

pub record RequestRecord : Type 0 where
  pub request : Request
  pub handled_at_ms : ℕ
  pub outcome : RequestOutcome

-- the messages of the errors
unfoldable pub error_text : Error → Text
error_text (Error.queue e) = e.message
error_text (Error.workflow e) = e.message
error_text (Error.object_store message) = message
error_text (Error.malformed_record key source) =
    codes "record `" ++ (key ++ (codes "` is not a record: " ++ source))
error_text (Error.definition message) = message
error_text (Error.unknown_definition hash) =
    codes "definition `" ++ (hash ++ codes "` is not in the definition store")
error_text (Error.unknown_graph graph) =
    codes "graph `" ++ (graph ++ codes "` does not have an adopted definition")
error_text (Error.no_partition graph) =
    codes "the trigger of graph `" ++ (graph ++ codes "` does not determine a partition")
error_text (Error.unknown_pool node pool) =
    codes "node `" ++ (node ++ (codes "`: pool `" ++ (pool ++ codes "` does not have a runtime")))
error_text (Error.unknown_graph_run graph partition) =
    codes "graph `"
    ++ (graph ++ (codes "` does not have a run for partition `" ++ (partition.key ++ codes "`")))
error_text (Error.unknown_node graph node) =
    codes "graph `" ++ (graph ++ (codes "` does not have a node `" ++ (node ++ codes "`")))
error_text (Error.contended graph partition) =
    codes "the run of graph `"
    ++ (graph
        ++ (codes "` for partition `"
            ++ (partition.key ++ codes "` changed during the transition")))

-- `refusal` of a failure
refusal : {S : Type 0} → Error → Action S RequestOutcome
refusal e = if is_permanent e then return (RequestOutcome.refused (error_text e)) else fail e

-- a `match` on the result of a step, with the failures refused
refused_or :
    {S A B : Type 0} → (A → Action S B) → (Error → Action S B) → Done Error A × S → Done Error B × S
refused_or f g (ok a, s) = f a s
refused_or f g (err e, s) = g e s
refused_or f g (panicked, s) = (panicked, s)

module _ {S Expression : Type 0} (services : Services S Expression)
    (commit_effects : List Effect → Action S Unit) (encode : RequestRecord → Text)
    (decode : Text → Option RequestRecord) where
  unfoldable pub request_effects : RequestId → RequestRecord → List Effect
  request_effects id r =
      Effect.kv_put (request_key id) (encode r)
      ∷ (Effect.expiry_entry r.handled_at_ms (suffix (Expiring.request id)) ∷ [])

  -- the commit of the record at the end
  commit_record : RequestId → Request → ℕ → RequestOutcome → Action S RequestRecord
  unfolding request_effects
  commit_record id request now outcome =
      let r : RequestRecord = record {
        request = request;
        handled_at_ms = now;
        outcome = outcome;
      } in
      commit_effects (request_effects id r) >>= (λ _. return r)

  -- the outcome of a rerun that did not fail
  after_rerun : RequestId → Request → ℕ → Text → RerunOutcome → Action S RequestRecord
  unfolding commit_record
  after_rerun id request now n (RerunOutcome.submitted run_id) =
      return
        (record { request = request; handled_at_ms = now; outcome = RequestOutcome.rerun run_id })
  after_rerun id request now n (RerunOutcome.active run_id) =
      commit_record id request now
        (RequestOutcome.refused (codes "the rerun `" ++ (run_id ++ codes "` is active")))
  after_rerun id request now n RerunOutcome.no_record =
      commit_record id request now
        (RequestOutcome.refused (codes "node `" ++ (n ++ codes "` does not have a record")))
  after_rerun id request now n RerunOutcome.not_ready = commit_record id request now (
      RequestOutcome.refused (
        codes "node `"
        ++ (n ++ codes "` is not ready: its upstreams do not satisfy its trigger rule")))

  not_active : Text → Partition → RequestOutcome
  not_active graph partition = RequestOutcome.refused (
      codes "graph `"
      ++ (graph
          ++ (codes "` does not have an active run for partition `"
              ++ (partition.key ++ codes "`"))))

  -- `handle_request` of a request without a record
  apply_request : RequestId → ℕ → Request → Action S RequestRecord
  unfolding refusal refused_or commit_record after_rerun not_active
  apply_request id now (Request.start graph partitions) =
      (λ s.
        refused_or (λ ps. return (RequestOutcome.started ps)) refusal
          (start_runs services graph partitions s))
      >>= commit_record id (Request.start graph partitions) now
  apply_request id now (Request.rerun graph partition n) =
      let request = Request.rerun graph partition n in
      λ s.
        refused_or (after_rerun id request now n) (λ e. refusal e >>= commit_record id request now)
          (rerun_with services graph partition n
            (λ run_id. request_effects id (record {
              request = request;
              handled_at_ms = now;
              outcome = RequestOutcome.rerun run_id;
            }))
            s)
  apply_request id now (Request.cancel graph partition) =
      cancel_run services graph partition >>= (λ done.
        commit_record id (Request.cancel graph partition) now
          (if done then RequestOutcome.cancelled else not_active graph partition))

  unfoldable pub handle_request : RequestId → Request → Action S RequestRecord
  unfolding apply_request
  handle_request id request = do
    found ← read_with services decode (request_key id)
    elim found [
      | some r ↦ return r
      | none ↦ (do now ← services.now_ms; apply_request id now request)
    ]
