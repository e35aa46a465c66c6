-- ===== src/Hook/Effects.antt =====
-- What the termination of a task instance stages (swale/src/hook.rs).
use swale.Base.{
  arith, ◌≡◌, refl, ◌≤◌, inl, inr, true, ◌&&◌, List, [], ◌∷◌, ◌++◌, codes, ltb, length, Bool-cases,
}
use swale.Hook.{
  HookServices, RunOutcome, Staged, has_value, full_record, node_record_of, record_status,
  stage_both, stage_record, stage_effects, capped, events_queue,
}
use swale.Partition.{is_partition}
use swale.Records.{NodeRecord}
use swale.Task.{TaskIdentity, headers, record_key, u32_max}
use swale.Task.Headers.{from_headers-headers, get-headers-group}

module _ (services : HookServices) where
  capped-fits :
      (full : NodeRecord)
      → has_value (capped services full).output ≡ true
      → length (services.encode_node (capped services full)) ≤ services.max_kv_value_size
  unfolding capped
  capped-fits full h = elim (Bool-cases (has_value full.output)) [
    | inr empty ↦ absurd (let g = rw (capped, empty) at h in ground arith)
    | inl value ↦
        elim (Bool-cases (ltb services.max_kv_value_size (length (services.encode_node full)))) [
          | inl long ↦ absurd (let g = rw (capped, value, long) at h in ground arith)
          | inr short ↦ rw (capped, value, short) (ground arith)
        ]
  ]

  -- The record of a terminated task instance has an output only when its encoding is within the cap
  -- of a value.
  pub node_record_of-fits :
      (identity : TaskIdentity) (outcome : RunOutcome)
      → has_value (node_record_of services identity outcome).output ≡ true
      → length (services.encode_node (node_record_of services identity outcome))
        ≤ services.max_kv_value_size
  unfolding node_record_of
  node_record_of-fits identity outcome h = capped-fits (full_record services identity outcome) h

  capped-status : (full : NodeRecord) → (capped services full).status ≡ full.status
  unfolding capped
  capped-status full =
      elim (Bool-cases (
        has_value full.output
        && ltb services.max_kv_value_size (length (services.encode_node full)))) [
          | inl long ↦ rw (capped, long) refl
          | inr short ↦ rw (capped, short) refl
        ]

  stage_both-accepted :
      (first second : Staged)
      → ((before : List Staged) (effect : Staged) → services.accepts before effect ≡ true)
      → stage_both services first second ≡ first ∷ second ∷ []
  unfolding stage_both
  stage_both-accepted first second accepted =
      rw (stage_both, accepted [] first, accepted (first ∷ []) second) refl

  -- The termination of a run with the headers of a task instance stages the record of the task
  -- instance at the key of its node and an event with the status of the run, which carries the run
  -- id as its deduplication key, where the partition and the rerun count of the task instance are
  -- valid and the effects are taken.
  pub stage_effects-headers :
      (identity : TaskIdentity) (outcome : RunOutcome)
      → outcome.headers ≡ headers identity
      → is_partition identity.partition.key ≡ true
      → identity.rerun ≤ u32_max
      → ((before : List Staged) (effect : Staged) → services.accepts before effect ≡ true)
      → stage_effects services outcome
        ≡ Staged.put
            (record_key identity)
            (services.encode_node (node_record_of services identity outcome))
          ∷ Staged.enqueue events_queue
              (services.encode_event (record {
                graph = identity.graph;
                partition = identity.partition;
                node = identity.node;
                status = record_status outcome.status;
              }))
              (codes "evt:" ++ outcome.run_id)
          ∷ []
  unfolding stage_effects stage_record node_record_of full_record
  stage_effects-headers identity outcome own valid fits accepted =
      let full = full_record services identity outcome in
      rw
        (
          stage_effects,
          own,
          get-headers-group identity,
          own,
          from_headers-headers identity valid fits,
        )
        (rw (capped-status full) (stage_both-accepted _ _ accepted))
