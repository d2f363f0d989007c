-- ===== src/Tests/Target.antt =====
-- The theorems on the dispatch of a target (src/target/mod.rs) at concrete inputs.
use nazo_auth_ctl.Prelude.{
  ℕ, ◌≡◌, refl, String, true, false, none, some, [], ◌∷◌, is_none, arith, ◌==◌, if◌then◌else◌,
}
use nazo_auth_ctl.Prelude.Exec.{ok, err}
use nazo_auth_ctl.Disk.{Disk, persisted, refused, read_secure_regular_file, atomic_write}
use nazo_auth_ctl.Identifiers.{
  deployment_scope, is_lower_sha256, is_identifier_character, validate_identifier, validate_issuer,
}
use nazo_auth_ctl.State.{DeploymentState}
use nazo_auth_ctl.State.Validation.{
  validate, validate_active, validate_config, validate_artifact, validate_runtime,
  validate_resources, validate_release,
}
use nazo_auth_ctl.State.Steps.{commit}
use nazo_auth_ctl.State.Mutations.{mutate, apply_rollback}
use nazo_auth_ctl.State.Legacy.{read_deployment_state}
use nazo_auth_ctl.State
use nazo_auth_ctl.State.Places.{scope_path}
use nazo_auth_ctl.State.Store.{
  Store, scope_files, files_at, put_at, read_state, load_existing, persist, persist_exact, apply,
}
use nazo_auth_ctl.State.Uninstall.{remove_deployment}
use nazo_auth_ctl.Journal.{validate_entry}
use nazo_auth_ctl.Journal.Compaction.{unsettled, total_bytes}
use nazo_auth_ctl.Journal.Running.Fresh.{HasRoom, whole}
use nazo_auth_ctl.Wire
use nazo_auth_ctl.Wire.{
  HostOperation, HostOperationBody, StateMutationPayload, HostCompletionBody, HostResult,
  completed_result, failed_result, canonical_operation_value,
}
use nazo_auth_ctl.Wire.Admission.{valid_token, validate_body, validate_mutation, validate_operation}
use nazo_auth_ctl.Target.{Target, Host, OnTarget}
use nazo_auth_ctl.Target.Dispatch.{
  dispatch_validated_host_operation, execute_validated, executor, execute_host_operation,
}
use nazo_auth_ctl.Target.Dispatch.Bound.{dispatch-validated}
use nazo_auth_ctl.Target.Dispatch.Stale.{dispatch-stale, rollback}
use nazo_auth_ctl.Target.Dispatch.Resumed.{config-resumes, rollback-resumes}
use nazo_auth_ctl.Target.Dispatch.Removed.{uninstall-finishes}
use nazo_auth_ctl.Tests.Sample.{
  bounds, codec_of, pending_of, terminal_of, pending_of-IsStored, terminal_of-IsStored,
}
use nazo_auth_ctl.Tests.Deployment.{
  deployed, updated, rolled, config_change-commits, rollback-commits,
}
use nazo_auth_ctl.Tests.Stored.{codec, readers, installed, store_of}
use nazo_auth_ctl.Tests.Store.{
  loads_deployed, after_change, reconfigured-valid, apply_change, scope_ok, installed_scope,
  reads_deployed, is_hash,
}
use nazo_auth_ctl.Tests.Wire.{formats}

-- A host on which nothing succeeds.
abbrev refuse : {A : Type 0} → OnTarget (Unit {0}) A
refuse target = (err "UNSUPPORTED_OPERATION", target)

abbrev idle : Host (Unit {0})
idle = record {
  execute_install = λ _ _. refuse;
  execute_update = λ _. refuse;
  execute_rollback = λ _. refuse;
  execute_deletion = λ _. refuse;
  execute_control = λ _. refuse;
  execute_admin = λ _. refuse;
  validate_backup_precondition = λ _ _. refuse;
  ensure_scope_dir = λ _. refuse;
  target_identity = refuse;
  hello_for = λ id. id;
  inspect_backup = λ _ _. ("", []);
  current_instance_identity = λ _ _. ok none;
  config_revision_marker = λ _ _. none;
  operation_log = λ _ _. ok [];
  read_logs = λ _ _ _. ok [];
  redact_log_line = λ line. line;
  quiesce_for_recovery = λ _. refuse;
  start = λ _. refuse;
  snapshot = λ _ _. refuse;
  restore_test = λ _ _. refuse;
  recover = λ _ _ _ _. refuse;
  recovery_path_switch_started = λ _ _ _. ok false;
  stage_recovery_candidate = λ _ _ _ _. refuse;
  recovery_candidate_artifact_reference = λ _ _. refuse;
  cleanup_recovery_candidate = λ _ _. refuse;
  activate_recovered_runtime = λ _ _ _ _ _. refuse;
  prepare_export = λ _ _. refuse;
  prepare_import = λ _ _. refuse;
  read_transfer_chunk = λ _ _ _ _ _ _. err "UNSUPPORTED_OPERATION";
  write_transfer_chunk = λ _ _ _ _ _. refuse;
  finalize_import = λ _ _ _ _ _. refuse;
  record_off_host_copy = λ _ _. refuse;
  cleanup_transfer = λ _ _. refuse;
}

-- An operation on the deployment, at its revision.
abbrev mutation_as : String → StateMutationPayload → HostOperation
mutation_as id mutation = record {
  schema = 11;
  operation_id = id;
  deployment_id = some "prod-eu.1";
  expected_revision = some 3;
  operation = HostOperationBody.state_mutate mutation;
}

abbrev reconfigure : HostOperation
reconfigure = mutation_as "op-2" (StateMutationPayload.apply_config "file:b" "v1")

abbrev roll_back : HostOperation
roll_back = mutation_as "op-3" StateMutationPayload.rollback

abbrev remove : HostOperation
remove = mutation_as "op-7" StateMutationPayload.uninstall

abbrev holding : Store → Target (Unit {0})
holding store = record { store = store; rest = tt }

reconfigure-valid : validate_operation formats reconfigure ≡ ok tt
unfolding validate_operation validate_body validate_mutation valid_token
reconfigure-valid = refl

roll_back-valid : validate_operation formats roll_back ≡ ok tt
unfolding validate_operation validate_body validate_mutation valid_token
roll_back-valid = refl

dispatch-validated_example :
    (is_none
        (dispatch_validated_host_operation codec idle 10 reconfigure (holding (store_of installed)))
      ≡ false)
    × (is_none (execute_validated codec idle 10 reconfigure (holding (store_of installed))) ≡ false)
dispatch-validated_example =
    dispatch-validated codec idle 10 formats reconfigure (holding (store_of installed))
      reconfigure-valid

abbrev stale : HostOperation
stale = record roll_back { expected_revision = some 2 }

dispatch-stale_example :
    dispatch_validated_host_operation codec idle 10 stale (holding (store_of installed))
    ≡ some (failed_result "op-3" "CONFIG_REVISION_MISMATCH", holding (store_of installed))
dispatch-stale_example =
    dispatch-stale codec idle 10 stale "prod-eu.1" "CONFIG_REVISION_MISMATCH" 2
      (holding (store_of installed)) deployed rollback refl refl loads_deployed refl refl

abbrev applied_at : String → ℕ → HostResult
applied_at id revision = completed_result id (HostCompletionBody.state_mutate_applied revision none)

-- A journal that is still empty, and the one that a crash leaves.
abbrev fresh : Disk
fresh = record { file = none; fates = [] }

reconfigure_room : HasRoom (codec_of "op-2" (applied_at "op-2" 4)) 10 reconfigure [] bounds fresh
unfolding Wire.kind canonical_operation_value total_bytes unsettled
reconfigure_room = record {
  steady = record { holds = refl; stored = tt; within = omega arith; readable = omega arith };
  admitted = omega arith;
  pending_stored = pending_of-IsStored "op-2" (applied_at "op-2" 4);
  fits = omega arith;
}

reconfigured-line :
    validate_entry
      (codec_of "op-2" (applied_at "op-2" 4))
      (terminal_of "op-2" (applied_at "op-2" 4))
    ≡ true
unfolding validate_entry is_lower_sha256 completed_result
reconfigured-line = refl

abbrev crashed : Disk
crashed =
    whole (codec_of "op-2" (applied_at "op-2" 4)) (pending_of "op-2" (applied_at "op-2" 4) ∷ [])
      (persisted ∷ [])

config-resumes_example :
    (executor codec idle 10 reconfigure (holding (store_of installed))
      ≡ (applied_at "op-2" 4, holding after_change))
    × (execute_host_operation codec idle 99
          (codec_of "op-2" (applied_at "op-2" 4))
          bounds
          10
          20
          formats
          reconfigure
          (record { disk = crashed; target = holding after_change })
        ≡ (
          ok (applied_at "op-2" 4),
          record {
            disk =
                whole
                  (codec_of "op-2" (applied_at "op-2" 4))
                  (pending_of "op-2" (applied_at "op-2" 4)
                    ∷ terminal_of "op-2" (applied_at "op-2" 4)
                    ∷ [])
                  [];
            target = holding after_change;
          },
        ))
unfolding Wire.kind canonical_operation_value completed_result
config-resumes_example =
    config-resumes codec idle reconfigure "prod-eu.1" 3 refl refl formats reconfigure-valid 99
      (codec_of "op-2" (applied_at "op-2" 4)) bounds 10 20 scope_ok [] fresh tt reconfigure_room
      crashed [] refl 10 "file:b" "v1" (holding (store_of installed)) refl loads_deployed
      config_change-commits (refl, (reconfigured-valid, ground arith)) apply_change
      (terminal_of-IsStored "op-2" (applied_at "op-2" 4) reconfigured-line) (omega arith)

-- A store of an updated deployment, and of the same one rolled back.
abbrev generations : State.Store.Codec
generations = record codec {
  readers = record readers {
    decode = λ bytes. elim bytes [
      | [] ↦ none
      | byte ∷ _ ↦ if byte == 5 then some rolled else some updated
    ];
  };
  encode = λ _. 5 ∷ [];
}

abbrev after_update : Store
after_update =
    store_of
      (("prod-eu.1" ∷ "deployments" ∷ [], record { state = some (6 ∷ []); completion = none }) ∷ [])

abbrev after_rollback : Store
after_rollback =
    store_of
      (("prod-eu.1" ∷ "deployments" ∷ [], record { state = some (5 ∷ []); completion = none }) ∷ [])

updated-valid : validate generations.readers.parse_url updated ≡ true
unfolding validate validate_config validate_identifier is_identifier_character validate_artifact
    validate_runtime validate_resources validate_release validate_active validate_issuer
    deployment_scope
updated-valid = refl

rolled-valid : validate generations.readers.parse_url rolled ≡ true
unfolding validate validate_config validate_identifier is_identifier_character validate_artifact
    validate_runtime validate_resources validate_release validate_active validate_issuer
    deployment_scope
rolled-valid = refl

loads_updated : load_existing generations "prod-eu.1" after_update ≡ ok updated
unfolding load_existing read_state read_secure_regular_file files_at scope_path deployment_scope
    is_identifier_character read_deployment_state
loads_updated = ground (arith, updated-valid)

commits_rollback :
    mutate generations.readers.parse_url 3 10 (apply_rollback none "op-3") updated ≡ commit rolled
unfolding mutate
commits_rollback = rollback-commits

applies_rollback :
    apply generations "prod-eu.1" 3 10 (apply_rollback none "op-3") after_update
    ≡ (ok rolled, after_rollback)
unfolding apply persist_exact persist atomic_write files_at put_at scope_path
applies_rollback = simp (loads_updated, commits_rollback)

roll_back_room : HasRoom (codec_of "op-3" (applied_at "op-3" 3)) 10 roll_back [] bounds fresh
unfolding Wire.kind canonical_operation_value total_bytes unsettled
roll_back_room = record {
  steady = record { holds = refl; stored = tt; within = omega arith; readable = omega arith };
  admitted = omega arith;
  pending_stored = pending_of-IsStored "op-3" (applied_at "op-3" 3);
  fits = omega arith;
}

rolled-line :
    validate_entry
      (codec_of "op-3" (applied_at "op-3" 3))
      (terminal_of "op-3" (applied_at "op-3" 3))
    ≡ true
unfolding validate_entry is_lower_sha256 completed_result
rolled-line = refl

rollback-resumes_example :
    execute_host_operation generations idle 99
      (codec_of "op-3" (applied_at "op-3" 3))
      bounds
      10
      20
      formats
      roll_back
      (record {
        disk =
            whole
              (codec_of "op-3" (applied_at "op-3" 3))
              (pending_of "op-3" (applied_at "op-3" 3) ∷ [])
              (persisted ∷ []);
        target = holding after_rollback;
      })
    ≡ (
      ok (applied_at "op-3" 3),
      record {
        disk =
            whole
              (codec_of "op-3" (applied_at "op-3" 3))
              (pending_of "op-3" (applied_at "op-3" 3)
                ∷ terminal_of "op-3" (applied_at "op-3" 3)
                ∷ [])
              [];
        target = holding after_rollback;
      },
    )
unfolding Wire.kind canonical_operation_value completed_result
rollback-resumes_example =
    rollback-resumes generations idle roll_back "prod-eu.1" 3 refl refl formats roll_back-valid 99
      (codec_of "op-3" (applied_at "op-3" 3)) bounds 10 20 scope_ok [] fresh tt roll_back_room
      (whole (codec_of "op-3" (applied_at "op-3" 3)) (pending_of "op-3" (applied_at "op-3" 3) ∷ [])
        (persisted ∷ []))
      [] refl 10 none (holding after_update) refl loads_updated commits_rollback
      (refl, (rolled-valid, ground arith)) applies_rollback
      (terminal_of-IsStored "op-3" (applied_at "op-3" 3) rolled-line) (omega arith)

uninstall-finishes_example :
    let store =
      (remove_deployment codec "prod-eu.1" 3 "op-7"
        (record { scopes = installed; fates = persisted ∷ refused ∷ [] })).1 in
    let (answer, target) = executor codec idle 99 remove (holding store) in
    (answer ≡ applied_at "op-7" 3) × ((scope_files "prod-eu.1" target.store.scopes).state ≡ none)
uninstall-finishes_example =
    uninstall-finishes codec idle 99 remove "prod-eu.1" 3 refl refl refl installed (3 ∷ []) none
      refused tt scope_ok installed_scope (ground arith) reads_deployed refl
      (refl, (refl, (is_hash, ground arith)))
