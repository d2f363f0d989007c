-- ===== src/Target/Lifecycle.antt =====
-- The state mutations, reads and provisioning of a target (src/target/mod.rs: the `answer_*`
-- functions, commit_clean_install and the arms of dispatch_validated_host_operation).
use nazo_auth_ctl.Prelude.{
  ℕ, ◌-◌, zero, suc, String, Option, none, some, List, [], ◌∷◌, map, length, is_none, ltb, ◌==◌,
  if◌then◌else◌,
}
use nazo_auth_ctl.Prelude.Exec.{Outcome, ok, err, pure, fail, ◌>>=◌, ◌>>◌}
use nazo_auth_ctl.State.{
  DeploymentState, RuntimeSurface, Resource, AppliedMigration, ReleaseVersion, is_producer,
}
use nazo_auth_ctl.State.Mutations.{apply_config}
use nazo_auth_ctl.State.Store.{Codec, apply, list_deployments}
use nazo_auth_ctl.State.Bootstrap.{BootstrapParams, bootstrap_healthy}
use nazo_auth_ctl.Wire.{WireText, HostCompletionBody, InstanceInspection, UpdateBackupPrecondition}
use nazo_auth_ctl.Wire.Payloads.{OfficialArtifactRef, StagedConfig, InstallOrder}
use nazo_auth_ctl.Target.{
  OnTarget, Host, UpdateExecution, in_store, read_only, loading, scope_dir, ensure, require,
  directory_of, inspection_from_state,
}

-- The newest `limit` entries: `split_off` at what exceeds it.
abbrev drop {ℓ} : {A : Type ℓ} → ℕ → List A → List A
drop zero xs = xs
drop (suc n) [] = []
drop (suc n) (x ∷ xs) = drop n xs

abbrev newest {ℓ} : {A : Type ℓ} → ℕ → List A → List A
newest limit entries =
    if ltb limit (length entries) then drop (length entries - limit) entries else entries

abbrev version_of : Option ReleaseVersion → Option String
version_of none = none
version_of (some release) = some release.version

abbrev migration_operation : Option AppliedMigration → Option String
migration_operation none = none
migration_operation (some migration) = some migration.operation_id

abbrev updated : UpdateExecution → HostCompletionBody
updated (UpdateExecution.noop revision) = HostCompletionBody.state_mutate_noop revision
updated (UpdateExecution.activated facts) =
    HostCompletionBody.state_mutate_applied facts.revision facts.migration_result
updated (UpdateExecution.migration_failed result) =
    HostCompletionBody.state_mutate_migration_failed result
updated (UpdateExecution.recovery_required result detail) =
    HostCompletionBody.state_mutate_recovery_required result detail

module _ {T : Type 0} (codec : Codec) (host : Host T) where
  unfoldable pub answer_hello : OnTarget T HostCompletionBody
  answer_hello = do id ← host.target_identity; pure (HostCompletionBody.hello (host.hello_for id))

  abbrev inspect_each : List DeploymentState → OnTarget T (List InstanceInspection)
  inspect_each [] = pure []
  inspect_each (state ∷ states) = do
    inspection ← inspection_from_state host state
    inspections ← inspect_each states
    pure (inspection ∷ inspections)

  unfoldable pub answer_state_list : OnTarget T HostCompletionBody
  answer_state_list = do
    states ← in_store (λ store. (list_deployments codec store, store))
    deployments ← inspect_each states
    pure (HostCompletionBody.state_listed deployments)

  module _ (id : String) where
    -- The identity is read before the inspection, and its failure is a diagnostic.
    abbrev identified : Outcome String (Option WireText) → InstanceInspection → InstanceInspection
    identified (ok value) inspection = record inspection { current_instance_identity = value }
    identified (err detail) inspection = record inspection {
      diagnostics = push detail inspection.diagnostics;
    }
      where
        push : String → List String → List String
        push s [] = s ∷ []
        push s (x ∷ xs) = x ∷ push s xs

    unfoldable pub answer_inspect : OnTarget T HostCompletionBody
    answer_inspect = do
      state ← loading codec id
      scope_dir id
      identity ← read_only (λ target. ok (host.current_instance_identity state target))
      inspection ← inspection_from_state host state
      marker ← read_only (λ target. ok (host.config_revision_marker id target))
      pure (
          HostCompletionBody.state_inspect
            (record (identified identity inspection) { config_revision_marker = marker }))

    abbrev unreadable : {A : Type 0} → Outcome String A → Outcome String A
    unreadable (ok a) = ok a
    unreadable (err _) = err "OPERATION_INVALID"

    unfoldable pub answer_runtime_logs : ℕ → OnTarget T HostCompletionBody
    answer_runtime_logs limit = do
      state ← loading codec id
      lines ← read_only (λ target. unreadable (host.read_logs state.runtime limit target))
      pure (HostCompletionBody.runtime_logs (map host.redact_log_line lines))

    unfoldable pub answer_journal_read : ℕ → OnTarget T HostCompletionBody
    answer_journal_read limit = do
      loading codec id
      entries ← read_only (λ target. unreadable (host.operation_log id target))
      pure (HostCompletionBody.journal_read (newest limit entries))

    module _ (operation_id : String) where
      unfoldable pub answer_admin_create : String → WireText → OnTarget T HostCompletionBody
      answer_admin_create email password = do
        state ← loading codec id
        current_artifact ← require state.artifact.current "CONTROL_TARGET_DRIFT"
        data_root ← require (directory_of "app-data" state.resources) "OPERATION_INVALID"
        scope_dir id
        receipt ← host.execute_admin (record {
          operation_id = operation_id;
          deployment_id = id;
          artifact_reference = current_artifact;
          runtime_kind = state.runtime.kind;
          runtime_object = state.runtime.object;
          config_reference = state.config.reference;
          data_root = data_root;
          email = email;
          password = password;
        })
        pure (HostCompletionBody.admin_created receipt)

      unfoldable pub commit_clean_install : ℕ → BootstrapParams → OnTarget T InstanceInspection
      commit_clean_install now params = do
        state ← in_store (bootstrap_healthy codec id params operation_id now)
        inspection_from_state host state

      -- A fresh install; what is recorded of the artifact comes from the executor's facts.
      unfoldable pub answer_bootstrap :
          ℕ
          → String
          → RuntimeSurface
          → String
          → String
          → List Resource
          → Option InstallOrder
          → OnTarget T HostCompletionBody
      answer_bootstrap now issuer runtime reference schema resources none =
          fail "ARTIFACT_UNVERIFIED"
      answer_bootstrap now issuer runtime reference schema resources (some order) = do
        scope_dir id
        host.ensure_scope_dir id
        inspection ←
            host.execute_install
              (record {
                deployment_id = id;
                issuer = issuer;
                runtime = runtime;
                config_reference = reference;
                order = order;
              })
              (λ facts. commit_clean_install now (record {
                issuer = issuer;
                runtime = runtime;
                artifact = record { current = some facts.artifact_reference; previous = none };
                config_reference = reference;
                config_schema = schema;
                resources = resources;
                current_release = facts.release;
              }))
        pure (HostCompletionBody.install_applied inspection)

      module _ (expected : ℕ) where
        unfoldable pub answer_apply_config : ℕ → String → String → OnTarget T HostCompletionBody
        answer_apply_config now reference schema = do
          state ←
              in_store (apply codec id expected now (apply_config reference schema operation_id))
          pure (HostCompletionBody.state_mutate_applied state.config.revision none)

        unfoldable pub answer_update :
            OfficialArtifactRef
            → UpdateBackupPrecondition
            → Option StagedConfig
            → Option String
            → Option String
            → OnTarget T HostCompletionBody
        answer_update artifact precondition config migration_jws request_hash = do
          state ← loading codec id
          scope_dir id
          host.validate_backup_precondition state precondition
          host.ensure_scope_dir id
          current_artifact ← require state.artifact.current "OPERATION_INVALID"
          data_root ← require (directory_of "app-data" state.resources) "OPERATION_INVALID"
          secrets_root ← require (directory_of "app-secrets" state.resources) "OPERATION_INVALID"
          execution ← host.execute_update (record {
            operation_id = operation_id;
            deployment_id = id;
            issuer = state.issuer;
            runtime_kind = state.runtime.kind;
            runtime_object = state.runtime.object;
            config_reference = state.config.reference;
            port = state.runtime.loopback_port;
            data_root = data_root;
            secrets_root = secrets_root;
            runtime_root = directory_of "app-binary" state.resources;
            config_schema = state.config.schema;
            current_artifact = current_artifact;
            current_version = version_of state.current_release;
            expected_revision = expected;
            applied_migration_operation_id = migration_operation state.applied_migration;
            artifact = artifact;
            config = config;
            migration_jws = migration_jws;
            migration_request_hash = request_hash;
          })
          pure (updated execution)

        -- What follows when the operation did not produce the state.
        abbrev pub roll_back : DeploymentState → OnTarget T HostCompletionBody
        roll_back state = do
          ensure (state.config.revision == expected) "CONFIG_REVISION_MISMATCH"
          ensure (is_none state.applied_migration) "ROLLBACK_RECOVERY_REQUIRED"
          scope_dir id
          host.ensure_scope_dir id
          current_artifact ← require state.artifact.current "ROLLBACK_UNAVAILABLE"
          facts ← host.execute_rollback (record {
            operation_id = operation_id;
            deployment_id = id;
            issuer = state.issuer;
            runtime_kind = state.runtime.kind;
            runtime_object = state.runtime.object;
            config_reference = state.config.reference;
            port = state.runtime.loopback_port;
            runtime_root = directory_of "app-binary" state.resources;
            config_schema = state.config.schema;
            current_artifact = current_artifact;
            previous_artifact = state.artifact.previous;
            previous_config_snapshot = state.previous_config_snapshot;
            expected_revision = expected;
          })
          pure (HostCompletionBody.state_mutate_applied facts.revision none)

        -- The commit of the state may precede the journal's terminal line: an operation that
        -- produced the state is answered from it.
        unfoldable pub answer_rollback : OnTarget T HostCompletionBody
        answer_rollback = do
          state ← loading codec id
          (if is_producer operation_id state.active_host_operation
              then pure (HostCompletionBody.state_mutate_applied state.config.revision none)
              else roll_back state)

        unfoldable pub answer_uninstall : OnTarget T HostCompletionBody
        answer_uninstall = do
          state ← loading codec id
          ensure (state.config.revision == expected) "CONFIG_REVISION_MISMATCH"
          host.execute_deletion (record {
            operation_id = operation_id;
            deployment_id = id;
            runtime_kind = state.runtime.kind;
            runtime_object = state.runtime.object;
            config_reference = state.config.reference;
            declared = state.resources;
            expected_revision = expected;
          })
          pure (HostCompletionBody.state_mutate_applied state.config.revision none)
