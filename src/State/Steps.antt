-- ===== src/State/Steps.antt =====
-- The mutations of one loaded state (src/target/deployment_state.rs: apply_config,
-- record_migration_applied, apply_update_healthy_from_live, apply_recovery, apply_rollback_healthy,
-- each between its load and its write). A step replays, refuses, or gives the state to persist.
use Prim.Native.String.{◌++◌}
use nazo_auth_ctl.Prelude.{
  ℕ, String, Bool, true, false, not, ◌&&◌, ◌||◌, Option, none, some, is_none, ◌==◌, ◌===◌,
  if◌then◌else◌,
}
use nazo_auth_ctl.Identifiers.{ParsedUrl, validate_identifier, is_lower_sha256}
use nazo_auth_ctl.State.{
  DeploymentState, ConfigState, ReleaseVersion, AppliedMigration, ArtifactReference, HealthRecord,
  Failure, config_revision_mismatch, rollback_recovery_required, rollback_unavailable,
  operation_invalid, is_producer,
}
use nazo_auth_ctl.State.Validation.{advance, validate, validate_release, if_present, strip_prefix}

pub data Step : Type 0 where
  -- the operation is the one that produced the state, or its fact is already there
  replay : Step
  refuse : Failure → Step
  commit : DeploymentState → Step

-- The compare-and-set on the revision.
abbrev pub at_revision : ℕ → DeploymentState → Step → Step
at_revision expected state next =
    if state.config.revision == expected then next else refuse config_revision_mismatch

abbrev pub unless_producer : String → DeploymentState → Step → Step
unless_producer operation_id state next =
    if is_producer operation_id state.active_host_operation then replay else next

abbrev pub commit_as : String → ℕ → DeploymentState → Step
commit_as operation_id now state = commit (record state {
  active_host_operation = some (record { operation_id = operation_id; applied_at = now });
})

abbrev pub with_config : Option ConfigState → (ConfigState → Step) → Step
with_config none next = refuse config_revision_mismatch
with_config (some config) next = next config

-- The optional config of an update or a rollback.
abbrev pub advanced : ConfigState → Option (String × String) → Option ConfigState
advanced config none = some config
advanced config (some (reference, schema)) = advance config reference schema

unfoldable pub config_step : ℕ → String → String → String → ℕ → DeploymentState → Step
config_step expected reference schema operation_id now state = unless_producer operation_id state (
    at_revision expected state (
      with_config (advance state.config reference schema)
        λ config. commit_as operation_id now (record state { config = config })))

abbrev pub is_same_migration : String → String → AppliedMigration → Bool
is_same_migration operation_id target_artifact migration =
    migration.operation_id === operation_id && migration.target_artifact === target_artifact

pub record UpdateCommit : Type 0 where
  pub config_snapshot : Option String
  pub artifact : String
  pub release : Option ReleaseVersion
  pub config : Option (String × String)
  pub operation_id : String

-- No generation to roll back to.
abbrev pub without_previous : DeploymentState → DeploymentState
without_previous state = record state {
  artifact = record state.artifact { previous = none };
  previous_release = none;
  previous_config_snapshot = none;
}

abbrev pub with_previous : Option String → DeploymentState → DeploymentState
with_previous config_snapshot state = record state {
  artifact = record state.artifact { previous = state.artifact.current };
  previous_release = state.current_release;
  previous_config_snapshot = config_snapshot;
}

abbrev pub is_current : String → Option String → Bool
is_current artifact none = false
is_current artifact (some current) = current === artifact

-- The generation swap of an update: what becomes the previous generation, and the new current one.
unfoldable pub swap_generation : UpdateCommit → Bool → DeploymentState → DeploymentState
swap_generation update was_live state =
    let previous =
      if was_live && is_none state.applied_migration
      then with_previous update.config_snapshot state
      else without_previous state in
    let swapped =
      if not (is_current update.artifact state.artifact.current) || not (is_none update.config)
      then record previous {
        artifact = record previous.artifact { current = some update.artifact };
      }
      else state in
    record swapped { current_release = update.release; applied_migration = none }

abbrev pub healthy_at : ℕ → String → HealthRecord
healthy_at now summary = record { healthy = true; summary = summary; checked_at = now }

-- The last part of an update: the optional config, the producer and the health.
abbrev pub finish_update : UpdateCommit → ℕ → DeploymentState → Step
finish_update update now state = with_config (advanced state.config update.config) λ config.
    commit_as update.operation_id now (record state {
      config = config;
      local_health = healthy_at now "local readiness probe passed after update";
    })

-- A recorded migration admits only the update that it belongs to, and ends the rollback lineage.
abbrev pub past_fence : UpdateCommit → Bool → ℕ → DeploymentState → Option AppliedMigration → Step
past_fence update was_live now state none =
    finish_update update now (swap_generation update was_live state)
past_fence update was_live now state (some migration) =
    if is_same_migration update.operation_id update.artifact migration
    then finish_update update now (swap_generation update was_live (without_previous state))
    else refuse rollback_recovery_required

unfoldable pub update_step : ℕ → UpdateCommit → Bool → ℕ → DeploymentState → Step
update_step expected update was_live now state = unless_producer update.operation_id state (
    at_revision expected state (
      if validate_identifier update.artifact 256 && if_present validate_release update.release
      then past_fence update was_live now state state.applied_migration
      else refuse operation_invalid))

-- `current` and `previous` change places, with their releases.
abbrev pub rolled_back : Bool → String → ℕ → DeploymentState → ConfigState → DeploymentState
rolled_back has_config operation_id now state config = record state {
  artifact = record { current = state.artifact.previous; previous = state.artifact.current };
  current_release = state.previous_release;
  previous_release = state.current_release;
  previous_config_snapshot = if has_config then some operation_id else none;
  config = config;
  local_health = healthy_at now "local readiness probe passed after rollback";
}

unfoldable pub rollback_step : ℕ → Option (String × String) → String → ℕ → DeploymentState → Step
rollback_step expected config operation_id now state = unless_producer operation_id state (
    at_revision expected state (
      if not (is_none state.applied_migration)
      then refuse rollback_recovery_required
      else if is_none state.artifact.previous
      then refuse rollback_unavailable
      else with_config (advanced state.config config) λ advanced_config.
        commit_as operation_id now
          (rolled_back (not (is_none config)) operation_id now state advanced_config)))

-- src/target/backup_exec.rs: RecoveryFacts
pub record RecoveryFacts : Type 0 where
  pub operation_id : String
  pub snapshot_id : String
  pub manifest_sha256 : String
  pub restored_database : String
  pub artifact : ArtifactReference
  pub release : ReleaseVersion
  pub config_schema : String

abbrev lower_sha256 : String → Option String
lower_sha256 digest = if is_lower_sha256 digest then some ("sha256:" ++ digest) else none

unfoldable pub canonical_recovery_artifact : ArtifactReference → Option String
canonical_recovery_artifact ArtifactReference.unknown = none
canonical_recovery_artifact (ArtifactReference.host_binary path sha256) = lower_sha256 sha256
canonical_recovery_artifact (ArtifactReference.oci image_reference digest) =
    elim (strip_prefix "sha256:" digest) [ none ↦ none | some bare ↦ lower_sha256 bare ]

module _ (parse_url : String → Option ParsedUrl) where
  abbrev if_valid : DeploymentState → Step
  if_valid state = if validate parse_url state then commit state else refuse operation_invalid

  -- The fence does not advance the revision, nor name a new producer.
  abbrev fence : String → String → ℕ → DeploymentState → Option AppliedMigration → Step
  fence operation_id target_artifact now state (some existing) =
      if is_same_migration operation_id target_artifact existing
      then replay
      else refuse rollback_recovery_required
  fence operation_id target_artifact now state none = if_valid (record state {
    applied_migration = some (record {
      operation_id = operation_id;
      target_artifact = target_artifact;
      applied_at = now;
    });
  })

  unfoldable pub migration_step : ℕ → String → String → ℕ → DeploymentState → Step
  migration_step expected operation_id target_artifact now state =
      at_revision expected state
        (fence operation_id target_artifact now state state.applied_migration)

  -- The restored generation: no previous one, and the locator of the live configuration.
  abbrev recover : RecoveryFacts → String → ℕ → DeploymentState → Option String → Step
  recover facts operation_id now state none = refuse operation_invalid
  recover facts operation_id now state (some artifact) =
      with_config (advance state.config state.config.reference facts.config_schema) λ config.
        if_valid (record (without_previous state) {
          artifact = record { current = some artifact; previous = none };
          current_release = some facts.release;
          applied_migration = none;
          config = config;
          active_host_operation = some (record { operation_id = operation_id; applied_at = now });
        })

  unfoldable pub recovery_step : ℕ → RecoveryFacts → String → ℕ → DeploymentState → Step
  recovery_step expected facts operation_id now state = unless_producer operation_id state (
      at_revision expected state (
        if facts.operation_id === operation_id && validate_release facts.release
        then recover facts operation_id now state (canonical_recovery_artifact facts.artifact)
        else refuse operation_invalid))
