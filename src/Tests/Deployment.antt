-- ===== src/Tests/Deployment.antt =====
-- A deployment, its states after mutations, and a store of it.
use nazo_auth_ctl.Prelude.{
  ℕ, ◌≡◌, refl, String, true, false, Option, none, some, [], ◌===◌, if◌then◌else◌,
}
use nazo_auth_ctl.Identifiers.{
  ParsedUrl, validate_identifier, validate_issuer, deployment_scope, is_identifier_character,
  is_lower_sha256,
}
use nazo_auth_ctl.State.{
  DeploymentState, RuntimeBackendKind, HealthRecord, ConfigState, ActiveHostOperationRef,
}
use nazo_auth_ctl.State.Validation.{
  validate, advance, seed, validate_config, validate_artifact, validate_runtime, validate_resources,
  validate_release, validate_active, validate_migration, is_bound_digest,
}
use nazo_auth_ctl.State.Steps.{
  commit, UpdateCommit, config_step, migration_step, update_step, swap_generation, rollback_step,
}
use nazo_auth_ctl.State.Mutations.{Mutation, mutate, apply_config}

abbrev pub parse_url : String → Option ParsedUrl
parse_url url =
    if url === "https://id.example"
    then some
        (record { cannot_be_a_base = false; scheme = "https"; username = ""; password = none })
    else none

abbrev pub config_at : ℕ → ConfigState
config_at revision = record { reference = "file:a"; schema = "v1"; revision = revision }

abbrev pub produced_by : String → Option ActiveHostOperationRef
produced_by operation_id = some (record { operation_id = operation_id; applied_at = 10 })

-- A healthy deployment at revision 3.
abbrev pub deployed : DeploymentState
deployed = record {
  schema = 8;
  deployment_id = "prod-eu.1";
  issuer = "https://id.example";
  runtime = record { kind = RuntimeBackendKind.podman; object = "nazo"; loopback_port = 8080 };
  artifact = record { current = some "sha256:old"; previous = none };
  config = config_at 3;
  resources = [];
  local_health = record { healthy = true; summary = "ok"; checked_at = 1 };
  applied_migration = none;
  active_host_operation = produced_by "op-1";
  current_release = some (record { version = "1.0.0" });
  previous_release = none;
  previous_config_snapshot = none;
}

abbrev pub config_change : Mutation
config_change = apply_config "file:b" "v1" "op-2"

abbrev pub reconfigured : DeploymentState
reconfigured = record deployed {
  config = record { reference = "file:b"; schema = "v1"; revision = 4 };
  active_host_operation = produced_by "op-2";
}

pub config_change-commits : mutate parse_url 3 10 config_change deployed ≡ commit reconfigured
unfolding mutate config_step advance seed validate_config validate_identifier
    is_identifier_character
config_change-commits = refl

pub deployed-valid : validate parse_url deployed ≡ true
unfolding validate validate_config validate_identifier is_identifier_character validate_artifact
    validate_runtime validate_resources validate_release validate_active validate_issuer
    deployment_scope
deployed-valid = refl

abbrev pub bound : String
bound = "sha256:00112233445566778899aabbccddeeff00112233445566778899aabbccddeeff"

abbrev fenced : DeploymentState
fenced = record deployed {
  applied_migration =
      some (record { operation_id = "op-2"; target_artifact = bound; applied_at = 10 });
}

pub migration-commits : migration_step parse_url 3 "op-2" bound 10 deployed ≡ commit fenced
unfolding migration_step validate validate_config validate_identifier is_identifier_character
    validate_artifact validate_runtime validate_resources validate_release validate_active
    validate_issuer deployment_scope validate_migration is_bound_digest is_lower_sha256
migration-commits = refl

abbrev pub update_to : String → UpdateCommit
update_to artifact = record {
  config_snapshot = none;
  artifact = artifact;
  release = some (record { version = "1.1.0" });
  config = none;
  operation_id = "op-2";
}

abbrev pub updated_health : ℕ → HealthRecord
updated_health now = record {
  healthy = true;
  summary = "local readiness probe passed after update";
  checked_at = now;
}

abbrev pub updated : DeploymentState
updated = record deployed {
  artifact = record { current = some "sha256:new"; previous = some "sha256:old" };
  current_release = some (record { version = "1.1.0" });
  previous_release = some (record { version = "1.0.0" });
  active_host_operation = produced_by "op-2";
  local_health = updated_health 10;
}

pub update-commits : update_step 3 (update_to "sha256:new") true 10 deployed ≡ commit updated
unfolding update_step swap_generation validate_identifier is_identifier_character validate_release
update-commits = refl

abbrev drifted : DeploymentState
drifted = record updated {
  artifact = record { current = some "sha256:new"; previous = none };
  previous_release = none;
}

drifted-commits : update_step 3 (update_to "sha256:new") false 10 deployed ≡ commit drifted
unfolding update_step swap_generation validate_identifier is_identifier_character validate_release
drifted-commits = refl

abbrev pub migrated : DeploymentState
migrated = record drifted { artifact = record { current = some bound; previous = none } }

pub migrated-commits : update_step 3 (update_to bound) true 10 fenced ≡ commit migrated
unfolding update_step swap_generation validate_identifier is_identifier_character validate_release
migrated-commits = refl

abbrev pub rolled : DeploymentState
rolled = record updated {
  artifact = record { current = some "sha256:old"; previous = some "sha256:new" };
  current_release = some (record { version = "1.0.0" });
  previous_release = some (record { version = "1.1.0" });
  active_host_operation = produced_by "op-3";
  local_health = record {
    healthy = true;
    summary = "local readiness probe passed after rollback";
    checked_at = 10;
  };
}

pub rollback-commits : rollback_step 3 none "op-3" 10 updated ≡ commit rolled
unfolding rollback_step
rollback-commits = refl
