-- ===== src/State/Bootstrap.antt =====
-- The first state of a deployment (src/target/deployment_state.rs: bootstrap, bootstrap_healthy,
-- bootstrap_with_health).
pub mod Admission
use nazo_auth_ctl.Prelude.{
  ℕ, String, Bool, true, false, not, ◌&&◌, ◌||◌, Option, none, some, List, any, ◌==◌, ◌===◌,
  if◌then◌else◌,
}
use nazo_auth_ctl.Prelude.Exec.{Outcome, ok, err, Exec, pure, fail}
use nazo_auth_ctl.Identifiers.{deployment_scope}
use nazo_auth_ctl.State.{
  DeploymentState, RuntimeSurface, ArtifactRefs, Resource, ReleaseVersion, HealthRecord,
  ConfigState, Failure, deployment_unknown, deployment_exists, operation_invalid,
  deployment_state_schema, is_producer,
}
use nazo_auth_ctl.State.Validation.{seed, validate}
use nazo_auth_ctl.State.Store.{Codec, Store, load_existing, list_deployments, persist_exact}

pub record BootstrapParams : Type 0 where
  pub issuer : String
  pub runtime : RuntimeSurface
  pub artifact : ArtifactRefs
  pub config_reference : String
  pub config_schema : String
  pub resources : List Resource
  pub current_release : Option ReleaseVersion

-- The state that a bootstrap commits, from its seeded configuration.
abbrev pub bootstrapped :
    String → BootstrapParams → String → ℕ → HealthRecord → ConfigState → DeploymentState
bootstrapped id params operation_id now health config = record {
  schema = deployment_state_schema;
  deployment_id = id;
  issuer = params.issuer;
  runtime = params.runtime;
  artifact = params.artifact;
  config = config;
  resources = params.resources;
  local_health = health;
  applied_migration = none;
  active_host_operation = some (record { operation_id = operation_id; applied_at = now });
  current_release = params.current_release;
  previous_release = none;
  previous_config_snapshot = none;
}

abbrev pub has_port : ℕ → DeploymentState → Bool
has_port port state = state.runtime.loopback_port == port

abbrev pub is_same_health : Bool → Bool → Bool
is_same_health true healthy = healthy
is_same_health false healthy = not healthy

module _ (codec : Codec) where
  -- What a state that is already there means for the bootstrap.
  abbrev pub existing_answer :
      String → HealthRecord → DeploymentState → Outcome Failure DeploymentState
  existing_answer operation_id health existing =
      if is_producer operation_id existing.active_host_operation
        && is_same_health existing.local_health.healthy health.healthy
      then ok existing
      else err deployment_exists

  abbrev pub commit_new : String → DeploymentState → Exec Store Failure DeploymentState
  commit_new id state =
      if validate codec.readers.parse_url state
      then persist_exact codec id state
      else fail operation_invalid

  abbrev pub seeded :
      String
      → BootstrapParams
      → String
      → ℕ
      → HealthRecord
      → Option ConfigState
      → Exec Store Failure DeploymentState
  seeded id params operation_id now health none = fail operation_invalid
  seeded id params operation_id now health (some config) =
      commit_new id (bootstrapped id params operation_id now health config)

  -- The port must be free among all the stored deployments, stopped ones included.
  abbrev pub admitted :
      String
      → BootstrapParams
      → String
      → ℕ
      → HealthRecord
      → Outcome Failure (List DeploymentState)
      → Exec Store Failure DeploymentState
  admitted id params operation_id now health (err failure) = fail failure
  admitted id params operation_id now health (ok states) =
      if any (has_port params.runtime.loopback_port) states
      then fail operation_invalid
      else seeded id params operation_id now health
          (seed 1 params.config_reference params.config_schema)

  abbrev pub answered :
      String
      → BootstrapParams
      → String
      → ℕ
      → HealthRecord
      → Outcome Failure DeploymentState
      → Exec Store Failure DeploymentState
  answered id params operation_id now health (ok existing) store =
      (existing_answer operation_id health existing, store)
  answered id params operation_id now health (err deployment_unknown) store =
      admitted id params operation_id now health (list_deployments codec store) store
  answered id params operation_id now health (err failure) store = (err failure, store)

  unfoldable pub bootstrap_with_health :
      String → BootstrapParams → String → ℕ → HealthRecord → Exec Store Failure DeploymentState
  bootstrap_with_health id params operation_id now health store =
      if deployment_scope id
      then answered id params operation_id now health (load_existing codec id store) store
      else (err deployment_unknown, store)

  unfoldable pub bootstrap :
      String → BootstrapParams → String → ℕ → Exec Store Failure DeploymentState
  bootstrap id params operation_id now = bootstrap_with_health id params operation_id now (record {
    healthy = false;
    summary = "bootstrapped; runtime health not yet observed";
    checked_at = now;
  })

  unfoldable pub bootstrap_healthy :
      String → BootstrapParams → String → ℕ → Exec Store Failure DeploymentState
  bootstrap_healthy id params operation_id now =
      bootstrap_with_health id params operation_id now (record {
        healthy = true;
        summary = "local readiness probe passed after clean install";
        checked_at = now;
      })
