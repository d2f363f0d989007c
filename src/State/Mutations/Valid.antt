-- ===== src/State/Mutations/Valid.antt =====
-- The structural checks after a mutation (src/target/deployment_state.rs: DeploymentState::validate).
use nazo_auth_ctl.Prelude.{String, Bool, true, false, Option, [], ◌==◌, leb, ◌&&◌, ◌≡◌}
use nazo_auth_ctl.Identifiers.{ParsedUrl, deployment_scope, validate_issuer}
use nazo_auth_ctl.State.{DeploymentState, ConfigState, deployment_state_schema}
use nazo_auth_ctl.State.Validation.{
  validate_active, validate_artifact, validate_runtime, validate_resources, validate_migration,
  validate_config, validate_release, if_present,
}
use Prim.Native.String.{len}
use nazo_auth_ctl.State.Steps.{swap_generation, swap_generation}
use nazo_auth_ctl.State.Mutations.{Mutation, operation_of}

-- An operation id that the checks accept as the producer of a state.
abbrev pub IsNamed : Mutation → Type 0
IsNamed m = validate_active (record { operation_id = operation_of m; applied_at = 0 }) ≡ true

-- The checks of what the mutations do not change, and of what they may change.
abbrev is_fixed_valid : (String → Option ParsedUrl) → DeploymentState → Bool
is_fixed_valid parse_url s =
    s.schema == deployment_state_schema
    && deployment_scope s.deployment_id
    && validate_issuer parse_url s.issuer
    && validate_runtime s.runtime
    && validate_resources [] s.resources

abbrev Moving : DeploymentState → Type 0
Moving s =
    (validate_artifact s.artifact ≡ true)
    × ((if_present validate_migration s.applied_migration ≡ true)
        × ((validate_config s.config.reference s.config.schema ≡ true)
            × (((s.config.revision == 0) ≡ false)
                × ((leb (len s.local_health.summary) 512 ≡ true)
                    × ((if_present validate_active s.active_host_operation ≡ true)
                        × ((if_present validate_release s.current_release ≡ true)
                            × (if_present validate_release s.previous_release ≡ true)))))))

module _ (parse_url : String → Option ParsedUrl) where
  IsChecked : ConfigState → Type 0
  IsChecked c = (validate_config c.reference c.schema ≡ true) × ((c.revision == 0) ≡ false)
