-- ===== src/State.antt =====
-- The deployment state of a target (src/target/deployment_state.rs): the document, its parts and
-- the stable failure codes. A failure's detail text is left out. Times are seconds; revisions are
-- not bounded by 64 bits. Checks, single mutations, the store and the proofs are the modules below.
pub mod Validation
pub mod Steps
pub mod Mutations
pub mod Legacy
pub mod Places
pub mod Store
pub mod Bootstrap
pub mod Uninstall
use nazo_auth_ctl.Prelude.{ℕ, String, Bool, true, false, Option, List, ◌===◌, none, some}

pub data Failure : Type 0 where
  deployment_unknown deployment_exists rollback_unavailable rollback_recovery_required : Failure
  config_revision_mismatch state_reset_required operation_invalid : Failure

pub data ResourceOwnership : Type 0 where
  managed external : ResourceOwnership

pub data ResourceScope : Type 0 where
  deployment shared : ResourceScope

pub record Resource : Type 0 where
  pub resource_id : String
  pub kind : String
  pub locator : String
  pub ownership : ResourceOwnership
  pub scope : ResourceScope

-- crates/nazoauthctl-runtime/src/runtime_backend/mod.rs
pub data RuntimeBackendKind : Type 0 where
  podman docker host : RuntimeBackendKind

pub data ArtifactReference : Type 0 where
  oci : String → String → ArtifactReference
  host_binary : String → String → ArtifactReference
  unknown : ArtifactReference

pub record RuntimeSurface : Type 0 where
  pub kind : RuntimeBackendKind
  pub object : String
  pub loopback_port : ℕ

pub record ArtifactRefs : Type 0 where
  pub current : Option String
  pub previous : Option String

pub record ConfigState : Type 0 where
  pub reference : String
  pub schema : String
  pub revision : ℕ

pub record HealthRecord : Type 0 where
  pub healthy : Bool
  pub summary : String
  pub checked_at : ℕ

pub record ReleaseVersion : Type 0 where
  pub version : String

pub record ActiveHostOperationRef : Type 0 where
  pub operation_id : String
  pub applied_at : ℕ

pub record AppliedMigration : Type 0 where
  pub operation_id : String
  pub target_artifact : String
  pub applied_at : ℕ

pub record DeploymentState : Type 0 where
  pub schema : ℕ
  pub deployment_id : String
  pub issuer : String
  pub runtime : RuntimeSurface
  pub artifact : ArtifactRefs
  pub config : ConfigState
  pub resources : List Resource
  pub local_health : HealthRecord
  pub applied_migration : Option AppliedMigration
  pub active_host_operation : Option ActiveHostOperationRef
  pub current_release : Option ReleaseVersion
  pub previous_release : Option ReleaseVersion
  pub previous_config_snapshot : Option String

abbrev pub deployment_state_schema : ℕ
deployment_state_schema = 8

-- The operation that produced the state.
abbrev pub is_producer : String → Option ActiveHostOperationRef → Bool
is_producer operation_id none = false
is_producer operation_id (some active) = active.operation_id === operation_id
