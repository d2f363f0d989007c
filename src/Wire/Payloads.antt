-- ===== src/Wire/Payloads.antt =====
-- The parts of an operation's payload: src/target/install_exec.rs (OfficialArtifactRef,
-- PlannedSecret, StagedConfig, ExternalEndpoint, InstallOrder), src/target/backup.rs
-- (OffHostCopyReceipt) and crates/nazoauthctl-runtime/src/runtime_backend/mod.rs
-- (RecoveryCandidateEndpoint). Secret material is its bytes.
use nazo_auth_ctl.Prelude.{ℕ, String, Bool, Option, List}

pub record OfficialArtifactRef : Type 0 where
  pub repository : String
  pub version : Option String

pub record PlannedSecret : Type 0 where
  pub purpose : String
  pub path : String
  pub value : Option (List ℕ)

pub record StagedConfig : Type 0 where
  pub content : String
  pub sha256 : String
  pub schema : String

pub record ExternalEndpoint : Type 0 where
  pub host : String
  pub port : ℕ
  pub name : String
  pub user : String

pub record InstallOrder : Type 0 where
  pub artifact : OfficialArtifactRef
  pub config_content : String
  pub config_sha256 : String
  pub data_root : String
  pub runtime_root : Option String
  pub tls_material_root : Option String
  pub secrets : List PlannedSecret
  pub database_runtime_endpoint : ExternalEndpoint
  pub database_lifecycle_endpoint : ExternalEndpoint
  pub valkey_endpoint : ExternalEndpoint

pub record OffHostCopyReceipt : Type 0 where
  pub schema : ℕ
  pub deployment_id : String
  pub snapshot_id : String
  pub manifest_sha256 : String
  pub source_host_id : String
  pub destination_host_id : String
  pub verified_at : ℕ

pub record RecoveryCandidateEndpoint : Type 0 where
  pub object_reference : String
  pub object_id : String
  pub deployment_id : String
  pub operation_id : String
  pub loopback_port : ℕ
  pub https : Bool

-- A signed time: `negsuc n` is `-(n + 1)`.
pub data ℤ : Type 0 where
  pos : ℕ → ℤ
  negsuc : ℕ → ℤ
