-- ===== src/Tests/Stored.antt =====
-- A store of the deployment of Deployment.antt, with a codec of the bytes 3 and 4.
use nazo_auth_ctl.Prelude.{
  ℕ, String, true, false, Option, none, some, List, [], ◌∷◌, ◌===◌, ◌==◌, if◌then◌else◌,
}
use nazo_auth_ctl.State.{DeploymentState, HealthRecord}
use nazo_auth_ctl.State.Legacy.{
  Readers, Value, null, object, Members, empty, member, LegacyRollbackPolicy, backup,
}
use nazo_auth_ctl.State.Places.{Place}
use nazo_auth_ctl.State.Store.{Codec, Store, Scope, UninstallCompletion}
use nazo_auth_ctl.Tests.Deployment.{parse_url, deployed, reconfigured, config_at}
use nazo_auth_ctl.State.Bootstrap.{BootstrapParams, bootstrapped}

abbrev pub ready : HealthRecord
ready = record {
  healthy = true;
  summary = "local readiness probe passed after clean install";
  checked_at = 10;
}

abbrev pub params : BootstrapParams
params = record {
  issuer = "https://id.example";
  runtime = deployed.runtime;
  artifact = deployed.artifact;
  config_reference = "file:a";
  config_schema = "v1";
  resources = [];
  current_release = none;
}

abbrev pub fresh : DeploymentState
fresh = bootstrapped "prod-eu.1" params "op-5" 10 ready (config_at 1)

abbrev decoded : List ℕ → Option DeploymentState
decoded [] = none
decoded (byte ∷ _) =
    if byte == 3
    then some deployed
    else if byte == 4
    then some reconfigured
    else if byte == 1
    then some fresh
    else none

abbrev pub forbidding : LegacyRollbackPolicy
forbidding = record {
  artifact = true;
  schema_compatible = false;
  database_restore = backup;
  irreversible_migration = true;
  minimum_supported_version = "0.2.0";
  migration_floor = "12";
  rationale = "irreversible";
}

abbrev pub artifact_members : Members
artifact_members =
    member "current" (Value.text "sha256:old") (member "previous" (Value.text "sha256:older") empty)

abbrev pub legacy_members : Members
legacy_members =
    member "current_rollback_policy" null (member "artifact" (object artifact_members) empty)

abbrev pub readers : Readers
readers = record {
  parse_url = parse_url;
  is_version = λ version. version === "0.2.0";
  decode = decoded;
  decode_schema = λ bytes. some 7;
  decode_value = λ bytes. some (object legacy_members);
  state_of_value = λ value. some deployed;
  policy_of_value = λ value. some forbidding;
}

abbrev pub old_hash : String
old_hash = "00112233445566778899aabbccddeeff00112233445566778899aabbccddeeff"

abbrev pub new_hash : String
new_hash = "ffeeddccbbaa99887766554433221100ffeeddccbbaa99887766554433221100"

abbrev digest : List ℕ → String
digest [] = new_hash
digest (byte ∷ _) = if byte == 3 then old_hash else new_hash

abbrev pub uninstalled : UninstallCompletion
uninstalled = record {
  schema = 1;
  deployment_id = "prod-eu.1";
  operation_id = "op-7";
  revision = 3;
  state_sha256 = old_hash;
}

abbrev pub codec : Codec
codec = record {
  readers = readers;
  encode = λ state. state.config.revision ∷ [];
  encode_completion = λ completion. 7 ∷ [];
  decode_completion = λ bytes. some uninstalled;
  sha256 = digest;
}

abbrev pub installed : List (Place × Scope)
installed =
    ("prod-eu.1" ∷ "deployments" ∷ [], record { state = some (3 ∷ []); completion = none }) ∷ []

abbrev pub store_of : List (Place × Scope) → Store
store_of scopes = record { scopes = scopes; fates = [] }
