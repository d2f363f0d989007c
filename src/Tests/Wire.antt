-- ===== src/Tests/Wire.antt =====
-- The theorems on the host operation contract (src/target/wire.rs) at concrete inputs.
use nazo_auth_ctl.Prelude.{
  arith, ℕ, ◌≤◌, ◌≡◌, refl, String, true, Option, none, some, List, [], ◌∷◌, map, ◌===◌,
  if◌then◌else◌,
}
use nazo_auth_ctl.Prelude.Exec.{ok}
use nazo_auth_ctl.Prelude.Utf8.{is_utf8, code_points}
use nazo_auth_ctl.Prelude.Paths.{split, components, parent}
use nazo_auth_ctl.Identifiers.{is_lower_sha256}
use nazo_auth_ctl.Wire.{HostOperation, HostOperationBody}
use nazo_auth_ctl.Wire.Payloads.{PlannedSecret, ExternalEndpoint, InstallOrder}
use nazo_auth_ctl.Wire.Order.{
  secret_purposes, is_secret_purpose, postgres_token, safe_absolute_install_path,
  valid_tls_material_root, validate_signing_key_encryption_key, secret_conforms, validate_secrets,
  validate_order,
}
use nazo_auth_ctl.Wire.Order.Purposes.{count_of, validate_order-purposes}
use nazo_auth_ctl.Wire.Admission.{
  Formats, valid_token, valid_backup_transfer_file, validate_body, validate_mutation,
  validate_operation, max_backup_transfer_file_bytes,
}
use nazo_auth_ctl.Disk.{Disk, torn}
use nazo_auth_ctl.Transfer.Chunks.{write_transfer_chunk}
use nazo_auth_ctl.Transfer.Chunks.Bounded.{size, validate_operation-write_transfer_chunk}
use nazo_auth_ctl.Tests.Sample.{hash, operation, result}

-- Every key decodes to the bytes of its characters.
abbrev decode_base64url : List ℕ → Option (List ℕ)
decode_base64url cs = some cs

abbrev key : List ℕ
key =
    97 ∷ 97 ∷ 97 ∷ 97 ∷ 97 ∷ 97 ∷ 97 ∷ 97 ∷ 97 ∷ 97 ∷ 97 ∷ 97 ∷ 97 ∷ 97 ∷ 97 ∷ 97 ∷ 97 ∷ 97 ∷ 97
    ∷ 97 ∷ 97 ∷ 97 ∷ 97 ∷ 97 ∷ 97 ∷ 97 ∷ 97 ∷ 97 ∷ 97 ∷ 97 ∷ 97 ∷ 97 ∷ 10 ∷ []

abbrev secret_for : String → PlannedSecret
secret_for purpose = record {
  purpose = purpose;
  path = "/srv/nazo/secrets/file";
  value = if purpose === "mfa-totp-key" then none else some key;
}

abbrev database_as : String → ExternalEndpoint
database_as user = record { host = "db.internal"; port = 5432; name = "nazo"; user = user }

abbrev order : InstallOrder
order = record {
  artifact = record { repository = "nazozero/NazoAuth"; version = none };
  config_content = "issuer: https://id.example";
  config_sha256 = hash;
  data_root = "/srv/nazo/./data";
  runtime_root = none;
  tls_material_root = some "/srv/nazo/tls";
  secrets = map secret_for secret_purposes;
  database_runtime_endpoint = database_as "runtime";
  database_lifecycle_endpoint = database_as "lifecycle";
  valkey_endpoint = database_as "";
}

order-valid : validate_order decode_base64url order ≡ true
unfolding validate_order validate_secrets secret_conforms validate_signing_key_encryption_key
    is_utf8 code_points is_secret_purpose postgres_token safe_absolute_install_path
    valid_tls_material_root components parent split is_lower_sha256
order-valid = refl

validate_order-purposes_example : count_of "valkey-url" order.secrets ≡ 1
unfolding is_secret_purpose
validate_order-purposes_example =
    validate_order-purposes decode_base64url order "valkey-url" order-valid refl

abbrev pub formats : Formats
formats = record {
  uuid_version = λ _. some 7;
  decode_base64url = decode_base64url;
  encode_operation = λ _. 1 ∷ [];
  decode_operation = λ _. some operation;
  operation_kind = λ _. some "state-mutate";
  encode_result = λ _. 2 ∷ [];
  decode_result = λ _. some result;
}

operation-valid : validate_operation formats operation ≡ ok tt
unfolding validate_operation validate_body validate_mutation valid_token
operation-valid = refl

abbrev chunk : HostOperation
chunk = record operation {
  expected_revision = none;
  operation = HostOperationBody.backup_transfer_write "018e" "deployment.tar" 1 4 hash (1 ∷ 2 ∷ []);
}

chunk-valid : validate_operation formats chunk ≡ ok tt
unfolding validate_operation validate_body valid_token valid_backup_transfer_file is_lower_sha256
chunk-valid = refl

-- The file has the byte in front of the chunk and the chunk's first one; the next append is torn.
abbrev half_written : Disk
half_written = record { file = some (7 ∷ 1 ∷ []); fates = torn 1 ∷ [] }

validate_operation-write_transfer_chunk_example :
    (size (write_transfer_chunk true 1 (1 ∷ 2 ∷ []) half_written).1.file ≤ 4)
    × (4 ≤ max_backup_transfer_file_bytes)
validate_operation-write_transfer_chunk_example =
    validate_operation-write_transfer_chunk formats chunk "018e" "deployment.tar" hash 1 4
      (1 ∷ 2 ∷ []) true half_written chunk-valid refl (omega arith)
