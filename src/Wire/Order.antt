-- ===== src/Wire/Order.antt =====
-- The admission of an install order and of a staged config (src/target/install_exec.rs: the
-- `validate` methods and the checks under them). A check is `true` where the code returns Ok.
pub mod Purposes
use Prim.Native.String.{len}
use text.Mathlib.Text.{starts_with}
use nazo_auth_ctl.Prelude.{
  ℕ, ◌*◌, String, Bool, true, false, not, ◌&&◌, ◌||◌, Option, none, some, List, [], ◌∷◌, is_none,
  all, any, length, contains, leb, ◌==◌, ◌===◌, if◌then◌else◌,
}
use nazo_auth_ctl.Prelude.Bytes.{codes, is_ascii_alphanumeric, is_control, trim}
use nazo_auth_ctl.Prelude.Utf8.{is_utf8, code_points}
use nazo_auth_ctl.Prelude.Paths.{
  split, same_codes, Component, components, parent, same_path, is_traversal, starts_rooted,
}
use nazo_auth_ctl.Identifiers.{validate_identifier, is_lower_sha256}
use nazo_auth_ctl.State.Validation.{if_present}
use nazo_auth_ctl.Wire.Payloads.{
  OfficialArtifactRef, PlannedSecret, StagedConfig, ExternalEndpoint, InstallOrder,
}

-- The check on an artifact that `HostOperation::validate` writes out twice.
abbrev pub has_repository : OfficialArtifactRef → Bool
has_repository artifact = not (artifact.repository === "") && leb (len artifact.repository) 128

unfoldable pub safe_absolute_install_path : String → Bool
safe_absolute_install_path value =
    not (value === "")
    && leb (len value) 512
    && starts_rooted (codes value)
    && not (any is_control (codes value))
    && not (any is_traversal (components value))

abbrev ends_in : ℕ → List ℕ → Bool
ends_in c [] = false
ends_in c (d ∷ []) = d == c
ends_in c (d ∷ e ∷ rest) = ends_in c (e ∷ rest)

abbrev is_plain_part : List ℕ → Bool
is_plain_part part =
    not (same_codes part [])
    && not (same_codes part (codes "."))
    && not (same_codes part (codes ".."))

abbrev skip_first : List (List ℕ) → List (List ℕ)
skip_first [] = []
skip_first (_ ∷ parts) = parts

unfoldable pub valid_tls_material_root : String → Bool
valid_tls_material_root path =
    safe_absolute_install_path path
    && starts_with path "/"
    && not (ends_in b'/' (codes path))
    && not (any (λ c. c == 92 || (c == b':' || c == b',')) (codes path))
    && not (starts_with path "//")
    && all is_plain_part (skip_first (split b'/' (codes path)))

abbrev pub max_config_content_bytes : ℕ
max_config_content_bytes = 32 * 1024

abbrev is_bounded_content : String → Bool
is_bounded_content content = not (content === "") && leb (len content) max_config_content_bytes

-- StagedConfig::validate
unfoldable pub validate_staged_config : StagedConfig → Bool
validate_staged_config config =
    is_bounded_content config.content
    && is_lower_sha256 config.sha256
    && validate_identifier config.schema 64

abbrev pub secret_purposes : List String
secret_purposes =
    "database-runtime-url" ∷ "database-lifecycle-url" ∷ "valkey-url" ∷ "mfa-totp-key"
    ∷ "signing-key-encryption-key" ∷ "client-secret-pepper" ∷ "dynamic-registration-token"
    ∷ "openid4vc-data-encryption-key" ∷ "openid4vci-management-token" ∷ "openid4vp-management-token"
    ∷ []

-- `SECRET_PURPOSES.contains`
unfoldable pub is_secret_purpose : String → Bool
is_secret_purpose purpose = contains secret_purposes purpose

abbrev is_bounded_host : ExternalEndpoint → Bool
is_bounded_host endpoint = not (endpoint.host === "") && leb (len endpoint.host) 253

unfoldable pub postgres_token : String → Bool
postgres_token value =
    not (value === "")
    && leb (len value) 63
    && all (λ c. is_ascii_alphanumeric c || (c == b'_' || c == b'-')) (codes value)

-- Two roles of one database.
abbrev are_distinct_roles : ExternalEndpoint → ExternalEndpoint → Bool
are_distinct_roles runtime lifecycle =
    runtime.host === lifecycle.host
    && runtime.port == lifecycle.port
    && runtime.name === lifecycle.name
    && not (runtime.user === lifecycle.user)

-- The runtime mounts one directory of secrets.
abbrev in_directory : List Component → Option (List Component) → Bool
in_directory shared none = false
in_directory shared (some directory) = same_path directory shared

abbrev all_in : List PlannedSecret → Option (List Component) → Bool
all_in secrets none = true
all_in secrets (some shared) =
    all (λ secret. in_directory shared (parent (components secret.path))) secrets

abbrev pub share_directory : List PlannedSecret → Bool
share_directory [] = true
share_directory (first ∷ rest) = all_in rest (parent (components first.path))

-- The base64url decoder of the crate base64, without padding, on the characters of a text.
module _ (decode_base64url : List ℕ → Option (List ℕ)) where
  unfoldable pub validate_signing_key_encryption_key : List ℕ → Bool
  validate_signing_key_encryption_key bytes =
      is_utf8 bytes && elim (decode_base64url (trim (code_points bytes))) [
        | none ↦ false
        | some decoded ↦ length decoded == 32
      ]

  -- The code panics on an absent key, which the check before it rules out.
  abbrev key_conforms : PlannedSecret → Bool
  key_conforms secret =
      if secret.purpose === "signing-key-encryption-key"
      then elim secret.value [
        | none ↦ false
        | some bytes ↦ validate_signing_key_encryption_key bytes
      ]
      else true

  unfoldable pub secret_conforms : PlannedSecret → Bool
  secret_conforms secret =
      (safe_absolute_install_path secret.path && not (is_none (parent (components secret.path))))
      && (if is_none secret.value
          then secret.purpose === "mfa-totp-key"
          else not (secret.purpose === "mfa-totp-key"))
      && key_conforms secret

  -- The loop over the secrets, with the purposes seen so far.
  unfoldable pub validate_secrets : List String → List PlannedSecret → Bool
  validate_secrets seen [] = true
  validate_secrets seen (secret ∷ secrets) =
      let rest = validate_secrets (secret.purpose ∷ seen) secrets in
      is_secret_purpose secret.purpose
      && not (contains seen secret.purpose)
      && secret_conforms secret
      && rest

  -- InstallOrder::validate
  unfoldable pub validate_order : InstallOrder → Bool
  validate_order order =
      (is_bounded_host order.database_runtime_endpoint
        && is_bounded_host order.database_lifecycle_endpoint
        && is_bounded_host order.valkey_endpoint)
      && (not (order.database_runtime_endpoint.port == 0)
          && not (order.database_lifecycle_endpoint.port == 0)
          && not (order.valkey_endpoint.port == 0))
      && (postgres_token order.database_runtime_endpoint.name
          && postgres_token order.database_runtime_endpoint.user
          && postgres_token order.database_lifecycle_endpoint.name
          && postgres_token order.database_lifecycle_endpoint.user)
      && is_bounded_content order.config_content
      && is_lower_sha256 order.config_sha256
      && safe_absolute_install_path order.data_root
      && if_present safe_absolute_install_path order.runtime_root
      && if_present valid_tls_material_root order.tls_material_root
      && are_distinct_roles order.database_runtime_endpoint order.database_lifecycle_endpoint
      && length order.secrets == length secret_purposes
      && validate_secrets [] order.secrets
      && share_directory order.secrets
