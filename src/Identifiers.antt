-- ===== src/Identifiers.antt =====
-- The rules for texts that become keys, tokens and path components
-- (src/registry.rs: validate_identifier, validate_issuer; src/target/journal.rs: deployment_scope;
-- the digest checks of src/target/deployment_state.rs). A rule is `true` where the code returns Ok.
pub mod Rules
use Prim.Native.String.{len}
use text.Mathlib.Text.{starts_with}
use nazo_auth_ctl.Prelude.{
  ℕ, String, Bool, true, false, not, ◌&&◌, ◌||◌, Option, none, some, all, any, leb, ◌==◌, ◌===◌,
}
use nazo_auth_ctl.Prelude.Bytes.{
  codes, is_ascii_alphanumeric, is_lower_hexdigit, is_control, is_whitespace,
}

-- `is_ascii_alphanumeric() || ".:_+-".contains(character)`
unfoldable pub is_identifier_character : ℕ → Bool
is_identifier_character c =
    is_ascii_alphanumeric c || c == b'.' || c == b':' || c == b'_' || c == b'+' || c == b'-'

unfoldable pub validate_identifier : String → ℕ → Bool
unfolding is_identifier_character
validate_identifier value max_chars =
    not (value === "")
    && leb (len value) max_chars
    && all is_identifier_character (codes value)
    && not (starts_with value "-")
    && not (value === ".")
    && not (value === "..")

unfoldable pub deployment_scope : String → Bool
unfolding is_identifier_character
deployment_scope deployment_id =
    not (deployment_id === "")
    && leb (len deployment_id) 128
    && not (deployment_id === ".")
    && not (deployment_id === "..")
    && all is_identifier_character (codes deployment_id)

-- `len() == 64` and every byte a digit or in `a..=f`.
unfoldable pub is_lower_sha256 : String → Bool
is_lower_sha256 value = len value == 64 && all is_lower_hexdigit (codes value)

-- On the version of a UUID text, `none` where it is none.
abbrev pub is_version_7 : Option ℕ → Bool
is_version_7 none = false
is_version_7 (some version) = version == 7

-- What the crate `url` says of a parsed URL.
pub record ParsedUrl : Type 0 where
  pub cannot_be_a_base : Bool
  pub scheme : String
  pub username : String
  pub password : Option String

module _ (parse_url : String → Option ParsedUrl) where
  unfoldable pub validate_issuer : String → Bool
  validate_issuer value = elim (parse_url value) [
    | none ↦ false
    | some parsed ↦
        not parsed.cannot_be_a_base
        && (parsed.scheme === "http" || parsed.scheme === "https")
        && parsed.username === ""
        && elim parsed.password [ none ↦ true | some _ ↦ false ]
  ]
