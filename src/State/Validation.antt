-- ===== src/State/Validation.antt =====
-- The structural checks of a deployment state (src/target/deployment_state.rs: the `validate`
-- methods and `ConfigState::seed`). A check is `true` where the code returns Ok.
use Prim.Native.String.{len, slice}
use text.Mathlib.Text.{starts_with}
use nazo_auth_ctl.Prelude.{
  ℕ, ◌+◌, String, Bool, true, false, not, ◌&&◌, ◌||◌, Option, none, some, List, [], ◌∷◌, any,
  contains, leb, ◌==◌, ◌===◌, if◌then◌else◌,
}
use nazo_auth_ctl.Prelude.Bytes.{codes, is_control, is_whitespace}
use nazo_auth_ctl.Identifiers.{
  ParsedUrl, validate_identifier, validate_issuer, deployment_scope, is_lower_sha256,
}
use nazo_auth_ctl.State.{
  Resource, ResourceOwnership, ResourceScope, RuntimeSurface, ArtifactRefs, ConfigState,
  ReleaseVersion, ActiveHostOperationRef, AppliedMigration, DeploymentState,
  deployment_state_schema,
}

-- A check of a field that may be absent.
abbrev pub if_present {ℓ} : {A : Type ℓ} → (A → Bool) → Option A → Bool
if_present p none = true
if_present p (some a) = p a

abbrev pub is_managed_shared : ResourceOwnership → ResourceScope → Bool
is_managed_shared ResourceOwnership.managed ResourceScope.shared = true
is_managed_shared ResourceOwnership.managed ResourceScope.deployment = false
is_managed_shared ResourceOwnership.external scope = false

unfoldable pub validate_resource : Resource → Bool
validate_resource resource =
    validate_identifier resource.resource_id 128
    && validate_identifier resource.kind 64
    && not (resource.locator === "")
    && leb (len resource.locator) 512
    && not (any is_control (codes resource.locator))
    && not (is_managed_shared resource.ownership resource.scope)

unfoldable pub validate_runtime : RuntimeSurface → Bool
validate_runtime runtime =
    not (runtime.object === "")
    && leb (len runtime.object) 256
    && not (any (λ c. is_whitespace c || is_control c) (codes runtime.object))
    && leb 1024 runtime.loopback_port

unfoldable pub validate_artifact : ArtifactRefs → Bool
validate_artifact artifact =
    if_present (λ reference. validate_identifier reference 256) artifact.current
    && if_present (λ reference. validate_identifier reference 256) artifact.previous

unfoldable pub validate_release : ReleaseVersion → Bool
validate_release release = validate_identifier release.version 64

abbrev pub strip_prefix : String → String → Option String
strip_prefix prefix text =
    if starts_with text prefix then some (slice text (len prefix) (len text)) else none

unfoldable pub is_bound_digest : String → Bool
is_bound_digest reference = elim (strip_prefix "sha256:" reference) [
  | none ↦ false
  | some digest ↦ is_lower_sha256 digest
]

unfoldable pub validate_migration : AppliedMigration → Bool
validate_migration migration =
    validate_identifier migration.operation_id 128 && is_bound_digest migration.target_artifact

-- The checks that `seed` and `validate` share; `seed` leaves the revision to its callers.
unfoldable pub validate_config : String → String → Bool
validate_config reference schema =
    not (reference === "") && leb (len reference) 512 && validate_identifier schema 64

-- ConfigState::seed
unfoldable pub seed : ℕ → String → String → Option ConfigState
seed revision reference schema =
    if validate_config reference schema
    then some (record { reference = reference; schema = schema; revision = revision })
    else none

-- ConfigState::advance
unfoldable pub advance : ConfigState → String → String → Option ConfigState
unfolding seed
advance config reference schema = seed (config.revision + 1) reference schema

-- The loop over the resources, with the ids seen so far.
unfoldable pub validate_resources : List String → List Resource → Bool
validate_resources seen [] = true
validate_resources seen (resource ∷ resources) =
    let rest = validate_resources (resource.resource_id ∷ seen) resources in
    validate_resource resource && not (contains seen resource.resource_id) && rest

unfoldable pub validate_active : ActiveHostOperationRef → Bool
validate_active active = not (active.operation_id === "") && leb (len active.operation_id) 128

module _ (parse_url : String → Option ParsedUrl) where
  -- DeploymentState::validate
  unfoldable pub validate : DeploymentState → Bool
  validate state =
      state.schema == deployment_state_schema
      && deployment_scope state.deployment_id
      && validate_issuer parse_url state.issuer
      && validate_runtime state.runtime
      && validate_artifact state.artifact
      && if_present validate_migration state.applied_migration
      && validate_config state.config.reference state.config.schema
      && not (state.config.revision == 0)
      && validate_resources [] state.resources
      && leb (len state.local_health.summary) 512
      && if_present validate_active state.active_host_operation
      && if_present validate_release state.current_release
      && if_present validate_release state.previous_release
