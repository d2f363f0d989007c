-- ===== src/State/Legacy.antt =====
-- The reader of stored documents, those of schema 7 included (src/target/persistence.rs). What
-- serde_json, semver and url answer is a parameter; a JSON tree has the shape of serde_json's Value,
-- and its numbers are naturals, as all those of a stored document are.
pub mod Forbidden
use nazo_auth_ctl.Prelude.{
  ℕ, String, Bool, true, false, not, ◌&&◌, ◌||◌, Option, none, some, List, all, ◌==◌, ◌===◌,
  if◌then◌else◌,
}
use nazo_auth_ctl.Prelude.Bytes.{codes, is_ascii_digit, is_whitespace}
use nazo_auth_ctl.Identifiers.{ParsedUrl}
use nazo_auth_ctl.State.{DeploymentState, deployment_state_schema}
use nazo_auth_ctl.State.Validation.{validate}

pub data LegacyDatabaseRestore : Type 0 where
  backup pitr nothing : LegacyDatabaseRestore

pub record LegacyRollbackPolicy : Type 0 where
  pub artifact : Bool
  pub schema_compatible : Bool
  pub database_restore : LegacyDatabaseRestore
  pub irreversible_migration : Bool
  pub minimum_supported_version : String
  pub migration_floor : String
  pub rationale : String

mutual
  pub data Value : Type 0 where
    null : Value
    boolean : Bool → Value
    number : ℕ → Value
    text : String → Value
    array : Values → Value
    object : Members → Value

  pub data Values : Type 0 where
    end : Values
    element : Value → Values → Values

  -- The members of an object: `serde_json::Map`, with each key once.
  pub data Members : Type 0 where
    empty : Members
    member : String → Value → Members → Members

unfoldable pub get : String → Members → Option Value
get key empty = none
get key (member k value members) =
    let rest = get key members in if k === key then some value else rest

unfoldable pub remove : String → Members → Members
remove key empty = empty
remove key (member k value members) =
    let rest = remove key members in if k === key then rest else member k value rest

unfoldable pub insert : String → Value → Members → Members
insert key value empty = member key value empty
insert key value (member k v members) =
    let rest = insert key value members in
    if k === key then member k value members else member k v rest

pub record Readers : Type 0 where
  pub parse_url : String → Option ParsedUrl
  pub is_version : String → Bool
  pub decode : List ℕ → Option DeploymentState
  pub decode_schema : List ℕ → Option ℕ
  pub decode_value : List ℕ → Option Value
  pub state_of_value : Value → Option DeploymentState
  pub policy_of_value : Value → Option LegacyRollbackPolicy

unfoldable pub allows_artifact_rollback : LegacyRollbackPolicy → Bool
allows_artifact_rollback policy =
    policy.artifact && policy.schema_compatible && not policy.irreversible_migration

-- `artifact.previous` of an artifact member that is an object becomes null.
abbrev pub without_previous_artifact : Option Value → Members → Members
without_previous_artifact (some (object artifact)) members =
    insert "artifact" (object (insert "previous" null artifact)) members
without_previous_artifact artifact members = members

unfoldable pub forbid_rollback : Members → Members
unfolding get remove insert
forbid_rollback members =
    remove "previous_release" (without_previous_artifact (get "artifact" members) members)

module _ (readers : Readers) where
  -- LegacyRollbackPolicy::validate
  unfoldable pub validate_policy : LegacyRollbackPolicy → Bool
  validate_policy policy =
      readers.is_version policy.minimum_supported_version
      && not (all is_whitespace (codes policy.rationale))
      && not (policy.migration_floor === "")
      && all is_ascii_digit (codes policy.migration_floor)
      && not (policy.irreversible_migration && policy.schema_compatible)
      && not (policy.schema_compatible && not policy.artifact)

  abbrev if_valid_policy : Option LegacyRollbackPolicy → Option LegacyRollbackPolicy
  if_valid_policy none = none
  if_valid_policy (some policy) = if validate_policy policy then some policy else none

  -- A policy that must be there.
  abbrev pub required_policy : Option Value → Option LegacyRollbackPolicy
  required_policy none = none
  required_policy (some value) = if_valid_policy (readers.policy_of_value value)

  -- A policy that may be absent or null.
  abbrev pub optional_policy : Option Value → Bool
  optional_policy none = true
  optional_policy (some null) = true
  optional_policy (some value) = elim (if_valid_policy (readers.policy_of_value value)) [
    | none ↦ false
    | some _ ↦ true
  ]

  -- The migration without its policy, which must be valid; a migration that is no object stays.
  abbrev pub migrated_migration : Option Value → Members → Option Members
  migrated_migration (some (object migration)) members =
      elim (required_policy (get "rollback_policy" migration)) [
        | none ↦ none
        | some _ ↦
            some (insert "applied_migration" (object (remove "rollback_policy" migration)) members)
      ]
  migrated_migration migration members = some members

  abbrev pub with_schema : Option Members → Option Value
  with_schema none = none
  with_schema (some members) =
      some (object (insert "schema" (number deployment_state_schema) members))

  -- The document of schema 7 as one of the current schema.
  unfoldable pub migrate_schema_7 : Value → Option Value
  migrate_schema_7 (object members) =
      elim (required_policy (get "current_rollback_policy" members)) [
        | none ↦ none
        | some policy ↦
            let rest =
              remove "previous_rollback_policy" (remove "current_rollback_policy" members) in
            let kept = if allows_artifact_rollback policy then rest else forbid_rollback rest in
            if optional_policy (get "previous_rollback_policy" members)
            then with_schema (migrated_migration (get "applied_migration" kept) kept)
            else none
      ]
  migrate_schema_7 value = none

  abbrev if_valid : Option DeploymentState → Option DeploymentState
  if_valid none = none
  if_valid (some state) = if validate readers.parse_url state then some state else none

  abbrev bind {ℓ} : {A B : Type ℓ} → Option A → (A → Option B) → Option B
  bind none f = none
  bind (some a) f = f a

  abbrev pub read_schema_7 : Option Value → Option DeploymentState
  read_schema_7 value = bind value λ document.
      bind (migrate_schema_7 document) λ current. if_valid (readers.state_of_value current)

  -- A document that the current format refuses: only schema 7 is read.
  abbrev read_schema : List ℕ → ℕ → Option DeploymentState
  read_schema bytes schema =
      if schema == 7 && not (schema == deployment_state_schema)
      then read_schema_7 (readers.decode_value bytes)
      else none

  unfoldable pub read_deployment_state : List ℕ → Option DeploymentState
  read_deployment_state bytes = elim (readers.decode bytes) [
    | some state ↦ if_valid (some state)
    | none ↦ bind (readers.decode_schema bytes) (read_schema bytes)
  ]
