-- ===== src/State/Store.antt =====
-- The store of deployment states (src/target/deployment_state.rs: TargetStateStore, and the functions
-- on paths below it). A directory is its place with its two files, and a path leads to a place; the
-- locks, which only serialise the methods, and reads that fail for another reason than absence or
-- size are left out.
pub mod Applying
use Prim.Native.String.{compare}
use Prim.Native.Nat.{Ordering}
use nazo_auth_ctl.Prelude.{
  ℕ, String, Bool, true, false, not, ◌&&◌, Option, none, some, List, [], ◌∷◌, ◌==◌, ◌===◌,
  if◌then◌else◌,
}
use nazo_auth_ctl.Prelude.Exec.{Outcome, ok, err, Exec, pure, fail}
use nazo_auth_ctl.Disk.{
  File, WriteFate, Read, found, missing, oversized, read_secure_regular_file, atomic_write,
  next_fate, later_fates,
}
use nazo_auth_ctl.Identifiers.{deployment_scope}
use nazo_auth_ctl.State.{
  DeploymentState, RuntimeSurface, ArtifactRefs, Resource, ReleaseVersion, HealthRecord,
  ConfigState, Failure, deployment_unknown, deployment_exists, state_reset_required,
  operation_invalid, deployment_state_schema, is_producer,
}
use nazo_auth_ctl.State.Places.{Place, same_place, scope_path, entry_name}
use nazo_auth_ctl.State.Validation.{seed, validate}
use nazo_auth_ctl.State.Steps.{Step, replay, refuse, commit}
use nazo_auth_ctl.State.Mutations.{Mutation, mutate}
use nazo_auth_ctl.State.Legacy.{Readers, read_deployment_state}

pub record UninstallCompletion : Type 0 where
  pub schema : ℕ
  pub deployment_id : String
  pub operation_id : String
  pub revision : ℕ
  pub state_sha256 : String

-- What serde_json, semver, url and sha2 answer.
pub record Codec : Type 0 where
  pub readers : Readers
  pub encode : DeploymentState → List ℕ
  pub encode_completion : UninstallCompletion → List ℕ
  pub decode_completion : List ℕ → Option UninstallCompletion
  pub sha256 : List ℕ → String

-- `state.json` and the uninstall completion of one deployment.
pub record Scope : Type 0 where
  pub state : File
  pub completion : File

pub record Store : Type 0 where
  pub scopes : List (Place × Scope)
  pub fates : List WriteFate

abbrev pub max_state_bytes : ℕ
max_state_bytes = 1048576

unfoldable pub files_at : Place → List (Place × Scope) → Scope
files_at place [] = record { state = none; completion = none }
files_at place ((at, scope) ∷ scopes) =
    let rest = files_at place scopes in if same_place at place then scope else rest

unfoldable pub put_at : Place → Scope → List (Place × Scope) → List (Place × Scope)
put_at place scope [] = (place, scope) ∷ []
put_at place scope ((at, other) ∷ scopes) =
    let rest = put_at place scope scopes in
    if same_place at place then (at, scope) ∷ scopes else (at, other) ∷ rest

-- The files where the path of a scope leads; where no directory is, there are none.
abbrev pub scope_files : String → List (Place × Scope) → Scope
scope_files id scopes = files_at (scope_path id) scopes

abbrev pub put_scope : String → Scope → List (Place × Scope) → List (Place × Scope)
put_scope id scope scopes = put_at (scope_path id) scope scopes

module _ (codec : Codec) where
  abbrev parsed : Option DeploymentState → Outcome Failure DeploymentState
  parsed none = err state_reset_required
  parsed (some state) = ok state

  abbrev read_found : Read → Outcome Failure DeploymentState
  read_found (found bytes) = parsed (read_deployment_state codec.readers bytes)
  read_found missing = err deployment_unknown
  read_found oversized = err state_reset_required

  unfoldable pub read_state : File → Outcome Failure DeploymentState
  unfolding read_secure_regular_file
  read_state file = read_found (read_secure_regular_file max_state_bytes file)

  unfoldable pub load_existing : String → Store → Outcome Failure DeploymentState
  load_existing id store =
      if deployment_scope id
      then read_state (scope_files id store.scopes).state
      else err deployment_unknown

  -- persist: the result of the write, and the store after it.
  abbrev pub put_state : String → Store → Scope → File × Bool → Outcome Failure (Unit {0}) × Store
  put_state id store scope (file, true) = (
    ok tt,
    record {
      scopes = put_scope id (record scope { state = file }) store.scopes;
      fates = later_fates store.fates;
    },
  )
  put_state id store scope (file, false) = (
    err deployment_unknown,
    record {
      scopes = put_scope id (record scope { state = file }) store.scopes;
      fates = later_fates store.fates;
    },
  )

  unfoldable pub persist : String → DeploymentState → Exec Store Failure (Unit {0})
  persist id state store =
      let scope = scope_files id store.scopes in
      put_state id store scope
        (atomic_write (next_fate store.fates) (codec.encode state) scope.state)

  abbrev pub persisted_as :
      DeploymentState → Outcome Failure (Unit {0}) × Store → Outcome Failure DeploymentState × Store
  persisted_as state (ok _, store) = (ok state, store)
  persisted_as state (err failure, store) = (err failure, store)

  unfoldable pub persist_exact : String → DeploymentState → Exec Store Failure DeploymentState
  persist_exact id state store = persisted_as state (persist id state store)

  abbrev pub conclude : String → DeploymentState → Step → Exec Store Failure DeploymentState
  conclude id state replay = pure state
  conclude id state (refuse failure) = fail failure
  conclude id state (commit state') = persist_exact id state'

  abbrev pub apply_loaded :
      String
      → ℕ
      → ℕ
      → Mutation
      → Outcome Failure DeploymentState
      → Exec Store Failure DeploymentState
  apply_loaded id expected now m (ok state) =
      conclude id state (mutate codec.readers.parse_url expected now m state)
  apply_loaded id expected now m (err failure) = fail failure

  -- A method that mutates a deployment, at a time.
  unfoldable pub apply : String → ℕ → ℕ → Mutation → Exec Store Failure DeploymentState
  apply id expected now m store = apply_loaded id expected now m (load_existing id store) store

  -- The states of the scopes that have one, in the order of the directory.
  abbrev add_listed :
      String
      → Outcome Failure DeploymentState
      → Outcome Failure (List DeploymentState)
      → Outcome Failure (List DeploymentState)
  add_listed name (ok state) (ok states) =
      if deployment_scope name then ok (state ∷ states) else err state_reset_required
  add_listed name (ok state) (err failure) =
      if deployment_scope name then err failure else err state_reset_required
  add_listed name (err deployment_unknown) rest = rest
  add_listed name (err failure) rest = err failure

  abbrev add_entry :
      Option String
      → Scope
      → Outcome Failure (List DeploymentState)
      → Outcome Failure (List DeploymentState)
  add_entry none scope rest = rest
  add_entry (some name) scope rest = add_listed name (read_state scope.state) rest

  unfoldable pub listed : List (Place × Scope) → Outcome Failure (List DeploymentState)
  listed [] = ok []
  listed ((place, scope) ∷ scopes) =
      let rest = listed scopes in add_entry (entry_name place) scope rest

  -- `sort_by` on the deployment ids.
  unfoldable pub insert_sorted : DeploymentState → List DeploymentState → List DeploymentState
  insert_sorted state [] = state ∷ []
  insert_sorted state (other ∷ states) =
      let rest = insert_sorted state states in
      elim (compare other.deployment_id state.deployment_id) [
        | Ordering.lt ↦ other ∷ rest
        | _ ↦ state ∷ other ∷ states
      ]

  unfoldable pub sort : List DeploymentState → List DeploymentState
  sort [] = []
  sort (state ∷ states) = insert_sorted state (sort states)

  abbrev sorted : Outcome Failure (List DeploymentState) → Outcome Failure (List DeploymentState)
  sorted (ok states) = ok (sort states)
  sorted (err failure) = err failure

  unfoldable pub list_deployments : Store → Outcome Failure (List DeploymentState)
  list_deployments store = sorted (listed store.scopes)
