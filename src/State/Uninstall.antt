-- ===== src/State/Uninstall.antt =====
-- The end of a deployment (src/target/deployment_state.rs: remove_deployment,
-- converge_uninstall_completion, write_uninstall_completion, read_uninstall_completion,
-- completion_matches). The hash of converge_uninstall_completion reads the whole state file.
pub mod Convergence
use nazo_auth_ctl.Prelude.{
  ℕ, String, Bool, true, false, ◌&&◌, Option, none, some, List, ◌==◌, ◌===◌, if◌then◌else◌,
}
use nazo_auth_ctl.Prelude.Exec.{Outcome, ok, err, Exec, pure, fail, ◌>>◌}
use nazo_auth_ctl.Disk.{
  File, Read, found, missing, oversized, read_secure_regular_file, atomic_write,
  remove_file_durable, next_fate, later_fates,
}
use nazo_auth_ctl.Identifiers.{deployment_scope, is_lower_sha256}
use nazo_auth_ctl.State.{
  DeploymentState, Failure, deployment_unknown, state_reset_required, config_revision_mismatch,
}
use nazo_auth_ctl.State.Legacy.{read_deployment_state}
use nazo_auth_ctl.State.Store.{
  Codec, Store, Scope, UninstallCompletion, scope_files, put_scope, max_state_bytes,
}

abbrev pub uninstall_completion_schema : ℕ
uninstall_completion_schema = 1

abbrev pub max_completion_bytes : ℕ
max_completion_bytes = 4096

unfoldable pub completion_matches : Option UninstallCompletion → String → ℕ → String → Bool
completion_matches none id expected operation_id = false
completion_matches (some completion) id expected operation_id =
    completion.deployment_id === id
    && completion.operation_id === operation_id
    && completion.revision == expected

-- The result of a write to one of the two files.
abbrev pub written :
    {A : Type 0} → A → String → (File → Scope) → Store → File × Bool → Outcome Failure A × Store
written a id place store (file, true) = (
  ok a,
  record { scopes = put_scope id (place file) store.scopes; fates = later_fates store.fates },
)
written a id place store (file, false) = (
  err deployment_unknown,
  record { scopes = put_scope id (place file) store.scopes; fates = later_fates store.fates },
)

unfoldable pub remove_state : {A : Type 0} → A → String → Exec Store Failure A
remove_state a id store =
    let scope = scope_files id store.scopes in
    written a id (λ file. record scope { state = file }) store
      (remove_file_durable (next_fate store.fates) scope.state)

module _ (codec : Codec) where
  unfoldable pub write_uninstall_completion :
      String → String → String → ℕ → Exec Store Failure (Unit {0})
  write_uninstall_completion state_sha256 id operation_id revision store =
      let scope = scope_files id store.scopes in
      let completion : UninstallCompletion = record {
        schema = uninstall_completion_schema;
        deployment_id = id;
        operation_id = operation_id;
        revision = revision;
        state_sha256 = state_sha256;
      } in
      written tt id (λ file. record scope { completion = file }) store
        (atomic_write (next_fate store.fates) (codec.encode_completion completion) scope.completion)

  abbrev checked : Option UninstallCompletion → Outcome Failure (Option UninstallCompletion)
  checked none = err state_reset_required
  checked (some completion) =
      if completion.schema == uninstall_completion_schema && is_lower_sha256 completion.state_sha256
      then ok (some completion)
      else err state_reset_required

  abbrev read_completion : Read → Outcome Failure (Option UninstallCompletion)
  read_completion (found bytes) = checked (codec.decode_completion bytes)
  read_completion missing = ok none
  read_completion oversized = err state_reset_required

  unfoldable pub read_uninstall_completion : File → Outcome Failure (Option UninstallCompletion)
  unfolding read_secure_regular_file
  read_uninstall_completion file =
      read_completion (read_secure_regular_file max_completion_bytes file)

  -- Without a state document: done, if the completion is this uninstall's.
  abbrev already_removed :
      String
      → ℕ
      → String
      → Outcome Failure (Option UninstallCompletion)
      → Exec Store Failure (Unit {0})
  already_removed id expected operation_id (err failure) = fail failure
  already_removed id expected operation_id (ok completion) =
      if completion_matches completion id expected operation_id
      then pure tt
      else fail deployment_unknown

  abbrev remove_loaded :
      String → ℕ → String → List ℕ → Option DeploymentState → Exec Store Failure (Unit {0})
  remove_loaded id expected operation_id bytes none = fail state_reset_required
  remove_loaded id expected operation_id bytes (some state) =
      if state.config.revision == expected
      then write_uninstall_completion (codec.sha256 bytes) id operation_id state.config.revision
        >> remove_state tt id
      else fail config_revision_mismatch

  abbrev remove_found : String → ℕ → String → Scope → Read → Exec Store Failure (Unit {0})
  remove_found id expected operation_id scope (found bytes) =
      remove_loaded id expected operation_id bytes (read_deployment_state codec.readers bytes)
  remove_found id expected operation_id scope missing =
      already_removed id expected operation_id (read_uninstall_completion scope.completion)
  remove_found id expected operation_id scope oversized = fail state_reset_required

  unfoldable pub remove_deployment : String → ℕ → String → Exec Store Failure (Unit {0})
  unfolding read_secure_regular_file
  remove_deployment id expected operation_id store =
      if deployment_scope id
      then (let scope = scope_files id store.scopes in
          remove_found id expected operation_id scope
            (read_secure_regular_file max_state_bytes scope.state) store)
      else (err deployment_unknown, store)

  -- The state file that the completion was written for is removed; another one stays.
  abbrev remove_proven : String → UninstallCompletion → File → Exec Store Failure Bool
  remove_proven id completion none = pure true
  remove_proven id completion (some bytes) =
      if codec.sha256 bytes === completion.state_sha256 then remove_state true id else pure true

  abbrev converge :
      String
      → ℕ
      → String
      → Scope
      → Outcome Failure (Option UninstallCompletion)
      → Exec Store Failure Bool
  converge id expected operation_id scope (err failure) = fail failure
  converge id expected operation_id scope (ok none) = pure false
  converge id expected operation_id scope (ok (some completion)) =
      if completion_matches (some completion) id expected operation_id
      then remove_proven id completion scope.state
      else pure false

  unfoldable pub converge_uninstall_completion : String → ℕ → String → Exec Store Failure Bool
  converge_uninstall_completion id expected operation_id store =
      if deployment_scope id
      then (let scope = scope_files id store.scopes in
          converge id expected operation_id scope (read_uninstall_completion scope.completion)
            store)
      else (err deployment_unknown, store)
