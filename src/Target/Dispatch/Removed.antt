-- ===== src/Target/Dispatch/Removed.antt =====
-- An uninstall that was interrupted after its proof was written (src/target/mod.rs:
-- execute_journaled_validated; src/target/deployment_state.rs: remove_deployment,
-- converge_uninstall_completion).
use nazo_auth_ctl.Prelude.{ℕ, ◌≤◌, ◌≡◌, refl, String, true, none, some, List, [], ◌∷◌, length}
use nazo_auth_ctl.Prelude.Exec.{ok}
use nazo_auth_ctl.Disk.{File, WriteFate, persisted}
use nazo_auth_ctl.Identifiers.{deployment_scope}
use nazo_auth_ctl.State.{DeploymentState}
use nazo_auth_ctl.State.Legacy.{read_deployment_state}
use nazo_auth_ctl.State.Places.{Place}
use nazo_auth_ctl.State.Store.{Codec, Store, Scope, scope_files, max_state_bytes}
use nazo_auth_ctl.State.Uninstall.{remove_deployment, converge_uninstall_completion}
use nazo_auth_ctl.State.Uninstall.Convergence.{IsReadable, proof_of, remove_deployment-converges}
use nazo_auth_ctl.Wire.{
  HostOperation, HostOperationBody, StateMutationPayload, HostCompletionBody, completed_result,
}
use nazo_auth_ctl.Target.{Target, Host}
use nazo_auth_ctl.Target.Dispatch.{execute_validated, executor}

module _ {T : Type 0} (codec : Codec) (host : Host T) (now : ℕ) (operation : HostOperation)
    (id : String) (expected : ℕ) (bound : operation.deployment_id ≡ some id)
    (due : operation.expected_revision ≡ some expected)
    (uninstall : operation.operation
      ≡ HostOperationBody.state_mutate StateMutationPayload.uninstall) where
  executor-converged :
      (target : Target T)
      → (converge_uninstall_completion codec id expected operation.operation_id target.store).0
        ≡ ok true
      → executor codec host now operation target ≡ (
        completed_result operation.operation_id
            (HostCompletionBody.state_mutate_applied expected none),
        record target {
          store =
              (converge_uninstall_completion codec id expected operation.operation_id
                target.store).1;
        },
      )
  unfolding executor execute_validated
  executor-converged target c = simp (uninstall, bound, due, c) refl

  -- An uninstall whose proof was written is finished by its retry without the deletion executor,
  -- whatever the removal of the state met: the retry is answered as applied at the expected revision and
  -- no state document is left. The conditions: a bound operation in a legal scope, a readable state at
  -- that revision, a durable write of the proof, which reads back, and durable writes of the retry.
  pub uninstall-finishes :
      (scopes : List (Place × Scope)) (bytes : List ℕ) (old : File) (fate : WriteFate) (rest : T)
      {s : DeploymentState}
      → deployment_scope id ≡ true
      → scope_files id scopes ≡ record { state = some bytes; completion = old }
      → length bytes ≤ max_state_bytes
      → read_deployment_state codec.readers bytes ≡ some s
      → s.config.revision ≡ expected
      → IsReadable codec id (proof_of codec id operation.operation_id expected bytes)
      → let store =
          (remove_deployment codec id expected operation.operation_id
            (record { scopes = scopes; fates = persisted ∷ fate ∷ [] })).1 in
        let (answer, target) =
          executor codec host now operation (record { store = store; rest = rest }) in
        (answer
          ≡ completed_result operation.operation_id
              (HostCompletionBody.state_mutate_applied expected none))
        × ((scope_files id target.store.scopes).state ≡ none)
  uninstall-finishes scopes bytes old fate rest d e fits rd rev readable =
      let (proven, gone) =
        remove_deployment-converges codec id operation.operation_id expected scopes bytes old fate d
          e fits rd rev readable in
      let store : Store =
        (remove_deployment codec id expected operation.operation_id
          (record { scopes = scopes; fates = persisted ∷ fate ∷ [] })).1 in
      rw (executor-converged (record { store = store; rest = rest }) proven) (refl, gone)
