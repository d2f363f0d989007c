-- ===== src/State/Mutations.antt =====
-- The mutations of a stored deployment (src/target/deployment_state.rs: the `apply_*` methods and
-- record_migration_applied), each with its arguments, and the states that a sequence of them reaches.
pub mod Revision
pub mod Kept
pub mod Valid
pub mod Replay
pub mod Fence
pub mod Rollback
use nazo_auth_ctl.Prelude.{ℕ, String, Bool, Option, ◌≡◌}
use nazo_auth_ctl.Identifiers.{ParsedUrl}
use nazo_auth_ctl.State.{DeploymentState}
use nazo_auth_ctl.State.Steps.{
  Step, commit, config_step, migration_step, update_step, rollback_step, recovery_step,
  UpdateCommit, RecoveryFacts,
}

pub data Mutation : Type 0 where
  apply_config : String → String → String → Mutation
  record_migration_applied : String → String → Mutation
  apply_update : UpdateCommit → Bool → Mutation
  apply_rollback : Option (String × String) → String → Mutation
  apply_recovery : RecoveryFacts → String → Mutation

-- The operation that a mutation belongs to.
unfoldable pub operation_of : Mutation → String
operation_of (apply_config reference schema operation_id) = operation_id
operation_of (record_migration_applied operation_id target_artifact) = operation_id
operation_of (apply_update update was_live) = update.operation_id
operation_of (apply_rollback config operation_id) = operation_id
operation_of (apply_recovery facts operation_id) = operation_id

module _ (parse_url : String → Option ParsedUrl) where
  -- A mutation that expects a revision, at a time.
  unfoldable pub mutate : ℕ → ℕ → Mutation → DeploymentState → Step
  mutate expected now (apply_config reference schema operation_id) state =
      config_step expected reference schema operation_id now state
  mutate expected now (record_migration_applied operation_id target_artifact) state =
      migration_step parse_url expected operation_id target_artifact now state
  mutate expected now (apply_update update was_live) state =
      update_step expected update was_live now state
  mutate expected now (apply_rollback config operation_id) state =
      rollback_step expected config operation_id now state
  mutate expected now (apply_recovery facts operation_id) state =
      recovery_step parse_url expected facts operation_id now state

  -- The committed mutations that lead from one state to another.
  pub data Lineage : DeploymentState → DeploymentState → Type 0 where
    start : {state : DeploymentState} → Lineage state state
    next :
        {state middle state' : DeploymentState} (expected now : ℕ) (m : Mutation)
        → mutate expected now m state ≡ commit middle
        → Lineage middle state'
        → Lineage state state'
