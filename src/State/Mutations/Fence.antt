-- ===== src/State/Mutations/Fence.antt =====
-- The migration fence (src/target/deployment_state.rs: record_migration_applied,
-- apply_update_healthy_from_live, apply_rollback_healthy).
use nazo_auth_ctl.Prelude.{ℕ, eq_iff, ◌≢◌, String, Bool, false, Option, some, ◌≡◌, arith}
use nazo_auth_ctl.Identifiers.{ParsedUrl}
use nazo_auth_ctl.State.{DeploymentState, is_producer, rollback_recovery_required}
use nazo_auth_ctl.State.Steps.{
  commit, migration_step, update_step, rollback_step, UpdateCommit, swap_generation, refuse,
  swap_generation,
}
use nazo_auth_ctl.State.Mutations.Rollback.{rollback_step-unavailable}

module _ (parse_url : String → Option ParsedUrl) where
  migration_step-fences :
      (expected now : ℕ) (operation_id target_artifact : String) (s : DeploymentState)
      {t : DeploymentState}
      → migration_step parse_url expected operation_id target_artifact now s ≡ commit t
      → (t.applied_migration
          ≡ some (record {
            operation_id = operation_id;
            target_artifact = target_artifact;
            applied_at = now;
          }))
        × (t.active_host_operation ≡ s.active_host_operation)
  unfolding migration_step
  migration_step-fences expected now operation_id target_artifact s h = ground arith

  -- After a recorded migration, a rollback by another operation than the state's producer is
  -- refused with ROLLBACK_RECOVERY_REQUIRED at the state's revision.
  migration_step-blocks_rollback :
      (expected now later : ℕ) (operation_id target_artifact : String) (s : DeploymentState)
      {t : DeploymentState} (config : Option (String × String)) (other : String)
      → migration_step parse_url expected operation_id target_artifact now s ≡ commit t
      → is_producer other t.active_host_operation ≡ false
      → rollback_step t.config.revision config other later t ≡ refuse rollback_recovery_required
  unfolding rollback_step
  migration_step-blocks_rollback expected now later operation_id target_artifact s config other h
        p =
      let (fenced, _) = migration_step-fences expected now operation_id target_artifact s h in
      ground (arith, fenced, p)

  -- After a recorded migration, the only update that commits is the one of the migration's own
  -- operation and artifact.
  pub migration_step-blocks_update :
      (expected now at later : ℕ) (operation_id target_artifact : String) (s : DeploymentState)
      {t u : DeploymentState} (update : UpdateCommit) (live : Bool)
      → migration_step parse_url expected operation_id target_artifact now s ≡ commit t
      → update_step at update live later t ≡ commit u
      → (operation_id ≡ update.operation_id) × (target_artifact ≡ update.artifact)
  unfolding update_step
  migration_step-blocks_update expected now at later operation_id target_artifact s update live h
        g =
      let (fenced, _) = migration_step-fences expected now operation_id target_artifact s h in
      ground (
        arith,
        fenced,
        g,
        eq_iff operation_id update.operation_id,
        eq_iff target_artifact update.artifact,
      )

  -- Once the update of a recorded migration is committed, no rollback commits from the state that
  -- it leaves, whatever the rollback asks for.
  pub migrated_update-final :
      (expected now later : ℕ) (operation_id target_artifact : String) (s : DeploymentState)
      {t v : DeploymentState} (update : UpdateCommit) (live : Bool)
      → migration_step parse_url expected operation_id target_artifact now s ≡ commit t
      → update_step t.config.revision update live later t ≡ commit v
      → (at time : ℕ) (config : Option (String × String)) (other : String) (u : DeploymentState)
      → rollback_step at config other time v ≢ commit u
  unfolding update_step swap_generation
  migrated_update-final expected now later operation_id target_artifact s {t} {v} update live h g at
        time config other =
      let (fenced, _) = migration_step-fences expected now operation_id target_artifact s h in
      rollback_step-unavailable at config other time v (ground (arith, fenced))
