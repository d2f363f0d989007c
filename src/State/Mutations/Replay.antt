-- ===== src/State/Mutations/Replay.antt =====
-- Retries and concurrent callers of a mutation (src/target/deployment_state.rs).
use nazo_auth_ctl.State.Mutations.Revision.{advances, mutate-revision}
use nazo_auth_ctl.Prelude.{
  eq_refl, refl, ℕ, ◌===◌, ◌==◌, String, Bool, true, false, Option, some, ◌≡◌, arith,
}
use nazo_auth_ctl.Identifiers.{ParsedUrl}
use nazo_auth_ctl.State.{DeploymentState, is_producer, config_revision_mismatch}
use nazo_auth_ctl.State.Steps.{
  Step, commit, config_step, migration_step, update_step, rollback_step, recovery_step,
  UpdateCommit, RecoveryFacts, replay, refuse, unless_producer,
}
use nazo_auth_ctl.State.Mutations.{
  Mutation, mutate, operation_of, apply_config, record_migration_applied, apply_update,
  apply_rollback, apply_recovery,
}

module _ (parse_url : String → Option ParsedUrl) where
  -- Every mutation but the fence leaves its operation as the producer.
  abbrev IsProducedBy : DeploymentState → String → ℕ → Type 0
  IsProducedBy t operation_id now =
      t.active_host_operation ≡ some (record { operation_id = operation_id; applied_at = now })

  config_step-IsProducedBy :
      (expected : ℕ) (reference schema operation_id : String) (now : ℕ) (s : DeploymentState)
      {t : DeploymentState}
      → config_step expected reference schema operation_id now s ≡ commit t
      → IsProducedBy t operation_id now
  unfolding config_step
  config_step-IsProducedBy expected reference schema operation_id now s h = ground arith

  update_step-IsProducedBy :
      (expected : ℕ) (update : UpdateCommit) (was_live : Bool) (now : ℕ) (s : DeploymentState)
      {t : DeploymentState}
      → update_step expected update was_live now s ≡ commit t
      → IsProducedBy t update.operation_id now
  unfolding update_step
  update_step-IsProducedBy expected update was_live now s h = ground arith

  rollback_step-IsProducedBy :
      (expected : ℕ) (config : Option (String × String)) (operation_id : String) (now : ℕ)
      (s : DeploymentState) {t : DeploymentState}
      → rollback_step expected config operation_id now s ≡ commit t
      → IsProducedBy t operation_id now
  unfolding rollback_step
  rollback_step-IsProducedBy expected config operation_id now s h = ground arith

  recovery_step-IsProducedBy :
      (expected : ℕ) (facts : RecoveryFacts) (operation_id : String) (now : ℕ) (s : DeploymentState)
      {t : DeploymentState}
      → recovery_step parse_url expected facts operation_id now s ≡ commit t
      → IsProducedBy t operation_id now
  unfolding recovery_step
  recovery_step-IsProducedBy expected facts operation_id now s h = ground arith

  migration_step-recorded :
      (expected : ℕ) (operation_id target_artifact : String) (now : ℕ) (s : DeploymentState)
      {t : DeploymentState}
      → migration_step parse_url expected operation_id target_artifact now s ≡ commit t
      → t.applied_migration
        ≡ some (record {
          operation_id = operation_id;
          target_artifact = target_artifact;
          applied_at = now;
        })
  unfolding migration_step
  migration_step-recorded expected operation_id target_artifact now s h = ground arith

  produced-replay :
      (t : DeploymentState) (operation_id : String) (now : ℕ) (step : Step)
      → IsProducedBy t operation_id now
      → unless_producer operation_id t step ≡ replay
  produced-replay t operation_id now step p = rw (p, eq_refl operation_id) refl

  -- A mutation that committed changes nothing when it is sent again at the same revision: the
  -- target answers it from the state that it produced.
  pub mutate-replay :
      (expected now later : ℕ) (m : Mutation) (s : DeploymentState) {t : DeploymentState}
      → mutate parse_url expected now m s ≡ commit t
      → mutate parse_url expected later m t ≡ replay
  unfolding mutate config_step migration_step update_step rollback_step recovery_step
  mutate-replay expected now later (apply_config reference schema operation_id) s {t} h =
      produced-replay t operation_id now _
        (config_step-IsProducedBy expected reference schema operation_id now s h)
  mutate-replay expected now later (record_migration_applied operation_id target_artifact) s {t} h =
      ground (
        arith,
        migration_step-recorded expected operation_id target_artifact now s h,
        mutate-revision parse_url expected now
            (record_migration_applied operation_id target_artifact) s h,
        eq_refl operation_id,
        eq_refl target_artifact,
      )
  mutate-replay expected now later (apply_update update was_live) s {t} h =
      produced-replay t update.operation_id now _
        (update_step-IsProducedBy expected update was_live now s h)
  mutate-replay expected now later (apply_rollback config operation_id) s {t} h =
      produced-replay t operation_id now _
        (rollback_step-IsProducedBy expected config operation_id now s h)
  mutate-replay expected now later (apply_recovery facts operation_id) s {t} h =
      produced-replay t operation_id now _
        (recovery_step-IsProducedBy expected facts operation_id now s h)

  mutate-IsProducedBy :
      (expected now : ℕ) (m : Mutation) (s : DeploymentState) {t : DeploymentState}
      → mutate parse_url expected now m s ≡ commit t
      → advances m ≡ true
      → IsProducedBy t (operation_of m) now
  unfolding mutate operation_of advances
  mutate-IsProducedBy expected now (apply_config reference schema operation_id) s h a =
      config_step-IsProducedBy expected reference schema operation_id now s h
  mutate-IsProducedBy expected now (record_migration_applied operation_id target_artifact) s h a =
      ground arith
  mutate-IsProducedBy expected now (apply_update update was_live) s h a =
      update_step-IsProducedBy expected update was_live now s h
  mutate-IsProducedBy expected now (apply_rollback config operation_id) s h a =
      rollback_step-IsProducedBy expected config operation_id now s h
  mutate-IsProducedBy expected now (apply_recovery facts operation_id) s h a =
      recovery_step-IsProducedBy expected facts operation_id now s h

  -- A mutation of another operation than the producer, at another revision than the state's.
  mutate-stale :
      (expected now : ℕ) (m : Mutation) (t : DeploymentState)
      → is_producer (operation_of m) t.active_host_operation ≡ false
      → (t.config.revision == expected) ≡ false
      → mutate parse_url expected now m t ≡ refuse config_revision_mismatch
  unfolding mutate operation_of config_step migration_step update_step rollback_step recovery_step
  mutate-stale expected now (apply_config reference schema operation_id) t p r = rw (p, r) refl
  mutate-stale expected now (record_migration_applied operation_id target_artifact) t p r =
      rw r refl
  mutate-stale expected now (apply_update update was_live) t p r = rw (p, r) refl
  mutate-stale expected now (apply_rollback config operation_id) t p r = rw (p, r) refl
  mutate-stale expected now (apply_recovery facts operation_id) t p r = rw (p, r) refl

  -- Of two mutations built from the same revision by different operations, a committed first one
  -- that installs a configuration makes the target refuse the second one, whatever it is, with
  -- CONFIG_REVISION_MISMATCH.
  pub mutate-no_lost_update :
      (expected now later : ℕ) (m m' : Mutation) (s : DeploymentState) {t : DeploymentState}
      → mutate parse_url expected now m s ≡ commit t
      → advances m ≡ true
      → (operation_of m === operation_of m') ≡ false
      → mutate parse_url expected later m' t ≡ refuse config_revision_mismatch
  mutate-no_lost_update expected now later m m' s {t} h a d =
      let produced = mutate-IsProducedBy expected now m s h a in
      let revision = mutate-revision parse_url expected now m s h in
      mutate-stale expected later m' t (rw produced d) (ground (arith, revision))
