-- ===== src/State/Mutations/Revision.antt =====
-- The revision of a deployment under its mutations (src/target/deployment_state.rs).
use nazo_auth_ctl.Prelude.{
  ℕ, String, Bool, true, false, Option, ◌≡◌, ◌+◌, ◌≤◌, arith, not, is_none, if◌then◌else◌,
}
use nazo_auth_ctl.Identifiers.{ParsedUrl}
use nazo_auth_ctl.State.{DeploymentState}
use nazo_auth_ctl.State.Validation.{advance, seed}
use nazo_auth_ctl.State.Steps.{
  commit, config_step, migration_step, update_step, rollback_step, recovery_step, UpdateCommit,
  RecoveryFacts, swap_generation,
}
use nazo_auth_ctl.State.Mutations.{
  Mutation, mutate, apply_config, record_migration_applied, apply_update, apply_rollback,
  apply_recovery, Lineage, start, next,
}

config_step-revision :
    (expected : ℕ) (reference schema operation_id : String) (now : ℕ) (s : DeploymentState)
    {t : DeploymentState}
    → config_step expected reference schema operation_id now s ≡ commit t
    → (s.config.revision ≡ expected) × (t.config.revision ≡ expected + 1)
unfolding config_step advance seed
config_step-revision expected reference schema operation_id now s h = ground arith

update_step-revision :
    (expected : ℕ) (update : UpdateCommit) (was_live : Bool) (now : ℕ) (s : DeploymentState)
    {t : DeploymentState}
    → update_step expected update was_live now s ≡ commit t
    → (s.config.revision ≡ expected)
      × (t.config.revision ≡ (if is_none update.config then expected else expected + 1))
unfolding update_step swap_generation advance seed
update_step-revision expected update was_live now s h = ground arith

rollback_step-revision :
    (expected : ℕ) (config : Option (String × String)) (operation_id : String) (now : ℕ)
    (s : DeploymentState) {t : DeploymentState}
    → rollback_step expected config operation_id now s ≡ commit t
    → (s.config.revision ≡ expected)
      × (t.config.revision ≡ (if is_none config then expected else expected + 1))
unfolding rollback_step advance seed
rollback_step-revision expected config operation_id now s h = ground arith

recovery_step-revision :
    (parse_url : String → Option ParsedUrl) (expected : ℕ) (facts : RecoveryFacts)
    (operation_id : String) (now : ℕ) (s : DeploymentState) {t : DeploymentState}
    → recovery_step parse_url expected facts operation_id now s ≡ commit t
    → (s.config.revision ≡ expected) × (t.config.revision ≡ expected + 1)
unfolding recovery_step advance seed
recovery_step-revision parse_url expected facts operation_id now s h = ground arith

migration_step-revision :
    (parse_url : String → Option ParsedUrl) (expected : ℕ) (operation_id target_artifact : String)
    (now : ℕ) (s : DeploymentState) {t : DeploymentState}
    → migration_step parse_url expected operation_id target_artifact now s ≡ commit t
    → (s.config.revision ≡ expected) × (t.config.revision ≡ expected)
unfolding migration_step
migration_step-revision parse_url expected operation_id target_artifact now s h = ground arith

-- The mutations that install a configuration.
unfoldable pub advances : Mutation → Bool
advances (apply_config reference schema operation_id) = true
advances (record_migration_applied operation_id target_artifact) = false
advances (apply_update update was_live) = not (is_none update.config)
advances (apply_rollback config operation_id) = not (is_none config)
advances (apply_recovery facts operation_id) = true

module _ (parse_url : String → Option ParsedUrl) where
  -- A mutation commits only at the revision that it expects, and the committed state has the next
  -- revision if the mutation installs a configuration, and the same one otherwise.
  pub mutate-revision :
      (expected now : ℕ) (m : Mutation) (s : DeploymentState) {t : DeploymentState}
      → mutate parse_url expected now m s ≡ commit t
      → (s.config.revision ≡ expected)
        × (t.config.revision ≡ (if advances m then expected + 1 else expected))
  unfolding mutate advances
  mutate-revision expected now (apply_config reference schema operation_id) s h =
      config_step-revision expected reference schema operation_id now s h
  mutate-revision expected now (record_migration_applied operation_id target_artifact) s h =
      migration_step-revision parse_url expected operation_id target_artifact now s h
  mutate-revision expected now (apply_update update was_live) s h =
      let inv = update_step-revision expected update was_live now s h in ground (arith, inv)
  mutate-revision expected now (apply_rollback config operation_id) s h =
      let inv = rollback_step-revision expected config operation_id now s h in ground (arith, inv)
  mutate-revision expected now (apply_recovery facts operation_id) s h =
      recovery_step-revision parse_url expected facts operation_id now s h

  -- Along any sequence of committed mutations the revision never goes back.
  Lineage-revision :
      {s t : DeploymentState} → Lineage parse_url s t → s.config.revision ≤ t.config.revision
  Lineage-revision start = ground arith
  Lineage-revision (next {state = s} expected now m h rest) =
      ground (arith, mutate-revision expected now m s h, Lineage-revision rest)
