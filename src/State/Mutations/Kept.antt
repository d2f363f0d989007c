-- ===== src/State/Mutations/Kept.antt =====
-- What no mutation of a deployment changes (src/target/deployment_state.rs).
use nazo_auth_ctl.Prelude.{ℕ, String, Option, ◌≡◌, arith}
use nazo_auth_ctl.Identifiers.{ParsedUrl}
use nazo_auth_ctl.State.{DeploymentState}
use nazo_auth_ctl.State.Steps.{
  commit, config_step, migration_step, update_step, rollback_step, recovery_step, swap_generation,
}
use nazo_auth_ctl.State.Mutations.{
  Mutation, mutate, apply_config, record_migration_applied, apply_update, apply_rollback,
  apply_recovery, Lineage, start, next,
}

-- The parts of a state that the mutations leave alone.
abbrev pub IsSameInstall : DeploymentState → DeploymentState → Type 0
IsSameInstall s t =
    (t.schema ≡ s.schema)
    × ((t.deployment_id ≡ s.deployment_id)
        × ((t.issuer ≡ s.issuer) × ((t.runtime ≡ s.runtime) × (t.resources ≡ s.resources))))

module _ (parse_url : String → Option ParsedUrl) where
  pub mutate-kept :
      (expected now : ℕ) (m : Mutation) (s : DeploymentState) {t : DeploymentState}
      → mutate parse_url expected now m s ≡ commit t
      → IsSameInstall s t
  unfolding mutate config_step migration_step update_step swap_generation rollback_step
      recovery_step
  mutate-kept expected now (apply_config reference schema operation_id) s h = ground arith
  mutate-kept expected now (record_migration_applied operation_id target_artifact) s h =
      ground arith
  mutate-kept expected now (apply_update update was_live) s h = ground arith
  mutate-kept expected now (apply_rollback config operation_id) s h = ground arith
  mutate-kept expected now (apply_recovery facts operation_id) s h = ground arith

  -- Any sequence of committed mutations keeps the document's schema, the deployment's id, its
  -- issuer, its runtime surface and its resources.
  pub Lineage-kept : {s t : DeploymentState} → Lineage parse_url s t → IsSameInstall s t
  Lineage-kept start = ground arith
  Lineage-kept (next {state = s} expected now m h rest) =
      ground (arith, mutate-kept expected now m s h, Lineage-kept rest)
