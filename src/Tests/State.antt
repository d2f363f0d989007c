-- ===== src/Tests/State.antt =====
-- The theorems on deployment states at concrete inputs.
use nazo_auth_ctl.Prelude.{◌≡◌, ◌≢◌, refl, String, true, none, some}
use nazo_auth_ctl.State.{DeploymentState, config_revision_mismatch}
use nazo_auth_ctl.State.Steps.{commit, refuse, rollback_step}
use nazo_auth_ctl.State.Mutations.{mutate, operation_of, apply_config, Lineage, start, next}
use nazo_auth_ctl.State.Mutations.Revision.{advances}
use nazo_auth_ctl.State.Mutations.Kept.{IsSameInstall, Lineage-kept}
use nazo_auth_ctl.State.Mutations.Replay.{mutate-no_lost_update}
use nazo_auth_ctl.State.Mutations.Fence.{migration_step-blocks_update, migrated_update-final}
use nazo_auth_ctl.State.Mutations.Rollback.{generations, rollback_step-twice, update_step-rollback}
use nazo_auth_ctl.Tests.Deployment.{
  parse_url, deployed, reconfigured, config_change, config_change-commits, bound, migration-commits,
  update_to, updated, update-commits, migrated, migrated-commits, rolled, rollback-commits,
}

one_change : Lineage parse_url deployed reconfigured
one_change = next 3 10 config_change config_change-commits start

Lineage-kept_example : IsSameInstall deployed reconfigured
Lineage-kept_example = Lineage-kept parse_url one_change

mutate-no_lost_update_example :
    mutate parse_url 3 99 (apply_config "file:c" "v1" "op-9") reconfigured
    ≡ refuse config_revision_mismatch
unfolding advances operation_of
mutate-no_lost_update_example =
    mutate-no_lost_update parse_url 3 10 99 config_change (apply_config "file:c" "v1" "op-9")
      deployed config_change-commits refl refl

abbrev operation : String
operation = "op-2"

migration_step-blocks_update_example : (operation ≡ operation) × (bound ≡ bound)
migration_step-blocks_update_example =
    migration_step-blocks_update parse_url 3 10 3 10 "op-2" bound deployed (update_to bound) true
      migration-commits migrated-commits

migrated_update-final_example : rollback_step 3 none "op-9" 99 migrated ≢ commit rolled
migrated_update-final_example =
    migrated_update-final parse_url 3 10 10 "op-2" bound deployed (update_to bound) true
      migration-commits migrated-commits 3 99 none "op-9" rolled

rollback_step-twice_example :
    (u : DeploymentState) × ((rollback_step 3 none "op-4" 99 rolled ≡ commit u)
      × (generations u ≡ generations updated))
rollback_step-twice_example =
    rollback_step-twice 3 none "op-3" "op-4" 10 99 updated rollback-commits refl refl

update_step-rollback_example :
    (u : DeploymentState) × ((rollback_step 3 none "op-3" 99 updated ≡ commit u)
      × ((u.artifact.current ≡ some "sha256:old")
          × ((u.current_release ≡ some (record { version = "1.0.0" }))
              × (u.artifact.previous ≡ some "sha256:new"))))
update_step-rollback_example =
    update_step-rollback 3 (update_to "sha256:new") "op-3" 10 99 deployed update-commits refl refl
      refl refl
