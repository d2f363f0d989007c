-- ===== src/Tests/Store.antt =====
-- The theorems on the store at concrete inputs.
use nazo_auth_ctl.Prelude.{◌≡◌, ◌≢◌, ◌⊎◌, refl, true, false, none, some, List, [], ◌∷◌, any, arith}
use nazo_auth_ctl.Prelude.Exec.{ok, err}
use nazo_auth_ctl.Disk.{persisted, refused, read_secure_regular_file, atomic_write}
use nazo_auth_ctl.Identifiers.{
  deployment_scope, is_lower_sha256, is_identifier_character, validate_identifier, validate_issuer,
}
use nazo_auth_ctl.State.{DeploymentState, config_revision_mismatch, deployment_unknown, is_producer}
use nazo_auth_ctl.State.Validation.{
  validate, seed, validate_active, validate_config, validate_artifact, validate_runtime,
  validate_resources, validate_release,
}
use nazo_auth_ctl.State.Steps.{commit, rollback_step, config_step}
use nazo_auth_ctl.State.Mutations.{mutate}
use nazo_auth_ctl.State.Legacy.{
  read_deployment_state, allows_artifact_rollback, forbid_rollback, migrate_schema_7, get, insert,
  remove, validate_policy,
}
use nazo_auth_ctl.State.Legacy.Forbidden.{read_deployment_state-forbids_rollback}
use nazo_auth_ctl.State.Places.{scope_path}
use nazo_auth_ctl.State.Store.{
  Store, scope_files, files_at, put_at, read_state, load_existing, persist, persist_exact, apply,
  listed, list_deployments, sort,
}
use nazo_auth_ctl.State.Store.Applying.{apply-other_scopes, apply-load_replay}
use nazo_auth_ctl.State.Bootstrap.{bootstrap_with_health, has_port}
use nazo_auth_ctl.State.Bootstrap.Admission.{bootstrap-load_retry, bootstrap-admits}
use nazo_auth_ctl.State.Uninstall.{
  remove_deployment, converge_uninstall_completion, read_uninstall_completion, completion_matches,
}
use nazo_auth_ctl.State.Uninstall.Convergence.{
  converge-keeps_new_state, remove_deployment-converges,
}
use nazo_auth_ctl.Tests.Deployment.{
  parse_url, deployed, reconfigured, config_change, config_change-commits, deployed-valid, rolled,
}
use nazo_auth_ctl.Tests.Stored.{
  codec, readers, ready, params, fresh, installed, store_of, uninstalled, forbidding,
  legacy_members, artifact_members,
}

pub reads_deployed : read_deployment_state readers (3 ∷ []) ≡ some deployed
unfolding read_deployment_state
reads_deployed = ground (arith, deployed-valid)

legacy_read : read_deployment_state readers [] ≡ some deployed
unfolding read_deployment_state migrate_schema_7 validate_policy allows_artifact_rollback
    forbid_rollback get insert remove
legacy_read = ground (arith, deployed-valid)

read_deployment_state-forbids_rollback_example :
    rollback_step 3 none "op-9" 99 deployed ≢ commit rolled
unfolding allows_artifact_rollback get validate_policy
read_deployment_state-forbids_rollback_example =
    read_deployment_state-forbids_rollback readers [] legacy_members artifact_members forbidding
      (λ document state w h. ground (arith, h)) refl refl refl refl refl refl legacy_read 3 99 none
      "op-9" rolled

pub loads_deployed : load_existing codec "prod-eu.1" (store_of installed) ≡ ok deployed
unfolding load_existing read_state read_secure_regular_file files_at scope_path deployment_scope
    is_identifier_character
loads_deployed = ground (arith, reads_deployed)

abbrev pub after_change : Store
after_change =
    store_of
      (("prod-eu.1" ∷ "deployments" ∷ [], record { state = some (4 ∷ []); completion = none }) ∷ [])

pub reconfigured-valid : validate parse_url reconfigured ≡ true
unfolding validate validate_config validate_identifier is_identifier_character validate_artifact
    validate_runtime validate_resources validate_release validate_active validate_issuer
    deployment_scope
reconfigured-valid = refl

pub apply_change :
    apply codec "prod-eu.1" 3 10 config_change (store_of installed)
    ≡ (ok reconfigured, after_change)
unfolding apply persist_exact persist atomic_write files_at put_at scope_path
apply_change = simp (loads_deployed, config_change-commits)

pub scope_ok : deployment_scope "prod-eu.1" ≡ true
unfolding deployment_scope is_identifier_character
scope_ok = refl

apply-load_replay_example :
    (reconfigured ≡ reconfigured)
    × ((load_existing codec "prod-eu.1" after_change ≡ ok reconfigured)
        × (apply codec "prod-eu.1" 3 99 config_change after_change
            ≡ (ok reconfigured, after_change)))
apply-load_replay_example =
    apply-load_replay codec "prod-eu.1" 3 10 99 config_change (store_of installed) scope_ok
      loads_deployed config_change-commits (refl, (reconfigured-valid, ground arith)) apply_change

-- A text that is no legal scope leads to the files of the deployment.
traverses : scope_path "../deployments/prod-eu.1" ≡ scope_path "prod-eu.1"
unfolding scope_path
traverses = refl

apply-other_scopes_example :
    scope_files "prod-eu.1"
      (apply codec "../deployments/prod-eu.1" 3 10 config_change (store_of installed)).1.scopes
    ≡ scope_files "prod-eu.1" installed
apply-other_scopes_example =
    apply-other_scopes codec "../deployments/prod-eu.1" "prod-eu.1" 3 10 config_change
      (store_of installed) scope_ok refl

stale_refused :
    apply codec "prod-eu.1" 2 10 config_change (store_of installed)
    ≡ (err config_revision_mismatch, store_of installed)
unfolding apply mutate config_step
stale_refused = simp loads_deployed

abbrev after_install : Store
after_install =
    store_of
      (("prod-eu.1" ∷ "deployments" ∷ [], record { state = some (1 ∷ []); completion = none }) ∷ [])

fresh-valid : validate parse_url fresh ≡ true
unfolding validate validate_config validate_identifier is_identifier_character validate_artifact
    validate_runtime validate_resources validate_release validate_active validate_issuer
    deployment_scope
fresh-valid = refl

bootstraps :
    bootstrap_with_health codec "prod-eu.1" params "op-5" 10 ready (store_of [])
    ≡ (ok fresh, after_install)
unfolding bootstrap_with_health load_existing read_state read_secure_regular_file files_at
    scope_path put_at list_deployments listed sort seed validate_config validate_identifier
    is_identifier_character persist_exact persist atomic_write deployment_scope
bootstraps = simp fresh-valid

bootstrap-load_retry_example :
    (load_existing codec "prod-eu.1" after_install ≡ ok fresh)
    × (bootstrap_with_health codec "prod-eu.1" params "op-5" 99 ready after_install
        ≡ (ok fresh, after_install))
bootstrap-load_retry_example =
    bootstrap-load_retry codec "prod-eu.1" params "op-5" 10 ready 99 (store_of [])
      (refl, (fresh-valid, ground arith)) bootstraps

bootstrap-admits_example :
    ((load_existing codec "prod-eu.1" (store_of []) ≡ ok fresh)
      × ((is_producer "op-5" fresh.active_host_operation ≡ true)
          × ((fresh.local_health.healthy ≡ true) × (after_install ≡ store_of []))))
    ⊎ ((load_existing codec "prod-eu.1" (store_of []) ≡ err deployment_unknown)
        × ((validate parse_url fresh ≡ true)
            × ((fresh.runtime ≡ params.runtime)
                × ((fresh.config.revision ≡ 1)
                    × ((fresh.artifact ≡ params.artifact)
                        × ((states : List DeploymentState) × ((list_deployments codec (store_of [])
                                ≡ ok states)
                              × (any (has_port fresh.runtime.loopback_port) states ≡ false))))))))
bootstrap-admits_example =
    bootstrap-admits codec "prod-eu.1" params "op-5" 10 ready (store_of []) bootstraps

-- The completion of an uninstall, and a new state after it.
abbrev uninstalled_store : Store
uninstalled_store =
    store_of
      (("prod-eu.1" ∷ "deployments" ∷ [], record { state = none; completion = some (7 ∷ []) }) ∷ [])

abbrev reinstalled : Store
reinstalled = store_of (
    ("prod-eu.1" ∷ "deployments" ∷ [], record { state = some (1 ∷ []); completion = some (7 ∷ []) })
    ∷ [])

reads_completion : read_uninstall_completion codec (some (7 ∷ [])) ≡ ok (some uninstalled)
unfolding read_uninstall_completion read_secure_regular_file is_lower_sha256
reads_completion = refl

finds_completion :
    read_uninstall_completion codec (scope_files "prod-eu.1" uninstalled_store.scopes).completion
    ≡ ok (some uninstalled)
unfolding files_at scope_path
finds_completion = reads_completion

reinstalls : persist_exact codec "prod-eu.1" fresh uninstalled_store ≡ (ok fresh, reinstalled)
unfolding persist_exact persist atomic_write files_at put_at scope_path
reinstalls = refl

converge-keeps_new_state_example :
    converge_uninstall_completion codec "prod-eu.1" 3 "op-7" reinstalled
    ≡ (ok (completion_matches (some uninstalled) "prod-eu.1" 3 "op-7"), reinstalled)
converge-keeps_new_state_example =
    converge-keeps_new_state codec "prod-eu.1" fresh uninstalled_store uninstalled 3 "op-7" scope_ok
      finds_completion reinstalls refl

pub installed_scope :
    scope_files "prod-eu.1" installed ≡ record { state = some (3 ∷ []); completion = none }
unfolding files_at scope_path
installed_scope = refl

pub is_hash : is_lower_sha256 uninstalled.state_sha256 ≡ true
unfolding is_lower_sha256
is_hash = refl

remove_deployment-converges_example :
    (let after =
        (remove_deployment codec "prod-eu.1" 3 "op-7"
          (record { scopes = installed; fates = persisted ∷ refused ∷ [] })).1 in
      let answer = converge_uninstall_completion codec "prod-eu.1" 3 "op-7" after in
      (answer.0 ≡ ok true) × ((scope_files "prod-eu.1" answer.1.scopes).state ≡ none))
remove_deployment-converges_example =
    remove_deployment-converges codec "prod-eu.1" "op-7" 3 installed (3 ∷ []) none refused scope_ok
      installed_scope (ground arith) reads_deployed refl (refl, (refl, (is_hash, ground arith)))
