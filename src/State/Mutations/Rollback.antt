-- ===== src/State/Mutations/Rollback.antt =====
-- Rollback lineage (src/target/deployment_state.rs: apply_update_healthy_from_live,
-- apply_rollback_healthy).
use nazo_auth_ctl.Prelude.{
  ℕ, not, ◌||◌, eq_iff, ◌&&◌, if◌then◌else◌, refl, is_none, ◌===◌, ◌≢◌, String, Bool, true, false,
  Option, none, some, ◌≡◌, arith,
}
use nazo_auth_ctl.State.{DeploymentState, is_producer, ArtifactRefs, ReleaseVersion}
use nazo_auth_ctl.State.Steps.{
  commit, update_step, rollback_step, UpdateCommit, swap_generation, is_current, commit_as,
  rolled_back, swap_generation, is_current,
}

-- The generation that runs, and the one to roll back to.
abbrev pub generations :
    DeploymentState → ArtifactRefs × (Option ReleaseVersion × Option ReleaseVersion)
generations s = (s.artifact, (s.current_release, s.previous_release))

rollback_step-swaps :
    (expected : ℕ) (config : Option (String × String)) (operation_id : String) (now : ℕ)
    (s : DeploymentState) {t : DeploymentState}
    → rollback_step expected config operation_id now s ≡ commit t
    → (t.artifact.current ≡ s.artifact.previous)
      × ((t.artifact.previous ≡ s.artifact.current)
          × ((t.current_release ≡ s.previous_release)
              × ((t.previous_release ≡ s.current_release)
                  × ((t.applied_migration ≡ none)
                      × (t.active_host_operation
                          ≡ some (record { operation_id = operation_id; applied_at = now }))))))
unfolding rollback_step
rollback_step-swaps expected config operation_id now s h = ground arith

-- A state with a saved generation and no migration takes a rollback without a configuration.
rollback_step-commits :
    (operation_id : String) (now : ℕ) (t : DeploymentState)
    → is_producer operation_id t.active_host_operation ≡ false
    → t.applied_migration ≡ none
    → is_none t.artifact.previous ≡ false
    → rollback_step t.config.revision none operation_id now t
      ≡ commit_as operation_id now (rolled_back false operation_id now t t.config)
unfolding rollback_step
rollback_step-commits operation_id now t p m s = ground (arith, p, m, s)

-- A committed rollback is undone by another: when the state had a current artifact, a rollback by
-- another operation, at the new revision and without a configuration, commits, and both artifacts
-- and both releases are again those of the first state.
pub rollback_step-twice :
    (expected : ℕ) (config : Option (String × String)) (operation_id other : String) (now later : ℕ)
    (s : DeploymentState) {t : DeploymentState}
    → rollback_step expected config operation_id now s ≡ commit t
    → is_none s.artifact.current ≡ false
    → (operation_id === other) ≡ false
    → (u : DeploymentState) × ((rollback_step t.config.revision none other later t ≡ commit u)
        × (generations u ≡ generations s))
rollback_step-twice expected config operation_id other now later s {t} h c d =
    let (tc, (tp, (cr, (pr, (m, active))))) =
      rollback_step-swaps expected config operation_id now s h in
    let back = rollback_step-commits other later t (rw active d) m (rw tp c) in
    (_, (back, rw (tc, tp, cr, pr) refl))

is_current-some :
    (artifact : String) (current : Option String)
    → is_current artifact current ≡ true
    → current ≡ some artifact
is_current-some artifact none h = ground arith
is_current-some artifact (some current) h = ground (arith, eq_iff current artifact)

update_step-saves :
    (expected : ℕ) (update : UpdateCommit) (was_live : Bool) (now : ℕ) (s : DeploymentState)
    {t : DeploymentState}
    → update_step expected update was_live now s ≡ commit t
    → (t.artifact.current ≡ some update.artifact)
      × ((t.current_release ≡ update.release)
          × ((t.applied_migration ≡ none)
              × (t.active_host_operation
                  ≡ some (record { operation_id = update.operation_id; applied_at = now }))))
unfolding update_step swap_generation
update_step-saves expected update was_live now s h =
    ground (arith, is_current-some update.artifact s.artifact.current)

update_step-previous :
    (expected : ℕ) (update : UpdateCommit) (was_live : Bool) (now : ℕ) (s : DeploymentState)
    {t : DeploymentState}
    → update_step expected update was_live now s ≡ commit t
    → is_current update.artifact s.artifact.current ≡ false
    → (t.artifact.previous
        ≡ (if was_live && is_none s.applied_migration then s.artifact.current else none))
      × (t.previous_release
          ≡ (if was_live && is_none s.applied_migration then s.current_release else none))
unfolding update_step swap_generation
update_step-previous expected update was_live now s h c = ground arith

-- An update to another artifact, committed from a state with a current artifact and no recorded
-- migration while the recorded artifact was the live one, can be rolled back: a rollback by
-- another operation at the new revision commits, runs the artifact and the release of before the
-- update again, and keeps the update's artifact as the saved one.
pub update_step-rollback :
    (expected : ℕ) (update : UpdateCommit) (other : String) (now later : ℕ) (s : DeploymentState)
    {t : DeploymentState}
    → update_step expected update true now s ≡ commit t
    → s.applied_migration ≡ none
    → is_none s.artifact.current ≡ false
    → is_current update.artifact s.artifact.current ≡ false
    → (update.operation_id === other) ≡ false
    → (u : DeploymentState) × ((rollback_step t.config.revision none other later t ≡ commit u)
        × ((u.artifact.current ≡ s.artifact.current)
            × ((u.current_release ≡ s.current_release)
                × (u.artifact.previous ≡ some update.artifact))))
update_step-rollback expected update other now later s {t} h m c changed d =
    let (tc, (cr, (am, active))) = update_step-saves expected update true now s h in
    let (tp, pr) = update_step-previous expected update true now s h changed in
    let saved : t.artifact.previous ≡ s.artifact.current = rw (tp, m) refl in
    let release : t.previous_release ≡ s.current_release = rw (pr, m) refl in
    let back = rollback_step-commits other later t (rw active d) am (rw saved c) in
    (_, (back, (saved, (release, tc))))

-- A state without a saved generation.
pub rollback_step-unavailable :
    (expected : ℕ) (config : Option (String × String)) (operation_id : String) (now : ℕ)
    (t : DeploymentState)
    → t.artifact.previous ≡ none
    → (u : DeploymentState) → rollback_step expected config operation_id now t ≢ commit u
unfolding rollback_step
rollback_step-unavailable expected config operation_id now t p u h = ground (arith, p)

-- After an update that replaced the artifact or the configuration while the recorded artifact was
-- not the live one, no rollback commits, whatever it asks for.
update_step-drifted :
    (expected : ℕ) (update : UpdateCommit) (now : ℕ) (s : DeploymentState) {t : DeploymentState}
    → update_step expected update false now s ≡ commit t
    → (not (is_current update.artifact s.artifact.current) || not (is_none update.config)) ≡ true
    → (at later : ℕ) (config : Option (String × String)) (operation_id : String)
      (u : DeploymentState)
    → rollback_step at config operation_id later t ≢ commit u
unfolding update_step swap_generation
update_step-drifted expected update now s {t} h replaced at later config operation_id =
    rollback_step-unavailable at config operation_id later t (ground arith)
