-- ===== src/State/Store/Applying.antt =====
-- What the store holds after a method of TargetStateStore (src/target/deployment_state.rs).
use nazo_auth_ctl.Prelude.{
  ℕ, ◌≤◌, ◌≡◌, ◌≢◌, refl, sym, ◌∙◌, String, Bool, true, false, some, List, [], ◌∷◌, length, ◌===◌,
  Bool-cases, inl, inr, arith,
}
use nazo_auth_ctl.Prelude.Exec.{Outcome, ok, err}
use nazo_auth_ctl.Disk.{File, next_fate, atomic_write, read_secure_regular_file}
use nazo_auth_ctl.Identifiers.{deployment_scope}
use nazo_auth_ctl.State.{DeploymentState, Failure, deployment_unknown}
use nazo_auth_ctl.State.Validation.{validate}
use nazo_auth_ctl.State.Steps.{Step, replay, refuse, commit}
use nazo_auth_ctl.State.Mutations.{Mutation, mutate}
use nazo_auth_ctl.State.Mutations.Replay.{mutate-replay}
use nazo_auth_ctl.State.Legacy.{read_deployment_state}
use nazo_auth_ctl.State.Places.{Place, same_place, scope_path}
use nazo_auth_ctl.State.Places.Legal.{scope_path-deployment_scope, same_place-eq, same_place_refl}
use nazo_auth_ctl.State.Store.{
  Codec, Scope, Store, files_at, put_at, scope_files, put_scope, max_state_bytes, read_state,
  load_existing, persist, persist_exact, persisted_as, put_state, conclude, apply_loaded, apply,
}

files_at-put_at :
    (place : Place) (scope : Scope) (scopes : List (Place × Scope))
    → files_at place (put_at place scope scopes) ≡ scope
unfolding files_at put_at
files_at-put_at place scope [] = rw (same_place_refl place) refl
files_at-put_at place scope ((at, other) ∷ scopes) =
    ground (arith, files_at-put_at place scope scopes)

files_at-put_at_other :
    (place other : Place) (scope : Scope) (scopes : List (Place × Scope))
    → same_place place other ≡ false
    → files_at other (put_at place scope scopes) ≡ files_at other scopes
unfolding files_at put_at
files_at-put_at_other place other scope [] d = rw d refl
files_at-put_at_other place other scope ((at, o) ∷ scopes) d =
    ground (arith, same_place-eq at place, d, files_at-put_at_other place other scope scopes d)

pub scope_files-put_scope :
    (id : String) (scope : Scope) (scopes : List (Place × Scope))
    → scope_files id (put_scope id scope scopes) ≡ scope
scope_files-put_scope id scope scopes = files_at-put_at (scope_path id) scope scopes

-- The files of other places are left alone.
scope_files-put_scope_other :
    (id other : String) (scope : Scope) (scopes : List (Place × Scope))
    → same_place (scope_path id) (scope_path other) ≡ false
    → scope_files other (put_scope id scope scopes) ≡ scope_files other scopes
scope_files-put_scope_other id other scope scopes d =
    files_at-put_at_other (scope_path id) (scope_path other) scope scopes d

-- Different legal scopes are in different places.
separate :
    (id other : String)
    → deployment_scope id ≡ true
    → deployment_scope other ≡ true
    → (id === other) ≡ false
    → same_place (scope_path id) (scope_path other) ≡ false
separate id other h k d =
    rw (scope_path-deployment_scope id h, scope_path-deployment_scope other k) (ground (arith, d))

module _ (codec : Codec) where
  -- A state that reads back from what is written for it.
  abbrev pub IsStorable : DeploymentState → Type 0
  IsStorable t =
      (codec.readers.decode (codec.encode t) ≡ some t)
      × ((validate codec.readers.parse_url t ≡ true) × (length (codec.encode t) ≤ max_state_bytes))

  pub read_state-encode :
      (t : DeploymentState) → IsStorable t → read_state codec (some (codec.encode t)) ≡ ok t
  unfolding read_state read_deployment_state read_secure_regular_file
  read_state-encode t (d, (v, fits)) = ground (arith, fits, d, v)

  -- The scopes after a write of a state that returned.
  abbrev written_state : String → DeploymentState → Store → List (Place × Scope)
  written_state id t store =
      put_scope id (record (scope_files id store.scopes) { state = some (codec.encode t) })
        store.scopes

  pub persist_exact-ok :
      (id : String) (t : DeploymentState) (store : Store) {r : DeploymentState} {after : Store}
      → persist_exact codec id t store ≡ (ok r, after)
      → (r ≡ t) × (after.scopes ≡ written_state id t store)
  unfolding persist_exact persist atomic_write
  persist_exact-ok id t store h = ground arith

  load_existing-written :
      (id : String) (t : DeploymentState) (store after : Store)
      → IsStorable t
      → deployment_scope id ≡ true
      → after.scopes ≡ written_state id t store
      → load_existing codec id after ≡ ok t
  unfolding load_existing
  load_existing-written id t store after s d e =
      rw (d, e, scope_files-put_scope id _ store.scopes, read_state-encode t s) refl

  pub load_existing-persist_exact :
      (id : String) (t : DeploymentState) (store : Store) {r : DeploymentState} {after : Store}
      → IsStorable t
      → deployment_scope id ≡ true
      → persist_exact codec id t store ≡ (ok r, after)
      → (r ≡ t) × (load_existing codec id after ≡ ok t)
  load_existing-persist_exact id t store {r} {after} s d h =
      let (same, e) = persist_exact-ok id t store h in
      (same, load_existing-written id t store after s d e)

  put_state-other :
      (id other : String) (t : DeploymentState) (store : Store) (scope : Scope)
      (write : File × Bool)
      → same_place (scope_path id) (scope_path other) ≡ false
      → scope_files other (persisted_as codec t (put_state codec id store scope write)).1.scopes
        ≡ scope_files other store.scopes
  put_state-other id other t store scope (file, true) d =
      scope_files-put_scope_other id other (record scope { state = file }) store.scopes d
  put_state-other id other t store scope (file, false) d =
      scope_files-put_scope_other id other (record scope { state = file }) store.scopes d

  persist_exact-other :
      (id other : String) (t : DeploymentState) (store : Store)
      → same_place (scope_path id) (scope_path other) ≡ false
      → scope_files other (persist_exact codec id t store).1.scopes ≡ scope_files other store.scopes
  unfolding persist_exact persist
  persist_exact-other id other t store d =
      let scope = scope_files id store.scopes in
      put_state-other id other t store scope
        (atomic_write (next_fate store.fates) (codec.encode t) scope.state) d

  conclude-other :
      (id other : String) (s : DeploymentState) (step : Step) (store : Store)
      → same_place (scope_path id) (scope_path other) ≡ false
      → scope_files other (conclude codec id s step store).1.scopes ≡ scope_files other store.scopes
  conclude-other id other s replay store d = refl
  conclude-other id other s (refuse failure) store d = refl
  conclude-other id other s (commit t) store d = persist_exact-other id other t store d

  apply_loaded-other :
      (id other : String) (expected now : ℕ) (m : Mutation)
      (loaded : Outcome Failure DeploymentState) (store : Store)
      → same_place (scope_path id) (scope_path other) ≡ false
      → scope_files other (apply_loaded codec id expected now m loaded store).1.scopes
        ≡ scope_files other store.scopes
  apply_loaded-other id other expected now m (ok s) store d = conclude-other id other s _ store d
  apply_loaded-other id other expected now m (err failure) store d = refl

  -- A mutation that is sent for any text leaves the files of a legal deployment with another id as
  -- they were, whether it commits, is refused or fails to write, and even where the path of the text
  -- would lead to those files.
  pub apply-other_scopes :
      (id other : String) (expected now : ℕ) (m : Mutation) (store : Store)
      → deployment_scope other ≡ true
      → (id === other) ≡ false
      → scope_files other (apply codec id expected now m store).1.scopes
        ≡ scope_files other store.scopes
  unfolding apply load_existing
  apply-other_scopes id other expected now m store legal d =
      elim (Bool-cases (deployment_scope id)) [
        | inl admitted ↦
            apply_loaded-other id other expected now m _ store (separate id other admitted legal d)
        | inr refused ↦ rw refused refl
      ]

  -- A mutation that returned is durable and is answered again without an effect: the next load
  -- returns the state that it returned, and the same mutation sent again at any time returns that
  -- state and leaves the store alone. It is stated for a legal scope and a committed step whose
  -- state is valid and reads back from its file.
  pub apply-load_replay :
      (id : String) (expected now later : ℕ) (m : Mutation) (store : Store)
      {s t r : DeploymentState} {after : Store}
      → deployment_scope id ≡ true
      → load_existing codec id store ≡ ok s
      → mutate codec.readers.parse_url expected now m s ≡ commit t
      → IsStorable t
      → apply codec id expected now m store ≡ (ok r, after)
      → (r ≡ t)
        × ((load_existing codec id after ≡ ok t)
            × (apply codec id expected later m after ≡ (ok t, after)))
  unfolding apply
  apply-load_replay id expected now later m store {s} {t} {r} {after} d l c storable h =
      let computed : apply codec id expected now m store ≡ persist_exact codec id t store =
        rw (l, c) refl in
      let written = sym computed ∙ h in
      let (same, loads) = load_existing-persist_exact id t store storable d written in
      let again = mutate-replay codec.readers.parse_url expected now later m s c in
      (same, (loads, rw (loads, again) refl))

  -- A mutation that fails with anything but a write error leaves the whole store as it was.
  apply-refused :
      (id : String) (expected now : ℕ) (m : Mutation) (store : Store) {failure : Failure}
      {after : Store}
      → apply codec id expected now m store ≡ (err failure, after)
      → failure ≢ deployment_unknown
      → after ≡ store
  unfolding apply persist_exact persist
  apply-refused id expected now m store h d = ground arith
