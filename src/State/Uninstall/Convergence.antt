-- ===== src/State/Uninstall/Convergence.antt =====
-- Uninstalls that are interrupted, and retried later (src/target/deployment_state.rs:
-- remove_deployment, converge_uninstall_completion).
use nazo_auth_ctl.Prelude.{
  ℕ, ◌≤◌, ◌≡◌, refl, Bool-cases, inl, inr, ◌==◌, String, Bool, true, false, none, some, List, [],
  ◌∷◌, ◌⊎◌, length, le→leb, ◌===◌, eq_refl, arith,
}
use nazo_auth_ctl.Prelude.Exec.{Outcome, ok}
use nazo_auth_ctl.Disk.{
  File, WriteFate, persisted, refused, torn, unsynced, atomic_write, remove_file_durable,
  read_secure_regular_file,
}
use nazo_auth_ctl.Identifiers.{deployment_scope, is_lower_sha256}
use nazo_auth_ctl.State.{DeploymentState, Failure}
use nazo_auth_ctl.State.Legacy.{read_deployment_state}
use nazo_auth_ctl.State.Places.{Place}
use nazo_auth_ctl.State.Store.{
  Codec, Store, Scope, UninstallCompletion, scope_files, put_scope, max_state_bytes, persist_exact,
}
use nazo_auth_ctl.State.Store.Applying.{scope_files-put_scope, persist_exact-ok}
use nazo_auth_ctl.State.Uninstall.{
  uninstall_completion_schema, completion_matches, remove_state, write_uninstall_completion,
  read_uninstall_completion, remove_deployment, converge_uninstall_completion, max_completion_bytes,
}

module _ (codec : Codec) (id : String) where
  -- The proof that an uninstall leaves.
  abbrev pub proof_of : String → ℕ → List ℕ → UninstallCompletion
  proof_of operation_id expected bytes = record {
    schema = uninstall_completion_schema;
    deployment_id = id;
    operation_id = operation_id;
    revision = expected;
    state_sha256 = codec.sha256 bytes;
  }

  -- A completion that reads back from what is written for it.
  abbrev pub IsReadable : UninstallCompletion → Type 0
  IsReadable completion =
      (codec.decode_completion (codec.encode_completion completion) ≡ some completion)
      × ((completion.schema ≡ uninstall_completion_schema)
          × ((is_lower_sha256 completion.state_sha256 ≡ true)
              × (length (codec.encode_completion completion) ≤ max_completion_bytes)))

  read_uninstall_completion-encode :
      (completion : UninstallCompletion)
      → IsReadable completion
      → read_uninstall_completion codec (some (codec.encode_completion completion))
        ≡ ok (some completion)
  unfolding read_uninstall_completion read_secure_regular_file
  read_uninstall_completion-encode completion (d, (s, (h, fits))) =
      ground (arith, le→leb _ _ fits, d, s, h)

  -- After the proof of an uninstall was read, a durable write of a state keeps it, and a retry of
  -- any uninstall in that scope leaves the store as it is and answers whether the proof is its own,
  -- unless the written document has the hash that the proof names.
  pub converge-keeps_new_state :
      (t : DeploymentState) (store : Store) (completion : UninstallCompletion) (expected : ℕ)
      (operation_id : String) {r : DeploymentState} {after : Store}
      → deployment_scope id ≡ true
      → read_uninstall_completion codec (scope_files id store.scopes).completion
        ≡ ok (some completion)
      → persist_exact codec id t store ≡ (ok r, after)
      → (codec.sha256 (codec.encode t) === completion.state_sha256) ≡ false
      → converge_uninstall_completion codec id expected operation_id after
        ≡ (ok (completion_matches (some completion) id expected operation_id), after)
  unfolding converge_uninstall_completion
  converge-keeps_new_state t store completion expected operation_id {r} {after} d c h new =
      let (same, e) = persist_exact-ok codec id t store h in
      let scope : scope_files id after.scopes
          ≡ (record (scope_files id store.scopes) { state = some (codec.encode t) }) =
        rw e (scope_files-put_scope id _ store.scopes) in
      elim (Bool-cases (completion_matches (some completion) id expected operation_id)) [
        | inl m ↦ rw (d, scope, c, m, new) refl
        | inr m ↦ rw (d, scope, c, m) refl
      ]

  -- One deployment's files, and the fates of the writes to come.
  abbrev AtScope : File → File → List (Place × Scope) → Type 0
  AtScope state completion scopes =
      scope_files id scopes ≡ record { state = state; completion = completion }

  -- The first part of an uninstall: the proof is written before the state is removed.
  remove_deployment-proof :
      (operation_id : String) (expected : ℕ) (scopes : List (Place × Scope)) (bytes : List ℕ)
      (old : File) (fate : WriteFate) {s : DeploymentState}
      → deployment_scope id ≡ true
      → AtScope (some bytes) old scopes
      → length bytes ≤ max_state_bytes
      → read_deployment_state codec.readers bytes ≡ some s
      → s.config.revision ≡ expected
      → remove_deployment codec id expected operation_id
          (record { scopes = scopes; fates = persisted ∷ fate ∷ [] })
        ≡ remove_state tt id (record {
          scopes =
              put_scope id
                (record {
                  state = some bytes;
                  completion =
                      some (codec.encode_completion (proof_of operation_id expected bytes));
                })
                scopes;
          fates = fate ∷ [];
        })
  unfolding remove_deployment write_uninstall_completion read_secure_regular_file atomic_write
  remove_deployment-proof operation_id expected scopes bytes old fate {s} d st fits rd rev =
      let due : (expected == expected) ≡ true = ground arith in
      simp (d, st, le→leb _ _ fits, rd, due, rev)

  -- The file that the removal of the state leaves.
  abbrev left_by : WriteFate → List ℕ → File
  left_by fate bytes = (remove_file_durable fate (some bytes)).0

  remove_state-left_by :
      (fate : WriteFate) (scopes : List (Place × Scope)) (bytes : List ℕ) (completion : File)
      → AtScope (some bytes) completion scopes
      → (remove_state tt id (record { scopes = scopes; fates = fate ∷ [] })).1 ≡ record {
        scopes =
            put_scope id (record { state = left_by fate bytes; completion = completion }) scopes;
        fates = [];
      }
  unfolding remove_state remove_file_durable
  remove_state-left_by persisted scopes bytes completion e = simp e
  remove_state-left_by refused scopes bytes completion e = simp e
  remove_state-left_by (torn n) scopes bytes completion e = simp e
  remove_state-left_by unsynced scopes bytes completion e = simp e

  abbrev IsGone : Outcome Failure Bool × Store → Type 0
  IsGone answer = (answer.0 ≡ ok true) × ((scope_files id answer.1.scopes).state ≡ none)

  -- A retry after the proof was written: the document that it proves is gone afterwards.
  converge-removes :
      (operation_id : String) (expected : ℕ) (bytes : List ℕ) (scopes : List (Place × Scope))
      (state : File)
      → deployment_scope id ≡ true
      → IsReadable (proof_of operation_id expected bytes)
      → (state ≡ none) ⊎ (state ≡ some bytes)
      → AtScope state (some (codec.encode_completion (proof_of operation_id expected bytes))) scopes
      → IsGone (
          converge_uninstall_completion codec id expected operation_id
            (record { scopes = scopes; fates = [] }))
  unfolding converge_uninstall_completion remove_state remove_file_durable completion_matches
  converge-removes operation_id expected bytes scopes none d readable cases e =
      let read = read_uninstall_completion-encode (proof_of operation_id expected bytes) readable in
      let due : (expected == expected) ≡ true = ground arith in
      simp (d, e, read, due, eq_refl id, eq_refl operation_id) (refl, refl)
  converge-removes operation_id expected bytes scopes (some other) d readable cases e =
      let read = read_uninstall_completion-encode (proof_of operation_id expected bytes) readable in
      let due : (expected == expected) ≡ true = ground arith in
      let same : other ≡ bytes = ground arith in
      simp
        (
          d,
          e,
          read,
          due,
          eq_refl id,
          eq_refl operation_id,
          same,
          eq_refl (codec.sha256 bytes),
          scope_files-put_scope id _ scopes,
        )
        (refl, refl)

  left_by-cases :
      (fate : WriteFate) (bytes : List ℕ)
      → (left_by fate bytes ≡ none) ⊎ (left_by fate bytes ≡ some bytes)
  unfolding remove_file_durable
  left_by-cases persisted bytes = inl refl
  left_by-cases refused bytes = inr refl
  left_by-cases (torn n) bytes = inr refl
  left_by-cases unsynced bytes = inl refl

  -- An uninstall whose proof was written is finished by a retry, whatever the removal of the state
  -- met: after remove_deployment of a readable state at the expected revision in a legal scope,
  -- with a durable first write, the fate of its second write arbitrary and later writes durable,
  -- and a proof that reads back, converge_uninstall_completion of the same operation returns true
  -- and leaves no state document.
  pub remove_deployment-converges :
      (operation_id : String) (expected : ℕ) (scopes : List (Place × Scope)) (bytes : List ℕ)
      (old : File) (fate : WriteFate) {s : DeploymentState}
      → deployment_scope id ≡ true
      → scope_files id scopes ≡ record { state = some bytes; completion = old }
      → length bytes ≤ max_state_bytes
      → read_deployment_state codec.readers bytes ≡ some s
      → s.config.revision ≡ expected
      → IsReadable (proof_of operation_id expected bytes)
      → IsGone (
          converge_uninstall_completion codec id expected operation_id
            (remove_deployment codec id expected operation_id
              (record { scopes = scopes; fates = persisted ∷ fate ∷ [] })).1)
  remove_deployment-converges operation_id expected scopes bytes old fate d e fits rd rev readable =
      let proof = some (codec.encode_completion (proof_of operation_id expected bytes)) in
      let proved = put_scope id (record { state = some bytes; completion = proof }) scopes in
      let first =
        remove_deployment-proof operation_id expected scopes bytes old fate d e fits rd rev in
      let second =
        remove_state-left_by fate proved bytes proof (scope_files-put_scope id _ scopes) in
      simp (first, second)
        (converge-removes operation_id expected bytes
          (put_scope id (record { state = left_by fate bytes; completion = proof }) proved)
          (left_by fate bytes) d readable (left_by-cases fate bytes)
          (scope_files-put_scope id _ proved))
