-- ===== src/State/Legacy/Forbidden.antt =====
-- What the reader of stored documents guarantees (src/target/persistence.rs).
use nazo_auth_ctl.Prelude.{
  ℕ, ◌≡◌, ◌≢◌, refl, ◌∙◌, String, true, false, Option, none, some, List, ◌===◌, eq_iff, eq_refl,
  arith, Option-cases, inl, inr,
}
use nazo_auth_ctl.State.{DeploymentState, deployment_state_schema}
use nazo_auth_ctl.State.Validation.{validate}
use nazo_auth_ctl.State.Steps.{commit, rollback_step}
use nazo_auth_ctl.State.Mutations.Rollback.{rollback_step-unavailable}
use nazo_auth_ctl.State.Legacy.{
  Value, null, object, boolean, number, text, array, Members, empty, member, get, remove, insert,
  Readers, allows_artifact_rollback, forbid_rollback, required_policy, migrated_migration,
  with_schema, migrate_schema_7, read_deployment_state, LegacyRollbackPolicy,
  without_previous_artifact,
}

get-insert :
    (key : String) (value : Value) (members : Members)
    → get key (insert key value members) ≡ some value
unfolding get insert
get-insert key value empty = rw (eq_refl key) refl
get-insert key value (member k v members) =
    ground (arith, get-insert key value members, eq_refl key)

get-insert_other :
    (key other : String) (value : Value) (members : Members)
    → (other === key) ≡ false
    → get key (insert other value members) ≡ get key members
unfolding get insert
get-insert_other key other value empty d = rw d refl
get-insert_other key other value (member k v members) d = ground (
  arith,
  d,
  get-insert_other key other value members d,
  eq_iff k other,
  eq_iff k key,
  eq_iff other key,
)

get-remove_other :
    (key other : String) (members : Members)
    → (other === key) ≡ false
    → get key (remove other members) ≡ get key members
unfolding get remove
get-remove_other key other empty d = refl
get-remove_other key other (member k v members) d =
    ground (
      arith,
      d,
      get-remove_other key other members d,
      eq_iff k other,
      eq_iff k key,
      eq_iff other key,
    )

-- A document whose saved artifact is null.
abbrev pub IsWithoutPrevious : Members → Type 0
IsWithoutPrevious members =
    (artifact : Members) × ((get "artifact" members ≡ some (object artifact))
      × (get "previous" artifact ≡ some null))

forbid_rollback-IsWithoutPrevious :
    (members artifact : Members)
    → get "artifact" members ≡ some (object artifact)
    → IsWithoutPrevious (forbid_rollback members)
unfolding forbid_rollback
forbid_rollback-IsWithoutPrevious members artifact e =
    let cleared = object (insert "previous" null artifact) in
    (
      insert "previous" null artifact,
      (
        get-remove_other "artifact" "previous_release"
              (without_previous_artifact (get "artifact" members) members) refl
            ∙ rw e (get-insert "artifact" cleared members),
        get-insert "previous" null artifact,
      ),
    )

module _ (readers : Readers) where
  -- Every document that is read, of either format, passes the structural checks.
  read_deployment_state-validate :
      (bytes : List ℕ) {s : DeploymentState}
      → read_deployment_state readers bytes ≡ some s
      → validate readers.parse_url s ≡ true
  unfolding read_deployment_state
  read_deployment_state-validate bytes h = ground arith

  migrated_migration-artifact :
      (migration : Option Value) (members : Members) {migrated : Members}
      → migrated_migration readers migration members ≡ some migrated
      → get "artifact" migrated ≡ get "artifact" members
  migrated_migration-artifact none members h = ground arith
  migrated_migration-artifact (some (object migration)) members h =
      let kept =
        get-insert_other "artifact" "applied_migration"
          (object (remove "rollback_policy" migration)) members refl in
      ground (arith, kept)
  migrated_migration-artifact (some null) members h = ground arith
  migrated_migration-artifact (some (boolean b)) members h = ground arith
  migrated_migration-artifact (some (number n)) members h = ground arith
  migrated_migration-artifact (some (text t)) members h = ground arith
  migrated_migration-artifact (some (array values)) members h = ground arith

  same_artifact :
      (members others : Members)
      → get "artifact" others ≡ get "artifact" members
      → IsWithoutPrevious members
      → IsWithoutPrevious others
  same_artifact members others e (artifact, (a, p)) = (artifact, (e ∙ a, p))

  with_schema-IsWithoutPrevious :
      (migrated : Option Members) {document : Value}
      → ((members : Members) → migrated ≡ some members → IsWithoutPrevious members)
      → with_schema readers migrated ≡ some document
      → (members : Members) × ((document ≡ object members) × IsWithoutPrevious members)
  with_schema-IsWithoutPrevious none kept h = ground arith
  with_schema-IsWithoutPrevious (some members) kept h =
      let tagged = insert "schema" (number deployment_state_schema) members in
      (
        tagged,
        (
          ground arith,
          same_artifact members tagged
              (get-insert_other "artifact" "schema" (number deployment_state_schema) members refl)
              (kept members refl),
        ),
      )

  migrate_schema_7-IsWithoutPrevious :
      (members artifact : Members) (policy : LegacyRollbackPolicy) {document : Value}
      → required_policy readers (get "current_rollback_policy" members) ≡ some policy
      → allows_artifact_rollback policy ≡ false
      → get "artifact" members ≡ some (object artifact)
      → migrate_schema_7 readers (object members) ≡ some document
      → (after : Members) × ((document ≡ object after) × IsWithoutPrevious after)
  unfolding migrate_schema_7
  migrate_schema_7-IsWithoutPrevious members artifact policy {document} r a e h =
      let first = remove "current_rollback_policy" members in
      let rest = remove "previous_rollback_policy" first in
      let kept = forbid_rollback rest in
      let found : get "artifact" rest ≡ some (object artifact) =
        get-remove_other "artifact" "previous_rollback_policy" first refl
        ∙ get-remove_other "artifact" "current_rollback_policy" members refl
        ∙ e in
      let cleared = forbid_rollback-IsWithoutPrevious rest artifact found in
      with_schema-IsWithoutPrevious (migrated_migration readers (get "applied_migration" kept) kept)
        (λ migrated m.
          same_artifact kept migrated
            (migrated_migration-artifact (get "applied_migration" kept) kept m) cleared)
        (ground (arith, r, a))

  -- A stored document of schema 7 whose own rollback policy forbids an artifact rollback never
  -- becomes a state that a rollback commits on, even when it names a previous artifact. The
  -- hypotheses: the current format refuses the document, it is an object with an object `artifact`
  -- and the policy is a valid one; and a document whose saved artifact is null decodes to a state
  -- without one.
  pub read_deployment_state-forbids_rollback :
      (bytes : List ℕ) (members artifact : Members) (policy : LegacyRollbackPolicy)
      {s : DeploymentState}
      → ((document : Members) (state : DeploymentState)
          → IsWithoutPrevious document
          → readers.state_of_value (object document) ≡ some state
          → state.artifact.previous ≡ none)
      → readers.decode bytes ≡ none
      → readers.decode_schema bytes ≡ some 7
      → readers.decode_value bytes ≡ some (object members)
      → required_policy readers (get "current_rollback_policy" members) ≡ some policy
      → allows_artifact_rollback policy ≡ false
      → get "artifact" members ≡ some (object artifact)
      → read_deployment_state readers bytes ≡ some s
      → (expected now : ℕ) (config : Option (String × String)) (operation_id : String)
        (u : DeploymentState)
      → rollback_step expected config operation_id now s ≢ commit u
  unfolding read_deployment_state
  read_deployment_state-forbids_rollback bytes members artifact policy {s} null_is_none d sch v r a
        e h expected now config operation_id =
      elim (Option-cases (migrate_schema_7 readers (object members))) [
        | inl refused ↦ ground (arith, d, sch, v, refused)
        | inr (document, m) ↦
            let (after, (shape, cleared)) =
              migrate_schema_7-IsWithoutPrevious members artifact policy r a e m in
            let decoded : readers.state_of_value (object after) ≡ some s =
              ground (arith, d, sch, v, m, shape) in
            rollback_step-unavailable expected config operation_id now s
              (null_is_none after s cleared decoded)
      ]
