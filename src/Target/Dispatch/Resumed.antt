-- ===== src/Target/Dispatch/Resumed.antt =====
-- Operations that were interrupted after their effect (src/target/mod.rs: execute_journaled_validated
-- over src/target/journal.rs and src/target/deployment_state.rs).
use nazo_auth_ctl.Prelude.{
  ℕ, ◌≤◌, ◌≡◌, refl, arith, String, true, false, Option, none, some, List, [], ◌∷◌, eq_refl, All,
  length,
}
use nazo_auth_ctl.Prelude.Exec.{ok}
use nazo_auth_ctl.Disk.{Disk, WriteFate, persisted}
use nazo_auth_ctl.Identifiers.{ParsedUrl, deployment_scope}
use nazo_auth_ctl.State.{DeploymentState, is_producer}
use nazo_auth_ctl.State.Steps.{commit, rollback_step}
use nazo_auth_ctl.State.Mutations.{mutate, apply_config, apply_rollback}
use nazo_auth_ctl.State.Store.{Codec, Store, load_existing, apply}
use nazo_auth_ctl.State.Store.Applying.{IsStorable, apply-load_replay}
use nazo_auth_ctl.Journal
use nazo_auth_ctl.Journal.{JournalBounds, JournalLine, encode_all}
use nazo_auth_ctl.Journal.Reading.RoundTrip.{IsStored}
use nazo_auth_ctl.Journal.Running.{
  terminal_line, pending_line, operation_hash, scope_is_legal, is_update_noop, stays_pending,
}
use nazo_auth_ctl.Journal.Running.Scan.{IsForeign}
use nazo_auth_ctl.Journal.Running.Steady.{IsSteady-append}
use nazo_auth_ctl.Journal.Running.Fresh.{HasRoom, opened, closed, whole}
use nazo_auth_ctl.Journal.Running.Retry.{run_journaled_resumes, IsForeign-Agrees}
use nazo_auth_ctl.Wire.{
  HostOperation, HostOperationBody, StateMutationPayload, HostCompletionBody, HostOutcome,
  HostResult, completed_result, requires_journal,
}
use nazo_auth_ctl.Wire.Admission.{Formats, validate_operation}
use nazo_auth_ctl.Target.{Target, Host}
use nazo_auth_ctl.Target.Lifecycle.{answer_apply_config, answer_rollback}
use nazo_auth_ctl.Target.Dispatch.{
  handler, mutation_handler, dispatch_validated_host_operation, execute_validated, executor,
  execute_journaled_validated, execute_host_operation,
}

rolled_back-is_producer :
    (parse_url : String → Option ParsedUrl) (expected now : ℕ) (config : Option (String × String))
    (operation_id : String) (s : DeploymentState) {t : DeploymentState}
    → mutate parse_url expected now (apply_rollback config operation_id) s ≡ commit t
    → is_producer operation_id t.active_host_operation ≡ true
unfolding mutate rollback_step
rolled_back-is_producer parse_url expected now config operation_id s h =
    ground (arith, h, eq_refl operation_id)

applied-is_update_noop :
    (body : HostOperationBody) (revision : ℕ)
    → is_update_noop body
        (HostOutcome.completed (HostCompletionBody.state_mutate_applied revision none))
      ≡ false
unfolding is_update_noop
applied-is_update_noop body revision = ground arith

module _ {T : Type 0} (codec : Codec) (host : Host T) (operation : HostOperation) (id : String)
    (expected : ℕ) (bound : operation.deployment_id ≡ some id)
    (due : operation.expected_revision ≡ some expected) where
  -- The answer of a mutation that left this state.
  abbrev pub applied_result : DeploymentState → HostResult
  applied_result t =
      completed_result operation.operation_id
        (HostCompletionBody.state_mutate_applied t.config.revision none)

  executor-config :
      (now : ℕ) (reference schema : String) (target : Target T) {t : DeploymentState}
      {after : Store}
      → operation.operation
        ≡ HostOperationBody.state_mutate (StateMutationPayload.apply_config reference schema)
      → apply codec id expected now
          (apply_config reference schema operation.operation_id)
          target.store
        ≡ (ok t, after)
      → executor codec host now operation target
        ≡ (applied_result t, record target { store = after })
  unfolding executor execute_validated dispatch_validated_host_operation handler mutation_handler
      answer_apply_config
  executor-config now reference schema target o a = simp (o, bound, due, a) refl

  executor-rollback :
      (now : ℕ) (target : Target T) {t : DeploymentState}
      → operation.operation ≡ HostOperationBody.state_mutate StateMutationPayload.rollback
      → load_existing codec id target.store ≡ ok t
      → is_producer operation.operation_id t.active_host_operation ≡ true
      → executor codec host now operation target ≡ (applied_result t, target)
  unfolding executor execute_validated dispatch_validated_host_operation handler mutation_handler
      answer_rollback
  executor-rollback now target o l p = simp (o, bound, due, l, p) refl

  -- The crash came after the effect and before the terminal line: the journal holds the pending
  -- line of this request as its newest line, and the writes of the retry are durable.
  module _ (formats : Formats) (v : validate_operation formats operation ≡ ok tt) (now : ℕ)
      (journal : Journal.Codec) (bounds : JournalBounds) (accepted finished : ℕ)
      (legal : deployment_scope id ≡ true) (lines : List JournalLine) (fresh : Disk)
      (foreign : All (IsForeign operation.operation_id) lines)
      (room : HasRoom journal accepted operation lines bounds fresh) (crashed : Disk)
      (later : List WriteFate)
      (kept : crashed
        ≡ whole journal (opened journal accepted operation lines) (persisted ∷ later)) where
    -- The run that answers with the state's revision, and closes the journal around the same target.
    abbrev IsAnswered : Target T → DeploymentState → Type 0
    IsAnswered target t =
        execute_host_operation codec host now journal bounds accepted finished formats operation
          (record { disk = crashed; target = target })
        ≡ (
          ok (applied_result t),
          record {
            disk =
                whole journal (closed journal accepted operation lines finished (applied_result t))
                  later;
            target = target;
          },
        )

    resumed :
        (target : Target T) (t : DeploymentState) (mutation : StateMutationPayload)
        → operation.operation ≡ HostOperationBody.state_mutate mutation
        → executor codec host now operation target ≡ (applied_result t, target)
        → IsStored journal (terminal_line journal finished operation (applied_result t))
        → length (
            encode_all journal
              (closed journal accepted operation lines finished (applied_result t)))
          ≤ bounds.max_bytes
        → IsAnswered target t
    unfolding execute_host_operation execute_journaled_validated requires_journal is_update_noop
        stays_pending completed_result
    resumed target t mutation o e stored fits =
        let line = pending_line journal accepted operation in
        let disk : Disk =
          whole journal (opened journal accepted operation lines) (persisted ∷ later) in
        let steady =
          IsSteady-append journal bounds lines line fresh disk room.steady room.pending_stored
            room.fits refl in
        let agree =
          IsForeign-Agrees operation.operation_id (operation_hash journal operation) lines
            foreign in
        rw (v, journaled, kept)
          (run_journaled_resumes journal bounds accepted finished operation scope
            (executor codec host now) lines [] line (record { disk = disk; target = target })
            (applied_result t) target later steady agree refl refl refl tt e refl noop refl stored
            fits)
      where
        scope : scope_is_legal operation.deployment_id ≡ true
        scope = rw bound legal

        journaled : requires_journal operation.operation ≡ true
        journaled = rw o refl

        noop : is_update_noop operation.operation (applied_result t).outcome ≡ false
        noop = applied-is_update_noop operation.operation t.config.revision

    -- A configuration is applied once across a crash between its commit and its terminal line: the
    -- retry at any later time answers exactly what the interrupted run would have, leaves the target as
    -- that run left it, and closes the journal. The conditions: an admitted operation bound to a legal
    -- scope, a committed step whose state is valid and reads back, a journal that had room for the
    -- pending line and no line of the operation before it, durable writes of the retry, and a terminal
    -- line that reads back and fits the limits.
    pub config-resumes :
        (earlier : ℕ) (reference schema : String) (target : Target T) {s t r : DeploymentState}
        {after : Store}
        → operation.operation
          ≡ HostOperationBody.state_mutate (StateMutationPayload.apply_config reference schema)
        → load_existing codec id target.store ≡ ok s
        → mutate codec.readers.parse_url expected earlier
            (apply_config reference schema operation.operation_id)
            s
          ≡ commit t
        → IsStorable codec t
        → apply codec id expected earlier
            (apply_config reference schema operation.operation_id)
            target.store
          ≡ (ok r, after)
        → IsStored journal (terminal_line journal finished operation (applied_result t))
        → length (
            encode_all journal
              (closed journal accepted operation lines finished (applied_result t)))
          ≤ bounds.max_bytes
        → (executor codec host earlier operation target
            ≡ (applied_result t, record target { store = after }))
          × IsAnswered (record target { store = after }) t
    config-resumes earlier reference schema target {s} {t} {r} {after} o l c storable a stored
          fits =
        let m = apply_config reference schema operation.operation_id in
        let retried = record target { store = after } in
        let (same, (_, again)) =
          apply-load_replay codec id expected earlier now m target.store legal l c storable a in
        let mutation = StateMutationPayload.apply_config reference schema in
        (
          executor-config earlier reference schema target o (rw same at a),
          resumed retried t mutation o (executor-config now reference schema retried o again) stored
              fits,
        )

    -- A rollback that committed before a crash is answered from its state: the retry at any later time
    -- answers with the revision of the committed state and closes the journal, and whatever the executor
    -- of rollbacks would do, the target stays as the crash left it. The conditions: an admitted operation
    -- bound to a legal scope, a committed step whose state is valid and reads back, a journal that had
    -- room for the pending line and no line of the operation before it, durable writes of the retry, and
    -- a terminal line that reads back and fits the limits.
    pub rollback-resumes :
        (earlier : ℕ) (config : Option (String × String)) (target : Target T)
        {s t r : DeploymentState} {after : Store}
        → operation.operation ≡ HostOperationBody.state_mutate StateMutationPayload.rollback
        → load_existing codec id target.store ≡ ok s
        → mutate codec.readers.parse_url expected earlier
            (apply_rollback config operation.operation_id)
            s
          ≡ commit t
        → IsStorable codec t
        → apply codec id expected earlier
            (apply_rollback config operation.operation_id)
            target.store
          ≡ (ok r, after)
        → IsStored journal (terminal_line journal finished operation (applied_result t))
        → length (
            encode_all journal
              (closed journal accepted operation lines finished (applied_result t)))
          ≤ bounds.max_bytes
        → IsAnswered (record target { store = after }) t
    rollback-resumes earlier config target {s} {t} {r} {after} o l c storable a stored fits =
        let m = apply_rollback config operation.operation_id in
        let retried = record target { store = after } in
        let (_, (loads, _)) =
          apply-load_replay codec id expected earlier now m target.store legal l c storable a in
        let produced =
          rolled_back-is_producer codec.readers.parse_url expected earlier config
            operation.operation_id s c in
        resumed retried t StateMutationPayload.rollback o
          (executor-rollback now retried o loads produced) stored fits
