-- ===== src/Journal/Running.antt =====
-- The journaled run of one host operation (src/target/journal.rs: run_journaled and the writes under
-- it). The world is the scope's journal file, under its exclusive lock, and the target's own state,
-- which only `execute` reads and changes.
pub mod Scan
pub mod Steady
pub mod Settle
pub mod Answers
pub mod Fresh
pub mod Effect
pub mod Once
pub mod Retry
use nazo_auth_ctl.Prelude.{
  ℕ, ◌+◌, String, Bool, true, false, not, ◌&&◌, ◌||◌, Option, none, some, List, [], ◌∷◌, ◌++◌,
  retain, length, leb, ltb, ◌===◌, if◌then◌else◌,
}
use nazo_auth_ctl.Prelude.Exec.{ok, Exec, pure, fail, ◌>>=◌, ◌>>◌}
use nazo_auth_ctl.Identifiers.{deployment_scope}
use nazo_auth_ctl.Disk.{Disk, File, append_file, replace_file}
use nazo_auth_ctl.Wire
use nazo_auth_ctl.Wire.{
  HostOperation, HostOperationBody, HostOutcome, HostResult, StateMutationPayload,
  HostCompletionBody, failed_result, canonical_operation_value,
}
use nazo_auth_ctl.Journal.{
  Codec, JournalBounds, JournalLine, JournalStatus, is_pending, journal_schema, line_bytes,
  encode_all, JournalError, journal_invalid, io_failed,
}
use nazo_auth_ctl.Journal.Reading.{read_lines_with}
use nazo_auth_ctl.Journal.Compaction.{unsettled, total_bytes, compact_lines}

pub record World (S : Type 0) : Type 0 where
  pub disk : Disk
  pub target : S

abbrev pub on_disk : {S A : Type 0} → Exec Disk JournalError A → Exec (World S) JournalError A
on_disk m w = let (r, disk) = m w.disk in (r, record w { disk = disk })

-- The codes after which the operation stays pending: its outcome is unknown, or nothing began.
unfoldable pub stays_pending : HostOutcome → Bool
stays_pending (HostOutcome.completed _) = false
stays_pending (HostOutcome.failed code) =
    code === "CONTROL_OUTCOME_UNKNOWN"
    || code === "CONTROL_EXECUTION_UNAVAILABLE"
    || code === "OUTCOME_UNKNOWN"
    || code === "PRIVILEGE_REQUIRED"

-- The kinds whose own checkpoints let a failed attempt go on under the same id.
unfoldable pub retries_after_failure : HostOperationBody → Bool
retries_after_failure (HostOperationBody.backup_recover _ _) = true
retries_after_failure (HostOperationBody.backup_recovery_candidate_stage _ _ _) = true
retries_after_failure (HostOperationBody.backup_recovery_candidate_control _ _ _ _) = true
retries_after_failure (HostOperationBody.backup_recovery_candidate_cleanup _) = true
retries_after_failure (HostOperationBody.backup_recovery_activate _ _ _) = true
retries_after_failure (HostOperationBody.state_mutate StateMutationPayload.uninstall) = true
retries_after_failure _ = false

abbrev pub is_failed : JournalStatus → Bool
is_failed JournalStatus.failed = true
is_failed JournalStatus.pending = false
is_failed JournalStatus.completed = false

-- An Update that the target verified to be a no-op.
unfoldable pub is_update_noop : HostOperationBody → HostOutcome → Bool
is_update_noop (HostOperationBody.state_mutate (StateMutationPayload.update _ _ _ _ _))
      (HostOutcome.completed (HostCompletionBody.state_mutate_noop _)) =
    true
is_update_noop _ _ = false

pub data Latest : Type 0 where
  -- a line of this id carries another hash
  conflict : Latest
  latest : Option JournalLine → Latest

-- The scan over the journal for the operation's id.
unfoldable pub scan : String → String → Option JournalLine → List JournalLine → Latest
scan operation_id hash found [] = latest found
scan operation_id hash found (line ∷ lines) =
    let same = line.operation_id === operation_id in
    let rest = scan operation_id hash (if same then some line else found) lines in
    if same && not (line.operation_hash === hash) then conflict else rest

pub data Plan : Type 0 where
  -- the stored result is the answer
  replay : HostResult → Plan
  -- execute; the flag says that a pending line is there already
  start : Bool → Plan

abbrev stored_or_start : Option HostResult → Plan
stored_or_start (some result) = replay result
stored_or_start none = start false

abbrev pub plan_for : HostOperationBody → Option JournalLine → Plan
plan_for body none = start false
plan_for body (some line) =
    if is_pending line.status
    then start true
    else if is_failed line.status && retries_after_failure body
    then start false
    else stored_or_start line.result

abbrev pub terminal_status : HostOutcome → JournalStatus
terminal_status (HostOutcome.completed _) = JournalStatus.completed
terminal_status (HostOutcome.failed _) = JournalStatus.failed

-- scope_slug, of an operation's binding
abbrev pub scope_is_legal : Option String → Bool
scope_is_legal none = true
scope_is_legal (some id) = deployment_scope id

module _ (codec : Codec) where
  abbrev pub append : JournalLine → Exec Disk JournalError (Unit {0})
  append line = append_file io_failed (codec.encode line ++ 10 ∷ [])

  -- canonical_operation_hash
  abbrev pub operation_hash : HostOperation → String
  operation_hash operation = codec.digest (canonical_operation_value operation)

  abbrev pub pending_line : ℕ → HostOperation → JournalLine
  pending_line accepted operation = record {
    schema = journal_schema;
    operation_id = operation.operation_id;
    operation_hash = operation_hash operation;
    action = Wire.kind operation.operation;
    recorded_at = accepted;
    status = JournalStatus.pending;
    result = none;
  }

  abbrev pub terminal_line : ℕ → HostOperation → HostResult → JournalLine
  terminal_line finished operation result = record {
    schema = journal_schema;
    operation_id = operation.operation_id;
    operation_hash = operation_hash operation;
    action = Wire.kind operation.operation;
    recorded_at = finished;
    status = terminal_status result.outcome;
    result = some result;
  }

  -- The size of the file as `metadata` gives it; a missing file is never compacted.
  abbrev exceeds : ℕ → File → Bool
  exceeds max_bytes none = false
  exceeds max_bytes (some bytes) = not (leb (length bytes) max_bytes)

  module _ (bounds : JournalBounds) where
    abbrev rewrite_compacted : Exec Disk JournalError (Option (List JournalLine))
    rewrite_compacted = do
      lines ← read_lines_with codec bounds.read_cap true
      replace_file io_failed (encode_all codec (compact_lines codec bounds lines))
      pure (some (compact_lines codec bounds lines))

    unfoldable pub compact_if_needed : Exec Disk JournalError (Option (List JournalLine))
    compact_if_needed disk = elim (exceeds bounds.max_bytes disk.file) [
      | true ↦ rewrite_compacted disk
      | false ↦ (ok none, disk)
    ]

    -- remove_operation
    unfoldable pub remove_operation : String → Exec Disk JournalError (Unit {0})
    remove_operation operation_id = do
      lines ← read_lines_with codec bounds.read_cap true
      replace_file io_failed
          (encode_all codec (retain (λ line. not (line.operation_id === operation_id)) lines))

    abbrev or_read : Option (List JournalLine) → Exec Disk JournalError (List JournalLine)
    or_read (some lines) = pure lines
    or_read none = read_lines_with codec bounds.read_cap true

    module _ {S : Type 0} (execute : HostOperation → S → HostResult × S) (accepted finished : ℕ)
        (operation : HostOperation) where
      -- What follows the execution, by its outcome.
      abbrev pub settle : HostResult → Exec (World S) JournalError HostResult
      settle result =
          if is_update_noop operation.operation result.outcome
          then (do on_disk (remove_operation operation.operation_id); pure result)
          else if stays_pending result.outcome
          then pure result
          else do
            on_disk (append (terminal_line finished operation result))
            on_disk compact_if_needed
            pure result

      abbrev pub perform : Exec (World S) JournalError HostResult
      perform w =
          let (result, target) = execute operation w.target in
          settle result (record w { target = target })

      -- The new pending line and the resume records of others, against the admission budget.
      abbrev admission_bytes : List JournalLine → ℕ
      admission_bytes lines =
          line_bytes codec (pending_line accepted operation) + total_bytes codec (unsettled lines)

      abbrev admit : List JournalLine → Exec (World S) JournalError HostResult
      admit lines =
          if ltb bounds.max_pending_bytes (admission_bytes lines)
          then pure (failed_result operation.operation_id "TARGET_JOURNAL_CAPACITY")
          else do
            on_disk (append (pending_line accepted operation))
            on_disk compact_if_needed
            perform

      abbrev follow : List JournalLine → Plan → Exec (World S) JournalError HostResult
      follow lines (replay result) = pure result
      follow lines (start true) = perform
      follow lines (start false) = admit lines

      abbrev answer : List JournalLine → Latest → Exec (World S) JournalError HostResult
      answer lines conflict = pure (failed_result operation.operation_id "OPERATION_ID_CONFLICT")
      answer lines (latest found) = follow lines (plan_for operation.operation found)

      unfoldable pub run_journaled : Exec (World S) JournalError HostResult
      run_journaled = do
        if scope_is_legal operation.deployment_id then pure tt else fail journal_invalid
        compacted ← on_disk compact_if_needed
        lines ← on_disk (or_read compacted)
        answer lines (scan operation.operation_id (operation_hash operation) none lines)
