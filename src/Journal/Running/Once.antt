-- ===== src/Journal/Running/Once.antt =====
-- Over any journal and any write failures, a run executes its operation at most once
-- (src/target/journal.rs: run_journaled).
use nazo_auth_ctl.Prelude.{
  ℕ, ◌≡◌, refl, ap, ◌⊎◌, inl, inr, Bool, Bool-cases, true, false, none, some, ◌&&◌, Option, All,
  List, if◌then◌else◌,
}
use nazo_auth_ctl.Prelude.Exec.{Outcome, ok, err, Exec, continue, ◌>>=◌}
use nazo_auth_ctl.Disk.{Disk}
use nazo_auth_ctl.Wire.{HostOperation, HostResult}
use nazo_auth_ctl.Journal.{Codec, is_pending, JournalLine, JournalBounds, JournalError}
use nazo_auth_ctl.Journal.Running.Scan.{IsForeign, Agrees, IsNewest, Finds, scan-Finds}
use nazo_auth_ctl.Journal.Running.{
  is_failed, retries_after_failure, stored_or_start, World, on_disk, Latest, conflict, latest,
  start, run_journaled, settle, perform, is_update_noop, stays_pending, terminal_line, pending_line,
  admit, follow, answer, plan_for, append, compact_if_needed, remove_operation, or_read, scan,
  operation_hash, scope_is_legal,
}
use nazo_auth_ctl.Journal.Running.Effect.{
  Keeps, on_disk-Keeps, if-Keeps, Runs, on_disk-Runs, ExecutesOnce, Within, on_disk-Within,
  if-Within, weaken,
}

module _ (codec : Codec) (bounds : JournalBounds) {S : Type 0}
    (execute : HostOperation → S → HostResult × S) (accepted finished : ℕ)
    (operation : HostOperation) where
  abbrev pub executed : S → S
  executed before = (execute operation before).1

  settle-Keeps :
      (result : HostResult) → Keeps (settle codec bounds execute accepted finished operation result)
  settle-Keeps result =
      if-Keeps (is_update_noop operation.operation result.outcome) _ _
        (on_disk-Keeps (remove_operation codec bounds operation.operation_id) _ (λ _ w. refl))
        (if-Keeps (stays_pending result.outcome) _ _ (λ w. refl)
          (on_disk-Keeps (append codec (terminal_line codec finished operation result)) _
            (λ _. on_disk-Keeps (compact_if_needed codec bounds) _ (λ _ w. refl))))

  perform-Runs : Runs executed (perform codec bounds execute accepted finished operation)
  perform-Runs w =
      let (result, target) = execute operation w.target in
      inr (settle-Keeps result (record w { target = target }))

  -- The pending line is durable on the disk.
  abbrev WritesAhead : Disk → Type 0
  WritesAhead disk = (append codec (pending_line codec accepted operation) disk).0 ≡ ok tt

  -- A newest line of the operation that does not settle it: a failure that its kind retries, or a
  -- line without a result.
  abbrev IsRetryable : JournalLine → Type 0
  IsRetryable line =
      ((is_failed line.status && retries_after_failure operation.operation) ≡ true)
      ⊎ (line.result ≡ none)

  -- The journal admits an execution: no line of the operation was written for another request, and
  -- the operation is new, or its newest line is pending or does not settle it. Where no line is
  -- pending, a pending line becomes durable first.
  abbrev Permits : List JournalLine → Disk → Type 0
  Permits lines disk =
      All (Agrees operation.operation_id (operation_hash codec operation)) lines
      × ((All (IsForeign operation.operation_id) lines × WritesAhead disk)
          ⊎ ((line : JournalLine) × (IsNewest operation.operation_id line lines
                × ((is_pending line.status ≡ true) ⊎ (IsRetryable line × WritesAhead disk)))))

  -- What a run reads: the journal after a compaction that is due, with a torn tail repaired.
  abbrev opened : Exec Disk JournalError (List JournalLine)
  opened = compact_if_needed codec bounds >>= or_read codec bounds

  admit-Within :
      (lines : List JournalLine)
      → Within executed
          (λ w. WritesAhead w.disk)
          (admit codec bounds execute accepted finished operation lines)
  admit-Within lines =
      if-Within executed (λ w. WritesAhead w.disk) _ _ _ (λ w. inl refl)
        (on_disk-Within executed (append codec (pending_line codec accepted operation)) _
          (λ _. on_disk-Runs executed (compact_if_needed codec bounds) _ (λ _. perform-Runs)))

  -- A newest line that is not pending, by whether its kind retries it, and by its result.
  closed-ExecutesOnce :
      (lines : List JournalLine) (line : JournalLine) (w : World S) (retries : Bool)
      (result : Option HostResult)
      → ExecutesOnce executed
          (((retries ≡ true) ⊎ (result ≡ none)) × WritesAhead w.disk)
          w.target
          (follow codec bounds execute accepted finished operation lines
            (if retries then start false else stored_or_start result)
            w).1.target
  closed-ExecutesOnce lines line w true result =
      weaken executed _ _ _ _ (λ ahead. (inl refl, ahead)) (admit-Within lines w)
  closed-ExecutesOnce lines line w false none =
      weaken executed _ _ _ _ (λ ahead. (inr refl, ahead)) (admit-Within lines w)
  closed-ExecutesOnce lines line w false (some result) = inl refl

  -- By the newest line of the operation.
  resume-ExecutesOnce :
      (lines : List JournalLine) (line : JournalLine) (w : World S)
      → ExecutesOnce executed
          ((is_pending line.status ≡ true) ⊎ (IsRetryable line × WritesAhead w.disk))
          w.target
          (follow codec bounds execute accepted finished operation lines
            (plan_for operation.operation (some line))
            w).1.target
  resume-ExecutesOnce lines line w = elim (Bool-cases (is_pending line.status)) [
    | inl unsettled ↦
        rw unsettled
          (elim (perform-Runs w) [ inl same ↦ inl same | inr once ↦ inr (once, inl refl) ])
    | inr settled ↦ rw settled (
        weaken executed _ _ _ _ (λ p. inr p)
          (closed-ExecutesOnce lines line w
            (is_failed line.status && retries_after_failure operation.operation) line.result))
  ]

  found-ExecutesOnce :
      (lines : List JournalLine) (found : Option JournalLine) (w : World S)
      → All (Agrees operation.operation_id (operation_hash codec operation)) lines
      → Finds operation.operation_id (operation_hash codec operation) none found lines
      → ExecutesOnce executed
          (Permits lines w.disk)
          w.target
          (follow codec bounds execute accepted finished operation lines
            (plan_for operation.operation found)
            w).1.target
  found-ExecutesOnce lines found w agrees (inl (e, foreign)) =
      rw e
        (weaken executed _ _ _ _ (λ ahead. (agrees, inl (foreign, ahead))) (admit-Within lines w))
  found-ExecutesOnce lines found w agrees (inr (line, (e, newest))) = rw e (
      weaken executed _ _ _ _ (λ state. (agrees, inr (line, (newest, state))))
        (resume-ExecutesOnce lines line w))

  answer-ExecutesOnce :
      (lines : List JournalLine) (found : Latest) (w : World S)
      → scan operation.operation_id (operation_hash codec operation) none lines ≡ found
      → ExecutesOnce executed
          (Permits lines w.disk)
          w.target
          (answer codec bounds execute accepted finished operation lines found w).1.target
  answer-ExecutesOnce lines conflict w h = inl refl
  answer-ExecutesOnce lines (latest found) w h =
      let (agrees, finds) =
        scan-Finds operation.operation_id (operation_hash codec operation) lines none h in
      found-ExecutesOnce lines found w agrees finds

  abbrev answered : List JournalLine → Exec (World S) JournalError HostResult
  answered lines =
      answer codec bounds execute accepted finished operation lines
        (scan operation.operation_id (operation_hash codec operation) none lines)

  read-ExecutesOnce :
      (r : Outcome JournalError (List JournalLine)) (disk : Disk) (w : World S)
      → ExecutesOnce executed
          ((lines : List JournalLine) × ((r ≡ ok lines) × Permits lines disk))
          w.target
          (continue r answered (record w { disk = disk })).1.target
  read-ExecutesOnce (ok lines) disk w =
      weaken executed _ _ _ _ (λ p. (lines, (refl, p)))
        (answer-ExecutesOnce lines _ (record w { disk = disk }) refl)
  read-ExecutesOnce (err e) disk w = inl refl

  compacted-ExecutesOnce :
      (r : Outcome JournalError (Option (List JournalLine))) (disk : Disk) (w : World S)
      → ExecutesOnce executed
          ((lines : List JournalLine) × ((after : Disk) × ((continue r (or_read codec bounds) disk
                  ≡ (ok lines, after))
                × Permits lines after)))
          w.target
          (continue r
            (λ compacted. on_disk (or_read codec bounds compacted) >>= answered)
            (record w { disk = disk })).1.target
  compacted-ExecutesOnce (ok compacted) disk w =
      let (r, after) = or_read codec bounds compacted disk in
      weaken executed _ _ _ _
        (λ (lines, (reads, p)). (lines, (after, (ap (λ r. (r, after)) reads, p))))
        (read-ExecutesOnce r after w)
  compacted-ExecutesOnce (err e) disk w = inl refl

  -- The scope is legal, and what is read of the journal permits the execution.
  abbrev pub MayExecute : Disk → Type 0
  MayExecute before =
      (scope_is_legal operation.deployment_id ≡ true)
      × ((lines : List JournalLine) × ((disk : Disk) × ((opened before ≡ (ok lines, disk))
              × Permits lines disk)))

  -- Whatever the journal holds and whichever writes fail, a run leaves the target as it was, or as a
  -- single execution of the operation leaves it. In the second case the scope is legal, the journal
  -- was read, and what was read permits the execution: no line of the operation was written for
  -- another request; the operation has no line there, or its newest one is pending, or is a failure
  -- that its kind retries, or stores no result; and where it is not pending, the append of a pending
  -- line succeeded first.
  pub run_journaled_once :
      (w : World S)
      → ExecutesOnce executed
          (MayExecute w.disk)
          w.target
          (run_journaled codec bounds execute accepted finished operation w).1.target
  unfolding run_journaled
  run_journaled_once w = elim (Bool-cases (scope_is_legal operation.deployment_id)) [
    | inl legal ↦
        let (r, disk) = compact_if_needed codec bounds w.disk in
        rw legal (weaken executed _ _ _ _ (λ p. (refl, p)) (compacted-ExecutesOnce r disk w))
    | inr illegal ↦ rw illegal (inl refl)
  ]
