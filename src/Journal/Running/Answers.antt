-- ===== src/Journal/Running/Answers.antt =====
-- The answers that a run gives without executing (src/target/journal.rs: run_journaled).
use nazo_auth_ctl.Prelude.{
  ℕ, ◌<◌, ◌+◌, ◌&&◌, lt→ltb, ◌≡◌, ◌≢◌, refl, true, false, none, some, List, ◌∷◌, ◌++◌, All,
}
use nazo_auth_ctl.Prelude.Exec.{ok}
use nazo_auth_ctl.Wire.{HostOperation, HostResult, failed_result}
use nazo_auth_ctl.Journal.{Codec, JournalLine, JournalBounds, is_pending, line_bytes}
use nazo_auth_ctl.Journal.Compaction.{unsettled, total_bytes}
use nazo_auth_ctl.Journal.Running.{
  World, run_journaled, answer, scan, scope_is_legal, operation_hash, pending_line,
  retries_after_failure, is_failed,
}
use nazo_auth_ctl.Journal.Running.Scan.{IsForeign, Agrees, scan_absent, scan_latest, scan_conflict}
use nazo_auth_ctl.Journal.Running.Steady.{IsSteady, read-IsSteady, compact_if_needed-IsSteady}

module _ (codec : Codec) (bounds : JournalBounds) {S : Type 0}
    (execute : HostOperation → S → HostResult × S) (accepted finished : ℕ)
    (operation : HostOperation) (scope_legal : scope_is_legal operation.deployment_id ≡ true)
    (w : World S) where
  -- Over a steady journal a run is the answer to what the scan finds.
  pub run_journaled-IsSteady :
      (lines : List JournalLine)
      → IsSteady codec bounds lines w.disk
      → run_journaled codec bounds execute accepted finished operation w
        ≡ answer codec bounds execute accepted finished operation lines
            (scan operation.operation_id (operation_hash codec operation) none lines)
            w
  unfolding run_journaled
  run_journaled-IsSteady lines h = simp (
    scope_legal,
    compact_if_needed-IsSteady codec bounds lines w.disk h,
    read-IsSteady codec bounds lines true w.disk h,
  )

  -- A retry of a settled operation is answered with its stored result, and nothing is executed or
  -- written: in a legal scope, over a steady journal whose earlier lines of this id carry this
  -- request's hash, where the newest of them carries it too, is terminal, stores a result, and is
  -- no failure that its kind retries.
  pub run_journaled_replays :
      (before after : List JournalLine) (line : JournalLine) (result : HostResult)
      → IsSteady codec bounds (before ++ line ∷ after) w.disk
      → All (Agrees operation.operation_id (operation_hash codec operation)) before
      → line.operation_id ≡ operation.operation_id
      → line.operation_hash ≡ operation_hash codec operation
      → All (IsForeign operation.operation_id) after
      → is_pending line.status ≡ false
      → (is_failed line.status && retries_after_failure operation.operation) ≡ false
      → line.result ≡ some result
      → run_journaled codec bounds execute accepted finished operation w ≡ (ok result, w)
  run_journaled_replays before after line result h b i s a p n r =
      rw
        (
          run_journaled-IsSteady (before ++ line ∷ after) h,
          scan_latest operation.operation_id (operation_hash codec operation) before after line none
              b i s a,
        )
        (simp (p, n, r))

  -- A reused id with another request is refused with OPERATION_ID_CONFLICT, and nothing is executed
  -- or written: in a legal scope, over a steady journal that has a line of this id with another
  -- hash.
  pub run_journaled_conflicts :
      (before after : List JournalLine) (line : JournalLine)
      → IsSteady codec bounds (before ++ line ∷ after) w.disk
      → line.operation_id ≡ operation.operation_id
      → line.operation_hash ≢ operation_hash codec operation
      → run_journaled codec bounds execute accepted finished operation w
        ≡ (ok (failed_result operation.operation_id "OPERATION_ID_CONFLICT"), w)
  run_journaled_conflicts before after line h i n =
      rw
        (
          run_journaled-IsSteady (before ++ line ∷ after) h,
          scan_conflict operation.operation_id (operation_hash codec operation) before after line
              none i n,
        )
        refl

  -- A new operation whose pending line does not fit the admission budget beside the resume records
  -- is refused with TARGET_JOURNAL_CAPACITY, and nothing is executed or written: in a legal scope,
  -- over a steady journal without a line of this id.
  pub run_journaled_capacity :
      (lines : List JournalLine)
      → IsSteady codec bounds lines w.disk
      → All (IsForeign operation.operation_id) lines
      → bounds.max_pending_bytes
        < line_bytes codec (pending_line codec accepted operation)
          + total_bytes codec (unsettled lines)
      → run_journaled codec bounds execute accepted finished operation w
        ≡ (ok (failed_result operation.operation_id "TARGET_JOURNAL_CAPACITY"), w)
  run_journaled_capacity lines h a full =
      rw
        (
          run_journaled-IsSteady lines h,
          scan_absent operation.operation_id (operation_hash codec operation) lines none a,
        )
        (simp (
          lt→ltb bounds.max_pending_bytes
            (line_bytes codec (pending_line codec accepted operation)
              + total_bytes codec (unsettled lines))
            full))
