-- ===== src/Journal/Running/Retry.antt =====
-- Retries of one operation (src/target/journal.rs: run_journaled): after it settled, after it was
-- interrupted, and after its pending line could not be written.
use nazo_auth_ctl.Prelude.{
  ℕ, ◌+◌, ◌≤◌, String, ◌≡◌, ◌≢◌, refl, ap, ◌&&◌, true, false, none, List, [], ◌∷◌, ◌++◌, All,
  All-append, length, le→ltb_false,
}
use nazo_auth_ctl.Prelude.Exec.{ok, err}
use nazo_auth_ctl.Disk.{
  Disk, WriteFate, persisted, refused, torn, unsynced, next_fate, later_fates, append_bytes,
}
use nazo_auth_ctl.Wire.{HostOperation, HostOutcome, HostResult}
use nazo_auth_ctl.Journal.{
  Codec, JournalLine, JournalStatus, JournalBounds, is_pending, encode_all, line_bytes, io_failed,
}
use nazo_auth_ctl.Journal.Compaction.{unsettled, total_bytes}
use nazo_auth_ctl.Journal.Reading.RoundTrip.{IsStored}
use nazo_auth_ctl.Journal.Running.{
  World, append, run_journaled, scope_is_legal, operation_hash, pending_line, terminal_line,
  terminal_status, is_update_noop, stays_pending, is_failed, retries_after_failure,
}
use nazo_auth_ctl.Journal.Running.Scan.{IsForeign, Agrees, scan_absent, scan_latest}
use nazo_auth_ctl.Journal.Running.Steady.{IsSteady, IsSteady-append}
use nazo_auth_ctl.Journal.Running.Settle.{settle-terminal}
use nazo_auth_ctl.Journal.Running.Answers.{run_journaled-IsSteady, run_journaled_replays}
use nazo_auth_ctl.Journal.Running.Fresh.{
  HasRoom, run_journaled_settles, opened, closed, begun, opened-IsSteady, whole,
}

terminal-is_pending : (outcome : HostOutcome) → is_pending (terminal_status outcome) ≡ false
terminal-is_pending (HostOutcome.completed _) = refl
terminal-is_pending (HostOutcome.failed _) = refl

pub IsForeign-Agrees :
    (operation_id hash : String) (lines : List JournalLine)
    → All (IsForeign operation_id) lines
    → All (Agrees operation_id hash) lines
IsForeign-Agrees operation_id hash [] h = tt
IsForeign-Agrees operation_id hash (line ∷ lines) h =
    (λ e. absurd (h.0 e), IsForeign-Agrees operation_id hash lines h.1)

unwritten :
    (codec : Codec) (line : JournalLine) (fate : WriteFate) (disk : Disk)
    → next_fate disk.fates ≡ fate
    → fate ≢ persisted
    → (append codec line disk).0 ≡ err io_failed
unfolding append_bytes
unwritten codec line persisted disk f b = absurd (b refl)
unwritten codec line refused disk f b = simp (f)
unwritten codec line (torn n) disk f b = simp (f)
unwritten codec line unsynced disk f b = simp (f)

append_unwritten :
    (codec : Codec) (line : JournalLine) (disk : Disk)
    → next_fate disk.fates ≢ persisted
    → (append codec line disk).0 ≡ err io_failed
append_unwritten codec line disk b = unwritten codec line (next_fate disk.fates) disk refl b

module _ (codec : Codec) (bounds : JournalBounds) {S : Type 0} (accepted finished : ℕ)
    (operation : HostOperation) (scope_legal : scope_is_legal operation.deployment_id ≡ true) where
  -- A new operation that settles is executed by its first run alone: a second run, with any other
  -- executor and at any other time, gives the same result and leaves the whole world as it is. The
  -- conditions: a legal scope, no line of the operation in a steady journal (its lines read back
  -- and fit the limits) with room for the pending line, two durable writes, a terminal line that
  -- reads back and fits the limits, and an outcome that is terminal, no no-op of an update and no
  -- failure that its kind retries.
  pub run_journaled_twice :
      (execute execute' : HostOperation → S → HostResult × S) (accepted' finished' : ℕ)
      (lines : List JournalLine) (w : World S) (result : HostResult) (target : S)
      (later : List WriteFate)
      → (foreign : All (IsForeign operation.operation_id) lines)
      → HasRoom codec accepted operation lines bounds w.disk
      → execute operation w.target ≡ (result, target)
      → w.disk.fates ≡ persisted ∷ persisted ∷ later
      → is_update_noop operation.operation result.outcome ≡ false
      → stays_pending result.outcome ≡ false
      → (is_failed (terminal_status result.outcome) && retries_after_failure operation.operation)
        ≡ false
      → IsStored codec (terminal_line codec finished operation result)
      → length (encode_all codec (closed codec accepted operation lines finished result))
        ≤ bounds.max_bytes
      → let first = run_journaled codec bounds execute accepted finished operation w in
        (first.0 ≡ ok result)
        × (first.1.target ≡ target)
        × (run_journaled codec bounds execute' accepted' finished' operation first.1 ≡ first)
  run_journaled_twice execute execute' accepted' finished' lines w result target later foreign room
        e f n p r s fits =
      let before = opened codec accepted operation lines in
      let hash = operation_hash codec operation in
      let first =
        run_journaled_settles codec bounds execute accepted finished operation scope_legal lines
          foreign w room result target e later f n p s fits in
      let agrees =
        All-append (Agrees operation.operation_id hash) lines
          (pending_line codec accepted operation ∷ [])
          (IsForeign-Agrees operation.operation_id hash lines foreign) (λ _. refl, tt) in
      let disk : Disk = whole codec (closed codec accepted operation lines finished result) later in
      let steady =
        IsSteady-append codec bounds before (terminal_line codec finished operation result)
          (begun codec accepted operation lines w.disk.fates) disk
          (opened-IsSteady codec accepted operation lines bounds w.disk room) s fits refl in
      rw first (
        refl,
        refl,
        run_journaled_replays codec bounds execute' accepted' finished' operation scope_legal
            (record { disk = disk; target = target }) before []
            (terminal_line codec finished operation result) result steady agrees refl refl tt
            (terminal-is_pending result.outcome) r refl,
      )

  -- An interrupted operation, whose newest line in a steady journal is a pending one of the same
  -- request and whose earlier lines carry the same request, is executed again: no second pending
  -- line is written, and the terminal outcome adds its terminal line. The conditions: a legal
  -- scope, a durable write, a terminal line that reads back and fits the limits, and an outcome
  -- that is terminal and no no-op of an update.
  pub run_journaled_resumes :
      (execute : HostOperation → S → HostResult × S) (before after : List JournalLine)
      (line : JournalLine) (w : World S) (result : HostResult) (target : S) (later : List WriteFate)
      → IsSteady codec bounds (before ++ line ∷ after) w.disk
      → All (Agrees operation.operation_id (operation_hash codec operation)) before
      → line.operation_id ≡ operation.operation_id
      → line.operation_hash ≡ operation_hash codec operation
      → line.status ≡ JournalStatus.pending
      → All (IsForeign operation.operation_id) after
      → execute operation w.target ≡ (result, target)
      → w.disk.fates ≡ persisted ∷ later
      → is_update_noop operation.operation result.outcome ≡ false
      → stays_pending result.outcome ≡ false
      → IsStored codec (terminal_line codec finished operation result)
      → length (
          encode_all codec
            ((before ++ line ∷ after) ++ terminal_line codec finished operation result ∷ []))
        ≤ bounds.max_bytes
      → run_journaled codec bounds execute accepted finished operation w ≡ (
        ok result,
        record {
          disk =
              whole codec
                ((before ++ line ∷ after) ++ terminal_line codec finished operation result ∷ [])
                later;
          target = target;
        },
      )
  run_journaled_resumes execute before after line w result target later steady agrees i h p a e f n
        q s fits =
      let left = ap later_fates f in
      rw
        (
          ← left,
          run_journaled-IsSteady codec bounds execute accepted finished operation scope_legal w
              (before ++ line ∷ after) steady,
          scan_latest operation.operation_id (operation_hash codec operation) before after line none
              agrees i h a,
        )
        (simp (
          p,
          e,
          settle-terminal codec bounds execute accepted finished operation (before ++ line ∷ after)
              w.disk steady target result (ap next_fate f) n q s fits,
        ))

  -- Where the pending line of a new operation does not become durable, the call is an error and
  -- nothing is executed. The conditions: a legal scope, and no line of the operation in a steady
  -- journal that has room for the pending line.
  pub run_journaled_write_ahead :
      (execute : HostOperation → S → HostResult × S) (lines : List JournalLine) (w : World S)
      → (foreign : All (IsForeign operation.operation_id) lines)
      → HasRoom codec accepted operation lines bounds w.disk
      → next_fate w.disk.fates ≢ persisted
      → let (outcome, after) = run_journaled codec bounds execute accepted finished operation w in
        (outcome ≡ err io_failed) × (after.target ≡ w.target)
  run_journaled_write_ahead execute lines w foreign room broken =
      let line = pending_line codec accepted operation in
      let failed = append_unwritten codec line w.disk broken in
      rw
        (
          run_journaled-IsSteady codec bounds execute accepted finished operation scope_legal w
              lines room.steady,
          scan_absent operation.operation_id (operation_hash codec operation) lines none foreign,
          le→ltb_false bounds.max_pending_bytes
              (line_bytes codec line + total_bytes codec (unsettled lines)) room.admitted,
        )
        (simp failed (refl, refl))
