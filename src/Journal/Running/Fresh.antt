-- ===== src/Journal/Running/Fresh.antt =====
-- The run of an operation that the journal does not know yet (src/target/journal.rs: run_journaled):
-- a durable pending line, one execution, and one terminal line by the outcome.
use nazo_auth_ctl.Prelude.{
  ℕ, ◌≤◌, ◌+◌, ◌≡◌, ◌≢◌, refl, take, ap, ◌∙◌, true, false, none, some, List, [], ◌∷◌, ◌++◌, All,
  length, le→ltb_false,
}
use nazo_auth_ctl.Prelude.Exec.{ok, err}
use nazo_auth_ctl.Disk.{Disk, WriteFate, persisted, next_fate, later_fates}
use nazo_auth_ctl.Wire.{HostOperation, HostResult}
use nazo_auth_ctl.Journal.{Codec, JournalLine, JournalBounds, encode_all, line_bytes, io_failed}
use nazo_auth_ctl.Journal.Compaction.{unsettled, total_bytes}
use nazo_auth_ctl.Journal.Reading.RoundTrip.{IsStored}
use nazo_auth_ctl.Journal.Reading.Recovery.{record_bytes}
use nazo_auth_ctl.Journal.Running.{
  World, run_journaled, perform, settle, scope_is_legal, operation_hash, pending_line,
  terminal_line, is_update_noop, stays_pending,
}
use nazo_auth_ctl.Journal.Running.Scan.{IsForeign, scan_absent, retain_foreign}
use nazo_auth_ctl.Journal.Running.Steady.{
  IsSteady, append-IsSteady, IsSteady-append, compact_if_needed-IsSteady,
}
use nazo_auth_ctl.Journal.Running.Settle.{settle-terminal, settle_unwritten, settle_noop}
use nazo_auth_ctl.Journal.Running.Answers.{run_journaled-IsSteady}

module _ (codec : Codec) where
  -- The file with these records, and the fates that are left.
  abbrev pub whole : List JournalLine → List WriteFate → Disk
  whole kept later = record { file = some (encode_all codec kept); fates = later }

  module _ (accepted : ℕ) (operation : HostOperation) (lines : List JournalLine) where
    -- The journal with the operation's pending line, and with its terminal line too.
    abbrev pub opened : List JournalLine
    opened = lines ++ pending_line codec accepted operation ∷ []

    abbrev pub closed : ℕ → HostResult → List JournalLine
    closed finished result = opened ++ terminal_line codec finished operation result ∷ []

    -- A steady journal with room for the operation's pending line.
    pub record HasRoom (bounds : JournalBounds) (disk : Disk) : Type 0 where
      pub steady : IsSteady codec bounds lines disk
      pub admitted :
          line_bytes codec (pending_line codec accepted operation)
            + total_bytes codec (unsettled lines)
          ≤ bounds.max_pending_bytes
      pub pending_stored : IsStored codec (pending_line codec accepted operation)
      pub fits : length (encode_all codec opened) ≤ bounds.max_bytes

    -- The disk when the execution begins.
    abbrev pub begun : List WriteFate → Disk
    begun fates = whole opened (later_fates fates)

    pub opened-IsSteady :
        (bounds : JournalBounds) (disk : Disk)
        → HasRoom bounds disk
        → IsSteady codec bounds opened (begun disk.fates)
    opened-IsSteady bounds disk h =
        IsSteady-append codec bounds lines (pending_line codec accepted operation) disk
          (begun disk.fates) h.steady h.pending_stored h.fits refl

module _ (codec : Codec) (bounds : JournalBounds) {S : Type 0}
    (execute : HostOperation → S → HostResult × S) (accepted finished : ℕ)
    (operation : HostOperation) (scope_legal : scope_is_legal operation.deployment_id ≡ true)
    (lines : List JournalLine) (foreign : All (IsForeign operation.operation_id) lines) where
  -- A new operation is executed after its pending line is in the file.
  run_journaled_admits :
      (w : World S)
      → HasRoom codec accepted operation lines bounds w.disk
      → next_fate w.disk.fates ≡ persisted
      → run_journaled codec bounds execute accepted finished operation w
        ≡ perform codec bounds execute accepted finished operation
            (record { disk = begun codec accepted operation lines w.disk.fates; target = w.target })
  run_journaled_admits w h p =
      let line = pending_line codec accepted operation in
      rw
        (
          run_journaled-IsSteady codec bounds execute accepted finished operation scope_legal w
              lines h.steady,
          scan_absent operation.operation_id (operation_hash codec operation) lines none foreign,
        )
        (simp (
          le→ltb_false bounds.max_pending_bytes
              (line_bytes codec line + total_bytes codec (unsettled lines)) h.admitted,
          append-IsSteady codec bounds lines line w.disk h.steady p,
          compact_if_needed-IsSteady codec bounds (opened codec accepted operation lines)
              (begun codec accepted operation lines w.disk.fates)
              (opened-IsSteady codec accepted operation lines bounds w.disk h),
        ))

  module _ (w : World S) (room : HasRoom codec accepted operation lines bounds w.disk)
      (result : HostResult) (target : S) (executed : execute operation w.target ≡ (result, target))
      (later : List WriteFate) where
    run_journaled_executes :
        next_fate w.disk.fates ≡ persisted
        → run_journaled codec bounds execute accepted finished operation w
          ≡ settle codec bounds execute accepted finished operation result (record {
            disk = (begun codec accepted operation lines w.disk.fates);
            target = target;
          })
    run_journaled_executes f = rw (run_journaled_admits w room f) (simp executed)

    -- A new operation that ends in a terminal outcome is executed once, answered with its result,
    -- and adds its pending and its terminal line to the journal. The conditions: a legal scope, no
    -- line of the operation in a steady journal with room for the pending line, two durable writes,
    -- a terminal line that reads back and fits the limits, and no no-op of an update.
    pub run_journaled_settles :
        w.disk.fates ≡ persisted ∷ persisted ∷ later
        → is_update_noop operation.operation result.outcome ≡ false
        → stays_pending result.outcome ≡ false
        → IsStored codec (terminal_line codec finished operation result)
        → length (encode_all codec (closed codec accepted operation lines finished result))
          ≤ bounds.max_bytes
        → run_journaled codec bounds execute accepted finished operation w ≡ (
          ok result,
          record {
            disk = whole codec (closed codec accepted operation lines finished result) later;
            target = target;
          },
        )
    run_journaled_settles f n p s fits =
        let left = ap (λ fates. later_fates (later_fates fates)) f in
        rw (← left) (
          run_journaled_executes (ap next_fate f)
          ∙ settle-terminal codec bounds execute accepted finished operation
              (opened codec accepted operation lines)
              (begun codec accepted operation lines w.disk.fates)
              (opened-IsSteady codec accepted operation lines bounds w.disk room) target result
              (ap (λ fates. next_fate (later_fates fates)) f) n p s fits)

    -- An outcome of a new operation that is unknown, or a refused privilege, leaves the pending
    -- line as the resume point, and no terminal line is written. The conditions: a legal scope, no
    -- line of the operation in a steady journal with room for the pending line, a durable write,
    -- and no no-op of an update.
    run_journaled-stays_pending :
        w.disk.fates ≡ persisted ∷ later
        → is_update_noop operation.operation result.outcome ≡ false
        → stays_pending result.outcome ≡ true
        → run_journaled codec bounds execute accepted finished operation w ≡ (
          ok result,
          record {
            disk = whole codec (opened codec accepted operation lines) later;
            target = target;
          },
        )
    run_journaled-stays_pending f n p =
        let left = ap later_fates f in
        rw (← left) (run_journaled_executes (ap next_fate f) ∙ simp (n, p))

    -- A verified no-op of a new update leaves the journal with the lines from before it. The
    -- conditions: a legal scope, no line of the operation in a steady journal with room for the
    -- pending line, and two durable writes.
    run_journaled_noop :
        w.disk.fates ≡ persisted ∷ persisted ∷ later
        → is_update_noop operation.operation result.outcome ≡ true
        → run_journaled codec bounds execute accepted finished operation w
          ≡ (ok result, record { disk = whole codec lines later; target = target })
    run_journaled_noop f n =
        let left = ap (λ fates. later_fates (later_fates fates)) f in
        rw (← left) (
          run_journaled_executes (ap next_fate f)
          ∙ settle_noop codec bounds execute accepted finished operation
              (opened codec accepted operation lines)
              (begun codec accepted operation lines w.disk.fates)
              (opened-IsSteady codec accepted operation lines bounds w.disk room) target result
              (ap (λ fates. next_fate (later_fates fates)) f) n
          ∙ ap
              (λ kept. (
                ok result,
                record {
                  disk = whole codec kept (later_fates (later_fates w.disk.fates));
                  target = target;
                },
              ))
              (retain_foreign operation.operation_id lines (pending_line codec accepted operation)
                foreign refl))

    -- A failed write of the terminal line of a new operation is an error, and takes nothing of the
    -- mutation back: the target keeps its new state, and the file the pending line, with at most a
    -- part of the other or all of it. The conditions: a legal scope, no line of the operation in a
    -- steady journal with room for the pending line, which is written durably, and an outcome that
    -- is terminal and no no-op of an update.
    pub run_journaled_keeps_mutation :
        (fate : WriteFate)
        → w.disk.fates ≡ persisted ∷ fate ∷ later
        → fate ≢ persisted
        → is_update_noop operation.operation result.outcome ≡ false
        → stays_pending result.outcome ≡ false
        → (n : ℕ) × (run_journaled codec bounds execute accepted finished operation w ≡ (
          err io_failed,
          record {
            disk = record {
              file = some (
                  encode_all codec (opened codec accepted operation lines)
                  ++ take n (record_bytes codec (terminal_line codec finished operation result)));
              fates = later;
            };
            target = target;
          },
        ))
    run_journaled_keeps_mutation fate f b n p =
        let left = ap (λ fates. later_fates (later_fates fates)) f in
        let torn_write =
          settle_unwritten codec bounds execute accepted finished operation
            (opened codec accepted operation lines)
            (begun codec accepted operation lines w.disk.fates)
            (opened-IsSteady codec accepted operation lines bounds w.disk room) target result fate
            (ap (λ fates. next_fate (later_fates fates)) f) b refl n p in
        rw (← left) (torn_write.0, run_journaled_executes (ap next_fate f) ∙ torn_write.1)
