-- ===== src/Journal/Running/Settle.antt =====
-- What follows an execution, by its outcome (src/target/journal.rs: run_journaled).
use nazo_auth_ctl.Prelude.{
  ℕ, ◌≤◌, ◌≡◌, ◌≢◌, refl, true, false, not, some, List, [], ◌∷◌, ◌++◌, append-nil, take, length,
  retain, ◌===◌, arith,
}
use nazo_auth_ctl.Prelude.Exec.{ok, err}
use nazo_auth_ctl.Disk.{
  Disk, WriteFate, persisted, refused, torn, unsynced, next_fate, later_fates, append_bytes,
  atomic_write,
}
use nazo_auth_ctl.Wire.{HostOperation, HostResult}
use nazo_auth_ctl.Journal.{Codec, JournalLine, JournalBounds, encode_all, io_failed}
use nazo_auth_ctl.Journal.Reading.RoundTrip.{IsStored}
use nazo_auth_ctl.Journal.Reading.Recovery.{record_bytes, take_all}
use nazo_auth_ctl.Journal.Running.{
  settle, terminal_line, is_update_noop, stays_pending, remove_operation,
}
use nazo_auth_ctl.Journal.Running.Steady.{
  IsSteady, append-IsSteady, IsSteady-append, compact_if_needed-IsSteady, read-IsSteady,
}

module _ (codec : Codec) (bounds : JournalBounds) {S : Type 0}
    (execute : HostOperation → S → HostResult × S) (accepted finished : ℕ)
    (operation : HostOperation) (kept : List JournalLine) (disk : Disk)
    (steady : IsSteady codec bounds kept disk) (target : S) (result : HostResult) where
  abbrev terminal : JournalLine
  terminal = terminal_line codec finished operation result

  pub settle-terminal :
      next_fate disk.fates ≡ persisted
      → is_update_noop operation.operation result.outcome ≡ false
      → stays_pending result.outcome ≡ false
      → IsStored codec terminal
      → length (encode_all codec (kept ++ terminal ∷ [])) ≤ bounds.max_bytes
      → settle codec bounds execute accepted finished operation result
          (record { disk = disk; target = target })
        ≡ (
          ok result,
          record {
            disk = record {
              file = some (encode_all codec (kept ++ terminal ∷ []));
              fates = later_fates disk.fates;
            };
            target = target;
          },
        )
  settle-terminal f n p s fits =
      let done : Disk = record {
        file = some (encode_all codec (kept ++ terminal ∷ []));
        fates = later_fates disk.fates;
      } in
      simp (
        n,
        p,
        append-IsSteady codec bounds kept terminal disk steady f,
        compact_if_needed-IsSteady codec bounds (kept ++ terminal ∷ []) done
            (IsSteady-append codec bounds kept terminal disk done steady s fits refl),
      )

  -- The file after a failed append of the terminal line.
  abbrev settled_badly : ℕ → Disk
  settled_badly n = record {
    file = some (encode_all codec kept ++ take n (record_bytes codec terminal));
    fates = later_fates disk.fates;
  }

  pub settle_unwritten :
      (fate : WriteFate)
      → next_fate disk.fates ≡ fate
      → fate ≢ persisted
      → disk.file ≡ some (encode_all codec kept)
      → is_update_noop operation.operation result.outcome ≡ false
      → stays_pending result.outcome ≡ false
      → (n : ℕ) × (settle codec bounds execute accepted finished operation result
            (record { disk = disk; target = target })
          ≡ (err io_failed, record { disk = settled_badly n; target = target }))
  unfolding append_bytes
  settle_unwritten persisted f b e n p = absurd (b refl)
  settle_unwritten refused f b e n p = (0, simp (n, p, f, e, append-nil))
  settle_unwritten (torn k) f b e n p = (k, simp (n, p, f, e))
  settle_unwritten unsynced f b e n p =
      let size = length (record_bytes codec terminal) in
      (size, simp (n, p, f, e, take_all size (record_bytes codec terminal) (omega arith)))

  -- A no-op leaves no line of the operation, and every other line as it was.
  pub settle_noop :
      next_fate disk.fates ≡ persisted
      → is_update_noop operation.operation result.outcome ≡ true
      → settle codec bounds execute accepted finished operation result
          (record { disk = disk; target = target })
        ≡ (
          ok result,
          record {
            disk = record {
              file = some (
                  encode_all codec
                    (retain (λ line. not (line.operation_id === operation.operation_id)) kept));
              fates = later_fates disk.fates;
            };
            target = target;
          },
        )
  unfolding remove_operation atomic_write
  settle_noop f n = simp (n, read-IsSteady codec bounds kept true disk steady, f)
