-- ===== src/Transfer/Copying/Durable.antt =====
-- The journal behind an iteration of the loop (src/controller/transfer_journal.rs: store, load).
use nazo_auth_ctl.Prelude.{
  ℕ, ◌≡◌, Option-cases, inl, inr, refl, true, some, List, length, leb, arith,
}
use nazo_auth_ctl.Prelude.Exec.{Outcome, ok, err, continue}
use nazo_auth_ctl.Disk.{Disk, atomic_write, read_secure_regular_file}
use nazo_auth_ctl.Transfer.{
  SnapshotFile, TransferPhase, source_prepare, destination_prepare, copying, finalize,
  record_source_receipt, cleanup_source, cleanup_destination, CopyCursor, TransferRecord, get_elem?,
  reset_cursor, Refusal, TransferFormats, validate_transfer, store_transfer, load_transfer,
  max_bytes,
}
use nazo_auth_ctl.Transfer.Exchange.{World, Targets, BackupTransferChunk}
use nazo_auth_ctl.Transfer.Copying.{
  goes_on, proceed, read_chunk, write_chunk, deliver, copy_one_backup_chunk, prepare_source,
  prepare_destination, finalize_import, record_receipt, clean_source, transfer_step,
}
use nazo_auth_ctl.Transfer.Copying.Advancing.{clean_destination-finishes}

-- The journal holds the record, which is well-formed and within its bounded size.
abbrev pub Journals : TransferFormats → TransferRecord → Disk → Type 0
Journals formats transfer disk =
    (disk.file ≡ some (formats.encode transfer))
    × (validate_transfer formats transfer ≡ true)
    × (leb (length (formats.encode transfer)) max_bytes ≡ true)

module _ {T : Type 0} (targets : Targets T) where
  prepare_source-Journals :
      (transfer next : TransferRecord) (world world' : World T)
      → prepare_source targets transfer world ≡ (ok (goes_on next), world')
      → Journals targets.formats next world'.disk
  unfolding store_transfer atomic_write reset_cursor
  prepare_source-Journals transfer next world world' h =
      (ground (arith, h), ground (arith, h), ground (arith, h))

  finalize_import-Journals :
      (transfer next : TransferRecord) (world world' : World T)
      → finalize_import targets transfer world ≡ (ok (goes_on next), world')
      → Journals targets.formats next world'.disk
  unfolding store_transfer atomic_write reset_cursor
  finalize_import-Journals transfer next world world' h =
      (ground (arith, h), ground (arith, h), ground (arith, h))

  clean_source-Journals :
      (transfer next : TransferRecord) (world world' : World T)
      → clean_source targets transfer world ≡ (ok (goes_on next), world')
      → Journals targets.formats next world'.disk
  unfolding store_transfer atomic_write reset_cursor
  clean_source-Journals transfer next world world' h =
      (ground (arith, h), ground (arith, h), ground (arith, h))

  prepare_destination-Journals :
      (transfer next : TransferRecord) (world world' : World T)
      → prepare_destination targets transfer world ≡ (ok (goes_on next), world')
      → Journals targets.formats next world'.disk
  unfolding store_transfer atomic_write reset_cursor
  prepare_destination-Journals transfer next world world' h =
      (ground (arith, h), ground (arith, h), ground (arith, h))

  record_receipt-Journals :
      (transfer next : TransferRecord) (world world' : World T)
      → record_receipt targets transfer world ≡ (ok (goes_on next), world')
      → Journals targets.formats next world'.disk
  unfolding store_transfer atomic_write reset_cursor
  record_receipt-Journals transfer next world world' h =
      (ground (arith, h), ground (arith, h), ground (arith, h))

  proceed-Journals :
      (transfer next : TransferRecord) (cursor : CopyCursor) (files : List SnapshotFile)
      (file : SnapshotFile) (consumed : ℕ) (world world' : World T)
      → proceed targets transfer cursor files file consumed world ≡ (ok (goes_on next), world')
      → Journals targets.formats next world'.disk
  unfolding store_transfer atomic_write reset_cursor
  proceed-Journals transfer next cursor files file consumed world world' h =
      (ground (arith, h), ground (arith, h), ground (arith, h))

  deliver-Journals :
      (transfer next : TransferRecord) (cursor : CopyCursor) (files : List SnapshotFile)
      (file : SnapshotFile) (chunk : BackupTransferChunk) (world world' : World T)
      → deliver targets transfer cursor files file chunk world ≡ (ok (goes_on next), world')
      → Journals targets.formats next world'.disk
  deliver-Journals transfer next cursor files file chunk world world' h =
      proceed-Journals transfer next cursor files file (length chunk.bytes)
        (write_chunk targets transfer cursor chunk world).1 world' (ground (arith, h))

  received-Journals :
      (transfer next : TransferRecord) (cursor : CopyCursor) (files : List SnapshotFile)
      (file : SnapshotFile) (chunk : Outcome Refusal BackupTransferChunk) (world world' : World T)
      → continue chunk (deliver targets transfer cursor files file) world
        ≡ (ok (goes_on next), world')
      → Journals targets.formats next world'.disk
  received-Journals transfer next cursor files file (ok chunk) world world' h =
      deliver-Journals transfer next cursor files file chunk world world' h
  received-Journals transfer next cursor files file (err e) world world' h = ground (arith, h)

  copy_one_backup_chunk-Journals :
      (transfer next : TransferRecord) (world world' : World T)
      → copy_one_backup_chunk targets transfer world ≡ (ok (goes_on next), world')
      → Journals targets.formats next world'.disk
  unfolding copy_one_backup_chunk
  copy_one_backup_chunk-Journals transfer next world world' h =
      elim (Option-cases transfer.source_plan) [
        | inl absent ↦ absurd (ground (arith, absent, h))
        | inr (plan, e) ↦ elim (Option-cases transfer.cursor) [
          | inl absent ↦ absurd (ground (arith, e, absent, h))
          | inr (cursor, c) ↦ elim (Option-cases (get_elem? plan.files cursor.file_index)) [
            | inl absent ↦ absurd (ground (arith, e, c, absent, h))
            | inr (file, g) ↦
                let (read, after) = read_chunk targets transfer cursor file world in
                received-Journals transfer next cursor plan.files file read after world'
                  (ground (arith, e, c, g, h))
          ]
        ]
      ]

  in_phase-Journals :
      (phase : TransferPhase) (transfer next : TransferRecord) (world world' : World T)
      → transfer.phase ≡ phase
      → transfer_step targets transfer world ≡ (ok (goes_on next), world')
      → Journals targets.formats next world'.disk
  unfolding transfer_step
  in_phase-Journals source_prepare transfer next world world' e h =
      prepare_source-Journals transfer next world world' (ground (arith, e, h))
  in_phase-Journals destination_prepare transfer next world world' e h =
      prepare_destination-Journals transfer next world world' (ground (arith, e, h))
  in_phase-Journals copying transfer next world world' e h =
      copy_one_backup_chunk-Journals transfer next world world' (ground (arith, e, h))
  in_phase-Journals finalize transfer next world world' e h =
      finalize_import-Journals transfer next world world' (ground (arith, e, h))
  in_phase-Journals record_source_receipt transfer next world world' e h =
      record_receipt-Journals transfer next world world' (ground (arith, e, h))
  in_phase-Journals cleanup_source transfer next world world' e h =
      clean_source-Journals transfer next world world' (ground (arith, e, h))
  in_phase-Journals cleanup_destination transfer next world world' e h =
      absurd (clean_destination-finishes targets transfer next world world' (ground (arith, e, h)))

  -- Where an iteration of the loop goes on with a record, the record is well-formed, and the journal
  -- on the disk it left gives just this record when it is loaded: a crash right after the iteration
  -- resumes where the loop is. The encoding of the record is assumed to be readable.
  pub transfer_step-load_transfer :
      (transfer next : TransferRecord) (world world' : World T)
      → transfer_step targets transfer world ≡ (ok (goes_on next), world')
      → targets.formats.decode (targets.formats.encode next) ≡ some next
      → (validate_transfer targets.formats next ≡ true)
        × (load_transfer targets.formats world'.disk ≡ (ok (some next), world'.disk))
  unfolding load_transfer read_secure_regular_file
  transfer_step-load_transfer transfer next world world' h readable =
      let (holds, valid, fits) =
        in_phase-Journals transfer.phase transfer next world world' refl h in
      (valid, rw (holds, fits, readable, valid))
