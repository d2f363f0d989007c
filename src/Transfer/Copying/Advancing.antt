-- ===== src/Transfer/Copying/Advancing.antt =====
-- One iteration of the loop (src/controller/surface_run.rs: resume_backup_transfer,
-- copy_one_backup_chunk): an iteration that goes on leaves fewer bytes or phases, whatever the
-- targets answer, since an empty chunk is refused.
use nazo_auth_ctl.Prelude.{
  ℕ, zero, suc, ◌+◌, ◌-◌, ◌<◌, ◌≡◌, ◌≢◌, Option, none, some, List, [], ◌∷◌, length, ltb, arith,
  Bool-cases, Option-cases, inl, inr,
}
use nazo_auth_ctl.Prelude.Exec.{Outcome, ok, err, continue}
use nazo_auth_ctl.Transfer.{
  SnapshotFile, BackupTransferPlan, TransferPhase, source_prepare, destination_prepare, copying,
  finalize, record_source_receipt, cleanup_source, cleanup_destination, CopyCursor, TransferRecord,
  get_elem?, reset_cursor, Refusal,
}
use nazo_auth_ctl.Transfer.Exchange.{World, Targets, BackupTransferChunk}
use nazo_auth_ctl.Transfer.Copying.{
  proceed, write_chunk, read_chunk, deliver, goes_on, chunk_conforms, at_cursor, next_cursor,
  copy_one_backup_chunk, prepare_source, prepare_destination, finalize_import, record_receipt,
  clean_source, clean_destination,
}

-- The bytes and files that are left from an offset of a file on.
abbrev pub remaining : List SnapshotFile → ℕ → ℕ → ℕ
remaining [] index offset = 0
remaining (file ∷ files) zero offset = suc (file.size - offset) + remaining files zero 0
remaining (file ∷ files) (suc index) offset = remaining files index offset

remaining-further :
    (files : List SnapshotFile) (index offset further : ℕ) (file : SnapshotFile)
    → get_elem? files index ≡ some file
    → offset < further
    → further < file.size
    → remaining files index further < remaining files index offset
remaining-further [] index offset further file g l h = cc
remaining-further (f ∷ files) zero offset further file g l h = ground (arith, g, l, h)
remaining-further (f ∷ files) (suc index) offset further file g l h =
    remaining-further files index offset further file g l h

remaining-next :
    (files : List SnapshotFile) (index next offset : ℕ) (file : SnapshotFile)
    → next ≡ suc index
    → get_elem? files index ≡ some file
    → remaining files next 0 < remaining files index offset
remaining-next [] index next offset file e g = cc
remaining-next (f ∷ []) zero (suc zero) offset file e g = omega arith
remaining-next (f ∷ h ∷ files) zero (suc zero) offset file e g = omega arith
remaining-next (f ∷ files) zero zero offset file e g = absurd (omega (arith, e))
remaining-next (f ∷ files) zero (suc (suc next)) offset file e g = absurd (omega (arith, e))
remaining-next (f ∷ files) (suc index) zero offset file e g = absurd (omega (arith, e))
remaining-next (f ∷ files) (suc index) (suc next) offset file e g =
    remaining-next files index next offset file (omega (arith, e)) g

abbrev pub files_of : Option BackupTransferPlan → List SnapshotFile
files_of none = []
files_of (some plan) = plan.files

abbrev left_at : List SnapshotFile → Option CopyCursor → ℕ
left_at files none = 0
left_at files (some cursor) = remaining files cursor.file_index cursor.offset

-- The iterations that are left at most, for a record that has its plan.
abbrev steps_of : TransferPhase → List SnapshotFile → Option CopyCursor → ℕ
steps_of source_prepare files cursor = 0
steps_of destination_prepare files cursor = 6 + remaining files 0 0
steps_of copying files cursor = 5 + left_at files cursor
steps_of finalize files cursor = 4
steps_of record_source_receipt files cursor = 3
steps_of cleanup_source files cursor = 2
steps_of cleanup_destination files cursor = 1

abbrev pub steps_left : TransferRecord → ℕ
steps_left transfer = steps_of transfer.phase (files_of transfer.source_plan) transfer.cursor

nearer :
    (transfer : TransferRecord) (rest before : ℕ)
    → steps_left transfer ≡ 5 + rest
    → rest < before
    → (0 < steps_left transfer) × (steps_left transfer < 5 + before)
nearer transfer rest before e l = (omega (arith, e), omega (arith, e, l))

module _ {T : Type 0} (targets : Targets T) where
  pub prepare_destination-Nearer :
      (transfer next : TransferRecord) (world world' : World T)
      → prepare_destination targets transfer world ≡ (ok (goes_on next), world')
      → (steps_left next ≡ 5 + remaining (files_of transfer.source_plan) 0 0)
  unfolding reset_cursor
  prepare_destination-Nearer transfer next world world' h = ground arith

  at_cursor-steps_left :
      (transfer next : TransferRecord) (index offset : ℕ) (world world' : World T)
      → transfer.phase ≡ copying
      → at_cursor targets index offset transfer world ≡ (ok next, world')
      → steps_left next ≡ 5 + remaining (files_of transfer.source_plan) index offset
  unfolding reset_cursor
  at_cursor-steps_left transfer next index offset world world' p h = ground (arith, p, h)

  next_cursor-Nearer :
      (transfer next : TransferRecord) (cursor : CopyCursor) (file : SnapshotFile) (further : ℕ)
      (world world' : World T)
      → let files = files_of transfer.source_plan in
        transfer.phase ≡ copying
        → get_elem? files cursor.file_index ≡ some file
        → cursor.offset < further
        → next_cursor targets transfer cursor files file further world ≡ (ok next, world')
        → (0 < steps_left next)
          × (steps_left next < 5 + remaining files cursor.file_index cursor.offset)
  next_cursor-Nearer transfer next cursor file further world world' p g l h =
      elim (Bool-cases (ltb further file.size)) [
        | inl within ↦
            nearer next (remaining (files_of transfer.source_plan) cursor.file_index further) _
              (at_cursor-steps_left transfer next cursor.file_index further world world' p
                (ground (arith, h, within)))
              (remaining-further (files_of transfer.source_plan) cursor.file_index cursor.offset
                further file g l (ground (arith, within)))
        | inr past ↦
            elim (Bool-cases
              (ltb (cursor.file_index + 1) (length (files_of transfer.source_plan)))) [
                | inl more ↦
                    nearer next
                      (remaining (files_of transfer.source_plan) (cursor.file_index + 1) 0) _
                      (at_cursor-steps_left transfer next (cursor.file_index + 1) 0 world world' p
                        (ground (arith, h, past, more)))
                      (remaining-next (files_of transfer.source_plan) cursor.file_index
                        (cursor.file_index + 1) cursor.offset file (omega arith) g)
                | inr last ↦ ground (arith, h, past, last)
              ]
      ]

  pub finalize_import-Nearer :
      (transfer next : TransferRecord) (world world' : World T)
      → finalize_import targets transfer world ≡ (ok (goes_on next), world')
      → steps_left next ≡ 3
  finalize_import-Nearer transfer next world world' h = ground arith

  pub record_receipt-Nearer :
      (transfer next : TransferRecord) (world world' : World T)
      → record_receipt targets transfer world ≡ (ok (goes_on next), world')
      → steps_left next ≡ 2
  record_receipt-Nearer transfer next world world' h = ground arith

  pub clean_source-Nearer :
      (transfer next : TransferRecord) (world world' : World T)
      → clean_source targets transfer world ≡ (ok (goes_on next), world')
      → steps_left next ≡ 1
  clean_source-Nearer transfer next world world' h = ground arith

  pub clean_destination-finishes :
      (transfer next : TransferRecord) (world world' : World T)
      → clean_destination targets transfer world ≢ (ok (goes_on next), world')
  clean_destination-finishes transfer next world world' h = ground arith

  pub prepare_source-Nearer :
      (transfer next : TransferRecord) (world world' : World T)
      → prepare_source targets transfer world ≡ (ok (goes_on next), world')
      → 0 < steps_left next
  prepare_source-Nearer transfer next world world' h = ground arith

  proceed-Nearer :
      (transfer next : TransferRecord) (cursor : CopyCursor) (file : SnapshotFile) (consumed : ℕ)
      (world world' : World T)
      → let files = files_of transfer.source_plan in
        transfer.phase ≡ copying
        → get_elem? files cursor.file_index ≡ some file
        → 0 < consumed
        → proceed targets transfer cursor files file consumed world ≡ (ok (goes_on next), world')
        → (0 < steps_left next)
          × (steps_left next < 5 + remaining files cursor.file_index cursor.offset)
  proceed-Nearer transfer next cursor file consumed world world' p g l h =
      next_cursor-Nearer transfer next cursor file (cursor.offset + consumed) world
        (next_cursor targets transfer cursor (files_of transfer.source_plan) file
          (cursor.offset + consumed) world).1
        p g (omega (arith, l)) (ground (arith, h))

  deliver-Nearer :
      (transfer next : TransferRecord) (cursor : CopyCursor) (file : SnapshotFile)
      (chunk : BackupTransferChunk) (world world' : World T)
      → let files = files_of transfer.source_plan in
        transfer.phase ≡ copying
        → get_elem? files cursor.file_index ≡ some file
        → deliver targets transfer cursor files file chunk world ≡ (ok (goes_on next), world')
        → (0 < steps_left next)
          × (steps_left next < 5 + remaining files cursor.file_index cursor.offset)
  unfolding chunk_conforms
  deliver-Nearer transfer next cursor file chunk world world' p g h =
      proceed-Nearer transfer next cursor file (length chunk.bytes)
        (write_chunk targets transfer cursor chunk world).1 world' p g (ground (arith, h))
        (ground (arith, h))

  received-Nearer :
      (transfer next : TransferRecord) (cursor : CopyCursor) (file : SnapshotFile)
      (chunk : Outcome Refusal BackupTransferChunk) (world world' : World T)
      → let files = files_of transfer.source_plan in
        transfer.phase ≡ copying
        → get_elem? files cursor.file_index ≡ some file
        → continue chunk (deliver targets transfer cursor files file) world
          ≡ (ok (goes_on next), world')
        → (0 < steps_left next)
          × (steps_left next < 5 + remaining files cursor.file_index cursor.offset)
  received-Nearer transfer next cursor file (ok chunk) world world' p g h =
      deliver-Nearer transfer next cursor file chunk world world' p g h
  received-Nearer transfer next cursor file (err e) world world' p g h = ground (arith, h)

  pub copy_one_backup_chunk-Nearer :
      (transfer next : TransferRecord) (world world' : World T)
      → transfer.phase ≡ copying
      → copy_one_backup_chunk targets transfer world ≡ (ok (goes_on next), world')
      → (0 < steps_left next) × (steps_left next < steps_left transfer)
  unfolding copy_one_backup_chunk
  copy_one_backup_chunk-Nearer transfer next world world' p h =
      elim (Option-cases transfer.source_plan) [
        | inl absent ↦ ground (arith, absent, h)
        | inr (plan, e) ↦ elim (Option-cases transfer.cursor) [
          | inl absent ↦ ground (arith, e, absent, h)
          | inr (cursor, c) ↦ elim (Option-cases (get_elem? plan.files cursor.file_index)) [
            | inl absent ↦ ground (arith, e, c, absent, h)
            | inr (file, g) ↦
                let (read, after) = read_chunk targets transfer cursor file world in
                ground (
                  arith,
                  p,
                  e,
                  c,
                  received-Nearer transfer next cursor file read after world' p
                      (ground (arith, e, g)) (ground (arith, e, c, g, h)),
                )
          ]
        ]
      ]
