-- ===== src/Transfer/Chunks/Appending.antt =====
-- A chunk that is appended, and appended again after a failed attempt
-- (src/target/backup_exec.rs: write_transfer_chunk).
use nazo_auth_ctl.Prelude.{
  ℕ, zero, suc, ◌+◌, ◌≤◌, ◌<◌, ◌≡◌, refl, sym, ap, ◌∙◌, Bool, true, some, none, List, [], ◌++◌,
  length, length-append, append_assoc, take, arith,
}
use nazo_auth_ctl.Prelude.Exec.{ok}
use nazo_auth_ctl.Prelude.Slices.{
  drop, same_bytes, take_all, take-drop, drop-append, length-take, same_bytes_refl, same_bytes-eq,
  take_more,
}
use nazo_auth_ctl.Disk.{
  Disk, File, WriteFate, persisted, refused, torn, unsynced, contents, next_fate, append_file,
  append_bytes, atomic_write,
}
use nazo_auth_ctl.Transfer.Chunks.{input_output, complete_chunk, written_at, write_transfer_chunk}

-- A file that ends within the chunk agrees with the chunk, once the chunk is written over it.
existing_agrees :
    (offset : ℕ) (bytes content : List ℕ)
    → same_bytes (drop offset content) (take (length (drop offset content)) bytes) ≡ true
    → content ++ drop (length (drop offset content)) bytes ≡ take offset content ++ bytes
existing_agrees offset bytes content h =
    ap (λ xs. xs ++ rest) (sym (take-drop offset content))
    ∙ append_assoc (take offset content) (drop offset content) rest
    ∙ ap (λ xs. take offset content ++ (xs ++ rest)) (same_bytes-eq _ _ h)
    ∙ ap (λ xs. take offset content ++ xs) (take-drop (length (drop offset content)) bytes)
  where
    rest : List ℕ
    rest = drop (length (drop offset content)) bytes

complete_chunk-agrees :
    (offset : ℕ) (bytes content : List ℕ) (disk disk' : Disk)
    → disk.file ≡ some content
    → complete_chunk offset bytes content disk ≡ (ok tt, disk')
    → disk'.file ≡ some (take offset content ++ bytes)
unfolding append_bytes
complete_chunk-agrees offset bytes content disk disk' f h =
    ground (arith, f, h, existing_agrees offset bytes content)

take-nil : (n : ℕ) → take {A = ℕ} n [] ≡ []
take-nil zero = refl
take-nil (suc n) = refl

written_at-agrees :
    (regular : Bool) (offset : ℕ) (bytes : List ℕ) (file : File) (disk disk' : Disk)
    → disk.file ≡ file
    → written_at regular offset bytes file disk ≡ (ok tt, disk')
    → disk'.file ≡ some (take offset (contents file) ++ bytes)
unfolding atomic_write append_bytes
written_at-agrees regular offset bytes none disk disk' f h =
    ground (arith, f, h, take-nil offset, complete_chunk-agrees offset bytes [])
written_at-agrees regular offset bytes (some content) disk disk' f h =
    ground (arith, f, h, complete_chunk-agrees offset bytes content disk disk' f)

-- After a call that returned Ok, the chunk is what the file holds from the chunk's offset on, and all that it
-- holds; in front of it the file is as it was.
pub write_transfer_chunk-agrees :
    (regular : Bool) (offset : ℕ) (bytes : List ℕ) (disk disk' : Disk)
    → write_transfer_chunk regular offset bytes disk ≡ (ok tt, disk')
    → disk'.file ≡ some (take offset (contents disk.file) ++ bytes)
unfolding write_transfer_chunk
write_transfer_chunk-agrees regular offset bytes disk disk' h =
    written_at-agrees regular offset bytes disk.file disk disk' refl h

module _ (before bytes : List ℕ) (k : ℕ) (le : k ≤ length bytes) where
  -- The file with the first bytes of the chunk.
  abbrev partial : List ℕ
  partial = before ++ take k bytes

  complete_chunk-partial :
      (disk : Disk)
      → complete_chunk (length before) bytes partial disk
        ≡ append_file input_output (drop k bytes) disk
  complete_chunk-partial disk =
      rw (drop-append before (take k bytes), length-take k bytes le, same_bytes_refl (take k bytes))

  written_at-partial :
      (disk : Disk)
      → length before + length bytes < 0x10000000000000000
      → written_at true (length before) bytes (some partial) disk
        ≡ append_file input_output (drop k bytes) disk
  written_at-partial disk fits = ground (
    arith,
    fits,
    le,
    length-append before (take k bytes),
    length-take k bytes le,
    complete_chunk-partial disk,
  )

  append_whole : partial ++ drop k bytes ≡ before ++ take (length bytes) bytes
  append_whole =
      append_assoc before (take k bytes) (drop k bytes)
      ∙ ap (λ xs. before ++ xs) (take-drop k bytes ∙ sym (take_all bytes))

  append_bytes-partial :
      (fate : WriteFate)
      → (k' : ℕ) × (k ≤ k')
        × ((append_bytes fate (drop k bytes) (some partial)).0 ≡ some (before ++ take k' bytes))
  unfolding append_bytes
  append_bytes-partial persisted = (length bytes, le, ap some append_whole)
  append_bytes-partial refused = (k, omega arith, refl)
  append_bytes-partial (torn n) = (
    k + n,
    omega arith,
    ap some (
        append_assoc before (take k bytes) (take n (drop k bytes))
        ∙ ap (λ xs. before ++ xs) (take_more n k bytes le)),
  )
  append_bytes-partial unsynced = (length bytes, le, ap some append_whole)

pub append_file-file :
    (bytes : List ℕ) (disk : Disk)
    → (append_file input_output bytes disk).1.file
      ≡ (append_bytes (next_fate disk.fates) bytes disk.file).0
unfolding append_bytes
append_file-file bytes disk = ground arith

append_file-persisted :
    (bytes : List ℕ) (disk : Disk)
    → next_fate disk.fates ≡ persisted
    → (append_file input_output bytes disk).0 ≡ ok tt
unfolding append_bytes
append_file-persisted bytes disk h = rw h

-- A regular file that ends within the chunk, such as one that failed attempts left, keeps its bytes
-- and what is in front of the chunk through another attempt, whatever becomes of its write: it ends
-- at the same place of the chunk or at a later one. An attempt whose write meets no fault succeeds,
-- where the chunk's end is a 64-bit number.
pub write_transfer_chunk-converges :
    (before bytes : List ℕ) (k : ℕ) (disk : Disk)
    → disk.file ≡ some (before ++ take k bytes)
    → k ≤ length bytes
    → length before + length bytes < 0x10000000000000000
    → let (r, disk') = write_transfer_chunk true (length before) bytes disk in
      ((k' : ℕ) × (k ≤ k') × (disk'.file ≡ some (before ++ take k' bytes)))
      × (next_fate disk.fates ≡ persisted → r ≡ ok tt)
unfolding write_transfer_chunk append_bytes
write_transfer_chunk-converges before bytes k disk f le fits =
    let appends =
      ap (λ file. written_at true (length before) bytes file disk) f
      ∙ written_at-partial before bytes k le disk fits in
    let (k', more, same) = append_bytes-partial before bytes k le (next_fate disk.fates) in
    (
      (
        k',
        more,
        ap (λ p. p.1.file) appends
            ∙ append_file-file (drop k bytes) disk
            ∙ ap (λ file. (append_bytes (next_fate disk.fates) (drop k bytes) file).0) f
            ∙ same,
      ),
      λ h. ap (λ p. p.0) appends ∙ append_file-persisted (drop k bytes) disk h,
    )
