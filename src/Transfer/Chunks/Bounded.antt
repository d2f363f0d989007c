-- ===== src/Transfer/Chunks/Bounded.antt =====
-- The size of a partial file under admitted writes (src/target/wire.rs: HostOperation::validate,
-- src/target/backup_exec.rs: write_transfer_chunk).
use nazo_auth_ctl.Prelude.{
  ℕ, zero, suc, ◌+◌, ◌≤◌, ◌≡◌, refl, ap, String, Bool, none, some, List, [], ◌∷◌, length,
  length-append, take, arith,
}
use nazo_auth_ctl.Prelude.Exec.{Outcome, ok, err, continue}
use nazo_auth_ctl.Prelude.Slices.{drop, length-drop}
use nazo_auth_ctl.Disk.{
  Disk, File, WriteFate, persisted, refused, torn, unsynced, contents, next_fate, append_file,
  append_bytes, atomic_write, replace_file,
}
use nazo_auth_ctl.Wire.{HostOperation, HostOperationBody}
use nazo_auth_ctl.Wire.Admission.{Formats, validate_operation, max_backup_transfer_file_bytes}
use nazo_auth_ctl.Wire.Admission.Bindings.{validate_operation-transfer_fits}
use nazo_auth_ctl.Transfer.Chunks.{
  ChunkError, input_output, complete_chunk, written_at, write_transfer_chunk,
}
use nazo_auth_ctl.Transfer.Chunks.Appending.{append_file-file}

-- The length of a file; nothing stands for nothing.
abbrev pub size : File → ℕ
size file = length (contents file)

length-take_le : (n : ℕ) (xs : List ℕ) → length (take n xs) ≤ length xs
length-take_le zero xs = omega arith
length-take_le (suc n) [] = omega arith
length-take_le (suc n) (x ∷ xs) = omega (arith, length-take_le n xs)

append_bytes-size :
    (fate : WriteFate) (bytes : List ℕ) (file : File)
    → size (append_bytes fate bytes file).0 ≤ size file + length bytes
unfolding append_bytes
append_bytes-size persisted bytes file = omega (arith, length-append (contents file) bytes)
append_bytes-size refused bytes file = omega arith
append_bytes-size (torn n) bytes file =
    omega (arith, length-append (contents file) (take n bytes), length-take_le n bytes)
append_bytes-size unsynced bytes file = omega (arith, length-append (contents file) bytes)

-- What is created empty, or not at all.
created :
    (disk : Disk) → disk.file ≡ none → contents (replace_file input_output [] disk).1.file ≡ []
unfolding atomic_write
created disk f = ground (arith, f)

module _ (offset total : ℕ) (bytes : List ℕ) (ends : offset + length bytes ≤ total) where
  complete_chunk-size :
      (content : List ℕ) (disk : Disk)
      → contents disk.file ≡ content
      → length content ≤ total
      → size (complete_chunk offset bytes content disk).1.file ≤ total
  complete_chunk-size content disk f le =
      let rest = drop (length (drop offset content)) bytes in
      let appended : size (append_file input_output rest disk).1.file
          ≤ size disk.file + length rest =
        omega (
          arith,
          ap size (append_file-file rest disk),
          append_bytes-size (next_fate disk.fates) rest disk.file,
        ) in
      ground (
        arith,
        ends,
        le,
        appended,
        ap length f,
        length-drop offset content,
        length-drop (length (drop offset content)) bytes,
      )

  continue-size :
      (r : Outcome ChunkError (Unit {0})) (disk : Disk)
      → contents disk.file ≡ []
      → size (continue r (λ _. complete_chunk offset bytes []) disk).1.file ≤ total
  continue-size (ok tt) disk f = complete_chunk-size [] disk f (omega arith)
  continue-size (err e) disk f = omega (arith, ap length f)

  written_at-size :
      (regular : Bool) (file : File) (disk : Disk)
      → disk.file ≡ file
      → size file ≤ total
      → size (written_at regular offset bytes file disk).1.file ≤ total
  unfolding atomic_write
  written_at-size regular none disk f le = ground (
    arith,
    ap size f,
    continue-size (replace_file input_output [] disk).0 (replace_file input_output [] disk).1
        (created disk f),
  )
  written_at-size regular (some content) disk f le =
      ground (arith, ap size f, le, complete_chunk-size content disk (ap contents f) le)

-- A partial file that is no longer than the total that its chunks announce stays so under every
-- admitted write, whatever chunks came before, and whether the write succeeds, is refused, or fails
-- anywhere; the total is at most 64 GiB.
pub validate_operation-write_transfer_chunk :
    (formats : Formats) (operation : HostOperation) (transfer file_name sha256 : String)
    (offset total : ℕ) (bytes : List ℕ) (regular : Bool) (disk : Disk)
    → validate_operation formats operation ≡ ok tt
    → operation.operation
      ≡ HostOperationBody.backup_transfer_write transfer file_name offset total sha256 bytes
    → size disk.file ≤ total
    → (size (write_transfer_chunk regular offset bytes disk).1.file ≤ total)
      × (total ≤ max_backup_transfer_file_bytes)
unfolding write_transfer_chunk
validate_operation-write_transfer_chunk formats operation transfer file_name sha256 offset total
      bytes regular disk v e le =
    let (ends, bounded) =
      validate_operation-transfer_fits formats operation transfer file_name sha256 offset total
        bytes v e in
    (written_at-size offset total bytes ends regular disk.file disk refl le, bounded)
