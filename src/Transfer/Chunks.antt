-- ===== src/Transfer/Chunks.antt =====
-- One chunk of a backup on the two targets (src/target/backup_exec.rs: read_transfer_chunk,
-- write_transfer_chunk). The file is one entry of an operation's directory; what `fs` says of its
-- kind is an argument, and errors of opening and reading are left out.
pub mod Appending
pub mod Extending
pub mod Bounded
use Prim.Native.Nat.{◌%◌}
use nazo_auth_ctl.Prelude.{
  ℕ, zero, suc, ◌+◌, ◌-◌, ◌*◌, ◌≤◌, ◌≡◌, refl, ap, Bool, true, false, not, ◌&&◌, ◌||◌, Option, none,
  some, List, [], ◌∷◌, ◌++◌, length, take, leb, ltb, ◌==◌, if◌then◌else◌, arith,
}
use nazo_auth_ctl.Prelude.Exec.{Outcome, ok, err, Exec, pure, fail, ◌>>=◌, ◌>>◌}
use nazo_auth_ctl.Prelude.Slices.{drop, same_bytes}
use nazo_auth_ctl.Disk.{
  Disk, File, WriteFate, persisted, next_fate, replace_file, append_file, atomic_write,
  append_bytes,
}

-- All of these carry the code BACKUP_EXECUTION_FAILED.
pub data ChunkError : Type 0 where
  not_its_offset missing_chunks conflicting input_output no_longer_matches : ChunkError

-- The rest of the chunk behind what is there of it; refused where that differs.
abbrev complete_chunk : ℕ → List ℕ → List ℕ → Exec Disk ChunkError (Unit {0})
complete_chunk offset bytes content =
    let existing = drop offset content in
    if same_bytes existing (take (length existing) bytes)
    then append_file input_output (drop (length existing) bytes)
    else fail conflicting

abbrev written_at : Bool → ℕ → List ℕ → File → Exec Disk ChunkError (Unit {0})
written_at regular offset bytes none =
    if not (offset == 0)
    then fail missing_chunks
    else (replace_file input_output [] >> complete_chunk offset bytes [])
written_at regular offset bytes (some content) =
    if not regular
      || ltb (length content) offset
      || ltb ((offset + length bytes) % 0x10000000000000000) (length content)
    then fail not_its_offset
    else complete_chunk offset bytes content

unfoldable pub write_transfer_chunk : Bool → ℕ → List ℕ → Exec Disk ChunkError (Unit {0})
write_transfer_chunk regular offset bytes disk = written_at regular offset bytes disk.file disk

-- The bytes of the exported file from an offset on, at most `maximum` of them.
unfoldable pub read_chunk_bytes : Bool → ℕ → ℕ → ℕ → List ℕ → Outcome ChunkError (List ℕ)
read_chunk_bytes regular size offset maximum content =
    if not regular || not (length content == size) || leb (length content) offset
    then err no_longer_matches
    else ok (take maximum (drop offset content))
