-- ===== src/Journal/Reading.antt =====
-- Reading the journal file (src/target/journal.rs: read_lines_with). Only an incomplete last record
-- is dropped, and only the writer rewrites the file then.
pub mod RoundTrip
pub mod Recovery
use nazo_auth_ctl.Prelude.{ℕ, Bool, true, false, ◌&&◌, List, [], ◌∷◌, ◌++◌, if◌then◌else◌}
use nazo_auth_ctl.Prelude.Exec.{Outcome, ok, err, Exec, lift, pure, fail, ◌>>=◌, ◌>>◌}
use nazo_auth_ctl.Prelude.Utf8.{is_utf8, split_tail, lines}
use nazo_auth_ctl.Disk.{
  Disk, Read, found, missing, oversized, read_secure_regular_file, replace_file,
}
use nazo_auth_ctl.Journal.{
  Codec, JournalLine, Decoded, parsed, eof, malformed, validate_entry, JournalError,
  journal_invalid, io_failed,
}

module _ (codec : Codec) where
  -- The file's bytes once its last record is whole, and whether that changed them.
  abbrev repaired : List ℕ → List ℕ → Decoded → Outcome JournalError (List ℕ × Bool)
  repaired bytes complete (parsed _) = ok (bytes ++ 10 ∷ [], true)
  repaired bytes complete eof = ok (complete, true)
  repaired bytes complete malformed = err journal_invalid

  abbrev repaired_by : List ℕ → List ℕ → List ℕ → Outcome JournalError (List ℕ × Bool)
  repaired_by bytes complete [] = ok (bytes, false)
  repaired_by bytes complete (b ∷ tail) = repaired bytes complete (codec.decode (b ∷ tail))

  pub repair_tail : List ℕ → Outcome JournalError (List ℕ × Bool)
  repair_tail bytes = let (complete, tail) = split_tail bytes in repaired_by bytes complete tail

  abbrev prepend :
      JournalLine
      → Outcome JournalError (List JournalLine)
      → Outcome JournalError (List JournalLine)
  prepend entry (ok entries) = ok (entry ∷ entries)
  prepend entry (err e) = err e

  -- One record, in front of the records after it.
  abbrev checked :
      Decoded → Outcome JournalError (List JournalLine) → Outcome JournalError (List JournalLine)
  checked (parsed entry) rest =
      if validate_entry codec entry then prepend entry rest else err journal_invalid
  checked eof rest = err journal_invalid
  checked malformed rest = err journal_invalid

  pub parse_lines : List (List ℕ) → Outcome JournalError (List JournalLine)
  parse_lines [] = ok []
  parse_lines ([] ∷ rest) = err journal_invalid
  parse_lines ((b ∷ line) ∷ rest) =
      let entries = parse_lines rest in checked (codec.decode (b ∷ line)) entries

  -- Only the writer repairs, and only after every complete record is valid.
  abbrev pub rewrite : Bool → List ℕ → Exec Disk JournalError (Unit {0})
  rewrite true bytes = replace_file io_failed bytes
  rewrite false bytes = pure tt

  abbrev pub read_bytes : Bool → List ℕ → Exec Disk JournalError (List JournalLine)
  read_bytes repair bytes = do
    (whole, changed) ← lift (repair_tail bytes)
    if is_utf8 whole then pure tt else fail journal_invalid
    entries ← lift (parse_lines (lines whole))
    rewrite (changed && repair) whole
    pure entries

  abbrev pub read_found : Bool → Read → Exec Disk JournalError (List JournalLine)
  read_found repair missing = pure []
  read_found repair oversized = fail io_failed
  read_found repair (found bytes) = read_bytes repair bytes

  unfoldable pub read_lines_with : ℕ → Bool → Exec Disk JournalError (List JournalLine)
  unfolding repair_tail parse_lines
  read_lines_with read_cap repair disk =
      read_found repair (read_secure_regular_file read_cap disk.file) disk
