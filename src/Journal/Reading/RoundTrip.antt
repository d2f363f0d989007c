-- ===== src/Journal/Reading/RoundTrip.antt =====
-- What a reader of the journal (src/target/journal.rs: read_lines_with) makes of a file of whole
-- records.
use nazo_auth_ctl.Prelude.{
  ℕ, ◌≤◌, ◌≡◌, refl, Bool, true, false, ◌&&◌, ◌≢◌, some, List, [], ◌∷◌, ◌++◌, length, All, le→leb,
  append-nil, append_assoc,
}
use nazo_auth_ctl.Prelude.Exec.{ok, pure, ◌>>◌}
use nazo_auth_ctl.Prelude.Utf8.{is_utf8, is_utf8-append, is_utf8-newline, split_tail, lines}
use nazo_auth_ctl.Prelude.Utf8.Lines.{lines-line, split_tail-line}
use nazo_auth_ctl.Disk.{Disk, read_secure_regular_file}
use nazo_auth_ctl.Journal.{Codec, JournalLine, Encodes, encode_all, validate_entry, parsed}
use nazo_auth_ctl.Journal.Reading.{repair_tail, parse_lines, rewrite, read_lines_with}

-- A line that the codec writes and the journal's checks accept.
pub record IsStored (codec : Codec) (line : JournalLine) : Type 0 where
  pub encodes : Encodes codec line
  pub valid : validate_entry codec line ≡ true

module _ (codec : Codec) where
  parse_lines-record :
      (bytes : List ℕ) (line : JournalLine) (rest : List (List ℕ)) {entries : List JournalLine}
      → bytes ≢ []
      → codec.decode bytes ≡ parsed line
      → validate_entry codec line ≡ true
      → parse_lines codec rest ≡ ok entries
      → parse_lines codec (bytes ∷ rest) ≡ ok (line ∷ entries)
  unfolding parse_lines
  parse_lines-record [] line rest h d v r = absurd (h refl)
  parse_lines-record (b ∷ bytes) line rest h d v r = simp (d, v, r)

  pub parse_lines-encode_all :
      (entries : List JournalLine)
      → All (IsStored codec) entries
      → parse_lines codec (lines (encode_all codec entries)) ≡ ok entries
  parse_lines-encode_all [] h = unfold parse_lines lines in refl
  parse_lines-encode_all (line ∷ entries) h =
      rw (lines-line (codec.encode line) (encode_all codec entries) h.0.encodes.one_line) (
        parse_lines-record (codec.encode line) line (lines (encode_all codec entries))
          h.0.encodes.nonempty h.0.encodes.decoded h.0.valid (parse_lines-encode_all entries h.1))

  pub is_utf8-encode_all :
      (entries : List JournalLine)
      → All (IsStored codec) entries
      → is_utf8 (encode_all codec entries) ≡ true
  is_utf8-encode_all [] h = unfold is_utf8 in refl
  is_utf8-encode_all (line ∷ entries) h =
      rw
        (
          is_utf8-append (codec.encode line) (10 ∷ encode_all codec entries) h.0.encodes.utf8,
          is_utf8-newline (encode_all codec entries),
        )
        (is_utf8-encode_all entries h.1)

  pub split_tail-encode_all :
      (entries : List JournalLine) (t c tail : List ℕ)
      → split_tail t ≡ (c, tail)
      → split_tail (encode_all codec entries ++ t) ≡ (encode_all codec entries ++ c, tail)
  split_tail-encode_all [] t c tail h = h
  split_tail-encode_all (line ∷ entries) t c tail h =
      rw
        (
          append_assoc (codec.encode line) (10 ∷ encode_all codec entries) t,
          append_assoc (codec.encode line) (10 ∷ encode_all codec entries) c,
        )
        (split_tail-line (codec.encode line) (encode_all codec entries ++ t)
          (encode_all codec entries ++ c) tail (split_tail-encode_all entries t c tail h))

  repair_tail-encode_all :
      (entries : List JournalLine)
      → repair_tail codec (encode_all codec entries) ≡ ok (encode_all codec entries, false)
  unfolding repair_tail
  repair_tail-encode_all entries =
      let whole = split_tail-encode_all entries [] [] [] (unfold split_tail in refl) in
      simp (rw append-nil at whole)

  -- The whole reader, from what its parts answer.
  pub read_lines_with-parts :
      (read_cap : ℕ) (repair changed : Bool) (bytes whole : List ℕ) (entries : List JournalLine)
      (disk : Disk)
      → disk.file ≡ some bytes
      → length bytes ≤ read_cap
      → repair_tail codec bytes ≡ ok (whole, changed)
      → is_utf8 whole ≡ true
      → parse_lines codec (lines whole) ≡ ok entries
      → read_lines_with codec read_cap repair disk
        ≡ (rewrite codec (changed && repair) whole >> pure entries) disk
  unfolding read_lines_with read_secure_regular_file
  read_lines_with-parts read_cap repair changed bytes whole entries disk f s r u p =
      simp (f, le→leb (length bytes) read_cap s, r, u, p)

  -- A file of whole records within the cap is read back as these records, and left as it is.
  pub read_lines_with-encode_all :
      (read_cap : ℕ) (repair : Bool) (entries : List JournalLine) (disk : Disk)
      → All (IsStored codec) entries
      → disk.file ≡ some (encode_all codec entries)
      → length (encode_all codec entries) ≤ read_cap
      → read_lines_with codec read_cap repair disk ≡ (ok entries, disk)
  read_lines_with-encode_all read_cap repair entries disk h f s =
      read_lines_with-parts read_cap repair false (encode_all codec entries)
        (encode_all codec entries) entries disk f s (repair_tail-encode_all entries)
        (is_utf8-encode_all entries h) (parse_lines-encode_all entries h)
