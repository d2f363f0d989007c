-- ===== src/Journal/Running/Steady.antt =====
-- A journal in its steady state: whole, valid records within the steady-state cap
-- (src/target/journal.rs: compact_if_needed, read_lines_with), and what the writer does with it.
use nazo_auth_ctl.Prelude.{
  ℕ, ◌≤◌, ◌≡◌, refl, Bool, false, none, some, ap, ◌∙◌, length-append, List, [], ◌∷◌, ◌++◌,
  All-append, length, All, le→leb, arith,
}
use nazo_auth_ctl.Prelude.Exec.{ok}
use nazo_auth_ctl.Disk.{
  persisted, next_fate, later_fates, append_bytes, Disk, File, contents, read_secure_regular_file,
}
use nazo_auth_ctl.Journal.{Codec, JournalLine, JournalBounds, encode_all}
use nazo_auth_ctl.Journal.Reading.{read_lines_with}
use nazo_auth_ctl.Journal.Reading.RoundTrip.{IsStored, read_lines_with-encode_all}
use nazo_auth_ctl.Journal.Reading.Recovery.{encode_all-append}
use nazo_auth_ctl.Journal.Running.{append, compact_if_needed, exceeds}

-- The file holds exactly these records, and they need no compaction.
pub record IsSteady (codec : Codec) (bounds : JournalBounds) (lines : List JournalLine)
    (disk : Disk) : Type 0 where
  pub holds : contents disk.file ≡ encode_all codec lines
  pub stored : All (IsStored codec) lines
  pub within : length (encode_all codec lines) ≤ bounds.max_bytes
  pub readable : bounds.max_bytes ≤ bounds.read_cap

module _ (codec : Codec) where
  encode_all-eq-nil :
      (lines : List JournalLine)
      → All (IsStored codec) lines
      → [] ≡ encode_all codec lines
      → lines ≡ []
  encode_all-eq-nil [] h e = refl
  encode_all-eq-nil (line ∷ lines) h e = absurd (
      omega (
        arith,
        ap (length {A = ℕ}) e,
        length-append (codec.encode line) (10 ∷ encode_all codec lines),
      ))

  module _ (bounds : JournalBounds) (lines : List JournalLine) where
    read_steady_file :
        (repair : Bool) (file : File) (disk : Disk)
        → disk.file ≡ file
        → IsSteady codec bounds lines disk
        → read_lines_with codec bounds.read_cap repair disk ≡ (ok lines, disk)
    read_steady_file repair none disk f h =
        let empty = encode_all-eq-nil lines h.stored (simp f at h.holds) in
        unfold read_lines_with read_secure_regular_file in simp (f, empty)
    read_steady_file repair (some bytes) disk f h =
        read_lines_with-encode_all codec bounds.read_cap repair lines disk h.stored
          (f ∙ ap some (simp f at h.holds)) (omega (arith, h))

    -- The reader returns the records and changes nothing.
    pub read-IsSteady :
        (repair : Bool) (disk : Disk)
        → IsSteady codec bounds lines disk
        → read_lines_with codec bounds.read_cap repair disk ≡ (ok lines, disk)
    read-IsSteady repair disk h = read_steady_file repair disk.file disk refl h

    exceeds_steady_file :
        (file : File)
        → contents file ≡ encode_all codec lines
        → length (encode_all codec lines) ≤ bounds.max_bytes
        → exceeds codec bounds.max_bytes file ≡ false
    exceeds_steady_file none h w = refl
    exceeds_steady_file (some bytes) h w =
        simp (h, le→leb (length (encode_all codec lines)) bounds.max_bytes w)

    -- There is nothing to compact.
    pub compact_if_needed-IsSteady :
        (disk : Disk)
        → IsSteady codec bounds lines disk
        → compact_if_needed codec bounds disk ≡ (ok none, disk)
    unfolding compact_if_needed
    compact_if_needed-IsSteady disk h =
        rw (exceeds_steady_file disk.file h.holds h.within, compact_if_needed)

    -- One durable append to a steady journal adds one line, and the journal is steady if that fits.
    pub append-IsSteady :
        (line : JournalLine) (disk : Disk)
        → IsSteady codec bounds lines disk
        → next_fate disk.fates ≡ persisted
        → append codec line disk ≡ (
          ok tt,
          record {
            file = some (encode_all codec (lines ++ line ∷ []));
            fates = later_fates disk.fates;
          },
        )
    unfolding append_bytes
    append-IsSteady line disk h p = simp (p, h.holds, encode_all-append codec lines line)

    pub IsSteady-append :
        (line : JournalLine) (old new : Disk)
        → IsSteady codec bounds lines old
        → IsStored codec line
        → length (encode_all codec (lines ++ line ∷ [])) ≤ bounds.max_bytes
        → new.file ≡ some (encode_all codec (lines ++ line ∷ []))
        → IsSteady codec bounds (lines ++ line ∷ []) new
    IsSteady-append line old new h s fits f = record {
      holds = simp (f);
      stored = All-append (IsStored codec) lines (line ∷ []) h.stored (s, tt);
      within = fits;
      readable = h.readable;
    }
