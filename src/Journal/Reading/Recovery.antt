-- ===== src/Journal/Reading/Recovery.antt =====
-- A crash in the middle of an append (src/target/journal.rs: append, read_lines_with).
use nazo_auth_ctl.Prelude.{
  ℕ, zero, suc, ap, sym, ◌∙◌, ◌≤◌, ◌≡◌, refl, ◌≢◌, ◌⊎◌, inl, inr, true, some, List, [], ◌∷◌, ◌++◌,
  length, length-append, take, all, All, All-append, append-nil, append_assoc, arith,
}
use native.Mathlib.Decide.{dec_lt}
use nazo_auth_ctl.Prelude.Exec.{ok, pure, ◌>>◌}
use nazo_auth_ctl.Prelude.Utf8.{is_line_byte}
use nazo_auth_ctl.Prelude.Utf8.Lines.{split_tail-tail}
use nazo_auth_ctl.Disk.{Disk, torn, append_file, append_bytes, atomic_write}
use nazo_auth_ctl.Journal.{Codec, JournalLine, io_failed, encode_all, eof}
use nazo_auth_ctl.Journal.Reading.{repair_tail, repaired, read_lines_with, rewrite}
use nazo_auth_ctl.Journal.Reading.RoundTrip.{
  IsStored, parse_lines-encode_all, is_utf8-encode_all, split_tail-encode_all,
  read_lines_with-parts, read_lines_with-encode_all,
}

all-take : (n : ℕ) (xs : List ℕ) → all is_line_byte xs ≡ true → all is_line_byte (take n xs) ≡ true
all-take zero xs h = refl
all-take (suc n) [] h = refl
all-take (suc n) (x ∷ xs) h = ground (arith, all-take n xs)

take-append_short : (n : ℕ) (xs ys : List ℕ) → n ≤ length xs → take n (xs ++ ys) ≡ take n xs
take-append_short zero xs ys h = refl
take-append_short (suc n) [] ys h = absurd (omega arith)
take-append_short (suc n) (x ∷ xs) ys h = ap (λ t. x ∷ t) (take-append_short n xs ys (omega arith))

pub take_all : (n : ℕ) (xs : List ℕ) → length xs ≤ n → take n xs ≡ xs
take_all zero [] h = refl
take_all zero (x ∷ xs) h = absurd (omega arith)
take_all (suc n) [] h = refl
take_all (suc n) (x ∷ xs) h = ap (λ t. x ∷ t) (take_all n xs (omega arith))

length-take-le : (n : ℕ) (xs : List ℕ) → length (take n xs) ≤ length xs
length-take-le zero xs = omega arith
length-take-le (suc n) [] = omega arith
length-take-le (suc n) (x ∷ xs) = omega (arith, length-take-le n xs)

module _ (codec : Codec) where
  -- What one append writes.
  abbrev pub record_bytes : JournalLine → List ℕ
  record_bytes line = codec.encode line ++ 10 ∷ []

  pub encode_all-append :
      (entries : List JournalLine) (line : JournalLine)
      → encode_all codec (entries ++ line ∷ []) ≡ encode_all codec entries ++ record_bytes line
  encode_all-append [] line = refl
  encode_all-append (entry ∷ entries) line =
      rw
        (
          encode_all-append entries line,
          append_assoc (codec.encode entry) (10 ∷ encode_all codec entries) (record_bytes line),
        )
        refl

  -- The tail that a crash leaves of a record decides what is repaired.
  repair_tail-tail :
      (entries : List JournalLine) (t : List ℕ)
      → t ≢ []
      → all is_line_byte t ≡ true
      → repair_tail codec (encode_all codec entries ++ t)
        ≡ repaired codec (encode_all codec entries ++ t) (encode_all codec entries) (codec.decode t)
  unfolding repair_tail
  repair_tail-tail entries [] h clean = absurd (h refl)
  repair_tail-tail entries (b ∷ t) h clean =
      let split =
        split_tail-encode_all codec entries (b ∷ t) [] (b ∷ t) (split_tail-tail (b ∷ t) clean) in
      simp (rw append-nil at split)

  module _ (read_cap : ℕ) (entries : List JournalLine) (line : JournalLine)
      (stored : All (IsStored codec) entries) (line_stored : IsStored codec line) where
    read-cut :
        (t : List ℕ) (disk : Disk)
        → t ≢ []
        → all is_line_byte t ≡ true
        → codec.decode t ≡ eof
        → disk.file ≡ some (encode_all codec entries ++ t)
        → length (encode_all codec entries ++ t) ≤ read_cap
        → read_lines_with codec read_cap true disk
          ≡ (rewrite codec true (encode_all codec entries) >> pure entries) disk
    read-cut t disk h clean d f s =
        read_lines_with-parts codec read_cap true true (encode_all codec entries ++ t)
          (encode_all codec entries) entries disk f s
          (repair_tail-tail entries t h clean
            ∙ ap (repaired codec (encode_all codec entries ++ t) (encode_all codec entries)) d)
          (is_utf8-encode_all codec entries stored) (parse_lines-encode_all codec entries stored)

    read-unended :
        (disk : Disk)
        → disk.file ≡ some (encode_all codec entries ++ codec.encode line)
        → length (encode_all codec entries ++ codec.encode line) ≤ read_cap
        → read_lines_with codec read_cap true disk
          ≡ (rewrite codec true (encode_all codec (entries ++ line ∷ []))
                >> pure (entries ++ line ∷ []))
              disk
    read-unended disk f s =
        let more =
          encode_all-append entries line
          ∙ sym (append_assoc (encode_all codec entries) (codec.encode line) (10 ∷ [])) in
        let all_stored = All-append (IsStored codec) entries (line ∷ []) stored (line_stored, tt) in
        read_lines_with-parts codec read_cap true true
          (encode_all codec entries ++ codec.encode line) (encode_all codec (entries ++ line ∷ []))
          (entries ++ line ∷ []) disk f s
          (repair_tail-tail entries (codec.encode line) line_stored.encodes.nonempty
              line_stored.encodes.one_line
            ∙ ap
                (repaired codec (encode_all codec entries ++ codec.encode line)
                  (encode_all codec entries))
                line_stored.encodes.decoded
            ∙ ap (λ bytes. ok (bytes, true)) (sym more))
          (is_utf8-encode_all codec (entries ++ line ∷ []) all_stored)
          (parse_lines-encode_all codec (entries ++ line ∷ []) all_stored)

    abbrev pub whole_file : List JournalLine → Disk
    whole_file kept = record { file = some (encode_all codec kept); fates = [] }

    abbrev pub crashed : ℕ → Disk
    crashed n =
        (append_file io_failed (record_bytes line)
          (record { file = some (encode_all codec entries); fates = torn n ∷ [] })).1

    -- The file after the crash, when the torn append left the bytes `t`.
    abbrev with_tail : List ℕ → Disk
    with_tail t = record { file = some (encode_all codec entries ++ t); fates = [] }

    abbrev pub Recovers : Disk → Type 0
    Recovers disk =
        (read_lines_with codec read_cap true disk ≡ (ok entries, whole_file entries))
        ⊎ (read_lines_with codec read_cap true disk
            ≡ (ok (entries ++ line ∷ []), whole_file (entries ++ line ∷ [])))

    Recovers-cut :
        (t : List ℕ)
        → all is_line_byte t ≡ true
        → codec.decode t ≡ eof
        → length (encode_all codec entries ++ t) ≤ read_cap
        → Recovers (with_tail t)
    unfolding atomic_write
    Recovers-cut [] clean d s = inl (
        rw append-nil (
          read_lines_with-encode_all codec read_cap true entries (whole_file entries) stored refl
            (rw append-nil at s)))
    Recovers-cut (b ∷ t) clean d s =
        inl (read-cut (b ∷ t) (with_tail (b ∷ t)) (λ e. cc) clean d refl s)

    Recovers-unended :
        length (encode_all codec entries ++ codec.encode line) ≤ read_cap
        → Recovers (with_tail (codec.encode line))
    unfolding atomic_write
    Recovers-unended s = inr (read-unended (with_tail (codec.encode line)) refl s)

    Recovers-whole :
        length (encode_all codec entries ++ record_bytes line) ≤ read_cap
        → Recovers (with_tail (record_bytes line))
    Recovers-whole s =
        let more = encode_all-append entries line in
        inr (
          rw (← more) (
            read_lines_with-encode_all codec read_cap true (entries ++ line ∷ [])
              (whole_file (entries ++ line ∷ []))
              (All-append (IsStored codec) entries (line ∷ []) stored (line_stored, tt)) refl
              (rw more s)))

    -- A crash at any byte of one append, and then a durable read by the writer: the records are
    -- those from before the append, or these and the appended one, and the file holds exactly these
    -- records. The conditions: the old records and the new one read back, and the file with all of
    -- them fits the read cap.
    pub torn_append-Recovers :
        (n : ℕ)
        → length (encode_all codec entries ++ record_bytes line) ≤ read_cap
        → Recovers (crashed n)
    unfolding append_bytes
    torn_append-Recovers n s = elim (dec_lt n (length (codec.encode line))) [
      | yes short ↦ rw (take-append_short n (codec.encode line) (10 ∷ []) (omega arith)) (
          Recovers-cut (take n (codec.encode line))
            (all-take n (codec.encode line) line_stored.encodes.one_line)
            (line_stored.encodes.cut_short n short)
            (omega (
              arith,
              s,
              length-append (encode_all codec entries) (take n (codec.encode line)),
              length-append (encode_all codec entries) (record_bytes line),
              length-append (codec.encode line) (10 ∷ []),
              length-take-le n (codec.encode line),
            )))
      | no long ↦ elim (dec_lt (length (codec.encode line)) n) [
        | yes past ↦
            rw
              (take_all n (record_bytes line)
                (omega (arith, length-append (codec.encode line) (10 ∷ []))))
              (Recovers-whole s)
        | no exact ↦
            rw
              (
                take-append_short n (codec.encode line) (10 ∷ []) (omega arith),
                take_all n (codec.encode line) (omega arith),
              )
              (Recovers-unended (
                omega (
                  arith,
                  s,
                  length-append (encode_all codec entries) (codec.encode line),
                  length-append (encode_all codec entries) (record_bytes line),
                  length-append (codec.encode line) (10 ∷ []),
                )))
      ]
    ]
