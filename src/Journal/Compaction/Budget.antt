-- ===== src/Journal/Compaction/Budget.antt =====
-- The size of a compacted journal (src/target/journal.rs: compact_lines).
use nazo_auth_ctl.Prelude.{
  ℕ, suc, ◌+◌, ◌-◌, ◌≤◌, ◌≡◌, refl, String, List, [], ◌∷◌, ◌++◌, reverse, length, length-append,
  arith, if◌then◌else◌, max,
}
use mathlib.Core.List.{reverse-cons}
use nazo_auth_ctl.Journal.{Codec, JournalLine, JournalBounds, line_bytes, encode_all}
use nazo_auth_ctl.Journal.Compaction.{
  unsettled_from, unsettled, total_bytes, reserve, spends, select, compact_lines,
}

module _ (codec : Codec) where
  -- What the first walk takes is the size of the resume records.
  reserve-eq :
      (hard : ℕ) (seen : List String) (lines : List JournalLine)
      → reserve codec hard seen lines ≡ hard - total_bytes codec (unsettled_from seen lines)
  unfolding reserve unsettled_from total_bytes
  reserve-eq hard seen [] = omega arith
  reserve-eq hard seen (line ∷ older) = ground (
    arith,
    reserve-eq (hard - line_bytes codec line) (line.operation_id ∷ seen) older,
    reserve-eq hard (line.operation_id ∷ seen) older,
  )

  module _ (bounds : JournalBounds) where
    -- Past the resume records, what stays fits the hard budget.
    total_bytes-select :
        (seen : List String) (retained budget hard : ℕ) (lines : List JournalLine)
        → total_bytes codec (select codec bounds seen retained budget hard lines)
          ≤ hard + total_bytes codec (unsettled_from seen lines)
    unfolding select unsettled_from total_bytes
    total_bytes-select seen retained budget hard [] = omega arith
    total_bytes-select seen retained budget hard (line ∷ older) =
        let paid = spends codec bounds retained budget hard line in
        ground (
          arith,
          total_bytes-select (line.operation_id ∷ seen) (if paid then suc retained else retained)
              (if paid then budget - line_bytes codec line else budget)
              (if paid then hard - line_bytes codec line else hard) older,
        )

  total_bytes-append :
      (xs ys : List JournalLine)
      → total_bytes codec (xs ++ ys) ≡ total_bytes codec xs + total_bytes codec ys
  unfolding total_bytes
  total_bytes-append [] ys = omega arith
  total_bytes-append (x ∷ xs) ys = omega (arith, total_bytes-append xs ys)

  total_bytes-reverse :
      (xs : List JournalLine) → total_bytes codec (reverse xs) ≡ total_bytes codec xs
  unfolding total_bytes
  total_bytes-reverse [] = refl
  total_bytes-reverse (x ∷ xs) =
      rw (reverse-cons x xs, total_bytes-append (reverse xs) (x ∷ []))
        (omega (arith, total_bytes-reverse xs))

  -- The bytes of a file are those of its lines.
  pub length-encode_all :
      (lines : List JournalLine) → length (encode_all codec lines) ≡ total_bytes codec lines
  unfolding total_bytes
  length-encode_all [] = refl
  length-encode_all (line ∷ lines) = omega (
    arith,
    length-append (codec.encode line) (10 ∷ encode_all codec lines),
    length-encode_all lines,
  )

  -- The compacted file is within the steady-state cap, unless the resume records alone are larger:
  -- then it is at most as large as these.
  pub compact_lines_bounded :
      (bounds : JournalBounds) (lines : List JournalLine)
      → length (encode_all codec (compact_lines codec bounds lines))
        ≤ max bounds.max_bytes (length (encode_all codec (unsettled lines)))
  unfolding compact_lines unsettled
  compact_lines_bounded bounds lines = omega (
    arith,
    length-encode_all (unsettled_from [] (reverse lines)),
    length-encode_all (compact_lines codec bounds lines),
    total_bytes-reverse (
        select codec bounds [] 0 bounds.target_bytes
          (reserve codec bounds.max_bytes [] (reverse lines)) (reverse lines)),
    total_bytes-select bounds [] 0 bounds.target_bytes
        (reserve codec bounds.max_bytes [] (reverse lines)) (reverse lines),
    reserve-eq bounds.max_bytes [] (reverse lines),
  )
