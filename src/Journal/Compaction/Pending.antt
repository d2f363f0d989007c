-- ===== src/Journal/Compaction/Pending.antt =====
-- A compaction (src/target/journal.rs: compact_lines) loses no resume record and adds none.
use mathlib.Core.List.{reverse-reverse}
use nazo_auth_ctl.Prelude.{
  ℕ, suc, ◌-◌, ◌||◌, if◌then◌else◌, ◌≡◌, refl, String, true, false, List, [], ◌∷◌, reverse,
  contains, arith, Bool-cases, inl, inr,
}
use nazo_auth_ctl.Journal.{Codec, JournalLine, JournalBounds, line_bytes}
use nazo_auth_ctl.Journal.Compaction.{
  unsettled_from, unsettled, select, spends, compact_lines, is_unsettled,
}

-- Every operation that the first list has is in the second.
abbrev Within : List String → List String → Type 0
Within few many = (s : String) → contains few s ≡ true → contains many s ≡ true

Within-cons : (a : String) (few many : List String) → Within few many → Within (a ∷ few) (a ∷ many)
Within-cons a few many h s e = ground (arith, h s)

Within-skip : (a : String) (few many : List String) → Within few many → Within few (a ∷ many)
Within-skip a few many h s e = ground (arith, h s)

module _ (codec : Codec) (bounds : JournalBounds) where
  -- A line that stays is as unsettled among the lines that stay as among all.
  is_unsettled-Within :
      (few many : List String) (retained budget hard : ℕ) (line : JournalLine)
      → Within few many
      → (is_unsettled many line || spends codec bounds retained budget hard line) ≡ true
      → is_unsettled few line ≡ is_unsettled many line
  is_unsettled-Within few many retained budget hard line h stays =
      ground (arith, h line.operation_id)

  is_unsettled-of_dropped :
      (many : List String) (retained budget hard : ℕ) (line : JournalLine)
      → (is_unsettled many line || spends codec bounds retained budget hard line) ≡ false
      → is_unsettled many line ≡ false
  is_unsettled-of_dropped many retained budget hard line goes = ground arith

  unsettled_from-select :
      (few many : List String) (retained budget hard : ℕ) (lines : List JournalLine)
      → Within few many
      → unsettled_from few (select codec bounds many retained budget hard lines)
        ≡ unsettled_from many lines
  unfolding unsettled_from select
  unsettled_from-select few many retained budget hard [] h = refl
  unsettled_from-select few many retained budget hard (line ∷ older) h =
      let paid = spends codec bounds retained budget hard line in
      let id = line.operation_id in
      let kept =
        unsettled_from-select (id ∷ few) (id ∷ many) (if paid then suc retained else retained)
          (if paid then budget - line_bytes codec line else budget)
          (if paid then hard - line_bytes codec line else hard) older (Within-cons id few many h) in
      let dropped =
        unsettled_from-select few (id ∷ many) (if paid then suc retained else retained)
          (if paid then budget - line_bytes codec line else budget)
          (if paid then hard - line_bytes codec line else hard) older (Within-skip id few many h) in
      elim (Bool-cases (is_unsettled many line || paid)) [
        | inl stays ↦
            rw (stays, kept, is_unsettled-Within few many retained budget hard line h stays)
        | inr goes ↦ rw (goes, dropped, is_unsettled-of_dropped many retained budget hard line goes)
      ]

  -- The resume records of a journal, in their order, are those of the compacted journal.
  pub unsettled-compact_lines :
      (lines : List JournalLine) → unsettled (compact_lines codec bounds lines) ≡ unsettled lines
  unfolding unsettled compact_lines
  unsettled-compact_lines lines =
      rw reverse-reverse (unsettled_from-select [] [] _ _ _ (reverse lines) (λ s e. e))
