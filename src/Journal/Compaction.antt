-- ===== src/Journal/Compaction.antt =====
-- What a compaction of the journal keeps (src/target/journal.rs: compact_lines). The code walks the
-- lines from the newest to the oldest, so the walks here are over the reversed journal.
pub mod Pending
pub mod Budget
use nazo_auth_ctl.Prelude.{
  ℕ, suc, ◌-◌, ◌+◌, String, Bool, true, false, not, ◌&&◌, ◌||◌, List, [], ◌∷◌, reverse, contains,
  leb, ltb, if◌then◌else◌,
}
use nazo_auth_ctl.Journal.{Codec, JournalLine, JournalBounds, JournalStatus, is_pending, line_bytes}

-- `seen.insert(..) && matches!(.., Pending)`: the newest line of its operation, and still pending.
abbrev pub is_unsettled : List String → JournalLine → Bool
is_unsettled seen line = not (contains seen line.operation_id) && is_pending line.status

-- The resume records, newest first: the latest line of each operation where that is pending.
unfoldable pub unsettled_from : List String → List JournalLine → List JournalLine
unsettled_from seen [] = []
unsettled_from seen (line ∷ older) =
    let rest = unsettled_from (line.operation_id ∷ seen) older in
    if is_unsettled seen line then line ∷ rest else rest

unfoldable pub unsettled : List JournalLine → List JournalLine
unfolding unsettled_from
unsettled lines = unsettled_from [] (reverse lines)

module _ (codec : Codec) where
  -- The bytes of all lines of a list.
  unfoldable pub total_bytes : List JournalLine → ℕ
  total_bytes [] = 0
  total_bytes (line ∷ lines) = line_bytes codec line + total_bytes lines

  -- The first walk: what the resume records leave of the hard budget (`saturating_sub`).
  unfoldable pub reserve : ℕ → List String → List JournalLine → ℕ
  reserve hard_budget seen [] = hard_budget
  reserve hard_budget seen (line ∷ older) =
      reserve (if is_unsettled seen line then hard_budget - line_bytes codec line else hard_budget)
        (line.operation_id ∷ seen) older

  module _ (bounds : JournalBounds) where
    -- `hard_budget >= size && (retained_terminals < min || budget >= size)`
    abbrev fits : ℕ → ℕ → ℕ → ℕ → Bool
    fits retained_terminals budget hard_budget size =
        leb size hard_budget
        && (ltb retained_terminals bounds.min_terminal_retained || leb size budget)

    -- A terminal line that stays, and is paid for from the budgets.
    abbrev pub spends : ℕ → ℕ → ℕ → JournalLine → Bool
    spends retained_terminals budget hard_budget line =
        not (is_pending line.status)
        && fits retained_terminals budget hard_budget (line_bytes codec line)

    -- The second walk: the lines that stay, newest first.
    unfoldable pub select : List String → ℕ → ℕ → ℕ → List JournalLine → List JournalLine
    select seen retained_terminals budget hard_budget [] = []
    select seen retained_terminals budget hard_budget (line ∷ older) =
        let size = line_bytes codec line in
        let paid = spends retained_terminals budget hard_budget line in
        let rest =
          select (line.operation_id ∷ seen)
            (if paid then suc retained_terminals else retained_terminals)
            (if paid then budget - size else budget)
            (if paid then hard_budget - size else hard_budget) older in
        if is_unsettled seen line || paid then line ∷ rest else rest

    unfoldable pub compact_lines : List JournalLine → List JournalLine
    unfolding reserve select
    compact_lines lines =
        let newest_first = reverse lines in
        let hard_budget = reserve bounds.max_bytes [] newest_first in
        reverse (select [] 0 bounds.target_bytes hard_budget newest_first)
