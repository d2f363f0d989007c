-- ===== src/ControllerJournal/Slot.antt =====
-- An occupied slot (src/controller_identity/journal.rs).
use nazo_auth_ctl.Prelude.{◌≡◌, ◌+◌, ◌≤◌, ◌⊎◌, inl, inr, true, false, some, length, arith}
use nazo_auth_ctl.Prelude.Exec.{ok}
use nazo_auth_ctl.Disk.{Disk, read_secure_regular_file, atomic_write}
use nazo_auth_ctl.ControllerJournal.{
  OperationJournalEntry, accepted, has_same_identity, Protocol, validate_entry, load,
  record_dispatched, mark_accepted_if_matches, clear_if_matches, Call, records, accepts,
  clears_matching, clears, run_call, Reaches, here, next,
}

abbrev pub as_accepted : OperationJournalEntry → OperationJournalEntry
as_accepted entry = record entry { state = accepted }

-- A call that is not meant to free the slot of the entry.
abbrev pub SparesEntry : OperationJournalEntry → Call → Type 0
SparesEntry entry (records other) = Unit
SparesEntry entry (accepts other) = Unit
SparesEntry entry (clears_matching other) = has_same_identity entry other ≡ false
SparesEntry entry clears = ⊥

module _ (protocol : Protocol) where
  -- What is written for the entry reads back, and is not longer than what is read.
  abbrev pub IsStorable : OperationJournalEntry → Type 0
  IsStorable entry =
      (protocol.decode (protocol.encode entry) ≡ some entry)
      × (length (protocol.encode entry) ≤ protocol.max_compact_jws_bytes + 2048)

  pub load-encode :
      (entry : OperationJournalEntry)
      → IsStorable entry
      → validate_entry protocol entry ≡ true
      → load protocol (some (protocol.encode entry)) ≡ ok (some entry)
  unfolding load read_secure_regular_file
  load-encode entry (d, fits) v = ground (arith, fits, d, v)

  pub load-validate_entry :
      (disk : Disk) (entry : OperationJournalEntry)
      → load protocol disk.file ≡ ok (some entry)
      → validate_entry protocol entry ≡ true
  unfolding load read_secure_regular_file
  load-validate_entry disk entry h = ground arith

  pub validate_entry-as_accepted :
      (entry : OperationJournalEntry)
      → validate_entry protocol entry ≡ true
      → validate_entry protocol (as_accepted entry) ≡ true
  unfolding validate_entry
  validate_entry-as_accepted entry h = h

  abbrev Holds : OperationJournalEntry → Disk → Type 0
  Holds entry disk = load protocol disk.file ≡ ok (some entry)

  module _ (entry : OperationJournalEntry) (storable : IsStorable (as_accepted entry)) where
    abbrev pub HoldsSome : Disk → Type 0
    HoldsSome disk = Holds entry disk ⊎ Holds (as_accepted entry) disk

    record-HoldsSome :
        (disk : Disk) (other : OperationJournalEntry)
        → HoldsSome disk
        → HoldsSome (record_dispatched protocol other disk).1
    unfolding record_dispatched
    record-HoldsSome disk other (inl h) = ground (arith, h)
    record-HoldsSome disk other (inr h) = ground (arith, h)

    clear-HoldsSome :
        (disk : Disk) (other : OperationJournalEntry)
        → has_same_identity entry other ≡ false
        → HoldsSome disk
        → HoldsSome (clear_if_matches protocol other disk).1
    unfolding clear_if_matches has_same_identity
    clear-HoldsSome disk other d (inl h) = ground (arith, h)
    clear-HoldsSome disk other d (inr h) = ground (arith, h)

    accept-HoldsSome :
        (disk : Disk) (other : OperationJournalEntry)
        → HoldsSome disk
        → HoldsSome (mark_accepted_if_matches protocol other disk).1
    unfolding mark_accepted_if_matches atomic_write
    accept-HoldsSome disk other (inl h) = ground (
      arith,
      h,
      load-encode (as_accepted entry) storable
          (validate_entry-as_accepted entry (load-validate_entry disk entry h)),
    )
    accept-HoldsSome disk other (inr h) = ground (arith, h)

    run_call-HoldsSome :
        (disk : Disk) (call : Call)
        → SparesEntry entry call
        → HoldsSome disk
        → HoldsSome (run_call protocol call disk).1
    unfolding run_call
    run_call-HoldsSome disk (records other) spares h = record-HoldsSome disk other h
    run_call-HoldsSome disk (accepts other) spares h = accept-HoldsSome disk other h
    run_call-HoldsSome disk (clears_matching other) spares h = clear-HoldsSome disk other spares h
    run_call-HoldsSome disk clears spares h = absurd spares

    -- An operation that occupies the slot is neither replaced nor rewound: through any sequence of
    -- calls by other callers, with any writes failing, the slot holds its entry as it was or accepted,
    -- and one that was accepted stays so. It is stated for an entry that reads back from its file once it
    -- is accepted, and for calls other than `clear` and the clearing of an entry with its identity.
    pub Reaches-HoldsSome :
        {disk disk' : Disk}
        → Reaches protocol (SparesEntry entry) disk disk'
        → HoldsSome disk
        → HoldsSome disk'
    Reaches-HoldsSome here h = h
    Reaches-HoldsSome {disk} (next call spares rest) h =
        Reaches-HoldsSome rest (run_call-HoldsSome disk call spares h)
