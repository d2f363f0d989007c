-- ===== src/ControllerJournal/Settling.antt =====
-- One operation from its preparation to its settlement (src/controller_identity/journal.rs).
use nazo_auth_ctl.Prelude.{ℕ, ◌≡◌, refl, true, Option, none, some, List, ◌∷◌, eq_refl, arith}
use nazo_auth_ctl.Prelude.Exec.{Outcome, ok, err, ◌>>◌}
use nazo_auth_ctl.Disk.{
  Disk, WriteFate, persisted, atomic_write, remove_file_durable, read_secure_regular_file,
}
use nazo_auth_ctl.ControllerJournal.{
  OperationJournalEntry, dispatched, has_same_identity, Protocol, validate_entry, load,
  record_dispatched, mark_accepted_if_matches, clear_if_matches, Refusal,
}
use nazo_auth_ctl.ControllerJournal.Slot.{
  IsStorable, as_accepted, load-encode, validate_entry-as_accepted,
}

-- The entry of a later attempt that sends the same request.
abbrev pub prepared_again : ℕ → OperationJournalEntry → OperationJournalEntry
prepared_again now entry = record entry { created_at = now }

module _ (protocol : Protocol) where
  has_same_identity_refl : (entry : OperationJournalEntry) → has_same_identity entry entry ≡ true
  unfolding has_same_identity
  has_same_identity_refl entry =
      rw
        (
          eq_refl entry.operation_id,
          eq_refl entry.request_hash,
          eq_refl entry.kid,
          eq_refl entry.compact_jws,
        )
        refl

  -- The entry that stays in the slot: the one found there, or else the new one.
  abbrev kept_entry :
      OperationJournalEntry → Outcome Refusal (Option OperationJournalEntry) → OperationJournalEntry
  kept_entry entry (ok (some existing)) = existing
  kept_entry entry (ok none) = entry
  kept_entry entry (err refusal) = entry

  recorded :
      (entry : OperationJournalEntry) (disk : Disk) {disk' : Disk}
      → IsStorable protocol entry
      → record_dispatched protocol entry disk ≡ (ok tt, disk')
      → let kept = kept_entry entry (load protocol disk.file) in
        (load protocol disk'.file ≡ ok (some kept))
        × ((has_same_identity kept entry ≡ true) × (kept.state ≡ dispatched))
  unfolding record_dispatched atomic_write
  recorded entry disk storable h =
      ground (arith, h, load-encode protocol entry storable, has_same_identity_refl entry)

  conforming_entry :
      (entry : OperationJournalEntry) (disk : Disk) {disk' : Disk}
      → record_dispatched protocol entry disk ≡ (ok tt, disk')
      → (validate_entry protocol entry ≡ true) × (entry.state ≡ dispatched)
  unfolding record_dispatched
  conforming_entry entry disk h = ground (arith, h)

  again :
      (entry kept : OperationJournalEntry) (disk : Disk) (now : ℕ)
      → load protocol disk.file ≡ ok (some kept)
      → has_same_identity kept entry ≡ true
      → kept.state ≡ dispatched
      → entry.state ≡ dispatched
      → validate_entry protocol entry ≡ true
      → record_dispatched protocol (prepared_again now entry) disk ≡ (ok tt, disk)
  unfolding record_dispatched has_same_identity validate_entry
  again entry kept disk now l i k e v = ground (arith, l, i, k, e, v)

  -- A recorded operation is durable before its dispatch, and an attempt that prepares it again is
  -- no second one: after a call that returned, the slot holds a dispatched entry with the identity
  -- of the recorded one, and the same request recorded at any later time returns and leaves the
  -- file alone. It is stated for an entry that reads back from its file.
  pub record_dispatched-durable :
      (entry : OperationJournalEntry) (disk : Disk) {disk' : Disk} (now : ℕ)
      → IsStorable protocol entry
      → record_dispatched protocol entry disk ≡ (ok tt, disk')
      → (kept : OperationJournalEntry) × ((load protocol disk'.file ≡ ok (some kept))
          × ((has_same_identity kept entry ≡ true)
              × ((kept.state ≡ dispatched)
                  × (record_dispatched protocol (prepared_again now entry) disk'
                      ≡ (ok tt, disk')))))
  record_dispatched-durable entry disk {disk'} now storable h =
      let (l, (i, k)) = recorded entry disk storable h in
      let (v, e) = conforming_entry entry disk h in
      (kept_entry entry (load protocol disk.file), (l, (i, (k, again entry _ disk' now l i k e v))))

  abbrev stored : OperationJournalEntry → List WriteFate → Disk
  stored entry fates = record { file = some (protocol.encode entry); fates = fates }

  abbrev empty_slot : List WriteFate → Disk
  empty_slot fates = record { file = none; fates = fates }

  module _ (entry : OperationJournalEntry) (v : validate_entry protocol entry ≡ true)
      (s : IsStorable protocol entry) (later : List WriteFate) where
    record-empty_slot :
        entry.state ≡ dispatched
        → record_dispatched protocol entry (empty_slot (persisted ∷ later))
          ≡ (ok tt, stored entry later)
    unfolding record_dispatched load read_secure_regular_file atomic_write
    record-empty_slot d = simp (v, d) refl

    accept-stored :
        entry.state ≡ dispatched
        → mark_accepted_if_matches protocol entry (stored entry (persisted ∷ later))
          ≡ (ok tt, stored (as_accepted entry) later)
    unfolding mark_accepted_if_matches atomic_write
    accept-stored d = simp (load-encode protocol entry s v, has_same_identity_refl entry, d) refl

    clear-stored :
        (expected : OperationJournalEntry)
        → has_same_identity entry expected ≡ true
        → clear_if_matches protocol expected (stored entry (persisted ∷ later))
          ≡ (ok tt, empty_slot later)
    unfolding clear_if_matches remove_file_durable
    clear-stored expected i = simp (load-encode protocol entry s v, i) refl

  -- The slot's whole cycle: an operation recorded in an empty slot, found accepted and then cleared
  -- by callers that hold the same identity, leaves the slot empty for the next one. It is stated
  -- for durable writes, and an entry that conforms, is dispatched, and reads back from its file in
  -- both of its states.
  pub record_dispatched-cycle :
      (entry : OperationJournalEntry) (later : List WriteFate)
      → validate_entry protocol entry ≡ true
      → entry.state ≡ dispatched
      → IsStorable protocol entry
      → IsStorable protocol (as_accepted entry)
      → (record_dispatched protocol entry
            >> (mark_accepted_if_matches protocol entry >> clear_if_matches protocol entry))
          (record { file = none; fates = persisted ∷ persisted ∷ persisted ∷ later })
        ≡ (ok tt, record { file = none; fates = later })
  unfolding has_same_identity
  record_dispatched-cycle entry later v d s t =
      simp
        (
          record-empty_slot entry v s (persisted ∷ persisted ∷ later) d,
          accept-stored entry v s (persisted ∷ later) d,
          clear-stored (as_accepted entry) (validate_entry-as_accepted protocol entry v) t later
              entry (has_same_identity_refl entry),
        )
        refl
