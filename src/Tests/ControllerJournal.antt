-- ===== src/Tests/ControllerJournal.antt =====
-- The theorems on the controller's journal (src/controller_identity/journal.rs) at concrete inputs.
use nazo_auth_ctl.Prelude.{
  ℕ, ◌≡◌, refl, ◌⊎◌, inl, true, false, Option, none, some, List, [], ◌∷◌, ◌==◌, if◌then◌else◌,
  arith,
}
use nazo_auth_ctl.Prelude.Exec.{ok}
use nazo_auth_ctl.Disk.{Disk, persisted, torn, atomic_write, read_secure_regular_file}
use nazo_auth_ctl.Identifiers.{is_lower_sha256}
use nazo_auth_ctl.ControllerJournal.{
  OperationJournalEntry, new_entry, JournalState, dispatched, accepted, has_same_identity, Protocol,
  validate_kid_shape, validate_entry, load, record_dispatched, mark_accepted_if_matches,
  clear_if_matches, records, accepts, clears_matching, run_call, Reaches, here, next,
}
use nazo_auth_ctl.ControllerJournal.Slot.{SparesEntry, as_accepted, Reaches-HoldsSome}
use nazo_auth_ctl.ControllerJournal.Settling.{prepared_again, record_dispatched-durable}
use nazo_auth_ctl.Tests.Sample.{hash}

abbrev entry : OperationJournalEntry
entry = record {
  schema = 2;
  operation_id = "018f";
  request_hash = hash;
  kid = "abcdefghijklmnopqrstuvwxyzABCDEFGHIJKLMNOPQ";
  compact_jws = "a.b.c";
  created_at = 10;
  state = dispatched;
}

abbrev newer : OperationJournalEntry
newer = record entry { operation_id = "0190"; compact_jws = "d.e.f" }

abbrev encoded : JournalState → List ℕ
encoded dispatched = 1 ∷ []
encoded accepted = 2 ∷ []

abbrev decoded : List ℕ → Option OperationJournalEntry
decoded [] = none
decoded (byte ∷ _) =
    if byte == 1 then some entry else if byte == 2 then some (as_accepted entry) else none

abbrev protocol : Protocol
protocol = record {
  uuid_version = λ _. some 7;
  protected_header = λ _. some (record { kid = entry.kid; typ = "control-operation" });
  control_operation_jws_type = "control-operation";
  max_compact_jws_bytes = 4096;
  encode = λ e. encoded e.state;
  decode = decoded;
}

new_entry-sample : new_entry 10 "018f" hash entry.kid "a.b.c" ≡ entry
unfolding new_entry
new_entry-sample = refl

-- The slot is taken; the next write fails, and the one after it does not.
abbrev taken : Disk
taken = record { file = some (1 ∷ []); fates = torn 1 ∷ persisted ∷ [] }

entry-valid : validate_entry protocol entry ≡ true
unfolding validate_entry is_lower_sha256 validate_kid_shape
entry-valid = refl

holds : load protocol taken.file ≡ ok (some entry)
unfolding load read_secure_regular_file
holds = ground (arith, entry-valid)

-- Another operation asks for the slot, two callers settle the one that has it, and a late
-- completion of the other one clears nothing.
abbrev final : Disk
final = record { file = some (2 ∷ []); fates = [] }

newer-valid : validate_entry protocol newer ≡ true
unfolding validate_entry is_lower_sha256 validate_kid_shape
newer-valid = refl

accepted-valid : validate_entry protocol (as_accepted entry) ≡ true
unfolding validate_entry is_lower_sha256 validate_kid_shape
accepted-valid = refl

other_identity : has_same_identity entry newer ≡ false
unfolding has_same_identity
other_identity = refl

contended :
    Reaches protocol
      (SparesEntry entry)
      taken
      (run_call protocol
        (clears_matching newer)
        (run_call protocol
          (accepts entry)
          (run_call protocol (accepts entry) (run_call protocol (records newer) taken).1).1).1).1
contended = next (records newer) tt (
    next (accepts entry) tt
      (next (accepts entry) tt (next (clears_matching newer) other_identity here)))

ends_accepted :
    (run_call protocol
      (clears_matching newer)
      (run_call protocol
        (accepts entry)
        (run_call protocol (accepts entry) (run_call protocol (records newer) taken).1).1).1).1
    ≡ final
unfolding run_call record_dispatched mark_accepted_if_matches clear_if_matches has_same_identity
    atomic_write load read_secure_regular_file
ends_accepted = simp (entry-valid, newer-valid, accepted-valid) refl

Reaches-HoldsSome_example :
    (load protocol final.file ≡ ok (some entry))
    ⊎ (load protocol final.file ≡ ok (some (as_accepted entry)))
Reaches-HoldsSome_example =
    Reaches-HoldsSome protocol entry (refl, ground arith) (rw ends_accepted at contended)
      (inl holds)

abbrev vacant : Disk
vacant = record { file = none; fates = persisted ∷ [] }

records_entry :
    record_dispatched protocol entry vacant ≡ (ok tt, record { file = some (1 ∷ []); fates = [] })
unfolding record_dispatched load read_secure_regular_file atomic_write
records_entry = simp entry-valid refl

record_dispatched-durable_example :
    (kept : OperationJournalEntry) × ((load protocol (some (1 ∷ [])) ≡ ok (some kept))
      × ((has_same_identity kept entry ≡ true)
          × ((kept.state ≡ dispatched)
              × (record_dispatched protocol
                    (prepared_again 99 entry)
                    (record { file = some (1 ∷ []); fates = [] })
                  ≡ (ok tt, record { file = some (1 ∷ []); fates = [] })))))
record_dispatched-durable_example =
    record_dispatched-durable protocol entry vacant 99 (refl, ground arith) records_entry
