-- ===== src/ControllerJournal.antt =====
-- The controller's journal of control operations (src/controller_identity/journal.rs): one slot in
-- one file, with the signed request that was last prepared for the instance. A method is one action
-- on the file, since it holds `keys.lock` while it runs; an error of the lock itself is left out.
pub mod Slot
pub mod Settling
use Prim.Native.String.{len}
use nazo_auth_ctl.Prelude.{
  ℕ, ◌+◌, String, Bool, true, false, not, ◌&&◌, Option, none, some, List, all, ◌||◌, ◌==◌, ◌===◌,
  if◌then◌else◌,
}
use nazo_auth_ctl.Prelude.Bytes.{codes, is_ascii_alphanumeric}
use nazo_auth_ctl.Prelude.Exec.{Outcome, ok, err, Exec, pure, fail, lift, ◌>>=◌}
use nazo_auth_ctl.Disk.{
  Disk, File, Read, found, missing, oversized, read_secure_regular_file, replace_file, remove_file,
}
use nazo_auth_ctl.Identifiers.{is_lower_sha256, is_version_7}

pub data JournalState : Type 0 where
  -- durable before the dispatch, with an outcome that is not known
  dispatched : JournalState
  -- the target confirmed the acceptance
  accepted : JournalState

pub record OperationJournalEntry : Type 0 where
  pub schema : ℕ
  pub operation_id : String
  pub request_hash : String
  pub kid : String
  pub compact_jws : String
  pub created_at : ℕ
  pub state : JournalState

abbrev pub operation_journal_schema : ℕ
operation_journal_schema = 2

-- OperationJournalEntry::new, at a time
unfoldable pub new_entry : ℕ → String → String → String → String → OperationJournalEntry
new_entry now operation_id request_hash kid compact_jws = record {
  schema = operation_journal_schema;
  operation_id = operation_id;
  request_hash = request_hash;
  kid = kid;
  compact_jws = compact_jws;
  created_at = now;
  state = dispatched;
}

unfoldable pub has_same_identity : OperationJournalEntry → OperationJournalEntry → Bool
has_same_identity entry other =
    entry.operation_id === other.operation_id
    && entry.request_hash === other.request_hash
    && entry.kid === other.kid
    && entry.compact_jws === other.compact_jws

-- What the crates uuid, nazo_operator_protocol and serde_json answer.
pub record ProtectedHeader : Type 0 where
  pub kid : String
  pub typ : String

pub record Protocol : Type 0 where
  pub uuid_version : String → Option ℕ
  pub protected_header : String → Option ProtectedHeader
  pub control_operation_jws_type : String
  pub max_compact_jws_bytes : ℕ
  pub encode : OperationJournalEntry → List ℕ
  pub decode : List ℕ → Option OperationJournalEntry

-- The ways in which a method refuses; one for each message of the code.
pub data Refusal : Type 0 where
  state_reset_required not_fresh changed_content already_accepted slot_occupied : Refusal
  no_longer_present changed_while_settling write_failed : Refusal

-- src/controller_identity/store.rs
unfoldable pub validate_kid_shape : String → Bool
validate_kid_shape kid =
    len kid == 43 && all (λ c. is_ascii_alphanumeric c || (c == b'-' || c == b'_')) (codes kid)

abbrev pub is_accepted : JournalState → Bool
is_accepted dispatched = false
is_accepted accepted = true

module _ (protocol : Protocol) where
  abbrev header_conforms : OperationJournalEntry → Option ProtectedHeader → Bool
  header_conforms entry none = false
  header_conforms entry (some header) =
      header.kid === entry.kid && header.typ === protocol.control_operation_jws_type

  unfoldable pub validate_entry : OperationJournalEntry → Bool
  validate_entry entry =
      entry.schema == operation_journal_schema
      && (is_version_7 (protocol.uuid_version entry.operation_id)
          && is_lower_sha256 entry.request_hash
          && validate_kid_shape entry.kid)
      && header_conforms entry (protocol.protected_header entry.compact_jws)

  abbrev max_journal_bytes : ℕ
  max_journal_bytes = protocol.max_compact_jws_bytes + 2048

  abbrev conforming : Option OperationJournalEntry → Outcome Refusal (Option OperationJournalEntry)
  conforming none = err state_reset_required
  conforming (some entry) =
      if validate_entry entry then ok (some entry) else err state_reset_required

  abbrev loaded : Read → Outcome Refusal (Option OperationJournalEntry)
  loaded missing = ok none
  loaded oversized = err state_reset_required
  loaded (found bytes) = conforming (protocol.decode bytes)

  -- The slot's entry, `none` where no operation was ever prepared.
  unfoldable pub load : File → Outcome Refusal (Option OperationJournalEntry)
  unfolding read_secure_regular_file
  load file = loaded (read_secure_regular_file max_journal_bytes file)

  abbrev loading : Exec Disk Refusal (Option OperationJournalEntry)
  loading disk = lift (load disk.file) disk

  abbrev write : OperationJournalEntry → Exec Disk Refusal (Unit {0})
  write entry = replace_file write_failed (protocol.encode entry)

  -- The slot is for one operation: it is never replaced, and the same attempt is written once.
  abbrev pub occupy :
      OperationJournalEntry → Option OperationJournalEntry → Exec Disk Refusal (Unit {0})
  occupy entry none = write entry
  occupy entry (some existing) =
      if not (existing.operation_id === entry.operation_id)
      then fail slot_occupied
      else if not (has_same_identity existing entry)
      then fail changed_content
      else if is_accepted existing.state
      then fail already_accepted
      else pure tt

  unfoldable pub record_dispatched : OperationJournalEntry → Exec Disk Refusal (Unit {0})
  record_dispatched entry =
      if not (validate_entry entry)
      then fail state_reset_required
      else if is_accepted entry.state
      then fail not_fresh
      else loading >>= occupy entry

  abbrev pub accept :
      OperationJournalEntry → Option OperationJournalEntry → Exec Disk Refusal (Unit {0})
  accept expected none = fail no_longer_present
  accept expected (some entry) =
      if not (has_same_identity entry expected)
      then fail changed_while_settling
      else if is_accepted entry.state
      then pure tt
      else write (record entry { state = accepted })

  unfoldable pub mark_accepted_if_matches : OperationJournalEntry → Exec Disk Refusal (Unit {0})
  mark_accepted_if_matches expected = loading >>= accept expected

  abbrev pub vacate :
      OperationJournalEntry → Option OperationJournalEntry → Exec Disk Refusal (Unit {0})
  vacate expected none = fail no_longer_present
  vacate expected (some entry) =
      if has_same_identity entry expected
      then remove_file write_failed
      else fail changed_while_settling

  -- A late completion removes no newer entry.
  unfoldable pub clear_if_matches : OperationJournalEntry → Exec Disk Refusal (Unit {0})
  clear_if_matches expected = loading >>= vacate expected

  unfoldable pub clear : Exec Disk Refusal (Unit {0})
  clear = remove_file write_failed

-- The calls that contend for the slot.
pub data Call : Type 0 where
  records accepts clears_matching : OperationJournalEntry → Call
  clears : Call

module _ (protocol : Protocol) where
  unfoldable pub run_call : Call → Exec Disk Refusal (Unit {0})
  run_call (records entry) = record_dispatched protocol entry
  run_call (accepts entry) = mark_accepted_if_matches protocol entry
  run_call (clears_matching entry) = clear_if_matches protocol entry
  run_call clears = clear protocol

  -- The disks that calls lead to, one after the other, each of them admitted by `P`.
  pub data Reaches (P : Call → Type 0) : Disk → Disk → Type 0 where
    here : {disk : Disk} → Reaches P disk disk
    next :
        {disk disk' : Disk} (call : Call)
        → P call
        → Reaches P (run_call call disk).1 disk'
        → Reaches P disk disk'
