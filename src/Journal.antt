-- ===== src/Journal.antt =====
-- The target's operation journal (src/target/journal.rs): its lines, bounds and entry checks, and
-- the interface to what the code takes from serde_json, uuid and sha2. Reading, compaction and the
-- journaled run of an operation are the modules below.
pub mod Reading
pub mod Compaction
pub mod Running
pub mod View
use nazo_auth_ctl.Prelude.{
  ℕ, suc, ◌+◌, ◌*◌, ◌≡◌, String, Bool, true, false, ◌&&◌, Option, none, some, List, [], ◌∷◌, ◌++◌,
  length, take, all, contains, ◌==◌, ◌===◌, ◌<◌, ◌≢◌,
}
use nazo_auth_ctl.Prelude.Utf8.{is_utf8, is_line_byte}
use nazo_auth_ctl.Identifiers.{is_lower_sha256}
use nazo_auth_ctl.Wire.{HostOperation, HostResult, host_operation_kinds}

pub record JournalBounds : Type 0 where
  pub max_bytes : ℕ
  pub max_pending_bytes : ℕ
  pub target_bytes : ℕ
  pub min_terminal_retained : ℕ
  pub read_cap : ℕ

-- JournalBounds::default
abbrev pub default_bounds : JournalBounds
default_bounds = record {
  max_bytes = 16 * 1024 * 1024;
  max_pending_bytes = 8 * 1024 * 1024;
  target_bytes = 8 * 1024 * 1024;
  min_terminal_retained = 128;
  read_cap = 32 * 1024 * 1024;
}

pub data JournalStatus : Type 0 where
  pending completed failed : JournalStatus

abbrev pub is_pending : JournalStatus → Bool
is_pending JournalStatus.pending = true
is_pending JournalStatus.completed = false
is_pending JournalStatus.failed = false

pub record JournalLine : Type 0 where
  pub schema : ℕ
  pub operation_id : String
  pub operation_hash : String
  pub action : String
  pub recorded_at : ℕ
  pub status : JournalStatus
  pub result : Option HostResult

abbrev pub journal_schema : ℕ
journal_schema = 2

-- What `serde_json::from_slice::<JournalLine>` answers: `eof` is an error of the category Eof.
pub data Decoded : Type 0 where
  parsed : JournalLine → Decoded
  eof : Decoded
  malformed : Decoded

-- The third-party code under the journal: the JSON codec, `Uuid::parse_str(..).is_ok()`, and the
-- SHA-256 of the JSON of an operation's canonical value.
pub record Codec : Type 0 where
  pub encode : JournalLine → List ℕ
  pub decode : List ℕ → Decoded
  pub uuid_parses : String → Bool
  pub digest : HostOperation → String

-- The codec's documented behaviour on one line: compact JSON in UTF-8 with no raw control
-- character, read back whole, and reported as cut short by every shorter prefix.
pub record Encodes (codec : Codec) (line : JournalLine) : Type 0 where
  pub decoded : codec.decode (codec.encode line) ≡ parsed line
  pub nonempty : codec.encode line ≢ []
  pub one_line : all is_line_byte (codec.encode line) ≡ true
  pub utf8 : is_utf8 (codec.encode line) ≡ true
  pub cut_short :
      (n : ℕ) → n < length (codec.encode line) → codec.decode (take n (codec.encode line)) ≡ eof

-- The bytes that one line takes in the file, its newline included.
abbrev pub line_bytes : Codec → JournalLine → ℕ
line_bytes codec line = length (codec.encode line) + 1

abbrev pub encode_all : Codec → List JournalLine → List ℕ
encode_all codec [] = []
encode_all codec (line ∷ lines) = codec.encode line ++ 10 ∷ encode_all codec lines

-- The check of the result by status: a completed transfer read stores none.
abbrev carries_own_result : String → Option HostResult → Bool
carries_own_result operation_id none = false
carries_own_result operation_id (some result) = result.operation_id === operation_id

abbrev result_conforms : JournalStatus → String → String → Option HostResult → Bool
result_conforms JournalStatus.pending operation_id action none = true
result_conforms JournalStatus.pending operation_id action (some _) = false
result_conforms JournalStatus.completed operation_id action none = action === "backup-transfer-read"
result_conforms JournalStatus.completed operation_id action (some result) =
    carries_own_result operation_id (some result)
result_conforms JournalStatus.failed operation_id action result =
    carries_own_result operation_id result

-- validate_entry; `true` where it returns Ok
unfoldable pub validate_entry : Codec → JournalLine → Bool
validate_entry codec entry =
    entry.schema == journal_schema
    && codec.uuid_parses entry.operation_id
    && is_lower_sha256 entry.operation_hash
    && contains host_operation_kinds entry.action
    && result_conforms entry.status entry.operation_id entry.action entry.result

pub data JournalError : Type 0 where
  -- TARGET_JOURNAL_INVALID
  journal_invalid : JournalError
  -- a failed read, append or replacement
  io_failed : JournalError
