-- ===== src/Tests/Sample.antt =====
-- A journal codec for two lines of one operation, with the laws that src/target/journal.rs relies
-- on, and the operation.
use nazo_auth_ctl.Prelude.{
  ℕ, zero, suc, ◌<◌, ◌≡◌, refl, String, true, none, some, List, [], ◌∷◌, length, take, arith, ◌==◌,
  if◌then◌else◌,
}
use nazo_auth_ctl.Prelude.Utf8.{is_utf8}
use nazo_auth_ctl.Identifiers.{is_lower_sha256}
use nazo_auth_ctl.Wire
use nazo_auth_ctl.Wire.{
  HostOperation, HostOperationBody, StateMutationPayload, HostOutcome, HostCompletionBody,
  HostResult, canonical_operation_value,
}
use nazo_auth_ctl.Journal.{
  Codec, Decoded, parsed, eof, malformed, JournalLine, JournalStatus, JournalBounds, validate_entry,
}
use nazo_auth_ctl.Journal.Reading.RoundTrip.{IsStored}
use nazo_auth_ctl.Journal.Running.{pending_line, terminal_line}

abbrev pub hash : String
hash = "00112233445566778899aabbccddeeff00112233445566778899aabbccddeeff"

abbrev pub operation : HostOperation
operation = record {
  schema = 11;
  operation_id = "018f";
  deployment_id = some "prod-eu.1";
  expected_revision = some 1;
  operation = HostOperationBody.state_mutate (StateMutationPayload.apply_config "file:a" "v1");
}

abbrev pub result : HostResult
result = record {
  schema = 11;
  operation_id = "018f";
  outcome = HostOutcome.completed (HostCompletionBody.state_mutate_applied 2 none);
}

abbrev encode : JournalLine → List ℕ
encode line = elim line.status [
  | JournalStatus.pending ↦ b'p' ∷ b'.' ∷ []
  | JournalStatus.completed ↦ b'c' ∷ b'.' ∷ []
  | JournalStatus.failed ↦ b'f' ∷ b'.' ∷ []
]

abbrev pub bounds : JournalBounds
bounds = record {
  max_bytes = 20;
  max_pending_bytes = 10;
  target_bytes = 10;
  min_terminal_retained = 1;
  read_cap = 40;
}

-- The lines of an operation with a completed result, and a codec for them.
module _ (id : String) (result : HostResult) where
  abbrev pub pending_of : JournalLine
  pending_of = record {
    schema = 2;
    operation_id = id;
    operation_hash = hash;
    action = "state-mutate";
    recorded_at = 10;
    status = JournalStatus.pending;
    result = none;
  }

  abbrev pub terminal_of : JournalLine
  terminal_of = record {
    schema = 2;
    operation_id = id;
    operation_hash = hash;
    action = "state-mutate";
    recorded_at = 20;
    status = JournalStatus.completed;
    result = some result;
  }

  abbrev decode_of : List ℕ → Decoded
  decode_of [] = eof
  decode_of (a ∷ []) = eof
  decode_of (a ∷ b ∷ []) =
      if a == b'p' then parsed pending_of else if a == b'c' then parsed terminal_of else malformed
  decode_of (a ∷ b ∷ c ∷ rest) = malformed

  abbrev pub codec_of : Codec
  codec_of = record {
    encode = encode;
    decode = decode_of;
    uuid_parses = λ _. true;
    digest = λ _. hash;
  }

  pending_cut :
      (n : ℕ)
      → n < length (codec_of.encode pending_of)
      → codec_of.decode (take n (codec_of.encode pending_of)) ≡ eof
  pending_cut zero h = refl
  pending_cut (suc zero) h = refl
  pending_cut (suc (suc n)) h = absurd (omega arith)

  terminal_cut :
      (n : ℕ)
      → n < length (codec_of.encode terminal_of)
      → codec_of.decode (take n (codec_of.encode terminal_of)) ≡ eof
  terminal_cut zero h = refl
  terminal_cut (suc zero) h = refl
  terminal_cut (suc (suc n)) h = absurd (omega arith)

  pub pending_of-IsStored : IsStored codec_of pending_of
  unfolding is_utf8 validate_entry is_lower_sha256
  pending_of-IsStored = record {
    encodes = record {
      decoded = refl;
      nonempty = λ e. cc;
      one_line = refl;
      utf8 = refl;
      cut_short = pending_cut;
    };
    valid = refl;
  }

  pub terminal_of-IsStored :
      validate_entry codec_of terminal_of ≡ true → IsStored codec_of terminal_of
  unfolding is_utf8
  terminal_of-IsStored valid = record {
    encodes = record {
      decoded = refl;
      nonempty = λ e. cc;
      one_line = refl;
      utf8 = refl;
      cut_short = terminal_cut;
    };
    valid = valid;
  }

-- Those of the operation above.
abbrev pub pending : JournalLine
pending = pending_of "018f" result

abbrev pub terminal : JournalLine
terminal = terminal_of "018f" result

abbrev pub codec : Codec
codec = codec_of "018f" result

pub pending-IsStored : IsStored codec pending
pending-IsStored = pending_of-IsStored "018f" result

pub terminal-IsStored : IsStored codec terminal
unfolding validate_entry is_lower_sha256
terminal-IsStored = terminal_of-IsStored "018f" result refl

-- The lines that a run of the operation writes.
pub pending_line-sample : pending_line codec 10 operation ≡ pending
unfolding Wire.kind canonical_operation_value
pending_line-sample = refl

pub terminal_line-sample : terminal_line codec 20 operation result ≡ terminal
unfolding Wire.kind canonical_operation_value
terminal_line-sample = refl
