-- ===== src/Tests/Journal.antt =====
-- The theorems on the target's operation journal (src/target/journal.rs) at concrete inputs.
use nazo_auth_ctl.Prelude.{
  ℕ, suc, ◌≤◌, ◌≡◌, refl, true, none, some, List, [], ◌∷◌, ◌++◌, length, take, max, arith, eq_iff,
}
use nazo_auth_ctl.Prelude.Exec.{ok, err}
use nazo_auth_ctl.Identifiers.{deployment_scope, is_lower_sha256}
use nazo_auth_ctl.Disk.{Disk, WriteFate, persisted, torn}
use nazo_auth_ctl.Wire
use nazo_auth_ctl.Wire.{
  HostOperation, HostOperationBody, HostOutcome, HostCompletionBody, StateMutationPayload,
  HostResult, UpdateBackupPrecondition, failed_result, canonical_operation_value,
}
use nazo_auth_ctl.Prelude.Utf8.{is_utf8}
use nazo_auth_ctl.Journal.{Codec, validate_entry, JournalBounds, encode_all, io_failed}
use nazo_auth_ctl.Journal.Reading.RoundTrip.{IsStored}
use nazo_auth_ctl.Journal.View.{operation_log, operation_log-disk}
use nazo_auth_ctl.Journal.Reading.Recovery.{Recovers, crashed, torn_append-Recovers, record_bytes}
use nazo_auth_ctl.Journal.Compaction.{unsettled, total_bytes, compact_lines}
use nazo_auth_ctl.Journal.Compaction.Pending.{unsettled-compact_lines}
use nazo_auth_ctl.Journal.Compaction.Budget.{compact_lines_bounded}
use nazo_auth_ctl.Journal.Running.{
  World, run_journaled, scope_is_legal, stays_pending, is_update_noop,
}
use nazo_auth_ctl.Journal.Running.Steady.{IsSteady}
use nazo_auth_ctl.Journal.Running.Fresh.{HasRoom, whole, run_journaled_keeps_mutation}
use nazo_auth_ctl.Journal.Running.Answers.{run_journaled_conflicts, run_journaled_capacity}
use nazo_auth_ctl.Journal.Running.Effect.{ExecutesOnce}
use nazo_auth_ctl.Journal.Running.Once.{executed, MayExecute, run_journaled_once}
use nazo_auth_ctl.Journal.Running.Retry.{
  run_journaled_twice, run_journaled_resumes, run_journaled_write_ahead,
}
use nazo_auth_ctl.Tests.Sample.{
  codec, bounds, hash, operation, result, pending, terminal, pending-IsStored, terminal-IsStored,
}

-- The target counts its executions.
abbrev execute : HostOperation → ℕ → HostResult × ℕ
execute _ n = (result, suc n)

abbrev refuse : HostOperation → ℕ → HostResult × ℕ
refuse _ n = (failed_result "018f" "OTHER", suc (suc n))

abbrev blank : World ℕ
blank = record { disk = record { file = none; fates = persisted ∷ persisted ∷ [] }; target = 0 }

legal : scope_is_legal operation.deployment_id ≡ true
unfolding deployment_scope
legal = refl

empty_room :
    (fates : List WriteFate)
    → HasRoom codec 10 operation [] bounds (record { file = none; fates = fates })
unfolding Wire.kind canonical_operation_value total_bytes unsettled
empty_room fates = record {
  steady = record { holds = refl; stored = tt; within = omega arith; readable = omega arith };
  admitted = omega arith;
  pending_stored = pending-IsStored;
  fits = omega arith;
}

run_journaled_twice_example :
    let first = run_journaled codec bounds execute 10 20 operation blank in
    (first.0 ≡ ok result)
    × (first.1.target ≡ 1)
    × (run_journaled codec bounds refuse 30 40 operation first.1 ≡ first)
unfolding Wire.kind canonical_operation_value is_update_noop stays_pending
run_journaled_twice_example =
    run_journaled_twice codec bounds 10 20 operation legal execute refuse 30 40 [] blank result 1 []
      tt (empty_room (persisted ∷ persisted ∷ [])) refl refl refl refl refl terminal-IsStored
      (omega arith)

run_journaled_once_example :
    ExecutesOnce
      (executed codec bounds execute 10 20 operation)
      (MayExecute codec bounds execute 10 20 operation blank.disk)
      0
      (run_journaled codec bounds execute 10 20 operation blank).1.target
run_journaled_once_example = run_journaled_once codec bounds execute 10 20 operation blank

torn_append-Recovers_example :
    Recovers codec 40 [] pending tt pending-IsStored
      (crashed codec 40 [] pending tt pending-IsStored 1)
torn_append-Recovers_example =
    torn_append-Recovers codec 40 [] pending tt pending-IsStored 1 (omega arith)

-- The world after the first run, and the one of an interrupted run.
abbrev settled : World ℕ
settled = record { disk = whole codec (pending ∷ terminal ∷ []) []; target = 1 }

abbrev interrupted : World ℕ
interrupted = record { disk = whole codec (pending ∷ []) (persisted ∷ []); target = 1 }

interrupted-IsSteady : IsSteady codec bounds (pending ∷ []) interrupted.disk
interrupted-IsSteady = record {
  holds = refl;
  stored = (pending-IsStored, tt);
  within = omega arith;
  readable = omega arith;
}

run_journaled_resumes_example :
    run_journaled codec bounds execute 30 20 operation interrupted
    ≡ (ok result, record { disk = whole codec (pending ∷ terminal ∷ []) []; target = 2 })
unfolding Wire.kind canonical_operation_value is_update_noop stays_pending
run_journaled_resumes_example =
    run_journaled_resumes codec bounds 30 20 operation legal execute [] [] pending interrupted
      result 2 [] interrupted-IsSteady tt refl refl refl tt refl refl refl refl terminal-IsStored
      (omega arith)

-- The same codec, with another digest for every request.
abbrev other_codec : Codec
other_codec = record codec { digest = λ _. "ff" }

other_pending : IsStored other_codec pending
unfolding is_utf8 validate_entry is_lower_sha256
other_pending = record {
  encodes = record {
    decoded = refl;
    nonempty = λ e. cc;
    one_line = refl;
    utf8 = refl;
    cut_short = pending-IsStored.encodes.cut_short;
  };
  valid = refl;
}

other_terminal : IsStored other_codec terminal
unfolding is_utf8 validate_entry is_lower_sha256
other_terminal = record {
  encodes = record {
    decoded = refl;
    nonempty = λ e. cc;
    one_line = refl;
    utf8 = refl;
    cut_short = terminal-IsStored.encodes.cut_short;
  };
  valid = refl;
}

other-IsSteady : IsSteady other_codec bounds (pending ∷ terminal ∷ []) settled.disk
other-IsSteady = record {
  holds = refl;
  stored = (other_pending, (other_terminal, tt));
  within = omega arith;
  readable = omega arith;
}

run_journaled_conflicts_example :
    run_journaled other_codec bounds execute 30 40 operation settled
    ≡ (ok (failed_result "018f" "OPERATION_ID_CONFLICT"), settled)
unfolding canonical_operation_value
run_journaled_conflicts_example =
    run_journaled_conflicts other_codec bounds execute 30 40 operation legal settled (pending ∷ [])
      [] terminal other-IsSteady refl (λ e. ground (arith, eq_iff hash "ff", e))

abbrev tight : JournalBounds
tight = record bounds { max_pending_bytes = 2 }

run_journaled_capacity_example :
    run_journaled codec tight execute 10 20 operation blank
    ≡ (ok (failed_result "018f" "TARGET_JOURNAL_CAPACITY"), blank)
unfolding total_bytes unsettled Wire.kind canonical_operation_value
run_journaled_capacity_example =
    run_journaled_capacity codec tight execute 10 20 operation legal blank []
      (record { holds = refl; stored = tt; within = omega arith; readable = omega arith }) tt
      (omega arith)

abbrev broken : World ℕ
broken = record { disk = record { file = none; fates = torn 1 ∷ [] }; target = 0 }

run_journaled_write_ahead_example :
    let (outcome, after) = run_journaled codec bounds execute 10 20 operation broken in
    (outcome ≡ err io_failed) × (after.target ≡ 0)
run_journaled_write_ahead_example =
    run_journaled_write_ahead codec bounds 10 20 operation legal execute [] broken tt
      (empty_room (torn 1 ∷ [])) (λ e. cc)

abbrev half_broken : World ℕ
half_broken = record { disk = record { file = none; fates = persisted ∷ torn 1 ∷ [] }; target = 0 }

run_journaled_keeps_mutation_example :
    (n : ℕ) × (run_journaled codec bounds execute 10 20 operation half_broken ≡ (
      err io_failed,
      record {
        disk = record {
          file = some (encode_all codec (pending ∷ []) ++ take n (record_bytes codec terminal));
          fates = [];
        };
        target = 1;
      },
    ))
unfolding Wire.kind canonical_operation_value is_update_noop stays_pending
run_journaled_keeps_mutation_example =
    run_journaled_keeps_mutation codec bounds execute 10 20 operation legal [] tt half_broken
      (empty_room (persisted ∷ torn 1 ∷ [])) result 1 refl [] (torn 1) refl (λ e. cc) refl refl

unsettled-compact_lines_example :
    unsettled (compact_lines codec bounds (pending ∷ terminal ∷ []))
    ≡ unsettled (pending ∷ terminal ∷ [])
unsettled-compact_lines_example = unsettled-compact_lines codec bounds (pending ∷ terminal ∷ [])

compact_lines_bounded_example :
    length (encode_all codec (compact_lines codec bounds (pending ∷ terminal ∷ [])))
    ≤ max 20 (length (encode_all codec (unsettled (pending ∷ terminal ∷ []))))
compact_lines_bounded_example = compact_lines_bounded codec bounds (pending ∷ terminal ∷ [])

-- A settled operation keeps its terminal line alone.
compact_settled : compact_lines codec bounds (pending ∷ terminal ∷ []) ≡ terminal ∷ []
unfolding compact_lines
compact_settled = refl

-- The log of a deployment whose journal ends in an incomplete record.
abbrev torn_journal : Disk
torn_journal = crashed codec 40 [] pending tt pending-IsStored 1

operation_log-disk_example : (operation_log codec bounds "prod-eu.1" torn_journal).1 ≡ torn_journal
operation_log-disk_example = operation_log-disk codec bounds "prod-eu.1" torn_journal
