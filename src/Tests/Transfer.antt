-- ===== src/Tests/Transfer.antt =====
-- The theorems on the off-host copy of a backup (src/controller/transfer_journal.rs,
-- src/controller/surface_run.rs, src/target/backup_exec.rs) at concrete inputs.
use nazo_auth_ctl.Prelude.{ℕ, ◌≤◌, ◌<◌, ◌≡◌, refl, true, none, some, [], ◌∷◌, take, arith}
use nazo_auth_ctl.Prelude.Exec.{ok}
use nazo_auth_ctl.Disk.{Disk, persisted, torn, atomic_write, append_bytes}
use nazo_auth_ctl.Identifiers.{is_lower_sha256, validate_identifier, is_identifier_character}
use nazo_auth_ctl.Wire.{HostCompletionBody, completed_result}
use nazo_auth_ctl.Transfer.{
  BackupTransferPlan, copying, finalize, TransferRecord, validate_phase, validate_transfer,
  store_transfer, load_transfer,
}
use nazo_auth_ctl.Transfer.Chunks.{write_transfer_chunk, read_chunk_bytes}
use nazo_auth_ctl.Transfer.Chunks.Appending.{
  write_transfer_chunk-agrees, write_transfer_chunk-converges,
}
use nazo_auth_ctl.Transfer.Chunks.Extending.{read_chunk_bytes-extends}
use nazo_auth_ctl.Transfer.Exchange.{World, Targets}
use nazo_auth_ctl.Transfer.Copying.{
  goes_on, chunk_conforms, copy_one_backup_chunk, transfer_step, resume_backup_transfer,
}
use nazo_auth_ctl.Transfer.Copying.Ending.{ended, fuel_for, resume_backup_transfer-ends}
use nazo_auth_ctl.Transfer.Copying.Durable.{transfer_step-load_transfer}
use nazo_auth_ctl.Tests.Sample.{hash}

-- A file with one byte of the chunk that starts at its second byte; the next append is torn.
abbrev half_written : Disk
half_written = record { file = some (7 ∷ 8 ∷ []); fates = torn 1 ∷ [] }

abbrev undisturbed : Disk
undisturbed = record { file = some (7 ∷ 8 ∷ []); fates = [] }

abbrev complete : Disk
complete = record { file = some (7 ∷ 8 ∷ 9 ∷ []); fates = [] }

write_again : write_transfer_chunk true 1 (8 ∷ 9 ∷ []) undisturbed ≡ (ok tt, complete)
unfolding write_transfer_chunk append_bytes
write_again = refl

write_transfer_chunk-agrees_example : complete.file ≡ some (7 ∷ 8 ∷ 9 ∷ [])
write_transfer_chunk-agrees_example =
    write_transfer_chunk-agrees true 1 (8 ∷ 9 ∷ []) undisturbed complete write_again

write_transfer_chunk-converges_example :
    let (r, disk') = write_transfer_chunk true 1 (8 ∷ 9 ∷ 10 ∷ []) half_written in
    ((k' : ℕ) × (1 ≤ k') × (disk'.file ≡ some (7 ∷ take k' (8 ∷ 9 ∷ 10 ∷ []))))
    × (torn 1 ≡ persisted → r ≡ ok tt)
write_transfer_chunk-converges_example =
    write_transfer_chunk-converges (7 ∷ []) (8 ∷ 9 ∷ 10 ∷ []) 1 half_written refl (omega arith)
      (omega arith)

read_again : read_chunk_bytes true 4 2 1 (7 ∷ 8 ∷ 9 ∷ 10 ∷ []) ≡ ok (9 ∷ [])
unfolding read_chunk_bytes
read_again = refl

extended : write_transfer_chunk true 2 (9 ∷ []) undisturbed ≡ (ok tt, complete)
unfolding write_transfer_chunk append_bytes
extended = refl

read_chunk_bytes-extends_example : (complete.file ≡ some (take 3 (7 ∷ 8 ∷ 9 ∷ 10 ∷ []))) × (0 < 1)
read_chunk_bytes-extends_example =
    read_chunk_bytes-extends (7 ∷ 8 ∷ 9 ∷ 10 ∷ []) (9 ∷ []) 4 2 1 undisturbed complete (omega arith)
      read_again refl extended

abbrev plan : BackupTransferPlan
plan = record {
  operation_id = "018f";
  deployment_id = "d";
  manifest_sha256 = hash;
  files = record { path = "deployment.tar"; size = 2; sha256 = hash } ∷ [];
}

abbrev in_progress : TransferRecord
in_progress = record {
  schema = 1;
  deployment_id = "d";
  source_host_id = "a";
  destination_host_id = "b";
  destination_alias = "b";
  transfer_operation_id = "018f";
  phase = copying;
  source_plan = some plan;
  cursor =
      some
        (record { file_index = 0; offset = 0; read_operation_id = "r"; write_operation_id = "w" });
  finalize_operation_id = "f";
  source_receipt_operation_id = "s";
  source_cleanup_operation_id = "c";
  destination_cleanup_operation_id = "x";
  receipt = none;
}

abbrev copied : TransferRecord
copied = record in_progress { cursor = none; phase = finalize }

abbrev targets : Targets (Unit {0})
targets = record {
  formats = record { uuid_version = λ _. some 7; encode = λ _. 1 ∷ []; decode = λ _. some copied };
  source = λ operation t.
      (some (completed_result "r" (HostCompletionBody.backup_transfer_chunk "chunk")), t);
  destination =
      λ operation t. (some (completed_result "w" HostCompletionBody.backup_transfer_written), t);
  now_v7 = λ t. ("018f", t);
  read_plan = λ _. some plan;
  read_chunk = λ _. some (record {
    transfer_operation_id = "018f";
    file_name = "deployment.tar";
    offset = 0;
    total_bytes = 2;
    file_sha256 = hash;
    bytes = 7 ∷ 8 ∷ [];
  });
  read_receipt = λ _. none;
}

abbrev before : World (Unit {0})
before = record { disk = record { file = none; fates = [] }; outside = tt }

abbrev after : World (Unit {0})
after = record { disk = record { file = some (1 ∷ []); fates = [] }; outside = tt }

one_iteration : transfer_step targets in_progress before ≡ (ok (goes_on copied), after)
unfolding transfer_step copy_one_backup_chunk chunk_conforms store_transfer validate_transfer
    validate_phase validate_identifier is_lower_sha256 is_identifier_character atomic_write
    completed_result
one_iteration = refl

transfer_step-load_transfer_example :
    (validate_transfer targets.formats copied ≡ true)
    × (load_transfer targets.formats after.disk ≡ (ok (some copied), after.disk))
transfer_step-load_transfer_example =
    transfer_step-load_transfer targets in_progress copied before after one_iteration refl

-- Three steps for the bytes, five for the phases from the copy on, and four that are left after it.
enough_fuel : fuel_for targets in_progress before ≡ 13
enough_fuel = rw one_iteration

resume_backup_transfer-ends_example :
    ended (resume_backup_transfer targets 13 in_progress before).0 ≡ true
resume_backup_transfer-ends_example =
    resume_backup_transfer-ends targets in_progress before 13 (omega (arith, enough_fuel))
