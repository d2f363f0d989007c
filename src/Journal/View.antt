-- ===== src/Journal/View.antt =====
-- The read-only view of a journal (src/target/journal.rs: project_entry, operation_log,
-- host_operation_log).
use nazo_auth_ctl.Prelude.{
  ℕ, ◌≡◌, ◌∙◌, Bool-cases, inl, inr, refl, String, Bool, true, false, ◌&&◌, Option, none, some,
  List, map, if◌then◌else◌,
}
use nazo_auth_ctl.Prelude.Exec.{Outcome, ok, err, Exec, lift, pure, fail, continue, ◌>>=◌, ◌>>◌}
use nazo_auth_ctl.Prelude.Utf8.{is_utf8, lines}
use nazo_auth_ctl.Disk.{Disk, Read, found, missing, oversized, read_secure_regular_file}
use nazo_auth_ctl.Identifiers.{deployment_scope}
use nazo_auth_ctl.Wire.{HostOutcome, HostResult}
use nazo_auth_ctl.Journal.{
  Codec, JournalBounds, JournalStatus, JournalLine, JournalError, journal_invalid,
}
use nazo_auth_ctl.Journal.Reading.{
  read_lines_with, read_found, read_bytes, rewrite, repair_tail, parse_lines,
}

pub data OperationOutcomeSummary : Type 0 where
  completed : OperationOutcomeSummary
  failed : String → OperationOutcomeSummary

pub record OperationLogEntry : Type 0 where
  pub operation_id : String
  pub action : String
  pub status : JournalStatus
  pub recorded_at : ℕ
  pub outcome : Option OperationOutcomeSummary

abbrev summary : HostOutcome → OperationOutcomeSummary
summary (HostOutcome.completed _) = OperationOutcomeSummary.completed
summary (HostOutcome.failed code) = OperationOutcomeSummary.failed code

abbrev settled_outcome : JournalStatus → Option HostResult → Option OperationOutcomeSummary
settled_outcome JournalStatus.pending result = none
settled_outcome status none = none
settled_outcome status (some result) = some (summary result.outcome)

unfoldable pub project_entry : JournalLine → OperationLogEntry
project_entry line = record {
  operation_id = line.operation_id;
  action = line.action;
  status = line.status;
  recorded_at = line.recorded_at;
  outcome = settled_outcome line.status line.result;
}

-- An action that leaves the disk as it is.
abbrev Keeps : {A : Type 0} → Exec Disk JournalError A → Type 0
Keeps m = (disk : Disk) → (m disk).1 ≡ disk

module _ {A B : Type 0} where
  continue-Keeps :
      (r : Outcome JournalError A) (f : A → Exec Disk JournalError B)
      → ((a : A) → Keeps (f a))
      → Keeps (continue r f)
  continue-Keeps (ok a) f h disk = h a disk
  continue-Keeps (err e) f h disk = refl

  bind-Keeps :
      (m : Exec Disk JournalError A) (f : A → Exec Disk JournalError B)
      → Keeps m
      → ((a : A) → Keeps (f a))
      → Keeps (m >>= f)
  bind-Keeps m f k h disk = continue-Keeps (m disk).0 f h (m disk).1 ∙ k disk

  then-Keeps :
      (m : Exec Disk JournalError A) (n : Exec Disk JournalError B)
      → Keeps m
      → Keeps n
      → Keeps (m >> n)
  then-Keeps m n k h disk = continue-Keeps (m disk).0 (λ _. n) (λ _. h) (m disk).1 ∙ k disk

if-Keeps : (b : Bool) → Keeps (if b then pure tt else fail journal_invalid)
if-Keeps true disk = refl
if-Keeps false disk = refl

module _ (codec : Codec) (bounds : JournalBounds) where
  abbrev projected :
      Outcome JournalError (List JournalLine) × Disk
      → Outcome JournalError (List OperationLogEntry) × Disk
  projected (ok lines, disk) = (ok (map project_entry lines), disk)
  projected (err e, disk) = (err e, disk)

  unfoldable pub project_log : Exec Disk JournalError (List OperationLogEntry)
  project_log disk = projected (read_lines_with codec bounds.read_cap false disk)

  unfoldable pub operation_log : String → Exec Disk JournalError (List OperationLogEntry)
  operation_log deployment_id disk =
      if deployment_scope deployment_id then project_log disk else (err journal_invalid, disk)

  projected-disk :
      (answer : Outcome JournalError (List JournalLine) × Disk) (disk : Disk)
      → answer.1 ≡ disk
      → (projected answer).1 ≡ disk
  projected-disk (ok lines, after) disk h = h
  projected-disk (err e, after) disk h = h

  rewrite-Keeps : (changed : Bool) (whole : List ℕ) → Keeps (rewrite codec (changed && false) whole)
  rewrite-Keeps true whole disk = refl
  rewrite-Keeps false whole disk = refl

  read_bytes-Keeps : (bytes : List ℕ) → Keeps (read_bytes codec false bytes)
  read_bytes-Keeps bytes =
      bind-Keeps (lift (repair_tail codec bytes)) _ (λ disk. refl)
        λ found.
          then-Keeps (if is_utf8 found.0 then pure tt else fail journal_invalid) _
            (if-Keeps (is_utf8 found.0))
            (bind-Keeps (lift (parse_lines codec (lines found.0))) _ (λ disk. refl)
              λ entries.
                then-Keeps (rewrite codec (found.1 && false) found.0) _
                  (rewrite-Keeps found.1 found.0) (λ disk. refl))

  read_found-Keeps : (read : Read) → Keeps (read_found codec false read)
  read_found-Keeps missing disk = refl
  read_found-Keeps oversized disk = refl
  read_found-Keeps (found bytes) disk = read_bytes-Keeps bytes disk

  read_lines_with-disk : (disk : Disk) → (read_lines_with codec bounds.read_cap false disk).1 ≡ disk
  unfolding read_lines_with
  read_lines_with-disk disk =
      read_found-Keeps (read_secure_regular_file bounds.read_cap disk.file) disk

  -- Reading the operation log of a deployment changes nothing, not even an incomplete last record,
  -- whatever the journal holds.
  pub operation_log-disk :
      (deployment_id : String) (disk : Disk) → (operation_log deployment_id disk).1 ≡ disk
  unfolding operation_log project_log
  operation_log-disk deployment_id disk = elim (Bool-cases (deployment_scope deployment_id)) [
    | inl legal ↦ rw legal (projected-disk _ disk (read_lines_with-disk disk))
    | inr illegal ↦ rw illegal refl
  ]
