-- ===== src/Transfer/Copying/Ending.antt =====
-- The end of the loop over the phases (src/controller/surface_run.rs: resume_backup_transfer).
use nazo_auth_ctl.Prelude.{
  ℕ, zero, suc, ◌+◌, ◌≤◌, ◌<◌, ◌≡◌, refl, ap, Bool, true, false, Option, none, some, arith,
}
use nazo_auth_ctl.Prelude.Exec.{Outcome, ok, err, continue}
use nazo_auth_ctl.Wire.Payloads.{OffHostCopyReceipt}
use nazo_auth_ctl.Transfer.{
  TransferPhase, source_prepare, destination_prepare, copying, finalize, record_source_receipt,
  cleanup_source, cleanup_destination, TransferRecord, Refusal,
}
use nazo_auth_ctl.Transfer.Exchange.{World, OnWorld, Targets}
use nazo_auth_ctl.Transfer.Copying.{
  Progress, goes_on, finished, transfer_step, continued, resume_backup_transfer,
}
use nazo_auth_ctl.Transfer.Copying.Advancing.{
  steps_left, prepare_destination-Nearer, copy_one_backup_chunk-Nearer, finalize_import-Nearer,
  record_receipt-Nearer, clean_source-Nearer, clean_destination-finishes, prepare_source-Nearer,
}

-- Whether the loop ended by itself: with a receipt or with an error.
abbrev pub ended : Outcome Refusal (Option OffHostCopyReceipt) → Bool
ended (ok none) = false
ended (ok (some receipt)) = true
ended (err e) = true

module _ {T : Type 0} (targets : Targets T) where
  -- By the phase, for a record that is past the preparation of the source.
  in_phase-Nearer :
      (phase : TransferPhase) (transfer next : TransferRecord) (world world' : World T)
      → transfer.phase ≡ phase
      → 0 < steps_left transfer
      → transfer_step targets transfer world ≡ (ok (goes_on next), world')
      → (0 < steps_left next) × (steps_left next < steps_left transfer)
  unfolding transfer_step
  in_phase-Nearer source_prepare transfer next world world' e positive h =
      ground (arith, e, positive)
  in_phase-Nearer destination_prepare transfer next world world' e positive h = ground (
    arith,
    e,
    prepare_destination-Nearer targets transfer next world world' (ground (arith, e, h)),
  )
  in_phase-Nearer copying transfer next world world' e positive h =
      copy_one_backup_chunk-Nearer targets transfer next world world' e (ground (arith, e, h))
  in_phase-Nearer finalize transfer next world world' e positive h =
      ground
        (arith, e, finalize_import-Nearer targets transfer next world world' (ground (arith, e, h)))
  in_phase-Nearer record_source_receipt transfer next world world' e positive h =
      ground
        (arith, e, record_receipt-Nearer targets transfer next world world' (ground (arith, e, h)))
  in_phase-Nearer cleanup_source transfer next world world' e positive h =
      ground
        (arith, e, clean_source-Nearer targets transfer next world world' (ground (arith, e, h)))
  in_phase-Nearer cleanup_destination transfer next world world' e positive h =
      absurd (clean_destination-finishes targets transfer next world world' (ground (arith, e, h)))

  transfer_step-positive :
      (phase : TransferPhase) (transfer next : TransferRecord) (world world' : World T)
      → transfer.phase ≡ phase
      → transfer_step targets transfer world ≡ (ok (goes_on next), world')
      → 0 < steps_left next
  unfolding transfer_step
  transfer_step-positive source_prepare transfer next world world' e h =
      prepare_source-Nearer targets transfer next world world' (ground (arith, e, h))
  transfer_step-positive destination_prepare transfer next world world' e h =
      (in_phase-Nearer destination_prepare transfer next world world' e (ground (arith, e)) h).0
  transfer_step-positive copying transfer next world world' e h =
      (in_phase-Nearer copying transfer next world world' e (ground (arith, e)) h).0
  transfer_step-positive finalize transfer next world world' e h =
      (in_phase-Nearer finalize transfer next world world' e (ground (arith, e)) h).0
  transfer_step-positive record_source_receipt transfer next world world' e h =
      (in_phase-Nearer record_source_receipt transfer next world world' e (ground (arith, e)) h).0
  transfer_step-positive cleanup_source transfer next world world' e h =
      (in_phase-Nearer cleanup_source transfer next world world' e (ground (arith, e)) h).0
  transfer_step-positive cleanup_destination transfer next world world' e h =
      (in_phase-Nearer cleanup_destination transfer next world world' e (ground (arith, e)) h).0

  continued-ended :
      (rest : TransferRecord → OnWorld T (Option OffHostCopyReceipt))
      (progress : Outcome Refusal Progress) (world : World T)
      → ((next : TransferRecord) → progress ≡ ok (goes_on next) → ended (rest next world).0 ≡ true)
      → ended (continue progress (continued rest) world).0 ≡ true
  continued-ended rest (ok (goes_on next)) world h = h next refl
  continued-ended rest (ok (finished receipt)) world h = refl
  continued-ended rest (err e) world h = refl

  resume-ended :
      (fuel : ℕ) (transfer : TransferRecord) (world : World T)
      → 0 < steps_left transfer
      → steps_left transfer ≤ fuel
      → ended (resume_backup_transfer targets fuel transfer world).0 ≡ true
  unfolding resume_backup_transfer
  resume-ended zero transfer world positive le = absurd (omega (arith, positive, le))
  resume-ended (suc fuel) transfer world positive le =
      let (progress, after) = transfer_step targets transfer world in
      continued-ended (resume_backup_transfer targets fuel) progress after λ next same.
        let nearer =
          in_phase-Nearer transfer.phase transfer next world after refl positive
            (ap (λ r. (r, after)) same) in
        resume-ended fuel next after nearer.0 (omega (arith, nearer.1, le))

  -- What one iteration leaves to the loop.
  abbrev left_by : Outcome Refusal Progress → ℕ
  left_by (ok (goes_on next)) = steps_left next
  left_by (ok (finished receipt)) = 0
  left_by (err e) = 0

  abbrev pub fuel_for : TransferRecord → World T → ℕ
  fuel_for transfer world =
      suc (steps_left transfer + left_by (transfer_step targets transfer world).0)

  -- From every record and world, and whatever the two targets answer, the loop ends by itself, with a
  -- receipt or with an error, on any fuel from a number on: one more than the phases, files and bytes
  -- that the record leaves and that its first iteration leaves, which may bring the plan.
  pub resume_backup_transfer-ends :
      (transfer : TransferRecord) (world : World T) (fuel : ℕ)
      → fuel_for transfer world ≤ fuel
      → ended (resume_backup_transfer targets fuel transfer world).0 ≡ true
  unfolding resume_backup_transfer
  resume_backup_transfer-ends transfer world zero le = absurd (omega (arith, le))
  resume_backup_transfer-ends transfer world (suc fuel) le =
      let (progress, after) = transfer_step targets transfer world in
      continued-ended (resume_backup_transfer targets fuel) progress after λ next same.
        let positive =
          transfer_step-positive transfer.phase transfer next world after refl
            (ap (λ r. (r, after)) same) in
        resume-ended fuel next after positive (omega (arith, ap left_by same, le))
