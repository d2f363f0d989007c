-- ===== src/Journal/Running/Effect.antt =====
-- What an action on the journal and the target may do to the target
-- (src/target/journal.rs: run_journaled): nothing, or one effect.
use nazo_auth_ctl.Prelude.{◌≡◌, refl, ◌⊎◌, inl, inr, Bool, true, false, if◌then◌else◌}
use nazo_auth_ctl.Prelude.Exec.{Outcome, ok, err, Exec, continue, ◌>>=◌}
use nazo_auth_ctl.Disk.{Disk}
use nazo_auth_ctl.Wire.{HostResult}
use nazo_auth_ctl.Journal.{JournalError}
use nazo_auth_ctl.Journal.Running.{World, on_disk}

module _ {S : Type 0} where
  abbrev pub Keeps : {A : Type 0} → Exec (World S) JournalError A → Type 0
  Keeps m = (w : World S) → (m w).1.target ≡ w.target

  continue-Keeps :
      {A B : Type 0} (f : A → Exec (World S) JournalError B) (r : Outcome JournalError A)
      (w : World S)
      → ((a : A) → Keeps (f a))
      → (continue r f w).1.target ≡ w.target
  continue-Keeps f (ok a) w h = h a w
  continue-Keeps f (err e) w h = refl

  -- A write to the journal, and then what keeps the target.
  pub on_disk-Keeps :
      {A B : Type 0} (m : Exec Disk JournalError A) (f : A → Exec (World S) JournalError B)
      → ((a : A) → Keeps (f a))
      → Keeps (on_disk m >>= f)
  on_disk-Keeps m f h w =
      let (r, disk) = m w.disk in continue-Keeps f r (record w { disk = disk }) h

  pub if-Keeps :
      {A : Type 0} (b : Bool) (m n : Exec (World S) JournalError A)
      → Keeps m
      → Keeps n
      → Keeps (if b then m else n)
  if-Keeps true m n km kn = km
  if-Keeps false m n km kn = kn

module _ {S : Type 0} (effect : S → S) where
  -- The target is as before, or as one effect leaves it.
  abbrev pub AtMostOnce : S → S → Type 0
  AtMostOnce before after = (after ≡ before) ⊎ (after ≡ effect before)

  abbrev pub Runs : {A : Type 0} → Exec (World S) JournalError A → Type 0
  Runs m = (w : World S) → AtMostOnce w.target (m w).1.target

  continue-Runs :
      {A B : Type 0} (f : A → Exec (World S) JournalError B) (r : Outcome JournalError A)
      (w : World S)
      → ((a : A) → Runs (f a))
      → AtMostOnce w.target (continue r f w).1.target
  continue-Runs f (ok a) w h = h a w
  continue-Runs f (err e) w h = inl refl

  -- A write to the journal, and then at most one effect.
  pub on_disk-Runs :
      {A B : Type 0} (m : Exec Disk JournalError A) (f : A → Exec (World S) JournalError B)
      → ((a : A) → Runs (f a))
      → Runs (on_disk m >>= f)
  on_disk-Runs m f h w = let (r, disk) = m w.disk in continue-Runs f r (record w { disk = disk }) h

  -- The target is as before, or as one effect leaves it that the conditions allow.
  abbrev pub ExecutesOnce : Type 0 → S → S → Type 0
  ExecutesOnce Allowed before after = (after ≡ before) ⊎ ((after ≡ effect before) × Allowed)

  abbrev pub Within : (World S → Type 0) → Exec (World S) JournalError HostResult → Type 0
  Within Allowed m = (w : World S) → ExecutesOnce (Allowed w) w.target (m w).1.target

  continue-Within :
      (f : Unit {0} → Exec (World S) JournalError HostResult) (r : Outcome JournalError (Unit {0}))
      (w : World S)
      → ((a : Unit {0}) → Runs (f a))
      → ExecutesOnce (r ≡ ok tt) w.target (continue r f w).1.target
  continue-Within f (ok tt) w h = elim (h tt w) [
    | inl same ↦ inl same
    | inr once ↦ inr (once, refl)
  ]
  continue-Within f (err e) w h = inl refl

  -- A write to the journal, and then at most one effect.
  pub on_disk-Within :
      (m : Exec Disk JournalError (Unit {0}))
      (f : Unit {0} → Exec (World S) JournalError HostResult)
      → ((a : Unit {0}) → Runs (f a))
      → Within (λ w. (m w.disk).0 ≡ ok tt) (on_disk m >>= f)
  on_disk-Within m f h w =
      let (r, disk) = m w.disk in continue-Within f r (record w { disk = disk }) h

  pub if-Within :
      (Allowed : World S → Type 0) (b : Bool) (m n : Exec (World S) JournalError HostResult)
      → Within Allowed m
      → Within Allowed n
      → Within Allowed (if b then m else n)
  if-Within Allowed true m n hm hn = hm
  if-Within Allowed false m n hm hn = hn

  pub weaken :
      (P Q : Type 0) (before after : S)
      → (P → Q)
      → ExecutesOnce P before after
      → ExecutesOnce Q before after
  weaken P Q before after f (inl same) = inl same
  weaken P Q before after f (inr (once, p)) = inr (once, f p)
