-- ===== src/Journal/Running/Scan.antt =====
-- What the scan for an operation's id finds (src/target/journal.rs: run_journaled).
use nazo_auth_ctl.Prelude.{
  retain, not, eq_refl, Bool-cases, ◌⊎◌, inl, inr, ap, ◌===◌, ◌≡◌, ◌≢◌, refl, String, Option, some,
  List, [], ◌∷◌, ◌++◌, All, arith, eq_iff,
}
use nazo_auth_ctl.Journal.{JournalLine}
use nazo_auth_ctl.Journal.Running.{conflict, latest, scan}

-- The line does not belong to the operation.
abbrev pub IsForeign : String → JournalLine → Type 0
IsForeign operation_id line = line.operation_id ≢ operation_id

-- The line, if it belongs to the operation, was written for the same request.
abbrev pub Agrees : String → String → JournalLine → Type 0
Agrees operation_id hash line = line.operation_id ≡ operation_id → line.operation_hash ≡ hash

module _ (operation_id hash : String) where
  pub scan_absent :
      (lines : List JournalLine) (found : Option JournalLine)
      → All (IsForeign operation_id) lines
      → scan operation_id hash found lines ≡ latest found
  unfolding scan
  scan_absent [] found h = refl
  scan_absent (line ∷ lines) found h =
      ground (arith, eq_iff line.operation_id operation_id, h.0, scan_absent lines found h.1)

  pub scan_latest :
      (before after : List JournalLine) (line : JournalLine) (found : Option JournalLine)
      → All (Agrees operation_id hash) before
      → line.operation_id ≡ operation_id
      → line.operation_hash ≡ hash
      → All (IsForeign operation_id) after
      → scan operation_id hash found (before ++ line ∷ after) ≡ latest (some line)
  unfolding scan
  scan_latest [] after line found b i s a = ground (
    arith,
    eq_iff line.operation_id operation_id,
    eq_iff line.operation_hash hash,
    scan_absent after (some line) a,
  )
  scan_latest (x ∷ before) after line found b i s a = ground (
    arith,
    eq_iff x.operation_id operation_id,
    eq_iff x.operation_hash hash,
    b.0,
    scan_latest before after line found b.1 i s a,
    scan_latest before after line (some x) b.1 i s a,
  )

  pub scan_conflict :
      (before after : List JournalLine) (line : JournalLine) (found : Option JournalLine)
      → line.operation_id ≡ operation_id
      → line.operation_hash ≢ hash
      → scan operation_id hash found (before ++ line ∷ after) ≡ conflict
  unfolding scan
  scan_conflict [] after line found i n =
      ground (arith, eq_iff line.operation_id operation_id, eq_iff line.operation_hash hash)
  scan_conflict (x ∷ before) after line found i n = ground (
    arith,
    eq_iff x.operation_id operation_id,
    scan_conflict before after line found i n,
    scan_conflict before after line (some x) i n,
  )

-- The newest line of the operation, with the lines around it.
abbrev pub IsNewest : String → JournalLine → List JournalLine → Type 0
IsNewest operation_id line lines =
    (before : List JournalLine) × ((after : List JournalLine) × ((lines ≡ before ++ line ∷ after)
        × ((line.operation_id ≡ operation_id) × All (IsForeign operation_id) after)))

module _ (operation_id hash : String) where
  -- What a scan without a conflict found: what it began with, or the newest line of the operation.
  abbrev pub Finds : Option JournalLine → Option JournalLine → List JournalLine → Type 0
  Finds began found lines =
      ((found ≡ began) × All (IsForeign operation_id) lines)
      ⊎ ((line : JournalLine) × ((found ≡ some line) × IsNewest operation_id line lines))

  Finds-foreign :
      (line : JournalLine) (lines : List JournalLine) (began found : Option JournalLine)
      → line.operation_id ≢ operation_id
      → Finds began found lines
      → Finds began found (line ∷ lines)
  Finds-foreign line lines began found n (inl (e, a)) = inl (e, (n, a))
  Finds-foreign line lines began found n (inr (l, (e, (before, (after, (s, rest)))))) =
      inr (l, (e, (line ∷ before, (after, (ap (λ xs. line ∷ xs) s, rest)))))

  Finds-own :
      (line : JournalLine) (lines : List JournalLine) (began found : Option JournalLine)
      → line.operation_id ≡ operation_id
      → Finds (some line) found lines
      → Finds began found (line ∷ lines)
  Finds-own line lines began found i (inl (e, a)) = inr (line, (e, ([], (lines, (refl, (i, a))))))
  Finds-own line lines began found i (inr (l, (e, (before, (after, (s, rest)))))) =
      inr (l, (e, (line ∷ before, (after, (ap (λ xs. line ∷ xs) s, rest)))))

  pub scan-Finds :
      (lines : List JournalLine) (began : Option JournalLine) {found : Option JournalLine}
      → scan operation_id hash began lines ≡ latest found
      → All (Agrees operation_id hash) lines × Finds began found lines
  unfolding scan
  scan-Finds [] began h = (tt, inl (ground (arith, h), tt))
  scan-Finds (line ∷ lines) began h = elim (Bool-cases (line.operation_id === operation_id)) [
    | inl own ↦
        let i : line.operation_id ≡ operation_id =
          ground (arith, own, eq_iff line.operation_id operation_id) in
        let same : line.operation_hash ≡ hash =
          ground (arith, h, own, eq_iff line.operation_hash hash) in
        let (agrees, finds) =
          scan-Finds lines (some line) (ground (arith, h, own, same, eq_refl hash)) in
        ((λ _. same, agrees), Finds-own line lines began _ i finds)
    | inr foreign ↦
        let n : line.operation_id ≢ operation_id =
          λ i. ground (arith, foreign, i, eq_refl operation_id) in
        let (agrees, finds) = scan-Finds lines began (ground (arith, h, foreign)) in
        ((λ i. absurd (n i), agrees), Finds-foreign line lines began _ n finds)
  ]

-- Without the operation's lines the journal is as it was before its first one.
pub retain_foreign :
    (operation_id : String) (lines : List JournalLine) (line : JournalLine)
    → All (IsForeign operation_id) lines
    → line.operation_id ≡ operation_id
    → retain (λ l. not (l.operation_id === operation_id)) (lines ++ line ∷ []) ≡ lines
retain_foreign operation_id [] line h i = simp (i, eq_refl)
retain_foreign operation_id (x ∷ lines) line h i =
    ground
      (arith, eq_iff x.operation_id operation_id, h.0, retain_foreign operation_id lines line h.1 i)
