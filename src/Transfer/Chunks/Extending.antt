-- ===== src/Transfer/Chunks/Extending.antt =====
-- A chunk from the source to the destination (src/target/backup_exec.rs: read_transfer_chunk,
-- write_transfer_chunk).
use nazo_auth_ctl.Prelude.{
  ℕ, zero, suc, ◌+◌, ◌≤◌, ◌<◌, ◌≡◌, refl, sym, ap, ◌∙◌, true, some, List, [], ◌∷◌, ◌++◌, length,
  take, arith,
}
use nazo_auth_ctl.Prelude.Exec.{ok}
use nazo_auth_ctl.Prelude.Slices.{drop, take_all, length-take, length-drop, take_more}
use nazo_auth_ctl.Disk.{Disk, contents}
use nazo_auth_ctl.Transfer.Chunks.{write_transfer_chunk, read_chunk_bytes}
use nazo_auth_ctl.Transfer.Chunks.Appending.{write_transfer_chunk-agrees}

take-length : (n : ℕ) (xs : List ℕ) → take (length (take n xs)) xs ≡ take n xs
take-length zero xs = refl
take-length (suc n) [] = refl
take-length (suc n) (x ∷ xs) = ap (λ ys. x ∷ ys) (take-length n xs)

take_within : (n : ℕ) (xs : List ℕ) → n ≤ length xs → take n (take n xs) ≡ take n xs
take_within n xs h = ap (λ m. take m (take n xs)) (sym (length-take n xs h)) ∙ take_all (take n xs)

take_piece :
    (offset n : ℕ) (content : List ℕ)
    → offset ≤ length content
    → take offset content ++ take n (drop offset content)
      ≡ take (offset + length (take n (drop offset content))) content
take_piece offset n content h =
    ap (λ xs. take offset content ++ xs) (sym (take-length n (drop offset content)))
    ∙ take_more (length (take n (drop offset content))) offset content h

take_nonempty : (n : ℕ) (xs : List ℕ) → 0 < n → 0 < length xs → 0 < length (take n xs)
take_nonempty zero xs h l = absurd (omega (arith, h))
take_nonempty (suc n) [] h l = absurd (omega (arith, l))
take_nonempty (suc n) (x ∷ xs) h l = omega arith

read_chunk_bytes-piece :
    (content bytes : List ℕ) (size offset maximum : ℕ)
    → read_chunk_bytes true size offset maximum content ≡ ok bytes
    → (take maximum (drop offset content) ≡ bytes) × (offset < length content)
unfolding read_chunk_bytes
read_chunk_bytes-piece content bytes size offset maximum r = (ground (arith, r), ground (arith, r))

-- A chunk that the source reads at the length of what the destination has of the file, once the
-- destination wrote it there, makes this the beginning of the file that ends with the chunk; the
-- chunk is not empty where at least one byte was asked for.
pub read_chunk_bytes-extends :
    (content bytes : List ℕ) (size offset maximum : ℕ) (disk disk' : Disk)
    → 0 < maximum
    → read_chunk_bytes true size offset maximum content ≡ ok bytes
    → disk.file ≡ some (take offset content)
    → write_transfer_chunk true offset bytes disk ≡ (ok tt, disk')
    → (disk'.file ≡ some (take (offset + length bytes) content)) × (0 < length bytes)
read_chunk_bytes-extends content bytes size offset maximum disk disk' asked r f w =
    let (piece, inside) = read_chunk_bytes-piece content bytes size offset maximum r in
    let le : offset ≤ length content = omega (arith, inside) in
    (
      write_transfer_chunk-agrees true offset bytes disk disk' w
          ∙ ap (λ file. some (take offset (contents file) ++ bytes)) f
          ∙ ap some (
              ap (λ xs. xs ++ bytes) (take_within offset content le)
              ∙ ap (λ xs. take offset content ++ xs) (sym piece)
              ∙ take_piece offset maximum content le
              ∙ ap (λ xs. take (offset + length xs) content) piece),
      omega (
        arith,
        ap length piece,
        take_nonempty maximum (drop offset content) asked
            (omega (arith, inside, length-drop offset content)),
      ),
    )
