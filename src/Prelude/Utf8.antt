-- ===== src/Prelude/Utf8.antt =====
-- `std::str::from_utf8` and `str::lines` over bytes, and the last record of a file.
pub mod Lines
use Prim.Native.Nat.{ℕ, zero, suc, ◌+◌, ◌-◌, ◌*◌}
use mathlib.Core.Path.{◌≡◌, refl}
use mathlib.Core.Bool.{Bool, true, false, not, ◌&&◌, ◌||◌}
use mathlib.Core.List.{List, [], ◌∷◌, ◌++◌, reverse}
use native.Mathlib.Omega.{arith}
use nazo_auth_ctl.Prelude.Tests.{leb, ◌==◌, if◌then◌else◌}

-- A first byte that stands alone or opens a sequence, the bytes that it wants to follow, and the
-- range of the first of these.
abbrev is_lead : ℕ → Bool
is_lead b = leb b 0x7f || (leb 0xc2 b && leb b 0xf4)

abbrev wanted : ℕ → ℕ
wanted b = if leb b 0x7f then 0 else if leb b 0xdf then 1 else if leb b 0xef then 2 else 3

abbrev lowest : ℕ → ℕ
lowest b = if b == 0xe0 then 0xa0 else if b == 0xf0 then 0x90 else 0x80

abbrev highest : ℕ → ℕ
highest b = if b == 0xed then 0x9f else if b == 0xf4 then 0x8f else 0xbf

utf8_from : ℕ → ℕ → ℕ → List ℕ → Bool
utf8_from zero lo hi [] = true
utf8_from (suc n) lo hi [] = false
utf8_from zero lo hi (b ∷ rest) = is_lead b && utf8_from (wanted b) (lowest b) (highest b) rest
utf8_from (suc n) lo hi (b ∷ rest) = leb lo b && leb b hi && utf8_from n 0x80 0xbf rest

unfoldable pub is_utf8 : List ℕ → Bool
unfolding utf8_from
is_utf8 bytes = utf8_from 0 0 0 bytes

utf8_from-zero : (lo hi : ℕ) (ys : List ℕ) → utf8_from zero lo hi ys ≡ is_utf8 ys
unfolding is_utf8
utf8_from-zero lo hi [] = refl
utf8_from-zero lo hi (y ∷ ys) = refl

utf8_from-append :
    (n lo hi : ℕ) (xs ys : List ℕ)
    → utf8_from n lo hi xs ≡ true
    → utf8_from n lo hi (xs ++ ys) ≡ is_utf8 ys
unfolding utf8_from
utf8_from-append zero lo hi [] ys h = utf8_from-zero lo hi ys
utf8_from-append (suc n) lo hi [] ys h = cc
utf8_from-append zero lo hi (b ∷ xs) ys h =
    ground (arith, utf8_from-append (wanted b) (lowest b) (highest b) xs ys)
utf8_from-append (suc n) lo hi (b ∷ xs) ys h = ground (arith, utf8_from-append n 0x80 0xbf xs ys)

pub is_utf8-append : (xs ys : List ℕ) → is_utf8 xs ≡ true → is_utf8 (xs ++ ys) ≡ is_utf8 ys
unfolding is_utf8
is_utf8-append xs ys h = utf8_from-append 0 0 0 xs ys h

pub is_utf8-newline : (ys : List ℕ) → is_utf8 (10 ∷ ys) ≡ is_utf8 ys
unfolding is_utf8
is_utf8-newline ys = utf8_from-zero 128 191 ys

-- The code points of a valid UTF-8 text, with the bytes still wanted and the value so far.
abbrev payload : ℕ → ℕ
payload b = if leb b 0xdf then b - 0xc0 else if leb b 0xef then b - 0xe0 else b - 0xf0

code_points_from : ℕ → ℕ → List ℕ → List ℕ
code_points_from n value [] = []
code_points_from zero value (b ∷ rest) = elim (leb b 0x7f) [
  | true ↦ b ∷ code_points_from 0 0 rest
  | false ↦ code_points_from (wanted b) (payload b) rest
]
code_points_from (suc zero) value (b ∷ rest) = (value * 64 + (b - 0x80)) ∷ code_points_from 0 0 rest
code_points_from (suc (suc n)) value (b ∷ rest) =
    code_points_from (suc n) (value * 64 + (b - 0x80)) rest

unfoldable pub code_points : List ℕ → List ℕ
unfolding code_points_from
code_points bytes = code_points_from 0 0 bytes

-- Everything up to the last newline, and what follows it.
abbrev tail_step : ℕ → List ℕ → List ℕ → List ℕ × List ℕ
tail_step b [] tail = if b == 10 then (b ∷ [], tail) else ([], b ∷ tail)
tail_step b (c ∷ complete) tail = (b ∷ c ∷ complete, tail)

unfoldable pub split_tail : List ℕ → List ℕ × List ℕ
split_tail [] = ([], [])
split_tail (b ∷ rest) = let (complete, tail) = split_tail rest in tail_step b complete tail

-- A line without its newline, from its bytes in reverse; a carriage return before it goes too.
abbrev drop_return : List ℕ → List ℕ
drop_return [] = []
drop_return (b ∷ rest) = if b == 13 then rest else b ∷ rest

-- The lines of a text, with the bytes of the current one in reverse. What follows the last newline
-- is a line only if it is not empty.
lines_from : List ℕ → List ℕ → List (List ℕ)
lines_from [] [] = []
lines_from (b ∷ current) [] = reverse (b ∷ current) ∷ []
lines_from current (b ∷ rest) = elim (b == 10) [
  | true ↦ reverse (drop_return current) ∷ lines_from [] rest
  | false ↦ lines_from (b ∷ current) rest
]

unfoldable pub lines : List ℕ → List (List ℕ)
unfolding lines_from
lines bytes = lines_from [] bytes

-- No newline and no carriage return.
abbrev pub is_line_byte : ℕ → Bool
is_line_byte b = not (b == 10) && not (b == 13)
