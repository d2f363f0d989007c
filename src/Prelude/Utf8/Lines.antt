-- ===== src/Prelude/Utf8/Lines.antt =====
-- Records that end in a newline are read back one by one, and the rest of a file is told apart.
use Prim.Native.Nat.{ℕ}
use mathlib.Core.Path.{◌≡◌, refl}
use mathlib.Core.Bool.{true}
use mathlib.Core.List.{List, [], ◌∷◌, ◌++◌, reverse, reverse-cons, append-nil, append_assoc}
use native.Mathlib.Omega.{arith}
use nazo_auth_ctl.Prelude.Lists.{all}
use nazo_auth_ctl.Prelude.Utf8.{is_line_byte, drop_return, lines_from, lines, split_tail}

lines_from-line :
    (current l rest : List ℕ)
    → all is_line_byte l ≡ true
    → drop_return current ≡ current
    → lines_from current (l ++ 10 ∷ rest) ≡ (reverse current ++ l) ∷ lines_from [] rest
unfolding lines_from
lines_from-line current [] rest h k = rw (k, append-nil)
lines_from-line current (b ∷ l) rest h k = ground (
  arith,
  lines_from-line (b ∷ current) l rest,
  reverse-cons b current,
  append_assoc (reverse current) (b ∷ []) l,
)

-- A record without newlines and carriage returns is the first line.
pub lines-line :
    (l rest : List ℕ) → all is_line_byte l ≡ true → lines (l ++ 10 ∷ rest) ≡ l ∷ lines rest
unfolding lines
lines-line l rest h = lines_from-line [] l rest h refl

-- A record in front of a file leaves its last, incomplete record as it is.
pub split_tail-line :
    (l rest c t : List ℕ)
    → split_tail rest ≡ (c, t)
    → split_tail (l ++ 10 ∷ rest) ≡ (l ++ 10 ∷ c, t)
unfolding split_tail
split_tail-line [] rest [] t h = simp (h)
split_tail-line [] rest (x ∷ c) t h = simp (h)
split_tail-line (b ∷ []) rest c t h = simp (split_tail-line [] rest c t h)
split_tail-line (b ∷ x ∷ l) rest c t h = simp (split_tail-line (x ∷ l) rest c t h)

pub split_tail-tail : (t : List ℕ) → all is_line_byte t ≡ true → split_tail t ≡ ([], t)
unfolding split_tail
split_tail-tail [] h = refl
split_tail-tail (b ∷ t) h = ground (arith, split_tail-tail t)
