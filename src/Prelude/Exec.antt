-- ===== src/Prelude/Exec.antt =====
-- Fallible code, and methods that change a world and may fail: what was changed before a failure
-- stays changed, so the world comes back beside the error too.
use mathlib.Core.Path.{◌≡◌}

pub data Outcome {ℓ} (E A : Type ℓ) : Type ℓ where
  ok : A → Outcome E A
  err : E → Outcome E A

abbrev pub Exec {ℓ} : Type ℓ → Type ℓ → Type ℓ → Type ℓ
Exec W E A = W → Outcome E A × W

module _ {ℓ} {W E A : Type ℓ} where
  abbrev pub pure : A → Exec W E A
  pure a w = (ok a, w)

  abbrev pub fail : E → Exec W E A
  fail e w = (err e, w)

  abbrev pub lift : Outcome E A → Exec W E A
  lift r w = (r, w)

module _ {ℓ} {W E A B : Type ℓ} where
  abbrev pub continue : Outcome E A → (A → Exec W E B) → Exec W E B
  continue (ok a) f w = f a w
  continue (err e) f w = (err e, w)

  infixl 5 ◌>>=◌ ◌>>◌
  abbrev pub ◌>>=◌ : Exec W E A → (A → Exec W E B) → Exec W E B
  ◌>>=◌ m f w = let (r, w') = m w in continue r f w'

  abbrev pub ◌>>◌ : Exec W E A → Exec W E B → Exec W E B
  ◌>>◌ m n w = let (r, w') = m w in continue r (λ _. n) w'

  -- A bind whose first action returned.
  pub >>=-ok :
      (m : Exec W E A) (f : A → Exec W E B) (w : W) {a : A} {w' : W}
      → m w ≡ (ok a, w')
      → (m >>= f) w ≡ f a w'
  >>=-ok m f w h = rw h

  pub >>=-err :
      (m : Exec W E A) (f : A → Exec W E B) (w : W) {e : E} {w' : W}
      → m w ≡ (err e, w')
      → (m >>= f) w ≡ (err e, w')
  >>=-err m f w h = rw h
