-- ===== src/State/Places/Legal.antt =====
-- The places of legal scopes (src/target/journal.rs: deployment_scope).
use Prim.Native.Char.{code}
use Prim.Native.String.{String}
use nazo_auth_ctl.Prelude.{
  ℕ, and-eq-true, ◌≡◌, refl, true, false, [], ◌∷◌, all, ◌==◌, eq_iff, eq_refl, arith,
}
use nazo_auth_ctl.Prelude.Bytes.{codes}
use nazo_auth_ctl.Identifiers.{is_identifier_character, deployment_scope}
use nazo_auth_ctl.State.Places.{Place, same_place, is_absolute, parts, scope_path}

no_slash : (c : ℕ) → is_identifier_character c ≡ true → (c == b'/') ≡ false
unfolding is_identifier_character
no_slash c h = ground (arith, h)

parts-plain : (s : String) → all is_identifier_character (codes s) ≡ true → parts s ≡ s ∷ []
unfolding parts
parts-plain String.[] h = refl
parts-plain (String.◌∷◌ c s) h =
    let (first, rest) = and-eq-true (is_identifier_character (code c)) _ h in
    rw (no_slash (code c) first, parts-plain s rest) refl

is_absolute-plain :
    (s : String) → all is_identifier_character (codes s) ≡ true → is_absolute s ≡ false
is_absolute-plain String.[] h = refl
is_absolute-plain (String.◌∷◌ c s) h =
    no_slash (code c) (and-eq-true (is_identifier_character (code c)) _ h).0

-- A legal scope is a directory of its own name right below the directory of deployments.
pub scope_path-deployment_scope :
    (id : String) → deployment_scope id ≡ true → scope_path id ≡ id ∷ "deployments" ∷ []
unfolding scope_path deployment_scope
scope_path-deployment_scope id h =
    let plain : all is_identifier_character (codes id) ≡ true = ground (arith, h) in
    rw (is_absolute-plain id plain, parts-plain id plain) (ground (arith, h))

pub same_place-eq : (p q : Place) → same_place p q ≡ true → p ≡ q
same_place-eq [] [] h = refl
same_place-eq [] (y ∷ ys) h = cc
same_place-eq (x ∷ xs) [] h = cc
same_place-eq (x ∷ xs) (y ∷ ys) h = ground (arith, h, eq_iff x y, same_place-eq xs ys)

pub same_place_refl : (p : Place) → same_place p p ≡ true
same_place_refl [] = refl
same_place_refl (x ∷ xs) = ground (arith, eq_refl x, same_place_refl xs)
