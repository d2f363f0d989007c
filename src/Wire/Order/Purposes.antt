-- ===== src/Wire/Order/Purposes.antt =====
-- The secrets of an install order (src/target/install_exec.rs: InstallOrder::validate).
use nazo_auth_ctl.Prelude.{
  ℕ, suc, ◌+◌, ◌≤◌, ◌≡◌, refl, sym, ◌∙◌, String, Bool-cases, inl, inr, true, false, Option, List,
  [], ◌∷◌, map, All, length, contains, ◌===◌, if◌then◌else◌, eq_iff, eq_refl, arith,
}
use nazo_auth_ctl.Wire.Payloads.{PlannedSecret, InstallOrder}
use nazo_auth_ctl.Wire.Order.{secret_purposes, is_secret_purpose, validate_secrets, validate_order}

abbrev remove : String → List String → List String
remove q [] = []
remove q (y ∷ ys) = let rest = remove q ys in if y === q then ys else y ∷ rest

remove-length :
    (q : String) (ys : List String) → contains ys q ≡ true → suc (length (remove q ys)) ≡ length ys
remove-length q [] h = cc
remove-length q (y ∷ ys) h = ground (arith, h, remove-length q ys)

contains-remove :
    (p q : String) (ys : List String)
    → contains ys p ≡ true
    → (q === p) ≡ false
    → contains (remove q ys) p ≡ true
contains-remove p q [] h d = cc
contains-remove p q (y ∷ ys) h d =
    ground (arith, h, d, eq_iff y q, eq_iff y p, eq_iff q p, contains-remove p q ys)

abbrev Distinct : List String → Type 0
Distinct [] = Unit
Distinct (q ∷ qs) = (contains qs q ≡ false) × Distinct qs

abbrev Within : List String → List String → Type 0
Within ys = All (λ q. contains ys q ≡ true)

Within-remove :
    (q : String) (ps ys : List String)
    → contains ps q ≡ false
    → Within ys ps
    → Within (remove q ys) ps
Within-remove q [] ys d w = tt
Within-remove q (p ∷ ps) ys d (h, w) = (
  contains-remove p q ys h (ground (arith, d, eq_iff p q, eq_iff q p)),
  Within-remove q ps ys (ground (arith, d)) w,
)

-- Distinct texts out of a list that is not longer are all of it.
contains_all :
    (ps ys : List String) (p : String)
    → Distinct ps
    → Within ys ps
    → length ys ≤ length ps
    → contains ys p ≡ true
    → contains ps p ≡ true
contains_all [] [] p d w l h = h
contains_all [] (y ∷ ys) p d w l h = absurd (omega (arith, l))
contains_all (q ∷ ps) ys p (d, ds) (h, w) l m = elim (Bool-cases (q === p)) [
  | inl same ↦ ground (arith, same)
  | inr other ↦ ground (
    arith,
    contains_all ps (remove q ys) p ds (Within-remove q ps ys d w)
        (omega (arith, l, remove-length q ys h)) (contains-remove p q ys m other),
  )
]

abbrev purposes : List PlannedSecret → List String
purposes = map (λ secret. secret.purpose)

-- The secrets of an order that are for a purpose.
abbrev pub count_of : String → List PlannedSecret → ℕ
count_of p [] = 0
count_of p (secret ∷ secrets) = (if secret.purpose === p then 1 else 0) + count_of p secrets

count_of-absent :
    (p : String) (secrets : List PlannedSecret)
    → contains (purposes secrets) p ≡ false
    → count_of p secrets ≡ 0
count_of-absent p [] h = refl
count_of-absent p (secret ∷ secrets) h = ground (arith, h, count_of-absent p secrets)

count_of-present :
    (p : String) (secrets : List PlannedSecret)
    → Distinct (purposes secrets)
    → contains (purposes secrets) p ≡ true
    → count_of p secrets ≡ 1
count_of-present p [] d h = cc
count_of-present p (secret ∷ secrets) (d, ds) h =
    ground (
      arith,
      h,
      d,
      eq_iff secret.purpose p,
      count_of-absent p secrets,
      count_of-present p secrets ds,
    )

length-purposes : (secrets : List PlannedSecret) → length (purposes secrets) ≡ length secrets
length-purposes [] = refl
length-purposes (secret ∷ secrets) = omega (arith, length-purposes secrets)

pub is_secret_purpose-contains : (p : String) → is_secret_purpose p ≡ contains secret_purposes p
unfolding is_secret_purpose
is_secret_purpose-contains p = refl

module _ (decode_base64url : List ℕ → Option (List ℕ)) where
  validate_secrets-cons :
      (seen : List String) (secret : PlannedSecret) (secrets : List PlannedSecret)
      → validate_secrets decode_base64url seen (secret ∷ secrets) ≡ true
      → (is_secret_purpose secret.purpose ≡ true)
        × ((contains seen secret.purpose ≡ false)
            × (validate_secrets decode_base64url (secret.purpose ∷ seen) secrets ≡ true))
  unfolding validate_secrets
  validate_secrets-cons seen secret secrets v = ground (arith, v)

  unseen :
      (seen : List String) (secrets : List PlannedSecret) (p : String)
      → validate_secrets decode_base64url seen secrets ≡ true
      → contains seen p ≡ true
      → contains (purposes secrets) p ≡ false
  unseen seen [] p v h = refl
  unseen seen (secret ∷ secrets) p v h =
      let (_, (new, rest)) = validate_secrets-cons seen secret secrets v in
      ground (arith, new, h, eq_iff secret.purpose p, unseen (secret.purpose ∷ seen) secrets p rest)

  distinct :
      (seen : List String) (secrets : List PlannedSecret)
      → validate_secrets decode_base64url seen secrets ≡ true
      → Distinct (purposes secrets)
  distinct seen [] v = tt
  distinct seen (secret ∷ secrets) v =
      let (_, (new, rest)) = validate_secrets-cons seen secret secrets v in
      (
        unseen (secret.purpose ∷ seen) secrets secret.purpose rest
            (rw (eq_refl secret.purpose) refl),
        distinct (secret.purpose ∷ seen) secrets rest,
      )

  within :
      (seen : List String) (secrets : List PlannedSecret)
      → validate_secrets decode_base64url seen secrets ≡ true
      → Within secret_purposes (purposes secrets)
  within seen [] v = tt
  within seen (secret ∷ secrets) v =
      let (known, (new, rest)) = validate_secrets-cons seen secret secrets v in
      (
        sym (is_secret_purpose-contains secret.purpose) ∙ known,
        within (secret.purpose ∷ seen) secrets rest,
      )

  admitted_secrets :
      (order : InstallOrder)
      → validate_order decode_base64url order ≡ true
      → (length order.secrets ≡ 10) × (validate_secrets decode_base64url [] order.secrets ≡ true)
  unfolding validate_order
  admitted_secrets order v = ground (arith, v)

  -- An admitted install order has exactly one secret for each purpose of the closed set, though its
  -- checks only count the secrets, refuse unknown purposes and refuse repeated ones.
  pub validate_order-purposes :
      (order : InstallOrder) (p : String)
      → validate_order decode_base64url order ≡ true
      → is_secret_purpose p ≡ true
      → count_of p order.secrets ≡ 1
  validate_order-purposes order p v h =
      let (ten, admitted) = admitted_secrets order v in
      let each = distinct [] order.secrets admitted in
      count_of-present p order.secrets each (
        contains_all (purposes order.secrets) secret_purposes p each
          (within [] order.secrets admitted) (omega (arith, ten, length-purposes order.secrets))
          (sym (is_secret_purpose-contains p) ∙ h))
