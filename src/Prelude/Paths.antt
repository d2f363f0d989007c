-- ===== src/Prelude/Paths.antt =====
-- `str::split` on a character, and the parts of `std::path` that the source uses, as on Unix.
use Prim.Native.String.{String}
use Prim.Native.Nat.{ℕ}
use mathlib.Core.Bool.{Bool, true, false, ◌&&◌, ◌||◌}
use mathlib.Core.Option.{Option, none, some}
use mathlib.Core.List.{List, [], ◌∷◌}
use nazo_auth_ctl.Prelude.Tests.{◌==◌, if◌then◌else◌}
use nazo_auth_ctl.Prelude.Bytes.{codes}

abbrev pub same_codes : List ℕ → List ℕ → Bool
same_codes [] [] = true
same_codes (a ∷ xs) (b ∷ ys) = a == b && same_codes xs ys
same_codes _ _ = false

-- `str::split` on one character: there is always a first part.
abbrev into_first : ℕ → List (List ℕ) → List (List ℕ)
into_first c [] = (c ∷ []) ∷ []
into_first c (part ∷ parts) = (c ∷ part) ∷ parts

unfoldable pub split : ℕ → List ℕ → List (List ℕ)
split separator [] = [] ∷ []
split separator (c ∷ cs) =
    let rest = split separator cs in if c == separator then [] ∷ rest else into_first c rest

abbrev dot : List ℕ
dot = b'.' ∷ []

abbrev dot_dot : List ℕ
dot_dot = b'.' ∷ b'.' ∷ []

-- std::path::Component
pub data Component : Type 0 where
  root_dir cur_dir parent_dir : Component
  normal : List ℕ → Component

-- A part after the first: an empty one and `.` name no component.
abbrev component : List ℕ → List Component → List Component
component part rest =
    if same_codes part [] || same_codes part dot
    then rest
    else if same_codes part dot_dot
    then parent_dir ∷ rest
    else normal part ∷ rest

abbrev later_components : List (List ℕ) → List Component
later_components [] = []
later_components (part ∷ parts) = component part (later_components parts)

-- The first part of a rooted path is empty; a leading `.` of another one is kept.
abbrev leading_components : List (List ℕ) → List Component
leading_components [] = []
leading_components (part ∷ parts) =
    if same_codes part dot
    then cur_dir ∷ later_components parts
    else component part (later_components parts)

abbrev pub starts_rooted : List ℕ → Bool
starts_rooted [] = false
starts_rooted (c ∷ cs) = c == b'/'

-- Path::components
unfoldable pub components : String → List Component
components path =
    let parts = split b'/' (codes path) in
    if starts_rooted (codes path)
    then root_dir ∷ later_components parts
    else leading_components parts

-- Path::parent
abbrev prepend_component : Component → Option (List Component) → Option (List Component)
prepend_component c none = none
prepend_component c (some cs) = some (c ∷ cs)

unfoldable pub parent : List Component → Option (List Component)
parent [] = none
parent (root_dir ∷ []) = none
parent (cur_dir ∷ []) = some []
parent (parent_dir ∷ []) = some []
parent (normal part ∷ []) = some []
parent (c ∷ d ∷ rest) = prepend_component c (parent (d ∷ rest))

abbrev same_component : Component → Component → Bool
same_component root_dir root_dir = true
same_component cur_dir cur_dir = true
same_component parent_dir parent_dir = true
same_component (normal a) (normal b) = same_codes a b
same_component _ _ = false

abbrev pub same_path : List Component → List Component → Bool
same_path [] [] = true
same_path (a ∷ xs) (b ∷ ys) = same_component a b && same_path xs ys
same_path _ _ = false

abbrev pub is_traversal : Component → Bool
is_traversal parent_dir = true
is_traversal cur_dir = true
is_traversal root_dir = false
is_traversal (normal _) = false
