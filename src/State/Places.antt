-- ===== src/State/Places.antt =====
-- Where the files of a deployment are (src/target/deployment_state.rs: scope_path). A place is the
-- list of directory names that the path leads through, the last one first, from the state root on, as
-- the file system walks it: a text is joined and split as std::path does on Unix, `.` stays, `..`
-- goes up, and `..` as a name stands for a directory above the state root. The place of an absolute
-- text begins with `/`. Symbolic links are left out.
pub mod Legal
use Prim.Native.Char.{Char, code}
use Prim.Native.String.{String}
use nazo_auth_ctl.Prelude.{
  Bool, true, false, ◌&&◌, ◌||◌, Option, none, some, List, [], ◌∷◌, ◌==◌, ◌===◌, if◌then◌else◌,
}

abbrev pub Place : Type 0
Place = List String

abbrev pub same_place : Place → Place → Bool
same_place [] [] = true
same_place [] (y ∷ ys) = false
same_place (x ∷ xs) [] = false
same_place (x ∷ xs) (y ∷ ys) = x === y && same_place xs ys

abbrev extend_first : Char → List String → List String
extend_first c [] = String.◌∷◌ c String.[] ∷ []
extend_first c (part ∷ parts) = String.◌∷◌ c part ∷ parts

-- The parts of a text between its slashes; there is always a first one.
unfoldable pub parts : String → List String
parts String.[] = String.[] ∷ []
parts (String.◌∷◌ c s) =
    let rest = parts s in if code c == b'/' then "" ∷ rest else extend_first c rest

-- `..` from a place.
abbrev above : Place → Place
above [] = ".." ∷ []
above (name ∷ rest) =
    if name === "/" then name ∷ rest else if name === ".." then ".." ∷ name ∷ rest else rest

abbrev step : Place → String → Place
step place part =
    if part === "" || part === "."
    then place
    else if part === ".."
    then above place
    else part ∷ place

abbrev walk : Place → List String → Place
walk place [] = place
walk place (part ∷ rest) = walk (step place part) rest

abbrev is_absolute : String → Bool
is_absolute String.[] = false
is_absolute (String.◌∷◌ c s) = code c == b'/'

-- `root.join("deployments").join(scope)`; an absolute text replaces what it is joined to.
unfoldable pub scope_path : String → Place
unfolding parts
scope_path id = walk (if is_absolute id then "/" ∷ [] else "deployments" ∷ []) (parts id)

-- The name of an entry of the directory of deployments.
abbrev pub entry_name : Place → Option String
entry_name [] = none
entry_name (name ∷ []) = none
entry_name (name ∷ parent ∷ []) = if parent === "deployments" then some name else none
entry_name (name ∷ parent ∷ _ ∷ _) = none
