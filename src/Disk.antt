-- ===== src/Disk.antt =====
-- One file of the controller and the primitives that change it
-- (crates/nazoauthctl-runtime/src/filesystem.rs: read_secure_regular_file, atomic_write,
-- remove_file_durable; src/target/journal.rs: append). A write meets a fate that the system
-- chooses; a list of fates stands for all that will happen, and a spent list for success.
use nazo_auth_ctl.Prelude.Exec.{Outcome, ok, err, Exec}
use nazo_auth_ctl.Prelude.{
  ℕ, Bool, true, false, Option, none, some, List, [], ◌∷◌, ◌++◌, length, take, leb, if◌then◌else◌,
}

-- `none` is a path where nothing stands.
abbrev pub File : Type 0
File = Option (List ℕ)

pub data WriteFate : Type 0 where
  -- the whole change is durable
  persisted : WriteFate
  -- an error before the file changed
  refused : WriteFate
  -- an error after the first bytes of an append; no part of an atomic replacement
  torn : ℕ → WriteFate
  -- an error after the file changed, such as a failed directory sync
  unsynced : WriteFate

pub data Read : Type 0 where
  found : List ℕ → Read
  missing : Read
  oversized : Read

-- Reads at most `max_bytes + 1` bytes, and refuses a file that is longer than `max_bytes`.
unfoldable pub read_secure_regular_file : ℕ → File → Read
read_secure_regular_file max_bytes none = missing
read_secure_regular_file max_bytes (some bytes) =
    if leb (length bytes) max_bytes then found bytes else oversized

-- The file after the call, and whether the call returned `Ok`.
unfoldable pub atomic_write : WriteFate → List ℕ → File → File × Bool
atomic_write persisted bytes file = (some bytes, true)
atomic_write refused bytes file = (file, false)
atomic_write (torn n) bytes file = (file, false)
atomic_write unsynced bytes file = (some bytes, false)

-- The bytes of a file that an append finds, or creates empty.
abbrev pub contents : File → List ℕ
contents none = []
contents (some bytes) = bytes

unfoldable pub append_bytes : WriteFate → List ℕ → File → File × Bool
append_bytes persisted bytes file = (some (contents file ++ bytes), true)
append_bytes refused bytes file = (file, false)
append_bytes (torn n) bytes file = (some (contents file ++ take n bytes), false)
append_bytes unsynced bytes file = (some (contents file ++ bytes), false)

-- Absence is already fine.
unfoldable pub remove_file_durable : WriteFate → File → File × Bool
remove_file_durable fate none = (none, true)
remove_file_durable persisted (some bytes) = (none, true)
remove_file_durable refused (some bytes) = (some bytes, false)
remove_file_durable (torn n) (some bytes) = (some bytes, false)
remove_file_durable unsynced (some bytes) = (none, false)

-- What the next write meets, and what is left for the later ones.
abbrev pub next_fate : List WriteFate → WriteFate
next_fate [] = persisted
next_fate (fate ∷ _) = fate

abbrev pub later_fates : List WriteFate → List WriteFate
later_fates [] = []
later_fates (_ ∷ fates) = fates

-- A file with the fates of the writes to come, and the writes as actions that may fail.
pub record Disk : Type 0 where
  pub file : File
  pub fates : List WriteFate

abbrev concluded : {E : Type 0} → E → Disk → File × Bool → Outcome E (Unit {0}) × Disk
concluded e disk (file, true) = (ok tt, record { file = file; fates = later_fates disk.fates })
concluded e disk (file, false) = (err e, record { file = file; fates = later_fates disk.fates })

module _ {E : Type 0} (e : E) where
  abbrev pub replace_file : List ℕ → Exec Disk E (Unit {0})
  replace_file bytes disk = concluded e disk (atomic_write (next_fate disk.fates) bytes disk.file)

  abbrev pub append_file : List ℕ → Exec Disk E (Unit {0})
  append_file bytes disk = concluded e disk (append_bytes (next_fate disk.fates) bytes disk.file)

  abbrev pub remove_file : Exec Disk E (Unit {0})
  remove_file disk = concluded e disk (remove_file_durable (next_fate disk.fates) disk.file)
