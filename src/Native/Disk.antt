-- ===== src/Native/Disk.antt =====
-- wallet/src/store.rs: writing files so that a failure or a loss of power tears none of them.
pub mod Atomic
use tinylayer_org.Base.{
  ℕ, Bytes, Bool, true, false, List, [], ◌∷◌, ◌++◌, Option, some, none, Result, ok, err, ok_or,
  ensure, is_some, not, leb, same, bytes_discrete, length, if◌then◌else◌, Action, ◌*◌,
}
use tinylayer_org.Base.Actions.{◌>>=◌, ◌>>◌, check, fail, return}
use tinylayer_org.Wallet.Types.{Failure, message}

abbrev pub max_file_size : ℕ
max_file_size = 16 * 1024 * 1024

abbrev pub max_state_file_size : ℕ
max_state_file_size = 64 * 1024 * 1024

-- The files with their contents as programs see them, those whose contents are not on the medium yet
-- (`unsynced`), the directories (`is_dir`), and what the operating system will do: each operation
-- takes one answer of `faults`, and fails where it is `true`. A failed write leaves `torn` in its
-- file. A run that loses power is one whose faults are all `true` from there on, and then
-- `lose_power`. A rename or a link that power loss undoes is one that fails in such a run.
pub record Disk : Type 0 where
  pub files : Bytes → Option Bytes
  pub unsynced : Bytes → Bool
  pub directories : Bytes → Bool
  pub faults : List Bool
  pub torn : Bytes

-- A path with a file name.
pub record FilePath : Type 0 where
  pub directory : Bytes
  pub name : Bytes

abbrev pub key : FilePath → Bytes
key path = path.directory ++ (b'/' ∷ path.name)

abbrev pub update : (Bytes → Option Bytes) → Bytes → Option Bytes → Bytes → Option Bytes
update files k contents j = if same bytes_discrete k j then contents else files j

abbrev pub mark : (Bytes → Bool) → Bytes → Bool → Bytes → Bool
mark marks k set j = if same bytes_discrete k j then set else marks j

-- What is found after power is back: contents that were not synced are lost.
unfoldable pub lose_power : Disk → Disk
lose_power disk = record disk {
  files = λ k. if disk.unsynced k then some (disk.torn) else disk.files k;
  unsynced = λ k. false;
  faults = [];
}

abbrev pub Io : Type 0 → Type 0
Io A = Action Disk Failure A

abbrev pub tick : List Bool → Bool × List Bool
tick [] = (false, [])
tick (fault ∷ rest) = (fault, rest)

abbrev pub answer : Bool × List Bool → Disk → Result Failure Unit × Disk
answer (true, rest) disk = (err (message "input/output error"), record disk { faults = rest })
answer (false, rest) disk = (ok tt, record disk { faults = rest })

-- An operation of the file system that may fail, `sync_all` of a directory among them.
unfoldable pub attempt : Io Unit
attempt disk = answer (tick disk.faults) disk

-- The contents of a file, and whether they are still to be synced.
unfoldable pub put : Bytes → Option Bytes → Bool → Io Unit
put k contents pending disk = (
  ok tt,
  record disk { files = update disk.files k contents; unsynced = mark disk.unsynced k pending },
)

-- `OpenOptions::create_new(true).open(path)`
unfoldable pub create_new : Bytes → Io Unit
unfolding attempt put
create_new k = do
  attempt
  λ disk. (ensure (not (is_some (disk.files k))) (message "create temporary file"), disk)
  put k (some []) true

abbrev pub torn_write : Bytes → Bytes → Result Failure Unit × Disk → Result Failure Unit × Disk
torn_write k bytes (ok done, disk) = (
  ok tt,
  record disk { files = update disk.files k (some bytes); unsynced = mark disk.unsynced k true },
)
torn_write k bytes (err failure, disk) = (
  err failure,
  record disk {
    files = update disk.files k (some disk.torn);
    unsynced = mark disk.unsynced k true;
  },
)

-- `file.write_all(bytes)` on the open file.
unfoldable pub write_all : Bytes → Bytes → Io Unit
unfolding attempt
write_all k bytes disk = torn_write k bytes (attempt disk)

-- `file.sync_all()` on the open file.
unfoldable pub sync_all : Bytes → Io Unit
unfolding attempt
sync_all k = do attempt; λ disk. (ok tt, record disk { unsynced = mark disk.unsynced k false })

-- `fs::rename`, atomic. Contents that are not synced go with the name.
unfoldable pub rename : Bytes → Bytes → Io Unit
unfolding attempt put
rename from to = do
  attempt
  contents ← λ disk. (ok_or (disk.files from) (message "no such file"), disk)
  pending ← λ disk. (ok (disk.unsynced from), disk)
  put to (some contents) pending
  put from none false

unfoldable pub remove_file : Bytes → Io Unit
unfolding attempt put
remove_file k = do
  attempt
  λ disk. (ensure (is_some (disk.files k)) (message "no such file"), disk)
  put k none false

-- `fs::hard_link`: `false` where the new path exists already.
unfoldable pub hard_link : Bytes → Bytes → Io Bool
unfolding attempt
hard_link from to = do
  attempt
  λ disk. elim (disk.files to) [
    | some existing ↦ (ok false, disk)
    | none ↦ (
      ok true,
      record disk {
        files = update disk.files to (disk.files from);
        unsynced = mark disk.unsynced to (disk.unsynced from);
      },
    )
  ]

-- `File::open(path)?` and `read_limited_with_limit`.
unfoldable pub read_limited_with_limit : Bytes → ℕ → Io Bytes
unfolding attempt
read_limited_with_limit k limit = do
  attempt
  contents ← λ disk. (ok_or (disk.files k) (message "no such file"), disk)
  check (ensure (leb (length contents) limit) (message "input exceeds limit"))
  return contents

-- `if result.is_err() { let _ = fs::remove_file(&temporary); } result`
abbrev pub cleanup : Bytes → Result Failure Unit × Disk → Result Failure Unit × Disk
cleanup temporary (ok done, disk) = (ok tt, disk)
cleanup temporary (err failure, disk) = (err failure, (remove_file temporary disk).1)

-- `parent.join(format!(".{name}.tmp-{}", hex::encode(random)))`, the random text given.
abbrev pub temporary_of : Bytes → FilePath → FilePath
temporary_of random path = record {
  directory = path.directory;
  name = b'.' ∷ path.name ++ (b'.' ∷ b't' ∷ b'm' ∷ b'p' ∷ b'-' ∷ random);
}

unfoldable pub parent_is_dir : FilePath → Io Unit
parent_is_dir path disk =
    (ensure (disk.directories path.directory) (message "output directory does not exist"), disk)

-- The first steps of both writers.
unfoldable pub write_temporary : Bytes → Bytes → Io Unit
unfolding create_new write_all sync_all
write_temporary temporary bytes = do
  create_new temporary
  write_all temporary bytes
  sync_all temporary

unfoldable pub replace : Bytes → Bytes → Bytes → Io Unit
unfolding write_temporary attempt rename
replace temporary target bytes = do
  write_temporary temporary bytes
  rename temporary target
  attempt

unfoldable pub write_bytes_atomic_inner : Bytes → FilePath → Bytes → Io Unit
unfolding parent_is_dir replace remove_file
write_bytes_atomic_inner random path bytes = do
  parent_is_dir path
  λ disk.
      cleanup (key (temporary_of random path))
        (replace (key (temporary_of random path)) (key path) bytes disk)

unfoldable pub ensure_output_size : Bytes → Result Failure Unit
ensure_output_size bytes =
    ensure (leb (length bytes) max_file_size) (message "output exceeds 16 MiB limit")

unfoldable pub ensure_state_size : Bytes → Result Failure Unit
ensure_state_size bytes =
    ensure (leb (length bytes) max_state_file_size)
      (message "encrypted wallet state exceeds 64 MiB limit")

unfoldable pub write_bytes_atomic : Bytes → FilePath → Bytes → Io Unit
unfolding ensure_output_size write_bytes_atomic_inner
write_bytes_atomic random path bytes = do
  check (ensure_output_size bytes)
  write_bytes_atomic_inner random path bytes

unfoldable pub write_state_bytes_atomic : Bytes → FilePath → Bytes → Io Unit
unfolding ensure_state_size write_bytes_atomic_inner
write_state_bytes_atomic random path bytes = do
  check (ensure_state_size bytes)
  write_bytes_atomic_inner random path bytes

-- What to do with a link that was made, or with a path that exists already.
unfoldable pub accept_existing : Bytes → Bytes → Bool → Io Unit
unfolding read_limited_with_limit
accept_existing target bytes true = return tt
accept_existing target bytes false = do
  existing ← read_limited_with_limit target max_file_size
  check
      (ensure (same bytes_discrete existing bytes) (message "refusing to overwrite existing file"))

-- The link at the target, and the last steps.
unfoldable pub link_new : Bytes → Bytes → Bytes → Io Unit
unfolding attempt hard_link accept_existing remove_file
link_new temporary target bytes = do
  linked ← hard_link temporary target
  accept_existing target bytes linked
  remove_file temporary
  attempt

unfoldable pub place : Bytes → Bytes → Bytes → Io Unit
unfolding write_temporary link_new
place temporary target bytes = do write_temporary temporary bytes; link_new temporary target bytes

unfoldable pub write_bytes_destination : Bytes → FilePath → Bytes → Io Unit
unfolding ensure_output_size parent_is_dir place remove_file
write_bytes_destination random path bytes = do
  check (ensure_output_size bytes)
  parent_is_dir path
  λ disk.
      cleanup (key (temporary_of random path))
        (place (key (temporary_of random path)) (key path) bytes disk)
