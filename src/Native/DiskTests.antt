-- ===== src/Native/DiskTests.antt =====
-- Runs of the writers of files on a sample disk.
use tinylayer_org.Base.{
  same, bytes_discrete, if◌then◌else◌, ◌≡◌, [], ◌∷◌, some, none, ok, true, false,
}
use tinylayer_org.Native.Disk.{
  Disk, FilePath, key, temporary_of, write_state_bytes_atomic, write_bytes_destination,
}
use tinylayer_org.Native.Disk.Atomic.{
  IsReplaced, Keeps, write_state_bytes_atomic-IsReplaced, write_bytes_destination-Keeps,
}

abbrev path : FilePath
path = record { directory = 1 ∷ []; name = 2 ∷ [] }

-- The write is torn, and removing the temporary file fails as well.
abbrev failing : Disk
failing = record {
  files = λ k. if same bytes_discrete k (key path) then some (9 ∷ []) else none;
  unsynced = λ k. false;
  directories = λ d. true;
  faults = false ∷ true ∷ true ∷ true ∷ [];
  torn = 7 ∷ [];
}

write_state_bytes_atomic-IsReplaced_example :
    IsReplaced
      (key (temporary_of (3 ∷ []) path))
      (key path)
      (5 ∷ 6 ∷ [])
      failing
      (write_state_bytes_atomic (3 ∷ []) path (5 ∷ 6 ∷ []) failing).1
write_state_bytes_atomic-IsReplaced_example =
    write_state_bytes_atomic-IsReplaced (3 ∷ []) path (5 ∷ 6 ∷ []) failing

write_bytes_destination-Keeps_example :
    Keeps
      (key path)
      (5 ∷ 6 ∷ [])
      failing
      (write_bytes_destination (3 ∷ []) path (5 ∷ 6 ∷ []) failing).1
    × ((write_bytes_destination (3 ∷ []) path (5 ∷ 6 ∷ []) failing).0 ≡ ok tt
        → (write_bytes_destination (3 ∷ []) path (5 ∷ 6 ∷ []) failing).1.files (key path)
          ≡ some (5 ∷ 6 ∷ []))
write_bytes_destination-Keeps_example =
    write_bytes_destination-Keeps (3 ∷ []) path (5 ∷ 6 ∷ []) failing
