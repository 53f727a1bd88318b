-- ===== src/Native/Disk/Atomic.antt =====
-- wallet/src/store.rs: no file is torn, and no artifact is overwritten, whatever fails and when.
use tinylayer_org.Base.{
  Bytes, ◌≡◌, ◌≢◌, ◌⊎◌, inl, inr, err, false, Result-cases, [], ◌∷◌, ◌++◌, some, none, ok, arith,
  length, length-append, append_cancel,
}
use tinylayer_org.Wallet.Types.{Failure}
use tinylayer_org.Native.Disk.{
  Disk, FilePath, key, temporary_of, attempt, put, create_new, write_temporary, link_new, write_all,
  sync_all, lose_power, rename, remove_file, hard_link, read_limited_with_limit, cleanup,
  parent_is_dir, replace, write_bytes_atomic_inner, write_state_bytes_atomic, ensure_state_size,
  ensure_output_size, accept_existing, place, write_bytes_destination,
}

-- The temporary file is never the target.
temporary_ne : (random : Bytes) (path : FilePath) → key (temporary_of random path) ≢ key path
temporary_ne random path e =
    let names = append_cancel path.directory e in
    let lengths : length (b'.' ∷ path.name ++ (b'.' ∷ b't' ∷ b'm' ∷ b'p' ∷ b'-' ∷ random))
        ≡ length path.name =
      ground arith in
    absurd (omega (arith, length-append path.name (b'.' ∷ b't' ∷ b'm' ∷ b'p' ∷ b'-' ∷ random)))

-- Beside the temporary file, the disk is as before or has the new contents at the target, as
-- programs see it and as it is found after a loss of power.
pub record IsReplaced (temporary target bytes : Bytes) (before after : Disk) : Type 0 where
  pub others : (k : Bytes) → temporary ≢ k → target ≢ k → after.files k ≡ before.files k
  pub others_survive :
      (k : Bytes)
      → temporary ≢ k
      → target ≢ k
      → (lose_power after).files k ≡ (lose_power before).files k
  pub whole : (after.files target ≡ before.files target) ⊎ (after.files target ≡ some bytes)
  pub survives :
      ((lose_power after).files target ≡ (lose_power before).files target)
      ⊎ ((lose_power after).files target ≡ some bytes)

replace-IsReplaced :
    (temporary target bytes : Bytes) (disk : Disk)
    → temporary ≢ target
    → IsReplaced temporary target bytes disk
        (cleanup temporary (replace temporary target bytes disk)).1
unfolding replace write_temporary create_new write_all sync_all attempt rename put remove_file
    lose_power
replace-IsReplaced temporary target bytes disk ne = record {
  others = λ k a b. ground arith;
  others_survive = λ k a b. ground arith;
  whole = ground arith;
  survives = ground arith;
}

-- Where the replacement succeeds, the target has the new contents and the temporary file is gone.
replace_ok :
    (temporary target bytes : Bytes) (disk : Disk)
    → temporary ≢ target
    → (replace temporary target bytes disk).0 ≡ ok tt
    → ((replace temporary target bytes disk).1.files target ≡ some bytes)
      × ((replace temporary target bytes disk).1.files temporary ≡ none)
unfolding replace write_temporary create_new write_all sync_all attempt rename put
replace_ok temporary target bytes disk ne h = ground arith

-- Without faults, and with no temporary file in the way, the replacement succeeds.
replace_total :
    (temporary target bytes : Bytes) (disk : Disk)
    → disk.faults ≡ []
    → disk.files temporary ≡ none
    → (replace temporary target bytes disk).0 ≡ ok tt
unfolding replace write_temporary create_new write_all sync_all attempt rename put
replace_total temporary target bytes disk none_fails absent = ground arith

-- Whatever fails, after a state was to be written every file but the temporary one and the target is
-- as it was, and the target is as it was or has exactly the new contents. The same holds of what is
-- found if power is then lost, when contents that were not synced are gone.
pub write_state_bytes_atomic-IsReplaced :
    (random : Bytes) (path : FilePath) (bytes : Bytes) (disk : Disk)
    → IsReplaced
        (key (temporary_of random path))
        (key path)
        bytes
        disk
        (write_state_bytes_atomic random path bytes disk).1
unfolding write_state_bytes_atomic write_bytes_atomic_inner parent_is_dir ensure_state_size
write_state_bytes_atomic-IsReplaced random path bytes disk =
    let r =
      replace-IsReplaced (key (temporary_of random path)) (key path) bytes disk
        (temporary_ne random path) in
    record {
      others = λ k a b. ground (arith, r.others k a b);
      others_survive = λ k a b. ground (arith, r.others_survive k a b);
      whole = ground (arith, r.whole);
      survives = ground (arith, r.survives);
    }

-- A state that was written without an error is at its target.
pub write_state_bytes_atomic_ok :
    (random : Bytes) (path : FilePath) (bytes : Bytes) (disk : Disk)
    → (write_state_bytes_atomic random path bytes disk).0 ≡ ok tt
    → (write_state_bytes_atomic random path bytes disk).1.files (key path) ≡ some bytes
unfolding write_state_bytes_atomic write_bytes_atomic_inner parent_is_dir ensure_state_size
write_state_bytes_atomic_ok random path bytes disk h =
    let temporary = key (temporary_of random path) in
    ground (arith, replace_ok temporary (key path) bytes disk (temporary_ne random path))

-- The new contents are in the temporary file and synced, if nothing failed.
write_temporary_ok :
    (temporary bytes : Bytes) (disk : Disk)
    → (write_temporary temporary bytes disk).0 ≡ ok tt
    → ((write_temporary temporary bytes disk).1.files temporary ≡ some bytes)
      × ((write_temporary temporary bytes disk).1.unsynced temporary ≡ false)
unfolding write_temporary create_new write_all sync_all attempt put
write_temporary_ok temporary bytes disk h = ground arith

write_temporary_others :
    (temporary bytes k : Bytes) (disk : Disk)
    → temporary ≢ k
    → ((write_temporary temporary bytes disk).1.files k ≡ disk.files k)
      × ((write_temporary temporary bytes disk).1.unsynced k ≡ disk.unsynced k)
unfolding write_temporary create_new write_all sync_all attempt put
write_temporary_others temporary bytes k disk ne = ground arith

-- What an artifact's target may hold after it was to be written, also if power is then lost.
abbrev pub Keeps : Bytes → Bytes → Disk → Disk → Type 0
Keeps target bytes before after =
    ((after.files target ≡ before.files target) × (after.unsynced target ≡ before.unsynced target))
    ⊎ ((before.files target ≡ none)
        × (after.files target ≡ some bytes)
        × (after.unsynced target ≡ false))

link_new-Keeps :
    (temporary target bytes : Bytes) (disk : Disk)
    → temporary ≢ target
    → disk.files temporary ≡ some bytes
    → disk.unsynced temporary ≡ false
    → Keeps target bytes disk (cleanup temporary (link_new temporary target bytes disk)).1
unfolding link_new attempt hard_link accept_existing read_limited_with_limit put remove_file
link_new-Keeps temporary target bytes disk ne held synced = ground arith

link_new_ok :
    (temporary target bytes : Bytes) (disk : Disk)
    → temporary ≢ target
    → disk.files temporary ≡ some bytes
    → (link_new temporary target bytes disk).0 ≡ ok tt
    → (link_new temporary target bytes disk).1.files target ≡ some bytes
unfolding link_new attempt hard_link accept_existing read_limited_with_limit put remove_file
link_new_ok temporary target bytes disk ne held h = ground arith

cleanup-Keeps :
    (temporary target bytes : Bytes) (disk : Disk) (error : Failure)
    → temporary ≢ target
    → Keeps target bytes disk (cleanup temporary (err error, disk)).1
unfolding remove_file attempt put
cleanup-Keeps temporary target bytes disk error ne = ground arith

place-Keeps :
    (temporary target bytes : Bytes) (disk : Disk)
    → temporary ≢ target
    → Keeps target bytes disk (cleanup temporary (place temporary target bytes disk)).1
unfolding place
place-Keeps temporary target bytes disk ne =
    let written = write_temporary temporary bytes disk in
    let same = write_temporary_others temporary bytes target disk ne in
    elim (Result-cases written.0) [
      | inr (error, e) ↦ ground (arith, cleanup-Keeps temporary target bytes written.1 error ne)
      | inl (done, e) ↦
          let held = write_temporary_ok temporary bytes disk e in
          ground (arith, link_new-Keeps temporary target bytes written.1 ne held.0 held.1)
    ]

place_ok :
    (temporary target bytes : Bytes) (disk : Disk)
    → temporary ≢ target
    → (place temporary target bytes disk).0 ≡ ok tt
    → (place temporary target bytes disk).1.files target ≡ some bytes
unfolding place
place_ok temporary target bytes disk ne h =
    let written = write_temporary temporary bytes disk in
    elim (Result-cases written.0) [
      | inr (error, e) ↦ absurd (ground arith)
      | inl (done, e) ↦
          let held = write_temporary_ok temporary bytes disk e in
          ground (arith, link_new_ok temporary target bytes written.1 ne held.0)
    ]

-- Whatever fails, writing an artifact never changes a file that exists at its target nor whether it
-- is synced, and what it creates there has the whole contents, synced, so that a loss of power
-- keeps them; without an error the contents are there.
pub write_bytes_destination-Keeps :
    (random : Bytes) (path : FilePath) (bytes : Bytes) (disk : Disk)
    → Keeps (key path) bytes disk (write_bytes_destination random path bytes disk).1
      × ((write_bytes_destination random path bytes disk).0 ≡ ok tt
          → (write_bytes_destination random path bytes disk).1.files (key path) ≡ some bytes)
unfolding write_bytes_destination parent_is_dir ensure_output_size
write_bytes_destination-Keeps random path bytes disk =
    let temporary = key (temporary_of random path) in
    let ne = temporary_ne random path in
    (
      ground (arith, place-Keeps temporary (key path) bytes disk ne),
      λ h. ground (arith, place_ok temporary (key path) bytes disk ne),
    )
