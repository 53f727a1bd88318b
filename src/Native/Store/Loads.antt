-- ===== src/Native/Store/Loads.antt =====
-- wallet/src/store.rs: what is loaded is what was saved last, or before.
use tinylayer_org.Base.{
  Bytes, ◌≡◌, ◌⊎◌, inl, inr, refl, [], some, none, Result, ok, err, arith, length, Result-cases,
  Bool-cases, ap, ◌∙◌, sym, subst, ensure, ok_or, leb, ◌>>=◌, ◌>>◌, Option, ◌≤◌,
}
use tinylayer_org.Wallet.Types.{Failure, message}
use tinylayer_org.Wallet.Codec.{Vault, Json, open_encrypted_json, seal_encrypted_json}
use tinylayer_org.Wallet.Codec.RoundTrip.{IsFaithful, IsFaithfulJson, open-seal}
use tinylayer_org.Native.Model.{NativeWalletState, validate_native}
use tinylayer_org.Native.Disk.{
  Disk, lose_power, key, read_limited_with_limit, max_state_file_size, write_state_bytes_atomic,
  attempt, ensure_state_size,
}
use tinylayer_org.Native.Disk.Atomic.{
  write_state_bytes_atomic-IsReplaced, write_state_bytes_atomic_ok,
}
use tinylayer_org.Native.Wire.{checked_json, state_from_wire}
use tinylayer_org.Native.Wire.Valid.{IsReadAs, state_from_wire-cases}
use tinylayer_org.Native.Store.{
  WalletStore, SaveEntropy, state_path, load_native, write_native, save_native,
}

module _ (v : Vault) (json : Json NativeWalletState) (store : WalletStore) where
  -- What a later process loads, where reading does not fail.
  unfoldable pub reload : Disk → Result Failure NativeWalletState
  reload disk = (load_native v json store (record disk { faults = [] })).0

  decode : Option Bytes → Result Failure NativeWalletState
  decode none = err (message "no such file")
  decode (some bytes) = do
    ensure (leb (length bytes) max_state_file_size) (message "input exceeds limit")
    state ← open_encrypted_json v (checked_json json) bytes store.password store.aad
    validate_native v.platform store.config.network state
    ok state

  reload-decode : (disk : Disk) → reload disk ≡ decode (disk.files (key (state_path store)))
  unfolding reload load_native read_limited_with_limit attempt decode
  reload-decode disk = ground arith

  -- A state as it is read back, its keys checked.
  as_read : NativeWalletState → Result Failure NativeWalletState
  as_read state = ok_or (state_from_wire state) (message "decrypted wallet state is invalid")

  open_checked :
      (bytes : Bytes) (state : NativeWalletState)
      → open_encrypted_json v json bytes store.password store.aad ≡ ok state
      → open_encrypted_json v (checked_json json) bytes store.password store.aad ≡ as_read state
  unfolding open_encrypted_json as_read
  open_checked bytes state h = ground arith

  as_read-IsReadAs : (state : NativeWalletState) → IsReadAs state (as_read state)
  unfolding as_read
  as_read-IsReadAs state = elim (state_from_wire-cases state) [
    | inl (valid, e) ↦ inl (valid, rw e)
    | inr (refused, e) ↦ inr (refused, rw e)
  ]

  -- A later load gives what it gave before, or reads the new state.
  abbrev pub IsWhole : NativeWalletState → Disk → Disk → Type 0
  IsWhole state before after = (reload after ≡ reload before) ⊎ IsReadAs state (reload after)

  module _ (faithful : IsFaithful v) (reads : IsFaithfulJson json) where
    decode_sealed :
        (entropy : SaveEntropy) (state : NativeWalletState) (bytes : Bytes)
        → length entropy.salt ≡ 16
        → length entropy.nonce ≡ 24
        → validate_native v.platform store.config.network state ≡ ok tt
        → seal_encrypted_json v
            (checked_json json)
            entropy.salt
            entropy.nonce
            state
            store.password
            store.aad
          ≡ ok bytes
        → length bytes ≤ max_state_file_size
        → decode (some bytes) ≡ as_read state
    unfolding decode as_read state_from_wire seal_encrypted_json
    decode_sealed entropy state bytes l16 l24 valid sealed fits =
        let again =
          open-seal v faithful json reads entropy.salt entropy.nonce state store.password store.aad
            bytes l16 l24 sealed in
        ground (arith, open_checked bytes state again)

    reload-IsWhole :
        (state : NativeWalletState) (bytes : Bytes) (before after : Disk)
        → decode (some bytes) ≡ as_read state
        → (after.files (key (state_path store)) ≡ before.files (key (state_path store)))
          ⊎ (after.files (key (state_path store)) ≡ some bytes)
        → IsWhole state before after
    reload-IsWhole state bytes before after opens (inl same) =
        inl (reload-decode after ∙ ap decode same ∙ sym (reload-decode before))
    reload-IsWhole state bytes before after opens (inr new) = inr (
        subst (IsReadAs state) (sym (reload-decode after ∙ ap decode new ∙ opens))
          (as_read-IsReadAs state))

    -- What a write of a valid state leaves to be loaded, whatever fails.
    write_native-IsWhole :
        (entropy : SaveEntropy) (state : NativeWalletState) (disk : Disk)
        → length entropy.salt ≡ 16
        → length entropy.nonce ≡ 24
        → validate_native v.platform store.config.network state ≡ ok tt
        → IsWhole state disk (write_native v json entropy store state disk).1
          × IsWhole state
              (lose_power disk)
              (lose_power (write_native v json entropy store state disk).1)
    unfolding write_native
    write_native-IsWhole entropy state disk l16 l24 valid =
        elim (Result-cases (
          seal_encrypted_json v (checked_json json) entropy.salt entropy.nonce state store.password
            store.aad)) [
              | inr (error, e) ↦ rw e (inl refl, inl refl)
              | inl (bytes, sealed) ↦
                  let after =
                    (write_state_bytes_atomic entropy.suffix (state_path store) bytes disk).1 in
                  let r =
                    write_state_bytes_atomic-IsReplaced entropy.suffix (state_path store) bytes
                      disk in
                  let shape : (write_native v json entropy store state disk).1 ≡ after =
                    ground arith in
                  rw shape (elim (Bool-cases (leb (length bytes) max_state_file_size)) [
                    | inr big ↦
                        let same : after ≡ disk =
                          unfold write_state_bytes_atomic ensure_state_size in ground arith in
                        rw same (inl refl, inl refl)
                    | inl fits ↦
                        let opens =
                          decode_sealed entropy state bytes l16 l24 valid sealed (ground arith) in
                        (
                          reload-IsWhole state bytes disk after opens r.whole,
                          reload-IsWhole state bytes (lose_power disk) (lose_power after) opens
                              r.survives,
                        )
                  ])
            ]

    -- With faithful encodings of the wire form, whatever fails while a state is saved, a later load
    -- gives what it gave before or reads the whole new state: as itself if the coin keys in it are
    -- valid, and as an error if not. So it is also where power is lost after any of the steps, and
    -- contents that were not synced are gone: what is loaded is what it was had power been lost
    -- before, or the whole new state as it is read.
    pub save_native-IsWhole :
        (entropy : SaveEntropy) (state : NativeWalletState) (disk : Disk)
        → length entropy.salt ≡ 16
        → length entropy.nonce ≡ 24
        → IsWhole state disk (save_native v json entropy store state disk).1
          × IsWhole state
              (lose_power disk)
              (lose_power (save_native v json entropy store state disk).1)
    unfolding save_native
    save_native-IsWhole entropy state disk l16 l24 =
        elim (Result-cases (validate_native v.platform store.config.network state)) [
          | inr (error, e) ↦ rw e (inl refl, inl refl)
          | inl (tt, valid) ↦ rw valid (write_native-IsWhole entropy state disk l16 l24 valid)
        ]

    reload-save_native :
        (entropy : SaveEntropy) (state : NativeWalletState) (disk : Disk)
        → length entropy.salt ≡ 16
        → length entropy.nonce ≡ 24
        → (save_native v json entropy store state disk).0 ≡ ok tt
        → reload (save_native v json entropy store state disk).1 ≡ as_read state
    unfolding save_native write_native
    reload-save_native entropy state disk l16 l24 h =
        elim (Result-cases (
          seal_encrypted_json v (checked_json json) entropy.salt entropy.nonce state store.password
            store.aad)) [
              | inr (error, e) ↦ absurd (ground arith)
              | inl (bytes, sealed) ↦
                  let after =
                    (write_state_bytes_atomic entropy.suffix (state_path store) bytes disk).1 in
                  let wrote : (write_state_bytes_atomic entropy.suffix (state_path store) bytes
                        disk).0
                      ≡ ok tt =
                    ground arith in
                  let fits : length bytes ≤ max_state_file_size =
                    unfold write_state_bytes_atomic ensure_state_size in ground arith in
                  let shape : (save_native v json entropy store state disk).1 ≡ after =
                    ground arith in
                  rw shape (
                    reload-decode after
                    ∙ ap decode (
                        write_state_bytes_atomic_ok entropy.suffix (state_path store) bytes disk
                          wrote)
                    ∙ decode_sealed entropy state bytes l16 l24 (ground arith) sealed fits)
            ]

    -- With faithful encodings of the wire form, a state that was saved without an error is loaded as
    -- it is read: as itself if all the coin keys in it are valid, and as an error if not.
    pub load-save_native :
        (entropy : SaveEntropy) (state : NativeWalletState) (disk : Disk)
        → length entropy.salt ≡ 16
        → length entropy.nonce ≡ 24
        → (save_native v json entropy store state disk).0 ≡ ok tt
        → IsReadAs state (reload (save_native v json entropy store state disk).1)
    load-save_native entropy state disk l16 l24 h =
        subst (IsReadAs state) (sym (reload-save_native entropy state disk l16 l24 h))
          (as_read-IsReadAs state)
