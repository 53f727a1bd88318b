-- ===== src/Native/Wire/Valid.antt =====
-- client/src/lib.rs, `TryFrom<CoinKeysWire>`: which saved states are read back.
use tinylayer_org.Base.{
  ◌≡◌, ◌≢◌, ◌⊎◌, inl, inr, Option, some, none, ok, err, arith, List, [], ◌∷◌, ◌++◌, All, Result,
  Result-cases,
}
use tinylayer_org.Client.Types.{CoinKeys, CoinMetadata}
use tinylayer_org.Client.Registration.{keys_from_wire, validate_keys}
use tinylayer_org.Wallet.Types.{
  Failure, message, WalletCoin, PendingOperation, RecoveryStage, registration, recovery, responded,
}
use tinylayer_org.Native.Model.{NativeWalletState}
use tinylayer_org.Native.Wire.{
  keys_of, keys_of_metadata, keys_of_coin, keys_of_stage, keys_of_pending, all_from_wire,
  state_from_wire,
}

-- Keys of the first version, of two different parties.
abbrev pub IsKeys : CoinKeys → Type 0
IsKeys keys = (keys.protocol_version ≡ 1) × (keys.client_pubkey ≢ keys.enclave_pubkey)

abbrev pub MetadataIsValid : Option CoinMetadata → Type 0
MetadataIsValid none = Unit
MetadataIsValid (some metadata) = IsKeys metadata.keys

abbrev pub CoinIsValid : Option WalletCoin → Type 0
CoinIsValid none = Unit
CoinIsValid (some coin) = IsKeys coin.keys × MetadataIsValid coin.metadata

abbrev pub StageIsValid : RecoveryStage → Type 0
StageIsValid (RecoveryStage.prepared attempt) = IsKeys attempt.prepared.metadata.keys
StageIsValid (responded attempt response) = IsKeys attempt.prepared.metadata.keys

abbrev pub PendingIsValid : Option PendingOperation → Type 0
PendingIsValid none = Unit
PendingIsValid (some (registration secret capability r)) = Unit
PendingIsValid (some (recovery pending)) = StageIsValid pending.stage

-- The keys of the coin, of its metadata and of the recovery that is pending are valid.
abbrev pub HasValidKeys : NativeWalletState → Type 0
HasValidKeys native = CoinIsValid native.wallet.coin × PendingIsValid native.wallet.pending

All-join : (xs ys : List CoinKeys) → All IsKeys xs → All IsKeys ys → All IsKeys (xs ++ ys)
All-join [] ys h k = k
All-join (x ∷ xs) ys h k = (h.0, All-join xs ys h.1 k)

All-parts : (xs ys : List CoinKeys) → All IsKeys (xs ++ ys) → All IsKeys xs × All IsKeys ys
All-parts [] ys h = (tt, h)
All-parts (x ∷ xs) ys h = let rest = All-parts xs ys h.1 in ((h.0, rest.0), rest.1)

All-metadata : (m : Option CoinMetadata) → MetadataIsValid m → All IsKeys (keys_of_metadata m)
All-metadata none h = tt
All-metadata (some m) h = (h, tt)

metadata-All : (m : Option CoinMetadata) → All IsKeys (keys_of_metadata m) → MetadataIsValid m
metadata-All none h = tt
metadata-All (some m) h = h.0

All-coin : (c : Option WalletCoin) → CoinIsValid c → All IsKeys (keys_of_coin c)
All-coin none h = tt
All-coin (some c) h = (h.0, All-metadata c.metadata h.1)

coin-All : (c : Option WalletCoin) → All IsKeys (keys_of_coin c) → CoinIsValid c
coin-All none h = tt
coin-All (some c) h = (h.0, metadata-All c.metadata h.1)

All-stage : (s : RecoveryStage) → StageIsValid s → All IsKeys (keys_of_stage s)
All-stage (RecoveryStage.prepared attempt) h = (h, tt)
All-stage (responded attempt response) h = (h, tt)

stage-All : (s : RecoveryStage) → All IsKeys (keys_of_stage s) → StageIsValid s
stage-All (RecoveryStage.prepared attempt) h = h.0
stage-All (responded attempt response) h = h.0

All-pending : (o : Option PendingOperation) → PendingIsValid o → All IsKeys (keys_of_pending o)
All-pending none h = tt
All-pending (some (registration secret capability r)) h = tt
All-pending (some (recovery pending)) h = All-stage pending.stage h

pending-All : (o : Option PendingOperation) → All IsKeys (keys_of_pending o) → PendingIsValid o
pending-All none h = tt
pending-All (some (registration secret capability r)) h = tt
pending-All (some (recovery pending)) h = stage-All pending.stage h

all_from_wire-ok : (l : List CoinKeys) → All IsKeys l → all_from_wire l ≡ ok tt
unfolding all_from_wire keys_from_wire validate_keys
all_from_wire-ok [] h = ground arith
all_from_wire-ok (x ∷ l) h = ground (arith, all_from_wire-ok l h.1)

all_from_wire-All : (l : List CoinKeys) → all_from_wire l ≡ ok tt → All IsKeys l
unfolding all_from_wire keys_from_wire validate_keys
all_from_wire-All [] h = tt
all_from_wire-All (x ∷ l) h = ((ground arith, ground arith), all_from_wire-All l (ground arith))

-- How a state is read back: as itself if its keys are valid, and as an error if not.
abbrev pub IsReadAs : NativeWalletState → Result Failure NativeWalletState → Type 0
IsReadAs native read =
    (HasValidKeys native × (read ≡ ok native))
    ⊎ ((¬ HasValidKeys native) × (read ≡ err (message "decrypted wallet state is invalid")))

pub state_from_wire-cases :
    (native : NativeWalletState)
    → (HasValidKeys native × (state_from_wire native ≡ some native))
      ⊎ ((¬ HasValidKeys native) × (state_from_wire native ≡ none))
unfolding state_from_wire
state_from_wire-cases native =
    let coin = native.wallet.coin in
    let pending = native.wallet.pending in
    elim (Result-cases (all_from_wire (keys_of native))) [
      | inl (done, e) ↦
          let parts =
            All-parts (keys_of_coin coin) (keys_of_pending pending)
              (all_from_wire-All (keys_of native) e) in
          inl ((coin-All coin parts.0, pending-All pending parts.1), rw (e, state_from_wire))
      | inr (error, e) ↦
          let refused : ¬ HasValidKeys native = λ h.
            let read = all_from_wire-ok (keys_of native) (
              All-join (keys_of_coin coin) (keys_of_pending pending) (All-coin coin h.0)
                (All-pending pending h.1)) in
            cc in
          inr (refused, rw (e, state_from_wire))
    ]
