-- ===== src/Native/Wire.antt =====
-- client/src/lib.rs, `TryFrom<CoinKeysWire>`, where wallet/src/model.rs and wallet-core/src/state.rs
-- read a saved state: each `CoinKeys` in it is checked while the state is parsed.
pub mod Valid
use tinylayer_org.Base.{Option, some, none, Result, ok, err, ◌>>=◌, List, [], ◌∷◌, ◌++◌}
use tinylayer_org.Client.Types.{CoinKeys, CoinMetadata, Error}
use tinylayer_org.Client.Registration.{keys_from_wire}
use tinylayer_org.Wallet.Types.{
  WalletCoin, PendingOperation, RecoveryStage, registration, recovery, responded,
}
use tinylayer_org.Wallet.Codec.{Json}
use tinylayer_org.Native.Model.{NativeWalletState}

abbrev pub keys_of_metadata : Option CoinMetadata → List CoinKeys
keys_of_metadata none = []
keys_of_metadata (some metadata) = metadata.keys ∷ []

abbrev pub keys_of_coin : Option WalletCoin → List CoinKeys
keys_of_coin none = []
keys_of_coin (some coin) = coin.keys ∷ keys_of_metadata coin.metadata

abbrev pub keys_of_stage : RecoveryStage → List CoinKeys
keys_of_stage (RecoveryStage.prepared attempt) = attempt.prepared.metadata.keys ∷ []
keys_of_stage (responded attempt response) = attempt.prepared.metadata.keys ∷ []

abbrev pub keys_of_pending : Option PendingOperation → List CoinKeys
keys_of_pending none = []
keys_of_pending (some (registration secret capability r)) = []
keys_of_pending (some (recovery pending)) = keys_of_stage pending.stage

-- Every `CoinKeys` that stands in a state, each of which is read by `TryFrom<CoinKeysWire>`.
abbrev pub keys_of : NativeWalletState → List CoinKeys
keys_of native = keys_of_coin native.wallet.coin ++ keys_of_pending native.wallet.pending

unfoldable pub all_from_wire : List CoinKeys → Result Error Unit
unfolding keys_from_wire
all_from_wire [] = ok tt
all_from_wire (keys ∷ rest) = do read ← keys_from_wire keys; all_from_wire rest

-- A state with keys that are refused is one that does not parse.
unfoldable pub state_from_wire : NativeWalletState → Option NativeWalletState
unfolding all_from_wire
state_from_wire native = elim (all_from_wire (keys_of native)) [
  | ok done ↦ some native
  | err error ↦ none
]

-- The derived reading of a state, given that of its wire form, in which keys are not checked.
abbrev pub checked_json : Json NativeWalletState → Json NativeWalletState
checked_json wire = record {
  to_vec = wire.to_vec;
  from_slice =
      λ bytes. elim (wire.from_slice bytes) [ none ↦ none | some native ↦ state_from_wire native ];
}
