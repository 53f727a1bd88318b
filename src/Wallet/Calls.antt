-- ===== src/Wallet/Calls.antt =====
-- wallet-core/src/state.rs: a wallet's calls in any order.
use tinylayer_org.Base.{ℕ, Bytes, List, [], ◌∷◌}
use tinylayer_org.Extern.{OutPoint}
use tinylayer_org.Enclave.Types.{CoinId, Capability, CoinStatus, SignResponse}
use tinylayer_org.Client.Types.{NetworkId}
use tinylayer_org.Wallet.Types.{
  WalletState, SourceUtxo, ObservedFunding, TransferRequest, TransferEnvelope, empty,
}
use tinylayer_org.Wallet.Platform.{Platform}
use tinylayer_org.Wallet.Register.{begin_registration, complete_registration_of}
use tinylayer_org.Wallet.Fund.{
  begin_funding, record_sign_response, complete_funding_recovery, mark_funding_broadcast,
}
use tinylayer_org.Wallet.Send.{begin_transfer, complete_transfer}
use tinylayer_org.Wallet.Receive.{RequestEntropy, begin_transfer_request, accept_transfer}
use tinylayer_org.Wallet.Invariant.{
  IsConsistent, empty-IsConsistent, begin_registration-IsConsistent,
  complete_registration-IsConsistent, begin_funding-IsConsistent, record_sign_response-IsConsistent,
  complete_funding-IsConsistent, mark_broadcast-IsConsistent, begin_request-IsConsistent,
  begin_transfer-IsConsistent, complete_transfer-IsConsistent, accept-IsConsistent,
}

-- Every call of the wallet, with the random values that it draws.
pub data Call : Type 0 where
  begins_registration : Bytes → Capability → CoinId → Call
  completes_registration : CoinStatus → Call
  begins_funding :
      Bytes → Bytes → NetworkId → Bytes → SourceUtxo → CoinStatus → ℕ → ℕ → ℕ → ℕ → ℕ → Call
  records_response : SignResponse → Call
  completes_funding : CoinStatus → Call
  marks_broadcast : Bytes → Call
  begins_request : RequestEntropy → NetworkId → CoinId → OutPoint → ℕ → ℕ → Call
  begins_transfer : NetworkId → TransferRequest → CoinStatus → ObservedFunding → ℕ → ℕ → Call
  completes_transfer : Bytes → Bytes → CoinStatus → Call
  accepts_transfer :
      NetworkId → TransferRequest → TransferEnvelope → CoinStatus → ObservedFunding → ℕ → ℕ → Call

module _ (p : Platform) where
  -- The wallet after a call, failed or not.
  pub step : Call → WalletState → WalletState
  step (begins_registration s c i) w = (begin_registration p s c i w).1
  step (completes_registration status) w = (complete_registration_of p status w).1
  step (begins_funding n k network secret source status amount delay rate max_fee margin) w =
      (begin_funding p n k network secret source status amount delay rate max_fee margin w).1
  step (records_response response) w = (record_sign_response response w).1
  step (completes_funding status) w = (complete_funding_recovery p status w).1
  step (marks_broadcast txid) w = (mark_funding_broadcast p txid w).1
  step (begins_request e network i outpoint amount margin) w =
      (begin_transfer_request p e network i outpoint amount margin w).1
  step (begins_transfer network request status seen confirmations margin) w =
      (begin_transfer p network request status seen confirmations margin w).1
  step (completes_transfer k n status) w = (complete_transfer p k n status w).1
  step (accepts_transfer network request envelope status seen confirmations margin) w =
      (accept_transfer p network request envelope status seen confirmations margin w).1

  pub run : List Call → WalletState → WalletState
  run [] w = w
  run (c ∷ cs) w = run cs (step c w)

  step-IsConsistent : (c : Call) (w : WalletState) → IsConsistent w → IsConsistent (step c w)
  unfolding step
  step-IsConsistent (begins_registration s c i) w v = begin_registration-IsConsistent p s c i w v
  step-IsConsistent (completes_registration status) w v =
      complete_registration-IsConsistent p status w v
  step-IsConsistent
        (begins_funding n k network secret source status amount delay rate max_fee margin) w v =
      begin_funding-IsConsistent p n k network secret source status amount delay rate max_fee margin
        w v
  step-IsConsistent (records_response response) w v =
      record_sign_response-IsConsistent p response w v
  step-IsConsistent (completes_funding status) w v = complete_funding-IsConsistent p status w v
  step-IsConsistent (marks_broadcast txid) w v = mark_broadcast-IsConsistent p txid w v
  step-IsConsistent (begins_request e network i outpoint amount margin) w v =
      begin_request-IsConsistent p e network i outpoint amount margin w v
  step-IsConsistent (begins_transfer network request status seen confirmations margin) w v =
      begin_transfer-IsConsistent p network request status seen confirmations margin w v
  step-IsConsistent (completes_transfer k n status) w v =
      complete_transfer-IsConsistent p k n status w v
  step-IsConsistent (accepts_transfer network request envelope status seen confirmations margin) w
        v =
      accept-IsConsistent p network request envelope status seen confirmations margin w v

  run-IsConsistent : (cs : List Call) (w : WalletState) → IsConsistent w → IsConsistent (run cs w)
  unfolding run
  run-IsConsistent [] w v = v
  run-IsConsistent (c ∷ cs) w v = run-IsConsistent cs (step c w) (step-IsConsistent c w v)

  -- After any calls in any order, failed ones included, a wallet that began empty is consistent.
  pub run-empty-IsConsistent : (cs : List Call) → IsConsistent (run cs empty)
  run-empty-IsConsistent cs = run-IsConsistent cs empty empty-IsConsistent
