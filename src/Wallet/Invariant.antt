-- ===== src/Wallet/Invariant.antt =====
-- wallet-core/src/state.rs: what every wallet keeps, whatever is called in whatever order.
use tinylayer_org.Base.{
  ℕ, Bytes, ◌≡◌, ◌<◌, inl, inr, List, Option, none, some, ok, arith, Option-cases, Result-cases,
  true, false, not, ◌&&◌, length, is_some, length-append, [], ◌∷◌, last,
}
use tinylayer_org.Extern.{OutPoint}
use tinylayer_org.Enclave.Types.{CoinId, Capability, CoinStatus, SignResponse}
use tinylayer_org.Client.Types.{NetworkId}
use tinylayer_org.Wallet.Types.{
  WalletState, WalletCoin, PendingOperation, SourceUtxo, ObservedFunding, TransferRequest,
  TransferEnvelope, registration, recovery, empty,
}
use tinylayer_org.Wallet.Platform.{Platform}
use tinylayer_org.Wallet.Register.{begin_registration, complete_registration_of}
use tinylayer_org.Wallet.Fund.{
  begin_funding, record_sign_response, complete_funding_recovery, mark_funding_broadcast,
  funding_journal, pending_recovery, responded_stage,
}
use tinylayer_org.Client.Recovery.{complete_recovery}
use tinylayer_org.Wallet.Package.{decrypt_transfer}
use tinylayer_org.Wallet.Send.{begin_transfer, complete_transfer}
use tinylayer_org.Wallet.Receive.{
  RequestEntropy, begin_transfer_request, accept_transfer, receive_coin,
}

abbrev pub InRange : Option ℕ → ℕ → Type 0
InRange none n = Unit
InRange (some i) n = i < n

-- The owned recovery is in the history; capability and handoff are both held or both gone; they are
-- gone exactly when the coin was sent; and a received coin remembers its request with its package.
pub record CoinIsConsistent (coin : WalletCoin) : Type 0 where
  pub owned : InRange coin.withdrawal_recovery_index (length coin.history)
  pub paired : is_some coin.current_capability ≡ is_some coin.current_handoff
  pub sent : is_some coin.outgoing ≡ not (is_some coin.current_capability)
  pub replay : is_some coin.accepted_request ≡ is_some coin.accepted_envelope_fingerprint

abbrev pub CoinOk : Option WalletCoin → Type 0
CoinOk none = Unit
CoinOk (some coin) = CoinIsConsistent coin

-- A registration is pending only without a coin, and a signature only for a coin that is held.
abbrev pub PendingOk : Option PendingOperation → Option WalletCoin → Type 0
PendingOk none coin = Unit
PendingOk (some (registration s c r)) coin = coin ≡ none
PendingOk (some (recovery r)) none = ⊥
PendingOk (some (recovery r)) (some coin) = is_some coin.current_capability ≡ true

pub record IsConsistent (w : WalletState) : Type 0 where
  pub coin_ok : CoinOk w.coin
  pub pending_ok : PendingOk w.pending w.coin
  -- A wallet that waits for a transfer has no coin and nothing else pending.
  pub waiting : (is_some w.incoming && is_some w.coin) ≡ false
  pub one_at_a_time : (is_some w.incoming && is_some w.pending) ≡ false

last_pos : {A : Type 0} (xs : List A) {x : A} → last xs ≡ some x → 0 < length xs
last_pos [] e = cc
last_pos (y ∷ xs) e = omega arith

pub empty-IsConsistent : IsConsistent empty
empty-IsConsistent = ground arith

module _ (p : Platform) where
  pub begin_registration-IsConsistent :
      (s : Bytes) (c : Capability) (i : CoinId) (w : WalletState)
      → IsConsistent w
      → IsConsistent (begin_registration p s c i w).1
  unfolding begin_registration
  begin_registration-IsConsistent s c i w v = ground arith

  pub complete_registration-IsConsistent :
      (status : CoinStatus) (w : WalletState)
      → IsConsistent w
      → IsConsistent (complete_registration_of p status w).1
  unfolding complete_registration_of
  complete_registration-IsConsistent status w v = ground arith

  pub begin_funding-IsConsistent :
      (n k : Bytes) (network : NetworkId) (secret : Bytes) (source : SourceUtxo)
      (status : CoinStatus) (amount delay rate max_fee margin : ℕ) (w : WalletState)
      → IsConsistent w
      → IsConsistent
          (begin_funding p n k network secret source status amount delay rate max_fee margin w).1
  unfolding begin_funding
  begin_funding-IsConsistent n k network secret source status amount delay rate max_fee margin w v =
      elim (Option-cases w.coin) [ inl e ↦ ground arith | inr (coin, e) ↦ ground arith ]

  pub record_sign_response-IsConsistent :
      (response : SignResponse) (w : WalletState)
      → IsConsistent w
      → IsConsistent (record_sign_response response w).1
  unfolding record_sign_response
  record_sign_response-IsConsistent response w v = ground arith

  pub complete_funding-IsConsistent :
      (status : CoinStatus) (w : WalletState)
      → IsConsistent w
      → IsConsistent (complete_funding_recovery p status w).1
  unfolding complete_funding_recovery pending_recovery
  complete_funding-IsConsistent status w v =
      elim (Result-cases (pending_recovery "wallet has no pending funding recovery" w.pending)) [
        | inr (e1, f1) ↦ ground arith
        | inl (r, f1) ↦
            elim (Result-cases
              (responded_stage "funding recovery has no saved enclave response" r.stage)) [
                | inr (e2, f2) ↦ ground arith
                | inl ((attempt, response), f2) ↦ elim (Option-cases w.coin) [
                  | inl e3 ↦ ground arith
                  | inr (coin, f3) ↦
                      elim (Result-cases (
                        complete_recovery p.bitcoin attempt.request response attempt.prepared
                          coin.client_secret)) [
                            | inr (e4, f4) ↦ ground arith
                            | inl (secured, f4) ↦
                                ground (arith, length-append coin.history (secured ∷ []))
                          ]
                ]
              ]
      ]

  pub mark_broadcast-IsConsistent :
      (txid : Bytes) (w : WalletState)
      → IsConsistent w
      → IsConsistent (mark_funding_broadcast p txid w).1
  unfolding mark_funding_broadcast funding_journal
  mark_broadcast-IsConsistent txid w v = ground arith

  pub begin_request-IsConsistent :
      (e : RequestEntropy) (network : NetworkId) (i : CoinId) (outpoint : OutPoint)
      (amount margin : ℕ) (w : WalletState)
      → IsConsistent w
      → IsConsistent (begin_transfer_request p e network i outpoint amount margin w).1
  unfolding begin_transfer_request
  begin_request-IsConsistent e network i outpoint amount margin w v = ground arith

  pub begin_transfer-IsConsistent :
      (network : NetworkId) (request : TransferRequest) (status : CoinStatus)
      (seen : ObservedFunding) (confirmations margin : ℕ) (w : WalletState)
      → IsConsistent w
      → IsConsistent (begin_transfer p network request status seen confirmations margin w).1
  unfolding begin_transfer
  begin_transfer-IsConsistent network request status seen confirmations margin w v =
      elim (Option-cases w.coin) [ inl e ↦ ground arith | inr (coin, e) ↦ ground arith ]

  pub complete_transfer-IsConsistent :
      (k n : Bytes) (status : CoinStatus) (w : WalletState)
      → IsConsistent w
      → IsConsistent (complete_transfer p k n status w).1
  unfolding complete_transfer
  complete_transfer-IsConsistent k n status w v = elim (Option-cases w.coin) [
    | inl e ↦ ground arith
    | inr (coin, e) ↦ ground arith
  ]

  receive_coin-IsConsistent :
      (network : NetworkId) (request : TransferRequest) (envelope : TransferEnvelope)
      (status : CoinStatus) (seen : ObservedFunding) (confirmations margin : ℕ) (w : WalletState)
      {coin : WalletCoin}
      → receive_coin p network request envelope status seen confirmations margin w ≡ ok coin
      → CoinIsConsistent coin
  unfolding receive_coin
  receive_coin-IsConsistent network request envelope status seen confirmations margin w h =
      elim (Option-cases w.incoming) [
        | inl e1 ↦ absurd (ground arith)
        | inr (incoming, f1) ↦
            elim (Result-cases (decrypt_transfer p request incoming.transport_secret envelope)) [
              | inr (e2, f2) ↦ absurd (ground arith)
              | inl (payload, f2) ↦ elim (Option-cases (last payload.history)) [
                | inl e3 ↦ absurd (ground arith)
                | inr (latest, f3) ↦ ground (arith, last_pos payload.history f3)
              ]
            ]
      ]

  receive_coin-idle :
      (network : NetworkId) (request : TransferRequest) (envelope : TransferEnvelope)
      (status : CoinStatus) (seen : ObservedFunding) (confirmations margin : ℕ) (w : WalletState)
      {coin : WalletCoin}
      → receive_coin p network request envelope status seen confirmations margin w ≡ ok coin
      → w.pending ≡ none
  unfolding receive_coin
  receive_coin-idle network request envelope status seen confirmations margin w h = ground arith

  pub accept-IsConsistent :
      (network : NetworkId) (request : TransferRequest) (envelope : TransferEnvelope)
      (status : CoinStatus) (seen : ObservedFunding) (confirmations margin : ℕ) (w : WalletState)
      → IsConsistent w
      → IsConsistent
          (accept_transfer p network request envelope status seen confirmations margin w).1
  unfolding accept_transfer
  accept-IsConsistent network request envelope status seen confirmations margin w v =
      elim (Result-cases
        (receive_coin p network request envelope status seen confirmations margin w)) [
          | inr (e, f) ↦ ground arith
          | inl (coin, f) ↦ ground (
            arith,
            receive_coin-IsConsistent network request envelope status seen confirmations margin w f,
            receive_coin-idle network request envelope status seen confirmations margin w f,
          )
        ]
