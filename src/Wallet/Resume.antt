-- ===== src/Wallet/Resume.antt =====
-- wallet-core/src/state.rs: a caller that lost an answer may ask again.
use tinylayer_org.Base.{Bytes, ◌≡◌, ◌↔◌, refl, Option, none, some, ok, arith}
use tinylayer_org.Enclave.Types.{CoinId, Capability, RegisterRequest, SignResponse}
use tinylayer_org.Wallet.Types.{
  WalletState, PendingOperation, RecoveryStage, RecoveryAttempt, RecoveryPurpose, registration,
  recovery, responded,
}
use tinylayer_org.Wallet.Platform.{Platform}
use tinylayer_org.Wallet.Register.{begin_registration, validate_version}
use tinylayer_org.Wallet.Fund.{
  record_sign_response, record_response, record_taken, pending_sign_request, attempt_of,
}

-- A registration that was begun is begun again with the same request, whatever would be drawn, and
-- with no change to the wallet.
pub begin_registration_again :
    (p : Platform) (s s' : Bytes) (c c' : Capability) (i i' : CoinId) (w v : WalletState)
    (request : RegisterRequest)
    → begin_registration p s c i w ≡ (ok request, v)
    → begin_registration p s' c' i' v ≡ (ok request, v)
unfolding begin_registration validate_version
begin_registration_again p s s' c c' i i' w v request h = ground arith

-- What a wallet awaits or holds of the enclave's answer.
abbrev pub Responded : WalletState → SignResponse → Type 0
Responded w response =
    (purpose : RecoveryPurpose) × (attempt : RecoveryAttempt) × (w.pending
      ≡ some (recovery (record { purpose = purpose; stage = responded attempt response })))

record_response-Responded :
    (response : SignResponse) (purpose : RecoveryPurpose) (w v : WalletState)
    (stage : RecoveryStage)
    → record_response response purpose w stage ≡ (ok tt, v)
    → (attempt : RecoveryAttempt) × (v.pending
        ≡ some (recovery (record { purpose = purpose; stage = responded attempt response })))
      × (attempt ≡ attempt_of stage)
unfolding record_response attempt_of
record_response-Responded response purpose w v (RecoveryStage.prepared attempt) h =
    (attempt, ground arith, refl)
record_response-Responded response purpose w v (responded attempt saved) h =
    (attempt, ground arith, refl)

record_taken-Responded :
    (response : SignResponse) (w v : WalletState) (pending : Option PendingOperation)
    → w.pending ≡ pending
    → record_taken response (record w { pending = none }) pending ≡ (ok tt, v)
    → Responded v response × (pending_sign_request v ≡ pending_sign_request w)
unfolding record_taken pending_sign_request attempt_of
record_taken-Responded response w v none e h = absurd (ground arith)
record_taken-Responded response w v (some (registration s c r)) e h = absurd (ground arith)
record_taken-Responded response w v (some (recovery r)) e h =
    let (attempt, f, g) =
      record_response-Responded response r.purpose (record w { pending = none }) v r.stage h in
    ((r.purpose, attempt, f), ground arith)

-- A recorded response is saved, and keeps the request that it answers.
pub record_sign_response-Responded :
    (response : SignResponse) (w v : WalletState)
    → record_sign_response response w ≡ (ok tt, v)
    → Responded v response × (pending_sign_request v ≡ pending_sign_request w)
unfolding record_sign_response
record_sign_response-Responded response w v h = record_taken-Responded response w v w.pending refl h

-- Once a response is saved, the same one is accepted again, any other is refused, and neither
-- changes the wallet.
pub record_sign_response_again :
    (saved response : SignResponse) (w : WalletState)
    → Responded w saved
    → ((record_sign_response response w).1 ≡ w)
      × (((record_sign_response response w).0 ≡ ok tt) ↔ (response ≡ saved))
unfolding record_sign_response
record_sign_response_again saved response w (purpose, attempt, e) =
    (ground arith, (λ h. ground arith, λ h. ground arith))
