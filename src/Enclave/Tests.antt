-- ===== src/Enclave/Tests.antt =====
-- Runs of the signer on concrete requests, with a toy hash and toy signatures.
use tinylayer_org.Base.{
  ℕ, Bytes, ◌≡◌, ◌≢◌, ◌⊎◌, refl, [], ◌∷◌, some, ok, err, arith, bytes_discrete, lookup, insert,
  length,
}
use tinylayer_org.Samples.{toy, signature_by}
use tinylayer_org.Enclave.Types.{
  RegisterRequest, SignRequest, SignRequest_discrete, SignResponse, Signer, Request, unauthorized,
  CoinStatus,
}
use tinylayer_org.Enclave.Hashes.{
  authorization, authorization_bytes, capability_hash, initial_handoff, Collides, tagged_bytes,
}
use tinylayer_org.Enclave.Signer.{
  new, new_coin, register, sign, sign_coin, retries, advance, handle, status, coin_status,
}
use tinylayer_org.Enclave.Invariant.{IsValid, handle-IsValid}
use tinylayer_org.Enclave.Handoff.{sign_again, stale-refused, spent_capability}
use tinylayer_org.Enclave.HandedOn.{IsSigned, sign-handed_on}
use tinylayer_org.Enclave.Moves.{HandleMoves, handle-Moves}

abbrev coin_id : Bytes
coin_id = 7 ∷ []

abbrev first_request : SignRequest
first_request = record {
  coin_id = coin_id;
  current_capability = 1 ∷ [];
  current_handoff = initial_handoff;
  next_capability_hash = capability_hash toy (2 ∷ []);
  sighash = 9 ∷ [];
}

-- The old owner, for another digest.
abbrev second_request : SignRequest
second_request = record first_request { sighash = 8 ∷ [] }

abbrev registration : RegisterRequest
registration = record { coin_id = coin_id; initial_capability_hash = capability_hash toy (1 ∷ []) }

abbrev registered : Signer
registered = record { coins = (coin_id, new_coin toy (5 ∷ []) registration) ∷ [] }

abbrev first_response : SignResponse
first_response = record { signature = signature_by (5 ∷ []) (9 ∷ []); next_handoff = 3 ∷ [] }

abbrev signed : Signer
signed = record {
  coins =
      (
        coin_id,
        record {
          signing_key = 5 ∷ [];
          authorization = authorization toy coin_id (capability_hash toy (2 ∷ [])) (3 ∷ []);
          signature_count = 1;
          last = some (first_request, first_response);
        },
      )
      ∷ [];
}

register_test : (register toy 1 (5 ∷ []) registration new).1 ≡ registered
unfolding register new insert lookup
register_test = refl

sign_test : sign toy (3 ∷ []) first_request registered ≡ (ok first_response, signed)
unfolding sign sign_coin retries advance new_coin lookup insert bytes_discrete authorization
    capability_hash tagged_bytes SignRequest_discrete
sign_test = refl

registered-IsValid : IsValid toy 1 registered
unfolding new_coin lookup
registered-IsValid = record {
  distinct = (refl, tt);
  bounded = omega arith;
  coins = (record { counted = omega arith; current = refl }, tt);
}

handle-IsValid_example :
    IsValid toy 1 (handle toy 1 [] (3 ∷ []) (Request.sign first_request) registered).1
handle-IsValid_example =
    handle-IsValid toy 1 [] (3 ∷ []) (Request.sign first_request) registered registered-IsValid

-- Another coin is not touched, and the named one is answered and moved.
handle-Moves_example :
    HandleMoves toy 1 []
      (3 ∷ [])
      registered
      (Request.sign first_request)
      (handle toy 1 [] (3 ∷ []) (Request.sign first_request) registered)
handle-Moves_example = handle-Moves toy 1 [] (3 ∷ []) (Request.sign first_request) registered

sign_again_example : sign toy (4 ∷ []) first_request signed ≡ (ok first_response, signed)
sign_again_example =
    sign_again toy (3 ∷ []) (4 ∷ []) first_request registered signed first_response sign_test

widths :
    (capability : ℕ)
    → length (capability_hash toy (capability ∷ [])) ≡ length (capability_hash toy (2 ∷ []))
unfolding capability_hash tagged_bytes
widths capability = refl

other_than_first : second_request ≢ first_request
other_than_first = ground arith

other_capability : capability_hash toy (1 ∷ []) ≢ capability_hash toy (2 ∷ [])
unfolding capability_hash tagged_bytes
other_capability e = ground arith

stale-refused_example :
    (sign toy (4 ∷ []) second_request signed ≡ (err unauthorized, signed))
    ⊎ Collides toy
        (authorization_bytes toy coin_id (capability_hash toy (1 ∷ [])) initial_handoff)
        (authorization_bytes toy coin_id (capability_hash toy (2 ∷ [])) (3 ∷ []))
stale-refused_example =
    stale-refused toy 1 (3 ∷ []) (4 ∷ []) first_request second_request registered signed
      first_response registered-IsValid sign_test refl other_than_first (widths 1)
      (λ both. other_capability both.0)

spent_capability_example :
    (sign toy (4 ∷ []) second_request signed ≡ (err unauthorized, signed))
    ⊎ Collides toy
        (authorization_bytes toy coin_id (capability_hash toy (1 ∷ [])) initial_handoff)
        (authorization_bytes toy coin_id (capability_hash toy (2 ∷ [])) (3 ∷ []))
spent_capability_example =
    spent_capability toy 1 (3 ∷ []) (4 ∷ []) first_request second_request registered signed
      first_response registered-IsValid sign_test refl other_than_first refl (widths 1)

-- The next owner's request.
abbrev third_request : SignRequest
third_request = record {
  coin_id = coin_id;
  current_capability = 2 ∷ [];
  current_handoff = 3 ∷ [];
  next_capability_hash = capability_hash toy (4 ∷ []);
  sighash = 8 ∷ [];
}

abbrev signed_status : CoinStatus
signed_status = record {
  coin_id = coin_id;
  signing_pubkey = 5 ∷ [];
  authorization = authorization toy coin_id (capability_hash toy (2 ∷ [])) (3 ∷ []);
  signature_count = 1;
}

next_capability : capability_hash toy (4 ∷ []) ≢ capability_hash toy (2 ∷ [])
unfolding capability_hash tagged_bytes
next_capability e = ground arith

status_test : status toy coin_id signed ≡ ok signed_status
unfolding status lookup bytes_discrete coin_status
status_test = refl

sign-handed_on_example : IsSigned toy third_request signed_status (6 ∷ []) signed
sign-handed_on_example =
    sign-handed_on toy 1 (3 ∷ []) (6 ∷ []) first_request third_request registered signed
      first_response signed_status registered-IsValid sign_test refl refl refl next_capability
      status_test (omega arith)
