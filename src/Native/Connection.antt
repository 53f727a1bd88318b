-- ===== src/Native/Connection.antt =====
-- wallet/src/services.rs, `EnclaveConnection`, and client/src/lib.rs, `RemoteEnclave`: requests to the
-- enclave, in the clear or over an attested connection.
use tinylayer_org.Base.{
  ℕ, Bytes, List, [], ◌∷◌, Bool, true, Option, some, none, Result, ok, err, ensure, ok_or, not,
  ◌==◌, ◌&&◌, length, Action, String, if◌then◌else◌,
}
use tinylayer_org.Base.Actions.{◌>>=◌, ◌>>◌, check}
use tinylayer_org.Enclave.Types.{
  CoinId, CoinStatus, RegisterRequest, SignRequest, SignResponse, Request, Response,
}
use tinylayer_org.Wallet.Types.{Failure, message}
use tinylayer_org.Native.Http.{Reply, response_bytes_limited, is_success}

-- The transports with the enclave behind them. A request that gets no reply is `none`; a reply of the
-- attested one is its status with its whole body.
pub record Line : Type 1 where
  pub State : Type 0
  pub post_plain : Request → State → Option Reply × State
  pub post_attested : Request → State → Option (ℕ × Bytes) × State
  pub get_health_plain : State → Option ℕ × State
  pub get_health_attested : State → Option ℕ × State
  pub response_from_slice : Bytes → Option Response

pub data EnclaveConnection : Type 0 where
  attested plaintext : EnclaveConnection

-- A measurement that is all zero.
abbrev pub is_zeroed : Bytes → Bool
is_zeroed [] = true
is_zeroed (byte ∷ rest) = byte == 0 && is_zeroed rest

unfoldable pub validate_production_pcrs : List Bytes → Result Failure Unit
validate_production_pcrs [] = ok tt
validate_production_pcrs (pcr ∷ rest) =
    let later = validate_production_pcrs rest in
    if not (length pcr == 48)
    then err (message "PCR must be a 48-byte SHA-384 measurement")
    else if is_zeroed pcr
    then err (message "PCR cannot be the all-zero debug measurement")
    else later

abbrev pub status_in : String → Response → Result Failure CoinStatus
status_in unexpected (Response.status status) = ok status
status_in unexpected (Response.signature response) = err (message unexpected)

abbrev pub signature_in : String → Response → Result Failure SignResponse
signature_in unexpected (Response.status status) = err (message unexpected)
signature_in unexpected (Response.signature response) = ok response

module _ (L : Line) where
  abbrev pub Linked : Type 0 → Type 0
  Linked A = Action L.State Failure A

  abbrev pub replied : {A : Type 0} → String → Option A × L.State → Result Failure A × L.State
  replied context (none, s) = (err (message context), s)
  replied context (some reply, s) = (ok reply, s)

  unfoldable pub call_plain : Request → Linked Response
  call_plain request = do
    reply ← λ s. replied "call plaintext test enclave" (L.post_plain request s)
    bytes ← check (response_bytes_limited reply)
    check (ensure (is_success reply.status) (message "enclave returned an HTTP error"))
    check (ok_or (L.response_from_slice bytes) (message "invalid enclave response"))

  -- `RemoteEnclave::call`
  unfoldable pub call_attested : Request → Linked Response
  call_attested request = do
    reply ← λ s. replied "Enclavia connection failed" (L.post_attested request s)
    check (ensure (is_success reply.0) (message "enclave returned an HTTP error"))
    check (ok_or (L.response_from_slice reply.1) (message "invalid enclave response"))

  unfoldable pub health : EnclaveConnection → Linked Unit
  health attested = do
    status ← λ s. replied "enclave health check" (L.get_health_attested s)
    check (ensure (is_success status) (message "enclave health check"))
  health plaintext = do
    status ← λ s. replied "enclave health check" (L.get_health_plain s)
    check (ensure (is_success status) (message "enclave health check returned an HTTP error"))

  -- `.context(..)`, which is what a failure then reads as.
  abbrev pub in_context :
      {A : Type 0} → String → Result Failure A × L.State → Result Failure A × L.State
  in_context context (ok value, s) = (ok value, s)
  in_context context (err failure, s) = (err (message context), s)

  -- `RemoteEnclave::register` and `status`, and `sign`.
  unfoldable pub remote_status : Request → Linked CoinStatus
  remote_status request = do
    response ← call_attested request
    check (status_in "unexpected enclave response" response)

  unfoldable pub remote_signature : Request → Linked SignResponse
  remote_signature request = do
    response ← call_attested request
    check (signature_in "unexpected enclave response" response)

  unfoldable pub register : EnclaveConnection → RegisterRequest → Linked CoinStatus
  register attested request =
      λ s. in_context "register coin" (remote_status (Request.register request) s)
  register plaintext request = do
    response ← call_plain (Request.register request)
    check (status_in "enclave returned an unexpected registration response" response)

  unfoldable pub status : EnclaveConnection → CoinId → Linked CoinStatus
  status attested coin_id =
      λ s. in_context "query coin status" (remote_status (Request.status coin_id) s)
  status plaintext coin_id = do
    response ← call_plain (Request.status coin_id)
    check (status_in "enclave returned an unexpected status response" response)

  unfoldable pub sign : EnclaveConnection → SignRequest → Linked SignResponse
  sign attested request =
      λ s. in_context "sign recovery" (remote_signature (Request.sign request) s)
  sign plaintext request = do
    response ← call_plain (Request.sign request)
    check (signature_in "enclave returned an unexpected sign response" response)
