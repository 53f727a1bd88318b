-- ===== src/Enclave/Types.antt =====
-- enclave/src/lib.rs: the wire types, the errors and the state of the signer.
use tinylayer_org.Base.{ℕ, Bytes, Map, Option, ℕ_discrete}

abbrev pub protocol_version : ℕ
protocol_version = 1

abbrev pub CoinId : Type 0
CoinId = Bytes

abbrev pub Capability : Type 0
Capability = Bytes

abbrev pub HandoffToken : Type 0
HandoffToken = Bytes

pub record RegisterRequest : Type 0 where
  pub coin_id : CoinId
  pub initial_capability_hash : Bytes

pub record SignRequest : Type 0 where
  pub coin_id : CoinId
  pub current_capability : Capability
  pub current_handoff : HandoffToken
  pub next_capability_hash : Bytes
  pub sighash : Bytes

-- The derived `PartialEq`.
unfoldable pub SignRequest_discrete : Discrete SignRequest
unfolding ℕ_discrete
SignRequest_discrete = hlevel ℕ_discrete

pub record SignResponse : Type 0 where
  pub signature : Bytes
  pub next_handoff : HandoffToken

unfoldable pub SignResponse_discrete : Discrete SignResponse
unfolding ℕ_discrete
SignResponse_discrete = hlevel ℕ_discrete

pub record CoinStatus : Type 0 where
  pub coin_id : CoinId
  pub signing_pubkey : Bytes
  pub authorization : Bytes
  pub signature_count : ℕ

unfoldable pub CoinStatus_discrete : Discrete CoinStatus
unfolding ℕ_discrete
CoinStatus_discrete = hlevel ℕ_discrete

pub data Request : Type 0 where
  register : RegisterRequest → Request
  status : CoinId → Request
  sign : SignRequest → Request

pub data Response : Type 0 where
  status : CoinStatus → Response
  signature : SignResponse → Response

pub data Error : Type 0 where
  unknown_coin capacity_reached unauthorized unchanged_capability : Error
  signature_count_overflow : Error

pub record Coin : Type 0 where
  pub signing_key : Bytes
  pub authorization : Bytes
  pub signature_count : ℕ
  pub last : Option (SignRequest × SignResponse)

-- `Signer<LIMIT>`; the limit is an argument of `register`.
pub record Signer : Type 0 where
  pub coins : Map Coin
