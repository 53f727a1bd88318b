-- ===== src/Enclave/Signer.antt =====
-- enclave/src/lib.rs: the operations of `Signer`. The random values that an operation draws are
-- arguments: the signing key of `register`, the next handoff of `sign`.
use tinylayer_org.Base.{
  ℕ, Bytes, Option, none, some, length, lookup, insert, Result, ok, err, map_ok, ok_or, ◌>>=◌,
  ensure, Action, if◌then◌else◌, leb, same, not, bytes_discrete, checked_add, ◌>>◌, commit, is_some,
  [],
}
use tinylayer_org.Extern.{Crypto}
use tinylayer_org.Enclave.Types.{
  RegisterRequest, SignRequest, SignRequest_discrete, SignResponse, CoinStatus, Request, Response,
  Error, unknown_coin, capacity_reached, unauthorized, unchanged_capability,
  signature_count_overflow, Coin, Signer, CoinId, HandoffToken,
}
use tinylayer_org.Enclave.Hashes.{capability_hash, authorization, initial_handoff}

-- `Signer::new`
unfoldable pub new : Signer
new = record { coins = [] }

-- `last == &request` for a saved request.
unfoldable pub retries : Coin → SignRequest → Option SignResponse
retries coin request = elim coin.last [
  | none ↦ none
  | some (saved, response) ↦ if same SignRequest_discrete saved request then some response else none
]

module _ (c : Crypto) where
  unfoldable pub coin_status : Coin → CoinId → CoinStatus
  coin_status coin coin_id = record {
    coin_id = coin_id;
    signing_pubkey = c.x_only_public_key coin.signing_key;
    authorization = coin.authorization;
    signature_count = coin.signature_count;
  }

  status_of : CoinId → Option Coin → Result Error CoinStatus
  status_of coin_id none = err unknown_coin
  status_of coin_id (some coin) = ok (coin_status coin coin_id)

  unfoldable pub status : CoinId → Signer → Result Error CoinStatus
  unfolding status_of
  status coin_id s = status_of coin_id (lookup coin_id s.coins)

  unfoldable pub new_coin : Bytes → RegisterRequest → Coin
  new_coin signing_key request = record {
    authorization = authorization c request.coin_id request.initial_capability_hash initial_handoff;
    signing_key = signing_key;
    signature_count = 0;
    last = none;
  }

  unfoldable pub register : ℕ → Bytes → RegisterRequest → Action Signer Error CoinStatus
  register limit signing_key request s =
      if is_some (lookup request.coin_id s.coins)
      then (status request.coin_id s, s)
      else if leb limit (length s.coins)
      then (err capacity_reached, s)
      else (
        ok (coin_status (new_coin signing_key request) request.coin_id),
        record { coins = insert request.coin_id (new_coin signing_key request) s.coins },
      )

  -- The transition of a coin, from the check of the authorization on.
  unfoldable pub advance : HandoffToken → SignRequest → Coin → Result Error (SignResponse × Coin)
  advance next_handoff request coin = do
    let current_capability_hash = capability_hash c request.current_capability
    let expected = authorization c request.coin_id current_capability_hash request.current_handoff
    ensure (same bytes_discrete expected coin.authorization) unauthorized
    ensure (not (same bytes_discrete request.next_capability_hash current_capability_hash))
        unchanged_capability
    next_count ← ok_or (checked_add 64 coin.signature_count 1) signature_count_overflow
    let response : SignResponse = record {
      signature = c.sign_schnorr coin.signing_key request.sighash;
      next_handoff = next_handoff;
    }
    ok (
      response,
      record coin {
        authorization = authorization c request.coin_id request.next_capability_hash next_handoff;
        signature_count = next_count;
        last = some (request, response);
      },
    )

  unfoldable pub sign_coin : HandoffToken → SignRequest → Coin → Result Error (SignResponse × Coin)
  unfolding retries
  sign_coin next_handoff request coin = elim (retries coin request) [
    | some response ↦ ok (response, coin)
    | none ↦ advance next_handoff request coin
  ]

  unfoldable pub sign : HandoffToken → SignRequest → Action Signer Error SignResponse
  unfolding sign_coin
  sign next_handoff request s = commit s do
    coin ← ok_or (lookup request.coin_id s.coins) unknown_coin
    (response, coin') ← sign_coin next_handoff request coin
    ok (response, record s { coins = insert request.coin_id coin' s.coins })

  -- The random values that one call may draw.
  unfoldable pub handle : ℕ → Bytes → HandoffToken → Request → Action Signer Error Response
  unfolding register status sign
  handle limit signing_key next_handoff (Request.register request) s =
      let (r, t) = register limit signing_key request s in (map_ok Response.status r, t)
  handle limit signing_key next_handoff (Request.status coin_id) s =
      (map_ok Response.status (status coin_id s), s)
  handle limit signing_key next_handoff (Request.sign request) s =
      let (r, t) = sign next_handoff request s in (map_ok Response.signature r, t)
