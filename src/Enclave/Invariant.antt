-- ===== src/Enclave/Invariant.antt =====
-- enclave/src/lib.rs: the well-formedness of a coin and of the signer, kept by every request.
use tinylayer_org.Base.{
  ℕ, Bytes, ◌≡◌, ◌≢◌, subst, leb, ◌≤◌, ◌<◌, ◌^◌, Option, none, some, length, lookup, insert, ok,
  arith, Distinct, Entries, insert-Distinct, insert-Entries, lookup-Entries, length-insert,
  Bool-cases, Option-cases, inl, inr, is_some, Result, Result-cases,
}
use tinylayer_org.Extern.{Crypto}
use tinylayer_org.Enclave.Types.{
  CoinId, RegisterRequest, SignRequest, SignResponse, Coin, Signer, Request, Error,
}
use tinylayer_org.Enclave.Hashes.{authorization, capability_hash}
use tinylayer_org.Enclave.Signer.{new_coin, register, advance, sign, sign_coin, retries, handle}

module _ (c : Crypto) where
  -- What the saved pair of a coin says of its other fields.
  abbrev pub LastIsCurrent : CoinId → Coin → Option (SignRequest × SignResponse) → Type 0
  LastIsCurrent coin_id coin none = coin.signature_count ≡ 0
  LastIsCurrent coin_id coin (some (request, response)) =
      (request.coin_id ≡ coin_id)
      × (coin.authorization
          ≡ authorization c coin_id request.next_capability_hash response.next_handoff)
      × (response.signature ≡ c.sign_schnorr coin.signing_key request.sighash)
      × (1 ≤ coin.signature_count)
      × (request.next_capability_hash ≢ capability_hash c request.current_capability)

  pub record CoinIsValid (coin_id : CoinId) (coin : Coin) : Type 0 where
    pub counted : coin.signature_count < 2 ^ 64
    pub current : LastIsCurrent coin_id coin coin.last

  pub record IsValid (limit : ℕ) (s : Signer) : Type 0 where
    pub distinct : Distinct s.coins
    pub bounded : length s.coins ≤ limit
    pub coins : Entries CoinIsValid s.coins

  pub advance-CoinIsValid :
      (next_handoff : Bytes) (request : SignRequest) (coin : Coin) {response : SignResponse}
      {coin' : Coin}
      → advance c next_handoff request coin ≡ ok (response, coin')
      → CoinIsValid request.coin_id coin'
  unfolding advance
  advance-CoinIsValid next_handoff request coin h = ground arith

  new_coin-CoinIsValid :
      (signing_key : Bytes) (request : RegisterRequest)
      → CoinIsValid request.coin_id (new_coin c signing_key request)
  unfolding new_coin
  new_coin-CoinIsValid signing_key request = (omega arith)

  sign_coin-CoinIsValid :
      (next_handoff : Bytes) (request : SignRequest) (coin : Coin) {response : SignResponse}
      {coin' : Coin}
      → CoinIsValid request.coin_id coin
      → sign_coin c next_handoff request coin ≡ ok (response, coin')
      → CoinIsValid request.coin_id coin'
  unfolding sign_coin
  sign_coin-CoinIsValid next_handoff request coin {response} {coin'} v h =
      elim (Option-cases (retries coin request)) [
        | inl e ↦ advance-CoinIsValid next_handoff request coin (rw (e, sign_coin) at h)
        | inr (saved, e) ↦
            subst (CoinIsValid request.coin_id) (same_coin (rw (e, sign_coin) at h)) v
      ]
    where
      same_coin :
          {x : SignResponse}
          → ◌≡◌ {A = Result Error (SignResponse × Coin)} (ok (x, coin)) (ok (response, coin'))
          → coin ≡ coin'
      same_coin p = cc

  replace-IsValid :
      (limit : ℕ) (s : Signer) (coin_id : CoinId) (coin coin' : Coin)
      → IsValid limit s
      → lookup coin_id s.coins ≡ some coin
      → CoinIsValid coin_id coin'
      → IsValid limit (record s { coins = insert coin_id coin' s.coins })
  replace-IsValid limit s coin_id coin coin' v e w = record {
    distinct = insert-Distinct coin_id coin' s.coins v.distinct;
    bounded = ground (arith, length-insert coin_id coin' s.coins);
    coins = insert-Entries CoinIsValid coin_id coin' s.coins v.coins w;
  }

  pub sign-IsValid :
      (limit : ℕ) (next_handoff : Bytes) (request : SignRequest) (s : Signer)
      → IsValid limit s
      → IsValid limit (sign c next_handoff request s).1
  unfolding sign
  sign-IsValid limit next_handoff request s v =
      elim (Option-cases (lookup request.coin_id s.coins)) [
        | inl e ↦ ground arith
        | inr (coin, e) ↦ elim (Result-cases (sign_coin c next_handoff request coin)) [
          | inl ((response, coin'), f) ↦
              rw (e, f)
                (replace-IsValid limit s request.coin_id coin coin' v e (
                  sign_coin-CoinIsValid next_handoff request coin
                    (lookup-Entries CoinIsValid request.coin_id coin s.coins v.coins e) f))
          | inr (error, f) ↦ rw (e, f) v
        ]
      ]

  register-IsValid :
      (limit : ℕ) (signing_key : Bytes) (request : RegisterRequest) (s : Signer)
      → IsValid limit s
      → IsValid limit (register c limit signing_key request s).1
  unfolding register
  register-IsValid limit signing_key request s v =
      elim (Bool-cases (is_some (lookup request.coin_id s.coins))) [
        | inl known ↦ rw known v
        | inr new_id ↦ elim (Bool-cases (leb limit (length s.coins))) [
          | inl full ↦ rw (new_id, full) v
          | inr room ↦
              rw (new_id, room)
                (record {
                  distinct = insert-Distinct request.coin_id coin s.coins v.distinct;
                  bounded = ground (arith, length-insert request.coin_id coin s.coins);
                  coins =
                      insert-Entries CoinIsValid request.coin_id coin s.coins v.coins
                        (new_coin-CoinIsValid signing_key request);
                })
        ]
      ]
    where
      coin : Coin
      coin = new_coin c signing_key request

  -- Every request, answered or refused, keeps a valid signer valid.
  pub handle-IsValid :
      (limit : ℕ) (signing_key next_handoff : Bytes) (request : Request) (s : Signer)
      → IsValid limit s
      → IsValid limit (handle c limit signing_key next_handoff request s).1
  unfolding handle
  handle-IsValid limit signing_key next_handoff (Request.register request) s v =
      register-IsValid limit signing_key request s v
  handle-IsValid limit signing_key next_handoff (Request.status coin_id) s v = v
  handle-IsValid limit signing_key next_handoff (Request.sign request) s v =
      sign-IsValid limit next_handoff request s v
