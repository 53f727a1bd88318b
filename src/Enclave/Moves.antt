-- ===== src/Enclave/Moves.antt =====
-- enclave/src/lib.rs against the protocol of one coin, answers included: what each request may be
-- answered, under which conditions, and what it leaves of the coin that it names. No other coin is
-- touched.
use tinylayer_org.Base.{
  ℕ, Bytes, ◌≡◌, ◌≢◌, inl, inr, refl, ◌+◌, ◌^◌, ◌≤◌, ◌<◌, Option, none, some, length, lookup,
  Result, ok, err, arith, lookup-insert_self, lookup-insert_ne, Option-cases, Result-cases,
  Bool-cases, leb, bytes_discrete, map_ok, subst, sym,
}
use native.Mathlib.Decide.{dec_lt}
use tinylayer_org.Extern.{Crypto}
use tinylayer_org.Enclave.Types.{
  CoinId, RegisterRequest, SignRequest, SignResponse, Coin, Signer, HandoffToken, Request, Response,
  Error, unknown_coin, capacity_reached, unauthorized, unchanged_capability,
  signature_count_overflow,
}
use tinylayer_org.Enclave.Hashes.{authorization, capability_hash, initial_handoff}
use tinylayer_org.Enclave.Signer.{
  coin_status, new_coin, register, status, advance, retries, sign, sign_coin, handle,
}

abbrev pub coin_of : CoinId → Signer → Option Coin
coin_of coin_id s = lookup coin_id s.coins

-- The coin that a request names.
abbrev pub named : Request → CoinId
named (Request.register r) = r.coin_id
named (Request.status coin_id) = coin_id
named (Request.sign r) = r.coin_id

-- The request is not the one that the coin answered last.
abbrev pub IsFresh : SignRequest → Coin → Type 0
IsFresh r coin = (response : SignResponse) → coin.last ≢ some (r, response)

module _ (c : Crypto) where
  -- The authorization that the credentials of a request stand for.
  abbrev pub presented : SignRequest → Bytes
  presented r = authorization c r.coin_id (capability_hash c r.current_capability) r.current_handoff

  -- Given are the limit, the number of coins and the random values; `v` and `w` are the named coin
  -- before and after.
  pub data Moves (limit size : ℕ) (signing_key : Bytes) (next_handoff : HandoffToken)
      (request : Request) (v w : Option Coin) (result : Result Error Response) : Type 0 where
    -- An unknown coin has no status and signs nothing.
    unknown :
        ((r : RegisterRequest) → request ≢ Request.register r)
        → v ≡ none
        → w ≡ none
        → result ≡ err unknown_coin
        → Moves limit size signing_key next_handoff request v w result
    -- Asking for the status of a known coin, or registering it again, gives its status.
    shows :
        (coin : Coin)
        → ((r : SignRequest) → request ≢ Request.sign r)
        → v ≡ some coin
        → w ≡ some coin
        → result ≡ ok (Response.status (coin_status c coin (named request)))
        → Moves limit size signing_key next_handoff request v w result
    full :
        (r : RegisterRequest)
        → request ≡ Request.register r
        → v ≡ none
        → limit ≤ size
        → w ≡ none
        → result ≡ err capacity_reached
        → Moves limit size signing_key next_handoff request v w result
    opens :
        (r : RegisterRequest) (coin : Coin)
        → request ≡ Request.register r
        → v ≡ none
        → size < limit
        → coin.signing_key ≡ signing_key
        → coin.authorization ≡ authorization c r.coin_id r.initial_capability_hash initial_handoff
        → coin.signature_count ≡ 0
        → coin.last ≡ none
        → w ≡ some coin
        → result ≡ ok (Response.status (coin_status c coin r.coin_id))
        → Moves limit size signing_key next_handoff request v w result
    -- The last request again has the last response again.
    repeats :
        (r : SignRequest) (coin : Coin) (response : SignResponse)
        → request ≡ Request.sign r
        → v ≡ some coin
        → coin.last ≡ some (r, response)
        → w ≡ some coin
        → result ≡ ok (Response.signature response)
        → Moves limit size signing_key next_handoff request v w result
    stranger :
        (r : SignRequest) (coin : Coin)
        → request ≡ Request.sign r
        → v ≡ some coin
        → IsFresh r coin
        → presented r ≢ coin.authorization
        → w ≡ some coin
        → result ≡ err unauthorized
        → Moves limit size signing_key next_handoff request v w result
    unchanged :
        (r : SignRequest) (coin : Coin)
        → request ≡ Request.sign r
        → v ≡ some coin
        → IsFresh r coin
        → presented r ≡ coin.authorization
        → r.next_capability_hash ≡ capability_hash c r.current_capability
        → w ≡ some coin
        → result ≡ err unchanged_capability
        → Moves limit size signing_key next_handoff request v w result
    exhausted :
        (r : SignRequest) (coin : Coin)
        → request ≡ Request.sign r
        → v ≡ some coin
        → IsFresh r coin
        → presented r ≡ coin.authorization
        → r.next_capability_hash ≢ capability_hash c r.current_capability
        → 2 ^ 64 ≤ coin.signature_count + 1
        → w ≡ some coin
        → result ≡ err signature_count_overflow
        → Moves limit size signing_key next_handoff request v w result
    -- A new signature: it is counted, saved with its request, and hands the coin on.
    advances :
        (r : SignRequest) (coin coin' : Coin) (response : SignResponse)
        → request ≡ Request.sign r
        → v ≡ some coin
        → IsFresh r coin
        → presented r ≡ coin.authorization
        → r.next_capability_hash ≢ capability_hash c r.current_capability
        → response.signature ≡ c.sign_schnorr coin.signing_key r.sighash
        → response.next_handoff ≡ next_handoff
        → coin'.signing_key ≡ coin.signing_key
        → coin'.authorization ≡ authorization c r.coin_id r.next_capability_hash next_handoff
        → coin'.signature_count ≡ coin.signature_count + 1
        → coin'.last ≡ some (r, response)
        → w ≡ some coin'
        → result ≡ ok (Response.signature response)
        → Moves limit size signing_key next_handoff request v w result

  retries-last :
      (coin : Coin) (r : SignRequest) (response : SignResponse)
      → retries coin r ≡ some response
      → coin.last ≡ some (r, response)
  unfolding retries
  retries-last coin r response h = ground arith

  retries-IsFresh : (coin : Coin) (r : SignRequest) → retries coin r ≡ none → IsFresh r coin
  unfolding retries
  retries-IsFresh coin r h response last = ground arith

  abbrev moved : Coin → Result Error (SignResponse × Coin) → Option Coin
  moved coin (ok (response, coin')) = some coin'
  moved coin (err error) = some coin

  abbrev answer : Result Error (SignResponse × Coin) → Result Error Response
  answer (ok (response, coin')) = ok (Response.signature response)
  answer (err error) = err error

  module _ (limit : ℕ) (signing_key : Bytes) (next_handoff : HandoffToken) where
    advance-Moves :
        (size : ℕ) (r : SignRequest) (coin : Coin)
        → IsFresh r coin
        → Moves limit size signing_key next_handoff
            (Request.sign r)
            (some coin)
            (moved coin (advance c next_handoff r coin))
            (answer (advance c next_handoff r coin))
    unfolding advance
    advance-Moves size r coin fresh = elim (bytes_discrete (presented r) coin.authorization) [
      | no n ↦ stranger r coin refl refl fresh n (ground arith) (ground arith)
      | yes p ↦
          elim (bytes_discrete r.next_capability_hash (capability_hash c r.current_capability)) [
            | yes q ↦ unchanged r coin refl refl fresh p q (ground arith) (ground arith)
            | no n ↦ elim (dec_lt (coin.signature_count + 1) (2 ^ 64)) [
              | no big ↦
                  exhausted r coin refl refl fresh p n (omega arith) (ground arith) (ground arith)
              | yes room ↦
                  let response : SignResponse = record {
                    signature = c.sign_schnorr coin.signing_key r.sighash;
                    next_handoff = next_handoff;
                  } in
                  advances r coin
                    (record coin {
                      authorization = authorization c r.coin_id r.next_capability_hash next_handoff;
                      signature_count = coin.signature_count + 1;
                      last = some (r, response);
                    })
                    response refl refl fresh p n refl refl refl refl refl refl (ground arith)
                    (ground arith)
            ]
          ]
    ]

    -- What is known of a coin's move holds of the signer's.
    abbrev SignMoves : ℕ → SignRequest → Coin → Result Error (SignResponse × Coin) → Type 0
    SignMoves size r coin outcome =
        Moves limit size signing_key next_handoff (Request.sign r) (some coin) (moved coin outcome)
          (answer outcome)

    sign_coin-Moves :
        (size : ℕ) (r : SignRequest) (coin : Coin)
        → SignMoves size r coin (sign_coin c next_handoff r coin)
    unfolding sign_coin
    sign_coin-Moves size r coin = elim (Option-cases (retries coin r)) [
      | inr (response, e) ↦
          let again : sign_coin c next_handoff r coin ≡ ok (response, coin) = ground arith in
          subst (SignMoves size r coin) (sym again)
            (repeats r coin response refl refl (retries-last coin r response e) refl refl)
      | inl e ↦
          let new : sign_coin c next_handoff r coin ≡ advance c next_handoff r coin =
            ground arith in
          subst (SignMoves size r coin) (sym new)
            (advance-Moves size r coin (retries-IsFresh coin r e))
    ]

    -- What the whole signer does at a coin, given the request.
    abbrev pub HandleMoves : Signer → Request → Result Error Response × Signer → Type 0
    HandleMoves s request outcome =
        Moves limit (length s.coins) signing_key next_handoff request (coin_of (named request) s)
          (coin_of (named request) outcome.1) outcome.0
        × ((other : CoinId) → named request ≢ other → coin_of other outcome.1 ≡ coin_of other s)

    sign-Moves :
        (r : SignRequest) (s : Signer)
        → HandleMoves s
            (Request.sign r)
            (map_ok Response.signature (sign c next_handoff r s).0, (sign c next_handoff r s).1)
    unfolding sign
    sign-Moves r s = elim (Option-cases (lookup r.coin_id s.coins)) [
      | inl e ↦ (unknown (λ other p. cc) e (ground arith) (ground arith), λ other n. ground arith)
      | inr (coin, e) ↦
          let moves = sign_coin-Moves (length s.coins) r coin in
          elim (Result-cases (sign_coin c next_handoff r coin)) [
            | inr (error, f) ↦ rw (e, f) (rw e (rw f at moves), λ other n. refl)
            | inl ((response, coin'), f) ↦
                rw (e, f, lookup-insert_self r.coin_id coin' s.coins)
                  (rw f at moves, λ other n. lookup-insert_ne r.coin_id other coin' s.coins n)
          ]
    ]

    register-Moves :
        (r : RegisterRequest) (s : Signer)
        → HandleMoves s (Request.register r) (
          map_ok Response.status (register c limit signing_key r s).0,
          (register c limit signing_key r s).1,
        )
    unfolding register status
    register-Moves r s = elim (Option-cases (lookup r.coin_id s.coins)) [
      | inr (coin, e) ↦ rw e (shows coin (λ other p. cc) refl e refl, λ other n. refl)
      | inl e ↦ elim (Bool-cases (leb limit (length s.coins))) [
        | inl no_room ↦ rw (e, no_room) (full r refl refl (ground arith) e refl, λ other n. refl)
        | inr room ↦
            let coin = new_coin c signing_key r in
            rw (e, room, lookup-insert_self r.coin_id coin s.coins)
              (
                unfold new_coin in
                    opens r coin refl refl (ground arith) refl refl refl refl refl refl,
                λ other n. lookup-insert_ne r.coin_id other coin s.coins n,
              )
      ]
    ]

    status-Moves :
        (coin_id : CoinId) (s : Signer)
        → HandleMoves s (Request.status coin_id) (map_ok Response.status (status c coin_id s), s)
    unfolding status
    status-Moves coin_id s = elim (Option-cases (lookup coin_id s.coins)) [
      | inl e ↦ rw e (unknown (λ other p. cc) refl refl refl, λ other n. refl)
      | inr (coin, e) ↦ rw e (shows coin (λ other p. cc) refl refl refl, λ other n. refl)
    ]

    -- Every request is answered as the protocol of its coin allows, moves that coin as the protocol
    -- says, and leaves every other coin as it was. A signature is given only for the request that was
    -- answered last, as the saved response, or under the coin's current authorization, when it is the
    -- signature of the coin's key over the given hash and is counted; every refusal has its cause and
    -- leaves the coin.
    pub handle-Moves :
        (request : Request) (s : Signer)
        → HandleMoves s request (handle c limit signing_key next_handoff request s)
    unfolding handle
    handle-Moves (Request.register r) s = register-Moves r s
    handle-Moves (Request.status coin_id) s = status-Moves coin_id s
    handle-Moves (Request.sign r) s = sign-Moves r s
