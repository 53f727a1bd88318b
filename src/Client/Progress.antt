-- ===== src/Client/Progress.antt =====
-- client/src/lib.rs with enclave/src/lib.rs: a recovery that the client prepares is signed by the
-- enclave that holds the coin.
use tinylayer_org.Base.{
  ℕ, Bytes, ◌≡◌, ◌≢◌, ◌<◌, ◌+◌, ◌^◌, refl, none, some, ok, arith, lookup, insert,
  lookup-insert_self, true, ap, sym, subst, ◌∙◌,
}
use tinylayer_org.Extern.{Crypto, Bitcoin}
use tinylayer_org.Enclave.Types.{Signer, Coin, SignRequest, SignResponse, CoinStatus, HandoffToken}
use tinylayer_org.Enclave.Hashes.{authorization, capability_hash}
use tinylayer_org.Enclave.Signer.{status, sign, retries, coin_status}
use tinylayer_org.Enclave.Handoff.{sign-current}
use tinylayer_org.Client.Types.{CoinMetadata, PreparedRecovery}
use tinylayer_org.Client.Scripts.{verify_signature}
use tinylayer_org.Client.Registration.{verify_sign_response, verify_status}
use tinylayer_org.Client.Recovery.{prepare_recovery}

-- The documented behaviour of Schnorr signatures: what was signed verifies under the key's public key.
pub record IsSchnorr (c : Crypto) : Type 0 where
  pub verifies :
      (key message : Bytes)
      → c.verify_schnorr (c.sign_schnorr key message) message (c.x_only_public_key key) ≡ true

module _ (b : Bitcoin) where
  -- What the client knows of a request that it has prepared.
  pub record IsRequestOf (metadata : CoinMetadata) (status : CoinStatus) (request : SignRequest)
      : Type 0 where
    pub coin : request.coin_id ≡ metadata.keys.coin_id
    pub same_coin : status.coin_id ≡ request.coin_id
    pub current :
        status.authorization
        ≡ authorization b.crypto request.coin_id
            (capability_hash b.crypto request.current_capability)
            request.current_handoff
    pub changed : request.next_capability_hash ≢ capability_hash b.crypto request.current_capability

  pub prepare_recovery-IsRequestOf :
      (metadata : CoinMetadata) (status : CoinStatus) (secret capability handoff next key : Bytes)
      (delay confirmations : ℕ) (request : SignRequest) (prepared : PreparedRecovery)
      → prepare_recovery b metadata status secret capability handoff next key delay confirmations
        ≡ ok (request, prepared)
      → IsRequestOf metadata status request
  unfolding prepare_recovery verify_status
  prepare_recovery-IsRequestOf metadata status secret capability handoff next key delay
        confirmations request prepared h =
      record {
        coin = ground arith;
        same_coin = ground arith;
        current = ground arith;
        changed = ground arith;
      }

  status-held :
      (s : Signer) (coin : Coin) (coin_id : Bytes) (before : CoinStatus)
      → lookup coin_id s.coins ≡ some coin
      → status b.crypto coin_id s ≡ ok before
      → coin_status b.crypto coin coin_id ≡ before
  unfolding status
  status-held s coin coin_id before held known = ground arith

  answers :
      (s : Signer) (coin : Coin) (i j : Bytes)
      → j ≡ i
      → lookup j s.coins ≡ some coin
      → status b.crypto i s ≡ ok (coin_status b.crypto coin j)
  unfolding status
  answers s coin i j same held = ground arith

  accepted :
      IsSchnorr b.crypto
      → (request : SignRequest) (response : SignResponse) (signing_key : Bytes) (before : ℕ)
        (after : CoinStatus)
      → before + 1 < 2 ^ 64
      → after.coin_id ≡ request.coin_id
      → after.signature_count ≡ before + 1
      → after.authorization
        ≡ authorization b.crypto request.coin_id request.next_capability_hash response.next_handoff
      → after.signing_pubkey ≡ b.crypto.x_only_public_key signing_key
      → response.signature ≡ b.crypto.sign_schnorr signing_key request.sighash
      → verify_sign_response b request before after response ≡ ok tt
  unfolding verify_sign_response verify_signature
  accepted schnorr request response signing_key before after room a n auth k signed =
      let v = schnorr.verifies signing_key request.sighash in ground arith

  -- A recovery that was prepared against the status of a coin is signed by the signer that holds the
  -- coin, if the request is not the one that it answered last and the count does not overflow; and
  -- under the law of Schnorr signatures the client accepts the response with the status after it.
  pub prepare_recovery-signed :
      IsSchnorr b.crypto
      → (s : Signer) (coin : Coin) (metadata : CoinMetadata) (before : CoinStatus)
        (secret capability handoff next key : Bytes) (delay confirmations : ℕ)
        (request : SignRequest) (prepared : PreparedRecovery) (next_handoff : HandoffToken)
      → lookup metadata.keys.coin_id s.coins ≡ some coin
      → status b.crypto metadata.keys.coin_id s ≡ ok before
      → prepare_recovery b metadata before secret capability handoff next key delay confirmations
        ≡ ok (request, prepared)
      → retries coin request ≡ none
      → before.signature_count + 1 < 2 ^ 64
      → (response : SignResponse) × (later : Signer) × (after : CoinStatus) × (sign b.crypto
            next_handoff request s
          ≡ (ok response, later))
        × (status b.crypto metadata.keys.coin_id later ≡ ok after)
        × (verify_sign_response b request before.signature_count after response ≡ ok tt)
  unfolding status coin_status
  prepare_recovery-signed schnorr s coin metadata before secret capability handoff next key delay
        confirmations request prepared next_handoff held known h fresh room =
      let asked =
        prepare_recovery-IsRequestOf metadata before secret capability handoff next key delay
          confirmations request prepared h in
      let seen : coin_status b.crypto coin metadata.keys.coin_id ≡ before =
        status-held s coin metadata.keys.coin_id before held known in
      let response : SignResponse = record {
        signature = b.crypto.sign_schnorr coin.signing_key request.sighash;
        next_handoff = next_handoff;
      } in
      let coin' : Coin = record coin {
        authorization =
            authorization b.crypto request.coin_id request.next_capability_hash next_handoff;
        signature_count = coin.signature_count + 1;
        last = some (request, response);
      } in
      let later : Signer = record s { coins = insert request.coin_id coin' s.coins } in
      let after : CoinStatus = coin_status b.crypto coin' request.coin_id in
      let own : lookup request.coin_id s.coins ≡ some coin = rw asked.coin held in
      let auth : before.authorization ≡ coin.authorization = ap (λ x. x.authorization) (sym seen) in
      let count : before.signature_count ≡ coin.signature_count =
        ap (λ x. x.signature_count) (sym seen) in
      (
        response,
        later,
        after,
        sign-current b.crypto next_handoff request s coin own fresh (sym auth ∙ asked.current)
            asked.changed (subst (λ n. n + 1 < 2 ^ 64) count room),
        answers later coin' metadata.keys.coin_id request.coin_id asked.coin
            (lookup-insert_self request.coin_id coin' s.coins),
        accepted schnorr request response coin.signing_key before.signature_count after room refl
            (ap (λ n. n + 1) (sym count)) refl refl refl,
      )
