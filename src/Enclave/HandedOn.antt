-- ===== src/Enclave/HandedOn.antt =====
-- enclave/src/lib.rs: after a signature the coin is with the holder of the next capability and the new
-- handoff, who is signed for.
use tinylayer_org.Base.{
  ℕ, Bytes, ◌≡◌, ◌≢◌, refl, sym, ap, ◌∙◌, none, some, lookup, insert, ok, arith, lookup-insert_self,
  ◌^◌, ◌<◌, ◌+◌,
}
use tinylayer_org.Extern.{Crypto}
use tinylayer_org.Enclave.Types.{
  SignRequest, SignResponse, Coin, CoinId, CoinStatus, Signer, HandoffToken,
}
use tinylayer_org.Enclave.Hashes.{authorization, capability_hash}
use tinylayer_org.Enclave.Signer.{sign, retries, status, coin_status}
use tinylayer_org.Enclave.Invariant.{IsValid}
use tinylayer_org.Enclave.Handoff.{after_sign, sign-current}

module _ (c : Crypto) where
  fresh_after :
      (request other : SignRequest) (coin : Coin) {response : SignResponse}
      → coin.last ≡ some (request, response)
      → request ≢ other
      → retries coin other ≡ none
  unfolding retries
  fresh_after request other coin f differs = ground arith

  known :
      (s : Signer) (coin_id : CoinId) (coin : Coin)
      → lookup coin_id s.coins ≡ some coin
      → status c coin_id s ≡ ok (coin_status c coin coin_id)
  unfolding status
  known s coin_id coin e = ground arith

  count-of :
      (s : Signer) (coin_id : CoinId) (coin : Coin) (now : CoinStatus)
      → lookup coin_id s.coins ≡ some coin
      → status c coin_id s ≡ ok now
      → now ≡ coin_status c coin coin_id
  unfolding status
  count-of s coin_id coin now e h = ground arith

  -- What the holder of the coin gets: a signature of the key that the status shows, over the given
  -- hash, and the status after it has the same key and one signature more.
  pub record IsSigned (request : SignRequest) (now : CoinStatus) (next_handoff : HandoffToken)
      (s : Signer) : Type 0 where
    pub response : SignResponse
    pub later : Signer
    pub after : CoinStatus
    pub key : Bytes
    pub signs : sign c next_handoff request s ≡ (ok response, later)
    pub of_key : now.signing_pubkey ≡ c.x_only_public_key key
    pub signature : response.signature ≡ c.sign_schnorr key request.sighash
    pub shows : status c request.coin_id later ≡ ok after
    pub same_key : after.signing_pubkey ≡ now.signing_pubkey
    pub counted : after.signature_count ≡ now.signature_count + 1

  -- In a valid signer, once a request is signed, whoever knows the capability behind its next
  -- capability hash and the handoff of its response is signed in turn: the next request for the coin,
  -- with these credentials, another capability for after it and a count that does not overflow, is
  -- answered with a signature of the coin's key over its hash, and counted.
  pub sign-handed_on :
      (limit : ℕ) (next_handoff later : HandoffToken) (request other : SignRequest) (s s' : Signer)
      (response : SignResponse) (now : CoinStatus)
      → IsValid c limit s
      → sign c next_handoff request s ≡ (ok response, s')
      → other.coin_id ≡ request.coin_id
      → capability_hash c other.current_capability ≡ request.next_capability_hash
      → other.current_handoff ≡ response.next_handoff
      → other.next_capability_hash ≢ capability_hash c other.current_capability
      → status c other.coin_id s' ≡ ok now
      → now.signature_count + 1 < 2 ^ 64
      → IsSigned other now later s'
  unfolding coin_status
  sign-handed_on limit next_handoff later request other s s' response now v h same_id capability
        handoff changed shown room =
      let (coin, e, f, current) = after_sign c limit next_handoff request s h v in
      let held : lookup other.coin_id s'.coins ≡ some coin = rw same_id e in
      let differs : request ≢ other = λ p.
        current.4 (sym capability ∙ ap (λ r. capability_hash c r.current_capability) (sym p)) in
      let now_is = count-of s' other.coin_id coin now held shown in
      let auth : coin.authorization
          ≡ authorization c other.coin_id (capability_hash c other.current_capability)
              other.current_handoff =
        rw (same_id, capability, handoff) (current.1) in
      let given : SignResponse = record {
        signature = c.sign_schnorr coin.signing_key other.sighash;
        next_handoff = later;
      } in
      let coin' : Coin = record coin {
        authorization = authorization c other.coin_id other.next_capability_hash later;
        signature_count = coin.signature_count + 1;
        last = some (other, given);
      } in
      record {
        response = given;
        later = record s' { coins = insert other.coin_id coin' s'.coins };
        after = coin_status c coin' other.coin_id;
        key = coin.signing_key;
        signs =
            sign-current c later other s' coin held (fresh_after request other coin f differs) auth
              changed (ground arith);
        of_key = ground arith;
        signature = refl;
        shows =
            known (record s' { coins = insert other.coin_id coin' s'.coins }) other.coin_id coin'
              (lookup-insert_self other.coin_id coin' s'.coins);
        same_key = ground arith;
        counted = ground arith;
      }
