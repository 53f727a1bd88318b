-- ===== src/Enclave/Handoff.antt =====
-- enclave/src/lib.rs: who can sign after a signature. The last request may be repeated; any other
-- request needs the credentials that the last response handed on.
use tinylayer_org.Base.{
  ℕ, ◌≡◌, ◌≢◌, ◌⊎◌, inl, inr, sym, ap, ◌∙◌, none, some, length, lookup, insert, ok, err, arith,
  lookup-insert_self, insert-lookup, Option-cases, Result-cases, lookup-Entries, subst, Result,
  bytes_discrete, ◌^◌, ◌<◌, ◌+◌,
}
use tinylayer_org.Extern.{Crypto}
use tinylayer_org.Enclave.Types.{
  SignRequest, SignResponse, Coin, Signer, Error, HandoffToken, unauthorized,
}
use tinylayer_org.Enclave.Hashes.{
  authorization, authorization_bytes, authorization_binds, capability_hash, Collides,
}
use tinylayer_org.Enclave.Signer.{advance, sign, sign_coin, retries}
use tinylayer_org.Enclave.Invariant.{IsValid, CoinIsValid, LastIsCurrent, sign-IsValid}

module _ (c : Crypto) where
  -- A coin that has just signed holds the pair, and the authorization for the next owner.
  sign_coin-last :
      (next_handoff : HandoffToken) (request : SignRequest) (coin : Coin) {response : SignResponse}
      {coin' : Coin}
      → sign_coin c next_handoff request coin ≡ ok (response, coin')
      → coin'.last ≡ some (request, response)
  unfolding sign_coin retries advance
  sign_coin-last next_handoff request coin h = ground arith

  sign-coin :
      (next_handoff : HandoffToken) (request : SignRequest) (s : Signer) {response : SignResponse}
      {s' : Signer}
      → sign c next_handoff request s ≡ (ok response, s')
      → (coin : Coin) × (lookup request.coin_id s'.coins ≡ some coin)
        × (coin.last ≡ some (request, response))
  unfolding sign
  sign-coin next_handoff request s {response} {s'} h =
      elim (Option-cases (lookup request.coin_id s.coins)) [
        | inl e ↦ absurd (ground arith)
        | inr (coin, e) ↦ elim (Result-cases (sign_coin c next_handoff request coin)) [
          | inl ((given, coin'), f) ↦ (
            coin',
            ground (arith, lookup-insert_self request.coin_id coin' s.coins),
            ground (arith, sign_coin-last next_handoff request coin f),
          )
          | inr (error, f) ↦ absurd (ground arith)
        ]
      ]

  -- The exact request that was last signed is answered again with the same response, and changes
  -- nothing, whatever handoff would be drawn.
  pub sign_again :
      (next_handoff later : HandoffToken) (request : SignRequest) (s s' : Signer)
      (response : SignResponse)
      → sign c next_handoff request s ≡ (ok response, s')
      → sign c later request s' ≡ (ok response, s')
  unfolding sign sign_coin retries
  sign_again next_handoff later request s s' response h =
      let (coin, e, f) = sign-coin next_handoff request s h in
      ground (arith, insert-lookup request.coin_id coin s'.coins)

  refused_coin :
      (next_handoff : HandoffToken) (request : SignRequest) (s : Signer) (coin : Coin)
      {saved : SignRequest} {response : SignResponse}
      → lookup request.coin_id s.coins ≡ some coin
      → coin.last ≡ some (saved, response)
      → saved ≢ request
      → authorization c request.coin_id
          (capability_hash c request.current_capability)
          request.current_handoff
        ≢ coin.authorization
      → sign c next_handoff request s ≡ (err unauthorized, s)
  unfolding sign sign_coin retries advance
  refused_coin next_handoff request s coin e f differs stale = ground arith

  pub after_sign :
      (limit : ℕ) (next_handoff : HandoffToken) (request : SignRequest) (s : Signer)
      {response : SignResponse} {s' : Signer}
      → sign c next_handoff request s ≡ (ok response, s')
      → IsValid c limit s
      → (coin : Coin) × (lookup request.coin_id s'.coins ≡ some coin)
        × (coin.last ≡ some (request, response))
        × LastIsCurrent c request.coin_id coin (some (request, response))
  after_sign limit next_handoff request s {response} {s'} h v =
      let (coin, e, f) = sign-coin next_handoff request s h in
      let v' : IsValid c limit s' =
        subst (λ (r : Result Error SignResponse × Signer). IsValid c limit r.1) h
          (sign-IsValid c limit next_handoff request s v) in
      let w : CoinIsValid c request.coin_id coin =
        lookup-Entries (CoinIsValid c) request.coin_id coin s'.coins v'.coins e in
      (coin, e, f, subst (LastIsCurrent c request.coin_id coin) f w.current)

  -- In a valid signer, once a request is signed, any other request for the same coin that lacks the
  -- next capability or the new handoff is refused as unauthorized and changes nothing, or else two
  -- different preimages with the same SHA-256 are exhibited. The two hashes have the same width.
  pub stale-refused :
      (limit : ℕ) (next_handoff later : HandoffToken) (request other : SignRequest) (s s' : Signer)
      (response : SignResponse)
      → IsValid c limit s
      → sign c next_handoff request s ≡ (ok response, s')
      → other.coin_id ≡ request.coin_id
      → other ≢ request
      → length (capability_hash c other.current_capability) ≡ length request.next_capability_hash
      → ¬ (
          (capability_hash c other.current_capability ≡ request.next_capability_hash)
          × (other.current_handoff ≡ response.next_handoff))
      → (sign c later other s' ≡ (err unauthorized, s'))
        ⊎ Collides c
            (authorization_bytes c other.coin_id
              (capability_hash c other.current_capability)
              other.current_handoff)
            (authorization_bytes c other.coin_id request.next_capability_hash response.next_handoff)
  stale-refused limit next_handoff later request other s s' response v h same_id differs widths
        stale =
      let (coin, e, f, current) = after_sign limit next_handoff request s h v in
      elim (bytes_discrete
        (authorization c other.coin_id (capability_hash c other.current_capability)
          other.current_handoff)
        coin.authorization) [
          | no n ↦ inl (refused_coin later other s' coin (ground arith) f (λ p. differs (sym p)) n)
          | yes p ↦
              elim (authorization_binds c other.coin_id (capability_hash c other.current_capability)
                request.next_capability_hash other.current_handoff response.next_handoff widths
                (ground arith)) [ inl both ↦ absurd (stale both) | inr collision ↦ inr collision ]
        ]

  -- In a valid signer, once a request is signed, any other request for the same coin under the same
  -- capability is refused as unauthorized and changes nothing, or else two different preimages with
  -- the same SHA-256 are exhibited. The two capability hashes compared have the same width.
  pub spent_capability :
      (limit : ℕ) (next_handoff later : HandoffToken) (request other : SignRequest) (s s' : Signer)
      (response : SignResponse)
      → IsValid c limit s
      → sign c next_handoff request s ≡ (ok response, s')
      → other.coin_id ≡ request.coin_id
      → other ≢ request
      → other.current_capability ≡ request.current_capability
      → length (capability_hash c other.current_capability) ≡ length request.next_capability_hash
      → (sign c later other s' ≡ (err unauthorized, s'))
        ⊎ Collides c
            (authorization_bytes c other.coin_id
              (capability_hash c other.current_capability)
              other.current_handoff)
            (authorization_bytes c other.coin_id request.next_capability_hash response.next_handoff)
  spent_capability limit next_handoff later request other s s' response v h same_id differs reused
        widths =
      stale-refused limit next_handoff later request other s s' response v h same_id differs widths
        (λ both. unchanged (ap (capability_hash c) (sym reused) ∙ both.0))
    where
      unchanged : capability_hash c request.current_capability ≢ request.next_capability_hash
      unchanged p =
          let (_, _, _, current) = after_sign limit next_handoff request s h v in current.4 (sym p)

  -- A request that is no retry, holds the coin's current credentials, changes the capability and does
  -- not overflow the count is signed: the signature is that of the coin's key over the given hash, and
  -- the coin then waits for the next capability and the new handoff.
  pub sign-current :
      (next_handoff : HandoffToken) (request : SignRequest) (s : Signer) (coin : Coin)
      → lookup request.coin_id s.coins ≡ some coin
      → retries coin request ≡ none
      → coin.authorization
        ≡ authorization c request.coin_id
            (capability_hash c request.current_capability)
            request.current_handoff
      → request.next_capability_hash ≢ capability_hash c request.current_capability
      → coin.signature_count + 1 < 2 ^ 64
      → sign c next_handoff request s ≡ (
        ok (record {
          signature = c.sign_schnorr coin.signing_key request.sighash;
          next_handoff = next_handoff;
        }),
        record s {
          coins =
              insert request.coin_id
                (record coin {
                  authorization =
                      authorization c request.coin_id request.next_capability_hash next_handoff;
                  signature_count = coin.signature_count + 1;
                  last = some (
                    request,
                    record {
                      signature = c.sign_schnorr coin.signing_key request.sighash;
                      next_handoff = next_handoff;
                    },
                  );
                })
                s.coins;
        },
      )
  unfolding sign sign_coin advance
  sign-current next_handoff request s coin e f auth changed room = ground arith
