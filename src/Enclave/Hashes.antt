-- ===== src/Enclave/Hashes.antt =====
-- enclave/src/lib.rs: the tagged hashes that commit to capabilities and authorizations.
use tinylayer_org.Base.{
  length, ◌≡◌, ◌≢◌, ◌⊎◌, inl, inr, bytes_discrete, append-inj, append_cancel, append_nil_inj, Bytes,
  List, [], ◌∷◌, ◌++◌, codes, replicate,
}
use tinylayer_org.Extern.{Crypto}
use tinylayer_org.Enclave.Types.{CoinId, Capability, HandoffToken}

-- `INITIAL_HANDOFF`: 32 zero bytes.
abbrev pub initial_handoff : HandoffToken
initial_handoff = replicate 32 0

concat : List Bytes → Bytes
concat [] = []
concat (part ∷ parts) = part ++ concat parts

module _ (c : Crypto) where
  -- What the hasher is fed for a tag and its parts.
  unfoldable pub tagged_bytes : Bytes → List Bytes → Bytes
  unfolding concat
  tagged_bytes tag parts = let tag_hash = c.sha256 tag in tag_hash ++ (tag_hash ++ concat parts)

  pub tagged_hash : Bytes → List Bytes → Bytes
  tagged_hash tag parts = c.sha256 (tagged_bytes tag parts)

  unfoldable pub capability_hash : Capability → Bytes
  unfolding tagged_hash
  capability_hash capability = tagged_hash (codes "Tinylayer/Capability/v1") (capability ∷ [])

  -- The bytes whose digest is an authorization.
  abbrev pub authorization_bytes : CoinId → Bytes → HandoffToken → Bytes
  authorization_bytes coin_id capability_hash handoff =
      tagged_bytes (codes "Tinylayer/Authorization/v1") (coin_id ∷ capability_hash ∷ handoff ∷ [])

  unfoldable pub authorization : CoinId → Bytes → HandoffToken → Bytes
  unfolding tagged_hash
  authorization coin_id capability_hash handoff =
      tagged_hash (codes "Tinylayer/Authorization/v1") (coin_id ∷ capability_hash ∷ handoff ∷ [])

  -- Two byte strings that show SHA-256 to have a collision.
  abbrev pub Collides : Bytes → Bytes → Type 0
  Collides a b = (a ≢ b) × (c.sha256 a ≡ c.sha256 b)

  -- For one coin, distinct credentials have distinct authorizations, or there is a collision.
  pub authorization_binds :
      (coin_id hash hash' : Bytes) (handoff handoff' : HandoffToken)
      → length hash ≡ length hash'
      → authorization coin_id hash handoff ≡ authorization coin_id hash' handoff'
      → ((hash ≡ hash') × (handoff ≡ handoff'))
        ⊎ Collides
            (authorization_bytes coin_id hash handoff)
            (authorization_bytes coin_id hash' handoff')
  unfolding authorization tagged_bytes
  authorization_binds coin_id hash hash' handoff handoff' widths e =
      elim (bytes_discrete (authorization_bytes coin_id hash handoff)
        (authorization_bytes coin_id hash' handoff')) [
          | no differ ↦ inr (differ, e)
          | yes p ↦
              let q =
                append-inj hash hash' _ _ widths
                  (append_cancel coin_id (append_cancel _ (append_cancel _ p))) in
              inl (q.0, append_nil_inj q.1)
        ]
