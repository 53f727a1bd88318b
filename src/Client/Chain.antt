-- ===== src/Client/Chain.antt =====
-- client/src/lib.rs: what `verify_history` guarantees of a chain of recoveries.
use tinylayer_org.Base.{
  ℕ, suc, zero, ◌+◌, ◌*◌, Bytes, ◌≡◌, ◌≤◌, ◌<◌, refl, List, [], ◌∷◌, ok, arith, length, last,
  get_elem?, some, All, Result-cases, inl, inr, Option-cases, true,
}
use tinylayer_org.Extern.{Bitcoin}
use tinylayer_org.Enclave.Types.{Capability, HandoffToken, CoinStatus}
use tinylayer_org.Client.Types.{CoinMetadata, SignedRecovery}
use tinylayer_org.Client.Scripts.{validate_reaction_window, require_future_delay}
use tinylayer_org.Client.Recovery.{verify_recovery}
use tinylayer_org.Client.Signing.{IsVerified, verify_recovery_sound}
use tinylayer_org.Client.History.{pays, is_ahead, verify_windows, verify_each, verify_history}

-- Each recovery matures exactly ten blocks before the one that it replaces, and after the given
-- number of confirmations.
abbrev pub Descends : ℕ → List SignedRecovery → Type 0
Descends confirmations [] = Unit
Descends confirmations (recovery ∷ []) = Unit
Descends confirmations (older ∷ newer ∷ rest) =
    (newer.delay_blocks + 10 ≡ older.delay_blocks)
    × (confirmations < newer.delay_blocks)
    × Descends confirmations (newer ∷ rest)

pub verify_windows-Descends :
    (confirmations : ℕ) (history : List SignedRecovery)
    → verify_windows confirmations history ≡ ok tt
    → Descends confirmations history
unfolding verify_windows validate_reaction_window require_future_delay
verify_windows-Descends confirmations [] h = tt
verify_windows-Descends confirmations (recovery ∷ []) h = tt
verify_windows-Descends confirmations (older ∷ newer ∷ rest) h =
    ground (arith, verify_windows-Descends confirmations (newer ∷ rest))

Descends-delay :
    (confirmations i : ℕ) (first recovery : SignedRecovery) (rest : List SignedRecovery)
    → Descends confirmations (first ∷ rest)
    → get_elem? (first ∷ rest) i ≡ some recovery
    → recovery.delay_blocks + 10 * i ≡ first.delay_blocks
Descends-delay confirmations zero first recovery rest d e = ground arith
Descends-delay confirmations (suc i) first recovery [] d e = cc
Descends-delay confirmations (suc i) first recovery (next ∷ rest) d e =
    omega (arith, d.0, Descends-delay confirmations i next recovery rest d.2 e)

Descends-last :
    (confirmations : ℕ) (first latest : SignedRecovery) (rest : List SignedRecovery)
    → Descends confirmations (first ∷ rest)
    → last (first ∷ rest) ≡ some latest
    → latest.delay_blocks + 10 * length rest ≡ first.delay_blocks
Descends-last confirmations first latest [] d e = ground arith
Descends-last confirmations first latest (next ∷ rest) d e =
    omega (arith, d.0, Descends-last confirmations next latest rest d.2 e)

module _ (b : Bitcoin) where
  pub verify_each-All :
      (metadata : CoinMetadata) (history : List SignedRecovery)
      → verify_each b metadata history ≡ ok tt
      → All (IsVerified b metadata) history
  unfolding verify_each
  verify_each-All metadata [] h = tt
  verify_each-All metadata (recovery ∷ rest) h =
      elim (Result-cases (verify_recovery b metadata recovery)) [
        | inl (_, e) ↦ (
          verify_recovery_sound b metadata recovery (ground arith),
          verify_each-All metadata rest (ground arith),
        )
        | inr (error, e) ↦ absurd (ground arith)
      ]

  -- What the new owner holds: as many recoveries as the enclave has signed, all valid, the last one
  -- its own and still in the future, and each ten blocks ahead of all before it.
  pub record IsOwnedChain (metadata : CoinMetadata) (status : CoinStatus) (withdrawal : Bytes)
      (confirmations : ℕ) (history : List SignedRecovery) : Type 0 where
    pub first : SignedRecovery
    pub rest : List SignedRecovery
    pub latest : SignedRecovery
    pub nonempty : history ≡ first ∷ rest
    pub last_is : last history ≡ some latest
    pub own : latest.withdrawal_xonly_pubkey ≡ withdrawal
    pub ahead : confirmations < latest.delay_blocks
    pub counted : status.signature_count ≡ length history
    pub verified : All (IsVerified b metadata) history
    pub delays :
        (i : ℕ) (recovery : SignedRecovery)
        → get_elem? history i ≡ some recovery
        → recovery.delay_blocks + 10 * i ≡ first.delay_blocks
    pub bounded : length history ≤ 6554

  module _ (metadata : CoinMetadata) (status : CoinStatus) (secret : Bytes)
      (capability : Capability) (handoff : HandoffToken) (withdrawal : Bytes)
      (confirmations : ℕ) where
    verify_history-parts :
        (history : List SignedRecovery)
        → verify_history b metadata status secret capability handoff withdrawal confirmations
            history
          ≡ ok tt
        → (status.signature_count ≡ length history)
          × (pays (last history) withdrawal ≡ true)
          × (verify_each b metadata history ≡ ok tt)
          × (verify_windows confirmations history ≡ ok tt)
          × (is_ahead (last history) confirmations ≡ true)
    unfolding verify_history
    verify_history-parts history h = ground arith

    -- A history that `verify_history` accepts is an owned chain, of at most 6554 recoveries.
    pub verify_history-IsOwnedChain :
        (history : List SignedRecovery)
        → verify_history b metadata status secret capability handoff withdrawal confirmations
            history
          ≡ ok tt
        → IsOwnedChain metadata status withdrawal confirmations history
    unfolding pays is_ahead
    verify_history-IsOwnedChain [] h = let p = verify_history-parts [] h in absurd (ground arith)
    verify_history-IsOwnedChain (first ∷ rest) h =
        let p = verify_history-parts (first ∷ rest) h in
        let d = verify_windows-Descends confirmations (first ∷ rest) p.3 in
        let v = verify_each-All metadata (first ∷ rest) p.2 in
        elim (Option-cases (last (first ∷ rest))) [
          | inl e ↦ absurd (ground arith)
          | inr (latest, e) ↦
              let ahead : confirmations < latest.delay_blocks = ground arith in
              record {
                first = first;
                rest = rest;
                latest = latest;
                nonempty = refl;
                last_is = e;
                own = ground arith;
                ahead = ahead;
                counted = p.0;
                verified = v;
                delays = λ i recovery. Descends-delay confirmations i first recovery rest d;
                bounded = omega (
                  arith,
                  Descends-last confirmations first latest rest d e,
                  v.0.canonical.in_u16,
                );
              }
        ]
