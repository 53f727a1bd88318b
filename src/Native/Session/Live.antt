-- ===== src/Native/Session/Live.antt =====
-- wallet/src/cli.rs, `verify_receipt`: what a receipt that verifies says.
use tinylayer_org.Base.{◌≡◌, ◌∙◌, ap, ok, arith, ensure, same, ◌==◌}
use tinylayer_org.Base.Yields.{
  Yields, bind-Yields, skip-Yields, then-Yields, check_then-Yields, origin-Yields, return-Yields,
}
use tinylayer_org.Base.Actions.{check}
use tinylayer_org.Enclave.Types.{CoinStatus_discrete, protocol_version}
use tinylayer_org.Client.Types.{NetworkId_discrete}
use tinylayer_org.Wallet.Types.{message, file_format_version, Receipt}
use tinylayer_org.Wallet.Platform.{Platform}
use tinylayer_org.Wallet.Validation.{verify_public_history}
use tinylayer_org.Native.Chain.{FundingObservation}
use tinylayer_org.Native.Model.{Config}
use tinylayer_org.Native.Session.{Outside, World, ask, load_native}
use tinylayer_org.Native.Session.Inspect.{verify_receipt}

module _ (O : Outside) (p : Platform) (config : Config) where
  -- The enclave has given the receipt's status, the chain has given the observation of its funding,
  -- and its recoveries verify against both.
  pub record IsLive (receipt : Receipt) (observation : FundingObservation) : Type 0 where
    pub network : receipt.metadata.network ≡ config.network
    pub answered :
        (s : O.State) × ((O.status receipt.metadata.keys.coin_id s).0 ≡ ok receipt.status)
    pub observed :
        (s : O.State) × ((O.verify_funding receipt.metadata config.min_confirmations s).0
          ≡ ok observation)
    pub verified :
        verify_public_history p.bitcoin receipt.metadata receipt.status receipt.history
          observation.confirmations config.min_reaction_blocks
        ≡ ok tt

  yields : (receipt : Receipt) → Yields (verify_receipt O p config receipt) (IsLive receipt)
  unfolding verify_receipt
  yields receipt = skip-Yields (load_native O p config) (λ native.
      then-Yields
        (check (
          ensure (receipt.format_version == file_format_version)
            (message "unsupported receipt format version")))
        (then-Yields
          (check (
            ensure (receipt.protocol_version == protocol_version)
              (message "receipt protocol version mismatch")))
          (check_then-Yields
            (ensure (same NetworkId_discrete receipt.metadata.network config.network)
              (message "receipt network mismatch"))
            (λ network. then-Yields (ask O O.connect_enclave) (
              bind-Yields (origin-Yields (ask O (O.status receipt.metadata.keys.coin_id)))
                (λ status (w, answered).
                  check_then-Yields
                    (ensure (same CoinStatus_discrete status receipt.status)
                      (message "receipt is stale or enclave state changed"))
                    (λ current. then-Yields (ask O O.connect_chain) (
                      bind-Yields
                        (origin-Yields
                          (ask O (O.verify_funding receipt.metadata config.min_confirmations)))
                        (λ observation (v, observed).
                          check_then-Yields
                            (verify_public_history p.bitcoin receipt.metadata status receipt.history
                              observation.confirmations config.min_reaction_blocks)
                            (λ verified.
                              let unchanged : status ≡ receipt.status = ground arith in
                              return-Yields observation (record {
                                network = ground arith;
                                answered = (w.outside, answered ∙ ap ok unchanged);
                                observed = (v.outside, observed);
                                verified = rw (← unchanged) verified;
                              })))))))))))

  -- Whatever is answered from outside, a receipt verifies only if the enclave gave exactly its status,
  -- the chain gave the observation of its funding that is returned, and its history verifies against
  -- both with the margin of the configuration.
  pub verify_receipt-IsLive :
      (receipt : Receipt) (w : World O) (observation : FundingObservation)
      → (verify_receipt O p config receipt w).0 ≡ ok observation
      → IsLive receipt observation
  verify_receipt-IsLive receipt w observation = (yields receipt).run w observation
