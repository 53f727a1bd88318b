-- ===== src/Native/Session/Sent.antt =====
-- wallet/src/cli.rs, `sign_transfer`: what it signs and publishes is saved before.
use tinylayer_org.Base.{
  Bytes, ◌≡◌, refl, Option, Option-cases, inl, inr, none, some, ok, arith, Bool, true, false, ap,
}
use tinylayer_org.Enclave.Types.{CoinStatus}
use tinylayer_org.Wallet.Types.{
  WalletState, PendingOperation, OutgoingTransfer, TransferRequest, TransferEnvelope,
}
use tinylayer_org.Wallet.Platform.{Platform}
use tinylayer_org.Wallet.Fund.{pending_sign_request}
use tinylayer_org.Wallet.Send.{
  pending_transfer_request, complete_transfer, outgoing_transfer, outgoing_of,
}
use tinylayer_org.Native.Model.{NativeWalletState, Config}
use tinylayer_org.Native.Session.{Outside, World, Entropy, signs, publishes}
use tinylayer_org.Native.Session.Send.{
  is_prepared, ensure_connected, prepare_transfer, sign_prepared, finish_transfer, resume_transfer,
  sign_if_prepared, publish_again, send_from, sign_transfer,
}
use tinylayer_org.Native.Session.Journal.{
  AllJournaled, Journals, bind-Journals, then-Journals, ask-Journals, check-Journals,
  check_bind-Journals, return-Journals, weaken-Journals, note-Journals, load_native-Journals,
  save-Journals,
}

outgoing_transfer-held :
    (state : WalletState) (outgoing : OutgoingTransfer)
    → outgoing_of state.coin ≡ some outgoing
    → outgoing_transfer state ≡ ok outgoing
unfolding outgoing_transfer
outgoing_transfer-held state outgoing held = ground arith

complete_transfer-outgoing :
    (p : Platform) (ephemeral nonce : Bytes) (status : CoinStatus) (state : WalletState)
    {envelope : TransferEnvelope}
    → (complete_transfer p ephemeral nonce status state).0 ≡ ok envelope
    → (outgoing : OutgoingTransfer) × (outgoing_transfer
          (complete_transfer p ephemeral nonce status state).1
        ≡ ok outgoing)
      × (outgoing.envelope ≡ envelope)
unfolding complete_transfer outgoing_transfer outgoing_of
complete_transfer-outgoing p ephemeral nonce status state h =
    elim (Option-cases (outgoing_of (complete_transfer p ephemeral nonce status state).1.coin)) [
      | inl e ↦ absurd (ground arith)
      | inr (outgoing, e) ↦ (outgoing, ground arith, ground arith)
    ]

module _ (O : Outside) (p : Platform) (config : Config) where
  pub ensure_connected-Journals :
      {P : NativeWalletState → Type 0} (connected : Bool)
      → Journals O p P (ensure_connected O p config connected) (λ a. P)
  ensure_connected-Journals true = return-Journals O p _ (λ d h. h)
  ensure_connected-Journals false = ask-Journals O p O.connect_enclave

  prepare_transfer-Journals :
      (request : TransferRequest) (state : WalletState)
      → Journals O p
          (λ d. d.wallet ≡ state)
          (prepare_transfer O p config request state)
          (λ s d. d.wallet ≡ s)
  unfolding prepare_transfer
  prepare_transfer-Journals request state = then-Journals O p (ask-Journals O p O.available) (
      bind-Journals O p (check-Journals O p _) (λ metadata.
        then-Journals O p (ask-Journals O p O.connect_enclave) (
          bind-Journals O p (ask-Journals O p (O.status metadata.keys.coin_id)) (λ status.
            then-Journals O p (ask-Journals O p O.connect_chain) (
              bind-Journals O p (ask-Journals O p (O.observe_funding metadata)) (λ observation.
                bind-Journals O p (check-Journals O p _) (λ asked.
                  then-Journals O p (save-Journals O p config _)
                    (return-Journals O p _ (λ d h. h)))))))))

  sign_prepared-Journals :
      (connected : Bool) (state : WalletState)
      → Journals O p
          (λ d. d.wallet ≡ state)
          (sign_prepared O p config connected state)
          (λ s d. d.wallet ≡ s)
  unfolding sign_prepared
  sign_prepared-Journals connected state = then-Journals O p (ensure_connected-Journals connected) (
      bind-Journals O p (check-Journals O p _) (λ metadata.
        bind-Journals O p (ask-Journals O p (O.status metadata.keys.coin_id)) (λ status.
          then-Journals O p (ask-Journals O p O.connect_chain) (
            bind-Journals O p (ask-Journals O p (O.observe_funding metadata)) (λ observation.
              then-Journals O p (check-Journals O p _) (
                check_bind-Journals O p (pending_sign_request state) (λ request asked.
                  then-Journals O p (note-Journals O p (signs request) (λ d same. rw same asked)) (
                    bind-Journals O p (ask-Journals O p (O.sign request)) (λ response.
                      then-Journals O p (check-Journals O p _) (
                        then-Journals O p (save-Journals O p config _)
                          (return-Journals O p _ (λ d h. h))))))))))))

  finish_transfer-Journals :
      (entropy : Entropy) (connected : Bool) (state : WalletState)
      → Journals O p
          (λ d. d.wallet ≡ state)
          (finish_transfer O p config entropy connected state)
          (λ a d. Unit)
  unfolding finish_transfer
  finish_transfer-Journals entropy connected state =
      then-Journals O p (ensure_connected-Journals connected) (
        bind-Journals O p (check-Journals O p _) (λ coin.
          bind-Journals O p (ask-Journals O p (O.status coin.keys.coin_id)) (λ status.
            let completed = complete_transfer p entropy.ephemeral entropy.nonce status state in
            check_bind-Journals O p completed.0 (λ envelope done.
              then-Journals O p (save-Journals O p config completed.1) (
                then-Journals O p
                  (note-Journals O p (publishes envelope) (λ d same. rw same (
                    complete_transfer-outgoing p entropy.ephemeral entropy.nonce status state
                      done)))
                  (then-Journals O p (ask-Journals O p (O.publish_envelope envelope))
                    (return-Journals O p envelope (λ d h. tt))))))))

  resume_transfer-Journals :
      (request : TransferRequest) (state : WalletState) (pending : Option PendingOperation)
      → Journals O p
          (λ d. d.wallet ≡ state)
          (resume_transfer O p config request state pending)
          (λ s d. d.wallet ≡ s)
  unfolding resume_transfer
  resume_transfer-Journals request state none = prepare_transfer-Journals request state
  resume_transfer-Journals request state (some pending) =
      bind-Journals O p (check-Journals O p (pending_transfer_request p state))
        (λ saved. then-Journals O p (check-Journals O p _) (return-Journals O p _ (λ d h. h)))

  sign_if_prepared-Journals :
      (connected : Bool) (state : WalletState) (prepared : Bool)
      → Journals O p
          (λ d. d.wallet ≡ state)
          (sign_if_prepared O p config connected state prepared)
          (λ s d. d.wallet ≡ s)
  unfolding sign_if_prepared
  sign_if_prepared-Journals connected state true = sign_prepared-Journals connected state
  sign_if_prepared-Journals connected state false = return-Journals O p _ (λ d h. h)

  publish_again-Journals :
      (request : TransferRequest) (native : NativeWalletState) (outgoing : OutgoingTransfer)
      → outgoing_of native.wallet.coin ≡ some outgoing
      → Journals O p (λ d. d ≡ native) (publish_again O p config request outgoing) (λ a d. Unit)
  unfolding publish_again
  publish_again-Journals request native outgoing held = then-Journals O p (check-Journals O p _) (
      then-Journals O p
        (note-Journals O p (publishes outgoing.envelope) (λ d same.
          (outgoing, rw same (outgoing_transfer-held native.wallet outgoing held), refl)))
        (then-Journals O p (ask-Journals O p (O.publish_envelope outgoing.envelope))
          (return-Journals O p _ (λ d h. tt))))

  send_from-Journals :
      (entropy : Entropy) (request : TransferRequest) (native : NativeWalletState)
      (held : Option OutgoingTransfer)
      → outgoing_of native.wallet.coin ≡ held
      → Journals O p
          (λ d. d ≡ native)
          (send_from O p config entropy request native held)
          (λ a d. Unit)
  unfolding send_from
  send_from-Journals entropy request native (some outgoing) e =
      publish_again-Journals request native outgoing e
  send_from-Journals entropy request native none e = then-Journals O p (check-Journals O p _) (
      weaken-Journals O p (λ d same. ap (λ n. n.wallet) same) (λ a d h. h)
        (bind-Journals O p (resume_transfer-Journals request native.wallet native.wallet.pending)
          (λ begun.
            bind-Journals O p (sign_if_prepared-Journals _ begun (is_prepared begun.pending))
              (λ recorded. finish_transfer-Journals entropy _ recorded))))

  -- Whatever the enclave, the chain and the file system answer, a transfer is signed only as the
  -- saved wallet's pending request, and an envelope is published only when the saved wallet holds it
  -- as sent.
  pub sign_transfer-journaled :
      (entropy : Entropy) (request : TransferRequest) (w : World O)
      → AllJournaled p w.log
      → AllJournaled p (sign_transfer O p config entropy request w).1.log
  unfolding sign_transfer
  sign_transfer-journaled entropy request w all =
      let journals = then-Journals O p {P = λ d. Unit} (check-Journals O p _) (
        bind-Journals O p (load_native-Journals O p config) (λ native.
          send_from-Journals entropy request native (outgoing_of native.wallet.coin) refl)) in
      (journals.run w tt all).0
