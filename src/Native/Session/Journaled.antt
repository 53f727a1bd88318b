-- ===== src/Native/Session/Journaled.antt =====
-- wallet/src/cli.rs: nothing leaves the process before the state that answers for it is saved.
use tinylayer_org.Base.{Bytes, ◌≡◌, refl, ap, Option, none, some, ok, arith}
use tinylayer_org.Enclave.Types.{RegisterRequest}
use tinylayer_org.Enclave.Hashes.{capability_hash}
use tinylayer_org.Client.Types.{Registration}
use tinylayer_org.Client.Registration.{prepare_registration}
use tinylayer_org.Wallet.Types.{WalletState, WalletCoin, PendingOperation, registration, recovery}
use tinylayer_org.Wallet.Platform.{Platform}
use tinylayer_org.Wallet.Register.{begin_registration}
use tinylayer_org.Native.Model.{NativeWalletState, Config}
use tinylayer_org.Native.Session.{Outside, World, Entropy, registers}
use tinylayer_org.Native.Session.Register.{
  check_registered, begin_and_save, resume_request, finish_registration, register_from,
  register_coin,
}
use tinylayer_org.Native.Session.Journal.{
  IsJournaled, AllJournaled, Journals, bind-Journals, then-Journals, ask-Journals, check-Journals,
  check_bind-Journals, return-Journals, fail-Journals, weaken-Journals, note-Journals,
  load_native-Journals, save-Journals,
}

begin_registration-pending :
    (p : Platform) (s c i : Bytes) (state : WalletState) {request : RegisterRequest}
    → state.pending ≡ none
    → (begin_registration p s c i state).0 ≡ ok request
    → (r : Registration) × ((begin_registration p s c i state).1.pending
        ≡ some (registration s c r))
      × (r.request ≡ request)
unfolding begin_registration
begin_registration-pending p s c i state fresh h =
    (prepare_registration p.bitcoin i s (capability_hash p.crypto c), ground arith, ground arith)

module _ (O : Outside) (p : Platform) (config : Config) where
  finish_registration-Journals :
      (request : RegisterRequest) (state : WalletState)
      → Journals O p
          (λ d. IsJournaled p (registers request d))
          (finish_registration O p config request state)
          (λ a d. Unit)
  unfolding finish_registration
  finish_registration-Journals request state =
      then-Journals O p (note-Journals O p (registers request) (λ d j. j)) (
        bind-Journals O p (ask-Journals O p (O.register request)) (λ status.
          then-Journals O p (check-Journals O p _)
            (then-Journals O p (save-Journals O p config _) (return-Journals O p _ (λ d h. tt)))))

  check_registered-Journals :
      {P : NativeWalletState → Type 0} (state : WalletState) (coin : WalletCoin)
      → Journals O p P (check_registered O p config state coin) (λ a d. Unit)
  unfolding check_registered
  check_registered-Journals state coin = then-Journals O p (check-Journals O p _) (
      then-Journals O p (check-Journals O p _) (
        then-Journals O p (ask-Journals O p O.connect_enclave) (
          bind-Journals O p (ask-Journals O p (O.status coin.keys.coin_id)) (λ status.
            then-Journals O p (check-Journals O p _) (return-Journals O p _ (λ d h. tt))))))

  -- The request that is about to be sent is the saved one.
  resume_request-Journals :
      (entropy : Entropy) (state : WalletState) (pending : Option PendingOperation)
      → state.pending ≡ pending
      → Journals O p
          (λ d. d.wallet ≡ state)
          (resume_request O p config entropy state pending)
          (λ a d. IsJournaled p (registers a.0 d))
  unfolding resume_request begin_and_save
  resume_request-Journals entropy state none e =
      let began =
        begin_registration p entropy.client_secret entropy.capability entropy.coin_id state in
      check_bind-Journals O p began.0 (λ request begun.
        then-Journals O p (save-Journals O p config began.1) (
          return-Journals O p (request, began.1)
            (λ d saved.
              let (r, kept, asked) =
                begin_registration-pending p entropy.client_secret entropy.capability
                  entropy.coin_id state e begun in
              (entropy.client_secret, entropy.capability, r, rw saved kept, asked))))
  resume_request-Journals entropy state (some (registration s c r)) e =
      return-Journals O p _ (λ d saved. (s, c, r, ground arith, refl))
  resume_request-Journals entropy state (some (recovery r)) e = fail-Journals O p _

  register_from-Journals :
      (entropy : Entropy) (state : WalletState) (coin : Option WalletCoin)
      → Journals O p
          (λ d. d.wallet ≡ state)
          (register_from O p config entropy state coin)
          (λ a d. Unit)
  unfolding register_from
  register_from-Journals entropy state (some coin) =
      bind-Journals O p (check_registered-Journals state coin)
        (λ registered. return-Journals O p _ (λ d h. tt))
  register_from-Journals entropy state none =
      then-Journals O p (ask-Journals O p O.connect_enclave) (
        bind-Journals O p (resume_request-Journals entropy state state.pending refl)
          (λ r. finish_registration-Journals r.0 r.1))

  -- Whatever the enclave and the file system answer, a registration request is sent only while the
  -- saved wallet holds the registration that it belongs to.
  pub register_coin-journaled :
      (entropy : Entropy) (w : World O)
      → AllJournaled p w.log
      → AllJournaled p (register_coin O p config entropy w).1.log
  unfolding register_coin
  register_coin-journaled entropy w all =
      let journals = bind-Journals O p (load_native-Journals O p config {P = λ d. Unit}) (λ native.
        weaken-Journals O p (λ d e. ap (λ n. n.wallet) e) (λ a d h. h)
          (register_from-Journals entropy native.wallet native.wallet.coin)) in
      (journals.run w tt all).0
