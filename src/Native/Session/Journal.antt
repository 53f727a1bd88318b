-- ===== src/Native/Session/Journal.antt =====
-- wallet/src/cli.rs: rules for what a command leaves in the log, step by step.
use tinylayer_org.Base.{Bytes, ◌≡◌, ◌≢◌, head, refl, List, some, Result, ok, err, arith, All}
use tinylayer_org.Base.Actions.{◌>>=◌, ◌>>◌, check, return, fail, continue}
use tinylayer_org.Client.Types.{Registration, CoinMetadata, SignedRecovery}
use tinylayer_org.Extern.{Transaction}
use tinylayer_org.Client.Recovery.{verify_recovery}
use tinylayer_org.Wallet.Types.{
  FundingJournal, FundingStage, Failure, WalletState, WalletCoin, registration, OutgoingTransfer,
}
use tinylayer_org.Wallet.Platform.{Platform}
use tinylayer_org.Wallet.Fund.{pending_sign_request, funding_transaction}
use tinylayer_org.Wallet.Send.{outgoing_transfer}
use tinylayer_org.Wallet.Sweep.{SourceSweepJournal, SourceSweepStage}
use tinylayer_org.Wallet.Sweep.Journal.{validate_sweep}
use tinylayer_org.Wallet.Exit.{ExitJournal, ExitStage, validate_package}
use tinylayer_org.Native.Model.{NativeWalletState, Config}
use tinylayer_org.Native.Session.{
  Outside, World, Session, Event, funds, registers, signs, broadcasts, publishes, sweeps, exits,
  submits, ask, note, load_native, save, save_native,
}

module _ (p : Platform) where
  -- The saved journal of a sweep or of an exit is armed, and is the one that the saved secrets make.
  abbrev pub IsArmedSweep : NativeWalletState → SourceSweepJournal → Type 0
  IsArmedSweep saved journal =
      (saved.source_sweep ≡ some journal)
      × (journal.stage ≡ SourceSweepStage.submission_armed)
      × (validate_sweep p saved.funding_secret journal ≡ ok tt)

  abbrev pub IsArmedExit : NativeWalletState → ExitJournal → Type 0
  IsArmedExit saved journal =
      (saved.exit ≡ some journal)
      × (journal.stage ≡ ExitStage.submission_armed)
      × ((coin : WalletCoin) × (saved.wallet.coin ≡ some coin)
          × (validate_package p journal.exit_package coin ≡ ok tt))

  -- The saved coin holds a verified first recovery with the delay of its funding, whose transaction it
  -- is.
  pub record IsSecured (saved : NativeWalletState) (transaction : Transaction) : Type 0 where
    pub coin : WalletCoin
    pub metadata : CoinMetadata
    pub funding : FundingJournal
    pub first : SignedRecovery
    pub holds_coin : saved.wallet.coin ≡ some coin
    pub holds_metadata : coin.metadata ≡ some metadata
    pub holds_funding : coin.funding ≡ some funding
    pub holds_first : head coin.history ≡ some first
    pub stage : funding.stage ≢ FundingStage.prepared
    pub delay : first.delay_blocks ≡ funding.delay_blocks
    pub verified : verify_recovery p.bitcoin metadata first ≡ ok tt
    pub transaction_of : funding.transaction ≡ transaction

  -- The request that is registered or signed is the saved one, the transaction that is broadcast is
  -- one that the saved wallet gives out, and the envelope that is published is saved as sent. A sweep
  -- or an exit that is sent is the one of the saved journal, which is armed. A node's funding is sent
  -- only behind its saved first recovery.
  abbrev pub IsJournaled : Event → Type 0
  IsJournaled (registers request saved) =
      (secret : Bytes) × (capability : Bytes) × (r : Registration) × (saved.wallet.pending
        ≡ some (registration secret capability r))
      × (r.request ≡ request)
  IsJournaled (signs request saved) = pending_sign_request saved.wallet ≡ ok request
  IsJournaled (broadcasts transaction saved) = funding_transaction p saved.wallet ≡ ok transaction
  IsJournaled (publishes envelope saved) =
      (outgoing : OutgoingTransfer) × (outgoing_transfer saved.wallet ≡ ok outgoing)
      × (outgoing.envelope ≡ envelope)
  IsJournaled (sweeps transaction saved) =
      (journal : SourceSweepJournal) × IsArmedSweep saved journal
      × (journal.transaction ≡ transaction)
  IsJournaled (exits child saved) =
      (journal : ExitJournal) × IsArmedExit saved journal × (journal.exit_package.child ≡ child)
  IsJournaled (submits parent child saved) =
      (journal : ExitJournal) × IsArmedExit saved journal
      × (journal.exit_package.parent ≡ parent)
      × (journal.exit_package.child ≡ child)
  IsJournaled (funds transaction saved) = IsSecured saved transaction

  abbrev pub AllJournaled : List Event → Type 0
  AllJournaled = All IsJournaled

module _ (O : Outside) (p : Platform) where
  -- From a saved state of which `P` holds, `m` keeps the log journaled, and with a result leaves a
  -- saved state of which `Q` holds.
  pub record Journals {A : Type 0} (P : NativeWalletState → Type 0) (m : Session O A)
      (Q : A → NativeWalletState → Type 0) : Type 0 where
    pub run :
        (w : World O)
        → P w.disk
        → AllJournaled p w.log
        → AllJournaled p (m w).1.log × ((a : A) → (m w).0 ≡ ok a → Q a (m w).1.disk)

  continued :
      {A B : Type 0} {Q : A → NativeWalletState → Type 0} {R : B → NativeWalletState → Type 0}
      (f : A → Session O B)
      → ((a : A) → Journals (Q a) (f a) R)
      → (r : Result Failure A × World O) → AllJournaled p r.1.log
      → ((a : A) → r.0 ≡ ok a → Q a r.1.disk)
      → AllJournaled p (continue r f).1.log
        × ((b : B) → (continue r f).0 ≡ ok b → R b (continue r f).1.disk)
  continued f next (ok a, w) all left = (next a).run w (left a refl) all
  continued f next (err failure, w) all left = (all, λ b e. absurd (ground arith))

  pub bind-Journals :
      {A B : Type 0} {P : NativeWalletState → Type 0} {Q : A → NativeWalletState → Type 0}
      {R : B → NativeWalletState → Type 0} {m : Session O A} {f : A → Session O B}
      → Journals P m Q
      → ((a : A) → Journals (Q a) (f a) R)
      → Journals P (m >>= f) R
  bind-Journals {m = m} {f = f} first next = record {
    run =
        λ w holds all. let (all1, left) = first.run w holds all in continued f next (m w) all1 left;
  }

  pub then-Journals :
      {B : Type 0} {P : NativeWalletState → Type 0} {Q : Unit → NativeWalletState → Type 0}
      {R : B → NativeWalletState → Type 0} {m : Session O Unit} {k : Session O B}
      → Journals P m Q
      → Journals (Q tt) k R
      → Journals P (m >> k) R
  then-Journals {m = m} {k = k} first next = record {
    run = λ w holds all.
        let (all1, left) = first.run w holds all in
        continued (λ done. k) (λ done. next) (m w) all1 left;
  }

  pub ask-Journals :
      {A : Type 0} {P : NativeWalletState → Type 0} (call : O.State → Result Failure A × O.State)
      → Journals P (ask O call) (λ a. P)
  ask-Journals call = record { run = λ w holds all. (all, λ a e. holds) }

  -- A step that leaves the log alone.
  pub quiet-Journals :
      {A : Type 0} {P : NativeWalletState → Type 0} (m : Session O A)
      → ((w : World O) → (m w).1.log ≡ w.log)
      → Journals P m (λ a d. Unit)
  quiet-Journals m quiet = record { run = λ w holds all. (rw (quiet w) all, λ a e. tt) }

  pub check-Journals :
      {A : Type 0} {P : NativeWalletState → Type 0} (r : Result Failure A)
      → Journals P (check r) (λ a. P)
  check-Journals r = record { run = λ w holds all. (all, λ a e. holds) }

  -- What a check found is known from there on.
  pub check_bind-Journals :
      {A B : Type 0} {P : NativeWalletState → Type 0} {R : B → NativeWalletState → Type 0}
      {f : A → Session O B} (r : Result Failure A)
      → ((a : A) → r ≡ ok a → Journals P (f a) R)
      → Journals P (check r >>= f) R
  check_bind-Journals {f = f} (ok a) next = record {
    run = λ w holds all. (next a refl).run w holds all;
  }
  check_bind-Journals {f = f} (err failure) next = record {
    run = λ w holds all. (all, λ b e. absurd (ground arith));
  }

  pub check_then-Journals :
      {B : Type 0} {P : NativeWalletState → Type 0} {R : B → NativeWalletState → Type 0}
      {k : Session O B} (r : Result Failure Unit)
      → (r ≡ ok tt → Journals P k R)
      → Journals P (check r >> k) R
  check_then-Journals {k = k} (ok done) next = record {
    run = λ w holds all. (next refl).run w holds all;
  }
  check_then-Journals {k = k} (err failure) next = record {
    run = λ w holds all. (all, λ b e. absurd (ground arith));
  }

  pub return-Journals :
      {A : Type 0} {P : NativeWalletState → Type 0} {Q : A → NativeWalletState → Type 0} (a : A)
      → ((d : NativeWalletState) → P d → Q a d)
      → Journals P (return a) Q
  return-Journals {Q = Q} a gives = record {
    run = λ w holds all.
        (all, λ b e. let same : a ≡ b = ground arith in rw (← same) (gives w.disk holds));
  }

  pub fail-Journals :
      {A : Type 0} {P : NativeWalletState → Type 0} {Q : A → NativeWalletState → Type 0}
      (failure : Failure)
      → Journals P (fail failure) Q
  fail-Journals failure = record { run = λ w holds all. (all, λ b e. absurd (ground arith)) }

  -- What is known before and after may be stated otherwise.
  pub weaken-Journals :
      {A : Type 0} {P P2 : NativeWalletState → Type 0} {Q Q2 : A → NativeWalletState → Type 0}
      {m : Session O A}
      → ((d : NativeWalletState) → P2 d → P d)
      → ((a : A) (d : NativeWalletState) → Q a d → Q2 a d)
      → Journals P m Q
      → Journals P2 m Q2
  weaken-Journals {m = m} before after first = record {
    run = λ w holds all.
        let (all1, left) = first.run w (before w.disk holds) all in
        (all1, λ a e. after a (m w).1.disk (left a e));
  }

  pub note-Journals :
      {P : NativeWalletState → Type 0} (event : NativeWalletState → Event)
      → ((d : NativeWalletState) → P d → IsJournaled p (event d))
      → Journals P (note O event) (λ a. P)
  note-Journals event journaled = record {
    run = λ w holds all. ((journaled w.disk holds, all), λ a e. holds);
  }

  module _ (config : Config) where
    load_native-log : (w : World O) → (load_native O p config w).1.log ≡ w.log
    unfolding load_native
    load_native-log w = ground arith

    pub load_native-Journals :
        {P : NativeWalletState → Type 0}
        → Journals P (load_native O p config) (λ native d. d ≡ native)
    load_native-Journals = record {
      run = λ w holds all. (rw (load_native-log w) all, λ a e. unfold load_native in ground arith);
    }

    save_native-log :
        (native : NativeWalletState) (w : World O) → (save_native O p config native w).1.log ≡ w.log
    unfolding save_native
    save_native-log native w = ground arith

    pub save_native-Journals :
        {P : NativeWalletState → Type 0} (native : NativeWalletState)
        → Journals P (save_native O p config native) (λ a d. d ≡ native)
    save_native-Journals native = record {
      run = λ w holds all.
          (rw (save_native-log native w) all, λ a e. unfold save_native in ground arith);
    }

    save-log : (state : WalletState) (w : World O) → (save O p config state w).1.log ≡ w.log
    unfolding save load_native
    save-log state w = ground arith

    pub save-Journals :
        {P : NativeWalletState → Type 0} (state : WalletState)
        → Journals P (save O p config state) (λ a d. d.wallet ≡ state)
    save-Journals state = record {
      run = λ w holds all.
          (rw (save-log state w) all, λ a e. unfold save load_native in ground arith);
    }
