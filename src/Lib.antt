-- ===== src/Lib.antt =====
-- Tinylayer: statechain coins on Bitcoin. A coin's funding output is unlocked by the client's key and
-- the enclave's key together; the enclave signs one recovery transaction for each owner, each with a
-- shorter relative delay than the last.
--
-- Parts and files. A file name is relative to the repository's root.
-- - enclave/src/lib.rs, the signer: Enclave/Types, Enclave/Hashes (tagged hashes, authorization),
--   Enclave/Signer (`new`, `register`, `status`, `sign`, `handle`; `sign` is split into `retries` and
--   `advance`). Proofs: Enclave/Invariant, Enclave/Moves (the protocol of a coin, answers included),
--   Enclave/Handoff, Enclave/HandedOn.
-- - client/src/lib.rs, the client library: Client/Types, Client/Scripts (leaf, control block, sighash),
--   Client/Registration (keys, status, signing response), Client/Recovery (prepare, complete, verify),
--   Client/History (`verify_history`), Client/Exit (`build_exit_child`). Proofs: Client/Signing,
--   Client/Chain, Client/Package, and Client/Progress (with the enclave's `sign`).
-- - wallet-core/src/state.rs, the wallet: Wallet/Types, Wallet/Register, Wallet/Fund, Wallet/Send,
--   Wallet/Pending, Wallet/Receive. Proofs: Wallet/Resume, Wallet/Secured, Wallet/Invariant, Wallet/Calls,
--   Wallet/Transfers.
-- - wallet-core/src/validation.rs: Wallet/Validation.
-- - wallet-core/src/transfer.rs: Wallet/Request (requests, associated data, fingerprints) and
--   Wallet/Package (encryption and its checks). Proofs: Wallet/Package/RoundTrip.
-- - wallet-core/src/funding.rs: Wallet/Source (`build_source_funding`), Wallet/Sweep
--   (`build_source_sweep`) and Wallet/Sweep/Journal. Proofs: Wallet/Deposits, Wallet/Sweep/Order,
--   Wallet/Sweep/Spends, Wallet/Sweep/Laws.
-- - wallet-core/src/codec.rs: Wallet/Codec. Proofs: Wallet/Codec/RoundTrip.
-- - wallet-core/src/exit.rs: Wallet/Exit. Proofs: Wallet/Exits.
-- - wallet/src/model.rs: Native/Model.
-- - wallet/src/store.rs: Native/Disk (the writers of files, on a disk whose next operations fail as a
--   list of faults says; at a loss of power the faults do not end in time, and contents that were
--   not synced are gone), Native/Wire (the coin keys of a saved state, checked as it is parsed) and
--   Native/Store (loading and saving). Proofs: Native/Disk/Atomic, Native/Wire/Valid,
--   Native/Store/Loads.
-- - wallet/src/cli.rs: Native/Policy (checks of the funding command) and Native/Session, where a
--   command is a sequence of calls of an arbitrary machine, `Outside`, that stands for the enclave, the
--   chain and the file system; a log keeps each request, transaction and envelope that leaves, with
--   the state that is saved then. Native/Session/Register has `register_coin`, Native/Session/Fund
--   `fund_coin_explorer`, Native/Session/Send `sign_transfer`, Native/Session/Accept
--   `create_transfer_request` and `accept_transfer`, Native/Session/Core `fund_coin` with the wallet of
--   a Core node, Native/Session/Sweep `source_sweep`,
--   Native/Session/Exit the steps of an exit, Native/Session/Leave `exit_coin`, and
--   Native/Session/Inspect the commands that save nothing (`coin_status`, `export_recovery`,
--   `export_receipt`, `verify_receipt`). Proofs:
--   Native/Session/Journal (rules for each kind of step), Native/Session/Journaled,
--   Native/Session/Sent, Native/Session/Broadcast, Native/Session/CoreFunded, Native/Session/Swept,
--   Native/Session/Left, Native/Session/Live.
-- - wallet/src/services.rs, the explorer: Native/Chain (what is observed), Native/Http (answers, their
--   size and what is read from them), Native/Explorer (`Explorer` over an arbitrary server, `Web`),
--   Native/Explorer/Deposits (`confirmed_source_utxos`) and Native/Explorer/Broadcast
--   (`broadcast_exact`, `submit_package`). Proofs: Native/Http/Limits, Native/Explorer/Observed,
--   Native/Explorer/Deposited, Native/Explorer/Exposed, with the rules of
--   Base/Yields.
-- - wallet/src/services.rs, the Core client: Native/Core (`Core` over an arbitrary node, `Node`, whose
--   answers are values or errors with a code), Native/Core/Observe and Native/Core/Fund. Proofs:
--   Native/Core/Prepared. Native/Backend has `Chain`, the one or the other.
-- - wallet/src/services.rs, `EnclaveConnection`, with client/src/lib.rs, `RemoteEnclave`:
--   Native/Connection. The commands keep to the calls of `Outside`, of which such connections are one
--   machine.
-- - the checks of URLs, names, paths and passwords of both files: Native/Access.
-- The wallet calls the client library, whose requests the enclave answers; the wallet's definitions
-- use the client's, which use the enclave's hashes and records.
--
-- Representation. Byte strings, keys, signatures and texts are lists of numbers; amounts, counts and
-- delays are ℕ with the overflow checks written out at their width. A method on `&mut self` is a
-- function from the state to a result and a state (`Action`), and an error keeps the old state. Random
-- values are arguments. Loops are structural recursion, so there is no fuel. An error message is its
-- constant text without the formatted numbers.
--
-- Third-party code is an argument: Extern has the records `Crypto` (SHA-256, Schnorr) and `Bitcoin`
-- (scripts, Taproot, sighashes, sizes), Wallet/Platform has the encodings, ECDH, HKDF, the cipher and
-- JSON. They hold no laws. Samples has concrete functions in their place, on which the tests run, and
-- Native/Sample an environment of the commands.
--
-- Not modelled: the enclave's HTTP workload, the attested channel, the fee recommendation
-- (floating point), arguments and printing, and of the store its creation, lock, the prompt for a
-- password and standard input and output. They are mostly input and output.
pub mod Base
pub mod Extern
pub mod Enclave
pub mod Client
pub mod Wallet
pub mod Native
pub mod Samples
