-- ===== src/Native/Explorer/Broadcast.antt =====
-- wallet/src/services.rs: broadcasting a transaction and submitting a package.
use tinylayer_org.Base.{
  Bytes, Bool, true, false, Option, some, none, ok, ensure, ok_or, ◌==◌, same, bytes_discrete,
  codes, String,
}
use tinylayer_org.Base.Actions.{◌>>=◌, ◌>>◌, check, return}
use tinylayer_org.Extern.{Transaction, Transaction_discrete}
use tinylayer_org.Wallet.Types.{message}
use tinylayer_org.Wallet.Platform.{Platform}
use tinylayer_org.Wallet.Validation.{validate_funding_inputs}
use tinylayer_org.Native.Chain.{TransactionObservation}
use tinylayer_org.Native.Http.{Reply, text_of, is_success}
use tinylayer_org.Native.Explorer.{Web, Online, replied, transaction_observation}

module _ (W : Web) (p : Platform) where
  unfoldable pub exact_observed :
      String → Transaction → Option TransactionObservation → Online W Bool
  exact_observed mismatch expected none = return false
  exact_observed mismatch expected (some observed) = do
    check (ensure (same Transaction_discrete observed.transaction expected) (message mismatch))
    return true

  unfoldable pub exact_transaction_is_observed : Transaction → Online W Bool
  exact_transaction_is_observed expected = do
    seen ← transaction_observation W p (p.compute_txid expected)
    exact_observed "explorer transaction bytes do not match the saved transaction" expected seen

  -- `Chain::observe_authorized_transaction` of an explorer.
  unfoldable pub observe_authorized : Transaction → Online W (Option TransactionObservation)
  observe_authorized transaction = do
    seen ← transaction_observation W p (p.compute_txid transaction)
    exact ←
        exact_observed "explorer transaction bytes do not match the authorized transaction"
          transaction seen
    return seen

  -- After a refusal: the transaction may be known all the same.
  unfoldable pub known_or_fail : Transaction → String → Online W Bytes
  known_or_fail transaction refusal = do
    known ← exact_transaction_is_observed transaction
    check (ensure known (message refusal))
    return (p.compute_txid transaction)

  unfoldable pub accept_reply : Transaction → Bytes → Bool → Online W Bytes
  accept_reply transaction body false =
      known_or_fail transaction "explorer rejected transaction with an HTTP error"
  accept_reply transaction body true = do
    returned ← check (
        ok_or (W.readers.read_txid (W.readers.trim body))
          (message "explorer returned an invalid broadcast txid"))
    check (
        ensure (same bytes_discrete returned (p.compute_txid transaction))
          (message "explorer returned the wrong broadcast txid"))
    known_or_fail transaction "explorer accepted the transaction but did not expose its exact bytes"

  unfoldable pub after_post : Transaction → Option Reply → Online W Bytes
  after_post transaction none = known_or_fail transaction "broadcast exact transaction"
  after_post transaction (some reply) = do
    body ← check (text_of W.readers reply)
    accept_reply transaction body (is_success reply.status)

  abbrev pub post : Transaction → Online W (Option Reply)
  post transaction s = let (reply, t) = W.post_tx transaction s in (ok reply, t)

  unfoldable pub post_unless_known : Transaction → Bool → Online W Bytes
  post_unless_known transaction true = return (p.compute_txid transaction)
  post_unless_known transaction false = do reply ← post transaction; after_post transaction reply

  unfoldable pub broadcast_exact : Transaction → Online W Bytes
  broadcast_exact transaction = do
    check (validate_funding_inputs p.bitcoin transaction)
    known ← exact_transaction_is_observed transaction
    post_unless_known transaction known

  unfoldable pub package_reply : Transaction → Transaction → Reply → Bool → Online W Reply
  package_reply parent child reply false = return reply
  package_reply parent child reply true = λ s. replied W (W.post_package true parent child s)

  unfoldable pub submit_package : Transaction → Transaction → Online W Unit
  submit_package parent child = do
    first ← λ s. replied W (W.post_package false parent child s)
    reply ← package_reply parent child first (first.status == 404)
    body ← check (text_of W.readers reply)
    check (ensure (is_success reply.status) (message "explorer rejected the recovery package"))
    result ←
        check (ok_or (W.readers.read_package body) (message "invalid package submission response"))
    check (
        ensure (same bytes_discrete result (codes "success"))
          (message "recovery package was not accepted"))
