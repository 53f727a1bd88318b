-- ===== src/Native/Explorer/Exposed.antt =====
-- wallet/src/services.rs, `broadcast_exact`: what was broadcast.
use tinylayer_org.Base.{
  Bytes, ◌≡◌, ◌∙◌, ap, String, refl, Bool, true, false, Option, some, none, ok, arith, same,
  bytes_discrete, ok_or, ensure,
}
use tinylayer_org.Base.Actions.{check}
use tinylayer_org.Base.Yields.{
  Yields, bind-Yields, skip-Yields, then-Yields, check_then-Yields, return-Yields, origin-Yields,
}
use tinylayer_org.Extern.{Transaction}
use tinylayer_org.Wallet.Types.{message}
use tinylayer_org.Wallet.Platform.{Platform}
use tinylayer_org.Wallet.Validation.{validate_funding_inputs}
use tinylayer_org.Native.Chain.{TransactionObservation}
use tinylayer_org.Native.Http.{is_success, text_of, Reply}
use tinylayer_org.Native.Explorer.{Web, transaction_observation}
use tinylayer_org.Native.Explorer.Broadcast.{
  exact_observed, exact_transaction_is_observed, known_or_fail, accept_reply, after_post, post,
  post_unless_known, broadcast_exact,
}

module _ (W : Web) (p : Platform) where
  -- The explorer has shown the exact bytes of a transaction.
  abbrev pub IsExposed : Transaction → Type 0
  IsExposed transaction =
      (s : W.State) × (observed : TransactionObservation) × ((transaction_observation W p
          (p.compute_txid transaction) s).0
        ≡ ok (some observed))
      × (observed.transaction ≡ transaction)

  exact_observed-lem :
      (mismatch : String) (expected : Transaction) (seen : Option TransactionObservation)
      (s : W.State)
      → (exact_observed W p mismatch expected seen s).0 ≡ ok true
      → (observed : TransactionObservation) × (seen ≡ some observed)
        × (observed.transaction ≡ expected)
  unfolding exact_observed
  exact_observed-lem mismatch expected none s h = absurd (ground arith)
  exact_observed-lem mismatch expected (some observed) s h = (observed, refl, ground arith)

  exact_transaction-IsExposed :
      (expected : Transaction)
      → Yields
          (exact_transaction_is_observed W p expected)
          (λ known. known ≡ true → IsExposed expected)
  unfolding exact_transaction_is_observed
  exact_transaction-IsExposed expected =
      bind-Yields (origin-Yields (transaction_observation W p (p.compute_txid expected)))
        (λ seen (s, e). record {
          run = λ t known h yes.
              let (observed, found, same) =
                exact_observed-lem "explorer transaction bytes do not match the saved transaction"
                  expected seen t (h ∙ ap ok yes) in
              (s, observed, e ∙ ap ok found, same);
        })

  -- A transaction that was broadcast, or was known already: the id is its own.
  abbrev pub IsBroadcast : Transaction → Bytes → Type 0
  IsBroadcast transaction txid = (txid ≡ p.compute_txid transaction) × IsExposed transaction

  known_or_fail-IsBroadcast :
      (transaction : Transaction) (refusal : String)
      → Yields (known_or_fail W p transaction refusal) (IsBroadcast transaction)
  unfolding known_or_fail
  known_or_fail-IsBroadcast transaction refusal =
      bind-Yields (exact_transaction-IsExposed transaction) (λ known exposed.
        check_then-Yields (ensure known (message refusal))
          (λ e. return-Yields (p.compute_txid transaction) (refl, exposed (ground arith))))

  accept_reply-IsBroadcast :
      (transaction : Transaction) (body : Bytes) (success : Bool)
      → Yields (accept_reply W p transaction body success) (IsBroadcast transaction)
  unfolding accept_reply
  accept_reply-IsBroadcast transaction body false = known_or_fail-IsBroadcast transaction _
  accept_reply-IsBroadcast transaction body true =
      skip-Yields
        (check (
          ok_or (W.readers.read_txid (W.readers.trim body))
            (message "explorer returned an invalid broadcast txid")))
        (λ returned.
          then-Yields
            (check (
              ensure (same bytes_discrete returned (p.compute_txid transaction))
                (message "explorer returned the wrong broadcast txid")))
            (known_or_fail-IsBroadcast transaction _))

  after_post-IsBroadcast :
      (transaction : Transaction) (reply : Option Reply)
      → Yields (after_post W p transaction reply) (IsBroadcast transaction)
  unfolding after_post
  after_post-IsBroadcast transaction none = known_or_fail-IsBroadcast transaction _
  after_post-IsBroadcast transaction (some reply) =
      skip-Yields (check (text_of W.readers reply))
        (λ body. accept_reply-IsBroadcast transaction body (is_success reply.status))

  post_unless_known-IsBroadcast :
      (transaction : Transaction) (known : Bool)
      → (known ≡ true → IsExposed transaction)
      → Yields (post_unless_known W p transaction known) (IsBroadcast transaction)
  unfolding post_unless_known
  post_unless_known-IsBroadcast transaction true exposed =
      return-Yields (p.compute_txid transaction) (refl, exposed refl)
  post_unless_known-IsBroadcast transaction false exposed =
      skip-Yields (post W p transaction) (after_post-IsBroadcast transaction)

  -- Whatever an explorer answers, a broadcast that ends without an error gives the transaction's own
  -- id, after its exact bytes were shown by the explorer; its inputs are those of a valid funding.
  pub broadcast_exact-IsBroadcast :
      (transaction : Transaction) (s : W.State) (txid : Bytes)
      → (broadcast_exact W p transaction s).0 ≡ ok txid
      → (validate_funding_inputs p.bitcoin transaction ≡ ok tt) × IsBroadcast transaction txid
  unfolding broadcast_exact
  broadcast_exact-IsBroadcast transaction = yields.run
    where
      yields : Yields (broadcast_exact W p transaction) (λ txid.
          (validate_funding_inputs p.bitcoin transaction ≡ ok tt) × IsBroadcast transaction txid)
      yields = check_then-Yields (validate_funding_inputs p.bitcoin transaction) (λ valid.
          bind-Yields (exact_transaction-IsExposed transaction) (λ known exposed. record {
            run = λ t txid e.
                (valid, (post_unless_known-IsBroadcast transaction known exposed).run t txid e);
          }))
