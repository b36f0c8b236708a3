-- ===== src/Producer/Sender/Handlers/Retries.antt =====
-- What an answer that is no success leaves behind.
use aiokafka.Base.{
  true, ◌||◌, none, some, refl, if◌then◌else◌, ◌≡◌, ◌≢◌, arith, Result, ok, err, pure, ◌>>◌, broker,
  producer_fenced, ℤ,
}
use aiokafka.Base.Keys.{◌==◌, ==_iff}
use aiokafka.Base.BrokerErrors.{
  BrokerResponseError, for_code, no_error, error_eq, group_coordinator_not_available_error,
  not_coordinator_for_group_error, group_load_in_progress_error, concurrent_transactions,
  invalid_producer_epoch,
}
use aiokafka.Producer.TransactionManager.{complete_transaction}
use aiokafka.Producer.Sender.{Sender, coordinator_dead}
use aiokafka.Producer.Sender.Handlers.{end_txn, do_request, handle_response, end_txn_answer}

-- An end that the coordinator does not confirm is asked for again after four errors, and any other error
-- raises: a fenced producer for its epoch, and the error itself otherwise.
abbrev pub unconfirmed : BrokerResponseError → Result (Unit {0})
unconfirmed e =
    if e == group_coordinator_not_available_error
      || e == not_coordinator_for_group_error
      || e == group_load_in_progress_error
      || e == concurrent_transactions
    then ok tt
    else if e == invalid_producer_epoch
    then err producer_fenced
    else err (broker e)

module _ (s : Sender) (code : ℤ) where
  -- The end of the transaction was confirmed.
  pub end_txn_confirmed :
      for_code code ≡ no_error
      → (complete_transaction s.txn_manager).0 ≡ ok tt
      → do_request (some (end_txn code)) s
        ≡ (ok true, record s { txn_manager = (complete_transaction s.txn_manager).1 })
  unfolding do_request handle_response end_txn_answer
  end_txn_confirmed e h = ground (arith, ==_iff (for_code code) no_error)

  pub end_txn_unconfirmed :
      for_code code ≢ no_error → (do_request (some (end_txn code)) s).1.txn_manager ≡ s.txn_manager
  unfolding do_request handle_response end_txn_answer coordinator_dead
  end_txn_unconfirmed e = ground (arith, ==_iff (for_code code) no_error)

  -- What becomes of an end that is not confirmed.
  pub end_txn_unconfirmed_result :
      for_code code ≢ no_error
      → ((do_request (some (end_txn code)) >> pure tt) s).0 ≡ unconfirmed (for_code code)
  unfolding do_request handle_response end_txn_answer coordinator_dead
  end_txn_unconfirmed_result e = ground (arith, ==_iff (for_code code) no_error)

-- A coordinator that cannot be reached changes nothing.
pub do_request_unreached : (s : Sender) → (do_request none >> pure tt) s ≡ (ok tt, s)
unfolding do_request
do_request_unreached s = refl
