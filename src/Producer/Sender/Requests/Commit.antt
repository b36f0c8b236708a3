-- ===== src/Producer/Sender/Requests/Commit.antt =====
-- When the sender ends a transaction.
use aiokafka.Base.{
  ℕ, true, false, none, some, ap, ◌∙◌, [], ◌≡◌, refl, ◌⊎◌, ◌≢◌, ℤ, inl, inr, Bool-cases, arith, ok,
}
use aiokafka.Base.Futures.{resolved}
use aiokafka.Base.BrokerErrors.{for_code, no_error, error_eq}
use aiokafka.Producer.TransactionManager.{
  TransactionManager, TransactionState, TransactionResult, ready, consumer_group_to_add,
  offsets_to_commit, needs_transaction_commit, is_empty_transaction,
}
use aiokafka.Producer.TransactionManager.Invariant.{IsValid}
use aiokafka.Producer.TransactionManager.Outcomes.{complete_transaction_lem}
use aiokafka.Producer.Sender.{Sender}
use aiokafka.Producer.Sender.Requests.{
  send_end_txn, do_txn_commit, maybe_do_transactional_request, do_commit,
}
use aiokafka.Producer.Sender.Handlers.{end_txn}
use aiokafka.Producer.Sender.Handlers.Retries.{
  end_txn_confirmed, end_txn_unconfirmed, end_txn_unconfirmed_result, do_request_unreached,
  unconfirmed,
}

pub commit_chosen :
    (s : TransactionManager) (r : TransactionResult)
    → maybe_do_transactional_request s ≡ some (do_txn_commit r)
    → (s.pending_txn_partitions ≡ [])
      × (s.pending_txn_offsets ≡ [])
      × (needs_transaction_commit s.state ≡ some r)
unfolding maybe_do_transactional_request consumer_group_to_add offsets_to_commit
commit_chosen s r h = ground arith

ending :
    (s : TransactionManager) (r : TransactionResult)
    → needs_transaction_commit s.state ≡ some r
    → (s.state ≡ TransactionState.committing_transaction)
      ⊎ (s.state ≡ TransactionState.aborting_transaction)
unfolding needs_transaction_commit
ending s r h = ground arith

-- The sender asks for the end of a transaction, so no partition and no offsets wait to be added. If the
-- coordinator confirms the end, or the transaction is empty and no request is needed, the manager is ready
-- and what waits for the end resolves. If the transaction is not empty and the end is not confirmed, the
-- manager is left as it was and the sender would ask for the same end again: it returns when the coordinator could
-- not be reached and after the four errors that are retried, and raises after any other.
pub do_commit_lem :
    (s : Sender) (r : TransactionResult) (w node_id : ℕ) (code : ℤ)
    → IsValid s.txn_manager
    → s.txn_manager.transaction_waiter ≡ some w
    → maybe_do_transactional_request s.txn_manager ≡ some (do_txn_commit r)
    → let answered = do_commit (ok node_id) (some (end_txn code)) s in
      let unreached = do_commit (ok node_id) none s in
      ((s.txn_manager.pending_txn_partitions ≡ []) × (s.txn_manager.pending_txn_offsets ≡ []))
      × ((for_code code ≡ no_error) ⊎ (is_empty_transaction s.txn_manager ≡ true)
          → (answered.0 ≡ ok tt)
            × (answered.1.txn_manager.state ≡ ready)
            × (answered.1.txn_manager.futures.at w ≡ resolved tt))
      × (for_code code ≢ no_error
          → is_empty_transaction s.txn_manager ≡ false
          → (answered.0 ≡ unconfirmed (for_code code))
            × (answered.1.txn_manager ≡ s.txn_manager)
            × (maybe_do_transactional_request answered.1.txn_manager ≡ some (do_txn_commit r))
            × (unreached ≡ (ok tt, s)))
unfolding do_commit send_end_txn
do_commit_lem s r w node_id code v e h =
    let (p, o, n) = commit_chosen s.txn_manager r h in
    let (done, stays, waits, left) =
      (complete_transaction_lem s.txn_manager w v e (ending s.txn_manager r n)).0 p o in
    (
      (p, o),
      λ c. elim (Bool-cases (is_empty_transaction s.txn_manager)) [
        | inl empty ↦ rw empty (done, stays, waits)
        | inr full ↦
            rw (full, end_txn_confirmed s code (confirmed full c) done) (refl, stays, waits)
      ],
      λ ne full.
          let same : (do_commit (ok node_id) (some (end_txn code)) s).1.txn_manager
              ≡ s.txn_manager =
            rw full (ground (arith, end_txn_unconfirmed s code)) in
          (
            rw full (end_txn_unconfirmed_result s code ne),
            same,
            ap maybe_do_transactional_request same ∙ h,
            rw full (do_request_unreached s),
          ),
    )
  where
    confirmed :
        is_empty_transaction s.txn_manager ≡ false
        → (for_code code ≡ no_error) ⊎ (is_empty_transaction s.txn_manager ≡ true)
        → for_code code ≡ no_error
    confirmed full (inl c) = c
    confirmed full (inr empty) = cc
