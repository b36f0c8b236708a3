-- ===== src/Producer/TransactionManager/Outcomes.antt =====
-- What each method that moves the state machine does to a valid manager, errors included.
use aiokafka.Base.{
  All-map, ℕ, String, true, none, some, [], ◌≡◌, refl, arith, Exception, ok, err, assertion_error,
  attribute_error, ◌⊎◌, inl, inr, ◌≢◌,
}
use aiokafka.Base.Futures.{pending, resolved, failed}
use aiokafka.Base.Keys.{TopicPartition}
use aiokafka.Producer.TransactionManager.{
  TransactionState, TransactionManager, ready, in_transaction, abortable_error,
}
use aiokafka.Producer.TransactionManager.{
  begin_transaction, committing_transaction, complete_transaction, resolve_waiter, fatal_error,
  partition_added, offset_committed, commit_first, error_transaction, is_empty_transaction,
}
use aiokafka.Producer.TransactionManager.Invariant.{IsValid, is_open, Holds}
use aiokafka.Producer.TransactionManager.Invariant.Failures.{
  error_transaction_lem, fatal_error_pending, fatal_error_ended, fatal_error_unstarted,
  pending-or-done, Failed-write, Failed, fail_all-Failed, fail_all, next-fail_all,
}

-- From `ready` a transaction begins empty, with a new pending waiter; from any other state
-- `begin_transaction` raises and changes nothing.
pub begin_transaction_fresh :
    (s : TransactionManager)
    → IsValid s
    → (s.state ≡ ready
        → ((begin_transaction s).0 ≡ ok tt)
          × ((begin_transaction s).1.state ≡ in_transaction)
          × ((begin_transaction s).1.transaction_waiter ≡ some s.futures.next)
          × ((begin_transaction s).1.futures.at s.futures.next ≡ pending)
          × (is_empty_transaction (begin_transaction s).1 ≡ true)
          × ((begin_transaction s).1.pending_txn_partitions ≡ [])
          × ((begin_transaction s).1.pending_txn_offsets ≡ []))
      × (s.state ≢ ready → begin_transaction s ≡ (err assertion_error, s))
unfolding begin_transaction is_empty_transaction
begin_transaction_fresh s v = (λ e. ground arith, λ e. ground arith)

-- A commit after an abortable error raises the exception of that error, and one from any state but
-- an open transaction's raises too; neither changes anything.
pub committing_transaction_refused :
    (s : TransactionManager) (w : ℕ) (exc : Exception)
    → s.transaction_waiter ≡ some w
    → s.futures.at w ≡ failed exc
    → s.state ≡ abortable_error
    → committing_transaction s ≡ (err exc, s)
unfolding committing_transaction
committing_transaction_refused s w exc e f a = rw (a, e, f)

-- With nothing pending, a commit or an abort that the coordinator confirmed completes: the waiter
-- resolves and the transaction is cleared. With a partition or offsets still pending the call raises
-- and changes nothing.
pub complete_transaction_lem :
    (s : TransactionManager) (w : ℕ)
    → IsValid s
    → s.transaction_waiter ≡ some w
    → (s.state ≡ TransactionState.committing_transaction)
      ⊎ (s.state ≡ TransactionState.aborting_transaction)
    → (s.pending_txn_partitions ≡ []
        → s.pending_txn_offsets ≡ []
        → ((complete_transaction s).0 ≡ ok tt)
          × ((complete_transaction s).1.state ≡ ready)
          × ((complete_transaction s).1.futures.at w ≡ resolved tt)
          × (is_empty_transaction (complete_transaction s).1 ≡ true))
      × ((s.pending_txn_partitions ≢ []) ⊎ (s.pending_txn_offsets ≢ [])
          → complete_transaction s ≡ (err assertion_error, s))
unfolding complete_transaction is_empty_transaction resolve_waiter
complete_transaction_lem s w v e h = (λ p o. ground arith, λ n. ground arith)

-- An error in an open transaction fails its waiter and every queued future with the exception, and
-- leaves nothing of the transaction but the need to abort it. It never raises.
pub error_transaction_fails :
    (exc : Exception) (s : TransactionManager) (w : ℕ)
    → IsValid s
    → s.transaction_waiter ≡ some w
    → is_open s.state ≡ true
    → ((error_transaction exc s).0 ≡ ok tt)
      × ((error_transaction exc s).1.state ≡ abortable_error)
      × ((error_transaction exc s).1.transaction_waiter ≡ some w)
      × ((error_transaction exc s).1.futures.at w ≡ failed exc)
      × Failed (error_transaction exc s).1.futures exc s.pending_txn_offsets
      × (is_empty_transaction (error_transaction exc s).1 ≡ true)
      × ((error_transaction exc s).1.pending_txn_partitions ≡ [])
      × ((error_transaction exc s).1.pending_txn_offsets ≡ [])
unfolding is_empty_transaction
error_transaction_fails exc s w v e h =
    let p : s.futures.at w ≡ pending = ground arith in
    rw (error_transaction_lem exc w s v e p) (
      refl,
      refl,
      e,
      ground arith,
      Failed-write (fail_all s.futures exc s.pending_txn_offsets) exc s.pending_txn_offsets w
          (fail_all-Failed s.futures exc s.pending_txn_offsets v.queue),
      refl,
      refl,
      refl,
    )

-- Once a transaction was begun, a fatal error never raises, whatever became of the waiter: the waiter
-- that clients are given from then on has failed with the exception, as have the queued futures.
pub fatal_error_fails :
    (exc : Exception) (s : TransactionManager) (w : ℕ)
    → IsValid s
    → s.transaction_waiter ≡ some w
    → ((fatal_error exc s).0 ≡ ok tt)
      × ((fatal_error exc s).1.state ≡ TransactionState.fatal_error)
      × Holds
          (fatal_error exc s).1.futures
          (λ f. f ≡ failed exc)
          (fatal_error exc s).1.transaction_waiter
      × Failed (fatal_error exc s).1.futures exc s.pending_txn_offsets
      × (is_empty_transaction (fatal_error exc s).1 ≡ true)
      × ((fatal_error exc s).1.pending_txn_partitions ≡ [])
      × ((fatal_error exc s).1.pending_txn_offsets ≡ [])
unfolding is_empty_transaction
fatal_error_fails exc s w v e = elim (pending-or-done (s.futures.at w)) [
  | inl p ↦ rw (fatal_error_pending exc w s v e p) (
    refl,
    refl,
    rw e (ground arith),
    Failed-write (fail_all s.futures exc s.pending_txn_offsets) exc s.pending_txn_offsets w
        (fail_all-Failed s.futures exc s.pending_txn_offsets v.queue),
    refl,
    refl,
    refl,
  )
  | inr d ↦ rw (fatal_error_ended exc w s v e d) (
    refl,
    refl,
    ground (arith, next-fail_all s.futures exc s.pending_txn_offsets),
    All-map _ _ (λ p a. ground (arith, next-fail_all s.futures exc s.pending_txn_offsets))
        s.pending_txn_offsets (fail_all-Failed s.futures exc s.pending_txn_offsets v.queue),
    refl,
    refl,
    refl,
  )
]

-- Before the first transaction there is no waiter to fail: `fatal_error` raises AttributeError after
-- it has moved the manager to its fatal state.
pub fatal_error_raises :
    (exc : Exception) (s : TransactionManager)
    → IsValid s
    → s.transaction_waiter ≡ none
    → ((fatal_error exc s).0 ≡ err attribute_error)
      × ((fatal_error exc s).1.state ≡ TransactionState.fatal_error)
fatal_error_raises exc s v e = rw (fatal_error_unstarted exc s v.queue e) (refl, refl)

-- What the coordinator confirmed of the partitions and offsets leaves the state alone.
pub partition_added-state :
    (tp : TopicPartition) (s : TransactionManager) → (partition_added tp s).1.state ≡ s.state
unfolding partition_added
partition_added-state tp s = ground arith

pub offset_committed-state :
    (tp : TopicPartition) (offset : ℕ) (g : String) (s : TransactionManager)
    → (offset_committed tp offset g s).1.state ≡ s.state
unfolding offset_committed commit_first
offset_committed-state tp offset g s = ground arith
