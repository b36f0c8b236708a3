-- ===== src/Producer/TransactionManager/Traces.antt =====
-- What the producer and its sender do to a transaction manager, as a step relation: every method, in
-- any order in which the sender may call it.
use aiokafka.Base.{
  ℕ, String, true, false, ◌≡◌, ◌⊎◌, inl, inr, refl, arith, ℤ, Exception, Option, Option-cases,
}
use aiokafka.Base.{List, [], ◌∷◌, none}
use aiokafka.Base.Sets
use aiokafka.Base.Futures.{write, failed}
use aiokafka.Base.Keys.{TopicPartition, tp_eq}
use aiokafka.Producer.TransactionManager.{
  abortable_error, PendingOffsets, fail_offsets, drop_transaction, TransactionState,
  TransactionManager, Offsets, init, is_transition_valid, notify, renew_waiter,
}
use aiokafka.Producer.TransactionManager.{
  set_pid_and_epoch, increment_sequence_number, notify_task_waiter, begin_transaction,
  committing_transaction, aborting_transaction, complete_transaction, error_transaction,
  fatal_error, maybe_add_partition_to_txn, add_partition, add_offsets_to_txn, partition_added,
  consumer_group_added, offset_committed, commit_first, make_task_waiter,
}
use aiokafka.Producer.TransactionManager.Invariant.{IsValid, is_open, is_idle, is_started}
use aiokafka.Producer.TransactionManager.Invariant.Moves.{
  notify_task_waiter_ok, set_pid_and_epoch-IsValid, increment_sequence_number-IsValid,
  notify_task_waiter-IsValid, begin_transaction-IsValid, committing_transaction-IsValid,
  aborting_transaction-IsValid, complete_transaction-IsValid, maybe_add_partition_to_txn-IsValid,
  partition_added-IsValid, consumer_group_added-IsValid, make_task_waiter-IsValid, init-IsValid,
}
use aiokafka.Producer.TransactionManager.Invariant.Failures.{
  error_transaction-IsValid, fatal_error-IsValid,
}
use aiokafka.Producer.TransactionManager.Invariant.Offsets.{
  queued, add_offsets_to_txn-IsValid, offset_committed-IsValid,
}

-- The sender completes a transaction only in answer to the request that ends it, fails one only while
-- it is open, and hears of an added group only after a transaction was begun. All else is unguarded:
-- a method that is called out of turn raises.
pub data Step (s : TransactionManager) : TransactionManager → Type 0 where
  pid_and_epoch : (pid epoch : ℤ) → Step s (set_pid_and_epoch pid epoch s).1
  sent : (tp : TopicPartition) (n : ℤ) → Step s (increment_sequence_number tp n s).1
  notified : Step s (notify_task_waiter s).1
  begun : Step s (begin_transaction s).1
  committing : Step s (committing_transaction s).1
  aborting : Step s (aborting_transaction s).1
  completed : is_started s.state ≡ true → Step s (complete_transaction s).1
  failed_with : (exc : Exception) → is_open s.state ≡ true → Step s (error_transaction exc s).1
  fatal : (exc : Exception) → Step s (fatal_error exc s).1
  partition_wanted : (tp : TopicPartition) → Step s (maybe_add_partition_to_txn tp s).1
  offsets_wanted : (o : Offsets) (g : String) → Step s (add_offsets_to_txn o g s).1
  partition_there : (tp : TopicPartition) → Step s (partition_added tp s).1
  group_there : (g : String) → is_idle s.state ≡ false → Step s (consumer_group_added g s).1
  offset_there :
      (tp : TopicPartition) (offset : ℕ) (g : String) → Step s (offset_committed tp offset g s).1
  task_waits : Step s (make_task_waiter s).1

pub data Reach (id : Option String) : TransactionManager → Type 0 where
  start : Reach id (init id)
  next : {s t : TransactionManager} → Reach id s → Step s t → Reach id t

pub Step-IsValid : {s t : TransactionManager} → IsValid s → Step s t → IsValid t
Step-IsValid v (pid_and_epoch pid epoch) = set_pid_and_epoch-IsValid pid epoch _ v
Step-IsValid v (sent tp n) = increment_sequence_number-IsValid tp n _ v
Step-IsValid v notified = notify_task_waiter-IsValid _ v
Step-IsValid v begun = begin_transaction-IsValid _ v
Step-IsValid v committing = committing_transaction-IsValid _ v
Step-IsValid v aborting = aborting_transaction-IsValid _ v
Step-IsValid v (completed h) = complete_transaction-IsValid _ h v
Step-IsValid v (failed_with exc h) = error_transaction-IsValid exc _ h v
Step-IsValid v (fatal exc) = fatal_error-IsValid exc _ v
Step-IsValid v (partition_wanted tp) = maybe_add_partition_to_txn-IsValid tp _ v
Step-IsValid v (offsets_wanted o g) = add_offsets_to_txn-IsValid o g _ v
Step-IsValid v (partition_there tp) = partition_added-IsValid tp _ v
Step-IsValid v (group_there g h) = consumer_group_added-IsValid g _ h v
Step-IsValid v (offset_there tp offset g) = offset_committed-IsValid tp offset g _ v
Step-IsValid v task_waits = make_task_waiter-IsValid _ v

-- Whatever the producer and the sender do, in any order, a transaction that is open has a pending
-- waiter, one that must be aborted a failed waiter, queued offsets have pending futures of their own,
-- and between transactions nothing is left of the last one.
pub Reach-IsValid : (id : Option String) {s : TransactionManager} → Reach id s → IsValid s
Reach-IsValid id start = init-IsValid id
Reach-IsValid id (next r st) = Step-IsValid (Reach-IsValid id r) st

abbrev Moves : TransactionManager → TransactionManager → Type 0
Moves s t = (t.state ≡ s.state) ⊎ (is_transition_valid s.state t.state ≡ true)

notify-state : (o : Option ℕ) (s : TransactionManager) → (notify o s).1.state ≡ s.state
unfolding notify
notify-state o s = ground arith

notify_task_waiter-state : (s : TransactionManager) → (notify_task_waiter s).1.state ≡ s.state
unfolding notify_task_waiter
notify_task_waiter-state s = notify-state s.task_waiter s

renew_waiter-state : (w : ℕ) (s : TransactionManager) → (renew_waiter w s).1.state ≡ s.state
unfolding renew_waiter
renew_waiter-state w s = ground arith

fail_offsets-state :
    (exc : Exception) (l : List PendingOffsets) (s : TransactionManager)
    → (fail_offsets exc l s).1.state ≡ s.state
unfolding fail_offsets
fail_offsets-state exc [] s = refl
fail_offsets-state exc (p ∷ l) s =
    ground
      (arith, fail_offsets-state exc l (record s { futures = write s.futures p.fut (failed exc) }))

drop_transaction-state :
    (exc : Exception) (s : TransactionManager) → (drop_transaction exc s).1.state ≡ s.state
unfolding drop_transaction
drop_transaction-state exc s = ground (
  arith,
  fail_offsets-state exc s.pending_txn_offsets
      (record s { txn_partitions = []; pending_txn_partitions = []; txn_consumer_group = none }),
)

module _ (s : TransactionManager) where
  begin_transaction-Moves : Moves s (begin_transaction s).1
  unfolding begin_transaction
  begin_transaction-Moves = ground arith

  set_pid_and_epoch-Moves : (pid epoch : ℤ) → Moves s (set_pid_and_epoch pid epoch s).1
  unfolding set_pid_and_epoch
  set_pid_and_epoch-Moves pid epoch = ground arith

  committing_transaction-Moves : Moves s (committing_transaction s).1
  unfolding committing_transaction
  committing_transaction-Moves = ground (
    arith,
    notify_task_waiter-state (record s { state = TransactionState.committing_transaction }),
  )

  complete_transaction-Moves : Moves s (complete_transaction s).1
  unfolding complete_transaction
  complete_transaction-Moves = ground arith

  aborting_to : TransactionManager
  aborting_to = record s { state = TransactionState.aborting_transaction }

  aborting_transaction-Moves : Moves s (aborting_transaction s).1
  unfolding aborting_transaction aborting_to
  aborting_transaction-Moves = elim (Option-cases s.transaction_waiter) [
    | inl e ↦ ground arith
    | inr (w, e) ↦ ground (
      arith,
      renew_waiter-state w aborting_to,
      notify_task_waiter-state (renew_waiter w aborting_to).1,
    )
  ]

  error_transaction-Moves : (exc : Exception) → Moves s (error_transaction exc s).1
  unfolding error_transaction
  error_transaction-Moves exc =
      ground (arith, drop_transaction-state exc (record s { state = abortable_error }))

  maybe_add_partition_to_txn-Moves :
      (tp : TopicPartition) → Moves s (maybe_add_partition_to_txn tp s).1
  unfolding maybe_add_partition_to_txn add_partition
  maybe_add_partition_to_txn-Moves tp = ground (
    arith,
    notify_task_waiter-state
        (record s { pending_txn_partitions = Sets.add s.pending_txn_partitions tp }),
  )

  offset_committed-Moves :
      (tp : TopicPartition) (offset : ℕ) (g : String) → Moves s (offset_committed tp offset g s).1
  unfolding offset_committed commit_first
  offset_committed-Moves tp offset g = ground arith

  partition_added-Moves : (tp : TopicPartition) → Moves s (partition_added tp s).1
  unfolding partition_added
  partition_added-Moves tp = ground arith

  add_offsets_to_txn-Moves : (o : Offsets) (g : String) → Moves s (add_offsets_to_txn o g s).1
  unfolding add_offsets_to_txn
  add_offsets_to_txn-Moves o g =
      ground (arith, notify_task_waiter_ok (queued o g s), notify_task_waiter-state (queued o g s))

  fatal_to : Exception → TransactionManager
  fatal_to exc = (drop_transaction exc (record s { state = TransactionState.fatal_error })).1

  fatal_error-Moves : (exc : Exception) → Moves s (fatal_error exc s).1
  unfolding fatal_error fatal_to
  fatal_error-Moves exc = elim (Option-cases (fatal_to exc).transaction_waiter) [
    | inl e ↦
        ground
          (arith, drop_transaction-state exc (record s { state = TransactionState.fatal_error }))
    | inr (w, e) ↦ ground (
      arith,
      drop_transaction-state exc (record s { state = TransactionState.fatal_error }),
      renew_waiter-state w (fatal_to exc),
    )
  ]

-- Every step leaves the state alone or takes a transition of the table, also a step that raises.
pub Step-transition :
    {s t : TransactionManager}
    → Step s t
    → (t.state ≡ s.state) ⊎ (is_transition_valid s.state t.state ≡ true)
Step-transition {s} (pid_and_epoch pid epoch) = set_pid_and_epoch-Moves s pid epoch
Step-transition (sent tp n) = unfold increment_sequence_number in inl refl
Step-transition {s} notified = inl (notify_task_waiter-state s)
Step-transition {s} begun = begin_transaction-Moves s
Step-transition {s} committing = committing_transaction-Moves s
Step-transition {s} aborting = aborting_transaction-Moves s
Step-transition {s} (completed h) = complete_transaction-Moves s
Step-transition {s} (failed_with exc h) = error_transaction-Moves s exc
Step-transition {s} (fatal exc) = fatal_error-Moves s exc
Step-transition {s} (partition_wanted tp) = maybe_add_partition_to_txn-Moves s tp
Step-transition {s} (offsets_wanted o g) = add_offsets_to_txn-Moves s o g
Step-transition {s} (partition_there tp) = partition_added-Moves s tp
Step-transition (group_there g h) = unfold consumer_group_added in inl refl
Step-transition {s} (offset_there tp offset g) = offset_committed-Moves s tp offset g
Step-transition task_waits = unfold make_task_waiter in inl refl
