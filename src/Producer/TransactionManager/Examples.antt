-- ===== src/Producer/TransactionManager/Examples.antt =====
-- A run of the transaction manager, and the theorems at its states.
use aiokafka.Base.{
  ◌≡◌, ◌≢◌, ◌⊎◌, refl, arith, true, false, some, inl, [], ◌∷◌, ok, err, ℤ, pos, other, not, ◌&&◌,
  ◌||◌, ◌+ℤ◌, ◌-ℤ◌, ◌^◌, ◌-◌, key_error, attribute_error, assertion_error,
}
use aiokafka.Base.Futures.{pending, resolved, failed}
use aiokafka.Base.Keys.{TopicPartition, tp_eq, string_eq, ◌==◌}
use aiokafka.Base.Dict
use aiokafka.Producer.TransactionManager.{
  TransactionState, TransactionManager, PendingOffsets, Offsets, ready, abortable_error, init,
  is_transition_valid,
}
use aiokafka.Producer.TransactionManager.{
  set_pid_and_epoch, begin_transaction, committing_transaction, complete_transaction,
  error_transaction, fatal_error, add_offsets_to_txn, maybe_add_partition_to_txn, partition_added,
  offset_committed, is_empty_transaction, notify, notify_task_waiter, sequence_number,
  increment_sequence_number, holds_offset,
}
use aiokafka.Producer.TransactionManager.Invariant.{IsValid, Holds}
use aiokafka.Producer.TransactionManager.Invariant.Failures.{Failed}
use aiokafka.Producer.TransactionManager.Traces.{
  Step, Reach, start, next, pid_and_epoch, begun, offsets_wanted, Reach-IsValid, Step-transition,
}
use aiokafka.Producer.TransactionManager.Outcomes.{
  complete_transaction_lem, error_transaction_fails, fatal_error_fails, fatal_error_raises,
}
use aiokafka.Producer.TransactionManager.Sequence.{IsInt32, increment_sequence_number_wraps}
use aiokafka.Producer.TransactionManager.Partitions.{
  is_pending, is_added, partition_added_moves, maybe_add_partition_to_txn_waits,
  offset_committed_lem,
}

abbrev tp0 : TopicPartition
tp0 = record { topic = "a"; partition = 0 }

abbrev offsets : Offsets
offsets = (tp0, 5) ∷ []

abbrev started : TransactionManager
started = (set_pid_and_epoch (pos 7) (pos 0) (init (some "t"))).1

abbrev opened : TransactionManager
opened = (begin_transaction started).1

abbrev queued : TransactionManager
queued = (add_offsets_to_txn offsets "g" opened).1

abbrev broken : TransactionManager
broken = (error_transaction (other 3) queued).1

Reach-started : Reach (some "t") started
Reach-started = next start (pid_and_epoch (pos 7) (pos 0))

Reach-opened : Reach (some "t") opened
Reach-opened = next Reach-started begun

Reach-queued : Reach (some "t") queued
Reach-queued = next Reach-opened (offsets_wanted offsets "g")

Reach-IsValid_example : IsValid queued
Reach-IsValid_example = Reach-IsValid (some "t") Reach-queued

Step-transition_example :
    (opened.state ≡ started.state) ⊎ (is_transition_valid started.state opened.state ≡ true)
Step-transition_example = Step-transition begun

error_transaction_fails_example :
    ((error_transaction (other 3) queued).0 ≡ ok tt)
    × (broken.state ≡ abortable_error)
    × (broken.transaction_waiter ≡ some 1)
    × (broken.futures.at 1 ≡ failed (other 3))
    × Failed broken.futures (other 3) queued.pending_txn_offsets
    × (is_empty_transaction broken ≡ true)
    × (broken.pending_txn_partitions ≡ [])
    × (broken.pending_txn_offsets ≡ [])
unfolding init set_pid_and_epoch begin_transaction add_offsets_to_txn notify_task_waiter notify
error_transaction_fails_example =
    error_transaction_fails (other 3) queued 1 Reach-IsValid_example refl refl

abbrev committing : TransactionManager
committing = (committing_transaction opened).1

Reach-committing : Reach (some "t") committing
Reach-committing = next Reach-opened Step.committing

complete_transaction_lem_example :
    (committing.pending_txn_partitions ≡ []
      → committing.pending_txn_offsets ≡ []
      → ((complete_transaction committing).0 ≡ ok tt)
        × ((complete_transaction committing).1.state ≡ ready)
        × ((complete_transaction committing).1.futures.at 1 ≡ resolved tt)
        × (is_empty_transaction (complete_transaction committing).1 ≡ true))
    × ((committing.pending_txn_partitions ≢ []) ⊎ (committing.pending_txn_offsets ≢ [])
        → complete_transaction committing ≡ (err assertion_error, committing))
unfolding init set_pid_and_epoch begin_transaction committing_transaction notify_task_waiter notify
complete_transaction_lem_example =
    complete_transaction_lem committing 1 (Reach-IsValid (some "t") Reach-committing) refl
      (inl refl)

fatal_error_fails_example :
    ((fatal_error (other 4) queued).0 ≡ ok tt)
    × ((fatal_error (other 4) queued).1.state ≡ TransactionState.fatal_error)
    × Holds
        (fatal_error (other 4) queued).1.futures
        (λ f. f ≡ failed (other 4))
        (fatal_error (other 4) queued).1.transaction_waiter
    × Failed (fatal_error (other 4) queued).1.futures (other 4) queued.pending_txn_offsets
    × (is_empty_transaction (fatal_error (other 4) queued).1 ≡ true)
    × ((fatal_error (other 4) queued).1.pending_txn_partitions ≡ [])
    × ((fatal_error (other 4) queued).1.pending_txn_offsets ≡ [])
unfolding init set_pid_and_epoch begin_transaction add_offsets_to_txn notify_task_waiter notify
fatal_error_fails_example = fatal_error_fails (other 4) queued 1 Reach-IsValid_example refl

fatal_error_raises_example :
    ((fatal_error (other 4) started).0 ≡ err attribute_error)
    × ((fatal_error (other 4) started).1.state ≡ TransactionState.fatal_error)
unfolding init set_pid_and_epoch
fatal_error_raises_example =
    fatal_error_raises (other 4) started (Reach-IsValid (some "t") Reach-started) refl

-- A number at its greatest value goes on from the least one.
abbrev late : TransactionManager
late = record started { sequence_numbers = (tp0, pos (2 ^ 31 - 1)) ∷ [] }

increment_sequence_number_wraps_example :
    let after : TopicPartition → ℤ =
      sequence_number (increment_sequence_number tp0 (pos 1) late).1 in
    IsInt32 (after tp0)
    × ((after tp0 ≡ sequence_number late tp0 +ℤ pos 1)
        ⊎ (after tp0 ≡ sequence_number late tp0 +ℤ pos 1 -ℤ pos (2 ^ 32)))
    × ((j : TopicPartition) → j ≢ tp0 → after j ≡ sequence_number late j)
unfolding sequence_number Dict.get
increment_sequence_number_wraps_example =
    increment_sequence_number_wraps tp0 1 late (omega arith) (omega arith)

abbrev waiting : TransactionManager
waiting = (maybe_add_partition_to_txn tp0 opened).1

partition_added_moves_example :
    (is_pending waiting tp0 ≡ true
      → ((partition_added tp0 waiting).0 ≡ ok tt)
        × ((j : TopicPartition)
            → is_pending (partition_added tp0 waiting).1 j
              ≡ (not (tp0 == j) && is_pending waiting j))
        × ((j : TopicPartition)
            → is_added (partition_added tp0 waiting).1 j ≡ (tp0 == j || is_added waiting j)))
    × (is_pending waiting tp0 ≡ false → partition_added tp0 waiting ≡ (err key_error, waiting))
partition_added_moves_example = partition_added_moves tp0 waiting

maybe_add_partition_to_txn_waits_example :
    ((maybe_add_partition_to_txn tp0 opened).0 ≡ ok tt)
    × (waiting.txn_partitions ≡ opened.txn_partitions)
    × ((j : TopicPartition)
        → is_pending waiting j ≡ (tp0 == j && not (is_added opened tp0) || is_pending opened j))
unfolding init set_pid_and_epoch begin_transaction
maybe_add_partition_to_txn_waits_example = maybe_add_partition_to_txn_waits tp0 "t" opened refl refl

abbrev head : PendingOffsets
head = record { group_id = "g"; offsets = offsets; fut = 2 }

offset_committed_lem_example :
    ((head.group_id == "g" && holds_offset (Dict.get head.offsets tp0) 5) ≡ true
      → ((offset_committed tp0 5 "g" queued).0 ≡ ok tt)
        × (Dict.remove head.offsets tp0 ≢ []
            → ((offset_committed tp0 5 "g" queued).1.pending_txn_offsets
                ≡ record head { offsets = Dict.remove head.offsets tp0 } ∷ [])
              × ((offset_committed tp0 5 "g" queued).1.futures.at head.fut ≡ pending))
        × (Dict.remove head.offsets tp0 ≡ []
            → ((offset_committed tp0 5 "g" queued).1.pending_txn_offsets ≡ [])
              × ((offset_committed tp0 5 "g" queued).1.futures.at head.fut ≡ resolved tt)))
    × ((head.group_id == "g" && holds_offset (Dict.get head.offsets tp0) 5) ≡ false
        → offset_committed tp0 5 "g" queued ≡ (err assertion_error, queued))
unfolding init set_pid_and_epoch begin_transaction add_offsets_to_txn notify_task_waiter notify
offset_committed_lem_example =
    offset_committed_lem tp0 5 "g" head [] queued Reach-IsValid_example refl
