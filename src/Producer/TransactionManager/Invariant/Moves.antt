-- ===== src/Producer/TransactionManager/Invariant/Moves.antt =====
-- The methods that begin, commit, abort and complete a transaction keep the invariant, and so do
-- those that add partitions.
use aiokafka.Base.{ℕ, String, true, false, Option, none, some, List}
use aiokafka.Base.{◌⊎◌, inl, inr, sym, Bool-cases, ◌≡◌, ◌≢◌, refl, arith, ℤ, ok}
use aiokafka.Base.Futures.{resolved}
use aiokafka.Base.Keys.{TopicPartition}
use aiokafka.Producer.TransactionManager.{TransactionState, TransactionManager}
use aiokafka.Producer.TransactionManager.{in_transaction}
use aiokafka.Producer.TransactionManager.{
  notify, is_in_transaction, aborting_transaction, renew_waiter, add_partition,
  maybe_add_partition_to_txn, consumer_group_added, is_transition_valid, state_discrete,
  begin_transaction, set_pid_and_epoch, notify_task_waiter, init, committing_transaction,
  complete_transaction, partition_added, increment_sequence_number, make_task_waiter,
}
use aiokafka.Base.Sets
use mathlib.Core.Path.{subst}
use aiokafka.Base.Keys.{tp_eq}
use aiokafka.Producer.TransactionManager.Invariant.{
  is_open, is_idle, is_started, IsValid, IsQueue-alloc, queue-below, write-IsValid,
}

pub begin_transaction-IsValid :
    (s : TransactionManager) → IsValid s → IsValid (begin_transaction s).1
unfolding begin_transaction
begin_transaction-IsValid s v = ground arith

pub set_pid_and_epoch-IsValid :
    (pid epoch : ℤ) (s : TransactionManager) → IsValid s → IsValid (set_pid_and_epoch pid epoch s).1
unfolding set_pid_and_epoch
set_pid_and_epoch-IsValid pid epoch s v =
    ground (arith, write-IsValid s s.pid_waiter (resolved tt) v v.pid_apart v.queue_pid)

notify-IsValid :
    (o : Option ℕ) (s : TransactionManager) → s.task_waiter ≡ o → IsValid s → IsValid (notify o s).1
unfolding notify
notify-IsValid none s e v = v
notify-IsValid (some w) s e v = ground (arith, write-IsValid s w (resolved tt) v)

pub notify_task_waiter-IsValid :
    (s : TransactionManager) → IsValid s → IsValid (notify_task_waiter s).1
unfolding notify_task_waiter
notify_task_waiter-IsValid s v = notify-IsValid s.task_waiter s refl v

notify_ok : (o : Option ℕ) (s : TransactionManager) → (notify o s).0 ≡ ok tt
unfolding notify
notify_ok o s = ground arith

pub notify_task_waiter_ok : (s : TransactionManager) → (notify_task_waiter s).0 ≡ ok tt
unfolding notify_task_waiter
notify_task_waiter_ok s = notify_ok s.task_waiter s

pub init-IsValid : (id : Option String) → IsValid (init id)
unfolding init
init-IsValid id = ground arith

-- From any other state committing changes nothing.
pub committing_refused :
    (s : TransactionManager) → s.state ≢ in_transaction → (committing_transaction s).1 ≡ s
unfolding committing_transaction
committing_refused s e = ground arith

pub committing_opens :
    (s : TransactionManager)
    → s.state ≡ in_transaction
    → committing_transaction s
      ≡ notify_task_waiter (record s { state = TransactionState.committing_transaction })
unfolding committing_transaction
committing_opens s e = rw e

open-IsValid :
    (s : TransactionManager) (target : TransactionState)
    → is_open s.state ≡ true
    → is_open target ≡ true
    → IsValid s
    → IsValid (record s { state = target })
open-IsValid s target e e' v = ground arith

pub State-cases :
    (state : TransactionState) (target : TransactionState) → (state ≡ target) ⊎ (state ≢ target)
State-cases state target = elim (state_discrete state target) [ yes e ↦ inl e | no e ↦ inr e ]

pub committing_transaction-IsValid :
    (s : TransactionManager) → IsValid s → IsValid (committing_transaction s).1
committing_transaction-IsValid s v = elim (State-cases s.state in_transaction) [
  | inl e ↦
      rw (committing_opens s e) (notify_task_waiter-IsValid _ (open-IsValid s _ (rw e) refl v))
  | inr e ↦ subst IsValid (sym (committing_refused s e)) v
]

pub complete_transaction-IsValid :
    (s : TransactionManager)
    → is_started s.state ≡ true
    → IsValid s
    → IsValid (complete_transaction s).1
unfolding complete_transaction
complete_transaction-IsValid s h v = ground arith

pub partition_added-IsValid :
    (tp : TopicPartition) (s : TransactionManager) → IsValid s → IsValid (partition_added tp s).1
unfolding partition_added Sets.contains
partition_added-IsValid tp s v = ground arith

pub increment_sequence_number-IsValid :
    (tp : TopicPartition) (n : ℤ) (s : TransactionManager)
    → IsValid s
    → IsValid (increment_sequence_number tp n s).1
unfolding increment_sequence_number
increment_sequence_number-IsValid tp n s v = ground arith

pub make_task_waiter-IsValid : (s : TransactionManager) → IsValid s → IsValid (make_task_waiter s).1
unfolding make_task_waiter
make_task_waiter-IsValid s v = ground (
  arith,
  IsQueue-alloc s.futures s.pending_txn_offsets,
  queue-below s.futures s.pending_txn_offsets,
)

pub consumer_group_added-IsValid :
    (g : String) (s : TransactionManager)
    → is_idle s.state ≡ false
    → IsValid s
    → IsValid (consumer_group_added g s).1
unfolding consumer_group_added
consumer_group_added-IsValid g s h v = ground arith

aborting_refused :
    (s : TransactionManager)
    → is_transition_valid s.state TransactionState.aborting_transaction ≡ false
    → (aborting_transaction s).1 ≡ s
unfolding aborting_transaction
aborting_refused s e = ground arith

-- The manager after the waiter was renewed, before the sender is notified.
renewed-IsValid :
    (s : TransactionManager) (w : ℕ)
    → s.transaction_waiter ≡ some w
    → is_transition_valid s.state TransactionState.aborting_transaction ≡ true
    → IsValid s
    → IsValid (renew_waiter w (record s { state = TransactionState.aborting_transaction })).1
unfolding renew_waiter
renewed-IsValid s w e t v = ground (
  arith,
  IsQueue-alloc s.futures s.pending_txn_offsets,
  queue-below s.futures s.pending_txn_offsets,
)

pending-IsValid :
    (s : TransactionManager) (l : List TopicPartition)
    → is_in_transaction s.state ≡ true
    → IsValid s
    → IsValid (record s { pending_txn_partitions = l })
pending-IsValid s l e v = ground arith

add_partition-IsValid :
    (tp : TopicPartition) (o : Option String) (s : TransactionManager)
    → IsValid s
    → IsValid (add_partition tp o s).1
unfolding add_partition
add_partition-IsValid tp none s v = v
add_partition-IsValid tp (some id) s v = elim (Bool-cases (is_in_transaction s.state)) [
  | inl e ↦ elim (Bool-cases (Sets.contains s.txn_partitions tp)) [
    | inl known ↦ rw (e, known) v
    | inr new ↦ rw (e, new) (notify_task_waiter-IsValid _ (pending-IsValid s _ e v))
  ]
  | inr e ↦ rw e v
]

pub maybe_add_partition_to_txn-IsValid :
    (tp : TopicPartition) (s : TransactionManager)
    → IsValid s
    → IsValid (maybe_add_partition_to_txn tp s).1
unfolding maybe_add_partition_to_txn
maybe_add_partition_to_txn-IsValid tp s v = add_partition-IsValid tp s.transactional_id s v

renew_waiter_ok : (w : ℕ) (s : TransactionManager) → (renew_waiter w s).0 ≡ ok tt
unfolding renew_waiter
renew_waiter_ok w s = ground arith

-- A transaction that can be aborted has a waiter.
abortable-waiter :
    (s : TransactionManager)
    → is_transition_valid s.state TransactionState.aborting_transaction ≡ true
    → IsValid s
    → (w : ℕ) × (s.transaction_waiter ≡ some w)
abortable-waiter s t v = ground arith

pub aborting_opens :
    (s : TransactionManager) (w : ℕ)
    → s.transaction_waiter ≡ some w
    → is_transition_valid s.state TransactionState.aborting_transaction ≡ true
    → aborting_transaction s
      ≡ notify_task_waiter
          (renew_waiter w (record s { state = TransactionState.aborting_transaction })).1
unfolding aborting_transaction
aborting_opens s w e t = rw (t, e, renew_waiter_ok)

pub aborting_transaction-IsValid :
    (s : TransactionManager) → IsValid s → IsValid (aborting_transaction s).1
aborting_transaction-IsValid s v =
    elim (Bool-cases (is_transition_valid s.state TransactionState.aborting_transaction)) [
      | inl t ↦
          let (w, e) = abortable-waiter s t v in
          rw (aborting_opens s w e t) (notify_task_waiter-IsValid _ (renewed-IsValid s w e t v))
      | inr t ↦ subst IsValid (sym (aborting_refused s t)) v
    ]
