-- ===== src/Producer/TransactionManager.antt =====
-- aiokafka/producer/transaction_manager.py: the state machine of a transactional producer. A method
-- is an action of `Exec TransactionManager`; a future is a number on the heap of the manager.
pub mod State
pub mod Invariant
pub mod Traces
pub mod Outcomes
pub mod Sequence
pub mod Partitions
mod Examples
pub use State.{TransactionState, TransactionResult, uninitialized, ready, in_transaction}
pub use State.{abortable_error, abort, commit, is_transition_valid, state_discrete}
use aiokafka.Base.{ℕ, ◌+◌, ◌-◌, ◌*◌, ◌^◌, String, Bool, true, false, not, Option, none, some}
use aiokafka.Base.{
  List, [], ◌∷◌, ◌++◌, ◌&&◌, ltb, if◌then◌else◌, ℤ, pos, negsuc, ◌+ℤ◌, ◌-ℤ◌, ltb_ℤ, eqb_ℤ,
}
use aiokafka.Base.{
  Exception, Result, ok, err, Exec, pure, raise, gets, modify, assert, continue, ◌>>=◌, ◌>>◌,
}
use aiokafka.Base.{key_error, index_error, attribute_error, invalid_state_error, cancelled_error}
use aiokafka.Base.Futures.{Future, Heap, pending, resolved, failed, cancelled, done, alloc, settle}
use aiokafka.Base.Futures
use aiokafka.Base.Keys.{TopicPartition, tp_eq, string_eq, nat_eq, ◌==◌}
use aiokafka.Base.Dict
use aiokafka.Base.Dict.{Dict}
use aiokafka.Base.Sets

-- What the manager reads of an `OffsetAndMetadata` is its offset.
abbrev pub Offsets : Type 0
Offsets = Dict TopicPartition ℕ

-- (group_id, offsets, fut), as `add_offsets_to_txn` queues it.
pub record PendingOffsets : Type 0 where
  pub group_id : String
  pub offsets : Offsets
  pub fut : ℕ

pub record TransactionManager : Type 0 where
  pub futures : Heap (Unit {0})
  pub transactional_id : Option String
  pub state : TransactionState
  pub producer_id : ℤ
  pub producer_epoch : ℤ
  pub pid_waiter : ℕ
  pub sequence_numbers : Dict TopicPartition ℤ
  pub transaction_waiter : Option ℕ
  pub task_waiter : Option ℕ
  pub txn_partitions : List TopicPartition
  pub pending_txn_partitions : List TopicPartition
  pub txn_consumer_group : Option String
  pub pending_txn_offsets : List PendingOffsets

abbrev pub no_producer_id : ℤ
no_producer_id = negsuc 0

abbrev pub no_producer_epoch : ℤ
no_producer_epoch = negsuc 0

-- `TransactionManager(transactional_id, transaction_timeout_ms)`: the pid waiter is future 0. The
-- timeout is only read by the sender's requests.
unfoldable pub init : Option String → TransactionManager
init transactional_id = record {
  futures = alloc Futures.empty;
  transactional_id = transactional_id;
  state = uninitialized;
  producer_id = no_producer_id;
  producer_epoch = no_producer_epoch;
  pid_waiter = 0;
  sequence_numbers = [];
  transaction_waiter = none;
  task_waiter = none;
  txn_partitions = [];
  pending_txn_partitions = [];
  txn_consumer_group = none;
  pending_txn_offsets = [];
}

abbrev pub Action : Type 0
Action = Exec TransactionManager (Unit {0})

-- `create_future()`, and `fut.set_result(None)` or `fut.set_exception(exc)`.
abbrev create_future : Exec TransactionManager ℕ
create_future s = (ok s.futures.next, record s { futures = alloc s.futures })

abbrev settle_future : Future (Unit {0}) → ℕ → Action
settle_future f p s = ((settle s.futures p f).0, record s { futures = (settle s.futures p f).1 })

-- A method of `self._transaction_waiter` while that is still None.
abbrev on_waiter : (ℕ → Action) → Option ℕ → Action
on_waiter act none = raise attribute_error
on_waiter act (some w) = act w

-- `if self.transactional_id:`, which is false of the empty text too.
abbrev pub truthy : Option String → Bool
truthy none = false
truthy (some id) = not (id == "")

abbrev when : Bool → Action → Action
when true act = act
when false act = pure tt

transition_to : TransactionState → Action
transition_to target = do
  source ← gets (λ s. s.state)
  assert (is_transition_valid source target)
  modify (λ s. record s { state = target })

unfoldable pub set_pid_and_epoch : ℤ → ℤ → Action
unfolding transition_to
set_pid_and_epoch pid epoch = do
  modify (λ s. record s { producer_id = pid; producer_epoch = epoch })
  waiter ← gets (λ s. s.pid_waiter)
  settle_future (resolved tt) waiter
  id ← gets (λ s. s.transactional_id)
  when (truthy id) (transition_to ready)

pub has_pid : TransactionManager → Bool
has_pid s = not (eqb_ℤ s.producer_id no_producer_id)

-- A defaultdict of zeros.
pub sequence_number : TransactionManager → TopicPartition → ℤ
sequence_number s tp = elim (Dict.get s.sequence_numbers tp) [ none ↦ pos 0 | some n ↦ n ]

wrap_sequence : ℤ → ℤ
wrap_sequence seq = if ltb_ℤ (pos (2 ^ 31 - 1)) seq then seq -ℤ pos (2 ^ 32) else seq

pub increment_sequence_number : TopicPartition → ℤ → Action
unfolding sequence_number wrap_sequence
increment_sequence_number tp increment = do
  seq ← gets (λ s. sequence_number s tp +ℤ increment)
  modify (λ s. record s { sequence_numbers = Dict.put s.sequence_numbers tp (wrap_sequence seq) })

-- `if self._task_waiter is not None and not self._task_waiter.done()`
notify : Option ℕ → Action
notify none = pure tt
notify (some w) = do
  ended ← gets (λ s. done (s.futures.at w))
  when (not ended) (settle_future (resolved tt) w)

unfoldable pub notify_task_waiter : Action
unfolding notify
notify_task_waiter = do waiter ← gets (λ s. s.task_waiter); notify waiter

unfoldable pub begin_transaction : Action
unfolding transition_to
begin_transaction = do
  transition_to in_transaction
  w ← create_future
  modify (λ s. record s { transaction_waiter = some w })

-- `fut.result()`
future_result : Future (Unit {0}) → Action
future_result pending = raise invalid_state_error
future_result (resolved v) = pure tt
future_result (failed exc) = raise exc
future_result cancelled = raise cancelled_error

waiter_result : ℕ → Action
unfolding future_result
waiter_result w s = future_result (s.futures.at w) s

-- The transaction waiter is made anew if it is done.
pub renew_waiter : ℕ → Action
renew_waiter w = do
  ended ← gets (λ s. done (s.futures.at w))
  when ended do v ← create_future; modify (λ s. record s { transaction_waiter = some v })

abbrev is_abortable_error : TransactionState → Bool
is_abortable_error abortable_error = true
is_abortable_error _ = false

abbrev waiter_of : TransactionManager → Option ℕ
waiter_of s = s.transaction_waiter

unfoldable pub committing_transaction : Action
unfolding transition_to waiter_result
committing_transaction = do
  source ← gets (λ s. s.state)
  w ← gets waiter_of
  when (is_abortable_error source) (on_waiter waiter_result w)
  transition_to TransactionState.committing_transaction
  notify_task_waiter

pub aborting_transaction : Action
unfolding transition_to
aborting_transaction = do
  transition_to TransactionState.aborting_transaction
  w ← gets waiter_of
  on_waiter renew_waiter w
  notify_task_waiter

abbrev pub is_empty {ℓ} : {A : Type ℓ} → List A → Bool
is_empty [] = true
is_empty (x ∷ xs) = false

-- `if not self._transaction_waiter.done(): self._transaction_waiter.set_result(None)`
resolve_waiter : ℕ → Action
resolve_waiter w = do
  ended ← gets (λ s. done (s.futures.at w))
  when (not ended) (settle_future (resolved tt) w)

unfoldable pub complete_transaction : Action
unfolding transition_to resolve_waiter
complete_transaction = do
  partitions ← gets (λ s. s.pending_txn_partitions)
  assert (is_empty partitions)
  offsets ← gets (λ s. s.pending_txn_offsets)
  assert (is_empty offsets)
  transition_to ready
  modify (λ s. record s { txn_partitions = []; txn_consumer_group = none })
  w ← gets waiter_of
  on_waiter resolve_waiter w

fail_offsets : Exception → List PendingOffsets → Action
fail_offsets exc [] = pure tt
fail_offsets exc (p ∷ rest) = do settle_future (failed exc) p.fut; fail_offsets exc rest

-- What `error_transaction` and `fatal_error` share: the sets go, then the futures of the offsets
-- that are still queued fail, then the queue goes.
drop_transaction : Exception → Action
drop_transaction exc = do
  modify (λ s. record s {
    txn_partitions = [];
    txn_consumer_group = none;
    pending_txn_partitions = [];
  })
  offsets ← gets (λ s. s.pending_txn_offsets)
  fail_offsets exc offsets
  modify (λ s. record s { pending_txn_offsets = [] })

pub error_transaction : Exception → Action
unfolding transition_to
error_transaction exc = do
  transition_to abortable_error
  drop_transaction exc
  w ← gets waiter_of
  on_waiter (settle_future (failed exc)) w

pub fatal_error : Exception → Action
unfolding transition_to
fatal_error exc = do
  transition_to TransactionState.fatal_error
  drop_transaction exc
  w ← gets waiter_of
  on_waiter renew_waiter w
  v ← gets waiter_of
  on_waiter (settle_future (failed exc)) v

abbrev pub is_in_transaction : TransactionState → Bool
is_in_transaction in_transaction = true
is_in_transaction _ = false

-- A manager with no transactional id only counts sequence numbers.
add_partition : TopicPartition → Option String → Action
add_partition tp none = pure tt
add_partition tp (some id) = do
  source ← gets (λ s. s.state)
  assert (is_in_transaction source)
  known ← gets (λ s. Sets.contains s.txn_partitions tp)
  when (not known) do
    modify (λ s. record s { pending_txn_partitions = Sets.add s.pending_txn_partitions tp })
    notify_task_waiter

unfoldable pub maybe_add_partition_to_txn : TopicPartition → Action
unfolding add_partition
maybe_add_partition_to_txn tp = do id ← gets (λ s. s.transactional_id); add_partition tp id

pub add_offsets_to_txn : Offsets → String → Exec TransactionManager ℕ
add_offsets_to_txn offsets group_id = do
  source ← gets (λ s. s.state)
  assert (is_in_transaction source)
  id ← gets (λ s. s.transactional_id)
  assert (truthy id)
  fut ← create_future
  modify (λ s. record s {
    pending_txn_offsets =
        s.pending_txn_offsets ++ record { group_id = group_id; offsets = offsets; fut = fut } ∷ [];
  })
  notify_task_waiter
  pure fut

-- `partitions_to_add`, `txn_partitions` and `wait_for_transaction_end` read a field.
first_group : List PendingOffsets → Option String
first_group [] = none
first_group (p ∷ rest) = some p.group_id

unfoldable pub consumer_group_to_add : TransactionManager → Option String
unfolding first_group
consumer_group_to_add s = elim s.txn_consumer_group [
  | some g ↦ none
  | none ↦ first_group s.pending_txn_offsets
]

first_offsets : List PendingOffsets → Option (Offsets × String)
first_offsets [] = none
first_offsets (p ∷ rest) = some (p.offsets, p.group_id)

unfoldable pub offsets_to_commit : TransactionManager → Option (Offsets × String)
unfolding first_offsets
offsets_to_commit s = elim s.txn_consumer_group [
  | none ↦ none
  | some g ↦ first_offsets s.pending_txn_offsets
]

-- `set.remove` raises KeyError on a partition that is not pending.
unfoldable pub partition_added : TopicPartition → Action
partition_added tp = do
  waits ← gets (λ s. Sets.contains s.pending_txn_partitions tp)
  when (not waits) (raise key_error)
  modify (λ s. record s {
    pending_txn_partitions = Sets.discard s.pending_txn_partitions tp;
    txn_partitions = Sets.add s.txn_partitions tp;
  })

pub consumer_group_added : String → Action
consumer_group_added group_id = modify (λ s. record s { txn_consumer_group = some group_id })

abbrev holds_offset : Option ℕ → ℕ → Bool
holds_offset none offset = false
holds_offset (some o) offset = o == offset

commit_first : TopicPartition → ℕ → String → List PendingOffsets → Action
commit_first tp offset group_id [] = raise index_error
commit_first tp offset group_id (p ∷ rest) = do
  assert (p.group_id == group_id)
  assert (holds_offset (Dict.get p.offsets tp) offset)
  modify (λ s. record s {
    pending_txn_offsets = record p { offsets = Dict.remove p.offsets tp } ∷ rest;
  })
  when (is_empty (Dict.remove p.offsets tp))
      do settle_future (resolved tt) p.fut; modify (λ s. record s { pending_txn_offsets = rest })

pub offset_committed : TopicPartition → ℕ → String → Action
unfolding commit_first
offset_committed tp offset group_id = do
  offsets ← gets (λ s. s.pending_txn_offsets)
  commit_first tp offset group_id offsets

unfoldable pub needs_transaction_commit : TransactionState → Option TransactionResult
needs_transaction_commit TransactionState.committing_transaction = some commit
needs_transaction_commit TransactionState.aborting_transaction = some abort
needs_transaction_commit _ = none

-- Neither data was sent to a partition nor offsets to a group.
unfoldable pub is_empty_transaction : TransactionManager → Bool
is_empty_transaction s =
    is_empty s.txn_partitions && elim s.txn_consumer_group [ none ↦ true | some g ↦ false ]

pub is_fatal_error : TransactionState → Bool
is_fatal_error TransactionState.fatal_error = true
is_fatal_error _ = false

pub make_task_waiter : Exec TransactionManager ℕ
make_task_waiter = do w ← create_future; modify (λ s. record s { task_waiter = some w }); pure w
