-- ===== src/Producer/MessageAccumulator.antt =====
-- The class MessageAccumulator of aiokafka/producer/message_accumulator.py: the batches of each partition in
-- the order in which they are sent. A batch is an object on a heap, named by a number. The cluster and
-- the clock are arguments; a coroutine is cut at its awaits.
pub mod Queues
pub mod Drain
pub mod Retry
mod Examples
use aiokafka.Base.{
  ℕ, zero, suc, ◌+◌, ◌*◌, Bool, true, false, not, ◌&&◌, Option, none, some, List, [], ◌∷◌, ◌++◌,
  ltb, leb, eqb, if◌then◌else◌, ℤ, pos, negsuc, eqb_ℤ, is_some,
}
use aiokafka.Base.{
  Exception, Result, ok, err, Exec, pure, raise, gets, modify, assert, continue, ◌>>=◌, ◌>>◌,
  index_error, key_error, producer_closed, kafka_timeout_error, broker,
}
use aiokafka.Base.Futures.{Future, Heap, pending, resolved, failed, done, alloc, write}
use aiokafka.Base.Keys.{TopicPartition, tp_eq, nat_eq, int_eq, ◌==◌}
use aiokafka.Base.Dict
use aiokafka.Base.Dict.{Dict, keys}
use aiokafka.Base.Sets
use aiokafka.Base.BrokerErrors.{
  BrokerResponseError, not_leader_for_partition_error, leader_not_available_error,
}
use aiokafka.Producer.TransactionManager.{
  TransactionManager, has_pid, sequence_number, increment_sequence_number,
  maybe_add_partition_to_txn,
}
use aiokafka.Producer.MessageBatch.{
  Batch, MessageBatch, BatchBuilder, Delivered, new_batch, new_builder, record_count, expired,
  is_batch_empty, append, failure, done_noack, drain_ready, reset_drain, set_producer_state,
  set_future, close,
}
use aiokafka.Producer.MessageBatch

pub record MessageAccumulator : Type 0 where
  pub batches : Dict TopicPartition (List ℕ)
  pub pending_batches : List ℕ
  -- the objects
  pub next : ℕ
  pub object : ℕ → MessageBatch
  pub futures : Heap Delivered
  pub wait_data_future : ℕ
  pub closed : Bool
  pub exception : Option Exception
  -- `_api_version`, of which the major and the minor number are compared
  pub api_version : ℕ × ℕ
  pub batch_ttl : ℕ
  pub txn_manager : Option TransactionManager

abbrev pub Action : Type 0 → Type 0
Action A = Exec MessageAccumulator A

-- `self._batches[tp]`
abbrev pub queue_of : Dict TopicPartition (List ℕ) → TopicPartition → List ℕ
queue_of batches tp = elim (Dict.get batches tp) [ none ↦ [] | some q ↦ q ]

abbrev pub set_object : (ℕ → MessageBatch) → ℕ → MessageBatch → ℕ → MessageBatch
set_object object b it c = if eqb c b then it else object c

-- A method of the batch b.
abbrev pub on_batch : {A : Type 0} → ℕ → Exec Batch A → Action A
on_batch b act s =
    let r = act (record { futures = s.futures; it = s.object b }) in
    (r.0, record s { futures = r.1.futures; object = set_object s.object b r.1.it })

abbrev pub update_batch : ℕ → (Batch → Batch) → Action (Unit {0})
update_batch b f = on_batch b (modify f)

abbrev when : Bool → Action (Unit {0}) → Action (Unit {0})
when true act = act
when false act = pure tt

abbrev leb_version : ℕ × ℕ → ℕ × ℕ → Bool
leb_version (a, b) (c, d) = if eqb a c then leb b d else ltb a c

magic_of : ℕ × ℕ → ℕ
magic_of version =
    if leb_version (0, 11) version then 2 else if leb_version (0, 10) version then 1 else 0

abbrev is_transactional_of : Option TransactionManager → Bool
is_transactional_of none = false
is_transactional_of (some m) = is_some m.transactional_id

-- `create_builder()`, with the test of `BatchBuilder.__init__`; the serializers belong to the records.
pub create_builder : Action BatchBuilder
unfolding magic_of
create_builder = do
  magic ← gets (λ s. magic_of s.api_version)
  is_transactional ← gets (λ s. is_transactional_of s.txn_manager)
  assert (not (ltb magic 2 && is_transactional))
  pure (new_builder magic is_transactional)

-- `self._txn_manager.maybe_add_partition_to_txn(tp)`, if there is a manager.
add_to_transaction : TopicPartition → Option TransactionManager → Action (Unit {0})
add_to_transaction tp none s = (ok tt, s)
add_to_transaction tp (some m) s = (
  (maybe_add_partition_to_txn tp m).0,
  record s { txn_manager = some (maybe_add_partition_to_txn tp m).1 },
)

-- `MessageBatch(tp, builder, self._batch_ttl)`
abbrev pub create_batch : ℕ → BatchBuilder → TopicPartition → Action ℕ
create_batch now builder tp s =
    let b = new_batch tp builder s.batch_ttl now s.futures in
    (
      ok s.next,
      record s { next = s.next + 1; object = set_object s.object s.next b.it; futures = b.futures },
    )

abbrev pub notify_data : MessageAccumulator → MessageAccumulator
notify_data s = record s { futures = set_future s.futures s.wait_data_future (resolved none) }

pub append_batch : ℕ → BatchBuilder → TopicPartition → Action ℕ
unfolding add_to_transaction
append_batch now builder tp = do
  manager ← gets (λ s. s.txn_manager)
  add_to_transaction tp manager
  b ← create_batch now builder tp
  modify (λ s. record s { batches = Dict.put s.batches tp (queue_of s.batches tp ++ b ∷ []) })
  modify notify_data
  pure b

abbrev last : List ℕ → Option ℕ
last [] = none
last (b ∷ []) = some b
last (b ∷ c ∷ rest) = last (c ∷ rest)

last_or_new : ℕ → TopicPartition → Option ℕ → Action ℕ
last_or_new now tp (some b) = pure b
last_or_new now tp none = do builder ← create_builder; append_batch now builder tp

-- One pass of the loop of `add_message`: the future of the message, or none, and then the coroutine
-- waits until the batch was drained or the time is over.
raise_if : Option Exception → Action (Unit {0})
raise_if none = pure tt
raise_if (some e) = raise e

pub add_message : ℕ → TopicPartition → Option ℤ → Action (Option ℕ)
unfolding last_or_new raise_if
add_message now tp room = do
  ended ← gets (λ s. s.closed)
  when ended (raise producer_closed)
  critical ← gets (λ s. s.exception)
  raise_if critical
  queued ← gets (λ s. last (queue_of s.batches tp))
  b ← last_or_new now tp queued
  on_batch b (append room)

-- `add_batch`, where it does not wait: the batch, or none if the partition has one.
pub add_batch : ℕ → BatchBuilder → TopicPartition → Action (Option ℕ)
unfolding raise_if
add_batch now builder tp = do
  ended ← gets (λ s. s.closed)
  when ended (raise producer_closed)
  critical ← gets (λ s. s.exception)
  raise_if critical
  queued ← gets (λ s. last (queue_of s.batches tp))
  elim queued [ some b ↦ pure none | none ↦ do b ← append_batch now builder tp; pure (some b) ]

-- With a manager, a batch that is sent for the first time takes the next sequence numbers of its
-- partition.
pub number_batch : ℕ → Option TransactionManager → Action (Unit {0})
number_batch b none = pure tt
number_batch b (some m) = do
  assert (has_pid m)
  tp ← gets (λ s. (s.object b).tp)
  count ← gets (λ s. record_count (s.object b))
  modify (λ s. record s { txn_manager = some (increment_sequence_number tp (pos count) m).1 })
  on_batch b (set_producer_state m.producer_id m.producer_epoch (sequence_number m tp))

pub pop_front : TopicPartition → List ℕ → Action ℕ
pop_front tp [] s = (err index_error, record s { batches = Dict.put s.batches tp [] })
pop_front tp (b ∷ rest) s = (ok b, record s { batches = Dict.put s.batches tp rest })

abbrev has_none : List ℕ → Bool
has_none [] = true
has_none (b ∷ rest) = false

-- `if len(self._batches[tp]) == 0: del self._batches[tp]`
pub without_empty : Dict TopicPartition (List ℕ) → TopicPartition → Dict TopicPartition (List ℕ)
without_empty batches tp =
    if has_none (queue_of batches tp) then Dict.remove batches tp else batches

-- What becomes of a batch that was taken from its queue.
pub send_batch : TopicPartition → ℕ → Action ℕ
unfolding number_batch without_empty
send_batch tp b = do
  not_retry ← gets (λ s. eqb (s.object b).retry_count 0)
  manager ← gets (λ s. s.txn_manager)
  when not_retry (number_batch b manager)
  update_batch b drain_ready
  modify (λ s. record s { batches = without_empty s.batches tp })
  modify (λ s. record s { pending_batches = Sets.add s.pending_batches b })
  pure b

pub pop_batch : TopicPartition → Action ℕ
unfolding pop_front
pop_batch tp = do
  queued ← gets (λ s. queue_of s.batches tp)
  b ← pop_front tp queued
  send_batch tp b

-- The callback that a batch has from its first pop on: its future is done.
pub batch_ended : ℕ → Action (Unit {0})
batch_ended b = do
  known ← gets (λ s. Sets.contains s.pending_batches b)
  when (not known) (raise key_error)
  modify (λ s. record s { pending_batches = Sets.discard s.pending_batches b })

pub reenqueue : ℕ → Action (Unit {0})
reenqueue b = do
  tp ← gets (λ s. (s.object b).tp)
  modify (λ s. record s { batches = Dict.put s.batches tp (b ∷ queue_of s.batches tp) })
  known ← gets (λ s. Sets.contains s.pending_batches b)
  when (not known) (raise key_error)
  modify (λ s. record s { pending_batches = Sets.discard s.pending_batches b })
  on_batch b reset_drain

fail_batches : Exception → List ℕ → Action (Unit {0})
fail_batches exception [] = pure tt
fail_batches exception (b ∷ rest) = do on_batch b (failure exception); fail_batches exception rest

fail_queues : Exception → Dict TopicPartition (List ℕ) → Action (Unit {0})
unfolding fail_batches
fail_queues exception [] = pure tt
fail_queues exception ((tp, q) ∷ rest) = do fail_batches exception q; fail_queues exception rest

pub fail_all : Exception → Action (Unit {0})
unfolding fail_queues fail_batches
fail_all exception = do
  queues ← gets (λ s. s.batches)
  fail_queues exception queues
  sent ← gets (λ s. s.pending_batches)
  fail_batches exception sent
  modify (λ s. record s { exception = some exception })

-- What `flush_for_commit` closes before it waits.
close_batches : List ℕ → Action (Unit {0})
close_batches [] = pure tt
close_batches (b ∷ rest) = do
  update_batch b (λ t. record t { it = record t.it { builder = close t.it.builder } })
  close_batches rest

close_queues : Dict TopicPartition (List ℕ) → Action (Unit {0})
unfolding close_batches
close_queues [] = pure tt
close_queues ((tp, q) ∷ rest) = do close_batches q; close_queues rest

pub flush_for_commit : Action (Unit {0})
unfolding close_queues
flush_for_commit = do queues ← gets (λ s. s.batches); close_queues queues
