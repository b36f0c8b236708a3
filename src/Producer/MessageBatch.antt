-- ===== src/Producer/MessageBatch.antt =====
-- The classes BatchBuilder and MessageBatch of aiokafka/producer/message_accumulator.py: the records of one
-- partition that are sent together, and the futures of those who sent them. What the builder of
-- aiokafka/record answers to a record is an argument.
pub mod Delivery
use aiokafka.Base.{
  ℕ, ◌+◌, ◌-◌, Bool, true, false, not, Option, none, some, List, [], ◌∷◌, ◌++◌, ltb, eqb,
  if◌then◌else◌, ℤ, pos, negsuc, ◌+ℤ◌, eqb_ℤ,
}
use aiokafka.Base.{
  Exception, Result, ok, err, Exec, pure, raise, gets, modify, assert, continue, ◌>>=◌, ◌>>◌,
  cancelled_error,
}
use aiokafka.Base.Futures.{
  Future, Heap, pending, resolved, failed, cancelled, done, alloc, write, settle,
}
use aiokafka.Base.Keys.{TopicPartition}

-- `RecordMetadata` of structs.py
pub record RecordMetadata : Type 0 where
  pub tp : TopicPartition
  pub offset : ℤ
  pub timestamp : ℤ
  pub timestamp_type : ℕ
  pub log_start_offset : Option ℤ

-- What the record builder says of a record that fits: its offset in the batch, and its timestamp.
pub record Metadata : Type 0 where
  pub offset : ℕ
  pub timestamp : ℤ

pub record BatchBuilder : Type 0 where
  pub magic : ℕ
  pub is_transactional : Bool
  pub relative_offset : ℕ
  pub closed : Bool
  pub producer_id : ℤ
  pub producer_epoch : ℤ
  pub base_sequence : ℤ

unfoldable pub new_builder : ℕ → Bool → BatchBuilder
new_builder magic is_transactional = record {
  magic = magic;
  is_transactional = is_transactional;
  relative_offset = 0;
  closed = false;
  producer_id = negsuc 0;
  producer_epoch = negsuc 0;
  base_sequence = pos 0;
}

-- `append`, where the record builder takes the record with the timestamp or has no room, `none`.
unfoldable pub append_record : BatchBuilder → Option ℤ → Option Metadata × BatchBuilder
append_record b none = (none, b)
append_record b (some timestamp) = if b.closed then (none, b) else (
  some (record { offset = b.relative_offset; timestamp = timestamp }),
  record b { relative_offset = b.relative_offset + 1 },
)

pub close : BatchBuilder → BatchBuilder
close b = record b { closed = true }

-- A future of a delivery has the metadata of its record, or None without acknowledgements.
abbrev pub Delivered : Type 0
Delivered = Option RecordMetadata

pub record MessageBatch : Type 0 where
  pub builder : BatchBuilder
  pub tp : TopicPartition
  pub ttl : ℕ
  pub ctime : ℕ
  pub future : ℕ
  pub msg_futures : List (ℕ × Metadata)
  pub drain_waiter : ℕ
  pub retry_count : ℕ

unfoldable pub record_count : MessageBatch → ℕ
record_count b = b.builder.relative_offset

unfoldable pub expired : ℕ → MessageBatch → Bool
expired now b = ltb b.ttl (now - b.ctime)

unfoldable pub is_batch_empty : MessageBatch → Bool
unfolding record_count
is_batch_empty b = eqb (record_count b) 0

-- A batch with the futures that its methods reach.
pub record Batch : Type 0 where
  pub futures : Heap Delivered
  pub it : MessageBatch

abbrev pub Method : Type 0 → Type 0
Method A = Exec Batch A

abbrev pub set_future : Heap Delivered → ℕ → Future Delivered → Heap Delivered
set_future h p f = if done (h.at p) then h else write h p f

abbrev create_future : Method ℕ
create_future s = (ok s.futures.next, record s { futures = alloc s.futures })

-- `MessageBatch(tp, builder, ttl)` at the time `now`: its two futures are the next ones.
unfoldable pub new_batch : TopicPartition → BatchBuilder → ℕ → ℕ → Heap Delivered → Batch
new_batch tp builder ttl now h = record {
  futures = alloc (alloc h);
  it = record {
    builder = builder;
    tp = tp;
    ttl = ttl;
    ctime = now;
    future = h.next;
    msg_futures = [];
    drain_waiter = h.next + 1;
    retry_count = 0;
  };
}

unfoldable pub keep_message : Option Metadata → Method (Option ℕ)
keep_message none = pure none
keep_message (some metadata) = do
  future ← create_future
  modify (λ s. record s {
    it = record s.it { msg_futures = s.it.msg_futures ++ (future, metadata) ∷ [] };
  })
  pure (some future)

unfoldable pub append : Option ℤ → Method (Option ℕ)
unfolding keep_message append_record
append room = do
  metadata ← gets (λ s. (append_record s.it.builder room).0)
  modify (λ s. record s { it = record s.it { builder = (append_record s.it.builder room).1 } })
  keep_message metadata

-- The broker answers -1 for a timestamp that the client is to fill in.
abbrev pub is_unset : ℤ → Bool
is_unset timestamp = eqb_ℤ timestamp (negsuc 0)

abbrev pub timestamp_type_of : ℤ → ℕ
timestamp_type_of timestamp = if is_unset timestamp then 0 else 1

abbrev pub filled : ℤ → Metadata → ℤ
filled timestamp metadata = if is_unset timestamp then metadata.timestamp else timestamp

-- What the future of a message resolves to.
abbrev pub delivery : TopicPartition → ℤ → ℕ → Option ℤ → Metadata → ℤ → RecordMetadata
delivery tp base timestamp_type log_start metadata timestamp = record {
  tp = tp;
  offset = base +ℤ pos metadata.offset;
  timestamp = timestamp;
  timestamp_type = timestamp_type;
  log_start_offset = log_start;
}

-- The loop of `done` over the messages; it keeps the timestamp that it took from a message.
pub done_messages :
    TopicPartition → ℤ → ℕ → Option ℤ → List (ℕ × Metadata) → ℤ → Heap Delivered → Heap Delivered
done_messages tp base timestamp_type log_start [] timestamp h = h
done_messages tp base timestamp_type log_start ((future, metadata) ∷ rest) timestamp h =
    done_messages tp base timestamp_type log_start rest
      (if done (h.at future) then timestamp else filled timestamp metadata)
      (if done (h.at future)
        then h
        else write h future (
            resolved (
              some
                (delivery tp base timestamp_type log_start metadata (filled timestamp metadata)))))

unfoldable pub done_batch : ℤ → ℤ → Option ℤ → Batch → Batch
unfolding done_messages
done_batch base timestamp log_start s = record s {
  futures =
      done_messages s.it.tp base (timestamp_type_of timestamp) log_start s.it.msg_futures timestamp
        (set_future s.futures s.it.future (
          resolved (
            some (record {
              tp = s.it.tp;
              offset = base;
              timestamp = timestamp;
              timestamp_type = timestamp_type_of timestamp;
              log_start_offset = log_start;
            }))));
}

pub settle_messages : Future Delivered → List (ℕ × Metadata) → Heap Delivered → Heap Delivered
settle_messages f [] h = h
settle_messages f ((future, metadata) ∷ rest) h = settle_messages f rest (set_future h future f)

unfoldable pub done_noack : Batch → Batch
done_noack s = record s {
  futures =
      settle_messages (resolved none) s.it.msg_futures
        (set_future s.futures s.it.future (resolved none));
}

-- `self.future.exception()`, which raises if the future was cancelled.
abbrev consume : Future Delivered → Method (Unit {0})
consume cancelled = raise cancelled_error
consume _ = pure tt

abbrev has_messages : List (ℕ × Metadata) → Bool
has_messages [] = false
has_messages (m ∷ rest) = true

unfoldable pub failure : Exception → Method (Unit {0})
unfolding settle_messages
failure exception = do
  modify (λ s. record s {
    futures =
        settle_messages (failed exception) s.it.msg_futures
          (set_future s.futures s.it.future (failed exception));
  })
  outcome ← gets (λ s. s.futures.at s.it.future)
  sent ← gets (λ s. has_messages s.it.msg_futures)
  if sent then consume outcome else pure tt
  modify (λ s. record s { futures = set_future s.futures s.it.drain_waiter (failed exception) })

unfoldable pub drain_ready : Batch → Batch
drain_ready s = record s {
  futures = set_future s.futures s.it.drain_waiter (resolved none);
  it = record s.it { retry_count = s.it.retry_count + 1 };
}

unfoldable pub reset_drain : Method (Unit {0})
reset_drain = do
  ended ← gets (λ s. done (s.futures.at s.it.drain_waiter))
  assert ended
  waiter ← create_future
  modify (λ s. record s { it = record s.it { drain_waiter = waiter } })

unfoldable pub set_producer_state : ℤ → ℤ → ℤ → Method (Unit {0})
set_producer_state producer_id producer_epoch base_sequence = do
  ended ← gets (λ s. done (s.futures.at s.it.drain_waiter))
  assert (not ended)
  magic ← gets (λ s. s.it.builder.magic)
  assert (not (ltb magic 2))
  modify (λ s. record s {
    it = record s.it {
      builder = record s.it.builder {
        producer_id = producer_id;
        producer_epoch = producer_epoch;
        base_sequence = base_sequence;
      };
    };
  })
