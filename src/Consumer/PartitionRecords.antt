-- ===== src/Consumer/PartitionRecords.antt =====
-- The class PartitionRecords of aiokafka/consumer/fetcher.py: the records that a fetch brought for one
-- partition, handed out one by one. The deserializers are arguments; without one, a value is its bytes.
pub mod Aborted
pub mod Tracking
pub mod Running
pub mod Log
pub mod Opening
pub mod Committed
mod Examples
use aiokafka.Base.{
  ℕ, ◌+◌, Bool, true, false, not, ◌&&◌, ◌||◌, Option, none, some, is_some, List, [], ◌∷◌, ◌++◌,
  length, eqb, leb_ℤ, ltb_ℤ, if◌then◌else◌, ℤ, pos, negsuc, ◌+ℤ◌, String,
}
use aiokafka.Base.{Result, ok, err, Exception, corrupt_record, kafka_error, type_error}
use aiokafka.Base.Keys.{TopicPartition, int_eq}
use aiokafka.Base.Sets
use aiokafka.Base.Sorting.{sorted}
use aiokafka.Record.DefaultRecords.{DefaultRecord, Headers}
use aiokafka.Record.ControlRecord.{ControlRecord, parse, same_control, abort_marker}

-- What is asked of a batch. The iteration over it gives its records, and then ends or raises.
pub record RecordBatch : Type 0 where
  pub valid_crc : Result Bool
  pub producer_id : Option ℤ
  pub base_offset : ℤ
  pub next_offset : ℤ
  pub is_control_batch : Bool
  pub is_transactional : Bool
  pub records : List DefaultRecord
  pub ends_with : Option Exception

-- `ConsumerRecord` of structs.py
pub record ConsumerRecord (K V : Type 0) : Type 0 where
  pub topic : String
  pub partition : ℕ
  pub offset : ℤ
  pub timestamp : ℤ
  pub timestamp_type : ℕ
  pub key : K
  pub value : V
  pub checksum : Option ℕ
  pub serialized_key_size : ℤ
  pub serialized_value_size : ℤ
  pub headers : Headers

-- An aborted transaction: its producer and its first offset.
abbrev pub AbortedTransaction : Type 0
AbortedTransaction = ℤ × ℤ

-- The arguments that stay as they are.
pub record Config (K V : Type 0) : Type 0 where
  pub tp : TopicPartition
  pub key_deserializer : Option (List ℕ) → Result K
  pub value_deserializer : Option (List ℕ) → Result V
  pub check_crcs : Bool
  pub read_committed : Bool

-- The generator stands before its next batch, or in one with some records left. What `next_batch` gives or
-- raises is in `batches`.
pub record PartitionRecords : Type 0 where
  pub batches : List (Result RecordBatch)
  pub current : Option RecordBatch
  pub aborted_transactions : List AbortedTransaction
  pub aborted_producers : List ℤ
  pub next_fetch_offset : ℤ
  pub exhausted : Bool

abbrev pub earlier : AbortedTransaction → AbortedTransaction → Bool
earlier (p, n) (q, m) = leb_ℤ n m

abbrev or_empty : Option (List AbortedTransaction) → List AbortedTransaction
or_empty none = []
or_empty (some l) = l

-- `__init__`
unfoldable pub new_partition_records :
    List (Result RecordBatch) → Option (List AbortedTransaction) → ℤ → PartitionRecords
new_partition_records batches aborted_transactions fetch_offset = record {
  batches = batches;
  current = none;
  aborted_transactions = sorted earlier (or_empty aborted_transactions);
  aborted_producers = [];
  next_fetch_offset = fetch_offset;
  exhausted = false;
}

-- `_consume_aborted_up_to`: the transactions that stay, and the producers.
unfoldable pub consume_aborted :
    ℤ → List AbortedTransaction → List ℤ → List AbortedTransaction × List ℤ
consume_aborted batch_offset [] producers = ([], producers)
consume_aborted batch_offset ((producer_id, first_offset) ∷ l) producers =
    let rest = consume_aborted batch_offset l (Sets.add producers producer_id) in
    if leb_ℤ first_offset batch_offset then rest else ((producer_id, first_offset) ∷ l, producers)

unfoldable pub consume_aborted_up_to : ℤ → PartitionRecords → PartitionRecords
consume_aborted_up_to batch_offset s =
    let (l, producers) = consume_aborted batch_offset s.aborted_transactions s.aborted_producers in
    record s { aborted_transactions = l; aborted_producers = producers }

abbrev is_abort : Result ControlRecord → Result Bool
is_abort (err e) = err e
is_abort (ok r) = ok (same_control r abort_marker)

-- `_contains_abort_marker`; the record that it takes is of a batch that is skipped in any case.
unfoldable pub contains_abort_marker : RecordBatch → Result Bool
contains_abort_marker b = elim b.records [
  | r ∷ l ↦ is_abort (parse r.key)
  | [] ↦ elim b.ends_with [ none ↦ err kafka_error | some e ↦ err e ]
]

abbrev size_or_minus_one : Option (List ℕ) → ℤ
size_or_minus_one none = negsuc 0
size_or_minus_one (some bytes) = pos (length bytes)

-- What becomes of a batch: the generator raises, goes on to the next batch, or yields.
pub data Outcome (A : Type 0) : Type 0 where
  raises : Exception → PartitionRecords → Outcome A
  goes_on : PartitionRecords → Outcome A
  yields : A → PartitionRecords → Outcome A

module _ {K V : Type 0} (config : Config K V) where
  abbrev pub consumer_record_of : DefaultRecord → K → V → ConsumerRecord K V
  consumer_record_of r key value = record {
    topic = config.tp.topic;
    partition = config.tp.partition;
    offset = r.offset;
    timestamp = r.timestamp;
    timestamp_type = r.timestamp_type;
    key = key;
    value = value;
    checksum = none;
    serialized_key_size = size_or_minus_one r.key;
    serialized_value_size = size_or_minus_one r.value;
    headers = r.headers;
  }

  abbrev with_value : DefaultRecord → K → Result V → Result (ConsumerRecord K V)
  with_value r key (err e) = err e
  with_value r key (ok value) = ok (consumer_record_of r key value)

  abbrev with_key : DefaultRecord → Result K → Result (ConsumerRecord K V)
  with_key r (err e) = err e
  with_key r (ok key) = with_value r key (config.value_deserializer r.value)

  -- `_consumer_record`
  unfoldable pub consumer_record : DefaultRecord → Result (ConsumerRecord K V)
  consumer_record r = with_key r (config.key_deserializer r.key)

  abbrev deliver :
      RecordBatch
      → DefaultRecord
      → List DefaultRecord
      → PartitionRecords
      → Result (ConsumerRecord K V)
      → Outcome (ConsumerRecord K V)
  deliver b r l s (err e) = raises e s
  deliver b r l s (ok c) = yields c (record s {
    current = some (record b { records = l });
    next_fetch_offset = r.offset +ℤ pos 1;
  })

  abbrev leave : RecordBatch → PartitionRecords → Option Exception → Outcome (ConsumerRecord K V)
  leave b s (some e) = raises e s
  leave b s none = goes_on (record s { current = none; next_fetch_offset = b.next_offset })

  -- The loop over the records of a batch.
  unfoldable pub iterate :
      RecordBatch → List DefaultRecord → PartitionRecords → Outcome (ConsumerRecord K V)
  iterate b [] s = leave b s b.ends_with
  iterate b (r ∷ l) s =
      let rest = iterate b l s in
      if ltb_ℤ r.offset s.next_fetch_offset then rest else deliver b r l s (consumer_record r)

  -- Control batches are skipped no matter the isolation level.
  unfoldable pub enter : RecordBatch → PartitionRecords → Outcome (ConsumerRecord K V)
  enter b s =
      if b.is_control_batch
      then goes_on (record s { next_fetch_offset = b.next_offset })
      else iterate b b.records s

  unfoldable pub enter_committed : RecordBatch → ℤ → PartitionRecords → Outcome (ConsumerRecord K V)
  enter_committed b producer_id s =
      if b.is_transactional && Sets.contains s.aborted_producers producer_id
      then goes_on (record s { next_fetch_offset = b.next_offset })
      else enter b s

  abbrev pub ended_transaction :
      RecordBatch → ℤ → PartitionRecords → Result Bool → Outcome (ConsumerRecord K V)
  ended_transaction b producer_id s (err e) = raises e s
  ended_transaction b producer_id s (ok false) = enter_committed b producer_id s
  ended_transaction b producer_id s (ok true) =
      enter_committed b producer_id
        (record s { aborted_producers = Sets.discard s.aborted_producers producer_id })

  unfoldable pub isolate : RecordBatch → ℤ → PartitionRecords → Outcome (ConsumerRecord K V)
  isolate b producer_id s =
      ended_transaction b producer_id (consume_aborted_up_to b.base_offset s)
        (if b.is_control_batch then contains_abort_marker b else ok false)

  abbrev pub isolated : RecordBatch → PartitionRecords → Option ℤ → Outcome (ConsumerRecord K V)
  isolated b s none = enter b s
  isolated b s (some producer_id) = isolate b producer_id s

  abbrev pub checked : RecordBatch → PartitionRecords → Result Bool → Outcome (ConsumerRecord K V)
  checked b s (err e) = raises e s
  checked b s (ok false) = raises corrupt_record s
  checked b s (ok true) = if config.read_committed then isolated b s b.producer_id else enter b s

  -- The body of the loop over the batches.
  unfoldable pub open_batch : RecordBatch → PartitionRecords → Outcome (ConsumerRecord K V)
  open_batch b s = checked b s (if config.check_crcs then b.valid_crc else ok true)

  -- A generator that raised is closed.
  abbrev pub close_generator : PartitionRecords → PartitionRecords
  close_generator s = record s { batches = []; current = none }

  unfoldable pub unpack_records :
      List (Result RecordBatch)
      → PartitionRecords
      → Result (Option (ConsumerRecord K V)) × PartitionRecords
  unpack_records [] s = (ok none, record s { batches = []; current = none; exhausted = true })
  unpack_records (err e ∷ l) s = (err e, close_generator s)
  unpack_records (ok b ∷ l) s = elim (open_batch b (record s { batches = l; current = none })) [
    | raises e t ↦ (err e, close_generator t)
    | goes_on t ↦ unpack_records l t
    | yields c t ↦ (ok (some c), t)
  ]

  abbrev pub reenter :
      PartitionRecords
      → Option RecordBatch
      → Result (Option (ConsumerRecord K V)) × PartitionRecords
  reenter s none = unpack_records s.batches s
  reenter s (some b) = elim (iterate b b.records s) [
    | raises e t ↦ (err e, close_generator t)
    | goes_on t ↦ unpack_records s.batches t
    | yields c t ↦ (ok (some c), t)
  ]

  -- `__next__`: none where the iteration stops. The generator is dropped then, and `next(None)` is a TypeError.
  unfoldable pub next_consumer_record :
      PartitionRecords → Result (Option (ConsumerRecord K V)) × PartitionRecords
  next_consumer_record s = if s.exhausted then (err type_error, s) else reenter s s.current
