-- ===== src/Consumer/PartitionRecords/Examples.antt =====
-- A log of four batches: one of an aborted transaction, one of another producer, the abort marker, and one of
-- the next transaction.
use aiokafka.Base.{
  ℕ, Bool, true, false, Option, none, some, List, [], ◌∷◌, map, filter, ◌≡◌, refl, ◌+ℤ◌, pos, ok,
}
use aiokafka.Record.DefaultRecords.{DefaultRecord}
use aiokafka.Record.ControlRecord.{parse}
use aiokafka.Consumer.PartitionRecords.{
  RecordBatch, Config, PartitionRecords, new_partition_records, contains_abort_marker,
}
use aiokafka.Consumer.PartitionRecords.Aborted.{is_aborted, is_marker_of}
use aiokafka.Consumer.PartitionRecords.Running.{from_offset, Gives, handed}
use aiokafka.Consumer.PartitionRecords.Log.{committed, end_of}
use aiokafka.Consumer.PartitionRecords.Opening.{Reads}
use aiokafka.Consumer.PartitionRecords.Committed.{next_consumer_record-committed}

abbrev Bytes : Type 0
Bytes = Option (List ℕ)

abbrev plain : Config Bytes Bytes
plain = record {
  tp = record { topic = "t"; partition = 0 };
  key_deserializer = λ o. ok o;
  value_deserializer = λ o. ok o;
  check_crcs = true;
  read_committed = true;
}

abbrev record_at : ℕ → Option (List ℕ) → DefaultRecord
record_at n key = record {
  offset = pos n;
  timestamp = pos 5;
  timestamp_type = 0;
  key = key;
  value = some (n ∷ []);
  headers = [];
}

abbrev batch : ℕ → ℕ → ℕ → Bool → List DefaultRecord → RecordBatch
batch producer base next control records = record {
  valid_crc = ok true;
  producer_id = some (pos producer);
  base_offset = pos base;
  next_offset = pos next;
  is_control_batch = control;
  is_transactional = true;
  records = records;
  ends_with = none;
}

abbrev log : List RecordBatch
log =
    batch 1 10 12 false (record_at 10 none ∷ record_at 11 none ∷ [])
    ∷ batch 2 12 14 false (record_at 12 none ∷ record_at 13 none ∷ [])
    ∷ batch 1 14 15 true (record_at 14 (some (0 ∷ 0 ∷ 0 ∷ 0 ∷ [])) ∷ [])
    ∷ batch 1 15 16 false (record_at 15 none ∷ [])
    ∷ []

data_reads : (p base next : ℕ) (l : List DefaultRecord) → Reads plain (batch p base next false l)
data_reads p base next l = record {
  checks = refl;
  producer = pos p;
  named = refl;
  aborts = false;
  marker = refl;
  ends = refl;
}

marker_reads : Reads plain (batch 1 14 15 true (record_at 14 (some (0 ∷ 0 ∷ 0 ∷ 0 ∷ [])) ∷ []))
unfolding contains_abort_marker parse
marker_reads = record {
  checks = refl;
  producer = pos 1;
  named = refl;
  aborts = true;
  marker = refl;
  ends = refl;
}

next_consumer_record-committed_example :
    (e : PartitionRecords) × (e.next_fetch_offset ≡ end_of (pos 11) log)
    × Gives plain
        (new_partition_records (map ok log) (some ((pos 1, pos 10) ∷ [])) (pos 11))
        (map
          (handed plain (λ o. o) (λ o. o) (λ o. refl) (λ o. refl))
          (filter (from_offset (pos 11)) (committed ((pos 1, pos 10) ∷ []) [] log)))
        e
unfolding ◌+ℤ◌
next_consumer_record-committed_example =
    next_consumer_record-committed plain (λ o. o) (λ o. o) (λ o. refl) (λ o. refl) refl
      ((pos 1, pos 10) ∷ []) log (pos 0) (pos 11)
      (
        refl,
        (refl, (refl, refl)),
        (refl, (refl, (refl, refl)), (refl, (refl, refl), (refl, (refl, refl), tt))),
      )
      refl
      (data_reads 1 10 12 _, (data_reads 2 12 14 _, (marker_reads, (data_reads 1 15 16 _, tt))))

committed_test :
    committed ((pos 1, pos 10) ∷ []) [] log
    ≡ record_at 12 none ∷ record_at 13 none ∷ record_at 15 none ∷ []
unfolding committed is_aborted is_marker_of contains_abort_marker parse
committed_test = refl
