-- ===== src/Consumer/FetchResult/Examples.antt =====
-- One record of two, and the other one later.
use aiokafka.Base.{
  ℕ, true, false, Option, none, some, List, [], ◌∷◌, refl, ◌+ℤ◌, arith, pos, negsuc, ok,
}
use aiokafka.Base.Futures.{pending}
use aiokafka.Record.DefaultRecords.{DefaultRecord}
use aiokafka.Consumer.PartitionState.{Held, new_state, consuming}
use aiokafka.Consumer.PartitionRecords.{
  RecordBatch, Config, ConsumerRecord, PartitionRecords, next_consumer_record, unpack_records,
  open_batch, iterate, enter, consumer_record,
}
use aiokafka.Consumer.FetchResult.{getall}
use aiokafka.Consumer.FetchResult.Paging.{getall-Gives, Page, holding}

abbrev Bytes : Type 0
Bytes = Option (List ℕ)

abbrev uncommitted : Config Bytes Bytes
uncommitted = record {
  tp = record { topic = "t"; partition = 0 };
  key_deserializer = λ o. ok o;
  value_deserializer = λ o. ok o;
  check_crcs = false;
  read_committed = false;
}

abbrev record_at : ℕ → DefaultRecord
record_at n = record {
  offset = pos n;
  timestamp = pos 5;
  timestamp_type = 0;
  key = none;
  value = some (n ∷ []);
  headers = [];
}

abbrev message_at : ℕ → ConsumerRecord Bytes Bytes
message_at n = record {
  topic = "t";
  partition = 0;
  offset = pos n;
  timestamp = pos 5;
  timestamp_type = 0;
  key = none;
  value = some (n ∷ []);
  checksum = none;
  serialized_key_size = negsuc 0;
  serialized_value_size = pos 1;
  headers = [];
}

abbrev two_records : RecordBatch
two_records = record {
  valid_crc = ok true;
  producer_id = none;
  base_offset = pos 7;
  next_offset = pos 9;
  is_control_batch = false;
  is_transactional = false;
  records = record_at 7 ∷ record_at 8 ∷ [];
  ends_with = none;
}

abbrev at_start : PartitionRecords
at_start = record {
  batches = ok two_records ∷ [];
  current = none;
  aborted_transactions = [];
  aborted_producers = [];
  next_fetch_offset = pos 7;
  exhausted = false;
}

abbrev at_end : PartitionRecords
at_end = record at_start { batches = []; next_fetch_offset = pos 9; exhausted = true }

abbrev held : Held
held = record {
  futures = record { next = 1; at = λ n. pending };
  commits = record { next = 0; at = λ n. pending };
  refresh = false;
  it = record (new_state 0) { position = some (pos 7); status = consuming };
}

getall-Gives_example :
    Page uncommitted
      (some 1)
      held
      []
      (message_at 7 ∷ message_at 8 ∷ [])
      at_end
      (getall uncommitted 3 true (some 1) (holding at_start held))
unfolding next_consumer_record unpack_records open_batch iterate enter consumer_record ◌+ℤ◌
getall-Gives_example =
    getall-Gives uncommitted (message_at 7 ∷ message_at 8 ∷ []) 3 (some 1) at_start at_end held
      (_, refl, (_, refl, refl)) refl refl refl (omega arith) refl
