-- ===== src/Consumer/FetchedBatch/Examples.antt =====
-- A batch of one message without a key and a value.
use aiokafka.Base.{
  map, filter, Option, true, some, ℕ, ◌-ℤ◌, true, false, none, some, List, [], ◌∷◌, ◌≡◌, refl, inl,
  arith, pos, negsuc, ok,
}
use aiokafka.Protocol.Types.{Encoding}
use aiokafka.Record.Varint.{
  zigzag, encode_unsigned, encode_varint, size_of_varint, size_of_unsigned,
}
use aiokafka.Record.DefaultRecords.{Codecs, header_size}
use aiokafka.Record.DefaultRecords.Builder.{
  RecordBatchBuilder, zeros, new_record_builder, append, append_message, message_bytes, nullable,
  header_bytes, set_producer_state, get_attributes,
}
use aiokafka.Record.DefaultRecords.Rounds.Block.{Message, append_one}
use aiokafka.Record.DefaultRecords.Rounds.Iterated.{as_record, FitsIn}
use aiokafka.Consumer.FetchedBatch.{fetched}
use aiokafka.Consumer.FetchedBatch.Delivered.{build-Gives}
use aiokafka.Consumer.PartitionRecords.{Config, PartitionRecords, new_partition_records}
use aiokafka.Consumer.PartitionRecords.Running.{from_offset, Gives, handed}
use aiokafka.Record.DefaultRecords.Batch.{DefaultRecordBatch, new_batch}
use aiokafka.Record.DefaultRecords.{header_struct}
use aiokafka.Record.DefaultRecords.Builder.{build, header_values}
use aiokafka.Record.Struct.RoundTrip.{AllFit}

abbrev latin1 : Encoding
latin1 = record { encode_text = λ t. t; decode_text = λ bytes. ok bytes }

abbrev identity : Codecs
identity = record {
  has_codec = λ c. true;
  encode_bytes = λ c bytes. bytes;
  decode_bytes = λ c bytes. ok bytes;
}

abbrev tombstone : Message
tombstone = record { offset = pos 0; timestamp = pos 9; key = none; value = none; headers = [] }

abbrev unfilled : RecordBatchBuilder
unfilled = record {
  magic = 2;
  compression_type = 0;
  batch_size = 100;
  is_transactional = false;
  producer_id = negsuc 0;
  producer_epoch = negsuc 0;
  base_sequence = pos 0;
  first_timestamp = none;
  max_timestamp = none;
  last_offset = pos 0;
  num_records = 0;
  buffer = zeros header_size;
}

tombstone-FitsIn : FitsIn latin1 (λ t. refl) (pos 9) tombstone
unfolding encode_varint encode_unsigned zigzag ◌-ℤ◌ message_bytes nullable header_bytes
tombstone-FitsIn = record {
  fields = record {
    delta_fits = omega arith;
    offset_fits = omega arith;
    key_fits = tt;
    value_fits = tt;
    count_fits = omega arith;
    headers_fit = tt;
  };
  whole = omega arith;
}

abbrev Bytes : Type 0
Bytes = Option (List ℕ)

abbrev plain : Config Bytes Bytes
plain = record {
  tp = record { topic = "t"; partition = 0 };
  key_deserializer = λ o. ok o;
  value_deserializer = λ o. ok o;
  check_crcs = true;
  read_committed = true;
}

abbrev filled : RecordBatchBuilder
filled = set_producer_state (pos 7) (pos 1) (pos 4) (append_one latin1 5 tombstone unfilled).1

filled-AllFit : AllFit header_struct (header_values true (pos 0) filled)
unfolding new_record_builder append append_message set_producer_state get_attributes size_of_varint
    size_of_unsigned encode_varint encode_unsigned zigzag ◌-ℤ◌ message_bytes nullable header_bytes
filled-AllFit = (
  omega arith,
  (
    omega arith,
    (
      omega arith,
      (
        omega arith,
        (
          omega arith,
          (
            omega arith,
            (
              omega arith,
              (
                omega arith,
                (omega arith, (omega arith, (omega arith, (omega arith, (omega arith, tt))))),
              ),
            ),
          ),
        ),
      ),
    ),
  ),
)

build-Gives_example :
    (bytes : List ℕ) × (batch : DefaultRecordBatch) × (e : PartitionRecords) × ((build identity
        filled).0
      ≡ ok bytes)
    × (new_batch bytes ≡ ok batch)
    × Gives plain
        (new_partition_records (ok (fetched latin1 identity batch) ∷ []) (some []) (pos 0))
        (map
          (handed plain (λ o. o) (λ o. o) (λ o. refl) (λ o. refl))
          (filter (from_offset (pos 0)) (as_record tombstone ∷ [])))
        e
    × (e.next_fetch_offset ≡ pos 1)
unfolding new_record_builder append append_message set_producer_state get_attributes size_of_varint
    size_of_unsigned encode_varint encode_unsigned zigzag ◌-ℤ◌ message_bytes nullable header_bytes
build-Gives_example =
    build-Gives latin1 (λ t. refl) identity (λ c bytes. refl) plain (λ o. o) (λ o. o) (λ o. refl)
      (λ o. refl) refl 2 0 false (pos 7) (pos 1) (pos 4) 100 5 0 unfilled
      (append_one latin1 5 tombstone unfilled).1 tombstone [] refl ((_, refl), refl) (inl refl)
      (tombstone-FitsIn, tt) filled-AllFit (refl, tt) (omega arith)
