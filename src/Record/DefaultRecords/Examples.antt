-- ===== src/Record/DefaultRecords/Examples.antt =====
-- Batches on concrete messages.
use aiokafka.Base.{
  ℕ, ◌-ℤ◌, true, none, some, List, [], ◌∷◌, map, length, ◌≡◌, ◌+◌, ◌≤◌, refl, inl, arith, pos,
  negsuc, ok,
}
use aiokafka.Protocol.Types.{Encoding}
use aiokafka.Record.Varint.{
  zigzag, encode_unsigned, encode_varint, size_of_varint, size_of_unsigned,
}
use aiokafka.Record.DefaultRecords.{Codecs, header_size}
use aiokafka.Record.DefaultRecords.Builder.{
  RecordBatchBuilder, RecordMetadata, zeros, new_record_builder, append, append_message,
  message_bytes, nullable, header_bytes, build, set_producer_state, get_attributes, size_in_bytes,
  estimate_size_in_bytes,
}
use aiokafka.Record.DefaultRecords.Rounds.Block.{Message, append_one}
use aiokafka.Record.DefaultRecords.Rounds.Iterated.{as_record, FitsIn}
use aiokafka.Record.DefaultRecords.Rounds.Whole.{ReadsBack}
use aiokafka.Record.DefaultRecords.Rounds.Built.{build-ReadsBack}
use aiokafka.Record.DefaultRecords.Sizes.{append-size_in_bytes}

abbrev latin1 : Encoding
latin1 = record { encode_text = λ t. t; decode_text = λ bytes. ok bytes }

-- A codec that leaves the bytes as they are, for which the batch is sent uncompressed.
abbrev identity : Codecs
identity = record {
  has_codec = λ c. true;
  encode_bytes = λ c bytes. bytes;
  decode_bytes = λ c bytes. ok bytes;
}

abbrev first_message : Message
first_message = record {
  offset = pos 0;
  timestamp = pos 1000;
  key = some (1 ∷ 2 ∷ []);
  value = none;
  headers = (104 ∷ [], some (9 ∷ [])) ∷ [];
}

abbrev second_message : Message
second_message = record {
  offset = pos 1;
  timestamp = pos 990;
  key = none;
  value = some (3 ∷ []);
  headers = [];
}

abbrev empty_batch : RecordBatchBuilder
empty_batch = record {
  magic = 2;
  compression_type = 0;
  batch_size = 1000;
  is_transactional = true;
  producer_id = negsuc 0;
  producer_epoch = negsuc 0;
  base_sequence = pos 0;
  first_timestamp = none;
  max_timestamp = none;
  last_offset = pos 0;
  num_records = 0;
  buffer = zeros header_size;
}

abbrev one_message : RecordBatchBuilder
one_message = (append_one latin1 5 first_message empty_batch).1

abbrev two_messages : RecordBatchBuilder
two_messages = (append_one latin1 5 second_message one_message).1

first_message-FitsIn : FitsIn latin1 (λ t. refl) (pos 1000) first_message
unfolding encode_varint encode_unsigned zigzag ◌-ℤ◌ message_bytes nullable header_bytes
first_message-FitsIn = record {
  fields = record {
    delta_fits = omega arith;
    offset_fits = omega arith;
    key_fits = omega arith;
    value_fits = tt;
    count_fits = omega arith;
    headers_fit = ((omega arith, omega arith), tt);
  };
  whole = omega arith;
}

second_message-FitsIn : FitsIn latin1 (λ t. refl) (pos 1000) second_message
unfolding encode_varint encode_unsigned zigzag ◌-ℤ◌ message_bytes nullable header_bytes
second_message-FitsIn = record {
  fields = record {
    delta_fits = omega arith;
    offset_fits = omega arith;
    key_fits = tt;
    value_fits = omega arith;
    count_fits = omega arith;
    headers_fit = tt;
  };
  whole = omega arith;
}

build-ReadsBack_example :
    (bytes : List ℕ) × ((build identity (set_producer_state (pos 7) (pos 1) (pos 4) two_messages)).0
      ≡ ok bytes)
    × ReadsBack latin1 identity true
        (pos 1)
        (pos 7)
        (pos 1)
        (pos 4)
        bytes
        (map as_record (first_message ∷ second_message ∷ []))
unfolding new_record_builder append append_message set_producer_state get_attributes size_of_varint
    size_of_unsigned encode_varint encode_unsigned zigzag ◌-ℤ◌ message_bytes nullable header_bytes
build-ReadsBack_example =
    build-ReadsBack latin1 (λ t. refl) identity (λ c bytes. refl) 2 0 true (pos 7) (pos 1) (pos 4)
      1000 5 empty_batch two_messages first_message (second_message ∷ []) refl
      (
        (record { offset = pos 0; size = 13; timestamp = pos 1000 }, refl),
        ((record { offset = pos 1; size = 8; timestamp = pos 990 }, refl), refl),
      )
      (inl refl) (first_message-FitsIn, (second_message-FitsIn, tt))
      (
        omega arith,
        (
          omega arith,
          (
            omega arith,
            (
              omega arith,
              (
                omega arith,
                (
                  omega arith,
                  (
                    omega arith,
                    (
                      omega arith,
                      (omega arith, (omega arith, (omega arith, (omega arith, (omega arith, tt))))),
                    ),
                  ),
                ),
              ),
            ),
          ),
        ),
      )

abbrev second_metadata : RecordMetadata
second_metadata = record { offset = pos 1; size = 8; timestamp = pos 990 }

append-size_in_bytes_example :
    (second_metadata.size
      ≡ size_in_bytes latin1 (pos 1) (pos 990) none (some (3 ∷ [])) [] one_message)
    × (length
          (append latin1 5 (pos 1) (some (pos 990)) none (some (3 ∷ [])) [] one_message).1.buffer
        ≡ length one_message.buffer + second_metadata.size)
    × (header_size + second_metadata.size ≤ estimate_size_in_bytes latin1 none (some (3 ∷ [])) [])
unfolding append append_message size_of_varint size_of_unsigned encode_varint encode_unsigned zigzag
    ◌-ℤ◌ message_bytes nullable header_bytes
append-size_in_bytes_example =
    append-size_in_bytes latin1 (λ t. refl) 5 1 (pos 990) none (some (3 ∷ [])) [] one_message
      second_metadata refl (second_message-FitsIn.fields) (omega arith) (omega arith)
