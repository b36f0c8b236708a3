-- ===== src/Record/DefaultRecords/Builder.antt =====
-- The class _DefaultRecordBatchBuilderPy of aiokafka/record/default_records.py. Its arguments have the types
-- that `append` tests, and the clock is an argument.
use aiokafka.Base.{
  ℕ, zero, suc, ◌+◌, ◌-◌, Bool, true, false, not, ◌&&◌, Option, none, some, List, [], ◌∷◌, ◌++◌,
  take, drop, length, eqb, leb, ltb, ltb_ℤ, if◌then◌else◌, ℤ, pos, negsuc, ◌-ℤ◌, bit_and, bit_or,
}
use aiokafka.Base.{Result, ok, err, Exec, gets, ◌>>=◌, ◌>>◌, assertion_error}
use aiokafka.Protocol.Types.{Encoding}
use aiokafka.Record.Varint.{encode_varint, size_of_varint}
use aiokafka.Record.Struct.{pack_struct, uint_field}
use aiokafka.Record.Crc.{calc_crc32c}
use aiokafka.Record.DefaultRecords.{
  header_struct, header_size, attributes_offset, crc_offset, after_len_offset, codec_mask,
  transactional_mask, Codecs, assert_has_codec, Headers,
}

pub record RecordBatchBuilder : Type 0 where
  pub magic : ℕ
  pub compression_type : ℕ
  pub batch_size : ℕ
  pub is_transactional : Bool
  pub producer_id : ℤ
  pub producer_epoch : ℤ
  pub base_sequence : ℤ
  pub first_timestamp : Option ℤ
  pub max_timestamp : Option ℤ
  pub last_offset : ℤ
  pub num_records : ℕ
  pub buffer : List ℕ

abbrev pub zeros : ℕ → List ℕ
zeros zero = []
zeros (suc n) = 0 ∷ zeros n

-- `__init__`, which asserts that the magic number is at least 2.
unfoldable pub new_record_builder : ℕ → ℕ → Bool → ℤ → ℤ → ℤ → ℕ → Result RecordBatchBuilder
new_record_builder magic compression_type is_transactional producer_id producer_epoch base_sequence
      batch_size =
    if leb 2 magic
    then ok (record {
      magic = magic;
      compression_type = bit_and compression_type codec_mask;
      batch_size = batch_size;
      is_transactional = is_transactional;
      producer_id = producer_id;
      producer_epoch = producer_epoch;
      base_sequence = base_sequence;
      first_timestamp = none;
      max_timestamp = none;
      last_offset = pos 0;
      num_records = 0;
      buffer = zeros header_size;
    })
    else err assertion_error

unfoldable pub get_attributes : Bool → RecordBatchBuilder → ℕ
get_attributes include_compression_type b =
    bit_or (if include_compression_type then b.compression_type else 0)
      (if b.is_transactional then transactional_mask else 0)

abbrev pub varint_bytes : ℤ → List ℕ
varint_bytes n = (encode_varint n).0

-- None is the size -1, which is the byte 1.
unfoldable pub nullable : Option (List ℕ) → List ℕ
nullable none = 1 ∷ []
nullable (some bytes) = varint_bytes (pos (length bytes)) ++ bytes

module _ (encoding : Encoding) where
  unfoldable pub header_bytes : Headers → List ℕ
  unfolding nullable
  header_bytes [] = []
  header_bytes ((key, value) ∷ rest) =
      varint_bytes (pos (length (encoding.encode_text key)))
      ++ (encoding.encode_text key ++ (nullable value ++ header_bytes rest))

  -- The record without its length.
  unfoldable pub message_bytes : ℤ → ℤ → Option (List ℕ) → Option (List ℕ) → Headers → List ℕ
  unfolding nullable header_bytes
  message_bytes timestamp_delta offset key value headers =
      (0 ∷ [])
      ++ (varint_bytes timestamp_delta
          ++ (varint_bytes offset
              ++ (nullable key
                  ++ (nullable value
                      ++ (varint_bytes (pos (length headers)) ++ header_bytes headers)))))

abbrev pub or_now : ℕ → Option ℤ → ℤ
or_now now none = pos now
or_now now (some timestamp) = timestamp

abbrev pub is_first : Option ℤ → Bool
is_first none = true
is_first (some timestamp) = false

-- The first record sets both timestamps, also if it is not written.
abbrev pub start_from : ℤ → RecordBatchBuilder → RecordBatchBuilder
start_from timestamp b =
    if is_first b.first_timestamp
    then record b { first_timestamp = some timestamp; max_timestamp = some timestamp }
    else b

abbrev pub delta_from : ℤ → Option ℤ → ℤ
delta_from timestamp none = pos 0
delta_from timestamp (some first) = timestamp -ℤ first

abbrev pub later : ℤ → Option ℤ → Option ℤ
later timestamp none = none
later timestamp (some last) = if ltb_ℤ last timestamp then some timestamp else some last

pub record RecordMetadata : Type 0 where
  pub offset : ℤ
  pub size : ℕ
  pub timestamp : ℤ

abbrev pub required_size : List ℕ → ℕ
required_size message = length message + size_of_varint (pos (length message))

-- The part of `append` that has the message.
unfoldable pub append_message :
    Bool → ℤ → ℤ → List ℕ → RecordBatchBuilder → Option RecordMetadata × RecordBatchBuilder
append_message first_message offset timestamp message b =
    if ltb b.batch_size (required_size message + length b.buffer) && not first_message
    then (none, b)
    else (
      some (record { offset = offset; size = required_size message; timestamp = timestamp }),
      record b {
        max_timestamp = later timestamp b.max_timestamp;
        num_records = b.num_records + 1;
        last_offset = offset;
        buffer = b.buffer ++ (varint_bytes (pos (length message)) ++ message);
      },
    )

unfoldable pub size_of_nullable : Option (List ℕ) → ℕ
size_of_nullable none = 1
size_of_nullable (some bytes) = size_of_varint (pos (length bytes)) + length bytes

module _ (encoding : Encoding) where
  unfoldable pub append :
      ℕ
      → ℤ
      → Option ℤ
      → Option (List ℕ)
      → Option (List ℕ)
      → Headers
      → RecordBatchBuilder
      → Option RecordMetadata × RecordBatchBuilder
  unfolding append_message message_bytes
  append now offset timestamp key value headers b =
      let t = or_now now timestamp in
      append_message (is_first b.first_timestamp) offset t
        (message_bytes encoding (delta_from t b.first_timestamp) offset key value headers)
        (start_from t b)

  unfoldable pub size_of_headers : Headers → ℕ
  unfolding size_of_nullable
  size_of_headers [] = 0
  size_of_headers ((key, value) ∷ rest) =
      size_of_varint (pos (length (encoding.encode_text key)))
      + length (encoding.encode_text key)
      + size_of_nullable value
      + size_of_headers rest

  unfoldable pub size_of : Option (List ℕ) → Option (List ℕ) → Headers → ℕ
  unfolding size_of_headers size_of_nullable
  size_of key value headers =
      size_of_nullable key
      + size_of_nullable value
      + size_of_varint (pos (length headers))
      + size_of_headers headers

  unfoldable pub size_in_bytes :
      ℤ → ℤ → Option (List ℕ) → Option (List ℕ) → Headers → RecordBatchBuilder → ℕ
  unfolding size_of
  size_in_bytes offset timestamp key value headers b =
      let size_of_body =
        1
        + size_of_varint offset
        + size_of_varint (delta_from timestamp b.first_timestamp)
        + size_of key value headers in
      size_of_body + size_of_varint (pos size_of_body)

  abbrev max_record_overhead : ℕ
  max_record_overhead = 21

  unfoldable pub estimate_size_in_bytes : Option (List ℕ) → Option (List ℕ) → Headers → ℕ
  unfolding size_of
  estimate_size_in_bytes key value headers =
      header_size + max_record_overhead + size_of key value headers

abbrev pub or_zero : Option ℤ → ℤ
or_zero none = pos 0
or_zero (some n) = n

-- `buffer[i:i + len(bytes)] = bytes`, inside the buffer
abbrev pub overwrite : ℕ → List ℕ → List ℕ → List ℕ
overwrite i bytes buffer = take i buffer ++ (bytes ++ drop (i + length bytes) buffer)

abbrev pub with_header :
    RecordBatchBuilder → Result (List ℕ) → Result (Unit {0}) × RecordBatchBuilder
with_header b (err e) = (err e, b)
with_header b (ok header) = (ok tt, record b { buffer = overwrite 0 header b.buffer })

-- The values of the header, with a checksum.
abbrev pub header_values : Bool → ℤ → RecordBatchBuilder → List ℤ
header_values use_compression_type crc b =
    pos 0
    ∷ pos (length b.buffer - after_len_offset)
    ∷ negsuc 0
    ∷ pos b.magic
    ∷ crc
    ∷ pos (get_attributes use_compression_type b)
    ∷ b.last_offset
    ∷ or_zero b.first_timestamp
    ∷ or_zero b.max_timestamp
    ∷ b.producer_id
    ∷ b.producer_epoch
    ∷ b.base_sequence
    ∷ pos b.num_records
    ∷ []

abbrev pub with_crc : RecordBatchBuilder → Result (List ℕ) → Result (Unit {0}) × RecordBatchBuilder
with_crc b (err e) = (err e, b)
with_crc b (ok crc) = (ok tt, record b { buffer = overwrite crc_offset crc b.buffer })

abbrev pub write_crc : RecordBatchBuilder → Result (Unit {0}) × RecordBatchBuilder
write_crc b =
    with_crc b
      (pack_struct (uint_field ∷ []) (pos (calc_crc32c (drop attributes_offset b.buffer)) ∷ []))

unfoldable pub write_header : Bool → Exec RecordBatchBuilder (Unit {0})
write_header use_compression_type = do
  packed ← gets (λ b. pack_struct header_struct (header_values use_compression_type (pos 0) b))
  λ b. with_header b packed
  write_crc

module _ (codecs : Codecs) where
  abbrev compressed : RecordBatchBuilder → Result (Unit {0}) → Result Bool × RecordBatchBuilder
  compressed b (err e) = (err e, b)
  compressed b (ok u) =
      let block = drop header_size b.buffer in
      let bytes = codecs.encode_bytes b.compression_type block in
      if leb (length block) (length bytes)
      then (ok false, b)
      else (ok true, record b { buffer = take header_size b.buffer ++ bytes })

  -- Whether the block is sent compressed, which is if that makes it shorter.
  unfoldable pub maybe_compress : Exec RecordBatchBuilder Bool
  maybe_compress b =
      if eqb b.compression_type 0
      then (ok false, b)
      else compressed b (assert_has_codec codecs b.compression_type)

  unfoldable pub build : Exec RecordBatchBuilder (List ℕ)
  unfolding maybe_compress write_header
  build = do send_compressed ← maybe_compress; write_header send_compressed; gets (λ b. b.buffer)

unfoldable pub set_producer_state : ℤ → ℤ → ℤ → RecordBatchBuilder → RecordBatchBuilder
set_producer_state producer_id producer_epoch base_sequence b = record b {
  producer_id = producer_id;
  producer_epoch = producer_epoch;
  base_sequence = base_sequence;
}
