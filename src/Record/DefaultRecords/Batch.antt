-- ===== src/Record/DefaultRecords/Batch.antt =====
-- The class _DefaultRecordBatchPy of aiokafka/record/default_records.py.
use aiokafka.Base.{
  ℕ, zero, suc, ◌+◌, ◌-◌, ◌^◌, Bool, true, false, not, Option, none, some, List, [], ◌∷◌, drop,
  length, eqb, eqb_ℤ, leb_ℤ, if◌then◌else◌, ℤ, pos, negsuc, ◌+ℤ◌, bit_and,
}
use aiokafka.Base.{
  Result, ok, err, Exception, corrupt_record, value_error, index_error, assertion_error,
}
use aiokafka.Protocol.Types.{Encoding}
use aiokafka.Record.Reading.{Read, ◌>>=◌, pure, raise, lift, varint, slice, sized_as}
use aiokafka.Record.Struct.{unpack_struct}
use aiokafka.Record.Crc.{calc_crc32c}
use aiokafka.Record.DefaultRecords.{
  header_struct, header_size, attributes_offset, codec_mask, timestamp_type_mask,
  transactional_mask, control_mask, Codecs, assert_has_codec, Headers, DefaultRecord,
}

pub record DefaultRecordBatch : Type 0 where
  pub buffer : List ℕ
  pub header_data : List ℤ
  pub at : ℕ
  pub num_records : ℤ
  pub next_record_index : ℕ
  pub decompressed : Bool

-- `self._header_data[i]`; the header has thirteen fields.
unfoldable pub header_at : List ℤ → ℕ → ℤ
header_at [] i = pos 0
header_at (n ∷ l) zero = n
header_at (n ∷ l) (suc i) = header_at l i

abbrev of_header : List ℕ → Result (List ℤ) → Result DefaultRecordBatch
of_header buffer (err e) = err e
of_header buffer (ok header) = ok (record {
  buffer = buffer;
  header_data = header;
  at = header_size;
  num_records = header_at header 12;
  next_record_index = 0;
  decompressed = false;
})

-- `__init__`
unfoldable pub new_batch : List ℕ → Result DefaultRecordBatch
new_batch buffer = of_header buffer (unpack_struct header_struct buffer)

-- What `&` with a mask below 2 ^ 15 sees of a number of 16 bits.
abbrev pub low_bits : ℤ → ℕ
low_bits (pos n) = n
low_bits (negsuc m) = 2 ^ 16 - 1 - m

abbrev pub base_offset : DefaultRecordBatch → ℤ
base_offset b = header_at b.header_data 0

abbrev pub attributes : DefaultRecordBatch → ℕ
attributes b = low_bits (header_at b.header_data 5)

unfoldable pub compression_type : DefaultRecordBatch → ℕ
compression_type b = bit_and (attributes b) codec_mask

unfoldable pub timestamp_type : DefaultRecordBatch → ℕ
timestamp_type b = if eqb (bit_and (attributes b) timestamp_type_mask) 0 then 0 else 1

unfoldable pub is_transactional : DefaultRecordBatch → Bool
is_transactional b = not (eqb (bit_and (attributes b) transactional_mask) 0)

unfoldable pub is_control_batch : DefaultRecordBatch → Bool
is_control_batch b = not (eqb (bit_and (attributes b) control_mask) 0)

abbrev pub first_timestamp : DefaultRecordBatch → ℤ
first_timestamp b = header_at b.header_data 7

abbrev pub max_timestamp : DefaultRecordBatch → ℤ
max_timestamp b = header_at b.header_data 8

unfoldable pub next_offset : DefaultRecordBatch → ℤ
next_offset b = base_offset b +ℤ header_at b.header_data 6 +ℤ pos 1

-- `_maybe_uncompress`
abbrev pub uncompressed :
    DefaultRecordBatch → Result (List ℕ) → Result (Unit {0}) × DefaultRecordBatch
uncompressed b (err e) = (err e, b)
uncompressed b (ok bytes) = (ok tt, record b { buffer = bytes; at = 0; decompressed = true })

abbrev uncompress :
    Codecs → DefaultRecordBatch → Result (Unit {0}) → Result (Unit {0}) × DefaultRecordBatch
uncompress codecs b (err e) = (err e, b)
uncompress codecs b (ok u) =
    uncompressed b (codecs.decode_bytes (compression_type b) (drop b.at b.buffer))

unfoldable pub maybe_uncompress :
    Codecs → DefaultRecordBatch → Result (Unit {0}) × DefaultRecordBatch
maybe_uncompress codecs b =
    if b.decompressed
    then (ok tt, b)
    else if eqb (compression_type b) 0
    then (ok tt, record b { decompressed = true })
    else uncompress codecs b (assert_has_codec codecs (compression_type b))

-- A size and as many bytes, or none for a negative size.
unfoldable pub sized_bytes : ℤ → Read (Option (List ℕ))
sized_bytes (negsuc m) = pure none
sized_bytes (pos n) = do bytes ← slice n; pure (some bytes)

unfoldable pub nullable_bytes : Read (Option (List ℕ))
nullable_bytes = do size ← varint; sized_bytes size

module _ (encoding : Encoding) where
  unfoldable pub sized_text : ℤ → Read (List ℕ)
  sized_text (negsuc m) = raise corrupt_record
  sized_text (pos n) = do bytes ← slice n; lift (encoding.decode_text bytes)

  unfoldable pub read_headers : ℕ → Read Headers
  read_headers zero = pure []
  read_headers (suc n) = do
    size ← varint
    key ← sized_text size
    value ← nullable_bytes
    rest ← read_headers n
    pure ((key, value) ∷ rest)

  unfoldable pub counted_headers : ℤ → Read Headers
  counted_headers (negsuc m) = raise corrupt_record
  counted_headers (pos n) = read_headers n

  -- The fields of a record behind its length, with the attributes of the record skipped.
  unfoldable pub read_fields : DefaultRecordBatch → Read DefaultRecord
  read_fields b = do
    attrs ← varint
    ts_delta ← varint
    offset_delta ← varint
    key ← nullable_bytes
    value ← nullable_bytes
    header_count ← varint
    headers ← counted_headers header_count
    pure (record {
      offset = base_offset b +ℤ offset_delta;
      timestamp =
          if eqb (timestamp_type b) 1 then max_timestamp b else first_timestamp b +ℤ ts_delta;
      timestamp_type = timestamp_type b;
      key = key;
      value = value;
      headers = headers;
    })

  unfoldable pub read_msg : DefaultRecordBatch → Read DefaultRecord
  read_msg b = do size ← varint; sized_as corrupt_record size (read_fields b)

-- `except (ValueError, IndexError)`
abbrev pub as_corrupt : Exception → Exception
as_corrupt value_error = corrupt_record
as_corrupt index_error = corrupt_record
as_corrupt e = e

abbrev pub took :
    DefaultRecordBatch
    → Result (DefaultRecord × ℕ)
    → Result (Option DefaultRecord) × DefaultRecordBatch
took b (err e) = (err (as_corrupt e), b)
took b (ok (msg, p)) =
    (ok (some msg), record b { at = p; next_record_index = b.next_record_index + 1 })

module _ (encoding : Encoding) where
  -- `__next__`: none where the iteration stops.
  unfoldable pub next_record :
      DefaultRecordBatch → Result (Option DefaultRecord) × DefaultRecordBatch
  next_record b =
      if leb_ℤ b.num_records (pos b.next_record_index)
      then (if eqb b.at (length b.buffer) then (ok none, b) else (err corrupt_record, b))
      else took b (read_msg encoding b b.buffer b.at)

unfoldable pub validate_crc : DefaultRecordBatch → Result Bool
validate_crc b =
    if b.decompressed
    then err assertion_error
    else ok
        (eqb_ℤ (header_at b.header_data 4) (pos (calc_crc32c (drop attributes_offset b.buffer))))
