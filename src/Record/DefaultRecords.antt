-- ===== src/Record/DefaultRecords.antt =====
-- aiokafka/record/default_records.py: the batches of message format 2. DefaultRecordBase is here, the class
-- that reads a batch in Batch and the one that builds it in Builder. The compression libraries and the
-- encoding of texts are arguments.
pub mod Batch
pub mod Builder
pub mod Records
pub mod Sizes
pub mod Rounds
mod Examples
use aiokafka.Base.{
  ℕ, zero, suc, ◌+◌, ◌-◌, ◌^◌, Bool, true, false, Option, none, some, List, [], ◌∷◌, eqb, leb, ◌&&◌,
  if◌then◌else◌, ℤ, pos, negsuc, bit_and, length, Result, ok, err, unsupported_codec,
}
use aiokafka.Record.Struct.{Field, int_field, uint_field}

-- `>qiibIhiqqqhii`
abbrev pub header_struct : List Field
header_struct =
    int_field 7
    ∷ int_field 3
    ∷ int_field 3
    ∷ int_field 0
    ∷ uint_field
    ∷ int_field 1
    ∷ int_field 3
    ∷ int_field 7
    ∷ int_field 7
    ∷ int_field 7
    ∷ int_field 1
    ∷ int_field 3
    ∷ int_field 3
    ∷ []

abbrev pub header_size : ℕ
header_size = 61

abbrev pub attributes_offset : ℕ
attributes_offset = 21

abbrev pub crc_offset : ℕ
crc_offset = 17

abbrev pub after_len_offset : ℕ
after_len_offset = 12

abbrev pub codec_mask : ℕ
codec_mask = 0x07

abbrev pub timestamp_type_mask : ℕ
timestamp_type_mask = 0x08

abbrev pub transactional_mask : ℕ
transactional_mask = 0x10

abbrev pub control_mask : ℕ
control_mask = 0x20

-- The codecs 1 to 4, gzip, snappy, lz4 and zstd: whether the library is there, and its two functions.
pub record Codecs : Type 0 where
  pub has_codec : ℕ → Bool
  pub encode_bytes : ℕ → List ℕ → List ℕ
  pub decode_bytes : ℕ → List ℕ → Result (List ℕ)

unfoldable pub assert_has_codec : Codecs → ℕ → Result (Unit {0})
assert_has_codec codecs compression_type =
    if leb 1 compression_type && leb compression_type 4
    then (if codecs.has_codec compression_type then ok tt else err unsupported_codec)
    else err unsupported_codec

-- A key of a header is a text, by the characters' numbers, and bytes are numbers below 256.
abbrev pub Headers : Type 0
Headers = List (List ℕ × Option (List ℕ))

pub record DefaultRecord : Type 0 where
  pub offset : ℤ
  pub timestamp : ℤ
  pub timestamp_type : ℕ
  pub key : Option (List ℕ)
  pub value : Option (List ℕ)
  pub headers : Headers
