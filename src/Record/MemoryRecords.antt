-- ===== src/Record/MemoryRecords.antt =====
-- The class _MemoryRecordsPy of aiokafka/record/memory_records.py, which splits a fetched buffer into batches.
pub mod Cut
pub mod Split
mod Examples
use aiokafka.Base.{
  ℕ, ◌+◌, ◌-◌, suc, leb, ltb, ltb_ℤ, Bool, true, false, Option, none, some, is_some, List, [], ◌∷◌,
  take, drop, get_elem?, length, if◌then◌else◌, ℤ, pos, negsuc, ◌+ℤ◌, ◌-ℤ◌,
}
use aiokafka.Base.{
  Result, ok, err, Exec, pure, raise, gets, modify, continue, ◌>>=◌, ◌>>◌, corrupt_record,
  struct_error, index_error,
}
use aiokafka.Record.Struct.{Field, int_field, unpack_struct}
use aiokafka.Record.DefaultRecords.Batch.{DefaultRecordBatch, new_batch}

abbrev pub length_offset : ℕ
length_offset = 8

abbrev pub log_overhead : ℕ
log_overhead = 12

abbrev pub magic_offset : ℕ
magic_offset = 16

abbrev pub min_slice : ℕ
min_slice = 26

pub record MemoryRecords : Type 0 where
  pub buffer : List ℕ
  pub at : ℤ
  pub next_slice : Option (List ℕ)
  pub remaining_bytes : ℤ

-- Python counts an offset below 0 from the end.
abbrev pub index_in : ℕ → ℤ → ℕ
index_in size (pos n) = n
index_in size (negsuc m) = size - suc m

-- `buffer[i:j]`
abbrev pub slice : List ℕ → ℤ → ℤ → List ℕ
slice buffer i j =
    let start = index_in (length buffer) i in
    take (index_in (length buffer) j - start) (drop start buffer)

abbrev pub unpack_at : List Field → List ℕ → ℤ → Result (List ℤ)
unpack_at fs buffer (pos n) = unpack_struct fs (drop n buffer)
unpack_at fs buffer (negsuc m) =
    if leb (suc m) (length buffer)
    then unpack_struct fs (drop (length buffer - suc m) buffer)
    else err struct_error

abbrev pub no_slice : ℤ → MemoryRecords → MemoryRecords
no_slice remaining s = record s { remaining_bytes = remaining; next_slice = none }

abbrev pub cut_slice : ℤ → MemoryRecords → Result (List ℤ) → Result (Unit {0}) × MemoryRecords
cut_slice remaining s (err e) = (err e, s)
cut_slice remaining s (ok []) = (err index_error, s)
cut_slice remaining s (ok (size ∷ l)) =
    let slice_end = s.at +ℤ pos log_overhead +ℤ size in
    if ltb_ℤ (pos (length s.buffer)) slice_end
    then (ok tt, no_slice remaining s)
    else (ok tt, record s { next_slice = some (slice s.buffer s.at slice_end); at = slice_end })

-- `_cache_next`
unfoldable pub cache_next : Exec MemoryRecords (Unit {0})
cache_next s =
    let remaining = pos (length s.buffer) -ℤ s.at in
    if ltb_ℤ remaining (pos log_overhead)
    then (ok tt, no_slice remaining s)
    else cut_slice remaining s (unpack_at (int_field 3 ∷ []) s.buffer (s.at +ℤ pos length_offset))

abbrev pub start : List ℕ → MemoryRecords
start bytes_data = record {
  buffer = bytes_data;
  at = pos 0;
  next_slice = none;
  remaining_bytes = pos 0;
}

-- `__init__`
unfoldable pub new_memory_records : List ℕ → Result (Unit {0}) × MemoryRecords
new_memory_records bytes_data = cache_next (start bytes_data)

pub size_in_bytes : MemoryRecords → ℕ
size_in_bytes s = length s.buffer

pub has_next : MemoryRecords → Bool
has_next s = is_some s.next_slice

-- A batch of message format 2, or a slice for LegacyRecordBatch with its magic number.
pub data NextBatch : Type 0 where
  default_batch : DefaultRecordBatch → NextBatch
  legacy_batch : List ℕ → ℕ → NextBatch

abbrev pub as_default : Result DefaultRecordBatch → Result NextBatch
as_default (err e) = err e
as_default (ok b) = ok (default_batch b)

abbrev pub with_magic : List ℕ → Option ℕ → Result NextBatch
with_magic next_slice none = err index_error
with_magic next_slice (some magic) =
    if leb 2 magic then as_default (new_batch next_slice) else ok (legacy_batch next_slice magic)

-- The batch that a slice holds.
unfoldable pub batch_in : List ℕ → Result NextBatch
batch_in next_slice = with_magic next_slice (get_elem? next_slice magic_offset)

abbrev pub some_batch : Result NextBatch → Result (Option NextBatch)
some_batch (err e) = err e
some_batch (ok b) = ok (some b)

abbrev pub batch_after :
    List ℕ → Result (Unit {0}) × MemoryRecords → Result (Option NextBatch) × MemoryRecords
batch_after next_slice (err e, s) = (err e, s)
batch_after next_slice (ok u, s) = (some_batch (batch_in next_slice), s)

abbrev pub take_slice : MemoryRecords → Option (List ℕ) → Result (Option NextBatch) × MemoryRecords
take_slice s none = (ok none, s)
take_slice s (some next_slice) =
    if ltb (length next_slice) min_slice
    then (err corrupt_record, s)
    else batch_after next_slice (cache_next s)

unfoldable pub next_batch : Exec MemoryRecords (Option NextBatch)
next_batch s = take_slice s s.next_slice
