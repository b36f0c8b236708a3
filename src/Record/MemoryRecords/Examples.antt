-- ===== src/Record/MemoryRecords/Examples.antt =====
-- Two messages of the oldest format and the first bytes of a third one.
use aiokafka.Base.{ℕ, zero, suc, List, [], ◌∷◌, ◌≡◌, refl, inl, arith, ok}
use aiokafka.Protocol.Integers.{pack_int, be_bytes}
use aiokafka.Record.Struct.{pack_struct}
use aiokafka.Record.MemoryRecords.{MemoryRecords, legacy_batch, new_memory_records, batch_in}
use aiokafka.Record.MemoryRecords.Cut.{IsSlice}
use aiokafka.Record.MemoryRecords.Split.{Splits, joined, new_memory_records-Splits}

abbrev zeros : ℕ → List ℕ
zeros zero = []
zeros (suc n) = 0 ∷ zeros n

-- A message without a key and a value, with the magic number 0.
abbrev message : List ℕ
message = 0 ∷ 0 ∷ 0 ∷ 0 ∷ 0 ∷ 0 ∷ 0 ∷ 0 ∷ 0 ∷ 0 ∷ 0 ∷ 14 ∷ zeros 14

message-IsSlice : IsSlice message
unfolding pack_struct pack_int be_bytes
message-IsSlice = record {
  head = zeros 8;
  size = 0 ∷ 0 ∷ 0 ∷ 14 ∷ [];
  body = zeros 14;
  whole = refl;
  head_size = refl;
  packed = refl;
  size_size = refl;
  long = omega arith;
}

new_memory_records-Splits_example :
    (s : MemoryRecords) × (new_memory_records (joined (message ∷ message ∷ []) (0 ∷ 0 ∷ []))
      ≡ (ok tt, s))
    × Splits s (legacy_batch message 0 ∷ legacy_batch message 0 ∷ [])
unfolding batch_in
new_memory_records-Splits_example =
    new_memory_records-Splits (message ∷ message ∷ [])
      (legacy_batch message 0 ∷ legacy_batch message 0 ∷ []) (0 ∷ 0 ∷ [])
      (message-IsSlice, (message-IsSlice, tt)) (refl, (refl, tt)) (inl (omega arith))
