-- ===== src/Consumer/PartitionRecords/Log.antt =====
-- A log, and what of it a consumer that reads committed records should get.
use aiokafka.Base.{
  Bool, true, false, ◌&&◌, Option, none, some, List, [], ◌∷◌, ◌++◌, All, All-append, ◌≡◌, inl, inr,
  arith, leb_ℤ, ◌+ℤ◌, +ℤ_parts, if◌then◌else◌, Bool-cases, ℤ, pos,
}
use aiokafka.Base.Keys.{int_eq}
use aiokafka.Record.DefaultRecords.{DefaultRecord}
use aiokafka.Consumer.PartitionRecords.{RecordBatch, AbortedTransaction}
use aiokafka.Consumer.PartitionRecords.Aborted.{is_aborted}
use aiokafka.Consumer.PartitionRecords.Running.{RecordsIn, RecordsIn-All, from_offset}

abbrev pub visible_if : RecordBatch → Bool → List DefaultRecord
visible_if b aborted =
    if b.is_control_batch then [] else if b.is_transactional && aborted then [] else b.records

abbrev pub aborted_in : List AbortedTransaction → List RecordBatch → RecordBatch → Option ℤ → Bool
aborted_in transactions seen b none = false
aborted_in transactions seen b (some p) = is_aborted transactions seen p b.base_offset

-- The records of the log that are neither control records nor part of an aborted transaction. The batches
-- that came before are given newest first.
unfoldable pub committed :
    List AbortedTransaction → List RecordBatch → List RecordBatch → List DefaultRecord
committed transactions seen [] = []
committed transactions seen (b ∷ l) =
    visible_if b (aborted_in transactions (b ∷ seen) b b.producer_id)
    ++ committed transactions (b ∷ seen) l

-- Batches with their records in the order of the offsets, from an offset on.
abbrev pub InOrder : ℤ → List RecordBatch → Type 0
InOrder lo [] = Unit
InOrder lo (b ∷ l) =
    (leb_ℤ lo b.base_offset ≡ true)
    × RecordsIn b.base_offset b.next_offset b.records
    × InOrder b.next_offset l

-- The first batch reaches up to the offset that was asked for.
abbrev pub Reaches : ℤ → List RecordBatch → Type 0
Reaches n [] = Unit
Reaches n (b ∷ l) = leb_ℤ n b.next_offset ≡ true

abbrev pub end_of : ℤ → List RecordBatch → ℤ
end_of n [] = n
end_of n (b ∷ l) = end_of b.next_offset l

pub RecordsIn-leb : (lo hi : ℤ) (l : List DefaultRecord) → RecordsIn lo hi l → leb_ℤ lo hi ≡ true
RecordsIn-leb lo hi [] h = h
RecordsIn-leb lo hi (r ∷ l) (h, hs) =
    ground (arith, h, RecordsIn-leb (r.offset +ℤ pos 1) hi l hs, +ℤ_parts r.offset (pos 1))

pub InOrder-Reaches : (n : ℤ) (l : List RecordBatch) → InOrder n l → Reaches n l
InOrder-Reaches n [] h = tt
InOrder-Reaches n (b ∷ l) (h, hr, hs) =
    ground (arith, h, RecordsIn-leb b.base_offset b.next_offset b.records hr)

visible-All :
    (P : DefaultRecord → Type 0) (b : RecordBatch) (k : Bool)
    → All P b.records
    → All P (visible_if b k)
visible-All P b k h = elim (Bool-cases b.is_control_batch) [
  | inl e ↦ rw e tt
  | inr e ↦ elim (Bool-cases (b.is_transactional && k)) [
    | inl d ↦ rw (e, d) tt
    | inr d ↦ rw (e, d) h
  ]
]

pub committed-All :
    (transactions : List AbortedTransaction) (seen : List RecordBatch) (n lo : ℤ)
    (l : List RecordBatch)
    → leb_ℤ n lo ≡ true
    → InOrder lo l
    → All (λ r. from_offset n r ≡ true) (committed transactions seen l)
unfolding committed
committed-All transactions seen n lo [] e h = tt
committed-All transactions seen n lo (b ∷ l) e (h, hr, hs) =
    let k = aborted_in transactions (b ∷ seen) b b.producer_id in
    let below : leb_ℤ n b.base_offset ≡ true = ground (arith, e, h) in
    All-append (λ r. from_offset n r ≡ true) (visible_if b k) (committed transactions (b ∷ seen) l)
      (visible-All (λ r. from_offset n r ≡ true) b k
        (RecordsIn-All n b.base_offset b.next_offset b.records below hr))
      (committed-All transactions (b ∷ seen) n b.next_offset l
        (ground (arith, below, RecordsIn-leb b.base_offset b.next_offset b.records hr)) hs)
