-- ===== src/Record/MemoryRecords/Split.antt =====
-- A buffer of whole batches, perhaps with the start of another one, is split into them.
use aiokafka.Base.{
  ℕ, false, ltb, none, some, List, [], ◌∷◌, ◌++◌, length, length-append, All, ◌≡◌, refl, ap, ◌∙◌,
  arith, ℤ, pos, corrupt_record, ok, err, if◌then◌else◌,
}
use aiokafka.Record.MemoryRecords.{
  MemoryRecords, NextBatch, min_slice, cache_next, new_memory_records, some_batch, batch_after,
  batch_in, take_slice, next_batch,
}
use aiokafka.Record.MemoryRecords.Cut.{IsSlice, after, cut_next, IsPartial, cut_last}

-- The buffer of the batches and the tail.
abbrev pub joined : List (List ℕ) → List ℕ → List ℕ
joined [] tail = tail
joined (s ∷ l) tail = s ++ joined l tail

-- `while records.has_next(): records.next_batch()` gives just these batches.
abbrev pub Splits : MemoryRecords → List NextBatch → Type 0
Splits s [] = next_batch s ≡ (ok none, s)
Splits s (b ∷ l) = (t : MemoryRecords) × (next_batch s ≡ (ok (some b), t)) × Splits t l

abbrev pub Opens : List (List ℕ) → List NextBatch → Type 0
Opens [] [] = Unit
Opens (s ∷ l) (b ∷ bs) = (batch_in s ≡ ok b) × Opens l bs
Opens [] (b ∷ bs) = ⊥
Opens (s ∷ l) [] = ⊥

next_batch_lem :
    (s : MemoryRecords) (piece : List ℕ) (b : NextBatch) (t : MemoryRecords)
    → s.next_slice ≡ some piece
    → ltb (length piece) min_slice ≡ false
    → cache_next s ≡ (ok tt, t)
    → batch_in piece ≡ ok b
    → next_batch s ≡ (ok (some b), t)
unfolding next_batch
next_batch_lem s piece b t n l c o =
    ap (take_slice s) n
    ∙ ap (λ k. if k then (err corrupt_record, s) else batch_after piece (cache_next s)) l
    ∙ ap (batch_after piece) c
    ∙ ap (λ r. (some_batch r, t)) o

long_enough : (s : List ℕ) → IsSlice s → ltb (length s) min_slice ≡ false
long_enough s h = ground (
  arith,
  ap length h.whole,
  length-append h.head (h.size ++ h.body),
  length-append h.size h.body,
  h.head_size,
  h.size_size,
  h.long,
)

walk :
    (l : List (List ℕ)) (bs : List NextBatch) (tail s before : List ℕ) (b : NextBatch) (m : ℤ)
    → IsPartial tail
    → IsSlice s
    → batch_in s ≡ ok b
    → All IsSlice l
    → Opens l bs
    → Splits (after before (joined l tail) (some s) m) (b ∷ bs)
walk [] [] tail s before b m p h o hs os = (
  _,
  next_batch_lem _ s b _ refl (long_enough s h) (cut_last before tail (some s) m p) o,
  unfold next_batch in refl,
)
walk [] (c ∷ bs) tail s before b m p h o hs os = absurd os
walk (x ∷ l) [] tail s before b m p h o hs os = absurd os
walk (x ∷ l) (c ∷ bs) tail s before b m p h o (hx, hs) (ox, os) = (
  _,
  next_batch_lem _ s b _ refl (long_enough s h) (cut_next before x (joined l tail) (some s) m hx) o,
  walk l bs tail x (before ++ x) c m p hx ox hs os,
)

-- A buffer of whole batches that can be opened, with a part of another one behind them, is read without an
-- error as just these batches, and then the iteration ends.
pub new_memory_records-Splits :
    (l : List (List ℕ)) (bs : List NextBatch) (tail : List ℕ)
    → All IsSlice l
    → Opens l bs
    → IsPartial tail
    → (s : MemoryRecords) × (new_memory_records (joined l tail) ≡ (ok tt, s)) × Splits s bs
unfolding new_memory_records
new_memory_records-Splits [] [] tail hs os p =
    (_, cut_last [] tail none (pos 0) p, unfold next_batch in refl)
new_memory_records-Splits [] (b ∷ bs) tail hs os p = absurd os
new_memory_records-Splits (s ∷ l) [] tail hs os p = absurd os
new_memory_records-Splits (s ∷ l) (b ∷ bs) tail (h, hs) (o, os) p =
    (_, cut_next [] s (joined l tail) none (pos 0) h, walk l bs tail s s b (pos 0) p h o hs os)
