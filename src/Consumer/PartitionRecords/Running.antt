-- ===== src/Consumer/PartitionRecords/Running.antt =====
-- The whole run of the generator over a log without errors.
use aiokafka.Base.{
  ℕ, Bool, true, false, not, Option, none, some, List, [], ◌∷◌, ◌++◌, map, All, filter, filter_all,
  ◌≡◌, refl, sym, ◌∙◌, inl, inr, arith, leb_ℤ, ltb_ℤ, ◌+ℤ◌, +ℤ_parts, Bool-cases, ℤ, pos, Result,
  ok, err,
}
use mathlib.Core.Path.{subst}
use aiokafka.Base.Keys.{int_eq}
use aiokafka.Record.DefaultRecords.{DefaultRecord}
use aiokafka.Consumer.PartitionRecords.{
  RecordBatch, Config, ConsumerRecord, PartitionRecords, Outcome, raises, goes_on, yields,
  consumer_record_of, consumer_record, iterate, close_generator, unpack_records,
  next_consumer_record,
}

-- The records of a batch, from an offset on and before another, in order.
abbrev pub RecordsIn : ℤ → ℤ → List DefaultRecord → Type 0
RecordsIn lo hi [] = leb_ℤ lo hi ≡ true
RecordsIn lo hi (r ∷ l) = (leb_ℤ lo r.offset ≡ true) × RecordsIn (r.offset +ℤ pos 1) hi l

abbrev pub from_offset : ℤ → DefaultRecord → Bool
from_offset n r = not (ltb_ℤ r.offset n)

pub RecordsIn-All :
    (n lo hi : ℤ) (l : List DefaultRecord)
    → leb_ℤ n lo ≡ true
    → RecordsIn lo hi l
    → All (λ r. from_offset n r ≡ true) l
RecordsIn-All n lo hi [] e h = tt
RecordsIn-All n lo hi (r ∷ l) e (h, hs) = (
  ground (arith, e, h),
  RecordsIn-All n (r.offset +ℤ pos 1) hi l (ground (arith, e, h, +ℤ_parts r.offset (pos 1))) hs,
)

module _ {K V : Type 0} (config : Config K V) where
  abbrev Step : Type 0
  Step = Result (Option (ConsumerRecord K V)) × PartitionRecords

  -- The results of the calls from the one on that gave x, up to the one that ends the iteration.
  abbrev pub Runs : Step → List (ConsumerRecord K V) → PartitionRecords → Type 0
  Runs x [] e = x ≡ (ok none, e)
  Runs x (c ∷ cs) e =
      (t : PartitionRecords) × (x ≡ (ok (some c), t)) × Runs (next_consumer_record config t) cs e

  -- The generator gives just these records and stops.
  abbrev pub Gives : PartitionRecords → List (ConsumerRecord K V) → PartitionRecords → Type 0
  Gives s = Runs (next_consumer_record config s)

  abbrev pub settle : List (Result RecordBatch) → Outcome (ConsumerRecord K V) → Step
  settle l o = elim o [
    | raises e t ↦ (err e, close_generator config t)
    | goes_on t ↦ unpack_records config l t
    | yields c t ↦ (ok (some c), t)
  ]

  pub Runs-same :
      (x y : Step) (cs : List (ConsumerRecord K V)) (e : PartitionRecords)
      → x ≡ y
      → Runs y cs e
      → Runs x cs e
  Runs-same x y cs e p r = subst (λ x. Runs x cs e) (sym p) r

  next_within :
      (b : RecordBatch) (s : PartitionRecords)
      → s.exhausted ≡ false
      → s.current ≡ some b
      → next_consumer_record config s ≡ settle s.batches (iterate config b b.records s)
  unfolding next_consumer_record
  next_within b s live e = rw (live, e) refl

  module _ (key : Option (List ℕ) → K) (value : Option (List ℕ) → V)
      (keys : (o : Option (List ℕ)) → config.key_deserializer o ≡ ok (key o))
      (values : (o : Option (List ℕ)) → config.value_deserializer o ≡ ok (value o)) where
    abbrev pub handed : DefaultRecord → ConsumerRecord K V
    handed r = consumer_record_of config r (key r.key) (value r.value)

    consumer_record_lem : (r : DefaultRecord) → consumer_record config r ≡ ok (handed r)
    unfolding consumer_record
    consumer_record_lem r = rw (keys r.key, values r.value) refl

    -- The records of a batch that are left, and then the other batches.
    pub iterate-Runs :
        (b : RecordBatch) (lo : ℤ) (l : List DefaultRecord) (s e : PartitionRecords)
        (cs : List (ConsumerRecord K V))
        → b.ends_with ≡ none
        → s.exhausted ≡ false
        → RecordsIn lo b.next_offset l
        → Runs
            (unpack_records config s.batches
              (record s { current = none; next_fetch_offset = b.next_offset }))
            cs
            e
        → Runs
            (settle s.batches (iterate config b l s))
            (map handed (filter (from_offset s.next_fetch_offset) l) ++ cs)
            e
    unfolding iterate
    iterate-Runs b lo [] s e cs ends live h rest = Runs-same _ _ cs e (rw ends refl) rest
    iterate-Runs b lo (r ∷ l) s e cs ends live (h, hs) rest =
        elim (Bool-cases (ltb_ℤ r.offset s.next_fetch_offset)) [
          | inl old ↦ rw old (iterate-Runs b (r.offset +ℤ pos 1) l s e cs ends live hs rest)
          | inr new ↦
              let t = record s {
                current = some (record b { records = l });
                next_fetch_offset = r.offset +ℤ pos 1;
              } in
              let b' = record b { records = l } in
              let all_new : (n : ℤ)
                  → leb_ℤ n (r.offset +ℤ pos 1) ≡ true
                  → filter (from_offset n) l ≡ l =
                λ n e.
                  filter_all (from_offset n) l
                    (RecordsIn-All n (r.offset +ℤ pos 1) b.next_offset l e hs) in
              let same : filter (from_offset s.next_fetch_offset) l
                  ≡ filter (from_offset (r.offset +ℤ pos 1)) l =
                all_new s.next_fetch_offset (ground (arith, new, +ℤ_parts r.offset (pos 1)))
                ∙ sym (all_new (r.offset +ℤ pos 1) (ground arith)) in
              let more : Runs (next_consumer_record config t)
                  (map handed (filter (from_offset s.next_fetch_offset) l) ++ cs) e =
                Runs-same _ _ _ e (next_within b' t live refl) (
                  subst
                    (λ f. Runs (settle t.batches (iterate config b' l t)) (map handed f ++ cs) e)
                    (sym same) (iterate-Runs b' (r.offset +ℤ pos 1) l t e cs ends live hs rest)) in
              rw (new, consumer_record_lem r) (t, refl, more)
        ]
