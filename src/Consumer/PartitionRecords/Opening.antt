-- ===== src/Consumer/PartitionRecords/Opening.antt =====
-- A batch that is opened by a consumer that reads committed records.
use aiokafka.Base.{
  ℕ, Bool, true, false, ◌&&◌, Option, none, some, List, [], ◌++◌, map, filter, ◌≡◌, refl, ap, ◌∙◌,
  arith, if◌then◌else◌, ℤ, Result, ok,
}
use mathlib.Core.Path.{subst}
use aiokafka.Base.Keys.{◌==◌, int_eq}
use aiokafka.Base.Sets
use aiokafka.Record.DefaultRecords.{DefaultRecord}
use aiokafka.Consumer.PartitionRecords.{
  Outcome, goes_on, checked, isolated, ended_transaction, RecordBatch, Config, ConsumerRecord,
  PartitionRecords, consume_aborted, consume_aborted_up_to, contains_abort_marker, iterate, enter,
  enter_committed, isolate, open_batch, unpack_records,
}
use aiokafka.Consumer.PartitionRecords.Aborted.{names_producer, is_true, is_marker_of}
use aiokafka.Consumer.PartitionRecords.Tracking.{after_marker}
use aiokafka.Consumer.PartitionRecords.Running.{
  RecordsIn, from_offset, Runs, settle, handed, iterate-Runs,
}
use aiokafka.Consumer.PartitionRecords.Log.{visible_if}

-- A batch that is read without an error.
pub record Reads {K V : Type 0} (config : Config K V) (b : RecordBatch) : Type 0 where
  pub checks : (if config.check_crcs then b.valid_crc else ok true) ≡ ok true
  pub producer : ℤ
  pub named : b.producer_id ≡ some producer
  pub aborts : Bool
  pub marker : (if b.is_control_batch then contains_abort_marker b else ok false) ≡ ok aborts
  pub ends : b.ends_with ≡ none

-- The state that `_unpack_records` decides with.
abbrev pub decided :
    {K V : Type 0} {config : Config K V}
    → (b : RecordBatch) → Reads config b
    → PartitionRecords
    → PartitionRecords
decided b f s =
    let (l, ps) = consume_aborted b.base_offset s.aborted_transactions s.aborted_producers in
    record s { aborted_transactions = l; aborted_producers = after_marker f.aborts f.producer ps }

marks_of :
    (k : Bool) (o : Option ℤ) (r : Result Bool) (q p : ℤ) (a : Bool)
    → o ≡ some q
    → (if k then r else ok false) ≡ ok a
    → (k && names_producer o p && is_true r) ≡ (a && q == p)
marks_of true o r q p a e h = rw (e, h) (ground arith)
marks_of false o r q p a e h = ap (λ a. is_true a && q == p) h

pub marks_lem :
    {K V : Type 0} {config : Config K V}
    → (b : RecordBatch) (f : Reads config b) (p : ℤ)
    → is_marker_of b p ≡ (f.aborts && f.producer == p)
unfolding is_marker_of
marks_lem b f p =
    marks_of b.is_control_batch b.producer_id (contains_abort_marker b) f.producer p f.aborts
      f.named f.marker

ended_lem :
    {K V : Type 0} (config : Config K V) (b : RecordBatch) (p : ℤ) (s : PartitionRecords) (a : Bool)
    → ended_transaction config b p s (ok a)
      ≡ enter_committed config b p
          (record s { aborted_producers = after_marker a p s.aborted_producers })
ended_lem config b p s true = refl
ended_lem config b p s false = refl

pub open_batch_lem :
    {K V : Type 0} (config : Config K V) (b : RecordBatch) (f : Reads config b)
    (s : PartitionRecords)
    → config.read_committed ≡ true
    → open_batch config b s ≡ enter_committed config b f.producer (decided b f s)
unfolding open_batch isolate consume_aborted_up_to
open_batch_lem config b f s c =
    ap (checked config b s) f.checks
    ∙ ap (λ k. if k then isolated config b s b.producer_id else enter config b s) c
    ∙ ap (isolated config b s) f.named
    ∙ ap (ended_transaction config b f.producer (consume_aborted_up_to b.base_offset s)) f.marker
    ∙ ended_lem config b f.producer (consume_aborted_up_to b.base_offset s) f.aborts

choose :
    {A B : Type 0}
    → (P : A → List B → Type 0) (a c : Bool) (x y : A) (l : List B) → P x []
    → P y l
    → P (if a then x else if c then x else y) (if c then [] else if a then [] else l)
choose P true true x y l h k = h
choose P true false x y l h k = h
choose P false true x y l h k = h
choose P false false x y l h k = k

-- A batch that was opened hands out its visible records.
pub enter_Runs :
    {K V : Type 0} (config : Config K V) (key : Option (List ℕ) → K) (value : Option (List ℕ) → V)
    (keys : (o : Option (List ℕ)) → config.key_deserializer o ≡ ok (key o))
    (values : (o : Option (List ℕ)) → config.value_deserializer o ≡ ok (value o)) (b : RecordBatch)
    (p : ℤ) (k : Bool) (s e : PartitionRecords) (cs : List (ConsumerRecord K V))
    → let u = record s { current = none } in
      b.ends_with ≡ none
      → s.exhausted ≡ false
      → RecordsIn b.base_offset b.next_offset b.records
      → Sets.contains s.aborted_producers p ≡ k
      → Runs config
          (unpack_records config s.batches (record u { next_fetch_offset = b.next_offset }))
          cs
          e
      → Runs config
          (settle config s.batches (enter_committed config b p u))
          (map
              (handed config key value keys values)
              (filter (from_offset s.next_fetch_offset) (visible_if b k))
            ++ cs)
          e
unfolding enter_committed enter
enter_Runs config key value keys values b p k s e cs ends live h has rest =
    let u = record s { current = none } in
    let P : Outcome (ConsumerRecord _ _) → List DefaultRecord → Type 0 = λ o l.
      Runs config (settle config s.batches o)
        (map (handed config key value keys values) (filter (from_offset s.next_fetch_offset) l)
          ++ cs)
        e in
    subst (λ k. P (enter_committed config b p u) (visible_if b k)) has
      (choose P (b.is_transactional && Sets.contains s.aborted_producers p) b.is_control_batch
        (goes_on (record u { next_fetch_offset = b.next_offset })) (iterate config b b.records u)
        b.records rest
        (iterate-Runs config key value keys values b b.base_offset b.records u e cs ends live h
          rest))
