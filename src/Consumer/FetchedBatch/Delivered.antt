-- ===== src/Consumer/FetchedBatch/Delivered.antt =====
-- From the messages that a producer put into a batch to the records that a consumer of its bytes gets.
use aiokafka.Base.{
  ℕ, suc, ◌+◌, ◌≤◌, Bool, true, false, ◌&&◌, Option, none, some, List, [], ◌∷◌, ◌++◌, All, map,
  filter, length, ◌≡◌, refl, sym, ap, ◌∙◌, ◌⊎◌, arith, if◌then◌else◌, ℤ, pos, negsuc, ◌+ℤ◌,
  +ℤ_parts, eq_of_parts, Result, ok,
}
use mathlib.Core.Path.{subst}
use mathlib.Core.List.{append-nil}
use aiokafka.Protocol.Types.{Encoding}
use aiokafka.Record.Struct.RoundTrip.{AllFit}
use aiokafka.Record.DefaultRecords.{Codecs, assert_has_codec, header_struct}
use aiokafka.Record.DefaultRecords.Batch.{DefaultRecordBatch, new_batch, header_at, next_offset}
use aiokafka.Record.DefaultRecords.Builder.{
  RecordBatchBuilder, new_record_builder, header_values, build, set_producer_state,
}
use aiokafka.Record.DefaultRecords.Records.{IsSound}
use aiokafka.Record.DefaultRecords.Rounds.Block.{Message, Takes, last_of}
use aiokafka.Record.DefaultRecords.Rounds.Iterated.{as_record, FitsIn}
use aiokafka.Record.DefaultRecords.Rounds.Whole.{ReadsBack, Undoes}
use aiokafka.Record.DefaultRecords.Rounds.Built.{build-ReadsBack}
use aiokafka.Consumer.PartitionRecords.{
  RecordBatch, Config, PartitionRecords, contains_abort_marker, new_partition_records,
}
use aiokafka.Consumer.PartitionRecords.Aborted.{is_aborted}
use aiokafka.Consumer.PartitionRecords.Running.{RecordsIn, from_offset, Gives, handed}
use aiokafka.Consumer.PartitionRecords.Log.{visible_if, aborted_in, committed}
use aiokafka.Consumer.PartitionRecords.Opening.{Reads}
use aiokafka.Consumer.PartitionRecords.Committed.{next_consumer_record-committed}
use aiokafka.Consumer.FetchedBatch.{fetched, fetched-ReadsBack}

-- The offsets that `MessageBatch.append` gives: one after the other.
abbrev pub Numbered : ℕ → List Message → Type 0
Numbered i [] = Unit
Numbered i (m ∷ ms) = (m.offset ≡ pos i) × Numbered (suc i) ms

plus_one : (n : ℤ) (i : ℕ) → n ≡ pos i → n +ℤ pos 1 ≡ pos (suc i)
plus_one n i e = eq_of_parts (n +ℤ pos 1) (pos (suc i)) (ground (arith, e, +ℤ_parts n (pos 1)))

last_of_lem :
    (i n : ℕ) (m : Message) (ms : List Message)
    → Numbered i (m ∷ ms)
    → i + length (m ∷ ms) ≡ n
    → last_of m.offset ms +ℤ pos 1 ≡ pos n
last_of_lem i n m [] h e = plus_one m.offset i h.0 ∙ ap pos (omega (arith, e))
last_of_lem i n m (k ∷ ms) h e = last_of_lem (suc i) n k ms h.1 (omega (arith, e))

Numbered-RecordsIn :
    (i n : ℕ) (lo : ℤ) (ms : List Message)
    → lo ≡ pos i
    → Numbered i ms
    → i + length ms ≡ n
    → RecordsIn lo (pos n) (map as_record ms)
Numbered-RecordsIn i n lo [] e h s = ground (arith, e, s)
Numbered-RecordsIn i n lo (m ∷ ms) e (h, hs) s = (
  ground (arith, e, h),
  Numbered-RecordsIn (suc i) n (m.offset +ℤ pos 1) ms (plus_one m.offset i h) hs (omega (arith, s)),
)

-- Without aborted transactions, all records of a batch of data are committed.
all_visible : (b : RecordBatch) → b.is_control_batch ≡ false → committed [] [] (b ∷ []) ≡ b.records
unfolding committed is_aborted
all_visible b c =
    ap (λ k. visible_if b k ++ []) (none_aborted b.producer_id)
    ∙ append-nil (visible_if b false)
    ∙ ap (λ k. if k then [] else if b.is_transactional && false then [] else b.records) c
    ∙ ap (λ k. if k then [] else b.records) (and_false b.is_transactional)
  where
    none_aborted : (o : Option ℤ) → aborted_in [] (b ∷ []) b o ≡ false
    none_aborted none = refl
    none_aborted (some p) = refl

    and_false : (k : Bool) → (k && false) ≡ false
    and_false true = refl
    and_false false = refl

checked : (k : Bool) (r : Result Bool) → r ≡ ok true → (if k then r else ok true) ≡ ok true
checked true r h = h
checked false r h = refl

next_offset_lem :
    (b : DefaultRecordBatch) (last : ℤ) (n : ℕ)
    → header_at b.header_data 0 ≡ pos 0
    → header_at b.header_data 6 ≡ last
    → last +ℤ pos 1 ≡ pos n
    → next_offset b ≡ pos n
unfolding next_offset
next_offset_lem b last n z l e =
    ap (λ k. k +ℤ header_at b.header_data 6 +ℤ pos 1) z
    ∙ ap (λ k. pos 0 +ℤ k +ℤ pos 1) l
    ∙ ap (λ k. k +ℤ pos 1)
        (eq_of_parts (pos 0 +ℤ last) last (ground (arith, +ℤ_parts (pos 0) last)))
    ∙ e

module _ (encoding : Encoding) (sound : IsSound encoding) (codecs : Codecs) (undoes : Undoes codecs)
    {K V : Type 0} (config : Config K V) (key : Option (List ℕ) → K) (value : Option (List ℕ) → V)
    (keys : (o : Option (List ℕ)) → config.key_deserializer o ≡ ok (key o))
    (values : (o : Option (List ℕ)) → config.value_deserializer o ≡ ok (value o))
    (read_committed : config.read_committed ≡ true) where
  -- The batch that reads back is one that the generator reads.
  fetched-Gives :
      (t : Bool) (last id epoch base : ℤ) (bytes : List ℕ) (n fetch_offset : ℕ) (ms : List Message)
      (r : ReadsBack encoding codecs t last id epoch base bytes (map as_record ms))
      → last +ℤ pos 1 ≡ pos n
      → RecordsIn (pos 0) (pos n) (map as_record ms)
      → fetch_offset ≤ n
      → (e : PartitionRecords) × (e.next_fetch_offset ≡ pos n)
        × Gives config
            (new_partition_records
              (ok (fetched encoding codecs r.batch) ∷ [])
              (some [])
              (pos fetch_offset))
            (map
              (handed config key value keys values)
              (filter (from_offset (pos fetch_offset)) (map as_record ms)))
            e
  unfolding fetched
  fetched-Gives t last id epoch base bytes n fetch_offset ms r l h f =
      let b = fetched encoding codecs r.batch in
      let (valid, producer, tr, data_batch, records, ends) =
        fetched-ReadsBack encoding codecs t last id epoch base bytes (map as_record ms) r in
      let start : b.base_offset ≡ pos 0 = r.offsets.0 in
      let next : b.next_offset ≡ pos n = next_offset_lem r.batch last n r.offsets.0 r.offsets.1 l in
      let order : RecordsIn b.base_offset b.next_offset b.records =
        subst (RecordsIn b.base_offset b.next_offset) (sym records) (
          subst (λ hi. RecordsIn b.base_offset hi (map as_record ms)) (sym next)
            (subst (λ lo. RecordsIn lo (pos n) (map as_record ms)) (sym start) h)) in
      let reads : Reads config b = record {
        checks = checked config.check_crcs b.valid_crc valid;
        producer = id;
        named = producer;
        aborts = false;
        marker = ap (λ k. if k then contains_abort_marker b else ok false) data_batch;
        ends = ends;
      } in
      let (e, last', gives) =
        next_consumer_record-committed config key value keys values read_committed [] (b ∷ [])
          (pos 0) (pos fetch_offset) (ground (arith, start), order, tt) (ground (arith, next, f))
          (reads, tt) in
      (
        e,
        last' ∙ next,
        subst
            (λ l.
              Gives config (new_partition_records (ok b ∷ []) (some []) (pos fetch_offset))
                (map (handed config key value keys values)
                  (filter (from_offset (pos fetch_offset)) l))
                e)
            (all_visible b data_batch ∙ records) gives,
      )

  -- A producer fills a batch with messages numbered from 0 on and builds it; a consumer that reads committed
  -- records fetches the bytes from an offset of the batch or the one behind it, with no aborted
  -- transaction. The batch is built and opens, and the iteration gives just the messages from that offset on, in order,
  -- and ends behind the last, whether the batch was compressed or not and whether checksums are checked or
  -- not. The conditions on the builder are those under which a batch reads back.
  pub build-Gives :
      (magic compression_type : ℕ) (transactional : Bool) (id epoch base : ℤ)
      (size now fetch_offset : ℕ) (new b : RecordBatchBuilder) (m : Message) (ms : List Message)
      → new_record_builder magic compression_type transactional (negsuc 0) (negsuc 0) (pos 0) size
        ≡ ok new
      → Takes encoding now new (m ∷ ms) b
      → (b.compression_type ≡ 0) ⊎ (assert_has_codec codecs b.compression_type ≡ ok tt)
      → All (FitsIn encoding sound m.timestamp) (m ∷ ms)
      → AllFit header_struct (header_values true (pos 0) (set_producer_state id epoch base b))
      → Numbered 0 (m ∷ ms)
      → fetch_offset ≤ length (m ∷ ms)
      → (bytes : List ℕ) × (batch : DefaultRecordBatch) × (e : PartitionRecords) × ((build codecs
            (set_producer_state id epoch base b)).0
          ≡ ok bytes)
        × (new_batch bytes ≡ ok batch)
        × Gives config
            (new_partition_records
              (ok (fetched encoding codecs batch) ∷ [])
              (some [])
              (pos fetch_offset))
            (map
              (handed config key value keys values)
              (filter (from_offset (pos fetch_offset)) (map as_record (m ∷ ms))))
            e
        × (e.next_fetch_offset ≡ pos (length (m ∷ ms)))
  build-Gives magic ct tr id epoch base size now fetch_offset new b m ms start takes has fits all
        numbered f =
      let (bytes, built, r) =
        build-ReadsBack encoding sound codecs undoes magic ct tr id epoch base size now new b m ms
          start takes has fits all in
      let (e, last, gives) =
        fetched-Gives tr (last_of m.offset ms) id epoch base bytes (length (m ∷ ms)) fetch_offset
          (m ∷ ms) r (last_of_lem 0 (length (m ∷ ms)) m ms numbered (omega arith))
          (Numbered-RecordsIn 0 (length (m ∷ ms)) (pos 0) (m ∷ ms) refl numbered (omega arith)) f in
      (bytes, r.batch, e, built, r.opened, gives, last)
