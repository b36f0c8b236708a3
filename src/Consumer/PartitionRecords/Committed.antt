-- ===== src/Consumer/PartitionRecords/Committed.antt =====
-- What a consumer that reads committed records gets, against the log.
use aiokafka.Base.{
  ℕ, true, false, Option, none, some, List, [], ◌∷◌, ◌++◌, map, All, All-map, filter, filter-append,
  filter_all, map-append, ◌≡◌, refl, sym, ap, ◌∙◌, inl, inr, arith, leb_ℤ, Bool-cases, ℤ, ok,
}
use mathlib.Core.Path.{subst}
use aiokafka.Base.Keys.{int_eq}
use aiokafka.Base.Sets
use aiokafka.Base.Sorting.{sorted, sorted-Sorted, any-sorted}
use aiokafka.Consumer.PartitionRecords.{
  RecordBatch, Config, AbortedTransaction, PartitionRecords, earlier, new_partition_records,
  unpack_records, next_consumer_record,
}
use aiokafka.Consumer.PartitionRecords.Aborted.{is_aborted}
use aiokafka.Consumer.PartitionRecords.Tracking.{Tracks, Tracks-empty, Tracks-step, NotAfter}
use aiokafka.Consumer.PartitionRecords.Running.{from_offset, Runs, Runs-same, Gives, settle, handed}
use aiokafka.Consumer.PartitionRecords.Log.{
  visible_if, aborted_in, committed, InOrder, Reaches, end_of, RecordsIn-leb, InOrder-Reaches,
  committed-All,
}
use aiokafka.Consumer.PartitionRecords.Opening.{
  Reads, decided, marks_lem, open_batch_lem, enter_Runs,
}

module _ {K V : Type 0} (config : Config K V) (key : Option (List ℕ) → K)
    (value : Option (List ℕ) → V)
    (keys : (o : Option (List ℕ)) → config.key_deserializer o ≡ ok (key o))
    (values : (o : Option (List ℕ)) → config.value_deserializer o ≡ ok (value o))
    (read_committed : config.read_committed ≡ true) (transactions : List AbortedTransaction) where
  run_lem :
      (l seen : List RecordBatch) (lo : ℤ) (s : PartitionRecords)
      → s.exhausted ≡ false
      → InOrder lo l
      → NotAfter lo seen
      → Reaches s.next_fetch_offset l
      → All (Reads config) l
      → Tracks (sorted earlier transactions) seen s.aborted_transactions s.aborted_producers
      → (e : PartitionRecords) × (e.next_fetch_offset ≡ end_of s.next_fetch_offset l)
        × Runs config
            (unpack_records config (map ok l) s)
            (map
              (handed config key value keys values)
              (filter (from_offset s.next_fetch_offset) (committed transactions seen l)))
            e
  unfolding unpack_records committed
  run_lem [] seen lo s live h before reach reads tracks = (_, refl, refl)
  run_lem (b ∷ l) seen lo s live (h, hr, hs) before reach (f, fs) tracks =
      let start = record s { batches = map ok l; current = none } in
      let u = decided b f start in
      let up : leb_ℤ b.base_offset b.next_offset ≡ true =
        RecordsIn-leb b.base_offset b.next_offset b.records hr in
      let (tracks', known) =
        Tracks-step seen b f.aborts f.producer (marks_lem b f) (sorted earlier transactions)
          s.aborted_transactions s.aborted_producers
          (All-map (λ c. leb_ℤ c.base_offset lo ≡ true)
            (λ c. leb_ℤ c.base_offset b.base_offset ≡ true) (λ c e. ground (arith, e, h)) seen
            before)
          tracks in
      let (e, last, more) =
        run_lem l (b ∷ seen) b.next_offset (record u { next_fetch_offset = b.next_offset }) live hs
          (
            up,
            All-map (λ c. leb_ℤ c.base_offset lo ≡ true)
                (λ c. leb_ℤ c.base_offset b.next_offset ≡ true) (λ c e. ground (arith, e, h, up))
                seen before,
          )
          (InOrder-Reaches b.next_offset l hs) fs tracks' in
      let handed_out = handed config key value keys values in
      let k = aborted_in transactions (b ∷ seen) b b.producer_id in
      let has : Sets.contains u.aborted_producers f.producer ≡ k =
        known
        ∙ unfold is_aborted in
          any-sorted earlier _ transactions
          ∙ ap (aborted_in transactions (b ∷ seen) b) (sym f.named) in
      let n = s.next_fetch_offset in
      let rest = committed transactions (b ∷ seen) l in
      let reach_all : (m : ℤ) → leb_ℤ m b.next_offset ≡ true → filter (from_offset m) rest ≡ rest =
        λ m e.
          filter_all (from_offset m) rest
            (committed-All transactions (b ∷ seen) m b.next_offset l e hs) in
      let records : map handed_out (filter (from_offset n) (visible_if b k ++ rest))
          ≡ map handed_out (filter (from_offset n) (visible_if b k))
            ++ map handed_out (filter (from_offset b.next_offset) rest) =
        ap (map handed_out) (filter-append (from_offset n) (visible_if b k) rest)
        ∙ map-append handed_out (filter (from_offset n) (visible_if b k))
            (filter (from_offset n) rest)
        ∙ ap (λ l. map handed_out (filter (from_offset n) (visible_if b k)) ++ map handed_out l)
            (reach_all n reach ∙ sym (reach_all b.next_offset (ground arith))) in
      (
        e,
        last,
        subst (λ cs. Runs config (unpack_records config (ok b ∷ map ok l) s) cs e) (sym records)
            (Runs-same config _ _ _ e
              (ap (settle config (map ok l)) (open_batch_lem config b f start read_committed))
              (enter_Runs config key value keys values b f.producer k u e
                (map handed_out (filter (from_offset b.next_offset) rest)) f.ends live hr has
                more)),
      )

  -- The iteration over a log that is read without an error, with the offsets in order, by a consumer that
  -- reads committed records and asked for an offset that the first batch reaches up to: it ends, and it has
  -- handed out just the records from that offset on which are in no control batch and in no transactional
  -- batch of a producer that has an aborted transaction open. The next offset to fetch is then the one
  -- behind the last batch.
  pub next_consumer_record-committed :
      (l : List RecordBatch) (lo fetch_offset : ℤ)
      → InOrder lo l
      → Reaches fetch_offset l
      → All (Reads config) l
      → (e : PartitionRecords) × (e.next_fetch_offset ≡ end_of fetch_offset l)
        × Gives config
            (new_partition_records (map ok l) (some transactions) fetch_offset)
            (map
              (handed config key value keys values)
              (filter (from_offset fetch_offset) (committed transactions [] l)))
            e
  unfolding new_partition_records next_consumer_record
  next_consumer_record-committed l lo fetch_offset h reach reads =
      run_lem l [] lo (new_partition_records (map ok l) (some transactions) fetch_offset) refl h tt
        reach reads
        (Tracks-empty (sorted earlier transactions) (
          sorted-Sorted earlier
            (λ x y. elim (Bool-cases (earlier x y)) [
              | inl e ↦ inl e
              | inr e ↦ inr (ground (arith, e))
            ])
            (λ x y z a b. ground (arith, a, b)) transactions))
