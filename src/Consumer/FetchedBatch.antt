-- ===== src/Consumer/FetchedBatch.antt =====
-- A batch of message format 2 as PartitionRecords of aiokafka/consumer/fetcher.py sees it: its attributes, and
-- what `for record in next_batch` gives, which is `__iter__` and `__next__` of aiokafka/record/default_records.py.
pub mod Delivered
mod Examples
use aiokafka.Base.{
  ℕ, zero, suc, Option, none, some, List, [], ◌∷◌, ℤ, pos, negsuc, ◌≡◌, refl, ap, ◌∙◌, sym, length,
  Bool, true, false, Result, ok, err, Exception, continue,
}
use aiokafka.Base
use mathlib.Core.Path.{subst}
use aiokafka.Protocol.Types.{Encoding}
use aiokafka.Record.DefaultRecords.{Codecs, DefaultRecord}
use aiokafka.Record.DefaultRecords.Batch.{
  DefaultRecordBatch, header_at, base_offset, next_offset, is_control_batch, is_transactional,
  validate_crc, maybe_uncompress, next_record,
}
use aiokafka.Record.DefaultRecords.Rounds.Iterated.{collect}
use aiokafka.Record.DefaultRecords.Rounds.Whole.{ReadsBack}
use aiokafka.Consumer.PartitionRecords.{RecordBatch}

-- The records up to the end of the iteration, and the exception that ended it, if one did.
abbrev with_first :
    Result (Option DefaultRecord)
    → List DefaultRecord × Option Exception
    → List DefaultRecord × Option Exception
with_first (err e) rest = ([], some e)
with_first (ok none) rest = ([], none)
with_first (ok (some r)) rest = (r ∷ rest.0, rest.1)

unfoldable pub iteration : Encoding → ℕ → DefaultRecordBatch → List DefaultRecord × Option Exception
iteration encoding zero b = ([], none)
iteration encoding (suc n) b =
    with_first (next_record encoding b).0 (iteration encoding n (next_record encoding b).1)

abbrev number_of_records : ℤ → ℕ
number_of_records (pos n) = n
number_of_records (negsuc m) = 0

abbrev iterated :
    Encoding → ℕ → Result (Unit {0}) × DefaultRecordBatch → List DefaultRecord × Option Exception
iterated encoding n (err e, b) = ([], some e)
iterated encoding n (ok u, b) = iteration encoding n b

unfoldable pub read_all :
    Encoding → Codecs → DefaultRecordBatch → List DefaultRecord × Option Exception
read_all encoding codecs b =
    iterated encoding (suc (number_of_records b.num_records)) (maybe_uncompress codecs b)

unfoldable pub fetched : Encoding → Codecs → DefaultRecordBatch → RecordBatch
fetched encoding codecs b = record {
  valid_crc = validate_crc b;
  producer_id = some (header_at b.header_data 9);
  base_offset = base_offset b;
  next_offset = next_offset b;
  is_control_batch = is_control_batch b;
  is_transactional = is_transactional b;
  records = (read_all encoding codecs b).0;
  ends_with = (read_all encoding codecs b).1;
}

first_and_rest :
    (r : DefaultRecord) (x : Result (List DefaultRecord)) (s : DefaultRecordBatch)
    (l : List DefaultRecord)
    → (continue x (λ rest. Base.pure (r ∷ rest)) s).0 ≡ ok l
    → (rest : List DefaultRecord) × (x ≡ ok rest) × (r ∷ rest ≡ l)
first_and_rest r (ok rest) s l h = (rest, refl, cc)
first_and_rest r (err e) s l h = cc

iteration_step :
    (encoding : Encoding) (n : ℕ) (x : Result (Option DefaultRecord)) (c : DefaultRecordBatch)
    (l : List DefaultRecord)
    → ((rest : List DefaultRecord)
        → (collect encoding n c).0 ≡ ok rest
        → iteration encoding n c ≡ (rest, none))
    → (continue x
        (λ r. elim r [
          | none ↦ Base.pure []
          | some m ↦ λ s.
              continue
                (collect encoding n s).0
                (λ rest. Base.pure (m ∷ rest))
                (collect encoding n s).1
        ])
        c).0
      ≡ ok l
    → with_first x (iteration encoding n c) ≡ (l, none)
iteration_step encoding n (err e) c l ih h = cc
iteration_step encoding n (ok none) c l ih h = cc
iteration_step encoding n (ok (some m)) c l ih h =
    let (rest, e, d) = first_and_rest m (collect encoding n c).0 (collect encoding n c).1 l h in
    ap (with_first (ok (some m))) (ih rest e) ∙ ap (λ l. (l, none)) d

iteration-collect :
    (encoding : Encoding) (n : ℕ) (b : DefaultRecordBatch) (l : List DefaultRecord)
    → (collect encoding (suc n) b).0 ≡ ok l
    → iteration encoding (suc n) b ≡ (l, none)
unfolding iteration collect
iteration-collect encoding zero b l h =
    iteration_step encoding 0 (next_record encoding b).0 (next_record encoding b).1 l (λ rest e. cc)
      h
iteration-collect encoding (suc n) b l h =
    iteration_step encoding (suc n) (next_record encoding b).0 (next_record encoding b).1 l
      (λ rest e. iteration-collect encoding n (next_record encoding b).1 rest e) h

read_all-collect :
    (encoding : Encoding) (codecs : Codecs) (b : DefaultRecordBatch) (l : List DefaultRecord)
    → b.num_records ≡ pos (length l)
    → (maybe_uncompress codecs b).0 ≡ ok tt
    → (collect encoding (suc (length l)) (maybe_uncompress codecs b).1).0 ≡ ok l
    → read_all encoding codecs b ≡ (l, none)
unfolding read_all
read_all-collect encoding codecs b l n u h =
    ap (λ k. iterated encoding (suc (number_of_records k)) (maybe_uncompress codecs b)) n
    ∙ ap (λ x. iterated encoding (suc (length l)) (x, (maybe_uncompress codecs b).1)) u
    ∙ iteration-collect encoding (length l) (maybe_uncompress codecs b).1 l h

-- A batch that reads back is, for the fetcher, one with a valid checksum that has the producer, the
-- transactional flag and the records that it was built with, and whose iteration ends without an error.
pub fetched-ReadsBack :
    (encoding : Encoding) (codecs : Codecs) (t : Bool) (last id epoch base : ℤ) (bytes : List ℕ)
    (l : List DefaultRecord) (r : ReadsBack encoding codecs t last id epoch base bytes l)
    → let b = fetched encoding codecs r.batch in
      (b.valid_crc ≡ ok true)
      × (b.producer_id ≡ some id)
      × (b.is_transactional ≡ t)
      × (b.is_control_batch ≡ false)
      × (b.records ≡ l)
      × (b.ends_with ≡ none)
unfolding fetched
fetched-ReadsBack encoding codecs t last id epoch base bytes l r =
    let e = read_all-collect encoding codecs r.batch l r.counted r.uncompressed r.records_read in
    (r.valid, ap some r.producer.0, r.flags.0, r.flags.1, ap (λ x. x.0) e, ap (λ x. x.1) e)
