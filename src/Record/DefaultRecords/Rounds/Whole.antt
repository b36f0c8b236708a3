-- ===== src/Record/DefaultRecords/Rounds/Whole.antt =====
-- A whole batch, built and read.
use aiokafka.Base.{
  not, bit_or, ℕ, length-map, suc, ◌<◌, Bool, true, false, some, List, [], ◌∷◌, ◌++◌, All, map,
  drop, length, ◌≡◌, refl, sym, ap, ◌∙◌, arith, eqb, eqb_ℤ_iff, if◌then◌else◌, ℤ, pos, ok, bit_and,
  bit_or,
}
use mathlib.Core.Path.{subst}
use aiokafka.Protocol.Types.{Encoding}
use aiokafka.Record.Struct.RoundTrip.{AllFit}
use aiokafka.Record.DefaultRecords.{
  control_mask, transactional_mask, DefaultRecord, Codecs, assert_has_codec, header_struct,
  header_size, timestamp_type_mask, transactional_mask,
}
use aiokafka.Record.DefaultRecords.Batch.{
  is_transactional, is_control_batch, low_bits, DefaultRecordBatch, new_batch, header_at,
  uncompressed, compression_type, validate_crc, maybe_uncompress,
}
use aiokafka.Record.DefaultRecords.Builder.{
  RecordBatchBuilder, or_zero, zeros, get_attributes, header_values, write_header,
}
use aiokafka.Record.DefaultRecords.Records.{IsSound}
use aiokafka.Record.DefaultRecords.Rounds.{Written, write_header-Written, drop_at}
use aiokafka.Record.DefaultRecords.Rounds.Attributes.{Attributes, attributes_lem}
use aiokafka.Record.DefaultRecords.Rounds.Block.{Message, block}
use aiokafka.Record.DefaultRecords.Rounds.Iterated.{collect, collect_lem, as_record, FitsIn}

-- The compression libraries undo what they do.
abbrev pub Undoes : Codecs → Type 0
Undoes codecs =
    (c : ℕ) (bytes : List ℕ) → codecs.decode_bytes c (codecs.encode_bytes c bytes) ≡ ok bytes

-- What a reader makes of the bytes.
pub record ReadsBack (encoding : Encoding) (codecs : Codecs) (transactional : Bool)
    (last id epoch base : ℤ) (bytes : List ℕ) (records : List DefaultRecord) : Type 0 where
  pub batch : DefaultRecordBatch
  pub opened : new_batch bytes ≡ ok batch
  pub valid : validate_crc batch ≡ ok true
  pub producer :
      (header_at batch.header_data 9 ≡ id)
      × (header_at batch.header_data 10 ≡ epoch)
      × (header_at batch.header_data 11 ≡ base)
  pub offsets : (header_at batch.header_data 0 ≡ pos 0) × (header_at batch.header_data 6 ≡ last)
  pub flags : (is_transactional batch ≡ transactional) × (is_control_batch batch ≡ false)
  pub counted : batch.num_records ≡ pos (length records)
  pub uncompressed : (maybe_uncompress codecs batch).0 ≡ ok tt
  pub records_read :
      (collect encoding (suc (length records)) (maybe_uncompress codecs batch).1).0 ≡ ok records

-- A freshly opened batch.
abbrev fresh : List ℕ → List ℤ → DefaultRecordBatch
fresh buffer header = record {
  buffer = buffer;
  header_data = header;
  at = header_size;
  num_records = header_at header 12;
  next_record_index = 0;
  decompressed = false;
}

opened_lem :
    (u : Bool) (c : RecordBatchBuilder) (body : List ℕ) (w : Written u c body)
    → new_batch (w.header ++ body) ≡ ok (fresh (w.header ++ body) (header_values u (pos w.sum) c))
unfolding new_batch
opened_lem u c body w = rw w.unpacked refl

valid_lem :
    (u : Bool) (c : RecordBatchBuilder) (body : List ℕ) (w : Written u c body)
    → validate_crc (fresh (w.header ++ body) (header_values u (pos w.sum) c)) ≡ ok true
unfolding validate_crc header_at
valid_lem u c body w = rw w.summed (ap ok ((eqb_ℤ_iff (pos w.sum) (pos w.sum)).1 refl))

uncompress_lem :
    (codecs : Codecs) (buffer bytes : List ℕ) (header : List ℤ)
    → eqb (compression_type (fresh buffer header)) 0 ≡ false
    → assert_has_codec codecs (compression_type (fresh buffer header)) ≡ ok tt
    → codecs.decode_bytes (compression_type (fresh buffer header)) (drop header_size buffer)
      ≡ ok bytes
    → maybe_uncompress codecs (fresh buffer header)
      ≡ (ok tt, record (fresh buffer header) { buffer = bytes; at = 0; decompressed = true })
unfolding maybe_uncompress
uncompress_lem codecs buffer bytes header z a d =
    rw (z, a) (ap (uncompressed (fresh buffer header)) d)

plain_lem :
    (codecs : Codecs) (buffer : List ℕ) (header : List ℤ)
    → compression_type (fresh buffer header) ≡ 0
    → maybe_uncompress codecs (fresh buffer header)
      ≡ (ok tt, record (fresh buffer header) { decompressed = true })
unfolding maybe_uncompress
plain_lem codecs buffer header e = rw e refl

sent_codec :
    (u : Bool) (crc : ℤ) (c : RecordBatchBuilder) (buffer : List ℕ)
    → c.compression_type < 8
    → compression_type (fresh buffer (header_values u crc c))
      ≡ (if u then c.compression_type else 0)
unfolding compression_type header_at get_attributes
sent_codec true crc c buffer lt = (attributes_lem c.compression_type lt c.is_transactional).0
sent_codec false crc c buffer lt = (attributes_lem 0 (omega arith) c.is_transactional).0

sent_time :
    (u : Bool) (crc : ℤ) (c : RecordBatchBuilder)
    → c.compression_type < 8
    → bit_and (low_bits (header_at (header_values u crc c) 5)) timestamp_type_mask ≡ 0
unfolding header_at get_attributes
sent_time true crc c lt = (attributes_lem c.compression_type lt c.is_transactional).1
sent_time false crc c lt = (attributes_lem 0 (omega arith) c.is_transactional).1

not_twice : (k : Bool) → not (not k) ≡ k
not_twice true = refl
not_twice false = refl

as_flags :
    {c : ℕ} {t : Bool}
    → Attributes c t
    → let a = bit_or c (if t then transactional_mask else 0) in
      (not (eqb (bit_and a transactional_mask) 0) ≡ t)
      × (not (eqb (bit_and a control_mask) 0) ≡ false)
as_flags {t = t} h = (ap not h.3 ∙ not_twice t, ap (λ n. not (eqb n 0)) h.4)

sent_flags :
    (u : Bool) (crc : ℤ) (c : RecordBatchBuilder) (buffer : List ℕ)
    → c.compression_type < 8
    → (is_transactional (fresh buffer (header_values u crc c)) ≡ c.is_transactional)
      × (is_control_batch (fresh buffer (header_values u crc c)) ≡ false)
unfolding is_transactional is_control_batch header_at get_attributes
sent_flags true crc c buffer lt = as_flags (attributes_lem c.compression_type lt c.is_transactional)
sent_flags false crc c buffer lt = as_flags (attributes_lem 0 (omega arith) c.is_transactional)

module _ (encoding : Encoding) (sound : IsSound encoding) (codecs : Codecs) where
  -- The block of the messages is what is read behind the header.
  abbrev pub Carries : Bool → RecordBatchBuilder → List ℕ → List ℕ → Type 0
  Carries true c body sent =
      (eqb c.compression_type 0 ≡ false)
      × (assert_has_codec codecs c.compression_type ≡ ok tt)
      × (codecs.decode_bytes c.compression_type body ≡ ok sent)
  Carries false c body sent = body ≡ sent

  read_lem :
      (u : Bool) (c : RecordBatchBuilder) (m : Message) (ms : List Message) (body : List ℕ)
      (w : Written u c body)
      → Carries u c body (block encoding m.timestamp (m ∷ ms))
      → c.compression_type < 8
      → c.first_timestamp ≡ some m.timestamp
      → c.num_records ≡ length (m ∷ ms)
      → All (FitsIn encoding sound m.timestamp) (m ∷ ms)
      → let b =
          maybe_uncompress codecs (fresh (w.header ++ body) (header_values u (pos w.sum) c)) in
        (b.0 ≡ ok tt)
        × ((collect encoding (suc (length (m ∷ ms))) b.1).0 ≡ ok (map as_record (m ∷ ms)))
  read_lem true c m ms body w (z, a, d) lt f k fits =
      let values = header_values true (pos w.sum) c in
      let buffer = w.header ++ body in
      let h : c.compression_type ≡ compression_type (fresh buffer values) =
        sym (sent_codec true (pos w.sum) c buffer lt) in
      let goes : maybe_uncompress codecs (fresh buffer values) ≡ (
        ok tt,
        record (fresh buffer values) {
          buffer = block encoding m.timestamp (m ∷ ms);
          at = 0;
          decompressed = true;
        },
      ) =
        uncompress_lem codecs buffer (block encoding m.timestamp (m ∷ ms)) values
          (subst (λ k. eqb k 0 ≡ false) h z) (subst (λ k. assert_has_codec codecs k ≡ ok tt) h a)
          (subst
            (λ k.
              codecs.decode_bytes k (drop header_size buffer)
              ≡ ok (block encoding m.timestamp (m ∷ ms)))
            h
            (ap (codecs.decode_bytes c.compression_type) (drop_at header_size w.header body w.size)
              ∙ d)) in
      (
        ap (λ r. r.0) goes,
        ap (λ r. (collect encoding (suc (length (m ∷ ms))) r.1).0) goes
            ∙ unfold header_at in
              collect_lem encoding sound values m.timestamp c.num_records true refl (ap or_zero f)
                (sent_time true (pos w.sum) c lt) (m ∷ ms) [] 0 (omega (arith, k)) fits,
      )
  read_lem false c m ms body w e lt f k fits =
      let values = header_values false (pos w.sum) c in
      let buffer = w.header ++ body in
      let goes : maybe_uncompress codecs (fresh buffer values)
          ≡ (ok tt, record (fresh buffer values) { decompressed = true }) =
        plain_lem codecs buffer values (sent_codec false (pos w.sum) c buffer lt) in
      let at : List ℕ → ℕ → DefaultRecordBatch =
        λ b p. record (fresh (w.header ++ b) values) { at = p; decompressed = true } in
      (
        ap (λ r. r.0) goes,
        ap (λ r. (collect encoding (suc (length (m ∷ ms))) r.1).0) goes
            ∙ ap (λ b. (collect encoding (suc (length (m ∷ ms))) (at b header_size)).0) e
            ∙ ap
                (λ p.
                  (collect encoding (suc (length (m ∷ ms)))
                    (at (block encoding m.timestamp (m ∷ ms)) p)).0)
                (sym w.size)
            ∙ unfold header_at in
              collect_lem encoding sound values m.timestamp c.num_records true refl (ap or_zero f)
                (sent_time false (pos w.sum) c lt) (m ∷ ms) w.header 0 (omega (arith, k)) fits,
      )

  -- The builder c has the messages, compressed if u says so, behind the place of the header.
  pub whole :
      (u : Bool) (c : RecordBatchBuilder) (m : Message) (ms : List Message) (body : List ℕ)
      → c.buffer ≡ zeros header_size ++ body
      → Carries u c body (block encoding m.timestamp (m ∷ ms))
      → c.compression_type < 8
      → c.first_timestamp ≡ some m.timestamp
      → c.num_records ≡ length (m ∷ ms)
      → All (FitsIn encoding sound m.timestamp) (m ∷ ms)
      → AllFit header_struct (header_values u (pos 0) c)
      → (bytes : List ℕ) × (write_header u c ≡ (ok tt, record c { buffer = bytes }))
        × ReadsBack encoding codecs c.is_transactional c.last_offset c.producer_id c.producer_epoch
            c.base_sequence bytes
            (map as_record (m ∷ ms))
  whole u c m ms body e sent lt f k fits all =
      let w = write_header-Written u c body e all in
      let r = read_lem u c m ms body w sent lt f k fits in
      (
        w.header ++ body,
        w.written,
        record {
          batch = fresh (w.header ++ body) (header_values u (pos w.sum) c);
          opened = opened_lem u c body w;
          valid = valid_lem u c body w;
          producer = unfold header_at in (refl, refl, refl);
          offsets = unfold header_at in (refl, refl);
          flags = sent_flags u (pos w.sum) c (w.header ++ body) lt;
          counted = unfold header_at in ap pos (k ∙ sym (length-map as_record (m ∷ ms)));
          uncompressed = r.0;
          records_read =
              ap
                (λ n.
                  (collect encoding (suc n)
                    (maybe_uncompress codecs
                      (fresh (w.header ++ body) (header_values u (pos w.sum) c))).1).0)
                (length-map as_record (m ∷ ms))
              ∙ r.1;
        },
      )
