-- ===== src/Record/DefaultRecords/Rounds/Built.antt =====
-- A batch from the first message on.
use mathlib.Core.Path.{subst}
use aiokafka.Base.{
  ℕ, ◌<◌, ◌≤◌, Bool, true, false, none, some, List, ◌∷◌, ◌++◌, All, map, take, drop, length,
  length-append, ◌≡◌, refl, ap, ◌∙◌, ◌⊎◌, inl, inr, Bool-cases, arith, eqb, leb, ℤ, pos, negsuc, ok,
}
use aiokafka.Base.Bits.{bit_and_low_three}
use aiokafka.Protocol.Integers.RoundTrip.{take-append, drop-append}
use aiokafka.Protocol.Types.{Encoding}
use aiokafka.Record.Struct.RoundTrip.{AllFit}
use aiokafka.Record.DefaultRecords.{
  DefaultRecord, Codecs, assert_has_codec, header_struct, header_size,
}
use aiokafka.Record.DefaultRecords.Builder.{
  RecordBatchBuilder, new_record_builder, zeros, get_attributes, header_values, maybe_compress,
  write_header, build, set_producer_state,
}
use aiokafka.Record.DefaultRecords.Records.{IsSound}
use aiokafka.Record.DefaultRecords.Rounds.Attributes.{attributes_lem}
use aiokafka.Record.DefaultRecords.Rounds.Block.{last_of, Message, Takes, Takes-new, block}
use aiokafka.Record.DefaultRecords.Rounds.Iterated.{as_record, FitsIn}
use aiokafka.Record.DefaultRecords.Rounds.Whole.{whole, ReadsBack, Undoes}

-- What a new builder starts with.
new_record_builder_lem :
    (magic compression_type : ℕ) (transactional : Bool) (id epoch base : ℤ) (size : ℕ)
    (b : RecordBatchBuilder)
    → new_record_builder magic compression_type transactional id epoch base size ≡ ok b
    → (b.first_timestamp ≡ none)
      × (b.num_records ≡ 0)
      × (b.buffer ≡ zeros header_size)
      × (b.compression_type < 8)
      × (b.is_transactional ≡ transactional)
unfolding new_record_builder
new_record_builder_lem magic c transactional id epoch base size b e =
    ground (arith, bit_and_low_three c)

flags_fit :
    (u : Bool) (b : RecordBatchBuilder) → b.compression_type < 8 → get_attributes u b < 32768
unfolding get_attributes
flags_fit true b lt = (attributes_lem b.compression_type lt b.is_transactional).2
flags_fit false b lt = (attributes_lem 0 (omega arith) b.is_transactional).2

-- The header fits also before a shorter block.
shorter_fits :
    (u : Bool) (b : RecordBatchBuilder) (buffer : List ℕ)
    → length buffer ≤ length b.buffer
    → b.compression_type < 8
    → AllFit header_struct (header_values true (pos 0) b)
    → AllFit header_struct (header_values u (pos 0) (record b { buffer = buffer }))
shorter_fits u b buffer h lt (f0, (f1, (f2, (f3, (f4, (f5, rest)))))) = (
  f0,
  (omega (arith, h, f1), (f2, (f3, (f4, (flags_fit u (record b { buffer = buffer }) lt, rest))))),
)

codec_there :
    (codecs : Codecs) (k : ℕ)
    → (k ≡ 0) ⊎ (assert_has_codec codecs k ≡ ok tt)
    → eqb k 0 ≡ false
    → assert_has_codec codecs k ≡ ok tt
codec_there codecs k (inl e) z = absurd (ground (arith, e))
codec_there codecs k (inr a) z = a

smaller_buffer :
    (c : RecordBatchBuilder) (sent bytes : List ℕ)
    → c.buffer ≡ zeros header_size ++ sent
    → leb (length sent) (length bytes) ≡ false
    → length (zeros header_size ++ bytes) ≤ length c.buffer
smaller_buffer c sent bytes e l = ground (
  arith,
  ap length e ∙ length-append (zeros header_size) sent,
  length-append (zeros header_size) bytes,
)

build_step :
    (codecs : Codecs) (u : Bool) (b c : RecordBatchBuilder) (bytes : List ℕ)
    → maybe_compress codecs b ≡ (ok u, c)
    → write_header u c ≡ (ok tt, record c { buffer = bytes })
    → (build codecs b).0 ≡ ok bytes
unfolding build
build_step codecs u b c bytes e d = rw (e, d) refl

not_compressed :
    (codecs : Codecs) (b : RecordBatchBuilder)
    → eqb b.compression_type 0 ≡ true
    → maybe_compress codecs b ≡ (ok false, b)
unfolding maybe_compress
not_compressed codecs b z = rw z refl

too_long :
    (codecs : Codecs) (b : RecordBatchBuilder) (sent : List ℕ)
    → drop header_size b.buffer ≡ sent
    → eqb b.compression_type 0 ≡ false
    → assert_has_codec codecs b.compression_type ≡ ok tt
    → leb (length sent) (length (codecs.encode_bytes b.compression_type sent)) ≡ true
    → maybe_compress codecs b ≡ (ok false, b)
unfolding maybe_compress
too_long codecs b sent e z a l = rw (z, a, e, l) refl

is_compressed :
    (codecs : Codecs) (b : RecordBatchBuilder) (sent : List ℕ)
    → drop header_size b.buffer ≡ sent
    → take header_size b.buffer ≡ zeros header_size
    → eqb b.compression_type 0 ≡ false
    → assert_has_codec codecs b.compression_type ≡ ok tt
    → leb (length sent) (length (codecs.encode_bytes b.compression_type sent)) ≡ false
    → maybe_compress codecs b ≡ (
      ok true,
      record b { buffer = zeros header_size ++ codecs.encode_bytes b.compression_type sent },
    )
unfolding maybe_compress
is_compressed codecs b sent e t z a l = rw (z, a, e, t, l) refl

module _ (encoding : Encoding) (sound : IsSound encoding) (codecs : Codecs)
    (undoes : Undoes codecs) where
  abbrev Reads : RecordBatchBuilder → List DefaultRecord → Type 0
  Reads c records =
      (bytes : List ℕ) × ((build codecs c).0 ≡ ok bytes)
      × ReadsBack encoding codecs c.is_transactional c.last_offset c.producer_id c.producer_epoch
          c.base_sequence bytes records

  -- A builder whose buffer has the messages.
  filled :
      (c : RecordBatchBuilder) (m : Message) (ms : List Message)
      → c.buffer ≡ zeros header_size ++ block encoding m.timestamp (m ∷ ms)
      → (c.compression_type ≡ 0) ⊎ (assert_has_codec codecs c.compression_type ≡ ok tt)
      → c.compression_type < 8
      → c.first_timestamp ≡ some m.timestamp
      → c.num_records ≡ length (m ∷ ms)
      → All (FitsIn encoding sound m.timestamp) (m ∷ ms)
      → AllFit header_struct (header_values true (pos 0) c)
      → Reads c (map as_record (m ∷ ms))
  filled c m ms e has lt f k fits all =
      let sent = block encoding m.timestamp (m ∷ ms) in
      let bytes = codecs.encode_bytes c.compression_type sent in
      let behind : drop header_size c.buffer ≡ sent =
        ap (drop header_size) e ∙ drop-append (zeros header_size) sent in
      let front : take header_size c.buffer ≡ zeros header_size =
        ap (take header_size) e ∙ take-append (zeros header_size) sent in
      let plain : maybe_compress codecs c ≡ (ok false, c) → Reads c (map as_record (m ∷ ms)) =
        λ goes.
          let (out, written, r) =
            whole encoding sound codecs false c m ms sent e refl lt f k fits
              (shorter_fits false c c.buffer (omega arith) lt all) in
          (out, build_step codecs false c c out goes written, r) in
      let smaller : eqb c.compression_type 0 ≡ false
          → assert_has_codec codecs c.compression_type ≡ ok tt
          → leb (length sent) (length bytes) ≡ false
          → Reads c (map as_record (m ∷ ms)) =
        λ z a l.
          let d = record c { buffer = zeros header_size ++ bytes } in
          let (out, written, r) =
            whole encoding sound codecs true d m ms bytes refl
              (z, a, undoes c.compression_type sent) lt f k fits
              (shorter_fits true c (zeros header_size ++ bytes) (smaller_buffer c sent bytes e l) lt
                all) in
          (
            out,
            build_step codecs true c d out (is_compressed codecs c sent behind front z a l) written,
            r,
          ) in
      elim (Bool-cases (eqb c.compression_type 0)) [
        | inl z ↦ plain (not_compressed codecs c z)
        | inr z ↦
            let a = codec_there codecs c.compression_type has z in
            elim (Bool-cases (leb (length sent) (length bytes))) [
              | inl l ↦ plain (too_long codecs c sent behind z a l)
              | inr l ↦ smaller z a l
            ]
      ]

  -- A batch that a new builder makes of one or more messages, all of which it accepts, with the producer's
  -- state set in between, is built and read back: it opens, its checksum is valid, it has the producer's
  -- state, the transactional flag, the last offset and the number of records that it was built with, and it gives the messages back in order,
  -- whether it is sent compressed or not. The numbers of the messages fit 64 bits and those of the header
  -- their fields, the codec is there, and the codec and the encoding of texts undo what they do.
  pub build-ReadsBack :
      (magic compression_type : ℕ) (transactional : Bool) (id epoch base : ℤ) (size now : ℕ)
      (new b : RecordBatchBuilder) (m : Message) (ms : List Message)
      → new_record_builder magic compression_type transactional (negsuc 0) (negsuc 0) (pos 0) size
        ≡ ok new
      → Takes encoding now new (m ∷ ms) b
      → (b.compression_type ≡ 0) ⊎ (assert_has_codec codecs b.compression_type ≡ ok tt)
      → All (FitsIn encoding sound m.timestamp) (m ∷ ms)
      → AllFit header_struct (header_values true (pos 0) (set_producer_state id epoch base b))
      → (bytes : List ℕ) × ((build codecs (set_producer_state id epoch base b)).0 ≡ ok bytes)
        × ReadsBack encoding codecs transactional
            (last_of m.offset ms)
            id
            epoch
            base
            bytes
            (map as_record (m ∷ ms))
  unfolding set_producer_state
  build-ReadsBack magic ct tr id epoch base size now new b m ms e takes has fits all =
      let (n0, n1, n2, n3, n4) =
        new_record_builder_lem magic ct tr (negsuc 0) (negsuc 0) (pos 0) size new e in
      let h = Takes-new encoding now m ms new b n0 takes in
      let c = set_producer_state id epoch base b in
      let R : Bool → ℤ → Type 0 = λ t n.
        (bytes : List ℕ) × ((build codecs c).0 ≡ ok bytes)
        × ReadsBack encoding codecs t n id epoch base bytes (map as_record (m ∷ ms)) in
      subst (λ t. R t (last_of m.offset ms)) (h.transactional ∙ n4)
        (subst (R c.is_transactional) h.last (
          filled c m ms (h.buffer ∙ ap (λ l. l ++ block encoding m.timestamp (m ∷ ms)) n2) has
            (omega (arith, h.compression, n3)) h.first (omega (arith, h.count, n1)) fits all))
