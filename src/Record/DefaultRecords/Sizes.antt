-- ===== src/Record/DefaultRecords/Sizes.antt =====
-- The sizes that the builder computes and estimates.
use aiokafka.Base.{
  ℕ, ◌+◌, ◌/◌, ◌^◌, ◌<◌, ◌≤◌, Bool, Option, none, some, List, [], ◌∷◌, ◌++◌, length, length-append,
  ◌≡◌, ap, ◌∙◌, arith, ℤ, pos,
}
use aiokafka.Base.Bits.{bit_xor-zero}
use aiokafka.Protocol.Types.{Encoding}
use aiokafka.Record.Varint.{size_of_varint, size_of_unsigned, zigzag}
use aiokafka.Record.Varint.RoundTrip.{size_of-encode_varint}
use aiokafka.Record.DefaultRecords.{Headers, header_size}
use aiokafka.Record.DefaultRecords.Builder.{
  RecordBatchBuilder, RecordMetadata, varint_bytes, nullable, header_bytes, message_bytes,
  delta_from, start_from, is_first, append_message, append, required_size, size_of_nullable,
  size_of_headers, size_of, size_in_bytes, estimate_size_in_bytes,
}
use aiokafka.Record.DefaultRecords.Records.{IsSound, Fits, FitMessage, FitHeaders}
use aiokafka.Record.DefaultRecords.Rounds.Block.{start_from_lem, append_message_lem}

length-nullable : (o : Option (List ℕ)) → Fits o → length (nullable o) ≡ size_of_nullable o
unfolding nullable size_of_nullable
length-nullable none h = omega arith
length-nullable (some bytes) h = omega (
  arith,
  length-append (varint_bytes (pos (length bytes))) bytes,
  (size_of-encode_varint (pos (length bytes)) h).0,
)

small_unsigned : (v : ℕ) → v < 2 ^ 32 → size_of_unsigned v ≤ 5
unfolding size_of_unsigned
small_unsigned v h = ground arith

-- A number of 31 bits takes five bytes at most.
small_varint : (n : ℕ) → n < 2 ^ 31 → size_of_varint (pos n) ≤ 5
unfolding size_of_varint zigzag
small_varint n h =
    let e : n / 2 ^ 63 ≡ 0 = omega arith in
    small_unsigned (zigzag (pos n)) (rw e (rw bit_xor-zero (omega arith)))

module _ (encoding : Encoding) (sound : IsSound encoding) where
  length-header_bytes :
      (hs : Headers)
      → FitHeaders encoding sound hs
      → length (header_bytes encoding hs) ≡ size_of_headers encoding hs
  unfolding header_bytes size_of_headers
  length-header_bytes [] h = omega arith
  length-header_bytes ((key, value) ∷ rest) h =
      let k = encoding.encode_text key in
      omega (
        arith,
        length-append (varint_bytes (pos (length k)))
            (k ++ (nullable value ++ header_bytes encoding rest)),
        length-append k (nullable value ++ header_bytes encoding rest),
        length-append (nullable value) (header_bytes encoding rest),
        (size_of-encode_varint (pos (length k)) h.0.0).0,
        length-nullable value h.0.1,
        length-header_bytes rest h.1,
      )

  length-message_bytes :
      (delta offset : ℤ) (key value : Option (List ℕ)) (headers : Headers)
      → FitMessage encoding sound delta offset key value headers
      → length (message_bytes encoding delta offset key value headers)
        ≡ 1 + size_of_varint offset + size_of_varint delta + size_of encoding key value headers
  unfolding message_bytes size_of
  length-message_bytes delta offset key value headers f =
      let hs = header_bytes encoding headers in
      let count = varint_bytes (pos (length headers)) in
      omega (
        arith,
        length-append (varint_bytes delta)
            (varint_bytes offset ++ (nullable key ++ (nullable value ++ (count ++ hs)))),
        length-append (varint_bytes offset) (nullable key ++ (nullable value ++ (count ++ hs))),
        length-append (nullable key) (nullable value ++ (count ++ hs)),
        length-append (nullable value) (count ++ hs),
        length-append count hs,
        (size_of-encode_varint delta f.delta_fits).0,
        (size_of-encode_varint offset f.offset_fits).0,
        (size_of-encode_varint (pos (length headers)) f.count_fits).0,
        length-nullable key f.key_fits,
        length-nullable value f.value_fits,
        length-header_bytes headers f.headers_fit,
      )

  size_lem :
      (fm : Bool) (offset t : ℤ) (xs : List ℕ) (b : RecordBatchBuilder) (d : RecordMetadata)
      → (append_message fm offset t xs b).0 ≡ some d
      → d.size ≡ required_size xs
  unfolding append_message
  size_lem fm offset t xs b d h = ground arith

  -- A record that is taken, whose length and offset are below 2^31 and whose numbers fit 64 bits: the size
  -- reported for it is the one that `size_in_bytes` computes and the buffer grows by it, and with the header
  -- of the batch it is not above the estimate.
  pub append-size_in_bytes :
      (now n : ℕ) (t : ℤ) (key value : Option (List ℕ)) (headers : Headers) (b : RecordBatchBuilder)
      (d : RecordMetadata)
      → (append encoding now (pos n) (some t) key value headers b).0 ≡ some d
      → FitMessage encoding sound (delta_from t b.first_timestamp) (pos n) key value headers
      → n < 2 ^ 31
      → d.size < 2 ^ 31
      → (d.size ≡ size_in_bytes encoding (pos n) t key value headers b)
        × (length (append encoding now (pos n) (some t) key value headers b).1.buffer
            ≡ length b.buffer + d.size)
        × (header_size + d.size ≤ estimate_size_in_bytes encoding key value headers)
  unfolding append size_in_bytes estimate_size_in_bytes
  append-size_in_bytes now n t key value headers b d h f small whole =
      let delta = delta_from t b.first_timestamp in
      let xs = message_bytes encoding delta (pos n) key value headers in
      let c = start_from t b in
      let s = size_lem (is_first b.first_timestamp) (pos n) t xs c d h in
      let l = length-message_bytes delta (pos n) key value headers f in
      let g = (append_message_lem (is_first b.first_timestamp) (pos n) t xs c d h).0 in
      let grown =
        ap length
          (g ∙ ap (λ l. l ++ (varint_bytes (pos (length xs)) ++ xs)) (start_from_lem t b).0) in
      let v = size_of-encode_varint (pos (length xs)) (omega (arith, s, whole)) in
      (
        s ∙ ap (λ k. k + size_of_varint (pos k)) l,
        omega (
          arith,
          grown,
          length-append b.buffer (varint_bytes (pos (length xs)) ++ xs),
          length-append (varint_bytes (pos (length xs))) xs,
          v.0,
          s,
        ),
        omega (
          arith,
          s,
          l,
          small_varint n small,
          small_varint (length xs) (omega (arith, s, whole)),
          (size_of-encode_varint delta f.delta_fits).2,
        ),
      )
