-- ===== src/Record/DefaultRecords/Records.antt =====
-- A record that was written reads back.
use aiokafka.Base.{
  ℕ, ◌^◌, ◌<◌, ◌≡◌, refl, arith, Option, none, some, List, [], ◌∷◌, ◌++◌, All, length, ℤ, pos,
  negsuc, ok, corrupt_record, eqb, if◌then◌else◌, ◌+ℤ◌,
}
use mathlib.Core.List.{append-nil}
use mathlib.Core.Path.{subst}
use aiokafka.Protocol.Types.{Encoding}
use aiokafka.Record.Varint.{encode_varint, encode_unsigned, zigzag}
use aiokafka.Record.Varint.Shape.{IsInt64}
use aiokafka.Record.Reading.{varint, slice, lift}
use aiokafka.Record.Reading.Sound.{
  Reads, Reads-bind, Reads-pure, Reads-varint, Reads-slice, Reads-sized_as, Reads-map, Reads-lift,
}
use aiokafka.Record.DefaultRecords.{Headers, DefaultRecord}
use aiokafka.Record.DefaultRecords.Batch.{
  DefaultRecordBatch, base_offset, timestamp_type, max_timestamp, first_timestamp, sized_bytes,
  nullable_bytes, sized_text, read_headers, counted_headers, read_fields, read_msg,
}
use aiokafka.Record.DefaultRecords.Builder.{nullable, header_bytes, message_bytes, varint_bytes}

-- Decoding undoes encoding.
abbrev pub IsSound : Encoding → Type 0
IsSound encoding = (t : List ℕ) → encoding.decode_text (encoding.encode_text t) ≡ ok t

abbrev pub Fits : Option (List ℕ) → Type 0
Fits none = Unit
Fits (some bytes) = length bytes < 2 ^ 63

minus_one : varint_bytes (negsuc 0) ≡ 1 ∷ []
unfolding encode_varint encode_unsigned zigzag
minus_one = refl

nullable_bytes-Reads : (o : Option (List ℕ)) → Fits o → Reads nullable_bytes (nullable o) o
unfolding nullable_bytes nullable sized_bytes
nullable_bytes-Reads none h =
    subst (λ xs. Reads nullable_bytes xs none) minus_one
      (subst (λ xs. Reads nullable_bytes xs none) (append-nil (varint_bytes (negsuc 0)))
        (Reads-bind varint sized_bytes (varint_bytes (negsuc 0)) [] (negsuc 0) none
          (Reads-varint (negsuc 0) (omega arith)) (Reads-pure none)))
nullable_bytes-Reads (some bytes) h =
    Reads-bind varint sized_bytes (varint_bytes (pos (length bytes))) bytes (pos (length bytes))
      (some bytes) (Reads-varint (pos (length bytes)) h)
      (Reads-map (slice (length bytes)) some bytes bytes (Reads-slice bytes))

module _ (encoding : Encoding) (sound : IsSound encoding) where
  abbrev pub FitHeaders : Headers → Type 0
  FitHeaders = All (λ h. (length (encoding.encode_text h.0) < 2 ^ 63) × Fits h.1)

  sized_text-Reads :
      (t : List ℕ)
      → Reads
          (sized_text encoding (pos (length (encoding.encode_text t))))
          (encoding.encode_text t)
          t
  unfolding sized_text
  sized_text-Reads t =
      let bytes = encoding.encode_text t in
      subst (λ xs. Reads (sized_text encoding (pos (length bytes))) xs t) (append-nil bytes)
        (Reads-bind (slice (length bytes)) (λ b. lift (encoding.decode_text b)) bytes [] bytes t
          (Reads-slice bytes) (Reads-lift (encoding.decode_text bytes) t (sound t)))

  read_headers-Reads :
      (hs : Headers)
      → FitHeaders hs
      → Reads (read_headers encoding (length hs)) (header_bytes encoding hs) hs
  unfolding read_headers header_bytes
  read_headers-Reads [] h = Reads-pure []
  read_headers-Reads ((key, value) ∷ rest) h =
      let k = encoding.encode_text key in
      let more : Reads (read_headers encoding (length rest)) (header_bytes encoding rest) rest =
        read_headers-Reads rest h.1 in
      Reads-bind varint _ (varint_bytes (pos (length k)))
        (k ++ (nullable value ++ header_bytes encoding rest)) (pos (length k)) ((key, value) ∷ rest)
        (Reads-varint (pos (length k)) h.0.0)
        (Reads-bind (sized_text encoding (pos (length k))) _ k
          (nullable value ++ header_bytes encoding rest) key ((key, value) ∷ rest)
          (sized_text-Reads key)
          (Reads-bind nullable_bytes _ (nullable value) (header_bytes encoding rest) value
            ((key, value) ∷ rest) (nullable_bytes-Reads value h.0.1)
            (Reads-map (read_headers encoding (length rest)) (λ r. (key, value) ∷ r)
              (header_bytes encoding rest) rest more)))

  -- What `read_fields` makes of the fields of a record.
  abbrev pub record_of :
      DefaultRecordBatch → ℤ → ℤ → Option (List ℕ) → Option (List ℕ) → Headers → DefaultRecord
  record_of b delta offset key value headers = record {
    offset = base_offset b +ℤ offset;
    timestamp = if eqb (timestamp_type b) 1 then max_timestamp b else first_timestamp b +ℤ delta;
    timestamp_type = timestamp_type b;
    key = key;
    value = value;
    headers = headers;
  }

  -- The numbers of a message fit 64 bits.
  pub record FitMessage (delta offset : ℤ) (key value : Option (List ℕ)) (headers : Headers)
      : Type 0 where
    pub delta_fits : IsInt64 delta
    pub offset_fits : IsInt64 offset
    pub key_fits : Fits key
    pub value_fits : Fits value
    pub count_fits : length headers < 2 ^ 63
    pub headers_fit : FitHeaders headers

  zero_byte : varint_bytes (pos 0) ≡ 0 ∷ []
  unfolding encode_varint encode_unsigned zigzag
  zero_byte = refl

  read_fields-Reads :
      (b : DefaultRecordBatch) (delta offset : ℤ) (key value : Option (List ℕ)) (headers : Headers)
      → FitMessage delta offset key value headers
      → Reads
          (read_fields encoding b)
          (message_bytes encoding delta offset key value headers)
          (record_of b delta offset key value headers)
  unfolding read_fields message_bytes counted_headers
  read_fields-Reads b delta offset key value headers f =
      let r = record_of b delta offset key value headers in
      let hs = header_bytes encoding headers in
      let with_count = varint_bytes (pos (length headers)) ++ hs in
      let with_value = nullable value ++ with_count in
      let with_key = nullable key ++ with_value in
      let with_offset = varint_bytes offset ++ with_key in
      let with_delta = varint_bytes delta ++ with_offset in
      Reads-bind varint _ (0 ∷ []) with_delta (pos 0) r
        (subst (λ xs. Reads varint xs (pos 0)) zero_byte (Reads-varint (pos 0) (omega arith)))
        (Reads-bind varint _ (varint_bytes delta) with_offset delta r
          (Reads-varint delta f.delta_fits)
          (Reads-bind varint _ (varint_bytes offset) with_key offset r
            (Reads-varint offset f.offset_fits)
            (Reads-bind nullable_bytes _ (nullable key) with_value key r
              (nullable_bytes-Reads key f.key_fits)
              (Reads-bind nullable_bytes _ (nullable value) with_count value r
                (nullable_bytes-Reads value f.value_fits)
                (Reads-bind varint _ (varint_bytes (pos (length headers))) hs (pos (length headers))
                  r (Reads-varint (pos (length headers)) f.count_fits)
                  (Reads-map (read_headers encoding (length headers)) _ hs headers
                    (read_headers-Reads headers f.headers_fit)))))))

  -- A record that was written with its length reads back.
  pub read_msg-Reads :
      (b : DefaultRecordBatch) (delta offset : ℤ) (key value : Option (List ℕ)) (headers : Headers)
      → FitMessage delta offset key value headers
      → length (message_bytes encoding delta offset key value headers) < 2 ^ 63
      → Reads
          (read_msg encoding b)
          (varint_bytes (pos (length (message_bytes encoding delta offset key value headers)))
            ++ message_bytes encoding delta offset key value headers)
          (record_of b delta offset key value headers)
  unfolding read_msg
  read_msg-Reads b delta offset key value headers f h =
      let message = message_bytes encoding delta offset key value headers in
      let r = record_of b delta offset key value headers in
      Reads-bind varint _ (varint_bytes (pos (length message))) message (pos (length message)) r
        (Reads-varint (pos (length message)) h)
        (Reads-sized_as (read_fields encoding b) message r corrupt_record
          (read_fields-Reads b delta offset key value headers f))
