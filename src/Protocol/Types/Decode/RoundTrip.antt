-- ===== src/Protocol/Types/Decode/RoundTrip.antt =====
-- What a type writes, it reads back.
use aiokafka.Base.{
  ℕ, suc, ◌+◌, ◌^◌, ◌<◌, ◌≡◌, refl, ◌∙◌, arith, Bool, List, [], ◌∷◌, ◌++◌, length, ℤ, pos, negsuc,
  Result, ok, err, continue, eqb, eqb_iff, if◌then◌else◌, Bool-cases, inl, inr, value_error,
}
use mathlib.Core.List.{append_assoc, append-nil}
use aiokafka.Protocol.Reader.{read, ◌>>=◌}
use aiokafka.Protocol.Integers.{pack_int, decode_int}
use aiokafka.Protocol.Integers.RoundTrip.{
  decode_int-pack_int, decode_uint32-pack_uint32, read-append,
}
use aiokafka.Protocol.Varints.{encode_unsigned, decode_unsigned, encode_var32, encode_var64}
use aiokafka.Protocol.Varints.RoundTrip.{
  decode-encode_unsigned, decode-encode_var32, decode-encode_var64,
}
use aiokafka.Protocol.Types.{
  WireType, int8, int16, int32, uint32, int64, boolean, string, bytes, unsigned_varint32, varint32,
  varint64, compact_string, compact_bytes, tagged_fields, array, compact_array, schema, Fields, end,
  field, Value, null, int, bool, text, raw, tags, tuple, items, Values, nil, cons, count,
  count_fields, Encoding, with_int_length, with_varint_length, encode_tags, encode_many, encode,
  encode_fields,
}
use aiokafka.Protocol.Types.Decode.{
  decode_bool, read_exactly, sized, compact_sized, decode_many, decode_array, decode_compact_array,
  decode_tags, decode_value, decode, decode_fields,
}

-- An encoder of two parts that succeeds: so did the first, and the second at its bytes.
parts :
    (m : Result (List ℕ)) (f : List ℕ → Result (List ℕ)) (bs : List ℕ)
    → (m >>= f) ≡ ok bs
    → (head : List ℕ) × (m ≡ ok head) × (f head ≡ ok bs)
parts (ok head) f bs h = (head, refl, h)
parts (err e) f bs h = cc

read_exactly-append : (xs ys : List ℕ) → read_exactly (length xs) (xs ++ ys) ≡ (ok xs, ys)
unfolding read_exactly
read_exactly-append xs ys = rw (read-append xs ys) (ground arith)

module _ (found : List ℕ → List ℕ → Result Value × List ℕ) where
  sized-append :
      (k : ℕ) (xs bs rest : List ℕ)
      → with_int_length k xs ≡ ok bs
      → continue (decode_int k (bs ++ rest)).0 (λ n. sized n found) (decode_int k (bs ++ rest)).1
        ≡ found xs rest
  unfolding with_int_length sized
  sized-append k xs bs rest h =
      let (head, p, q) = parts (pack_int k (pos (length xs))) (λ head. ok (head ++ xs)) bs h in
      let e : bs ≡ head ++ xs = cc in
      rw
        (
          e,
          append_assoc head xs rest,
          decode_int-pack_int k (pos (length xs)) head (xs ++ rest) p,
          read_exactly-append xs rest,
        )
        refl

  compact_sized-append :
      (xs rest : List ℕ)
      → length xs + 1 < 2 ^ 32
      → continue
          (decode_unsigned (with_varint_length xs ++ rest)).0
          (λ n. compact_sized n found)
          (decode_unsigned (with_varint_length xs ++ rest)).1
        ≡ found xs rest
  unfolding with_varint_length compact_sized
  compact_sized-append xs rest h =
      rw
        (
          append_assoc (encode_unsigned (pos (length xs + 1))) xs rest,
          decode-encode_unsigned (length xs + 1) (xs ++ rest) h,
          one_more (length xs),
          read_exactly-append xs rest,
        )
        refl
    where
      one_more : (n : ℕ) → n + 1 ≡ suc n
      one_more n = omega arith

abbrev pub AllValues : (Value → Type 0) → Values → Type 0
AllValues P nil = Unit
AllValues P (cons v vs) = P v × AllValues P vs

module _ (encode_one : Value → Result (List ℕ)) (decode_one : List ℕ → Result Value × List ℕ)
    (P : Value → Type 0)
    (reads : (v : Value) (bs rest : List ℕ)
      → P v
      → encode_one v ≡ ok bs
      → decode_one (bs ++ rest) ≡ (ok v, rest)) where
  decode_many-encode_many :
      (vs : Values) (bs rest : List ℕ)
      → AllValues P vs
      → encode_many encode_one vs ≡ ok bs
      → decode_many (count vs) decode_one (bs ++ rest) ≡ (ok vs, rest)
  unfolding encode_many decode_many count
  decode_many-encode_many nil bs rest s h = let e : bs ≡ [] = cc in rw e refl
  decode_many-encode_many (cons v vs) bs rest s h =
      let (head, p, q) =
        parts (encode_one v) (λ head. encode_many encode_one vs >>= λ more. ok (head ++ more)) bs
          h in
      let (more, p', q') = parts (encode_many encode_one vs) (λ more. ok (head ++ more)) bs q in
      let e : bs ≡ head ++ more = cc in
      rw
        (
          e,
          append_assoc head more rest,
          reads v head (more ++ rest) s.0 p,
          decode_many-encode_many vs more rest s.1 p',
        )
        refl

  array-encode_many :
      (vs : Values) (bs rest : List ℕ)
      → AllValues P vs
      → (pack_int 3 (pos (count vs)) >>= λ head.
          encode_many encode_one vs >>= λ more. ok (head ++ more))
        ≡ ok bs
      → continue
          (decode_int 3 (bs ++ rest)).0
          (λ n. decode_array n decode_one)
          (decode_int 3 (bs ++ rest)).1
        ≡ (ok (items vs), rest)
  unfolding decode_array
  array-encode_many vs bs rest s h =
      let (head, p, q) =
        parts (pack_int 3 (pos (count vs)))
          (λ head. encode_many encode_one vs >>= λ more. ok (head ++ more)) bs h in
      let (more, p', q') = parts (encode_many encode_one vs) (λ more. ok (head ++ more)) bs q in
      let e : bs ≡ head ++ more = cc in
      rw
        (
          e,
          append_assoc head more rest,
          decode_int-pack_int 3 (pos (count vs)) head (more ++ rest) p,
          decode_many-encode_many vs more rest s p',
        )
        refl

  compact_array-encode_many :
      (vs : Values) (bs rest : List ℕ)
      → AllValues P vs
      → count vs + 1 < 2 ^ 32
      → (encode_many encode_one vs >>= λ more. ok (encode_unsigned (pos (count vs + 1)) ++ more))
        ≡ ok bs
      → continue
          (decode_unsigned (bs ++ rest)).0
          (λ n. decode_compact_array n decode_one)
          (decode_unsigned (bs ++ rest)).1
        ≡ (ok (items vs), rest)
  unfolding decode_compact_array
  compact_array-encode_many vs bs rest s b h =
      let (more, p', q') =
        parts (encode_many encode_one vs)
          (λ more. ok (encode_unsigned (pos (count vs + 1)) ++ more)) bs h in
      let e : bs ≡ encode_unsigned (pos (count vs + 1)) ++ more = cc in
      rw
        (
          e,
          append_assoc (encode_unsigned (pos (count vs + 1))) more rest,
          decode-encode_unsigned (count vs + 1) (more ++ rest) b,
          one_more (count vs),
          decode_many-encode_many vs more rest s p',
        )
        refl
    where
      one_more : (n : ℕ) → n + 1 ≡ suc n
      one_more n = omega arith

-- The values whose bytes say what they are: lengths and varints fit their 32 bits, VarInt32 is not
-- negative, VarInt64 has a single byte, and no tags are there.
abbrev pub FitsUnsigned : ℕ → ℤ → Type 0
FitsUnsigned bound (pos n) = n < bound
FitsUnsigned bound (negsuc m) = ⊥

abbrev mutual
  pub IsSound : Encoding → WireType → Value → Type 0
  IsSound encoding unsigned_varint32 (int n) = FitsUnsigned (2 ^ 32) n
  IsSound encoding varint32 (int n) = FitsUnsigned (2 ^ 31) n
  IsSound encoding varint64 (int n) = FitsUnsigned 64 n
  IsSound encoding compact_string (text s) = length (encoding.encode_text s) + 1 < 2 ^ 32
  IsSound encoding compact_bytes (raw b) = length b + 1 < 2 ^ 32
  IsSound encoding tagged_fields (tags d) = d ≡ []
  IsSound encoding (array t) (items vs) = AllValues (IsSound encoding t) vs
  IsSound encoding (compact_array t) (items vs) =
      AllValues (IsSound encoding t) vs × (count vs + 1 < 2 ^ 32)
  IsSound encoding (schema fs) (tuple vs) = AreSound encoding fs vs
  IsSound encoding _ _ = Unit

  pub AreSound : Encoding → Fields → Values → Type 0
  AreSound encoding end vs = Unit
  AreSound encoding (field t fs) nil = Unit
  AreSound encoding (field t fs) (cons v vs) = IsSound encoding t v × AreSound encoding fs vs

boolean_reads_back :
    (b : Bool) (bs rest : List ℕ)
    → ok ((if b then 1 else 0) ∷ []) ≡ ok bs
    → decode_bool (bs ++ rest) ≡ (ok (bool b), rest)
unfolding decode_bool read
boolean_reads_back b bs rest h = let e : bs ≡ (if b then 1 else 0) ∷ [] = cc in rw e (ground arith)

module _ (encoding : Encoding)
    (decodes : (s : List ℕ) → encoding.decode_text (encoding.encode_text s) ≡ ok s) where
  text_found :
      (x rest : List ℕ) → decode_value encoding (encoding.encode_text x) rest ≡ (ok (text x), rest)
  unfolding decode_value
  text_found x rest = rw (decodes x) refl

  -- The marks of None.
  null_int :
      (k : ℕ) (f : ℤ → List ℕ → Result Value × List ℕ) (bs rest : List ℕ)
      → pack_int k (negsuc 0) ≡ ok bs
      → f (negsuc 0) rest ≡ (ok null, rest)
      → continue (decode_int k (bs ++ rest)).0 f (decode_int k (bs ++ rest)).1 ≡ (ok null, rest)
  null_int k f bs rest h e = rw (decode_int-pack_int k (negsuc 0) bs rest h) e

  unsigned :
      (n : ℕ) (f : ℕ → List ℕ → Result Value × List ℕ) (bs rest : List ℕ) (v : Value)
      → ok (encode_unsigned (pos n)) ≡ ok bs
      → n < 2 ^ 32
      → f n rest ≡ (ok v, rest)
      → continue (decode_unsigned (bs ++ rest)).0 f (decode_unsigned (bs ++ rest)).1 ≡ (ok v, rest)
  unsigned n f bs rest v h b e =
      let g : bs ≡ encode_unsigned (pos n) = cc in rw (g, decode-encode_unsigned n rest b) e

  mutual
    unfolding encode encode_fields decode decode_fields sized compact_sized decode_array
        decode_compact_array count count_fields decode_tags encode_tags

    reads_back :
        (t : WireType) (v : Value) (bs rest : List ℕ)
        → IsSound encoding t v
        → encode encoding t v ≡ ok bs
        → decode encoding t (bs ++ rest) ≡ (ok v, rest)
    reads_back int8 (int n) bs rest s h = rw (decode_int-pack_int 0 n bs rest h) refl
    reads_back int16 (int n) bs rest s h = rw (decode_int-pack_int 1 n bs rest h) refl
    reads_back int32 (int n) bs rest s h = rw (decode_int-pack_int 3 n bs rest h) refl
    reads_back uint32 (int n) bs rest s h = rw (decode_uint32-pack_uint32 n bs rest h) refl
    reads_back int64 (int n) bs rest s h = rw (decode_int-pack_int 7 n bs rest h) refl
    reads_back boolean (bool b) bs rest s h = boolean_reads_back b bs rest h
    reads_back string null bs rest s h = null_int 1 _ bs rest h refl
    reads_back string (text x) bs rest s h =
        sized-append (decode_value encoding) 1 (encoding.encode_text x) bs rest h
        ∙ text_found x rest
    reads_back bytes null bs rest s h = null_int 3 _ bs rest h refl
    reads_back bytes (raw x) bs rest s h = sized-append (λ b s. (ok (raw b), s)) 3 x bs rest h
    reads_back unsigned_varint32 (int (pos n)) bs rest s h = unsigned n _ bs rest _ h s refl
    reads_back unsigned_varint32 (int (negsuc n)) bs rest s h = absurd s
    reads_back varint32 (int (pos n)) bs rest s h =
        let e : bs ≡ encode_var32 (pos n) = cc in rw (e, decode-encode_var32 n rest s) refl
    reads_back varint32 (int (negsuc n)) bs rest s h = absurd s
    reads_back varint64 (int (pos n)) bs rest s h =
        let e : bs ≡ encode_var64 (pos n) = cc in rw (e, decode-encode_var64 n rest s) refl
    reads_back varint64 (int (negsuc n)) bs rest s h = absurd s
    reads_back compact_string null bs rest s h = unsigned 0 _ bs rest null h (omega arith) refl
    reads_back compact_string (text x) bs rest s h =
        let e : bs ≡ with_varint_length (encoding.encode_text x) = cc in
        rw e (
          compact_sized-append (decode_value encoding) (encoding.encode_text x) rest s
          ∙ text_found x rest)
    reads_back compact_bytes null bs rest s h = unsigned 0 _ bs rest null h (omega arith) refl
    reads_back compact_bytes (raw x) bs rest s h =
        let e : bs ≡ with_varint_length x = cc in
        rw e (compact_sized-append (λ b s. (ok (raw b), s)) x rest s)
    reads_back tagged_fields (tags []) bs rest s h =
        let e : bs ≡ encode_unsigned (pos 0) ++ [] = cc in
        rw (e, append-nil, decode-encode_unsigned 0 rest (omega arith)) refl
    reads_back tagged_fields (tags (x ∷ d)) bs rest s h = cc
    reads_back (array t) null bs rest s h = null_int 3 _ bs rest h refl
    reads_back (array t) (items vs) bs rest s h =
        array-encode_many (encode encoding t) (decode encoding t) (IsSound encoding t)
          (reads_back t) vs bs rest s h
    reads_back (compact_array t) null bs rest s h = unsigned 0 _ bs rest null h (omega arith) refl
    reads_back (compact_array t) (items vs) bs rest s h =
        compact_array-encode_many (encode encoding t) (decode encoding t) (IsSound encoding t)
          (reads_back t) vs bs rest s.0 s.1 h
    reads_back (schema fs) (tuple vs) bs rest s h =
        elim (Bool-cases (eqb (count vs) (count_fields fs))) [
          | inl same ↦
              let e : encode_fields encoding fs vs ≡ ok bs = rw same at h in
              rw
                (fields_read_back fs vs bs rest s ((eqb_iff (count vs) (count_fields fs)).0 same) e)
                refl
          | inr other ↦ let e : (err value_error) ≡ ok bs = rw other at h in cc
        ]
    reads_back _ _ bs rest s h = cc

    fields_read_back :
        (fs : Fields) (vs : Values) (bs rest : List ℕ)
        → AreSound encoding fs vs
        → count vs ≡ count_fields fs
        → encode_fields encoding fs vs ≡ ok bs
        → decode_fields encoding fs (bs ++ rest) ≡ (ok vs, rest)
    fields_read_back end nil bs rest s c h = let e : bs ≡ [] = cc in rw e refl
    fields_read_back end (cons v vs) bs rest s c h = absurd (omega arith)
    fields_read_back (field t fs) nil bs rest s c h = absurd (omega arith)
    fields_read_back (field t fs) (cons v vs) bs rest s c h =
        let (head, p, q) =
          parts (encode encoding t v)
            (λ head. encode_fields encoding fs vs >>= λ more. ok (head ++ more)) bs h in
        let (more, p', q') =
          parts (encode_fields encoding fs vs) (λ more. ok (head ++ more)) bs q in
        let e : bs ≡ head ++ more = cc in
        rw
          (
            e,
            append_assoc head more rest,
            reads_back t v head (more ++ rest) s.0 p,
            fields_read_back fs vs more rest s.1 (omega arith) p',
          )
          refl

-- Whatever a type writes for a value, it reads back from the front of a buffer, and leaves the rest, if
-- the value is sound: an encoding reads back the texts that it writes, the lengths of the compact types
-- and an UnsignedVarInt32 fit 32 bits, a VarInt32 is not negative and below 2 ^ 31, a VarInt64 is from 0
-- to 63, and there are no tagged fields. This holds at any depth of arrays and schemas.
pub decode-encode :
    (encoding : Encoding) (t : WireType) (v : Value) (bs rest : List ℕ)
    → ((s : List ℕ) → encoding.decode_text (encoding.encode_text s) ≡ ok s)
    → IsSound encoding t v
    → encode encoding t v ≡ ok bs
    → decode encoding t (bs ++ rest) ≡ (ok v, rest)
decode-encode encoding t v bs rest decodes s h = reads_back encoding decodes t v bs rest s h
