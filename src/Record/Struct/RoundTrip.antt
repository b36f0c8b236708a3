-- ===== src/Record/Struct/RoundTrip.antt =====
-- What was packed has the size of its fields and is unpacked again.
use aiokafka.Base.{
  ℕ, suc, ◌*◌, ◌-◌, ◌^◌, ◌<◌, List, [], ◌∷◌, ◌++◌, ◌≡◌, refl, ap, sym, arith, length, length-append,
  ℤ, pos, negsuc, Result, ok, err,
}
use mathlib.Core.List.{append_assoc}
use aiokafka.Protocol.Integers.{pack_int, pack_uint32, be_bytes}
use aiokafka.Protocol.Integers.RoundTrip.{
  decode_int-pack_int, decode_uint32-pack_uint32, length-be_bytes,
}
use aiokafka.Record.Struct.{
  Field, int_field, uint_field, pack_field, decode_field, as_struct, join, pack_struct,
  decode_fields, unpack_struct, field_size, calcsize,
}

decode_field-pack_field :
    (f : Field) (n : ℤ) (bytes rest : List ℕ)
    → pack_field f n ≡ ok bytes
    → decode_field f (bytes ++ rest) ≡ (ok n, rest)
decode_field-pack_field (int_field k) n bytes rest h = decode_int-pack_int k n bytes rest h
decode_field-pack_field uint_field n bytes rest h = decode_uint32-pack_uint32 n bytes rest h

decode_fields-join :
    (f : Field) (fs : List Field) (n : ℤ) (ns : List ℤ) (bytes rest : List ℕ)
    (r t : Result (List ℕ))
    → ((xs ys : List ℕ) → r ≡ ok xs → decode_field f (xs ++ ys) ≡ (ok n, ys))
    → ((xs : List ℕ) → t ≡ ok xs → decode_fields fs (xs ++ rest) ≡ (ok ns, rest))
    → join r t ≡ ok bytes
    → decode_fields (f ∷ fs) (bytes ++ rest) ≡ (ok (n ∷ ns), rest)
unfolding decode_fields
decode_fields-join f fs n ns bytes rest (ok xs) (ok ys) h k e =
    let d : xs ++ ys ≡ bytes = cc in
    rw (← d, append_assoc xs ys rest, h xs (ys ++ rest) refl, k ys refl) refl
decode_fields-join f fs n ns bytes rest (ok xs) (err x) h k e = cc
decode_fields-join f fs n ns bytes rest (err x) t h k e = cc

decode_fields-pack_struct :
    (fs : List Field) (ns : List ℤ) (bytes rest : List ℕ)
    → pack_struct fs ns ≡ ok bytes
    → decode_fields fs (bytes ++ rest) ≡ (ok ns, rest)
unfolding pack_struct decode_fields
decode_fields-pack_struct [] [] bytes rest e = let d : [] ≡ bytes = cc in rw (← d) refl
decode_fields-pack_struct [] (n ∷ ns) bytes rest e = cc
decode_fields-pack_struct (f ∷ fs) [] bytes rest e = cc
decode_fields-pack_struct (f ∷ fs) (n ∷ ns) bytes rest e =
    decode_fields-join f fs n ns bytes rest (pack_field f n) (pack_struct fs ns)
      (λ xs ys. decode_field-pack_field f n xs ys) (λ xs. decode_fields-pack_struct fs ns xs rest) e

-- What was packed is unpacked again, whatever follows.
pub unpack_struct-pack_struct :
    (fs : List Field) (ns : List ℤ) (bytes rest : List ℕ)
    → pack_struct fs ns ≡ ok bytes
    → unpack_struct fs (bytes ++ rest) ≡ ok ns
unfolding unpack_struct
unpack_struct-pack_struct fs ns bytes rest e =
    ap (λ (r : Result (List ℤ) × List ℕ). as_struct r.0)
      (decode_fields-pack_struct fs ns bytes rest e)

-- The numbers that a field has room for.
abbrev pub Fits : Field → ℤ → Type 0
Fits (int_field k) (pos n) = n < 128 * 256 ^ k
Fits (int_field k) (negsuc m) = m < 128 * 256 ^ k
Fits uint_field (pos n) = n < 2 ^ 32
Fits uint_field (negsuc m) = ⊥

abbrev pub AllFit : List Field → List ℤ → Type 0
AllFit [] [] = Unit
AllFit [] (n ∷ ns) = ⊥
AllFit (f ∷ fs) [] = ⊥
AllFit (f ∷ fs) (n ∷ ns) = Fits f n × AllFit fs ns

-- The bytes that a field gets, and the fields together.
pack_field-Fits :
    (f : Field) (n : ℤ)
    → Fits f n
    → (bytes : List ℕ) × (pack_field f n ≡ ok bytes) × (length bytes ≡ field_size f)
unfolding pack_int pack_uint32
pack_field-Fits (int_field k) (pos n) h =
    (be_bytes (suc k) n, ground arith, length-be_bytes (suc k) n)
pack_field-Fits (int_field k) (negsuc m) h = (
  be_bytes (suc k) (256 * 256 ^ k - 1 - m),
  ground arith,
  length-be_bytes (suc k) (256 * 256 ^ k - 1 - m),
)
pack_field-Fits uint_field (pos n) h = (be_bytes 4 n, ground arith, length-be_bytes 4 n)
pack_field-Fits uint_field (negsuc m) h = absurd h

pub pack_struct-AllFit :
    (fs : List Field) (ns : List ℤ)
    → AllFit fs ns
    → (bytes : List ℕ) × (pack_struct fs ns ≡ ok bytes) × (length bytes ≡ calcsize fs)
unfolding pack_struct calcsize
pack_struct-AllFit [] [] h = ([], refl, refl)
pack_struct-AllFit [] (n ∷ ns) h = absurd h
pack_struct-AllFit (f ∷ fs) [] h = absurd h
pack_struct-AllFit (f ∷ fs) (n ∷ ns) h =
    let (xs, e, l) = pack_field-Fits f n h.0 in
    let (ys, d, m) = pack_struct-AllFit fs ns h.1 in
    (xs ++ ys, rw (e, d) refl, omega (arith, length-append xs ys, l, m))

-- Fields that are packed apart stand side by side.
join-append :
    (r s t : Result (List ℕ)) (xs ys : List ℕ)
    → ((zs : List ℕ) → s ≡ ok zs → t ≡ ok (zs ++ ys))
    → join r s ≡ ok xs
    → join r t ≡ ok (xs ++ ys)
join-append (ok a) (ok b) t xs ys h e =
    let d : a ++ b ≡ xs = cc in rw (h b refl, ← d) (ap ok (sym (append_assoc a b ys)))
join-append (ok a) (err x) t xs ys h e = cc
join-append (err x) s t xs ys h e = cc

pub pack_struct-append :
    (fs gs : List Field) (ns ms : List ℤ) (xs ys : List ℕ)
    → pack_struct fs ns ≡ ok xs
    → pack_struct gs ms ≡ ok ys
    → pack_struct (fs ++ gs) (ns ++ ms) ≡ ok (xs ++ ys)
unfolding pack_struct
pack_struct-append [] gs [] ms xs ys e d = let z : [] ≡ xs = cc in rw (← z) d
pack_struct-append [] gs (n ∷ ns) ms xs ys e d = cc
pack_struct-append (f ∷ fs) gs [] ms xs ys e d = cc
pack_struct-append (f ∷ fs) gs (n ∷ ns) ms xs ys e d =
    join-append (pack_field f n) (pack_struct fs ns) (pack_struct (fs ++ gs) (ns ++ ms)) xs ys
      (λ zs k. pack_struct-append fs gs ns ms zs ys k d) e
