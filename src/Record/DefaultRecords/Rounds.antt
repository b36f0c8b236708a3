-- ===== src/Record/DefaultRecords/Rounds.antt =====
-- A batch that was built, read again: first its header.
pub mod Attributes
pub mod Block
pub mod Iterated
pub mod Whole
pub mod Built
use aiokafka.Base.{
  ℕ, zero, suc, ◌+◌, ◌-◌, ◌^◌, ◌<◌, Bool, true, false, List, [], ◌∷◌, ◌++◌, take, drop, length,
  length-append, ◌≡◌, refl, sym, ap, ◌∙◌, arith, ℤ, pos, negsuc, ok,
}
use mathlib.Core.List.{append_assoc}
use aiokafka.Protocol.Integers.RoundTrip.{take-append, drop-append}
use aiokafka.Record.Struct.{Field, int_field, uint_field, pack_struct, unpack_struct, calcsize}
use aiokafka.Record.Struct.RoundTrip.{
  AllFit, pack_struct-AllFit, pack_struct-append, unpack_struct-pack_struct,
}
use aiokafka.Record.Crc.{calc_crc32c, calc_crc32c_lt}
use aiokafka.Record.DefaultRecords.{header_struct, header_size, attributes_offset, crc_offset}
use aiokafka.Record.DefaultRecords.Builder.{
  RecordBatchBuilder, zeros, overwrite, header_values, write_header, write_crc, with_header,
  with_crc,
}

pub take_at : (k : ℕ) (xs ys : List ℕ) → length xs ≡ k → take k (xs ++ ys) ≡ xs
take_at k xs ys e = ap (λ n. take n (xs ++ ys)) (sym e) ∙ take-append xs ys

pub drop_at : (k : ℕ) (xs ys : List ℕ) → length xs ≡ k → drop k (xs ++ ys) ≡ ys
drop_at k xs ys e = ap (λ n. drop n (xs ++ ys)) (sym e) ∙ drop-append xs ys

overwrite_lem :
    (xs old new ys : List ℕ) (k : ℕ)
    → length xs ≡ k
    → length old ≡ length new
    → overwrite k new (xs ++ (old ++ ys)) ≡ xs ++ (new ++ ys)
overwrite_lem xs old new ys k e d =
    let t : take k (xs ++ (old ++ ys)) ≡ xs = take_at k xs (old ++ ys) e in
    let r : drop (k + length new) (xs ++ (old ++ ys)) ≡ ys =
      ap (drop (k + length new)) (sym (append_assoc xs old ys))
      ∙ drop_at (k + length new) (xs ++ old) ys (omega (arith, length-append xs old, e, d)) in
    rw (t, r) refl

-- The fields before and behind the checksum.
abbrev first_fields : List Field
first_fields = int_field 7 ∷ int_field 3 ∷ int_field 3 ∷ int_field 0 ∷ []

abbrev last_fields : List Field
last_fields =
    int_field 1
    ∷ int_field 3
    ∷ int_field 7
    ∷ int_field 7
    ∷ int_field 7
    ∷ int_field 1
    ∷ int_field 3
    ∷ int_field 3
    ∷ []

-- Packed with two checksums, the header differs in four bytes.
record Packed (ns ms : List ℤ) : Type 0 where
  before : List ℕ
  behind : List ℕ
  before_size : length before ≡ 17
  behind_size : length behind ≡ 40
  crc_bytes :
      (crc : ℕ)
      → crc < 2 ^ 32
      → (bytes : List ℕ) × (pack_struct (uint_field ∷ []) (pos crc ∷ []) ≡ ok bytes)
        × (length bytes ≡ 4)
        × (pack_struct header_struct (ns ++ (pos crc ∷ ms)) ≡ ok (before ++ (bytes ++ behind)))

packed : (ns ms : List ℤ) → AllFit first_fields ns → AllFit last_fields ms → Packed ns ms
unfolding calcsize
packed ns ms f g =
    let (xs, e, l) = pack_struct-AllFit first_fields ns f in
    let (ys, d, m) = pack_struct-AllFit last_fields ms g in
    record {
      before = xs;
      behind = ys;
      before_size = l;
      behind_size = m;
      crc_bytes = λ crc h.
          let (zs, c, n) = pack_struct-AllFit (uint_field ∷ []) (pos crc ∷ []) (h, tt) in
          (
            zs,
            c,
            n,
            pack_struct-append first_fields (uint_field ∷ last_fields) ns (pos crc ∷ ms) xs
                (zs ++ ys) e
                (pack_struct-append (uint_field ∷ []) last_fields (pos crc ∷ []) ms zs ys c d),
          );
    }

-- What `_write_header` makes of a buffer whose first bytes are the place of the header.
pub record Written (u : Bool) (b : RecordBatchBuilder) (body : List ℕ) : Type 0 where
  pub header : List ℕ
  pub sum : ℕ
  pub size : length header ≡ header_size
  pub written : write_header u b ≡ (ok tt, record b { buffer = header ++ body })
  pub unpacked : unpack_struct header_struct (header ++ body) ≡ ok (header_values u (pos sum) b)
  pub summed : calc_crc32c (drop attributes_offset (header ++ body)) ≡ sum

pub write_header-Written :
    (u : Bool) (b : RecordBatchBuilder) (body : List ℕ)
    → b.buffer ≡ zeros header_size ++ body
    → AllFit header_struct (header_values u (pos 0) b)
    → Written u b body
unfolding write_header
write_header-Written u b body e (f0, (f1, (f2, (f3, (f4, rest))))) =
    let ns = take 4 (header_values u (pos 0) b) in
    let ms = drop 5 (header_values u (pos 0) b) in
    let p = packed ns ms (f0, (f1, (f2, (f3, tt)))) rest in
    let (zs, z, zl, zp) = p.crc_bytes 0 (omega arith) in
    let xs = p.before in
    let ys = p.behind in
    let sum = calc_crc32c (ys ++ body) in
    let (cs, c, cl, cp) = p.crc_bytes sum (calc_crc32c_lt (ys ++ body)) in
    let first : overwrite 0 (xs ++ (zs ++ ys)) b.buffer ≡ xs ++ (zs ++ (ys ++ body)) =
      ap (overwrite 0 (xs ++ (zs ++ ys))) e
      ∙ overwrite_lem [] (zeros header_size) (xs ++ (zs ++ ys)) body 0 refl (
          omega (
            arith,
            length-append xs (zs ++ ys),
            length-append zs ys,
            zl,
            p.before_size,
            p.behind_size,
          ))
      ∙ append_assoc xs (zs ++ ys) body
      ∙ ap (λ l. xs ++ l) (append_assoc zs ys body) in
    let behind : drop attributes_offset (xs ++ (zs ++ (ys ++ body))) ≡ ys ++ body =
      ap (drop attributes_offset) (sym (append_assoc xs zs (ys ++ body)))
      ∙ drop_at attributes_offset (xs ++ zs) (ys ++ body)
          (omega (arith, length-append xs zs, zl, p.before_size)) in
    let second : overwrite crc_offset cs (xs ++ (zs ++ (ys ++ body))) ≡ (xs ++ (cs ++ ys)) ++ body =
      overwrite_lem xs zs cs (ys ++ body) crc_offset p.before_size (zl ∙ sym cl)
      ∙ ap (λ l. xs ++ l) (sym (append_assoc cs ys body))
      ∙ sym (append_assoc xs (cs ++ ys) body) in
    record {
      header = xs ++ (cs ++ ys);
      sum = sum;
      size = omega (
        arith,
        length-append xs (cs ++ ys),
        length-append cs ys,
        cl,
        p.before_size,
        p.behind_size,
      );
      written = rw (zp, first, behind, c, second) refl;
      unpacked =
          unpack_struct-pack_struct header_struct (header_values u (pos sum) b) (xs ++ (cs ++ ys))
            body cp;
      summed =
          ap (λ l. calc_crc32c (drop attributes_offset l))
            (append_assoc xs (cs ++ ys) body
              ∙ ap (λ l. xs ++ l) (append_assoc cs ys body)
              ∙ sym (append_assoc xs cs (ys ++ body)))
          ∙ ap calc_crc32c (
              drop_at attributes_offset (xs ++ cs) (ys ++ body)
                (omega (arith, length-append xs cs, cl, p.before_size)));
    }
