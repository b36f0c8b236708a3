-- ===== src/Record/Struct.antt =====
-- `struct.Struct` as aiokafka/record uses it: a list of fields of fixed width in the order of the network. A
-- number out of range, or a buffer that is too short, is a `struct.error`.
pub mod RoundTrip
use aiokafka.Base.{
  ℕ, suc, ◌+◌, List, [], ◌∷◌, ◌++◌, ◌≡◌, refl, ◌∙◌, ap, sym, length, ℤ, Result, ok, err,
  struct_error, Exec, pure, continue, ◌>>=◌,
}
use aiokafka.Protocol.Reader.{Decoder}
use aiokafka.Protocol.Reader
use aiokafka.Protocol.Integers.{pack_int, pack_uint32, decode_int, decode_uint32}

-- A signed field of k + 1 bytes, `b`, `h`, `i` or `q`, or the unsigned `I`.
pub data Field : Type 0 where
  int_field : ℕ → Field
  uint_field : Field

abbrev pub pack_field : Field → ℤ → Result (List ℕ)
pack_field (int_field k) n = pack_int k n
pack_field uint_field n = pack_uint32 n

abbrev pub decode_field : Field → Decoder ℤ
decode_field (int_field k) = decode_int k
decode_field uint_field = decode_uint32

abbrev pub as_struct : {A : Type 0} → Result A → Result A
as_struct (ok a) = ok a
as_struct (err e) = err struct_error

abbrev pub join : Result (List ℕ) → Result (List ℕ) → Result (List ℕ)
join (ok a) (ok b) = ok (a ++ b)
join (ok a) (err e) = err struct_error
join (err e) r = err struct_error

unfoldable pub pack_struct : List Field → List ℤ → Result (List ℕ)
pack_struct [] [] = ok []
pack_struct [] (n ∷ ns) = err struct_error
pack_struct (f ∷ fs) [] = err struct_error
pack_struct (f ∷ fs) (n ∷ ns) = join (pack_field f n) (pack_struct fs ns)

-- The bytes of a field, and `calcsize`.
abbrev pub field_size : Field → ℕ
field_size (int_field k) = suc k
field_size uint_field = 4

unfoldable pub calcsize : List Field → ℕ
calcsize [] = 0
calcsize (f ∷ fs) = field_size f + calcsize fs

pub decode_fields : List Field → Decoder (List ℤ)
decode_fields [] = pure []
decode_fields (f ∷ fs) = do n ← decode_field f; ns ← decode_fields fs; pure (n ∷ ns)

-- `unpack_from`
pub unpack_struct : List Field → List ℕ → Result (List ℤ)
unfolding decode_fields
unpack_struct fs bytes = as_struct (decode_fields fs bytes).0
