-- ===== src/Record/Reading.antt =====
-- How aiokafka/record reads a buffer: a position that each read moves on. A slice behind the end of the
-- buffer is short, and a single byte there is an IndexError.
pub mod Sound
use aiokafka.Base.{
  ℕ, ◌+◌, ◌-◌, List, ℤ, take, drop, eqb_ℤ, sub_ℕ, if◌then◌else◌, Result, ok, err, Exception,
}
use aiokafka.Record.Varint.{decode_varint}

-- The value and the position behind it.
abbrev pub Read : Type 0 → Type 0
Read A = List ℕ → ℕ → Result (A × ℕ)

module _ {A B : Type 0} where
  abbrev pub continue : Result (A × ℕ) → (A → ℕ → Result (B × ℕ)) → Result (B × ℕ)
  continue (ok (a, p)) f = f a p
  continue (err e) f = err e

  infixl 10 ◌>>=◌
  unfoldable pub ◌>>=◌ : Read A → (A → Read B) → Read B
  ◌>>=◌ m f buffer p = continue (m buffer p) (λ a. f a buffer)

abbrev pub pure : {A : Type 0} → A → Read A
pure a buffer p = ok (a, p)

abbrev pub raise : {A : Type 0} → Exception → Read A
raise e buffer p = err e

abbrev pub lift : {A : Type 0} → Result A → Read A
lift (ok a) buffer p = ok (a, p)
lift (err e) buffer p = err e

abbrev pub varint : Read ℤ
varint = decode_varint

-- `buffer[pos : pos + n]`, and `pos += n`
unfoldable pub slice : ℕ → Read (List ℕ)
slice n buffer p = ok (take n (drop p buffer), p + n)

-- `if pos - start_pos != length: raise ...`
abbrev pub ends : {A : Type 0} → Exception → ℤ → ℕ → Result (A × ℕ) → Result (A × ℕ)
ends e size start (err x) = err x
ends e size start (ok (a, p)) = if eqb_ℤ (sub_ℕ p start) size then ok (a, p) else err e

abbrev pub sized_as : {A : Type 0} → Exception → ℤ → Read A → Read A
sized_as e size m buffer start = ends e size start (m buffer start)
