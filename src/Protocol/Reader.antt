-- ===== src/Protocol/Reader.antt =====
-- `BytesIO` as the bytes that are still to be read, and `Result` as the value of an encoder.
use aiokafka.Base.{ℕ, List, Exec, Result, ok, err, take, drop}

abbrev pub Decoder : Type 0 → Type 0
Decoder A = Exec (List ℕ) A

-- `data.read(n)` gives fewer bytes at the end of the buffer.
unfoldable pub read : ℕ → Decoder (List ℕ)
read n bytes = (ok (take n bytes), drop n bytes)

module _ {ℓ κ} {A : Type ℓ} {B : Type κ} where
  infixl 10 ◌>>=◌
  abbrev pub ◌>>=◌ : Result A → (A → Result B) → Result B
  ok a >>= f = f a
  err e >>= f = err e
