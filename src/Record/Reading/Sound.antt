-- ===== src/Record/Reading/Sound.antt =====
-- Reading what stands at the position, by parts.
use aiokafka.Base.{
  ℕ, ◌+◌, ◌≡◌, refl, sym, ap, ◌∙◌, arith, List, [], ◌++◌, ℤ, pos, length, length-append, ok, Result,
  Exception,
}
use mathlib.Core.List.{append_assoc}
use aiokafka.Protocol.Integers.RoundTrip.{take-append, drop-append}
use aiokafka.Record.Varint.{encode_varint}
use aiokafka.Record.Varint.Shape.{IsInt64}
use aiokafka.Record.Varint.RoundTrip.{decode_varint-encode_varint}
use aiokafka.Record.Reading.{Read, ◌>>=◌, continue, pure, lift, varint, slice, sized_as, ends}

-- Wherever the bytes stand in a buffer, the read gives the value and moves behind them.
abbrev pub Reads : {A : Type 0} → Read A → List ℕ → A → Type 0
Reads m bytes a =
    (before rest : List ℕ)
    → m (before ++ (bytes ++ rest)) (length before) ≡ ok (a, length before + length bytes)

module _ {A B : Type 0} where
  pub Reads-bind :
      (m : Read A) (f : A → Read B) (xs ys : List ℕ) (a : A) (b : B)
      → Reads m xs a
      → Reads (f a) ys b
      → Reads (m >>= f) (xs ++ ys) b
  unfolding ◌>>=◌
  Reads-bind m f xs ys a b h k before rest =
      let e : before ++ ((xs ++ ys) ++ rest) ≡ before ++ (xs ++ (ys ++ rest)) =
        ap (λ z. before ++ z) (append_assoc xs ys rest) in
      let e' : before ++ (xs ++ (ys ++ rest)) ≡ (before ++ xs) ++ (ys ++ rest) =
        sym (append_assoc before xs (ys ++ rest)) in
      let step : (m >>= f) (before ++ (xs ++ (ys ++ rest))) (length before)
          ≡ f a (before ++ (xs ++ (ys ++ rest))) (length before + length xs) =
        ap (λ r. continue r (λ a. f a (before ++ (xs ++ (ys ++ rest))))) (h before (ys ++ rest)) in
      ap (λ z. (m >>= f) z (length before)) e
      ∙ step
      ∙ ap (λ z. f a z (length before + length xs)) e'
      ∙ ap (λ n. f a ((before ++ xs) ++ (ys ++ rest)) n) (sym (length-append before xs))
      ∙ k (before ++ xs) rest
      ∙ ap (λ n. ok (b, n)) (omega (arith, length-append before xs, length-append xs ys))

pub Reads-pure : {A : Type 0} (a : A) → Reads (pure a) [] a
Reads-pure a before rest = ap (λ n. ok (a, n)) (omega arith)

pub Reads-varint : (n : ℤ) → IsInt64 n → Reads varint (encode_varint n).0 n
Reads-varint n h before rest = decode_varint-encode_varint n before rest h

pub Reads-slice : (xs : List ℕ) → Reads (slice (length xs)) xs xs
unfolding slice
Reads-slice xs before rest = rw (drop-append before (xs ++ rest), take-append xs rest) refl

pub Reads-sized_as :
    {A : Type 0} (m : Read A) (xs : List ℕ) (a : A) (e : Exception)
    → Reads m xs a
    → Reads (sized_as e (pos (length xs)) m) xs a
Reads-sized_as m xs a e h before rest =
    ap (ends e (pos (length xs)) (length before)) (h before rest) ∙ ground arith

pub Reads-map :
    {A B : Type 0} (m : Read A) (f : A → B) (xs : List ℕ) (a : A)
    → Reads m xs a
    → Reads (m >>= λ a. pure (f a)) xs (f a)
unfolding ◌>>=◌
Reads-map m f xs a h before rest =
    ap (λ r. continue r (λ a. pure (f a) (before ++ (xs ++ rest)))) (h before rest)

pub Reads-lift : {A : Type 0} (r : Result A) (a : A) → r ≡ ok a → Reads (lift r) [] a
Reads-lift r a e before rest =
    ap (λ r. lift r (before ++ rest) (length before)) e ∙ ap (λ n. ok (a, n)) (omega arith)
