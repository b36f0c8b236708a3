-- ===== src/Record/DefaultRecords/Rounds/Block.antt =====
-- What a builder holds after a series of messages.
use aiokafka.Base.{
  ℕ, ◌+◌, Bool, Option, none, some, List, [], ◌∷◌, ◌++◌, length, ◌≡◌, refl, sym, ap, ◌∙◌, inl, inr,
  arith, ℤ, pos, ◌-ℤ◌, Option-cases,
}
use mathlib.Core.List.{append_assoc, append-nil}
use mathlib.Core.Path.{subst}
use aiokafka.Protocol.Types.{Encoding}
use aiokafka.Record.DefaultRecords.{Headers}
use aiokafka.Record.DefaultRecords.Builder.{
  RecordBatchBuilder, RecordMetadata, append, append_message, message_bytes, varint_bytes,
  delta_from, start_from, is_first,
}

pub record Message : Type 0 where
  pub offset : ℤ
  pub timestamp : ℤ
  pub key : Option (List ℕ)
  pub value : Option (List ℕ)
  pub headers : Headers

abbrev first_of : ℤ → Option ℤ → ℤ
first_of t none = t
first_of t (some f) = f

delta_lem : (t : ℤ) (o : Option ℤ) → delta_from t o ≡ t -ℤ first_of t o
unfolding ◌-ℤ◌
delta_lem t none = ground arith
delta_lem t (some f) = refl

start_lem :
    (t : ℤ) (b : RecordBatchBuilder)
    → (start_from t b).first_timestamp ≡ some (first_of t b.first_timestamp)
start_lem t b = elim (Option-cases b.first_timestamp) [
  | inl e ↦ ground arith
  | inr (f, e) ↦ ground arith
]

-- The first record sets the timestamps and nothing else.
pub start_from_lem :
    (t : ℤ) (b : RecordBatchBuilder)
    → ((start_from t b).buffer ≡ b.buffer)
      × ((start_from t b).num_records ≡ b.num_records)
      × ((start_from t b).compression_type ≡ b.compression_type)
      × ((start_from t b).is_transactional ≡ b.is_transactional)
start_from_lem t b = ground arith

pub append_message_lem :
    (fm : Bool) (offset t : ℤ) (xs : List ℕ) (b : RecordBatchBuilder) (d : RecordMetadata)
    → (append_message fm offset t xs b).0 ≡ some d
    → ((append_message fm offset t xs b).1.buffer
        ≡ b.buffer ++ (varint_bytes (pos (length xs)) ++ xs))
      × ((append_message fm offset t xs b).1.first_timestamp ≡ b.first_timestamp)
      × ((append_message fm offset t xs b).1.num_records ≡ b.num_records + 1)
      × ((append_message fm offset t xs b).1.compression_type ≡ b.compression_type)
      × ((append_message fm offset t xs b).1.is_transactional ≡ b.is_transactional)
      × ((append_message fm offset t xs b).1.last_offset ≡ offset)
unfolding append_message
append_message_lem fm offset t xs b d h = ground arith

-- The offset of the last message, or the one before.
abbrev pub last_of : ℤ → List Message → ℤ
last_of n [] = n
last_of n (m ∷ ms) = last_of m.offset ms

module _ (encoding : Encoding) where
  abbrev pub append_one :
      ℕ → Message → RecordBatchBuilder → Option RecordMetadata × RecordBatchBuilder
  append_one now m b = append encoding now m.offset (some m.timestamp) m.key m.value m.headers b

  -- The builder takes every one of the messages.
  abbrev pub Takes : ℕ → RecordBatchBuilder → List Message → RecordBatchBuilder → Type 0
  Takes now b [] c = b ≡ c
  Takes now b (m ∷ ms) c =
      ((d : RecordMetadata) × ((append_one now m b).0 ≡ some d))
      × Takes now (append_one now m b).1 ms c

  -- The bytes of a message in a batch whose first timestamp is f, without and with the length.
  abbrev pub body_of : ℤ → Message → List ℕ
  body_of f m = message_bytes encoding (m.timestamp -ℤ f) m.offset m.key m.value m.headers

  abbrev pub record_bytes : ℤ → Message → List ℕ
  record_bytes f m = varint_bytes (pos (length (body_of f m))) ++ body_of f m

  unfoldable pub block : ℤ → List Message → List ℕ
  block f [] = []
  block f (m ∷ ms) = record_bytes f m ++ block f ms

  -- What an accepted message changes.
  record Grown (b c : RecordBatchBuilder) (f : ℤ) (m : Message) : Type 0 where
    buffer : c.buffer ≡ b.buffer ++ record_bytes f m
    first : c.first_timestamp ≡ some f
    count : c.num_records ≡ b.num_records + 1
    compression : c.compression_type ≡ b.compression_type
    transactional : c.is_transactional ≡ b.is_transactional
    last : c.last_offset ≡ m.offset

  append_one-Grown :
      (now : ℕ) (m : Message) (b : RecordBatchBuilder) (d : RecordMetadata)
      → (append_one now m b).0 ≡ some d
      → Grown b (append_one now m b).1 (first_of m.timestamp b.first_timestamp) m
  unfolding append
  append_one-Grown now m b d h =
      let c = start_from m.timestamp b in
      let xs =
        message_bytes encoding (delta_from m.timestamp b.first_timestamp) m.offset m.key m.value
          m.headers in
      let (g0, g1, g2, g3, g4, g5) =
        append_message_lem (is_first b.first_timestamp) m.offset m.timestamp xs c d h in
      let (s0, s1, s2, s3) = start_from_lem m.timestamp b in
      record {
        buffer =
            g0
            ∙ ap (λ l. l ++ (varint_bytes (pos (length xs)) ++ xs)) s0
            ∙ ap
                (λ z.
                  b.buffer
                  ++ (varint_bytes
                        (pos (length (message_bytes encoding z m.offset m.key m.value m.headers)))
                      ++ message_bytes encoding z m.offset m.key m.value m.headers))
                (delta_lem m.timestamp b.first_timestamp);
        first = g1 ∙ start_lem m.timestamp b;
        count = g2 ∙ ap (λ n. n + 1) s1;
        compression = g3 ∙ s2;
        transactional = g4 ∙ s3;
        last = g5;
      }

  -- What the builder holds after all of them.
  pub record Holds (b c : RecordBatchBuilder) (f : ℤ) (ms : List Message) : Type 0 where
    pub buffer : c.buffer ≡ b.buffer ++ block f ms
    pub first : c.first_timestamp ≡ some f
    pub count : c.num_records ≡ b.num_records + length ms
    pub compression : c.compression_type ≡ b.compression_type
    pub transactional : c.is_transactional ≡ b.is_transactional
    pub last : c.last_offset ≡ last_of b.last_offset ms

  grow :
      (b one c : RecordBatchBuilder) (f0 f : ℤ) (m : Message) (ms : List Message)
      → Grown b one f0 m
      → f0 ≡ f
      → Holds one c f ms
      → Holds b c f (m ∷ ms)
  unfolding block
  grow b one c f0 f m ms g same r = record {
    buffer =
        r.buffer
        ∙ ap (λ l. l ++ block f ms) (g.buffer ∙ ap (λ z. b.buffer ++ record_bytes z m) same)
        ∙ append_assoc b.buffer (record_bytes f m) (block f ms);
    first = r.first;
    count = omega (arith, r.count, g.count);
    compression = r.compression ∙ g.compression;
    transactional = r.transactional ∙ g.transactional;
    last = r.last ∙ ap (λ n. last_of n ms) g.last;
  }

  Takes-Holds :
      (now : ℕ) (f : ℤ) (ms : List Message) (b c : RecordBatchBuilder)
      → b.first_timestamp ≡ some f
      → Takes now b ms c
      → Holds b c f ms
  unfolding block
  Takes-Holds now f [] b c e t =
      subst (λ c. Holds b c f []) t
        (record {
          buffer = sym (append-nil b.buffer);
          first = e;
          count = omega arith;
          compression = refl;
          transactional = refl;
          last = refl;
        })
  Takes-Holds now f (m ∷ ms) b c e ((d, h), t) =
      let one = append_one now m b in
      let g = append_one-Grown now m b d h in
      let same : first_of m.timestamp b.first_timestamp ≡ f = ap (first_of m.timestamp) e in
      grow b one.1 c (first_of m.timestamp b.first_timestamp) f m ms g same
        (Takes-Holds now f ms one.1 c (g.first ∙ ap some same) t)

  -- From an empty builder on, the first timestamp is that of the first message.
  pub Takes-new :
      (now : ℕ) (m : Message) (ms : List Message) (b c : RecordBatchBuilder)
      → b.first_timestamp ≡ none
      → Takes now b (m ∷ ms) c
      → Holds b c m.timestamp (m ∷ ms)
  Takes-new now m ms b c e ((d, h), t) =
      let one = append_one now m b in
      let g = append_one-Grown now m b d h in
      let same : first_of m.timestamp b.first_timestamp ≡ m.timestamp =
        ap (first_of m.timestamp) e in
      grow b one.1 c (first_of m.timestamp b.first_timestamp) m.timestamp m ms g same
        (Takes-Holds now m.timestamp ms one.1 c (g.first ∙ ap some same) t)
