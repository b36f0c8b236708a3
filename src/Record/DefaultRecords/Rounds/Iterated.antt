-- ===== src/Record/DefaultRecords/Rounds/Iterated.antt =====
-- Iterating over a block of messages.
use aiokafka.Base.{
  ℕ, zero, suc, ◌+◌, ◌^◌, ◌<◌, Bool, true, false, Option, none, some, List, [], ◌∷◌, ◌++◌, All, map,
  length, length-append, ◌≡◌, refl, sym, ap, ◌∙◌, arith, eqb, leb_ℤ, if◌then◌else◌, ℤ, pos, negsuc,
  ◌-ℤ◌, ◌+ℤ◌, +ℤ_parts, -ℤ_parts, eq_of_parts, Result, ok, err, bit_and, Exec, continue, ◌>>=◌,
}
use aiokafka.Base
use mathlib.Core.List.{append_assoc, append-nil}
use aiokafka.Protocol.Types.{Encoding}
use aiokafka.Record.DefaultRecords.{DefaultRecord, timestamp_type_mask}
use aiokafka.Record.DefaultRecords.Batch.{
  DefaultRecordBatch, low_bits, header_at, timestamp_type, next_record, read_msg,
}
use aiokafka.Record.DefaultRecords.Records.{IsSound, FitMessage, record_of, read_msg-Reads}
use aiokafka.Record.DefaultRecords.Rounds.Block.{Message, body_of, record_bytes, block}

-- `list(batch)`, on fuel.
unfoldable pub collect : Encoding → ℕ → Exec DefaultRecordBatch (List DefaultRecord)
collect encoding zero = Base.pure []
collect encoding (suc n) = do
  r ← next_record encoding
  elim r [ none ↦ Base.pure [] | some m ↦ do rest ← collect encoding n; Base.pure (m ∷ rest) ]

-- The record that a message comes back as.
abbrev pub as_record : Message → DefaultRecord
as_record m = record {
  offset = m.offset;
  timestamp = m.timestamp;
  timestamp_type = 0;
  key = m.key;
  value = m.value;
  headers = m.headers;
}

-- Every number of a message fits 64 bits.
pub record FitsIn (encoding : Encoding) (sound : IsSound encoding) (f : ℤ) (m : Message)
    : Type 0 where
  pub fields : FitMessage encoding sound (m.timestamp -ℤ f) m.offset m.key m.value m.headers
  pub whole : length (body_of encoding f m) < 2 ^ 63

back : (t f : ℤ) → f +ℤ (t -ℤ f) ≡ t
back t f = ground (arith, +ℤ_parts f (t -ℤ f), -ℤ_parts t f, eq_of_parts (f +ℤ (t -ℤ f)) t)

zero_plus : (n : ℤ) → pos 0 +ℤ n ≡ n
zero_plus n = ground (arith, +ℤ_parts (pos 0) n, eq_of_parts (pos 0 +ℤ n) n)

next_record_step :
    (encoding : Encoding) (b : DefaultRecordBatch) (r : DefaultRecord) (p : ℕ)
    → leb_ℤ b.num_records (pos b.next_record_index) ≡ false
    → read_msg encoding b b.buffer b.at ≡ ok (r, p)
    → next_record encoding b
      ≡ (ok (some r), record b { at = p; next_record_index = b.next_record_index + 1 })
unfolding next_record
next_record_step encoding b r p l e = rw (l, e) refl

next_record_end :
    (encoding : Encoding) (b : DefaultRecordBatch)
    → leb_ℤ b.num_records (pos b.next_record_index) ≡ true
    → b.at ≡ length b.buffer
    → next_record encoding b ≡ (ok none, b)
unfolding next_record
next_record_end encoding b l e = rw l (ground (arith, e))

collect_step :
    (encoding : Encoding) (k : ℕ) (b c : DefaultRecordBatch) (r : DefaultRecord)
    (rest : List DefaultRecord)
    → next_record encoding b ≡ (ok (some r), c)
    → (collect encoding k c).0 ≡ ok rest
    → (collect encoding (suc k) b).0 ≡ ok (r ∷ rest)
unfolding collect
collect_step encoding k b c r rest e h = rw (e, h) refl

module _ (encoding : Encoding) (sound : IsSound encoding) (header : List ℤ) (f : ℤ) (n : ℕ)
    (d : Bool) (offset_zero : header_at header 0 ≡ pos 0) (first : header_at header 7 ≡ f) where
  abbrev state : List ℕ → ℕ → ℕ → DefaultRecordBatch
  state buffer p i = record {
    buffer = buffer;
    header_data = header;
    at = p;
    num_records = pos n;
    next_record_index = i;
    decompressed = d;
  }

  module _ (create_time : bit_and (low_bits (header_at header 5)) timestamp_type_mask ≡ 0) where
    record_lem :
        (buffer : List ℕ) (p i : ℕ) (m : Message)
        → record_of encoding sound
            (state buffer p i)
            (m.timestamp -ℤ f)
            m.offset
            m.key
            m.value
            m.headers
          ≡ as_record m
    unfolding timestamp_type
    record_lem buffer p i m =
        rw (create_time, offset_zero, first, back m.timestamp f, zero_plus m.offset) refl

    next_record_lem :
        (before rest : List ℕ) (m : Message) (i : ℕ)
        → i < n
        → FitsIn encoding sound f m
        → next_record encoding
            (state (before ++ (record_bytes encoding f m ++ rest)) (length before) i)
          ≡ (
            ok (some (as_record m)),
            state
                ((before ++ record_bytes encoding f m) ++ rest)
                (length (before ++ record_bytes encoding f m))
                (i + 1),
          )
    next_record_lem before rest m i h fit =
        let rb = record_bytes encoding f m in
        let b = state (before ++ (rb ++ rest)) (length before) i in
        next_record_step encoding b (as_record m) (length before + length rb) (ground (arith, h)) (
          read_msg-Reads encoding sound b (m.timestamp -ℤ f) m.offset m.key m.value m.headers
            fit.fields fit.whole before rest
          ∙ ap (λ r. ok (r, length before + length rb))
              (record_lem (before ++ (rb ++ rest)) (length before) i m))
        ∙ ap (λ n. (ok (some (as_record m)), state (before ++ (rb ++ rest)) n (i + 1)))
            (sym (length-append before rb))
        ∙ ap (λ l. (ok (some (as_record m)), state l (length (before ++ rb)) (i + 1)))
            (sym (append_assoc before rb rest))

    pub collect_lem :
        (ms : List Message) (before : List ℕ) (i : ℕ)
        → i + length ms ≡ n
        → All (FitsIn encoding sound f) ms
        → (collect encoding
            (suc (length ms))
            (state (before ++ block encoding f ms) (length before) i)).0
          ≡ ok (map as_record ms)
    unfolding block
    collect_lem [] before i e fit =
        unfold collect in
        rw
          (next_record_end encoding (state (before ++ []) (length before) i) (ground (arith, e))
            (ap length (sym (append-nil before))))
          refl
    collect_lem (m ∷ ms) before i e fit =
        collect_step encoding (suc (length ms)) _ _ (as_record m) (map as_record ms)
          (next_record_lem before (block encoding f ms) m i (omega (arith, e)) fit.0)
          (collect_lem ms (before ++ record_bytes encoding f m) (i + 1) (omega (arith, e)) fit.1)
