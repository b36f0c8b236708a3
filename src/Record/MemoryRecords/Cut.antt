-- ===== src/Record/MemoryRecords/Cut.antt =====
-- What one step cuts off the buffer.
use aiokafka.Base.{
  ℕ, suc, ◌+◌, ◌-◌, ◌≤◌, ◌<◌, true, false, ltb, ltb_ℤ, Option, none, some, List, [], ◌∷◌, ◌++◌,
  take, drop, length, length-append, ◌≡◌, refl, sym, ap, ◌∙◌, arith, ℤ, pos, ◌+ℤ◌, ◌-ℤ◌, ◌⊎◌, inl,
  inr, Bool-cases, +ℤ_parts, -ℤ_parts, eq_of_parts, ok,
}
use mathlib.Core.List.{append_assoc}
use aiokafka.Record.Struct.{int_field, pack_struct, unpack_struct}
use aiokafka.Record.Struct.RoundTrip.{unpack_struct-pack_struct}
use aiokafka.Record.DefaultRecords.Rounds.{drop_at, take_at}
use aiokafka.Record.MemoryRecords.{
  MemoryRecords, log_overhead, slice, unpack_at, cut_slice, no_slice, cache_next,
}

drop_more : (xs ys : List ℕ) (k : ℕ) → drop (length xs + k) (xs ++ ys) ≡ drop k ys
drop_more [] ys k = let e : 0 + k ≡ k = omega arith in ap (λ n. drop n ys) e
drop_more (x ∷ xs) ys k =
    let e : suc (length xs) + k ≡ suc (length xs + k) = omega arith in
    ap (λ n. drop n (x ∷ (xs ++ ys))) e ∙ drop_more xs ys k

-- A batch by its length: eight bytes, the length of what follows it, and at least the fourteen bytes that
-- the smallest message has.
pub record IsSlice (s : List ℕ) : Type 0 where
  pub head : List ℕ
  pub size : List ℕ
  pub body : List ℕ
  pub whole : s ≡ head ++ (size ++ body)
  pub head_size : length head ≡ 8
  pub packed : pack_struct (int_field 3 ∷ []) (pos (length body) ∷ []) ≡ ok size
  pub size_size : length size ≡ 4
  pub long : 14 ≤ length body

plus_pos : (a b : ℕ) → pos a +ℤ pos b ≡ pos (a + b)
plus_pos a b = eq_of_parts (pos a +ℤ pos b) (pos (a + b)) (ground (arith, +ℤ_parts (pos a) (pos b)))

cut_slice_lem :
    (remaining size : ℤ) (s : MemoryRecords) (end : ℕ) (piece : List ℕ)
    → s.at +ℤ pos log_overhead +ℤ size ≡ pos end
    → ltb_ℤ (pos (length s.buffer)) (pos end) ≡ false
    → slice s.buffer s.at (pos end) ≡ piece
    → cut_slice remaining s (ok (size ∷ []))
      ≡ (ok tt, record s { next_slice = some piece; at = pos end })
cut_slice_lem remaining size s end piece e l p = rw (e, l, p) refl

cache_next_lem :
    (size : ℤ) (s : MemoryRecords) (end : ℕ) (piece : List ℕ)
    → ltb_ℤ (pos (length s.buffer) -ℤ s.at) (pos log_overhead) ≡ false
    → unpack_at (int_field 3 ∷ []) s.buffer (s.at +ℤ pos 8) ≡ ok (size ∷ [])
    → s.at +ℤ pos log_overhead +ℤ size ≡ pos end
    → ltb_ℤ (pos (length s.buffer)) (pos end) ≡ false
    → slice s.buffer s.at (pos end) ≡ piece
    → cache_next s ≡ (ok tt, record s { next_slice = some piece; at = pos end })
unfolding cache_next
cache_next_lem size s end piece r u e l p =
    rw (r, u) (cut_slice_lem (pos (length s.buffer) -ℤ s.at) size s end piece e l p)

-- The state after `before`, with a slice kept.
abbrev pub after : List ℕ → List ℕ → Option (List ℕ) → ℤ → MemoryRecords
after before rest next m = record {
  buffer = before ++ rest;
  at = pos (length before);
  next_slice = next;
  remaining_bytes = m;
}

pub cut_next :
    (before s rest : List ℕ) (next : Option (List ℕ)) (m : ℤ) (h : IsSlice s)
    → cache_next (after before (s ++ rest) next m) ≡ (ok tt, after (before ++ s) rest (some s) m)
cut_next before s rest next m h =
    let len : length s ≡ 12 + length h.body = omega (
      arith,
      ap length h.whole,
      length-append h.head (h.size ++ h.body),
      length-append h.size h.body,
      h.head_size,
      h.size_size,
    ) in
    let total : length (before ++ (s ++ rest)) ≡ length before + (length s + length rest) =
      omega (arith, length-append before (s ++ rest), length-append s rest) in
    let behind : drop (length before + 8) (before ++ (s ++ rest)) ≡ h.size ++ (h.body ++ rest) =
      drop_more before (s ++ rest) 8
      ∙ ap (drop 8) (ap (λ l. l ++ rest) h.whole ∙ append_assoc h.head (h.size ++ h.body) rest)
      ∙ drop_at 8 h.head ((h.size ++ h.body) ++ rest) h.head_size
      ∙ append_assoc h.size h.body rest in
    let end = length before + length s in
    let state = after before (s ++ rest) next m in
    let got : unpack_at (int_field 3 ∷ []) state.buffer (state.at +ℤ pos 8)
        ≡ ok (pos (length h.body) ∷ []) =
      ap (unpack_at (int_field 3 ∷ []) state.buffer) (plus_pos (length before) 8)
      ∙ ap (unpack_struct (int_field 3 ∷ [])) behind
      ∙ unpack_struct-pack_struct (int_field 3 ∷ []) (pos (length h.body) ∷ []) h.size
          (h.body ++ rest) h.packed in
    let ends : state.at +ℤ pos log_overhead +ℤ pos (length h.body) ≡ pos end =
      ap (λ n. n +ℤ pos (length h.body)) (plus_pos (length before) log_overhead)
      ∙ plus_pos (length before + log_overhead) (length h.body)
      ∙ ap pos (omega (arith, len)) in
    let piece : slice state.buffer state.at (pos end) ≡ s =
      ap (take (end - length before)) (drop_at (length before) before (s ++ rest) refl)
      ∙ take_at (end - length before) s rest (omega arith) in
    cache_next_lem (pos (length h.body)) state end s
      (ground (arith, total, len, -ℤ_parts (pos (length state.buffer)) state.at)) got ends
      (ground (arith, total)) piece
    ∙ ap
        (λ l.
          (ok tt, record { buffer = l; at = pos end; next_slice = some s; remaining_bytes = m }))
        (sym (append_assoc before s rest))
    ∙ ap
        (λ n. (
          ok tt,
          record {
            buffer = (before ++ s) ++ rest;
            at = pos n;
            next_slice = some s;
            remaining_bytes = m;
          },
        ))
        (sym (length-append before s))

-- What is no whole batch.
abbrev pub IsPartial : List ℕ → Type 0
IsPartial tail =
    (length tail < log_overhead)
    ⊎ ((size : ℕ) × (unpack_struct (int_field 3 ∷ []) (drop 8 tail) ≡ ok (pos size ∷ []))
        × (length tail < log_overhead + size))

cut_short :
    (s : MemoryRecords)
    → ltb_ℤ (pos (length s.buffer) -ℤ s.at) (pos log_overhead) ≡ true
    → cache_next s ≡ (ok tt, no_slice (pos (length s.buffer) -ℤ s.at) s)
unfolding cache_next
cut_short s r = rw r refl

cut_long :
    (size : ℤ) (s : MemoryRecords)
    → ltb_ℤ (pos (length s.buffer) -ℤ s.at) (pos log_overhead) ≡ false
    → unpack_at (int_field 3 ∷ []) s.buffer (s.at +ℤ pos 8) ≡ ok (size ∷ [])
    → ltb_ℤ (pos (length s.buffer)) (s.at +ℤ pos log_overhead +ℤ size) ≡ true
    → cache_next s ≡ (ok tt, no_slice (pos (length s.buffer) -ℤ s.at) s)
unfolding cache_next
cut_long size s r u e = rw (r, u, e) refl

cut_last_short :
    (before tail : List ℕ) (next : Option (List ℕ)) (m : ℤ)
    → length tail < log_overhead
    → cache_next (after before tail next m)
      ≡ (ok tt, after before tail none (pos (length (before ++ tail)) -ℤ pos (length before)))
cut_last_short before tail next m h = cut_short (after before tail next m) (
    ground (
      arith,
      length-append before tail,
      -ℤ_parts (pos (length (before ++ tail))) (pos (length before)),
    ))

pub cut_last :
    (before tail : List ℕ) (next : Option (List ℕ)) (m : ℤ)
    → IsPartial tail
    → cache_next (after before tail next m)
      ≡ (ok tt, after before tail none (pos (length (before ++ tail)) -ℤ pos (length before)))
cut_last before tail next m (inl h) = cut_last_short before tail next m h
cut_last before tail next m (inr (size, u, h)) =
    elim (Bool-cases (ltb (length tail) log_overhead)) [
      | inl short ↦ cut_last_short before tail next m (ground (arith, short))
      | inr enough ↦
          cut_long (pos size) (after before tail next m)
            (ground (
              arith,
              enough,
              length-append before tail,
              -ℤ_parts (pos (length (before ++ tail))) (pos (length before)),
            ))
            (ap (unpack_at (int_field 3 ∷ []) (before ++ tail)) (plus_pos (length before) 8)
              ∙ ap (unpack_struct (int_field 3 ∷ [])) (drop_more before tail 8)
              ∙ u)
            (ap (ltb_ℤ (pos (length (before ++ tail)))) (
                ap (λ n. n +ℤ pos size) (plus_pos (length before) log_overhead)
                ∙ plus_pos (length before + log_overhead) size)
              ∙ ground (arith, length-append before tail, h))
    ]
