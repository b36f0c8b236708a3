-- ===== src/Producer/Partitioner.antt =====
-- aiokafka/partitioner.py: the default partitioner, and murmur2 as the Java client computes it. All
-- intermediate values are masked to 32 bits, `& 0xFFFFFFFF`, which is the remainder by 2 ** 32.
mod Examples
use aiokafka.Base.{
  ℕ, zero, suc, ◌+◌, ◌-◌, ◌*◌, ◌/◌, ◌%◌, ◌^◌, ◌<◌, ◌≤◌, ◌≡◌, ◌≢◌, refl, arith, Bool, true, false,
  List, [], ◌∷◌, ◌++◌, length, get_elem?, Option, none, some, bit_and, bit_xor, leb, if◌then◌else◌,
  Result, ok, err, index_error, zero_division_error, All, is_some, eqb,
}

abbrev mask32 : ℕ → ℕ
mask32 x = x % 2 ^ 32

abbrev m : ℕ
m = 0x5bd1e995

-- `k ^= k >>> r`, on a masked value
abbrev fold_right : ℕ → ℕ → ℕ
fold_right x r = mask32 (bit_xor x (x % 0x1_0000_0000 / 2 ^ r))

-- One round over four bytes.
pub murmur2_block : ℕ → ℕ → ℕ → ℕ → ℕ → ℕ
murmur2_block h b0 b1 b2 b3 =
    let k = mask32 (
      bit_and b0 0xff
      + bit_and b1 0xff * 2 ^ 8
      + bit_and b2 0xff * 2 ^ 16
      + bit_and b3 0xff * 2 ^ 24) in
    let k1 = fold_right (mask32 (k * m)) 24 in
    let k2 = mask32 (k1 * m) in mask32 (bit_xor (mask32 (h * m)) k2)

-- The loop over the whole blocks, and then the one to three bytes that are left.
murmur2_loop : List ℕ → ℕ → ℕ
murmur2_loop (b0 ∷ b1 ∷ b2 ∷ b3 ∷ rest) h = murmur2_loop rest (murmur2_block h b0 b1 b2 b3)
murmur2_loop (b0 ∷ b1 ∷ b2 ∷ []) h =
    let h2 = mask32 (bit_xor h (bit_and b2 0xff * 2 ^ 16)) in
    let h1 = mask32 (bit_xor h2 (bit_and b1 0xff * 2 ^ 8)) in
    mask32 (mask32 (bit_xor h1 (bit_and b0 0xff)) * m)
murmur2_loop (b0 ∷ b1 ∷ []) h =
    let h1 = mask32 (bit_xor h (bit_and b1 0xff * 2 ^ 8)) in
    mask32 (mask32 (bit_xor h1 (bit_and b0 0xff)) * m)
murmur2_loop (b0 ∷ []) h = mask32 (mask32 (bit_xor h (bit_and b0 0xff)) * m)
murmur2_loop [] h = h

pub murmur2 : List ℕ → ℕ
unfolding murmur2_loop murmur2_block
murmur2 bytes =
    let h = murmur2_loop bytes (bit_xor 0x9747b28c (length bytes)) in
    let h1 = fold_right h 13 in fold_right (mask32 (h1 * m)) 15

-- `idx &= 0x7FFFFFFF; idx %= n`: Python raises on a modulus of zero.
pub partition_index : List ℕ → ℕ → Result ℕ
partition_index key zero = err zero_division_error
partition_index key n = ok (bit_and (murmur2 key) 0x7fff_ffff % n)

-- `random.choice(l)` with the number that the random source drew; it raises on an empty list.
pub random_choice : {P : Type 0} → (ℕ → ℕ) → List P → Result P
random_choice draw l = elim (get_elem? l (draw (length l))) [
  | none ↦ err index_error
  | some p ↦ ok p
]

pub nth : {P : Type 0} → List P → Result ℕ → Result P
nth l (err e) = err e
nth l (ok i) = elim (get_elem? l i) [ none ↦ err index_error | some p ↦ ok p ]

-- `DefaultPartitioner()(key, all_partitions, available)`
pub partition : {P : Type 0} → (ℕ → ℕ) → Option (List ℕ) → List P → List P → Result P
partition draw none all_partitions [] = random_choice draw all_partitions
partition draw none all_partitions (a ∷ available) = random_choice draw (a ∷ available)
partition draw (some key) all_partitions available =
    nth all_partitions (partition_index key (length all_partitions))

get_elem?-lt {ℓ} :
    {A : Type ℓ} (l : List A) (i : ℕ) → i < length l → (a : A) × (get_elem? l i ≡ some a)
get_elem?-lt [] i h = absurd (omega arith)
get_elem?-lt (x ∷ l) zero h = (x, refl)
get_elem?-lt (x ∷ l) (suc i) h = get_elem?-lt l i (omega arith)

partition_index-lt :
    (key : List ℕ) (n : ℕ) → 0 < n → (i : ℕ) × (partition_index key n ≡ ok i) × (i < n)
unfolding partition_index
partition_index-lt key zero h = absurd (omega arith)
partition_index-lt key (suc n) h = (bit_and (murmur2 key) 0x7fff_ffff % suc n, refl, omega arith)

-- A record with a key goes to a partition of the topic, the same one whatever is available and whatever
-- the random source draws, as long as the topic has a partition.
pub partition_keyed :
    {P : Type 0} (draw draw' : ℕ → ℕ) (key : List ℕ) (all_partitions available available' : List P)
    → 0 < length all_partitions
    → (i : ℕ) × (p : P) × (i < length all_partitions)
      × (get_elem? all_partitions i ≡ some p)
      × (partition draw (some key) all_partitions available ≡ ok p)
      × (partition draw' (some key) all_partitions available' ≡ ok p)
unfolding partition nth
partition_keyed draw draw' key all_partitions available available' h =
    let (i, e, lt) = partition_index-lt key (length all_partitions) h in
    let (p, f) = get_elem?-lt all_partitions i lt in (i, p, lt, f, rw (e, nth, f), rw (e, nth, f))

-- A record without a key goes to an available partition, or to any partition if none is available.
pub partition_keyless :
    {P : Type 0} (draw : ℕ → ℕ) (all_partitions available : List P)
    → ((n : ℕ) → 0 < n → draw n < n)
    → 0 < length all_partitions
    → (p : P) × (partition draw none all_partitions available ≡ ok p)
      × ((i : ℕ) × (get_elem? (if eqb (length available) 0 then all_partitions else available) i
            ≡ some p))
unfolding partition random_choice
partition_keyless draw all_partitions [] d h =
    let (p, f) = get_elem?-lt all_partitions (draw (length all_partitions)) (d _ h) in
    (p, rw (f, random_choice), (draw (length all_partitions), f))
partition_keyless draw all_partitions (a ∷ available) d h =
    let (p, f) = get_elem?-lt (a ∷ available) (draw (length (a ∷ available))) (d _ (omega arith)) in
    (p, rw (f, random_choice), (draw (length (a ∷ available)), ground arith))

fold_right-lt : (x r : ℕ) → fold_right x r < 2 ^ 32
fold_right-lt x r = omega arith

-- Every hash is an unsigned 32-bit number.
pub murmur2-lt : (bytes : List ℕ) → murmur2 bytes < 2 ^ 32
unfolding murmur2
murmur2-lt bytes = omega arith
