-- ===== src/Producer/Partitioner/Examples.antt =====
-- The hashes that the tests of the repository list, and the theorems at concrete records.
use aiokafka.Base.{ℕ, ◌<◌, ◌≡◌, refl, arith, [], ◌∷◌, get_elem?, some, ok}
use aiokafka.Producer.Partitioner.{murmur2, partition_index, partition, partition_keyed}

-- The keys "", "a", "ab", "abc" and "123456789" over 1000 partitions.
partition_index_examples :
    (partition_index [] 1000 ≡ ok 681)
    × (partition_index (b'a' ∷ []) 1000 ≡ ok 524)
    × (partition_index (b'a' ∷ b'b' ∷ []) 1000 ≡ ok 434)
    × (partition_index (b'a' ∷ b'b' ∷ b'c' ∷ []) 1000 ≡ ok 107)
    × (partition_index (b'1' ∷ b'2' ∷ b'3' ∷ b'4' ∷ b'5' ∷ b'6' ∷ b'7' ∷ b'8' ∷ b'9' ∷ []) 1000
        ≡ ok 566)
unfolding partition_index murmur2
partition_index_examples = (refl, refl, refl, refl, refl)

partition_keyed_example :
    (i : ℕ) × (p : ℕ) × (i < 2)
    × (get_elem? (4 ∷ 5 ∷ []) i ≡ some p)
    × (partition (λ n. 0) (some (b'a' ∷ [])) (4 ∷ 5 ∷ []) [] ≡ ok p)
    × (partition (λ n. 1) (some (b'a' ∷ [])) (4 ∷ 5 ∷ []) (5 ∷ []) ≡ ok p)
partition_keyed_example =
    partition_keyed (λ n. 0) (λ n. 1) (b'a' ∷ []) (4 ∷ 5 ∷ []) [] (5 ∷ []) (omega arith)
