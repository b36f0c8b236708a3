-- ===== src/Producer/TransactionManager/Sequence.antt =====
-- Sequence numbers of idempotent delivery: 32-bit numbers that wrap to the negative side.
use aiokafka.Base.{ℕ, ◌-◌, ◌^◌, ◌≤◌, ◌≡◌, ◌≢◌, ◌⊎◌, arith, refl, if◌then◌else◌}
use aiokafka.Base.{ℤ, pos, negsuc, ◌+ℤ◌, ◌-ℤ◌, ◌≤ℤ◌}
use aiokafka.Base.Keys.{TopicPartition, tp_eq, ◌==◌, ==_iff}
use aiokafka.Base.Dict.{get-put}
use aiokafka.Producer.TransactionManager.{
  TransactionManager, sequence_number, wrap_sequence, increment_sequence_number,
}

abbrev pub IsInt32 : ℤ → Type 0
IsInt32 n = (negsuc (2 ^ 31 - 1) ≤ℤ n) × (n ≤ℤ pos (2 ^ 31 - 1))

wrap_sequence-IsInt32 :
    (seq : ℤ) (n : ℕ)
    → n ≤ 2 ^ 32
    → IsInt32 seq
    → IsInt32 (wrap_sequence (seq +ℤ pos n))
      × ((wrap_sequence (seq +ℤ pos n) ≡ seq +ℤ pos n)
          ⊎ (wrap_sequence (seq +ℤ pos n) ≡ seq +ℤ pos n -ℤ pos (2 ^ 32)))
unfolding wrap_sequence ◌+ℤ◌ ◌-ℤ◌
wrap_sequence-IsInt32 seq n h r = ground arith

sequence_number-increment :
    (tp j : TopicPartition) (n : ℤ) (s : TransactionManager)
    → sequence_number (increment_sequence_number tp n s).1 j
      ≡ (if tp == j then wrap_sequence (sequence_number s tp +ℤ n) else sequence_number s j)
unfolding sequence_number increment_sequence_number
sequence_number-increment tp j n s =
    ground (arith, get-put s.sequence_numbers tp j (wrap_sequence (sequence_number s tp +ℤ n)))

-- The sequence number of the partition stays a signed 32-bit number, moves on by the records that
-- were sent, modulo 2 ^ 32, and no other partition's number moves.
pub increment_sequence_number_wraps :
    (tp : TopicPartition) (n : ℕ) (s : TransactionManager)
    → n ≤ 2 ^ 32
    → IsInt32 (sequence_number s tp)
    → let next : TopicPartition → ℤ = sequence_number (increment_sequence_number tp (pos n) s).1 in
      IsInt32 (next tp)
      × ((next tp ≡ sequence_number s tp +ℤ pos n)
          ⊎ (next tp ≡ sequence_number s tp +ℤ pos n -ℤ pos (2 ^ 32)))
      × ((j : TopicPartition) → j ≢ tp → next j ≡ sequence_number s j)
increment_sequence_number_wraps tp n s h r = (
  rw (sequence_number-increment tp tp (pos n) s, (==_iff tp tp).1 refl)
      (wrap_sequence-IsInt32 (sequence_number s tp) n h r).0,
  rw (sequence_number-increment tp tp (pos n) s, (==_iff tp tp).1 refl)
      (wrap_sequence-IsInt32 (sequence_number s tp) n h r).1,
  λ j e. ground (arith, sequence_number-increment tp j (pos n) s, ==_iff tp j),
)
