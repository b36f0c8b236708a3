-- ===== src/Producer/TransactionManager/Partitions.antt =====
-- How partitions and offsets join a transaction.
use aiokafka.Base.{
  ℕ, String, ◌≡◌, ◌≢◌, ◌⊎◌, Bool, true, false, not, ◌&&◌, ◌||◌, arith, some, Option, refl,
  Bool-cases, inl, inr, List, [], ◌∷◌, ok, err, key_error, assertion_error,
}
use aiokafka.Base.Futures.{resolved, pending}
use aiokafka.Base.Keys.{TopicPartition, tp_eq, string_eq, nat_eq, ◌==◌, ==_iff}
use aiokafka.Base.Dict
use aiokafka.Base.Sets
use aiokafka.Base.Sets.{contains-add, contains-discard}
use aiokafka.Producer.TransactionManager.{
  TransactionManager, PendingOffsets, partition_added, add_partition, maybe_add_partition_to_txn,
  notify, notify_task_waiter, in_transaction, offset_committed, commit_first, holds_offset,
}
use aiokafka.Producer.TransactionManager.Invariant.{IsValid}

abbrev pub is_pending : TransactionManager → TopicPartition → Bool
is_pending s tp = Sets.contains s.pending_txn_partitions tp

abbrev pub is_added : TransactionManager → TopicPartition → Bool
is_added s tp = Sets.contains s.txn_partitions tp

-- A confirmed partition moves from the pending ones to those of the transaction, and no other moves.
-- A partition that is not pending is refused with KeyError.
pub partition_added_moves :
    (tp : TopicPartition) (s : TransactionManager)
    → (is_pending s tp ≡ true
        → ((partition_added tp s).0 ≡ ok tt)
          × ((j : TopicPartition)
              → is_pending (partition_added tp s).1 j ≡ (not (tp == j) && is_pending s j))
          × ((j : TopicPartition)
              → is_added (partition_added tp s).1 j ≡ (tp == j || is_added s j)))
      × (is_pending s tp ≡ false → partition_added tp s ≡ (err key_error, s))
unfolding partition_added
partition_added_moves tp s = (
  λ e. rw e (
    refl,
    λ j. contains-discard s.pending_txn_partitions tp j,
    λ j. contains-add s.txn_partitions tp j,
  ),
  λ e. rw e,
)

-- What notifying the sender leaves alone.
notify-sets :
    (o : Option ℕ) (s : TransactionManager)
    → ((notify o s).1.pending_txn_partitions ≡ s.pending_txn_partitions)
      × ((notify o s).1.txn_partitions ≡ s.txn_partitions)
      × ((notify o s).0 ≡ ok tt)
unfolding notify
notify-sets o s = ground arith

-- In a transaction, a partition that is not yet of it waits to be added; any other stays as it was,
-- and nothing is added to the transaction itself before the coordinator confirms it.
pub maybe_add_partition_to_txn_waits :
    (tp : TopicPartition) (id : String) (s : TransactionManager)
    → s.transactional_id ≡ some id
    → s.state ≡ in_transaction
    → ((maybe_add_partition_to_txn tp s).0 ≡ ok tt)
      × ((maybe_add_partition_to_txn tp s).1.txn_partitions ≡ s.txn_partitions)
      × ((j : TopicPartition)
          → is_pending (maybe_add_partition_to_txn tp s).1 j
            ≡ (tp == j && not (is_added s tp) || is_pending s j))
unfolding maybe_add_partition_to_txn add_partition notify_task_waiter
maybe_add_partition_to_txn_waits tp id s e h = elim (Bool-cases (is_added s tp)) [
  | inl known ↦ rw (e, h, known) (refl, refl, λ j. ground arith)
  | inr new ↦
      let s' : TransactionManager = record s {
        pending_txn_partitions = Sets.add s.pending_txn_partitions tp;
      } in
      (
        ground (arith, notify-sets s.task_waiter s'),
        ground (arith, notify-sets s.task_waiter s'),
        λ j.
            ground
              (arith, notify-sets s.task_waiter s', contains-add s.pending_txn_partitions tp j),
      )
]

-- No partition is both pending and added: what is wanted again while it waits or after it was added
-- is not asked for twice.
pub record IsDisjoint (s : TransactionManager) : Type 0 where
  pub apart : (j : TopicPartition) → is_pending s j ≡ true → is_added s j ≡ false

-- Wanting a partition and adding one keep the two sets disjoint.
pub partitions-IsDisjoint :
    (tp : TopicPartition) (id : String) (s : TransactionManager)
    → s.transactional_id ≡ some id
    → s.state ≡ in_transaction
    → IsDisjoint s
    → IsDisjoint (maybe_add_partition_to_txn tp s).1 × IsDisjoint (partition_added tp s).1
partitions-IsDisjoint tp id s e h d = (
  record {
    apart = λ j. ground (
      arith,
      ==_iff tp j,
      d.apart j,
      (maybe_add_partition_to_txn_waits tp id s e h).1,
      (maybe_add_partition_to_txn_waits tp id s e h).2 j,
    );
  },
  record { apart = λ j. added j (Bool-cases (is_pending s tp)) },
)
  where
    added :
        (j : TopicPartition)
        → (is_pending s tp ≡ true) ⊎ (is_pending s tp ≡ false)
        → is_pending (partition_added tp s).1 j ≡ true
        → is_added (partition_added tp s).1 j ≡ false
    added j (inl p) = ground (
      arith,
      ==_iff tp j,
      d.apart j,
      ((partition_added_moves tp s).0 p).1 j,
      ((partition_added_moves tp s).0 p).2 j,
    )
    added j (inr p) = ground (arith, d.apart j, (partition_added_moves tp s).1 p)

-- A response for the first queued offsets takes the partition off them. The last one resolves their
-- future and takes them off the queue. A response that names another group, or another offset than
-- was queued, is refused and changes nothing.
pub offset_committed_lem :
    (tp : TopicPartition) (offset : ℕ) (g : String) (p : PendingOffsets) (l : List PendingOffsets)
    (s : TransactionManager)
    → IsValid s
    → s.pending_txn_offsets ≡ p ∷ l
    → ((p.group_id == g && holds_offset (Dict.get p.offsets tp) offset) ≡ true
        → ((offset_committed tp offset g s).0 ≡ ok tt)
          × (Dict.remove p.offsets tp ≢ []
              → ((offset_committed tp offset g s).1.pending_txn_offsets
                  ≡ record p { offsets = Dict.remove p.offsets tp } ∷ l)
                × ((offset_committed tp offset g s).1.futures.at p.fut ≡ pending))
          × (Dict.remove p.offsets tp ≡ []
              → ((offset_committed tp offset g s).1.pending_txn_offsets ≡ l)
                × ((offset_committed tp offset g s).1.futures.at p.fut ≡ resolved tt)))
      × ((p.group_id == g && holds_offset (Dict.get p.offsets tp) offset) ≡ false
          → offset_committed tp offset g s ≡ (err assertion_error, s))
unfolding offset_committed commit_first
offset_committed_lem tp offset g p l s v q =
    (λ h. (ground arith, λ m. ground arith, λ m. ground arith), λ h. ground arith)
