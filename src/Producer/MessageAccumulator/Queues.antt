-- ===== src/Producer/MessageAccumulator/Queues.antt =====
-- What the methods do to the queues of the partitions.
use aiokafka.Base.{
  ℕ, ◌+◌, true, false, Option, none, some, List, [], ◌∷◌, ◌≡◌, refl, ◌∙◌, ◌⊎◌, inl, inr, arith,
  if◌then◌else◌, eqb, pos, ok, err, Bool-cases, drop, index_error,
}
use aiokafka.Base.Keys.{TopicPartition, tp_eq, nat_eq, ◌==◌, ==_iff}
use aiokafka.Base.Dict
use aiokafka.Base.Dict.{Dict, get-put, get-remove}
use aiokafka.Base.Sets
use aiokafka.Base.Futures.{pending}
use aiokafka.Producer.TransactionManager.{
  TransactionManager, has_pid, sequence_number, increment_sequence_number,
}
use aiokafka.Producer.MessageBatch.{record_count, drain_ready, set_producer_state}
use aiokafka.Producer.MessageAccumulator.{
  MessageAccumulator, queue_of, pop_batch, send_batch, without_empty, pop_front, number_batch,
}

pub queue_of-put :
    (d : Dict TopicPartition (List ℕ)) (k j : TopicPartition) (q : List ℕ)
    → queue_of (Dict.put d k q) j ≡ (if k == j then q else queue_of d j)
queue_of-put d k j q = ground (arith, get-put d k j q)

pub queue_of-remove :
    (d : Dict TopicPartition (List ℕ)) (k j : TopicPartition)
    → queue_of (Dict.remove d k) j ≡ (if k == j then [] else queue_of d j)
queue_of-remove d k j = ground (arith, get-remove d k j)

number_batch-batches :
    (b : ℕ) (o : Option TransactionManager) (s : MessageAccumulator)
    → (number_batch b o s).1.batches ≡ s.batches
unfolding number_batch
number_batch-batches b none s = refl
number_batch-batches b (some m) s = ground arith

queue_of-without_empty :
    (d : Dict TopicPartition (List ℕ)) (tp t : TopicPartition)
    → queue_of (without_empty d tp) t ≡ queue_of d t
unfolding without_empty
queue_of-without_empty d tp t = elim (Bool-cases (tp == t)) [
  | inl same ↦ let e = (==_iff tp t).0 same in rw (← e) (kept d)
  | inr other ↦ ground (arith, queue_of-remove d tp t)
]
  where
    kept : (d : Dict TopicPartition (List ℕ)) → queue_of (without_empty d tp) tp ≡ queue_of d tp
    kept d = ground (arith, queue_of-remove d tp tp, ==_iff tp tp)

List-cases {ℓ} : {A : Type ℓ} (l : List A) → (l ≡ []) ⊎ ((x : A) × (r : List A) × (l ≡ x ∷ r))
List-cases [] = inl refl
List-cases (x ∷ r) = inr (x, r, refl)

send_batch-queues :
    (tp : TopicPartition) (b : ℕ) (s : MessageAccumulator) (t : TopicPartition)
    → queue_of (send_batch tp b s).1.batches t ≡ queue_of s.batches t
unfolding send_batch
send_batch-queues tp b s t = ground (
  arith,
  number_batch-batches b s.txn_manager s,
  queue_of-without_empty s.batches tp t,
  queue_of-without_empty (number_batch b s.txn_manager s).1.batches tp t,
)

-- A pop takes the first batch of the queue, also if it raises later, and leaves all other queues alone.
pub pop_batch-queues :
    (tp : TopicPartition) (s : MessageAccumulator) (t : TopicPartition)
    → queue_of (pop_batch tp s).1.batches t
      ≡ (if tp == t then drop 1 (queue_of s.batches tp) else queue_of s.batches t)
unfolding pop_batch
pop_batch-queues tp s t = elim (List-cases (queue_of s.batches tp)) [
  | inl e ↦ rw (e, pop_front) (ground (arith, queue_of-put s.batches tp t []))
  | inr (b, rest, e) ↦
      rw (e, pop_front)
        (send_batch-queues tp b (record s { batches = Dict.put s.batches tp rest }) t
          ∙ queue_of-put s.batches tp t rest)
]

-- The batch that is taken from the front of a queue: on a retry it keeps the sequence numbers that it has
-- and the manager is left alone. Sent for the first time by an idempotent producer it takes the
-- producer's id and epoch and the next sequence number of its partition, which moves on by the number
-- of its records. Either way it is pending, and one more attempt is counted.
pub pop_batch_lem :
    (tp : TopicPartition) (s : MessageAccumulator) (b : ℕ) (rest : List ℕ)
    → queue_of s.batches tp ≡ b ∷ rest
    → (eqb (s.object b).retry_count 0 ≡ false
        → ((pop_batch tp s).0 ≡ ok b)
          × ((pop_batch tp s).1.txn_manager ≡ s.txn_manager)
          × (((pop_batch tp s).1.object b).builder ≡ (s.object b).builder)
          × (((pop_batch tp s).1.object b).retry_count ≡ (s.object b).retry_count + 1)
          × ((pop_batch tp s).1.pending_batches ≡ Sets.add s.pending_batches b))
      × ((m : TransactionManager)
          → s.txn_manager ≡ some m
          → has_pid m ≡ true
          → (s.object b).retry_count ≡ 0
          → s.futures.at (s.object b).drain_waiter ≡ pending
          → (s.object b).builder.magic ≡ 2
          → ((pop_batch tp s).0 ≡ ok b)
            × ((pop_batch tp s).1.txn_manager
                ≡ some
                    (increment_sequence_number
                      (s.object b).tp
                      (pos (record_count (s.object b)))
                      m).1)
            × (((pop_batch tp s).1.object b).builder.base_sequence
                ≡ sequence_number m (s.object b).tp)
            × (((pop_batch tp s).1.object b).builder.producer_id ≡ m.producer_id)
            × (((pop_batch tp s).1.object b).builder.producer_epoch ≡ m.producer_epoch)
            × (((pop_batch tp s).1.object b).retry_count ≡ 1)
            × ((pop_batch tp s).1.pending_batches ≡ Sets.add s.pending_batches b))
unfolding pop_batch send_batch number_batch set_producer_state drain_ready
pop_batch_lem tp s b rest q = rw (q, pop_front) (λ e. ground arith, λ m e p r d g. ground arith)

send_batch-result :
    (tp : TopicPartition) (b c : ℕ) (s : MessageAccumulator) → (send_batch tp b s).0 ≡ ok c → c ≡ b
unfolding send_batch
send_batch-result tp b c s h = ground arith

-- What a pop returns was the first of the queue.
pub pop_batch-first :
    (tp : TopicPartition) (s : MessageAccumulator) (b : ℕ)
    → (pop_batch tp s).0 ≡ ok b
    → queue_of s.batches tp ≡ b ∷ drop 1 (queue_of s.batches tp)
unfolding pop_batch
pop_batch-first tp s b h = elim (List-cases (queue_of s.batches tp)) [
  | inl e ↦ let f : (err index_error) ≡ ok b = rw (e, pop_front) at h in cc
  | inr (c, rest, e) ↦
      let f : (send_batch tp c (record s { batches = Dict.put s.batches tp rest })).0 ≡ ok b =
        rw (e, pop_front) at h in
      rw (e, send_batch-result tp c b (record s { batches = Dict.put s.batches tp rest }) f) refl
]
