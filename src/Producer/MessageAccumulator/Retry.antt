-- ===== src/Producer/MessageAccumulator/Retry.antt =====
-- A batch that is to be sent again.
use aiokafka.Base.{
  ℕ, true, false, ◌∷◌, ◌≡◌, refl, ap, ◌∙◌, inl, inr, arith, if◌then◌else◌, eqb, ok, Bool-cases,
  drop,
}
use aiokafka.Base.Keys.{TopicPartition, tp_eq, nat_eq, ◌==◌, ==_iff}
use aiokafka.Base.Sets
use aiokafka.Base.Futures.{done, pending}
use aiokafka.Producer.MessageBatch.{reset_drain}
use aiokafka.Producer.MessageAccumulator.{MessageAccumulator, queue_of, pop_batch, reenqueue}
use aiokafka.Producer.MessageAccumulator.Queues.{queue_of-put, pop_batch-queues, pop_batch_lem}

module _ (b : ℕ) (s : MessageAccumulator) where
  reenqueue-queues :
      (t : TopicPartition)
      → queue_of (reenqueue b s).1.batches t ≡ (
          if (s.object b).tp == t
          then b ∷ queue_of s.batches (s.object b).tp
          else queue_of s.batches t)
  unfolding reenqueue
  reenqueue-queues t =
      ground
        (arith, queue_of-put s.batches (s.object b).tp t (b ∷ queue_of s.batches (s.object b).tp))

  reenqueue_ok :
      Sets.contains s.pending_batches b ≡ true
      → done (s.futures.at (s.object b).drain_waiter) ≡ true
      → ((reenqueue b s).0 ≡ ok tt)
        × (((reenqueue b s).1.object b).builder ≡ (s.object b).builder)
        × (((reenqueue b s).1.object b).retry_count ≡ (s.object b).retry_count)
        × ((reenqueue b s).1.futures.at ((reenqueue b s).1.object b).drain_waiter ≡ pending)
        × ((reenqueue b s).1.txn_manager ≡ s.txn_manager)
  unfolding reenqueue reset_drain
  reenqueue_ok p d = ground arith

  front :
      queue_of (reenqueue b s).1.batches (s.object b).tp ≡ b ∷ queue_of s.batches (s.object b).tp
  front = reenqueue-queues (s.object b).tp ∙ ground (arith, ==_iff (s.object b).tp (s.object b).tp)

  -- What is left of each queue when the batch is taken again.
  queues_back :
      (t : TopicPartition)
      → (if (s.object b).tp == t
          then drop 1 (queue_of (reenqueue b s).1.batches (s.object b).tp)
          else queue_of (reenqueue b s).1.batches t)
        ≡ queue_of s.batches t
  queues_back t = elim (Bool-cases ((s.object b).tp == t)) [
    | inl e ↦ rw e (ap (drop 1) front ∙ ap (queue_of s.batches) ((==_iff (s.object b).tp t).0 e))
    | inr e ↦ rw e (reenqueue-queues t ∙ rw e refl)
  ]

-- A batch that waits for an answer and is put back for another attempt is the one that is sent next: the pop
-- that follows returns it with the sequence numbers that it had, the manager is left alone, and every
-- queue is again what it was.
pub pop_batch-reenqueue :
    (b : ℕ) (s : MessageAccumulator)
    → Sets.contains s.pending_batches b ≡ true
    → done (s.futures.at (s.object b).drain_waiter) ≡ true
    → eqb (s.object b).retry_count 0 ≡ false
    → ((reenqueue b s).0 ≡ ok tt)
      × ((pop_batch (s.object b).tp (reenqueue b s).1).0 ≡ ok b)
      × (((pop_batch (s.object b).tp (reenqueue b s).1).1.object b).builder ≡ (s.object b).builder)
      × ((pop_batch (s.object b).tp (reenqueue b s).1).1.txn_manager ≡ s.txn_manager)
      × ((t : TopicPartition)
          → queue_of (pop_batch (s.object b).tp (reenqueue b s).1).1.batches t
            ≡ queue_of s.batches t)
pop_batch-reenqueue b s p d n =
    let (o, builder, count, w, manager) = reenqueue_ok b s p d in
    let tp = (s.object b).tp in
    let retried =
      (pop_batch_lem tp (reenqueue b s).1 b (queue_of s.batches tp) (front b s)).0
        (ap (λ k. eqb k 0) count ∙ n) in
    (
      o,
      retried.0,
      retried.2 ∙ builder,
      retried.1 ∙ manager,
      λ t. pop_batch-queues tp (reenqueue b s).1 t ∙ queues_back b s t,
    )
