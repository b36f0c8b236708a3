-- ===== src/Producer/MessageAccumulator/Examples.antt =====
-- A producer with one batch of one record: its delivery, its pop, its drain and its retry.
use aiokafka.Base.{
  ℕ, arith, ◌+◌, ◌≡◌, ◌≢◌, refl, true, false, Bool, none, some, [], ◌∷◌, All, ℤ, pos, ok, drop, eqb,
  Option,
}
use aiokafka.Base.Keys.{TopicPartition, tp_eq, int_eq, nat_eq}
use aiokafka.Base.Dict
use aiokafka.Base.Dict.{keys}
use aiokafka.Base.Sets
use aiokafka.Base.Futures.{resolved, pending, empty, alloc}
use aiokafka.Producer.TransactionManager.{
  TransactionManager, init, set_pid_and_epoch, has_pid, sequence_number, increment_sequence_number,
}
use aiokafka.Producer.MessageBatch.{
  Batch, new_batch, new_builder, append, append_record, keep_message, record_count, drain_ready,
  delivery, done_batch, timestamp_type_of,
}
use aiokafka.Producer.MessageBatch.Delivery.{done_batch_lem, used_timestamp, Avoids}
use aiokafka.Producer.MessageAccumulator.{
  MessageAccumulator, queue_of, pop_batch, send_batch, number_batch, pop_front, without_empty,
  reenqueue,
}
use aiokafka.Producer.MessageAccumulator.Queues.{pop_batch_lem}
use aiokafka.Producer.MessageAccumulator.Retry.{pop_batch-reenqueue}
use aiokafka.Producer.MessageAccumulator.Drain.{Nodes, node_of, drain_by_nodes}
use aiokafka.Producer.MessageAccumulator.Drain.Safety.{drain_by_nodes_lem}

abbrev tp : TopicPartition
tp = record { topic = "t"; partition = 0 }

abbrev batch : Batch
batch = (append (some (pos 10)) (new_batch tp (new_builder 2 false) 5 0 empty)).1

done_batch_lem_example :
    (batch.futures.at batch.it.future ≡ pending
      → (done_batch (pos 4) (pos 9) none batch).futures.at batch.it.future
        ≡ resolved (
            some (record {
              tp = batch.it.tp;
              offset = pos 4;
              timestamp = pos 9;
              timestamp_type = timestamp_type_of (pos 9);
              log_start_offset = none;
            })))
    × All
        (λ m.
          batch.futures.at m.0 ≡ pending
          → (done_batch (pos 4) (pos 9) none batch).futures.at m.0
            ≡ resolved (
                some (
                  delivery batch.it.tp
                    (pos 4)
                    (timestamp_type_of (pos 9))
                    none
                    m.1
                    (used_timestamp (pos 9) batch.it.msg_futures batch.futures))))
        batch.it.msg_futures
    × ((q : ℕ)
        → q ≢ batch.it.future
        → Avoids q batch.it.msg_futures
        → (done_batch (pos 4) (pos 9) none batch).futures.at q ≡ batch.futures.at q)
unfolding append append_record keep_message new_batch new_builder
done_batch_lem_example =
    done_batch_lem (pos 4) (pos 9) none batch (tt, tt) (ground arith, tt) (refl, tt)

abbrev queued : Option TransactionManager → MessageAccumulator
queued manager = record {
  batches = (tp, 0 ∷ []) ∷ [];
  pending_batches = [];
  next = 1;
  object = λ b. batch.it;
  futures = alloc batch.futures;
  wait_data_future = batch.futures.next;
  closed = false;
  exception = none;
  api_version = (0, 11);
  batch_ttl = 5;
  txn_manager = manager;
}

abbrev manager : TransactionManager
manager = (set_pid_and_epoch (pos 7) (pos 0) (init none)).1

abbrev numbered : MessageAccumulator
numbered = (pop_batch tp (queued (some manager))).1

pop_batch_lem_example :
    (eqb ((queued (some manager)).object 0).retry_count 0 ≡ false
      → ((pop_batch tp (queued (some manager))).0 ≡ ok 0)
        × (numbered.txn_manager ≡ some manager)
        × ((numbered.object 0).builder ≡ batch.it.builder)
        × ((numbered.object 0).retry_count ≡ batch.it.retry_count + 1)
        × (numbered.pending_batches ≡ Sets.add [] 0))
    × ((m : TransactionManager)
        → (some manager) ≡ some m
        → has_pid m ≡ true
        → batch.it.retry_count ≡ 0
        → (alloc batch.futures).at batch.it.drain_waiter ≡ pending
        → batch.it.builder.magic ≡ 2
        → ((pop_batch tp (queued (some manager))).0 ≡ ok 0)
          × (numbered.txn_manager
              ≡ some (increment_sequence_number batch.it.tp (pos (record_count batch.it)) m).1)
          × ((numbered.object 0).builder.base_sequence ≡ sequence_number m batch.it.tp)
          × ((numbered.object 0).builder.producer_id ≡ m.producer_id)
          × ((numbered.object 0).builder.producer_epoch ≡ m.producer_epoch)
          × ((numbered.object 0).retry_count ≡ 1)
          × (numbered.pending_batches ≡ Sets.add [] 0))
unfolding Dict.get
pop_batch_lem_example = pop_batch_lem tp (queued (some manager)) 0 [] refl

abbrev sent : MessageAccumulator
sent = (pop_batch tp (queued none)).1

pop_batch-reenqueue_example :
    ((reenqueue 0 sent).0 ≡ ok tt)
    × ((pop_batch (sent.object 0).tp (reenqueue 0 sent).1).0 ≡ ok 0)
    × (((pop_batch (sent.object 0).tp (reenqueue 0 sent).1).1.object 0).builder
        ≡ (sent.object 0).builder)
    × ((pop_batch (sent.object 0).tp (reenqueue 0 sent).1).1.txn_manager ≡ sent.txn_manager)
    × ((t : TopicPartition)
        → queue_of (pop_batch (sent.object 0).tp (reenqueue 0 sent).1).1.batches t
          ≡ queue_of sent.batches t)
unfolding pop_batch send_batch number_batch pop_front without_empty drain_ready append append_record
    keep_message new_batch new_builder Dict.get Dict.put Dict.remove Sets.add Sets.contains
pop_batch-reenqueue_example = pop_batch-reenqueue 0 sent refl refl refl

abbrev drained : MessageAccumulator
drained = (drain_by_nodes 3 (λ t. some (pos 1)) [] [] (queued none)).1

drain_by_nodes_lem_example :
    ((nodes : Nodes) (unknown : Bool) (n : ℤ) (t : TopicPartition) (b : ℕ)
      → (drain_by_nodes 3 (λ t. some (pos 1)) [] [] (queued none)).0 ≡ ok (nodes, unknown)
      → Dict.get (node_of nodes n) t ≡ some b
      → ((some (pos 1)) ≡ some n)
        × (Sets.contains [] n ≡ false)
        × (Sets.contains [] t ≡ false)
        × (queue_of (queued none).batches t ≡ b ∷ drop 1 (queue_of (queued none).batches t)))
    × ((t : TopicPartition)
        → Sets.contains [] t ≡ true
        → queue_of drained.batches t ≡ queue_of (queued none).batches t)
unfolding Sets.contains
drain_by_nodes_lem_example = drain_by_nodes_lem 3 (λ t. some (pos 1)) [] [] (queued none) (refl, tt)
