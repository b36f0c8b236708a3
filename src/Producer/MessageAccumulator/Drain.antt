-- ===== src/Producer/MessageAccumulator/Drain.antt =====
-- `drain_by_nodes` of aiokafka/producer/message_accumulator.py. The leaders that the cluster knows, the
-- time, and the nodes and partitions to leave out are arguments.
pub mod Filed
pub mod Safety
use aiokafka.Base.{
  ℕ, ◌+◌, Bool, true, false, not, ◌&&◌, Option, none, some, List, [], ◌∷◌, if◌then◌else◌, ℤ, pos,
  negsuc, eqb_ℤ,
}
use aiokafka.Base.{
  Exception, Result, ok, err, Exec, pure, raise, gets, modify, continue, ◌>>=◌, ◌>>◌, index_error,
  broker,
}
use aiokafka.Base.Futures.{alloc, resolved}
use aiokafka.Base.Keys.{TopicPartition, tp_eq, int_eq, ◌==◌}
use aiokafka.Base.Dict
use aiokafka.Base.Dict.{Dict, keys}
use aiokafka.Base.Sets
use aiokafka.Base.BrokerErrors.{not_leader_for_partition_error, leader_not_available_error}
use aiokafka.Producer.MessageBatch.{expired, is_batch_empty, failure, done_noack, set_future}
use aiokafka.Producer.MessageAccumulator.{
  MessageAccumulator, Action, queue_of, on_batch, update_batch, pop_batch,
}

-- The batches for each node, by partition, and whether a partition had no leader.
abbrev pub Nodes : Type 0
Nodes = Dict ℤ (Dict TopicPartition ℕ)

abbrev pub Drained : Type 0
Drained = Nodes × Bool

abbrev pub node_of : Nodes → ℤ → Dict TopicPartition ℕ
node_of nodes leader = elim (Dict.get nodes leader) [ none ↦ [] | some d ↦ d ]

-- `self._batches[tp][0].expired()`
pub first_expired : ℕ → List ℕ → Action Bool
first_expired now [] = raise index_error
first_expired now (b ∷ rest) = gets (λ s. expired now (s.object b))

-- A batch that expired while its partition has no leader fails.
pub expire_first : ℕ → TopicPartition → Exception → Action (Unit {0})
unfolding first_expired
expire_first now tp error = do
  queued ← gets (λ s. queue_of s.batches tp)
  late ← first_expired now queued
  if late then (do b ← pop_batch tp; on_batch b (failure error)) else pure tt

-- An empty batch has nothing to send, and only its own future is resolved.
pub take_batch : ℤ → TopicPartition → Nodes → Action Nodes
take_batch leader tp nodes = do
  b ← pop_batch tp
  empty ← gets (λ s. is_batch_empty (s.object b))
  if empty
      then (update_batch b done_noack >> pure nodes)
      else pure (Dict.put nodes leader (Dict.put (node_of nodes leader) tp b))

module _ (now : ℕ) (leaders : TopicPartition → Option ℤ) (ignore_nodes : List ℤ)
    (muted : List TopicPartition) where
  pub drain_led : TopicPartition → Option ℤ → Drained → Action Drained
  unfolding expire_first take_batch
  drain_led tp none (nodes, unknown) = do
    expire_first now tp (broker not_leader_for_partition_error)
    pure (nodes, true)
  drain_led tp (some leader) (nodes, unknown) =
      if eqb_ℤ leader (negsuc 0)
      then (expire_first now tp (broker leader_not_available_error) >> pure (nodes, true))
      else if Sets.contains ignore_nodes leader
      then pure (nodes, unknown)
      else (do nodes' ← take_batch leader tp nodes; pure (nodes', unknown))

  pub drain_partition : TopicPartition → Drained → Action Drained
  unfolding drain_led
  drain_partition tp drained =
      if Sets.contains muted tp then pure drained else drain_led tp (leaders tp) drained

  pub drain_loop : List TopicPartition → Drained → Action Drained
  drain_loop [] drained = pure drained
  drain_loop (tp ∷ rest) drained = do
    drained' ← drain_partition tp drained
    drain_loop rest drained'

  -- `if not self._wait_data_future.done(): ...set_result(None)`, and a new one.
  pub drain_by_nodes : Action Drained
  unfolding drain_loop
  drain_by_nodes = do
    tps ← gets (λ s. keys s.batches)
    drained ← drain_loop tps ([], false)
    modify (λ s. record s {
      futures = alloc (set_future s.futures s.wait_data_future (resolved none));
      wait_data_future = s.futures.next;
    })
    pure drained
