-- ===== src/Consumer/Subscription.antt =====
-- The classes Assignment, Subscription and ManualSubscription of
-- aiokafka/consumer/subscription_state.py. `create_future()` stands there for three kinds of futures
-- that never meet in one variable, so each kind has a heap of its own: the lifetimes of subscriptions
-- and assignments, the futures of partitions, and the waiters of the subscription state.
use aiokafka.Base.{ℕ, String, Bool, true, false, Option, none, some, List, [], ◌∷◌}
use aiokafka.Base.{Result, ok, err, ◌&&◌}
use aiokafka.Base.Futures.{Heap, resolved, alloc, settle}
use aiokafka.Base.Keys.{TopicPartition, string_eq, tp_eq}
use aiokafka.Base.Dict.{Dict}
use aiokafka.Base.Sets
use aiokafka.Consumer.PartitionState.{TopicPartitionState, new_state}

pub record Assignment : Type 0 where
  pub tps : List TopicPartition
  pub tp_state : Dict TopicPartition TopicPartitionState
  pub unassign_future : ℕ
  pub commit_refresh_needed : Bool

pub record Subscription : Type 0 where
  -- whether it is a ManualSubscription
  pub manual : Bool
  pub topics : List String
  pub assignment : Option Assignment
  pub unsubscribe_future : ℕ
  -- of a ManualSubscription this is always false, and writes to it are dropped
  pub reassignment_in_progress : Bool

-- The states of new partitions, each with a new future for its position.
unfoldable pub new_states :
    List TopicPartition → Heap (Unit {0}) → Dict TopicPartition TopicPartitionState
new_states [] h = []
new_states (tp ∷ tps) h = (tp, new_state h.next) ∷ new_states tps (alloc h)

unfoldable pub alloc_states : List TopicPartition → Heap (Unit {0}) → Heap (Unit {0})
alloc_states [] h = h
alloc_states (tp ∷ tps) h = alloc_states tps (alloc h)

-- `Assignment(topic_partitions)`, where `lifetimes.next` is its future and `futures` the heap on
-- which its partitions get theirs.
unfoldable pub new_assignment : List TopicPartition → Heap (Unit {0}) → Heap (Unit {0}) → Assignment
new_assignment tps lifetimes futures = record {
  tps = Sets.frozenset tps;
  tp_state = new_states (Sets.frozenset tps) futures;
  unassign_future = lifetimes.next;
  commit_refresh_needed = false;
}

-- `all(tp.topic in self._topics for tp in topic_partitions)`
unfoldable pub all_subscribed : List String → List TopicPartition → Bool
all_subscribed topics [] = true
all_subscribed topics (tp ∷ tps) = Sets.contains topics tp.topic && all_subscribed topics tps

-- `Assignment._unassign` and `Subscription._unsubscribe`: the futures that say that it is over.
unfoldable pub unassign : Option Assignment → Heap (Unit {0}) → Result (Unit {0}) × Heap (Unit {0})
unassign none h = (ok tt, h)
unassign (some a) h = settle h a.unassign_future (resolved tt)

then_unassign :
    Option Assignment → Result (Unit {0}) × Heap (Unit {0}) → Result (Unit {0}) × Heap (Unit {0})
then_unassign a (ok u, h) = unassign a h
then_unassign a (err e, h) = (err e, h)

unfoldable pub unsubscribe_old :
    Option Subscription → Heap (Unit {0}) → Result (Unit {0}) × Heap (Unit {0})
unfolding then_unassign unassign
unsubscribe_old none h = (ok tt, h)
unsubscribe_old (some s) h =
    then_unassign s.assignment (settle h s.unsubscribe_future (resolved tt))
