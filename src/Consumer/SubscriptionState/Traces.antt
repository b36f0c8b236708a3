-- ===== src/Consumer/SubscriptionState/Traces.antt =====
-- What the consumer, the coordinator and the fetcher do to the subscription state, as a step relation.
use aiokafka.Base.{ℕ, String, Option, none, some, List, map, ◌≡◌, refl, arith, Exception}
use aiokafka.Base.Keys.{TopicPartition, tp_eq, string_eq}
use aiokafka.Base.Dict
use aiokafka.Base.Dict.{Dict, keys, keys-put}
use aiokafka.Base.Sets
use aiokafka.Base.Sets.{contains-append, contains-frozenset}
use aiokafka.Consumer.PartitionState.{TopicPartitionState, Method}
use aiokafka.Consumer.Subscription.{
  Subscription, Assignment, new_assignment, unassign, unsubscribe_old,
}
use aiokafka.Consumer.SubscriptionState.{
  SubscriptionState, init, subscribe, subscribe_pattern, assign_from_user, unsubscribe,
  subscribe_from_pattern, assign_from_subscribed, begin_reassignment,
}
use aiokafka.Consumer.SubscriptionState.Partitions.{
  on_partition, on_subscription, on_assignment, on_state, hold,
}
use aiokafka.Consumer.SubscriptionState.Waiters.{
  wait_for_subscription, wait_for_assignment, register_fetch_waiters, abort_waiters, enter_fetch,
  leave_fetch,
}
use aiokafka.Consumer.SubscriptionState.Invariant.{
  IsConsistent, keys-new_states, all_subscribed-frozenset, all_subscribed_self,
  all_subscribed_frozen_topics,
}

pub subscribe-IsConsistent :
    (ts : List String) (l : Option ℕ) (s : SubscriptionState)
    → IsConsistent s
    → IsConsistent (subscribe ts l s).1
unfolding subscribe unsubscribe_old unassign
subscribe-IsConsistent ts l s v = ground arith

pub subscribe_pattern-IsConsistent :
    (p : ℕ) (l : Option ℕ) (s : SubscriptionState)
    → IsConsistent s
    → IsConsistent (subscribe_pattern p l s).1
unfolding subscribe_pattern
subscribe_pattern-IsConsistent p l s v = ground arith

pub unsubscribe-IsConsistent :
    (s : SubscriptionState) → IsConsistent s → IsConsistent (unsubscribe s).1
unfolding unsubscribe unsubscribe_old unassign
unsubscribe-IsConsistent s v = ground arith

pub subscribe_from_pattern-IsConsistent :
    (ts : List String) (s : SubscriptionState)
    → IsConsistent s
    → IsConsistent (subscribe_from_pattern ts s).1
unfolding subscribe_from_pattern unsubscribe_old unassign
subscribe_from_pattern-IsConsistent ts s v = ground arith

pub begin_reassignment-IsConsistent :
    (s : SubscriptionState) → IsConsistent s → IsConsistent (begin_reassignment s).1
unfolding begin_reassignment
begin_reassignment-IsConsistent s v = ground arith

pub assign_from_user-IsConsistent :
    (tps : List TopicPartition) (s : SubscriptionState)
    → IsConsistent s
    → IsConsistent (assign_from_user tps s).1
unfolding assign_from_user unsubscribe_old unassign new_assignment
assign_from_user-IsConsistent tps s v = ground (
  arith,
  keys-new_states (Sets.frozenset tps) s.futures,
  all_subscribed-frozenset (map (λ tp. tp.topic) tps) tps (all_subscribed_self tps),
  all_subscribed_frozen_topics (map (λ tp. tp.topic) tps) (Sets.frozenset tps),
)

pub assign_from_subscribed-IsConsistent :
    (tps : List TopicPartition) (s : SubscriptionState)
    → IsConsistent s
    → IsConsistent (assign_from_subscribed tps s).1
unfolding assign_from_subscribed unassign new_assignment
assign_from_subscribed-IsConsistent tps s v = grind (
  arith,
  keys-new_states (Sets.frozenset tps) s.futures,
  λ (ts : List String). all_subscribed-frozenset ts tps,
)

on_state-IsConsistent :
    {A : Type 0} (sub : Subscription) (a : Assignment) (tp : TopicPartition) (m : Method A)
    (s : SubscriptionState) (o : Option TopicPartitionState)
    → s.subscription ≡ some sub
    → sub.assignment ≡ some a
    → Dict.get a.tp_state tp ≡ o
    → IsConsistent s
    → IsConsistent (on_state sub a tp m o s).1
unfolding on_state
on_state-IsConsistent sub a tp m s none e e' h v = v
on_state-IsConsistent sub a tp m s (some p) e e' h v =
    ground (arith, keys-put a.tp_state tp (m (hold s a p)).1.it p h)

on_assignment-IsConsistent :
    {A : Type 0} (sub : Subscription) (tp : TopicPartition) (m : Method A) (s : SubscriptionState)
    (o : Option Assignment)
    → s.subscription ≡ some sub
    → sub.assignment ≡ o
    → IsConsistent s
    → IsConsistent (on_assignment sub tp m o s).1
unfolding on_assignment
on_assignment-IsConsistent sub tp m s none e e' v = v
on_assignment-IsConsistent sub tp m s (some a) e e' v =
    on_state-IsConsistent sub a tp m s (Dict.get a.tp_state tp) e e' refl v

on_subscription-IsConsistent :
    {A : Type 0} (tp : TopicPartition) (m : Method A) (s : SubscriptionState)
    (o : Option Subscription)
    → s.subscription ≡ o
    → IsConsistent s
    → IsConsistent (on_subscription tp m o s).1
unfolding on_subscription
on_subscription-IsConsistent tp m s none e v = v
on_subscription-IsConsistent tp m s (some sub) e v =
    on_assignment-IsConsistent sub tp m s sub.assignment e refl v

pub on_partition-IsConsistent :
    {A : Type 0} (tp : TopicPartition) (m : Method A) (s : SubscriptionState)
    → IsConsistent s
    → IsConsistent (on_partition tp m s).1
unfolding on_partition
on_partition-IsConsistent tp m s v = on_subscription-IsConsistent tp m s s.subscription refl v

-- The calls that clients of the subscription state make. `m` is any method of a partition.
pub data Step (s : SubscriptionState) : SubscriptionState → Type 0 where
  subscribed : (ts : List String) (l : Option ℕ) → Step s (subscribe ts l s).1
  subscribed_pattern : (p : ℕ) (l : Option ℕ) → Step s (subscribe_pattern p l s).1
  assigned_user : (tps : List TopicPartition) → Step s (assign_from_user tps s).1
  unsubscribed : Step s (unsubscribe s).1
  matched : (ts : List String) → Step s (subscribe_from_pattern ts s).1
  assigned : (tps : List TopicPartition) → Step s (assign_from_subscribed tps s).1
  reassigns : Step s (begin_reassignment s).1
  at_partition : (tp : TopicPartition) (m : Method (Unit {0})) → Step s (on_partition tp m s).1
  asks_committed : (tp : TopicPartition) (m : Method ℕ) → Step s (on_partition tp m s).1
  waits_subscription : Step s (wait_for_subscription s).1
  waits_assignment : Step s (wait_for_assignment s).1
  registers : (l : List ℕ) → Step s (register_fetch_waiters l s).1
  aborts : (exc : Exception) → Step s (abort_waiters exc s).1
  enters_fetch : Step s (enter_fetch s)
  leaves_fetch : (now : ℕ) → Step s (leave_fetch now s)

pub data Reach (now : ℕ) : SubscriptionState → Type 0 where
  start : Reach now (init now)
  next : {s t : SubscriptionState} → Reach now s → Step s t → Reach now t

Step-IsConsistent : {s t : SubscriptionState} → IsConsistent s → Step s t → IsConsistent t
unfolding wait_for_subscription wait_for_assignment register_fetch_waiters abort_waiters enter_fetch
    leave_fetch
Step-IsConsistent v (subscribed ts l) = subscribe-IsConsistent ts l _ v
Step-IsConsistent v (subscribed_pattern p l) = subscribe_pattern-IsConsistent p l _ v
Step-IsConsistent v (assigned_user tps) = assign_from_user-IsConsistent tps _ v
Step-IsConsistent v unsubscribed = unsubscribe-IsConsistent _ v
Step-IsConsistent v (matched ts) = subscribe_from_pattern-IsConsistent ts _ v
Step-IsConsistent v (assigned tps) = assign_from_subscribed-IsConsistent tps _ v
Step-IsConsistent v reassigns = begin_reassignment-IsConsistent _ v
Step-IsConsistent v (at_partition tp m) = on_partition-IsConsistent tp m _ v
Step-IsConsistent v (asks_committed tp m) = on_partition-IsConsistent tp m _ v
Step-IsConsistent v waits_subscription = ground arith
Step-IsConsistent v waits_assignment = ground arith
Step-IsConsistent v (registers l) = ground arith
Step-IsConsistent v (aborts exc) = ground arith
Step-IsConsistent v enters_fetch = ground arith
Step-IsConsistent v (leaves_fetch now) = ground arith

init-IsConsistent : (now : ℕ) → IsConsistent (init now)
unfolding init
init-IsConsistent now = ground arith

-- Whatever the clients call, in any order, also where calls raise: the subscription in place is of the
-- kind that was asked for; it and its assignment are active; and only partitions of subscribed topics
-- are assigned, each with a state.
pub Reach-IsConsistent : (now : ℕ) {s : SubscriptionState} → Reach now s → IsConsistent s
Reach-IsConsistent now start = init-IsConsistent now
Reach-IsConsistent now (next r st) = Step-IsConsistent (Reach-IsConsistent now r) st
