-- ===== src/Consumer/SubscriptionState.antt =====
-- The class SubscriptionState of aiokafka/consumer/subscription_state.py: what the consumer is
-- subscribed to and assigned, and those who wait for either to change.
pub mod Partitions
pub mod Waiters
pub mod Invariant
pub mod Outcomes
pub mod Traces
mod Examples
use aiokafka.Base.{
  ℕ, ◌+◌, ◌-◌, String, Bool, true, false, not, Option, none, some, List, [], ◌∷◌, ◌++◌, ℤ, map,
}
use aiokafka.Base.{
  Exception, Result, ok, err, Exec, pure, raise, gets, modify, assert, continue, ◌>>=◌, ◌>>◌,
}
use aiokafka.Base.{attribute_error, assertion_error, illegal_state_error, if◌then◌else◌, eqb}
use aiokafka.Base.Futures.{Future, Heap, pending, resolved, failed, done, alloc, settle, write}
use aiokafka.Base.Futures
use aiokafka.Base.Keys.{TopicPartition, tp_eq, string_eq}
use aiokafka.Base.Dict
use aiokafka.Base.Sets
use aiokafka.Consumer.PartitionState.{TopicPartitionState, OffsetAndMetadata, Held, Method}
use aiokafka.Consumer.PartitionState
use aiokafka.Consumer.Subscription.{
  Subscription, Assignment, new_assignment, alloc_states, all_subscribed, unassign, unsubscribe_old,
}

pub data SubscriptionType : Type 0 where
  nothing auto_topics auto_pattern user_assigned : SubscriptionType

-- A pattern and a listener are objects that are only stored and handed back, so a number stands for
-- each. `loop` is not modelled.
pub record SubscriptionState : Type 0 where
  pub subscription_type : SubscriptionType
  pub subscribed_pattern : Option ℕ
  pub subscription : Option Subscription
  pub listener : Option ℕ
  pub subscription_waiters : List ℕ
  pub assignment_waiters : List ℕ
  -- none until `register_fetch_waiters` was called
  pub fetch_waiters : Option (List ℕ)
  pub fetch_count : ℕ
  pub last_fetch_ended : ℕ
  -- the heaps: of subscriptions and assignments, of waiters, of partitions
  pub lifetimes : Heap (Unit {0})
  pub waiters : Heap (Unit {0})
  pub futures : Heap (Unit {0})
  pub commits : Heap OffsetAndMetadata

-- `SubscriptionState()` at the time `now`.
pub init : ℕ → SubscriptionState
init now = record {
  subscription_type = nothing;
  subscribed_pattern = none;
  subscription = none;
  listener = none;
  subscription_waiters = [];
  assignment_waiters = [];
  fetch_waiters = none;
  fetch_count = 0;
  last_fetch_ended = now;
  lifetimes = Futures.empty;
  waiters = Futures.empty;
  futures = Futures.empty;
  commits = Futures.empty;
}

abbrev pub Action : Type 0
Action = Exec SubscriptionState (Unit {0})

pub topics : SubscriptionState → List String
topics s = elim s.subscription [ none ↦ [] | some sub ↦ sub.topics ]

abbrev pub assignment_of : Option Subscription → Option Assignment
assignment_of none = none
assignment_of (some sub) = sub.assignment

abbrev tps_of : Option Assignment → List TopicPartition
tps_of none = []
tps_of (some a) = a.tps

pub assigned_partitions : SubscriptionState → List TopicPartition
assigned_partitions s = tps_of (assignment_of s.subscription)

pub reassignment_in_progress : SubscriptionState → Bool
reassignment_in_progress s = elim s.subscription [
  | none ↦ true
  | some sub ↦ sub.reassignment_in_progress
]

pub partitions_auto_assigned : SubscriptionType → Bool
partitions_auto_assigned auto_topics = true
partitions_auto_assigned auto_pattern = true
partitions_auto_assigned _ = false

pub is_assigned : SubscriptionState → TopicPartition → Bool
unfolding assigned_partitions
is_assigned s tp = Sets.contains (assigned_partitions s) tp

-- `self._subscription_type in [SubscriptionType.NONE, subscription_type]`
abbrev pub compatible : SubscriptionType → SubscriptionType → Bool
compatible nothing t = true
compatible auto_topics auto_topics = true
compatible auto_pattern auto_pattern = true
compatible user_assigned user_assigned = true
compatible old t = false

set_subscription_type : SubscriptionType → Action
set_subscription_type t = do
  old ← gets (λ s. s.subscription_type)
  if compatible old t
      then modify (λ s. record s { subscription_type = t })
      else raise illegal_state_error

-- `for waiter in waiters: if not waiter.done(): waiter.set_result(None)` or `.set_exception(exc)`
pub settle_all : Future (Unit {0}) → List ℕ → Heap (Unit {0}) → Heap (Unit {0})
settle_all f [] h = h
settle_all f (w ∷ rest) h = settle_all f rest (if done (h.at w) then h else write h w f)

pub notify_subscription_waiters : Action
notify_subscription_waiters = modify (λ s. record s {
  waiters = settle_all (resolved tt) s.subscription_waiters s.waiters;
  subscription_waiters = [];
})

pub notify_assignment_waiters : Action
notify_assignment_waiters = modify (λ s. record s {
  waiters = settle_all (resolved tt) s.assignment_waiters s.waiters;
  assignment_waiters = [];
})

-- `if self._subscription is not None: self._subscription._unsubscribe()`
end_subscription : Action
end_subscription s = (
  (unsubscribe_old s.subscription s.lifetimes).0,
  record s { lifetimes = (unsubscribe_old s.subscription s.lifetimes).1 },
)

-- The old subscription ends, and the new one takes its place.
change_subscription : Subscription → Action
unfolding end_subscription notify_subscription_waiters
change_subscription sub = do
  end_subscription
  modify (λ s. record s { subscription = some sub })
  notify_subscription_waiters

-- `Subscription(topics)`
abbrev new_subscription : List String → Exec SubscriptionState Subscription
new_subscription ts s = (
  ok (record {
    manual = false;
    topics = Sets.frozenset ts;
    assignment = none;
    unsubscribe_future = s.lifetimes.next;
    reassignment_in_progress = true;
  }),
  record s { lifetimes = alloc s.lifetimes },
)

-- `Assignment(tps)`
abbrev create_assignment : List TopicPartition → Exec SubscriptionState Assignment
create_assignment tps s = (
  ok (new_assignment tps s.lifetimes s.futures),
  record s { lifetimes = alloc s.lifetimes; futures = alloc_states (Sets.frozenset tps) s.futures },
)

-- `ManualSubscription(partitions)`
abbrev new_manual_subscription : List TopicPartition → Exec SubscriptionState Subscription
new_manual_subscription partitions = do
  sub ← new_subscription (map (λ tp. tp.topic) partitions)
  a ← create_assignment partitions
  pure (record sub { manual = true; assignment = some a; reassignment_in_progress = false })

pub subscribe : List String → Option ℕ → Action
unfolding set_subscription_type change_subscription notify_subscription_waiters
subscribe ts listener = do
  set_subscription_type auto_topics
  sub ← new_subscription ts
  change_subscription sub
  modify (λ s. record s { listener = listener })
  notify_subscription_waiters

pub subscribe_pattern : ℕ → Option ℕ → Action
unfolding set_subscription_type
subscribe_pattern pattern listener = do
  set_subscription_type auto_pattern
  modify (λ s. record s { subscribed_pattern = some pattern; listener = listener })

pub assign_from_user : List TopicPartition → Action
unfolding set_subscription_type change_subscription notify_assignment_waiters
assign_from_user partitions = do
  set_subscription_type user_assigned
  sub ← new_manual_subscription partitions
  change_subscription sub
  notify_assignment_waiters

pub unsubscribe : Action
unfolding end_subscription
unsubscribe = do
  end_subscription
  modify (λ s. record s {
    subscription = none;
    subscribed_pattern = none;
    listener = none;
    subscription_type = nothing;
  })

abbrev is_auto_pattern : SubscriptionType → Bool
is_auto_pattern auto_pattern = true
is_auto_pattern _ = false

pub subscribe_from_pattern : List String → Action
unfolding change_subscription
subscribe_from_pattern ts = do
  t ← gets (λ s. s.subscription_type)
  assert (is_auto_pattern t)
  sub ← new_subscription ts
  change_subscription sub

end_assignment : Option Assignment → Action
end_assignment a s =
    ((unassign a s.lifetimes).0, record s { lifetimes = (unassign a s.lifetimes).1 })

-- `Subscription._assign`; that of a ManualSubscription raises.
assign : Option Subscription → List TopicPartition → Action
assign none tps = raise attribute_error
assign (some sub) tps = do
  assert (not sub.manual)
  assert (all_subscribed sub.topics tps)
  end_assignment sub.assignment
  a ← create_assignment tps
  modify (λ s. record s {
    subscription = some (record sub { assignment = some a; reassignment_in_progress = false });
  })

pub assign_from_subscribed : List TopicPartition → Action
unfolding assign end_assignment notify_assignment_waiters partitions_auto_assigned
assign_from_subscribed tps = do
  t ← gets (λ s. s.subscription_type)
  assert (partitions_auto_assigned t)
  sub ← gets (λ s. s.subscription)
  assign sub tps
  notify_assignment_waiters

reassign : Option Subscription → Action
reassign none = pure tt
reassign (some sub) = do
  assert (not sub.manual)
  modify (λ s. record s { subscription = some (record sub { reassignment_in_progress = true }) })

pub begin_reassignment : Action
unfolding reassign
begin_reassignment = do sub ← gets (λ s. s.subscription); reassign sub
