-- ===== src/Consumer/SubscriptionState/Outcomes.antt =====
-- What subscribing, assigning and unsubscribing do, errors included.
use aiokafka.Base.{
  ℕ, String, true, false, Option, none, some, List, [], ◌∷◌, ◌≡◌, ◌⊎◌, inl, inr, refl, ◌∙◌, arith,
  ok, err, illegal_state_error, assertion_error, Bool-cases,
}
use aiokafka.Base.Futures.{Heap, pending, done, alloc}
use aiokafka.Base.Keys.{TopicPartition, tp_eq, string_eq, ◌==◌}
use aiokafka.Base.Dict
use aiokafka.Base.Sets
use aiokafka.Base.Sets.{contains-frozenset}
use aiokafka.Consumer.PartitionState.{TopicPartitionState, awaiting_reset}
use aiokafka.Consumer.Subscription.{
  Subscription, Assignment, new_states, new_assignment, all_subscribed, unassign, unsubscribe_old,
}
use aiokafka.Consumer.SubscriptionState.{
  SubscriptionState, SubscriptionType, auto_topics, auto_pattern, user_assigned, compatible,
  subscribe, subscribe_pattern, assign_from_user, unsubscribe, assign_from_subscribed,
}
use aiokafka.Consumer.SubscriptionState.Invariant.{IsConsistent}

-- Subscribing to topics, to a pattern and assigning by hand exclude one another: a call of another kind
-- than the one in place raises IllegalStateError and changes nothing.
pub subscriptions_exclusive :
    (ts : List String) (p : ℕ) (tps : List TopicPartition) (l : Option ℕ) (s : SubscriptionState)
    → (compatible s.subscription_type auto_topics ≡ false
        → subscribe ts l s ≡ (err illegal_state_error, s))
      × (compatible s.subscription_type auto_pattern ≡ false
          → subscribe_pattern p l s ≡ (err illegal_state_error, s))
      × (compatible s.subscription_type user_assigned ≡ false
          → assign_from_user tps s ≡ (err illegal_state_error, s))
unfolding subscribe subscribe_pattern assign_from_user
subscriptions_exclusive ts p tps l s = (λ e. rw e, λ e. rw e, λ e. rw e)

-- The futures of a subscription and of its assignment say that they are over.
abbrev pub AssignmentOver : Heap (Unit {0}) → Option Assignment → Type 0
AssignmentOver h none = Unit
AssignmentOver h (some a) = done (h.at a.unassign_future) ≡ true

abbrev pub Over : Heap (Unit {0}) → Option Subscription → Type 0
Over h none = Unit
Over h (some sub) = (done (h.at sub.unsubscribe_future) ≡ true) × AssignmentOver h sub.assignment

-- A subscription to topics that is allowed succeeds: the one before and its assignment are over, and
-- the new one is active, has the topics, waits for an assignment, and keeps the listener.
pub subscribe_replaces :
    (ts : List String) (l : Option ℕ) (s : SubscriptionState)
    → IsConsistent s
    → compatible s.subscription_type auto_topics ≡ true
    → ((subscribe ts l s).0 ≡ ok tt)
      × Over (subscribe ts l s).1.lifetimes s.subscription
      × ((subscribe ts l s).1.subscription
          ≡ some (record {
            manual = false;
            topics = Sets.frozenset ts;
            assignment = none;
            unsubscribe_future = s.lifetimes.next;
            reassignment_in_progress = true;
          }))
      × ((subscribe ts l s).1.lifetimes.at s.lifetimes.next ≡ pending)
      × ((subscribe ts l s).1.subscription_type ≡ auto_topics)
      × ((subscribe ts l s).1.listener ≡ l)
      × ((subscribe ts l s).1.subscription_waiters ≡ [])
unfolding subscribe unsubscribe_old unassign
subscribe_replaces ts l s v e = (
  ground arith,
  ground arith,
  ground arith,
  ground arith,
  ground arith,
  ground arith,
  ground arith,
)

-- Unsubscribing never raises; it ends the subscription and its assignment, and any kind of subscription
-- is allowed afterwards.
pub unsubscribe_ends :
    (s : SubscriptionState)
    → IsConsistent s
    → ((unsubscribe s).0 ≡ ok tt)
      × Over (unsubscribe s).1.lifetimes s.subscription
      × ((unsubscribe s).1.subscription ≡ none)
      × ((t : SubscriptionType) → compatible (unsubscribe s).1.subscription_type t ≡ true)
unfolding unsubscribe unsubscribe_old unassign
unsubscribe_ends s v = (ground arith, ground arith, ground arith, λ t. ground arith)

-- Of new partitions each has a state that awaits a reset and has no position.
abbrev pub IsNew : Option TopicPartitionState → Type 0
IsNew none = ⊥
IsNew (some p) = (p.status ≡ awaiting_reset) × (p.position ≡ none) × (p.paused ≡ false)

new_states-IsNew :
    (l : List TopicPartition) (h : Heap (Unit {0})) (tp : TopicPartition)
    → Sets.contains l tp ≡ true
    → IsNew (Dict.get (new_states l h) tp)
unfolding new_states Sets.contains Dict.get
new_states-IsNew [] h tp c = cc
new_states-IsNew (x ∷ l) h tp c = elim (Bool-cases (x == tp)) [
  | inl e ↦ rw e (refl, refl, refl)
  | inr e ↦ rw e (new_states-IsNew l (alloc h) tp (rw e at c))
]

-- An assignment from the coordinator replaces the one before, which is over; every partition of it
-- awaits a reset and has no position yet; and no reassignment is in progress any more. If it names a
-- topic that is not subscribed to, the call raises and changes nothing.
pub assign_from_subscribed_lem :
    (tps : List TopicPartition) (s : SubscriptionState) (sub : Subscription)
    → IsConsistent s
    → (s.subscription_type ≡ auto_topics) ⊎ (s.subscription_type ≡ auto_pattern)
    → s.subscription ≡ some sub
    → (all_subscribed sub.topics tps ≡ true
        → ((assign_from_subscribed tps s).0 ≡ ok tt)
          × AssignmentOver (assign_from_subscribed tps s).1.lifetimes sub.assignment
          × ((assign_from_subscribed tps s).1.subscription
              ≡ some (record sub {
                assignment = some (new_assignment tps s.lifetimes s.futures);
                reassignment_in_progress = false;
              }))
          × ((tp : TopicPartition)
              → Sets.contains tps tp ≡ true
              → IsNew (Dict.get (new_assignment tps s.lifetimes s.futures).tp_state tp)))
      × (all_subscribed sub.topics tps ≡ false
          → assign_from_subscribed tps s ≡ (err assertion_error, s))
unfolding assign_from_subscribed unassign new_assignment
assign_from_subscribed_lem tps s sub v t e = (
  λ h. (
    ground arith,
    ground arith,
    ground arith,
    λ tp c. new_states-IsNew (Sets.frozenset tps) s.futures tp (contains-frozenset tps tp ∙ c),
  ),
  λ h. ground arith,
)
