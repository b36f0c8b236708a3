-- ===== src/Consumer/SubscriptionState/Invariant.antt =====
-- The invariant of SubscriptionState, and that whatever its clients call keeps it.
use aiokafka.Base.{
  is_some, ℕ, ◌<◌, String, true, false, Option, none, some, List, [], ◌∷◌, ◌++◌, map, ◌&&◌, ◌≡◌,
  ◌≢◌, refl, ap, arith,
}
use aiokafka.Base.Futures.{Heap, pending, alloc}
use aiokafka.Base.Keys.{TopicPartition, tp_eq, string_eq, ==_iff}
use aiokafka.Base.Dict.{keys}
use aiokafka.Base.Sets
use aiokafka.Base.Sets.{contains-append, contains-frozenset}
use aiokafka.Consumer.Subscription.{Subscription, Assignment, new_states, all_subscribed}
use aiokafka.Consumer.SubscriptionState.{
  SubscriptionState, SubscriptionType, nothing, auto_topics, auto_pattern, user_assigned,
  is_auto_pattern,
}

-- What is subscribed to, by the kind of subscription that was asked for.
abbrev pub Kind : SubscriptionType → Option Subscription → Type 0
Kind nothing none = Unit
Kind nothing (some sub) = ⊥
Kind auto_topics none = ⊥
Kind auto_topics (some sub) = sub.manual ≡ false
Kind auto_pattern none = Unit
Kind auto_pattern (some sub) = sub.manual ≡ false
Kind user_assigned none = ⊥
Kind user_assigned (some sub) = (sub.manual ≡ true) × (is_some sub.assignment ≡ true)

-- A subscription that is in place is active, and so is its assignment.
abbrev pub AssignmentLives : Heap (Unit {0}) → ℕ → Option Assignment → Type 0
AssignmentLives h u none = Unit
AssignmentLives h u (some a) =
    (a.unassign_future < h.next) × (h.at a.unassign_future ≡ pending) × (a.unassign_future ≢ u)

abbrev pub Lives : Heap (Unit {0}) → Option Subscription → Type 0
Lives h none = Unit
Lives h (some sub) =
    (sub.unsubscribe_future < h.next)
    × (h.at sub.unsubscribe_future ≡ pending)
    × AssignmentLives h sub.unsubscribe_future sub.assignment

-- Only partitions of subscribed topics are assigned, and each has a state.
abbrev pub Assigned : List String → Option Assignment → Type 0
Assigned ts none = Unit
Assigned ts (some a) = (all_subscribed ts a.tps ≡ true) × (keys a.tp_state ≡ a.tps)

abbrev pub Covers : Option Subscription → Type 0
Covers none = Unit
Covers (some sub) = Assigned sub.topics sub.assignment

pub record IsConsistent (s : SubscriptionState) : Type 0 where
  pub kind : Kind s.subscription_type s.subscription
  pub pattern : is_some s.subscribed_pattern ≡ is_auto_pattern s.subscription_type
  pub lives : Lives s.lifetimes s.subscription
  pub covers : Covers s.subscription

pub keys-new_states : (l : List TopicPartition) (h : Heap (Unit {0})) → keys (new_states l h) ≡ l
unfolding new_states
keys-new_states [] h = refl
keys-new_states (tp ∷ l) h = ap (λ r. tp ∷ r) (keys-new_states l (alloc h))

all_subscribed-append :
    (ts : List String) (xs ys : List TopicPartition)
    → all_subscribed ts (xs ++ ys) ≡ (all_subscribed ts xs && all_subscribed ts ys)
unfolding all_subscribed
all_subscribed-append ts [] ys = refl
all_subscribed-append ts (tp ∷ xs) ys = ground (arith, all_subscribed-append ts xs ys)

pub all_subscribed-frozenset :
    (ts : List String) (xs : List TopicPartition)
    → all_subscribed ts xs ≡ true
    → all_subscribed ts (Sets.frozenset xs) ≡ true
unfolding all_subscribed Sets.frozenset Sets.add
all_subscribed-frozenset ts [] h = refl
all_subscribed-frozenset ts (tp ∷ xs) h =
    ground (
      arith,
      all_subscribed-frozenset ts xs,
      all_subscribed-append ts (Sets.frozenset xs) (tp ∷ []),
    )

all_subscribed-suffix :
    (us ts : List String) (xs : List TopicPartition)
    → all_subscribed ts xs ≡ true
    → all_subscribed (us ++ ts) xs ≡ true
unfolding all_subscribed
all_subscribed-suffix us ts [] h = refl
all_subscribed-suffix us ts (tp ∷ xs) h =
    ground (arith, all_subscribed-suffix us ts xs, contains-append us ts tp.topic)

pub all_subscribed_self :
    (xs : List TopicPartition) → all_subscribed (map (λ tp. tp.topic) xs) xs ≡ true
unfolding all_subscribed Sets.contains
all_subscribed_self [] = refl
all_subscribed_self (tp ∷ xs) = ground (
  arith,
  all_subscribed_self xs,
  ==_iff tp.topic tp.topic,
  all_subscribed-suffix (tp.topic ∷ []) (map (λ p. p.topic) xs) xs,
)

pub all_subscribed_frozen_topics :
    (ts : List String) (xs : List TopicPartition)
    → all_subscribed (Sets.frozenset ts) xs ≡ all_subscribed ts xs
unfolding all_subscribed
all_subscribed_frozen_topics ts [] = refl
all_subscribed_frozen_topics ts (tp ∷ xs) =
    ground (arith, all_subscribed_frozen_topics ts xs, contains-frozenset ts tp.topic)
