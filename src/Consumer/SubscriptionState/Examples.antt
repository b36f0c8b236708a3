-- ===== src/Consumer/SubscriptionState/Examples.antt =====
-- A run of the subscription state, and the theorems at their states.
use aiokafka.Base.{
  ◌≡◌, refl, arith, true, false, some, none, inl, [], ◌∷◌, ok, err, other, Exception,
  assertion_error, All, ◌-◌, raise,
}
use aiokafka.Base.Futures.{pending, resolved, failed}
use aiokafka.Base.Keys.{TopicPartition, tp_eq, string_eq}
use aiokafka.Base.Dict
use aiokafka.Base.Sets
use aiokafka.Consumer.Subscription.{Subscription, all_subscribed, new_assignment, unsubscribe_old}
use aiokafka.Consumer.SubscriptionState.{
  SubscriptionState, SubscriptionType, auto_topics, compatible, init, subscribe, unsubscribe,
  assign_from_subscribed,
}
use aiokafka.Consumer.SubscriptionState.{notify_subscription_waiters, notify_assignment_waiters}
use aiokafka.Consumer.SubscriptionState.Invariant.{IsConsistent}
use aiokafka.Consumer.SubscriptionState.Traces.{Reach, start, next, subscribed, Reach-IsConsistent}
use aiokafka.Consumer.SubscriptionState.Outcomes.{
  Over, AssignmentOver, IsNew, subscribe_replaces, unsubscribe_ends, assign_from_subscribed_lem,
}
use aiokafka.Consumer.SubscriptionState.Waiters.{
  Settled, enter_fetch, fetch_context, fetcher_idle_time, abort_waiters, notify_waiters_answered,
  abort_waiters_drops, fetch_context_lem,
}

abbrev tp0 : TopicPartition
tp0 = record { topic = "a"; partition = 0 }

abbrev fresh : SubscriptionState
fresh = init 0

abbrev first : SubscriptionState
first = (subscribe ("a" ∷ []) none fresh).1

abbrev sub0 : Subscription
sub0 = record {
  manual = false;
  topics = "a" ∷ [];
  assignment = none;
  unsubscribe_future = 0;
  reassignment_in_progress = true;
}

Reach-first : Reach 0 first
Reach-first = next start (subscribed ("a" ∷ []) none)

Reach-IsConsistent_example : IsConsistent first
Reach-IsConsistent_example = Reach-IsConsistent 0 Reach-first

subscribe_replaces_example :
    ((subscribe ("b" ∷ []) none first).0 ≡ ok tt)
    × Over (subscribe ("b" ∷ []) none first).1.lifetimes first.subscription
    × ((subscribe ("b" ∷ []) none first).1.subscription
        ≡ some (record {
          manual = false;
          topics = Sets.frozenset ("b" ∷ []);
          assignment = none;
          unsubscribe_future = first.lifetimes.next;
          reassignment_in_progress = true;
        }))
    × ((subscribe ("b" ∷ []) none first).1.lifetimes.at first.lifetimes.next ≡ pending)
    × ((subscribe ("b" ∷ []) none first).1.subscription_type ≡ auto_topics)
    × ((subscribe ("b" ∷ []) none first).1.listener ≡ none)
    × ((subscribe ("b" ∷ []) none first).1.subscription_waiters ≡ [])
unfolding init subscribe unsubscribe_old
subscribe_replaces_example =
    subscribe_replaces ("b" ∷ []) none first Reach-IsConsistent_example refl

unsubscribe_ends_example :
    ((unsubscribe first).0 ≡ ok tt)
    × Over (unsubscribe first).1.lifetimes first.subscription
    × ((unsubscribe first).1.subscription ≡ none)
    × ((t : SubscriptionType) → compatible (unsubscribe first).1.subscription_type t ≡ true)
unsubscribe_ends_example = unsubscribe_ends first Reach-IsConsistent_example

assign_from_subscribed_lem_example :
    (all_subscribed sub0.topics (tp0 ∷ []) ≡ true
      → ((assign_from_subscribed (tp0 ∷ []) first).0 ≡ ok tt)
        × AssignmentOver (assign_from_subscribed (tp0 ∷ []) first).1.lifetimes sub0.assignment
        × ((assign_from_subscribed (tp0 ∷ []) first).1.subscription
            ≡ some (record sub0 {
              assignment = some (new_assignment (tp0 ∷ []) first.lifetimes first.futures);
              reassignment_in_progress = false;
            }))
        × ((tp : TopicPartition)
            → Sets.contains (tp0 ∷ []) tp ≡ true
            → IsNew
                (Dict.get (new_assignment (tp0 ∷ []) first.lifetimes first.futures).tp_state tp)))
    × (all_subscribed sub0.topics (tp0 ∷ []) ≡ false
        → assign_from_subscribed (tp0 ∷ []) first ≡ (err assertion_error, first))
unfolding init subscribe unsubscribe_old Sets.frozenset Sets.add Sets.contains
assign_from_subscribed_lem_example =
    assign_from_subscribed_lem (tp0 ∷ []) first sub0 Reach-IsConsistent_example (inl refl) refl

-- Waiter 0 waits for a subscription, waiter 1 for an assignment and waiter 2 for a fetch.
abbrev waiting : SubscriptionState
waiting = record fresh {
  subscription_waiters = 0 ∷ [];
  assignment_waiters = 1 ∷ [];
  fetch_waiters = some (2 ∷ []);
}

notify_waiters_answered_example :
    All
      (Settled (resolved tt) waiting.waiters (notify_subscription_waiters waiting).1.waiters)
      waiting.subscription_waiters
    × ((notify_subscription_waiters waiting).1.subscription_waiters ≡ [])
    × All
        (Settled (resolved tt) waiting.waiters (notify_assignment_waiters waiting).1.waiters)
        waiting.assignment_waiters
    × ((notify_assignment_waiters waiting).1.assignment_waiters ≡ [])
notify_waiters_answered_example = notify_waiters_answered waiting

abort_waiters_drops_example :
    let aborted = abort_waiters (other 1) waiting in
    (aborted.0 ≡ ok tt)
    × All (Settled (failed (other 1)) waiting.waiters aborted.1.waiters) (1 ∷ [])
    × All (Settled (failed (other 1)) waiting.waiters aborted.1.waiters) (2 ∷ [])
    × (aborted.1.waiters.at 0 ≡ pending)
    × (aborted.1.subscription_waiters ≡ [])
    × (aborted.1.assignment_waiters ≡ 1 ∷ [])
unfolding init
abort_waiters_drops_example =
    abort_waiters_drops (other 1) (2 ∷ []) 0 waiting refl refl (omega arith, tt) (omega arith, tt)

fetch_context_lem_example :
    ((raise {A = Unit {0}} (other 1) (enter_fetch fresh)).0 ≡ ok tt
      → fetcher_idle_time 9 (fetch_context 5 (raise (other 1)) fresh).1 ≡ 9 - 5)
    × ((exc : Exception)
        → (raise {A = Unit {0}} (other 1) (enter_fetch fresh)).0 ≡ err exc
        → ((fetch_context 5 (raise (other 1)) fresh).0 ≡ err exc)
          × (fetcher_idle_time 9 (fetch_context 5 (raise (other 1)) fresh).1 ≡ 0))
unfolding init enter_fetch
fetch_context_lem_example = fetch_context_lem 5 9 (raise (other 1)) fresh refl refl
