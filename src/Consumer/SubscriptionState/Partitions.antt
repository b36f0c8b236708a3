-- ===== src/Consumer/SubscriptionState/Partitions.antt =====
-- The methods of SubscriptionState and Assignment that go on to one assigned partition.
use aiokafka.Base.{Option, none, some, List, [], ◌∷◌, ℤ}
use aiokafka.Base.{Result, ok, err, Exec, raise, ◌≡◌, refl, ap, ◌∙◌}
use aiokafka.Base.{assertion_error, illegal_state_error, if◌then◌else◌}
use aiokafka.Base.Keys.{TopicPartition, tp_eq, ◌==◌}
use aiokafka.Base.Dict
use aiokafka.Base.Dict.{Dict, get-put}
use aiokafka.Consumer.PartitionState.{TopicPartitionState, OffsetAndMetadata, Held, Method}
use aiokafka.Consumer.PartitionState
use aiokafka.Consumer.Subscription.{Subscription, Assignment}
use aiokafka.Consumer.SubscriptionState.{
  SubscriptionState, Action, assignment_of, assigned_partitions,
}

-- `self._assigned_state(tp)`, of a subscription that is there.
pub assigned_state : Option Assignment → TopicPartition → Result TopicPartitionState
assigned_state none tp = err assertion_error
assigned_state (some a) tp = elim (Dict.get a.tp_state tp) [
  | none ↦ err illegal_state_error
  | some p ↦ ok p
]

-- A partition with the heaps and the event that its methods reach.
abbrev pub hold : SubscriptionState → Assignment → TopicPartitionState → Held
hold s a p = record {
  futures = s.futures;
  commits = s.commits;
  refresh = a.commit_refresh_needed;
  it = p;
}

abbrev pub put_back :
    SubscriptionState → Subscription → Assignment → TopicPartition → Held → SubscriptionState
put_back s sub a tp h = record s {
  futures = h.futures;
  commits = h.commits;
  subscription = some (record sub {
    assignment =
        some
          (record a { tp_state = Dict.put a.tp_state tp h.it; commit_refresh_needed = h.refresh });
  });
}

unfoldable pub on_state :
    {A : Type 0}
    → Subscription
    → Assignment
    → TopicPartition
    → Method A
    → Option TopicPartitionState
    → Exec SubscriptionState A
on_state sub a tp m none s = (err illegal_state_error, s)
on_state sub a tp m (some p) s = ((m (hold s a p)).0, put_back s sub a tp (m (hold s a p)).1)

unfoldable pub on_assignment :
    {A : Type 0}
    → Subscription
    → TopicPartition
    → Method A
    → Option Assignment
    → Exec SubscriptionState A
unfolding on_state
on_assignment sub tp m none = raise assertion_error
on_assignment sub tp m (some a) = on_state sub a tp m (Dict.get a.tp_state tp)

unfoldable pub on_subscription :
    {A : Type 0} → TopicPartition → Method A → Option Subscription → Exec SubscriptionState A
unfolding on_assignment
on_subscription tp m none = raise assertion_error
on_subscription tp m (some sub) = on_assignment sub tp m sub.assignment

-- `self._assigned_state(tp).m(...)`
unfoldable pub on_partition : {A : Type 0} → TopicPartition → Method A → Exec SubscriptionState A
unfolding on_subscription
on_partition tp m s = on_subscription tp m s.subscription s

pub seek : TopicPartition → ℤ → Action
seek tp offset = on_partition tp (PartitionState.seek offset)

pub pause : TopicPartition → Action
pause tp = on_partition tp PartitionState.pause

pub resume : TopicPartition → Action
resume tp = on_partition tp PartitionState.resume

-- The loop over `self.assigned_partitions()`: a partition with no state raises.
paused_of : Option Assignment → List TopicPartition → Result (List TopicPartition)
paused_of a [] = ok []
paused_of a (tp ∷ tps) =
    let rest = paused_of a tps in
    elim (assigned_state a tp) [
      | err e ↦ err e
      | ok p ↦ elim rest [ err e ↦ err e | ok res ↦ ok (if p.paused then tp ∷ res else res) ]
    ]

pub paused_partitions : SubscriptionState → Result (List TopicPartition)
unfolding paused_of
paused_partitions s = paused_of (assignment_of s.subscription) (assigned_partitions s)

-- `Assignment.all_consumed_offsets`: the partitions that have a position, each with its position.
-- (`state_value` of an assigned partition is never None.)
consumed_of :
    Dict TopicPartition TopicPartitionState
    → List TopicPartition
    → Dict TopicPartition OffsetAndMetadata
consumed_of states [] = []
consumed_of states (tp ∷ tps) =
    let rest = consumed_of states tps in
    elim (Dict.get states tp) [
      | none ↦ rest
      | some p ↦ elim p.position [
        | none ↦ rest
        | some position ↦ (tp, record { offset = position; metadata = "" }) ∷ rest
      ]
    ]

pub all_consumed_offsets : Assignment → Dict TopicPartition OffsetAndMetadata
unfolding consumed_of
all_consumed_offsets a = consumed_of a.tp_state a.tps

-- `Assignment.requesting_committed`
requesting_of : Dict TopicPartition TopicPartitionState → List TopicPartition → List TopicPartition
requesting_of states [] = []
requesting_of states (tp ∷ tps) =
    let rest = requesting_of states tps in
    elim (Dict.get states tp) [
      | none ↦ rest
      | some p ↦ elim p.committed_futs [ [] ↦ rest | f ∷ fs ↦ tp ∷ rest ]
    ]

pub requesting_committed : Assignment → List TopicPartition
unfolding requesting_of
requesting_committed a = requesting_of a.tp_state a.tps

-- The state of a partition, if it is assigned.
abbrev pub state_of : Option Assignment → TopicPartition → Option TopicPartitionState
state_of none tp = none
state_of (some a) tp = Dict.get a.tp_state tp

-- A call on a partition that is not assigned raises and changes nothing: IllegalStateError under an
-- assignment, an assertion without one. On an assigned partition the method runs on that partition's
-- state and leaves the states of all others alone.
pub on_partition_lem :
    {A : Type 0} (tp : TopicPartition) (m : Method A) (s : SubscriptionState)
    → (assignment_of s.subscription ≡ none → on_partition tp m s ≡ (err assertion_error, s))
      × ((sub : Subscription) (a : Assignment)
          → s.subscription ≡ some sub
          → sub.assignment ≡ some a
          → (Dict.get a.tp_state tp ≡ none → on_partition tp m s ≡ (err illegal_state_error, s))
            × ((p : TopicPartitionState)
                → Dict.get a.tp_state tp ≡ some p
                → ((on_partition tp m s).0 ≡ (m (hold s a p)).0)
                  × ((j : TopicPartition)
                      → state_of (assignment_of (on_partition tp m s).1.subscription) j
                        ≡ (if tp == j then some (m (hold s a p)).1.it else Dict.get a.tp_state j))))
unfolding on_partition
on_partition_lem tp m s = (
  λ h. no_assignment s.subscription h,
  λ sub a e e'. (
    λ h. ran sub a e e' ∙ ap (λ o. on_state sub a tp m o s) h,
    λ p h.
        let r : on_partition tp m s ≡ on_state sub a tp m (some p) s =
          ran sub a e e' ∙ ap (λ o. on_state sub a tp m o s) h in
        (ap (λ x. x.0) r, λ j. rw r (get-put a.tp_state tp j (m (hold s a p)).1.it)),
  ),
)
  where
    no_assignment :
        (o : Option Subscription)
        → assignment_of o ≡ none
        → on_subscription tp m o s ≡ (err assertion_error, s)
    no_assignment none h = refl
    no_assignment (some sub) h = ap (λ o. on_assignment sub tp m o s) h

    ran :
        (sub : Subscription) (a : Assignment)
        → s.subscription ≡ some sub
        → sub.assignment ≡ some a
        → on_partition tp m s ≡ on_state sub a tp m (Dict.get a.tp_state tp) s
    ran sub a e e' = ap (λ o. on_subscription tp m o s) e ∙ ap (λ o. on_assignment sub tp m o s) e'
