-- ===== src/Cluster/Leaders/Reachable.antt =====
-- The leaders of the partitions and the partitions of the brokers, whatever the client does.
use aiokafka.Base.{
  ℕ, Bool, true, false, Option, none, some, List, [], ◌∷◌, ℤ, negsuc, eqb_ℤ_iff, Option-cases,
  String, arith, ap, sym, ◌∙◌, refl, ◌≡◌, ◌≢◌, inl, inr, Bool-cases, is_some,
}
use aiokafka.Base.{Result, ok, err, continue}
use aiokafka.Base.Keys.{TopicPartition, tp_eq, nat_eq, int_eq, string_eq}
use aiokafka.Base.Dict
use aiokafka.Base.Dict.{Dict, get-put}
use aiokafka.Base.Sets
use aiokafka.Base.Sets.{contains-add}
use aiokafka.Base.BrokerErrors.{error_eq}
use aiokafka.Cluster.{
  ClusterMetadata, Action, PartitionMetadata, Partitions, BrokerPartitions, init,
  leader_for_partition, partitions_for_broker,
}
use aiokafka.Cluster.Updates.{
  listed, MetadataResponse, led_by, read_metadata, call_listeners, apply_metadata, update_metadata,
  request_update, failed_update, add_listener, remove_listener, set_need_all, add_group_coordinator,
  add_partitions, with_partitions, with_tables, end_update, drop_coordinator, add_coordinator,
  no_brokers,
}
use aiokafka.Cluster.Leaders.{IsLed, read_topics-Good, add_partitions-IsLed, empty-IsLed}

-- What a method leaves behind.
abbrev pub Sound : ClusterMetadata → Type 0
Sound s = IsLed s.partitions s.broker_partitions

read_metadata-Sound :
    (metadata : MetadataResponse) (s : ClusterMetadata) → Sound (read_metadata metadata s)
unfolding read_metadata
read_metadata-Sound metadata s =
    read_topics-Good metadata.api_version s.need_all_topic_metadata metadata.topics _ empty-IsLed

-- A method that leaves both tables alone.
abbrev Keeps : ClusterMetadata → ClusterMetadata → Type 0
Keeps s t = (t.partitions ≡ s.partitions) × (t.broker_partitions ≡ s.broker_partitions)

Keeps-Sound : (s t : ClusterMetadata) → Keeps s t → Sound s → Sound t
Keeps-Sound s t (a, b) g = rw (a, b) g

request_update-Keeps : (s : ClusterMetadata) → Keeps s (request_update s).1
unfolding request_update
request_update-Keeps s = ground arith

failed_update-Keeps : (now : ℕ) (s : ClusterMetadata) → Keeps s (failed_update now s).1
unfolding failed_update
failed_update-Keeps now s = ground arith

remove_listener-Keeps : (l : ℕ) (s : ClusterMetadata) → Keeps s (remove_listener l s).1
unfolding remove_listener
remove_listener-Keeps l s = ground arith

add_group_coordinator-Keeps :
    (group : String) (error_code id : ℤ) (host : String) (port : ℕ) (s : ClusterMetadata)
    → Keeps s (add_group_coordinator group error_code id host port s).1
unfolding add_group_coordinator
add_group_coordinator-Keeps group error_code id host port s = ground arith

add_coordinator-Keeps :
    (id : ℤ) (host : String) (port : ℕ) (rack : Option String) (purpose : ℕ) (s : ClusterMetadata)
    → Keeps s (add_coordinator id host port rack purpose s).1
unfolding add_coordinator drop_coordinator
add_coordinator-Keeps id host port rack purpose s = ground arith

with_tables-Sound :
    (s fresh t : ClusterMetadata) (r : Result (Partitions × BrokerPartitions))
    → ((u : Partitions × BrokerPartitions) → r ≡ ok u → IsLed u.0 u.1)
    → with_tables s fresh r ≡ ok t
    → Sound t
with_tables-Sound s fresh t (err x) g e = cc
with_tables-Sound s fresh t (ok u) g e =
    let p : t.partitions ≡ u.0 = ground (arith, e) in
    let b : t.broker_partitions ≡ u.1 = ground (arith, e) in rw (p, b) (g u refl)

with_partitions-Sound :
    (hosts : List (String × ℕ)) (l : List PartitionMetadata) (s t : ClusterMetadata)
    → Sound s
    → with_partitions hosts l s ≡ ok t
    → Sound t
unfolding with_partitions
with_partitions-Sound hosts l s t g e =
    with_tables-Sound s (init hosts) t (add_partitions l (s.partitions, s.broker_partitions))
      (λ u f. add_partitions-IsLed l (s.partitions, s.broker_partitions) u g f) e

end_update-Sound :
    (r : Result (Unit {0})) (s : ClusterMetadata)
    → Sound s
    → Sound (continue r (λ u. end_update) s).1
end_update-Sound (err e) s g = g
end_update-Sound (ok u) s g = elim (Bool-cases s.need_all_topic_metadata) [
  | inl e ↦ rw e g
  | inr e ↦ rw e g
]

module _ (call : ℕ → Action (Unit {0}))
    (keeps : (l : ℕ) (s : ClusterMetadata) → Sound s → Sound (call l s).1) where
  next_listener :
      (rest : List ℕ) (r : Result (Unit {0})) (s : ClusterMetadata)
      → ((s : ClusterMetadata) → Sound s → Sound (call_listeners call rest s).1)
      → Sound s
      → Sound (continue r (λ u. call_listeners call rest) s).1
  next_listener rest (ok u) s k g = k s g
  next_listener rest (err e) s k g = g

  call_listeners-Sound :
      (l : List ℕ) (s : ClusterMetadata) → Sound s → Sound (call_listeners call l s).1
  unfolding call_listeners
  call_listeners-Sound [] s g = g
  call_listeners-Sound (x ∷ rest) s g =
      next_listener rest (call x s).0 (call x s).1 (call_listeners-Sound rest) (keeps x s g)

  apply_metadata-Sound :
      (now : ℕ) (metadata : MetadataResponse) (s : ClusterMetadata)
      → Sound (apply_metadata call now metadata s).1
  unfolding apply_metadata
  apply_metadata-Sound now metadata s =
      let t : ClusterMetadata = record (read_metadata metadata s) {
        future = none;
        need_update = false;
        last_refresh_ms = now;
        last_successful_refresh_ms = now;
      } in
      elim (Bool-cases (is_some (read_metadata metadata s).future)) [
        | inl e ↦ rw e (read_metadata-Sound metadata s)
        | inr e ↦ rw e (
            end_update-Sound (call_listeners call t.listeners t).0
              (call_listeners call t.listeners t).1
              (call_listeners-Sound t.listeners t (read_metadata-Sound metadata s)))
      ]

  update_metadata-Sound :
      (now : ℕ) (metadata : MetadataResponse) (s : ClusterMetadata)
      → Sound s
      → Sound (update_metadata call now metadata s).1
  unfolding update_metadata
  update_metadata-Sound now metadata s g = elim (Bool-cases (no_brokers metadata.brokers)) [
    | inl e ↦ rw e (Keeps-Sound s (failed_update now s).1 (failed_update-Keeps now s) g)
    | inr e ↦ rw e (apply_metadata-Sound now metadata s)
  ]

module _ (call : ℕ → Action (Unit {0})) where
  -- What the client does with its metadata, in any order. A copy with partitions is one to go on with.
  pub data Step (s : ClusterMetadata) : ClusterMetadata → Type 0 where
    updates :
        (now : ℕ) (metadata : MetadataResponse) → Step s (update_metadata call now metadata s).1
    fails : (now : ℕ) → Step s (failed_update now s).1
    requests : Step s (request_update s).1
    adds_listener : (l : ℕ) → Step s (add_listener l s).1
    removes_listener : (l : ℕ) → Step s (remove_listener l s).1
    needs_all : (all : Bool) → Step s (set_need_all all s).1
    adds_group :
        (group : String) (error_code id : ℤ) (host : String) (port : ℕ)
        → Step s (add_group_coordinator group error_code id host port s).1
    adds_coordinator :
        (id : ℤ) (host : String) (port : ℕ) (rack : Option String) (purpose : ℕ)
        → Step s (add_coordinator id host port rack purpose s).1
    copies :
        (hosts : List (String × ℕ)) (l : List PartitionMetadata) (t : ClusterMetadata)
        → with_partitions hosts l s ≡ ok t
        → Step s t

  pub data Reach (hosts : List (String × ℕ)) : ClusterMetadata → Type 0 where
    start : Reach hosts (init hosts)
    next : {s t : ClusterMetadata} → Reach hosts s → Step s t → Reach hosts t

module _ (call : ℕ → Action (Unit {0}))
    (keeps : (l : ℕ) (s : ClusterMetadata) → Sound s → Sound (call l s).1) where
  Step-Sound : {s t : ClusterMetadata} → Sound s → Step call s t → Sound t
  unfolding add_listener set_need_all
  Step-Sound {s} g (updates now metadata) = update_metadata-Sound call keeps now metadata s g
  Step-Sound {s} g (fails now) = Keeps-Sound s (failed_update now s).1 (failed_update-Keeps now s) g
  Step-Sound {s} g requests = Keeps-Sound s (request_update s).1 (request_update-Keeps s) g
  Step-Sound {s} g (adds_listener l) = g
  Step-Sound {s} g (removes_listener l) =
      Keeps-Sound s (remove_listener l s).1 (remove_listener-Keeps l s) g
  Step-Sound {s} g (needs_all all) = g
  Step-Sound {s} g (adds_group group code id host port) =
      Keeps-Sound s (add_group_coordinator group code id host port s).1
        (add_group_coordinator-Keeps group code id host port s) g
  Step-Sound {s} g (adds_coordinator id host port rack purpose) =
      Keeps-Sound s (add_coordinator id host port rack purpose s).1
        (add_coordinator-Keeps id host port rack purpose s) g
  Step-Sound {s} g (copies hosts l t e) = with_partitions-Sound hosts l s t g e

  Reach-Sound : {hosts : List (String × ℕ)} {s : ClusterMetadata} → Reach call hosts s → Sound s
  unfolding init
  Reach-Sound start = empty-IsLed
  Reach-Sound (next r step) = Step-Sound (Reach-Sound r) step

-- Whatever the client does with its metadata, in any order, and also where a method raises: a partition that
-- has a leader is among the partitions of that broker, so far as the listeners leave that so.
pub leader_for_partition-Reach :
    (call : ℕ → Action (Unit {0}))
    → ((l : ℕ) (s : ClusterMetadata) → Sound s → Sound (call l s).1)
    → (hosts : List (String × ℕ)) (s : ClusterMetadata) → Reach call hosts s
    → (tp : TopicPartition) (n : ℤ) → leader_for_partition tp s ≡ some n
    → n ≢ negsuc 0
    → (l : List TopicPartition) × (partitions_for_broker n s ≡ some l) × (Sets.contains l tp ≡ true)
unfolding leader_for_partition partitions_for_broker Sets.contains
leader_for_partition-Reach call keeps hosts s r tp n e u =
    let c : Sets.contains (led_by s.broker_partitions n) tp ≡ true =
      Reach-Sound call keeps r tp n e (ground (arith, eqb_ℤ_iff n (negsuc 0))) in
    elim (Option-cases (Dict.get s.broker_partitions n)) [
      | inl o ↦
          let d : Sets.contains [] tp ≡ true =
            ap (λ (o : Option (List TopicPartition)). Sets.contains (listed o) tp) (sym o) ∙ c in
          cc
      | inr (l, o) ↦
          (l, o, ap (λ (o : Option (List TopicPartition)). Sets.contains (listed o) tp) (sym o) ∙ c)
    ]
