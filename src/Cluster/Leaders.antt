-- ===== src/Cluster/Leaders.antt =====
-- The leaders of the partitions and the partitions of the brokers, in the tables.
pub mod Reachable
use aiokafka.Base.{
  ℕ, ◌+◌, Bool, true, false, not, ◌&&◌, ◌||◌, Option, none, some, List, [], ◌∷◌, eqb, if◌then◌else◌,
  ℤ, pos, negsuc, eqb_ℤ, eqb_ℤ_iff, Option-cases, String, arith, ap, sym, ◌∙◌, refl, ◌≡◌, ◌≢◌, ◌⊎◌,
  inl, inr, Bool-cases, is_some,
}
use aiokafka.Base.{Exception, Result, ok, err, pure, raise, continue, ◌>>=◌, ◌>>◌}
use aiokafka.Base.Keys.{TopicPartition, tp_eq, nat_eq, int_eq, string_eq, ◌==◌, ==_iff}
use aiokafka.Base.Dict
use aiokafka.Base.Dict.{Dict, get-put}
use aiokafka.Base.Sets
use aiokafka.Base.Sets.{contains-add}
use aiokafka.Base.BrokerErrors.{for_code, no_error, topic_authorization_failed_error, error_eq}
use aiokafka.Cluster.{
  ClusterMetadata, Action, PartitionMetadata, Partitions, BrokerPartitions, leader_of, init,
  leader_for_partition, partitions_for_broker,
}
use aiokafka.Cluster.Updates.{
  listed, Tables, TopicData, PartitionData, MetadataResponse, led_by, set_leader, read_partitions,
  read_topic, read_topics, read_metadata, partitions_of, note_internal, call_listeners,
  apply_metadata, update_metadata, request_update, failed_update, add_listener, remove_listener,
  set_need_all, add_group_coordinator, add_partitions, with_partitions, with_tables, end_update,
  drop_coordinator, add_coordinator, no_brokers,
}

-- A partition with a leader is among the partitions of that broker.
abbrev pub IsLed : Partitions → BrokerPartitions → Type 0
IsLed partitions led =
    (tp : TopicPartition) (n : ℤ)
    → leader_of partitions tp ≡ some n
    → eqb_ℤ n (negsuc 0) ≡ false
    → Sets.contains (led_by led n) tp ≡ true

leader_of-put :
    (partitions : Partitions) (p : PartitionMetadata) (tp : TopicPartition)
    → leader_of
        (Dict.put partitions p.topic (Dict.put (partitions_of partitions p.topic) p.partition p))
        tp
      ≡ (if record { topic = p.topic; partition = p.partition } == tp
          then some p.leader
          else leader_of partitions tp)
unfolding Dict.get
leader_of-put partitions p tp = ground (
  arith,
  get-put partitions p.topic tp.topic (Dict.put (partitions_of partitions p.topic) p.partition p),
  get-put (partitions_of partitions p.topic) p.partition tp.partition p,
  ==_iff p.topic tp.topic,
)

contains-led_by :
    (led : BrokerPartitions) (k n : ℤ) (t tp : TopicPartition)
    → Sets.contains (led_by (Dict.put led k (Sets.add (led_by led k) t)) n) tp
      ≡ (((k == n) && (t == tp)) || Sets.contains (led_by led n) tp)
contains-led_by led k n t tp = ground (
  arith,
  get-put led k n (Sets.add (led_by led k) t),
  contains-add (led_by led k) t tp,
  ==_iff k n,
)

pub set_leader-IsLed :
    (p : PartitionMetadata) (partitions : Partitions) (led : BrokerPartitions)
    → IsLed partitions led
    → IsLed (set_leader p partitions led).0 (set_leader p partitions led).1
unfolding set_leader
set_leader-IsLed p partitions led g tp n e u =
    let t : TopicPartition = record { topic = p.topic; partition = p.partition } in
    let l : (if t == tp then some p.leader else leader_of partitions tp) ≡ some n =
      sym (leader_of-put partitions p tp) ∙ e in
    elim (Bool-cases (eqb_ℤ p.leader (negsuc 0))) [
      | inl a ↦ rw a (elim (Bool-cases (t == tp)) [
        | inl s ↦
            let m : p.leader ≡ n = ground (arith, l) in
            let c : eqb_ℤ n (negsuc 0) ≡ true = ap (λ k. eqb_ℤ k (negsuc 0)) (sym m) ∙ a in cc
        | inr s ↦ g tp n (rw s at l) u
      ])
      | inr a ↦ rw a (
          contains-led_by led p.leader n t tp ∙ elim (Bool-cases (t == tp)) [
            | inl s ↦
                let m : p.leader ≡ n = ground (arith, l) in rw (s, (==_iff p.leader n).1 m) refl
            | inr s ↦ rw (g tp n (rw s at l) u) (ground arith)
          ])
    ]

abbrev pub Good : Tables → Type 0
Good t = IsLed t.partitions t.broker_partitions

read_partitions-Good :
    (topic : String) (l : List PartitionData) (t : Tables)
    → Good t
    → Good (read_partitions topic l t)
unfolding read_partitions
read_partitions-Good topic [] t g = g
read_partitions-Good topic (p ∷ rest) t g =
    read_partitions-Good topic rest _ (set_leader-IsLed _ t.partitions t.broker_partitions g)

put-IsLed :
    (topic : String) (partitions : Partitions) (led : BrokerPartitions)
    → IsLed partitions led
    → IsLed (Dict.put partitions topic []) led
unfolding Dict.get
put-IsLed topic partitions led g tp n e u =
    g tp n (ground (arith, get-put partitions topic tp.topic [])) u

note_internal-Good :
    (b : Bool) (topic : String) (t : Tables) → Good t → Good (note_internal b topic t)
note_internal-Good true topic t g = g
note_internal-Good false topic t g = g

read_topic-Good :
    (version : ℕ) (need_all : Bool) (d : TopicData) (t : Tables)
    → Good t
    → Good (read_topic version need_all d t)
unfolding read_topic
read_topic-Good version need_all d t g = elim (Bool-cases (for_code d.error_code == no_error)) [
  | inl e ↦ rw e (read_partitions-Good d.topic d.partitions _ (put-IsLed d.topic _ _ noted-Good))
  | inr e ↦ rw e (elim (Bool-cases need_all) [
    | inl a ↦ rw a noted-Good
    | inr a ↦ rw a (elim (Bool-cases (for_code d.error_code == topic_authorization_failed_error)) [
      | inl b ↦ rw b noted-Good
      | inr b ↦ rw b noted-Good
    ])
  ])
]
  where
    noted-Good : Good (note_internal (not (eqb version 0) && d.is_internal) d.topic t)
    noted-Good = note_internal-Good (not (eqb version 0) && d.is_internal) d.topic t g

pub read_topics-Good :
    (version : ℕ) (need_all : Bool) (l : List TopicData) (t : Tables)
    → Good t
    → Good (read_topics version need_all l t)
unfolding read_topics
read_topics-Good version need_all [] t g = g
read_topics-Good version need_all (d ∷ rest) t g =
    read_topics-Good version need_all rest (read_topic version need_all d t)
      (read_topic-Good version need_all d t g)

pub add_partitions-IsLed :
    (l : List PartitionMetadata) (t u : Partitions × BrokerPartitions)
    → IsLed t.0 t.1
    → add_partitions l t ≡ ok u
    → IsLed u.0 u.1
unfolding add_partitions
add_partitions-IsLed [] t u g e = let f : t ≡ u = cc in rw (← f) g
add_partitions-IsLed (p ∷ rest) t u g e =
    add_partitions-IsLed rest (set_leader p t.0 t.1) u (set_leader-IsLed p t.0 t.1 g)
      (ground (arith, e))

pub empty-IsLed : IsLed [] []
unfolding Dict.get
empty-IsLed tp n e u = cc
