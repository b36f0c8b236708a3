-- ===== src/Cluster/Updates.antt =====
-- The methods of ClusterMetadata in aiokafka/cluster.py that change it.
use aiokafka.Base.{
  ℕ, ◌+◌, Bool, true, false, not, ◌&&◌, Option, none, some, List, [], ◌∷◌, eqb, if◌then◌else◌, ℤ,
  negsuc, eqb_ℤ, String, is_some,
}
use aiokafka.Base.{
  Result, ok, err, pure, raise, gets, modify, ◌>>=◌, ◌>>◌, key_error, attribute_error,
}
use aiokafka.Base.Keys.{TopicPartition, tp_eq, nat_eq, int_eq, string_eq, ◌==◌}
use aiokafka.Base.Dict
use aiokafka.Base.Dict.{Dict, keys}
use aiokafka.Base.Sets
use aiokafka.Base.BrokerErrors.{for_code, no_error, topic_authorization_failed_error, error_eq}
use aiokafka.Cluster.{
  Action, BrokerMetadata, BrokerPartitions, ClusterMetadata, NodeId, PartitionMetadata, Partitions,
  coordinator, node, init, node_eq,
}

-- `concurrent.futures.Future` has no attribute `is_done`, `success` or `failure`.
unfoldable pub request_update : Action ℕ
request_update = do
  modify (λ s. record s { need_update = true })
  waits ← gets (λ s. is_some s.future)
  if waits then raise attribute_error else pure tt
  fut ← gets (λ s. s.next_future)
  modify (λ s. record s { future = some fut; next_future = fut + 1 })
  pure fut

unfoldable pub failed_update : ℕ → Action (Unit {0})
failed_update now = do
  waits ← gets (λ s. is_some s.future)
  modify (λ s. record s { future = none })
  if waits then raise attribute_error else pure tt
  modify (λ s. record s { last_refresh_ms = now })

-- The answer to a metadata request.
pub record PartitionData : Type 0 where
  pub error : ℤ
  pub partition : ℕ
  pub leader : ℤ
  pub replicas : List ℤ
  pub isr : List ℤ

pub record TopicData : Type 0 where
  pub error_code : ℤ
  pub topic : String
  -- from version 1 on
  pub is_internal : Bool
  pub partitions : List PartitionData

pub record BrokerData : Type 0 where
  pub node_id : ℤ
  pub host : String
  pub port : ℕ
  -- from version 1 on
  pub rack : Option String

pub record MetadataResponse : Type 0 where
  pub api_version : ℕ
  pub brokers : List BrokerData
  -- from version 1 on
  pub controller_id : ℤ
  pub topics : List TopicData

-- What the loop over the topics fills.
pub record Tables : Type 0 where
  pub partitions : Partitions
  pub broker_partitions : BrokerPartitions
  pub unauthorized_topics : List String
  pub internal_topics : List String

read_brokers : ℕ → List BrokerData → Dict NodeId BrokerMetadata → Dict NodeId BrokerMetadata
read_brokers version [] found = found
read_brokers version (b ∷ rest) found = read_brokers version rest (
    Dict.put found (node b.node_id) (record {
      node_id = node b.node_id;
      host = b.host;
      port = b.port;
      rack = if eqb version 0 then none else b.rack;
    }))

abbrev pub partitions_of : Partitions → String → Dict ℕ PartitionMetadata
partitions_of partitions topic = elim (Dict.get partitions topic) [ none ↦ [] | some d ↦ d ]

abbrev pub listed : Option (List TopicPartition) → List TopicPartition
listed none = []
listed (some l) = l

-- `broker_partitions[leader]`, in a defaultdict
abbrev pub led_by : BrokerPartitions → ℤ → List TopicPartition
led_by led leader = listed (Dict.get led leader)

-- A partition with its leader.
unfoldable pub set_leader :
    PartitionMetadata → Partitions → BrokerPartitions → Partitions × BrokerPartitions
set_leader p partitions led =
    let tp : TopicPartition = record { topic = p.topic; partition = p.partition } in
    (
      Dict.put partitions p.topic (Dict.put (partitions_of partitions p.topic) p.partition p),
      if eqb_ℤ p.leader (negsuc 0)
          then led
          else Dict.put led p.leader (Sets.add (led_by led p.leader) tp),
    )

unfoldable pub read_partitions : String → List PartitionData → Tables → Tables
read_partitions topic [] t = t
read_partitions topic (p ∷ rest) t =
    let r =
      set_leader
        (record {
          topic = topic;
          partition = p.partition;
          leader = p.leader;
          replicas = p.replicas;
          isr = p.isr;
          error = p.error;
        })
        t.partitions t.broker_partitions in
    read_partitions topic rest (record t { partitions = r.0; broker_partitions = r.1 })

abbrev pub note_internal : Bool → String → Tables → Tables
note_internal is_internal topic t =
    if is_internal then record t { internal_topics = Sets.add t.internal_topics topic } else t

unfoldable pub read_topic : ℕ → Bool → TopicData → Tables → Tables
read_topic version need_all d t =
    let t = note_internal (not (eqb version 0) && d.is_internal) d.topic t in
    let error_type = for_code d.error_code in
    if error_type == no_error
    then read_partitions d.topic d.partitions
        (record t { partitions = Dict.put t.partitions d.topic [] })
    else if need_all
    then t
    else if error_type == topic_authorization_failed_error
    then record t { unauthorized_topics = Sets.add t.unauthorized_topics d.topic }
    else t

unfoldable pub read_topics : ℕ → Bool → List TopicData → Tables → Tables
read_topics version need_all [] t = t
read_topics version need_all (d ∷ rest) t =
    read_topics version need_all rest (read_topic version need_all d t)

-- The tables that an answer replaces.
unfoldable pub read_metadata : MetadataResponse → ClusterMetadata → ClusterMetadata
unfolding read_brokers
read_metadata metadata s =
    let brokers = read_brokers metadata.api_version metadata.brokers [] in
    let t = read_topics metadata.api_version s.need_all_topic_metadata metadata.topics (record {
      partitions = [];
      broker_partitions = [];
      unauthorized_topics = [];
      internal_topics = [];
    }) in
    record s {
      brokers = brokers;
      controller =
          if eqb metadata.api_version 0
          then none
          else Dict.get brokers (node metadata.controller_id);
      partitions = t.partitions;
      broker_partitions = t.broker_partitions;
      unauthorized_topics = t.unauthorized_topics;
      internal_topics = t.internal_topics;
    }

abbrev pub no_brokers : List BrokerData → Bool
no_brokers [] = true
no_brokers (b ∷ rest) = false

-- After an answer for all topics no other is needed, whatever a listener asked for.
abbrev pub end_update : Action (Unit {0})
end_update = do
  all ← gets (λ s. s.need_all_topic_metadata)
  if all then modify (λ s. record s { need_update = false }) else pure tt

module _ (call : ℕ → Action (Unit {0})) where
  unfoldable pub call_listeners : List ℕ → Action (Unit {0})
  call_listeners [] = pure tt
  call_listeners (l ∷ rest) = do call l; call_listeners rest

  unfoldable pub apply_metadata : ℕ → MetadataResponse → Action (Unit {0})
  unfolding call_listeners
  apply_metadata now metadata = do
    modify (read_metadata metadata)
    waits ← gets (λ s. is_some s.future)
    modify (λ s. record s {
      future = none;
      need_update = false;
      last_refresh_ms = now;
      last_successful_refresh_ms = now;
    })
    if waits then raise attribute_error else pure tt
    listeners ← gets (λ s. s.listeners)
    call_listeners listeners
    end_update

  unfoldable pub update_metadata : ℕ → MetadataResponse → Action (Unit {0})
  update_metadata now metadata =
      if no_brokers metadata.brokers then failed_update now else apply_metadata now metadata

unfoldable pub add_listener : ℕ → Action (Unit {0})
add_listener l = modify (λ s. record s { listeners = Sets.add s.listeners l })

unfoldable pub remove_listener : ℕ → Action (Unit {0})
remove_listener l = do
  known ← gets (λ s. Sets.contains s.listeners l)
  if known then pure tt else raise key_error
  modify (λ s. record s { listeners = Sets.discard s.listeners l })

-- `self.need_all_topic_metadata = ...`, which the client sets.
unfoldable pub set_need_all : Bool → Action (Unit {0})
set_need_all all = modify (λ s. record s { need_all_topic_metadata = all })

-- The answer says who coordinates a group, if its error code is that of no error.
unfoldable pub add_group_coordinator : String → ℤ → ℤ → String → ℕ → Action (Option NodeId)
add_group_coordinator group error_code coordinator_id host port =
    if for_code error_code == no_error
    then (do
      modify (λ s. record s {
        coordinator_brokers = Dict.put s.coordinator_brokers (coordinator coordinator_id) (record {
          node_id = coordinator coordinator_id;
          host = host;
          port = port;
          rack = none;
        });
        groups = Dict.put s.groups group (coordinator coordinator_id);
      })
      pure (some (coordinator coordinator_id)))
    else (do
      modify (λ s. record s { groups = Dict.put s.groups group (node (negsuc 0)) })
      pure none)

unfoldable pub add_partitions :
    List PartitionMetadata → Partitions × BrokerPartitions → Result (Partitions × BrokerPartitions)
add_partitions [] t = ok t
add_partitions (p ∷ rest) t =
    let later = add_partitions rest (set_leader p t.0 t.1) in
    if is_some (Dict.get t.0 p.topic) then later else err key_error

abbrev pub with_tables :
    ClusterMetadata
    → ClusterMetadata
    → Result (Partitions × BrokerPartitions)
    → Result ClusterMetadata
with_tables s fresh (err e) = err e
with_tables s fresh (ok t) = ok (record fresh {
  brokers = s.brokers;
  partitions = t.0;
  broker_partitions = t.1;
  groups = s.groups;
  internal_topics = s.internal_topics;
  unauthorized_topics = s.unauthorized_topics;
})

-- A copy with partitions added, at the hosts that `collect_hosts` gives this time.
unfoldable pub with_partitions :
    List (String × ℕ) → List PartitionMetadata → ClusterMetadata → Result ClusterMetadata
with_partitions hosts partitions_to_add s =
    with_tables s (init hosts)
      (add_partitions partitions_to_add (s.partitions, s.broker_partitions))

unfoldable pub coordinator_metadata : ℤ → ClusterMetadata → Option BrokerMetadata
coordinator_metadata node_id s = Dict.get s.coordinators node_id

-- `del self._coordinators[self._coordinator_by_key.pop(purpose)]`
unfoldable pub drop_coordinator : ℕ → Option ℤ → Action (Unit {0})
drop_coordinator purpose none = pure tt
drop_coordinator purpose (some old_id) = do
  modify (λ s. record s { coordinator_by_key = Dict.remove s.coordinator_by_key purpose })
  known ← gets (λ s. is_some (Dict.get s.coordinators old_id))
  if known then pure tt else raise key_error
  modify (λ s. record s { coordinators = Dict.remove s.coordinators old_id })

unfoldable pub add_coordinator : ℤ → String → ℕ → Option String → ℕ → Action (Unit {0})
unfolding drop_coordinator
add_coordinator node_id host port rack purpose = do
  old ← gets (λ s. Dict.get s.coordinator_by_key purpose)
  drop_coordinator purpose old
  modify (λ s. record s {
    coordinators =
        Dict.put s.coordinators node_id
          (record { node_id = node node_id; host = host; port = port; rack = rack });
    coordinator_by_key = Dict.put s.coordinator_by_key purpose node_id;
  })
