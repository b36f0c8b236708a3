-- ===== src/Cluster.antt =====
-- The class ClusterMetadata of aiokafka/cluster.py: the brokers, the leaders of the partitions and the
-- coordinators that the client knows. The clock and the listeners are arguments.
pub mod Updates
pub mod Leaders
pub mod Coordinators
mod Examples
use aiokafka.Base.{
  ℕ, ◌+◌, Bool, true, false, not, ◌&&◌, Option, none, some, List, [], ◌∷◌, eqb, eqb_iff,
  if◌then◌else◌, ℤ, pos, negsuc, eqb_ℤ, eqb_ℤ_iff, String, arith, ap, ◌≡◌, ◌↔◌, is_some, map,
}
use aiokafka.Base.{
  Exception, Result, ok, err, Exec, pure, raise, gets, modify, continue, ◌>>=◌, ◌>>◌, key_error,
  attribute_error,
}
use aiokafka.Base.Keys.{Eq, TopicPartition, tp_eq, nat_eq, int_eq, string_eq, ◌==◌}
use aiokafka.Base.Dict
use aiokafka.Base.Dict.{Dict, keys}
use aiokafka.Base.Sets
use aiokafka.Base.BrokerErrors.{
  BrokerResponseError, for_code, no_error, topic_authorization_failed_error, error_eq,
}

-- A number, `bootstrap-{i}` or `coordinator-{id}`.
pub data NodeId : Type 0 where
  node : ℤ → NodeId
  bootstrap : ℕ → NodeId
  coordinator : ℤ → NodeId

abbrev pub same_node : NodeId → NodeId → Bool
same_node (node a) (node b) = eqb_ℤ a b
same_node (bootstrap a) (bootstrap b) = eqb a b
same_node (coordinator a) (coordinator b) = eqb_ℤ a b
same_node _ _ = false

pub same_node_iff : (a b : NodeId) → (same_node a b ≡ true) ↔ (a ≡ b)
same_node_iff (node a) (node b) = ground (arith, eqb_ℤ_iff a b)
same_node_iff (node a) (bootstrap b) = ground arith
same_node_iff (node a) (coordinator b) = ground arith
same_node_iff (bootstrap a) (node b) = ground arith
same_node_iff (bootstrap a) (bootstrap b) = ground (arith, eqb_iff a b)
same_node_iff (bootstrap a) (coordinator b) = ground arith
same_node_iff (coordinator a) (node b) = ground arith
same_node_iff (coordinator a) (bootstrap b) = ground arith
same_node_iff (coordinator a) (coordinator b) = ground (arith, eqb_ℤ_iff a b)

instance abbrev pub node_eq : Eq NodeId
node_eq = record { same = same_node; same_iff = same_node_iff }

-- `BrokerMetadata` and `PartitionMetadata` of structs.py
pub record BrokerMetadata : Type 0 where
  pub node_id : NodeId
  pub host : String
  pub port : ℕ
  pub rack : Option String

pub record PartitionMetadata : Type 0 where
  pub topic : String
  pub partition : ℕ
  pub leader : ℤ
  pub replicas : List ℤ
  pub isr : List ℤ
  pub error : ℤ

abbrev pub Partitions : Type 0
Partitions = Dict String (Dict ℕ PartitionMetadata)

abbrev pub BrokerPartitions : Type 0
BrokerPartitions = Dict ℤ (List TopicPartition)

-- `_coordinators` is looked up by the number of the node, and a purpose is only compared.
pub record ClusterMetadata : Type 0 where
  pub brokers : Dict NodeId BrokerMetadata
  pub partitions : Partitions
  pub broker_partitions : BrokerPartitions
  pub groups : Dict String NodeId
  pub last_refresh_ms : ℕ
  pub last_successful_refresh_ms : ℕ
  pub need_update : Bool
  pub future : Option ℕ
  pub next_future : ℕ
  pub listeners : List ℕ
  pub need_all_topic_metadata : Bool
  pub unauthorized_topics : List String
  pub internal_topics : List String
  pub controller : Option BrokerMetadata
  pub bootstrap_brokers : Dict NodeId BrokerMetadata
  pub coordinator_brokers : Dict NodeId BrokerMetadata
  pub coordinators : Dict ℤ BrokerMetadata
  pub coordinator_by_key : Dict ℕ ℤ

abbrev pub Action : Type 0 → Type 0
Action A = Exec ClusterMetadata A

-- The hosts that `collect_hosts` gives, in the order that it gives.
unfoldable pub generate_bootstrap_brokers : ℕ → List (String × ℕ) → Dict NodeId BrokerMetadata
generate_bootstrap_brokers i [] = []
generate_bootstrap_brokers i ((host, port) ∷ rest) =
    (bootstrap i, record { node_id = bootstrap i; host = host; port = port; rack = none })
    ∷ generate_bootstrap_brokers (i + 1) rest

unfoldable pub init : List (String × ℕ) → ClusterMetadata
unfolding generate_bootstrap_brokers
init hosts = record {
  brokers = [];
  partitions = [];
  broker_partitions = [];
  groups = [];
  last_refresh_ms = 0;
  last_successful_refresh_ms = 0;
  need_update = true;
  future = none;
  next_future = 0;
  listeners = [];
  need_all_topic_metadata = false;
  unauthorized_topics = [];
  internal_topics = [];
  controller = none;
  bootstrap_brokers = generate_bootstrap_brokers 0 hosts;
  coordinator_brokers = [];
  coordinators = [];
  coordinator_by_key = [];
}

abbrev or_else {ℓ} : {A : Type ℓ} → Option A → Option A → Option A
or_else none y = y
or_else (some x) y = some x

broker_metadata : NodeId → ClusterMetadata → Option BrokerMetadata
broker_metadata id s =
    or_else (or_else (Dict.get s.brokers id) (Dict.get s.bootstrap_brokers id))
      (Dict.get s.coordinator_brokers id)

unfoldable pub is_bootstrap : NodeId → ClusterMetadata → Bool
is_bootstrap id s = is_some (Dict.get s.bootstrap_brokers id)

abbrev values_or {ℓ κ} : {K : Type ℓ} {V : Type κ} → Dict K V → Dict K V → List V
values_or [] e = map (λ entry. entry.1) e
values_or (entry ∷ d) e = map (λ entry. entry.1) (entry ∷ d)

-- `brokers()`: no two brokers of a dictionary have the same number, so the list stands for the set.
unfoldable pub known_brokers : ClusterMetadata → List BrokerMetadata
known_brokers s = values_or s.brokers s.bootstrap_brokers

unfoldable pub partitions_for_topic : String → ClusterMetadata → Option (List ℕ)
partitions_for_topic topic s = elim (Dict.get s.partitions topic) [
  | none ↦ none
  | some d ↦ some (keys d)
]

available : Dict ℕ PartitionMetadata → List ℕ
available [] = []
available ((p, metadata) ∷ d) =
    let rest = available d in if eqb_ℤ metadata.leader (negsuc 0) then rest else p ∷ rest

available_partitions_for_topic : String → ClusterMetadata → Option (List ℕ)
unfolding available
available_partitions_for_topic topic s = elim (Dict.get s.partitions topic) [
  | none ↦ none
  | some d ↦ some (available d)
]

abbrev pub leader_of : Partitions → TopicPartition → Option ℤ
leader_of partitions tp = elim (Dict.get partitions tp.topic) [
  | none ↦ none
  | some d ↦ elim (Dict.get d tp.partition) [ none ↦ none | some metadata ↦ some metadata.leader ]
]

pub leader_for_partition : TopicPartition → ClusterMetadata → Option ℤ
leader_for_partition tp s = leader_of s.partitions tp

pub partitions_for_broker : ℤ → ClusterMetadata → Option (List TopicPartition)
partitions_for_broker id s = Dict.get s.broker_partitions id

coordinator_for_group : String → ClusterMetadata → Option NodeId
coordinator_for_group group s = Dict.get s.groups group

without : List String → List String → List String
without [] excluded = []
without (t ∷ l) excluded =
    let rest = without l excluded in if Sets.contains excluded t then rest else t ∷ rest

pub topics : Bool → ClusterMetadata → List String
unfolding without
topics exclude_internal_topics s =
    if exclude_internal_topics
    then without (keys s.partitions) s.internal_topics
    else keys s.partitions
