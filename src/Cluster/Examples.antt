-- ===== src/Cluster/Examples.antt =====
-- The metadata of a cluster of two brokers.
use aiokafka.Base.{
  raise, ℕ, true, false, none, some, List, [], ◌∷◌, pos, negsuc, arith, refl, ◌≡◌, ok, err,
  key_error, attribute_error, pure,
}
use aiokafka.Base.Keys.{TopicPartition, tp_eq, nat_eq, int_eq, string_eq}
use aiokafka.Base.Dict
use aiokafka.Base.Sets
use aiokafka.Base.BrokerErrors.{for_code, same_error}
use aiokafka.Cluster.{
  ClusterMetadata, Action, node, init, leader_for_partition, partitions_for_broker,
}
use aiokafka.Cluster.Updates.{
  MetadataResponse, add_coordinator, coordinator_metadata, request_update, failed_update,
  update_metadata, apply_metadata, call_listeners, read_topics, read_topic, read_partitions,
  set_leader, read_metadata,
}
use aiokafka.Cluster.Leaders.Reachable.{start, next, leader_for_partition-Reach, updates}
use aiokafka.Cluster.Coordinators.{add_coordinator_shared, update_metadata-request_update}

abbrev answer : MetadataResponse
answer = record {
  api_version = 1;
  brokers = record { node_id = pos 1; host = "a"; port = 9092; rack = none } ∷ [];
  controller_id = pos 1;
  topics =
      record {
        error_code = pos 0;
        topic = "t";
        is_internal = false;
        partitions =
            record { error = pos 0; partition = 0; leader = pos 1; replicas = []; isr = [] }
            ∷ record { error = pos 5; partition = 1; leader = negsuc 0; replicas = []; isr = [] }
            ∷ [];
      }
      ∷ [];
}

abbrev call : ℕ → Action (Unit {0})
call l = pure tt

abbrev updated : ClusterMetadata
updated = (update_metadata call 5 answer (init [])).1

abbrev shared : ClusterMetadata
shared = record (init []) {
  coordinators =
      (pos 1, record { node_id = node (pos 1); host = "a"; port = 9092; rack = none }) ∷ [];
  coordinator_by_key = (0, pos 1) ∷ (1, pos 1) ∷ [];
}

abbrev one_moved : ClusterMetadata
one_moved = (add_coordinator (pos 2) "b" 9092 none 0 shared).1

add_coordinator_shared_example :
    ((add_coordinator (pos 2) "b" 9092 none 0 shared).0 ≡ ok tt)
    × (coordinator_metadata (pos 2) one_moved
        ≡ some (record { node_id = node (pos 2); host = "b"; port = 9092; rack = none }))
    × (coordinator_metadata (pos 1) one_moved ≡ none)
    × (Dict.get one_moved.coordinator_by_key 1 ≡ some (pos 1))
    × ((add_coordinator (pos 2) "b" 9092 none 1 one_moved).0 ≡ err key_error)
unfolding Dict.get coordinator_metadata
add_coordinator_shared_example =
    add_coordinator_shared shared 0 1 (pos 1) (pos 2) (pos 2) "b" 9092 none (omega arith)
      (ground arith) refl refl refl

-- A listener that would raise.
abbrev heard : ClusterMetadata
heard = record (init []) { listeners = 3 ∷ [] }

abbrev refuse : ℕ → Action (Unit {0})
refuse l = raise key_error

update_metadata-request_update_example :
    let asked = request_update heard in
    let unasked = update_metadata (λ l. pure tt) 5 answer heard in
    let tables = read_metadata answer heard in
    (asked.0 ≡ ok 0)
    × (unasked.0 ≡ ok tt)
    × (update_metadata refuse 5 answer asked.1
        ≡ (err attribute_error, record unasked.1 { next_future = 1 }))
    × (unasked.1 ≡ record tables {
      future = none;
      need_update = false;
      last_refresh_ms = 5;
      last_successful_refresh_ms = 5;
    })
    × (failed_update 5 asked.1 ≡ (err attribute_error, record asked.1 { future = none }))
    × (request_update asked.1 ≡ (err attribute_error, asked.1))
unfolding init
update_metadata-request_update_example =
    update_metadata-request_update refuse 5 answer heard refl refl

leader_for_partition-Reach_example :
    (l : List TopicPartition) × (partitions_for_broker (pos 1) updated ≡ some l)
    × (Sets.contains l (record { topic = "t"; partition = 0 }) ≡ true)
unfolding leader_for_partition update_metadata apply_metadata call_listeners read_metadata
    read_topics read_topic read_partitions set_leader init Dict.get Dict.put for_code same_error
leader_for_partition-Reach_example =
    leader_for_partition-Reach call (λ l s g. g) [] updated (next start (updates 5 answer))
      (record { topic = "t"; partition = 0 }) (pos 1) refl (ground arith)
