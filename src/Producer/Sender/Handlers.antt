-- ===== src/Producer/Sender/Handlers.antt =====
-- The handlers of aiokafka/producer/sender.py: what each makes of the broker's answer. `none` is that
-- the request succeeded, `some` the time to wait before it is sent again. An error that the source
-- tests for and then raises like all others needs no test of its own.
pub mod Reachable
pub mod Retries
use aiokafka.Base.{
  ℕ, String, Bool, true, false, ◌||◌, Option, none, some, List, [], ◌∷◌, ℤ, if◌then◌else◌,
}
use aiokafka.Base.{
  Exception, Result, ok, err, Exec, pure, raise, gets, modify, continue, ◌>>=◌, ◌>>◌,
}
use aiokafka.Base.{key_error, producer_fenced, broker, is_some, not}
use aiokafka.Base.Keys.{TopicPartition, tp_eq, string_eq, ◌==◌}
use aiokafka.Base.Dict
use aiokafka.Base.Sets
use aiokafka.Base.BrokerErrors.{
  BrokerResponseError, for_code, error_eq, no_error, group_coordinator_not_available_error,
  not_coordinator_for_group_error, group_load_in_progress_error, concurrent_transactions,
  unknown_topic_or_partition_error, invalid_producer_epoch, topic_authorization_failed_error,
  operation_not_attempted, group_authorization_failed_error, request_timed_out_error,
}
use aiokafka.Producer.TransactionManager.{
  TransactionManager, Offsets, is_empty, set_pid_and_epoch, partition_added, error_transaction,
  consumer_group_added, offset_committed, complete_transaction,
}
use aiokafka.Producer.Sender.{
  Sender, CoordinationType, group, transaction, on_manager, coordinator_dead, backoff_override,
}

abbrev pub Answer : Type 0
Answer = Exec Sender (Option ℕ)

-- `return self._default_backoff`
abbrev wait : Answer
wait = gets (λ s. some s.retry_backoff)

abbrev lost_coordinator : BrokerResponseError → Bool
lost_coordinator e =
    e == group_coordinator_not_available_error || e == not_coordinator_for_group_error

pub init_pid_answer : BrokerResponseError → ℤ → ℤ → Answer
init_pid_answer error_type producer_id producer_epoch =
    if error_type == no_error
    then (on_manager (set_pid_and_epoch producer_id producer_epoch) >> pure none)
    else if lost_coordinator error_type
    then (coordinator_dead transaction >> wait)
    else if error_type == group_load_in_progress_error || error_type == concurrent_transactions
    then wait
    else raise (broker error_type)

-- A loop over the partitions of an answer goes on with a value, or the handler returns.
pub data Loop (A : Type 0) : Type 0 where
  next : A → Loop A
  return : Option ℕ → Loop A

abbrev pub proceed : {A : Type 0} → Loop A → (A → Exec Sender (Loop A)) → Exec Sender (Loop A)
proceed (next a) f = f a
proceed (return b) f = pure (return b)

abbrev stop : {A : Type 0} → (Sender → ℕ) → Exec Sender (Loop A)
stop backoff = gets (λ s. return (some (backoff s)))

abbrev default_backoff : Sender → ℕ
default_backoff s = s.retry_backoff

-- Right after a transaction the coordinator may still be writing the last one's markers.
abbrev first_backoff : Sender → ℕ
first_backoff s =
    if is_empty s.txn_manager.txn_partitions then backoff_override else s.retry_backoff

-- One partition of the answer to AddPartitionsToTxnRequest; the topics that the producer may not
-- write to are gathered.
pub add_partition_answer :
    TopicPartition → BrokerResponseError → List String → Exec Sender (Loop (List String))
add_partition_answer tp error_type unauthorized_topics =
    if error_type == no_error
    then (on_manager (partition_added tp) >> pure (next unauthorized_topics))
    else if lost_coordinator error_type
    then (coordinator_dead transaction >> stop default_backoff)
    else if error_type == concurrent_transactions
    then stop first_backoff
    else if error_type == group_load_in_progress_error
        || error_type == unknown_topic_or_partition_error
    then stop default_backoff
    else if error_type == invalid_producer_epoch
    then raise producer_fenced
    else if error_type == topic_authorization_failed_error
    then pure (next (Sets.add unauthorized_topics tp.topic))
    else if error_type == operation_not_attempted
    then pure (next unauthorized_topics)
    else raise (broker error_type)

pub add_partitions_loop : String → List (ℕ × ℤ) → List String → Exec Sender (Loop (List String))
add_partitions_loop topic [] unauthorized_topics = pure (next unauthorized_topics)
add_partitions_loop topic ((partition, error_code) ∷ rest) unauthorized_topics = do
  done ←
      add_partition_answer (record { topic = topic; partition = partition }) (for_code error_code)
        unauthorized_topics
  proceed done (add_partitions_loop topic rest)

pub add_topics_loop : List (String × List (ℕ × ℤ)) → List String → Exec Sender (Loop (List String))
add_topics_loop [] unauthorized_topics = pure (next unauthorized_topics)
add_topics_loop ((topic, partitions) ∷ rest) unauthorized_topics = do
  done ← add_partitions_loop topic partitions unauthorized_topics
  proceed done (add_topics_loop rest)

pub end_add_partitions : Loop (List String) → Answer
end_add_partitions (return backoff) = pure backoff
end_add_partitions (next []) = pure none
end_add_partitions (next (t ∷ unauthorized_topics)) =
    on_manager (error_transaction (broker topic_authorization_failed_error)) >> pure none

pub add_offsets_answer : String → BrokerResponseError → Answer
add_offsets_answer group_id error_type =
    if error_type == no_error
    then (on_manager (consumer_group_added group_id) >> pure none)
    else if lost_coordinator error_type
    then (coordinator_dead transaction >> wait)
    else if error_type == group_load_in_progress_error || error_type == concurrent_transactions
    then wait
    else if error_type == invalid_producer_epoch
    then raise producer_fenced
    else if error_type == group_authorization_failed_error
    then (on_manager (error_transaction (broker error_type)) >> pure none)
    else raise (broker error_type)

-- The handler's `_offsets` are the dictionary that the manager queued, from which `offset_committed`
-- deletes the partition.
pub commit_offset : TopicPartition → String → Offsets → Option ℕ → Exec Sender (Loop Offsets)
commit_offset tp group_id offsets none = raise key_error
commit_offset tp group_id offsets (some offset) =
    on_manager (offset_committed tp offset group_id) >> pure (next (Dict.remove offsets tp))

pub offset_commit_answer :
    TopicPartition → String → BrokerResponseError → Offsets → Exec Sender (Loop Offsets)
offset_commit_answer tp group_id error_type offsets =
    if error_type == no_error
    then commit_offset tp group_id offsets (Dict.get offsets tp)
    else if lost_coordinator error_type || error_type == request_timed_out_error
    then (coordinator_dead group >> stop default_backoff)
    else if error_type == group_load_in_progress_error
        || error_type == unknown_topic_or_partition_error
    then stop default_backoff
    else if error_type == invalid_producer_epoch
    then raise producer_fenced
    else if error_type == group_authorization_failed_error
    then (on_manager (error_transaction (broker error_type)) >> pure (return none))
    else raise (broker error_type)

pub offset_partitions_loop : String → String → List (ℕ × ℤ) → Offsets → Exec Sender (Loop Offsets)
offset_partitions_loop group_id topic [] offsets = pure (next offsets)
offset_partitions_loop group_id topic ((partition, error_code) ∷ rest) offsets = do
  done ←
      offset_commit_answer (record { topic = topic; partition = partition }) group_id
        (for_code error_code) offsets
  proceed done (offset_partitions_loop group_id topic rest)

pub offset_topics_loop :
    String → List (String × List (ℕ × ℤ)) → Offsets → Exec Sender (Loop Offsets)
offset_topics_loop group_id [] offsets = pure (next offsets)
offset_topics_loop group_id ((topic, partitions) ∷ rest) offsets = do
  done ← offset_partitions_loop group_id topic partitions offsets
  proceed done (offset_topics_loop group_id rest)

pub end_offset_commit : Loop Offsets → Answer
end_offset_commit (return backoff) = pure backoff
end_offset_commit (next offsets) = pure none

pub end_txn_answer : BrokerResponseError → Answer
end_txn_answer error_type =
    if error_type == no_error
    then (on_manager complete_transaction >> pure none)
    else if lost_coordinator error_type
    then (coordinator_dead transaction >> wait)
    else if error_type == group_load_in_progress_error || error_type == concurrent_transactions
    then wait
    else if error_type == invalid_producer_epoch
    then raise producer_fenced
    else raise (broker error_type)

-- The handlers with what they were made for, and the answer that each reads.
pub data Response : Type 0 where
  init_pid : (error_code producer_id producer_epoch : ℤ) → Response
  add_partitions_to_txn : List (String × List (ℕ × ℤ)) → Response
  add_offsets_to_txn : (group_id : String) → (error_code : ℤ) → Response
  txn_offset_commit :
      (offsets : Offsets) → (group_id : String) → List (String × List (ℕ × ℤ)) → Response
  end_txn : (error_code : ℤ) → Response

pub handle_response : Response → Answer
handle_response (init_pid error_code producer_id producer_epoch) =
    init_pid_answer (for_code error_code) producer_id producer_epoch
handle_response (add_partitions_to_txn errors) = do
  done ← add_topics_loop errors []
  end_add_partitions done
handle_response (add_offsets_to_txn group_id error_code) =
    add_offsets_answer group_id (for_code error_code)
handle_response (txn_offset_commit offsets group_id errors) = do
  done ← offset_topics_loop group_id errors offsets
  end_offset_commit done
handle_response (end_txn error_code) = end_txn_answer (for_code error_code)

-- `BaseHandler.do`: `none` stands for a KafkaError of the connection. Sleeping is left out.
pub do_request : Option Response → Exec Sender Bool
do_request none = pure false
do_request (some response) = do
  retry_backoff ← handle_response response
  pure (not (is_some retry_backoff))
