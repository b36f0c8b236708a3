-- ===== src/Producer/Sender/Requests.antt =====
-- The requests of aiokafka/producer/sender.py: which one the sender makes next, what it does before it
-- sends it, and what AddPartitionsToTxnRequest lists.
pub mod Commit
pub mod Topics
use aiokafka.Base.{
  ℕ, String, Bool, true, false, Option, none, some, List, [], ◌∷◌, ◌++◌, if◌then◌else◌,
}
use aiokafka.Base.{
  Exception, Result, ok, err, Exec, pure, raise, gets, modify, continue, ◌>>=◌, ◌>>◌,
}
use aiokafka.Base.{broker}
use aiokafka.Base.Keys.{TopicPartition, tp_eq, string_eq, ◌==◌}
use aiokafka.Base.Dict
use aiokafka.Base.Dict.{Dict}
use aiokafka.Base.BrokerErrors.{BrokerResponseError, error_eq, group_authorization_failed_error}
use aiokafka.Producer.TransactionManager.{
  TransactionManager, TransactionResult, Offsets, is_empty, consumer_group_to_add,
  offsets_to_commit, needs_transaction_commit, is_empty_transaction, complete_transaction,
  error_transaction,
}
use aiokafka.Producer.Sender.{Sender, on_manager}
use aiokafka.Producer.Sender.Handlers.{
  Response, add_partitions_to_txn, add_offsets_to_txn, txn_offset_commit, end_txn, do_request,
}

-- The coroutine that the task runs, with its arguments.
pub data Request : Type 0 where
  do_add_partitions_to_txn : List TopicPartition → Request
  do_add_offsets_to_txn : String → Request
  do_txn_offset_commit : Offsets → String → Request
  do_txn_commit : TransactionResult → Request

abbrev pub commit_request : Option TransactionResult → Option Request
commit_request none = none
commit_request (some result) = some (do_txn_commit result)

abbrev pub offsets_request : Option (Offsets × String) → Option Request → Option Request
offsets_request none later = later
offsets_request (some (offsets, group_id)) later = some (do_txn_offset_commit offsets group_id)

abbrev pub group_request : Option String → Option Request → Option Request
group_request none later = later
group_request (some group_id) later = some (do_add_offsets_to_txn group_id)

abbrev pub partitions_request : List TopicPartition → Option Request → Option Request
partitions_request [] later = later
partitions_request (tp ∷ tps) later = some (do_add_partitions_to_txn (tp ∷ tps))

-- `_maybe_do_transactional_request`
unfoldable pub maybe_do_transactional_request : TransactionManager → Option Request
maybe_do_transactional_request s = partitions_request s.pending_txn_partitions (
    group_request (consumer_group_to_add s)
      (offsets_request (offsets_to_commit s) (commit_request (needs_transaction_commit s.state))))

-- The arguments after the state of the request are the answers of the client: that of
-- `_find_coordinator`, and the reply of the coordinator, `none` if it could not be reached.
pub do_offset_commit : Result ℕ → Option Response → Offsets → Exec Sender (Unit {0})
do_offset_commit coordinator reply [] = pure tt
do_offset_commit (ok node_id) reply offsets = do_request reply >> pure tt
do_offset_commit (err (broker e)) reply offsets =
    if e == group_authorization_failed_error
    then on_manager (error_transaction (broker e))
    else raise (broker e)
do_offset_commit (err exc) reply offsets = raise exc

pub send_end_txn : Result ℕ → Option Response → Exec Sender (Unit {0})
send_end_txn (ok node_id) reply = do_request reply >> pure tt
send_end_txn (err exc) reply = raise exc

-- `_do_txn_commit`, once `flush_for_commit` has returned.
pub do_commit : Result ℕ → Option Response → Exec Sender (Unit {0})
unfolding send_end_txn
do_commit coordinator reply = do
  empty ← gets (λ s. is_empty_transaction s.txn_manager)
  if empty then on_manager complete_transaction else send_end_txn coordinator reply

-- `partition_data[tp.topic].append(tp.partition)`, on a defaultdict of lists.
abbrev pub listed : Dict String (List ℕ) → String → List ℕ
listed d topic = elim (Dict.get d topic) [ none ↦ [] | some l ↦ l ]

pub group_partitions : List TopicPartition → Dict String (List ℕ) → Dict String (List ℕ)
group_partitions [] partition_data = partition_data
group_partitions (tp ∷ tps) partition_data =
    group_partitions tps
      (Dict.put partition_data tp.topic (listed partition_data tp.topic ++ tp.partition ∷ []))

-- The `topics` of the request that `AddPartitionsToTxnHandler(tps)` creates.
pub request_topics : List TopicPartition → Dict String (List ℕ)
unfolding group_partitions
request_topics tps = group_partitions tps []
