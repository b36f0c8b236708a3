-- ===== src/Producer/Sender/Examples.antt =====
-- The handlers and the requests at concrete managers, and the theorems there.
use aiokafka.Base.{none, true, false, some, [], ◌∷◌, ◌≡◌, ◌≢◌, ◌↔◌, ◌⊎◌, refl, ok, pos}
use aiokafka.Base.Keys.{TopicPartition}
use aiokafka.Base.BrokerErrors.{
  BrokerResponseError, errno, for_code, for_code_lem, no_error, unknown_error,
  unknown_topic_or_partition_error,
}
use aiokafka.Base.Sets
use aiokafka.Base.Futures.{resolved}
use aiokafka.Producer.TransactionManager.{
  TransactionManager, commit, ready, init, set_pid_and_epoch, begin_transaction,
  maybe_add_partition_to_txn, committing_transaction, notify_task_waiter, partition_added,
  is_empty_transaction, consumer_group_to_add, offsets_to_commit, needs_transaction_commit,
}
use aiokafka.Producer.TransactionManager.Traces
use aiokafka.Producer.TransactionManager.Traces.{Reach, start, next, Reach-IsValid}
use aiokafka.Producer.Sender.{Sender, transaction}
use aiokafka.Producer.Sender.Handlers.{Response, add_partitions_to_txn, end_txn, handle_response}
use aiokafka.Producer.Sender.Handlers.Reachable.{handle_response-Reach}
use aiokafka.Producer.Sender.Requests.{
  do_txn_commit, maybe_do_transactional_request, do_commit, listed, request_topics,
}
use aiokafka.Producer.Sender.Handlers.Retries.{unconfirmed}
use aiokafka.Producer.Sender.Requests.Commit.{do_commit_lem}
use aiokafka.Producer.Sender.Requests.Topics.{partitions_of, request_topics_lem}

for_code_lem_example : (for_code (pos 3) ≡ unknown_topic_or_partition_error) ↔ (
    (errno unknown_topic_or_partition_error ≡ pos 3)
    ⊎ ((unknown_topic_or_partition_error ≡ unknown_error)
        × ((y : BrokerResponseError) → errno y ≢ pos 3)))
for_code_lem_example = for_code_lem (pos 3) unknown_topic_or_partition_error

abbrev tp : TopicPartition
tp = record { topic = "t"; partition = 0 }

abbrev wanted : TransactionManager
wanted =
    (maybe_add_partition_to_txn tp
      (begin_transaction (set_pid_and_epoch (pos 7) (pos 0) (init (some "id"))).1).1).1

Reach-wanted : Reach (some "id") wanted
Reach-wanted =
    next (next (next start (Traces.pid_and_epoch (pos 7) (pos 0))) Traces.begun)
      (Traces.partition_wanted tp)

abbrev sender : Sender
sender = record { txn_manager = wanted; coordinators = (transaction, 1) ∷ []; retry_backoff = 100 }

abbrev added : Response
added = add_partitions_to_txn (("t", (0, pos 0) ∷ []) ∷ [])

handle_response-Reach_example : Reach (some "id") (handle_response added sender).1.txn_manager
unfolding init set_pid_and_epoch begin_transaction maybe_add_partition_to_txn Sets.contains
    notify_task_waiter
handle_response-Reach_example =
    handle_response-Reach (some "id") added sender Reach-wanted (λ e. refl)

-- The partition was added, and then the producer commits.
abbrev committed : TransactionManager
committed = (committing_transaction (partition_added tp wanted).1).1

Reach-committed : Reach (some "id") committed
Reach-committed = next (next Reach-wanted (Traces.partition_there tp)) Traces.committing

abbrev committing : Sender
committing = record { txn_manager = committed; coordinators = []; retry_backoff = 100 }

do_commit_lem_example :
    let answered = do_commit (ok 1) (some (end_txn (pos 0))) committing in
    let unreached = do_commit (ok 1) none committing in
    ((committed.pending_txn_partitions ≡ []) × (committed.pending_txn_offsets ≡ []))
    × ((for_code (pos 0) ≡ no_error) ⊎ (is_empty_transaction committed ≡ true)
        → (answered.0 ≡ ok tt)
          × (answered.1.txn_manager.state ≡ ready)
          × (answered.1.txn_manager.futures.at 1 ≡ resolved tt))
    × (for_code (pos 0) ≢ no_error
        → is_empty_transaction committed ≡ false
        → (answered.0 ≡ unconfirmed (for_code (pos 0)))
          × (answered.1.txn_manager ≡ committed)
          × (maybe_do_transactional_request answered.1.txn_manager ≡ some (do_txn_commit commit))
          × (unreached ≡ (ok tt, committing)))
unfolding init set_pid_and_epoch begin_transaction maybe_add_partition_to_txn Sets.contains Sets.add
    Sets.discard notify_task_waiter partition_added committing_transaction
    maybe_do_transactional_request consumer_group_to_add offsets_to_commit needs_transaction_commit
do_commit_lem_example =
    do_commit_lem committing commit 1 1 (pos 0) (Reach-IsValid (some "id") Reach-committed) refl
      refl

request_topics_lem_example :
    listed (request_topics (tp ∷ record tp { partition = 2 } ∷ [])) "t"
    ≡ partitions_of "t" (tp ∷ record tp { partition = 2 } ∷ [])
request_topics_lem_example = request_topics_lem "t" (tp ∷ record tp { partition = 2 } ∷ [])
