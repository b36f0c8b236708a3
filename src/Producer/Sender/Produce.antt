-- ===== src/Producer/Sender/Produce.antt =====
-- The class SendProduceReqHandler of aiokafka/producer/sender.py: what becomes of the batches of a request. The
-- accumulator holds the transaction manager that the sender has, and the clock is an argument.
pub mod Retried
mod Examples
use aiokafka.Base.{
  ℕ, ◌+◌, Bool, true, false, not, ◌&&◌, ◌||◌, Option, none, some, List, [], ◌∷◌, ◌++◌, ltb,
  if◌then◌else◌, ℤ, negsuc, String, is_some,
}
use aiokafka.Base.{
  Exception, Exec, ok, pure, gets, modify, continue, ◌>>=◌, ◌>>◌, producer_fenced, broker,
}
use aiokafka.Base.Keys.{TopicPartition, tp_eq, ◌==◌}
use aiokafka.Base.Dict
use aiokafka.Base.Dict.{Dict}
use aiokafka.Base.BrokerErrors.{
  BrokerResponseError, for_code, retriable, invalid_metadata, error_eq, no_error,
  duplicate_sequence_number, invalid_producer_epoch,
}
use aiokafka.Producer.MessageBatch.{MessageBatch, Batch, expired, done_batch, done_noack, failure}
use aiokafka.Producer.MessageAccumulator
use aiokafka.Producer.MessageAccumulator.{MessageAccumulator, on_batch, update_batch, reenqueue}

pub record ProduceHandler : Type 0 where
  pub accumulator : MessageAccumulator
  pub batches : Dict TopicPartition ℕ
  pub to_reenqueue : List ℕ
  -- how often `force_metadata_update` was called
  pub metadata_updates : ℕ

abbrev pub Handling : Type 0 → Type 0
Handling A = Exec ProduceHandler A

abbrev pub on_accumulator : {A : Type 0} → Exec MessageAccumulator A → Handling A
on_accumulator act s = ((act s.accumulator).0, record s { accumulator = (act s.accumulator).1 })

-- One partition of an answer; a field that the version does not have is not read.
pub record PartitionInfo : Type 0 where
  pub partition : ℕ
  pub error_code : ℤ
  pub offset : ℤ
  pub timestamp : ℤ
  pub log_start_offset : ℤ

unfoldable pub can_retry : ℕ → Bool → Bool → MessageBatch → Bool
can_retry now has_manager error_retriable batch =
    if not has_manager && expired now batch then false else error_retriable

abbrev pub force_metadata_update : Bool → Handling (Unit {0})
force_metadata_update wanted =
    if wanted then modify (λ s. record s { metadata_updates = s.metadata_updates + 1 }) else pure tt

abbrev pub keep_batch : ℕ → Handling (Unit {0})
keep_batch b = modify (λ s. record s { to_reenqueue = s.to_reenqueue ++ b ∷ [] })

abbrev exception_of : BrokerResponseError → Exception
exception_of error = if error == invalid_producer_epoch then producer_fenced else broker error

-- What an error, if it is one, means for the batch b.
pub answer_batch : ℕ → ℕ → BrokerResponseError → ℤ → ℤ → Option ℤ → Handling (Unit {0})
answer_batch now b error offset timestamp log_start = do
  has_manager ← gets (λ s. is_some s.accumulator.txn_manager)
  batch ← gets (λ s. s.accumulator.object b)
  if error == no_error || error == duplicate_sequence_number
      then on_accumulator (update_batch b (done_batch offset timestamp log_start))
      else if not (can_retry now has_manager (retriable error) batch)
      then on_accumulator (on_batch b (failure (exception_of error)))
      else (force_metadata_update (invalid_metadata error) >> keep_batch b)

-- An answer for a partition that is not in the request is left aside.
pub answer_found : ℕ → ℕ → PartitionInfo → Option ℕ → Handling (Unit {0})
answer_found now version p none = pure tt
answer_found now version p (some b) =
    answer_batch now b (for_code p.error_code) p.offset
      (if ltb version 2 then negsuc 0 else p.timestamp)
      (if ltb version 5 then none else some p.log_start_offset)

pub answer_partition : ℕ → ℕ → Dict TopicPartition ℕ → String → PartitionInfo → Handling (Unit {0})
unfolding answer_found
answer_partition now version batches topic p =
    answer_found now version p
      (Dict.get batches (record { topic = topic; partition = p.partition }))

pub answer_partitions :
    ℕ → ℕ → Dict TopicPartition ℕ → String → List PartitionInfo → Handling (Unit {0})
unfolding answer_partition
answer_partitions now version batches topic [] = pure tt
answer_partitions now version batches topic (p ∷ rest) = do
  answer_partition now version batches topic p
  answer_partitions now version batches topic rest

pub answer_topics :
    ℕ → ℕ → Dict TopicPartition ℕ → List (String × List PartitionInfo) → Handling (Unit {0})
unfolding answer_partitions
answer_topics now version batches [] = pure tt
answer_topics now version batches ((topic, partitions) ∷ rest) = do
  answer_partitions now version batches topic partitions
  answer_topics now version batches rest

pub handle_produce_response : ℕ → ℕ → List (String × List PartitionInfo) → Handling (Unit {0})
unfolding answer_topics
handle_produce_response now version topics = do
  batches ← gets (λ s. s.batches)
  answer_topics now version batches topics

-- The answer, or the error of the request with its two attributes.
pub data Sent : Type 0 where
  answered : ℕ → List (String × List PartitionInfo) → Sent
  refused : Exception → (error_retriable error_invalid_metadata : Bool) → Sent

fail_or_keep : ℕ → Exception → Bool → Dict TopicPartition ℕ → Handling (Unit {0})
fail_or_keep now err error_retriable [] = pure tt
fail_or_keep now err error_retriable ((tp, b) ∷ rest) = do
  has_manager ← gets (λ s. is_some s.accumulator.txn_manager)
  batch ← gets (λ s. s.accumulator.object b)
  if not (can_retry now has_manager error_retriable batch)
      then on_accumulator (on_batch b (failure err))
      else keep_batch b
  fail_or_keep now err error_retriable rest

done_all : Dict TopicPartition ℕ → Handling (Unit {0})
done_all [] = pure tt
done_all ((tp, b) ∷ rest) = do on_accumulator (update_batch b done_noack); done_all rest

pub reenqueue_all : List ℕ → Handling (Unit {0})
reenqueue_all [] = pure tt
reenqueue_all (b ∷ rest) = do on_accumulator (reenqueue b); reenqueue_all rest

after_send : ℕ → Bool → Dict TopicPartition ℕ → Sent → Handling (Unit {0})
unfolding handle_produce_response fail_or_keep done_all
after_send now acks batches (refused err error_retriable error_invalid_metadata) = do
  force_metadata_update error_invalid_metadata
  fail_or_keep now err error_retriable batches
after_send now acks batches (answered version topics) =
    if acks then handle_produce_response now version topics else done_all batches

-- `do`, without the wait before the batches are put back; `acks` is whether acknowledgements are required.
pub do_produce : ℕ → Bool → Sent → Handling (Unit {0})
unfolding after_send reenqueue_all
do_produce now acks sent = do
  batches ← gets (λ s. s.batches)
  after_send now acks batches sent
  kept ← gets (λ s. s.to_reenqueue)
  reenqueue_all kept
