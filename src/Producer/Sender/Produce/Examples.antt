-- ===== src/Producer/Sender/Produce/Examples.antt =====
-- The leader of a partition has moved.
use aiokafka.Base.{false, none, some, List, [], ◌∷◌, ◌++◌, ◌≡◌, refl, ok, pos, negsuc, String}
use aiokafka.Base.Keys.{TopicPartition}
use aiokafka.Base.Dict
use aiokafka.Base.BrokerErrors.{for_code, retriable, same_error}
use aiokafka.Base.Futures.{empty}
use aiokafka.Producer.TransactionManager.{init}
use aiokafka.Producer.MessageBatch.{new_batch, new_builder}
use aiokafka.Producer.Sender.Produce.{ProduceHandler, PartitionInfo, handle_produce_response}
use aiokafka.Producer.Sender.Produce.Retried.{named, handle_produce_response_retries}

abbrev tp : TopicPartition
tp = record { topic = "t"; partition = 0 }

abbrev handler : ProduceHandler
handler = record {
  accumulator = record {
    batches = [];
    pending_batches = 0 ∷ [];
    next = 1;
    object = λ b. (new_batch tp (new_builder 2 false) 5 0 empty).it;
    futures = (new_batch tp (new_builder 2 false) 5 0 empty).futures;
    wait_data_future = 7;
    closed = false;
    exception = none;
    api_version = (0, 11);
    batch_ttl = 5;
    txn_manager = some (init none);
  };
  batches = (tp, 0) ∷ [];
  to_reenqueue = [];
  metadata_updates = 0;
}

abbrev moved : List (String × List PartitionInfo)
moved =
    (
      "t",
      record {
        partition = 0;
        error_code = pos 6;
        offset = negsuc 0;
        timestamp = negsuc 0;
        log_start_offset = negsuc 0;
      }
          ∷ [],
    )
    ∷ []

handle_produce_response_retries_example :
    ((handle_produce_response 100 7 moved handler).0 ≡ ok tt)
    × ((handle_produce_response 100 7 moved handler).1.accumulator ≡ handler.accumulator)
    × ((handle_produce_response 100 7 moved handler).1.to_reenqueue
        ≡ handler.to_reenqueue ++ named handler.batches moved)
unfolding for_code retriable same_error Dict.get
handle_produce_response_retries_example =
    handle_produce_response_retries 100 7 moved handler refl (((refl, refl, refl), tt), tt)
