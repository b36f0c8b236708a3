-- ===== src/Lib.antt =====
-- aiokafka, an asyncio client for Kafka. A producer puts records into batches, picks a partition for
-- each, queues the batches of a partition in an accumulator, and a background task drains them to the
-- nodes that lead their partitions; with a transactional id, a transaction manager says what the task
-- may send, and the task hands the brokers' answers to it. A consumer keeps a subscription state
-- that its front end, the group coordinator and the fetcher share: what is subscribed, what is
-- assigned, and where it stands in each partition. Both ask the metadata of the cluster for the leaders of partitions. Record batches hold varints, and requests and
-- answers are written with the types of the protocol.
--
-- The files and the code that they are about:
--   Base            Python's data as the other files use it: dictionaries and sets as association lists
--                   and lists in order of insertion (Dict, Sets), keys with an equality test (Keys),
--                   signed integers (Int), bitwise operators as arithmetic (Bits), exceptions as values
--                   and methods that may raise after they changed the object (Errors), futures (Futures);
--                   Base.BrokerErrors is the errors of aiokafka/errors.py that have a number, and for_code
--   Producer.TransactionManager
--                   aiokafka/producer/transaction_manager.py: State has the states and the table of
--                   transitions, the file itself one action for each method; Invariant, Traces,
--                   Outcomes, Sequence and Partitions are proofs
--   Producer.Partitioner
--                   aiokafka/partitioner.py: DefaultPartitioner.__call__ and murmur2
--   Producer.MessageBatch, Producer.MessageAccumulator
--                   aiokafka/producer/message_accumulator.py: the batches of each partition, one action for
--                   each method; MessageAccumulator.Drain is drain_by_nodes, MessageBatch.Delivery,
--                   Queues, Retry, Drain.Filed and Drain.Safety are proofs
--   Producer.Sender
--                   aiokafka/producer/sender.py: Handlers has what the handlers of the transactional
--                   requests make of an answer, Requests the choice of the next request and the sending
--                   of offsets and of the end of a transaction, Produce what becomes of the batches of a
--                   produce request; the modules below are proofs
--   Consumer.PartitionState
--                   the class TopicPartitionState of aiokafka/consumer/subscription_state.py
--   Consumer.Subscription, Consumer.SubscriptionState
--                   the classes Subscription, ManualSubscription, Assignment and SubscriptionState of the
--                   same file; SubscriptionState.Partitions has the methods that go on to one
--                   partition, SubscriptionState.Waiters those that hand out, resolve or abort futures
--   Consumer.PartitionRecords
--                   the class PartitionRecords of aiokafka/consumer/fetcher.py, a generator as a state between
--                   its yields; Log says what a consumer should get of a log, and the other
--                   modules below are proofs
--   Consumer.FetchedBatch
--                   a batch of Record.DefaultRecords as PartitionRecords sees it; Delivered leads from the
--                   messages of a producer to the records of a consumer
--   Consumer.FetchResult
--                   the class FetchResult of the same file, with its theorem in Paging
--   Cluster         the class ClusterMetadata of aiokafka/cluster.py: the file itself has its data and what is
--                   asked of it, Updates the methods that change it; Leaders and Coordinators are proofs
--   Assignors       Range is the class RangePartitionAssignor of aiokafka/coordinator/assignors/range.py, with
--                   its theorem in Range.Shares
--   Record.Varint   encode_varint_py, size_of_varint_py and decode_varint_py of aiokafka/record/util.py
--   Record.Crc      aiokafka/record/_crc32c.py
--   Record.MemoryRecords
--                   aiokafka/record/memory_records.py, with the theorem in Split
--   Record.ControlRecord
--                   aiokafka/record/control_record.py
--   Record.DefaultRecords
--                   aiokafka/record/default_records.py, the batches of message format 2: Batch is
--                   the class that reads one and Builder the one that builds it; Record.Reading is a read of a
--                   buffer by position and Record.Struct is struct.Struct. Records, Rounds and Sizes are proofs
--   Protocol        aiokafka/protocol/types.py: Reader is a read of the stream, Integers and Varints are the
--                   numbers, Types the encoders of strings, bytes, arrays, tags and schemas by a code
--                   of the type, Types.Decode the decoders; the RoundTrip modules are proofs
-- The Examples module of each part has the runs on concrete data.
--
-- State and errors. An object is a record of its attributes. A method is a function from the object to a
-- result and the object that it leaves behind, so that what was written before a raise is kept. A future
-- is a number on a heap: a second result raises InvalidStateError, as asyncio's futures do. An event
-- loop runs a method without interruption up to its next await. A coroutine of the modelled code is cut at
-- its awaits, and what it awaits is an argument, so any run of the program is a sequence of whole
-- calls: the step relations in the Traces and Machine modules have one constructor for each method, and
-- reachability is a list of steps.
--
-- Bounds and fuel. Python's integers have no bound, and the modelled ones have none: masks and
-- wrap-arounds are written out where the code has them. The loop of the varint encoder has the
-- number itself as its fuel, which each pass divides by 128; those of aiokafka/protocol/types.py have the
-- number of passes that 32 and 64 bits can take at most after the first, 4 and 9, as the round trip
-- shows for the unsigned one. getall loops on fuel, one pass more than there are
-- records to come. A batch is iterated on one more pass than it has records, the last of which ends the iteration. The decoders read arrays by the count that was read, and types by
-- recursion on their code. All other loops are on lists.
--
-- Parameters. The source of random numbers of random.choice is a function from the length to an index.
-- Patterns and listeners are only stored and handed back, so a number stands for each. The text
-- encoding of a string is a pair of functions, of which the round trip assumes that decoding undoes
-- encoding. The compression libraries are two functions for each codec, of
-- which the round trip of a batch assumes that one undoes the other. The
-- deserializers of a consumer are two functions. To the accumulator, the record builder answers to an append with the timestamp that it wrote or that there is no
-- room. The cluster is the function that gives the leader of a partition, and the clock a number. The
-- answer that the connection gives to a request is a value. The listeners of the metadata are a
-- function that runs the one with a given number.
--
-- Not modelled: sockets, tasks and timeouts (aiokafka/client.py, aiokafka/conn.py, the waits of the
-- coroutines, the class Fetcher of aiokafka/consumer/fetcher.py, aiokafka/consumer/group_coordinator.py), the making of
-- produce requests and the routine of aiokafka/producer/sender.py that starts the tasks, the round
-- robin and the sticky assignor of aiokafka/coordinator/assignors, the schemas of the messages in
-- aiokafka/protocol and its Float64, aiokafka/record/legacy_records.py,
-- the compression libraries that aiokafka/codec.py calls, the admin client,
-- metrics, and logging. The Cython twins of the record modules are another language.
pub mod Base
pub mod Producer
pub mod Consumer
pub mod Record
pub mod Protocol
pub mod Cluster
pub mod Assignors
