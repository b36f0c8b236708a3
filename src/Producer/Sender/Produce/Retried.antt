-- ===== src/Producer/Sender/Produce/Retried.antt =====
-- Answers with errors that can be retried.
use aiokafka.Base.{
  ℕ, true, false, Option, none, some, List, [], ◌∷◌, ◌++◌, if◌then◌else◌, ℤ, negsuc, String,
  is_some, All, arith, refl, sym, ap, ◌∙◌, ◌≡◌, ltb,
}
use aiokafka.Base.{Result, ok, err, continue}
use mathlib.Core.List.{append_assoc, append-nil}
use aiokafka.Base.Keys.{TopicPartition, tp_eq, ◌==◌}
use aiokafka.Base.Dict
use aiokafka.Base.Dict.{Dict}
use aiokafka.Base.BrokerErrors.{
  BrokerResponseError, for_code, retriable, error_eq, no_error, duplicate_sequence_number,
}
use aiokafka.Producer.Sender.Produce.{
  ProduceHandler, PartitionInfo, answer_batch, answer_found, answer_partition, answer_partitions,
  answer_topics, handle_produce_response, can_retry,
}

-- The batches of the request that the answer names, in its order.
abbrev pub at_found : Option ℕ → List ℕ
at_found none = []
at_found (some b) = b ∷ []

abbrev pub at_batch : Dict TopicPartition ℕ → String → PartitionInfo → List ℕ
at_batch batches topic p =
    at_found (Dict.get batches (record { topic = topic; partition = p.partition }))

pub named_in : Dict TopicPartition ℕ → String → List PartitionInfo → List ℕ
named_in batches topic [] = []
named_in batches topic (p ∷ rest) = at_batch batches topic p ++ named_in batches topic rest

pub named : Dict TopicPartition ℕ → List (String × List PartitionInfo) → List ℕ
named batches [] = []
named batches ((topic, l) ∷ rest) = named_in batches topic l ++ named batches rest

abbrev pub IsRetried : PartitionInfo → Type 0
IsRetried p =
    ((for_code p.error_code == no_error) ≡ false)
    × ((for_code p.error_code == duplicate_sequence_number) ≡ false)
    × (retriable (for_code p.error_code) ≡ true)

abbrev Keeps : ProduceHandler → List ℕ → Result (Unit {0}) × ProduceHandler → Type 0
Keeps s l r =
    (r.0 ≡ ok tt) × (r.1.accumulator ≡ s.accumulator) × (r.1.to_reenqueue ≡ s.to_reenqueue ++ l)

Keeps-next :
    (s : ProduceHandler) (l k : List ℕ) (r : Result (Unit {0})) (t : ProduceHandler)
    (f : ProduceHandler → Result (Unit {0}) × ProduceHandler)
    → Keeps s l (r, t)
    → Keeps t k (f t)
    → Keeps s (l ++ k) (continue r (λ u. f) t)
Keeps-next s l k (ok u) t f (a, b, c) (d, e, g) =
    (d, e ∙ b, g ∙ ap (λ z. z ++ k) c ∙ append_assoc s.to_reenqueue l k)
Keeps-next s l k (err x) t f (a, b, c) h = cc

module _ (now version : ℕ) (batches : Dict TopicPartition ℕ) where
  answer_batch-Keeps :
      (b : ℕ) (error : BrokerResponseError) (offset timestamp : ℤ) (log : Option ℤ)
      (s : ProduceHandler)
      → is_some s.accumulator.txn_manager ≡ true
      → (error == no_error) ≡ false
      → (error == duplicate_sequence_number) ≡ false
      → retriable error ≡ true
      → Keeps s (b ∷ []) (answer_batch now b error offset timestamp log s)
  unfolding answer_batch can_retry
  answer_batch-Keeps b error offset timestamp log s m n d r = ground arith

  answer_found-Keeps :
      (p : PartitionInfo) (o : Option ℕ) (s : ProduceHandler)
      → is_some s.accumulator.txn_manager ≡ true
      → IsRetried p
      → Keeps s (at_found o) (answer_found now version p o s)
  unfolding answer_found
  answer_found-Keeps p none s m h = (refl, refl, sym (append-nil s.to_reenqueue))
  answer_found-Keeps p (some b) s m (n, d, r) =
      answer_batch-Keeps b (for_code p.error_code) p.offset
        (if ltb version 2 then negsuc 0 else p.timestamp)
        (if ltb version 5 then none else some p.log_start_offset) s m n d r

  answer_partition-Keeps :
      (topic : String) (p : PartitionInfo) (s : ProduceHandler)
      → is_some s.accumulator.txn_manager ≡ true
      → IsRetried p
      → Keeps s (at_batch batches topic p) (answer_partition now version batches topic p s)
  unfolding answer_partition
  answer_partition-Keeps topic p s m h =
      answer_found-Keeps p (Dict.get batches (record { topic = topic; partition = p.partition })) s
        m h

  answer_partitions-Keeps :
      (topic : String) (l : List PartitionInfo) (s : ProduceHandler)
      → is_some s.accumulator.txn_manager ≡ true
      → All IsRetried l
      → Keeps s (named_in batches topic l) (answer_partitions now version batches topic l s)
  unfolding answer_partitions named_in
  answer_partitions-Keeps topic [] s m h = (refl, refl, sym (append-nil s.to_reenqueue))
  answer_partitions-Keeps topic (p ∷ rest) s m h =
      let first = answer_partition-Keeps topic p s m h.0 in
      let t = (answer_partition now version batches topic p s).1 in
      Keeps-next s (at_batch batches topic p) (named_in batches topic rest)
        (answer_partition now version batches topic p s).0 t
        (answer_partitions now version batches topic rest) first
        (answer_partitions-Keeps topic rest t (ap (λ a. is_some a.txn_manager) first.1 ∙ m) h.1)

  answer_topics-Keeps :
      (l : List (String × List PartitionInfo)) (s : ProduceHandler)
      → is_some s.accumulator.txn_manager ≡ true
      → All (λ d. All IsRetried d.1) l
      → Keeps s (named batches l) (answer_topics now version batches l s)
  unfolding answer_topics named
  answer_topics-Keeps [] s m h = (refl, refl, sym (append-nil s.to_reenqueue))
  answer_topics-Keeps ((topic, l) ∷ rest) s m h =
      let first = answer_partitions-Keeps topic l s m h.0 in
      let t = (answer_partitions now version batches topic l s).1 in
      Keeps-next s (named_in batches topic l) (named batches rest)
        (answer_partitions now version batches topic l s).0 t
        (answer_topics now version batches rest) first
        (answer_topics-Keeps rest t (ap (λ a. is_some a.txn_manager) first.1 ∙ m) h.1)

-- An idempotent producer never gives a batch up for an error that can be retried, however old the batch is: an
-- answer with such errors only leaves every batch and every future as they are, and keeps the batches
-- that it names, in its order, to be sent again.
pub handle_produce_response_retries :
    (now version : ℕ) (topics : List (String × List PartitionInfo)) (s : ProduceHandler)
    → is_some s.accumulator.txn_manager ≡ true
    → All (λ d. All IsRetried d.1) topics
    → ((handle_produce_response now version topics s).0 ≡ ok tt)
      × ((handle_produce_response now version topics s).1.accumulator ≡ s.accumulator)
      × ((handle_produce_response now version topics s).1.to_reenqueue
          ≡ s.to_reenqueue ++ named s.batches topics)
unfolding handle_produce_response
handle_produce_response_retries now version topics s m h =
    answer_topics-Keeps now version s.batches topics s m h
