-- ===== src/Producer/Sender/Handlers/Reachable.antt =====
-- Whatever a broker answers, the handlers only do to the transaction manager what its step relation has.
use aiokafka.Base.{
  ℕ, String, Bool, true, false, Option, none, some, List, [], ◌∷◌, ℤ, ◌≡◌, refl, sym, ◌⊎◌, inl, inr,
  arith, Exception, Result, ok, err, broker, continue,
}
use aiokafka.Base.Keys.{TopicPartition, tp_eq, string_eq}
use aiokafka.Base.Dict
use aiokafka.Base.BrokerErrors.{BrokerResponseError, for_code, topic_authorization_failed_error}
use aiokafka.Producer.TransactionManager.{
  TransactionManager, Offsets, set_pid_and_epoch, partition_added, error_transaction,
  consumer_group_added, offset_committed, complete_transaction,
}
use aiokafka.Producer.TransactionManager.Invariant.{is_open, is_idle, is_started}
use aiokafka.Producer.TransactionManager.Traces
use aiokafka.Producer.TransactionManager.Traces.{Reach}
use aiokafka.Producer.TransactionManager.Outcomes.{partition_added-state, offset_committed-state}
use aiokafka.Producer.Sender.{Sender, coordinator_dead}
use aiokafka.Producer.Sender.Handlers.{
  Loop, next, return, proceed, Response, init_pid, add_partitions_to_txn, add_offsets_to_txn,
  txn_offset_commit, end_txn, handle_response, init_pid_answer, add_partition_answer,
  add_partitions_loop, add_topics_loop, end_add_partitions, add_offsets_answer, commit_offset,
  offset_commit_answer, offset_partitions_loop, offset_topics_loop, end_offset_commit,
  end_txn_answer,
}
use mathlib.Core.Path.{subst}

abbrev Or2 : TransactionManager → TransactionManager → TransactionManager → Type 0
Or2 t s u = (t ≡ s) ⊎ (t ≡ u)

module _ (s : Sender) where
  init_pid_answer_moves :
      (e : BrokerResponseError) (p q : ℤ)
      → Or2
          (init_pid_answer e p q s).1.txn_manager
          s.txn_manager
          (set_pid_and_epoch p q s.txn_manager).1
  unfolding init_pid_answer coordinator_dead
  init_pid_answer_moves e p q = ground arith

  add_partition_answer_moves :
      (tp : TopicPartition) (e : BrokerResponseError) (u : List String)
      → Or2
          (add_partition_answer tp e u s).1.txn_manager
          s.txn_manager
          (partition_added tp s.txn_manager).1
  unfolding add_partition_answer coordinator_dead
  add_partition_answer_moves tp e u = ground arith

  add_offsets_answer_moves :
      (g : String) (e : BrokerResponseError)
      → Or2
          (add_offsets_answer g e s).1.txn_manager
          s.txn_manager
          (consumer_group_added g s.txn_manager).1
        ⊎ ((add_offsets_answer g e s).1.txn_manager
            ≡ (error_transaction (broker e) s.txn_manager).1)
  unfolding add_offsets_answer coordinator_dead
  add_offsets_answer_moves g e = ground arith

  end_txn_answer_moves :
      (e : BrokerResponseError)
      → Or2 (end_txn_answer e s).1.txn_manager s.txn_manager (complete_transaction s.txn_manager).1
  unfolding end_txn_answer coordinator_dead
  end_txn_answer_moves e = ground arith

module _ (id : Option String) where
  Or2-Reach : {t s u : TransactionManager} → Or2 t s u → Reach id s → Reach id u → Reach id t
  Or2-Reach (inl e) r q = subst (Reach id) (sym e) r
  Or2-Reach (inr e) r q = subst (Reach id) (sym e) q

  abbrev Follows : Sender → Type 0
  Follows t = Reach id t.txn_manager

  abbrev Opened : Sender → Type 0
  Opened t = Reach id t.txn_manager × (is_open t.txn_manager.state ≡ true)

  -- A loop that goes on has left the transaction open.
  abbrev Ends : {A : Type 0} → Result (Loop A) → Sender → Type 0
  Ends (ok (next a)) t = Opened t
  Ends (ok (return b)) t = Follows t
  Ends (err e) t = Follows t

  Ends-proceed :
      {A : Type 0} (r : Result (Loop A)) (t : Sender) (f : A → Sender → Result (Loop A) × Sender)
      → Ends r t
      → ((a : A) (u : Sender) → Opened u → Ends (f a u).0 (f a u).1)
      → Ends (continue r (λ d. proceed d f) t).0 (continue r (λ d. proceed d f) t).1
  Ends-proceed (ok (next a)) t f h k = k a t h
  Ends-proceed (ok (return b)) t f h k = h
  Ends-proceed (err e) t f h k = h

  Ends-Follows : {A : Type 0} (r : Result (Loop A)) (t : Sender) → Ends r t → Follows t
  Ends-Follows (ok (next a)) t h = h.0
  Ends-Follows (ok (return b)) t h = h
  Ends-Follows (err e) t h = h

  add_partition_answer-Ends :
      (tp : TopicPartition) (e : BrokerResponseError) (u : List String) (s : Sender)
      → Opened s
      → Ends (add_partition_answer tp e u s).0 (add_partition_answer tp e u s).1
  unfolding add_partition_answer coordinator_dead
  add_partition_answer-Ends tp e u s h =
      let q : Reach id (partition_added tp s.txn_manager).1 =
        Reach.next h.0 (Traces.partition_there tp) in
      ground (arith, partition_added-state tp s.txn_manager)

  add_partitions_loop-Ends :
      (topic : String) (l : List (ℕ × ℤ)) (u : List String) (s : Sender)
      → Opened s
      → Ends (add_partitions_loop topic l u s).0 (add_partitions_loop topic l u s).1
  unfolding add_partitions_loop
  add_partitions_loop-Ends topic [] u s h = h
  add_partitions_loop-Ends topic ((p, c) ∷ l) u s h =
      let tp : TopicPartition = record { topic = topic; partition = p } in
      Ends-proceed (add_partition_answer tp (for_code c) u s).0
        (add_partition_answer tp (for_code c) u s).1 (add_partitions_loop topic l)
        (add_partition_answer-Ends tp (for_code c) u s h) (add_partitions_loop-Ends topic l)

  add_topics_loop-Ends :
      (l : List (String × List (ℕ × ℤ))) (u : List String) (s : Sender)
      → Opened s
      → Ends (add_topics_loop l u s).0 (add_topics_loop l u s).1
  unfolding add_topics_loop
  add_topics_loop-Ends [] u s h = h
  add_topics_loop-Ends ((topic, ps) ∷ l) u s h =
      Ends-proceed (add_partitions_loop topic ps u s).0 (add_partitions_loop topic ps u s).1
        (add_topics_loop l) (add_partitions_loop-Ends topic ps u s h) (add_topics_loop-Ends l)

  commit_offset-Ends :
      (tp : TopicPartition) (g : String) (offsets : Offsets) (o : Option ℕ) (s : Sender)
      → Opened s
      → Ends (commit_offset tp g offsets o s).0 (commit_offset tp g offsets o s).1
  unfolding commit_offset
  commit_offset-Ends tp g offsets none s h = h.0
  commit_offset-Ends tp g offsets (some o) s h =
      let q : Reach id (offset_committed tp o g s.txn_manager).1 =
        Reach.next h.0 (Traces.offset_there tp o g) in
      ground (arith, offset_committed-state tp o g s.txn_manager)

  error_transaction-Reach :
      (exc : Exception) (s : Sender) → Opened s → Reach id (error_transaction exc s.txn_manager).1
  error_transaction-Reach exc s h = Reach.next h.0 (Traces.failed_with exc h.1)

  offset_commit_answer-Ends :
      (tp : TopicPartition) (g : String) (e : BrokerResponseError) (offsets : Offsets) (s : Sender)
      → Opened s
      → Ends (offset_commit_answer tp g e offsets s).0 (offset_commit_answer tp g e offsets s).1
  unfolding offset_commit_answer coordinator_dead
  offset_commit_answer-Ends tp g e offsets s h =
      let c = commit_offset-Ends tp g offsets (Dict.get offsets tp) s h in
      let q = error_transaction-Reach (broker e) s h in ground arith

  offset_partitions_loop-Ends :
      (g topic : String) (l : List (ℕ × ℤ)) (offsets : Offsets) (s : Sender)
      → Opened s
      → Ends
          (offset_partitions_loop g topic l offsets s).0
          (offset_partitions_loop g topic l offsets s).1
  unfolding offset_partitions_loop
  offset_partitions_loop-Ends g topic [] offsets s h = h
  offset_partitions_loop-Ends g topic ((p, c) ∷ l) offsets s h =
      let tp : TopicPartition = record { topic = topic; partition = p } in
      Ends-proceed (offset_commit_answer tp g (for_code c) offsets s).0
        (offset_commit_answer tp g (for_code c) offsets s).1 (offset_partitions_loop g topic l)
        (offset_commit_answer-Ends tp g (for_code c) offsets s h)
        (offset_partitions_loop-Ends g topic l)

  offset_topics_loop-Ends :
      (g : String) (l : List (String × List (ℕ × ℤ))) (offsets : Offsets) (s : Sender)
      → Opened s
      → Ends (offset_topics_loop g l offsets s).0 (offset_topics_loop g l offsets s).1
  unfolding offset_topics_loop
  offset_topics_loop-Ends g [] offsets s h = h
  offset_topics_loop-Ends g ((topic, ps) ∷ l) offsets s h =
      Ends-proceed (offset_partitions_loop g topic ps offsets s).0
        (offset_partitions_loop g topic ps offsets s).1 (offset_topics_loop g l)
        (offset_partitions_loop-Ends g topic ps offsets s h) (offset_topics_loop-Ends g l)

  end_add_partitions-Follows :
      (r : Result (Loop (List String))) (s : Sender)
      → Ends r s
      → Follows (continue r end_add_partitions s).1
  unfolding end_add_partitions
  end_add_partitions-Follows (err e) s h = h
  end_add_partitions-Follows (ok (return b)) s h = h
  end_add_partitions-Follows (ok (next [])) s h = h.0
  end_add_partitions-Follows (ok (next (t ∷ u))) s h =
      let q = error_transaction-Reach (broker topic_authorization_failed_error) s h in ground arith

  end_offset_commit-Follows :
      (r : Result (Loop Offsets)) (s : Sender)
      → Ends r s
      → Follows (continue r end_offset_commit s).1
  unfolding end_offset_commit
  end_offset_commit-Follows (err e) s h = h
  end_offset_commit-Follows (ok (return b)) s h = h
  end_offset_commit-Follows (ok (next offsets)) s h = h.0

open_not_idle : (s : TransactionManager) → is_open s.state ≡ true → is_idle s.state ≡ false
open_not_idle s h = ground arith

open_started : (s : TransactionManager) → is_open s.state ≡ true → is_started s.state ≡ true
open_started s h = ground arith

-- All but the answer to the request for a producer id belong to a transaction.
abbrev pub of_transaction : Response → Bool
of_transaction (init_pid error_code producer_id producer_epoch) = false
of_transaction _ = true

-- Whatever the broker answers, known error or not, a handler only does to the transaction manager what
-- its step relation has: from a manager that was reached it leaves one that is reached, also where it
-- raises. The answers to requests of a transaction come while the transaction is open.
pub handle_response-Reach :
    (id : Option String) (r : Response) (s : Sender)
    → Reach id s.txn_manager
    → (of_transaction r ≡ true → is_open s.txn_manager.state ≡ true)
    → Reach id (handle_response r s).1.txn_manager
unfolding handle_response
handle_response-Reach id (init_pid c p q) s h o =
    Or2-Reach id (init_pid_answer_moves s (for_code c) p q) h
      (Reach.next h (Traces.pid_and_epoch p q))
handle_response-Reach id (add_partitions_to_txn l) s h o =
    end_add_partitions-Follows id (add_topics_loop l [] s).0 (add_topics_loop l [] s).1
      (add_topics_loop-Ends id l [] s (h, o refl))
handle_response-Reach id (add_offsets_to_txn g c) s h o =
    elim (add_offsets_answer_moves s g (for_code c)) [
      | inl e ↦
          Or2-Reach id e h
            (Reach.next h (Traces.group_there g (open_not_idle s.txn_manager (o refl))))
      | inr e ↦
          subst (Reach id) (sym e) (error_transaction-Reach id (broker (for_code c)) s (h, o refl))
    ]
handle_response-Reach id (txn_offset_commit offsets g l) s h o =
    end_offset_commit-Follows id (offset_topics_loop g l offsets s).0
      (offset_topics_loop g l offsets s).1 (offset_topics_loop-Ends id g l offsets s (h, o refl))
handle_response-Reach id (end_txn c) s h o =
    Or2-Reach id (end_txn_answer_moves s (for_code c)) h
      (Reach.next h (Traces.completed (open_started s.txn_manager (o refl))))
