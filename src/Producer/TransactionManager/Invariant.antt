-- ===== src/Producer/TransactionManager/Invariant.antt =====
-- The invariant of the transaction manager: which futures it owns and in what state they are.
pub mod Moves
pub mod Failures
pub mod Offsets
use aiokafka.Base.{ℕ, ◌+◌, ◌<◌, String, Bool, true, false, Option, none, some, List, [], ◌∷◌, ◌++◌}
use aiokafka.Base.{
  ◌⊎◌, inl, inr, sym, ◌≡◌, ◌≢◌, refl, arith, All, All-map, All-append, ℤ, Exception, ok, err, ◌>>=◌,
  eqb, if◌then◌else◌,
}
use aiokafka.Base.Futures.{Future, Heap, pending, resolved, failed, done, write, alloc}
use aiokafka.Base.Keys.{TopicPartition}
use aiokafka.Producer.TransactionManager.{TransactionState, TransactionManager, PendingOffsets}
use aiokafka.Producer.TransactionManager.{uninitialized, ready, in_transaction, abortable_error}
use aiokafka.Producer.TransactionManager.{
  notify, aborting_transaction, renew_waiter, add_partition, maybe_add_partition_to_txn,
  consumer_group_added, is_transition_valid, state_discrete, begin_transaction, transition_to,
  fail_offsets, drop_transaction, set_pid_and_epoch, notify_task_waiter, init,
  committing_transaction, complete_transaction, partition_added, increment_sequence_number,
  make_task_waiter,
}
use aiokafka.Base.Sets
use mathlib.Core.Path.{subst}

-- A transaction that can still succeed.
abbrev pub is_open : TransactionState → Bool
is_open in_transaction = true
is_open TransactionState.committing_transaction = true
is_open TransactionState.aborting_transaction = true
is_open _ = false

-- No transaction was begun since the start or since the last one ended.
abbrev pub is_idle : TransactionState → Bool
is_idle uninitialized = true
is_idle ready = true
is_idle _ = false

-- The states that are reached only once the producer id has come.
abbrev pub is_started : TransactionState → Bool
is_started uninitialized = false
is_started TransactionState.fatal_error = false
is_started _ = true

abbrev pub Avoids : ℕ → List PendingOffsets → Type 0
Avoids w = All (λ p. p.fut ≢ w)

abbrev pub IsApart : Option ℕ → List PendingOffsets → Type 0
IsApart none l = Unit
IsApart (some w) l = Avoids w l

abbrev pub Differ : Option ℕ → Option ℕ → Type 0
Differ none t = Unit
Differ (some w) none = Unit
Differ (some w) (some t) = w ≢ t

abbrev pub IsBelow : ℕ → Option ℕ → Type 0
IsBelow n none = Unit
IsBelow n (some w) = w < n

-- Queued offsets have futures of their own, all pending.
abbrev pub IsQueue : Heap (Unit {0}) → List PendingOffsets → Type 0
IsQueue h [] = Unit
IsQueue h (p ∷ l) = (p.fut < h.next) × (h.at p.fut ≡ pending) × Avoids p.fut l × IsQueue h l

abbrev pub is_failed : Future (Unit {0}) → Bool
is_failed (failed e) = true
is_failed _ = false

abbrev pub Holds : Heap (Unit {0}) → (Future (Unit {0}) → Type 0) → Option ℕ → Type 0
Holds h P none = ⊥
Holds h P (some w) = P (h.at w)

pub record IsValid (s : TransactionManager) : Type 0 where
  pub waiter_below : IsBelow s.futures.next s.transaction_waiter
  pub task_below : IsBelow s.futures.next s.task_waiter
  pub pid_below : s.pid_waiter < s.futures.next
  pub task_apart : Differ s.transaction_waiter s.task_waiter
  pub pid_apart : s.transaction_waiter ≢ some s.pid_waiter
  pub queue : IsQueue s.futures s.pending_txn_offsets
  pub queue_waiter : IsApart s.transaction_waiter s.pending_txn_offsets
  pub queue_task : IsApart s.task_waiter s.pending_txn_offsets
  pub queue_pid : Avoids s.pid_waiter s.pending_txn_offsets
  pub pid_known : is_started s.state ≡ true → done (s.futures.at s.pid_waiter) ≡ true
  -- An open transaction has a waiter that is pending, and one that must be aborted a failed one.
  pub open_waits : is_open s.state ≡ true → Holds s.futures (λ f. f ≡ pending) s.transaction_waiter
  pub abortable_failed :
      s.state ≡ abortable_error → Holds s.futures (λ f. is_failed f ≡ true) s.transaction_waiter
  -- Nothing is left of the last transaction.
  pub idle_txn : is_idle s.state ≡ true → s.txn_partitions ≡ []
  pub idle_group : is_idle s.state ≡ true → s.txn_consumer_group ≡ none
  pub idle_pending : is_idle s.state ≡ true → s.pending_txn_partitions ≡ []
  pub idle_offsets : is_idle s.state ≡ true → s.pending_txn_offsets ≡ []

-- The futures of a queue are below `h.next`, so a new future is none of them.
pub queue-below : (h : Heap (Unit {0})) (l : List PendingOffsets) → IsQueue h l → Avoids h.next l
queue-below h [] q = tt
queue-below h (p ∷ l) q = (λ e. omega arith, queue-below h l q.3)

pub IsQueue-alloc :
    (h : Heap (Unit {0})) (l : List PendingOffsets) → IsQueue h l → IsQueue (alloc h) l
IsQueue-alloc h [] q = tt
IsQueue-alloc h (p ∷ l) q = (omega arith, ground arith, q.2, IsQueue-alloc h l q.3)

pub IsQueue-write :
    (h : Heap (Unit {0})) (l : List PendingOffsets) (w : ℕ) (f : Future (Unit {0}))
    → IsQueue h l
    → Avoids w l
    → IsQueue (write h w f) l
IsQueue-write h [] w f q a = tt
IsQueue-write h (p ∷ l) w f q a = (q.0, ground arith, q.2, IsQueue-write h l w f q.3 a.1)

-- A future that is neither the transaction waiter nor queued can be settled.
pub write-IsValid :
    (s : TransactionManager) (w : ℕ) (f : Future (Unit {0}))
    → IsValid s
    → s.transaction_waiter ≢ some w
    → Avoids w s.pending_txn_offsets
    → done f ≡ true
    → IsValid (record s { futures = write s.futures w f })
write-IsValid s w f v a q d =
    ground (arith, IsQueue-write s.futures s.pending_txn_offsets w f v.queue q)
