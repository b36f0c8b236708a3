-- ===== src/Producer/TransactionManager/Invariant/Failures.antt =====
-- When a transaction fails: the queued futures and the transaction waiter fail with the exception.
use aiokafka.Base.{ℕ, true, Option, none, some, List, [], ◌∷◌}
use aiokafka.Base.{◌⊎◌, inl, inr, ◌≡◌, refl, arith, All, All-map, Exception, ok, err}
use aiokafka.Base.Futures.{Future, Heap, pending, resolved, failed, done, write, alloc}
use aiokafka.Producer.TransactionManager.{TransactionState, TransactionManager, PendingOffsets}
use aiokafka.Producer.TransactionManager.{abortable_error}
use aiokafka.Producer.TransactionManager.{renew_waiter, fail_offsets, drop_transaction}
use mathlib.Core.Path.{subst}
use aiokafka.Base.{attribute_error, Option-cases}
use aiokafka.Producer.TransactionManager.{
  renew_waiter, drop_transaction, error_transaction, fatal_error,
}
use aiokafka.Producer.TransactionManager.Invariant.{
  is_open, is_started, IsValid, IsQueue, IsApart, IsQueue-write, Avoids,
}

-- The heap after every future of the queue has failed.
pub fail_all : Heap (Unit {0}) → Exception → List PendingOffsets → Heap (Unit {0})
fail_all h exc [] = h
fail_all h exc (p ∷ l) = fail_all (write h p.fut (failed exc)) exc l

pub next-fail_all :
    (h : Heap (Unit {0})) (exc : Exception) (l : List PendingOffsets)
    → (fail_all h exc l).next ≡ h.next
unfolding fail_all
next-fail_all h exc [] = refl
next-fail_all h exc (p ∷ l) = next-fail_all (write h p.fut (failed exc)) exc l

pub at-fail_all :
    (h : Heap (Unit {0})) (exc : Exception) (l : List PendingOffsets) (w : ℕ)
    → Avoids w l
    → (fail_all h exc l).at w ≡ h.at w
unfolding fail_all
at-fail_all h exc [] w a = refl
at-fail_all h exc (p ∷ l) w a = ground (arith, at-fail_all (write h p.fut (failed exc)) exc l w a.1)

abbrev pub Failed : Heap (Unit {0}) → Exception → List PendingOffsets → Type 0
Failed h exc = All (λ p. h.at p.fut ≡ failed exc)

pub fail_all-Failed :
    (h : Heap (Unit {0})) (exc : Exception) (l : List PendingOffsets)
    → IsQueue h l
    → Failed (fail_all h exc l) exc l
unfolding fail_all
fail_all-Failed h exc [] q = tt
fail_all-Failed h exc (p ∷ l) q = (
  ground (arith, at-fail_all (write h p.fut (failed exc)) exc l p.fut q.2),
  fail_all-Failed (write h p.fut (failed exc)) exc l (IsQueue-write h l p.fut (failed exc) q.3 q.2),
)

pub Failed-write :
    (h : Heap (Unit {0})) (exc : Exception) (l : List PendingOffsets) (w : ℕ)
    → Failed h exc l
    → Failed (write h w (failed exc)) exc l
Failed-write h exc l w = All-map _ _ (λ p a. ground arith) l

fail_offsets_lem :
    (exc : Exception) (l : List PendingOffsets) (s : TransactionManager)
    → IsQueue s.futures l
    → fail_offsets exc l s ≡ (ok tt, record s { futures = fail_all s.futures exc l })
unfolding fail_offsets fail_all
fail_offsets_lem exc [] s q = refl
fail_offsets_lem exc (p ∷ l) s q = ground (
  arith,
  fail_offsets_lem exc l (record s { futures = write s.futures p.fut (failed exc) }),
  IsQueue-write s.futures l p.fut (failed exc) q.3 q.2,
)

-- The manager that `drop_transaction` leaves.
abbrev pub dropped : Exception → TransactionManager → TransactionManager
dropped exc s = record s {
  futures = fail_all s.futures exc s.pending_txn_offsets;
  txn_partitions = [];
  txn_consumer_group = none;
  pending_txn_partitions = [];
  pending_txn_offsets = [];
}

pub IsApart→Avoids :
    (o : Option ℕ) (w : ℕ) (l : List PendingOffsets) → o ≡ some w → IsApart o l → Avoids w l
IsApart→Avoids none w l e a = cc
IsApart→Avoids (some v) w l e a = let e' : v ≡ w = cc in subst (λ x. Avoids x l) e' a

drop_transaction_lem :
    (exc : Exception) (s : TransactionManager)
    → IsQueue s.futures s.pending_txn_offsets
    → drop_transaction exc s ≡ (ok tt, dropped exc s)
unfolding drop_transaction
drop_transaction_lem exc s q = rw (
    fail_offsets_lem exc s.pending_txn_offsets
      (record s { txn_partitions = []; pending_txn_partitions = []; txn_consumer_group = none }) q)

abbrev pub waiter_failed : Exception → ℕ → TransactionManager → TransactionManager
waiter_failed exc w s = record s { futures = write s.futures w (failed exc) }

pub error_transaction_lem :
    (exc : Exception) (w : ℕ) (s : TransactionManager)
    → IsValid s
    → s.transaction_waiter ≡ some w
    → s.futures.at w ≡ pending
    → error_transaction exc s
      ≡ (ok tt, waiter_failed exc w (dropped exc (record s { state = abortable_error })))
unfolding error_transaction
error_transaction_lem exc w s v e p = rw (
  drop_transaction_lem exc (record s { state = abortable_error }) v.queue,
  e,
  at-fail_all s.futures exc s.pending_txn_offsets w (IsApart→Avoids _ w _ e v.queue_waiter),
  p,
)

pub fatal_error_unstarted :
    (exc : Exception) (s : TransactionManager)
    → IsQueue s.futures s.pending_txn_offsets
    → s.transaction_waiter ≡ none
    → fatal_error exc s
      ≡ (err attribute_error, dropped exc (record s { state = TransactionState.fatal_error }))
unfolding fatal_error
fatal_error_unstarted exc s q e =
    rw (drop_transaction_lem exc (record s { state = TransactionState.fatal_error }) q, e)

pub fatal_error_pending :
    (exc : Exception) (w : ℕ) (s : TransactionManager)
    → IsValid s
    → s.transaction_waiter ≡ some w
    → s.futures.at w ≡ pending
    → fatal_error exc s ≡ (
      ok tt,
      waiter_failed exc w (dropped exc (record s { state = TransactionState.fatal_error })),
    )
unfolding fatal_error renew_waiter
fatal_error_pending exc w s v e p = rw (
  drop_transaction_lem exc (record s { state = TransactionState.fatal_error }) v.queue,
  e,
  at-fail_all s.futures exc s.pending_txn_offsets w (IsApart→Avoids _ w _ e v.queue_waiter),
  p,
  at-fail_all s.futures exc s.pending_txn_offsets w (IsApart→Avoids _ w _ e v.queue_waiter),
  p,
)

-- The manager whose transaction waiter is a new future.
abbrev pub renewed : TransactionManager → TransactionManager
renewed s = record s { futures = alloc s.futures; transaction_waiter = some s.futures.next }

pub fatal_error_ended :
    (exc : Exception) (w : ℕ) (s : TransactionManager)
    → IsValid s
    → s.transaction_waiter ≡ some w
    → done (s.futures.at w) ≡ true
    → fatal_error exc s ≡ (
      ok tt,
      waiter_failed exc s.futures.next
          (renewed (dropped exc (record s { state = TransactionState.fatal_error }))),
    )
unfolding fatal_error renew_waiter
fatal_error_ended exc w s v e p =
    rw
      (
        drop_transaction_lem exc (record s { state = TransactionState.fatal_error }) v.queue,
        e,
        at-fail_all s.futures exc s.pending_txn_offsets w (IsApart→Avoids _ w _ e v.queue_waiter),
        p,
      )
      (ground (arith, next-fail_all s.futures exc s.pending_txn_offsets))

dropped-IsValid :
    (exc : Exception) (target : TransactionState) (w : ℕ) (s : TransactionManager)
    → IsValid s
    → s.transaction_waiter ≡ some w
    → (is_started s.state ≡ true) ⊎ (target ≡ TransactionState.fatal_error)
    → (target ≡ abortable_error) ⊎ (target ≡ TransactionState.fatal_error)
    → IsValid (waiter_failed exc w (dropped exc (record s { state = target })))
dropped-IsValid exc target w s v e h t = ground (
  arith,
  next-fail_all s.futures exc s.pending_txn_offsets,
  at-fail_all s.futures exc s.pending_txn_offsets s.pid_waiter v.queue_pid,
  at-fail_all s.futures exc s.pending_txn_offsets w (IsApart→Avoids _ w _ e v.queue_waiter),
)

renewed-IsValid :
    (exc : Exception) (s : TransactionManager)
    → IsValid s
    → IsValid (
        waiter_failed exc s.futures.next
          (renewed (dropped exc (record s { state = TransactionState.fatal_error }))))
renewed-IsValid exc s v = ground (arith, next-fail_all s.futures exc s.pending_txn_offsets)

unstarted-IsValid :
    (exc : Exception) (s : TransactionManager)
    → IsValid s
    → s.transaction_waiter ≡ none
    → IsValid (dropped exc (record s { state = TransactionState.fatal_error }))
unstarted-IsValid exc s v e = ground (arith, next-fail_all s.futures exc s.pending_txn_offsets)

open-pending :
    (s : TransactionManager)
    → is_open s.state ≡ true
    → IsValid s
    → (w : ℕ) × (s.transaction_waiter ≡ some w) × (s.futures.at w ≡ pending)
open-pending s h v = ground arith

is_started_of_open : (state : TransactionState) → is_open state ≡ true → is_started state ≡ true
is_started_of_open state h = ground arith

pub pending-or-done : (f : Future (Unit {0})) → (f ≡ pending) ⊎ (done f ≡ true)
pending-or-done pending = inl refl
pending-or-done (resolved v) = inr refl
pending-or-done (failed e) = inr refl
pending-or-done Future.cancelled = inr refl

pub error_transaction-IsValid :
    (exc : Exception) (s : TransactionManager)
    → is_open s.state ≡ true
    → IsValid s
    → IsValid (error_transaction exc s).1
error_transaction-IsValid exc s h v =
    let (w, e, p) = open-pending s h v in
    rw (error_transaction_lem exc w s v e p)
      (dropped-IsValid exc abortable_error w s v e (inl (is_started_of_open s.state h)) (inl refl))

pub fatal_error-IsValid :
    (exc : Exception) (s : TransactionManager) → IsValid s → IsValid (fatal_error exc s).1
fatal_error-IsValid exc s v = elim (Option-cases s.transaction_waiter) [
  | inl e ↦ rw (fatal_error_unstarted exc s v.queue e) (unstarted-IsValid exc s v e)
  | inr (w, e) ↦ elim (pending-or-done (s.futures.at w)) [
    | inl p ↦
        rw (fatal_error_pending exc w s v e p) (dropped-IsValid exc _ w s v e (inr refl) (inr refl))
    | inr d ↦ rw (fatal_error_ended exc w s v e d) (renewed-IsValid exc s v)
  ]
]
