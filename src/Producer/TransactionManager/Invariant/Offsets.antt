-- ===== src/Producer/TransactionManager/Invariant/Offsets.antt =====
-- Offsets that are queued for the transaction, and the responses that commit them.
use aiokafka.Base.{ℕ, ◌<◌, String, true, Option, none, some, List, [], ◌∷◌, ◌++◌}
use aiokafka.Base.{inl, inr, sym, ◌≡◌, ◌≢◌, refl, arith, All-append, ok}
use aiokafka.Base.Futures.{Heap, pending, resolved, write, alloc}
use aiokafka.Base.Keys.{TopicPartition}
use aiokafka.Producer.TransactionManager.{TransactionManager, PendingOffsets}
use aiokafka.Producer.TransactionManager.{notify_task_waiter}
use aiokafka.Producer.TransactionManager.Invariant.{
  IsValid, IsQueue, IsQueue-alloc, IsApart, IsBelow, IsQueue-write, queue-below, Avoids,
}
use aiokafka.Producer.TransactionManager.{
  notify_task_waiter, Offsets, add_offsets_to_txn, offset_committed, commit_first,
  is_in_transaction, truthy,
}
use aiokafka.Producer.TransactionManager.Invariant.Moves.{
  notify_task_waiter-IsValid, notify_task_waiter_ok,
}
use aiokafka.Base.{Bool-cases}
use aiokafka.Base.Dict
use aiokafka.Base.Keys.{tp_eq, string_eq}

IsQueue-snoc :
    (h : Heap (Unit {0})) (l : List PendingOffsets) (p : PendingOffsets)
    → IsQueue h l
    → p.fut < h.next
    → h.at p.fut ≡ pending
    → Avoids p.fut l
    → IsQueue h (l ++ p ∷ [])
IsQueue-snoc h [] p q b f a = (b, f, tt, tt)
IsQueue-snoc h (x ∷ l) p q b f a = (
  q.0,
  q.1,
  All-append (λ y. y.fut ≢ x.fut) l (p ∷ []) q.2 (λ e. a.0 (sym e), tt),
  IsQueue-snoc h l p q.3 b f a.1,
)

-- The manager with one more entry in its queue, whose future is new.
abbrev pub queued : Offsets → String → TransactionManager → TransactionManager
queued offsets group_id s = record s {
  futures = alloc s.futures;
  pending_txn_offsets =
      s.pending_txn_offsets
      ++ record { group_id = group_id; offsets = offsets; fut = s.futures.next } ∷ [];
}

Avoids-snoc :
    (w : ℕ) (l : List PendingOffsets) (p : PendingOffsets)
    → Avoids w l
    → p.fut ≢ w
    → Avoids w (l ++ p ∷ [])
Avoids-snoc w l p a h = All-append (λ q. q.fut ≢ w) l (p ∷ []) a (h, tt)

IsApart-snoc :
    (o : Option ℕ) (n : ℕ) (l : List PendingOffsets) (p : PendingOffsets)
    → IsApart o l
    → IsBelow n o
    → p.fut ≡ n
    → IsApart o (l ++ p ∷ [])
IsApart-snoc none n l p a b e = tt
IsApart-snoc (some w) n l p a b e = Avoids-snoc w l p a (λ h. omega arith)

queued-IsValid :
    (offsets : Offsets) (g : String) (s : TransactionManager)
    → is_in_transaction s.state ≡ true
    → IsValid s
    → IsValid (queued offsets g s)
queued-IsValid offsets g s e v =
    let p : PendingOffsets = record { group_id = g; offsets = offsets; fut = s.futures.next } in
    ground (
      arith,
      IsQueue-snoc (alloc s.futures) s.pending_txn_offsets p
          (IsQueue-alloc s.futures s.pending_txn_offsets v.queue),
      queue-below s.futures s.pending_txn_offsets v.queue,
      IsApart-snoc s.transaction_waiter s.futures.next s.pending_txn_offsets p v.queue_waiter
          v.waiter_below refl,
      IsApart-snoc s.task_waiter s.futures.next s.pending_txn_offsets p v.queue_task v.task_below
          refl,
      Avoids-snoc s.pid_waiter s.pending_txn_offsets p v.queue_pid,
    )

pub add_offsets_to_txn_lem :
    (offsets : Offsets) (g : String) (s : TransactionManager)
    → is_in_transaction s.state ≡ true
    → truthy s.transactional_id ≡ true
    → add_offsets_to_txn offsets g s
      ≡ (ok s.futures.next, (notify_task_waiter (queued offsets g s)).1)
unfolding add_offsets_to_txn
add_offsets_to_txn_lem offsets g s e t = rw (e, t, notify_task_waiter_ok)

pub add_offsets_to_txn-IsValid :
    (offsets : Offsets) (g : String) (s : TransactionManager)
    → IsValid s
    → IsValid (add_offsets_to_txn offsets g s).1
unfolding add_offsets_to_txn
add_offsets_to_txn-IsValid offsets g s v = elim (Bool-cases (is_in_transaction s.state)) [
  | inl e ↦ elim (Bool-cases (truthy s.transactional_id)) [
    | inl t ↦
        rw (e, t, notify_task_waiter_ok)
          (notify_task_waiter-IsValid _ (queued-IsValid offsets g s e v))
    | inr t ↦ rw (e, t) v
  ]
  | inr e ↦ rw e v
]

-- The head of the queue with other offsets, and the queue without its head.
abbrev headed :
    Offsets → PendingOffsets → List PendingOffsets → TransactionManager → TransactionManager
headed offsets p rest s = record s { pending_txn_offsets = record p { offsets = offsets } ∷ rest }

abbrev popped : PendingOffsets → List PendingOffsets → TransactionManager → TransactionManager
popped p rest s = record s {
  futures = write s.futures p.fut (resolved tt);
  pending_txn_offsets = rest;
}

headed-IsValid :
    (offsets : Offsets) (p : PendingOffsets) (rest : List PendingOffsets) (s : TransactionManager)
    → s.pending_txn_offsets ≡ p ∷ rest
    → IsValid s
    → IsValid (headed offsets p rest s)
headed-IsValid offsets p rest s e v = ground arith

popped-IsValid :
    (p : PendingOffsets) (rest : List PendingOffsets) (s : TransactionManager)
    → s.pending_txn_offsets ≡ p ∷ rest
    → IsValid s
    → IsValid (popped p rest s)
popped-IsValid p rest s e v = ground (arith, IsQueue-write s.futures rest p.fut (resolved tt))

commit_first-IsValid :
    (tp : TopicPartition) (offset : ℕ) (g : String) (l : List PendingOffsets)
    (s : TransactionManager)
    → s.pending_txn_offsets ≡ l
    → IsValid s
    → IsValid (commit_first tp offset g l s).1
unfolding commit_first
commit_first-IsValid tp offset g [] s e v = v
commit_first-IsValid tp offset g (p ∷ rest) s e v =
    ground
      (arith, headed-IsValid (Dict.remove p.offsets tp) p rest s e v, popped-IsValid p rest s e v)

pub offset_committed-IsValid :
    (tp : TopicPartition) (offset : ℕ) (g : String) (s : TransactionManager)
    → IsValid s
    → IsValid (offset_committed tp offset g s).1
unfolding offset_committed
offset_committed-IsValid tp offset g s v =
    commit_first-IsValid tp offset g s.pending_txn_offsets s refl v
