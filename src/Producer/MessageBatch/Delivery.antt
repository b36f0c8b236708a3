-- ===== src/Producer/MessageBatch/Delivery.antt =====
-- What becomes of the futures of a batch.
use aiokafka.Base.{
  ℕ, true, false, Option, some, List, [], ◌∷◌, ◌≡◌, ◌≢◌, refl, sym, ap, ◌∙◌, inl, inr, arith, ℤ,
  All, Bool-cases, if◌then◌else◌,
}
use mathlib.Core.Path.{subst}
use aiokafka.Base.Futures.{Future, Heap, pending, resolved, done, write}
use aiokafka.Base.Keys.{TopicPartition}
use aiokafka.Producer.MessageBatch.{
  Metadata, Delivered, Batch, is_unset, timestamp_type_of, filled, delivery, done_messages,
  done_batch, set_future,
}

abbrev pub Avoids : ℕ → List (ℕ × Metadata) → Type 0
Avoids f = All (λ m. m.0 ≢ f)

-- Every message has a future of its own.
abbrev pub IsApart : List (ℕ × Metadata) → Type 0
IsApart [] = Unit
IsApart ((f, m) ∷ l) = Avoids f l × IsApart l

-- The timestamp of the first message that still waits, if the broker gave none.
pub used_timestamp : ℤ → List (ℕ × Metadata) → Heap Delivered → ℤ
used_timestamp timestamp [] h = timestamp
used_timestamp timestamp ((f, m) ∷ l) h =
    let later = used_timestamp timestamp l h in if done (h.at f) then later else filled timestamp m

filled_set :
    (timestamp : ℤ) (m : Metadata)
    → is_unset m.timestamp ≡ false
    → is_unset (filled timestamp m) ≡ false
filled_set timestamp m u = ground arith

at-write : (h : Heap Delivered) (f : ℕ) (g : Future Delivered) → (write h f g).at f ≡ g
at-write h f g = ground arith

at-write_other :
    (h : Heap Delivered) (f : ℕ) (g : Future Delivered) (q : ℕ)
    → q ≢ f
    → (write h f g).at q ≡ h.at q
at-write_other h f g q n = ground arith

at-set_future_other :
    (h : Heap Delivered) (f : ℕ) (g : Future Delivered) (q : ℕ)
    → q ≢ f
    → (set_future h f g).at q ≡ h.at q
at-set_future_other h f g q n = ground arith

used_timestamp-set_future :
    (timestamp : ℤ) (l : List (ℕ × Metadata)) (h : Heap Delivered) (f : ℕ) (g : Future Delivered)
    → Avoids f l
    → used_timestamp timestamp l (set_future h f g) ≡ used_timestamp timestamp l h
unfolding used_timestamp
used_timestamp-set_future timestamp [] h f g a = refl
used_timestamp-set_future timestamp (m ∷ l) h f g a =
    rw (at-set_future_other h f g m.0 a.0, used_timestamp-set_future timestamp l h f g a.1) refl

module _ (tp : TopicPartition) (base : ℤ) (kind : ℕ) (log : Option ℤ) where
  abbrev after : List (ℕ × Metadata) → ℤ → Heap Delivered → Heap Delivered
  after l timestamp h = done_messages tp base kind log l timestamp h

  at-done_messages :
      (l : List (ℕ × Metadata)) (timestamp : ℤ) (h : Heap Delivered) (q : ℕ)
      → Avoids q l
      → (after l timestamp h).at q ≡ h.at q
  unfolding done_messages
  at-done_messages [] timestamp h q a = refl
  at-done_messages ((f, m) ∷ l) timestamp h q a = ground (
    arith,
    at-done_messages l timestamp h q a.1,
    at-done_messages l (filled timestamp m)
        (write h f (resolved (some (delivery tp base kind log m (filled timestamp m))))) q a.1,
  )

  abbrev Resolves : ℤ → Heap Delivered → Heap Delivered → ℕ × Metadata → Type 0
  Resolves timestamp h h' m =
      h.at m.0 ≡ pending → h'.at m.0 ≡ resolved (some (delivery tp base kind log m.1 timestamp))

  still_pending :
      (f : ℕ) (timestamp : ℤ) (h h1 h' : Heap Delivered) (l : List (ℕ × Metadata))
      → ((q : ℕ) → q ≢ f → h1.at q ≡ h.at q)
      → Avoids f l
      → All (Resolves timestamp h1 h') l
      → All (Resolves timestamp h h') l
  still_pending f timestamp h h1 h' [] same a r = tt
  still_pending f timestamp h h1 h' (m ∷ l) same a r =
      (λ e. r.0 (same m.0 a.0 ∙ e), still_pending f timestamp h h1 h' l same a.1 r.1)

  used-set :
      (l : List (ℕ × Metadata)) (timestamp : ℤ) (h : Heap Delivered)
      → is_unset timestamp ≡ false
      → used_timestamp timestamp l h ≡ timestamp
  unfolding used_timestamp
  used-set [] timestamp h e = refl
  used-set (m ∷ l) timestamp h e = ground (arith, used-set l timestamp h e)

  -- What the loop gives, with the timestamp that it uses.
  abbrev outcome : List (ℕ × Metadata) → ℤ → Heap Delivered → ℤ × Heap Delivered
  outcome l timestamp h = (used_timestamp timestamp l h, after l timestamp h)

  abbrev taken : Metadata → ℤ → Future Delivered
  taken m timestamp = resolved (some (delivery tp base kind log m (filled timestamp m)))

  outcome_if_done :
      (f : ℕ) (m : Metadata) (l : List (ℕ × Metadata)) (timestamp : ℤ) (h : Heap Delivered)
      → done (h.at f) ≡ true
      → outcome ((f, m) ∷ l) timestamp h ≡ outcome l timestamp h
  unfolding done_messages used_timestamp
  outcome_if_done f m l timestamp h e = rw e refl

  outcome_written :
      (f : ℕ) (m : Metadata) (l : List (ℕ × Metadata)) (timestamp : ℤ) (h : Heap Delivered)
      → done (h.at f) ≡ false
      → is_unset m.timestamp ≡ false
      → outcome ((f, m) ∷ l) timestamp h
        ≡ outcome l (filled timestamp m) (write h f (taken m timestamp))
  unfolding done_messages used_timestamp
  outcome_written f m l timestamp h e u = rw e (
      ap (λ z. (z, after l (filled timestamp m) (write h f (taken m timestamp))))
        (sym (
          used-set l (filled timestamp m) (write h f (taken m timestamp))
            (filled_set timestamp m u))))

  done_messages_lem :
      (l : List (ℕ × Metadata)) (timestamp : ℤ) (h : Heap Delivered)
      → IsApart l
      → All (λ m. is_unset m.1.timestamp ≡ false) l
      → All (Resolves (outcome l timestamp h).0 h (outcome l timestamp h).1) l
  done_messages_lem [] timestamp h a u = tt
  done_messages_lem ((f, m) ∷ l) timestamp h a u = elim (Bool-cases (done (h.at f))) [
    | inl e ↦
        subst (λ (p : ℤ × Heap Delivered). All (Resolves p.0 h p.1) ((f, m) ∷ l))
          (sym (outcome_if_done f m l timestamp h e))
          (λ p. ground arith, done_messages_lem l timestamp h a.1 u.1)
    | inr e ↦
        subst (λ (p : ℤ × Heap Delivered). All (Resolves p.0 h p.1) ((f, m) ∷ l))
          (sym (outcome_written f m l timestamp h e u.0))
          (
            λ p.
                at-done_messages l (filled timestamp m) (write h f (taken m timestamp)) f a.0
                ∙ at-write h f (taken m timestamp)
                ∙ ap (λ z. resolved (some (delivery tp base kind log m z)))
                    (sym (
                      used-set l (filled timestamp m) (write h f (taken m timestamp))
                        (filled_set timestamp m u.0))),
            still_pending f (outcome l (filled timestamp m) (write h f (taken m timestamp))).0 h
                (write h f (taken m timestamp))
                (outcome l (filled timestamp m) (write h f (taken m timestamp))).1 l
                (λ q. at-write_other h f (taken m timestamp) q) a.0
                (done_messages_lem l (filled timestamp m) (write h f (taken m timestamp)) a.1 u.1),
          )
  ]

-- The answer to a batch resolves its own future, if that is pending, and that of every message that still
-- waits: with the offset of the batch and of the message in it, and with one timestamp, the broker's
-- or, if the broker answers -1, that of the first message that waits. Futures that no message holds
-- stay as they were. Messages have futures of their own, and their own timestamps are not -1.
pub done_batch_lem :
    (base timestamp : ℤ) (log : Option ℤ) (s : Batch)
    → IsApart s.it.msg_futures
    → Avoids s.it.future s.it.msg_futures
    → All (λ m. is_unset m.1.timestamp ≡ false) s.it.msg_futures
    → (s.futures.at s.it.future ≡ pending
        → (done_batch base timestamp log s).futures.at s.it.future
          ≡ resolved (
              some (record {
                tp = s.it.tp;
                offset = base;
                timestamp = timestamp;
                timestamp_type = timestamp_type_of timestamp;
                log_start_offset = log;
              })))
      × All
          (λ m.
            s.futures.at m.0 ≡ pending
            → (done_batch base timestamp log s).futures.at m.0
              ≡ resolved (
                  some (
                    delivery s.it.tp base
                      (timestamp_type_of timestamp)
                      log
                      m.1
                      (used_timestamp timestamp s.it.msg_futures s.futures))))
          s.it.msg_futures
      × ((q : ℕ)
          → q ≢ s.it.future
          → Avoids q s.it.msg_futures
          → (done_batch base timestamp log s).futures.at q ≡ s.futures.at q)
unfolding done_batch
done_batch_lem base timestamp log s a b u =
    let kind = timestamp_type_of timestamp in
    let g : Future Delivered = resolved (
      some (record {
        tp = s.it.tp;
        offset = base;
        timestamp = timestamp;
        timestamp_type = timestamp_type_of timestamp;
        log_start_offset = log;
      })) in
    let l = s.it.msg_futures in
    let h1 = set_future s.futures s.it.future g in
    (
      λ p. at-done_messages s.it.tp base kind log l timestamp h1 s.it.future b ∙ ground arith,
      subst
          (λ z.
            All
              (Resolves s.it.tp base kind log z s.futures
                (after s.it.tp base kind log l timestamp h1))
              l)
          (used_timestamp-set_future timestamp l s.futures s.it.future g b)
          (still_pending s.it.tp base kind log s.it.future (used_timestamp timestamp l h1) s.futures
            h1 (after s.it.tp base kind log l timestamp h1) l
            (at-set_future_other s.futures s.it.future g) b
            (done_messages_lem s.it.tp base kind log l timestamp h1 a u)),
      λ q n v.
          at-done_messages s.it.tp base kind log l timestamp h1 q v
          ∙ at-set_future_other s.futures s.it.future g q n,
    )
