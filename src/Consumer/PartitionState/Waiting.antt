-- ===== src/Consumer/PartitionState/Waiting.antt =====
-- Those who wait: for a position, for the end of a pause, and for committed offsets.
use aiokafka.Base.{
  ℕ, ◌≡◌, ◌≢◌, refl, arith, true, false, none, some, ℤ, List, [], ◌∷◌, ok, err, All, All-map,
  assertion_error, if◌then◌else◌,
}
use aiokafka.Base.Futures.{Heap, pending, resolved, done, write}
use aiokafka.Consumer.PartitionState.{
  Held, OffsetAndMetadata, awaiting_reset, consuming, await_reset, resolve_all, update_committed,
  consumed_to, seek, reset_to, pause, resume,
}
use aiokafka.Consumer.PartitionState.Machine.{IsCoherent}

-- Pausing and resuming again changes nothing but that the future handed out in between is resolved.
pub resume-pause :
    (s : Held)
    → IsCoherent s
    → s.it.paused ≡ false
    → ((pause s).0 ≡ ok tt)
      × ((pause s).1.it.resume_fut ≡ some s.futures.next)
      × ((pause s).1.futures.at s.futures.next ≡ pending)
      × ((resume (pause s).1).0 ≡ ok tt)
      × ((resume (pause s).1).1.it ≡ s.it)
      × ((resume (pause s).1).1.futures.at s.futures.next ≡ resolved tt)
unfolding pause resume
resume-pause s v e =
    (ground arith, ground arith, ground arith, ground arith, ground arith, ground arith)

-- A reset or a seek gives the position, ends any reset that was asked for, and wakes whoever waits for
-- the position. A reset is refused, with nothing changed, unless the partition awaits one.
pub reset_to_lem :
    (position : ℤ) (s : Held)
    → IsCoherent s
    → ((seek position s).0 ≡ ok tt)
      × ((seek position s).1.it.position ≡ some position)
      × ((seek position s).1.it.reset_strategy ≡ none)
      × ((seek position s).1.it.status ≡ consuming)
      × (done ((seek position s).1.futures.at s.it.position_fut) ≡ true)
      × (s.it.status ≡ awaiting_reset → reset_to position s ≡ seek position s)
      × (s.it.status ≢ awaiting_reset → reset_to position s ≡ (err assertion_error, s))
unfolding seek reset_to
reset_to_lem position s v = (
  ground arith,
  ground arith,
  ground arith,
  ground arith,
  ground arith,
  λ e. rw e,
  λ e. ground arith,
)

-- Resetting after a position was known makes a new future for the next position, still pending; the
-- position is gone until then, and records cannot be consumed.
pub await_reset_lem :
    (strategy position : ℤ) (s : Held)
    → IsCoherent s
    → let t : Held = (await_reset strategy s).1 in
      (t.it.position ≡ none)
      × (t.it.reset_strategy ≡ some strategy)
      × (t.futures.at t.it.position_fut ≡ pending)
      × (consumed_to position t ≡ (err assertion_error, t))
unfolding await_reset consumed_to
await_reset_lem strategy position s v = (ground arith, ground arith, ground arith, ground arith)

-- What `resolve_all` leaves of a future: resolved if it was listed and pending, else as it was.
at-resolve_all :
    (v : OffsetAndMetadata) (l : List ℕ) (h : Heap OffsetAndMetadata) (q : ℕ)
    → done (h.at q) ≡ true
    → (resolve_all v l h).at q ≡ h.at q
unfolding resolve_all
at-resolve_all v [] h q d = refl
at-resolve_all v (fut ∷ l) h q d =
    ground (arith, at-resolve_all v l (if done (h.at fut) then h else write h fut (resolved v)) q)

abbrev pub Answered :
    OffsetAndMetadata → Heap OffsetAndMetadata → Heap OffsetAndMetadata → ℕ → Type 0
Answered v before after q = after.at q ≡ (if done (before.at q) then before.at q else resolved v)

resolve_all-Answered :
    (v : OffsetAndMetadata) (l : List ℕ) (h : Heap OffsetAndMetadata)
    → All (Answered v h (resolve_all v l h)) l
unfolding resolve_all
resolve_all-Answered v [] h = tt
resolve_all-Answered v (fut ∷ l) h =
    let h' : Heap OffsetAndMetadata = if done (h.at fut) then h else write h fut (resolved v) in
    (
      ground (arith, at-resolve_all v l h' fut),
      All-map (Answered v h' (resolve_all v l h')) _
          (λ q a. ground (arith, at-resolve_all v l h' fut)) l (resolve_all-Answered v l h'),
    )

-- A commit answers everyone who asked for the committed offset and was not yet answered or cancelled,
-- with the offset that was committed, and nobody is asked for any more.
pub update_committed_answers :
    (o : OffsetAndMetadata) (s : Held)
    → ((update_committed o s).0 ≡ ok tt)
      × ((update_committed o s).1.it.committed_futs ≡ [])
      × All (Answered o s.commits (update_committed o s).1.commits) s.it.committed_futs
unfolding update_committed
update_committed_answers o s = (refl, refl, resolve_all-Answered o s.it.committed_futs s.commits)
