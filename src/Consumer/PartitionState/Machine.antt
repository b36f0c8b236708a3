-- ===== src/Consumer/PartitionState/Machine.antt =====
-- The state machine of one partition: its position, its reset and its pause agree with its status and
-- with the futures that clients wait for.
use aiokafka.Base.{is_some, ℕ, ◌<◌, ◌≡◌, ◌≢◌, refl, arith, Bool, true, false, Option, none, some, ℤ}
use aiokafka.Base.Futures.{Heap, pending, done, alloc}
use aiokafka.Consumer.PartitionState.{
  Held, OffsetAndMetadata, PartitionStatus, awaiting_reset, new_state, await_reset, fetch_committed,
  update_committed, consumed_to, seek, reset_to, pause, resume, is_consuming,
}

abbrev pub PausedBy : Heap (Unit {0}) → ℕ → Bool → Option ℕ → Type 0
PausedBy h q false none = Unit
PausedBy h q false (some fut) = ⊥
PausedBy h q true none = ⊥
PausedBy h q true (some fut) = (fut < h.next) × (h.at fut ≡ pending) × (fut ≢ q)

pub record IsCoherent (s : Held) : Type 0 where
  pub position_below : s.it.position_fut < s.futures.next
  -- It consumes exactly if it has a position, and then those who waited for one were woken.
  pub position_known : is_some s.it.position ≡ is_consuming s.it.status
  pub position_woken : done (s.futures.at s.it.position_fut) ≡ is_consuming s.it.status
  pub reset_waits : is_some s.it.reset_strategy ≡ true → s.it.status ≡ awaiting_reset
  pub assigned : s.it.status ≢ PartitionStatus.unassigned
  -- It is paused exactly if it has a future to wait for, which is pending.
  pub pause_waits : PausedBy s.futures s.it.position_fut s.it.paused s.it.resume_fut

seek-IsCoherent : (position : ℤ) (s : Held) → IsCoherent s → IsCoherent (seek position s).1
unfolding seek
seek-IsCoherent position s v = ground arith

consumed_to-IsCoherent :
    (position : ℤ) (s : Held) → IsCoherent s → IsCoherent (consumed_to position s).1
unfolding consumed_to
consumed_to-IsCoherent position s v = ground arith

reset_to-IsCoherent : (position : ℤ) (s : Held) → IsCoherent s → IsCoherent (reset_to position s).1
unfolding reset_to
reset_to-IsCoherent position s v = ground arith

resume-IsCoherent : (s : Held) → IsCoherent s → IsCoherent (resume s).1
unfolding resume
resume-IsCoherent s v = ground arith

pause-IsCoherent : (s : Held) → IsCoherent s → IsCoherent (pause s).1
unfolding pause
pause-IsCoherent s v = ground arith

await_reset-IsCoherent :
    (strategy : ℤ) (s : Held) → IsCoherent s → IsCoherent (await_reset strategy s).1
unfolding await_reset
await_reset-IsCoherent strategy s v = ground arith

fetch_committed-IsCoherent : (s : Held) → IsCoherent s → IsCoherent (fetch_committed s).1
unfolding fetch_committed
fetch_committed-IsCoherent s v = ground arith

update_committed-IsCoherent :
    (o : OffsetAndMetadata) (s : Held) → IsCoherent s → IsCoherent (update_committed o s).1
unfolding update_committed
update_committed-IsCoherent o s v = ground arith

-- What the consumer, the fetcher and the coordinator do to a partition, in any order.
pub data Step (s : Held) : Held → Type 0 where
  awaits_reset : (strategy : ℤ) → Step s (await_reset strategy s).1
  fetches_committed : Step s (fetch_committed s).1
  committed_to : (o : OffsetAndMetadata) → Step s (update_committed o s).1
  consumes_to : (position : ℤ) → Step s (consumed_to position s).1
  resets_to : (position : ℤ) → Step s (reset_to position s).1
  seeks : (position : ℤ) → Step s (seek position s).1
  pauses : Step s (pause s).1
  resumes : Step s (resume s).1

pub data Reach (s : Held) : Held → Type 0 where
  here : Reach s s
  next : {t u : Held} → Reach s t → Step t u → Reach s u

Step-IsCoherent : {s t : Held} → IsCoherent s → Step s t → IsCoherent t
Step-IsCoherent v (awaits_reset strategy) = await_reset-IsCoherent strategy _ v
Step-IsCoherent v fetches_committed = fetch_committed-IsCoherent _ v
Step-IsCoherent v (committed_to o) = update_committed-IsCoherent o _ v
Step-IsCoherent v (consumes_to position) = consumed_to-IsCoherent position _ v
Step-IsCoherent v (resets_to position) = reset_to-IsCoherent position _ v
Step-IsCoherent v (seeks position) = seek-IsCoherent position _ v
Step-IsCoherent v pauses = pause-IsCoherent _ v
Step-IsCoherent v resumes = resume-IsCoherent _ v

-- A partition that was just assigned, with a future of its own for its position.
abbrev pub assigned_at : Heap (Unit {0}) → Heap OffsetAndMetadata → Held
assigned_at h c = record { futures = alloc h; commits = c; refresh = false; it = new_state h.next }

assigned_at-IsCoherent :
    (h : Heap (Unit {0})) (c : Heap OffsetAndMetadata) → IsCoherent (assigned_at h c)
assigned_at-IsCoherent h c = ground arith

-- From its assignment on, whatever is called in whatever order: a partition consumes exactly while it
-- has a position, and then those who waited for one were woken; a reset strategy is set only while it
-- awaits a reset; and it is paused exactly while it has a pending future to resume.
pub Reach-IsCoherent :
    (h : Heap (Unit {0})) (c : Heap OffsetAndMetadata) {s : Held}
    → Reach (assigned_at h c) s
    → IsCoherent s
Reach-IsCoherent h c here = assigned_at-IsCoherent h c
Reach-IsCoherent h c (next r st) = Step-IsCoherent (Reach-IsCoherent h c r) st

-- A step settles no future but the partition's own: any other that exists keeps its state.
pub Step_frame :
    {s t : Held} (q : ℕ)
    → Step s t
    → q < s.futures.next
    → q ≢ s.it.position_fut
    → s.it.resume_fut ≢ some q
    → t.futures.at q ≡ s.futures.at q
unfolding await_reset fetch_committed update_committed consumed_to reset_to seek pause resume
Step_frame q (awaits_reset strategy) b p r = ground arith
Step_frame q fetches_committed b p r = refl
Step_frame q (committed_to o) b p r = refl
Step_frame q (consumes_to position) b p r = ground arith
Step_frame q (resets_to position) b p r = ground arith
Step_frame q (seeks position) b p r = ground arith
Step_frame q pauses b p r = ground arith
Step_frame q resumes b p r = ground arith
