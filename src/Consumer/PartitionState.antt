-- ===== src/Consumer/PartitionState.antt =====
-- The class TopicPartitionState of aiokafka/consumer/subscription_state.py: where the consumer stands
-- in one partition. A method is an action on the partition, on the heap of the futures that
-- partitions hand out, and on the event of its assignment that asks for committed offsets.
pub mod Machine
pub mod Waiting
mod Examples
use aiokafka.Base.{ℕ, String, Bool, true, false, not, Option, none, some, List, [], ◌∷◌, ◌++◌, ℤ}
use aiokafka.Base.{Result, ok, err, Exec, pure, raise, gets, modify, assert, continue, ◌>>=◌, ◌>>◌}
use aiokafka.Base.{is_some, attribute_error, if◌then◌else◌}
use aiokafka.Base.Futures.{Future, Heap, pending, resolved, done, alloc, settle, write}

-- `OffsetAndMetadata` of structs.py
pub record OffsetAndMetadata : Type 0 where
  pub offset : ℤ
  pub metadata : String

pub data PartitionStatus : Type 0 where
  awaiting_reset consuming unassigned : PartitionStatus

pub record TopicPartitionState : Type 0 where
  pub committed_futs : List ℕ
  pub highwater : Option ℤ
  pub lso : Option ℤ
  pub timestamp : Option ℕ
  pub position : Option ℤ
  pub position_fut : ℕ
  pub reset_strategy : Option ℤ
  pub status : PartitionStatus
  pub paused : Bool
  pub resume_fut : Option ℕ

-- A partition with what its methods reach: the futures that resolve with None (`_position_fut` and
-- `_resume_fut`), those that resolve with a committed offset (`_committed_futs`), and
-- `self._assignment.commit_refresh_needed`.
pub record Held : Type 0 where
  pub futures : Heap (Unit {0})
  pub commits : Heap OffsetAndMetadata
  pub refresh : Bool
  pub it : TopicPartitionState

-- `TopicPartitionState(assignment)` with the future that it creates.
abbrev pub new_state : ℕ → TopicPartitionState
new_state fut = record {
  committed_futs = [];
  highwater = none;
  lso = none;
  timestamp = none;
  position = none;
  position_fut = fut;
  reset_strategy = none;
  status = awaiting_reset;
  paused = false;
  resume_fut = none;
}

abbrev pub Method : Type 0 → Type 0
Method A = Exec Held A

abbrev create_future : Method ℕ
create_future s = (ok s.futures.next, record s { futures = alloc s.futures })

abbrev settle_future : Future (Unit {0}) → ℕ → Method Unit
settle_future f p s = ((settle s.futures p f).0, record s { futures = (settle s.futures p f).1 })

abbrev update : (TopicPartitionState → TopicPartitionState) → Method Unit
update f = modify (λ s. record s { it = f s.it })

abbrev when : Bool → Method Unit → Method Unit
when true act = act
when false act = pure tt

abbrev is_done : ℕ → Method Bool
is_done p = gets (λ s. done (s.futures.at p))

pub has_valid_position : TopicPartitionState → Bool
has_valid_position p = is_some p.position

pub await_reset : ℤ → Method Unit
await_reset strategy = do
  update (λ p. record p { reset_strategy = some strategy; position = none })
  fut ← gets (λ s. s.it.position_fut)
  ended ← is_done fut
  when ended do fut' ← create_future; update (λ p. record p { position_fut = fut' })
  update (λ p. record p { status = awaiting_reset })

pub fetch_committed : Method ℕ
fetch_committed = do
  fut ← gets (λ s. s.commits.next)
  modify (λ s. record s { commits = alloc s.commits })
  update (λ p. record p { committed_futs = p.committed_futs ++ fut ∷ [] })
  modify (λ s. record s { refresh = true })
  pure fut

-- `for fut in futs: if not fut.done(): fut.set_result(value)`
pub resolve_all : OffsetAndMetadata → List ℕ → Heap OffsetAndMetadata → Heap OffsetAndMetadata
resolve_all v [] h = h
resolve_all v (fut ∷ rest) h =
    resolve_all v rest (if done (h.at fut) then h else write h fut (resolved v))

pub update_committed : OffsetAndMetadata → Method Unit
update_committed offset_meta = do
  futs ← gets (λ s. s.it.committed_futs)
  modify (λ s. record s { commits = resolve_all offset_meta futs s.commits })
  update (λ p. record p { committed_futs = [] })

abbrev is_consuming : PartitionStatus → Bool
is_consuming consuming = true
is_consuming _ = false

abbrev is_awaiting_reset : PartitionStatus → Bool
is_awaiting_reset awaiting_reset = true
is_awaiting_reset _ = false

unfoldable pub consumed_to : ℤ → Method Unit
consumed_to position = do
  status ← gets (λ s. s.it.status)
  assert (is_consuming status)
  update (λ p. record p { position = some position })

-- What `reset_to` and `seek` share.
pub seek : ℤ → Method Unit
seek position = do
  update (λ p. record p { position = some position; reset_strategy = none; status = consuming })
  fut ← gets (λ s. s.it.position_fut)
  ended ← is_done fut
  when (not ended) (settle_future (resolved tt) fut)

pub reset_to : ℤ → Method Unit
unfolding seek
reset_to position = do
  status ← gets (λ s. s.it.status)
  assert (is_awaiting_reset status)
  seek position

pub pause : Method Unit
pause = do
  paused ← gets (λ s. s.it.paused)
  when (not paused) do
    update (λ p. record p { paused = true })
    fut ← gets (λ s. s.it.resume_fut)
    assert (not (is_some fut))
    fut' ← create_future
    update (λ p. record p { resume_fut = some fut' })

-- `self._resume_fut.set_result(None)`
wake : Option ℕ → Method Unit
wake none = raise attribute_error
wake (some fut) = settle_future (resolved tt) fut

pub resume : Method Unit
unfolding wake
resume = do
  paused ← gets (λ s. s.it.paused)
  when paused do
    update (λ p. record p { paused = false })
    fut ← gets (λ s. s.it.resume_fut)
    wake fut
    update (λ p. record p { resume_fut = none })
