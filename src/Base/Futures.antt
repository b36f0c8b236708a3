-- ===== src/Base/Futures.antt =====
-- asyncio futures, as util.py's `create_future` hands them out: objects on a heap that is named by
-- numbers, so that one future can be held by several owners.
use Prim.Native.Nat.{ℕ, ◌+◌}
use mathlib.Core.Bool.{Bool, true, false}
use aiokafka.Base.Tests.{eqb, if◌then◌else◌}
use aiokafka.Base.Errors.{Exception, Result, ok, err, invalid_state_error}

pub data Future (V : Type 0) : Type 0 where
  pending : Future V
  resolved : V → Future V
  failed : Exception → Future V
  cancelled : Future V

pub record Heap (V : Type 0) : Type 0 where
  pub next : ℕ
  pub at : ℕ → Future V

module _ {V : Type 0} where
  abbrev pub done : Future V → Bool
  done pending = false
  done (resolved v) = true
  done (failed e) = true
  done cancelled = true

  abbrev pub write : Heap V → ℕ → Future V → Heap V
  write h p f = record h { at = λ q. if eqb q p then f else h.at q }

  -- `create_future()`: its future is the number `h.next`.
  abbrev pub alloc : Heap V → Heap V
  alloc h = record { next = h.next + 1; at = (write h h.next pending).at }

  -- `fut.set_result(v)` and `fut.set_exception(e)` raise on a future that is done.
  abbrev pub settle : Heap V → ℕ → Future V → Result (Unit {0}) × Heap V
  settle h p f = if done (h.at p) then (err invalid_state_error, h) else (ok tt, write h p f)

abbrev pub empty : {V : Type 0} → Heap V
empty = record { next = 0; at = λ q. pending }
