-- ===== src/Producer/Sender.antt =====
-- aiokafka/producer/sender.py: what the sender does about a transaction. A request is one answer of a
-- broker that a handler reads, and the handlers call the transaction manager. `await`s of the client
-- are arguments: a reply, or the node that a lookup found.
pub mod Handlers
mod Examples
pub mod Produce
pub mod Requests
use aiokafka.Base.{
  ℕ, zero, ◌+◌, String, Bool, true, false, Option, none, some, List, [], ◌∷◌, ◌≡◌, arith, ◌↔◌, refl,
}
use aiokafka.Base.{
  Exception, Result, ok, err, Exec, pure, raise, gets, modify, continue, ◌>>=◌, ◌>>◌,
}
use aiokafka.Base.Keys.{Eq, ◌==◌}
use aiokafka.Base.Dict
use aiokafka.Base.Dict.{Dict}
use aiokafka.Producer.TransactionManager.{TransactionManager}

-- client.py: `CoordinationType`
pub data CoordinationType : Type 0 where
  group transaction : CoordinationType

abbrev pub same_type : CoordinationType → CoordinationType → Bool
same_type group group = true
same_type transaction transaction = true
same_type _ _ = false

pub same_type_iff : (a b : CoordinationType) → (same_type a b ≡ true) ↔ (a ≡ b)
same_type_iff a b = ground arith

instance abbrev pub coordination_eq : Eq CoordinationType
coordination_eq = record { same = same_type; same_iff = same_type_iff }

-- The attributes that the handlers reach. The backoff is in milliseconds.
pub record Sender : Type 0 where
  pub txn_manager : TransactionManager
  pub coordinators : Dict CoordinationType ℕ
  pub retry_backoff : ℕ

-- Seconds in the source, `0.02`.
abbrev pub backoff_override : ℕ
backoff_override = 20

-- A call of a method of `self._txn_manager`
abbrev pub on_manager : {A : Type 0} → Exec TransactionManager A → Exec Sender A
on_manager act s = ((act s.txn_manager).0, record s { txn_manager = (act s.txn_manager).1 })

unfoldable pub coordinator_dead : CoordinationType → Exec Sender (Unit {0})
coordinator_dead t = modify (λ s. record s { coordinators = Dict.remove s.coordinators t })
