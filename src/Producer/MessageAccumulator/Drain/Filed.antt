-- ===== src/Producer/MessageAccumulator/Drain/Filed.antt =====
-- What a drain does to the queues for one partition, and what it files.
use aiokafka.Base.{
  true, false, Option, some, List, [], ◌∷◌, ◌≡◌, refl, sym, ap, ◌∙◌, ◌⊎◌, inl, inr, arith,
  if◌then◌else◌, ℤ, Result, ok, err, Exception, Bool-cases, drop, ℕ,
}
use aiokafka.Base.Keys.{TopicPartition, tp_eq, int_eq, ◌==◌, ==_iff}
use aiokafka.Base.Dict
use aiokafka.Base.Dict.{Dict, get-put, keys}
use aiokafka.Base.Sets
use aiokafka.Producer.MessageAccumulator.{MessageAccumulator, queue_of, pop_batch}
use mathlib.Core.Path.{subst}
use aiokafka.Producer.MessageBatch.{is_batch_empty}
use aiokafka.Producer.MessageAccumulator.Queues.{pop_batch-queues, pop_batch-first}
use aiokafka.Producer.MessageAccumulator.Drain.{
  Nodes, Drained, node_of, take_batch, expire_first, first_expired,
}

node_of-put :
    (d : Nodes) (k j : ℤ) (v : Dict TopicPartition ℕ)
    → node_of (Dict.put d k v) j ≡ (if k == j then v else node_of d j)
node_of-put d k j v = ground (arith, get-put d k j v)

get-filed :
    (nodes : Nodes) (k n : ℤ) (tp t : TopicPartition) (b : ℕ)
    → Dict.get (node_of (Dict.put nodes k (Dict.put (node_of nodes k) tp b)) n) t ≡ (
        if k == n
        then (if tp == t then some b else Dict.get (node_of nodes n) t)
        else Dict.get (node_of nodes n) t)
get-filed nodes k n tp t b = elim (Bool-cases (k == n)) [
  | inl same ↦
      ap (λ d. Dict.get d t) (node_of-put nodes k n (Dict.put (node_of nodes k) tp b))
      ∙ rw (same, (==_iff k n).0 same) (get-put (node_of nodes n) tp t b)
  | inr other ↦
      ap (λ d. Dict.get d t) (node_of-put nodes k n (Dict.put (node_of nodes k) tp b))
      ∙ rw other refl
]

-- The keys of a dictionary.
abbrev pub Distinct : List TopicPartition → Type 0
Distinct [] = Unit
Distinct (t ∷ l) = (Sets.contains l t ≡ false) × Distinct l

-- A queue stays.
abbrev pub Same : TopicPartition → MessageAccumulator → MessageAccumulator → Type 0
Same t s u = queue_of u.batches t ≡ queue_of s.batches t

-- A pop, and what is done to its batch, leave the other queues alone.
pub take_batch-others :
    (leader : ℤ) (tp : TopicPartition) (nodes : Nodes) (s : MessageAccumulator) (t : TopicPartition)
    → (tp == t) ≡ false
    → Same t s (take_batch leader tp nodes s).1
unfolding take_batch
take_batch-others leader tp nodes s t e = ground (arith, pop_batch-queues tp s t)

pub expire_first-others :
    (now : ℕ) (tp : TopicPartition) (x : Exception) (s : MessageAccumulator) (t : TopicPartition)
    → (tp == t) ≡ false
    → Same t s (expire_first now tp x s).1
unfolding expire_first first_expired
expire_first-others now tp x s t e = ground (arith, pop_batch-queues tp s t)

-- What a batch that was taken is filed under.
pub take_batch-filed :
    (leader : ℤ) (tp : TopicPartition) (nodes nodes' : Nodes) (s : MessageAccumulator)
    → (take_batch leader tp nodes s).0 ≡ ok nodes'
    → (nodes' ≡ nodes)
      ⊎ ((b : ℕ) × (nodes' ≡ Dict.put nodes leader (Dict.put (node_of nodes leader) tp b))
          × ((pop_batch tp s).0 ≡ ok b))
unfolding take_batch
take_batch-filed leader tp nodes nodes' s h = by_pop (pop_batch tp s).0 refl
  where
    by_pop :
        (r : Result ℕ)
        → (pop_batch tp s).0 ≡ r
        → (nodes' ≡ nodes)
          ⊎ ((b : ℕ) × (nodes' ≡ Dict.put nodes leader (Dict.put (node_of nodes leader) tp b))
              × ((pop_batch tp s).0 ≡ ok b))
    by_pop (err x) e = ground arith
    by_pop (ok b) e = elim (Bool-cases (is_batch_empty ((pop_batch tp s).1.object b))) [
      | inl empty ↦ inl (ground arith)
      | inr full ↦ inr (b, ground arith, e)
    ]

module _ (leaders : TopicPartition → Option ℤ) (ignore_nodes : List ℤ)
    (muted : List TopicPartition) where
  -- A batch that is filed was the first of its partition in the state s, and may go to that node.
  abbrev pub IsFirst : MessageAccumulator → ℤ → TopicPartition → ℕ → Type 0
  IsFirst s n t b =
      (leaders t ≡ some n)
      × (Sets.contains ignore_nodes n ≡ false)
      × (Sets.contains muted t ≡ false)
      × (queue_of s.batches t ≡ b ∷ drop 1 (queue_of s.batches t))

  abbrev pub AreFirst : MessageAccumulator → Nodes → Type 0
  AreFirst s nodes =
      (n : ℤ) (t : TopicPartition) (b : ℕ) → Dict.get (node_of nodes n) t ≡ some b → IsFirst s n t b

  abbrev pub Drains : MessageAccumulator → Result Drained → Type 0
  Drains s (ok drained) = AreFirst s drained.0
  Drains s (err e) = Unit

  pub AreFirst-put :
      (s : MessageAccumulator) (nodes : Nodes) (leader : ℤ) (tp : TopicPartition) (b : ℕ)
      → AreFirst s nodes
      → IsFirst s leader tp b
      → AreFirst s (Dict.put nodes leader (Dict.put (node_of nodes leader) tp b))
  AreFirst-put s nodes leader tp b g f n t c h =
      by_tests (Bool-cases (leader == n)) (Bool-cases (tp == t))
    where
      e :
          (if leader == n
            then (if tp == t then some b else Dict.get (node_of nodes n) t)
            else Dict.get (node_of nodes n) t)
          ≡ some c
      e = sym (get-filed nodes leader n tp t b) ∙ h

      by_tests :
          ((leader == n) ≡ true) ⊎ ((leader == n) ≡ false)
          → ((tp == t) ≡ true) ⊎ ((tp == t) ≡ false)
          → IsFirst s n t c
      by_tests (inl p) (inl q) =
          let d : b ≡ c = ground (arith, e) in
          rw (← (==_iff leader n).0 p, ← (==_iff tp t).0 q, ← d) f
      by_tests (inl p) (inr q) = g n t c (ground (arith, e))
      by_tests (inr p) q = g n t c (ground (arith, e))

  pub take_batch-Drains :
      (s0 s : MessageAccumulator) (leader : ℤ) (tp : TopicPartition) (nodes nodes' : Nodes)
      → AreFirst s0 nodes
      → Same tp s0 s
      → leaders tp ≡ some leader
      → Sets.contains ignore_nodes leader ≡ false
      → Sets.contains muted tp ≡ false
      → (take_batch leader tp nodes s).0 ≡ ok nodes'
      → AreFirst s0 nodes'
  take_batch-Drains s0 s leader tp nodes nodes' g same l i m h =
      elim (take_batch-filed leader tp nodes nodes' s h) [
        | inl e ↦ subst (AreFirst s0) (sym e) g
        | inr (b, e, p) ↦
            subst (AreFirst s0) (sym e) (
              AreFirst-put s0 nodes leader tp b g (l, i, m, rw (← same) (pop_batch-first tp s b p)))
      ]
