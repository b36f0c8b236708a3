-- ===== src/Producer/MessageAccumulator/Drain/Safety.antt =====
-- What a drain may send.
use aiokafka.Base.{
  Bool, true, false, Option, none, some, List, [], ◌∷◌, ◌≡◌, refl, sym, ap, ◌∙◌, ◌⊎◌, inl, inr,
  arith, ℤ, negsuc, Result, ok, err, continue, Bool-cases, eqb_ℤ, broker, pure, drop, ℕ,
}
use aiokafka.Base.Keys.{TopicPartition, tp_eq, int_eq, ◌==◌, ==_iff}
use aiokafka.Base.Dict
use aiokafka.Base.Dict.{Dict, get-put, keys}
use aiokafka.Base.Sets
use aiokafka.Producer.MessageAccumulator.{MessageAccumulator, queue_of}
use aiokafka.Base.BrokerErrors.{not_leader_for_partition_error, leader_not_available_error}
use aiokafka.Producer.MessageAccumulator.Drain.{
  Nodes, Drained, node_of, take_batch, expire_first, drain_led, drain_partition, drain_loop,
  drain_by_nodes,
}
use aiokafka.Producer.MessageAccumulator.Drain.Filed.{
  Distinct, Same, take_batch-others, expire_first-others, IsFirst, AreFirst, Drains,
  take_batch-Drains,
}

module _ (leaders : TopicPartition → Option ℤ) (ignore_nodes : List ℤ)
    (muted : List TopicPartition) where
  -- What is done beside the nodes files nothing.
  after_expiry :
      (s0 s : MessageAccumulator) (r : Result (Unit {0})) (nodes : Nodes)
      → AreFirst leaders ignore_nodes muted s0 nodes
      → Drains leaders ignore_nodes muted s0 (continue r (λ u. pure (nodes, true)) s).0
  after_expiry s0 s (ok u) nodes g = g
  after_expiry s0 s (err e) nodes g = tt

  after_take :
      (s0 s : MessageAccumulator) (r : Result Nodes) (unknown : Bool)
      → ((nodes : Nodes) → r ≡ ok nodes → AreFirst leaders ignore_nodes muted s0 nodes)
      → Drains leaders ignore_nodes muted s0 (continue r (λ nodes. pure (nodes, unknown)) s).0
  after_take s0 s (ok nodes) unknown f = f nodes refl
  after_take s0 s (err e) unknown f = tt

  module _ (now : ℕ) where
    abbrev led :
        TopicPartition
        → Option ℤ
        → Drained
        → MessageAccumulator
        → Result Drained × MessageAccumulator
    led tp o d s = drain_led now leaders ignore_nodes muted tp o d s

    abbrev drained_by :
        TopicPartition → Drained → MessageAccumulator → Result Drained × MessageAccumulator
    drained_by tp d s = drain_partition now leaders ignore_nodes muted tp d s

    drain_led-others :
        (tp : TopicPartition) (o : Option ℤ) (d : Drained) (s : MessageAccumulator)
        (t : TopicPartition)
        → (tp == t) ≡ false
        → Same t s (led tp o d s).1
    unfolding drain_led
    drain_led-others tp none (nodes, unknown) s t e =
        ground (arith, expire_first-others now tp (broker not_leader_for_partition_error) s t)
    drain_led-others tp (some leader) (nodes, unknown) s t e = ground (
      arith,
      expire_first-others now tp (broker leader_not_available_error) s t,
      take_batch-others leader tp nodes s t,
    )

    drain_partition-others :
        (tp : TopicPartition) (d : Drained) (s : MessageAccumulator) (t : TopicPartition)
        → (tp == t) ≡ false
        → Same t s (drained_by tp d s).1
    unfolding drain_partition
    drain_partition-others tp d s t e = ground (arith, drain_led-others tp (leaders tp) d s t)

    -- A partition that is muted keeps its queue.
    drain_partition-muted :
        (tp : TopicPartition) (d : Drained) (s : MessageAccumulator)
        → Sets.contains muted tp ≡ true
        → drained_by tp d s ≡ (ok d, s)
    unfolding drain_partition
    drain_partition-muted tp d s m = rw m refl

    drain_led-Drains :
        (s0 s : MessageAccumulator) (tp : TopicPartition) (o : Option ℤ) (d : Drained)
        → AreFirst leaders ignore_nodes muted s0 d.0
        → Same tp s0 s
        → leaders tp ≡ o
        → Sets.contains muted tp ≡ false
        → Drains leaders ignore_nodes muted s0 (led tp o d s).0
    unfolding drain_led
    drain_led-Drains s0 s tp none (nodes, unknown) g same l m =
        after_expiry s0 (expire_first now tp (broker not_leader_for_partition_error) s).1
          (expire_first now tp (broker not_leader_for_partition_error) s).0 nodes g
    drain_led-Drains s0 s tp (some leader) (nodes, unknown) g same l m =
        elim (Bool-cases (eqb_ℤ leader (negsuc 0))) [
          | inl e ↦ rw e (
              after_expiry s0 (expire_first now tp (broker leader_not_available_error) s).1
                (expire_first now tp (broker leader_not_available_error) s).0 nodes g)
          | inr e ↦ rw e (elim (Bool-cases (Sets.contains ignore_nodes leader)) [
            | inl i ↦ rw i g
            | inr i ↦ rw i (
                after_take s0 (take_batch leader tp nodes s).1 (take_batch leader tp nodes s).0
                  unknown
                  λ nodes' h.
                    take_batch-Drains leaders ignore_nodes muted s0 s leader tp nodes nodes' g same
                      l i m h)
          ])
        ]

    drain_partition-Drains :
        (s0 s : MessageAccumulator) (tp : TopicPartition) (d : Drained)
        → AreFirst leaders ignore_nodes muted s0 d.0
        → Same tp s0 s
        → Drains leaders ignore_nodes muted s0 (drained_by tp d s).0
    unfolding drain_partition
    drain_partition-Drains s0 s tp d g same = elim (Bool-cases (Sets.contains muted tp)) [
      | inl m ↦ rw m g
      | inr m ↦ rw m (drain_led-Drains s0 s tp (leaders tp) d g same refl m)
    ]

    abbrev loop :
        List TopicPartition → Drained → MessageAccumulator → Result Drained × MessageAccumulator
    loop l d s = drain_loop now leaders ignore_nodes muted l d s

    next_pass :
        (l : List TopicPartition) (s0 s : MessageAccumulator) (r : Result Drained)
        → Drains leaders ignore_nodes muted s0 r
        → ((d : Drained)
            → AreFirst leaders ignore_nodes muted s0 d.0
            → Drains leaders ignore_nodes muted s0 (loop l d s).0)
        → Drains leaders ignore_nodes muted s0
            (continue r (drain_loop now leaders ignore_nodes muted l) s).0
    next_pass l s0 s (ok d) g k = k d g
    next_pass l s0 s (err e) g k = tt

    drain_loop-Drains :
        (l : List TopicPartition) (d : Drained) (s0 s : MessageAccumulator)
        → Distinct l
        → ((t : TopicPartition) → Sets.contains l t ≡ true → Same t s0 s)
        → AreFirst leaders ignore_nodes muted s0 d.0
        → Drains leaders ignore_nodes muted s0 (loop l d s).0
    unfolding drain_loop Sets.contains
    drain_loop-Drains [] d s0 s u same g = g
    drain_loop-Drains (tp ∷ l) d s0 s u same g =
        next_pass l s0 (drained_by tp d s).1 (drained_by tp d s).0
          (drain_partition-Drains s0 s tp d g (same tp (ground (arith, ==_iff tp tp))))
          λ d' g'. drain_loop-Drains l d' s0 (drained_by tp d s).1 u.1 (λ t c. still t c) g'
      where
        still : (t : TopicPartition) → Sets.contains l t ≡ true → Same t s0 (drained_by tp d s).1
        still t c =
            drain_partition-others tp d s t (apart (Bool-cases (tp == t)))
            ∙ same t (ground (arith, c))
          where
            apart : ((tp == t) ≡ true) ⊎ ((tp == t) ≡ false) → (tp == t) ≡ false
            apart (inl e) =
                let f : Sets.contains l t ≡ false =
                  ap (Sets.contains l) (sym ((==_iff tp t).0 e)) ∙ u.0 in
                cc
            apart (inr e) = e

    later_pass :
        (l : List TopicPartition) (s s' : MessageAccumulator) (t : TopicPartition)
        (r : Result Drained)
        → Same t s s'
        → ((d : Drained) → Same t s' (loop l d s').1)
        → Same t s (continue r (drain_loop now leaders ignore_nodes muted l) s').1
    later_pass l s s' t (ok d) g k = k d ∙ g
    later_pass l s s' t (err e) g k = g

    drain_partition-Same :
        (tp : TopicPartition) (d : Drained) (s : MessageAccumulator) (t : TopicPartition)
        → Sets.contains muted t ≡ true
        → Same t s (drained_by tp d s).1
    drain_partition-Same tp d s t m = elim (Bool-cases (tp == t)) [
      | inl e ↦
          ap (λ (p : Result Drained × MessageAccumulator). queue_of p.1.batches t)
            (drain_partition-muted tp d s (ap (Sets.contains muted) ((==_iff tp t).0 e) ∙ m))
      | inr e ↦ drain_partition-others tp d s t e
    ]

    drain_loop-muted :
        (l : List TopicPartition) (d : Drained) (s : MessageAccumulator) (t : TopicPartition)
        → Sets.contains muted t ≡ true
        → Same t s (loop l d s).1
    unfolding drain_loop
    drain_loop-muted [] d s t m = refl
    drain_loop-muted (tp ∷ l) d s t m =
        later_pass l s (drained_by tp d s).1 t (drained_by tp d s).0
          (drain_partition-Same tp d s t m) λ d'. drain_loop-muted l d' (drained_by tp d s).1 t m

nothing_filed :
    (leaders : TopicPartition → Option ℤ) (ignore_nodes : List ℤ) (muted : List TopicPartition)
    (s : MessageAccumulator)
    → AreFirst leaders ignore_nodes muted s []
unfolding Dict.get
nothing_filed leaders ignore_nodes muted s n t b e = cc

module _ (now : ℕ) (leaders : TopicPartition → Option ℤ) (ignore_nodes : List ℤ)
    (muted : List TopicPartition) (s : MessageAccumulator) where
  abbrev looped : Result Drained × MessageAccumulator
  looped = drain_loop now leaders ignore_nodes muted (keys s.batches) ([], false) s

  drain_by_nodes-result : (drain_by_nodes now leaders ignore_nodes muted s).0 ≡ looped.0
  unfolding drain_by_nodes
  drain_by_nodes-result = ground arith

  drain_by_nodes-batches :
      (drain_by_nodes now leaders ignore_nodes muted s).1.batches ≡ looped.1.batches
  unfolding drain_by_nodes
  drain_by_nodes-batches = ground arith

-- Every batch that a drain files under a node was the first of its partition's queue, and its partition is
-- led by that node, which is not left out, and is not muted. The queue of a muted partition stays as
-- it is. The keys of the queues are distinct, as those of a dictionary.
pub drain_by_nodes_lem :
    (now : ℕ) (leaders : TopicPartition → Option ℤ) (ignore_nodes : List ℤ)
    (muted : List TopicPartition) (s : MessageAccumulator)
    → Distinct (keys s.batches)
    → ((nodes : Nodes) (unknown : Bool) (n : ℤ) (t : TopicPartition) (b : ℕ)
        → (drain_by_nodes now leaders ignore_nodes muted s).0 ≡ ok (nodes, unknown)
        → Dict.get (node_of nodes n) t ≡ some b
        → (leaders t ≡ some n)
          × (Sets.contains ignore_nodes n ≡ false)
          × (Sets.contains muted t ≡ false)
          × (queue_of s.batches t ≡ b ∷ drop 1 (queue_of s.batches t)))
      × ((t : TopicPartition)
          → Sets.contains muted t ≡ true
          → queue_of (drain_by_nodes now leaders ignore_nodes muted s).1.batches t
            ≡ queue_of s.batches t)
drain_by_nodes_lem now leaders ignore_nodes muted s u = (
  λ nodes unknown n t b h k.
      filed (drain_loop now leaders ignore_nodes muted (keys s.batches) ([], false) s).0
        (drain_loop-Drains leaders ignore_nodes muted now (keys s.batches) ([], false) s s u
          (λ t c. refl) (nothing_filed leaders ignore_nodes muted s))
        nodes unknown n t b (sym (drain_by_nodes-result now leaders ignore_nodes muted s) ∙ h) k,
  λ t m.
      ap (λ (d : Dict TopicPartition (List ℕ)). queue_of d t)
        (drain_by_nodes-batches now leaders ignore_nodes muted s)
      ∙ drain_loop-muted leaders ignore_nodes muted now (keys s.batches) ([], false) s t m,
)
  where
    filed :
        (r : Result Drained)
        → Drains leaders ignore_nodes muted s r
        → (nodes : Nodes) (unknown : Bool) (n : ℤ) (t : TopicPartition) (b : ℕ)
        → r ≡ ok (nodes, unknown)
        → Dict.get (node_of nodes n) t ≡ some b
        → IsFirst leaders ignore_nodes muted s n t b
    filed (ok d) g nodes unknown n t b e k =
        let f : d ≡ (nodes, unknown) = cc in
        g n t b (ap (λ (d : Drained). Dict.get (node_of d.0 n) t) f ∙ k)
    filed (err x) g nodes unknown n t b e k = cc
