-- ===== src/Consumer/PartitionRecords/Tracking.antt =====
-- The set of aborted producers, from batch to batch.
use aiokafka.Base.{
  Bool, true, false, not, ◌&&◌, ◌||◌, List, [], ◌∷◌, ◌++◌, All, All-append, All-map, All-split,
  All-both, any, any-append, any-All, any_none, ◌≡◌, refl, sym, ap, ◌∙◌, arith, leb_ℤ,
  if◌then◌else◌, ℤ,
}
use mathlib.Core.List.{append_assoc}
use mathlib.Core.Path.{subst}
use aiokafka.Base.Keys.{◌==◌, int_eq}
use aiokafka.Base.Sets
use aiokafka.Base.Sorting.{Sorted}
use aiokafka.Consumer.PartitionRecords.{RecordBatch, AbortedTransaction, earlier, consume_aborted}
use aiokafka.Consumer.PartitionRecords.Aborted.{
  is_marker_of, ended, open_for, is_aborted, consume_aborted-Consumed,
}

abbrev pub NotAfter : ℤ → List RecordBatch → Type 0
NotAfter n = All (λ c. leb_ℤ c.base_offset n ≡ true)

-- What the transactions that are left and the producers say of the batches that came, newest first.
pub record Tracks (all : List AbortedTransaction) (seen : List RecordBatch)
    (l : List AbortedTransaction) (producers : List ℤ) : Type 0 where
  pub done : List AbortedTransaction
  pub split : all ≡ done ++ l
  pub order : Sorted earlier l
  pub begun : (n : ℤ) → NotAfter n seen → All (λ t. leb_ℤ t.1 n ≡ true) done
  pub later : All (λ t. All (λ c. leb_ℤ t.1 c.base_offset ≡ false) seen) l
  pub members : (p : ℤ) → Sets.contains producers p ≡ any (open_for seen p) done

none_seen :
    (l : List AbortedTransaction)
    → All (λ t. All {0, 0} {A = RecordBatch} (λ c. leb_ℤ t.1 c.base_offset ≡ false) []) l
none_seen [] = tt
none_seen (x ∷ l) = (tt, none_seen l)

pub Tracks-empty : (all : List AbortedTransaction) → Sorted earlier all → Tracks all [] all []
unfolding Sets.contains
Tracks-empty all h = record {
  done = [];
  split = refl;
  order = h;
  begun = λ n e. tt;
  later = none_seen all;
  members = λ p. refl;
}

or_false : (k : Bool) → (k || false) ≡ k
or_false true = refl
or_false false = refl

any_both :
    {A : Type 0} (k : Bool) (f : A → Bool) (l : List A) → any (λ x. k && f x) l ≡ (k && any f l)
any_both true f l = refl
any_both false f [] = refl
any_both false f (x ∷ l) = any_both false f l

not_ended :
    (p first : ℤ) (seen : List RecordBatch)
    → All (λ c. leb_ℤ first c.base_offset ≡ false) seen
    → ended seen p first ≡ false
not_ended p first seen h =
    any_none (λ c. is_marker_of c p && leb_ℤ first c.base_offset) seen
      (All-map (λ c. leb_ℤ first c.base_offset ≡ false)
        (λ c. (is_marker_of c p && leb_ℤ first c.base_offset) ≡ false) (λ c e. ground (arith, e))
        seen h)

-- The set after the batch b of the producer q.
abbrev pub after_marker : Bool → ℤ → List ℤ → List ℤ
after_marker m q producers = if m then Sets.discard producers q else producers

module _ (seen : List RecordBatch) (b : RecordBatch) (m : Bool) (q : ℤ)
    (marks : (p : ℤ) → is_marker_of b p ≡ (m && q == p)) where
  open_for_step :
      (p : ℤ) (l : List AbortedTransaction)
      → All (λ t. leb_ℤ t.1 b.base_offset ≡ true) l
      → any (open_for (b ∷ seen) p) l ≡ (not (m && q == p) && any (open_for seen p) l)
  open_for_step p l h =
      any-All (open_for (b ∷ seen) p) (λ t. not (m && q == p) && open_for seen p t) l
        (All-map (λ t. leb_ℤ t.1 b.base_offset ≡ true)
          (λ t. open_for (b ∷ seen) p t ≡ (not (m && q == p) && open_for seen p t))
          (λ t e. ground (arith, e, marks p)) l h)
      ∙ any_both (not (m && q == p)) (open_for seen p) l

  fresh_open :
      (p : ℤ) (l : List AbortedTransaction)
      → All (λ t. All (λ c. leb_ℤ t.1 c.base_offset ≡ false) seen) l
      → any (λ t. t.0 == p) l ≡ any (open_for seen p) l
  fresh_open p l h =
      any-All (λ t. t.0 == p) (open_for seen p) l
        (All-map (λ t. All (λ c. leb_ℤ t.1 c.base_offset ≡ false) seen)
          (λ t. (t.0 == p) ≡ open_for seen p t) (λ t e. ground (arith, not_ended p t.1 seen e)) l h)

  after_marker_lem :
      (p : ℤ) (producers : List ℤ)
      → Sets.contains (after_marker m q producers) p
        ≡ (not (m && q == p) && Sets.contains producers p)
  after_marker_lem p producers = ground (arith, Sets.contains-discard producers q p)

  -- Of the transactions that begin later, none is open at the batch.
  all_open :
      (all begun rest : List AbortedTransaction)
      → all ≡ begun ++ rest
      → All (λ t. leb_ℤ t.1 b.base_offset ≡ true) begun
      → All (λ t. leb_ℤ t.1 b.base_offset ≡ false) rest
      → is_aborted all (b ∷ seen) q b.base_offset ≡ any (open_for (b ∷ seen) q) begun
  unfolding is_aborted
  all_open all begun rest e h later =
      let test : AbortedTransaction → Bool =
        λ t. leb_ℤ t.1 b.base_offset && open_for (b ∷ seen) q t in
      ap (any test) e
      ∙ any-append test begun rest
      ∙ ap (λ k. k || any test rest)
          (any-All test (open_for (b ∷ seen) q) begun (
            All-map (λ t. leb_ℤ t.1 b.base_offset ≡ true) (λ t. test t ≡ open_for (b ∷ seen) q t)
              (λ t e. rw e refl) begun h))
      ∙ ap (λ k. any (open_for (b ∷ seen) q) begun || k)
          (any_none test rest (
            All-map (λ t. leb_ℤ t.1 b.base_offset ≡ false) (λ t. test t ≡ false) (λ t e. rw e refl)
              rest later))
      ∙ or_false (any (open_for (b ∷ seen) q) begun)

  pub Tracks-step :
      (all l : List AbortedTransaction) (producers : List ℤ)
      → NotAfter b.base_offset seen
      → Tracks all seen l producers
      → let r = consume_aborted b.base_offset l producers in
        Tracks all (b ∷ seen) r.0 (after_marker m q r.1)
        × (Sets.contains (after_marker m q r.1) q ≡ is_aborted all (b ∷ seen) q b.base_offset)
  Tracks-step all l producers before t =
      let (l', ps) = consume_aborted b.base_offset l producers in
      let c = consume_aborted-Consumed b.base_offset l producers t.order in
      let began : All (λ t. leb_ℤ t.1 b.base_offset ≡ true) (t.done ++ c.taken) =
        All-append (λ t. leb_ℤ t.1 b.base_offset ≡ true) t.done c.taken
          (t.begun b.base_offset before) c.begun in
      let (fresh, left) =
        All-split (λ t. All (λ c. leb_ℤ t.1 c.base_offset ≡ false) seen) c.taken l'
          (subst (All (λ t. All (λ c. leb_ℤ t.1 c.base_offset ≡ false) seen)) c.split t.later) in
      let split : all ≡ (t.done ++ c.taken) ++ l' =
        t.split ∙ ap (λ l. t.done ++ l) c.split ∙ sym (append_assoc t.done c.taken l') in
      let members : (p : ℤ)
          → Sets.contains (after_marker m q ps) p
            ≡ any (open_for (b ∷ seen) p) (t.done ++ c.taken) =
        λ p.
          after_marker_lem p ps
          ∙ ap (λ k. not (m && q == p) && k)
              (c.members p
                ∙ ap (λ k. k || any (λ t. t.0 == p) c.taken) (t.members p)
                ∙ ap (λ k. any (open_for seen p) t.done || k) (fresh_open p c.taken fresh)
                ∙ sym (any-append (open_for seen p) t.done c.taken))
          ∙ sym (open_for_step p (t.done ++ c.taken) began) in
      let tracks : Tracks all (b ∷ seen) l' (after_marker m q ps) = record {
        done = t.done ++ c.taken;
        split = split;
        order = c.order;
        begun = λ n h.
            All-append (λ t. leb_ℤ t.1 n ≡ true) t.done c.taken (t.begun n h.1)
              (All-map (λ t. leb_ℤ t.1 b.base_offset ≡ true) (λ t. leb_ℤ t.1 n ≡ true)
                (λ t e. ground (arith, e, h.0)) c.taken c.begun);
        later =
            All-both (λ t. leb_ℤ t.1 b.base_offset ≡ false)
              (λ t. All (λ c. leb_ℤ t.1 c.base_offset ≡ false) seen) l' c.later left;
        members = members;
      } in
      (tracks, members q ∙ sym (all_open all (t.done ++ c.taken) l' split began c.later))
