-- ===== src/Consumer/PartitionRecords/Aborted.antt =====
-- Which producers the fetcher takes to be in an aborted transaction.
use aiokafka.Base.{
  Bool, true, false, not, ◌&&◌, ◌||◌, Option, none, some, List, [], ◌∷◌, ◌++◌, All, All-map, any,
  ◌≡◌, refl, ap, inl, inr, arith, leb_ℤ, Bool-cases, ℤ, Result, ok, err,
}
use aiokafka.Base.Keys.{◌==◌, int_eq}
use aiokafka.Base.Sets
use aiokafka.Base.Sorting.{Sorted}
use aiokafka.Consumer.PartitionRecords.{
  RecordBatch, AbortedTransaction, earlier, consume_aborted, contains_abort_marker,
}

abbrev pub names_producer : Option ℤ → ℤ → Bool
names_producer none p = false
names_producer (some q) p = q == p

abbrev pub is_true : Result Bool → Bool
is_true (ok t) = t
is_true (err e) = false

-- A batch that ends an aborted transaction of the producer.
unfoldable pub is_marker_of : RecordBatch → ℤ → Bool
is_marker_of b p =
    b.is_control_batch && names_producer b.producer_id p && is_true (contains_abort_marker b)

-- Of the batches that came, one ended the transaction of the producer that starts at the offset.
abbrev pub ended : List RecordBatch → ℤ → ℤ → Bool
ended seen p first_offset = any (λ c. is_marker_of c p && leb_ℤ first_offset c.base_offset) seen

abbrev pub open_for : List RecordBatch → ℤ → AbortedTransaction → Bool
open_for seen p (q, first_offset) = q == p && not (ended seen p first_offset)

-- An aborted transaction of the producer has begun at the offset, and no batch that came ended it.
unfoldable pub is_aborted : List AbortedTransaction → List RecordBatch → ℤ → ℤ → Bool
is_aborted transactions seen p offset =
    any (λ t. leb_ℤ t.1 offset && open_for seen p t) transactions

-- What `_consume_aborted_up_to` takes from the transactions.
pub record Consumed (offset : ℤ) (l rest : List AbortedTransaction) (producers after : List ℤ)
    : Type 0 where
  pub taken : List AbortedTransaction
  pub split : l ≡ taken ++ rest
  pub begun : All (λ t. leb_ℤ t.1 offset ≡ true) taken
  pub later : All (λ t. leb_ℤ t.1 offset ≡ false) rest
  pub order : Sorted earlier rest
  pub members :
      (p : ℤ) → Sets.contains after p ≡ (Sets.contains producers p || any (λ t. t.0 == p) taken)

all_later :
    (offset first : ℤ) (p : ℤ) (l : List AbortedTransaction)
    → leb_ℤ first offset ≡ false
    → All (λ t. earlier (p, first) t ≡ true) l
    → All (λ t. leb_ℤ t.1 offset ≡ false) l
all_later offset first p l h =
    All-map (λ t. earlier (p, first) t ≡ true) (λ t. leb_ℤ t.1 offset ≡ false)
      (λ t e. ground (arith, h, e)) l

pub consume_aborted-Consumed :
    (offset : ℤ) (l : List AbortedTransaction) (producers : List ℤ)
    → Sorted earlier l
    → let r = consume_aborted offset l producers in Consumed offset l r.0 producers r.1
unfolding consume_aborted
consume_aborted-Consumed offset [] producers h = record {
  taken = [];
  split = refl;
  begun = tt;
  later = tt;
  order = tt;
  members = λ p. ground arith;
}
consume_aborted-Consumed offset ((q, first) ∷ l) producers (h, hs) =
    elim (Bool-cases (leb_ℤ first offset)) [
      | inl e ↦
          let c = consume_aborted-Consumed offset l (Sets.add producers q) hs in
          rw e (record {
            taken = (q, first) ∷ c.taken;
            split = ap (λ l. (q, first) ∷ l) c.split;
            begun = (e, c.begun);
            later = c.later;
            order = c.order;
            members = λ p. ground (arith, c.members p, Sets.contains-add producers q p);
          })
      | inr e ↦ rw e (record {
        taken = [];
        split = refl;
        begun = tt;
        later = (e, all_later offset first q l e h);
        order = (h, hs);
        members = λ p. ground arith;
      })
    ]
