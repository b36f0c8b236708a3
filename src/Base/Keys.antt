-- ===== src/Base/Keys.antt =====
-- Equality tests on keys, and the keys of the program's dictionaries: texts and topic partitions.
use Prim.Native.Nat.{ℕ}
use Prim.Native.String.{String}
use mathlib.Core.Path.{◌≡◌}
use mathlib.Core.Logic.{◌↔◌}
use mathlib.Core.Bool.{Bool, true, ◌&&◌}
use native.Mathlib.Omega.{arith}
use text.Mathlib.Text.{◌==◌ as str_eq}
use text.Mathlib.TextEquality.{eq_iff}
use aiokafka.Base.Tests.{eqb, eqb_iff}
use aiokafka.Base.Int.{ℤ, eqb_ℤ, eqb_ℤ_iff}

-- `TopicPartition` of structs.py
pub record TopicPartition : Type 0 where
  pub topic : String
  pub partition : ℕ

-- Tuples are compared field by field.
abbrev pub tp_same : TopicPartition → TopicPartition → Bool
tp_same a b = str_eq a.topic b.topic && eqb a.partition b.partition

pub tp_same_iff : (a b : TopicPartition) → (tp_same a b ≡ true) ↔ (a ≡ b)
tp_same_iff a b = ground (arith, eq_iff a.topic b.topic)

-- A type whose values can be keys of a dict or members of a set.
pub record Eq {ℓ} (K : Type ℓ) : Type ℓ where
  pub same : K → K → Bool
  pub same_iff : (j k : K) → (same j k ≡ true) ↔ (j ≡ k)

instance abbrev pub tp_eq : Eq TopicPartition
tp_eq = record { same = tp_same; same_iff = tp_same_iff }

instance abbrev pub string_eq : Eq String
string_eq = record { same = str_eq; same_iff = eq_iff }

instance abbrev pub nat_eq : Eq ℕ
nat_eq = record { same = eqb; same_iff = eqb_iff }

instance abbrev pub int_eq : Eq ℤ
int_eq = record { same = eqb_ℤ; same_iff = eqb_ℤ_iff }

module _ {ℓ} {K : Type ℓ} ⦃key : Eq K⦄ where
  infix 50 ◌==◌
  abbrev pub ◌==◌ : K → K → Bool
  j == k = key.same j k

  pub ==_iff : (j k : K) → ((j == k) ≡ true) ↔ (j ≡ k)
  ==_iff = key.same_iff
