-- ===== src/Base/Sets.antt =====
-- Python's set, as the list of its members in the order in which they came.
use mathlib.Core.Path.{◌≡◌, refl}
use mathlib.Core.Bool.{Bool, false, not, ◌&&◌, ◌||◌}
use mathlib.Core.List.{List, [], ◌∷◌, ◌++◌}
use native.Mathlib.Omega.{arith}
use aiokafka.Base.Tests.{if◌then◌else◌}
use aiokafka.Base.Keys.{Eq, ◌==◌, ==_iff}

module _ {ℓ} {K : Type ℓ} ⦃e : Eq K⦄ where
  unfoldable pub contains : List K → K → Bool
  contains [] k = false
  contains (x ∷ xs) k = x == k || contains xs k

  -- s.add(k)
  unfoldable pub add : List K → K → List K
  add xs k = if contains xs k then xs else xs ++ k ∷ []

  -- s.discard(k)
  unfoldable pub discard : List K → K → List K
  discard [] k = []
  discard (x ∷ xs) k = let rest = discard xs k in if x == k then rest else x ∷ rest

  pub contains-append :
      (xs ys : List K) (k : K) → contains (xs ++ ys) k ≡ (contains xs k || contains ys k)
  unfolding contains
  contains-append [] ys k = refl
  contains-append (x ∷ xs) ys k = ground (arith, contains-append xs ys k)

  pub contains-add : (xs : List K) (k j : K) → contains (add xs k) j ≡ (k == j || contains xs j)
  unfolding add contains
  contains-add xs k j = ground (arith, contains-append xs (k ∷ []) j, ==_iff k j)

  pub contains-discard :
      (xs : List K) (k j : K) → contains (discard xs k) j ≡ (not (k == j) && contains xs j)
  unfolding discard contains
  contains-discard [] k j = ground arith
  contains-discard (x ∷ xs) k j =
      ground (arith, ==_iff k j, ==_iff x k, ==_iff x j, contains-discard xs k j)

  -- frozenset(items)
  unfoldable pub frozenset : List K → List K
  frozenset [] = []
  frozenset (x ∷ xs) = add (frozenset xs) x

  pub contains-frozenset : (xs : List K) (k : K) → contains (frozenset xs) k ≡ contains xs k
  unfolding frozenset contains
  contains-frozenset [] k = refl
  contains-frozenset (x ∷ xs) k =
      ground (arith, contains-add (frozenset xs) x k, contains-frozenset xs k)
