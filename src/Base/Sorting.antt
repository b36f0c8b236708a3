-- ===== src/Base/Sorting.antt =====
-- Python's `sorted`, by a test of two items.
use mathlib.Core.Path.{◌≡◌, refl, ap, ◌∙◌}
use mathlib.Core.Logic.{◌⊎◌, inl, inr}
use mathlib.Core.Bool.{Bool, true, ◌||◌}
use mathlib.Core.List.{List, [], ◌∷◌}
use aiokafka.Base.Tests.{if◌then◌else◌, Bool-cases}
use aiokafka.Base.Lists.{All, All-map, any}
use native.Mathlib.Omega.{arith}

-- `sorted`, which is stable
unfoldable pub insert : {A : Type 0} → (A → A → Bool) → A → List A → List A
insert le x [] = x ∷ []
insert le x (y ∷ l) = let rest = insert le x l in if le x y then x ∷ y ∷ l else y ∷ rest

unfoldable pub sorted : {A : Type 0} → (A → A → Bool) → List A → List A
unfolding insert
sorted le [] = []
sorted le (x ∷ l) = insert le x (sorted le l)

abbrev pub Sorted : {A : Type 0} → (A → A → Bool) → List A → Type 0
Sorted le [] = Unit
Sorted le (x ∷ l) = All (λ y. le x y ≡ true) l × Sorted le l

module _ {A : Type 0} (le : A → A → Bool) where
  any-insert : (f : A → Bool) (x : A) (l : List A) → any f (insert le x l) ≡ (f x || any f l)
  unfolding insert
  any-insert f x [] = refl
  any-insert f x (y ∷ l) = ground (arith, any-insert f x l)

  pub any-sorted : (f : A → Bool) (l : List A) → any f (sorted le l) ≡ any f l
  unfolding sorted
  any-sorted f [] = refl
  any-sorted f (x ∷ l) = any-insert f x (sorted le l) ∙ ap (λ b. f x || b) (any-sorted f l)

  module _ (total : (x y : A) → (le x y ≡ true) ⊎ (le y x ≡ true))
      (trans : (x y z : A) → le x y ≡ true → le y z ≡ true → le x z ≡ true) where
    All-insert : (P : A → Type 0) (x : A) (l : List A) → P x → All P l → All P (insert le x l)
    unfolding insert
    All-insert P x [] h hs = (h, tt)
    All-insert P x (y ∷ l) h hs = elim (Bool-cases (le x y)) [
      | inl e ↦ rw e (h, hs)
      | inr e ↦ rw e (hs.0, All-insert P x l h hs.1)
    ]

    insert-Sorted : (x : A) (l : List A) → Sorted le l → Sorted le (insert le x l)
    unfolding insert
    insert-Sorted x [] h = (tt, tt)
    insert-Sorted x (y ∷ l) (hy, h) = elim (Bool-cases (le x y)) [
      | inl e ↦ rw e (
        (e, All-map (λ z. le y z ≡ true) (λ z. le x z ≡ true) (λ z. trans x y z e) l hy),
        (hy, h),
      )
      | inr e ↦ rw e (
        All-insert (λ z. le y z ≡ true) x l
            (elim (total x y) [ inl c ↦ absurd (ground (arith, c, e)) | inr c ↦ c ]) hy,
        insert-Sorted x l h,
      )
    ]

    pub sorted-Sorted : (l : List A) → Sorted le (sorted le l)
    unfolding sorted
    sorted-Sorted [] = tt
    sorted-Sorted (x ∷ l) = insert-Sorted x (sorted le l) (sorted-Sorted l)
