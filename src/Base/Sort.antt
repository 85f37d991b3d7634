-- ===== src/Base/Sort.antt =====
-- Python's stable `sorted(xs, key=...)` for a key into the numbers, as insertion.
use Prim.Native.Nat.{ℕ, ◌≤◌}
use mathlib.Core.Path.{◌≡◌, refl}
use mathlib.Core.Bool.{true, false}
use mathlib.Core.Logic.{◌⊎◌, inl, inr}
use mathlib.Core.List.{List, [], ◌∷◌}
use native.Mathlib.Omega.{arith}
use engineering_flow_platfor.Base.Tests.{Bool-cases, leb, if◌then◌else◌}
use engineering_flow_platfor.Base.Lists.{
  In, here, there, In-cons, All-map, All-In, All-of_In, Pairwise, All,
}

module _ {ℓ} {A : Type ℓ} (key : A → ℕ) where
  -- An element goes before the first one with a key that is not smaller, so that equal keys keep
  -- the order of the list.
  unfoldable pub sort_insert : A → List A → List A
  sort_insert a [] = a ∷ []
  sort_insert a (x ∷ xs) = if leb (key a) (key x) then a ∷ x ∷ xs else x ∷ sort_insert a xs

  unfoldable pub sorted_by : List A → List A
  unfolding sort_insert
  sorted_by [] = []
  sorted_by (x ∷ xs) = sort_insert x (sorted_by xs)

  abbrev pub IsSortedBy : List A → Type 0
  IsSortedBy = Pairwise (λ x y. key x ≤ key y)

  module _ {κ} (P : A → Type κ) where
    All-sort_insert : (a : A) (xs : List A) → P a → All P xs → All P (sort_insert a xs)
    unfolding sort_insert
    All-sort_insert a [] h hs = (h, tt)
    All-sort_insert a (x ∷ xs) h hs =
        elim (leb (key a) (key x))
          as (λ b. All P (if b then a ∷ x ∷ xs else x ∷ sort_insert a xs)) [
            | true ↦ (h, hs)
            | false ↦ (hs.0, All-sort_insert a xs h hs.1)
          ]

    pub All-sorted_by : (xs : List A) → All P xs → All P (sorted_by xs)
    unfolding sorted_by
    All-sorted_by [] h = tt
    All-sorted_by (x ∷ xs) h = All-sort_insert x (sorted_by xs) h.0 (All-sorted_by xs h.1)

  In-sort_insert_self : (a : A) (xs : List A) → In a (sort_insert a xs)
  unfolding sort_insert
  In-sort_insert_self a [] = here refl
  In-sort_insert_self a (x ∷ xs) = elim (Bool-cases (leb (key a) (key x))) [
    | inl t ↦ rw t (here refl)
    | inr f ↦ rw f (there (In-sort_insert_self a xs))
  ]

  In-sort_insert : (a b : A) (xs : List A) → In b xs → In b (sort_insert a xs)
  unfolding sort_insert
  In-sort_insert a b [] h = elim h [ ]
  In-sort_insert a b (x ∷ xs) h = elim (Bool-cases (leb (key a) (key x))) [
    | inl t ↦ rw t (there h)
    | inr f ↦ rw f (later (In-cons h) (λ i. In-sort_insert a b xs i))
  ]
    where
      later : (b ≡ x) ⊎ In b xs → (In b xs → In b (sort_insert a xs)) → In b (x ∷ sort_insert a xs)
      later (inl e) f = here e
      later (inr i) f = there (f i)

  pub In-sorted_by : (a : A) (xs : List A) → In a xs → In a (sorted_by xs)
  unfolding sorted_by
  In-sorted_by a [] i = elim i [ ]
  In-sorted_by a (x ∷ xs) (here e) = rw e (In-sort_insert_self x (sorted_by xs))
  In-sorted_by a (x ∷ xs) (there i) = In-sort_insert x a (sorted_by xs) (In-sorted_by a xs i)

  pub In-of_sorted_by : (a : A) (xs : List A) → In a (sorted_by xs) → In a xs
  In-of_sorted_by a xs i =
      All-In (λ b. In b xs) (sorted_by xs)
        (All-sorted_by (λ b. In b xs) xs (All-of_In (λ b. In b xs) xs (λ b j. j))) a i

  module _ {κ} (R : A → A → Type κ) (symmetric : (a b : A) → R a b → R b a) where
    Pairwise-sort_insert :
        (a : A) (xs : List A) → All (R a) xs → Pairwise R xs → Pairwise R (sort_insert a xs)
    unfolding sort_insert
    Pairwise-sort_insert a [] h hs = (tt, tt)
    Pairwise-sort_insert a (x ∷ xs) h hs =
        elim (leb (key a) (key x))
          as (λ t. Pairwise R (if t then a ∷ x ∷ xs else x ∷ sort_insert a xs)) [
            | true ↦ (h, hs)
            | false ↦ (
              All-sort_insert (R x) a xs (symmetric a x h.0) hs.0,
              Pairwise-sort_insert a xs h.1 hs.1,
            )
          ]

    -- A symmetric relation between all elements does not depend on their order.
    pub Pairwise-sorted_by : (xs : List A) → Pairwise R xs → Pairwise R (sorted_by xs)
    unfolding sorted_by
    Pairwise-sorted_by [] h = tt
    Pairwise-sorted_by (x ∷ xs) h =
        Pairwise-sort_insert x (sorted_by xs) (All-sorted_by (R x) xs h.0)
          (Pairwise-sorted_by xs h.1)

  sort_insert-IsSortedBy : (a : A) (xs : List A) → IsSortedBy xs → IsSortedBy (sort_insert a xs)
  unfolding sort_insert
  sort_insert-IsSortedBy a [] h = (tt, tt)
  sort_insert-IsSortedBy a (x ∷ xs) h = elim (Bool-cases (leb (key a) (key x))) [
    | inl t ↦ rw t (
      (
        ground arith,
        All-map (λ y. key x ≤ key y) (λ y. key a ≤ key y) (λ y q. ground arith) xs h.0,
      ),
      h,
    )
    | inr f ↦ rw f (
      All-sort_insert (λ y. key x ≤ key y) a xs (ground arith) h.0,
      sort_insert-IsSortedBy a xs h.1,
    )
  ]

  pub sorted_by-IsSortedBy : (xs : List A) → IsSortedBy (sorted_by xs)
  unfolding sorted_by
  sorted_by-IsSortedBy [] = tt
  sorted_by-IsSortedBy (x ∷ xs) = sort_insert-IsSortedBy x (sorted_by xs) (sorted_by-IsSortedBy xs)
