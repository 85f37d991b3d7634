-- ===== src/Base/Lists.antt =====
-- Lists measured by native numbers, Python's negative slices, and predicates over lists.
use Prim.Native.Nat.{ℕ, zero, suc, ◌+◌, ◌-◌, ◌≤◌, min}
use mathlib.Core.Path.{◌≡◌, refl, sym, subst}
use mathlib.Core.Logic.{◌⊎◌, inl, inr}
use mathlib.Core.List.{List, [], ◌∷◌, ◌++◌}
use mathlib.Core.Bool.{Bool, true, false, ◌||◌}
use native.Mathlib.Omega.{arith}
use engineering_flow_platfor.Base.Tests.{Bool-cases, if◌then◌else◌, Eq, ◌==◌}

module _ {ℓ} {A : Type ℓ} where
  abbrev pub length : List A → ℕ
  length [] = 0
  length (x ∷ xs) = suc (length xs)

  abbrev pub take : ℕ → List A → List A
  take zero xs = []
  take (suc n) [] = []
  take (suc n) (x ∷ xs) = x ∷ take n xs

  abbrev pub drop : ℕ → List A → List A
  drop zero xs = xs
  drop (suc n) [] = []
  drop (suc n) (x ∷ xs) = drop n xs

  -- `xs[-n:]` for n > 0
  abbrev pub last : ℕ → List A → List A
  last n xs = drop (length xs - n) xs

  -- `not xs`
  abbrev pub is_nil : List A → Bool
  is_nil [] = true
  is_nil (x ∷ xs) = false

  -- `[x for x in xs if p(x)]`
  abbrev pub select : (A → Bool) → List A → List A
  select p [] = []
  select p (x ∷ xs) = let rest = select p xs in if p x then x ∷ rest else rest

  pub length-append : (xs ys : List A) → length (xs ++ ys) ≡ length xs + length ys
  length-append [] ys = omega arith
  length-append (x ∷ xs) ys = omega (arith, length-append xs ys)

  pub length-take : (n : ℕ) (xs : List A) → length (take n xs) ≡ min n (length xs)
  length-take zero xs = omega arith
  length-take (suc n) [] = omega arith
  length-take (suc n) (x ∷ xs) = omega (arith, length-take n xs)

  pub length-drop : (n : ℕ) (xs : List A) → length (drop n xs) ≡ length xs - n
  length-drop zero xs = omega arith
  length-drop (suc n) [] = omega arith
  length-drop (suc n) (x ∷ xs) = omega (arith, length-drop n xs)

module _ {ℓ κ} {A : Type ℓ} where
  -- A predicate by recursion computes to tuples, which the tactics read and build.
  abbrev pub All : (A → Type κ) → List A → Type κ
  All P [] = Unit
  All P (x ∷ xs) = P x × All P xs

module _ {ℓ κ} {A : Type ℓ} where
  pub All-append :
      (P : A → Type κ) (front back : List A) → All P front → All P back → All P (front ++ back)
  All-append P [] back f b = b
  All-append P (a ∷ front) back f b = (f.0, All-append P front back f.1 b)

  pub All-drop : (P : A → Type κ) (n : ℕ) (xs : List A) → All P xs → All P (drop n xs)
  All-drop P zero xs h = h
  All-drop P (suc n) [] h = h
  All-drop P (suc n) (x ∷ xs) h = All-drop P n xs h.1

  pub All-take : (P : A → Type κ) (n : ℕ) (xs : List A) → All P xs → All P (take n xs)
  All-take P zero xs h = tt
  All-take P (suc n) [] h = tt
  All-take P (suc n) (x ∷ xs) h = (h.0, All-take P n xs h.1)

  pub All-map : (P Q : A → Type κ) → ((a : A) → P a → Q a) → (xs : List A) → All P xs → All Q xs
  All-map P Q f [] h = tt
  All-map P Q f (x ∷ xs) h = (f x h.0, All-map P Q f xs h.1)

module _ {ℓ} {A : Type ℓ} ⦃e : Eq A⦄ where
  -- `a in xs`
  abbrev pub contains : A → List A → Bool
  contains a [] = false
  contains a (x ∷ xs) = x == a || contains a xs

-- Membership, with its place kept.
pub data In {ℓ} {A : Type ℓ} (a : A) : List A → Type ℓ where
  here : {x : A} {xs : List A} → a ≡ x → In a (x ∷ xs)
  there : {x : A} {xs : List A} → In a xs → In a (x ∷ xs)

module _ {ℓ} {A : Type ℓ} where
  pub In-cons : {a x : A} {xs : List A} → In a (x ∷ xs) → (a ≡ x) ⊎ In a xs
  In-cons (here e) = inl e
  In-cons (there i) = inr i

  pub In-take_or_drop :
      (a : A) (n : ℕ) (xs : List A) → In a xs → In a (take n xs) ⊎ In a (drop n xs)
  In-take_or_drop a zero xs h = inr h
  In-take_or_drop a (suc n) [] h = elim h [ ]
  In-take_or_drop a (suc n) (x ∷ xs) (here e) = inl (here e)
  In-take_or_drop a (suc n) (x ∷ xs) (there h) = elim (In-take_or_drop a n xs h) [
    | inl t ↦ inl (there t)
    | inr d ↦ inr d
  ]

  pub In-of_take : (a : A) (n : ℕ) (xs : List A) → In a (take n xs) → In a xs
  In-of_take a zero xs h = elim h [ ]
  In-of_take a (suc n) [] h = elim h [ ]
  In-of_take a (suc n) (x ∷ xs) (here e) = here e
  In-of_take a (suc n) (x ∷ xs) (there h) = there (In-of_take a n xs h)

  pub In-of_drop : (a : A) (n : ℕ) (xs : List A) → In a (drop n xs) → In a xs
  In-of_drop a zero xs h = h
  In-of_drop a (suc n) [] h = elim h [ ]
  In-of_drop a (suc n) (x ∷ xs) h = there (In-of_drop a n xs h)

  pub All-In {κ} : (P : A → Type κ) (xs : List A) → All P xs → (a : A) → In a xs → P a
  All-In P [] h a i = elim i [ ]
  All-In P (x ∷ xs) h a (here e) = subst P (sym e) h.0
  All-In P (x ∷ xs) h a (there i) = All-In P xs h.1 a i

  pub All-of_In {κ} : (P : A → Type κ) (xs : List A) → ((a : A) → In a xs → P a) → All P xs
  All-of_In P [] f = tt
  All-of_In P (x ∷ xs) f = (f x (here refl), All-of_In P xs (λ a i. f a (there i)))

  module _ (p : A → Bool) where
    pub In-select : (a : A) (xs : List A) → p a ≡ true → In a xs → In a (select p xs)
    In-select a [] pa i = elim i [ ]
    In-select a (x ∷ xs) pa (here e) = rw (← e, pa) (here refl)
    In-select a (x ∷ xs) pa (there h) = elim (Bool-cases (p x)) [
      | inl t ↦ rw t (there (In-select a xs pa h))
      | inr f ↦ rw f (In-select a xs pa h)
    ]

    pub All-select : (xs : List A) → All (λ x. p x ≡ true) (select p xs)
    All-select [] = tt
    All-select (x ∷ xs) = elim (Bool-cases (p x)) [
      | inl h ↦ rw h (h, All-select xs)
      | inr h ↦ rw h (All-select xs)
    ]

    pub In-of_select : (a : A) (xs : List A) → In a (select p xs) → In a xs
    In-of_select a [] h = elim h [ ]
    In-of_select a (x ∷ xs) h = elim (Bool-cases (p x)) [
      | inl t ↦ elim (In-cons (rw t at h)) [ inl e ↦ here e | inr r ↦ there (In-of_select a xs r) ]
      | inr f ↦ there (In-of_select a xs (rw f at h))
    ]

  pub drop_of_length-le : (n : ℕ) (xs : List A) → length xs ≤ n → drop n xs ≡ []
  drop_of_length-le zero [] h = refl
  drop_of_length-le zero (x ∷ xs) h = absurd (omega arith)
  drop_of_length-le (suc n) [] h = refl
  drop_of_length-le (suc n) (x ∷ xs) h = drop_of_length-le n xs (omega arith)

  -- Every element stands in the relation with all that follow it.
  abbrev pub Pairwise {κ} : (A → A → Type κ) → List A → Type κ
  Pairwise R [] = Unit
  Pairwise R (x ∷ xs) = All (R x) xs × Pairwise R xs

  pub Pairwise-take {κ} :
      (R : A → A → Type κ) (n : ℕ) (xs : List A) → Pairwise R xs → Pairwise R (take n xs)
  Pairwise-take R zero xs h = tt
  Pairwise-take R (suc n) [] h = tt
  Pairwise-take R (suc n) (x ∷ xs) h = (All-take (R x) n xs h.0, Pairwise-take R n xs h.1)

  pub Pairwise-drop {κ} :
      (R : A → A → Type κ) (n : ℕ) (xs : List A) → Pairwise R xs → Pairwise R (drop n xs)
  Pairwise-drop R zero xs h = h
  Pairwise-drop R (suc n) [] h = h
  Pairwise-drop R (suc n) (x ∷ xs) h = Pairwise-drop R n xs h.1

  pub Pairwise-select {κ} :
      (R : A → A → Type κ) (p : A → Bool) (xs : List A) → Pairwise R xs → Pairwise R (select p xs)
  Pairwise-select R p [] h = tt
  Pairwise-select R p (x ∷ xs) h = elim (Bool-cases (p x)) [
    | inl t ↦ rw t (
      All-of_In (R x) (select p xs) (λ a i. All-In (R x) xs h.0 a (In-of_select p a xs i)),
      Pairwise-select R p xs h.1,
    )
    | inr f ↦ rw f (Pairwise-select R p xs h.1)
  ]

  -- What is taken stands in the relation with what is left.
  pub Pairwise-take_drop {κ} :
      (R : A → A → Type κ) (n : ℕ) (xs : List A)
      → Pairwise R xs
      → (a b : A) → In a (take n xs)
      → In b (drop n xs)
      → R a b
  Pairwise-take_drop R zero xs h a b i ib = elim i [ ]
  Pairwise-take_drop R (suc n) [] h a b i ib = elim i [ ]
  Pairwise-take_drop R (suc n) (x ∷ xs) h a b (here e) ib =
      subst (λ c. R c b) (sym e) (All-In (R x) xs h.0 b (In-of_drop b n xs ib))
  Pairwise-take_drop R (suc n) (x ∷ xs) h a b (there i) ib = Pairwise-take_drop R n xs h.1 a b i ib
