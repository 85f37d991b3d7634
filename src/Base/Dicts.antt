-- ===== src/Base/Dicts.antt =====
-- Python's `dict`: entries in the order in which their keys were first written.
use Prim.Native.Nat.{◌+◌, ◌≤◌}
use mathlib.Core.Bool.{Bool}
use mathlib.Core.Path.{◌∙◌, subst, ◌≡◌, refl, sym}
use mathlib.Core.Option.{Option, none, some}
use mathlib.Core.Logic.{inl, inr}
use mathlib.Core.List.{List, [], ◌∷◌, ◌++◌}
use native.Mathlib.Omega.{arith}
use engineering_flow_platfor.Base.Tests.{some_inj, Bool-cases, if◌then◌else◌, Eq, ◌==◌}
use engineering_flow_platfor.Base.Lists.{All, length, In, here, there}

abbrev pub Dict {ℓ κ} : Type ℓ → Type κ → Type (ℓ ⊔ κ)
Dict K V = List (K × V)

abbrev pub values {ℓ κ} : {K : Type ℓ} {V : Type κ} → Dict K V → List V
values [] = []
values ((k, v) ∷ d) = v ∷ values d

abbrev pub keys {ℓ κ} : {K : Type ℓ} {V : Type κ} → Dict K V → List K
keys [] = []
keys ((k, v) ∷ d) = k ∷ keys d

module _ {κ} {K : Type 0} {V : Type κ} ⦃e : Eq K⦄ where
  -- `d.get(k)`
  unfoldable pub lookup : K → Dict K V → Option V
  lookup k [] = none
  lookup k ((j, v) ∷ d) = if j == k then some v else lookup k d

  -- `d[k] = v`
  unfoldable pub insert : K → V → Dict K V → Dict K V
  insert k v [] = (k, v) ∷ []
  insert k v ((j, w) ∷ d) = if j == k then (j, v) ∷ d else (j, w) ∷ insert k v d

  -- `d.pop(k, None)`
  unfoldable pub erase : K → Dict K V → Dict K V
  erase k [] = []
  erase k ((j, w) ∷ d) = if j == k then d else (j, w) ∷ erase k d

  -- No key has two entries.
  abbrev pub IsDict : Dict K V → Type κ
  IsDict [] = Unit
  IsDict ((k, v) ∷ d) = (lookup k d ≡ none) × IsDict d

  pub lookup-insert :
      (k j : K) (v : V) (d : Dict K V)
      → lookup j (insert k v d) ≡ (if k == j then some v else lookup j d)
  unfolding lookup insert
  lookup-insert k j v [] = refl
  lookup-insert k j v ((i, w) ∷ d) =
      ground (arith, e.is_same_iff k j, e.is_same_iff i k, e.is_same_iff i j, lookup-insert k j v d)

  pub lookup-erase :
      (k j : K) (d : Dict K V)
      → IsDict d
      → lookup j (erase k d) ≡ (if k == j then none else lookup j d)
  unfolding lookup erase
  lookup-erase k j [] h = ground arith
  lookup-erase k j ((i, w) ∷ d) h =
      ground
        (arith, e.is_same_iff k j, e.is_same_iff i k, e.is_same_iff i j, lookup-erase k j d h.1)

  pub insert-IsDict : (k : K) (v : V) (d : Dict K V) → IsDict d → IsDict (insert k v d)
  unfolding lookup insert
  insert-IsDict k v [] h = (refl, tt)
  insert-IsDict k v ((i, w) ∷ d) h =
      ground (
        arith,
        e.is_same_iff k i,
        e.is_same_iff i k,
        lookup-insert k i v d,
        insert-IsDict k v d h.1,
      )

  pub erase-IsDict : (k : K) (d : Dict K V) → IsDict d → IsDict (erase k d)
  unfolding lookup erase
  erase-IsDict k [] h = tt
  erase-IsDict k ((i, w) ∷ d) h =
      ground
        (arith, e.is_same_iff k i, e.is_same_iff i k, lookup-erase k i d h.1, erase-IsDict k d h.1)

  pub length-erase-le : (k : K) (d : Dict K V) → length (erase k d) ≤ length d
  unfolding erase
  length-erase-le k [] = omega arith
  length-erase-le k ((i, w) ∷ d) = ground (arith, length-erase-le k d)

  pub length-erase :
      (k : K) (d : Dict K V) (v : V) → lookup k d ≡ some v → length (erase k d) + 1 ≡ length d
  unfolding lookup erase
  length-erase k [] v h = cc
  length-erase k ((i, w) ∷ d) v h = ground (arith, length-erase k d v)

  pub insert_self : (k : K) (v : V) (d : Dict K V) → lookup k d ≡ some v → insert k v d ≡ d
  unfolding lookup insert
  insert_self k v [] h = cc
  insert_self k v ((i, w) ∷ d) h = ground (arith, insert_self k v d)

  -- The second write under a key replaces the first.
  pub insert-insert : (k : K) (v w : V) (d : Dict K V) → insert k w (insert k v d) ≡ insert k w d
  unfolding insert
  insert-insert k v w [] = ground (arith, e.is_same_iff k k)
  insert-insert k v w ((i, x) ∷ d) = ground (arith, e.is_same_iff i k, insert-insert k v w d)

  pub length-insert_known :
      (k : K) (v w : V) (d : Dict K V) → lookup k d ≡ some v → length (insert k w d) ≡ length d
  unfolding lookup insert
  length-insert_known k v w [] h = cc
  length-insert_known k v w ((i, x) ∷ d) h = ground (arith, length-insert_known k v w d)

  -- A new key goes to the end.
  pub insert_new :
      (k : K) (v : V) (d : Dict K V) → lookup k d ≡ none → insert k v d ≡ d ++ (k, v) ∷ []
  unfolding lookup insert
  insert_new k v [] h = refl
  insert_new k v ((j, w) ∷ d) h = ground (arith, insert_new k v d)

  pub lookup-In : (k : K) (v : V) (d : Dict K V) → lookup k d ≡ some v → In v (values d)
  unfolding lookup
  lookup-In k v [] h = absurd (ground arith)
  lookup-In k v ((j, w) ∷ d) h = elim (Bool-cases (j == k)) [
    | inl t ↦ here (sym (some_inj (rw t at h)))
    | inr f ↦ there (lookup-In k v d (rw f at h))
  ]

  module _ {μ} (P : V → Type μ) where
    -- What holds of every value holds of the value that is found, and goes on over a write.
    pub lookup-All : (k : K) (v : V) (d : Dict K V) → All (λ p. P p.1) d → lookup k d ≡ some v → P v
    unfolding lookup
    lookup-All k v [] h e = absurd (ground arith)
    lookup-All k v ((j, w) ∷ d) h e = elim (Bool-cases (j == k)) [
      | inl t ↦ subst P (some_inj (rw t at e)) h.0
      | inr f ↦ lookup-All k v d h.1 (rw f at e)
    ]

    pub insert-All :
        (k : K) (v : V) (d : Dict K V) → P v → All (λ p. P p.1) d → All (λ p. P p.1) (insert k v d)
    unfolding insert
    insert-All k v [] h hs = (h, tt)
    insert-All k v ((j, w) ∷ d) h hs = elim (Bool-cases (j == k)) [
      | inl t ↦ rw t (h, hs.1)
      | inr f ↦ rw f (hs.0, insert-All k v d h hs.1)
    ]

-- `{k: v for k, v in d.items() if p(v)}`
unfoldable pub filter_values {κ} : {K : Type 0} {V : Type κ} → (V → Bool) → Dict K V → Dict K V
filter_values p [] = []
filter_values p ((k, v) ∷ d) = let rest = filter_values p d in if p v then (k, v) ∷ rest else rest

-- a write to every value
unfoldable pub map_values {κ} : {K : Type 0} {V : Type κ} → (V → V) → Dict K V → Dict K V
map_values f [] = []
map_values f ((k, v) ∷ d) = (k, f v) ∷ map_values f d

abbrev pub if_kept {κ} : {V : Type κ} → (V → Bool) → Option V → Option V
if_kept p none = none
if_kept p (some v) = if p v then some v else none

module _ {κ} {K : Type 0} {V : Type κ} ⦃e : Eq K⦄ where
  pub lookup-filter_values :
      (p : V → Bool) (k : K) (d : Dict K V)
      → IsDict d
      → lookup k (filter_values p d) ≡ if_kept p (lookup k d)
  unfolding lookup filter_values
  lookup-filter_values p k [] h = refl
  lookup-filter_values p k ((j, v) ∷ d) h =
      ground (arith, e.is_same_iff j k, lookup-filter_values p k d h.1)

  pub filter_values-IsDict : (p : V → Bool) (d : Dict K V) → IsDict d → IsDict (filter_values p d)
  unfolding lookup filter_values
  filter_values-IsDict p [] h = tt
  filter_values-IsDict p ((j, v) ∷ d) h =
      ground (arith, lookup-filter_values p j d h.1, filter_values-IsDict p d h.1)

  pub lookup-map_values :
      (f : V → V) (k : K) (d : Dict K V)
      → lookup k (map_values f d) ≡ elim (lookup k d) [ none ↦ none | some v ↦ some (f v) ]
  unfolding lookup map_values
  lookup-map_values f k [] = refl
  lookup-map_values f k ((j, v) ∷ d) = elim (Bool-cases (j == k)) [
    | inl t ↦ rw t refl
    | inr n ↦ rw n (lookup-map_values f k d)
  ]

  pub map_values-IsDict : (f : V → V) (d : Dict K V) → IsDict d → IsDict (map_values f d)
  unfolding lookup map_values
  map_values-IsDict f [] h = tt
  map_values-IsDict f ((j, v) ∷ d) h =
      (lookup-map_values f j d ∙ rw h.0 refl, map_values-IsDict f d h.1)
