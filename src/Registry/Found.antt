-- ===== src/Registry/Found.antt =====
-- The dictionary of the registry: every record stands under its own id, and once.
use mathlib.Core.Option
use engineering_flow_platfor.Base.{
  ℕ, ◌+◌, String, ◌≡◌, ◌≢◌, refl, sym, ◌∙◌, ap, Option, none, some, List, [], ◌∷◌, length, Dict,
  values, lookup, insert, erase, IsDict, All, All-In, All-of_In, In, here, there, Pairwise, arith,
  eq_iff, string_eq, ◌==◌, lookup-insert, lookup-erase, length-erase, Bool-cases, Option-cases, inl,
  inr,
}
use engineering_flow_platfor.Registry.{ChatRunRecord, fail_stale, fail_stale_all, pop_all}

abbrev pub Runs : Type 0
Runs = Dict String ChatRunRecord

-- Every record stands under its own `request_id`.
abbrev pub IsKeyed : Runs → Type 0
IsKeyed [] = Unit
IsKeyed ((k, r) ∷ d) = (r.request_id ≡ k) × (lookup k d ≡ none) × IsKeyed d

pub IsDict-of_keyed : (d : Runs) → IsKeyed d → IsDict d
IsDict-of_keyed [] h = tt
IsDict-of_keyed ((k, r) ∷ d) h = (h.1, IsDict-of_keyed d h.2)

module _ (k : String) where
  pub own_id : (d : Runs) (r : ChatRunRecord) → IsKeyed d → lookup k d ≡ some r → r.request_id ≡ k
  unfolding lookup
  own_id [] r h e = cc
  own_id ((j, s) ∷ d) r h e = ground (arith, eq_iff j k, own_id d r h.2)

  pub In-of_lookup : (d : Runs) (r : ChatRunRecord) → lookup k d ≡ some r → In r (values d)
  unfolding lookup
  In-of_lookup [] r e = absurd (ground arith)
  In-of_lookup ((j, s) ∷ d) r e = elim (Bool-cases (j == k)) [
    | inl t ↦ here (ground arith)
    | inr f ↦ there (In-of_lookup d r (ground arith))
  ]

  pub lookup-of_In :
      (d : Runs) (r : ChatRunRecord)
      → IsKeyed d
      → r.request_id ≡ k
      → In r (values d)
      → lookup k d ≡ some r
  unfolding lookup
  lookup-of_In [] r h e i = elim i [ ]
  lookup-of_In ((j, s) ∷ d) r h e (here p) = ground (arith, eq_iff j k)
  lookup-of_In ((j, s) ∷ d) r h e (there i) = ground (arith, eq_iff j k, lookup-of_In d r h.2 e i)

  pub insert-IsKeyed :
      (d : Runs) (r : ChatRunRecord) → r.request_id ≡ k → IsKeyed d → IsKeyed (insert k r d)
  unfolding lookup insert
  insert-IsKeyed [] r e h = (e, refl, tt)
  insert-IsKeyed ((j, s) ∷ d) r e h =
      ground (arith, eq_iff j k, eq_iff k j, lookup-insert k j r d, insert-IsKeyed d r e h.2)

  pub erase-IsKeyed : (d : Runs) → IsKeyed d → IsKeyed (erase k d)
  unfolding lookup erase
  erase-IsKeyed [] h = tt
  erase-IsKeyed ((j, s) ∷ d) h = ground (
    arith,
    eq_iff j k,
    eq_iff k j,
    lookup-erase k j d (IsDict-of_keyed d h.2),
    erase-IsKeyed d h.2,
  )

-- No two records share an id.
abbrev pub OtherId : ChatRunRecord → ChatRunRecord → Type 0
OtherId a b = a.request_id ≢ b.request_id

pub values-distinct : (d : Runs) → IsKeyed d → Pairwise OtherId (values d)
values-distinct [] h = tt
values-distinct ((k, r) ∷ d) h = (
  All-of_In (OtherId r) (values d) (λ a i e. clash (lookup-of_In k d a h.2 (sym e ∙ h.0) i) h.1),
  values-distinct d h.2,
)
  where
    clash : {o : Option ChatRunRecord} {a : ChatRunRecord} → o ≡ some a → o ≡ none → ⊥
    clash p q = cc

module _ (stale now : ℕ) where
  pub lookup-fail_stale_all :
      (k : String) (d : Runs)
      → lookup k (fail_stale_all stale now d) ≡ Option.map (fail_stale stale now) (lookup k d)
  unfolding lookup fail_stale_all
  lookup-fail_stale_all k [] = refl
  lookup-fail_stale_all k ((j, r) ∷ d) = elim (Bool-cases (j == k)) [
    | inl t ↦ rw t
    | inr f ↦ rw f (lookup-fail_stale_all k d)
  ]

  id-fail_stale : (r : ChatRunRecord) → (fail_stale stale now r).request_id ≡ r.request_id
  unfolding fail_stale
  id-fail_stale r = ground arith

  pub fail_stale_all-IsKeyed : (d : Runs) → IsKeyed d → IsKeyed (fail_stale_all stale now d)
  unfolding fail_stale_all
  fail_stale_all-IsKeyed [] h = tt
  fail_stale_all-IsKeyed ((k, r) ∷ d) h = (
    id-fail_stale r ∙ h.0,
    lookup-fail_stale_all k d ∙ ap (Option.map (fail_stale stale now)) h.1,
    fail_stale_all-IsKeyed d h.2,
  )

pub pop_all-IsKeyed : (rs : List ChatRunRecord) (d : Runs) → IsKeyed d → IsKeyed (pop_all rs d)
unfolding pop_all
pop_all-IsKeyed [] d h = h
pop_all-IsKeyed (r ∷ rs) d h = pop_all-IsKeyed rs (erase r.request_id d) (erase-IsKeyed _ d h)

module _ (k : String) where
  pub lookup-pop_all_ne :
      (rs : List ChatRunRecord) (d : Runs)
      → IsKeyed d
      → All (λ r. r.request_id ≢ k) rs
      → lookup k (pop_all rs d) ≡ lookup k d
  unfolding pop_all
  lookup-pop_all_ne [] d h ne = refl
  lookup-pop_all_ne (r ∷ rs) d h ne = ground (
    arith,
    lookup-pop_all_ne rs (erase r.request_id d) (erase-IsKeyed _ d h) ne.1,
    lookup-erase r.request_id k d (IsDict-of_keyed d h),
    eq_iff r.request_id k,
  )

  pub lookup-pop_all-some :
      (rs : List ChatRunRecord) (d : Runs) (v : ChatRunRecord)
      → IsKeyed d
      → lookup k (pop_all rs d) ≡ some v
      → lookup k d ≡ some v
  unfolding pop_all
  lookup-pop_all-some [] d v h e = e
  lookup-pop_all-some (r ∷ rs) d v h e = ground (
    arith,
    lookup-pop_all-some rs (erase r.request_id d) v (erase-IsKeyed _ d h) e,
    lookup-erase r.request_id k d (IsDict-of_keyed d h),
  )

  pub lookup-pop_all-In :
      (rs : List ChatRunRecord) (d : Runs) (r : ChatRunRecord)
      → IsKeyed d
      → r.request_id ≡ k
      → In r rs
      → lookup k (pop_all rs d) ≡ none
  unfolding pop_all
  lookup-pop_all-In [] d r h e i = elim i [ ]
  lookup-pop_all-In (s ∷ rs) d r h e (here p) =
      elim (Option-cases (lookup k (pop_all rs (erase s.request_id d)))) [
        | inl e' ↦ e'
        | inr (v, found) ↦ absurd (
            ground (
              arith,
              lookup-pop_all-some rs (erase s.request_id d) v (erase-IsKeyed _ d h) found,
              lookup-erase s.request_id k d (IsDict-of_keyed d h),
              eq_iff s.request_id k,
            ))
      ]
  lookup-pop_all-In (s ∷ rs) d r h e (there i) =
      lookup-pop_all-In rs (erase s.request_id d) r (erase-IsKeyed _ d h) e i

pub length-pop_all :
    (rs : List ChatRunRecord) (d : Runs)
    → IsKeyed d
    → Pairwise OtherId rs
    → All (λ r. lookup r.request_id d ≡ some r) rs
    → length (pop_all rs d) + length rs ≡ length d
unfolding pop_all
length-pop_all [] d h distinct present = omega arith
length-pop_all (r ∷ rs) d h distinct present = omega (
  arith,
  length-erase r.request_id d r present.0,
  length-pop_all rs (erase r.request_id d) (erase-IsKeyed _ d h) distinct.1 (
      All-of_In (λ s. lookup s.request_id (erase r.request_id d) ≡ some s) rs
        (λ s i. ground (
          arith,
          lookup-erase r.request_id s.request_id d (IsDict-of_keyed d h),
          eq_iff r.request_id s.request_id,
          All-In (OtherId r) rs distinct.0 s i,
          All-In (λ t. lookup t.request_id d ≡ some t) rs present.1 s i,
        ))),
)
