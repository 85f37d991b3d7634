-- ===== src/ChatLog/Coherent.antt =====
-- What the cache of chatlog_store.py and its files have to do with each other.
use mathlib.Core.Path.{subst}
use engineering_flow_platfor.Base.{
  ℕ, zero, suc, ◌-◌, String, ◌≡◌, refl, sym, ap, ◌∙◌, inl, inr, Bool, true, false, not, ◌&&◌, ◌||◌,
  Option, none, some, List, [], ◌∷◌, arith, eq_iff, if◌then◌else◌, ◌==◌, nat_eq, string_eq, pair_eq,
  Bool-cases, Option-cases, length, take, select, contains, Dict, keys, lookup, erase, IsDict,
  lookup-insert, lookup-erase, erase-IsDict,
}
use engineering_flow_platfor.Base.Value.{Value, dict, Fields}
use engineering_flow_platfor.ChatLog.{
  ChatLogStore, Outcome, nothing, raised, returned, move_to_end, erase_all, evictable, evict,
}

abbrev pub content : Option (Option Value) → Outcome
content none = nothing
content (some none) = raised
content (some (some v)) = returned v

abbrev pub over : Option Fields → Outcome → Outcome
over none below = below
over (some payload) below = returned (dict payload)

-- What a reader gets for a name: what is cached, and what the file holds otherwise.
unfoldable pub view : ChatLogStore → String → Outcome
view s k = over (lookup k s.cache) (content (lookup k s.files))

-- What is not yet written is in the cache, and what else is there is what the file holds; of the name
-- `busy`, if any, neither is asked.
pub record IsCoherentBut (busy : String → Bool) (s : ChatLogStore) : Type 0 where
  pub cached_once : IsDict s.cache
  pub filed_once : IsDict s.files
  pub kept :
      (k : String)
      → busy k ≡ false
      → contains k s.pending ≡ true
      → (payload : Fields) × (lookup k s.cache ≡ some payload)
  pub clean :
      (k : String) (payload : Fields)
      → busy k ≡ false
      → lookup k s.cache ≡ some payload
      → contains k s.pending ≡ false
      → lookup k s.files ≡ some (some (dict payload))

abbrev pub nobody : String → Bool
nobody k = false

abbrev pub IsCoherent : ChatLogStore → Type 0
IsCoherent s = IsCoherentBut nobody s

pub lookup-move_to_end :
    {V : Type 0} (name k : String) (v : V) (d : Dict String V)
    → IsDict d
    → lookup k (move_to_end name v d) ≡ (if name == k then some v else lookup k d)
lookup-move_to_end name k v d once =
    lookup-insert name k v (erase name d) ∙ elim (Bool-cases (name == k)) [
      | inl t ↦ rw t refl
      | inr f ↦ rw f (lookup-erase name k d once ∙ rw f refl)
    ]

erase_all-IsDict :
    {V : Type 0} (ks : List String) (d : Dict String V) → IsDict d → IsDict (erase_all ks d)
unfolding erase_all
erase_all-IsDict [] d h = h
erase_all-IsDict (k ∷ ks) d h = erase_all-IsDict ks (erase k d) (erase-IsDict k d h)

lookup-erase_all :
    {V : Type 0} (k : String) (ks : List String) (d : Dict String V)
    → IsDict d
    → lookup k (erase_all ks d) ≡ (if contains k ks then none else lookup k d)
unfolding erase_all
lookup-erase_all k [] d h = refl
lookup-erase_all k (j ∷ ks) d h =
    lookup-erase_all k ks (erase j d) (erase-IsDict j d h)
    ∙ rw (lookup-erase j k d h) (cases (j == k) (contains k ks))
  where
    cases :
        (a b : Bool)
        → (if b then none else if a then none else lookup k d)
          ≡ (if a || b then none else lookup k d)
    cases true true = refl
    cases true false = refl
    cases false true = refl
    cases false false = refl

contains-take :
    (k : String) (n : ℕ) (xs : List String) → contains k (take n xs) ≡ true → contains k xs ≡ true
contains-take k zero xs h = absurd (ground (arith, h))
contains-take k (suc n) [] h = absurd (ground (arith, h))
contains-take k (suc n) (x ∷ xs) h = elim (Bool-cases (x == k)) [
  | inl t ↦ rw t refl
  | inr f ↦ rw f (contains-take k n xs (rw f at h))
]

contains-select :
    (p : String → Bool) (k : String) (xs : List String)
    → contains k (select p xs) ≡ true
    → p k ≡ true
contains-select p k [] h = absurd (ground (arith, h))
contains-select p k (x ∷ xs) h = elim (Bool-cases (p x)) [
  | inr f ↦ contains-select p k xs (rw f at h)
  | inl t ↦ elim (Bool-cases (x == k)) [
    | inl same ↦ subst (λ y. p y ≡ true) ((eq_iff x k).0 same) t
    | inr other ↦ contains-select p k xs (rw (t, other) at h)
  ]
]

-- Evicting leaves what a reader gets, of a name that is not busy.
module _ (busy : String → Bool) (name : String) (s : ChatLogStore) (c : IsCoherentBut busy s) where
  victims : List String
  victims = take (length s.cache - s.max_cached_sessions) (evictable name s.pending s.cache)

  -- A victim is another name, and not pending.
  victim_lem :
      (k : String)
      → contains k victims ≡ true
      → ((k == name) ≡ false) × (contains k s.pending ≡ false)
  unfolding victims
  victim_lem k h =
      let q =
        contains-select (λ k. not (k == name) && not (contains k s.pending)) k (keys s.cache)
          (contains-take k (length s.cache - s.max_cached_sessions)
            (evictable name s.pending s.cache) h) in
      (ground (arith, q), ground (arith, q))

  lookup-evict :
      (k : String)
      → lookup k (evict name s).cache ≡ (if contains k victims then none else lookup k s.cache)
  unfolding victims
  lookup-evict k = lookup-erase_all k victims s.cache c.cached_once

  evict_same :
      (k : String) → contains k victims ≡ false → lookup k (evict name s).cache ≡ lookup k s.cache
  evict_same k h = lookup-evict k ∙ rw h refl

  evict_gone : (k : String) → contains k victims ≡ true → lookup k (evict name s).cache ≡ none
  evict_gone k h = lookup-evict k ∙ rw h refl

  pub evict-IsCoherentBut : IsCoherentBut busy (evict name s)
  evict-IsCoherentBut = record {
    cached_once = erase_all-IsDict _ s.cache c.cached_once;
    filed_once = c.filed_once;
    kept = λ k idle waits. elim (Bool-cases (contains k victims)) [
      | inl t ↦ absurd (ground (arith, (victim_lem k t).1, waits))
      | inr f ↦ let (payload, p) = c.kept k idle waits in (payload, evict_same k f ∙ p)
    ];
    clean = λ k payload idle p written. elim (Bool-cases (contains k victims)) [
      | inl t ↦ absurd (ground (arith, evict_gone k t, p))
      | inr f ↦ c.clean k payload idle (sym (evict_same k f) ∙ p) written
    ];
  }

  pub view-evict : (k : String) → busy k ≡ false → view (evict name s) k ≡ view s k
  unfolding view
  view-evict k idle = elim (Bool-cases (contains k victims)) [
    | inr f ↦ ap (λ o. over o (content (lookup k s.files))) (evict_same k f)
    | inl t ↦
        ap (λ o. over o (content (lookup k s.files))) (evict_gone k t)
        ∙ elim (Option-cases (lookup k s.cache)) [
          | inl no_payload ↦ rw no_payload refl
          | inr (payload, p) ↦ rw (p, c.clean k payload idle p (victim_lem k t).1) refl
        ]
  ]

  pub evict_keeps_name : lookup name (evict name s).cache ≡ lookup name s.cache
  evict_keeps_name = elim (Bool-cases (contains name victims)) [
    | inr f ↦ evict_same name f
    | inl t ↦ absurd (ground (arith, (victim_lem name t).0, eq_iff name name))
  ]
