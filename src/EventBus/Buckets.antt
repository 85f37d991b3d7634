-- ===== src/EventBus/Buckets.antt =====
-- The replay buckets of event_bus.py: how many events they hold, and in which order.
use engineering_flow_platfor.Base.{
  ℕ, suc, ◌≤◌, ◌<◌, ◌≡◌, refl, inl, inr, Option, none, some, List, [], ◌∷◌, ◌++◌, arith, ltb,
  nat_eq, string_eq, pair_eq, Bool-cases, length, drop, length-drop, All, All-append, All-drop,
  Pairwise, Pairwise-drop, IsDict,
}
use engineering_flow_platfor.EventBus.{
  Item, Store, EventBus, is_expired, prune_bucket, trim_bucket, bucket_of,
}

-- Pruning and trimming drop from the front.
prune-drop : (ttl now : ℕ) (b : List Item) → (n : ℕ) × (prune_bucket ttl now b ≡ drop n b)
unfolding prune_bucket
prune-drop ttl now [] = (0, refl)
prune-drop ttl now (it ∷ b) = elim (Bool-cases (is_expired ttl now it)) [
  | inl t ↦ let (n, e) = prune-drop ttl now b in (suc n, rw t e)
  | inr f ↦ (0, rw f refl)
]

trim-drop : (limit : ℕ) (b : List Item) → (n : ℕ) × (trim_bucket limit b ≡ drop n b)
unfolding trim_bucket
trim-drop limit [] = (0, refl)
trim-drop limit (it ∷ b) = elim (Bool-cases (ltb limit (length (it ∷ b)))) [
  | inl t ↦ let (n, e) = trim-drop limit b in (suc n, rw t e)
  | inr f ↦ (0, rw f refl)
]

length-trim : (limit : ℕ) (b : List Item) → length (trim_bucket limit b) ≤ limit
unfolding trim_bucket
length-trim limit [] = omega arith
length-trim limit (it ∷ b) = ground (arith, length-trim limit b)

-- Events are numbered in the order of arrival, below the next number.
pub record IsNumbered (next : ℕ) (b : List Item) : Type 0 where
  pub increasing : Pairwise (λ x y. x.seq < y.seq) b
  pub below : All (λ x. x.seq < next) b

-- A bucket is numbered and within the limit.
pub record IsBucket (limit next : ℕ) (b : List Item) : Type 0 where
  pub numbered : IsNumbered next b
  pub fits : length b ≤ limit

module _ (limit next : ℕ) where
  drop-IsNumbered : (n : ℕ) (b : List Item) → IsNumbered next b → IsNumbered next (drop n b)
  drop-IsNumbered n b h = record {
    increasing = Pairwise-drop (λ x y. x.seq < y.seq) n b h.increasing;
    below = All-drop (λ x. x.seq < next) n b h.below;
  }

  pub prune-IsBucket :
      (ttl now : ℕ) (b : List Item)
      → IsBucket limit next b
      → IsBucket limit next (prune_bucket ttl now b)
  prune-IsBucket ttl now b h =
      let (n, e) = prune-drop ttl now b in
      rw e (record {
        numbered = drop-IsNumbered n b h.numbered;
        fits = omega (arith, h.fits, length-drop n b);
      })

  pub bucket_of-IsNumbered :
      (o : Option (List Item))
      → ((b : List Item) → o ≡ some b → IsBucket limit next b)
      → IsNumbered next (bucket_of o)
  bucket_of-IsNumbered none h = record { increasing = tt; below = tt }
  bucket_of-IsNumbered (some b) h = (h b refl).numbered

  -- a numbered bucket with the next event behind it
  snoc-IsNumbered :
      (b : List Item) (it : Item)
      → it.seq ≡ next
      → IsNumbered next b
      → IsNumbered (suc next) (b ++ it ∷ [])
  snoc-IsNumbered b it e h = record {
    increasing = pairs b h.increasing h.below;
    below = bounds b h.below;
  }
    where
      below_it :
          (b : List Item)
          → All (λ x. x.seq < next) b
          → (x : Item) → x.seq < it.seq
          → All (λ y. x.seq < y.seq) b
          → All (λ y. x.seq < y.seq) (b ++ it ∷ [])
      below_it b hb x hx h = All-append (λ y. x.seq < y.seq) b (it ∷ []) h (hx, tt)

      pairs :
          (b : List Item)
          → Pairwise (λ x y. x.seq < y.seq) b
          → All (λ x. x.seq < next) b
          → Pairwise (λ x y. x.seq < y.seq) (b ++ it ∷ [])
      pairs [] h hb = (tt, tt)
      pairs (x ∷ b) h hb = (below_it b hb.1 x (omega (arith, hb.0, e)) h.0, pairs b h.1 hb.1)

      bounds :
          (b : List Item) → All (λ x. x.seq < next) b → All (λ x. x.seq < suc next) (b ++ it ∷ [])
      bounds [] h = (omega (arith, e), tt)
      bounds (x ∷ b) h = (omega (arith, h.0), bounds b h.1)

  pub trimmed-IsBucket :
      (ttl now : ℕ) (b : List Item) (it : Item)
      → it.seq ≡ next
      → IsNumbered next b
      → IsBucket limit (suc next) (trim_bucket limit (prune_bucket ttl now (b ++ it ∷ [])))
  trimmed-IsBucket ttl now b it e h =
      let (n, p) = prune-drop ttl now (b ++ it ∷ []) in
      let (k, q) = trim-drop limit (drop n (b ++ it ∷ [])) in
      record {
        numbered = rw (p, q) (drop2 k n (snoc-IsNumbered b it e h));
        fits = length-trim limit (prune_bucket ttl now (b ++ it ∷ []));
      }
    where
      drop2 :
          (k n : ℕ)
          → IsNumbered (suc next) (b ++ it ∷ [])
          → IsNumbered (suc next) (drop k (drop n (b ++ it ∷ [])))
      drop2 k n h = record {
        increasing =
            Pairwise-drop (λ x y. x.seq < y.seq) k _
              (Pairwise-drop (λ x y. x.seq < y.seq) n _ h.increasing);
        below = All-drop (λ x. x.seq < suc next) k _ (All-drop (λ x. x.seq < suc next) n _ h.below);
      }

-- Every bucket of a store is, and no key has two.
pub record IsStore (limit next : ℕ) (store : Store) : Type 0 where
  pub keys_once : IsDict store
  pub buckets : All (λ p. IsBucket limit next p.1) store

pub record IsValid (bus : EventBus) : Type 0 where
  pub by_session : IsStore bus.replay_limit bus.next_seq bus.recent_by_session
  pub by_request : IsStore bus.replay_limit bus.next_seq bus.recent_by_request
