-- ===== src/EventBus/Bounds.antt =====
-- The invariant of the bus in event_bus.py: bounded replay buckets in the order of arrival.
use engineering_flow_platfor.Base.{
  ℕ, suc, ◌+◌, ◌<◌, String, ◌≡◌, refl, inl, inr, false, ◌||◌, none, List, [], ◌∷◌, arith, ltb, leb,
  ◌==◌, nat_eq, string_eq, pair_eq, Bool-cases, All, All-map, is_empty, lookup, insert-IsDict,
  lookup-All, insert-All,
}
use engineering_flow_platfor.Base.Value.{Value, Fields}
use engineering_flow_platfor.EventBus.{
  Item, Store, EventBus, prune_bucket, bucket_of, append_limited, keep_bucket, sweep_store,
  sweep_expired_buckets, record_item, store_recent, event_value, new_bus, publish,
}
use engineering_flow_platfor.EventBus.Buckets.{
  IsBucket, IsStore, IsValid, prune-IsBucket, bucket_of-IsNumbered, trimmed-IsBucket,
}

widen : (limit next : ℕ) (b : List Item) → IsBucket limit next b → IsBucket limit (suc next) b
widen limit next b h = record {
  numbered = record {
    increasing = h.numbered.increasing;
    below =
        All-map (λ x. x.seq < next) (λ x. x.seq < suc next) (λ x p. omega (arith, p)) b
          h.numbered.below;
  };
  fits = h.fits;
}

append-IsStore :
    (bus : EventBus) (now : ℕ) (store : Store) (key : String) (it : Item)
    → it.seq ≡ bus.next_seq
    → IsStore bus.replay_limit bus.next_seq store
    → IsStore bus.replay_limit (suc bus.next_seq) (append_limited bus now store key it)
unfolding append_limited
append-IsStore bus now store key it e h =
    elim (Bool-cases (is_empty key || leb bus.replay_limit 0)) [
      | inl t ↦ rw t (record { keys_once = h.keys_once; buckets = wider })
      | inr f ↦ rw f (record {
        keys_once = insert-IsDict key _ store h.keys_once;
        buckets =
            insert-All (IsBucket bus.replay_limit (suc bus.next_seq)) key _ store
              (trimmed-IsBucket bus.replay_limit bus.next_seq bus.replay_ttl now
                (bucket_of (lookup key store)) it e
                (bucket_of-IsNumbered bus.replay_limit bus.next_seq (lookup key store) (λ b p.
                  lookup-All (IsBucket bus.replay_limit bus.next_seq) key b store h.buckets p)))
              wider;
      })
    ]
  where
    wider : All (λ p. IsBucket bus.replay_limit (suc bus.next_seq) p.1) store
    wider =
        All-map (λ p. IsBucket bus.replay_limit bus.next_seq p.1)
          (λ p. IsBucket bus.replay_limit (suc bus.next_seq) p.1)
          (λ p. widen bus.replay_limit bus.next_seq p.1) store h.buckets

module _ (bus : EventBus) (now : ℕ) where
  lookup-keep_none :
      (k j : String) (b : List Item) (store : Store)
      → (j == k) ≡ false
      → lookup k store ≡ none
      → lookup k (keep_bucket j b store) ≡ none
  unfolding lookup
  lookup-keep_none k j [] store ne h = h
  lookup-keep_none k j (it ∷ b) store ne h = rw ne h

  lookup-sweep_none :
      (k : String) (store : Store)
      → lookup k store ≡ none
      → lookup k (sweep_store bus now store) ≡ none
  unfolding sweep_store lookup
  lookup-sweep_none k [] h = refl
  lookup-sweep_none k ((j, b) ∷ store) h = elim (Bool-cases (j == k)) [
    | inl t ↦ absurd (ground (arith, t, h))
    | inr f ↦
        lookup-keep_none k j (prune_bucket bus.replay_ttl now b) (sweep_store bus now store) f
          (lookup-sweep_none k store (rw f at h))
  ]

  keep-IsStore :
      (limit next : ℕ) (k : String) (b : List Item) (store : Store)
      → lookup k store ≡ none
      → IsBucket limit next b
      → IsStore limit next store
      → IsStore limit next (keep_bucket k b store)
  keep-IsStore limit next k [] store e hb h = h
  keep-IsStore limit next k (it ∷ b) store e hb h = record {
    keys_once = (e, h.keys_once);
    buckets = (hb, h.buckets);
  }

  sweep-IsStore :
      (limit next : ℕ) (store : Store)
      → IsStore limit next store
      → IsStore limit next (sweep_store bus now store)
  unfolding sweep_store
  sweep-IsStore limit next [] h = record { keys_once = tt; buckets = tt }
  sweep-IsStore limit next ((k, b) ∷ store) h =
      keep-IsStore limit next k (prune_bucket bus.replay_ttl now b) (sweep_store bus now store)
        (lookup-sweep_none k store h.keys_once.0)
        (prune-IsBucket limit next bus.replay_ttl now b h.buckets.0)
        (sweep-IsStore limit next store
          (record { keys_once = h.keys_once.1; buckets = h.buckets.1 }))

  sweep-IsValid : IsValid bus → IsValid (sweep_expired_buckets bus now)
  unfolding sweep_expired_buckets
  sweep-IsValid v = elim (Bool-cases (ltb now (bus.last_sweep + bus.sweep_interval))) [
    | inl t ↦ rw t v
    | inr f ↦ rw f (record {
      by_session = sweep-IsStore bus.replay_limit bus.next_seq bus.recent_by_session v.by_session;
      by_request = sweep-IsStore bus.replay_limit bus.next_seq bus.recent_by_request v.by_request;
    })
  ]

pub new_bus-IsValid : (limit ttl interval : ℕ) → IsValid (new_bus limit ttl interval)
new_bus-IsValid limit ttl interval = record {
  by_session = record { keys_once = tt; buckets = tt };
  by_request = record { keys_once = tt; buckets = tt };
}

module _ (repr : Value → String) where
  record-IsValid :
      (now : ℕ) (event : Fields) (bus : EventBus)
      → IsValid bus
      → IsValid (record_item repr now event bus)
  unfolding record_item
  record-IsValid now event bus v =
      let it : Item = record { ts = now; seq = bus.next_seq; event = event } in
      let next : bus.next_seq + 1 ≡ suc bus.next_seq = omega arith in
      rw next (record {
        by_session =
            append-IsStore bus now bus.recent_by_session (event_value repr event "session_id") it
              refl v.by_session;
        by_request =
            append-IsStore bus now bus.recent_by_request (event_value repr event "request_id") it
              refl v.by_request;
      })

  store_recent-IsValid :
      (now : ℕ) (event : Fields) (bus : EventBus)
      → IsValid bus
      → IsValid (store_recent repr now event bus)
  unfolding store_recent
  store_recent-IsValid now event bus v = elim (Bool-cases (leb bus.replay_limit 0)) [
    | inl t ↦ rw t v
    | inr f ↦
        rw f (record-IsValid now event (sweep_expired_buckets bus now) (sweep-IsValid bus now v))
  ]

  -- Publishing keeps the replay buckets in shape: no key has two buckets, no bucket holds more than
  -- `replay_limit` events, and its events stand in the order of their sequence numbers, all below
  -- the next one.
  pub publish-IsValid {ℓ} :
      {S : Type ℓ} (observers : List (Fields → S → S)) (now : ℕ) (event : Fields) (bus : EventBus)
      (state : S)
      → IsValid bus
      → IsValid (publish repr observers now event (bus, state)).0
  unfolding publish
  publish-IsValid observers now event bus state v =
      let stored = store_recent-IsValid now event bus v in
      record { by_session = stored.by_session; by_request = stored.by_request }
