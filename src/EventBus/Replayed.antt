-- ===== src/EventBus/Replayed.antt =====
-- What `recent_events` of event_bus.py sends again, and that the store of pending permissions
-- (pending_input.py) is not moved by it; what the sweep leaves.
use mathlib.Core.Path.{subst}
use text.Mathlib.TextPositions.{eq_refl}
use engineering_flow_platfor.Base.{
  ℕ, zero, suc, ◌-◌, ◌≤◌, String, ◌≡◌, refl, sym, ap, ◌⊎◌, inl, inr, true, false, Option, some,
  List, [], ◌∷◌, arith, eq_iff, ◌==◌, nat_eq, string_eq, pair_eq, Bool-cases, some_inj, length,
  drop, length-drop, All, All-drop, contains, In, In-cons, Pairwise-drop, sorted_by, IsSortedBy,
  All-sorted_by, sorted_by-IsSortedBy, lookup,
}
use engineering_flow_platfor.Base.Value.{Value, dict, Fields, get-put}
use engineering_flow_platfor.Pending.{PendingInput, observe_event, is_replayed}
use engineering_flow_platfor.EventBus.{
  Item, Store, EventBus, is_expired, prune_bucket, keep_bucket, sweep_store,
}
use engineering_flow_platfor.EventBus.Replay.{
  Query, read_bucket, is_wanted, collect, sort_items, event_sort_time, max_items, tail_items,
  mark_replayed, replay, selected_items, recent_events,
}

IsSortedBy-drop :
    {A : Type 0} (key : A → ℕ) (n : ℕ) (xs : List A)
    → IsSortedBy key xs
    → IsSortedBy key (drop n xs)
IsSortedBy-drop key n xs h = Pairwise-drop (λ x y. key x ≤ key y) n xs h

length-tail_items : (n : ℕ) (items : List Item) → length (tail_items n items) ≤ n
length-tail_items zero items = omega arith
length-tail_items (suc n) items = omega (arith, length-drop (length items - suc n) items)

module _ (repr : Value → String) (fromisoformat : String → Option ℕ) where
  module _ (q : Query) where
    -- what `collect` keeps is wanted, and is in the bucket
    collect-wanted :
        (seen : List ℕ) (b : List Item)
        → All (λ it. is_wanted repr fromisoformat q it ≡ true) (collect repr fromisoformat q seen b)
    unfolding collect
    collect-wanted seen [] = tt
    collect-wanted seen (it ∷ b) = elim (Bool-cases (contains it.seq seen)) [
      | inl t ↦ rw t (collect-wanted seen b)
      | inr f ↦ rw f (elim (Bool-cases (is_wanted repr fromisoformat q it)) [
        | inl w ↦ rw w (w, collect-wanted (it.seq ∷ seen) b)
        | inr n ↦ rw n (collect-wanted (it.seq ∷ seen) b)
      ])
    ]

  tail-sorted :
      (n : ℕ) (items : List Item)
      → IsSortedBy
          (event_sort_time repr fromisoformat)
          (tail_items n (sort_items repr fromisoformat items))
  unfolding sort_items
  tail-sorted zero items = tt
  tail-sorted (suc n) items =
      IsSortedBy-drop (event_sort_time repr fromisoformat) _ _
        (sorted_by-IsSortedBy (event_sort_time repr fromisoformat) (sorted_by (λ it. it.seq) items))

  tail-All :
      (P : Item → Type 0) (n : ℕ) (items : List Item)
      → All P items
      → All P (tail_items n (sort_items repr fromisoformat items))
  unfolding sort_items
  tail-All P zero items h = tt
  tail-All P (suc n) items h = All-drop P _ _ (
      All-sorted_by (event_sort_time repr fromisoformat) P _
        (All-sorted_by (λ it. it.seq) P items h))

  length-replay : (items : List Item) → length (replay items) ≡ length items
  unfolding replay
  length-replay [] = refl
  length-replay (it ∷ items) = ap suc (length-replay items)

  -- A replay holds wanted events only, in the order of their times, and no more of them than the
  -- query's limit and the bus allow.
  pub recent_events_lem :
      (now : ℕ) (q : Query) (bus : EventBus)
      → (length (recent_events repr fromisoformat now q bus).1 ≤ max_items bus.replay_limit q.limit)
        × IsSortedBy
            (event_sort_time repr fromisoformat)
            (selected_items repr fromisoformat now q bus)
        × All
            (λ it. is_wanted repr fromisoformat q it ≡ true)
            (selected_items repr fromisoformat now q bus)
  unfolding recent_events selected_items
  recent_events_lem now q bus =
      let n = max_items bus.replay_limit q.limit in
      let items = collect repr fromisoformat q [] (read_bucket now q bus) in
      (
        omega (
          arith,
          length-replay (tail_items n (sort_items repr fromisoformat items)),
          length-tail_items n (sort_items repr fromisoformat items),
        ),
        tail-sorted n items,
        tail-All (λ it. is_wanted repr fromisoformat q it ≡ true) n items
            (collect-wanted q [] (read_bucket now q bus)),
      )

  replayed-mark : (event : Fields) → is_replayed repr (mark_replayed event) ≡ true
  unfolding mark_replayed
  replayed-mark event = simp get-put

  observe-mark :
      (event : Fields) (s : PendingInput) → observe_event repr (dict (mark_replayed event)) s ≡ s
  unfolding observe_event
  observe-mark event s = rw (replayed-mark event)

  replay_ignored :
      (s : PendingInput) (items : List Item)
      → All (λ event. observe_event repr (dict event) s ≡ s) (replay items)
  unfolding replay
  replay_ignored s [] = tt
  replay_ignored s (it ∷ items) = (observe-mark it.event s, replay_ignored s items)

  -- An event that the bus replays never changes the store of pending permissions, so that it brings
  -- no answered request back.
  pub observe-recent_events :
      (now : ℕ) (q : Query) (bus : EventBus) (s : PendingInput)
      → All
          (λ event. observe_event repr (dict event) s ≡ s)
          (recent_events repr fromisoformat now q bus).1
  unfolding recent_events
  observe-recent_events now q bus s = replay_ignored s (selected_items repr fromisoformat now q bus)

module _ (bus : EventBus) (now : ℕ) where
  In-prune :
      (it : Item) (b : List Item)
      → is_expired bus.replay_ttl now it ≡ false
      → In it b
      → In it (prune_bucket bus.replay_ttl now b)
  unfolding prune_bucket
  In-prune it [] live i = elim i [ ]
  In-prune it (x ∷ b) live i = elim (Bool-cases (is_expired bus.replay_ttl now x)) [
    | inr f ↦ rw f i
    | inl t ↦ rw t (later t (In-cons i) (In-prune it b live))
  ]
    where
      later :
          is_expired bus.replay_ttl now x ≡ true
          → (it ≡ x) ⊎ In it b
          → (In it b → In it (prune_bucket bus.replay_ttl now b))
          → In it (prune_bucket bus.replay_ttl now b)
      later t (inl e) ih = absurd (ground (arith, e, t, live))
      later t (inr j) ih = ih j

  keep-found :
      (k : String) (b : List Item) (store : Store) (it : Item)
      → In it b
      → (b' : List Item) × (lookup k (keep_bucket k b store) ≡ some b') × In it b'
  unfolding lookup
  keep-found k [] store it i = elim i [ ]
  keep-found k (x ∷ b) store it i = (x ∷ b, simp eq_refl, i)

  keep-other :
      (k j : String) (b : List Item) (store : Store)
      → (j == k) ≡ false
      → lookup k (keep_bucket j b store) ≡ lookup k store
  unfolding lookup
  keep-other k j [] store ne = refl
  keep-other k j (x ∷ b) store ne = rw ne

  -- The sweep loses no event that has not expired.
  pub sweep_keeps_live :
      (k : String) (store : Store) (b : List Item) (it : Item)
      → lookup k store ≡ some b
      → In it b
      → is_expired bus.replay_ttl now it ≡ false
      → (b' : List Item) × (lookup k (sweep_store bus now store) ≡ some b') × In it b'
  unfolding sweep_store lookup
  sweep_keeps_live k [] b it e i live = absurd (ground arith)
  sweep_keeps_live k ((j, x) ∷ store) b it e i live = elim (Bool-cases (j == k)) [
    | inl t ↦ rw ((eq_iff j k).0 t) (
        keep-found k (prune_bucket bus.replay_ttl now x) (sweep_store bus now store) it
          (In-prune it x live (subst (In it) (sym (some_inj (rw t at e))) i)))
    | inr f ↦
        rw (keep-other k j (prune_bucket bus.replay_ttl now x) (sweep_store bus now store) f)
          (sweep_keeps_live k store b it (rw f at e) i live)
  ]
