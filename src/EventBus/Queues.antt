-- ===== src/EventBus/Queues.antt =====
-- Delivery of event_bus.py: the bounded queues of the subscribers.
use engineering_flow_platfor.Base.{
  ℕ, ◌-◌, ◌≤◌, String, ◌≡◌, refl, ap, inl, inr, false, List, [], ◌∷◌, ◌++◌, map, arith, leb,
  if◌then◌else◌, nat_eq, string_eq, pair_eq, leb→le, not_leb→lt, Bool-cases, length, drop, last,
  length-append, length-drop, All,
}
use engineering_flow_platfor.Base.Value.{Value, Fields}
use engineering_flow_platfor.EventBus.{
  Subscriber, EventBus, matches, deliver, deliver_all, make_room, put_nowait, queue_size, publish,
  store_recent,
}

-- Every queue is within its size.
abbrev pub AreBounded : List Subscriber → Type 0
AreBounded = All (λ s. length s.queue ≤ queue_size)

module _ (repr : Value → String) (event : Fields) where
  -- the queue after a delivery: the newest 99 waiting events and the new one
  abbrev pub delivered : Subscriber → Subscriber
  delivered sub =
      if matches repr sub.filters event
      then record sub { queue = last 99 sub.queue ++ event ∷ [] }
      else sub

  queue-eq :
      (q : List Fields)
      → length q ≤ queue_size
      → put_nowait event (make_room q) ≡ last 99 q ++ event ∷ []
  unfolding put_nowait make_room
  queue-eq q h = elim (Bool-cases (leb queue_size (length q))) [
    | inl full ↦
        let one : length q - 99 ≡ 1 = omega (arith, h, leb→le _ _ full) in
        let short : leb queue_size (length (drop 1 q)) ≡ false = ground (arith, length-drop 1 q) in
        rw (full, one) (rw short refl)
    | inr free ↦
        let nothing : length q - 99 ≡ 0 = omega (arith, not_leb→lt _ _ free) in
        rw (free, nothing) (rw free refl)
  ]

  deliver-delivered :
      (sub : Subscriber) → length sub.queue ≤ queue_size → deliver repr event sub ≡ delivered sub
  unfolding deliver
  deliver-delivered sub h = elim (Bool-cases (matches repr sub.filters event)) [
    | inr f ↦ rw f
    | inl t ↦ rw t (ap (λ q. record sub { queue = q }) (queue-eq sub.queue h))
  ]

  -- A published event stands last in the queue of every subscriber whose filters it matches, behind
  -- at most 99 of the events that waited there, the newest ones; no other queue changes.
  pub deliver_all-delivered :
      (subs : List Subscriber) → AreBounded subs → deliver_all repr event subs ≡ map delivered subs
  unfolding deliver_all
  deliver_all-delivered [] h = refl
  deliver_all-delivered (s ∷ subs) h = cc (deliver-delivered s h.0, deliver_all-delivered subs h.1)

  delivered-bounded :
      (s : Subscriber) → length s.queue ≤ queue_size → length (delivered s).queue ≤ queue_size
  delivered-bounded s h = elim (Bool-cases (matches repr s.filters event)) [
    | inr f ↦ rw f h
    | inl t ↦ rw t (
        omega (
          arith,
          length-append (last 99 s.queue) (event ∷ []),
          length-drop (length s.queue - 99) s.queue,
        ))
  ]

  pub deliver_all-AreBounded :
      (subs : List Subscriber) → AreBounded subs → AreBounded (deliver_all repr event subs)
  unfolding deliver_all
  deliver_all-AreBounded [] h = tt
  deliver_all-AreBounded (s ∷ subs) h =
      (rw (deliver-delivered s h.0) (delivered-bounded s h.0), deliver_all-AreBounded subs h.1)

  subs-store_recent : (now : ℕ) (bus : EventBus) → (store_recent repr now event bus).subs ≡ bus.subs
  unfolding store_recent
  subs-store_recent now bus = ground arith

  -- Where the queues are within their size, `publish` puts the event last in the queue of every
  -- subscriber whose filters it matches, behind the newest 99 events that waited there at most,
  -- and leaves every other queue alone; the queues stay within their size.
  pub publish_delivers {ℓ} :
      {S : Type ℓ} (observers : List (Fields → S → S)) (now : ℕ) (bus : EventBus) (state : S)
      → AreBounded bus.subs
      → ((publish repr observers now event (bus, state)).0.subs ≡ map delivered bus.subs)
        × AreBounded (publish repr observers now event (bus, state)).0.subs
  unfolding publish
  publish_delivers observers now bus state h = (
    rw (subs-store_recent now bus) (deliver_all-delivered bus.subs h),
    rw (subs-store_recent now bus) (deliver_all-AreBounded bus.subs h),
  )
