-- ===== src/Registry/Tail.antt =====
-- What `compact_final_payload` leaves of a payload.
use engineering_flow_platfor.Base.{
  String, ◌≡◌, ap, ◌∙◌, refl, Bool-cases, inl, inr, false, some, ltb, if◌then◌else◌, string_eq,
  ◌==◌,
}
use engineering_flow_platfor.Base.Value.{Value, list, Fields, get, size, last_items, get-put}
use text.Mathlib.TextPositions.{eq_refl}
use engineering_flow_platfor.Registry.{compact_final_payload, retained_event_tail_items}
use engineering_flow_platfor.Registry.Compact.{compact_key, write_tail}

-- the retained value of an event list: its last 100 items, or all of them
abbrev pub tail_of : Value → Value
tail_of (list xs) =
    if ltb retained_event_tail_items (size xs)
    then list (last_items retained_event_tail_items xs)
    else list xs
tail_of v = v

module _ (key count truncated : String) (payload : Fields) where
  get-write_tail_self :
      (v : Value)
      → (count == key) ≡ false
      → (truncated == key) ≡ false
      → get key payload ≡ v
      → get key (write_tail key count truncated payload v) ≡ tail_of v
  get-write_tail_self (list xs) hc ht e =
      elim (Bool-cases (ltb retained_event_tail_items (size xs))) [
        | inl t ↦ rw t (simp (get-put, hc, ht, eq_refl))
        | inr f ↦ rw f e
      ]
  get-write_tail_self v hc ht e = e

  get-write_tail_ne :
      (v : Value) (j : String)
      → (key == j) ≡ false
      → (count == j) ≡ false
      → (truncated == j) ≡ false
      → get j (write_tail key count truncated payload v) ≡ get j payload
  get-write_tail_ne (list xs) j hk hc ht =
      elim (Bool-cases (ltb retained_event_tail_items (size xs))) [
        | inl t ↦ rw t (simp (get-put, hk, hc, ht))
        | inr f ↦ rw f
      ]
  get-write_tail_ne v j hk hc ht = refl

module _ (key : String) (payload : Fields) where
  kept :
      (k count truncated : String)
      → (k == key) ≡ false
      → (count == key) ≡ false
      → (truncated == key) ≡ false
      → get key (compact_key k count truncated payload) ≡ get key payload
  unfolding compact_key
  kept k count truncated = get-write_tail_ne k count truncated payload (get k payload) key

  cut :
      (count truncated : String)
      → (count == key) ≡ false
      → (truncated == key) ≡ false
      → get key (compact_key key count truncated payload) ≡ tail_of (get key payload)
  unfolding compact_key
  cut count truncated hc ht =
      get-write_tail_self key count truncated payload (get key payload) hc ht refl

-- Each of the three event lists of a compacted payload is the list that was there, cut to its last
-- 100 items.
pub compact_tails :
    (payload : Fields)
    → (get "events" (compact_final_payload (some payload)) ≡ tail_of (get "events" payload))
      × (get "runtime_events" (compact_final_payload (some payload))
          ≡ tail_of (get "runtime_events" payload))
      × (get "thinking_events" (compact_final_payload (some payload))
          ≡ tail_of (get "thinking_events" payload))
unfolding compact_final_payload
compact_tails payload =
    let events = compact_key "events" "events_count" "events_truncated" payload in
    let runtime =
      compact_key "runtime_events" "runtime_events_count" "runtime_events_truncated" events in
    (
      kept "events" runtime "thinking_events" _ _ refl refl refl
          ∙ kept "events" events "runtime_events" _ _ refl refl refl
          ∙ cut "events" payload _ _ refl refl,
      kept "runtime_events" runtime "thinking_events" _ _ refl refl refl
          ∙ cut "runtime_events" events _ _ refl refl
          ∙ ap tail_of (kept "runtime_events" payload "events" _ _ refl refl refl),
      cut "thinking_events" runtime _ _ refl refl
          ∙ ap tail_of (
              kept "thinking_events" events "runtime_events" _ _ refl refl refl
              ∙ kept "thinking_events" payload "events" _ _ refl refl refl),
    )
