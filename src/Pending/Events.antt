-- ===== src/Pending/Events.antt =====
-- What one runtime event changes in pending_input.py.
use engineering_flow_platfor.Base.{
  String, ◌≡◌, refl, sym, ◌⊎◌, inl, inr, Bool, true, false, ◌&&◌, ◌||◌, Option, none, some, arith,
  eq_iff, if◌then◌else◌, ◌==◌, nat_eq, string_eq, pair_eq, Bool-cases, is_empty, lookup, insert,
  erase, lookup-erase, insert-IsDict,
}
use engineering_flow_platfor.Base.Value.{Value, dict, Fields, get}
use engineering_flow_platfor.Pending
use engineering_flow_platfor.Pending.{
  PendingPermission, PendingInput, observe_event, remember, clear_at, pending_of, requested_id,
  observe_request, event_session_id, intersects, types_of, clear_event_types, record_event_types,
  nested, resolved_id, is_replayed, move_to_end, evict,
}
use engineering_flow_platfor.Pending.Order.{
  move-IsDict, lookup-move, move-insert, lookup-evict-some, lookup-evict_newest, lookup-erase_self,
}
use engineering_flow_platfor.Pending.Valid.{IsValid}

-- whether a clearing event with this id takes the entry away
abbrev pub is_cleared : String → Option PendingPermission → Bool
is_cleared id none = false
is_cleared id (some e) = is_empty id || e.permission_id == id

module _ (s : PendingInput) (v : IsValid s) where
  lookup-clear :
      (k j id : String)
      → lookup j (Pending.clear k id s).pending
        ≡ (if k == j && is_cleared id (lookup k s.pending) then none else lookup j s.pending)
  unfolding Pending.clear
  lookup-clear k j id = at (lookup k s.pending) refl
    where
      at :
          (o : Option PendingPermission)
          → lookup k s.pending ≡ o
          → lookup j (clear_at k id o s).pending
            ≡ (if k == j && is_cleared id o then none else lookup j s.pending)
      at none h = ground arith
      at (some e) h = ground (arith, lookup-erase k j s.pending v.keys_once)

  lookup-remember_self :
      (k : String) (e : PendingPermission) → lookup k (remember k e s).pending ≡ some e
  unfolding remember
  lookup-remember_self k e = rw move-insert (
      lookup-evict_newest s.max_sessions k e (erase k (insert k e s.pending)) v.room
        (lookup-erase_self k e (insert k e s.pending) (insert-IsDict k e s.pending v.keys_once)))

  lookup-remember-some :
      (k j : String) (e x : PendingPermission)
      → lookup j (remember k e s).pending ≡ some x
      → (j ≡ k) ⊎ (lookup j s.pending ≡ some x)
  unfolding remember
  lookup-remember-some k j e x h =
      let h' =
        lookup-evict-some s.max_sessions j (move_to_end k (insert k e s.pending)) x
          (move-IsDict k e s.pending v.keys_once) h in
      elim (Bool-cases (k == j)) [
        | inl t ↦ inl (sym ((eq_iff k j).0 t))
        | inr f ↦ inr (ground (arith, lookup-move k e j s.pending v.keys_once, h'))
      ]

  module _ (repr : Value → String) (event : Fields) where
    abbrev session : String
    session = event_session_id repr event

    -- In a store in shape, a clearing event of a session, not replayed, takes away the entry
    -- of that session and no other, and takes it away exactly when the run ended or the event
    -- names no permission or the one that is pending.
    pub observe_clearing :
        (j : String)
        → is_replayed repr event ≡ false
        → is_empty session ≡ false
        → intersects (types_of repr event) clear_event_types ≡ true
        → lookup j (observe_event repr (dict event) s).pending ≡ (
            if session == j && is_cleared (resolved_id repr event) (lookup session s.pending)
            then none
            else lookup j s.pending)
    unfolding observe_event
    observe_clearing j live named clears =
        rw (live, named, clears) (lookup-clear session j (resolved_id repr event))

    -- In a store in shape, a permission request, not replayed and with an id, is what the
    -- session waits for afterwards, claimed only if the same permission was claimed before.
    -- Every other session waits for what it waited for, or was evicted.
    pub observe_requested :
        (request : Fields)
        → is_replayed repr event ≡ false
        → is_empty session ≡ false
        → intersects (types_of repr event) clear_event_types ≡ false
        → intersects (types_of repr event) record_event_types ≡ true
        → nested (get "data" event) "permission_request" ≡ dict request
        → is_empty (requested_id repr request) ≡ false
        → (lookup session (observe_event repr (dict event) s).pending
            ≡ some (pending_of repr event request (lookup session s.pending)))
          × ((j : String) (x : PendingPermission)
              → lookup j (observe_event repr (dict event) s).pending ≡ some x
              → (j ≡ session) ⊎ (lookup j s.pending ≡ some x))
    unfolding observe_event
    observe_requested request live named keeps records is_request id =
        rw (live, named, keeps, records, is_request, id)
          (
            lookup-remember_self session (pending_of repr event request (lookup session s.pending)),
            λ j x.
                lookup-remember-some session j
                  (pending_of repr event request (lookup session s.pending)) x,
          )
