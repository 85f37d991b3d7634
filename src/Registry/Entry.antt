-- ===== src/Registry/Entry.antt =====
-- `start` and `complete` of chat_run_registry.py as their callers see them.
use text.Mathlib.TextPositions.{eq_refl}
use engineering_flow_platfor.Base.{
  ℕ, ◌≤◌, String, ◌≡◌, refl, true, false, not, ◌&&◌, ◌||◌, none, some, length, lookup, arith,
  eq_iff, string_eq, ◌==◌, if◌then◌else◌, lookup-insert, Option-cases, inl, inr, strip, is_empty,
}
use engineering_flow_platfor.Base.Value.{Value, str, Fields, get}
use engineering_flow_platfor.Registry
use engineering_flow_platfor.Registry.{
  ChatRunRecord, RunState, running, completed, failed, Registry, is_terminal, new_record, find,
  enter, fail_stale_running_records, prune_terminal_records, completion_state, is_false,
}
use engineering_flow_platfor.Registry.Found.{IsKeyed}
use engineering_flow_platfor.Registry.Prune.{prune-active, prune_bounds}
use engineering_flow_platfor.Registry.Stale.{
  enter-IsKeyed, stale-IsKeyed, stale_fresh, max_records-stale,
}

module _ (now : ℕ) (session_id request_id : String) (g : Registry) (keyed : IsKeyed g.records) where
  new_is_kept :
      lookup request_id
        (prune_terminal_records
          (fail_stale_running_records now (enter now session_id request_id g))).records
      ≡ some (new_record now session_id request_id)
  unfolding enter
  new_is_kept =
      let entered = enter now session_id request_id g in
      prune-active (fail_stale_running_records now entered) request_id
        (new_record now session_id request_id)
        (stale-IsKeyed now entered (enter-IsKeyed now session_id request_id g keyed))
        (stale_fresh now entered request_id (new_record now session_id request_id)
          (ground (
            arith,
            lookup-insert request_id request_id (new_record now session_id request_id) g.records,
            eq_iff request_id request_id,
          ))
          (omega arith))
        refl

  found_when_stored :
      (h : Registry)
      → is_empty request_id ≡ false
      → strip request_id ≡ request_id
      → lookup request_id h.records ≡ some (new_record now session_id request_id)
      → find h request_id session_id ≡ some (new_record now session_id request_id)
  unfolding find
  found_when_stored h full stripped stored =
      rw (stripped, full, stored) (simp eq_refl (ground arith))

  start_found :
      (r : ChatRunRecord)
      → find g request_id session_id ≡ some r
      → Registry.start now session_id request_id g ≡ (g, r)
  unfolding Registry.start
  start_found r hit = rw (hit, Registry.start) refl

  start_missing :
      find g request_id session_id ≡ none
      → Registry.start now session_id request_id g ≡ (
        prune_terminal_records (fail_stale_running_records now (enter now session_id request_id g)),
        new_record now session_id request_id,
      )
  unfolding Registry.start
  start_missing miss = rw (miss, Registry.start) refl

  -- In a registry that keeps each run once, under its own id: the run that `start` gives back
  -- is the one that is found under its id and session right after, if the id is not empty and
  -- has no space around it.
  pub start-find :
      is_empty request_id ≡ false
      → strip request_id ≡ request_id
      → find (Registry.start now session_id request_id g).0 request_id session_id
        ≡ some (Registry.start now session_id request_id g).1
  start-find full stripped = elim (Option-cases (find g request_id session_id)) [
    | inr (r, hit) ↦ rw (start_found r hit) hit
    | inl miss ↦ rw (start_missing miss) (found_when_stored _ full stripped new_is_kept)
  ]

  -- In a registry that keeps each run once, under its own id: when `start` enters a new run, a
  -- finished run is left only in a registry within its limit.
  pub start_bounds :
      find g request_id session_id ≡ none
      → (k : String) (v : ChatRunRecord)
      → lookup k (Registry.start now session_id request_id g).0.records ≡ some v
      → is_terminal v.state ≡ true
      → length (Registry.start now session_id request_id g).0.records ≤ g.max_records
  unfolding enter
  start_bounds miss k v e t =
      let entered = enter now session_id request_id g in
      let keyed' = stale-IsKeyed now entered (enter-IsKeyed now session_id request_id g keyed) in
      let bound = (prune_bounds (fail_stale_running_records now entered) keyed').0 k v in
      rw (start_missing miss)
        (omega (arith, max_records-stale now entered, bound (rw (start_missing miss) at e) t))

module _ (repr : Value → String) where
  -- For a payload whose `completion_state` is a text, `complete` writes the state "completed"
  -- exactly when the text is "completed" or "success", or is empty while `ok` is not False; it
  -- writes "failed" otherwise.
  pub completion_state_of_text :
      (final : Fields) (s : String)
      → get "completion_state" final ≡ str s
      → completion_state repr final
        ≡ some (
            if s == "completed" || s == "success" || (s == "" && not (is_false (get "ok" final)))
            then completed
            else failed)
  unfolding completion_state
  completion_state_of_text final String.[] e = rw (e, completion_state) (ground arith)
  completion_state_of_text final (String.◌∷◌ c s) e = rw (e, completion_state) (ground arith)
