-- ===== src/Pending/Claims.antt =====
-- Claims of pending_input.py: a permission is claimed by one caller at a time.
use mathlib.Core.Path.{ap₂}
use engineering_flow_platfor.Base.{
  String, ◌≡◌, refl, ◌≢◌, inl, inr, true, false, not, ◌||◌, Option, none, some, arith, eq_iff,
  nat_eq, string_eq, pair_eq, Bool-cases, is_empty, lookup, insert, lookup-insert, lookup-erase,
}
use engineering_flow_platfor.Base.Value.{Value, dict, Fields, get}
use engineering_flow_platfor.Pending
use engineering_flow_platfor.Pending.{
  PendingPermission, PendingInput, observe_event, remember, clear_at, claim_at, release_at,
  set_claimed, pending_of, requested_id, observe_request, event_session_id, intersects, types_of,
  clear_event_types, record_event_types, nested, resolved_id, is_replayed, move_to_end, evict,
}
use engineering_flow_platfor.Pending.Order.{move-IsDict, lookup-move, lookup-evict-some}
use engineering_flow_platfor.Pending.Valid.{IsValid, Call, observe, step}

-- A successful claim finds the permission unclaimed, marks it, and is refused the second time.
pub claim_once :
    (s : PendingInput) (k p : String)
    → (Pending.claim k p s).1 ≡ true
    → (e : PendingPermission) × (lookup k s.pending ≡ some e)
      × (e.permission_id ≡ p)
      × (e.claimed ≡ false)
      × (lookup k (Pending.claim k p s).0.pending ≡ some (record e { claimed = true }))
      × ((Pending.claim k p (Pending.claim k p s).0).1 ≡ false)
unfolding Pending.claim set_claimed
claim_once s k p ok = at (lookup k s.pending) refl ok
  where
    at :
        (o : Option PendingPermission)
        → lookup k s.pending ≡ o
        → (claim_at k p o s).1 ≡ true
        → (e : PendingPermission) × (o ≡ some e)
          × (e.permission_id ≡ p)
          × (e.claimed ≡ false)
          × (lookup k (claim_at k p o s).0.pending ≡ some (record e { claimed = true }))
          × ((claim_at k p (lookup k (claim_at k p o s).0.pending) (claim_at k p o s).0).1 ≡ false)
    at none h ok = absurd (ground arith)
    at (some e) h ok = (
      e,
      refl,
      ground (arith, eq_iff e.permission_id p),
      ground arith,
      ground (
        arith,
        lookup-insert k k (record e { claimed = true }) s.pending,
        eq_iff k k,
        eq_iff e.permission_id p,
      ),
      ground (
        arith,
        lookup-insert k k (record e { claimed = true }) s.pending,
        eq_iff k k,
        eq_iff e.permission_id p,
      ),
    )

-- Read after a call: the entry of a session goes on being claimed while it is for `e`'s permission.
abbrev pub StillClaimed : String → PendingPermission → PendingInput → Type 0
StillClaimed k e s =
    (e' : PendingPermission)
    → lookup k s.pending ≡ some e'
    → e'.permission_id ≡ e.permission_id
    → e'.claimed ≡ true

module _ (s : PendingInput) (v : IsValid s) (k : String) (e : PendingPermission)
    (found : lookup k s.pending ≡ some e) (held : e.claimed ≡ true) where
  unchanged : StillClaimed k e s
  unchanged e' h same = ground arith

  claim_keeps : (j p : String) → StillClaimed k e (Pending.claim j p s).0
  unfolding Pending.claim set_claimed
  claim_keeps j p = at (lookup j s.pending) refl
    where
      at :
          (o : Option PendingPermission)
          → lookup j s.pending ≡ o
          → StillClaimed k e (claim_at j p o s).0
      at none h e' h' same = unchanged e' h' same
      at (some x) h e' h' same =
          ground (arith, lookup-insert j k (record x { claimed = true }) s.pending, eq_iff j k)

  release_keeps :
      (j p : String)
      → ¬ ((j ≡ k) × (p ≡ e.permission_id))
      → StillClaimed k e (Pending.release j p s)
  unfolding Pending.release set_claimed
  release_keeps j p other = at (lookup j s.pending) refl
    where
      at :
          (o : Option PendingPermission)
          → lookup j s.pending ≡ o
          → StillClaimed k e (release_at j p o s)
      at none h e' h' same = unchanged e' h' same
      at (some x) h e' h' same = ground (
        arith,
        lookup-insert j k (record x { claimed = false }) s.pending,
        eq_iff j k,
        eq_iff x.permission_id p,
        λ (a : j ≡ k) (b : p ≡ e.permission_id). other (a, b),
      )

  clear_keeps : (j p : String) → StillClaimed k e (Pending.clear j p s)
  unfolding Pending.clear
  clear_keeps j p = at (lookup j s.pending)
    where
      at : (o : Option PendingPermission) → StillClaimed k e (clear_at j p o s)
      at none e' h' same = unchanged e' h' same
      at (some x) e' h' same = ground (arith, lookup-erase j k s.pending v.keys_once)

  remember_keeps :
      (j : String) (x : PendingPermission)
      → ((x.permission_id ≡ e.permission_id) → j ≡ k → x.claimed ≡ true)
      → StillClaimed k e (remember j x s)
  unfolding remember
  remember_keeps j x claimed e' h' same = ground (
    arith,
    lookup-evict-some s.max_sessions k (move_to_end j (insert j x s.pending)) e'
        (move-IsDict j x s.pending v.keys_once) h',
    lookup-move j x k s.pending v.keys_once,
    eq_iff j k,
  )

  module _ (repr : Value → String) where
    observe_request_keeps :
        (event : Fields) (j : String) (request : Value)
        → StillClaimed k e (observe_request repr event j request s)
    unfolding observe_request pending_of
    observe_request_keeps event j (dict request) =
        elim (Bool-cases (is_empty (requested_id repr request))) [
          | inl t ↦ rw t unchanged
          | inr f ↦ rw f (
              remember_keeps j (pending_of repr event request (lookup j s.pending)) (λ same here.
                rw (here, found)
                  (ground (arith, eq_iff e.permission_id (requested_id repr request)))))
        ]
    observe_request_keeps event j _ = unchanged

    observe_keeps : (event : Value) → StillClaimed k e (observe_event repr event s)
    unfolding observe_event
    observe_keeps (dict event) =
        elim (Bool-cases (is_replayed repr event || is_empty (event_session_id repr event))) [
          | inl t ↦ rw t unchanged
          | inr f ↦ rw f (elim (Bool-cases (intersects (types_of repr event) clear_event_types)) [
            | inl c ↦ rw c (clear_keeps (event_session_id repr event) (resolved_id repr event))
            | inr d ↦
                rw d
                  (elim (Bool-cases (not (intersects (types_of repr event) record_event_types))) [
                    | inl n ↦ rw n unchanged
                    | inr r ↦ rw r (
                        observe_request_keeps event (event_session_id repr event)
                          (nested (get "data" event) "permission_request"))
                  ])
          ])
        ]
    observe_keeps _ = unchanged

    -- In a store in shape, only `release` gives a claim back: after any other call, and after
    -- a `release` of another permission, a claimed entry that is still pending for the same
    -- permission is still claimed. In particular an event that announces the permission again
    -- does not free it.
    pub step_keeps_claim :
        (c : Call) → c ≢ Call.release k e.permission_id → StillClaimed k e (step repr c s)
    unfolding step
    step_keeps_claim (observe event) other = observe_keeps event
    step_keeps_claim (Call.claim j p) other = claim_keeps j p
    step_keeps_claim (Call.release j p) other =
        release_keeps j p (λ h. other (ap₂ Call.release h.0 h.1))
    step_keeps_claim (Call.clear j p) other = clear_keeps j p
