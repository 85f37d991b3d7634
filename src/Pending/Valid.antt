-- ===== src/Pending/Valid.antt =====
-- The invariant of the store in pending_input.py, kept by each of its operations.
use engineering_flow_platfor.Base.{
  ℕ, ◌≤◌, String, ◌≡◌, refl, inl, inr, Bool, true, false, not, ◌&&◌, ◌||◌, Option, none, some,
  arith, ◌==◌, nat_eq, string_eq, pair_eq, Bool-cases, length, is_empty, lookup, insert, erase,
  IsDict, lookup-insert, lookup-erase, insert-IsDict, erase-IsDict, length-erase-le,
  length-insert_known,
}
use engineering_flow_platfor.Base.Value.{Value, dict, Fields, get}
use engineering_flow_platfor.Pending
use engineering_flow_platfor.Pending.{
  PendingPermission, PendingInput, new_store, observe_event, remember, clear_at, claim_at,
  release_at, set_claimed, pending_of, requested_id, observe_request, event_session_id, intersects,
  types_of, clear_event_types, record_event_types, nested, resolved_id, is_replayed, move_to_end,
  evict,
}
use engineering_flow_platfor.Pending.Order.{
  move-IsDict, lookup-move, length-evict, evict-IsDict, lookup-evict-some,
}

pub record IsValid (s : PendingInput) : Type 0 where
  pub room : 1 ≤ s.max_sessions
  pub keys_once : IsDict s.pending
  pub fits : length s.pending ≤ s.max_sessions
  pub named :
      (k : String) (e : PendingPermission)
      → lookup k s.pending ≡ some e
      → is_empty e.permission_id ≡ false

pub data Call : Type 0 where
  observe : Value → Call
  claim release clear : String → String → Call

unfoldable pub step : (Value → String) → Call → PendingInput → PendingInput
step repr (observe event) s = observe_event repr event s
step repr (Call.claim session_id permission_id) s = (Pending.claim session_id permission_id s).0
step repr (Call.release session_id permission_id) s = Pending.release session_id permission_id s
step repr (Call.clear session_id permission_id) s = Pending.clear session_id permission_id s

pub new_store-IsValid : (n : ℕ) → IsValid (new_store n)
unfolding lookup
new_store-IsValid n = record {
  room = omega arith;
  keys_once = tt;
  fits = omega arith;
  named = λ k e h. absurd (ground arith);
}

-- a write under a key that is there
rewrite-IsValid :
    (s : PendingInput) (k : String) (e e' : PendingPermission)
    → IsValid s
    → lookup k s.pending ≡ some e
    → is_empty e'.permission_id ≡ false
    → IsValid (record s { pending = insert k e' s.pending })
rewrite-IsValid s k e e' v found named = record {
  room = v.room;
  keys_once = insert-IsDict k e' s.pending v.keys_once;
  fits = omega (arith, v.fits, length-insert_known k e e' s.pending found);
  named = λ j x h. ground (arith, lookup-insert k j e' s.pending, v.named j x, h);
}

pub set_claimed-IsValid :
    (b : Bool) (s : PendingInput) (k : String) (e : PendingPermission)
    → IsValid s
    → lookup k s.pending ≡ some e
    → IsValid (set_claimed b k e s)
unfolding set_claimed
set_claimed-IsValid b s k e v found =
    rewrite-IsValid s k e (record e { claimed = b }) v found (v.named k e found)

erase-IsValid :
    (s : PendingInput) (k : String) → IsValid s → IsValid (record s { pending = erase k s.pending })
erase-IsValid s k v = record {
  room = v.room;
  keys_once = erase-IsDict k s.pending v.keys_once;
  fits = omega (arith, v.fits, length-erase-le k s.pending);
  named = λ j x h. ground (arith, lookup-erase k j s.pending v.keys_once, v.named j x, h);
}

clear-IsValid : (s : PendingInput) (k p : String) → IsValid s → IsValid (Pending.clear k p s)
unfolding Pending.clear
clear-IsValid s k p v = at (lookup k s.pending)
  where
    at : (o : Option PendingPermission) → IsValid (clear_at k p o s)
    at none = v
    at (some e) = elim (Bool-cases (not (is_empty p) && not (e.permission_id == p))) [
      | inl t ↦ rw t v
      | inr f ↦ rw f (erase-IsValid s k v)
    ]

claim-IsValid : (s : PendingInput) (k p : String) → IsValid s → IsValid (Pending.claim k p s).0
unfolding Pending.claim
claim-IsValid s k p v = at (lookup k s.pending) refl
  where
    at : (o : Option PendingPermission) → lookup k s.pending ≡ o → IsValid (claim_at k p o s).0
    at none h = v
    at (some e) h = elim (Bool-cases (not (e.permission_id == p) || e.claimed)) [
      | inl t ↦ rw t v
      | inr f ↦ rw f (set_claimed-IsValid true s k e v h)
    ]

release-IsValid : (s : PendingInput) (k p : String) → IsValid s → IsValid (Pending.release k p s)
unfolding Pending.release
release-IsValid s k p v = at (lookup k s.pending) refl
  where
    at : (o : Option PendingPermission) → lookup k s.pending ≡ o → IsValid (release_at k p o s)
    at none h = v
    at (some e) h = elim (Bool-cases (e.permission_id == p)) [
      | inl t ↦ rw t (set_claimed-IsValid false s k e v h)
      | inr f ↦ rw f v
    ]

remember-IsValid :
    (s : PendingInput) (k : String) (e : PendingPermission)
    → is_empty e.permission_id ≡ false
    → IsValid s
    → IsValid (remember k e s)
unfolding remember
remember-IsValid s k e named v = record {
  room = v.room;
  keys_once = evict-IsDict s.max_sessions _ (move-IsDict k e s.pending v.keys_once);
  fits = length-evict s.max_sessions _;
  named = λ j x h. ground (
    arith,
    lookup-move k e j s.pending v.keys_once,
    lookup-evict-some s.max_sessions j (move_to_end k (insert k e s.pending)) x
        (move-IsDict k e s.pending v.keys_once) h,
    v.named j x,
    named,
  );
}

module _ (repr : Value → String) where
  observe_request-IsValid :
      (event : Fields) (k : String) (request : Value) (s : PendingInput)
      → IsValid s
      → IsValid (observe_request repr event k request s)
  unfolding observe_request
  observe_request-IsValid event k (dict request) s v =
      elim (Bool-cases (is_empty (requested_id repr request))) [
        | inl t ↦ rw t v
        | inr f ↦
            rw f (remember-IsValid s k (pending_of repr event request (lookup k s.pending)) f v)
      ]
  observe_request-IsValid event k _ s v = v

  observe-IsValid :
      (event : Value) (s : PendingInput) → IsValid s → IsValid (observe_event repr event s)
  unfolding observe_event
  observe-IsValid (dict event) s v =
      elim (Bool-cases (is_replayed repr event || is_empty (event_session_id repr event))) [
        | inl t ↦ rw t v
        | inr f ↦ rw f (elim (Bool-cases (intersects (types_of repr event) clear_event_types)) [
          | inl c ↦ rw c (clear-IsValid s (event_session_id repr event) (resolved_id repr event) v)
          | inr d ↦
              rw d (elim (Bool-cases (not (intersects (types_of repr event) record_event_types))) [
                | inl n ↦ rw n v
                | inr r ↦ rw r (
                    observe_request-IsValid event (event_session_id repr event)
                      (nested (get "data" event) "permission_request") s v)
              ])
        ])
      ]
  observe-IsValid _ s v = v

  -- Whatever is observed, claimed, released or cleared, in any order: a session is pending at most
  -- once, no more sessions are pending than the limit, and each pending permission has an id.
  pub step-IsValid : (c : Call) (s : PendingInput) → IsValid s → IsValid (step repr c s)
  unfolding step
  step-IsValid (observe event) s v = observe-IsValid event s v
  step-IsValid (Call.claim k p) s v = claim-IsValid s k p v
  step-IsValid (Call.release k p) s v = release-IsValid s k p v
  step-IsValid (Call.clear k p) s v = clear-IsValid s k p v
