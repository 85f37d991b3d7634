-- ===== src/Pending/Tests.antt =====
-- The store of pending permissions at concrete events, and its theorems applied to them.
use engineering_flow_platfor.Base.{
  ap, is_empty, String, ◌≡◌, refl, Bool, true, false, some, [], ◌∷◌, arith, eq_iff, nat_eq,
  string_eq, pair_eq, lookup, insert, erase,
}
use engineering_flow_platfor.Base.Value.{Value, str, dict, Fields, end, field}
use engineering_flow_platfor.Pending
use engineering_flow_platfor.Pending.{
  PendingPermission, PendingInput, observe_event, pending_of, is_replayed, event_session_id,
  types_of, resolved_id, requested_id,
}
use engineering_flow_platfor.Pending.Valid.{IsValid, observe, step, step-IsValid}
use engineering_flow_platfor.Pending.Claims.{claim_once, StillClaimed, step_keeps_claim}

abbrev repr : Value → String
repr v = "..."

abbrev request : Fields
request = field "permission_id" (str "p1") end

abbrev requested : Fields
requested = field "type" (str "permission.requested") (
    field "session_id" (str "s1")
      (field "data" (dict (field "permission_request" (dict request) end)) end))

abbrev resolved : Fields
resolved =
    field "type" (str "permission.resolved")
      (field "session_id" (str "s1") (field "permission_id" (str "p2") end))

abbrev entry : Bool → PendingPermission
entry b = record {
  request = request;
  permission_id = "p1";
  opencode_session_id = "";
  request_id = "";
  claimed = b;
  extra = end;
}

abbrev waiting : Bool → PendingInput
waiting b = record { max_sessions = 2; pending = ("s1", entry b) ∷ [] }

-- A request that arrives twice keeps its claim.
observed_twice : observe_event repr (dict requested) (waiting true) ≡ waiting true
unfolding observe_event lookup insert erase
observed_twice = refl

lookup_one : (k : String) (e x : PendingPermission) → lookup k (("s1", x) ∷ []) ≡ some e → e ≡ x
unfolding lookup
lookup_one k e x h = ground (arith, eq_iff "s1" k)

waiting-IsValid : (b : Bool) → IsValid (waiting b)
unfolding lookup
waiting-IsValid b = record {
  room = omega arith;
  keys_once = (refl, tt);
  fits = omega arith;
  named = λ k e h. ap (λ x. is_empty x.permission_id) (lookup_one k e (entry b) h);
}

step-IsValid_example : IsValid (step repr (observe (dict requested)) (waiting true))
step-IsValid_example =
    step-IsValid repr (observe (dict requested)) (waiting true) (waiting-IsValid true)

claim_once_example :
    (e : PendingPermission) × (lookup "s1" (waiting false).pending ≡ some e)
    × (e.permission_id ≡ "p1")
    × (e.claimed ≡ false)
    × (lookup "s1" (Pending.claim "s1" "p1" (waiting false)).0.pending
        ≡ some (record e { claimed = true }))
    × ((Pending.claim "s1" "p1" (Pending.claim "s1" "p1" (waiting false)).0).1 ≡ false)
unfolding Pending.claim lookup
claim_once_example = claim_once (waiting false) "s1" "p1" refl

step_keeps_claim_example :
    StillClaimed "s1" (entry true) (step repr (observe (dict requested)) (waiting true))
unfolding lookup
step_keeps_claim_example =
    step_keeps_claim (waiting true) (waiting-IsValid true) "s1" (entry true) refl refl repr
      (observe (dict requested)) (λ h. cc)
