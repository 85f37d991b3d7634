-- ===== src/Approvals/Tests.antt =====
-- Answers to permissions at concrete requests, and the theorems applied to them.
use engineering_flow_platfor.Approvals.Reply.{
  normalized_decision, opencode_response_for, wants_standing_approval, affirms,
}
use engineering_flow_platfor.Base.{
  String, ◌≡◌, refl, ◌⊎◌, true, false, none, some, [], ◌∷◌, nat_eq, string_eq, pair_eq, All,
  Pairwise, is_empty, strip, lookup, insert, erase,
}
use engineering_flow_platfor.Base.Value.{Value, str, dict, Fields, end, field}
use engineering_flow_platfor.Base.Interpreter.{Texts}
use engineering_flow_platfor.Pending
use engineering_flow_platfor.Pending.{
  PendingPermission, PendingInput, new_store, set_claimed, observe_event,
}
use engineering_flow_platfor.SessionStore.{SessionStore}
use engineering_flow_platfor.Approvals
use engineering_flow_platfor.Approvals.{
  Flight, Prepared, refused, asks, answered_id, settle, prepare, ClientReply, delivered,
  client_error, other_error,
}
use engineering_flow_platfor.Approvals.ById.{
  valid, validate_permission_response_body, is_one_of, permission_response_from_body,
  decided_response,
}
use engineering_flow_platfor.Approvals.Kept.{IsCalled, refused_keeps, failed_call_restores}
use engineering_flow_platfor.Approvals.Told.{Approves, Denies, asks_as_told}
use engineering_flow_platfor.Approvals.Flights.{
  Desk, Step, Reachable, Apart, IsHeld, one_call_at_a_time,
}

abbrev as_typed : Texts
as_typed = record { repr = λ v. "..."; lower = λ s. s }

abbrev no_sessions : SessionStore
no_sessions = record { disk = record { index = none; backups = [] }; sessions = [] }

abbrev request : Fields
request = field "permission_id" (str "p1") end

abbrev requested : Value
requested = dict (
    field "type" (str "permission.requested") (
      field "session_id" (str "s1") (
        field "opencode_session_id" (str "o1")
          (field "data" (dict (field "permission_request" (dict request) end)) end))))

abbrev entry : PendingPermission
entry = record {
  request = request;
  permission_id = "p1";
  opencode_session_id = "o1";
  request_id = "";
  claimed = false;
  extra = end;
}

abbrev waiting : PendingInput
waiting = record { max_sessions = 2; pending = ("s1", entry) ∷ [] }

abbrev saying : String → Fields
saying word = field "decision" (str word) (field "always" (str "false") end)

abbrev approval : Flight
approval = record {
  session_id = "s1";
  pending = entry;
  opencode_session_id = "o1";
  decision = "approve";
  response = "once";
}

asked :
    (prepare as_typed no_sessions " s1" (some (dict (saying "allow"))) waiting).1 ≡ asks approval
unfolding prepare lookup insert strip Approvals.match_pending answered_id Approvals.decide
    Approvals.decision_of normalized_decision Approvals.claim_and_ask Pending.claim
    opencode_response_for wants_standing_approval affirms
asked = refl

-- The text "false" asks for a standing approval where the permission is named by its id.
remembered :
    validate_permission_response_body as_typed
      (field "decision" (str "allow") (field "remember" (str "false") end))
    ≡ valid ("allow", "always")
unfolding validate_permission_response_body is_one_of permission_response_from_body decided_response
remembered = refl

refused_keeps_example :
    (prepare as_typed no_sessions "s1" (some (dict (saying "maybe"))) waiting).0 ≡ waiting
unfolding prepare lookup strip Approvals.match_pending answered_id Approvals.decide
    Approvals.decision_of normalized_decision
refused_keeps_example =
    refused_keeps as_typed no_sessions waiting "s1" (some (dict (saying "maybe"))) 400
      "decision must be approve or deny" refl

failed_call_restores_example :
    ((settle as_typed approval other_error
        (prepare as_typed no_sessions " s1" (some (dict (saying "allow"))) waiting).0).0
      ≡ waiting)
    × ((prepare as_typed no_sessions " s1"
          (some (dict (saying "allow")))
          (settle as_typed approval other_error
            (prepare as_typed no_sessions " s1" (some (dict (saying "allow"))) waiting).0).0).1
        ≡ asks approval)
failed_call_restores_example =
    failed_call_restores as_typed no_sessions waiting " s1" (some (dict (saying "allow"))) approval
      other_error asked (λ h. cc) (λ h. cc)

asks_as_told_example :
    (approval.session_id ≡ strip " s1")
    × (lookup (strip " s1") waiting.pending ≡ some approval.pending)
    × ((is_empty (answered_id as_typed (saying "allow")) ≡ true)
        ⊎ (answered_id as_typed (saying "allow") ≡ approval.pending.permission_id))
    × IsCalled no_sessions (strip " s1") approval.pending approval.opencode_session_id
    × (Approves as_typed (saying "allow") approval.response
        ⊎ Denies as_typed (saying "allow") approval.response)
asks_as_told_example =
    asks_as_told as_typed (saying "allow") no_sessions waiting " s1" approval asked

abbrev one_call : Desk
one_call = record { store = set_claimed true "s1" entry waiting; flights = approval ∷ [] }

one_call-Reachable : Reachable as_typed one_call
unfolding observe_event prepare lookup insert strip Approvals.match_pending erase answered_id
    Approvals.decide Approvals.decision_of normalized_decision Approvals.claim_and_ask Pending.claim
    opencode_response_for wants_standing_approval affirms
one_call-Reachable =
    Reachable.then_step (Reachable.then_step (Reachable.opened 2) (Step.observes requested tt))
      (Step.arrives no_sessions " s1" (some (dict (saying "allow"))))

one_call_at_a_time_example :
    Pairwise Apart (approval ∷ [])
    × All (IsHeld (set_claimed true "s1" entry waiting)) (approval ∷ [])
one_call_at_a_time_example = one_call_at_a_time as_typed one_call-Reachable
