-- ===== src/Approvals.antt =====
-- efp_opencode_adapter/permissions_api.py: the answer to a pending permission. A handler is split
-- where it awaits OpenCode, since other handlers run meanwhile: `prepare` is what it does up to the
-- call, `settle` what it does with the reply. The text of an error is kept, its JSON is not.
pub mod Reply
pub mod ById
pub mod Kept
pub mod Told
pub mod Flights
mod Tests
use engineering_flow_platfor.Base.{
  ℕ, String, true, not, ◌&&◌, Option, none, some, if◌then◌else◌, ◌==◌, nat_eq, string_eq, pair_eq,
  is_empty, strip, lookup,
}
use engineering_flow_platfor.Base.Value.{
  Value, bool, str, dict, Fields, end, field, or_else, get, to_text,
}
use engineering_flow_platfor.Base.Interpreter.{Texts}
use engineering_flow_platfor.Pending
use engineering_flow_platfor.Pending.{PendingPermission, PendingInput}
use engineering_flow_platfor.SessionStore.{SessionStore, get_session}
use engineering_flow_platfor.Approvals.Reply.{
  normalized_decision, wants_standing_approval, opencode_response_for,
}

-- What a handler holds while it waits for OpenCode.
pub record Flight : Type 0 where
  pub session_id : String
  pub pending : PendingPermission
  pub opencode_session_id : String
  pub decision : String
  pub response : String

-- a response with an error, or a call of OpenCode
pub data Prepared : Type 0 where
  refused : ℕ → String → Prepared
  asks : Flight → Prepared

abbrev pub new_flight : String → PendingPermission → String → String → String → Flight
new_flight session_id e decision response opencode_session_id = record {
  session_id = session_id;
  pending = e;
  opencode_session_id = opencode_session_id;
  decision = decision;
  response = response;
}

unfoldable pub claim_and_ask :
    SessionStore
    → String
    → PendingPermission
    → String
    → String
    → PendingInput
    → PendingInput × Prepared
claim_and_ask sessions session_id e decision response s =
    let claimed = Pending.claim session_id e.permission_id s in
    if not claimed.1
    then (claimed.0, refused 409 "permission_already_answered")
    else if not (is_empty e.opencode_session_id)
    then (claimed.0, asks (new_flight session_id e decision response e.opencode_session_id))
    else elim (get_session session_id sessions) [
      | none ↦
          (Pending.release session_id e.permission_id claimed.0, refused 404 "session_not_found")
      | some r ↦ (claimed.0, asks (new_flight session_id e decision response r.opencode_session_id))
    ]

module _ (t : Texts) where
  unfoldable pub answered_id : Fields → String
  answered_id body = strip (
      to_text t.repr
        (or_else (or_else (get "request_id" body) (or_else (get "id" body) (str ""))) (str "")))

  abbrev pub given_decision : Fields → Value
  given_decision body =
      or_else (or_else (get "decision" body) (get "action" body)) (get "reply" body)

  unfoldable pub decision_of : Fields → Option String
  decision_of body = normalized_decision t (given_decision body)

  unfoldable pub decide :
      SessionStore → String → PendingPermission → Fields → PendingInput → PendingInput × Prepared
  decide sessions session_id e body s = elim (decision_of body) [
    | none ↦ (s, refused 400 "decision must be approve or deny")
    | some decision ↦
        claim_and_ask sessions session_id e decision
          (opencode_response_for decision (wants_standing_approval t body)) s
  ]

  unfoldable pub match_pending :
      SessionStore
      → String
      → Option PendingPermission
      → Fields
      → PendingInput
      → PendingInput × Prepared
  match_pending sessions session_id none body s =
      (s, refused 409 "Session is not waiting for permission")
  match_pending sessions session_id (some e) body s =
      if not (is_empty (answered_id body)) && not (answered_id body == e.permission_id)
      then (s, refused 409 "permission_request_id_mismatch")
      else decide sessions session_id e body s

  -- the body is none when it is no JSON
  unfoldable pub prepare :
      SessionStore → String → Option Value → PendingInput → PendingInput × Prepared
  prepare sessions path_id body s =
      if is_empty (strip path_id) then (s, refused 400 "session_id is required") else elim body [
        | some (dict fields) ↦
            match_pending sessions (strip path_id) (lookup (strip path_id) s.pending) fields s
        | _ ↦ (s, refused 400 "invalid_json")
      ]

-- What OpenCode's client returns or raises; `call_cancelled` is the CancelledError of a request that is
-- given up, which `except Exception` does not catch.
pub data ClientReply : Type 0 where
  delivered : ClientReply
  client_error : String → ClientReply
  other_error : ClientReply
  call_cancelled : ClientReply

-- The resolution that is announced on the bus and to the Portal, and returned.
pub record Resolution : Type 0 where
  pub session_id : String
  pub opencode_session_id : String
  pub permission_id : String
  pub request_id : String
  pub tool_name : String
  pub decision : String
  pub response : String

pub data Answer : Type 0 where
  accepted : Resolution → Answer
  bad_gateway : String → Answer
  raised : Answer

unfoldable pub settle : Texts → Flight → ClientReply → PendingInput → PendingInput × Answer
settle t f delivered s = (
  Pending.clear f.session_id f.pending.permission_id s,
  accepted (record {
    session_id = f.session_id;
    opencode_session_id = f.opencode_session_id;
    permission_id = f.pending.permission_id;
    request_id = f.pending.request_id;
    tool_name = to_text t.repr (or_else (get "tool" f.pending.request) (str ""));
    decision = f.decision;
    response = f.response;
  }),
)
settle t f (client_error detail) s =
    (Pending.release f.session_id f.pending.permission_id s, bad_gateway detail)
settle t f other_error s = (Pending.release f.session_id f.pending.permission_id s, raised)
settle t f call_cancelled s = (s, raised)

-- the body of the response with status 202
unfoldable pub response_body : Resolution → Fields
response_body r = field "ok" (bool true) (
    field "session_id" (str r.session_id) (
      field "request_id" (str r.permission_id) (
        field "decision" (str r.decision)
          (field "response" (str r.response) (field "state" (str "running") end)))))

-- a response with the snapshot, or an error
unfoldable pub pending_input_response : String → PendingInput → ℕ × Fields
pending_input_response path_id s =
    if is_empty (strip path_id)
    then (400, field "error" (str "session_id is required") end)
    else (200, Pending.snapshot (strip path_id) s)
