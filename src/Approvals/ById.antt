-- ===== src/Approvals/ById.antt =====
-- permissions_api.py: the answer to a permission by its id, and opencode_client.py: the payload that
-- a body gives. A list or a dict is not hashable, so that asking whether a set holds it raises.
use engineering_flow_platfor.Base.{
  ℕ, String, Bool, false, not, Option, none, some, List, [], ◌∷◌, if◌then◌else◌, nat_eq, string_eq,
  pair_eq, contains, is_empty,
}
use engineering_flow_platfor.Base.Value.{
  Value, str, list, dict, Fields, truthy, or_else, get, to_text,
}
use engineering_flow_platfor.Base.Interpreter.{Texts}
use engineering_flow_platfor.SessionStore.{SessionStore, get_session}

abbrev pub allowed_decisions : List String
allowed_decisions = "allow" ∷ "deny" ∷ "approve" ∷ "reject" ∷ []

abbrev pub allowed_permission_responses : List String
allowed_permission_responses = "once" ∷ "always" ∷ "reject" ∷ []

-- what a handler gets, the status and the text of an HTTP error, or another exception
pub data Checked {ℓ} (A : Type ℓ) : Type ℓ where
  valid : A → Checked A
  http_error : ℕ → String → Checked A
  type_error : Checked A

abbrev pub then_check {ℓ κ} : {A : Type ℓ} {B : Type κ} → Checked A → (A → Checked B) → Checked B
then_check (valid a) k = k a
then_check (http_error n m) k = http_error n m
then_check type_error k = type_error

-- `v in words` for a set of texts
unfoldable pub is_one_of : Value → List String → Checked Bool
is_one_of (str s) words = valid (contains s words)
is_one_of (list xs) words = type_error
is_one_of (dict fs) words = type_error
is_one_of _ words = valid false

module _ (t : Texts) where
  abbrev pub body_decision : Fields → String
  body_decision body = t.lower (to_text t.repr (or_else (get "decision" body) (str "")))

  unfoldable pub decided_response : Fields → String
  decided_response body =
      if contains (body_decision body) ("allow" ∷ "approve" ∷ [])
      then if truthy (get "remember" body) then "always" else "once"
      else "reject"

  -- the value of "response" in the payload
  unfoldable pub permission_response_from_body : Fields → Checked String
  permission_response_from_body body =
      then_check (is_one_of (get "response" body) allowed_permission_responses) (λ found.
        valid (if found then to_text t.repr (get "response" body) else decided_response body))

  abbrev pub check_decision : Fields → Checked (String × String)
  check_decision body = then_check (is_one_of (get "decision" body) allowed_decisions) (λ found.
      if not found
      then http_error 400 "invalid_decision"
      else then_check (permission_response_from_body body)
          (λ payload. valid (to_text t.repr (get "decision" body), payload)))

  -- the decision or response, and the response that is sent
  unfoldable pub validate_permission_response_body : Fields → Checked (String × String)
  validate_permission_response_body body = elim (get "response" body) [
    | str s ↦
        if contains s allowed_permission_responses
        then valid (s, s)
        else if not (is_empty s)
        then http_error 400 "invalid_response"
        else check_decision body
    | _ ↦ check_decision body
  ]

  -- `v if isinstance(v, str) else ""`
  abbrev pub text_or_empty : Value → String
  text_or_empty (str s) = s
  text_or_empty _ = ""

  -- the OpenCode session and the response with which the client is called
  unfoldable pub prepare_by_id : SessionStore → Option Value → Checked (Value × String)
  prepare_by_id sessions (some (dict body)) =
      then_check (validate_permission_response_body body) (λ answer.
        if truthy (get "opencode_session_id" body)
        then valid (get "opencode_session_id" body, answer.1)
        else elim (get_session (text_or_empty (get "session_id" body)) sessions) [
          | none ↦ http_error 404 "session_not_found"
          | some r ↦ valid (str r.opencode_session_id, answer.1)
        ])
  prepare_by_id sessions _ = http_error 400 "invalid_json"
