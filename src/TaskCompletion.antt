-- ===== src/TaskCompletion.antt =====
-- efp_opencode_adapter/task_completion_parser.py: the status and the payload that a task's last message
-- gives. `loads` is `json.loads`, none where it raises; `low in` is asked of the lowered text.
pub mod Extract
pub mod Shape
pub mod Parts
pub mod Outcome
mod Tests
use engineering_flow_platfor.Base.{
  String, Bool, ◌||◌, Option, none, some, List, [], ◌∷◌, if◌then◌else◌, ◌==◌, nat_eq, string_eq,
  pair_eq, contains, strip,
}
use engineering_flow_platfor.Base.Value.{
  Value, null, str, list, dict, nil, Fields, end, field, get, put, to_text,
}
use engineering_flow_platfor.Base.Interpreter.{Texts}
use engineering_flow_platfor.TaskCompletion.Extract.{extract_json, has_text, has_any_text}
use engineering_flow_platfor.TaskCompletion.Shape.{
  set_default, is_superseded, with_common_defaults, extract_delegation_result,
  normalize_agent_async_task_payload, get_or,
}

abbrev pub statuses : List String
statuses = "success" ∷ "error" ∷ "blocked" ∷ []

abbrev pub permission_phrases : List String
permission_phrases =
    "permission denied" ∷ "permission request" ∷ "approval required" ∷ "waiting for permission"
    ∷ "cannot proceed due to permission" ∷ []

-- the status of a text that holds no JSON
unfoldable pub status_of_text : String → String
status_of_text low =
    if has_any_text permission_phrases low
    then "blocked"
    else if has_any_text ("blocked" ∷ "missing required" ∷ []) low
    then "blocked"
    else if has_any_text ("cannot proceed" ∷ "failed" ∷ "error" ∷ []) low
    then "error"
    else "success"

unfoldable pub supersede : Option Fields → String × Fields → String × Fields
supersede parsed (status, payload) =
    if is_superseded (dict (elim parsed [ none ↦ payload | some fields ↦ fields ]))
    then ("error", put "error_code" (str "superseded_by_new_head_sha") payload)
    else (status, payload)

unfoldable pub review_payload : Fields → Fields
review_payload payload = set_default "error_code" null (
    set_default "review_comments" (list nil) (set_default "recommendation" (str "comment") payload))

unfoldable pub delegation_payload : Fields → Fields
delegation_payload result = field "summary" (get_or "summary" (str "") result) (
    field "artifacts" (get_or "artifacts" (list nil) result) (
      field "blockers" (get_or "blockers" (list nil) result) (
        field "next_recommendation" (get "next_recommendation" result) (
          field "audit_trace" (get_or "audit_trace" (list nil) result)
            (field "delegation_result" (dict result) end)))))

abbrev pub is_review : String → Bool
is_review task_type = task_type == "github_review_task" || task_type == "github_pr_review"

unfoldable pub payload_for : String → String → String → Fields → Fields
payload_for task_type raw status payload =
    if is_review task_type
    then review_payload payload
    else if task_type == "delegation_task"
    then delegation_payload (extract_delegation_result payload status)
    else if task_type == "agent_async_task"
    then normalize_agent_async_task_payload payload status raw
    else payload

module _ (t : Texts) where
  -- the status and the payload before the kinds of task
  unfoldable pub classify : String → Option Fields → String × Fields
  classify raw none = (
    status_of_text (t.lower raw),
    with_common_defaults (field "summary" (str (strip raw)) (field "raw_text" (str raw) end)),
  )
  classify raw (some parsed) =
      let payload = with_common_defaults parsed in
      let status = to_text t.repr (get_or "status" (str "success") payload) in
      if contains status statuses
      then (status, payload)
      else ("success", put "raw_status" (str status) payload)

  -- the third part of the result is always none
  unfoldable pub parse_task_completion : (String → Option Value) → String → String → String × Fields
  parse_task_completion loads text task_type =
      let parsed = extract_json loads text in
      let found = supersede parsed (classify text parsed) in
      (found.0, payload_for task_type text found.0 found.1)
