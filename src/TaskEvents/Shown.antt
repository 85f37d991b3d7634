-- ===== src/TaskEvents/Shown.antt =====
-- tasks_api.py: the status and the fields of a record that are shown.
use engineering_flow_platfor.Base.{
  String, not, List, [], ◌∷◌, if◌then◌else◌, ◌==◌, nat_eq, string_eq, pair_eq, contains,
}
use engineering_flow_platfor.Base.Value.{
  Value, null, bool, str, list, dict, Fields, end, field, or_else, as_dict, get, put,
}
use engineering_flow_platfor.TaskStore.{TaskRecord}
use engineering_flow_platfor.TaskEvents.Compact.{compact_public_task_payload}

abbrev pub terminal_statuses : List String
terminal_statuses = "success" ∷ "error" ∷ "blocked" ∷ "cancelled" ∷ []

-- a dict that `output_payload or {}` is
unfoldable pub public_status_and_payload : TaskRecord → String × Value
public_status_and_payload r =
    if r.status == "cancelled"
    then (
      "cancelled",
      dict (
          put "error_code" (or_else (get "error_code" (as_dict r.output_payload)) (str "cancelled"))
            (as_dict r.output_payload)),
    )
    else (r.status, r.output_payload)

abbrev pub failed_statuses : List String
failed_statuses = "error" ∷ "blocked" ∷ "cancelled" ∷ []

unfoldable pub to_public_full : TaskRecord → Fields
unfolding public_status_and_payload
to_public_full r =
    let shown = public_status_and_payload r in
    field "ok" (bool (not (contains shown.0 failed_statuses))) (
      field "task_id" (str r.task_id) (
        field "execution_type" (str "task") (
          field "request_id" (str r.request_id) (
            field "status" (str shown.0) (
              field "output_payload" (or_else shown.1 (dict end)) (
                field "artifacts" r.artifacts (
                  field "runtime_events" (list r.runtime_events) (
                    field "next_action_hint" null (
                      field "audit_ref" null (
                        field "error" r.error (
                          field "engine" (str "opencode") (
                            field "metadata"
                              (dict (
                                field "portal_session_id" (str r.portal_session_id) (
                                  field "opencode_session_id" (str r.opencode_session_id)
                                    (field "task_type" (str r.task_type) end))))
                              end))))))))))))

unfoldable pub to_public : (Value → String) → TaskRecord → Fields
unfolding to_public_full
to_public repr r = compact_public_task_payload repr (to_public_full r)
