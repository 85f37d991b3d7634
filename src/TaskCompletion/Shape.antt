-- ===== src/TaskCompletion/Shape.antt =====
-- task_completion_parser.py: the payload that each kind of task gets.
use engineering_flow_platfor.Base.{
  String, Bool, true, false, not, ◌||◌, List, [], ◌∷◌, if◌then◌else◌, ◌==◌, nat_eq, string_eq,
  pair_eq, is_empty, strip, keys,
}
use engineering_flow_platfor.Base.Value.{
  Value, null, bool, str, list, dict, Items, nil, cons, Fields, end, field, truthy, as_dict,
  is_dict, get, has, put,
}

-- `d.setdefault(k, v)` and `d.get(k, v)`
abbrev pub set_default : String → Value → Fields → Fields
set_default k v fields = if has k fields then fields else put k v fields

abbrev pub get_or : String → Value → Fields → Value
get_or k v fields = if has k fields then get k fields else v

abbrev pub is_superseded_code : Value → Bool
is_superseded_code (str s) = s == "superseded_by_new_head_sha"
is_superseded_code _ = false

-- whether `_find_superseded` finds the code
unfoldable mutual
  pub is_superseded : Value → Bool
  is_superseded (dict fields) = is_superseded_code (get "error_code" fields) || any_field fields
  is_superseded (list items) = any_item items
  is_superseded _ = false

  pub any_item : Items → Bool
  any_item nil = false
  any_item (cons v items) = is_superseded v || any_item items

  pub any_field : Fields → Bool
  any_field end = false
  any_field (field k v fields) = is_superseded v || any_field fields

unfoldable pub with_common_defaults : Fields → Fields
with_common_defaults payload = set_default "external_actions" (list nil) (
    set_default "audit_trace" (list nil) (
      set_default "next_recommendation" null (
        set_default "blockers" (list nil)
          (set_default "artifacts" (list nil) (set_default "summary" (str "") payload)))))

unfoldable pub explicit_result : Fields → Value
explicit_result payload =
    if is_dict (get "delegation_result" payload)
    then get "delegation_result" payload
    else if is_dict (get "output_payload" payload)
    then get "delegation_result" (as_dict (get "output_payload" payload))
    else get "delegation_result" payload

abbrev pub delegation_defaults : Fields → String → Fields → Fields
delegation_defaults payload status result =
    set_default "audit_trace" (get_or "audit_trace" (list nil) payload) (
      set_default "next_recommendation" (get "next_recommendation" payload) (
        set_default "blockers" (get_or "blockers" (list nil) payload) (
          set_default "artifacts" (get_or "artifacts" (list nil) payload) (
            set_default "summary" (get_or "summary" (str "") payload)
              (set_default "status" (str status) result)))))

-- a result built from the payload has all the keys, in the order in which they are set
unfoldable pub extract_delegation_result : Fields → String → Fields
unfolding explicit_result
extract_delegation_result payload status =
    delegation_defaults payload status (as_dict (explicit_result payload))

-- the first key with a text that is no blank
unfoldable pub first_text : List String → Fields → String → String
first_text [] payload raw = strip raw
first_text (key ∷ keys) payload raw =
    let rest = first_text keys payload raw in
    elim (get key payload) [ str s ↦ if is_empty (strip s) then rest else strip s | _ ↦ rest ]

unfoldable pub agent_async_fallback_response : Fields → String → String
unfolding first_text
agent_async_fallback_response payload raw =
    first_text ("response" ∷ "answer" ∷ "summary" ∷ "raw_text" ∷ []) payload raw

unfoldable pub agent_async_has_blockers : Fields → Bool
agent_async_has_blockers payload = elim (get "blockers" payload) [
  | str s ↦ not (is_empty (strip s))
  | v ↦ truthy v
]

abbrev pub is_full_text : Value → Bool
is_full_text (str s) = not (is_empty (strip s))
is_full_text _ = false

abbrev pub is_bool : Value → Bool
is_bool (bool b) = true
is_bool _ = false

unfoldable pub with_response : Fields → String → Fields
unfolding agent_async_fallback_response
with_response payload raw =
    if is_full_text (get "final_response" payload)
    then payload
    else put "final_response" (str (agent_async_fallback_response payload raw)) payload

unfoldable pub with_input_flag : Fields → String → Fields
unfolding agent_async_has_blockers
with_input_flag payload status =
    if is_bool (get "needs_user_input" payload)
    then payload
    else put "needs_user_input" (bool (status == "blocked" || agent_async_has_blockers payload))
        payload

unfoldable pub agent_async_defaults : Fields → Fields
agent_async_defaults payload = set_default "external_actions" (list nil) (
    set_default "audit_trace" (list nil) (
      set_default "next_recommendation" (str "") (
        set_default "blockers" (list nil)
          (set_default "artifacts" (list nil) (set_default "summary" (str "") payload)))))

unfoldable pub normalize_agent_async_task_payload : Fields → String → String → Fields
unfolding agent_async_defaults with_response with_input_flag
normalize_agent_async_task_payload payload status raw =
    with_input_flag (with_response (agent_async_defaults payload) raw) status
