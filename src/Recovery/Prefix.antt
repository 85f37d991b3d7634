-- ===== src/Recovery/Prefix.antt =====
-- recovery.py: the record of a task as far as the first part of its file shows it. The regular
-- expression is written out, with white space as the interpreter knows it.
use Prim.Native.Char.{code}
use engineering_flow_platfor.Base.{
  ℕ, String, Bool, true, false, ◌||◌, Option, none, some, eqb, if◌then◌else◌, ◌==◌, nat_eq,
  string_eq, pair_eq, is_empty, lstrip,
}
use engineering_flow_platfor.Base.Value.{Value, null, str, dict, nil, end}
use engineering_flow_platfor.TaskCompletion.Extract.{before, without}
use engineering_flow_platfor.TaskStore.{TaskRecord, Limits, File, is_valid_task_id}
use engineering_flow_platfor.TaskStore.Persist.{Form}
use Prim.Native.String.{◌++◌ as text_append}

-- What the start finds: the limits, the clocks as they are read for an id, `safe_preview` of a text,
-- the bytes of a record's JSON, the first 64 KiB of a file as a text (none for OSError), and
-- `json.loads` (none when it raises).
pub record Startup : Type 0 where
  pub limits : Limits
  pub now : String → String
  pub time : String → Value
  pub preview : String → String
  pub bytes : Form → ℕ
  pub prefix : String → File → Option String
  pub loads : String → Option Value

-- the rest of a JSON text behind its opening quote, up to the closing one
unfoldable pub literal_rest : Bool → String → Option String
literal_rest escaped String.[] = none
literal_rest true (String.◌∷◌ c s) =
    let rest = literal_rest false s in if eqb (code c) 10 then none else before c rest
literal_rest false (String.◌∷◌ c s) =
    let plain = literal_rest false s in
    let after_backslash = literal_rest true s in
    if eqb (code c) 34
    then some "\""
    else if eqb (code c) 92
    then before c after_backslash
    else before c plain

abbrev pub literal : String → Option String
literal String.[] = none
literal (String.◌∷◌ c s) = if eqb (code c) 34 then before c (literal_rest false s) else none

abbrev pub after_colon : String → Option String
after_colon String.[] = none
after_colon (String.◌∷◌ c s) = if eqb (code c) 58 then literal (lstrip s) else none

-- the match of the regular expression that begins here, and the first one
unfoldable pub field_here : String → String → Option String
unfolding without
field_here key text = elim (without (text_append "\"" (text_append key "\"")) text) [
  | none ↦ none
  | some rest ↦ after_colon (lstrip rest)
]

unfoldable pub search_field : String → String → Option String
unfolding field_here
search_field key String.[] = none
search_field key (String.◌∷◌ c s) =
    let later = search_field key s in
    elim (field_here key (String.◌∷◌ c s)) [ some found ↦ some found | none ↦ later ]

abbrev pub text_value : Option Value → Option String
text_value (some (str s)) = some s
text_value _ = none

unfoldable pub json_string_field_prefix : Startup → String → String → Option String
unfolding search_field
json_string_field_prefix s text key = elim (search_field key text) [
  | none ↦ none
  | some found ↦ text_value (s.loads found)
]

-- `value or default`
abbrev pub text_or : Option String → String → String
text_or none default = default
text_or (some value) default = if is_empty value then default else value

abbrev pub active_status : Option String → Option String
active_status none = none
active_status (some status) =
    if status == "accepted" || status == "running" then some status else none

abbrev pub record_from_prefix : Startup → String → String → String → TaskRecord
record_from_prefix s text status task_id = record {
  task_id = task_id;
  task_type = text_or (json_string_field_prefix s text "task_type") "generic_agent_task";
  request_id =
      text_or (json_string_field_prefix s text "request_id") (text_append "recovery-" task_id);
  status = status;
  portal_session_id =
      text_or (json_string_field_prefix s text "portal_session_id") (text_append "task-" task_id);
  opencode_session_id = text_or (json_string_field_prefix s text "opencode_session_id") "";
  input_payload = dict end;
  metadata = dict end;
  output_payload = dict end;
  artifacts = dict end;
  runtime_events = nil;
  error = null;
  created_at = text_or (json_string_field_prefix s text "created_at") (s.now task_id);
  started_at = none;
  finished_at = none;
  source = none;
  shared_context_ref = none;
  context_ref = null;
  message_cursor = none;
  opencode_prompt_id = none;
  opencode_message_id = none;
  completion_source = none;
  pending_permission_ids = null;
}

-- the record of an active task, as far as the first part of its file shows it
unfoldable pub active_record_from_task_file_prefix : Startup → String → File → Option TaskRecord
active_record_from_task_file_prefix s stem f = elim (s.prefix stem f) [
  | none ↦ none
  | some text ↦ elim (active_status (json_string_field_prefix s text "status")) [
    | none ↦ none
    | some status ↦
        let task_id = text_or (json_string_field_prefix s text "task_id") stem in
        if is_valid_task_id task_id then some (record_from_prefix s text status task_id) else none
  ]
]
