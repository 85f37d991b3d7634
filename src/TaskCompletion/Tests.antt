-- ===== src/TaskCompletion/Tests.antt =====
-- Task completions at concrete texts, and the theorems applied to them.
use engineering_flow_platfor.Base.{
  ℕ, String, ◌≡◌, refl, ◌⊎◌, true, Option, none, some, List, if◌then◌else◌, ◌==◌, nat_eq, string_eq,
  pair_eq, contains, lstrip, strip,
}
use engineering_flow_platfor.Base.Value.{Value, str, dict, Fields, end, field, get}
use engineering_flow_platfor.Base.Interpreter.{Texts}
use engineering_flow_platfor.TaskCompletion.{
  statuses, parse_task_completion, supersede, classify, status_of_text,
}
use engineering_flow_platfor.TaskCompletion.Extract.{
  extract_json, unfenced, scan_braces, balanced, has_text,
}
use engineering_flow_platfor.TaskCompletion.Shape.{is_superseded, with_common_defaults}
use engineering_flow_platfor.TaskCompletion.Parts.{IsBracedPart, extract_json_lem}
use engineering_flow_platfor.TaskCompletion.Outcome.{part_at, searched, parse_status_lem}

abbrev as_typed : Texts
as_typed = record { repr = λ v. "..."; lower = λ s. s }

abbrev blocked : Fields
blocked = field "status" (str "blocked") end

-- a reader that knows one text
abbrev reads_one : String → Option Value
reads_one s = if s == "{\"status\": {}}" then some (dict blocked) else none

abbrev message : String
message = "Done {so far}.\n{\"status\": {}}"

extracted : extract_json reads_one message ≡ some blocked
unfolding extract_json unfenced strip scan_braces balanced
extracted = refl

fence_removed : unfenced "```json\n{\"a\": {}} ```" ≡ "{\"a\": {}}"
unfolding unfenced lstrip
fence_removed = refl

status_of_error : (parse_task_completion as_typed reads_one "it failed" "task").0 ≡ "error"
unfolding parse_task_completion supersede is_superseded extract_json unfenced strip scan_braces
    classify with_common_defaults status_of_text has_text
status_of_error = refl

extract_json_lem_example :
    (reads_one (unfenced (strip message)) ≡ some (dict blocked))
    ⊎ ((part : String) × IsBracedPart part message × (reads_one part ≡ some (dict blocked)))
extract_json_lem_example = extract_json_lem reads_one message blocked extracted

parse_status_lem_example :
    (contains (parse_task_completion as_typed reads_one message "task").0 statuses ≡ true)
    × ((place : List ℕ) (fields : Fields)
        → part_at place (dict (searched as_typed reads_one message)) ≡ some (dict fields)
        → get "error_code" fields ≡ str "superseded_by_new_head_sha"
        → (parse_task_completion as_typed reads_one message "task").0 ≡ "error")
parse_status_lem_example = parse_status_lem as_typed reads_one message "task"
