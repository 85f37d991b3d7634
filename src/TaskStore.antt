-- ===== src/TaskStore.antt =====
-- efp_opencode_adapter/task_store.py: the records of tasks, one file each. A directory is a list of
-- files in the order in which `glob` gives them. A file holds the record that reading it gives, and
-- its size; the size of the JSON that is written is an argument. What raises is a value.
use engineering_flow_platfor.Base.{
  ℕ, max, String, Bool, false, not, ◌&&◌, ◌||◌, Option, none, some, ◌∷◌, ltb, eqb, if◌then◌else◌,
  nat_eq, string_eq, pair_eq, is_empty, Dict, lookup,
}
use engineering_flow_platfor.Base.Value.{ℤ, pos, negsuc, Value, Items, size}
use Prim.Native.Char.{code}
pub mod Persist
pub mod Listing
pub mod Saved
pub mod Listed
pub mod Matched
mod Tests

pub record TaskRecord : Type 0 where
  pub task_id : String
  pub task_type : String
  pub request_id : String
  pub status : String
  pub portal_session_id : String
  pub opencode_session_id : String
  pub input_payload : Value
  pub metadata : Value
  pub output_payload : Value
  pub artifacts : Value
  pub runtime_events : Items
  pub error : Value
  pub created_at : String
  pub started_at : Option String
  pub finished_at : Option String
  pub source : Option String
  pub shared_context_ref : Option String
  pub context_ref : Value
  pub message_cursor : Option ℤ
  pub opencode_prompt_id : Option String
  pub opencode_message_id : Option String
  pub completion_source : Option String
  pub pending_permission_ids : Value

pub record Limits : Type 0 where
  pub list_max_records : ℕ
  pub scan_max_records : ℕ
  pub load_max_file_bytes : ℕ
  pub persist_max_file_bytes : ℕ
  pub persist_event_tail : ℕ

abbrev pub not_below : ℕ → ℤ → ℕ
not_below least (pos n) = max least n
not_below least (negsuc n) = least

-- `max(least, value)` of a variable's text; `int_of_text` is `int`, none when it raises
abbrev pub env_int : (String → Option ℤ) → ℕ → Option String → ℕ → ℕ
env_int int_of_text least none default = max least default
env_int int_of_text least (some raw) default = elim (int_of_text raw) [
  | none ↦ max least default
  | some value ↦ not_below least value
]

unfoldable pub task_store_limits : (String → Option ℤ) → (String → Option String) → Limits
task_store_limits int_of_text getenv = record {
  list_max_records = env_int int_of_text 0 (getenv "EFP_OPENCODE_TASKS_LIST_MAX_RECORDS") 512;
  scan_max_records = env_int int_of_text 0 (getenv "EFP_OPENCODE_TASKS_SCAN_MAX_RECORDS") 1024;
  load_max_file_bytes =
      env_int int_of_text 0 (getenv "EFP_OPENCODE_TASKS_LOAD_MAX_FILE_BYTES") 2_000_000;
  persist_max_file_bytes =
      env_int int_of_text 1 (getenv "EFP_OPENCODE_TASKS_PERSIST_MAX_FILE_BYTES") 2_000_000;
  persist_event_tail = env_int int_of_text 0 (getenv "EFP_OPENCODE_TASKS_PERSIST_EVENT_TAIL") 50;
}

-- whether a text has one of "/" and "\", and whether it has ".."
abbrev pub has_slash : String → Bool
has_slash String.[] = false
has_slash (String.◌∷◌ c s) = eqb (code c) 47 || eqb (code c) 92 || has_slash s

abbrev pub starts_with_dot : String → Bool
starts_with_dot String.[] = false
starts_with_dot (String.◌∷◌ c s) = eqb (code c) 46

abbrev pub has_double_dot : String → Bool
has_double_dot String.[] = false
has_double_dot (String.◌∷◌ c s) = eqb (code c) 46 && starts_with_dot s || has_double_dot s

unfoldable pub is_valid_task_id : String → Bool
is_valid_task_id task_id =
    not (is_empty task_id) && not (has_slash task_id) && not (has_double_dot task_id)

pub record File : Type 0 where
  pub size : ℕ
  pub content : Option TaskRecord

abbrev pub Directory : Type 0
Directory = Dict String File

-- What a call returns or raises; `read_error` stands for TaskRecordReadError.
pub data Outcome : Type 0 where
  returned : TaskRecord → Outcome
  nothing : Outcome
  invalid_task_id : Outcome
  exceeds_load_limit : ℕ → ℕ → Outcome
  read_error : Outcome
  exceeds_persistence_limit : ℕ → Outcome
  key_error : Outcome

-- `_read_record` within a limit
unfoldable pub read_record : ℕ → File → Outcome
read_record limit f =
    if ltb limit f.size
    then exceeds_load_limit limit f.size
    else elim f.content [ none ↦ read_error | some r ↦ returned r ]

unfoldable pub get_task : Limits → String → Directory → Outcome
unfolding read_record is_valid_task_id
get_task l task_id d =
    if is_valid_task_id task_id
    then elim (lookup task_id d) [ none ↦ nothing | some f ↦ read_record l.load_max_file_bytes f ]
    else invalid_task_id
