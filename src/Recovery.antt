-- ===== src/Recovery.antt =====
-- efp_opencode_adapter/recovery.py: what the adapter does with its sessions and tasks when it starts.
-- `glob` gives the names that are there when a loop begins, and each file is read when its turn comes.
use Prim.Native.Char.{code}
use engineering_flow_platfor.Base.{
  ℕ, ◌+◌, ◌-◌, String, true, Option, none, some, List, [], ◌∷◌, if◌then◌else◌, ◌==◌, nat_eq,
  string_eq, pair_eq, contains, keys, lookup,
}
use engineering_flow_platfor.Base.Value.{
  Value, str, list, dict, nil, cons, Fields, end, field, as_dict, put,
}
use engineering_flow_platfor.Base.Interpreter.{Texts}
use engineering_flow_platfor.TaskCompletion.Extract.{before, without}
use engineering_flow_platfor.SessionStore
use engineering_flow_platfor.SessionStore.{SessionRecord, SessionStore, upsert}
use engineering_flow_platfor.TaskStore.{
  TaskRecord, Limits, File, Directory, Outcome, returned, read_record, is_valid_task_id,
}
use engineering_flow_platfor.TaskStore.Persist.{Form, save_task}
use engineering_flow_platfor.TaskEvents.Compact.{append_item}
use engineering_flow_platfor.TaskStore.Listing.{is_active}
use Prim.Native.String.{◌++◌ as text_append}
use engineering_flow_platfor.Recovery.Prefix.{Startup, active_record_from_task_file_prefix}
pub mod Prefix
pub mod Interrupted
pub mod Saves
pub mod Ends
pub mod Turns
pub mod Settled
pub mod Partial
mod Tests

-- `task_lifecycle_event` with the arguments of this module
abbrev pub task_blocked_event : Startup → TaskRecord → Value
task_blocked_event s r = dict (
    field "type" (str "task.blocked") (
      field "event_type" (str "task.blocked") (
        field "engine" (str "opencode") (
          field "session_id" (str r.portal_session_id) (
            field "request_id" (str r.request_id) (
              field "state" (str "blocked") (
                field "summary" (str (s.preview "Adapter restarted before task completion")) (
                  field "data"
                    (dict (
                      field "session_id" (str (s.preview r.portal_session_id))
                        (field "request_id" (str (s.preview r.request_id)) end)))
                    (field "created_at" (str (s.now r.task_id))
                      (field "ts" (s.time r.task_id) end))))))))))

abbrev pub blocked_output : Fields → Fields
blocked_output output =
    put "next_recommendation" (str "Re-dispatch task if it is still required.") (
      put "blockers" (list (cons (str "Adapter restarted before task completion") nil)) (
        put "error_code" (str "adapter_restarted_task_recovery_required")
          (put "summary" (str "Adapter restarted before task completion") output)))

unfoldable pub blocked_after_restart_record : Startup → TaskRecord → TaskRecord
blocked_after_restart_record s r = record r {
  status = "blocked";
  output_payload = dict (blocked_output (as_dict r.output_payload));
  error = dict (
      field "code" (str "adapter_restarted_task_recovery_required") (
        field "message" (str "Adapter restarted before task completion; manual recovery required")
          end));
  finished_at = some (s.now r.task_id);
  runtime_events = append_item r.runtime_events (task_blocked_event s r);
}

-- `tasks_marked_blocked` and `blocked_task_ids`, with the directory
pub record Progress : Type 0 where
  pub tasks : Directory
  pub blocked : List String
  pub marked : ℕ

-- A loop goes on, or what a save raises ends the recovery.
pub data Sweep : Type 0 where
  going : Progress → Sweep
  raised : Directory → Outcome → Sweep

abbrev pub and_then : Sweep → (Progress → Sweep) → Sweep
and_then (going g) next = next g
and_then (raised d o) next = raised d o

abbrev pub after_save : String → Directory → Outcome → Progress → Sweep
after_save task_id d (returned saved) g =
    if saved.status == "blocked"
    then going (record { tasks = d; blocked = task_id ∷ g.blocked; marked = g.marked + 1 })
    else going (record g { tasks = d })
after_save task_id d other g = raised d other

-- `_save_blocked_after_restart`, with what both loops do with its answer
unfoldable pub save_blocked_after_restart : Startup → TaskRecord → Progress → Sweep
save_blocked_after_restart s r g =
    let (d, o) = save_task s.bytes s.limits (blocked_after_restart_record s r) g.tasks in
    after_save r.task_id d o g

abbrev pub block_if_active : Startup → Outcome → Progress → Sweep
block_if_active s (returned r) g = if is_active r then save_blocked_after_restart s r g else going g
block_if_active s other g = going g

-- a turn of the loop over `iter_active`, and one of the loop over the files
unfoldable pub block_listed : Startup → String → Progress → Sweep
unfolding save_blocked_after_restart read_record
block_listed s stem g = elim (lookup stem g.tasks) [
  | none ↦ going g
  | some f ↦ block_if_active s (read_record s.limits.load_max_file_bytes f) g
]

abbrev pub block_found : Startup → Option TaskRecord → Progress → Sweep
block_found s none g = going g
block_found s (some r) g = save_blocked_after_restart s r g

unfoldable pub block_by_prefix : Startup → String → Progress → Sweep
unfolding save_blocked_after_restart active_record_from_task_file_prefix
block_by_prefix s stem g = elim (lookup stem g.tasks) [
  | none ↦ going g
  | some f ↦
      if contains stem g.blocked
      then going g
      else block_found s (active_record_from_task_file_prefix s stem f) g
]

unfoldable pub sweep : (String → Progress → Sweep) → List String → Progress → Sweep
sweep turn [] g = going g
sweep turn (stem ∷ stems) g = and_then (turn stem g) (sweep turn stems)

unfoldable pub recover_tasks : Startup → Directory → Sweep
unfolding sweep
recover_tasks s d =
    and_then (sweep (block_listed s) (keys d) (record { tasks = d; blocked = []; marked = 0 }))
      (λ g. sweep (block_by_prefix s) (keys g.tasks) g)

-- What OpenCode answers for a session; another error is one whose status is not 404.
pub data Answer : Type 0 where
  found not_found other_error : Answer

pub record Sessions : Type 0 where
  pub store : SessionStore
  pub partial_recovery_marked : ℕ
  pub opencode_errors : ℕ

abbrev pub partial_record : Startup → SessionRecord → SessionRecord
partial_record s r = record r { partial_recovery = true; updated_at = s.now r.portal_session_id }

abbrev pub check_session : Startup → Answer → SessionRecord → Sessions → Sessions
check_session s found r g = g
check_session s not_found r g = record g {
  store = upsert (partial_record s r) g.store;
  partial_recovery_marked = g.partial_recovery_marked + 1;
}
check_session s other_error r g = record g { opencode_errors = g.opencode_errors + 1 }

unfoldable pub check_sessions :
    Startup → (String → Answer) → List SessionRecord → Sessions → Sessions
check_sessions s get_session [] g = g
check_sessions s get_session (r ∷ rs) g =
    check_sessions s get_session rs (check_session s (get_session r.opencode_session_id) r g)

unfoldable pub recover_sessions : Startup → (String → Answer) → SessionStore → Sessions
unfolding check_sessions
recover_sessions s get_session store =
    check_sessions s get_session (SessionStore.list_active store)
      (record { store = store; partial_recovery_marked = 0; opencode_errors = 0 })
