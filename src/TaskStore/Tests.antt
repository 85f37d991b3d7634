-- ===== src/TaskStore/Tests.antt =====
-- Runs of task_store.py on concrete input.
use engineering_flow_platfor.Base.{
  ℕ, All, ◌<◌, ◌+◌, ◌*◌, String, ◌≡◌, refl, ◌⊎◌, true, false, ◌&&◌, none, some, List, [], ◌∷◌,
  arith, nat_eq, string_eq, pair_eq, select, is_empty, lookup, insert,
}
use engineering_flow_platfor.Base.Value.{null, bool, str, dict, nil, cons, end, field, size}
use engineering_flow_platfor.TaskStore.{read_record}
use engineering_flow_platfor.TaskStore.Persist.{minimal_record_for_persistence}
use engineering_flow_platfor.TaskStore.{
  TaskRecord, Limits, File, Directory, returned, get_task, is_valid_task_id,
}
use engineering_flow_platfor.TaskStore.Persist.{
  Form, all_fields, required_fields, save_task, encode_record_for_persistence, first_within, forms,
}
use engineering_flow_platfor.TaskStore.Listing.{
  list_all, list_active, iter_active, scan, iter_task_paths, sort_paths, insert_path, text_leb,
  is_active, names_message, only_match, find_for_opencode_event,
}
use engineering_flow_platfor.TaskStore.Saved.{Essential, get-save}
use engineering_flow_platfor.TaskStore.Matched.{is_own, first_where, find_for_opencode_event_lem}

abbrev task : TaskRecord
task = record {
  task_id = "t1";
  task_type = "review";
  request_id = "r1";
  status = "running";
  portal_session_id = "p1";
  opencode_session_id = "ses_1";
  input_payload = dict (field "text" (str "look") end);
  metadata = dict end;
  output_payload = null;
  artifacts = dict end;
  runtime_events = cons (str "a") (cons (str "b") nil);
  error = null;
  created_at = "2026-01-01";
  started_at = none;
  finished_at = none;
  source = none;
  shared_context_ref = none;
  context_ref = null;
  message_cursor = none;
  opencode_prompt_id = none;
  opencode_message_id = some "m1";
  completion_source = none;
  pending_permission_ids = null;
}

abbrev limits : Limits
limits = record {
  list_max_records = 2;
  scan_max_records = 3;
  load_max_file_bytes = 100;
  persist_max_file_bytes = 100;
  persist_event_tail = 1;
}

-- 60 bytes for each event, and 30 more
abbrev sizes : Form → ℕ
sizes (all_fields r) = 60 * size r.runtime_events + 30
sizes (required_fields r) = 20

valid : is_valid_task_id task.task_id ≡ true
unfolding is_valid_task_id
valid = refl

abbrev no_files : Directory
no_files = []

get-save_example :
    (((save_task sizes limits task no_files).0 ≡ no_files)
      × All (λ f. limits.persist_max_file_bytes < sizes f) (forms sizes limits task))
    ⊎ ((s : TaskRecord) × (get_task limits task.task_id (save_task sizes limits task no_files).0
          ≡ returned s)
        × Essential task s)
get-save_example = get-save sizes limits task no_files valid (omega arith)

abbrev written : File
written = record {
  size = 90;
  content = some (record task {
    input_payload = dict (
        field "_omitted" (bool true)
          (field "reason" (str "task_record_exceeded_persistence_limit") end));
    output_payload = dict (
        field "status" (str "running") (
          field "payload_omitted_from_persistence" (bool true)
            (field "reason" (str "task_record_exceeded_persistence_limit") end)));
    runtime_events = cons (str "b") nil;
  });
}

written_run : lookup "t1" (save_task sizes limits task no_files).0 ≡ some written
unfolding lookup save_task is_valid_task_id encode_record_for_persistence first_within insert
    minimal_record_for_persistence
written_run = refl

abbrev other : TaskRecord
other = record task { task_id = "t2"; status = "success"; opencode_message_id = some "m2" }

abbrev two_tasks : Directory
two_tasks =
    ("t2", record { size = 40; content = some other })
    ∷ ("t1", record { size = 40; content = some task })
    ∷ ("t3", record { size = 400; content = none })
    ∷ []

list_active_run : list_active limits none none none two_tasks ≡ task ∷ []
unfolding list_active iter_active scan iter_task_paths sort_paths insert_path text_leb read_record
list_active_run = refl

find_for_opencode_event_lem_example :
    ((ids : List String)
      → is_empty "ses_1" ≡ true
      → find_for_opencode_event limits "ses_1" ids two_tasks ≡ none)
    × ((id : String) (ids : List String)
        → is_empty "ses_1" ≡ false
        → find_for_opencode_event limits "ses_1" (id ∷ ids) two_tasks
          ≡ first_where
              (λ r. is_own "ses_1" r && names_message (id ∷ ids) r)
              (list_all limits none none none two_tasks))
    × (is_empty "ses_1" ≡ false
        → find_for_opencode_event limits "ses_1" [] two_tasks
          ≡ only_match [] (
              select
                (λ r. is_own "ses_1" r && is_active r)
                (list_all limits none none none two_tasks)))
find_for_opencode_event_lem_example = find_for_opencode_event_lem limits "ses_1" two_tasks
