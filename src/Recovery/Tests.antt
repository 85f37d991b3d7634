-- ===== src/Recovery/Tests.antt =====
-- Runs of recovery.py on concrete input.
use engineering_flow_platfor.Base.{
  ℕ, String, ◌≡◌, refl, sym, ap, ◌∙◌, inl, inr, false, none, some, [], ◌∷◌, arith, eq_iff,
  if◌then◌else◌, ◌==◌, nat_eq, string_eq, pair_eq, Bool-cases, some_inj, lstrip, strip, lookup,
  insert,
}
use engineering_flow_platfor.Base.Value.{pos, null, int, str, list, dict, nil, cons, end, field}
use engineering_flow_platfor.Base.Interpreter.{Texts}
use engineering_flow_platfor.SessionStore.{SessionRecord, SessionStore}
use engineering_flow_platfor.SessionStore.Status.{IsWellKept}
use engineering_flow_platfor.TaskStore.{TaskRecord, File, Directory, is_valid_task_id}
use engineering_flow_platfor.TaskStore.Persist.{save_task}
use engineering_flow_platfor.Recovery.{
  Sweep, going, raised, Answer, not_found, recover_tasks, recover_sessions, block_listed,
  block_by_prefix, blocked_after_restart_record,
}
use engineering_flow_platfor.Recovery.Prefix.{
  Startup, json_string_field_prefix, search_field, literal_rest, field_here,
}
use engineering_flow_platfor.Recovery.Interrupted.{interrupted_requests, running_requests}
use engineering_flow_platfor.Recovery.Saves.{IsFiled, AllSettled}
use engineering_flow_platfor.Recovery.Ends.{EndsIn}
use engineering_flow_platfor.Recovery.Settled.{recover_tasks_settles}
use engineering_flow_platfor.Recovery.Partial.{recovered_option, recover_sessions_lem}

abbrev task : TaskRecord
task = record {
  task_id = "t1";
  task_type = "generic_agent_task";
  request_id = "r1";
  status = "running";
  portal_session_id = "task-t1";
  opencode_session_id = "ses_1";
  input_payload = dict end;
  metadata = dict end;
  output_payload = dict end;
  artifacts = dict end;
  runtime_events = nil;
  error = null;
  created_at = "2026-01-01";
  started_at = none;
  finished_at = none;
  source = none;
  shared_context_ref = none;
  context_ref = null;
  message_cursor = none;
  opencode_prompt_id = none;
  opencode_message_id = none;
  completion_source = none;
  pending_permission_ids = null;
}

abbrev cut_off : String
cut_off = "{\"task_id\": \"t2\", \"status\" : \"accepted\", \"input_payload\": {\"text\": \"..."

-- one task whose file is read, and one whose file is too large
abbrev two_tasks : Directory
two_tasks =
    ("t1", record { size = 10; content = some task })
    ∷ ("t2", record { size = 500; content = some (record task { task_id = "t2" }) })
    ∷ []

abbrev restart : Startup
restart = record {
  limits = record {
    list_max_records = 512;
    scan_max_records = 1024;
    load_max_file_bytes = 100;
    persist_max_file_bytes = 100;
    persist_event_tail = 50;
  };
  now = λ id. "2026-01-02";
  time = λ id. int (pos 5);
  preview = λ text. text;
  bytes = λ f. 20;
  prefix = λ stem f. some cut_off;
  loads = λ text. if text == "\"accepted\"" then some (str "accepted") else some (str "t2");
}

id_in :
    (x r : TaskRecord) (f : File) (n : ℕ) (k : String)
    → record { size = n; content = some x } ≡ f
    → f.content ≡ some r
    → x.task_id ≡ k
    → r.task_id ≡ k
id_in x r f n k e c same = sym (ap (λ y. y.task_id) (some_inj (ap (λ y. y.content) e ∙ c))) ∙ same

two_tasks-IsFiled : IsFiled two_tasks
unfolding lookup
two_tasks-IsFiled k f r h c = elim (Bool-cases ("t1" == k)) [
  | inl t ↦ id_in task r f 10 k (some_inj (rw t at h)) c ((eq_iff "t1" k).0 t)
  | inr n ↦ elim (Bool-cases ("t2" == k)) [
    | inl t ↦
        id_in (record task { task_id = "t2" }) r f 500 k (some_inj (rw (n, t) at h)) c
          ((eq_iff "t2" k).0 t)
    | inr m ↦ absurd (ground (arith, rw (n, m) at h))
  ]
]

search_status : search_field "status" cut_off ≡ some "\"accepted\""
unfolding search_field literal_rest field_here lstrip
search_status = refl

abbrev marked_of : Sweep → ℕ
marked_of (going g) = g.marked
marked_of (raised d o) = 0

both_blocked : marked_of (recover_tasks restart two_tasks) ≡ 2
unfolding recover_tasks block_listed lookup save_task is_valid_task_id blocked_after_restart_record
    insert block_by_prefix json_string_field_prefix lstrip literal_rest
both_blocked = refl

recover_tasks_settles_example :
    EndsIn restart two_tasks (AllSettled restart) (recover_tasks restart two_tasks)
recover_tasks_settles_example = recover_tasks_settles restart two_tasks two_tasks-IsFiled

abbrev chat : SessionRecord
chat = record {
  portal_session_id = "p1";
  opencode_session_id = "ses_1";
  title = "hello";
  agent = none;
  model = none;
  created_at = "2026-01-01";
  updated_at = "2026-01-02";
  last_message = "hi";
  message_count = pos 2;
  deleted = false;
  partial_recovery = false;
  custom_title = none;
  generated_title = none;
}

abbrev one_chat : SessionStore
one_chat = record { disk = record { index = none; backups = [] }; sessions = ("p1", chat) ∷ [] }

one_chat-IsWellKept : IsWellKept one_chat
unfolding lookup
one_chat-IsWellKept = record {
  keyed = λ k r h. ground (arith, eq_iff "p1" k, h);
  once = (refl, tt);
}

abbrev forgotten : String → Answer
forgotten id = not_found

recover_sessions_lem_example :
    lookup "p1" (recover_sessions restart forgotten one_chat).store.sessions
    ≡ recovered_option restart forgotten (lookup "p1" one_chat.sessions)
recover_sessions_lem_example =
    recover_sessions_lem restart forgotten one_chat "p1" one_chat-IsWellKept

abbrev texts : Texts
texts = record { repr = λ v. ""; lower = λ s. s }

running_entry :
    interrupted_requests texts (
      dict (
        field "session_id" (str "p1") (
          field "entries"
            (list (
              cons (dict (field "request_id" (str "r1") (field "status" (str " running") end))) (
                cons
                  (dict (field "request_id" (str "r2") (field "status" (str "success") end)))
                  nil)))
            end)))
    ≡ "r1" ∷ []
unfolding interrupted_requests running_requests strip
running_entry = refl
