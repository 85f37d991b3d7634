-- ===== src/SessionStore/Titles.antt =====
-- The titles that session_store.py publishes, and the sessions of tasks.
use engineering_flow_platfor.Base.{
  String, Bool, true, false, ◌&&◌, ◌||◌, Option, some, List, [], ◌∷◌, eqb, if◌then◌else◌, nat_eq,
  string_eq, pair_eq, is_empty, strip,
}
use engineering_flow_platfor.Base.Value.{Value, str, Fields, end, get}
use Prim.Native.Char.{code}
use engineering_flow_platfor.SessionStore.{
  SessionRecord, SessionStore, get_session, session_title_metadata,
}

abbrev pub starts_with : String → String → Bool
starts_with String.[] s = true
starts_with (String.◌∷◌ c p) String.[] = false
starts_with (String.◌∷◌ c p) (String.◌∷◌ d s) = eqb (code c) (code d) && starts_with p s

abbrev pub starts_with_any : List String → String → Bool
starts_with_any [] s = false
starts_with_any (p ∷ ps) s = starts_with p s || starts_with_any ps s

abbrev pub task_session_id_prefixes : List String
task_session_id_prefixes =
    "agent-task:" ∷ "agent-task-" ∷ "generic-task:" ∷ "generic-task-" ∷ "delegation:"
    ∷ "delegation-" ∷ "task-" ∷ []

abbrev pub session_id_is_task_session : Value → Bool
session_id_is_task_session (str s) = starts_with_any task_session_id_prefixes (strip s)
session_id_is_task_session _ = false

abbrev pub session_title_metadata_for : Option SessionStore → Option String → Fields
session_title_metadata_for (some s) (some id) =
    if is_empty id then end else session_title_metadata (get_session id s)
session_title_metadata_for store id = end

abbrev published : Option SessionRecord → Value
published r = get "session_title" (session_title_metadata r)
