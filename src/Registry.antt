-- ===== src/Registry.antt =====
-- efp_opencode_adapter/chat_run_registry.py: the registry of chat runs, with its state machine,
-- the stale-run sweep and the pruning of finished runs. Instants are ticks of the clock; a method
-- reads the clock once, and `iso` is the text of an instant (`utc_now_iso`).
mod Compact
pub mod Found
pub mod Cut
pub mod Prune
pub mod Stale
pub mod Continues
pub mod Machine
pub mod Outcome
pub mod Tail
pub mod Entry
mod Tests
pub use Compact.{retained_event_tail_items}
unfoldable pub use Compact.{compact_final_payload}
use engineering_flow_platfor.Base.{
  ℕ, ◌+◌, ◌-◌, String, Bool, true, false, not, ◌&&◌, ◌||◌, Option, none, some, List, [], ◌∷◌, leb,
  if◌then◌else◌, ◌==◌, string_eq, length, take, select, sorted_by, strip, is_empty, Dict, values,
  lookup, insert, erase,
}
use engineering_flow_platfor.Base.Value.{
  pos, Value, null, bool, int, str, list, dict, Fields, end, field, get, or_else, to_text,
}

pub data RunState : Type 0 where
  running completed failed cancelled : RunState

-- `self.state in TERMINAL_STATES`
abbrev pub is_terminal : RunState → Bool
is_terminal running = false
is_terminal _ = true

abbrev pub state_text : RunState → String
state_text running = "running"
state_text completed = "completed"
state_text failed = "failed"
state_text cancelled = "cancelled"

-- `task` is the handle of the asyncio task
pub record ChatRunRecord : Type 0 where
  pub request_id : String
  pub session_id : String
  pub engine : String
  pub state : RunState
  pub started_at : ℕ
  pub updated_at : ℕ
  pub latest_event_at : String
  pub latest_event_seq : ℕ
  pub replay_available : Bool
  pub detached_viewers : ℕ
  pub final_payload : Option Fields
  pub error_payload : Option Fields
  pub task : Option ℕ

abbrev pub new_record : ℕ → String → String → ChatRunRecord
new_record now session_id request_id = record {
  request_id = request_id;
  session_id = session_id;
  engine = "opencode";
  state = running;
  started_at = now;
  updated_at = now;
  latest_event_at = "";
  latest_event_seq = 0;
  replay_available = true;
  detached_viewers = 0;
  final_payload = none;
  error_payload = none;
  task = none;
}

payload_or_null : Option Fields → Value
payload_or_null none = null
payload_or_null (some fs) = dict fs

unfoldable pub to_payload : (ℕ → String) → ChatRunRecord → Fields
unfolding payload_or_null
to_payload iso r = field "ok" (bool true) (
    field "engine" (str r.engine) (
      field "session_id" (str r.session_id) (
        field "request_id" (str r.request_id) (
          field "state" (str (state_text r.state)) (
            field "terminal" (bool (is_terminal r.state)) (
              field "started_at" (str (iso r.started_at)) (
                field "updated_at" (str (iso r.updated_at)) (
                  field "latest_event_at" (str r.latest_event_at) (
                    field "latest_event_seq" (int (pos r.latest_event_seq)) (
                      field "replay_available" (bool r.replay_available) (
                        field "detached_viewers" (int (pos r.detached_viewers)) (
                          field "final_payload" (payload_or_null r.final_payload) (
                            field "error_payload" (payload_or_null r.error_payload) end)))))))))))))

pub record Registry : Type 0 where
  pub records : Dict String ChatRunRecord
  pub max_records : ℕ
  pub stale_running_seconds : ℕ

-- `get`: an empty `session_id` is no filter
unfoldable pub find : Registry → String → String → Option ChatRunRecord
find g request_id session_id =
    let rid = strip request_id in
    if is_empty rid then none else elim (lookup rid g.records) [
      | none ↦ none
      | some r ↦
          if not (is_empty session_id) && not (r.session_id == session_id) then none else some r
    ]

abbrev pub write_at :
    Registry → String → (ChatRunRecord → ChatRunRecord) → Option ChatRunRecord → Registry
write_at g rid f none = g
write_at g rid f (some r) = record g { records = insert rid (f r) g.records }

-- A method that writes to the record which `self.get(request_id)` finds.
abbrev pub on_record : Registry → String → (ChatRunRecord → ChatRunRecord) → Registry
on_record g request_id f = write_at g (strip request_id) f (find g request_id "")

stale_error : ChatRunRecord → Fields
stale_error r = field "error" (str "chat_run_stale") (
    field "detail"
      (str "No run activity before the stale timeout; a terminal outcome was never recorded.")
      (field "session_id" (str r.session_id) (field "request_id" (str r.request_id) end)))

-- The loop body of `_fail_stale_running_records`: `updated_at >= now - stale` keeps the record.
unfoldable pub fail_stale : ℕ → ℕ → ChatRunRecord → ChatRunRecord
unfolding stale_error
fail_stale stale now r =
    if is_terminal r.state || leb now (r.updated_at + stale) then r else record r {
      state = failed;
      error_payload = some (stale_error r);
      updated_at = now;
      task = none;
    }

unfoldable pub fail_stale_all : ℕ → ℕ → Dict String ChatRunRecord → Dict String ChatRunRecord
unfolding fail_stale
fail_stale_all stale now [] = []
fail_stale_all stale now ((k, r) ∷ d) = (k, fail_stale stale now r) ∷ fail_stale_all stale now d

unfoldable pub fail_stale_running_records : ℕ → Registry → Registry
fail_stale_running_records now g =
    if leb g.stale_running_seconds 0
    then g
    else record g { records = fail_stale_all g.stale_running_seconds now g.records }

unfoldable pub terminal_records : Dict String ChatRunRecord → List ChatRunRecord
terminal_records d = sorted_by (λ r. r.updated_at) (select (λ r. is_terminal r.state) (values d))

-- the `pop` loop
unfoldable pub pop_all : List ChatRunRecord → Dict String ChatRunRecord → Dict String ChatRunRecord
pop_all [] d = d
pop_all (r ∷ rs) d = pop_all rs (erase r.request_id d)

unfoldable pub prune_terminal_records : Registry → Registry
unfolding terminal_records pop_all
prune_terminal_records g = if leb (length g.records) g.max_records then g else record g {
  records =
      pop_all (take (length g.records - g.max_records) (terminal_records g.records)) g.records;
}

-- the registry with the new record, before the two sweeps
unfoldable pub enter : ℕ → String → String → Registry → Registry
enter now session_id request_id g = record g {
  records = insert request_id (new_record now session_id request_id) g.records;
}

unfoldable pub start : ℕ → String → String → Registry → Registry × ChatRunRecord
unfolding find enter fail_stale_running_records prune_terminal_records
start now session_id request_id g = elim (find g request_id session_id) [
  | some existing ↦ (g, existing)
  | none ↦ (
    prune_terminal_records (fail_stale_running_records now (enter now session_id request_id g)),
    new_record now session_id request_id,
  )
]

unfoldable pub attach_task : ℕ → String → ℕ → Registry → Registry
unfolding find
attach_task now request_id task g =
    on_record g request_id (λ r. record r { task = some task; updated_at = now })

module _ (repr : Value → String) (iso : ℕ → String) where
  event_time : ℕ → Fields → String
  event_time now event = to_text repr (or_else (get "created_at" event) (str (iso now)))

  unfoldable pub record_event : ℕ → String → Fields → Registry → Registry
  unfolding find event_time
  record_event now request_id event g = on_record g request_id (λ r.
      if is_terminal r.state then r else record r {
        latest_event_seq = r.latest_event_seq + 1;
        latest_event_at = event_time now event;
        updated_at = now;
      })

unfoldable pub mark_detached : ℕ → String → Registry → Registry
unfolding find
mark_detached now request_id g = on_record g request_id (λ r.
    if is_terminal r.state
    then r
    else record r { detached_viewers = r.detached_viewers + 1; updated_at = now })

-- `v in {"", None, "completed", "success"}`, where a list or a dict raises (unhashable)
abbrev pub in_done_states : Value → Option Bool
in_done_states null = some true
in_done_states (str s) = some (s == "" || s == "completed" || s == "success")
in_done_states (list xs) = none
in_done_states (dict fs) = none
in_done_states _ = some false

-- `v is False`
abbrev pub is_false : Value → Bool
is_false (bool b) = not b
is_false _ = false

-- the state that `complete` writes, or `none` for the exception
module _ (repr : Value → String) where
  other_state : Value → RunState
  other_state v =
      let s = to_text repr (or_else v (str "failed")) in
      if s == "completed" || s == "success" then completed else failed

  unfoldable pub completion_state : Fields → Option RunState
  unfolding other_state
  completion_state final =
      if is_false (get "ok" final)
      then some (other_state (get "completion_state" final))
      else elim (in_done_states (get "completion_state" final)) [
        | none ↦ none
        | some done ↦ some (if done then completed else other_state (get "completion_state" final))
      ]

  -- `none` is the exception: nothing is written then
  unfoldable pub complete : ℕ → String → Fields → Registry → Option Registry
  unfolding find completion_state
  complete now request_id final g = elim (find g request_id "") [
    | none ↦ some g
    | some r ↦ elim (completion_state final) [
      | none ↦ none
      | some s ↦ some (
          on_record g request_id (λ r. record r {
            state = s;
            final_payload = some (compact_final_payload (some final));
            updated_at = now;
            task = none;
          }))
    ]
  ]

unfoldable pub fail : ℕ → String → Fields → Registry → Registry
unfolding find
fail now request_id error g = on_record g request_id (λ r. elim r.state [
  | cancelled ↦ r
  | _ ↦ record r {
    state = failed;
    error_payload = some (compact_final_payload (some error));
    updated_at = now;
    task = none;
  }
])

-- the new registry, the answer, and the task on which `cancel` is called
unfoldable pub cancel : (ℕ → Bool) → ℕ → String → Registry → Registry × Bool × Option ℕ
unfolding find
cancel done now request_id g = elim (find g request_id "") [
  | none ↦ (g, false, none)
  | some r ↦ if is_terminal r.state then (g, false, none) else (
    on_record g request_id (λ r. record r { state = cancelled; updated_at = now; task = none }),
    true,
    elim r.task [ none ↦ none | some t ↦ if done t then none else some t ],
  )
]
