-- ===== src/Bindings.antt =====
-- efp_opencode_adapter/request_bindings.py: which portal request an OpenCode session, message or
-- task belongs to. Time is in microseconds, and a method reads the clock once. The objects that the
-- three dictionaries share are copied here: only `complete` writes to a binding, and it writes to
-- every copy, since it looks for the request's id in all three.
pub mod Laws
mod Tests
use engineering_flow_platfor.Base.{
  ℕ, ◌+◌, ◌*◌, max, String, Bool, true, false, not, ◌&&◌, ◌||◌, Option, none, some, ltb,
  if◌then◌else◌, ◌==◌, nat_eq, string_eq, pair_eq, is_empty, Dict, lookup, insert, filter_values,
  map_values, if_kept,
}

pub record RequestBinding : Type 0 where
  pub portal_session_id : String
  pub request_id : String
  pub opencode_session_id : String
  pub message_id : String
  pub task_id : String
  pub kind : String
  pub created_at : ℕ
  pub expires_at : ℕ
  pub completed : Bool

pub record Bindings : Type 0 where
  pub active : Dict String RequestBinding
  pub by_message : Dict (String × String) RequestBinding
  pub by_task : Dict (String × String) RequestBinding

abbrev pub second : ℕ
second = 1_000_000

-- the arguments of `bind_active` and `bind_message`
pub record Request : Type 0 where
  pub opencode_session_id : String
  pub portal_session_id : String
  pub request_id : String
  pub kind : String
  pub task_id : String
  pub ttl_seconds : ℕ

unfoldable pub new_binding : ℕ → Request → String → RequestBinding
new_binding now r message_id = record {
  portal_session_id = r.portal_session_id;
  request_id = r.request_id;
  opencode_session_id = r.opencode_session_id;
  message_id = message_id;
  task_id = r.task_id;
  kind = r.kind;
  created_at = now;
  expires_at = now + max 1 r.ttl_seconds * second;
  completed = false;
}

abbrev pub is_live : ℕ → RequestBinding → Bool
is_live now b = not b.completed && ltb now b.expires_at

unfoldable pub prune_expired : ℕ → Bindings → Bindings
prune_expired now s = record {
  active = filter_values (is_live now) s.active;
  by_message = filter_values (is_live now) s.by_message;
  by_task = filter_values (is_live now) s.by_task;
}

-- `if task_id: self._by_task[...] = binding`
abbrev pub put_task :
    Request
    → RequestBinding
    → Dict (String × String) RequestBinding
    → Dict (String × String) RequestBinding
put_task r b d = if is_empty r.task_id then d else insert (r.opencode_session_id, r.task_id) b d

unfoldable pub bind_active : ℕ → Request → Bindings → Bindings
unfolding prune_expired new_binding
bind_active now r s =
    let p = prune_expired now s in
    let b = new_binding now r "" in
    record p { active = insert r.opencode_session_id b p.active; by_task = put_task r b p.by_task }

unfoldable pub bind_message : ℕ → String → Request → Bindings → Bindings
unfolding prune_expired new_binding
bind_message now message_id r s =
    if is_empty message_id
    then s
    else (let p = prune_expired now s in
        let b = new_binding now r message_id in
        record {
          active = insert r.opencode_session_id b p.active;
          by_message = insert (r.opencode_session_id, message_id) b p.by_message;
          by_task = put_task r b p.by_task;
        })

abbrev pub or_try : Option RequestBinding → Option RequestBinding → Option RequestBinding
or_try none other = other
or_try (some b) other = some b

-- the lookups by message and by task
unfoldable pub exact : String → String → String → Bindings → Option RequestBinding
exact opencode_session_id message_id task_id s =
    or_try
      (if is_empty message_id then none else lookup (opencode_session_id, message_id) s.by_message)
      (if is_empty task_id then none else lookup (opencode_session_id, task_id) s.by_task)

unfoldable pub resolve : ℕ → String → String → String → Bindings → Bindings × Option RequestBinding
unfolding prune_expired exact
resolve now opencode_session_id message_id task_id s =
    let p = prune_expired now s in
    (
      p,
      if_kept (is_live now) (
          or_try (exact opencode_session_id message_id task_id p)
            (lookup opencode_session_id p.active)),
    )

unfoldable pub resolve_exact :
    ℕ → String → String → String → Bool → Bindings → Bindings × Option RequestBinding
unfolding prune_expired exact
resolve_exact now opencode_session_id message_id task_id include_completed s =
    let p = if include_completed then s else prune_expired now s in
    (
      p,
      if_kept (λ b. (include_completed || not b.completed) && ltb now b.expires_at)
          (exact opencode_session_id message_id task_id p),
    )

finish : String → RequestBinding → RequestBinding
finish request_id b = if b.request_id == request_id then record b { completed = true } else b

unfoldable pub complete : String → Bindings → Bindings
unfolding finish
complete request_id s = record {
  active = map_values (finish request_id) s.active;
  by_message = map_values (finish request_id) s.by_message;
  by_task = map_values (finish request_id) s.by_task;
}
