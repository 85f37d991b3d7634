-- ===== src/Pending.antt =====
-- efp_opencode_adapter/pending_input.py: the latest unanswered permission of each session, fed by
-- runtime events, and who has claimed it. `repr` is the interpreter's text of a number, a list or a
-- dict. `observe_event` catches every exception; none is raised by the operations modelled here.
pub mod Order
pub mod Valid
pub mod Claims
pub mod Returned
pub mod Events
mod Tests
use engineering_flow_platfor.Base.{
  ℕ, max, String, Bool, true, false, not, ◌&&◌, ◌||◌, Option, none, some, List, [], ◌∷◌, ◌++◌, ltb,
  if◌then◌else◌, ◌==◌, nat_eq, string_eq, pair_eq, length, contains, is_empty, Dict, lookup, insert,
  erase,
}
use engineering_flow_platfor.Base.Value.{
  Value, null, str, dict, Fields, end, field, truthy, or_else, as_dict, get, to_text,
}

pub record PendingPermission : Type 0 where
  pub request : Fields
  pub permission_id : String
  pub opencode_session_id : String
  pub request_id : String
  pub claimed : Bool
  pub extra : Fields

abbrev pub default_max_sessions : ℕ
default_max_sessions = 512

abbrev pub record_event_types : List String
record_event_types = "permission.requested" ∷ "permission_request" ∷ []

abbrev pub resolved_event_types : List String
resolved_event_types = "permission.resolved" ∷ "permission_resolved" ∷ []

abbrev pub run_ended_event_types : List String
run_ended_event_types = "chat.completed" ∷ "chat.failed" ∷ []

abbrev pub clear_event_types : List String
clear_event_types = resolved_event_types ++ run_ended_event_types

pub record PendingInput : Type 0 where
  pub max_sessions : ℕ
  pub pending : Dict String PendingPermission

abbrev pub new_store : ℕ → PendingInput
new_store max_sessions = record { max_sessions = max 1 max_sessions; pending = [] }

-- `bool(types & kinds)`, where `types` leaves out the empty text
abbrev pub intersects : List String → List String → Bool
intersects [] kinds = false
intersects (t ∷ types) kinds = (not (is_empty t) && contains t kinds) || intersects types kinds

-- `v if isinstance(v, dict) and v.get(key)`: the text of a key of a nested dict, or nothing
abbrev pub nested : Value → String → Value
nested v key = get key (as_dict v)

module _ (repr : Value → String) where
  unfoldable pub event_type : Fields → String
  event_type event =
      to_text repr (or_else (get "type" event) (or_else (get "event_type" event) (str "")))

  unfoldable pub legacy_type : Fields → String
  legacy_type event =
      to_text repr
        (or_else (get "legacy_type" event) (or_else (get "legacy_event_type" event) (str "")))

  unfoldable pub event_session_id : Fields → String
  event_session_id event =
      if truthy (get "session_id" event)
      then to_text repr (get "session_id" event)
      else if truthy (nested (get "data" event) "session_id")
      then to_text repr (nested (get "data" event) "session_id")
      else ""

  unfoldable pub event_permission_id : Fields → String
  event_permission_id event =
      if truthy (get "permission_id" event)
      then to_text repr (get "permission_id" event)
      else if truthy (nested (get "data" event) "permission_id")
      then to_text repr (nested (get "data" event) "permission_id")
      else if truthy (nested (get "data" event) "id")
      then to_text repr (nested (get "data" event) "id")
      else ""

  -- the id under which a request is recorded
  unfoldable pub requested_id : Fields → String
  requested_id request =
      to_text repr
        (or_else (get "permission_id" request) (or_else (get "request_id" request) (str "")))

  -- `existing is not None and existing.permission_id == permission_id and existing.claimed`
  abbrev pub still_claimed : Option PendingPermission → String → Bool
  still_claimed none id = false
  still_claimed (some e) id = (e.permission_id == id) && e.claimed

  unfoldable pub pending_of : Fields → Fields → Option PendingPermission → PendingPermission
  unfolding requested_id
  pending_of event request existing = record {
    request = request;
    permission_id = requested_id request;
    opencode_session_id = to_text repr (
        or_else (get "opencode_session_id" event)
          (or_else (get "opencode_session_id" request) (str "")));
    request_id = to_text repr (or_else (get "request_id" event) (str ""));
    claimed = still_claimed existing (requested_id request);
    extra = end;
  }

-- `OrderedDict.move_to_end(k)`
move_at :
    String
    → Dict String PendingPermission
    → Option PendingPermission
    → Dict String PendingPermission
move_at k d none = d
move_at k d (some e) = erase k d ++ (k, e) ∷ []

unfoldable pub move_to_end : String → Dict String PendingPermission → Dict String PendingPermission
unfolding move_at
move_to_end k d = move_at k d (lookup k d)

-- `while len(self._pending) > self.max_sessions: self._pending.popitem(last=False)`
unfoldable pub evict : ℕ → Dict String PendingPermission → Dict String PendingPermission
evict m [] = []
evict m (e ∷ d) = let rest = evict m d in if ltb m (length (e ∷ d)) then rest else e ∷ d

-- `permission_id` is the empty text for `None`, which is as falsy
clear_at : String → String → Option PendingPermission → PendingInput → PendingInput
clear_at session_id permission_id none s = s
clear_at session_id permission_id (some e) s =
    if not (is_empty permission_id) && not (e.permission_id == permission_id)
    then s
    else record s { pending = erase session_id s.pending }

unfoldable pub clear : String → String → PendingInput → PendingInput
unfolding clear_at
clear session_id permission_id s = clear_at session_id permission_id (lookup session_id s.pending) s

-- `self._pending[session_id] = …`, `move_to_end` and the eviction
unfoldable pub remember : String → PendingPermission → PendingInput → PendingInput
unfolding move_to_end evict
remember session_id e s = record s {
  pending = evict s.max_sessions (move_to_end session_id (insert session_id e s.pending));
}

module _ (repr : Value → String) where
  observe_request : Fields → String → Value → PendingInput → PendingInput
  unfolding requested_id pending_of remember
  observe_request event session_id (dict request) s =
      if is_empty (requested_id repr request)
      then s
      else remember session_id (pending_of repr event request (lookup session_id s.pending)) s
  observe_request event session_id _ s = s

  -- the event's two types
  abbrev pub types_of : Fields → List String
  types_of event = event_type repr event ∷ legacy_type repr event ∷ []

  -- the permission that a clearing event names; a run that ends names none
  abbrev pub resolved_id : Fields → String
  resolved_id event =
      if intersects (types_of event) resolved_event_types
      then event_permission_id repr event
      else ""

  abbrev pub is_replayed : Fields → Bool
  is_replayed event = truthy (nested (get "metadata" event) "replayed")

  unfoldable pub observe_event : Value → PendingInput → PendingInput
  unfolding event_type legacy_type event_session_id event_permission_id clear observe_request
  observe_event (dict event) s =
      if is_replayed event || is_empty (event_session_id repr event)
      then s
      else if intersects (types_of event) clear_event_types
      then clear (event_session_id repr event) (resolved_id event) s
      else if not (intersects (types_of event) record_event_types)
      then s
      else observe_request event (event_session_id repr event)
          (nested (get "data" event) "permission_request") s
  observe_event _ s = s

unfoldable pub snapshot : String → PendingInput → Fields
snapshot session_id s =
    let entry = lookup session_id s.pending in
    field "session_id" (str session_id) (
      field "question_request" null (
        field "permission_request" (elim entry [ none ↦ null | some e ↦ dict e.request ])
          (field "last_execution_id" (elim entry [ none ↦ null | some e ↦ str e.request_id ]) end)))

pub set_claimed : Bool → String → PendingPermission → PendingInput → PendingInput
set_claimed b session_id e s = record s {
  pending = insert session_id (record e { claimed = b }) s.pending;
}

claim_at : String → String → Option PendingPermission → PendingInput → PendingInput × Bool
unfolding set_claimed
claim_at session_id permission_id none s = (s, false)
claim_at session_id permission_id (some e) s =
    if not (e.permission_id == permission_id) || e.claimed
    then (s, false)
    else (set_claimed true session_id e s, true)

unfoldable pub claim : String → String → PendingInput → PendingInput × Bool
unfolding claim_at
claim session_id permission_id s = claim_at session_id permission_id (lookup session_id s.pending) s

release_at : String → String → Option PendingPermission → PendingInput → PendingInput
unfolding set_claimed
release_at session_id permission_id none s = s
release_at session_id permission_id (some e) s =
    if e.permission_id == permission_id then set_claimed false session_id e s else s

unfoldable pub release : String → String → PendingInput → PendingInput
unfolding release_at
release session_id permission_id s =
    release_at session_id permission_id (lookup session_id s.pending) s
