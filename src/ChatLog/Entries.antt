-- ===== src/ChatLog/Entries.antt =====
-- chatlog_store.py: the payload of a log, and what each method makes of it. What raises, since a part
-- of the payload is no list or dict, is none.
use engineering_flow_platfor.Base.{
  ℕ, String, Bool, false, Option, none, some, if◌then◌else◌, ◌==◌, nat_eq, string_eq, pair_eq,
}
use engineering_flow_platfor.Base.Value.{
  Value, str, list, dict, Items, nil, cons, Fields, end, field, or_else, get, has, put,
}
use engineering_flow_platfor.TaskEvents.Compact.{append_item}

-- `safe_preview` of a value within a number of characters
abbrev pub Preview : Type 0
Preview = ℕ → Value → Value

-- the arguments that a caller may leave out
pub record Given : Type 0 where
  pub runtime_events : Option Value
  pub events : Option Value
  pub context_state : Option Value
  pub llm_debug : Option Value

abbrev pub fresh_payload : String → String → Fields
fresh_payload time session_id = field "session_id" (str session_id) (
    field "engine" (str "opencode")
      (field "entries" (list nil) (field "updated_at" (str time) end)))

-- `payload.setdefault("entries", [])`, if it is a list
abbrev pub entries_of : Fields → Option Items
entries_of d =
    if has "entries" d
    then (elim (get "entries" d) [ list entries ↦ some entries | other ↦ none ])
    else some nil

abbrev pub is_text_of : String → Value → Bool
is_text_of s (str t) = t == s
is_text_of s _ = false

-- `_find_entry`: the last entry of a request, between those before and after it
pub data Search : Type 0 where
  broken missing : Search
  at : Items → Fields → Items → Search

abbrev pub before_all : Value → Search → Search
before_all entry (at before e after) = at (cons entry before) e after
before_all entry other = other

abbrev pub this_or : String → Value → Items → Search → Search
this_or request_id (dict e) rest missing =
    if is_text_of request_id (get "request_id" e) then at nil e rest else missing
this_or request_id entry rest missing = broken
this_or request_id entry rest later = before_all entry later

unfoldable pub find_entry : String → Items → Search
find_entry request_id nil = missing
find_entry request_id (cons entry rest) =
    let later = find_entry request_id rest in this_or request_id entry rest later

abbrev pub join : Items → Items → Items
join nil after = after
join (cons x before) after = cons x (join before after)

abbrev pub entry_with : String → String → Value → Value → Value → Value → Fields
entry_with time request_id message runtime_events context_state llm_debug =
    field "request_id" (str request_id) (
      field "status" (str "running") (
        field "message" message (
          field "response" (str "") (
            field "events" (list nil) (
              field "runtime_events" runtime_events (
                field "context_state" context_state (
                  field "llm_debug" llm_debug
                    (field "created_at" (str time) (field "finished_at" (str "") end)))))))))

abbrev pub new_entry : String → String → Fields
new_entry time request_id = entry_with time request_id (str "") (list nil) (dict end) (dict end)

abbrev pub with_entries : String → Items → Fields → Fields
with_entries time entries d = put "updated_at" (str time) (put "entries" (list entries) d)

-- `given or default`
abbrev pub given_or : Option Value → Value → Value
given_or none default = default
given_or (some v) default = or_else v default

unfoldable pub start_payload : Preview → String → String → String → Given → Fields → Option Fields
start_payload preview time request_id message g d = elim (entries_of d) [
  | none ↦ none
  | some entries ↦
      let entry =
        entry_with time request_id (preview 2000 (str message))
          (preview 4000 (given_or g.runtime_events (list nil)))
          (preview 4000 (given_or g.context_state (dict end)))
          (preview 4000 (given_or g.llm_debug (dict end))) in
      some (with_entries time (append_item entries (dict entry)) d)
]

abbrev pub stored : String → Fields → Items → Option Fields → Items → Option Fields
stored time d before none after = none
stored time d before (some e) after = some (with_entries time (join before (cons (dict e) after)) d)

-- what the methods do to the last entry of a request, or to a new one at the end
unfoldable pub change_entry : String → String → (Fields → Option Fields) → Fields → Option Fields
unfolding find_entry
change_entry time request_id change d = elim (entries_of d) [
  | none ↦ none
  | some entries ↦ elim (find_entry request_id entries) [
    | broken ↦ none
    | missing ↦ stored time d entries (change (new_entry time request_id)) nil
    | at before e after ↦ stored time d before (change e) after
  ]
]

-- `given if given is not None else e.get(key, default)`
abbrev pub given_or_kept : Option Value → String → Value → Fields → Value
given_or_kept (some v) key default e = v
given_or_kept none key default e = if has key e then get key e else default

abbrev pub finished : Preview → String → String → String → Given → Fields → Fields
finished preview time status response g e = put "finished_at" (str time) (
    put "llm_debug" (preview 4000 (given_or_kept g.llm_debug "llm_debug" (dict end) e)) (
      put "context_state"
        (preview 4000 (given_or_kept g.context_state "context_state" (dict end) e))
        (put "events" (preview 4000 (given_or_kept g.events "events" (list nil) e)) (
          put "runtime_events"
            (preview 4000 (given_or_kept g.runtime_events "runtime_events" (list nil) e))
            (put "response" (preview 2000 (str response)) (put "status" (str status) e))))))

unfoldable pub finish_payload :
    Preview → String → String → String → String → Given → Fields → Option Fields
unfolding change_entry
finish_payload preview time request_id status response g d =
    change_entry time request_id (λ e. some (finished preview time status response g e)) d

-- `e.setdefault(key, []).append(event)`
abbrev pub appended : String → Value → Fields → Option Fields
appended key event e =
    if has key e
    then (elim (get key e) [
      | list events ↦ some (put key (list (append_item events event)) e)
      | other ↦ none
    ])
    else some (put key (list (cons event nil)) e)

unfoldable pub append_payload : Preview → String → String → Value → Bool → Fields → Option Fields
unfolding change_entry
append_payload preview time request_id event runtime d =
    change_entry time request_id
      (appended (if runtime then "runtime_events" else "events") (preview 1000 event)) d
