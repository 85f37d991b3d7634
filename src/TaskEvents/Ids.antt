-- ===== src/TaskEvents/Ids.antt =====
-- tasks_api.py: the ids of sessions and messages in an event or a message, and whether it belongs to
-- a task.
use engineering_flow_platfor.Base.{
  ℕ, zero, suc, ◌≤◌, max, String, ◌≡◌, refl, sym, inl, inr, Bool, true, false, not, ◌&&◌, ◌||◌,
  Option, none, some, List, [], ◌∷◌, ◌++◌, arith, if◌then◌else◌, ◌==◌, nat_eq, string_eq, pair_eq,
  Bool-cases, contains, is_nil, is_empty, strip,
}
use engineering_flow_platfor.Base.Value.{
  Value, null, bool, int, decimal, str, list, dict, Items, nil, cons, Fields, end, field, or_else,
  as_dict, is_dict, get, to_text,
}
use engineering_flow_platfor.Base.Interpreter.{Texts}
use engineering_flow_platfor.SessionStore.Titles.{starts_with}
use engineering_flow_platfor.TaskStore.{TaskRecord}
use engineering_flow_platfor.TaskCompletion.Extract.{has_text}

-- a text that is not empty, the empty text for any other value
abbrev pub text_of : Value → String
text_of (str s) = s
text_of _ = ""

abbrev pub is_text : Value → Bool
is_text (str s) = true
is_text _ = false

-- the first key that has a text which is not empty
unfoldable pub first_key : List String → Fields → String
first_key [] fields = ""
first_key (key ∷ names) fields =
    let rest = first_key names fields in
    if is_empty (text_of (get key fields)) then rest else text_of (get key fields)

-- the texts of these keys that are not empty
unfoldable pub key_texts : List String → Fields → List String
key_texts [] fields = []
key_texts (key ∷ names) fields =
    let rest = key_texts names fields in
    if is_empty (text_of (get key fields)) then rest else text_of (get key fields) ∷ rest

unfoldable pub looks_structured_terminal_text : String → Bool
looks_structured_terminal_text text =
    starts_with "{" (strip text) && has_text "\"status\"" (strip text)

unfoldable pub canonical_event : Fields → Fields
canonical_event event =
    if is_dict (get "payload" event) && is_text (get "type" (as_dict (get "payload" event)))
    then as_dict (get "payload" event)
    else event

unfoldable mutual
  pub collect_str_values : List String → Value → List String
  collect_str_values names (dict fields) = collect_fields names fields
  collect_str_values names (list items) = collect_items names items
  collect_str_values names _ = []

  pub collect_fields : List String → Fields → List String
  collect_fields names end = []
  collect_fields names (field k v fields) =
      let inner = collect_str_values names v ++ collect_fields names fields in
      if contains k names && not (is_empty (text_of v)) then text_of v ∷ inner else inner

  pub collect_items : List String → Items → List String
  collect_items names nil = []
  collect_items names (cons v items) = collect_str_values names v ++ collect_items names items

unfoldable pub event_type : Texts → Fields → String
event_type t event =
    let canonical = canonical_event event in
    t.lower
      (to_text t.repr (or_else (or_else (get "type" canonical) (get "event" canonical)) (str "")))

unfoldable pub session_ids_from_event_or_message : Fields → List String
session_ids_from_event_or_message event =
    collect_str_values ("session_id" ∷ "sessionID" ∷ "opencode_session_id" ∷ []) (dict event)

abbrev pub message_keys : List String
message_keys = "messageID" ∷ "messageId" ∷ "message_id" ∷ []

-- The search for message ids visits the dicts below five keys, in this order. It looks as deep as the
-- event goes, which `depth_of` bounds.
unfoldable mutual
  pub depth_of : Value → ℕ
  depth_of (dict fields) = suc (depth_fields fields)
  depth_of _ = 0

  pub depth_fields : Fields → ℕ
  depth_fields end = 0
  depth_fields (field k v fields) = max (depth_of v) (depth_fields fields)

unfoldable pub message_ids_within : ℕ → Value → List String
unfolding key_texts
message_ids_within zero v = []
message_ids_within (suc depth) (dict value) =
    key_texts ("message_id" ∷ "messageID" ∷ "messageId" ∷ "parentID" ∷ "parent_id" ∷ []) value
    ++ key_texts ("id" ∷ "parentID" ∷ "parent_id" ∷ message_keys) (as_dict (get "info" value))
    ++ key_texts message_keys (as_dict (get "part" value))
    ++ message_ids_within depth (get "properties" value)
    ++ message_ids_within depth (get "message" value)
    ++ message_ids_within depth (get "data" value)
    ++ message_ids_within depth (get "payload" value)
    ++ key_texts message_keys (as_dict (get "permission" value))
message_ids_within (suc depth) _ = []

unfoldable pub message_ids_from_event_or_message : Fields → List String
message_ids_from_event_or_message event = message_ids_within (depth_of (dict event)) (dict event)

-- the ids that a task knows, without those that are empty
abbrev pub given : Option String → List String
given none = []
given (some s) = if is_empty s then [] else s ∷ []

abbrev pub tracked_ids : TaskRecord → List String
tracked_ids r = given r.opencode_message_id ++ given r.opencode_prompt_id

abbrev pub any_in : List String → List String → Bool
any_in [] ids = false
any_in (x ∷ xs) ids = contains x ids || any_in xs ids

unfoldable pub event_matches_task : Texts → TaskRecord → Fields → Bool
event_matches_task t r event =
    let canonical = canonical_event event in
    let message_ids = message_ids_from_event_or_message canonical in
    let same_task =
      is_text (get "task_id" canonical) && text_of (get "task_id" canonical) == r.task_id in
    if same_task
    then true
    else if not (contains r.opencode_session_id (session_ids_from_event_or_message canonical))
    then false
    else if is_nil (tracked_ids r)
    then true
    else if is_nil message_ids
    then starts_with "permission." (event_type t canonical)
    else any_in message_ids (tracked_ids r)

depth_of-get : (key : String) (fields : Fields) → depth_of (get key fields) ≤ depth_fields fields
unfolding depth_of
depth_of-get key end = omega arith
depth_of-get key (field k v fields) = elim (Bool-cases (k == key)) [
  | inl same ↦ rw same (omega arith)
  | inr other ↦ rw other (omega (arith, depth_of-get key fields))
]

no_ids : (n : ℕ) (v : Value) → depth_of v ≤ 0 → message_ids_within n v ≡ []
unfolding message_ids_within depth_of
no_ids zero v h = refl
no_ids (suc n) (dict fields) h = absurd (omega (arith, h))
no_ids (suc n) null h = refl
no_ids (suc n) (bool b) h = refl
no_ids (suc n) (int k) h = refl
no_ids (suc n) (decimal m k) h = refl
no_ids (suc n) (str s) h = refl
no_ids (suc n) (list items) h = refl

-- Looking deeper than the event goes finds no more ids.
pub message_ids_within_lem :
    (n m : ℕ) (v : Value)
    → depth_of v ≤ n
    → depth_of v ≤ m
    → message_ids_within n v ≡ message_ids_within m v
unfolding message_ids_within depth_of
message_ids_within_lem zero m v h g = sym (no_ids m v h)
message_ids_within_lem (suc n) zero v h g = no_ids (suc n) v g
message_ids_within_lem (suc n) (suc m) (dict value) h g =
    rw
      (
        message_ids_within_lem n m (get "properties" value)
            (omega (arith, h, depth_of-get "properties" value))
            (omega (arith, g, depth_of-get "properties" value)),
        message_ids_within_lem n m (get "message" value)
            (omega (arith, h, depth_of-get "message" value))
            (omega (arith, g, depth_of-get "message" value)),
        message_ids_within_lem n m (get "data" value) (omega (arith, h, depth_of-get "data" value))
            (omega (arith, g, depth_of-get "data" value)),
        message_ids_within_lem n m (get "payload" value)
            (omega (arith, h, depth_of-get "payload" value))
            (omega (arith, g, depth_of-get "payload" value)),
      )
      refl
message_ids_within_lem (suc n) (suc m) null h g = refl
message_ids_within_lem (suc n) (suc m) (bool b) h g = refl
message_ids_within_lem (suc n) (suc m) (int k) h g = refl
message_ids_within_lem (suc n) (suc m) (decimal i k) h g = refl
message_ids_within_lem (suc n) (suc m) (str s) h g = refl
message_ids_within_lem (suc n) (suc m) (list items) h g = refl
