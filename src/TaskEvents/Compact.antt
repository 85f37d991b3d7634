-- ===== src/TaskEvents/Compact.antt =====
-- tasks_api.py: the shortened form of a task's payload.
use Prim.Native.String.{◌++◌ as text_append}
use engineering_flow_platfor.Base.{
  ℕ, zero, suc, ◌-◌, String, Bool, true, false, not, ◌&&◌, List, [], ◌∷◌, ltb, leb, if◌then◌else◌,
  nat_eq, string_eq, pair_eq, contains,
}
use engineering_flow_platfor.Base.Value.{
  pos, Value, bool, int, str, list, dict, Items, nil, cons, Fields, end, field, put, size,
}

abbrev pub task_status_event_tail_items : ℕ
task_status_event_tail_items = 10

abbrev pub task_status_max_text_chars : ℕ
task_status_max_text_chars = 20_000

abbrev pub task_status_max_list_items : ℕ
task_status_max_list_items = 50

abbrev pub task_status_max_dict_items : ℕ
task_status_max_dict_items = 100

abbrev pub task_status_max_depth : ℕ
task_status_max_depth = 6

abbrev pub task_status_event_keys : List String
task_status_event_keys = "runtime_events" ∷ "events" ∷ "thinking_events" ∷ []

abbrev pub task_status_omit_keys : List String
task_status_omit_keys = "result" ∷ "raw_agent_payload" ∷ "_llm_debug" ∷ []

abbrev pub characters : String → ℕ
characters String.[] = 0
characters (String.◌∷◌ c s) = suc (characters s)

abbrev pub first : ℕ → String → String
first zero s = ""
first (suc n) String.[] = ""
first (suc n) (String.◌∷◌ c s) = String.◌∷◌ c (first n s)

abbrev pub number : ℕ → Value
number n = int (pos n)

abbrev pub omitted : Value
omitted =
    dict (
      field "_omitted" (bool true)
        (field "reason" (str "available_in_full_task_json_download") end))

abbrev pub field_count : Fields → ℕ
field_count end = 0
field_count (field k v fields) = suc (field_count fields)

-- `key` is the empty text where none is given, which is in neither set
abbrev pub is_event_key : String → Bool
is_event_key key = contains key task_status_event_keys

-- how many items stand before those that are kept, and how many are kept
abbrev pub skipped_items : String → Items → ℕ
skipped_items key items = if is_event_key key then size items - task_status_event_tail_items else 0

abbrev pub kept_items : String → ℕ
kept_items key =
    if is_event_key key then task_status_event_tail_items else task_status_max_list_items

abbrev pub append_item : Items → Value → Items
append_item nil v = cons v nil
append_item (cons x items) v = cons x (append_item items v)

-- the note on the items and on the keys that are left out
abbrev pub note_items : String → ℕ → Items → Items
note_items key n items =
    if not (is_event_key key) && ltb task_status_max_list_items n
    then append_item items
        (dict (field "_truncated_items_count" (number (n - task_status_max_list_items)) end))
    else items

abbrev pub note_keys : ℕ → Fields → Fields
note_keys n fields =
    if ltb task_status_max_dict_items n
    then put "_truncated_keys_count" (number (n - task_status_max_dict_items)) fields
    else fields

module _ (repr : Value → String) where
  unfoldable pub truncate_task_status_text : String → String
  truncate_task_status_text s =
      if leb (characters s) task_status_max_text_chars
      then s
      else text_append (first task_status_max_text_chars s) (
          text_append "...[truncated " (
            text_append (repr (number (characters s - task_status_max_text_chars)))
              " chars; full JSON is available from the task result download]"))

  unfoldable mutual
    unfolding truncate_task_status_text

    pub compact_value : String → ℕ → Value → Value
    compact_value key depth (dict fields) =
        let inner = compact_fields task_status_max_dict_items (suc depth) fields in
        if contains key task_status_omit_keys
        then omitted
        else if leb task_status_max_depth depth
        then str (truncate_task_status_text (repr (dict fields)))
        else dict (note_keys (field_count fields) inner)
    compact_value key depth (list items) =
        let inner = compact_items (skipped_items key items) (kept_items key) (suc depth) items in
        if contains key task_status_omit_keys
        then omitted
        else if leb task_status_max_depth depth
        then str (truncate_task_status_text (repr (list items)))
        else list (note_items key (size items) inner)
    compact_value key depth (str s) =
        if contains key task_status_omit_keys then omitted else str (truncate_task_status_text s)
    compact_value key depth v = if contains key task_status_omit_keys then omitted else v

    pub compact_fields : ℕ → ℕ → Fields → Fields
    compact_fields zero depth fields = end
    compact_fields (suc n) depth end = end
    compact_fields (suc n) depth (field k v fields) =
        field k (compact_value k depth v) (compact_fields n depth fields)

    pub compact_items : ℕ → ℕ → ℕ → Items → Items
    compact_items skip keep depth nil = nil
    compact_items (suc skip) keep depth (cons v items) = compact_items skip keep depth items
    compact_items zero zero depth (cons v items) = nil
    compact_items zero (suc keep) depth (cons v items) =
        cons (compact_value "" depth v) (compact_items zero keep depth items)

  abbrev pub is_list : Value → Bool
  is_list (list items) = true
  is_list _ = false

  abbrev pub items_of : Value → Items
  items_of (list items) = items
  items_of _ = nil

  -- a list of events, with its length and whether it was cut
  abbrev pub put_events : String → Value → Fields → Fields
  put_events key v compact =
      put (text_append key "_truncated")
        (bool (ltb task_status_event_tail_items (size (items_of v))))
        (put (text_append key "_count") (number (size (items_of v)))
          (put key (compact_value key 0 v) compact))

  unfoldable pub compact_keys : Fields → Fields → Fields
  compact_keys end compact = compact
  compact_keys (field key v payload) compact = compact_keys payload (
      if is_event_key key && is_list v
      then put_events key v compact
      else put key (compact_value key 0 v) compact)

  unfoldable pub compact_public_task_payload : Fields → Fields
  unfolding compact_keys
  compact_public_task_payload payload =
      put "full_payload_available" (bool true) (compact_keys payload end)
