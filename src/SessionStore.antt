-- ===== src/SessionStore.antt =====
-- efp_opencode_adapter/session_store.py: the Portal's sessions, in memory and in index.json. The
-- clock is an argument of the methods that read it. What `json` writes and reads back is the value.
use engineering_flow_platfor.Base.{
  ◌+◌, String, Bool, true, false, not, ◌||◌, Option, none, some, List, [], ◌∷◌, map, if◌then◌else◌,
  ◌==◌, nat_eq, string_eq, pair_eq, select, is_empty, strip, Dict, values, lookup, insert,
}
use engineering_flow_platfor.Base.Value.{
  ℤ, pos, negsuc, Value, null, bool, int, str, dict, Fields, end, field,
}
pub mod Load
pub mod Saved
pub mod Deleted
pub mod Names
pub mod Writes
pub mod Written
pub mod Titles
pub mod Status
pub mod Refined
mod Tests

pub record SessionRecord : Type 0 where
  pub portal_session_id : String
  pub opencode_session_id : String
  pub title : String
  pub agent : Option String
  pub model : Option String
  pub created_at : String
  pub updated_at : String
  pub last_message : String
  pub message_count : ℤ
  pub deleted : Bool
  pub partial_recovery : Bool
  pub custom_title : Option String
  pub generated_title : Option String

-- a file that is no JSON, or the value in it
pub data Index : Type 0 where
  unreadable : Index
  payload : Value → Index

pub record Disk : Type 0 where
  pub index : Option Index
  pub backups : List Index

pub record SessionStore : Type 0 where
  pub disk : Disk
  pub sessions : Dict String SessionRecord

-- `_clean_name` of a text
unfoldable pub clean_text : String → Option String
clean_text s = if is_empty (strip s) then none else some (strip s)

abbrev pub clean_name : Value → Option String
clean_name (str s) = clean_text s
clean_name _ = none

abbrev pub clean_option : Option String → Option String
clean_option none = none
clean_option (some s) = clean_text s

abbrev pub or_name : Option String → Option String → Option String
or_name none other = other
or_name (some s) other = some s

abbrev pub name_or : Option String → String → String
name_or none other = other
name_or (some s) other = s

abbrev pub is_some {ℓ} : {A : Type ℓ} → Option A → Bool
is_some none = false
is_some (some a) = true

unfoldable pub session_display_name : SessionRecord → String
session_display_name r =
    name_or
      (or_name (or_name (clean_option r.custom_title) (clean_option r.generated_title))
        (clean_text r.title))
      "Chat"

unfoldable pub session_name_source : SessionRecord → String
session_name_source r =
    if is_some (clean_option r.custom_title)
    then "custom"
    else if is_some (clean_option r.generated_title)
    then "generated"
    else if is_some (clean_text r.title)
    then "derived"
    else "none"

-- the fields of the published metadata
unfoldable pub session_title_metadata : Option SessionRecord → Fields
unfolding session_name_source
session_title_metadata none = end
session_title_metadata (some r) =
    let source = session_name_source r in
    if source == "custom" || source == "generated"
    then field "session_title" (str (session_display_name r)) end
    else end

abbrev pub optional : Option String → Value
optional none = null
optional (some s) = str s

-- `asdict`
abbrev pub to_fields : SessionRecord → Fields
to_fields r = field "portal_session_id" (str r.portal_session_id) (
    field "opencode_session_id" (str r.opencode_session_id) (
      field "title" (str r.title) (
        field "agent" (optional r.agent) (
          field "model" (optional r.model) (
            field "created_at" (str r.created_at) (
              field "updated_at" (str r.updated_at) (
                field "last_message" (str r.last_message) (
                  field "message_count" (int r.message_count) (
                    field "deleted" (bool r.deleted) (
                      field "partial_recovery" (bool r.partial_recovery) (
                        field "custom_title" (optional r.custom_title)
                          (field "generated_title" (optional r.generated_title) end))))))))))))

unfoldable pub all_fields : Dict String SessionRecord → Fields
all_fields [] = end
all_fields ((k, r) ∷ d) = field k (dict (to_fields r)) (all_fields d)

unfoldable pub save : SessionStore → SessionStore
unfolding all_fields
save s = record s {
  disk = record s.disk {
    index = some (payload (dict (field "sessions" (dict (all_fields s.sessions)) end)));
  };
}

unfoldable pub list_active : SessionStore → List SessionRecord
list_active s = select (λ r. not r.deleted) (values s.sessions)

unfoldable pub get_session : String → SessionStore → Option SessionRecord
get_session id s = lookup id s.sessions

-- the first record with this OpenCode session
unfoldable pub first_with : String → List SessionRecord → Option SessionRecord
first_with id [] = none
first_with id (r ∷ rs) = if r.opencode_session_id == id then some r else first_with id rs

unfoldable pub find_by_opencode_session_id : String → SessionStore → Option SessionRecord
unfolding list_active
find_by_opencode_session_id id s = first_with id (list_active s)

unfoldable pub upsert : SessionRecord → SessionStore → SessionStore
unfolding save
upsert r s = save (record s { sessions = insert r.portal_session_id r s.sessions })

-- What a method returns, with the store it leaves; `missing` is KeyError.
pub data Outcome : Type 0 where
  returned : SessionRecord → Outcome
  absent : Outcome
  missing : Outcome
  session_deleted : Outcome

unfoldable pub rename : String → String → String → SessionStore → SessionStore × Outcome
rename now id title s = elim (lookup id s.sessions) [
  | none ↦ (s, missing)
  | some r ↦
      let updated = record r { title = title; custom_title = some title; updated_at = now } in
      (upsert updated s, returned updated)
]

unfoldable pub set_generated_title : String → String → SessionStore → SessionStore × Outcome
set_generated_title id title s = elim (lookup id s.sessions) [
  | none ↦ (s, missing)
  | some r ↦
      let updated = record r { generated_title = clean_text title } in
      (upsert updated s, returned updated)
]

unfoldable pub mark_deleted : String → String → SessionStore → SessionStore × Outcome
mark_deleted now id s = elim (lookup id s.sessions) [
  | none ↦ (s, absent)
  | some r ↦
      let updated = record r { deleted = true; updated_at = now } in
      (upsert updated s, returned updated)
]

-- the records that `clear` writes, and the entries it leaves; `now` reads the clock for a record
abbrev pub cleared_record : (SessionRecord → String) → SessionRecord → SessionRecord
cleared_record now r = record r { deleted = true; updated_at = now r }

unfoldable pub write_cleared :
    (SessionRecord → String)
    → List SessionRecord
    → Dict String SessionRecord
    → Dict String SessionRecord
write_cleared now [] d = d
write_cleared now (r ∷ rs) d =
    write_cleared now rs (insert r.portal_session_id (cleared_record now r) d)

unfoldable pub clear : (SessionRecord → String) → SessionStore → SessionStore × List SessionRecord
clear now s = (
  save (record s { sessions = write_cleared now (list_active s) s.sessions }),
  map (cleared_record now) (list_active s),
)

-- `max(count + 2, 2)`
abbrev pub two_more : ℤ → ℤ
two_more (pos n) = pos (n + 2)
two_more (negsuc n) = pos 2

-- `max(0, count)`
abbrev pub not_negative : ℤ → ℤ
not_negative (pos n) = pos n
not_negative (negsuc n) = pos 0

-- `given or kept`
abbrev pub given_or : Option String → Option String → Option String
given_or none kept = kept
given_or (some s) kept = if is_empty s then kept else some s

unfoldable pub update_after_chat :
    String
    → String
    → String
    → String
    → Option String
    → Option String
    → SessionStore
    → SessionStore × Outcome
update_after_chat now id last_message assistant_text model agent s = elim (lookup id s.sessions) [
  | none ↦ (s, missing)
  | some r ↦
      let updated = record r {
        model = given_or model r.model;
        agent = given_or agent r.agent;
        last_message = if is_empty assistant_text then last_message else assistant_text;
        message_count = two_more r.message_count;
        updated_at = now;
        deleted = false;
      } in
      if r.deleted then (s, returned r) else (upsert updated s, returned updated)
]

unfoldable pub replace_opencode_session_after_mutation :
    String → String → String → ℤ → String → SessionStore → SessionStore × Outcome
replace_opencode_session_after_mutation now id opencode_session_id message_count last_message s =
    elim (lookup id s.sessions) [
      | none ↦ (s, missing)
      | some r ↦
          let updated = record r {
            opencode_session_id = opencode_session_id;
            updated_at = now;
            last_message = last_message;
            message_count = not_negative message_count;
            deleted = false;
          } in
          if r.deleted then (s, session_deleted) else (upsert updated s, returned updated)
    ]
