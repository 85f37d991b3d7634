-- ===== src/SessionStore/Load.antt =====
-- `SessionStore.load` of session_store.py. The interpreter's conversions are parameters.
use engineering_flow_platfor.Base.Interpreter.{Conversions}
use engineering_flow_platfor.Base.{
  ℕ, suc, ◌-◌, ◌/◌, ◌^◌, String, Bool, true, false, Option, none, some, [], ◌∷◌, eqb, if◌then◌else◌,
  nat_eq, string_eq, pair_eq, is_empty, strip, Dict, insert,
}
use engineering_flow_platfor.Base.Value.{
  ℤ, pos, negsuc, Value, bool, int, decimal, str, dict, Fields, end, field, truthy, or_else, get,
  has, to_text,
}
use engineering_flow_platfor.SessionStore.{
  SessionRecord, Index, unreadable, payload, Disk, SessionStore, clean_name, name_or,
}

abbrev pub int_or_zero : Option ℤ → ℤ
int_or_zero none = pos 0
int_or_zero (some n) = n

-- `int(m / 10^k)`, towards zero
abbrev pub truncated : ℤ → ℕ → ℤ
truncated (pos n) k = pos (n / 10 ^ k)
truncated (negsuc n) k = if eqb (suc n / 10 ^ k) 0 then pos 0 else negsuc (suc n / 10 ^ k - 1)

unfoldable pub safe_int : Conversions → Value → ℤ
safe_int c (int n) = int_or_zero (c.int_of_float n)
safe_int c (decimal m k) = truncated m k
safe_int c (str s) = if is_empty (strip s) then pos 0 else int_or_zero (c.int_of_text (strip s))
safe_int c _ = pos 0

abbrev pub get_or : String → Value → Fields → Value
get_or k v fs = if has k fs then get k fs else v

abbrev pub text_or_none : Value → Option String
text_or_none (str s) = some s
text_or_none _ = none

-- `SessionRecord(**kwargs)` of one entry
unfoldable pub of_fields : Conversions → String → String → Fields → SessionRecord
unfolding safe_int
of_fields c now portal_id raw = record {
  portal_session_id = to_text c.repr (get_or "portal_session_id" (str portal_id) raw);
  opencode_session_id =
      to_text c.repr (or_else (get_or "opencode_session_id" (str "") raw) (str ""));
  title = to_text c.repr (or_else (get_or "title" (str "Chat") raw) (str "Chat"));
  agent = text_or_none (get "agent" raw);
  model = text_or_none (get "model" raw);
  created_at = name_or (text_or_none (get "created_at" raw)) now;
  updated_at = name_or (text_or_none (get "updated_at" raw)) now;
  last_message = name_or (text_or_none (get "last_message" raw)) "";
  message_count = safe_int c (get "message_count" raw);
  deleted = truthy (get_or "deleted" (bool false) raw);
  partial_recovery = truthy (get_or "partial_recovery" (bool false) raw);
  custom_title = clean_name (get "custom_title" raw);
  generated_title = clean_name (get "generated_title" raw);
}

-- `if kwargs["opencode_session_id"]: loaded[...] = ...`
unfoldable pub load_record :
    String → SessionRecord → Dict String SessionRecord → Dict String SessionRecord
load_record portal_id r loaded =
    if is_empty r.opencode_session_id then loaded else insert portal_id r loaded

abbrev pub load_entry :
    Conversions → String → String → Value → Dict String SessionRecord → Dict String SessionRecord
load_entry c now portal_id (dict raw) loaded =
    load_record portal_id (of_fields c now portal_id raw) loaded
load_entry c now portal_id _ loaded = loaded

unfoldable pub load_entries :
    Conversions → String → Fields → Dict String SessionRecord → Dict String SessionRecord
load_entries c now end loaded = loaded
load_entries c now (field k v fs) loaded = load_entries c now fs (load_entry c now k v loaded)

-- `moved` tells whether the file could be moved to its backup
unfoldable pub quarantine_corrupt_index : Bool → Disk → Disk
quarantine_corrupt_index moved d = elim d.index [
  | none ↦ d
  | some i ↦ if moved then record { index = none; backups = i ∷ d.backups } else d
]

unfoldable pub loaded_sessions : Conversions → String → Fields → Dict String SessionRecord
loaded_sessions c now sessions = load_entries c now sessions []

abbrev pub sessions_of : Conversions → String → Value → Dict String SessionRecord
sessions_of c now (dict fs) = loaded_sessions c now fs
sessions_of c now _ = []

-- the sessions that are read, and whether the file is corrupt
abbrev pub read_index : Conversions → String → Option Index → Dict String SessionRecord × Bool
read_index c now none = ([], false)
read_index c now (some unreadable) = ([], true)
read_index c now (some (payload (dict fs))) =
    (sessions_of c now (get_or "sessions" (dict end) fs), false)
read_index c now (some (payload _)) = ([], true)

unfoldable pub load : Conversions → String → Bool → SessionStore → SessionStore
unfolding quarantine_corrupt_index
load c now moved s =
    let read = read_index c now s.disk.index in
    record {
      disk = if read.1 then quarantine_corrupt_index moved s.disk else s.disk;
      sessions = read.0;
    }
