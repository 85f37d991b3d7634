-- ===== src/TaskStore/Listing.antt =====
-- The lists of task_store.py: a bounded scan of the directory, and the task of an OpenCode event.
use engineering_flow_platfor.Base.{
  ℕ, ◌+◌, String, Bool, true, false, not, ◌&&◌, ◌||◌, Option, none, some, List, [], ◌∷◌, ◌++◌, ltb,
  leb, eqb, if◌then◌else◌, ◌==◌, nat_eq, string_eq, pair_eq, length, take, contains, is_nil,
  is_empty,
}
use engineering_flow_platfor.Base.Value.{ℤ, pos}
use Prim.Native.Char.{code}
use Prim.Native.String.{◌++◌ as text_append}
use engineering_flow_platfor.TaskStore.{
  TaskRecord, Limits, File, Directory, Outcome, returned, read_record, not_below,
}

-- texts in the order of their code points
unfoldable pub text_leb : String → String → Bool
text_leb String.[] t = true
text_leb (String.◌∷◌ c s) String.[] = false
text_leb (String.◌∷◌ c s) (String.◌∷◌ d t) =
    ltb (code c) (code d) || eqb (code c) (code d) && text_leb s t

-- the name of the file of a task
abbrev pub file_name : String → String
file_name task_id = text_append task_id ".json"

unfoldable pub insert_path : String × File → Directory → Directory
unfolding text_leb
insert_path p [] = p ∷ []
insert_path p (q ∷ d) =
    if text_leb (file_name p.0) (file_name q.0) then p ∷ q ∷ d else q ∷ insert_path p d

unfoldable pub sort_paths : Directory → Directory
unfolding insert_path
sort_paths [] = []
sort_paths (p ∷ d) = insert_path p (sort_paths d)

-- `_iter_task_paths`
unfoldable pub iter_task_paths : Option ℕ → Directory → Directory
unfolding sort_paths
iter_task_paths none d = d
iter_task_paths (some scan_limit) d = sort_paths (take scan_limit d)

abbrev pub coerce_non_negative_int : Option ℤ → Option ℕ
coerce_non_negative_int none = none
coerce_non_negative_int (some value) = some (not_below 0 value)

abbrev pub given_or_default : Option ℤ → ℕ → Option ℤ
given_or_default none default = some (pos default)
given_or_default (some n) default = some n

abbrev pub reached : Option ℕ → ℕ → Bool
reached none n = false
reached (some limit) n = leb limit n

abbrev pub is_zero_limit : Option ℕ → Bool
is_zero_limit none = false
is_zero_limit (some limit) = eqb limit 0

-- the record of a file that is read and wanted
abbrev pub wanted_record : (TaskRecord → Bool) → Outcome → List TaskRecord
wanted_record wanted (returned r) = if wanted r then r ∷ [] else []
wanted_record wanted other = []

-- The loop of `list_all` and of `iter_active`: `listed` and `scanned` count.
unfoldable pub scan :
    (TaskRecord → Bool) → Option ℕ → Option ℕ → ℕ → Directory → ℕ → ℕ → List TaskRecord
unfolding read_record
scan wanted record_limit scan_limit file_limit [] listed scanned = []
scan wanted record_limit scan_limit file_limit (p ∷ paths) listed scanned =
    let found = wanted_record wanted (read_record file_limit p.1) in
    let rest =
      scan wanted record_limit scan_limit file_limit paths (listed + length found) (scanned + 1) in
    if reached record_limit listed || reached scan_limit scanned then [] else found ++ rest

abbrev pub size_limit : Option ℕ → ℕ
size_limit none = 0
size_limit (some n) = n

abbrev pub bounded_scan :
    (TaskRecord → Bool) → Option ℕ → Option ℕ → ℕ → Directory → List TaskRecord
bounded_scan wanted record_limit scan_limit file_limit d =
    if is_zero_limit record_limit || is_zero_limit scan_limit
    then []
    else scan wanted record_limit scan_limit file_limit (iter_task_paths scan_limit d) 0 0

abbrev pub file_size_limit : Limits → Option ℤ → ℕ
file_size_limit l max_file_bytes =
    size_limit (coerce_non_negative_int (given_or_default max_file_bytes l.load_max_file_bytes))

unfoldable pub list_all : Limits → Option ℤ → Option ℤ → Option ℤ → Directory → List TaskRecord
unfolding scan iter_task_paths
list_all l max_records max_scan_records max_file_bytes d =
    bounded_scan (λ r. true)
      (coerce_non_negative_int (given_or_default max_records l.list_max_records))
      (coerce_non_negative_int (given_or_default max_scan_records l.scan_max_records))
      (file_size_limit l max_file_bytes) d

-- `record.status in ACTIVE_TASK_STATUSES`
abbrev pub is_active : TaskRecord → Bool
is_active r = r.status == "accepted" || r.status == "running"

abbrev pub limit_of : Bool → Option ℤ → ℕ → Option ℤ
limit_of use_default_limits given default =
    if use_default_limits then given_or_default given default else given

unfoldable pub iter_active :
    Limits → Bool → Option ℤ → Option ℤ → Option ℤ → Directory → List TaskRecord
unfolding scan iter_task_paths
iter_active l use_default_limits max_records max_scan_records max_file_bytes d =
    bounded_scan is_active
      (coerce_non_negative_int (limit_of use_default_limits max_records l.list_max_records))
      (coerce_non_negative_int (limit_of use_default_limits max_scan_records l.scan_max_records))
      (file_size_limit l max_file_bytes) d

unfoldable pub list_active : Limits → Option ℤ → Option ℤ → Option ℤ → Directory → List TaskRecord
list_active l max_records max_scan_records max_file_bytes d =
    iter_active l true max_records max_scan_records max_file_bytes d

abbrev pub is_among : List String → Option String → Bool
is_among ids none = false
is_among ids (some id) = contains id ids

-- `message_ids and (... in message_ids or ... in message_ids)`
abbrev pub names_message : List String → TaskRecord → Bool
names_message message_ids r =
    not (is_nil message_ids)
    && (is_among message_ids r.opencode_message_id || is_among message_ids r.opencode_prompt_id)

abbrev pub only_match : List String → List TaskRecord → Option TaskRecord
only_match [] (r ∷ []) = some r
only_match message_ids matched = none

unfoldable pub match_records :
    String → List String → List TaskRecord → List TaskRecord → Option TaskRecord
match_records session message_ids [] matched = only_match message_ids matched
match_records session message_ids (r ∷ rs) matched =
    let own = r.opencode_session_id == session in
    let rest =
      match_records session message_ids rs
        (if own && is_active r then matched ++ r ∷ [] else matched) in
    if own && names_message message_ids r then some r else rest

unfoldable pub find_for_opencode_event :
    Limits → String → List String → Directory → Option TaskRecord
unfolding match_records list_all
find_for_opencode_event l session message_ids d =
    if is_empty session
    then none
    else match_records session message_ids (list_all l none none none d) []

-- `_task_file_count_exceeds`
unfoldable pub task_file_count_exceeds : Directory → ℕ → Bool
task_file_count_exceeds d limit = not (eqb limit 0) && ltb limit (length d)

unfoldable pub possibly_truncated : Limits → Directory → Bool
unfolding task_file_count_exceeds
possibly_truncated l d =
    task_file_count_exceeds d l.list_max_records || task_file_count_exceeds d l.scan_max_records
