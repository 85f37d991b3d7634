-- ===== src/ChatLog.antt =====
-- efp_opencode_adapter/chatlog_store.py: the logs of chats, in memory and in one file each. Files stand
-- under the names that `_sanitize` gives. The dicts of the cache are shared with the callers of the
-- source; here each holds what its last write left. The clocks are arguments.
use Prim.Native.Char.{code}
use engineering_flow_platfor.Base.{
  ℕ, ◌+◌, ◌-◌, String, Bool, true, false, not, ◌&&◌, ◌||◌, Option, none, some, List, [], ◌∷◌, ltb,
  eqb, if◌then◌else◌, ◌==◌, nat_eq, string_eq, pair_eq, length, take, last, select, contains,
  is_empty, Dict, keys, lookup, insert, erase,
}
use engineering_flow_platfor.Base.Value.{Value, dict, Fields, or_else}
use engineering_flow_platfor.ProxyPlan.Texts.{is_alphanumeric}
use engineering_flow_platfor.Titles.Clean.{strip_of}
use engineering_flow_platfor.ChatLog.Entries.{
  Preview, Given, fresh_payload, start_payload, finish_payload, append_payload,
}
pub mod Entries
pub mod Names
pub mod Coherent
pub mod Written
pub mod Ensured
pub mod Dropped
pub mod Refined
pub mod Flushed
mod Tests

-- the value in a file, none if it cannot be read
pub record ChatLogStore : Type 0 where
  pub files : Dict String (Option Value)
  pub backups : List (Option Value)
  pub cache : Dict String Fields
  pub pending : List String
  pub last_write_at : Dict String ℕ
  pub event_flush_interval : ℕ
  pub max_cached_sessions : ℕ

-- What a method reads and meets: `utc_now_iso`, the clock before and after the write, and whether a
-- file can be moved away.
pub record Moment : Type 0 where
  pub time : String
  pub now : ℕ
  pub written_at : ℕ
  pub movable : Bool

-- What a method returns or raises.
pub data Outcome : Type 0 where
  nothing raised : Outcome
  returned : Value → Outcome

abbrev pub is_name_code : ℕ → Bool
is_name_code n = is_alphanumeric n || eqb n 46 || eqb n 95 || eqb n 45

-- a hyphen for each run of other characters; `after` is whether one was just written for it
unfoldable pub hyphened : Bool → String → String
hyphened after String.[] = ""
hyphened after (String.◌∷◌ c s) =
    let word = String.◌∷◌ c (hyphened false s) in
    let gap = hyphened true s in
    if is_name_code (code c) then word else if after then gap else String.◌∷◌ "-" gap

abbrev pub or_default : String → String
or_default name = if is_empty name then "default" else name

unfoldable pub sanitize : String → String
unfolding hyphened strip_of
sanitize session_id = or_default (strip_of ".-" (hyphened false session_id))

-- `d[k] = v` and `d.move_to_end(k)`
abbrev pub move_to_end {ℓ} : {V : Type ℓ} → String → V → Dict String V → Dict String V
move_to_end k v d = insert k v (erase k d)

unfoldable pub erase_all {ℓ} : {V : Type ℓ} → List String → Dict String V → Dict String V
erase_all [] d = d
erase_all (k ∷ ks) d = erase_all ks (erase k d)

-- the names that may go from the cache for another one, and those that do
abbrev pub evictable : String → List String → Dict String Fields → List String
evictable name pending cache =
    select (λ k. not (k == name) && not (contains k pending)) (keys cache)

abbrev pub evict : String → ChatLogStore → ChatLogStore
evict name s =
    let victims =
      take (length s.cache - s.max_cached_sessions) (evictable name s.pending s.cache) in
    record s {
      cache = erase_all victims s.cache;
      last_write_at = erase_all victims s.last_write_at;
    }

unfoldable pub remember : String → Fields → ChatLogStore → ChatLogStore
unfolding erase_all
remember name payload s = evict name (record s { cache = move_to_end name payload s.cache })

abbrev pub load : String → Option (Option Value) → ChatLogStore → ChatLogStore × Outcome
load name none s = (s, nothing)
load name (some none) s = (s, raised)
load name (some (some (dict payload))) s = (remember name payload s, returned (dict payload))
load name (some (some v)) s = (s, returned v)

unfoldable pub get_named : String → ChatLogStore → ChatLogStore × Outcome
unfolding remember
get_named name s = elim (lookup name s.cache) [
  | some payload ↦ (record s { cache = move_to_end name payload s.cache }, returned (dict payload))
  | none ↦ load name (lookup name s.files) s
]

abbrev pub get_log : String → ChatLogStore → ChatLogStore × Outcome
get_log session_id s = get_named (sanitize session_id) s

abbrev pub discard : String → List String → List String
discard name pending = select (λ k. not (k == name)) pending

unfoldable pub write_named : Moment → String → Fields → ChatLogStore → ChatLogStore
unfolding remember
write_named m name payload s =
    let r = remember name payload s in
    record r {
      files = insert name (some (dict payload)) r.files;
      pending = discard name r.pending;
      last_write_at = insert name m.written_at r.last_write_at;
    }

-- `clock() - last_write_at < interval`
abbrev pub is_recent : ℕ → ℕ → Option ℕ → Bool
is_recent now interval none = false
is_recent now interval (some last) = ltb now (last + interval)

abbrev pub add_pending : String → List String → List String
add_pending name pending = if contains name pending then pending else name ∷ pending

unfoldable pub write_coalesced : Moment → String → Fields → ChatLogStore → ChatLogStore
unfolding remember write_named
write_coalesced m name payload s =
    let r = remember name payload s in
    let at_once = write_named m name payload r in
    if is_recent m.now r.event_flush_interval (lookup name r.last_write_at)
    then record r { pending = add_pending name r.pending }
    else at_once

unfoldable pub flush : Moment → String → ChatLogStore → ChatLogStore × Bool
unfolding write_named
flush m session_id s =
    let name = sanitize session_id in
    let unwritten : ChatLogStore × Bool = (record s { pending = discard name s.pending }, false) in
    elim (lookup name s.cache) [
      | none ↦ unwritten
      | some payload ↦
          if contains name s.pending then (write_named m name payload s, true) else unwritten
    ]

abbrev pub count_if : Bool → ℕ → ℕ
count_if b n = if b then n + 1 else n

unfoldable pub flush_names : Moment → List String → ChatLogStore → ChatLogStore × ℕ
unfolding flush
flush_names m [] s = (s, 0)
flush_names m (name ∷ names) s =
    let (next, moved) = flush m name s in
    let (last, n) = flush_names m names next in (last, count_if moved n)

-- the pending names in the order in which the set gives them
abbrev pub flush_all : Moment → ChatLogStore → ChatLogStore × ℕ
flush_all m s = flush_names m s.pending s

unfoldable pub forget : String → ChatLogStore → ChatLogStore
forget name s = record s {
  cache = erase name s.cache;
  pending = discard name s.pending;
  last_write_at = erase name s.last_write_at;
}

unfoldable pub quarantine_corrupt_file : Moment → String → ChatLogStore → ChatLogStore
unfolding forget
quarantine_corrupt_file m name s =
    let t = forget name s in
    elim (lookup name t.files) [
      | none ↦ t
      | some content ↦
          if m.movable
          then record t { files = erase name t.files; backups = content ∷ t.backups }
          else t
    ]

abbrev pub ensured : Moment → String → ChatLogStore → Outcome → ChatLogStore × Value
ensured m session_id s nothing = (s, dict (fresh_payload m.time session_id))
ensured m session_id s raised =
    (quarantine_corrupt_file m (sanitize session_id) s, dict (fresh_payload m.time session_id))
ensured m session_id s (returned v) = (s, or_else v (dict (fresh_payload m.time session_id)))

unfoldable pub ensure : Moment → String → ChatLogStore → ChatLogStore × Value
unfolding get_named quarantine_corrupt_file sanitize
ensure m session_id s = let (t, got) = get_log session_id s in ensured m session_id t got

-- a write of the payload that a method made, or what it raised
abbrev pub finish_write :
    (Fields → ChatLogStore → ChatLogStore) → ChatLogStore → Option Fields → ChatLogStore × Outcome
finish_write write s none = (s, raised)
finish_write write s (some payload) = (write payload s, returned (dict payload))

abbrev pub changed : (Fields → Option Fields) → Value → Option Fields
changed change (dict d) = change d
changed change _ = none

abbrev pub edit :
    (Fields → ChatLogStore → ChatLogStore)
    → (Fields → Option Fields)
    → Moment
    → String
    → ChatLogStore
    → ChatLogStore × Outcome
edit write change m session_id s =
    let (t, v) = ensure m session_id s in finish_write write t (changed change v)

module _ (preview : Preview) (m : Moment) (session_id : String) where
  unfoldable pub start_entry : String → String → Given → ChatLogStore → ChatLogStore × Outcome
  unfolding ensure write_named start_payload
  start_entry request_id message g s =
      edit (write_named m (sanitize session_id)) (start_payload preview m.time request_id message g)
        m session_id s

  unfoldable pub finish_entry :
      String → String → String → Given → ChatLogStore → ChatLogStore × Outcome
  unfolding ensure write_named finish_payload
  finish_entry request_id status response g s =
      edit (write_named m (sanitize session_id))
        (finish_payload preview m.time request_id status response g) m session_id s

  abbrev pub fail_entry : String → String → Given → ChatLogStore → ChatLogStore × Outcome
  fail_entry request_id error g s =
      finish_entry request_id "error" error (record g { events = g.runtime_events }) s

  unfoldable pub append_event : String → Value → Bool → ChatLogStore → ChatLogStore × Outcome
  unfolding ensure write_coalesced append_payload
  append_event request_id event runtime s =
      edit (write_coalesced m (sanitize session_id))
        (append_payload preview m.time request_id event runtime) m session_id s

unfoldable pub delete_log : String → ChatLogStore → ChatLogStore × Bool
unfolding forget sanitize
delete_log session_id s =
    let t = forget (sanitize session_id) s in
    elim (lookup (sanitize session_id) t.files) [
      | none ↦ (t, false)
      | some content ↦ (record t { files = erase (sanitize session_id) t.files }, true)
    ]
