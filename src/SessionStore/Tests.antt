-- ===== src/SessionStore/Tests.antt =====
-- Runs of session_store.py on concrete input.
use engineering_flow_platfor.Base.Interpreter.{Conversions}
use engineering_flow_platfor.Base.{
  ◌≡◌, refl, ◌⊎◌, List, true, false, none, some, [], ◌∷◌, arith, eq_iff, nat_eq, string_eq, pair_eq,
  is_empty, strip, lookup, insert, IsDict,
}
use engineering_flow_platfor.Base.Value.{pos}
use engineering_flow_platfor.SessionStore.{
  SessionRecord, SessionStore, save, rename, set_generated_title, find_by_opencode_session_id,
  clear, clean_text, list_active, first_with, write_cleared,
}
use engineering_flow_platfor.SessionStore.Load.{load}
use engineering_flow_platfor.SessionStore.Saved.{IsNormal, load-save}
use engineering_flow_platfor.SessionStore.Deleted.{
  IsKeyed, IsDeleted, gone, Call, step, step_keeps_IsDeleted,
}
use engineering_flow_platfor.SessionStore.Names.{rename_wins, name_of, source_of}
use engineering_flow_platfor.SessionStore.Status.{statuses, run, spec_run, IsWellKept}
use engineering_flow_platfor.SessionStore.Refined.{run_refines}
use engineering_flow_platfor.SessionStore.Written.{Holds, step_saves}
use engineering_flow_platfor.SessionStore.Writes.{Write, made, stored, write}

abbrev chat : SessionRecord
chat = record {
  portal_session_id = "p1";
  opencode_session_id = "ses_1";
  title = "hello";
  agent = none;
  model = some "gpt-6-sol";
  created_at = "2026-01-01";
  updated_at = "2026-01-02";
  last_message = "hi";
  message_count = pos 2;
  deleted = false;
  partial_recovery = false;
  custom_title = none;
  generated_title = some "Greeting";
}

abbrev gone_chat : SessionRecord
gone_chat = record chat { portal_session_id = "p2"; opencode_session_id = "ses_2"; deleted = true }

abbrev two : SessionStore
two = record {
  disk = record { index = none; backups = [] };
  sessions = ("p1", chat) ∷ ("p2", gone_chat) ∷ [];
}

-- every whole number of the tests is a float
abbrev exact_numbers : Conversions
exact_numbers = record { repr = λ v. ""; int_of_text = λ s. none; int_of_float = some }

chat-IsNormal : IsNormal exact_numbers chat
unfolding clean_text strip
chat-IsNormal = record {
  opencode_session_id = refl;
  title = refl;
  custom_title = refl;
  generated_title = refl;
  message_count = refl;
}

gone_chat-IsNormal : IsNormal exact_numbers gone_chat
unfolding clean_text strip
gone_chat-IsNormal = record {
  opencode_session_id = refl;
  title = refl;
  custom_title = refl;
  generated_title = refl;
  message_count = refl;
}

two-IsDict : IsDict two.sessions
unfolding lookup
two-IsDict = (refl, (refl, tt))

load-save_example : load exact_numbers "now" true (save two) ≡ save two
load-save_example =
    load-save exact_numbers "now" true two two-IsDict (chat-IsNormal, (gone_chat-IsNormal, tt))

two-IsKeyed : IsKeyed two
unfolding lookup
two-IsKeyed k r h = ground (arith, eq_iff "p1" k, eq_iff "p2" k)

is_gone : IsDeleted "p2" two
unfolding lookup
is_gone = gone gone_chat refl refl

step_keeps_IsDeleted_example :
    IsDeleted "p2" (step (Call.update_after_chat "now" "p2" "a" "b" none none) two)
step_keeps_IsDeleted_example =
    step_keeps_IsDeleted (Call.update_after_chat "now" "p2" "a" "b" none none) "p2" two two-IsKeyed
      is_gone

find_chat : lookup "p1" two.sessions ≡ some chat
unfolding lookup
find_chat = refl

not_blank : is_empty (strip " Plan ") ≡ false
unfolding strip
not_blank = refl

rename_wins_example :
    let renamed = (rename "now" "p1" " Plan " two).0 in
    let titled = (set_generated_title "p1" "Other" renamed).0 in
    (name_of (lookup "p1" renamed.sessions) ≡ strip " Plan ")
    × (name_of (lookup "p1" titled.sessions) ≡ strip " Plan ")
    × (source_of (lookup "p1" titled.sessions) ≡ "custom")
rename_wins_example =
    rename_wins "now" "p1" " Plan " "Other" chat two two-IsKeyed find_chat not_blank

found_chat : find_by_opencode_session_id "ses_1" two ≡ some chat
unfolding find_by_opencode_session_id list_active first_with
found_chat = refl

cleared_chat :
    lookup "p1" (clear (λ r. "now") two).0.sessions
    ≡ some (record chat { deleted = true; updated_at = "now" })
unfolding clear save list_active write_cleared lookup insert
cleared_chat = refl

step_saves_example : let s = write (stored chat) two in (s ≡ two) ⊎ Holds s
step_saves_example = step_saves (stored chat) two

two-IsWellKept : IsWellKept two
two-IsWellKept = record { keyed = two-IsKeyed; once = two-IsDict }

abbrev writes : List Write
writes =
    made (Call.mark_deleted "now" "p1")
    ∷ stored gone_chat
    ∷ made (Call.rename "now" "p1" "Plan")
    ∷ []

run_refines_example : statuses (run writes two) ≡ spec_run writes (statuses two)
run_refines_example = run_refines writes two two-IsWellKept
