-- ===== src/ChatLog/Tests.antt =====
-- Runs of chatlog_store.py on concrete input.
use engineering_flow_platfor.Base.{
  ℕ, ◌≡◌, refl, true, none, List, [], ◌∷◌, arith, nat_eq, string_eq, pair_eq, lookup, insert, erase,
}
use engineering_flow_platfor.Base.Value.{str}
use engineering_flow_platfor.Titles.Clean.{strip_of, lstrip_of, rstrip_of}
use engineering_flow_platfor.ChatLog
use engineering_flow_platfor.ChatLog.{
  ChatLogStore, Moment, nothing, raised, returned, sanitize, hyphened, remember, erase_all,
  get_named, write_named, write_coalesced, ensure, quarantine_corrupt_file, forget, flush_names,
}
use engineering_flow_platfor.ChatLog.Entries.{Preview, Given}
use engineering_flow_platfor.ChatLog.Coherent.{view, content, IsCoherent}
use engineering_flow_platfor.ChatLog.Refined.{
  Call, start_entry, append_event, run, spec_run, step, calls_refine,
}
use engineering_flow_platfor.ChatLog.Flushed.{AreNames, run-flush_all}

abbrev whole : Preview
whole = λ n v. v

abbrev no_given : Given
no_given = record { runtime_events = none; events = none; context_state = none; llm_debug = none }

abbrev at_time : ℕ → Moment
at_time n = record { time = "2026-01-01"; now = n; written_at = n; movable = true }

-- an unreadable file, and a cache of one log
abbrev one_bad : ChatLogStore
one_bad = record {
  files = ("chat-1", none) ∷ [];
  backups = [];
  cache = [];
  pending = [];
  last_write_at = [];
  event_flush_interval = 2000;
  max_cached_sessions = 1;
}

one_bad-IsCoherent : IsCoherent one_bad
unfolding lookup
one_bad-IsCoherent = record {
  cached_once = tt;
  filed_once = (refl, tt);
  kept = λ k idle waits. absurd (ground (arith, waits));
  clean = λ k payload idle p free. absurd (ground (arith, p));
}

one_bad-AreNames : AreNames one_bad.pending
one_bad-AreNames k h = absurd (ground (arith, h))

-- two chats, of which the first has an event that is not written when the second is cached
abbrev calls : List Call
calls =
    start_entry (at_time 10) "chat 1" "r1" "hello" no_given
    ∷ append_event (at_time 20) "chat 1" "r1" (str "delta") true
    ∷ start_entry (at_time 30) "chat 2" "r2" "hi" no_given
    ∷ []

named : sanitize "..chat / 1-" ≡ "chat-1"
unfolding sanitize hyphened strip_of lstrip_of rstrip_of
named = refl

still_waiting : (run whole calls one_bad).pending ≡ "chat-1" ∷ []
unfolding run step ChatLog.start_entry lookup ChatLog.append_event insert erase
still_waiting = refl

kept_aside : (run whole calls one_bad).backups ≡ none ∷ []
unfolding run step ChatLog.start_entry lookup ChatLog.append_event insert erase
kept_aside = refl

calls_refine_example : view (run whole calls one_bad) ≡ spec_run whole calls (view one_bad)
calls_refine_example = calls_refine whole calls one_bad one_bad-IsCoherent

run-flush_all_example :
    content (lookup "chat-1" (ChatLog.flush_all (at_time 40) (run whole calls one_bad)).0.files)
    ≡ spec_run whole calls (view one_bad) "chat-1"
run-flush_all_example =
    run-flush_all whole calls (at_time 40) one_bad one_bad-IsCoherent one_bad-AreNames "chat-1"
