-- ===== src/Recovery/Interrupted.antt =====
-- recovery.py: the entries that the log of a chat still has as running.
use engineering_flow_platfor.Base.{
  ℕ, ◌+◌, String, Bool, true, false, not, ◌||◌, none, some, List, [], ◌∷◌, ◌++◌, if◌then◌else◌,
  ◌==◌, nat_eq, string_eq, pair_eq, is_empty, strip, lookup,
}
use engineering_flow_platfor.Base.Value.{
  Value, list, dict, Items, nil, cons, truthy, as_dict, get, to_text,
}
use engineering_flow_platfor.Base.Interpreter.{Texts}
use engineering_flow_platfor.ChatLog.{ChatLogStore, Moment, Outcome, returned, count_if, fail_entry}
use engineering_flow_platfor.ChatLog.Entries.{Preview}

abbrev pub is_running_status : String → Bool
is_running_status status =
    status == "running" || status == "accepted" || status == "queued" || status == "in_progress"

-- `str(value or "")`
abbrev pub text_or_empty : Texts → Value → String
text_or_empty t v = if truthy v then to_text t.repr v else ""

-- the request of an entry that a chat log still has as running
abbrev pub running_request : Texts → Value → List String
running_request t (dict entry) =
    let request_id = text_or_empty t (get "request_id" entry) in
    if is_empty request_id
      || not (is_running_status (t.lower (strip (text_or_empty t (get "status" entry)))))
    then []
    else request_id ∷ []
running_request t _ = []

unfoldable pub running_requests : Texts → Items → List String
running_requests t nil = []
running_requests t (cons entry entries) = running_request t entry ++ running_requests t entries

abbrev pub requests_of : Texts → Value → List String
requests_of t (list entries) = running_requests t entries
requests_of t _ = []

-- the requests of a log that still run, if it has a session
unfoldable pub interrupted_requests : Texts → Value → List String
unfolding running_requests
interrupted_requests t payload =
    if is_empty (text_or_empty t (get "session_id" (as_dict payload)))
    then []
    else requests_of t (get "entries" (as_dict payload))

abbrev is_returned : Outcome → Bool
is_returned (returned v) = true
is_returned _ = false

-- `fail_entry` for each request; what it raises is passed over
unfoldable pub fail_requests :
    Preview → (String → Moment) → String → List String → ChatLogStore → ChatLogStore × ℕ
fail_requests preview moment session_id [] s = (s, 0)
fail_requests preview moment session_id (request_id ∷ rest) s =
    let (t, o) =
      fail_entry preview (moment request_id) session_id request_id
        "Chat run interrupted by adapter restart."
        (record { runtime_events = none; events = none; context_state = none; llm_debug = none })
        s in
    let (u, marked) = fail_requests preview moment session_id rest t in
    (u, count_if (is_returned o) marked)

abbrev pub mark_interrupted_chat_entries :
    Texts → Preview → (String → Moment) → Value → ChatLogStore → ChatLogStore × ℕ
mark_interrupted_chat_entries t preview moment payload s =
    fail_requests preview moment (text_or_empty t (get "session_id" (as_dict payload)))
      (interrupted_requests t payload) s

pub record ChatLogs : Type 0 where
  pub store : ChatLogStore
  pub chat_entries_marked_interrupted : ℕ
  pub corrupted_chatlogs : ℕ

-- The loop over the files of the logs; each is read when its turn comes.
unfoldable pub recover_chat_logs :
    Texts → Preview → (String → Moment) → List String → ChatLogs → ChatLogs
unfolding fail_requests interrupted_requests
recover_chat_logs t preview moment [] g = g
recover_chat_logs t preview moment (name ∷ names) g =
    recover_chat_logs t preview moment names (elim (lookup name g.store.files) [
      | none ↦ record g { corrupted_chatlogs = g.corrupted_chatlogs + 1 }
      | some file ↦ elim file [
        | none ↦ record g { corrupted_chatlogs = g.corrupted_chatlogs + 1 }
        | some payload ↦
            let (s, marked) = mark_interrupted_chat_entries t preview moment payload g.store in
            record g {
              store = s;
              chat_entries_marked_interrupted = g.chat_entries_marked_interrupted + marked;
            }
      ]
    ])
