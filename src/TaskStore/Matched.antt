-- ===== src/TaskStore/Matched.antt =====
-- The task that task_store.py finds for an event of OpenCode.
use engineering_flow_platfor.Base.{
  String, ◌≡◌, refl, ◌∙◌, inl, inr, Bool, true, false, ◌&&◌, Option, none, some, List, [], ◌∷◌,
  ◌++◌, append_assoc, append-nil, if◌then◌else◌, ◌==◌, nat_eq, string_eq, pair_eq, Bool-cases,
  select, is_empty,
}
use engineering_flow_platfor.TaskStore.{TaskRecord, Limits, Directory}
use engineering_flow_platfor.TaskStore.Listing.{
  list_all, is_active, names_message, only_match, match_records, find_for_opencode_event,
}

-- What `find_for_opencode_event` looks for, without a loop.
abbrev pub is_own : String → TaskRecord → Bool
is_own session r = r.opencode_session_id == session

abbrev pub first_where : (TaskRecord → Bool) → List TaskRecord → Option TaskRecord
first_where p [] = none
first_where p (r ∷ rs) = if p r then some r else first_where p rs

match_any :
    (session : String) (rs matched : List TaskRecord)
    → match_records session [] rs matched
      ≡ only_match [] (matched ++ select (λ r. is_own session r && is_active r) rs)
unfolding match_records
match_any session [] matched = rw (append-nil matched) refl
match_any session (r ∷ rs) matched = elim (Bool-cases (is_own session r)) [
  | inr f ↦ rw f (match_any session rs matched)
  | inl t ↦ elim (Bool-cases (is_active r)) [
    | inr f ↦ rw (t, f) (match_any session rs matched)
    | inl a ↦
        rw (t, a)
          (match_any session rs (matched ++ r ∷ [])
            ∙ rw (append_assoc matched (r ∷ []) (select (λ r. is_own session r && is_active r) rs))
                refl)
  ]
]

match_named :
    (session id : String) (ids : List String) (rs matched : List TaskRecord)
    → match_records session (id ∷ ids) rs matched
      ≡ first_where (λ r. is_own session r && names_message (id ∷ ids) r) rs
unfolding match_records
match_named session id ids [] matched = refl
match_named session id ids (r ∷ rs) matched =
    rw
      (match_named session id ids rs
        (if is_own session r && is_active r then matched ++ r ∷ [] else matched))
      refl

-- An event without a session belongs to no task. With message ids it belongs to the first listed task
-- of its session that has one of them; without, to the only active task of the session, if there is
-- exactly one among the listed.
pub find_for_opencode_event_lem :
    (l : Limits) (session : String) (d : Directory)
    → ((ids : List String)
        → is_empty session ≡ true
        → find_for_opencode_event l session ids d ≡ none)
      × ((id : String) (ids : List String)
          → is_empty session ≡ false
          → find_for_opencode_event l session (id ∷ ids) d
            ≡ first_where
                (λ r. is_own session r && names_message (id ∷ ids) r)
                (list_all l none none none d))
      × (is_empty session ≡ false
          → find_for_opencode_event l session [] d
            ≡ only_match []
                (select (λ r. is_own session r && is_active r) (list_all l none none none d)))
unfolding find_for_opencode_event
find_for_opencode_event_lem l session d = (
  λ ids e. rw e refl,
  λ id ids f. rw f (match_named session id ids (list_all l none none none d) []),
  λ f. rw f (match_any session (list_all l none none none d) []),
)
