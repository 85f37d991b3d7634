-- ===== src/SessionStore/Written.antt =====
-- What the methods of session_store.py leave in index.json.
use mathlib.Core.Path.{subst}
use engineering_flow_platfor.Base.{
  Dict, some, none, [], ◌∷◌, ◌==◌, if◌then◌else◌, String, ◌≡◌, refl, ◌⊎◌, inl, inr, Option, nat_eq,
  string_eq, pair_eq, Bool-cases, Option-cases, lookup,
}
use engineering_flow_platfor.Base.Value.{ℤ, Value, dict, Fields, end, field}
use engineering_flow_platfor.SessionStore
use engineering_flow_platfor.SessionStore.{
  SessionRecord, SessionStore, Outcome, payload, to_fields, all_fields, save,
}
use engineering_flow_platfor.SessionStore.Deleted.{Call, step}
use engineering_flow_platfor.SessionStore.Writes.{Write, made, stored, write}

-- The method changed nothing, or the file holds the sessions in memory.
abbrev Wrote : SessionStore → SessionStore → Type 0
Wrote s t = (t ≡ s) ⊎ (save t ≡ t)

upsert-save :
    (r : SessionRecord) (s : SessionStore)
    → save (SessionStore.upsert r s) ≡ SessionStore.upsert r s
unfolding SessionStore.upsert save
upsert-save r s = refl

module _ (id : String) (s : SessionStore) where
  update_after_chat-saves :
      (now m t : String) (model agent : Option String)
      → Wrote s (SessionStore.update_after_chat now id m t model agent s).0
  unfolding SessionStore.update_after_chat
  update_after_chat-saves now m t model agent = elim (Option-cases (lookup id s.sessions)) [
    | inl absent ↦ rw (absent, SessionStore.update_after_chat) (inl refl)
    | inr (r, p) ↦ elim (Bool-cases r.deleted) [
      | inl d ↦ rw (p, SessionStore.update_after_chat, d) (inl refl)
      | inr a ↦ rw (p, SessionStore.update_after_chat, a) (inr (upsert-save _ s))
    ]
  ]

  replace-saves :
      (now o : String) (n : ℤ) (m : String)
      → Wrote s (SessionStore.replace_opencode_session_after_mutation now id o n m s).0
  unfolding SessionStore.replace_opencode_session_after_mutation
  replace-saves now o n m = elim (Option-cases (lookup id s.sessions)) [
    | inl absent ↦ rw (absent, SessionStore.replace_opencode_session_after_mutation) (inl refl)
    | inr (r, p) ↦ elim (Bool-cases r.deleted) [
      | inl d ↦ rw (p, SessionStore.replace_opencode_session_after_mutation, d) (inl refl)
      | inr a ↦
          rw (p, SessionStore.replace_opencode_session_after_mutation, a) (inr (upsert-save _ s))
    ]
  ]

  rename-saves : (now title : String) → Wrote s (SessionStore.rename now id title s).0
  unfolding SessionStore.rename
  rename-saves now title = elim (Option-cases (lookup id s.sessions)) [
    | inl absent ↦ rw (absent, SessionStore.rename) (inl refl)
    | inr (r, p) ↦ rw (p, SessionStore.rename) (inr (upsert-save _ s))
  ]

  set_generated_title-saves :
      (title : String) → Wrote s (SessionStore.set_generated_title id title s).0
  unfolding SessionStore.set_generated_title
  set_generated_title-saves title = elim (Option-cases (lookup id s.sessions)) [
    | inl absent ↦ rw (absent, SessionStore.set_generated_title) (inl refl)
    | inr (r, p) ↦ rw (p, SessionStore.set_generated_title) (inr (upsert-save _ s))
  ]

  mark_deleted-saves : (now : String) → Wrote s (SessionStore.mark_deleted now id s).0
  unfolding SessionStore.mark_deleted
  mark_deleted-saves now = elim (Option-cases (lookup id s.sessions)) [
    | inl absent ↦ rw (absent, SessionStore.mark_deleted) (inl refl)
    | inr (r, p) ↦ rw (p, SessionStore.mark_deleted) (inr (upsert-save _ s))
  ]

step-saves : (c : Call) (s : SessionStore) → Wrote s (step c s)
unfolding step SessionStore.clear save
step-saves (Call.rename now id title) s = rename-saves id s now title
step-saves (Call.set_generated_title id title) s = set_generated_title-saves id s title
step-saves (Call.mark_deleted now id) s = mark_deleted-saves id s now
step-saves (Call.clear now) s = inr refl
step-saves (Call.update_after_chat now id m t model agent) s =
    update_after_chat-saves id s now m t model agent
step-saves (Call.replace_opencode_session_after_mutation now id o n m) s =
    replace-saves id s now o n m

-- What an object of JSON has under a key.
abbrev pub entry_at : String → Fields → Option Value
entry_at k end = none
entry_at k (field j v fs) = if j == k then some v else entry_at k fs

abbrev pub written_entry : Option SessionRecord → Option Value
written_entry none = none
written_entry (some r) = some (dict (to_fields r))

-- index.json is an object whose "sessions" has, under each id, the fields of the session in memory,
-- and nothing under an id that is not in memory.
pub record Holds (s : SessionStore) : Type 0 where
  pub entries : Fields
  pub file : s.disk.index ≡ some (payload (dict (field "sessions" (dict entries) end)))
  pub same : (k : String) → entry_at k entries ≡ written_entry (lookup k s.sessions)

entry_at-all_fields :
    (k : String) (d : Dict String SessionRecord)
    → entry_at k (all_fields d) ≡ written_entry (lookup k d)
unfolding all_fields lookup
entry_at-all_fields k [] = refl
entry_at-all_fields k ((j, r) ∷ d) = elim (Bool-cases (j == k)) [
  | inl t ↦ rw t refl
  | inr n ↦ rw n (entry_at-all_fields k d)
]

save-Holds : (s : SessionStore) → Holds (save s)
unfolding save
save-Holds s = record {
  entries = all_fields s.sessions;
  file = refl;
  same = λ k. entry_at-all_fields k s.sessions;
}

-- After a call of `upsert` or of a method that changes records (loading is not among them), the store is
-- as it was, or the "sessions" of index.json has under each id the fields of the session that memory
-- has, and nothing under an id that memory has not.
pub step_saves : (w : Write) (s : SessionStore) → (write w s ≡ s) ⊎ Holds (write w s)
unfolding write
step_saves (made c) s = elim (step-saves c s) [
  | inl same ↦ inl same
  | inr saved ↦ inr (subst Holds saved (save-Holds (step c s)))
]
step_saves (stored r) s = inr (subst Holds (upsert-save r s) (save-Holds (SessionStore.upsert r s)))
