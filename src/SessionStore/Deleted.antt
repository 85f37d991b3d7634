-- ===== src/SessionStore/Deleted.antt =====
-- The deleted sessions of session_store.py, over the methods that change a record that is there.
use engineering_flow_platfor.Base.{
  String, ◌≡◌, refl, ◌∙◌, inl, inr, true, Option, some, List, [], ◌∷◌, arith, eq_iff, ◌==◌, nat_eq,
  string_eq, pair_eq, Bool-cases, Option-cases, Dict, lookup, insert, lookup-insert,
}
use engineering_flow_platfor.Base.Value.{ℤ}
use engineering_flow_platfor.SessionStore
use engineering_flow_platfor.SessionStore.{
  SessionRecord, SessionStore, Outcome, list_active, save, cleared_record, write_cleared,
}

-- Each record stands under its own id.
abbrev pub IsKeyed : SessionStore → Type 0
IsKeyed s =
    (k : String) (r : SessionRecord) → lookup k s.sessions ≡ some r → r.portal_session_id ≡ k

-- The session is there and deleted.
pub data IsDeleted (id : String) (s : SessionStore) : Type 0 where
  gone : (r : SessionRecord) → lookup id s.sessions ≡ some r → r.deleted ≡ true → IsDeleted id s

pub data Call : Type 0 where
  rename : String → String → String → Call
  set_generated_title : String → String → Call
  mark_deleted : String → String → Call
  clear : (SessionRecord → String) → Call
  update_after_chat : String → String → String → String → Option String → Option String → Call
  replace_opencode_session_after_mutation : String → String → String → ℤ → String → Call

unfoldable pub step : Call → SessionStore → SessionStore
step (rename now id title) s = (SessionStore.rename now id title s).0
step (set_generated_title id title) s = (SessionStore.set_generated_title id title s).0
step (mark_deleted now id) s = (SessionStore.mark_deleted now id s).0
step (clear now) s = (SessionStore.clear now s).0
step (update_after_chat now id m t model agent) s =
    (SessionStore.update_after_chat now id m t model agent s).0
step (replace_opencode_session_after_mutation now id o n m) s =
    (SessionStore.replace_opencode_session_after_mutation now id o n m s).0

-- Writing `r` over the record that stands under `id`: what is deleted stays so if `r` keeps the flag.
upsert-IsDeleted :
    (k id : String) (old r : SessionRecord) (s : SessionStore)
    → lookup id s.sessions ≡ some old
    → r.portal_session_id ≡ id
    → (old.deleted ≡ true → r.deleted ≡ true)
    → IsDeleted k s
    → IsDeleted k (SessionStore.upsert r s)
unfolding SessionStore.upsert save
upsert-IsDeleted k id old r s found same keeps (gone w p d) =
    elim (Bool-cases (r.portal_session_id == k)) [
      | inl t ↦
          gone r (lookup-insert r.portal_session_id k r s.sessions ∙ rw t refl)
            (keeps (ground (arith, eq_iff r.portal_session_id k, found, p, d, same)))
      | inr f ↦ gone w (lookup-insert r.portal_session_id k r s.sessions ∙ rw f p) d
    ]

write_cleared-IsDeleted :
    (now : SessionRecord → String) (k : String) (rs : List SessionRecord)
    (d : Dict String SessionRecord)
    → (w : SessionRecord) → lookup k d ≡ some w
    → w.deleted ≡ true
    → (r : SessionRecord) × (lookup k (write_cleared now rs d) ≡ some r) × (r.deleted ≡ true)
unfolding write_cleared
write_cleared-IsDeleted now k [] d w p del = (w, p, del)
write_cleared-IsDeleted now k (r ∷ rs) d w p del = elim (Bool-cases (r.portal_session_id == k)) [
  | inl t ↦
      write_cleared-IsDeleted now k rs (insert r.portal_session_id (cleared_record now r) d)
        (cleared_record now r)
        (lookup-insert r.portal_session_id k (cleared_record now r) d ∙ rw t refl) refl
  | inr f ↦
      write_cleared-IsDeleted now k rs (insert r.portal_session_id (cleared_record now r) d) w
        (lookup-insert r.portal_session_id k (cleared_record now r) d ∙ rw f p) del
]

clear-IsDeleted :
    (now : SessionRecord → String) (k : String) (s : SessionStore)
    → IsDeleted k s
    → IsDeleted k (SessionStore.clear now s).0
unfolding SessionStore.clear save
clear-IsDeleted now k s (gone w p d) =
    let found = write_cleared-IsDeleted now k (list_active s) s.sessions w p d in
    gone found.0 found.1 found.2

module _ (k id : String) (s : SessionStore) (keyed : IsKeyed s) (h : IsDeleted k s) where
  rename-IsDeleted : (now title : String) → IsDeleted k (SessionStore.rename now id title s).0
  unfolding SessionStore.rename
  rename-IsDeleted now title = elim (Option-cases (lookup id s.sessions)) [
    | inl absent ↦ rw (absent, SessionStore.rename) h
    | inr (r, p) ↦
        rw (p, SessionStore.rename) (upsert-IsDeleted k id r _ s p (keyed id r p) (λ d. d) h)
  ]

  set_generated_title-IsDeleted :
      (title : String) → IsDeleted k (SessionStore.set_generated_title id title s).0
  unfolding SessionStore.set_generated_title
  set_generated_title-IsDeleted title = elim (Option-cases (lookup id s.sessions)) [
    | inl absent ↦ rw (absent, SessionStore.set_generated_title) h
    | inr (r, p) ↦
        rw (p, SessionStore.set_generated_title)
          (upsert-IsDeleted k id r _ s p (keyed id r p) (λ d. d) h)
  ]

  mark_deleted-IsDeleted : (now : String) → IsDeleted k (SessionStore.mark_deleted now id s).0
  unfolding SessionStore.mark_deleted
  mark_deleted-IsDeleted now = elim (Option-cases (lookup id s.sessions)) [
    | inl absent ↦ rw (absent, SessionStore.mark_deleted) h
    | inr (r, p) ↦
        rw (p, SessionStore.mark_deleted)
          (upsert-IsDeleted k id r _ s p (keyed id r p) (λ d. refl) h)
  ]

  update_after_chat-IsDeleted :
      (now m t : String) (model agent : Option String)
      → IsDeleted k (SessionStore.update_after_chat now id m t model agent s).0
  unfolding SessionStore.update_after_chat
  update_after_chat-IsDeleted now m t model agent = elim (Option-cases (lookup id s.sessions)) [
    | inl absent ↦ rw (absent, SessionStore.update_after_chat) h
    | inr (r, p) ↦ elim (Bool-cases r.deleted) [
      | inl d ↦ rw (p, SessionStore.update_after_chat, d) h
      | inr a ↦
          rw (p, SessionStore.update_after_chat, a)
            (upsert-IsDeleted k id r _ s p (keyed id r p) (λ d. absurd (ground (arith, a, d))) h)
    ]
  ]

  replace-IsDeleted :
      (now o : String) (n : ℤ) (m : String)
      → IsDeleted k (SessionStore.replace_opencode_session_after_mutation now id o n m s).0
  unfolding SessionStore.replace_opencode_session_after_mutation
  replace-IsDeleted now o n m = elim (Option-cases (lookup id s.sessions)) [
    | inl absent ↦ rw (absent, SessionStore.replace_opencode_session_after_mutation) h
    | inr (r, p) ↦ elim (Bool-cases r.deleted) [
      | inl d ↦ rw (p, SessionStore.replace_opencode_session_after_mutation, d) h
      | inr a ↦
          rw (p, SessionStore.replace_opencode_session_after_mutation, a)
            (upsert-IsDeleted k id r _ s p (keyed id r p) (λ d. absurd (ground (arith, a, d))) h)
    ]
  ]

-- In a store that keeps each record under its own id, a deleted session stays deleted whatever is
-- renamed, titled, deleted, cleared, updated after a chat or moved to another OpenCode session.
pub step_keeps_IsDeleted :
    (c : Call) (k : String) (s : SessionStore) → IsKeyed s → IsDeleted k s → IsDeleted k (step c s)
unfolding step
step_keeps_IsDeleted (rename now id title) k s keyed h = rename-IsDeleted k id s keyed h now title
step_keeps_IsDeleted (set_generated_title id title) k s keyed h =
    set_generated_title-IsDeleted k id s keyed h title
step_keeps_IsDeleted (mark_deleted now id) k s keyed h = mark_deleted-IsDeleted k id s keyed h now
step_keeps_IsDeleted (clear now) k s keyed h = clear-IsDeleted now k s h
step_keeps_IsDeleted (update_after_chat now id m t model agent) k s keyed h =
    update_after_chat-IsDeleted k id s keyed h now m t model agent
step_keeps_IsDeleted (replace_opencode_session_after_mutation now id o n m) k s keyed h =
    replace-IsDeleted k id s keyed h now o n m
