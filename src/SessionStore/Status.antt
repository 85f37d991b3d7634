-- ===== src/SessionStore/Status.antt =====
-- session_store.py as the Portal sees it: which sessions there are and which of them are deleted. An
-- id of a session is absent, active or deleted, and a write moves ids between these.
use engineering_flow_platfor.Base.{
  String, ◌≡◌, refl, sym, ap, ◌∙◌, inl, inr, Bool, true, false, Option, none, some, List, [], ◌∷◌,
  arith, eq_iff, if◌then◌else◌, ◌==◌, nat_eq, string_eq, pair_eq, Bool-cases, Option-cases, lookup,
  IsDict, lookup-insert, insert-IsDict,
}
use engineering_flow_platfor.Base.Value.{ℤ}
use engineering_flow_platfor.SessionStore
use engineering_flow_platfor.SessionStore.{
  SessionRecord, SessionStore, is_some, list_active, save, upsert, cleared_record, write_cleared,
}
use engineering_flow_platfor.SessionStore.Deleted.{IsKeyed, Call, mark_deleted, clear}
use engineering_flow_platfor.SessionStore.Writes.{Write, made, stored, write}

pub data Status : Type 0 where
  absent active deleted : Status

abbrev pub status_of : Option SessionRecord → Status
status_of none = absent
status_of (some r) = if r.deleted then deleted else active

-- The abstract state: the status of each id.
abbrev pub Statuses : Type 0
Statuses = String → Status

unfoldable pub statuses : SessionStore → Statuses
statuses s id = status_of (lookup id s.sessions)

abbrev pub gone : Status → Status
gone absent = absent
gone _ = deleted

-- What each of these methods promises: only deletions change a status, and none brings a session back.
unfoldable pub spec_step : Call → Statuses → Statuses
spec_step (mark_deleted now id) st k = if id == k then gone (st k) else st k
spec_step (clear now) st k = gone (st k)
spec_step _ st k = st k

-- A record that is stored decides the status of its own id, and of no other.
unfoldable pub spec_write : Write → Statuses → Statuses
spec_write (made c) st k = spec_step c st k
spec_write (stored r) st k = if r.portal_session_id == k then status_of (some r) else st k

unfoldable pub run : List Write → SessionStore → SessionStore
run [] s = s
run (w ∷ writes) s = run writes (write w s)

unfoldable pub spec_run : List Write → Statuses → Statuses
spec_run [] st = st
spec_run (w ∷ writes) st = spec_run writes (spec_write w st)

-- Each record stands once, under its own id.
pub record IsWellKept (s : SessionStore) : Type 0 where
  pub keyed : IsKeyed s
  pub once : IsDict s.sessions

pub statuses-upsert :
    (id k : String) (r : SessionRecord) (s : SessionStore)
    → r.portal_session_id ≡ id
    → statuses (upsert r s) k ≡ (if id == k then status_of (some r) else statuses s k)
unfolding statuses upsert save
statuses-upsert id k r s same =
    ap status_of (lookup-insert r.portal_session_id k r s.sessions)
    ∙ rw same (elim (Bool-cases (id == k)) [ inl t ↦ rw t refl | inr f ↦ rw f refl ])

pub upsert-IsWellKept :
    (r : SessionRecord) (s : SessionStore) → IsWellKept s → IsWellKept (upsert r s)
unfolding upsert save
upsert-IsWellKept r s v = record {
  keyed = λ k x h. elim (Bool-cases (r.portal_session_id == k)) [
    | inl t ↦ ground (
      arith,
      eq_iff r.portal_session_id k,
      lookup-insert r.portal_session_id k r s.sessions,
      h,
      t,
    )
    | inr f ↦ v.keyed k x (rw f at (sym (lookup-insert r.portal_session_id k r s.sessions) ∙ h))
  ];
  once = insert-IsDict r.portal_session_id r s.sessions v.once;
}

status_at :
    (id k : String) (s : SessionStore) (o : Option SessionRecord)
    → lookup id s.sessions ≡ o
    → (id == k) ≡ true
    → statuses s k ≡ status_of o
unfolding statuses
status_at id k s o found t =
    ap (λ j. status_of (lookup j s.sessions)) (same_id id k t) ∙ ap status_of found
  where
    same_id : (id k : String) → (id == k) ≡ true → k ≡ id
    same_id id k t = ground (arith, eq_iff id k)

pub gone_there : (b : Bool) → gone (if b then deleted else active) ≡ deleted
gone_there true = refl
gone_there false = refl

-- Writing over a record with the same deletion.
same_status :
    (id k : String) (old r : SessionRecord) (s : SessionStore)
    → lookup id s.sessions ≡ some old
    → r.portal_session_id ≡ id
    → r.deleted ≡ old.deleted
    → statuses (upsert r s) k ≡ statuses s k
same_status id k old r s found same flag =
    statuses-upsert id k r s same ∙ elim (Bool-cases (id == k)) [
      | inr f ↦ rw f refl
      | inl t ↦ rw (t, flag) (sym (status_at id k s (some old) found t))
    ]

module _ (s : SessionStore) (v : IsWellKept s) (k : String) where
  pub rename-status :
      (now id title : String) → statuses (SessionStore.rename now id title s).0 k ≡ statuses s k
  unfolding SessionStore.rename
  rename-status now id title = elim (Option-cases (lookup id s.sessions)) [
    | inl none_there ↦ rw (none_there, SessionStore.rename) refl
    | inr (r, p) ↦ rw (p, SessionStore.rename) (same_status id k r _ s p (v.keyed id r p) refl)
  ]

  pub title-status :
      (id title : String)
      → statuses (SessionStore.set_generated_title id title s).0 k ≡ statuses s k
  unfolding SessionStore.set_generated_title
  title-status id title = elim (Option-cases (lookup id s.sessions)) [
    | inl none_there ↦ rw (none_there, SessionStore.set_generated_title) refl
    | inr (r, p) ↦
        rw (p, SessionStore.set_generated_title) (same_status id k r _ s p (v.keyed id r p) refl)
  ]

  pub chat-status :
      (now id m t : String) (model agent : Option String)
      → statuses (SessionStore.update_after_chat now id m t model agent s).0 k ≡ statuses s k
  unfolding SessionStore.update_after_chat
  chat-status now id m t model agent = elim (Option-cases (lookup id s.sessions)) [
    | inl none_there ↦ rw (none_there, SessionStore.update_after_chat) refl
    | inr (r, p) ↦ elim (Bool-cases r.deleted) [
      | inl d ↦ rw (p, SessionStore.update_after_chat, d) refl
      | inr a ↦
          rw (p, SessionStore.update_after_chat, a)
            (same_status id k r _ s p (v.keyed id r p) (sym a))
    ]
  ]

  pub replace-status :
      (now id o : String) (n : ℤ) (m : String)
      → statuses (SessionStore.replace_opencode_session_after_mutation now id o n m s).0 k
        ≡ statuses s k
  unfolding SessionStore.replace_opencode_session_after_mutation
  replace-status now id o n m = elim (Option-cases (lookup id s.sessions)) [
    | inl none_there ↦ rw (none_there, SessionStore.replace_opencode_session_after_mutation) refl
    | inr (r, p) ↦ elim (Bool-cases r.deleted) [
      | inl d ↦ rw (p, SessionStore.replace_opencode_session_after_mutation, d) refl
      | inr a ↦
          rw (p, SessionStore.replace_opencode_session_after_mutation, a)
            (same_status id k r _ s p (v.keyed id r p) (sym a))
    ]
  ]

  pub delete-status :
      (now id : String)
      → statuses (SessionStore.mark_deleted now id s).0 k
        ≡ (if id == k then gone (statuses s k) else statuses s k)
  unfolding SessionStore.mark_deleted
  delete-status now id = elim (Option-cases (lookup id s.sessions)) [
    | inl none_there ↦
        rw (none_there, SessionStore.mark_deleted)
          (elim (Bool-cases (id == k)) [
            | inl t ↦ rw (t, status_at id k s none none_there t) refl
            | inr f ↦ rw f refl
          ])
    | inr (r, p) ↦
        rw (p, SessionStore.mark_deleted)
          (statuses-upsert id k _ s (v.keyed id r p) ∙ elim (Bool-cases (id == k)) [
            | inl t ↦ rw (t, status_at id k s (some r) p t) (sym (gone_there r.deleted))
            | inr f ↦ rw f refl
          ])
  ]
