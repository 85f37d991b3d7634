-- ===== src/SessionStore/Refined.antt =====
-- session_store.py refines its abstract state: after any writes, the status of each id is the one that
-- what the writes promise gives.
use mathlib.Core.Path.{fun_ext}
use text.Mathlib.TextPositions.{eq_refl}
use engineering_flow_platfor.Base.{
  String, ◌≡◌, refl, sym, ap, ◌∙◌, inl, inr, true, not, Option, none, some, List, [], ◌∷◌, arith,
  eq_iff, ◌==◌, nat_eq, string_eq, pair_eq, Bool-cases, Option-cases, All, All-map, In, here, there,
  All-of_In, In-of_select, Dict, values, lookup, insert, IsDict, lookup-insert,
}
use engineering_flow_platfor.SessionStore
use engineering_flow_platfor.SessionStore.{
  SessionRecord, SessionStore, is_some, list_active, save, upsert, cleared_record, write_cleared,
}
use engineering_flow_platfor.SessionStore.Deleted.{
  Call, rename, set_generated_title, mark_deleted, clear, update_after_chat,
  replace_opencode_session_after_mutation, step,
}
use engineering_flow_platfor.SessionStore.Writes.{Write, made, stored, write}
use engineering_flow_platfor.SessionStore.Names.{clear_deletes_all}
use engineering_flow_platfor.SessionStore.Status.{
  status_of, statuses, gone, statuses-upsert, spec_step, spec_write, run, spec_run, IsWellKept,
  upsert-IsWellKept, gone_there, rename-status, title-status, chat-status, replace-status,
  delete-status,
}

pub In-values :
    (x : SessionRecord) (d : Dict String SessionRecord)
    → IsDict d
    → In x (values d)
    → (j : String) × (lookup j d ≡ some x)
unfolding lookup
In-values x [] once i = elim i [ ]
In-values x ((j, y) ∷ d) once (here e) = (j, rw eq_refl (ap some (sym e)))
In-values x ((j, y) ∷ d) once (there i) =
    let (h, found) = In-values x d once.1 i in
    (
      h,
      elim (Bool-cases (j == h)) [
        | inl t ↦ absurd (ground (arith, eq_iff j h, t, found, once.0))
        | inr f ↦ rw f found
      ],
    )

-- Writing over records that are there adds no id.
write_cleared-keys :
    (now : SessionRecord → String) (k : String) (rs : List SessionRecord)
    (d : Dict String SessionRecord)
    → All (λ x. is_some (lookup x.portal_session_id d) ≡ true) rs
    → is_some (lookup k (write_cleared now rs d)) ≡ is_some (lookup k d)
unfolding write_cleared
write_cleared-keys now k [] d h = refl
write_cleared-keys now k (r ∷ rs) d h =
    write_cleared-keys now k rs (insert r.portal_session_id (cleared_record now r) d)
      (All-map _ _ (λ x there_before. kept x.portal_session_id ∙ there_before) rs h.1)
    ∙ kept k
  where
    same_id : (j : String) → (r.portal_session_id == j) ≡ true → r.portal_session_id ≡ j
    same_id j t = ground (arith, eq_iff r.portal_session_id j)

    kept :
        (j : String)
        → is_some (lookup j (insert r.portal_session_id (cleared_record now r) d))
          ≡ is_some (lookup j d)
    kept j =
        ap is_some (lookup-insert r.portal_session_id j (cleared_record now r) d)
        ∙ elim (Bool-cases (r.portal_session_id == j)) [
          | inr f ↦ rw f refl
          | inl t ↦ rw t (sym (ap (λ (i : String). is_some (lookup i d)) (sym (same_id j t)) ∙ h.0))
        ]

-- The records that `clear` writes over are there.
active-present :
    (s : SessionStore)
    → IsWellKept s
    → All (λ x. is_some (lookup x.portal_session_id s.sessions) ≡ true) (list_active s)
unfolding list_active
active-present s v =
    All-of_In (λ x. is_some (lookup x.portal_session_id s.sessions) ≡ true) (list_active s)
      (λ x i.
        let (j, found) =
          In-values x s.sessions v.once
            (In-of_select (λ r. not r.deleted) x (values s.sessions) i) in
        ap (λ h. is_some (lookup h s.sessions)) (v.keyed j x found) ∙ ap is_some found)

status_of-cleared :
    (before after : Option SessionRecord)
    → is_some after ≡ is_some before
    → ((x : SessionRecord) → after ≡ some x → x.deleted ≡ true)
    → status_of after ≡ gone (status_of before)
status_of-cleared none none same del = refl
status_of-cleared none (some x) same del = absurd (ground (arith, same))
status_of-cleared (some r) none same del = absurd (ground (arith, same))
status_of-cleared (some r) (some x) same del = rw (del x refl) (sym (gone_there r.deleted))

clear-status :
    (now : SessionRecord → String) (s : SessionStore)
    → IsWellKept s
    → (k : String) → statuses (SessionStore.clear now s).0 k ≡ gone (statuses s k)
unfolding statuses SessionStore.clear save
clear-status now s v k =
    status_of-cleared (lookup k s.sessions) (lookup k (SessionStore.clear now s).0.sessions)
      (write_cleared-keys now k (list_active s) s.sessions (active-present s v))
      (λ x found. clear_deletes_all now k x s v.keyed found)

write_cleared-IsWellKept :
    (now : SessionRecord → String) (rs : List SessionRecord) (s : SessionStore)
    → IsWellKept s
    → IsWellKept (record s { sessions = write_cleared now rs s.sessions })
unfolding write_cleared upsert save
write_cleared-IsWellKept now [] s v = record { keyed = v.keyed; once = v.once }
write_cleared-IsWellKept now (r ∷ rs) s v =
    let w =
      write_cleared-IsWellKept now rs (upsert (cleared_record now r) s)
        (upsert-IsWellKept (cleared_record now r) s v) in
    record { keyed = w.keyed; once = w.once }

step-IsWellKept : (c : Call) (s : SessionStore) → IsWellKept s → IsWellKept (step c s)
unfolding step SessionStore.rename SessionStore.set_generated_title SessionStore.mark_deleted
    SessionStore.clear save SessionStore.update_after_chat
    SessionStore.replace_opencode_session_after_mutation
step-IsWellKept (rename now id title) s v = elim (Option-cases (lookup id s.sessions)) [
  | inl no_session ↦ rw (step, SessionStore.rename, no_session) v
  | inr (r, p) ↦ rw (step, SessionStore.rename, p) (upsert-IsWellKept _ s v)
]
step-IsWellKept (set_generated_title id title) s v = elim (Option-cases (lookup id s.sessions)) [
  | inl no_session ↦ rw (step, SessionStore.set_generated_title, no_session) v
  | inr (r, p) ↦ rw (step, SessionStore.set_generated_title, p) (upsert-IsWellKept _ s v)
]
step-IsWellKept (mark_deleted now id) s v = elim (Option-cases (lookup id s.sessions)) [
  | inl no_session ↦ rw (step, SessionStore.mark_deleted, no_session) v
  | inr (r, p) ↦ rw (step, SessionStore.mark_deleted, p) (upsert-IsWellKept _ s v)
]
step-IsWellKept (clear now) s v =
    let w = write_cleared-IsWellKept now (list_active s) s v in
    record { keyed = w.keyed; once = w.once }
step-IsWellKept (update_after_chat now id m t model agent) s v =
    elim (Option-cases (lookup id s.sessions)) [
      | inl no_session ↦ rw (step, SessionStore.update_after_chat, no_session) v
      | inr (r, p) ↦ elim (Bool-cases r.deleted) [
        | inl d ↦ rw (step, SessionStore.update_after_chat, p, d) v
        | inr a ↦ rw (step, SessionStore.update_after_chat, p, a) (upsert-IsWellKept _ s v)
      ]
    ]
step-IsWellKept (replace_opencode_session_after_mutation now id o n m) s v =
    elim (Option-cases (lookup id s.sessions)) [
      | inl no_session ↦
          rw (step, SessionStore.replace_opencode_session_after_mutation, no_session) v
      | inr (r, p) ↦ elim (Bool-cases r.deleted) [
        | inl d ↦ rw (step, SessionStore.replace_opencode_session_after_mutation, p, d) v
        | inr a ↦
            rw (step, SessionStore.replace_opencode_session_after_mutation, p, a)
              (upsert-IsWellKept _ s v)
      ]
    ]

step_refines :
    (c : Call) (s : SessionStore)
    → IsWellKept s
    → (k : String) → statuses (step c s) k ≡ spec_step c (statuses s) k
unfolding step spec_step
step_refines (rename now id title) s v k = rename-status s v k now id title
step_refines (set_generated_title id title) s v k = title-status s v k id title
step_refines (mark_deleted now id) s v k = delete-status s v k now id
step_refines (clear now) s v k = clear-status now s v k
step_refines (update_after_chat now id m t model agent) s v k =
    chat-status s v k now id m t model agent
step_refines (replace_opencode_session_after_mutation now id o n m) s v k =
    replace-status s v k now id o n m

write-IsWellKept : (w : Write) (s : SessionStore) → IsWellKept s → IsWellKept (write w s)
unfolding write
write-IsWellKept (made c) s v = step-IsWellKept c s v
write-IsWellKept (stored r) s v = upsert-IsWellKept r s v

write_refines :
    (w : Write) (s : SessionStore)
    → IsWellKept s
    → (k : String) → statuses (write w s) k ≡ spec_write w (statuses s) k
unfolding write spec_write
write_refines (made c) s v k = step_refines c s v k
write_refines (stored r) s v k = statuses-upsert r.portal_session_id k r s refl

-- In a store that keeps each record once, under its own id: after any calls of `upsert` and of the
-- methods that change a record (loading is not among them), each id is absent, active or deleted
-- exactly as what these calls promise, run over the statuses alone, says. A stored record gives its
-- own id the status of that record, a deletion by id or of all sessions turns active into deleted, and
-- no other call changes a status.
pub run_refines :
    (writes : List Write) (s : SessionStore)
    → IsWellKept s
    → statuses (run writes s) ≡ spec_run writes (statuses s)
unfolding run spec_run
run_refines [] s v = refl
run_refines (w ∷ writes) s v =
    run_refines writes (write w s) (write-IsWellKept w s v)
    ∙ ap (spec_run writes) (fun_ext (write_refines w s v))
