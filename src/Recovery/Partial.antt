-- ===== src/Recovery/Partial.antt =====
-- The sessions that recovery.py leaves: those that OpenCode does not know are marked.
use mathlib.Core.Path.{subst}
use engineering_flow_platfor.Base.{
  String, ◌≡◌, refl, sym, ap, ◌∙◌, ◌⊎◌, inl, inr, Bool, true, false, not, ◌&&◌, Option, none, some,
  List, [], ◌∷◌, arith, eq_iff, if◌then◌else◌, ◌==◌, nat_eq, string_eq, pair_eq, Bool-cases,
  Option-cases, In, here, there, In-cons, All-In, In-select, All-select, In-of_select, Dict, values,
  lookup, lookup-insert, lookup-In,
}
use engineering_flow_platfor.SessionStore.{SessionRecord, SessionStore, list_active, upsert, save}
use engineering_flow_platfor.SessionStore.Status.{IsWellKept}
use engineering_flow_platfor.SessionStore.Refined.{In-values}
use engineering_flow_platfor.Recovery.{
  Answer, found, not_found, other_error, Sessions, partial_record, check_session, check_sessions,
  recover_sessions,
}
use engineering_flow_platfor.Recovery.Prefix.{Startup}

abbrev pub is_unknown : Answer → Bool
is_unknown not_found = true
is_unknown _ = false

module _ (s : Startup) (get_session : String → Answer) where
  -- What becomes of the record of a session.
  abbrev pub recovered : SessionRecord → SessionRecord
  recovered r =
      if not r.deleted && is_unknown (get_session r.opencode_session_id)
      then partial_record s r
      else r

  abbrev pub recovered_option : Option SessionRecord → Option SessionRecord
  recovered_option none = none
  recovered_option (some r) = some (recovered r)

  -- After the loop an id has what it had, or the marked record of one of the sessions.
  abbrev pub Checked :
      String → List SessionRecord → Dict String SessionRecord → Option SessionRecord → Type 0
  Checked k rs d o =
      ((x : SessionRecord) × In x rs
        × (x.portal_session_id ≡ k)
        × (is_unknown (get_session x.opencode_session_id) ≡ true)
        × (o ≡ some (partial_record s x)))
      ⊎ ((o ≡ lookup k d)
          × ((x : SessionRecord)
              → In x rs
              → x.portal_session_id ≡ k
              → is_unknown (get_session x.opencode_session_id) ≡ false))

  check_sessions-Checked :
      (k : String) (rs : List SessionRecord) (g : Sessions)
      → Checked k rs g.store.sessions (lookup k (check_sessions s get_session rs g).store.sessions)
  unfolding check_sessions upsert save
  check_sessions-Checked k [] g = inr (refl, λ x i. elim i [ ])
  check_sessions-Checked k (r ∷ rs) g =
      elim (check_sessions-Checked k rs (check_session s (get_session r.opencode_session_id) r g)) [
        | inl (x, i, same, unknown, o) ↦ inl (x, there i, same, unknown, o)
        | inr (o, others) ↦ elim (turn (get_session r.opencode_session_id) refl) [
          | inl (same, unknown, p) ↦ inl (r, here refl, same, unknown, o ∙ p)
          | inr (p, this) ↦ inr (
            o ∙ p,
            λ x i same. elim (In-cons i) [
              | inl e ↦
                  subst (λ y. is_unknown (get_session y.opencode_session_id) ≡ false) (sym e)
                    (this (sym (ap (λ y. y.portal_session_id) e) ∙ same))
              | inr i ↦ others x i same
            ],
          )
        ]
      ]
    where
      turn :
          (a : Answer)
          → get_session r.opencode_session_id ≡ a
          → ((r.portal_session_id ≡ k)
              × (is_unknown (get_session r.opencode_session_id) ≡ true)
              × (lookup k (check_session s a r g).store.sessions ≡ some (partial_record s r)))
            ⊎ ((lookup k (check_session s a r g).store.sessions ≡ lookup k g.store.sessions)
                × (r.portal_session_id ≡ k
                    → is_unknown (get_session r.opencode_session_id) ≡ false))
      turn found q = inr (refl, λ e. ap is_unknown q)
      turn other_error q = inr (refl, λ e. ap is_unknown q)
      turn not_found q =
          let p = lookup-insert r.portal_session_id k (partial_record s r) g.store.sessions in
          elim (Bool-cases (r.portal_session_id == k)) [
            | inl t ↦ inl ((eq_iff r.portal_session_id k).0 t, ap is_unknown q, p ∙ rw t refl)
            | inr f ↦
                inr
                  (p ∙ rw f refl, λ e. absurd (ground (arith, eq_iff r.portal_session_id k, e, f)))
          ]

  -- In a store that keeps each record once, under its own id: the start marks exactly the active
  -- sessions that OpenCode answers for with 404 as partly recovered, with a new time of update, and
  -- leaves every other session as it is, the deleted ones too.
  pub recover_sessions_lem :
      (store : SessionStore) (k : String)
      → IsWellKept store
      → lookup k (recover_sessions s get_session store).store.sessions
        ≡ recovered_option (lookup k store.sessions)
  unfolding recover_sessions list_active
  recover_sessions_lem store k v =
      elim (check_sessions-Checked k (list_active store)
        (record { store = store; partial_recovery_marked = 0; opencode_errors = 0 })) [
          | inl (x, i, same, unknown, o) ↦
              let is_active : SessionRecord → Bool = λ r. not r.deleted in
              let (j, p) =
                In-values x store.sessions v.once
                  (In-of_select is_active x (values store.sessions) i) in
              let active =
                All-In (λ r. not r.deleted ≡ true) (list_active store)
                  (All-select is_active (values store.sessions)) x i in
              let here_found = ap (λ h. lookup h store.sessions) (sym same ∙ v.keyed j x p) ∙ p in
              o ∙ rw (here_found, active, unknown) refl
          | inr (o, others) ↦ o ∙ elim (Option-cases (lookup k store.sessions)) [
            | inl no_session ↦ rw no_session refl
            | inr (r, p) ↦ elim (Bool-cases r.deleted) [
              | inl d ↦ rw (p, d) refl
              | inr a ↦
                  rw
                    (
                      p,
                      a,
                      others r
                          (In-select (λ x. not x.deleted) r (values store.sessions) (rw a refl)
                            (lookup-In k r store.sessions p))
                          (v.keyed k r p),
                    )
                    refl
            ]
          ]
        ]
