-- ===== src/SessionStore/Names.antt =====
-- The name that session_store.py shows for a session, and its lookups.
use engineering_flow_platfor.Base.{
  String, ◌≡◌, refl, sym, ap, ◌∙◌, ◌≢◌, ◌⊎◌, inl, inr, Bool, true, false, not, Option, none, some,
  List, [], ◌∷◌, arith, eq_iff, ◌==◌, nat_eq, string_eq, pair_eq, Bool-cases, some_inj, In, here,
  there, In-cons, All-In, In-select, All-select, In-of_select, is_empty, strip, Dict, values,
  lookup, insert, lookup-insert, lookup-In,
}
use engineering_flow_platfor.SessionStore.{
  SessionRecord, SessionStore, clean_text, session_display_name, session_name_source, list_active,
  save, upsert, rename, set_generated_title, first_with, find_by_opencode_session_id, clear,
  write_cleared, cleared_record,
}
use engineering_flow_platfor.SessionStore.Deleted.{IsKeyed}

abbrev pub name_of : Option SessionRecord → String
name_of none = ""
name_of (some r) = session_display_name r

abbrev pub source_of : Option SessionRecord → String
source_of none = ""
source_of (some r) = session_name_source r

written :
    (id : String) (r : SessionRecord) (d : Dict String SessionRecord)
    → r.portal_session_id ≡ id
    → lookup id (insert r.portal_session_id r d) ≡ some r
written id r d same =
    lookup-insert r.portal_session_id id r d ∙ rw ((eq_iff r.portal_session_id id).1 same) refl

lookup-rename :
    (now id title : String) (r : SessionRecord) (s : SessionStore)
    → r.portal_session_id ≡ id
    → lookup id s.sessions ≡ some r
    → lookup id (rename now id title s).0.sessions
      ≡ some (record r { title = title; custom_title = some title; updated_at = now })
unfolding rename upsert save
lookup-rename now id title r s same found =
    rw (found, rename)
      (written id (record r { title = title; custom_title = some title; updated_at = now })
        s.sessions same)

lookup-set_generated_title :
    (id title : String) (r : SessionRecord) (s : SessionStore)
    → r.portal_session_id ≡ id
    → lookup id s.sessions ≡ some r
    → lookup id (set_generated_title id title s).0.sessions
      ≡ some (record r { generated_title = clean_text title })
unfolding set_generated_title upsert save
lookup-set_generated_title id title r s same found =
    rw (found, set_generated_title)
      (written id (record r { generated_title = clean_text title }) s.sessions same)

-- In a store that keeps each record under its own id: after a rename to a title that is no blank,
-- the name of the session is that title without outer spaces, it counts as custom, and a title
-- that is generated later changes neither.
pub rename_wins :
    (now id title generated : String) (r : SessionRecord) (s : SessionStore)
    → IsKeyed s
    → lookup id s.sessions ≡ some r
    → is_empty (strip title) ≡ false
    → let renamed = (rename now id title s).0 in
      let titled = (set_generated_title id generated renamed).0 in
      (name_of (lookup id renamed.sessions) ≡ strip title)
      × (name_of (lookup id titled.sessions) ≡ strip title)
      × (source_of (lookup id titled.sessions) ≡ "custom")
unfolding session_display_name session_name_source clean_text
rename_wins now id title generated r s keyed found full =
    let first = lookup-rename now id title r s (keyed id r found) found in
    let titled =
      lookup-set_generated_title id generated
        (record r { title = title; custom_title = some title; updated_at = now })
        (rename now id title s).0 (keyed id r found) first in
    (rw (first, full) refl, rw (titled, full) refl, rw (titled, full) refl)

first_with-In :
    (id : String) (r : SessionRecord) (rs : List SessionRecord)
    → first_with id rs ≡ some r
    → In r rs × (r.opencode_session_id ≡ id)
unfolding first_with
first_with-In id r [] h = absurd (ground arith)
first_with-In id r (x ∷ rs) h = elim (Bool-cases (x.opencode_session_id == id)) [
  | inl t ↦
      let same = some_inj (rw t at h) in
      (
        here (sym same),
        ap (λ y. y.opencode_session_id) (sym same) ∙ (eq_iff x.opencode_session_id id).0 t,
      )
  | inr f ↦ let rest = first_with-In id r rs (rw f at h) in (there rest.0, rest.1)
]

-- The session that is found for an OpenCode session is an active one of it.
pub find_by_opencode_session_id_lem :
    (id : String) (r : SessionRecord) (s : SessionStore)
    → find_by_opencode_session_id id s ≡ some r
    → In r (values s.sessions) × (r.opencode_session_id ≡ id) × (r.deleted ≡ false)
unfolding find_by_opencode_session_id list_active
find_by_opencode_session_id_lem id r s h =
    let found = first_with-In id r (list_active s) h in
    let is_active : SessionRecord → Bool = λ x. not x.deleted in
    (
      In-of_select is_active r (values s.sessions) found.0,
      found.1,
      ground (
        arith,
        All-In (λ x. not x.deleted ≡ true) (list_active s)
            (All-select is_active (values s.sessions)) r found.0,
      ),
    )

cleared_or_old :
    (now : SessionRecord → String) (k : String) (r : SessionRecord)
    → (rs : List SessionRecord) (d : Dict String SessionRecord)
    → lookup k (write_cleared now rs d) ≡ some r
    → (r.deleted ≡ true)
      ⊎ ((lookup k d ≡ some r) × ((x : SessionRecord) → In x rs → x.portal_session_id ≢ k))
unfolding write_cleared
cleared_or_old now k r [] d h = inr (h, λ x i. elim i [ ])
cleared_or_old now k r (y ∷ ys) d h =
    elim (cleared_or_old now k r ys (insert y.portal_session_id (cleared_record now y) d) h) [
      | inl del ↦ inl del
      | inr (p, others) ↦
          let q = sym (lookup-insert y.portal_session_id k (cleared_record now y) d) ∙ p in
          elim (Bool-cases (y.portal_session_id == k)) [
            | inl t ↦ inl (ap (λ x. x.deleted) (sym (some_inj (rw t at q))))
            | inr f ↦ inr (
              rw f at q,
              λ x i. elim (In-cons i) [
                | inl e ↦ ground (arith, e, eq_iff y.portal_session_id k)
                | inr i ↦ others x i
              ],
            )
          ]
    ]

-- After `clear` every session is deleted, in a store that keeps each record under its own id.
pub clear_deletes_all :
    (now : SessionRecord → String) (k : String) (r : SessionRecord) (s : SessionStore)
    → IsKeyed s
    → lookup k (clear now s).0.sessions ≡ some r
    → r.deleted ≡ true
unfolding clear save list_active
clear_deletes_all now k r s keyed h = elim (cleared_or_old now k r (list_active s) s.sessions h) [
  | inl del ↦ del
  | inr (p, others) ↦ elim (Bool-cases r.deleted) [
    | inl del ↦ del
    | inr active ↦ absurd (
        others r
          (In-select (λ x. not x.deleted) r (values s.sessions) (rw active refl)
            (lookup-In k r s.sessions p))
          (keyed k r p))
  ]
]
