-- ===== src/Titles/Named.antt =====
-- session_title.py: what the title that a model gives does to the sessions, as they are by then.
use mathlib.Core.Path.{subst}
use text.Mathlib.TextPositions.{eq_refl}
use engineering_flow_platfor.Base.{
  ◌≤◌, String, ◌≡◌, refl, sym, ◌∙◌, ◌≢◌, ◌⊎◌, inl, inr, true, false, some, arith, eq_iff, ◌==◌,
  nat_eq, string_eq, pair_eq, Bool-cases, Option-cases, some_inj, is_empty, lookup, insert,
  lookup-insert,
}
use engineering_flow_platfor.Base.Value.{Value}
use engineering_flow_platfor.Base.Interpreter.{Texts}
use engineering_flow_platfor.SessionStore
use engineering_flow_platfor.SessionStore.{
  SessionRecord, SessionStore, set_generated_title, clean_text,
}
use engineering_flow_platfor.SessionStore.Deleted.{IsKeyed}
use engineering_flow_platfor.Titles.{
  is_given, Stage, keeps, key_error, title_error, next, store_title, finish,
}
use engineering_flow_platfor.Titles.Clean.{title_max_chars, characters, clean_title}
use engineering_flow_platfor.Titles.Short.{clean_title_lem}

-- The session may be given a generated title.
pub record IsOpen (id : String) (r : SessionRecord) (s : SessionStore) : Type 0 where
  pub found : lookup id s.sessions ≡ some r
  pub alive : r.deleted ≡ false
  pub unnamed : is_given r.custom_title ≡ false

abbrev pub titled : SessionRecord → String → SessionRecord
titled r title = record r { generated_title = clean_text title }

-- What storing a title can come to.
data Stored (id title : String) (s : SessionStore) : SessionStore × Stage String → Type 0 where
  left : (x : Stage String) → ((title : String) → x ≢ next title) → Stored id title s (s, x)
  written :
      (r : SessionRecord)
      → IsOpen id r s
      → (s' : SessionStore) → s'.sessions ≡ insert r.portal_session_id (titled r title) s.sessions
      → Stored id title s (s', next title)

store_title-Stored :
    (id title : String) (s : SessionStore) → Stored id title s (store_title id title s)
unfolding store_title set_generated_title SessionStore.upsert SessionStore.save
store_title-Stored id title s = elim (Option-cases (lookup id s.sessions)) [
  | inl absent ↦ rw (absent, store_title) (left key_error (λ x h. cc))
  | inr (r, p) ↦ elim (Bool-cases r.deleted) [
    | inl gone ↦ rw (p, store_title, gone) (left key_error (λ x h. cc))
    | inr alive ↦ elim (Bool-cases (is_given r.custom_title)) [
      | inl named ↦ rw (p, store_title, alive, named) (left keeps (λ x h. cc))
      | inr unnamed ↦
          rw (p, store_title, alive, unnamed)
            (written r (record { found = p; alive = alive; unnamed = unnamed }) _
              (rw (p, set_generated_title) refl))
    ]
  ]
]

next_inj : {a b : String} → ◌≡◌ {A = Stage String} (next a) (next b) → a ≡ b
next_inj h = cc

module _ (t : Texts) (id : String) (text : Value) (s : SessionStore) where
  finish-Stored : Stored id (clean_title t text) s (finish t id text s)
  unfolding finish
  finish-Stored = elim (Bool-cases (is_empty (clean_title t text))) [
    | inl nothing ↦
        rw nothing (left (title_error 502 "The model returned no usable title.") (λ x h. cc))
    | inr some_title ↦ rw some_title (store_title-Stored id (clean_title t text) s)
  ]

  -- In a store that keeps each record under its own id: the title of a reply that comes late is not stored for a session that was deleted or named by its
  -- member meanwhile, nor for any other session.
  pub finish_keeps :
      IsKeyed s
      → (k : String) (r : SessionRecord) → lookup k s.sessions ≡ some r
      → (k ≢ id) ⊎ (r.deleted ≡ true) ⊎ (is_given r.custom_title ≡ true)
      → lookup k (finish t id text s).0.sessions ≡ some r
  finish_keeps keyed k r found why = at (finish t id text s) finish-Stored
    where
      same_record : (w : SessionRecord) → lookup id s.sessions ≡ some w → k ≡ id → w ≡ r
      same_record w p e = some_inj (sym p ∙ rw (← e) found)

      elsewhere : (w : SessionRecord) → IsOpen id w s → (k ≡ id) → ⊥
      elsewhere w is_open e = elim why [
        | inl other ↦ other e
        | inr (inl gone) ↦ cc (is_open.alive, same_record w is_open.found e, gone)
        | inr (inr named) ↦ cc (is_open.unnamed, same_record w is_open.found e, named)
      ]

      at :
          (p : SessionStore × Stage String)
          → Stored id (clean_title t text) s p
          → lookup k p.0.sessions ≡ some r
      at p (left x never) = found
      at p (written w is_open s' wrote) =
          rw (wrote, lookup-insert w.portal_session_id k (titled w (clean_title t text)) s.sessions)
            (elim (Bool-cases (w.portal_session_id == k)) [
              | inl same ↦ absurd (
                  elsewhere w is_open
                    (ground (arith, eq_iff w.portal_session_id k, keyed id w is_open.found)))
              | inr other ↦ rw other found
            ])

  finish-full : (title : String) → (finish t id text s).1 ≡ next title → is_empty title ≡ false
  unfolding finish
  finish-full title h = elim (Bool-cases (is_empty (clean_title t text))) [
    | inl nothing ↦ absurd (refused nothing h)
    | inr full ↦ at (finish t id text s) finish-Stored h full
  ]
    where
      no_title :
          is_empty (clean_title t text) ≡ true
          → (finish t id text s).1 ≡ title_error 502 "The model returned no usable title."
      no_title nothing = rw (finish, nothing) refl

      refused : is_empty (clean_title t text) ≡ true → (finish t id text s).1 ≡ next title → ⊥
      refused nothing h = cc (sym (no_title nothing) ∙ h)

      at :
          (p : SessionStore × Stage String)
          → Stored id (clean_title t text) s p
          → p.1 ≡ next title
          → is_empty (clean_title t text) ≡ false
          → is_empty title ≡ false
      at p (left x never) h full = absurd (never title h)
      at p (written w is_open s' wrote) h full = subst (λ x. is_empty x ≡ false) (next_inj h) full

  -- In a store that keeps each record under its own id: a title that is returned is stored, is not empty
  -- and has at most sixty characters, and the session is there, not deleted and not named by its
  -- member; only its generated title is written.
  pub finish_stores :
      IsKeyed s
      → (title : String) → (finish t id text s).1 ≡ next title
      → (r : SessionRecord) × IsOpen id r s
        × (lookup id (finish t id text s).0.sessions ≡ some (titled r title))
        × (title ≡ clean_title t text)
        × (is_empty title ≡ false)
        × (characters title ≤ title_max_chars)
  finish_stores keyed title h = at (finish t id text s) finish-Stored h
    where
      at :
          (p : SessionStore × Stage String)
          → Stored id (clean_title t text) s p
          → p.1 ≡ next title
          → (r : SessionRecord) × IsOpen id r s
            × (lookup id p.0.sessions ≡ some (titled r title))
            × (title ≡ clean_title t text)
            × (is_empty title ≡ false)
            × (characters title ≤ title_max_chars)
      at p (left x never) q = absurd (never title q)
      at p (written w is_open s' wrote) q =
          let same = next_inj q in
          (
            w,
            is_open,
            rw
                (
                  wrote,
                  ← same,
                  lookup-insert w.portal_session_id id (titled w (clean_title t text)) s.sessions,
                  keyed id w is_open.found,
                  eq_refl,
                )
                refl,
            sym same,
            finish-full title h,
            subst (λ x. characters x ≤ title_max_chars) same (clean_title_lem t text).0,
          )
