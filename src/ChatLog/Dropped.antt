-- ===== src/ChatLog/Dropped.antt =====
-- What chatlog_store.py leaves when it drops the payload of a log, and what `_ensure` gives.
use mathlib.Core.Path.{subst}
use engineering_flow_platfor.Base.{
  String, ◌≡◌, refl, sym, ap, ◌∙◌, ◌≢◌, inl, inr, true, false, Option, none, some, List, ◌∷◌, arith,
  eq_iff, if◌then◌else◌, ◌==◌, nat_eq, string_eq, pair_eq, Bool-cases, Option-cases, Dict, lookup,
  erase, IsDict, lookup-erase, erase-IsDict,
}
use engineering_flow_platfor.Base.Value.{Value}
use engineering_flow_platfor.ChatLog.{
  ChatLogStore, Moment, Outcome, nothing, raised, returned, sanitize, get_log, forget,
  quarantine_corrupt_file, ensured, ensure, delete_log,
}
use engineering_flow_platfor.ChatLog.Coherent.{content, view, IsCoherent}
use engineering_flow_platfor.ChatLog.Written.{contains-discard_other, contains-discard}
use engineering_flow_platfor.ChatLog.Ensured.{
  base, left, same_view, filed_view, Reads, get_named-Got, forgotten, forgotten_other,
}

module _ (name : String) (s : ChatLogStore) (c : IsCoherent s) where
  -- Without its payload in memory a name has what its file holds.
  pub dropped-IsCoherent :
      (files : Dict String (Option Value)) (backups : List (Option Value))
      → IsDict files
      → ((k : String) → (name == k) ≡ false → lookup k files ≡ lookup k s.files)
      → IsCoherent (record (forget name s) { files = files; backups = backups })
        × ((k : String)
            → view (record (forget name s) { files = files; backups = backups }) k
              ≡ (if name == k then content (lookup name files) else view s k))
  unfolding forget
  dropped-IsCoherent files backups once other =
      let dropped : ChatLogStore = record (forget name s) { files = files; backups = backups } in
      (
        record {
          cached_once = erase-IsDict name s.cache c.cached_once;
          filed_once = once;
          kept = λ k idle waits. elim (Bool-cases (name == k)) [
            | inl t ↦
                absurd (ground (arith, (eq_iff name k).0 t, waits, contains-discard name s.pending))
            | inr f ↦
                let (payload, p) =
                  c.kept k refl (sym (contains-discard_other name k s.pending f) ∙ waits) in
                (payload, forgotten_other name s c k f ∙ p)
          ];
          clean = λ k payload idle p free. elim (Bool-cases (name == k)) [
            | inl t ↦ absurd (ground (arith, (eq_iff name k).0 t, forgotten name s c, p))
            | inr f ↦
                other k f
                ∙ c.clean k payload refl (sym (forgotten_other name s c k f) ∙ p)
                    (sym (contains-discard_other name k s.pending f) ∙ free)
          ];
        },
        λ k. elim (Bool-cases (name == k)) [
          | inl t ↦ rw t (
              ap (view dropped) (sym ((eq_iff name k).0 t))
              ∙ filed_view name dropped (lookup name files) (forgotten name s c) refl)
          | inr f ↦ rw f (same_view s _ k (forgotten_other name s c k f) (other k f))
        ],
      )

raised_file :
    (name : String) (s : ChatLogStore)
    → view s name ≡ raised
    → content (lookup name s.files) ≡ raised
unfolding view
raised_file name s h = elim (Option-cases (lookup name s.cache)) [
  | inl p ↦ rw p at h
  | inr (payload, p) ↦ absurd (ground (arith, rw p at h))
]

-- What a call leaves that answers for one name: the name has this, and every other what it had.
abbrev pub Leaves : String → Outcome → ChatLogStore → ChatLogStore → Type 0
Leaves name o s t = IsCoherent t × ((k : String) → view t k ≡ (if name == k then o else view s k))

lookup-erase_self :
    (name : String) (d : Dict String (Option Value)) → IsDict d → lookup name (erase name d) ≡ none
lookup-erase_self name d once = lookup-erase name name d once ∙ rw ((eq_iff name name).1 refl) refl

Leaves-self :
    (name : String) (o : Outcome) (s : ChatLogStore)
    → IsCoherent s
    → view s name ≡ o
    → Leaves name o s s
Leaves-self name o s c h = (
  c,
  λ k. elim (Bool-cases (name == k)) [
    | inl t ↦ rw t (ap (view s) (sym ((eq_iff name k).0 t)) ∙ h)
    | inr f ↦ rw f refl
  ],
)

-- A name that is left with one thing, in a store where a reader gets what it got before.
Leaves-after :
    (name : String) (o p : Outcome) (s t u : ChatLogStore)
    → Reads s t
    → o ≡ p
    → Leaves name o t u
    → Leaves name p s u
Leaves-after name o p s t u r same l =
    (l.0, λ k. l.1 k ∙ elim (Bool-cases (name == k)) [ inl h ↦ rw h same | inr f ↦ rw f (r.1 k) ])

module _ (m : Moment) (name : String) (s : ChatLogStore) where
  quarantine_missing : lookup name s.files ≡ none → content (lookup name s.files) ≢ raised
  quarantine_missing p h = ground (arith, p, h)

  quarantine_moved :
      (o : Option Value)
      → lookup name s.files ≡ some o
      → m.movable ≡ true
      → quarantine_corrupt_file m name s
        ≡ record (forget name s) { files = erase name s.files; backups = o ∷ s.backups }
  unfolding quarantine_corrupt_file forget
  quarantine_moved o p t = rw (p, quarantine_corrupt_file, t) refl

  quarantine_fixed :
      (o : Option Value)
      → lookup name s.files ≡ some o
      → m.movable ≡ false
      → quarantine_corrupt_file m name s
        ≡ record (forget name s) { files = s.files; backups = s.backups }
  unfolding quarantine_corrupt_file forget
  quarantine_fixed o p f = rw (p, quarantine_corrupt_file, f) refl

quarantine-Leaves :
    (m : Moment) (name : String) (s : ChatLogStore)
    → IsCoherent s
    → view s name ≡ raised
    → Leaves name (left m raised) s (quarantine_corrupt_file m name s)
quarantine-Leaves m name s c h = elim (Option-cases (lookup name s.files)) [
  | inl p ↦ absurd (quarantine_missing m name s p (raised_file name s h))
  | inr (o, p) ↦ elim (Bool-cases m.movable) [
    | inl t ↦
        let gone = lookup-erase_self name s.files c.filed_once in
        subst (Leaves name (left m raised) s) (sym (quarantine_moved m name s o p t)) (
          Leaves-after name _ (left m raised) s s _ (c, λ k. refl) (ap content gone ∙ rw t refl)
            (dropped-IsCoherent name s c (erase name s.files) (o ∷ s.backups)
              (erase-IsDict name s.files c.filed_once)
              (λ k f. lookup-erase name k s.files c.filed_once ∙ rw f refl)))
    | inr f ↦ subst (Leaves name (left m raised) s) (sym (quarantine_fixed m name s o p f)) (
        Leaves-after name _ (left m raised) s s _ (c, λ k. refl) (raised_file name s h ∙ rw f refl)
          (dropped-IsCoherent name s c s.files s.backups c.filed_once (λ k f. refl)))
  ]
]

ensured-Leaves :
    (m : Moment) (id : String) (s : ChatLogStore) (o : Outcome)
    → IsCoherent s
    → view s (sanitize id) ≡ o
    → Leaves (sanitize id) (left m o) s (ensured m id s o).0 × ((ensured m id s o).1 ≡ base m id o)
ensured-Leaves m id s nothing c h = (Leaves-self (sanitize id) nothing s c h, refl)
ensured-Leaves m id s raised c h = (quarantine-Leaves m (sanitize id) s c h, refl)
ensured-Leaves m id s (returned v) c h = (Leaves-self (sanitize id) (returned v) s c h, refl)

pub ensure-Leaves :
    (m : Moment) (id : String) (s : ChatLogStore)
    → IsCoherent s
    → Leaves (sanitize id) (left m (view s (sanitize id))) s (ensure m id s).0
      × ((ensure m id s).1 ≡ base m id (view s (sanitize id)))
unfolding ensure
ensure-Leaves m id s c =
    let g = get_log id s in
    let got = get_named-Got (sanitize id) s c in
    let e = ensured-Leaves m id g.0 g.1 got.0.0 (got.0.1 (sanitize id) ∙ sym got.1) in
    (
      Leaves-after (sanitize id) (left m g.1) _ s g.0 _ got.0 (ap (left m) got.1) e.0,
      e.1 ∙ ap (base m id) got.1,
    )

-- `delete` leaves nothing under the name.
pub delete-Leaves :
    (id : String) (s : ChatLogStore)
    → IsCoherent s
    → Leaves (sanitize id) nothing s (delete_log id s).0
unfolding delete_log forget
delete-Leaves id s c =
    let name = sanitize id in
    elim (Option-cases (lookup name s.files)) [
      | inl p ↦ subst (Leaves name nothing s) (sym (missing p)) (
          Leaves-after name _ nothing s s _ (c, λ k. refl) (ap content p)
            (dropped-IsCoherent name s c s.files s.backups c.filed_once (λ k f. refl)))
      | inr (o, p) ↦
          let gone = lookup-erase_self name s.files c.filed_once in
          subst (Leaves name nothing s) (sym (there_before o p)) (
            Leaves-after name _ nothing s s _ (c, λ k. refl) (ap content gone)
              (dropped-IsCoherent name s c (erase name s.files) s.backups
                (erase-IsDict name s.files c.filed_once)
                (λ k f. lookup-erase name k s.files c.filed_once ∙ rw f refl)))
    ]
  where
    missing :
        lookup (sanitize id) s.files ≡ none
        → (delete_log id s).0
          ≡ record (forget (sanitize id) s) { files = s.files; backups = s.backups }
    missing p = rw (delete_log, forget, p) refl

    there_before :
        (o : Option Value)
        → lookup (sanitize id) s.files ≡ some o
        → (delete_log id s).0 ≡ record (forget (sanitize id) s) {
          files = erase (sanitize id) s.files;
          backups = s.backups;
        }
    there_before o p = rw (delete_log, forget, p) refl
