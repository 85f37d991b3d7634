-- ===== src/Recovery/Saves.antt =====
-- What a save of recovery.py does: it raises, changes nothing, or writes the file of its task anew with
-- a record that is blocked.
use mathlib.Core.Path.{subst}
use engineering_flow_platfor.Base.{
  ℕ, ◌+◌, ◌<◌, String, ◌≡◌, refl, sym, ap, ◌∙◌, ◌⊎◌, inl, inr, true, false, Option, none, some, [],
  ◌∷◌, arith, eq_iff, ltb, ◌==◌, nat_eq, string_eq, pair_eq, Bool-cases, Option-cases, some_inj,
  All, contains, In, here, there, keys, lookup, insert, lookup-insert,
}
use engineering_flow_platfor.TaskStore.{
  TaskRecord, Limits, File, Directory, returned, invalid_task_id, read_record, get_task,
  is_valid_task_id,
}
use engineering_flow_platfor.TaskStore.Persist.{
  Form, forms, encode_record_for_persistence, file_of, save_task, kept_outcome,
}
use engineering_flow_platfor.TaskStore.Listing.{is_active}
use engineering_flow_platfor.TaskStore.Saved.{encoded}
use engineering_flow_platfor.Recovery.{blocked_after_restart_record, Progress}
use engineering_flow_platfor.Recovery.Prefix.{Startup, active_record_from_task_file_prefix}

-- The name of a file is the id of the record in it.
abbrev pub IsFiled : Directory → Type 0
IsFiled d =
    (k : String) (f : File) (r : TaskRecord)
    → lookup k d ≡ some f
    → f.content ≡ some r
    → r.task_id ≡ k

pub returned_inj : {r w : TaskRecord} → returned r ≡ returned w → r ≡ w
returned_inj h = cc

pub In-keys : (k : String) (f : File) (d : Directory) → lookup k d ≡ some f → In k (keys d)
unfolding lookup
In-keys k f [] h = absurd (ground (arith, h))
In-keys k f ((j, x) ∷ d) h = elim (Bool-cases (j == k)) [
  | inl t ↦ here (sym ((eq_iff j k).0 t))
  | inr n ↦ there (In-keys k f d (rw n at h))
]

module _ (bytes : Form → ℕ) (l : Limits) (r : TaskRecord) (d : Directory) where
  pub save_task-invalid :
      is_valid_task_id r.task_id ≡ false → save_task bytes l r d ≡ (d, invalid_task_id)
  unfolding save_task
  save_task-invalid bad = rw (bad, save_task) refl

  pub save_task-unwritten :
      is_valid_task_id r.task_id ≡ true
      → encode_record_for_persistence bytes l r ≡ none
      → save_task bytes l r d ≡ (d, kept_outcome bytes l (get_task l r.task_id d))
  unfolding save_task
  save_task-unwritten valid none_fits = rw (valid, save_task, none_fits) refl

  pub save_task-written :
      (f : Form)
      → is_valid_task_id r.task_id ≡ true
      → encode_record_for_persistence bytes l r ≡ some f
      → save_task bytes l r d ≡ (insert r.task_id (file_of bytes f) d, returned r)
  unfolding save_task
  save_task-written f valid fits = rw (valid, save_task, fits) refl

module _ (s : Startup) where
  abbrev pub encode : TaskRecord → Option Form
  encode r = encode_record_for_persistence s.bytes s.limits (blocked_after_restart_record s r)

  -- No form of the blocked record is within the limit.
  abbrev pub NoForm : TaskRecord → Type 0
  NoForm r =
      All (λ f. s.limits.persist_max_file_bytes < s.bytes f)
        (forms s.bytes s.limits (blocked_after_restart_record s r))

  -- What reading the file gives is no active task.
  abbrev pub Inactive : File → Type 0
  Inactive f =
      (r : TaskRecord)
      → read_record s.limits.load_max_file_bytes f ≡ returned r
      → is_active r ≡ false

  -- What reading the file gives is no active task, or one whose blocked record fits in no form.
  abbrev pub Settled : File → Type 0
  Settled f =
      (r : TaskRecord)
      → read_record s.limits.load_max_file_bytes f ≡ returned r
      → is_active r ≡ true
      → NoForm r

  abbrev pub AllSettled : Progress → Type 0
  AllSettled g = (k : String) (f : File) → lookup k g.tasks ≡ some f → Settled f

  -- What the file named `k` says of an active task: its record, or its first part.
  abbrev pub Source : String → File → TaskRecord → Type 0
  Source k f r =
      ((read_record s.limits.load_max_file_bytes f ≡ returned r) × (is_active r ≡ true))
      ⊎ (active_record_from_task_file_prefix s k f ≡ some r)

  -- Each file of `h` is one of `g`, or one that is not active and whose task is in the list of the
  -- blocked ones, which only grows.
  pub record Kept (g h : Progress) : Type 0 where
    pub files :
        (k : String) (f : File)
        → lookup k h.tasks ≡ some f
        → (lookup k g.tasks ≡ some f) ⊎ (Inactive f × (contains k h.blocked ≡ true))
    pub listed : (k : String) → contains k g.blocked ≡ true → contains k h.blocked ≡ true

  abbrev pub Done : Progress → String → Type 0
  Done g k = (f : File) → lookup k g.tasks ≡ some f → Settled f

  pub Kept-refl : (g : Progress) → Kept g g
  Kept-refl g = record { files = λ k f h. inl h; listed = λ k h. h }

  pub Kept-trans : (g h i : Progress) → Kept g h → Kept h i → Kept g i
  Kept-trans g h i p q = record {
    files = λ k f found. elim (q.files k f found) [
      | inr done ↦ inr done
      | inl old ↦ elim (p.files k f old) [
        | inl older ↦ inl older
        | inr done ↦ inr (done.0, q.listed k done.1)
      ]
    ];
    listed = λ k found. q.listed k (p.listed k found);
  }

  pub Inactive-Settled : (f : File) → Inactive f → Settled f
  Inactive-Settled f p r read active = absurd (ground (arith, p r read, active))

  pub Done-Kept : (g h : Progress) (k : String) → Done g k → Kept g h → Done h k
  Done-Kept g h k p q f found = elim (q.files k f found) [
    | inl old ↦ p f old
    | inr done ↦ Inactive-Settled f done.0
  ]

  pub content-of_read :
      (limit : ℕ) (f : File) (r : TaskRecord)
      → read_record limit f ≡ returned r
      → f.content ≡ some r
  unfolding read_record
  content-of_read limit f r read = elim (Bool-cases (ltb limit f.size)) [
    | inl large ↦ absurd (ground (arith, rw (large, read_record) at read))
    | inr small ↦ elim (Option-cases f.content) [
      | inl no_record ↦ absurd (ground (arith, rw (small, read_record, no_record) at read))
      | inr (w, p) ↦ p ∙ ap some (returned_inj (rw (small, read_record, p) at read))
    ]
  ]

  pub blocked-Inactive :
      (r : TaskRecord) (x : Form) → encode r ≡ some x → Inactive (file_of s.bytes x)
  unfolding blocked_after_restart_record
  blocked-Inactive r x p w read =
      let e = (encoded s.bytes s.limits (blocked_after_restart_record s r) x p).0 in
      let same =
        some_inj (sym (content-of_read s.limits.load_max_file_bytes (file_of s.bytes x) w read)) in
      let inactive : w.status ≡ "blocked" = ap (λ y. y.status) same ∙ e.status in rw inactive refl

  -- What a save that writes leaves.
  abbrev pub after_write : TaskRecord → Form → Progress → Progress
  after_write r x g = record {
    tasks = insert r.task_id (file_of s.bytes x) g.tasks;
    blocked = r.task_id ∷ g.blocked;
    marked = g.marked + 1;
  }

  pub written-Kept :
      (r : TaskRecord) (x : Form) (g : Progress) → encode r ≡ some x → Kept g (after_write r x g)
  written-Kept r x g p = record {
    files = λ k f h.
        let q = sym (lookup-insert r.task_id k (file_of s.bytes x) g.tasks) ∙ h in
        elim (Bool-cases (r.task_id == k)) [
          | inl t ↦ inr (subst Inactive (some_inj (rw t at q)) (blocked-Inactive r x p), rw t refl)
          | inr n ↦ inl (rw n at q)
        ];
    listed = λ k h. elim (Bool-cases (r.task_id == k)) [ inl t ↦ rw t refl | inr n ↦ rw n h ];
  }
