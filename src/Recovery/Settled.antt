-- ===== src/Recovery/Settled.antt =====
-- The tasks that recovery.py leaves: a task of an earlier run stays active only if no form of its
-- blocked record may be written.
use mathlib.Core.Path.{subst}
use engineering_flow_platfor.Base.{
  String, ◌≡◌, refl, sym, ap, ◌∙◌, ◌⊎◌, inl, inr, true, some, List, [], ◌∷◌, arith, eq_iff, nat_eq,
  string_eq, pair_eq, Bool-cases, Option-cases, some_inj, All, All-In, keys, lookup, lookup-insert,
}
use engineering_flow_platfor.TaskStore.{
  TaskRecord, File, Directory, Outcome, returned, nothing, invalid_task_id, exceeds_load_limit,
  read_error, exceeds_persistence_limit, key_error, read_record,
}
use engineering_flow_platfor.TaskStore.Persist.{Form, file_of}
use engineering_flow_platfor.TaskStore.Listing.{is_active}
use engineering_flow_platfor.Recovery.{
  Progress, save_blocked_after_restart, block_if_active, block_listed, block_by_prefix, sweep,
  recover_tasks,
}
use engineering_flow_platfor.Recovery.Prefix.{Startup}
use engineering_flow_platfor.Recovery.Saves.{
  IsFiled, returned_inj, In-keys, encode, NoForm, Inactive, Settled, AllSettled, Kept, Done,
  Kept-trans, Kept-refl, Done-Kept, content-of_read, blocked-Inactive, Inactive-Settled,
  after_write,
}
use engineering_flow_platfor.Recovery.Ends.{
  start, EndsIn, EndsIn-weaken, EndsIn-both, EndsIn-and_then, save-EndsIn,
}
use engineering_flow_platfor.Recovery.Turns.{block_listed-Kept, block_by_prefix-Kept, sweep-Kept}

module _ (s : Startup) (d : Directory) (filed : IsFiled d) where
  -- An active record whose blocked form is written stands in the file of its own id.
  written-Done :
      (id : String) (f : File) (r : TaskRecord) (x : Form) (g : Progress)
      → lookup id d ≡ some f
      → read_record s.limits.load_max_file_bytes f ≡ returned r
      → encode s r ≡ some x
      → Done s (after_write s r x g) id
  written-Done id f r x g old read fits y h =
      let same = filed id f r old (content-of_read s s.limits.load_max_file_bytes f r read) in
      let q = sym (lookup-insert r.task_id id (file_of s.bytes x) g.tasks) ∙ h in
      subst (Settled s) (some_inj (rw ((eq_iff r.task_id id).1 same) at q))
        (Inactive-Settled s (file_of s.bytes x) (blocked-Inactive s r x fits))

  same-Done :
      (id : String) (f : File) (g : Progress)
      → lookup id g.tasks ≡ some f
      → Settled s f
      → Done s g id
  same-Done id f g p settled y h = subst (Settled s) (some_inj (sym p ∙ h)) settled

  active-Done :
      (id : String) (f : File) (r : TaskRecord) (g : Progress)
      → lookup id d ≡ some f
      → lookup id g.tasks ≡ some f
      → read_record s.limits.load_max_file_bytes f ≡ returned r
      → is_active r ≡ true
      → EndsIn s d (λ h. Done s h id) (save_blocked_after_restart s r g)
  active-Done id f r g old p read active =
      save-EndsIn s d (λ h. Done s h id) id f r g old (inl (read, active))
        (λ too_large h same grows.
          same-Done id f h (ap (lookup id) same ∙ p) (λ w read_too active_too.
            subst (NoForm s) (returned_inj (sym read ∙ read_too)) too_large))
        (λ x fits. written-Done id f r x g old read fits)

  read-Done :
      (id : String) (f : File) (g : Progress) (o : Outcome)
      → (lookup id d ≡ some f) ⊎ Inactive s f
      → lookup id g.tasks ≡ some f
      → read_record s.limits.load_max_file_bytes f ≡ o
      → EndsIn s d (λ h. Done s h id) (block_if_active s o g)
  read-Done id f g (returned r) from p q = elim (Bool-cases (is_active r)) [
    | inl t ↦ elim from [
      | inl old ↦ rw t (active-Done id f r g old p q t)
      | inr inactive ↦ absurd (ground (arith, inactive r q, t))
    ]
    | inr n ↦ rw n (
        same-Done id f g p
          (λ w read active. absurd (ground (arith, returned_inj (sym q ∙ read), n, active))))
  ]
  read-Done id f g nothing from p q =
      same-Done id f g p (λ r read. absurd (ground (arith, q, read)))
  read-Done id f g invalid_task_id from p q =
      same-Done id f g p (λ r read. absurd (ground (arith, q, read)))
  read-Done id f g (exceeds_load_limit m n) from p q =
      same-Done id f g p (λ r read. absurd (ground (arith, q, read)))
  read-Done id f g read_error from p q =
      same-Done id f g p (λ r read. absurd (ground (arith, q, read)))
  read-Done id f g (exceeds_persistence_limit m) from p q =
      same-Done id f g p (λ r read. absurd (ground (arith, q, read)))
  read-Done id f g key_error from p q =
      same-Done id f g p (λ r read. absurd (ground (arith, q, read)))

  block_listed-Done :
      (id : String) (g : Progress)
      → Kept s (start s d) g
      → EndsIn s d (λ h. Done s h id) (block_listed s id g)
  unfolding block_listed
  block_listed-Done id g kept = elim (Option-cases (lookup id g.tasks)) [
    | inl no_file ↦ rw (no_file, block_listed) (λ f h. absurd (ground (arith, no_file, h)))
    | inr (f, p) ↦
        rw (p, block_listed)
          (read-Done id f g _
            (elim (kept.files id f p) [ inl old ↦ inl old | inr done ↦ inr done.0 ]) p refl)
  ]

  sweep-Done :
      (ids : List String) (g : Progress)
      → Kept s (start s d) g
      → EndsIn s d (λ h. All (Done s h) ids) (sweep (block_listed s) ids g)
  unfolding sweep
  sweep-Done [] g kept = tt
  sweep-Done (id ∷ ids) g kept =
      EndsIn-and_then s d (λ h. Kept s g h × Done s h id) (λ h. All (Done s h) (id ∷ ids))
        (block_listed s id g) (sweep (block_listed s) ids)
        (EndsIn-both s d (Kept s g) (λ h. Done s h id) (block_listed s id g)
          (block_listed-Kept s d id g kept) (block_listed-Done id g kept))
        (λ h p.
          let onward = Kept-trans s (start s d) g h kept p.0 in
          EndsIn-weaken s d (λ i. Kept s h i × All (Done s i) ids) (λ i. All (Done s i) (id ∷ ids))
            (sweep (block_listed s) ids h) (λ i q. (Done-Kept s h i id p.1 q.0, q.1))
            (EndsIn-both s d (Kept s h) (λ i. All (Done s i) ids) (sweep (block_listed s) ids h)
              (sweep-Kept s d (block_listed s) (block_listed-Kept s d) ids h onward)
              (sweep-Done ids h onward)))

  settled_after :
      (g h : Progress)
      → Kept s (start s d) g
      → All (Done s g) (keys d)
      → Kept s g h
      → AllSettled s h
  settled_after g h kept done later k f p = elim (later.files k f p) [
    | inr written ↦ Inactive-Settled s f written.0
    | inl before ↦ elim (kept.files k f before) [
      | inr written ↦ Inactive-Settled s f written.0
      | inl old ↦ All-In (Done s g) (keys d) done k (In-keys k f d old) f before
    ]
  ]

  -- In a directory whose files are named for the ids in them: when the recovery comes to its end, a
  -- task that a file within the limit on reading still gives as active is one whose blocked record
  -- has every form above the limit on writing; and when a save ends it before, then a file that was
  -- there at the start says, as a record or in its first part, that a task is active whose id is not
  -- valid, or whose blocked record has every form above that limit.
  pub recover_tasks_settles : EndsIn s d (AllSettled s) (recover_tasks s d)
  unfolding recover_tasks
  recover_tasks_settles =
      EndsIn-and_then s d (λ g. Kept s (start s d) g × All (Done s g) (keys d)) (AllSettled s)
        (sweep (block_listed s) (keys d) (start s d))
        (λ g. sweep (block_by_prefix s) (keys g.tasks) g)
        (EndsIn-both s d (Kept s (start s d)) (λ g. All (Done s g) (keys d))
          (sweep (block_listed s) (keys d) (start s d))
          (sweep-Kept s d (block_listed s) (block_listed-Kept s d) (keys d) (start s d)
            (Kept-refl s (start s d)))
          (sweep-Done (keys d) (start s d) (Kept-refl s (start s d))))
        (λ g p.
          EndsIn-weaken s d (Kept s g) (AllSettled s) (sweep (block_by_prefix s) (keys g.tasks) g)
            (λ h q. settled_after g h p.0 p.1 q)
            (sweep-Kept s d (block_by_prefix s) (block_by_prefix-Kept s d) (keys g.tasks) g p.0))
