-- ===== src/Recovery/Turns.antt =====
-- What each turn of the two loops of recovery.py does to the files: one that it writes is not active,
-- and its task is in the list of the blocked ones.
use engineering_flow_platfor.Base.{
  String, ◌≡◌, refl, sym, ap, ◌∙◌, ◌⊎◌, inl, inr, Option, none, some, List, [], ◌∷◌, arith, nat_eq,
  string_eq, pair_eq, Bool-cases, Option-cases, contains, lookup,
}
use engineering_flow_platfor.TaskStore.{
  TaskRecord, File, Directory, Outcome, returned, nothing, invalid_task_id, exceeds_load_limit,
  read_error, exceeds_persistence_limit, key_error, read_record,
}
use engineering_flow_platfor.TaskStore.Listing.{is_active}
use engineering_flow_platfor.Recovery.{
  Progress, Sweep, save_blocked_after_restart, block_if_active, block_listed, block_found,
  block_by_prefix, sweep,
}
use engineering_flow_platfor.Recovery.Prefix.{Startup, active_record_from_task_file_prefix}
use engineering_flow_platfor.Recovery.Saves.{
  Inactive, Source, Kept, Kept-trans, Kept-refl, written-Kept,
}
use engineering_flow_platfor.Recovery.Ends.{
  start, EndsIn, EndsIn-weaken, EndsIn-and_then, save-EndsIn,
}

module _ (s : Startup) (d : Directory) where
  save-Kept :
      (k : String) (f : File) (r : TaskRecord) (g : Progress)
      → lookup k d ≡ some f
      → Source s k f r
      → EndsIn s d (Kept s g) (save_blocked_after_restart s r g)
  save-Kept k f r g found source =
      save-EndsIn s d (Kept s g) k f r g found source
        (λ too_large h same grows. record {
          files = λ k f p. inl (ap (lookup k) (sym same) ∙ p);
          listed = grows;
        })
        (λ x p. written-Kept s r x g p)

  read-Kept :
      (k : String) (f : File) (o : Outcome) (g : Progress)
      → (lookup k d ≡ some f) ⊎ Inactive s f
      → read_record s.limits.load_max_file_bytes f ≡ o
      → EndsIn s d (Kept s g) (block_if_active s o g)
  read-Kept k f (returned r) g old read = elim (Bool-cases (is_active r)) [
    | inl t ↦ elim old [
      | inl found ↦ rw t (save-Kept k f r g found (inl (read, t)))
      | inr inactive ↦ absurd (ground (arith, inactive r read, t))
    ]
    | inr n ↦ rw n (Kept-refl s g)
  ]
  read-Kept k f nothing g old read = Kept-refl s g
  read-Kept k f invalid_task_id g old read = Kept-refl s g
  read-Kept k f (exceeds_load_limit m n) g old read = Kept-refl s g
  read-Kept k f read_error g old read = Kept-refl s g
  read-Kept k f (exceeds_persistence_limit m) g old read = Kept-refl s g
  read-Kept k f key_error g old read = Kept-refl s g

  pub block_listed-Kept :
      (id : String) (g : Progress)
      → Kept s (start s d) g
      → EndsIn s d (Kept s g) (block_listed s id g)
  unfolding block_listed
  block_listed-Kept id g kept = elim (Option-cases (lookup id g.tasks)) [
    | inl no_file ↦ rw (no_file, block_listed) (Kept-refl s g)
    | inr (f, p) ↦
        rw (p, block_listed)
          (read-Kept id f (read_record s.limits.load_max_file_bytes f) g
            (elim (kept.files id f p) [ inl old ↦ inl old | inr done ↦ inr done.0 ]) refl)
  ]

  found-Kept :
      (k : String) (f : File) (o : Option TaskRecord) (g : Progress)
      → lookup k d ≡ some f
      → active_record_from_task_file_prefix s k f ≡ o
      → EndsIn s d (Kept s g) (block_found s o g)
  found-Kept k f none g found shown = Kept-refl s g
  found-Kept k f (some r) g found shown = save-Kept k f r g found (inr shown)

  pub block_by_prefix-Kept :
      (id : String) (g : Progress)
      → Kept s (start s d) g
      → EndsIn s d (Kept s g) (block_by_prefix s id g)
  unfolding block_by_prefix
  block_by_prefix-Kept id g kept = elim (Option-cases (lookup id g.tasks)) [
    | inl no_file ↦ rw (no_file, block_by_prefix) (Kept-refl s g)
    | inr (f, p) ↦ elim (Bool-cases (contains id g.blocked)) [
      | inl t ↦ rw (p, block_by_prefix, t) (Kept-refl s g)
      | inr n ↦ elim (kept.files id f p) [
        | inr done ↦ absurd (ground (arith, done.1, n))
        | inl old ↦
            rw (p, block_by_prefix, n)
              (found-Kept id f (active_record_from_task_file_prefix s id f) g old refl)
      ]
    ]
  ]

  pub sweep-Kept :
      (turn : String → Progress → Sweep)
      → ((id : String) (g : Progress) → Kept s (start s d) g → EndsIn s d (Kept s g) (turn id g))
      → (ids : List String) (g : Progress) → Kept s (start s d) g
      → EndsIn s d (Kept s g) (sweep turn ids g)
  unfolding sweep
  sweep-Kept turn keeps [] g kept = Kept-refl s g
  sweep-Kept turn keeps (id ∷ ids) g kept =
      EndsIn-and_then s d (Kept s g) (Kept s g) (turn id g) (sweep turn ids) (keeps id g kept)
        (λ h p.
          EndsIn-weaken s d (Kept s h) (Kept s g) (sweep turn ids h) (λ i q. Kept-trans s g h i p q)
            (sweep-Kept turn keeps ids h (Kept-trans s (start s d) g h kept p)))
