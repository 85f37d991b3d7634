-- ===== src/Recovery/Ends.antt =====
-- How the recovery of the tasks of recovery.py ends: by itself, or by a save that raises.
use mathlib.Core.Path.{subst}
use engineering_flow_platfor.Base.{
  ◌+◌, String, ◌≡◌, refl, sym, ◌⊎◌, inl, inr, true, false, some, [], ◌∷◌, ◌==◌, nat_eq, string_eq,
  pair_eq, Bool-cases, Option-cases, contains, lookup,
}
use engineering_flow_platfor.TaskStore.{
  TaskRecord, File, Directory, Outcome, returned, nothing, invalid_task_id, exceeds_load_limit,
  read_error, exceeds_persistence_limit, key_error, get_task, is_valid_task_id,
}
use engineering_flow_platfor.TaskStore.Persist.{Form, kept_outcome}
use engineering_flow_platfor.TaskStore.Saved.{none_encoded}
use engineering_flow_platfor.Recovery.{
  blocked_after_restart_record, Progress, Sweep, going, raised, and_then, after_save,
  save_blocked_after_restart,
}
use engineering_flow_platfor.Recovery.Saves.{
  encode, NoForm, Source, after_write, save_task-invalid, save_task-unwritten, save_task-written,
}
use engineering_flow_platfor.Recovery.Prefix.{Startup}

module _ (s : Startup) (d : Directory) where
  abbrev pub start : Progress
  start = record { tasks = d; blocked = []; marked = 0 }

  -- A file of the directory that the adapter starts with says that the task is active, and the id of
  -- the task is not valid, or its blocked record fits in no form.
  pub record Unsaved : Type 0 where
    pub name : String
    pub file : File
    pub task : TaskRecord
    pub found : lookup name d ≡ some file
    pub source : Source s name file task
    pub reason : (is_valid_task_id task.task_id ≡ false) ⊎ NoForm s task

  abbrev pub EndsIn : (Progress → Type 0) → Sweep → Type 0
  EndsIn P (going g) = P g
  EndsIn P (raised e o) = Unsaved

  pub EndsIn-weaken :
      (P Q : Progress → Type 0) (o : Sweep) → ((g : Progress) → P g → Q g) → EndsIn P o → EndsIn Q o
  EndsIn-weaken P Q (going g) imp h = imp g h
  EndsIn-weaken P Q (raised e o) imp h = h

  pub EndsIn-both :
      (P Q : Progress → Type 0) (o : Sweep) → EndsIn P o → EndsIn Q o → EndsIn (λ g. P g × Q g) o
  EndsIn-both P Q (going g) p q = (p, q)
  EndsIn-both P Q (raised e o) p q = p

  pub EndsIn-and_then :
      (P Q : Progress → Type 0) (o : Sweep) (next : Progress → Sweep)
      → EndsIn P o
      → ((g : Progress) → P g → EndsIn Q (next g))
      → EndsIn Q (and_then o next)
  EndsIn-and_then P Q (going g) next h imp = imp g h
  EndsIn-and_then P Q (raised e o) next h imp = h

  after_save-EndsIn :
      (P : Progress → Type 0) (id : String) (o : Outcome) (g : Progress)
      → ((h : Progress)
          → h.tasks ≡ g.tasks
          → ((k : String) → contains k g.blocked ≡ true → contains k h.blocked ≡ true)
          → P h)
      → Unsaved
      → EndsIn P (after_save id g.tasks o g)
  after_save-EndsIn P id (returned r) g same u = elim (Bool-cases (r.status == "blocked")) [
    | inl t ↦ rw t (
        same (record { tasks = g.tasks; blocked = id ∷ g.blocked; marked = g.marked + 1 }) refl
          (λ k h. elim (Bool-cases (id == k)) [ inl b ↦ rw b refl | inr n ↦ rw n h ]))
    | inr f ↦ rw f (same (record g { tasks = g.tasks }) refl (λ k h. h))
  ]
  after_save-EndsIn P id nothing g same u = u
  after_save-EndsIn P id invalid_task_id g same u = u
  after_save-EndsIn P id (exceeds_load_limit m n) g same u = u
  after_save-EndsIn P id read_error g same u = u
  after_save-EndsIn P id (exceeds_persistence_limit m) g same u = u
  after_save-EndsIn P id key_error g same u = u

  -- What a save may do: no file changes, or the file of the task is written anew.
  pub save-EndsIn :
      (P : Progress → Type 0) (k : String) (f : File) (r : TaskRecord) (g : Progress)
      → lookup k d ≡ some f
      → Source s k f r
      → (NoForm s r
          → (h : Progress) → h.tasks ≡ g.tasks
          → ((k : String) → contains k g.blocked ≡ true → contains k h.blocked ≡ true)
          → P h)
      → ((x : Form) → encode s r ≡ some x → P (after_write s r x g))
      → EndsIn P (save_blocked_after_restart s r g)
  unfolding save_blocked_after_restart blocked_after_restart_record
  save-EndsIn P k f r g found source same written =
      let b = blocked_after_restart_record s r in
      let unsaved : (is_valid_task_id r.task_id ≡ false) ⊎ NoForm s r → Unsaved = λ why. record {
        name = k;
        file = f;
        task = r;
        found = found;
        source = source;
        reason = why;
      } in
      let ends : Directory × Outcome → Type 0 =
        λ saved. EndsIn P (after_save r.task_id saved.0 saved.1 g) in
      elim (Bool-cases (is_valid_task_id r.task_id)) [
        | inr bad ↦
            subst ends (sym (save_task-invalid s.bytes s.limits b g.tasks bad)) (unsaved (inl bad))
        | inl valid ↦ elim (Option-cases (encode s r)) [
          | inl none_fits ↦
              let too_large = none_encoded s.bytes s.limits b none_fits in
              subst ends (sym (save_task-unwritten s.bytes s.limits b g.tasks valid none_fits)) (
                after_save-EndsIn P r.task_id
                  (kept_outcome s.bytes s.limits (get_task s.limits b.task_id g.tasks)) g
                  (same too_large) (unsaved (inr too_large)))
          | inr (x, p) ↦
              subst ends (sym (save_task-written s.bytes s.limits b g.tasks x valid p))
                (written x p)
        ]
      ]
