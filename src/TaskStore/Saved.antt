-- ===== src/TaskStore/Saved.antt =====
-- What a record that task_store.py saved gives when it is read.
use engineering_flow_platfor.Base.{
  ℕ, ◌≤◌, String, ◌≡◌, refl, sym, ◌∙◌, ◌⊎◌, inl, inr, Bool, true, false, none, some, List, [], ◌∷◌,
  arith, eq_iff, ltb, leb, ◌==◌, nat_eq, string_eq, pair_eq, leb→le, not_leb→lt, ◌<◌, Bool-cases,
  Option-cases, some_inj, All, lookup, insert, lookup-insert,
}
use mathlib.Core.Path.{subst}
use engineering_flow_platfor.TaskStore.{
  TaskRecord, Limits, File, Directory, returned, get_task, read_record, is_valid_task_id,
}
use engineering_flow_platfor.TaskStore.Persist.{
  Form, record_of, minimal_record_for_persistence, ultra_minimal_record_for_persistence,
  first_within, encode_record_for_persistence, forms, file_of, save_task,
}

-- What every form of a record keeps.
pub record Essential (r s : TaskRecord) : Type 0 where
  pub task_id : s.task_id ≡ r.task_id
  pub task_type : s.task_type ≡ r.task_type
  pub request_id : s.request_id ≡ r.request_id
  pub status : s.status ≡ r.status
  pub portal_session_id : s.portal_session_id ≡ r.portal_session_id
  pub opencode_session_id : s.opencode_session_id ≡ r.opencode_session_id
  pub error : s.error ≡ r.error
  pub created_at : s.created_at ≡ r.created_at

whole-Essential : (r : TaskRecord) → Essential r r
whole-Essential r = record {
  task_id = refl;
  task_type = refl;
  request_id = refl;
  status = refl;
  portal_session_id = refl;
  opencode_session_id = refl;
  error = refl;
  created_at = refl;
}

minimal-Essential :
    (l : Limits) (keep : Bool) (r : TaskRecord)
    → Essential r (minimal_record_for_persistence l keep r)
unfolding minimal_record_for_persistence
minimal-Essential l keep r = record {
  task_id = refl;
  task_type = refl;
  request_id = refl;
  status = refl;
  portal_session_id = refl;
  opencode_session_id = refl;
  error = refl;
  created_at = refl;
}

ultra-Essential : (r : TaskRecord) → Essential r (ultra_minimal_record_for_persistence r)
unfolding ultra_minimal_record_for_persistence
ultra-Essential r = record {
  task_id = refl;
  task_type = refl;
  request_id = refl;
  status = refl;
  portal_session_id = refl;
  opencode_session_id = refl;
  error = refl;
  created_at = refl;
}

module _ (bytes : Form → ℕ) (l : Limits) where
  first_within-bounds :
      (P : Form → Type 0) (limit : ℕ) (fs : List Form) (f : Form)
      → All P fs
      → first_within bytes limit fs ≡ some f
      → P f × (bytes f ≤ limit)
  unfolding first_within
  first_within-bounds P limit [] f all h = absurd (ground (arith, h))
  first_within-bounds P limit (x ∷ xs) f all h = elim (Bool-cases (leb (bytes x) limit)) [
    | inl t ↦
        let same = some_inj (rw t at h) in
        (subst P same all.0, subst (λ y. bytes y ≤ limit) same (leb→le _ _ t))
    | inr n ↦ first_within-bounds P limit xs f all.1 (rw n at h)
  ]

  pub encoded :
      (r : TaskRecord) (f : Form)
      → encode_record_for_persistence bytes l r ≡ some f
      → Essential r (record_of f) × (bytes f ≤ l.persist_max_file_bytes)
  unfolding encode_record_for_persistence
  encoded r f h =
      first_within-bounds (λ f. Essential r (record_of f)) l.persist_max_file_bytes
        (forms bytes l r) f
        (
          whole-Essential r,
          (minimal-Essential l true r, (minimal-Essential l false r, (ultra-Essential r, tt))),
        )
        h

  first_within-none :
      (limit : ℕ) (fs : List Form)
      → first_within bytes limit fs ≡ none
      → All (λ f. limit < bytes f) fs
  unfolding first_within
  first_within-none limit [] h = tt
  first_within-none limit (x ∷ xs) h = elim (Bool-cases (leb (bytes x) limit)) [
    | inl t ↦ absurd (ground (arith, rw t at h))
    | inr n ↦ (not_leb→lt _ _ n, first_within-none limit xs (rw n at h))
  ]

  -- Nothing is encoded only when each of the four forms is above the limit.
  pub none_encoded :
      (r : TaskRecord)
      → encode_record_for_persistence bytes l r ≡ none
      → All (λ f. l.persist_max_file_bytes < bytes f) (forms bytes l r)
  unfolding encode_record_for_persistence
  none_encoded r h = first_within-none l.persist_max_file_bytes (forms bytes l r) h

  read_saved :
      (r : TaskRecord) (f : Form) (d : Directory)
      → is_valid_task_id r.task_id ≡ true
      → bytes f ≤ l.load_max_file_bytes
      → get_task l r.task_id (insert r.task_id (file_of bytes f) d) ≡ returned (record_of f)
  unfolding get_task read_record
  read_saved r f d valid fits =
      let small : ltb l.load_max_file_bytes (bytes f) ≡ false = ground (arith, fits) in
      let same : (r.task_id == r.task_id) ≡ true = (eq_iff r.task_id r.task_id).1 refl in
      rw (valid, get_task, lookup-insert r.task_id r.task_id (file_of bytes f) d, same, small) refl

  -- A task whose id is valid is either not written at all, and then each form of its record is above
  -- the limit, or what is read afterwards is a record with the same ids, status, sessions, error and
  -- time of creation; as long as files of the size that is written may be read.
  pub get-save :
      (r : TaskRecord) (d : Directory)
      → is_valid_task_id r.task_id ≡ true
      → l.persist_max_file_bytes ≤ l.load_max_file_bytes
      → (((save_task bytes l r d).0 ≡ d)
          × All (λ f. l.persist_max_file_bytes < bytes f) (forms bytes l r))
        ⊎ ((s : TaskRecord) × (get_task l r.task_id (save_task bytes l r d).0 ≡ returned s)
            × Essential r s)
  unfolding save_task
  get-save r d valid fits = elim (Option-cases (encode_record_for_persistence bytes l r)) [
    | inl none_fits ↦ inl (rw (valid, save_task, none_fits) refl, none_encoded r none_fits)
    | inr (f, p) ↦
        let e = encoded r f p in
        inr (
          record_of f,
          rw (valid, save_task, p) (read_saved r f d valid (ground (arith, e.1, fits))),
          e.0,
        )
  ]

  -- Saving writes no file but that of the task, and none above the limit.
  pub save-bounds :
      (r : TaskRecord) (d : Directory) (k : String) (f : File)
      → lookup k (save_task bytes l r d).0 ≡ some f
      → (lookup k d ≡ some f) ⊎ ((k ≡ r.task_id) × (f.size ≤ l.persist_max_file_bytes))
  unfolding save_task
  save-bounds r d k f h = elim (Bool-cases (is_valid_task_id r.task_id)) [
    | inr bad ↦ inl (rw (bad, save_task) at h)
    | inl valid ↦ elim (Option-cases (encode_record_for_persistence bytes l r)) [
      | inl none_fits ↦ inl (rw (valid, save_task, none_fits) at h)
      | inr (x, p) ↦
          let q =
            sym (lookup-insert r.task_id k (file_of bytes x) d) ∙ (rw (valid, save_task, p) at h) in
          elim (Bool-cases (r.task_id == k)) [
            | inr other ↦ inl (rw other at q)
            | inl same ↦ inr (
              sym ((eq_iff r.task_id k).0 same),
              subst (λ y. y.size ≤ l.persist_max_file_bytes) (some_inj (rw same at q))
                  (encoded r x p).1,
            )
          ]
    ]
  ]
