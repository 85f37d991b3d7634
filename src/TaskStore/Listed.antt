-- ===== src/TaskStore/Listed.antt =====
-- What the lists of task_store.py hold.
use engineering_flow_platfor.Base.{
  ℕ, ◌+◌, ◌≤◌, String, ◌≡◌, refl, ap, ◌∙◌, inl, inr, Bool, true, ◌||◌, Option, none, some, [], ◌∷◌,
  arith, ltb, leb, nat_eq, string_eq, pair_eq, Bool-cases, Option-cases, length, take,
  length-append, All, All-append, All-take, In, All-of_In,
}
use engineering_flow_platfor.Base.Value.{ℤ, pos}
use engineering_flow_platfor.TaskStore.{
  TaskRecord, Limits, File, Directory, Outcome, returned, nothing, invalid_task_id,
  exceeds_load_limit, read_error, exceeds_persistence_limit, key_error, read_record, not_below,
}
use engineering_flow_platfor.TaskStore.Listing.{
  text_leb, file_name, insert_path, sort_paths, iter_task_paths, reached, wanted_record, scan,
  bounded_scan, iter_active, list_active, is_active, coerce_non_negative_int, given_or_default,
  size_limit, file_size_limit, is_zero_limit,
}

module _ (P : String × File → Type 0) where
  All-insert_path : (p : String × File) (d : Directory) → P p → All P d → All P (insert_path p d)
  unfolding insert_path
  All-insert_path p [] h hs = (h, tt)
  All-insert_path p (q ∷ d) h hs = elim (Bool-cases (text_leb (file_name p.0) (file_name q.0))) [
    | inl t ↦ rw t (h, hs)
    | inr f ↦ rw f (hs.0, All-insert_path p d h hs.1)
  ]

  All-sort_paths : (d : Directory) → All P d → All P (sort_paths d)
  unfolding sort_paths
  All-sort_paths [] h = tt
  All-sort_paths (p ∷ d) h = All-insert_path p (sort_paths d) h.0 (All-sort_paths d h.1)

  All-iter_task_paths :
      (limit : Option ℕ) (d : Directory) → All P d → All P (iter_task_paths limit d)
  unfolding iter_task_paths
  All-iter_task_paths none d h = h
  All-iter_task_paths (some n) d h = All-sort_paths (take n d) (All-take P n d h)

module _ (wanted : TaskRecord → Bool) where
  length-wanted_record : (o : Outcome) → length (wanted_record wanted o) ≤ 1
  length-wanted_record (returned r) = ground arith
  length-wanted_record nothing = omega arith
  length-wanted_record invalid_task_id = omega arith
  length-wanted_record (exceeds_load_limit m n) = omega arith
  length-wanted_record read_error = omega arith
  length-wanted_record (exceeds_persistence_limit n) = omega arith
  length-wanted_record key_error = omega arith

  length-scan :
      (limit : ℕ) (scan_limit : Option ℕ) (file_limit : ℕ) (d : Directory) (listed scanned : ℕ)
      → listed ≤ limit
      → listed + length (scan wanted (some limit) scan_limit file_limit d listed scanned) ≤ limit
  unfolding scan
  length-scan limit scan_limit file_limit [] listed scanned h = omega (arith, h)
  length-scan limit scan_limit file_limit (p ∷ d) listed scanned h =
      elim (Bool-cases (leb limit listed || reached scan_limit scanned)) [
        | inl t ↦ rw t (omega (arith, h))
        | inr f ↦
            let found = wanted_record wanted (read_record file_limit p.1) in
            let one = length-wanted_record (read_record file_limit p.1) in
            let more =
              length-scan limit scan_limit file_limit d (listed + length found) (scanned + 1)
                (ground (arith, f, one)) in
            rw
              (
                f,
                length-append found (
                    scan wanted (some limit) scan_limit file_limit d (listed + length found)
                      (scanned + 1)),
              )
              (omega (arith, more))
      ]

  module _ (Q : TaskRecord → Type 0) where
    All-scan :
        (record_limit scan_limit : Option ℕ) (file_limit : ℕ) (d : Directory) (listed scanned : ℕ)
        → All (λ p. All Q (wanted_record wanted (read_record file_limit p.1))) d
        → All Q (scan wanted record_limit scan_limit file_limit d listed scanned)
    unfolding scan
    All-scan record_limit scan_limit file_limit [] listed scanned h = tt
    All-scan record_limit scan_limit file_limit (p ∷ d) listed scanned h =
        elim (Bool-cases (reached record_limit listed || reached scan_limit scanned)) [
          | inl t ↦ rw t tt
          | inr f ↦ rw f (
              All-append Q (wanted_record wanted (read_record file_limit p.1)) _ h.0
                (All-scan record_limit scan_limit file_limit d _ (scanned + 1) h.1))
        ]

-- The record stands in a file of the directory that may be read.
pub data IsReadFrom (limit : ℕ) (d : Directory) (r : TaskRecord) : Type 0 where
  read_from :
      (k : String) (f : File)
      → In (k, f) d
      → f.size ≤ limit
      → f.content ≡ some r
      → IsReadFrom limit d r

read_record-returned :
    (limit : ℕ) (f : File) (r : TaskRecord)
    → read_record limit f ≡ returned r
    → (f.size ≤ limit) × (f.content ≡ some r)
unfolding read_record
read_record-returned limit f r h = elim (Bool-cases (ltb limit f.size)) [
  | inl t ↦ absurd (ground (arith, rw t at h))
  | inr small ↦ elim (Option-cases f.content) [
    | inl none_read ↦ absurd (ground (arith, rw (small, none_read) at h))
    | inr (x, p) ↦ (ground (arith, small), p ∙ ap some (returned_inj (rw (small, p) at h)))
  ]
]
  where
    returned_inj : {x y : TaskRecord} → returned x ≡ returned y → x ≡ y
    returned_inj e = cc

module _ (wanted : TaskRecord → Bool) (limit : ℕ) (d : Directory) where
  abbrev pub Found : TaskRecord → Type 0
  Found r = (wanted r ≡ true) × IsReadFrom limit d r

  wanted-Found :
      (o : Outcome)
      → ((r : TaskRecord) → o ≡ returned r → IsReadFrom limit d r)
      → All Found (wanted_record wanted o)
  wanted-Found (returned r) f = elim (Bool-cases (wanted r)) [
    | inl t ↦ rw t ((t, f r refl), tt)
    | inr n ↦ rw n tt
  ]
  wanted-Found nothing f = tt
  wanted-Found invalid_task_id f = tt
  wanted-Found (exceeds_load_limit m n) f = tt
  wanted-Found read_error f = tt
  wanted-Found (exceeds_persistence_limit n) f = tt
  wanted-Found key_error f = tt

  files-Found : All (λ p. All Found (wanted_record wanted (read_record limit p.1))) d
  files-Found =
      All-of_In (λ p. All Found (wanted_record wanted (read_record limit p.1))) d
        (λ p i. wanted-Found (read_record limit p.1) (λ r h.
          let (small, same) = read_record-returned limit p.1 r h in read_from p.0 p.1 i small same))

  bounded_scan-Found :
      (record_limit scan_limit : Option ℕ)
      → All Found (bounded_scan wanted record_limit scan_limit limit d)
  bounded_scan-Found record_limit scan_limit =
      elim (Bool-cases (is_zero_limit record_limit || is_zero_limit scan_limit)) [
        | inl t ↦ rw t tt
        | inr f ↦ rw f (
            All-scan wanted Found record_limit scan_limit limit (iter_task_paths scan_limit d) 0 0 (
              All-iter_task_paths (λ p. All Found (wanted_record wanted (read_record limit p.1)))
                scan_limit d files-Found))
      ]

  bounded_scan-length :
      (n : ℕ) (scan_limit : Option ℕ) → length (bounded_scan wanted (some n) scan_limit limit d) ≤ n
  bounded_scan-length n scan_limit =
      elim (Bool-cases (is_zero_limit (some n) || is_zero_limit scan_limit)) [
        | inl t ↦ rw t (omega arith)
        | inr f ↦
            let bound =
              length-scan wanted n scan_limit limit (iter_task_paths scan_limit d) 0 0
                (omega arith) in
            rw f (omega (arith, bound))
      ]

-- `list_active` gives no more records than were asked for, or than the default limit, and only active
-- ones that stand in a file of the directory within the size limit.
pub list_active_lem :
    (l : Limits) (max_records max_scan_records max_file_bytes : Option ℤ) (d : Directory)
    → (length (list_active l max_records max_scan_records max_file_bytes d)
        ≤ size_limit (coerce_non_negative_int (given_or_default max_records l.list_max_records)))
      × All
          (Found is_active (file_size_limit l max_file_bytes) d)
          (list_active l max_records max_scan_records max_file_bytes d)
unfolding list_active iter_active
list_active_lem l max_records max_scan_records max_file_bytes d = (
  bounds max_records,
  bounded_scan-Found is_active bytes d
      (coerce_non_negative_int (given_or_default max_records l.list_max_records)) scan_limit,
)
  where
    bytes : ℕ
    bytes = file_size_limit l max_file_bytes

    scan_limit : Option ℕ
    scan_limit = coerce_non_negative_int (given_or_default max_scan_records l.scan_max_records)

    bounds :
        (given : Option ℤ)
        → length (list_active l given max_scan_records max_file_bytes d)
          ≤ size_limit (coerce_non_negative_int (given_or_default given l.list_max_records))
    bounds none =
        bounded_scan-length is_active bytes d (not_below 0 (pos l.list_max_records)) scan_limit
    bounds (some n) = bounded_scan-length is_active bytes d (not_below 0 n) scan_limit
