-- ===== src/TaskEvents/Small.antt =====
-- tasks_api.py: the shortened form of a value is small.
use engineering_flow_platfor.Base.{
  ℕ, zero, suc, ◌+◌, ◌-◌, ◌≤◌, ◌<◌, max, String, ◌≡◌, refl, inl, inr, arith, ltb, leb,
  if◌then◌else◌, ◌==◌, nat_eq, string_eq, pair_eq, Bool-cases, contains,
}
use engineering_flow_platfor.Base.Value.{
  Value, null, bool, int, decimal, str, list, dict, Items, nil, cons, Fields, end, field, put, size,
}
use engineering_flow_platfor.TaskEvents.Compact.{
  task_status_omit_keys, task_status_max_dict_items, task_status_max_list_items,
  task_status_max_depth, field_count, number, omitted, is_event_key, skipped_items, kept_items,
  append_item, note_items, note_keys, truncate_task_status_text, compact_value, compact_fields,
  compact_items,
}

-- How deep lists and dicts stand in each other, and how many entries the longest has.
unfoldable mutual
  pub nesting : Value → ℕ
  nesting (list items) = suc (nesting_items items)
  nesting (dict fields) = suc (nesting_fields fields)
  nesting _ = 0

  pub nesting_items : Items → ℕ
  nesting_items nil = 0
  nesting_items (cons v items) = max (nesting v) (nesting_items items)

  pub nesting_fields : Fields → ℕ
  nesting_fields end = 0
  nesting_fields (field k v fields) = max (nesting v) (nesting_fields fields)

unfoldable mutual
  pub widest : Value → ℕ
  widest (list items) = max (size items) (widest_items items)
  widest (dict fields) = max (field_count fields) (widest_fields fields)
  widest _ = 0

  pub widest_items : Items → ℕ
  widest_items nil = 0
  widest_items (cons v items) = max (widest v) (widest_items items)

  pub widest_fields : Fields → ℕ
  widest_fields end = 0
  widest_fields (field k v fields) = max (widest v) (widest_fields fields)

-- Small at a depth.
abbrev IsSmallAt : ℕ → Value → Type 0
IsSmallAt depth v = (nesting v + depth ≤ 7) × (widest v ≤ 101)

abbrev AreSmallItems : ℕ → ℕ → Items → Type 0
AreSmallItems keep depth items =
    (nesting_items items + depth ≤ 7) × (widest_items items ≤ 101) × (size items ≤ keep)

abbrev AreSmallFields : ℕ → ℕ → Fields → Type 0
AreSmallFields keep depth fields =
    (nesting_fields fields + depth ≤ 7) × (widest_fields fields ≤ 101) × (field_count fields ≤ keep)

abbrev left_out : ℕ → Value
left_out n = dict (field "_truncated_items_count" (number n) end)

note-small : (depth n : ℕ) → depth ≤ 6 → IsSmallAt depth (left_out n)
unfolding nesting widest
note-small depth n low = (omega (arith, low), omega arith)

append_item-small :
    (keep depth : ℕ) (v : Value) (items : Items)
    → IsSmallAt depth v
    → AreSmallItems keep depth items
    → AreSmallItems (suc keep) depth (append_item items v)
unfolding nesting widest
append_item-small keep depth v nil h g = (omega (arith, h.0), omega (arith, h.1), omega arith)
append_item-small (suc keep) depth v (cons x items) h g =
    let rest =
      append_item-small keep depth v items h
        (omega (arith, g.0), omega (arith, g.1), omega (arith, g.2)) in
    (omega (arith, g.0, rest.0), omega (arith, g.1, rest.1), omega (arith, rest.2))
append_item-small zero depth v (cons x items) h g = absurd (omega (arith, g.2))

put-small :
    (keep depth n : ℕ) (k : String) (fields : Fields)
    → depth ≤ 7
    → AreSmallFields keep depth fields
    → AreSmallFields (suc keep) depth (put k (number n) fields)
unfolding nesting widest
put-small keep depth n k end low h = (omega (arith, low), omega arith, omega arith)
put-small zero depth n k (field j v fields) low h = absurd (omega (arith, h.2))
put-small (suc keep) depth n k (field j v fields) low h = elim (Bool-cases (j == k)) [
  | inl same ↦ rw same (omega (arith, h.0, low), omega (arith, h.1), omega (arith, h.2))
  | inr other ↦
      let rest =
        put-small keep depth n k fields low
          (omega (arith, h.0), omega (arith, h.1), omega (arith, h.2)) in
      rw other (omega (arith, h.0, rest.0), omega (arith, h.1, rest.1), omega (arith, rest.2))
]

note_items-small :
    (key : String) (depth n : ℕ) (items : Items)
    → depth ≤ 6
    → AreSmallItems (kept_items key) depth items
    → AreSmallItems 51 depth (note_items key n items)
note_items-small key depth n items low h = elim (Bool-cases (is_event_key key)) [
  | inl event ↦ rw event (h.0, h.1, omega (arith, rw event at h.2))
  | inr other ↦ elim (Bool-cases (ltb task_status_max_list_items n)) [
    | inl more ↦
        rw (other, more)
          (append_item-small task_status_max_list_items depth
            (left_out (n - task_status_max_list_items)) items
            (note-small depth (n - task_status_max_list_items) low) (h.0, h.1, rw other at h.2))
    | inr all ↦ rw (other, all) (h.0, h.1, omega (arith, rw other at h.2))
  ]
]

note_keys-small :
    (depth n : ℕ) (fields : Fields)
    → depth ≤ 6
    → AreSmallFields task_status_max_dict_items depth fields
    → AreSmallFields 101 depth (note_keys n fields)
note_keys-small depth n fields low h = elim (Bool-cases (ltb task_status_max_dict_items n)) [
  | inl more ↦ rw more (
      put-small task_status_max_dict_items depth (n - task_status_max_dict_items)
        "_truncated_keys_count" fields (omega (arith, low)) h)
  | inr all ↦ rw all (h.0, h.1, omega (arith, h.2))
]

omitted-small : (depth : ℕ) → depth ≤ 6 → IsSmallAt depth omitted
unfolding nesting widest
omitted-small depth low = (omega (arith, low), omega arith)

dict-small :
    (depth : ℕ) (fields : Fields)
    → AreSmallFields 101 (suc depth) fields
    → IsSmallAt depth (dict fields)
unfolding nesting widest
dict-small depth fields h = (omega (arith, h.0), omega (arith, h.1, h.2))

list-small :
    (depth : ℕ) (items : Items) → AreSmallItems 51 (suc depth) items → IsSmallAt depth (list items)
unfolding nesting widest
list-small depth items h = (omega (arith, h.0), omega (arith, h.1, h.2))

scalar-small :
    (depth : ℕ) (v : Value) → depth ≤ 6 → nesting v ≡ 0 → widest v ≡ 0 → IsSmallAt depth v
scalar-small depth v low n w = (omega (arith, low, n), omega (arith, w))

unless_omitted :
    (key : String) (depth : ℕ) (v : Value)
    → depth ≤ 6
    → IsSmallAt depth v
    → IsSmallAt depth (if contains key task_status_omit_keys then omitted else v)
unless_omitted key depth v low h = elim (Bool-cases (contains key task_status_omit_keys)) [
  | inl omit ↦ rw omit (omitted-small depth low)
  | inr shown ↦ rw shown h
]

unless_deep :
    (depth : ℕ) (s : String) (v : Value)
    → depth ≤ 6
    → (depth < 6 → IsSmallAt depth v)
    → IsSmallAt depth (if leb task_status_max_depth depth then str s else v)
unfolding nesting widest
unless_deep depth s v low h = elim (Bool-cases (leb task_status_max_depth depth)) [
  | inl deep ↦ rw deep (scalar-small depth (str s) low refl refl)
  | inr high ↦ rw high (h (ground (arith, high)))
]

module _ (repr : Value → String) where
  mutual
    unfolding compact_value nesting widest

    compact_value-small :
        (key : String) (depth : ℕ) (v : Value)
        → depth ≤ 6
        → IsSmallAt depth (compact_value repr key depth v)
    compact_value-small key depth (dict fields) low = unless_omitted key depth _ low (
        unless_deep depth (truncate_task_status_text repr (repr (dict fields))) _ low (λ high.
          dict-small depth
            (note_keys (field_count fields)
              (compact_fields repr task_status_max_dict_items (suc depth) fields))
            (note_keys-small (suc depth) (field_count fields) _ high
              (compact_fields-small task_status_max_dict_items (suc depth) fields high))))
    compact_value-small key depth (list items) low = unless_omitted key depth _ low (
        unless_deep depth (truncate_task_status_text repr (repr (list items))) _ low (λ high.
          list-small depth
            (note_items key (size items)
              (compact_items repr (skipped_items key items) (kept_items key) (suc depth) items))
            (note_items-small key (suc depth) (size items) _ high (
              compact_items-small (skipped_items key items) (kept_items key) (suc depth) items
                high))))
    compact_value-small key depth (str s) low =
        unless_omitted key depth (str (truncate_task_status_text repr s)) low
          (scalar-small depth (str (truncate_task_status_text repr s)) low refl refl)
    compact_value-small key depth null low =
        unless_omitted key depth null low (scalar-small depth null low refl refl)
    compact_value-small key depth (bool b) low =
        unless_omitted key depth (bool b) low (scalar-small depth (bool b) low refl refl)
    compact_value-small key depth (int n) low =
        unless_omitted key depth (int n) low (scalar-small depth (int n) low refl refl)
    compact_value-small key depth (decimal m k) low =
        unless_omitted key depth (decimal m k) low (scalar-small depth (decimal m k) low refl refl)

    compact_fields-small :
        (keep depth : ℕ) (fields : Fields)
        → depth ≤ 6
        → AreSmallFields keep depth (compact_fields repr keep depth fields)
    compact_fields-small zero depth fields low = (omega (arith, low), omega arith, omega arith)
    compact_fields-small (suc keep) depth end low = (omega (arith, low), omega arith, omega arith)
    compact_fields-small (suc keep) depth (field k v fields) low =
        let one = compact_value-small k depth v low in
        let rest = compact_fields-small keep depth fields low in
        (omega (arith, one.0, rest.0), omega (arith, one.1, rest.1), omega (arith, rest.2))

    compact_items-small :
        (skip keep depth : ℕ) (items : Items)
        → depth ≤ 6
        → AreSmallItems keep depth (compact_items repr skip keep depth items)
    compact_items-small skip keep depth nil low = (omega (arith, low), omega arith, omega arith)
    compact_items-small (suc skip) keep depth (cons v items) low =
        compact_items-small skip keep depth items low
    compact_items-small zero zero depth (cons v items) low =
        (omega (arith, low), omega arith, omega arith)
    compact_items-small zero (suc keep) depth (cons v items) low =
        let one = compact_value-small "" depth v low in
        let rest = compact_items-small zero keep depth items low in
        (omega (arith, one.0, rest.0), omega (arith, one.1, rest.1), omega (arith, rest.2))

  -- However large and deep a value is, its shortened form nests at most seven lists and dicts, and none
  -- of these has more than 101 entries, the note on what was left out included.
  pub compact_value_lem :
      (key : String) (v : Value)
      → (nesting (compact_value repr key 0 v) ≤ 7) × (widest (compact_value repr key 0 v) ≤ 101)
  compact_value_lem key v =
      let small = compact_value-small key 0 v (omega arith) in (omega (arith, small.0), small.1)
