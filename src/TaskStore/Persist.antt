-- ===== src/TaskStore/Persist.antt =====
-- What task_store.py writes: the whole record, or the first smaller form that is within the limit.
use engineering_flow_platfor.Base.{
  ℕ, String, Bool, true, false, ◌&&◌, Option, none, some, List, [], ◌∷◌, ltb, leb, if◌then◌else◌,
  nat_eq, string_eq, pair_eq, insert,
}
use engineering_flow_platfor.Base.Value.{
  Value, null, bool, str, dict, Items, nil, cons, Fields, end, field, truthy, as_dict, get, has,
  put, last_items,
}
use engineering_flow_platfor.TaskStore.{
  TaskRecord, Limits, File, Directory, Outcome, returned, nothing, invalid_task_id,
  exceeds_persistence_limit, key_error, get_task, is_valid_task_id,
}

-- `payload[key] = source[key]` for the keys that the source has
abbrev pub copy_keys : List String → Fields → Fields → Fields
copy_keys [] source payload = payload
copy_keys (k ∷ ks) source payload =
    copy_keys ks source (if has k source then put k (get k source) payload else payload)

abbrev pub kept_output_keys : List String
kept_output_keys =
    "summary" ∷ "error_code" ∷ "blockers" ∷ "next_recommendation" ∷ "completion_state"
    ∷ "incomplete_reason" ∷ "pending_permission_ids" ∷ []

abbrev pub kept_metadata_keys : List String
kept_metadata_keys =
    "task_id" ∷ "portal_task_id" ∷ "agent_id" ∷ "trace_id" ∷ "portal_dispatch_id"
    ∷ "runtime_request_id" ∷ "opencode_session_id" ∷ []

abbrev pub minimal_output_payload : TaskRecord → Fields
minimal_output_payload r = copy_keys kept_output_keys (as_dict r.output_payload) (
    field "status" (str r.status) (
      field "payload_omitted_from_persistence" (bool true)
        (field "reason" (str "task_record_exceeded_persistence_limit") end)))

abbrev pub minimal_metadata : Value → Fields
minimal_metadata metadata = copy_keys kept_metadata_keys (as_dict metadata) end

abbrev pub omitted_input : Fields
omitted_input =
    field "_omitted" (bool true) (field "reason" (str "task_record_exceeded_persistence_limit") end)

abbrev pub event_tail : Limits → Bool → Items → Items
event_tail l keep_event_tail events =
    if keep_event_tail && ltb 0 l.persist_event_tail
    then last_items l.persist_event_tail events
    else nil

unfoldable pub minimal_record_for_persistence : Limits → Bool → TaskRecord → TaskRecord
minimal_record_for_persistence l keep_event_tail r = record r {
  input_payload = dict (if truthy r.input_payload then omitted_input else end);
  metadata = dict (minimal_metadata r.metadata);
  output_payload = dict (minimal_output_payload r);
  artifacts = dict end;
  runtime_events = event_tail l keep_event_tail r.runtime_events;
  context_ref = null;
}

-- the fields that the smallest form leaves out are read back with their defaults
unfoldable pub ultra_minimal_record_for_persistence : TaskRecord → TaskRecord
ultra_minimal_record_for_persistence r = record r {
  input_payload = dict end;
  metadata = dict end;
  output_payload = dict (
      field "status" (str r.status) (
        field "payload_omitted_from_persistence" (bool true) (
          field "record_minimized_from_persistence" (bool true)
            (field "reason" (str "task_record_exceeded_persistence_limit") end))));
  artifacts = dict end;
  runtime_events = nil;
  started_at = none;
  finished_at = none;
  source = none;
  shared_context_ref = none;
  context_ref = null;
  message_cursor = none;
  opencode_prompt_id = none;
  opencode_message_id = none;
  completion_source = none;
  pending_permission_ids = null;
}

-- What is written: all fields of a record, or only those that have no default.
pub data Form : Type 0 where
  all_fields : TaskRecord → Form
  required_fields : TaskRecord → Form

abbrev pub record_of : Form → TaskRecord
record_of (all_fields r) = r
record_of (required_fields r) = r

-- the bytes of the JSON of a form
module _ (bytes : Form → ℕ) where
  unfoldable pub first_within : ℕ → List Form → Option Form
  first_within limit [] = none
  first_within limit (f ∷ fs) =
      let rest = first_within limit fs in if leb (bytes f) limit then some f else rest

  abbrev pub forms : Limits → TaskRecord → List Form
  forms l r =
      all_fields r
      ∷ all_fields (minimal_record_for_persistence l true r)
      ∷ all_fields (minimal_record_for_persistence l false r)
      ∷ required_fields (ultra_minimal_record_for_persistence r)
      ∷ []

  unfoldable pub encode_record_for_persistence : Limits → TaskRecord → Option Form
  unfolding first_within
  encode_record_for_persistence l r = first_within l.persist_max_file_bytes (forms l r)

  abbrev pub file_of : Form → File
  file_of f = record { size = bytes f; content = some (record_of f) }

  -- `existing = self.get(...) if path.exists() else None`, when nothing can be written
  abbrev pub kept_outcome : Limits → Outcome → Outcome
  kept_outcome l nothing = exceeds_persistence_limit l.persist_max_file_bytes
  kept_outcome l other = other

  unfoldable pub save_task : Limits → TaskRecord → Directory → Directory × Outcome
  unfolding encode_record_for_persistence
  save_task l r d =
      if is_valid_task_id r.task_id
      then elim (encode_record_for_persistence l r) [
        | none ↦ (d, kept_outcome l (get_task l r.task_id d))
        | some f ↦ (insert r.task_id (file_of f) d, returned r)
      ]
      else (d, invalid_task_id)

  unfoldable pub create_or_get : Limits → TaskRecord → Directory → Directory × Outcome × Bool
  unfolding save_task
  create_or_get l r d = elim (get_task l r.task_id d) [
    | nothing ↦ let (d', o) = save_task l r d in (d', o, true)
    | other ↦ (d, other, false)
  ]

  abbrev update_found :
      Limits → (TaskRecord → TaskRecord) → Outcome → Directory → Directory × Outcome
  update_found l changes nothing d = (d, key_error)
  update_found l changes (returned r) d = save_task l (changes r) d
  update_found l changes other d = (d, other)

  unfoldable pub update_task :
      Limits → String → (TaskRecord → TaskRecord) → Directory → Directory × Outcome
  update_task l task_id changes d = update_found l changes (get_task l task_id d) d

  abbrev pub append_item : Items → Value → Items
  append_item nil v = cons v nil
  append_item (cons x xs) v = cons x (append_item xs v)

  unfoldable pub append_event : Limits → String → Value → Directory → Directory × Outcome
  append_event l task_id event d = elim (get_task l task_id d) [
    | nothing ↦ (d, key_error)
    | returned r ↦
        update_task l task_id
          (λ x. record x { runtime_events = append_item r.runtime_events event }) d
    | other ↦ (d, other)
  ]
