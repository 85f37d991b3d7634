-- ===== src/TaskEvents/Tests.antt =====
-- Events of tasks at concrete values, and the theorems applied to them.
use engineering_flow_platfor.Base.{
  ◌≤◌, ◌≡◌, refl, true, false, [], ◌∷◌, nat_eq, string_eq, pair_eq, strip,
}
use engineering_flow_platfor.Base.Value.{
  pos, Value, bool, int, str, list, dict, nil, cons, Fields, end, field,
}
use engineering_flow_platfor.Base.Interpreter.{Texts}
use engineering_flow_platfor.TaskEvents.Compact.{compact_value, compact_public_task_payload}
use engineering_flow_platfor.TaskEvents.Ids.{
  canonical_event, event_type, depth_of, message_ids_within, message_ids_from_event_or_message,
  first_key,
}
use engineering_flow_platfor.TaskEvents.Delta.{
  opened, permission_event_delta, delta_of, first_str_from_event, first_in_both, permission_id_of,
}
use engineering_flow_platfor.TaskEvents.Small.{nesting, widest, compact_value_lem}

abbrev as_typed : Texts
as_typed = record { repr = λ v. "..."; lower = λ s. s }

abbrev asked : Fields
asked =
    field "payload"
      (dict (
        field "type" (str "permission.updated") (
          field "permission" (dict (field "id" (str "p1") (field "messageID" (str "m1") end)))
            end)))
      end

opened_permission : permission_event_delta as_typed asked ≡ opened "p1"
unfolding permission_event_delta delta_of event_type canonical_event strip first_str_from_event
    first_in_both first_key permission_id_of
opened_permission = refl

ids : message_ids_from_event_or_message asked ≡ "m1" ∷ []
unfolding message_ids_from_event_or_message message_ids_within depth_of
ids = refl

abbrev deep : Value
deep = list (cons (dict (field "result" (str "long") (field "n" (int (pos 1)) end))) nil)

shortened :
    compact_public_task_payload (λ v. "...") (field "events" deep (field "ok" (bool true) end))
    ≡ field "events"
        (list (
          cons
            (dict (
              field "result"
                (dict (
                  field "_omitted"
                    (bool true)
                    (field "reason" (str "available_in_full_task_json_download") end)))
                (field "n" (int (pos 1)) end)))
            nil))
        (field "events_count" (int (pos 1)) (
          field "events_truncated"
            (bool false)
            (field "ok" (bool true) (field "full_payload_available" (bool true) end))))
unfolding compact_public_task_payload compact_value
shortened = refl

compact_value_lem_example :
    (nesting (compact_value (λ v. "...") "output" 0 deep) ≤ 7)
    × (widest (compact_value (λ v. "...") "output" 0 deep) ≤ 101)
compact_value_lem_example = compact_value_lem (λ v. "...") "output" deep
