-- ===== src/Registry/Compact.antt =====
-- `compact_final_payload` of chat_run_registry.py.
use engineering_flow_platfor.Base.{ℕ, String, true, Option, none, some, ltb, if◌then◌else◌}
use engineering_flow_platfor.Base.Value.{
  pos, Value, bool, int, list, Fields, end, get, put, size, last_items,
}

abbrev pub retained_event_tail_items : ℕ
retained_event_tail_items = 100

-- `key_count` and `key_truncated` beside the cut list
abbrev pub write_tail : String → String → String → Fields → Value → Fields
write_tail key count truncated payload (list xs) =
    if ltb retained_event_tail_items (size xs)
    then put truncated (bool true) (
        put count (int (pos (size xs)))
          (put key (list (last_items retained_event_tail_items xs)) payload))
    else payload
write_tail key count truncated payload _ = payload

-- One round of the loop: `count` and `truncated` are the two derived keys.
unfoldable pub compact_key : String → String → String → Fields → Fields
compact_key key count truncated payload = write_tail key count truncated payload (get key payload)

unfoldable pub compact_final_payload : Option Fields → Fields
unfolding compact_key
compact_final_payload none = end
compact_final_payload (some payload) =
    compact_key "thinking_events" "thinking_events_count" "thinking_events_truncated" (
      compact_key "runtime_events" "runtime_events_count" "runtime_events_truncated"
        (compact_key "events" "events_count" "events_truncated" payload))
