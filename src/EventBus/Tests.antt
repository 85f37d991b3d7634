-- ===== src/EventBus/Tests.antt =====
-- The event bus at concrete events, and its theorems applied to them.
use engineering_flow_platfor.Base.{
  ℕ, String, ◌≡◌, refl, Option, none, some, List, [], ◌∷◌, nat_eq, string_eq, pair_eq, All, lookup,
  insert,
}
use engineering_flow_platfor.Base.Value.{pos, Value, str, dict, Fields, end, field}
use engineering_flow_platfor.Pending.{PendingInput, observe_event}
use engineering_flow_platfor.EventBus.{
  trim_bucket, prune_bucket, Subscriber, Item, EventBus, new_bus, publish, event_value,
}
use engineering_flow_platfor.EventBus.Buckets.{IsValid}
use engineering_flow_platfor.EventBus.Bounds.{new_bus-IsValid, publish-IsValid}
use engineering_flow_platfor.EventBus.Replay.{Query, recent_events, replace_z}
use engineering_flow_platfor.EventBus.Replayed.{observe-recent_events}

abbrev repr : Value → String
repr v = "..."

abbrev no_time : String → Option ℕ
no_time s = none

abbrev event : Fields
event = field "session_id" (str "s1") (field "request_id" (str "r1") end)

abbrev subscriber : Subscriber
subscriber = record { id = 1; filters = ("session_id", "s1") ∷ []; queue = [] }

abbrev bus : EventBus
bus = record (new_bus 2 50 10) { subs = subscriber ∷ [] }

abbrev idle : PendingInput
idle = record { max_sessions = 4; pending = [] }

-- as server.py registers it
abbrev observers : List (Fields → PendingInput → PendingInput)
observers = (λ e s. observe_event repr (dict e) s) ∷ []

-- Three events of one session: the replay keeps the last two.
abbrev busy : EventBus
busy =
    (publish repr observers 7 event
      (publish repr observers 6 event (publish repr observers 5 event (bus, idle)))).0

busy_buckets :
    busy.recent_by_session
    ≡ (
      "s1",
      record { ts = 6; seq = 2; event = event } ∷ record { ts = 7; seq = 3; event = event } ∷ [],
    )
      ∷ []
unfolding publish lookup insert event_value trim_bucket prune_bucket
busy_buckets = refl

zulu : replace_z "2026-01-02T03:04:05Z" ≡ "2026-01-02T03:04:05+00:00"
unfolding replace_z
zulu = refl

publish-IsValid_example : IsValid (publish repr observers 5 event (bus, idle)).0
publish-IsValid_example = publish-IsValid repr observers 5 event bus idle (bus-IsValid)
  where
    bus-IsValid : IsValid bus
    bus-IsValid = record {
      by_session = (new_bus-IsValid 2 50 10).by_session;
      by_request = (new_bus-IsValid 2 50 10).by_request;
    }

abbrev query : Query
query = record {
  session_id = "s1";
  request_id = "";
  limit = some (pos 1);
  types = [];
  last_event_at = "";
}

observe-recent_events_example :
    All (λ e. observe_event repr (dict e) idle ≡ idle) (recent_events repr no_time 8 query busy).1
observe-recent_events_example = observe-recent_events repr no_time 8 query busy idle

abbrev stored : Item
stored = record { ts = 5; seq = 1; event = event }
