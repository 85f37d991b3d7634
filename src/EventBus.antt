-- ===== src/EventBus.antt =====
-- efp_opencode_adapter/event_bus.py: live subscribers with bounded queues, and the events kept for
-- replay by session and by request. Instants are ticks of the clock; `repr` is the interpreter's
-- text of a number, a list or a dict, and `fromisoformat` the standard library's parser of instants.
-- The websocket handler around it is not modelled.
pub mod Replay
pub mod Queues
pub mod Buckets
pub mod Bounds
pub mod Replayed
mod Tests
use Prim.Native.Char.{code}
use engineering_flow_platfor.Base.{
  ℕ, ◌+◌, max, String, Bool, true, not, ◌&&◌, ◌||◌, Option, none, some, List, [], ◌∷◌, ◌++◌, ltb,
  leb, if◌then◌else◌, ◌==◌, nat_eq, string_eq, pair_eq, length, drop, select, contains, is_empty,
  Dict, lookup, insert,
}
use engineering_flow_platfor.Base.Value.{Value, Fields, truthy, as_dict, get, has, to_text}

abbrev pub allowed_filter_keys : List String
allowed_filter_keys =
    "session_id" ∷ "task_id" ∷ "request_id" ∷ "agent_id" ∷ "group_id" ∷ "coordination_run_id" ∷ []

abbrev pub queue_size : ℕ
queue_size = 100

-- `id` is the identity of the object
pub record Subscriber : Type 0 where
  pub id : ℕ
  pub filters : Dict String String
  pub queue : List Fields

-- `(now, seq, event)` in a replay bucket
pub record Item : Type 0 where
  pub ts : ℕ
  pub seq : ℕ
  pub event : Fields

abbrev pub Store : Type 0
Store = Dict String (List Item)

pub record EventBus : Type 0 where
  pub subs : List Subscriber
  pub replay_limit : ℕ
  pub replay_ttl : ℕ
  pub sweep_interval : ℕ
  pub recent_by_session : Store
  pub recent_by_request : Store
  pub next_seq : ℕ
  pub last_sweep : ℕ

abbrev pub new_bus : ℕ → ℕ → ℕ → EventBus
new_bus replay_limit replay_ttl sweep_interval = record {
  subs = [];
  replay_limit = replay_limit;
  replay_ttl = max 1 replay_ttl;
  sweep_interval = sweep_interval;
  recent_by_session = [];
  recent_by_request = [];
  next_seq = 1;
  last_sweep = 0;
}

-- `{k: v for k, v in filters.items() if k in ALLOWED_FILTER_KEYS and v}`
unfoldable pub subscribe : ℕ → Dict String String → EventBus → EventBus × Subscriber
subscribe id filters bus =
    let sub : Subscriber = record {
      id = id;
      filters = select (λ f. contains f.0 allowed_filter_keys && not (is_empty f.1)) filters;
      queue = [];
    } in
    (record bus { subs = sub ∷ bus.subs }, sub)

unfoldable pub unsubscribe : ℕ → EventBus → EventBus
unsubscribe id bus = record bus { subs = select (λ s. not (s.id == id)) bus.subs }

module _ (repr : Value → String) where
  unfoldable pub matches : Dict String String → Fields → Bool
  matches [] event = true
  matches ((key, value) ∷ filters) event =
      has key event && to_text repr (get key event) == value && matches filters event

  unfoldable pub event_value : Fields → String → String
  event_value event key =
      if truthy (get key event)
      then to_text repr (get key event)
      else if truthy (get key (as_dict (get "data" event)))
      then to_text repr (get key (as_dict (get "data" event)))
      else ""

-- `if sub.queue.full(): sub.queue.get_nowait()`, then `sub.queue.put_nowait(event)`
make_room : List Fields → List Fields
make_room q = if leb queue_size (length q) then drop 1 q else q

put_nowait : Fields → List Fields → List Fields
put_nowait event q = if leb queue_size (length q) then q else q ++ event ∷ []

module _ (repr : Value → String) where
  unfoldable pub deliver : Fields → Subscriber → Subscriber
  unfolding make_room put_nowait
  deliver event sub =
      if matches repr sub.filters event
      then record sub { queue = put_nowait event (make_room sub.queue) }
      else sub

-- `bucket[0][0] < now - ttl`
abbrev pub is_expired : ℕ → ℕ → Item → Bool
is_expired ttl now it = ltb (it.ts + ttl) now

unfoldable pub prune_bucket : ℕ → ℕ → List Item → List Item
prune_bucket ttl now [] = []
prune_bucket ttl now (it ∷ bucket) =
    let rest = prune_bucket ttl now bucket in if is_expired ttl now it then rest else it ∷ bucket

-- `while len(bucket) > self.replay_limit: bucket.popleft()`
unfoldable pub trim_bucket : ℕ → List Item → List Item
trim_bucket limit [] = []
trim_bucket limit (it ∷ bucket) =
    let rest = trim_bucket limit bucket in
    if ltb limit (length (it ∷ bucket)) then rest else it ∷ bucket

-- `store.setdefault(key, deque())`
abbrev pub bucket_of : Option (List Item) → List Item
bucket_of none = []
bucket_of (some bucket) = bucket

-- `if not bucket: del store[key]`
abbrev pub keep_bucket : String → List Item → Store → Store
keep_bucket key [] store = store
keep_bucket key (it ∷ bucket) store = (key, it ∷ bucket) ∷ store

module _ (bus : EventBus) (now : ℕ) where
  unfoldable pub append_limited : Store → String → Item → Store
  append_limited store key it =
      if is_empty key || leb bus.replay_limit 0
      then store
      else insert key
          (trim_bucket bus.replay_limit
            (prune_bucket bus.replay_ttl now (bucket_of (lookup key store) ++ it ∷ [])))
          store

  -- the inner loop of the sweep
  unfoldable pub sweep_store : Store → Store
  sweep_store [] = []
  sweep_store ((key, bucket) ∷ store) =
      keep_bucket key (prune_bucket bus.replay_ttl now bucket) (sweep_store store)

  unfoldable pub sweep_expired_buckets : EventBus
  unfolding sweep_store
  sweep_expired_buckets =
      if ltb now (bus.last_sweep + bus.sweep_interval) then bus else record bus {
        last_sweep = now;
        recent_by_session = sweep_store bus.recent_by_session;
        recent_by_request = sweep_store bus.recent_by_request;
      }

module _ (repr : Value → String) where
  -- the part of `_store_recent` behind the sweep
  unfoldable pub record_item : ℕ → Fields → EventBus → EventBus
  unfolding append_limited
  record_item now event bus =
      let it : Item = record { ts = now; seq = bus.next_seq; event = event } in
      record bus {
        next_seq = bus.next_seq + 1;
        recent_by_session =
            append_limited bus now bus.recent_by_session (event_value repr event "session_id") it;
        recent_by_request =
            append_limited bus now bus.recent_by_request (event_value repr event "request_id") it;
      }

  unfoldable pub store_recent : ℕ → Fields → EventBus → EventBus
  unfolding record_item sweep_expired_buckets
  store_recent now event bus =
      if leb bus.replay_limit 0 then bus else record_item now event (sweep_expired_buckets bus now)

  unfoldable pub deliver_all : Fields → List Subscriber → List Subscriber
  unfolding deliver
  deliver_all event [] = []
  deliver_all event (sub ∷ subs) = deliver repr event sub ∷ deliver_all event subs

  -- An observer acts on the state `S` of its own; its exceptions are caught.
  unfoldable pub notify {ℓ} : {S : Type ℓ} → List (Fields → S → S) → Fields → S → S
  notify [] event state = state
  notify (observer ∷ observers) event state = notify observers event (observer event state)

  unfoldable pub publish {ℓ} :
      {S : Type ℓ} → List (Fields → S → S) → ℕ → Fields → EventBus × S → EventBus × S
  unfolding store_recent deliver_all notify
  publish observers now event (bus, state) =
      let stored = store_recent now event bus in
      (record stored { subs = deliver_all event stored.subs }, notify observers event state)
