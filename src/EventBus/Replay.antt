-- ===== src/EventBus/Replay.antt =====
-- `recent_events` of event_bus.py: what a reconnecting client is sent again.
use Prim.Native.Char.{code}
use engineering_flow_platfor.Base.{
  ℕ, zero, suc, min, String, Bool, true, not, ◌&&◌, ◌||◌, Option, none, some, List, [], ◌∷◌, ltb,
  eqb, if◌then◌else◌, ◌==◌, nat_eq, string_eq, pair_eq, last, contains, is_nil, sorted_by, is_empty,
  lookup, insert,
}
use engineering_flow_platfor.Base.Value.{
  ℤ, pos, negsuc, Value, bool, str, dict, Fields, or_else, as_dict, get, put, to_text,
}
use engineering_flow_platfor.EventBus.{Item, Store, EventBus, event_value, prune_bucket, bucket_of}

-- `raw[:-1] + "+00:00"` if the text ends in Z, and the text itself if not
unfoldable pub replace_z : String → String
replace_z String.[] = ""
replace_z (String.◌∷◌ c s) =
    let rest = replace_z s in
    if is_empty s && eqb (code c) b'Z' then "+00:00" else String.◌∷◌ c rest

-- What a client asks for: `types` is empty, and `last_event_at` and the ids are empty texts,
-- where the query does not name them
pub record Query : Type 0 where
  pub session_id : String
  pub request_id : String
  pub limit : Option ℤ
  pub types : List String
  pub last_event_at : String

abbrev pub is_after : Option ℕ → ℕ → Bool
is_after none t = true
is_after (some last) t = ltb last t

-- `max(0, min(int(limit), self.replay_limit))`
abbrev pub max_items : ℕ → Option ℤ → ℕ
max_items replay_limit none = replay_limit
max_items replay_limit (some (pos n)) = min n replay_limit
max_items replay_limit (some (negsuc n)) = 0

abbrev pub tail_items : ℕ → List Item → List Item
tail_items zero items = []
tail_items (suc n) items = last (suc n) items

unfoldable pub mark_replayed : Fields → Fields
mark_replayed event =
    let with_metadata =
      put "metadata" (dict (put "replayed" (bool true) (as_dict (get "metadata" event)))) event in
    put "data" (dict (put "replayed" (bool true) (as_dict (get "data" with_metadata))))
      with_metadata

-- the pruned bucket is written back
abbrev pub write_back : String → List Item → Option (List Item) → Store → Store
write_back key bucket none store = store
write_back key bucket (some _) store = insert key bucket store

-- the bucket that the query reads, pruned
unfoldable pub read_bucket : ℕ → Query → EventBus → List Item
read_bucket now q bus =
    if not (is_empty q.request_id)
    then prune_bucket bus.replay_ttl now (bucket_of (lookup q.request_id bus.recent_by_request))
    else if not (is_empty q.session_id)
    then prune_bucket bus.replay_ttl now (bucket_of (lookup q.session_id bus.recent_by_session))
    else []

unfoldable pub after_read : ℕ → Query → EventBus → EventBus
unfolding read_bucket
after_read now q bus =
    if not (is_empty q.request_id)
    then record bus {
      recent_by_request =
          write_back q.request_id (read_bucket now q bus)
            (lookup q.request_id bus.recent_by_request) bus.recent_by_request;
    }
    else if not (is_empty q.session_id)
    then record bus {
      recent_by_session =
          write_back q.session_id (read_bucket now q bus)
            (lookup q.session_id bus.recent_by_session) bus.recent_by_session;
    }
    else bus

unfoldable pub replay : List Item → List Fields
unfolding mark_replayed
replay [] = []
replay (it ∷ items) = mark_replayed it.event ∷ replay items

module _ (repr : Value → String) (fromisoformat : String → Option ℕ) where
  unfoldable pub parse_event_time : String → Option ℕ
  unfolding replace_z
  parse_event_time raw = if is_empty raw then none else fromisoformat (replace_z raw)

  unfoldable pub event_sort_time : Item → ℕ
  unfolding parse_event_time
  event_sort_time it =
      elim (parse_event_time (to_text repr (or_else (get "created_at" it.event) (str "")))) [
        | none ↦ it.ts
        | some t ↦ t
      ]

  -- the conditions under which the loop does not `continue`
  unfoldable pub is_wanted : Query → Item → Bool
  unfolding event_sort_time
  is_wanted q it =
      (is_nil q.types
        || contains
            (to_text repr
              (or_else (get "type" it.event) (or_else (get "event_type" it.event) (str ""))))
            q.types)
      && (is_empty q.request_id
          || is_empty q.session_id
          || event_value repr it.event "session_id" == q.session_id)
      && is_after (parse_event_time q.last_event_at) (event_sort_time it)

  -- the loop over a bucket; `seen` holds the sequence numbers that were met
  unfoldable pub collect : Query → List ℕ → List Item → List Item
  unfolding is_wanted
  collect q seen [] = []
  collect q seen (it ∷ bucket) =
      let skipped = collect q seen bucket in
      let rest = collect q (it.seq ∷ seen) bucket in
      if contains it.seq seen then skipped else if is_wanted q it then it ∷ rest else rest

  -- `items.sort(key=(time, seq))`: a stable sort by time after one by sequence number
  unfoldable pub sort_items : List Item → List Item
  unfolding event_sort_time
  sort_items items = sorted_by event_sort_time (sorted_by (λ it. it.seq) items)

  unfoldable pub selected_items : ℕ → Query → EventBus → List Item
  unfolding read_bucket collect sort_items
  selected_items now q bus =
      tail_items (max_items bus.replay_limit q.limit)
        (sort_items (collect q [] (read_bucket now q bus)))

  unfoldable pub recent_events : ℕ → Query → EventBus → EventBus × List Fields
  unfolding after_read selected_items replay
  recent_events now q bus = (after_read now q bus, replay (selected_items now q bus))
