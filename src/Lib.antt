-- ===== src/Lib.antt =====
-- The state that the adapter between the Portal and OpenCode keeps in memory and on disk, and the
-- decisions that are taken from it. The adapter (efp_opencode_adapter) accepts chats and tasks from the
-- Portal, runs them in an OpenCode server, and passes OpenCode's events on to subscribers.
--
-- Parts and files:
--   Base                  tests on numbers and texts, lists, stable sorting, dicts as association lists
--                         in the order of first writes, `str.strip`, the values of JSON (Base.Value), and
--                         the parameters that stand for the interpreter (Base.Interpreter)
--   Registry              efp_opencode_adapter/chat_run_registry.py: the runs of chats. `start` enters a
--                         run, `record_event` and `mark_detached` follow it, `complete`, `fail` and
--                         `cancel` end it; a `start` that enters a run then fails stale runs and
--                         prunes finished ones
--   Pending               efp_opencode_adapter/pending_input.py: the permission that each session waits
--                         for. The store observes the events of the bus (`observe_event`); a reply
--                         claims the permission (`claim`) and gives it back when it fails (`release`)
--   EventBus              efp_opencode_adapter/event_bus.py: `publish` keeps an event in the replay
--                         buckets of its keys and puts it into the queues of the subscribers that
--                         match; `recent_events` replays
--   Bindings              efp_opencode_adapter/request_bindings.py: which request a session, message or
--                         task of OpenCode belongs to
--   SessionStore          efp_opencode_adapter/session_store.py: the Portal's sessions and index.json;
--                         SessionStore.Status is its abstract state, the status of each id
--   Permission            efp_opencode_adapter/permission_generator.py: the permission block of
--                         OpenCode's configuration, from the runtime profile
--   TaskStore             efp_opencode_adapter/task_store.py: one file for each task. A record that is
--                         too large for its file is written in the first smaller form that fits
--                         (TaskStore.Persist); lists scan a bounded part of the directory
--                         (TaskStore.Listing)
--   Pricing               efp_opencode_adapter/copilot_pricing.py: the price of a request in
--                         thousandths of a dollar for a million tokens; floats are exact numbers here
--   Approvals             efp_opencode_adapter/permissions_api.py: the answer to a permission, up to the
--                         call of OpenCode (`prepare`) and from its reply on (`settle`), over Pending
--                         and SessionStore; requests that overlap are in Approvals.Flights
--   Titles                efp_opencode_adapter/session_title.py: the name that a model gives a session.
--                         `begin`, `ask` and `finish` are the stages between what the source awaits;
--                         Titles.Clean cleans the reply, Titles.Target chooses proxy and model,
--                         Titles.Request builds the request
--   TaskCompletion        efp_opencode_adapter/task_completion_parser.py: the status and the payload
--                         that the last message of a task gives
--   TaskEvents            efp_opencode_adapter/tasks_api.py: the sessions and messages that an event names,
--                         whether it belongs to a task (TaskEvents.Ids), the permissions that it opens
--                         or resolves (TaskEvents.Delta), and the shortened payload that is shown
--                         (TaskEvents.Compact, TaskEvents.Shown)
--   ChatLog               efp_opencode_adapter/chatlog_store.py: the logs of chats, in a cache of bounded
--                         size and in one file each. Lifecycle writes go to the file at once, events
--                         are written at most once in an interval (`write_coalesced`, `flush`);
--                         ChatLog.Entries is the payload, ChatLog.Coherent what cache and files have
--                         to do with each other, ChatLog.Refined the plain map that they implement
--   Recovery              efp_opencode_adapter/recovery.py: what a start does with the sessions that
--                         OpenCode no longer knows (`recover_sessions`), with the tasks of an earlier
--                         run (`recover_tasks`) and with the entries that chat logs still have as
--                         running (`recover_chat_logs`), over SessionStore, TaskStore and ChatLog
--   ProxyPlan             efp_opencode_adapter/proxy_plan.py: the named proxies of a profile, their
--                         variables, and the proxy of a consumer
--
-- The event bus and the pending store meet in EventBus.Replayed: the store observes what the bus
-- publishes, and leaves alone what the bus replays.
--
-- How the code corresponds: a method is a function of the state before to the state after, with what it
-- returns; a dict is an association list; a clock is an argument, a whole number of ticks (of
-- microseconds in Bindings, a text in SessionStore), read once by a method (`clear` of
-- SessionStore: once for each record). Exceptions are values.
-- A handler that awaits is split there, and what runs meanwhile is a sequence of steps.
-- Function and field names are those of the source without a leading underscore. Loops run over lists
-- except for three: the cleaning of a title runs for at most twice as many turns as the first line has
-- characters, the search for a proxy's token for as many turns as there are tokens, and the search for
-- message ids in a tree of messages to the depth of the tree; all three are shown to end within that.
-- Regular expressions are written out as functions on characters. Parameters stand for the interpreter's
-- text of numbers, lists and dicts, for float conversions and for `str.lower`, for the redaction of
-- `safe_preview`, and for other code outside of this repository.
--
-- Not modelled: the other HTTP handlers, websockets, processes, file input and output apart from
-- index.json, the task files and the chat logs, and the modules that only call them. Locks are not
-- modelled, since each method runs as a whole.
pub mod Base
pub mod Approvals
pub mod Registry
pub mod Pending
pub mod EventBus
pub mod Bindings
pub mod SessionStore
pub mod Permission
pub mod TaskStore
pub mod Pricing
pub mod Titles
pub mod TaskCompletion
pub mod ProxyPlan
pub mod TaskEvents
pub mod ChatLog
pub mod Recovery
