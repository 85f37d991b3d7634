-- ===== src/SessionStore/Writes.antt =====
-- The writes to the sessions of session_store.py: `upsert` of a given record, and the methods that
-- change a record that is there. `load` is not among them.
use engineering_flow_platfor.SessionStore.{SessionRecord, SessionStore, upsert}
use engineering_flow_platfor.SessionStore.Deleted.{Call, step}

pub data Write : Type 0 where
  made : Call → Write
  stored : SessionRecord → Write

unfoldable pub write : Write → SessionStore → SessionStore
write (made c) s = step c s
write (stored r) s = upsert r s
