-- ===== src/ChatLog/Flushed.antt =====
-- What chatlog_store.py has on the disk when it ends.
use mathlib.Core.Path.{subst}
use engineering_flow_platfor.Base.{
  String, ◌≡◌, refl, sym, ap, ◌∙◌, inl, inr, Bool, true, false, ◌||◌, Option, none, some, List, [],
  ◌∷◌, arith, eq_iff, ◌==◌, nat_eq, string_eq, pair_eq, Bool-cases, Option-cases, contains, lookup,
}
use engineering_flow_platfor.Base.Value.{Value, null, bool, int, decimal, str, list, dict, Fields}
use engineering_flow_platfor.ChatLog
use engineering_flow_platfor.ChatLog.{
  ChatLogStore, Moment, Outcome, nothing, raised, returned, move_to_end, erase_all, evictable,
  evict, remember, load, get_named, discard, write_named, is_recent, add_pending, write_coalesced,
  sanitize, get_log, forget, quarantine_corrupt_file, ensured, ensure, finish_write, changed, edit,
  delete_log, flush_names,
}
use engineering_flow_platfor.ChatLog.Coherent.{content, view, IsCoherent}
use engineering_flow_platfor.ChatLog.Written.{contains-discard_other, contains-discard}
use engineering_flow_platfor.ChatLog.Entries.{Preview}
use engineering_flow_platfor.ChatLog.Written.{contains-add_pending_other}
use engineering_flow_platfor.ChatLog.Names.{sanitize-sanitize}
use engineering_flow_platfor.ChatLog.Refined.{
  Call, get, start_entry, finish_entry, append_event, flush, flush_all, delete, step, run, spec_run,
  step_refines, calls_refine, flush_names-Reads,
}

-- What waits to be written is a name.
abbrev pub AreNames : List String → Type 0
AreNames pending = (k : String) → contains k pending ≡ true → sanitize k ≡ k

contains_of_discard :
    (name k : String) (xs : List String)
    → contains k (discard name xs) ≡ true
    → (contains k xs ≡ true) × ((name == k) ≡ false)
contains_of_discard name k xs h = elim (Bool-cases (name == k)) [
  | inl t ↦ absurd (ground (arith, (eq_iff name k).0 t, h, contains-discard name xs))
  | inr f ↦ (sym (contains-discard_other name k xs f) ∙ h, f)
]

discard-AreNames : (name : String) (xs : List String) → AreNames xs → AreNames (discard name xs)
discard-AreNames name xs named k h = named k (contains_of_discard name k xs h).0

add-AreNames :
    (id : String) (xs : List String) → AreNames xs → AreNames (add_pending (sanitize id) xs)
add-AreNames id xs named k h = elim (Bool-cases (sanitize id == k)) [
  | inl t ↦ subst (λ j. sanitize j ≡ j) ((eq_iff (sanitize id) k).0 t) (sanitize-sanitize id)
  | inr f ↦ named k (sym (contains-add_pending_other (sanitize id) xs k f) ∙ h)
]

abbrev IsNamed : ChatLogStore → Type 0
IsNamed s = AreNames s.pending

load-pending :
    (name : String) (o : Option (Option Value)) (s : ChatLogStore)
    → (load name o s).0.pending ≡ s.pending
unfolding remember
load-pending name none s = refl
load-pending name (some none) s = refl
load-pending name (some (some (dict payload))) s = refl
load-pending name (some (some null)) s = refl
load-pending name (some (some (bool b))) s = refl
load-pending name (some (some (int n))) s = refl
load-pending name (some (some (decimal n e))) s = refl
load-pending name (some (some (str t))) s = refl
load-pending name (some (some (list xs))) s = refl

get_named-pending : (name : String) (s : ChatLogStore) → (get_named name s).0.pending ≡ s.pending
unfolding get_named
get_named-pending name s = elim (Option-cases (lookup name s.cache)) [
  | inl p ↦ rw (p, get_named) (load-pending name (lookup name s.files) s)
  | inr (payload, p) ↦ rw (p, get_named) refl
]

quarantine-pending :
    (m : Moment) (name : String) (s : ChatLogStore)
    → (quarantine_corrupt_file m name s).pending ≡ discard name s.pending
unfolding quarantine_corrupt_file forget
quarantine-pending m name s = elim (Option-cases (lookup name s.files)) [
  | inl p ↦ rw (p, quarantine_corrupt_file) refl
  | inr (o, p) ↦ elim (Bool-cases m.movable) [
    | inl t ↦ rw (p, quarantine_corrupt_file, t) refl
    | inr f ↦ rw (p, quarantine_corrupt_file, f) refl
  ]
]

ensured-IsNamed :
    (m : Moment) (id : String) (s : ChatLogStore) (o : Outcome)
    → IsNamed s
    → IsNamed (ensured m id s o).0
ensured-IsNamed m id s nothing named = named
ensured-IsNamed m id s raised named =
    subst AreNames (sym (quarantine-pending m (sanitize id) s))
      (discard-AreNames (sanitize id) s.pending named)
ensured-IsNamed m id s (returned v) named = named

finish_write-IsNamed :
    (write : Fields → ChatLogStore → ChatLogStore) (s : ChatLogStore) (o : Option Fields)
    → ((payload : Fields) → IsNamed s → IsNamed (write payload s))
    → IsNamed s
    → IsNamed (finish_write write s o).0
finish_write-IsNamed write s none keeps named = named
finish_write-IsNamed write s (some payload) keeps named = keeps payload named

edit-IsNamed :
    (write : Fields → ChatLogStore → ChatLogStore) (change : Fields → Option Fields) (m : Moment)
    (id : String) (s : ChatLogStore)
    → ((payload : Fields) (t : ChatLogStore) → IsNamed t → IsNamed (write payload t))
    → IsNamed s
    → IsNamed (edit write change m id s).0
unfolding ensure
edit-IsNamed write change m id s keeps named =
    let g = get_log id s in
    let t = (ensure m id s).0 in
    finish_write-IsNamed write t (changed change (ensure m id s).1) (λ payload. keeps payload t)
      (ensured-IsNamed m id g.0 g.1
        (subst AreNames (sym (get_named-pending (sanitize id) s)) named))

write_named-IsNamed :
    (m : Moment) (name : String) (payload : Fields) (s : ChatLogStore)
    → IsNamed s
    → IsNamed (write_named m name payload s)
unfolding write_named remember
write_named-IsNamed m name payload s named = discard-AreNames name s.pending named

write_coalesced-IsNamed :
    (m : Moment) (id : String) (payload : Fields) (s : ChatLogStore)
    → IsNamed s
    → IsNamed (write_coalesced m (sanitize id) payload s)
unfolding write_coalesced remember
write_coalesced-IsNamed m id payload s named =
    let r = remember (sanitize id) payload s in
    elim (Bool-cases
      (is_recent m.now r.event_flush_interval (lookup (sanitize id) r.last_write_at))) [
        | inl t ↦ rw (t, write_coalesced) (add-AreNames id s.pending named)
        | inr f ↦ rw (f, write_coalesced) (write_named-IsNamed m (sanitize id) payload r named)
      ]

flush-pending :
    (m : Moment) (id : String) (s : ChatLogStore)
    → (ChatLog.flush m id s).0.pending ≡ discard (sanitize id) s.pending
unfolding ChatLog.flush write_named remember
flush-pending m id s = elim (Option-cases (lookup (sanitize id) s.cache)) [
  | inl p ↦ rw (p, ChatLog.flush) refl
  | inr (payload, p) ↦ elim (Bool-cases (contains (sanitize id) s.pending)) [
    | inl t ↦ rw (p, ChatLog.flush, t) refl
    | inr f ↦ rw (p, ChatLog.flush, f) refl
  ]
]

-- What still waits after the flush of these names waited before, and is none of them.
flush_names-pending :
    (m : Moment) (names : List String) (s : ChatLogStore) (k : String)
    → AreNames names
    → contains k (flush_names m names s).0.pending ≡ true
    → (contains k s.pending ≡ true) × (contains k names ≡ false)
unfolding flush_names
flush_names-pending m [] s k named h = (h, refl)
flush_names-pending m (name ∷ names) s k named h =
    let rest =
      flush_names-pending m names (ChatLog.flush m name s).0 k
        (λ j i. named j (rw i (or_true (name == j)))) h in
    let first =
      contains_of_discard (sanitize name) k s.pending
        (sym (ap (contains k) (flush-pending m name s)) ∙ rest.0) in
    let own : sanitize name ≡ name = named name (rw ((eq_iff name name).1 refl) refl) in
    (first.0, rw (subst (λ j. (j == k) ≡ false) own first.1, rest.1) refl)
  where
    or_true : (b : Bool) → (b || true) ≡ true
    or_true true = refl
    or_true false = refl

flush_names-IsNamed :
    (m : Moment) (names : List String) (s : ChatLogStore)
    → IsNamed s
    → IsNamed (flush_names m names s).0
unfolding flush_names
flush_names-IsNamed m [] s named = named
flush_names-IsNamed m (name ∷ names) s named =
    flush_names-IsNamed m names (ChatLog.flush m name s).0 (
      subst AreNames (sym (flush-pending m name s))
        (discard-AreNames (sanitize name) s.pending named))

step-IsNamed :
    (preview : Preview) (call : Call) (s : ChatLogStore) → IsNamed s → IsNamed (step preview call s)
unfolding step ChatLog.start_entry ChatLog.finish_entry ChatLog.append_event delete_log forget
step-IsNamed preview (get id) s named =
    subst AreNames (sym (get_named-pending (sanitize id) s)) named
step-IsNamed preview (start_entry m id request_id message g) s named =
    edit-IsNamed (write_named m (sanitize id)) _ m id s (write_named-IsNamed m (sanitize id)) named
step-IsNamed preview (finish_entry m id request_id status response g) s named =
    edit-IsNamed (write_named m (sanitize id)) _ m id s (write_named-IsNamed m (sanitize id)) named
step-IsNamed preview (append_event m id request_id event runtime) s named =
    edit-IsNamed (write_coalesced m (sanitize id)) _ m id s (write_coalesced-IsNamed m id) named
step-IsNamed preview (flush m id) s named =
    subst AreNames (sym (flush-pending m id s)) (discard-AreNames (sanitize id) s.pending named)
step-IsNamed preview (flush_all m) s named = flush_names-IsNamed m s.pending s named
step-IsNamed preview (delete id) s named = elim (Option-cases (lookup (sanitize id) s.files)) [
  | inl p ↦ rw (p, step, delete_log) (discard-AreNames (sanitize id) s.pending named)
  | inr (o, p) ↦ rw (p, step, delete_log) (discard-AreNames (sanitize id) s.pending named)
]

run-IsNamed :
    (preview : Preview) (calls : List Call) (s : ChatLogStore)
    → IsNamed s
    → IsNamed (run preview calls s)
unfolding run
run-IsNamed preview [] s named = named
run-IsNamed preview (call ∷ calls) s named =
    run-IsNamed preview calls (step preview call s) (step-IsNamed preview call s named)

run-IsCoherent :
    (preview : Preview) (calls : List Call) (s : ChatLogStore)
    → IsCoherent s
    → IsCoherent (run preview calls s)
unfolding run
run-IsCoherent preview [] s c = c
run-IsCoherent preview (call ∷ calls) s c =
    run-IsCoherent preview calls (step preview call s) (step_refines preview call s c).0

-- Where nothing waits, a file holds what a reader gets.
written_view :
    (s : ChatLogStore) (k : String)
    → IsCoherent s
    → contains k s.pending ≡ false
    → content (lookup k s.files) ≡ view s k
unfolding view
written_view s k c free = elim (Option-cases (lookup k s.cache)) [
  | inl p ↦ rw p refl
  | inr (payload, p) ↦ rw (p, c.clean k payload refl p free) refl
]

flushed :
    (m : Moment) (s : ChatLogStore) (k : String)
    → IsCoherent s
    → IsNamed s
    → content (lookup k (ChatLog.flush_all m s).0.files) ≡ view s k
flushed m s k c named =
    let r = flush_names-Reads m s.pending s c in
    let t = (ChatLog.flush_all m s).0 in
    let free : contains k t.pending ≡ false = elim (Bool-cases (contains k t.pending)) [
      | inr f ↦ f
      | inl h ↦
          let both = flush_names-pending m s.pending s k named h in absurd (ground (arith, both))
    ] in
    written_view t k r.0 free ∙ r.1 k

-- In a store whose cache and files agree, but for what is still to be written under names: after any
-- calls and a last `flush_all`, the file of every name holds what the plain map has after these calls.
pub run-flush_all :
    (preview : Preview) (calls : List Call) (m : Moment) (s : ChatLogStore)
    → IsCoherent s
    → AreNames s.pending
    → (k : String)
    → content (lookup k (ChatLog.flush_all m (run preview calls s)).0.files)
      ≡ spec_run preview calls (view s) k
run-flush_all preview calls m s c named k =
    flushed m (run preview calls s) k (run-IsCoherent preview calls s c)
      (run-IsNamed preview calls s named)
    ∙ ap (λ logs. logs k) (calls_refine preview calls s c)
