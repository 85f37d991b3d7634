-- ===== src/ChatLog/Refined.antt =====
-- chatlog_store.py refines a plain map from names to logs: what a reader gets after any calls depends
-- neither on what is cached, nor on what was evicted, nor on when files were written.
use mathlib.Core.Path.{fun_ext}
use mathlib.Core.Path.{subst}
use engineering_flow_platfor.Base.{
  String, ◌≡◌, refl, sym, ap, ◌∙◌, inl, inr, Bool, false, Option, none, some, List, [], ◌∷◌, arith,
  eq_iff, if◌then◌else◌, ◌==◌, nat_eq, string_eq, pair_eq, Bool-cases, Option-cases, contains,
  lookup,
}
use engineering_flow_platfor.Base.Value.{Value, dict, Fields}
use engineering_flow_platfor.ChatLog
use engineering_flow_platfor.ChatLog.{
  ChatLogStore, Moment, Outcome, nothing, raised, returned, move_to_end, erase_all, evictable,
  evict, remember, load, get_named, discard, write_named, is_recent, add_pending, write_coalesced,
  sanitize, get_log, forget, quarantine_corrupt_file, ensured, ensure, finish_write, changed, edit,
  delete_log, flush_names,
}
use engineering_flow_platfor.ChatLog.Coherent.{view, IsCoherent}
use engineering_flow_platfor.ChatLog.Written.{
  widen, contains-discard_other, contains-discard, Writes, write_named-Writes,
  write_coalesced-Writes,
}
use engineering_flow_platfor.ChatLog.Entries.{
  Preview, Given, start_payload, finish_payload, append_payload,
}
use engineering_flow_platfor.ChatLog.Ensured.{
  base, left, same_view, Reads-of_Writes, cached_view, Reads, get_named-Got,
}
use engineering_flow_platfor.ChatLog.Dropped.{Leaves, ensure-Leaves, delete-Leaves}

-- The methods, with what each meets.
pub data Call : Type 0 where
  get : String → Call
  start_entry : Moment → String → String → String → Given → Call
  finish_entry : Moment → String → String → String → String → Given → Call
  append_event : Moment → String → String → Value → Bool → Call
  flush : Moment → String → Call
  flush_all : Moment → Call
  delete : String → Call

-- The abstract state: what each name has.
abbrev pub Logs : Type 0
Logs = String → Outcome

abbrev pub set_log : String → Outcome → Logs → Logs
set_log name o logs k = if name == k then o else logs k

-- A change of a log: of what it has, or of a fresh one where that is missing, empty or unreadable.
abbrev pub edited : Moment → String → (Fields → Option Fields) → Outcome → Outcome
edited m id change old = elim (changed change (base m id old)) [
  | some payload ↦ returned (dict payload)
  | none ↦ left m old
]

abbrev pub edit_log : Moment → String → (Fields → Option Fields) → Logs → Logs
edit_log m id change logs = set_log (sanitize id) (edited m id change (logs (sanitize id))) logs

module _ (preview : Preview) where
  unfoldable pub spec_step : Call → Logs → Logs
  unfolding sanitize start_payload finish_payload append_payload
  spec_step (start_entry m id request_id message g) logs =
      edit_log m id (start_payload preview m.time request_id message g) logs
  spec_step (finish_entry m id request_id status response g) logs =
      edit_log m id (finish_payload preview m.time request_id status response g) logs
  spec_step (append_event m id request_id event runtime) logs =
      edit_log m id (append_payload preview m.time request_id event runtime) logs
  spec_step (delete id) logs = set_log (sanitize id) nothing logs
  spec_step other logs = logs

  unfoldable pub step : Call → ChatLogStore → ChatLogStore
  step (get id) s = (get_log id s).0
  step (start_entry m id request_id message g) s =
      (ChatLog.start_entry preview m id request_id message g s).0
  step (finish_entry m id request_id status response g) s =
      (ChatLog.finish_entry preview m id request_id status response g s).0
  step (append_event m id request_id event runtime) s =
      (ChatLog.append_event preview m id request_id event runtime s).0
  step (flush m id) s = (ChatLog.flush m id s).0
  step (flush_all m) s = (ChatLog.flush_all m s).0
  step (delete id) s = (delete_log id s).0

  unfoldable pub run : List Call → ChatLogStore → ChatLogStore
  run [] s = s
  run (c ∷ calls) s = run calls (step c s)

  unfoldable pub spec_run : List Call → Logs → Logs
  spec_run [] logs = logs
  spec_run (c ∷ calls) logs = spec_run calls (spec_step c logs)

-- Either kind of write.
abbrev pub IsWrite : String → (Fields → ChatLogStore → ChatLogStore) → Type 0
IsWrite name write =
    (payload : Fields) (s : ChatLogStore) → IsCoherent s → Writes name payload s (write payload s)

module _ (m : Moment) (id : String) (change : Fields → Option Fields) (old : Outcome) where
  edited_not : changed change (base m id old) ≡ none → edited m id change old ≡ left m old
  edited_not p = rw (edited, p) refl

  edited_to :
      (payload : Fields)
      → changed change (base m id old) ≡ some payload
      → edited m id change old ≡ returned (dict payload)
  edited_to payload p = rw (edited, p) refl

edit-Leaves :
    (write : Fields → ChatLogStore → ChatLogStore) (change : Fields → Option Fields) (m : Moment)
    (id : String) (s : ChatLogStore)
    → IsWrite (sanitize id) write
    → IsCoherent s
    → Leaves
        (sanitize id)
        (edited m id change (view s (sanitize id)))
        s
        (edit write change m id s).0
edit-Leaves write change m id s ok c =
    let name = sanitize id in
    let old = view s name in
    let e = ensure-Leaves m id s c in
    let t = (ensure m id s).0 in
    let same = ap (changed change) e.1 in
    elim (Option-cases (changed change (base m id old))) [
      | inl p ↦
          subst (λ o. Leaves name (edited m id change old) s (finish_write write t o).0)
            (sym (same ∙ p))
            (subst (λ o. Leaves name o s t) (sym (edited_not m id change old p)) e.0)
      | inr (payload, p) ↦
          let w = ok payload t e.0.0 in
          subst (λ o. Leaves name (edited m id change old) s (finish_write write t o).0)
            (sym (same ∙ p))
            (
              w.0,
              λ k. w.1 k ∙ elim (Bool-cases (name == k)) [
                | inl h ↦ rw h (sym (edited_to m id change old payload p))
                | inr f ↦ rw f (e.0.1 k ∙ rw f refl)
              ],
            )
    ]

discard-Reads :
    (name : String) (s : ChatLogStore)
    → IsCoherent s
    → ((payload : Fields) → lookup name s.cache ≡ some payload → contains name s.pending ≡ false)
    → Reads s (record s { pending = discard name s.pending })
discard-Reads name s c free = (
  record {
    cached_once = c.cached_once;
    filed_once = c.filed_once;
    kept = λ k idle waits. elim (Bool-cases (name == k)) [
      | inl t ↦ absurd (ground (arith, (eq_iff name k).0 t, waits, contains-discard name s.pending))
      | inr f ↦ c.kept k refl (sym (contains-discard_other name k s.pending f) ∙ waits)
    ];
    clean = λ k payload idle p unpending. elim (Bool-cases (name == k)) [
      | inr f ↦
          c.clean k payload refl p (sym (contains-discard_other name k s.pending f) ∙ unpending)
      | inl t ↦ c.clean k payload refl p (
          subst (λ j. lookup j s.cache ≡ some payload → contains j s.pending ≡ false)
            ((eq_iff name k).0 t) (free payload) p)
    ];
  },
  λ k. same_view s (record s { pending = discard name s.pending }) k refl refl,
)

flush-Reads :
    (m : Moment) (id : String) (s : ChatLogStore) → IsCoherent s → Reads s (ChatLog.flush m id s).0
unfolding ChatLog.flush
flush-Reads m id s c =
    let name = sanitize id in
    elim (Option-cases (lookup name s.cache)) [
      | inl p ↦
          rw (p, ChatLog.flush)
            (discard-Reads name s c (λ payload q. absurd (ground (arith, p, q))))
      | inr (payload, p) ↦ elim (Bool-cases (contains name s.pending)) [
        | inr f ↦ rw (p, ChatLog.flush, f) (discard-Reads name s c (λ payload q. f))
        | inl t ↦
            rw (p, ChatLog.flush, t)
              (Reads-of_Writes name payload s (write_named m name payload s)
                (cached_view name s c payload p)
                (write_named-Writes m name payload s (widen _ s c)))
      ]
    ]

pub flush_names-Reads :
    (m : Moment) (names : List String) (s : ChatLogStore)
    → IsCoherent s
    → Reads s (flush_names m names s).0
unfolding flush_names
flush_names-Reads m [] s c = (c, λ k. refl)
flush_names-Reads m (name ∷ names) s c =
    let first = flush-Reads m name s c in
    let rest = flush_names-Reads m names (ChatLog.flush m name s).0 first.0 in
    (rest.0, λ k. rest.1 k ∙ first.1 k)

-- A coherent store stays so, and every name is left with what the call promises.
pub step_refines :
    (preview : Preview) (call : Call) (s : ChatLogStore)
    → IsCoherent s
    → IsCoherent (step preview call s)
      × ((k : String) → view (step preview call s) k ≡ spec_step preview call (view s) k)
unfolding step spec_step ChatLog.start_entry ChatLog.finish_entry ChatLog.append_event
step_refines preview (get id) s c = (get_named-Got (sanitize id) s c).0
step_refines preview (start_entry m id request_id message g) s c =
    edit-Leaves (write_named m (sanitize id)) (start_payload preview m.time request_id message g) m
      id s (λ payload t ok. write_named-Writes m (sanitize id) payload t (widen _ t ok)) c
step_refines preview (finish_entry m id request_id status response g) s c =
    edit-Leaves (write_named m (sanitize id))
      (finish_payload preview m.time request_id status response g) m id s
      (λ payload t ok. write_named-Writes m (sanitize id) payload t (widen _ t ok)) c
step_refines preview (append_event m id request_id event runtime) s c =
    edit-Leaves (write_coalesced m (sanitize id))
      (append_payload preview m.time request_id event runtime) m id s
      (λ payload t ok. write_coalesced-Writes m (sanitize id) payload t (widen _ t ok)) c
step_refines preview (flush m id) s c = flush-Reads m id s c
step_refines preview (flush_all m) s c = flush_names-Reads m s.pending s c
step_refines preview (delete id) s c = delete-Leaves id s c

-- In a store whose cache and files agree, but for what is still to be written: after any calls, a
-- reader gets for every name what the plain map has after the same calls, whatever the limit of the
-- cache, the interval and the clocks are, so that neither eviction nor a deferred write loses an event.
pub calls_refine :
    (preview : Preview) (calls : List Call) (s : ChatLogStore)
    → IsCoherent s
    → view (run preview calls s) ≡ spec_run preview calls (view s)
unfolding run spec_run
calls_refine preview [] s c = refl
calls_refine preview (call ∷ calls) s c =
    let (next, same) = step_refines preview call s c in
    calls_refine preview calls (step preview call s) next
    ∙ ap (spec_run preview calls) (fun_ext same)
