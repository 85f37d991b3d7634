-- ===== src/Registry/Continues.antt =====
-- The calls of chat_run_registry.py that write to one found record: no run is lost, each goes on.
use mathlib.Core.Option
use engineering_flow_platfor.Base.{
  ℕ, String, ◌≡◌, refl, ◌∙◌, Bool, true, Option, none, some, lookup, arith, eq_iff, string_eq, ◌==◌,
  lookup-insert, Bool-cases, Option-cases, inl, inr, strip,
}
use engineering_flow_platfor.Base.Value.{Value, Fields}
use engineering_flow_platfor.Registry
use engineering_flow_platfor.Registry.{
  ChatRunRecord, RunState, running, completed, failed, cancelled, Registry, is_terminal, new_record,
  find, write_at, on_record, enter, fail_stale, fail_stale_all, fail_stale_running_records,
  prune_terminal_records, attach_task, record_event, mark_detached, completion_state,
}
use engineering_flow_platfor.Registry.Found.{IsKeyed, own_id, insert-IsKeyed}
use engineering_flow_platfor.Registry.Stale.{Follows, Follows-refl}

-- A call that loses no run, and after which every run went on from what it was.
pub record Continues (g h : Registry) : Type 0 where
  pub keyed : IsKeyed h.records
  pub follows :
      (k : String) (r : ChatRunRecord)
      → lookup k g.records ≡ some r
      → (s : ChatRunRecord) × (lookup k h.records ≡ some s) × Follows r s

Continues-refl : (g : Registry) → IsKeyed g.records → Continues g g
Continues-refl g keyed = record { keyed = keyed; follows = λ k r e. (r, e, Follows-refl r) }

-- what `find` gives stands under the stripped id
pub lookup-of_find :
    (g : Registry) (id session : String) (r : ChatRunRecord)
    → find g id session ≡ some r
    → lookup (strip id) g.records ≡ some r
unfolding find
lookup-of_find g id session r e = ground arith

module _ (f : ChatRunRecord → ChatRunRecord) (follows : (r : ChatRunRecord) → Follows r (f r)) where
  write_at-IsKeyed :
      (g : Registry) (rid : String) (o : Option ChatRunRecord)
      → ((r : ChatRunRecord) → o ≡ some r → lookup rid g.records ≡ some r)
      → IsKeyed g.records
      → IsKeyed (write_at g rid f o).records
  write_at-IsKeyed g rid none found keyed = keyed
  write_at-IsKeyed g rid (some r) found keyed =
      insert-IsKeyed rid g.records (f r)
        ((follows r).same_id ∙ own_id rid g.records r keyed (found r refl)) keyed

  write_at-Follows :
      (g : Registry) (rid : String) (o : Option ChatRunRecord) (k : String) (r : ChatRunRecord)
      → ((q : ChatRunRecord) → o ≡ some q → lookup rid g.records ≡ some q)
      → lookup k g.records ≡ some r
      → (s : ChatRunRecord) × (lookup k (write_at g rid f o).records ≡ some s) × Follows r s
  write_at-Follows g rid none k r found e = (r, e, Follows-refl r)
  write_at-Follows g rid (some q) k r found e = elim (Bool-cases (rid == k)) [
    | inl same ↦ (
      f r,
      ground (arith, lookup-insert rid k (f q) g.records, eq_iff rid k, found q refl),
      follows r,
    )
    | inr other ↦ (r, ground (arith, lookup-insert rid k (f q) g.records), Follows-refl r)
  ]

  pub on_record-Continues :
      (g : Registry) (id : String) → IsKeyed g.records → Continues g (on_record g id f)
  on_record-Continues g id keyed = record {
    keyed = write_at-IsKeyed g (strip id) (find g id "") (lookup-of_find g id "") keyed;
    follows = λ k r. write_at-Follows g (strip id) (find g id "") k r (lookup-of_find g id "");
  }

module _ (repr : Value → String) (iso : ℕ → String) (done : ℕ → Bool) where
  pub attach-Continues :
      (now t : ℕ) (id : String) (g : Registry)
      → IsKeyed g.records
      → Continues g (attach_task now id t g)
  unfolding attach_task
  attach-Continues now t id g = on_record-Continues _ (λ r. ground arith) g id

  pub event-Continues :
      (now : ℕ) (id : String) (e : Fields) (g : Registry)
      → IsKeyed g.records
      → Continues g (record_event repr iso now id e g)
  unfolding record_event
  event-Continues now id e g = on_record-Continues _ (λ r. ground arith) g id

  pub detach-Continues :
      (now : ℕ) (id : String) (g : Registry)
      → IsKeyed g.records
      → Continues g (mark_detached now id g)
  unfolding mark_detached
  detach-Continues now id g = on_record-Continues _ (λ r. ground arith) g id

  pub fail-Continues :
      (now : ℕ) (id : String) (e : Fields) (g : Registry)
      → IsKeyed g.records
      → Continues g (Registry.fail now id e g)
  unfolding Registry.fail
  fail-Continues now id e g = on_record-Continues _ (λ r. ground arith) g id

  completion_state-terminal :
      (final : Fields) (s : RunState) → completion_state repr final ≡ some s → is_terminal s ≡ true
  unfolding completion_state
  completion_state-terminal final s e = ground arith

  pub complete-Continues :
      (now : ℕ) (id : String) (final : Fields) (g : Registry)
      → IsKeyed g.records
      → Continues g (Option.get_or (Registry.complete repr now id final g) g)
  unfolding Registry.complete
  complete-Continues now id final g keyed = elim (Option-cases (find g id "")) [
    | inl miss ↦ rw (miss, Registry.complete) (Continues-refl g keyed)
    | inr (r, hit) ↦ elim (Option-cases (completion_state repr final)) [
      | inl raised ↦ rw (hit, raised, Registry.complete) (Continues-refl g keyed)
      | inr (s, done) ↦
          rw (hit, done, Registry.complete)
            (on_record-Continues _
              (λ q. record {
                same_id = refl;
                same_session = refl;
                same_start = refl;
                events_kept = omega arith;
                viewers_kept = omega arith;
                stays_terminal = λ _. completion_state-terminal final s done;
              })
              g id keyed)
    ]
  ]

  pub cancel-Continues :
      (now : ℕ) (id : String) (g : Registry)
      → IsKeyed g.records
      → Continues g (Registry.cancel done now id g).0
  unfolding Registry.cancel
  cancel-Continues now id g keyed = elim (Option-cases (find g id "")) [
    | inl miss ↦ rw (miss, Registry.cancel) (Continues-refl g keyed)
    | inr (r, hit) ↦ elim (Bool-cases (is_terminal r.state)) [
      | inl t ↦ rw (hit, Registry.cancel, t) (Continues-refl g keyed)
      | inr f ↦ rw (hit, Registry.cancel, f) (on_record-Continues _ (λ q. ground arith) g id keyed)
    ]
  ]
