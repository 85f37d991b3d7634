-- ===== src/Registry/Machine.antt =====
-- The calls of the registry as one step function, and what every call keeps.
use mathlib.Core.Option
use mathlib.Core.Path.{subst}
use engineering_flow_platfor.Base.{
  ℕ, ◌+◌, ◌≤◌, String, ◌≡◌, refl, Bool, false, none, some, lookup, arith, eq_iff, string_eq, ◌==◌,
  lookup-insert, Bool-cases, Option-cases, inl, inr, ◌⊎◌,
}
use engineering_flow_platfor.Base.Value.{Value, Fields}
use engineering_flow_platfor.Registry
use engineering_flow_platfor.Registry.{
  ChatRunRecord, RunState, running, completed, failed, cancelled, Registry, is_terminal, new_record,
  find, write_at, on_record, enter, fail_stale, fail_stale_all, fail_stale_running_records,
  prune_terminal_records, attach_task, record_event, mark_detached, completion_state,
}
use engineering_flow_platfor.Registry.Found.{IsKeyed}
use engineering_flow_platfor.Registry.Stale.{
  Follows, Follows-refl, stale-IsKeyed, lookup-stale, stale_fresh, enter-IsKeyed,
}
use engineering_flow_platfor.Registry.Prune.{prune-active, prune-IsKeyed, lookup-prune_some}
use engineering_flow_platfor.Registry.Continues.{
  Continues, attach-Continues, event-Continues, detach-Continues, fail-Continues,
  complete-Continues, cancel-Continues,
}

pub data Call : Type 0 where
  start : ℕ → String → String → Call
  attach : ℕ → String → ℕ → Call
  event : ℕ → String → Fields → Call
  detach : ℕ → String → Call
  complete : ℕ → String → Fields → Call
  fail : ℕ → String → Fields → Call
  cancel : ℕ → String → Call

module _ (repr : Value → String) (iso : ℕ → String) (done : ℕ → Bool) where
  -- an exception of `complete` leaves the registry as it was
  unfoldable pub step : Call → Registry → Registry
  step (Call.start now session_id request_id) g = (Registry.start now session_id request_id g).0
  step (attach now request_id task) g = attach_task now request_id task g
  step (event now request_id e) g = record_event repr iso now request_id e g
  step (detach now request_id) g = mark_detached now request_id g
  step (Call.complete now request_id final) g =
      Option.get_or (Registry.complete repr now request_id final g) g
  step (Call.fail now request_id error) g = Registry.fail now request_id error g
  step (Call.cancel now request_id) g = (Registry.cancel done now request_id g).0

  -- A run that `start` writes over: no record is found under the id for that session.
  abbrev pub Restarts : Call → String → Registry → Type 0
  Restarts (Call.start now session_id request_id) k g =
      (request_id ≡ k) × (find g request_id session_id ≡ none)
  Restarts _ k g = ⊥

  -- A run is not stale for a call: only `start` looks at the age of the runs.
  abbrev pub IsFresh : Call → ChatRunRecord → Registry → Type 0
  IsFresh (Call.start now session_id request_id) r g = now ≤ r.updated_at + g.stale_running_seconds
  IsFresh _ r g = Unit

  module _ (now : ℕ) (session_id request_id : String) (g : Registry) where
    start-IsKeyed :
        IsKeyed g.records → IsKeyed (Registry.start now session_id request_id g).0.records
    unfolding Registry.start
    start-IsKeyed keyed = elim (Option-cases (find g request_id session_id)) [
      | inr (r, hit) ↦ rw (hit, Registry.start) keyed
      | inl miss ↦
          rw (miss, Registry.start)
            (prune-IsKeyed _ (
              stale-IsKeyed now (enter now session_id request_id g)
                (enter-IsKeyed now session_id request_id g keyed)))
    ]

    start-Follows :
        (k : String) (r s : ChatRunRecord)
        → IsKeyed g.records
        → lookup k g.records ≡ some r
        → lookup k (Registry.start now session_id request_id g).0.records ≡ some s
        → Follows r s ⊎ Restarts (Call.start now session_id request_id) k g
    unfolding Registry.start enter
    start-Follows k r s keyed e after = elim (Option-cases (find g request_id session_id)) [
      | inr (q, hit) ↦ inl (
          subst (Follows r) (ground (arith, e, rw (hit, Registry.start) at after)) (Follows-refl r))
      | inl miss ↦ elim (Bool-cases (request_id == k)) [
        | inl same ↦ inr ((eq_iff request_id k).0 same, miss)
        | inr other ↦
            let entered = enter now session_id request_id g in
            let swept =
              stale-IsKeyed now entered (enter-IsKeyed now session_id request_id g keyed) in
            let (r', found, follows) =
              lookup-stale now entered k s
                (lookup-prune_some _ k s swept (rw (miss, Registry.start) at after)) in
            inl (
              subst (λ x. Follows x s)
                (ground (
                  arith,
                  e,
                  found,
                  other,
                  lookup-insert request_id k (new_record now session_id request_id) g.records,
                ))
                follows)
      ]
    ]

    start_active :
        (k : String) (r : ChatRunRecord)
        → IsKeyed g.records
        → lookup k g.records ≡ some r
        → is_terminal r.state ≡ false
        → now ≤ r.updated_at + g.stale_running_seconds
        → (s : ChatRunRecord) × (lookup k (Registry.start now session_id request_id g).0.records
            ≡ some s)
    unfolding Registry.start enter
    start_active k r keyed e active fresh = elim (Option-cases (find g request_id session_id)) [
      | inr (q, hit) ↦ (r, rw (hit, Registry.start) e)
      | inl miss ↦
          let entered = enter now session_id request_id g in
          let swept = stale-IsKeyed now entered (enter-IsKeyed now session_id request_id g keyed) in
          let survives =
            λ (s : ChatRunRecord) (p : lookup k entered.records ≡ some s)
                (a : is_terminal s.state ≡ false)
                (f : now ≤ s.updated_at + g.stale_running_seconds).
              prune-active (fail_stale_running_records now entered) k s swept
                (stale_fresh now entered k s p f) a in
          elim (Bool-cases (request_id == k)) [
            | inl same ↦ (
              new_record now session_id request_id,
              rw (miss, Registry.start)
                  (survives (new_record now session_id request_id)
                    (ground (
                      arith,
                      same,
                      lookup-insert request_id k (new_record now session_id request_id) g.records,
                    ))
                    refl (omega arith)),
            )
            | inr other ↦ (
              r,
              rw (miss, Registry.start)
                  (survives r
                    (ground (
                      arith,
                      e,
                      other,
                      lookup-insert request_id k (new_record now session_id request_id) g.records,
                    ))
                    active fresh),
            )
          ]
    ]

  -- Every call keeps the registry keyed: each run stands under its own id, once.
  pub step-IsKeyed : (c : Call) (g : Registry) → IsKeyed g.records → IsKeyed (step c g).records
  unfolding step
  step-IsKeyed (Call.start now sid id) g k = start-IsKeyed now sid id g k
  step-IsKeyed (attach now id t) g k = (attach-Continues repr iso done now t id g k).keyed
  step-IsKeyed (event now id e) g k = (event-Continues repr iso done now id e g k).keyed
  step-IsKeyed (detach now id) g k = (detach-Continues repr iso done now id g k).keyed
  step-IsKeyed (Call.complete now id final) g k =
      (complete-Continues repr iso done now id final g k).keyed
  step-IsKeyed (Call.fail now id e) g k = (fail-Continues repr iso done now id e g k).keyed
  step-IsKeyed (Call.cancel now id) g k = (cancel-Continues repr iso done now id g k).keyed

  Continues-Follows :
      {g h : Registry} (k : String) (r s : ChatRunRecord)
      → Continues g h
      → lookup k g.records ≡ some r
      → lookup k h.records ≡ some s
      → Follows r s
  Continues-Follows k r s c e after =
      let (s', e', f) = c.follows k r e in subst (Follows r) (ground (arith, after, e')) f

  -- In a registry that keeps each run once, under its own id: whatever the call, a run that is
  -- found before and after it is the same run, for the same session and with the same start;
  -- its event and viewer counts did not fall, and a finished run did not become unfinished. The
  -- one exception is a `start` that finds no run under the id for its session, and writes a new
  -- run over it.
  pub step-Follows :
      (c : Call) (g : Registry) (k : String) (r s : ChatRunRecord)
      → IsKeyed g.records
      → lookup k g.records ≡ some r
      → lookup k (step c g).records ≡ some s
      → Follows r s ⊎ Restarts c k g
  unfolding step
  step-Follows (Call.start now sid id) g k r s keyed e after =
      start-Follows now sid id g k r s keyed e after
  step-Follows (attach now id t) g k r s keyed e after =
      inl (Continues-Follows k r s (attach-Continues repr iso done now t id g keyed) e after)
  step-Follows (event now id x) g k r s keyed e after =
      inl (Continues-Follows k r s (event-Continues repr iso done now id x g keyed) e after)
  step-Follows (detach now id) g k r s keyed e after =
      inl (Continues-Follows k r s (detach-Continues repr iso done now id g keyed) e after)
  step-Follows (Call.complete now id x) g k r s keyed e after =
      inl (Continues-Follows k r s (complete-Continues repr iso done now id x g keyed) e after)
  step-Follows (Call.fail now id x) g k r s keyed e after =
      inl (Continues-Follows k r s (fail-Continues repr iso done now id x g keyed) e after)
  step-Follows (Call.cancel now id) g k r s keyed e after =
      inl (Continues-Follows k r s (cancel-Continues repr iso done now id g keyed) e after)

  found_after :
      {g h : Registry} (k : String) (r : ChatRunRecord)
      → Continues g h
      → lookup k g.records ≡ some r
      → (s : ChatRunRecord) × (lookup k h.records ≡ some s)
  found_after k r c e = let (s, e', f) = c.follows k r e in (s, e')

  -- In a registry that keeps each run once, under its own id: no call loses the entry of a run
  -- that is neither finished nor, when a run is started, stale; its id has a run afterwards.
  pub step_keeps_active :
      (c : Call) (g : Registry) (k : String) (r : ChatRunRecord)
      → IsKeyed g.records
      → lookup k g.records ≡ some r
      → is_terminal r.state ≡ false
      → IsFresh c r g
      → (s : ChatRunRecord) × (lookup k (step c g).records ≡ some s)
  unfolding step
  step_keeps_active (Call.start now sid id) g k r keyed e a fresh =
      start_active now sid id g k r keyed e a fresh
  step_keeps_active (attach now id t) g k r keyed e a fresh =
      found_after k r (attach-Continues repr iso done now t id g keyed) e
  step_keeps_active (event now id x) g k r keyed e a fresh =
      found_after k r (event-Continues repr iso done now id x g keyed) e
  step_keeps_active (detach now id) g k r keyed e a fresh =
      found_after k r (detach-Continues repr iso done now id g keyed) e
  step_keeps_active (Call.complete now id x) g k r keyed e a fresh =
      found_after k r (complete-Continues repr iso done now id x g keyed) e
  step_keeps_active (Call.fail now id x) g k r keyed e a fresh =
      found_after k r (fail-Continues repr iso done now id x g keyed) e
  step_keeps_active (Call.cancel now id) g k r keyed e a fresh =
      found_after k r (cancel-Continues repr iso done now id g keyed) e
