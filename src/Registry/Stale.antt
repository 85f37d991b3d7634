-- ===== src/Registry/Stale.antt =====
-- `_fail_stale_running_records` of chat_run_registry.py, and the new record of `start`.
use mathlib.Core.Option
use mathlib.Core.Path.{subst}
use engineering_flow_platfor.Base.{
  ℕ, ◌+◌, ◌≤◌, String, ◌≡◌, refl, sym, ◌∙◌, true, Option, none, some, lookup, arith, string_eq,
  Bool-cases, inl, inr, leb,
}
use engineering_flow_platfor.Registry.{
  ChatRunRecord, Registry, is_terminal, new_record, enter, fail_stale, fail_stale_running_records,
}
use engineering_flow_platfor.Registry.Found.{
  IsKeyed, insert-IsKeyed, lookup-fail_stale_all, fail_stale_all-IsKeyed,
}

-- A record that is still found under its key went on from the earlier one.
pub record Follows (r s : ChatRunRecord) : Type 0 where
  pub same_id : s.request_id ≡ r.request_id
  pub same_session : s.session_id ≡ r.session_id
  pub same_start : s.started_at ≡ r.started_at
  pub events_kept : r.latest_event_seq ≤ s.latest_event_seq
  pub viewers_kept : r.detached_viewers ≤ s.detached_viewers
  pub stays_terminal : is_terminal r.state ≡ true → is_terminal s.state ≡ true

pub Follows-refl : (r : ChatRunRecord) → Follows r r
Follows-refl r = ground arith

pub Follows-stale : (stale now : ℕ) (r : ChatRunRecord) → Follows r (fail_stale stale now r)
unfolding fail_stale
Follows-stale stale now r = ground arith

module _ (now : ℕ) (session_id request_id : String) (g : Registry) where
  pub enter-IsKeyed : IsKeyed g.records → IsKeyed (enter now session_id request_id g).records
  unfolding enter
  enter-IsKeyed = insert-IsKeyed request_id g.records (new_record now session_id request_id) refl

module _ (now : ℕ) (g : Registry) where
  pub stale-IsKeyed : IsKeyed g.records → IsKeyed (fail_stale_running_records now g).records
  unfolding fail_stale_running_records
  stale-IsKeyed keyed = elim (Bool-cases (leb g.stale_running_seconds 0)) [
    | inl off ↦ rw off keyed
    | inr on ↦ rw on (fail_stale_all-IsKeyed g.stale_running_seconds now g.records keyed)
  ]

  -- a record after the sweep is the swept record, or the record itself
  pub lookup-stale :
      (k : String) (s : ChatRunRecord)
      → lookup k (fail_stale_running_records now g).records ≡ some s
      → (r : ChatRunRecord) × (lookup k g.records ≡ some r) × Follows r s
  unfolding fail_stale_running_records
  lookup-stale k s e = elim (Bool-cases (leb g.stale_running_seconds 0)) [
    | inl off ↦ (s, rw off at e, Follows-refl s)
    | inr on ↦
        swept (lookup k g.records) refl
          (sym (lookup-fail_stale_all g.stale_running_seconds now k g.records) ∙ (rw on at e))
  ]
    where
      swept :
          (o : Option ChatRunRecord)
          → lookup k g.records ≡ o
          → Option.map (fail_stale g.stale_running_seconds now) o ≡ some s
          → (r : ChatRunRecord) × (lookup k g.records ≡ some r) × Follows r s
      swept none p q = absurd (ground arith)
      swept (some r) p q = (
        r,
        p,
        subst (Follows r) (ground (arith, q)) (Follows-stale g.stale_running_seconds now r),
      )

  -- the sweep changes no run that is finished or fresh
  pub stale_fresh :
      (k : String) (r : ChatRunRecord)
      → lookup k g.records ≡ some r
      → now ≤ r.updated_at + g.stale_running_seconds
      → lookup k (fail_stale_running_records now g).records ≡ some r
  unfolding fail_stale_running_records fail_stale
  stale_fresh k r e fresh = elim (Bool-cases (leb g.stale_running_seconds 0)) [
    | inl off ↦ rw off e
    | inr on ↦
        rw on (ground (arith, lookup-fail_stale_all g.stale_running_seconds now k g.records, e))
  ]

  pub max_records-stale : (fail_stale_running_records now g).max_records ≡ g.max_records
  unfolding fail_stale_running_records
  max_records-stale = ground arith
