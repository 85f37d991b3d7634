-- ===== src/Registry/Prune.antt =====
-- `_prune_terminal_records` and `start` of chat_run_registry.py: what is removed, and how much.
use engineering_flow_platfor.Base.{
  ◌-◌, ◌≤◌, String, ◌≡◌, true, false, none, some, length, leb, lookup, take, length-take, arith,
  string_eq, Bool-cases, inl, inr, leb→le, not_leb→lt, min,
}
use engineering_flow_platfor.Registry.{
  ChatRunRecord, Registry, is_terminal, terminal_records, prune_terminal_records,
}
use engineering_flow_platfor.Registry.Found.{IsKeyed, pop_all-IsKeyed, lookup-pop_all-some}
use engineering_flow_platfor.Registry.Cut.{length-kept, keeps_active, oldest_first, full_cut}

-- The sweep never removes a run that has not finished.
pub prune-active :
    (g : Registry) (k : String) (r : ChatRunRecord)
    → IsKeyed g.records
    → lookup k g.records ≡ some r
    → is_terminal r.state ≡ false
    → lookup k (prune_terminal_records g).records ≡ some r
unfolding prune_terminal_records
prune-active g k r keyed e active = elim (Bool-cases (leb (length g.records) g.max_records)) [
  | inl fits ↦ rw fits e
  | inr over ↦
      rw over (keeps_active g.records keyed (length g.records - g.max_records) k r e active)
]

-- In a registry that keeps each run once, under its own id: the sweep removes the finished runs
-- that were updated longest ago, so that a removed run was not updated later than any finished
-- run that is left.
pub prune_oldest_first :
    (g : Registry) (j k : String) (u v : ChatRunRecord)
    → IsKeyed g.records
    → lookup j g.records ≡ some u
    → lookup j (prune_terminal_records g).records ≡ none
    → lookup k (prune_terminal_records g).records ≡ some v
    → is_terminal v.state ≡ true
    → u.updated_at ≤ v.updated_at
unfolding prune_terminal_records
prune_oldest_first g j k u v keyed eu gone ev t =
    elim (Bool-cases (leb (length g.records) g.max_records)) [
      | inl fits ↦ absurd (ground (arith, fits, eu, gone))
      | inr over ↦
          oldest_first g.records keyed (length g.records - g.max_records) j k u v eu
            (rw over at gone) (rw over at ev) t
    ]

-- In a registry that keeps each run once, under its own id: after the sweep the registry is
-- within its limit, or no finished run is left in it; and it never goes below the limit.
pub prune_bounds :
    (g : Registry)
    → IsKeyed g.records
    → ((k : String) (v : ChatRunRecord)
        → lookup k (prune_terminal_records g).records ≡ some v
        → is_terminal v.state ≡ true
        → length (prune_terminal_records g).records ≤ g.max_records)
      × (min (length g.records) g.max_records ≤ length (prune_terminal_records g).records)
unfolding prune_terminal_records
prune_bounds g keyed = elim (Bool-cases (leb (length g.records) g.max_records)) [
  | inl fits ↦ rw fits ((λ k v e t. leb→le _ _ fits), omega (arith, leb→le _ _ fits))
  | inr over ↦
      let n = length g.records - g.max_records in
      rw over (
        (λ k v e t. omega (arith, full_cut g.records keyed n k v e t, not_leb→lt _ _ over)),
        omega (
          arith,
          length-kept g.records keyed n,
          length-take n (terminal_records g.records),
          not_leb→lt _ _ over,
        ),
      )
]

pub prune-IsKeyed : (g : Registry) → IsKeyed g.records → IsKeyed (prune_terminal_records g).records
unfolding prune_terminal_records
prune-IsKeyed g keyed = elim (Bool-cases (leb (length g.records) g.max_records)) [
  | inl fits ↦ rw fits keyed
  | inr over ↦ rw over (
      pop_all-IsKeyed (take (length g.records - g.max_records) (terminal_records g.records))
        g.records keyed)
]

pub lookup-prune_some :
    (g : Registry) (k : String) (v : ChatRunRecord)
    → IsKeyed g.records
    → lookup k (prune_terminal_records g).records ≡ some v
    → lookup k g.records ≡ some v
unfolding prune_terminal_records
lookup-prune_some g k v keyed e = elim (Bool-cases (leb (length g.records) g.max_records)) [
  | inl fits ↦ rw fits at e
  | inr over ↦
      lookup-pop_all-some k (take (length g.records - g.max_records) (terminal_records g.records))
        g.records v keyed (rw over at e)
]
