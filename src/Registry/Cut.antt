-- ===== src/Registry/Cut.antt =====
-- The records that `_prune_terminal_records` of chat_run_registry.py drops from a dictionary of runs.
use mathlib.Core.Path.{subst}
use engineering_flow_platfor.Base.{
  ℕ, ◌+◌, ◌≤◌, String, ◌≡◌, ◌≢◌, refl, sym, ◌∙◌, true, false, Option, none, some, List, [], length,
  leb, values, lookup, All, All-In, All-of_In, In, In-of_take, In-take_or_drop, In-select,
  In-of_select, All-select, In-sorted_by, In-of_sorted_by, All-sorted_by, sorted_by-IsSortedBy,
  Pairwise, Pairwise-take, Pairwise-select, Pairwise-sorted_by, Pairwise-take_drop, take, drop,
  select, length-take, arith, string_eq, Bool-cases, inl, inr, drop_of_length-le, leb→le,
}
use engineering_flow_platfor.Registry.{ChatRunRecord, is_terminal, terminal_records, pop_all}
use engineering_flow_platfor.Registry.Found.{
  Runs, IsKeyed, OtherId, own_id, In-of_lookup, lookup-of_In, values-distinct, lookup-pop_all_ne,
  lookup-pop_all-some, lookup-pop_all-In, length-pop_all,
}

module _ (d : Runs) (keyed : IsKeyed d) where
  present : (r : ChatRunRecord) → In r (values d) → lookup r.request_id d ≡ some r
  present r i = lookup-of_In r.request_id d r keyed refl i

  In-of_terminal : (r : ChatRunRecord) → In r (terminal_records d) → In r (values d)
  unfolding terminal_records
  In-of_terminal r i =
      In-of_select (λ s. is_terminal s.state) r (values d)
        (In-of_sorted_by (λ s. s.updated_at) r _ i)

  In-terminal :
      (k : String) (r : ChatRunRecord)
      → lookup k d ≡ some r
      → is_terminal r.state ≡ true
      → In r (terminal_records d)
  unfolding terminal_records
  In-terminal k r e t =
      In-sorted_by (λ s. s.updated_at) r _
        (In-select (λ s. is_terminal s.state) r (values d) t (In-of_lookup k d r e))

  terminal-terminal : All (λ r. is_terminal r.state ≡ true) (terminal_records d)
  unfolding terminal_records
  terminal-terminal =
      All-sorted_by (λ s. s.updated_at) (λ r. is_terminal r.state ≡ true) _
        (All-select (λ s. is_terminal s.state) (values d))

  terminal-distinct : Pairwise OtherId (terminal_records d)
  unfolding terminal_records
  terminal-distinct =
      Pairwise-sorted_by (λ s. s.updated_at) OtherId (λ a b h e. h (sym e)) _
        (Pairwise-select OtherId (λ s. is_terminal s.state) (values d) (values-distinct d keyed))

  module _ (n : ℕ) where
    abbrev pub dropped : List ChatRunRecord
    dropped = take n (terminal_records d)

    abbrev pub kept : Runs
    kept = pop_all dropped d

    pub length-kept : length kept + length dropped ≡ length d
    length-kept = length-pop_all dropped d keyed (Pairwise-take OtherId n _ terminal-distinct) (
        All-of_In (λ r. lookup r.request_id d ≡ some r) dropped
          (λ r i. present r (In-of_terminal r (In-of_take r n _ i))))

    -- A record that is not finished is not dropped.
    pub keeps_active :
        (k : String) (r : ChatRunRecord)
        → lookup k d ≡ some r
        → is_terminal r.state ≡ false
        → lookup k kept ≡ some r
    keeps_active k r e active =
        lookup-pop_all_ne k dropped d keyed
          (All-of_In (λ s. s.request_id ≢ k) dropped (λ s i p. clash s i p))
        ∙ e
      where
        clash : (s : ChatRunRecord) → In s dropped → s.request_id ≢ k
        clash s i p =
            let e' : lookup k d ≡ some s =
              lookup-of_In k d s keyed p (In-of_terminal s (In-of_take s n _ i)) in
            let t : is_terminal s.state ≡ true =
              All-In (λ r. is_terminal r.state ≡ true) _ terminal-terminal s (In-of_take s n _ i) in
            ground (arith, e, e', t, active)

    -- A finished record that is left stands behind the cut.
    pub behind_cut :
        (k : String) (r : ChatRunRecord)
        → lookup k kept ≡ some r
        → is_terminal r.state ≡ true
        → In r (drop n (terminal_records d))
    behind_cut k r e t =
        let e' = lookup-pop_all-some k dropped d r keyed e in
        elim (In-take_or_drop r n (terminal_records d) (In-terminal k r e' t)) [
          | inr i ↦ i
          | inl i ↦
              absurd (clash e (lookup-pop_all-In k dropped d r keyed (own_id k d r keyed e') i))
        ]
      where
        clash : {o : Option ChatRunRecord} → o ≡ some r → o ≡ none → ⊥
        clash p q = cc

    -- A dropped record is finished, and stood among the first `n`.
    pub before_cut :
        (k : String) (r : ChatRunRecord) → lookup k d ≡ some r → lookup k kept ≡ none → In r dropped
    before_cut k r e gone = elim (Bool-cases (is_terminal r.state)) [
      | inr active ↦ absurd (clash (keeps_active k r e active) gone)
      | inl t ↦ elim (In-take_or_drop r n (terminal_records d) (In-terminal k r e t)) [
        | inl i ↦ i
        | inr i ↦ absurd (clash (left_over i) gone)
      ]
    ]
      where
        clash : {o : Option ChatRunRecord} → o ≡ some r → o ≡ none → ⊥
        clash p q = cc

        left_over : In r (drop n (terminal_records d)) → lookup k kept ≡ some r
        left_over i =
            lookup-pop_all_ne k dropped d keyed (
              All-of_In (λ s. s.request_id ≢ k) dropped
                (λ s j p.
                  Pairwise-take_drop OtherId n (terminal_records d) terminal-distinct s r j i
                    (p ∙ sym (own_id k d r keyed e))))
            ∙ e

    -- A dropped record was not touched later than a finished record that is left.
    pub oldest_first :
        (j k : String) (u v : ChatRunRecord)
        → lookup j d ≡ some u
        → lookup j kept ≡ none
        → lookup k kept ≡ some v
        → is_terminal v.state ≡ true
        → u.updated_at ≤ v.updated_at
    unfolding terminal_records
    oldest_first j k u v eu gone ev t =
        Pairwise-take_drop (λ a b. a.updated_at ≤ b.updated_at) n (terminal_records d)
          (sorted_by-IsSortedBy (λ s. s.updated_at) (select (λ s. is_terminal s.state) (values d)))
          u v (before_cut j u eu gone) (behind_cut k v ev t)

    -- While a finished record is left, exactly `n` records are dropped.
    pub full_cut :
        (k : String) (v : ChatRunRecord)
        → lookup k kept ≡ some v
        → is_terminal v.state ≡ true
        → length kept + n ≡ length d
    full_cut k v e t = elim (Bool-cases (leb n (length (terminal_records d)))) [
      | inl le ↦ omega (arith, length-kept, length-take n (terminal_records d), leb→le n _ le)
      | inr lt ↦ absurd (
          not_in (
            subst (In v) (drop_of_length-le n (terminal_records d) (ground arith))
              (behind_cut k v e t)))
    ]
      where
        not_in : In v [] → ⊥
        not_in i = elim i [ ]
