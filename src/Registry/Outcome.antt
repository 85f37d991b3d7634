-- ===== src/Registry/Outcome.antt =====
-- The outcomes of a run: what `complete`, `fail` and `cancel` write, and which of them is last.
use engineering_flow_platfor.Base.{
  ℕ, String, ◌≡◌, refl, ◌∙◌, ap, Bool, true, false, not, Option, none, some, ◌⊎◌, insert, arith,
  eq_iff, string_eq, lookup-insert, Bool-cases, Option-cases, inl, inr, strip, insert_self,
}
use engineering_flow_platfor.Base.Value.{Value, Fields}
use engineering_flow_platfor.Registry
use engineering_flow_platfor.Registry.{
  ChatRunRecord, RunState, running, completed, failed, cancelled, Registry, is_terminal, new_record,
  find, write_at, on_record, record_event, mark_detached, completion_state, is_false,
  in_done_states,
}
use engineering_flow_platfor.Registry.Continues.{lookup-of_find}

-- `find` after a write to the record under the same id
find-write :
    (g : Registry) (id : String) (r s : ChatRunRecord)
    → find g id "" ≡ some r
    → find (record g { records = insert (strip id) s g.records }) id "" ≡ some s
unfolding find
find-write g id r s e =
    ground (arith, lookup-insert (strip id) (strip id) s g.records, eq_iff (strip id) (strip id))

-- a write of what stands there changes nothing
write_same :
    (g : Registry) (id : String) (r : ChatRunRecord) (f : ChatRunRecord → ChatRunRecord)
    → find g id "" ≡ some r
    → f r ≡ r
    → on_record g id f ≡ g
write_same g id r f e same =
    ap (write_at g (strip id) f) e
    ∙ ap (λ s. record g { records = insert (strip id) s g.records }) same
    ∙ ap (λ d. record g { records = d })
        (insert_self (strip id) r g.records (lookup-of_find g id "" r e))

find-on_record :
    (g : Registry) (id : String) (r : ChatRunRecord) (f : ChatRunRecord → ChatRunRecord)
    → find g id "" ≡ some r
    → find (on_record g id f) id "" ≡ some (f r)
find-on_record g id r f e =
    ap (λ o. find (write_at g (strip id) f o) id "") e ∙ find-write g id r (f r) e

fail_cancelled :
    (g : Registry) (id : String) (r : ChatRunRecord) (later : ℕ) (error : Fields)
    → find g id "" ≡ some r
    → r.state ≡ cancelled
    → Registry.fail later id error g ≡ g
unfolding Registry.fail
fail_cancelled g id r later error e c = write_same g id r _ e (ground arith)

abbrev pub is_unfinished : Option ChatRunRecord → Bool
is_unfinished none = false
is_unfinished (some r) = not (is_terminal r.state)

module _ (repr : Value → String) (iso : ℕ → String) (done : ℕ → Bool) where
  -- A run that has finished is left alone by events, by viewers that go and by `cancel`, which
  -- answers no and cancels no task.
  pub finished_is_left_alone :
      (g : Registry) (id : String) (r : ChatRunRecord) (now : ℕ) (event : Fields)
      → find g id "" ≡ some r
      → is_terminal r.state ≡ true
      → (record_event repr iso now id event g ≡ g)
        × (mark_detached now id g ≡ g)
        × (Registry.cancel done now id g ≡ (g, false, none))
  unfolding record_event mark_detached Registry.cancel
  finished_is_left_alone g id r now event e t = (
    write_same g id r _ e (ground arith),
    write_same g id r _ e (ground arith),
    rw (e, Registry.cancel, t) refl,
  )

  -- `cancel` answers yes exactly when it finds a run that has not finished; it changes nothing
  -- otherwise. With a yes the run is cancelled, keeps no task, and a later `fail` (of the task that was
  -- cancelled) changes nothing.
  pub cancel_then_fail :
      (g : Registry) (id : String) (now later : ℕ) (error : Fields)
      → (((Registry.cancel done now id g).1 ≡ false)
          × ((Registry.cancel done now id g).0 ≡ g)
          × (is_unfinished (find g id "") ≡ false))
        ⊎ (((Registry.cancel done now id g).1 ≡ true)
            × (is_unfinished (find g id "") ≡ true)
            × ((s : ChatRunRecord) × (find (Registry.cancel done now id g).0 id "" ≡ some s)
                × (s.state ≡ cancelled)
                × (s.task ≡ none)
                × (Registry.fail later id error (Registry.cancel done now id g).0
                    ≡ (Registry.cancel done now id g).0)))
  unfolding Registry.cancel
  cancel_then_fail g id now later error = elim (Option-cases (find g id "")) [
    | inl miss ↦ rw (miss, Registry.cancel) (inl (refl, refl, refl))
    | inr (r, hit) ↦ elim (Bool-cases (is_terminal r.state)) [
      | inl t ↦ rw (hit, Registry.cancel, t) (inl (refl, refl, refl))
      | inr f ↦
          rw (hit, Registry.cancel, f)
            (let stop = λ (q : ChatRunRecord). record q {
              state = cancelled;
              updated_at = now;
              task = none;
            } in
              let after = find-on_record g id r stop hit in
              inr (
                refl,
                refl,
                (
                  stop r,
                  after,
                  refl,
                  refl,
                  fail_cancelled (on_record g id stop) id (stop r) later error after refl,
                ),
              ))
    ]
  ]
