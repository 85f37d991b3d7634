-- ===== src/Registry/Tests.antt =====
-- Runs of the registry at concrete inputs, and its theorems applied to them.
use engineering_flow_platfor.Base.{
  ℕ, ◌≤◌, min, String, ◌≡◌, refl, Bool, true, false, none, some, [], ◌∷◌, length, lookup, insert,
  erase, arith, ◌⊎◌, string_eq, strip, sorted_by,
}
use engineering_flow_platfor.Base.Value.{Value, bool, str, list, nil, cons, Fields, end, field}
use engineering_flow_platfor.Registry
use engineering_flow_platfor.Registry.{
  ChatRunRecord, RunState, running, completed, failed, cancelled, Registry, is_terminal, new_record,
  find, is_false, completion_state, prune_terminal_records, record_event, mark_detached,
  fail_stale_running_records, terminal_records, compact_final_payload,
}
use engineering_flow_platfor.Registry.Found.{IsKeyed}
use engineering_flow_platfor.Registry.Stale.{Follows}
use engineering_flow_platfor.Registry.Machine.{
  Call, step, Restarts, step-Follows, step_keeps_active,
}
use engineering_flow_platfor.Registry.Prune.{prune_oldest_first, prune_bounds}
use engineering_flow_platfor.Registry.Outcome.{is_unfinished, cancel_then_fail}
use engineering_flow_platfor.Registry.Entry.{completion_state_of_text}

abbrev repr : Value → String
repr v = "..."

abbrev iso : ℕ → String
iso t = "now"

abbrev is_done : ℕ → Bool
is_done t = false

abbrev old : ChatRunRecord
old = record (new_record 5 "s1" "r1") { state = completed }

abbrev newer : ChatRunRecord
newer = record (new_record 7 "s1" "r2") { state = failed }

abbrev active : ChatRunRecord
active = record (new_record 8 "s2" "r3") { task = some 4 }

abbrev two : Registry
two = record {
  records = ("r2", newer) ∷ ("r1", old) ∷ ("r3", active) ∷ [];
  max_records = 2;
  stale_running_seconds = 60;
}

two-IsKeyed : IsKeyed two.records
unfolding lookup
two-IsKeyed = (refl, refl, (refl, refl, (refl, refl, tt)))

-- A fourth run pushes the two finished ones out.
start_run :
    (Registry.start 9 "s2" "r4" two).0.records
    ≡ ("r3", active) ∷ ("r4", new_record 9 "s2" "r4") ∷ []
unfolding Registry.start insert lookup erase sorted_by strip Registry.fail_stale_all
start_run = refl

prune_bounds_example :
    ((k : String) (v : ChatRunRecord)
      → lookup k (prune_terminal_records two).records ≡ some v
      → is_terminal v.state ≡ true
      → length (prune_terminal_records two).records ≤ 2)
    × (min 3 2 ≤ length (prune_terminal_records two).records)
prune_bounds_example = prune_bounds two two-IsKeyed

prune_oldest_first_example : 5 ≤ 7
unfolding prune_terminal_records lookup erase sorted_by
prune_oldest_first_example =
    prune_oldest_first two "r1" "r2" old newer two-IsKeyed refl refl refl refl

step-Follows_example : Follows old old ⊎ Restarts repr iso is_done (Call.cancel 9 "r1") "r1" two
unfolding step Registry.cancel lookup strip
step-Follows_example =
    step-Follows repr iso is_done (Call.cancel 9 "r1") two "r1" old old two-IsKeyed refl refl

step_keeps_active_example :
    (s : ChatRunRecord) × (lookup "r3" (step repr iso is_done (Call.start 9 "s2" "r4") two).records
      ≡ some s)
unfolding lookup
step_keeps_active_example =
    step_keeps_active repr iso is_done (Call.start 9 "s2" "r4") two "r3" active two-IsKeyed refl
      refl (omega arith)

cancel_then_fail_example :
    (((Registry.cancel is_done 9 "r3" two).1 ≡ false)
      × ((Registry.cancel is_done 9 "r3" two).0 ≡ two)
      × (is_unfinished (find two "r3" "") ≡ false))
    ⊎ (((Registry.cancel is_done 9 "r3" two).1 ≡ true)
        × (is_unfinished (find two "r3" "") ≡ true)
        × ((s : ChatRunRecord) × (find (Registry.cancel is_done 9 "r3" two).0 "r3" "" ≡ some s)
            × (s.state ≡ cancelled)
            × (s.task ≡ none)
            × (Registry.fail 10 "r3" end (Registry.cancel is_done 9 "r3" two).0
                ≡ (Registry.cancel is_done 9 "r3" two).0)))
cancel_then_fail_example = cancel_then_fail repr iso is_done two "r3" 9 10 end

abbrev roomy : Registry
roomy = record two { max_records = 3 }

abbrev success : Fields
success = field "ok" (bool true) (field "completion_state" (str "success") end)

completion_state_of_text_example : completion_state repr success ≡ some completed
completion_state_of_text_example = completion_state_of_text repr success "success" refl

abbrev payload : Fields
payload = field "events" (list (cons (str "a") nil)) end
