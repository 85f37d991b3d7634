-- ===== src/Bindings/Tests.antt =====
-- Runs of request_bindings.py on concrete input.
use engineering_flow_platfor.Base.{
  ◌<◌, ◌≡◌, refl, ◌≢◌, false, some, [], nat_eq, string_eq, pair_eq, lookup, insert, filter_values,
  map_values,
}
use engineering_flow_platfor.Bindings
use engineering_flow_platfor.Bindings.{
  RequestBinding, Bindings, Request, new_binding, finish, exact, prune_expired,
}
use engineering_flow_platfor.Bindings.Laws.{
  IsValid, Call, call, call-IsValid, resolve_after_complete,
}

abbrev first : Request
first = record {
  opencode_session_id = "ses_1";
  portal_session_id = "p1";
  request_id = "r1";
  kind = "chat";
  task_id = "";
  ttl_seconds = 60;
}

abbrev second_request : Request
second_request = record first { request_id = "r2"; task_id = "t2" }

abbrev empty : Bindings
empty = record { active = []; by_message = []; by_task = [] }

empty-IsValid : IsValid empty
empty-IsValid = record { active = tt; by_message = tt; by_task = tt }

abbrev bound : Bindings
bound = call (Call.bind_active 7 second_request) (call (Call.bind_message 5 "m1" first) empty)

bound-IsValid : IsValid bound
bound-IsValid =
    call-IsValid (Call.bind_active 7 second_request) _
      (call-IsValid (Call.bind_message 5 "m1" first) empty empty-IsValid)

found :
    (Bindings.resolve 10 "ses_1" "m1" "" (Bindings.complete "r1" bound)).1
    ≡ some (new_binding 7 second_request "")
unfolding call Bindings.bind_active Bindings.bind_message Bindings.resolve Bindings.complete finish
    exact prune_expired lookup insert filter_values map_values new_binding
found = refl

resolve_after_complete_example :
    ((new_binding 7 second_request "").request_id ≢ "r1")
    × ((new_binding 7 second_request "").completed ≡ false)
    × (10 < (new_binding 7 second_request "").expires_at)
resolve_after_complete_example =
    resolve_after_complete "r1" 10 "ses_1" "m1" "" bound (new_binding 7 second_request "")
      bound-IsValid found
