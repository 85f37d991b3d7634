-- ===== src/Approvals/Flights.antt =====
-- permissions_api.py: requests that overlap, of the handler that answers by session. While a request
-- waits for OpenCode, others arrive and return, and events are observed. The handler that answers by the
-- id of a permission makes no claim and reads none, and is left out here.
use mathlib.Core.Path.{subst}
use text.Mathlib.TextPositions.{eq_refl}
use engineering_flow_platfor.Base.{
  ℕ, String, ◌≡◌, refl, sym, ◌∙◌, ◌≢◌, true, Option, some, List, [], ◌∷◌, ◌++◌, arith, eq_iff,
  nat_eq, string_eq, pair_eq, All, All-map, All-In, All-of_In, Pairwise, lookup,
}
use engineering_flow_platfor.Base.Value.{Value}
use engineering_flow_platfor.Base.Interpreter.{Texts}
use engineering_flow_platfor.Pending.{
  PendingPermission, PendingInput, new_store, set_claimed, observe_event,
}
use engineering_flow_platfor.Pending.Valid.{
  IsValid, Call, observe, step, step-IsValid, set_claimed-IsValid, new_store-IsValid,
}
use engineering_flow_platfor.Pending.Claims.{step_keeps_claim}
use engineering_flow_platfor.Pending.Returned.{
  IsFree, lookup-set_claimed, release_elsewhere, clear_elsewhere,
}
use engineering_flow_platfor.SessionStore.{SessionStore}
use engineering_flow_platfor.Approvals.{
  Flight, Prepared, refused, asks, settle, prepare, ClientReply, delivered, client_error,
  other_error, call_cancelled,
}
use engineering_flow_platfor.Approvals.Kept.{Leads, stays, goes, prepare-Leads}

pub record Desk : Type 0 where
  pub store : PendingInput
  pub flights : List Flight

abbrev pub entered : PendingInput × Prepared → List Flight → Desk
entered (s, refused n m) flights = record { store = s; flights = flights }
entered (s, asks f) flights = record { store = s; flights = f ∷ flights }

-- The permission that the flight answers is pending, and is claimed.
abbrev pub IsPending : PendingInput → Flight → Type 0
IsPending s f =
    (e : PendingPermission) × (lookup f.session_id s.pending ≡ some e)
    × (e.permission_id ≡ f.pending.permission_id)

abbrev pub IsHeld : PendingInput → Flight → Type 0
IsHeld s f =
    (e : PendingPermission) × (lookup f.session_id s.pending ≡ some e)
    × (e.permission_id ≡ f.pending.permission_id)
    × (e.claimed ≡ true)

module _ (t : Texts) where
  -- A request arrives, with the sessions it sees; OpenCode replies to one of the calls; an event is
  -- observed that leaves the permissions that are being answered pending.
  pub data Step (d : Desk) : Desk → Type 0 where
    arrives :
        (sessions : SessionStore) (path_id : String) (body : Option Value)
        → Step d (entered (prepare t sessions path_id body d.store) d.flights)
    returns :
        (front back : List Flight) (f : Flight) (r : ClientReply)
        → d.flights ≡ front ++ f ∷ back
        → Step d (record { store = (settle t f r d.store).0; flights = front ++ back })
    observes :
        (event : Value)
        → All (IsPending (observe_event t.repr event d.store)) d.flights
        → Step d (record d { store = observe_event t.repr event d.store })

  pub data Reachable : Desk → Type 0 where
    opened : (n : ℕ) → Reachable (record { store = new_store n; flights = [] })
    then_step : {d d' : Desk} → Reachable d → Step d d' → Reachable d'

abbrev pub Apart : Flight → Flight → Type 0
Apart f g = f.session_id ≢ g.session_id

record IsFair (d : Desk) : Type 0 where
  pub valid : IsValid d.store
  pub held : All (IsHeld d.store) d.flights
  pub sessions_once : Pairwise Apart d.flights

IsHeld-Apart :
    (s : PendingInput) (f g : Flight) → IsFree f.session_id f.pending s → IsHeld s g → Apart f g
IsHeld-Apart s f g free h = λ same. absurd (ground (arith, same, free.0, free.1, h.1, h.3))

IsHeld-elsewhere :
    (s s' : PendingInput) (g : Flight)
    → lookup g.session_id s'.pending ≡ lookup g.session_id s.pending
    → IsHeld s g
    → IsHeld s' g
IsHeld-elsewhere s s' g same (e, found, id, held) = (e, same ∙ found, id, held)

arrived-IsFair :
    (P : Flight → Type 0) (d : Desk) (p : PendingInput × Prepared)
    → IsFair d
    → Leads P d.store p
    → IsFair (entered p d.flights)
arrived-IsFair P d p v (stays n m) = v
arrived-IsFair P d p v (goes f free told) = record {
  valid = set_claimed-IsValid true d.store f.session_id f.pending v.valid free.0;
  held = (
    (
      record f.pending { claimed = true },
      lookup-set_claimed true f.session_id f.session_id f.pending d.store ∙ rw eq_refl refl,
      refl,
      refl,
    ),
    All-map _ _
        (λ g h.
          IsHeld-elsewhere d.store (set_claimed true f.session_id f.pending d.store) g
            (lookup-set_claimed true f.session_id g.session_id f.pending d.store
              ∙ ground (arith, eq_iff f.session_id g.session_id, IsHeld-Apart d.store f g free h))
            h)
        d.flights v.held,
  );
  sessions_once =
      (All-map _ _ (λ g h. IsHeld-Apart d.store f g free h) d.flights v.held, v.sessions_once);
}

settle_elsewhere :
    (t : Texts) (f g : Flight) (r : ClientReply) (s : PendingInput)
    → IsValid s
    → Apart f g
    → lookup g.session_id (settle t f r s).0.pending ≡ lookup g.session_id s.pending
unfolding settle
settle_elsewhere t f g delivered s v other =
    clear_elsewhere f.session_id g.session_id f.pending.permission_id s v.keys_once other
settle_elsewhere t f g (client_error m) s v other =
    release_elsewhere f.session_id g.session_id f.pending.permission_id s other
settle_elsewhere t f g other_error s v other =
    release_elsewhere f.session_id g.session_id f.pending.permission_id s other
settle_elsewhere t f g call_cancelled s v other = refl

settle-IsValid :
    (t : Texts) (f : Flight) (r : ClientReply) (s : PendingInput)
    → IsValid s
    → IsValid (settle t f r s).0
unfolding settle step
settle-IsValid t f delivered s v =
    step-IsValid t.repr (Call.clear f.session_id f.pending.permission_id) s v
settle-IsValid t f (client_error m) s v =
    step-IsValid t.repr (Call.release f.session_id f.pending.permission_id) s v
settle-IsValid t f other_error s v =
    step-IsValid t.repr (Call.release f.session_id f.pending.permission_id) s v
settle-IsValid t f call_cancelled s v = v

module _ (f : Flight) where
  All-remove :
      (P : Flight → Type 0) (front back : List Flight)
      → All P (front ++ f ∷ back)
      → All P (front ++ back) × P f
  All-remove P [] back h = (h.1, h.0)
  All-remove P (x ∷ front) back h =
      let rest = All-remove P front back h.1 in ((h.0, rest.0), rest.1)

  -- Taking one element out keeps the others related.
  Apart-remove :
      (front back : List Flight)
      → Pairwise Apart (front ++ f ∷ back)
      → Pairwise Apart (front ++ back) × All (Apart f) (front ++ back)
  Apart-remove [] back h = (h.1, h.0)
  Apart-remove (g ∷ front) back h =
      let rest = Apart-remove front back h.1 in
      let others = All-remove (Apart g) front back h.0 in
      ((others.0, rest.0), (λ same. others.1 (sym same), rest.1))

module _ (t : Texts) where
  returned-IsFair :
      (d : Desk) (front back : List Flight) (f : Flight) (r : ClientReply)
      → IsFair d
      → d.flights ≡ front ++ f ∷ back
      → IsFair (record { store = (settle t f r d.store).0; flights = front ++ back })
  returned-IsFair d front back f r v split =
      let others = Apart-remove f front back (subst (Pairwise Apart) split v.sessions_once) in
      let held =
        All-remove f (IsHeld d.store) front back (subst (All (IsHeld d.store)) split v.held) in
      record {
        valid = settle-IsValid t f r d.store v.valid;
        held = All-of_In _ (front ++ back) (λ g i.
            IsHeld-elsewhere d.store (settle t f r d.store).0 g
              (settle_elsewhere t f g r d.store v.valid (All-In _ (front ++ back) others.1 g i))
              (All-In _ (front ++ back) held.0 g i));
        sessions_once = others.0;
      }

  observed-IsFair :
      (d : Desk) (event : Value)
      → IsFair d
      → All (IsPending (observe_event t.repr event d.store)) d.flights
      → IsFair (record d { store = observe_event t.repr event d.store })
  unfolding step
  observed-IsFair d event v waits = record {
    valid = step-IsValid t.repr (observe event) d.store v.valid;
    held =
        All-of_In _ d.flights
          (λ g i. still g (All-In _ d.flights v.held g i) (All-In _ d.flights waits g i));
    sessions_once = v.sessions_once;
  }
    where
      still :
          (g : Flight)
          → IsHeld d.store g
          → IsPending (observe_event t.repr event d.store) g
          → IsHeld (observe_event t.repr event d.store) g
      still g (e, found, id, held) (e', found', id') = (
        e',
        found',
        id',
        step_keeps_claim d.store v.valid g.session_id e found held t.repr (observe event) (λ h. cc)
            e' found' (id' ∙ sym id),
      )

  step-IsFair : {d d' : Desk} → Step t d d' → IsFair d → IsFair d'
  step-IsFair (arrives sessions path_id body) v =
      arrived-IsFair _ _ _ v (prepare-Leads t sessions _ path_id body)
  step-IsFair (returns front back f r split) v = returned-IsFair _ front back f r v split
  step-IsFair (observes event waits) v = observed-IsFair _ event v waits

  -- Starting from an empty store, whatever requests for the answer by session arrive, in whatever order
  -- their calls of OpenCode return, fail or are cancelled, and whatever is observed that leaves the
  -- permissions that are being answered pending: no two of these calls are under way for one session,
  -- and each permission that is being answered is claimed. Answers by the id of a permission are not
  -- among these requests.
  pub one_call_at_a_time :
      {d : Desk} → Reachable t d → Pairwise Apart d.flights × All (IsHeld d.store) d.flights
  one_call_at_a_time r = let v = fair r in (v.sessions_once, v.held)
    where
      fair : {d : Desk} → Reachable t d → IsFair d
      fair (opened n) = record { valid = new_store-IsValid n; held = tt; sessions_once = tt }
      fair (then_step before s) = step-IsFair s (fair before)
