-- ===== src/Approvals/Kept.antt =====
-- permissions_api.py: what a refused or failed answer leaves in the store of pending permissions.
use mathlib.Core.Path.{subst}
use engineering_flow_platfor.Base.{
  ℕ, String, ◌≡◌, refl, ap, ◌∙◌, ◌≢◌, ◌⊎◌, inl, inr, true, false, not, ◌&&◌, Option, none, some,
  arith, eq_iff, ◌==◌, nat_eq, string_eq, pair_eq, Bool-cases, Option-cases, is_empty, strip,
  lookup,
}
use engineering_flow_platfor.Base.Value.{Value, dict, Fields}
use engineering_flow_platfor.Base.Interpreter.{Texts}
use engineering_flow_platfor.Pending.{PendingPermission, PendingInput, set_claimed}
use engineering_flow_platfor.Pending.Returned.{IsFree, claim_free, claim_refused, release-claim}
use engineering_flow_platfor.SessionStore.{SessionRecord, SessionStore, get_session}
use engineering_flow_platfor.Approvals.{
  Flight, new_flight, Prepared, refused, asks, claim_and_ask, decide, decision_of, match_pending,
  answered_id, settle, prepare, ClientReply, delivered, client_error, other_error, call_cancelled,
}
use engineering_flow_platfor.Approvals.Reply.{opencode_response_for, wants_standing_approval}

-- What `prepare` can come to: an error with the store as it was, or a call of OpenCode with `P` for
-- an entry that was free and is now claimed.
pub data Leads (P : Flight → Type 0) (s : PendingInput) : PendingInput × Prepared → Type 0 where
  stays : (n : ℕ) (m : String) → Leads P s (s, refused n m)
  goes :
      (f : Flight)
      → IsFree f.session_id f.pending s
      → P f
      → Leads P s (set_claimed true f.session_id f.pending s, asks f)

-- The OpenCode session that is called: the one that the permission names, or that of the session.
abbrev pub IsCalled : SessionStore → String → PendingPermission → String → Type 0
IsCalled sessions k e id =
    ((is_empty e.opencode_session_id ≡ false) × (id ≡ e.opencode_session_id))
    ⊎ ((is_empty e.opencode_session_id ≡ true)
        × ((r : SessionRecord) × (get_session k sessions ≡ some r) × (id ≡ r.opencode_session_id)))

claim_and_ask-Leads :
    (sessions : SessionStore) (k : String) (e : PendingPermission) (decision response : String)
    (s : PendingInput) (P : Flight → Type 0)
    → lookup k s.pending ≡ some e
    → ((id : String) → IsCalled sessions k e id → P (new_flight k e decision response id))
    → Leads P s (claim_and_ask sessions k e decision response s)
unfolding claim_and_ask
claim_and_ask-Leads sessions k e decision response s P found told = elim (Bool-cases e.claimed) [
  | inl held ↦ rw (claim_refused k e s found held) (stays 409 "permission_already_answered")
  | inr free ↦
      rw (claim_free k e s (found, free)) (elim (Bool-cases (is_empty e.opencode_session_id)) [
        | inr named ↦ rw named (
            goes (new_flight k e decision response e.opencode_session_id) (found, free)
              (told e.opencode_session_id (inl (named, refl))))
        | inl unnamed ↦ rw unnamed (elim (Option-cases (get_session k sessions)) [
          | inl absent ↦
              rw (absent, claim_free k e s (found, free), release-claim k e s (found, free))
                (stays 404 "session_not_found")
          | inr (r, known) ↦
              rw (known, claim_free k e s (found, free))
                (goes (new_flight k e decision response r.opencode_session_id) (found, free)
                  (told r.opencode_session_id (inr (unnamed, (r, known, refl)))))
        ])
      ])
]

-- The flight carries what the request says.
pub record IsTold (t : Texts) (sessions : SessionStore) (path_id : String) (body : Fields)
    (f : Flight) : Type 0 where
  pub called : IsCalled sessions f.session_id f.pending f.opencode_session_id
  pub for_session : f.session_id ≡ strip path_id
  pub for_permission :
      (is_empty (answered_id t body) ≡ true) ⊎ (answered_id t body ≡ f.pending.permission_id)
  pub decided : decision_of t body ≡ some f.decision
  pub reply : f.response ≡ opencode_response_for f.decision (wants_standing_approval t body)

abbrev pub Told : Texts → SessionStore → String → Option Value → Flight → Type 0
Told t sessions path_id body f =
    (fields : Fields) × (body ≡ some (dict fields)) × IsTold t sessions path_id fields f

pub asks_inj : {f g : Flight} → asks f ≡ asks g → f ≡ g
asks_inj h = cc

module _ (t : Texts) (sessions : SessionStore) (s : PendingInput) where
  module _ (path_id : String) (fields : Fields) where
    decide-Leads :
        (e : PendingPermission)
        → lookup (strip path_id) s.pending ≡ some e
        → (is_empty (answered_id t fields) ≡ true) ⊎ (answered_id t fields ≡ e.permission_id)
        → Leads
            (Told t sessions path_id (some (dict fields)))
            s
            (decide t sessions (strip path_id) e fields s)
    unfolding decide
    decide-Leads e found same = elim (Option-cases (decision_of t fields)) [
      | inl unknown ↦ rw (unknown, decide) (stays 400 "decision must be approve or deny")
      | inr (d, p) ↦
          rw (p, decide)
            (claim_and_ask-Leads sessions (strip path_id) e d
              (opencode_response_for d (wants_standing_approval t fields)) s
              (Told t sessions path_id (some (dict fields))) found
              (λ id which. (
                fields,
                refl,
                record {
                  called = which;
                  for_session = refl;
                  for_permission = same;
                  decided = p;
                  reply = refl;
                },
              )))
    ]

    match_pending-Leads :
        (o : Option PendingPermission)
        → lookup (strip path_id) s.pending ≡ o
        → Leads
            (Told t sessions path_id (some (dict fields)))
            s
            (match_pending t sessions (strip path_id) o fields s)
    unfolding match_pending
    match_pending-Leads none found = stays 409 "Session is not waiting for permission"
    match_pending-Leads (some e) found =
        elim (Bool-cases (
          not (is_empty (answered_id t fields)) && not (answered_id t fields == e.permission_id))) [
            | inl other ↦ rw other (stays 409 "permission_request_id_mismatch")
            | inr same ↦ rw same (
                decide-Leads e found (elim (Bool-cases (is_empty (answered_id t fields))) [
                  | inl unnamed ↦ inl unnamed
                  | inr named ↦ inr (ground (arith, eq_iff (answered_id t fields) e.permission_id))
                ]))
          ]

  pub prepare-Leads :
      (path_id : String) (body : Option Value)
      → Leads (Told t sessions path_id body) s (prepare t sessions path_id body s)
  unfolding prepare
  prepare-Leads path_id body = elim (Bool-cases (is_empty (strip path_id))) [
    | inl none_given ↦ rw none_given (stays 400 "session_id is required")
    | inr given ↦ rw given (of_body body)
  ]
    where
      of_body :
          (body : Option Value)
          → Leads (Told t sessions path_id body) s (elim body [
            | some (dict fields) ↦
                match_pending t sessions (strip path_id) (lookup (strip path_id) s.pending) fields s
            | _ ↦ (s, refused 400 "invalid_json")
          ])
      of_body (some (dict fields)) =
          match_pending-Leads path_id fields (lookup (strip path_id) s.pending) refl
      of_body _ = stays 400 "invalid_json"

  -- A request that is refused, for whatever reason, leaves the store as it was, also when the
  -- session turns out to be unknown after its permission was claimed.
  pub refused_keeps :
      (path_id : String) (body : Option Value) (n : ℕ) (m : String)
      → (prepare t sessions path_id body s).1 ≡ refused n m
      → (prepare t sessions path_id body s).0 ≡ s
  refused_keeps path_id body n m =
      at (prepare t sessions path_id body s) (prepare-Leads path_id body)
    where
      at :
          (p : PendingInput × Prepared)
          → Leads (Told t sessions path_id body) s p
          → p.1 ≡ refused n m
          → p.0 ≡ s
      at p (stays i l) h = refl
      at p (goes f free told) h = cc

  released :
      (g : Flight)
      → IsFree g.session_id g.pending s
      → (q : ClientReply) → q ≢ delivered
      → q ≢ call_cancelled
      → (settle t g q (set_claimed true g.session_id g.pending s)).0 ≡ s
  unfolding settle
  released g free delivered other caught = absurd (other refl)
  released g free (client_error d) other caught = release-claim g.session_id g.pending s free
  released g free other_error other caught = release-claim g.session_id g.pending s free
  released g free call_cancelled other caught = absurd (caught refl)

  -- If OpenCode does not take the answer, since its client reports an error or raises another exception
  -- than that of a cancelled request, and nothing else changes the store during the call: the store is
  -- again the one that the request found, so that the same request comes to the same call once more.
  pub failed_call_restores :
      (path_id : String) (body : Option Value) (f : Flight) (r : ClientReply)
      → (prepare t sessions path_id body s).1 ≡ asks f
      → r ≢ delivered
      → r ≢ call_cancelled
      → ((settle t f r (prepare t sessions path_id body s).0).0 ≡ s)
        × ((prepare t sessions path_id body
              (settle t f r (prepare t sessions path_id body s).0).0).1
            ≡ asks f)
  failed_call_restores path_id body f r asked failed caught =
      let restored = at (prepare t sessions path_id body s) (prepare-Leads path_id body) asked in
      (restored, ap (λ (x : PendingInput). (prepare t sessions path_id body x).1) restored ∙ asked)
    where
      at :
          (p : PendingInput × Prepared)
          → Leads (Told t sessions path_id body) s p
          → p.1 ≡ asks f
          → (settle t f r p.0).0 ≡ s
      at p (stays i l) h = cc
      at p (goes g free told) h =
          subst (λ x. (settle t x r (set_claimed true g.session_id g.pending s)).0 ≡ s) (asks_inj h)
            (released g free r failed caught)
