-- ===== src/Approvals/Told.antt =====
-- permissions_api.py: which answer reaches OpenCode.
use mathlib.Core.Path.{subst}
use engineering_flow_platfor.Base.{
  String, ◌≡◌, refl, sym, ◌∙◌, ◌⊎◌, inl, inr, Bool, true, false, ◌||◌, none, some, if◌then◌else◌,
  nat_eq, string_eq, pair_eq, some_inj, contains, is_empty, strip, lookup,
}
use engineering_flow_platfor.Base.Value.{dict, Fields, get}
use engineering_flow_platfor.Base.Interpreter.{Texts}
use engineering_flow_platfor.Pending.{PendingInput}
use engineering_flow_platfor.SessionStore.{SessionStore}
use engineering_flow_platfor.Approvals.{
  Flight, Prepared, asks, answered_id, given_decision, decision_of, prepare,
}
use engineering_flow_platfor.Approvals.Reply.{
  decision_word, approve_words, deny_words, normalized_decision, affirms, wants_standing_approval,
  opencode_response_for,
}
use engineering_flow_platfor.Approvals.Kept.{
  Leads, stays, goes, Told, IsTold, IsCalled, asks_inj, prepare-Leads,
}

decision_cases :
    (approves denies : Bool) (d : String)
    → (if approves then some "approve" else if denies then some "deny" else none) ≡ some d
    → ((approves ≡ true) × (d ≡ "approve")) ⊎ ((denies ≡ true) × (d ≡ "deny"))
decision_cases true denies d h = inl (refl, sym (some_inj h))
decision_cases false true d h = inr (refl, sym (some_inj h))
decision_cases false false d h = cc

dict_inj : {a b : Fields} → some (dict a) ≡ some (dict b) → a ≡ b
dict_inj h = cc

module _ (t : Texts) (fields : Fields) where
  -- The words of the member, and the reply that they stand for.
  abbrev pub Approves : String → Type 0
  Approves response =
      (contains (decision_word t (given_decision t fields)) approve_words ≡ true)
      × (response ≡ (
          if affirms t (get "always" fields) || affirms t (get "remember" fields)
          then "always"
          else "once"))

  abbrev pub Denies : String → Type 0
  Denies response =
      (contains (decision_word t (given_decision t fields)) deny_words ≡ true)
      × (response ≡ "reject")

  reply_of_decision :
      (d response : String)
      → decision_of t fields ≡ some d
      → response ≡ opencode_response_for d (wants_standing_approval t fields)
      → Approves response ⊎ Denies response
  unfolding opencode_response_for wants_standing_approval decision_of normalized_decision
  reply_of_decision d response decided reply = elim (decision_cases _ _ d decided) [
    | inl (said, d_is) ↦ inl (said, reply ∙ rw d_is refl)
    | inr (said, d_is) ↦ inr (said, reply ∙ rw d_is refl)
  ]

  -- A call of OpenCode answers the permission that is pending for the session that the path names, which
  -- is the one whose id the request gives, if it gives one. It goes to the OpenCode session that this
  -- permission names, or, where it names none, to the one of the session. The reply is "reject" for one of
  -- the words of denial; for one of the words of approval it is "always" where `always` or `remember` is
  -- affirmed and "once" otherwise.
  pub asks_as_told :
      (sessions : SessionStore) (s : PendingInput) (path_id : String) (f : Flight)
      → (prepare t sessions path_id (some (dict fields)) s).1 ≡ asks f
      → (f.session_id ≡ strip path_id)
        × (lookup (strip path_id) s.pending ≡ some f.pending)
        × ((is_empty (answered_id t fields) ≡ true)
            ⊎ (answered_id t fields ≡ f.pending.permission_id))
        × IsCalled sessions (strip path_id) f.pending f.opencode_session_id
        × (Approves f.response ⊎ Denies f.response)
  asks_as_told sessions s path_id f =
      at (prepare t sessions path_id (some (dict fields)) s)
        (prepare-Leads t sessions s path_id (some (dict fields)))
    where
      at :
          (p : PendingInput × Prepared)
          → Leads (Told t sessions path_id (some (dict fields))) s p
          → p.1 ≡ asks f
          → (f.session_id ≡ strip path_id)
            × (lookup (strip path_id) s.pending ≡ some f.pending)
            × ((is_empty (answered_id t fields) ≡ true)
                ⊎ (answered_id t fields ≡ f.pending.permission_id))
            × IsCalled sessions (strip path_id) f.pending f.opencode_session_id
            × (Approves f.response ⊎ Denies f.response)
      at p (stays i l) h = cc
      at p (goes g free (body, same, told)) h =
          let now =
            subst (λ (b : Fields). IsTold t sessions path_id b f) (sym (dict_inj same))
              (subst (IsTold t sessions path_id body) (asks_inj h) told) in
          let there : lookup f.session_id s.pending ≡ some f.pending =
            subst (λ (x : Flight). lookup x.session_id s.pending ≡ some x.pending) (asks_inj h)
              free.0 in
          (
            now.for_session,
            subst (λ k. lookup k s.pending ≡ some f.pending) now.for_session there,
            now.for_permission,
            subst (λ k. IsCalled sessions k f.pending f.opencode_session_id) now.for_session
                now.called,
            reply_of_decision f.decision f.response now.decided now.reply,
          )
