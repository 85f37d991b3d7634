-- ===== src/Approvals/Reply.antt =====
-- permissions_api.py: the decision that a member's words give, and the reply that OpenCode receives.
use engineering_flow_platfor.Base.{
  String, Bool, false, ◌||◌, Option, none, some, List, [], ◌∷◌, if◌then◌else◌, ◌==◌, nat_eq,
  string_eq, pair_eq, contains, strip,
}
use engineering_flow_platfor.Base.Value.{
  ℤ, pos, negsuc, Value, bool, int, str, Fields, or_else, get, to_text,
}
use engineering_flow_platfor.Base.Interpreter.{Texts}

abbrev pub approve_words : List String
approve_words = "approve" ∷ "approved" ∷ "allow" ∷ "allowed" ∷ "accept" ∷ "accepted" ∷ []

abbrev pub deny_words : List String
deny_words = "deny" ∷ "denied" ∷ "reject" ∷ "rejected" ∷ []

abbrev pub true_words : List String
true_words = "true" ∷ "yes" ∷ "on" ∷ "1" ∷ []

abbrev is_one : ℤ → Bool
is_one (pos n) = n == 1
is_one (negsuc n) = false

module _ (t : Texts) where
  abbrev pub decision_word : Value → String
  decision_word value = t.lower (strip (to_text t.repr (or_else value (str ""))))

  -- none for ValueError
  unfoldable pub normalized_decision : Value → Option String
  normalized_decision value =
      if contains (decision_word value) approve_words
      then some "approve"
      else if contains (decision_word value) deny_words
      then some "deny"
      else none

  unfoldable pub affirms : Value → Bool
  affirms (bool b) = b
  affirms (str s) = contains (t.lower (strip s)) true_words
  affirms (int n) = is_one n
  affirms _ = false

  unfoldable pub wants_standing_approval : Fields → Bool
  wants_standing_approval body = affirms (get "always" body) || affirms (get "remember" body)

unfoldable pub opencode_response_for : String → Bool → String
opencode_response_for decision always =
    if decision == "deny" then "reject" else if always then "always" else "once"
