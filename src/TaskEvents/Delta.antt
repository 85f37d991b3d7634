-- ===== src/TaskEvents/Delta.antt =====
-- tasks_api.py: what an event says of the permissions that a task waits for.
use engineering_flow_platfor.Base.{
  String, ◌≡◌, refl, sym, ap, ◌∙◌, inl, inr, Bool, true, false, not, List, [], ◌∷◌, arith, eq_iff,
  if◌then◌else◌, ◌==◌, nat_eq, string_eq, pair_eq, Bool-cases, All, contains, is_empty, strip,
}
use engineering_flow_platfor.Base.Value.{Fields, or_else, as_dict, get}
use engineering_flow_platfor.Base.Interpreter.{Texts}
use engineering_flow_platfor.TaskCompletion.Extract.{has_text, has_any_text}
use engineering_flow_platfor.TaskEvents.Ids.{first_key, text_of, canonical_event, event_type}

-- No change, a permission that is resolved, with its id if it has one, or one that is open.
pub data Delta : Type 0 where
  unchanged : Delta
  resolved : String → Delta
  opened : String → Delta

abbrev pub resolved_types : List String
resolved_types =
    "permission.replied" ∷ "permission.resolved" ∷ "permission.denied" ∷ "permission.approved"
    ∷ "permission.rejected" ∷ "permission.closed" ∷ []

abbrev pub opened_types : List String
opened_types =
    "permission.asked" ∷ "permission.created" ∷ "permission.requested" ∷ "permission.pending" ∷ []

abbrev pub resolved_statuses : List String
resolved_statuses =
    "approved" ∷ "allow" ∷ "allowed" ∷ "accepted" ∷ "granted" ∷ "denied" ∷ "deny" ∷ "rejected"
    ∷ "refused" ∷ "blocked" ∷ "resolved" ∷ "replied" ∷ "closed" ∷ []

-- the first key with a text that is not empty, in the properties before the event, then in the permission
unfoldable pub first_in_both : List String → Fields → Fields → String
first_in_both [] properties event = ""
first_in_both (key ∷ names) properties event =
    let rest = first_in_both names properties event in
    if not (is_empty (text_of (get key properties)))
    then text_of (get key properties)
    else if not (is_empty (text_of (get key event)))
    then text_of (get key event)
    else rest

unfoldable pub first_str_from_event : List String → Fields → String
first_str_from_event names event =
    let found = first_in_both names (as_dict (get "properties" event)) event in
    if is_empty found then first_key names (as_dict (get "permission" event)) else found

abbrev pub id_keys : List String
id_keys = "requestID" ∷ "request_id" ∷ "permissionID" ∷ "permission_id" ∷ "id" ∷ []

unfoldable pub permission_id_of : Fields → String
permission_id_of event = first_str_from_event id_keys event

abbrev pub status_keys : List String
status_keys = "status" ∷ "state" ∷ "decision" ∷ "resolution" ∷ "response" ∷ "answer" ∷ "action" ∷ []

abbrev pub id_or_request : String → String
id_or_request id = if is_empty id then "permission-request" else id

-- an event of another type whose dict `permission` has an id
unfoldable pub named_permission : Fields → Delta
named_permission event =
    let permission = as_dict (get "permission" event) in
    let id = text_of (
      or_else (or_else (get "id" permission) (get "permissionID" permission))
        (get "permission_id" permission)) in
    if is_empty id then unchanged else opened id

abbrev pub closing_words : List String
closing_words = "granted" ∷ "approved" ∷ "denied" ∷ "resolved" ∷ "closed" ∷ "replied" ∷ []

abbrev pub opening_words : List String
opening_words = "request" ∷ "pending" ∷ "created" ∷ "open" ∷ []

-- by the event's type
unfoldable pub delta_of : Texts → String → Fields → Delta
delta_of t kind event =
    let status = t.lower (strip (first_str_from_event status_keys event)) in
    if contains kind resolved_types
    then resolved (permission_id_of event)
    else if kind == "permission.updated"
    then if contains status resolved_statuses
      then resolved (permission_id_of event)
      else opened (id_or_request (permission_id_of event))
    else if contains kind opened_types
    then opened (id_or_request (permission_id_of event))
    else if not (has_text "permission" kind)
    then unchanged
    else if has_any_text closing_words kind
    then resolved (permission_id_of event)
    else if has_any_text opening_words kind
    then opened (id_or_request (permission_id_of event))
    else named_permission event

unfoldable pub permission_event_delta : Texts → Fields → Delta
permission_event_delta t event =
    let canonical = canonical_event event in delta_of t (event_type t canonical) canonical

-- An open permission has an id.
abbrev pub HasId : Delta → Type 0
HasId unchanged = Unit
HasId (resolved id) = Unit
HasId (opened id) = is_empty id ≡ false

id_or_request-full : (id : String) → HasId (opened (id_or_request id))
id_or_request-full id = elim (Bool-cases (is_empty id)) [ inl e ↦ rw e refl | inr f ↦ rw f f ]

holds_of_contains :
    (p : String → Bool) (k : String) (xs : List String)
    → All (λ x. p x ≡ true) xs
    → contains k xs ≡ true
    → p k ≡ true
holds_of_contains p k [] h c = cc
holds_of_contains p k (x ∷ xs) h c = elim (Bool-cases (x == k)) [
  | inl same ↦ ap p (sym (text_same x k same)) ∙ h.0
  | inr other ↦ holds_of_contains p k xs h.1 (rw other at c)
]
  where
    text_same : (x k : String) → (x == k) ≡ true → x ≡ k
    text_same x k e = ground (arith, eq_iff x k)

named_permission-HasId : (event : Fields) → HasId (named_permission event)
unfolding named_permission
named_permission-HasId event =
    elim (Bool-cases (
      is_empty (
        text_of (
          or_else
            (or_else (get "id" (as_dict (get "permission" event)))
              (get "permissionID" (as_dict (get "permission" event))))
            (get "permission_id" (as_dict (get "permission" event))))))) [
              | inl e ↦ rw e tt
              | inr f ↦ rw f f
            ]

abbrev Speaks : String → Type 0
Speaks kind = has_text "permission" kind ≡ true

resolved-Speaks : All Speaks resolved_types
unfolding has_text
resolved-Speaks = (refl, (refl, (refl, (refl, (refl, (refl, tt))))))

opened-Speaks : All Speaks opened_types
unfolding has_text
opened-Speaks = (refl, (refl, (refl, (refl, tt))))

updated-Speaks : Speaks "permission.updated"
unfolding has_text
updated-Speaks = refl

module _ (t : Texts) (kind : String) (event : Fields) where
  delta_of-HasId : HasId (delta_of t kind event)
  unfolding delta_of
  delta_of-HasId = elim (Bool-cases (contains kind resolved_types)) [
    | inl a ↦ rw a tt
    | inr a ↦ elim (Bool-cases (kind == "permission.updated")) [
      | inl b ↦
          elim (Bool-cases (
            contains (t.lower (strip (first_str_from_event status_keys event)))
              resolved_statuses)) [
                | inl c ↦ rw (a, b, c) tt
                | inr c ↦ rw (a, b, c) (id_or_request-full (permission_id_of event))
              ]
      | inr b ↦ elim (Bool-cases (contains kind opened_types)) [
        | inl c ↦ rw (a, b, c) (id_or_request-full (permission_id_of event))
        | inr c ↦ elim (Bool-cases (has_text "permission" kind)) [
          | inr d ↦ rw (a, b, c, d) tt
          | inl d ↦ elim (Bool-cases (has_any_text closing_words kind)) [
            | inl e ↦ rw (a, b, c, d, e) tt
            | inr e ↦ elim (Bool-cases (has_any_text opening_words kind)) [
              | inl f ↦ rw (a, b, c, d, e, f) (id_or_request-full (permission_id_of event))
              | inr f ↦ rw (a, b, c, d, e, f) (named_permission-HasId event)
            ]
          ]
        ]
      ]
    ]
  ]

  not_listed :
      (names : List String)
      → All Speaks names
      → has_text "permission" kind ≡ false
      → contains kind names ≡ false
  not_listed names h quiet = elim (Bool-cases (contains kind names)) [
    | inl found ↦ absurd (cc (holds_of_contains (has_text "permission") kind names h found, quiet))
    | inr new ↦ new
  ]

  not_updated : has_text "permission" kind ≡ false → (kind == "permission.updated") ≡ false
  not_updated quiet = elim (Bool-cases (kind == "permission.updated")) [
    | inl same ↦ absurd (cc (ap (has_text "permission") (same_text same), updated-Speaks, quiet))
    | inr other ↦ other
  ]
    where
      same_text : (kind == "permission.updated") ≡ true → kind ≡ "permission.updated"
      same_text h = ground (arith, eq_iff kind "permission.updated")

  delta_of_other : has_text "permission" kind ≡ false → delta_of t kind event ≡ unchanged
  unfolding delta_of
  delta_of_other quiet =
      rw
        (
          not_listed resolved_types resolved-Speaks quiet,
          not_updated quiet,
          not_listed opened_types opened-Speaks quiet,
          quiet,
        )
        refl

-- An event whose type does not speak of a permission changes nothing, and a permission that an event
-- opens has an id.
pub delta_lem :
    (t : Texts) (event : Fields)
    → (has_text "permission" (event_type t (canonical_event event)) ≡ false
        → permission_event_delta t event ≡ unchanged)
      × HasId (permission_event_delta t event)
unfolding permission_event_delta
delta_lem t event =
    let canonical = canonical_event event in
    (
      delta_of_other t (event_type t canonical) canonical,
      delta_of-HasId t (event_type t canonical) canonical,
    )
