-- ===== src/TaskCompletion/Outcome.antt =====
-- task_completion_parser.py: what every result of the parser has.
use engineering_flow_platfor.Base.{
  ℕ, zero, suc, String, ◌≡◌, refl, sym, ap, ◌∙◌, inl, inr, Bool, true, false, ◌||◌, Option, none,
  some, List, [], ◌∷◌, arith, if◌then◌else◌, nat_eq, string_eq, pair_eq, Bool-cases, Option-cases,
  some_inj, contains, is_empty, strip, strip-strip,
}
use engineering_flow_platfor.Base.Value.{
  Value, null, bool, int, decimal, str, list, dict, Items, nil, cons, Fields, end, field, get,
  to_text, get-put,
}
use engineering_flow_platfor.Base.Interpreter.{Texts}
use engineering_flow_platfor.TaskCompletion.{
  statuses, status_of_text, classify, supersede, payload_for, parse_task_completion,
  permission_phrases,
}
use engineering_flow_platfor.TaskCompletion.Extract.{has_any_text, extract_json}
use engineering_flow_platfor.TaskCompletion.Shape.{
  is_superseded, is_superseded_code, any_item, any_field, get_or, with_common_defaults, first_text,
  agent_async_fallback_response, is_full_text, is_bool, agent_async_defaults, with_response,
  with_input_flag, normalize_agent_async_task_payload,
}

status_of_text-In : (low : String) → contains (status_of_text low) statuses ≡ true
unfolding status_of_text
status_of_text-In low = elim (Bool-cases (has_any_text permission_phrases low)) [
  | inl t ↦ rw t refl
  | inr f ↦ elim (Bool-cases (has_any_text ("blocked" ∷ "missing required" ∷ []) low)) [
    | inl t ↦ rw (f, t) refl
    | inr g ↦ elim (Bool-cases (has_any_text ("cannot proceed" ∷ "failed" ∷ "error" ∷ []) low)) [
      | inl t ↦ rw (f, g, t) refl
      | inr h ↦ rw (f, g, h) refl
    ]
  ]
]

or_true : (b : Bool) → (b || true) ≡ true
or_true true = refl
or_true false = refl

-- The part of a value at a place: which entry of a dict or which item of a list, from outside in.
abbrev pub item_at : ℕ → Items → Option Value
item_at n nil = none
item_at zero (cons v items) = some v
item_at (suc n) (cons v items) = item_at n items

abbrev pub entry_at : ℕ → Fields → Option Value
entry_at n end = none
entry_at zero (field k v fields) = some v
entry_at (suc n) (field k v fields) = entry_at n fields

abbrev pub child_at : ℕ → Value → Option Value
child_at n (dict fields) = entry_at n fields
child_at n (list items) = item_at n items
child_at n _ = none

abbrev pub part_of : List ℕ → Option Value → Option Value
part_of place none = none
part_of [] (some v) = some v
part_of (n ∷ place) (some v) = part_of place (child_at n v)

abbrev pub part_at : List ℕ → Value → Option Value
part_at place v = part_of place (some v)

any_item_at :
    (n : ℕ) (items : Items) (w : Value)
    → item_at n items ≡ some w
    → is_superseded w ≡ true
    → any_item items ≡ true
unfolding any_item
any_item_at n nil w h code = absurd (ground (arith, h))
any_item_at zero (cons v items) w h code = rw (some_inj h, code) refl
any_item_at (suc n) (cons v items) w h code =
    rw (any_item_at n items w h code) (or_true (is_superseded v))

any_field_at :
    (n : ℕ) (fields : Fields) (w : Value)
    → entry_at n fields ≡ some w
    → is_superseded w ≡ true
    → any_field fields ≡ true
unfolding any_field
any_field_at n end w h code = absurd (ground (arith, h))
any_field_at zero (field k v fields) w h code = rw (some_inj h, code) refl
any_field_at (suc n) (field k v fields) w h code =
    rw (any_field_at n fields w h code) (or_true (is_superseded v))

child-superseded :
    (n : ℕ) (v w : Value) → child_at n v ≡ some w → is_superseded w ≡ true → is_superseded v ≡ true
unfolding is_superseded
child-superseded n (dict fields) w h code =
    rw (any_field_at n fields w h code) (or_true (is_superseded_code (get "error_code" fields)))
child-superseded n (list items) w h code = any_item_at n items w h code
child-superseded n null w h code = absurd (ground (arith, h))
child-superseded n (bool b) w h code = absurd (ground (arith, h))
child-superseded n (int m) w h code = absurd (ground (arith, h))
child-superseded n (decimal m k) w h code = absurd (ground (arith, h))
child-superseded n (str s) w h code = absurd (ground (arith, h))

part-superseded :
    (place : List ℕ) (v : Value) (fields : Fields)
    → part_at place v ≡ some (dict fields)
    → get "error_code" fields ≡ str "superseded_by_new_head_sha"
    → is_superseded v ≡ true
unfolding is_superseded
part-superseded [] v fields h code = rw (some_inj h, code) refl
part-superseded (n ∷ place) v fields h code = elim (Option-cases (child_at n v)) [
  | inl nothing ↦ absurd (nowhere place (sym (ap (part_of place) nothing) ∙ h))
  | inr (w, p) ↦
      child-superseded n v w p
        (part-superseded place w fields (sym (ap (part_of place) p) ∙ h) code)
]
  where
    nowhere : (place : List ℕ) → part_of place none ≡ some (dict fields) → ⊥
    nowhere [] q = ground (arith, q)
    nowhere (m ∷ place) q = ground (arith, q)

module _ (t : Texts) where
  classify-In :
      (raw : String) (parsed : Option Fields) → contains (classify t raw parsed).0 statuses ≡ true
  unfolding classify
  classify-In raw none = status_of_text-In (t.lower raw)
  classify-In raw (some parsed) =
      let status = to_text t.repr (get_or "status" (str "success") (with_common_defaults parsed)) in
      elim (Bool-cases (contains status statuses)) [
        | inl known ↦ rw known known
        | inr other ↦ rw other refl
      ]

  module _ (loads : String → Option Value) where
    -- what the search for the code of a superseded head looks at
    abbrev pub searched : String → Fields
    searched text = elim (extract_json loads text) [
      | none ↦ (classify t text none).1
      | some fields ↦ fields
    ]

    superseded_status :
        (text task_type : String)
        → (contains (parse_task_completion t loads text task_type).0 statuses ≡ true)
          × (is_superseded (dict (searched text)) ≡ true
              → (parse_task_completion t loads text task_type).0 ≡ "error")
    unfolding parse_task_completion supersede
    superseded_status text task_type = at (extract_json loads text)
      where
        at :
            (o : Option Fields)
            → (contains (supersede o (classify t text o)).0 statuses ≡ true)
              × (is_superseded
                      (dict (elim o [ none ↦ (classify t text none).1 | some fields ↦ fields ]))
                    ≡ true
                  → (supersede o (classify t text o)).0 ≡ "error")
        at none = elim (Bool-cases (is_superseded (dict (classify t text none).1))) [
          | inl found ↦ rw found (refl, λ h. refl)
          | inr absent ↦ rw absent (classify-In text none, λ h. absurd (ground (arith, h)))
        ]
        at (some fields) = elim (Bool-cases (is_superseded (dict fields))) [
          | inl found ↦ rw found (refl, λ h. refl)
          | inr absent ↦ rw absent (classify-In text (some fields), λ h. absurd (ground (arith, h)))
        ]

    -- The status is one of the three, whatever the text is, and "error" where a dict at any place in the
    -- JSON, however deep in lists and dicts, has the code of a superseded head.
    pub parse_status_lem :
        (text task_type : String)
        → (contains (parse_task_completion t loads text task_type).0 statuses ≡ true)
          × ((place : List ℕ) (fields : Fields)
              → part_at place (dict (searched text)) ≡ some (dict fields)
              → get "error_code" fields ≡ str "superseded_by_new_head_sha"
              → (parse_task_completion t loads text task_type).0 ≡ "error")
    parse_status_lem text task_type =
        let both = superseded_status text task_type in
        (
          both.0,
          λ place fields h code.
              both.1 (part-superseded place (dict (searched text)) fields h code),
        )

first_text-full :
    (names : List String) (payload : Fields) (raw : String)
    → is_empty (strip raw) ≡ false
    → is_full_text (str (first_text names payload raw)) ≡ true
unfolding first_text
first_text-full [] payload raw full = rw (strip-strip raw, full) refl
first_text-full (key ∷ names) payload raw full =
    at (first_text-full names payload raw full) (get key payload)
  where
    at :
        is_full_text (str (first_text names payload raw)) ≡ true
        → (v : Value)
        → is_full_text (
            str (elim v [
              | str s ↦ if is_empty (strip s) then first_text names payload raw else strip s
              | _ ↦ first_text names payload raw
            ]))
          ≡ true
    at ih (str s) = elim (Bool-cases (is_empty (strip s))) [
      | inl blank ↦ rw blank ih
      | inr text ↦ rw (text, strip-strip s, text) refl
    ]
    at ih _ = ih

with_response-full :
    (payload : Fields) (raw : String)
    → is_empty (strip raw) ≡ false
    → is_full_text (get "final_response" (with_response payload raw)) ≡ true
unfolding with_response agent_async_fallback_response
with_response-full payload raw full =
    elim (Bool-cases (is_full_text (get "final_response" payload))) [
      | inl given ↦ rw given given
      | inr missing ↦ rw missing (
          simp get-put (
            first_text-full ("response" ∷ "answer" ∷ "summary" ∷ "raw_text" ∷ []) payload raw full))
    ]

with_input_flag-bool :
    (payload : Fields) (status : String)
    → is_bool (get "needs_user_input" (with_input_flag payload status)) ≡ true
unfolding with_input_flag
with_input_flag-bool payload status = elim (Bool-cases (is_bool (get "needs_user_input" payload))) [
  | inl given ↦ rw given given
  | inr missing ↦ rw missing (simp get-put refl)
]

with_input_flag-keeps :
    (payload : Fields) (status : String)
    → get "final_response" (with_input_flag payload status) ≡ get "final_response" payload
unfolding with_input_flag
with_input_flag-keeps payload status =
    elim (Bool-cases (is_bool (get "needs_user_input" payload))) [
      | inl given ↦ rw given refl
      | inr missing ↦ rw missing (simp get-put refl)
    ]

-- A text that is no blank gives an agent's task a final response that is none either, and a flag that
-- says whether the user is asked.
pub agent_async_lem :
    (t : Texts) (loads : String → Option Value) (text : String)
    → is_empty (strip text) ≡ false
    → (is_full_text (get "final_response" (parse_task_completion t loads text "agent_async_task").1)
        ≡ true)
      × (is_bool (get "needs_user_input" (parse_task_completion t loads text "agent_async_task").1)
          ≡ true)
unfolding parse_task_completion payload_for normalize_agent_async_task_payload
agent_async_lem t loads text full =
    let found = supersede (extract_json loads text) (classify t text (extract_json loads text)) in
    let payload = agent_async_defaults found.1 in
    (
      rw (with_input_flag-keeps (with_response payload text) found.0)
          (with_response-full payload text full),
      with_input_flag-bool (with_response payload text) found.0,
    )
