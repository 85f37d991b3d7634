-- ===== src/Titles.antt =====
-- efp_opencode_adapter/session_title.py: the name of a session, asked from a model after its first
-- turn. `generate_session_title` is split where it awaits: `begin` up to the messages of OpenCode,
-- `ask` up to the model, `finish` from its reply on, on the store as it is by then. A message of
-- OpenCode is its role, the member's own words where they are recorded, and its visible text.
pub mod Clean
pub mod Shrinks
pub mod Target
pub mod Request
pub mod Short
pub mod Named
mod Tests
use engineering_flow_platfor.Base.{
  ℕ, String, Bool, false, not, ◌&&◌, ◌||◌, Option, none, some, List, [], ◌∷◌, if◌then◌else◌, ◌==◌,
  nat_eq, string_eq, pair_eq, contains, is_empty, strip, lookup,
}
use engineering_flow_platfor.Base.Value.{Value, bool, str, or_else, has, to_text}
use engineering_flow_platfor.Base.Interpreter.{Texts}
use engineering_flow_platfor.SessionStore
use engineering_flow_platfor.SessionStore.{
  SessionRecord, SessionStore, get_session, set_generated_title,
}
use engineering_flow_platfor.SessionStore.Titles.{session_id_is_task_session}
use engineering_flow_platfor.Titles.Clean.{clean_title}
use engineering_flow_platfor.Titles.Target.{TitleTarget}

pub record Message : Type 0 where
  pub role : String
  pub display_content : Option String
  pub visible_text : String

unfoldable pub user_display_text : Message → String
user_display_text m = elim m.display_content [
  | none ↦ strip m.visible_text
  | some visible ↦ if is_empty (strip visible) then strip m.visible_text else strip visible
]

-- the user's text and the assistant's, from those so far
unfoldable pub first_turn_texts : String → String → List Message → String × String
unfolding user_display_text
first_turn_texts user_text assistant_text [] = (user_text, assistant_text)
first_turn_texts user_text assistant_text (m ∷ messages) =
    let text = strip m.visible_text in
    let searching =
      first_turn_texts (if m.role == "user" then user_display_text m else user_text) assistant_text
        messages in
    let answered = first_turn_texts user_text text messages in
    let skipped = first_turn_texts user_text assistant_text messages in
    if is_empty user_text
    then searching
    else if m.role == "user"
    then if is_empty assistant_text then skipped else (user_text, assistant_text)
    else if m.role == "assistant" && not (is_empty text)
    then answered
    else skipped

-- `if name:` of an optional name
abbrev pub is_given : Option String → Bool
is_given none = false
is_given (some s) = not (is_empty s)

-- What a stage comes to: the name is kept, KeyError, TitleGenerationError with its status and
-- message, or what comes next.
pub data Stage {ℓ} (A : Type ℓ) : Type ℓ where
  keeps : Stage A
  key_error : Stage A
  title_error : ℕ → String → Stage A
  next : A → Stage A

-- what is asked next: the messages of an OpenCode session, or the model about a turn
pub data Asked : Type 0 where
  reads : TitleTarget → String → Asked
  names : TitleTarget → String → String → Asked

unfoldable pub begin :
    Option TitleTarget → String → Bool → String → String → SessionStore → Stage Asked
begin target id force user_text assistant_text s = elim (lookup id s.sessions) [
  | none ↦ key_error
  | some r ↦
      if r.deleted
      then key_error
      else if is_given r.custom_title
      then keeps
      else if is_given r.generated_title && not force
      then keeps
      else elim target [
        | none ↦ title_error 502 "No model proxy is configured for session titles."
        | some target ↦
            if is_empty user_text || is_empty assistant_text
            then next (reads target r.opencode_session_id)
            else next (names target user_text assistant_text)
      ]
]

-- with the messages, none where OpenCode's client reports an error
unfoldable pub ask : TitleTarget → Option (List Message) → Stage Asked
unfolding first_turn_texts
ask target none = title_error 502 "Could not read the session from OpenCode"
ask target (some messages) =
    let turn = first_turn_texts "" "" messages in
    if is_empty turn.0 || is_empty turn.1
    then title_error 422 "The session has no completed turn to name yet."
    else next (names target turn.0 turn.1)

unfoldable pub store_title : String → String → SessionStore → SessionStore × Stage String
store_title id title s = elim (lookup id s.sessions) [
  | none ↦ (s, key_error)
  | some r ↦
      if r.deleted
      then (s, key_error)
      else if is_given r.custom_title
      then (s, keeps)
      else ((set_generated_title id title s).0, next title)
]

unfoldable pub finish : Texts → String → Value → SessionStore → SessionStore × Stage String
finish t id text s =
    let title = clean_title t text in
    if is_empty title
    then (s, title_error 502 "The model returned no usable title.")
    else store_title id title s

-- `running` are the sessions with a call under way
unfoldable pub should_generate_after_turn :
    Texts → List String → Option SessionRecord → Value → Value → Bool
should_generate_after_turn t running none ok assistant_text = false
should_generate_after_turn t running (some r) ok assistant_text =
    not r.deleted
    && not (session_id_is_task_session (str r.portal_session_id))
    && not (is_given r.custom_title || is_given r.generated_title)
    && is_true ok
    && not (is_empty (strip (to_text t.repr (or_else assistant_text (str "")))))
    && not (contains r.portal_session_id running)
  where
    is_true : Value → Bool
    is_true (bool b) = b
    is_true _ = false
