-- ===== src/Titles/Request.antt =====
-- session_title.py: the request that asks for a title, and the text of the reply.
use Prim.Native.Char.{code}
use Prim.Native.String.{◌++◌ as text_append}
use engineering_flow_platfor.Base.{
  ℕ, String, Bool, true, false, ◌||◌, Option, none, some, List, [], ◌∷◌, leb, eqb, if◌then◌else◌,
  ◌==◌, nat_eq, string_eq, pair_eq, rstrip, strip,
}
use engineering_flow_platfor.Base.Value.{
  Value, bool, str, list, dict, Items, nil, cons, Fields, end, field, truthy, as_dict, get,
}
use engineering_flow_platfor.Titles.Clean.{characters, first, blank}
use engineering_flow_platfor.Titles.Target.{TitleTarget, target_api}

abbrev pub title_input_max_chars : ℕ
title_input_max_chars = 1500

abbrev pub title_reasoning_effort : String
title_reasoning_effort = "low"

abbrev pub joined : List String → String
joined [] = ""
joined (s ∷ ss) = text_append s (joined ss)

-- the rule of the language follows the reply language, where one applies
abbrev pub title_language_rule : Bool → String
title_language_rule false = "- The same language as the user's message."
title_language_rule true = "- The same language as the assistant's answer."

unfoldable pub title_instructions : Bool → String
title_instructions has_reply_language = joined (
    "You name chat sessions for a list of past conversations. "
    ∷ "Given the first message of a conversation and the assistant's answer, reply with a short title.\n"
    ∷ "Rules:\n"
    ∷ "- A noun phrase of at most 40 characters (about 20 characters for Chinese, Japanese or Korean).\n"
    ∷ title_language_rule has_reply_language
    ∷ "\n"
    ∷ "- Name the topic or task, not the fact that it was asked or answered.\n"
    ∷ "- No quotes, no trailing period, no prefix such as 'Title:' or 'Session about'.\n"
    ∷ "Reply with the title only."
    ∷ [])

abbrev is_gap : ℕ → Bool
is_gap n = eqb n 32 || eqb n 9

-- `re.sub(r"[ \t]+", " ", s)`, after a gap or not
unfoldable pub collapse_gaps : Bool → String → String
collapse_gaps after String.[] = ""
collapse_gaps after (String.◌∷◌ c s) =
    let more = collapse_gaps true s in
    let word = String.◌∷◌ c (collapse_gaps false s) in
    if is_gap (code c) then if after then more else String.◌∷◌ blank more else word

unfoldable pub excerpt : String → String
unfolding collapse_gaps
excerpt text =
    let collapsed = strip (collapse_gaps false text) in
    if leb (characters collapsed) title_input_max_chars
    then collapsed
    else text_append (rstrip (first title_input_max_chars collapsed)) "…"

unfoldable pub build_title_prompt : String → String → String
unfolding excerpt
build_title_prompt user_text assistant_text = joined (
    "User message:\n"
    ∷ excerpt user_text
    ∷ "\n\nAssistant answer:\n"
    ∷ excerpt assistant_text
    ∷ "\n\nTitle:"
    ∷ [])

abbrev pub message : String → Value → Value
message role content = dict (field "role" (str role) (field "content" content end))

unfoldable pub build_title_messages : Bool → String → String → Items
unfolding title_instructions build_title_prompt
build_title_messages has_reply_language user_text assistant_text =
    cons (message "system" (str (title_instructions has_reply_language)))
      (cons (message "user" (str (build_title_prompt user_text assistant_text))) nil)

abbrev pub input_text : String → Value
input_text s = list (cons (dict (field "type" (str "input_text") (field "text" (str s) end))) nil)

unfoldable pub build_title_request_body : TitleTarget → Bool → String → String → Fields
unfolding build_title_messages
build_title_request_body target has_reply_language user_text assistant_text =
    if target_api target == "responses"
    then field "model" (str target.model) (
        field "input"
          (list (
            cons (message "system" (input_text (title_instructions has_reply_language))) (
              cons (message "user" (input_text (build_title_prompt user_text assistant_text)))
                nil)))
          (field "stream" (bool false)
            (field "reasoning" (dict (field "effort" (str title_reasoning_effort) end)) end)))
    else field "model" (str target.model) (
        field "messages" (list (build_title_messages has_reply_language user_text assistant_text))
          (field "stream" (bool false) end))

-- `value or []` in a `for`: a text or a dict holds no dict; none where it cannot be iterated
unfoldable pub iterated : Value → Option Items
iterated (list xs) = some xs
iterated (str s) = some nil
iterated (dict fs) = some nil
iterated v = if truthy v then none else some nil

abbrev pub text_of : Value → String
text_of (str s) = s
text_of _ = ""

unfoldable pub text_parts : Value → String
text_parts (str s) = s
text_parts (list nil) = ""
text_parts (list (cons item items)) =
    text_append (text_of (get "text" (as_dict item))) (text_parts (list items))
text_parts _ = ""

unfoldable pub output_texts : Items → String
output_texts nil = ""
output_texts (cons part parts) =
    let rest = output_texts parts in
    if text_of (get "type" (as_dict part)) == "output_text"
    then text_append (text_of (get "text" (as_dict part))) rest
    else rest

unfoldable pub message_texts : Items → Option String
unfolding output_texts iterated
message_texts nil = some ""
message_texts (cons item items) =
    let rest = message_texts items in
    if text_of (get "type" (as_dict item)) == "message"
    then elim (iterated (get "content" (as_dict item))) [
      | none ↦ none
      | some parts ↦ elim rest [
        | none ↦ none
        | some texts ↦ some (text_append (output_texts parts) texts)
      ]
    ]
    else rest

abbrev pub first_choice : Value → Fields
first_choice (list (cons choice choices)) = as_dict choice
first_choice _ = end

-- none for TypeError
unfoldable pub extract_reply_text : Value → String → Option String
unfolding message_texts text_parts iterated
extract_reply_text (dict payload) api =
    if api == "responses"
    then elim (iterated (get "output" payload)) [ none ↦ none | some items ↦ message_texts items ]
    else some (
        text_parts (get "content" (as_dict (get "message" (first_choice (get "choices" payload))))))
extract_reply_text _ api = some ""
