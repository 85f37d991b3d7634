-- ===== src/Titles/Tests.antt =====
-- Titles at concrete replies, and the theorems applied to them.
use engineering_flow_platfor.Pricing.{join_words}
use engineering_flow_platfor.Base.{
  ◌≤◌, String, ◌≡◌, refl, ◌⊎◌, inr, true, false, Option, none, some, [], ◌∷◌, arith, eq_iff, nat_eq,
  string_eq, pair_eq, is_empty, strip, lookup,
}
use engineering_flow_platfor.Base.Value.{pos, Value, str, dict, end, field}
use engineering_flow_platfor.Base.Interpreter.{Texts}
use engineering_flow_platfor.SessionStore.{SessionRecord, SessionStore}
use engineering_flow_platfor.SessionStore.Deleted.{IsKeyed}
use engineering_flow_platfor.Titles.{first_turn_texts, finish, store_title}
use engineering_flow_platfor.Titles.Clean.{
  title_max_chars, characters, strip_once, settled, bare_title, clean_title, rstrip_of,
}
use engineering_flow_platfor.Titles.Target.{
  resolve_title_target, Proxies, target_for, provider_from_llm, normalize_opencode_provider_id,
  llm_config, split_slash, loopback_proxy_base_url, title_model, is_auto_model, normalize_model_id,
}
use engineering_flow_platfor.Titles.Shrinks.{settled_lem}
use engineering_flow_platfor.Titles.Short.{clean_title_lem}
use engineering_flow_platfor.Titles.Named.{IsOpen, titled, finish_keeps, finish_stores}

abbrev as_typed : Texts
as_typed = record { repr = λ v. "..."; lower = λ s. s }

abbrev reply : Value
reply = str "\n **\"Title :  Fix the  login.\"**  \nIt names the task."

-- The wrappers are taken off in three turns.
cleaned : clean_title as_typed reply ≡ "Fix the login"
unfolding clean_title strip
cleaned = refl

unwrapped_once : strip_once "`title:a`." ≡ "title:a`"
unfolding strip_once strip
unwrapped_once = refl

-- The last text of the assistant before the next message of the user.
first_turn :
    first_turn_texts "" "" (
      record { role = "user"; display_content = some " Why? "; visible_text = "files … Why?" }
      ∷ record { role = "assistant"; display_content = none; visible_text = "Let me look." }
      ∷ record { role = "assistant"; display_content = none; visible_text = "Because." }
      ∷ record { role = "user"; display_content = none; visible_text = "And now?" }
      ∷ [])
    ≡ ("Why?", "Because.")
unfolding first_turn_texts strip
first_turn = refl

abbrev proxies : Proxies
proxies = record { copilot_proxy_base_url = "http://127.0.0.1:1/"; ai_platform_proxy_base_url = "" }

-- A model of another provider is not used.
target :
    resolve_title_target as_typed proxies end
      (dict (field "model" (str "copilot/m") (field "title_model" (str "openai/n") end)))
    ≡ some (record {
      provider = "github-copilot";
      model = "gpt-6-luna";
      base_url = "http://127.0.0.1:1";
    })
unfolding resolve_title_target target_for lookup provider_from_llm normalize_opencode_provider_id
    strip llm_config split_slash loopback_proxy_base_url rstrip_of title_model is_auto_model
    normalize_model_id join_words
target = refl

abbrev session : String → Option String → SessionRecord
session id custom = record {
  portal_session_id = id;
  opencode_session_id = "o";
  title = "first words";
  agent = none;
  model = none;
  created_at = "1";
  updated_at = "1";
  last_message = "";
  message_count = pos 2;
  deleted = false;
  partial_recovery = false;
  custom_title = custom;
  generated_title = none;
}

abbrev sessions : SessionStore
sessions = record {
  disk = record { index = none; backups = [] };
  sessions = ("a", session "a" none) ∷ ("b", session "b" (some "Mine")) ∷ [];
}

sessions-IsKeyed : IsKeyed sessions
unfolding lookup
sessions-IsKeyed k r h = ground (arith, eq_iff "a" k, eq_iff "b" k)

settled_lem_example :
    (is_empty (settled 10 "**x**") ≡ true) ⊎ (strip_once (settled 10 "**x**") ≡ settled 10 "**x**")
settled_lem_example = settled_lem 10 "**x**" (omega arith)

clean_title_lem_example :
    (characters (clean_title as_typed reply) ≤ title_max_chars)
    × (characters (bare_title as_typed reply) ≤ title_max_chars
        → (clean_title as_typed reply ≡ bare_title as_typed reply)
          × ((is_empty (clean_title as_typed reply) ≡ true)
              ⊎ (strip_once (clean_title as_typed reply) ≡ clean_title as_typed reply)))
clean_title_lem_example = clean_title_lem as_typed reply

finish_keeps_example :
    lookup "b" (finish as_typed "b" reply sessions).0.sessions ≡ some (session "b" (some "Mine"))
unfolding lookup
finish_keeps_example =
    finish_keeps as_typed "b" reply sessions sessions-IsKeyed "b" (session "b" (some "Mine")) refl
      (inr (inr refl))

finish_stores_example :
    (r : SessionRecord) × IsOpen "a" r sessions
    × (lookup "a" (finish as_typed "a" reply sessions).0.sessions ≡ some (titled r "Fix the login"))
    × ("Fix the login" ≡ clean_title as_typed reply)
    × (is_empty "Fix the login" ≡ false)
    × (characters "Fix the login" ≤ title_max_chars)
unfolding finish lookup clean_title strip store_title
finish_stores_example =
    finish_stores as_typed "a" reply sessions sessions-IsKeyed "Fix the login" refl
