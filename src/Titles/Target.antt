-- ===== src/Titles/Target.antt =====
-- session_title.py: which proxy and model name a session; with the provider of opencode_config.py and
-- copilot_plugin_auth.py and the auto ids of copilot_auto_catalog.py. The overlay of the profile is
-- an argument, as `_llm_config_from_overlay` gives it.
use Prim.Native.Char.{code}
use Prim.Native.String.{◌++◌ as text_append}
use engineering_flow_platfor.Base.{
  String, Bool, false, not, ◌&&◌, ◌||◌, Option, none, some, List, [], ◌∷◌, eqb, if◌then◌else◌, ◌==◌,
  nat_eq, string_eq, pair_eq, contains, is_empty, strip, Dict, lookup,
}
use engineering_flow_platfor.Base.Value.{
  Value, str, dict, Fields, end, field, truthy, or_else, as_dict, get, put, to_text,
}
use engineering_flow_platfor.Base.Interpreter.{Texts}
use engineering_flow_platfor.Pricing.{join_words}
use engineering_flow_platfor.Titles.Clean.{rstrip_of}

-- the addresses of the adapter's own proxies
pub record Proxies : Type 0 where
  pub copilot_proxy_base_url : String
  pub ai_platform_proxy_base_url : String

pub record TitleTarget : Type 0 where
  pub provider : String
  pub model : String
  pub base_url : String

abbrev pub title_models : Dict String String
title_models = ("github-copilot", "gpt-6-luna") ∷ ("ai-platform", "gpt-5.6-luna") ∷ []

abbrev pub title_apis : Dict String String
title_apis = ("github-copilot", "responses") ∷ ("ai-platform", "chat") ∷ []

abbrev pub option_or {ℓ} : {A : Type ℓ} → Option A → A → A
option_or none other = other
option_or (some a) other = a

unfoldable pub target_api : TitleTarget → String
target_api target = option_or (lookup target.provider title_apis) "chat"

unfoldable pub target_url : TitleTarget → String
unfolding target_api
target_url target =
    text_append (rstrip_of "/" target.base_url)
      (if target_api target == "responses" then "/responses" else "/chat/completions")

abbrev pub provider_aliases : Dict String String
provider_aliases =
    ("github", "github-copilot")
    ∷ ("copilot", "github-copilot")
    ∷ ("github_copilot", "github-copilot")
    ∷ ("github-copilot", "github-copilot")
    ∷ ("ai_platform", "ai-platform")
    ∷ ("ai-platform", "ai-platform")
    ∷ ("ai platform", "ai-platform")
    ∷ ("claude", "anthropic")
    ∷ ("anthropic", "anthropic")
    ∷ ("openai", "openai")
    ∷ []

abbrev pub auto_model_ids : List String
auto_model_ids = "auto" ∷ "auto-efficiency" ∷ "auto-intelligence" ∷ []

-- what stands before and after the first "/"
unfoldable pub split_slash : String → Option (String × String)
split_slash String.[] = none
split_slash (String.◌∷◌ c s) =
    let rest = split_slash s in
    if eqb (code c) 47
    then some ("", s)
    else elim rest [ none ↦ none | some p ↦ some (String.◌∷◌ c p.0, p.1) ]

-- `isinstance(v, str) and v.strip()`
abbrev pub is_text : Value → Bool
is_text (str s) = not (is_empty (strip s))
is_text _ = false

unfoldable pub loopback_proxy_base_url : Proxies → String → String
loopback_proxy_base_url proxies provider =
    if provider == "github-copilot"
    then rstrip_of "/" (strip proxies.copilot_proxy_base_url)
    else if provider == "ai-platform"
    then rstrip_of "/" (strip proxies.ai_platform_proxy_base_url)
    else ""

module _ (t : Texts) where
  unfoldable pub normalize_opencode_provider_id : Value → String
  normalize_opencode_provider_id provider =
      let raw = t.lower (strip (to_text t.repr (or_else provider (str "")))) in
      option_or (lookup raw provider_aliases) raw

  unfoldable pub normalize_model_id : String → String
  normalize_model_id value =
      let text = t.lower (strip value) in
      join_words false false (elim (split_slash text) [ none ↦ text | some p ↦ p.1 ])

  unfoldable pub is_auto_model : String → Bool
  is_auto_model value = contains (normalize_model_id value) auto_model_ids

  -- the empty text for `None`, which is as falsy
  unfoldable pub provider_from_llm : Fields → String
  provider_from_llm llm =
      let provider = normalize_opencode_provider_id (get "provider" llm) in
      if not (is_empty provider) then provider else elim (get "model" llm) [
        | str model ↦ elim (split_slash model) [
          | none ↦ ""
          | some p ↦ normalize_opencode_provider_id (str p.0)
        ]
        | _ ↦ ""
      ]

  -- a key of the profile, where the section does not have it
  abbrev pub copy_key : Fields → String → Fields → Fields
  copy_key profile key llm =
      if is_text (get key profile) && not (truthy (get key llm))
      then put key (get key profile) llm
      else llm

  unfoldable pub llm_config : Value → Fields
  llm_config (dict profile) = copy_key profile "title_model" (
      copy_key profile "model"
        (copy_key profile "provider" (as_dict (get "llm" (as_dict (get "config" profile))))))
  llm_config _ = end

  -- `{**overlay, **{k: v for k, v in llm.items() if v}}`
  unfoldable pub put_truthy : Fields → Fields → Fields
  put_truthy end target = target
  put_truthy (field k v fields) target =
      put_truthy fields (if truthy v then put k v target else target)

  unfoldable pub title_model : String → String → Value → String
  title_model provider default (str given) =
      let override = strip given in
      if is_empty override || is_auto_model override then default else elim (split_slash override) [
        | none ↦ override
        | some p ↦
            if not (normalize_opencode_provider_id (str p.0) == provider)
            then default
            else if is_empty (strip p.1)
            then default
            else strip p.1
      ]
  title_model provider default _ = default

  unfoldable pub target_for : Proxies → Fields → Option TitleTarget
  target_for proxies llm =
      let provider = provider_from_llm llm in
      elim (lookup provider title_models) [
        | none ↦ none
        | some default ↦
            let base_url = loopback_proxy_base_url proxies provider in
            if is_empty base_url
            then none
            else some (record {
              provider = provider;
              model = title_model provider default (get "title_model" llm);
              base_url = base_url;
            })
      ]

  unfoldable pub resolve_title_target : Proxies → Fields → Value → Option TitleTarget
  resolve_title_target proxies overlay profile =
      let llm = llm_config profile in
      target_for proxies (if is_empty (provider_from_llm llm) then put_truthy llm overlay else llm)
