-- ===== src/ProxyPlan/Entries.antt =====
-- proxy_plan.py: one named proxy of the connector.
use Prim.Native.String.{◌++◌ as text_append}
use engineering_flow_platfor.Base.{
  ℕ, String, Bool, false, ◌||◌, Option, none, some, List, [], ◌∷◌, ◌++◌, map, eqb, if◌then◌else◌,
  ◌==◌, nat_eq, string_eq, pair_eq, contains, is_empty, strip,
}
use engineering_flow_platfor.Base.Value.{Value, null, bool, to_text}
use engineering_flow_platfor.ProxyPlan.Library.{UrlParts, Library}
use engineering_flow_platfor.ProxyPlan.Texts.{
  joined, comma_joined, holds, lstrip_code, rstrip_code, underscored, split_items,
}

abbrev pub default_no_proxy : String
default_no_proxy = "127.0.0.1,localhost"

abbrev pub redacted_values : List String
redacted_values = "***redacted***" ∷ "[redacted]" ∷ "redacted" ∷ []

abbrev pub proxy_url_env_keys : List String
proxy_url_env_keys =
    "HTTP_PROXY" ∷ "HTTPS_PROXY" ∷ "ALL_PROXY" ∷ "http_proxy" ∷ "https_proxy" ∷ "all_proxy" ∷ []

abbrev pub no_proxy_env_keys : List String
no_proxy_env_keys = "NO_PROXY" ∷ "no_proxy" ∷ []

abbrev pub credential_env_prefix : String
credential_env_prefix = "EFP_PROXY_"

pub record ProxyEntry : Type 0 where
  pub name : String
  pub url : String
  pub username : String
  pub password : String
  pub no_proxy : String
  pub env_token : String

module _ (l : Library) where
  -- `_text`
  unfoldable pub clean : Value → String
  clean null = ""
  clean v = strip (to_text l.repr v)

  unfoldable pub env_token_of : String → String
  env_token_of name =
      let token = l.upper (rstrip_code 95 (lstrip_code 95 (underscored false name))) in
      if is_empty token then "DEFAULT" else token

  unfoldable pub secret : Value → String
  secret value = if contains (l.lower (clean value)) redacted_values then "" else clean value

  unfoldable pub flag : Value → Bool
  flag (bool b) = b
  flag v = contains (l.lower (clean v)) ("1" ∷ "true" ∷ "yes" ∷ "on" ∷ [])

  abbrev pub with_scheme : String → String
  with_scheme url = if holds "://" url then url else text_append "http://" url

  abbrev pub bracketed : String → String
  bracketed host = if holds ":" host then joined ("[" ∷ host ∷ "]" ∷ []) else host

  -- `if _port_of(parts):` leaves out the port 0
  abbrev pub with_port : Option ℕ → String → String
  with_port none netloc = netloc
  with_port (some port) netloc =
      if eqb port 0 then netloc else joined (netloc ∷ ":" ∷ l.text_of_number port ∷ [])

  unfoldable pub proxy_url_with_credentials : String → String → String → String
  proxy_url_with_credentials url username password =
      let parts = l.urlsplit (with_scheme url) in
      let netloc =
        joined (l.quote username ∷ ":" ∷ l.quote password ∷ "@" ∷ bracketed parts.hostname ∷ []) in
      if is_empty username || is_empty password || is_empty parts.hostname
      then url
      else l.urlunsplit parts.scheme (with_port parts.port netloc) parts.path parts.query
          parts.fragment

  unfoldable pub url_with_credentials : ProxyEntry → String
  url_with_credentials e = proxy_url_with_credentials e.url e.username e.password

  -- the required hosts that the list does not have, in lower case
  abbrev pub add_required : List String → List String → List String → List String
  add_required lowered [] items = items
  add_required lowered (required ∷ others) items =
      add_required lowered others
        (if contains required lowered then items else items ++ required ∷ [])

  abbrev pub required_hosts : List String
  required_hosts = "127.0.0.1" ∷ "localhost" ∷ []

  unfoldable pub no_proxy_items : String → ProxyEntry → List String
  no_proxy_items default e =
      let items = split_items (if is_empty (strip e.no_proxy) then default else strip e.no_proxy) in
      add_required (map l.lower items) required_hosts items

  unfoldable pub no_proxy_text : String → ProxyEntry → String
  no_proxy_text default e = comma_joined (no_proxy_items default e)

  abbrev pub port_or_default : UrlParts → ℕ
  port_or_default parts = elim parts.port [
    | some port ↦ port
    | none ↦ if parts.scheme == "https" then 443 else 80
  ]

  unfoldable pub address : ProxyEntry → String
  address e =
      let parts = l.urlsplit (with_scheme e.url) in
      if is_empty parts.hostname
      then ""
      else joined (bracketed parts.hostname ∷ ":" ∷ l.text_of_number (port_or_default parts) ∷ [])

  unfoldable pub credential_env_names : ProxyEntry → String × String
  credential_env_names e =
      let token = if is_empty e.env_token then env_token_of e.name else e.env_token in
      (
        joined (credential_env_prefix ∷ token ∷ "_USERNAME" ∷ []),
        joined (credential_env_prefix ∷ token ∷ "_PASSWORD" ∷ []),
      )
