-- ===== src/ProxyPlan/Tests.antt =====
-- Plans of concrete sections, and the theorems applied to them. Numbers are written with strokes.
use Prim.Native.Char.{char}
use engineering_flow_platfor.Base.{
  ℕ, zero, suc, String, ◌≡◌, refl, sym, ap, ◌∙◌, true, false, none, some, [], ◌∷◌, map, nat_eq,
  string_eq, pair_eq, contains, Pairwise, strip, lookup, insert,
}
use engineering_flow_platfor.Base.Value.{Value, bool, str, list, dict, nil, cons, end, field}
use engineering_flow_platfor.ProxyPlan.Library.{Library}
use engineering_flow_platfor.ProxyPlan.Texts.{
  characters, rstrip_code, lstrip_code, underscored, split_items, holds, ends_with,
}
use engineering_flow_platfor.ProxyPlan.Entries.{
  ProxyEntry, no_proxy_text, clean, env_token_of, flag, no_proxy_items, url_with_credentials,
  proxy_url_with_credentials, secret,
}
use engineering_flow_platfor.ProxyPlan.Build.{
  build_proxy_plan, unique_token, candidate, summary, find_entry,
}
use engineering_flow_platfor.ProxyPlan.Exempts.{no_proxy_exempts}
use engineering_flow_platfor.ProxyPlan.Choices.{choice, setting}
use engineering_flow_platfor.ProxyPlan.Tokens.{OtherToken, unique_token_lem, tokens_differ}
use engineering_flow_platfor.ProxyPlan.Secrets.{relogged_plan, summary-relogged}
use engineering_flow_platfor.ProxyPlan.Choices.{own_setting}
use engineering_flow_platfor.ProxyPlan.Direct.{IsSound, choice-IsSound}

abbrev strokes : ℕ → String
strokes zero = ""
strokes (suc n) = String.◌∷◌ (char 0x7c tt) (strokes n)

characters-strokes : (n : ℕ) → characters (strokes n) ≡ n
characters-strokes zero = refl
characters-strokes (suc n) = ap suc (characters-strokes n)

strokes_differ : (m n : ℕ) → strokes m ≡ strokes n → m ≡ n
strokes_differ m n same = sym (characters-strokes m) ∙ ap characters same ∙ characters-strokes n

abbrev library : Library
library = record {
  Address = Unit;
  lower = λ s. s;
  upper = λ s. s;
  repr = λ v. "'...'";
  text_of_number = strokes;
  isdigit = λ s. false;
  quote = λ s. s;
  urlsplit = λ s. record {
    scheme = "http";
    hostname = s;
    port = none;
    path = "";
    query = "";
    fragment = "";
  };
  urlunsplit = λ scheme netloc path query fragment. netloc;
  ip_address = λ s. none;
  is_loopback = λ a. false;
  ip_network = λ s. none;
}

abbrev item : String → Value
item name = dict (
    field "name" (str name) (
      field "url" (str "http://p")
        (field "username" (str "u") (field "password" (str "secret") end))))

abbrev section : Value
section = dict (
    field "enabled" (bool true) (
      field "proxies"
        (list (cons (item "corp-a") (cons (item "corp_a") (cons (item "corp-a") nil))))
        (field "default" (str "corp_a") (
          field "assignments" (dict (field "llm" (str "corp-a") (field "jira" (str "corp-b") end)))
            end))))

tokens :
    map (λ (e : ProxyEntry). e.env_token) (build_proxy_plan library section).entries
    ≡ "corp_a" ∷ "corp_a_||" ∷ []
unfolding build_proxy_plan clean strip env_token_of rstrip_code lstrip_code underscored
tokens = refl

exempted : no_proxy_exempts library "git.corp.test" "localhost, .corp.test" ≡ true
unfolding no_proxy_exempts rstrip_code strip split_items holds ends_with
exempted = refl

proxied :
    setting library
      (choice library (build_proxy_plan library section) "llm" (some "example.test") none)
    ≡ "u:secret@[http://p]"
unfolding choice build_proxy_plan setting flag lookup strip insert clean find_entry no_proxy_exempts
    rstrip_code split_items no_proxy_text no_proxy_items holds ends_with url_with_credentials
    proxy_url_with_credentials secret
proxied = refl

unique_token_lem_example :
    (contains (unique_token strokes "A" ("A" ∷ "A_||" ∷ [])) ("A" ∷ "A_||" ∷ []) ≡ false)
    × ((n : ℕ) × (unique_token strokes "A" ("A" ∷ "A_||" ∷ []) ≡ candidate strokes "A" n))
unique_token_lem_example = unique_token_lem library strokes_differ "A" ("A" ∷ "A_||" ∷ [])

tokens_differ_example : Pairwise OtherToken (build_proxy_plan library section).entries
tokens_differ_example = tokens_differ library strokes_differ section

summary-relogged_example :
    summary library (relogged_plan (λ name. ("u2", "other")) (build_proxy_plan library section))
    ≡ summary library (build_proxy_plan library section)
summary-relogged_example =
    summary-relogged library (λ name. ("u2", "other")) (build_proxy_plan library section)

choice-IsSound_example :
    IsSound library
      (build_proxy_plan library section)
      (some "example.test")
      (own_setting none)
      (choice library (build_proxy_plan library section) "llm" (some "example.test") none)
choice-IsSound_example =
    choice-IsSound library (build_proxy_plan library section) (some "example.test") "llm" none
