-- ===== src/ProxyPlan/Choices.antt =====
-- proxy_plan.py: the proxy of one consumer.
use engineering_flow_platfor.Base.{
  String, Bool, true, false, not, ◌&&◌, ◌||◌, Option, none, some, List, [], ◌∷◌, eqb, if◌then◌else◌,
  ◌==◌, nat_eq, string_eq, pair_eq, contains, is_empty, strip, lookup,
}
use engineering_flow_platfor.SessionStore.Titles.{starts_with}
use engineering_flow_platfor.ProxyPlan.Library.{Library}
use engineering_flow_platfor.ProxyPlan.Texts.{holds, count_code, before_code, after_last}
use engineering_flow_platfor.ProxyPlan.Entries.{
  ProxyEntry, default_no_proxy, no_proxy_text, url_with_credentials,
}
use engineering_flow_platfor.ProxyPlan.Build.{ProxyPlan, none_words, find_entry}
use engineering_flow_platfor.ProxyPlan.Exempts.{no_proxy_exempts}

pub data Kind : Type 0 where
  environment no_proxy proxy : Kind

pub data Source : Type 0 where
  disabled environment assignment instance_row default no_proxy unknown : Source

abbrev pub environment_words : List String
environment_words = "" ∷ "env" ∷ "environment" ∷ []

pub record ProxyChoice : Type 0 where
  pub kind : Kind
  pub source : Source
  pub entry : Option ProxyEntry
  pub url : String

abbrev pub plain : Kind → Source → ProxyChoice
plain kind source = record { kind = kind; source = source; entry = none; url = "" }

abbrev pub with_entry : Kind → Source → ProxyEntry → ProxyChoice
with_entry kind source e = record { kind = kind; source = source; entry = some e; url = "" }

abbrev pub own_setting : Option String → String
own_setting none = ""
own_setting (some s) = strip s

abbrev pub is_some {ℓ} : {A : Type ℓ} → Option A → Bool
is_some none = false
is_some (some a) = true

abbrev pub is_default : Option ProxyEntry → ProxyEntry → Bool
is_default none e = false
is_default (some d) e = e.name == d.name

abbrev pub is_assignment : Source → Bool
is_assignment assignment = true
is_assignment _ = false

abbrev pub assigned_to : String → ProxyPlan → String
assigned_to connector plan = elim (lookup connector plan.assignments) [
  | none ↦ ""
  | some value ↦ strip value
]

-- the entry of this name, while the connector is on
abbrev pub enabled_entry : ProxyPlan → String → Option ProxyEntry
enabled_entry plan name = if plan.enabled then find_entry name plan.entries else none

module _ (l : Library) where
  -- `text.rpartition(":")` with one colon: a host and a port of digits
  abbrev pub is_host_and_port : String → Bool
  is_host_and_port text =
      eqb (count_code 0x3a text) 1
      && not (is_empty (before_code 0x3a text))
      && elim (after_last 0x3a text) [ none ↦ false | some port ↦ l.isdigit port ]

  unfoldable pub looks_like_url : String → Bool
  looks_like_url value =
      let text = strip value in
      if holds "://" text
      then true
      else if holds " " text
      then false
      else if starts_with "[" text
      then holds "]" text
      else is_some (l.ip_address text)
        || is_host_and_port text
        || not (holds ":" text) && holds "." text

  abbrev pub exempts_host : Option String → ProxyEntry → Bool
  exempts_host none e = false
  exempts_host (some host) e =
      not (is_empty host) && no_proxy_exempts l host (no_proxy_text l default_no_proxy e)

  unfoldable pub entry_choice : ProxyPlan → ProxyEntry → Option String → Source → ProxyChoice
  entry_choice plan e host source =
      if exempts_host host e
      then with_entry Kind.no_proxy Source.no_proxy e
      else if is_assignment source && is_default plan.default e
      then with_entry Kind.environment Source.default e
      else with_entry proxy source e

  -- while the connector is on
  unfoldable pub listed_choice : ProxyPlan → String → Option String → ProxyChoice
  unfolding entry_choice
  listed_choice plan connector host =
      let assigned = assigned_to connector plan in
      if contains (l.lower assigned) environment_words
      then plain Kind.environment Source.environment
      else if contains (l.lower assigned) none_words
      then plain Kind.no_proxy assignment
      else elim (find_entry assigned plan.entries) [
        | none ↦ plain Kind.environment unknown
        | some e ↦ entry_choice plan e host assignment
      ]

  unfoldable pub assigned_choice : ProxyPlan → String → Option String → ProxyChoice
  unfolding listed_choice
  assigned_choice plan connector host =
      if plan.enabled then listed_choice plan connector host else plain Kind.environment disabled

  unfoldable pub choice : ProxyPlan → String → Option String → Option String → ProxyChoice
  unfolding looks_like_url assigned_choice
  choice plan connector host instance_setting =
      let own = own_setting instance_setting in
      let assigned = assigned_choice plan connector host in
      if is_empty own
      then assigned
      else if contains (l.lower own) none_words
      then plain Kind.no_proxy instance_row
      else elim (enabled_entry plan own) [
        | some e ↦ entry_choice plan e host instance_row
        | none ↦
            if looks_like_url own
            then record { kind = proxy; source = instance_row; entry = none; url = own }
            else assigned
      ]

  -- the value for a tool's field
  unfoldable pub setting : ProxyChoice → String
  setting c = elim c.kind [
    | Kind.no_proxy ↦ "none"
    | proxy ↦ elim c.entry [ some e ↦ url_with_credentials l e | none ↦ c.url ]
    | Kind.environment ↦ ""
  ]
