-- ===== src/ProxyPlan/Exempts.antt =====
-- proxy_plan.py: whether a NO_PROXY list keeps a host off the proxy.
use Prim.Native.String.{◌++◌ as text_append}
use engineering_flow_platfor.Base.{
  ℕ, String, Bool, true, false, ◌&&◌, ◌||◌, Option, none, some, List, [], ◌∷◌, eqb, if◌then◌else◌,
  ◌==◌, nat_eq, string_eq, pair_eq, contains, is_empty, strip,
}
use engineering_flow_platfor.SessionStore.Titles.{starts_with}
use engineering_flow_platfor.ProxyPlan.Library.{Library}
use engineering_flow_platfor.ProxyPlan.Texts.{
  holds, ends_with, count_code, before_code, without_first, rstrip_code, split_items,
}

abbrev pub loopback_hosts : List String
loopback_hosts = "localhost" ∷ "127.0.0.1" ∷ "::1" ∷ []

-- `s[1:-1]` of a text in brackets
unfoldable pub unbracketed : String → String
unbracketed s = if starts_with "[" s && ends_with "]" s then before_last (without_first 1 s) else s
  where
    before_last : String → String
    before_last String.[] = ""
    before_last (String.◌∷◌ c s) =
        let rest = before_last s in if is_empty s then "" else String.◌∷◌ c rest

abbrev pub without_prefix : String → ℕ → String → String
without_prefix prefix n entry = if starts_with prefix entry then without_first n entry else entry

-- an entry without its scheme, brackets and port
unfoldable pub bare_entry : String → String
bare_entry given =
    let entry = without_prefix "https://" 8 (without_prefix "http://" 7 given) in
    if starts_with "[" entry && holds "]" entry
    then before_code 0x5d (without_first 1 entry)
    else if eqb (count_code 0x3a entry) 1
    then before_code 0x3a entry
    else entry

-- `text.lower().rstrip(".")` without brackets
unfoldable pub target_of : (String → String) → String → String
unfolding unbracketed
target_of lower host = unbracketed (rstrip_code 46 (lower (strip host)))

-- a name: with a dot in front its subdomains, else that name and its subdomains
unfoldable pub matches_name : String → String → Bool
matches_name target given =
    let name = rstrip_code 46 given in
    let entry = if starts_with "*." name then without_first 1 name else name in
    if starts_with "." entry
    then ends_with entry target
    else target == entry || ends_with (text_append "." entry) target

module _ (l : Library) where
  abbrev pub in_network : Option l.Address → Option (l.Address → Bool) → Bool
  in_network (some a) (some network) = network a
  in_network _ _ = false

  unfoldable pub entry_exempts : String → Option l.Address → String → Bool
  unfolding bare_entry matches_name
  entry_exempts target target_ip given =
      let entry = bare_entry given in
      if given == "*"
      then true
      else if holds "/" entry
      then in_network target_ip (l.ip_network entry)
      else matches_name target entry

  abbrev pub any_exempts : String → Option l.Address → List String → Bool
  any_exempts target target_ip [] = false
  any_exempts target target_ip (entry ∷ entries) =
      entry_exempts target target_ip (l.lower entry) || any_exempts target target_ip entries

  abbrev pub is_loopback_target : String → Bool
  is_loopback_target target =
      contains target loopback_hosts
      || elim (l.ip_address target) [ none ↦ false | some a ↦ l.is_loopback a ]

  unfoldable pub no_proxy_exempts : String → String → Bool
  unfolding entry_exempts target_of
  no_proxy_exempts host no_proxy =
      let target = target_of l.lower host in
      if is_empty target
      then false
      else if is_loopback_target target
      then true
      else any_exempts target (l.ip_address target) (split_items no_proxy)
