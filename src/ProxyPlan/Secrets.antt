-- ===== src/ProxyPlan/Secrets.antt =====
-- proxy_plan.py: what is shown of a plan.
use engineering_flow_platfor.Base.{
  String, ◌≡◌, refl, ap, Option, none, some, List, [], ◌∷◌, map, nat_eq, string_eq, pair_eq,
}
use engineering_flow_platfor.Base.Value.{cons}
use engineering_flow_platfor.ProxyPlan.Library.{Library}
use engineering_flow_platfor.ProxyPlan.Entries.{ProxyEntry, address}
use engineering_flow_platfor.ProxyPlan.Build.{
  ProxyPlan, shown_default, shown_entry, shown_entries, summary,
}

-- An entry with other credentials.
abbrev pub relogged : (String → String × String) → ProxyEntry → ProxyEntry
relogged login e = record e { username = (login e.name).0; password = (login e.name).1 }

abbrev pub relogged_default : (String → String × String) → Option ProxyEntry → Option ProxyEntry
relogged_default login none = none
relogged_default login (some e) = some (relogged login e)

abbrev pub relogged_plan : (String → String × String) → ProxyPlan → ProxyPlan
relogged_plan login plan = record plan {
  entries = map (relogged login) plan.entries;
  default = relogged_default login plan.default;
}

module _ (l : Library) (login : String → String × String) where
  shown_entries-relogged :
      (entries : List ProxyEntry)
      → shown_entries l (map (relogged login) entries) ≡ shown_entries l entries
  unfolding address
  shown_entries-relogged [] = refl
  shown_entries-relogged (e ∷ entries) =
      ap (cons (shown_entry l e)) (shown_entries-relogged entries)

  default_shown :
      (o : Option ProxyEntry) → shown_default (relogged_default login o) ≡ shown_default o
  default_shown none = refl
  default_shown (some e) = refl

  -- The summary does not depend on the user names and the passwords: with any others it is the same.
  pub summary-relogged : (plan : ProxyPlan) → summary l (relogged_plan login plan) ≡ summary l plan
  unfolding summary
  summary-relogged plan = rw (shown_entries-relogged plan.entries, default_shown plan.default) refl
