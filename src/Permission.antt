-- ===== src/Permission.antt =====
-- efp_opencode_adapter/permission_generator.py: the permission block of OpenCode's configuration, from
-- the runtime profile and the index of skills. A set of texts is a list. `str.lower` and the text of
-- numbers, lists and dicts are arguments. What raises returns none.
use engineering_flow_platfor.Base.Interpreter.{Texts}
use engineering_flow_platfor.Base.{
  ◌+◌, ◌*◌, String, Bool, false, not, ◌&&◌, ◌||◌, Option, none, some, List, [], ◌∷◌, ◌++◌, map,
  if◌then◌else◌, ◌==◌, nat_eq, string_eq, pair_eq, select, contains, is_empty, Dict, lookup, insert,
  map_values,
}
use engineering_flow_platfor.Base.Value.{
  Value, str, list, dict, Items, nil, cons, Fields, truthy, or_else, as_dict, get, has, to_text,
}
use Prim.Native.String.{◌++◌ as text_append}
pub mod Tables
pub mod Collect
pub mod Builtins
pub mod Skills
pub mod Build
mod Tests
pub use Tables.*
unfoldable pub use Collect.*

unfoldable pub default_permission_baseline : Bool → Bool → Permission
default_permission_baseline profile_policy allow_bash_all =
    if profile_policy
    then profile_policy_permission_baseline
    else workspace_full_access_permission_baseline allow_bash_all

-- whether two sets have a common element
abbrev pub meets : List String → List String → Bool
meets [] ys = false
meets (x ∷ xs) ys = contains x ys || meets xs ys

abbrev and_then : Option Permission → (Permission → Option Permission) → Option Permission
and_then none f = none
and_then (some p) f = f p

abbrev pub deny_bash : Option Rule → Rule
deny_bash (some (patterns d)) = patterns (insert "*" "deny" (map_values (λ w. "deny") d))
deny_bash _ = patterns (("*", "deny") ∷ [])

-- `permission["skill"]["*"] = "deny"`, which raises when there is no dict
abbrev pub deny_skill : Option Rule → Permission → Option Permission
deny_skill (some (patterns d)) p = some (insert "skill" (patterns (insert "*" "deny" d)) p)
deny_skill _ p = none

abbrev pub deny_builtin : String → Permission → Option Permission
deny_builtin key p =
    if key == "bash"
    then some (insert "bash" (deny_bash (lookup "bash" p)) p)
    else if key == "skill"
    then deny_skill (lookup "skill" p) p
    else some (insert key (plain "deny") p)

abbrev pub is_denied_builtin : List String → List String → String → List String → Bool
is_denied_builtin denied_actions denied_types key aliases =
    contains "tool" denied_types
    || meets aliases denied_actions
    || key == "bash" && contains "shell" denied_types

unfoldable pub apply_builtin_denies :
    List String → List String → Dict String (List String) → Permission → Option Permission
apply_builtin_denies denied_actions denied_types [] p = some p
apply_builtin_denies denied_actions denied_types ((key, aliases) ∷ more) p =
    let others = apply_builtin_denies denied_actions denied_types more in
    if is_denied_builtin denied_actions denied_types key aliases
    then and_then (deny_builtin key p) others
    else others p

-- what `for i in skills` runs over: a text and a dict have no dicts in them
abbrev pub iterated : Value → Option Items
iterated (list vs) = some vs
iterated (str s) = some nil
iterated (dict fs) = some nil
iterated _ = none

-- `isinstance(i, dict) and i.get("opencode_name")`
abbrev pub named : Value → List Fields
named (dict fs) = if truthy (get "opencode_name" fs) then fs ∷ [] else []
named _ = []

abbrev pub named_skills : Items → List Fields
named_skills nil = []
named_skills (cons v vs) = named v ++ named_skills vs

abbrev pub known_of : Option Items → Option (List Fields)
known_of none = none
known_of (some vs) = some (named_skills vs)

abbrev pub known_skills : Value → Option (List Fields)
known_skills (dict index) =
    if has "skills" index then known_of (iterated (get "skills" index)) else some []
known_skills _ = some []

abbrev pub norms : Texts → List String → List String
norms t xs = map (λ x. norm t (str x)) xs

abbrev pub skill_name : Texts → Fields → String
skill_name t skill = to_text t.repr (get "opencode_name" skill)

unfoldable pub skill_aliases : Texts → Fields → List String
skill_aliases t skill =
    let name = skill_name t skill in
    let efp_name = to_text t.repr (or_else (get "efp_name" skill) (str "")) in
    select (λ a. not (is_empty a))
      (norms t (
        name
        ∷ efp_name
        ∷ text_append "skill:" name
        ∷ text_append "skill:" efp_name
        ∷ text_append "opencode.skill." name
        ∷ []))

unfoldable pub denies_all_skills : Texts → Rules → Bool
denies_all_skills t r =
    contains "tool" (norms t r.denied_types)
    || contains "skill" (norms t r.denied_types)
    || contains "skill" (norms t r.denied_actions)
    || contains "opencode.builtin.skill" (norms t r.denied_actions)
    || contains "*" (norms t r.denied_skill_names)

unfoldable pub allows_all_skills : Texts → Rules → Bool
allows_all_skills t r =
    contains "*" (norms t r.allowed_skill_names)
    || contains "skill" (norms t r.allowed_types)
    || contains "skill" (norms t (r.allowed_ids ++ r.allowed_actions))
    || contains "opencode.builtin.skill" (norms t (r.allowed_ids ++ r.allowed_actions))

-- the word that is written for a skill, if one is
unfoldable pub decide_skill : Texts → Rules → Fields → Option String
decide_skill t r skill =
    let aliases = skill_aliases t skill in
    if denies_all_skills t r
      || meets aliases (norms t r.denied_actions)
      || meets aliases (norms t r.denied_skill_names)
    then some "deny"
    else if allows_all_skills t r
        || meets aliases (norms t (r.allowed_ids ++ r.allowed_actions))
        || meets aliases (norms t r.allowed_skill_names)
    then some "allow"
    else none

abbrev pub write_skill : String → Option String → Dict String String → Dict String String
write_skill name none d = d
write_skill name (some word) d = insert name word d

unfoldable pub write_skills : Texts → Rules → List Fields → Dict String String → Dict String String
write_skills t r [] d = d
write_skills t r (skill ∷ skills) d =
    write_skills t r skills (write_skill (skill_name t skill) (decide_skill t r skill) d)

abbrev pub patterns_of : Option Rule → Dict String String
patterns_of (some (patterns d)) = d
patterns_of _ = []

unfoldable pub skill_rule : Texts → Rules → List Fields → Permission → Dict String String
skill_rule t r skills p = write_skills t r skills (
    insert "*" (if denies_all_skills t r then "deny" else "allow") (patterns_of (lookup "skill" p)))

unfoldable pub write_permission :
    Texts → Rules → Option (List Fields) → Permission → Option Permission
write_permission t r none p = none
write_permission t r (some skills) p = some (insert "skill" (patterns (skill_rule t r skills p)) p)

unfoldable pub build_permission : Texts → Value → Value → Bool → Bool → Option Permission
build_permission t config skills_index profile_policy allow_bash_all =
    let r = collect_allowed_and_denied t (as_dict config) in
    let p = default_permission_baseline profile_policy allow_bash_all in
    and_then
      (if profile_policy
        then apply_builtin_denies r.denied_actions r.denied_types builtin_permission_aliases p
        else some p)
      (write_permission t r (known_skills skills_index))

abbrev pub word_or : Option String → String → String
word_or none other = other
word_or (some w) other = w

unfoldable pub skill_permission_state : Texts → Permission → String → String
skill_permission_state t p name = elim (lookup "skill" p) [
  | none ↦ "allowed"
  | some rule ↦ elim rule [
    | plain w ↦ "allowed"
    | patterns d ↦
        let word = norm t (str (word_or (lookup name d) (word_or (lookup "*" d) "allow"))) in
        if word == "deny" then "denied" else if word == "ask" then "ask" else "allowed"
  ]
]
