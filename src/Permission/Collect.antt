-- ===== src/Permission/Collect.antt =====
-- The rules that permission_generator.py collects from the runtime profile.
use engineering_flow_platfor.Base.Interpreter.{Texts}
use engineering_flow_platfor.Base.{
  String, Bool, ◌||◌, List, [], ◌∷◌, ◌++◌, map, if◌then◌else◌, ◌==◌, nat_eq, string_eq, pair_eq,
  is_empty, strip,
}
use engineering_flow_platfor.Base.Value.{
  Value, str, list, dict, Items, nil, cons, Fields, truthy, as_dict, get, to_text,
}

-- `_norm`
unfoldable pub norm : Texts → Value → String
norm t v = t.lower (strip (if truthy v then to_text t.repr v else ""))

unfoldable pub is_profile_policy : Texts → Value → Bool
unfolding norm
is_profile_policy t raw =
    let value = norm t raw in
    value == "profile_policy"
    || value == "profile-policy"
    || value == "policy"
    || value == "restricted"

abbrev pub items_texts : Texts → Items → List String
items_texts t nil = []
items_texts t (cons v vs) = to_text t.repr v ∷ items_texts t vs

abbrev pub as_set : Texts → Value → List String
as_set t (list vs) = items_texts t vs
as_set t _ = []

abbrev pub name_list : Value → List String
name_list (str s) = if is_empty (strip s) then [] else strip s ∷ []
name_list _ = []

abbrev pub item_names : Items → List String
item_names nil = []
item_names (cons v vs) = name_list v ++ item_names vs

abbrev pub as_name_set : Value → List String
as_name_set (list vs) = item_names vs
as_name_set v = name_list v

pub record Rules : Type 0 where
  pub allowed_ids : List String
  pub allowed_actions : List String
  pub allowed_types : List String
  pub denied_actions : List String
  pub denied_types : List String
  pub allowed_external_systems : List String
  pub allowed_skill_names : List String
  pub denied_skill_names : List String

abbrev no_rules : Rules
no_rules = record {
  allowed_ids = [];
  allowed_actions = [];
  allowed_types = [];
  denied_actions = [];
  denied_types = [];
  allowed_external_systems = [];
  allowed_skill_names = [];
  denied_skill_names = [];
}

abbrev pub merge_rule_block : Texts → Value → Rules → Rules
merge_rule_block t (dict block) r = record {
  allowed_ids = r.allowed_ids ++ as_set t (get "allowed_capability_ids" block);
  allowed_actions =
      r.allowed_actions
      ++ as_set t (get "allowed_actions" block)
      ++ as_set t (get "allowed_adapter_actions" block);
  allowed_types = r.allowed_types ++ as_set t (get "allowed_capability_types" block);
  denied_actions = r.denied_actions ++ as_set t (get "denied_actions" block);
  denied_types = r.denied_types ++ as_set t (get "denied_capability_types" block);
  allowed_external_systems =
      r.allowed_external_systems ++ map t.lower (as_set t (get "allowed_external_systems" block));
  allowed_skill_names =
      r.allowed_skill_names
      ++ as_name_set (get "allowed_skills" block)
      ++ as_name_set (get "skill_set" block);
  denied_skill_names = r.denied_skill_names ++ as_name_set (get "denied_skills" block);
}
merge_rule_block t _ r = r

-- the rules of `llm.tools`
abbrev pub merge_llm_tools : Texts → Value → Rules → Rules
merge_llm_tools t (list vs) r = record r {
  allowed_ids = r.allowed_ids ++ items_texts t vs;
  allowed_actions = r.allowed_actions ++ items_texts t vs;
}
merge_llm_tools t (dict tools) r =
    let allow_vals =
      as_set t (get "allow" tools)
      ++ as_set t (get "allowed" tools)
      ++ as_set t (get "allowed_capability_ids" tools)
      ++ as_set t (get "allowed_actions" tools) in
    let deny_vals =
      as_set t (get "deny" tools)
      ++ as_set t (get "denied" tools)
      ++ as_set t (get "denied_actions" tools) in
    record {
      allowed_ids = r.allowed_ids ++ allow_vals;
      allowed_actions = r.allowed_actions ++ allow_vals;
      allowed_types = r.allowed_types ++ as_set t (get "allowed_capability_types" tools);
      denied_actions = r.denied_actions ++ deny_vals;
      denied_types = r.denied_types ++ as_set t (get "denied_capability_types" tools);
      allowed_external_systems =
          r.allowed_external_systems
          ++ map t.lower (as_set t (get "allowed_external_systems" tools));
      allowed_skill_names = r.allowed_skill_names ++ as_name_set (get "allowed_skills" tools);
      denied_skill_names = r.denied_skill_names ++ as_name_set (get "denied_skills" tools);
    }
merge_llm_tools t _ r = r

unfoldable pub collect_allowed_and_denied : Texts → Fields → Rules
collect_allowed_and_denied t config = merge_rule_block t (get "policy_context" config) (
    merge_rule_block t (get "derived_runtime_rules" config) (
      merge_llm_tools t (get "tools" (as_dict (get "llm" config)))
        (merge_rule_block t (dict config) no_rules)))
