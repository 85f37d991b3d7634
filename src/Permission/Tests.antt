-- ===== src/Permission/Tests.antt =====
-- Runs of permission_generator.py on concrete input.
use engineering_flow_platfor.Base.Interpreter.{Texts}
use engineering_flow_platfor.Base.{
  String, ◌≡◌, ◌≢◌, arith, eq_iff, refl, sym, ap, ◌∙◌, inl, inr, true, some, List, [], ◌∷◌, arith,
  nat_eq, string_eq, pair_eq, In, In-cons, strip,
}
use engineering_flow_platfor.Base.Value.{Value, str, list, dict, nil, cons, Fields, end, field}
use engineering_flow_platfor.Permission.{
  Permission, norm, skill_name, skill_aliases, decide_skill, denies_all_skills, build_permission,
  skill_permission_state, collect_allowed_and_denied,
}
use engineering_flow_platfor.Permission.Build.{rules, deny_all_skills_lem}

-- the texts of the tests are in lower case
abbrev lower_case : Texts
lower_case = record { repr = λ v. ""; lower = λ s. s }

abbrev review : Fields
review = field "opencode_name" (str "review") end

abbrev plan : Fields
plan = field "opencode_name" (str "plan") (field "efp_name" (str "plan_it") end)

abbrev index : Value
index = dict (field "skills" (list (cons (dict review) (cons (dict plan) nil))) end)

-- denies the writing tool and one skill
abbrev restricted : Value
restricted =
    dict (field "denied_actions" (list (cons (str "write") (cons (str "skill:plan_it") nil))) end)

abbrev no_skills : Value
no_skills = dict (field "derived_runtime_rules" (dict (field "denied_skills" (str "*") end)) end)

abbrev skills : List Fields
skills = review ∷ plan ∷ []

deny_all : denies_all_skills lower_case (rules lower_case no_skills index true skills) ≡ true
unfolding denies_all_skills collect_allowed_and_denied norm strip
deny_all = refl

deny_all_skills_lem_example :
    (q : Permission) × (build_permission lower_case no_skills index true true ≡ some q)
    × (skill_permission_state lower_case q "other" ≡ "denied")
deny_all_skills_lem_example =
    deny_all_skills_lem lower_case no_skills index true skills true "other" refl refl deny_all

plan_denied :
    decide_skill lower_case (rules lower_case restricted index true skills) plan ≡ some "deny"
unfolding decide_skill skill_aliases denies_all_skills collect_allowed_and_denied norm strip
plan_denied = refl

different : ◌≢◌ {A = String} "review" "plan"
different e = ground (arith, (eq_iff "review" "plan").1 e)

only_plan :
    (s : Fields)
    → In s skills
    → skill_name lower_case s ≡ "plan"
    → decide_skill lower_case (rules lower_case restricted index true skills) s ≡ some "deny"
only_plan s i e = elim (In-cons i) [
  | inl same ↦ absurd (different (sym (ap (skill_name lower_case) same) ∙ e))
  | inr rest ↦ elim (In-cons rest) [
    | inl same ↦
        ap (decide_skill lower_case (rules lower_case restricted index true skills)) same
        ∙ plan_denied
    | inr nothing ↦ elim nothing [ ]
  ]
]
