-- ===== src/Permission/Build.antt =====
-- `build_permission` of permission_generator.py as a whole.
use engineering_flow_platfor.Base.Interpreter.{Texts}
use engineering_flow_platfor.Base.{
  String, ◌≡◌, refl, ap, ◌∙◌, Bool, true, false, some, List, arith, eq_iff, ◌==◌, nat_eq, string_eq,
  pair_eq, In, strip, Dict, lookup, insert, lookup-insert,
}
use engineering_flow_platfor.Base.Value.{Value, Fields, as_dict}
use engineering_flow_platfor.Permission.{
  patterns, Permission, Rules, norm, builtin_permission_aliases, is_denied_builtin,
  default_permission_baseline, known_skills, skill_name, decide_skill, denies_all_skills,
  skill_rule, write_permission, build_permission, skill_permission_state,
  collect_allowed_and_denied, profile_policy_permission_baseline,
  workspace_full_access_permission_baseline,
}
use engineering_flow_platfor.Permission.Builtins.{
  IsReady, Denied, denied, Loop, apply_builtin_denies_lem,
}
use engineering_flow_platfor.Permission.Skills.{
  AllDeny-word, baseline-IsReady, skill_rule-AllDeny, write_skills-decided,
}

module _ (t : Texts) (config index : Value) (allow : Bool) (skills : List Fields) where
  abbrev pub rules : Rules
  rules = collect_allowed_and_denied t (as_dict config)

  -- the permission before the skills are written
  pub data Built (profile_policy : Bool) : Type 0 where
    built :
        (p : Permission)
        → IsReady p
        → build_permission t config index profile_policy allow
          ≡ some (insert "skill" (patterns (skill_rule t rules skills p)) p)
        → (profile_policy ≡ true
            → Loop rules.denied_actions rules.denied_types builtin_permission_aliases
                profile_policy_permission_baseline p)
        → (profile_policy ≡ false → p ≡ workspace_full_access_permission_baseline allow)
        → Built profile_policy

  pub build_permission-Built :
      (profile_policy : Bool) → known_skills index ≡ some skills → Built profile_policy
  unfolding build_permission write_permission default_permission_baseline
  build_permission-Built true known =
      let (q, same, l) =
        apply_builtin_denies_lem rules.denied_actions rules.denied_types builtin_permission_aliases
          profile_policy_permission_baseline (baseline-IsReady true allow) in
      built q l.is_ready (rw (same, known) refl) (λ e. l) (λ e. absurd (ground (arith, e)))
  build_permission-Built false known =
      built (workspace_full_access_permission_baseline allow) (baseline-IsReady false allow)
        (rw known refl) (λ e. absurd (ground (arith, e))) (λ e. refl)

  -- What is written for the skills is under "skill"; the other rules are not touched.
  skill_found :
      (p : Permission)
      → lookup "skill" (insert "skill" (patterns (skill_rule t rules skills p)) p)
        ≡ some (patterns (skill_rule t rules skills p))
  skill_found p = lookup-insert "skill" "skill" (patterns (skill_rule t rules skills p)) p

  other_found :
      (k : String) (p : Permission)
      → ("skill" == k) ≡ false
      → lookup k (insert "skill" (patterns (skill_rule t rules skills p)) p) ≡ lookup k p
  other_found k p f = lookup-insert "skill" k (patterns (skill_rule t rules skills p)) p ∙ rw f refl

  -- For an index of skills that can be read: when the profile denies all skills, under whichever of the
  -- five spellings, the permission is built and every skill is denied in it, known or not, whatever else
  -- is allowed. `str.lower` is taken to keep "deny".
  pub deny_all_skills_lem :
      (profile_policy : Bool) (name : String)
      → t.lower "deny" ≡ "deny"
      → known_skills index ≡ some skills
      → denies_all_skills t rules ≡ true
      → (q : Permission) × (build_permission t config index profile_policy allow ≡ some q)
        × (skill_permission_state t q name ≡ "denied")
  unfolding skill_permission_state norm strip
  deny_all_skills_lem profile_policy name low known all =
      elim (build_permission-Built profile_policy known) [
        | built p r same policy full ↦ (
          insert "skill" (patterns (skill_rule t rules skills p)) p,
          same,
          rw
              (
                skill_found p,
                skill_permission_state,
                AllDeny-word name (skill_rule t rules skills p)
                    (skill_rule-AllDeny t rules skills p all r),
                low,
              )
              refl,
        )
      ]

  -- For an index of skills that can be read: when a skill of a name is known and every known skill of
  -- that name gets the same word, that word stands for the name in the permission that is built.
  pub skill_decided :
      (profile_policy : Bool) (name word : String) (one : Fields)
      → known_skills index ≡ some skills
      → In one skills
      → skill_name t one ≡ name
      → ((s : Fields) → In s skills → skill_name t s ≡ name → decide_skill t rules s ≡ some word)
      → (q : Permission) × (d : Dict String String) × (build_permission t config index
            profile_policy allow
          ≡ some q)
        × (lookup "skill" q ≡ some (patterns d))
        × (lookup name d ≡ some word)
  unfolding skill_rule
  skill_decided profile_policy name word one known i e all_same =
      elim (build_permission-Built profile_policy known) [
        | built p r same policy full ↦ (
          insert "skill" (patterns (skill_rule t rules skills p)) p,
          skill_rule t rules skills p,
          same,
          skill_found p,
          write_skills-decided t rules name word skills _ one i e all_same,
        )
      ]

  -- For an index of skills that can be read: under the profile's policy a builtin tool that an alias, "tool" or "shell" denies has no rule but
  -- "deny", and one that nothing denies has the rule of the baseline; skills apart.
  pub policy_denies :
      (k : String)
      → known_skills index ≡ some skills
      → ("skill" == k) ≡ false
      → (q : Permission) × (build_permission t config index true allow ≡ some q)
        × ((aliases : List String)
            → In (k, aliases) builtin_permission_aliases
            → is_denied_builtin rules.denied_actions rules.denied_types k aliases ≡ true
            → Denied k q)
        × (((e : String × List String)
              → In e builtin_permission_aliases
              → e.0 ≡ k
              → is_denied_builtin rules.denied_actions rules.denied_types e.0 e.1 ≡ false)
            → lookup k q ≡ lookup k profile_policy_permission_baseline)
  policy_denies k known f = elim (build_permission-Built true known) [
    | built p r same policy full ↦
        let l = policy refl in
        (
          insert "skill" (patterns (skill_rule t rules skills p)) p,
          same,
          λ aliases i asked.
              elim (l.asked_are_denied (k, aliases) i asked
                (ground (arith, f, eq_iff "skill" k, eq_iff k "skill"))) [
                  | denied w found h ↦ denied w (other_found k p f ∙ found) h
                ],
          λ none_asked. other_found k p f ∙ l.others_stay k none_asked,
        )
  ]

  -- For an index of skills that can be read: with full access, the profile changes no rule but that of
  -- skills.
  pub full_access_keeps_baseline :
      (k : String)
      → known_skills index ≡ some skills
      → ("skill" == k) ≡ false
      → (q : Permission) × (build_permission t config index false allow ≡ some q)
        × (lookup k q ≡ lookup k (workspace_full_access_permission_baseline allow))
  full_access_keeps_baseline k known f = elim (build_permission-Built false known) [
    | built p r same policy full ↦ (
      insert "skill" (patterns (skill_rule t rules skills p)) p,
      same,
      other_found k p f ∙ ap (lookup k) (full refl),
    )
  ]
