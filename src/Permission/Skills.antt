-- ===== src/Permission/Skills.antt =====
-- What `build_permission` of permission_generator.py returns.
use engineering_flow_platfor.Base.Interpreter.{Texts}
use engineering_flow_platfor.Base.{
  String, ◌≡◌, refl, sym, ap, ◌∙◌, inl, inr, Bool, true, false, none, some, List, [], ◌∷◌, arith,
  eq_iff, ◌==◌, nat_eq, string_eq, pair_eq, Bool-cases, Option-cases, some_inj, In, here, there,
  In-cons, Dict, lookup, insert, lookup-insert,
}
use engineering_flow_platfor.Base.Value.{Fields}
use engineering_flow_platfor.Permission.{
  Permission, Rules, default_permission_baseline, skill_name, decide_skill, denies_all_skills,
  write_skills, skill_rule, word_or,
}
use engineering_flow_platfor.Permission.Builtins.{IsReady, ready}

pub baseline-IsReady :
    (profile_policy allow : Bool) → IsReady (default_permission_baseline profile_policy allow)
unfolding default_permission_baseline lookup
baseline-IsReady true allow = ready (("*", "allow") ∷ []) refl (λ n f. rw f refl)
baseline-IsReady false allow = ready (("*", "allow") ∷ []) refl (λ n f. rw f refl)

-- the word for a skill in its dict
abbrev pub word_of : String → Dict String String → String
word_of n d = word_or (lookup n d) (word_or (lookup "*" d) "allow")

unfoldable pub AllDeny : Dict String String → Type 0
AllDeny d = (lookup "*" d ≡ some "deny") × ((n w : String) → lookup n d ≡ some w → w ≡ "deny")

pub AllDeny-word : (n : String) (d : Dict String String) → AllDeny d → word_of n d ≡ "deny"
unfolding AllDeny
AllDeny-word n d h = elim (Option-cases (lookup n d)) [
  | inl absent ↦ rw (absent, h.0) refl
  | inr (w, p) ↦ rw p (h.1 n w p)
]

insert-AllDeny : (k : String) (d : Dict String String) → AllDeny d → AllDeny (insert k "deny" d)
unfolding AllDeny
insert-AllDeny k d h = (
  ground (arith, lookup-insert k "*" "deny" d, h.0),
  λ n w p. elim (Bool-cases (k == n)) [
    | inl t ↦ sym (some_inj (rw t at (sym (lookup-insert k n "deny" d) ∙ p)))
    | inr f ↦ h.1 n w (rw f at (sym (lookup-insert k n "deny" d) ∙ p))
  ],
)

module _ (t : Texts) (r : Rules) where
  decide-deny_all :
      (skill : Fields) → denies_all_skills t r ≡ true → decide_skill t r skill ≡ some "deny"
  unfolding decide_skill
  decide-deny_all skill h = rw h refl

  write_skills-AllDeny :
      (skills : List Fields) (d : Dict String String)
      → denies_all_skills t r ≡ true
      → AllDeny d
      → AllDeny (write_skills t r skills d)
  unfolding write_skills
  write_skills-AllDeny [] d h all = all
  write_skills-AllDeny (skill ∷ skills) d h all =
      write_skills-AllDeny skills _ h
        (rw (decide-deny_all skill h) (insert-AllDeny (skill_name t skill) d all))

  star-AllDeny :
      (d : Dict String String)
      → ((n : String) → ("*" == n) ≡ false → lookup n d ≡ none)
      → AllDeny (insert "*" "deny" d)
  unfolding AllDeny
  star-AllDeny d only = (
    lookup-insert "*" "*" "deny" d,
    λ n w p. elim (Bool-cases ("*" == n)) [
      | inl s ↦ sym (some_inj (rw s at (sym (lookup-insert "*" n "deny" d) ∙ p)))
      | inr f ↦
          absurd (ground (arith, rw (f, only n f) at (sym (lookup-insert "*" n "deny" d) ∙ p)))
    ],
  )

  pub skill_rule-AllDeny :
      (skills : List Fields) (p : Permission)
      → denies_all_skills t r ≡ true
      → IsReady p
      → AllDeny (skill_rule t r skills p)
  unfolding skill_rule
  skill_rule-AllDeny skills p h (ready d found only) =
      write_skills-AllDeny skills _ h (rw (h, found) (star-AllDeny d only))

  -- a word that is decided for every entry of a name stays once it is written
  write_skills-settled :
      (n w : String) (skills : List Fields) (d : Dict String String)
      → lookup n d ≡ some w
      → ((s : Fields) → In s skills → skill_name t s ≡ n → decide_skill t r s ≡ some w)
      → lookup n (write_skills t r skills d) ≡ some w
  unfolding write_skills
  write_skills-settled n w [] d h same = h
  write_skills-settled n w (skill ∷ skills) d h same =
      write_skills-settled n w skills _
        (elim (Bool-cases (skill_name t skill == n)) [
          | inl e ↦
              rw (same skill (here refl) ((eq_iff (skill_name t skill) n).0 e))
                (lookup-insert (skill_name t skill) n w d ∙ rw e refl)
          | inr f ↦ elim (Option-cases (decide_skill t r skill)) [
            | inl none_written ↦ rw none_written h
            | inr (v, q) ↦ rw q (lookup-insert (skill_name t skill) n v d ∙ rw f h)
          ]
        ])
        (λ s i. same s (there i))

  pub write_skills-decided :
      (n w : String) (skills : List Fields) (d : Dict String String) (one : Fields)
      → In one skills
      → skill_name t one ≡ n
      → ((s : Fields) → In s skills → skill_name t s ≡ n → decide_skill t r s ≡ some w)
      → lookup n (write_skills t r skills d) ≡ some w
  unfolding write_skills
  write_skills-decided n w [] d one i e same = elim i [ ]
  write_skills-decided n w (skill ∷ skills) d one i e same = elim (In-cons i) [
    | inl q ↦
        let is_it : skill_name t skill ≡ n = ap (skill_name t) (sym q) ∙ e in
        write_skills-settled n w skills _
          (rw (same skill (here refl) is_it) (
            lookup-insert (skill_name t skill) n w d
            ∙ rw ((eq_iff (skill_name t skill) n).1 is_it) refl))
          (λ s i. same s (there i))
    | inr rest ↦ write_skills-decided n w skills _ one rest e (λ s i. same s (there i))
  ]
