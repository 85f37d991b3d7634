-- ===== src/Permission/Builtins.antt =====
-- What `_apply_builtin_denies` of permission_generator.py does to each rule.
use engineering_flow_platfor.Base.{
  String, ◌≡◌, refl, sym, ap, ◌∙◌, inl, inr, true, false, Option, none, some, List, [], ◌∷◌, arith,
  eq_iff, ◌==◌, nat_eq, string_eq, pair_eq, Bool-cases, All, In, here, there, In-cons, Dict, lookup,
  insert, lookup-insert, insert-All, map_values,
}
use mathlib.Core.Path.{subst}
use engineering_flow_platfor.Permission.{
  Rule, plain, patterns, Permission, deny_bash, deny_builtin, is_denied_builtin,
  apply_builtin_denies,
}

-- Every word of the rule is "deny".
pub data IsDenied : Rule → Type 0 where
  word : (w : String) → w ≡ "deny" → IsDenied (plain w)
  every_pattern : (d : Dict String String) → All (λ p. p.1 ≡ "deny") d → IsDenied (patterns d)

-- The rule of skills is a dict whose only pattern is "*".
pub data IsReady (p : Permission) : Type 0 where
  ready :
      (d : Dict String String)
      → lookup "skill" p ≡ some (patterns d)
      → ((n : String) → ("*" == n) ≡ false → lookup n d ≡ none)
      → IsReady p

pub data Denied (k : String) (p : Permission) : Type 0 where
  denied : (r : Rule) → lookup k p ≡ some r → IsDenied r → Denied k p

All-denied : (d : Dict String String) → All (λ p. p.1 ≡ "deny") (map_values (λ w. "deny") d)
unfolding map_values
All-denied [] = tt
All-denied ((k, w) ∷ d) = (refl, All-denied d)

deny_bash-IsDenied : (o : Option Rule) → IsDenied (deny_bash o)
deny_bash-IsDenied none = every_pattern _ (refl, tt)
deny_bash-IsDenied (some (plain w)) = every_pattern _ (refl, tt)
deny_bash-IsDenied (some (patterns d)) =
    every_pattern _
      (insert-All (λ w. w ≡ "deny") "*" "deny" (map_values (λ w. "deny") d) refl (All-denied d))

-- what one step of the loop leaves: its own rule denied, the others as they were
pub data Step (key : String) (p q : Permission) : Type 0 where
  step :
      IsReady q
      → ((key == "skill") ≡ false → Denied key q)
      → ((k : String) → (key == k) ≡ false → lookup k q ≡ lookup k p)
      → Step key p q

found_at : (k : String) (r : Rule) (p : Permission) → lookup k (insert k r p) ≡ some r
found_at k r p = lookup-insert k k r p ∙ rw ((eq_iff k k).1 refl) refl

found_off :
    (k j : String) (r : Rule) (p : Permission)
    → (k == j) ≡ false
    → lookup j (insert k r p) ≡ lookup j p
found_off k j r p f = lookup-insert k j r p ∙ rw f refl

insert-Step :
    (key : String) (r : Rule) (p : Permission)
    → IsReady p
    → (key == "skill") ≡ false
    → IsDenied r
    → Step key p (insert key r p)
insert-Step key r p (ready d found only) f h =
    step (ready d (found_off key "skill" r p f ∙ found) only) (λ g. denied r (found_at key r p) h)
      (λ k n. found_off key k r p n)

skill-Step :
    (d : Dict String String) (p : Permission)
    → ((n : String) → ("*" == n) ≡ false → lookup n d ≡ none)
    → Step "skill" p (insert "skill" (patterns (insert "*" "deny" d)) p)
skill-Step d p only =
    step
      (ready (insert "*" "deny" d) (found_at "skill" _ p)
        (λ n f. lookup-insert "*" n "deny" d ∙ rw f (only n f)))
      (λ g. absurd (ground (arith, g))) (λ k n. found_off "skill" k _ p n)

deny_builtin-Step :
    (key : String) (p : Permission)
    → IsReady p
    → (q : Permission) × (deny_builtin key p ≡ some q) × Step key p q
deny_builtin-Step key p h = elim (Bool-cases (key == "bash")) [
  | inl t ↦ (
    insert "bash" (deny_bash (lookup "bash" p)) p,
    rw t refl,
    subst (λ k. Step k p (insert "bash" (deny_bash (lookup "bash" p)) p))
        (sym ((eq_iff key "bash").0 t))
        (insert-Step "bash" (deny_bash (lookup "bash" p)) p h refl
          (deny_bash-IsDenied (lookup "bash" p))),
  )
  | inr b ↦ elim (Bool-cases (key == "skill")) [
    | inl t ↦ elim h [
      | ready d found only ↦ (
        insert "skill" (patterns (insert "*" "deny" d)) p,
        rw (b, t, found) refl,
        subst (λ k. Step k p (insert "skill" (patterns (insert "*" "deny" d)) p))
            (sym ((eq_iff key "skill").0 t)) (skill-Step d p only),
      )
    ]
    | inr f ↦ (
      insert key (plain "deny") p,
      rw (b, f) refl,
      insert-Step key (plain "deny") p h f (word "deny" refl),
    )
  ]
]

step-IsReady : (key : String) (p q : Permission) → Step key p q → IsReady q
step-IsReady key p q (step r here_denied others) = r

step_keeps_Denied :
    (key k : String) (p q : Permission)
    → (k == "skill") ≡ false
    → Step key p q
    → Denied k p
    → Denied k q
step_keeps_Denied key k p q g (step r here_denied others) (denied w found h) =
    elim (Bool-cases (key == k)) [
      | inl t ↦
          let same = (eq_iff key k).0 t in
          subst (λ j. Denied j q) same
            (here_denied (subst (λ j. (j == "skill") ≡ false) (sym same) g))
      | inr f ↦ denied w (others k f ∙ found) h
    ]

module _ (denied_actions denied_types : List String) where
  abbrev Asked : String × List String → Type 0
  Asked e = is_denied_builtin denied_actions denied_types e.0 e.1 ≡ true

  -- What the loop over the table leaves: a denied tool but "skill" has only "deny", other rules are as before.
  pub record Loop (table : Dict String (List String)) (p q : Permission) : Type 0 where
    pub is_ready : IsReady q
    pub asked_are_denied :
        (e : String × List String) → In e table → Asked e → (e.0 == "skill") ≡ false → Denied e.0 q
    pub denied_stay : (k : String) → (k == "skill") ≡ false → Denied k p → Denied k q
    pub others_stay :
        (k : String)
        → ((e : String × List String)
            → In e table
            → e.0 ≡ k
            → is_denied_builtin denied_actions denied_types e.0 e.1 ≡ false)
        → lookup k q ≡ lookup k p

  skip_entry :
      (e : String × List String) (table : Dict String (List String)) (p q : Permission)
      → is_denied_builtin denied_actions denied_types e.0 e.1 ≡ false
      → Loop table p q
      → Loop (e ∷ table) p q
  skip_entry e table p q unasked l = record {
    is_ready = l.is_ready;
    asked_are_denied = λ x i asked g. elim (In-cons i) [
      | inl same ↦ absurd (
          ground (
            arith,
            asked,
            unasked,
            ap (λ y. is_denied_builtin denied_actions denied_types y.0 y.1) same,
          ))
      | inr rest ↦ l.asked_are_denied x rest asked g
    ];
    denied_stay = l.denied_stay;
    others_stay = λ k none_asked. l.others_stay k (λ x i. none_asked x (there i));
  }

  take_entry :
      (e : String × List String) (table : Dict String (List String)) (p m q : Permission)
      → is_denied_builtin denied_actions denied_types e.0 e.1 ≡ true
      → Step e.0 p m
      → Loop table m q
      → Loop (e ∷ table) p q
  take_entry e table p m q hit (step r here_denied others) l = record {
    is_ready = l.is_ready;
    asked_are_denied = λ x i asked g. elim (In-cons i) [
      | inl same ↦
          l.denied_stay x.0 g
            (subst (λ y. (y.0 == "skill") ≡ false → Denied y.0 m) (sym same) here_denied g)
      | inr rest ↦ l.asked_are_denied x rest asked g
    ];
    denied_stay =
        λ k g h. l.denied_stay k g (step_keeps_Denied e.0 k p m g (step r here_denied others) h);
    others_stay = λ k none_asked. elim (Bool-cases (e.0 == k)) [
      | inl t ↦ absurd (ground (arith, hit, none_asked e (here refl) ((eq_iff e.0 k).0 t)))
      | inr f ↦ l.others_stay k (λ x i. none_asked x (there i)) ∙ others k f
    ];
  }

  -- The denies of the builtin tools never raise where the skills have a dict of the pattern "*". A
  -- tool that an alias, "tool" or "shell" denies has nothing but "deny" afterwards, "skill" apart;
  -- the rule of a tool that nothing denies is as before.
  pub apply_builtin_denies_lem :
      (table : Dict String (List String)) (p : Permission)
      → IsReady p
      → (q : Permission) × (apply_builtin_denies denied_actions denied_types table p ≡ some q)
        × Loop table p q
  unfolding apply_builtin_denies
  apply_builtin_denies_lem [] p h = (
    p,
    refl,
    record {
      is_ready = h;
      asked_are_denied = λ e i. elim i [ ];
      denied_stay = λ k g d. d;
      others_stay = λ k none_asked. refl;
    },
  )
  apply_builtin_denies_lem ((key, aliases) ∷ table) p h =
      elim (Bool-cases (is_denied_builtin denied_actions denied_types key aliases)) [
        | inr unasked ↦
            let (q, same, l) = apply_builtin_denies_lem table p h in
            (q, rw unasked same, skip_entry (key, aliases) table p q unasked l)
        | inl hit ↦
            let (m, first, st) = deny_builtin-Step key p h in
            let (q, same, l) = apply_builtin_denies_lem table m (step-IsReady key p m st) in
            (q, rw (hit, first) same, take_entry (key, aliases) table p m q hit st l)
      ]
