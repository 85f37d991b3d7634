-- ===== src/ProxyPlan/Tokens.antt =====
-- proxy_plan.py: the tokens of the variables differ, and the search for a token ends.
use Prim.Native.String.{◌++◌ as text_append}
use Prim.Native.String.append
use engineering_flow_platfor.Base.{
  ℕ, zero, suc, ◌+◌, ◌≤◌, ◌<◌, String, ◌≡◌, refl, sym, ap, ◌∙◌, ◌≢◌, inl, inr, true, false, List,
  [], ◌∷◌, arith, eq_iff, if◌then◌else◌, ◌==◌, nat_eq, string_eq, pair_eq, Bool-cases, length, All,
  All-map, contains, Pairwise,
}
use engineering_flow_platfor.Base.Value.{Value}
use engineering_flow_platfor.ProxyPlan.Library.{Library}
use engineering_flow_platfor.ProxyPlan.Texts.{characters}
use engineering_flow_platfor.ProxyPlan.Entries.{ProxyEntry, env_token_of}
use engineering_flow_platfor.ProxyPlan.Build.{
  candidate, unique_from, unique_token, with_tokens, build_proxy_plan, normalize_proxy_section,
}

-- The texts without one of them.
abbrev remove : String → List String → List String
remove s [] = []
remove s (x ∷ xs) = let rest = remove s xs in if x == s then rest else x ∷ rest

length-remove-le : (s : String) (xs : List String) → length (remove s xs) ≤ length xs
length-remove-le s [] = omega arith
length-remove-le s (x ∷ xs) = ground (arith, length-remove-le s xs)

length-remove :
    (s : String) (xs : List String) → contains s xs ≡ true → length (remove s xs) < length xs
length-remove s [] h = cc
length-remove s (x ∷ xs) h = ground (arith, length-remove s xs, length-remove-le s xs)

contains-remove :
    (s r : String) (xs : List String) → s ≢ r → contains r (remove s xs) ≡ contains r xs
contains-remove s r [] other = refl
contains-remove s r (x ∷ xs) other =
    ground (arith, eq_iff x s, eq_iff x r, contains-remove s r xs other)

-- Two texts with the same front differ in their backs only.
append_inj : (front a b : String) → text_append front a ≡ text_append front b → a ≡ b
append_inj String.[] a b h = sym (append.nil a) ∙ h ∙ append.nil b
append_inj (String.◌∷◌ c front) a b h =
    append_inj front a b (tail_inj (sym (append.cons c front a) ∙ h ∙ append.cons c front b))
  where
    tail_inj : {s t : String} → String.◌∷◌ c s ≡ String.◌∷◌ c t → s ≡ t
    tail_inj e = cc

characters-append : (s t : String) → characters (text_append s t) ≡ characters s + characters t
characters-append String.[] t = rw (append.nil t) (omega arith)
characters-append (String.◌∷◌ c s) t = rw (append.cons c s t) (omega (arith, characters-append s t))

append_nothing : (s : String) → text_append s "" ≡ s
append_nothing String.[] = append.nil ""
append_nothing (String.◌∷◌ c s) = append.cons c s "" ∙ ap (String.◌∷◌ c) (append_nothing s)

module _ (text_of_number : ℕ → String)
    (differ : (m n : ℕ) → text_of_number m ≡ text_of_number n → m ≡ n) (token : String) where
  -- A later candidate is another text.
  candidate-differs :
      (m n : ℕ) → m < n → candidate text_of_number token m ≢ candidate text_of_number token n
  unfolding candidate
  candidate-differs m zero h = λ same. absurd (omega (arith, h))
  candidate-differs zero (suc n) h = λ same. absurd (
      omega (
        arith,
        ap characters same,
        characters-append token (text_append "_" (text_append (text_of_number (n + 2)) "")),
        characters-append "_" (text_append (text_of_number (n + 2)) ""),
      ))
  candidate-differs (suc m) (suc n) h = λ same.
      let backs = append_inj "_" _ _ (append_inj token _ _ same) in
      absurd (
        omega (
          arith,
          h,
          differ (m + 2) (n + 2) (
              sym (append_nothing (text_of_number (m + 2)))
              ∙ backs
              ∙ append_nothing (text_of_number (n + 2))),
        ))

  -- The search only asks about the candidates from `n` on.
  unique_from-same :
      (tokens others : List String) (fuel n : ℕ)
      → ((m : ℕ)
          → n ≤ m
          → contains (candidate text_of_number token m) tokens
            ≡ contains (candidate text_of_number token m) others)
      → unique_from text_of_number token tokens fuel n
        ≡ unique_from text_of_number token others fuel n
  unfolding unique_from
  unique_from-same tokens others zero n same = refl
  unique_from-same tokens others (suc fuel) n same =
      rw
        (
          same n (omega arith),
          unique_from-same tokens others fuel (suc n) (λ m h. same m (omega (arith, h))),
        )
        refl

  unique_from-candidate :
      (tokens : List String) (fuel n : ℕ)
      → (m : ℕ) × (n ≤ m)
        × (unique_from text_of_number token tokens fuel n ≡ candidate text_of_number token m)
  unfolding unique_from
  unique_from-candidate tokens zero n = (n, omega arith, refl)
  unique_from-candidate tokens (suc fuel) n =
      let (m, later, is_it) = unique_from-candidate tokens fuel (suc n) in
      elim (Bool-cases (contains (candidate text_of_number token n) tokens)) [
        | inr new ↦ (n, omega arith, rw new refl)
        | inl known ↦ (m, omega (arith, later), rw known is_it)
      ]

  -- What is new among the tokens without the candidate at `n` is new among all, from `n + 1` on.
  new_among_all :
      (fuel : ℕ) (tokens : List String) (n : ℕ)
      → contains
          (unique_from text_of_number token
            (remove (candidate text_of_number token n) tokens)
            fuel
            (suc n))
          (remove (candidate text_of_number token n) tokens)
        ≡ false
      → contains (unique_from text_of_number token tokens fuel (suc n)) tokens ≡ false
  new_among_all fuel tokens n new =
      let others = remove (candidate text_of_number token n) tokens in
      let same = unique_from-same tokens others fuel (suc n) (λ m h. sym (
        contains-remove (candidate text_of_number token n) (candidate text_of_number token m) tokens
          (candidate-differs n m (omega (arith, h))))) in
      let (m, later, is_it) = unique_from-candidate others fuel (suc n) in
      rw (same, is_it)
        (sym (
            contains-remove (candidate text_of_number token n) (candidate text_of_number token m)
              tokens (candidate-differs n m (omega (arith, later))))
          ∙ rw (← is_it) new)

  -- With as much fuel as there are tokens, the search ends at a candidate that is not among them.
  unique_from-new :
      (fuel : ℕ) (tokens : List String) (n : ℕ)
      → length tokens ≤ fuel
      → contains (unique_from text_of_number token tokens fuel n) tokens ≡ false
  unfolding unique_from
  unique_from-new zero [] n h = refl
  unique_from-new zero (x ∷ tokens) n h = absurd (omega (arith, h))
  unique_from-new (suc fuel) tokens n h =
      elim (Bool-cases (contains (candidate text_of_number token n) tokens)) [
        | inr new ↦ rw new new
        | inl known ↦ rw known (
            new_among_all fuel tokens n (
              unique_from-new fuel (remove (candidate text_of_number token n) tokens) (suc n)
                (omega (arith, h, length-remove (candidate text_of_number token n) tokens known))))
      ]

-- Two entries do not share their variables.
abbrev pub OtherToken : ProxyEntry → ProxyEntry → Type 0
OtherToken d e = d.env_token ≢ e.env_token

among_fewer :
    (s r : String) (xs : List String) → contains r (s ∷ xs) ≡ false → contains r xs ≡ false
among_fewer s r xs h = ground arith

first_differs : (s r : String) (xs : List String) → contains r (s ∷ xs) ≡ false → s ≢ r
first_differs s r xs h = ground (arith, eq_iff s r)

module _ (l : Library) (differ : (m n : ℕ) → l.text_of_number m ≡ l.text_of_number n → m ≡ n) where
  -- The search for a token ends within as many turns as there are tokens, and what it finds is none of
  -- them; provided that different numbers have different texts.
  pub unique_token_lem :
      (token : String) (tokens : List String)
      → (contains (unique_token l.text_of_number token tokens) tokens ≡ false)
        × ((n : ℕ) × (unique_token l.text_of_number token tokens
              ≡ candidate l.text_of_number token n))
  unfolding unique_token
  unique_token_lem token tokens =
      let (n, first_one, is_it) =
        unique_from-candidate l.text_of_number differ token tokens (length tokens) 0 in
      (
        unique_from-new l.text_of_number differ token (length tokens) tokens 0 (omega arith),
        (n, is_it),
      )

  -- Each token is new to those before, and the tokens differ.
  with_tokens-new :
      (tokens : List String) (entries : List ProxyEntry)
      → All (λ e. contains e.env_token tokens ≡ false) (with_tokens l tokens entries)
        × Pairwise OtherToken (with_tokens l tokens entries)
  unfolding with_tokens
  with_tokens-new tokens [] = (tt, tt)
  with_tokens-new tokens (e ∷ entries) =
      let token = unique_token l.text_of_number (env_token_of l e.name) tokens in
      let others = with_tokens-new (token ∷ tokens) entries in
      (
        (
          (unique_token_lem (env_token_of l e.name) tokens).0,
          All-map _ _ (λ x h. among_fewer token x.env_token tokens h)
              (with_tokens l (token ∷ tokens) entries) others.0,
        ),
        (
          All-map _ _ (λ x h. first_differs token x.env_token tokens h)
              (with_tokens l (token ∷ tokens) entries) others.0,
          others.1,
        ),
      )

  -- In the plan that is built of any section, no two proxies get the same token, so that none is read
  -- with another one's credentials; provided that different numbers have different texts.
  pub tokens_differ : (raw : Value) → Pairwise OtherToken (build_proxy_plan l raw).entries
  unfolding build_proxy_plan
  tokens_differ raw = (with_tokens-new [] (normalize_proxy_section l raw).proxies).1
