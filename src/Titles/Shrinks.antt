-- ===== src/Titles/Shrinks.antt =====
-- session_title.py: the loop of `clean_title` ends. Each part of a turn leaves the text as it is or
-- makes it lighter.
use mathlib.Core.Path.{subst}
use Prim.Native.Char.{Char, code}
use engineering_flow_platfor.Base.{
  ℕ, zero, suc, ◌+◌, ◌*◌, ◌≤◌, ◌<◌, String, ◌≡◌, refl, sym, ap, ◌∙◌, ◌⊎◌, inl, inr, Bool, true,
  false, not, ◌&&◌, ◌||◌, some, List, [], ◌∷◌, arith, eq_iff, eqb, if◌then◌else◌, ◌==◌, nat_eq,
  string_eq, pair_eq, Bool-cases, Option-cases, some_inj, is_space, is_empty, lstrip, rstrip, strip,
}
use engineering_flow_platfor.Titles.Clean.{
  blank, characters, holds_code, lstrip_of, rstrip_of, strip_of, quotes, trailing_punctuation,
  after_word, after_colon, title_words, after_prefix, drop_prefix, after_mark, before_mark,
  emphasis_marks, some_text, between, drop_emphasis, collapse, strip_once, settled,
}

-- A white space other than the blank counts twice: it may become a blank.
abbrev weight_of : ℕ → ℕ
weight_of n = if is_space n && not (eqb n 32) then 2 else 1

unfoldable weight : String → ℕ
weight String.[] = 0
weight (String.◌∷◌ c s) = weight_of (code c) + weight s

weight_of-bounds : (n : ℕ) → (1 ≤ weight_of n) × (weight_of n ≤ 2)
weight_of-bounds n = ground arith

abbrev Shrinks : (String → String) → Type 0
Shrinks f = (s : String) → (weight (f s) < weight s) ⊎ (f s ≡ s)

-- One step, then the other.
shrunk_twice :
    (s s' s'' : String)
    → (weight s'' < weight s') ⊎ (s'' ≡ s')
    → (weight s' < weight s) ⊎ (s' ≡ s)
    → (weight s'' < weight s) ⊎ (s'' ≡ s)
shrunk_twice s s' s'' (inl b) (inl a) = inl (omega arith)
shrunk_twice s s' s'' (inl b) (inr a) = inl (subst (λ x. weight s'' < weight x) a b)
shrunk_twice s s' s'' (inr b) (inl a) = inl (subst (λ x. weight x < weight s) (sym b) a)
shrunk_twice s s' s'' (inr b) (inr a) = inr (b ∙ a)

Shrinks-then : (f g : String → String) → Shrinks f → Shrinks g → Shrinks (λ s. g (f s))
Shrinks-then f g hf hg s = shrunk_twice s (f s) (g (f s)) (hg (f s)) (hf s)

lighter_rest :
    (c : Char) (s : String) (x : String)
    → (weight x < weight s) ⊎ (x ≡ s)
    → weight x < weight (String.◌∷◌ c s)
unfolding weight
lighter_rest c s x (inl h) = omega (arith, weight_of-bounds (code c), h)
lighter_rest c s x (inr h) = rw h (omega (arith, weight_of-bounds (code c)))

cons_shrinks :
    (c : Char) (s x : String)
    → (weight x < weight s) ⊎ (x ≡ s)
    → (weight (String.◌∷◌ c x) < weight (String.◌∷◌ c s)) ⊎ (String.◌∷◌ c x ≡ String.◌∷◌ c s)
unfolding weight
cons_shrinks c s x (inl h) = inl (omega (arith, h))
cons_shrinks c s x (inr h) = inr (ap (String.◌∷◌ c) h)

weight-le : (s : String) → weight s ≤ 2 * characters s
unfolding weight
weight-le String.[] = omega arith
weight-le (String.◌∷◌ c s) = omega (arith, weight_of-bounds (code c), weight-le s)

weightless : (s : String) → weight s ≤ 0 → is_empty s ≡ true
unfolding weight
weightless String.[] h = refl
weightless (String.◌∷◌ c s) h = absurd (omega (arith, weight_of-bounds (code c), h))

empty_shrinks : (s : String) → (weight "" < weight s) ⊎ ("" ≡ s)
unfolding weight
empty_shrinks String.[] = inr refl
empty_shrinks (String.◌∷◌ c s) = inl (omega (arith, weight_of-bounds (code c)))

not_heavier : (s x : String) → (weight x < weight s) ⊎ (x ≡ s) → weight x ≤ weight s
not_heavier s x (inl h) = omega (arith, h)
not_heavier s x (inr h) = rw h (omega arith)

cons-lt :
    (c : Char) (s x : String)
    → weight x < weight s
    → weight (String.◌∷◌ c x) < weight (String.◌∷◌ c s)
unfolding weight
cons-lt c s x h = omega (arith, h)

blank_lighter :
    (c : Char) (s x : String)
    → is_space (code c) ≡ true
    → eqb (code c) 32 ≡ false
    → (weight x < weight s) ⊎ (x ≡ s)
    → weight (String.◌∷◌ blank x) < weight (String.◌∷◌ c s)
unfolding weight is_space
blank_lighter c s x space other h = rw (space, other) (omega (arith, not_heavier s x h))

lstrip-Shrinks : Shrinks lstrip
unfolding lstrip
lstrip-Shrinks String.[] = inr refl
lstrip-Shrinks (String.◌∷◌ c s) = elim (Bool-cases (is_space (code c))) [
  | inl t ↦ rw t (inl (lighter_rest c s (lstrip s) (lstrip-Shrinks s)))
  | inr f ↦ rw f (inr refl)
]

rstrip-Shrinks : Shrinks rstrip
unfolding rstrip
rstrip-Shrinks String.[] = inr refl
rstrip-Shrinks (String.◌∷◌ c s) = elim (Bool-cases (is_empty (rstrip s) && is_space (code c))) [
  | inl t ↦ rw t (inl (lighter_rest c s "" (empty_shrinks s)))
  | inr f ↦ rw f (cons_shrinks c s (rstrip s) (rstrip-Shrinks s))
]

strip-Shrinks : Shrinks strip
unfolding strip
strip-Shrinks = Shrinks-then lstrip rstrip lstrip-Shrinks rstrip-Shrinks

module _ (chars : String) where
  lstrip_of-Shrinks : Shrinks (lstrip_of chars)
  unfolding lstrip_of
  lstrip_of-Shrinks String.[] = inr refl
  lstrip_of-Shrinks (String.◌∷◌ c s) = elim (Bool-cases (holds_code chars (code c))) [
    | inl t ↦ rw t (inl (lighter_rest c s (lstrip_of chars s) (lstrip_of-Shrinks s)))
    | inr f ↦ rw f (inr refl)
  ]

  rstrip_of-Shrinks : Shrinks (rstrip_of chars)
  unfolding rstrip_of
  rstrip_of-Shrinks String.[] = inr refl
  rstrip_of-Shrinks (String.◌∷◌ c s) =
      elim (Bool-cases (is_empty (rstrip_of chars s) && holds_code chars (code c))) [
        | inl t ↦ rw t (inl (lighter_rest c s "" (empty_shrinks s)))
        | inr f ↦ rw f (cons_shrinks c s (rstrip_of chars s) (rstrip_of-Shrinks s))
      ]

  strip_of-Shrinks : Shrinks (strip_of chars)
  unfolding strip_of
  strip_of-Shrinks =
      Shrinks-then (lstrip_of chars) (rstrip_of chars) lstrip_of-Shrinks rstrip_of-Shrinks

-- What follows a word, a colon or a mark is no heavier than the whole.
after_word-le : (word s r : String) → after_word word s ≡ some r → weight r ≤ weight s
unfolding after_word weight
after_word-le String.[] s r h = rw (some_inj h) (omega arith)
after_word-le (String.◌∷◌ w word) String.[] r h = cc
after_word-le (String.◌∷◌ w word) (String.◌∷◌ c s) r h = ground (arith, after_word-le word s r)

after_colon-lt : (s r : String) → after_colon s ≡ some r → weight r < weight s
unfolding after_colon
after_colon-lt String.[] r h = cc
after_colon-lt (String.◌∷◌ c s) r h = elim (Bool-cases (eqb (code c) 0x3a || eqb (code c) 0xff1a)) [
  | inl t ↦ rw (← some_inj (rw t at h)) (lighter_rest c s (lstrip s) (lstrip-Shrinks s))
  | inr f ↦ cc (rw f at h)
]

after_prefix-lt : (word s r : String) → after_prefix word s ≡ some r → weight r < weight s
unfolding after_prefix
after_prefix-lt word s r h = elim (Option-cases (after_word word s)) [
  | inl absent ↦ cc (rw (absent, after_prefix) at h)
  | inr (rest, p) ↦ omega (
    arith,
    after_colon-lt (lstrip rest) r (rw (p, after_prefix) at h),
    not_heavier rest (lstrip rest) (lstrip-Shrinks rest),
    after_word-le word s rest p,
  )
]

drop_prefix-Shrinks : (words : List String) → Shrinks (drop_prefix words)
unfolding drop_prefix
drop_prefix-Shrinks [] s = inr refl
drop_prefix-Shrinks (word ∷ words) s = elim (Option-cases (after_prefix word s)) [
  | inl absent ↦ rw (absent, drop_prefix) (drop_prefix-Shrinks words s)
  | inr (r, p) ↦ rw (p, drop_prefix) (inl (after_prefix-lt word s r p))
]

after_mark-le : (mark s r : String) → after_mark mark s ≡ some r → weight r ≤ weight s
unfolding after_mark weight
after_mark-le String.[] s r h = rw (some_inj h) (omega arith)
after_mark-le (String.◌∷◌ m mark) String.[] r h = cc
after_mark-le (String.◌∷◌ m mark) (String.◌∷◌ c s) r h = ground (arith, after_mark-le mark s r)

some_text_inj : (x r : String) → some_text (some x) ≡ some r → some x ≡ some r
some_text_inj x r h = elim (Bool-cases (is_empty x)) [ inl t ↦ cc (rw t at h) | inr f ↦ rw f at h ]

-- What precedes a mark is lighter than the whole.
before_mark-lt : (mark s r : String) → before_mark mark s ≡ some r → weight r < weight s
unfolding before_mark
before_mark-lt mark String.[] r h = cc
before_mark-lt mark (String.◌∷◌ c s) r h = elim (Bool-cases (String.◌∷◌ c s == mark)) [
  | inl t ↦ rw (← some_inj (rw t at h)) (lighter_rest c s "" (empty_shrinks s))
  | inr f ↦ elim (Option-cases (before_mark mark s)) [
    | inl absent ↦ cc (rw (f, absent) at h)
    | inr (x, p) ↦ rw (← some_inj (rw (f, p) at h)) (cons-lt c s x (before_mark-lt mark s x p))
  ]
]

between-lt : (mark s r : String) → between mark s ≡ some r → weight r < weight s
unfolding between
between-lt mark s r h = elim (Option-cases (after_mark mark s)) [
  | inl absent ↦ cc (rw (absent, between) at h)
  | inr (rest, p) ↦ elim (Option-cases (before_mark mark rest)) [
    | inl absent ↦ cc (rw (p, between, absent) at h)
    | inr (x, q) ↦ omega (
      arith,
      before_mark-lt mark rest r (q ∙ some_text_inj x r (rw (p, between, q) at h)),
      after_mark-le mark s rest p,
    )
  ]
]

drop_emphasis-Shrinks : (marks : List String) → Shrinks (drop_emphasis marks)
unfolding drop_emphasis
drop_emphasis-Shrinks [] s = inr refl
drop_emphasis-Shrinks (mark ∷ marks) s = elim (Option-cases (between mark s)) [
  | inl absent ↦ rw (absent, drop_emphasis) (drop_emphasis-Shrinks marks s)
  | inr (r, p) ↦
      rw (p, drop_emphasis)
        (inl (omega (arith, between-lt mark s r p, not_heavier r (strip r) (strip-Shrinks r))))
]

collapse-Shrinks : (after : Bool) → Shrinks (collapse after)
unfolding collapse
collapse-Shrinks after String.[] = inr refl
collapse-Shrinks true (String.◌∷◌ c s) = elim (Bool-cases (is_space (code c))) [
  | inl t ↦ rw t (inl (lighter_rest c s (collapse true s) (collapse-Shrinks true s)))
  | inr f ↦ rw f (cons_shrinks c s (collapse false s) (collapse-Shrinks false s))
]
collapse-Shrinks false (String.◌∷◌ c s) = elim (Bool-cases (is_space (code c))) [
  | inl t ↦ elim (Bool-cases (eqb (code c) 32)) [
    | inl blank ↦ rw (t, blank) (cons_shrinks c s (collapse true s) (collapse-Shrinks true s))
    | inr other ↦
        rw (t, other) (inl (blank_lighter c s (collapse true s) t other (collapse-Shrinks true s)))
  ]
  | inr f ↦ rw f (cons_shrinks c s (collapse false s) (collapse-Shrinks false s))
]

strip_once-Shrinks : Shrinks strip_once
unfolding strip_once
strip_once-Shrinks = Shrinks-then (drop_prefix title_words) _ (drop_prefix-Shrinks title_words) (
    Shrinks-then strip _ strip-Shrinks (
      Shrinks-then (strip_of quotes) _ (strip_of-Shrinks quotes) (
        Shrinks-then strip _ strip-Shrinks (
          Shrinks-then (drop_emphasis emphasis_marks) _ (drop_emphasis-Shrinks emphasis_marks) (
            Shrinks-then (rstrip_of trailing_punctuation) _ (rstrip_of-Shrinks trailing_punctuation)
              (Shrinks-then strip (collapse false) strip-Shrinks (collapse-Shrinks false)))))))

same_text : (x y : String) → (x == y) ≡ true → x ≡ y
same_text x y h = ground (arith, eq_iff x y)

lighter_next :
    {n : ℕ} (s : String)
    → (strip_once s == s) ≡ false
    → weight s ≤ suc n
    → weight (strip_once s) ≤ n
lighter_next s other h = elim (strip_once-Shrinks s) [
  | inl lighter ↦ omega (arith, lighter, h)
  | inr same ↦ absurd (ground (arith, eq_iff (strip_once s) s, same, other))
]

-- After at least twice as many turns as the text has characters, the loop of `clean_title` has come to
-- an end: the text is empty or a further turn changes nothing.
pub settled_lem :
    (n : ℕ) (s : String)
    → 2 * characters s ≤ n
    → (is_empty (settled n s) ≡ true) ⊎ (strip_once (settled n s) ≡ settled n s)
unfolding settled
settled_lem n s h = enough n s (omega (arith, weight-le s, h))
  where
    enough :
        (n : ℕ) (s : String)
        → weight s ≤ n
        → (is_empty (settled n s) ≡ true) ⊎ (strip_once (settled n s) ≡ settled n s)
    enough zero s h = inl (weightless s h)
    enough (suc n) s h = elim (Bool-cases (is_empty s)) [
      | inl blank_text ↦ inl (rw blank_text blank_text)
      | inr text ↦ elim (Bool-cases (strip_once s == s)) [
        | inl same ↦ inr (rw (text, same) (same_text (strip_once s) s same))
        | inr other ↦ rw (text, other) (enough n (strip_once s) (lighter_next s other h))
      ]
    ]
