-- ===== src/ChatLog/Names.antt =====
-- The names that chatlog_store.py gives its files.
use Prim.Native.Char.{code}
use engineering_flow_platfor.Base.{
  ℕ, String, ◌≡◌, refl, ap, ◌∙◌, inl, inr, Bool, true, false, ◌&&◌, arith, nat_eq, string_eq,
  pair_eq, Bool-cases, is_empty,
}
use engineering_flow_platfor.ProxyPlan.Texts.{all_codes}
use engineering_flow_platfor.Titles.Clean.{strip_of, lstrip_of, rstrip_of, holds_code}
use engineering_flow_platfor.ChatLog.{is_name_code, hyphened, or_default, sanitize}

hyphened-codes : (after : Bool) (s : String) → all_codes is_name_code (hyphened after s) ≡ true
unfolding hyphened
hyphened-codes after String.[] = refl
hyphened-codes after (String.◌∷◌ c s) = elim (Bool-cases (is_name_code (code c))) [
  | inl t ↦ rw (t, t) (hyphened-codes false s)
  | inr f ↦ elim (Bool-cases after) [
    | inl a ↦ rw (f, a) (hyphened-codes true s)
    | inr a ↦ rw (f, a) (hyphened-codes true s)
  ]
]

hyphened_of_codes : (s : String) → all_codes is_name_code s ≡ true → hyphened false s ≡ s
unfolding hyphened
hyphened_of_codes String.[] h = refl
hyphened_of_codes (String.◌∷◌ c s) h = elim (Bool-cases (is_name_code (code c))) [
  | inl t ↦ rw (t, hyphened_of_codes s (rw t at h)) refl
  | inr f ↦ absurd (ground (arith, rw f at h))
]

module _ (chars : String) where
  lstrip_of-codes :
      (p : ℕ → Bool) (s : String) → all_codes p s ≡ true → all_codes p (lstrip_of chars s) ≡ true
  unfolding lstrip_of
  lstrip_of-codes p String.[] h = refl
  lstrip_of-codes p (String.◌∷◌ c s) h = elim (Bool-cases (p (code c))) [
    | inr n ↦ absurd (ground (arith, rw n at h))
    | inl y ↦ elim (Bool-cases (holds_code chars (code c))) [
      | inl t ↦ rw t (lstrip_of-codes p s (rw y at h))
      | inr f ↦ rw f h
    ]
  ]

  rstrip_of-codes :
      (p : ℕ → Bool) (s : String) → all_codes p s ≡ true → all_codes p (rstrip_of chars s) ≡ true
  unfolding rstrip_of
  rstrip_of-codes p String.[] h = refl
  rstrip_of-codes p (String.◌∷◌ c s) h = elim (Bool-cases (p (code c))) [
    | inr n ↦ absurd (ground (arith, rw n at h))
    | inl y ↦ elim (Bool-cases (is_empty (rstrip_of chars s) && holds_code chars (code c))) [
      | inl t ↦ rw t refl
      | inr f ↦ rw (f, y) (rstrip_of-codes p s (rw y at h))
    ]
  ]

  rstrip_of-rstrip_of : (s : String) → rstrip_of chars (rstrip_of chars s) ≡ rstrip_of chars s
  unfolding rstrip_of
  rstrip_of-rstrip_of String.[] = refl
  rstrip_of-rstrip_of (String.◌∷◌ c s) =
      elim (Bool-cases (is_empty (rstrip_of chars s) && holds_code chars (code c))) [
        | inl t ↦ rw t refl
        | inr f ↦ rw (f, rstrip_of-rstrip_of s, f) refl
      ]

  -- What neither starts nor is stripped at the start keeps its first character.
  lstrip_of-rstrip_of :
      (s : String)
      → lstrip_of chars (rstrip_of chars (lstrip_of chars s)) ≡ rstrip_of chars (lstrip_of chars s)
  unfolding lstrip_of rstrip_of
  lstrip_of-rstrip_of String.[] = refl
  lstrip_of-rstrip_of (String.◌∷◌ c s) = elim (Bool-cases (holds_code chars (code c))) [
    | inl t ↦ rw t (lstrip_of-rstrip_of s)
    | inr f ↦ elim (Bool-cases (is_empty (rstrip_of chars s))) [
      | inl e ↦ rw (f, e, f) (rw f refl)
      | inr e ↦ rw (f, e) (rw f refl)
    ]
  ]

  strip_of-strip_of : (s : String) → strip_of chars (strip_of chars s) ≡ strip_of chars s
  unfolding strip_of
  strip_of-strip_of s =
      ap (rstrip_of chars) (lstrip_of-rstrip_of s) ∙ rstrip_of-rstrip_of (lstrip_of chars s)

  strip_of-codes :
      (p : ℕ → Bool) (s : String) → all_codes p s ≡ true → all_codes p (strip_of chars s) ≡ true
  unfolding strip_of
  strip_of-codes p s h = rstrip_of-codes p (lstrip_of chars s) (lstrip_of-codes p s h)

or_default-or_default : (s : String) → or_default (or_default s) ≡ or_default s
or_default-or_default s = elim (Bool-cases (is_empty s)) [
  | inl t ↦ rw t refl
  | inr n ↦ rw (n, n) refl
]

-- What may be in a name is left alone.
kept :
    (s : String)
    → all_codes is_name_code s ≡ true
    → strip_of ".-" s ≡ s
    → strip_of ".-" (hyphened false (or_default s)) ≡ or_default s
unfolding strip_of lstrip_of rstrip_of hyphened
kept s codes stripped = elim (Bool-cases (is_empty s)) [
  | inl t ↦ rw t refl
  | inr n ↦ rw n (ap (strip_of ".-") (hyphened_of_codes s codes) ∙ stripped)
]

-- The name of a name is that name, so that the pending names that `flush_all` flushes are taken for
-- themselves.
pub sanitize-sanitize : (s : String) → sanitize (sanitize s) ≡ sanitize s
unfolding sanitize
sanitize-sanitize s =
    let t = hyphened false s in
    ap or_default (
      kept (strip_of ".-" t) (strip_of-codes ".-" is_name_code t (hyphened-codes false s))
        (strip_of-strip_of ".-" t))
    ∙ or_default-or_default (strip_of ".-" t)
