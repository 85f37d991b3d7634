-- ===== src/TaskCompletion/Parts.antt =====
-- task_completion_parser.py: the part of a text that is read as JSON.
use Prim.Native.Char.{Char, code}
use Prim.Native.String.{◌++◌ as text_append}
use Prim.Native.String.append
use engineering_flow_platfor.Base.{
  ℕ, ◌+◌, ◌-◌, ◌≤◌, String, ◌≡◌, refl, sym, ap, ◌∙◌, ◌⊎◌, inl, inr, true, Option, none, some, arith,
  eqb, if◌then◌else◌, nat_eq, string_eq, pair_eq, Bool-cases, Option-cases, some_inj, strip,
}
use engineering_flow_platfor.Base.Value.{Value, dict, Fields}
use engineering_flow_platfor.TaskCompletion.Extract.{
  before, balanced, only_dict, scan_braces, unfenced, extract_json,
}

abbrev pub count : ℕ → String → ℕ
count n String.[] = 0
count n (String.◌∷◌ c s) = (if eqb (code c) n then 1 else 0) + count n s

-- `text` has `part` somewhere, and `part` opens and closes as many braces.
pub record IsBracedPart (part text : String) : Type 0 where
  pub front : String
  pub back : String
  pub stands : text ≡ text_append front (text_append part back)
  pub even : count 0x7b part ≡ count 0x7d part

before_inv :
    (c : Char) (o : Option String) (p : String)
    → before c o ≡ some p
    → (q : String) × (o ≡ some q) × (p ≡ String.◌∷◌ c q)
before_inv c none p h = cc
before_inv c (some q) p h = (q, refl, sym (some_inj h))

cons_part :
    (c : Char) (s q p back : String)
    → p ≡ String.◌∷◌ c q
    → s ≡ text_append q back
    → String.◌∷◌ c s ≡ text_append p back
cons_part c s q p back e rest = rw (e, append.cons c q back) (ap (String.◌∷◌ c) rest)

-- From depth `d` the part closes as many braces as it opens and `d` more.
abbrev Closes : ℕ → String → String → Type 0
Closes d s p = (back : String) × (s ≡ text_append p back) × (d + count 0x7b p ≡ count 0x7d p)

balanced_lem : (d : ℕ) (s p : String) → 1 ≤ d → balanced d s ≡ some p → Closes d s p
unfolding balanced
balanced_lem d String.[] p deep h = cc
balanced_lem d (String.◌∷◌ c s) p deep h = elim (Bool-cases (eqb (code c) 0x7b)) [
  | inl opens ↦
      let (q, found, e) = before_inv c (balanced (d + 1) s) p (rw opens at h) in
      let (back, rest, counted) = balanced_lem (d + 1) s q (omega arith) found in
      (back, cons_part c s q p back e rest, rw (e, opens) (ground (arith, counted, opens)))
  | inr other ↦ elim (Bool-cases (eqb (code c) 0x7d)) [
    | inl closes ↦ elim (Bool-cases (eqb d 1)) [
      | inl last_one ↦
          let e = sym (some_inj (rw (other, closes, last_one) at h)) in
          (
            s,
            cons_part c s "" p s e (sym (append.nil s)),
            rw (e, other, closes) (ground (arith, last_one)),
          )
      | inr deeper ↦
          let (q, found, e) =
            before_inv c (balanced (d - 1) s) p (rw (other, closes, deeper) at h) in
          let (back, rest, counted) = balanced_lem (d - 1) s q (ground (arith, deeper)) found in
          (
            back,
            cons_part c s q p back e rest,
            rw (e, other, closes) (ground (arith, counted, deeper)),
          )
    ]
    | inr plain ↦
        let (q, found, e) = before_inv c (balanced d s) p (rw (other, plain) at h) in
        let (back, rest, counted) = balanced_lem d s q deep found in
        (back, cons_part c s q p back e rest, rw (e, other, plain) (omega (arith, counted)))
  ]
]

opened_lem :
    (c : Char) (s p : String)
    → eqb (code c) 0x7b ≡ true
    → balanced 0 (String.◌∷◌ c s) ≡ some p
    → IsBracedPart p (String.◌∷◌ c s)
unfolding balanced
opened_lem c s p opens h =
    let (q, found, e) = before_inv c (balanced 1 s) p (rw opens at h) in
    let (back, rest, counted) = balanced_lem 1 s q (omega arith) found in
    record {
      front = "";
      back = back;
      stands = cons_part c s q p back e rest ∙ sym (append.nil (text_append p back));
      even = rw (e, opens) (ground (arith, counted, opens));
    }

later_part : (c : Char) (part s : String) → IsBracedPart part s → IsBracedPart part (String.◌∷◌ c s)
later_part c part s v = record {
  front = String.◌∷◌ c v.front;
  back = v.back;
  stands = cons_part c s v.front (String.◌∷◌ c v.front) (text_append part v.back) refl v.stands;
  even = v.even;
}

only_dict_inv : (v : Value) (fields : Fields) → only_dict v ≡ some fields → v ≡ dict fields
only_dict_inv (dict fs) fields h = ap dict (some_inj h)
only_dict_inv _ fields h = cc

module _ (loads : String → Option Value) where
  -- Where the fields come from.
  abbrev Source : Fields → String → Type 0
  Source fields text = (part : String) × IsBracedPart part text × (loads part ≡ some (dict fields))

  scan_braces_lem :
      (text : String) (fields : Fields) → scan_braces loads text ≡ some fields → Source fields text
  unfolding scan_braces
  scan_braces_lem String.[] fields h = cc
  scan_braces_lem (String.◌∷◌ c s) fields h = elim (Bool-cases (eqb (code c) 0x7b)) [
    | inr other ↦ later (scan_braces_lem s fields (rw other at h))
    | inl opens ↦ elim (Option-cases (balanced 0 (String.◌∷◌ c s))) [
      | inl open_end ↦ later (scan_braces_lem s fields (rw (opens, scan_braces, open_end) at h))
      | inr (part, found) ↦ elim (Option-cases (loads part)) [
        | inl unread ↦
            later (scan_braces_lem s fields (rw (opens, found, scan_braces, unread) at h))
        | inr (v, value) ↦ (
          part,
          opened_lem c s part opens found,
          value ∙ ap some (only_dict_inv v fields (rw (opens, found, scan_braces, value) at h)),
        )
      ]
    ]
  ]
    where
      later : Source fields s → Source fields (String.◌∷◌ c s)
      later (part, stands, value) = (part, later_part c part s stands, value)

  -- What is taken for the JSON of a text is what `json.loads` reads in the text without its fence,
  -- or in a part of the text that closes as many braces as it opens.
  pub extract_json_lem :
      (text : String) (fields : Fields)
      → extract_json loads text ≡ some fields
      → (loads (unfenced (strip text)) ≡ some (dict fields))
        ⊎ ((part : String) × IsBracedPart part text × (loads part ≡ some (dict fields)))
  unfolding extract_json
  extract_json_lem text fields h = elim (Option-cases (loads (unfenced (strip text)))) [
    | inl unread ↦ inr (scan_braces_lem text fields (rw (unread, extract_json) at h))
    | inr (v, value) ↦
        inl (value ∙ ap some (only_dict_inv v fields (rw (value, extract_json) at h)))
  ]
