-- ===== src/ProxyPlan/Texts.antt =====
-- Texts as proxy_plan.py walks them.
use Prim.Native.Char.{Char, code}
use Prim.Native.String.{◌++◌ as text_append}
use engineering_flow_platfor.Base.{
  ℕ, zero, suc, ◌+◌, String, Bool, true, false, ◌&&◌, ◌||◌, Option, none, some, List, [], ◌∷◌, leb,
  eqb, if◌then◌else◌, ◌==◌, nat_eq, string_eq, pair_eq, is_space, is_empty,
}
use engineering_flow_platfor.SessionStore.Titles.{starts_with}

abbrev pub joined : List String → String
joined [] = ""
joined (s ∷ ss) = text_append s (joined ss)

-- `",".join(items)`
abbrev pub comma_joined : List String → String
comma_joined [] = ""
comma_joined (s ∷ []) = s
comma_joined (s ∷ ss) = joined (s ∷ "," ∷ comma_joined ss ∷ [])

-- `part in s` and `s.endswith(part)`
unfoldable pub holds : String → String → Bool
holds part String.[] = is_empty part
holds part (String.◌∷◌ c s) = starts_with part (String.◌∷◌ c s) || holds part s

unfoldable pub ends_with : String → String → Bool
ends_with part String.[] = is_empty part
ends_with part (String.◌∷◌ c s) = String.◌∷◌ c s == part || ends_with part s

abbrev pub count_code : ℕ → String → ℕ
count_code n String.[] = 0
count_code n (String.◌∷◌ c s) = (if eqb (code c) n then 1 else 0) + count_code n s

-- the text before the first character with this code, all of it where there is none
unfoldable pub before_code : ℕ → String → String
before_code n String.[] = ""
before_code n (String.◌∷◌ c s) =
    let rest = before_code n s in if eqb (code c) n then "" else String.◌∷◌ c rest

-- the text after the last character with this code
unfoldable pub after_last : ℕ → String → Option String
after_last n String.[] = none
after_last n (String.◌∷◌ c s) =
    let here = if eqb (code c) n then some s else none in
    elim (after_last n s) [ some rest ↦ some rest | none ↦ here ]

unfoldable pub without_first : ℕ → String → String
without_first zero s = s
without_first (suc n) String.[] = ""
without_first (suc n) (String.◌∷◌ c s) = without_first n s

-- `s.rstrip(".")`, `s.strip("_")`
unfoldable pub rstrip_code : ℕ → String → String
rstrip_code n String.[] = ""
rstrip_code n (String.◌∷◌ c s) =
    let rest = rstrip_code n s in if is_empty rest && eqb (code c) n then "" else String.◌∷◌ c rest

unfoldable pub lstrip_code : ℕ → String → String
lstrip_code n String.[] = ""
lstrip_code n (String.◌∷◌ c s) =
    let rest = lstrip_code n s in if eqb (code c) n then rest else String.◌∷◌ c s

abbrev pub is_digit : ℕ → Bool
is_digit n = leb 48 n && leb n 57

abbrev pub is_alphanumeric : ℕ → Bool
is_alphanumeric n = is_digit n || leb 65 n && leb n 90 || leb 97 n && leb n 122

abbrev pub all_codes : (ℕ → Bool) → String → Bool
all_codes p String.[] = true
all_codes p (String.◌∷◌ c s) = p (code c) && all_codes p s

-- `re.sub(r"[^A-Za-z0-9]+", "_", s)`, after such a run or not
unfoldable pub underscored : Bool → String → String
underscored after String.[] = ""
underscored after (String.◌∷◌ c s) =
    let word = String.◌∷◌ c (underscored false s) in
    let gap = underscored true s in
    if is_alphanumeric (code c) then word else if after then gap else text_append "_" gap

-- the items of `re.split(r"[,\s]+", s)` that are not empty; `word` is what was read of the one before
unfoldable pub split_items : String → List String
split_items String.[] = []
split_items (String.◌∷◌ c s) =
    let rest = split_items s in
    let starts = is_empty s || is_gap_first s in
    if is_gap (code c) then rest else if starts then String.◌∷◌ c "" ∷ rest else onto_first c rest
  where
    is_gap : ℕ → Bool
    is_gap n = eqb n 44 || is_space n

    is_gap_first : String → Bool
    is_gap_first String.[] = false
    is_gap_first (String.◌∷◌ c s) = is_gap (code c)

    onto_first : Char → List String → List String
    onto_first c [] = String.◌∷◌ c "" ∷ []
    onto_first c (item ∷ items) = String.◌∷◌ c item ∷ items

-- `^[A-Za-z0-9][A-Za-z0-9._-]{0,63}$`, which also accepts a line feed at the end
abbrev pub is_name_code : ℕ → Bool
is_name_code n = is_alphanumeric n || eqb n 46 || eqb n 95 || eqb n 45

abbrev pub characters : String → ℕ
characters String.[] = 0
characters (String.◌∷◌ c s) = suc (characters s)

unfoldable pub without_last_line_feed : String → String
without_last_line_feed String.[] = ""
without_last_line_feed (String.◌∷◌ c s) =
    let rest = without_last_line_feed s in
    if is_empty s && eqb (code c) 10 then "" else String.◌∷◌ c rest

abbrev pub is_name : String → Bool
is_name String.[] = false
is_name (String.◌∷◌ c s) =
    is_alphanumeric (code c) && all_codes is_name_code s && leb (characters s) 63

unfoldable pub is_name_like : String → Bool
unfolding without_last_line_feed
is_name_like s = is_name (without_last_line_feed s)
