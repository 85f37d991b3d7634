-- ===== src/TaskCompletion/Extract.antt =====
-- task_completion_parser.py: the JSON in a text. The fence of a code block is written out from its
-- regular expression, with the last closing brace that a fence follows.
use Prim.Native.Char.{Char, code}
use engineering_flow_platfor.Base.{
  ℕ, ◌+◌, ◌-◌, String, Bool, false, ◌&&◌, ◌||◌, Option, none, some, List, [], ◌∷◌, eqb,
  if◌then◌else◌, nat_eq, string_eq, pair_eq, is_empty, lstrip, strip,
}
use engineering_flow_platfor.Base.Value.{Value, dict, Fields}
use engineering_flow_platfor.SessionStore.Titles.{starts_with}

-- `part in s`
unfoldable pub has_text : String → String → Bool
has_text part String.[] = is_empty part
has_text part (String.◌∷◌ c s) = starts_with part (String.◌∷◌ c s) || has_text part s

abbrev pub has_any_text : List String → String → Bool
has_any_text [] s = false
has_any_text (part ∷ parts) s = has_text part s || has_any_text parts s

abbrev pub before : Char → Option String → Option String
before c none = none
before c (some s) = some (String.◌∷◌ c s)

-- up to the last closing brace that white space and a fence follow
unfoldable pub up_to_fence : String → Option String
up_to_fence String.[] = none
up_to_fence (String.◌∷◌ c s) =
    let rest = up_to_fence s in
    let here =
      if eqb (code c) 0x7d && starts_with "```" (lstrip s) then some (String.◌∷◌ c "") else none in
    elim rest [ some part ↦ some (String.◌∷◌ c part) | none ↦ here ]

-- the rest behind a text that stands at the start
unfoldable pub without : String → String → Option String
without String.[] s = some s
without (String.◌∷◌ p part) String.[] = none
without (String.◌∷◌ p part) (String.◌∷◌ c s) =
    let rest = without part s in if eqb (code p) (code c) then rest else none

abbrev pub or_same : Option String → String → String
or_same none s = s
or_same (some r) s = r

abbrev pub braced : String → Option String
braced String.[] = none
braced (String.◌∷◌ c s) = if eqb (code c) 0x7b then before c (up_to_fence s) else none

-- a fence that begins here, and the first of those that begin here or later
unfoldable pub fenced_here : String → Option String
unfolding without up_to_fence
fenced_here s = elim (without "```" s) [
  | none ↦ none
  | some rest ↦ braced (lstrip (or_same (without "json" rest) rest))
]

unfoldable pub fenced : String → Option String
unfolding fenced_here
fenced String.[] = none
fenced (String.◌∷◌ c s) =
    let later = fenced s in
    elim (fenced_here (String.◌∷◌ c s)) [ some part ↦ some part | none ↦ later ]

-- from an opening brace to the one that closes it, at this depth
unfoldable pub balanced : ℕ → String → Option String
balanced depth String.[] = none
balanced depth (String.◌∷◌ c s) =
    let deeper = balanced (depth + 1) s in
    let higher = balanced (depth - 1) s in
    let same = balanced depth s in
    if eqb (code c) 0x7b
    then before c deeper
    else if eqb (code c) 0x7d
    then if eqb depth 1 then some (String.◌∷◌ c "") else before c higher
    else before c same

-- `obj if isinstance(obj, dict) else None`
abbrev pub only_dict : Value → Option Fields
only_dict (dict fields) = some fields
only_dict _ = none

unfoldable pub unfenced : String → String
unfolding fenced
unfenced t = if starts_with "```" t then or_same (fenced t) t else t

module _ (loads : String → Option Value) where
  unfoldable pub scan_braces : String → Option Fields
  scan_braces String.[] = none
  scan_braces (String.◌∷◌ c s) =
      let later = scan_braces s in
      if eqb (code c) 0x7b
      then elim (balanced 0 (String.◌∷◌ c s)) [
        | none ↦ later
        | some part ↦ elim (loads part) [ none ↦ later | some v ↦ only_dict v ]
      ]
      else later

  unfoldable pub extract_json : String → Option Fields
  extract_json text = elim (loads (unfenced (strip text))) [
    | some v ↦ only_dict v
    | none ↦ scan_braces text
  ]
