-- ===== src/Titles/Clean.antt =====
-- session_title.py: the model's reply as a name. A regular expression is written out as what it
-- matches: `\s` is `str.isspace`, and a pattern without case is compared as `re.IGNORECASE` does,
-- which for these letters also accepts the long s and the dotless and the dotted i.
use Prim.Native.Char.{Char, char, code}
use Prim.Native.String.{◌++◌ as text_append}
use engineering_flow_platfor.Base.{
  ℕ, zero, suc, ◌+◌, ◌-◌, ◌*◌, String, Bool, true, false, ◌&&◌, ◌||◌, Option, none, some, List, [],
  ◌∷◌, ltb, leb, eqb, if◌then◌else◌, ◌==◌, nat_eq, string_eq, pair_eq, is_space, is_empty, lstrip,
  rstrip, strip,
}
use engineering_flow_platfor.Base.Value.{Value, str, or_else, to_text}
use engineering_flow_platfor.Base.Interpreter.{Texts}

abbrev pub title_max_chars : ℕ
title_max_chars = 60

abbrev pub characters : String → ℕ
characters String.[] = 0
characters (String.◌∷◌ c s) = suc (characters s)

-- `s[:n]`
abbrev pub first : ℕ → String → String
first zero s = ""
first (suc n) String.[] = ""
first (suc n) (String.◌∷◌ c s) = String.◌∷◌ c (first n s)

-- a character of one of the texts below
abbrev pub holds_code : String → ℕ → Bool
holds_code String.[] n = false
holds_code (String.◌∷◌ c s) n = eqb (code c) n || holds_code s n

-- `s.lstrip(chars)`, `s.rstrip(chars)` and `s.strip(chars)`
unfoldable pub lstrip_of : String → String → String
lstrip_of chars String.[] = ""
lstrip_of chars (String.◌∷◌ c s) =
    let rest = lstrip_of chars s in if holds_code chars (code c) then rest else String.◌∷◌ c s

unfoldable pub rstrip_of : String → String → String
rstrip_of chars String.[] = ""
rstrip_of chars (String.◌∷◌ c s) =
    let rest = rstrip_of chars s in
    if is_empty rest && holds_code chars (code c) then "" else String.◌∷◌ c rest

unfoldable pub strip_of : String → String → String
unfolding lstrip_of rstrip_of
strip_of chars s = rstrip_of chars (lstrip_of chars s)

abbrev pub quotes : String
quotes = "\"'`“”‘’「」『』《》"

abbrev pub trailing_punctuation : String
trailing_punctuation = ".。!！"

-- the lower case letter that a character matches
abbrev pub folded : ℕ → ℕ
folded n =
    if leb 0x41 n && leb n 0x5a
    then n + 32
    else if eqb n 0x130 || eqb n 0x131
    then 0x69
    else if eqb n 0x17f
    then 0x73
    else n

-- what follows the word, where the text starts with it
unfoldable pub after_word : String → String → Option String
after_word String.[] s = some s
after_word (String.◌∷◌ w word) String.[] = none
after_word (String.◌∷◌ w word) (String.◌∷◌ c s) =
    let rest = after_word word s in if eqb (folded (code c)) (code w) then rest else none

unfoldable pub after_colon : String → Option String
after_colon String.[] = none
after_colon (String.◌∷◌ c s) =
    if eqb (code c) 0x3a || eqb (code c) 0xff1a then some (lstrip s) else none

abbrev pub title_words : List String
title_words = "title" ∷ "session title" ∷ "session name" ∷ "name" ∷ "标题" ∷ []

-- the first word that the text starts with, white space, a colon and white space
unfoldable pub after_prefix : String → String → Option String
unfolding after_word after_colon
after_prefix word s = elim (after_word word s) [
  | none ↦ none
  | some rest ↦ after_colon (lstrip rest)
]

unfoldable pub drop_prefix : List String → String → String
unfolding after_prefix
drop_prefix [] s = s
drop_prefix (word ∷ words) s = elim (after_prefix word s) [
  | some rest ↦ rest
  | none ↦ drop_prefix words s
]

-- what follows and what precedes the mark, as written
unfoldable pub after_mark : String → String → Option String
after_mark String.[] s = some s
after_mark (String.◌∷◌ m mark) String.[] = none
after_mark (String.◌∷◌ m mark) (String.◌∷◌ c s) =
    let rest = after_mark mark s in if eqb (code c) (code m) then rest else none

abbrev pub prepend : Char → Option String → Option String
prepend c none = none
prepend c (some s) = some (String.◌∷◌ c s)

unfoldable pub before_mark : String → String → Option String
before_mark mark String.[] = none
before_mark mark (String.◌∷◌ c s) =
    let rest = before_mark mark s in if String.◌∷◌ c s == mark then some "" else prepend c rest

abbrev pub emphasis_marks : List String
emphasis_marks = "***" ∷ "**" ∷ "*" ∷ "___" ∷ "__" ∷ "_" ∷ []

-- what stands between the marks, if anything does
abbrev pub some_text : Option String → Option String
some_text none = none
some_text (some s) = if is_empty s then none else some s

unfoldable pub between : String → String → Option String
unfolding after_mark before_mark
between mark s =
    some_text (elim (after_mark mark s) [ none ↦ none | some rest ↦ before_mark mark rest ])

unfoldable pub drop_emphasis : List String → String → String
unfolding between
drop_emphasis [] s = s
drop_emphasis (mark ∷ marks) s = elim (between mark s) [
  | some inner ↦ strip inner
  | none ↦ drop_emphasis marks s
]

abbrev pub blank : Char
blank = char 32 tt

-- `re.sub(r"\s+", " ", s)`, after a white space or not
unfoldable pub collapse : Bool → String → String
collapse after String.[] = ""
collapse after (String.◌∷◌ c s) =
    let more = collapse true s in
    let word = String.◌∷◌ c (collapse false s) in
    let one = if eqb (code c) 32 then String.◌∷◌ c more else String.◌∷◌ blank more in
    if is_space (code c) then if after then more else one else word

unfoldable pub strip_once : String → String
unfolding drop_prefix strip_of drop_emphasis collapse
strip_once s = collapse false (
    strip (
      rstrip_of trailing_punctuation (
        drop_emphasis emphasis_marks
          (strip (strip_of quotes (strip (drop_prefix title_words s)))))))

-- `while text: …`, at most so often
unfoldable pub settled : ℕ → String → String
unfolding strip_once
settled zero s = s
settled (suc n) s =
    let next = settled n (strip_once s) in
    if is_empty s then s else if strip_once s == s then s else next

-- `str.splitlines`, with an empty line more for a line that ends in two characters
abbrev pub ends_line : ℕ → Bool
ends_line n =
    leb 10 n && leb n 13 || leb 28 n && leb n 30 || eqb n 0x85 || eqb n 0x2028 || eqb n 0x2029

abbrev pub onto_first : Char → List String → List String
onto_first c [] = String.◌∷◌ c "" ∷ []
onto_first c (line ∷ lines) = String.◌∷◌ c line ∷ lines

unfoldable pub split_lines : String → List String
split_lines String.[] = []
split_lines (String.◌∷◌ c s) =
    let rest = split_lines s in if ends_line (code c) then "" ∷ rest else onto_first c rest

unfoldable pub first_line : List String → String
first_line [] = ""
first_line (line ∷ lines) =
    let rest = first_line lines in if is_empty (strip line) then rest else strip line

unfoldable pub shorten : String → String
shorten s =
    if ltb title_max_chars (characters s)
    then text_append (rstrip (first (title_max_chars - 1) s)) "…"
    else s

-- the first line without its wrappers; twice the length is enough turns: `Titles.Shrinks`
unfoldable pub bare_title : Texts → Value → String
unfolding split_lines first_line settled
bare_title t raw =
    let line = first_line (split_lines (to_text t.repr (or_else raw (str "")))) in
    settled (2 * characters line) line

unfoldable pub clean_title : Texts → Value → String
unfolding bare_title shorten
clean_title t raw = shorten (bare_title t raw)
