-- ===== src/Titles/Short.antt =====
-- session_title.py: the length of a title.
use Prim.Native.String.{◌++◌ as text_append}
use Prim.Native.String.append
use engineering_flow_platfor.Base.{
  ℕ, zero, suc, ◌+◌, ◌-◌, ◌*◌, ◌≤◌, String, ◌≡◌, refl, ◌⊎◌, true, arith, nat_eq, string_eq, pair_eq,
  is_empty, rstrip,
}
use engineering_flow_platfor.Base.Value.{Value, str, or_else, to_text}
use engineering_flow_platfor.Base.Interpreter.{Texts}
use engineering_flow_platfor.Titles.Clean.{
  title_max_chars, characters, first, first_line, split_lines, strip_once, shorten, bare_title,
  clean_title,
}
use engineering_flow_platfor.Titles.Shrinks.{settled_lem}

characters-first : (n : ℕ) (s : String) → characters (first n s) ≤ n
characters-first zero s = omega arith
characters-first (suc n) String.[] = omega arith
characters-first (suc n) (String.◌∷◌ c s) = omega (arith, characters-first n s)

characters-rstrip : (s : String) → characters (rstrip s) ≤ characters s
unfolding rstrip
characters-rstrip String.[] = omega arith
characters-rstrip (String.◌∷◌ c s) = ground (arith, characters-rstrip s)

characters-append : (s t : String) → characters (text_append s t) ≡ characters s + characters t
characters-append String.[] t = rw (append.nil t) (omega arith)
characters-append (String.◌∷◌ c s) t = rw (append.cons c s t) (omega (arith, characters-append s t))

characters-shorten : (s : String) → characters (shorten s) ≤ title_max_chars
unfolding shorten
characters-shorten s = ground (
  arith,
  characters-append (rstrip (first (title_max_chars - 1) s)) "…",
  characters-rstrip (first (title_max_chars - 1) s),
  characters-first (title_max_chars - 1) s,
)

shorten_short : (s : String) → characters s ≤ title_max_chars → shorten s ≡ s
unfolding shorten
shorten_short s h = ground arith

bare_title_lem :
    (t : Texts) (raw : Value)
    → (is_empty (bare_title t raw) ≡ true) ⊎ (strip_once (bare_title t raw) ≡ bare_title t raw)
unfolding bare_title
bare_title_lem t raw =
    let line = first_line (split_lines (to_text t.repr (or_else raw (str "")))) in
    settled_lem (2 * characters line) line (omega arith)

-- A title has at most sixty characters, the mark of what was cut off included; one that needs no
-- cut is empty or has no wrapper left that a further turn would take off.
pub clean_title_lem :
    (t : Texts) (raw : Value)
    → (characters (clean_title t raw) ≤ title_max_chars)
      × (characters (bare_title t raw) ≤ title_max_chars
          → (clean_title t raw ≡ bare_title t raw)
            × ((is_empty (clean_title t raw) ≡ true)
                ⊎ (strip_once (clean_title t raw) ≡ clean_title t raw)))
unfolding clean_title
clean_title_lem t raw = (
  characters-shorten (bare_title t raw),
  λ short. rw (shorten_short (bare_title t raw) short) (refl, bare_title_lem t raw),
)
