-- ===== src/Base/Text.antt =====
-- `str.strip` over the native text.
use Prim.Native.Nat.{ℕ}
use Prim.Native.Char.{Char, code}
use Prim.Native.String.{String}
use mathlib.Core.Path.{◌≡◌, refl, ap, ◌∙◌}
use mathlib.Core.Logic.{inl, inr}
use mathlib.Core.Bool.{Bool, true, false, ◌&&◌, ◌||◌}
use engineering_flow_platfor.Base.Tests.{Bool-cases, leb, eqb, if◌then◌else◌}

-- `str.isspace` of one character
unfoldable pub is_space : ℕ → Bool
is_space c =
    leb 9 c && leb c 13
    || leb 28 c && leb c 32
    || eqb c 0x85
    || eqb c 0xa0
    || eqb c 0x1680
    || leb 0x2000 c && leb c 0x200a
    || leb 0x2028 c && leb c 0x2029
    || eqb c 0x202f
    || eqb c 0x205f
    || eqb c 0x3000

abbrev pub is_empty : String → Bool
is_empty String.[] = true
is_empty (String.◌∷◌ c s) = false

unfoldable pub lstrip : String → String
unfolding is_space
lstrip String.[] = ""
lstrip (String.◌∷◌ c s) = let rest = lstrip s in if is_space (code c) then rest else String.◌∷◌ c s

unfoldable pub rstrip : String → String
unfolding is_space
rstrip String.[] = ""
rstrip (String.◌∷◌ c s) =
    let rest = rstrip s in if is_empty rest && is_space (code c) then "" else String.◌∷◌ c rest

unfoldable pub strip : String → String
unfolding lstrip rstrip
strip s = rstrip (lstrip s)

rstrip-rstrip : (s : String) → rstrip (rstrip s) ≡ rstrip s
unfolding rstrip
rstrip-rstrip String.[] = refl
rstrip-rstrip (String.◌∷◌ c s) = elim (Bool-cases (is_empty (rstrip s) && is_space (code c))) [
  | inl t ↦ rw t refl
  | inr f ↦ rw (f, rstrip-rstrip s, f) refl
]

lstrip_cons :
    (c : Char) (s : String) → is_space (code c) ≡ false → lstrip (String.◌∷◌ c s) ≡ String.◌∷◌ c s
unfolding lstrip
lstrip_cons c s f = rw f refl

rstrip_cons :
    (c : Char) (s : String)
    → is_space (code c) ≡ false
    → rstrip (String.◌∷◌ c s) ≡ String.◌∷◌ c (rstrip s)
unfolding rstrip
rstrip_cons c s f = elim (Bool-cases (is_empty (rstrip s))) [
  | inl e ↦ rw (f, e) refl
  | inr e ↦ rw (f, e) refl
]

lstrip-rstrip : (s : String) → lstrip (rstrip (lstrip s)) ≡ rstrip (lstrip s)
unfolding lstrip rstrip
lstrip-rstrip String.[] = refl
lstrip-rstrip (String.◌∷◌ c s) = elim (Bool-cases (is_space (code c))) [
  | inl t ↦ rw t (lstrip-rstrip s)
  | inr f ↦ rw f (rw (rstrip_cons c s f) (lstrip_cons c (rstrip s) f))
]

pub strip-strip : (s : String) → strip (strip s) ≡ strip s
unfolding strip
strip-strip s = ap rstrip (lstrip-rstrip s) ∙ rstrip-rstrip (lstrip s)

strip_spaced : strip "  run 1 " ≡ "run 1"
unfolding strip
strip_spaced = refl
