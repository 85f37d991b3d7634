-- ===== src/Base/Value.antt =====
-- Values of the dynamic language: what `json.loads` returns, and what events and payloads hold.
use engineering_flow_platfor.Base.Tests.{if◌then◌else◌, ◌==◌, string_eq}
use engineering_flow_platfor.Base.Text.{is_empty}
use Prim.Native.Nat.{ℕ, zero, suc, ◌-◌}
use mathlib.Core.Path.{◌≡◌, refl}
use native.Mathlib.Omega.{arith}
use text.Mathlib.TextEquality.{eq_iff}
use Prim.Native.String.{String}
use mathlib.Core.Bool.{Bool, true, false, not}

-- `negsuc n` is -(n + 1).
pub data ℤ : Type 0 where
  pos : ℕ → ℤ
  negsuc : ℕ → ℤ

abbrev pub is_zero : ℤ → Bool
is_zero (pos zero) = true
is_zero _ = false

-- `decimal m k` is the float m / 10^k.
mutual
  pub data Value : Type 0 where
    null : Value
    bool : Bool → Value
    int : ℤ → Value
    decimal : ℤ → ℕ → Value
    str : String → Value
    list : Items → Value
    dict : Fields → Value

  pub data Items : Type 0 where
    nil : Items
    cons : Value → Items → Items

  pub data Fields : Type 0 where
    end : Fields
    field : String → Value → Fields → Fields

-- `bool(v)`
abbrev pub truthy : Value → Bool
truthy null = false
truthy (bool b) = b
truthy (int n) = not (is_zero n)
truthy (decimal m k) = not (is_zero m)
truthy (str s) = not (is_empty s)
truthy (list nil) = false
truthy (list (cons x xs)) = true
truthy (dict end) = false
truthy (dict (field k v fs)) = true

-- `a or b`
abbrev pub or_else : Value → Value → Value
or_else a b = if truthy a then a else b

-- `v if isinstance(v, dict) else {}`
abbrev pub as_dict : Value → Fields
as_dict (dict fs) = fs
as_dict _ = end

abbrev pub is_dict : Value → Bool
is_dict (dict fs) = true
is_dict _ = false

-- `d.get(k)`, the value `None` for a missing key
abbrev pub get : String → Fields → Value
get k end = null
get k (field j v fs) = if j == k then v else get k fs

-- `k in d`
abbrev pub has : String → Fields → Bool
has k end = false
has k (field j v fs) = if j == k then true else has k fs

-- `d[k] = v`, which is also `{**d, k: v}`
abbrev pub put : String → Value → Fields → Fields
put k v end = field k v end
put k v (field j w fs) = if j == k then field j v fs else field j w (put k v fs)

-- `str(v)`; `repr` is the interpreter's text of numbers, lists and dicts
abbrev pub to_text : (Value → String) → Value → String
to_text repr null = "None"
to_text repr (bool true) = "True"
to_text repr (bool false) = "False"
to_text repr (str s) = s
to_text repr v = repr v

-- `len(xs)` and `xs[-n:]` of a list value
abbrev pub size : Items → ℕ
size nil = 0
size (cons x xs) = suc (size xs)

abbrev pub drop_items : ℕ → Items → Items
drop_items zero xs = xs
drop_items (suc n) nil = nil
drop_items (suc n) (cons x xs) = drop_items n xs

abbrev pub last_items : ℕ → Items → Items
last_items n xs = drop_items (size xs - n) xs

pub get-put :
    (k j : String) (v : Value) (fs : Fields) → get j (put k v fs) ≡ (if k == j then v else get j fs)
get-put k j v end = refl
get-put k j v (field i w fs) = ground (arith, eq_iff k j, eq_iff i k, eq_iff i j, get-put k j v fs)
