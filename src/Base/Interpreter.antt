-- ===== src/Base/Interpreter.antt =====
-- What the models take from the interpreter as it is.
use engineering_flow_platfor.Base.Value.{Value, ℤ}
use Prim.Native.String.{String}
use mathlib.Core.Option.{Option}

-- `str` of numbers, lists and dicts, and `str.lower`
pub record Texts : Type 0 where
  pub repr : Value → String
  pub lower : String → String

-- `str` of a number, list or dict, and `int(float(v))` of a text and of a whole number, none when it raises
pub record Conversions : Type 0 where
  pub repr : Value → String
  pub int_of_text : String → Option ℤ
  pub int_of_float : ℤ → Option ℤ
