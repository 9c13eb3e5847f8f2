-- ===== src/Models/Value.antt =====
-- `Any` in the models: the Python values that JSON and YAML documents hold.
use Prim.Native.String.{String}
use mathlib.Core.Bool.{Bool}
use qveris_capability_benchm.Prelude.Int.{ℤ, ℤ-discrete}
use qveris_capability_benchm.Prelude.Equality.{Eq, String-discrete}

-- A finite float is an integer multiple of 2^-1074.
pub data Float : Type 0 where
  finite : ℤ → Float
  infinity : Bool → Float
  nan : Float

Float-discrete : Discrete Float
unfolding ℤ-discrete
Float-discrete = hlevel ℤ-discrete

instance unfoldable pub float_eq : Eq Float
unfolding ℤ-discrete Float-discrete
float_eq = record { dec = Float-discrete }

mutual
  pub data Value : Type 0 where
    null : Value
    bool : Bool → Value
    int : ℤ → Value
    float : Float → Value
    str : String → Value
    list : Values → Value
    dict : Fields → Value

  pub data Values : Type 0 where
    nil : Values
    cons : Value → Values → Values

  pub data Fields : Type 0 where
    end : Fields
    field : String → Value → Fields → Fields

Value-discrete : Discrete Value
Value-discrete = hlevel (ℤ-discrete, String-discrete)

instance unfoldable pub value_eq : Eq Value
unfolding Value-discrete
value_eq = record { dec = Value-discrete }
