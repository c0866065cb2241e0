-- ===== src/State/Value.antt =====
-- app/state/value.py. An integer and a float are one kind of number; a `dict` or `list` stands for
-- its `repr`, the only thing that the arbitrator reads of it.
use discord_personality_bot.Base.{ℕ, String, Bool, Option, none, some}
use discord_personality_bot.Number.{Float, float_of}

pub data Value : Type 0 where
  null : Value
  boolean : Bool → Value
  number : Float → Value
  text : String → Value
  json : String → Value

pub data ValueType : Type 0 where
  null_type boolean_type number_type text_type json_type : ValueType

unfoldable pub value_type_of : Value → ValueType
value_type_of null = null_type
value_type_of (boolean b) = boolean_type
value_type_of (number x) = number_type
value_type_of (text s) = text_type
value_type_of (json s) = json_type

-- What `float(value)` makes of a value that is stored as a number, and other values as they are; none
-- is the OverflowError.
unfoldable pub stored_form : Value → Option Value
unfolding float_of
stored_form (number x) = elim (float_of x) [ none ↦ none | some y ↦ some (number y) ]
stored_form null = some null
stored_form (boolean b) = some (boolean b)
stored_form (text s) = some (text s)
stored_form (json s) = some (json s)

-- A row of `state_values`, less its primary key; instants are numbers.
pub record StateValue : Type 0 where
  pub value : Value
  pub confidence : Option Float
  pub version : ℕ
  pub created_at : ℕ
  pub updated_at : ℕ
  pub updated_by_run : Option ℕ
  pub updated_by_event : Option ℕ

-- The test that the source writes out in three places: a number, and no Boolean.
unfoldable pub numeric_of : Value → Option Float
numeric_of (number x) = some x
numeric_of _ = none

unfoldable pub numeric : StateValue → Option Float
unfolding numeric_of
numeric v = numeric_of v.value
