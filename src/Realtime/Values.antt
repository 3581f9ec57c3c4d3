-- ===== src/Realtime/Values.antt =====
-- TypedValue of renderer/renderer.go and RealtimeCorrelation of realtime.go. A text, a float and a
-- name are numbers, 0 the empty text; a pointer to a bool is the bool.
use request_generator.Common.{ℕ, Bool, true, false, ◌&&◌, not, Option, none, some, ◌==◌}

pub data TypedValueType : Type 0 where
  string_type number_type bool_type null_type : TypedValueType
  other_type : ℕ → TypedValueType

pub record TypedValue : Type 0 where
  pub type : TypedValueType
  pub string : ℕ
  pub number : ℕ
  pub bool : Option Bool

unfoldable pub same_type : TypedValueType → TypedValueType → Bool
same_type string_type string_type = true
same_type number_type number_type = true
same_type bool_type bool_type = true
same_type null_type null_type = true
same_type (other_type m) (other_type n) = m == n
same_type s t = false

-- Whether Validate returns no error.
unfoldable pub typed_value_valid : TypedValueType → Option Bool → Bool
typed_value_valid string_type b = true
typed_value_valid number_type b = true
typed_value_valid null_type b = true
typed_value_valid bool_type none = false
typed_value_valid bool_type (some b) = true
typed_value_valid (other_type n) b = false

pub record Correlation : Type 0 where
  pub field : ℕ
  pub value : TypedValue

unfoldable pub correlation_valid : Correlation → Bool
correlation_valid c = not (c.field == 0) && typed_value_valid c.value.type c.value.bool
