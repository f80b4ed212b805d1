-- ===== src/Fields.antt =====
-- The fields of the DATA section of a request, as the handlers of the workers read them.
use nmdaemon.Json.{Json}
use nmdaemon.Keys.{json_param_result, json_param_data}
use nmdaemon.Prelude.{String, Bool, ℤ, Option, none, some, if◌then◌else◌}
use nmdaemon.Text.{Text, codes}

module _ (js : Json) where
  open js use {Value, null, insert, of_text, find, text, boolean, integer, is_keyed}

  or_null : Option Value → Value
  or_null none = null
  or_null (some v) = v

  -- j[k] of an object or null; any other value throws.
  unfoldable pub at_key : String → Option Value → Option Value
  unfolding or_null
  at_key k none = none
  at_key k (some j) = if is_keyed j then some (or_null (find k j)) else none

  -- cmd[JSON_PARAM_DATA][param]; `none` where that throws.
  unfoldable pub data_field : String → Value → Option Value
  unfolding at_key
  data_field param j = at_key param (at_key json_param_data (some j))

  text_of : Option Value → Option Text
  text_of none = none
  text_of (some v) = text v

  boolean_of : Option Value → Option Bool
  boolean_of none = none
  boolean_of (some v) = boolean v

  integer_of : Option Value → Option ℤ
  integer_of none = none
  integer_of (some v) = integer v

  -- The field as a std::string, a bool and an int; `none` where that throws.
  unfoldable pub text_field : String → Value → Option Text
  unfolding data_field text_of
  text_field param j = text_of (data_field param j)

  unfoldable pub boolean_field : String → Value → Option Bool
  unfolding data_field boolean_of
  boolean_field param j = boolean_of (data_field param j)

  unfoldable pub integer_field : String → Value → Option ℤ
  unfolding data_field integer_of
  integer_field param j = integer_of (data_field param j)

  -- JSON_RESULT_SUCCESS, JSON_RESULT_ERR and their relatives
  unfoldable pub json_result : String → Value
  json_result result = insert json_param_result (of_text (codes result)) null
