-- ===== src/Json.antt =====
-- What the code uses of nlohmann::json (src/json/json.hpp), as an interface that its clients take
-- as a parameter. Keys are texts that the code writes; values are made and read by operations.
use text.Mathlib.Text.{◌==◌ as str_eq}
use nmdaemon.Prelude.{String, ◌≡◌, Bool, true, ℤ, Option, none, some, List, [], if◌then◌else◌}
use nmdaemon.Text.{Text}

pub record Json : Type 1 where
  pub Value : Type 0
  -- json {} and the missing value
  pub null : Value
  pub of_text : Text → Value
  pub of_bool : Bool → Value
  pub of_integer : ℤ → Value
  pub of_list : List Value → Value
  -- j.contains(k) and j.at(k): `none` when `j` is no object or has no such key
  pub find : String → Value → Option Value
  -- j[k] = v, where `j` is null or an object
  pub insert : String → Value → Value → Value
  -- j.get<std::string>(): `none` when it throws
  pub text : Value → Option Text
  -- j.get<bool>(): `none` when it throws
  pub boolean : Value → Option Bool
  -- j.get<int>(): `none` when it throws
  pub integer : Value → Option ℤ
  -- the values that `for(auto& v : j)` visits
  pub elements : Value → List Value
  pub is_object : Value → Bool
  -- null or an object
  pub is_keyed : Value → Bool
  pub find-null : (k : String) → find k null ≡ none
  pub find-insert :
      (k l : String) (v j : Value)
      → is_keyed j ≡ true
      → find l (insert k v j) ≡ (if str_eq k l then some v else find l j)
  pub is_keyed-null : is_keyed null ≡ true
  pub is_keyed-insert :
      (k : String) (v j : Value) → is_keyed j ≡ true → is_keyed (insert k v j) ≡ true
  pub text-null : text null ≡ none
  pub text-of_text : (s : Text) → text (of_text s) ≡ some s
  pub boolean-of_bool : (b : Bool) → boolean (of_bool b) ≡ some b
  pub elements-null : elements null ≡ []
  pub elements-of_list : (l : List Value) → elements (of_list l) ≡ l
