-- ===== src/Json.antt =====
-- The part of json-c that the daemon and its request ledger call. The library is not in the
-- repository, so it is a parameter of the model; the fields are named after its functions.
use agent_seat.Prelude.{ℕ, ◌≡◌, Bool, true, Option, CString}
use agent_seat.Prelude.Int.{ℤ}

-- `json_type`.
pub data JsonType : Type 0 where
  null boolean double int object array string : JsonType

pub record JsonC : Type 1 where
  pub Json : Type 0
  -- `json_object_get_type`, which `json_object_is_type` compares.
  pub type_of : Json → JsonType
  -- `json_object_object_get_ex`.
  pub object_get : Json → CString → Option Json
  -- `json_object_get_string`, up to the first NUL, and `json_object_get_string_len`.
  pub get_string : Json → CString
  pub get_string_len : Json → ℕ
  pub get_int64 : Json → ℤ
  pub get_boolean : Json → Bool
  -- The length of `json_object_to_json_string_ext(…, JSON_C_TO_STRING_PLAIN)`.
  pub text_length : Json → ℕ
  pub equal : Json → Json → Bool
  -- `json_object_equal` holds of an object and itself.
  pub equal_refl : (a : Json) → equal a a ≡ true

-- `json_object_is_type(value, type)`.
abbrev pub is_string : JsonType → Bool
is_string string = true
is_string _ = Bool.false

abbrev pub is_int : JsonType → Bool
is_int int = true
is_int _ = Bool.false

abbrev pub is_boolean : JsonType → Bool
is_boolean boolean = true
is_boolean _ = Bool.false

abbrev pub is_object : JsonType → Bool
is_object object = true
is_object _ = Bool.false
