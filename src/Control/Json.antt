-- ===== src/Control/Json.antt =====
-- What serverd calls of nlohmann::json. `none` is an exception.
use nf_engine.Prelude.{ℕ, List, Bool, Option}
use nf_engine.Prelude.Texts.{Text}

pub record JsonLibrary : Type 1 where
  pub Json : Type 0
  -- a `double`
  pub Real : Type 0
  pub parse : Text → Option Json
  pub is_object : Json → Bool
  -- the elements of `j[key]`, if `j` contains the key and it is an array
  pub elements : Json → Text → Option (List Json)
  -- `j.value(key, default)`, as a text and as a number of 64 bits
  pub text_value : Json → Text → Text → Option Text
  pub num_value : Json → Text → ℕ → Option ℕ
  -- the values that are built: a number below 2^64, an `int` by its bit pattern, and so on
  pub number : ℕ → Json
  pub signed : ℕ → Json
  pub real : Real → Json
  pub boolean : Bool → Json
  pub string : Text → Json
  pub array : List Json → Json
  pub object : List (Text × Json) → Json
  pub dump : Json → Option Text
