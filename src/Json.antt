-- ===== src/Json.antt =====
-- The JSON library that the program calls (nlohmann::json), as a parameter: the operations the
-- source uses, and in `JsonLaws` what its manual says of them.
pub mod Arrays
pub mod Coded
use ocppwo.Common.{
  ℕ, ◌≤◌, ◌<◌, ◌≡◌, Bool, true, false, some, List, ◌∷◌, String, length, get_elem?, Result, ok,
  Throws, ℤ,
}

pub record JsonLib : Type 1 where
  pub Json : Type 0
  pub is_array : Json → Bool
  pub is_object : Json → Bool
  pub size : Json → ℕ
  -- `j.at(i)` and `j.at("key")` throw `out_of_range`, or `type_error` on a value of another kind.
  pub at : Json → ℕ → Result Json
  pub at_key : Json → String → Result Json
  -- `j.get<int>()` and `j.get<std::string>()`, also as implicit conversions.
  pub get_int : Json → Result ℤ
  pub get_string : Json → Result String
  -- `json::array({…})`, and an object from its pairs.
  pub array : List Json → Json
  pub object : List (String × Json) → Json
  pub of_int : ℤ → Json
  pub of_string : String → Json
  -- `json()`
  pub null : Json
  pub parse : String → Result Json
  -- Throws on a text that is not UTF-8.
  pub dump : Json → Result String

pub record JsonLaws (J : JsonLib) : Type 0 where
  pub is_array-array : (xs : List J.Json) → J.is_array (J.array xs) ≡ true
  pub size-array : (xs : List J.Json) → J.size (J.array xs) ≡ length xs
  pub at-array :
      (xs : List J.Json) (i : ℕ) (x : J.Json) → get_elem? xs i ≡ some x → J.at (J.array xs) i ≡ ok x
  -- `at` on an array throws exactly past its end.
  pub at_past : (j : J.Json) (i : ℕ) → J.is_array j ≡ true → J.size j ≤ i → Throws (J.at j i)
  pub at_within :
      (j : J.Json) (i : ℕ) → J.is_array j ≡ true → i < J.size j → (x : J.Json) × (J.at j i ≡ ok x)
  pub is_object-object : (ps : List (String × J.Json)) → J.is_object (J.object ps) ≡ true
  pub is_array-object : (ps : List (String × J.Json)) → J.is_array (J.object ps) ≡ false
  pub is_object-array : (xs : List J.Json) → J.is_object (J.array xs) ≡ false
  pub at_key_first :
      (k : String) (v : J.Json) (ps : List (String × J.Json))
      → J.at_key (J.object ((k, v) ∷ ps)) k ≡ ok v
  pub at_key_next :
      (k l : String) (v : J.Json) (ps : List (String × J.Json))
      → (l ≡ k → ⊥)
      → J.at_key (J.object ((k, v) ∷ ps)) l ≡ J.at_key (J.object ps) l
  pub get_int-of_int : (i : ℤ) → J.get_int (J.of_int i) ≡ ok i
  pub get_string-of_string : (s : String) → J.get_string (J.of_string s) ≡ ok s
  pub get_string-object : (ps : List (String × J.Json)) → Throws (J.get_string (J.object ps))
  pub at_key_other : (j : J.Json) (k : String) → J.is_object j ≡ false → Throws (J.at_key j k)
