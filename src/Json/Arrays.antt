-- ===== src/Json/Arrays.antt =====
-- The laws of the JSON library as rewriting rules: reading what was just built.
use ocppwo.Common.{◌≡◌, true, false, refl, List, ◌∷◌, String, length, ok, ℤ}
use ocppwo.Json.{JsonLib, JsonLaws}

module _ (J : JsonLib) ⦃L : JsonLaws J⦄ where
  open J use {Json, at, array}

  pub at₀ : (a : Json) (xs : List Json) → at (array (a ∷ xs)) 0 ≡ ok a
  at₀ a xs = L.at-array (a ∷ xs) 0 a refl

  pub at₁ : (a b : Json) (xs : List Json) → at (array (a ∷ b ∷ xs)) 1 ≡ ok b
  at₁ a b xs = L.at-array (a ∷ b ∷ xs) 1 b refl

  pub at₂ : (a b c : Json) (xs : List Json) → at (array (a ∷ b ∷ c ∷ xs)) 2 ≡ ok c
  at₂ a b c xs = L.at-array (a ∷ b ∷ c ∷ xs) 2 c refl

  pub at₃ : (a b c d : Json) (xs : List Json) → at (array (a ∷ b ∷ c ∷ d ∷ xs)) 3 ≡ ok d
  at₃ a b c d xs = L.at-array (a ∷ b ∷ c ∷ d ∷ xs) 3 d refl

  pub at₄ : (a b c d e : Json) (xs : List Json) → at (array (a ∷ b ∷ c ∷ d ∷ e ∷ xs)) 4 ≡ ok e
  at₄ a b c d e xs = L.at-array (a ∷ b ∷ c ∷ d ∷ e ∷ xs) 4 e refl

  pub is_array-array : (xs : List Json) → J.is_array (array xs) ≡ true
  is_array-array = L.is_array-array

  pub is_object-array : (xs : List Json) → J.is_object (array xs) ≡ false
  is_object-array = L.is_object-array

  pub is_object-object : (ps : List (String × Json)) → J.is_object (J.object ps) ≡ true
  is_object-object = L.is_object-object

  pub size-array : (xs : List Json) → J.size (array xs) ≡ length xs
  size-array = L.size-array

  pub get_int-of_int : (i : ℤ) → J.get_int (J.of_int i) ≡ ok i
  get_int-of_int = L.get_int-of_int

  pub get_string-of_string : (s : String) → J.get_string (J.of_string s) ≡ ok s
  get_string-of_string = L.get_string-of_string

  pub at_key_first :
      (k : String) (v : Json) (ps : List (String × Json))
      → J.at_key (J.object ((k, v) ∷ ps)) k ≡ ok v
  at_key_first = L.at_key_first

pub ruleset json_laws = (
  at₀, at₁, at₂, at₃, at₄, is_array-array, is_object-array, is_object-object, size-array,
  get_int-of_int, get_string-of_string, at_key_first,
)
