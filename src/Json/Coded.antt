-- ===== src/Json/Coded.antt =====
-- A JSON library that meets `JsonLaws`, for the tests: a value is its own text. A text starts with
-- its kind, and the members of an array or an object follow, each character behind a "1" and the
-- end of each member marked by "00".
use Prim.Native.Char.{Char, code}
use Prim.Native.String.{String}
use ocppwo.Common.{
  ℕ, zero, suc, ◌≤◌, ◌<◌, ◌≡◌, refl, ap, Bool, false, Option, none, some, List, [], ◌∷◌, length,
  get_elem?, ◌==◌, if◌then◌else◌, Result, ok, throws, ℤ, pos, negsuc, arith, eq_refl, eq_iff,
  lookup,
}
use ocppwo.Json.{JsonLib, JsonLaws}

push_head : Char → List String → List String
push_head c [] = (String.◌∷◌ c String.[]) ∷ []
push_head c (x ∷ xs) = (String.◌∷◌ c x) ∷ xs

encode_member : String → String → String
encode_member String.[] rest = String.◌∷◌ "0" (String.◌∷◌ "0" rest)
encode_member (String.◌∷◌ c s) rest = String.◌∷◌ "1" (String.◌∷◌ c (encode_member s rest))

unfoldable pub encode : List String → String
unfolding encode_member
encode [] = String.[]
encode (x ∷ xs) = encode_member x (encode xs)

unfoldable pub decode : String → List String
unfolding push_head
decode String.[] = []
decode (String.◌∷◌ t String.[]) = []
decode (String.◌∷◌ t (String.◌∷◌ c s)) =
    let rest = decode s in if code t == b'1' then push_head c rest else String.[] ∷ rest

decode-encode_member : (s rest : String) → decode (encode_member s rest) ≡ s ∷ decode rest
unfolding decode encode_member
decode-encode_member String.[] rest = refl
decode-encode_member (String.◌∷◌ c s) rest = rw (decode-encode_member s rest)

decode-encode : (xs : List String) → decode (encode xs) ≡ xs
unfolding encode
decode-encode [] = unfold decode in refl
decode-encode (x ∷ xs) = rw (decode-encode_member x (encode xs), decode-encode xs)

unfoldable pub unpair : List (String × String) → List String
unpair [] = []
unpair ((k, v) ∷ ps) = k ∷ v ∷ unpair ps

unfoldable pub repair : List String → List (String × String)
repair [] = []
repair (k ∷ []) = []
repair (k ∷ v ∷ xs) = (k, v) ∷ repair xs

repair-unpair : (ps : List (String × String)) → repair (unpair ps) ≡ ps
unfolding repair unpair
repair-unpair [] = refl
repair-unpair ((k, v) ∷ ps) = rw (repair-unpair ps)

unfoldable pub ones : ℕ → String
ones zero = String.[]
ones (suc n) = String.◌∷◌ "1" (ones n)

unfoldable pub tally : String → ℕ
tally String.[] = 0
tally (String.◌∷◌ c s) = suc (tally s)

tally-ones : (n : ℕ) → tally (ones n) ≡ n
unfolding tally ones
tally-ones zero = refl
tally-ones (suc n) = ap suc (tally-ones n)

abbrev has_kind : ℕ → String → Bool
has_kind k String.[] = false
has_kind k (String.◌∷◌ c s) = code c == k

abbrev body : String → String
body String.[] = String.[]
body (String.◌∷◌ c s) = s

abbrev or_range {ℓ} : {A : Type ℓ} → Option A → Result A
or_range none = throws "out_of_range"
or_range (some a) = ok a

abbrev int_of : String → Result ℤ
int_of s =
    if has_kind b'i' s
    then ok (pos (tally (body s)))
    else if has_kind b'j' s
    then ok (negsuc (tally (body s)))
    else throws "type_error"

abbrev coded_int : ℤ → String
coded_int (pos n) = String.◌∷◌ "i" (ones n)
coded_int (negsuc n) = String.◌∷◌ "j" (ones n)

abbrev pub coded_json : JsonLib
coded_json = record {
  Json = String;
  is_array = has_kind b'a';
  is_object = has_kind b'o';
  size = λ j. length (decode (body j));
  at = λ j i.
      if has_kind b'a' j then or_range (get_elem? (decode (body j)) i) else throws "type_error";
  at_key = λ j k.
      if has_kind b'o' j
      then or_range (lookup k (repair (decode (body j))))
      else throws "type_error";
  get_int = int_of;
  get_string = λ j. if has_kind b's' j then ok (body j) else throws "type_error";
  array = λ xs. String.◌∷◌ "a" (encode xs);
  object = λ ps. String.◌∷◌ "o" (encode (unpair ps));
  of_int = coded_int;
  of_string = String.◌∷◌ "s";
  null = "n";
  parse = ok;
  dump = ok;
}

get_past : (xs : List String) (i : ℕ) → length xs ≤ i → get_elem? xs i ≡ none
get_past [] i h = refl
get_past (x ∷ xs) zero h = absurd (omega arith)
get_past (x ∷ xs) (suc i) h = get_past xs i (omega arith)

get_within : (xs : List String) (i : ℕ) → i < length xs → (x : String) × (get_elem? xs i ≡ some x)
get_within [] i h = absurd (omega arith)
get_within (x ∷ xs) zero h = (x, refl)
get_within (x ∷ xs) (suc i) h = get_within xs i (omega arith)

get_int-coded_int : (i : ℤ) → int_of (coded_int i) ≡ ok i
get_int-coded_int (pos n) = ap (λ m. ok (pos m)) (tally-ones n)
get_int-coded_int (negsuc n) = ap (λ m. ok (negsuc m)) (tally-ones n)

pub coded_laws : JsonLaws coded_json
unfolding lookup unpair
coded_laws = record {
  is_array-array = λ xs. refl;
  size-array = λ xs. rw (decode-encode xs);
  at-array = λ xs i x e. rw (decode-encode xs, e);
  at_past = λ j i a h. ("out_of_range", rw (a, get_past (decode (body j)) i h));
  at_within = λ j i a h. let (x, e) = get_within (decode (body j)) i h in (x, rw (a, e));
  is_object-object = λ ps. refl;
  is_array-object = λ ps. refl;
  is_object-array = λ xs. refl;
  at_key_first =
      λ k v ps. rw (decode-encode (unpair ((k, v) ∷ ps)), repair-unpair ((k, v) ∷ ps), eq_refl k);
  at_key_next = λ k l v ps ne.
      rw
        (
          decode-encode (unpair ((k, v) ∷ ps)),
          decode-encode (unpair ps),
          repair-unpair ((k, v) ∷ ps),
          repair-unpair ps,
        )
        (ground (arith, eq_iff k l, ne));
  get_int-of_int = get_int-coded_int;
  get_string-of_string = λ s. refl;
  get_string-object = λ ps. ("type_error", refl);
  at_key_other = λ j k h. ("type_error", rw h refl);
}
