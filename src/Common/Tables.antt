-- ===== src/Common/Tables.antt =====
-- A std::map or std::unordered_map with text keys, as an association list: `lookup` is `find`,
-- `insert` is `m[k] = v`, `emplace` keeps an entry that is there, and `erase` removes one.
use Prim.Native.String.{String}
use mathlib.Core.Path.{◌≡◌, refl, subst}
use mathlib.Core.Bool.{true}
use mathlib.Core.Logic.{inl, inr, ◌≢◌}
use mathlib.Core.List.{List, [], ◌∷◌}
use mathlib.Core.Option.{Option, none, some}
use native.Mathlib.Omega.{arith}
use text.Mathlib.TextEquality.{eq_iff}
use ocppwo.Common.Tests.{str_eq, if◌then◌else◌, Bool-cases, Option-cases}
use ocppwo.Common.Lists.{All}

module _ {ℓ} {V : Type ℓ} where
  unfoldable pub lookup : String → List (String × V) → Option V
  lookup k [] = none
  lookup k ((j, v) ∷ m) = if str_eq j k then some v else lookup k m

  unfoldable pub insert : String → V → List (String × V) → List (String × V)
  insert key new [] = (key, new) ∷ []
  insert key new ((j, w) ∷ m) = if str_eq j key then (key, new) ∷ m else (j, w) ∷ insert key new m

  unfoldable pub erase : String → List (String × V) → List (String × V)
  erase k [] = []
  erase k ((j, w) ∷ m) = if str_eq j k then erase k m else (j, w) ∷ erase k m

  pub lookup-insert :
      (m : List (String × V)) (key other : String) (v : V)
      → lookup other (insert key v m) ≡ (if str_eq key other then some v else lookup other m)
  unfolding lookup insert
  lookup-insert [] key other v = refl
  lookup-insert ((i, w) ∷ m) key other v =
      ground (arith, lookup-insert m key other v, eq_iff i key, eq_iff i other, eq_iff key other)

  pub lookup-erase :
      (k j : String) (m : List (String × V))
      → lookup j (erase k m) ≡ (if str_eq k j then none else lookup j m)
  unfolding lookup erase
  lookup-erase k j [] = ground arith
  lookup-erase k j ((i, w) ∷ m) =
      ground (arith, eq_iff k j, eq_iff i k, eq_iff i j, lookup-erase k j m)

  pub insert-All {κ} :
      (P : V → Type κ) (k : String) (v : V) (m : List (String × V))
      → P v
      → All (λ e. P e.1) m
      → All (λ e. P e.1) (insert k v m)
  unfolding insert
  insert-All P k v [] h a = (h, tt)
  insert-All P k v ((j, w) ∷ m) h a = ground (arith, insert-All P k v m h a.1)

  pub lookup-All {κ} :
      (P : V → Type κ) (k : String) (m : List (String × V)) {v : V}
      → All (λ e. P e.1) m
      → lookup k m ≡ some v
      → P v
  unfolding lookup
  lookup-All P k [] a e = cc
  lookup-All P k ((j, w) ∷ m) {v} a e = elim (Bool-cases (str_eq j k)) [
    | inl h ↦ subst P (same h) a.0
    | inr h ↦ lookup-All P k m a.1 (ground arith)
  ]
    where
      same : str_eq j k ≡ true → w ≡ v
      same h = ground arith

  pub lookup-insert_eq :
      (k j : String) (v : V) (m : List (String × V)) → k ≡ j → lookup j (insert k v m) ≡ some v
  lookup-insert_eq k j v m e = ground (arith, lookup-insert m k j v, eq_iff k j)

  pub lookup-insert_ne :
      (k j : String) (v : V) (m : List (String × V)) → k ≢ j → lookup j (insert k v m) ≡ lookup j m
  lookup-insert_ne k j v m ne = ground (arith, lookup-insert m k j v, eq_iff k j)

  -- `m.emplace(k, v)`
  unfoldable pub emplace : String → V → List (String × V) → List (String × V)
  emplace k v m = elim (lookup k m) [ none ↦ (k, v) ∷ m | some w ↦ m ]

  -- No key stands twice.
  abbrev pub IsUnique : List (String × V) → Type ℓ
  IsUnique [] = Unit
  IsUnique ((k, v) ∷ m) = (lookup k m ≡ none) × IsUnique m

  pub erase-IsUnique : (k : String) (m : List (String × V)) → IsUnique m → IsUnique (erase k m)
  unfolding erase
  erase-IsUnique k [] u = tt
  erase-IsUnique k ((j, w) ∷ m) u = ground (arith, erase-IsUnique k m u.1, lookup-erase k j m)

  pub emplace-IsUnique :
      (k : String) (v : V) (m : List (String × V)) → IsUnique m → IsUnique (emplace k v m)
  unfolding emplace
  emplace-IsUnique k v m u = elim (Option-cases (lookup k m)) [
    | inl e ↦ rw (e, emplace) (e, u)
    | inr (w, e) ↦ rw (e, emplace) u
  ]
