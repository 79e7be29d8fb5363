-- ===== src/Ocpp/Ids.antt =====
-- json_wo/ocpp_model.cpp: `generate_message_id`, on the numbers that the distribution gives.
use Prim.Native.String.{◌++◌, len, slice}
use text.Mathlib.TextLemmas.{append_cancel_right}
use text.Mathlib.TextPositions.{len-append, slice-append_right}
use ocppwo.Common.{
  ℕ, zero, suc, ◌+◌, ◌<◌, ◌≡◌, refl, sym, ap, ◌∙◌, subst, String, str_eq, if◌then◌else◌, arith,
  Bool, true, Bool-cases, inl, inr, ◌&&◌, ◌==◌, ◌≤◌,
}

-- `"0123456789ABCDEF"[d]`
unfoldable pub hex_digit : ℕ → String
hex_digit d = slice "0123456789ABCDEF" d (d + 1)

-- The rounds of the loop from `i` on, `n` of them; the i-th draw gives `draw i`.
unfoldable pub add_digits : ℕ → ℕ → (ℕ → ℕ) → String → String
unfolding hex_digit
add_digits zero i draw id = id
add_digits (suc n) i draw id = add_digits n (i + 1) draw (id ++ hex_digit (draw i))

-- The draws are between 0 and 15.
unfoldable pub generate_message_id : (ℕ → ℕ) → String
unfolding add_digits
generate_message_id draw = add_digits 8 0 draw "msg_"

hex_value : String → ℕ
hex_value t =
    if str_eq t "0"
    then 0
    else if str_eq t "1"
    then 1
    else if str_eq t "2"
    then 2
    else if str_eq t "3"
    then 3
    else if str_eq t "4"
    then 4
    else if str_eq t "5"
    then 5
    else if str_eq t "6"
    then 6
    else if str_eq t "7"
    then 7
    else if str_eq t "8"
    then 8
    else if str_eq t "9"
    then 9
    else if str_eq t "A"
    then 10
    else if str_eq t "B"
    then 11
    else if str_eq t "C"
    then 12
    else if str_eq t "D"
    then 13
    else if str_eq t "E"
    then 14
    else 15

-- Whether the test holds of all numbers below this one.
abbrev all_below : ℕ → (ℕ → Bool) → Bool
all_below zero f = true
all_below (suc n) f = f n && all_below n f

all_below-at : (n d : ℕ) (f : ℕ → Bool) → all_below n f ≡ true → d < n → f d ≡ true
all_below-at zero d f a h = ground arith
all_below-at (suc n) d f a h = ground (arith, all_below-at n d f)

both : (v l d : ℕ) → (v == d) && (l == 1) ≡ true → (v ≡ d) × (l ≡ 1)
both v l d h = ground arith

hex_value-hex_digit : (d : ℕ) → d < 16 → (hex_value (hex_digit d) ≡ d) × (len (hex_digit d) ≡ 1)
unfolding hex_value hex_digit
hex_value-hex_digit d h =
    let all =
      all_below-at 16 d (λ k. (hex_value (hex_digit k) == k) && (len (hex_digit k) == 1)) refl h in
    both (hex_value (hex_digit d)) (len (hex_digit d)) d all

hex_digit-injective : (d e : ℕ) → d < 16 → e < 16 → hex_digit d ≡ hex_digit e → d ≡ e
hex_digit-injective d e h k q =
    sym (hex_value-hex_digit d h).0 ∙ ap hex_value q ∙ (hex_value-hex_digit e k).0

last_digit :
    (s t : String) (d e : ℕ)
    → d < 16
    → e < 16
    → len s ≡ len t
    → s ++ hex_digit d ≡ t ++ hex_digit e
    → (s ≡ t) × (d ≡ e)
last_digit s t d e h k n q =
    (append_cancel_right s t (hex_digit d) (q ∙ ap (λ x. t ++ hex_digit x) (sym same)), same)
  where
    same : d ≡ e
    same = hex_digit-injective d e h k (
        sym (slice-append_right s (hex_digit d))
        ∙ ap (λ x. slice x (len s) (len s + len (hex_digit d))) q
        ∙ rw (n, (hex_value-hex_digit d h).1, ← (hex_value-hex_digit e k).1)
            (slice-append_right t (hex_digit e)))

add_digits-injective :
    (n i : ℕ) (draw draw' : ℕ → ℕ) (s t : String)
    → ((k : ℕ) → draw k < 16)
    → ((k : ℕ) → draw' k < 16)
    → len s ≡ len t
    → add_digits n i draw s ≡ add_digits n i draw' t
    → (s ≡ t) × ((k : ℕ) → i ≤ k → k < i + n → draw k ≡ draw' k)
unfolding add_digits
add_digits-injective zero i draw draw' s t h h' e q = (q, λ k l u. omega (arith, l, u))
add_digits-injective (suc n) i draw draw' s t h h' e q =
    let (same, later) =
      add_digits-injective n (i + 1) draw draw' (s ++ hex_digit (draw i)) (t ++ hex_digit (draw' i))
        h h'
        (omega (
          arith,
          e,
          len-append s (hex_digit (draw i)),
          len-append t (hex_digit (draw' i)),
          (hex_value-hex_digit (draw i) (h i)).1,
          (hex_value-hex_digit (draw' i) (h' i)).1,
        ))
        q in
    let (start, here) = last_digit s t (draw i) (draw' i) (h i) (h' i) e same in
    (
      start,
      λ k l u. elim (Bool-cases (k == i)) [
        | inl e ↦ subst (λ j. draw j ≡ draw' j) (sym (ground arith)) here
        | inr e ↦ later k (ground arith) (omega (arith, u))
      ],
    )

-- Two message ids are equal only if each of the eight draws between 0 and 15 gave the same for
-- both.
pub generate_message_id-injective :
    (draw draw' : ℕ → ℕ)
    → ((k : ℕ) → draw k < 16)
    → ((k : ℕ) → draw' k < 16)
    → generate_message_id draw ≡ generate_message_id draw'
    → (k : ℕ) → k < 8
    → draw k ≡ draw' k
unfolding generate_message_id
generate_message_id-injective draw draw' h h' q k l =
    (add_digits-injective 8 0 draw draw' "msg_" "msg_" h h' refl q).1 k (omega arith) l
