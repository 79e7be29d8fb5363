-- ===== src/Signals.antt =====
-- json_wo/include/signals.hpp: a table of slots under numbers. A slot is named by a value; the order
-- of the table stands for the one in which the unordered_map is walked.
use mathlib.Core.List.{map-append, append-nil}
use ocppwo.Common.{
  ℕ, ◌+◌, ◌%◌, ◌^◌, ◌≤◌, ◌<◌, ◌≡◌, refl, ap, ◌∙◌, Bool, true, false, List, [], ◌∷◌, ◌++◌, map, ◌==◌,
  if◌then◌else◌, arith, All, All-snoc,
}

pub record Signals (Slot : Type 0) : Type 0 where
  pub next : ℕ
  pub slots : List (ℕ × Slot)

module _ {Slot : Type 0} where
  abbrev has_key : ℕ → List (ℕ × Slot) → Bool
  has_key key [] = false
  has_key key ((k, f) ∷ slots) = if k == key then true else has_key key slots

  unfoldable pub connect : Slot → Signals Slot → Signals Slot × ℕ
  connect slot s =
      let key = (s.next + 1) % 2 ^ 64 in
      (
        record {
          next = key;
          slots = if has_key key s.slots then s.slots else s.slots ++ (key, slot) ∷ [];
        },
        key,
      )

  -- The slots that are called, in the order of the calls.
  unfoldable pub emit : Signals Slot → List Slot
  emit s = map (λ e. e.1) s.slots

  abbrev without : ℕ → List (ℕ × Slot) → List (ℕ × Slot)
  without key [] = []
  without key ((k, f) ∷ slots) = if k == key then without key slots else (k, f) ∷ without key slots

  unfoldable pub disconnect : ℕ → Signals Slot → Signals Slot
  disconnect key s = record s { slots = without key s.slots }

  unfoldable pub clear : Signals Slot → Signals Slot
  clear s = record s { slots = [] }

  -- No slot has a number above the last that was given out.
  abbrev pub IsNumbered : Signals Slot → Type 0
  IsNumbered s = All (λ e. e.0 ≤ s.next) s.slots

  absent :
      (n : ℕ) (slots : List (ℕ × Slot))
      → All (λ e. e.0 ≤ n) slots
      → (has_key (n + 1) slots ≡ false)
        × (without (n + 1) slots ≡ slots)
        × All (λ e. e.0 ≤ n + 1) slots
  absent n [] a = (refl, refl, tt)
  absent n ((k, f) ∷ slots) a =
      let (h, w, b) = absent n slots a.1 in
      (ground (arith, h, a.0), ground (arith, w, a.0), (omega (arith, a.0), b))

  without-append :
      (key : ℕ) (xs ys : List (ℕ × Slot))
      → without key (xs ++ ys) ≡ without key xs ++ without key ys
  without-append key [] ys = refl
  without-append key ((k, f) ∷ xs) ys = ground (arith, without-append key xs ys)

  -- As long as fewer than 2^64 - 1 numbers were given out: a slot that is connected is called by an
  -- emit, after those that were called before, and no more once its number is disconnected.
  pub connect_lem :
      (slot : Slot) (s : Signals Slot)
      → IsNumbered s
      → s.next + 1 < 2 ^ 64
      → let (s', key) = connect slot s in
        (emit s' ≡ emit s ++ slot ∷ []) × IsNumbered s' × (emit (disconnect key s') ≡ emit s)
  unfolding connect emit disconnect
  connect_lem slot s a h =
      let key : (s.next + 1) % 2 ^ 64 ≡ s.next + 1 = omega (arith, h) in
      let same : (s.next + 1) == (s.next + 1) ≡ true = ground arith in
      let (new, kept, low) = absent s.next s.slots a in
      rw (key, new)
        (
          map-append (λ e. e.1) s.slots ((s.next + 1, slot) ∷ []),
          All-snoc s.slots (λ e. e.0 ≤ s.next + 1) (omega arith) low,
          ap (map (λ e. e.1)) (
              without-append (s.next + 1) s.slots ((s.next + 1, slot) ∷ [])
              ∙ rw kept (
                  ap (λ b. s.slots ++ (if b then [] else (s.next + 1, slot) ∷ [])) same
                  ∙ append-nil s.slots)),
        )
