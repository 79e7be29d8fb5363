-- ===== src/Router/Sends.antt =====
-- Rules for code that sends: what is sent, and how often.
use ocppwo.Common.{◌≡◌, refl, List, [], ◌∷◌, ◌++◌, String, Result, ok, throws, ◌⊎◌, inl, inr}
use ocppwo.Router.Effects.{Eff, Send, ◌>>=◌, lift, try_catch}

-- A send callback that keeps what it is given, in order.
unfoldable pub record_send : Send (List String)
record_send text log = (ok tt, log ++ text ∷ [])

module _ (P : String → Type 0) where
  abbrev pub SentOnce : Result (Unit {0}) × List String → List String → Type 0
  SentOnce r log = (text : String) × P text × (r ≡ (ok tt, log ++ text ∷ []))

  -- The computation returns, having sent exactly one text, and `P` holds of it.
  abbrev pub SendsOnce : Eff (List String) (Unit {0}) → Type 0
  SendsOnce m = (log : List String) → SentOnce (m log) log

  -- It does so, or throws before it has sent any.
  abbrev pub SendsOrThrows : Eff (List String) (Unit {0}) → Type 0
  SendsOrThrows m =
      (log : List String) → SentOnce (m log) log ⊎ ((what : String) × (m log ≡ (throws what, log)))

  pub try_catch-SendsOnce :
      (m : Eff (List String) (Unit {0})) (f : String → Eff (List String) (Unit {0}))
      → SendsOrThrows m
      → ((what : String) → SendsOnce (f what))
      → SendsOnce (try_catch m f)
  try_catch-SendsOnce m f h k log = elim (h log) [
    | inl (text, p, e) ↦ (text, p, rw e)
    | inr (what, e) ↦ (let (text, p, e') = k what log in (text, p, rw (e, e')))
  ]

  pub lift-SendsOrThrows :
      {A : Type 0} (r : Result A) (f : A → Eff (List String) (Unit {0}))
      → ((a : A) → SendsOrThrows (f a))
      → SendsOrThrows (lift r >>= f)
  lift-SendsOrThrows (ok a) f h log = h a log
  lift-SendsOrThrows (throws e) f h log = inr (e, refl)

  pub lift_record-SendsOnce :
      (r : Result String) (text : String)
      → r ≡ ok text
      → P text
      → SendsOnce (lift r >>= record_send)
  unfolding record_send
  lift_record-SendsOnce r text e p log = (text, p, rw e)

pub SendsOnce-weaken :
    (P Q : String → Type 0) (m : Eff (List String) (Unit {0}))
    → ((text : String) → P text → Q text)
    → SendsOnce P m
    → SendsOnce Q m
SendsOnce-weaken P Q m w h log = let (text, p, e) = h log in (text, w text p, e)
