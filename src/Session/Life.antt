-- ===== src/Session/Life.antt =====
-- The life of one call, as the caller sees it: it opens, and ends with its callback.
use ocppwo.Common.{
  ◌≡◌, false, Option, none, some, map, List, [], ◌∷◌, ◌++◌, String, str_eq, if◌then◌else◌,
}
use ocppwo.Ocpp.{OcppFrame}
use ocppwo.Ocpp.Tagging.{frame_id}
use ocppwo.Session.{Callback, Pending, Effect, deliver}
use ocppwo.Session.Reply.{is_call}

-- The callbacks invoked for this id, in order, with their frames.
abbrev pub deliveries :
    {Json : Type 0} → String → List (Effect Json) → List (Callback × OcppFrame Json)
deliveries id [] = []
deliveries id (deliver k cb f ∷ es) = (if str_eq k id then (cb, f) ∷ [] else []) ++ deliveries id es
deliveries id (_ ∷ es) = deliveries id es

-- What a caller is told: nothing, if it gave no callback.
abbrev pub told :
    {Json : Type 0} → Option Callback → OcppFrame Json → List (Callback × OcppFrame Json)
told none f = []
told (some cb) f = (cb, f) ∷ []

-- One move in the life of the call `id`: the calls that are sent under it, and what is told. While
-- a call is pending, another one that is sent under its id changes nothing.
pub data Move (Json : Type 0) (id : String)
    : Option Pending
      → List Pending
      → List (Callback × OcppFrame Json)
      → Option Pending
      → Type 0 where
  rests : (o : Option Pending) → Move Json id o [] [] o
  opens : (p : Pending) → Move Json id none (p ∷ []) [] (some p)
  repeats : (w p : Pending) → Move Json id (some w) (p ∷ []) [] (some w)
  -- by one frame with the call's id, a CallResult or a CallError
  ends :
      (p : Pending) (f : OcppFrame Json)
      → frame_id f ≡ id
      → is_call f ≡ false
      → Move Json id (some p) [] (told p.resolve f) none

-- What is seen of a call from outside: that it is sent, and that its callback is invoked.
pub data Mark (Json : Type 0) : Type 0 where
  sent : Pending → Mark Json
  invoked : Callback × OcppFrame Json → Mark Json

abbrev pub marks :
    {Json : Type 0} → List Pending → List (Callback × OcppFrame Json) → List (Mark Json)
marks ps xs = map sent ps ++ map invoked xs

-- A sequence of moves, with all that is seen of them.
pub data Life (Json : Type 0) (id : String)
    : Option Pending → List (Mark Json) → Option Pending → Type 0 where
  over : (o : Option Pending) → Life Json id o [] o
  goes_on :
      {o p q : Option Pending} {ps : List Pending} {xs : List (Callback × OcppFrame Json)}
      {ms : List (Mark Json)}
      → Move Json id o ps xs p
      → Life Json id p ms q
      → Life Json id o (marks ps xs ++ ms) q

-- The callbacks among the marks.
abbrev pub tellings : {Json : Type 0} → List (Mark Json) → List (Callback × OcppFrame Json)
tellings [] = []
tellings (sent p ∷ ms) = tellings ms
tellings (invoked x ∷ ms) = x ∷ tellings ms
