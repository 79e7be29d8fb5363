-- ===== src/Tcp/Order.antt =====
-- The session takes turns with its peer: it reads a line, asks Boost to write the reply, and reads
-- the next once that has completed. What is written is another matter: see Tcp.Machine.
use mathlib.Core.List.{append-nil, append_assoc}
use ocppwo.Common.{
  ◌≡◌, refl, sym, ap, subst, ◌∙◌, ◌⊎◌, inl, inr, Option, none, some, List, [], ◌∷◌, ◌++◌, String,
  Result, ok, throws, ◌>>=◌,
}
use ocppwo.Json.{JsonLib}
use ocppwo.Ocpp.{OcppFrame, call, call_result, call_error}
use ocppwo.Ocpp.Frames.{parse_frame, to_json_frame}
use ocppwo.Router.{Router}
use ocppwo.Router.Dispatch.{route}
use ocppwo.Tcp.{Action, read_line, write}
use ocppwo.Tcp.Lines.{answer, read_done, do_write, do_read, start, write_done, read_failed}
use ocppwo.Tcp.Machine.{
  Machine, Event, line_arrives, read_fails, write_completes, perform, started, take_up, complete,
  step, run,
}

-- The three states in which a session can be.
abbrev reading : List String → Machine
reading w = record { under_way = read_line ∷ []; asked = w; thrown = none }

abbrev writing : String → List String → Machine
writing text w = record { under_way = write text ∷ []; asked = w; thrown = none }

abbrev stopped : List String → Option String → Machine
stopped w what = record { under_way = []; asked = w; thrown = what }

-- The reply among the actions.
abbrev pub reply_in : Result (List Action) → Option String
reply_in (ok (write text ∷ rest)) = some text
reply_in _ = none

module _ (J : JsonLib) (S : Type 0) (r : Router J S) where
  open J use {Json, parse, dump}

  -- The reference: lines are answered one after the other, up to the first that has no reply.
  abbrev pub serve : List String → List String
  serve [] = []
  serve (line ∷ lines) = elim (reply_in (read_done J S r line)) [
    | none ↦ []
    | some text ↦ text ∷ serve lines
  ]

  abbrev heard_by : List Action → Event → List String
  heard_by (read_line ∷ rest) (line_arrives line) = line ∷ []
  heard_by _ e = []

  abbrev heard_at : Machine → Event → List String
  heard_at m e = elim m.thrown [ none ↦ heard_by m.under_way e | some what ↦ [] ]

  -- The lines that were read during a run.
  abbrev pub heard : Machine → List Event → List String
  heard m [] = []
  heard m (e ∷ es) = heard_at m e ++ heard (step J S r m e) es

  -- A read line leaves nothing to do or one reply to write, or throws.
  abbrev IsOneReply : Result (List Action) → Type 0
  IsOneReply res =
      ((what : String) × (res ≡ throws what))
      ⊎ (res ≡ ok [])
      ⊎ ((text : String) × (res ≡ ok (write text ∷ [])))

  >>=-IsOneReply :
      {A : Type 0} (m : Result A) (f : A → Result (List Action))
      → ((a : A) → IsOneReply (f a))
      → IsOneReply (m >>= f)
  >>=-IsOneReply (ok a) f h = h a
  >>=-IsOneReply (throws what) f h = inl (what, refl)

  answer-IsOneReply : (f : OcppFrame Json) → IsOneReply (answer J S r f)
  unfolding answer do_write
  answer-IsOneReply (call c) =
      >>=-IsOneReply (route J S r c) _
        λ reply. >>=-IsOneReply (dump (to_json_frame J reply)) _ λ out. inr (inr (_, refl))
  answer-IsOneReply (call_result c) = inr (inl refl)
  answer-IsOneReply (call_error c) = inr (inl refl)

  read_done-IsOneReply : (line : String) → IsOneReply (read_done J S r line)
  unfolding read_done
  read_done-IsOneReply line = >>=-IsOneReply (parse line >>= parse_frame J) _ answer-IsOneReply

  -- A session that has stopped stays so.
  stopped-run :
      (w : List String) (what : Option String) (es : List Event)
      → (run J S r (stopped w what) es ≡ stopped w what) × (heard (stopped w what) es ≡ [])
  unfolding run step complete
  stopped-run w what [] = (refl, refl)
  stopped-run w none (e ∷ es) = stopped-run w none es
  stopped-run w (some what) (e ∷ es) = stopped-run w (some what) es

  abbrev Serves : Machine → List Event → Type 0
  Serves m es = (run J S r m es).asked ≡ m.asked ++ serve (heard m es)

  stopped-Serves :
      (w : List String) (what : Option String) (es : List Event) → Serves (stopped w what) es
  stopped-Serves w what es =
      let (last, none_heard) = stopped-run w what es in rw (last, none_heard) (sym (append-nil w))

  -- What follows a line with this outcome is served.
  abbrev LineServes : List String → List Event → Result (List Action) → Type 0
  LineServes w es res =
      (run J S r (take_up J S r res (stopped w none)) es).asked
      ≡ w ++ elim (reply_in res) [
        | none ↦ []
        | some text ↦ text ∷ serve (heard (take_up J S r res (stopped w none)) es)
      ]

  line-Serves :
      (w : List String) (es : List Event) (res : Result (List Action))
      → IsOneReply res
      → ((text : String) → Serves (writing text (w ++ text ∷ [])) es)
      → LineServes w es res
  unfolding take_up perform
  line-Serves w es res (inl (what, e)) ih =
      subst (LineServes w es) (sym e)
        (ap (λ m. m.asked) (stopped-run w (some what) es).0 ∙ sym (append-nil w))
  line-Serves w es res (inr (inl e)) ih =
      subst (LineServes w es) (sym e)
        (ap (λ m. m.asked) (stopped-run w none es).0 ∙ sym (append-nil w))
  line-Serves w es res (inr (inr (text, e))) ih =
      subst (LineServes w es) (sym e) (ih text ∙ append_assoc w (text ∷ []) _)

  mutual
    unfolding run step complete perform do_read write_done read_failed

    reading-Serves : (w : List String) (es : List Event) → Serves (reading w) es
    reading-Serves w [] = sym (append-nil w)
    reading-Serves w (line_arrives line ∷ es) =
        line-Serves w es (read_done J S r line) (read_done-IsOneReply line)
          (λ text. writing-Serves text (w ++ text ∷ []) es)
    reading-Serves w (read_fails ∷ es) = stopped-Serves w none es
    reading-Serves w (write_completes ∷ es) = reading-Serves w es

    writing-Serves :
        (text : String) (w : List String) (es : List Event) → Serves (writing text w) es
    writing-Serves text w [] = sym (append-nil w)
    writing-Serves text w (line_arrives line ∷ es) = writing-Serves text w es
    writing-Serves text w (read_fails ∷ es) = writing-Serves text w es
    writing-Serves text w (write_completes ∷ es) = reading-Serves w es

  -- Whatever lines the peer sends and in whatever order the operations complete, the texts that a
  -- started session asks async_write to write are the replies to the lines that it has read, in
  -- their order, up to the first line that gets none.
  pub run-serves : (es : List Event) → (run J S r started es).asked ≡ serve (heard started es)
  unfolding started start do_read perform
  run-serves es = reading-Serves [] es
