-- ===== src/Router/Keeps.antt =====
-- The router changes its caller's state only through the send callback: a relation that each
-- sending keeps is kept by `handle_incoming`.
use ocppwo.Common.{
  ◌≡◌, refl, [], String, Result, ok, throws, Option, none, some, inl, inr, ℤ, Bool-cases, All,
  lookup, lookup-All, insert-All, Expected, unexpected, expected, ltb, ◌==◌, ◌||◌, not, is_int,
}
use ocppwo.Common.{◌>>=◌ as bindr}
use ocppwo.Json.{JsonLib}
use ocppwo.Router.Effects.{Eff, Send, lift, ◌>>=◌, try_catch, after, rescue}
use ocppwo.Router.{Invoker, Router}
use ocppwo.Router.Dispatch.{
  error_reply, result_reply, answer, dispatch, by_type, by_shape, invoker, register_handler,
  send_error, handle_incoming, best_effort_id,
}

-- A relation between the states before and after, that doing nothing and doing two things keep.
pub record Preorder {S : Type 0} (R : S → S → Type 0) : Type 0 where
  pub same : (s : S) → R s s
  pub then_too : (s t u : S) → R s t → R t u → R s u

module _ {S : Type 0} (R : S → S → Type 0) (P : Preorder R) where
  pub record Keeps {A : Type 0} (m : Eff S A) : Type 0 where
    pub kept : (s : S) → R s (m s).1

  pub lift-Keeps : {A : Type 0} (r : Result A) → Keeps (lift r)
  lift-Keeps r = record { kept = P.same }

  pub >>=-Keeps :
      {A B : Type 0} (m : Eff S A) (f : A → Eff S B)
      → Keeps m
      → ((a : A) → Keeps (f a))
      → Keeps (m >>= f)
  >>=-Keeps {A} m f h k = record { kept = λ s. go s (m s) (h.kept s) }
    where
      go : (s : S) (p : Result A × S) → R s p.1 → R s (after p f).1
      go s (ok a, t) e = P.then_too s t (f a t).1 e ((k a).kept t)
      go s (throws what, t) e = e

  pub try_catch-Keeps :
      {A : Type 0} (m : Eff S A) (f : String → Eff S A)
      → Keeps m
      → ((what : String) → Keeps (f what))
      → Keeps (try_catch m f)
  try_catch-Keeps {A} m f h k = record { kept = λ s. go s (m s) (h.kept s) }
    where
      go : (s : S) (p : Result A × S) → R s p.1 → R s (rescue p f).1
      go s (ok a, t) e = e
      go s (throws what, t) e = P.then_too s t (f what t).1 e ((k what).kept t)

  module _ (J : JsonLib) (send : Send S) (sent : (text : String) → Keeps (send text)) where
    open J use {Json, dump, parse, get_string, get_int, at, array, object}

    print-Keeps : (j : Json) → Keeps (lift (dump j) >>= send)
    print-Keeps j = >>=-Keeps (lift (dump j)) send (lift-Keeps (dump j)) sent

    send_error-Keeps :
        (id code description : String) (details : Json)
        → Keeps (send_error J S id code description details send)
    unfolding send_error
    send_error-Keeps id code description details =
        print-Keeps (error_reply J S id code description details)

    -- A stored invoker keeps the relation.
    abbrev pub InvokerKeeps : Invoker J S → Type 0
    InvokerKeeps f = (id : String) (payload : Json) → Keeps (f id payload send)

    answer-Keeps :
        {Conf : Type 0} (to_json : Conf → Json) (id : String) (res : Expected Conf)
        → Keeps (answer J S to_json id res send)
    unfolding answer
    answer-Keeps to_json id (expected conf) = print-Keeps (result_reply J S id (to_json conf))
    answer-Keeps to_json id (unexpected e) =
        print-Keeps (error_reply J S id "InternalError" e (object []))

    invoker-Keeps :
        {Req Conf : Type 0} (from_json : Json → Result Req) (to_json : Conf → Json)
        (h : Req → Result (Expected Conf))
        → InvokerKeeps (invoker J S from_json to_json h)
    unfolding invoker
    invoker-Keeps from_json to_json h id payload =
        try_catch-Keeps _ _
          (>>=-Keeps _ _ (lift-Keeps (from_json payload))
            λ req. >>=-Keeps _ _ (lift-Keeps (h req)) λ res. answer-Keeps to_json id res)
          λ what. print-Keeps (error_reply J S id "FormationViolation" what (object []))

    abbrev pub TableKeeps : Router J S → Type 0
    TableKeeps r = All (λ e. InvokerKeeps e.1) r.table

    pub register_handler-TableKeeps :
        {Req Conf : Type 0} (action : String) (from_json : Json → Result Req)
        (to_json : Conf → Json) (h : Req → Result (Expected Conf)) (r : Router J S)
        → TableKeeps r
        → TableKeeps (register_handler J S action from_json to_json h r)
    unfolding register_handler
    register_handler-TableKeeps action from_json to_json h r k =
        insert-All InvokerKeeps action _ r.table (invoker-Keeps from_json to_json h) k

    dispatch-Keeps :
        (o : Option (Invoker J S)) (arr : Json) (action : String)
        → ((f : Invoker J S) → o ≡ some f → InvokerKeeps f)
        → Keeps (dispatch J S o arr action send)
    unfolding dispatch
    dispatch-Keeps (some f) arr action h =
        >>=-Keeps _ _ (lift-Keeps (at arr 3)) λ payload. h f refl (best_effort_id J S arr) payload
    dispatch-Keeps none arr action h =
        >>=-Keeps _ _ (lift-Keeps (bindr (at arr 1) get_string))
          λ id. send_error-Keeps id "NotImplemented" _ (object [])

    module _ (r : Router J S) (k : TableKeeps r) where
      by_type-Keeps : (arr : Json) (type_id : ℤ) → Keeps (by_type J S r arr type_id send)
      unfolding by_type
      by_type-Keeps arr type_id = elim (Bool-cases (is_int type_id 2)) [
        | inr e ↦ rw e (send_error-Keeps _ _ _ _)
        | inl e ↦ elim (Bool-cases (J.size arr == 4)) [
          | inr e' ↦ rw (e, e') (send_error-Keeps _ _ _ _)
          | inl e' ↦
              rw (e, e')
                (>>=-Keeps _ _ (lift-Keeps (bindr (at arr 2) get_string)) λ action.
                  dispatch-Keeps (lookup action r.table) arr action
                    (λ f found. lookup-All InvokerKeeps action r.table k found))
        ]
      ]

      by_shape-Keeps : (arr : Json) → Keeps (by_shape J S r arr send)
      unfolding by_shape
      by_shape-Keeps arr = elim (Bool-cases (not (J.is_array arr) || ltb (J.size arr) 3)) [
        | inl e ↦ rw e (send_error-Keeps _ _ _ _)
        | inr e ↦ rw e (
            >>=-Keeps _ _ (lift-Keeps (bindr (at arr 0) get_int))
              λ type_id. by_type-Keeps arr type_id)
      ]

      -- Whatever text comes in and whether the send callback throws or not, `handle_incoming`
      -- keeps a relation between the caller's states that each call of the send callback keeps, as
      -- do the stored invokers.
      pub handle_incoming-Keeps : (frame : String) → Keeps (handle_incoming J S r frame send)
      unfolding handle_incoming
      handle_incoming-Keeps frame =
          try_catch-Keeps _ _ (>>=-Keeps _ _ (lift-Keeps (parse frame)) by_shape-Keeps)
            λ what. send_error-Keeps "" "FormationViolation" what (object [])
