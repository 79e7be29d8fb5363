-- ===== src/Router/Route.antt =====
-- `route` and the handlers of the servers.
use Prim.Native.String.{◌++◌}
use ocppwo.Common.{
  eq_iff, if◌then◌else◌, Bool-cases, inl, inr, throws, lookup-insert_eq, lookup-insert_ne, str_eq,
  ◌≡◌, refl, insert, String, Result, ok, lookup, lookup-insert_eq, lookup-insert_ne, pos, ◌>>=◌, ap,
  ◌∷◌, [],
}
use ocppwo.Json.{JsonLib, JsonLaws}
use ocppwo.Ocpp.{
  BootNotification, OcppFrame, OcppPayload, heartbeat, heart_beat, call_result, call_error, Call,
  boot_notification, authorize,
}
use ocppwo.Ocpp.Calls.{create_call_variant, create_call}
use ocppwo.Ocpp.Payloads.{
  from_json_boot, from_json_authorize, from_json_heartbeat, to_json_boot_response,
}
use ocppwo.Ocpp.PayloadTrip.{from_json_boot-to_json_boot, from_json_authorize-to_json_authorize}
use ocppwo.Ocpp.Handlers.{
  is_incomplete, accepted, boot_handler, authorize_handler, heartbeat_handler,
}
use ocppwo.Router.{Router}
use ocppwo.Router.Dispatch.{add_handler, route, route_found}

module _ (J : JsonLib) (S : Type 0) where
  open J use {Json}

  -- Routing a call after `addHandler`: the new handler gets the calls of its action, with the
  -- decoded payload and the call's id, and every other action is routed as before.
  pub route-add_handler :
      {Req : Type 0} (action : String) (from_json : Json → Result Req)
      (h : Req → String → Result (OcppFrame Json)) (r : Router J S) (c : Call Json)
      → route J S (add_handler J S action from_json h r) c ≡ (
          if str_eq action c.action
          then (from_json c.payload >>= λ req. h req c.message_id)
          else route J S r c)
  unfolding route add_handler
  route-add_handler action from_json h r c = elim (Bool-cases (str_eq action c.action)) [
    | inl e ↦ rw e (
        ap (λ o. route_found J S o c)
          (lookup-insert_eq action c.action _ r.handler_map ((eq_iff action c.action).0 e)))
    | inr e ↦ rw e (
        ap (λ o. route_found J S o c)
          (lookup-insert_ne action c.action _ r.handler_map
            (λ q. cc (e, (eq_iff action c.action).1 q))))
  ]

  -- tcp_server.cpp: the three handlers of the server's `main`.
  unfoldable pub server_router : Router J S
  unfolding add_handler
  server_router = add_handler J S "HeartBeat" (from_json_heartbeat J) (heartbeat_handler J) (
      add_handler J S "Authorize" (from_json_authorize J) (authorize_handler J) (
        add_handler J S "BootNotification" (from_json_boot J) (boot_handler J)
          (record { handler_map = []; table = [] })))

  -- What the server's handler of a payload gives.
  abbrev pub served : String → OcppPayload → Result (OcppFrame Json)
  served id (boot_notification b) = boot_handler J b id
  served id (authorize a) = authorize_handler J a id
  served id (heartbeat h) = heartbeat_handler J h id

  abbrev pub refused : String → String → OcppFrame Json
  refused id action = call_error (record {
    message_type_id = pos 4;
    message_id = id;
    error_code = "NotImplemented";
    error_description = "Unknown action: " ++ action;
    error_details =
        J.object (
          ("hint", J.of_string "supported actions: HeartBeat,BootNotification, Authorization")
          ∷ []);
  })

  abbrev pub variant_served : String → OcppPayload → Result (OcppFrame Json)
  variant_served id (boot_notification b) = boot_handler J b id
  variant_served id (authorize a) = authorize_handler J a id
  variant_served id (heartbeat h) = ok (refused id "Heartbeat")

  module _ ⦃L : JsonLaws J⦄ where
    -- The server answers every call that the template `create_call` builds by the handler of its
    -- payload, which gets the payload as it was before it went through JSON.
    pub route-create_call :
        (id : String) (p : OcppPayload) → route J S server_router (create_call J id p) ≡ served id p
    unfolding route server_router create_call lookup insert from_json_heartbeat
    route-create_call id (boot_notification b) = rw (from_json_boot-to_json_boot J b)
    route-create_call id (authorize a) = rw (from_json_authorize-to_json_authorize J a)
    route-create_call id (heartbeat heart_beat) = refl

    -- The overload for the variant names the heartbeat "Heartbeat", and the server refuses it; the
    -- other payloads go as with the template.
    pub route-create_call_variant :
        (id : String) (p : OcppPayload)
        → route J S server_router (create_call_variant J id p) ≡ variant_served id p
    unfolding route server_router create_call_variant lookup insert
    route-create_call_variant id (boot_notification b) = rw (from_json_boot-to_json_boot J b)
    route-create_call_variant id (authorize a) = rw (from_json_authorize-to_json_authorize J a)
    route-create_call_variant id (heartbeat heart_beat) = refl

    -- A boot notification with both fields is accepted under its id, with an interval of 5; one with
    -- an empty field makes the handler throw, so that no CallError is sent.
    pub boot_handler_lem :
        (b : BootNotification) (id : String)
        → (what : String) × (boot_handler J b id ≡ (
            if is_incomplete b
            then throws what
            else ok (
                call_result (record {
                  message_type_id = pos 3;
                  message_id = id;
                  payload = to_json_boot_response J (accepted (pos 5));
                }))))
    unfolding boot_handler
    boot_handler_lem b id =
        let (what, e) =
          L.get_string-object
            (("hint", J.of_string "chargePointModel or chargePointVendor empty...") ∷ []) in
        (what, elim (Bool-cases (is_incomplete b)) [ inl e' ↦ rw (e', e) | inr e' ↦ rw e' ])
