-- ===== src/Tcp/Answers.antt =====
-- What the session answers to the calls that the client builds.
use Prim.Native.String.{◌++◌}
use ocppwo.Common.{◌≡◌, refl, [], ◌∷◌, String, List, Result, ok, ◌>>=◌, lookup, insert}
use ocppwo.Json.{JsonLib, JsonLaws}
use ocppwo.Ocpp.{OcppFrame, OcppPayload, call, boot_notification, authorize, heartbeat, heart_beat}
use ocppwo.Ocpp.Calls.{create_call}
use ocppwo.Ocpp.Frames.{parse_frame, to_json_frame, to_json_call}
use ocppwo.Ocpp.Handlers.{boot_handler, authorize_handler}
use ocppwo.Ocpp.RoundTrip.{parse_frame-to_json_frame}
use ocppwo.Ocpp.PayloadTrip.{from_json_boot-to_json_boot, from_json_authorize-to_json_authorize}
use ocppwo.Router.{Router}
use ocppwo.Router.Dispatch.{route}
use ocppwo.Router.Route.{refused}
use ocppwo.Tcp.{Action, write}
use ocppwo.Tcp.Lines.{with_handlers, answer, read_done, do_write}

module _ (J : JsonLib) (S : Type 0) where
  open J use {Json, parse, dump}

  abbrev pub no_handlers : Router J S
  no_handlers = record { handler_map = []; table = [] }

  -- What the session's two handlers give, and what a router without others gives for a heartbeat.
  abbrev pub tcp_served : String → OcppPayload → Result (OcppFrame Json)
  tcp_served id (boot_notification b) = boot_handler J b id
  tcp_served id (authorize a) = authorize_handler J a id
  tcp_served id (heartbeat h) = ok (refused J S id "HeartBeat")

  -- The frame on a line of its own.
  abbrev pub print_line : OcppFrame Json → Result (List Action)
  print_line f = dump (to_json_frame J f) >>= λ out. ok (write (out ++ "\n") ∷ [])

  module _ ⦃L : JsonLaws J⦄ where
    tcp_route :
        (id : String) (p : OcppPayload)
        → route J S (with_handlers J S no_handlers) (create_call J id p) ≡ tcp_served id p
    unfolding route with_handlers create_call lookup insert
    tcp_route id (boot_notification b) = rw (from_json_boot-to_json_boot J b)
    tcp_route id (authorize a) = rw (from_json_authorize-to_json_authorize J a)
    tcp_route id (heartbeat heart_beat) = refl

    create_call-tag :
        (id : String) (p : OcppPayload)
        → parse_frame J (to_json_call J (create_call J id p)) ≡ ok (call (create_call J id p))
    unfolding create_call to_json_frame
    create_call-tag id (boot_notification b) = parse_frame-to_json_frame J (call _) refl
    create_call-tag id (authorize a) = parse_frame-to_json_frame J (call _) refl
    create_call-tag id (heartbeat h) = parse_frame-to_json_frame J (call _) refl

    -- To a line that parses as a call of the client's, a session on a router of its own writes one
    -- line: what its handler gives for a boot notification and for an authorization, and the
    -- refusal of an unknown action for a heartbeat. It throws where the handler or the printing
    -- does.
    pub read_done-create_call :
        (id : String) (p : OcppPayload) (line : String)
        → parse line ≡ ok (to_json_call J (create_call J id p))
        → read_done J S (with_handlers J S no_handlers) line ≡ (tcp_served id p >>= print_line)
    unfolding read_done answer do_write
    read_done-create_call id p line e = rw (e, create_call-tag id p, tcp_route id p)
