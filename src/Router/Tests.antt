-- ===== src/Router/Tests.antt =====
-- The router on concrete inputs.
use ocppwo.Json.{JsonLib, JsonLaws}
use ocppwo.Common.{
  ◌≡◌, refl, ◌⊎◌, Bool-cases, str_eq, if◌then◌else◌, arith, String, List, [], Result, ok, throws,
  pos, Expected, expected, lookup, insert,
}
use ocppwo.Json.Coded.{coded_json, coded_laws}
use ocppwo.Ocpp.{Call, heartbeat, heart_beat, Authorize, AuthorizeResponse, BootNotification}
use ocppwo.Ocpp.Frames.{to_json_call}
use ocppwo.Ocpp.Payloads.{from_json_authorize, to_json_authorize, to_json_authorize_response}
use ocppwo.Ocpp.PayloadTrip.{from_json_authorize-to_json_authorize}
use ocppwo.Ocpp.Calls.{create_call}
use ocppwo.Ocpp.Handlers.{authorize_handler_v2, heartbeat_handler}
use ocppwo.Router.{Router}
use ocppwo.Router.Sends.{record_send, SendsOnce, SentOnce}
use ocppwo.Router.Dispatch.{error_reply, send_error, register_handler, handle_incoming, route}
use ocppwo.Router.Once.{IsReplyTo, IsReply, IsReady, DumpParses, register_handler-IsReady}
use ocppwo.Router.Honest.{DumpReads, register_handler-IsHonest}
use ocppwo.Router.Sending.{FailsToReport, handle_incoming-SendsOrFails}
use ocppwo.Router.Reply.{Reads, answer_frame, handle_incoming-IsReplyTo, handle_incoming-Reads}
use ocppwo.Router.Route.{server_router, route-create_call}

abbrev answers : Authorize → Result (Expected AuthorizeResponse)
answers a = ok (authorize_handler_v2 a)

abbrev authorizing : Router coded_json (List String)
authorizing =
    register_handler coded_json (List String) "Authorize" (from_json_authorize coded_json)
      (to_json_authorize_response coded_json) answers (record { handler_map = []; table = [] })

total : DumpParses coded_json
total j = (j, refl, refl)

authorizing-IsReady : IsReady coded_json authorizing
authorizing-IsReady =
    register_handler-IsReady coded_json ⦃L = coded_laws⦄ total "Authorize" _ _ answers
      (record { handler_map = []; table = [] }) tt

-- A library that refuses the text "é", quoting its first byte, and prints no error reply with this
-- quotation, since the byte alone is no UTF-8.
abbrev quoting : String
quoting = "invalid literal; last read: 'Ã'"

abbrev unprintable : String
unprintable =
    error_reply coded_json (List String) "" "FormationViolation" quoting (coded_json.object [])

abbrev strict_json : JsonLib
strict_json = record coded_json {
  parse = λ text. if str_eq text "é" then throws quoting else ok text;
  dump = λ j.
      if str_eq j "é"
      then throws "type_error.316"
      else if str_eq j unprintable
      then throws "type_error.316"
      else ok j;
}

strict_laws : JsonLaws strict_json
strict_laws = record {
  is_array-array = coded_laws.is_array-array;
  size-array = coded_laws.size-array;
  at-array = coded_laws.at-array;
  at_past = coded_laws.at_past;
  at_within = coded_laws.at_within;
  is_object-object = coded_laws.is_object-object;
  is_array-object = coded_laws.is_array-object;
  is_object-array = coded_laws.is_object-array;
  at_key_first = coded_laws.at_key_first;
  at_key_next = coded_laws.at_key_next;
  get_int-of_int = coded_laws.get_int-of_int;
  get_string-of_string = coded_laws.get_string-of_string;
  get_string-object = coded_laws.get_string-object;
  at_key_other = coded_laws.at_key_other;
}

strict-DumpReads : DumpReads strict_json
strict-DumpReads j text e =
    ground (arith, e, Bool-cases (str_eq j "é"), Bool-cases (str_eq j unprintable))

abbrev strict_router : Router strict_json (List String)
strict_router =
    register_handler strict_json (List String) "Authorize" (from_json_authorize strict_json)
      (to_json_authorize_response strict_json) answers (record { handler_map = []; table = [] })

handle_incoming-SendsOrFails_example :
    SentOnce
      (IsReply strict_json)
      (handle_incoming strict_json (List String) strict_router "é" record_send [])
      []
    ⊎ FailsToReport strict_json strict_router "é" []
handle_incoming-SendsOrFails_example =
    handle_incoming-SendsOrFails strict_json ⦃L = strict_laws⦄ strict-DumpReads strict_router
      (register_handler-IsHonest strict_json ⦃L = strict_laws⦄ strict-DumpReads "Authorize" _ _
        answers (record { handler_map = []; table = [] }) tt)
      "é" []

-- This frame gets no answer: an exception leaves `handle_incoming`.
unanswered :
    handle_incoming strict_json (List String) strict_router "é" record_send []
    ≡ (throws "type_error.316", [])
unfolding handle_incoming send_error ocppwo.Json.Coded.encode ocppwo.Json.Coded.ones
    ocppwo.Json.Coded.unpair
unanswered = refl

abbrev asked : Call String
asked = record {
  message_type_id = pos 2;
  message_id = "id7";
  action = "Authorize";
  payload = to_json_authorize coded_json (record { id_tag = "T" });
}

handle_incoming-IsReplyTo_example : SendsOnce (IsReplyTo coded_json "id7") (
    handle_incoming coded_json
      (List String)
      authorizing
      (to_json_call coded_json asked)
      record_send)
handle_incoming-IsReplyTo_example =
    handle_incoming-IsReplyTo coded_json ⦃L = coded_laws⦄ authorizing asked refl
      (to_json_call coded_json asked) refl total authorizing-IsReady

handle_incoming-Reads_example :
    SendsOnce
      (Reads coded_json (
        answer_frame coded_json
          (to_json_authorize_response coded_json)
          "id7"
          (expected (record { id_tag_info = "TOK" }))))
      (handle_incoming coded_json
        (List String)
        authorizing
        (to_json_call coded_json asked)
        record_send)
unfolding authorize_handler_v2 register_handler lookup insert
handle_incoming-Reads_example =
    handle_incoming-Reads coded_json ⦃L = coded_laws⦄ authorizing asked refl
      (to_json_call coded_json asked) refl total (from_json_authorize coded_json)
      (to_json_authorize_response coded_json) answers (record { id_tag = "T" })
      (expected (record { id_tag_info = "TOK" })) refl
      (from_json_authorize-to_json_authorize coded_json ⦃L = coded_laws⦄ (record { id_tag = "T" }))
      refl

abbrev empty_router : Router coded_json (List String)
empty_router = record { handler_map = []; table = [] }

route-create_call_example :
    route coded_json
      (List String)
      (server_router coded_json (List String))
      (create_call coded_json "m" (heartbeat heart_beat))
    ≡ heartbeat_handler coded_json heart_beat "m"
route-create_call_example =
    route-create_call coded_json (List String) ⦃L = coded_laws⦄ "m" (heartbeat heart_beat)

abbrev nameless : BootNotification
nameless = record { charge_point_model = ""; charge_point_vendor = "OpenAI" }
