-- ===== src/Handler/Chat.antt =====
-- internal/handler/chat.go and internal/handler/models.go: the handlers of /v1. The router and the
-- calls of the provider it picks are arguments.
use Prim.Native.String.{◌++◌}
use llm_gateway.Base.{
  Bool, Option, none, some, List, [], ◌∷◌, map, ◌++◌ as append, ℤ, pos, String, str_eq, Dict,
  if◌then◌else◌,
}
use llm_gateway.Auth.{KeyInfo}
use llm_gateway.Handler.{
  ErrorReply, handle_provider_error, write_router_error, set_routing_headers, handle_stream,
}
use llm_gateway.Model.Chat.{ChatCompletionRequest, ChatCompletionResponse, ChatCompletionChunk}
use llm_gateway.Provider.Registry.{Provider, Registry, ModelInfo, list_model_details}
use llm_gateway.Provider.Retry.{Reply, replied, failed, nothing}
use llm_gateway.Provider.Retry.Stream.{StreamEvent}
use llm_gateway.Router.{Routed, RouteError, routed, route_error, crashed}
use llm_gateway.Router.Types.{Decision, RequestMeta}

-- The decoder's result on a body that is cut at 10 MB.
pub data Decoded : Type 0 where
  decoded : ChatCompletionRequest → Decoded
  too_large : Decoded
  undecodable : String → Decoded

-- A response: an error, a JSON body, or a stream, the last two behind their headers. `crashes` is a
-- panic, of the router or of a nil response; `hangs` waits on a nil channel for ever.
pub data ChatReply : Type 0 where
  refuses : ErrorReply → ChatReply
  answers : Dict String → ChatCompletionResponse → ChatReply
  streams : Dict String → List String → ChatReply
  crashes hangs : ChatReply

-- The fields of the access log that the handler sets, and its reply.
pub record Served : Type 0 where
  pub reply : ChatReply
  pub decision : Option Decision
  pub tokens : Option (ℤ × ℤ)

abbrev unserved : ErrorReply → Served
unserved e = record { reply = refuses e; decision = none; tokens = none }

abbrev invalid : ℤ → String → String → ErrorReply
invalid status code message = record {
  status_code = status;
  type = "invalid_request_error";
  error_code = code;
  message = message;
}

unfoldable pub router_meta : Option KeyInfo → RequestMeta
router_meta none = record {
  org_id = "";
  key_id = "";
  attempt = pos 0;
  tried_names = [];
  group = "";
}
router_meta (some info) = record {
  org_id = info.org_id;
  key_id = info.key_id;
  attempt = pos 0;
  tried_names = [];
  group = "";
}

-- handleNonStream, with what the provider returns.
unfoldable pub handle_non_stream : Decision → Reply ChatCompletionResponse → Served
handle_non_stream d (failed e) = record {
  reply = refuses (handle_provider_error e);
  decision = some d;
  tokens = none;
}
handle_non_stream d (replied resp) = record {
  reply = answers (("Content-Type", "application/json") ∷ set_routing_headers d) resp;
  decision = some d;
  tokens = some (resp.usage.prompt_tokens, resp.usage.completion_tokens);
}
handle_non_stream d nothing = record { reply = crashes; decision = some d; tokens = none }

abbrev stream_headers : List (String × String)
stream_headers =
    ("Content-Type", "text/event-stream")
    ∷ ("Cache-Control", "no-cache")
    ∷ ("Connection", "keep-alive")
    ∷ []

module _ (marshal : Option ChatCompletionChunk → Option String) (flushes connected : Bool) where
  -- handleStream, with what the provider returns; `flushes` tells whether the writer is a Flusher.
  unfoldable pub open_stream : Decision → Reply (List (StreamEvent ChatCompletionChunk)) → Served
  unfolding handle_stream
  open_stream d (failed e) = record {
    reply = refuses (handle_provider_error e);
    decision = some d;
    tokens = none;
  }
  open_stream d (replied evts) = record {
    reply =
        if flushes
        then streams (append stream_headers (set_routing_headers d))
            (handle_stream marshal connected evts)
        else refuses (record {
          status_code = pos 500;
          type = "internal_error";
          error_code = "internal_error";
          message = "streaming not supported";
        });
    decision = some d;
    tokens = none;
  }
  open_stream d nothing = record { reply = hangs; decision = some d; tokens = none }

  module _ (quote : String → String) (text : RouteError → String)
      (complete : Provider → ChatCompletionRequest → Reply ChatCompletionResponse)
      (stream : Provider
        → ChatCompletionRequest
        → Reply (List (StreamEvent ChatCompletionChunk))) where
    -- What follows the router's result; the request goes on under the name that the decision has.
    unfoldable pub serve_routed : ChatCompletionRequest → Routed → Served
    unfolding handle_non_stream open_stream
    serve_routed req (route_error e) = unserved (write_router_error quote text req.model e)
    serve_routed req crashed = record { reply = crashes; decision = none; tokens = none }
    serve_routed req (routed p d) =
        let sent = record req { model = d.model } in
        if req.stream then open_stream d (stream p sent) else handle_non_stream d (complete p sent)

    unfoldable pub serve_request :
        (ChatCompletionRequest → RequestMeta → Routed)
        → ChatCompletionRequest
        → Option KeyInfo
        → Served
    unfolding serve_routed router_meta
    serve_request route req key =
        if str_eq req.model ""
        then unserved (invalid (pos 400) "invalid_request" "model is required")
        else elim req.messages [
          | [] ↦ unserved (invalid (pos 400) "invalid_request" "messages must not be empty")
          | msg ∷ msgs ↦ serve_routed req (route req (router_meta key))
        ]

    unfoldable pub handle_chat_completion :
        (ChatCompletionRequest → RequestMeta → Routed) → Decoded → Option KeyInfo → Served
    unfolding serve_request
    handle_chat_completion route too_large key =
        unserved (invalid (pos 413) "request_too_large" "request body exceeds 10MB limit")
    handle_chat_completion route (undecodable e) key =
        unserved (invalid (pos 400) "invalid_request" ("invalid request body: " ++ e))
    handle_chat_completion route (decoded req) key = serve_request route req key

-- The body of /v1/models.
pub record ModelObject : Type 0 where
  pub id : String
  pub object : String
  pub owned_by : String

abbrev pub object_of : ModelInfo → ModelObject
object_of d = record { id = d.model_name; object = "model"; owned_by = d.provider_name }

unfoldable pub handle_list_models : Registry → List ModelObject
handle_list_models r = map object_of (list_model_details r)
