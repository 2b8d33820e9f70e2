-- ===== src/Handler.antt =====
-- internal/handler: how errors are answered, the loop that sends a stream, and the health report.
pub mod Reports
pub mod AdminKeys
pub mod Chat
use Prim.Native.String.{◌++◌}
use llm_gateway.Base.{
  ℕ, zero, suc, Bool, true, false, Option, none, some, List, [], ◌∷◌, map, ◌++◌ as append, ℤ, pos,
  leb_ℤ, String, str_eq, Dict, length, ◌==◌, if◌then◌else◌,
}
use llm_gateway.Model.Errors.{ProviderError, Error, provider_error, as_provider_error}
use llm_gateway.Provider.Health.{ProviderHealth, HealthStatus, status}
use llm_gateway.Provider.Retry.Stream.{StreamEvent}
use llm_gateway.Router.{
  RouteError, nil_request, unknown_model, no_healthy_providers, strategy_error,
}
use llm_gateway.Router.Types.{Decision}

-- The arguments of apierr.Write.
pub record ErrorReply : Type 0 where
  pub status_code : ℤ
  pub type : String
  pub error_code : String
  pub message : String

unfoldable pub handle_provider_error : Error → ErrorReply
handle_provider_error e = elim (as_provider_error e) [
  | some pe ↦ record {
    status_code = if leb_ℤ (pos 500) pe.status_code then pos 502 else pe.status_code;
    type = pe.type;
    error_code = "provider_error";
    message = pe.message;
  }
  | none ↦ record {
    status_code = pos 502;
    type = "upstream_error";
    error_code = "provider_error";
    message = "upstream provider error";
  }
]

-- `quote` is the %q verb, `text` the text of an error.
unfoldable pub write_router_error :
    (String → String) → (RouteError → String) → String → RouteError → ErrorReply
write_router_error quote text name unknown_model = record {
  status_code = pos 400;
  type = "invalid_request_error";
  error_code = "invalid_model";
  message = "unknown model " ++ quote name;
}
write_router_error quote text name no_healthy_providers = record {
  status_code = pos 503;
  type = "service_unavailable";
  error_code = "all_providers_down";
  message = "all candidate providers are unavailable";
}
write_router_error quote text name e = record {
  status_code = pos 500;
  type = "internal_error";
  error_code = "internal_error";
  message = "routing failed: " ++ text e;
}

-- The routing headers, in order.
unfoldable pub set_routing_headers : Decision → Dict String
set_routing_headers d =
    ("X-LLM-Gateway-Provider", d.provider)
    ∷ ("X-LLM-Gateway-Strategy", d.strategy)
    ∷ ("X-LLM-Gateway-Attempts", "1")
    ∷ (if str_eq d.group "" then [] else (("X-LLM-Gateway-Group", d.group) ∷ []))

-- What is sent from an event on, with what would follow.
unfoldable pub on_event : Option Error → Option String → List String → List String
on_event (some e) text after = []
on_event none none after = []
on_event none (some text) after = ("data: " ++ (text ++ "\n\n")) ∷ after

-- The loop over the channel, as the texts that are written and flushed. `marshal` is the JSON of a
-- chunk, which may fail. After the first event with an error, or that cannot be written, the rest
-- is drained.
unfoldable pub send_events :
    {C : Type 0} → (Option C → Option String) → List (StreamEvent C) → List String
unfolding on_event
send_events marshal [] = []
send_events marshal (evt ∷ rest) = on_event evt.err (marshal evt.chunk) (send_events marshal rest)

-- handleStream behind its headers; `connected` tells whether the client is still there at the end.
unfoldable pub handle_stream :
    {C : Type 0} → (Option C → Option String) → Bool → List (StreamEvent C) → List String
unfolding send_events
handle_stream marshal connected evts =
    append (send_events marshal evts) (if connected then "data: [DONE]\n\n" ∷ [] else [])

-- The loop of HandleInternalHealth: the reports, and how many are healthy.
unfoldable pub statuses : Dict ProviderHealth → ℕ → Dict HealthStatus
statuses [] now = []
statuses ((name, h) ∷ ps) now = (name, status h now) ∷ statuses ps now

unfoldable pub healthy_count : Dict HealthStatus → ℕ
healthy_count [] = 0
healthy_count ((name, s) ∷ ss) = let rest = healthy_count ss in if s.healthy then suc rest else rest

unfoldable pub overall : Dict HealthStatus → String
unfolding healthy_count
overall ss =
    if healthy_count ss == length ss
    then "ok"
    else if healthy_count ss == 0
    then "down"
    else "degraded"
