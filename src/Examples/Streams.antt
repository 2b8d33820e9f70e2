-- ===== src/Examples/Streams.antt =====
-- Runs of the handlers.
use llm_gateway.Base.{
  ◌≡◌, ◌↔◌, refl, true, Option, none, some, [], ◌∷◌, ◌++◌, pos, String, Dict, All,
}
use llm_gateway.Model.Errors.{context_error}
use llm_gateway.Provider.Health.{HealthStatus}
use llm_gateway.Provider.Retry.Stream.{StreamEvent}
use llm_gateway.Handler.{handle_stream, overall}
use llm_gateway.Handler.Reports.{handle_stream-error, overall_ok_iff}

abbrev as_text : Option String → Option String
as_text c = c

abbrev good : StreamEvent String
good = record { chunk = some "{}"; err = none }

abbrev broken : StreamEvent String
broken = record { chunk = none; err = some context_error }

handle_stream-error_example :
    handle_stream as_text true ((good ∷ good ∷ []) ++ (broken ∷ good ∷ []))
    ≡ handle_stream as_text true (good ∷ good ∷ [])
handle_stream-error_example =
    handle_stream-error as_text true (good ∷ good ∷ []) (good ∷ []) broken context_error refl

abbrev report : Dict HealthStatus
report =
    (
      "openai",
      record {
        healthy = true;
        consecutive_fails = pos 0;
        last_success = some 5;
        last_failure = none;
        last_error = "";
      },
    )
    ∷ []

overall_ok_iff_example : (overall report ≡ "ok") ↔ All (λ x. x.1.healthy ≡ true) report
overall_ok_iff_example = overall_ok_iff report
