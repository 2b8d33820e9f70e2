-- ===== src/Provider/Adapters/Openai.antt =====
-- internal/provider/openai/openai.go: the adapter of the OpenAI API, whose types the gateway itself
-- speaks.
pub mod Relay
use Prim.Native.String.{◌++◌ as text_append}
use llm_gateway.Base.{
  Bool, true, false, ◌||◌, Option, none, some, List, [], ◌∷◌, ◌++◌, ℤ, pos, leb_ℤ, eqb_ℤ, String,
  str_eq, Dict, if◌then◌else◌,
}
use llm_gateway.Model.Chat.{ChatCompletionRequest, ChatCompletionResponse, ChatCompletionChunk}
use llm_gateway.Model.Errors.{Error, other_error, wrapped}
use llm_gateway.Provider.Retry.{Outcome, ok, err}
use llm_gateway.Provider.Retry.Stream.{StreamEvent}
use llm_gateway.Provider.Adapters.{
  Config, Provider, new_provider, HttpRequest, HttpResponse, Scan, Client, try, and_then, ErrorBody,
  handle_error_response, send, Reaction, keeps, emits, fails, stops, send_err, pump,
}
use llm_gateway.Provider.Adapters.Text.{cut_prefix}

abbrev pub new : Config → Provider
new cfg = new_provider "https://api.openai.com/v1" cfg

-- The request with its `stream` field overridden.
pub record OpenaiRequest : Type 0 where
  pub request : ChatCompletionRequest
  pub stream : Bool

-- encoding/json at these types.
pub record Codec (B : Type 0) : Type 0 where
  pub marshal : OpenaiRequest → Outcome String
  pub decode_response : B → Outcome ChatCompletionResponse
  pub decode_chunk : String → Outcome ChatCompletionChunk
  pub decode_error : String → Outcome ErrorBody

unfoldable pub retries : ℤ → Bool
retries status = eqb_ℤ status (pos 429) || leb_ℤ (pos 500) status

unfoldable pub error_type_from_status : ℤ → String
error_type_from_status status =
    if eqb_ℤ status (pos 401)
    then "authentication_error"
    else if eqb_ℤ status (pos 429)
    then "rate_limit_error"
    else if eqb_ℤ status (pos 400)
    then "invalid_request_error"
    else "upstream_error"

abbrev headers_of : Provider → Dict String
headers_of p =
    ("Content-Type", "application/json") ∷ ("Authorization", text_append "Bearer " p.api_key) ∷ []

abbrev request_of : Provider → Dict String → String → HttpRequest
request_of p headers body = record {
  url = text_append p.base_url "/chat/completions";
  headers = headers;
  body = body;
}

module _ {B : Type 0} (c : Client B) (json : Codec B) (p : Provider) where
  abbrev pub on_error : HttpResponse B → Error
  on_error = handle_error_response c retries error_type_from_status json.decode_error

  unfoldable pub chat_completion : ChatCompletionRequest → Outcome ChatCompletionResponse
  unfolding try send and_then handle_error_response retries error_type_from_status
  chat_completion req =
      try "marshaling request" (json.marshal (record { request = req; stream = false })) (λ body.
        and_then (send c on_error (request_of p (headers_of p) body))
          (λ resp. try "decoding response" (json.decode_response resp) (λ r. ok r)))

  -- The response whose body the goroutine then reads.
  unfoldable pub open_stream : ChatCompletionRequest → Outcome B
  unfolding try send handle_error_response retries error_type_from_status
  open_stream req =
      try "marshaling request" (json.marshal (record { request = req; stream = true })) (λ body.
        send c on_error
          (request_of p (headers_of p ++ (("Accept", "text/event-stream") ∷ [])) body))

-- The loop keeps no variable: `gotDone` is set only where it ends.
unfoldable pub on_chunk : Outcome ChatCompletionChunk → Reaction (Unit {0})
on_chunk (err e) = fails (wrapped "decoding chunk" e)
on_chunk (ok chunk) = emits chunk tt

-- The error behind the last line.
abbrev pub at_end : Option Error → Error
at_end (some e) = wrapped "reading stream" e
at_end none = other_error "reading stream: unexpected EOF without [DONE]"

module _ {B : Type 0} (json : Codec B) where
  -- A line with what stands behind `data: ` in it.
  unfoldable pub on_payload : Unit {0} → Option String → Reaction (Unit {0})
  unfolding on_chunk
  on_payload s none = keeps s
  on_payload s (some payload) =
      if str_eq payload "[DONE]" then stops else on_chunk (json.decode_chunk payload)

  unfoldable pub on_line : Unit {0} → String → ℤ → Reaction (Unit {0})
  unfolding cut_prefix on_payload
  on_line s line unix = on_payload s (cut_prefix "data: " line)

  -- The events of a body: an error is sent where the lines end without the closing word.
  unfoldable pub read_stream : Scan → List (StreamEvent ChatCompletionChunk)
  unfolding pump on_line send_err
  read_stream body = pump on_line (send_err body.taken (at_end body.failure)) tt body.lines

  unfoldable pub chat_completion_stream :
      Client B → Provider → ChatCompletionRequest → Outcome (List (StreamEvent ChatCompletionChunk))
  unfolding open_stream read_stream and_then
  chat_completion_stream c p req =
      and_then (open_stream c json p req) (λ body. ok (read_stream (c.scan body)))
