-- ===== src/Provider/Adapters/Anthropic.antt =====
-- internal/provider/anthropic/anthropic.go: the adapter of the Anthropic Messages API.
use Prim.Native.String.{◌++◌ as text_append}
pub mod Stream
pub mod Frames
pub mod Transcript
use llm_gateway.Base.{
  Bool, true, false, ◌||◌, Option, none, some, List, [], ◌∷◌, ◌++◌, not, ℤ, pos, leb_ℤ, eqb_ℤ,
  add_int, String, str_eq, Dict, if◌then◌else◌, Float64,
}
use llm_gateway.Model.Chat.{
  Message, ChatCompletionRequest, Choice, Usage, ChatCompletionResponse, ChunkChoice,
  ChatCompletionChunk,
}
use llm_gateway.Model.Errors.{Error, other_error, wrapped}
use llm_gateway.Provider.Retry.{Outcome, ok, err}
use llm_gateway.Provider.Retry.Stream.{StreamEvent}
use llm_gateway.Provider.Adapters.{
  Config, Provider, new_provider, HttpRequest, HttpResponse, Scan, Client, try, and_then, ErrorBody,
  handle_error_response, send, Reaction, keeps, emits, fails, stops, send_err, pump,
}
use llm_gateway.Provider.Adapters.Text.{cut_prefix}

abbrev pub default_base_url : String
default_base_url = "https://api.anthropic.com"

abbrev pub default_max_tokens : ℤ
default_max_tokens = pos 4096

abbrev api_version : String
api_version = "2023-06-01"

abbrev messages_endpoint : String
messages_endpoint = "/v1/messages"

abbrev pub new : Config → Provider
new cfg = new_provider default_base_url cfg

pub record AnthropicMessage : Type 0 where
  pub role : String
  pub content : String

-- An empty `system` and an absent `stop_sequences` are left out of the JSON.
pub record AnthropicRequest : Type 0 where
  pub model : String
  pub messages : List AnthropicMessage
  pub system : String
  pub max_tokens : ℤ
  pub temperature : Option Float64
  pub top_p : Option Float64
  pub stop_sequences : List String
  pub stream : Bool

pub record AnthropicContent : Type 0 where
  pub type : String
  pub text : String

pub record AnthropicUsage : Type 0 where
  pub input_tokens : ℤ
  pub output_tokens : ℤ

pub record AnthropicResponse : Type 0 where
  pub id : String
  pub type : String
  pub role : String
  pub content : List AnthropicContent
  pub model : String
  pub stop_reason : String
  pub stop_sequence : Option String
  pub usage : AnthropicUsage

-- The streaming events, with the fields of their nested structs.
pub record MessageStartEvent : Type 0 where
  pub type : String
  pub message : AnthropicResponse

pub record ContentBlockDeltaEvent : Type 0 where
  pub type : String
  pub index : ℤ
  pub delta_type : String
  pub delta_text : String

pub record MessageDeltaEvent : Type 0 where
  pub type : String
  pub delta_stop_reason : String
  pub delta_stop_sequence : Option String
  pub usage_output_tokens : ℤ

-- encoding/json at these types.
pub record Codec (B : Type 0) : Type 0 where
  pub marshal : AnthropicRequest → Outcome String
  pub decode_response : B → Outcome AnthropicResponse
  pub decode_start : String → Outcome MessageStartEvent
  pub decode_content : String → Outcome ContentBlockDeltaEvent
  pub decode_delta : String → Outcome MessageDeltaEvent
  pub decode_error : String → Outcome ErrorBody

-- strings.Join
unfoldable pub join : String → List String → String
join sep [] = ""
join sep (s ∷ []) = s
join sep (s ∷ t ∷ rest) = text_append s (text_append sep (join sep (t ∷ rest)))

-- The two lists that the loop over the messages appends to.
unfoldable pub split_messages : List Message → List String × List AnthropicMessage
split_messages [] = ([], [])
split_messages (msg ∷ msgs) =
    let rest = split_messages msgs in
    if str_eq msg.role "system"
    then (msg.content ∷ rest.0, rest.1)
    else (rest.0, record { role = msg.role; content = msg.content } ∷ rest.1)

abbrev or_default : Option ℤ → ℤ
or_default none = default_max_tokens
or_default (some n) = n

unfoldable pub translate_request : ChatCompletionRequest → AnthropicRequest
unfolding split_messages join
translate_request req =
    let parts = split_messages req.messages in
    record {
      model = req.model;
      messages = parts.1;
      system = join "\n\n" parts.0;
      max_tokens = or_default req.max_tokens;
      temperature = req.temperature;
      top_p = req.top_p;
      stop_sequences = req.stop;
      stream = false;
    }

unfoldable pub map_stop_reason : String → String
map_stop_reason reason =
    if str_eq reason "end_turn"
    then "stop"
    else if str_eq reason "max_tokens"
    then "length"
    else if str_eq reason "stop_sequence"
    then "stop"
    else reason

unfoldable pub text_parts : List AnthropicContent → List String
text_parts [] = []
text_parts (c ∷ cs) =
    let rest = text_parts cs in if str_eq c.type "text" then c.text ∷ rest else rest

unfoldable pub translate_response : ℤ → AnthropicResponse → ChatCompletionResponse
unfolding text_parts join map_stop_reason add_int
translate_response unix resp = record {
  id = resp.id;
  object = "chat.completion";
  created = unix;
  model = resp.model;
  choices =
      record {
        index = pos 0;
        message = record {
          role = "assistant";
          content = join "" (text_parts resp.content);
          name = "";
        };
        finish_reason = map_stop_reason resp.stop_reason;
      }
      ∷ [];
  usage = record {
    prompt_tokens = resp.usage.input_tokens;
    completion_tokens = resp.usage.output_tokens;
    total_tokens = add_int resp.usage.input_tokens resp.usage.output_tokens;
  };
  system_fingerprint = "";
}

unfoldable pub set_headers : Provider → Dict String
set_headers p =
    ("Content-Type", "application/json")
    ∷ ("x-api-key", p.api_key)
    ∷ ("anthropic-version", api_version)
    ∷ []

unfoldable pub retries : ℤ → Bool
retries status = eqb_ℤ status (pos 429) || (leb_ℤ (pos 500) status || eqb_ℤ status (pos 529))

unfoldable pub error_type_from_status : ℤ → String
error_type_from_status status =
    if eqb_ℤ status (pos 401)
    then "authentication_error"
    else if eqb_ℤ status (pos 429)
    then "rate_limit_error"
    else if eqb_ℤ status (pos 400)
    then "invalid_request_error"
    else "upstream_error"

abbrev request_of : Provider → Dict String → String → HttpRequest
unfolding set_headers
request_of p headers body = record {
  url = text_append p.base_url messages_endpoint;
  headers = headers;
  body = body;
}

module _ {B : Type 0} (c : Client B) (json : Codec B) (p : Provider) where
  abbrev pub on_error : HttpResponse B → Error
  on_error = handle_error_response c retries error_type_from_status json.decode_error

  unfoldable pub chat_completion : ChatCompletionRequest → Outcome ChatCompletionResponse
  unfolding try send and_then translate_request translate_response set_headers handle_error_response
      retries error_type_from_status
  chat_completion req = try "marshaling request" (json.marshal (translate_request req)) (λ body.
      and_then (send c on_error (request_of p (set_headers p) body)) (λ resp.
        try "decoding response" (json.decode_response resp)
          (λ ar. ok (translate_response c.unix ar))))

  -- The response whose body the goroutine then reads.
  unfoldable pub open_stream : ChatCompletionRequest → Outcome B
  unfolding try send translate_request set_headers handle_error_response retries
      error_type_from_status
  open_stream req =
      try "marshaling request" (json.marshal (record (translate_request req) { stream = true }))
        (λ body.
          send c on_error
            (request_of p (set_headers p ++ (("Accept", "text/event-stream") ∷ [])) body))
