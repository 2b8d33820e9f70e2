-- ===== src/Provider/Adapters/Google.antt =====
-- internal/provider/google/google.go: the adapter of the Gemini API.
pub mod Stream
use Prim.Native.String.{◌++◌ as text_append}
use llm_gateway.Base.{
  ◌||◌, ℕ, ◌+◌, Option, none, some, List, [], ◌∷◌, ◌++◌, ℤ, pos, leb_ℤ, eqb_ℤ, String, str_eq, Dict,
  if◌then◌else◌, Float64, Bool, is_some,
}
use llm_gateway.Model.Chat.{Message, ChatCompletionRequest, Choice, Usage, ChatCompletionResponse}
use llm_gateway.Model.Errors.{Error}
use llm_gateway.Provider.Retry.{Outcome, ok, err}
use llm_gateway.Provider.Adapters.{
  Config, Provider, new_provider, HttpRequest, HttpResponse, Client, try, and_then, ErrorBody,
  handle_error_response, send,
}

abbrev pub default_base_url : String
default_base_url = "https://generativelanguage.googleapis.com/v1beta"

abbrev pub new : Config → Provider
new cfg = new_provider default_base_url cfg

pub record GeminiPart : Type 0 where
  pub text : String

pub record GeminiContent : Type 0 where
  pub role : String
  pub parts : List GeminiPart

pub record GeminiSystemInstruction : Type 0 where
  pub parts : List GeminiPart

pub record GeminiGenerationConfig : Type 0 where
  pub temperature : Option Float64
  pub top_p : Option Float64
  pub max_output_tokens : Option ℤ
  pub stop_sequences : List String
  pub candidate_count : Option ℤ

pub record GeminiRequest : Type 0 where
  pub contents : List GeminiContent
  pub system_instruction : Option GeminiSystemInstruction
  pub generation_config : Option GeminiGenerationConfig

pub record GeminiCandidate : Type 0 where
  pub content : GeminiContent
  pub finish_reason : String

pub record GeminiUsageMetadata : Type 0 where
  pub prompt_token_count : ℤ
  pub candidates_token_count : ℤ
  pub total_token_count : ℤ

pub record GeminiResponse : Type 0 where
  pub candidates : List GeminiCandidate
  pub usage_metadata : Option GeminiUsageMetadata

-- encoding/json at these types; the type of an error body is its `status`.
pub record Codec (B : Type 0) : Type 0 where
  pub marshal : GeminiRequest → Outcome String
  pub decode_response : B → Outcome GeminiResponse
  pub decode_chunk : String → Outcome GeminiResponse
  pub decode_error : String → Outcome ErrorBody

abbrev role_of : String → String
role_of role = if str_eq role "assistant" then "model" else role

-- The two lists that the loop over the messages appends to.
unfoldable pub split_messages : List Message → List GeminiPart × List GeminiContent
split_messages [] = ([], [])
split_messages (msg ∷ msgs) =
    let rest = split_messages msgs in
    if str_eq msg.role "system" then (record { text = msg.content } ∷ rest.0, rest.1) else (
      rest.0,
      record { role = role_of msg.role; parts = record { text = msg.content } ∷ [] } ∷ rest.1,
    )

abbrev is_nonempty : List String → Bool
is_nonempty [] = Bool.false
is_nonempty (s ∷ ss) = Bool.true

abbrev pub instruction : List GeminiPart → Option GeminiSystemInstruction
instruction [] = none
instruction (part ∷ parts) = some (record { parts = part ∷ parts })

unfoldable pub generation_config_of : ChatCompletionRequest → Option GeminiGenerationConfig
generation_config_of req =
    if is_some req.temperature
      || (is_some req.top_p || (is_some req.max_tokens || (is_nonempty req.stop || is_some req.n)))
    then some (record {
      temperature = req.temperature;
      top_p = req.top_p;
      max_output_tokens = req.max_tokens;
      stop_sequences = req.stop;
      candidate_count = req.n;
    })
    else none

unfoldable pub translate_request : ChatCompletionRequest → GeminiRequest
unfolding split_messages generation_config_of
translate_request req =
    let parts = split_messages req.messages in
    record {
      contents = parts.1;
      system_instruction = instruction parts.0;
      generation_config = generation_config_of req;
    }

unfoldable pub map_finish_reason : String → String
map_finish_reason reason =
    if str_eq reason "STOP"
    then "stop"
    else if str_eq reason "MAX_TOKENS"
    then "length"
    else if str_eq reason "SAFETY"
    then "content_filter"
    else if str_eq reason "RECITATION"
    then "content_filter"
    else "stop"

-- The loop over the parts of a candidate.
unfoldable pub content_of : List GeminiPart → String
content_of [] = ""
content_of (part ∷ parts) = text_append part.text (content_of parts)

unfoldable pub usage_of : GeminiUsageMetadata → Usage
usage_of u = record {
  prompt_tokens = u.prompt_token_count;
  completion_tokens = u.candidates_token_count;
  total_tokens = u.total_token_count;
}

abbrev pub usage_or_zero : Option GeminiUsageMetadata → Usage
unfolding usage_of
usage_or_zero none = record {
  prompt_tokens = pos 0;
  completion_tokens = pos 0;
  total_tokens = pos 0;
}
usage_or_zero (some u) = usage_of u

unfoldable pub choices_of : ℕ → List GeminiCandidate → List Choice
unfolding content_of map_finish_reason
choices_of i [] = []
choices_of i (candidate ∷ rest) =
    record {
      index = pos i;
      message = record {
        role = "assistant";
        content = content_of candidate.content.parts;
        name = "";
      };
      finish_reason = map_finish_reason candidate.finish_reason;
    }
    ∷ choices_of (i + 1) rest

-- `id` is what generateID draws.
unfoldable pub translate_response : String → ℤ → GeminiResponse → String → ChatCompletionResponse
unfolding choices_of
translate_response id unix resp req_model = record {
  id = id;
  object = "chat.completion";
  created = unix;
  model = req_model;
  choices = choices_of 0 resp.candidates;
  usage = usage_or_zero resp.usage_metadata;
  system_fingerprint = "";
}

unfoldable pub generate_content_url : Provider → String → String
generate_content_url p name =
    text_append p.base_url
      (text_append "/models/" (text_append name (text_append ":generateContent?key=" p.api_key)))

unfoldable pub stream_generate_content_url : Provider → String → String
stream_generate_content_url p name = text_append p.base_url (
    text_append "/models/"
      (text_append name (text_append ":streamGenerateContent?alt=sse&key=" p.api_key)))

unfoldable pub retries : ℤ → Bool
retries status = eqb_ℤ status (pos 429) || leb_ℤ (pos 500) status

unfoldable pub error_type_from_status : ℤ → String
error_type_from_status status =
    if eqb_ℤ status (pos 401)
    then "authentication_error"
    else if eqb_ℤ status (pos 403)
    then "authentication_error"
    else if eqb_ℤ status (pos 429)
    then "rate_limit_error"
    else if eqb_ℤ status (pos 400)
    then "invalid_request_error"
    else "upstream_error"

abbrev json_headers : Dict String
json_headers = ("Content-Type", "application/json") ∷ []

module _ {B : Type 0} (c : Client B) (json : Codec B) (p : Provider) where
  abbrev pub on_error : HttpResponse B → Error
  on_error = handle_error_response c retries error_type_from_status json.decode_error

  unfoldable pub chat_completion : String → ChatCompletionRequest → Outcome ChatCompletionResponse
  unfolding try send and_then translate_request translate_response generate_content_url
      handle_error_response retries error_type_from_status
  chat_completion id req = try "marshaling request" (json.marshal (translate_request req)) (λ body.
      let r : HttpRequest = record {
        url = generate_content_url p req.model;
        headers = json_headers;
        body = body;
      } in
      and_then (send c on_error r) (λ resp.
        try "decoding response" (json.decode_response resp)
          (λ gem. ok (translate_response id c.unix gem req.model))))

  -- The response whose body the goroutine then reads.
  unfoldable pub open_stream : ChatCompletionRequest → Outcome B
  unfolding try send translate_request stream_generate_content_url handle_error_response retries
      error_type_from_status
  open_stream req = try "marshaling request" (json.marshal (translate_request req)) (λ body.
      send c on_error (record {
        url = stream_generate_content_url p req.model;
        headers = json_headers ++ (("Accept", "text/event-stream") ∷ []);
        body = body;
      }))
