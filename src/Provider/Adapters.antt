-- ===== src/Provider/Adapters.antt =====
-- internal/provider/anthropic, internal/provider/google, internal/provider/openai: the adapters of
-- the upstream APIs, and what they take from net/http, encoding/json, bufio and context. The three
-- packages each repeat New, the sending of a request and handleErrorResponse; what they repeat
-- word by word stands here once.
pub mod Text
pub mod Ends
pub mod Reads
pub mod Failures
pub mod Requests
pub mod Anthropic
pub mod Google
pub mod Openai
use Prim.Native.String.{◌++◌, slice, len}
use llm_gateway.Base.{
  ℕ, ◌*◌, ◌^◌, Bool, true, false, ◌&&◌, not, Option, none, some, List, [], ◌∷◌, ◌≡◌, ℤ, pos, second,
  leb, String, str_eq, Dict, if◌then◌else◌, eqb_ℤ,
}
use llm_gateway.Model.Chat.{ChatCompletionChunk}
use llm_gateway.Model.Errors.{ProviderError, Error, provider_error, wrapped, parse_retry_after}
use llm_gateway.Provider.Retry.{Outcome, ok, err}
use llm_gateway.Provider.Retry.Stream.{StreamEvent}

-- The adapter's configuration, and the adapter; its http.Client is a parameter below.
pub record Config : Type 0 where
  pub api_key : String
  pub base_url : String
  pub timeout : ℤ
  pub models : List String

pub record Provider : Type 0 where
  pub api_key : String
  pub base_url : String
  pub timeout : ℤ
  pub models : List String

-- New, with the default URL of the package.
unfoldable pub new_provider : String → Config → Provider
new_provider default_base_url cfg = record {
  api_key = cfg.api_key;
  base_url = if str_eq cfg.base_url "" then default_base_url else cfg.base_url;
  timeout = if eqb_ℤ cfg.timeout (pos 0) then pos (30 * second) else cfg.timeout;
  models = cfg.models;
}

-- A POST request, and a response: the header is Retry-After, empty where there is none.
pub record HttpRequest : Type 0 where
  pub url : String
  pub headers : Dict String
  pub body : String

pub record HttpResponse (B : Type 0) : Type 0 where
  pub status_code : ℤ
  pub retry_after : String
  pub body : B

-- What happens at a line of a stream: the context is found done before it is read, the reader of
-- the channel takes the event (or the context is done first), the time in seconds.
pub record Turn : Type 0 where
  pub done : Bool
  pub taken : Bool
  pub unix : ℤ

-- What a bufio.Scanner yields of a body, and whether an error sent behind the lines is taken.
pub record Scan : Type 0 where
  pub lines : List (String × Turn)
  pub failure : Option Error
  pub taken : Bool

-- The libraries: http.NewRequestWithContext's error for a URL, http.Client.Do, io.ReadAll behind
-- io.LimitReader, bufio.Scanner, strconv.Atoi and time.Until for the header, the clock.
pub record Client (B : Type 0) : Type 0 where
  pub rejects : String → Option Error
  pub exchange : HttpRequest → Outcome (HttpResponse B)
  pub read_limited : ℕ → B → String
  pub scan : B → Scan
  pub atoi : String → Option ℤ
  pub until_date : String → Option ℤ
  pub unix : ℤ

-- A call that fails is wrapped in its prefix; otherwise what follows goes on with the result.
unfoldable pub try : {A D : Type 0} → String → Outcome A → (A → Outcome D) → Outcome D
try prefix (err e) next = err (wrapped prefix e)
try prefix (ok a) next = next a

-- The two fields of an error body that are used.
pub record ErrorBody : Type 0 where
  pub message : String
  pub type : String

-- The message and the type of the error. `named` is the type that the status alone gives.
-- `msg[:200]` counts bytes; a character that it would cut is left out.
unfoldable pub describe : Outcome ErrorBody → String → String → ErrorBody
describe (ok e) text named =
    if str_eq e.message "" then record { message = slice text 0 200; type = named } else e
describe (err x) text named = record { message = slice text 0 200; type = named }

-- handleErrorResponse, with the package's test for a status that may be retried, its names for a
-- status and its error body.
unfoldable pub handle_error_response :
    {B : Type 0}
    → Client B
    → (ℤ → Bool)
    → (ℤ → String)
    → (String → Outcome ErrorBody)
    → HttpResponse B
    → Error
unfolding describe
handle_error_response c retries name_of decode_error resp =
    let text = c.read_limited (2 ^ 20) resp.body in
    let body = describe (decode_error text) text (name_of resp.status_code) in
    provider_error (record {
      status_code = resp.status_code;
      type = body.type;
      message = body.message;
      retryable = retries resp.status_code;
      retry_after = parse_retry_after c.atoi c.until_date resp.retry_after;
    })

-- An error is returned as it is; otherwise what follows goes on with the result.
unfoldable pub and_then : {A D : Type 0} → Outcome A → (A → Outcome D) → Outcome D
and_then (err e) next = err e
and_then (ok a) next = next a

-- What follows from the error of creating a request and the result of sending it; a status other
-- than 200 is an error.
unfoldable pub sent :
    {B : Type 0} → (HttpResponse B → Error) → Option Error → Outcome (HttpResponse B) → Outcome B
unfolding try
sent on_error (some e) answer = err (wrapped "creating request" e)
sent on_error none answer =
    try "sending request" answer
      (λ resp. if eqb_ℤ resp.status_code (pos 200) then ok resp.body else err (on_error resp))

unfoldable pub send : {B : Type 0} → Client B → (HttpResponse B → Error) → HttpRequest → Outcome B
unfolding sent
send c on_error req = sent on_error (c.rejects req.url) (c.exchange req)

-- What the loop over the lines does at a line: goes on, sends a chunk and goes on, sends an error
-- and returns, or returns.
pub data Reaction (S : Type 0) : Type 0 where
  keeps : S → Reaction S
  emits : ChatCompletionChunk → S → Reaction S
  fails : Error → Reaction S
  stops : Reaction S

abbrev pub chunk_event : ChatCompletionChunk → StreamEvent ChatCompletionChunk
chunk_event c = record { chunk = some c; err = none }

abbrev pub error_event : Error → StreamEvent ChatCompletionChunk
error_event e = record { chunk = none; err = some e }

-- sendErr: the `Bool` tells whether the reader takes it before the context is done.
unfoldable pub send_err : Bool → Error → List (StreamEvent ChatCompletionChunk)
send_err taken e = if taken then error_event e ∷ [] else []

-- The goroutine that reads the body, as the events that reach the reader of the channel.
unfoldable pub pump :
    {S : Type 0}
    → (S → String → ℤ → Reaction S)
    → List (StreamEvent ChatCompletionChunk)
    → S
    → List (String × Turn)
    → List (StreamEvent ChatCompletionChunk)
unfolding send_err
pump on_line at_end s [] = at_end
pump on_line at_end s ((line, t) ∷ rest) = elim t.done [
  | true ↦ []
  | false ↦ elim (on_line s line t.unix) [
    | keeps s' ↦ pump on_line at_end s' rest
    | emits c s' ↦ elim t.taken [ true ↦ chunk_event c ∷ pump on_line at_end s' rest | false ↦ [] ]
    | fails e ↦ send_err t.taken e
    | stops ↦ []
  ]
]
