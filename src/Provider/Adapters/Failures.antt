-- ===== src/Provider/Adapters/Failures.antt =====
-- What the three adapters make of an upstream's answer that is not a success.
use llm_gateway.Base.{
  ◌≡◌, refl, ap, ap₂, ◌∙◌, Bool, true, false, ◌||◌, none, ℤ, pos, negsuc, leb_ℤ, eqb_ℤ, String,
  if◌then◌else◌, arith,
}
use llm_gateway.Model.Chat.{ChatCompletionRequest}
use llm_gateway.Model.Errors.{ProviderError, Error, provider_error, parse_retry_after}
use llm_gateway.Provider.Retry.{Outcome, ok, err, is_retryable}
use llm_gateway.Provider.Adapters.{
  Provider, HttpRequest, HttpResponse, Client, ErrorBody, try, and_then, handle_error_response,
  sent, send,
}
use llm_gateway.Provider.Adapters.Anthropic
use llm_gateway.Provider.Adapters.Anthropic.Stream as AnthropicStream
use llm_gateway.Provider.Adapters.Google
use llm_gateway.Provider.Adapters.Google.Stream as GoogleStream
use llm_gateway.Provider.Adapters.Openai

-- The statuses that are worth another try.
abbrev pub is_transient : ℤ → Bool
is_transient status = eqb_ℤ status (pos 429) || leb_ℤ (pos 500) status

-- A result is the error of a response: its status and the wait that its header asks for, and the
-- flag that the retrying decorator reads, set for 429 and from 500 on.
abbrev pub IsRefusal : {B A : Type 0} → Client B → HttpResponse B → Outcome A → Type 0
IsRefusal c resp o =
    (pe : ProviderError) × (o ≡ err (provider_error pe))
    × (pe.status_code ≡ resp.status_code)
    × (pe.retry_after ≡ parse_retry_after c.atoi c.until_date resp.retry_after)
    × (is_retryable (provider_error pe) ≡ is_transient resp.status_code)

anthropic-retries : (status : ℤ) → Anthropic.retries status ≡ is_transient status
unfolding Anthropic.retries
anthropic-retries (pos n) = ground arith
anthropic-retries (negsuc n) = ground arith

module _ {B : Type 0} (c : Client B) (resp : HttpResponse B)
    (bad : eqb_ℤ resp.status_code (pos 200) ≡ false)
    (created : (url : String) → c.rejects url ≡ none)
    (answered : (req : HttpRequest) → c.exchange req ≡ ok resp) where
  send-refused :
      (on_error : HttpResponse B → Error) (req : HttpRequest)
      → send c on_error req ≡ err (on_error resp)
  unfolding send sent try
  send-refused on_error req =
      ap₂ (sent on_error) (created req.url) (answered req)
      ∙ ap (λ b. if b then ok resp.body else err (on_error resp)) bad

  -- The error of a response, made with a test that agrees with the one above.
  IsRefusal-response :
      {A : Type 0} (retries : ℤ → Bool) (name_of : ℤ → String)
      (decode_error : String → Outcome ErrorBody) (o : Outcome A)
      → retries resp.status_code ≡ is_transient resp.status_code
      → o ≡ err (handle_error_response c retries name_of decode_error resp)
      → IsRefusal c resp o
  unfolding handle_error_response is_retryable
  IsRefusal-response retries name_of decode_error o same e = (_, e, refl, refl, same)

  -- A call that marshals its request and sends it, with the decoding inside or behind.
  call-refused :
      {D : Type 0} (on_error : HttpResponse B → Error) (m : Outcome String) (body : String)
      (req : String → HttpRequest) (next : B → Outcome D)
      → m ≡ ok body
      → try "marshaling request" m (λ b. and_then (send c on_error (req b)) next)
        ≡ err (on_error resp)
  unfolding try and_then
  call-refused on_error m body req next e =
      ap (λ o. try "marshaling request" o (λ b. and_then (send c on_error (req b)) next)) e
      ∙ ap (λ o. and_then o next) (send-refused on_error (req body))

  open-refused :
      {D : Type 0} (on_error : HttpResponse B → Error) (m : Outcome String) (body : String)
      (req : String → HttpRequest) (next : B → Outcome D)
      → m ≡ ok body
      → and_then (try "marshaling request" m (λ b. send c on_error (req b))) next
        ≡ err (on_error resp)
  unfolding try and_then
  open-refused on_error m body req next e =
      ap (λ o. and_then (try "marshaling request" o (λ b. send c on_error (req b))) next) e
      ∙ ap (λ o. and_then o next) (send-refused on_error (req body))

  module _ (p : Provider) (id : String) (req : ChatCompletionRequest)
      (anthropic : Anthropic.Codec B) (google : Google.Codec B) (openai : Openai.Codec B)
      (a g o o' a' : String)
      (anthropic_ok : anthropic.marshal (Anthropic.translate_request req) ≡ ok a)
      (anthropic_stream_ok : anthropic.marshal
          (record (Anthropic.translate_request req) { stream = true })
        ≡ ok a')
      (google_ok : google.marshal (Google.translate_request req) ≡ ok g)
      (openai_ok : openai.marshal (record { request = req; stream = false }) ≡ ok o)
      (openai_stream_ok : openai.marshal (record { request = req; stream = true }) ≡ ok o') where
    -- Where a request is created and sent, and answered with a status other than 200, both calls of
    -- each adapter return an error of the upstream with that status and the wait of its
    -- Retry-After header, which the retrying decorator takes for transient exactly where the status
    -- is 429 or at least 500.
    pub calls_refused :
        IsRefusal c resp (Anthropic.chat_completion c anthropic p req)
        × IsRefusal c resp (AnthropicStream.chat_completion_stream anthropic c p req)
        × IsRefusal c resp (Google.chat_completion c google p id req)
        × IsRefusal c resp (GoogleStream.chat_completion_stream google c p id req)
        × IsRefusal c resp (Openai.chat_completion c openai p req)
        × IsRefusal c resp (Openai.chat_completion_stream openai c p req)
    unfolding Anthropic.chat_completion AnthropicStream.chat_completion_stream Anthropic.open_stream
        Google.chat_completion GoogleStream.chat_completion_stream Google.open_stream
        Openai.chat_completion Openai.chat_completion_stream Openai.open_stream Google.retries
        Openai.retries and_then
    calls_refused =
        let of_anthropic = Anthropic.on_error c anthropic p in
        let of_google = Google.on_error c google p in
        let of_openai = Openai.on_error c openai p in
        let status = anthropic-retries resp.status_code in
        (
          IsRefusal-response Anthropic.retries Anthropic.error_type_from_status
              anthropic.decode_error _ status (call-refused of_anthropic _ a _ _ anthropic_ok),
          IsRefusal-response Anthropic.retries Anthropic.error_type_from_status
              anthropic.decode_error _ status
              (open-refused of_anthropic _ a' _ _ anthropic_stream_ok),
          IsRefusal-response Google.retries Google.error_type_from_status google.decode_error _ refl
              (call-refused of_google _ g _ _ google_ok),
          IsRefusal-response Google.retries Google.error_type_from_status google.decode_error _ refl
              (open-refused of_google _ g _ _ google_ok),
          IsRefusal-response Openai.retries Openai.error_type_from_status openai.decode_error _ refl
              (call-refused of_openai _ o _ _ openai_ok),
          IsRefusal-response Openai.retries Openai.error_type_from_status openai.decode_error _ refl
              (open-refused of_openai _ o' _ _ openai_stream_ok),
        )
