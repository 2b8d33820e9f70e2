-- ===== src/Provider/Adapters/Reads/Bodies.antt =====
-- What the readers of OpenAI's and Google's streams get of the lines of a body, in
-- internal/provider/openai/openai.go and internal/provider/google/google.go.
use llm_gateway.Base.{
  ◌≡◌, refl, ap, ap₂, ◌∙◌, true, false, Option, none, some, List, [], ℤ, String, str_eq, arith,
  if◌then◌else◌,
}
use llm_gateway.Model.Chat.{ChatCompletionChunk}
use llm_gateway.Model.Errors.{Error, wrapped}
use llm_gateway.Provider.Retry.{Outcome, ok, err}
use llm_gateway.Provider.Retry.Stream.{StreamEvent}
use llm_gateway.Provider.Adapters.{keeps, emits, fails, stops, send_err}
use llm_gateway.Provider.Adapters.Ends.{steady}
use llm_gateway.Provider.Adapters.Text.{cut_prefix, cut_prefix-append}
use llm_gateway.Provider.Adapters.Google
use llm_gateway.Provider.Adapters.Google.Stream as GoogleStream
use llm_gateway.Provider.Adapters.Openai
use llm_gateway.Provider.Adapters.Reads.{data_line, Fails, Reads, run-Reads}

-- The end of a Google body: an error where the scanner fails, nothing else.
abbrev pub GoogleEnd : Option Error → List (StreamEvent ChatCompletionChunk) → Type 0
GoogleEnd none evts = evts ≡ []
GoogleEnd (some e) evts = Fails evts

module _ {B : Type 0} (openai : Openai.Codec B) where
  openai-kept :
      (line : String) (unix : ℤ)
      → cut_prefix "data: " line ≡ none
      → Openai.on_line openai tt line unix ≡ keeps tt
  unfolding Openai.on_line Openai.on_payload
  openai-kept line unix e = ap (Openai.on_payload openai tt) e

  openai-data :
      (payload : String) (unix : ℤ)
      → Openai.on_line openai tt (data_line payload) unix
        ≡ Openai.on_payload openai tt (some payload)
  unfolding Openai.on_line
  openai-data payload unix = ap (Openai.on_payload openai tt) (cut_prefix-append "data: " payload)

  openai-stopped :
      (payload : String) (unix : ℤ)
      → str_eq payload "[DONE]" ≡ true
      → Openai.on_line openai tt (data_line payload) unix ≡ stops
  unfolding Openai.on_payload
  openai-stopped payload unix h =
      openai-data payload unix
      ∙ ap (λ b. if b then stops else Openai.on_chunk (openai.decode_chunk payload)) h

  openai-decoded :
      (payload : String) (unix : ℤ) (o : Outcome ChatCompletionChunk)
      → str_eq payload "[DONE]" ≡ false
      → openai.decode_chunk payload ≡ o
      → Openai.on_line openai tt (data_line payload) unix ≡ Openai.on_chunk o
  unfolding Openai.on_payload
  openai-decoded payload unix o h e =
      openai-data payload unix ∙ ap₂ (λ b x. if b then stops else Openai.on_chunk x) h e

  openai-sent :
      (payload : String) (unix : ℤ) (r : ChatCompletionChunk)
      → str_eq payload "[DONE]" ≡ false
      → openai.decode_chunk payload ≡ ok r
      → Openai.on_line openai tt (data_line payload) unix ≡ emits r tt
  unfolding Openai.on_chunk
  openai-sent payload unix r h e = openai-decoded payload unix (ok r) h e

  openai-failed :
      (payload : String) (unix : ℤ) (e : Error)
      → str_eq payload "[DONE]" ≡ false
      → openai.decode_chunk payload ≡ err e
      → (x : Error) × (Openai.on_line openai tt (data_line payload) unix ≡ fails x)
  unfolding Openai.on_chunk
  openai-failed payload unix e h d =
      (wrapped "decoding chunk" e, openai-decoded payload unix (err e) h d)

module _ {B : Type 0} (google : Google.Codec B) (id name : String) where
  google-kept :
      (line : String) (unix : ℤ)
      → cut_prefix "data: " line ≡ none
      → GoogleStream.on_line google id name tt line unix ≡ keeps tt
  unfolding GoogleStream.on_line
  google-kept line unix e = rw (GoogleStream.on_line, e) refl

  google-data :
      (payload : String) (unix : ℤ)
      → GoogleStream.on_line google id name tt (data_line payload) unix
        ≡ GoogleStream.on_chunk id name unix (google.decode_chunk payload)
  unfolding GoogleStream.on_line
  google-data payload unix = rw (GoogleStream.on_line, cut_prefix-append "data: " payload) refl

  google-sent :
      (payload : String) (unix : ℤ) (r : Google.GeminiResponse)
      → google.decode_chunk payload ≡ ok r
      → GoogleStream.on_line google id name tt (data_line payload) unix
        ≡ emits (GoogleStream.translate_chunk id name unix r) tt
  unfolding GoogleStream.on_chunk
  google-sent payload unix r e =
      google-data payload unix ∙ ap (GoogleStream.on_chunk id name unix) e

  google-failed :
      (payload : String) (unix : ℤ) (e : Error)
      → google.decode_chunk payload ≡ err e
      → (x : Error) × (GoogleStream.on_line google id name tt (data_line payload) unix ≡ fails x)
  unfolding GoogleStream.on_chunk
  google-failed payload unix e d = (
    wrapped "decoding chunk" e,
    google-data payload unix ∙ ap (GoogleStream.on_chunk id name unix) d,
  )

google-over :
    (lines : List (String × ℤ)) (failure : Option Error)
    → GoogleEnd failure (GoogleStream.at_end (steady lines failure))
unfolding GoogleStream.at_end send_err
google-over lines none = refl
google-over lines (some x) = (wrapped "reading stream" x, refl)

-- Line by line, what a reader who stays gets of a body: a line without `data: ` is passed over; data
-- that decodes is one chunk; data that does not is one error, with which the stream ends. OpenAI's
-- stream ends without an error at the closing word and only there, since lines that just end are an
-- error; Google's has no closing word, and lines that just end are an error only where the scanner
-- fails.
pub read_stream-Reads :
    {B : Type 0} (openai : Openai.Codec B) (google : Google.Codec B) (id name : String)
    (lines : List (String × ℤ)) (failure : Option Error)
    → Reads
        (λ payload. str_eq payload "[DONE]")
        openai.decode_chunk
        (λ unix c. c)
        Fails
        lines
        (Openai.read_stream openai (steady lines failure))
      × Reads
          (λ payload. false)
          google.decode_chunk
          (GoogleStream.translate_chunk id name)
          (GoogleEnd failure)
          lines
          (GoogleStream.read_stream google id name (steady lines failure))
unfolding Openai.read_stream GoogleStream.read_stream send_err
read_stream-Reads openai google id name lines failure = (
  run-Reads (λ payload. str_eq payload "[DONE]") openai.decode_chunk (λ unix c. c) Fails
      (Openai.on_line openai) _ (Openai.at_end failure, refl) (openai-kept openai)
      (openai-stopped openai) (openai-sent openai) (openai-failed openai) lines,
  run-Reads (λ payload. false) google.decode_chunk (GoogleStream.translate_chunk id name)
      (GoogleEnd failure) (GoogleStream.on_line google id name) _ (google-over lines failure)
      (google-kept google id name) (λ payload unix h. ground (arith, h))
      (λ payload unix r h. google-sent google id name payload unix r)
      (λ payload unix e h. google-failed google id name payload unix e) lines,
)
