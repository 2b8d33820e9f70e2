-- ===== src/Provider/Adapters/Google/Stream.antt =====
-- The goroutine of ChatCompletionStream in internal/provider/google/google.go.
use llm_gateway.Base.{
  ℕ, ◌+◌, Option, none, some, List, [], ◌∷◌, ℤ, pos, String, str_eq, if◌then◌else◌,
}
use llm_gateway.Model.Chat.{ChatCompletionRequest, Usage, ChunkChoice, ChatCompletionChunk}
use llm_gateway.Model.Errors.{wrapped}
use llm_gateway.Provider.Retry.{Outcome, ok, err}
use llm_gateway.Provider.Retry.Stream.{StreamEvent}
use llm_gateway.Provider.Adapters.{
  Provider, Scan, Client, and_then, Reaction, keeps, emits, fails, send_err, pump,
}
use llm_gateway.Provider.Adapters.Google.{
  GeminiCandidate, GeminiResponse, GeminiUsageMetadata, Codec, content_of, map_finish_reason,
  usage_of, open_stream,
}
use llm_gateway.Provider.Adapters.Text.{cut_prefix}

abbrev pub finish_of : String → Option String
finish_of reason = if str_eq reason "" then none else some (map_finish_reason reason)

abbrev pub usage_if : Option GeminiUsageMetadata → Option Usage
usage_if none = none
usage_if (some u) = some (usage_of u)

unfoldable pub chunk_choices : ℕ → List GeminiCandidate → List ChunkChoice
unfolding content_of
chunk_choices i [] = []
chunk_choices i (candidate ∷ rest) =
    record {
      index = pos i;
      delta = record { role = ""; content = content_of candidate.content.parts };
      finish_reason = finish_of candidate.finish_reason;
    }
    ∷ chunk_choices (i + 1) rest

unfoldable pub translate_chunk : String → String → ℤ → GeminiResponse → ChatCompletionChunk
unfolding chunk_choices
translate_chunk stream_id req_model unix resp = record {
  id = stream_id;
  object = "chat.completion.chunk";
  created = unix;
  model = req_model;
  choices = chunk_choices 0 resp.candidates;
  usage = usage_if resp.usage_metadata;
}

-- The loop keeps no variable.
unfoldable pub on_chunk : String → String → ℤ → Outcome GeminiResponse → Reaction (Unit {0})
unfolding translate_chunk
on_chunk stream_id req_model unix (err e) = fails (wrapped "decoding chunk" e)
on_chunk stream_id req_model unix (ok chunk) =
    emits (translate_chunk stream_id req_model unix chunk) tt

-- The error behind the last line, where the scanner has one: the end of the body is the normal end.
unfoldable pub at_end : Scan → List (StreamEvent ChatCompletionChunk)
unfolding send_err
at_end body = elim body.failure [
  | none ↦ []
  | some e ↦ send_err body.taken (wrapped "reading stream" e)
]

module _ {B : Type 0} (json : Codec B) (stream_id req_model : String) where
  unfoldable pub on_line : Unit {0} → String → ℤ → Reaction (Unit {0})
  unfolding cut_prefix on_chunk
  on_line s line unix = elim (cut_prefix "data: " line) [
    | none ↦ keeps s
    | some payload ↦ on_chunk stream_id req_model unix (json.decode_chunk payload)
  ]

  unfoldable pub read_stream : Scan → List (StreamEvent ChatCompletionChunk)
  unfolding pump on_line at_end
  read_stream body = pump on_line (at_end body) tt body.lines

-- `id` is what generateID draws.
unfoldable pub chat_completion_stream :
    {B : Type 0}
    → Codec B
    → Client B
    → Provider
    → String
    → ChatCompletionRequest
    → Outcome (List (StreamEvent ChatCompletionChunk))
unfolding open_stream read_stream and_then
chat_completion_stream json c p id req =
    and_then (open_stream c json p req) (λ body. ok (read_stream json id req.model (c.scan body)))
