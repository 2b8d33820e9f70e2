-- ===== src/Provider/Adapters/Anthropic/Frames.antt =====
-- The lines of a server-sent event, as the loop of internal/provider/anthropic/anthropic.go reads
-- them.
use Prim.Native.String.{◌++◌ as text_append}
use llm_gateway.Base.{◌≡◌, refl, ap, ap₂, ◌∙◌, List, [], ◌∷◌, map, ℤ, String}
use llm_gateway.Model.Chat.{ChatCompletionChunk}
use llm_gateway.Provider.Retry.Stream.{StreamEvent}
use llm_gateway.Provider.Adapters.{keeps, emits, stops, chunk_event, pump}
use llm_gateway.Provider.Adapters.Ends.{at_ease, pump-kept, pump-sent, pump-stopped}
use llm_gateway.Provider.Adapters.Text.{cut_prefix, differ, cut_prefix-append, cut_prefix-differ}
use llm_gateway.Provider.Adapters.Anthropic.{Codec}
use llm_gateway.Provider.Adapters.Anthropic.Stream.{StreamState, on_data, on_parts, on_line}

-- An event of a type, with its payload and the empty line that ends it, read at a time; more lines
-- follow.
abbrev pub frame : String → String → ℤ → List (String × ℤ) → List (String × ℤ)
frame type payload unix rest =
    (text_append "event: " type, unix) ∷ (text_append "data: " payload, unix) ∷ ("", unix) ∷ rest

module _ {B : Type 0} (json : Codec B) (at_end : List (StreamEvent ChatCompletionChunk)) where
  abbrev pub run : StreamState → List (String × ℤ) → List (StreamEvent ChatCompletionChunk)
  run s lines = pump (on_line json) at_end s (map at_ease lines)

  on_line-event :
      (s : StreamState) (type : String) (unix : ℤ)
      → on_line json s (text_append "event: " type) unix ≡ keeps (record s { event_type = type })
  unfolding on_line on_parts
  on_line-event s type unix =
      let line = text_append "event: " type in
      ap (λ o. on_parts json s o (cut_prefix "data: " line) unix) (cut_prefix-append "event: " type)

  on_line-data :
      (s : StreamState) (payload : String) (unix : ℤ)
      → on_line json s (text_append "data: " payload) unix ≡ on_data json s payload unix
  unfolding on_line on_parts differ
  on_line-data s payload unix =
      ap₂ (λ o o'. on_parts json s o o' unix) (cut_prefix-differ "event: " "data: " payload refl)
        (cut_prefix-append "data: " payload)

  on_line-empty : (s : StreamState) (unix : ℤ) → on_line json s "" unix ≡ keeps s
  unfolding on_line on_parts cut_prefix
  on_line-empty s unix = refl

  module _ (s : StreamState) (type payload : String) (unix : ℤ) (rest : List (String × ℤ)) where
    abbrev typed : StreamState
    typed = record s { event_type = type }

    abbrev after_type : List (String × ℤ)
    after_type = (text_append "data: " payload, unix) ∷ ("", unix) ∷ rest

    read_type : run s (frame type payload unix rest) ≡ run typed after_type
    read_type =
        pump-kept (on_line json) at_end (text_append "event: " type) unix after_type s typed
          (on_line-event s type unix)

    read_empty : (s' : StreamState) → run s' (("", unix) ∷ rest) ≡ run s' rest
    read_empty s' = pump-kept (on_line json) at_end "" unix rest s' s' (on_line-empty s' unix)

    pub run-kept :
        (s' : StreamState)
        → on_data json typed payload unix ≡ keeps s'
        → run s (frame type payload unix rest) ≡ run s' rest
    run-kept s' e =
        read_type
        ∙ (pump-kept (on_line json) at_end (text_append "data: " payload) unix (("", unix) ∷ rest)
              typed s' (on_line-data typed payload unix ∙ e)
            ∙ read_empty s')

    pub run-sent :
        (c : ChatCompletionChunk) (s' : StreamState)
        → on_data json typed payload unix ≡ emits c s'
        → run s (frame type payload unix rest) ≡ chunk_event c ∷ run s' rest
    run-sent c s' e =
        read_type
        ∙ (pump-sent (on_line json) at_end (text_append "data: " payload) unix (("", unix) ∷ rest)
              typed s' c (on_line-data typed payload unix ∙ e)
            ∙ ap (◌∷◌ (chunk_event c)) (read_empty s'))

    pub run-stopped :
        on_data json typed payload unix ≡ stops → run s (frame type payload unix rest) ≡ []
    run-stopped e =
        read_type
        ∙ pump-stopped (on_line json) at_end (text_append "data: " payload) unix (("", unix) ∷ rest)
            typed typed (on_line-data typed payload unix ∙ e)
