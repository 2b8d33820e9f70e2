-- ===== src/Provider/Adapters/Openai/Relay.antt =====
-- A gateway behind a gateway: what internal/handler/chat.go writes of a stream, read by
-- internal/provider/openai/openai.go.
use Prim.Native.String.{◌++◌ as text_append}
use Prim.Native.String.append
use text.Mathlib.TextLemmas.{append_assoc}
use llm_gateway.Base.{
  ◌≡◌, refl, sym, ap, ap₂, ◌∙◌, true, false, Option, none, some, List, [], ◌∷◌, ◌++◌, map, ℤ,
  String, str_eq, if◌then◌else◌, All,
}
use llm_gateway.Model.Chat.{ChatCompletionChunk}
use llm_gateway.Model.Errors.{Error}
use llm_gateway.Provider.Retry.{ok}
use llm_gateway.Provider.Retry.Stream.{StreamEvent}
use llm_gateway.Provider.Adapters.{keeps, emits, stops, chunk_event, error_event, send_err, pump}
use llm_gateway.Provider.Adapters.Ends.{at_ease, steady, pump-kept, pump-sent, pump-stopped}
use llm_gateway.Provider.Adapters.Openai.{Codec, on_chunk, on_payload, on_line, at_end, read_stream}
use llm_gateway.Provider.Adapters.Text.{cut_prefix, cut_prefix-append}
use llm_gateway.Handler.{on_event, send_events, handle_stream}
use llm_gateway.Handler.Reports.{handle_stream-error}

-- The body that the writes make up.
abbrev pub body_of : List String → String
body_of [] = ""
body_of (w ∷ ws) = text_append w (body_of ws)

-- What a bufio.Scanner documents: a text without a line break, that is not too long for its buffer,
-- is a line where a line break follows it.
pub record Scanner : Type 1 where
  pub IsLine : String → Type 0
  pub scan_lines : String → List String
  pub scan-line :
      (l rest : String)
      → IsLine l
      → scan_lines (text_append l (text_append "\n" rest)) ≡ l ∷ scan_lines rest
  pub line_empty : IsLine ""
  pub line_done : IsLine "data: [DONE]"

-- The JSON of a chunk is a line, is not the end's word, and is decoded to the chunk.
pub record Agrees {B : Type 0} (json : Codec B) (scanner : Scanner)
    (marshal : Option ChatCompletionChunk → Option String) (c : ChatCompletionChunk) : Type 0 where
  pub text : String
  pub marshals : marshal (some c) ≡ some text
  pub decodes : json.decode_chunk text ≡ ok c
  pub differs : str_eq text "[DONE]" ≡ false
  pub line : scanner.IsLine (text_append "data: " text)

module _ {B : Type 0} (json : Codec B) (scanner : Scanner)
    (marshal : Option ChatCompletionChunk → Option String) (unix : ℤ) where
  -- The lines of a body, all read at one time.
  abbrev pub lines_of : String → List (String × ℤ)
  lines_of body = map (λ l. (l, unix)) (scanner.scan_lines body)

  -- What the adapter makes of what the handler writes.
  abbrev pub relayed :
      List (StreamEvent ChatCompletionChunk) → List (StreamEvent ChatCompletionChunk)
  relayed evts =
      read_stream json (steady (lines_of (body_of (handle_stream marshal true evts))) none)

  abbrev run : List (String × ℤ) → List (StreamEvent ChatCompletionChunk)
  run lines = pump (on_line json) (send_err true (at_end none)) tt (map at_ease lines)

  split-frame :
      (payload rest : String)
      → text_append (text_append "data: " (text_append payload "\n\n")) rest
        ≡ text_append
            (text_append "data: " payload)
            (text_append "\n" (text_append "" (text_append "\n" rest)))
  split-frame payload rest =
      let l = text_append "data: " payload in
      ap (λ t. text_append t rest) (sym (append_assoc "data: " payload "\n\n"))
      ∙ (append_assoc l "\n\n" rest
          ∙ ap (text_append l) (
              append_assoc "\n" "\n" rest
              ∙ ap (text_append "\n") (sym (append.nil (text_append "\n" rest)))))

  scan-frame :
      (payload rest : String)
      → scanner.IsLine (text_append "data: " payload)
      → lines_of (text_append (text_append "data: " (text_append payload "\n\n")) rest)
        ≡ (text_append "data: " payload, unix) ∷ ("", unix) ∷ lines_of rest
  scan-frame payload rest is_line =
      ap lines_of (split-frame payload rest)
      ∙ (ap (map (λ l. (l, unix))) (
            scanner.scan-line (text_append "data: " payload)
              (text_append "" (text_append "\n" rest)) is_line)
          ∙ ap (λ ls. (text_append "data: " payload, unix) ∷ map (λ l. (l, unix)) ls)
              (scanner.scan-line "" rest scanner.line_empty))

  on_line-chunk :
      (c : ChatCompletionChunk) (agrees : Agrees json scanner marshal c)
      → on_line json tt (text_append "data: " agrees.text) unix ≡ emits c tt
  unfolding on_line on_payload on_chunk
  on_line-chunk c agrees =
      ap (on_payload json tt) (cut_prefix-append "data: " agrees.text)
      ∙ ap₂ (λ b o. if b then stops else on_chunk o) agrees.differs agrees.decodes

  on_line-empty : on_line json tt "" unix ≡ keeps tt
  unfolding on_line on_payload cut_prefix
  on_line-empty = refl

  on_line-done : on_line json tt "data: [DONE]" unix ≡ stops
  unfolding on_line on_payload cut_prefix str_eq
  on_line-done = refl

  abbrev end : List (StreamEvent ChatCompletionChunk)
  end = send_err true (at_end none)

  run-chunk :
      (c : ChatCompletionChunk) (agrees : Agrees json scanner marshal c) (rest : String)
      → run (lines_of (text_append (text_append "data: " (text_append agrees.text "\n\n")) rest))
        ≡ chunk_event c ∷ run (lines_of rest)
  run-chunk c agrees rest =
      let l = text_append "data: " agrees.text in
      ap run (scan-frame agrees.text rest agrees.line)
      ∙ (pump-sent (on_line json) end l unix (("", unix) ∷ lines_of rest) tt tt c
            (on_line-chunk c agrees)
          ∙ ap (◌∷◌ (chunk_event c))
              (pump-kept (on_line json) end "" unix (lines_of rest) tt tt on_line-empty))

  run-chunks :
      (cs : List ChatCompletionChunk)
      → All (Agrees json scanner marshal) cs
      → run (lines_of (body_of (handle_stream marshal true (map chunk_event cs))))
        ≡ map chunk_event cs
  unfolding handle_stream send_events on_event
  run-chunks [] h =
      ap run (scan-frame "[DONE]" "" scanner.line_done)
      ∙ pump-stopped (on_line json) end "data: [DONE]" unix (("", unix) ∷ lines_of "") tt tt
          on_line-done
  run-chunks (c ∷ cs) h =
      let after = handle_stream marshal true (map chunk_event cs) in
      ap
        (λ o. run (
          lines_of (
            body_of (
              on_event none o (send_events marshal (map chunk_event cs))
              ++ ("data: [DONE]\n\n" ∷ [])))))
        h.0.marshals
      ∙ (run-chunk c h.0 (body_of after) ∙ ap (◌∷◌ (chunk_event c)) (run-chunks cs h.1))

  -- Where the adapter decodes what the handler encodes, and a reader stays, a stream that a gateway
  -- writes to a gateway arrives chunk by chunk as it is, and without an error. One that breaks off
  -- with an error arrives the same way: the gateway that reads it takes it for a whole answer.
  pub relay :
      (cs : List ChatCompletionChunk) (e : Error) (rest : List (StreamEvent ChatCompletionChunk))
      → All (Agrees json scanner marshal) cs
      → (relayed (map chunk_event cs) ≡ map chunk_event cs)
        × (relayed (map chunk_event cs ++ (error_event e ∷ rest)) ≡ map chunk_event cs)
  unfolding read_stream
  relay cs e rest agrees =
      let whole = run-chunks cs agrees in
      (
        whole,
        ap (λ ws. run (lines_of (body_of ws)))
              (handle_stream-error marshal true (map chunk_event cs) rest (error_event e) e refl)
            ∙ whole,
      )
