-- ===== src/Provider/Adapters/Anthropic/Transcript.antt =====
-- A message that the Anthropic API streams, and what internal/provider/anthropic makes of it.
use Prim.Native.String.{◌++◌ as text_append}
use Prim.Native.String.append
use text.Mathlib.TextLemmas.{append-nil}
use llm_gateway.Base.{
  ◌≡◌, refl, sym, ap, ap₂, ◌∙◌, true, Option, none, some, List, [], ◌∷◌, ◌++◌, map, ℤ, pos, String,
  str_eq, All,
}
use llm_gateway.Model.Chat.{ChatCompletionChunk, ChunkChoice, ChatCompletionResponse}
use llm_gateway.Model.Errors.{Error}
use llm_gateway.Provider.Retry.{ok}
use llm_gateway.Provider.Retry.Stream.{StreamEvent}
use llm_gateway.Provider.Adapters.{chunk_event, send_err}
use llm_gateway.Provider.Adapters.Ends.{steady}
use llm_gateway.Provider.Adapters.Anthropic.{
  AnthropicResponse, MessageStartEvent, ContentBlockDeltaEvent, MessageDeltaEvent, Codec, join,
  text_parts, translate_response,
}
use llm_gateway.Provider.Adapters.Anthropic.Frames.{frame, run, run-kept, run-sent, run-stopped}
use llm_gateway.Provider.Adapters.Anthropic.Stream.{
  StreamState, initial, on_start, on_content, on_delta, content_chunk, final_chunk, on_data, at_end,
  read_stream,
}

-- The server's JSON of the three events that the adapter decodes.
pub record Encoder : Type 0 where
  pub start : MessageStartEvent → String
  pub content : ContentBlockDeltaEvent → String
  pub delta : MessageDeltaEvent → String
  -- the tokens of output that the first event counts
  pub counted : ℤ

abbrev pub piece_event : String → ContentBlockDeltaEvent
piece_event text = record {
  type = "content_block_delta";
  index = pos 0;
  delta_type = "text_delta";
  delta_text = text;
}

abbrev pub closing_event : AnthropicResponse → MessageDeltaEvent
closing_event m = record {
  type = "message_delta";
  delta_stop_reason = m.stop_reason;
  delta_stop_sequence = m.stop_sequence;
  usage_output_tokens = m.usage.output_tokens;
}

-- The first event carries the message without its content and without a reason to stop, which JSON's
-- null leaves empty; it has counted some tokens of output.
abbrev pub start_event : AnthropicResponse → ℤ → MessageStartEvent
start_event m counted = record {
  type = "message_start";
  message = record m {
    content = [];
    stop_reason = "";
    stop_sequence = none;
    usage = record m.usage { output_tokens = counted };
  };
}

-- The adapter decodes what the server encodes of a message and its pieces.
pub record Agrees {B : Type 0} (json : Codec B) (enc : Encoder) (m : AnthropicResponse)
    (pieces : List (String × ℤ)) : Type 0 where
  pub start :
      json.decode_start (enc.start (start_event m enc.counted)) ≡ ok (start_event m enc.counted)
  pub content :
      All
        (λ piece.
          json.decode_content (enc.content (piece_event piece.0)) ≡ ok (piece_event piece.0))
        pieces
  pub delta : json.decode_delta (enc.delta (closing_event m)) ≡ ok (closing_event m)

-- The lines of a message whose text comes in pieces, each at its time, with the events about its
-- one block, which the adapter passes over.
module _ (enc : Encoder) where
  abbrev delta_frames : List (String × ℤ) → List (String × ℤ) → List (String × ℤ)
  delta_frames [] after = after
  delta_frames ((text, unix) ∷ pieces) after =
      frame "content_block_delta" (enc.content (piece_event text)) unix (delta_frames pieces after)

  abbrev over : ℤ → List (String × ℤ)
  over unix = frame "message_stop" "{}" unix []

  abbrev finish : AnthropicResponse → ℤ → List (String × ℤ)
  finish m unix = frame "message_delta" (enc.delta (closing_event m)) unix (over unix)

  abbrev closing : AnthropicResponse → ℤ → List (String × ℤ)
  closing m unix = frame "content_block_stop" "{}" unix (finish m unix)

  abbrev body : AnthropicResponse → List (String × ℤ) → ℤ → List (String × ℤ)
  body m pieces unix = frame "content_block_start" "{}" unix (delta_frames pieces (closing m unix))

  abbrev pub transcript : AnthropicResponse → List (String × ℤ) → ℤ → List (String × ℤ)
  transcript m pieces unix =
      frame "message_start" (enc.start (start_event m enc.counted)) unix (body m pieces unix)

-- The loop's variables while a message is read.
abbrev pub reading : AnthropicResponse → String → StreamState
reading m type = record {
  msg_id = m.id;
  msg_model = m.model;
  input_tokens = m.usage.input_tokens;
  event_type = type;
}

-- What the reader of the channel gets of it.
abbrev pub events_of :
    AnthropicResponse → List (String × ℤ) → ℤ → List (StreamEvent ChatCompletionChunk)
events_of m pieces unix =
    map (λ piece. chunk_event (content_chunk (reading m "") piece.1 piece.0)) pieces
    ++ (chunk_event (final_chunk (reading m "") unix m.stop_reason m.usage.output_tokens) ∷ [])

module _ {B : Type 0} (json : Codec B) (enc : Encoder)
    (end : List (StreamEvent ChatCompletionChunk)) (m : AnthropicResponse) (unix : ℤ) where
  abbrev last : ChatCompletionChunk
  last = final_chunk (reading m "") unix m.stop_reason m.usage.output_tokens

  closing-run :
      json.decode_delta (enc.delta (closing_event m)) ≡ ok (closing_event m)
      → (type : String) → run json end (reading m type) (closing enc m unix) ≡ chunk_event last ∷ []
  unfolding on_data on_delta final_chunk str_eq
  closing-run closes type =
      let stopped = reading m "content_block_stop" in
      let ended = reading m "message_delta" in
      run-kept json end (reading m type) "content_block_stop" "{}" unix (finish enc m unix) stopped
        refl
      ∙ (run-sent json end stopped "message_delta" (enc.delta (closing_event m)) unix
            (over enc unix) last ended (ap (on_delta ended unix) closes)
          ∙ ap (◌∷◌ (chunk_event last))
              (run-stopped json end ended "message_stop" "{}" unix [] refl))

  delta-run :
      json.decode_delta (enc.delta (closing_event m)) ≡ ok (closing_event m)
      → (pieces : List (String × ℤ)) (type : String)
      → All
          (λ piece.
            json.decode_content (enc.content (piece_event piece.0)) ≡ ok (piece_event piece.0))
          pieces
      → run json end (reading m type) (delta_frames enc pieces (closing enc m unix))
        ≡ events_of m pieces unix
  unfolding on_data on_content content_chunk str_eq
  delta-run closes [] type h = closing-run closes type
  delta-run closes ((text, at) ∷ pieces) type h =
      let s = reading m "content_block_delta" in
      let c = content_chunk (reading m "") at text in
      run-sent json end (reading m type) "content_block_delta" (enc.content (piece_event text)) at
        (delta_frames enc pieces (closing enc m unix)) c s (ap (on_content s at) h.0)
      ∙ ap (◌∷◌ (chunk_event c)) (delta-run closes pieces "content_block_delta" h.1)

  transcript-run :
      (pieces : List (String × ℤ))
      → Agrees json enc m pieces
      → run json end initial (transcript enc m pieces unix) ≡ events_of m pieces unix
  unfolding on_data on_start str_eq
  transcript-run pieces agrees =
      let started = record initial { event_type = "message_start" } in
      run-kept json end initial "message_start" (enc.start (start_event m enc.counted)) unix
        (body enc m pieces unix) (reading m "message_start") (ap (on_start started) agrees.start)
      ∙ (run-kept json end (reading m "message_start") "content_block_start" "{}" unix
            (delta_frames enc pieces (closing enc m unix)) (reading m "content_block_start") refl
          ∙ delta-run agrees.delta pieces "content_block_start" agrees.content)

-- The text that a client puts together from the chunks.
abbrev choice_text : List ChunkChoice → String
choice_text [] = ""
choice_text (choice ∷ rest) = text_append choice.delta.content (choice_text rest)

abbrev chunk_text : Option ChatCompletionChunk → String
chunk_text none = ""
chunk_text (some c) = choice_text c.choices

abbrev pub streamed_text : List (StreamEvent ChatCompletionChunk) → String
streamed_text [] = ""
streamed_text (evt ∷ rest) = text_append (chunk_text evt.chunk) (streamed_text rest)

join-cons : (t : String) (ts : List String) → join "" (t ∷ ts) ≡ text_append t (join "" ts)
unfolding join
join-cons t [] = sym (append-nil t)
join-cons t (u ∷ ts) = ap (text_append t) (append.nil (join "" (u ∷ ts)))

events-text :
    (m : AnthropicResponse) (pieces : List (String × ℤ)) (unix : ℤ)
    → streamed_text (events_of m pieces unix) ≡ join "" (map (λ piece. piece.0) pieces)
unfolding join content_chunk final_chunk
events-text m [] unix = refl
events-text m ((text, at) ∷ pieces) unix =
    ap₂ text_append (append-nil text) (events-text m pieces unix)
    ∙ sym (join-cons text (map (λ piece. piece.0) pieces))

-- A chunk reports what an answer reports, its text aside.
abbrev pub Closes : ChatCompletionResponse → ChatCompletionChunk → Type 0
Closes resp c =
    (c.id ≡ resp.id)
    × (c.model ≡ resp.model)
    × (c.usage ≡ some resp.usage)
    × (map (λ choice. choice.finish_reason) c.choices
        ≡ map (λ choice. some choice.finish_reason) resp.choices)

-- A message that is streamed is the message that is answered at once: where the adapter decodes
-- what the server encodes, the first event being without content and without a reason to stop, and
-- the pieces make up the message's text, a reader of the stream who stays gets no error but a chunk for each piece, in order, whose texts together are the text of
-- translateResponse's answer, and then a chunk with the answer's finish reason and usage.
pub read_stream-transcript :
    {B : Type 0} (json : Codec B) (enc : Encoder) (m : AnthropicResponse)
    (pieces : List (String × ℤ)) (unix : ℤ) (failure : Option Error)
    → Agrees json enc m pieces
    → join "" (map (λ piece. piece.0) pieces) ≡ join "" (text_parts m.content)
    → let evts = read_stream json (steady (transcript enc m pieces unix) failure) in
      let resp = translate_response unix m in
      let last = final_chunk (reading m "") unix m.stop_reason m.usage.output_tokens in
      (evts ≡ events_of m pieces unix)
      × (map (λ choice. choice.message.content) resp.choices ≡ streamed_text evts ∷ [])
      × Closes resp last
unfolding read_stream translate_response final_chunk
read_stream-transcript json enc m pieces unix failure agrees same =
    let end = send_err true (at_end failure) in
    let run = transcript-run json enc end m unix pieces agrees in
    (
      run,
      ap (λ t. t ∷ []) (sym (ap streamed_text run ∙ (events-text m pieces unix ∙ same))),
      (refl, refl, refl, refl),
    )
