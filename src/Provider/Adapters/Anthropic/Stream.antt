-- ===== src/Provider/Adapters/Anthropic/Stream.antt =====
-- The goroutine of ChatCompletionStream in internal/provider/anthropic/anthropic.go.
use llm_gateway.Base.{
  not, Option, none, some, List, [], ◌∷◌, ℤ, pos, add_int, String, str_eq, if◌then◌else◌,
}
use llm_gateway.Model.Chat.{ChatCompletionRequest, ChatCompletionChunk}
use llm_gateway.Model.Errors.{Error, other_error, wrapped}
use llm_gateway.Provider.Retry.{Outcome, ok, err}
use llm_gateway.Provider.Retry.Stream.{StreamEvent}
use llm_gateway.Provider.Adapters.{
  Provider, Scan, Client, and_then, Reaction, keeps, emits, fails, stops, send_err, pump,
}
use llm_gateway.Provider.Adapters.Anthropic.{
  MessageStartEvent, ContentBlockDeltaEvent, MessageDeltaEvent, Codec, map_stop_reason, open_stream,
}
use llm_gateway.Provider.Adapters.Text.{cut_prefix}

-- The variables of the reading loop.
pub record StreamState : Type 0 where
  pub msg_id : String
  pub msg_model : String
  pub input_tokens : ℤ
  pub event_type : String

abbrev pub initial : StreamState
initial = record { msg_id = ""; msg_model = ""; input_tokens = pos 0; event_type = "" }

unfoldable pub content_chunk : StreamState → ℤ → String → ChatCompletionChunk
content_chunk s unix text = record {
  id = s.msg_id;
  object = "chat.completion.chunk";
  created = unix;
  model = s.msg_model;
  choices =
      record { index = pos 0; delta = record { role = ""; content = text }; finish_reason = none }
      ∷ [];
  usage = none;
}

unfoldable pub final_chunk : StreamState → ℤ → String → ℤ → ChatCompletionChunk
unfolding map_stop_reason add_int
final_chunk s unix stop_reason total_output = record {
  id = s.msg_id;
  object = "chat.completion.chunk";
  created = unix;
  model = s.msg_model;
  choices =
      record {
        index = pos 0;
        delta = record { role = ""; content = "" };
        finish_reason = some (map_stop_reason stop_reason);
      }
      ∷ [];
  usage = some (record {
    prompt_tokens = s.input_tokens;
    completion_tokens = total_output;
    total_tokens = add_int s.input_tokens total_output;
  });
}

-- The cases of the switch that decode.
unfoldable pub on_start : StreamState → Outcome MessageStartEvent → Reaction StreamState
on_start s (err e) = fails (wrapped "decoding message_start" e)
on_start s (ok ev) = keeps (record s {
  msg_id = ev.message.id;
  msg_model = ev.message.model;
  input_tokens = ev.message.usage.input_tokens;
})

unfoldable pub on_content : StreamState → ℤ → Outcome ContentBlockDeltaEvent → Reaction StreamState
unfolding content_chunk
on_content s unix (err e) = fails (wrapped "decoding content_block_delta" e)
on_content s unix (ok ev) =
    if not (str_eq ev.delta_type "text_delta")
    then keeps s
    else emits (content_chunk s unix ev.delta_text) s

unfoldable pub on_delta : StreamState → ℤ → Outcome MessageDeltaEvent → Reaction StreamState
unfolding final_chunk
on_delta s unix (err e) = fails (wrapped "decoding message_delta" e)
on_delta s unix (ok ev) = emits (final_chunk s unix ev.delta_stop_reason ev.usage_output_tokens) s

-- The error behind the last line.
abbrev pub at_end : Option Error → Error
at_end (some e) = wrapped "reading stream" e
at_end none = other_error "reading stream: unexpected EOF without message_stop"

module _ {B : Type 0} (json : Codec B) where
  unfoldable pub on_data : StreamState → String → ℤ → Reaction StreamState
  unfolding on_start on_content on_delta
  on_data s payload unix =
      if str_eq s.event_type "message_start"
      then on_start s (json.decode_start payload)
      else if str_eq s.event_type "content_block_delta"
      then on_content s unix (json.decode_content payload)
      else if str_eq s.event_type "message_delta"
      then on_delta s unix (json.decode_delta payload)
      else if str_eq s.event_type "message_stop"
      then stops
      else keeps s

  -- A line with what stands behind `event: ` and behind `data: ` in it.
  unfoldable pub on_parts : StreamState → Option String → Option String → ℤ → Reaction StreamState
  unfolding on_data
  on_parts s (some val) payload unix = keeps (record s { event_type = val })
  on_parts s none none unix = keeps s
  on_parts s none (some payload) unix = on_data s payload unix

  unfoldable pub on_line : StreamState → String → ℤ → Reaction StreamState
  unfolding cut_prefix on_parts
  on_line s line unix = on_parts s (cut_prefix "event: " line) (cut_prefix "data: " line) unix

  -- The events of a body: an error is sent where the lines end without `message_stop`.
  unfoldable pub read_stream : Scan → List (StreamEvent ChatCompletionChunk)
  unfolding pump on_line send_err
  read_stream body = pump on_line (send_err body.taken (at_end body.failure)) initial body.lines

  unfoldable pub chat_completion_stream :
      Client B → Provider → ChatCompletionRequest → Outcome (List (StreamEvent ChatCompletionChunk))
  unfolding open_stream read_stream and_then
  chat_completion_stream c p req =
      and_then (open_stream c json p req) (λ body. ok (read_stream (c.scan body)))
