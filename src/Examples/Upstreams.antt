-- ===== src/Examples/Upstreams.antt =====
-- Runs of the providers' adapters.
use Prim.Native.Char.{Char, code}
use Prim.Native.String.{◌++◌ as text_append}
use Prim.Native.String.append
use llm_gateway.Base.{
  ◌≡◌, refl, ap, ◌∙◌, Bool, true, false, not, ◌&&◌, Option, none, some, List, [], ◌∷◌, map, ◌++◌, ℤ,
  pos, String, str_eq, All, ◌==◌, if◌then◌else◌, arith,
}
use llm_gateway.Model.Chat.{ChatCompletionRequest, ChatCompletionChunk}
use llm_gateway.Model.Errors.{Error, other_error}
use llm_gateway.Provider.Adapters.{
  Provider, HttpResponse, Client, ErrorBody, chunk_event, error_event,
}
use llm_gateway.Provider.Adapters.Anthropic
use llm_gateway.Provider.Adapters.Anthropic.Stream as AnthropicStream
use llm_gateway.Provider.Adapters.Anthropic.Transcript
use llm_gateway.Provider.Adapters.Reads.{Reads, Fails}
use llm_gateway.Provider.Adapters.Reads.Bodies.{GoogleEnd, read_stream-Reads}
use llm_gateway.Provider.Adapters.Ends.{steady}
use llm_gateway.Provider.Adapters.Failures.{IsRefusal, calls_refused}
use llm_gateway.Provider.Adapters.Google
use llm_gateway.Provider.Adapters.Google.Stream as GoogleStream
use llm_gateway.Provider.Adapters.Openai
use llm_gateway.Provider.Adapters.Openai.Relay
use llm_gateway.Provider.Adapters.Requests.{
  instructions, turns, to_anthropic, to_google, to_instruction, translate_request-turns,
}
use llm_gateway.Provider.Retry.{Outcome, ok, err}

abbrev message : Anthropic.AnthropicResponse
message = record {
  id = "msg_1";
  type = "message";
  role = "assistant";
  content = record { type = "text"; text = "hello" } ∷ [];
  model = "claude";
  stop_reason = "end_turn";
  stop_sequence = none;
  usage = record { input_tokens = pos 12; output_tokens = pos 2 };
}

abbrev no_body : String → Outcome ErrorBody
no_body text = err (other_error text)

-- A server of one message; its payloads are the texts of its pieces.
abbrev anthropic : Anthropic.Codec String
anthropic = record {
  marshal = λ r. ok "{}";
  decode_response = λ b. ok message;
  decode_start = λ t. ok (Transcript.start_event message (pos 1));
  decode_content = λ t. ok (Transcript.piece_event t);
  decode_delta = λ t. ok (Transcript.closing_event message);
  decode_error = no_body;
}

abbrev encoder : Transcript.Encoder
encoder = record {
  start = λ ev. "{}";
  content = λ ev. ev.delta_text;
  delta = λ ev. "{}";
  counted = pos 1;
}

abbrev pieces : List (String × ℤ)
pieces = ("hel", pos 5) ∷ ("lo", pos 6) ∷ []

agreed : Transcript.Agrees anthropic encoder message pieces
agreed = record { start = refl; content = (refl, (refl, tt)); delta = refl }

same_text :
    Anthropic.join "" (map (λ piece. piece.0) pieces)
    ≡ Anthropic.join "" (Anthropic.text_parts message.content)
unfolding Anthropic.join Anthropic.text_parts str_eq
same_text = refl

read_stream-transcript_example :
    let evts =
      AnthropicStream.read_stream anthropic
        (steady (Transcript.transcript encoder message pieces (pos 7)) none) in
    let resp = Anthropic.translate_response (pos 7) message in
    let last =
      AnthropicStream.final_chunk (Transcript.reading message "") (pos 7) "end_turn" (pos 2) in
    (evts ≡ Transcript.events_of message pieces (pos 7))
    × (map (λ choice. choice.message.content) resp.choices ≡ Transcript.streamed_text evts ∷ [])
    × Transcript.Closes resp last
read_stream-transcript_example =
    Transcript.read_stream-transcript anthropic encoder message pieces (pos 7) none agreed same_text

-- Chunks that are known by their ids, which are also their JSON.
abbrev named : String → ChatCompletionChunk
named id = record {
  id = id;
  object = "chat.completion.chunk";
  created = pos 0;
  model = "gpt";
  choices = [];
  usage = none;
}

abbrev openai : Openai.Codec String
openai = record {
  marshal = λ r. ok "{}";
  decode_response = λ b. err (other_error "EOF");
  decode_chunk = λ t. ok (named t);
  decode_error = no_body;
}

abbrev google : Google.Codec String
google = record {
  marshal = λ r. ok "{}";
  decode_response = λ b. err (other_error "EOF");
  decode_chunk = λ t.
      if str_eq t "{}"
      then ok (record { candidates = []; usage_metadata = none })
      else err (other_error "invalid");
  decode_error = no_body;
}

abbrev lines : List (String × ℤ)
lines = ("data: {}", pos 1) ∷ ("", pos 1) ∷ ("data: [DONE]", pos 2) ∷ []

abbrev no_failure : Option Error
no_failure = none

read_stream-Reads_example :
    Reads
      (λ payload. str_eq payload "[DONE]")
      openai.decode_chunk
      (λ unix c. c)
      Fails
      lines
      (Openai.read_stream openai (steady lines no_failure))
    × Reads
        (λ payload. false)
        google.decode_chunk
        (GoogleStream.translate_chunk "id" "gemini")
        (GoogleEnd no_failure)
        lines
        (GoogleStream.read_stream google "id" "gemini" (steady lines no_failure))
read_stream-Reads_example = read_stream-Reads openai google "id" "gemini" lines no_failure

-- OpenAI's stream of these lines is one chunk, without an error.
one_chunk : Openai.read_stream openai (steady lines none) ≡ chunk_event (named "{}") ∷ []
unfolding Openai.read_stream str_eq
one_chunk = refl

-- The lines of a text: a line break ends one.
abbrev push : Char → List String → List String
push c [] = String.◌∷◌ c "" ∷ []
push c (l ∷ ls) = String.◌∷◌ c l ∷ ls

unfoldable pub split_lines : String → List String
split_lines String.[] = []
split_lines (String.◌∷◌ c s) =
    let rest = split_lines s in if code c == 10 then "" ∷ rest else push c rest

unfoldable pub is_line : String → Bool
is_line String.[] = true
is_line (String.◌∷◌ c s) = let rest = is_line s in not (code c == 10) && rest

unfoldable pub is_break : String → Bool
is_break String.[] = false
is_break (String.◌∷◌ c String.[]) = code c == 10
is_break (String.◌∷◌ c (String.◌∷◌ d s)) = false

split-break :
    (sep rest : String)
    → is_break sep ≡ true
    → split_lines (text_append sep rest) ≡ "" ∷ split_lines rest
unfolding split_lines is_break
split-break String.[] rest h = ground (arith, h)
split-break (String.◌∷◌ c (String.◌∷◌ d s)) rest h = ground (arith, h)
split-break (String.◌∷◌ c String.[]) rest h =
    ap split_lines (append.cons c "" rest)
    ∙ (ap (λ t. split_lines (String.◌∷◌ c t)) (append.nil rest)
        ∙ ap (λ b. if b then "" ∷ split_lines rest else push c (split_lines rest)) h)

split-line :
    (l rest : String)
    → is_line l ≡ true
    → split_lines (text_append l (text_append "\n" rest)) ≡ l ∷ split_lines rest
unfolding split_lines is_line is_break
split-line String.[] rest h =
    ap split_lines (append.nil (text_append "\n" rest)) ∙ split-break "\n" rest refl
split-line (String.◌∷◌ c l) rest h =
    let after = text_append l (text_append "\n" rest) in
    let inside : (code c == 10) ≡ false = ground (arith, h) in
    ap split_lines (append.cons c l (text_append "\n" rest))
    ∙ (ap (λ b. if b then "" ∷ split_lines after else push c (split_lines after)) inside
        ∙ ap (push c) (split-line l rest (ground (arith, h))))

empty_line : is_line "" ≡ true
unfolding is_line
empty_line = refl

done_line : is_line "data: [DONE]" ≡ true
unfolding is_line
done_line = refl

abbrev scanner : Relay.Scanner
scanner = record {
  IsLine = λ l. is_line l ≡ true;
  scan_lines = split_lines;
  scan-line = split-line;
  line_empty = empty_line;
  line_done = done_line;
}

abbrev id_of : Option ChatCompletionChunk → Option String
id_of none = none
id_of (some c) = some c.id

abbrev two : List ChatCompletionChunk
two = named "a" ∷ named "b" ∷ []

two_agree : All (Relay.Agrees openai scanner id_of) two
unfolding str_eq is_line
two_agree = (
  record { text = "a"; marshals = refl; decodes = refl; differs = refl; line = refl },
  (record { text = "b"; marshals = refl; decodes = refl; differs = refl; line = refl }, tt),
)

relay_example :
    (Relay.relayed openai scanner id_of (pos 3) (map chunk_event two) ≡ map chunk_event two)
    × (Relay.relayed openai scanner id_of
          (pos 3)
          (map chunk_event two ++ (error_event (other_error "reset") ∷ []))
        ≡ map chunk_event two)
relay_example = Relay.relay openai scanner id_of (pos 3) two (other_error "reset") [] two_agree

abbrev overloaded : HttpResponse String
overloaded = record { status_code = pos 529; retry_after = "7"; body = "overloaded" }

abbrev client : Client String
client = record {
  rejects = λ url. none;
  exchange = λ req. ok overloaded;
  read_limited = λ n b. b;
  scan = λ b. steady [] none;
  atoi = λ s. some (pos 7);
  until_date = λ s. none;
  unix = pos 9;
}

abbrev provider : Provider
provider = Openai.new (record { api_key = "k"; base_url = ""; timeout = pos 0; models = [] })

abbrev talk : ChatCompletionRequest
talk = record {
  model = "m";
  messages =
      record { role = "system"; content = "be brief"; name = "" }
      ∷ record { role = "user"; content = "hi"; name = "" }
      ∷ record { role = "assistant"; content = "yes?"; name = "" }
      ∷ [];
  temperature = none;
  top_p = none;
  n = none;
  stream = false;
  stop = [];
  max_tokens = none;
  presence_penalty = none;
  frequency_penalty = none;
  user = "";
}

calls_refused_example :
    IsRefusal client overloaded (Anthropic.chat_completion client anthropic provider talk)
    × IsRefusal client overloaded
        (AnthropicStream.chat_completion_stream anthropic client provider talk)
    × IsRefusal client overloaded (Google.chat_completion client google provider "id" talk)
    × IsRefusal client overloaded
        (GoogleStream.chat_completion_stream google client provider "id" talk)
    × IsRefusal client overloaded (Openai.chat_completion client openai provider talk)
    × IsRefusal client overloaded (Openai.chat_completion_stream openai client provider talk)
calls_refused_example =
    calls_refused client overloaded refl (λ url. refl) (λ req. refl) provider "id" talk anthropic
      google openai "{}" "{}" "{}" "{}" "{}" refl refl refl refl refl

translate_request-turns_example :
    let a = Anthropic.translate_request talk in
    let g = Google.translate_request talk in
    (a.system ≡ Anthropic.join "\n\n" (instructions talk.messages))
    × (a.messages ≡ map to_anthropic (turns talk.messages))
    × (g.system_instruction ≡ to_instruction (instructions talk.messages))
    × (g.contents ≡ map to_google (turns talk.messages))
translate_request-turns_example = translate_request-turns talk
