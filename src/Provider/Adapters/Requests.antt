-- ===== src/Provider/Adapters/Requests.antt =====
-- What of a conversation the adapters of Anthropic and Google send on.
use llm_gateway.Base.{
  ◌≡◌, refl, ap, ◌∙◌, Bool, not, inl, inr, Option, none, some, List, [], ◌∷◌, map, filterb, String,
  str_eq, Bool-cases, if◌then◌else◌,
}
use llm_gateway.Model.Chat.{Message, ChatCompletionRequest}
use llm_gateway.Provider.Adapters.Anthropic
use llm_gateway.Provider.Adapters.Google

abbrev pub is_system : Message → Bool
is_system msg = str_eq msg.role "system"

-- The two halves of a conversation, each in its order.
abbrev pub instructions : List Message → List String
instructions msgs = map (λ msg. msg.content) (filterb is_system msgs)

abbrev pub turns : List Message → List Message
turns msgs = filterb (λ msg. not (is_system msg)) msgs

abbrev pub to_anthropic : Message → Anthropic.AnthropicMessage
to_anthropic msg = record { role = msg.role; content = msg.content }

abbrev pub to_part : String → Google.GeminiPart
to_part text = record { text = text }

abbrev pub to_google : Message → Google.GeminiContent
to_google msg = record {
  role = if str_eq msg.role "assistant" then "model" else msg.role;
  parts = to_part msg.content ∷ [];
}

-- Absent where there is no system message.
abbrev pub to_instruction : List String → Option Google.GeminiSystemInstruction
to_instruction [] = none
to_instruction (text ∷ texts) = some (record { parts = map to_part (text ∷ texts) })

anthropic-split :
    (msgs : List Message)
    → Anthropic.split_messages msgs ≡ (instructions msgs, map to_anthropic (turns msgs))
unfolding Anthropic.split_messages
anthropic-split [] = refl
anthropic-split (msg ∷ msgs) = elim (Bool-cases (str_eq msg.role "system")) [
  | inl e ↦ rw (e, anthropic-split msgs) refl
  | inr e ↦ rw (e, anthropic-split msgs) refl
]

google-split :
    (msgs : List Message)
    → Google.split_messages msgs ≡ (map to_part (instructions msgs), map to_google (turns msgs))
unfolding Google.split_messages
google-split [] = refl
google-split (msg ∷ msgs) = elim (Bool-cases (str_eq msg.role "system")) [
  | inl e ↦ rw (e, google-split msgs) refl
  | inr e ↦ rw (e, google-split msgs) refl
]

-- Both adapters send every message on, in order, and no other: the system messages apart, joined
-- for Anthropic and as parts for Google, which gets no instruction where there is none, and all
-- others as turns with their roles, where Google's name for the assistant is `model`.
pub translate_request-turns :
    (req : ChatCompletionRequest)
    → let a = Anthropic.translate_request req in
      let g = Google.translate_request req in
      (a.system ≡ Anthropic.join "\n\n" (instructions req.messages))
      × (a.messages ≡ map to_anthropic (turns req.messages))
      × (g.system_instruction ≡ to_instruction (instructions req.messages))
      × (g.contents ≡ map to_google (turns req.messages))
unfolding Anthropic.translate_request Google.translate_request
translate_request-turns req =
    let a = anthropic-split req.messages in
    let g = google-split req.messages in
    (
      ap (λ parts. Anthropic.join "\n\n" parts.0) a,
      ap (λ parts. parts.1) a,
      ap (λ parts. Google.instruction parts.0) g ∙ instruction-parts (instructions req.messages),
      ap (λ parts. parts.1) g,
    )
  where
    instruction-parts :
        (texts : List String) → Google.instruction (map to_part texts) ≡ to_instruction texts
    instruction-parts [] = refl
    instruction-parts (text ∷ texts) = refl
