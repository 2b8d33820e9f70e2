-- ===== src/Model/Chat.antt =====
-- internal/model/chat.go: the chat completion types that every part of the gateway passes on.
use llm_gateway.Base.{Bool, Option, List, ℤ, String, Float64}

pub record Message : Type 0 where
  pub role : String
  pub content : String
  pub name : String

pub record ChatCompletionRequest : Type 0 where
  pub model : String
  pub messages : List Message
  pub temperature : Option Float64
  pub top_p : Option Float64
  pub n : Option ℤ
  pub stream : Bool
  pub stop : List String
  pub max_tokens : Option ℤ
  pub presence_penalty : Option Float64
  pub frequency_penalty : Option Float64
  pub user : String

pub record Choice : Type 0 where
  pub index : ℤ
  pub message : Message
  pub finish_reason : String

pub record Usage : Type 0 where
  pub prompt_tokens : ℤ
  pub completion_tokens : ℤ
  pub total_tokens : ℤ

pub record ChatCompletionResponse : Type 0 where
  pub id : String
  pub object : String
  pub created : ℤ
  pub model : String
  pub choices : List Choice
  pub usage : Usage
  pub system_fingerprint : String

pub record DeltaMessage : Type 0 where
  pub role : String
  pub content : String

pub record ChunkChoice : Type 0 where
  pub index : ℤ
  pub delta : DeltaMessage
  pub finish_reason : Option String

pub record ChatCompletionChunk : Type 0 where
  pub id : String
  pub object : String
  pub created : ℤ
  pub model : String
  pub choices : List ChunkChoice
  pub usage : Option Usage
