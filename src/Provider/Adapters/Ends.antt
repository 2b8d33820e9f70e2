-- ===== src/Provider/Adapters/Ends.antt =====
-- How the goroutines of ChatCompletionStream end, in internal/provider/anthropic,
-- internal/provider/google and internal/provider/openai: what they share.
use llm_gateway.Base.{◌≡◌, refl, true, false, Option, List, [], ◌∷◌, map, ℤ, String}
use llm_gateway.Model.Chat.{ChatCompletionChunk}
use llm_gateway.Model.Errors.{Error}
use llm_gateway.Provider.Retry.Stream.{StreamEvent}
use llm_gateway.Provider.Adapters.{Turn, Scan, Reaction, keeps, emits, stops, chunk_event, pump}

-- A line that is read at a time, with the context alive and the reader waiting.
abbrev pub at_ease : String × ℤ → String × Turn
at_ease (line, unix) = (line, record { done = false; taken = true; unix = unix })

abbrev pub steady : List (String × ℤ) → Option Error → Scan
steady lines failure = record { lines = map at_ease lines; failure = failure; taken = true }

module _ {S : Type 0} (on_line : S → String → ℤ → Reaction S)
    (at_end : List (StreamEvent ChatCompletionChunk)) (line : String) (unix : ℤ)
    (rest : List (String × ℤ)) (s s' : S) where
  pub pump-kept :
      on_line s line unix ≡ keeps s'
      → pump on_line at_end s (map at_ease ((line, unix) ∷ rest))
        ≡ pump on_line at_end s' (map at_ease rest)
  unfolding pump
  pump-kept e = rw e refl

  pub pump-sent :
      (c : ChatCompletionChunk)
      → on_line s line unix ≡ emits c s'
      → pump on_line at_end s (map at_ease ((line, unix) ∷ rest))
        ≡ chunk_event c ∷ pump on_line at_end s' (map at_ease rest)
  unfolding pump
  pump-sent c e = rw e refl

  pub pump-stopped :
      on_line s line unix ≡ stops → pump on_line at_end s (map at_ease ((line, unix) ∷ rest)) ≡ []
  unfolding pump
  pump-stopped e = rw e refl
