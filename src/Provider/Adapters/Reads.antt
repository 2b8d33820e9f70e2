-- ===== src/Provider/Adapters/Reads.antt =====
-- What a reader gets of the lines of a body, where one line at a time is data or is passed over.
pub mod Bodies
use Prim.Native.String.{◌++◌ as text_append}
use mathlib.Core.Path.{subst}
use llm_gateway.Base.{
  ◌≡◌, ◌≢◌, refl, sym, ap, ap₂, ◌∙◌, ◌⊎◌, inl, inr, Bool, true, false, Option, none, some, List, [],
  ◌∷◌, map, ℤ, String, str_eq, arith, if◌then◌else◌, Bool-cases, Option-cases,
}
use llm_gateway.Model.Chat.{ChatCompletionChunk}
use llm_gateway.Model.Errors.{Error, wrapped}
use llm_gateway.Provider.Retry.{Outcome, ok, err}
use llm_gateway.Provider.Retry.Stream.{StreamEvent}
use llm_gateway.Provider.Adapters.{
  Reaction, keeps, emits, fails, stops, chunk_event, error_event, send_err, pump,
}
use llm_gateway.Provider.Adapters.Ends.{at_ease, steady, pump-kept, pump-sent, pump-stopped}
use llm_gateway.Provider.Adapters.Text.{cut_prefix, cut_prefix-append, cut_prefix-some}
use llm_gateway.Provider.Adapters.Google
use llm_gateway.Provider.Adapters.Google.Stream as GoogleStream
use llm_gateway.Provider.Adapters.Openai

abbrev pub data_line : String → String
data_line payload = text_append "data: " payload

-- One error.
abbrev pub Fails : List (StreamEvent ChatCompletionChunk) → Type 0
Fails evts = (x : Error) × (evts ≡ (error_event x ∷ []))

-- What a reader who stays gets of lines that are read at a time each: lines that carry no data are
-- passed over, the closing word ends the stream, data that decodes is a chunk, and data that does
-- not is an error that ends it; `End` is what the end of the lines gives.
pub data Reads {R : Type 0} (closes : String → Bool) (decode : String → Outcome R)
    (chunk_of : ℤ → R → ChatCompletionChunk) (End : List (StreamEvent ChatCompletionChunk) → Type 0)
    : List (String × ℤ) → List (StreamEvent ChatCompletionChunk) → Type 0 where
  ends :
      {evts : List (StreamEvent ChatCompletionChunk)}
      → End evts
      → Reads closes decode chunk_of End [] evts
  passed :
      {line : String} {unix : ℤ} {rest : List (String × ℤ)}
      {evts : List (StreamEvent ChatCompletionChunk)}
      → ((payload : String) → line ≢ data_line payload)
      → Reads closes decode chunk_of End rest evts
      → Reads closes decode chunk_of End ((line, unix) ∷ rest) evts
  closed :
      {payload : String} {unix : ℤ} {rest : List (String × ℤ)}
      → closes payload ≡ true
      → Reads closes decode chunk_of End ((data_line payload, unix) ∷ rest) []
  decoded :
      {payload : String} {unix : ℤ} {rest : List (String × ℤ)} {r : R}
      {evts : List (StreamEvent ChatCompletionChunk)}
      → closes payload ≡ false
      → decode payload ≡ ok r
      → Reads closes decode chunk_of End rest evts
      → Reads closes decode chunk_of End
          ((data_line payload, unix) ∷ rest)
          (chunk_event (chunk_of unix r) ∷ evts)
  broken :
      {payload : String} {unix : ℤ} {rest : List (String × ℤ)} {e : Error}
      {evts : List (StreamEvent ChatCompletionChunk)}
      → closes payload ≡ false
      → decode payload ≡ err e
      → Fails evts
      → Reads closes decode chunk_of End ((data_line payload, unix) ∷ rest) evts

Outcome-cases : {R : Type 0} (o : Outcome R) → ((r : R) × (o ≡ ok r)) ⊎ ((e : Error) × (o ≡ err e))
Outcome-cases (ok r) = inl (r, refl)
Outcome-cases (err e) = inr (e, refl)

-- A loop over lines whose reaction to a line is as described.
module _ {R : Type 0} (closes : String → Bool) (decode : String → Outcome R)
    (chunk_of : ℤ → R → ChatCompletionChunk) (End : List (StreamEvent ChatCompletionChunk) → Type 0)
    (on_line : Unit {0} → String → ℤ → Reaction (Unit {0}))
    (at_end : List (StreamEvent ChatCompletionChunk)) (over : End at_end)
    (kept : (line : String) (unix : ℤ)
      → cut_prefix "data: " line ≡ none
      → on_line tt line unix ≡ keeps tt)
    (stopped : (payload : String) (unix : ℤ)
      → closes payload ≡ true
      → on_line tt (data_line payload) unix ≡ stops)
    (sent : (payload : String) (unix : ℤ) (r : R)
      → closes payload ≡ false
      → decode payload ≡ ok r
      → on_line tt (data_line payload) unix ≡ emits (chunk_of unix r) tt)
    (failed : (payload : String) (unix : ℤ) (e : Error)
      → closes payload ≡ false
      → decode payload ≡ err e
      → (x : Error) × (on_line tt (data_line payload) unix ≡ fails x)) where
  abbrev run : List (String × ℤ) → List (StreamEvent ChatCompletionChunk)
  run lines = pump on_line at_end tt (map at_ease lines)

  pump-failed :
      (line : String) (unix : ℤ) (rest : List (String × ℤ)) (x : Error)
      → on_line tt line unix ≡ fails x
      → Fails (run ((line, unix) ∷ rest))
  unfolding pump send_err
  pump-failed line unix rest x e = rw e (x, refl)

  data-Reads :
      (payload : String) (unix : ℤ) (rest : List (String × ℤ))
      → Reads closes decode chunk_of End rest (run rest)
      → Reads closes decode chunk_of End
          ((data_line payload, unix) ∷ rest)
          (run ((data_line payload, unix) ∷ rest))
  data-Reads payload unix rest ih = elim (Bool-cases (closes payload)) [
    | inl stop ↦
        subst (Reads closes decode chunk_of End ((data_line payload, unix) ∷ rest))
          (sym (
            pump-stopped on_line at_end (data_line payload) unix rest tt tt
              (stopped payload unix stop)))
          (closed stop)
    | inr more ↦ elim (Outcome-cases (decode payload)) [
      | inl (r, e) ↦
          subst (Reads closes decode chunk_of End ((data_line payload, unix) ∷ rest))
            (sym (
              pump-sent on_line at_end (data_line payload) unix rest tt tt (chunk_of unix r)
                (sent payload unix r more e)))
            (decoded more e ih)
      | inr (x, e) ↦
          let (y, f) = failed payload unix x more e in
          broken more e (pump-failed (data_line payload) unix rest y f)
    ]
  ]

  pub run-Reads : (lines : List (String × ℤ)) → Reads closes decode chunk_of End lines (run lines)
  unfolding pump
  run-Reads [] = ends over
  run-Reads ((line, unix) ∷ rest) = elim (Option-cases (cut_prefix "data: " line)) [
    | inl bare ↦
        subst (Reads closes decode chunk_of End ((line, unix) ∷ rest))
          (sym (pump-kept on_line at_end line unix rest tt tt (kept line unix bare)))
          (passed (no_data line bare) (run-Reads rest))
    | inr (payload, e) ↦
        subst (λ l. Reads closes decode chunk_of End ((l, unix) ∷ rest) (run ((l, unix) ∷ rest)))
          (sym (cut_prefix-some "data: " line payload e))
          (data-Reads payload unix rest (run-Reads rest))
  ]
    where
      some_none : (p : String) → none ≢ some p
      some_none p e = ground (arith, e)

      no_data :
          (line : String)
          → cut_prefix "data: " line ≡ none
          → (payload : String) → line ≢ data_line payload
      no_data line bare payload e =
          some_none payload
            (sym bare ∙ (ap (cut_prefix "data: ") e ∙ cut_prefix-append "data: " payload))
