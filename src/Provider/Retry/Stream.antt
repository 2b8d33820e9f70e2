-- ===== src/Provider/Retry/Stream.antt =====
-- `trackStreamHealth` of internal/provider/health_decorator.go, and the events of
-- internal/provider/provider.go.
use llm_gateway.Base.{
  ◌≡◌, refl, Bool, true, false, Option, none, some, List, [], ◌∷◌, ◌++◌, map, ap, ◌∙◌, Option-cases,
  inl, inr, if◌then◌else◌,
}
use llm_gateway.Model.Errors.{Error}
use llm_gateway.Provider.Health.{ProviderHealth, record_success, record_failure}
use llm_gateway.Provider.Retry.{
  Effect, Surroundings, nothing, record_health_success, record_health_failure,
}

pub record StreamEvent (C : Type 0) : Type 0 where
  pub chunk : Option C
  pub err : Option Error

-- The events passed on to the reader, and what is recorded when the goroutine ends.
pub record Watched (C : Type 0) : Type 0 where
  pub sent : List (StreamEvent C)
  pub health : ProviderHealth
  pub effects : List Effect

-- `sawError` and `lastStreamErr` together.
abbrev pub latest : Option Error → Option Error → Option Error
latest none saw = saw
latest (some e) saw = some e

-- The error of the last event that carries one.
abbrev pub last_error : {C : Type 0} → Option Error → List (StreamEvent C) → Option Error
last_error saw [] = saw
last_error saw (evt ∷ rest) = last_error (latest evt.err saw) rest

-- The errors that a stream carries, in order.
abbrev pub errors : {C : Type 0} → List (StreamEvent C) → List Error
errors [] = []
errors (evt ∷ rest) = elim evt.err [ none ↦ errors rest | some e ↦ e ∷ errors rest ]

-- The last element, or the one given where there is none.
abbrev pub last_or : {A : Type 0} → Option A → List A → Option A
last_or first [] = first
last_or first (x ∷ xs) = last_or (some x) xs

last_error-errors :
    {C : Type 0} (evts : List (StreamEvent C)) (saw : Option Error)
    → last_error saw evts ≡ last_or saw (errors evts)
last_error-errors [] saw = refl
last_error-errors (evt ∷ rest) saw = elim (Option-cases evt.err) [
  | inl e ↦ rw e (last_error-errors rest saw)
  | inr (x, e) ↦ rw e (last_error-errors rest (some x))
]

-- A stream whose reader takes every event.
abbrev pub all_taken : {C : Type 0} → List (StreamEvent C) → List (StreamEvent C × Bool)
all_taken = map (λ e. (e, true))

-- The health once a stream with that last error has ended.
abbrev pub verdict : {A : Type 0} → Surroundings A → ProviderHealth → Option Error → ProviderHealth
verdict s h none = record_success h s.recorded_at
verdict s h (some e) = (record_failure h (some e) s.recorded_at).0

module _ {A : Type 0} {C : Type 0} (s : Surroundings A) (h : ProviderHealth) where
  unfoldable pub stream_end : Option Error → Watched C
  unfolding record_health_success record_health_failure
  stream_end none =
      let r = record_health_success s h nothing in
      record { sent = []; health = r.health; effects = r.effects }
  stream_end (some e) =
      let r = record_health_failure s h (some e) nothing in
      record { sent = []; health = r.health; effects = r.effects }

  -- The loop over the provider's channel. The `Bool` of an event tells whether the reader took it;
  -- it is false where the context was done first.
  unfoldable pub track_stream_health : Option Error → List (StreamEvent C × Bool) → Watched C
  track_stream_health saw [] = stream_end saw
  track_stream_health saw ((evt, taken) ∷ rest) =
      let w : Watched C = track_stream_health (latest evt.err saw) rest in
      if taken
      then record w { sent = evt ∷ w.sent }
      else record { sent = []; health = h; effects = [] }

  track-taken :
      (saw : Option Error) (evts : List (StreamEvent C))
      → ((track_stream_health saw (all_taken evts)).sent ≡ evts)
        × ((track_stream_health saw (all_taken evts)).health ≡ verdict s h (last_error saw evts))
  unfolding track_stream_health stream_end
  track-taken none [] = (refl, refl)
  track-taken (some e) [] = (refl, refl)
  track-taken saw (evt ∷ rest) =
      let ih = track-taken (latest evt.err saw) rest in (ap (◌∷◌ evt) ih.0, ih.1)

  -- A stream that is read to its end passes every event on in order and records one outcome: a
  -- failure with the last error that an event carried, or a success where none carried one. A
  -- stream whose reader leaves at an event passes on the events before it and records nothing.
  pub track_stream_health-sent :
      (evts : List (StreamEvent C)) (next : StreamEvent C) (rest : List (StreamEvent C × Bool))
      → let whole = track_stream_health none (all_taken evts) in
        let left = track_stream_health none (all_taken evts ++ ((next, false) ∷ rest)) in
        (whole.sent ≡ evts)
        × (whole.health ≡ verdict s h (last_or none (errors evts)))
        × (left.sent ≡ evts)
        × (left.health ≡ h)
        × (left.effects ≡ [])
  unfolding track_stream_health
  track_stream_health-sent evts next rest =
      let t = track-taken none evts in
      let l = track-left none evts in
      (t.0, t.1 ∙ ap (verdict s h) (last_error-errors evts none), l.0, l.1, l.2)
    where
      track-left :
          (saw : Option Error) (es : List (StreamEvent C))
          → let w = track_stream_health saw (all_taken es ++ ((next, false) ∷ rest)) in
            (w.sent ≡ es) × (w.health ≡ h) × (w.effects ≡ [])
      track-left saw [] = (refl, refl, refl)
      track-left saw (e ∷ es) =
          let ih = track-left (latest e.err saw) es in (ap (◌∷◌ e) ih.0, ih.1, ih.2)
