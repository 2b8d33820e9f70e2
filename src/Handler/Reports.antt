-- ===== src/Handler/Reports.antt =====
-- What internal/handler reports: the aggregate health, and a stream that breaks off.
use llm_gateway.Base.{
  ◌≤◌, ◌≡◌, ◌↔◌, refl, ap, inl, inr, Bool, true, Option, some, List, [], ◌∷◌, ◌++◌, arith, String,
  str_eq, Dict, All, length, Bool-cases, ◌==◌, if◌then◌else◌,
}
use llm_gateway.Model.Errors.{Error}
use llm_gateway.Provider.Health.{HealthStatus}
use llm_gateway.Provider.Retry.Stream.{StreamEvent}
use llm_gateway.Handler.{on_event, send_events, handle_stream, healthy_count, overall}

send_events-error :
    {C : Type 0} (marshal : Option C → Option String) (before rest : List (StreamEvent C))
    (evt : StreamEvent C) (e : Error)
    → evt.err ≡ some e
    → send_events marshal (before ++ (evt ∷ rest)) ≡ send_events marshal before
unfolding send_events on_event
send_events-error marshal [] rest evt e bad =
    ap (λ o. on_event o (marshal evt.chunk) (send_events marshal rest)) bad
send_events-error marshal (x ∷ before) rest evt e bad =
    ap (on_event x.err (marshal x.chunk)) (send_events-error marshal before rest evt e bad)

-- A client cannot tell a stream that breaks off with an error from one that ends there: whatever
-- comes before the error, what it is sent is the same as if the stream had ended before that event.
pub handle_stream-error :
    {C : Type 0} (marshal : Option C → Option String) (connected : Bool)
    (before rest : List (StreamEvent C)) (evt : StreamEvent C) (e : Error)
    → evt.err ≡ some e
    → handle_stream marshal connected (before ++ (evt ∷ rest))
      ≡ handle_stream marshal connected before
unfolding handle_stream
handle_stream-error marshal connected before rest evt e bad =
    ap (λ xs. xs ++ (if connected then "data: [DONE]\n\n" ∷ [] else []))
      (send_events-error marshal before rest evt e bad)

healthy_count-le : (ss : Dict HealthStatus) → healthy_count ss ≤ length ss
unfolding healthy_count
healthy_count-le [] = omega arith
healthy_count-le ((name, s) ∷ ss) = ground (arith, healthy_count-le ss)

healthy_count-All :
    (ss : Dict HealthStatus) → (healthy_count ss ≡ length ss) ↔ All (λ x. x.1.healthy ≡ true) ss
unfolding healthy_count
healthy_count-All [] = (λ e. tt, λ a. refl)
healthy_count-All ((name, s) ∷ ss) =
    let rest = healthy_count-All ss in
    let bound = healthy_count-le ss in
    (
      λ e. (ground (arith, e, bound), rest.0 (ground (arith, e, bound))),
      λ a. ground (arith, a.0, rest.1 a.1),
    )

-- The report says ok exactly when every provider in it is healthy.
pub overall_ok_iff :
    (ss : Dict HealthStatus) → (overall ss ≡ "ok") ↔ All (λ x. x.1.healthy ≡ true) ss
unfolding overall str_eq
overall_ok_iff ss =
    let all = healthy_count-All ss in
    elim (Bool-cases (healthy_count ss == length ss)) [
      | inl same ↦ (λ e. all.0 (ground (arith, same)), λ a. rw (overall, same) refl)
      | inr other ↦ (
        λ e. elim (Bool-cases (healthy_count ss == 0)) [
          | inl none_up ↦ ground (arith, ap (str_eq "ok") (rw (overall, other, none_up) at e))
          | inr some_up ↦ ground (arith, ap (str_eq "ok") (rw (overall, other, some_up) at e))
        ],
        λ a. ground (arith, other, all.1 a),
      )
    ]
