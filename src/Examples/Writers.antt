-- ===== src/Examples/Writers.antt =====
-- A response writer that keeps the status and the body, with a JSON content type.
use mathlib.Core.List.{append_assoc, append-nil}
use llm_gateway.Middleware.Recorded.{recorded_iff}
use llm_gateway.Base.{
  ◌↔◌, ◌≤◌, ◌<◌, ◌<ℤ◌, length, ℕ, ◌≡◌, refl, sym, ap, arith, false, Option, none, some, List, [],
  ◌∷◌, ◌++◌, ℤ, pos,
}
use llm_gateway.Middleware.Writer.{Bytes, ResponseWriter, WriterLaws}
use llm_gateway.Middleware.Capture.{
  wrap, finish, captured, direct, sets_header, puts_header, puts_body, flushes, Action,
}
use llm_gateway.Middleware.Transparency.{captured_transparent}
use llm_gateway.Middleware.Recording.{answer_of, Counts, recorded_whole}

abbrev pub Sent : Type 0
Sent = Option ℕ × Bytes

abbrev pub status_of : Option ℕ → ℕ → Option ℕ
status_of none s = some s
status_of (some t) s = some t

abbrev pub kept : ResponseWriter Sent
kept = record {
  content_type = λ w. "application/json";
  set_header = λ w k v. w;
  write_header = λ w s. (status_of w.0 s, w.1);
  write = λ w b. (status_of w.0 200, w.1 ++ b);
  fails = λ w b. false;
  flush = λ w. (status_of w.0 200, w.1);
}

status_twice : (o : Option ℕ) (s t : ℕ) → status_of (status_of o s) t ≡ status_of o s
status_twice none s t = refl
status_twice (some x) s t = refl

pub kept-WriterLaws : WriterLaws kept
kept-WriterLaws = record {
  header_once = λ w s t _. ap (λ o. (o, w.1)) (status_twice w.0 s t);
  header_late = λ w b t. ap (λ o. (o, w.1 ++ b)) (status_twice w.0 200 t);
  write_implies_ok = λ w b. ap (λ o. (o, w.1 ++ b)) (sym (status_twice w.0 200 200));
  write_join = λ w a b. rw (status_twice w.0 200 200, append_assoc w.1 a b) refl;
  write_nothing = λ w s _. rw (status_twice w.0 s 200, append-nil w.1) refl;
  flush_header = λ w s _. ap (λ o. (o, w.1)) (status_twice w.0 s 200);
  flush_write = λ w b. ap (λ o. (o, w.1 ++ b)) (status_twice w.0 200 200);
}

abbrev pub calls_made : List Action
calls_made =
    sets_header "X-Run" "1"
    ∷ puts_header 201
    ∷ puts_body (123 ∷ [])
    ∷ flushes
    ∷ puts_body (125 ∷ [])
    ∷ puts_header 500
    ∷ []

abbrev pub seven : Bytes → Option ℤ
seven b = some (pos 7)

captured_transparent_example :
    (finish kept seven (captured kept (wrap (none, [])) calls_made)).0
    ≡ direct kept (none, []) calls_made
captured_transparent_example =
    captured_transparent kept kept-WriterLaws (λ w b. refl) seven (none, []) calls_made
      (omega arith, (tt, (tt, (tt, (omega arith, tt)))))

counted_seven : (finish kept seven (captured kept (wrap (none, [])) calls_made)).1 ≡ some (pos 7)
unfolding finish captured
counted_seven = refl

recorded_whole_example : Counts seven (answer_of none [] calls_made) (pos 7)
recorded_whole_example = recorded_whole kept seven (none, []) calls_made (pos 7) counted_seven

abbrev two_writes : List Action
two_writes = puts_body (123 ∷ []) ∷ flushes ∷ puts_body (125 ∷ []) ∷ []

body_some : 0 < length (answer_of (some 201) [] two_writes).1
unfolding answer_of
body_some = omega arith

body_small : length (answer_of (some 201) [] two_writes).1 ≤ 1048576
unfolding answer_of
body_small = omega arith

recorded_iff_example :
    ((finish kept seven (captured kept (wrap (none, [])) (puts_header 201 ∷ two_writes))).1
      ≡ some (pos 7))
    ↔ ((200 ≤ 201)
        × (201 < 300)
        × (seven (answer_of (some 201) [] two_writes).1 ≡ some (pos 7))
        × (pos 0 <ℤ pos 7))
recorded_iff_example =
    recorded_iff kept seven (none, []) 201 two_writes (pos 7) refl body_some body_small
