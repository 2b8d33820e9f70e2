-- ===== src/Middleware/Recorded.antt =====
-- Which tokens usageCaptureWriter of internal/middleware/ratelimit.go records of a JSON answer.
use llm_gateway.Base.{
  ℕ, ◌+◌, ◌≤◌, ◌<◌, ◌≡◌, ◌↔◌, refl, ap, ◌∙◌, Bool, true, false, ◌&&◌, Option, none, some, List, [],
  ◌∷◌, ◌++◌, ℤ, pos, ◌<ℤ◌, arith, ltb, leb, length, length-append, if◌then◌else◌,
}
use llm_gateway.Middleware.Writer.{Bytes, ResponseWriter}
use llm_gateway.Middleware.Capture.{
  mode_buffer, decide_mode, capture_body_limit, wrap, start, write_header, write_buffered,
  write_started, write, flush, finish, tokens_to_record, positive, Action, sets_header, puts_header,
  puts_body, flushes, captured,
}
use llm_gateway.Middleware.Recording.{answer_of, recorded_lem, state}

-- The body only grows.
answer_of-grows :
    (acts : List Action) (o : Option ℕ) (b : Bytes) → length b ≤ length (answer_of o b acts).1
unfolding answer_of
answer_of-grows [] o b = omega arith
answer_of-grows (sets_header k v ∷ acts) o b = answer_of-grows acts o b
answer_of-grows (flushes ∷ acts) o b = answer_of-grows acts o b
answer_of-grows (puts_header s ∷ acts) o b = answer_of-grows acts _ b
answer_of-grows (puts_body c ∷ acts) o b =
    omega (arith, answer_of-grows acts _ (b ++ c), length-append b c)

module _ {W : Type 0} (h : ResponseWriter W) where
  write_buffered-small :
      (w : W) (s : ℕ) (b c : Bytes)
      → length (b ++ c) ≤ capture_body_limit
      → (write_buffered h (state h w s mode_buffer b false) c).0
        ≡ state h w s mode_buffer (b ++ c) false
  unfolding write_buffered
  write_buffered-small w s b c small =
      let fits : ltb capture_body_limit (length b + length c) ≡ false =
        ground (arith, small, length-append b c) in
      rw (write_buffered, fits) refl

  -- A JSON answer that stays within the limit is held back whole.
  held :
      (acts : List Action) (w : W) (s : ℕ) (b : Bytes)
      → length (answer_of (some s) b acts).1 ≤ capture_body_limit
      → (v : W) × (captured h (state h w s mode_buffer b false) acts
          ≡ state h v s mode_buffer (answer_of (some s) b acts).1 false)
  unfolding captured answer_of write_header write write_started flush
  held [] w s b small = (w, refl)
  held (sets_header k v ∷ acts) w s b small = held acts (h.set_header w k v) s b small
  held (flushes ∷ acts) w s b small = held acts w s b small
  held (puts_header t ∷ acts) w s b small = held acts w s b small
  held (puts_body c ∷ acts) w s b small =
      let (v, e) = held acts w s (b ++ c) small in
      (
        v,
        ap (λ cw. captured h cw acts)
              (write_buffered-small w s b c
                (omega (arith, small, answer_of-grows acts (some s) (b ++ c))))
            ∙ e,
      )

  -- The count of a JSON answer that is held back.
  counted_lem :
      (usage : Bytes → Option ℤ) (v : W) (s : ℕ) (b : Bytes) (n : ℤ)
      → 0 < length b
      → ((finish h usage (state h v s mode_buffer b false)).1 ≡ some n)
        ↔ ((200 ≤ s) × (s < 300) × (usage b ≡ some n) × (pos 0 <ℤ n))
  unfolding finish tokens_to_record
  counted_lem usage v s b n some_body = (
    λ e. recorded_lem s (ltb 0 (length b)) (usage b) n e,
    λ x. counts s (ltb 0 (length b)) (usage b) n x.0 x.1 (ground (arith, some_body)) x.2 x.3,
  )
    where
      counts :
          (s : ℕ) (x : Bool) (o : Option ℤ) (n : ℤ)
          → 200 ≤ s
          → s < 300
          → x ≡ true
          → o ≡ some n
          → pos 0 <ℤ n
          → (if (leb 200 s && ltb s 300) && (true && x) then positive o else none) ≡ some n
      counts s x none n low high t e p = ground (arith, e)
      counts s x (some m) n low high t e p = ground (arith, e, low, high, t, p)

  -- A handler that sends a status with a JSON content type, and then a body that is not empty and
  -- within the limit of 1 MiB, in any writes: a count is recorded exactly if the status is 2xx, the
  -- count is decoded out of the whole body, and it is above 0.
  pub recorded_iff :
      (usage : Bytes → Option ℤ) (w : W) (s : ℕ) (acts : List Action) (n : ℤ)
      → h.content_type w ≡ "application/json"
      → 0 < length (answer_of (some s) [] acts).1
      → length (answer_of (some s) [] acts).1 ≤ capture_body_limit
      → ((finish h usage (captured h (wrap w) (puts_header s ∷ acts))).1 ≡ some n)
        ↔ ((200 ≤ s) × (s < 300) × (usage (answer_of (some s) [] acts).1 ≡ some n) × (pos 0 <ℤ n))
  unfolding captured write_header start decide_mode
  recorded_iff usage w s acts n json some_body small =
      let (v, e) = held acts w s [] small in
      let begun : write_header h (wrap w) s ≡ state h w s mode_buffer [] false =
        ap (λ ct. start h (wrap w) s (decide_mode ct)) json in
      let same : captured h (wrap w) (puts_header s ∷ acts)
          ≡ state h v s mode_buffer (answer_of (some s) [] acts).1 false =
        ap (λ cw. captured h cw acts) begun ∙ e in
      rw same (counted_lem usage v s (answer_of (some s) [] acts).1 n some_body)
