-- ===== src/Middleware/Recording.antt =====
-- The tokens that usageCaptureWriter of internal/middleware/ratelimit.go records.
use llm_gateway.Base.{
  ℕ, ◌+◌, ◌≤◌, ◌<◌, ◌≡◌, refl, inl, inr, Bool, true, false, ◌&&◌, Option, none, some, List, [], ◌∷◌,
  ◌++◌, ℤ, pos, ◌<ℤ◌, arith, ltb, leb, length, if◌then◌else◌, Bool-cases,
}
use llm_gateway.Middleware.Writer.{Bytes, ResponseWriter}
use llm_gateway.Middleware.Capture.{
  CaptureMode, mode_buffer, mode_stream, mode_passthrough, UsageCaptureWriter, capture_body_limit,
  wrap, start, write_header, overflow, write_buffered, write_started, write, flush, finish,
  tokens_to_record, positive, Action, sets_header, puts_header, puts_body, flushes, captured,
}
use llm_gateway.Middleware.Follows.{decide_mode-cases}

-- The first status that a handler's calls send, and the bytes that they write.
abbrev pub first_status : Option ℕ → ℕ → Option ℕ
first_status none s = some s
first_status (some t) s = some t

unfoldable pub answer_of : Option ℕ → Bytes → List Action → Option ℕ × Bytes
answer_of o b [] = (o, b)
answer_of o b (sets_header k v ∷ acts) = answer_of o b acts
answer_of o b (flushes ∷ acts) = answer_of o b acts
answer_of o b (puts_header s ∷ acts) = answer_of (first_status o s) b acts
answer_of o b (puts_body c ∷ acts) = answer_of (first_status o 200) (b ++ c) acts

-- What a count is read from: the whole body of an answer with a 2xx status.
abbrev pub Counts : (Bytes → Option ℤ) → Option ℕ × Bytes → ℤ → Type 0
Counts usage answer n =
    (status : ℕ) × (answer.0 ≡ some status)
    × (200 ≤ status)
    × (status < 300)
    × (usage answer.1 ≡ some n)
    × (pos 0 <ℤ n)

pub recorded_lem :
    (status : ℕ) (x : Bool) (o : Option ℤ) (n : ℤ)
    → (if (leb 200 status && ltb status 300) && (true && x) then positive o else none) ≡ some n
    → (200 ≤ status) × (status < 300) × (o ≡ some n) × (pos 0 <ℤ n)
recorded_lem status x none n e = ground (arith, e)
recorded_lem status x (some m) n e = ground (arith, e)

module _ {W : Type 0} (h : ResponseWriter W) where
  abbrev pub state : W → ℕ → CaptureMode → Bytes → Bool → UsageCaptureWriter W
  state w s m b x = record {
    writer = w;
    status = s;
    wrote_header = true;
    mode = m;
    buf = b;
    exceeded_limit = x;
  }

  -- What a captured writer knows of an answer so far.
  data Knows : UsageCaptureWriter W → Option ℕ → Bytes → Type 0 where
    fresh : (w : W) → Knows (wrap w) none []
    streaming :
        (w : W) (s : ℕ) (b : Bytes) (x : Bool) (o : Option ℕ) (c : Bytes)
        → Knows (state w s mode_stream b x) o c
    plain :
        (w : W) (s : ℕ) (b : Bytes) (x : Bool) (o : Option ℕ) (c : Bytes)
        → Knows (state w s mode_passthrough b x) o c
    over :
        (w : W) (s : ℕ) (b : Bytes) (o : Option ℕ) (c : Bytes)
        → Knows (state w s mode_buffer b true) o c
    holding : (w : W) (s : ℕ) (b : Bytes) → Knows (state w s mode_buffer b false) (some s) b

  header-Knows :
      (cw : UsageCaptureWriter W) (o : Option ℕ) (c : Bytes) (s : ℕ)
      → Knows cw o c
      → Knows (write_header h cw s) (first_status o s) c
  unfolding write_header start
  header-Knows _ _ _ s (fresh w) = elim (decide_mode-cases (h.content_type w)) [
    | inl e ↦ rw e (streaming (h.write_header w s) s [] false (some s) [])
    | inr (inl e) ↦ rw e (holding w s [])
    | inr (inr e) ↦ rw e (plain (h.write_header w s) s [] false (some s) [])
  ]
  header-Knows _ _ _ s (streaming w t b x o c) = streaming w t b x _ c
  header-Knows _ _ _ s (plain w t b x o c) = plain w t b x _ c
  header-Knows _ _ _ s (over w t b o c) = over w t b _ c
  header-Knows _ _ _ s (holding w t b) = holding w t b

  overflow-Knows :
      (w : W) (s : ℕ) (held b : Bytes) (o : Option ℕ) (c : Bytes)
      → Knows (overflow h (state w s mode_buffer held false) b).0 o c
  unfolding overflow
  overflow-Knows w s held b o c = elim (Bool-cases (ltb 0 (length held))) [
    | inr bare ↦ rw bare (over _ s held o c)
    | inl some_held ↦ elim (Bool-cases (h.fails (h.write_header w s) held)) [
      | inl bad ↦ rw (some_held, bad) (over _ s held o c)
      | inr good ↦ rw (some_held, good) (over _ s [] o c)
    ]
  ]

  started-Knows :
      (cw : UsageCaptureWriter W) (o : Option ℕ) (c b : Bytes)
      → Knows cw o c
      → cw.wrote_header ≡ true
      → Knows (write_started h cw b).0 (first_status o 200) (c ++ b)
  unfolding write_started write_buffered
  started-Knows _ _ _ b (fresh w) wrote = ground (arith, wrote)
  started-Knows _ _ _ b (streaming w t held x o c) wrote = streaming _ t held x _ _
  started-Knows _ _ _ b (plain w t held x o c) wrote = plain _ t held x _ _
  started-Knows _ _ _ b (over w t held o c) wrote = over _ t held _ _
  started-Knows _ _ _ b (holding w t held) wrote =
      elim (Bool-cases (ltb capture_body_limit (length held + length b))) [
        | inl large ↦ rw large (overflow-Knows w t held b _ _)
        | inr small ↦ rw small (holding w t (held ++ b))
      ]

  body-Knows :
      (cw : UsageCaptureWriter W) (o : Option ℕ) (c b : Bytes)
      → Knows cw o c
      → Knows (write h cw b).0 (first_status o 200) (c ++ b)
  unfolding write write_header start
  body-Knows _ _ _ b (fresh w) =
      started-Knows _ _ _ b (header-Knows (wrap w) none [] 200 (fresh w)) refl
  body-Knows _ _ _ b (streaming w t held x o c) =
      started-Knows _ _ _ b (streaming w t held x o c) refl
  body-Knows _ _ _ b (plain w t held x o c) = started-Knows _ _ _ b (plain w t held x o c) refl
  body-Knows _ _ _ b (over w t held o c) = started-Knows _ _ _ b (over w t held o c) refl
  body-Knows _ _ _ b (holding w t held) = started-Knows _ _ _ b (holding w t held) refl

  passing-Knows :
      (cw : UsageCaptureWriter W) (o : Option ℕ) (c : Bytes) (v : W)
      → Knows cw o c
      → Knows (record cw { writer = v }) o c
  passing-Knows _ _ _ v (fresh w) = fresh v
  passing-Knows _ _ _ v (streaming w t held x o c) = streaming v t held x o c
  passing-Knows _ _ _ v (plain w t held x o c) = plain v t held x o c
  passing-Knows _ _ _ v (over w t held o c) = over v t held o c
  passing-Knows _ _ _ v (holding w t held) = holding v t held

  flush-Knows :
      (cw : UsageCaptureWriter W) (o : Option ℕ) (c : Bytes) → Knows cw o c → Knows (flush h cw) o c
  unfolding flush
  flush-Knows _ _ _ (fresh w) = fresh _
  flush-Knows _ _ _ (streaming w t held x o c) = streaming _ t held x o c
  flush-Knows _ _ _ (plain w t held x o c) = plain _ t held x o c
  flush-Knows _ _ _ (over w t held o c) = over w t held o c
  flush-Knows _ _ _ (holding w t held) = holding w t held

  captured-Knows :
      (acts : List Action) (cw : UsageCaptureWriter W) (o : Option ℕ) (c : Bytes)
      → Knows cw o c
      → Knows (captured h cw acts) (answer_of o c acts).0 (answer_of o c acts).1
  unfolding captured answer_of
  captured-Knows [] cw o c k = k
  captured-Knows (sets_header j v ∷ acts) cw o c k =
      captured-Knows acts _ o c (passing-Knows cw o c (h.set_header cw.writer j v) k)
  captured-Knows (flushes ∷ acts) cw o c k = captured-Knows acts _ o c (flush-Knows cw o c k)
  captured-Knows (puts_header s ∷ acts) cw o c k =
      captured-Knows acts _ _ c (header-Knows cw o c s k)
  captured-Knows (puts_body b ∷ acts) cw o c k = captured-Knows acts _ _ _ (body-Knows cw o c b k)

  finish-Counts :
      (usage : Bytes → Option ℤ) (cw : UsageCaptureWriter W) (o : Option ℕ) (c : Bytes) (n : ℤ)
      → Knows cw o c
      → (finish h usage cw).1 ≡ some n
      → Counts usage (o, c) n
  unfolding finish tokens_to_record
  finish-Counts usage _ _ _ n (fresh w) e = ground (arith, e)
  finish-Counts usage _ _ _ n (streaming w t b x o c) e = ground (arith, e)
  finish-Counts usage _ _ _ n (plain w t b x o c) e = ground (arith, e)
  finish-Counts usage _ _ _ n (over w t b o c) e = ground (arith, e)
  finish-Counts usage _ _ _ n (holding w t b) e =
      let parts = recorded_lem t (ltb 0 (length b)) (usage b) n e in
      (t, refl, parts.0, parts.1, parts.2, parts.3)

-- Whatever a handler does, and whichever writes fail: a token count is recorded only if the first
-- status that the handler sends is 2xx and the count is decoded out of all that the handler writes,
-- and it is above 0.
pub recorded_whole :
    {W : Type 0} (h : ResponseWriter W) (usage : Bytes → Option ℤ) (w : W) (acts : List Action)
    (n : ℤ)
    → (finish h usage (captured h (wrap w) acts)).1 ≡ some n
    → Counts usage (answer_of none [] acts) n
recorded_whole h usage w acts n e =
    finish-Counts h usage _ _ _ n (captured-Knows h acts (wrap w) none [] (fresh w)) e
