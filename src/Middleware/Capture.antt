-- ===== src/Middleware/Capture.antt =====
-- internal/middleware/ratelimit.go: usageCaptureWriter, which holds back a JSON response to read
-- its usage before it is sent.
use llm_gateway.Base.{
  ℕ, ◌+◌, Bool, true, false, not, ◌&&◌, Option, none, some, List, [], ◌∷◌, ◌++◌, ℤ, pos, ltb_ℤ,
  String, ltb, leb, length, if◌then◌else◌,
}
use text.Mathlib.Text.{starts_with}
use llm_gateway.Middleware.Writer.{Bytes, ResponseWriter}

pub data CaptureMode : Type 0 where
  mode_undecided : CaptureMode
  mode_buffer : CaptureMode
  mode_stream : CaptureMode
  mode_passthrough : CaptureMode

pub record UsageCaptureWriter (W : Type 0) : Type 0 where
  pub writer : W
  pub status : ℕ
  pub wrote_header : Bool
  pub mode : CaptureMode
  pub buf : Bytes
  pub exceeded_limit : Bool

-- 1 MiB
abbrev pub capture_body_limit : ℕ
capture_body_limit = 1048576

abbrev pub wrap : {W : Type 0} → W → UsageCaptureWriter W
wrap w = record {
  writer = w;
  status = 0;
  wrote_header = false;
  mode = mode_undecided;
  buf = [];
  exceeded_limit = false;
}

unfoldable pub decide_mode : String → CaptureMode
decide_mode ct =
    if starts_with ct "text/event-stream"
    then mode_stream
    else if starts_with ct "application/json"
    then mode_buffer
    else mode_passthrough

-- A count that was decoded and is above 0.
abbrev pub positive : Option ℤ → Option ℤ
positive none = none
positive (some n) = if ltb_ℤ (pos 0) n then some n else none

module _ {W : Type 0} (h : ResponseWriter W) where
  -- The rest of WriteHeader, the mode decided: only a buffered header is held back.
  unfoldable pub start : UsageCaptureWriter W → ℕ → CaptureMode → UsageCaptureWriter W
  start cw status mode = record {
    writer = elim mode [
      | mode_stream ↦ h.write_header cw.writer status
      | mode_passthrough ↦ h.write_header cw.writer status
      | _ ↦ cw.writer
    ];
    status = status;
    wrote_header = true;
    mode = mode;
    buf = cw.buf;
    exceeded_limit = cw.exceeded_limit;
  }

  unfoldable pub write_header : UsageCaptureWriter W → ℕ → UsageCaptureWriter W
  unfolding start decide_mode
  write_header cw status =
      if cw.wrote_header then cw else start cw status (decide_mode (h.content_type cw.writer))

  abbrev pub pass : UsageCaptureWriter W → Bytes → UsageCaptureWriter W × Bool
  pass cw b = (
    record {
      writer = h.write cw.writer b;
      status = cw.status;
      wrote_header = cw.wrote_header;
      mode = cw.mode;
      buf = cw.buf;
      exceeded_limit = cw.exceeded_limit;
    },
    h.fails cw.writer b,
  )

  abbrev with_writer : UsageCaptureWriter W → W → Bytes → Bool → UsageCaptureWriter W
  with_writer cw w b exceeded = record {
    writer = w;
    status = cw.status;
    wrote_header = cw.wrote_header;
    mode = cw.mode;
    buf = b;
    exceeded_limit = exceeded;
  }

  -- The write that goes over the limit: the held-back part is sent first, and where that fails,
  -- nothing more.
  unfoldable pub overflow : UsageCaptureWriter W → Bytes → UsageCaptureWriter W × Bool
  overflow cw b =
      let headed = h.write_header cw.writer cw.status in
      if ltb 0 (length cw.buf)
      then if h.fails headed cw.buf
        then (with_writer cw (h.write headed cw.buf) cw.buf true, true)
        else pass (with_writer cw (h.write headed cw.buf) [] true) b
      else pass (with_writer cw headed cw.buf true) b

  unfoldable pub write_buffered : UsageCaptureWriter W → Bytes → UsageCaptureWriter W × Bool
  unfolding overflow
  write_buffered cw b =
      if cw.exceeded_limit
      then pass cw b
      else if ltb capture_body_limit (length cw.buf + length b)
      then overflow cw b
      else (with_writer cw cw.writer (cw.buf ++ b) false, false)

  -- The switch on the mode.
  unfoldable pub write_started : UsageCaptureWriter W → Bytes → UsageCaptureWriter W × Bool
  unfolding write_buffered
  write_started cw b = elim cw.mode [ mode_buffer ↦ write_buffered cw b | _ ↦ pass cw b ]

  -- The writer after the write, and whether it returns an error.
  unfoldable pub write : UsageCaptureWriter W → Bytes → UsageCaptureWriter W × Bool
  unfolding write_header write_started
  write cw b = write_started (if cw.wrote_header then cw else write_header cw 200) b

  unfoldable pub flush : UsageCaptureWriter W → UsageCaptureWriter W
  flush cw = elim cw.mode [
    | mode_buffer ↦ cw
    | _ ↦ with_writer cw (h.flush cw.writer) cw.buf cw.exceeded_limit
  ]

  -- The token count that is recorded, with `usage` the decoded `usage.total_tokens` of a body.
  unfoldable pub tokens_to_record : (Bytes → Option ℤ) → UsageCaptureWriter W → Option ℤ
  tokens_to_record usage cw =
      if (leb 200 cw.status && ltb cw.status 300)
        && (not cw.exceeded_limit && ltb 0 (length cw.buf))
      then positive (usage cw.buf)
      else none

  unfoldable pub flush_body : UsageCaptureWriter W → W
  flush_body cw =
      if cw.exceeded_limit
      then cw.writer
      else let headed = h.write_header cw.writer cw.status in
        if ltb 0 (length cw.buf) then h.write headed cw.buf else headed

  unfoldable pub finish : (Bytes → Option ℤ) → UsageCaptureWriter W → W × Option ℤ
  unfolding tokens_to_record flush_body
  finish usage cw =
      if cw.wrote_header
      then elim cw.mode [
        | mode_buffer ↦ (flush_body cw, tokens_to_record usage cw)
        | _ ↦ (cw.writer, none)
      ]
      else (cw.writer, none)

-- What a handler does with its writer.
pub data Action : Type 0 where
  sets_header : String → String → Action
  puts_header : ℕ → Action
  puts_body : Bytes → Action
  flushes : Action

module _ {W : Type 0} (h : ResponseWriter W) where
  -- The handler on the captured writer, and on the writer itself.
  unfoldable pub captured : UsageCaptureWriter W → List Action → UsageCaptureWriter W
  unfolding write_header write flush
  captured cw [] = cw
  captured cw (sets_header k v ∷ acts) =
      captured (with_writer h cw (h.set_header cw.writer k v) cw.buf cw.exceeded_limit) acts
  captured cw (puts_header s ∷ acts) = captured (write_header h cw s) acts
  captured cw (puts_body b ∷ acts) = captured (write h cw b).0 acts
  captured cw (flushes ∷ acts) = captured (flush h cw) acts

  unfoldable pub direct : W → List Action → W
  direct w [] = w
  direct w (sets_header k v ∷ acts) = direct (h.set_header w k v) acts
  direct w (puts_header s ∷ acts) = direct (h.write_header w s) acts
  direct w (puts_body b ∷ acts) = direct (h.write w b) acts
  direct w (flushes ∷ acts) = direct (h.flush w) acts
