-- ===== src/Middleware/Follows.antt =====
-- usageCaptureWriter of internal/middleware/ratelimit.go and the bare writer, call by call.
use mathlib.Core.Path.{subst}
use llm_gateway.Base.{
  ℕ, suc, ◌+◌, ◌≤◌, All, ◌≡◌, refl, sym, ap, ◌⊎◌, inl, inr, Bool, true, false, Option, List, [],
  ◌∷◌, ◌++◌, ℤ, arith, String, ltb, length, Bool-cases, if◌then◌else◌,
}
use text.Mathlib.Text.{starts_with}
use llm_gateway.Middleware.Writer.{Bytes, ResponseWriter, WriterLaws}
use llm_gateway.Middleware.Capture.{
  CaptureMode, mode_buffer, mode_stream, mode_passthrough, UsageCaptureWriter, capture_body_limit,
  wrap, decide_mode, start, write_header, overflow, write_buffered, write_started, write, flush,
  flush_body, finish, Action, sets_header, puts_header, puts_body, flushes, captured, direct,
}

nonempty : (n : ℕ) → ltb 0 (suc n) ≡ true
nonempty n = ground arith

pub decide_mode-cases :
    (ct : String)
    → (decide_mode ct ≡ mode_stream)
      ⊎ ((decide_mode ct ≡ mode_buffer) ⊎ (decide_mode ct ≡ mode_passthrough))
unfolding decide_mode
decide_mode-cases ct = elim (Bool-cases (starts_with ct "text/event-stream")) [
  | inl stream ↦ inl (rw stream refl)
  | inr no' ↦ elim (Bool-cases (starts_with ct "application/json")) [
    | inl json ↦ inr (inl (rw (no', json) refl))
    | inr neither ↦ inr (inr (rw (no', neither) refl))
  ]
]

-- A call behind the first status: no header, and no status below 200.
abbrev pub IsSettled : Action → Type 0
IsSettled (sets_header k v) = ⊥
IsSettled (puts_header s) = 200 ≤ s
IsSettled (puts_body b) = Unit
IsSettled flushes = Unit

-- A handler's calls: its headers before the first status, and no status below 200.
abbrev pub IsOrderly : List Action → Type 0
IsOrderly [] = Unit
IsOrderly (sets_header k v ∷ acts) = IsOrderly acts
IsOrderly (flushes ∷ acts) = IsOrderly acts
IsOrderly (puts_header s ∷ acts) = (200 ≤ s) × All IsSettled acts
IsOrderly (puts_body b ∷ acts) = All IsSettled acts

module _ {W : Type 0} (h : ResponseWriter W) (laws : WriterLaws h)
    (sound : (w : W) (b : Bytes) → h.fails w b ≡ false) where
  -- The status is sent: another one and a flush change nothing.
  unfoldable pub Started : W → Type 0
  Started w = ((t : ℕ) → h.write_header w t ≡ w) × (h.flush w ≡ w)

  pub header-Started : (w : W) (s : ℕ) → 200 ≤ s → Started (h.write_header w s)
  unfolding Started
  header-Started w s final = ((λ t. laws.header_once w s t final), laws.flush_header w s final)

  pub write-Started : (w : W) (b : Bytes) → Started (h.write w b)
  unfolding Started
  write-Started w b = (laws.header_late w b, laws.flush_write w b)

  abbrev pub state : W → ℕ → CaptureMode → Bytes → Bool → UsageCaptureWriter W
  state w s m b x = record {
    writer = w;
    status = s;
    wrote_header = true;
    mode = m;
    buf = b;
    exceeded_limit = x;
  }

  -- A captured writer and the bare writer after the same calls.
  pub data Follows : UsageCaptureWriter W → W → Type 0 where
    fresh : (w : W) → Follows (wrap w) w
    streaming :
        (w : W) (s : ℕ) (b : Bytes) (x : Bool) → Started w → Follows (state w s mode_stream b x) w
    plain :
        (w : W) (s : ℕ) (b : Bytes) (x : Bool)
        → Started w
        → Follows (state w s mode_passthrough b x) w
    over : (w : W) (s : ℕ) (b : Bytes) → Started w → Follows (state w s mode_buffer b true) w
    holding :
        (w : W) (s : ℕ) (b : Bytes)
        → 200 ≤ s
        → Follows (state w s mode_buffer b false) (h.write (h.write_header w s) b)

  pub header-Follows :
      (cw : UsageCaptureWriter W) (d : W) (s : ℕ)
      → 200 ≤ s
      → Follows cw d
      → Follows (write_header h cw s) (h.write_header d s)
  unfolding write_header start Started
  header-Follows _ _ s final (fresh w) = elim (decide_mode-cases (h.content_type w)) [
    | inl e ↦ rw e (streaming (h.write_header w s) s [] false (header-Started w s final))
    | inr (inl e) ↦ rw e (
        subst (Follows (state w s mode_buffer [] false)) (laws.write_nothing w s final)
          (holding w s [] final))
    | inr (inr e) ↦ rw e (plain (h.write_header w s) s [] false (header-Started w s final))
  ]
  header-Follows _ _ s final (streaming w t b x done) =
      subst (Follows (state w t mode_stream b x)) (sym (done.0 s)) (streaming w t b x done)
  header-Follows _ _ s final (plain w t b x done) =
      subst (Follows (state w t mode_passthrough b x)) (sym (done.0 s)) (plain w t b x done)
  header-Follows _ _ s final (over w t b done) =
      subst (Follows (state w t mode_buffer b true)) (sym (done.0 s)) (over w t b done)
  header-Follows _ _ s final (holding w t b f) =
      subst (Follows (state w t mode_buffer b false))
        (sym (laws.header_late (h.write_header w t) b s)) (holding w t b f)

  pub overflow-Follows :
      (w : W) (s : ℕ) (held b : Bytes)
      → 200 ≤ s
      → Follows
          (overflow h (state w s mode_buffer held false) b).0
          (h.write (h.write (h.write_header w s) held) b)
  unfolding overflow
  overflow-Follows w s [] b final =
      subst
        (λ d. Follows (state (h.write (h.write_header w s) b) s mode_buffer [] true) (h.write d b))
        (sym (laws.write_nothing w s final))
        (over (h.write (h.write_header w s) b) s [] (write-Started _ b))
  overflow-Follows w s (x ∷ held) b final =
      rw (nonempty (length held), sound (h.write_header w s) (x ∷ held))
        (over (h.write (h.write (h.write_header w s) (x ∷ held)) b) s [] (write-Started _ b))

  pub holding-Follows :
      (w : W) (s : ℕ) (held b : Bytes)
      → 200 ≤ s
      → Follows
          (write_buffered h (state w s mode_buffer held false) b).0
          (h.write (h.write (h.write_header w s) held) b)
  unfolding write_buffered
  holding-Follows w s held b final =
      elim (Bool-cases (ltb capture_body_limit (length held + length b))) [
        | inl large ↦ rw large (overflow-Follows w s held b final)
        | inr small ↦ rw small (
            subst (Follows (state w s mode_buffer (held ++ b) false))
              (sym (laws.write_join (h.write_header w s) held b)) (holding w s (held ++ b) final))
      ]

  pub started-Follows :
      (cw : UsageCaptureWriter W) (d : W) (b : Bytes)
      → Follows cw d
      → cw.wrote_header ≡ true
      → Follows (write_started h cw b).0 (h.write d b)
  unfolding write_started write_buffered
  started-Follows _ _ b (fresh w) wrote = ground (arith, wrote)
  started-Follows _ _ b (streaming w t held x done) wrote =
      streaming (h.write w b) t held x (write-Started w b)
  started-Follows _ _ b (plain w t held x done) wrote =
      plain (h.write w b) t held x (write-Started w b)
  started-Follows _ _ b (over w t held done) wrote = over (h.write w b) t held (write-Started w b)
  started-Follows _ _ b (holding w t held f) wrote = holding-Follows w t held b f

  pub body-Follows :
      (cw : UsageCaptureWriter W) (d : W) (b : Bytes)
      → Follows cw d
      → Follows (write h cw b).0 (h.write d b)
  unfolding write write_header start
  body-Follows cw d b f = elim (Bool-cases cw.wrote_header) [
    | inl wrote ↦
        subst (λ c. Follows (write_started h c b).0 (h.write d b))
          (sym (ap (λ x. if x then cw else write_header h cw 200) wrote))
          (started-Follows cw d b f wrote)
    | inr bare ↦
        subst (λ c. Follows (write_started h c b).0 (h.write d b))
          (sym (ap (λ x. if x then cw else write_header h cw 200) bare))
          (subst (λ x. Follows (write_started h (write_header h cw 200) b).0 x)
            (sym (laws.write_implies_ok d b))
            (started-Follows _ _ b (header-Follows cw d 200 (omega arith) f) (wrote_now bare)))
  ]
    where
      wrote_now : cw.wrote_header ≡ false → (write_header h cw 200).wrote_header ≡ true
      wrote_now bare =
          ap
            (λ x.
              (if x
                then cw
                else start h cw 200 (decide_mode (h.content_type cw.writer))).wrote_header)
            bare

  pub flush-Follows :
      (cw : UsageCaptureWriter W) (d : W) → Follows cw d → Follows (flush h cw) (h.flush d)
  unfolding flush Started
  flush-Follows _ _ (fresh w) = fresh (h.flush w)
  flush-Follows _ _ (streaming w t b x done) =
      streaming (h.flush w) t b x (subst Started (sym done.1) done)
  flush-Follows _ _ (plain w t b x done) = plain (h.flush w) t b x (subst Started (sym done.1) done)
  flush-Follows _ _ (over w t b done) =
      subst (Follows (state w t mode_buffer b true)) (sym done.1) (over w t b done)
  flush-Follows _ _ (holding w t b f) =
      subst (Follows (state w t mode_buffer b false))
        (sym (laws.flush_write (h.write_header w t) b)) (holding w t b f)

  -- Once the status stands.
  settled-Follows :
      (acts : List Action) (cw : UsageCaptureWriter W) (d : W)
      → All IsSettled acts
      → Follows cw d
      → Follows (captured h cw acts) (direct h d acts)
  unfolding captured direct
  settled-Follows [] cw d ok f = f
  settled-Follows (sets_header k v ∷ acts) cw d ok f = absurd ok.0
  settled-Follows (puts_header s ∷ acts) cw d ok f =
      settled-Follows acts _ _ ok.1 (header-Follows cw d s ok.0 f)
  settled-Follows (puts_body b ∷ acts) cw d ok f =
      settled-Follows acts _ _ ok.1 (body-Follows cw d b f)
  settled-Follows (flushes ∷ acts) cw d ok f = settled-Follows acts _ _ ok.1 (flush-Follows cw d f)

  pub captured-Follows :
      (acts : List Action) (w : W)
      → IsOrderly acts
      → Follows (captured h (wrap w) acts) (direct h w acts)
  unfolding captured direct flush
  captured-Follows [] w ok = fresh w
  captured-Follows (sets_header k v ∷ acts) w ok = captured-Follows acts (h.set_header w k v) ok
  captured-Follows (flushes ∷ acts) w ok = captured-Follows acts (h.flush w) ok
  captured-Follows (puts_header s ∷ acts) w ok =
      settled-Follows acts _ _ ok.1 (header-Follows (wrap w) w s ok.0 (fresh w))
  captured-Follows (puts_body b ∷ acts) w ok =
      settled-Follows acts _ _ ok (body-Follows (wrap w) w b (fresh w))

  pub finish-Follows :
      (usage : Bytes → Option ℤ) (cw : UsageCaptureWriter W) (d : W)
      → Follows cw d
      → (finish h usage cw).0 ≡ d
  unfolding finish flush_body
  finish-Follows usage _ _ (fresh w) = refl
  finish-Follows usage _ _ (streaming w t b x done) = refl
  finish-Follows usage _ _ (plain w t b x done) = refl
  finish-Follows usage _ _ (over w t b done) = refl
  finish-Follows usage _ _ (holding w t [] f) = sym (laws.write_nothing w t f)
  finish-Follows usage _ _ (holding w t (x ∷ b) f) = rw (nonempty (length b)) refl
