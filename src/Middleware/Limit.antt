-- ===== src/Middleware/Limit.antt =====
-- internal/middleware/ratelimit.go: the rate-limit middleware around a handler, and the 429 of
-- internal/apierr/apierr.go. Times are in nanoseconds.
use Prim.Native.String.{◌++◌}
use llm_gateway.Base.{
  ℕ, ◌+◌, ◌*◌, ◌/◌, ◌%◌, Bool, true, false, not, ◌&&◌, Option, none, some, List, ℤ, pos, negsuc,
  ltb_ℤ, eqb_ℤ, ◌==◌, itoa, String, second, Arithmetic, if◌then◌else◌,
}
use llm_gateway.RateLimit.Limiter.{Reservation, Result, failed, done, sub_int}
use llm_gateway.Middleware.Writer.{Bytes, ResponseWriter}
use llm_gateway.Middleware.Capture.{wrap, finish, Action, captured, direct}

unfoldable pub clamp_non_negative : ℤ → ℤ
clamp_non_negative n = if ltb_ℤ n (pos 0) then pos 0 else n

-- d / time.Second is positive here, so the division rounds down.
unfoldable pub round_duration_to_second : ℤ → ℤ
round_duration_to_second (negsuc n) = pos 0
round_duration_to_second (pos n) =
    pos ((if n % second == 0 then n / second else n / second + 1) * second)

-- failOpenWarnInterval
abbrev pub fail_open_warn_interval : ℕ
fail_open_warn_interval = 5 * second

-- The time of the latest warning, 0 before the first, and whether this failure is logged. One
-- goroutine at a time, so the compare-and-swap takes place.
unfoldable pub warn_fail_open : ℤ → ℤ → ℤ × Bool
unfolding sub_int
warn_fail_open prev now =
    if not (eqb_ℤ prev (pos 0)) && ltb_ℤ (sub_int now prev) (pos fail_open_warn_interval)
    then (prev, false)
    else (now, true)

module _ {W : Type 0} (h : ResponseWriter W) where
  -- `show` is the String method of time.Duration.
  unfoldable pub set_rate_limit_headers : (ℤ → String) → W → Reservation → W
  unfolding clamp_non_negative round_duration_to_second
  set_rate_limit_headers show w res =
      let on_requests = λ (v : W).
        h.set_header
          (h.set_header (h.set_header v "X-RateLimit-Limit-Requests" (itoa res.limit))
            "X-RateLimit-Remaining-Requests" (itoa (clamp_non_negative res.remaining)))
          "X-RateLimit-Reset-Requests" (show (round_duration_to_second res.reset)) in
      let on_tokens = λ (v : W).
        h.set_header
          (h.set_header (h.set_header v "X-RateLimit-Limit-Tokens" (itoa res.tpm_limit))
            "X-RateLimit-Remaining-Tokens" (itoa (clamp_non_negative res.tpm_remaining)))
          "X-RateLimit-Reset-Tokens" (show (round_duration_to_second res.tpm_reset)) in
      let v = if ltb_ℤ (pos 0) res.limit then on_requests w else w in
      if ltb_ℤ (pos 0) res.tpm_limit then on_tokens v else v

  -- apierr.Write; `encode` is the JSON of an APIError from its message, type and code.
  unfoldable pub write_error :
      (String → String → String → Bytes) → W → ℕ → String → String → String → W
  write_error encode w status type error_code message =
      h.write (h.write_header (h.set_header w "Content-Type" "application/json") status)
        (encode message type error_code)

  -- apierr.WriteRateLimit with no message. retryAfter.Seconds() is the sum of the whole seconds
  -- and the rest as a fraction; a wait is not below 0 here.
  abbrev pub ceil_seconds : Arithmetic → ℤ → ℤ
  ceil_seconds f (negsuc n) = pos 0
  ceil_seconds f (pos n) = f.to_int (
      f.ceil (
        f.add (f.of_int (pos (n / second)))
          (f.div (f.of_int (pos (n % second))) (f.of_int (pos second)))))

  unfoldable pub write_rate_limit : Arithmetic → (String → String → String → Bytes) → W → ℤ → W
  unfolding write_error
  write_rate_limit f encode w retry_after =
      let rounded = ceil_seconds f retry_after in
      let secs = if ltb_ℤ rounded (pos 1) then pos 1 else rounded in
      write_error encode (h.set_header w "Retry-After" (itoa secs)) 429 "rate_limit_error"
        "rate_limit_exceeded" ("Rate limit exceeded. Try again in " ++ (itoa secs ++ "s."))

-- A handler: the headers that it sets first, then its other calls.
pub record Handler (W : Type 0) : Type 0 where
  pub prepares : W → W
  pub makes : List Action

-- What the middleware leaves: the client's response, the metric it counts, whether the request is
-- marked as limited, the tokens it records, and the time of the latest warning.
pub record Served (W : Type 0) : Type 0 where
  pub writer : W
  pub counted : Option String
  pub is_limited : Bool
  pub tokens : Option ℤ
  pub last_warn : ℤ

module _ {W : Type 0} (h : ResponseWriter W) (f : Arithmetic) (show : ℤ → String)
    (encode : String → String → String → Bytes) (usage : Bytes → Option ℤ) where
  -- The reservation of an allowed request, with the handler's calls.
  unfoldable pub serve_allowed : W → Handler W → ℤ → Served W
  serve_allowed w next last_warn =
      let out = finish h usage (captured h (wrap (next.prepares w)) next.makes) in
      record {
        writer = out.0;
        counted = some "allowed";
        is_limited = false;
        tokens = out.1;
        last_warn = last_warn;
      }

  -- Behind the headers, by whether the reservation allows the request.
  unfoldable pub serve_decided : Bool → ℤ → W → Handler W → ℤ → Served W
  unfolding serve_allowed write_rate_limit
  serve_decided true retry_after w next last_warn = serve_allowed w next last_warn
  serve_decided false retry_after w next last_warn = record {
    writer = write_rate_limit h f encode w retry_after;
    counted = some "throttled";
    is_limited = true;
    tokens = none;
    last_warn = last_warn;
  }

  -- `reserved` is what Reserve returns, none where the context holds no key.
  unfoldable pub serve : ℤ → ℤ → W → Handler W → Option (Result Reservation) → Served W
  unfolding warn_fail_open set_rate_limit_headers serve_decided
  serve last_warn now w next none = record {
    writer = direct h (next.prepares w) next.makes;
    counted = none;
    is_limited = false;
    tokens = none;
    last_warn = last_warn;
  }
  serve last_warn now w next (some (failed e)) = record {
    writer = direct h (next.prepares w) next.makes;
    counted = some "failopen";
    is_limited = false;
    tokens = none;
    last_warn = (warn_fail_open last_warn now).0;
  }
  serve last_warn now w next (some (done res)) =
      serve_decided res.allowed res.retry_after (set_rate_limit_headers h show w res) next last_warn
