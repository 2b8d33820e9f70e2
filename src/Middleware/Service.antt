-- ===== src/Middleware/Service.antt =====
-- What a client receives through the rate-limit middleware of internal/middleware/ratelimit.go.
use Prim.Native.String.{◌++◌ as text_append}
use llm_gateway.Base.{
  ◌+◌, ◌-◌, ◌*◌, ◌/◌, ◌%◌, ◌==◌, ◌≡◌, refl, ap, ◌⊎◌, inl, inr, Bool, true, false, Option, none,
  some, List, [], ◌∷◌, ◌++◌, ℤ, pos, negsuc, pos_part, ltb_ℤ, ◌≤ℤ◌, itoa, String, second,
  Arithmetic, arith, if◌then◌else◌, Bool-cases,
}
use llm_gateway.RateLimit.Limiter.{Reservation, Result, failed, done}
use llm_gateway.Middleware.Writer.{Bytes, ResponseWriter, WriterLaws}
use llm_gateway.Middleware.Capture.{direct}
use llm_gateway.Middleware.Follows.{IsOrderly}
use llm_gateway.Middleware.Transparency.{captured_transparent}
use llm_gateway.Middleware.Limit.{
  ceil_seconds, clamp_non_negative, round_duration_to_second, set_rate_limit_headers, write_error,
  write_rate_limit, Handler, serve_allowed, serve_decided, serve,
}

-- A duration in whole seconds, rounded up, and 0 below 0.
abbrev rounded_up : ℤ → ℤ
rounded_up (negsuc n) = pos 0
rounded_up (pos n) = pos ((n + (second - 1)) / second * second)

-- The headers of one of the two limits.
abbrev limit_headers : (ℤ → String) → String → ℤ → ℤ → ℤ → List (String × String)
limit_headers show of limit remaining reset =
    (text_append "X-RateLimit-Limit-" of, itoa limit)
    ∷ (text_append "X-RateLimit-Remaining-" of, itoa (pos (pos_part remaining)))
    ∷ (text_append "X-RateLimit-Reset-" of, show (rounded_up reset))
    ∷ []

-- The headers that a reservation calls for: those of each limit above 0.
abbrev pub headers_of : (ℤ → String) → Reservation → List (String × String)
headers_of show res =
    (if ltb_ℤ (pos 0) res.limit
      then limit_headers show "Requests" res.limit res.remaining res.reset
      else [])
    ++ (if ltb_ℤ (pos 0) res.tpm_limit
        then limit_headers show "Tokens" res.tpm_limit res.tpm_remaining res.tpm_reset
        else [])

abbrev pub with_headers : {W : Type 0} → ResponseWriter W → W → List (String × String) → W
with_headers h w [] = w
with_headers h w ((k, v) ∷ hs) = with_headers h (h.set_header w k v) hs

round-rounded_up : (d : ℤ) → round_duration_to_second d ≡ rounded_up d
unfolding round_duration_to_second
round-rounded_up (negsuc n) = refl
round-rounded_up (pos n) = elim (Bool-cases (n % second == 0)) [
  | inl whole ↦ rw whole (ap (λ q. pos (q * second)) (ground (arith, whole)))
  | inr part ↦ rw part (ap (λ q. pos (q * second)) (ground (arith, part)))
]

clamp-pos_part : (n : ℤ) → clamp_non_negative n ≡ pos (pos_part n)
unfolding clamp_non_negative
clamp-pos_part (pos n) = ground arith
clamp-pos_part (negsuc n) = ground arith

set_rate_limit_headers-with :
    {W : Type 0} (h : ResponseWriter W) (show : ℤ → String) (w : W) (res : Reservation)
    → set_rate_limit_headers h show w res ≡ with_headers h w (headers_of show res)
unfolding set_rate_limit_headers
set_rate_limit_headers-with h show w res = elim (Bool-cases (ltb_ℤ (pos 0) res.limit)) [
  | inl rpm ↦ elim (Bool-cases (ltb_ℤ (pos 0) res.tpm_limit)) [
    | inl tpm ↦
        rw
          (
            rpm,
            tpm,
            clamp-pos_part res.remaining,
            clamp-pos_part res.tpm_remaining,
            round-rounded_up res.reset,
            round-rounded_up res.tpm_reset,
          )
          refl
    | inr no_tpm ↦ rw (rpm, no_tpm, clamp-pos_part res.remaining, round-rounded_up res.reset) refl
  ]
  | inr no_rpm ↦ elim (Bool-cases (ltb_ℤ (pos 0) res.tpm_limit)) [
    | inl tpm ↦
        rw (no_rpm, tpm, clamp-pos_part res.tpm_remaining, round-rounded_up res.tpm_reset) refl
    | inr no_tpm ↦ rw (no_rpm, no_tpm) refl
  ]
]

-- The headers that stand before the handler runs.
abbrev pub called_for : (ℤ → String) → Option (Result Reservation) → List (String × String)
called_for show (some (done res)) = headers_of show res
called_for show _ = []

-- Whether the limiter rejects the request.
abbrev pub rejects : Option (Result Reservation) → Bool
rejects (some (done res)) = if res.allowed then false else true
rejects _ = false

-- The answer to a rejection: the 429 with its headers, and a wait of whole seconds, at least one.
abbrev pub IsTooMany :
    {W : Type 0} → ResponseWriter W → (String → String → String → Bytes) → W → W → Type 0
IsTooMany h encode w sent =
    (secs : ℤ) × (pos 1 ≤ℤ secs)
    × (sent
        ≡ h.write
            (h.write_header
              (with_headers h w
                (("Retry-After", itoa secs) ∷ ("Content-Type", "application/json") ∷ []))
              429)
            (encode
              (text_append "Rate limit exceeded. Try again in " (text_append (itoa secs) "s."))
              "rate_limit_error" "rate_limit_exceeded"))

write_rate_limit-IsTooMany :
    {W : Type 0} (h : ResponseWriter W) (f : Arithmetic) (encode : String → String → String → Bytes)
    (w : W) (retry_after : ℤ)
    → IsTooMany h encode w (write_rate_limit h f encode w retry_after)
unfolding write_rate_limit write_error
write_rate_limit-IsTooMany h f encode w retry_after =
    let r = ceil_seconds h f retry_after in
    (if ltb_ℤ r (pos 1) then pos 1 else r, at_least_one r, refl)
  where
    at_least_one : (n : ℤ) → pos 1 ≤ℤ (if ltb_ℤ n (pos 1) then pos 1 else n)
    at_least_one n = ground arith

module _ {W : Type 0} (h : ResponseWriter W) (laws : WriterLaws h)
    (sound : (w : W) (b : Bytes) → h.fails w b ≡ false) (f : Arithmetic) (show : ℤ → String)
    (encode : String → String → String → Bytes) (usage : Bytes → Option ℤ) where
  decided-cases :
      (allowed : Bool) (r : Reservation) (w : W) (next : Handler W) (last_warn : ℤ)
      → IsOrderly next.makes
      → let out = serve_decided h f show encode usage allowed r.retry_after w next last_warn in
        (((if allowed then false else true) ≡ true)
          × IsTooMany h encode w out.writer
          × (out.is_limited ≡ true)
          × (out.tokens ≡ none))
        ⊎ (((if allowed then false else true) ≡ false)
            × (out.writer ≡ direct h (next.prepares w) next.makes)
            × (out.is_limited ≡ false))
  unfolding serve_decided serve_allowed
  decided-cases true r w next last_warn orderly =
      inr (refl, captured_transparent h laws sound usage (next.prepares w) next.makes orderly, refl)
  decided-cases false r w next last_warn orderly =
      inl (refl, write_rate_limit-IsTooMany h f encode w r.retry_after, refl, refl)

  done-cases :
      (res : Reservation) (w v : W) (next : Handler W) (last_warn : ℤ)
      → v ≡ with_headers h w (headers_of show res)
      → IsOrderly next.makes
      → let out =
          serve_decided h f show encode usage res.allowed res.retry_after v next last_warn in
        let headed = with_headers h w (headers_of show res) in
        ((rejects (some (done res)) ≡ true)
          × IsTooMany h encode headed out.writer
          × (out.is_limited ≡ true)
          × (out.tokens ≡ none))
        ⊎ ((rejects (some (done res)) ≡ false)
            × (out.writer ≡ direct h (next.prepares headed) next.makes)
            × (out.is_limited ≡ false))
  done-cases res w v next last_warn e orderly =
      rw (← e) (decided-cases res.allowed res v next last_warn orderly)

-- Where the bare writer's writes do not fail, and the handler sets its headers before the first
-- status and sends no status below 200: a request that the limiter rejects is answered by the 429
-- with the headers of each limit above 0, a wait of at least a second and the error's JSON, is
-- marked as limited and has no tokens recorded; any other, without a key, after an error of the
-- limiter or allowed, is answered as the handler alone would answer it behind those headers, none
-- where there is no reservation, and is not marked.
pub serve_cases :
    {W : Type 0} (h : ResponseWriter W) (laws : WriterLaws h)
    (sound : (w : W) (b : Bytes) → h.fails w b ≡ false) (f : Arithmetic) (show : ℤ → String)
    (encode : String → String → String → Bytes) (usage : Bytes → Option ℤ) (last_warn now : ℤ)
    (w : W) (next : Handler W) (reserved : Option (Result Reservation))
    → IsOrderly next.makes
    → let out = serve h f show encode usage last_warn now w next reserved in
      let headed = with_headers h w (called_for show reserved) in
      ((rejects reserved ≡ true)
        × IsTooMany h encode headed out.writer
        × (out.is_limited ≡ true)
        × (out.tokens ≡ none))
      ⊎ ((rejects reserved ≡ false)
          × (out.writer ≡ direct h (next.prepares headed) next.makes)
          × (out.is_limited ≡ false))
unfolding serve serve_allowed
serve_cases h laws sound f show encode usage last_warn now w next none orderly =
    inr (refl, refl, refl)
serve_cases h laws sound f show encode usage last_warn now w next (some (failed e)) orderly =
    inr (refl, refl, refl)
serve_cases h laws sound f show encode usage last_warn now w next (some (done res)) orderly =
    done-cases h laws sound f show encode usage res w (set_rate_limit_headers h show w res) next
      last_warn (set_rate_limit_headers-with h show w res) orderly
