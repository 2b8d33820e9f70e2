-- ===== src/RateLimit/Answers.antt =====
-- What internal/ratelimit/limiter.go answers its callers.
use llm_gateway.Base.{
  minus, ℕ, ◌-◌, pos_part, ◌<◌, ◌≡◌, refl, ap, ◌≢◌, ◌⊎◌, inl, inr, false, ◌&&◌, none, List, arith,
  ℤ, pos, negsuc, ◌≤ℤ◌, ◌<ℤ◌, leb_ℤ, eqb_ℤ, wrap_int, String, str_eq, Bool-cases, max_int,
}
use text.Mathlib.TextLemmas.{append_cancel_left}
use llm_gateway.Auth.{KeyInfo}
use llm_gateway.RateLimit.Redis.{SortedSets}
use llm_gateway.RateLimit.Script.{check}
use llm_gateway.RateLimit.Limiter.{
  Reservation, RedisLimiter, effective_rpm, effective_tpm, rpm_key, tpm_key, new_req_id, sub_int,
  clamp_remaining, Value, CheckResult, Result, failed, done, fields_of, of_fields,
  parse_check_result, Client, scripts, World, retry_after_of, reservation_of, outcome, permission,
  check_arguments, reserve, allow_request,
}

result-cases :
    {A : Type 0} (x : Result A) → ((e : String) × (x ≡ failed e)) ⊎ ((a : A) × (x ≡ done a))
result-cases (failed e) = inl (e, refl)
result-cases (done a) = inr (a, refl)

-- A guard on the wait: never nothing, whatever the reply.
retry_after_of-positive :
    (r : RedisLimiter) (parsed : CheckResult) (reset tpm_reset : ℤ)
    → 0 < r.window
    → pos 0 <ℤ retry_after_of r parsed reset tpm_reset
unfolding retry_after_of
retry_after_of-positive r parsed reset tpm_reset h = ground (arith, h)

reservation_of-positive :
    (r : RedisLimiter) (rpm tpm : ℤ) (now : ℕ) (parsed : CheckResult)
    → 0 < r.window
    → (reservation_of r rpm tpm now parsed).allowed ≡ false
    → pos 0 <ℤ (reservation_of r rpm tpm now parsed).retry_after
unfolding reservation_of
reservation_of-positive r rpm tpm now parsed h shut =
    rw shut (retry_after_of-positive r parsed _ _ h)

-- What is left of a limit is between nothing and the limit, for every use that is not below 0.
clamp_remaining-bounds :
    (limit : ℤ) (used : ℕ)
    → limit ≤ℤ pos max_int
    → (pos 0 ≤ℤ clamp_remaining limit (pos used))
      × (pos 0 <ℤ limit → clamp_remaining limit (pos used) ≤ℤ limit)
unfolding clamp_remaining sub_int wrap_int minus
clamp_remaining-bounds (negsuc n) used h = ground (arith, h)
clamp_remaining-bounds (pos n) used h = ground (arith, h)

-- What is left of a limit, counted without a clamp.
clamp_remaining-left :
    (limit : ℤ) (used : ℕ)
    → limit ≤ℤ pos max_int
    → clamp_remaining limit (pos used) ≡ pos (pos_part limit - used)
unfolding clamp_remaining sub_int wrap_int minus
clamp_remaining-left (negsuc n) used h = ground (arith, h)
clamp_remaining-left (pos n) used h = ground (arith, h)

abbrev Careful : Result Reservation → Type 0
Careful x = (permission x).0 ≡ false → ((permission x).2 ≡ none) × (pos 0 <ℤ (permission x).1)

parsed-Careful :
    (r : RedisLimiter) (rpm tpm : ℤ) (now : ℕ) (values : List Value)
    → 0 < r.window
    → Careful (outcome r rpm tpm now (done values))
unfolding outcome permission
parsed-Careful r rpm tpm now values h = elim (result-cases (parse_check_result values)) [
  | inl (e, bad) ↦ rw (outcome, bad) (λ shut. ground (arith, shut))
  | inr (parsed, good) ↦
      rw (outcome, good) (λ shut. (refl, reservation_of-positive r rpm tpm now parsed h shut))
]

outcome-Careful :
    (r : RedisLimiter) (rpm tpm : ℤ) (now : ℕ) (x : Result (List Value))
    → 0 < r.window
    → Careful (outcome r rpm tpm now x)
unfolding outcome permission
outcome-Careful r rpm tpm now (failed e) h = λ shut. ground (arith, shut)
outcome-Careful r rpm tpm now (done values) h = parsed-Careful r rpm tpm now values h

-- Whatever the client and the service do, a request is refused only without an error and with a
-- time to wait above 0; so every failure of the service lets the request pass. The window is not empty.
pub allow_request_fails_open :
    {S : Type 0} (client : Client S) (instance_id : String) (r : RedisLimiter) (w : World S)
    (key : KeyInfo) (now : ℕ)
    → 0 < r.window
    → (allow_request client instance_id r w key now).1.0 ≡ false
    → ((allow_request client instance_id r w key now).1.2 ≡ none)
      × (pos 0 <ℤ (allow_request client instance_id r w key now).1.1)
unfolding allow_request reserve permission
allow_request_fails_open client instance_id r w key now h =
    elim (Bool-cases (leb_ℤ (effective_rpm r key) (pos 0) && leb_ℤ (effective_tpm r key) (pos 0))) [
      | inl free ↦ rw free (λ shut. ground (arith, shut))
      | inr limited ↦ rw limited (
          outcome-Careful r (effective_rpm r key) (effective_tpm r key) now
            (client.run_check w.store (
              check_arguments client instance_id r key now
                (new_req_id instance_id w.counter now).1)).1
            h)
    ]

-- The script's reply survives its way through the client: with a limit configured, and limits that
-- are ints, the limiter's decision is the script's, the store is the script's, the limits it reports
-- are those it asked for, and what it says is left of each is the limit less the script's count, but
-- at least 0.
pub reserve-scripts :
    {S : Type 0} (z : SortedSets S) (instance_id : String) (r : RedisLimiter) (w : World S)
    (key : KeyInfo) (now : ℕ)
    → (leb_ℤ (effective_rpm r key) (pos 0) && leb_ℤ (effective_tpm r key) (pos 0)) ≡ false
    → effective_rpm r key ≤ℤ pos max_int
    → effective_tpm r key ≤ℤ pos max_int
    → let id = new_req_id instance_id w.counter now in
      let out = check z w.store (check_arguments (scripts z) instance_id r key now id.1) in
      (res : Reservation) × (reserve (scripts z) instance_id r w key now
        ≡ (record { store = out.0; counter = id.0 }, done res))
      × (res.allowed ≡ eqb_ℤ (pos out.1.allowed) (pos 1))
      × (res.limit ≡ effective_rpm r key)
      × (res.remaining ≡ pos (pos_part (effective_rpm r key) - out.1.rpm_used))
      × (res.tpm_limit ≡ effective_tpm r key)
      × (res.tpm_remaining ≡ pos (pos_part (effective_tpm r key) - out.1.tpm_used))
unfolding reserve scripts outcome parse_check_result fields_of of_fields reservation_of
reserve-scripts z instance_id r w key now limited rpm tpm = rw limited (
  _,
  refl,
  refl,
  refl,
  clamp_remaining-left (effective_rpm r key) _ rpm,
  refl,
  clamp_remaining-left (effective_tpm r key) _ tpm,
)

-- The request set and the token set of a key are two sets.
pub keys_apart : (key : KeyInfo) → tpm_key key ≢ rpm_key key
unfolding tpm_key rpm_key str_eq
keys_apart key e =
    let bare : ":tpm" ≡ ":rpm" = append_cancel_left key.key_id _ _ (
      append_cancel_left ":" _ _
        (append_cancel_left key.org_id _ _ (append_cancel_left "ratelimit:" _ _ e))) in
    ground (arith, ap (str_eq ":rpm") bare)
