-- ===== src/RateLimit/Limiter.antt =====
-- internal/ratelimit/limiter.go: limits per API key by the scripts. A run of a script fails with a
-- text, or gives the script's effect and reply.
use Prim.Native.String.{◌++◌}
use llm_gateway.Base.{
  minus, ℕ, ◌+◌, ◌*◌, ◌/◌, ◌%◌, ◌^◌, Bool, true, ◌&&◌, ◌||◌, Option, none, some, List, [], ◌∷◌, ℤ,
  pos, pos_part, neg_part, ltb_ℤ, leb_ℤ, eqb_ℤ, wrap_int, times_int, itoa, String, length, second,
  ◌==◌, if◌then◌else◌,
}
use llm_gateway.Auth.{KeyInfo}
use llm_gateway.RateLimit.Redis.{SortedSets}
use llm_gateway.RateLimit.Script.{Arguments, CheckReply, check, tpm_record}

pub record Reservation : Type 0 where
  pub allowed : Bool
  pub limit : ℤ
  pub remaining : ℤ
  pub reset : ℤ
  pub tpm_limit : ℤ
  pub tpm_remaining : ℤ
  pub tpm_reset : ℤ
  pub retry_after : ℤ

-- NewRedis; the window is in nanoseconds.
pub record RedisLimiter : Type 0 where
  pub window : ℕ
  pub default_rpm : ℤ
  pub default_tpm : ℤ

abbrev pub new_redis : ℤ → ℤ → RedisLimiter
new_redis rpm tpm = record { window = 60 * second; default_rpm = rpm; default_tpm = tpm }

unfoldable pub effective_rpm : RedisLimiter → KeyInfo → ℤ
effective_rpm r key = if ltb_ℤ (pos 0) key.rpm then key.rpm else r.default_rpm

unfoldable pub effective_tpm : RedisLimiter → KeyInfo → ℤ
effective_tpm r key = if ltb_ℤ (pos 0) key.tpm then key.tpm else r.default_tpm

unfoldable pub rpm_key : KeyInfo → String
rpm_key key = "ratelimit:" ++ (key.org_id ++ (":" ++ (key.key_id ++ ":rpm")))

unfoldable pub tpm_key : KeyInfo → String
tpm_key key = "ratelimit:" ++ (key.org_id ++ (":" ++ (key.key_id ++ ":tpm")))

-- The id takes the next value of the process's counter, a uint64.
unfoldable pub new_req_id : String → ℕ → ℕ → ℕ × String
new_req_id instance_id counter now =
    let n = (counter + 1) % 2 ^ 64 in
    (n, instance_id ++ ("-" ++ (itoa (pos now) ++ ("-" ++ itoa (pos n)))))

-- A difference on int64.
unfoldable pub sub_int : ℤ → ℤ → ℤ
sub_int a b = wrap_int (minus (pos_part a + neg_part b) (pos_part b + neg_part a))

unfoldable pub clamp_remaining : ℤ → ℤ → ℤ
unfolding sub_int
clamp_remaining limit used =
    if leb_ℤ limit (pos 0) || leb_ℤ limit used then pos 0 else sub_int limit used

unfoldable pub compute_reset : ℤ → ℤ → ℤ → ℤ
unfolding sub_int times_int
compute_reset now oldest window =
    let remaining = sub_int window (sub_int now oldest) in
    times_int (if ltb_ℤ remaining (pos 0) then pos 0 else remaining) 1000000

-- What a script returns: an integer, or a value of the type named.
pub data Value : Type 0 where
  int64 : ℤ → Value
  other : String → Value

pub record CheckResult : Type 0 where
  pub allowed : Bool
  pub reject : ℤ
  pub rpm_used : ℤ
  pub rpm_oldest_ms : ℤ
  pub tpm_used : ℤ
  pub tpm_oldest_ms : ℤ

pub data Result (A : Type 0) : Type 0 where
  failed : String → Result A
  done : A → Result A

-- The loop over the values; it stops at the first that is no integer.
unfoldable pub fields_of : List String → List Value → Result (List ℤ)
fields_of names [] = done []
fields_of [] (v ∷ vs) = done []
fields_of (name ∷ names) (other t ∷ vs) =
    failed ("check script: " ++ (name ++ (" not int64 (" ++ (t ++ ")"))))
fields_of (name ∷ names) (int64 n ∷ vs) = elim (fields_of names vs) [
  | failed e ↦ failed e
  | done ns ↦ done (n ∷ ns)
]

unfoldable pub of_fields : List ℤ → Result CheckResult
of_fields (a ∷ c ∷ ru ∷ ro ∷ tu ∷ to ∷ []) = done (record {
  allowed = eqb_ℤ a (pos 1);
  reject = c;
  rpm_used = ru;
  rpm_oldest_ms = ro;
  tpm_used = tu;
  tpm_oldest_ms = to;
})
of_fields ns = failed ""

unfoldable pub parse_check_result : List Value → Result CheckResult
unfolding fields_of of_fields
parse_check_result out =
    let ns =
      fields_of
        ("allowed" ∷ "code" ∷ "rpm_used" ∷ "rpm_oldest_ms" ∷ "tpm_used" ∷ "tpm_oldest_ms" ∷ [])
        out in
    if length out == 6
    then elim ns [ failed e ↦ failed e | done xs ↦ of_fields xs ]
    else failed ("check script: got " ++ (itoa (pos (length out)) ++ " values, want 6"))

abbrev pub values_of : CheckReply → List Value
values_of r =
    int64 (pos r.allowed)
    ∷ int64 (pos r.reject_code)
    ∷ int64 (pos r.rpm_used)
    ∷ int64 (pos r.rpm_oldest_ms)
    ∷ int64 (pos r.tpm_used)
    ∷ int64 (pos r.tpm_oldest_ms)
    ∷ []

-- redis.Script.Run through the client; a failed run may have had its effect or not.
pub record Client (S : Type 0) : Type 0 where
  pub run_check : S → Arguments → S × Result (List Value)
  pub run_record : S → String → ℕ → ℕ → String → ℤ → S × Option String

-- The client whose service is there: the scripts themselves.
unfoldable pub scripts : {S : Type 0} → SortedSets S → Client S
scripts z = record {
  run_check = λ s a. let out = check z s a in (out.0, done (values_of out.1));
  run_record = λ s key now window id tokens. (tpm_record z s key now window id tokens, none);
}

-- The store, and the process's counter of request ids.
pub record World (S : Type 0) : Type 0 where
  pub store : S
  pub counter : ℕ

abbrev window_ms : RedisLimiter → ℕ
window_ms r = r.window / 1000000

abbrev pub unlimited : Reservation
unlimited = record {
  allowed = true;
  limit = pos 0;
  remaining = pos 0;
  reset = pos 0;
  tpm_limit = pos 0;
  tpm_remaining = pos 0;
  tpm_reset = pos 0;
  retry_after = pos 0;
}

-- The switch on the reject code, and the guard after it.
unfoldable pub retry_after_of : RedisLimiter → CheckResult → ℤ → ℤ → ℤ
retry_after_of r parsed reset tpm_reset =
    let chosen =
      if eqb_ℤ parsed.reject (pos 1)
      then reset
      else if eqb_ℤ parsed.reject (pos 2)
      then tpm_reset
      else pos 0 in
    if leb_ℤ chosen (pos 0) then pos r.window else chosen

unfoldable pub reservation_of : RedisLimiter → ℤ → ℤ → ℕ → CheckResult → Reservation
unfolding compute_reset clamp_remaining retry_after_of
reservation_of r rpm tpm now parsed =
    let reset = compute_reset (pos now) parsed.rpm_oldest_ms (pos (window_ms r)) in
    let tpm_reset = compute_reset (pos now) parsed.tpm_oldest_ms (pos (window_ms r)) in
    record {
      allowed = parsed.allowed;
      limit = rpm;
      remaining = clamp_remaining rpm parsed.rpm_used;
      reset = reset;
      tpm_limit = tpm;
      tpm_remaining = clamp_remaining tpm parsed.tpm_used;
      tpm_reset = tpm_reset;
      retry_after = if parsed.allowed then pos 0 else retry_after_of r parsed reset tpm_reset;
    }

-- Of a script's outcome.
unfoldable pub outcome : RedisLimiter → ℤ → ℤ → ℕ → Result (List Value) → Result Reservation
unfolding parse_check_result reservation_of
outcome r rpm tpm now (failed e) = failed e
outcome r rpm tpm now (done values) = elim (parse_check_result values) [
  | failed e ↦ failed e
  | done parsed ↦ done (reservation_of r rpm tpm now parsed)
]

-- Allowed, the time to wait, and the error.
unfoldable pub permission : Result Reservation → Bool × ℤ × Option String
permission (failed e) = (true, pos 0, some e)
permission (done res) = (res.allowed, res.retry_after, none)

module _ {S : Type 0} (client : Client S) (instance_id : String) (r : RedisLimiter) where
  abbrev pub check_arguments : KeyInfo → ℕ → String → Arguments
  check_arguments key now id = record {
    rpm_key = rpm_key key;
    tpm_key = tpm_key key;
    now = now;
    window = window_ms r;
    rpm_lim = effective_rpm r key;
    tpm_lim = effective_tpm r key;
    req_id = id;
  }

  unfoldable pub reserve : World S → KeyInfo → ℕ → World S × Result Reservation
  unfolding new_req_id outcome effective_rpm effective_tpm
  reserve w key now =
      let rpm = effective_rpm r key in
      let tpm = effective_tpm r key in
      let id = new_req_id instance_id w.counter now in
      let out = client.run_check w.store (check_arguments key now id.1) in
      if leb_ℤ rpm (pos 0) && leb_ℤ tpm (pos 0)
      then (w, done unlimited)
      else (record { store = out.0; counter = id.0 }, outcome r rpm tpm now out.1)

  unfoldable pub allow_request : World S → KeyInfo → ℕ → World S × (Bool × ℤ × Option String)
  unfolding reserve permission
  allow_request w key now = let out = reserve w key now in (out.0, permission out.1)

  unfoldable pub record_tokens : World S → KeyInfo → ℤ → ℕ → World S × Option String
  unfolding new_req_id effective_tpm
  record_tokens w key tokens now =
      let id = new_req_id instance_id w.counter now in
      let out = client.run_record w.store (tpm_key key) now (window_ms r) id.1 tokens in
      if leb_ℤ tokens (pos 0)
      then (w, none)
      else if leb_ℤ (effective_tpm r key) (pos 0)
      then (w, none)
      else (record { store = out.0; counter = id.0 }, out.1)
