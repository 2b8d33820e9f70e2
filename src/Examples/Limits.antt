-- ===== src/Examples/Limits.antt =====
-- Runs of the rate limiter on a concrete store.
use llm_gateway.Base.{
  ◌≤◌, ◌≡◌, ◌≢◌, refl, ap, Bool, false, ◌&&◌, Option, none, List, [], ◌∷◌, arith, ℤ, pos, ◌<ℤ◌,
  leb_ℤ, eqb_ℤ, String, ◌-◌, ◌≤ℤ◌, pos_part, max_int, str_eq, countb,
}
use llm_gateway.Auth.{KeyInfo}
use llm_gateway.RateLimit.Script.{check, Arguments}
use llm_gateway.RateLimit.Redis.{has_member}
use llm_gateway.RateLimit.Window.{Verdict, check-Verdict}
use llm_gateway.RateLimit.History.{
  Event, checked, recorded, IsHistory, begins, asks, records, counts_at, replay,
  replay_within_limit, arguments,
}
use llm_gateway.RateLimit.Limiter.{
  RedisLimiter, new_redis, scripts, World, reserve, allow_request, done, Reservation, new_req_id,
  check_arguments, effective_rpm, effective_tpm, rpm_key,
}
use llm_gateway.RateLimit.Answers.{allow_request_fails_open, reserve-scripts}
use llm_gateway.Examples.Stores.{Sets, sets, sets-SortedSetLaws, under, without}

-- Two requests, a token record and a third request, the limit being two in a second.
abbrev events : List Event
events = checked 1900 "c" ∷ recorded 1500 "b" (pos 12) ∷ checked 1400 "b" ∷ checked 1000 "a" ∷ []

events-IsHistory : IsHistory events
unfolding str_eq
events-IsHistory =
    asks _ _
      (records _ _ _ (asks _ _ (asks _ _ begins tt refl) (omega arith, tt) refl)
        (omega arith, (omega arith, tt)))
      (omega arith, (omega arith, (omega arith, tt))) refl

nothing_yet : (k : String) → sets.zrange [] k ≡ []
unfolding under
nothing_yet k = refl

texts_apart : ◌≢◌ {A = String} "t" "r"
unfolding str_eq
texts_apart e = ground (arith, ap (str_eq "t") e)

replay_within_limit_example :
    countb (counts_at 1000 1950) (replay sets "r" "t" 1000 (pos 2) (pos 0) [] events).1 ≤ 2
replay_within_limit_example =
    replay_within_limit sets sets-SortedSetLaws "r" "t" 1000 2 (pos 0) [] events 1950 texts_apart
      (omega arith) (nothing_yet "r") events-IsHistory
      (omega arith, (omega arith, (omega arith, (omega arith, tt))))

abbrev someone : KeyInfo
someone = record {
  key_id = "k";
  org_id = "o";
  name = "someone";
  rpm = pos 0;
  tpm = pos 0;
  scopes = [];
  expires_at = none;
}

-- The service is there, and the organisation's request limit is one.
abbrev limiter : RedisLimiter
limiter = new_redis (pos 1) (pos 0)

abbrev busy : World Sets
busy = record {
  store = ("ratelimit:o:k:rpm", record { score = 100000; member = "x" }) ∷ [];
  counter = 4;
}

abbrev answer : World Sets × (Bool × ℤ × Option String)
answer = allow_request (scripts sets) "i" limiter busy someone 110000

refused_now : answer.1.0 ≡ false
unfolding allow_request scripts check rpm_key under without str_eq llm_gateway.Base.minus
refused_now = refl

allow_request_fails_open_example :
    ((allow_request (scripts sets) "i" limiter busy someone 110000).1.2 ≡ none)
    × (pos 0 <ℤ (allow_request (scripts sets) "i" limiter busy someone 110000).1.1)
allow_request_fails_open_example =
    allow_request_fails_open (scripts sets) "i" limiter busy someone 110000 (omega arith)
      refused_now

limited_now :
    (leb_ℤ (effective_rpm limiter someone) (pos 0) && leb_ℤ (effective_tpm limiter someone) (pos 0))
    ≡ false
unfolding effective_rpm effective_tpm
limited_now = refl

rpm_fits : effective_rpm limiter someone ≤ℤ pos max_int
unfolding effective_rpm
rpm_fits = ground arith

tpm_fits : effective_tpm limiter someone ≤ℤ pos max_int
unfolding effective_tpm
tpm_fits = ground arith

reserve-scripts_example :
    let id = new_req_id "i" busy.counter 110000 in
    let out =
      check sets busy.store (check_arguments (scripts sets) "i" limiter someone 110000 id.1) in
    (res : Reservation) × (reserve (scripts sets) "i" limiter busy someone 110000
      ≡ (record { store = out.0; counter = id.0 }, done res))
    × (res.allowed ≡ eqb_ℤ (pos out.1.allowed) (pos 1))
    × (res.limit ≡ effective_rpm limiter someone)
    × (res.remaining ≡ pos (pos_part (effective_rpm limiter someone) - out.1.rpm_used))
    × (res.tpm_limit ≡ effective_tpm limiter someone)
    × (res.tpm_remaining ≡ pos (pos_part (effective_tpm limiter someone) - out.1.tpm_used))
reserve-scripts_example =
    reserve-scripts sets "i" limiter busy someone 110000 limited_now rpm_fits tpm_fits

abbrev arguments_now : Arguments
arguments_now = arguments sets "r" "t" 1000 (pos 2) (pos 5) 1400 "c"

abbrev half_full : Sets
half_full =
    ("r", record { score = 1000; member = "a" })
    ∷ ("t", record { score = 200; member = "a:9" })
    ∷ []

new_here : countb (has_member "c") (sets.zrange half_full "r") ≡ 0
unfolding under str_eq
new_here = refl

check-Verdict_example :
    Verdict sets sets-SortedSetLaws half_full arguments_now
      (check sets half_full arguments_now).0
      (check sets half_full arguments_now).1
check-Verdict_example =
    check-Verdict sets sets-SortedSetLaws half_full arguments_now (omega arith) texts_apart refl
      new_here
