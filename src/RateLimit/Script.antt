-- ===== src/RateLimit/Script.antt =====
-- internal/ratelimit/check.lua and tpm_record.lua. Times are milliseconds; each script is one step.
use Prim.Native.Char.{code}
use Prim.Native.String.{◌++◌}
use llm_gateway.Base.{
  minus, ℕ, ◌+◌, ◌-◌, ◌*◌, ◌/◌, ◌&&◌, Option, none, some, List, [], ◌∷◌, ℤ, pos, ltb_ℤ, leb_ℤ, leb,
  ◌==◌, itoa, String, length, if◌then◌else◌,
}
use llm_gateway.RateLimit.Redis.{Entry, SortedSets}

-- The text behind the last colon, `string.find(m, ':[^:]*$')`.
unfoldable pub after_colon : String → Option String
after_colon String.[] = none
after_colon (String.◌∷◌ c s) = elim (after_colon s) [
  | some r ↦ some r
  | none ↦ if code c == b':' then some s else none
]

-- `tonumber`, of the decimal notation in which the members are written.
unfoldable pub read_digits : ℕ → String → Option ℕ
read_digits acc String.[] = some acc
read_digits acc (String.◌∷◌ c s) =
    let rest = read_digits (acc * 10 + (code c - b'0')) s in
    if leb b'0' (code c) && leb (code c) b'9' then rest else none

unfoldable pub tokens_of : String → Option ℕ
unfolding after_colon read_digits
tokens_of m = elim (after_colon m) [ none ↦ none | some r ↦ read_digits 0 r ]

abbrev or_zero : Option ℕ → ℕ
or_zero none = 0
or_zero (some n) = n

-- The loop over the members.
unfoldable pub token_total : List Entry → ℕ
token_total [] = 0
token_total (e ∷ es) = or_zero (tokens_of e.member) + token_total es

abbrev oldest : ℕ → List Entry → ℕ
oldest now [] = now
oldest now (e ∷ es) = e.score

-- math.ceil(window * 2 / 1000)
abbrev pub ttl_seconds : ℕ → ℕ
ttl_seconds window = (window * 2 + 999) / 1000

-- {allowed, reject_code, rpm_used, rpm_oldest_ms, tpm_used, tpm_oldest_ms}
pub record CheckReply : Type 0 where
  pub allowed : ℕ
  pub reject_code : ℕ
  pub rpm_used : ℕ
  pub rpm_oldest_ms : ℕ
  pub tpm_used : ℕ
  pub tpm_oldest_ms : ℕ

pub record Arguments : Type 0 where
  pub rpm_key : String
  pub tpm_key : String
  pub now : ℕ
  pub window : ℕ
  pub rpm_lim : ℤ
  pub tpm_lim : ℤ
  pub req_id : String

module _ {S : Type 0} (z : SortedSets S) where
  unfoldable pub oldest_score : S → String → ℕ → ℕ
  oldest_score s key now = oldest now (z.zrange s key)

  unfoldable pub prune : S → String → Arguments → S
  prune s key a = z.zremrangebyscore s key (minus a.now a.window)

  -- The last part: the tick is added, and the request passes.
  unfoldable pub admit : S → Arguments → ℕ → ℕ → ℕ → S × CheckReply
  unfolding oldest_score
  admit s a rpm_count tpm_total tpm_oldest =
      let s' =
        if ltb_ℤ (pos 0) a.rpm_lim
        then z.expire (z.zadd s a.rpm_key a.now a.req_id) a.rpm_key (ttl_seconds a.window)
        else s in
      (
        s',
        record {
          allowed = 1;
          reject_code = 0;
          rpm_used = rpm_count + 1;
          rpm_oldest_ms = oldest_score s' a.rpm_key a.now;
          tpm_used = tpm_total;
          tpm_oldest_ms = tpm_oldest;
        },
      )

  -- The token part, with the number of live requests.
  unfoldable pub check_tokens : S → Arguments → ℕ → S × CheckReply
  unfolding prune admit oldest_score
  check_tokens s a rpm_count =
      let t = prune s a.tpm_key a in
      let total = token_total (z.zrange t a.tpm_key) in
      let tpm_oldest = oldest_score t a.tpm_key a.now in
      if ltb_ℤ (pos 0) a.tpm_lim
      then if leb_ℤ a.tpm_lim (pos total)
        then (
          t,
          record {
            allowed = 0;
            reject_code = 2;
            rpm_used = rpm_count;
            rpm_oldest_ms = oldest_score t a.rpm_key a.now;
            tpm_used = total;
            tpm_oldest_ms = tpm_oldest;
          },
        )
        else admit t a rpm_count total tpm_oldest
      else admit s a rpm_count 0 a.now

  unfoldable pub check : S → Arguments → S × CheckReply
  unfolding prune oldest_score
  check s a =
      let t = prune s a.rpm_key a in
      let rpm_count = length (z.zrange t a.rpm_key) in
      if ltb_ℤ (pos 0) a.rpm_lim && leb_ℤ a.rpm_lim (pos rpm_count)
      then (
        t,
        record {
          allowed = 0;
          reject_code = 1;
          rpm_used = rpm_count;
          rpm_oldest_ms = oldest_score t a.rpm_key a.now;
          tpm_used = 0;
          tpm_oldest_ms = a.now;
        },
      )
      else check_tokens t a rpm_count

  -- tpm_record.lua
  unfoldable pub tpm_record : S → String → ℕ → ℕ → String → ℤ → S
  tpm_record s key now window req_id tokens =
      z.expire (z.zadd s key now (req_id ++ (":" ++ itoa tokens))) key (window * 2)
