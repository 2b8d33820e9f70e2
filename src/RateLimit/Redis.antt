-- ===== src/RateLimit/Redis.antt =====
-- The sorted sets of Redis that the scripts of internal/ratelimit use, as an interface: the service
-- is not part of the repository.
use llm_gateway.Base.{
  ℕ, suc, ◌<◌, ◌≡◌, ◌≢◌, Bool, ◌&&◌, List, ℤ, pos, ltb_ℤ, String, str_eq, countb, if◌then◌else◌,
}

-- A member with its score.
pub record Entry : Type 0 where
  pub score : ℕ
  pub member : String

-- `S` is the store. A script runs as one step, so the commands are functions of it.
pub record SortedSets (S : Type 0) : Type 0 where
  -- ZRANGE key 0 -1 WITHSCORES, by rising score
  pub zrange : S → String → List Entry
  -- ZREMRANGEBYSCORE key -inf bound
  pub zremrangebyscore : S → String → ℤ → S
  -- ZADD key score member
  pub zadd : S → String → ℕ → String → S
  -- EXPIRE key seconds
  pub expire : S → String → ℕ → S

abbrev pub has_member : String → Entry → Bool
has_member m e = str_eq e.member m

-- What the commands do to the sets, as counts of the entries with any property.
pub record SortedSetLaws {S : Type 0} (z : SortedSets S) : Type 0 where
  pub count_removed :
      (s : S) (k : String) (bound : ℤ) (p : Entry → Bool)
      → countb p (z.zrange (z.zremrangebyscore s k bound) k)
        ≡ countb (λ e. ltb_ℤ bound (pos e.score) && p e) (z.zrange s k)
  pub count_added :
      (s : S) (k : String) (score : ℕ) (m : String) (p : Entry → Bool)
      → countb (has_member m) (z.zrange s k) ≡ 0
      → countb p (z.zrange (z.zadd s k score m) k) ≡ (
          if p (record { score = score; member = m })
          then suc (countb p (z.zrange s k))
          else countb p (z.zrange s k))
  pub other_removed :
      (s : S) (k j : String) (bound : ℤ)
      → k ≢ j
      → z.zrange (z.zremrangebyscore s k bound) j ≡ z.zrange s j
  pub other_added :
      (s : S) (k j : String) (score : ℕ) (m : String)
      → k ≢ j
      → z.zrange (z.zadd s k score m) j ≡ z.zrange s j
  -- a script runs within the seconds that a key is given
  pub expire_keeps :
      (s : S) (k j : String) (n : ℕ) → 0 < n → z.zrange (z.expire s k n) j ≡ z.zrange s j
  pub expire_other :
      (s : S) (k j : String) (n : ℕ) → k ≢ j → z.zrange (z.expire s k n) j ≡ z.zrange s j
