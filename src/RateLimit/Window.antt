-- ===== src/RateLimit/Window.antt =====
-- The sliding window of internal/ratelimit over a history of checks and token records.
use llm_gateway.Base.{
  minus, ℕ, suc, ◌<◌, ◌≡◌, refl, sym, ◌∙◌, ap, ◌≢◌, inl, inr, Bool, true, false, ◌&&◌, List, [],
  ◌∷◌, arith, ℤ, pos, ltb_ℤ, leb_ℤ, length, countb, if◌then◌else◌, Bool-cases,
}
use llm_gateway.RateLimit.Redis.{Entry, SortedSets, SortedSetLaws, has_member}
use llm_gateway.RateLimit.Script.{
  Arguments, CheckReply, token_total, ttl_seconds, prune, admit, check_tokens, check,
}

module _ {A : Type 0} where
  pub countb-ext :
      (p q : A → Bool) (xs : List A) → ((x : A) → p x ≡ q x) → countb p xs ≡ countb q xs
  countb-ext p q [] h = refl
  countb-ext p q (x ∷ xs) h = ground (arith, h x, countb-ext p q xs h)

  countb-length : (xs : List A) → countb (λ x. true) xs ≡ length xs
  countb-length [] = refl
  countb-length (x ∷ xs) = omega (arith, countb-length xs)

  pub countb-zero-&& :
      (p q : A → Bool) (xs : List A) → countb q xs ≡ 0 → countb (λ x. p x && q x) xs ≡ 0
  countb-zero-&& p q [] h = refl
  countb-zero-&& p q (x ∷ xs) h = ground (arith, countb-zero-&& p q xs)

module _ {S : Type 0} (z : SortedSets S) (laws : SortedSetLaws z) where
  -- The live entries of the request set at the time of a check.
  abbrev pub is_live : Arguments → Entry → Bool
  is_live a e = ltb_ℤ (minus a.now a.window) (pos e.score)

  abbrev pub live_count : S → Arguments → (Entry → Bool) → ℕ
  live_count s a p = countb (λ e. is_live a e && p e) (z.zrange s a.rpm_key)

  -- What a check leaves of the request set, for any property of its entries.
  pub data Verdict (s : S) (a : Arguments) (t : S) (r : CheckReply) : Type 0 where
    rejects :
        r.allowed ≡ 0
        → ((p : Entry → Bool) → countb p (z.zrange t a.rpm_key) ≡ live_count s a p)
        → Verdict s a t r
    admits :
        r.allowed ≡ 1
        → ltb_ℤ (pos (live_count s a (λ e. true))) a.rpm_lim ≡ true
        → ((p : Entry → Bool)
            → countb p (z.zrange t a.rpm_key) ≡ (
                if p (record { score = a.now; member = a.req_id })
                then suc (live_count s a p)
                else live_count s a p))
        → Verdict s a t r

  admit-Verdict :
      (s t : S) (a : Arguments) (n m k : ℕ)
      → 0 < a.window
      → ltb_ℤ (pos 0) a.rpm_lim ≡ true
      → ltb_ℤ (pos (live_count s a (λ e. true))) a.rpm_lim ≡ true
      → countb (has_member a.req_id) (z.zrange s a.rpm_key) ≡ 0
      → ((p : Entry → Bool) → countb p (z.zrange t a.rpm_key) ≡ live_count s a p)
      → Verdict s a (admit z t a n m k).0 (admit z t a n m k).1
  unfolding admit
  admit-Verdict s t a n m k wide limited room fresh same = rw limited (
      admits refl room (λ p.
        let none_yet : countb (has_member a.req_id) (z.zrange t a.rpm_key) ≡ 0 =
          same (has_member a.req_id)
          ∙ countb-zero-&& (is_live a) (has_member a.req_id) (z.zrange s a.rpm_key) fresh in
        ap (countb p) (
          laws.expire_keeps (z.zadd t a.rpm_key a.now a.req_id) a.rpm_key a.rpm_key
            (ttl_seconds a.window) (omega (arith, wide)))
        ∙ (laws.count_added t a.rpm_key a.now a.req_id p none_yet ∙ rw (same p))))

  check_tokens-Verdict :
      (s t : S) (a : Arguments) (n : ℕ)
      → 0 < a.window
      → a.tpm_key ≢ a.rpm_key
      → ltb_ℤ (pos 0) a.rpm_lim ≡ true
      → ltb_ℤ (pos (live_count s a (λ e. true))) a.rpm_lim ≡ true
      → countb (has_member a.req_id) (z.zrange s a.rpm_key) ≡ 0
      → ((p : Entry → Bool) → countb p (z.zrange t a.rpm_key) ≡ live_count s a p)
      → Verdict s a (check_tokens z t a n).0 (check_tokens z t a n).1
  unfolding check_tokens prune
  check_tokens-Verdict s t a n wide apart limited room fresh same =
      let bound = minus a.now a.window in
      let pruned = z.zremrangebyscore t a.tpm_key bound in
      let same' : (p : Entry → Bool) → countb p (z.zrange pruned a.rpm_key) ≡ live_count s a p =
        λ p. ap (countb p) (laws.other_removed t a.tpm_key a.rpm_key bound apart) ∙ same p in
      elim (Bool-cases (ltb_ℤ (pos 0) a.tpm_lim)) [
        | inr off ↦ rw off (admit-Verdict s t a n 0 a.now wide limited room fresh same)
        | inl on ↦
            elim (Bool-cases (leb_ℤ a.tpm_lim (pos (token_total (z.zrange pruned a.tpm_key))))) [
              | inl over ↦ rw (on, over) (rejects refl same')
              | inr under ↦
                  rw (on, under) (admit-Verdict s pruned a n _ _ wide limited room fresh same')
            ]
      ]

  -- With a window that is not empty, a request limit, apart keys and a fresh request id: a rejected check leaves in the request
  -- set exactly its live entries; an admitted one found fewer than the limit alive, and leaves
  -- those with the request's own entry added, whatever the token part did.
  pub check-Verdict :
      (s : S) (a : Arguments)
      → 0 < a.window
      → a.tpm_key ≢ a.rpm_key
      → ltb_ℤ (pos 0) a.rpm_lim ≡ true
      → countb (has_member a.req_id) (z.zrange s a.rpm_key) ≡ 0
      → Verdict s a (check z s a).0 (check z s a).1
  unfolding check prune
  check-Verdict s a wide apart limited fresh =
      let bound = minus a.now a.window in
      let t = z.zremrangebyscore s a.rpm_key bound in
      let same : (p : Entry → Bool) → countb p (z.zrange t a.rpm_key) ≡ live_count s a p =
        λ p. laws.count_removed s a.rpm_key bound p in
      let counted : length (z.zrange t a.rpm_key) ≡ live_count s a (λ e. true) =
        sym (countb-length (z.zrange t a.rpm_key)) ∙ same (λ e. true) in
      elim (Bool-cases (leb_ℤ a.rpm_lim (pos (length (z.zrange t a.rpm_key))))) [
        | inl over ↦ rw (limited, over) (rejects refl same)
        | inr under ↦
            rw (limited, under)
              (check_tokens-Verdict s t a _ wide apart limited
                (rw counted at (below a.rpm_lim _ under)) fresh same)
      ]
    where
      below : (l : ℤ) (n : ℕ) → leb_ℤ l (pos n) ≡ false → ltb_ℤ (pos n) l ≡ true
      below l n h = ground arith
