-- ===== src/Provider/Retry/Outcomes.antt =====
-- How a retried call of internal/provider/health_decorator.go ends, and what it records.
use llm_gateway.Base.{
  ℕ, zero, suc, ◌+◌, ◌-◌, ◌≤◌, ◌<◌, ◌≡◌, refl, sym, ◌⊎◌, inl, inr, true, false, Option, none, some,
  arith, pos, ap, ◌∙◌, Bool-cases,
}
use llm_gateway.Base.{Arithmetic}
use mathlib.Core.Path.{subst}
use native.Mathlib.Decide.{dec_lt, ℕ_discrete}
use llm_gateway.Model.Errors.{Error, context_error}
use llm_gateway.Provider.Health.{ProviderHealth, record_success, record_failure}
use llm_gateway.Provider.Retry.{
  RetryConfig, ok, err, Surroundings, replied, failed, Run, is_retryable, record_health_success,
  record_health_failure, attempts, rounds, chat_completion,
}
use llm_gateway.Provider.Retry.Loop.{
  count_calls, Outcome-cases, Retries, IsReached, SameEnd, attempts-calls-le, attempts-at,
  attempts-answered, attempts-failed, attempts-cut,
}

-- The three ways in which a call with `m` retries ends: after `n` attempts that were worth another
-- try, by an answer, by an error that is final, or in the wait before attempt `n`.
pub data Ending {A : Type 0} (s : Surroundings A) (m : ℕ) : Type 0 where
  succeeds :
      (n : ℕ) (r : A)
      → n ≤ m
      → ((i : ℕ) → i < n → Retries s i)
      → IsReached s n
      → s.call n ≡ ok r
      → Ending s m
  fails :
      (n : ℕ) (e : Error)
      → n ≤ m
      → ((i : ℕ) → i < n → Retries s i)
      → IsReached s n
      → s.call n ≡ err e
      → (is_retryable e ≡ false) ⊎ (n ≡ m)
      → Ending s m
  is_cut :
      (n : ℕ) → n ≤ m → ((i : ℕ) → i < n → Retries s i) → 0 < n → s.cancelled n ≡ true → Ending s m

-- What a call leaves at each ending.
abbrev pub Leaves :
    {A : Type 0} (s : Surroundings A) (h : ProviderHealth) (m : ℕ) → Ending s m → Run A → Type 0
Leaves s h m (succeeds n r _ _ _ _) run =
    (run.result ≡ replied r)
    × (run.health ≡ record_success h s.recorded_at)
    × (count_calls run.effects ≡ suc n)
Leaves s h m (fails n e _ _ _ _ _) run =
    (run.result ≡ failed e)
    × (run.health ≡ (record_failure h (some e) s.recorded_at).0)
    × (count_calls run.effects ≡ suc n)
Leaves s h m (is_cut n _ _ _ _) run =
    (run.result ≡ failed context_error) × (run.health ≡ h) × (count_calls run.effects ≡ n)

module _ {A : Type 0} (f : Arithmetic) (retry : RetryConfig) (s : Surroundings A)
    (h : ProviderHealth) (m : ℕ) (retries : retry.max_retries ≡ pos m) where
  abbrev answer : A → Run A
  answer r = record_health_success s h (replied r)

  -- The state of the loop at attempt `n`, reached with `left` more iterations.
  reached :
      (n left : ℕ)
      → suc m ≡ n + left
      → ((i : ℕ) → i < n → Retries s i)
      → (last : Option Error) × SameEnd n
          (chat_completion f retry s h)
          (attempts f retry s h answer left n last)
  unfolding chat_completion
  reached n left e t =
      attempts-at f retry s h answer n left (rounds retry.max_retries) (ap rounds retries ∙ e) t

  -- With `MaxRetries` at least 0, whatever way a call ends, its reply is the answer, the final
  -- error, or the context's error; the health records one success, one failure with that error, or
  -- nothing; and the attempts made are those counted by the ending.
  pub chat_completion-Leaves : (e : Ending s m) → Leaves s h m e (chat_completion f retry s h)
  unfolding record_health_success record_health_failure
  chat_completion-Leaves (succeeds n r b t go a) =
      let (last, p) = reached n (suc (m - n)) (omega arith) t in
      let q = attempts-answered f retry s h answer (m - n) n last go a in
      (p.0 ∙ q.0, p.1 ∙ q.1, omega (arith, p.2, q.2))
  chat_completion-Leaves (fails n e b t go a stop) =
      let (last, p) = reached n (suc (m - n)) (omega arith) t in
      let q = attempts-failed f retry s h answer (m - n) n last go a (ground arith) in
      (p.0 ∙ q.0, p.1 ∙ q.1, omega (arith, p.2, q.2))
  chat_completion-Leaves (is_cut n b t z cut) =
      let (last, p) = reached n (suc (m - n)) (omega arith) t in
      let q = attempts-cut f retry s h answer (m - n) n last cut z in
      (p.0 ∙ q.0, p.1 ∙ q.1, omega (arith, p.2, q.2))

wait_cases :
    {A : Type 0} (s : Surroundings A) (n : ℕ) → IsReached s n ⊎ ((0 < n) × (s.cancelled n ≡ true))
wait_cases s zero = inl (inl refl)
wait_cases s (suc n) = ground arith

tried_below :
    {A : Type 0} (s : Surroundings A) (n : ℕ)
    → ((i : ℕ) → i < n → Retries s i)
    → Retries s n
    → (i : ℕ) → i < suc n
    → Retries s i
tried_below s n t now i b = elim (ℕ_discrete i n) [
  | yes e ↦ subst (Retries s) (sym e) now
  | no ne ↦ t i (omega arith)
]

find_answer :
    {A : Type 0} (s : Surroundings A) (m n : ℕ)
    → n ≤ m
    → ((i : ℕ) → i < n → Retries s i)
    → IsReached s n
    → (n < m → Retries s n → Ending s m)
    → Ending s m
find_answer s m n b t go on = elim (Outcome-cases (s.call n)) [
  | inl (r, a) ↦ succeeds n r b t go a
  | inr (e, a) ↦ elim (Bool-cases (is_retryable e)) [
    | inr final ↦ fails n e b t go a (inl final)
    | inl again ↦ elim (dec_lt n m) [
      | yes more ↦ on more (record { error = e; answer = a; retryable = again; uncut = go })
      | no done ↦ fails n e b t go a (inr (omega arith))
    ]
  ]
]

-- The ending from attempt `n` on, `k` more retries being allowed.
find_end :
    {A : Type 0} (s : Surroundings A) (m k n : ℕ)
    → k + n ≡ m
    → ((i : ℕ) → i < n → Retries s i)
    → Ending s m
find_end s m zero n e t = elim (wait_cases s n) [
  | inr (z, cut) ↦ is_cut n (omega arith) t z cut
  | inl go ↦ find_answer s m n (omega arith) t go (λ b r. absurd (omega arith))
]
find_end s m (suc k) n e t = elim (wait_cases s n) [
  | inr (z, cut) ↦ is_cut n (omega arith) t z cut
  | inl go ↦
      find_answer s m n (omega arith) t go
        (λ b r. find_end s m k (suc n) (omega arith) (tried_below s n t r))
]

-- The health and the reply that a call leaves, in one of the three ways.
pub ending : {A : Type 0} (s : Surroundings A) (m : ℕ) → Ending s m
ending s m = find_end s m m 0 (omega arith) (λ i b. absurd (omega arith))

-- With `MaxRetries` at least 0, every call makes at most `MaxRetries + 1` attempts and comes to one
-- of three ends: an answer with one recorded success; an error with one recorded failure; or the
-- context's error with the health as it was, when the context ends a wait.
pub chat_completion_total :
    {A : Type 0} (f : Arithmetic) (retry : RetryConfig) (s : Surroundings A) (h : ProviderHealth)
    (m : ℕ)
    → retry.max_retries ≡ pos m
    → (e : Ending s m) × Leaves s h m e (chat_completion f retry s h)
      × (count_calls (chat_completion f retry s h).effects ≤ suc m)
unfolding chat_completion record_health_success
chat_completion_total f retry s h m p = (
  ending s m,
  chat_completion-Leaves f retry s h m p (ending s m),
  omega (
    arith,
    ap rounds p,
    attempts-calls-le f retry s h (λ r. record_health_success s h (replied r)) (λ r. refl)
        (rounds retry.max_retries) 0 none,
  ),
)
