-- ===== src/RateLimit/History.antt =====
-- A history of the checks and token records of one key: check.lua and tpm_record.lua.
use llm_gateway.Base.{
  minus, ℕ, zero, suc, ◌*◌, ◌≤◌, ◌<◌, ◌≡◌, refl, ◌∙◌, ap, ◌≢◌, inl, inr, Bool, true, false, ◌&&◌,
  List, [], ◌∷◌, arith, ℤ, pos, ltb_ℤ, ◌==◌, String, str_eq, countb, if◌then◌else◌, Bool-cases, All,
}
use llm_gateway.RateLimit.Redis.{Entry, SortedSets, SortedSetLaws, has_member}
use llm_gateway.RateLimit.Script.{Arguments, CheckReply, check, tpm_record}
use llm_gateway.RateLimit.Window.{
  Verdict, rejects, admits, check-Verdict, countb-ext, countb-zero-&&,
}

pub data Event : Type 0 where
  checked : ℕ → String → Event
  recorded : ℕ → String → ℤ → Event

abbrev pub time : Event → ℕ
time (checked t id) = t
time (recorded t id n) = t

abbrev pub asks_as : String → Event → Bool
asks_as m (checked t id) = str_eq id m
asks_as m (recorded t id n) = false

-- Latest first: time does not run backwards, and every check has an id of its own.
pub data IsHistory : List Event → Type 0 where
  begins : IsHistory []
  asks :
      {es : List Event} (t : ℕ) (id : String)
      → IsHistory es
      → All (λ e. time e ≤ t) es
      → countb (asks_as id) es ≡ 0
      → IsHistory (checked t id ∷ es)
  records :
      {es : List Event} (t : ℕ) (id : String) (n : ℤ)
      → IsHistory es
      → All (λ e. time e ≤ t) es
      → IsHistory (recorded t id n ∷ es)

-- A request admitted at `t` counts at the time `now`.
abbrev pub counts_at : ℕ → ℕ → Entry → Bool
counts_at window now e = ltb_ℤ (minus now window) (pos e.score)

module _ {S : Type 0} (z : SortedSets S) (rk tk : String) (window : ℕ) (lim tpm : ℤ) where
  abbrev pub arguments : ℕ → String → Arguments
  arguments t id = record {
    rpm_key = rk;
    tpm_key = tk;
    now = t;
    window = window;
    rpm_lim = lim;
    tpm_lim = tpm;
    req_id = id;
  }

  -- The store after the events, and the requests admitted by them.
  unfoldable pub replay : S → List Event → S × List Entry
  replay s [] = (s, [])
  replay s (checked t id ∷ es) =
      let before = replay s es in
      let result = check z before.0 (arguments t id) in
      (
        result.0,
        if result.1.allowed == 1 then record { score = t; member = id } ∷ before.1 else before.1,
      )
  replay s (recorded t id n ∷ es) =
      let before = replay s es in (tpm_record z before.0 tk t window id n, before.1)

module _ (window : ℕ) where
  -- What is alive at a time was alive at every earlier time.
  counts_earlier :
      (t now n : ℕ)
      → t ≤ now
      → ltb_ℤ (minus now window) (pos n) ≡ true
      → ltb_ℤ (minus t window) (pos n) ≡ true
  unfolding minus
  counts_earlier t now n le h = ground arith

  both-counts :
      (t now : ℕ) (p : Entry → Bool) (e : Entry)
      → t ≤ now
      → (counts_at window t e && (counts_at window now e && p e)) ≡ (counts_at window now e && p e)
  both-counts t now p e le = elim (Bool-cases (counts_at window now e)) [
    | inl on ↦ rw (on, counts_earlier t now e.score le on) refl
    | inr off ↦ elim (Bool-cases (counts_at window t e)) [
      | inl on ↦ rw (off, on) refl
      | inr off' ↦ rw (off, off') refl
    ]
  ]

  counts_mono :
      (t now : ℕ) (xs : List Entry)
      → t ≤ now
      → countb (counts_at window now) xs ≤ countb (λ e. counts_at window t e && true) xs
  counts_mono t now [] le = omega arith
  counts_mono t now (e ∷ xs) le =
      let rest = counts_mono t now xs le in
      elim (Bool-cases (counts_at window now e)) [
        | inl on ↦ rw (on, counts_earlier t now e.score le on) (omega (arith, rest))
        | inr off ↦ elim (Bool-cases (counts_at window t e)) [
          | inl on ↦ rw (off, on) (omega (arith, rest))
          | inr off' ↦ rw (off, off') (omega (arith, rest))
        ]
      ]

All-later :
    {A : Type 0} (f : A → ℕ) (t now : ℕ) (xs : List A)
    → t ≤ now
    → All (λ x. f x ≤ t) xs
    → All (λ x. f x ≤ now) xs
All-later f t now [] le h = h
All-later f t now (x ∷ xs) le h = (omega (arith, h.0, le), All-later f t now xs le h.1)

not_first : (b : Bool) (n : ℕ) → (if b then suc n else n) ≡ 0 → n ≡ 0
not_first b n h = ground arith

stays_zero :
    (b : Bool) (n m : ℕ)
    → (if b then suc n else n) ≡ 0
    → (n ≡ 0 → m ≡ 0)
    → (if b then suc m else m) ≡ 0
stays_zero true n m h f = ground arith
stays_zero false n m h f = f h

one_more :
    {k c : ℕ} (b : Bool) (n L : ℕ)
    → n ≤ c
    → k ≡ c
    → ltb_ℤ (pos k) (pos L) ≡ true
    → (if b then suc n else n) ≤ L
one_more b n L le same room = ground arith

module _ {S : Type 0} (z : SortedSets S) (laws : SortedSetLaws z) (rk tk : String) (window L : ℕ)
    (tpm : ℤ) where
  abbrev after : S → List Event → S × List Entry
  after = replay z rk tk window (pos L) tpm

  -- The request set and the admitted requests agree on what is alive, at every later time.
  Agree : S → List Entry → ℕ → Type 0
  Agree t log now =
      (p : Entry → Bool)
      → countb (λ e. counts_at window now e && p e) (z.zrange t rk)
        ≡ countb (λ e. counts_at window now e && p e) log

  rejected-Agree :
      (s s' : S) (log : List Entry) (t now : ℕ)
      → t ≤ now
      → Agree s log now
      → ((p : Entry → Bool)
          → countb p (z.zrange s' rk) ≡ countb (λ e. counts_at window t e && p e) (z.zrange s rk))
      → Agree s' log now
  unfolding Agree
  rejected-Agree s s' log t now le agree left p =
      left (λ e. counts_at window now e && p e)
      ∙ (countb-ext _ _ (z.zrange s rk) (λ e. both-counts window t now p e le) ∙ agree p)

  -- What holds after every event.
  record Kept (s : S) (log : List Entry) (es : List Event) : Type 0 where
    agrees : (now : ℕ) → All (λ e. time e ≤ now) es → Agree s log now
    logged : (p : Entry → Bool) → countb p log ≡ 0 → countb p (z.zrange s rk) ≡ 0
    asked : (m : String) → countb (asks_as m) es ≡ 0 → countb (has_member m) log ≡ 0
    bounded : (now : ℕ) → All (λ e. time e ≤ now) es → countb (counts_at window now) log ≤ L

  checked-Kept :
      (s s' : S) (log : List Entry) (es : List Event) (t : ℕ) (id : String) (r : CheckReply)
      → Kept s log es
      → All (λ e. time e ≤ t) es
      → Verdict z laws s (arguments z rk tk window (pos L) tpm t id) s' r
      → Kept s'
          (if r.allowed == 1 then record { score = t; member = id } ∷ log else log)
          (checked t id ∷ es)
  unfolding Agree
  checked-Kept s s' log es t id r kept before verdict = elim verdict [
    | rejects shut left ↦ rw shut (record {
      agrees = λ now later. rejected-Agree s s' log t now later.0 (kept.agrees now later.1) left;
      logged = λ p none_in.
          left p ∙ countb-zero-&& (counts_at window t) p (z.zrange s rk) (kept.logged p none_in);
      asked = λ m none_as. kept.asked m (not_first (str_eq id m) _ none_as);
      bounded = λ now later. kept.bounded now later.1;
    })
    | admits passed room left ↦ rw passed (record {
      agrees = λ now later p.
          left (λ e. counts_at window now e && p e)
          ∙ ap
              (λ n.
                if counts_at window now (record { score = t; member = id })
                  && p (record { score = t; member = id })
                then suc n
                else n)
              (countb-ext _ _ (z.zrange s rk) (λ e. both-counts window t now p e later.0)
                ∙ kept.agrees now later.1 p);
      logged = λ p none_in.
          left p
          ∙ stays_zero (p (record { score = t; member = id })) _ _ none_in (λ none_before.
            countb-zero-&& (counts_at window t) p (z.zrange s rk) (kept.logged p none_before));
      asked = λ m none_as. stays_zero (str_eq id m) _ _ none_as (kept.asked m);
      bounded = λ now later.
          one_more (counts_at window now (record { score = t; member = id })) _ _
            (counts_mono window t now log later.0) (kept.agrees t before (λ e. true)) room;
    })
  ]

  recorded-Kept :
      (s : S) (log : List Entry) (es : List Event) (t : ℕ) (id : String) (n : ℤ)
      → tk ≢ rk
      → Kept s log es
      → Kept (tpm_record z s tk t window id n) log (recorded t id n ∷ es)
  unfolding Agree tpm_record
  recorded-Kept s log es t id n apart kept =
      let same =
        laws.expire_other _ tk rk (window * 2) apart ∙ laws.other_added s tk rk t _ apart in
      record {
        agrees = λ now later p.
            ap (countb (λ e. counts_at window now e && p e)) same ∙ kept.agrees now later.1 p;
        logged = λ p none_in. ap (countb p) same ∙ kept.logged p none_in;
        asked = kept.asked;
        bounded = λ now later. kept.bounded now later.1;
      }

  replay-Kept :
      (s : S) (es : List Event)
      → 0 < window
      → tk ≢ rk
      → 0 < L
      → z.zrange s rk ≡ []
      → IsHistory es
      → Kept (after s es).0 (after s es).1 es
  unfolding replay Agree
  replay-Kept s [] wide apart limited empty h = record {
    agrees = λ now later p. ap (countb (λ e. counts_at window now e && p e)) empty;
    logged = λ p none_in. ap (countb p) empty;
    asked = λ m none_as. refl;
    bounded = λ now later. omega arith;
  }
  replay-Kept s (checked t id ∷ es) wide apart limited empty (asks _ _ h before new) =
      let kept = replay-Kept s es wide apart limited empty h in
      checked-Kept (after s es).0 _ (after s es).1 es t id _ kept before (
        check-Verdict z laws (after s es).0 (arguments z rk tk window (pos L) tpm t id) wide apart
          (ground (arith, limited)) (kept.logged (has_member id) (kept.asked id new)))
  replay-Kept s (recorded t id n ∷ es) wide apart limited empty (records _ _ _ h before) =
      recorded-Kept (after s es).0 (after s es).1 es t id n apart
        (replay-Kept s es wide apart limited empty h)

-- Where the window is empty nothing counts.
none_count :
    {S : Type 0} (z : SortedSets S) (rk tk : String) (lim tpm : ℤ) (s : S) (es : List Event)
    (now : ℕ)
    → All (λ e. time e ≤ now) es
    → countb (counts_at 0 now) (replay z rk tk 0 lim tpm s es).1 ≡ 0
unfolding replay minus
none_count z rk tk lim tpm s [] now h = refl
none_count z rk tk lim tpm s (checked t id ∷ es) now h =
    let ih = none_count z rk tk lim tpm s es now h.1 in
    let reply = (check z (replay z rk tk 0 lim tpm s es).0 (arguments z rk tk 0 lim tpm t id)).1 in
    elim (Bool-cases (reply.allowed == 1)) [
      | inl on ↦ rw on (ground (arith, ih, h.0))
      | inr off ↦ rw off ih
    ]
none_count z rk tk lim tpm s (recorded t id n ∷ es) now h = none_count z rk tk lim tpm s es now h.1

-- Over any history of checks and token records of one key with request limit `L` above 0, that
-- starts from an empty request set, with apart keys for requests and tokens: at every time not before
-- the last event, at most `L` requests were admitted within the window that ends then.
pub replay_within_limit :
    {S : Type 0} (z : SortedSets S) (laws : SortedSetLaws z) (rk tk : String) (window L : ℕ)
    (tpm : ℤ) (s : S) (es : List Event) (now : ℕ)
    → tk ≢ rk
    → 0 < L
    → z.zrange s rk ≡ []
    → IsHistory es
    → All (λ e. time e ≤ now) es
    → countb (counts_at window now) (replay z rk tk window (pos L) tpm s es).1 ≤ L
replay_within_limit z laws rk tk zero L tpm s es now apart limited empty h later =
    rw (none_count z rk tk (pos L) tpm s es now later) (omega arith)
replay_within_limit z laws rk tk (suc w) L tpm s es now apart limited empty h later =
    (replay-Kept z laws rk tk (suc w) L tpm s es (omega arith) apart limited empty h).bounded now
      later
