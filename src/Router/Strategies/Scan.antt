-- ===== src/Router/Strategies/Scan.antt =====
-- The forward scan for a minimum that priority.go and cost.go make, and what it finds.
use llm_gateway.Base.{
  ◌≡◌, refl, ◌⊎◌, inl, inr, Bool, true, false, Option, none, some, List, [], ◌∷◌, ◌++◌, arith,
  if◌then◌else◌, All, ap, sym, Bool-cases, In,
}
use mathlib.Core.Path.{subst}

module _ {A : Type 0} (usable : A → Bool) (less : A → A → Bool) where
  abbrev pub better : Option A → A → Option A
  better none c = if usable c then some c else none
  better (some a) c = if usable c then (if less c a then some c else some a) else some a

  unfoldable pub scan : Option A → List A → Option A
  scan acc [] = acc
  scan acc (c ∷ cs) = scan (better acc c) cs

  -- `b` is the first of the best: what stands before it is worse, and what stands after it is not
  -- better, among those that are usable.
  pub record FirstBest (b : A) (cs : List A) : Type 0 where
    pub before : List A
    pub behind : List A
    pub split : cs ≡ before ++ (b ∷ behind)
    pub is_usable : usable b ≡ true
    pub earlier : All (λ c. usable c ≡ true → less b c ≡ true) before
    pub later : All (λ c. usable c ≡ true → less c b ≡ false) behind

  FirstBest-cons :
      (b c : A) (cs : List A)
      → (usable c ≡ true → less b c ≡ true)
      → FirstBest b cs
      → FirstBest b (c ∷ cs)
  FirstBest-cons b c cs h f = record {
    before = c ∷ f.before;
    behind = f.behind;
    split = ap (◌∷◌ c) f.split;
    is_usable = f.is_usable;
    earlier = (h, f.earlier);
    later = f.later;
  }

  -- The order on the candidates that `Good` holds of.
  module _ (Good : A → Type 0)
      (trans : (x y z : A)
        → Good x
        → Good y
        → Good z
        → less x y ≡ true
        → less y z ≡ true
        → less x z ≡ true)
      (cotrans : (x y z : A)
        → Good x
        → Good y
        → Good z
        → less x y ≡ true
        → less z y ≡ false
        → less x z ≡ true) where
    Extends : A → A → List A → Type 0
    Extends a b cs =
        ((b ≡ a) × All (λ c. usable c ≡ true → less c a ≡ false) cs)
        ⊎ (FirstBest b cs × (less b a ≡ true) × Good b)

    scan-skip :
        (a b c : A) (cs : List A)
        → (usable c ≡ true → (less c a ≡ false) × Good c)
        → Good a
        → Extends a b cs
        → Extends a b (c ∷ cs)
    unfolding Extends
    scan-skip a b c cs h ga (inl (e, l)) = inl (e, (λ u. (h u).0, l))
    scan-skip a b c cs h ga (inr (f, lt, gb)) =
        inr (FirstBest-cons b c cs (λ u. cotrans b a c gb ga (h u).1 lt (h u).0) f, lt, gb)

    scan-take :
        (a b c : A) (cs : List A)
        → usable c ≡ true
        → less c a ≡ true
        → Good a
        → Good c
        → Extends c b cs
        → Extends a b (c ∷ cs)
    unfolding Extends
    scan-take a b c cs u lt ga gc (inl (e, l)) = inr (
      record {
        before = [];
        behind = cs;
        split = ap (λ (x : A). x ∷ cs) (sym e);
        is_usable = rw e u;
        earlier = tt;
        later = rw e l;
      },
      rw e lt,
      rw e gc,
    )
    scan-take a b c cs u lt ga gc (inr (f, lt', gb)) =
        inr (FirstBest-cons b c cs (λ v. lt') f, trans b c a gb gc ga lt' lt, gb)

    scan-some :
        (a b : A) (cs : List A) → Good a → All Good cs → scan (some a) cs ≡ some b → Extends a b cs
    unfolding scan Extends
    scan-some a b [] ga g e = inl (ground arith, tt)
    scan-some a b (c ∷ cs) ga (gc, g) e = elim (Bool-cases (usable c)) [
      | inr skip ↦ scan-skip a b c cs (λ u. cc) ga (scan-some a b cs ga g (rw skip at e))
      | inl use' ↦ elim (Bool-cases (less c a)) [
        | inl lt ↦ scan-take a b c cs use' lt ga gc (scan-some c b cs gc g (rw (use', lt) at e))
        | inr ge ↦
            scan-skip a b c cs (λ u. (ge, gc)) ga (scan-some a b cs ga g (rw (use', ge) at e))
      ]
    ]

    -- From no candidate the scan finds the first of the best, or none where none is usable.
    pub scan-FirstBest :
        (b : A) (cs : List A) → All Good cs → scan none cs ≡ some b → FirstBest b cs
    unfolding scan Extends
    scan-FirstBest b [] g e = cc
    scan-FirstBest b (c ∷ cs) (gc, g) e = elim (Bool-cases (usable c)) [
      | inr skip ↦ FirstBest-cons b c cs (λ u. cc) (scan-FirstBest b cs g (rw skip at e))
      | inl use' ↦ elim (scan-some c b cs gc g (rw use' at e)) [
        | inl (same, l) ↦ record {
          before = [];
          behind = cs;
          split = ap (λ (x : A). x ∷ cs) (sym same);
          is_usable = rw same use';
          earlier = tt;
          later = rw same l;
        }
        | inr (f, lt, gb) ↦ FirstBest-cons b c cs (λ u. lt) f
      ]
    ]

  scan-some-ne-none : (a : A) (cs : List A) → scan (some a) cs ≡ none → ⊥
  unfolding scan
  scan-some-ne-none a [] e = cc
  scan-some-ne-none a (c ∷ cs) e = elim (Bool-cases (usable c)) [
    | inr skip ↦ scan-some-ne-none a cs (rw skip at e)
    | inl use' ↦ elim (Bool-cases (less c a)) [
      | inl lt ↦ scan-some-ne-none c cs (rw (use', lt) at e)
      | inr ge ↦ scan-some-ne-none a cs (rw (use', ge) at e)
    ]
  ]

  pub scan-none : (cs : List A) → scan none cs ≡ none → All (λ c. usable c ≡ false) cs
  unfolding scan
  scan-none [] e = tt
  scan-none (c ∷ cs) e = elim (Bool-cases (usable c)) [
    | inr skip ↦ (skip, scan-none cs (rw skip at e))
    | inl use' ↦ absurd (scan-some-ne-none c cs (rw use' at e))
  ]

pub FirstBest-In :
    {A : Type 0} (usable : A → Bool) (less : A → A → Bool) (b : A) (cs : List A)
    → FirstBest usable less b cs
    → In b cs
FirstBest-In {A} usable less b cs f = subst (In b) (sym f.split) (go f.before)
  where
    go : (xs : List A) → In b (xs ++ (b ∷ f.behind))
    go [] = inl refl
    go (x ∷ xs) = inr (go xs)
