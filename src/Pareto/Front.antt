-- ===== src/Pareto/Front.antt =====
-- The frontier (policies/cost.py: `_pareto`).

use otto_q_core.Base.Sort.{sort, any-sort, All-sort}
use otto_q_core.Base.{
  ℕ, zero, suc, ◌+◌, ◌≤◌, ◌<◌, String, ◌≡◌, refl, sym, ap, subst, ◌∙◌, inl, inr, Bool, true, false,
  not, ◌&&◌, ◌||◌, some, List, [], ◌∷◌, arith, eq_iff, ltb, leb, str_eq, str_le, if◌then◌else◌,
  Bool-cases, filter, any, All, elem, elem-filter, Dict, lookup, keys, Raises, returns,
}
use otto_q_core.Pareto.{is_dominated, keep_undominated, item, beats, pareto}

-- Each of the names has its value in the dict.
abbrev pub Holds : Dict ℕ → (String → ℕ) → List String → Type 0
Holds d f = All λ k. lookup k d ≡ some (f k)

any-witness :
    (p : String → Bool) (xs : List String)
    → any p xs ≡ true
    → (x : String) × (elem x xs ≡ true) × (p x ≡ true)
any-witness p [] h = ground arith
any-witness p (x ∷ xs) h = elim (Bool-cases (p x)) [
  | inl e ↦ (x, ground (arith, eq_iff x x), e)
  | inr e ↦ let rest = any-witness p xs (ground arith) in (rest.0, ground arith, rest.2)
]

any-none :
    (p : String → Bool) (xs : List String)
    → any p xs ≡ false
    → (x : String) → elem x xs ≡ true
    → p x ≡ false
any-none p [] h x e = ground arith
any-none p (y ∷ xs) h x e = elim (Bool-cases (str_eq x y)) [
  | inl q ↦ ground (arith, eq_iff x y)
  | inr q ↦ any-none p xs (ground arith) x (ground arith)
]

returns-if :
    (b d : Bool)
    → ◌≡◌ {A = Raises String Bool} (if b then returns d else returns false) (returns (b && d))
returns-if true d = refl
returns-if false d = refl

stops-or :
    (b d : Bool)
    → ◌≡◌ {A = Raises String Bool} (if b then returns true else returns d) (returns (b || d))
stops-or true d = refl
stops-or false d = refl

if-not {ℓ} : {A : Type ℓ} (b : Bool) (x y : A) → (if b then x else y) ≡ (if not b then y else x)
if-not true x y = refl
if-not false x y = refl

and-parts : (b d : Bool) → (b && not d) ≡ true → (b ≡ true) × (d ≡ false)
and-parts true false h = (refl, refl)
and-parts true true h = ground arith
and-parts false d h = ground arith

module _ (t c : String → ℕ) where
  -- The test on total values.
  abbrev is_better : String → String → Bool
  is_better a b = leb (t b) (t a) && (leb (c b) (c a) && (ltb (t b) (t a) || ltb (c b) (c a)))

  abbrev is_best : List String → String → Bool
  is_best names a = not (any (is_better a) names)

  best-below :
      (names : List String) (n : ℕ) (a : String)
      → t a + c a < n
      → elem a names ≡ true
      → (b : String) × (elem b (filter (is_best names) names) ≡ true) × (t b ≤ t a) × (c b ≤ c a)
  best-below names zero a h e = ground arith
  best-below names (suc n) a h e = elim (Bool-cases (any (is_better a) names)) [
    | inl d ↦
        let w = any-witness (is_better a) names d in
        let r = best-below names n w.0 (ground arith) w.1 in (r.0, r.1, ground arith, ground arith)
    | inr d ↦ (a, ground (arith, elem-filter a (is_best names) names), omega arith, omega arith)
  ]

  same_name : (a b : String) → b ≡ a → false ≡ is_better a b
  same_name a b h = subst (λ k. false ≡ is_better a k) (sym h) (ground arith)

  better-tie :
      (a b : String) → is_better a b ≡ false → t b ≤ t a → c b ≤ c a → (t b ≡ t a) × (c b ≡ c a)
  better-tie a b h p q = ground arith

  module _ (tardy cost : Dict ℕ) where
    item-value :
        (d : Dict ℕ) (f : String → ℕ) (k : String)
        → lookup k d ≡ some (f k)
        → item d k ≡ returns (f k)
    unfolding item
    item-value d f k h = rw h refl

    beats-is_better :
        (a b : String)
        → lookup a tardy ≡ some (t a)
        → lookup b tardy ≡ some (t b)
        → lookup a cost ≡ some (c a)
        → lookup b cost ≡ some (c b)
        → beats tardy cost a b ≡ returns (is_better a b)
    unfolding beats
    beats-is_better a b ta tb ca cb = elim (Bool-cases (str_eq b a)) [
      | inl e ↦ rw e (ap returns (same_name a b (ground (arith, eq_iff b a))))
      | inr e ↦
          rw
            (
              e,
              item-value tardy t a ta,
              item-value tardy t b tb,
              item-value cost c a ca,
              item-value cost c b cb,
            )
            (returns-if (leb (t b) (t a)) _)
    ]

    is_dominated-any :
        (a : String) (names : List String)
        → lookup a tardy ≡ some (t a)
        → lookup a cost ≡ some (c a)
        → Holds tardy t names
        → Holds cost c names
        → is_dominated tardy cost a names ≡ returns (any (is_better a) names)
    unfolding is_dominated
    is_dominated-any a [] ta ca ht hc = refl
    is_dominated-any a (b ∷ bs) ta ca ht hc =
        rw (beats-is_better a b ta ht.0 ca hc.0, is_dominated-any a bs ta ca ht.1 hc.1)
          (stops-or (is_better a b) _)

    keep_undominated-filter :
        (names later : List String)
        → Holds tardy t names
        → Holds cost c names
        → Holds tardy t later
        → Holds cost c later
        → keep_undominated tardy cost names later ≡ returns (filter (is_best names) later)
    unfolding keep_undominated
    keep_undominated-filter names [] ht hc lt lc = refl
    keep_undominated-filter names (a ∷ later) ht hc lt lc =
        rw
          (
            is_dominated-any a names lt.0 lc.0 ht hc,
            keep_undominated-filter names later ht hc lt.1 lc.1,
          )
          (ap returns (if-not (any (is_better a) names) _ _))

-- What a frontier is: each name on it is a policy that nobody beats, and each policy has one on it
-- that is no later and no more costly.
abbrev pub IsFrontier : (String → ℕ) → (String → ℕ) → List String → List String → Type 0
IsFrontier t c policies front =
    ((a : String)
      → elem a front ≡ true
      → (elem a policies ≡ true)
        × ((b : String)
            → elem b policies ≡ true
            → t b ≤ t a
            → c b ≤ c a
            → (t b ≡ t a) × (c b ≡ c a)))
    × ((a : String)
        → elem a policies ≡ true
        → (b : String) × (elem b front ≡ true) × (t b ≤ t a) × (c b ≤ c a))

-- Where each policy that has a tardiness has a cost, the frontier is returned without an error.
-- Each name on it is one of the policies, and a policy that is no later and no more costly than it
-- is exactly as late and exactly as costly; and for each policy there is one on the frontier that
-- is no later and no more costly.
pub pareto-IsFrontier :
    (t c : String → ℕ) (tardy cost : Dict ℕ)
    → Holds tardy t (keys tardy)
    → Holds cost c (keys tardy)
    → (front : List String) × (pareto tardy cost ≡ returns front)
      × IsFrontier t c (keys tardy) front
unfolding pareto
pareto-IsFrontier t c tardy cost ht hc =
    let names = sort str_le (keys tardy) in
    let same_names = λ (a : String). any-sort str_le (str_eq a) (keys tardy) in
    let parts = λ (a : String) (e : elem a (filter (is_best t c names) names) ≡ true).
      and-parts (elem a names) (any (is_better t c a) names)
        (sym (elem-filter a (is_best t c names) names) ∙ e) in
    let lt = All-sort str_le (λ k. lookup k tardy ≡ some (t k)) (keys tardy) ht in
    let lc = All-sort str_le (λ k. lookup k cost ≡ some (c k)) (keys tardy) hc in
    (
      filter (is_best t c names) names,
      keep_undominated-filter t c tardy cost names names lt lc lt lc,
      (
        (λ a e. (
          sym (same_names a) ∙ (parts a e).0,
          λ b f le_t le_c.
              better-tie t c a b
                (any-none (is_better t c a) names (parts a e).1 b (same_names b ∙ f)) le_t le_c,
        )),
        λ a e. best-below t c names (1 + (t a + c a)) a (omega arith) (same_names a ∙ e),
      ),
    )
