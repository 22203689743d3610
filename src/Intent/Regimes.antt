-- ===== src/Intent/Regimes.antt =====
-- Which regime `resolve_intent` picks, and when it refuses.
use otto_q_core.Base.{
  ℕ, ◌%◌, String, ◌≡◌, refl, sym, ap, ◌≢◌, ◌⊎◌, inl, inr, Bool, true, false, not, ◌&&◌, ◌||◌, none,
  some, List, [], ◌∷◌, ◌++◌, arith, str_le, if◌then◌else◌, Bool-cases, any,
}
use otto_q_core.Base.Sort.{sort}
use otto_q_core.Intent.Floors.{KeepsFloors, build_active-KeepsFloors}
use otto_q_core.Intent.{
  Regime, matches, needs_signal, first_match, Intent, ActiveIntent, Result, build_active,
  pick_regime, unknown_signals_of, resolve_intent, unknown_signals, no_regime, ok, err,
}

-- The regimes that one pass looks at, and that match.
abbrev pub eligible : Bool → ℕ → List String → Regime → Bool
eligible true h signals r = needs_signal r && matches r h signals
eligible false h signals r = not (needs_signal r) && matches r h signals

-- `r` is the first of `rs` that passes the test.
pub record IsFirst (test : Regime → Bool) (rs : List Regime) (r : Regime) : Type 0 where
  pub before : List Regime
  pub behind : List Regime
  pub split : rs ≡ before ++ r ∷ behind
  pub skipped : any test before ≡ false
  pub passed : test r ≡ true

IsFirst-skip :
    {test : Regime → Bool} {rs : List Regime} {r x : Regime}
    → test x ≡ false
    → IsFirst test rs r
    → IsFirst test (x ∷ rs) r
IsFirst-skip {x = x} miss f = record {
  before = x ∷ f.before;
  behind = f.behind;
  split = ap (◌∷◌ x) f.split;
  skipped = ground (arith, miss, f.skipped);
  passed = f.passed;
}

or-false_left : (a b : Bool) → (a || b) ≡ false → a ≡ false
or-false_left a b h = ground arith

or-false_right : (a b : Bool) → (a || b) ≡ false → b ≡ false
or-false_right a b h = ground arith

any_middle :
    (test : Regime → Bool) (xs : List Regime) (r : Regime) (ys : List Regime)
    → test r ≡ true
    → any test (xs ++ r ∷ ys) ≡ true
any_middle test [] r ys e = ground arith
any_middle test (x ∷ xs) r ys e = ground (arith, any_middle test xs r ys e)

IsFirst-any :
    {test : Regime → Bool} {rs : List Regime} {r : Regime} → IsFirst test rs r → any test rs ≡ true
IsFirst-any {test} {rs} {r} f = rw f.split (any_middle test f.before r f.behind f.passed)

abbrev FirstMatch : Bool → List Regime → ℕ → List String → Type 0
FirstMatch signal rs h signals =
    ((any (eligible signal h signals) rs ≡ false) × (first_match signal rs h signals ≡ none))
    ⊎ ((r : Regime) × (first_match signal rs h signals ≡ some r)
        × IsFirst (eligible signal h signals) rs r)

first_match_cons :
    (signal : Bool) (x : Regime) (rs : List Regime) (h : ℕ) (signals : List String)
    → first_match signal (x ∷ rs) h signals
      ≡ (if eligible signal h signals x then some x else first_match signal rs h signals)
unfolding first_match
first_match_cons true x rs h signals = refl
first_match_cons false x rs h signals = refl

FirstMatch-step :
    (signal : Bool) (x : Regime) (rs : List Regime) (h : ℕ) (signals : List String)
    → FirstMatch signal rs h signals
    → FirstMatch signal (x ∷ rs) h signals
FirstMatch-step signal x rs h signals c = elim (Bool-cases (eligible signal h signals x)) [
  | inl hit ↦ inr (
    x,
    rw (first_match_cons, hit),
    record { before = []; behind = rs; split = refl; skipped = refl; passed = hit },
  )
  | inr miss ↦ elim c [
    | inl (none_fit, e) ↦ inl (rw (miss, none_fit), rw (first_match_cons, miss) e)
    | inr (r, e, f) ↦ inr (r, rw (first_match_cons, miss) e, IsFirst-skip miss f)
  ]
]

FirstMatch-cases :
    (signal : Bool) (rs : List Regime) (h : ℕ) (signals : List String)
    → FirstMatch signal rs h signals
unfolding first_match
FirstMatch-cases true [] h signals = inl (refl, refl)
FirstMatch-cases false [] h signals = inl (refl, refl)
FirstMatch-cases true (x ∷ rs) h signals =
    FirstMatch-step true x rs h signals (FirstMatch-cases true rs h signals)
FirstMatch-cases false (x ∷ rs) h signals =
    FirstMatch-step false x rs h signals (FirstMatch-cases false rs h signals)

-- The regime that `resolve_intent` builds the intent from.
pub record Chosen (i : Intent) (hod : ℕ) (signals : List String) (r : Regime) : Type 0 where
  pub signal : Bool
  pub decided : signal ≡ any (eligible true hod signals) i.regimes
  pub first : IsFirst (eligible signal hod signals) i.regimes r

pick_regime-Chosen :
    (i : Intent) (h : ℕ) (signals : List String)
    → (any (eligible true h signals) i.regimes || any (eligible false h signals) i.regimes) ≡ true
    → (r : Regime) × (pick_regime i.regimes h signals ≡ some r) × Chosen i h signals r
unfolding pick_regime
pick_regime-Chosen i h signals some_fit = elim (FirstMatch-cases true i.regimes h signals) [
  | inr (r, e, f) ↦
      (r, rw (e, pick_regime), record { signal = true; decided = sym (IsFirst-any f); first = f })
  | inl (none_fit, e) ↦ elim (FirstMatch-cases false i.regimes h signals) [
    | inr (r, e', f) ↦
        (r, rw (e, pick_regime) e', record { signal = false; decided = sym none_fit; first = f })
    | inl (neither, _) ↦ absurd (ground arith)
  ]
]

pick_regime-none :
    (i : Intent) (h : ℕ) (signals : List String)
    → (any (eligible true h signals) i.regimes || any (eligible false h signals) i.regimes) ≡ false
    → pick_regime i.regimes h signals ≡ none
unfolding pick_regime
pick_regime-none i h signals none_fit = elim (FirstMatch-cases true i.regimes h signals) [
  | inr (r, e, f) ↦ ground (arith, IsFirst-any f)
  | inl (_, e) ↦ elim (FirstMatch-cases false i.regimes h signals) [
    | inr (r, e', f) ↦ ground (arith, IsFirst-any f)
    | inl (_, e') ↦ rw (e, pick_regime) e'
  ]
]

-- What the resolver promises, by whether every signal is known to the artifact.
abbrev pub Resolves : Intent → ℕ → List String → Result ActiveIntent → Type 0
Resolves i h signals (ok a) =
    (unknown_signals_of i signals ≡ [])
    × KeepsFloors i a
    × ((r : Regime) × (a ≡ build_active i r) × Chosen i (h % 24) signals r)
Resolves i h signals (err no_regime) =
    (unknown_signals_of i signals ≡ [])
    × (any (eligible true (h % 24) signals) i.regimes ≡ false)
    × (any (eligible false (h % 24) signals) i.regimes ≡ false)
Resolves i h signals (err (unknown_signals names)) =
    (unknown_signals_of i signals ≢ []) × (names ≡ sort str_le (unknown_signals_of i signals))

resolve_known :
    (i : Intent) (h : ℕ) (signals : List String)
    → unknown_signals_of i signals ≡ []
    → Resolves i h signals (resolve_intent i h signals)
unfolding resolve_intent
resolve_known i h signals known =
    elim (Bool-cases (
      any (eligible true (h % 24) signals) i.regimes
      || any (eligible false (h % 24) signals) i.regimes)) [
        | inl fit ↦ resolve_fit (pick_regime-Chosen i (h % 24) signals fit)
        | inr unfit ↦
            rw (known, resolve_intent, pick_regime-none i (h % 24) signals unfit)
              (known, or-false_left _ _ unfit, or-false_right _ _ unfit)
      ]
  where
    resolve_fit :
        (r : Regime) × (pick_regime i.regimes (h % 24) signals ≡ some r)
          × Chosen i (h % 24) signals r
        → Resolves i h signals (resolve_intent i h signals)
    resolve_fit (r, e, c) =
        rw (known, resolve_intent, e) (known, build_active-KeepsFloors i r, (r, refl, c))

resolve_unknown :
    (i : Intent) (h : ℕ) (signals names : List String)
    → unknown_signals_of i signals ≡ names
    → names ≢ []
    → resolve_intent i h signals ≡ err (unknown_signals (sort str_le names))
unfolding resolve_intent
resolve_unknown i h signals [] e ne = absurd (ne refl)
resolve_unknown i h signals (s ∷ rest) e ne = rw (e, resolve_intent)

-- `resolve_intent` refuses a call with a signal that no regime of the artifact names, and lists
-- exactly those signals. Otherwise, if no regime matches it reports that, and else it builds the
-- intent from the first matching regime in declaration order, among those that need a signal
-- if any of these matches and among the others if not; the intent keeps every floor.
pub resolve_intent-Resolves :
    (i : Intent) (h : ℕ) (signals : List String) → Resolves i h signals (resolve_intent i h signals)
resolve_intent-Resolves i h signals = by_names (unknown_signals_of i signals) refl
  where
    by_names :
        (names : List String)
        → unknown_signals_of i signals ≡ names
        → Resolves i h signals (resolve_intent i h signals)
    by_names [] e = resolve_known i h signals e
    by_names (s ∷ rest) e =
        rw (resolve_unknown i h signals (s ∷ rest) e (λ f. cc f)) (rw e (λ f. cc f), rw e)
