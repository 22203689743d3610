-- ===== src/Intent/Solve/Passes.antt =====
-- The passes of an active intent: the readiness floor first, each pass once, nothing lost.
use otto_q_core.Intent.Regimes.{Resolves, resolve_intent-Resolves}
use otto_q_core.Intent.Floors.{KeepsFloors, readiness_first}
use otto_q_core.Intent.{Intent, ActiveIntent, has_kind, resolve_intent, ok}
use mathlib.Core.Bool.{and-true}
use otto_q_core.Base.{
  ℕ, String, ◌≡◌, refl, ap, subst, ◌∙◌, Bool, true, false, not, ◌&&◌, ◌||◌, Option, none, some,
  List, [], ◌∷◌, ◌++◌, arith, any,
}
use otto_q_core.Intent.Solve.{
  Mode, weighted, min_tardy, min_peak, min_flow, mode_eq, has_mode, pass, pass_of,
  pass_sequence_from, Realised, shield, pass_sequence,
}

-- No mode stands twice.
abbrev pub IsDistinctModes : List Mode → Type 0
IsDistinctModes [] = Unit
IsDistinctModes (m ∷ ms) = (has_mode m ms ≡ false) × IsDistinctModes ms

abbrev pub is_pass : Mode → Option Realised → Bool
is_pass m (some (pass n)) = mode_eq m n
is_pass m (some shield) = false
is_pass m none = false

-- `k` is realised by the pass `m`.
abbrev pub realises : Mode → String → Bool
realises m k = is_pass m (pass_of k)

pub mode_eq-eq : (m n : Mode) → mode_eq m n ≡ true → m ≡ n
mode_eq-eq weighted n h = ground arith
mode_eq-eq min_tardy n h = ground arith
mode_eq-eq min_peak n h = ground arith
mode_eq-eq min_flow n h = ground arith

pub mode_eq_sym : (m n : Mode) → mode_eq m n ≡ mode_eq n m
mode_eq_sym m n = ground arith

pub mode_eq_refl : (m : Mode) → mode_eq m m ≡ true
mode_eq_refl weighted = refl
mode_eq_refl min_tardy = refl
mode_eq_refl min_peak = refl
mode_eq_refl min_flow = refl

-- The step of `pass_sequence_from` once the key's pass is known.
abbrev step : List Mode → List String → Option Realised → List Mode
step seen ks none = pass_sequence_from seen ks
step seen ks (some shield) = pass_sequence_from seen ks
step seen ks (some (pass m)) = elim (has_mode m seen) [
  | true ↦ pass_sequence_from seen ks
  | false ↦ m ∷ pass_sequence_from (m ∷ seen) ks
]

pass_sequence_cons :
    (seen : List Mode) (k : String) (ks : List String)
    → pass_sequence_from seen (k ∷ ks) ≡ step seen ks (pass_of k)
unfolding pass_sequence_from
pass_sequence_cons seen k ks = ground (arith)

module _ (m : Mode) (ks : List String) where
  -- What the rest of the loop makes of `m`, whatever was seen.
  abbrev KeepsMode : Type 0
  KeepsMode =
      (seen : List Mode)
      → has_mode m (pass_sequence_from seen ks) ≡ (any (realises m) ks && not (has_mode m seen))

  has_mode-step :
      (seen : List Mode) (o : Option Realised)
      → KeepsMode
      → has_mode m (step seen ks o)
        ≡ ((is_pass m o || any (realises m) ks) && not (has_mode m seen))
  has_mode-step seen none ih = ih seen
  has_mode-step seen (some shield) ih = ih seen
  has_mode-step seen (some (pass n)) ih = ground (arith, ih seen, ih (n ∷ seen), mode_eq-eq m n)

has_mode-pass_sequence_from : (m : Mode) (ks : List String) → KeepsMode m ks
unfolding pass_sequence_from
has_mode-pass_sequence_from m [] seen = refl
has_mode-pass_sequence_from m (k ∷ ks) seen =
    rw (pass_sequence_cons seen k ks)
      (has_mode-step m ks seen (pass_of k) (has_mode-pass_sequence_from m ks))

IsDistinctModes-step :
    (seen : List Mode) (ks : List String) (o : Option Realised)
    → ((s : List Mode) → IsDistinctModes (pass_sequence_from s ks))
    → IsDistinctModes (step seen ks o)
IsDistinctModes-step seen ks none ih = ih seen
IsDistinctModes-step seen ks (some shield) ih = ih seen
IsDistinctModes-step seen ks (some (pass n)) ih =
    ground
      (arith, ih seen, ih (n ∷ seen), has_mode-pass_sequence_from n ks (n ∷ seen), mode_eq_refl n)

pass_sequence_from-IsDistinctModes :
    (ks : List String) (seen : List Mode) → IsDistinctModes (pass_sequence_from seen ks)
unfolding pass_sequence_from
pass_sequence_from-IsDistinctModes [] seen = tt
pass_sequence_from-IsDistinctModes (k ∷ ks) seen =
    rw (pass_sequence_cons seen k ks)
      (IsDistinctModes-step seen ks (pass_of k) (pass_sequence_from-IsDistinctModes ks))

-- What the solver is asked to run for an intent.
pub record SoundPasses (a : ActiveIntent) : Type 0 where
  pub rest : List Mode
  pub floor_first : pass_sequence a ≡ min_tardy ∷ rest
  pub once : IsDistinctModes (pass_sequence a)
  pub exact : (m : Mode) → has_mode m (pass_sequence a) ≡ any (realises m) a.priority

pass_sequence_readiness :
    (a : ActiveIntent) (ks : List String)
    → a.priority ≡ "readiness" ∷ ks
    → pass_sequence a ≡ min_tardy ∷ pass_sequence_from (min_tardy ∷ []) ks
unfolding pass_sequence pass_of
pass_sequence_readiness a ks e = rw (e, pass_sequence_cons [] "readiness" ks)

KeepsFloors-readiness :
    (i : Intent) (a : ActiveIntent)
    → has_kind "floor" i.objectives "readiness" ≡ true
    → KeepsFloors i a
    → (ks : List String) × (a.priority ≡ "readiness" ∷ ks)
KeepsFloors-readiness i a f k =
    let (ks, e) = readiness_first i.objectives f in
    (ks ++ k.later, k.split ∙ ap (λ l. l ++ k.later) e)

-- An intent that was resolved from an artifact whose readiness objective is a floor runs
-- `min_tardy` first, no pass twice, and exactly the passes that realise one of its priorities.
pub pass_sequence-SoundPasses :
    (i : Intent) (h : ℕ) (signals : List String) {a : ActiveIntent}
    → has_kind "floor" i.objectives "readiness" ≡ true
    → resolve_intent i h signals ≡ ok a
    → SoundPasses a
unfolding pass_sequence
pass_sequence-SoundPasses i h signals {a} f e =
    let (_, keeps, _) = subst (Resolves i h signals) e (resolve_intent-Resolves i h signals) in
    let (ks, p) = KeepsFloors-readiness i a f keeps in
    record {
      rest = pass_sequence_from (min_tardy ∷ []) ks;
      floor_first = pass_sequence_readiness a ks p;
      once = pass_sequence_from-IsDistinctModes a.priority [];
      exact = λ m. has_mode-pass_sequence_from m a.priority [] ∙ and-true _;
    }
