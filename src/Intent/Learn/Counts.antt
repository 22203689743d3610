-- ===== src/Intent/Learn/Counts.antt =====
-- No refusal is lost (intent/learn.py: `_normalize` and the counts of `reconcile_refusals`).

use otto_q_core.Base.Sort.{any-sort}
use otto_q_core.Base.{
  ℕ, suc, ◌+◌, String, ◌≡◌, refl, sym, ap, ◌∙◌, ◌⊎◌, inl, inr, Bool, true, false, not, ◌&&◌, ◌||◌,
  Option, none, some, List, [], ◌∷◌, arith, eq_iff, str_eq, str_le, if◌then◌else◌, Bool-cases,
  length, filter, any, elem, elem-append, Dict, lookup, lookup-insert,
}
use otto_q_core.Intent.Learn.{
  Settings, report_of, reconcile_refusals, add_name, count_code, or_nought, add_one, count_codes,
}
use otto_q_core.Intent.Learn.Taxonomy.{Triple, normalize_one, is_known, Refusal, normalize}

-- A refusal was read with this code.
abbrev pub carries : String → Option String → Bool
carries k none = false
carries k (some rc) = str_eq k rc

abbrev pub is_unread : Option String → Bool
is_unread none = true
is_unread (some rc) = false

-- How many refusals carry a code.
abbrev pub times : String → List Refusal → ℕ
times k rs = length (filter (λ r. carries k r.reason_code) rs)

abbrev times_in : String → List Triple → ℕ
times_in k ts = length (filter (λ t. str_eq k t.code) ts)

normalize-times : (k : String) (rs : List Refusal) → times_in k (normalize rs).0 ≡ times k rs
unfolding normalize normalize_one
normalize-times k [] = refl
normalize-times k (r ∷ rs) = one r.reason_code r (normalize rs) (normalize-times k rs)
  where
    one :
        (o : Option String) (r : Refusal) (rest : List Triple × ℕ)
        → times_in k rest.0 ≡ times k rs
        → times_in k (normalize_one o r rest).0
          ≡ length (
              if carries k o
              then r ∷ filter (λ r. carries k r.reason_code) rs
              else filter (λ r. carries k r.reason_code) rs)
    one none r rest h = h
    one (some rc) r rest h = ground arith

normalize-unread :
    (rs : List Refusal) → (normalize rs).1 ≡ length (filter (λ r. is_unread r.reason_code) rs)
unfolding normalize normalize_one
normalize-unread [] = refl
normalize-unread (r ∷ rs) = one r.reason_code r (normalize rs) (normalize-unread rs)
  where
    one :
        (o : Option String) (r : Refusal) (rest : List Triple × ℕ)
        → rest.1 ≡ length (filter (λ r. is_unread r.reason_code) rs)
        → (normalize_one o r rest).1
          ≡ length (
              if is_unread o
              then r ∷ filter (λ r. is_unread r.reason_code) rs
              else filter (λ r. is_unread r.reason_code) rs)
    one none r rest h = ap suc h
    one (some rc) r rest h = h

-- The times that count: those of a known code.
abbrev pub known_times : Bool → ℕ → ℕ
known_times true n = n
known_times false n = 0

add_one-lookup :
    (k rc : String) (d : Dict ℕ)
    → or_nought (lookup k (add_one rc d)) ≡ or_nought (lookup k d) + (if str_eq rc k then 1 else 0)
unfolding add_one or_nought
add_one-lookup k rc d = elim (Bool-cases (str_eq rc k)) [
  | inl e ↦
      rw (lookup-insert rc k (or_nought (lookup rc d) + 1) d)
        (rw e (ap (λ j. or_nought (lookup j d) + 1) ((eq_iff rc k).0 e)))
  | inr e ↦ rw (lookup-insert rc k (or_nought (lookup rc d) + 1) d) (rw e (omega arith))
]

known_times_zero : (b : Bool) → known_times b 0 ≡ 0
known_times_zero true = refl
known_times_zero false = refl

nothing_more : (n : ℕ) (b : Bool) → n ≡ n + known_times b 0
nothing_more n b = omega (arith, known_times_zero b)

differ : (k j : String) → str_eq k j ≡ false → str_eq j k ≡ false
differ k j h = ground (arith, eq_iff k j, eq_iff j k)

known_times_step :
    {A : Type 0} (b c : Bool) (x : A) (xs : List A)
    → known_times b (length (if c then x ∷ xs else xs))
      ≡ known_times b (if c then 1 else 0) + known_times b (length xs)
known_times_step true true x xs = omega arith
known_times_step true false x xs = omega arith
known_times_step false c x xs = refl

count_code-lookup :
    (k rc : String) (b : Bool) (acc : Dict ℕ × List String)
    → (str_eq k rc ≡ true → is_known k ≡ b)
    → or_nought (lookup k (count_code b rc acc).0)
      ≡ or_nought (lookup k acc.0) + known_times (is_known k) (if str_eq k rc then 1 else 0)
unfolding count_code
count_code-lookup k rc true acc h = elim (Bool-cases (str_eq k rc)) [
  | inl e ↦
      rw (e, h e)
        (add_one-lookup k rc acc.0
          ∙ ap (λ b. or_nought (lookup k acc.0) + (if b then 1 else 0))
              ((eq_iff rc k).1 (sym ((eq_iff k rc).0 e))))
  | inr e ↦ rw e (
      add_one-lookup k rc acc.0
      ∙ ap (λ b. or_nought (lookup k acc.0) + (if b then 1 else 0)) (differ k rc e)
      ∙ omega (arith, known_times_zero (is_known k)))
]
count_code-lookup k rc false acc h = elim (Bool-cases (str_eq k rc)) [
  | inl e ↦ rw (e, h e) (omega arith)
  | inr e ↦ rw e (nothing_more _ (is_known k))
]

count_codes-lookup :
    (k : String) (ts : List Triple) (acc : Dict ℕ × List String)
    → or_nought (lookup k (count_codes ts acc).0)
      ≡ or_nought (lookup k acc.0) + known_times (is_known k) (times_in k ts)
unfolding count_codes
count_codes-lookup k [] acc = nothing_more _ (is_known k)
count_codes-lookup k (t ∷ ts) acc = omega (
  arith,
  count_codes-lookup k ts (count_code (is_known t.code) t.code acc),
  count_code-lookup k t.code (is_known t.code) acc (λ e. ap is_known ((eq_iff k t.code).0 e)),
  known_times_step (is_known k) (str_eq k t.code) t (filter (λ t. str_eq k t.code) ts),
)

there :
    (k x : String) (xs : List String)
    → elem x xs ≡ true
    → (str_eq k x ≡ true) ⊎ (str_eq k x ≡ false)
    → elem k xs ≡ (elem k xs || str_eq k x)
there k x xs e (inl q) = ground (arith, ap (λ j. elem j xs) ((eq_iff k x).0 q) ∙ e)
there k x xs e (inr q) = ground arith

add_name-elem :
    (k x : String) (xs : List String) → elem k (add_name x xs) ≡ (elem k xs || str_eq k x)
unfolding add_name
add_name-elem k x xs = elim (Bool-cases (elem x xs)) [
  | inl e ↦ rw e (there k x xs e (Bool-cases (str_eq k x)))
  | inr e ↦ rw e (elem-append k xs (x ∷ []) ∙ ground arith)
]

count_code-elem :
    (k rc : String) (b : Bool) (acc : Dict ℕ × List String)
    → (str_eq k rc ≡ true → is_known k ≡ b)
    → elem k (count_code b rc acc).1 ≡ (elem k acc.1 || not (is_known k) && str_eq k rc)
unfolding count_code
count_code-elem k rc true acc h = ground arith
count_code-elem k rc false acc h = add_name-elem k rc acc.1 ∙ ground arith

count_codes-elem :
    (k : String) (ts : List Triple) (acc : Dict ℕ × List String)
    → elem k (count_codes ts acc).1
      ≡ (elem k acc.1 || not (is_known k) && any (λ t. str_eq k t.code) ts)
unfolding count_codes
count_codes-elem k [] acc = ground arith
count_codes-elem k (t ∷ ts) acc =
    count_codes-elem k ts (count_code (is_known t.code) t.code acc)
    ∙ ground (
      arith,
      count_code-elem k t.code (is_known t.code) acc (λ e. ap is_known ((eq_iff k t.code).0 e)),
    )

normalize-any :
    (k : String) (rs : List Refusal)
    → any (λ t. str_eq k t.code) (normalize rs).0 ≡ any (λ r. carries k r.reason_code) rs
unfolding normalize normalize_one
normalize-any k [] = refl
normalize-any k (r ∷ rs) = one r.reason_code r (normalize rs) (normalize-any k rs)
  where
    one :
        (o : Option String) (r : Refusal) (rest : List Triple × ℕ)
        → any (λ t. str_eq k t.code) rest.0 ≡ any (λ r. carries k r.reason_code) rs
        → any (λ t. str_eq k t.code) (normalize_one o r rest).0
          ≡ (carries k o || any (λ r. carries k r.reason_code) rs)
    one none r rest h = h
    one (some rc) r rest h = ap (λ b. str_eq k rc || b) h

-- Every refusal of a batch shows in its report. A known code is counted exactly as often as refusals
-- carry it, and no other code is counted; the unknown codes are exactly those that some refusal
-- carries and the taxonomy lacks; and each refusal without a code counts as unreadable.
pub reconcile_refusals-counts :
    (rs : List Refusal) (s : Settings) (k : String)
    → (or_nought (lookup k (reconcile_refusals rs s).counts)
        ≡ known_times (is_known k) (times k rs))
      × (elem k (reconcile_refusals rs s).unknown_codes
          ≡ (not (is_known k) && any (λ r. carries k r.reason_code) rs))
      × ((reconcile_refusals rs s).unreadable ≡ length (filter (λ r. is_unread r.reason_code) rs))
unfolding reconcile_refusals report_of or_nought
reconcile_refusals-counts rs s k = (
  omega (
    arith,
    count_codes-lookup k (normalize rs).0 ([], []),
    ap (known_times (is_known k)) (normalize-times k rs),
  ),
  any-sort str_le (str_eq k) (count_codes (normalize rs).0 ([], [])).1
      ∙ count_codes-elem k (normalize rs).0 ([], [])
      ∙ ap (λ b. not (is_known k) && b) (normalize-any k rs),
  normalize-unread rs,
)
