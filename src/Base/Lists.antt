-- ===== src/Base/Lists.antt =====
-- Lists under Boolean tests, and lists of names.
use Prim.Native.Nat.{ℕ, suc, ◌+◌}
use Prim.Native.String.{String}
use mathlib.Core.Path.{◌≡◌, refl, ap, ◌∙◌}
use mathlib.Core.Logic.{inl, inr}
use mathlib.Core.Bool.{Bool, true, false, not, ◌&&◌, ◌||◌}
use mathlib.Core.List.{List, [], ◌∷◌, ◌++◌, map}
use mathlib.Core.Option.{Option, none, some}
use native.Mathlib.Omega.{arith}
use text.Mathlib.TextEquality.{eq_iff}
use otto_q_core.Base.Tests.{str_eq, if◌then◌else◌, Bool-cases, if-true, if-false}

module _ {ℓ} {A : Type ℓ} where
  abbrev pub length : List A → ℕ
  length [] = 0
  length (x ∷ xs) = suc (length xs)

  -- The elements that pass a Boolean test, in order.
  abbrev pub filter : (A → Bool) → List A → List A
  filter p [] = []
  filter p (x ∷ xs) = if p x then x ∷ filter p xs else filter p xs

  abbrev pub any : (A → Bool) → List A → Bool
  any p [] = false
  any p (x ∷ xs) = p x || any p xs

  abbrev pub all : (A → Bool) → List A → Bool
  all p [] = true
  all p (x ∷ xs) = p x && all p xs

  abbrev pub find : (A → Bool) → List A → Option A
  find p [] = none
  find p (x ∷ xs) = if p x then some x else find p xs

  abbrev pub All {κ} : (A → Type κ) → List A → Type κ
  All P [] = Unit
  All P (x ∷ xs) = P x × All P xs

  -- A relation between each element and each that follows it.
  abbrev pub Pairwise {κ} : (A → A → Type κ) → List A → Type κ
  Pairwise R [] = Unit
  Pairwise R (x ∷ xs) = All (R x) xs × Pairwise R xs

  pub length-append : (xs ys : List A) → length (xs ++ ys) ≡ length xs + length ys
  length-append [] ys = omega arith
  length-append (x ∷ xs) ys = omega (arith, length-append xs ys)

  pub length-filter_split :
      (p : A → Bool) (xs : List A)
      → length (filter p xs) + length (filter (λ x. not (p x)) xs) ≡ length xs
  length-filter_split p [] = omega arith
  length-filter_split p (x ∷ xs) = ground (arith, length-filter_split p xs)

pub length-map {ℓ κ} :
    {A : Type ℓ} {B : Type κ} (f : A → B) (xs : List A) → length (map f xs) ≡ length xs
length-map f [] = refl
length-map f (x ∷ xs) = ap suc (length-map f xs)

-- `k in names`
abbrev pub elem : String → List String → Bool
elem k xs = any (str_eq k) xs

-- A frozenset of names: each once.
abbrev pub set_of : List String → List String
set_of [] = []
set_of (x ∷ xs) = let rest = set_of xs in if elem x rest then rest else x ∷ rest

-- No name stands twice.
abbrev pub IsDistinct : List String → Type 0
IsDistinct [] = Unit
IsDistinct (x ∷ xs) = (elem x xs ≡ false) × IsDistinct xs

pub elem-append : (k : String) (xs ys : List String) → elem k (xs ++ ys) ≡ (elem k xs || elem k ys)
elem-append k [] ys = refl
elem-append k (x ∷ xs) ys = ground (arith, elem-append k xs ys)

pub elem-filter :
    (k : String) (p : String → Bool) (xs : List String) → elem k (filter p xs) ≡ (elem k xs && p k)
elem-filter k p [] = refl
elem-filter k p (x ∷ xs) = ground (arith, eq_iff k x, elem-filter k p xs)

-- How often a name stands in a list.
abbrev pub count : String → List String → ℕ
count k [] = 0
count k (x ∷ xs) = if str_eq k x then suc (count k xs) else count k xs

pub count-append : (k : String) (xs ys : List String) → count k (xs ++ ys) ≡ count k xs + count k ys
count-append k [] ys = omega arith
count-append k (x ∷ xs) ys = ground (arith, count-append k xs ys)

pub map-append {ℓ κ} :
    {A : Type ℓ} {B : Type κ} (f : A → B) (xs ys : List A) → map f (xs ++ ys) ≡ map f xs ++ map f ys
map-append f [] ys = refl
map-append f (x ∷ xs) ys = ap (◌∷◌ (f x)) (map-append f xs ys)

pub All-append {ℓ κ} :
    {A : Type ℓ} (P : A → Type κ) (xs ys : List A) → All P xs → All P ys → All P (xs ++ ys)
All-append P [] ys h k = k
All-append P (x ∷ xs) ys h k = (h.0, All-append P xs ys h.1 k)

pub All-split {ℓ κ} :
    {A : Type ℓ} (P : A → Type κ) (xs ys : List A) → All P (xs ++ ys) → All P xs × All P ys
All-split P [] ys h = (tt, h)
All-split P (x ∷ xs) ys h = let rest = All-split P xs ys h.1 in ((h.0, rest.0), rest.1)

pub All-map {ℓ κ μ} :
    {A : Type ℓ} (P : A → Type κ) (Q : A → Type μ) (xs : List A)
    → ((x : A) → P x → Q x)
    → All P xs
    → All Q xs
All-map P Q [] f h = tt
All-map P Q (x ∷ xs) f h = (f x h.0, All-map P Q xs f h.1)

-- What passes a test somewhere in a list is found, and is one of the list.
pub find-any {ℓ κ} :
    {A : Type ℓ} (P : A → Type κ) (p : A → Bool) (xs : List A)
    → All P xs
    → any p xs ≡ true
    → (x : A) × (find p xs ≡ some x) × P x
find-any P p [] g h = ground arith
find-any P p (x ∷ xs) g h = elim (Bool-cases (p x)) [
  | inl e ↦ (x, if-true _ _ e, g.0)
  | inr e ↦
      let rest = find-any P p xs g.1 (ground arith) in (rest.0, if-false _ _ e ∙ rest.1, rest.2)
]

pub All-filter {ℓ κ} :
    {A : Type ℓ} (P : A → Type κ) (p : A → Bool) (xs : List A) → All P xs → All P (filter p xs)
All-filter P p [] h = tt
All-filter P p (x ∷ xs) h = elim (Bool-cases (p x)) [
  | inl e ↦ rw e (h.0, All-filter P p xs h.1)
  | inr e ↦ rw e (All-filter P p xs h.1)
]

-- Every element of one list is related to every element of the other.
abbrev pub Cross {ℓ κ} : {A : Type ℓ} → (A → A → Type κ) → List A → List A → Type κ
Cross R xs ys = All (λ x. All (R x) ys) xs

module _ {ℓ κ} {A : Type ℓ} (R : A → A → Type κ) where
  pub Pairwise-split :
      (xs ys : List A) → Pairwise R (xs ++ ys) → Pairwise R xs × Pairwise R ys × Cross R xs ys
  Pairwise-split [] ys h = (tt, h, tt)
  Pairwise-split (x ∷ xs) ys h =
      let near = All-split (R x) xs ys h.0 in
      let rest = Pairwise-split xs ys h.1 in ((near.0, rest.0), rest.1, (near.1, rest.2))

  pub Cross-swap :
      (sym_R : (x y : A) → R x y → R y x) (xs ys : List A) → Cross R xs ys → Cross R ys xs
  Cross-swap sym_R xs [] h = tt
  Cross-swap sym_R xs (y ∷ ys) h = (heads xs h, Cross-swap sym_R xs ys (tails xs h))
    where
      heads : (zs : List A) → Cross R zs (y ∷ ys) → All (R y) zs
      heads [] k = tt
      heads (z ∷ zs) k = (sym_R z y k.0.0, heads zs k.1)

      tails : (zs : List A) → Cross R zs (y ∷ ys) → Cross R zs ys
      tails [] k = tt
      tails (z ∷ zs) k = (k.0.1, tails zs k.1)
