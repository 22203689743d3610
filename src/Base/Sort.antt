-- ===== src/Base/Sort.antt =====
-- `sorted(xs, key=...)`: a stable insertion sort by a Boolean order.
use Prim.Native.Nat.{ℕ, ◌+◌}
use mathlib.Core.Path.{◌≡◌, refl}
use mathlib.Core.Bool.{Bool, true, false, ◌||◌}
use mathlib.Core.Logic.{inl, inr}
use mathlib.Core.List.{List, [], ◌∷◌}
use native.Mathlib.Omega.{arith}
use otto_q_core.Base.Tests.{if◌then◌else◌, Bool-cases}
use otto_q_core.Base.Lists.{any, All, Pairwise}

module _ {ℓ} {A : Type ℓ} (le : A → A → Bool) where
  -- Before the first element that does not precede it.
  abbrev pub place : A → List A → List A
  place x [] = x ∷ []
  place x (y ∷ ys) = if le x y then x ∷ y ∷ ys else y ∷ place x ys

  abbrev pub sort : List A → List A
  sort [] = []
  sort (x ∷ xs) = place x (sort xs)

  any-place : (p : A → Bool) (x : A) (xs : List A) → any p (place x xs) ≡ (p x || any p xs)
  any-place p x [] = refl
  any-place p x (y ∷ ys) = ground (arith, any-place p x ys)

  -- Sorting keeps what is there.
  pub any-sort : (p : A → Bool) (xs : List A) → any p (sort xs) ≡ any p xs
  any-sort p [] = refl
  any-sort p (x ∷ xs) = ground (arith, any-place p x (sort xs), any-sort p xs)

  All-place {κ} : (P : A → Type κ) (x : A) (xs : List A) → P x → All P xs → All P (place x xs)
  All-place P x [] h k = (h, tt)
  All-place P x (y ∷ ys) h k = ground (arith, All-place P x ys h k.1)

  pub All-sort {κ} : (P : A → Type κ) (xs : List A) → All P xs → All P (sort xs)
  All-sort P [] h = tt
  All-sort P (x ∷ xs) h = All-place P x (sort xs) h.0 (All-sort P xs h.1)

  module _ {κ} (R : A → A → Type κ) (sym_R : (x y : A) → R x y → R y x) where
    Pairwise-place : (x : A) (xs : List A) → All (R x) xs → Pairwise R xs → Pairwise R (place x xs)
    Pairwise-place x [] h k = (tt, tt)
    Pairwise-place x (y ∷ ys) h k = elim (Bool-cases (le x y)) [
      | inl e ↦ rw e (h, k)
      | inr e ↦ rw e (All-place (R y) x ys (sym_R x y h.0) k.0, Pairwise-place x ys h.1 k.1)
    ]

    -- A symmetric relation between the elements does not depend on their order.
    pub Pairwise-sort : (xs : List A) → Pairwise R xs → Pairwise R (sort xs)
    Pairwise-sort [] h = tt
    Pairwise-sort (x ∷ xs) h =
        Pairwise-place x (sort xs) (All-sort (R x) xs h.0) (Pairwise-sort xs h.1)

  place_cons : (x : A) (xs : List A) → (y : A) × (ys : List A) × (place x xs ≡ y ∷ ys)
  place_cons x [] = (x, [], refl)
  place_cons x (y ∷ ys) = elim (Bool-cases (le x y)) [
    | inl e ↦ (x, y ∷ ys, rw e)
    | inr e ↦ (y, place x ys, rw e)
  ]

  -- What is sorted from at least one element has a first one.
  pub sort_cons : (x : A) (xs : List A) → (y : A) × (ys : List A) × (sort (x ∷ xs) ≡ y ∷ ys)
  sort_cons x xs = place_cons x (sort xs)

  -- A figure that adds up over the elements is that of the sorted list.
  module _ (g : List A → ℕ) (f : A → ℕ)
      (adds : (x : A) (xs : List A) → g (x ∷ xs) ≡ f x + g xs) where
    additive-place : (x : A) (xs : List A) → g (place x xs) ≡ g (x ∷ xs)
    additive-place x [] = refl
    additive-place x (y ∷ ys) = elim (Bool-cases (le x y)) [
      | inl e ↦ rw e refl
      | inr e ↦ rw e (
          omega (
            arith,
            additive-place x ys,
            adds x ys,
            adds y ys,
            adds x (y ∷ ys),
            adds y (place x ys),
          ))
    ]

    pub additive-sort : (xs : List A) → g (sort xs) ≡ g xs
    additive-sort [] = refl
    additive-sort (x ∷ xs) =
        omega (arith, additive-place x (sort xs), adds x (sort xs), adds x xs, additive-sort xs)

  -- Each element comes before all that follow it.
  abbrev pub IsSorted : List A → Type 0
  IsSorted [] = Unit
  IsSorted (x ∷ xs) = All (λ y. le x y ≡ true) xs × IsSorted xs

-- The order is total and transitive.
pub record IsOrder {ℓ} {A : Type ℓ} (le : A → A → Bool) : Type ℓ where
  pub total : (a b : A) → le a b ≡ false → le b a ≡ true
  pub trans : (a b c : A) → le a b ≡ true → le b c ≡ true → le a c ≡ true

module _ {ℓ} {A : Type ℓ} (le : A → A → Bool) (order : IsOrder le) where
  All-below :
      (x y : A) (ys : List A)
      → le x y ≡ true
      → All (λ z. le y z ≡ true) ys
      → All (λ z. le x z ≡ true) ys
  All-below x y [] h k = tt
  All-below x y (z ∷ ys) h k = (order.trans x y z h k.0, All-below x y ys h k.1)

  place-IsSorted : (x : A) (xs : List A) → IsSorted le xs → IsSorted le (place le x xs)
  place-IsSorted x [] h = (tt, tt)
  place-IsSorted x (y ∷ ys) h = elim (Bool-cases (le x y)) [
    | inl e ↦ rw e ((e, All-below x y ys e h.0), h)
    | inr e ↦
        rw e
          (All-place le (λ z. le y z ≡ true) x ys (order.total x y e) h.0, place-IsSorted x ys h.1)
  ]

  -- Sorting sorts.
  pub sort-IsSorted : (xs : List A) → IsSorted le (sort le xs)
  sort-IsSorted [] = tt
  sort-IsSorted (x ∷ xs) = place-IsSorted x (sort le xs) (sort-IsSorted xs)
