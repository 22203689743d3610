-- ===== src/Intent/Learn/Blocks.antt =====
-- What is learned stays within the cap (intent/learn.py: `reconcile_refusals`).
use otto_q_core.Base.{
  ℕ, zero, suc, ◌*◌, ◌≤◌, String, ◌≡◌, refl, ap, ◌∙◌, ◌⊎◌, inl, inr, Bool, true, false, Option,
  none, some, List, [], ◌∷◌, map, arith, eq_iff, str_le, Bool-cases, length, filter, All,
  length-map, elem, Dict, lookup, keys,
}
use otto_q_core.Base.Sort.{sort, place}
use otto_q_core.Intent.Learn.{
  report_of, reconcile_refusals, is_capped, constraint_of, Settings, exceeds,
}
use otto_q_core.Intent.Learn.Taxonomy.{Refusal}

-- Not more than the fraction, in thousandths, of a declared number above nought.
abbrev pub Fits : Option ℕ → ℕ → ℕ → Type 0
Fits none fraction n = Unit
Fits (some zero) fraction n = Unit
Fits (some (suc total)) fraction n = 1000 * n ≤ fraction * suc total

-- A constraint names at most its share of the capable entities, where their number is declared.
abbrev pub WithinCap : Settings → String × List String → Type 0
WithinCap s c = Fits (lookup c.0 s.capable_entities) s.max_block_fraction (length c.1)

exceeds-Fits : (o : Option ℕ) (fraction n : ℕ) → exceeds o fraction n ≡ false → Fits o fraction n
unfolding exceeds
exceeds-Fits none fraction n h = tt
exceeds-Fits (some zero) fraction n h = tt
exceeds-Fits (some (suc total)) fraction n h = ground arith

exceeds-nothing : (o : Option ℕ) (fraction : ℕ) → exceeds o fraction 0 ≡ false
unfolding exceeds
exceeds-nothing none fraction = refl
exceeds-nothing (some total) fraction = ground arith

length-place :
    {A : Type 0} (le : A → A → Bool) (x : A) (xs : List A)
    → length (place le x xs) ≡ suc (length xs)
length-place le x [] = refl
length-place le x (y ∷ ys) = ground (arith, length-place le x ys)

length-sort : {A : Type 0} (le : A → A → Bool) (xs : List A) → length (sort le xs) ≡ length xs
length-sort le [] = refl
length-sort le (x ∷ xs) = length-place le x (sort le xs) ∙ ap suc (length-sort le xs)

-- Each entry that passes a test is named among the entries that pass it.
module _ (p : String × Dict ℕ → Bool) where
  abbrev Named : List String → String × Dict ℕ → Type 0
  Named names e = p e ≡ true → elem e.0 names ≡ true

  later :
      (e : String × Dict ℕ) (ls : Dict (Dict ℕ)) (k : String)
      → elem k (keys (filter p ls)) ≡ true
      → elem k (keys (filter p (e ∷ ls))) ≡ true
  later e ls k h = elim (Bool-cases (p e)) [ inl q ↦ rw q (ground arith) | inr q ↦ rw q h ]

  here :
      (e : String × Dict ℕ) (ls : Dict (Dict ℕ))
      → p e ≡ true
      → elem e.0 (keys (filter p (e ∷ ls))) ≡ true
  here e ls q = rw q (ground (arith, (eq_iff e.0 e.0).1 refl))

  All-Named :
      (ls : Dict (Dict ℕ)) (names : List String)
      → ((k : String) → elem k (keys (filter p ls)) ≡ true → elem k names ≡ true)
      → All (Named names) ls
  All-Named [] names h = tt
  All-Named (e ∷ ls) names h =
      (λ q. h e.0 (here e ls q), All-Named ls names (λ k m. h k (later e ls k m)))

constraint_of-WithinCap :
    (s : Settings) (capped : List String) (e : String × Dict ℕ)
    → (is_capped s.capable_entities s.max_block_fraction e ≡ true → elem e.0 capped ≡ true)
    → WithinCap s (constraint_of capped e)
unfolding constraint_of is_capped
constraint_of-WithinCap s capped e h = elim (Bool-cases (elem e.0 capped)) [
  | inl g ↦ rw g (
      exceeds-Fits (lookup e.0 s.capable_entities) s.max_block_fraction 0
        (exceeds-nothing (lookup e.0 s.capable_entities) s.max_block_fraction))
  | inr g ↦ rw g (
      exceeds-Fits (lookup e.0 s.capable_entities) s.max_block_fraction _
        (within e (Bool-cases (is_capped s.capable_entities s.max_block_fraction e)) g h))
]
  where
    within :
        (e : String × Dict ℕ)
        → (is_capped s.capable_entities s.max_block_fraction e ≡ true)
          ⊎ (is_capped s.capable_entities s.max_block_fraction e ≡ false)
        → elem e.0 capped ≡ false
        → (is_capped s.capable_entities s.max_block_fraction e ≡ true → elem e.0 capped ≡ true)
        → exceeds
            (lookup e.0 s.capable_entities)
            s.max_block_fraction
            (length (sort str_le (keys e.1)))
          ≡ false
    within e (inl q) g h = ground (arith, h q)
    within e (inr q) g h =
        ap (exceeds (lookup e.0 s.capable_entities) s.max_block_fraction)
          (length-sort str_le (keys e.1) ∙ length-map (λ x. x.0) e.1)
        ∙ q

map-WithinCap :
    (s : Settings) (names : List String) (ls : Dict (Dict ℕ))
    → All (Named (is_capped s.capable_entities s.max_block_fraction) names) ls
    → All (WithinCap s) (map (constraint_of names) ls)
map-WithinCap s names [] h = tt
map-WithinCap s names (e ∷ ls) h =
    (constraint_of-WithinCap s names e h.0, map-WithinCap s names ls h.1)

-- Whatever the batch holds: where a caller declares how many entities a kind of constraint may
-- name, and declares more than none, the report's constraint of that kind names no more than the
-- fraction of them.
pub reconcile_refusals-WithinCap :
    (rs : List Refusal) (s : Settings)
    → All (WithinCap s) (reconcile_refusals rs s).learned_constraints
unfolding reconcile_refusals report_of
reconcile_refusals-WithinCap rs s =
    map-WithinCap s _ _
      (All-Named (is_capped s.capable_entities s.max_block_fraction) _ _ (λ k h. h))
