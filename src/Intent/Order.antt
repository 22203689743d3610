-- ===== src/Intent/Order.antt =====
-- Laws of `_dedupe`, over lists of names.
use otto_q_core.Base.{
  String, ◌≡◌, refl, true, false, not, ◌&&◌, List, [], ◌∷◌, ◌++◌, arith, eq_iff, elem, IsDistinct,
  All,
}
use otto_q_core.Intent.{dedupe, dedupe_from}

pub elem-dedupe_from :
    (k : String) (seen xs : List String)
    → elem k (dedupe_from seen xs) ≡ (elem k xs && not (elem k seen))
unfolding dedupe_from
elem-dedupe_from k seen [] = refl
elem-dedupe_from k seen (x ∷ xs) =
    ground (arith, eq_iff k x, elem-dedupe_from k seen xs, elem-dedupe_from k (x ∷ seen) xs)

-- De-duplication keeps exactly the names that were there.
pub elem-dedupe : (k : String) (xs : List String) → elem k (dedupe xs) ≡ elem k xs
unfolding dedupe
elem-dedupe k xs = ground (arith, elem-dedupe_from k [] xs)

dedupe_from-IsDistinct : (seen xs : List String) → IsDistinct (dedupe_from seen xs)
unfolding dedupe_from
dedupe_from-IsDistinct seen [] = tt
dedupe_from-IsDistinct seen (x ∷ xs) = ground (
  arith,
  eq_iff x x,
  dedupe_from-IsDistinct seen xs,
  dedupe_from-IsDistinct (x ∷ seen) xs,
  elem-dedupe_from x (x ∷ seen) xs,
)

pub dedupe-IsDistinct : (xs : List String) → IsDistinct (dedupe xs)
unfolding dedupe
dedupe-IsDistinct xs = dedupe_from-IsDistinct [] xs

-- The names that were seen after a prefix.
abbrev pub seen_after : List String → List String → List String
seen_after seen [] = seen
seen_after seen (x ∷ xs) = elim (elem x seen) [
  | true ↦ seen_after seen xs
  | false ↦ seen_after (x ∷ seen) xs
]

pub dedupe_from-append :
    (seen xs ys : List String)
    → dedupe_from seen (xs ++ ys) ≡ dedupe_from seen xs ++ dedupe_from (seen_after seen xs) ys
unfolding dedupe_from
dedupe_from-append seen [] ys = refl
dedupe_from-append seen (x ∷ xs) ys =
    ground (arith, dedupe_from-append seen xs ys, dedupe_from-append (x ∷ seen) xs ys)

-- What is de-duplicated behind a prefix stays first.
pub dedupe-append :
    (xs ys : List String) → dedupe (xs ++ ys) ≡ dedupe xs ++ dedupe_from (seen_after [] xs) ys
unfolding dedupe
dedupe-append xs ys = dedupe_from-append [] xs ys

pub All-of_elem :
    (P : String → Type 0) (xs : List String) → ((k : String) → elem k xs ≡ true → P k) → All P xs
All-of_elem P [] h = tt
All-of_elem P (x ∷ xs) h =
    (h x (ground (arith, eq_iff x x)), All-of_elem P xs (λ k e. h k (ground (arith, e))))
