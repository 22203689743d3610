-- ===== src/Intent/Learn/Repeats.antt =====
-- Which counted pair each learned constraint comes from (intent/learn.py: `reconcile_refusals`).
use otto_q_core.Base.Sort.{All-sort}
use otto_q_core.Base.{
  ℕ, String, ◌≡◌, refl, sym, ap, subst, ◌∙◌, inl, inr, Bool, true, false, ◌&&◌, ◌||◌, Option, none,
  some, List, [], ◌∷◌, map, arith, eq_iff, ltb, str_eq, str_le, Bool-cases, filter, any, All, elem,
  Dict, lookup, insert, keys,
}
use otto_q_core.Intent.Learn.{
  count_pairs, is_repeat, by_name, is_flagged, counts_for, add_entities, or_empty_dict, learn_one,
  constraint_of, Settings, report_of, reconcile_refusals, Pairs, class_of, learn,
}
use otto_q_core.Intent.Learn.Taxonomy.{
  Refusal, RefusalKind, live_world, solver_gap, transient, normalize,
}

-- The constraint is the one that a code teaches.
abbrev pub teaches : Option String → String → Bool
teaches none lc = false
teaches (some l) lc = str_eq l lc

-- A structural refusal counts at once, one of the live world only when it repeats, others never.
abbrev pub is_evidence : RefusalKind → ℕ → ℕ → Bool
is_evidence transient threshold n = false
is_evidence live_world threshold n = ltb threshold n
is_evidence solver_gap threshold n = true

-- A pair gives reason to hold a constraint against an entity.
abbrev pub gives_reason : ℕ → String → String → (String × String) × ℕ → Bool
gives_reason threshold lc entity p =
    str_eq entity p.0.1
    && teaches (class_of p.0.0).learned_constraint lc
    && is_evidence (class_of p.0.0).kind threshold p.1

module _ (threshold : ℕ) (pairs : Pairs) where
  -- Some pair of the batch gives reason.
  abbrev pub IsGrounded : String → String → Type 0
  IsGrounded lc entity = any (gives_reason threshold lc entity) pairs ≡ true

  abbrev AllGrounded : String → Dict ℕ → Type 0
  AllGrounded lc = All λ e. IsGrounded lc e.0

  abbrev Grounds : Dict (Dict ℕ) → Type 0
  Grounds = All λ e. AllGrounded e.0 e.1

All-insert {ℓ} :
    {V : Type ℓ} (P : String × V → Type 0) (k : String) (v : V) (d : Dict V)
    → All P d
    → P (k, v)
    → All P (insert k v d)
All-insert P k v [] h p = (p, tt)
All-insert P k v (e ∷ d) h p = elim (Bool-cases (str_eq k e.0)) [
  | inl q ↦ rw q (subst (λ j. P (j, v)) ((eq_iff k e.0).0 q) p, h.1)
  | inr q ↦ rw q (h.0, All-insert P k v d h.1 p)
]

evidence :
    (kind : RefusalKind) (threshold : ℕ) (code : String) (pairs : Pairs) (p : (String × String) × ℕ)
    → is_flagged kind threshold code pairs ≡ true
    → counts_for kind threshold code p ≡ true
    → (str_eq p.0.0 code ≡ true) × (is_evidence kind threshold p.1 ≡ true)
unfolding is_flagged counts_for is_repeat
evidence transient threshold code pairs p f c = ground arith
evidence live_world threshold code pairs p f c = (ground arith, ground arith)
evidence solver_gap threshold code pairs p f c = (c, refl)

-- A pair that counts for a code's constraint gives reason to hold it against the pair's entity.
gives :
    (threshold : ℕ) (lc code : String) (pairs : Pairs) (p : (String × String) × ℕ)
    → (class_of code).learned_constraint ≡ some lc
    → is_flagged (class_of code).kind threshold code pairs ≡ true
    → counts_for (class_of code).kind threshold code p ≡ true
    → gives_reason threshold lc p.0.1 p ≡ true
gives threshold lc code pairs p l f c =
    let e = evidence (class_of code).kind threshold code pairs p f c in
    let same_class = ap class_of (sym ((eq_iff p.0.0 code).0 e.0)) in
    all_three ((eq_iff p.0.1 p.0.1).1 refl)
      (subst (λ r. teaches r.learned_constraint lc ≡ true) same_class
        (ap (λ o. teaches o lc) l ∙ (eq_iff lc lc).1 refl))
      (subst (λ r. is_evidence r.kind threshold p.1 ≡ true) same_class e.1)
  where
    all_three : {a b c : Bool} → a ≡ true → b ≡ true → c ≡ true → (a && b && c) ≡ true
    all_three h k l = ground arith

module _ (threshold : ℕ) (lc code : String) (pairs : Pairs)
    (l : (class_of code).learned_constraint ≡ some lc)
    (f : is_flagged (class_of code).kind threshold code pairs ≡ true) where
  filter-Grounded :
      (ps : Pairs)
      → ((e : String)
          → any (gives_reason threshold lc e) ps ≡ true
          → IsGrounded threshold pairs lc e)
      → All
          (λ p. IsGrounded threshold pairs lc p.0.1)
          (filter (counts_for (class_of code).kind threshold code) ps)
  filter-Grounded [] h = tt
  filter-Grounded (p ∷ ps) h =
      elim (Bool-cases (counts_for (class_of code).kind threshold code p)) [
        | inl c ↦ rw c (
          h p.0.1 (first p ps (gives threshold lc code pairs p l f c)),
          filter-Grounded ps (λ e g. h e (rest e p ps g)),
        )
        | inr c ↦ rw c (filter-Grounded ps (λ e g. h e (rest e p ps g)))
      ]
    where
      first :
          (p : (String × String) × ℕ) (ps : Pairs)
          → gives_reason threshold lc p.0.1 p ≡ true
          → any (gives_reason threshold lc p.0.1) (p ∷ ps) ≡ true
      first p ps g = ap (λ b. b || any (gives_reason threshold lc p.0.1) ps) g

      rest :
          (e : String) (p : (String × String) × ℕ) (ps : Pairs)
          → any (gives_reason threshold lc e) ps ≡ true
          → any (gives_reason threshold lc e) (p ∷ ps) ≡ true
      rest e p ps g =
          or_later (gives_reason threshold lc e p) (any (gives_reason threshold lc e) ps) g
        where
          or_later : (a b : Bool) → b ≡ true → (a || b) ≡ true
          or_later a b h = ground arith

add_entities-Grounded :
    (threshold : ℕ) (pairs : Pairs) (lc : String) (ps : Pairs) (d : Dict ℕ)
    → All (λ p. IsGrounded threshold pairs lc p.0.1) ps
    → AllGrounded threshold pairs lc d
    → AllGrounded threshold pairs lc (add_entities ps d)
unfolding add_entities
add_entities-Grounded threshold pairs lc [] d g h = h
add_entities-Grounded threshold pairs lc (p ∷ ps) d g h =
    add_entities-Grounded threshold pairs lc ps _ g.1
      (All-insert (λ e. IsGrounded threshold pairs lc e.0) p.0.1 _ d h g.0)

lookup-Grounded :
    (threshold : ℕ) (pairs : Pairs) (lc : String) (d : Dict (Dict ℕ))
    → Grounds threshold pairs d
    → AllGrounded threshold pairs lc (or_empty_dict (lookup lc d))
unfolding or_empty_dict
lookup-Grounded threshold pairs lc [] h = tt
lookup-Grounded threshold pairs lc (x ∷ d) h = elim (Bool-cases (str_eq lc x.0)) [
  | inl q ↦ rw q (subst (λ j. AllGrounded threshold pairs j x.1) (sym ((eq_iff lc x.0).0 q)) h.0)
  | inr q ↦ rw q (lookup-Grounded threshold pairs lc d h.1)
]

learn_one-Grounds :
    (threshold : ℕ) (pairs : Pairs) (o : Option String) (code : String) (d : Dict (Dict ℕ))
    → (class_of code).learned_constraint ≡ o
    → Grounds threshold pairs d
    → Grounds threshold pairs (learn_one o (class_of code).kind threshold code pairs d)
unfolding learn_one
learn_one-Grounds threshold pairs none code d l h = h
learn_one-Grounds threshold pairs (some lc) code d l h =
    elim (Bool-cases (is_flagged (class_of code).kind threshold code pairs)) [
      | inl f ↦ rw f (
          All-insert (λ e. AllGrounded threshold pairs e.0 e.1) lc _ d h
            (add_entities-Grounded threshold pairs lc _ _
              (filter-Grounded threshold lc code pairs l f pairs (λ e g. g))
              (lookup-Grounded threshold pairs lc d h)))
      | inr f ↦ rw f h
    ]

learn-Grounds :
    (threshold : ℕ) (pairs : Pairs) (codes : List String) (d : Dict (Dict ℕ))
    → Grounds threshold pairs d
    → Grounds threshold pairs (learn threshold pairs codes d)
unfolding learn
learn-Grounds threshold pairs [] d h = h
learn-Grounds threshold pairs (code ∷ codes) d h =
    learn-Grounds threshold pairs codes _ (learn_one-Grounds threshold pairs _ code d refl h)

-- The entities of a constraint.
abbrev pub EachGrounded : ℕ → Pairs → String × List String → Type 0
EachGrounded threshold pairs c = All (IsGrounded threshold pairs c.0) c.1

keys-Grounded :
    (threshold : ℕ) (pairs : Pairs) (lc : String) (d : Dict ℕ)
    → AllGrounded threshold pairs lc d
    → All (IsGrounded threshold pairs lc) (keys d)
keys-Grounded threshold pairs lc [] h = tt
keys-Grounded threshold pairs lc (e ∷ d) h = (h.0, keys-Grounded threshold pairs lc d h.1)

constraint_of-Grounded :
    (threshold : ℕ) (pairs : Pairs) (capped : List String) (e : String × Dict ℕ)
    → AllGrounded threshold pairs e.0 e.1
    → EachGrounded threshold pairs (constraint_of capped e)
unfolding constraint_of
constraint_of-Grounded threshold pairs capped e h = elim (Bool-cases (elem e.0 capped)) [
  | inl g ↦ rw g tt
  | inr g ↦ rw g (
      All-sort str_le (IsGrounded threshold pairs e.0) (keys e.1)
        (keys-Grounded threshold pairs e.0 e.1 h))
]

map-Grounded :
    (threshold : ℕ) (pairs : Pairs) (capped : List String) (ls : Dict (Dict ℕ))
    → Grounds threshold pairs ls
    → All (EachGrounded threshold pairs) (map (constraint_of capped) ls)
map-Grounded threshold pairs capped [] h = tt
map-Grounded threshold pairs capped (e ∷ ls) h = (
  constraint_of-Grounded threshold pairs capped e h.0,
  map-Grounded threshold pairs capped ls h.1,
)

-- For each constraint of the report and each entity in it, some pair that was counted gives reason.
pub reconcile_refusals-Paired :
    (rs : List Refusal) (s : Settings)
    → All
        (EachGrounded s.entity_repeat_threshold (count_pairs (normalize rs).0 []))
        (reconcile_refusals rs s).learned_constraints
unfolding reconcile_refusals report_of
reconcile_refusals-Paired rs s =
    let pairs = count_pairs (normalize rs).0 [] in
    map-Grounded s.entity_repeat_threshold pairs _ _ (
      All-sort by_name (λ e. AllGrounded s.entity_repeat_threshold pairs e.0 e.1) _
        (learn-Grounds s.entity_repeat_threshold pairs _ [] tt))
