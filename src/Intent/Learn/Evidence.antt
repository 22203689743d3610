-- ===== src/Intent/Learn/Evidence.antt =====
-- Which refusals each learned constraint comes from (intent/learn.py: the learned constraints of
-- `reconcile_refusals`).
use otto_q_core.Intent.Learn.Repeats.{
  teaches, is_evidence, gives_reason, IsGrounded, reconcile_refusals-Paired,
}
use otto_q_core.Intent.Learn.Counts.{carries}
use otto_q_core.Intent.Learn.{
  add_pair, count_pair, count_pairs, Pairs, class_of, Settings, reconcile_refusals,
}
use otto_q_core.Intent.Learn.Taxonomy.{
  Refusal, RefusalKind, Triple, live_world, solver_gap, transient, normalize, normalize_one,
  is_known,
}
use otto_q_core.Base.{
  ℕ, ◌+◌, ◌≤◌, ◌<◌, String, ◌≡◌, refl, sym, ap, subst, inl, inr, true, ◌&&◌, Option, none, some,
  List, [], ◌∷◌, arith, eq_iff, str_eq, if◌then◌else◌, Bool-cases, length, filter, any, All,
  All-map,
}

-- How many refusals carry a code for an entity.
abbrev pub came : String → String → List Refusal → ℕ
came code entity rs =
    length (filter (λ r. carries code r.reason_code && carries entity r.entity_id) rs)

-- A structural refusal is enough, one of the live world must come more often than the threshold, and
-- a transient one is never enough.
abbrev pub Enough : RefusalKind → ℕ → ℕ → Type 0
Enough transient threshold n = ⊥
Enough live_world threshold n = threshold < n
Enough solver_gap threshold n = 1 ≤ n

-- The batch has enough refusals for the entity with a code that teaches the constraint.
abbrev pub IsWarranted : ℕ → List Refusal → String → String → Type 0
IsWarranted threshold rs lc entity =
    (code : String) × ((class_of code).learned_constraint ≡ some lc)
    × Enough (class_of code).kind threshold (came code entity rs)

abbrev came_in : String → String → List Triple → ℕ
came_in code entity ts = length (filter (λ t. str_eq code t.code && carries entity t.entity) ts)

normalize-came :
    (code entity : String) (rs : List Refusal)
    → came_in code entity (normalize rs).0 ≡ came code entity rs
unfolding normalize normalize_one
normalize-came code entity [] = refl
normalize-came code entity (r ∷ rs) =
    one r.reason_code r (normalize rs) (normalize-came code entity rs)
  where
    one :
        (o : Option String) (r : Refusal) (rest : List Triple × ℕ)
        → came_in code entity rest.0 ≡ came code entity rs
        → came_in code entity (normalize_one o r rest).0
          ≡ length (
              if carries code o && carries entity r.entity_id
              then r ∷ filter (λ r. carries code r.reason_code && carries entity r.entity_id) rs
              else filter (λ r. carries code r.reason_code && carries entity r.entity_id) rs)
    one none r rest h = h
    one (some rc) r rest h = ground arith

-- Each pair came at least once, and no more often than counted.
abbrev Backed : (String → String → ℕ) → Pairs → Type 0
Backed f = All λ p. (1 ≤ p.1) × (p.1 ≤ f p.0.0 p.0.1)

Backed-later :
    (f g : String → String → ℕ) (ps : Pairs)
    → ((c e : String) → f c e ≤ g c e)
    → Backed f ps
    → Backed g ps
Backed-later f g ps h b = All-map _ _ ps (λ p k. (k.0, omega (arith, k.1, h p.0.0 p.0.1))) b

add_pair-Backed :
    (f g : String → String → ℕ) (rc eid : String) (ps : Pairs)
    → ((c e : String) → f c e ≤ g c e)
    → f rc eid + 1 ≤ g rc eid
    → Backed f ps
    → Backed g (add_pair rc eid ps)
unfolding add_pair
add_pair-Backed f g rc eid [] h more b = ((omega arith, omega (arith, more)), tt)
add_pair-Backed f g rc eid (p ∷ ps) h more b =
    elim (Bool-cases (str_eq rc p.0.0 && str_eq eid p.0.1)) [
      | inl e ↦
          let matched : f p.0.0 p.0.1 + 1 ≤ g p.0.0 p.0.1 =
            subst (λ c. f c p.0.1 + 1 ≤ g c p.0.1) ((eq_iff rc p.0.0).0 (ground arith))
              (subst (λ x. f rc x + 1 ≤ g rc x) ((eq_iff eid p.0.1).0 (ground arith)) more) in
          rw e ((omega arith, omega (arith, b.0.1, matched)), Backed-later f g ps h b.1)
      | inr e ↦
          rw e
            ((b.0.0, omega (arith, b.0.1, h p.0.0 p.0.1)), add_pair-Backed f g rc eid ps h more b.1)
    ]

abbrev once : String → Option String → String → String → ℕ
once rc o c e = if str_eq c rc && carries e o then 1 else 0

count_pair-Backed :
    (f : String → String → ℕ) (rc : String) (o : Option String) (ps : Pairs)
    → Backed f ps
    → Backed (λ c e. f c e + once rc o c e) (count_pair rc o ps)
unfolding count_pair
count_pair-Backed f rc none ps b = Backed-later f _ ps (λ c e. omega arith) b
count_pair-Backed f rc (some eid) ps b = elim (Bool-cases (is_known rc)) [
  | inl k ↦ rw k (
      add_pair-Backed f _ rc eid ps (λ c e. omega arith)
        (ground (arith, (eq_iff rc rc).1 refl, (eq_iff eid eid).1 refl)) b)
  | inr k ↦ rw k (Backed-later f _ ps (λ c e. omega arith) b)
]

count_pairs-Backed :
    (f : String → String → ℕ) (ts : List Triple) (ps : Pairs)
    → Backed f ps
    → Backed (λ c e. f c e + came_in c e ts) (count_pairs ts ps)
unfolding count_pairs
count_pairs-Backed f [] ps b = Backed-later f _ ps (λ c e. omega arith) b
count_pairs-Backed f (t ∷ ts) ps b =
    Backed-later (λ c e. f c e + once t.code t.entity c e + came_in c e ts) _ _
      (λ c e. ground arith)
      (count_pairs-Backed (λ c e. f c e + once t.code t.entity c e) ts _
        (count_pair-Backed f t.code t.entity ps b))

taught : (o : Option String) (lc : String) → teaches o lc ≡ true → o ≡ some lc
taught none lc h = ground arith
taught (some l) lc h = ap some ((eq_iff l lc).0 h)

enough :
    (kind : RefusalKind) (threshold n m : ℕ)
    → is_evidence kind threshold n ≡ true
    → 1 ≤ n
    → n ≤ m
    → Enough kind threshold m
enough transient threshold n m h one le = ground arith
enough live_world threshold n m h one le = ground arith
enough solver_gap threshold n m h one le = omega arith

module _ (threshold : ℕ) (rs : List Refusal) (lc entity : String) where
  pair-IsWarranted :
      (p : (String × String) × ℕ)
      → gives_reason threshold lc entity p ≡ true
      → (1 ≤ p.1) × (p.1 ≤ came p.0.0 p.0.1 rs)
      → IsWarranted threshold rs lc entity
  pair-IsWarranted p h b =
      let at = (eq_iff entity p.0.1).0 (ground arith) in
      (
        p.0.0,
        taught (class_of p.0.0).learned_constraint lc (ground arith),
        subst (λ x. Enough (class_of p.0.0).kind threshold (came p.0.0 x rs)) (sym at)
            (enough (class_of p.0.0).kind threshold p.1 _ (ground arith) b.0 b.1),
      )

  pairs-IsWarranted :
      (ps : Pairs)
      → Backed (λ c e. came c e rs) ps
      → any (gives_reason threshold lc entity) ps ≡ true
      → IsWarranted threshold rs lc entity
  pairs-IsWarranted [] b h = ground arith
  pairs-IsWarranted (p ∷ ps) b h = elim (Bool-cases (gives_reason threshold lc entity p)) [
    | inl e ↦ pair-IsWarranted p e b.0
    | inr e ↦ pairs-IsWarranted ps b.1 (ground arith)
  ]

  IsGrounded-IsWarranted :
      IsGrounded threshold (count_pairs (normalize rs).0 []) lc entity
      → IsWarranted threshold rs lc entity
  IsGrounded-IsWarranted h =
      pairs-IsWarranted (count_pairs (normalize rs).0 [])
        (Backed-later _ _ _ (λ c e. omega (arith, normalize-came c e rs))
          (count_pairs-Backed (λ c e. 0) (normalize rs).0 [] tt))
        h

-- For each constraint of the report and each entity in it, the batch has a code that teaches this
-- constraint and came for this entity: a structural refusal at least once, or one of the live world
-- more often than the threshold.
pub reconcile_refusals-Grounded :
    (rs : List Refusal) (s : Settings)
    → All
        (λ c. All (IsWarranted s.entity_repeat_threshold rs c.0) c.1)
        (reconcile_refusals rs s).learned_constraints
reconcile_refusals-Grounded rs s =
    All-map _ _ _
      (λ c h. All-map _ _ c.1 (IsGrounded-IsWarranted s.entity_repeat_threshold rs c.0) h)
      (reconcile_refusals-Paired rs s)
