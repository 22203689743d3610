-- ===== src/Solver/Points/Apartness.antt =====
-- Operations of a plan and the intervals of the model that stand for them: what is pairwise apart
-- among the intervals is so among the operations (solvers/cpsat/model.py: `AddNoOverlap` on
-- `per_point_intervals`).
use otto_q_core.Solver.Model.{Interval, Apart, Assignment, is_present}
use otto_q_core.Plan.{AssetPlan, Op}
use otto_q_core.Base.{
  ℕ, ◌+◌, ◌≤◌, String, ◌≡◌, ◌⊎◌, inl, inr, Bool, true, false, not, ◌&&◌, none, some, List, [], ◌∷◌,
  ◌++◌, arith, str_eq, All, Pairwise, Cross,
}

module _ (id : String) (gap : ℕ) where
  -- The operation takes the point: a parallel one shares the point of its own charge.
  abbrev pub is_at : Op → Bool
  is_at o = not o.parallel && elim o.point [ none ↦ false | some pid ↦ str_eq pid id ]

  -- One ends, with the gap behind it, before the other starts, if both are at the point.
  abbrev pub Separate : Op → Op → Type 0
  Separate o p =
      is_at o ≡ true → is_at p ≡ true → (o.finish + gap ≤ p.start) ⊎ (p.finish + gap ≤ o.start)

  pub Separate-sym : (o p : Op) → Separate o p → Separate p o
  Separate-sym o p h at_p at_o = elim (h at_o at_p) [ inl e ↦ inr e | inr e ↦ inl e ]

  -- Within an asset's plan and between the plans, the point is taken once at a time.
  abbrev pub Undisturbed : List AssetPlan → Type 0
  Undisturbed plans =
      All (λ p. Pairwise Separate (AssetPlan.ops p)) plans
      × Pairwise (λ p q. Cross Separate (AssetPlan.ops p) (AssetPlan.ops q)) plans

module _ (σ : Assignment) (id : String) (gap : ℕ) where
  -- The interval holds the operation and the gap behind it.
  abbrev pub Covers : Op → Interval → Type 0
  Covers o iv =
      is_at id gap o ≡ true
      → (is_present σ iv ≡ true) × (σ iv.start ≡ o.start) × (o.finish + gap ≤ σ iv.end)

  -- The operations at the point have intervals that cover them, in the same order.
  pub data Embeds : List Op → List Interval → Type 0 where
    done : Embeds [] []
    both :
        (o : Op) (iv : Interval) {ops : List Op} {ivs : List Interval}
        → Covers o iv
        → Embeds ops ivs
        → Embeds (o ∷ ops) (iv ∷ ivs)
    spare :
        (iv : Interval) {ops : List Op} {ivs : List Interval}
        → Embeds ops ivs
        → Embeds ops (iv ∷ ivs)
    away :
        (o : Op) {ops : List Op} {ivs : List Interval}
        → is_at id gap o ≡ false
        → Embeds ops ivs
        → Embeds (o ∷ ops) ivs

  pub Embeds-append :
      {os ps : List Op} {is js : List Interval}
      → Embeds os is
      → Embeds ps js
      → Embeds (os ++ ps) (is ++ js)
  Embeds-append done k = k
  Embeds-append (both o iv c e) k = both o iv c (Embeds-append e k)
  Embeds-append (spare iv e) k = spare iv (Embeds-append e k)
  Embeds-append (away o n e) k = away o n (Embeds-append e k)

  Apart-Separate :
      (o p : Op) (iv jv : Interval)
      → Covers o iv
      → Covers p jv
      → Apart σ iv jv
      → Separate id gap o p
  Apart-Separate o p iv jv c d apart at_o at_p =
      let here = c at_o in
      let there = d at_p in
      elim (apart here.0 there.0) [
        | inl before ↦ inl (omega (arith, here.2, there.1))
        | inr after ↦ inr (omega (arith, here.1, there.2))
      ]

  Embeds-All :
      (o : Op) (iv : Interval) {ops : List Op} {ivs : List Interval}
      → Covers o iv
      → Embeds ops ivs
      → All (Apart σ iv) ivs
      → All (Separate id gap o) ops
  Embeds-All o iv c done h = tt
  Embeds-All o iv c (both p jv d e) h = (Apart-Separate o p iv jv c d h.0, Embeds-All o iv c e h.1)
  Embeds-All o iv c (spare jv e) h = Embeds-All o iv c e h.1
  Embeds-All o iv c (away p n e) h = ((λ at_o at_p. cc), Embeds-All o iv c e h)

  away-All : (o : Op) (ops : List Op) → is_at id gap o ≡ false → All (Separate id gap o) ops
  away-All o [] n = tt
  away-All o (p ∷ ops) n = ((λ at_o at_p. cc), away-All o ops n)

  -- Operations whose intervals are apart are separate.
  pub Embeds-Pairwise :
      {ops : List Op} {ivs : List Interval}
      → Embeds ops ivs
      → Pairwise (Apart σ) ivs
      → Pairwise (Separate id gap) ops
  Embeds-Pairwise done h = tt
  Embeds-Pairwise (both o iv c e) h = (Embeds-All o iv c e h.0, Embeds-Pairwise e h.1)
  Embeds-Pairwise (spare iv e) h = Embeds-Pairwise e h.1
  Embeds-Pairwise (away o n e) h = (away-All o _ n, Embeds-Pairwise e h)

  -- Intervals with no operation.
  pub Embeds-nil : (ivs : List Interval) → Embeds [] ivs
  Embeds-nil [] = done
  Embeds-nil (iv ∷ ivs) = spare iv (Embeds-nil ivs)
