-- ===== src/Proposer/Rows/Laws.antt =====
-- The rows of a plan (proposer/forward_proposer.py: `plan_to_proposals`).
use otto_q_core.Base.{
  ℕ, ◌≤◌, max, String, ◌≡◌, refl, sym, subst, ◌∙◌, inl, inr, Bool, true, ◌&&◌, ◌||◌, Option, none,
  some, List, [], ◌∷◌, ◌++◌, arith, eq_iff, str_eq, Bool-cases, any, All, Dict, lookup,
}
use otto_q_core.Plan.{Plan, Segment, Op, AssetPlan}
use otto_q_core.Scenario.{Scenario, ServicePoint}
use otto_q_core.Proposer.Rows.{
  kinds_of, max_from, row_at, row_on, row_of, rows_of, plan_to_proposals, Row, charge_op, max_kw,
  abstain, assign, ◌>>=◌,
}

some-eq {ℓ} : {A : Type ℓ} {a b : A} → some a ≡ some b → a ≡ b
some-eq h = cc

bind-eq-some {ℓ κ} :
    {A : Type ℓ} {B : Type κ} (m : Option A) (f : A → Option B) {b : B}
    → (m >>= f) ≡ some b
    → (a : A) × (m ≡ some a) × (f a ≡ some b)
bind-eq-some none f h = cc
bind-eq-some (some a) f h = (a, refl, h)

-- What a row says of its asset.
abbrev pub RowOf : List ServicePoint → AssetPlan → Row → Type 0
RowOf points a (abstain id r) = (id ≡ a.aid) × (charge_op a.ops ≡ none)
RowOf points a (assign x) =
    (x.vehicle_id ≡ a.aid)
    × ((o : Op) × (charge_op a.ops ≡ some o)
        × (o.point ≡ some x.stall_id)
        × (x.segments ≡ o.segments)
        × All (λ s. s.kw ≤ x.requested_kw) o.segments
        × (any (λ p. str_eq x.stall_id p.id && str_eq x.stall_type p.stall_type) points ≡ true))

max_from-ge :
    (m : ℕ) (ss : List Segment) → (m ≤ max_from m ss) × All (λ s. Segment.kw s ≤ max_from m ss) ss
unfolding max_from
max_from-ge m [] = (omega arith, tt)
max_from-ge m (s ∷ ss) =
    let (first, rest) = max_from-ge (max m s.kw) ss in (omega arith, (omega arith, rest))

max_kw-ge : (ss : List Segment) {kw : ℕ} → max_kw ss ≡ some kw → All (λ s. Segment.kw s ≤ kw) ss
unfolding max_kw
max_kw-ge [] e = cc
max_kw-ge (s ∷ ss) e =
    subst (λ m. All (λ x. Segment.kw x ≤ m) (s ∷ ss)) (some-eq e) (max_from-ge s.kw ss)

abbrev has_kind_at : String → String → Dict String → Bool
has_kind_at id kind = any λ e. str_eq id e.0 && str_eq kind e.1

lookup-any :
    (d : Dict String) (id : String) {kind : String}
    → lookup id d ≡ some kind
    → has_kind_at id kind d ≡ true
lookup-any [] id e = cc
lookup-any ((j, k) ∷ d) id {kind} e = elim (Bool-cases (str_eq id j)) [
  | inl hit ↦ rw hit (ground (arith, eq_iff kind k, some-eq (rw hit at e)))
  | inr miss ↦ rw miss (lookup-any d id (rw miss at e))
]

has_kind-append :
    (id kind : String) (d e : Dict String)
    → has_kind_at id kind (d ++ e) ≡ (has_kind_at id kind d || has_kind_at id kind e)
has_kind-append id kind [] e = refl
has_kind-append id kind (x ∷ d) e = ground (arith, has_kind-append id kind d e)

has_kind-kinds_of :
    (points : List ServicePoint) (id kind : String)
    → has_kind_at id kind (kinds_of points)
      ≡ any (λ p. str_eq id p.id && str_eq kind p.stall_type) points
unfolding kinds_of
has_kind-kinds_of [] id kind = refl
has_kind-kinds_of (p ∷ ps) id kind =
    rw (has_kind-append id kind (kinds_of ps) ((p.id, p.stall_type) ∷ []))
      (ground (arith, has_kind-kinds_of ps id kind))

kinds_of-any :
    (points : List ServicePoint) (id : String) {kind : String}
    → lookup id (kinds_of points) ≡ some kind
    → any (λ p. str_eq id p.id && str_eq kind p.stall_type) points ≡ true
kinds_of-any points id {kind} e =
    sym (has_kind-kinds_of points id kind) ∙ lookup-any (kinds_of points) id e

module _ (points : List ServicePoint) (used : Dict String) (a : AssetPlan) where
  row_at-RowOf :
      (o : Op) (point : String) (kind : Option String) (kw : Option ℕ) {row : Row}
      → charge_op a.ops ≡ some o
      → o.point ≡ some point
      → lookup point (kinds_of points) ≡ kind
      → max_kw o.segments ≡ kw
      → row_at used a o point kind kw ≡ some row
      → RowOf points a row
  unfolding row_at
  row_at-RowOf o point none kw c p k m e = cc
  row_at-RowOf o point (some kind) none c p k m e = cc
  row_at-RowOf o point (some kind) (some kw) c p k m e =
      subst (RowOf points a) (some-eq e)
        (refl, (o, c, p, refl, max_kw-ge o.segments m, kinds_of-any points point k))

  row_on-RowOf :
      (o : Op) (point : Option String) {row : Row}
      → charge_op a.ops ≡ some o
      → o.point ≡ point
      → row_on (kinds_of points) used a o point ≡ some row
      → RowOf points a row
  unfolding row_on
  row_on-RowOf o none c p e = cc
  row_on-RowOf o (some point) c p e = row_at-RowOf o point _ _ c p refl refl e

  row_of-RowOf :
      (o : Option Op) {row : Row}
      → charge_op a.ops ≡ o
      → row_of (kinds_of points) used a o ≡ some row
      → RowOf points a row
  unfolding row_of
  row_of-RowOf none c e = subst (RowOf points a) (some-eq e) (refl, c)
  row_of-RowOf (some o) c e = row_on-RowOf o o.point c refl e

-- One row for each asset, in order.
abbrev pub RowsOf : List ServicePoint → List AssetPlan → List Row → Type 0
RowsOf points [] [] = Unit
RowsOf points [] (row ∷ rows) = ⊥
RowsOf points (a ∷ others) [] = ⊥
RowsOf points (a ∷ others) (row ∷ rows) = RowOf points a row × RowsOf points others rows

rows_of-RowsOf :
    (points : List ServicePoint) (used : Dict String) (assets : List AssetPlan) {rows : List Row}
    → rows_of (kinds_of points) used assets ≡ some rows
    → RowsOf points assets rows
unfolding rows_of
rows_of-RowsOf points used [] e = subst (RowsOf points []) (some-eq e) tt
rows_of-RowsOf points used (a ∷ rest) e =
    let (row, r, e1) = bind-eq-some (row_of (kinds_of points) used a (charge_op a.ops)) _ e in
    let (rows, rs, made) = bind-eq-some (rows_of (kinds_of points) used rest) _ e1 in
    subst (RowsOf points (a ∷ rest)) (some-eq made)
      (row_of-RowOf points used a (charge_op a.ops) refl r, rows_of-RowsOf points used rest rs)

-- When `plan_to_proposals` returns, it has one row for each asset of the plan, in order. An asset
-- without a charge operation abstains. Any other is assigned the point of its first charge
-- operation, which the scenario has with that stall type, and a power that is enough for each
-- segment of that operation.
pub plan_to_proposals-RowsOf :
    (plan : Plan) (sc : Scenario) (used : Dict String) {rows : List Row}
    → plan_to_proposals plan sc used ≡ some rows
    → RowsOf sc.service_points plan.assets rows
unfolding plan_to_proposals
plan_to_proposals-RowsOf plan sc used e = rows_of-RowsOf sc.service_points used plan.assets e
