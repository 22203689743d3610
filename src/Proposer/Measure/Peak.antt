-- ===== src/Proposer/Measure/Peak.antt =====
-- The event sweep finds the least upper bound of the site's charging load.
use otto_q_core.Base.Sort.{sort, IsSorted, IsOrder, sort-IsSorted, place}
use otto_q_core.Base.{
  ℕ, ◌+◌, ◌-◌, ◌≤◌, ◌<◌, max, ◌≡◌, refl, ap, ◌∙◌, ◌↔◌, inl, inr, Bool, true, false, ◌&&◌, List, [],
  ◌∷◌, arith, ltb, leb, if◌then◌else◌, Bool-cases, same, All,
}
use otto_q_core.Plan.{Segment}
use otto_q_core.Proposer.Measure.{Event, events_of, event_le, sweep, peak_of}

-- The load at a minute: the kW of the segments that run then, each over `[start, finish)`.
unfoldable pub load : ℕ → List Segment → ℕ
load t [] = 0
load t (s ∷ ss) = (if leb s.start t && ltb t s.finish then s.kw else 0) + load t ss

-- The kW that started, or ended, by a minute.
amount : Bool → ℕ → List Event → ℕ
amount ends t [] = 0
amount ends t (e ∷ es) = (if leb e.time t && same ends e.ends then e.kw else 0) + amount ends t es

module _ (t : ℕ) where
  amount-place :
      (b : Bool) (e : Event) (es : List Event)
      → amount b t (place event_le e es) ≡ amount b t (e ∷ es)
  unfolding amount
  amount-place b e [] = refl
  amount-place b e (f ∷ es) = elim (Bool-cases (event_le e f)) [
    | inl h ↦ rw h refl
    | inr h ↦ rw h (omega (arith, amount-place b e es))
  ]

  amount-sort : (b : Bool) (es : List Event) → amount b t (sort event_le es) ≡ amount b t es
  unfolding amount
  amount-sort b [] = refl
  amount-sort b (e ∷ es) =
      amount-place b e (sort event_le es)
      ∙ ap (λ n. (if leb e.time t && same b e.ends then e.kw else 0) + n) (amount-sort b es)

-- What started and has not ended is the load.
load-amount :
    (t : ℕ) (ss : List Segment)
    → All (λ s. s.start ≤ s.finish) ss
    → load t ss + amount true t (events_of ss) ≡ amount false t (events_of ss)
unfolding load amount events_of
load-amount t [] h = omega arith
load-amount t (s ∷ ss) h = ground (arith, load-amount t ss h.1)

event_le-IsOrder : IsOrder event_le
unfolding event_le
event_le-IsOrder = record { total = λ a b h. ground arith; trans = λ a b c h k. ground arith }

-- Behind an event of a sorted list nothing happens earlier,
amount_later :
    (b : Bool) (t : ℕ) (e : Event) (es : List Event)
    → All (λ f. event_le e f ≡ true) es
    → t < e.time
    → amount b t es ≡ 0
unfolding amount event_le
amount_later b t e [] h lt = refl
amount_later b t e (f ∷ es) h lt = ground (arith, amount_later b t e es h.1)

-- and behind a start nothing ends by its minute.
amount_ends :
    (e : Event) (es : List Event)
    → e.ends ≡ false
    → All (λ f. event_le e f ≡ true) es
    → amount true e.time es ≡ 0
unfolding amount event_le
amount_ends e [] start h = refl
amount_ends e (f ∷ es) start h = ground (arith, amount_ends e es start h.1)

sweep_mono : (up down peak : ℕ) (es : List Event) → peak ≤ sweep up down peak es
unfolding sweep
sweep_mono up down peak [] = omega arith
sweep_mono up down peak (e ∷ es) =
    let up' = if e.ends then up else up + e.kw in
    let down' = if e.ends then down + e.kw else down in
    omega (arith, sweep_mono up' down' (max peak (up' - down')) es)

-- The sweep sees the load at every minute,
sweep_ge :
    (t up down peak : ℕ) (es : List Event)
    → IsSorted event_le es
    → up ≤ peak + down
    → up + amount false t es ≤ sweep up down peak es + down + amount true t es
unfolding sweep amount
sweep_ge t up down peak [] s h = omega arith
sweep_ge t up down peak (e ∷ es) s h = elim (Bool-cases e.ends) [
  | inl ends ↦ ground (
    arith,
    sweep_ge t up (down + e.kw) (max peak (up - (down + e.kw))) es s.1,
    sweep_mono up (down + e.kw) (max peak (up - (down + e.kw))) es,
    amount_later false t e es s.0,
    amount_later true t e es s.0,
  )
  | inr starts ↦ ground (
    arith,
    sweep_ge t (up + e.kw) down (max peak (up + e.kw - down)) es s.1,
    sweep_mono (up + e.kw) down (max peak (up + e.kw - down)) es,
    amount_later false t e es s.0,
    amount_later true t e es s.0,
  )
]

-- and nothing above it.
sweep_le :
    (bound up down peak : ℕ) (es : List Event)
    → IsSorted event_le es
    → peak ≤ bound
    → up ≤ bound + down
    → ((t : ℕ) → up + amount false t es ≤ bound + down + amount true t es)
    → sweep up down peak es ≤ bound
unfolding sweep amount
sweep_le bound up down peak [] s p r h = p
sweep_le bound up down peak (e ∷ es) s p r h = elim (Bool-cases e.ends) [
  | inl ends ↦
      rw (ends, sweep)
        (sweep_le bound up (down + e.kw) (max peak (up - (down + e.kw))) es s.1 (omega arith)
          (omega arith)
          (λ t. ground (arith, h t, amount_later false t e es s.0, amount_later true t e es s.0)))
  | inr starts ↦
      let room : up + e.kw ≤ bound + down = ground (arith, h e.time, amount_ends e es starts s.0) in
      rw (starts, sweep)
        (sweep_le bound (up + e.kw) down (max peak (up + e.kw - down)) es s.1 (omega arith) room
          (λ t. ground (arith, h t, amount_later false t e es s.0, amount_later true t e es s.0)))
]

-- The measured peak is at most a bound exactly when the charging load is within the bound at
-- every minute, for segments that do not end before they start.
pub peak_of-le_iff :
    (bound : ℕ) (ss : List Segment)
    → All (λ s. s.start ≤ s.finish) ss
    → (peak_of ss ≤ bound) ↔ ((t : ℕ) → load t ss ≤ bound)
unfolding peak_of
peak_of-le_iff bound ss wf =
    let es = events_of ss in
    let sorted = sort-IsSorted event_le event_le-IsOrder es in
    (
      λ h t. omega (
        arith,
        sweep_ge t 0 0 0 (sort event_le es) sorted (omega arith),
        amount-sort t false es,
        amount-sort t true es,
        load-amount t ss wf,
      ),
      λ h. sweep_le bound 0 0 0 (sort event_le es) sorted (omega arith) (omega arith) (λ t.
          omega (arith, h t, amount-sort t false es, amount-sort t true es, load-amount t ss wf)),
    )
