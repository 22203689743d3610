-- ===== src/Base/Raising.antt =====
-- Code that may raise: a value or an exception, what follows it, and what is said of either.
use mathlib.Core.Bool.{Bool, true, false}
use otto_q_core.Base.Tests.{if◌then◌else◌}

-- A value or an exception.
pub data Raises {ℓ} (E : Type 0) (A : Type ℓ) : Type ℓ where
  returns : A → Raises E A
  raises : E → Raises E A

infixl 5 ◌>>=◌
abbrev pub ◌>>=◌ {ℓ κ} :
    {E : Type 0} {A : Type ℓ} {B : Type κ} → Raises E A → (A → Raises E B) → Raises E B
raises e >>= k = raises e
returns x >>= k = k x

-- What holds of the value, where one is returned.
abbrev pub Returned {ℓ κ} : {E : Type 0} {A : Type ℓ} → (A → Type κ) → Raises E A → Type κ
Returned P (raises e) = Unit
Returned P (returns x) = P x

pub Returned->>= {ℓ κ ν μ} :
    {E : Type 0} {A : Type ℓ} {B : Type κ} (P : A → Type ν) (Q : B → Type μ) (m : Raises E A)
    (k : A → Raises E B)
    → Returned P m
    → ((x : A) → P x → Returned Q (k x))
    → Returned Q (m >>= k)
Returned->>= P Q (returns x) k h f = f x h
Returned->>= P Q (raises e) k h f = tt

-- Whatever comes first, it is enough that what follows it keeps the claim.
pub Returned-after {ℓ κ μ} :
    {E : Type 0} {A : Type ℓ} {B : Type κ} (Q : B → Type μ) (m : Raises E A) (k : A → Raises E B)
    → ((x : A) → Returned Q (k x))
    → Returned Q (m >>= k)
Returned-after Q (returns x) k f = f x
Returned-after Q (raises e) k f = tt

pub Returned-if {ℓ κ} :
    {E : Type 0} {A : Type ℓ} (P : A → Type κ) (b : Bool) (e : E) (x : A)
    → P x
    → Returned P (if b then raises e else returns x)
Returned-if P true e x h = tt
Returned-if P false e x h = h

pub Returned-map {ℓ κ ν} :
    {E : Type 0} {A : Type ℓ} (P : A → Type κ) (Q : A → Type ν) (m : Raises E A)
    → ((x : A) → P x → Q x)
    → Returned P m
    → Returned Q m
Returned-map P Q (returns x) f h = f x h
Returned-map P Q (raises e) f h = tt

-- A value is returned.
abbrev pub Succeeds {ℓ} : {E : Type 0} {A : Type ℓ} → Raises E A → Type 0
Succeeds (raises e) = ⊥
Succeeds (returns x) = Unit

pub Succeeds->>= {ℓ κ} :
    {E : Type 0} {A : Type ℓ} {B : Type κ} (m : Raises E A) (k : A → Raises E B)
    → Succeeds m
    → ((x : A) → Succeeds (k x))
    → Succeeds (m >>= k)
Succeeds->>= (returns x) k h f = f x
Succeeds->>= (raises e) k h f = h

pub Succeeds-if {ℓ} :
    {E : Type 0} {A : Type ℓ} (b : Bool) (m n : Raises E A)
    → Succeeds m
    → Succeeds n
    → Succeeds (if b then m else n)
Succeeds-if true m n h k = h
Succeeds-if false m n h k = k

-- A value is returned, and what holds of it lets the rest return one.
pub Succeeds-with {ℓ κ ν} :
    {E : Type 0} {A : Type ℓ} {B : Type κ} (P : A → Type ν) (m : Raises E A) (k : A → Raises E B)
    → Succeeds m
    → Returned P m
    → ((x : A) → P x → Succeeds (k x))
    → Succeeds (m >>= k)
Succeeds-with P (returns x) k s h f = f x h
Succeeds-with P (raises e) k s h f = s
