-- ===== src/Prelude/Options.antt =====
-- Properties of the results that a function may not have.
use mathlib.Core.Bool.{Bool, true, false}
use mathlib.Core.Option.{Option, none, some}
use esp32_tinyemu.Prelude.Tests.{if◌then◌else◌}

-- The result, if there is one, has the property.
pub data Always {ℓ} {A : Type ℓ} (P : A → Type 0) : Option A → Type ℓ where
  absent : Always P none
  present : {x : A} → P x → Always P (some x)

pub get_present {ℓ} : {A : Type ℓ} {P : A → Type 0} {x : A} → Always P (some x) → P x
get_present (present p) = p

pub Always-bind {ℓ κ} :
    {A : Type ℓ} {B : Type κ} {P : A → Type 0} {Q : B → Type 0} {o : Option A} {k : A → Option B}
    → Always P o
    → ((x : A) → P x → Always Q (k x))
    → Always Q (elim o [ none ↦ none | some x ↦ k x ])
Always-bind absent h = absent
Always-bind (present p) h = h _ p

pub Always-case {ℓ κ} :
    {A : Type ℓ} {B : Type κ} {Q : B → Type 0} (o : Option A) {k : A → Option B}
    → ((x : A) → Always Q (k x))
    → Always Q (elim o [ none ↦ none | some x ↦ k x ])
Always-case none h = absent
Always-case (some x) h = h x

pub Always-if {ℓ} :
    {A : Type ℓ} {Q : A → Type 0} (c : Bool) {x y : Option A}
    → Always Q x
    → Always Q y
    → Always Q (if c then x else y)
Always-if true p q = p
Always-if false p q = q

pub Always-weaken {ℓ} :
    {A : Type ℓ} {P Q : A → Type 0} {o : Option A} → Always P o → ((x : A) → P x → Q x) → Always Q o
Always-weaken absent h = absent
Always-weaken (present p) h = present (h _ p)

pub Always-elim {ℓ κ} :
    {A : Type ℓ} {B : Type κ} {Q : B → Type 0} (o : Option A) {x : Option B} {k : A → Option B}
    → Always Q x
    → ((a : A) → Always Q (k a))
    → Always Q (elim o [ none ↦ x | some a ↦ k a ])
Always-elim none p h = p
Always-elim (some a) p h = h a

-- The same for cases on the first component of a pair.
pub Always-cases {ℓ κ τ} :
    {A : Type ℓ} {B : Type κ} {S : Type τ} {Q : B → Type 0} (o : Option A) {s : S}
    (f : S → Option B) (k : A → S → Option B)
    → Always Q (f s)
    → ((a : A) → Always Q (k a s))
    → Always Q ((elim o as (λ _. S → Option B) [ none ↦ f | some a ↦ k a ]) s)
Always-cases none f k p h = p
Always-cases (some a) f k p h = h a

pub Always-both {ℓ} :
    {A : Type ℓ} {P Q : A → Type 0} {o : Option A}
    → Always P o
    → Always Q o
    → Always (λ (x : A). P x × Q x) o
Always-both absent q = absent
Always-both (present p) q = present (p, get_present q)
