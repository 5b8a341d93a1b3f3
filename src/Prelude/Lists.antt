-- ===== src/Prelude/Lists.antt =====
-- Lists of addresses: membership, removal and the last element, over the native numbers.
use Prim.Native.Nat.{ℕ, suc, ◌+◌}
use mathlib.Core.Path.{◌≡◌, refl}
use mathlib.Core.Bool.{Bool, true, false, ◌||◌}
use mathlib.Core.List.{List, [], ◌∷◌}
use native.Mathlib.Omega.{arith}
use esp32_tinyemu.Prelude.Tests.{◌==◌, if◌then◌else◌}

abbrev pub length {ℓ} : {A : Type ℓ} → List A → ℕ
length [] = 0
length (x ∷ xs) = suc (length xs)

unfoldable pub contains : List ℕ → ℕ → Bool
contains [] a = false
contains (x ∷ xs) a = x == a || contains xs a

-- The list without every occurrence of `a`.
unfoldable pub erase : ℕ → List ℕ → List ℕ
erase a [] = []
erase a (x ∷ xs) = if x == a then erase a xs else x ∷ erase a xs

-- The last element, or `d` of the empty list.
unfoldable pub last_or : List ℕ → ℕ → ℕ
last_or [] d = d
last_or (x ∷ xs) d = last_or xs x

-- No element occurs twice.
abbrev pub Distinct : List ℕ → Type 0
Distinct [] = Unit
Distinct (x ∷ xs) = (contains xs x ≡ false) × Distinct xs

pub contains-erase :
    (a b : ℕ) (xs : List ℕ) → contains (erase a xs) b ≡ (if a == b then false else contains xs b)
unfolding contains erase
contains-erase a b [] = ground arith
contains-erase a b (x ∷ xs) = ground (arith, contains-erase a b xs)

pub erase_absent : (a : ℕ) (xs : List ℕ) → contains xs a ≡ false → erase a xs ≡ xs
unfolding contains erase
erase_absent a [] h = refl
erase_absent a (x ∷ xs) h = ground (arith, erase_absent a xs)

pub erase-Distinct : (a : ℕ) (xs : List ℕ) → Distinct xs → Distinct (erase a xs)
unfolding erase
erase-Distinct a [] d = tt
erase-Distinct a (x ∷ xs) d = ground (arith, erase-Distinct a xs d.1, contains-erase a x xs)

pub length-erase :
    (a : ℕ) (xs : List ℕ) → Distinct xs → contains xs a ≡ true → length (erase a xs) + 1 ≡ length xs
unfolding contains erase
length-erase a [] d h = ground arith
length-erase a (x ∷ xs) d h = ground (arith, length-erase a xs d.1, erase_absent a xs, d.0)

pub last_or-contains : (x : ℕ) (xs : List ℕ) (d : ℕ) → contains (x ∷ xs) (last_or (x ∷ xs) d) ≡ true
unfolding contains last_or
last_or-contains x [] d = ground arith
last_or-contains x (y ∷ ys) d = ground (arith, last_or-contains y ys x)
