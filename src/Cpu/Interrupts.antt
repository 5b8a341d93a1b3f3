-- ===== src/Cpu/Interrupts.antt =====
-- Which interrupts are pending, which one is taken, and to which level.
use esp32_tinyemu.Prelude.{
  ℕ, zero, suc, ◌+◌, ◌*◌, ◌^◌, ◌≤◌, ◌<◌, ◌≡◌, ◌≢◌, ◌⊎◌, inl, inr, Bool, true, false, ◌==◌,
  if◌then◌else◌, arith, bit, word_and, word_or, word_not, bit-and, bit-or, bit-not, bit_zero, digit,
  zero_bits, ones, and_lt, Bool-cases, refl,
}
use esp32_tinyemu.Cpu.{
  RiscvCpu, enabled_ints, get_pending_irq_mask, ctz_from, ctz32, raise_interrupt, raise_exception2,
}

-- The privileged architecture's rule: an interrupt that is not delegated is enabled below level M,
-- and at level M by MIE (bit 3); one that is delegated is enabled below level S, at level S by SIE
-- (bit 1), and never above.
abbrev pub is_enabled : RiscvCpu → ℕ → Bool
is_enabled s k =
    if bit s.mideleg k == 0
    then if s.priv == 3 then bit s.mstatus 3 == 1 else true
    else if s.priv == 3
    then false
    else if s.priv == 1
    then bit s.mstatus 1 == 1
    else true

enabled_bit :
    (s : RiscvCpu) (k : ℕ) → k < 32 → bit (enabled_ints s) k ≡ (if is_enabled s k then 1 else 0)
unfolding enabled_ints
enabled_bit s k lt = ground (
  arith,
  bit-not s.mideleg k lt,
  bit-or (word_not s.mideleg) s.mideleg k lt,
  digit s.mideleg k,
  bit_zero k,
  ones 32 k lt,
)

-- An interrupt is in the mask of pending interrupts just if its bit of `mip` and of `mie` is set
-- and the rule of the privileged architecture enables it at the level of the core.
pub pending_lem :
    (s : RiscvCpu) (k : ℕ)
    → k < 32
    → bit (get_pending_irq_mask s) k ≡ (if is_enabled s k then bit s.mip k * bit s.mie k else 0)
unfolding get_pending_irq_mask
pending_lem s k lt = ground (
  arith,
  bit-and s.mip s.mie k lt,
  bit-and (word_and s.mip s.mie) (enabled_ints s) k lt,
  enabled_bit s k lt,
  bit_zero k,
)

ctz_from_lem :
    (n i a : ℕ) → let z = ctz_from n i a in (z ≡ 32) ⊎ ((i ≤ z) × (z < i + n) × (bit a z ≡ 1))
unfolding ctz_from
ctz_from_lem zero i a = inl refl
ctz_from_lem (suc n) i a = ground (arith, ctz_from_lem n (i + 1) a)

ctz_from_first : (n i a j : ℕ) → i ≤ j → j < i + n → i + n ≤ 32 → bit a j ≡ 1 → ctz_from n i a ≤ j
unfolding ctz_from
ctz_from_first zero i a j lo hi top set = absurd (omega arith)
ctz_from_first (suc n) i a j lo hi top set = elim (Bool-cases (i == j)) [
  | inl e ↦ ground (arith, e)
  | inr e ↦
      ground
        (arith, e, ctz_from_first n (i + 1) a j (ground (arith, e)) (omega arith) (omega arith) set)
]

no_bit : (a : ℕ) → ctz_from 32 0 a ≡ 32 → (k : ℕ) → k < 32 → bit a k ≡ 0
no_bit a e k lt = elim (digit a k) [
  | inl z ↦ z
  | inr o ↦
      absurd (omega (arith, ctz_from_first 32 0 a k (omega arith) (omega arith) (omega arith) o))
]

-- The lowest bit of a word that is not zero.
pub ctz32_lem : (a : ℕ) → a < 2 ^ 32 → a ≢ 0 → (ctz32 a < 32) × (bit a (ctz32 a) ≡ 1)
unfolding ctz32
ctz32_lem a lt ne = elim (Bool-cases (ctz_from 32 0 a == 32)) [
  | inl e ↦ absurd (ne (zero_bits 32 a lt (no_bit a (ground (arith, e)))))
  | inr e ↦ ground (arith, e, ctz_from_lem 32 0 a)
]

mask_lt : (s : RiscvCpu) → get_pending_irq_mask s < 2 ^ 32
unfolding get_pending_irq_mask
mask_lt s = ground (arith, and_lt (word_and s.mip s.mie) (enabled_ints s))

pub ctz32_first : (a j : ℕ) → j < 32 → bit a j ≡ 1 → ctz32 a ≤ j
unfolding ctz32
ctz32_first a j lt set = ground (arith, ctz_from_first 32 0 a j, bit_zero j)

-- An interrupt is taken just if the mask of pending interrupts is not zero: the one of the lowest
-- number in it, as a trap with that number and the interrupt bit for its cause. Otherwise the core
-- is as before, and no bit of the mask is set.
pub raise_interrupt_lem :
    (s : RiscvCpu) (j : ℕ)
    → j < 32
    → let mask = get_pending_irq_mask s in
      let (taken, s') = raise_interrupt s in
      ((taken ≡ false) × (s' ≡ s) × (bit mask j ≡ 0))
      ⊎ ((taken ≡ true)
          × ((k : ℕ) × (bit mask k ≡ 1)
              × ((k ≤ j) ⊎ (bit mask j ≡ 0))
              × (s' ≡ raise_exception2 s (word_or k (2 ^ 31)) 0)))
unfolding raise_interrupt
raise_interrupt_lem s j lt = elim (Bool-cases (get_pending_irq_mask s == 0)) [
  | inl e ↦ rw e (inl (refl, refl, ground (arith, e, bit_zero j)))
  | inr e ↦ rw e (
      inr (
        refl,
        (
          ctz32 (get_pending_irq_mask s),
          (ctz32_lem (get_pending_irq_mask s) (mask_lt s) (ground (arith, e))).1,
          ground (arith, digit (get_pending_irq_mask s) j, ctz32_first (get_pending_irq_mask s) j),
          refl,
        ),
      ))
]
