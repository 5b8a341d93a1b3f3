-- ===== src/Machine/Plic.antt =====
-- The interrupt controller: the external interrupt bits of the core follow the open interrupts.
use esp32_tinyemu.Prelude.{
  ℕ, ◌+◌, ◌-◌, ◌^◌, ◌≤◌, ◌<◌, ◌≡◌, ◌⊎◌, inl, inr, Bool, true, false, ◌==◌, if◌then◌else◌, ltb,
  arith, bit, word_or, word_not, single, size_sub, bit-or, bit-single, bit_zero, digit, Bool-cases,
  ◌∙◌, refl, and_lt,
}
use esp32_tinyemu.Cpu.{RiscvCpu, set_mip, reset_mip, clear, ctz32}
use esp32_tinyemu.Cpu.Traps.{bit-clear}
use esp32_tinyemu.Cpu.Interrupts.{ctz32_lem, ctz32_first}
use esp32_tinyemu.Machine.{
  RiscvMachine, mip_external, plic_hart_base, open_irqs, plic_update_mip, plic_claim, plic_read,
  plic_write, plic_set_irq,
}

-- MEIP (11) and SEIP (9) are set just if an interrupt is pending and not served.
pub record IsConsistent (m : RiscvMachine) : Type 0 where
  pub meip : bit m.cpu_state.mip 11 ≡ (if open_irqs m == 0 then 0 else 1)
  pub seip : bit m.cpu_state.mip 9 ≡ (if open_irqs m == 0 then 0 else 1)

set-bits :
    (s : RiscvCpu) (k : ℕ)
    → k < 32
    → bit mip_external k ≡ 1
    → bit (set_mip s mip_external).mip k ≡ 1
unfolding set_mip
set-bits s k lt e = ground (arith, bit-or s.mip mip_external k lt, digit s.mip k)

reset-bits :
    (s : RiscvCpu) (k : ℕ)
    → k < 32
    → bit mip_external k ≡ 1
    → bit (reset_mip s mip_external).mip k ≡ 0
unfolding reset_mip
reset-bits s k lt e = ground (arith, bit-clear s.mip mip_external k lt)

external_bits : (bit mip_external 11 ≡ 1) × (bit mip_external 9 ≡ 1)
unfolding bit
external_bits = (refl, refl)

same_open : (m : RiscvMachine) → open_irqs (plic_update_mip m) ≡ open_irqs m
unfolding plic_update_mip open_irqs
same_open m = refl

update_bit :
    (m : RiscvMachine) (k : ℕ)
    → k < 32
    → bit mip_external k ≡ 1
    → bit (plic_update_mip m).cpu_state.mip k ≡ (if open_irqs m == 0 then 0 else 1)
unfolding plic_update_mip
update_bit m k lt e = elim (Bool-cases (open_irqs m == 0)) [
  | inl z ↦ rw z (reset-bits m.cpu_state k lt e)
  | inr z ↦ rw z (set-bits m.cpu_state k lt e)
]

update-IsConsistent : (m : RiscvMachine) → IsConsistent (plic_update_mip m)
update-IsConsistent m = record {
  meip = rw (same_open m) (update_bit m 11 (omega arith) external_bits.0);
  seip = rw (same_open m) (update_bit m 9 (omega arith) external_bits.1);
}

read-IsConsistent :
    (m : RiscvMachine) (offset : ℕ) → IsConsistent m → IsConsistent (plic_read m offset).1
unfolding plic_read plic_claim
read-IsConsistent m offset c = elim (Bool-cases (offset == plic_hart_base + 4)) [
  | inr e ↦ rw e c
  | inl e ↦ rw e (elim (Bool-cases (open_irqs m == 0)) [
    | inl z ↦ rw z c
    | inr z ↦ rw z (update-IsConsistent _)
  ])
]

write-IsConsistent :
    (m : RiscvMachine) (offset val : ℕ) → IsConsistent m → IsConsistent (plic_write m offset val)
unfolding plic_write
write-IsConsistent m offset val c = elim (Bool-cases (offset == plic_hart_base + 4)) [
  | inr e ↦ rw e c
  | inl e ↦ rw e (elim (Bool-cases (ltb (size_sub val 1) 32)) [
    | inl z ↦ rw z (update-IsConsistent _)
    | inr z ↦ rw z c
  ])
]

set_irq-IsConsistent :
    (m : RiscvMachine) (irq_num : ℕ) (state : Bool) → IsConsistent (plic_set_irq m irq_num state)
unfolding plic_set_irq
set_irq-IsConsistent m irq_num state = update-IsConsistent _

-- Every operation of the controller keeps the external interrupt bits of the core in step with the
-- open interrupts.
pub plic-IsConsistent :
    (m : RiscvMachine) (offset val irq_num : ℕ) (state : Bool)
    → IsConsistent m
    → IsConsistent (plic_read m offset).1
      × IsConsistent (plic_write m offset val)
      × IsConsistent (plic_set_irq m irq_num state)
plic-IsConsistent m offset val irq_num state c = (
  read-IsConsistent m offset c,
  write-IsConsistent m offset val c,
  set_irq-IsConsistent m irq_num state,
)

open_bit :
    (m : RiscvMachine) (k : ℕ)
    → k < 32
    → bit (open_irqs m) k ≡ (if bit m.plic_served_irq k == 1 then 0 else bit m.plic_pending_irq k)
unfolding open_irqs
open_bit m k lt = bit-clear m.plic_pending_irq m.plic_served_irq k lt

open_lt : (m : RiscvMachine) → open_irqs m < 2 ^ 32
unfolding open_irqs clear
open_lt m = and_lt m.plic_pending_irq (word_not m.plic_served_irq)

-- The open interrupts after an operation that replaces the served ones.
served_bit :
    (m : RiscvMachine) (served j : ℕ)
    → j < 32
    → bit (open_irqs (plic_update_mip (record m { plic_served_irq = served }))) j
      ≡ (if bit served j == 1 then 0 else bit m.plic_pending_irq j)
served_bit m served j lt =
    let m' : RiscvMachine = record m { plic_served_irq = served } in
    rw (same_open m') (open_bit m' j lt)

-- And after one that replaces the pending ones.
pending_bit :
    (m : RiscvMachine) (pending j : ℕ)
    → j < 32
    → bit (open_irqs (plic_update_mip (record m { plic_pending_irq = pending }))) j
      ≡ (if bit m.plic_served_irq j == 1 then 0 else bit pending j)
pending_bit m pending j lt =
    let m' : RiscvMachine = record m { plic_pending_irq = pending } in
    rw (same_open m') (open_bit m' j lt)

claim_open :
    (m : RiscvMachine) (j : ℕ)
    → j < 32
    → ctz32 (open_irqs m) < 32
    → bit (open_irqs (plic_claim m).1) j
      ≡ (if j == ctz32 (open_irqs m) then 0 else bit (open_irqs m) j)
unfolding plic_claim
claim_open m j lt in_range =
    let i = ctz32 (open_irqs m) in
    served_bit m (word_or m.plic_served_irq (single i)) j lt
    ∙ ground (
      arith,
      bit-or m.plic_served_irq (single i) j lt,
      bit-single i j,
      digit m.plic_served_irq j,
      open_bit m j lt,
    )

-- A read of the claim register with no open interrupt answers 0 and changes nothing. Otherwise it
-- answers the number, counted from 1, of the first open interrupt, closes that one and leaves the
-- others as they are.
pub plic_claim_lem :
    (m : RiscvMachine) (j : ℕ)
    → j < 32
    → let (val, m') = plic_read m (plic_hart_base + 4) in
      ((val ≡ 0) × (m' ≡ m) × (bit (open_irqs m) j ≡ 0))
      ⊎ ((k : ℕ) × (val ≡ k + 1)
          × (bit (open_irqs m) k ≡ 1)
          × ((k ≤ j) ⊎ (bit (open_irqs m) j ≡ 0))
          × (bit (open_irqs m') j ≡ (if j == k then 0 else bit (open_irqs m) j)))
unfolding plic_read
plic_claim_lem m j lt = elim (Bool-cases (open_irqs m == 0)) [
  | inl z ↦ rw z (inl (refl, refl, ground (arith, z, bit_zero j)))
  | inr z ↦
      let lowest = ctz32_lem (open_irqs m) (open_lt m) (ground (arith, z)) in
      rw z (
        inr (
          ctz32 (open_irqs m),
          unfold plic_claim in refl,
          lowest.1,
          ground (arith, digit (open_irqs m) j, ctz32_first (open_irqs m) j),
          claim_open m j lt lowest.0,
        ))
]

-- The level of an interrupt line, counted from 1, decides whether its interrupt is pending: it is
-- open from then on while it is not served. The other interrupts stay as they are.
pub plic_set_irq_lem :
    (m : RiscvMachine) (irq_num j : ℕ) (state : Bool)
    → 1 ≤ irq_num
    → j < 32
    → bit (open_irqs (plic_set_irq m irq_num state)) j ≡ (
        if j + 1 == irq_num
        then if bit m.plic_served_irq j == 1 then 0 else if state then 1 else 0
        else bit (open_irqs m) j)
unfolding plic_set_irq
plic_set_irq_lem m irq_num j true lo lt =
    let mask = single (irq_num - 1) in
    pending_bit m (word_or m.plic_pending_irq mask) j lt
    ∙ ground (
      arith,
      bit-or m.plic_pending_irq mask j lt,
      bit-single (irq_num - 1) j,
      digit m.plic_pending_irq j,
      open_bit m j lt,
    )
plic_set_irq_lem m irq_num j false lo lt =
    let mask = single (irq_num - 1) in
    pending_bit m (clear m.plic_pending_irq mask) j lt
    ∙ ground
        (arith, bit-clear m.plic_pending_irq mask j lt, bit-single (irq_num - 1) j, open_bit m j lt)
