-- ===== src/Interp/Core.antt =====
-- The invariant of the core between instructions: words in the registers, and even addresses wherever
-- the program counter is loaded from.
use esp32_tinyemu.Prelude.{
  ℕ, ◌%◌, ◌^◌, ◌<◌, ◌≡◌, inl, inr, ◌==◌, arith, refl, ap, ◌∙◌, bit, bit-and, bit-not, digit,
  word_and, word_not, Bool-cases, Always, absent, present, Always-elim,
}
use esp32_tinyemu.Cpu.{
  RiscvCpu, clear, set_mstatus, set_priv, delegated, raise_exception2, handle_sret, handle_mret,
  raise_interrupt, get_pending_irq_mask,
}
use esp32_tinyemu.Cpu.Csr.{Csr, decode_csr, set_frm, csr_store, csr_write}
use esp32_tinyemu.Interp.{set_reg, exec_integer}
use esp32_tinyemu.Interp.Registers.{HasWords, exec_integer_lem, cpu_after}

pub record IsCore (s : RiscvCpu) : Type 0 where
  pub words : HasWords s
  pub pc_even : s.pc % 2 ≡ 0
  pub mtvec_even : s.mtvec % 2 ≡ 0
  pub stvec_even : s.stvec % 2 ≡ 0
  pub mepc_even : s.mepc % 2 ≡ 0
  pub sepc_even : s.sepc % 2 ≡ 0

-- A core with the same registers and addresses.
pub same-IsCore :
    (s s' : RiscvCpu)
    → s'.reg ≡ s.reg
    → s'.pc ≡ s.pc
    → s'.mtvec ≡ s.mtvec
    → s'.stvec ≡ s.stvec
    → s'.mepc ≡ s.mepc
    → s'.sepc ≡ s.sepc
    → IsCore s
    → IsCore s'
same-IsCore s s' r p mt st me se h = record {
  words = record {
    reg_lt = λ i. rw r (h.words.reg_lt i);
    reg_zero = ap (λ (f : ℕ → ℕ). f 0) r ∙ h.words.reg_zero;
  };
  pc_even = rw p h.pc_even;
  mtvec_even = rw mt h.mtvec_even;
  stvec_even = rw st h.stvec_even;
  mepc_even = rw me h.mepc_even;
  sepc_even = rw se h.sepc_even;
}

pub at_pc : (s : RiscvCpu) (pc : ℕ) → pc % 2 ≡ 0 → IsCore s → IsCore (record s { pc = pc })
at_pc s pc e h = record {
  words = record { reg_lt = h.words.reg_lt; reg_zero = h.words.reg_zero };
  pc_even = e;
  mtvec_even = h.mtvec_even;
  stvec_even = h.stvec_even;
  mepc_even = h.mepc_even;
  sepc_even = h.sepc_even;
}

clear_even : (x mask : ℕ) → bit mask 0 ≡ 1 → clear x mask % 2 ≡ 0
unfolding clear bit
clear_even x mask e =
    low (word_and x (word_not mask))
      (bit-and x (word_not mask) 0 (omega arith) ∙ ground (arith, bit-not mask 0, digit x 0))
  where
    low : (y : ℕ) → bit y 0 ≡ 0 → y % 2 ≡ 0
    low y h = h

bit_3 : bit 3 0 ≡ 1
unfolding bit
bit_3 = refl

bit_1 : bit 1 0 ≡ 1
unfolding bit
bit_1 = refl

pub set_reg-IsCore :
    (s : RiscvCpu) (rd val : ℕ) → val < 2 ^ 32 → IsCore s → IsCore (set_reg s rd val)
unfolding set_reg
set_reg-IsCore s rd val lt h = elim (Bool-cases (rd == 0)) [
  | inl e ↦ rw e h
  | inr e ↦ rw e (record {
    words = record {
      reg_lt = λ r. ground (arith, lt, h.words.reg_lt r);
      reg_zero = ground (arith, e, h.words.reg_zero);
    };
    pc_even = h.pc_even;
    mtvec_even = h.mtvec_even;
    stvec_even = h.stvec_even;
    mepc_even = h.mepc_even;
    sepc_even = h.sepc_even;
  })
]

priv-IsCore :
    (s : RiscvCpu) (priv pc : ℕ)
    → pc % 2 ≡ 0
    → IsCore s
    → IsCore (record (set_priv s priv) { pc = pc })
unfolding set_priv
priv-IsCore s priv pc e h = elim (Bool-cases (s.priv == priv)) [
  | inl same ↦ rw same (at_pc s pc e h)
  | inr other ↦
      rw other
        (at_pc (record s { priv = priv }) pc e (same-IsCore s _ refl refl refl refl refl refl h))
]

pub raise_exception2-IsCore :
    (s : RiscvCpu) (cause tval : ℕ) → IsCore s → IsCore (raise_exception2 s cause tval)
unfolding raise_exception2
raise_exception2-IsCore s cause tval h = elim (Bool-cases (delegated s cause)) [
  | inl d ↦ rw d (
      priv-IsCore _ 1 s.stvec h.stvec_even (record {
        words = record { reg_lt = h.words.reg_lt; reg_zero = h.words.reg_zero };
        pc_even = h.pc_even;
        mtvec_even = h.mtvec_even;
        stvec_even = h.stvec_even;
        mepc_even = h.mepc_even;
        sepc_even = h.pc_even;
      }))
  | inr m ↦ rw m (
      priv-IsCore _ 3 s.mtvec h.mtvec_even (record {
        words = record { reg_lt = h.words.reg_lt; reg_zero = h.words.reg_zero };
        pc_even = h.pc_even;
        mtvec_even = h.mtvec_even;
        stvec_even = h.stvec_even;
        mepc_even = h.pc_even;
        sepc_even = h.sepc_even;
      }))
]

pub raise_interrupt-IsCore : (s : RiscvCpu) → IsCore s → IsCore (raise_interrupt s).1
unfolding raise_interrupt
raise_interrupt-IsCore s h = elim (Bool-cases (get_pending_irq_mask s == 0)) [
  | inl e ↦ rw e h
  | inr e ↦ rw e (raise_exception2-IsCore s _ 0 h)
]

pub handle_sret-IsCore : (s : RiscvCpu) → IsCore s → IsCore (handle_sret s)
unfolding handle_sret
handle_sret-IsCore s h =
    priv-IsCore _ _ s.sepc h.sepc_even (same-IsCore s _ refl refl refl refl refl refl h)

pub handle_mret-IsCore : (s : RiscvCpu) → IsCore s → IsCore (handle_mret s)
unfolding handle_mret
handle_mret-IsCore s h =
    priv-IsCore _ _ s.mepc h.mepc_even (same-IsCore s _ refl refl refl refl refl refl h)

-- The registers that hold addresses lose their low bits when they are written.
csr_store-IsCore :
    (s : RiscvCpu) (c : Csr) (val : ℕ)
    → IsCore s
    → Always (λ (r : ℕ × RiscvCpu). IsCore r.1) (csr_store s c val)
unfolding csr_store set_mstatus set_frm
csr_store-IsCore s Csr.fflags val h = present (same-IsCore s _ refl refl refl refl refl refl h)
csr_store-IsCore s Csr.frm val h = present (same-IsCore s _ refl refl refl refl refl refl h)
csr_store-IsCore s Csr.fcsr val h = present (same-IsCore s _ refl refl refl refl refl refl h)
csr_store-IsCore s Csr.cycle val h = absent
csr_store-IsCore s Csr.instret val h = absent
csr_store-IsCore s Csr.cycleh val h = absent
csr_store-IsCore s Csr.instreth val h = absent
csr_store-IsCore s Csr.sstatus val h = present (same-IsCore s _ refl refl refl refl refl refl h)
csr_store-IsCore s Csr.sie val h = present (same-IsCore s _ refl refl refl refl refl refl h)
csr_store-IsCore s Csr.stvec val h = present (record {
  words = record { reg_lt = h.words.reg_lt; reg_zero = h.words.reg_zero };
  pc_even = h.pc_even;
  mtvec_even = h.mtvec_even;
  stvec_even = clear_even val 3 bit_3;
  mepc_even = h.mepc_even;
  sepc_even = h.sepc_even;
})
csr_store-IsCore s Csr.scounteren val h = present (same-IsCore s _ refl refl refl refl refl refl h)
csr_store-IsCore s Csr.sscratch val h = present (same-IsCore s _ refl refl refl refl refl refl h)
csr_store-IsCore s Csr.sepc val h = present (record {
  words = record { reg_lt = h.words.reg_lt; reg_zero = h.words.reg_zero };
  pc_even = h.pc_even;
  mtvec_even = h.mtvec_even;
  stvec_even = h.stvec_even;
  mepc_even = h.mepc_even;
  sepc_even = clear_even val 1 bit_1;
})
csr_store-IsCore s Csr.scause val h = present (same-IsCore s _ refl refl refl refl refl refl h)
csr_store-IsCore s Csr.stval val h = present (same-IsCore s _ refl refl refl refl refl refl h)
csr_store-IsCore s Csr.sip val h = present (same-IsCore s _ refl refl refl refl refl refl h)
csr_store-IsCore s Csr.satp val h = present (same-IsCore s _ refl refl refl refl refl refl h)
csr_store-IsCore s Csr.mstatus val h = present (same-IsCore s _ refl refl refl refl refl refl h)
csr_store-IsCore s Csr.misa val h = present (same-IsCore s _ refl refl refl refl refl refl h)
csr_store-IsCore s Csr.medeleg val h = present (same-IsCore s _ refl refl refl refl refl refl h)
csr_store-IsCore s Csr.mideleg val h = present (same-IsCore s _ refl refl refl refl refl refl h)
csr_store-IsCore s Csr.mie val h = present (same-IsCore s _ refl refl refl refl refl refl h)
csr_store-IsCore s Csr.mtvec val h = present (record {
  words = record { reg_lt = h.words.reg_lt; reg_zero = h.words.reg_zero };
  pc_even = h.pc_even;
  mtvec_even = clear_even val 3 bit_3;
  stvec_even = h.stvec_even;
  mepc_even = h.mepc_even;
  sepc_even = h.sepc_even;
})
csr_store-IsCore s Csr.mcounteren val h = present (same-IsCore s _ refl refl refl refl refl refl h)
csr_store-IsCore s Csr.mscratch val h = present (same-IsCore s _ refl refl refl refl refl refl h)
csr_store-IsCore s Csr.mepc val h = present (record {
  words = record { reg_lt = h.words.reg_lt; reg_zero = h.words.reg_zero };
  pc_even = h.pc_even;
  mtvec_even = h.mtvec_even;
  stvec_even = h.stvec_even;
  mepc_even = clear_even val 1 bit_1;
  sepc_even = h.sepc_even;
})
csr_store-IsCore s Csr.mcause val h = present (same-IsCore s _ refl refl refl refl refl refl h)
csr_store-IsCore s Csr.mtval val h = present (same-IsCore s _ refl refl refl refl refl refl h)
csr_store-IsCore s Csr.mip val h = present (same-IsCore s _ refl refl refl refl refl refl h)
csr_store-IsCore s Csr.mcycle val h = absent
csr_store-IsCore s Csr.minstret val h = absent
csr_store-IsCore s Csr.mcycleh val h = absent
csr_store-IsCore s Csr.minstreth val h = absent
csr_store-IsCore s Csr.mhartid val h = absent

pub csr_write-IsCore :
    (s : RiscvCpu) (csr val : ℕ)
    → IsCore s
    → Always (λ (r : ℕ × RiscvCpu). IsCore r.1) (csr_write s csr val)
unfolding csr_write
csr_write-IsCore s csr val h = Always-elim (decode_csr csr) absent (λ c. csr_store-IsCore s c val h)

pub exec_integer-IsCore :
    (s : RiscvCpu) (pc insn : ℕ)
    → insn < 2 ^ 32
    → pc < 2 ^ 32
    → pc % 2 ≡ 0
    → IsCore s
    → IsCore (cpu_after s (exec_integer s pc insn))
exec_integer-IsCore s pc insn li lp ev h =
    let r = exec_integer_lem s pc insn h.words li lp ev in
    rw r.rest (record {
      words = record { reg_lt = r.words.reg_lt; reg_zero = r.words.reg_zero };
      pc_even = elim r.counter [ inl e ↦ rw e h.pc_even | inr e ↦ rw e r.even ];
      mtvec_even = h.mtvec_even;
      stvec_even = h.stvec_even;
      mepc_even = h.mepc_even;
      sepc_even = h.sepc_even;
    })
