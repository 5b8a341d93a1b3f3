-- ===== src/Interp/Registers.antt =====
-- What the integer instructions do to the registers and the program counter.
use esp32_tinyemu.Prelude.{
  ℕ, ◌*◌, ◌/◌, ◌%◌, ◌^◌, ◌<◌, ◌≡◌, ◌≢◌, ◌⊎◌, inl, inr, Bool, true, false, ◌==◌, if◌then◌else◌,
  Option, none, some, arith, Bool-cases, ap, refl, bit, word_and, word_or, word_not, size_add,
}
use esp32_tinyemu.Cpu.{RiscvCpu}
use esp32_tinyemu.Interp.{
  Outcome, next, jump, illegal, rd_of, rs1_of, rs2_of, funct3_of, imm_i, imm_j, imm_b, set_reg,
  op_imm_value, muldiv_value, op_value, lui, auipc, jal, jalr, branch_taken, branch, finish, op_imm,
  op, exec_integer,
}
use esp32_tinyemu.Interp.Fields.{imm_j_lem, imm_b_lem}
use esp32_tinyemu.Interp.Values.{Fits, muldiv_lt, op_imm_lt, op_lt}

-- The registers hold words, and register 0 holds 0.
pub record HasWords (s : RiscvCpu) : Type 0 where
  pub reg_lt : (r : ℕ) → s.reg r < 2 ^ 32
  pub reg_zero : s.reg 0 ≡ 0

-- The core after an outcome, and the address of the instruction that follows.
abbrev pub cpu_after : RiscvCpu → Option Outcome → RiscvCpu
cpu_after s none = s
cpu_after s (some illegal) = s
cpu_after s (some (jump s')) = s'
cpu_after s (some (next s' pc)) = s'

abbrev pub pc_after : ℕ → Option Outcome → ℕ
pc_after pc none = pc
pc_after pc (some illegal) = pc
pc_after pc (some (jump s')) = s'.pc
pc_after pc (some (next s' pc')) = pc'

-- Words and an even address after an outcome, which changes no register but `rd` and, of the rest of
-- the core, at most the program counter.
pub record Steps (s : RiscvCpu) (pc insn : ℕ) (result : Option Outcome) : Type 0 where
  pub words : HasWords (cpu_after s result)
  pub others : (r : ℕ) → r ≢ rd_of insn → (cpu_after s result).reg r ≡ s.reg r
  pub rest :
      cpu_after s result ≡ record s { reg = (cpu_after s result).reg; pc = (cpu_after s result).pc }
  pub counter : ((cpu_after s result).pc ≡ s.pc) ⊎ ((cpu_after s result).pc ≡ pc_after pc result)
  pub address : pc_after pc result < 2 ^ 32
  pub even : pc_after pc result % 2 ≡ 0

pub set_reg-HasWords :
    (s : RiscvCpu) (rd val : ℕ) → HasWords s → val < 2 ^ 32 → HasWords (set_reg s rd val)
unfolding set_reg
set_reg-HasWords s rd val h lt = elim (Bool-cases (rd == 0)) [
  | inl z ↦ rw z h
  | inr nz ↦ rw nz (record {
    reg_lt = λ r. ground (arith, lt, h.reg_lt r);
    reg_zero = ground (arith, nz, h.reg_zero);
  })
]

pub set_reg-pc : (s : RiscvCpu) (rd val : ℕ) → (set_reg s rd val).pc ≡ s.pc
unfolding set_reg
set_reg-pc s rd val = elim (Bool-cases (rd == 0)) [ inl z ↦ rw z refl | inr nz ↦ rw nz refl ]

set_reg_lem :
    (s : RiscvCpu) (insn val pc : ℕ)
    → HasWords s
    → val < 2 ^ 32
    → pc < 2 ^ 32
    → pc % 2 ≡ 0
    → Steps s pc insn (some (next (set_reg s (rd_of insn) val) (size_add pc 4)))
unfolding set_reg
set_reg_lem s insn val pc h lt lp ev = record {
  words = set_reg-HasWords s (rd_of insn) val h lt;
  others = λ r ne. ground arith;
  rest = elim (Bool-cases (rd_of insn == 0)) [ inl z ↦ rw z refl | inr nz ↦ rw nz refl ];
  counter = inl (set_reg-pc s (rd_of insn) val);
  address = omega arith;
  even = omega arith;
}

illegal_lem :
    (s : RiscvCpu) (pc insn : ℕ)
    → HasWords s
    → pc < 2 ^ 32
    → pc % 2 ≡ 0
    → Steps s pc insn (some illegal)
illegal_lem s pc insn h lp ev = record {
  words = h;
  others = λ r ne. refl;
  rest = refl;
  counter = inl refl;
  address = lp;
  even = ev;
}

finish_lem :
    (s : RiscvCpu) (pc insn : ℕ) (val : Option ℕ)
    → HasWords s
    → Fits val
    → pc < 2 ^ 32
    → pc % 2 ≡ 0
    → Steps s pc insn (some (finish s pc insn val))
unfolding finish
finish_lem s pc insn none h lt lp ev = illegal_lem s pc insn h lp ev
finish_lem s pc insn (some val) h lt lp ev = set_reg_lem s insn val pc h lt lp ev

pub jump_even : (pc offset : ℕ) → pc % 2 ≡ 0 → bit offset 0 ≡ 0 → size_add pc offset % 2 ≡ 0
unfolding bit
jump_even pc offset ev low = omega (arith, low)

jal_lem :
    (s : RiscvCpu) (pc insn : ℕ)
    → HasWords s
    → pc < 2 ^ 32
    → pc % 2 ≡ 0
    → Steps s pc insn (some (jal s pc insn))
unfolding jal
jal_lem s pc insn h lp ev =
    let linked = set_reg_lem s insn (size_add pc 4) pc h (omega arith) lp ev in
    record {
      words = record { reg_lt = linked.words.reg_lt; reg_zero = linked.words.reg_zero };
      others = linked.others;
      rest = ap (λ (c : RiscvCpu). record c { pc = size_add pc (imm_j insn) }) linked.rest;
      counter = inr refl;
      address = omega arith;
      even = jump_even pc (imm_j insn) ev (imm_j_lem insn 0 (omega arith));
    }

jalr_lem :
    (s : RiscvCpu) (pc insn : ℕ)
    → HasWords s
    → pc < 2 ^ 32
    → pc % 2 ≡ 0
    → Steps s pc insn (some (jalr s pc insn))
unfolding jalr
jalr_lem s pc insn h lp ev =
    let target = size_add (s.reg (rs1_of insn)) (imm_i insn) / 2 * 2 in
    let s' : RiscvCpu = record s { pc = target } in
    let h' : HasWords s' = record { reg_lt = h.reg_lt; reg_zero = h.reg_zero } in
    let linked = set_reg_lem s' insn (size_add pc 4) pc h' (omega arith) lp ev in
    let there = set_reg-pc s' (rd_of insn) (size_add pc 4) in
    record {
      words = linked.words;
      others = linked.others;
      rest = linked.rest;
      counter = inr refl;
      address = omega (arith, there);
      even = omega (arith, there);
    }

branch_lem :
    (s : RiscvCpu) (pc insn : ℕ)
    → HasWords s
    → pc < 2 ^ 32
    → pc % 2 ≡ 0
    → Steps s pc insn (some (branch s pc insn))
unfolding branch
branch_lem s pc insn h lp ev =
    outcome (branch_taken (funct3_of insn) (s.reg (rs1_of insn)) (s.reg (rs2_of insn)))
  where
    outcome :
        (o : Option Bool)
        → Steps s pc insn (
            some (elim o [
              | none ↦ illegal
              | some taken ↦
                  if taken
                  then jump (record s { pc = size_add pc (imm_b insn) })
                  else next s (size_add pc 4)
            ]))
    outcome none = illegal_lem s pc insn h lp ev
    outcome (some true) = record {
      words = record { reg_lt = h.reg_lt; reg_zero = h.reg_zero };
      others = λ r ne. refl;
      rest = refl;
      counter = inr refl;
      address = omega arith;
      even = jump_even pc (imm_b insn) ev (imm_b_lem insn 0 (omega arith));
    }
    outcome (some false) = record {
      words = h;
      others = λ r ne. refl;
      rest = refl;
      counter = inl refl;
      address = omega arith;
      even = omega arith;
    }

op_lem :
    (s : RiscvCpu) (pc insn : ℕ)
    → HasWords s
    → pc < 2 ^ 32
    → pc % 2 ≡ 0
    → Steps s pc insn (some (op s pc insn))
unfolding op
op_lem s pc insn h lp ev =
    let a = s.reg (rs1_of insn) in
    let b = s.reg (rs2_of insn) in
    let selector = word_or (funct3_of insn) (word_and (insn / 2 ^ 27) (2 ^ 3)) in
    let value = some (muldiv_value (funct3_of insn) a b) in
    let product : Fits value = muldiv_lt (funct3_of insn) a b (h.reg_lt _) (h.reg_lt _) in
    elim (Bool-cases (insn / 2 ^ 25 == 1)) [
      | inl m ↦ rw m (finish_lem s pc insn value h product lp ev)
      | inr o ↦ elim (Bool-cases (word_and (insn / 2 ^ 25) (word_not 0x20) == 0)) [
        | inl legal ↦
            rw (o, legal)
              (finish_lem s pc insn (op_value selector a b) h (op_lt selector a b (h.reg_lt _)) lp
                ev)
        | inr bad ↦ rw (o, bad) (illegal_lem s pc insn h lp ev)
      ]
    ]

op_imm_lem :
    (s : RiscvCpu) (pc insn : ℕ)
    → HasWords s
    → pc < 2 ^ 32
    → pc % 2 ≡ 0
    → Steps s pc insn (some (op_imm s pc insn))
unfolding op_imm
op_imm_lem s pc insn h lp ev =
    let x = s.reg (rs1_of insn) in
    finish_lem s pc insn (op_imm_value (funct3_of insn) x (imm_i insn)) h
      (op_imm_lt (funct3_of insn) x (imm_i insn) (h.reg_lt _)) lp ev

upper_lem :
    (s : RiscvCpu) (pc insn : ℕ)
    → HasWords s
    → insn < 2 ^ 32
    → pc < 2 ^ 32
    → pc % 2 ≡ 0
    → Steps s pc insn (some (lui s pc insn)) × Steps s pc insn (some (auipc s pc insn))
unfolding lui auipc
upper_lem s pc insn h li lp ev = (
  set_reg_lem s insn (insn / 2 ^ 12 * 2 ^ 12) pc h (omega arith) lp ev,
  set_reg_lem s insn (size_add pc (insn / 2 ^ 12 * 2 ^ 12)) pc h (omega arith) lp ev,
)

Steps-if :
    (s : RiscvCpu) (pc insn : ℕ) (c : Bool) (x y : Option Outcome)
    → Steps s pc insn x
    → Steps s pc insn y
    → Steps s pc insn (if c then x else y)
Steps-if s pc insn true x y p q = p
Steps-if s pc insn false x y p q = q

-- From registers that hold words, register 0 holding 0, and an even address, every one of these
-- instructions leads to such registers and an even address of 32 bits; it changes no register but
-- `rd`, and nothing else of the core but the program counter.
pub exec_integer_lem :
    (s : RiscvCpu) (pc insn : ℕ)
    → HasWords s
    → insn < 2 ^ 32
    → pc < 2 ^ 32
    → pc % 2 ≡ 0
    → Steps s pc insn (exec_integer s pc insn)
unfolding exec_integer
exec_integer_lem s pc insn h li lp ev =
    let opcode = insn % 2 ^ 7 in
    let case = Steps-if s pc insn in
    case (opcode == 0x37) _ _ (upper_lem s pc insn h li lp ev).0 (
      case (opcode == 0x17) _ _ (upper_lem s pc insn h li lp ev).1 (
        case (opcode == 0x6f) _ _ (jal_lem s pc insn h lp ev) (
          case (opcode == 0x67) _ _ (jalr_lem s pc insn h lp ev) (
            case (opcode == 0x63) _ _ (branch_lem s pc insn h lp ev) (
              case (opcode == 0x13) _ _ (op_imm_lem s pc insn h lp ev) (
                case (opcode == 0x33) _ _ (op_lem s pc insn h lp ev) (record {
                  words = h;
                  others = λ r ne. refl;
                  rest = refl;
                  counter = inl refl;
                  address = lp;
                  even = ev;
                })))))))
