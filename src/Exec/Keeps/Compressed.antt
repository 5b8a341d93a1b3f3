-- ===== src/Exec/Keeps/Compressed.antt =====
-- The compressed instructions keep the invariant.
use esp32_tinyemu.Prelude.{
  ℕ, ◌+◌, ◌*◌, ◌/◌, ◌%◌, ◌^◌, ◌<◌, ◌≡◌, inl, inr, ◌==◌, if◌then◌else◌, Option, none, some, arith,
  size_add, bit, digit, word_or, or_lt, and_lt, xor_lt, Bool-cases, present, Always-if,
}
use native.Mathlib.Nat.{div-le_self}
use esp32_tinyemu.LruCache.NodeList.{Libraries}
use esp32_tinyemu.Cpu.{RiscvCpu}
use esp32_tinyemu.Interp.{rd_of}
use esp32_tinyemu.Interp.Values.{Fits, asr_lt}
use esp32_tinyemu.Interp.Registers.{jump_even}
use esp32_tinyemu.Iomem.{PhysMemoryMap}
use esp32_tinyemu.Bus.{Target, target_read_slow, target_write_slow}
use esp32_tinyemu.Bus.Keeps.{KeepsCore, IsGood}
use esp32_tinyemu.Exec.{
  Environment, Exit, next, jump, illegal, get_field1, with_reg, with_pc, load_then, store_then,
}
use esp32_tinyemu.Exec.Compressed.{
  c_funct3, c_rs2, c_low_reg, c_high_reg, c_addi4spn_imm, c_imm6, c_shift, c_addi16sp_imm,
  c_lui_imm, c_jump_imm, c_branch_imm, c_arithmetic, when_float, c_register, quadrant1, c_jump_move,
  quadrant0, quadrant2,
}
use esp32_tinyemu.Exec.Memory.{set_fp_reg, f32_high}
use esp32_tinyemu.Exec.Fields.{c_jump_imm-even, c_branch_imm-even, c_shift_lt}
use esp32_tinyemu.Exec.Keeps.{
  GoodExit, good_jump, good_exception, good_illegal, GoodExit-if, next2, with_reg-IsGood,
  with_pc-IsGood, with_pending-IsGood,
}
use esp32_tinyemu.Exec.Keeps.Memory.{
  sext_lt, Well, set_fp_reg-IsGood, load_then-Well, store_then-Well,
}

arithmetic_lt : (selector a b : ℕ) → Fits (c_arithmetic selector a b)
unfolding c_arithmetic
arithmetic_lt selector a b = ground (arith, xor_lt a b, or_lt a b, and_lt a b)

imm6_lt : (insn : ℕ) → c_imm6 insn < 2 ^ 32
unfolding c_imm6
imm6_lt insn = sext_lt _ 6 (omega arith) (omega arith)

lui_lt : (insn : ℕ) → c_lui_imm insn < 2 ^ 32
unfolding c_lui_imm
lui_lt insn = sext_lt _ 18 (omega arith) (omega arith)

module _ {lib : Libraries} {W : Type 0} (map0 : PhysMemoryMap lib (RiscvCpu × W))
    (devices : KeepsCore map0) where
  -- A result that goes to a register.
  into :
      (t : Target lib W) (rd val : ℕ)
      → val < 2 ^ 32
      → IsGood map0 t
      → GoodExit map0 devices (next (with_reg t rd val) 2)
  into t rd val lt g =
      next2 map0 devices (with_reg t rd val) (with_reg-IsGood map0 devices t rd val lt g)

  goes :
      (t : Target lib W) (pc offset : ℕ)
      → pc % 2 ≡ 0
      → bit offset 0 ≡ 0
      → IsGood map0 t
      → GoodExit map0 devices (jump (with_pc t (size_add pc offset)))
  goes t pc offset ev low g =
      good_jump (with_pc-IsGood map0 devices t (size_add pc offset) (jump_even pc offset ev low) g)

  stored : (t : Target lib W) → IsGood map0 t → Well map0 devices (some (next t 2))
  stored t g = present (next2 map0 devices t g)

  -- A shift by an amount below 32.
  shifted :
      (t : Target lib W) (insn rd val : ℕ)
      → (c_shift insn < 32 → val < 2 ^ 32)
      → IsGood map0 t
      → GoodExit map0 devices
          (if bit (c_shift insn) 5 == 1 then illegal t else next (with_reg t rd val) 2)
  shifted t insn rd val lt g = elim (Bool-cases (bit (c_shift insn) 5 == 1)) [
    | inl e ↦ rw e (good_illegal g)
    | inr e ↦
        rw e (into t rd val (lt (c_shift_lt insn (ground (arith, e, digit (c_shift insn) 5)))) g)
  ]

  c_register-GoodExit :
      (t : Target lib W) (insn : ℕ) → IsGood map0 t → GoodExit map0 devices (c_register t insn)
  unfolding c_register
  c_register-GoodExit t insn g =
      let rd = c_high_reg insn in
      let a = t.core.reg rd in
      let la = g.sound.words.reg_lt rd in
      GoodExit-if map0 devices (insn / 2 ^ 10 % 2 ^ 2 == 0)
        (shifted t insn rd _ (λ lt. omega (arith, la, div-le_self a (2 ^ c_shift insn))) g)
        (GoodExit-if map0 devices (insn / 2 ^ 10 % 2 ^ 2 == 1)
          (shifted t insn rd _ (λ lt. asr_lt a (c_shift insn) la lt) g)
          (GoodExit-if map0 devices (insn / 2 ^ 10 % 2 ^ 2 == 2)
            (into t rd _ (and_lt a (c_imm6 insn)) g)
            (after rd (c_arithmetic _ a (t.core.reg (c_low_reg insn))) (arithmetic_lt _ a _))))
    where
      after :
          (rd : ℕ) (o : Option ℕ)
          → Fits o
          → GoodExit map0 devices
              (elim o [ none ↦ illegal t | some val ↦ next (with_reg t rd val) 2 ])
      after rd none lt = good_illegal g
      after rd (some val) lt = into t rd val lt g

  pub quadrant1-GoodExit :
      (t : Target lib W) (pc insn : ℕ)
      → pc % 2 ≡ 0
      → IsGood map0 t
      → GoodExit map0 devices (quadrant1 t pc insn)
  unfolding quadrant1
  quadrant1-GoodExit t pc insn ev g =
      let rd = rd_of insn in
      let f = c_funct3 insn in
      let branch = goes t pc (c_branch_imm insn) ev (c_branch_imm-even insn) g in
      let tested = t.core.reg (c_high_reg insn) in
      GoodExit-if map0 devices (f == 0) (into t rd _ (omega arith) g) (
        GoodExit-if map0 devices (f == 1)
          (goes (with_reg t 1 (size_add pc 2)) pc (c_jump_imm insn) ev (c_jump_imm-even insn)
            (with_reg-IsGood map0 devices t 1 (size_add pc 2) (omega arith) g))
          (GoodExit-if map0 devices (f == 2) (into t rd _ (imm6_lt insn) g) (
            GoodExit-if map0 devices (f == 3)
              (GoodExit-if map0 devices (rd == 2)
                (GoodExit-if map0 devices (c_addi16sp_imm insn == 0) (good_illegal g)
                  (into t 2 _ (omega arith) g))
                (into t rd _ (lui_lt insn) g))
              (GoodExit-if map0 devices (f == 4) (c_register-GoodExit t insn g) (
                GoodExit-if map0 devices (f == 5)
                  (goes t pc (c_jump_imm insn) ev (c_jump_imm-even insn) g)
                  (GoodExit-if map0 devices (f == 6)
                    (GoodExit-if map0 devices (tested == 0) branch (next2 map0 devices t g))
                    (GoodExit-if map0 devices (tested == 0) (next2 map0 devices t g) branch)))))))

  c_jump_move-GoodExit :
      (t : Target lib W) (pc insn : ℕ)
      → IsGood map0 t
      → GoodExit map0 devices (c_jump_move t pc insn)
  unfolding c_jump_move
  c_jump_move-GoodExit t pc insn g =
      let rd = rd_of insn in
      let rs2 = c_rs2 insn in
      let target = t.core.reg rd / 2 * 2 in
      let there = with_pc-IsGood map0 devices t target (omega arith) g in
      GoodExit-if map0 devices (insn / 2 ^ 12 % 2 == 0)
        (GoodExit-if map0 devices (rs2 == 0)
          (GoodExit-if map0 devices (rd == 0) (good_illegal g) (good_jump there))
          (into t rd _ (g.sound.words.reg_lt rs2) g))
        (GoodExit-if map0 devices (rs2 == 0)
          (GoodExit-if map0 devices (rd == 0)
            (good_exception (with_pending-IsGood map0 devices t _ g))
            (good_jump (
              with_reg-IsGood map0 devices (with_pc t target) 1 (size_add pc 2) (omega arith)
                there)))
          (into t rd _ (omega arith) g))

  floating :
      (t : Target lib W) (e : Option (Exit lib W))
      → IsGood map0 t
      → Well map0 devices e
      → Well map0 devices (when_float t e)
  unfolding when_float
  floating t e g h = Always-if (t.core.fs == 0) (present (good_illegal g)) h

  module _ (env : Environment lib W) where
    -- The loads of a word into a register or a floating point register, and of a double word.
    word_load :
        (t : Target lib W) (addr rd : ℕ)
        → IsGood map0 t
        → Well map0 devices (
            load_then env 32 (target_read_slow t addr 2) (λ v t'. some (next (with_reg t' rd v) 2)))
    word_load t addr rd g =
        load_then-Well map0 devices env t addr 2 32 _ g (λ v t' lt h. present (into t' rd v lt h))

    fp_load :
        (t : Target lib W) (addr rd size width : ℕ) (high : ℕ → ℕ)
        → IsGood map0 t
        → Well map0 devices (
            when_float t (
              load_then env width
                (target_read_slow t addr size)
                (λ v t'. some (next (record t' { core = set_fp_reg t'.core rd (high v) }) 2))))
    fp_load t addr rd size width high g = floating t _ g (
        load_then-Well map0 devices env t addr size width _ g
          (λ v t' lt h. stored _ (set_fp_reg-IsGood map0 devices t' rd (high v) h)))

    fp_store :
        (t : Target lib W) (addr val size : ℕ)
        → IsGood map0 t
        → Well map0 devices (
            when_float t (
              store_then
                (target_write_slow t addr val size)
                (λ (t' : Target lib W). some (next t' 2))))
    fp_store t addr val size g =
        floating t _ g (store_then-Well map0 devices t addr val size _ g stored)

    pub quadrant0-Well :
        (t : Target lib W) (insn : ℕ) → IsGood map0 t → Well map0 devices (quadrant0 env t insn)
    unfolding quadrant0
    quadrant0-Well t insn g =
        let f = c_funct3 insn in
        let rd = c_low_reg insn in
        Always-if (f == 0)
          (Always-if (c_addi4spn_imm insn == 0) (present (good_illegal g))
            (present (into t rd _ (omega arith) g)))
          (Always-if (f == 1) (fp_load t _ rd 3 64 (λ v. v) g) (
            Always-if (f == 2) (word_load t _ rd g) (
              Always-if (f == 3) (fp_load t _ rd 2 32 (λ v. v + f32_high) g) (
                Always-if (f == 5) (fp_store t _ _ 3 g) (
                  Always-if (f == 6) (store_then-Well map0 devices t _ _ 2 _ g stored)
                    (Always-if (f == 7) (fp_store t _ _ 2 g) (present (good_illegal g))))))))

    pub quadrant2-Well :
        (t : Target lib W) (pc insn : ℕ)
        → IsGood map0 t
        → Well map0 devices (quadrant2 env t pc insn)
    unfolding quadrant2
    quadrant2-Well t pc insn g =
        let f = c_funct3 insn in
        let rd = rd_of insn in
        let imm = word_or (get_field1 insn 12 5 5) (c_rs2 insn) in
        Always-if (f == 0)
          (Always-if (bit imm 5 == 1) (present (good_illegal g))
            (present (into t rd _ (omega arith) g)))
          (Always-if (f == 1) (fp_load t _ rd 3 64 (λ v. v) g) (
            Always-if (f == 2) (word_load t _ rd g) (
              Always-if (f == 3) (fp_load t _ rd 2 32 (λ v. v + f32_high) g) (
                Always-if (f == 4) (present (c_jump_move-GoodExit t pc insn g)) (
                  Always-if (f == 5) (fp_store t _ _ 3 g) (
                    Always-if (f == 6) (store_then-Well map0 devices t _ _ 2 _ g stored)
                      (fp_store t _ _ 2 g)))))))
