-- ===== src/Exec/Keeps/System.antt =====
-- The CSR and privileged instructions keep the invariant.
use esp32_tinyemu.Prelude.{
  ℕ, ◌/◌, ◌%◌, ◌^◌, ◌≡◌, Bool, true, not, ◌==◌, if◌then◌else◌, ltb, Option, none, some, arith, refl,
  size_add, word_and, word_or, Always, present,
}
use esp32_tinyemu.LruCache.NodeList.{Libraries}
use esp32_tinyemu.Cpu.{RiscvCpu, clear, prv_u, prv_s, prv_m}
use esp32_tinyemu.Cpu.Csr.{csr_read, csr_write}
use esp32_tinyemu.Interp.{funct3_of}
use esp32_tinyemu.Interp.Core.{
  IsCore, same-IsCore, at_pc, handle_sret-IsCore, handle_mret-IsCore, csr_write-IsCore,
}
use esp32_tinyemu.Iomem.{PhysMemoryMap}
use esp32_tinyemu.Bus.{Target}
use esp32_tinyemu.Bus.Keeps.{KeepsCore, IsGood, recored}
use esp32_tinyemu.Exec.{Exit, done, exception, illegal, with_pending, with_reg}
use esp32_tinyemu.Exec.System.{
  with_core, csr_finish, csr_swap, csr_change, exec_privileged, exec_system, exec_fence,
}
use esp32_tinyemu.Exec.Keeps.{
  GoodExit, good_jump, good_done, good_exception, good_illegal, GoodExit-if, next4, with_reg-IsGood,
  with_pc-IsGood, with_pending-IsGood,
}

module _ {lib : Libraries} {W : Type 0} (map0 : PhysMemoryMap lib (RiscvCpu × W))
    (devices : KeepsCore map0) where
  abbrev Well : Exit lib W → Type 0
  Well e = GoodExit map0 devices e

  csr_finish-Well :
      (t : Target lib W) (pc rd val2 err : ℕ)
      → pc % 2 ≡ 0
      → IsGood map0 t
      → Well (csr_finish t pc rd val2 err)
  unfolding csr_finish
  csr_finish-Well t pc rd val2 err ev g =
      let t' = with_reg t rd (val2 % 2 ^ 32) in
      let g' = with_reg-IsGood map0 devices t rd (val2 % 2 ^ 32) (omega arith) g in
      let at = with_pc-IsGood map0 devices t' (size_add pc 4) (omega arith) g' in
      GoodExit-if map0 devices (err == 0) (next4 map0 devices t' g')
        (GoodExit-if map0 devices (err == 2) (good_jump at) (good_done at))

  -- After a write of a CSR.
  written-Well :
      (t : Target lib W) (pc rd val2 : ℕ) (o : Option (ℕ × RiscvCpu))
      → pc % 2 ≡ 0
      → IsGood map0 t
      → Always (λ (r : ℕ × RiscvCpu). IsCore r.1) o
      → Well
          (elim o [ none ↦ illegal t | some (err, s) ↦ csr_finish (with_core t s) pc rd val2 err ])
  written-Well t pc rd val2 none ev g h = good_illegal g
  written-Well t pc rd val2 (some (err, s)) ev g (present h) =
      csr_finish-Well (with_core t s) pc rd val2 err ev (recored map0 devices t s g h)

  csr_swap-Well :
      (t : Target lib W) (pc rd csr val : ℕ)
      → pc % 2 ≡ 0
      → IsGood map0 t
      → Well (csr_swap t pc rd csr val)
  unfolding csr_swap
  csr_swap-Well t pc rd csr val ev g = after (csr_read t.core csr true)
    where
      after :
          (o : Option ℕ)
          → Well (elim o [
            | none ↦ illegal t
            | some val2 ↦ elim (csr_write t.core csr val) [
              | none ↦ illegal t
              | some (err, s) ↦ csr_finish (with_core t s) pc rd val2 err
            ]
          ])
      after none = good_illegal g
      after (some val2) =
          written-Well t pc rd val2 (csr_write t.core csr val) ev g
            (csr_write-IsCore t.core csr val g.sound)

  csr_change-Well :
      (t : Target lib W) (pc rd csr : ℕ) (sets writes : Bool) (val : ℕ)
      → pc % 2 ≡ 0
      → IsGood map0 t
      → Well (csr_change t pc rd csr sets writes val)
  unfolding csr_change
  csr_change-Well t pc rd csr sets writes val ev g = after (csr_read t.core csr writes)
    where
      after :
          (o : Option ℕ)
          → Well (elim o [
            | none ↦ illegal t
            | some val2 ↦
                let new = if sets then word_or (val2 % 2 ^ 32) val else clear (val2 % 2 ^ 32) val in
                if writes
                then elim (csr_write t.core csr new) [
                  | none ↦ illegal t
                  | some (err, s) ↦ csr_finish (with_core t s) pc rd val2 err
                ]
                else csr_finish t pc rd val2 0
          ])
      after none = good_illegal g
      after (some val2) =
          GoodExit-if map0 devices writes
            (written-Well t pc rd val2 (csr_write t.core csr _) ev g
              (csr_write-IsCore t.core csr _ g.sound))
            (csr_finish-Well t pc rd val2 0 ev g)

  pends : (t : Target lib W) (cause : ℕ) → IsGood map0 t → Well (exception (with_pending t cause))
  pends t cause g = good_exception (with_pending-IsGood map0 devices t cause g)

  leaves :
      (t : Target lib W) (s : RiscvCpu) → IsGood map0 t → IsCore s → Well (done (with_core t s))
  leaves t s g h = good_done (recored map0 devices t s g h)

  exec_privileged-Well :
      (t : Target lib W) (pc insn : ℕ)
      → pc % 2 ≡ 0
      → IsGood map0 t
      → Well (exec_privileged t pc insn)
  unfolding exec_privileged
  exec_privileged-Well t pc insn ev g =
      let imm = insn / 2 ^ 20 in
      let s = t.core in
      let plain = word_and insn 0xfff80 == 0 in
      let ret = at_pc s pc ev g.sound in
      GoodExit-if map0 devices (imm == 0)
        (GoodExit-if map0 devices plain (pends t _ g) (good_illegal g))
        (GoodExit-if map0 devices (imm == 1)
          (GoodExit-if map0 devices plain (pends t _ g) (good_illegal g))
          (GoodExit-if map0 devices (imm == 0x102)
            (GoodExit-if map0 devices (not plain) (good_illegal g) (
              GoodExit-if map0 devices (ltb s.priv prv_s) (good_illegal g)
                (leaves t _ g (handle_sret-IsCore _ ret))))
            (GoodExit-if map0 devices (imm == 0x302)
              (GoodExit-if map0 devices (not plain) (good_illegal g) (
                GoodExit-if map0 devices (ltb s.priv prv_m) (good_illegal g)
                  (leaves t _ g (handle_mret-IsCore _ ret))))
              (GoodExit-if map0 devices (imm == 0x105)
                (GoodExit-if map0 devices (not (word_and insn 0x7f80 == 0)) (good_illegal g) (
                  GoodExit-if map0 devices (s.priv == prv_u) (good_illegal g) (
                    GoodExit-if map0 devices (word_and s.mip s.mie == 0)
                      (leaves t _ g (
                        at_pc (record s { power_down_flag = true }) (size_add pc 4) (omega arith)
                          (same-IsCore s _ refl refl refl refl refl refl g.sound)))
                      (next4 map0 devices t g))))
                (GoodExit-if map0 devices (imm / 2 ^ 5 == 9)
                  (GoodExit-if map0 devices (not (word_and insn 0x7f80 == 0)) (good_illegal g) (
                    GoodExit-if map0 devices (s.priv == prv_u) (good_illegal g)
                      (good_jump (with_pc-IsGood map0 devices t (size_add pc 4) (omega arith) g))))
                  (good_illegal g))))))

  pub exec_system-Well :
      (t : Target lib W) (pc counter insn : ℕ)
      → pc % 2 ≡ 0
      → IsGood map0 t
      → Well (exec_system t pc counter insn)
  unfolding exec_system
  exec_system-Well t pc counter insn ev g =
      let counted : IsGood map0 (with_core t (record t.core { insn_counter = counter })) =
        recored map0 devices t _ g (same-IsCore t.core _ refl refl refl refl refl refl g.sound) in
      GoodExit-if map0 devices (funct3_of insn % 4 == 1) (csr_swap-Well _ pc _ _ _ ev counted) (
        GoodExit-if map0 devices (funct3_of insn % 4 == 0) (exec_privileged-Well t pc insn ev g)
          (csr_change-Well _ pc _ _ _ _ _ ev counted))

  pub exec_fence-Well : (t : Target lib W) (insn : ℕ) → IsGood map0 t → Well (exec_fence t insn)
  unfolding exec_fence
  exec_fence-Well t insn g =
      GoodExit-if map0 devices (funct3_of insn == 0)
        (GoodExit-if map0 devices (word_and insn 0xf00fff80 == 0) (next4 map0 devices t g)
          (good_illegal g))
        (GoodExit-if map0 devices (funct3_of insn == 1)
          (GoodExit-if map0 devices (insn == 0x100f) (next4 map0 devices t g) (good_illegal g))
          (good_illegal g))
