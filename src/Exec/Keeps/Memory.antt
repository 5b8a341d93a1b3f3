-- ===== src/Exec/Keeps/Memory.antt =====
-- The loads, stores and atomic operations keep the invariant.
use esp32_tinyemu.Prelude.{
  ℕ, ◌-◌, ◌/◌, ◌^◌, ◌≤◌, ◌<◌, not, ◌==◌, Option, some, arith, refl, Always, present, Always-if,
  Always-elim,
}
use esp32_tinyemu.LruCache.NodeList.{Libraries}
use esp32_tinyemu.Cpu.{RiscvCpu}
use esp32_tinyemu.Interp.{sext, rd_of, rs1_of, rs2_of, funct3_of}
use esp32_tinyemu.Interp.Alu.{shl}
use esp32_tinyemu.Interp.Values.{asr_lt}
use esp32_tinyemu.Interp.Core.{same-IsCore}
use esp32_tinyemu.Iomem.{PhysMemoryMap}
use esp32_tinyemu.Bus.{Target, target_read_slow, target_write_slow}
use esp32_tinyemu.Bus.Keeps.{
  KeepsCore, IsGood, recored, target_read_slow-IsGood, target_write_slow-IsGood,
}
use esp32_tinyemu.Exec.{Environment, Exit, next, illegal, with_reg, load_then, store_then}
use esp32_tinyemu.Exec.Memory.{
  amo_op, set_fp_reg, exec_load, exec_store, exec_atomic, exec_fp_load, exec_fp_store,
}
use esp32_tinyemu.Exec.Keeps.{
  GoodExit, good_illegal, next4, with_reg-IsGood, load_then-GoodExit, store_then-GoodExit,
}

pub sext_lt : (val n : ℕ) → 0 < n → n ≤ 32 → sext val n < 2 ^ 32
unfolding sext
sext_lt val n p le = asr_lt (shl val (32 - n)) (32 - n) (omega arith) (omega arith)

module _ {lib : Libraries} {W : Type 0} (map0 : PhysMemoryMap lib (RiscvCpu × W))
    (devices : KeepsCore map0) where
  abbrev pub Well : Option (Exit lib W) → Type 0
  Well o = Always (GoodExit map0 devices) o

  stored : (t : Target lib W) → IsGood map0 t → Well (some (next t 4))
  stored t g = present (next4 map0 devices t g)

  pub set_fp_reg-IsGood :
      (t : Target lib W) (rd val : ℕ)
      → IsGood map0 t
      → IsGood map0 (record t { core = set_fp_reg t.core rd val })
  set_fp_reg-IsGood t rd val g =
      recored map0 devices t _ g (same-IsCore t.core _ refl refl refl refl refl refl g.sound)

  -- A read of memory, and what is done with the value.
  pub load_then-Well :
      (env : Environment lib W) (t : Target lib W) (addr size width : ℕ)
      (k : ℕ → Target lib W → Option (Exit lib W))
      → IsGood map0 t
      → ((v : ℕ) (t' : Target lib W) → v < 2 ^ width → IsGood map0 t' → Well (k v t'))
      → Well (load_then env width (target_read_slow t addr size) k)
  load_then-Well env t addr size width k g h =
      load_then-GoodExit map0 devices env width (target_read_slow t addr size) k
        (target_read_slow-IsGood map0 devices t addr size g) h

  pub store_then-Well :
      (t : Target lib W) (addr val size : ℕ) (k : Target lib W → Option (Exit lib W))
      → IsGood map0 t
      → ((t' : Target lib W) → IsGood map0 t' → Well (k t'))
      → Well (store_then (target_write_slow t addr val size) k)
  store_then-Well t addr val size k g h =
      store_then-GoodExit map0 devices (target_write_slow t addr val size) k
        (target_write_slow-IsGood map0 devices t addr val size g) h

  bad : (t : Target lib W) → IsGood map0 t → Well (some (illegal t))
  bad t g = present (good_illegal g)

  into_reg :
      (rd v : ℕ) (t : Target lib W)
      → v < 2 ^ 32
      → IsGood map0 t
      → Well (some (next (with_reg t rd v) 4))
  into_reg rd v t lt g = stored (with_reg t rd v) (with_reg-IsGood map0 devices t rd v lt g)

  pub exec_load-Well :
      (env : Environment lib W) (t : Target lib W) (insn : ℕ)
      → IsGood map0 t
      → Well (exec_load env t insn)
  unfolding exec_load
  exec_load-Well env t insn g =
      let rd = rd_of insn in
      Always-if (funct3_of insn == 0)
        (load_then-Well env t _ 0 8 _ g
          (λ v t' lt h. into_reg rd (sext v 8) t' (sext_lt v 8 (omega arith) (omega arith)) h))
        (Always-if (funct3_of insn == 1)
          (load_then-Well env t _ 1 16 _ g
            (λ v t' lt h. into_reg rd (sext v 16) t' (sext_lt v 16 (omega arith) (omega arith)) h))
          (Always-if (funct3_of insn == 2)
            (load_then-Well env t _ 2 32 _ g (λ v t' lt h. into_reg rd v t' lt h))
            (Always-if (funct3_of insn == 4)
              (load_then-Well env t _ 0 8 _ g (λ v t' lt h. into_reg rd v t' (omega arith) h))
              (Always-if (funct3_of insn == 5)
                (load_then-Well env t _ 1 16 _ g (λ v t' lt h. into_reg rd v t' (omega arith) h))
                (bad t g)))))

  pub exec_store-Well : (t : Target lib W) (insn : ℕ) → IsGood map0 t → Well (exec_store t insn)
  unfolding exec_store
  exec_store-Well t insn g = Always-if (funct3_of insn == 0) (store_then-Well t _ _ 0 _ g stored) (
      Always-if (funct3_of insn == 1) (store_then-Well t _ _ 1 _ g stored)
        (Always-if (funct3_of insn == 2) (store_then-Well t _ _ 2 _ g stored) (bad t g)))

  pub exec_fp_load-Well :
      (env : Environment lib W) (t : Target lib W) (insn : ℕ)
      → IsGood map0 t
      → Well (exec_fp_load env t insn)
  unfolding exec_fp_load
  exec_fp_load-Well env t insn g = Always-if (t.core.fs == 0) (bad t g) (
      Always-if (funct3_of insn == 2)
        (load_then-Well env t _ 2 32 _ g (λ v t' lt h. stored _ (set_fp_reg-IsGood t' _ _ h)))
        (Always-if (funct3_of insn == 3)
          (load_then-Well env t _ 3 64 _ g (λ v t' lt h. stored _ (set_fp_reg-IsGood t' _ _ h)))
          (bad t g)))

  pub exec_fp_store-Well :
      (t : Target lib W) (insn : ℕ) → IsGood map0 t → Well (exec_fp_store t insn)
  unfolding exec_fp_store
  exec_fp_store-Well t insn g = Always-if (t.core.fs == 0) (bad t g) (
      Always-if (funct3_of insn == 2) (store_then-Well t _ _ 2 _ g stored)
        (Always-if (funct3_of insn == 3) (store_then-Well t _ _ 3 _ g stored) (bad t g)))

  pub exec_atomic-Well :
      (env : Environment lib W) (t : Target lib W) (insn : ℕ)
      → IsGood map0 t
      → Well (exec_atomic env t insn)
  unfolding exec_atomic
  exec_atomic-Well env t insn g =
      let addr = t.core.reg (rs1_of insn) in
      let rd = rd_of insn in
      Always-if (not (funct3_of insn == 2)) (bad t g) (
        Always-if (insn / 2 ^ 27 == 2)
          (Always-if (rs2_of insn == 0)
            (load_then-Well env t addr 2 32 _ g (λ v t' lt h. into_reg rd v _ lt (
              recored map0 devices t' _ h
                (same-IsCore t'.core _ refl refl refl refl refl refl h.sound))))
            (bad t g))
          (Always-if (insn / 2 ^ 27 == 3)
            (Always-if (t.core.load_res == addr)
              (store_then-Well t addr _ 2 _ g (λ t' h. into_reg rd 0 t' (omega arith) h))
              (into_reg rd 1 t (omega arith) g))
            (Always-elim (amo_op (insn / 2 ^ 27)) (bad t g) (λ f.
              load_then-Well env t addr 2 32 _ g (λ v t' lt h.
                store_then-Well t' addr _ 2 _ h (λ t'' h'. into_reg rd v t'' lt h'))))))
