-- ===== src/Exec/Keeps.antt =====
-- Every instruction keeps the invariant of the core and the ranges of the memory map.
pub mod Memory
pub mod System
pub mod Compressed
pub mod Step
use esp32_tinyemu.Prelude.{
  ℕ, zero, suc, ◌+◌, ◌-◌, ◌*◌, ◌/◌, ◌%◌, ◌^◌, ◌≤◌, ◌<◌, ◌≡◌, inl, inr, Bool, true, false, not, ◌==◌,
  if◌then◌else◌, ltb, Option, none, some, arith, refl, ap, bit, word_and, word_or, word_not,
  word_xor, or_lt, and_lt, xor_lt, positive, Bool-cases, size_add, Always, absent, present,
  get_present, Always-bind, Always-case, Always-if, Always-weaken, Always-elim,
}
use native.Mathlib.Nat.{mod-lt}
use esp32_tinyemu.LruCache.NodeList.{Libraries}
use esp32_tinyemu.Cpu.{RiscvCpu, clear, handle_sret, handle_mret, prv_u, prv_s, prv_m}
use esp32_tinyemu.Cpu.Csr.{csr_read, csr_write}
use esp32_tinyemu.Interp.{sext, rd_of, rs1_of, rs2_of, funct3_of, set_reg, imm_i, exec_integer}
use esp32_tinyemu.Interp as Integer
use esp32_tinyemu.Interp.Alu.{shl, asr}
use esp32_tinyemu.Interp.Values.{asr_lt}
use esp32_tinyemu.Interp.Registers.{HasWords, cpu_after}
use esp32_tinyemu.Interp.Core.{
  IsCore, same-IsCore, at_pc, set_reg-IsCore, handle_sret-IsCore, handle_mret-IsCore,
  csr_write-IsCore, exec_integer-IsCore,
}
use esp32_tinyemu.Iomem.{PhysMemoryMap}
use esp32_tinyemu.Bus.{Target, Loaded, value, fault, target_read_slow, target_write_slow}
use esp32_tinyemu.Bus.Keeps.{
  KeepsCore, IsGood, Good, recored, target_read_slow-IsGood, target_write_slow-IsGood,
}
use esp32_tinyemu.Exec.{
  Environment, Exit, next, jump, done, exception, illegal, with_reg, with_pc, with_pending,
  load_then, store_then, lift,
}
use esp32_tinyemu.Exec.Memory.{
  imm_s, amo_op, set_fp_reg, f32_high, exec_load, exec_store, exec_atomic, exec_fp_load,
  exec_fp_store,
}

module _ {lib : Libraries} {W : Type 0} (map0 : PhysMemoryMap lib (RiscvCpu × W))
    (devices : KeepsCore map0) where
  -- An instruction that ended with the invariant, and with a length of two or four bytes.
  pub data GoodExit : Exit lib W → Type 0 where
    good_next :
        {t : Target lib W} {len : ℕ}
        → len ≤ 4
        → 2 ≤ len
        → len % 2 ≡ 0
        → IsGood map0 t
        → GoodExit (next t len)
    good_jump : {t : Target lib W} → IsGood map0 t → GoodExit (jump t)
    good_done : {t : Target lib W} → IsGood map0 t → GoodExit (done t)
    good_exception : {t : Target lib W} → IsGood map0 t → GoodExit (exception t)
    good_illegal : {t : Target lib W} → IsGood map0 t → GoodExit (illegal t)

  pub GoodExit-if :
      (c : Bool) {x y : Exit lib W} → GoodExit x → GoodExit y → GoodExit (if c then x else y)
  GoodExit-if true p q = p
  GoodExit-if false p q = q

  pub next4 : (t : Target lib W) → IsGood map0 t → GoodExit (next t 4)
  next4 t g = good_next (omega arith) (omega arith) refl g

  pub next2 : (t : Target lib W) → IsGood map0 t → GoodExit (next t 2)
  next2 t g = good_next (omega arith) (omega arith) refl g

  pub with_reg-IsGood :
      (t : Target lib W) (rd val : ℕ)
      → val < 2 ^ 32
      → IsGood map0 t
      → IsGood map0 (with_reg t rd val)
  with_reg-IsGood t rd val lt g =
      recored map0 devices t (set_reg t.core rd val) g (set_reg-IsCore t.core rd val lt g.sound)

  pub with_pc-IsGood :
      (t : Target lib W) (pc : ℕ) → pc % 2 ≡ 0 → IsGood map0 t → IsGood map0 (with_pc t pc)
  with_pc-IsGood t pc e g = recored map0 devices t _ g (at_pc t.core pc e g.sound)

  -- Changes of fields that the invariant does not name.
  pub with_pending-IsGood :
      (t : Target lib W) (cause : ℕ) → IsGood map0 t → IsGood map0 (with_pending t cause)
  with_pending-IsGood t cause g =
      recored map0 devices t _ g (same-IsCore t.core _ refl refl refl refl refl refl g.sound)

  pub load_then-GoodExit :
      (env : Environment lib W) (width : ℕ) (o : Option (Loaded × Target lib W))
      (k : ℕ → Target lib W → Option (Exit lib W))
      → Always (λ (r : Loaded × Target lib W). IsGood map0 r.1) o
      → ((v : ℕ) (t : Target lib W) → v < 2 ^ width → IsGood map0 t → Always GoodExit (k v t))
      → Always GoodExit (load_then env width o k)
  unfolding load_then
  load_then-GoodExit env width none k g h = absent
  load_then-GoodExit env width (some (fault, t)) k (present g) h = present (good_exception g)
  load_then-GoodExit env width (some (value none, t)) k (present g) h =
      h (env.unset t % 2 ^ width) t (mod-lt (env.unset t) (positive width)) g
  load_then-GoodExit env width (some (value (some val), t)) k (present g) h =
      h (val % 2 ^ width) t (mod-lt val (positive width)) g

  pub store_then-GoodExit :
      (o : Option (Bool × Target lib W)) (k : Target lib W → Option (Exit lib W))
      → Always (λ (r : Bool × Target lib W). IsGood map0 r.1) o
      → ((t : Target lib W) → IsGood map0 t → Always GoodExit (k t))
      → Always GoodExit (store_then o k)
  unfolding store_then
  store_then-GoodExit none k g h = absent
  store_then-GoodExit (some (false, t)) k (present g) h = present (good_exception g)
  store_then-GoodExit (some (true, t)) k (present g) h = h t g
