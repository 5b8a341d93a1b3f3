-- ===== src/Exec/Rounds/Ends.antt =====
-- The fuel of the loop is enough: `n_cycles` bounds the rounds up to the last block, and the page
-- bounds that one.
use esp32_tinyemu.Prelude.{
  ℕ, zero, suc, ◌+◌, ◌-◌, ◌≤◌, ◌<◌, ◌⊎◌, inl, inr, ◌==◌, Option, none, some, arith, refl, leb,
  Bool-cases, Always, present,
}
use esp32_tinyemu.LruCache.NodeList.{Libraries}
use esp32_tinyemu.Cpu.{RiscvCpu}
use esp32_tinyemu.Interp.Core.{same-IsCore}
use esp32_tinyemu.Iomem.{PhysMemoryMap}
use esp32_tinyemu.Bus.{Target}
use esp32_tinyemu.Bus.Keeps.{KeepsCore, IsGood, recored}
use esp32_tinyemu.Exec.{Environment}
use esp32_tinyemu.Exec.Loop.{
  Block, no_block, Turn, again, stop, Run, ended, stopped, check_interrupts, round, run,
  riscv_cpu_interp,
}
use esp32_tinyemu.Exec.Keeps.Step.{FloatKeeps}
use esp32_tinyemu.Exec.Rounds.{room, GoodBlock, no_block-GoodBlock, TopFree}
use esp32_tinyemu.Exec.Rounds.Fetches.{check_lem}
use esp32_tinyemu.Exec.Rounds.Turns.{
  GoodTurn, good_again, good_stop, counted-IsGood, round-GoodTurn,
}

-- The fuel has sufficed: the function has ended in a state with the property, or stopped where an
-- operation has no result.
data Finishes {lib : Libraries} {W : Type 0} (P : Target lib W → Type 0) : Run lib W → Type 0 where
  finished : {t : Target lib W} → P t → Finishes P (ended t)
  no_result : Finishes P stopped

-- The fuel that the rounds after this one need.
less :
    (fuel n rounds room0 room1 : ℕ)
    → room0 ≤ 4094
    → (n < rounds + 1 → room1 < room0)
    → ((n ≤ rounds) × (room0 < suc fuel)) ⊎ (n - rounds + 4094 < suc fuel)
    → ((n ≤ rounds + 1) × (room1 < fuel)) ⊎ (n - (rounds + 1) + 4094 < fuel)
less fuel n rounds room0 room1 near late enough = elim (Bool-cases (leb n rounds)) [
  | inl e ↦
      let le : n ≤ rounds = ground (arith, e) in
      let shorter : room1 < room0 = late (omega arith) in
      elim enough [
        | inl (_, lt) ↦ inl (omega arith, omega arith)
        | inr lt ↦ inl (omega arith, omega arith)
      ]
  | inr e ↦
      let gt : rounds < n = ground (arith, e) in
      elim enough [ inl (le, _) ↦ absurd (omega arith) | inr lt ↦ inr (omega arith) ]
]

module _ {lib : Libraries} {W : Type 0} (map0 : PhysMemoryMap lib (RiscvCpu × W))
    (devices : KeepsCore map0) (free : TopFree map0) (env : Environment lib W)
    (floats : FloatKeeps env) where
  after_round :
      (fuel n base rounds : ℕ) (b : Block) (o : Option (Turn lib W))
      → Always (GoodTurn map0 devices free n (rounds + 1) b) o
      → ((t : Target lib W) (b' : Block)
          → IsGood map0 t
          → GoodBlock b'
          → (n < rounds + 1 → room b' < room b)
          → Finishes (IsGood map0) (run env fuel n base (rounds + 1) t b'))
      → Finishes (IsGood map0) (elim o [
        | none ↦ stopped
        | some (stop t') ↦ ended t'
        | some (again t' b') ↦ run env fuel n base (rounds + 1) t' b'
      ])
  after_round fuel n base rounds b none h rest = no_result
  after_round fuel n base rounds b (some (stop t)) (present (good_stop g)) rest = finished g
  after_round fuel n base rounds b (some (again t b')) (present (good_again g gb late)) rest =
      rest t b' g gb late

  run-Finishes :
      (fuel n base rounds : ℕ) (t : Target lib W) (b : Block)
      → IsGood map0 t
      → GoodBlock b
      → ((n ≤ rounds) × (room b < fuel)) ⊎ (n - rounds + 4094 < fuel)
      → Finishes (IsGood map0) (run env fuel n base rounds t b)
  unfolding run
  run-Finishes zero n base rounds t b g gb enough = absurd (omega arith)
  run-Finishes (suc fuel) n base rounds t b g gb enough =
      after_round fuel n base rounds b (round env n base (rounds + 1) t b)
        (round-GoodTurn map0 devices free env floats n base (rounds + 1) t b g gb)
        (λ t' b' g' gb' late.
          run-Finishes fuel n base (rounds + 1) t' b' g' gb'
            (less fuel n rounds (room b) (room b') gb.near late enough))

  -- The fuel `n` + 4095 is enough for the interpreter. From a core whose registers are words, register 0 holding 0, and whose
  -- program counter, trap vectors and return addresses are even, it comes after at most `n` + 4095
  -- rounds to its end, with such a core and with the map's ranges but for the contents of the RAM; or
  -- an operation before that has no result. It is supposed that the devices and the floating point
  -- operations keep such a core, and that nothing is mapped in the last page.
  riscv_cpu_interp-Finishes :
      (fuel n : ℕ) (t : Target lib W)
      → n + 4094 < fuel
      → IsGood map0 t
      → Finishes (IsGood map0) (riscv_cpu_interp env fuel t n)
  unfolding riscv_cpu_interp
  riscv_cpu_interp-Finishes fuel n t enough g =
      let s = (check_interrupts t.core).1 in
      let h = check_lem map0 devices free t.core g.sound in
      let start = record t { core = record s { pending_exception = none } } in
      elim (Bool-cases (n == 0)) [
        | inl e ↦ rw e (finished g)
        | inr e ↦ rw e (elim (Bool-cases (check_interrupts t.core).0) [
          | inl irq ↦ rw irq (
              finished (
                counted-IsGood map0 devices free t.core.insn_counter 2 (record t { core = s })
                  (recored map0 devices t s g h)))
          | inr quiet ↦ rw quiet (
              run-Finishes fuel n t.core.insn_counter 0 start (no_block s.pc)
                (recored map0 devices t _ g (same-IsCore s _ refl refl refl refl refl refl h))
                (no_block-GoodBlock s.pc h.pc_even) (inr (omega arith)))
        ])
      ]
