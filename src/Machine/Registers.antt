-- ===== src/Machine/Registers.antt =====
-- The registers of the timer and of the host interface.
use esp32_tinyemu.Prelude.{
  ℕ, ◌+◌, ◌*◌, ◌/◌, ◌%◌, ◌^◌, ◌<◌, ◌≡◌, [], ◌∷◌, ◌++◌, none, some, true, false, ◌&&◌, ◌==◌, arith,
  ap, bit, refl, bit-single,
}
use esp32_tinyemu.Cpu.{RiscvCpu, reset_mip}
use esp32_tinyemu.Cpu.Traps.{bit-clear}
use esp32_tinyemu.Machine.{
  RiscvMachine, mip_mtip, low_word, with_high, clint_read, clint_write, htif_handle_cmd, htif_write,
}

no_timer : (s : RiscvCpu) → bit (reset_mip s mip_mtip).mip 7 ≡ 0
unfolding reset_mip
no_timer s = ground (arith, bit-clear s.mip mip_mtip 7 (omega arith), bit-single 7 7)

-- Written low word first, the timer's compare register reads back as written and the timer's
-- interrupt (bit 7) is withdrawn; written high word first, its high word reads as 0.
pub timecmp_lem :
    (m : RiscvMachine) (low high time : ℕ)
    → low < 2 ^ 32
    → high < 2 ^ 32
    → let m' = clint_write (clint_write m 16384 low) 16388 high in
      let m'' = clint_write (clint_write m 16388 high) 16384 low in
      (m'.timecmp ≡ high * 2 ^ 32 + low)
      × (clint_read time m' 16384 ≡ low)
      × (clint_read time m' 16388 ≡ high)
      × (bit m'.cpu_state.mip 7 ≡ 0)
      × (clint_read time m'' 16384 ≡ low)
      × (clint_read time m'' 16388 ≡ 0)
unfolding clint_read clint_write
timecmp_lem m low high time l h = (
  omega arith,
  omega arith,
  omega arith,
  no_timer (reset_mip m.cpu_state mip_mtip),
  omega arith,
  omega arith,
)

-- The machine powers off just on a write of 0 to the high word of `tohost` when its low word is 1.
pub power_off_lem :
    (m : RiscvMachine) (offset val : ℕ)
    → elim (htif_write m offset val) [ none ↦ true | some m' ↦ false ]
      ≡ (offset == 4) && (val == 0) && (low_word m.htif_tohost == 1)
unfolding htif_write low_word
power_off_lem m offset val = ground arith

put_command :
    (m : RiscvMachine) (c t : ℕ)
    → t / 2 ^ 56 ≡ 1
    → t / 2 ^ 48 % 2 ^ 8 ≡ 1
    → t % 2 ^ 8 ≡ c % 2 ^ 8
    → htif_handle_cmd (record m { htif_tohost = t })
      ≡ some (record m {
        console = m.console ++ (c % 2 ^ 8 ∷ []);
        htif_tohost = 0;
        htif_fromhost = 2 ^ 56 + 2 ^ 48;
      })
unfolding htif_handle_cmd
put_command m c t device cmd byte =
    let other : (t == 1) ≡ false = ground arith in rw (other, device, cmd, byte) refl

-- The command of device 1 that puts a character: the byte goes to the end of the console's output,
-- `tohost` is cleared and `fromhost` acknowledges the command.
pub put_character_lem :
    (m : RiscvMachine) (c : ℕ)
    → c < 2 ^ 32
    → (m' : RiscvMachine) × (htif_write m 0 c ≡ some m')
      × (htif_write m' 4 (2 ^ 24 + 2 ^ 16)
          ≡ some (record m {
            console = m.console ++ (c % 2 ^ 8 ∷ []);
            htif_tohost = 0;
            htif_fromhost = 2 ^ 56 + 2 ^ 48;
          }))
unfolding htif_write
put_character_lem m c lt = (
  record m { htif_tohost = c },
  ap (λ t. some (record m { htif_tohost = t })) (omega arith),
  put_command m c (with_high c (2 ^ 24 + 2 ^ 16)) (omega arith) (omega arith) (omega arith),
)
