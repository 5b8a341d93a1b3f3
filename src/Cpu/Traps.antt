-- ===== src/Cpu/Traps.antt =====
-- What a trap saves and a return restores.
use esp32_tinyemu.Prelude.{
  ℕ, ◌+◌, ◌*◌, ◌/◌, ◌%◌, ◌≤◌, ◌<◌, ◌≡◌, ◌≢◌, ◌⊎◌, inl, inr, true, false, ◌==◌, if◌then◌else◌, arith,
  bit, word_or, word_not, single, bit-and, bit-or, bit-not, bit-field, digit, bit_lt, bit-single,
  Bool-cases, refl, ◌∙◌,
}
use esp32_tinyemu.Cpu.{
  RiscvCpu, clear, set_priv, delegated, enter, raise_exception2, leave, handle_sret, mpp_of,
  handle_mret,
}

pub bit-clear : (x m k : ℕ) → k < 32 → bit (clear x m) k ≡ (if bit m k == 1 then 0 else bit x k)
unfolding clear
bit-clear x m k lt =
    ground (arith, bit-and x (word_not m) k lt, bit-not m k lt, digit m k, digit x k)

-- One bit is replaced.
put_bit :
    (x n b k : ℕ)
    → k < 32
    → b < 2
    → bit (word_or (clear x (single n)) (b * single n)) k ≡ (if k == n then b else bit x k)
put_bit x n b k lt lb = ground (
  arith,
  bit-or (clear x (single n)) (b * single n) k lt,
  bit-clear x (single n) k lt,
  bit-single n k,
  bit-field b n k,
  digit x k,
)

-- A field of two bits is replaced.
put_field :
    (x n p k : ℕ)
    → k < 32
    → p < 4
    → bit (word_or (clear x (3 * single n)) (p * single n)) k
      ≡ (if k == n then p % 2 else if k == n + 1 then p / 2 else bit x k)
put_field x n p k lt lp = ground (
  arith,
  bit-or (clear x (3 * single n)) (p * single n) k lt,
  bit-clear x (3 * single n) k lt,
  bit-field 3 n k,
  bit-field p n k,
  digit x k,
)

-- `mstatus` at the entry of a trap to machine level.
enter_machine :
    (s : RiscvCpu) (k : ℕ)
    → k < 32
    → s.priv < 4
    → bit (enter s 7 11 (3 * single 11) 3) k ≡ (
        if k == 3
        then 0
        else if k == 7
        then bit s.mstatus s.priv
        else if k == 11
        then s.priv % 2
        else if k == 12
        then s.priv / 2
        else bit s.mstatus k)
unfolding enter
enter_machine s k lt lp =
    let saved = word_or (clear s.mstatus (single 7)) (bit s.mstatus s.priv * single 7) in
    ground (
      arith,
      bit-clear (word_or (clear saved (3 * single 11)) (s.priv * single 11)) (single 3) k lt,
      bit-single 3 k,
      put_field saved 11 s.priv k lt lp,
      put_bit s.mstatus 7 (bit s.mstatus s.priv) k lt (bit_lt s.mstatus s.priv),
    )

-- `mstatus` after the return from machine level.
leave_machine :
    (m p k : ℕ)
    → k < 32
    → bit (leave m p 7 (3 * single 11)) k ≡ (
        if k == 11
        then 0
        else if k == 12
        then 0
        else if k == 7
        then 1
        else if k == p
        then bit m 7
        else bit m k)
unfolding leave
leave_machine m p k lt =
    let enabled = word_or (clear m (single p)) (bit m 7 * single p) in
    ground (
      arith,
      bit-clear (word_or enabled (single 7)) (3 * single 11) k lt,
      bit-field 3 11 k,
      bit-or enabled (single 7) k lt,
      bit-single 7 k,
      digit enabled k,
      put_bit m p (bit m 7) k lt (bit_lt m 7),
    )

-- The return finds the level that the entry saved.
mpp_entered : (s : RiscvCpu) → s.priv < 4 → mpp_of (enter s 7 11 (3 * single 11) 3) ≡ s.priv
unfolding mpp_of
mpp_entered s lp =
    ground (arith, enter_machine s 11 (omega arith) lp, enter_machine s 12 (omega arith) lp)

raise_machine :
    (s : RiscvCpu) (cause tval : ℕ)
    → delegated s cause ≡ false
    → let r = raise_exception2 s cause tval in
      (r.priv ≡ 3) × (r.mepc ≡ s.pc) × (r.mstatus ≡ enter s 7 11 (3 * single 11) 3)
unfolding raise_exception2 set_priv
raise_machine s cause tval d = ground (arith, d)

mret_fields :
    (r : RiscvCpu)
    → (r' : RiscvCpu) × (r' ≡ handle_mret r)
      × (r'.priv ≡ mpp_of r.mstatus)
      × (r'.pc ≡ r.mepc)
      × (r'.mstatus ≡ leave r.mstatus (mpp_of r.mstatus) 7 (3 * single 11))
unfolding handle_mret set_priv
mret_fields r = (handle_mret r, refl, ground arith, ground arith, ground arith)

-- A trap that is not delegated and the return from it, at level U, S or M: the level and the
-- program counter are those of before, and so is every bit of `mstatus` but for the saved fields
-- MPIE (7) and MPP (11, 12) and for MIE (3), which is cleared unless the level is M.
pub trap_mret_lem :
    (s : RiscvCpu) (cause tval k : ℕ)
    → (s.priv ≤ 1) ⊎ (s.priv ≡ 3)
    → delegated s cause ≡ false
    → k < 32
    → k ≢ 7
    → k ≢ 11
    → k ≢ 12
    → let r = handle_mret (raise_exception2 s cause tval) in
      (r.priv ≡ s.priv)
      × (r.pc ≡ s.pc)
      × (bit r.mstatus k
          ≡ (if k == 3 then if s.priv == 3 then bit s.mstatus 3 else 0 else bit s.mstatus k))
trap_mret_lem s cause tval k level d lt n7 n11 n12 =
    let r = raise_exception2 s cause tval in
    let (priv3, epc, status) = raise_machine s cause tval d in
    let (r', e, priv, pc, mstatus) = mret_fields r in
    let level4 : s.priv < 4 = ground arith in
    let back : mpp_of r.mstatus ≡ s.priv = rw (status) (mpp_entered s level4) in
    rw (← e) (
      priv ∙ back,
      pc ∙ epc,
      rw (mstatus, back, status)
          (ground (
            arith,
            leave_machine (enter s 7 11 (3 * single 11) 3) s.priv k lt,
            enter_machine s k lt level4,
            enter_machine s 7 (omega arith) level4,
          )),
    )

enter_supervisor :
    (s : RiscvCpu) (k : ℕ)
    → k < 32
    → s.priv < 2
    → bit (enter s 5 8 (single 8) 1) k ≡ (
        if k == 1
        then 0
        else if k == 5
        then bit s.mstatus s.priv
        else if k == 8
        then s.priv
        else bit s.mstatus k)
unfolding enter
enter_supervisor s k lt lp =
    let saved = word_or (clear s.mstatus (single 5)) (bit s.mstatus s.priv * single 5) in
    ground (
      arith,
      bit-clear (word_or (clear saved (single 8)) (s.priv * single 8)) (single 1) k lt,
      bit-single 1 k,
      put_bit saved 8 s.priv k lt lp,
      put_bit s.mstatus 5 (bit s.mstatus s.priv) k lt (bit_lt s.mstatus s.priv),
    )

leave_supervisor :
    (m p k : ℕ)
    → k < 32
    → bit (leave m p 5 (single 8)) k
      ≡ (if k == 8 then 0 else if k == 5 then 1 else if k == p then bit m 5 else bit m k)
unfolding leave
leave_supervisor m p k lt =
    let enabled = word_or (clear m (single p)) (bit m 5 * single p) in
    ground (
      arith,
      bit-clear (word_or enabled (single 5)) (single 8) k lt,
      bit-single 8 k,
      bit-or enabled (single 5) k lt,
      bit-single 5 k,
      digit enabled k,
      put_bit m p (bit m 5) k lt (bit_lt m 5),
    )

-- Only the levels U and S delegate.
delegated_low : (s : RiscvCpu) (cause : ℕ) → delegated s cause ≡ true → s.priv < 2
unfolding delegated
delegated_low s cause d = ground (arith, d)

raise_supervisor :
    (s : RiscvCpu) (cause tval : ℕ)
    → delegated s cause ≡ true
    → let r = raise_exception2 s cause tval in
      (r.priv ≡ 1) × (r.sepc ≡ s.pc) × (r.mstatus ≡ enter s 5 8 (single 8) 1)
unfolding raise_exception2 set_priv
raise_supervisor s cause tval d = ground (arith, d)

sret_fields :
    (r : RiscvCpu)
    → (r' : RiscvCpu) × (r' ≡ handle_sret r)
      × (r'.priv ≡ bit r.mstatus 8)
      × (r'.pc ≡ r.sepc)
      × (r'.mstatus ≡ leave r.mstatus (bit r.mstatus 8) 5 (single 8))
unfolding handle_sret set_priv
sret_fields r = (handle_sret r, refl, ground arith, ground arith, ground arith)

-- A trap that is delegated and the return from it: the level and the program counter are those of
-- before, and so is every bit of `mstatus` but for the saved fields SPIE (5) and SPP (8) and for
-- SIE (1), which is cleared unless the level is S.
pub trap_sret_lem :
    (s : RiscvCpu) (cause tval k : ℕ)
    → delegated s cause ≡ true
    → k < 32
    → k ≢ 5
    → k ≢ 8
    → let r = handle_sret (raise_exception2 s cause tval) in
      (r.priv ≡ s.priv)
      × (r.pc ≡ s.pc)
      × (bit r.mstatus k
          ≡ (if k == 1 then if s.priv == 1 then bit s.mstatus 1 else 0 else bit s.mstatus k))
trap_sret_lem s cause tval k d lt n5 n8 =
    let r = raise_exception2 s cause tval in
    let (priv1, epc, status) = raise_supervisor s cause tval d in
    let (r', e, priv, pc, mstatus) = sret_fields r in
    let low : s.priv < 2 = delegated_low s cause d in
    let back : bit r.mstatus 8 ≡ s.priv =
      rw (status) (ground (arith, enter_supervisor s 8 (omega arith) low)) in
    rw (← e) (
      priv ∙ back,
      pc ∙ epc,
      rw (mstatus, back, status)
          (ground (
            arith,
            leave_supervisor (enter s 5 8 (single 8) 1) s.priv k lt,
            enter_supervisor s k lt low,
            enter_supervisor s 5 (omega arith) low,
          )),
    )

raise_pc :
    (s : RiscvCpu) (cause tval : ℕ)
    → (raise_exception2 s cause tval).pc ≡ (if delegated s cause then s.stvec else s.mtvec)
unfolding raise_exception2
raise_pc s cause tval = ground arith

-- A trap never lowers the level, enters at the vector of the level it goes to, and finds interrupts
-- of that level disabled: SIE (1) at level S, MIE (3) at level M.
pub raise_level_lem :
    (s : RiscvCpu) (cause tval : ℕ)
    → s.priv ≤ 3
    → let r = raise_exception2 s cause tval in
      (s.priv ≤ r.priv)
      × (r.pc ≡ (if delegated s cause then s.stvec else s.mtvec))
      × (r.priv ≡ (if delegated s cause then 1 else 3))
      × (bit r.mstatus r.priv ≡ 0)
raise_level_lem s cause tval h = elim (Bool-cases (delegated s cause)) [
  | inl d ↦
      let low : s.priv < 2 = delegated_low s cause d in
      let (priv, epc, status) = raise_supervisor s cause tval d in
      (
        omega arith,
        raise_pc s cause tval,
        rw d priv,
        rw (priv, status) (ground (arith, enter_supervisor s 1 (omega arith) low)),
      )
  | inr d ↦
      let (priv, epc, status) = raise_machine s cause tval d in
      (
        omega arith,
        raise_pc s cause tval,
        rw d priv,
        rw (priv, status) (ground (arith, enter_machine s 3 (omega arith) (omega arith))),
      )
]
