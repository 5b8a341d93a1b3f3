-- ===== src/Exec/Fields.antt =====
-- The fields that the compressed instructions gather their immediates from.
use esp32_tinyemu.Prelude.{
  ℕ, zero, suc, ◌+◌, ◌-◌, ◌*◌, ◌/◌, ◌^◌, ◌≤◌, ◌<◌, ◌≡◌, inl, inr, false, ◌&&◌, if◌then◌else◌, ltb,
  leb, List, [], ◌∷◌, arith, refl, ap, ◌∙◌, bit, bit_zero, bit-and, bit-or, or_lt, Bool-cases,
  zero_bits,
}
use esp32_tinyemu.Interp.Alu.{shl}
use esp32_tinyemu.Interp.Fields.{bit-field_mask, bit-quotient, bit-shl, bit-sext}
use esp32_tinyemu.Exec.{get_field1, fields}
use esp32_tinyemu.Exec.Compressed.{c_shift, c_jump_imm, c_branch_imm}

-- The bits of `w` ones at bit `d`.
mask_bit :
    (w d k : ℕ)
    → bit ((2 ^ w - 1) * 2 ^ d) k ≡ (if ltb k d then 0 else if ltb k (d + w) then 1 else 0)
mask_bit w d k = ap (λ t. bit t k) plain ∙ bit-field_mask d w k
  where
    plain : (2 ^ w - 1) * 2 ^ d ≡ (2 ^ w - 1) * 2 ^ d + 0
    plain = omega arith

-- The bits `dst_pos` to `dst_pos_max` of a field are the bits of the value from `src_pos` on, and all
-- its other bits are 0.
pub get_field1_lem :
    (val src_pos dst_pos dst_pos_max k : ℕ)
    → dst_pos ≤ dst_pos_max
    → dst_pos_max < 32
    → k < 32
    → bit (get_field1 val src_pos dst_pos dst_pos_max) k
      ≡ (if leb dst_pos k && leb k dst_pos_max then bit val (src_pos + k - dst_pos) else 0)
unfolding get_field1
get_field1_lem val s d m k ld lm lk =
    let mask = (2 ^ (m - d + 1) - 1) * 2 ^ d in
    elim (Bool-cases (leb s d)) [
      | inl le ↦ rw le (
          bit-and (shl val (d - s)) mask k lk
          ∙ ground (
            arith,
            le,
            mask_bit (m - d + 1) d k,
            bit-shl val (d - s) k (omega arith) lk,
            ap (bit val) (up (ground (arith, le))),
          ))
      | inr gt ↦ rw gt (
          bit-and (val / 2 ^ (s - d)) mask k lk
          ∙ ground (
            arith,
            gt,
            mask_bit (m - d + 1) d k,
            bit-quotient val (s - d) k,
            ap (bit val) (down (ground (arith, gt))),
          ))
    ]
  where
    up : s ≤ d → k - (d - s) ≡ s + k - d
    up le = omega arith

    down : d ≤ s → k + (s - d) ≡ s + k - d
    down le = omega arith

-- A bit that is in no field.
abbrev pub InNoField : ℕ → List (ℕ × ℕ × ℕ) → Type 0
InNoField k [] = zero < suc zero
InNoField k ((s, d, m) ∷ rest) =
    ((d ≤ m) × (m < 32) × (leb d k && leb k m ≡ false)) × InNoField k rest

pub in_no_field :
    (val : ℕ) (l : List (ℕ × ℕ × ℕ)) (k : ℕ) → k < 32 → InNoField k l → bit (fields val l) k ≡ 0
unfolding fields
in_no_field val [] k lk h = bit_zero k
in_no_field val ((s, d, m) ∷ rest) k lk ((ld, lm, out), h) =
    bit-or (get_field1 val s d m) (fields val rest) k lk
    ∙ ground (arith, out, get_field1_lem val s d m k ld lm lk, in_no_field val rest k lk h)

fields_lt : (val : ℕ) (l : List (ℕ × ℕ × ℕ)) → fields val l < 2 ^ 32
unfolding fields
fields_lt val [] = omega arith
fields_lt val ((s, d, m) ∷ rest) = or_lt (get_field1 val s d m) (fields val rest)

-- A jump's and a branch's offset is even.
pub c_jump_imm-even : (insn : ℕ) → bit (c_jump_imm insn) 0 ≡ 0
unfolding c_jump_imm
c_jump_imm-even insn =
    bit-sext _ 12 0 (omega arith) (omega arith) (omega arith)
    ∙ in_no_field insn _ 0 (omega arith) (
      (omega arith, omega arith, refl),
      (
        (omega arith, omega arith, refl),
        (
          (omega arith, omega arith, refl),
          (
            (omega arith, omega arith, refl),
            (
              (omega arith, omega arith, refl),
              (
                (omega arith, omega arith, refl),
                (
                  (omega arith, omega arith, refl),
                  ((omega arith, omega arith, refl), (omega arith)),
                ),
              ),
            ),
          ),
        ),
      ),
    )

pub c_branch_imm-even : (insn : ℕ) → bit (c_branch_imm insn) 0 ≡ 0
unfolding c_branch_imm
c_branch_imm-even insn =
    bit-sext _ 9 0 (omega arith) (omega arith) (omega arith)
    ∙ in_no_field insn _ 0 (omega arith) (
      (omega arith, omega arith, refl),
      (
        (omega arith, omega arith, refl),
        (
          (omega arith, omega arith, refl),
          ((omega arith, omega arith, refl), ((omega arith, omega arith, refl), (omega arith))),
        ),
      ),
    )

-- The amount of a shift that is not refused.
pub c_shift_lt : (insn : ℕ) → bit (c_shift insn) 5 ≡ 0 → c_shift insn < 32
unfolding c_shift
c_shift_lt insn five =
    let x = fields insn ((12, 5, 5) ∷ (2, 0, 4) ∷ []) in
    omega (
      arith,
      zero_bits 27 (x / 2 ^ 5) (omega (arith, fields_lt insn ((12, 5, 5) ∷ (2, 0, 4) ∷ [])))
          (λ i lt. bit-quotient x 5 i ∙ above i lt),
    )
  where
    above : (i : ℕ) → i < 27 → bit (fields insn ((12, 5, 5) ∷ (2, 0, 4) ∷ [])) (i + 5) ≡ 0
    above zero lt = five
    above (suc i) lt = in_no_field insn _ (suc i + 5) (omega arith) (
      (omega arith, omega arith, ground arith),
      ((omega arith, omega arith, ground arith), omega arith),
    )
