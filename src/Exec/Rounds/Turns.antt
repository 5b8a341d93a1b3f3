-- ===== src/Exec/Rounds/Turns.antt =====
-- A round of the loop keeps the invariant, and shortens the block when `n_cycles` has run out.
use esp32_tinyemu.Prelude.{
  ℕ, ◌+◌, ◌%◌, ◌≤◌, ◌<◌, ◌≡◌, inl, inr, leb, Option, none, some, arith, refl, sym, subst,
  Bool-cases, word_or, word_and, digits, ap, ◌∙◌, Always, present, Always-bind,
}
use esp32_tinyemu.LruCache.NodeList.{Libraries}
use esp32_tinyemu.Cpu.{RiscvCpu, raise_exception2}
use esp32_tinyemu.Interp.Core.{same-IsCore, at_pc, raise_exception2-IsCore}
use esp32_tinyemu.Iomem.{PhysMemoryMap}
use esp32_tinyemu.Bus.{Target}
use esp32_tinyemu.Bus.Keeps.{KeepsCore, IsGood, recored}
use esp32_tinyemu.Exec.{
  Environment, Exit, next, jump, done, exception, illegal, cause_illegal_instruction, get_field1,
  fields,
}
use esp32_tinyemu.Exec.Compressed.{quadrant0, c_addi4spn_imm}
use esp32_tinyemu.Exec.Step.{exec}
use esp32_tinyemu.Exec.Loop.{
  Block, get_pc, counter_at, Fetched, fetched, ending, fetch_fault, Turn, again, stop, counted,
  raised, turn, execute, round,
}
use esp32_tinyemu.Exec.Keeps.{
  GoodExit, good_next, good_jump, good_done, good_exception, good_illegal,
}
use esp32_tinyemu.Exec.Keeps.Step.{FloatKeeps, exec-Well}
use esp32_tinyemu.Exec.Rounds.{
  room, GoodBlock, last_page, no_block-GoodBlock, advanced-GoodBlock, TopFree,
}
use esp32_tinyemu.Exec.Rounds.Fetches.{
  GoodFetched, good_fetched, good_ending, good_fault, fetch-GoodFetched,
}

module _ {lib : Libraries} {W : Type 0} (map0 : PhysMemoryMap lib (RiscvCpu × W))
    (devices : KeepsCore map0) (free : TopFree map0) where
  -- How a round with the block `b` ends.
  pub data GoodTurn (n rounds : ℕ) (b : Block) : Turn lib W → Type 0 where
    good_again :
        {t : Target lib W} {b' : Block}
        → IsGood map0 t
        → GoodBlock b'
        → (n < rounds → room b' < room b)
        → GoodTurn n rounds b (again t b')
    good_stop : {t : Target lib W} → IsGood map0 t → GoodTurn n rounds b (stop t)

  pub counted-IsGood :
      (base rounds : ℕ) (t : Target lib W) → IsGood map0 t → IsGood map0 (counted base rounds t)
  counted-IsGood base rounds t g =
      recored map0 devices t _ g (same-IsCore t.core _ refl refl refl refl refl refl g.sound)

  raised-IsGood :
      (t : Target lib W) (pc : ℕ) → pc % 2 ≡ 0 → IsGood map0 t → IsGood map0 (raised t pc)
  unfolding raised
  raised-IsGood t pc ev g = after t.core.pending_exception
    where
      after :
          (o : Option ℕ)
          → IsGood map0 (elim o [
            | none ↦ record t { core = record t.core { pc = pc } }
            | some cause ↦ record t {
              core = raise_exception2 (record t.core { pc = pc }) cause t.core.pending_tval;
            }
          ])
      after none = recored map0 devices t _ g (at_pc t.core pc ev g.sound)
      after (some cause) =
          recored map0 devices t _ g
            (raise_exception2-IsCore _ cause t.core.pending_tval (at_pc t.core pc ev g.sound))

  refused :
      (base rounds : ℕ) (b : Block) (insn : ℕ) (t : Target lib W)
      → get_pc b % 2 ≡ 0
      → IsGood map0 t
      → IsGood map0 (
          counted base (rounds + 1) (
            raised
              (record t {
                core = record t.core {
                  pending_exception = some cause_illegal_instruction;
                  pending_tval = insn;
                };
              })
              (get_pc b)))
  refused base rounds b insn t ev g = counted-IsGood base (rounds + 1) _ (
      raised-IsGood _ (get_pc b) ev
        (recored map0 devices t _ g (same-IsCore t.core _ refl refl refl refl refl refl g.sound)))

  turn-GoodTurn :
      (n base rounds : ℕ) (b0 b : Block) (insn : ℕ) (e : Exit lib W)
      → GoodExit map0 devices e
      → b.code_ptr < last_page
      → GoodBlock b
      → (n < rounds → (0 < room b) × (room b ≤ room b0))
      → GoodTurn n rounds b0 (turn base rounds b insn e)
  unfolding turn
  turn-GoodTurn n base rounds b0 b insn (next t len) (good_next l4 l2 ev g) under gb late =
      good_again g (advanced-GoodBlock b len under l4 ev gb)
        (λ gt. omega (arith, l2, (late gt).0, (late gt).1))
  turn-GoodTurn n base rounds b0 b insn (jump t) (good_jump g) under gb late =
      good_again g (no_block-GoodBlock t.core.pc g.sound.pc_even)
        (λ gt. omega (arith, (late gt).0, (late gt).1))
  turn-GoodTurn n base rounds b0 b insn (done t) (good_done g) under gb late =
      good_stop (counted-IsGood base (rounds + 1) t g)
  turn-GoodTurn n base rounds b0 b insn (exception t) (good_exception g) under gb late =
      good_stop (counted-IsGood base (rounds + 1) _ (raised-IsGood t (get_pc b) gb.even g))
  turn-GoodTurn n base rounds b0 b insn (illegal t) (good_illegal g) under gb late =
      good_stop (refused base rounds b insn t gb.even g)

  module _ (env : Environment lib W) (floats : FloatKeeps env) where
    -- The word 0 is no instruction.
    zero_illegal : (t : Target lib W) (pc counter : ℕ) → exec env t pc counter 0 ≡ some (illegal t)
    unfolding exec quadrant0 c_addi4spn_imm fields get_field1 word_or word_and digits
    zero_illegal t pc counter = refl

    execute-GoodTurn :
        (n base rounds : ℕ) (b : Block) (f : Fetched lib W)
        → GoodFetched map0 devices free n rounds b f
        → Always (GoodTurn n rounds b) (execute env base rounds f)
    unfolding execute turn
    execute-GoodTurn n base rounds b (ending t) (good_ending g) =
        present (good_stop (counted-IsGood base rounds t g))
    execute-GoodTurn n base rounds b (fetch_fault t pc) (good_fault g ev) =
        present (good_stop (counted-IsGood base (rounds + 1) _ (raised-IsGood t pc ev g)))
    execute-GoodTurn n base rounds b0 (fetched t b insn) (good_fetched g gb lt zero_top late) =
        elim (Bool-cases (leb last_page b.code_ptr)) [
          | inl top ↦
              let zero_word : exec env t (get_pc b) (counter_at base rounds) insn
                  ≡ some (illegal t) =
                ap (exec env t (get_pc b) (counter_at base rounds)) (zero_top (ground (arith, top)))
                ∙ zero_illegal t (get_pc b) (counter_at base rounds) in
              subst
                (λ (o : Option (Exit lib W)).
                  Always (GoodTurn n rounds b0)
                    (elim o [ none ↦ none | some e ↦ some (turn base rounds b insn e) ]))
                (sym zero_word) (present (good_stop (refused base rounds b insn t gb.even g)))
          | inr under ↦
              Always-bind
                (exec-Well map0 devices env floats t (get_pc b) (counter_at base rounds) insn lt
                  (omega arith) gb.even g)
                (λ e h.
                  present
                    (turn-GoodTurn n base rounds b0 b insn e h (ground (arith, under)) gb late))
        ]

    pub round-GoodTurn :
        (n base rounds : ℕ) (t : Target lib W) (b : Block)
        → IsGood map0 t
        → GoodBlock b
        → Always (GoodTurn n rounds b) (round env n base rounds t b)
    unfolding round
    round-GoodTurn n base rounds t b g gb =
        Always-bind (fetch-GoodFetched map0 devices free n rounds b t g gb)
          (λ f h. execute-GoodTurn n base rounds b f h)
