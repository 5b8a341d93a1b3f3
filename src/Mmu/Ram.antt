-- ===== src/Mmu/Ram.antt =====
-- The physical memory as `get_phys_addr` uses it: aligned words that are read and written.
use esp32_tinyemu.Prelude.{ℕ, ◌%◌, ◌^◌, ◌<◌, ◌≡◌, ◌≢◌, Option, some, ◌==◌, if◌then◌else◌}

-- `word` is what a read sees. Where it is not 0 there is RAM, which keeps what is written to it; a
-- read may move pages between the memory and its backing store, but changes no word.
pub record PhysMemory : Type 1 where
  pub Memory : Type 0
  pub IsValid : Memory → Type 0
  pub word : Memory → ℕ → ℕ
  pub phys_read_u32 : Memory → ℕ → Option (ℕ × Memory)
  pub phys_write_u32 : Memory → ℕ → ℕ → Option Memory
  pub read_word :
      (m : Memory) (a : ℕ)
      → IsValid m
      → a < 2 ^ 32
      → a % 4 ≡ 0
      → (m' : Memory) × (phys_read_u32 m a ≡ some (word m a, m'))
        × IsValid m'
        × ((b : ℕ) → b < 2 ^ 32 → b % 4 ≡ 0 → word m' b ≡ word m b)
  pub write_word :
      (m : Memory) (a v : ℕ)
      → IsValid m
      → a < 2 ^ 32
      → a % 4 ≡ 0
      → v < 2 ^ 32
      → word m a ≢ 0
      → (m' : Memory) × (phys_write_u32 m a v ≡ some m')
        × IsValid m'
        × ((b : ℕ) → b < 2 ^ 32 → b % 4 ≡ 0 → word m' b ≡ (if a == b then v else word m b))
