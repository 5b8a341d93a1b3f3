-- ===== src/Virtio/Addresses.antt =====
-- The addresses of a queue, each in two registers.
use esp32_tinyemu.Prelude.{ℕ, ◌+◌, ◌^◌, ◌<◌, ◌≡◌, arith}
use esp32_tinyemu.Virtio.{VirtioDevice}
use esp32_tinyemu.Virtio.Registers.{mmio_register, device_register, queue_register}

-- What is written to the registers `low` and `low + 4`, in either order, is read back.
abbrev pub ReadsBack : VirtioDevice → ℕ → ℕ → ℕ → Type 0
ReadsBack s low lo hi =
    let s1 = device_register (device_register s low lo) (low + 4) hi in
    let s2 = device_register (device_register s (low + 4) hi) low lo in
    (mmio_register s1 low ≡ lo)
    × (mmio_register s1 (low + 4) ≡ hi)
    × (mmio_register s2 low ≡ lo)
    × (mmio_register s2 (low + 4) ≡ hi)

-- The low and the high word of each of the three addresses of the selected queue read back as they
-- were written, in either order, whatever the address was before.
pub addresses_lem :
    (s : VirtioDevice) (lo hi : ℕ)
    → lo < 2 ^ 32
    → hi < 2 ^ 32
    → ReadsBack s 0x080 lo hi × ReadsBack s 0x090 lo hi × ReadsBack s 0x0a0 lo hi
unfolding mmio_register device_register queue_register
addresses_lem s lo hi ll lh = (
  (ground arith, ground arith, ground arith, ground arith),
  (ground arith, ground arith, ground arith, ground arith),
  (ground arith, ground arith, ground arith, ground arith),
)
