-- ===== src/Virtio/Registers.antt =====
-- The registers of the MMIO transport of lib/tinyemu/virtio.c and the configuration space.
use esp32_tinyemu.Prelude.{
  ℕ, ◌+◌, ◌-◌, ◌*◌, ◌%◌, ◌/◌, ◌^◌, Bool, true, false, ◌&&◌, ◌==◌, if◌then◌else◌, ltb, leb, Option,
  none, some, size_sub, word_and, word_or,
}
use esp32_tinyemu.LruCache.NodeList.{Libraries}
use esp32_tinyemu.Cpu.{clear}
use esp32_tinyemu.Virtio.{
  max_queue, max_queue_num, QueueState, VirtioDevice, Guest, virtio_reset, set_irq, put_queue,
}
use esp32_tinyemu.Virtio.Memory.{Outcome, returned, DeviceRecv, queue_notify}

-- The bytes of the configuration space from an offset on, with the low one first.
unfoldable pub get_le : ℕ → (ℕ → ℕ) → ℕ → ℕ
get_le size_log2 b offset =
    if size_log2 == 0
    then b offset
    else if size_log2 == 1
    then b offset + 2 ^ 8 * b (offset + 1)
    else b offset + 2 ^ 8 * b (offset + 1) + 2 ^ 16 * b (offset + 2) + 2 ^ 24 * b (offset + 3)

-- A write of `count` bytes.
unfoldable pub put_le : ℕ → (ℕ → ℕ) → ℕ → ℕ → ℕ → ℕ
put_le count b offset val i =
    if leb offset i && ltb i (offset + count) then val / 2 ^ (8 * (i - offset)) % 2 ^ 8 else b i

-- The test of an offset, by the number of bytes.
abbrev pub in_config : VirtioDevice → ℕ → ℕ → Bool
in_config s offset count = ltb offset (size_sub s.config_space_size (count - 1))

-- `none` at `abort`
unfoldable pub virtio_config_read : VirtioDevice → ℕ → ℕ → Option ℕ
virtio_config_read s offset size_log2 =
    if leb size_log2 2
    then some
        (if in_config s offset (2 ^ size_log2) then get_le size_log2 s.config_space offset else 0)
    else none

-- Where the callback is called, and the state before it.
unfoldable pub virtio_config_write : VirtioDevice → ℕ → ℕ → ℕ → Bool × VirtioDevice
virtio_config_write s offset val size_log2 =
    if leb size_log2 2 && in_config s offset (2 ^ size_log2)
    then (true, record s { config_space = put_le (2 ^ size_log2) s.config_space offset val })
    else (false, s)

abbrev pub selected : VirtioDevice → QueueState
selected s = s.queue s.queue_sel

-- The registers that a read of a word answers.
unfoldable pub mmio_register : VirtioDevice → ℕ → ℕ
mmio_register s offset =
    if offset == 0x000
    then 0x74726976
    else if offset == 0x004
    then 2
    else if offset == 0x008
    then s.device_id
    else if offset == 0x00c
    then s.vendor_id
    else if offset == 0x010
    then if s.device_features_sel == 0
      then s.device_features
      else if s.device_features_sel == 1
      then 1
      else 0
    else if offset == 0x014
    then s.device_features_sel
    else if offset == 0x030
    then s.queue_sel
    else if offset == 0x034
    then max_queue_num
    else if offset == 0x038
    then (selected s).num
    else if offset == 0x080
    then (selected s).desc_addr % 2 ^ 32
    else if offset == 0x090
    then (selected s).avail_addr % 2 ^ 32
    else if offset == 0x0a0
    then (selected s).used_addr % 2 ^ 32
    else if offset == 0x084
    then (selected s).desc_addr / 2 ^ 32
    else if offset == 0x094
    then (selected s).avail_addr / 2 ^ 32
    else if offset == 0x0a4
    then (selected s).used_addr / 2 ^ 32
    else if offset == 0x044
    then (selected s).ready
    else if offset == 0x060
    then s.int_status
    else if offset == 0x070
    then s.status
    else 0

unfoldable pub virtio_mmio_read : VirtioDevice → ℕ → ℕ → Option ℕ
virtio_mmio_read s offset size_log2 =
    if leb 0x100 offset
    then virtio_config_read s (offset - 0x100) size_log2
    else some (if size_log2 == 2 then mmio_register s offset else 0)

abbrev pub set_low32 : ℕ → ℕ → ℕ
set_low32 paddr val = paddr / 2 ^ 32 * 2 ^ 32 + val

abbrev pub set_high32 : ℕ → ℕ → ℕ
set_high32 paddr val = paddr % 2 ^ 32 + val * 2 ^ 32

-- The registers of the selected queue.
unfoldable pub queue_register : QueueState → ℕ → ℕ → QueueState
queue_register qs offset val =
    if offset == 0x038
    then if (word_and val (size_sub val 1) == 0) && ltb 0 val then record qs { num = val } else qs
    else if offset == 0x080
    then record qs { desc_addr = set_low32 qs.desc_addr val }
    else if offset == 0x090
    then record qs { avail_addr = set_low32 qs.avail_addr val }
    else if offset == 0x0a0
    then record qs { used_addr = set_low32 qs.used_addr val }
    else if offset == 0x084
    then record qs { desc_addr = set_high32 qs.desc_addr val }
    else if offset == 0x094
    then record qs { avail_addr = set_high32 qs.avail_addr val }
    else if offset == 0x0a4
    then record qs { used_addr = set_high32 qs.used_addr val }
    else if offset == 0x044
    then record qs { ready = val % 2 }
    else qs

-- The interrupts that are left after an acknowledgement.
abbrev pub acknowledge : VirtioDevice → ℕ → VirtioDevice
acknowledge s left =
    let s' = record s { int_status = left } in if left == 0 then set_irq s' 0 else s'

-- The registers of the device, but for the notification of a queue.
unfoldable pub device_register : VirtioDevice → ℕ → ℕ → VirtioDevice
device_register s offset val =
    if offset == 0x014
    then record s { device_features_sel = val }
    else if offset == 0x030
    then (if ltb val max_queue then record s { queue_sel = val } else s)
    else if offset == 0x070
    then if val == 0
      then virtio_reset (set_irq (record s { status = 0 }) 0)
      else record s { status = val }
    else if offset == 0x064
    then acknowledge s (clear s.int_status val)
    else put_queue s s.queue_sel (queue_register (selected s) offset val)

unfoldable pub virtio_config_change_notify : VirtioDevice → VirtioDevice
virtio_config_change_notify s = set_irq (record s { int_status = word_or s.int_status 2 }) 1

module _ {lib : Libraries} {D S : Type 0} (recv : DeviceRecv lib D S)
    (config_write : Guest lib D S → Guest lib D S) (manual_recv : ℕ → Bool) (chain fuel : ℕ) where
  abbrev pub configured : Guest lib D S → Bool × VirtioDevice → Guest lib D S
  configured g (changed, s) =
      let g' = record g { device = s } in if changed then config_write g' else g'

  unfoldable pub virtio_mmio_write : Guest lib D S → ℕ → ℕ → ℕ → Outcome (Guest lib D S)
  virtio_mmio_write g offset val size_log2 =
      if leb 0x100 offset
      then returned (configured g (virtio_config_write g.device (offset - 0x100) val size_log2))
      else if size_log2 == 2
      then if offset == 0x050
        then if ltb val max_queue
          then queue_notify recv chain manual_recv fuel g val
          else returned g
        else returned (record g { device = device_register g.device offset val })
      else returned g
