-- ===== src/Virtio/Memory.antt =====
-- The queues of lib/tinyemu/virtio.c in the guest's memory. The result `none` is a failed assertion
-- or an access outside of the memory; a loop over a chain of descriptors takes fuel.
use esp32_tinyemu.Prelude.{
  ℕ, zero, suc, ◌+◌, ◌-◌, ◌*◌, ◌%◌, ◌/◌, ◌^◌, Bool, true, false, not, ◌==◌, if◌then◌else◌, Option,
  none, some, size_add, size_sub, word_and, word_or, bit,
}
use esp32_tinyemu.LruCache.NodeList.{Libraries}
use esp32_tinyemu.Iomem.{get_phys_mem_range}
use esp32_tinyemu.Iomem.Access.{ram_read, ram_write}
use esp32_tinyemu.Virtio.{VirtioDesc, Guest, set_irq, put_queue}

-- `virtio_phys_addr_t` has 64 bits.
abbrev pub address : ℕ → ℕ
address a = a % 2 ^ 64

abbrev pub vring_desc_f_next : ℕ
vring_desc_f_next = 0

abbrev pub vring_desc_f_write : ℕ
vring_desc_f_write = 1

-- How a loop ends: with a value, at a failed assertion, or not within the fuel of the loop over a
-- chain or of the loop over the requests.
pub data Outcome (A : Type 0) : Type 0 where
  returned : A → Outcome A
  aborted chain_unended unended : Outcome A

module _ {lib : Libraries} {D S : Type 0} where
  -- `count` bytes of the guest's memory, as an integer with its low byte first.
  unfoldable pub virtio_read : Guest lib D S → ℕ → ℕ → Option (ℕ × Guest lib D S)
  virtio_read g addr count = elim (get_phys_mem_range g.mem_map addr) [
    | none ↦ none
    | some i ↦
        elim (ram_read g.mem_map i ((addr - (g.mem_map.phys_mem_range i).addr) % 2 ^ 32) count) [
          | none ↦ none
          | some (val, map) ↦ some (val, record g { mem_map = map })
        ]
  ]

  unfoldable pub virtio_write : Guest lib D S → ℕ → ℕ → ℕ → Option (Guest lib D S)
  virtio_write g addr val count = elim (get_phys_mem_range g.mem_map addr) [
    | none ↦ none
    | some i ↦
        elim (ram_write g.mem_map i ((addr - (g.mem_map.phys_mem_range i).addr) % 2 ^ 32) val
          count) [ none ↦ none | some map ↦ some (record g { mem_map = map }) ]
  ]

  unfoldable pub virtio_read16 : Guest lib D S → ℕ → Option (ℕ × Guest lib D S)
  virtio_read16 g addr =
      if addr % 2 == 1
      then some (0, g)
      else elim (virtio_read g addr 2) [ none ↦ none | some (val, g') ↦ some (val % 2 ^ 16, g') ]

  unfoldable pub virtio_write16 : Guest lib D S → ℕ → ℕ → Option (Guest lib D S)
  virtio_write16 g addr val = if addr % 2 == 1 then some g else virtio_write g addr val 2

  unfoldable pub virtio_write32 : Guest lib D S → ℕ → ℕ → Option (Guest lib D S)
  virtio_write32 g addr val = if not (addr % 4 == 0) then some g else virtio_write g addr val 4

  -- The 16 bytes of a descriptor.
  unfoldable pub get_desc : Guest lib D S → ℕ → ℕ → Option (VirtioDesc × Guest lib D S)
  get_desc g queue_idx desc_idx =
      elim (virtio_read g (address ((g.device.queue queue_idx).desc_addr + desc_idx * 16)) 16) [
        | none ↦ none
        | some (val, g') ↦ some (
          record {
            addr = val % 2 ^ 64;
            len = val / 2 ^ 64 % 2 ^ 32;
            flags = val / 2 ^ 96 % 2 ^ 16;
            next = val / 2 ^ 112 % 2 ^ 16;
          },
          g',
        )
      ]

  unfoldable pub virtio_consume_desc : Guest lib D S → ℕ → ℕ → ℕ → Option (Guest lib D S)
  virtio_consume_desc g queue_idx desc_idx desc_len =
      let qs = g.device.queue queue_idx in
      let addr = address (qs.used_addr + 2) in
      elim (virtio_read16 g addr) [
        | none ↦ none
        | some (index, g1) ↦ elim (virtio_write16 g1 addr (index + 1)) [
          | none ↦ none
          | some g2 ↦
              let slot = address (qs.used_addr + 4 + word_and index (size_sub qs.num 1) * 8) in
              elim (virtio_write32 g2 slot desc_idx) [
                | none ↦ none
                | some g3 ↦ elim (virtio_write32 g3 (address (slot + 4)) desc_len) [
                  | none ↦ none
                  | some g4 ↦
                      let s = record g4.device { int_status = word_or g4.device.int_status 1 } in
                      some (record g4 { device = set_irq s 1 })
                ]
              ]
        ]
      ]

  -- The second loop of `get_desc_rw_size`, from the descriptor that it has read; `none` for -1.
  unfoldable pub write_sizes :
      ℕ → Guest lib D S → ℕ → VirtioDesc → ℕ → ℕ → Outcome (Option (ℕ × ℕ) × Guest lib D S)
  write_sizes zero g queue_idx desc read_size write_size = chain_unended
  write_sizes (suc fuel) g queue_idx desc read_size write_size =
      let write_size' = size_add write_size desc.len in
      elim (bit desc.flags vring_desc_f_write == 1) [
        | false ↦ returned (none, g)
        | true ↦ elim (bit desc.flags vring_desc_f_next == 1) [
          | false ↦ returned (some (read_size, write_size'), g)
          | true ↦ elim (get_desc g queue_idx desc.next) [
            | none ↦ aborted
            | some (desc', g') ↦ write_sizes fuel g' queue_idx desc' read_size write_size'
          ]
        ]
      ]

  -- The first loop, over the descriptors that the device reads.
  unfoldable pub read_sizes :
      ℕ → Guest lib D S → ℕ → VirtioDesc → ℕ → Outcome (Option (ℕ × ℕ) × Guest lib D S)
  read_sizes zero g queue_idx desc read_size = chain_unended
  read_sizes (suc fuel) g queue_idx desc read_size =
      let read_size' = size_add read_size desc.len in
      elim (bit desc.flags vring_desc_f_write == 1) [
        | true ↦ write_sizes (suc fuel) g queue_idx desc read_size 0
        | false ↦ elim (bit desc.flags vring_desc_f_next == 1) [
          | false ↦ returned (some (read_size', 0), g)
          | true ↦ elim (get_desc g queue_idx desc.next) [
            | none ↦ aborted
            | some (desc', g') ↦ read_sizes fuel g' queue_idx desc' read_size'
          ]
        ]
      ]

  unfoldable pub get_desc_rw_size :
      ℕ → Guest lib D S → ℕ → ℕ → Outcome (Option (ℕ × ℕ) × Guest lib D S)
  get_desc_rw_size chain g queue_idx desc_idx = elim (get_desc g queue_idx desc_idx) [
    | none ↦ aborted
    | some (desc, g') ↦ read_sizes chain g' queue_idx desc 0
  ]

-- `device_recv`: whether it returned a value below 0, and the state it leaves.
abbrev pub DeviceRecv : Libraries → Type 0 → Type 0 → Type 0
DeviceRecv lib D S = Guest lib D S → ℕ → ℕ → ℕ → ℕ → Bool × Guest lib D S

module _ {lib : Libraries} {D S : Type 0} (recv : DeviceRecv lib D S) (chain : ℕ) where
  abbrev pub advance : Guest lib D S → ℕ → Guest lib D S
  advance g queue_idx =
      let qs = g.device.queue queue_idx in
      record g {
        device =
            put_queue g.device queue_idx
              (record qs { last_avail_idx = (qs.last_avail_idx + 1) % 2 ^ 16 });
      }

  -- A request: whether the loop goes on, and the state.
  unfoldable pub request : Guest lib D S → ℕ → Outcome (Bool × Guest lib D S)
  request g queue_idx =
      let qs = g.device.queue queue_idx in
      let slot = word_and qs.last_avail_idx (size_sub qs.num 1) * 2 in
      elim (virtio_read16 g (address (qs.avail_addr + 4 + slot))) [
        | none ↦ aborted
        | some (desc_idx, g1) ↦ elim (get_desc_rw_size chain g1 queue_idx desc_idx) [
          | returned (none, g2) ↦ returned (true, advance g2 queue_idx)
          | returned (some (read_size, write_size), g2) ↦
              let (stops, g3) = recv g2 queue_idx desc_idx read_size write_size in
              returned (if stops then (false, g3) else (true, advance g3 queue_idx))
          | aborted ↦ aborted
          | chain_unended ↦ chain_unended
          | unended ↦ unended
        ]
      ]

  unfoldable pub notify_loop : ℕ → Guest lib D S → ℕ → ℕ → Outcome (Guest lib D S)
  notify_loop zero g queue_idx avail_idx = unended
  notify_loop (suc fuel) g queue_idx avail_idx =
      elim ((g.device.queue queue_idx).last_avail_idx == avail_idx) [
        | true ↦ returned g
        | false ↦ elim (request g queue_idx) [
          | returned (true, g') ↦ notify_loop fuel g' queue_idx avail_idx
          | returned (false, g') ↦ returned g'
          | aborted ↦ aborted
          | chain_unended ↦ chain_unended
          | unended ↦ unended
        ]
      ]

  unfoldable pub queue_notify : (ℕ → Bool) → ℕ → Guest lib D S → ℕ → Outcome (Guest lib D S)
  queue_notify manual_recv fuel g queue_idx =
      if manual_recv queue_idx
      then returned g
      else elim (virtio_read16 g (address ((g.device.queue queue_idx).avail_addr + 2))) [
        | none ↦ aborted
        | some (avail_idx, g') ↦ notify_loop fuel g' queue_idx avail_idx
      ]
