-- ===== src/Virtio.antt =====
-- lib/tinyemu/virtio.c: the state of a virtio device, its queues in the guest's memory and the
-- registers of the MMIO transport. What a device does with a request, and after a write of its
-- configuration, is an argument.
pub mod Memory
pub mod Registers
pub mod Chains
pub mod Links
pub mod Notify
pub mod Powers
pub mod Sound
pub mod Keeps
pub mod Addresses
use esp32_tinyemu.Prelude.{ℕ, ◌<◌, ◌==◌, if◌then◌else◌, ltb}
use esp32_tinyemu.LruCache.NodeList.{Libraries}
use esp32_tinyemu.Iomem.{PhysMemoryMap}

abbrev pub max_queue : ℕ
max_queue = 8

abbrev pub max_queue_num : ℕ
max_queue_num = 16

-- `QueueState`, without `manual_recv`, which is an argument of `queue_notify`.
pub record QueueState : Type 0 where
  pub ready : ℕ
  pub num : ℕ
  pub last_avail_idx : ℕ
  pub desc_addr : ℕ
  pub avail_addr : ℕ
  pub used_addr : ℕ

-- `VIRTIODesc`
pub record VirtioDesc : Type 0 where
  pub addr : ℕ
  pub len : ℕ
  pub flags : ℕ
  pub next : ℕ

-- `struct VIRTIODevice` of the MMIO transport; `irq_level` is the level last set by `set_irq`.
pub record VirtioDevice : Type 0 where
  pub irq_level : ℕ
  pub int_status : ℕ
  pub status : ℕ
  pub device_features_sel : ℕ
  pub queue_sel : ℕ
  pub queue : ℕ → QueueState
  pub device_id : ℕ
  pub vendor_id : ℕ
  pub device_features : ℕ
  pub config_space_size : ℕ
  pub config_space : ℕ → ℕ

-- A device, the memory that it shares with the guest, and the state of what is behind it.
pub record Guest (lib : Libraries) (D S : Type 0) : Type 0 where
  pub device : VirtioDevice
  pub mem_map : PhysMemoryMap lib D
  pub backend : S

abbrev pub new_queue : QueueState → QueueState
new_queue qs = record {
  ready = 0;
  num = max_queue_num;
  last_avail_idx = 0;
  desc_addr = 0;
  avail_addr = 0;
  used_addr = 0;
}

unfoldable pub virtio_reset : VirtioDevice → VirtioDevice
virtio_reset s = record s {
  status = 0;
  queue_sel = 0;
  device_features_sel = 0;
  int_status = 0;
  queue = λ i. if ltb i max_queue then new_queue (s.queue i) else s.queue i;
}

-- `set_irq(s->irq, level)`
abbrev pub set_irq : VirtioDevice → ℕ → VirtioDevice
set_irq s level = record s { irq_level = level }

-- A change of a queue.
abbrev pub put_queue : VirtioDevice → ℕ → QueueState → VirtioDevice
put_queue s queue_idx qs = record s { queue = λ i. if i == queue_idx then qs else s.queue i }
