-- ===== src/Tests/Devices.antt =====
-- A virtio device whose queues lie in the memory of the other tests.
use esp32_tinyemu.Prelude.{ℕ, ◌+◌, false, arith, refl}
use esp32_tinyemu.Cpu.{RiscvCpu}
use esp32_tinyemu.Virtio.{QueueState, VirtioDevice, Guest}
use esp32_tinyemu.Virtio.Memory.{DeviceRecv}
use esp32_tinyemu.Virtio.Registers.{virtio_mmio_write}
use esp32_tinyemu.Virtio.Addresses.{ReadsBack, addresses_lem}
use esp32_tinyemu.Virtio.Keeps.{Keeps, SoundGuest, virtio_mmio_write-Keeps}
use esp32_tinyemu.Tests.Instance.{libraries}
use esp32_tinyemu.Tests.Translation.{banks}

abbrev ring : QueueState
ring = record {
  ready = 1;
  num = 16;
  last_avail_idx = 3;
  desc_addr = 4096;
  avail_addr = 4100;
  used_addr = 4104;
}

abbrev disk : VirtioDevice
disk = record {
  irq_level = 1;
  int_status = 1;
  status = 4;
  device_features_sel = 0;
  queue_sel = 0;
  queue = λ i. ring;
  device_id = 2;
  vendor_id = 0xffff;
  device_features = 0;
  config_space_size = 8;
  config_space = λ i. 0;
}

abbrev guest : Guest libraries (RiscvCpu × ℕ) ℕ
guest = record { device = disk; mem_map = banks; backend = 0 }

-- A device that counts its requests.
abbrev counts : DeviceRecv libraries (RiscvCpu × ℕ) ℕ
counts g queue_idx desc_idx read_size write_size = (false, record g { backend = g.backend + 1 })

guest-Sound : SoundGuest guest
guest-Sound = record {
  exists = omega arith;
  queues = λ i lt. record { power = (4, refl); flag = omega arith };
  line = refl;
}

virtio_mmio_write-Keeps_example :
    Keeps SoundGuest (virtio_mmio_write counts (λ g. g) (λ i. false) 16 65536 guest 0x050 1 2)
virtio_mmio_write-Keeps_example =
    virtio_mmio_write-Keeps counts (λ g queue_idx desc_idx r w h. h) 16 (λ g. g) (λ g h. h)
      (λ i. false) 65536 guest 0x050 1 2 (omega arith) guest-Sound

addresses_lem_example :
    ReadsBack disk 0x080 0x81000000 1
    × ReadsBack disk 0x090 0x81000000 1
    × ReadsBack disk 0x0a0 0x81000000 1
addresses_lem_example = addresses_lem disk 0x81000000 1 (omega arith) (omega arith)
