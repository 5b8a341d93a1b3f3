-- ===== src/Tests/Translation.antt =====
-- A map with one range of RAM of 16 bytes at address 4096, which holds a page table, and a core that
-- translates addresses by it.
use esp32_tinyemu.Prelude.{
  ℕ, ◌+◌, ◌/◌, ◌≢◌, bit, ◌^◌, ◌%◌, ◌<◌, ◌≡◌, ◌==◌, if◌then◌else◌, true, false, none, some, arith,
  refl,
}
use esp32_tinyemu.Tests.Instance.{libraries}
use esp32_tinyemu.Tests.Machine.{core}
use esp32_tinyemu.Tests.Memory.{small, small-IsValid}
use esp32_tinyemu.Cpu.{RiscvCpu}
use esp32_tinyemu.Cpu.Csr.{sie, decode_csr, user_csr, supervisor_csr, csr_write, csr_read}
use esp32_tinyemu.Cpu.Csr.Laws.{csr_write_lem, Written, kept_mask, written_mask, IsStatus}
use esp32_tinyemu.Iomem.{PhysMemoryRange, PhysMemoryMap, get_phys_mem_range, find_range, in_range}
use esp32_tinyemu.Iomem.Access.{phys_read, phys_write}
use esp32_tinyemu.Iomem.Find.{get_phys_mem_range_lem, IsFirst}
use esp32_tinyemu.Iomem.Words.{AllRam, word}
use esp32_tinyemu.Iomem.Read.{phys_read_lem}
use esp32_tinyemu.Iomem.Write.{phys_write_lem, machine_memory}
use esp32_tinyemu.Bus.{Target}
use esp32_tinyemu.Bus.Load.{load_lem, Loads}
use esp32_tinyemu.Mmu.{access_priv, get_phys_addr, read, write}
use esp32_tinyemu.Mmu.Spec.{find_leaf, is_misaligned, sv32_leaf}
use esp32_tinyemu.Mmu.Laws.{Translates, answer, bit_after, get_phys_addr_lem}

abbrev pub bank : PhysMemoryRange libraries (RiscvCpu × ℕ)
bank = record {
  addr = 4096;
  org_size = 16;
  size = 16;
  is_ram = true;
  devram_flags = 0;
  vmm = small;
  dirty_bits_size = 0;
  dirty_bits = none;
  dirty_bits_tab = λ t i. 0;
  dirty_bits_index = 0;
  read_func = λ offset size_log2 w. (offset, w);
  write_func = λ offset val size_log2 w. w;
  devio_flags = 0;
}

abbrev pub banks : PhysMemoryMap libraries (RiscvCpu × ℕ)
banks = record { n_phys_mem_range = 1; phys_mem_range = λ i. bank }

banks-AllRam : AllRam banks
banks-AllRam i e = record {
  page_size = 4;
  blocks = 1;
  count = 4;
  valid = small-IsValid.0;
  holds = small-IsValid.1;
  fits = omega arith;
  aligned = refl;
  whole = refl;
  addressable = omega arith;
}

found : get_phys_mem_range banks 4096 ≡ some 0
unfolding get_phys_mem_range find_range in_range
found = refl

get_phys_mem_range_lem_example :
    IsFirst banks.phys_mem_range 0 1 (get_phys_mem_range banks 4100) 4100 3
get_phys_mem_range_lem_example = get_phys_mem_range_lem banks 4100 3

-- An entry of a superpage with all the permissions.
phys_write_lem_example :
    (map' : PhysMemoryMap libraries (RiscvCpu × ℕ)) × (phys_write banks 4096 15 4 ≡ some map')
    × AllRam map'
    × ((b : ℕ) → b < 2 ^ 32 → b % 4 ≡ 0 → word map' b ≡ (if 4096 == b then 15 else word banks b))
phys_write_lem_example =
    phys_write_lem banks 4096 15 0 banks-AllRam (omega arith) refl (omega arith) found refl

installed :
    (map' : PhysMemoryMap libraries (RiscvCpu × ℕ)) × (phys_write banks 4096 15 4 ≡ some map')
    × AllRam map'
    × ((b : ℕ) → b < 2 ^ 32 → b % 4 ≡ 0 → word map' b ≡ (if 4096 == b then 15 else word banks b))
installed = phys_write_lem banks 4096 15 0 banks-AllRam (omega arith) refl (omega arith) found refl

abbrev paged : RiscvCpu
paged = record core { satp = 2 ^ 31 + 1 }

paged_priv : access_priv paged write ≡ 1
unfolding access_priv bit
paged_priv = refl

paged_level : access_priv paged write ≢ 3
paged_level e = ground (arith, paged_priv, e)

paged_on : bit paged.satp 31 ≡ 1
unfolding bit
paged_on = refl

first_entry : word installed.0 4096 ≡ 15
first_entry = installed.3 4096 (omega arith) refl

aligned_leaf :
    (vaddr : ℕ) → vaddr < 2 ^ 22 → is_misaligned (find_leaf (word installed.0) 4096 vaddr) ≡ false
unfolding bit
aligned_leaf vaddr lt = let top : vaddr / 2 ^ 22 ≡ 0 = omega arith in rw (top, first_entry) refl

get_phys_addr_lem_example :
    Translates
      (machine_memory libraries (RiscvCpu × ℕ))
      paged
      (access_priv paged write)
      write
      5000
      installed.0
      (sv32_leaf (word installed.0) 4096 5000)
      (get_phys_addr (machine_memory libraries (RiscvCpu × ℕ)) paged installed.0 5000 write)
get_phys_addr_lem_example =
    get_phys_addr_lem (machine_memory libraries (RiscvCpu × ℕ)) paged installed.0 5000 write
      installed.2 (omega arith) (omega arith) paged_level paged_on (aligned_leaf 5000 (omega arith))

sie_number : decode_csr 0x104 ≡ some sie
unfolding decode_csr user_csr supervisor_csr
sie_number = refl

core_fs_low : bit core.mstatus 13 ≡ 0
unfolding bit
core_fs_low = refl

core_fs_high : bit core.mstatus 14 ≡ 0
unfolding bit
core_fs_high = refl

core-IsStatus : IsStatus core
core-IsStatus = record { fs_small = omega arith; fs_low = core_fs_low; fs_high = core_fs_high }

csr_write_lem_example :
    (w : Written core sie 0 9 (kept_mask core sie) (written_mask core sie)) × (csr_write core 0x104
        0
      ≡ some (w.code, w.cpu))
    × (csr_read core 0x104 false ≡ some w.old)
    × (csr_read w.cpu 0x104 false ≡ some w.new)
csr_write_lem_example =
    csr_write_lem core 0x104 sie 0 9 sie_number refl core-IsStatus (omega arith) refl (omega arith)

phys_read_lem_example :
    (map' : PhysMemoryMap libraries (RiscvCpu × ℕ)) × (phys_read banks 4104 4
      ≡ some (word banks 4104, map'))
    × AllRam map'
    × ((b : ℕ) → b < 2 ^ 32 → b % 4 ≡ 0 → word map' b ≡ word banks b)
phys_read_lem_example = phys_read_lem banks 4104 banks-AllRam (omega arith) refl

abbrev loading : Target libraries ℕ
loading = record { core = paged; mem_map = installed.0; devices = 5 }

load_priv : access_priv paged read ≡ 1
unfolding access_priv bit
load_priv = refl

load_level : access_priv paged read ≢ 3
load_level e = ground (arith, load_priv, e)

load_lem_example :
    (map : PhysMemoryMap libraries (RiscvCpu × ℕ)) × AllRam map
    × ((b k : ℕ)
        → b < 2 ^ 32
        → b % 4 ≡ 0
        → k < 32
        → bit (word map b) k
          ≡ bit_after
              (machine_memory libraries (RiscvCpu × ℕ))
              paged
              (access_priv paged read)
              read
              (sv32_leaf (word installed.0) 4096 4100)
              (word installed.0)
              b
              k)
    × Loads loading 4100 map (
        answer
          (machine_memory libraries (RiscvCpu × ℕ))
          paged
          (access_priv paged read)
          read
          4100
          (sv32_leaf (word installed.0) 4096 4100))
load_lem_example =
    load_lem loading 4100 installed.2 (omega arith) (omega arith) (omega arith) load_level paged_on
      (aligned_leaf 4100 (omega arith))
