-- ===== src/Lib.antt =====
-- esp32-tinyemu: a port of the TinyEMU RISC-V emulator to the ESP32. The board has too little RAM for
-- that of the emulated machine, so that the port pages it.
--
-- The parts and their interaction. The machine reads and writes its RAM through lib/VMM/vmm.c. A page
-- that is in use is resident: the VMM finds it by its number in a direct-mapped table
-- (lib/direct_cache) and, failing that, in an LRU cache (lib/lru_cache), which keeps its items in an
-- ordered index (lib/memory_indexer) and in a list. When the table of resident pages is full, the
-- last page of the list is removed from both; the LRU cache calls the VMM back with it, and a page
-- that is dirty goes to the page cache (lib/page_cache). The page cache keeps pages in blocks of a
-- large memory (lib/HimemAllocator), again found by a direct cache and an LRU cache; when it has no
-- block left it evicts a page, and its callback writes that one to the file behind the memory. A page
-- fault looks in the page cache first, then in the file.
--
-- The core (lib/tinyemu/riscv_cpu.c) takes traps and interrupts, by its privilege level and its
-- registers, which the CSR instructions read and write. It translates an address by the page tables
-- of the mode Sv32, which it reads and marks in physical memory. That is a map of ranges
-- (lib/tinyemu/iomem.c): RAM, each range with a VMM of its own, and the registers of devices. The
-- interpreter (lib/tinyemu/riscv_cpu_template.h) fetches an instruction at a time through the same map,
-- and ends after a number of them, at a trap or when the core waits. The machine
-- (lib/tinyemu/riscv_machine.c) sets and resets the core's pending bits: the
-- interrupt controller PLIC collects the devices' lines, the timer CLINT compares, and the host
-- interface HTIF takes commands. A virtio device (lib/tinyemu/virtio.c) finds its requests in rings that
-- the guest keeps in the RAM, and raises a line of the PLIC when it has done one.
--
-- Files and code:
--   Prelude        the numbers, lists and byte arrays the parts share; a size_t has 32 bits, as on
--                  the ESP32, a block number 16, and both wrap around.
--   DirectCache    lib/direct_cache/direct_cache.c
--   Himem          lib/HimemAllocator/himem_allocator.c and himem_access/emulated_himem.c
--   MemoryIndexer  lib/memory_indexer/memory_indexer.c
--   LruCache       lib/lru_cache/lru_cache.c
--   PageCache      lib/page_cache/page_cache.c
--   Vmm            lib/VMM/vmm.c; what lies below the resident pages is Vmm/Store
--   Flat           the specification: a flat array of bytes and a client's calls
--   Cpu            lib/tinyemu/riscv_cpu.c: privilege levels, traps, interrupts, mstatus
--   Cpu/Csr        the CSRs, in the same file
--   Mmu            the translation of addresses, in the same file, over an interface of words in
--                  memory (Mmu/Ram) and against the rules of Sv32 (Mmu/Spec)
--   Iomem          lib/tinyemu/iomem.c and iomem.h; the reads and writes of RAM of riscv_cpu.c are in
--                  Iomem/Access, and fill the interface of Mmu in Iomem/Write
--   Bus            the loads, stores and fetches by virtual addresses of lib/tinyemu/riscv_cpu.c, over
--                  Mmu and Iomem
--   Interp         lib/tinyemu/riscv_cpu_template.h: the integer instructions without memory accesses;
--                  the arithmetic is in Interp/Alu
--   Exec           the rest of that file: loads, stores and atomic operations in Exec/Memory, system
--                  instructions in Exec/System, compressed ones in Exec/Compressed, the switch on the
--                  opcode in Exec/Step and the loop in Exec/Loop; what an instruction keeps is in
--                  Exec/Keeps, and what a round of the loop keeps in Exec/Rounds
--   Virtio         lib/tinyemu/virtio.c: the queues in the guest's memory (Virtio/Memory) and the registers
--                  of the MMIO transport (Virtio/Registers)
--   Machine        lib/tinyemu/riscv_machine.c: PLIC, CLINT and HTIF
--   Tests          concrete libraries, caches, memories and devices
-- A file named after a part holds its state and operations, under the names of the code; the files in
-- its folder hold the invariant (Inv) and the theorems, by operation.
--
-- Representation. A struct is a record; a pointer is a number, NULL is 0, and the memory of one type
-- of object is a function from addresses. malloc is a counter that gives addresses not used before
-- and never fails, free is nothing, and what malloc leaves in memory is an argument of the functions
-- that initialise (`heap`), so that no result rests on it. A buffer is a function from its index.
-- Callbacks are arguments, and act on the state of the client that passes them; the functions of the
-- devices act on a state that the devices share. An integer in memory has its low byte first, as on
-- the ESP32.
--
-- Words. A register is a number; the bit operations of Prelude/Bits work digit by digit on 32 digits.
-- The build sets MAX_XLEN and so XLEN to 32 and leaves out the TLBs, so that tlb_flush_all does nothing.
--
-- Libraries. lib/avltree and lib/list are copies of other projects' libraries. They are parameters:
-- the records AvlTree and NodeList name the calls and the laws that the code relies on, and the tests
-- give an instance of both.
--
-- Bounds and fuel. The loops of vmm_read and vmm_write take the number of bytes as fuel: each round
-- copies at least one. The pages lie within the file and the 32-bit address space; a page has less
-- than 2^16 bytes and the page cache less than 2^16 blocks, since lib/HimemAllocator takes both as
-- uint16_t. The loop of the interpreter takes the number of its rounds as fuel. It tests n_cycles only
-- at the end of a block, which lies in a page, so that n_cycles and the bytes of a page bound it.
--
-- A notification of a virtio queue takes the number of requests as fuel: an index of 16 bits goes round
-- after 2^16. The guest may tie its descriptors to a cycle, which the code follows for ever; the fuel of
-- a chain runs out then, with a result of its own, which only a chain of as many links gives
-- (Virtio/Links).
--
-- Parameters of the interpreter: the record Environment names the floating point operations, and the
-- value of a variable that a failed read of a device leaves unset. A result `stopped` of a run, or none
-- of an instruction, is a memory operation without a result: the C code has none there either. It is an
-- access outside of the file of a VMM, or a fetch from the address of a device, whose range has no VMM.
-- What is said of an instruction or a round of the loop is said of one that has a result.
--
-- Not modelled: the release of the structures (vmm_destroy and the functions named free and deinit),
-- failing file operations and allocations, the logging and debug counters, and himem_access for the
-- ESP32's own himem. Of the emulator only the parts named above are modelled: not the
-- arithmetic of floating point numbers, not the copies between a virtio queue and a buffer,
-- the devices behind the queues and their PCI transport. The functions of a device
-- act on the core and the devices, not on the RAM.
pub mod Prelude
pub mod DirectCache
pub mod Himem
pub mod MemoryIndexer
pub mod LruCache
pub mod PageCache
pub mod Flat
pub mod Vmm
pub mod Cpu
pub mod Machine
pub mod Iomem
pub mod Bus
pub mod Interp
pub mod Exec
pub mod Mmu
pub mod Virtio
pub mod Tests
