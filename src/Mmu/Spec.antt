-- ===== src/Mmu/Spec.antt =====
-- The translation of Sv32 as the privileged architecture describes it, on a memory of words with
-- addresses of 32 bits: two levels, the permission rule, the alignment of superpages, and the bits that
-- an access sets.
use esp32_tinyemu.Prelude.{
  ℕ, ◌+◌, ◌-◌, ◌*◌, ◌/◌, ◌%◌, ◌^◌, Bool, false, ◌&&◌, ◌||◌, not, ◌==◌, if◌then◌else◌, Option, none,
  some, bit,
}
use esp32_tinyemu.Cpu.{RiscvCpu}
use esp32_tinyemu.Mmu.{Access, read, write, code}

-- An entry that ends a walk: its address and contents, and the number of address bits below it.
pub record Leaf : Type 0 where
  pub address : ℕ
  pub entry : ℕ
  pub shift : ℕ

abbrev pub is_valid : ℕ → Bool
is_valid pte = bit pte 0 == 1

abbrev pub readable : ℕ → Bool
readable pte = bit pte 1 == 1

abbrev pub writable : ℕ → Bool
writable pte = bit pte 2 == 1

abbrev pub executable : ℕ → Bool
executable pte = bit pte 3 == 1

abbrev pub for_user : ℕ → Bool
for_user pte = bit pte 4 == 1

abbrev pub is_leaf : ℕ → Bool
is_leaf pte = readable pte || (writable pte || executable pte)

-- The frame that an entry names, as a 32-bit address.
abbrev pub frame : ℕ → ℕ
frame pte = pte / 1024 % 2 ^ 20 * 4096

-- The entry of index `i` of the table at `table`.
abbrev pub entry_address : ℕ → ℕ → ℕ
entry_address table i = (table + i * 4) % 2 ^ 32

-- The entry at `a`, if it ends a walk; otherwise what the walk goes on to find.
abbrev pub leaf_or : (ℕ → ℕ) → ℕ → ℕ → Option Leaf → Option Leaf
leaf_or word a shift below =
    if not (is_valid (word a))
    then none
    else if is_leaf (word a)
    then some (record { address = a; entry = word a; shift = shift })
    else below

-- The leaf of an address in a table of the last level, and from the root of the tables.
abbrev pub last_leaf : (ℕ → ℕ) → ℕ → ℕ → Option Leaf
last_leaf word table vaddr = leaf_or word (entry_address table (vaddr / 2 ^ 12 % 1024)) 12 none

abbrev pub find_leaf : (ℕ → ℕ) → ℕ → ℕ → Option Leaf
find_leaf word root vaddr =
    let a = entry_address root (vaddr / 2 ^ 22 % 1024) in
    leaf_or word a 22 (last_leaf word (frame (word a)) vaddr)

-- A superpage whose frame does not start at a multiple of its size: the low part of the entry's page
-- number is not 0.
abbrev pub is_misaligned : Option Leaf → Bool
is_misaligned none = false
is_misaligned (some l) = not (l.entry / 2 ^ 10 % 2 ^ (l.shift - 12) == 0)

-- The leaf of an address, where a misaligned superpage is a page fault.
abbrev pub checked_leaf : Option Leaf → Option Leaf
checked_leaf found = if is_misaligned found then none else found

abbrev pub sv32_leaf : (ℕ → ℕ) → ℕ → ℕ → Option Leaf
sv32_leaf word root vaddr = checked_leaf (find_leaf word root vaddr)

-- The access that the entry's own bits permit; MXR lets executable pages be read.
abbrev pub permits : Bool → Access → ℕ → Bool
permits mxr read pte = readable pte || (mxr && executable pte)
permits mxr write pte = writable pte
permits mxr code pte = executable pte

-- The rule for a leaf: no page is writable without being readable, user pages are for level U and,
-- with SUM, for level S, the others are for level S alone.
abbrev pub may_access : RiscvCpu → ℕ → Access → ℕ → Bool
may_access s priv access pte =
    not (writable pte && not (readable pte))
    && ((if priv == 1 then not (for_user pte) || (bit s.mstatus 18 == 1) else for_user pte)
        && permits (bit s.mstatus 19 == 1) access pte)

-- The bits of an entry after an access: A (6) is set, and D (7) by a write.
abbrev pub marked_bit : Access → ℕ → ℕ → ℕ
marked_bit write pte k = if k == 6 then 1 else if k == 7 then 1 else bit pte k
marked_bit read pte k = if k == 6 then 1 else bit pte k
marked_bit code pte k = if k == 6 then 1 else bit pte k

-- The address within the leaf's page.
abbrev pub page_address : Leaf → ℕ → ℕ
page_address l vaddr = frame l.entry / 2 ^ l.shift * 2 ^ l.shift + vaddr % 2 ^ l.shift
