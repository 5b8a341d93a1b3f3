-- ===== src/Mmu/Laws.antt =====
-- `get_phys_addr` translates as Sv32 does, and marks the entry that it used.
use esp32_tinyemu.Prelude.{
  ℕ, ◌+◌, ◌*◌, ◌/◌, ◌%◌, ◌^◌, ◌<◌, ◌≡◌, ◌≢◌, ◌⊎◌, true, false, ◌&&◌, ◌==◌, if◌then◌else◌, Option,
  none, some, arith, refl, sym, ap, ◌∙◌, subst, bit, bit_zero, bit-shift, digit, word_or, or_lt,
  Bool-cases, inl, inr,
}
use esp32_tinyemu.Cpu.{RiscvCpu}
use esp32_tinyemu.Mmu.Ram.{PhysMemory}
use esp32_tinyemu.Mmu.{
  Access, leaf_changes, leaf_marked, leaf_address, pte_page, pte_xwr, leaf, walk, access_priv,
  get_phys_addr,
}
use esp32_tinyemu.Mmu.Spec.{
  Leaf, is_leaf, frame, entry_address, leaf_or, last_leaf, find_leaf, may_access, marked_bit,
  page_address, is_misaligned, checked_leaf, sv32_leaf,
}
use esp32_tinyemu.Mmu.Bits.{
  xwr-leaf, page-frame, allowed_lem, marked_lem, unchanged_lem, address_lem,
}

module _ (ram : PhysMemory) where
  open ram use {Memory, IsValid, word, phys_read_u32, phys_write_u32, read_word, write_word}

  -- The translation that a leaf gives, if any was found.
  abbrev pub answer : RiscvCpu → ℕ → Access → ℕ → Option Leaf → Option ℕ
  answer s priv access vaddr none = none
  answer s priv access vaddr (some l) =
      if may_access s priv access l.entry then some (page_address l vaddr) else none

  -- A bit of the word at `b` after the access: the leaf's entry is marked if the access is allowed.
  abbrev pub bit_after : RiscvCpu → ℕ → Access → Option Leaf → (ℕ → ℕ) → ℕ → ℕ → ℕ
  bit_after s priv access none w b k = bit (w b) k
  bit_after s priv access (some l) w b k =
      if may_access s priv access l.entry && (l.address == b)
      then marked_bit access l.entry k
      else bit (w b) k

  -- A translation that ended: its result, and the memory that it leaves.
  pub record Translates (s : RiscvCpu) (priv : ℕ) (access : Access) (vaddr : ℕ) (m : Memory)
      (found : Option Leaf) (result : Option (Option ℕ × Memory)) : Type 0 where
    pub memory : Memory
    pub ends : result ≡ some (answer s priv access vaddr found, memory)
    pub valid : IsValid memory
    pub words :
        (b k : ℕ)
        → b < 2 ^ 32
        → b % 4 ≡ 0
        → k < 32
        → bit (word memory b) k ≡ bit_after s priv access found (word m) b k

  marked_lt : (access : Access) (pte : ℕ) → leaf_marked access pte < 2 ^ 32
  unfolding leaf_marked
  marked_lt access pte = ground (arith, or_lt pte (2 ^ 6), or_lt (word_or pte (2 ^ 6)) (2 ^ 7))

  module _ (s : RiscvCpu) (priv vaddr : ℕ) (access : Access) where
    marked_entry : (p : ℕ) → bit p 0 ≡ 1 → p ≢ 0
    marked_entry p e z = absurd (ground (arith, z, e, bit_zero 0))

    stop_lem : (m : Memory) → IsValid m → Translates s priv access vaddr m none (some (none, m))
    stop_lem m v = record { memory = m; ends = refl; valid = v; words = λ b k lb al lk. refl }

    -- The last round: an entry that is valid and has permissions.
    leaf_lem :
        (m : Memory) (a p shift : ℕ)
        → word m a ≡ p
        → IsValid m
        → a < 2 ^ 32
        → a % 4 ≡ 0
        → bit p 0 ≡ 1
        → let l : Leaf = record { address = a; entry = p; shift = shift } in
          leaf_address vaddr (pte_page p) shift ≡ page_address l vaddr
          → Translates s priv access vaddr m (some l) (leaf ram s priv vaddr access m a p shift)
    unfolding leaf
    leaf_lem m a p shift at v la al valid same = elim (Bool-cases (may_access s priv access p)) [
      | inr d ↦ record {
        memory = m;
        ends = rw (leaf, allowed_lem s priv access p, d) refl;
        valid = v;
        words = λ b k lb ab lk. rw d refl;
      }
      | inl d ↦ elim (Bool-cases (leaf_changes access p)) [
        | inr c ↦ record {
          memory = m;
          ends = rw (leaf, allowed_lem s priv access p, d, c, same) refl;
          valid = v;
          words = λ b k lb ab lk. ground (arith, d, at, unchanged_lem access p k c);
        }
        | inl c ↦
            let (m', wrote, v', after) =
              write_word m a (leaf_marked access p) v la al (marked_lt access p)
                (λ z. marked_entry p valid (sym at ∙ z)) in
            record {
              memory = m';
              ends = rw (leaf, allowed_lem s priv access p, d, c, wrote, same) refl;
              valid = v';
              words = λ b k lb ab lk. rw (after b lb ab) (elim (Bool-cases (a == b)) [
                | inl e ↦ rw (d, e) (marked_lem access p k lk)
                | inr e ↦ rw (d, e) refl
              ]);
            }
      ]
    ]

  same_after :
      (s : RiscvCpu) (priv : ℕ) (access : Access) (w w' : ℕ → ℕ) (found : Option Leaf) (b k : ℕ)
      → w b ≡ w' b
      → bit_after s priv access found w b k ≡ bit_after s priv access found w' b k
  same_after s priv access w w' none b k e = ap (λ t. bit t k) e
  same_after s priv access w w' (some l) b k e = rw e refl

  no_leaf : (p : ℕ) → (pte_xwr p == 0) ≡ true → is_leaf p ≡ false
  no_leaf p e = xwr-leaf p ∙ rw e refl

  some_leaf : (p : ℕ) → (pte_xwr p == 0) ≡ false → is_leaf p ≡ true
  some_leaf p e = xwr-leaf p ∙ rw e refl

  module _ (s : RiscvCpu) (priv vaddr : ℕ) (access : Access) where
    -- The result of a walk on a memory that has the same words.
    moved :
        {m m₁ : Memory} {found : Option Leaf} {result : Option (Option ℕ × Memory)}
        → ((b : ℕ) → b < 2 ^ 32 → b % 4 ≡ 0 → word m₁ b ≡ word m b)
        → Translates s priv access vaddr m₁ found result
        → Translates s priv access vaddr m found result
    moved {m} {m₁} {found} same t = record {
      memory = t.memory;
      ends = t.ends;
      valid = t.valid;
      words = λ b k lb ab lk.
          t.words b k lb ab lk
          ∙ same_after s priv access (word m₁) (word m) found b k (same b lb ab);
    }

    -- One round: what the rest of the walk finds is found where the entry at `a` does not end it.
    round :
        (m : Memory) (a shift : ℕ) (below : Option Leaf)
        (rest : Memory → ℕ → Option (Option ℕ × Memory))
        → IsValid m
        → a < 2 ^ 32
        → a % 4 ≡ 0
        → leaf_address vaddr (pte_page (word m a)) shift
          ≡ page_address (record { address = a; entry = word m a; shift = shift }) vaddr
        → ((m₁ : Memory)
            → IsValid m₁
            → ((b : ℕ) → b < 2 ^ 32 → b % 4 ≡ 0 → word m₁ b ≡ word m b)
            → Translates s priv access vaddr m₁ below (rest m₁ (frame (word m a))))
        → Translates s priv access vaddr m
            (leaf_or (word m) a shift below)
            (elim (phys_read_u32 m a) [
              | none ↦ none
              | some (pte, m') ↦
                  if bit pte 0 == 0
                  then some (none, m')
                  else if pte_xwr pte == 0
                  then rest m' (pte_page pte)
                  else leaf ram s priv vaddr access m' a pte shift
            ])
    round m a shift below rest v la al same more =
        let p = word m a in
        let (m₁, reads, v₁, same₁) = read_word m a v la al in
        elim (digit p 0) [
          | inl z ↦ rw (reads, z) (moved same₁ (stop_lem s priv vaddr access m₁ v₁))
          | inr o ↦ elim (Bool-cases (pte_xwr p == 0)) [
            | inl e ↦ rw (reads, o, e, no_leaf p e, page-frame p) (moved same₁ (more m₁ v₁ same₁))
            | inr e ↦
                rw (reads, o, e, some_leaf p e)
                  (moved same₁
                    (leaf_lem s priv vaddr access m₁ a p shift (same₁ a la al) v₁ la al o same))
          ]
        ]

    fits :
        (p shift : ℕ)
        → (shift ≡ 12) ⊎ (shift ≡ 22)
        → pte_page p / 2 ^ shift * 2 ^ shift + vaddr % 2 ^ shift < 2 ^ 32
    fits p shift h = elim h [
      | inl e ↦ rw (e, page-frame p) (omega arith)
      | inr e ↦ rw (e, page-frame p) (omega arith)
    ]

    same_last :
        (w w' : ℕ → ℕ) (table : ℕ)
        → table % 4 ≡ 0
        → ((b : ℕ) → b < 2 ^ 32 → b % 4 ≡ 0 → w b ≡ w' b)
        → last_leaf w table vaddr ≡ last_leaf w' table vaddr
    same_last w w' table al same =
        let a = entry_address table (vaddr / 2 ^ 12 % 1024) in
        rw (same a (omega arith) (omega arith)) refl

    in_page :
        (p shift : ℕ)
        → (shift ≡ 12) ⊎ (shift ≡ 22)
        → vaddr < 2 ^ 32
        → leaf_address vaddr (pte_page p) shift
          ≡ frame p / 2 ^ shift * 2 ^ shift + vaddr % 2 ^ shift
    in_page p shift h lv = elim h [
      | inl e ↦ rw e (
          address_lem vaddr (pte_page p) 12 (omega arith) lv (fits p 12 (inl refl))
          ∙ rw (page-frame p) refl)
      | inr e ↦ rw e (
          address_lem vaddr (pte_page p) 22 (omega arith) lv (fits p 22 (inr refl))
          ∙ rw (page-frame p) refl)
    ]

    last_walk :
        (m : Memory) (table : ℕ)
        → IsValid m
        → table % 4 ≡ 0
        → vaddr < 2 ^ 32
        → Translates s priv access vaddr m
            (last_leaf (word m) table vaddr)
            (walk ram 1 s priv vaddr access m table)
    unfolding walk
    last_walk m table v al lv =
        let a = entry_address table (vaddr / 2 ^ 12 % 1024) in
        round m a 12 none (λ m' t. some (none, m')) v (omega arith) (omega arith)
          (in_page (word m a) 12 (inl refl) lv) (λ m₁ v₁ same. stop_lem s priv vaddr access m₁ v₁)

    full_walk :
        (m : Memory) (root : ℕ)
        → IsValid m
        → root % 4 ≡ 0
        → vaddr < 2 ^ 32
        → Translates s priv access vaddr m
            (find_leaf (word m) root vaddr)
            (walk ram 2 s priv vaddr access m root)
    unfolding walk
    full_walk m root v al lv =
        let a = entry_address root (vaddr / 2 ^ 22 % 1024) in
        round m a 22 (last_leaf (word m) (frame (word m a)) vaddr)
          (λ m' t. walk ram 1 s priv vaddr access m' t) v (omega arith) (omega arith)
          (in_page (word m a) 22 (inr refl) lv)
          (λ m₁ v₁ same.
            rw (← same_last (word m₁) (word m) (frame (word m a)) (omega arith) same)
              (last_walk m₁ (frame (word m a)) v₁ (omega arith) lv))

  -- The translation without the test of a superpage's alignment, which the code does not make.
  pub unchecked_lem :
      (s : RiscvCpu) (m : Memory) (vaddr : ℕ) (access : Access)
      → IsValid m
      → vaddr < 2 ^ 32
      → s.satp < 2 ^ 32
      → access_priv s access ≢ 3
      → bit s.satp 31 ≡ 1
      → Translates s
          (access_priv s access)
          access
          vaddr
          m
          (find_leaf (word m) (s.satp % 2 ^ 20 * 4096) vaddr)
          (get_phys_addr ram s m vaddr access)
  unfolding get_phys_addr
  unchecked_lem s m vaddr access v lv ls level on =
      let below : (access_priv s access == 3) ≡ false = ground arith in
      let paged : (s.satp / 2 ^ 31 == 0) ≡ false = ground (arith, bit-shift s.satp 31) in
      let root : s.satp % 2 ^ 22 * 2 ^ 12 % 2 ^ 32 ≡ s.satp % 2 ^ 20 * 4096 = omega arith in
      rw (get_phys_addr, below, paged, root)
        (full_walk s (access_priv s access) vaddr access m (s.satp % 2 ^ 20 * 4096) v (omega arith)
          lv)

  pub checked_same :
      (found : Option Leaf) → is_misaligned found ≡ false → checked_leaf found ≡ found
  checked_same found e = rw e refl

  -- With the translation on, below level M, `get_phys_addr` ends and answers what Sv32 prescribes, if
  -- the two tables do not lead to a misaligned superpage: the address in the page of the leaf that they
  -- lead to, if the level of the access may use it. The entry of that leaf is marked, and no other bit
  -- of the memory changes; without a leaf or the permission nothing does, and the answer is a fault.
  -- Physical addresses have 32 bits.
  pub get_phys_addr_lem :
      (s : RiscvCpu) (m : Memory) (vaddr : ℕ) (access : Access)
      → IsValid m
      → vaddr < 2 ^ 32
      → s.satp < 2 ^ 32
      → access_priv s access ≢ 3
      → bit s.satp 31 ≡ 1
      → is_misaligned (find_leaf (word m) (s.satp % 2 ^ 20 * 4096) vaddr) ≡ false
      → Translates s
          (access_priv s access)
          access
          vaddr
          m
          (sv32_leaf (word m) (s.satp % 2 ^ 20 * 4096) vaddr)
          (get_phys_addr ram s m vaddr access)
  get_phys_addr_lem s m vaddr access v lv ls level on aligned =
      let found = find_leaf (word m) (s.satp % 2 ^ 20 * 4096) vaddr in
      subst
        (λ (l : Option Leaf).
          Translates s (access_priv s access) access vaddr m l (get_phys_addr ram s m vaddr access))
        (sym (checked_same found aligned)) (unchecked_lem s m vaddr access v lv ls level on)

  -- At level M, and with the translation off, the address is its own translation.
  pub bare_lem :
      (s : RiscvCpu) (m : Memory) (vaddr : ℕ) (access : Access)
      → s.satp < 2 ^ 32
      → (access_priv s access ≡ 3) ⊎ (bit s.satp 31 ≡ 0)
      → get_phys_addr ram s m vaddr access ≡ some (some vaddr, m)
  unfolding get_phys_addr
  bare_lem s m vaddr access ls off = ground (arith, bit-shift s.satp 31)
