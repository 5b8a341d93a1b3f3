-- ===== src/Virtio/Chains.antt =====
-- The reads of the queues leave the device as it is.
use esp32_tinyemu.Prelude.{
  ℕ, zero, suc, ◌%◌, ◌^◌, ◌<◌, ◌≡◌, Bool, true, false, ◌==◌, Option, none, some, arith, refl, ◌∙◌,
  bit, size_add, Always, present, Always-if, Always-bind, Always-case,
}
use esp32_tinyemu.LruCache.NodeList.{Libraries}
use esp32_tinyemu.Iomem.{get_phys_mem_range}
use esp32_tinyemu.Iomem.Access.{ram_read}
use esp32_tinyemu.Virtio.{VirtioDesc, Guest}
use esp32_tinyemu.Virtio.Memory.{
  vring_desc_f_next, vring_desc_f_write, Outcome, returned, aborted, chain_unended, virtio_read,
  virtio_read16, get_desc, write_sizes, read_sizes, get_desc_rw_size,
}

-- The loop over the requests has ended with the property, at a failed assertion, or not at all since
-- the chain of descriptors of a request has no end.
pub data Ends {A : Type 0} (P : A → Type 0) : Outcome A → Type 0 where
  ends : {x : A} → P x → Ends P (returned x)
  ends_aborted : Ends P aborted
  ends_in_chain : Ends P chain_unended

-- The two cases of a test.
pub Ends-test :
    {A : Type 0} (P : A → Type 0) (c : Bool) {x y : Outcome A}
    → (c ≡ true → Ends P y)
    → (c ≡ false → Ends P x)
    → Ends P (elim c [ false ↦ x | true ↦ y ])
Ends-test P true p q = p refl
Ends-test P false p q = q refl

pub Ends-weaken :
    {A : Type 0} {P Q : A → Type 0} {o : Outcome A} → Ends P o → ((x : A) → P x → Q x) → Ends Q o
Ends-weaken (ends p) h = ends (h _ p)
Ends-weaken ends_aborted h = ends_aborted
Ends-weaken ends_in_chain h = ends_in_chain

module _ {lib : Libraries} {D S : Type 0} where
  abbrev pub SameDevice : {A : Type 0} → Guest lib D S → A × Guest lib D S → Type 0
  SameDevice g r = r.1.device ≡ g.device

  virtio_read-SameDevice :
      (g : Guest lib D S) (addr count : ℕ) → Always (SameDevice g) (virtio_read g addr count)
  unfolding virtio_read
  virtio_read-SameDevice g addr count =
      Always-case (get_phys_mem_range g.mem_map addr)
        (λ i. Always-case (ram_read g.mem_map i _ count) (λ r. present refl))

  pub virtio_read16-SameDevice :
      (g : Guest lib D S) (addr : ℕ) → Always (SameDevice g) (virtio_read16 g addr)
  unfolding virtio_read16
  virtio_read16-SameDevice g addr =
      Always-if (addr % 2 == 1) (present refl)
        (Always-bind (virtio_read-SameDevice g addr 2) (λ r same. present same))

  pub virtio_read16_lt :
      (g : Guest lib D S) (addr : ℕ)
      → Always (λ (r : ℕ × Guest lib D S). r.0 < 2 ^ 16) (virtio_read16 g addr)
  unfolding virtio_read16
  virtio_read16_lt g addr =
      Always-if (addr % 2 == 1) (present (omega arith))
        (Always-case (virtio_read g addr 2) (λ r. present (omega arith)))

  get_desc-SameDevice :
      (g : Guest lib D S) (queue_idx desc_idx : ℕ)
      → Always (SameDevice g) (get_desc g queue_idx desc_idx)
  unfolding get_desc
  get_desc-SameDevice g queue_idx desc_idx =
      Always-bind (virtio_read-SameDevice g _ 16) (λ r same. present same)

  -- What follows a read of a descriptor.
  then_desc :
      {A : Type 0} (P : A → Type 0) (g : Guest lib D S) (o : Option (VirtioDesc × Guest lib D S))
      (k : VirtioDesc → Guest lib D S → Outcome A)
      → Always (SameDevice g) o
      → ((d : VirtioDesc) (g' : Guest lib D S) → g'.device ≡ g.device → Ends P (k d g'))
      → Ends P (elim o [ none ↦ aborted | some (d, g') ↦ k d g' ])
  then_desc P g none k h rest = ends_aborted
  then_desc P g (some (d, g')) k (present same) rest = rest d g' same

  write_sizes-Ends :
      (chain : ℕ) (g0 g : Guest lib D S) (queue_idx : ℕ) (desc : VirtioDesc)
      (read_size write_size : ℕ)
      → g.device ≡ g0.device
      → Ends
          (SameDevice {A = Option (ℕ × ℕ)} g0)
          (write_sizes chain g queue_idx desc read_size write_size)
  unfolding write_sizes
  write_sizes-Ends zero g0 g queue_idx desc read_size write_size same = ends_in_chain
  write_sizes-Ends (suc chain) g0 g queue_idx desc read_size write_size same =
      Ends-test _ (bit desc.flags vring_desc_f_write == 1)
        (λ w.
          Ends-test _ (bit desc.flags vring_desc_f_next == 1)
            (λ e.
              then_desc _ g (get_desc g queue_idx desc.next) _
                (get_desc-SameDevice g queue_idx desc.next)
                (λ d g' same'.
                  write_sizes-Ends chain g0 g' queue_idx d read_size (size_add write_size desc.len)
                    (same' ∙ same)))
            (λ e. ends same))
        (λ w. ends same)

  read_sizes-Ends :
      (chain : ℕ) (g0 g : Guest lib D S) (queue_idx : ℕ) (desc : VirtioDesc) (read_size : ℕ)
      → g.device ≡ g0.device
      → Ends (SameDevice {A = Option (ℕ × ℕ)} g0) (read_sizes chain g queue_idx desc read_size)
  unfolding read_sizes
  read_sizes-Ends zero g0 g queue_idx desc read_size same = ends_in_chain
  read_sizes-Ends (suc chain) g0 g queue_idx desc read_size same =
      Ends-test _ (bit desc.flags vring_desc_f_write == 1)
        (λ w. write_sizes-Ends (suc chain) g0 g queue_idx desc read_size 0 same)
        (λ w.
          Ends-test _ (bit desc.flags vring_desc_f_next == 1)
            (λ e.
              then_desc _ g (get_desc g queue_idx desc.next) _
                (get_desc-SameDevice g queue_idx desc.next)
                (λ d g' same'.
                  read_sizes-Ends chain g0 g' queue_idx d (size_add read_size desc.len)
                    (same' ∙ same)))
            (λ e. ends same))

  pub get_desc_rw_size-Ends :
      (chain : ℕ) (g0 g : Guest lib D S) (queue_idx desc_idx : ℕ)
      → g.device ≡ g0.device
      → Ends (SameDevice {A = Option (ℕ × ℕ)} g0) (get_desc_rw_size chain g queue_idx desc_idx)
  unfolding get_desc_rw_size
  get_desc_rw_size-Ends chain g0 g queue_idx desc_idx same =
      then_desc _ g (get_desc g queue_idx desc_idx) _ (get_desc-SameDevice g queue_idx desc_idx)
        (λ d g' same'. read_sizes-Ends chain g0 g' queue_idx d 0 (same' ∙ same))
