-- ===== src/Virtio/Links.antt =====
-- The chains of descriptors that the loops of `get_desc_rw_size` do not come to the end of.
use esp32_tinyemu.Prelude.{
  ℕ, zero, suc, ◌≡◌, Bool, true, false, ◌==◌, Option, none, some, arith, refl, bit, size_add,
}
use esp32_tinyemu.LruCache.NodeList.{Libraries}
use esp32_tinyemu.Virtio.{VirtioDesc, Guest}
use esp32_tinyemu.Virtio.Memory.{
  vring_desc_f_next, vring_desc_f_write, Outcome, returned, aborted, chain_unended, unended,
  get_desc, write_sizes, read_sizes, get_desc_rw_size,
}

-- An outcome that is a chain without an end only with the evidence `E`.
pub data Endless (E : Type 0) {A : Type 0} : Outcome A → Type 0 where
  in_order : {x : A} → Endless E (returned x)
  broken : Endless E aborted
  many : Endless E unended
  endless : E → Endless E chain_unended

pub get_endless : {E A : Type 0} → Endless E {A = A} chain_unended → E
get_endless (endless e) = e

Endless-test :
    {E A : Type 0} (c : Bool) {x y : Outcome A}
    → (c ≡ true → Endless E y)
    → (c ≡ false → Endless E x)
    → Endless E (elim c [ false ↦ x | true ↦ y ])
Endless-test true p q = p refl
Endless-test false p q = q refl

Endless-weaken : {E F A : Type 0} {o : Outcome A} → Endless E o → (E → F) → Endless F o
Endless-weaken in_order h = in_order
Endless-weaken broken h = broken
Endless-weaken many h = many
Endless-weaken (endless e) h = endless (h e)

module _ {lib : Libraries} {D S : Type 0} where
  -- A chain goes on from a descriptor over a number of links.
  pub data Follows (queue_idx : ℕ) : ℕ → Guest lib D S → VirtioDesc → Type 0 where
    no_link : {g : Guest lib D S} {desc : VirtioDesc} → Follows queue_idx zero g desc
    one_link :
        {n : ℕ} {g g' : Guest lib D S} {desc desc' : VirtioDesc}
        → bit desc.flags vring_desc_f_next ≡ 1
        → get_desc g queue_idx desc.next ≡ some (desc', g')
        → Follows queue_idx n g' desc'
        → Follows queue_idx (suc n) g desc

  linked :
      {A : Type 0} (n : ℕ) (g : Guest lib D S) (queue_idx : ℕ) (desc : VirtioDesc)
      (o : Option (VirtioDesc × Guest lib D S)) (k : VirtioDesc → Guest lib D S → Outcome A)
      → (bit desc.flags vring_desc_f_next == 1) ≡ true
      → get_desc g queue_idx desc.next ≡ o
      → ((d : VirtioDesc) (g' : Guest lib D S) → Endless (Follows queue_idx n g' d) (k d g'))
      → Endless
          (Follows queue_idx (suc n) g desc)
          (elim o [ none ↦ aborted | some (d, g') ↦ k d g' ])
  linked n g queue_idx desc none k next e rest = broken
  linked n g queue_idx desc (some (d, g')) k next e rest =
      Endless-weaken (rest d g') (λ f. one_link (ground (arith, next)) e f)

  write_sizes-Endless :
      (chain : ℕ) (g : Guest lib D S) (queue_idx : ℕ) (desc : VirtioDesc) (read_size write_size : ℕ)
      → Endless
          (Follows queue_idx chain g desc)
          (write_sizes chain g queue_idx desc read_size write_size)
  unfolding write_sizes
  write_sizes-Endless zero g queue_idx desc read_size write_size = endless no_link
  write_sizes-Endless (suc chain) g queue_idx desc read_size write_size =
      Endless-test (bit desc.flags vring_desc_f_write == 1)
        (λ w.
          Endless-test (bit desc.flags vring_desc_f_next == 1)
            (λ next.
              linked chain g queue_idx desc (get_desc g queue_idx desc.next) _ next refl (λ d g'.
                write_sizes-Endless chain g' queue_idx d read_size (size_add write_size desc.len)))
            (λ next. in_order))
        (λ w. in_order)

  read_sizes-Endless :
      (chain : ℕ) (g : Guest lib D S) (queue_idx : ℕ) (desc : VirtioDesc) (read_size : ℕ)
      → Endless (Follows queue_idx chain g desc) (read_sizes chain g queue_idx desc read_size)
  unfolding read_sizes
  read_sizes-Endless zero g queue_idx desc read_size = endless no_link
  read_sizes-Endless (suc chain) g queue_idx desc read_size =
      Endless-test (bit desc.flags vring_desc_f_write == 1)
        (λ w. write_sizes-Endless (suc chain) g queue_idx desc read_size 0)
        (λ w.
          Endless-test (bit desc.flags vring_desc_f_next == 1)
            (λ next.
              linked chain g queue_idx desc (get_desc g queue_idx desc.next) _ next refl
                (λ d g'. read_sizes-Endless chain g' queue_idx d (size_add read_size desc.len)))
            (λ next. in_order))

  -- A chain from the descriptor `desc_idx` that has a number of links, at least.
  pub record LongChain (chain : ℕ) (g : Guest lib D S) (queue_idx desc_idx : ℕ) : Type 0 where
    pub desc : VirtioDesc
    pub guest : Guest lib D S
    pub found : get_desc g queue_idx desc_idx ≡ some (desc, guest)
    pub links : Follows queue_idx chain guest desc

  pub get_desc_rw_size-Endless :
      (chain : ℕ) (g : Guest lib D S) (queue_idx desc_idx : ℕ)
      → Endless (LongChain chain g queue_idx desc_idx) (get_desc_rw_size chain g queue_idx desc_idx)
  unfolding get_desc_rw_size
  get_desc_rw_size-Endless chain g queue_idx desc_idx = after (get_desc g queue_idx desc_idx) refl
    where
      after :
          (o : Option (VirtioDesc × Guest lib D S))
          → get_desc g queue_idx desc_idx ≡ o
          → Endless
              (LongChain chain g queue_idx desc_idx)
              (elim o [ none ↦ aborted | some (desc, g') ↦ read_sizes chain g' queue_idx desc 0 ])
      after none e = broken
      after (some (d, g')) e =
          Endless-weaken (read_sizes-Endless chain g' queue_idx d 0)
            (λ f. record { desc = d; guest = g'; found = e; links = f })
