-- ===== src/Virtio/Keeps.antt =====
-- A write of a register keeps the invariant, the notification of a queue included.
use esp32_tinyemu.Prelude.{
  ℕ, ◌^◌, zero, suc, ◌-◌, ◌<◌, ◌≡◌, Bool, true, false, ◌==◌, if◌then◌else◌, ltb, leb, Option, none,
  some, arith, refl, sym, subst, Always, present,
}
use esp32_tinyemu.LruCache.NodeList.{Libraries}
use esp32_tinyemu.Virtio.{max_queue, VirtioDevice, Guest}
use esp32_tinyemu.Virtio.Memory.{
  get_desc_rw_size, Outcome, returned, aborted, chain_unended, unended, virtio_read16, DeviceRecv,
  advance, request, notify_loop, queue_notify,
}
use esp32_tinyemu.Virtio.Chains.{
  Ends, ends, SameDevice, virtio_read16-SameDevice, get_desc_rw_size-Ends,
}
use esp32_tinyemu.Virtio.Registers.{virtio_config_write, configured, virtio_mmio_write}
use esp32_tinyemu.Virtio.Sound.{
  IsSound, put_queue-IsSound, device_register-IsSound, config_write-IsSound,
}

-- Where a function has returned, its result has the property.
pub data Keeps {A : Type 0} (P : A → Type 0) : Outcome A → Type 0 where
  kept : {x : A} → P x → Keeps P (returned x)
  kept_aborted : Keeps P aborted
  kept_in_chain : Keeps P chain_unended
  kept_unended : Keeps P unended

Keeps-test :
    {A : Type 0} {P : A → Type 0} (c : Bool) {x y : Outcome A}
    → Keeps P x
    → Keeps P y
    → Keeps P (elim c [ false ↦ x | true ↦ y ])
Keeps-test true p q = q
Keeps-test false p q = p

Keeps-if :
    {A : Type 0} {P : A → Type 0} (c : Bool) {x y : Outcome A}
    → Keeps P x
    → Keeps P y
    → Keeps P (if c then x else y)
Keeps-if true p q = p
Keeps-if false p q = q

abbrev pub SoundGuest : {lib : Libraries} {D S : Type 0} → Guest lib D S → Type 0
SoundGuest g = IsSound g.device

-- What a device does with a request keeps the invariant.
abbrev pub RecvKeeps : {lib : Libraries} {D S : Type 0} → DeviceRecv lib D S → Type 0
RecvKeeps {lib} {D} {S} recv =
    (g : Guest lib D S) (queue_idx desc_idx read_size write_size : ℕ)
    → SoundGuest g
    → SoundGuest (recv g queue_idx desc_idx read_size write_size).1

module _ {lib : Libraries} {D S : Type 0} (recv : DeviceRecv lib D S) (receives : RecvKeeps recv)
    (chain : ℕ) where
  same_sound : (g g' : Guest lib D S) → g'.device ≡ g.device → SoundGuest g → SoundGuest g'
  same_sound g g' same h = subst IsSound (sym same) h

  advance-SoundGuest :
      (g : Guest lib D S) (queue_idx : ℕ)
      → queue_idx < max_queue
      → SoundGuest g
      → SoundGuest (advance recv chain g queue_idx)
  advance-SoundGuest g queue_idx lt h =
      let q = h.queues queue_idx lt in
      put_queue-IsSound g.device queue_idx _ lt (record { power = q.power; flag = q.flag }) h

  abbrev SoundRest : Bool × Guest lib D S → Type 0
  SoundRest r = SoundGuest r.1

  received :
      (g : Guest lib D S) (queue_idx : ℕ) (stops : Bool)
      → queue_idx < max_queue
      → SoundGuest g
      → SoundRest (if stops then (false, g) else (true, advance recv chain g queue_idx))
  received g queue_idx true lt h = h
  received g queue_idx false lt h = advance-SoundGuest g queue_idx lt h

  after_sizes :
      (g : Guest lib D S) (queue_idx desc_idx : ℕ) (o : Outcome (Option (ℕ × ℕ) × Guest lib D S))
      → queue_idx < max_queue
      → SoundGuest g
      → Ends (SameDevice g) o
      → Keeps SoundRest (elim o [
        | returned (none, g2) ↦ returned (true, advance recv chain g2 queue_idx)
        | returned (some (read_size, write_size), g2) ↦
            let (stops, g3) = recv g2 queue_idx desc_idx read_size write_size in
            returned (if stops then (false, g3) else (true, advance recv chain g3 queue_idx))
        | aborted ↦ aborted
        | chain_unended ↦ chain_unended
        | unended ↦ unended
      ])
  after_sizes g queue_idx desc_idx (returned (none, g2)) lt h (ends same) =
      kept (advance-SoundGuest g2 queue_idx lt (same_sound g g2 same h))
  after_sizes g queue_idx desc_idx (returned (some (r, w), g2)) lt h (ends same) = kept (
      received (recv g2 queue_idx desc_idx r w).1 queue_idx (recv g2 queue_idx desc_idx r w).0 lt
        (receives g2 queue_idx desc_idx r w (same_sound g g2 same h)))
  after_sizes g queue_idx desc_idx aborted lt h e = kept_aborted
  after_sizes g queue_idx desc_idx chain_unended lt h e = kept_in_chain
  after_sizes g queue_idx desc_idx unended lt h e = kept_unended

  after_read :
      {A : Type 0} (P : A → Type 0) (g : Guest lib D S) (o : Option (ℕ × Guest lib D S))
      (k : ℕ → Guest lib D S → Outcome A)
      → Always (SameDevice g) o
      → ((v : ℕ) (g' : Guest lib D S) → g'.device ≡ g.device → Keeps P (k v g'))
      → Keeps P (elim o [ none ↦ aborted | some (v, g') ↦ k v g' ])
  after_read P g none k h rest = kept_aborted
  after_read P g (some (v, g')) k (present same) rest = rest v g' same

  request-Keeps :
      (g : Guest lib D S) (queue_idx : ℕ)
      → queue_idx < max_queue
      → SoundGuest g
      → Keeps SoundRest (request recv chain g queue_idx)
  unfolding request
  request-Keeps g queue_idx lt h =
      after_read SoundRest g (virtio_read16 g _) _ (virtio_read16-SameDevice g _)
        (λ desc_idx g1 same.
          after_sizes g queue_idx desc_idx (get_desc_rw_size chain g1 queue_idx desc_idx) lt h
            (get_desc_rw_size-Ends chain g g1 queue_idx desc_idx same))

  after_request :
      (fuel queue_idx avail_idx : ℕ) (o : Outcome (Bool × Guest lib D S))
      → Keeps SoundRest o
      → ((g' : Guest lib D S)
          → SoundGuest g'
          → Keeps SoundGuest (notify_loop recv chain fuel g' queue_idx avail_idx))
      → Keeps SoundGuest (elim o [
        | returned (true, g') ↦ notify_loop recv chain fuel g' queue_idx avail_idx
        | returned (false, g') ↦ returned g'
        | aborted ↦ aborted
        | chain_unended ↦ chain_unended
        | unended ↦ unended
      ])
  after_request fuel queue_idx avail_idx (returned (true, g')) (kept h) rest = rest g' h
  after_request fuel queue_idx avail_idx (returned (false, g')) (kept h) rest = kept h
  after_request fuel queue_idx avail_idx aborted h rest = kept_aborted
  after_request fuel queue_idx avail_idx chain_unended h rest = kept_in_chain
  after_request fuel queue_idx avail_idx unended h rest = kept_unended

  loop-Keeps :
      (fuel : ℕ) (g : Guest lib D S) (queue_idx avail_idx : ℕ)
      → queue_idx < max_queue
      → SoundGuest g
      → Keeps SoundGuest (notify_loop recv chain fuel g queue_idx avail_idx)
  unfolding notify_loop
  loop-Keeps zero g queue_idx avail_idx lt h = kept_unended
  loop-Keeps (suc fuel) g queue_idx avail_idx lt h =
      Keeps-test ((g.device.queue queue_idx).last_avail_idx == avail_idx)
        (after_request fuel queue_idx avail_idx (request recv chain g queue_idx)
          (request-Keeps g queue_idx lt h) (λ g' h'. loop-Keeps fuel g' queue_idx avail_idx lt h'))
        (kept h)

  module _ (config_write : Guest lib D S → Guest lib D S)
      (configures : (g : Guest lib D S) → SoundGuest g → SoundGuest (config_write g))
      (manual_recv : ℕ → Bool) (fuel : ℕ) where
    notify-Keeps :
        (g : Guest lib D S) (queue_idx : ℕ)
        → queue_idx < max_queue
        → SoundGuest g
        → Keeps SoundGuest (queue_notify recv chain manual_recv fuel g queue_idx)
    unfolding queue_notify
    notify-Keeps g queue_idx lt h = Keeps-if (manual_recv queue_idx) (kept h) (
        after_read SoundGuest g (virtio_read16 g _) _ (virtio_read16-SameDevice g _)
          (λ avail_idx g' same. loop-Keeps fuel g' queue_idx avail_idx lt (same_sound g g' same h)))

    configured_lem :
        (g : Guest lib D S) (r : Bool × VirtioDevice)
        → IsSound r.1
        → SoundGuest (configured recv config_write manual_recv chain fuel g r)
    configured_lem g (true, s) h = configures (record g { device = s }) h
    configured_lem g (false, s) h = h

    -- Where a write of a word to the registers or the configuration of a device returns, notifications
    -- of its queues included, it has kept: the selected queue is one of the eight; the number of
    -- descriptors of each queue is a power of two, and the queue's ready flag is 0 or 1; the line of
    -- the interrupt is high just while an interrupt is pending. It is supposed that the device's own
    -- functions keep that.
    pub virtio_mmio_write-Keeps :
        (g : Guest lib D S) (offset val size_log2 : ℕ)
        → val < 2 ^ 32
        → SoundGuest g
        → Keeps SoundGuest
            (virtio_mmio_write recv config_write manual_recv chain fuel g offset val size_log2)
    unfolding virtio_mmio_write
    virtio_mmio_write-Keeps g offset val size_log2 lv h =
        Keeps-if (leb 0x100 offset)
          (kept (
            configured_lem g (virtio_config_write g.device (offset - 0x100) val size_log2)
              (config_write-IsSound g.device (offset - 0x100) val size_log2 h)))
          (Keeps-if (size_log2 == 2)
            (Keeps-if (offset == 0x050) (notifies (ltb val max_queue) refl)
              (kept (device_register-IsSound g.device offset val lv h)))
            (kept h))
      where
        notifies :
            (c : Bool)
            → ltb val max_queue ≡ c
            → Keeps SoundGuest
                (if c then queue_notify recv chain manual_recv fuel g val else returned g)
        notifies true e = notify-Keeps g val (ground (arith, e)) h
        notifies false e = kept h
