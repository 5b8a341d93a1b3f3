-- ===== src/Virtio/Notify.antt =====
-- A notification handles the requests of its queue and ends.
use esp32_tinyemu.Prelude.{
  ℕ, ◌+◌, ◌*◌, ◌%◌, ◌^◌, ◌≡◌, ◌≢◌, Bool, true, false, none, some, size_sub, word_and,
}
use esp32_tinyemu.LruCache.NodeList.{Libraries}
use esp32_tinyemu.Virtio.{Guest}
use esp32_tinyemu.Virtio.Memory.{
  address, Outcome, returned, aborted, chain_unended, virtio_read16, get_desc_rw_size, DeviceRecv,
  advance,
}
use esp32_tinyemu.Virtio.Links.{LongChain}

abbrev pub index : {lib : Libraries} {D S : Type 0} → Guest lib D S → ℕ → ℕ
index g queue_idx = (g.device.queue queue_idx).last_avail_idx

-- A device leaves the index of the last request alone.
abbrev pub KeepsIndex : {lib : Libraries} {D S : Type 0} → DeviceRecv lib D S → Type 0
KeepsIndex {lib} {D} {S} recv =
    (g : Guest lib D S) (queue_idx desc_idx read_size write_size : ℕ)
    → index (recv g queue_idx desc_idx read_size write_size).1 queue_idx ≡ index g queue_idx

module _ {lib : Libraries} {D S : Type 0} (recv : DeviceRecv lib D S) (keeps : KeepsIndex recv)
    (chain : ℕ) where
  -- The address of the next entry of the available ring.
  abbrev pub slot : Guest lib D S → ℕ → ℕ
  slot g queue_idx =
      let qs = g.device.queue queue_idx in
      address (qs.avail_addr + 4 + word_and qs.last_avail_idx (size_sub qs.num 1) * 2)

  -- What becomes of the next request. Its descriptor is read from the ring and its chain is followed;
  -- a chain that is in order is handed to the device with the sizes found, and the index goes on
  -- unless the device refuses it. One that is not in order is passed over, and one that goes on over
  -- `chain` links, as a cycle does, is not followed further.
  pub data Requests (g : Guest lib D S) (queue_idx : ℕ)
      : Outcome (Bool × Guest lib D S) → Type 0 where
    no_entry : virtio_read16 g (slot g queue_idx) ≡ none → Requests g queue_idx aborted
    no_descriptor :
        (desc_idx : ℕ) (g1 : Guest lib D S)
        → virtio_read16 g (slot g queue_idx) ≡ some (desc_idx, g1)
        → get_desc_rw_size chain g1 queue_idx desc_idx ≡ aborted
        → Requests g queue_idx aborted
    no_end :
        (desc_idx : ℕ) (g1 : Guest lib D S)
        → virtio_read16 g (slot g queue_idx) ≡ some (desc_idx, g1)
        → get_desc_rw_size chain g1 queue_idx desc_idx ≡ chain_unended
        → LongChain chain g1 queue_idx desc_idx
        → Requests g queue_idx chain_unended
    passed_over :
        (desc_idx : ℕ) (g1 g2 : Guest lib D S)
        → virtio_read16 g (slot g queue_idx) ≡ some (desc_idx, g1)
        → get_desc_rw_size chain g1 queue_idx desc_idx ≡ returned (none, g2)
        → Requests g queue_idx (returned (true, advance recv chain g2 queue_idx))
    accepted :
        (desc_idx read_size write_size : ℕ) (g1 g2 g3 : Guest lib D S)
        → virtio_read16 g (slot g queue_idx) ≡ some (desc_idx, g1)
        → get_desc_rw_size chain g1 queue_idx desc_idx ≡ returned (some (read_size, write_size), g2)
        → recv g2 queue_idx desc_idx read_size write_size ≡ (false, g3)
        → Requests g queue_idx (returned (true, advance recv chain g3 queue_idx))
    refused :
        (desc_idx read_size write_size : ℕ) (g1 g2 g3 : Guest lib D S)
        → virtio_read16 g (slot g queue_idx) ≡ some (desc_idx, g1)
        → get_desc_rw_size chain g1 queue_idx desc_idx ≡ returned (some (read_size, write_size), g2)
        → recv g2 queue_idx desc_idx read_size write_size ≡ (true, g3)
        → Requests g queue_idx (returned (false, g3))

  -- The requests up to an index, one after the other: until the index is reached, the device refuses
  -- one, an assertion fails, or a chain has no end.
  pub data Serving (queue_idx avail_idx : ℕ)
      : Guest lib D S → Outcome (Guest lib D S) → Type 0 where
    all_done :
        {g : Guest lib D S}
        → index g queue_idx ≡ avail_idx
        → Serving queue_idx avail_idx g (returned g)
    one_done :
        {g g' : Guest lib D S} {o : Outcome (Guest lib D S)}
        → index g queue_idx ≢ avail_idx
        → Requests g queue_idx (returned (true, g'))
        → index g' queue_idx ≡ (index g queue_idx + 1) % 2 ^ 16
        → Serving queue_idx avail_idx g' o
        → Serving queue_idx avail_idx g o
    one_refused :
        {g g' : Guest lib D S}
        → index g queue_idx ≢ avail_idx
        → Requests g queue_idx (returned (false, g'))
        → Serving queue_idx avail_idx g (returned g')
    one_aborted :
        {g : Guest lib D S}
        → index g queue_idx ≢ avail_idx
        → Requests g queue_idx aborted
        → Serving queue_idx avail_idx g aborted
    one_endless :
        {g : Guest lib D S}
        → index g queue_idx ≢ avail_idx
        → Requests g queue_idx chain_unended
        → Serving queue_idx avail_idx g chain_unended

  -- A notification: the index of the available ring is read, and the requests up to it are served.
  pub data Notified (g : Guest lib D S) (queue_idx : ℕ) : Outcome (Guest lib D S) → Type 0 where
    no_index :
        virtio_read16 g (address ((g.device.queue queue_idx).avail_addr + 2)) ≡ none
        → Notified g queue_idx aborted
    notified :
        {o : Outcome (Guest lib D S)} (avail_idx : ℕ) (g1 : Guest lib D S)
        → virtio_read16 g (address ((g.device.queue queue_idx).avail_addr + 2))
          ≡ some (avail_idx, g1)
        → Serving queue_idx avail_idx g1 o
        → Notified g queue_idx o

  -- After a request that is done.
  abbrev Next : Guest lib D S → ℕ → Bool × Guest lib D S → Type 0
  Next g queue_idx r = r.0 ≡ true → index r.1 queue_idx ≡ (index g queue_idx + 1) % 2 ^ 16
