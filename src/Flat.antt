-- ===== src/Flat.antt =====
-- A flat memory of bytes, as the machine wants its RAM: what the VMM is to behave like.
use esp32_tinyemu.Prelude.{ℕ, ◌+◌, ◌≤◌, List, [], ◌∷◌, Bytes, memcpy}

-- A client's call. `flush` asks for nothing that a client sees.
pub data Access : Type 0 where
  read : ℕ → Bytes → ℕ → Access
  write : ℕ → Bytes → ℕ → Access
  flush : Access

-- The bytes that a read puts into the client's buffer.
unfoldable pub flat_read : Bytes → ℕ → Bytes → ℕ → Bytes
flat_read m addr target len = memcpy target 0 m addr len

unfoldable pub flat_write : Bytes → ℕ → Bytes → ℕ → Bytes
flat_write m addr source len = memcpy m addr source 0 len

-- The buffers that the reads fill, in order, and the memory at the end.
unfoldable pub flat_run : Bytes → List Access → List Bytes × Bytes
flat_run m [] = ([], m)
flat_run m (read addr target len ∷ calls) =
    let (outs, m') = flat_run m calls in (flat_read m addr target len ∷ outs, m')
flat_run m (write addr source len ∷ calls) = flat_run (flat_write m addr source len) calls
flat_run m (flush ∷ calls) = flat_run m calls

-- Every access stays below `limit`.
abbrev pub AllWithin : ℕ → List Access → Type 0
AllWithin limit [] = Unit
AllWithin limit (read addr target len ∷ calls) = (addr + len ≤ limit) × AllWithin limit calls
AllWithin limit (write addr source len ∷ calls) = (addr + len ≤ limit) × AllWithin limit calls
AllWithin limit (flush ∷ calls) = AllWithin limit calls
