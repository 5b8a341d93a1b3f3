-- ===== src/Prelude/Memory.antt =====
-- Memory as a function from offsets to bytes, with `memcpy` and `memset`, and a stdio file.
use Prim.Native.Nat.{ℕ, ◌+◌, ◌-◌, min, max}
use mathlib.Core.Bool.{◌&&◌}
use esp32_tinyemu.Prelude.Tests.{ltb, leb, if◌then◌else◌}

abbrev pub Bytes : Type 0
Bytes = ℕ → ℕ

-- memcpy(dst + dst_off, src + src_off, len)
unfoldable pub memcpy : Bytes → ℕ → Bytes → ℕ → ℕ → Bytes
memcpy dst dst_off src src_off len a =
    if leb dst_off a && ltb a (dst_off + len) then src (src_off + (a - dst_off)) else dst a

-- memset(dst, value, len)
unfoldable pub memset : Bytes → ℕ → ℕ → Bytes
memset dst value len a = if ltb a len then value else dst a

-- The contents of a file opened for reading and writing in binary mode.
pub record File : Type 0 where
  pub size : ℕ
  pub content : Bytes

-- fseek(f, pos, SEEK_SET) and fwrite(buf, 1, len, f): the bytes are stored and the file grows to
-- hold them.
unfoldable pub file_write : File → ℕ → Bytes → ℕ → File
unfolding memcpy
file_write f pos buf len = record {
  size = max f.size (pos + len);
  content = memcpy f.content pos buf 0 len;
}

-- How many bytes fread delivers at `pos`.
unfoldable pub file_available : File → ℕ → ℕ → ℕ
file_available f pos len = min len (f.size - pos)

-- fseek(f, pos, SEEK_SET) and fread(buf, 1, len, f): a short read leaves the rest of `buf` alone.
unfoldable pub file_read : File → ℕ → Bytes → ℕ → ℕ × Bytes
unfolding memcpy file_available
file_read f pos buf len =
    (file_available f pos len, memcpy buf 0 f.content pos (file_available f pos len))
