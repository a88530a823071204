-- ===== src/Kernel.antt =====
-- What src/lbd_qcow2.c calls and does not implement: the kernel's files and memory, `crc32c`, and
-- the LZ4 functions of the vendored copy under src/lz4. They are a parameter of every definition.
use lbd.Prelude.{ℕ, Bool, List}

-- The error codes that the driver returns by name, and those that it passes on.
pub data Errno : Type 0 where
  eio enomem enospc einval enodata ebusy enodev efault : Errno
  other : ℕ → Errno

-- The `ssize_t` of a read with the bytes that arrived, and that of a write.
pub data ReadRet : Type 0 where
  got : List ℕ → ReadRet
  read_failed : Errno → ReadRet

pub data WriteRet : Type 0 where
  wrote : ℕ → WriteRet
  write_failed : Errno → WriteRet

-- What a call for a file returns: an `ERR_PTR`, or the file.
pub data Opened (F : Type 0) : Type 0 where
  not_opened : Errno → Opened F
  opened : F → Opened F

-- `LZ4_decompress_safe`: the bytes stored, with the length as result, or with a negative result.
pub data Lz4Ret : Type 0 where
  decoded : List ℕ → Lz4Ret
  malformed : List ℕ → Lz4Ret

pub record Kernel : Type 1 where
  pub World : Type 0
  pub File : Type 0
  -- Whether the kernel gives so many bytes.
  pub kvmalloc : ℕ → World → Bool × World
  -- `kernel_read(file, buf, count, &pos)`, in the order file, count, position.
  pub kernel_read : File → ℕ → ℕ → World → ReadRet × World
  -- `kernel_write(file, buf, count, &pos)` of the bytes in the list.
  pub kernel_write : File → List ℕ → ℕ → World → WriteRet × World
  -- `crc32c(seed, buf, len)`
  pub crc32c : ℕ → List ℕ → ℕ
  pub lz4_compress_bound : ℕ → ℕ
  -- The compressed bytes; none at all stands for the result 0. The second argument is the capacity.
  pub lz4_compress : List ℕ → ℕ → List ℕ
  -- Source and capacity.
  pub lz4_decompress_safe : List ℕ → ℕ → Lz4Ret
