-- ===== src/Log.antt =====
-- The log of a device in src/lbd_main.c: a buffer of CBOR records in memory, the segment file behind
-- it, and the device with its log. `log_buf` is the used part of the buffer of `LBD_LOG_BUF_SIZE`
-- bytes, and `log_buf_used` is its length. An `int` result is an error or none.
pub mod Name
pub mod Entry
pub mod Buffer
pub mod Segment
pub mod Request
use lbd.Prelude.{
  ℕ, ◌+◌, ◌*◌, Bool, List, [], ◌++◌, Option, none, some, ltb, ◌==◌, if◌then◌else◌, length,
}
pub use lbd.Kernel.{Opened, opened, not_opened}
use lbd.Kernel.{Kernel, Errno, eio, WriteRet, wrote, write_failed}
use lbd.Qcow2.State.{Device}
use lbd.Ctl.Watcher.{Watcher}

abbrev pub log_buf_size : ℕ
log_buf_size = 5 * 1024 * 1024

-- The calls of the log that are not under src: the file system and the clock.
pub record LogKernel (k : Kernel) : Type 0 where
  -- `file_open_root(&dev->log_dir_path, name, O_RDWR | O_CREAT | O_TRUNC | O_LARGEFILE, 0600)`
  pub file_open_root : List ℕ → k.World → Opened k.File × k.World
  -- `i_size_read(file_inode(f))`
  pub i_size_read : k.File → k.World → ℕ
  pub vfs_fsync : k.File → k.World → Option Errno × k.World
  -- `lbd_rename_file`, which is nothing but calls of the file system.
  pub rename_file : k.File → List ℕ → k.World → Option Errno × k.World
  -- `ktime_get_real_ts64`: seconds and nanoseconds; `ktime_get_real_ns`.
  pub ktime_get_real_ts64 : k.World → ℕ × ℕ
  pub ktime_get_real_ns : k.World → ℕ
  -- `crc32(~0U, data, len) ^ ~0U`
  pub crc32 : List ℕ → ℕ
  -- `fallocate` of the backing file, if it has one: position and length.
  pub fallocate : Option (k.File → ℕ → ℕ → k.World → Option Errno × k.World)

-- The counters of `struct lbd_device` that the backing store does not touch.
pub record IoStats : Type 0 where
  pub writes : ℕ
  pub write_bytes : ℕ
  pub trims : ℕ
  pub trim_bytes : ℕ
  pub log_rotations : ℕ

module _ (k : Kernel) where
  -- The fields of `struct lbd_device` that the log uses; the strings are lists of bytes without NUL.
  pub record Log : Type 0 where
    pub index : ℕ
    pub size : ℕ
    pub backing_path : List ℕ
    pub log_dir : List ℕ
    pub log_file : Option k.File
    pub log_buf : List ℕ
    pub log_has_entries : Bool
    pub log_seq : ℕ
    pub log_segment_label : List ℕ
    pub log_max_size : ℕ

  -- A device with its log, and the list `lbd_watchers`.
  pub record LbdDevice : Type 0 where
    pub core : Device k
    pub is_qcow2 : Bool
    pub log : Log
    pub io : IoStats
    pub watchers : List Watcher

module _ {k : Kernel} where
  abbrev pub set_world : k.World → LbdDevice k → LbdDevice k
  set_world w d = record d { core = record (d.core) { world = w } }

  abbrev pub set_log : Log k → LbdDevice k → LbdDevice k
  set_log l d = record d { log = l }

  abbrev pub no_buffer : LbdDevice k → LbdDevice k
  no_buffer d = set_log (record (d.log) { log_buf = [] }) d

-- `if (ret != used) return ret < 0 ? ret : -EIO;`
abbrev pub write_error : ℕ → WriteRet → Option Errno
write_error n (wrote m) = if m == n then none else some eio
write_error n (write_failed e) = some e
