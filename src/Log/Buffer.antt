-- ===== src/Log/Buffer.antt =====
-- The write buffer of the log: `lbd_log_flush` and `lbd_log_buf_append`.
pub mod Frame
pub mod Stream
use lbd.Prelude.{
  ℕ, ◌+◌, List, [], ◌∷◌, ◌++◌, Option, none, some, true, false, ltb, ◌==◌, if◌then◌else◌, length,
}
use lbd.Kernel.{Kernel, Errno}
use lbd.Log.{
  Log, LbdDevice, LogKernel, Opened, not_opened, opened, log_buf_size, set_world, set_log,
  no_buffer, write_error,
}
use lbd.Log.Name.{log_name_tmp}

module _ {k : Kernel} (lk : LogKernel k) where
  -- The file is created on the first flush of its segment.
  unfoldable pub open_log_file : LbdDevice k → Option Errno × LbdDevice k
  open_log_file d =
      let (r, w) = lk.file_open_root (log_name_tmp d.log.log_segment_label) d.core.world in
      elim r [
        | not_opened e ↦ (some e, set_world w d)
        | opened f ↦ (none, set_log (record (d.log) { log_file = some f }) (set_world w d))
      ]

  -- The buffer goes to the end of the file, and is empty afterwards in every case.
  unfoldable pub write_buffer : k.File → LbdDevice k → Option Errno × LbdDevice k
  write_buffer f d =
      let buf = d.log.log_buf in
      let (ret, w) = k.kernel_write f buf (lk.i_size_read f d.core.world) d.core.world in
      (write_error (length buf) ret, no_buffer (set_world w d))

  -- The file is open, or `lbd_open_log_file` returned.
  abbrev pub flush_opened : Option Errno × LbdDevice k → Option Errno × LbdDevice k
  flush_opened (some e, d) = (some e, no_buffer d)
  flush_opened (none, d) = elim d.log.log_file [ none ↦ (none, d) | some f ↦ write_buffer f d ]

  abbrev pub ensure_open : LbdDevice k → Option Errno × LbdDevice k
  ensure_open d = elim d.log.log_file [ none ↦ open_log_file d | some f ↦ (none, d) ]

  unfoldable pub log_flush : LbdDevice k → Option Errno × LbdDevice k
  unfolding open_log_file write_buffer
  log_flush d = if length d.log.log_buf == 0 then (none, d) else flush_opened (ensure_open d)

  abbrev pub append_to : List ℕ → LbdDevice k → LbdDevice k
  append_to bytes d = set_log (record (d.log) { log_buf = d.log.log_buf ++ bytes }) d

  -- A failed flush keeps the bytes out of the buffer.
  abbrev pub append_flushed : List ℕ → Option Errno × LbdDevice k → Option Errno × LbdDevice k
  append_flushed bytes (some e, d) = (some e, d)
  append_flushed bytes (none, d) = (none, append_to bytes d)

  unfoldable pub log_buf_append : List ℕ → LbdDevice k → Option Errno × LbdDevice k
  unfolding log_flush
  log_buf_append bytes d =
      if ltb log_buf_size (length d.log.log_buf + length bytes)
      then append_flushed bytes (log_flush d)
      else (none, append_to bytes d)
