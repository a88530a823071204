-- ===== src/Log/Segment.antt =====
-- The segments of the log: the header of a segment, beginning one, rotating, and the end of the log.
-- `log_rotate_dwork`, the timer of the age of a segment, only decides when `log_rotate_work_fn` runs.
pub mod Begin
pub mod Rotate
use lbd.Prelude.{
  ℕ, ◌+◌, ◌%◌, ◌^◌, Bool, true, false, List, [], Option, none, some, leb, if◌then◌else◌, length,
}
use lbd.Kernel.{Kernel, Errno, enospc}
use lbd.Qcow2.State.{inc64}
use lbd.Ctl.Watcher.{WatcherEvent, notify_watchers}
use lbd.Cbor.Items.{encode}
use lbd.Log.{Log, IoStats, LbdDevice, LogKernel, set_world, set_log}
use lbd.Log.Name.{tai64n_label, log_name_final}
use lbd.Log.Entry.{header_items}
use lbd.Log.Buffer.{log_flush, log_buf_append}

module _ {k : Kernel} (lk : LogKernel k) where
  unfoldable pub write_log_header : LbdDevice k → Option Errno × LbdDevice k
  unfolding log_buf_append header_items encode
  write_log_header d =
      elim (encode 512 (header_items d.log.log_segment_label d.log.size d.log.backing_path)) [
        | none ↦ (some enospc, d)
        | some bytes ↦ log_buf_append lk bytes d
      ]

  -- The state of a segment that has neither a file nor a byte.
  unfoldable pub fresh_segment : LbdDevice k → LbdDevice k
  unfolding tai64n_label
  fresh_segment d =
      let (secs, nsec) = lk.ktime_get_real_ts64 d.core.world in
      set_log
        (record (d.log) {
          log_file = none;
          log_buf = [];
          log_has_entries = false;
          log_segment_label = tai64n_label secs nsec;
        })
        d

  unfoldable pub begin_segment : LbdDevice k → LbdDevice k
  unfolding fresh_segment write_log_header
  begin_segment d = (write_log_header (fresh_segment d)).1

  -- `lbd_notify_watchers` of this device.
  abbrev pub event_of : LbdDevice k → WatcherEvent
  event_of d = record {
    dev_index = d.log.index;
    log_seq = d.log.log_seq;
    device_size = d.log.size;
    segment_label = d.log.log_segment_label;
    log_dir = d.log.log_dir;
  }

  abbrev pub notify : LbdDevice k → LbdDevice k
  notify d = record d { watchers = notify_watchers (event_of d) d.watchers }

  -- `disk.<label>.log.tmp` becomes `disk.<label>.log`; errors are only reported.
  unfoldable pub rename_segment : k.File → LbdDevice k → LbdDevice k
  unfolding log_name_final
  rename_segment f d =
      set_world (lk.rename_file f (log_name_final d.log.log_segment_label) d.core.world).1 d

  unfoldable pub sync_segment : k.File → LbdDevice k → LbdDevice k
  sync_segment f d = set_world (lk.vfs_fsync f d.core.world).1 d

  abbrev pub put_file : LbdDevice k → LbdDevice k
  put_file d = set_log (record (d.log) { log_file = none }) d

  -- What `lbd_rotate_segment` does with the file of the segment, if there is one.
  unfoldable pub close_segment : LbdDevice k → LbdDevice k
  unfolding sync_segment rename_segment
  close_segment d = elim d.log.log_file [
    | none ↦ d
    | some f ↦ put_file (rename_segment f (sync_segment f d))
  ]

  -- From the label `next` on.
  unfoldable pub next_segment : LbdDevice k → LbdDevice k
  unfolding begin_segment notify_watchers
  next_segment d =
      begin_segment
        (notify (record d { io = record (d.io) { log_rotations = inc64 d.io.log_rotations } }))

  unfoldable pub rotate_segment : LbdDevice k → LbdDevice k
  unfolding log_flush close_segment next_segment
  rotate_segment d =
      if d.log.log_has_entries then next_segment (close_segment (log_flush lk d).1) else d

  unfoldable pub log_rotate_work_fn : LbdDevice k → LbdDevice k
  unfolding rotate_segment
  log_rotate_work_fn d = if d.log.log_has_entries then rotate_segment d else d

  abbrev pub file_size : LbdDevice k → ℕ
  file_size d = elim d.log.log_file [ none ↦ 0 | some f ↦ lk.i_size_read f d.core.world ]

  unfoldable pub maybe_rotate_segment : LbdDevice k → LbdDevice k
  unfolding rotate_segment
  maybe_rotate_segment d =
      if leb d.log.log_max_size (file_size d + length d.log.log_buf) then rotate_segment d else d

  -- The file at the end of the log: a segment without entries keeps its temporary name.
  unfoldable pub finish_file : k.File → LbdDevice k → LbdDevice k
  unfolding sync_segment rename_segment notify_watchers
  finish_file f d =
      let synced = sync_segment f d in
      put_file (if d.log.log_has_entries then notify (rename_segment f synced) else synced)

  unfoldable pub finalize_log : LbdDevice k → LbdDevice k
  unfolding log_flush finish_file
  finalize_log d =
      let flushed = if d.log.log_has_entries then (log_flush lk d).1 else d in
      elim flushed.log.log_file [ none ↦ flushed | some f ↦ finish_file f flushed ]
