-- ===== src/Tests/Logs.antt =====
-- The log at concrete inputs: a segment whose file is open on the memory disk.
use lbd.Prelude.{
  ℕ, ◌+◌, ◌*◌, ◌/◌, ◌^◌, ◌≤◌, ◌<◌, ◌≡◌, ◌≢◌, refl, sym, ap, ◌⊎◌, inl, inr, Bool, true, false, List,
  [], ◌∷◌, ◌++◌, Option, none, some, arith, length,
}
use lbd.Qcow2.State.{M, ok}
use lbd.Qcow2.Read.{MissAction, continue}
use lbd.Cbor.Items.Laws.{items_bytes}
use lbd.Ctl.Watcher.{watcher_alloc}
use lbd.Ctl.Watcher.Queue.{watcher_alloc-IsRing}
use lbd.Log.{Log, LbdDevice, LogKernel, opened}
use lbd.Log.Entry.{write_items}
use lbd.Log.Buffer.{log_buf_append}
use lbd.Log.Buffer.Stream.{LogDisk, Appended, NotOpened, log_buf_append-stream}
use lbd.Log.Segment.{rotate_segment}
use lbd.Log.Segment.Rotate.{Rotated, rotate_segment-Rotated}
use lbd.Log.Request.{read_op, handle_request, log_write_entry}
use lbd.Log.Request.Entries.{Logged, Ready}
use lbd.Log.Request.Replies.{log_write_entry-Logged}
use lbd.Log.Request.Dispatch.{beside, handle_request-Failed}
use lbd.Tests.{memory_kernel, memory_disk, a_device}

-- Every file is the one of the memory disk, and opening it empties it.
abbrev memory_log : LogKernel memory_kernel
memory_log = record {
  file_open_root = λ name w. (opened tt, (λ a. 0, 0));
  i_size_read = λ f w. w.1;
  vfs_fsync = λ f w. (none, w);
  rename_file = λ f name w. (none, w);
  ktime_get_real_ts64 = λ w. (1700000000, 5);
  ktime_get_real_ns = λ w. 42;
  crc32 = λ bs. 7;
  fallocate = none;
}

memory_log_disk : LogDisk memory_disk memory_log
unfolding memory_disk
memory_log_disk = record {
  size_read = λ f w. refl;
  append_size = λ f bs w. ground arith;
  open_truncates = λ name w w' f h. sym (ap (λ p. p.1.1) h);
  fsync_keeps = λ f w. refl;
  rename_keeps = λ f name w. refl;
}

-- A device whose log has the file open, and one byte in the buffer.
abbrev a_log_device : LbdDevice memory_kernel
a_log_device = record {
  core = a_device;
  is_qcow2 = true;
  log = record {
    index = 3;
    size = 1048576;
    backing_path = 47 ∷ 98 ∷ [];
    log_dir = 47 ∷ [];
    log_file = some tt;
    log_buf = 165 ∷ [];
    log_has_entries = true;
    log_seq = 8;
    log_segment_label = 52 ∷ [];
    log_max_size = 1000000;
  };
  io = record { writes = 0; write_bytes = 0; trims = 0; trim_bytes = 0; log_rotations = 0 };
  watchers = watcher_alloc 3 ∷ [];
}

a_log_device-Ready : Ready memory_log_disk a_log_device
a_log_device-Ready = record {
  rings = (watcher_alloc-IsRing 3, tt);
  sized = omega arith;
  path = omega arith;
}

abbrev no_miss : ℕ → M memory_kernel MissAction
no_miss cluster d = (ok continue, d)

log_buf_append-stream_example :
    Appended memory_log_disk
      (1 ∷ 2 ∷ [])
      a_log_device
      (log_buf_append memory_log (1 ∷ 2 ∷ []) a_log_device)
    ⊎ NotOpened memory_log_disk a_log_device (log_buf_append memory_log (1 ∷ 2 ∷ []) a_log_device)
log_buf_append-stream_example =
    log_buf_append-stream memory_log_disk (1 ∷ 2 ∷ []) a_log_device (omega arith)

rotate_segment-Rotated_example :
    Rotated memory_disk memory_log a_log_device (rotate_segment memory_log a_log_device)
rotate_segment-Rotated_example =
    rotate_segment-Rotated memory_log_disk a_log_device refl
      (λ e. omega (
        arith,
        lbd.Prelude.length-append (lbd.Log.Buffer.Stream.file_bytes memory_disk tt a_device.world)
            (165 ∷ []),
        ap length e,
      ))
      (watcher_alloc-IsRing 3, tt) (omega arith) (omega arith)

log_write_entry-Logged_example :
    Logged memory_log_disk
      (items_bytes (write_items 42 8 1 2 7 1) ++ (9 ∷ []))
      a_log_device
      (log_write_entry memory_log 8 (1 ∷ 2 ∷ []) (9 ∷ []) a_log_device)
log_write_entry-Logged_example =
    log_write_entry-Logged memory_log_disk 8 (1 ∷ 2 ∷ []) (9 ∷ []) a_log_device (omega arith)
      (omega arith) (omega arith) (omega arith) (omega arith) (omega arith) (omega arith)
      a_log_device-Ready

handle_request-Failed_example :
    beside (handle_request memory_log no_miss (read_op 0 (1 ∷ [])) a_log_device).1
    ≡ beside a_log_device
handle_request-Failed_example =
    handle_request-Failed memory_log no_miss (read_op 0 (1 ∷ [])) a_log_device (inr tt)
