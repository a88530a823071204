-- ===== src/Log/Request.antt =====
-- The handlers of a request in src/lbd_main.c: `lbd_do_read`, `lbd_do_write`, `lbd_do_discard`, the two
-- entries of the log, and `lbd_handle_request`. A request is its first sector with the lengths or the
-- contents of its segments; a sector number is so small that `pos` does not wrap.
pub mod Entries
pub mod Replies
pub mod Dispatch
use lbd.Prelude.{
  ℕ, ◌+◌, not, ◌*◌, ◌/◌, ◌%◌, ◌^◌, Bool, true, false, List, [], ◌∷◌, Option, none, some, ◌==◌,
  if◌then◌else◌, length,
}
use lbd.Kernel.{Kernel, Errno, eio, enomem, enospc, einval, enodata, ebusy, enodev, efault, other}
use lbd.Cbor.Items.{Item, encode}
use lbd.Qcow2.State.{
  Device, Outcome, ok, err, oops, M, pure, ◌>>=◌, ◌>>◌, read_all, write_all, set_stats, inc64,
  get_device,
}
use lbd.Qcow2.Read.{MissAction, qcow2_read, total}
use lbd.Qcow2.Store.{gather, qcow2_write, qcow2_discard}
use lbd.Log.{LbdDevice, IoStats, LogKernel, set_world, set_log}
use lbd.Log.Entry.{block_size, write_items, trim_items}
use lbd.Log.Buffer.{log_buf_append}
use lbd.Log.Segment.{maybe_rotate_segment, rotate_segment}

-- `req_op(rq)` with what the request carries.
pub data Request : Type 0 where
  read_op : (sector : ℕ) (lengths : List ℕ) → Request
  write_op : (sector : ℕ) (segments : List (List ℕ)) → Request
  discard_op : (sector bytes : ℕ) → Request
  flush_op other_op : Request

-- `-EOPNOTSUPP`
abbrev pub eopnotsupp : Errno
eopnotsupp = other 95

-- `ret != -EINVAL && ret != -EOPNOTSUPP`
abbrev pub punch_fails : Errno → Bool
punch_fails einval = false
punch_fails (other n) = not (n == 95)
punch_fails e = true

-- `cmd->ret`, with the bytes of a read.
pub data Reply : Type 0 where
  data_read : List (List ℕ) → Reply
  done : Reply
  failed : Errno → Reply
  crashed : Reply

module _ {k : Kernel} where
  abbrev pub with_core : {A : Type 0} → LbdDevice k → Outcome A × Device k → Outcome A × LbdDevice k
  with_core d (r, c) = (r, record d { core = c })

  -- A function of the backing store.
  abbrev pub on_core : {A : Type 0} → M k A → LbdDevice k → Outcome A × LbdDevice k
  on_core m d = with_core d (m d.core)

  -- What follows where there was no error.
  abbrev pub on_success :
      {A : Type 0} → (LbdDevice k → LbdDevice k) → Outcome A × LbdDevice k → Outcome A × LbdDevice k
  on_success f (ok a, d) = (ok a, f d)
  on_success f (err e, d) = (err e, d)
  on_success f (oops, d) = (oops, d)

  -- The loops over the segments of a request on a backing file that is not qcow2.
  unfoldable pub raw_read_segments : ℕ → List ℕ → M k (List (List ℕ))
  unfolding read_all
  raw_read_segments pos [] = pure []
  raw_read_segments pos (n ∷ ns) = do
    d ← get_device
    bytes ← read_all d.backing_file n pos
    rest ← raw_read_segments (pos + n) ns
    pure (bytes ∷ rest)

  unfoldable pub raw_write_segments : ℕ → List (List ℕ) → M k (Unit {0})
  unfolding write_all
  raw_write_segments pos [] = pure tt
  raw_write_segments pos (bytes ∷ segments) = do
    d ← get_device
    write_all d.backing_file bytes pos
    raw_write_segments (pos + length bytes) segments

  unfoldable pub raw_read : ℕ → List ℕ → M k (List (List ℕ))
  unfolding raw_read_segments
  raw_read sector lengths = do
    bytes ← raw_read_segments (sector * 512) lengths
    set_stats (λ s. record s {
      reads = inc64 s.reads;
      read_bytes = (s.read_bytes + total lengths) % 2 ^ 64;
    })
    pure bytes

  abbrev pub next_seq : LbdDevice k → LbdDevice k
  next_seq d = set_log (record (d.log) { log_seq = inc64 d.log.log_seq }) d

  abbrev pub mark_entries : LbdDevice k → LbdDevice k
  mark_entries d = set_log (record (d.log) { log_has_entries = true }) d

  abbrev pub count_write : ℕ → LbdDevice k → LbdDevice k
  count_write n d = record d {
    io = record (d.io) {
      writes = inc64 d.io.writes;
      write_bytes = (d.io.write_bytes + n) % 2 ^ 64;
    };
  }

  abbrev pub count_trim : ℕ → LbdDevice k → LbdDevice k
  count_trim n d = record d {
    io = record (d.io) { trims = inc64 d.io.trims; trim_bytes = (d.io.trim_bytes + n) % 2 ^ 64 };
  }

  -- The two ways to the backing store.
  abbrev pub store_segments : ℕ → List (List ℕ) → LbdDevice k → Outcome (Unit {0}) × LbdDevice k
  store_segments sector segments d =
      if d.is_qcow2
      then on_core (qcow2_write sector segments) d
      else on_core (raw_write_segments (sector * 512) segments) d

  abbrev pub read_reply : Outcome (List (List ℕ)) × LbdDevice k → Reply × LbdDevice k
  read_reply (ok bytes, d) = (data_read bytes, d)
  read_reply (err e, d) = (failed e, d)
  read_reply (oops, d) = (crashed, d)

  abbrev pub reply : Outcome (Unit {0}) × LbdDevice k → Reply × LbdDevice k
  reply (ok u, d) = (done, d)
  reply (err e, d) = (failed e, d)
  reply (oops, d) = (crashed, d)

module _ {k : Kernel} (lk : LogKernel k) where
  -- The parts of a record go to the buffer one after the other; whether all of them did.
  unfoldable pub append_all : List (List ℕ) → LbdDevice k → Bool × LbdDevice k
  append_all [] d = (true, d)
  append_all (part ∷ parts) d =
      let (ret, r) = log_buf_append lk part d in
      let rest = append_all parts r in elim ret [ none ↦ rest | some e ↦ (false, r) ]

  -- From the encoded record on; an array that is too small would give the number back.
  unfoldable pub log_record : Option (List ℕ) → List (List ℕ) → LbdDevice k → LbdDevice k
  unfolding append_all maybe_rotate_segment
  log_record none payload d = d
  log_record (some bytes) payload d =
      let (all, r) = append_all (bytes ∷ payload) (next_seq d) in
      if all then maybe_rotate_segment lk (mark_entries r) else r

  -- Behind the compression.
  unfoldable pub log_write_entry :
      (sector : ℕ) → (bytes compressed : List ℕ) → LbdDevice k → LbdDevice k
  unfolding log_record
  log_write_entry sector bytes compressed d =
      log_record
        (encode 128 (
          write_items (lk.ktime_get_real_ns d.core.world) d.log.log_seq (sector * 512 / block_size)
            (length bytes) (lk.crc32 bytes) (length compressed)))
        (compressed ∷ []) d

  unfoldable pub log_write : ℕ → List (List ℕ) → LbdDevice k → LbdDevice k
  unfolding log_write_entry
  log_write sector segments d =
      let bytes = gather segments in
      let cap = k.lz4_compress_bound (length bytes) in
      let (given, w) = k.kvmalloc (length bytes) d.core.world in
      let (given_too, w') = k.kvmalloc cap w in
      let compressed = k.lz4_compress bytes cap in
      if length bytes == 0
      then d
      else if not given
      then set_world w d
      else if not given_too
      then set_world w' d
      else if length compressed == 0
      then set_world w' d
      else log_write_entry sector bytes compressed (set_world w' d)

  unfoldable pub log_discard : (sector bytes : ℕ) → LbdDevice k → LbdDevice k
  unfolding log_record
  log_discard sector bytes d =
      log_record
        (encode 64 (
          trim_items (lk.ktime_get_real_ns d.core.world) d.log.log_seq (sector * 512 / block_size)
            bytes))
        [] d

  unfoldable pub do_write : ℕ → List (List ℕ) → LbdDevice k → Outcome (Unit {0}) × LbdDevice k
  unfolding log_write raw_write_segments
  do_write sector segments d =
      on_success (λ r. count_write (length (gather segments)) (log_write sector segments r))
        (store_segments sector segments d)

  -- The hole in a file that is not qcow2; that the file system cannot punch one is not an error.
  unfoldable pub punch_hole : (sector bytes : ℕ) → LbdDevice k → Outcome (Unit {0}) × LbdDevice k
  punch_hole sector bytes d = elim lk.fallocate [
    | none ↦ (ok tt, d)
    | some punch ↦
        let (ret, w) = punch d.core.backing_file (sector * 512) bytes d.core.world in
        elim ret [
          | none ↦ (ok tt, set_world w d)
          | some e ↦ (if punch_fails e then err e else ok tt, set_world w d)
        ]
  ]

  unfoldable pub do_discard : (sector bytes : ℕ) → LbdDevice k → Outcome (Unit {0}) × LbdDevice k
  unfolding log_discard punch_hole
  do_discard sector bytes d =
      on_success (λ r. count_trim bytes (log_discard sector bytes r))
        (if d.is_qcow2 then on_core (qcow2_discard sector bytes) d else punch_hole sector bytes d)

  -- A flush also rotates the log, so that what was logged before it is in a finished segment.
  unfoldable pub do_flush : LbdDevice k → Outcome (Unit {0}) × LbdDevice k
  unfolding rotate_segment
  do_flush d =
      let (ret, w) = lk.vfs_fsync d.core.backing_file d.core.world in
      let synced = set_world w d in
      elim ret [
        | none ↦ (ok tt, if synced.log.log_has_entries then rotate_segment lk synced else synced)
        | some e ↦ (err e, synced)
      ]

-- `handle_miss` is `lbd_qcow2_handle_miss`.
module _ {k : Kernel} (lk : LogKernel k) (handle_miss : ℕ → M k MissAction) where
  unfoldable pub do_read : ℕ → List ℕ → LbdDevice k → Outcome (List (List ℕ)) × LbdDevice k
  unfolding raw_read
  do_read sector lengths d =
      if d.is_qcow2
      then on_core (qcow2_read handle_miss sector lengths) d
      else on_core (raw_read sector lengths) d

  unfoldable pub handle_request : Request → LbdDevice k → Reply × LbdDevice k
  unfolding do_read do_write do_discard do_flush
  handle_request (read_op sector lengths) d = read_reply (do_read sector lengths d)
  handle_request (write_op sector segments) d = reply (do_write lk sector segments d)
  handle_request (discard_op sector bytes) d = reply (do_discard lk sector bytes d)
  handle_request flush_op d = reply (do_flush lk d)
  handle_request other_op d = (failed eio, d)

  -- The loop of `lbd_work_fn` over the commands that were queued, oldest first.
  unfoldable pub work_fn : List Request → LbdDevice k → List Reply × LbdDevice k
  unfolding handle_request
  work_fn [] d = ([], d)
  work_fn (rq ∷ rqs) d =
      let (ret, r) = handle_request rq d in let (rets, r') = work_fn rqs r in (ret ∷ rets, r')
