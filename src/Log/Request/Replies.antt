-- ===== src/Log/Request/Replies.antt =====
-- The two kinds of records, and the replies to requests.
use lbd.Prelude.{
  ℕ, ◌*◌, ◌/◌, ◌^◌, ◌≤◌, ◌<◌, sym, subst, List, [], ◌∷◌, ◌++◌, append-nil, Option, arith, length,
}
use lbd.Kernel.{Kernel}
use lbd.Disk.{Disk}
use lbd.Cbor.Items.Laws.{items_bytes}
use lbd.Log.{LbdDevice, LogKernel, log_buf_size}
use lbd.Log.Entry.{block_size, write_items, trim_items}
use lbd.Log.Entry.Bounds.{encode-entry_items, entry_items_sizes}
use lbd.Log.Buffer.Stream.{LogDisk}
use lbd.Log.Request.{log_record, log_write_entry, log_discard}
use lbd.Log.Request.Entries.{Logged, Ready, log_record-Logged}

module _ {k : Kernel} {disk : Disk k} {lk : LogKernel k} (ld : LogDisk disk lk) where
  -- On a disk that works, with a u64 for the clock, the sequence number, the block and the size, a u32
  -- for the CRC, at most 2 ^ 32 - 1 bytes of data that compress to fewer than 2 ^ 31 bytes and no more
  -- than the buffer holds, and a path of fewer than 256 bytes: the record of a write, its header and
  -- right behind it the compressed bytes, comes whole behind all that was logged before, in the stream
  -- or in a file that was closed meanwhile, with the final name of the segment as the last thing it
  -- got; or the segment had no file, and the call that creates it on the device as it is fails.
  pub log_write_entry-Logged :
      (sector : ℕ) (bytes compressed : List ℕ) (d : LbdDevice k)
      → lk.ktime_get_real_ns d.core.world < 2 ^ 64
      → d.log.log_seq < 2 ^ 64
      → sector < 2 ^ 54
      → length bytes < 2 ^ 32
      → lk.crc32 bytes < 2 ^ 32
      → length compressed < 2 ^ 31
      → length compressed ≤ log_buf_size
      → Ready ld d
      → Logged ld
          (items_bytes (
              write_items
                (lk.ktime_get_real_ns d.core.world)
                d.log.log_seq
                (sector * 512 / block_size)
                (length bytes)
                (lk.crc32 bytes)
                (length compressed))
            ++ compressed)
          d
          (log_write_entry lk sector bytes compressed d)
  unfolding log_write_entry
  log_write_entry-Logged sector bytes compressed d ts seq sec len crc clen fits ready =
      let items =
        write_items (lk.ktime_get_real_ns d.core.world) d.log.log_seq (sector * 512 / block_size)
          (length bytes) (lk.crc32 bytes) (length compressed) in
      let encoded =
        encode-entry_items (lk.ktime_get_real_ns d.core.world) d.log.log_seq
          (sector * 512 / block_size) (length bytes) (lk.crc32 bytes) (length compressed) ts seq
          (omega arith) len crc clen in
      let (small, some_bytes, trim_small, trim_bytes) =
        entry_items_sizes (lk.ktime_get_real_ns d.core.world) d.log.log_seq
          (sector * 512 / block_size) (length bytes) (lk.crc32 bytes) (length compressed) in
      subst
        (λ (l : List ℕ).
          Logged ld (items_bytes items ++ l) d (log_write_entry lk sector bytes compressed d))
        (append-nil compressed)
        (subst
          (λ (o : Option (List ℕ)).
            Logged ld (items_bytes items ++ (compressed ++ [])) d
              (log_record lk o (compressed ∷ []) d))
          (sym encoded.0)
          (log_record-Logged ld (items_bytes items) (compressed ∷ []) d (omega arith, (fits, tt))
            (omega arith) ready))

  -- In the same cases the record of a trim comes whole behind all that was logged before, in the stream
  -- or in a file that was closed and renamed meanwhile; or the segment had no file, and the call that
  -- creates it on the device as it is fails.
  pub log_discard-Logged :
      (sector bytes : ℕ) (d : LbdDevice k)
      → lk.ktime_get_real_ns d.core.world < 2 ^ 64
      → d.log.log_seq < 2 ^ 64
      → sector < 2 ^ 54
      → bytes < 2 ^ 32
      → Ready ld d
      → Logged ld
          (items_bytes (
            trim_items
              (lk.ktime_get_real_ns d.core.world)
              d.log.log_seq
              (sector * 512 / block_size)
              bytes))
          d
          (log_discard lk sector bytes d)
  unfolding log_discard
  log_discard-Logged sector bytes d ts seq sec len ready =
      let items =
        trim_items (lk.ktime_get_real_ns d.core.world) d.log.log_seq (sector * 512 / block_size)
          bytes in
      let encoded =
        encode-entry_items (lk.ktime_get_real_ns d.core.world) d.log.log_seq
          (sector * 512 / block_size) bytes 0 0 ts seq (omega arith) len (omega arith)
          (omega arith) in
      let (small, some_bytes, trim_small, trim_bytes) =
        entry_items_sizes (lk.ktime_get_real_ns d.core.world) d.log.log_seq
          (sector * 512 / block_size) bytes 0 0 in
      subst (λ (l : List ℕ). Logged ld l d (log_discard lk sector bytes d))
        (append-nil (items_bytes items))
        (subst
          (λ (o : Option (List ℕ)). Logged ld (items_bytes items ++ []) d (log_record lk o [] d))
          (sym encoded.1)
          (log_record-Logged ld (items_bytes items) [] d (omega arith, tt) trim_bytes ready))
