-- ===== src/Log/Segment/Begin.antt =====
-- A segment begins with its header in the buffer, and nothing on disk.
use lbd.Prelude.{
  ℕ, zero, suc, ◌+◌, ◌%◌, ◌^◌, ◌≤◌, ◌<◌, ◌≡◌, refl, ap, ◌∙◌, false, List, [], none, arith, length,
  length-append, not-lt→ltb,
}
use lbd.Kernel.{Kernel}
use lbd.Cbor.Items.Laws.{items_bytes}
use lbd.Log.{LbdDevice, LogKernel, log_buf_size}
use lbd.Log.Name.{hex, tai64n_label}
use lbd.Log.Entry.{header_items}
use lbd.Log.Entry.Bounds.{encode-header_items, length-header_items-le}
use lbd.Log.Buffer.{append_to, log_buf_append}
use lbd.Log.Segment.{write_log_header, fresh_segment, begin_segment}

length-hex : (n v : ℕ) → length (hex n v) ≡ n
unfolding hex
length-hex zero v = refl
length-hex (suc n) v = ap suc (length-hex n v)

-- A label always has 24 characters.
pub length-tai64n_label : (secs nsec : ℕ) → length (tai64n_label secs nsec) ≡ 24
unfolding tai64n_label
length-tai64n_label secs nsec =
    length-append (hex 16 ((secs + 0x4000000000000000) % 2 ^ 64)) (hex 8 nsec)
    ∙ omega (arith, length-hex 16 ((secs + 0x4000000000000000) % 2 ^ 64), length-hex 8 nsec)

-- What a segment that begins is: no file, no entry, the label of the time, and its header in the buffer.
pub record Begun {k : Kernel} (lk : LogKernel k) (d r : LbdDevice k) : Type 0 where
  pub no_file : r.log.log_file ≡ none
  pub no_entries : r.log.log_has_entries ≡ false
  pub labelled :
      r.log.log_segment_label
      ≡ tai64n_label (lk.ktime_get_real_ts64 d.core.world).0 (lk.ktime_get_real_ts64 d.core.world).1
  pub headed :
      r.log.log_buf
      ≡ items_bytes (header_items r.log.log_segment_label d.log.size d.log.backing_path)
  pub seq_kept : r.log.log_seq ≡ d.log.log_seq
  pub same_world : r.core ≡ d.core
  pub same_watchers : r.watchers ≡ d.watchers
  pub same_io : r.io ≡ d.io

module _ {k : Kernel} (lk : LogKernel k) where
  -- An empty buffer takes a header without a flush.
  log_buf_append_first :
      (bytes : List ℕ) (d : LbdDevice k)
      → d.log.log_buf ≡ []
      → length bytes ≤ 512
      → log_buf_append lk bytes d ≡ (none, append_to lk bytes d)
  unfolding log_buf_append
  log_buf_append_first bytes d e h =
      rw (ap length e, not-lt→ltb log_buf_size (0 + length bytes) (omega arith)) refl

  write_log_header_fits :
      (d : LbdDevice k)
      → d.log.log_buf ≡ []
      → length d.log.log_segment_label ≤ 24
      → d.log.size < 2 ^ 64
      → length d.log.backing_path < 256
      → write_log_header lk d ≡ (
        none,
        append_to lk
            (items_bytes (header_items d.log.log_segment_label d.log.size d.log.backing_path))
            d,
      )
  unfolding write_log_header
  write_log_header_fits d e l s p =
      rw
        (
          write_log_header,
          encode-header_items d.log.log_segment_label d.log.size d.log.backing_path l s p,
        )
        (log_buf_append_first
          (items_bytes (header_items d.log.log_segment_label d.log.size d.log.backing_path)) d e
          (length-header_items-le d.log.log_segment_label d.log.size d.log.backing_path l p))

  -- A new segment has no file and no entry, the label of the current time, and in its buffer the CBOR
  -- header with that label and nothing else, where the size is a u64 and the path of the backing file
  -- has fewer than 256 bytes; the disk, the watchers and the counters stay.
  pub begin_segment-Begun :
      (d : LbdDevice k)
      → d.log.size < 2 ^ 64
      → length d.log.backing_path < 256
      → Begun lk d (begin_segment lk d)
  unfolding begin_segment fresh_segment
  begin_segment-Begun d s p =
      let (secs, nsec) = lk.ktime_get_real_ts64 d.core.world in
      rw
        (
          begin_segment,
          write_log_header_fits (fresh_segment lk d) refl
              (omega (arith, length-tai64n_label secs nsec)) s p,
        )
        (record {
          no_file = refl;
          no_entries = refl;
          labelled = refl;
          headed = refl;
          seq_kept = refl;
          same_world = refl;
          same_watchers = refl;
          same_io = refl;
        })
