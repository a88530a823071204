-- ===== src/Log/Segment/Rotate.antt =====
-- A rotation closes the segment, tells the watchers and begins the next one.
use lbd.Prelude.{
  ℕ, ◌^◌, ◌<◌, ◌≡◌, ◌≢◌, refl, ap, sym, ◌∙◌, subst, ◌⊎◌, inl, inr, Bool, false, true, List, [],
  ◌++◌, append-nil, map, Option, none, some, length, Option-cases, if◌then◌else◌,
}
use lbd.Kernel.{Kernel}
use lbd.Disk.{Disk}
use lbd.Qcow2.State.{Device, inc64}
use lbd.Cbor.Items.Laws.{items_bytes}
use lbd.Ctl.Watcher.{WatcherEvent, Watcher}
use lbd.Ctl.Watcher.Queue.{AllRing, events, notified, notify_watchers-push}
use lbd.Log.{Log, IoStats, LbdDevice, LogKernel}
use lbd.Log.Name.{log_name_final}
use lbd.Log.Entry.{header_items}
use lbd.Log.Buffer.{log_flush}
use lbd.Log.Buffer.Frame.{Same, log_flush-Same}
use lbd.Log.Buffer.Stream.{
  LogDisk, file_bytes, written_in, stream, Refused, SegmentFile, log_flush_run,
}
use lbd.Log.Segment.{
  sync_segment, rename_segment, close_segment, next_segment, rotate_segment, begin_segment,
  event_of, notify, put_file,
}
use lbd.Log.Segment.Begin.{begin_segment-Begun}

abbrev Kept : Kernel → Type 0
Kept k = Log k × IoStats × List Watcher

abbrev kept_event : {k : Kernel} → Kept k → WatcherEvent
kept_event p = record {
  dev_index = p.0.index;
  log_seq = p.0.log_seq;
  device_size = p.0.size;
  segment_label = p.0.log_segment_label;
  log_dir = p.0.log_dir;
}

module _ {k : Kernel} (disk : Disk k) (lk : LogKernel k) where
  -- The last call was that which gives the file the final name of its segment.
  abbrev pub RenamedLast : k.File → List ℕ → k.World → Type 0
  RenamedLast f label w = (v : k.World) × (w ≡ (lk.rename_file f (log_name_final label) v).1)

  -- What a rotation leaves.
  pub record Rotated (d r : LbdDevice k) : Type 0 where
    pub closed :
        ((f : k.File) × SegmentFile lk d f
          × (file_bytes disk f r.core.world ≡ stream disk d)
          × RenamedLast f d.log.log_segment_label r.core.world)
        ⊎ Refused lk d
    pub rings : AllRing r.watchers
    pub told : map events r.watchers ≡ map (notified (event_of lk d)) d.watchers
    pub no_file : r.log.log_file ≡ none
    pub no_entries : r.log.log_has_entries ≡ false
    pub headed :
        r.log.log_buf
        ≡ items_bytes (header_items r.log.log_segment_label d.log.size d.log.backing_path)
    pub seq_kept : r.log.log_seq ≡ d.log.log_seq
    pub counted : r.io.log_rotations ≡ inc64 d.io.log_rotations

  -- The file of a closed segment is what the stream was.
  abbrev Stored : LbdDevice k → k.World → Type 0
  Stored d w =
      ((f : k.File) × SegmentFile lk d f
        × (file_bytes disk f w ≡ stream disk d)
        × RenamedLast f d.log.log_segment_label w)
      ⊎ Refused lk d

module _ {k : Kernel} {disk : Disk k} {lk : LogKernel k} (ld : LogDisk disk lk) where
  close_segment-Same : (d : LbdDevice k) → Same d (close_segment lk d)
  unfolding close_segment sync_segment rename_segment
  close_segment-Same d = elim (Option-cases d.log.log_file) [
    | inl h ↦ rw (close_segment, h) refl
    | inr (f, h) ↦ rw (close_segment, h) refl
  ]

  -- Closing leaves the contents of the file.
  file_bytes-close_segment :
      (f : k.File) (d : LbdDevice k)
      → d.log.log_file ≡ some f
      → file_bytes disk f (close_segment lk d).core.world ≡ file_bytes disk f d.core.world
  unfolding close_segment sync_segment rename_segment
  file_bytes-close_segment f d h =
      ap
        (λ (o : Option k.File).
          file_bytes disk f
            (elim o as (λ x. LbdDevice k) [
              | none ↦ d
              | some g ↦ put_file lk (rename_segment lk g (sync_segment lk g d))
            ]).core.world)
        h
      ∙ ld.rename_keeps f _ (lk.vfs_fsync f d.core.world).1
      ∙ ld.fsync_keeps f d.core.world

  close_segment-RenamedLast :
      (f : k.File) (d : LbdDevice k)
      → d.log.log_file ≡ some f
      → RenamedLast disk lk f d.log.log_segment_label (close_segment lk d).core.world
  unfolding close_segment sync_segment rename_segment
  close_segment-RenamedLast f d h = (
    (lk.vfs_fsync f d.core.world).1,
    ap
        (λ (o : Option k.File).
          (elim o as (λ x. LbdDevice k) [
            | none ↦ d
            | some g ↦ put_file lk (rename_segment lk g (sync_segment lk g d))
          ]).core.world)
        h,
  )

  close_flushed-Stored :
      (d : LbdDevice k)
      → stream disk d ≢ []
      → Stored disk lk d (close_segment lk (log_flush lk d).1).core.world
  close_flushed-Stored d something = elim (log_flush_run ld d) [
    | inl done ↦ elim (Option-cases (log_flush lk d).1.log.log_file) [
      | inl h ↦ absurd (
          something (
            sym done.same
            ∙ ap
                (λ (o : Option k.File).
                  written_in disk o (log_flush lk d).1.core.world ++ (log_flush lk d).1.log.log_buf)
                h
            ∙ done.empty))
      | inr (f, h) ↦ inl (
        f,
        done.file_of f h,
        file_bytes-close_segment f (log_flush lk d).1 h
            ∙ sym (append-nil (file_bytes disk f (log_flush lk d).1.core.world))
            ∙ ap (λ (l : List ℕ). file_bytes disk f (log_flush lk d).1.core.world ++ l)
                (sym done.empty)
            ∙ ap
                (λ (o : Option k.File).
                  written_in disk o (log_flush lk d).1.core.world ++ (log_flush lk d).1.log.log_buf)
                (sym h)
            ∙ done.same,
        subst
            (λ (p : Kept k).
              RenamedLast disk lk f p.0.log_segment_label
                (close_segment lk (log_flush lk d).1).core.world)
            (log_flush-Same lk d) (close_segment-RenamedLast f (log_flush lk d).1 h),
      )
    ]
    | inr lost ↦ inr lost.refused
  ]

  -- From the closed segment `c` of the device `d` on.
  next_segment-Rotated :
      (d c : LbdDevice k)
      → Same d c
      → Stored disk lk d c.core.world
      → AllRing d.watchers
      → d.log.size < 2 ^ 64
      → length d.log.backing_path < 256
      → Rotated disk lk d (next_segment lk c)
  unfolding next_segment
  next_segment-Rotated d c s closed rings sized path =
      let n =
        notify lk (record c { io = record (c.io) { log_rotations = inc64 c.io.log_rotations } }) in
      let c_sized : c.log.size < 2 ^ 64 = subst (λ (p : Kept k). p.0.size < 2 ^ 64) (sym s) sized in
      let c_path : length c.log.backing_path < 256 =
        subst (λ (p : Kept k). length p.0.backing_path < 256) (sym s) path in
      let c_rings : AllRing c.watchers = subst (λ (p : Kept k). AllRing p.2) (sym s) rings in
      let b = begin_segment-Begun lk n c_sized c_path in
      let (all, es, fs) = notify_watchers-push (event_of lk c) c.watchers c_rings in
      record {
        closed = subst (λ (x : Device k). Stored disk lk d x.world) (sym b.same_world) closed;
        rings = subst AllRing (sym b.same_watchers) all;
        told =
            ap (map events) b.same_watchers
            ∙ es
            ∙ ap (λ (p : Kept k). map (notified (kept_event p)) p.2) s;
        no_file = b.no_file;
        no_entries = b.no_entries;
        headed =
            b.headed
            ∙ ap
                (λ (p : Kept k). items_bytes (
                  header_items (begin_segment lk n).log.log_segment_label p.0.size
                    p.0.backing_path))
                s;
        seq_kept = b.seq_kept ∙ ap (λ (p : Kept k). p.0.log_seq) s;
        counted =
            ap (λ (x : IoStats). x.log_rotations) b.same_io
            ∙ ap (λ (p : Kept k). inc64 p.1.log_rotations) s;
      }

  -- On a disk that works, for a size that is a u64 and a path of fewer than 256 bytes: a rotation of a
  -- segment with entries, of which something is in the file or the buffer, leaves all of it, in order, in
  -- the segment's file, the one it had or the one created by the call on the device as it is, and the
  -- last call on the system renames this file to the segment's final name; or the segment had no file
  -- and the call that creates it on the device as it is fails. In both cases every watcher whose filter lets it
  -- pass, and no other, gets the event with the label of the closed segment; the rings stay valid, the
  -- rotation is counted, and the next segment has no file, no entry, and its header in the buffer.
  pub rotate_segment-Rotated :
      (d : LbdDevice k)
      → d.log.log_has_entries ≡ true
      → stream disk d ≢ []
      → AllRing d.watchers
      → d.log.size < 2 ^ 64
      → length d.log.backing_path < 256
      → Rotated disk lk d (rotate_segment lk d)
  unfolding rotate_segment
  rotate_segment-Rotated d h something rings sized path =
      subst
        (λ (b : Bool).
          Rotated disk lk d
            (if b then next_segment lk (close_segment lk (log_flush lk d).1) else d))
        (sym h)
        (next_segment-Rotated d (close_segment lk (log_flush lk d).1)
          (close_segment-Same (log_flush lk d).1 ∙ log_flush-Same lk d)
          (close_flushed-Stored d something) rings sized path)
