-- ===== src/Log/Buffer/Stream.antt =====
-- The log as one stream of bytes: what the segment's file holds, and behind it what waits in the
-- buffer.
use lbd.Prelude.{
  ℕ, ◌+◌, ◌≤◌, ◌≡◌, refl, ap, sym, ◌∙◌, ◌⊎◌, inl, inr, List, [], ◌∷◌, ◌++◌, append_assoc,
  append-nil, Option, none, some, arith, ltb, ◌==◌, length, length-append, ==_refl, Bool-cases,
  Option-cases,
}
use lbd.Kernel.{Kernel, Errno}
use lbd.Disk.{Disk, window, patch, window-patch_end}
use lbd.Log.{LbdDevice, LogKernel, Opened, not_opened, opened, log_buf_size, set_world, set_log}
use lbd.Log.Name.{log_name_tmp}
use lbd.Log.Buffer.Frame.{after_open, flush_create, flush_known}
use lbd.Log.Buffer.{
  write_buffer, flush_opened, log_flush, append_to, append_flushed, log_buf_append,
}

empty_list : (l : List ℕ) → length l ≡ 0 → l ≡ []
empty_list [] h = refl
empty_list (x ∷ l) h = absurd (omega arith)

module _ {k : Kernel} (disk : Disk k) where
  abbrev pub file_bytes : k.File → k.World → List ℕ
  file_bytes f w = window (disk.peek w f) 0 (disk.size w f)

  abbrev pub written_in : Option k.File → k.World → List ℕ
  written_in none w = []
  written_in (some f) w = file_bytes f w

  abbrev pub stream : LbdDevice k → List ℕ
  stream d = written_in d.log.log_file d.core.world ++ d.log.log_buf

-- The segment of the device has no file, and the call that would create it here and now fails.
abbrev pub Refused : {k : Kernel} → LogKernel k → LbdDevice k → Type 0
Refused lk d =
    (d.log.log_file ≡ none)
    × (e : Errno) × ((lk.file_open_root (log_name_tmp d.log.log_segment_label) d.core.world).0
        ≡ not_opened e)

-- The file of the segment: the one it has, or the one that the call here and now creates.
abbrev pub SegmentFile : {k : Kernel} → LogKernel k → LbdDevice k → k.File → Type 0
SegmentFile lk d f =
    (d.log.log_file ≡ some f)
    ⊎ ((d.log.log_file ≡ none)
        × ((lk.file_open_root (log_name_tmp d.log.log_segment_label) d.core.world).0 ≡ opened f))

-- What the log relies on: `i_size_read` is the size of the file, a write at the end makes the file as
-- much longer, and a file opened with O_TRUNC is empty; syncing and renaming leave the contents.
pub record LogDisk {k : Kernel} (disk : Disk k) (lk : LogKernel k) : Type 0 where
  pub size_read : (f : k.File) (w : k.World) → lk.i_size_read f w ≡ disk.size w f
  pub append_size :
      (f : k.File) (bs : List ℕ) (w : k.World)
      → disk.size (k.kernel_write f bs (disk.size w f) w).1 f ≡ disk.size w f + length bs
  pub open_truncates :
      (name : List ℕ) (w w' : k.World) (f : k.File)
      → lk.file_open_root name w ≡ (opened f, w')
      → disk.size w' f ≡ 0
  pub fsync_keeps :
      (f : k.File) (w : k.World) → file_bytes disk f (lk.vfs_fsync f w).1 ≡ file_bytes disk f w
  pub rename_keeps :
      (f : k.File) (name : List ℕ) (w : k.World)
      → file_bytes disk f (lk.rename_file f name w).1 ≡ file_bytes disk f w

module _ {k : Kernel} {disk : Disk k} {lk : LogKernel k} (ld : LogDisk disk lk) where
  -- Bytes written at the end of a file are the last of its bytes.
  file_bytes-write :
      (f : k.File) (bs : List ℕ) (w : k.World)
      → file_bytes disk f (k.kernel_write f bs (disk.size w f) w).1 ≡ file_bytes disk f w ++ bs
  file_bytes-write f bs w =
      ap (λ c. window c 0 (disk.size (k.kernel_write f bs (disk.size w f) w).1 f))
        (disk.write_puts f bs (disk.size w f) w)
      ∙ ap (window (patch (disk.peek w f) (disk.size w f) bs) 0) (ld.append_size f bs w)
      ∙ window-patch_end (disk.peek w f) (disk.size w f) bs

  -- The buffer is written whole.
  pub record Flushed (d : LbdDevice k) (r : Option Errno × LbdDevice k) : Type 0 where
    pub ends : r.0 ≡ none
    pub same : stream disk r.1 ≡ stream disk d
    pub empty : r.1.log.log_buf ≡ []
    pub file_of : (f : k.File) → r.1.log.log_file ≡ some f → SegmentFile lk d f
    pub idle : r.1.log.log_file ≡ none → r.1.core.world ≡ d.core.world

  write_buffer-Flushed :
      (f : k.File) (d : LbdDevice k) → d.log.log_file ≡ some f → Flushed d (write_buffer lk f d)
  unfolding write_buffer
  write_buffer-Flushed f d h =
      let w = d.core.world in
      let buf = d.log.log_buf in
      rw (ld.size_read f w) (record {
        ends = rw (disk.write_whole f buf (disk.size w f) w, ==_refl (length buf)) refl;
        same =
            append-nil _
            ∙ ap
                (λ (o : Option k.File).
                  written_in disk o (k.kernel_write f buf (disk.size w f) w).1)
                h
            ∙ file_bytes-write f buf w
            ∙ ap (λ (o : Option k.File). written_in disk o w ++ buf) (sym h);
        empty = refl;
        file_of = λ g e. inl e;
        idle = λ e. absurd (ground (arith, sym e ∙ h));
      })

  -- The file could not be created; what was buffered is gone.
  pub record NotOpened (d : LbdDevice k) (r : Option Errno × LbdDevice k) : Type 0 where
    pub refused : Refused lk d
    pub fails : r.0 ≡ some refused.1
    pub still_none : r.1.log.log_file ≡ none
    pub lost : r.1.log.log_buf ≡ []

  flush_after_open :
      (d : LbdDevice k) (r : Opened k.File × k.World)
      → lk.file_open_root (log_name_tmp d.log.log_segment_label) d.core.world ≡ r
      → d.log.log_file ≡ none
      → Flushed d (flush_opened lk (after_open lk d r))
        ⊎ NotOpened d (flush_opened lk (after_open lk d r))
  unfolding window write_buffer
  flush_after_open d (not_opened e, w) o h =
      inr (record { refused = (h, e, ap (λ p. p.0) o); fails = refl; still_none = h; lost = refl })
  flush_after_open d (opened f, w) o h =
      let d1 = set_log (record (d.log) { log_file = some f }) (set_world w d) in
      let done = write_buffer-Flushed f d1 refl in
      let fresh : file_bytes disk f w ≡ [] =
        ap (window (disk.peek w f) 0) (ld.open_truncates _ d.core.world w f o) in
      inl (record {
        ends = done.ends;
        same =
            done.same
            ∙ ap (λ (l : List ℕ). l ++ d.log.log_buf) fresh
            ∙ ap (λ (p : Option k.File). written_in disk p d.core.world ++ d.log.log_buf) (sym h);
        empty = done.empty;
        file_of = λ g e. inr (
          h,
          ap (λ p. p.0) o
              ∙ ap
                  (λ (x : Option k.File). elim x as (λ y. Opened k.File) [
                    | none ↦ opened f
                    | some y ↦ opened y
                  ])
                  e,
        );
        idle = λ e. absurd (cc);
      })

  -- The buffer goes to the file whole, or there is no file.
  pub log_flush_run : (d : LbdDevice k) → Flushed d (log_flush lk d) ⊎ NotOpened d (log_flush lk d)
  unfolding log_flush
  log_flush_run d = elim (Bool-cases (length d.log.log_buf == 0)) [
    | inl nothing ↦ rw nothing (
        inl (record {
          ends = refl;
          same = refl;
          empty = empty_list _ (ground arith);
          file_of = λ f e. inl e;
          idle = λ e. refl;
        }))
    | inr some_bytes ↦ elim (Option-cases d.log.log_file) [
      | inl h ↦
          rw (some_bytes, flush_create lk d h)
            (flush_after_open d
              (lk.file_open_root (log_name_tmp d.log.log_segment_label) d.core.world) refl h)
      | inr (f, h) ↦ rw (some_bytes, flush_known lk d f h) (inl (write_buffer-Flushed f d h))
    ]
  ]

  -- What `log_buf_append` of `bytes` leaves: the bytes are the last of the stream, and the buffer is
  -- within its size; or there was no file, the call that creates it fails, and the buffer is empty.
  pub record Appended (bytes : List ℕ) (d : LbdDevice k) (r : Option Errno × LbdDevice k)
      : Type 0 where
    pub ends : r.0 ≡ none
    pub added : stream disk r.1 ≡ stream disk d ++ bytes
    pub inside : length r.1.log.log_buf ≤ log_buf_size
    pub idle : r.1.log.log_file ≡ none → r.1.core.world ≡ d.core.world

  appended :
      (bytes : List ℕ) (d d' : LbdDevice k)
      → stream disk d' ≡ stream disk d
      → length d'.log.log_buf + length bytes ≤ log_buf_size
      → (d'.log.log_file ≡ none → d'.core.world ≡ d.core.world)
      → Appended bytes d (none, append_to lk bytes d')
  appended bytes d d' same room idle = record {
    ends = refl;
    added =
        sym (append_assoc (written_in disk d'.log.log_file d'.core.world) d'.log.log_buf bytes)
        ∙ ap (λ (l : List ℕ). l ++ bytes) same;
    inside = omega (arith, length-append d'.log.log_buf bytes);
    idle = idle;
  }

  append_after :
      (bytes : List ℕ) (d : LbdDevice k) (r : Option Errno × LbdDevice k)
      → length bytes ≤ log_buf_size
      → Flushed d r ⊎ NotOpened d r
      → Appended bytes d (append_flushed lk bytes r) ⊎ NotOpened d (append_flushed lk bytes r)
  append_after bytes d (none, d') fits (inl f) =
      inl (appended bytes d d' f.same (omega (arith, ap length f.empty)) f.idle)
  append_after bytes d (some e, d') fits (inl f) = absurd (ground (arith, f.ends))
  append_after bytes d (none, d') fits (inr n) = absurd (ground (arith, n.fails))
  append_after bytes d (some e, d') fits (inr n) =
      inr
        (record { refused = n.refused; fails = n.fails; still_none = n.still_none; lost = n.lost })

  -- On a disk that works, appending at most as many bytes as the buffer holds puts them behind all that
  -- the segment's file and the buffer hold, in order and with nothing lost, and keeps the buffer
  -- within its size; or the segment has no file and the call that creates it on the device as it is
  -- fails, which is the error returned, and the buffer is empty.
  pub log_buf_append-stream :
      (bytes : List ℕ) (d : LbdDevice k)
      → length bytes ≤ log_buf_size
      → Appended bytes d (log_buf_append lk bytes d) ⊎ NotOpened d (log_buf_append lk bytes d)
  unfolding log_buf_append
  log_buf_append-stream bytes d fits =
      elim (Bool-cases (ltb log_buf_size (length d.log.log_buf + length bytes))) [
        | inl full ↦ rw full (append_after bytes d (log_flush lk d) fits (log_flush_run d))
        | inr room ↦ rw room (inl (appended bytes d d refl (ground arith) (λ e. refl)))
      ]
