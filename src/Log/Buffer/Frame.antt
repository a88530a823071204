-- ===== src/Log/Buffer/Frame.antt =====
-- What the functions of the buffer leave alone, and the cases of opening the file.
use lbd.Prelude.{
  ℕ, ◌+◌, ◌≡◌, refl, ap, ◌∙◌, inl, inr, List, [], Option, none, some, ltb, ◌==◌, length, Bool-cases,
  Option-cases,
}
use lbd.Kernel.{Kernel, Errno}
use lbd.Log.{
  Log, IoStats, LbdDevice, LogKernel, Opened, not_opened, opened, log_buf_size, set_world, set_log,
}
use lbd.Ctl.Watcher.{Watcher}
use lbd.Log.Name.{log_name_tmp}
use lbd.Log.Buffer.{
  open_log_file, write_buffer, flush_opened, ensure_open, log_flush, append_flushed, log_buf_append,
}

-- A device without the file and the buffer of its log, and without the part of the backing store.
abbrev pub kept : {k : Kernel} → LbdDevice k → Log k × IoStats × List Watcher
kept d = (record (d.log) { log_file = none; log_buf = [] }, d.io, d.watchers)

-- The two devices differ in nothing but the world, the file, the buffer and the backing store.
abbrev pub Same : {k : Kernel} → LbdDevice k → LbdDevice k → Type 0
Same d r = kept r ≡ kept d

module _ {k : Kernel} (lk : LogKernel k) where
  -- `open_log_file` with the result of the call.
  abbrev pub after_open : LbdDevice k → Opened k.File × k.World → Option Errno × LbdDevice k
  after_open d (not_opened e, w) = (some e, set_world w d)
  after_open d (opened f, w) =
      (none, set_log (record (d.log) { log_file = some f }) (set_world w d))

  pub open_log_file-after_open :
      (d : LbdDevice k)
      → open_log_file lk d
        ≡ after_open d (lk.file_open_root (log_name_tmp d.log.log_segment_label) d.core.world)
  unfolding open_log_file
  open_log_file-after_open d =
      go (lk.file_open_root (log_name_tmp d.log.log_segment_label) d.core.world)
    where
      go :
          (r : Opened k.File × k.World)
          → (elim r.0 as (λ x. Option Errno × LbdDevice k) [
            | not_opened e ↦ (some e, set_world r.1 d)
            | opened f ↦ (none, set_log (record (d.log) { log_file = some f }) (set_world r.1 d))
          ])
            ≡ after_open d r
      go (not_opened e, w) = refl
      go (opened f, w) = refl

  -- The two ways to the file.
  pub flush_create :
      (d : LbdDevice k)
      → d.log.log_file ≡ none
      → flush_opened lk (ensure_open lk d)
        ≡ flush_opened lk
            (after_open d (lk.file_open_root (log_name_tmp d.log.log_segment_label) d.core.world))
  flush_create d h = ap (flush_opened lk) (
      ap
        (λ (o : Option k.File). elim o as (λ x. Option Errno × LbdDevice k) [
          | none ↦ open_log_file lk d
          | some f ↦ (none, d)
        ])
        h
      ∙ open_log_file-after_open d)

  pub flush_known :
      (d : LbdDevice k) (f : k.File)
      → d.log.log_file ≡ some f
      → flush_opened lk (ensure_open lk d) ≡ write_buffer lk f d
  flush_known d f h =
      ap (flush_opened lk) (
        ap
          (λ (o : Option k.File). elim o as (λ x. Option Errno × LbdDevice k) [
            | none ↦ open_log_file lk d
            | some f ↦ (none, d)
          ])
          h)
      ∙ ap
          (λ (o : Option k.File). elim o as (λ x. Option Errno × LbdDevice k) [
            | none ↦ (none, d)
            | some f ↦ write_buffer lk f d
          ])
          h

  write_buffer-Same : (f : k.File) (d : LbdDevice k) → Same d (write_buffer lk f d).1
  unfolding write_buffer
  write_buffer-Same f d = refl

  flush_after_open-Same :
      (d : LbdDevice k) (r : Opened k.File × k.World) → Same d (flush_opened lk (after_open d r)).1
  unfolding write_buffer
  flush_after_open-Same d (not_opened e, w) = refl
  flush_after_open-Same d (opened f, w) = refl

  -- A flush touches the file and the buffer and nothing else of the log, whether or not it fails.
  pub log_flush-Same : (d : LbdDevice k) → Same d (log_flush lk d).1
  unfolding log_flush
  log_flush-Same d = elim (Bool-cases (length d.log.log_buf == 0)) [
    | inl nothing ↦ rw nothing refl
    | inr some_bytes ↦ elim (Option-cases d.log.log_file) [
      | inl h ↦
          rw (some_bytes, flush_create d h)
            (flush_after_open-Same d
              (lk.file_open_root (log_name_tmp d.log.log_segment_label) d.core.world))
      | inr (f, h) ↦ rw (some_bytes, flush_known d f h) (write_buffer-Same f d)
    ]
  ]

  append_flushed-Same :
      (bytes : List ℕ) (d : LbdDevice k) (r : Option Errno × LbdDevice k)
      → Same d r.1
      → Same d (append_flushed lk bytes r).1
  append_flushed-Same bytes d (some e, r) s = s
  append_flushed-Same bytes d (none, r) s = s

  -- Nor does an append.
  pub log_buf_append-Same :
      (bytes : List ℕ) (d : LbdDevice k) → Same d (log_buf_append lk bytes d).1
  unfolding log_buf_append
  log_buf_append-Same bytes d =
      elim (Bool-cases (ltb log_buf_size (length d.log.log_buf + length bytes))) [
        | inl full ↦ rw full (append_flushed-Same bytes d (log_flush lk d) (log_flush-Same d))
        | inr room ↦ rw room (refl)
      ]

  flush_opened-log_file :
      (d : LbdDevice k) (f : k.File)
      → d.log.log_file ≡ some f
      → (log_flush lk d).1.log.log_file ≡ some f
  unfolding log_flush write_buffer
  flush_opened-log_file d f h = elim (Bool-cases (length d.log.log_buf == 0)) [
    | inl nothing ↦ rw nothing h
    | inr some_bytes ↦ rw (some_bytes, flush_known d f h) h
  ]

  append_flushed-log_file :
      (bytes : List ℕ) (f : k.File) (r : Option Errno × LbdDevice k)
      → r.1.log.log_file ≡ some f
      → (append_flushed lk bytes r).1.log.log_file ≡ some f
  append_flushed-log_file bytes f (some e, r) h = h
  append_flushed-log_file bytes f (none, r) h = h

  -- An append keeps the file that is open.
  pub log_buf_append-log_file :
      (bytes : List ℕ) (d : LbdDevice k) (f : k.File)
      → d.log.log_file ≡ some f
      → (log_buf_append lk bytes d).1.log.log_file ≡ some f
  unfolding log_buf_append
  log_buf_append-log_file bytes d f h =
      elim (Bool-cases (ltb log_buf_size (length d.log.log_buf + length bytes))) [
        | inl full ↦
            rw full (append_flushed-log_file bytes f (log_flush lk d) (flush_opened-log_file d f h))
        | inr room ↦ rw room h
      ]
