-- ===== src/Qcow2/OnDisk.antt =====
-- The reads and writes of the driver on a disk that works.
use lbd.Prelude.{ℕ, ◌+◌, ◌≤◌, ◌≡◌, List, length, ==_refl}
use lbd.Kernel.{Kernel}
use lbd.Disk.{Disk, window, length-window}
use lbd.Qcow2.State.{Device, ok, read_all, write_all}

module _ {k : Kernel} (disk : Disk k) where
  -- The contents and the size of the backing file.
  abbrev pub view : Device k → ℕ → ℕ
  view d = disk.peek d.world d.backing_file

  abbrev pub file_size : Device k → ℕ
  file_size d = disk.size d.world d.backing_file

  abbrev pub after_read : Device k → ℕ → ℕ → Device k
  after_read d n pos = record d { world = (k.kernel_read d.backing_file n pos d.world).1 }

  abbrev pub after_write : Device k → List ℕ → ℕ → Device k
  after_write d bs pos = record d { world = (k.kernel_write d.backing_file bs pos d.world).1 }

  pub read_all-window :
      (d : Device k) (n pos : ℕ)
      → pos + n ≤ file_size d
      → read_all d.backing_file n pos d ≡ (ok (window (view d) pos n), after_read d n pos)
  unfolding read_all
  read_all-window d n pos h =
      rw (disk.read_whole d.backing_file n pos d.world h, length-window (view d) pos n, ==_refl n)

  pub write_all-ok :
      (d : Device k) (bs : List ℕ) (pos : ℕ)
      → write_all d.backing_file bs pos d ≡ (ok tt, after_write d bs pos)
  unfolding write_all
  write_all-ok d bs pos = rw (disk.write_whole d.backing_file bs pos d.world, ==_refl (length bs))
