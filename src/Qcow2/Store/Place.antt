-- ===== src/Qcow2/Store/Place.antt =====
-- Where `lbd_qcow2_write` puts the new contents of a cluster, on a disk that works.
use lbd.Prelude.{ℕ, ◌+◌, ◌≤◌, ◌≡◌, List}
use lbd.Kernel.{Kernel}
use lbd.Disk.{Disk}
use lbd.Qcow2.State.{Device, Outcome, ok}
use lbd.Qcow2.FreeList.{Extent, ApartAll}
use lbd.Qcow2.FreeList.Model.{Below}
use lbd.Qcow2.Space.Free.{HasFree}

-- A position was found for `size` bytes below the cursor, which meets no free extent; the free list is
-- well-formed and below the cursor.
pub record Placed {k : Kernel} (disk : Disk k) (size : ℕ) (r : Outcome ℕ × Device k) : Type 0 where
  pub phys : ℕ
  pub left : List Extent
  pub succeeds : r.0 ≡ ok phys
  pub has_free : HasFree disk r.1 left
  pub below : Below r.1.qcow2.alloc_offset left
  pub apart : ApartAll phys size left
  pub inside : phys + size ≤ r.1.qcow2.alloc_offset
