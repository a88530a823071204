-- ===== src/Qcow2/Space/Safety.antt =====
-- What callers of `lbd_qcow2_alloc_space` and `lbd_qcow2_free_extent` rely on: no space is given out
-- twice.
use lbd.Prelude.{ℕ, ◌+◌, ◌<◌, ◌≤◌, ◌^◌, ◌≡◌, refl, ap, ◌∙◌, List, ◌∷◌, le→leb}
use lbd.Kernel.{Kernel}
use lbd.Disk.{Disk}
use lbd.Qcow2.State.{Device, ok, Outcome}
use lbd.Qcow2.Space.{free_scan_limit, alloc_space, free_extent}
use lbd.Qcow2.Space.Free.{HasFree, free_extent-HasFree}
use lbd.Qcow2.Space.Alloc.{Agrees, alloc_space-allocate}
use lbd.Qcow2.FreeList.{Extent, Spaced}
use lbd.Qcow2.FreeList.Fit.{find_fit}
use lbd.Qcow2.FreeList.Model.{allocated, allocate, Below, Grant, allocated-Grant}

-- An allocation succeeded, and its space is free of the extents that are still free.
pub record Granted {k : Kernel} (disk : Disk k) (needed cursor : ℕ) (xs : List Extent)
    (r : Outcome ℕ × Device k) : Type 0 where
  pub phys : ℕ
  pub left : List Extent
  pub succeeds : r.0 ≡ ok phys
  pub has_free : HasFree disk r.1 left
  pub grant : Grant needed cursor xs phys r.1.qcow2.alloc_offset left

allocate_first :
    (needed cursor p n : ℕ) (xs : List Extent)
    → needed ≤ n
    → (allocate needed cursor ((p, n) ∷ xs)).0 ≡ p
unfolding allocate find_fit
allocate_first needed cursor p n xs le = rw (le→leb needed n le)

module _ {k : Kernel} (disk : Disk k) where
  Agrees-Granted :
      (needed cursor : ℕ) (xs : List Extent) (phys cursor' : ℕ) (ys : List Extent)
      (r : Outcome ℕ × Device k)
      → Grant needed cursor xs phys cursor' ys
      → Agrees disk (phys, cursor', ys) r
      → Granted disk needed cursor xs r
  Agrees-Granted needed cursor xs phys cursor' ys (o, d) g a = record {
    phys = phys;
    left = ys;
    succeeds = a.0;
    has_free = a.2;
    grant = rw a.1 g;
  }

  -- On a disk that works and a well-formed free list below a cursor that does not wrap, an
  -- allocation succeeds. Its space meets no extent that is free afterwards and lies below the
  -- new cursor, as these do; it was taken at the old cursor with the free bytes unchanged, or
  -- out of the free bytes with the cursor unchanged, and then fewer than 16 more are lost. The
  -- free list is well-formed again.
  pub alloc_space-Granted :
      (d : Device k) (xs : List Extent) (needed : ℕ)
      → HasFree disk d xs
      → Below d.qcow2.alloc_offset xs
      → d.qcow2.alloc_offset + needed < 2 ^ 64
      → Granted disk needed d.qcow2.alloc_offset xs (alloc_space needed d)
  unfolding allocate
  alloc_space-Granted d xs needed h b room =
      let r = find_fit free_scan_limit needed xs in
      let m = allocated needed d.qcow2.alloc_offset xs r in
      Agrees-Granted needed d.qcow2.alloc_offset xs m.0 m.1 m.2 (alloc_space needed d)
        (allocated-Grant needed d.qcow2.alloc_offset xs r refl room h.spaced b)
        (alloc_space-allocate disk d xs needed h)

  -- On a disk that works, an extent that meets no free one and is freed is given out by the next
  -- allocation that it is large enough for.
  pub free_then_alloc :
      (d : Device k) (phys n : ℕ) (xs : List Extent) (needed : ℕ)
      → HasFree disk d xs
      → Spaced ((phys, n) ∷ xs)
      → needed ≤ n
      → (alloc_space needed (free_extent phys n d).1).0 ≡ ok phys
  free_then_alloc d phys n xs needed h s le =
      let (done, has, head, cursor) = free_extent-HasFree disk d phys n xs h s in
      (alloc_space-allocate disk (free_extent phys n d).1 ((phys, n) ∷ xs) needed has).0
      ∙ ap ok (allocate_first needed (free_extent phys n d).1.qcow2.alloc_offset phys n xs le)
