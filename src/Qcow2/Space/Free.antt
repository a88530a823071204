-- ===== src/Qcow2/Space/Free.antt =====
-- `lbd_qcow2_free_extent` and the header's pointer to the free list, on a disk that works.
use lbd.Prelude.{
  ℕ, ◌≤◌, ◌≡◌, refl, sym, subst, List, [], ◌∷◌, arith, leb, if◌then◌else◌, inl, inr, Bool-cases,
}
use lbd.Kernel.{Kernel}
use lbd.Disk.{Disk, window, window-patch_self}
use lbd.Format.{be64, off_free_list}
use lbd.Qcow2.State.{Device, ok, inc64}
use lbd.Qcow2.Space.{tombstone, free_entry_min, free_extent, split_extent, write_free_list_head}
use lbd.Qcow2.OnDisk.{view, file_size, after_write, write_all-ok}
use lbd.Qcow2.FreeList.{Extent, FreeList, ApartAll, Spaced, FreeList-patch, FreeList-cons}
use lbd.Qcow2.FreeList.Fit.{FreeList-head_bound}
use lbd.Qcow2.FreeList.Model.{split_list}

-- The fields of the header meet no extent.
header_apart : (xs : List Extent) → Spaced xs → ApartAll off_free_list 8 xs
header_apart [] s = tt
header_apart ((p, n) ∷ xs) s = (inl s.0, header_apart xs s.5)

module _ {k : Kernel} (disk : Disk k) where
  -- The device's free list is `xs`.
  pub record HasFree (d : Device k) (xs : List Extent) : Type 0 where
    pub spaced : Spaced xs
    pub listed : FreeList (view disk d) (file_size disk d) d.qcow2.free_list_head xs

  -- The header on disk has the device's pointer to the free list.
  abbrev pub HeadOnDisk : Device k → Type 0
  HeadOnDisk d = window (view disk d) off_free_list 8 ≡ be64 d.qcow2.free_list_head

  abbrev pub headed : Device k → Device k
  headed d = after_write disk d (be64 d.qcow2.free_list_head) off_free_list

  pub write_free_list_head-headed : (d : Device k) → write_free_list_head d ≡ (ok tt, headed d)
  unfolding write_free_list_head
  write_free_list_head-headed d = write_all-ok disk d (be64 d.qcow2.free_list_head) off_free_list

  pub headed-HasFree : (d : Device k) (xs : List Extent) → HasFree d xs → HasFree (headed d) xs
  headed-HasFree d xs h = record {
    spaced = h.spaced;
    listed =
        rw (disk.write_puts d.backing_file (be64 d.qcow2.free_list_head) off_free_list d.world) (
          FreeList-patch (view disk d) (file_size disk d) (file_size disk (headed d)) off_free_list
            (be64 d.qcow2.free_list_head) d.qcow2.free_list_head xs
            (disk.write_grows d.backing_file (be64 d.qcow2.free_list_head) off_free_list d.world)
            (header_apart xs h.spaced) h.spaced h.listed);
  }

  pub headed-HeadOnDisk : (d : Device k) → HeadOnDisk (headed d)
  headed-HeadOnDisk d =
      rw (disk.write_puts d.backing_file (be64 d.qcow2.free_list_head) off_free_list d.world)
        (window-patch_self (view disk d) off_free_list (be64 d.qcow2.free_list_head))

  -- After the tombstone, and before the header is written.
  abbrev pub linked : Device k → ℕ → ℕ → Device k
  linked d phys n = record (after_write disk d (tombstone n d.qcow2.free_list_head) phys) {
    qcow2 = record (d.qcow2) { free_list_head = phys };
    stats = record (d.stats) { alloc_freed = inc64 d.stats.alloc_freed };
  }

  pub free_extent-linked :
      (d : Device k) (phys n : ℕ) → free_extent phys n d ≡ (ok tt, headed (linked d phys n))
  unfolding free_extent
  free_extent-linked d phys n =
      rw (write_all-ok disk d (tombstone n d.qcow2.free_list_head) phys)
        (write_free_list_head-headed (linked d phys n))

  pub linked-HasFree :
      (d : Device k) (phys n : ℕ) (xs : List Extent)
      → HasFree d xs
      → Spaced ((phys, n) ∷ xs)
      → HasFree (linked d phys n) ((phys, n) ∷ xs)
  linked-HasFree d phys n xs h s =
      let mark = tombstone n d.qcow2.free_list_head in
      record {
        spaced = s;
        listed =
            subst (λ c. FreeList c (file_size disk (linked d phys n)) phys ((phys, n) ∷ xs))
              (sym (disk.write_puts d.backing_file mark phys d.world))
              (FreeList-cons (view disk d) (file_size disk d) (file_size disk (linked d phys n))
                phys n d.qcow2.free_list_head xs (disk.write_grows d.backing_file mark phys d.world)
                (disk.write_holds d.backing_file mark phys d.world)
                (FreeList-head_bound (view disk d) (file_size disk d) d.qcow2.free_list_head xs
                  h.spaced h.listed)
                s h.listed);
      }

  -- On a disk that works, freeing an extent that meets no free one succeeds, puts it in front of
  -- the free list, and leaves the header on disk pointing to it. The cursor stays.
  pub free_extent-HasFree :
      (d : Device k) (phys n : ℕ) (xs : List Extent)
      → HasFree d xs
      → Spaced ((phys, n) ∷ xs)
      → ((free_extent phys n d).0 ≡ ok tt)
        × HasFree (free_extent phys n d).1 ((phys, n) ∷ xs)
        × HeadOnDisk (free_extent phys n d).1
        × ((free_extent phys n d).1.qcow2.alloc_offset ≡ d.qcow2.alloc_offset)
  free_extent-HasFree d phys n xs h s = rw (free_extent-linked d phys n) (
    refl,
    headed-HasFree (linked d phys n) ((phys, n) ∷ xs) (linked-HasFree d phys n xs h s),
    headed-HeadOnDisk (linked d phys n),
    refl,
  )

  -- The device after `split_extent`.
  abbrev pub split_device : Device k → ℕ → ℕ → Device k
  split_device d s rest = if leb free_entry_min rest then headed (linked d s rest) else headed d

  pub split_extent_run :
      (d : Device k) (s rest : ℕ) → split_extent s rest d ≡ (ok tt, split_device d s rest)
  unfolding split_extent
  split_extent_run d s rest = elim (Bool-cases (leb free_entry_min rest)) [
    | inl e ↦ rw (e, free_extent-linked d s rest)
    | inr e ↦ rw (e, write_free_list_head-headed d)
  ]

  pub split_device-HasFree :
      (d : Device k) (s rest : ℕ) (xs : List Extent)
      → HasFree d xs
      → (free_entry_min ≤ rest → Spaced ((s, rest) ∷ xs))
      → HasFree (split_device d s rest) (split_list s rest xs)
  split_device-HasFree d s rest xs h fits = elim (Bool-cases (leb free_entry_min rest)) [
    | inl e ↦ rw e (
        headed-HasFree (linked d s rest) ((s, rest) ∷ xs)
          (linked-HasFree d s rest xs h (fits (ground arith))))
    | inr e ↦ rw e (headed-HasFree d xs h)
  ]
