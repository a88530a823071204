-- ===== src/Qcow2/Space/Alloc.antt =====
-- `lbd_qcow2_alloc_space` does what the model of the allocator does.
use lbd.Prelude.{
  ℕ, ◌+◌, ◌-◌, ◌≤◌, ◌≡◌, refl, ◌∙◌, sym, subst, ap, List, [], ◌∷◌, ◌++◌, append_assoc, arith, true,
  Option, none, some, add64,
}
use lbd.Kernel.{Kernel}
use lbd.Disk.{Disk}
use lbd.Format.{be64}
use lbd.Qcow2.State.{Device, ok, Outcome}
use lbd.Qcow2.Space.{free_scan_limit, alloc_append, unlink_extent, take_extent, alloc_space}
use lbd.Qcow2.Space.Scan.{first_after, prev_after, finish, SameDisk, alloc_scan-find_fit}
use lbd.Qcow2.Space.Free.{HasFree, split_device, split_extent_run, split_device-HasFree}
use lbd.Qcow2.OnDisk.{view, file_size, after_write, write_all-ok}
use lbd.Qcow2.FreeList.{Extent, next_of, FreeList}
use lbd.Qcow2.FreeList.Fit.{Found, find_fit, find_fit-append, Spaced-remove, FreeList-unlink}
use lbd.Qcow2.FreeList.Model.{
  split_list, Allocated, allocated, allocate, Spaced-middle, Spaced-leftover,
}

-- The last extent of a front that is not empty is the one that the loop remembers.
last_of :
    (prev : ℕ) (e : Extent) (front : List Extent)
    → (before : List Extent) × (m : ℕ) × (e ∷ front
        ≡ before ++ (prev_after prev (e ∷ front), m) ∷ [])
last_of prev (q, m) [] = ([], m, refl)
last_of prev (q, m) (e ∷ front) =
    let (before, m', eq) = last_of q e front in
    ((q, m) ∷ before, m', ap (λ (l : List Extent). (q, m) ∷ l) eq)

module _ {k : Kernel} (disk : Disk k) where
  -- Taking the first extent off the list changes the device's pointer only.
  abbrev headless : Device k → ℕ → Device k
  headless d next = record d { qcow2 = record (d.qcow2) { free_list_head = next } }

  -- The device after the extent at `p`, behind `front`, is taken off the list.
  abbrev unlinked : Device k → ℕ → List Extent → Device k
  unlinked d p [] = headless d (next_of (view disk d) p)
  unlinked d p (e ∷ front) =
      after_write disk d (be64 (next_of (view disk d) p)) (add64 (prev_after 0 (e ∷ front)) 8)

  FreeList-tail :
      (c : ℕ → ℕ) (size head : ℕ) (front : List Extent) (p n : ℕ) (rest : List Extent)
      → FreeList c size head (front ++ (p, n) ∷ rest)
      → FreeList c size (next_of c p) rest
  FreeList-tail c size head [] p n rest f = f.5
  FreeList-tail c size head ((q, m) ∷ front) p n rest f =
      FreeList-tail c size (next_of c q) front p n rest f.5

  unlink_extent_run :
      (d : Device k) (p : ℕ) (front : List Extent)
      → unlink_extent (first_after true front) (prev_after 0 front) (next_of (view disk d) p) d
        ≡ (ok true, unlinked d p front)
  unfolding unlink_extent
  unlink_extent_run d p [] = refl
  unlink_extent_run d p (e ∷ front) =
      rw (write_all-ok disk d (be64 (next_of (view disk d) p)) (add64 (prev_after 0 (e ∷ front)) 8))

  -- The list behind the last extent `q` of a front, in the form that `FreeList-unlink` reads.
  unlinked-listed :
      (d : Device k) (p n : ℕ) (before : List Extent) (q m : ℕ) (rest : List Extent)
      → HasFree disk d (before ++ (q, m) ∷ (p, n) ∷ rest)
      → FreeList
          (disk.peek
            (after_write disk d (be64 (next_of (view disk d) p)) (add64 q 8)).world
            d.backing_file)
          (disk.size
            (after_write disk d (be64 (next_of (view disk d) p)) (add64 q 8)).world
            d.backing_file)
          d.qcow2.free_list_head
          (before ++ (q, m) ∷ rest)
  unlinked-listed d p n before q m rest h =
      let v = be64 (next_of (view disk d) p) in
      let (low, entry, word, top) = Spaced-middle before q m ((p, n) ∷ rest) h.spaced in
      let at : add64 q 8 ≡ q + 8 = omega arith in
      rw (at, disk.write_puts d.backing_file v (q + 8) d.world)
        (FreeList-unlink (view disk d) (file_size disk d)
          (file_size disk (after_write disk d v (q + 8))) d.qcow2.free_list_head before q m p n rest
          (disk.write_grows d.backing_file v (q + 8) d.world) h.spaced h.listed)

  unlinked-HasFree :
      (d : Device k) (front : List Extent) (p n : ℕ) (rest : List Extent)
      → HasFree disk d (front ++ (p, n) ∷ rest)
      → HasFree disk (unlinked d p front) (front ++ rest)
  unlinked-HasFree d [] p n rest h = record { spaced = h.spaced.5; listed = h.listed.5 }
  unlinked-HasFree d (e ∷ front) p n rest h =
      let (before, m, eq) = last_of 0 e front in
      let q = prev_after 0 (e ∷ front) in
      let whole : (e ∷ front) ++ (p, n) ∷ rest ≡ before ++ (q, m) ∷ (p, n) ∷ rest =
        ap (λ (l : List Extent). l ++ (p, n) ∷ rest) eq
        ∙ append_assoc before ((q, m) ∷ []) ((p, n) ∷ rest) in
      let less : before ++ (q, m) ∷ rest ≡ (e ∷ front) ++ rest =
        sym (ap (λ (l : List Extent). l ++ rest) eq ∙ append_assoc before ((q, m) ∷ []) rest) in
      record {
        spaced = Spaced-remove (e ∷ front) (p, n) rest h.spaced;
        listed =
            subst
              (FreeList (view disk (unlinked d p (e ∷ front)))
                (file_size disk (unlinked d p (e ∷ front))) d.qcow2.free_list_head)
              less (unlinked-listed d p n before q m rest (subst (HasFree disk d) whole h));
      }

  unlinked_cursor :
      (d : Device k) (p : ℕ) (front : List Extent)
      → (unlinked d p front).qcow2.alloc_offset ≡ d.qcow2.alloc_offset
  unlinked_cursor d p [] = refl
  unlinked_cursor d p (e ∷ front) = refl

  split_device_cursor :
      (d : Device k) (s rest : ℕ)
      → (split_device disk d s rest).qcow2.alloc_offset ≡ d.qcow2.alloc_offset
  split_device_cursor d s rest = ground arith

  -- The device, the position and the free list agree with a result of the model.
  abbrev pub Agrees : Allocated → Outcome ℕ × Device k → Type 0
  Agrees (phys, cursor, xs) (r, d) =
      (r ≡ ok phys) × (d.qcow2.alloc_offset ≡ cursor) × HasFree disk d xs

  take_extent-Agrees :
      (d : Device k) (front : List Extent) (p n : ℕ) (rest : List Extent) (needed : ℕ)
      → needed ≤ n
      → HasFree disk d (front ++ (p, n) ∷ rest)
      → Agrees
          (p, d.qcow2.alloc_offset, split_list (p + needed) (n - needed) (front ++ rest))
          (take_extent
            (first_after true front)
            (prev_after 0 front)
            p
            needed
            n
            (next_of (view disk d) p)
            d)
  unfolding take_extent
  take_extent-Agrees d front p n rest needed le h =
      let (low, entry, word, top) = Spaced-middle front p n rest h.spaced in
      let at : add64 p needed ≡ p + needed = omega arith in
      let d3 = unlinked d p front in
      let split =
        split_device-HasFree disk d3 (p + needed) (n - needed) (front ++ rest)
          (unlinked-HasFree d front p n rest h)
          (Spaced-leftover front p n rest needed le h.spaced) in
      rw (unlink_extent_run d p front, split_extent_run disk d3 (add64 p needed) (n - needed), at)
        (
          refl,
          split_device_cursor d3 (p + needed) (n - needed) ∙ unlinked_cursor d p front,
          record { spaced = split.spaced; listed = split.listed },
        )

  read_only-HasFree :
      (d : Device k) (w : k.World) (xs : List Extent)
      → SameDisk disk d w
      → HasFree disk d xs
      → HasFree disk (record d { world = w }) xs
  read_only-HasFree d w xs same h = record {
    spaced = h.spaced;
    listed = rw (same.contents, same.size) h.listed;
  }

  finish-Agrees :
      (d : Device k) (xs : List Extent) (needed : ℕ) (r : Option Found)
      → find_fit free_scan_limit needed xs ≡ r
      → HasFree disk d xs
      → Agrees
          (allocated needed d.qcow2.alloc_offset xs r)
          (finish disk (view disk d) true 0 needed r d)
  finish-Agrees d xs needed none e h =
      unfold alloc_append in (refl, refl, record { spaced = h.spaced; listed = h.listed })
  finish-Agrees d xs needed (some (front, p, n, rest)) e h =
      let (at, le) = find_fit-append free_scan_limit needed xs front p n rest e in
      take_extent-Agrees d front p n rest needed le (subst (HasFree disk d) at h)

  -- On a disk that works and a well-formed free list an allocation succeeds, gives out the
  -- position that the model gives out, and leaves the cursor and the free list of the model.
  pub alloc_space-allocate :
      (d : Device k) (xs : List Extent) (needed : ℕ)
      → HasFree disk d xs
      → Agrees (allocate needed d.qcow2.alloc_offset xs) (alloc_space needed d)
  unfolding alloc_space allocate
  alloc_space-allocate d xs needed h =
      let (w, same, eq) =
        alloc_scan-find_fit disk free_scan_limit true 0 d.qcow2.free_list_head needed d xs
          h.listed in
      let here = record d { world = w } in
      rw (eq, sym same.contents)
        (finish-Agrees here xs needed (find_fit free_scan_limit needed xs) refl
          (read_only-HasFree d w xs same h))
