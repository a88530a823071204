-- ===== src/Qcow2/Space/Scan.antt =====
-- The loop of `lbd_qcow2_alloc_space` finds what `find_fit` finds.
use lbd.Prelude.{
  ℕ, zero, suc, ◌+◌, ◌≤◌, ◌≡◌, ◌≢◌, refl, ◌∙◌, sym, List, [], ◌∷◌, leb, if◌then◌else◌, Option, none,
  some, Bool, false, inl, inr, Bool-cases, ne→==,
}
use lbd.Kernel.{Kernel}
use lbd.Disk.{Disk, window}
use lbd.Format.{get32, free_tombstone}
use lbd.Qcow2.State.{Device, Outcome}
use lbd.Qcow2.Space.{alloc_append, take_extent, alloc_scan}
use lbd.Qcow2.OnDisk.{view, file_size, after_read, read_all-window}
use lbd.Qcow2.FreeList.{Extent, next_of, FreeList}
use lbd.Qcow2.FreeList.Fit.{Found, find_fit, behind}

-- `is_first` and `prev_phys` after the extents `front` have been passed.
abbrev pub first_after : Bool → List Extent → Bool
first_after first [] = first
first_after first (e ∷ front) = false

abbrev pub prev_after : ℕ → List Extent → ℕ
prev_after prev [] = prev
prev_after prev ((q, m) ∷ front) = prev_after q front

module _ {k : Kernel} (disk : Disk k) where
  -- What the loop goes on to do.
  abbrev pub finish : (ℕ → ℕ) → Bool → ℕ → ℕ → Option Found → Device k → Outcome ℕ × Device k
  finish c first prev needed none d = alloc_append needed d
  finish c first prev needed (some (front, p, n, rest)) d =
      take_extent (first_after first front) (prev_after prev front) p needed n (next_of c p) d

  first_after-false : (front : List Extent) → first_after false front ≡ false
  first_after-false [] = refl
  first_after-false (e ∷ front) = refl

  finish-behind :
      (c : ℕ → ℕ) (first : Bool) (prev needed p n : ℕ) (r : Option Found) (d : Device k)
      → finish c first prev needed (behind (p, n) r) d ≡ finish c false p needed r d
  finish-behind c first prev needed p n none d = refl
  finish-behind c first prev needed p n (some (front, q, m, rest)) d = rw (first_after-false front)

  -- A device that differs from `d` at most in what reads change.
  pub record SameDisk (d : Device k) (w : k.World) : Type 0 where
    pub contents : disk.peek w d.backing_file ≡ view disk d
    pub size : disk.size w d.backing_file ≡ file_size disk d

  -- One round at an entry of the list.
  alloc_scan_round :
      (left : ℕ) (first : Bool) (prev p needed n : ℕ) (d : Device k)
      → p ≢ 0
      → p + 16 ≤ file_size disk d
      → get32 (window (view disk d) p 16) 0 ≡ free_tombstone
      → get32 (window (view disk d) p 16) 4 ≡ n
      → alloc_scan (suc left) first prev p needed d
        ≡ (if leb needed n
              then take_extent first prev p needed n (next_of (view disk d) p)
              else alloc_scan left false p (next_of (view disk d) p) needed)
            (after_read disk d 16 p)
  unfolding alloc_scan
  alloc_scan_round left first prev p needed n d ne fits mark size =
      rw (ne→== p 0 ne, read_all-window disk d 16 p fits, mark, size)

  read_same : (d : Device k) (p : ℕ) → SameDisk d (after_read disk d 16 p).world
  read_same d p = record {
    contents = disk.read_keeps d.backing_file 16 p d.world;
    size = disk.read_size d.backing_file 16 p d.world;
  }

  FreeList-same :
      (d : Device k) (w : k.World) (head : ℕ) (xs : List Extent)
      → SameDisk d w
      → FreeList (view disk d) (file_size disk d) head xs
      → FreeList (disk.peek w d.backing_file) (disk.size w d.backing_file) head xs
  FreeList-same d w head xs same f = rw (same.contents, same.size) f

  -- On a well-formed free list the loop finds what `find_fit` finds, and changes nothing before.
  pub alloc_scan-find_fit :
      (left : ℕ) (first : Bool) (prev cur needed : ℕ) (d : Device k) (xs : List Extent)
      → FreeList (view disk d) (file_size disk d) cur xs
      → (w : k.World) × SameDisk d w
        × (alloc_scan left first prev cur needed d
            ≡ finish
                (view disk d)
                first
                prev
                needed
                (find_fit left needed xs)
                (record d { world = w }))
  unfolding find_fit
  alloc_scan-find_fit zero first prev cur needed d xs f =
      (d.world, record { contents = refl; size = refl }, unfold alloc_scan in refl)
  alloc_scan-find_fit (suc left) first prev cur needed d [] f =
      (d.world, record { contents = refl; size = refl }, unfold alloc_scan in rw f)
  alloc_scan-find_fit (suc left) first prev cur needed d ((p, n) ∷ xs) f =
      let d1 = after_read disk d 16 p in
      let (w, same, next) =
        alloc_scan-find_fit left false p (next_of (view disk d) p) needed d1 xs
          (FreeList-same d d1.world (next_of (view disk d) p) xs (read_same d p) f.5) in
      let round = alloc_scan_round left first prev p needed n d f.1 f.2 f.3 f.4 in
      rw f.0 (elim (Bool-cases (leb needed n)) [
        | inl e ↦ (d1.world, read_same d p, rw (round, e))
        | inr e ↦ (
          w,
          record {
            contents = same.contents ∙ (read_same d p).contents;
            size = same.size ∙ (read_same d p).size;
          },
          rw (round, e)
              (next
                ∙ rw (read_same d p).contents (
                    sym (
                      finish-behind (view disk d) first prev needed p n (find_fit left needed xs)
                        (record d { world = w })))),
        )
      ])
