-- ===== src/Qcow2/Space.antt =====
-- The allocation of space in src/lbd_qcow2.c: the fields of the header that are kept up to date, the
-- size of an existing extent, the on-disk free list, and its first-fit search.
pub mod Scan
pub mod Free
pub mod Alloc
pub mod Safety
pub mod Tried
pub mod Total
use lbd.Prelude.{
  ℕ, zero, suc, ◌+◌, ◌-◌, ◌*◌, ◌/◌, Bool, true, false, not, List, ◌++◌, none, some, leb, ◌==◌,
  if◌then◌else◌, add64,
}
use lbd.Kernel.{Kernel}
use lbd.Format.{
  be32, be64, get32, get64, off_alloc_offset, off_free_list, free_tombstone, is_compressed,
  l2_offset,
}
use lbd.Qcow2.State.{
  M, pure, ◌>>=◌, ◌>>◌, attempt, ignore, get_device, set_qcow2, set_stats, read_all, write_all,
  inc64,
}

abbrev pub free_scan_limit : ℕ
free_scan_limit = 8

abbrev pub free_entry_min : ℕ
free_entry_min = 16

-- `ALIGN(n, 4096)`
abbrev pub align_4096 : ℕ → ℕ
align_4096 n = (n + 4095) / 4096 * 4096

-- What `lbd_qcow2_free_extent` writes: marker, size and next pointer.
abbrev pub tombstone : ℕ → ℕ → List ℕ
tombstone extent_size next = be32 free_tombstone ++ (be32 extent_size ++ be64 next)

module _ {k : Kernel} where
  unfoldable pub write_alloc_offset : M k (Unit {0})
  write_alloc_offset = do
    d ← get_device
    write_all d.backing_file (be64 d.qcow2.alloc_offset) off_alloc_offset

  unfoldable pub write_free_list_head : M k (Unit {0})
  write_free_list_head = do
    d ← get_device
    write_all d.backing_file (be64 d.qcow2.free_list_head) off_free_list

  -- The size of the extent behind an L2 entry: 0 if there is none or its size cannot be read.
  unfoldable pub read_old_alloc_size : ℕ → M k ℕ
  read_old_alloc_size l2_entry = do
    d ← get_device
    if l2_entry == 0
        then pure 0
        else if is_compressed l2_entry
        then (do
          size ← attempt (read_all d.backing_file 4 (l2_offset l2_entry))
          pure (elim size [ none ↦ 0 | some bs ↦ align_4096 (4 + get32 bs 0) ]))
        else pure d.qcow2.cluster_size

  unfoldable pub free_extent : ℕ → ℕ → M k (Unit {0})
  free_extent phys_offset extent_size = do
    d ← get_device
    write_all d.backing_file (tombstone extent_size d.qcow2.free_list_head) phys_offset
    set_qcow2 (λ q. record q { free_list_head = phys_offset })
    set_stats (λ s. record s { alloc_freed = inc64 s.alloc_freed })
    write_free_list_head

  -- The label `append` of `lbd_qcow2_alloc_space`.
  unfoldable pub alloc_append : ℕ → M k ℕ
  alloc_append needed = do
    d ← get_device
    set_qcow2 (λ q. record q { alloc_offset = add64 q.alloc_offset needed })
    set_stats (λ s. record s { alloc_new = inc64 s.alloc_new })
    pure d.qcow2.alloc_offset

  -- The entry is taken off the list: whether that worked.
  unfoldable pub unlink_extent : Bool → ℕ → ℕ → M k Bool
  unlink_extent true prev_phys next_free = do
    set_qcow2 (λ q. record q { free_list_head = next_free })
    pure true
  unlink_extent false prev_phys next_free = do
    d ← get_device
    done ← attempt (write_all d.backing_file (be64 next_free) (add64 prev_phys 8))
    pure (elim done [ none ↦ false | some _ ↦ true ])

  -- What is left of the extent goes back to the free list, if an entry fits in it.
  unfoldable pub split_extent : ℕ → ℕ → M k (Unit {0})
  split_extent split_phys remainder =
      if leb free_entry_min remainder
      then (do
        added ← attempt (free_extent split_phys remainder)
        elim added [ none ↦ ignore write_free_list_head | some _ ↦ pure tt ])
      else ignore write_free_list_head

  -- The extent at `cur` is large enough.
  unfoldable pub take_extent : Bool → ℕ → ℕ → ℕ → ℕ → ℕ → M k ℕ
  take_extent is_first prev_phys cur needed extent_size next_free = do
    unlinked ← unlink_extent is_first prev_phys next_free
    if unlinked
        then (do
          split_extent (add64 cur needed) (extent_size - needed)
          set_stats (λ s. record s { alloc_reused = inc64 s.alloc_reused })
          pure cur)
        else alloc_append needed

  -- The loop of `lbd_qcow2_alloc_space`, with the entries that may still be scanned.
  unfoldable pub alloc_scan : ℕ → Bool → ℕ → ℕ → ℕ → M k ℕ
  alloc_scan zero is_first prev_phys cur needed = alloc_append needed
  alloc_scan (suc left) is_first prev_phys cur needed = if cur == 0 then alloc_append needed else do
    d ← get_device
    entry ← attempt (read_all d.backing_file 16 cur)
    elim entry [
      | none ↦ alloc_append needed
      | some buf ↦
          if not (get32 buf 0 == free_tombstone)
          then alloc_append needed
          else if leb needed (get32 buf 4)
          then take_extent is_first prev_phys cur needed (get32 buf 4) (get64 buf 8)
          else alloc_scan left false cur (get64 buf 8) needed
    ]

  unfoldable pub alloc_space : ℕ → M k ℕ
  alloc_space needed = do
    d ← get_device
    alloc_scan free_scan_limit true 0 d.qcow2.free_list_head needed
