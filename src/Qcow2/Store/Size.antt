-- ===== src/Qcow2/Store/Size.antt =====
-- The functions of the write path leave the size of a cluster alone.
use lbd.Prelude.{
  ℕ, zero, suc, refl, Bool, true, false, not, ◌&&◌, List, Option, none, some, arith, ltb, leb, ◌==◌,
  if◌then◌else◌, overlay_at,
}
use lbd.Kernel.{Kernel, eio}
use lbd.Format.{l2_offset, get32, get64, free_tombstone}
use lbd.Qcow2.Store.{
  place, set_l2_entry, store_compressed, store_plain, write_back, update_cluster, load_for_write,
}
use lbd.Qcow2.State.{
  M, Qcow2, pure, fail, get_device, get_qcow2, set_qcow2, ◌>>=◌, ◌>>◌, attempt, read_all, write_all,
}
use lbd.Qcow2.Space.{
  write_alloc_offset, write_free_list_head, read_old_alloc_size, free_extent, alloc_append,
  unlink_extent, split_extent, take_extent, alloc_scan, alloc_space, free_scan_limit,
}
use lbd.Qcow2.L2.{l2_flush, write_new_l2, l2_alloc}
use lbd.Qcow2.Cluster.{cl_at, update_cl, Loaded, entry, null, enodata, cl_load, cl_get_zero}
use lbd.Qcow2.Read.Size.{
  Keeps, and_then-SameSize, attempt-Keeps, if-Keeps, read_all-Keeps, cl_load-Keeps, cl_find-Keeps,
  cl_claim-Keeps,
}

module _ {k : Kernel} where
  pub free_extent-Keeps : (pos size : ℕ) → Keeps {k = k} (free_extent pos size)
  unfolding free_extent write_free_list_head write_all
  free_extent-Keeps pos size d = ground arith

  pub read_old_alloc_size-Keeps : (e : ℕ) → Keeps {k = k} (read_old_alloc_size e)
  unfolding read_old_alloc_size read_all
  read_old_alloc_size-Keeps e d = ground arith

  write_alloc_offset-Keeps : Keeps {k = k} write_alloc_offset
  unfolding write_alloc_offset write_all
  write_alloc_offset-Keeps d = ground arith

  unlink_extent-Keeps : (b : Bool) (p n : ℕ) → Keeps {k = k} (unlink_extent b p n)
  unfolding unlink_extent write_all
  unlink_extent-Keeps true p n d = refl
  unlink_extent-Keeps false p n d = ground arith

  split_extent-Keeps : (p n : ℕ) → Keeps {k = k} (split_extent p n)
  unfolding split_extent write_free_list_head write_all
  split_extent-Keeps p n d = grind (arith, free_extent-Keeps)

  take_extent-Keeps : (b : Bool) (p c n s f : ℕ) → Keeps {k = k} (take_extent b p c n s f)
  unfolding take_extent alloc_append
  take_extent-Keeps b p c n s f d = grind (arith, unlink_extent-Keeps, split_extent-Keeps)

  alloc_append-Keeps : (n : ℕ) → Keeps {k = k} (alloc_append n)
  unfolding alloc_append
  alloc_append-Keeps n d = refl

  alloc_scan-Keeps : (left : ℕ) (b : Bool) (p c n : ℕ) → Keeps {k = k} (alloc_scan left b p c n)
  unfolding alloc_scan read_all
  alloc_scan-Keeps zero b p c n = alloc_append-Keeps n
  alloc_scan-Keeps (suc left) b p c n =
      if-Keeps (c == 0) (alloc_append n) scan (alloc_append-Keeps n)
        (scan-Keeps (λ f. alloc_scan-Keeps left false c f n))
    where
      after : Option (List ℕ) → M k ℕ
      after none = alloc_append n
      after (some buf) =
          if not (get32 buf 0 == free_tombstone)
          then alloc_append n
          else if leb n (get32 buf 4)
          then take_extent b p c n (get32 buf 4) (get64 buf 8)
          else alloc_scan left false c (get64 buf 8) n

      scan : M k ℕ
      scan = get_device >>= λ d. (attempt (read_all d.backing_file 16 c) >>= after)

      after-Keeps :
          (rest : (f : ℕ) → Keeps {k = k} (alloc_scan left false c f n)) (o : Option (List ℕ))
          → Keeps {k = k} (after o)
      after-Keeps rest none = alloc_append-Keeps n
      after-Keeps rest (some buf) =
          if-Keeps (not (get32 buf 0 == free_tombstone)) (alloc_append n)
            (if leb n (get32 buf 4)
              then take_extent b p c n (get32 buf 4) (get64 buf 8)
              else alloc_scan left false c (get64 buf 8) n)
            (alloc_append-Keeps n)
            (if-Keeps (leb n (get32 buf 4)) (take_extent b p c n (get32 buf 4) (get64 buf 8))
              (alloc_scan left false c (get64 buf 8) n)
              (take_extent-Keeps b p c n (get32 buf 4) (get64 buf 8)) (rest (get64 buf 8)))

      scan-Keeps : ((f : ℕ) → Keeps {k = k} (alloc_scan left false c f n)) → Keeps {k = k} scan
      scan-Keeps rest d =
          and_then-SameSize d (attempt (read_all d.backing_file 16 c) d) after
            (attempt-Keeps (read_all d.backing_file 16 c) (read_all-Keeps d.backing_file 16 c) d)
            (after-Keeps rest)

  alloc_space-Keeps : (n : ℕ) → Keeps {k = k} (alloc_space n)
  unfolding alloc_space
  alloc_space-Keeps n d = alloc_scan-Keeps free_scan_limit true 0 d.qcow2.free_list_head n d

  pub l2_flush-Keeps : (i : ℕ) → Keeps {k = k} (l2_flush i)
  unfolding l2_flush write_all
  l2_flush-Keeps i d = ground arith

  pub l2_alloc-Keeps : (j : ℕ) → Keeps {k = k} (l2_alloc j)
  unfolding l2_alloc write_new_l2 write_all
  l2_alloc-Keeps j d = ground arith

  cl_get_zero-Keeps : (c : ℕ) → Keeps {k = k} (cl_get_zero c)
  unfolding cl_get_zero
  cl_get_zero-Keeps c d = grind (arith, cl_find-Keeps, cl_claim-Keeps)

  pub load_for_write-Keeps : (c : ℕ) → Keeps {k = k} (load_for_write c)
  unfolding load_for_write
  load_for_write-Keeps c d = and_then-SameSize d (cl_load c d) after (cl_load-Keeps c d) after-Keeps
    where
      after : Loaded → M k ℕ
      after (entry ci) = pure ci
      after null = fail eio
      after enodata = cl_get_zero c

      after-Keeps : (l : Loaded) → Keeps {k = k} (after l)
      after-Keeps (entry ci) d' = refl
      after-Keeps null d' = refl
      after-Keeps enodata d' = cl_get_zero-Keeps c d'

-- `free` is how a caller takes a failure to free an extent.
module _ {k : Kernel} (free : M k (Unit {0}) → M k (Unit {0}))
    (frees : (m : M k (Unit {0})) → Keeps m → Keeps (free m)) where
  place-Keeps : (e old new : ℕ) → Keeps (place free e old new)
  unfolding place
  place-Keeps e old new =
      if-Keeps (ltb 0 old && leb new old) _
        (do (if ltb 0 old then free (free_extent (l2_offset e) old) else pure tt); alloc_space new)
        (λ d. refl)
        (λ d.
          and_then-SameSize d
            ((if ltb 0 old then free (free_extent (l2_offset e) old) else pure tt) d)
            (λ x. alloc_space new)
            (if-Keeps (ltb 0 old) (free (free_extent (l2_offset e) old)) (pure tt)
              (frees (free_extent (l2_offset e) old) (free_extent-Keeps (l2_offset e) old))
              (λ d'. refl) d)
            (λ x. alloc_space-Keeps new))

  store_compressed-Keeps :
      (i l e old : ℕ) (comp : List ℕ) → Keeps (store_compressed free i l e old comp)
  unfolding store_compressed write_all set_l2_entry
  store_compressed-Keeps i l e old comp d = grind (arith, place-Keeps)

  store_plain-Keeps : (i l e old : ℕ) (bytes : List ℕ) → Keeps (store_plain free i l e old bytes)
  unfolding store_plain write_all set_l2_entry
  store_plain-Keeps i l e old bytes d = grind (arith, place-Keeps)

  write_back-Keeps : (i l e old : ℕ) (bytes : List ℕ) → Keeps (write_back free i l e old bytes)
  unfolding write_back
  write_back-Keeps i l e old bytes d =
      grind
        (arith, store_compressed-Keeps, store_plain-Keeps, l2_flush-Keeps, write_alloc_offset-Keeps)

  pub update_cluster-Keeps :
      (ci i l e off : ℕ) (bytes : List ℕ) → Keeps (update_cluster free ci i l e off bytes)
  unfolding update_cluster
  update_cluster-Keeps ci i l e off bytes d =
      and_then-SameSize d (read_old_alloc_size e d) after (read_old_alloc_size-Keeps e d)
        after-Keeps
    where
      change : Qcow2 → Qcow2
      change = update_cl ci (λ e. record e { bytes = overlay_at e.bytes off bytes })

      after : ℕ → M k (Unit {0})
      after old =
          set_qcow2 change >> (get_qcow2 >>= λ q. write_back free i l e old (cl_at q ci).bytes)

      after-Keeps : (old : ℕ) → Keeps (after old)
      after-Keeps old d' =
          write_back-Keeps i l e old (cl_at (change d'.qcow2) ci).bytes
            (record d' { qcow2 = change d'.qcow2 })
