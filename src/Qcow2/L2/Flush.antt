-- ===== src/Qcow2/L2/Flush.antt =====
-- `lbd_qcow2_l2_flush` on a disk that works: the table that it wrote is read back.
use lbd.Prelude.{
  ℕ, ◌+◌, ◌-◌, ◌*◌, ◌≤◌, ◌<◌, ◌≡◌, ◌≢◌, refl, ap, sym, ◌∙◌, true, false, List, some, arith, length,
  take, overlay, get_or, ne→==, ==_refl, get_or-modify_self,
}
use lbd.Kernel.{Kernel}
use lbd.Disk.{Disk, window, patch, window-patch_self}
use lbd.Qcow2.State.{L2Entry, Device, ok}
use lbd.Qcow2.OnDisk.{view, file_size, after_write, read_all-window, write_all-ok}
use lbd.Qcow2.L2.{no_entry, l2_at, update_l2, crc_of, l2_image, read_l2_table, l2_flush}
use lbd.Qcow2.L2.Image.{Words, length-l2_image, words_of-l2_image, get32-l2_image}

module _ {k : Kernel} (disk : Disk k) where
  -- A table whose image stands at `phys` is read.
  read_l2_table-l2_image :
      (d : Device k) (cluster_size l2_entries phys : ℕ) (table old : List ℕ)
      → 8 * l2_entries + 8 ≤ cluster_size
      → l2_entries ≤ length table
      → Words table
      → phys + cluster_size ≤ file_size disk d
      → window (view disk d) phys cluster_size ≡ l2_image k cluster_size l2_entries table
      → (k.kvmalloc cluster_size d.world).0 ≡ true
      → (read_l2_table d.backing_file cluster_size l2_entries phys old d).0
        ≡ ok (some (overlay old (take l2_entries table)))
  unfolding read_l2_table
  read_l2_table-l2_image d cluster_size l2_entries phys table old room full words inside stands
        memory =
      let d1 : Device k = record d { world = (k.kvmalloc cluster_size d.world).1 } in
      let shown : window (view disk d1) phys cluster_size
          ≡ l2_image k cluster_size l2_entries table =
        rw (disk.alloc_keeps d.backing_file cluster_size d.world) stands in
      let here : phys + cluster_size ≤ file_size disk d1 =
        rw (disk.alloc_size d.backing_file cluster_size d.world) inside in
      let crc = get32-l2_image k cluster_size l2_entries table (omega arith) in
      rw
        (
          memory,
          read_all-window disk d1 cluster_size phys here,
          shown,
          crc,
          ==_refl (crc_of k (l2_image k cluster_size l2_entries table) (cluster_size - 4)),
          words_of-l2_image k cluster_size l2_entries table room full words,
        )
        refl

  -- The table in entry `i` of the cache, and its place on disk.
  abbrev table_at : Device k → ℕ → List ℕ
  table_at d i = (l2_at d.qcow2 i).table

  abbrev place_of : Device k → ℕ → ℕ
  place_of d i = get_or d.qcow2.l1_table (l2_at d.qcow2 i).l1_index 0

  abbrev image_of : Device k → ℕ → List ℕ
  image_of d i = l2_image k d.qcow2.cluster_size d.qcow2.l2_entries (table_at d i)

  -- The device after a flush that writes.
  abbrev flushed : Device k → ℕ → Device k
  flushed d i =
      record (after_write disk (record d { world = (k.kvmalloc d.qcow2.cluster_size d.world).1 })
        (image_of d i) (place_of d i)) {
          qcow2 = update_l2 i (λ e. record e { dirty = false }) d.qcow2;
        }

  l2_flush_run :
      (d : Device k) (i : ℕ)
      → (l2_at d.qcow2 i).valid ≡ true
      → (l2_at d.qcow2 i).dirty ≡ true
      → place_of d i ≢ 0
      → (k.kvmalloc d.qcow2.cluster_size d.world).0 ≡ true
      → l2_flush i d ≡ (ok tt, flushed d i)
  unfolding l2_flush
  l2_flush_run d i valid dirty placed memory =
      rw
        (
          valid,
          dirty,
          ne→== (place_of d i) 0 placed,
          memory,
          write_all-ok disk (record d { world = (k.kvmalloc d.qcow2.cluster_size d.world).1 })
              (image_of d i) (place_of d i),
        )
        refl

  -- On a disk that works, and with memory for two buffers, flushing a dirty table that is
  -- allocated, whose words fit 64 bits and fill the entries, and leave eight bytes of the
  -- cluster, succeeds and clears its flag; reading the table from where it was written then
  -- passes the test of the CRC and gives its words back.
  pub l2_flush-read_l2_table :
      (d : Device k) (i : ℕ) (old : List ℕ)
      → i < length d.qcow2.l2_cache
      → (l2_at d.qcow2 i).valid ≡ true
      → (l2_at d.qcow2 i).dirty ≡ true
      → place_of d i ≢ 0
      → 8 * d.qcow2.l2_entries + 8 ≤ d.qcow2.cluster_size
      → d.qcow2.l2_entries ≤ length (table_at d i)
      → Words (table_at d i)
      → (k.kvmalloc d.qcow2.cluster_size d.world).0 ≡ true
      → (k.kvmalloc d.qcow2.cluster_size (l2_flush i d).1.world).0 ≡ true
      → ((l2_flush i d).0 ≡ ok tt)
        × ((l2_at (l2_flush i d).1.qcow2 i).dirty ≡ false)
        × ((read_l2_table d.backing_file d.qcow2.cluster_size d.qcow2.l2_entries
              (place_of d i)
              old
              (l2_flush i d).1).0
            ≡ ok (some (overlay old (take d.qcow2.l2_entries (table_at d i)))))
  l2_flush-read_l2_table d i old inside valid dirty placed room full words memory again =
      let q = d.qcow2 in
      let run = l2_flush_run d i valid dirty placed memory in
      let w1 = (k.kvmalloc q.cluster_size d.world).1 in
      let image = image_of d i in
      let long : length image ≡ q.cluster_size =
        length-l2_image k q.cluster_size q.l2_entries (table_at d i) in
      let holds = disk.write_holds d.backing_file image (place_of d i) w1 in
      let stands : window (view disk (flushed d i)) (place_of d i) q.cluster_size ≡ image =
        ap (λ c. window c (place_of d i) q.cluster_size)
          (disk.write_puts d.backing_file image (place_of d i) w1)
        ∙ ap (window (patch (disk.peek w1 d.backing_file) (place_of d i) image) (place_of d i))
            (sym long)
        ∙ window-patch_self (disk.peek w1 d.backing_file) (place_of d i) image in
      let memory' : (k.kvmalloc q.cluster_size (flushed d i).world).0 ≡ true =
        sym (ap (λ r. (k.kvmalloc q.cluster_size r.1.world).0) run) ∙ again in
      rw run (
        refl,
        ap (λ (e : L2Entry). e.dirty)
            (get_or-modify_self q.l2_cache i (λ e. record e { dirty = false }) no_entry inside),
        read_l2_table-l2_image (flushed d i) q.cluster_size q.l2_entries (place_of d i)
            (table_at d i) old room full words (omega (arith, holds, long)) stands memory',
      )
