-- ===== src/Qcow2/Store.antt =====
-- The write path and the trim path of src/lbd_qcow2.c.
pub mod Place
pub mod Size
pub mod Loop
use lbd.Prelude.{
  ℕ, zero, suc, ◌+◌, ◌-◌, ◌*◌, ◌/◌, ◌%◌, ◌^◌, true, not, ◌&&◌, List, [], ◌∷◌, ◌++◌, none, some, ltb,
  leb, ◌==◌, if◌then◌else◌, add64, length, get_or, set, overlay_at, take, drop, replicate,
}
use Prim.Native.Nat.{min}
use lbd.Kernel.{Kernel, eio, enomem}
use lbd.Format.{be32, l2_offset, compressed_entry}
use lbd.Qcow2.State.{
  M, pure, fail, ◌>>=◌, ◌>>◌, ignore, get_device, get_qcow2, set_qcow2, set_stats, kvmalloc,
  write_all, inc64,
}
use lbd.Qcow2.Space.{align_4096, write_alloc_offset, read_old_alloc_size, free_extent, alloc_space}
use lbd.Qcow2.L2.{l2_at, update_l2, l2_get, l2_flush, l2_alloc}
use lbd.Qcow2.Cluster.{cl_at, update_cl, entry, null, enodata, cl_invalidate, cl_get_zero, cl_load}

-- The segments of a request, gathered into one buffer.
abbrev pub gather : List (List ℕ) → List ℕ
gather [] = []
gather (s ∷ ss) = s ++ gather ss

module _ {k : Kernel} where
  -- Where the new contents go: in place if the old extent is large enough, and else elsewhere, with
  -- the old extent freed first. `free` is how a caller takes a failure to free it.
  unfoldable pub place :
      (free : M k (Unit {0}) → M k (Unit {0})) → (old_l2 old_alloc new_alloc : ℕ) → M k ℕ
  place free old_l2 old_alloc new_alloc =
      if ltb 0 old_alloc && leb new_alloc old_alloc
      then (do
        set_stats (λ s. record s { alloc_reused = inc64 s.alloc_reused })
        pure (l2_offset old_l2))
      else (do
        (if ltb 0 old_alloc then free (free_extent (l2_offset old_l2) old_alloc) else pure tt)
        alloc_space new_alloc)

  -- The L2 entry is replaced in the cached table.
  unfoldable pub set_l2_entry : (i l2_idx value : ℕ) → M k (Unit {0})
  set_l2_entry i l2_idx value =
      set_qcow2 (update_l2 i (λ e. record e { table = set e.table l2_idx value; dirty = true }))

  unfoldable pub store_compressed :
      (free : M k (Unit {0}) → M k (Unit {0}))
      → (i l2_idx old_l2 old_alloc : ℕ) → List ℕ
      → M k (Unit {0})
  unfolding place set_l2_entry
  store_compressed free i l2_idx old_l2 old_alloc comp = do
    phys ← place free old_l2 old_alloc (align_4096 (4 + length comp))
    d ← get_device
    write_all d.backing_file (be32 (length comp)) phys
    write_all d.backing_file comp (add64 phys 4)
    set_l2_entry i l2_idx (compressed_entry phys)
    set_stats (λ s. record s { compressed = inc64 s.compressed })

  unfoldable pub store_plain :
      (free : M k (Unit {0}) → M k (Unit {0}))
      → (i l2_idx old_l2 old_alloc : ℕ) → List ℕ
      → M k (Unit {0})
  unfolding place set_l2_entry
  store_plain free i l2_idx old_l2 old_alloc bytes = do
    q ← get_qcow2
    phys ← place free old_l2 old_alloc q.cluster_size
    d ← get_device
    write_all d.backing_file bytes phys
    set_l2_entry i l2_idx phys
    set_stats (λ s. record s { uncompressed = inc64 s.uncompressed })

  -- The cluster's new contents are compressed, stored, and entered in the L2 table, which goes to
  -- disk with the allocation cursor.
  unfoldable pub write_back :
      (free : M k (Unit {0}) → M k (Unit {0}))
      → (i l2_idx old_l2 old_alloc : ℕ) → List ℕ
      → M k (Unit {0})
  unfolding store_compressed store_plain
  write_back free i l2_idx old_l2 old_alloc bytes = do
    q ← get_qcow2
    let comp = k.lz4_compress bytes (k.lz4_compress_bound q.cluster_size)
    (if ltb 0 (length comp) && ltb (length comp) (q.cluster_size - 4)
        then store_compressed free i l2_idx old_l2 old_alloc comp
        else store_plain free i l2_idx old_l2 old_alloc bytes)
    l2_flush i
    write_alloc_offset

  -- The L2 entry of a cluster, read again after the cluster is loaded, with its table's place in the
  -- cache.
  unfoldable pub update_cluster :
      (free : M k (Unit {0}) → M k (Unit {0}))
      → (ci i l2_idx old_l2 off_in_cluster : ℕ) → List ℕ
      → M k (Unit {0})
  unfolding write_back
  update_cluster free ci i l2_idx old_l2 off_in_cluster bytes = do
    old_alloc ← read_old_alloc_size old_l2
    set_qcow2 (update_cl ci (λ e. record e { bytes = overlay_at e.bytes off_in_cluster bytes }))
    q ← get_qcow2
    write_back free i l2_idx old_l2 old_alloc (cl_at q ci).bytes

  -- The cache entry to write into: a cluster that userspace would have to fetch starts out zeroed.
  unfoldable pub load_for_write : ℕ → M k ℕ
  load_for_write cluster_idx = do
    loaded ← cl_load cluster_idx
    elim loaded [ entry ci ↦ pure ci | null ↦ fail eio | enodata ↦ cl_get_zero cluster_idx ]

  -- One round of `lbd_qcow2_write`.
  unfoldable pub write_chunk : (cluster_idx off_in_cluster : ℕ) → List ℕ → M k (Unit {0})
  unfolding load_for_write update_cluster
  write_chunk cluster_idx off_in_cluster bytes = do
    q ← get_qcow2
    let l1_idx = cluster_idx / q.l2_entries % 2 ^ 32
    let l2_idx = cluster_idx % q.l2_entries
    l2_alloc l1_idx
    ci ← load_for_write cluster_idx
    l2e ← l2_get l1_idx
    elim l2e [
      | none ↦ fail eio
      | some i ↦ (do
        q' ← get_qcow2
        update_cluster (λ m. m) ci i l2_idx (get_or (l2_at q' i).table l2_idx 0) off_in_cluster
            bytes)
    ]

  -- Every round takes at least one byte, so that as many rounds as there are bytes are enough.
  unfoldable pub write_loop : (fuel guest_offset : ℕ) → List ℕ → M k (Unit {0})
  unfolding write_chunk
  write_loop zero guest_offset bytes = pure tt
  write_loop (suc fuel) guest_offset bytes = if length bytes == 0 then pure tt else do
    q ← get_qcow2
    let off_in_cluster = guest_offset % q.cluster_size
    let n = min (length bytes) (q.cluster_size - off_in_cluster)
    write_chunk (guest_offset / 2 ^ q.cluster_bits) off_in_cluster (take n bytes)
    write_loop fuel (guest_offset + n) (drop n bytes)

  unfoldable pub qcow2_write : ℕ → List (List ℕ) → M k (Unit {0})
  unfolding write_loop
  qcow2_write sector segments = do
    let bytes = gather segments
    given ← kvmalloc (length bytes)
    if not given then fail enomem else write_loop (length bytes) (sector * 512) bytes

  -- A whole cluster is trimmed: its extent is freed and its entry cleared.
  unfoldable pub clear_entry : (i l2_idx : ℕ) → M k (Unit {0})
  unfolding set_l2_entry
  clear_entry i l2_idx = do
    q ← get_qcow2
    let old_l2 = get_or (l2_at q i).table l2_idx 0
    if old_l2 == 0 then pure tt else do
      old_sz ← read_old_alloc_size old_l2
      (if ltb 0 old_sz then ignore (free_extent (l2_offset old_l2) old_sz) else pure tt)
      set_l2_entry i l2_idx 0
      l2_flush i

  unfoldable pub discard_cluster : ℕ → M k (Unit {0})
  unfolding clear_entry
  discard_cluster cluster_idx = do
    q ← get_qcow2
    let l1_idx = cluster_idx / q.l2_entries % 2 ^ 32
    (if ltb l1_idx q.l1_size && not (get_or q.l1_table l1_idx 0 == 0)
        then (do
          l2e ← l2_get l1_idx
          elim l2e [ none ↦ pure tt | some i ↦ clear_entry i (cluster_idx % q.l2_entries) ])
        else pure tt)
    cl_invalidate cluster_idx

  -- A part of a cluster is trimmed: the cluster is read, zeroed there and written back.
  unfoldable pub discard_part : (cluster_idx off_in_cluster bytes : ℕ) → M k (Unit {0})
  unfolding update_cluster
  discard_part cluster_idx off_in_cluster bytes = do
    q ← get_qcow2
    let l1_idx = cluster_idx / q.l2_entries % 2 ^ 32
    let l2_idx = cluster_idx % q.l2_entries
    l2_alloc l1_idx
    loaded ← cl_load cluster_idx
    elim loaded [
      | enodata ↦ pure tt
      | null ↦ fail eio
      | entry ci ↦ (do
        l2e ← l2_get l1_idx
        elim l2e [
          | none ↦ fail eio
          | some i ↦ (do
            q' ← get_qcow2
            let old_l2 = get_or (l2_at q' i).table l2_idx 0
            if old_l2 == 0
                then pure tt
                else update_cluster ignore ci i l2_idx old_l2 off_in_cluster (replicate bytes 0))
        ])
    ]

  -- Every round takes at least one byte.
  unfoldable pub discard_loop : (fuel guest_offset remaining : ℕ) → M k (Unit {0})
  unfolding discard_cluster discard_part
  discard_loop zero guest_offset remaining = pure tt
  discard_loop (suc fuel) guest_offset remaining = if remaining == 0 then pure tt else do
    q ← get_qcow2
    let cluster_idx = guest_offset / 2 ^ q.cluster_bits
    let off_in_cluster = guest_offset % q.cluster_size
    let bytes = min remaining (q.cluster_size - off_in_cluster)
    (if off_in_cluster == 0 && bytes == q.cluster_size
        then discard_cluster cluster_idx
        else discard_part cluster_idx off_in_cluster bytes)
    discard_loop fuel (guest_offset + bytes) (remaining - bytes)

  unfoldable pub qcow2_discard : (sector remaining : ℕ) → M k (Unit {0})
  unfolding discard_loop
  qcow2_discard sector remaining = discard_loop remaining (sector * 512) remaining
