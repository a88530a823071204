-- ===== src/Qcow2/Init.antt =====
-- The opening and closing of the backing store in src/lbd_qcow2.c, and the reload of its L1 table.
pub mod Header
use lbd.Prelude.{
  ℕ, zero, suc, ◌-◌, ◌*◌, ◌/◌, ◌^◌, Bool, true, false, not, ◌||◌, List, [], none, some, ltb, ◌==◌,
  if◌then◌else◌, replicate, map,
}
use lbd.Kernel.{Kernel, einval, enomem}
use lbd.Format.{qcow2_magic, qcow2_version, header_size, l2_trailer_size}
use lbd.Format.Header.{
  hdr_magic, hdr_version, hdr_cluster_bits, hdr_virtual_size, hdr_l1_table_offset, hdr_l1_size,
  hdr_alloc_offset, hdr_free_list,
}
use lbd.Qcow2.State.{
  L2Entry, ClEntry, Qcow2, M, pure, fail, ◌>>=◌, ◌>>◌, ignore, get_device, get_qcow2, set_qcow2,
  kvmalloc, read_all,
}
use lbd.Qcow2.Space.{write_alloc_offset, write_free_list_head}
use lbd.Qcow2.L2.{l2_cache_size, words_of, flush_all_l2}
use lbd.Qcow2.Cluster.{cl_cache_size}
use lbd.Qcow2.Base.{set_base}

-- Fresh memory is given as zeros; an entry that is not valid is not read.
abbrev pub fresh_l2 : ℕ → L2Entry → L2Entry
fresh_l2 cluster_size e = record e {
  table = replicate (cluster_size / 8) 0;
  valid = false;
  dirty = false;
}

abbrev pub fresh_cl : ℕ → ClEntry → ClEntry
fresh_cl cluster_size e = record e {
  bytes = replicate cluster_size 0;
  valid = false;
  dirty = false;
}

abbrev pub forget_l2 : L2Entry → L2Entry
forget_l2 e = record e { valid = false }

abbrev pub forget_cl : ClEntry → ClEntry
forget_cl e = record e { valid = false }

-- What the header says, once it is accepted.
abbrev pub with_header : List ℕ → Qcow2 → Qcow2
with_header hdr q = record q {
  cluster_size = 2 ^ q.cluster_bits;
  l2_entries = (2 ^ q.cluster_bits - l2_trailer_size) / 8;
  virtual_size = hdr_virtual_size hdr;
  l1_offset = hdr_l1_table_offset hdr;
  l1_size = hdr_l1_size hdr;
  alloc_offset = hdr_alloc_offset hdr;
  free_list_head = hdr_free_list hdr;
  lru_tick = 0;
}

module _ {k : Kernel} where
  -- So many allocations of a size: whether all succeed. The first that fails ends the loop.
  unfoldable pub alloc_many : ℕ → ℕ → M k Bool
  alloc_many zero size = pure true
  alloc_many (suc n) size = do
    given ← kvmalloc size
    if given then alloc_many n size else pure false

  unfoldable pub check_header : List ℕ → M k (Unit {0})
  check_header hdr =
      if not (hdr_magic hdr == qcow2_magic)
      then fail einval
      else if not (hdr_version hdr == qcow2_version)
      then fail einval
      else (do
        set_qcow2 (λ q. record q { cluster_bits = hdr_cluster_bits hdr })
        q ← get_qcow2
        if ltb q.cluster_bits 12 || ltb 24 q.cluster_bits
            then fail einval
            else set_qcow2 (with_header hdr))

  -- The two buffers of the L1 table are allocated, and the table is read.
  unfoldable pub read_l1 : k.File → (l1_size l1_offset : ℕ) → M k (List ℕ)
  unfolding words_of alloc_many
  read_l1 file l1_size l1_offset = do
    given ← alloc_many 2 (l1_size * 8)
    if not given
        then fail enomem
        else do raw ← read_all file (l1_size * 8) l1_offset; pure (words_of l1_size raw)

  -- The caches and the two buffers of the LZ4 functions are allocated.
  unfoldable pub alloc_caches : M k (Unit {0})
  unfolding alloc_many
  alloc_caches = do
    q ← get_qcow2
    tables ← alloc_many l2_cache_size q.cluster_size
    clusters ← (if tables then alloc_many cl_cache_size q.cluster_size else pure false)
    buffers ← (if clusters then alloc_many 2 (k.lz4_compress_bound q.cluster_size) else pure false)
    if not buffers
        then (do set_qcow2 (λ q. record q { l1_table = [] }); fail enomem)
        else set_qcow2 (λ q. record q {
          l2_cache = map (fresh_l2 q.cluster_size) q.l2_cache;
          cl_cache = map (fresh_cl q.cluster_size) q.cl_cache;
        })

  unfoldable pub qcow2_init : M k (Unit {0})
  unfolding check_header read_l1 alloc_caches
  qcow2_init = do
    given ← kvmalloc header_size
    if not given then fail enomem else do
      d ← get_device
      hdr ← read_all d.backing_file header_size 0
      check_header hdr
      set_qcow2 (λ q. record q { l1_table = [] })
      q ← get_qcow2
      l1 ← read_l1 d.backing_file q.l1_size q.l1_offset
      set_qcow2 (λ q. record q { l1_table = l1 })
      alloc_caches

  unfoldable pub qcow2_destroy : M k (Unit {0})
  qcow2_destroy = do
    flush_all_l2
    ignore write_alloc_offset
    ignore write_free_list_head
    set_qcow2 (λ q. record q { l1_table = [] })

  -- The cursor and the free list are taken from the header before the table is read.
  unfoldable pub reload_l1 : M k (Unit {0})
  unfolding read_l1
  reload_l1 = do
    given ← kvmalloc header_size
    if not given then fail enomem else do
      d ← get_device
      hdr ← read_all d.backing_file header_size 0
      set_qcow2 (λ q. record q {
        alloc_offset = hdr_alloc_offset hdr;
        free_list_head = hdr_free_list hdr;
      })
      l1 ← read_l1 d.backing_file (hdr_l1_size hdr) (hdr_l1_table_offset hdr)
      set_qcow2 (λ q. record q {
        l1_table = l1;
        l1_size = hdr_l1_size hdr;
        l1_offset = hdr_l1_table_offset hdr;
      })

  unfoldable pub invalidate_all_caches : M k (Unit {0})
  invalidate_all_caches = do
    d ← get_device
    set_qcow2
        (λ q. record q { cl_cache = map forget_cl q.cl_cache; l2_cache = map forget_l2 q.l2_cache })
    elim d.base [
      | none ↦ pure tt
      | some b ↦
          if b.is_qcow2
          then set_base (record b { l2_cache = map forget_l2 b.l2_cache })
          else pure tt
    ]
