-- ===== src/Qcow2/Cluster.antt =====
-- The cluster cache of src/lbd_qcow2.c.
pub mod Invalidate
pub mod Zero
use lbd.Prelude.{
  ℕ, ◌/◌, ◌%◌, ◌^◌, Bool, true, false, List, [], Option, none, some, ◌==◌, if◌then◌else◌, get_or,
  replicate, modify,
}
use lbd.Kernel.{Kernel}
use lbd.Qcow2.State.{
  ClEntry, Qcow2, M, pure, crash, ◌>>=◌, ◌>>◌, get_device, get_qcow2, set_qcow2, inc64,
}
use lbd.Qcow2.Cache.{find_entry, victim}
use lbd.Qcow2.L2.{l2_at, l2_get}
use lbd.Qcow2.Base.{filled, absent, broken, read_cluster, base_read_cluster}

abbrev pub cl_cache_size : ℕ
cl_cache_size = 16

abbrev pub no_cluster : ClEntry
no_cluster = record { cluster_index = 0; valid = false; dirty = false; lru = 0; bytes = [] }

abbrev pub cl_at : Qcow2 → ℕ → ClEntry
cl_at q i = get_or q.cl_cache i no_cluster

abbrev pub update_cl : ℕ → (ClEntry → ClEntry) → Qcow2 → Qcow2
update_cl i f q = record q { cl_cache = modify q.cl_cache i f }

-- The pointer that `lbd_qcow2_cl_load` returns: an entry, by its index in the cache, NULL, or
-- `ERR_PTR(-ENODATA)`.
pub data Loaded : Type 0 where
  entry : ℕ → Loaded
  null : Loaded
  enodata : Loaded

module _ {k : Kernel} where
  abbrev pub touch_cl : ℕ → M k (Unit {0})
  touch_cl i = set_qcow2 (λ q. record (update_cl i (λ e. record e { lru = q.lru_tick }) q) {
    lru_tick = inc64 q.lru_tick;
  })

  unfoldable pub cl_find : ℕ → M k (Option ℕ)
  unfolding find_entry
  cl_find cluster_index = do
    q ← get_qcow2
    elim (find_entry (λ e. e.valid) (λ e. e.cluster_index) q.cl_cache cluster_index) [
      | some i ↦ (do touch_cl i; pure (some i))
      | none ↦ pure none
    ]

  unfoldable pub cl_invalidate : ℕ → M k (Unit {0})
  unfolding find_entry
  cl_invalidate cluster_index = do
    q ← get_qcow2
    elim (find_entry (λ e. e.valid) (λ e. e.cluster_index) q.cl_cache cluster_index) [
      | some i ↦ set_qcow2 (update_cl i (λ e. record e { valid = false }))
      | none ↦ pure tt
    ]

  unfoldable pub cl_alloc_entry : M k ℕ
  unfolding victim
  cl_alloc_entry = do
    q ← get_qcow2
    elim (victim (λ e. e.valid) (λ e. e.lru) q.cl_cache) [
      | some i ↦ (do set_qcow2 (update_cl i (λ e. record e { valid = false })); pure i)
      | none ↦ crash
    ]

  -- The entry taken for a cluster that is about to be filled.
  unfoldable pub cl_claim : ℕ → M k ℕ
  unfolding cl_alloc_entry
  cl_claim cluster_index = do
    i ← cl_alloc_entry
    set_qcow2 (update_cl i (λ e. record e { cluster_index = cluster_index }))
    touch_cl i
    set_qcow2 (update_cl i (λ e. record e { dirty = false }))
    pure i

  -- `ce->data` is set, and the entry is made valid or not.
  abbrev pub put_cl : ℕ → List ℕ → Bool → M k (Unit {0})
  put_cl i bytes valid =
      set_qcow2
        (update_cl i (λ e. record e { bytes = bytes; valid = if valid then true else e.valid }))

  unfoldable pub cl_get_zero : ℕ → M k ℕ
  unfolding cl_find cl_claim
  cl_get_zero cluster_index = do
    hit ← cl_find cluster_index
    elim hit [
      | some i ↦ pure i
      | none ↦ (do
        i ← cl_claim cluster_index
        q ← get_qcow2
        put_cl i (replicate q.cluster_size 0) true
        pure i)
    ]

  -- The cluster is unallocated in the base too, or there is no base.
  unfoldable pub fill_missing : ℕ → M k Loaded
  fill_missing i = do
    d ← get_device
    if d.miss_handler
        then pure enodata
        else do put_cl i (replicate d.qcow2.cluster_size 0) true; pure (entry i)

  -- The L2 entry is 0.
  unfoldable pub fill_unallocated : ℕ → ℕ → M k Loaded
  unfolding base_read_cluster fill_missing
  fill_unallocated i cluster_index = do
    d ← get_device
    elim d.base [
      | none ↦ fill_missing i
      | some b ↦ (do
        r ← base_read_cluster b d.qcow2.cluster_size cluster_index (cl_at d.qcow2 i).bytes
        elim r [
          | absent ↦ fill_missing i
          | broken e bytes ↦ (do put_cl i bytes false; pure null)
          | filled bytes ↦ (do put_cl i bytes true; pure (entry i))
        ])
    ]

  -- The L2 entry points into the backing file.
  unfoldable pub fill_allocated : ℕ → ℕ → M k Loaded
  unfolding read_cluster
  fill_allocated i l2_entry = do
    d ← get_device
    r ← read_cluster d.backing_file d.qcow2.cluster_size l2_entry (cl_at d.qcow2 i).bytes
    elim r [
      | absent ↦ pure null
      | broken e bytes ↦ (do put_cl i bytes false; pure null)
      | filled bytes ↦ (do put_cl i bytes true; pure (entry i))
    ]

  unfoldable pub cl_load : ℕ → M k Loaded
  unfolding cl_find l2_get cl_claim fill_unallocated fill_allocated
  cl_load cluster_index = do
    hit ← cl_find cluster_index
    elim hit [
      | some i ↦ pure (entry i)
      | none ↦ (do
        q ← get_qcow2
        l2e ← l2_get (cluster_index / q.l2_entries % 2 ^ 32)
        elim l2e [
          | none ↦ pure null
          | some j ↦ (do
            q' ← get_qcow2
            let l2_entry = get_or (l2_at q' j).table (cluster_index % q.l2_entries) 0
            i ← cl_claim cluster_index
            if l2_entry == 0 then fill_unallocated i cluster_index else fill_allocated i l2_entry)
        ])
    ]
