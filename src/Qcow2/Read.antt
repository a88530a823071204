-- ===== src/Qcow2/Read.antt =====
-- The read path of src/lbd_qcow2.c. A request is its first byte on the device and the lengths of its
-- segments; the result has the bytes of each segment.
pub mod Size
pub mod Loop
use lbd.Prelude.{
  ℕ, zero, suc, ◌+◌, ◌-◌, ◌*◌, ◌/◌, ◌%◌, ◌^◌, false, ◌&&◌, List, [], ◌∷◌, ◌++◌, none, some, ◌==◌,
  if◌then◌else◌, take, drop, replicate, map,
}
use Prim.Native.Nat.{min}
use lbd.Kernel.{Kernel, eio}
use lbd.Qcow2.State.{
  L2Entry, ClEntry, M, pure, fail, ◌>>=◌, ◌>>◌, get_device, get_qcow2, set_qcow2, set_stats, inc64,
}
use lbd.Qcow2.Base.{set_base}
use lbd.Qcow2.Cluster.{cl_at, entry, null, enodata, cl_load}

-- `enum lbd_miss_action`
pub data MissAction : Type 0 where
  continue retry : MissAction

-- The test of a cache entry in the two loops of `lbd_qcow2_invalidate_for_retry`.
abbrev pub drop_cluster : ℕ → ClEntry → ClEntry
drop_cluster i e = if e.valid && e.cluster_index == i then record e { valid = false } else e

abbrev pub drop_table : ℕ → L2Entry → L2Entry
drop_table i e = if e.valid && e.l1_index == i then record e { valid = false } else e

-- `blk_rq_bytes(rq)`
abbrev pub total : List ℕ → ℕ
total [] = 0
total (n ∷ ns) = n + total ns

module _ {k : Kernel} where
  unfoldable pub invalidate_for_retry : ℕ → M k (Unit {0})
  invalidate_for_retry cluster_index = do
    d ← get_device
    set_qcow2 (λ q. record q { cl_cache = map (drop_cluster cluster_index) q.cl_cache })
    elim d.base [
      | none ↦ pure tt
      | some b ↦
          if b.is_qcow2
          then set_base (record b {
            l2_cache = map (drop_table (cluster_index / b.l2_entries % 2 ^ 32)) b.l2_cache;
          })
          else pure tt
    ]

-- `handle_miss` is `lbd_qcow2_handle_miss` of src/lbd_main.c: it waits for userspace, which may
-- meanwhile act on the device, since the lock is released.
module _ {k : Kernel} (handle_miss : ℕ → M k MissAction) where
  -- One chunk: `bytes` bytes of a cluster from `off_in_cluster` on. `again` is what follows where
  -- userspace asks for a retry.
  unfoldable pub try_chunk : M k (List ℕ) → (cluster_idx off_in_cluster bytes : ℕ) → M k (List ℕ)
  try_chunk again cluster_idx off_in_cluster bytes = do
    loaded ← cl_load cluster_idx
    elim loaded [
      | entry i ↦ (do q ← get_qcow2; pure (take bytes (drop off_in_cluster (cl_at q i).bytes)))
      | null ↦ fail eio
      | enodata ↦ (do
        action ← handle_miss cluster_idx
        elim action [ continue ↦ pure (replicate bytes 0) | retry ↦ again ])
    ]

  -- With the retries that are left; without one the chunk is zeroed.
  unfoldable pub read_chunk : (retries cluster_idx off_in_cluster bytes : ℕ) → M k (List ℕ)
  unfolding try_chunk
  read_chunk zero cluster_idx off_in_cluster bytes =
      try_chunk (pure (replicate bytes 0)) cluster_idx off_in_cluster bytes
  read_chunk (suc left) cluster_idx off_in_cluster bytes =
      try_chunk
        (do invalidate_for_retry cluster_idx; read_chunk left cluster_idx off_in_cluster bytes)
        cluster_idx off_in_cluster bytes

  -- The loop over one segment; every round takes at least one byte, so that `remaining` rounds are
  -- enough.
  unfoldable pub read_segment : (fuel guest_offset remaining : ℕ) → M k (List ℕ)
  unfolding read_chunk
  read_segment zero guest_offset remaining = pure []
  read_segment (suc fuel) guest_offset remaining = if remaining == 0 then pure [] else do
    q ← get_qcow2
    let off_in_cluster = guest_offset % q.cluster_size
    let bytes = min remaining (q.cluster_size - off_in_cluster)
    chunk ← read_chunk 3 (guest_offset / 2 ^ q.cluster_bits) off_in_cluster bytes
    rest ← read_segment fuel (guest_offset + bytes) (remaining - bytes)
    pure (chunk ++ rest)

  unfoldable pub read_segments : ℕ → List ℕ → M k (List (List ℕ))
  unfolding read_segment
  read_segments guest_offset [] = pure []
  read_segments guest_offset (n ∷ ns) = do
    bytes ← read_segment n guest_offset n
    rest ← read_segments (guest_offset + n) ns
    pure (bytes ∷ rest)

  unfoldable pub qcow2_read : ℕ → List ℕ → M k (List (List ℕ))
  unfolding read_segments
  qcow2_read sector lengths = do
    bytes ← read_segments (sector * 512) lengths
    set_stats (λ s. record s {
      reads = inc64 s.reads;
      read_bytes = (s.read_bytes + total lengths) % 2 ^ 64;
    })
    pure bytes
