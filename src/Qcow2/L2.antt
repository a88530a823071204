-- ===== src/Qcow2/L2.antt =====
-- The L2 tables of src/lbd_qcow2.c: their image on disk, their cache, and their allocation.
pub mod Invariant
pub mod Load
pub mod Fetch
pub mod Get
pub mod Image
pub mod Flush
use lbd.Prelude.{
  ℕ, zero, suc, ◌+◌, ◌-◌, ◌*◌, ◌/◌, ◌%◌, ◌^◌, true, false, not, ◌&&◌, List, [], ◌∷◌, ◌++◌, Option,
  none, some, ltb, leb, ◌==◌, if◌then◌else◌, add64, get_or, overlay, overlay_at, take, drop,
  replicate, modify,
}
use lbd.Kernel.{Kernel, eio, enomem, enospc}
use lbd.Format.{be32, be64, get32, get64}
use lbd.Qcow2.State.{
  L2Entry, Qcow2, M, pure, fail, crash, ◌>>=◌, ◌>>◌, attempt, ignore, get_device, get_qcow2,
  set_qcow2, kvmalloc, read_all, write_all, inc64,
}
use lbd.Qcow2.Cache.{find_entry, victim}

abbrev pub l2_cache_size : ℕ
l2_cache_size = 16

-- A cache entry out of range does not exist; every index here comes from a search of the cache.
abbrev pub no_entry : L2Entry
no_entry = record { l1_index = 0; valid = false; dirty = false; lru = 0; table = [] }

abbrev pub l2_at : Qcow2 → ℕ → L2Entry
l2_at q i = get_or q.l2_cache i no_entry

abbrev pub update_l2 : ℕ → (L2Entry → L2Entry) → Qcow2 → Qcow2
update_l2 i f q = record q { l2_cache = modify q.l2_cache i f }

-- The big-endian words of a table, and back.
unfoldable pub words_be : List ℕ → List ℕ
words_be [] = []
words_be (w ∷ ws) = be64 w ++ words_be ws

unfoldable pub words_of : ℕ → List ℕ → List ℕ
words_of zero raw = []
words_of (suc n) raw = get64 raw 0 ∷ words_of n (drop 8 raw)

-- `~crc32c(~0, raw, n)`
unfoldable pub crc_of : (k : Kernel) → List ℕ → ℕ → ℕ
crc_of k raw n = 2 ^ 32 - 1 - k.crc32c (2 ^ 32 - 1) (take n raw) % 2 ^ 32

-- A table as it is written: its words, zeros, and the CRC in the last four bytes.
unfoldable pub l2_image : (k : Kernel) → (cluster_size l2_entries : ℕ) → List ℕ → List ℕ
unfolding words_be crc_of
l2_image k cluster_size l2_entries table =
    let raw = overlay (replicate cluster_size 0) (words_be (take l2_entries table)) in
    overlay_at raw (cluster_size - 4) (be32 (crc_of k raw (cluster_size - 4)))

module _ {k : Kernel} where
  -- A table is read into `old`, or `none` if memory, the read or the CRC fails.
  unfoldable pub read_l2_table :
      k.File → (cluster_size l2_entries phys : ℕ) → List ℕ → M k (Option (List ℕ))
  unfolding words_of crc_of
  read_l2_table file cluster_size l2_entries phys old = do
    given ← kvmalloc cluster_size
    if not given then pure none else do
      raw ← attempt (read_all file cluster_size phys)
      pure (elim raw [
        | none ↦ none
        | some bs ↦
            if get32 bs (cluster_size - 4) == crc_of k bs (cluster_size - 4)
            then some (overlay old (words_of l2_entries bs))
            else none
      ])

  -- `e->lru = lbd_qcow2_lru_tick(q)`
  abbrev pub touch_l2 : ℕ → M k (Unit {0})
  touch_l2 i = set_qcow2 (λ q. record (update_l2 i (λ e. record e { lru = q.lru_tick }) q) {
    lru_tick = inc64 q.lru_tick;
  })

  unfoldable pub flush_evicted : L2Entry → M k (Unit {0})
  unfolding l2_image
  flush_evicted e = do
    d ← get_device
    let phys = get_or d.qcow2.l1_table e.l1_index 0
    if phys == 0 then pure tt else do
      given ← kvmalloc d.qcow2.cluster_size
      if not given
          then pure tt
          else ignore (
              write_all d.backing_file (l2_image k d.qcow2.cluster_size d.qcow2.l2_entries e.table)
                phys)

  -- The dirty table of the entry to evict goes to disk; a failure is only reported.
  unfoldable pub evict_l2 : ℕ → M k (Unit {0})
  unfolding flush_evicted
  evict_l2 i = do
    q ← get_qcow2
    let e = l2_at q i
    if not (e.valid && e.dirty)
        then pure tt
        else do flush_evicted e; set_qcow2 (update_l2 i (λ e. record e { dirty = false }))

  -- The table of `l1_index` is loaded into entry `i`.
  unfoldable pub load_l2 : ℕ → ℕ → M k (Option ℕ)
  unfolding read_l2_table
  load_l2 i l1_index = do
    set_qcow2 (update_l2 i (λ e. record e { l1_index = l1_index; dirty = false }))
    touch_l2 i
    d ← get_device
    let phys = get_or d.qcow2.l1_table l1_index 0
    if ltb l1_index d.qcow2.l1_size && not (phys == 0)
        then (do
          table ←
              read_l2_table d.backing_file d.qcow2.cluster_size d.qcow2.l2_entries phys
                (l2_at d.qcow2 i).table
          elim table [
            | none ↦ (do set_qcow2 (update_l2 i (λ e. record e { valid = false })); pure none)
            | some t ↦ (do
              set_qcow2 (update_l2 i (λ e. record e { table = t; valid = true }))
              pure (some i))
          ])
        else (do
          set_qcow2 (
              update_l2 i
                (λ e. record e { table = replicate (d.qcow2.cluster_size / 8) 0; valid = true }))
          pure (some i))

  -- `none` is the NULL pointer; an entry is given by its index in the cache.
  unfoldable pub l2_get : ℕ → M k (Option ℕ)
  unfolding find_entry victim evict_l2 load_l2
  l2_get l1_index = do
    q ← get_qcow2
    elim (find_entry (λ e. e.valid) (λ e. e.l1_index) q.l2_cache l1_index) [
      | some i ↦ (do touch_l2 i; pure (some i))
      | none ↦ elim (victim (λ e. e.valid) (λ e. e.lru) q.l2_cache) [
        | none ↦ crash
        | some i ↦ (do evict_l2 i; load_l2 i l1_index)
      ]
    ]

  unfoldable pub l2_flush : ℕ → M k (Unit {0})
  unfolding l2_image
  l2_flush i = do
    d ← get_device
    let e = l2_at d.qcow2 i
    let phys = get_or d.qcow2.l1_table e.l1_index 0
    if not (e.valid && e.dirty) then pure tt else if phys == 0 then fail eio else do
      given ← kvmalloc d.qcow2.cluster_size
      if not given then fail enomem else do
        write_all d.backing_file (l2_image k d.qcow2.cluster_size d.qcow2.l2_entries e.table) phys
        set_qcow2 (update_l2 i (λ e. record e { dirty = false }))

  -- The zeroed table, and then the L1 entry, are written for a table just allocated.
  unfoldable pub write_new_l2 : ℕ → M k (Unit {0})
  unfolding l2_image
  write_new_l2 l1_index = do
    d ← get_device
    let phys = get_or d.qcow2.l1_table l1_index 0
    given ← kvmalloc d.qcow2.cluster_size
    if not given then fail enomem else do
      write_all d.backing_file (l2_image k d.qcow2.cluster_size d.qcow2.l2_entries []) phys
      write_all d.backing_file (be64 phys) (add64 d.qcow2.l1_offset (l1_index * 8))

  unfoldable pub l2_alloc : ℕ → M k (Unit {0})
  unfolding write_new_l2
  l2_alloc l1_index = do
    q ← get_qcow2
    if leb q.l1_size l1_index
        then fail enospc
        else if not (get_or q.l1_table l1_index 0 == 0)
        then pure tt
        else do
          set_qcow2 (λ q. record q {
            l1_table = modify q.l1_table l1_index (λ _. q.alloc_offset);
            alloc_offset = add64 q.alloc_offset q.cluster_size;
          })
          write_new_l2 l1_index

  -- The entries from `i` on, `left` of them.
  unfoldable pub flush_l2_from : ℕ → ℕ → M k (Unit {0})
  unfolding l2_flush
  flush_l2_from zero i = pure tt
  flush_l2_from (suc left) i = do
    q ← get_qcow2
    (if (l2_at q i).valid && (l2_at q i).dirty then ignore (l2_flush i) else pure tt)
    flush_l2_from left (i + 1)

  unfoldable pub flush_all_l2 : M k (Unit {0})
  unfolding flush_l2_from
  flush_all_l2 = flush_l2_from l2_cache_size 0
