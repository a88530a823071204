-- ===== src/Qcow2/Base.antt =====
-- The read side of the base layer in src/lbd_qcow2.c, and the reading of one cluster from a file,
-- which the primary and the base do alike.
use lbd.Prelude.{
  ℕ, ◌*◌, ◌/◌, ◌%◌, ◌^◌, true, false, not, ◌&&◌, List, Option, none, some, ltb, ◌==◌, if◌then◌else◌,
  add64, length, get_or, overlay, replicate, modify,
}
use lbd.Kernel.{Kernel, Errno, eio, ReadRet, got, read_failed, Lz4Ret, decoded, malformed}
use lbd.Format.{get32, is_compressed, l2_offset}
use lbd.Qcow2.State.{L2Entry, Base, ok, M, pure, crash, ◌>>=◌, ◌>>◌, kernel_read, inc64}
use lbd.Qcow2.Cache.{find_entry, victim}
use lbd.Qcow2.L2.{no_entry, read_l2_table}

-- What a read into a cluster's buffer did to the buffer: it holds the cluster, or it was left alone
-- because the cluster is unallocated, or the read failed and may have changed it.
pub data Fill : Type 0 where
  filled : List ℕ → Fill
  absent : Fill
  broken : Errno → List ℕ → Fill

-- `if (ret != count) return ret < 0 ? ret : -EIO;` behind a read into `buf`.
abbrev pub fill_from : ℕ → List ℕ → ReadRet → Fill
fill_from n buf (got bs) =
    if length bs == n then filled (overlay buf bs) else broken eio (overlay buf bs)
fill_from n buf (read_failed e) = broken e buf

abbrev pub fill_decoded : ℕ → List ℕ → Lz4Ret → Fill
fill_decoded n buf (decoded bs) =
    if length bs == n then filled (overlay buf bs) else broken eio (overlay buf bs)
fill_decoded n buf (malformed bs) = broken eio (overlay buf bs)

module _ {k : Kernel} where
  -- The compressed bytes, `comp_size` of them at `pos`, decompressed into `buf`.
  unfoldable pub read_compressed : k.File → (cluster_size comp_size pos : ℕ) → List ℕ → M k Fill
  read_compressed file cluster_size comp_size pos buf =
      if ltb (k.lz4_compress_bound cluster_size) comp_size then pure (broken eio buf) else do
        ret ← kernel_read file comp_size pos
        pure (elim ret [
          | read_failed e ↦ broken e buf
          | got bs ↦
              if length bs == comp_size
              then fill_decoded cluster_size buf (k.lz4_decompress_safe bs cluster_size)
              else broken eio buf
        ])

  -- The cluster behind an L2 entry that is not 0 is read from `file`.
  unfoldable pub read_cluster : k.File → (cluster_size l2_entry : ℕ) → List ℕ → M k Fill
  unfolding read_compressed
  read_cluster file cluster_size l2_entry buf =
      let phys = l2_offset l2_entry in
      if is_compressed l2_entry
      then (do
        ret ← kernel_read file 4 phys
        elim ret [
          | read_failed e ↦ pure (broken e buf)
          | got bs ↦
              if length bs == 4
              then read_compressed file cluster_size (get32 bs 0) (add64 phys 4) buf
              else pure (broken eio buf)
        ])
      else (do ret ← kernel_read file cluster_size phys; pure (fill_from cluster_size buf ret))

  abbrev pub set_base : Base k → M k (Unit {0})
  set_base b d = (ok tt, record d { base = some b })

  abbrev pub update_base_l2 : ℕ → (L2Entry → L2Entry) → Base k → Base k
  update_base_l2 i f b = record b { l2_cache = modify b.l2_cache i f }

  -- `e->lru = lbd_qcow2_base_lru_tick(base)`
  abbrev pub touch_base_l2 : ℕ → Base k → Base k
  touch_base_l2 i b = record (update_base_l2 i (λ e. record e { lru = b.lru_tick }) b) {
    lru_tick = inc64 b.lru_tick;
  }

  -- The table of `l1_index` is loaded into entry `i`; `none` is the NULL pointer.
  unfoldable pub base_load_l2 : Base k → ℕ → ℕ → M k (Option (List ℕ))
  base_load_l2 b i l1_index =
      let b' =
        touch_base_l2 i
          (update_base_l2 i (λ e. record e { l1_index = l1_index; dirty = false }) b) in
      let phys = get_or b'.l1_table l1_index 0 in
      if ltb l1_index b'.l1_size && not (phys == 0)
      then (do
        table ←
            read_l2_table b'.file b'.cluster_size b'.l2_entries phys
              (get_or b'.l2_cache i no_entry).table
        elim table [
          | none ↦ (do set_base (update_base_l2 i (λ e. record e { valid = false }) b'); pure none)
          | some t ↦ (do
            set_base (update_base_l2 i (λ e. record e { table = t; valid = true }) b')
            pure (some t))
        ])
      else (do
        let zeros = replicate (b'.cluster_size / 8) 0
        set_base (update_base_l2 i (λ e. record e { table = zeros; valid = true }) b')
        pure (some zeros))

  -- The table of the entry found or loaded.
  unfoldable pub base_l2_get : Base k → ℕ → M k (Option (List ℕ))
  unfolding find_entry victim base_load_l2
  base_l2_get b l1_index = elim (find_entry (λ e. e.valid) (λ e. e.l1_index) b.l2_cache l1_index) [
    | some i ↦ (do set_base (touch_base_l2 i b); pure (some (get_or b.l2_cache i no_entry).table))
    | none ↦ elim (victim (λ e. e.valid) (λ e. e.lru) b.l2_cache) [
      | none ↦ crash
      | some i ↦ base_load_l2 b i l1_index
    ]
  ]

  -- `cluster_size` is that of the primary.
  unfoldable pub base_read_cluster : Base k → (cluster_size cluster_index : ℕ) → List ℕ → M k Fill
  unfolding read_cluster base_l2_get
  base_read_cluster b cluster_size cluster_index buf =
      if not b.is_qcow2
      then (do
        let pos = cluster_index * cluster_size % 2 ^ 64
        if ltb b.size (add64 pos cluster_size) then pure absent else do
          ret ← kernel_read b.file cluster_size pos
          pure (fill_from cluster_size buf ret))
      else (do
        table ← base_l2_get b (cluster_index / b.l2_entries % 2 ^ 32)
        elim table [
          | none ↦ pure (broken eio buf)
          | some t ↦ (do
            let l2_entry = get_or t (cluster_index % b.l2_entries) 0
            if l2_entry == 0 then pure absent else read_cluster b.file cluster_size l2_entry buf)
        ])
