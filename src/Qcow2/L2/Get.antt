-- ===== src/Qcow2/L2/Get.antt =====
-- `lbd_qcow2_l2_get`: the entry that it returns, its table, and the cache's invariant.
use lbd.Prelude.{ℕ, ◌<◌, ◌≡◌, ◌≢◌, ◌⊎◌, true, Option, none, some, length}
use lbd.Kernel.{Kernel}
use lbd.Qcow2.State.{Qcow2, Device, M, Outcome, ok, err, oops, ◌>>◌, pure, crash}
use lbd.Qcow2.L2.{l2_at, touch_l2, evict_l2, load_l2}
use lbd.Qcow2.L2.Fetch.{Fetched}

-- No valid entry has the index.
abbrev pub Uncached : ℕ → Qcow2 → Type 0
Uncached l1_index q =
    (j : ℕ) → j < length q.l2_cache → (l2_at q j).valid ≡ true → (l2_at q j).l1_index ≢ l1_index

module _ {k : Kernel} where
  -- The table that is returned: that of the entry that held it before; or, where none did, what the
  -- device has for it once a victim was written back. NULL is returned where that cannot be read.
  abbrev pub Table : ℕ → Device k → Outcome (Option ℕ) × Device k → Type 0
  Table l1_index d (ok none, r) =
      (v : ℕ) × Uncached l1_index d.qcow2 × Fetched l1_index (evict_l2 v d).1 none
  Table l1_index d (ok (some i), r) =
      (((l2_at d.qcow2 i).valid ≡ true)
        × ((l2_at d.qcow2 i).l1_index ≡ l1_index)
        × ((l2_at r.qcow2 i).table ≡ (l2_at d.qcow2 i).table))
      ⊎ ((v : ℕ) × Uncached l1_index d.qcow2
          × Fetched l1_index (evict_l2 v d).1 (some (l2_at r.qcow2 i).table))
  Table l1_index d (err e, r) = ⊥
  Table l1_index d (oops, r) = ⊥

  -- The rest of `l2_get` behind the two searches.
  abbrev search_ends : ℕ → Option ℕ → Option ℕ → M k (Option ℕ)
  search_ends l1_index hit unused = elim hit [
    | some i ↦ (do touch_l2 i; pure (some i))
    | none ↦ elim unused [ none ↦ crash | some i ↦ (do evict_l2 i; load_l2 i l1_index) ]
  ]
