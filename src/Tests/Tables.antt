-- ===== src/Tests/Tables.antt =====
-- The theorems on the caches, the tables and the header at concrete inputs.
use lbd.Prelude.{
  Bool, none, ℕ, zero, suc, ◌-◌, ◌<◌, ◌^◌, ◌≡◌, refl, sym, ◌∙◌, true, false, [], ◌∷◌, some, arith,
  get_or, replicate,
}
use lbd.Qcow2.State.{L2Entry, Device, ok, err}
use lbd.Qcow2.Cache.{victim}
use lbd.Qcow2.Cache.Search.{IsVictim, victim-IsVictim}
use lbd.Qcow2.L2.{l2_at}
use lbd.Format.Header.{field_set}
use lbd.Kernel.{einval}
use lbd.Format.{qcow2_magic, qcow2_version}
use lbd.Format.Header.{magic, version, cluster_bits}
use lbd.Prelude.{◌⊎◌, List, take, overlay}
use lbd.Qcow2.L2.{l2_flush, read_l2_table}
use lbd.Qcow2.L2.Flush.{l2_flush-read_l2_table}
use lbd.Qcow2.Init.{check_header}
use lbd.Qcow2.Init.Header.{Valid, Geometry, check_header-Valid}
use lbd.Qcow2.State.{ClEntry}
use lbd.Qcow2.Cache.{find_entry}
use lbd.Qcow2.Cluster.{cl_at, cl_get_zero, cl_invalidate}
use lbd.Qcow2.Cluster.Invalidate.{Distinct, cl_invalidate-find_entry}
use lbd.Qcow2.Cluster.Zero.{ClInv, Ready, cl_get_zero-Ready}
use lbd.Tests.{memory_kernel, memory_disk, an_entry, a_device}

two_stamps :
    (j : ℕ)
    → j < 2
    → (get_or (an_entry 0 true 3 ∷ an_entry 1 true 2 ∷ []) j (an_entry 0 false 0)).lru < 2 ^ 64 - 1
two_stamps zero h = omega arith
two_stamps (suc zero) h = omega arith
two_stamps (suc (suc j)) h = absurd (omega arith)

victim-IsVictim_example :
    (i : ℕ) × (victim (λ e. e.valid) (λ e. e.lru) (an_entry 0 true 3 ∷ an_entry 1 true 2 ∷ [])
      ≡ some i)
    × IsVictim
        (λ (e : L2Entry). e.valid)
        (an_entry 0 false 0)
        (λ e. e.lru)
        (an_entry 0 true 3 ∷ an_entry 1 true 2 ∷ [])
        i
victim-IsVictim_example =
    victim-IsVictim (λ (e : L2Entry). e.valid) (an_entry 0 false 0) (λ e. e.lru)
      (an_entry 0 true 3 ∷ an_entry 1 true 2 ∷ []) (omega arith) two_stamps

-- A header with the least cluster size.
abbrev a_header : List ℕ
a_header =
    field_set magic (field_set version (field_set cluster_bits (replicate 56 0) 12) qcow2_version)
      qcow2_magic

check_header-Valid_example :
    (Valid a_header
      × ((check_header a_header a_device).0 ≡ ok tt)
      × Geometry a_header (check_header a_header a_device).1.qcow2)
    ⊎ ((¬ Valid a_header) × ((check_header a_header a_device).0 ≡ err einval))
check_header-Valid_example = check_header-Valid a_header a_device

-- A table of one word in clusters of sixteen bytes.
abbrev small_device : Device memory_kernel
small_device = record a_device {
  qcow2 = record (a_device.qcow2) {
    cluster_size = 16;
    l2_entries = 1;
    l1_table = 8192 ∷ [];
    l2_cache = record { l1_index = 0; valid = true; dirty = true; lru = 3; table = 4096 ∷ [] } ∷ [];
  };
}

l2_flush-read_l2_table_example :
    ((l2_flush 0 small_device).0 ≡ ok tt)
    × ((l2_at (l2_flush 0 small_device).1.qcow2 0).dirty ≡ false)
    × ((read_l2_table tt 16 1 8192 (0 ∷ []) (l2_flush 0 small_device).1).0
        ≡ ok (some (overlay (0 ∷ []) (take 1 (4096 ∷ [])))))
l2_flush-read_l2_table_example =
    l2_flush-read_l2_table memory_disk small_device 0 (0 ∷ []) (omega arith) refl refl
      (λ e. ground arith) (omega arith) (omega arith) (omega arith, tt) refl refl

abbrev a_cluster : Bool → ℕ → ClEntry
a_cluster valid lru = record {
  cluster_index = 5;
  valid = valid;
  dirty = false;
  lru = lru;
  bytes = [];
}

abbrev cached_device : Device memory_kernel
cached_device = record a_device {
  qcow2 = record (a_device.qcow2) { cl_cache = a_cluster true 3 ∷ a_cluster false 1 ∷ [] };
}

cached_device-ClInv : ClInv cached_device.qcow2
cached_device-ClInv = record {
  some_entry = omega arith;
  ticks = two_ticks;
  distinct = λ i j h l v w e. one_valid i h v ∙ sym (one_valid j l w);
}
  where
    two_ticks : (j : ℕ) → j < 2 → (cl_at cached_device.qcow2 j).lru < 4
    two_ticks zero h = omega arith
    two_ticks (suc zero) h = omega arith
    two_ticks (suc (suc j)) h = absurd (omega arith)

    one_valid : (j : ℕ) → j < 2 → (cl_at cached_device.qcow2 j).valid ≡ true → j ≡ 0
    one_valid zero h v = refl
    one_valid (suc zero) h v = absurd (ground arith)
    one_valid (suc (suc j)) h v = absurd (omega arith)

cl_get_zero-Ready_example : Ready 9 cached_device (cl_get_zero 9 cached_device)
cl_get_zero-Ready_example = cl_get_zero-Ready 9 cached_device cached_device-ClInv (omega arith)

cl_invalidate-find_entry_example :
    ((cl_invalidate 5 cached_device).0 ≡ ok tt)
    × (find_entry
          (λ e. e.valid)
          (λ e. e.cluster_index)
          (cl_invalidate 5 cached_device).1.qcow2.cl_cache
          5
        ≡ none)
    × Distinct (cl_invalidate 5 cached_device).1.qcow2
cl_invalidate-find_entry_example =
    cl_invalidate-find_entry 5 cached_device cached_device-ClInv.distinct
