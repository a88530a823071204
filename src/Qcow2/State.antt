-- ===== src/Qcow2/State.antt =====
-- The structures of src/lbd_qcow2.h and the part of `struct lbd_device` (src/lbd.h) that the backing
-- store uses, with the monad in which its functions are written.
use lbd.Prelude.{ℕ, ◌+◌, ◌%◌, ◌^◌, Bool, List, Option, none, some, length, ◌==◌, if◌then◌else◌}
use lbd.Kernel.{Kernel, Errno, eio, ReadRet, got, read_failed, WriteRet, wrote, write_failed}

-- `struct lbd_l2_cache_entry`
pub record L2Entry : Type 0 where
  pub l1_index : ℕ
  pub valid : Bool
  pub dirty : Bool
  pub lru : ℕ
  pub table : List ℕ

-- `struct lbd_cl_cache_entry`; `bytes` is its `data`.
pub record ClEntry : Type 0 where
  pub cluster_index : ℕ
  pub valid : Bool
  pub dirty : Bool
  pub lru : ℕ
  pub bytes : List ℕ

-- `struct lbd_qcow2`, less the lock and the scratch buffers.
pub record Qcow2 : Type 0 where
  pub cluster_bits : ℕ
  pub cluster_size : ℕ
  pub l2_entries : ℕ
  pub virtual_size : ℕ
  pub l1_table : List ℕ
  pub l1_size : ℕ
  pub l1_offset : ℕ
  pub alloc_offset : ℕ
  pub free_list_head : ℕ
  pub l2_cache : List L2Entry
  pub cl_cache : List ClEntry
  pub lru_tick : ℕ

-- The counters of `struct lbd_device` that the backing store advances.
pub record Stats : Type 0 where
  pub reads : ℕ
  pub read_bytes : ℕ
  pub alloc_reused : ℕ
  pub alloc_new : ℕ
  pub alloc_freed : ℕ
  pub compressed : ℕ
  pub uncompressed : ℕ

-- The result of a C function: its value, a negative error code, or a NULL dereference.
pub data Outcome {ℓ} (A : Type ℓ) : Type ℓ where
  ok : A → Outcome A
  err : Errno → Outcome A
  oops : Outcome A

module _ (k : Kernel) where
  -- `struct lbd_qcow2_base`
  pub record Base : Type 0 where
    pub file : k.File
    pub is_qcow2 : Bool
    pub size : ℕ
    pub cluster_bits : ℕ
    pub cluster_size : ℕ
    pub l2_entries : ℕ
    pub l1_table : List ℕ
    pub l1_size : ℕ
    pub l1_offset : ℕ
    pub l2_cache : List L2Entry
    pub lru_tick : ℕ

  -- The device, with the state of the kernel that it runs in. `miss_handler` says whether the
  -- pointer is set.
  pub record Device : Type 0 where
    pub world : k.World
    pub backing_file : k.File
    pub qcow2 : Qcow2
    pub base : Option Base
    pub base_path : List ℕ
    pub miss_handler : Bool
    pub stats : Stats

  abbrev pub M : Type 0 → Type 0
  M A = Device → Outcome A × Device

-- `if (ret != count) return ret < 0 ? ret : -EIO;`
abbrev pub whole_read : ℕ → ReadRet → Outcome (List ℕ)
whole_read n (got bs) = if length bs == n then ok bs else err eio
whole_read n (read_failed e) = err e

abbrev pub whole_write : ℕ → WriteRet → Outcome (Unit {0})
whole_write n (wrote m) = if m == n then ok tt else err eio
whole_write n (write_failed e) = err e

module _ {k : Kernel} where
  abbrev pub pure : {A : Type 0} → A → M k A
  pure a d = (ok a, d)

  abbrev pub fail : {A : Type 0} → Errno → M k A
  fail e d = (err e, d)

  -- The rest of a function, behind a call that may return early.
  abbrev pub and_then : {A B : Type 0} → Outcome A × Device k → (A → M k B) → Outcome B × Device k
  and_then (ok a, d) f = f a d
  and_then (err e, d) f = (err e, d)
  and_then (oops, d) f = (oops, d)

  infixl 5 ◌>>=◌ ◌>>◌
  abbrev pub ◌>>=◌ : {A B : Type 0} → M k A → (A → M k B) → M k B
  ◌>>=◌ m f d = and_then (m d) f

  abbrev pub ◌>>◌ : {B : Type 0} → M k (Unit {0}) → M k B → M k B
  m >> n = m >>= λ _. n

  -- A call whose error the caller tests or ignores.
  abbrev pub attempted : {A : Type 0} → Outcome A × Device k → Outcome (Option A) × Device k
  attempted (ok a, d) = (ok (some a), d)
  attempted (err e, d) = (ok none, d)
  attempted (oops, d) = (oops, d)

  abbrev pub attempt : {A : Type 0} → M k A → M k (Option A)
  attempt m d = attempted (m d)

  -- A call whose result is not looked at.
  abbrev pub ignore : M k (Unit {0}) → M k (Unit {0})
  ignore m = attempt m >>= λ _. pure tt

  abbrev pub get_device : M k (Device k)
  get_device d = (ok d, d)

  abbrev pub get_qcow2 : M k Qcow2
  get_qcow2 d = (ok d.qcow2, d)

  abbrev pub set_qcow2 : (Qcow2 → Qcow2) → M k (Unit {0})
  set_qcow2 f d = (ok tt, record d { qcow2 = f d.qcow2 })

  abbrev pub set_stats : (Stats → Stats) → M k (Unit {0})
  set_stats f d = (ok tt, record d { stats = f d.stats })

  abbrev pub kvmalloc : ℕ → M k Bool
  kvmalloc n d = let (given, w) = k.kvmalloc n d.world in (ok given, record d { world = w })

  abbrev pub crash : {A : Type 0} → M k A
  crash d = (oops, d)

  unfoldable pub kernel_read : k.File → ℕ → ℕ → M k ReadRet
  kernel_read f n pos d =
      let (ret, w) = k.kernel_read f n pos d.world in (ok ret, record d { world = w })

  -- A `kernel_read` or `kernel_write` with the test of its result.
  unfoldable pub read_all : k.File → ℕ → ℕ → M k (List ℕ)
  read_all f n pos d =
      let (ret, w) = k.kernel_read f n pos d.world in (whole_read n ret, record d { world = w })

  unfoldable pub write_all : k.File → List ℕ → ℕ → M k (Unit {0})
  write_all f bs pos d =
      let (ret, w) = k.kernel_write f bs pos d.world in
      (whole_write (length bs) ret, record d { world = w })

-- `atomic64_inc`
abbrev pub inc64 : ℕ → ℕ
inc64 n = (n + 1) % 2 ^ 64
