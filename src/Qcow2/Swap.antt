-- ===== src/Qcow2/Swap.antt =====
-- The opening, closing and swapping of the base layer in src/lbd_qcow2.c.
pub mod Ends
pub mod Attached
pub mod Reload
pub mod Swapped
use lbd.Prelude.{
  ℕ, ◌-◌, ◌*◌, ◌/◌, ◌^◌, Bool, true, false, not, ◌||◌, List, [], none, some, ltb, ◌==◌,
  if◌then◌else◌, replicate, map, take, Option,
}
use lbd.Kernel.{Kernel, Errno, einval, enomem, Opened, opened, not_opened}
use lbd.Format.{qcow2_magic, qcow2_version, header_size, l2_trailer_size, get64}
use lbd.Format.Header.{
  hdr_version, hdr_cluster_bits, hdr_virtual_size, hdr_l1_table_offset, hdr_l1_size,
}
use lbd.Qcow2.State.{
  L2Entry, Base, Device, M, Outcome, ok, err, oops, pure, fail, ◌>>=◌, ◌>>◌, ignore, get_device,
  get_qcow2, kvmalloc, read_all,
}
use lbd.Qcow2.L2.{l2_cache_size, no_entry, flush_all_l2}
use lbd.Qcow2.Base.{set_base}
use lbd.Qcow2.Init.{alloc_many, read_l1, fresh_l2, reload_l1, invalidate_all_caches}

-- The calls for the file of a base layer that are not under src.
pub record BaseFiles (k : Kernel) : Type 0 where
  -- `filp_open(path, O_RDONLY | O_LARGEFILE, 0)`
  pub filp_open : List ℕ → k.World → Opened k.File × k.World
  pub fput : k.File → k.World → k.World
  -- `S_ISREG(file_inode(f)->i_mode)`
  pub is_regular : k.File → Bool
  -- `i_size_read(file_inode(f))`
  pub i_size_read : k.File → k.World → ℕ
  -- Whether `kzalloc(sizeof(struct lbd_qcow2_base))` gives memory.
  pub kzalloc_base : k.World → Bool × k.World
  -- Whether two files have the same `i_sb` and `i_ino`.
  pub same_inode : k.File → k.File → Bool

-- `LBD_LOG_PATH_MAX`, the size of `base_path`
abbrev pub base_path_max : ℕ
base_path_max = 256

module _ {k : Kernel} (fs : BaseFiles k) where
  abbrev pub filp_open : List ℕ → M k (Opened k.File)
  filp_open path d = let (f, w) = fs.filp_open path d.world in (ok f, record d { world = w })

  abbrev pub kzalloc_base : M k Bool
  kzalloc_base d = let (given, w) = fs.kzalloc_base d.world in (ok given, record d { world = w })

  abbrev pub fput : k.File → M k (Unit {0})
  fput f d = (ok tt, record d { world = fs.fput f d.world })

  -- `fput(f); return -e;`
  abbrev pub refuse : {A : Type 0} → k.File → Errno → M k A
  refuse f e = fput f >> fail e

  -- A call behind whose failure the file is closed.
  abbrev pub closed : {A : Type 0} → k.File → Outcome A × Device k → Outcome A × Device k
  closed f (ok a, d) = (ok a, d)
  closed f (err e, d) = refuse f e d
  closed f (oops, d) = (oops, d)

  abbrev pub closing : {A : Type 0} → k.File → M k A → M k A
  closing f m d = closed f (m d)

  -- `kzalloc` of the base, which only the file is set in.
  abbrev pub zeroed : k.File → Base k
  zeroed f = record {
    file = f;
    is_qcow2 = false;
    size = 0;
    cluster_bits = 0;
    cluster_size = 0;
    l2_entries = 0;
    l1_table = [];
    l1_size = 0;
    l1_offset = 0;
    l2_cache = replicate l2_cache_size no_entry;
    lru_tick = 0;
  }

  -- What the header of a base says, once its version and its cluster size are accepted.
  abbrev pub with_base_header : List ℕ → Base k → Base k
  with_base_header hdr b = record b {
    is_qcow2 = true;
    cluster_bits = hdr_cluster_bits hdr;
    cluster_size = 2 ^ hdr_cluster_bits hdr;
    l2_entries = (2 ^ hdr_cluster_bits hdr - l2_trailer_size) / 8;
    size = hdr_virtual_size hdr;
    l1_offset = hdr_l1_table_offset hdr;
    l1_size = hdr_l1_size hdr;
  }

  -- A test, behind whose failure the file is closed.
  abbrev pub or_refuse : {A : Type 0} → Bool → k.File → Errno → M k A → M k A
  or_refuse bad f e m = if bad then refuse f e else m

  -- The tables of the cache, and the buffer of the LZ4 functions if those were given.
  abbrev pub buffer_too : ℕ → Bool → M k Bool
  buffer_too cluster_size tables =
      if tables then alloc_many 1 (k.lz4_compress_bound cluster_size) else pure false

  abbrev pub with_cache : Base k → Bool → M k (Base k)
  with_cache b given =
      or_refuse (not given) b.file enomem
        (pure (record b { l2_cache = map (fresh_l2 b.cluster_size) b.l2_cache }))

  unfoldable pub alloc_base_cache : Base k → M k (Base k)
  unfolding alloc_many
  alloc_base_cache b = do
    tables ← alloc_many l2_cache_size b.cluster_size
    given ← buffer_too b.cluster_size tables
    with_cache b given

  unfoldable pub load_base : Base k → M k (Base k)
  unfolding alloc_base_cache read_l1
  load_base b = do
    l1 ← closing b.file (read_l1 b.file b.l1_size b.l1_offset)
    alloc_base_cache (record b { l1_table = l1 })

  unfoldable pub accept_header : k.File → List ℕ → M k (Base k)
  unfolding load_base
  accept_header f hdr = do
    q ← get_qcow2
    let b = with_base_header hdr (zeroed f)
    or_refuse (not (hdr_version hdr == qcow2_version)) f einval (
        or_refuse (not (b.cluster_bits == q.cluster_bits)) f einval
          (or_refuse (not (b.size == q.virtual_size)) f einval (load_base b)))

  unfoldable pub open_qcow2_base : k.File → M k (Base k)
  unfolding accept_header
  open_qcow2_base f = do
    given ← kvmalloc header_size
    or_refuse (not given) f enomem
        (do hdr ← closing f (read_all f header_size 0); accept_header f hdr)

  unfoldable pub open_raw_base : k.File → M k (Base k)
  open_raw_base f = do
    d ← get_device
    let b = record (zeroed f) { size = fs.i_size_read f d.world }
    or_refuse (not (b.size == d.qcow2.virtual_size)) f einval (pure b)

  unfoldable pub open_base_by : k.File → List ℕ → M k (Base k)
  unfolding open_qcow2_base open_raw_base
  open_base_by f magic = if get64 magic 0 == qcow2_magic then open_qcow2_base f else open_raw_base f

  -- The rest of `lbd_qcow2_base_init` behind the opening, up to `dev->base = base`.
  unfoldable pub open_base : k.File → M k (Base k)
  unfolding open_base_by
  open_base f = do
    d ← get_device
    or_refuse (not (fs.is_regular f)) f einval (
        or_refuse (fs.i_size_read f d.world == 0) f einval (
          or_refuse (fs.same_inode f d.backing_file) f einval (do
            given ← kzalloc_base
            or_refuse (not given) f enomem
                (do magic ← closing f (read_all f 8 0); open_base_by f magic))))

  unfoldable pub attach_opened : Opened k.File → M k (Unit {0})
  unfolding open_base
  attach_opened (not_opened e) = fail e
  attach_opened (opened f) = open_base f >>= set_base

  unfoldable pub base_init : List ℕ → M k (Unit {0})
  unfolding attach_opened
  base_init path = do f ← filp_open path; attach_opened f

  unfoldable pub base_destroy : Option (Base k) → M k (Unit {0})
  base_destroy none d = (ok tt, d)
  base_destroy (some b) d = (ok tt, record d { world = fs.fput b.file d.world; base = none })

  unfoldable pub swap_base : List ℕ → M k (Unit {0})
  unfolding base_init base_destroy reload_l1 invalidate_all_caches
  swap_base path = do
    ignore flush_all_l2
    d ← get_device
    base_destroy d.base
    base_init path
    reload_l1
    invalidate_all_caches
    λ d. (ok tt, record d { base_path = take (base_path_max - 1) path })
