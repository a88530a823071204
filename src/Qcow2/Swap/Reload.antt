-- ===== src/Qcow2/Swap/Reload.antt =====
-- The flush of the tables and the reload of the L1 table leave the base and the open files alone.
use lbd.Prelude.{
  ℕ, zero, suc, ◌+◌, ◌-◌, ◌≡◌, refl, ap, subst, ◌∙◌, Bool, true, false, not, ◌&&◌, List, Option,
  none, some, ◌==◌, if◌then◌else◌, take, map, arith, get_or,
}
use lbd.Kernel.{Kernel, Errno, eio, enomem, WriteRet, wrote, write_failed}
use lbd.Format.{header_size}
use lbd.Format.Header.{hdr_alloc_offset, hdr_free_list, hdr_l1_size, hdr_l1_table_offset}
use lbd.Qcow2.State.{
  L2Entry, Qcow2, Device, M, Outcome, ok, err, pure, fail, and_then, attempted, ◌>>=◌, ◌>>◌, ignore,
  get_device, set_qcow2, read_all, write_all, whole_write,
}
use lbd.Qcow2.L2.{l2_image, update_l2, l2_at, l2_flush, flush_l2_from, flush_all_l2, l2_cache_size}
use lbd.Qcow2.Init.{read_l1, reload_l1}
use lbd.Qcow2.Swap.{BaseFiles}
use lbd.Qcow2.Swap.Ends.{Counted, Ends, came, failed, read_all-Ends}
use lbd.Qcow2.Swap.Attached.{read_l1-Ends}

-- What a base must fit, the base itself, its path and the open files.
pub record Kept {k : Kernel} {fs : BaseFiles k} (c : Counted fs) (d d' : Device k) : Type 0 where
  pub bits : d'.qcow2.cluster_bits ≡ d.qcow2.cluster_bits
  pub size : d'.qcow2.virtual_size ≡ d.qcow2.virtual_size
  pub base : d'.base ≡ d.base
  pub path : d'.base_path ≡ d.base_path
  pub files : c.open_files d'.world ≡ c.open_files d.world

pub data Runs {k : Kernel} {fs : BaseFiles k} (c : Counted fs) {A : Type 0} (d : Device k)
    : Outcome A × Device k → Type 0 where
  ran : {a : A} {d' : Device k} → Kept c d d' → Runs c d (ok a, d')
  stopped : {e : Errno} {d' : Device k} → Kept c d d' → Runs c d (err e, d')

abbrev ignored : {k : Kernel} → Outcome (Unit {0}) × Device k → Outcome (Unit {0}) × Device k
ignored m = and_then (attempted m) (λ _. pure tt)

module _ {k : Kernel} {fs : BaseFiles k} (c : Counted fs) where
  pub Kept-refl : (d : Device k) → Kept c d d
  Kept-refl d = record { bits = refl; size = refl; base = refl; path = refl; files = refl }

  pub Kept-trans : {a b d : Device k} → Kept c a b → Kept c b d → Kept c a d
  Kept-trans s t = record {
    bits = t.bits ∙ s.bits;
    size = t.size ∙ s.size;
    base = t.base ∙ s.base;
    path = t.path ∙ s.path;
    files = t.files ∙ s.files;
  }

  pub Runs-trans :
      {A : Type 0} {d d' : Device k} {r : Outcome A × Device k}
      → Kept c d d'
      → Runs c d' r
      → Runs c d r
  Runs-trans s (ran t) = ran (Kept-trans s t)
  Runs-trans s (stopped t) = stopped (Kept-trans s t)

  pub Runs-bind :
      {A B : Type 0} {d : Device k} {m : Outcome A × Device k} (f : A → M k B)
      → Runs c d m
      → ((a : A) (d' : Device k) → Runs c d' (f a d'))
      → Runs c d (and_then m f)
  Runs-bind f (ran {a} {d'} s) h = Runs-trans s (h a d')
  Runs-bind f (stopped s) h = stopped s

  pub Runs-if :
      {A : Type 0} {d : Device k} (b : Bool) (x y : M k A)
      → Runs c d (x d)
      → Runs c d (y d)
      → Runs c d ((if b then x else y) d)
  Runs-if true x y h g = h
  Runs-if false x y h g = g

  Runs-ignore :
      {d : Device k} {m : Outcome (Unit {0}) × Device k} → Runs c d m → Runs c d (ignored m)
  Runs-ignore (ran s) = ran s
  Runs-ignore (stopped s) = ran s

  pub Runs-Ends :
      {A : Type 0} {P : A → Type 0} {d : Device k} {r : Outcome A × Device k}
      → Ends c P 0 d r
      → Runs c d r
  Runs-Ends (came s e p) = ran (record {
    bits = ap (λ (q : Qcow2). q.cluster_bits) s.qcow2;
    size = ap (λ (q : Qcow2). q.virtual_size) s.qcow2;
    base = s.base;
    path = s.path;
    files = e;
  })
  Runs-Ends (failed s e) = stopped (record {
    bits = ap (λ (q : Qcow2). q.cluster_bits) s.qcow2;
    size = ap (λ (q : Qcow2). q.virtual_size) s.qcow2;
    base = s.base;
    path = s.path;
    files = omega (arith, e);
  })

  write_all-Runs :
      (f : k.File) (bs : List ℕ) (pos : ℕ) (d : Device k) → Runs c d (write_all f bs pos d)
  unfolding write_all
  write_all-Runs f bs pos d = whole (k.kernel_write f bs pos d.world).0
    where
      moved : Kept c d (record d { world = (k.kernel_write f bs pos d.world).1 })
      moved = record {
        bits = refl;
        size = refl;
        base = refl;
        path = refl;
        files = c.writes f bs pos d.world;
      }

      fits :
          (b : Bool)
          → Runs c d (
            (if b then ok tt else err eio),
            record d { world = (k.kernel_write f bs pos d.world).1 },
          )
      fits true = ran moved
      fits false = stopped moved

      whole :
          (r : WriteRet)
          → Runs c d (
            whole_write (lbd.Prelude.length bs) r,
            record d { world = (k.kernel_write f bs pos d.world).1 },
          )
      whole (write_failed e) = stopped moved
      whole (wrote m) = fits (m == lbd.Prelude.length bs)

  kvmalloc-Kept : (n : ℕ) (d : Device k) → Kept c d (record d { world = (k.kvmalloc n d.world).1 })
  kvmalloc-Kept n d = record {
    bits = refl;
    size = refl;
    base = refl;
    path = refl;
    files = c.allocs n d.world;
  }

  l2_flush-Runs : (i : ℕ) (d : Device k) → Runs c d (l2_flush i d)
  unfolding l2_flush
  l2_flush-Runs i d = Runs-if (not (e.valid && e.dirty)) (pure tt) _ (ran (Kept-refl d)) (
      Runs-if (phys == 0) (fail eio) _ (stopped (Kept-refl d)) (
        Runs-trans (kvmalloc-Kept d.qcow2.cluster_size d) (
          Runs-if (not (k.kvmalloc d.qcow2.cluster_size d.world).0) (fail enomem) store
            (stopped (Kept-refl _))
            (Runs-bind (λ u. set_qcow2 (update_l2 i (λ e. record e { dirty = false })))
              (write_all-Runs d.backing_file image phys _)
              λ u d'.
                ran
                  (record { bits = refl; size = refl; base = refl; path = refl; files = refl })))))
    where
      e : L2Entry
      e = l2_at d.qcow2 i

      phys : ℕ
      phys = get_or d.qcow2.l1_table e.l1_index 0

      image : List ℕ
      image = l2_image k d.qcow2.cluster_size d.qcow2.l2_entries e.table

      store : M k (Unit {0})
      store =
          write_all d.backing_file image phys
          >> set_qcow2 (update_l2 i (λ e. record e { dirty = false }))

  flush_l2_from-Runs :
      (left i : ℕ) (d : Device k) → Runs c {A = Unit {0}} d (flush_l2_from left i d)
  unfolding flush_l2_from
  flush_l2_from-Runs zero i d = ran (Kept-refl d)
  flush_l2_from-Runs (suc left) i d =
      Runs-bind (λ u. flush_l2_from left (i + 1))
        (Runs-if ((l2_at d.qcow2 i).valid && (l2_at d.qcow2 i).dirty) (ignore (l2_flush i))
          (pure tt) (Runs-ignore (l2_flush-Runs i d)) (ran (Kept-refl d)))
        λ u d'. flush_l2_from-Runs left (i + 1) d'

  pub flush_all_l2-Runs : (d : Device k) → Runs c d (flush_all_l2 d)
  unfolding flush_all_l2
  flush_all_l2-Runs d = flush_l2_from-Runs l2_cache_size 0 d

  pub reload_l1-Runs : (d : Device k) → Runs c d (reload_l1 d)
  unfolding reload_l1
  reload_l1-Runs d = Runs-trans (kvmalloc-Kept header_size d) (
      Runs-if (not (k.kvmalloc header_size d.world).0) (fail enomem) body (stopped (Kept-refl d₁)) (
        Runs-bind (from_header d₁) (Runs-Ends (read_all-Ends c d.backing_file header_size 0 d₁))
          λ hdr d'.
            Runs-trans (record { bits = refl; size = refl; base = refl; path = refl; files = refl })
              (Runs-bind (with_table hdr)
                (Runs-Ends (
                  read_l1-Ends c d.backing_file (hdr_l1_size hdr) (hdr_l1_table_offset hdr)
                    (record d' { qcow2 = taken hdr d'.qcow2 })))
                λ l1 d''.
                  ran
                    (record { bits = refl; size = refl; base = refl; path = refl; files = refl }))))
    where
      d₁ : Device k
      d₁ = record d { world = (k.kvmalloc header_size d.world).1 }

      taken : List ℕ → Qcow2 → Qcow2
      taken hdr q = record q {
        alloc_offset = hdr_alloc_offset hdr;
        free_list_head = hdr_free_list hdr;
      }

      with_table : List ℕ → List ℕ → M k (Unit {0})
      with_table hdr l1 = set_qcow2 (λ q. record q {
        l1_table = l1;
        l1_size = hdr_l1_size hdr;
        l1_offset = hdr_l1_table_offset hdr;
      })

      from_header : Device k → List ℕ → M k (Unit {0})
      from_header dev hdr =
          set_qcow2 (taken hdr)
          >> (read_l1 dev.backing_file (hdr_l1_size hdr) (hdr_l1_table_offset hdr)
              >>= with_table hdr)

      body : M k (Unit {0})
      body = get_device >>= λ dev. (read_all dev.backing_file header_size 0 >>= from_header dev)
