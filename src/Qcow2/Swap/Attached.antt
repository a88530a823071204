-- ===== src/Qcow2/Swap/Attached.antt =====
-- What `lbd_qcow2_base_init` leaves behind, on each of its ways out.
use lbd.Prelude.{
  ℕ, zero, suc, ◌-◌, ◌*◌, ◌/◌, ◌^◌, ◌≡◌, refl, ap, subst, ◌∙◌, Bool, true, false, not, List, [],
  ◌∷◌, some, ◌==◌, if◌then◌else◌, length, length-replicate, map, arith,
}
use lbd.Kernel.{Kernel, Errno, enomem, einval, Opened, opened, not_opened}
use lbd.Format.{qcow2_magic, qcow2_version, header_size, l2_trailer_size, get64}
use lbd.Format.Header.{hdr_version, hdr_cluster_bits, hdr_virtual_size}
use lbd.Qcow2.Base.{set_base}
use lbd.Qcow2.State.{
  Qcow2, and_then, Base, Device, M, Outcome, ok, err, pure, fail, ◌>>=◌, read_all,
}
use lbd.Qcow2.L2.{l2_cache_size, words_of, no_entry}
use lbd.Qcow2.Init.{alloc_many, read_l1, fresh_l2}
use lbd.Qcow2.Swap.{
  BaseFiles, zeroed, with_base_header, closing, or_refuse, buffer_too, with_cache, alloc_base_cache,
  load_base, accept_header, open_qcow2_base, open_raw_base, open_base_by, open_base, attach_opened,
  base_init,
}
use lbd.Qcow2.Swap.Ends.{
  Counted, SameBut, SameBut-refl, SameBut-trans, Ends, came, failed, Ends-bind, Ends-if,
  Ends-or_refuse, Ends-closed, Ends-world, read_all-Ends, alloc_many-Ends,
}

-- No entry of a cache is valid.
unfoldable pub AllStale : {E : Type 0} → (E → Bool) → List E → Type 0
AllStale valid [] = Unit
AllStale valid (e ∷ es) = (valid e ≡ false) × AllStale valid es

-- A base of the size and, if it is a qcow2 image, with the clusters of the primary.
pub record Fits {k : Kernel} (bits size : ℕ) (b : Base k) : Type 0 where
  pub as_large : b.size ≡ size
  pub cluster : b.is_qcow2 ≡ true → b.cluster_size ≡ 2 ^ bits
  pub entries : b.is_qcow2 ≡ true → b.l2_entries ≡ (2 ^ bits - l2_trailer_size) / 8
  pub table : b.is_qcow2 ≡ true → length b.l1_table ≡ b.l1_size
  pub cache : length b.l2_cache ≡ l2_cache_size
  pub stale : b.is_qcow2 ≡ true → AllStale (λ e. e.valid) b.l2_cache

length-words_of : (n : ℕ) (raw : List ℕ) → length (words_of n raw) ≡ n
unfolding words_of
length-words_of zero raw = refl
length-words_of (suc n) raw = ap suc (length-words_of n _)

pub AllStale-map :
    {E : Type 0} (valid : E → Bool) (f : E → E)
    → ((e : E) → valid (f e) ≡ false)
    → (es : List E) → AllStale valid (map f es)
unfolding AllStale
AllStale-map valid f h [] = tt
AllStale-map valid f h (e ∷ es) = (h e, AllStale-map valid f h es)

pub length-map : {E : Type 0} (f : E → E) (es : List E) → length (map f es) ≡ length es
length-map f [] = refl
length-map f (e ∷ es) = ap suc (length-map f es)

module _ {k : Kernel} {fs : BaseFiles k} (c : Counted fs) where
  pub read_l1-Ends :
      (f : k.File) (n off : ℕ) (d : Device k) → Ends c (λ l1. length l1 ≡ n) 0 d (read_l1 f n off d)
  unfolding read_l1
  read_l1-Ends f n off d = Ends-bind c after (alloc_many-Ends c 0 2 (n * 8) d) λ given d' s p.
      elim given as (λ g. Ends c (λ l1. length l1 ≡ n) 0 d' (after g d')) [
        | false ↦ failed (SameBut-refl d') (omega arith)
        | true ↦
            Ends-bind c (λ raw. pure (words_of n raw)) (read_all-Ends c f (n * 8) off d')
              λ raw d'' s p. came (SameBut-refl d'') refl (length-words_of n raw)
      ]
    where
      after : Bool → M k (List ℕ)
      after given =
          if not given
          then fail enomem
          else (do raw ← read_all f (n * 8) off; pure (words_of n raw))

  -- What is known of a base before its table is read.
  record Sized (bits size : ℕ) (b : Base k) : Type 0 where
    as_large : b.size ≡ size
    cluster : b.cluster_size ≡ 2 ^ bits
    entries : b.l2_entries ≡ (2 ^ bits - l2_trailer_size) / 8
    cache : length b.l2_cache ≡ l2_cache_size

  alloc_base_cache-Ends :
      (bits size : ℕ) (b : Base k) (d : Device k)
      → Sized bits size b
      → length b.l1_table ≡ b.l1_size
      → Ends c (Fits bits size) 1 d (alloc_base_cache fs b d)
  unfolding alloc_base_cache
  alloc_base_cache-Ends bits size b d s l =
      Ends-bind c (λ t. buffer_too fs b.cluster_size t >>= with_cache fs b)
        (alloc_many-Ends c 1 l2_cache_size b.cluster_size d)
        λ tables d₁ s₁ p₁.
          Ends-bind c (with_cache fs b)
            (Ends-if c tables (alloc_many 1 (k.lz4_compress_bound b.cluster_size)) (pure false)
              (λ e. alloc_many-Ends c 1 1 (k.lz4_compress_bound b.cluster_size) d₁)
              (λ e. came (SameBut-refl d₁) refl tt))
            λ given d₂ s₂ p₂.
              Ends-or_refuse c (not given) b.file enomem
                (pure (record b { l2_cache = map (fresh_l2 b.cluster_size) b.l2_cache }))
                λ e. came (SameBut-refl d₂) refl (record {
                  as_large = s.as_large;
                  cluster = λ q. s.cluster;
                  entries = λ q. s.entries;
                  table = λ q. l;
                  cache = length-map (fresh_l2 b.cluster_size) b.l2_cache ∙ s.cache;
                  stale = λ q.
                      AllStale-map (λ e. e.valid) (fresh_l2 b.cluster_size) (λ e. refl) b.l2_cache;
                })

  load_base-Ends :
      (bits size : ℕ) (b : Base k) (d : Device k)
      → Sized bits size b
      → Ends c (Fits bits size) 1 d (load_base fs b d)
  unfolding load_base
  load_base-Ends bits size b d s =
      Ends-bind c (λ l1. alloc_base_cache fs (record b { l1_table = l1 }))
        (Ends-closed c b.file (read_l1-Ends b.file b.l1_size b.l1_offset d))
        λ l1 d' t l.
          alloc_base_cache-Ends bits size (record b { l1_table = l1 }) d'
            (record {
              as_large = s.as_large;
              cluster = s.cluster;
              entries = s.entries;
              cache = s.cache;
            })
            l

  accept_header-Ends :
      (f : k.File) (hdr : List ℕ) (d : Device k)
      → Ends c (Fits d.qcow2.cluster_bits d.qcow2.virtual_size) 1 d (accept_header fs f hdr d)
  unfolding accept_header
  accept_header-Ends f hdr d =
      Ends-or_refuse c (not (hdr_version hdr == qcow2_version)) f einval _ λ v.
        Ends-or_refuse c (not (b.cluster_bits == d.qcow2.cluster_bits)) f einval _ λ e.
          Ends-or_refuse c (not (b.size == d.qcow2.virtual_size)) f einval (load_base fs b) λ z.
            load_base-Ends d.qcow2.cluster_bits d.qcow2.virtual_size b d
              (sized (ground arith) (ground arith))
    where
      b : Base k
      b = with_base_header fs hdr (zeroed fs f)

      sized :
          hdr_cluster_bits hdr ≡ d.qcow2.cluster_bits
          → hdr_virtual_size hdr ≡ d.qcow2.virtual_size
          → Sized d.qcow2.cluster_bits d.qcow2.virtual_size b
      sized e z = record {
        as_large = z;
        cluster = ap (λ (n : ℕ). 2 ^ n) e;
        entries = ap (λ (n : ℕ). (2 ^ n - l2_trailer_size) / 8) e;
        cache = length-replicate l2_cache_size no_entry;
      }

  open_qcow2_base-Ends :
      (f : k.File) (d : Device k)
      → Ends c (Fits d.qcow2.cluster_bits d.qcow2.virtual_size) 1 d (open_qcow2_base fs f d)
  unfolding open_qcow2_base
  open_qcow2_base-Ends f d = Ends-world c rest (c.allocs header_size d.world) (
      Ends-or_refuse c (not (k.kvmalloc header_size d.world).0) f enomem body λ e.
        Ends-bind c (accept_header fs f) (Ends-closed c f (read_all-Ends c f header_size 0 d₁))
          λ hdr d' s p.
            subst
              (λ (q : Qcow2).
                Ends c (Fits q.cluster_bits q.virtual_size) 1 d' (accept_header fs f hdr d'))
              s.qcow2 (accept_header-Ends f hdr d'))
    where
      d₁ : Device k
      d₁ = record d { world = (k.kvmalloc header_size d.world).1 }

      body : M k (Base k)
      body = closing fs f (read_all f header_size 0) >>= accept_header fs f

      rest : M k (Base k)
      rest = or_refuse fs (not (k.kvmalloc header_size d.world).0) f enomem body

  open_raw_base-Ends :
      (f : k.File) (d : Device k)
      → Ends c (Fits d.qcow2.cluster_bits d.qcow2.virtual_size) 1 d (open_raw_base fs f d)
  unfolding open_raw_base
  open_raw_base-Ends f d =
      Ends-or_refuse c (not (fs.i_size_read f d.world == d.qcow2.virtual_size)) f einval _ λ e.
        came (SameBut-refl d) refl (record {
          as_large = ground arith;
          cluster = λ q. absurd (cc);
          entries = λ q. absurd (cc);
          table = λ q. absurd (cc);
          cache = length-replicate l2_cache_size no_entry;
          stale = λ q. absurd (cc);
        })

  open_base_by-Ends :
      (f : k.File) (magic : List ℕ) (d : Device k)
      → Ends c (Fits d.qcow2.cluster_bits d.qcow2.virtual_size) 1 d (open_base_by fs f magic d)
  unfolding open_base_by
  open_base_by-Ends f magic d =
      Ends-if c (get64 magic 0 == qcow2_magic) (open_qcow2_base fs f) (open_raw_base fs f)
        (λ e. open_qcow2_base-Ends f d) (λ e. open_raw_base-Ends f d)

  open_base-Ends :
      (f : k.File) (d : Device k)
      → Ends c (Fits d.qcow2.cluster_bits d.qcow2.virtual_size) 1 d (open_base fs f d)
  unfolding open_base
  open_base-Ends f d = Ends-or_refuse c (not (fs.is_regular f)) f einval _ λ r.
      Ends-or_refuse c (fs.i_size_read f d.world == 0) f einval _ λ z.
        Ends-or_refuse c (fs.same_inode f d.backing_file) f einval _ λ o.
          Ends-world c rest (c.zallocs d.world) (
            Ends-or_refuse c (not (fs.kzalloc_base d.world).0) f enomem body λ e.
              Ends-bind c (open_base_by fs f) (Ends-closed c f (read_all-Ends c f 8 0 d₁))
                λ magic d' s p.
                  subst
                    (λ (q : Qcow2).
                      Ends c (Fits q.cluster_bits q.virtual_size) 1 d' (open_base_by fs f magic d'))
                    s.qcow2 (open_base_by-Ends f magic d'))
    where
      d₁ : Device k
      d₁ = record d { world = (fs.kzalloc_base d.world).1 }

      body : M k (Base k)
      body = closing fs f (read_all f 8 0) >>= open_base_by fs f

      rest : M k (Base k)
      rest = or_refuse fs (not (fs.kzalloc_base d.world).0) f enomem body

-- How `lbd_qcow2_base_init` ends: a base that fits the primary is attached, and its file is open; or
-- the call fails, and all is as before.
pub data Attached {k : Kernel} {fs : BaseFiles k} (c : Counted fs) (d : Device k)
    : Outcome (Unit {0}) × Device k → Type 0 where
  attached :
      {d' : Device k} {b : Base k}
      → d'.qcow2 ≡ d.qcow2
      → d'.base_path ≡ d.base_path
      → c.open_files d'.world ≡ suc (c.open_files d.world)
      → d'.base ≡ some b
      → Fits d.qcow2.cluster_bits d.qcow2.virtual_size b
      → Attached c d (ok tt, d')
  refused :
      {e : Errno} {d' : Device k}
      → SameBut d d'
      → c.open_files d'.world ≡ c.open_files d.world
      → Attached c d (err e, d')

module _ {k : Kernel} {fs : BaseFiles k} (c : Counted fs) where
  attach :
      (d d₁ : Device k) (r : Outcome (Base k) × Device k)
      → SameBut d d₁
      → c.open_files d₁.world ≡ suc (c.open_files d.world)
      → Ends c (Fits d₁.qcow2.cluster_bits d₁.qcow2.virtual_size) 1 d₁ r
      → Attached c d (and_then r set_base)
  attach d d₁ _ s n (came {a = b} t m fits) =
      attached (t.qcow2 ∙ s.qcow2) (t.path ∙ s.path) (m ∙ n) refl
        (subst (λ (q : Qcow2). Fits q.cluster_bits q.virtual_size b) s.qcow2 fits)
  attach d d₁ _ s n (failed t m) = refused (SameBut-trans s t) (omega (arith, m, n))

  -- Whatever the file holds and whichever call fails, a base of the size and, if it is a qcow2
  -- image, the clusters of the primary is attached with one more file open, or the call fails and
  -- leaves the state of the image, the base and its path, and the number of open files as they were.
  pub base_init-Attached : (path : List ℕ) (d : Device k) → Attached c d (base_init fs path d)
  unfolding base_init attach_opened
  base_init-Attached path d =
      tried (fs.filp_open path d.world).0 (c.opens path d.world) (c.opens_not path d.world)
    where
      d₁ : Device k
      d₁ = record d { world = (fs.filp_open path d.world).1 }

      tried :
          (o : Opened k.File)
          → ((f : k.File) → o ≡ opened f → c.open_files d₁.world ≡ suc (c.open_files d.world))
          → ((e : Errno) → o ≡ not_opened e → c.open_files d₁.world ≡ c.open_files d.world)
          → Attached c d (attach_opened fs o d₁)
      tried (not_opened e) one none_more =
          refused (record { qcow2 = refl; base = refl; path = refl }) (none_more e refl)
      tried (opened f) one none_more =
          attach d d₁ (open_base fs f d₁) (record { qcow2 = refl; base = refl; path = refl })
            (one f refl) (open_base-Ends c f d₁)
