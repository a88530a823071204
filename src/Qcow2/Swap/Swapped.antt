-- ===== src/Qcow2/Swap/Swapped.antt =====
-- What `lbd_qcow2_swap_base` leaves behind, on each of its ways out.
use lbd.Prelude.{
  ℕ, ◌+◌, ◌-◌, ◌≡◌, refl, sym, ap, subst, ◌∙◌, Bool, true, false, List, Option, none, some,
  if◌then◌else◌, take, map, arith,
}
use lbd.Kernel.{Kernel, Errno}
use lbd.Qcow2.State.{
  Base, Device, M, Outcome, ok, err, pure, and_then, attempted, get_device, ◌>>=◌, ◌>>◌,
}
use lbd.Qcow2.Base.{set_base}
use lbd.Qcow2.Init.{reload_l1, invalidate_all_caches, forget_l2, forget_cl}
use lbd.Qcow2.Swap.{BaseFiles, base_destroy, base_init, swap_base, base_path_max}
use lbd.Qcow2.Swap.Ends.{Counted}
use lbd.Qcow2.Swap.Attached.{
  AllStale, AllStale-map, length-map, Fits, Attached, attached, refused, base_init-Attached,
}
use lbd.Qcow2.Swap.Reload.{Kept, Runs, ran, stopped, flush_all_l2-Runs, reload_l1-Runs}

-- The number of files that a base keeps open.
abbrev pub files_of : {k : Kernel} → Option (Base k) → ℕ
files_of none = 0
files_of (some b) = 1

-- How `lbd_qcow2_swap_base` ends. `swapped`: the new base fits the primary, the path is its path cut
-- to the size of the field, and no entry of a cache is valid. `lost`: the new base was not opened,
-- and the old one is gone. `unloaded`: the new base fits, but the L1 table could not be read.
pub data Swapped {k : Kernel} {fs : BaseFiles k} (c : Counted fs) (path : List ℕ) (d : Device k)
    : Outcome (Unit {0}) × Device k → Type 0 where
  swapped :
      {d' : Device k} {b : Base k}
      → d'.base ≡ some b
      → Fits d.qcow2.cluster_bits d.qcow2.virtual_size b
      → AllStale (λ e. e.valid) d'.qcow2.l2_cache
      → AllStale (λ e. e.valid) d'.qcow2.cl_cache
      → d'.base_path ≡ take 255 path
      → c.open_files d'.world ≡ c.open_files d.world - files_of d.base + 1
      → Swapped c path d (ok tt, d')
  lost :
      {e : Errno} {d' : Device k}
      → d'.base ≡ none
      → d'.base_path ≡ d.base_path
      → c.open_files d'.world ≡ c.open_files d.world - files_of d.base
      → Swapped c path d (err e, d')
  unloaded :
      {e : Errno} {d' : Device k} {b : Base k}
      → d'.base ≡ some b
      → Fits d.qcow2.cluster_bits d.qcow2.virtual_size b
      → d'.base_path ≡ d.base_path
      → c.open_files d'.world ≡ c.open_files d.world - files_of d.base + 1
      → Swapped c path d (err e, d')

module _ {k : Kernel} {fs : BaseFiles k} (c : Counted fs) (path : List ℕ) where
  abbrev finish : M k (Unit {0})
  finish =
      invalidate_all_caches
      >> (λ d'. (ok tt, record d' { base_path = take (base_path_max - 1) path }))

  forget_l2-Fits :
      (d : Device k) (b : Base k)
      → Fits d.qcow2.cluster_bits d.qcow2.virtual_size b
      → Fits d.qcow2.cluster_bits d.qcow2.virtual_size
          (record b { l2_cache = map forget_l2 b.l2_cache })
  forget_l2-Fits d b f = record {
    as_large = f.as_large;
    cluster = f.cluster;
    entries = f.entries;
    table = f.table;
    cache = length-map forget_l2 b.l2_cache ∙ f.cache;
    stale = λ q. AllStale-map (λ e. e.valid) forget_l2 (λ e. refl) b.l2_cache;
  }

  -- The new base is attached and the L1 table is read.
  finish-Swapped :
      (d d' : Device k) (b : Base k)
      → d'.base ≡ some b
      → Fits d.qcow2.cluster_bits d.qcow2.virtual_size b
      → c.open_files d'.world ≡ c.open_files d.world - files_of d.base + 1
      → Swapped c path d (finish d')
  unfolding invalidate_all_caches
  finish-Swapped d d' b e f n =
      subst (λ (o : Option (Base k)). Swapped c path d (finish (record d' { base = o }))) (sym e)
        (either b.is_qcow2)
    where
      stale_l2 : AllStale (λ e. e.valid) (map forget_l2 d'.qcow2.l2_cache)
      stale_l2 = AllStale-map (λ e. e.valid) forget_l2 (λ e. refl) d'.qcow2.l2_cache

      stale_cl : AllStale (λ e. e.valid) (map forget_cl d'.qcow2.cl_cache)
      stale_cl = AllStale-map (λ e. e.valid) forget_cl (λ e. refl) d'.qcow2.cl_cache

      d₁ : Device k
      d₁ = record d' {
        qcow2 = record (d'.qcow2) {
          cl_cache = map forget_cl d'.qcow2.cl_cache;
          l2_cache = map forget_l2 d'.qcow2.l2_cache;
        };
        base = some b;
      }

      either :
          (q : Bool)
          → Swapped c path d (
              and_then
                ((if q
                    then set_base (record b { l2_cache = map forget_l2 b.l2_cache })
                    else pure tt)
                  d₁)
                (λ _ d'. (ok tt, record d' { base_path = take (base_path_max - 1) path })))
      either true = swapped refl (forget_l2-Fits d b f) stale_l2 stale_cl refl n
      either false = swapped refl f stale_l2 stale_cl refl n

  -- The old base is gone, and the new one was tried.
  opened-Swapped :
      (d d₁ : Device k) (r : Outcome (Unit {0}) × Device k)
      → d₁.qcow2.cluster_bits ≡ d.qcow2.cluster_bits
      → d₁.qcow2.virtual_size ≡ d.qcow2.virtual_size
      → d₁.base ≡ none
      → d₁.base_path ≡ d.base_path
      → c.open_files d₁.world ≡ c.open_files d.world - files_of d.base
      → Attached c d₁ r
      → Swapped c path d (and_then r (λ _. reload_l1 >> finish))
  opened-Swapped d d₁ _ bits size gone same n (refused s m) =
      lost (s.base ∙ gone) (s.path ∙ same) (m ∙ n)
  opened-Swapped d d₁ _ bits size gone same n (attached {d' = d'} {b = b} q p m e f) =
      reloaded (reload_l1-Runs c d')
    where
      fits : Fits d.qcow2.cluster_bits d.qcow2.virtual_size b
      fits =
          subst (λ (n : ℕ). Fits n d.qcow2.virtual_size b) bits
            (subst (λ (n : ℕ). Fits d₁.qcow2.cluster_bits n b) size f)

      reloaded :
          {r : Outcome (Unit {0}) × Device k}
          → Runs c d' r
          → Swapped c path d (and_then r (λ _. finish))
      reloaded (ran {d' = d''} t) =
          finish-Swapped d d'' b (t.base ∙ e) fits (omega (arith, t.files, m, n))
      reloaded (stopped t) =
          unloaded (t.base ∙ e) fits (t.path ∙ p ∙ same) (omega (arith, t.files, m, n))

  destroyed-Swapped :
      (d d' : Device k) (o : Option (Base k))
      → d'.base ≡ o
      → Kept c d d'
      → Swapped c path d
          (and_then (base_destroy fs o d') (λ _. base_init fs path >> (reload_l1 >> finish)))
  unfolding base_destroy
  destroyed-Swapped d d' none e s =
      opened-Swapped d d' (base_init fs path d') s.bits s.size e s.path
        (omega (arith, s.files, ap files_of (sym s.base ∙ e))) (base_init-Attached c path d')
  destroyed-Swapped d d' (some b) e s =
      let d₁ : Device k = record d' { world = fs.fput b.file d'.world; base = none } in
      opened-Swapped d d₁ (base_init fs path d₁) s.bits s.size refl s.path
        (omega (arith, s.files, c.closes b.file d'.world, ap files_of (sym s.base ∙ e)))
        (base_init-Attached c path d₁)

  -- Whatever the files hold and whichever call fails: where the swap succeeds, the new base has the
  -- size and, if it is a qcow2 image, the clusters of the primary, its path is stored, and no entry
  -- of a cache is valid; where it fails, the path stays, and there is no base at all, or the new one
  -- where only the L1 table was not read. No file stays open but that of the base.
  pub swap_base-Swapped : (d : Device k) → Swapped c path d (swap_base fs path d)
  unfolding swap_base
  swap_base-Swapped d = flushed (flush_all_l2-Runs c d)
    where
      destroyed :
          (d' : Device k)
          → Kept c d d'
          → Swapped c path d (
              and_then
                (base_destroy fs d'.base d')
                (λ _. base_init fs path >> (reload_l1 >> finish)))
      destroyed d' s = destroyed-Swapped d d' d'.base refl s

      flushed :
          {r : Outcome (Unit {0}) × Device k}
          → Runs c d r
          → Swapped c path d (
              and_then (and_then (attempted r) (λ _. pure tt)) (λ _. get_device >>= λ d.
              (base_destroy fs d.base >> (base_init fs path >> (reload_l1 >> finish)))))
      flushed (ran {d' = d'} s) = destroyed d' s
      flushed (stopped {d' = d'} s) = destroyed d' s
