-- ===== src/Qcow2/Swap/Ends.antt =====
-- What the calls of `lbd_qcow2_base_init` leave behind, on each of their ways out: the device as it
-- was, and the files that are open.
use lbd.Prelude.{
  ℕ, zero, suc, ◌-◌, ◌≡◌, refl, ◌∙◌, Bool, true, false, Bool-cases, inl, inr, List, ◌==◌,
  if◌then◌else◌, length, arith,
}
use lbd.Kernel.{Kernel, Errno, ReadRet, got, read_failed, opened, not_opened}
use lbd.Qcow2.State.{Device, M, Outcome, ok, err, pure, and_then, read_all, whole_read}
use lbd.Qcow2.Init.{alloc_many}
use lbd.Qcow2.Swap.{BaseFiles, closed, or_refuse}

-- The number of open files in the system, as the kernel's calls change it.
pub record Counted {k : Kernel} (fs : BaseFiles k) : Type 0 where
  pub open_files : k.World → ℕ
  pub opens :
      (path : List ℕ) (w : k.World) (f : k.File)
      → (fs.filp_open path w).0 ≡ opened f
      → open_files (fs.filp_open path w).1 ≡ suc (open_files w)
  pub opens_not :
      (path : List ℕ) (w : k.World) (e : Errno)
      → (fs.filp_open path w).0 ≡ not_opened e
      → open_files (fs.filp_open path w).1 ≡ open_files w
  pub closes : (f : k.File) (w : k.World) → open_files (fs.fput f w) ≡ open_files w - 1
  pub zallocs : (w : k.World) → open_files (fs.kzalloc_base w).1 ≡ open_files w
  pub allocs : (n : ℕ) (w : k.World) → open_files (k.kvmalloc n w).1 ≡ open_files w
  pub reads :
      (f : k.File) (n pos : ℕ) (w : k.World) → open_files (k.kernel_read f n pos w).1 ≡ open_files w
  pub writes :
      (f : k.File) (bs : List ℕ) (pos : ℕ) (w : k.World)
      → open_files (k.kernel_write f bs pos w).1 ≡ open_files w

-- Two devices that differ in the state of the kernel only.
pub record SameBut {k : Kernel} (d d' : Device k) : Type 0 where
  pub qcow2 : d'.qcow2 ≡ d.qcow2
  pub base : d'.base ≡ d.base
  pub path : d'.base_path ≡ d.base_path

pub SameBut-refl : {k : Kernel} (d : Device k) → SameBut d d
SameBut-refl d = record { qcow2 = refl; base = refl; path = refl }

pub SameBut-trans : {k : Kernel} {a b d : Device k} → SameBut a b → SameBut b d → SameBut a d
SameBut-trans s t = record {
  qcow2 = t.qcow2 ∙ s.qcow2;
  base = t.base ∙ s.base;
  path = t.path ∙ s.path;
}

-- A call leaves the device alone; its result is as `P` says, with as many files open as before, or
-- it fails and has closed `n` of them.
pub data Ends {k : Kernel} {fs : BaseFiles k} (c : Counted fs) {A : Type 0} (P : A → Type 0) (n : ℕ)
    (d : Device k) : Outcome A × Device k → Type 0 where
  came :
      {a : A} {d' : Device k}
      → SameBut d d'
      → c.open_files d'.world ≡ c.open_files d.world
      → P a
      → Ends c P n d (ok a, d')
  failed :
      {e : Errno} {d' : Device k}
      → SameBut d d'
      → c.open_files d'.world ≡ c.open_files d.world - n
      → Ends c P n d (err e, d')

abbrev pub Anything : {A : Type 0} → A → Type 0
Anything a = Unit

module _ {k : Kernel} {fs : BaseFiles k} (c : Counted fs) where
  pub Ends-trans :
      {A : Type 0} {P : A → Type 0} {n : ℕ} {d d' : Device k} {r : Outcome A × Device k}
      → SameBut d d'
      → c.open_files d'.world ≡ c.open_files d.world
      → Ends c P n d' r
      → Ends c P n d r
  Ends-trans s e (came t f p) = came (SameBut-trans s t) (f ∙ e) p
  Ends-trans s e (failed t f) = failed (SameBut-trans s t) (omega (arith, e, f))

  pub Ends-bind :
      {A B : Type 0} {P : A → Type 0} {Q : B → Type 0} {n : ℕ} {d : Device k}
      {m : Outcome A × Device k} (f : A → M k B)
      → Ends c P n d m
      → ((a : A) (d' : Device k) → SameBut d d' → P a → Ends c Q n d' (f a d'))
      → Ends c Q n d (and_then m f)
  Ends-bind f (came {a} {d'} s e p) h = Ends-trans s e (h a d' s p)
  Ends-bind f (failed s e) h = failed s e

  pub Ends-if :
      {A : Type 0} {P : A → Type 0} {n : ℕ} {d : Device k} (b : Bool) (x y : M k A)
      → (b ≡ true → Ends c P n d (x d))
      → (b ≡ false → Ends c P n d (y d))
      → Ends c P n d ((if b then x else y) d)
  Ends-if true x y h g = h refl
  Ends-if false x y h g = g refl

  pub Ends-or_refuse :
      {A : Type 0} {P : A → Type 0} (bad : Bool) (f : k.File) (e : Errno) (m : M k A) {d : Device k}
      → (bad ≡ false → Ends c P 1 d (m d))
      → Ends c P 1 d (or_refuse fs bad f e m d)
  Ends-or_refuse true f e m {d} h =
      failed (record { qcow2 = refl; base = refl; path = refl }) (c.closes f d.world)
  Ends-or_refuse false f e m h = h refl

  pub Ends-closed :
      {A : Type 0} {P : A → Type 0} (f : k.File) {d : Device k} {r : Outcome A × Device k}
      → Ends c P 0 d r
      → Ends c P 1 d (closed fs f r)
  Ends-closed f (came s e p) = came s e p
  Ends-closed f (failed {d' = d'} s e) =
      failed (record { qcow2 = s.qcow2; base = s.base; path = s.path })
        (omega (arith, c.closes f d'.world, e))

  pub Ends-world :
      {A : Type 0} {P : A → Type 0} {n : ℕ} (m : M k A) {d : Device k} {w : k.World}
      → c.open_files w ≡ c.open_files d.world
      → Ends c P n (record d { world = w }) (m (record d { world = w }))
      → Ends c P n d (m (record d { world = w }))
  Ends-world m e h = Ends-trans (record { qcow2 = refl; base = refl; path = refl }) e h

  whole_read-Ends :
      (n : ℕ) (r : ReadRet) (d : Device k) (w : k.World)
      → c.open_files w ≡ c.open_files d.world
      → Ends c Anything 0 d (whole_read n r, record d { world = w })
  whole_read-Ends n (read_failed x) d w e =
      failed (record { qcow2 = refl; base = refl; path = refl }) (omega (arith, e))
  whole_read-Ends n (got bs) d w e = elim (Bool-cases (length bs == n)) [
    | inl h ↦ rw h (came (record { qcow2 = refl; base = refl; path = refl }) e tt)
    | inr h ↦ rw h (failed (record { qcow2 = refl; base = refl; path = refl }) (omega (arith, e)))
  ]

  pub read_all-Ends :
      (f : k.File) (n pos : ℕ) (d : Device k) → Ends c Anything 0 d (read_all f n pos d)
  unfolding read_all
  read_all-Ends f n pos d =
      whole_read-Ends n (k.kernel_read f n pos d.world).0 d (k.kernel_read f n pos d.world).1
        (c.reads f n pos d.world)

  pub alloc_many-Ends : (m n size : ℕ) (d : Device k) → Ends c Anything m d (alloc_many n size d)
  unfolding alloc_many
  alloc_many-Ends m zero size d = came (SameBut-refl d) refl tt
  alloc_many-Ends m (suc n) size d =
      Ends-world (if (k.kvmalloc size d.world).0 then alloc_many n size else pure false)
        (c.allocs size d.world)
        (Ends-if (k.kvmalloc size d.world).0 (alloc_many n size) (pure false)
          (λ e. alloc_many-Ends m n size (record d { world = (k.kvmalloc size d.world).1 }))
          (λ e. came (SameBut-refl _) refl tt))
