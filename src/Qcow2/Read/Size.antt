-- ===== src/Qcow2/Read/Size.antt =====
-- The functions of the read path leave the size of a cluster alone.
use lbd.Prelude.{
  ℕ, ◌≡◌, refl, ◌∙◌, Bool, true, false, List, Option, none, some, arith, if◌then◌else◌, get_or,
}
use lbd.Kernel.{Kernel}
use lbd.Qcow2.State.{
  Base, Device, Outcome, ok, err, oops, M, pure, crash, ◌>>=◌, ◌>>◌, and_then, attempt, attempted,
  kernel_read, read_all, write_all,
}
use lbd.Qcow2.Cache.{find_entry, victim}
use lbd.Qcow2.Base.{
  Fill, filled, absent, broken, set_base, touch_base_l2, base_l2_get, base_load_l2,
  base_read_cluster, read_cluster, read_compressed,
}
use lbd.Qcow2.L2.{touch_l2, no_entry, read_l2_table, flush_evicted, evict_l2, load_l2, l2_get}
use lbd.Qcow2.Read.{invalidate_for_retry}
use lbd.Qcow2.Cluster.{
  Loaded, entry, null, cl_at, put_cl, cl_find, cl_alloc_entry, cl_claim, fill_missing,
  fill_unallocated, fill_allocated, cl_load,
}

module _ {k : Kernel} where
  -- The result of a call has the size of a cluster that `d` has.
  abbrev pub SameSize : {A : Type 0} → Device k → Outcome A × Device k → Type 0
  SameSize d r = r.1.qcow2.cluster_size ≡ d.qcow2.cluster_size

  -- A function that leaves it alone.
  abbrev pub Keeps : {A : Type 0} → M k A → Type 0
  Keeps m = (d : Device k) → SameSize d (m d)

  pub and_then-SameSize :
      {A B : Type 0} (d : Device k) (r : Outcome A × Device k) (f : A → M k B)
      → SameSize d r
      → ((a : A) → Keeps (f a))
      → SameSize d (and_then r f)
  and_then-SameSize d (ok a, d') f h g = g a d' ∙ h
  and_then-SameSize d (err e, d') f h g = h
  and_then-SameSize d (oops, d') f h g = h

  -- Two continuations that agree where the size of a cluster is kept.
  pub and_then-same :
      {A B : Type 0} (d : Device k) (r : Outcome A × Device k) (f g : A → M k B)
      → SameSize d r
      → ((a : A) (d' : Device k) → SameSize d (ok a, d') → f a d' ≡ g a d')
      → and_then r f ≡ and_then r g
  and_then-same d (ok a, d') f g h e = e a d' h
  and_then-same d (err x, d') f g h e = refl
  and_then-same d (oops, d') f g h e = refl

  pub attempt-Keeps : {A : Type 0} (m : M k A) → Keeps m → Keeps (attempt m)
  attempt-Keeps {A = A} m h d = go (m d) (h d)
    where
      go : (r : Outcome A × Device k) → SameSize d r → SameSize d (attempted r)
      go (ok a, d') e = e
      go (err x, d') e = e
      go (oops, d') e = e

  pub if-Keeps :
      {A : Type 0} (b : Bool) (m n : M k A) → Keeps m → Keeps n → Keeps (if b then m else n)
  if-Keeps true m n h g = h
  if-Keeps false m n h g = g

  pub read_all-Keeps : (f : k.File) (n pos : ℕ) → Keeps (read_all f n pos)
  unfolding read_all
  read_all-Keeps f n pos d = refl

  pub write_all-Keeps : (f : k.File) (bs : List ℕ) (pos : ℕ) → Keeps (write_all f bs pos)
  unfolding write_all
  write_all-Keeps f bs pos d = refl

  kernel_read-Keeps : (f : k.File) (n pos : ℕ) → Keeps (kernel_read f n pos)
  unfolding kernel_read
  kernel_read-Keeps f n pos d = refl

  read_l2_table-Keeps :
      (f : k.File) (n m phys : ℕ) (old : List ℕ) → Keeps (read_l2_table f n m phys old)
  unfolding read_l2_table read_all
  read_l2_table-Keeps f n m phys old d = ground arith

  pub cl_find-Keeps : (c : ℕ) → Keeps (cl_find c)
  unfolding cl_find
  cl_find-Keeps c d = ground arith

  pub cl_claim-Keeps : (c : ℕ) → Keeps (cl_claim c)
  unfolding cl_claim cl_alloc_entry
  cl_claim-Keeps c d = ground arith

  evict_l2-Keeps : (i : ℕ) → Keeps (evict_l2 i)
  unfolding evict_l2 flush_evicted write_all
  evict_l2-Keeps i d = ground arith

  load_l2-Keeps : (i j : ℕ) → Keeps (load_l2 i j)
  unfolding load_l2 read_l2_table read_all
  load_l2-Keeps i j d = ground arith

  pub l2_get-Keeps : (j : ℕ) → Keeps (l2_get j)
  unfolding l2_get
  l2_get-Keeps j d =
      go (find_entry (λ e. e.valid) (λ e. e.l1_index) d.qcow2.l2_cache j)
        (victim (λ e. e.valid) (λ e. e.lru) d.qcow2.l2_cache)
    where
      go :
          (o v : Option ℕ)
          → SameSize d (
              (elim o as (λ x. M k (Option ℕ)) [
                | some i ↦ (do touch_l2 i; pure (some i))
                | none ↦ elim v as (λ x. M k (Option ℕ)) [
                  | none ↦ crash
                  | some i ↦ (do evict_l2 i; load_l2 i j)
                ]
              ])
                d)
      go (some i) v = refl
      go none none = refl
      go none (some i) =
          and_then-SameSize d (evict_l2 i d) (λ x. load_l2 i j) (evict_l2-Keeps i d)
            (λ x. load_l2-Keeps i j)

  read_cluster-Keeps : (f : k.File) (n e : ℕ) (buf : List ℕ) → Keeps (read_cluster f n e buf)
  unfolding read_cluster read_compressed kernel_read
  read_cluster-Keeps f n e buf d = ground arith

  base_load_l2-Keeps : (b : Base k) (i j : ℕ) → Keeps (base_load_l2 b i j)
  unfolding base_load_l2 read_l2_table read_all
  base_load_l2-Keeps b i j d = ground arith

  base_l2_get-Keeps : (b : Base k) (j : ℕ) → Keeps (base_l2_get b j)
  unfolding base_l2_get
  base_l2_get-Keeps b j d =
      go (find_entry (λ e. e.valid) (λ e. e.l1_index) b.l2_cache j)
        (victim (λ e. e.valid) (λ e. e.lru) b.l2_cache)
    where
      go :
          (o v : Option ℕ)
          → SameSize d (
              (elim o as (λ x. M k (Option (List ℕ))) [
                | some i ↦ (do
                  set_base (touch_base_l2 i b)
                  pure (some (get_or b.l2_cache i no_entry).table))
                | none ↦ elim v as (λ x. M k (Option (List ℕ))) [
                  | none ↦ crash
                  | some i ↦ base_load_l2 b i j
                ]
              ])
                d)
      go (some i) v = refl
      go none none = refl
      go none (some i) = base_load_l2-Keeps b i j d

  base_read_cluster-Keeps :
      (b : Base k) (n c : ℕ) (buf : List ℕ) → Keeps (base_read_cluster b n c buf)
  unfolding base_read_cluster kernel_read
  base_read_cluster-Keeps b n c buf d = grind (arith, base_l2_get-Keeps, read_cluster-Keeps)

  fill_missing-Keeps : (i : ℕ) → Keeps (fill_missing i)
  unfolding fill_missing
  fill_missing-Keeps i d = ground arith

  fill_unallocated-Keeps : (i c : ℕ) → Keeps (fill_unallocated i c)
  unfolding fill_unallocated
  fill_unallocated-Keeps i c d = go d.base
    where
      after : Fill → M k Loaded
      after absent = fill_missing i
      after (broken e bytes) = (do put_cl i bytes false; pure null)
      after (filled bytes) = (do put_cl i bytes true; pure (entry i))

      after-Keeps : (r : Fill) → Keeps (after r)
      after-Keeps absent d' = fill_missing-Keeps i d'
      after-Keeps (broken e bytes) d' = refl
      after-Keeps (filled bytes) d' = refl

      go :
          (o : Option (Base k))
          → SameSize d (
              (elim o as (λ x. M k Loaded) [
                | none ↦ fill_missing i
                | some b ↦ (do
                  r ← base_read_cluster b d.qcow2.cluster_size c (cl_at d.qcow2 i).bytes
                  elim r [
                    | absent ↦ fill_missing i
                    | broken e bytes ↦ (do put_cl i bytes false; pure null)
                    | filled bytes ↦ (do put_cl i bytes true; pure (entry i))
                  ])
              ])
                d)
      go none = fill_missing-Keeps i d
      go (some b) =
          and_then-SameSize d (base_read_cluster b d.qcow2.cluster_size c (cl_at d.qcow2 i).bytes d)
            after (base_read_cluster-Keeps b d.qcow2.cluster_size c (cl_at d.qcow2 i).bytes d)
            after-Keeps

  fill_allocated-Keeps : (i e : ℕ) → Keeps (fill_allocated i e)
  unfolding fill_allocated
  fill_allocated-Keeps i e d = grind (arith, read_cluster-Keeps)

  pub cl_load-Keeps : (c : ℕ) → Keeps (cl_load c)
  unfolding cl_load
  cl_load-Keeps c d = grind (
    arith, cl_find-Keeps, l2_get-Keeps, cl_claim-Keeps, fill_unallocated-Keeps,
    fill_allocated-Keeps,
  )

  pub invalidate_for_retry-Keeps : (c : ℕ) → Keeps (invalidate_for_retry c)
  unfolding invalidate_for_retry
  invalidate_for_retry-Keeps c d = ground arith
